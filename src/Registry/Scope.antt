-- ===== src/Registry/Scope.antt =====
-- The system tools of the registry, through the critical sections of all threads.
use fakuicode.Prelude.{
  ◌⊎◌, text_eq_self, ◌≡◌, ◌∙◌, true, false, not, ◌&&◌, Option, none, some, Text, text_eq, any,
  if_ind, arith, Bool-cases, inl, inr,
}
use fakuicode.Registry.{
  Tool, ToolRegistry, Change, has_name, discard_name, names_of, lookup, put, pop, register,
  mark_system, unregister, set_visible_tools, set_tool_ceiling, replace_with, replace_optional,
  empty_registry,
}
use fakuicode.Registry.Optional.{Reach-OptionalKnown, free-optional}
use fakuicode.Registry.Consistent.{
  OptionalKnown, Standing, Leaves, LeavingAlone, at_once, later, Reach, Step, has_name-add,
  has_name-discard, has_name-eq, limits, lookup-pop_ne, lookup-put_ne, lookup-put, lookup-some,
  next, other_name, registers, marks, replaces, shows, start, unregisters,
}

module _ {W : Type 0} where
  -- The step leaves the name alone, or the name is a system tool's.
  abbrev Spares : Text → {r s : ToolRegistry W} → Step r s → Type 0
  Spares n (unregisters r name) = (text_eq n name ≡ false) ⊎ (has_name n r.system_names ≡ true)
  Spares n _ = Unit

  Spares-Leaves : (n : Text) {r s : ToolRegistry W} (st : Step r s) → Leaves n st → Spares n st
  Spares-Leaves n (registers r tool) l = tt
  Spares-Leaves n (marks r name) l = tt
  Spares-Leaves n (unregisters r name) l = inl l
  Spares-Leaves n (replaces r name tool) l = tt
  Spares-Leaves n (shows r names b) l = tt
  Spares-Leaves n (limits r names b) l = tt

  Spares-system :
      (n : Text) {r s : ToolRegistry W} (st : Step r s)
      → has_name n r.system_names ≡ true
      → Spares n st
  Spares-system n (registers r tool) h = tt
  Spares-system n (marks r name) h = tt
  Spares-system n (unregisters r name) h = inr h
  Spares-system n (replaces r name tool) h = tt
  Spares-system n (shows r names b) h = tt
  Spares-system n (limits r names b) h = tt

  -- No section takes a name from the system tools.
  replace_with-system :
      (n name : Text) (r : ToolRegistry W) (other : Option (Tool W))
      → has_name n r.system_names ≡ true
      → has_name n (replace_with name other r).0.system_names ≡ true
  replace_with-system n name r none h = h
  replace_with-system n name r (some other) h =
      if_ind (λ (t : Change W). has_name n t.0.system_names ≡ true)
        (text_eq other.definition.name name) (λ _. h) (λ _. h)

  Step-system :
      (n : Text) {r s : ToolRegistry W}
      → Step r s
      → has_name n r.system_names ≡ true
      → has_name n s.system_names ≡ true
  unfolding register unregister replace_optional set_visible_tools set_tool_ceiling
  Step-system n (registers r tool) h =
      if_ind (λ (t : Change W). has_name n t.0.system_names ≡ true)
        (has_name tool.definition.name (names_of r.tools)) (λ _. h) (λ _. h)
  Step-system n (marks r name) h = ground (arith, has_name-add n name r.system_names, h)
  Step-system n (unregisters r name) h =
      if_ind (λ (t : Change W). has_name n t.0.system_names ≡ true) (has_name name r.system_names)
        (λ _. h) (λ _. h)
  Step-system n (replaces r name tool) h =
      if_ind (λ (t : Change W). has_name n t.0.system_names ≡ true)
        (has_name name (names_of r.tools) && not (has_name name r.optional_names)) (λ _. h)
        (λ _. replace_with-system n name r tool h)
  Step-system n (shows r names b) h = h
  Step-system n (limits r names b) h = h

  module _ (n : Text) (tool : Tool W) where
    put-Standing :
        (r : ToolRegistry W) (name : Text) (other : Tool W)
        → text_eq n name ≡ false
        → Standing n tool r
        → Standing n tool (record r { tools = put name other r.tools })
    put-Standing r name other apart p = record {
      found = lookup-put_ne n name other r.tools apart ∙ p.found;
      required = p.required;
    }

    pop-Standing :
        (r : ToolRegistry W) (name : Text)
        → text_eq n name ≡ false
        → Standing n tool r
        → Standing n tool (record r {
          tools = pop name r.tools;
          optional_names = discard_name name r.optional_names;
        })
    pop-Standing r name apart p = record {
      found = lookup-pop_ne n name r.tools apart ∙ p.found;
      required = ground (arith, has_name-discard n name r.optional_names, p.required);
    }

    replace_with-Standing :
        (r : ToolRegistry W) (name : Text) (other : Option (Tool W))
        → text_eq n name ≡ false
        → Standing n tool r
        → Standing n tool (replace_with name other r).0
    replace_with-Standing r name none apart p = pop-Standing r name apart p
    replace_with-Standing r name (some other) apart p =
        if_ind (λ (t : Change W). Standing n tool t.0) (text_eq other.definition.name name)
          (λ _. record {
            found = lookup-put_ne n name other r.tools apart ∙ p.found;
            required = ground (arith, has_name-add n name r.optional_names, apart, p.required);
          })
          (λ _. p)

    -- A name that is free or optional is another one.
    replaceable :
        (r : ToolRegistry W) (name : Text)
        → Standing n tool r
        → (has_name name (names_of r.tools) && not (has_name name r.optional_names)) ≡ false
        → text_eq n name ≡ false
    replaceable r name p h = elim (Bool-cases (text_eq n name)) [
      | inl e ↦ absurd (
          ground (
            arith,
            h,
            lookup-some n r.tools p.found,
            p.required,
            has_name-eq n name (names_of r.tools) e,
            has_name-eq n name r.optional_names e,
          ))
      | inr e ↦ e
    ]

    Step-Standing :
        {r s : ToolRegistry W} (st : Step r s) → Spares n st → Standing n tool r → Standing n tool s
    unfolding register unregister replace_optional set_visible_tools set_tool_ceiling
    Step-Standing (registers r other) spared p =
        if_ind (λ (t : Change W). Standing n tool t.0)
          (has_name other.definition.name (names_of r.tools)) (λ _. p)
          (λ free.
            put-Standing r other.definition.name other
              (other_name n other.definition.name (names_of r.tools) free
                (lookup-some n r.tools p.found))
              p)
    Step-Standing (marks r name) spared p = record { found = p.found; required = p.required }
    Step-Standing (unregisters r name) (inl apart) p =
        if_ind (λ (t : Change W). Standing n tool t.0) (has_name name r.system_names) (λ _. p)
          (λ _. pop-Standing r name apart p)
    Step-Standing (unregisters r name) (inr system) p =
        if_ind (λ (t : Change W). Standing n tool t.0) (has_name name r.system_names) (λ _. p)
          (λ free. pop-Standing r name (other_name n name r.system_names free system) p)
    Step-Standing (replaces r name other) spared p =
        if_ind (λ (t : Change W). Standing n tool t.0)
          (has_name name (names_of r.tools) && not (has_name name r.optional_names)) (λ _. p)
          (λ h. replace_with-Standing r name other (replaceable r name p h) p)
    Step-Standing (shows r names b) spared p = record { found = p.found; required = p.required }
    Step-Standing (limits r names b) spared p = record { found = p.found; required = p.required }

    LeavingAlone-Standing :
        {r s : ToolRegistry W} → LeavingAlone n r s → Standing n tool r → Standing n tool s
    LeavingAlone-Standing at_once p = p
    LeavingAlone-Standing (later q st leaves) p =
        Step-Standing st (Spares-Leaves n st leaves) (LeavingAlone-Standing q p)

    Reach-system :
        {r s : ToolRegistry W}
        → Reach r s
        → has_name n r.system_names ≡ true
        → Standing n tool r
        → (has_name n s.system_names ≡ true) × Standing n tool s
    Reach-system start h p = (h, p)
    Reach-system (next q st) h p =
        let (system, standing) = Reach-system q h p in
        (Step-system n st system, Step-Standing st (Spares-system n st system) standing)

  register-Standing :
      (r : ToolRegistry W) (tool : Tool W)
      → OptionalKnown r
      → (register tool r).1 ≡ none
      → Standing tool.definition.name tool (register tool r).0
  unfolding register
  register-Standing r tool known =
      let name = tool.definition.name in
      if_ind (λ (t : Change W). t.1 ≡ none → Standing name tool t.0)
        (has_name name (names_of r.tools)) (λ _ h. absurd (ground (arith, h)))
        (λ free _. record {
          found = lookup-put name tool r.tools;
          required = free-optional r name known free;
        })

  -- In a registry that the sections of any threads have made of the empty one, let the first section
  -- of `register_system` succeed and, after sections of other threads none of which unregisters the
  -- tool, the second one follow. Then the tool stays registered, a system tool and not replaceable
  -- as an optional one, whatever sections follow in whatever order.
  pub system_tool_stays :
      {r between s : ToolRegistry W} (tool : Tool W)
      → Reach empty_registry r
      → (register tool r).1 ≡ none
      → LeavingAlone tool.definition.name (register tool r).0 between
      → Reach (mark_system tool.definition.name between) s
      → (lookup tool.definition.name s.tools ≡ some tool)
        × (has_name tool.definition.name s.system_names ≡ true)
        × (has_name tool.definition.name s.optional_names ≡ false)
  unfolding any
  system_tool_stays {r} {between} tool before succeeds waits after =
      let name = tool.definition.name in
      let known = Reach-OptionalKnown before (λ n h. absurd (ground (arith, h))) in
      let p = LeavingAlone-Standing name tool waits (register-Standing r tool known succeeds) in
      let (system, standing) =
        Reach-system name tool after
          (ground (arith, has_name-add name name between.system_names, text_eq_self name))
          (record { found = p.found; required = p.required }) in
      (standing.found, system, standing.required)
