-- ===== src/Registry/Optional.antt =====
-- The optional tools of the registry, through the critical sections of all threads.
use fakuicode.Prelude.{
  text_eq_comm, ◌≡◌, ◌∙◌, false, not, ◌&&◌, Option, none, some, Text, text_eq, if_ind, arith,
  Bool-cases, inl, inr,
}
use fakuicode.Registry.{
  Tool, ToolRegistry, Change, has_name, discard_name, names_of, put, pop, register, unregister,
  set_visible_tools, set_tool_ceiling, replace_with, replace_optional,
}
use fakuicode.Registry.Consistent.{
  OptionalKnown, Reach, Step, has_name-add, has_name-discard, has_name-pop_ne, has_name-put, limits,
  next, registers, marks, replaces, shows, start, unregisters,
}

module _ {W : Type 0} where
  put-OptionalKnown :
      (r : ToolRegistry W) (name : Text) (tool : Tool W)
      → OptionalKnown r
      → OptionalKnown (record r { tools = put name tool r.tools })
  put-OptionalKnown r name tool known n h =
      ground (arith, has_name-put n name tool r.tools, known n h)

  pop-OptionalKnown :
      (r : ToolRegistry W) (name : Text)
      → OptionalKnown r
      → OptionalKnown (record r {
        tools = pop name r.tools;
        optional_names = discard_name name r.optional_names;
      })
  pop-OptionalKnown r name known n h =
      let e = has_name-discard n name r.optional_names in
      has_name-pop_ne n name r.tools (text_eq_comm n name ∙ ground (arith, h, e))
      ∙ known n (ground (arith, h, e))

  replace_with-OptionalKnown :
      (r : ToolRegistry W) (name : Text) (tool : Option (Tool W))
      → OptionalKnown r
      → OptionalKnown (replace_with name tool r).0
  replace_with-OptionalKnown r name none known = pop-OptionalKnown r name known
  replace_with-OptionalKnown r name (some tool) known =
      if_ind (λ (t : Change W). OptionalKnown t.0) (text_eq tool.definition.name name)
        (λ _ n h. ground (
          arith,
          has_name-put n name tool r.tools,
          has_name-add n name r.optional_names,
          known n,
          h,
        ))
        (λ _. known)

  Step-OptionalKnown : {r s : ToolRegistry W} → Step r s → OptionalKnown r → OptionalKnown s
  unfolding register unregister replace_optional set_visible_tools set_tool_ceiling
  Step-OptionalKnown (registers r tool) known =
      if_ind (λ (t : Change W). OptionalKnown t.0)
        (has_name tool.definition.name (names_of r.tools)) (λ _. known)
        (λ _. put-OptionalKnown r tool.definition.name tool known)
  Step-OptionalKnown (marks r name) known = known
  Step-OptionalKnown (unregisters r name) known =
      if_ind (λ (t : Change W). OptionalKnown t.0) (has_name name r.system_names) (λ _. known)
        (λ _. pop-OptionalKnown r name known)
  Step-OptionalKnown (replaces r name tool) known =
      if_ind (λ (t : Change W). OptionalKnown t.0)
        (has_name name (names_of r.tools) && not (has_name name r.optional_names)) (λ _. known)
        (λ _. replace_with-OptionalKnown r name tool known)
  Step-OptionalKnown (shows r names b) known = known
  Step-OptionalKnown (limits r names b) known = known

  pub Reach-OptionalKnown : {r s : ToolRegistry W} → Reach r s → OptionalKnown r → OptionalKnown s
  Reach-OptionalKnown start known = known
  Reach-OptionalKnown (next p st) known = Step-OptionalKnown st (Reach-OptionalKnown p known)

  -- A free name is not optional.
  pub free-optional :
      (r : ToolRegistry W) (name : Text)
      → OptionalKnown r
      → has_name name (names_of r.tools) ≡ false
      → has_name name r.optional_names ≡ false
  free-optional r name known free = elim (Bool-cases (has_name name r.optional_names)) [
    | inl e ↦ absurd (ground (arith, free, known name e))
    | inr e ↦ e
  ]
