-- ===== src/Registry/Consistent.antt =====
-- The registries that the host's operations reach, and what holds in them.
use fakuicode.Prelude.{
  ◌≡◌, refl, ap, Bool, true, false, not, some, ◌&&◌, ◌||◌, Option, List, [], ◌∷◌, Text, text_eq,
  text_eq_iff, text_eq_self, any, filter, arith, Bool-cases, inl, inr,
}
use fakuicode.Registry.{
  Tool, ToolRegistry, has_name, add_name, discard_name, names_of, lookup, put, pop, register,
  mark_system, unregister, set_visible_tools, set_tool_ceiling, replace_optional,
}

-- Equal names are the same to every list of names.
pub has_name-eq :
    (n m : Text) (names : List Text) → text_eq n m ≡ true → has_name n names ≡ has_name m names
has_name-eq n m names h = ap (λ t. has_name t names) ((text_eq_iff n m).0 h)

pub has_name-add :
    (n name : Text) (names : List Text)
    → has_name n (add_name name names) ≡ (text_eq n name || has_name n names)
unfolding any
has_name-add n name names =
    ground (arith, has_name-eq n name names, text_eq_self name, text_eq_iff n name)

pub has_name-discard :
    (n name : Text) (names : List Text)
    → has_name n (discard_name name names) ≡ (not (text_eq name n) && has_name n names)
unfolding any filter
has_name-discard n name [] = ground arith
has_name-discard n name (m ∷ names) =
    ground (
      arith,
      has_name-discard n name names,
      text_eq_iff n m,
      text_eq_iff name m,
      text_eq_iff name n,
    )

-- A name that is in one list and not in another differs from one that is the other way round.
pub other_name :
    (n name : Text) (names : List Text)
    → has_name name names ≡ false
    → has_name n names ≡ true
    → text_eq n name ≡ false
other_name n name names f t = elim (Bool-cases (text_eq n name)) [
  | inl e ↦ absurd (ground (arith, f, t, has_name-eq n name names e))
  | inr e ↦ e
]

module _ {W : Type 0} where
  pub has_name-put :
      (n name : Text) (tool : Tool W) (tools : List (Text × Tool W))
      → has_name n (names_of (put name tool tools))
        ≡ (text_eq n name || has_name n (names_of tools))
  unfolding any put
  has_name-put n name tool [] = refl
  has_name-put n name tool ((key, old) ∷ tools) = ground (
    arith,
    has_name-put n name tool tools,
    text_eq_iff name key,
    text_eq_iff n key,
    text_eq_iff n name,
  )

  -- Another name is found as before.
  pub lookup-put_ne :
      (n name : Text) (tool : Tool W) (tools : List (Text × Tool W))
      → text_eq n name ≡ false
      → lookup n (put name tool tools) ≡ lookup n tools
  unfolding lookup put
  lookup-put_ne n name tool [] h = ground (arith, h)
  lookup-put_ne n name tool ((key, old) ∷ tools) h = ground (
    arith,
    lookup-put_ne n name tool tools h,
    text_eq_iff name key,
    text_eq_iff n key,
    text_eq_iff n name,
    h,
  )

  pub lookup-pop_ne :
      (n name : Text) (tools : List (Text × Tool W))
      → text_eq n name ≡ false
      → lookup n (pop name tools) ≡ lookup n tools
  unfolding lookup pop
  lookup-pop_ne n name [] h = refl
  lookup-pop_ne n name ((key, old) ∷ tools) h = ground (
    arith,
    lookup-pop_ne n name tools h,
    text_eq_iff name key,
    text_eq_iff n key,
    text_eq_iff n name,
    h,
  )

  pub has_name-pop_ne :
      (n name : Text) (tools : List (Text × Tool W))
      → text_eq n name ≡ false
      → has_name n (names_of (pop name tools)) ≡ has_name n (names_of tools)
  unfolding any pop
  has_name-pop_ne n name [] h = refl
  has_name-pop_ne n name ((key, old) ∷ tools) h = ground (
    arith,
    has_name-pop_ne n name tools h,
    text_eq_iff name key,
    text_eq_iff n key,
    text_eq_iff n name,
    h,
  )

  pub lookup-put :
      (name : Text) (tool : Tool W) (tools : List (Text × Tool W))
      → lookup name (put name tool tools) ≡ some tool
  unfolding lookup put
  lookup-put name tool [] = ground (arith, text_eq_self name)
  lookup-put name tool ((key, old) ∷ tools) =
      ground (arith, lookup-put name tool tools, text_eq_self name, text_eq_iff name key)

  -- What is found is registered.
  pub lookup-some :
      (name : Text) (tools : List (Text × Tool W)) {tool : Tool W}
      → lookup name tools ≡ some tool
      → has_name name (names_of tools) ≡ true
  unfolding lookup any
  lookup-some name [] h = cc
  lookup-some name ((key, old) ∷ tools) h = elim (Bool-cases (text_eq name key)) [
    | inl e ↦ ground (arith, e)
    | inr e ↦ ground (arith, e, lookup-some name tools (rw e at h))
  ]

  -- Optional tools are registered.
  abbrev pub OptionalKnown : ToolRegistry W → Type 0
  OptionalKnown r =
      (n : Text) → has_name n r.optional_names ≡ true → has_name n (names_of r.tools) ≡ true

  -- The tool is registered under the name and is not optional.
  pub record Standing (n : Text) (tool : Tool W) (r : ToolRegistry W) : Type 0 where
    pub found : lookup n r.tools ≡ some tool
    pub required : has_name n r.optional_names ≡ false

  -- One critical section of an operation of the host, successful or not. `marks` is the second one
  -- of `register_system`, here for any name at any time; the first one is `registers`.
  pub data Step : ToolRegistry W → ToolRegistry W → Type 0 where
    registers : (r : ToolRegistry W) (tool : Tool W) → Step r (register tool r).0
    marks : (r : ToolRegistry W) (name : Text) → Step r (mark_system name r)
    unregisters : (r : ToolRegistry W) (name : Text) → Step r (unregister name r).0
    replaces :
        (r : ToolRegistry W) (name : Text) (tool : Option (Tool W))
        → Step r (replace_optional name tool r).0
    shows :
        (r : ToolRegistry W) (names : Option (List Text)) (b : Bool)
        → Step r (set_visible_tools names b r)
    limits :
        (r : ToolRegistry W) (names : Option (List Text)) (b : Bool)
        → Step r (set_tool_ceiling names b r)

  -- Any number of sections of any threads, in any order.
  pub data Reach (r : ToolRegistry W) : ToolRegistry W → Type 0 where
    start : Reach r r
    next : {s t : ToolRegistry W} → Reach r s → Step s t → Reach r t

  -- The step does not unregister the name.
  abbrev pub Leaves : Text → {r s : ToolRegistry W} → Step r s → Type 0
  Leaves n (unregisters r name) = text_eq n name ≡ false
  Leaves n _ = Unit

  -- Any number of sections, none of which unregisters the name.
  pub data LeavingAlone (n : Text) (r : ToolRegistry W) : ToolRegistry W → Type 0 where
    at_once : LeavingAlone n r r
    later :
        {s t : ToolRegistry W}
        → LeavingAlone n r s
        → (st : Step s t) → Leaves n st
        → LeavingAlone n r t
