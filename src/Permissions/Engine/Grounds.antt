-- ===== src/Permissions/Engine/Grounds.antt =====
-- On what grounds an action with side effects is allowed.
use fakuicode.Prelude.{
  ◌≡◌, refl, ◌⊎◌, inl, inr, Bool, true, false, ◌&&◌, not, Option, none, some, List, [], ◌∷◌, ◌++◌,
  In, In-append_left, In-append_right, filter-In, arith, Bool-cases, if◌then◌else◌,
}
use fakuicode.Permissions.Models.{PermissionMode, DecisionKind, Rule, PermissionSubject}
use fakuicode.Permissions.Rules.{denies, applies}
use fakuicode.Permissions.Rules.Selection.{select_rule-In}
use fakuicode.Permissions.Engine.{
  Snapshot, Guard, select_deny, shared_rules, select_layered_rule, first_selected, is_file_change,
  decide_by_mode, decide_unselected, decide_selected, or_mode, decide,
}
use fakuicode.Permissions.Engine.Boundaries.{
  decide-IsInside, select_deny-denies, decide_by_rules-allow, decide-allow,
}

-- The rules that may allow something: those of a shared project file only if it is trusted.
abbrev pub allowing_rules : Snapshot → List Rule → List Rule
allowing_rules snapshot session_rules =
    session_rules
    ++ (snapshot.project_local_rules
        ++ ((if snapshot.project_trusted then snapshot.project_shared_rules else [])
            ++ snapshot.user_rules))

first_selected-cons :
    (o : Option Rule) (rest : List (Option Rule)) {rule : Rule}
    → first_selected (o ∷ rest) ≡ some rule
    → (o ≡ some rule) ⊎ (first_selected rest ≡ some rule)
first_selected-cons none rest h = inr h
first_selected-cons (some r) rest h = inl h

shared_rules-trusted :
    (snapshot : Snapshot) {rule : Rule}
    → denies rule ≡ false
    → In rule (shared_rules snapshot)
    → In rule (if snapshot.project_trusted then snapshot.project_shared_rules else [])
shared_rules-trusted snapshot allows m = elim (Bool-cases snapshot.project_trusted) [
  | inl e ↦ rw e (rw e at m)
  | inr e ↦ absurd (cc (allows, (filter-In denies snapshot.project_shared_rules (rw e at m)).1))
]

-- A rule that applies, does not deny, and stands in a layer that may allow.
pub record AppliedRule (snapshot : Snapshot) (subject : PermissionSubject)
    (session_rules : List Rule) : Type 0 where
  pub rule : Rule
  pub member : In rule (allowing_rules snapshot session_rules)
  pub allows : denies rule ≡ false
  pub applied : applies rule subject.tool_name subject.target ≡ true

module _ (snapshot : Snapshot) (subject : PermissionSubject) (session_rules : List Rule) where
  layered_rule-AppliedRule :
      {rule : Rule}
      → select_layered_rule snapshot subject session_rules ≡ some rule
      → denies rule ≡ false
      → AppliedRule snapshot subject session_rules
  unfolding select_layered_rule
  layered_rule-AppliedRule {rule} h allows = elim (first_selected-cons _ _ h) [
    | inl found ↦
        let (m, applied) = select_rule-In session_rules _ _ found in
        record { rule = rule; member = In-append_left _ m; allows = allows; applied = applied }
    | inr h₁ ↦ elim (first_selected-cons _ _ h₁) [
      | inl found ↦
          let (m, applied) = select_rule-In snapshot.project_local_rules _ _ found in
          record {
            rule = rule;
            member = In-append_right session_rules (In-append_left _ m);
            allows = allows;
            applied = applied;
          }
      | inr h₂ ↦ elim (first_selected-cons _ _ h₂) [
        | inl found ↦
            let (m, applied) = select_rule-In (shared_rules snapshot) _ _ found in
            record {
              rule = rule;
              member = In-append_right session_rules (
                  In-append_right snapshot.project_local_rules
                    (In-append_left _ (shared_rules-trusted snapshot allows m)));
              allows = allows;
              applied = applied;
            }
        | inr h₃ ↦ elim (first_selected-cons _ _ h₃) [
          | inl found ↦
              let (m, applied) = select_rule-In snapshot.user_rules _ _ found in
              record {
                rule = rule;
                member = In-append_right session_rules (
                    In-append_right snapshot.project_local_rules (
                      In-append_right
                        (if snapshot.project_trusted then snapshot.project_shared_rules else [])
                        m));
                allows = allows;
                applied = applied;
              }
          | inr h₄ ↦ cc
        ]
      ]
    ]
  ]

  -- The grounds for an effect that is allowed without asking.
  pub data Grounds (mode : PermissionMode) (preauthorized : Bool) : Type 0 where
    by_rule : AppliedRule snapshot subject session_rules → Grounds mode preauthorized
    by_capability : preauthorized ≡ true → Grounds mode preauthorized
    by_trusted_mode :
        mode ≡ PermissionMode.trusted → is_file_change subject ≡ true → Grounds mode preauthorized

  decide_by_mode-Grounds :
      (mode : PermissionMode) (preauthorized : Bool)
      → (decide_by_mode mode subject).kind ≡ DecisionKind.allow
      → Grounds mode preauthorized
  unfolding decide_by_mode
  decide_by_mode-Grounds PermissionMode.strict preauthorized h = cc
  decide_by_mode-Grounds PermissionMode.default preauthorized h = cc
  decide_by_mode-Grounds PermissionMode.trusted preauthorized h =
      by_trusted_mode refl (ground arith)

  decide_unselected-Grounds :
      (mode : PermissionMode) (preauthorized : Bool)
      → subject.read_only ≡ false
      → (decide_unselected subject preauthorized mode).kind ≡ DecisionKind.allow
      → Grounds mode preauthorized
  unfolding decide_unselected
  decide_unselected-Grounds mode preauthorized writes h = elim (Bool-cases preauthorized) [
    | inl e ↦ by_capability e
    | inr e ↦ decide_by_mode-Grounds mode preauthorized (ground arith)
  ]

  decide_selected-Grounds :
      (selected : Option Rule) (mode : PermissionMode) (preauthorized : Bool)
      → select_layered_rule snapshot subject session_rules ≡ selected
      → ((rule : Rule) → selected ≡ some rule → denies rule ≡ false)
      → (snapshot.locked && not subject.read_only) ≡ false
      → subject.read_only ≡ false
      → (decide_selected snapshot subject selected preauthorized mode).kind ≡ DecisionKind.allow
      → Grounds mode preauthorized
  unfolding decide_selected
  decide_selected-Grounds (some rule) mode preauthorized found allows unlocked writes h =
      by_rule (layered_rule-AppliedRule found (allows rule refl))
  decide_selected-Grounds none mode preauthorized found allows unlocked writes h =
      decide_unselected-Grounds mode preauthorized writes (rw unlocked at h)

  -- An action that is not read-only is allowed without asking only because an allowing rule of a
  -- permitted layer applies to it, because a capability was granted, or because trusted mode
  -- lets files be written. The allowing rules of a project's shared file count only if the project is
  -- trusted.
  pub decide-Grounds :
      (guard : Guard) (mode : Option PermissionMode) (read_only_task preauthorized : Bool)
      → subject.read_only ≡ false
      → (decide snapshot guard subject session_rules mode read_only_task preauthorized).kind
        ≡ DecisionKind.allow
      → Grounds (or_mode mode snapshot.mode) preauthorized
  decide-Grounds guard mode read_only_task preauthorized writes h =
      let inside =
        decide-IsInside snapshot guard subject session_rules mode read_only_task preauthorized h in
      let (in_plan, harmless, ruled) =
        decide-allow snapshot guard subject session_rules mode read_only_task preauthorized h in
      let (no_denial, selected) =
        decide_by_rules-allow snapshot guard subject session_rules
          (select_deny snapshot.user_rules subject) preauthorized (or_mode mode snapshot.mode)
          (λ r e. select_deny-denies snapshot.user_rules subject e) ruled in
      decide_selected-Grounds (select_layered_rule snapshot subject session_rules)
        (or_mode mode snapshot.mode) preauthorized refl inside.rule_allows inside.unlocked writes
        selected
