-- ===== src/Permissions/Engine/Session.antt =====
-- How far session rules reach into a decision.
use fakuicode.Prelude.{◌≡◌, refl, ap, Bool, Option, none, some, List}
use fakuicode.Permissions.Models.{PermissionMode, Rule, PermissionSubject}
use fakuicode.Permissions.Rules.{select_rule}
use fakuicode.Permissions.Engine.{
  Snapshot, Guard, select_deny, select_layered_rule, decide_selected, decide_by_rules, or_mode,
  decide,
}

module _ (snapshot : Snapshot) (subject : PermissionSubject) (rules rules' : List Rule)
    (same : select_rule rules subject.tool_name subject.target
      ≡ select_rule rules' subject.tool_name subject.target) where
  select_layered_rule-same :
      select_layered_rule snapshot subject rules ≡ select_layered_rule snapshot subject rules'
  unfolding select_layered_rule
  select_layered_rule-same = rw same refl

  decide_by_rules-same :
      (capable : Bool) (mode : PermissionMode) (denial : Option Rule)
      → decide_by_rules snapshot subject rules capable mode denial
        ≡ decide_by_rules snapshot subject rules' capable mode denial
  unfolding decide_by_rules
  decide_by_rules-same capable mode none =
      ap (λ o. decide_selected snapshot subject o capable mode) select_layered_rule-same
  decide_by_rules-same capable mode (some rule) = refl

  -- A decision depends on the session rules only through the one that they select.
  pub decide-same_selection :
      (guard : Guard) (mode : Option PermissionMode) (read_only_task capable : Bool)
      → decide snapshot guard subject rules mode read_only_task capable
        ≡ decide snapshot guard subject rules' mode read_only_task capable
  unfolding decide
  decide-same_selection guard mode read_only_task capable =
      rw
        (decide_by_rules-same capable (or_mode mode snapshot.mode)
          (select_deny snapshot.user_rules subject))
        refl
