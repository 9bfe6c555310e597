-- ===== src/Permissions/Engine/Questions.antt =====
-- When the engine asks, and what makes it stop asking.
use fakuicode.Prelude.{◌≡◌, refl, Bool, false, ◌&&◌, not, Option, none, some, List, arith}
use fakuicode.Permissions.Models.{PermissionMode, DecisionKind, Rule, PermissionSubject, Layer}
use fakuicode.Permissions.Rules.{denies}
use fakuicode.Permissions.Engine.{
  Snapshot, Guard, select_deny, select_layered_rule, danger, after_guard, decide_selected,
  decide_by_rules, rule_decision, or_mode, decide,
}

-- The engine came as far as its mode: no boundary and no rule decides.
pub record IsUndecided (snapshot : Snapshot) (guard : Guard) (subject : PermissionSubject)
    (session_rules : List Rule) (read_only_task : Bool) : Type 0 where
  pub in_plan : (read_only_task && not subject.read_only) ≡ false
  pub harmless : danger guard subject ≡ none
  pub no_denial : select_deny snapshot.user_rules subject ≡ none
  pub unselected : select_layered_rule snapshot subject session_rules ≡ none
  pub unlocked : (snapshot.locked && not subject.read_only) ≡ false

rule_decision-ne-ask :
    (rule : Rule) (layer : Layer) → ¬ ((rule_decision rule layer).kind ≡ DecisionKind.ask)
unfolding rule_decision
rule_decision-ne-ask rule layer h = ground arith

kind-rule_decision_allow :
    (rule : Rule) (layer : Layer)
    → denies rule ≡ false
    → (rule_decision rule layer).kind ≡ DecisionKind.allow
unfolding rule_decision
kind-rule_decision_allow rule layer h = ground arith

module _ (snapshot : Snapshot) (guard : Guard) (subject : PermissionSubject)
    (session_rules : List Rule) where
  decide_selected-ask :
      (selected : Option Rule) (preauthorized : Bool) (mode : PermissionMode)
      → (decide_selected snapshot subject selected preauthorized mode).kind ≡ DecisionKind.ask
      → (selected ≡ none) × ((snapshot.locked && not subject.read_only) ≡ false)
  unfolding decide_selected
  decide_selected-ask none preauthorized mode h = (refl, ground arith)
  decide_selected-ask (some rule) preauthorized mode h =
      absurd (ground (arith, rule_decision-ne-ask rule Layer.rule))

  decide_by_rules-ask :
      (denial : Option Rule) (preauthorized : Bool) (mode : PermissionMode)
      → (decide_by_rules snapshot subject session_rules preauthorized mode denial).kind
        ≡ DecisionKind.ask
      → (denial ≡ none)
        × ((decide_selected snapshot subject
              (select_layered_rule snapshot subject session_rules)
              preauthorized
              mode).kind
            ≡ DecisionKind.ask)
  unfolding decide_by_rules
  decide_by_rules-ask none preauthorized mode h = (refl, h)
  decide_by_rules-ask (some rule) preauthorized mode h =
      absurd (rule_decision-ne-ask rule Layer.user_global_deny h)

  decide-ask :
      (mode : Option PermissionMode) (read_only_task preauthorized : Bool)
      → (decide snapshot guard subject session_rules mode read_only_task preauthorized).kind
        ≡ DecisionKind.ask
      → ((read_only_task && not subject.read_only) ≡ false)
        × (danger guard subject ≡ none)
        × ((decide_by_rules snapshot subject session_rules preauthorized
              (or_mode mode snapshot.mode)
              (select_deny snapshot.user_rules subject)).kind
            ≡ DecisionKind.ask)
  unfolding decide after_guard
  decide-ask mode read_only_task preauthorized h = ground arith

  -- The engine asks only where no boundary and no rule decides.
  pub ask-IsUndecided :
      (mode : Option PermissionMode) (read_only_task preauthorized : Bool)
      → (decide snapshot guard subject session_rules mode read_only_task preauthorized).kind
        ≡ DecisionKind.ask
      → IsUndecided snapshot guard subject session_rules read_only_task
  ask-IsUndecided mode read_only_task preauthorized h =
      let (in_plan, harmless, ruled) = decide-ask mode read_only_task preauthorized h in
      let (no_denial, selected) = decide_by_rules-ask _ preauthorized _ ruled in
      let (unselected, unlocked) = decide_selected-ask _ preauthorized _ selected in
      record {
        in_plan = in_plan;
        harmless = harmless;
        no_denial = no_denial;
        unselected = unselected;
        unlocked = unlocked;
      }

  decide_selected-allowed :
      (selected : Option Rule) (rule : Rule) (preauthorized : Bool) (mode : PermissionMode)
      → selected ≡ some rule
      → denies rule ≡ false
      → (snapshot.locked && not subject.read_only) ≡ false
      → (decide_selected snapshot subject selected preauthorized mode).kind ≡ DecisionKind.allow
  unfolding decide_selected
  decide_selected-allowed none rule preauthorized mode e allows unlocked = cc
  decide_selected-allowed (some r) rule preauthorized mode e allows unlocked =
      ground (arith, kind-rule_decision_allow r Layer.rule)

  -- With an allowing rule selected, what was undecided is allowed.
  pub undecided-allowed :
      (session_rules' : List Rule) {rule : Rule} (mode : Option PermissionMode)
      (read_only_task preauthorized : Bool)
      → IsUndecided snapshot guard subject session_rules read_only_task
      → select_layered_rule snapshot subject session_rules' ≡ some rule
      → denies rule ≡ false
      → (decide snapshot guard subject session_rules' mode read_only_task preauthorized).kind
        ≡ DecisionKind.allow
  unfolding decide after_guard decide_by_rules
  undecided-allowed session_rules' {rule} mode read_only_task preauthorized u e allows =
      rw (u.in_plan, u.harmless, u.no_denial)
        (decide_selected-allowed _ rule preauthorized _ e allows u.unlocked)
