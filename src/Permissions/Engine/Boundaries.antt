-- ===== src/Permissions/Engine/Boundaries.antt =====
-- What no rule, mode or capability overrides, and on what grounds an action is allowed.
use fakuicode.Prelude.{
  ◌≡◌, refl, Bool, true, false, ◌&&◌, not, Option, none, some, List, In, filter, filter-In,
  In-filter, arith,
}
use fakuicode.Permissions.Models.{PermissionMode, DecisionKind, Rule, PermissionSubject, Layer}
use fakuicode.Permissions.Rules.{denies, applies}
use fakuicode.Permissions.Rules.Selection.{select_rule-In, select_rule-none}
use fakuicode.Permissions.Engine.{
  Snapshot, Guard, select_deny, select_layered_rule, danger, after_guard, decide_selected,
  decide_by_rules, rule_decision, or_mode, decide,
}

-- The checks that stand above every rule and mode.
pub record IsInside (snapshot : Snapshot) (guard : Guard) (subject : PermissionSubject)
    (session_rules : List Rule) (read_only_task : Bool) : Type 0 where
  -- a planning task only reads
  pub in_plan : (read_only_task && not subject.read_only) ≡ false
  -- the command guard has no objection
  pub harmless : danger guard subject ≡ none
  -- no denial among the user's own rules applies
  pub not_denied :
      (rule : Rule)
      → In rule snapshot.user_rules
      → denies rule ≡ true
      → applies rule subject.tool_name subject.target ≡ false
  -- the rule of the innermost layer that has one does not deny
  pub rule_allows :
      (rule : Rule)
      → select_layered_rule snapshot subject session_rules ≡ some rule
      → denies rule ≡ false
  -- an invalid configuration lets nothing through but reads
  pub unlocked : (snapshot.locked && not subject.read_only) ≡ false

pub select_deny-none :
    (rules : List Rule) (subject : PermissionSubject)
    → select_deny rules subject ≡ none
    → (rule : Rule) → In rule rules
    → denies rule ≡ true
    → applies rule subject.tool_name subject.target ≡ false
unfolding select_deny
select_deny-none rules subject h rule m d =
    select_rule-none (filter denies rules) subject.tool_name subject.target h rule
      (In-filter denies m d)

pub select_deny-denies :
    (rules : List Rule) (subject : PermissionSubject) {rule : Rule}
    → select_deny rules subject ≡ some rule
    → denies rule ≡ true
unfolding select_deny
select_deny-denies rules subject h =
    (filter-In denies rules (select_rule-In (filter denies rules) _ _ h).0).1

kind-rule_decision :
    (rule : Rule) (layer : Layer)
    → denies rule ≡ true
    → (rule_decision rule layer).kind ≡ DecisionKind.deny
unfolding rule_decision
kind-rule_decision rule layer h = ground arith

denies-false :
    (rule : Rule) (layer : Layer)
    → (rule_decision rule layer).kind ≡ DecisionKind.allow
    → denies rule ≡ false
unfolding rule_decision
denies-false rule layer h = ground arith

module _ (snapshot : Snapshot) (guard : Guard) (subject : PermissionSubject)
    (session_rules : List Rule) where
  decide_selected-allow :
      (selected : Option Rule) (preauthorized : Bool) (mode : PermissionMode)
      → (decide_selected snapshot subject selected preauthorized mode).kind ≡ DecisionKind.allow
      → ((rule : Rule) → selected ≡ some rule → denies rule ≡ false)
        × ((snapshot.locked && not subject.read_only) ≡ false)
  unfolding decide_selected
  decide_selected-allow none preauthorized mode h = (λ rule e. cc, ground arith)
  decide_selected-allow (some rule) preauthorized mode h =
      let allowed : denies rule ≡ false = denies-false rule Layer.rule (ground arith) in
      (λ r e. ground (arith, allowed), ground (arith, kind-rule_decision rule Layer.rule))

  pub decide_by_rules-allow :
      (denial : Option Rule) (preauthorized : Bool) (mode : PermissionMode)
      → ((rule : Rule) → denial ≡ some rule → denies rule ≡ true)
      → (decide_by_rules snapshot subject session_rules preauthorized mode denial).kind
        ≡ DecisionKind.allow
      → (denial ≡ none)
        × ((decide_selected snapshot subject
              (select_layered_rule snapshot subject session_rules)
              preauthorized
              mode).kind
            ≡ DecisionKind.allow)
  unfolding decide_by_rules
  decide_by_rules-allow none preauthorized mode denial h = (refl, h)
  decide_by_rules-allow (some rule) preauthorized mode denial h =
      cc (kind-rule_decision rule Layer.user_global_deny (denial rule refl))

  pub decide-allow :
      (mode : Option PermissionMode) (read_only_task preauthorized : Bool)
      → (decide snapshot guard subject session_rules mode read_only_task preauthorized).kind
        ≡ DecisionKind.allow
      → ((read_only_task && not subject.read_only) ≡ false)
        × (danger guard subject ≡ none)
        × ((decide_by_rules snapshot subject session_rules preauthorized
              (or_mode mode snapshot.mode)
              (select_deny snapshot.user_rules subject)).kind
            ≡ DecisionKind.allow)
  unfolding decide after_guard
  decide-allow mode read_only_task preauthorized h = ground arith

  -- Whatever the rules, the mode and the capability: an action is allowed only inside the
  -- boundaries. A task that may only read writes nothing, the guard's commands are refused, a
  -- denial of the user's that applies stands, a denial by the selected rule stands, and a locked
  -- configuration allows reads alone.
  pub decide-IsInside :
      (mode : Option PermissionMode) (read_only_task preauthorized : Bool)
      → (decide snapshot guard subject session_rules mode read_only_task preauthorized).kind
        ≡ DecisionKind.allow
      → IsInside snapshot guard subject session_rules read_only_task
  decide-IsInside mode read_only_task preauthorized h =
      let (in_plan, harmless, ruled) = decide-allow mode read_only_task preauthorized h in
      let (no_denial, selected) =
        decide_by_rules-allow (select_deny snapshot.user_rules subject) preauthorized
          (or_mode mode snapshot.mode) (λ r e. select_deny-denies snapshot.user_rules subject e)
          ruled in
      let (rule_allows, unlocked) = decide_selected-allow _ preauthorized _ selected in
      record {
        in_plan = in_plan;
        harmless = harmless;
        not_denied = select_deny-none snapshot.user_rules subject no_denial;
        rule_allows = rule_allows;
        unlocked = unlocked;
      }
