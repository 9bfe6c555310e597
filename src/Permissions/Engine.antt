-- ===== src/Permissions/Engine.antt =====
-- permissions/engine.py: the layered decision. The guard of safety.py is the engine's argument
-- `command_guard`, here the function `reason` of that object.
pub mod Boundaries
pub mod Grounds
pub mod Modes
pub mod Session
pub mod Questions
use fakuicode.Prelude.{
  Bool, true, false, not, ◌&&◌, Option, none, some, String, List, [], ◌∷◌, Text, codes, text_eq,
  filter, ◌||◌, if◌then◌else◌,
}
use fakuicode.Permissions.Models.{
  PermissionMode, DecisionKind, RuleEffect, Rule, Decision, PermissionSubject, Layer, Reason,
}
use fakuicode.Permissions.Rules.{select_rule, denies}

-- `PermissionConfigSnapshot` of permissions/config.py; diagnostics and warnings are texts for
-- display that no decision reads.
pub record Snapshot : Type 0 where
  pub mode : PermissionMode
  pub user_rules : List Rule
  pub project_shared_rules : List Rule
  pub project_local_rules : List Rule
  pub project_trusted : Bool
  pub locked : Bool

abbrev pub Guard : Type 0
Guard = Text → Option String

abbrev pub decision : DecisionKind → Reason → Layer → Decision
decision kind reason layer = record { kind = kind; reason = reason; layer = layer; rule = none }

unfoldable pub rule_decision : Rule → Layer → Decision
rule_decision rule layer = record {
  kind = elim rule.effect [
    | RuleEffect.allow ↦ DecisionKind.allow
    | RuleEffect.deny ↦ DecisionKind.deny
  ];
  reason = Reason.matched rule.source rule.effect;
  layer = layer;
  rule = some rule;
}

unfoldable pub select_deny : List Rule → PermissionSubject → Option Rule
unfolding filter
select_deny rules subject = select_rule (filter denies rules) subject.tool_name subject.target

-- `for rules in (…): … if selected is not None: return selected`
abbrev pub first_selected : List (Option Rule) → Option Rule
first_selected [] = none
first_selected (some rule ∷ rest) = some rule
first_selected (none ∷ rest) = first_selected rest

abbrev pub shared_rules : Snapshot → List Rule
shared_rules snapshot =
    if snapshot.project_trusted
    then snapshot.project_shared_rules
    else filter denies snapshot.project_shared_rules

unfoldable pub select_layered_rule : Snapshot → PermissionSubject → List Rule → Option Rule
unfolding filter
select_layered_rule snapshot subject session_rules = first_selected (
    select_rule session_rules subject.tool_name subject.target
    ∷ select_rule snapshot.project_local_rules subject.tool_name subject.target
    ∷ select_rule (shared_rules snapshot) subject.tool_name subject.target
    ∷ select_rule snapshot.user_rules subject.tool_name subject.target
    ∷ [])

abbrev pub is_command : PermissionSubject → Bool
is_command subject = text_eq subject.tool_name (codes "run_command")

abbrev pub is_file_change : PermissionSubject → Bool
is_file_change subject =
    text_eq subject.tool_name (codes "write_file") || text_eq subject.tool_name (codes "edit_file")

-- What is left to the mode when no rule, no safe read and no capability has decided.
unfoldable pub decide_by_mode : PermissionMode → PermissionSubject → Decision
decide_by_mode PermissionMode.strict subject =
    decision DecisionKind.deny Reason.strict_needs_rule Layer.mode
decide_by_mode PermissionMode.trusted subject =
    if is_file_change subject
    then decision DecisionKind.allow Reason.trusted_file_changes Layer.mode
    else decision DecisionKind.ask Reason.needs_confirmation Layer.mode
decide_by_mode PermissionMode.default subject =
    decision DecisionKind.ask Reason.needs_confirmation Layer.mode

unfoldable pub decide_unselected : PermissionSubject → Bool → PermissionMode → Decision
decide_unselected subject preauthorized active_mode =
    if subject.read_only
    then decision DecisionKind.allow Reason.workspace_read Layer.safe_read
    else if preauthorized
    then decision DecisionKind.allow Reason.host_capability Layer.session_capability
    else decide_by_mode active_mode subject

-- From the selected rule on.
unfoldable pub decide_selected :
    Snapshot → PermissionSubject → Option Rule → Bool → PermissionMode → Decision
decide_selected snapshot subject none preauthorized active_mode =
    if snapshot.locked && not subject.read_only
    then decision DecisionKind.deny Reason.config_locked Layer.locked_config
    else decide_unselected subject preauthorized active_mode
decide_selected snapshot subject (some rule) preauthorized active_mode =
    if denies rule
    then rule_decision rule Layer.rule
    else if snapshot.locked && not subject.read_only
    then decision DecisionKind.deny Reason.config_locked Layer.locked_config
    else rule_decision rule Layer.rule

-- From the user's own denials on.
unfoldable pub decide_by_rules :
    Snapshot → PermissionSubject → List Rule → Bool → PermissionMode → Option Rule → Decision
decide_by_rules snapshot subject session_rules preauthorized active_mode (some global_deny) =
    rule_decision global_deny Layer.user_global_deny
decide_by_rules snapshot subject session_rules preauthorized active_mode none =
    decide_selected snapshot subject (select_layered_rule snapshot subject session_rules)
      preauthorized active_mode

abbrev pub danger : Guard → PermissionSubject → Option String
danger guard subject = if is_command subject then guard subject.target else none

unfoldable pub after_guard : Option String → Decision → Decision
after_guard (some reason) rest =
    decision DecisionKind.deny (Reason.blocked reason) Layer.dangerous_command
after_guard none rest = rest

abbrev pub or_mode : Option PermissionMode → PermissionMode → PermissionMode
or_mode none configured = configured
or_mode (some mode) configured = mode

unfoldable pub decide :
    Snapshot
    → Guard
    → PermissionSubject
    → List Rule
    → Option PermissionMode
    → Bool
    → Bool
    → Decision
decide snapshot guard subject session_rules mode read_only_task preauthorized =
    if read_only_task && not subject.read_only
    then decision DecisionKind.deny Reason.plan_mode_read_only Layer.task_mode
    else after_guard (danger guard subject) (
        decide_by_rules snapshot subject session_rules preauthorized (or_mode mode snapshot.mode)
          (select_deny snapshot.user_rules subject))
