-- ===== src/Permissions/Manager/Samples.antt =====
-- Questions, answers and later calls of a manager for the project of the rule samples.
use fakuicode.Prelude.{
  ◌≡◌, ◌≤◌, refl, inr, true, false, none, some, [], ◌∷◌, codes, text_eq, ◌≢◌, any,
}
use fakuicode.Matching.{fullmatch}
use fakuicode.Permissions.Models.{
  PermissionMode, DecisionKind, RuleEffect, RuleSource, ApprovalChoice, PermissionScope, Decision,
  PermissionRequest, Layer, Reason,
}
use fakuicode.Permissions.Rules.{
  escape, ok, err, unknown_tool, select_rule, escape_exact_target, is_known_tool, parse_rule,
  all_name_chars,
}
use fakuicode.Permissions.Rules.Grammar.{name_shaped}
use fakuicode.Permissions.Engine.{
  Guard, is_command, decision, decide, after_guard, decide_by_rules, select_deny, decide_selected,
  select_layered_rule, decide_unselected, decide_by_mode, rule_decision,
}
use fakuicode.Permissions.Engine.Modes.{kind_rank}
use fakuicode.Permissions.Engine.Boundaries.{IsInside}
use fakuicode.Permissions.Manager.{
  open_authorize, close_authorize, authorize, explicit_ledger_decision, subject_of, question,
  settled, settle, ask_user, is_rejected, own_decision, add_session_rule,
}
use fakuicode.Permissions.ManagerState.{
  Manager, PreparedToolCall, create, begin_request, spawn_child,
}
use fakuicode.Permissions.Manager.Generated.{AllParsed}
use fakuicode.Permissions.Manager.Approvals.{
  session_approval_lasts, session_approval_is_exact, session_approval_of_unknown,
}
use fakuicode.Permissions.Manager.Rejections.{denial_is_remembered, denial_ends_with_request}
use fakuicode.Permissions.Manager.Children.{
  spawn_child_narrows, parent_ledger_skips_plan_mode, authorize-IsInside,
}
use fakuicode.Permissions.Samples.{notes_rule, project, no_objection, notes, knows_edit}

abbrev main_manager : Manager
main_manager = create project no_objection none [] none

abbrev edit_notes : PreparedToolCall
edit_notes = record {
  id = codes "call-1";
  name = codes "edit_file";
  target = codes "notes.md";
  read_only = false;
  permission_scope = PermissionScope.target;
  permission_capability = none;
}

abbrev notes_request : PermissionRequest
notes_request = record {
  request_id = codes "q1";
  call_id = codes "call-1";
  tool_name = codes "edit_file";
  target = codes "notes.md";
  reason = Reason.needs_confirmation;
  exact_rule = codes "edit_file(notes.md)";
  scope = PermissionScope.target;
  source = none;
}

notes_question :
    open_authorize (codes "q1") edit_notes false main_manager [] ≡ ok (question notes_request)
unfolding open_authorize settle own_decision decide after_guard text_eq decide_by_rules select_deny
    select_rule decide_selected select_layered_rule decide_unselected decide_by_mode create ask_user
    is_rejected escape_exact_target
notes_question = refl

session_approval_lasts_example :
    (m' : Manager) × (close_authorize edit_notes notes_request ApprovalChoice.session main_manager
      ≡ ok (
        decision DecisionKind.allow
            (Reason.allowed_for_session PermissionScope.target)
            Layer.user_confirmation,
        m',
      ))
    × (d : Decision) × (open_authorize (codes "q2") edit_notes false m' [] ≡ ok (settled d))
    × (d.kind ≡ DecisionKind.allow)
unfolding create
session_approval_lasts_example =
    session_approval_lasts (codes "q1") (codes "q2") edit_notes false main_manager [] notes_request
      no_rules knows_edit notes_question
  where
    no_rules : AllParsed main_manager.session_rules
    no_rules rule member = elim member [ ]

abbrev approved_manager : Manager
approved_manager = create project no_objection none (notes_rule ∷ []) none

notes_approved :
    close_authorize edit_notes notes_request ApprovalChoice.session main_manager
    ≡ ok (
      decision DecisionKind.allow
          (Reason.allowed_for_session PermissionScope.target)
          Layer.user_confirmation,
      approved_manager,
    )
unfolding close_authorize add_session_rule parse_rule create any escape
notes_approved = refl

abbrev edit_other : PreparedToolCall
edit_other = record edit_notes { target = codes "notes.txt" }

session_approval_is_exact_example :
    own_decision edit_other false approved_manager []
    ≡ own_decision edit_other false main_manager []
session_approval_is_exact_example =
    session_approval_is_exact (codes "q1") edit_notes edit_other false false main_manager
      main_manager approved_manager [] notes_request
      (decision DecisionKind.allow (Reason.allowed_for_session PermissionScope.target)
        Layer.user_confirmation)
      knows_edit notes_question notes_approved (inr other_file)
  where
    other_file : codes "notes.md" ≢ codes "notes.txt"
    other_file e = cc

abbrev run_skill : PreparedToolCall
run_skill = record edit_notes {
  name = codes "skill__demo__run";
  target = codes "skill:demo:f1:run";
}

abbrev skill_request : PermissionRequest
skill_request = record notes_request {
  tool_name = codes "skill__demo__run";
  target = codes "skill:demo:f1:run";
  exact_rule = codes "skill__demo__run(skill:demo:f1:run)";
}

skill_shaped : name_shaped (codes "skill__demo__run") ≡ true
unfolding all_name_chars
skill_shaped = refl

skill_unknown : is_known_tool (codes "skill__demo__run") ≡ false
unfolding is_known_tool
skill_unknown = refl

skill_question :
    open_authorize (codes "q1") run_skill false main_manager [] ≡ ok (question skill_request)
unfolding open_authorize settle own_decision decide after_guard text_eq decide_by_rules select_deny
    select_rule decide_selected select_layered_rule decide_unselected decide_by_mode create ask_user
    is_rejected escape_exact_target
skill_question = refl

session_approval_of_unknown_example :
    close_authorize run_skill skill_request ApprovalChoice.session main_manager ≡ err unknown_tool
session_approval_of_unknown_example =
    session_approval_of_unknown (codes "q1") run_skill false main_manager main_manager []
      skill_request skill_shaped skill_unknown skill_question

denial_is_remembered_example :
    (m' : Manager) × (close_authorize edit_notes notes_request ApprovalChoice.deny main_manager
      ≡ ok (decision DecisionKind.deny Reason.user_denied Layer.user_confirmation, m'))
    × (open_authorize (codes "q2") edit_notes false m' []
        ≡ ok (settled (decision DecisionKind.deny Reason.already_rejected Layer.rejection_cache)))
denial_is_remembered_example =
    denial_is_remembered (codes "q1") (codes "q2") edit_notes false main_manager [] notes_request
      notes_question

abbrev after_denial : Manager
after_denial = record main_manager { rejected = (codes "edit_file", codes "notes.md") ∷ [] }

notes_denied :
    close_authorize edit_notes notes_request ApprovalChoice.deny main_manager
    ≡ ok (decision DecisionKind.deny Reason.user_denied Layer.user_confirmation, after_denial)
unfolding close_authorize create
notes_denied = refl

denial_ends_with_request_example :
    open_authorize (codes "q1") edit_notes false (begin_request after_denial) []
    ≡ ok (question notes_request)
denial_ends_with_request_example =
    denial_ends_with_request (codes "q1") edit_notes false main_manager [] notes_request
      (decision DecisionKind.deny Reason.user_denied Layer.user_confirmation) after_denial
      notes_question notes_denied

-- A guard that refuses every command.
abbrev no_command : Guard
no_command command = some "refused"

spawn_child_narrows_example :
    kind_rank
      (decide
        (spawn_child (some PermissionMode.trusted) none (some no_command) main_manager).snapshot
        (spawn_child (some PermissionMode.trusted) none (some no_command) main_manager).guard
        notes
        (spawn_child
          (some PermissionMode.trusted)
          none
          (some no_command)
          main_manager).session_rules
        (some (spawn_child (some PermissionMode.trusted) none (some no_command) main_manager).mode)
        false
        false).kind
    ≤ kind_rank
        (decide main_manager.snapshot main_manager.guard notes main_manager.session_rules
          (some main_manager.mode)
          false
          false).kind
unfolding create
spawn_child_narrows_example =
    spawn_child_narrows (some PermissionMode.trusted) none (some no_command) main_manager notes
      false false stricter
  where
    stricter :
        is_command notes ≡ true
        → (spawn_child (some PermissionMode.trusted) none (some no_command) main_manager).guard
            notes.target
          ≡ none
        → main_manager.guard notes.target ≡ none
    stricter _ _ = refl

abbrev ledger_decision : Decision
ledger_decision = record {
  kind = DecisionKind.allow;
  reason = Reason.matched RuleSource.session RuleEffect.allow;
  layer = Layer.parent_ledger;
  rule = some notes_rule;
}

notes_ledger :
    explicit_ledger_decision (subject_of edit_notes) approved_manager ≡ some ledger_decision
unfolding explicit_ledger_decision decide create after_guard text_eq decide_by_rules select_deny
    select_rule decide_selected select_layered_rule fullmatch rule_decision
notes_ledger = refl

parent_ledger_skips_plan_mode_example :
    ((own_decision edit_notes true main_manager (approved_manager ∷ [])).kind ≡ DecisionKind.deny)
    × (open_authorize (codes "q3") edit_notes true main_manager (approved_manager ∷ [])
        ≡ ok (settled ledger_decision))
    × (ledger_decision.kind ≡ DecisionKind.allow)
parent_ledger_skips_plan_mode_example =
    parent_ledger_skips_plan_mode (codes "q3") edit_notes main_manager approved_manager []
      ledger_decision refl notes_ledger

once_allowed :
    authorize
      (codes "q1")
      (λ request. ApprovalChoice.once)
      (λ m. m)
      edit_notes
      false
      main_manager
      []
    ≡ ok (decision DecisionKind.allow Reason.allowed_once Layer.user_confirmation, main_manager)
unfolding authorize open_authorize close_authorize settle own_decision decide after_guard text_eq
    decide_by_rules select_deny select_rule decide_selected select_layered_rule decide_unselected
    decide_by_mode create ask_user is_rejected escape_exact_target
once_allowed = refl

authorize-IsInside_example :
    IsInside main_manager.snapshot main_manager.guard
      (subject_of edit_notes)
      main_manager.session_rules
      false
authorize-IsInside_example =
    authorize-IsInside edit_notes false main_manager (codes "q1") (λ request. ApprovalChoice.once)
      (λ m. m) (decision DecisionKind.allow Reason.allowed_once Layer.user_confirmation)
      main_manager once_allowed refl
