-- ===== src/Permissions/Manager.antt =====
-- `authorize` of `PermissionManager` of permissions/manager.py, and of permissions/config.py what it
-- saves. The handler, the file system and the other threads are arguments: a choice for each
-- question, what the repository's writes answer, and a function from the manager to the manager for
-- what happens to it while the question waits.
pub mod Generated
pub mod Approvals
pub mod Rejections
pub mod Children
mod Samples
use fakuicode.Prelude.{
  ℕ, ◌≡◌, Bool, true, false, not, ◌&&◌, ◌||◌, Option, none, some, List, [], ◌∷◌, ◌++◌, Text,
  text_eq, any, strip, is_empty, leb, ltb, ◌==◌, if◌then◌else◌,
}
use fakuicode.Matching.{GlobError}
use fakuicode.Permissions.Models.{
  PermissionMode, DecisionKind, RuleEffect, RuleSource, ApprovalChoice, PermissionScope, Rule,
  Decision, PermissionRequest, PermissionSubject, Layer, Reason,
}
use fakuicode.Permissions.Rules.{
  RuleError, bad_glob, Result, ok, err, ◌>>=◌, parse_rule, escape_exact_target, denies,
}
use fakuicode.Permissions.Rules.Roundtrip.{exact_expression}
use fakuicode.Permissions.Engine.{Snapshot, Guard, decision, decide}
use fakuicode.Permissions.Engine.Modes.{mode_rank}
use fakuicode.Permissions.ManagerState.{Manager, PreparedToolCall, Storage, has_session_capability}

abbrev pub subject_of : PreparedToolCall → PermissionSubject
subject_of prepared = record {
  tool_name = prepared.name;
  target = prepared.target;
  read_only = prepared.read_only;
}

-- `_explicit_ledger_decision` of the parent: an allowing rule only, no fallback of its mode.
abbrev pub ledger_of : Decision → Option Decision
ledger_of d = elim d.kind [
  | DecisionKind.allow ↦ elim d.rule [
    | none ↦ none
    | some rule ↦ some (record {
      kind = DecisionKind.allow;
      reason = d.reason;
      layer = Layer.parent_ledger;
      rule = some rule;
    })
  ]
  | DecisionKind.deny ↦ none
  | DecisionKind.ask ↦ none
]

unfoldable pub explicit_ledger_decision : PermissionSubject → Manager → Option Decision
explicit_ledger_decision subject m =
    ledger_of
      (decide m.snapshot m.guard subject m.session_rules (some PermissionMode.strict) false false)

abbrev pub inherited : PermissionSubject → List Manager → Option Decision
inherited subject [] = none
inherited subject (parent ∷ ancestors) = explicit_ledger_decision subject parent

abbrev pub preauthorized : PreparedToolCall → Manager → List Manager → Bool
preauthorized prepared m ancestors = elim prepared.permission_capability [
  | none ↦ false
  | some capability ↦ has_session_capability capability (m ∷ ancestors)
]

-- `_decide`
unfoldable pub own_decision : PreparedToolCall → Bool → Manager → List Manager → Decision
own_decision prepared read_only_task m ancestors =
    decide m.snapshot m.guard (subject_of prepared) m.session_rules (some m.mode) read_only_task
      (preauthorized prepared m ancestors)

unfoldable pub is_rejected : PreparedToolCall → Manager → Bool
unfolding any text_eq
is_rejected prepared m =
    any (λ (key : Text × Text). text_eq prepared.name key.0 && text_eq prepared.target key.1)
      m.rejected

-- The first critical section of `authorize`: a decision, or a question with its generated rule.
pub data Opening : Type 0 where
  settled : Decision → Opening
  question : PermissionRequest → Opening

unfoldable pub ask_user : Text → PreparedToolCall → Manager → Reason → Result Opening
ask_user request_id prepared m reason =
    if is_rejected prepared m
    then ok (settled (decision DecisionKind.deny Reason.already_rejected Layer.rejection_cache))
    else do
      escaped ← escape_exact_target prepared.target
      ok (
          question (record {
            request_id = request_id;
            call_id = prepared.id;
            tool_name = prepared.name;
            target = prepared.target;
            reason = reason;
            exact_rule = exact_expression prepared.name escaped;
            scope = prepared.permission_scope;
            source = m.request_source;
          }))

unfoldable pub settle : Text → PreparedToolCall → Manager → Decision → Result Opening
settle request_id prepared m d = elim d.kind [
  | DecisionKind.ask ↦ ask_user request_id prepared m d.reason
  | DecisionKind.allow ↦ ok (settled d)
  | DecisionKind.deny ↦ ok (settled d)
]

unfoldable pub open_authorize :
    Text → PreparedToolCall → Bool → Manager → List Manager → Result Opening
open_authorize request_id prepared read_only_task m ancestors =
    elim (inherited (subject_of prepared) ancestors) [
      | some d ↦ ok (settled d)
      | none ↦ settle request_id prepared m (own_decision prepared read_only_task m ancestors)
    ]

abbrev pub same_expression : Rule → Rule → Bool
same_expression rule existing = text_eq existing.expression rule.expression

-- `_add_session_rule`
unfoldable pub add_session_rule : Text → Manager → Result Manager
add_session_rule expression m = do
  rule ← parse_rule expression RuleEffect.allow RuleSource.session
  if any (same_expression rule) m.session_rules
      then ok m
      else ok (record m { session_rules = m.session_rules ++ rule ∷ [] })

-- `_sorted_rules` of permissions/config.py: by the effect's name, then by the expression.
text_lt : Text → Text → Bool
text_lt [] [] = false
text_lt [] (b ∷ t) = true
text_lt (a ∷ s) [] = false
text_lt (a ∷ s) (b ∷ t) = ltb a b || a == b && text_lt s t

rule_order_lt : Rule → Rule → Bool
unfolding text_lt
rule_order_lt a b =
    if denies a
    then denies b && text_lt a.expression b.expression
    else denies b || text_lt a.expression b.expression

insert_rule : Rule → List Rule → List Rule
insert_rule rule [] = rule ∷ []
insert_rule rule (first ∷ rules) =
    if rule_order_lt first rule then first ∷ insert_rule rule rules else rule ∷ first ∷ rules

pub sorted_rules : List Rule → List Rule
unfolding insert_rule rule_order_lt
sorted_rules [] = []
sorted_rules (rule ∷ rules) = insert_rule rule (sorted_rules rules)

abbrev pub saves : Rule → Rule → Bool
saves rule existing = text_eq existing.expression rule.expression && not (denies existing)

abbrev with_rule : Rule → List Rule → List Rule
with_rule rule existing = if any (saves rule) existing then existing else existing ++ rule ∷ []

save_rule : Rule → Storage → Snapshot → Option Snapshot
unfolding sorted_rules any text_eq
save_rule rule storage snapshot =
    if not rule.exact
    then none
    else if not storage.writable
    then none
    else some (record snapshot {
      project_local_rules = sorted_rules (with_rule rule snapshot.project_local_rules);
    })

-- `save_project_local_allow`: `none` is a `PermissionPersistenceError`. Only the errors of the rule
-- grammar become one.
unfoldable pub save_project_local_allow : Text → Storage → Snapshot → Result (Option Snapshot)
unfolding save_rule
save_project_local_allow expression storage snapshot =
    if not storage.path_safe
    then ok none
    else elim (parse_rule expression RuleEffect.allow RuleSource.project_local) [
      | err (bad_glob GlobError.bad_range) ↦ err (bad_glob GlobError.bad_range)
      | err _ ↦ ok none
      | ok rule ↦ ok (save_rule rule storage snapshot)
    ]

-- `_save_permanent`
save_with : Text → Storage → Manager → Result (Decision × Manager)
unfolding save_project_local_allow
save_with expression storage m = do
  updated ← save_project_local_allow expression storage m.snapshot
  ok (elim updated [
    | none ↦ (decision DecisionKind.deny Reason.save_failed Layer.permission_storage, m)
    | some snapshot ↦ (
      decision DecisionKind.allow Reason.allowed_permanently Layer.user_confirmation,
      record m { snapshot = snapshot },
    )
  ])

unfoldable pub save_permanent : Text → Manager → Result (Decision × Manager)
unfolding save_with
save_permanent expression m = elim m.storage [
  | none ↦ ok (decision DecisionKind.deny Reason.storage_unavailable Layer.permission_storage, m)
  | some storage ↦ save_with expression storage m
]

-- The second critical section of `authorize`, after the handler has answered. A choice is one of the
-- four; the last branch of the source, for another value, has none here.
unfoldable pub close_authorize :
    PreparedToolCall → PermissionRequest → ApprovalChoice → Manager → Result (Decision × Manager)
close_authorize prepared request ApprovalChoice.deny m = ok (
  decision DecisionKind.deny Reason.user_denied Layer.user_confirmation,
  record m { rejected = (prepared.name, prepared.target) ∷ m.rejected },
)
close_authorize prepared request ApprovalChoice.once m =
    ok (decision DecisionKind.allow Reason.allowed_once Layer.user_confirmation, m)
close_authorize prepared request ApprovalChoice.session m = do
  updated ← add_session_rule request.exact_rule m
  ok (
    decision DecisionKind.allow (Reason.allowed_for_session prepared.permission_scope)
        Layer.user_confirmation,
    updated,
  )
close_authorize prepared request ApprovalChoice.permanent m = save_permanent request.exact_rule m

abbrev answer_opening :
    PreparedToolCall
    → (PermissionRequest → ApprovalChoice)
    → (Manager → Manager)
    → Manager
    → Opening
    → Result (Decision × Manager)
answer_opening prepared handler meanwhile m (settled d) = ok (d, m)
answer_opening prepared handler meanwhile m (question request) =
    close_authorize prepared request (handler request) (meanwhile m)

unfoldable pub authorize :
    Text
    → (PermissionRequest → ApprovalChoice)
    → (Manager → Manager)
    → PreparedToolCall
    → Bool
    → Manager
    → List Manager
    → Result (Decision × Manager)
authorize request_id handler meanwhile prepared read_only_task m ancestors = do
  opening ← open_authorize request_id prepared read_only_task m ancestors
  answer_opening prepared handler meanwhile m opening
