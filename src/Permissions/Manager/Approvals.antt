-- ===== src/Permissions/Manager/Approvals.antt =====
-- What an answer changes in the manager.
use fakuicode.Prelude.{
  ◌≡◌, refl, sym, subst, ◌∙◌, ◌≢◌, ◌⊎◌, inl, inr, Bool, true, false, ◌&&◌, Option, none, some, List,
  [], ◌∷◌, ◌++◌, In, Text, text_eq, text_eq_iff, arith, Bool-cases, option_ind, ap, any,
}
use fakuicode.Permissions.Models.{
  PermissionMode, DecisionKind, RuleEffect, RuleSource, ApprovalChoice, Rule, Decision,
  PermissionRequest, PermissionSubject, Layer, Reason,
}
use fakuicode.Permissions.Rules.{Result, ok, err, unknown_tool, applies, is_known_tool}
use fakuicode.Permissions.Rules.Grammar.{name_shaped}
use fakuicode.Permissions.Rules.Selection.{
  select_rule-found, select_rule-In, select_rule-append_other,
}
use fakuicode.Permissions.Rules.Roundtrip.{exact_rule, applies-exact, parse_rule-unknown}
use fakuicode.Permissions.Engine.{Snapshot, Guard, decision, select_layered_rule, decide}
use fakuicode.Permissions.Engine.Session.{decide-same_selection}
use fakuicode.Permissions.Engine.Questions.{undecided-allowed}
use fakuicode.Permissions.Manager.{
  subject_of, inherited, preauthorized, own_decision, Opening, settled, question, settle,
  open_authorize, add_session_rule, close_authorize, same_expression,
}
use fakuicode.Permissions.ManagerState.{Manager, PreparedToolCall, has_session_capability}
use fakuicode.Permissions.Manager.Generated.{
  AllParsed, open_authorize-Asked, with_session_rules, add_session_rule-Added, add_session_rule-eq,
}

selected_first :
    (snapshot : Snapshot) (subject : PermissionSubject) (rules : List Rule) {rule : Rule}
    → In rule rules
    → applies rule subject.tool_name subject.target ≡ true
    → (best : Rule) × (select_layered_rule snapshot subject rules ≡ some best) × In best rules
unfolding select_layered_rule
selected_first snapshot subject rules member applied =
    let (best, found) = select_rule-found rules subject.tool_name subject.target member applied in
    (best, rw found refl, (select_rule-In rules subject.tool_name subject.target found).0)

settle-allow :
    (request_id : Text) (prepared : PreparedToolCall) (m : Manager) (d : Decision)
    → d.kind ≡ DecisionKind.allow
    → settle request_id prepared m d ≡ ok (settled d)
unfolding settle
settle-allow request_id prepared m d h = ground arith

open_authorize-allow :
    (request_id : Text) (prepared : PreparedToolCall) (read_only_task : Bool) (m : Manager)
    (ancestors : List Manager)
    → inherited (subject_of prepared) ancestors ≡ none
    → (own_decision prepared read_only_task m ancestors).kind ≡ DecisionKind.allow
    → open_authorize request_id prepared read_only_task m ancestors
      ≡ ok (settled (own_decision prepared read_only_task m ancestors))
unfolding open_authorize
open_authorize-allow request_id prepared read_only_task m ancestors alone allowed =
    option_ind
      (λ (r : Result Opening). r ≡ ok (settled (own_decision prepared read_only_task m ancestors)))
      (inherited (subject_of prepared) ancestors)
      (λ e. settle-allow request_id prepared m _ allowed) (λ d e. cc (alone, e))

close_authorize-session :
    (prepared : PreparedToolCall) (request : PermissionRequest) (m m' : Manager)
    → add_session_rule request.exact_rule m ≡ ok m'
    → close_authorize prepared request ApprovalChoice.session m
      ≡ ok (
        decision DecisionKind.allow
            (Reason.allowed_for_session prepared.permission_scope)
            Layer.user_confirmation,
        m',
      )
unfolding close_authorize
close_authorize-session prepared request m m' e = rw e refl

-- A call of a tool that the rule grammar knows, approved for the session by a manager whose session
-- rules were made by approvals, is not asked about again: the approval succeeds, and the next
-- authorization of the same call is settled as allowed, with no question.
pub session_approval_lasts :
    (request_id request_id' : Text) (prepared : PreparedToolCall) (read_only_task : Bool)
    (m : Manager) (ancestors : List Manager) (request : PermissionRequest)
    → AllParsed m.session_rules
    → is_known_tool prepared.name ≡ true
    → open_authorize request_id prepared read_only_task m ancestors ≡ ok (question request)
    → (m' : Manager) × (close_authorize prepared request ApprovalChoice.session m
        ≡ ok (
          decision DecisionKind.allow
              (Reason.allowed_for_session prepared.permission_scope)
              Layer.user_confirmation,
          m',
        ))
      × (d : Decision) × (open_authorize request_id' prepared read_only_task m' ancestors
          ≡ ok (settled d))
      × (d.kind ≡ DecisionKind.allow)
unfolding own_decision
session_approval_lasts request_id request_id' prepared read_only_task m ancestors request parsed
      known asks =
    let asked = open_authorize-Asked request_id prepared read_only_task m ancestors request asks in
    let (rules, a) = add_session_rule-Added prepared asked.escaped known asked.escapes m parsed in
    let m' = with_session_rules m rules in
    let (best, selected, member) =
      selected_first m.snapshot (subject_of prepared) rules a.member a.applied in
    let allowed =
      undecided-allowed m.snapshot m.guard (subject_of prepared) m.session_rules rules (some m.mode)
        read_only_task (preauthorized prepared m' ancestors) asked.undecided selected
        (a.all_parsed best member).allows in
    (
      m',
      close_authorize-session prepared request m m'
          (subst (λ e. add_session_rule e m ≡ ok m') (sym asked.generated) a.added),
      own_decision prepared read_only_task m' ancestors,
      open_authorize-allow request_id' prepared read_only_task m' ancestors asked.alone allowed,
      allowed,
    )

and_false : (b : Bool) → (b && false) ≡ false
and_false true = refl
and_false false = refl

text_eq_ne : {s t : Text} → s ≢ t → text_eq s t ≡ false
text_eq_ne {s} {t} h = elim (Bool-cases (text_eq s t)) [
  | inl e ↦ absurd (h ((text_eq_iff s t).0 e))
  | inr e ↦ e
]

-- An exact rule more has no effect on a subject that differs in tool or target.
other_rule-decide :
    (rules : List Rule) (tool value : Text) (subject : PermissionSubject) (snapshot : Snapshot)
    (guard : Guard) (mode : Option PermissionMode) (read_only_task capable : Bool)
    → (tool ≢ subject.tool_name) ⊎ (value ≢ subject.target)
    → decide snapshot guard subject
        (rules ++ exact_rule tool value RuleEffect.allow RuleSource.session ∷ [])
        mode
        read_only_task
        capable
      ≡ decide snapshot guard subject rules mode read_only_task capable
other_rule-decide rules tool value subject snapshot guard mode read_only_task capable other =
    decide-same_selection snapshot subject _ _
      (select_rule-append_other rules subject.tool_name subject.target
        (exact_rule tool value RuleEffect.allow RuleSource.session)
        (applies-exact tool value RuleEffect.allow RuleSource.session subject.tool_name
            subject.target
          ∙ differs other))
      guard mode read_only_task capable
  where
    differs :
        (tool ≢ subject.tool_name) ⊎ (value ≢ subject.target)
        → (text_eq tool subject.tool_name && text_eq value subject.target) ≡ false
    differs (inl h) = rw (text_eq_ne h) refl
    differs (inr h) = rw (text_eq_ne h) (and_false _)

other_rule-own_decision :
    (prepared other : PreparedToolCall) (again : Bool) (m : Manager) (ancestors : List Manager)
    → (prepared.name ≢ other.name) ⊎ (prepared.target ≢ other.target)
    → own_decision other again
        (with_session_rules m (
          m.session_rules
          ++ exact_rule prepared.name prepared.target RuleEffect.allow RuleSource.session ∷ []))
        ancestors
      ≡ own_decision other again m ancestors
unfolding own_decision has_session_capability
other_rule-own_decision prepared other again m ancestors differs =
    other_rule-decide m.session_rules prepared.name prepared.target (subject_of other) m.snapshot
      m.guard (some m.mode) again (preauthorized other m ancestors) differs

abbrev manager_or : Manager → Result (Decision × Manager) → Manager
manager_or m (ok (d, m')) = m'
manager_or m (err e) = m

-- Approving a call for the session, of a tool that the rule grammar knows, changes no decision on a
-- call that differs in tool or target: the manager after the approval decides it as the manager did
-- that took the answer, whatever happened to that one since it asked.
pub session_approval_is_exact :
    (request_id : Text) (prepared other : PreparedToolCall) (read_only_task again : Bool)
    (asking m m' : Manager) (ancestors : List Manager) (request : PermissionRequest) (d : Decision)
    → is_known_tool prepared.name ≡ true
    → open_authorize request_id prepared read_only_task asking ancestors ≡ ok (question request)
    → close_authorize prepared request ApprovalChoice.session m ≡ ok (d, m')
    → (prepared.name ≢ other.name) ⊎ (prepared.target ≢ other.target)
    → own_decision other again m' ancestors ≡ own_decision other again m ancestors
session_approval_is_exact request_id prepared other read_only_task again asking m m' ancestors
      request d known asks closes differs =
    let asked =
      open_authorize-Asked request_id prepared read_only_task asking ancestors request asks in
    let rule = exact_rule prepared.name prepared.target RuleEffect.allow RuleSource.session in
    let adds =
      ap (λ e. add_session_rule e m) asked.generated
      ∙ add_session_rule-eq prepared asked.escaped known asked.escapes m in
    let becomes = λ (n : Manager) (e : add_session_rule request.exact_rule m ≡ ok n).
      ap (manager_or m) (sym closes ∙ close_authorize-session prepared request m n e) in
    elim (Bool-cases (any (same_expression rule) m.session_rules)) [
      | inl e ↦ ap (λ n. own_decision other again n ancestors) (becomes m (adds ∙ rw e refl))
      | inr e ↦
          ap (λ n. own_decision other again n ancestors)
            (becomes (with_session_rules m (m.session_rules ++ rule ∷ [])) (adds ∙ rw e refl))
          ∙ other_rule-own_decision prepared other again m ancestors differs
    ]

-- Approving a call for the session fails with the error of the rule grammar where that grammar does
-- not know the tool, though the question was put: the approved call raises.
pub session_approval_of_unknown :
    (request_id : Text) (prepared : PreparedToolCall) (read_only_task : Bool) (asking m : Manager)
    (ancestors : List Manager) (request : PermissionRequest)
    → name_shaped prepared.name ≡ true
    → is_known_tool prepared.name ≡ false
    → open_authorize request_id prepared read_only_task asking ancestors ≡ ok (question request)
    → close_authorize prepared request ApprovalChoice.session m ≡ err unknown_tool
unfolding close_authorize add_session_rule
session_approval_of_unknown request_id prepared read_only_task asking m ancestors request shaped
      unknown asks =
    let asked =
      open_authorize-Asked request_id prepared read_only_task asking ancestors request asks in
    rw
      (
        asked.generated,
        parse_rule-unknown prepared.name prepared.target asked.escaped RuleEffect.allow
            RuleSource.session shaped unknown asked.escapes,
      )
      refl
