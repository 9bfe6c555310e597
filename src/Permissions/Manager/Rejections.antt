-- ===== src/Permissions/Manager/Rejections.antt =====
-- Calls that the user has rejected.
use fakuicode.Prelude.{
  ◌≡◌, refl, sym, ap, subst, if◌then◌else◌, ◌∙◌, Bool, true, none, List, [], ◌∷◌, Text,
  text_eq_self, arith, Option-cases, option_ind, inl, inr,
}
use fakuicode.Permissions.Models.{
  DecisionKind, ApprovalChoice, Decision, PermissionRequest, Layer, Reason,
}
use fakuicode.Permissions.Rules.{Result, ok, err}
use fakuicode.Permissions.Engine.{decision}
use fakuicode.Permissions.Manager.{
  subject_of, inherited, own_decision, is_rejected, Opening, settled, question, ask_user, settle,
  open_authorize, close_authorize,
}
use fakuicode.Permissions.ManagerState.{
  Manager, PreparedToolCall, has_session_capability, begin_request,
}

module _ (request_id : Text) (prepared : PreparedToolCall) (read_only_task : Bool)
    (ancestors : List Manager) where
  open_authorize-alone :
      (m : Manager)
      → inherited (subject_of prepared) ancestors ≡ none
      → open_authorize request_id prepared read_only_task m ancestors
        ≡ settle request_id prepared m (own_decision prepared read_only_task m ancestors)
  unfolding open_authorize
  open_authorize-alone m alone =
      option_ind
        (λ r. r ≡ settle request_id prepared m (own_decision prepared read_only_task m ancestors))
        (inherited (subject_of prepared) ancestors) (λ e. refl) (λ d e. cc (alone, e))

  settle-ask :
      (m : Manager) (d : Decision)
      → d.kind ≡ DecisionKind.ask
      → settle request_id prepared m d ≡ ask_user request_id prepared m d.reason
  unfolding settle
  settle-ask m d h = rw h refl

  question-alone :
      (m : Manager) {request : PermissionRequest}
      → open_authorize request_id prepared read_only_task m ancestors ≡ ok (question request)
      → inherited (subject_of prepared) ancestors ≡ none
  unfolding open_authorize
  question-alone m h = elim (Option-cases (inherited (subject_of prepared) ancestors)) [
    | inl e ↦ e
    | inr (d, e) ↦ cc (rw (e, open_authorize) at h)
  ]

  settle-question :
      (m : Manager) (d : Decision) {request : PermissionRequest}
      → settle request_id prepared m d ≡ ok (question request)
      → d.kind ≡ DecisionKind.ask
  unfolding settle
  settle-question m d h = ground arith

own_decision-rejected :
    (prepared : PreparedToolCall) (read_only_task : Bool) (m : Manager) (ancestors : List Manager)
    (keys : List (Text × Text))
    → own_decision prepared read_only_task (record m { rejected = keys }) ancestors
      ≡ own_decision prepared read_only_task m ancestors
unfolding own_decision has_session_capability
own_decision-rejected prepared read_only_task m ancestors keys = refl

is_rejected-new :
    (prepared : PreparedToolCall) (m : Manager)
    → is_rejected prepared (record m { rejected = (prepared.name, prepared.target) ∷ m.rejected })
      ≡ true
unfolding is_rejected
is_rejected-new prepared m = rw (text_eq_self prepared.name, text_eq_self prepared.target) refl

abbrev denied_once : PreparedToolCall → Manager → Manager
denied_once prepared m = record m { rejected = (prepared.name, prepared.target) ∷ m.rejected }

own_decision-asks :
    (request_id : Text) (prepared : PreparedToolCall) (read_only_task : Bool)
    (ancestors : List Manager) (m : Manager) {request : PermissionRequest}
    → open_authorize request_id prepared read_only_task m ancestors ≡ ok (question request)
    → (own_decision prepared read_only_task m ancestors).kind ≡ DecisionKind.ask
own_decision-asks request_id prepared read_only_task ancestors m asks =
    let alone = question-alone request_id prepared read_only_task ancestors m asks in
    settle-question request_id prepared read_only_task ancestors m _
      (sym (open_authorize-alone request_id prepared read_only_task ancestors m alone) ∙ asks)

ask_user-rejected :
    (request_id : Text) (prepared : PreparedToolCall) (m : Manager) (reason : Reason)
    → is_rejected prepared m ≡ true
    → ask_user request_id prepared m reason
      ≡ ok (settled (decision DecisionKind.deny Reason.already_rejected Layer.rejection_cache))
unfolding ask_user
ask_user-rejected request_id prepared m reason e = rw e refl

-- After the user denied a call, the same call is refused in the same request with no question.
pub denial_is_remembered :
    (request_id request_id' : Text) (prepared : PreparedToolCall) (read_only_task : Bool)
    (m : Manager) (ancestors : List Manager) (request : PermissionRequest)
    → open_authorize request_id prepared read_only_task m ancestors ≡ ok (question request)
    → (m' : Manager) × (close_authorize prepared request ApprovalChoice.deny m
        ≡ ok (decision DecisionKind.deny Reason.user_denied Layer.user_confirmation, m'))
      × (open_authorize request_id' prepared read_only_task m' ancestors
          ≡ ok (settled (decision DecisionKind.deny Reason.already_rejected Layer.rejection_cache)))
unfolding close_authorize
denial_is_remembered request_id request_id' prepared read_only_task m ancestors request asks =
    let alone = question-alone request_id prepared read_only_task ancestors m asks in
    let m' = denied_once prepared m in
    (
      m',
      refl,
      open_authorize-alone request_id' prepared read_only_task ancestors m' alone
          ∙ settle-ask request_id' prepared read_only_task ancestors m' _ (
              ap (λ (d : Decision). d.kind)
                (own_decision-rejected prepared read_only_task m ancestors _)
              ∙ own_decision-asks request_id prepared read_only_task ancestors m asks)
          ∙ ask_user-rejected request_id' prepared m' _ (is_rejected-new prepared m),
    )

ask_user-question_again :
    (request_id : Text) (prepared : PreparedToolCall) (m : Manager) (reason : Reason)
    {request : PermissionRequest}
    → ask_user request_id prepared m reason ≡ ok (question request)
    → ask_user request_id prepared (record m { rejected = [] }) reason ≡ ok (question request)
unfolding ask_user is_rejected
ask_user-question_again request_id prepared m reason h = unless_rejected _ _ h
  where
    unless_rejected :
        (b : Bool) (r : Result Opening) {request : PermissionRequest}
        → (if b
            then ok
                (settled (decision DecisionKind.deny Reason.already_rejected Layer.rejection_cache))
            else r)
          ≡ ok (question request)
        → r ≡ ok (question request)
    unless_rejected b r h = ground arith

manager_of : Manager → Result (Decision × Manager) → Manager
manager_of m (ok (d, m')) = m'
manager_of m (err e) = m

denied_manager :
    (prepared : PreparedToolCall) (request : PermissionRequest) (m : Manager) {d : Decision}
    {m' : Manager}
    → close_authorize prepared request ApprovalChoice.deny m ≡ ok (d, m')
    → m' ≡ denied_once prepared m
unfolding close_authorize manager_of
denied_manager prepared request m e = sym (ap (manager_of m) e)

-- When the next request begins, the question is put again, as it was.
pub denial_ends_with_request :
    (request_id : Text) (prepared : PreparedToolCall) (read_only_task : Bool) (m : Manager)
    (ancestors : List Manager) (request : PermissionRequest) (d : Decision) (m' : Manager)
    → open_authorize request_id prepared read_only_task m ancestors ≡ ok (question request)
    → close_authorize prepared request ApprovalChoice.deny m ≡ ok (d, m')
    → open_authorize request_id prepared read_only_task (begin_request m') ancestors
      ≡ ok (question request)
unfolding begin_request
denial_ends_with_request request_id prepared read_only_task m ancestors request d m' asks denied =
    let alone = question-alone request_id prepared read_only_task ancestors m asks in
    let fresh : Manager = record m { rejected = [] } in
    let same = own_decision-rejected prepared read_only_task m ancestors [] in
    let asking = own_decision-asks request_id prepared read_only_task ancestors m asks in
    let asked =
      ask_user-question_again request_id prepared m
        (own_decision prepared read_only_task m ancestors).reason
        (sym (settle-ask request_id prepared read_only_task ancestors m _ asking)
          ∙ sym (open_authorize-alone request_id prepared read_only_task ancestors m alone)
          ∙ asks) in
    let again =
      open_authorize-alone request_id prepared read_only_task ancestors fresh alone
      ∙ settle-ask request_id prepared read_only_task ancestors fresh _
          (ap (λ (e : Decision). e.kind) same ∙ asking)
      ∙ ap (λ (e : Decision). ask_user request_id prepared fresh e.reason) same
      ∙ asked in
    subst
      (λ (n : Manager).
        open_authorize request_id prepared read_only_task (record n { rejected = [] }) ancestors
        ≡ ok (question request))
      (sym (denied_manager prepared request m denied)) again
