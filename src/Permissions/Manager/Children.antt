-- ===== src/Permissions/Manager/Children.antt =====
-- Managers of child agents, and what no approval overrides.
use fakuicode.Prelude.{
  ◌≤◌, ◌≡◌, refl, sym, ap, ◌∙◌, ◌⊎◌, ◌≢◌, inl, inr, Bool, true, false, Option, none, some, List, [],
  ◌∷◌, Text, leb, arith, if_ind,
}
use fakuicode.Permissions.Models.{
  Rule, PermissionMode, DecisionKind, ApprovalChoice, Decision, PermissionRequest,
  PermissionSubject,
}
use fakuicode.Permissions.Rules.{Result, ok, err}
use fakuicode.Permissions.Engine.{Snapshot, Guard, is_command, after_guard, decide}
use fakuicode.Permissions.Engine.Modes.{mode_rank, kind_rank, decide_mono}
use fakuicode.Permissions.Engine.Boundaries.{IsInside, decide-IsInside, select_deny-none}
use fakuicode.Permissions.Engine.Questions.{IsUndecided, ask-IsUndecided}
use fakuicode.Permissions.Manager.{
  subject_of, preauthorized, own_decision, settled, ledger_of, explicit_ledger_decision, settle,
  open_authorize, authorize,
}
use fakuicode.Permissions.ManagerState.{
  Manager, PreparedToolCall, narrower_mode, create, spawn_child,
}

narrower_mode-le :
    (parent requested : PermissionMode)
    → mode_rank (narrower_mode parent requested) ≤ mode_rank parent
unfolding narrower_mode
narrower_mode-le parent requested =
    if_ind (λ m. mode_rank m ≤ mode_rank parent) (leb (mode_rank parent) (mode_rank requested))
      (λ e. omega arith) (λ e. ground arith)

mode-spawn_child :
    (mode : Option PermissionMode) (source : Option Text) (guard : Option Guard) (m : Manager)
    → mode_rank (spawn_child mode source guard m).mode ≤ mode_rank m.mode
unfolding spawn_child
mode-spawn_child none source guard m = narrower_mode-le m.mode m.mode
mode-spawn_child (some mode) source guard m = narrower_mode-le m.mode mode

-- A guard that lets a call pass only where another one does decides no less strictly.
guard-le :
    (snapshot : Snapshot) (strict wide : Guard) (subject : PermissionSubject) (rules : List Rule)
    (mode : Option PermissionMode) (read_only_task capable : Bool)
    → (is_command subject ≡ true → strict subject.target ≡ none → wide subject.target ≡ none)
    → kind_rank (decide snapshot strict subject rules mode read_only_task capable).kind
      ≤ kind_rank (decide snapshot wide subject rules mode read_only_task capable).kind
unfolding decide after_guard
guard-le snapshot strict wide subject rules mode read_only_task capable h = ground (arith, h)

-- Whatever mode and guard a child agent gets, its own ledger never decides less strictly than its
-- parent's does for the same call, if the child's guard lets a command pass only where the parent's
-- does; a call of another tool meets no guard.
pub spawn_child_narrows :
    (mode : Option PermissionMode) (source : Option Text) (guard : Option Guard) (m : Manager)
    (subject : PermissionSubject) (read_only_task capable : Bool)
    → (is_command subject ≡ true
        → (spawn_child mode source guard m).guard subject.target ≡ none
        → m.guard subject.target ≡ none)
    → kind_rank
        (decide
          (spawn_child mode source guard m).snapshot
          (spawn_child mode source guard m).guard
          subject
          (spawn_child mode source guard m).session_rules
          (some (spawn_child mode source guard m).mode)
          read_only_task
          capable).kind
      ≤ kind_rank
          (decide m.snapshot m.guard subject m.session_rules
            (some m.mode)
            read_only_task
            capable).kind
spawn_child_narrows mode source guard m subject read_only_task capable h =
    unfold spawn_child create in
    let child = spawn_child mode source guard m in
    let below =
      guard-le m.snapshot child.guard m.guard subject m.session_rules (some child.mode)
        read_only_task capable h in
    let wider =
      decide_mono m.snapshot m.guard subject m.session_rules child.mode m.mode
        (mode-spawn_child mode source guard m) capable read_only_task in
    omega (arith, below, wider)

kind-ledger_of : (d e : Decision) → ledger_of d ≡ some e → e.kind ≡ DecisionKind.allow
kind-ledger_of d e h = ground arith

explicit_ledger_decision-allow :
    (subject : PermissionSubject) (parent : Manager) (d : Decision)
    → explicit_ledger_decision subject parent ≡ some d
    → d.kind ≡ DecisionKind.allow
unfolding explicit_ledger_decision
explicit_ledger_decision-allow subject parent d found =
    kind-ledger_of
      (decide parent.snapshot parent.guard subject parent.session_rules (some PermissionMode.strict)
        false false)
      d found

settle-deny :
    (request_id : Text) (prepared : PreparedToolCall) (m : Manager) (d : Decision)
    → d.kind ≡ DecisionKind.deny
    → settle request_id prepared m d ≡ ok (settled d)
unfolding settle
settle-deny request_id prepared m d h = ground arith

open_authorize-inherited :
    (request_id : Text) (prepared : PreparedToolCall) (read_only_task : Bool)
    (child parent : Manager) (ancestors : List Manager) (d : Decision)
    → explicit_ledger_decision (subject_of prepared) parent ≡ some d
    → open_authorize request_id prepared read_only_task child (parent ∷ ancestors) ≡ ok (settled d)
unfolding open_authorize
open_authorize-inherited request_id prepared read_only_task child parent ancestors d found =
    rw (found, open_authorize) refl

-- A parent's explicit allowing rule is looked up before the child's own boundaries: a child in a
-- read-only task is allowed an action with side effects that its own engine denies.
pub parent_ledger_skips_plan_mode :
    (request_id : Text) (prepared : PreparedToolCall) (child parent : Manager)
    (ancestors : List Manager) (d : Decision)
    → prepared.read_only ≡ false
    → explicit_ledger_decision (subject_of prepared) parent ≡ some d
    → ((own_decision prepared true child (parent ∷ ancestors)).kind ≡ DecisionKind.deny)
      × (open_authorize request_id prepared true child (parent ∷ ancestors) ≡ ok (settled d))
      × (d.kind ≡ DecisionKind.allow)
unfolding own_decision decide
parent_ledger_skips_plan_mode request_id prepared child parent ancestors d writes found = (
  rw writes refl,
  open_authorize-inherited request_id prepared true child parent ancestors d found,
  explicit_ledger_decision-allow (subject_of prepared) parent d found,
)

kind_cases :
    (k : DecisionKind)
    → (k ≡ DecisionKind.allow) ⊎ ((k ≡ DecisionKind.deny) ⊎ (k ≡ DecisionKind.ask))
kind_cases DecisionKind.allow = inl refl
kind_cases DecisionKind.deny = inr (inl refl)
kind_cases DecisionKind.ask = inr (inr refl)

abbrev kind_of : Result (Decision × Manager) → DecisionKind
kind_of (ok (d, m)) = d.kind
kind_of (err e) = DecisionKind.deny

undecided-IsInside :
    (m : Manager) (subject : PermissionSubject) (read_only_task : Bool)
    → IsUndecided m.snapshot m.guard subject m.session_rules read_only_task
    → IsInside m.snapshot m.guard subject m.session_rules read_only_task
undecided-IsInside m subject read_only_task u = record {
  in_plan = u.in_plan;
  harmless = u.harmless;
  not_denied = select_deny-none m.snapshot.user_rules subject u.no_denial;
  rule_allows = λ rule e. cc (u.unselected, e);
  unlocked = u.unlocked;
}

module _ (prepared : PreparedToolCall) (read_only_task : Bool) (m : Manager) where
  abbrev Inside : Type 0
  Inside = IsInside m.snapshot m.guard (subject_of prepared) m.session_rules read_only_task

  own_decision-Inside :
      (own_decision prepared read_only_task m []).kind ≢ DecisionKind.deny → Inside
  unfolding own_decision
  own_decision-Inside h = elim (kind_cases _) [
    | inl allowed ↦
        decide-IsInside m.snapshot m.guard (subject_of prepared) m.session_rules (some m.mode)
          read_only_task (preauthorized prepared m []) allowed
    | inr (inl denied) ↦ absurd (h denied)
    | inr (inr asked) ↦ undecided-IsInside m (subject_of prepared) read_only_task (
        ask-IsUndecided m.snapshot m.guard (subject_of prepared) m.session_rules (some m.mode)
          read_only_task (preauthorized prepared m []) asked)
  ]

  -- With a denial by the engine there is no question and no other outcome.
  authorize-denied :
      (request_id : Text) (handler : PermissionRequest → ApprovalChoice)
      (meanwhile : Manager → Manager)
      → (own_decision prepared read_only_task m []).kind ≡ DecisionKind.deny
      → authorize request_id handler meanwhile prepared read_only_task m []
        ≡ ok (own_decision prepared read_only_task m [], m)
  unfolding authorize open_authorize
  authorize-denied request_id handler meanwhile denied =
      rw (settle-deny request_id prepared m (own_decision prepared read_only_task m []) denied) refl

  -- Whatever the user answers and whatever other threads do meanwhile, a manager with no parent
  -- allows only what lies inside the boundaries of the configuration that it started from.
  pub authorize-IsInside :
      (request_id : Text) (handler : PermissionRequest → ApprovalChoice)
      (meanwhile : Manager → Manager) (d : Decision) (m' : Manager)
      → authorize request_id handler meanwhile prepared read_only_task m [] ≡ ok (d, m')
      → d.kind ≡ DecisionKind.allow
      → IsInside m.snapshot m.guard (subject_of prepared) m.session_rules read_only_task
  authorize-IsInside request_id handler meanwhile d m' h allowed = own_decision-Inside (λ denied.
      denied_not_allowed denied (sym (authorize-denied request_id handler meanwhile denied) ∙ h))
    where
      denied_not_allowed :
          (own_decision prepared read_only_task m []).kind ≡ DecisionKind.deny
          → Path
              (Result (Decision × Manager))
              (ok (own_decision prepared read_only_task m [], m))
              (ok (d, m'))
          → ⊥
      denied_not_allowed denied e = cc (denied, allowed, ap kind_of e)
