-- ===== src/Subagents/Tasks/Exclusive.antt =====
-- The runs of a child session.
use fakuicode.Prelude.{
  ℕ, zero, suc, ◌<◌, ◌≡◌, ◌≢◌, ◌⊎◌, sym, ap, subst, ◌∙◌, inl, inr, Bool, true, false, none, some,
  List, [], ◌∷◌, ◌++◌, any, length, length-append, get_elem?, set, get_elem?-set_self,
  get_elem?-set_ne, get_elem?-lt, get_elem?-append_left, get_elem?-append_length, arith, ◌==◌,
  ==_iff, Bool-cases,
}
use fakuicode.Subagents.TaskState.{is_active, TaskRun, Session, is_running_for, busy}
use fakuicode.Subagents.Tasks.Steps.{System, Reach, here, next}
use fakuicode.Subagents.Tasks.Edits.{SameEnd, Rewrite, Edits, unchanged, added, rewritten}
use fakuicode.Subagents.Tasks.Edited.{Step-Edits}

-- Number `i` is a run of the session that has not ended.
pub record RunsAt (tasks : List TaskRun) (session_id i : ℕ) : Type 0 where
  pub task : TaskRun
  pub found : get_elem? tasks i ≡ some task
  pub active : is_active task.status ≡ true
  pub same_session : task.session.id ≡ session_id

abbrev pub AtMostOneRun : List TaskRun → Type 0
AtMostOneRun tasks =
    (session_id i j : ℕ) → RunsAt tasks session_id i → RunsAt tasks session_id j → i ≡ j

same_task : {a b : TaskRun} → some a ≡ some b → a ≡ b
same_task {a} e = ap (λ o. elim o [ none ↦ a | some c ↦ c ]) e

get_elem?-not_any :
    (p : TaskRun → Bool) (tasks : List TaskRun) (i : ℕ) {task : TaskRun}
    → any p tasks ≡ false
    → get_elem? tasks i ≡ some task
    → p task ≡ false
unfolding any
get_elem?-not_any p [] i h found = cc
get_elem?-not_any p (t ∷ tasks) zero h found = ap p (sym (same_task found)) ∙ ground arith
get_elem?-not_any p (t ∷ tasks) (suc i) h found = get_elem?-not_any p tasks i (ground arith) found

idle_does_not_run :
    (tasks : List TaskRun) (session_id i : ℕ)
    → busy session_id tasks ≡ false
    → ¬ RunsAt tasks session_id i
unfolding busy
idle_does_not_run tasks session_id i idle r =
    let quiet = get_elem?-not_any (is_running_for session_id) tasks i idle r.found in
    let here_too : (r.task.session.id == session_id) ≡ true =
      (==_iff r.task.session.id session_id).1 r.same_session in
    ground (arith, quiet, here_too, r.active)

-- A run after an edit was a run before it, or it is the added one.
RunsAt-snoc :
    (tasks : List TaskRun) (new : TaskRun) (session_id i : ℕ)
    → RunsAt (tasks ++ new ∷ []) session_id i
    → RunsAt tasks session_id i ⊎ ((i ≡ length tasks) × (new.session.id ≡ session_id))
RunsAt-snoc tasks new session_id i r = elim (Bool-cases (i == length tasks)) [
  | inl e ↦
      let last = (==_iff i (length tasks)).0 e in
      let written : new ≡ r.task = same_task (
        sym (get_elem?-append_length tasks new)
        ∙ ap (get_elem? (tasks ++ new ∷ [])) (sym last)
        ∙ r.found) in
      inr (last, ap (λ (t : TaskRun). t.session.id) written ∙ r.same_session)
  | inr e ↦
      let differs : i ≢ length tasks = λ s. ground (arith, e, s) in
      let below : i < length tasks =
        omega (arith, get_elem?-lt (tasks ++ new ∷ []) i r.found, length-append tasks (new ∷ [])) in
      inl (record {
        task = r.task;
        found = sym (get_elem?-append_left tasks (new ∷ []) i below) ∙ r.found;
        active = r.active;
        same_session = r.same_session;
      })
]

active_before :
    (old new : TaskRun)
    → (is_active old.status ≡ false → SameEnd old new)
    → is_active new.status ≡ true
    → is_active old.status ≡ true
active_before old new kept active = elim (Bool-cases (is_active old.status)) [
  | inl e ↦ e
  | inr e ↦ absurd (cc (e, active, ap is_active (kept e).status))
]

RunsAt-set :
    (tasks : List TaskRun) (j : ℕ) (old new : TaskRun) (session_id i : ℕ)
    → get_elem? tasks j ≡ some old
    → Rewrite old new
    → RunsAt (set tasks j new) session_id i
    → RunsAt tasks session_id i
RunsAt-set tasks j old new session_id i found rewrite r = elim (Bool-cases (j == i)) [
  | inl e ↦
      let here_too = (==_iff j i).0 e in
      let written : new ≡ r.task = same_task (
        sym (get_elem?-set_self tasks j new found)
        ∙ ap (get_elem? (set tasks j new)) here_too
        ∙ r.found) in
      record {
        task = old;
        found = ap (get_elem? tasks) (sym here_too) ∙ found;
        active =
            active_before old new rewrite.kept
              (ap (λ (t : TaskRun). is_active t.status) written ∙ r.active);
        same_session =
            ap (λ (s : Session). s.id) (sym rewrite.session)
            ∙ ap (λ (t : TaskRun). t.session.id) written
            ∙ r.same_session;
      }
  | inr e ↦ record {
    task = r.task;
    found = sym (get_elem?-set_ne tasks j i new (λ s. ground (arith, e, s))) ∙ r.found;
    active = r.active;
    same_session = r.same_session;
  }
]

AtMostOneRun-snoc :
    (tasks : List TaskRun) (new : TaskRun)
    → busy new.session.id tasks ≡ false
    → AtMostOneRun tasks
    → AtMostOneRun (tasks ++ new ∷ [])
AtMostOneRun-snoc tasks new idle h id i j r s = elim (RunsAt-snoc tasks new id i r) [
  | inl old ↦ elim (RunsAt-snoc tasks new id j s) [
    | inl old' ↦ h id i j old old'
    | inr (e, same) ↦
        absurd (idle_does_not_run tasks id i (subst (λ n. busy n tasks ≡ false) same idle) old)
  ]
  | inr (e, same) ↦ elim (RunsAt-snoc tasks new id j s) [
    | inl old' ↦
        absurd (idle_does_not_run tasks id j (subst (λ n. busy n tasks ≡ false) same idle) old')
    | inr (e', same') ↦ e ∙ sym e'
  ]
]

Edits-AtMostOneRun :
    {tasks tasks' : List TaskRun} → Edits tasks tasks' → AtMostOneRun tasks → AtMostOneRun tasks'
Edits-AtMostOneRun unchanged h = h
Edits-AtMostOneRun (added {now} new idle edits) h =
    AtMostOneRun-snoc now new idle (Edits-AtMostOneRun edits h)
Edits-AtMostOneRun (rewritten {now} k old new found rewrite edits) h = λ id i j r s.
    Edits-AtMostOneRun edits h id i j (RunsAt-set now k old new id i found rewrite r)
      (RunsAt-set now k old new id j found rewrite s)

-- In every state that the threads reach, a child session has at most one task that has not ended.
pub one_run_per_session : {s : System} → Reach s → AtMostOneRun s.manager.tasks
one_run_per_session here = λ id i j r s. cc r.found
one_run_per_session (next r step) = Edits-AtMostOneRun (Step-Edits r step) (one_run_per_session r)
