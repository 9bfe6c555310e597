-- ===== src/Subagents/Tasks/Ends.antt =====
-- The steps that end tasks: a worker's begin and end of a run, and the two halves of `close`.
use fakuicode.Prelude.{
  ℕ, suc, ◌+◌, ◌≡◌, refl, sym, subst, Bool, true, false, some, List, ◌∷◌, ◌++◌, get_elem?, count,
  count-append, count_self, count-other, arith, any, ◌==◌, if_ind, option_ind, if◌then◌else◌,
  get_elem?-eq-none,
}
use fakuicode.Subagents.Tasks.{
  finish, begin_task, begin_run, status_of, is_cancelling, close_session_once, ended_task, end_run,
}
use fakuicode.Subagents.TaskCalls.{set_task}
use fakuicode.Subagents.TaskState.{
  TaskStatus, queued, running, waiting_approval, completed, failed, cancelling, cancelled,
  is_active, TaskRun, TaskManager, CloseStatus, ChildRunStatus, ChildRunResult,
}
use fakuicode.Subagents.Tasks.Links.{Linked, AllLinked, AllLinked-set, AllLinked-recount, SameOff}
use fakuicode.Subagents.Tasks.Lifecycle.{
  Sound, SameOff-snoc, count-snoc, Ended-final, Linked-executing,
}

-- A worker has taken task `i` from the queue, and not yet looked at it.
abbrev Taken : List ℕ → (ℕ → ℕ) → ℕ → TaskManager → Type 0
Taken executing d i m =
    AllLinked m.tasks (λ j. count j (i ∷ m.work)) (λ j. count j executing)
      (λ j. d j + count j m.done)

SameOff-uncons : (i : ℕ) (xs : List ℕ) → SameOff i (λ j. count j (i ∷ xs)) (λ j. count j xs)
SameOff-uncons i xs j h = sym (count-other j i xs h)

SameOff-cons : (i : ℕ) (xs : List ℕ) → SameOff i (λ j. count j xs) (λ j. count j (i ∷ xs))
SameOff-cons i xs j h = count-other j i xs h

-- A task that was taken is still queued, or its end came while it was in the queue.
Linked-begins :
    (st : TaskStatus) (q x a : ℕ)
    → is_active st ≡ true
    → Linked st (suc q) x a
    → Linked running q (suc x) a
unfolding is_active
Linked-begins queued q x a e h = omega arith
Linked-begins running q x a e h = omega arith
Linked-begins waiting_approval q x a e h = omega arith
Linked-begins cancelling q x a e h = omega arith
Linked-begins completed q x a e h = cc
Linked-begins failed q x a e h = cc
Linked-begins cancelled q x a e h = cc

Linked-ended :
    (st : TaskStatus) (q x a : ℕ) → is_active st ≡ false → Linked st (suc q) x a → Linked st q x a
unfolding is_active
Linked-ended completed q x a e h = omega arith
Linked-ended failed q x a e h = omega arith
Linked-ended cancelled q x a e h = omega arith
Linked-ended queued q x a e h = cc
Linked-ended running q x a e h = cc
Linked-ended waiting_approval q x a e h = cc
Linked-ended cancelling q x a e h = cc

module _ (executing : List ℕ) (d : ℕ → ℕ) (now i : ℕ) where
  abbrev TakenLinked : TaskStatus → TaskManager → Type 0
  TakenLinked st m = Linked st (suc (count i m.work)) (count i executing) (d i + count i m.done)

  linked_at :
      (task : TaskRun) (m : TaskManager)
      → get_elem? m.tasks i ≡ some task
      → Taken executing d i m
      → TakenLinked task.status m
  linked_at task m found h =
      subst (λ q. Linked task.status q (count i executing) (d i + count i m.done))
        (count_self i m.work) (h.each i task found)

  run_begins :
      (task : TaskRun) (m : TaskManager)
      → is_active task.status ≡ true
      → get_elem? m.tasks i ≡ some task
      → Taken executing d i m
      → Sound
          (λ j. count j (i ∷ executing))
          d
          (set_task i (record task { status = running; start_time_ns = now }) m)
  run_begins task m active found h =
      AllLinked-set i task _ h found (SameOff-uncons i m.work) (SameOff-cons i executing)
        (λ j n. refl)
        (subst (λ x. Linked running (count i m.work) x (d i + count i m.done))
          (sym (count_self i executing))
          (Linked-begins task.status _ _ _ active (linked_at task m found h)))

  already_ended :
      (task : TaskRun) (m : TaskManager)
      → is_active task.status ≡ false
      → get_elem? m.tasks i ≡ some task
      → Taken executing d i m
      → Sound (λ j. count j executing) d m
  already_ended task m ended found h =
      AllLinked-recount i task h found (SameOff-uncons i m.work) (λ j n. refl) (λ j n. refl)
        (Linked-ended task.status _ _ _ ended (linked_at task m found h))

  cancelled_early :
      (task : TaskRun) (m : TaskManager)
      → task.status ≡ cancelling
      → get_elem? m.tasks i ≡ some task
      → Taken executing d i m
      → Sound
          (λ j. count j executing)
          d
          (finish i (record task { status = cancelled; end_time_ns = some now }) m)
  unfolding finish
  cancelled_early task m e found h =
      let before : TakenLinked cancelling m =
        subst (λ st. TakenLinked st m) e (linked_at task m found h) in
      AllLinked-set i task _ h found (SameOff-uncons i m.work) (λ j n. refl)
        (SameOff-snoc i d m.done) (omega (arith, count-snoc i m.done))

  begin_task-Sound :
      (st : TaskStatus) (task : TaskRun) (m : TaskManager)
      → task.status ≡ st
      → get_elem? m.tasks i ≡ some task
      → Taken executing d i m
      → Sound
          (λ j. count j (if (begin_task st now i task m).0 then i ∷ executing else executing))
          d
          (begin_task st now i task m).1
  unfolding begin_task is_active
  begin_task-Sound queued task m e found h = run_begins task m (rw e refl) found h
  begin_task-Sound running task m e found h = run_begins task m (rw e refl) found h
  begin_task-Sound waiting_approval task m e found h = run_begins task m (rw e refl) found h
  begin_task-Sound cancelling task m e found h = cancelled_early task m e found h
  begin_task-Sound completed task m e found h = already_ended task m (rw e refl) found h
  begin_task-Sound failed task m e found h = already_ended task m (rw e refl) found h
  begin_task-Sound cancelled task m e found h = already_ended task m (rw e refl) found h

  pub begin_run-Sound :
      (m : TaskManager)
      → Taken executing d i m
      → Sound
          (λ j. count j (if (begin_run now i m).0 then i ∷ executing else executing))
          d
          (begin_run now i m).1
  unfolding begin_run
  begin_run-Sound m h =
      option_ind
        (λ (r : Bool × TaskManager).
          Sound (λ j. count j (if r.0 then i ∷ executing else executing)) d r.1)
        (get_elem? m.tasks i)
        (λ nothing. absurd (
          omega (arith, (h.beyond i (get_elem?-eq-none m.tasks i nothing)).0, count_self i m.work)))
        (λ task found. begin_task-Sound task.status task m refl found h)

Linked-final :
    (stopping : Bool) (st : ChildRunStatus) (before : TaskStatus) (q x a : ℕ)
    → Linked before q (suc x) a
    → Linked (if stopping then cancelled else status_of st) q x (suc a)
Linked-final stopping st before q x a h =
    let (in_queue, executing, announced) = Linked-executing before q (suc x) a h (omega arith) in
    Ended-final stopping st q x (suc a) (omega arith) (omega arith) (omega arith)

pub close_session_once-Sound :
    (x d : ℕ → ℕ) (id : ℕ) (status : CloseStatus) (m : TaskManager)
    → Sound x d m
    → Sound x d (close_session_once id status m)
unfolding close_session_once
close_session_once-Sound x d id status m h =
    if_ind (Sound x d) (any (λ j. j == id) m.closed_sessions) (λ e. h) (λ e. h)

module _ (before after : List ℕ) (d : ℕ → ℕ) (now i : ℕ) (outcome : ChildRunResult) where
  end_task-Sound :
      (task : TaskRun) (m : TaskManager)
      → get_elem? m.tasks i ≡ some task
      → Sound (λ j. count j (before ++ i ∷ after)) d m
      → Sound (λ j. count j (before ++ after)) d (finish i (ended_task now outcome task) m)
  unfolding finish
  end_task-Sound task m found h =
      AllLinked-set i task _ h found (λ j n. refl)
        (λ j n. omega (
          arith,
          count-append j before after,
          count-append j before (i ∷ after),
          count-other j i after n,
        ))
        (SameOff-snoc i d m.done)
        (subst (Linked _ (count i m.work) (count i (before ++ after)))
          (omega (arith, count-snoc i m.done))
          (Linked-final (is_cancelling task.status) outcome.status task.status (count i m.work)
            (count i (before ++ after)) (d i + count i m.done)
            (subst (λ x. Linked task.status (count i m.work) x (d i + count i m.done))
              (omega (
                arith,
                count-append i before after,
                count-append i before (i ∷ after),
                count_self i after,
              ))
              (h.each i task found))))

  pub end_run-Sound :
      (m : TaskManager)
      → Sound (λ j. count j (before ++ i ∷ after)) d m
      → Sound (λ j. count j (before ++ after)) d (end_run now i outcome m)
  unfolding end_run
  end_run-Sound m h =
      option_ind (Sound (λ j. count j (before ++ after)) d) (get_elem? m.tasks i)
        (λ nothing. absurd (
          omega (
            arith,
            (h.beyond i (get_elem?-eq-none m.tasks i nothing)).1,
            count-append i before (i ∷ after),
            count_self i after,
          )))
        (λ task found.
          if_ind (Sound (λ j. count j (before ++ after)) d) m.closed
            (λ c. close_session_once-Sound _ d task.session.id _ _ (end_task-Sound task m found h))
            (λ c. end_task-Sound task m found h))
