-- ===== src/Subagents/Tasks/Lifecycle.antt =====
-- The tasks beside the executor and the announced ends, through every method, worker and reader.
use fakuicode.Prelude.{
  ℕ, suc, ◌+◌, ◌≤◌, ◌≡◌, refl, Bool, true, false, ◌||◌, Option, none, some, List, [], ◌∷◌, ◌++◌,
  Text, length, get_elem?, strip, is_empty, count, count-append, count-nil, count_self, count-other,
  arith, if_ind, option_ind, if◌then◌else◌,
}
use fakuicode.Subagents.Tasks.{status_of}
use fakuicode.Subagents.TaskCalls.{
  other_holder, register, launch_idle, launch_named, launch, send_message, stop, wait_round,
  latest_from, stop_by_name, waiting_status, mark_waiting, mark_waiting_approval, mark_background,
}
use fakuicode.Subagents.TaskState.{
  TaskStatus, queued, running, waiting_approval, completed, failed, cancelling, cancelled,
  is_active, TaskRun, TaskManager, Session, ChildRunStatus, Result, new_task, busy, lookup_session,
  lookup_name, pop_session,
}
use fakuicode.Subagents.Tasks.Links.{Linked, AllLinked, AllLinked-set, AllLinked-snoc, SameOff}

-- The manager's part of the invariant: `executing` and `delivered` are what stands outside it.
abbrev pub Sound : (ℕ → ℕ) → (ℕ → ℕ) → TaskManager → Type 0
Sound executing delivered m =
    AllLinked m.tasks (λ i. count i m.work) executing (λ i. delivered i + count i m.done)

pub SameOff-snoc :
    (i : ℕ) (f : ℕ → ℕ) (xs : List ℕ)
    → SameOff i (λ j. f j + count j xs) (λ j. f j + count j (xs ++ i ∷ []))
SameOff-snoc i f xs j h =
    omega (arith, count-append j xs (i ∷ []), count-other j i [] h, count-nil j)

pub count-snoc : (i : ℕ) (xs : List ℕ) → count i (xs ++ i ∷ []) ≡ suc (count i xs)
count-snoc i xs = omega (arith, count-append i xs (i ∷ []), count_self i [], count-nil i)

-- What a status allows, where a task is asked for.
Linked-cancelling :
    (st : TaskStatus) (q x a : ℕ) → is_active st ≡ true → Linked st q x a → Linked cancelling q x a
unfolding is_active
Linked-cancelling queued q x a e h = omega arith
Linked-cancelling running q x a e h = omega arith
Linked-cancelling waiting_approval q x a e h = omega arith
Linked-cancelling cancelling q x a e h = h
Linked-cancelling completed q x a e h = cc
Linked-cancelling failed q x a e h = cc
Linked-cancelling cancelled q x a e h = cc

Linked-waiting :
    (waiting : Bool) (st : TaskStatus) (q x a : ℕ)
    → Linked st q x a
    → Linked (waiting_status waiting st) q x a
Linked-waiting true running q x a h = h
Linked-waiting false waiting_approval q x a h = h
Linked-waiting true queued q x a h = h
Linked-waiting true waiting_approval q x a h = h
Linked-waiting true cancelling q x a h = h
Linked-waiting true completed q x a h = h
Linked-waiting true failed q x a h = h
Linked-waiting true cancelled q x a h = h
Linked-waiting false queued q x a h = h
Linked-waiting false running q x a h = h
Linked-waiting false cancelling q x a h = h
Linked-waiting false completed q x a h = h
Linked-waiting false failed q x a h = h
Linked-waiting false cancelled q x a h = h

-- The three statuses of an ended task.
abbrev pub Ended : TaskStatus → Type 0
Ended st = (q x a : ℕ) → q ≤ 1 → x ≡ 0 → a ≡ 1 → Linked st q x a

pub Ended-final :
    (stopping : Bool) (st : ChildRunStatus) → Ended (if stopping then cancelled else status_of st)
Ended-final true st q x a hq hx ha = (hq, hx, ha)
Ended-final false ChildRunStatus.completed q x a hq hx ha = (hq, hx, ha)
Ended-final false ChildRunStatus.failed q x a hq hx ha = (hq, hx, ha)
Ended-final false ChildRunStatus.cancelled q x a hq hx ha = (hq, hx, ha)

-- A task that a worker is executing is not announced and not in the queue.
pub Linked-executing :
    (st : TaskStatus) (q x a : ℕ) → Linked st q x a → 1 ≤ x → (q ≡ 0) × (x ≡ 1) × (a ≡ 0)
Linked-executing queued q x a h k = omega arith
Linked-executing running q x a h k = omega arith
Linked-executing waiting_approval q x a h k = omega arith
Linked-executing cancelling q x a h k = omega arith
Linked-executing completed q x a h k = omega arith
Linked-executing failed q x a h k = omega arith
Linked-executing cancelled q x a h k = omega arith

module _ (x d : ℕ → ℕ) where
  register-Sound :
      (session : Session) (prompt description : Text) (notify : Bool) (old : Option Session)
      (m : TaskManager)
      → Sound x d m
      → Sound x d (register session prompt description notify old m)
  unfolding register
  register-Sound session prompt description notify old m h =
      AllLinked-snoc (λ i. count i (m.work ++ length m.tasks ∷ []))
        (new_task session prompt description notify) h
        (λ j n. omega (
          arith,
          count-append j m.work (length m.tasks ∷ []),
          count-other j (length m.tasks) [] n,
          count-nil j,
        ))
        refl (count-snoc (length m.tasks) m.work)

  launch_idle-Sound :
      (session : Session) (prompt description : Text) (notify : Bool) (old : Option Session)
      (m : TaskManager)
      → Sound x d m
      → Sound x d (launch_idle session prompt description notify old m).1
  unfolding launch_idle
  launch_idle-Sound session prompt description notify old m h =
      if_ind (λ (r : Result ℕ × TaskManager). Sound x d r.1) (busy session.id m.tasks) (λ e. h)
        (λ e. register-Sound session prompt description notify old m h)

  launch_named-Sound :
      (session : Session) (prompt description : Text) (notify : Bool) (holder : Option ℕ)
      (m : TaskManager)
      → Sound x d m
      → Sound x d (launch_named session prompt description notify holder m).1
  unfolding launch_named
  launch_named-Sound session prompt description notify none m h =
      launch_idle-Sound session prompt description notify none m h
  launch_named-Sound session prompt description notify (some id) m h =
      if_ind (λ (r : Result ℕ × TaskManager). Sound x d r.1) (busy id m.tasks) (λ e. h)
        (λ e.
          launch_idle-Sound session prompt description notify (lookup_session id m.sessions)
            (record m { sessions = pop_session id m.sessions }) h)

  pub launch-Sound :
      (session : Session) (prompt description : Text) (notify : Bool) (m : TaskManager)
      → Sound x d m
      → Sound x d (launch session prompt description notify m).1
  unfolding launch
  launch-Sound session prompt description notify m h =
      if_ind (λ (r : Result ℕ × TaskManager). Sound x d r.1)
        (is_empty (strip prompt) || is_empty (strip description)) (λ e. h)
        (λ e.
          if_ind (λ (r : Result ℕ × TaskManager). Sound x d r.1) m.closed (λ c. h)
            (λ c.
              launch_named-Sound session prompt description notify (other_holder session m) m h))

  pub send_message-Sound :
      (name message : Text) (m : TaskManager)
      → Sound x d m
      → Sound x d (send_message name message m).1
  unfolding send_message
  send_message-Sound name message m h =
      option_ind (λ (r : Result ℕ × TaskManager). Sound x d r.1) (lookup_name name m.names) (λ e. h)
        (λ id e.
          option_ind (λ (r : Result ℕ × TaskManager). Sound x d r.1) (lookup_session id m.sessions)
            (λ n. h) (λ session f. launch-Sound session message _ true _ h))

  pub stop-Sound : (i : ℕ) (m : TaskManager) → Sound x d m → Sound x d (stop i m).1
  unfolding stop
  stop-Sound i m h =
      option_ind (λ (r : Result Bool × TaskManager). Sound x d r.1) (get_elem? m.tasks i) (λ e. h)
        (λ task found.
          if_ind (λ (r : Result Bool × TaskManager). Sound x d r.1) (is_active task.status)
            (λ active.
              AllLinked-set i task (record task { status = cancelling }) h found (λ j n. refl)
                (λ j n. refl) (λ j n. refl)
                (Linked-cancelling task.status _ _ _ active (h.each i task found)))
            (λ ended. h))

  pub wait_round-Sound :
      (i : ℕ) (caller_cancelled : Bool) (m : TaskManager)
      → Sound x d m
      → Sound x d (wait_round i caller_cancelled m).1
  unfolding wait_round
  wait_round-Sound i caller_cancelled m h =
      option_ind (λ (r : Result (Option TaskRun) × TaskManager). Sound x d r.1)
        (get_elem? m.tasks i) (λ e. h)
        (λ task found.
          if_ind (λ (r : Result (Option TaskRun) × TaskManager). Sound x d r.1)
            (is_active task.status)
            (λ active. if_ind (Sound x d) caller_cancelled (λ c. stop-Sound i m h) (λ c. h))
            (λ ended. h))

  pub stop_by_name-Sound :
      (name : Text) (m : TaskManager) → Sound x d m → Sound x d (stop_by_name name m).1
  unfolding stop_by_name
  stop_by_name-Sound name m h =
      option_ind (λ (r : Result Bool × TaskManager). Sound x d r.1) (latest_from 0 name m.tasks)
        (λ e. h) (λ i e. stop-Sound i m h)

  mark_waiting-Sound :
      (waiting : Bool) (i : ℕ) (m : TaskManager)
      → Sound x d m
      → Sound x d (mark_waiting waiting i m)
  unfolding mark_waiting
  mark_waiting-Sound waiting i m h =
      option_ind (Sound x d) (get_elem? m.tasks i) (λ e. h)
        (λ task found.
          AllLinked-set i task (record task { status = waiting_status waiting task.status }) h found
            (λ j n. refl) (λ j n. refl) (λ j n. refl)
            (Linked-waiting waiting task.status _ _ _ (h.each i task found)))

  pub mark_waiting_approval-Sound :
      (name : Text) (waiting : Bool) (m : TaskManager)
      → Sound x d m
      → Sound x d (mark_waiting_approval name waiting m).1
  unfolding mark_waiting_approval
  mark_waiting_approval-Sound name waiting m h =
      option_ind (λ (r : Bool × TaskManager). Sound x d r.1) (latest_from 0 name m.tasks) (λ e. h)
        (λ i e. mark_waiting-Sound waiting i m h)

  pub mark_background-Sound :
      (i : ℕ) (m : TaskManager) → Sound x d m → Sound x d (mark_background i m).1
  unfolding mark_background
  mark_background-Sound i m h =
      option_ind (λ (r : Result (Unit {0}) × TaskManager). Sound x d r.1) (get_elem? m.tasks i)
        (λ e. h)
        (λ task found.
          if_ind (λ (r : Result (Unit {0}) × TaskManager). Sound x d r.1) task.notify_on_done
            (λ e. h)
            (λ e.
              AllLinked-set i task (record task { notify_on_done = true }) h found (λ j n. refl)
                (λ j n. refl) (λ j n. refl) (h.each i task found)))
