-- ===== src/Subagents/Tasks/Announced.antt =====
-- The announcements of ended tasks.
use fakuicode.Prelude.{
  ℕ, ◌+◌, ◌≡◌, subst, true, some, get_elem?, count, count-nil, arith, if◌then◌else◌,
}
use fakuicode.Subagents.TaskState.{
  TaskStatus, queued, running, waiting_approval, completed, failed, cancelling, cancelled,
  is_active, TaskRun,
}
use fakuicode.Subagents.Tasks.Steps.{
  System, Step, Reach, start, here, next, launched, messaged, stopped, stopped_by_name, waited,
  marked_waiting, marked_background, worker_takes, child_returns, drained_done,
  drained_notifications, close_begins, close_ends,
}
use fakuicode.Subagents.Tasks.Links.{Linked, AllLinked}
use fakuicode.Subagents.Tasks.Lifecycle.{
  Sound, launch-Sound, send_message-Sound, stop-Sound, stop_by_name-Sound, wait_round-Sound,
  mark_waiting_approval-Sound, mark_background-Sound,
}
use fakuicode.Subagents.Tasks.Ends.{begin_run-Sound, end_run-Sound}
use fakuicode.Subagents.Tasks.Closing.{
  begin_close-Sound, end_close-Sound, drain_done-Sound, drain_notifications-Sound,
}

-- Each task's status agrees with its places in the executor and among the announced ends.
abbrev pub IsAccounted : System → Type 0
IsAccounted s = Sound (λ i. count i s.executing) (λ i. count i s.delivered) s.manager

Step-IsAccounted : {s s' : System} → Step s s' → IsAccounted s → IsAccounted s'
Step-IsAccounted {s} (launched session prompt description notify) h =
    launch-Sound _ _ session prompt description notify s.manager h
Step-IsAccounted {s} (messaged name message) h = send_message-Sound _ _ name message s.manager h
Step-IsAccounted {s} (stopped i) h = stop-Sound _ _ i s.manager h
Step-IsAccounted {s} (waited i caller_cancelled) h =
    wait_round-Sound _ _ i caller_cancelled s.manager h
Step-IsAccounted {s} (stopped_by_name name) h = stop_by_name-Sound _ _ name s.manager h
Step-IsAccounted {s} (marked_waiting name waiting) h =
    mark_waiting_approval-Sound _ _ name waiting s.manager h
Step-IsAccounted {s} (marked_background i) h = mark_background-Sound _ _ i s.manager h
Step-IsAccounted {s} (worker_takes now i rest e) h =
    begin_run-Sound s.executing (λ j. count j s.delivered) now i (record s.manager { work = rest })
      (subst
        (λ w.
          AllLinked s.manager.tasks (λ j. count j w) (λ j. count j s.executing)
            (λ j. count j s.delivered + count j s.manager.done))
        e h)
Step-IsAccounted {s} (child_returns now i outcome before after e) h =
    end_run-Sound before after (λ j. count j s.delivered) now i outcome s.manager
      (subst (λ ex. Sound (λ j. count j ex) (λ j. count j s.delivered) s.manager) e h)
Step-IsAccounted {s} drained_done h =
    drain_done-Sound (λ j. count j s.executing) s.delivered s.manager h
Step-IsAccounted {s} drained_notifications h = drain_notifications-Sound _ _ s.manager h
Step-IsAccounted {s} (close_begins now) h = begin_close-Sound _ _ now s.manager h
Step-IsAccounted {s} close_ends h = end_close-Sound _ _ s.manager h

start-IsAccounted : IsAccounted start
start-IsAccounted = record {
  each = λ i task found. cc;
  beyond = λ i big. (count-nil i, count-nil i, omega (arith, count-nil i));
}

-- In every state that the threads reach, each task's status agrees with its places: a queued one
-- waits in the executor's queue once and nowhere else, a running one is with one worker, a
-- cancelling one is in one of the two, and one that has ended is with no worker. The end of an ended
-- task has been announced exactly once, read or not, and no other task's end has been announced.
pub Reach-IsAccounted : {s : System} → Reach s → IsAccounted s
Reach-IsAccounted here = start-IsAccounted
Reach-IsAccounted (next r step) = Step-IsAccounted step (Reach-IsAccounted r)

Linked-announced :
    (st : TaskStatus) (q x a : ℕ) → Linked st q x a → a ≡ (if is_active st then 0 else 1)
unfolding is_active
Linked-announced queued q x a h = omega arith
Linked-announced running q x a h = omega arith
Linked-announced waiting_approval q x a h = omega arith
Linked-announced cancelling q x a h = omega arith
Linked-announced completed q x a h = omega arith
Linked-announced failed q x a h = omega arith
Linked-announced cancelled q x a h = omega arith

Linked-busy : (st : TaskStatus) (q x a : ℕ) → Linked st q x a → is_active st ≡ true → q + x ≡ 1
unfolding is_active
Linked-busy queued q x a h e = omega arith
Linked-busy running q x a h e = omega arith
Linked-busy waiting_approval q x a h e = omega arith
Linked-busy cancelling q x a h e = omega arith
Linked-busy completed q x a h e = cc
Linked-busy failed q x a h e = cc
Linked-busy cancelled q x a h e = cc

-- A task that has not ended is never lost: it stands with the executor, in its queue or with one
-- worker, exactly once, in every state that the threads reach.
pub active_is_scheduled :
    {s : System} (i : ℕ) (task : TaskRun)
    → Reach s
    → get_elem? s.manager.tasks i ≡ some task
    → is_active task.status ≡ true
    → count i s.manager.work + count i s.executing ≡ 1
active_is_scheduled i task r found active =
    Linked-busy task.status _ _ _ ((Reach-IsAccounted r).each i task found) active

-- The readers of `drain_done` get every end once: what they were given so far and what still waits
-- for them holds a task once if it has ended, and not at all if it has not.
pub end_announced_once :
    {s : System} (i : ℕ) (task : TaskRun)
    → Reach s
    → get_elem? s.manager.tasks i ≡ some task
    → count i s.delivered + count i s.manager.done ≡ (if is_active task.status then 0 else 1)
end_announced_once i task r found =
    Linked-announced task.status _ _ _ ((Reach-IsAccounted r).each i task found)
