-- ===== src/Subagents/Tasks/Steps.antt =====
-- The threads around the task manager: callers of its methods, the workers of its executor, and the
-- readers of its two queues.
use fakuicode.Prelude.{ℕ, Bool, List, [], ◌∷◌, ◌++◌, ◌≡◌, Text, if◌then◌else◌}
use fakuicode.Subagents.Tasks.{begin_run, end_run, begin_close, end_close}
use fakuicode.Subagents.TaskCalls.{
  launch, send_message, stop, wait_round, stop_by_name, mark_waiting_approval, mark_background,
  drain_done, drain_notifications,
}
use fakuicode.Subagents.TaskState.{Session, ChildRunResult, TaskManager, init}

-- `executing` lists the tasks whose child is running, `delivered` all that `drain_done` returned.
pub record System : Type 0 where
  pub manager : TaskManager
  pub executing : List ℕ
  pub delivered : List ℕ

abbrev pub with_manager : System → TaskManager → System
with_manager s m = record s { manager = m }

-- A worker has taken the first task of the queue.
abbrev pub taken : System → ℕ → List ℕ → Bool × TaskManager → System
taken s i rest (begun, m) = record {
  manager = m;
  executing = if begun then i ∷ s.executing else s.executing;
  delivered = s.delivered;
}

pub data Step (s : System) : System → Type 0 where
  launched :
      (session : Session) (prompt description : Text) (notify : Bool)
      → Step s (with_manager s (launch session prompt description notify s.manager).1)
  messaged : (name message : Text) → Step s (with_manager s (send_message name message s.manager).1)
  stopped : (i : ℕ) → Step s (with_manager s (stop i s.manager).1)
  waited :
      (i : ℕ) (caller_cancelled : Bool)
      → Step s (with_manager s (wait_round i caller_cancelled s.manager).1)
  stopped_by_name : (name : Text) → Step s (with_manager s (stop_by_name name s.manager).1)
  marked_waiting :
      (name : Text) (waiting : Bool)
      → Step s (with_manager s (mark_waiting_approval name waiting s.manager).1)
  marked_background : (i : ℕ) → Step s (with_manager s (mark_background i s.manager).1)
  worker_takes :
      (now i : ℕ) (rest : List ℕ)
      → s.manager.work ≡ i ∷ rest
      → Step s (taken s i rest (begin_run now i (record s.manager { work = rest })))
  child_returns :
      (now i : ℕ) (outcome : ChildRunResult) (before after : List ℕ)
      → s.executing ≡ before ++ i ∷ after
      → Step s (record {
        manager = end_run now i outcome s.manager;
        executing = before ++ after;
        delivered = s.delivered;
      })
  drained_done : Step s (record s {
    manager = (drain_done s.manager).1;
    delivered = s.delivered ++ (drain_done s.manager).0;
  })
  drained_notifications : Step s (with_manager s (drain_notifications s.manager).1)
  close_begins : (now : ℕ) → Step s (with_manager s (begin_close now s.manager))
  close_ends : Step s (with_manager s (end_close s.manager).1)

abbrev pub start : System
start = record { manager = init; executing = []; delivered = [] }

pub data Reach : System → Type 0 where
  here : Reach start
  next : {s s' : System} → Reach s → Step s s' → Reach s'
