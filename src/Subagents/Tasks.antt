-- ===== src/Subagents/Tasks.antt =====
-- `_run`, `_finish` and `close` of `TaskManager` of subagents/tasks.py. `_run` and `close` have two
-- critical sections each, with the child's run and the wait for the workers between them.
pub mod Steps
pub mod Links
pub mod Lifecycle
pub mod Ends
pub mod Closing
pub mod Announced
pub mod Edits
pub mod Edited
pub mod Finality
pub mod Exclusive
mod Samples
use fakuicode.Prelude.{
  ℕ, suc, ◌+◌, Bool, true, false, not, ◌&&◌, ◌||◌, Option, none, some, String, List, [], ◌∷◌, ◌++◌,
  Text, codes, text_eq, strip, is_empty, any, filter, find, length, get_elem?, set, reverse, ◌==◌,
  if◌then◌else◌,
}
use fakuicode.Subagents.TaskState.{
  ChildRunResult, ChildRunStatus, CloseStatus, Result, Session, TaskManager, TaskRun, TaskStatus,
  blank_text, busy, cancel, cancelled, cancelling, close, completed, err, error, failed, is_active,
  lookup_name, lookup_session, manager_closed, name_taken, new_task, no_such_agent, ok, pop_session,
  put_name, put_session, queued, running, session_busy, touch, unknown_task, waiting_approval,
}
use fakuicode.Subagents.TaskCalls.{put_if, set_task}

-- A task that ends: the new record, and `_finish`.
unfoldable pub finish : ℕ → TaskRun → TaskManager → TaskManager
finish i task m = record (set_task i task m) {
  done = m.done ++ i ∷ [];
  notifications = put_if task.notify_on_done i m.notifications;
}

-- A worker takes a task off the queue: `true` means that the child's run begins.
unfoldable pub begin_task : TaskStatus → ℕ → ℕ → TaskRun → TaskManager → Bool × TaskManager
begin_task completed now i task m = (false, m)
begin_task failed now i task m = (false, m)
begin_task cancelled now i task m = (false, m)
begin_task cancelling now i task m =
    (false, finish i (record task { status = cancelled; end_time_ns = some now }) m)
begin_task _ now i task m =
    (true, set_task i (record task { status = running; start_time_ns = now }) m)

unfoldable pub begin_run : ℕ → ℕ → TaskManager → Bool × TaskManager
begin_run now i m = elim (get_elem? m.tasks i) [
  | none ↦ (false, m)
  | some task ↦ begin_task task.status now i task m
]

abbrev pub status_of : ChildRunStatus → TaskStatus
status_of ChildRunStatus.completed = completed
status_of ChildRunStatus.failed = failed
status_of ChildRunStatus.cancelled = cancelled

abbrev pub is_cancelling : TaskStatus → Bool
is_cancelling cancelling = true
is_cancelling _ = false

abbrev cancelled_message : Text
cancelled_message = codes "子 Agent 已取消。"

-- `error or "…"`
abbrev error_or_cancelled : Option Text → Option Text
error_or_cancelled none = some cancelled_message
error_or_cancelled (some []) = some cancelled_message
error_or_cancelled (some (c ∷ s)) = some (c ∷ s)

abbrev pub close_status : TaskStatus → CloseStatus
close_status cancelled = CloseStatus.cancelled
close_status failed = CloseStatus.error
close_status _ = CloseStatus.completed

unfoldable pub close_session_once : ℕ → CloseStatus → TaskManager → TaskManager
unfolding any
close_session_once id status m = if any (λ j. j == id) m.closed_sessions then m else record m {
  closed_sessions = id ∷ m.closed_sessions;
  calls = m.calls ++ close id status ∷ [];
}

abbrev pub ended_task : ℕ → ChildRunResult → TaskRun → TaskRun
ended_task now outcome task = record task {
  status = if is_cancelling task.status then cancelled else status_of outcome.status;
  result = outcome.text;
  error = if is_cancelling task.status then error_or_cancelled outcome.error else outcome.error;
  end_time_ns = some now;
  usage = outcome.usage;
  tool_count = outcome.tool_count;
  last_activity = outcome.last_activity;
}

-- The child's run has returned; an exception of it is a failed outcome. The source closes the
-- session of an ended task in a second critical section, which is part of this step.
unfoldable pub end_run : ℕ → ℕ → ChildRunResult → TaskManager → TaskManager
end_run now i outcome m = elim (get_elem? m.tasks i) [
  | none ↦ m
  | some task ↦
      let ended = ended_task now outcome task in
      let m' = finish i ended m in
      if m.closed then close_session_once task.session.id (close_status ended.status) m' else m'
]

abbrev pub stopped_message : Text
stopped_message = codes "子 Agent 在启动前已取消。"

-- What the first half of `close` does with one task, by its status.
unfoldable pub closing_task : TaskStatus → ℕ → TaskRun → TaskRun
closing_task completed now task = task
closing_task failed now task = task
closing_task cancelled now task = task
closing_task queued now task = record task {
  status = cancelled;
  error = some stopped_message;
  end_time_ns = some now;
}
closing_task _ now task = record task { status = cancelling }

abbrev pub is_queued : TaskStatus → Bool
is_queued queued = true
is_queued _ = false

-- `for task in self._tasks.values()`, from number `i` on.
unfoldable pub close_tasks : ℕ → ℕ → List TaskRun → TaskManager → TaskManager
close_tasks now i [] m = m
close_tasks now i (task ∷ rest) m = close_tasks now (suc i) rest (record m {
  tasks = set m.tasks i (closing_task task.status now task);
  done = put_if (is_queued task.status) i m.done;
  notifications = put_if (is_queued task.status && task.notify_on_done) i m.notifications;
  calls = if is_active task.status then m.calls ++ cancel task.session.id ∷ [] else m.calls;
})

unfoldable pub begin_close : ℕ → TaskManager → TaskManager
begin_close now m = if m.closed then m else close_tasks now 0 m.tasks (record m { closed = true })

unfoldable pub active_from : ℕ → List TaskRun → List ℕ
active_from i [] = []
active_from i (task ∷ tasks) =
    let rest = active_from (suc i) tasks in if is_active task.status then i ∷ rest else rest

-- The status of a session's last task, `completed` if it had none.
unfoldable pub latest_status : ℕ → List TaskRun → Option TaskStatus
latest_status id [] = none
latest_status id (task ∷ tasks) = elim (latest_status id tasks) [
  | some status ↦ some status
  | none ↦ if task.session.id == id then some task.status else none
]

abbrev final_close_status : Option TaskStatus → CloseStatus
final_close_status none = CloseStatus.completed
final_close_status (some status) = close_status status

unfoldable pub close_sessions : List Session → TaskManager → TaskManager
unfolding busy latest_status close_session_once
close_sessions [] m = m
close_sessions (session ∷ rest) m = close_sessions rest (
    if busy session.id m.tasks
    then m
    else close_session_once session.id (final_close_status (latest_status session.id m.tasks)) m)

-- The second half of `close`, after the workers have had their time. `launch` refuses a closed
-- manager, so the sessions are those of the first half.
unfoldable pub end_close : TaskManager → List ℕ × TaskManager
unfolding active_from close_sessions
end_close m =
    let detached = active_from 0 m.tasks in
    (detached, close_sessions m.sessions (record m { close_report = detached }))
