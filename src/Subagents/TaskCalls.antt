-- ===== src/Subagents/TaskCalls.antt =====
-- The methods of `TaskManager` of subagents/tasks.py that callers and readers use. Each is one
-- critical section under the manager's lock, a function from the state to the state.
use fakuicode.Prelude.{
  ℕ, suc, Bool, true, false, not, ◌&&◌, ◌||◌, Option, none, some, List, [], ◌∷◌, ◌++◌, Text, codes,
  text_eq, strip, is_empty, length, get_elem?, set, ◌==◌, if◌then◌else◌,
}
use fakuicode.Subagents.TaskState.{
  CloseStatus, Result, Session, TaskManager, TaskRun, TaskStatus, blank_text, busy, cancel,
  cancelling, close, err, is_active, lookup_name, lookup_session, manager_closed, name_taken,
  new_task, no_such_agent, ok, pop_session, put_name, put_session, running, session_busy, touch,
  unknown_task, waiting_approval,
}

-- The session that has the name now, if it is another one.
abbrev pub other_holder : Session → TaskManager → Option ℕ
other_holder session m = elim (lookup_name session.name m.names) [
  | none ↦ none
  | some id ↦ if id == session.id then none else some id
]

-- The rest of `launch`, behind the check that the session is idle.
unfoldable pub register : Session → Text → Text → Bool → Option Session → TaskManager → TaskManager
register session prompt description notify superseded m = record m {
  tasks = m.tasks ++ new_task session prompt description notify ∷ [];
  sessions = put_session session m.sessions;
  names = put_name session.name session.id m.names;
  work = m.work ++ length m.tasks ∷ [];
  calls = elim superseded [
    | none ↦ m.calls
    | some old ↦ m.calls ++ close old.id CloseStatus.completed ∷ []
  ];
}

unfoldable pub launch_idle :
    Session → Text → Text → Bool → Option Session → TaskManager → Result ℕ × TaskManager
launch_idle session prompt description notify superseded m =
    if busy session.id m.tasks
    then (err session_busy, m)
    else (ok (length m.tasks), register session prompt description notify superseded m)

-- From the look at the holder of the name on. The old session leaves the table here, also if the
-- next check raises.
unfoldable pub launch_named :
    Session → Text → Text → Bool → Option ℕ → TaskManager → Result ℕ × TaskManager
launch_named session prompt description notify none m =
    launch_idle session prompt description notify none m
launch_named session prompt description notify (some holder) m =
    if busy holder m.tasks
    then (err name_taken, m)
    else launch_idle session prompt description notify (lookup_session holder m.sessions)
        (record m { sessions = pop_session holder m.sessions })

unfoldable pub launch : Session → Text → Text → Bool → TaskManager → Result ℕ × TaskManager
launch session prompt description notify m =
    if is_empty (strip prompt) || is_empty (strip description)
    then (err blank_text, m)
    else if m.closed
    then (err manager_closed, m)
    else launch_named session prompt description notify (other_holder session m) m

abbrev continuation : Text
continuation = codes "续派给 "

unfoldable pub send_message : Text → Text → TaskManager → Result ℕ × TaskManager
send_message name message m = elim (lookup_name name m.names) [
  | none ↦ (err no_such_agent, m)
  | some id ↦ elim (lookup_session id m.sessions) [
    | none ↦ (err no_such_agent, m)
    | some session ↦
        launch session message (continuation ++ name) true
          (record m { calls = m.calls ++ touch session.id ∷ [] })
  ]
]

abbrev pub set_task : ℕ → TaskRun → TaskManager → TaskManager
set_task i task m = record m { tasks = set m.tasks i task }

unfoldable pub stop : ℕ → TaskManager → Result Bool × TaskManager
stop i m = elim (get_elem? m.tasks i) [
  | none ↦ (err unknown_task, m)
  | some task ↦
      if is_active task.status
      then (
        ok true,
        record (set_task i (record task { status = cancelling }) m) {
          calls = m.calls ++ cancel task.session.id ∷ [];
        },
      )
      else (ok false, m)
]

-- One round of the loop of `wait`, between two sleeps: the task if it has ended, and else a call of
-- `stop` if the waiting caller was cancelled. Its snapshot is the record of the task.
unfoldable pub wait_round : ℕ → Bool → TaskManager → Result (Option TaskRun) × TaskManager
wait_round i caller_cancelled m = elim (get_elem? m.tasks i) [
  | none ↦ (err unknown_task, m)
  | some task ↦
      if is_active task.status
      then (ok none, if caller_cancelled then (stop i m).1 else m)
      else (ok (some task), m)
]

-- The last task of a name that is not finished, by its number.
pub latest_from : ℕ → Text → List TaskRun → Option ℕ
unfolding text_eq
latest_from i name [] = none
latest_from i name (task ∷ tasks) = elim (latest_from (suc i) name tasks) [
  | some later ↦ some later
  | none ↦ if text_eq task.session.name name && is_active task.status then some i else none
]

-- The search and the stop are one step; the source lets the lock go in between.
unfoldable pub stop_by_name : Text → TaskManager → Result Bool × TaskManager
unfolding latest_from
stop_by_name name m = elim (latest_from 0 name m.tasks) [ none ↦ (ok false, m) | some i ↦ stop i m ]

abbrev pub waiting_status : Bool → TaskStatus → TaskStatus
waiting_status true running = waiting_approval
waiting_status true status = status
waiting_status false waiting_approval = running
waiting_status false status = status

unfoldable pub mark_waiting : Bool → ℕ → TaskManager → TaskManager
mark_waiting waiting i m = elim (get_elem? m.tasks i) [
  | none ↦ m
  | some task ↦ set_task i (record task { status = waiting_status waiting task.status }) m
]

unfoldable pub mark_waiting_approval : Text → Bool → TaskManager → Bool × TaskManager
unfolding latest_from
mark_waiting_approval name waiting m = elim (latest_from 0 name m.tasks) [
  | none ↦ (false, m)
  | some i ↦ (true, mark_waiting waiting i m)
]

abbrev pub put_if : Bool → ℕ → List ℕ → List ℕ
put_if true i queue = queue ++ i ∷ []
put_if false i queue = queue

unfoldable pub mark_background : ℕ → TaskManager → Result (Unit {0}) × TaskManager
mark_background i m = elim (get_elem? m.tasks i) [
  | none ↦ (err unknown_task, m)
  | some task ↦ if task.notify_on_done then (ok tt, m) else (
    ok tt,
    record (set_task i (record task { notify_on_done = true }) m) {
      notifications = put_if (not (is_active task.status)) i m.notifications;
    },
  )
]

unfoldable pub drain_done : TaskManager → List ℕ × TaskManager
drain_done m = (m.done, record m { done = [] })

unfoldable pub drain_notifications : TaskManager → List ℕ × TaskManager
drain_notifications m = (m.notifications, record m { notifications = [] })
