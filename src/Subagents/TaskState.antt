-- ===== src/Subagents/TaskState.antt =====
-- `TaskStatus`, `_TaskRun` and the state of `TaskManager` of subagents/tasks.py, with the tables that
-- it keeps; `ChildRunResult` of subagents/runtime.py and `TokenUsage` of models.py. A task's number
-- stands for its `uuid4` id: the n-th task has the number n. Calls of the session objects are logged
-- in `calls`.
use fakuicode.Prelude.{
  ℕ, Bool, true, false, not, ◌&&◌, Option, none, some, List, [], ◌∷◌, Text, text_eq, strip, any,
  filter, find, ◌==◌, if◌then◌else◌,
}

pub data TaskStatus : Type 0 where
  queued running waiting_approval completed failed cancelling cancelled : TaskStatus

-- `status not in _TERMINAL`
unfoldable pub is_active : TaskStatus → Bool
is_active queued = true
is_active running = true
is_active waiting_approval = true
is_active cancelling = true
is_active completed = false
is_active failed = false
is_active cancelled = false

-- `TokenUsage` of models.py.
pub record TokenUsage : Type 0 where
  pub input_tokens : Option ℕ
  pub output_tokens : Option ℕ
  pub cache_read_tokens : Option ℕ
  pub cache_write_tokens : Option ℕ
  pub context_input_tokens : Option ℕ

-- `ChildRunStatus` and `ChildRunResult` of subagents/runtime.py: what a child's run returns.
pub data ChildRunStatus : Type 0 where
  completed failed cancelled : ChildRunStatus

pub record ChildRunResult : Type 0 where
  pub text : Text
  pub status : ChildRunStatus
  pub error : Option Text
  pub usage : Option TokenUsage
  pub tool_count : ℕ
  pub last_activity : Text

-- The two attributes of a session object that the manager reads.
pub record Session : Type 0 where
  pub id : ℕ
  pub name : Text

pub data CloseStatus : Type 0 where
  completed cancelled error : CloseStatus

pub data Call : Type 0 where
  cancel touch : ℕ → Call
  close : ℕ → CloseStatus → Call

-- `_TaskRun`
pub record TaskRun : Type 0 where
  pub session : Session
  pub prompt : Text
  pub description : Text
  pub status : TaskStatus
  pub result : Text
  pub error : Option Text
  pub start_time_ns : ℕ
  pub end_time_ns : Option ℕ
  pub usage : Option TokenUsage
  pub tool_count : ℕ
  pub last_activity : Text
  pub notify_on_done : Bool

-- `work` is the queue of the executor: the tasks that were submitted and not yet taken by a worker.
pub record TaskManager : Type 0 where
  pub tasks : List TaskRun
  pub sessions : List Session
  pub names : List (Text × ℕ)
  pub done : List ℕ
  pub notifications : List ℕ
  pub closed_sessions : List ℕ
  pub closed : Bool
  pub close_report : List ℕ
  pub work : List ℕ
  pub calls : List Call

-- `TaskManagerError` by its message.
pub data TaskError : Type 0 where
  blank_text manager_closed name_taken session_busy unknown_task no_such_agent : TaskError

pub data Result {ℓ} (A : Type ℓ) : Type ℓ where
  ok : A → Result A
  err : TaskError → Result A

abbrev pub init : TaskManager
init = record {
  tasks = [];
  sessions = [];
  names = [];
  done = [];
  notifications = [];
  closed_sessions = [];
  closed = false;
  close_report = [];
  work = [];
  calls = [];
}

abbrev pub is_running_for : ℕ → TaskRun → Bool
is_running_for session_id task = task.session.id == session_id && is_active task.status

-- `any(task.session.id == session_id and task.status not in _TERMINAL for …)`
unfoldable pub busy : ℕ → List TaskRun → Bool
unfolding any
busy session_id tasks = any (is_running_for session_id) tasks

unfoldable pub lookup_name : Text → List (Text × ℕ) → Option ℕ
unfolding text_eq
lookup_name name [] = none
lookup_name name ((key, id) ∷ names) = if text_eq key name then some id else lookup_name name names

-- `self._names[name] = id`
unfoldable pub put_name : Text → ℕ → List (Text × ℕ) → List (Text × ℕ)
unfolding text_eq
put_name name id [] = (name, id) ∷ []
put_name name id ((key, old) ∷ names) =
    if text_eq key name then (key, id) ∷ names else (key, old) ∷ put_name name id names

unfoldable pub lookup_session : ℕ → List Session → Option Session
unfolding find
lookup_session id sessions = find (λ (s : Session). s.id == id) sessions

-- `self._sessions.pop(id, None)`
unfoldable pub pop_session : ℕ → List Session → List Session
unfolding filter
pop_session id sessions = filter (λ (s : Session). not (s.id == id)) sessions

unfoldable pub put_session : Session → List Session → List Session
put_session session [] = session ∷ []
put_session session (old ∷ sessions) =
    if old.id == session.id then session ∷ sessions else old ∷ put_session session sessions

abbrev pub new_task : Session → Text → Text → Bool → TaskRun
new_task session prompt description notify = record {
  session = session;
  prompt = strip prompt;
  description = strip description;
  status = queued;
  result = [];
  error = none;
  start_time_ns = 0;
  end_time_ns = none;
  usage = none;
  tool_count = 0;
  last_activity = [];
  notify_on_done = notify;
}
