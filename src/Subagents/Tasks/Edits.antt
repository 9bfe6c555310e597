-- ===== src/Subagents/Tasks/Edits.antt =====
-- What the methods do to the list of tasks: they add a task for an idle session, and they rewrite
-- a task's record without a change of its session or of its end.
use fakuicode.Prelude.{
  ℕ, ◌≡◌, refl, Bool, true, false, ◌||◌, Option, none, some, List, [], ◌∷◌, ◌++◌, Text, strip,
  is_empty, get_elem?, set, arith, if_ind, option_ind,
}
use fakuicode.Subagents.Tasks.{finish, begin_task, begin_run}
use fakuicode.Subagents.TaskCalls.{
  other_holder, register, launch_idle, launch_named, launch, send_message, stop, wait_round,
  latest_from, stop_by_name, waiting_status, mark_waiting, mark_waiting_approval, mark_background,
}
use fakuicode.Subagents.TaskState.{
  TaskStatus, queued, running, waiting_approval, completed, failed, cancelling, cancelled,
  is_active, TaskRun, TaskManager, Session, Result, new_task, busy, lookup_session, lookup_name,
  pop_session,
}

-- Two records of one run tell the same end.
pub record SameEnd (task task' : TaskRun) : Type 0 where
  pub status : task'.status ≡ task.status
  pub result : task'.result ≡ task.result
  pub error : task'.error ≡ task.error
  pub end_time : task'.end_time_ns ≡ task.end_time_ns
  pub usage : task'.usage ≡ task.usage

pub same_end : (task : TaskRun) → SameEnd task task
same_end task = record { status = refl; result = refl; error = refl; end_time = refl; usage = refl }

pub record Rewrite (old new : TaskRun) : Type 0 where
  pub session : new.session ≡ old.session
  pub kept : is_active old.status ≡ false → SameEnd old new

pub while_active :
    (old new : TaskRun) → new.session ≡ old.session → is_active old.status ≡ true → Rewrite old new
while_active old new session active = record { session = session; kept = λ over. cc (active, over) }

pub data Edits (tasks : List TaskRun) : List TaskRun → Type 0 where
  unchanged : Edits tasks tasks
  added :
      {now : List TaskRun} (new : TaskRun)
      → busy new.session.id now ≡ false
      → Edits tasks now
      → Edits tasks (now ++ new ∷ [])
  rewritten :
      {now : List TaskRun} (j : ℕ) (old new : TaskRun)
      → get_elem? now j ≡ some old
      → Rewrite old new
      → Edits tasks now
      → Edits tasks (set now j new)

waiting_ended :
    (waiting : Bool) (st : TaskStatus) → is_active st ≡ false → waiting_status waiting st ≡ st
unfolding is_active
waiting_ended waiting st e = ground arith

module _ (tasks : List TaskRun) where
  abbrev Edited : TaskManager → Type 0
  Edited m = Edits tasks m.tasks

  launch_idle-Edited :
      (session : Session) (prompt description : Text) (notify : Bool) (old : Option Session)
      (m : TaskManager)
      → Edited m
      → Edited (launch_idle session prompt description notify old m).1
  unfolding launch_idle register
  launch_idle-Edited session prompt description notify old m h =
      if_ind (λ (r : Result ℕ × TaskManager). Edited r.1) (busy session.id m.tasks) (λ e. h)
        (λ e. added (new_task session prompt description notify) e h)

  launch_named-Edited :
      (session : Session) (prompt description : Text) (notify : Bool) (holder : Option ℕ)
      (m : TaskManager)
      → Edited m
      → Edited (launch_named session prompt description notify holder m).1
  unfolding launch_named
  launch_named-Edited session prompt description notify none m h =
      launch_idle-Edited session prompt description notify none m h
  launch_named-Edited session prompt description notify (some id) m h =
      if_ind (λ (r : Result ℕ × TaskManager). Edited r.1) (busy id m.tasks) (λ e. h)
        (λ e.
          launch_idle-Edited session prompt description notify (lookup_session id m.sessions)
            (record m { sessions = pop_session id m.sessions }) h)

  pub launch-Edited :
      (session : Session) (prompt description : Text) (notify : Bool) (m : TaskManager)
      → Edited m
      → Edited (launch session prompt description notify m).1
  unfolding launch
  launch-Edited session prompt description notify m h =
      if_ind (λ (r : Result ℕ × TaskManager). Edited r.1)
        (is_empty (strip prompt) || is_empty (strip description)) (λ e. h)
        (λ e.
          if_ind (λ (r : Result ℕ × TaskManager). Edited r.1) m.closed (λ c. h)
            (λ c.
              launch_named-Edited session prompt description notify (other_holder session m) m h))

  pub send_message-Edited :
      (name message : Text) (m : TaskManager) → Edited m → Edited (send_message name message m).1
  unfolding send_message
  send_message-Edited name message m h =
      option_ind (λ (r : Result ℕ × TaskManager). Edited r.1) (lookup_name name m.names) (λ e. h)
        (λ id e.
          option_ind (λ (r : Result ℕ × TaskManager). Edited r.1) (lookup_session id m.sessions)
            (λ n. h) (λ session f. launch-Edited session message _ true _ h))

  pub stop-Edited : (j : ℕ) (m : TaskManager) → Edited m → Edited (stop j m).1
  unfolding stop
  stop-Edited j m h =
      option_ind (λ (r : Result Bool × TaskManager). Edited r.1) (get_elem? m.tasks j) (λ e. h)
        (λ old found.
          if_ind (λ (r : Result Bool × TaskManager). Edited r.1) (is_active old.status)
            (λ active. rewritten j old _ found (while_active old _ refl active) h) (λ over. h))

  pub wait_round-Edited :
      (i : ℕ) (caller_cancelled : Bool) (m : TaskManager)
      → Edited m
      → Edited (wait_round i caller_cancelled m).1
  unfolding wait_round
  wait_round-Edited i caller_cancelled m h =
      option_ind (λ (r : Result (Option TaskRun) × TaskManager). Edited r.1) (get_elem? m.tasks i)
        (λ e. h)
        (λ task found.
          if_ind (λ (r : Result (Option TaskRun) × TaskManager). Edited r.1) (is_active task.status)
            (λ active. if_ind Edited caller_cancelled (λ c. stop-Edited i m h) (λ c. h))
            (λ ended. h))

  pub stop_by_name-Edited :
      (name : Text) (m : TaskManager) → Edited m → Edited (stop_by_name name m).1
  unfolding stop_by_name
  stop_by_name-Edited name m h =
      option_ind (λ (r : Result Bool × TaskManager). Edited r.1) (latest_from 0 name m.tasks)
        (λ e. h) (λ j e. stop-Edited j m h)

  mark_waiting-Edited :
      (waiting : Bool) (j : ℕ) (m : TaskManager) → Edited m → Edited (mark_waiting waiting j m)
  unfolding mark_waiting
  mark_waiting-Edited waiting j m h =
      option_ind Edited (get_elem? m.tasks j) (λ e. h)
        (λ old found.
          rewritten j old (record old { status = waiting_status waiting old.status }) found
            (record {
              session = refl;
              kept = λ over. record {
                status = waiting_ended waiting old.status over;
                result = refl;
                error = refl;
                end_time = refl;
                usage = refl;
              };
            })
            h)

  pub mark_waiting_approval-Edited :
      (name : Text) (waiting : Bool) (m : TaskManager)
      → Edited m
      → Edited (mark_waiting_approval name waiting m).1
  unfolding mark_waiting_approval
  mark_waiting_approval-Edited name waiting m h =
      option_ind (λ (r : Bool × TaskManager). Edited r.1) (latest_from 0 name m.tasks) (λ e. h)
        (λ j e. mark_waiting-Edited waiting j m h)

  pub mark_background-Edited : (j : ℕ) (m : TaskManager) → Edited m → Edited (mark_background j m).1
  unfolding mark_background
  mark_background-Edited j m h =
      option_ind (λ (r : Result (Unit {0}) × TaskManager). Edited r.1) (get_elem? m.tasks j)
        (λ e. h)
        (λ old found.
          if_ind (λ (r : Result (Unit {0}) × TaskManager). Edited r.1) old.notify_on_done (λ e. h)
            (λ e.
              rewritten j old (record old { notify_on_done = true }) found
                (record {
                  session = refl;
                  kept = λ over. record {
                    status = refl;
                    result = refl;
                    error = refl;
                    end_time = refl;
                    usage = refl;
                  };
                })
                h))

  begin_task-Edited :
      (st : TaskStatus) (now j : ℕ) (old : TaskRun) (m : TaskManager)
      → old.status ≡ st
      → get_elem? m.tasks j ≡ some old
      → Edited m
      → Edited (begin_task st now j old m).1
  unfolding begin_task finish is_active
  begin_task-Edited queued now j old m e found h =
      rewritten j old _ found (while_active old _ refl (rw e refl)) h
  begin_task-Edited running now j old m e found h =
      rewritten j old _ found (while_active old _ refl (rw e refl)) h
  begin_task-Edited waiting_approval now j old m e found h =
      rewritten j old _ found (while_active old _ refl (rw e refl)) h
  begin_task-Edited cancelling now j old m e found h =
      rewritten j old _ found (while_active old _ refl (rw e refl)) h
  begin_task-Edited completed now j old m e found h = h
  begin_task-Edited failed now j old m e found h = h
  begin_task-Edited cancelled now j old m e found h = h

  pub begin_run-Edited : (now j : ℕ) (m : TaskManager) → Edited m → Edited (begin_run now j m).1
  unfolding begin_run
  begin_run-Edited now j m h =
      option_ind (λ (r : Bool × TaskManager). Edited r.1) (get_elem? m.tasks j) (λ e. h)
        (λ old found. begin_task-Edited old.status now j old m refl found h)
