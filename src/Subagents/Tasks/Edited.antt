-- ===== src/Subagents/Tasks/Edited.antt =====
-- The steps of the threads as edits of the list of tasks.
use fakuicode.Prelude.{
  ℕ, suc, ◌≡◌, refl, sym, ap, subst, ◌∙◌, true, false, some, List, [], ◌∷◌, ◌++◌, get_elem?, count,
  count-append, count_self, arith, any, ◌≤◌, ◌==◌, if_ind, option_ind,
}
use fakuicode.Subagents.Tasks.{
  finish, close_session_once, ended_task, end_run, closing_task, close_tasks, begin_close,
  close_sessions, end_close,
}
use fakuicode.Subagents.TaskCalls.{drain_done, drain_notifications}
use fakuicode.Subagents.TaskState.{
  TaskStatus, queued, running, waiting_approval, completed, failed, cancelling, cancelled,
  is_active, TaskRun, TaskManager, Session, CloseStatus, ChildRunResult, busy,
}
use fakuicode.Subagents.Tasks.Steps.{
  System, Step, Reach, launched, messaged, stopped, stopped_by_name, waited, marked_waiting,
  marked_background, worker_takes, child_returns, drained_done, drained_notifications, close_begins,
  close_ends,
}
use fakuicode.Subagents.Tasks.Announced.{Reach-IsAccounted}
use fakuicode.Subagents.Tasks.Links.{Linked}
use fakuicode.Subagents.Tasks.Closing.{Ahead, Ahead-set}
use fakuicode.Subagents.Tasks.Edits.{
  SameEnd, same_end, while_active, Edits, unchanged, rewritten, launch-Edited, send_message-Edited,
  stop-Edited, stop_by_name-Edited, wait_round-Edited, mark_waiting_approval-Edited,
  mark_background-Edited, begin_run-Edited,
}

closing_task-ended :
    (st : TaskStatus) (now : ℕ) (task : TaskRun)
    → task.status ≡ st
    → is_active st ≡ false
    → closing_task st now task ≡ task
unfolding closing_task is_active
closing_task-ended completed now task e ended = refl
closing_task-ended failed now task e ended = refl
closing_task-ended cancelled now task e ended = refl
closing_task-ended queued now task e ended = cc
closing_task-ended running now task e ended = cc
closing_task-ended waiting_approval now task e ended = cc
closing_task-ended cancelling now task e ended = cc

executing_active : (st : TaskStatus) (q x a : ℕ) → Linked st q x a → 1 ≤ x → is_active st ≡ true
unfolding is_active
executing_active queued q x a h k = refl
executing_active running q x a h k = refl
executing_active waiting_approval q x a h k = refl
executing_active cancelling q x a h k = refl
executing_active completed q x a h k = absurd (omega arith)
executing_active failed q x a h k = absurd (omega arith)
executing_active cancelled q x a h k = absurd (omega arith)

session-closing_task :
    (st : TaskStatus) (now : ℕ) (task : TaskRun) → (closing_task st now task).session ≡ task.session
unfolding closing_task
session-closing_task completed now task = refl
session-closing_task failed now task = refl
session-closing_task cancelled now task = refl
session-closing_task queued now task = refl
session-closing_task running now task = refl
session-closing_task waiting_approval now task = refl
session-closing_task cancelling now task = refl

module _ (tasks : List TaskRun) where
  abbrev Edited : TaskManager → Type 0
  Edited m = Edits tasks m.tasks

  close_session_once-Edited :
      (id : ℕ) (status : CloseStatus) (m : TaskManager)
      → Edited m
      → Edited (close_session_once id status m)
  unfolding close_session_once
  close_session_once-Edited id status m h =
      if_ind Edited (any (λ j. j == id) m.closed_sessions) (λ e. h) (λ e. h)

  finish-Edited :
      (j now : ℕ) (outcome : ChildRunResult) (old : TaskRun) (m : TaskManager)
      → get_elem? m.tasks j ≡ some old
      → is_active old.status ≡ true
      → Edited m
      → Edited (finish j (ended_task now outcome old) m)
  unfolding finish
  finish-Edited j now outcome old m found active h =
      rewritten j old _ found (while_active old _ refl active) h

  end_run-Edited :
      (now j : ℕ) (outcome : ChildRunResult) (m : TaskManager)
      → ((old : TaskRun) → get_elem? m.tasks j ≡ some old → is_active old.status ≡ true)
      → Edited m
      → Edited (end_run now j outcome m)
  unfolding end_run
  end_run-Edited now j outcome m runs h =
      option_ind Edited (get_elem? m.tasks j) (λ e. h)
        (λ old found.
          let finished = finish-Edited j now outcome old m found (runs old found) h in
          if_ind Edited m.closed (λ c. close_session_once-Edited old.session.id _ _ finished)
            (λ c. finished))

  close_tasks-Edited :
      (now j : ℕ) (rest : List TaskRun) (m : TaskManager)
      → Ahead j rest m.tasks
      → Edited m
      → Edited (close_tasks now j rest m)
  unfolding close_tasks
  close_tasks-Edited now j [] m ahead h = h
  close_tasks-Edited now j (old ∷ rest) m ahead h =
      close_tasks-Edited now (suc j) rest _ (Ahead-set j old _ rest m.tasks ahead) (
        rewritten j old (closing_task old.status now old) (ahead j 0 (omega arith))
          (record {
            session = session-closing_task old.status now old;
            kept = λ over.
                subst (SameEnd old) (sym (closing_task-ended old.status now old refl over))
                  (same_end old);
          })
          h)

  begin_close-Edited : (now : ℕ) (m : TaskManager) → Edited m → Edited (begin_close now m)
  unfolding begin_close
  begin_close-Edited now m h =
      if_ind Edited m.closed (λ c. h)
        (λ c.
          close_tasks-Edited now 0 m.tasks (record m { closed = true })
            (λ j k e. ap (get_elem? m.tasks) (e ∙ omega arith)) h)

  close_sessions-Edited :
      (sessions : List Session) (m : TaskManager) → Edited m → Edited (close_sessions sessions m)
  unfolding close_sessions
  close_sessions-Edited [] m h = h
  close_sessions-Edited (session ∷ rest) m h = close_sessions-Edited rest _ (
      if_ind Edited (busy session.id m.tasks) (λ b. h)
        (λ b. close_session_once-Edited session.id _ m h))

  end_close-Edited : (m : TaskManager) → Edited m → Edited (end_close m).1
  unfolding end_close
  end_close-Edited m h = close_sessions-Edited m.sessions _ h

  drained-Edited :
      (m : TaskManager) → Edited m → Edited (drain_done m).1 × Edited (drain_notifications m).1
  unfolding drain_done drain_notifications
  drained-Edited m h = (h, h)

executing_is_active :
    {s : System} (j : ℕ) (before after : List ℕ)
    → Reach s
    → s.executing ≡ before ++ j ∷ after
    → (old : TaskRun) → get_elem? s.manager.tasks j ≡ some old
    → is_active old.status ≡ true
executing_is_active {s} j before after r e old found =
    executing_active old.status _ _ _ ((Reach-IsAccounted r).each j old found) (
      subst (λ ex. 1 ≤ count j ex) (sym e)
        (omega (arith, count-append j before (j ∷ after), count_self j after)))

pub Step-Edits : {s s' : System} → Reach s → Step s s' → Edits s.manager.tasks s'.manager.tasks
Step-Edits {s} r (launched session prompt description notify) =
    launch-Edited s.manager.tasks session prompt description notify s.manager unchanged
Step-Edits {s} r (messaged name message) =
    send_message-Edited s.manager.tasks name message s.manager unchanged
Step-Edits {s} r (stopped j) = stop-Edited s.manager.tasks j s.manager unchanged
Step-Edits {s} r (waited i caller_cancelled) =
    wait_round-Edited s.manager.tasks i caller_cancelled s.manager unchanged
Step-Edits {s} r (stopped_by_name name) =
    stop_by_name-Edited s.manager.tasks name s.manager unchanged
Step-Edits {s} r (marked_waiting name waiting) =
    mark_waiting_approval-Edited s.manager.tasks name waiting s.manager unchanged
Step-Edits {s} r (marked_background j) =
    mark_background-Edited s.manager.tasks j s.manager unchanged
Step-Edits {s} r (worker_takes now j rest e) =
    begin_run-Edited s.manager.tasks now j (record s.manager { work = rest }) unchanged
Step-Edits {s} r (child_returns now j outcome before after e) =
    end_run-Edited s.manager.tasks now j outcome s.manager (executing_is_active j before after r e)
      unchanged
Step-Edits {s} r drained_done = (drained-Edited s.manager.tasks s.manager unchanged).0
Step-Edits {s} r drained_notifications = (drained-Edited s.manager.tasks s.manager unchanged).1
Step-Edits {s} r (close_begins now) = begin_close-Edited s.manager.tasks now s.manager unchanged
Step-Edits {s} r close_ends = end_close-Edited s.manager.tasks s.manager unchanged
