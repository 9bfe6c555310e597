-- ===== src/Subagents/Tasks/Closing.antt =====
-- The two halves of `close`, and the readers of the queues.
use fakuicode.Prelude.{
  ℕ, suc, ◌+◌, ◌≡◌, refl, sym, ap, subst, ◌∙◌, Bool, true, false, List, [], ◌∷◌, ◌++◌, get_elem?,
  set, count, count-append, count-nil, arith, fun_ext, if_ind, if◌then◌else◌, get_elem?-set_ne,
}
use fakuicode.Subagents.Tasks.{
  closing_task, is_queued, close_tasks, begin_close, close_sessions, end_close,
}
use fakuicode.Subagents.TaskCalls.{put_if, drain_done, drain_notifications}
use fakuicode.Subagents.TaskState.{
  TaskStatus, queued, running, waiting_approval, completed, failed, cancelling, cancelled, TaskRun,
  TaskManager, Session, busy,
}
use fakuicode.Subagents.Tasks.Links.{Linked, AllLinked, AllLinked-set, SameOff}
use fakuicode.Subagents.Tasks.Lifecycle.{Sound, SameOff-snoc, count-snoc}
use fakuicode.Subagents.Tasks.Ends.{close_session_once-Sound}

Linked-closing :
    (st : TaskStatus) (now : ℕ) (task : TaskRun) (q x a : ℕ)
    → task.status ≡ st
    → Linked st q x a
    → Linked (closing_task st now task).status q x (if is_queued st then suc a else a)
unfolding closing_task
Linked-closing queued now task q x a e h = omega arith
Linked-closing running now task q x a e h = omega arith
Linked-closing waiting_approval now task q x a e h = omega arith
Linked-closing cancelling now task q x a e h = omega arith
Linked-closing completed now task q x a e h = subst (λ st. Linked st q x a) (sym e) h
Linked-closing failed now task q x a e h = subst (λ st. Linked st q x a) (sym e) h
Linked-closing cancelled now task q x a e h = subst (λ st. Linked st q x a) (sym e) h

SameOff-put_if :
    (b : Bool) (i : ℕ) (f : ℕ → ℕ) (xs : List ℕ)
    → SameOff i (λ j. f j + count j xs) (λ j. f j + count j (put_if b i xs))
SameOff-put_if true i f xs = SameOff-snoc i f xs
SameOff-put_if false i f xs = λ j h. refl

count-put_if :
    (b : Bool) (i n : ℕ) (xs : List ℕ)
    → (if b then suc (n + count i xs) else n + count i xs) ≡ n + count i (put_if b i xs)
count-put_if true i n xs = omega (arith, count-snoc i xs)
count-put_if false i n xs = refl

-- `rest` is what the loop has not seen, and it stands at the end of the list of tasks.
abbrev pub Ahead : ℕ → List TaskRun → List TaskRun → Type 0
Ahead i rest tasks = (j k : ℕ) → j ≡ i + k → get_elem? tasks j ≡ get_elem? rest k

pub Ahead-set :
    (i : ℕ) (task task' : TaskRun) (rest tasks : List TaskRun)
    → Ahead i (task ∷ rest) tasks
    → Ahead (suc i) rest (set tasks i task')
Ahead-set i task task' rest tasks h j k e =
    get_elem?-set_ne tasks i j task' (λ s. absurd (omega arith)) ∙ h j (suc k) (omega arith)

module _ (x d : ℕ → ℕ) where
  close_tasks-Sound :
      (now i : ℕ) (rest : List TaskRun) (m : TaskManager)
      → Ahead i rest m.tasks
      → Sound x d m
      → Sound x d (close_tasks now i rest m)
  unfolding close_tasks
  close_tasks-Sound now i [] m ahead h = h
  close_tasks-Sound now i (task ∷ rest) m ahead h =
      close_tasks-Sound now (suc i) rest _ (Ahead-set i task _ rest m.tasks ahead) (
        AllLinked-set i task (closing_task task.status now task) h (ahead i 0 (omega arith))
          (λ j n. refl) (λ j n. refl) (SameOff-put_if (is_queued task.status) i d m.done)
          (subst (Linked _ (count i m.work) (x i))
            (count-put_if (is_queued task.status) i (d i) m.done)
            (Linked-closing task.status now task _ _ _ refl
              (h.each i task (ahead i 0 (omega arith))))))

  pub begin_close-Sound : (now : ℕ) (m : TaskManager) → Sound x d m → Sound x d (begin_close now m)
  unfolding begin_close
  begin_close-Sound now m h =
      if_ind (Sound x d) m.closed (λ c. h)
        (λ c.
          close_tasks-Sound now 0 m.tasks (record m { closed = true })
            (λ j k e. ap (get_elem? m.tasks) (e ∙ omega arith)) h)

  close_sessions-Sound :
      (sessions : List Session) (m : TaskManager)
      → Sound x d m
      → Sound x d (close_sessions sessions m)
  unfolding close_sessions
  close_sessions-Sound [] m h = h
  close_sessions-Sound (session ∷ rest) m h = close_sessions-Sound rest _ (
      if_ind (Sound x d) (busy session.id m.tasks) (λ b. h)
        (λ b. close_session_once-Sound x d session.id _ m h))

  pub end_close-Sound : (m : TaskManager) → Sound x d m → Sound x d (end_close m).1
  unfolding end_close
  end_close-Sound m h = close_sessions-Sound m.sessions _ h

  pub drain_notifications-Sound :
      (m : TaskManager) → Sound x d m → Sound x d (drain_notifications m).1
  unfolding drain_notifications
  drain_notifications-Sound m h = h

pub drain_done-Sound :
    (x : ℕ → ℕ) (delivered : List ℕ) (m : TaskManager)
    → Sound x (λ i. count i delivered) m
    → Sound x (λ i. count i (delivered ++ (drain_done m).0)) (drain_done m).1
unfolding drain_done
drain_done-Sound x delivered m h =
    subst (AllLinked m.tasks (λ i. count i m.work) x)
      (fun_ext (λ i. omega (arith, count-append i delivered m.done, count-nil i))) h
