-- ===== src/Teams/Board/Claims.antt =====
-- When a task can be claimed.
use fakuicode.Prelude.{
  ℕ, ◌≡◌, refl, sym, ap, subst, ◌∙◌, true, false, not, none, some, List, [], ◌∷◌, In, any, find,
  find-In, not-any-In, leb, ◌==◌, ==_iff, if_ind, option_ind, arith,
}
use fakuicode.Teams.Board.{save_task, is_completed, is_open, is_free, claim_task}
use fakuicode.Teams.TaskGraph.{
  claimed, TeamTask, revised, Board, Checked, done, refused, is_in, get_task, put_task,
  validate_task_candidate, has_duplicates, write_task,
}
use fakuicode.Teams.Board.Order.{OnDone, OnDone-bind, OnDone-map}

get_task-put_task :
    (task : TeamTask) (tasks : List TeamTask)
    → get_task task.task_id (put_task task tasks) ≡ some task
unfolding get_task put_task find
get_task-put_task task [] = rw ((==_iff task.task_id task.task_id).1 refl) refl
get_task-put_task task (old ∷ tasks) =
    if_ind (λ l. find (λ (t : TeamTask). t.task_id == task.task_id) l ≡ some task)
      (old.task_id == task.task_id) (λ e. rw ((==_iff task.task_id task.task_id).1 refl) refl)
      (λ e. rw e (get_task-put_task task tasks))

write_task-writes :
    (task : TeamTask) (board : Board)
    → OnDone (λ (b : Board). b.tasks ≡ put_task task board.tasks) (write_task task board)
unfolding write_task
write_task-writes task board =
    OnDone-bind (λ order. Unit {0}) (λ (b : Board). b.tasks ≡ put_task task board.tasks) _ _
      (any_result (validate_task_candidate task board))
      (λ order h.
        if_ind (OnDone (λ (b : Board). b.tasks ≡ put_task task board.tasks))
          (has_duplicates task.blocked_by) (λ e. tt) (λ e. refl))
  where
    any_result : (r : Checked (List ℕ)) → OnDone (λ order. Unit {0}) r
    any_result (done order) = tt
    any_result (refused reason) = tt

save_task-writes :
    (task : TeamTask) (board : Board)
    → OnDone (λ (b : Board). get_task task.task_id b.tasks ≡ some task) (save_task task board)
unfolding save_task
save_task-writes task board =
    option_ind (OnDone (λ (b : Board). get_task task.task_id b.tasks ≡ some task))
      (get_task task.task_id board.tasks) (λ e. tt)
      (λ current e.
        if_ind (OnDone (λ (b : Board). get_task task.task_id b.tasks ≡ some task))
          (leb task.revision current.revision) (λ f. tt)
          (λ f.
            OnDone-map (λ (b : Board). b.tasks ≡ put_task task board.tasks) _ _
              (λ b same. ap (get_task task.task_id) same ∙ get_task-put_task task board.tasks)
              (write_task-writes task board)))

task_id-get_task :
    (id : ℕ) (tasks : List TeamTask) {task : TeamTask}
    → get_task id tasks ≡ some task
    → task.task_id ≡ id
unfolding get_task
task_id-get_task id tasks e = (==_iff _ _).0 (find-In (λ (t : TeamTask). t.task_id == id) tasks e).1

-- A claim: the task was free, all that blocks it is completed, and now it is the member's.
pub record IsClaim (now id member : ℕ) (before after : List TeamTask) : Type 0 where
  pub task : TeamTask
  pub found : get_task id before ≡ some task
  pub free : is_free task ≡ true
  pub ready :
      (other : ℕ)
      → In other task.blocked_by
      → (blocker : TeamTask) × (get_task other before ≡ some blocker)
        × (is_completed blocker.status ≡ true)
  pub written :
      get_task id after
      ≡ some (revised now task (record task { status = claimed; assignee_id = some member }))

closed_blocker :
    (tasks : List TeamTask) (other : ℕ)
    → is_open tasks other ≡ false
    → (blocker : TeamTask) × (get_task other tasks ≡ some blocker)
      × (is_completed blocker.status ≡ true)
unfolding is_open
closed_blocker tasks other =
    option_ind
      (λ b.
        b ≡ false
        → (blocker : TeamTask) × (get_task other tasks ≡ some blocker)
          × (is_completed blocker.status ≡ true))
      (get_task other tasks) (λ e b. cc) (λ task e b. (task, e, ground (arith, b)))

claim_task-OnDone :
    (now id member : ℕ) (board : Board)
    → OnDone
        (λ (b : Board). IsClaim now id member board.tasks b.tasks)
        (claim_task now id member board)
unfolding claim_task
claim_task-OnDone now id member board =
    if_ind (OnDone Claimed) (not (is_in member board.members)) (λ e. tt)
      (λ e.
        option_ind (OnDone Claimed) (get_task id board.tasks) (λ f. tt)
          (λ task found.
            if_ind (OnDone Claimed) (not (is_free task)) (λ g. tt)
              (λ free.
                if_ind (OnDone Claimed) (any (is_open board.tasks) task.blocked_by) (λ k. tt)
                  (λ ready.
                    OnDone-map
                      (λ (b : Board). get_task task.task_id b.tasks ≡ some (claimed_task task))
                      Claimed _
                      (λ b written. record {
                        task = task;
                        found = found;
                        free = ground (arith, free);
                        ready = λ other m.
                            closed_blocker board.tasks other
                              (not-any-In (is_open board.tasks) ready m);
                        written =
                            subst (λ n. get_task n b.tasks ≡ some (claimed_task task))
                              (task_id-get_task id board.tasks found) written;
                      })
                      (save_task-writes (claimed_task task) board)))))
  where
    Claimed : Board → Type 0
    Claimed b = IsClaim now id member board.tasks b.tasks

    claimed_task : TeamTask → TeamTask
    claimed_task task =
        revised now task (record task { status = claimed; assignee_id = some member })

-- A successful claim is of a task that was pending and assigned to nobody, and everything that
-- blocks it was completed; it leaves the task claimed by the member.
pub claim_task-IsClaim :
    (now id member : ℕ) (board board' : Board)
    → claim_task now id member board ≡ done board'
    → IsClaim now id member board.tasks board'.tasks
claim_task-IsClaim now id member board board' e =
    subst (OnDone (λ (b : Board). IsClaim now id member board.tasks b.tasks)) e
      (claim_task-OnDone now id member board)

-- After a successful claim nobody claims the same task again, unless a change comes in between.
pub claim_task_once :
    (now now' id member member' : ℕ) (board board' board'' : Board)
    → claim_task now id member board ≡ done board'
    → ¬ (claim_task now' id member' board' ≡ done board'')
claim_task_once now now' id member member' board board' board'' first second =
    let h = claim_task-IsClaim now id member board board' first in
    let k = claim_task-IsClaim now' id member' board' board'' second in
    let same =
      ap (λ o. elim o [ none ↦ true | some task ↦ is_free task ]) (sym h.written ∙ k.found) in
    cc (same, k.free)
