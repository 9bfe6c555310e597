-- ===== src/Teams/Board/Changes.antt =====
-- The transactions on a board, and the boards that they reach.
use fakuicode.Prelude.{
  ℕ, ◌≡◌, refl, subst, Bool, not, ◌||◌, Option, List, [], ◌∷◌, Text, In, any, leb, ◌==◌, if_ind,
  option_ind,
}
use fakuicode.Teams.Board.{
  create_task, save_task, is_pending, update_pending_task, update_task_dependencies, depends_on,
  delete_pending_task, is_open, is_free, claim_task, update_task,
}
use fakuicode.Teams.TaskGraph.{
  TeamTask, Board, Checked, done, refused, is_in, get_task, put_task, ids, assert_acyclic, all_in,
  has_member, validate_task_candidate, has_duplicates, write_task,
}
use fakuicode.Teams.Board.Order.{OnDone, OnDone-bind, IsOrder, assert_acyclic-IsOrder}

-- There is an order of all the tasks in which each stands behind what blocks it.
pub record IsOrdered (tasks : List TeamTask) : Type 0 where
  pub order : List ℕ
  pub is_order : IsOrder tasks order
  pub complete : (id : ℕ) → In id (ids tasks) → In id order

abbrev pub OrderedBoard : Board → Type 0
OrderedBoard board = IsOrdered board.tasks

checked-IsOrdered :
    (tasks : List TeamTask) (r : Checked (List ℕ))
    → assert_acyclic tasks ≡ r
    → OnDone (λ order. IsOrdered tasks) r
checked-IsOrdered tasks (done order) e =
    let (is_order, complete) = assert_acyclic-IsOrder tasks order e in
    record { order = order; is_order = is_order; complete = complete }
checked-IsOrdered tasks (refused reason) e = tt

validate-IsOrdered :
    (task : TeamTask) (board : Board)
    → OnDone (λ order. IsOrdered (put_task task board.tasks)) (validate_task_candidate task board)
unfolding validate_task_candidate
validate-IsOrdered task board =
    if_ind (OnDone (λ order. IsOrdered (put_task task board.tasks)))
      (is_in task.task_id task.blocked_by
        || not (all_in task.blocked_by (task.task_id ∷ ids board.tasks)))
      (λ e. tt)
      (λ e.
        if_ind (OnDone (λ order. IsOrdered (put_task task board.tasks)))
          (not (has_member task.assignee_id board.members)) (λ f. tt)
          (λ f. checked-IsOrdered (put_task task board.tasks) _ refl))

write_task-OrderedBoard :
    (task : TeamTask) (board : Board) → OnDone OrderedBoard (write_task task board)
unfolding write_task
write_task-OrderedBoard task board =
    OnDone-bind (λ order. IsOrdered (put_task task board.tasks)) OrderedBoard _ _
      (validate-IsOrdered task board)
      (λ order h. if_ind (OnDone OrderedBoard) (has_duplicates task.blocked_by) (λ e. tt) (λ e. h))

create_task-OrderedBoard :
    (task : TeamTask) (board : Board) → OnDone OrderedBoard (create_task task board)
unfolding create_task
create_task-OrderedBoard task board =
    option_ind (OnDone OrderedBoard) (get_task task.task_id board.tasks)
      (λ e. write_task-OrderedBoard task board) (λ old e. tt)

save_task-OrderedBoard :
    (task : TeamTask) (board : Board) → OnDone OrderedBoard (save_task task board)
unfolding save_task
save_task-OrderedBoard task board =
    option_ind (OnDone OrderedBoard) (get_task task.task_id board.tasks) (λ e. tt)
      (λ current e.
        if_ind (OnDone OrderedBoard) (leb task.revision current.revision) (λ f. tt)
          (λ f. write_task-OrderedBoard task board))

update_pending_task-OrderedBoard :
    (now id : ℕ) (title description : Option Text) (blocked_by : Option (List ℕ)) (board : Board)
    → OnDone OrderedBoard (update_pending_task now id title description blocked_by board)
unfolding update_pending_task
update_pending_task-OrderedBoard now id title description blocked_by board =
    option_ind (OnDone OrderedBoard) (get_task id board.tasks) (λ e. tt)
      (λ current e.
        if_ind (OnDone OrderedBoard) (not (is_pending current.status)) (λ f. tt)
          (λ f. save_task-OrderedBoard _ board))

update_task_dependencies-OrderedBoard :
    (now id : ℕ) (blocked_by : List ℕ) (board : Board)
    → OnDone OrderedBoard (update_task_dependencies now id blocked_by board)
unfolding update_task_dependencies
update_task_dependencies-OrderedBoard now id blocked_by board =
    option_ind (OnDone OrderedBoard) (get_task id board.tasks) (λ e. tt)
      (λ current e. save_task-OrderedBoard _ board)

delete_pending_task-OrderedBoard :
    (now id : ℕ) (board : Board) → OnDone OrderedBoard (delete_pending_task now id board)
unfolding delete_pending_task
delete_pending_task-OrderedBoard now id board =
    option_ind (OnDone OrderedBoard) (get_task id board.tasks) (λ e. tt)
      (λ current e.
        if_ind (OnDone OrderedBoard) (not (is_pending current.status)) (λ f. tt)
          (λ f.
            if_ind (OnDone OrderedBoard) (any (depends_on id) board.tasks) (λ g. tt)
              (λ g. save_task-OrderedBoard _ board)))

claim_task-OrderedBoard :
    (now id member : ℕ) (board : Board) → OnDone OrderedBoard (claim_task now id member board)
unfolding claim_task
claim_task-OrderedBoard now id member board =
    if_ind (OnDone OrderedBoard) (not (is_in member board.members)) (λ e. tt)
      (λ e.
        option_ind (OnDone OrderedBoard) (get_task id board.tasks) (λ f. tt)
          (λ task f.
            if_ind (OnDone OrderedBoard) (not (is_free task)) (λ g. tt)
              (λ g.
                if_ind (OnDone OrderedBoard) (any (is_open board.tasks) task.blocked_by) (λ k. tt)
                  (λ k. save_task-OrderedBoard _ board))))

update_task-OrderedBoard :
    (same : TeamTask → TeamTask → Bool) (id : ℕ) (updater : TeamTask → TeamTask) (board : Board)
    → OrderedBoard board
    → OnDone OrderedBoard (update_task same id updater board)
unfolding update_task
update_task-OrderedBoard same id updater board h =
    option_ind (OnDone OrderedBoard) (get_task id board.tasks) (λ e. tt)
      (λ current e.
        if_ind (OnDone OrderedBoard) (not ((updater current).task_id == current.task_id)) (λ f. tt)
          (λ f.
            if_ind (OnDone OrderedBoard) (same (updater current) current) (λ g. h)
              (λ g. save_task-OrderedBoard (updater current) board)))

-- A successful transaction on the board.
pub data Change (board : Board) : Checked Board → Type 0 where
  created : (task : TeamTask) → Change board (create_task task board)
  saved : (task : TeamTask) → Change board (save_task task board)
  updated_pending :
      (now id : ℕ) (title description : Option Text) (blocked_by : Option (List ℕ))
      → Change board (update_pending_task now id title description blocked_by board)
  updated_dependencies :
      (now id : ℕ) (blocked_by : List ℕ)
      → Change board (update_task_dependencies now id blocked_by board)
  deleted_pending : (now id : ℕ) → Change board (delete_pending_task now id board)
  claimed_by : (now id member : ℕ) → Change board (claim_task now id member board)
  updated :
      (same : TeamTask → TeamTask → Bool) (id : ℕ) (updater : TeamTask → TeamTask)
      → Change board (update_task same id updater board)

pub data Reach (members : List ℕ) : Board → Type 0 where
  empty : Reach members (record { tasks = []; members = members })
  next :
      {board board' : Board} {r : Checked Board}
      → Reach members board
      → Change board r
      → r ≡ done board'
      → Reach members board'

Change-OrderedBoard :
    {board : Board} {r : Checked Board}
    → Change board r
    → OrderedBoard board
    → OnDone OrderedBoard r
Change-OrderedBoard {board} (created task) h = create_task-OrderedBoard task board
Change-OrderedBoard {board} (saved task) h = save_task-OrderedBoard task board
Change-OrderedBoard {board} (updated_pending now id title description blocked_by) h =
    update_pending_task-OrderedBoard now id title description blocked_by board
Change-OrderedBoard {board} (updated_dependencies now id blocked_by) h =
    update_task_dependencies-OrderedBoard now id blocked_by board
Change-OrderedBoard {board} (deleted_pending now id) h =
    delete_pending_task-OrderedBoard now id board
Change-OrderedBoard {board} (claimed_by now id member) h =
    claim_task-OrderedBoard now id member board
Change-OrderedBoard {board} (updated same id updater) h =
    update_task-OrderedBoard same id updater board h

-- Every board that transactions reach from an empty one has an order of all its tasks in which each
-- stands behind what blocks it: the dependencies of a team never form a cycle, and none is missing.
pub Reach-OrderedBoard :
    {members : List ℕ} {board : Board} → Reach members board → OrderedBoard board
Reach-OrderedBoard empty = record { order = []; is_order = tt; complete = λ id m. m }
Reach-OrderedBoard (next r change e) =
    subst (OnDone OrderedBoard) e (Change-OrderedBoard change (Reach-OrderedBoard r))
