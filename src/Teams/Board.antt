-- ===== src/Teams/Board.antt =====
-- The task board of one team: the operations of `TeamStore` of teams/storage.py on tasks. A transaction
-- is a function from the board to the board or an error.
pub mod Order
pub mod Fuel
pub mod Changes
pub mod Claims
mod Samples
use fakuicode.Prelude.{
  ℕ, zero, suc, ◌+◌, Bool, true, false, not, ◌&&◌, ◌||◌, Option, none, some, List, [], ◌∷◌, ◌++◌,
  Text, any, find, length, leb, ltb, ◌==◌, if◌then◌else◌,
}
use fakuicode.Teams.TaskGraph.{
  Board, Checked, TaskStatus, TeamTask, blocked, claimed, completed, deleted, done, get_task,
  has_dependents, id_changed, id_exists, ids, is_in, no_member, no_task, not_claimable, not_pending,
  pending, refused, revised, stale_revision, write_task,
}

unfoldable pub create_task : TeamTask → Board → Checked Board
create_task task board = elim (get_task task.task_id board.tasks) [
  | some old ↦ refused id_exists
  | none ↦ write_task task board
]

-- `_save_task`
unfoldable pub save_task : TeamTask → Board → Checked Board
save_task task board = elim (get_task task.task_id board.tasks) [
  | none ↦ refused no_task
  | some current ↦
      if leb task.revision current.revision then refused stale_revision else write_task task board
]

abbrev pub is_pending : TaskStatus → Bool
is_pending pending = true
is_pending _ = false

abbrev pub is_completed : TaskStatus → Bool
is_completed completed = true
is_completed _ = false

abbrev pub is_deleted : TaskStatus → Bool
is_deleted deleted = true
is_deleted _ = false

-- `tuple(dict.fromkeys(…))`: the first of equal ids stays.
without : ℕ → List ℕ → List ℕ
without id [] = []
without id (other ∷ rest) = if other == id then without id rest else other ∷ without id rest

pub unique : List ℕ → List ℕ
unfolding without
unique [] = []
unique (id ∷ rest) = id ∷ without id (unique rest)

abbrev or_same {ℓ} : {A : Type ℓ} → Option A → A → A
or_same none old = old
or_same (some new) old = new

abbrev or_dependencies : Option (List ℕ) → List ℕ → List ℕ
or_dependencies none old = old
or_dependencies (some blocked_by) old = unique blocked_by

unfoldable pub update_pending_task :
    ℕ → ℕ → Option Text → Option Text → Option (List ℕ) → Board → Checked Board
unfolding unique
update_pending_task now id title description blocked_by board = elim (get_task id board.tasks) [
  | none ↦ refused no_task
  | some current ↦
      if not (is_pending current.status)
      then refused not_pending
      else save_task
          (revised now current (record current {
            title = or_same title current.title;
            description = or_same description current.description;
            blocked_by = or_dependencies blocked_by current.blocked_by;
          }))
          board
]

unfoldable pub update_task_dependencies : ℕ → ℕ → List ℕ → Board → Checked Board
unfolding unique
update_task_dependencies now id blocked_by board = elim (get_task id board.tasks) [
  | none ↦ refused no_task
  | some current ↦
      save_task (revised now current (record current { blocked_by = unique blocked_by })) board
]

abbrev pub depends_on : ℕ → TeamTask → Bool
depends_on id task = is_in id task.blocked_by && not (is_deleted task.status)

unfoldable pub delete_pending_task : ℕ → ℕ → Board → Checked Board
unfolding any
delete_pending_task now id board = elim (get_task id board.tasks) [
  | none ↦ refused no_task
  | some current ↦
      if not (is_pending current.status)
      then refused not_pending
      else if any (depends_on id) board.tasks
      then refused has_dependents
      else save_task (revised now current (record current { status = deleted })) board
]

-- `tasks[dependency].status is not COMPLETED`; the key is there on a validated board, and a missing
-- one is a `KeyError`.
pub is_open : List TeamTask → ℕ → Bool
is_open tasks id = elim (get_task id tasks) [
  | none ↦ true
  | some task ↦ not (is_completed task.status)
]

abbrev pub is_free : TeamTask → Bool
is_free task = is_pending task.status && elim task.assignee_id [ none ↦ true | some member ↦ false ]

unfoldable pub claim_task : ℕ → ℕ → ℕ → Board → Checked Board
unfolding any is_open
claim_task now id member board =
    if not (is_in member board.members) then refused no_member else elim (get_task id board.tasks) [
      | none ↦ refused no_task
      | some task ↦
          if not (is_free task)
          then refused not_claimable
          else if any (is_open board.tasks) task.blocked_by
          then refused blocked
          else save_task
              (revised now task (record task { status = claimed; assignee_id = some member })) board
    ]

-- `same` is the equality of the dataclass.
unfoldable pub update_task :
    (TeamTask → TeamTask → Bool) → ℕ → (TeamTask → TeamTask) → Board → Checked Board
update_task same id updater board = elim (get_task id board.tasks) [
  | none ↦ refused no_task
  | some current ↦
      if not ((updater current).task_id == current.task_id)
      then refused id_changed
      else if same (updater current) current
      then done board
      else save_task (updater current) board
]
