-- ===== src/Teams/TaskGraph.antt =====
-- `TeamTask` of teams/models.py, and of teams/storage.py how a task is validated against the others,
-- with the search for cycles, and written. The tables of one team stand as a list of tasks and a list
-- of members, numbers for ids and times.
use fakuicode.Prelude.{
  ℕ, zero, suc, Bool, true, false, not, ◌&&◌, ◌||◌, Option, none, some, List, [], ◌∷◌, Text, any,
  find, length, ◌==◌, if◌then◌else◌,
}

pub data TaskStatus : Type 0 where
  pending claimed planning working integrating integration_failed : TaskStatus
  completed failed cancelled deleted : TaskStatus

pub data TaskKind : Type 0 where
  read_only task_worktree : TaskKind

pub record TeamTask : Type 0 where
  pub task_id : ℕ
  pub title : Text
  pub description : Text
  pub created_by : ℕ
  pub blocked_by : List ℕ
  pub kind : TaskKind
  pub status : TaskStatus
  pub assignee_id : Option ℕ
  pub revision : ℕ
  pub created_at : ℕ
  pub updated_at : ℕ
  pub result_summary : Text
  pub base_sha : Option Text
  pub completion_sha : Option Text
  pub plan_request_id : Option ℕ
  pub plan_revision : ℕ
  pub plan_approved : Bool
  pub worktree_branch : Option Text
  pub workspace : Option Text
  pub verification_summary : Text
  pub integration_sha : Option Text

-- `replace(self, **changes, revision=…, updated_at=…)`
abbrev pub revised : ℕ → TeamTask → TeamTask → TeamTask
revised now current changed = record changed { revision = suc current.revision; updated_at = now }

pub record Board : Type 0 where
  pub tasks : List TeamTask
  pub members : List ℕ

-- The errors by their messages. `out_of_fuel` is none of the program's.
pub data BoardError : Type 0 where
  no_task id_exists bad_dependency no_member cycle missing_dependency : BoardError
  duplicate_dependency stale_revision not_pending has_dependents : BoardError
  not_claimable blocked id_changed out_of_fuel : BoardError

pub data Checked {ℓ} (A : Type ℓ) : Type ℓ where
  done : A → Checked A
  refused : BoardError → Checked A

infixl 10 ◌>>=◌
abbrev pub ◌>>=◌ {ℓ κ} : {A : Type ℓ} {B : Type κ} → Checked A → (A → Checked B) → Checked B
refused reason >>= next = refused reason
done value >>= next = next value

abbrev pub is_in : ℕ → List ℕ → Bool
is_in n ids = any (λ m. m == n) ids

unfoldable pub get_task : ℕ → List TeamTask → Option TeamTask
unfolding find
get_task id tasks = find (λ (task : TeamTask). task.task_id == id) tasks

-- `candidates[task.task_id] = task`
unfoldable pub put_task : TeamTask → List TeamTask → List TeamTask
put_task task [] = task ∷ []
put_task task (old ∷ tasks) =
    if old.task_id == task.task_id then task ∷ tasks else old ∷ put_task task tasks

abbrev pub ids : List TeamTask → List ℕ
ids [] = []
ids (task ∷ tasks) = task.task_id ∷ ids tasks

-- `visit` on each of a list of ids, inside the visits of `visiting`. `visited` lists the ids whose
-- visit has ended, the last one first.
unfoldable pub visit : List TeamTask → ℕ → List ℕ → List ℕ → List ℕ → Checked (List ℕ)
unfolding get_task any
visit tasks fuel visiting [] visited = done visited
visit tasks zero visiting (id ∷ rest) visited = refused out_of_fuel
visit tasks (suc fuel) visiting (id ∷ rest) visited = elim (get_task id tasks) [
  | none ↦ refused missing_dependency
  | some task ↦ elim (is_in id visiting) [
    | true ↦ refused cycle
    | false ↦ elim (is_in id visited) [
      | true ↦ visit tasks (suc fuel) visiting rest visited
      | false ↦ visit tasks fuel (id ∷ visiting) task.blocked_by visited >>= λ below.
          visit tasks (suc fuel) visiting rest (id ∷ below)
    ]
  ]
]

-- `_assert_acyclic`, with the ids in the order in which their visits ended.
unfoldable pub assert_acyclic : List TeamTask → Checked (List ℕ)
unfolding visit
assert_acyclic tasks = visit tasks (suc (length (ids tasks))) [] (ids tasks) []

pub all_in : List ℕ → List ℕ → Bool
unfolding any
all_in [] known = true
all_in (id ∷ rest) known = is_in id known && all_in rest known

abbrev pub has_member : Option ℕ → List ℕ → Bool
has_member none members = true
has_member (some member) members = is_in member members

-- `_validate_task_candidate`
unfoldable pub validate_task_candidate : TeamTask → Board → Checked (List ℕ)
unfolding all_in any put_task
validate_task_candidate task board =
    if is_in task.task_id task.blocked_by
      || not (all_in task.blocked_by (task.task_id ∷ ids board.tasks))
    then refused bad_dependency
    else if not (has_member task.assignee_id board.members)
    then refused no_member
    else assert_acyclic (put_task task board.tasks)

-- The primary key of `task_dependencies`.
pub has_duplicates : List ℕ → Bool
unfolding any
has_duplicates [] = false
has_duplicates (id ∷ rest) = is_in id rest || has_duplicates rest

-- A validated task is written with its dependencies.
unfoldable pub write_task : TeamTask → Board → Checked Board
unfolding has_duplicates put_task
write_task task board = do
  order ← validate_task_candidate task board
  if has_duplicates task.blocked_by
      then refused duplicate_dependency
      else done (record board { tasks = put_task task board.tasks })
