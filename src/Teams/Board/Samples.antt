-- ===== src/Teams/Board/Samples.antt =====
-- Two tasks of one team, the second one blocked by the first.
use fakuicode.Prelude.{ℕ, ◌≡◌, refl, false, none, some, List, [], ◌∷◌, codes, In}
use fakuicode.Teams.Board.{create_task, save_task, update_task_dependencies, claim_task}
use fakuicode.Teams.TaskGraph.{
  TaskStatus, pending, deleted, task_worktree, TeamTask, Board, done, refused, blocked, cycle,
  out_of_fuel, get_task, ids, assert_acyclic, validate_task_candidate, write_task,
}
use fakuicode.Teams.Board.Order.{IsOrder, assert_acyclic-IsOrder}
use fakuicode.Teams.Board.Fuel.{assert_acyclic-ne-out_of_fuel}
use fakuicode.Teams.Board.Changes.{
  OrderedBoard, created, claimed_by, Reach, empty, next, Reach-OrderedBoard,
}
use fakuicode.Teams.Board.Claims.{IsClaim, claim_task-IsClaim, claim_task_once}

abbrev task : ℕ → List ℕ → TeamTask
task id blocked_by = record {
  task_id = id;
  title = codes "write the parser";
  description = [];
  created_by = 1;
  blocked_by = blocked_by;
  kind = task_worktree;
  status = pending;
  assignee_id = none;
  revision = 1;
  created_at = 0;
  updated_at = 0;
  result_summary = [];
  base_sha = none;
  completion_sha = none;
  plan_request_id = none;
  plan_revision = 0;
  plan_approved = false;
  worktree_branch = none;
  workspace = none;
  verification_summary = [];
  integration_sha = none;
}

abbrev two_tasks : Board
two_tasks = record { tasks = task 1 [] ∷ task 2 (1 ∷ []) ∷ []; members = 1 ∷ 2 ∷ [] }

two_tasks_order : assert_acyclic two_tasks.tasks ≡ done (2 ∷ 1 ∷ [])
unfolding assert_acyclic
two_tasks_order = refl

no_cycle_is_made : update_task_dependencies 5 1 (2 ∷ []) two_tasks ≡ refused cycle
unfolding update_task_dependencies get_task save_task write_task validate_task_candidate
    assert_acyclic
no_cycle_is_made = refl

second_is_blocked : claim_task 5 2 1 two_tasks ≡ refused blocked
unfolding claim_task get_task
second_is_blocked = refl

-- A deleted task can be named as a blocker.
behind_deleted :
    create_task
      (task 3 (2 ∷ []))
      (record two_tasks { tasks = task 1 [] ∷ record (task 2 []) { status = deleted } ∷ [] })
    ≡ done (record two_tasks {
      tasks = task 1 [] ∷ record (task 2 []) { status = deleted } ∷ task 3 (2 ∷ []) ∷ [];
    })
unfolding create_task get_task write_task validate_task_candidate assert_acyclic
behind_deleted = refl

abbrev after_claim : Board
after_claim = record two_tasks {
  tasks =
      record (task 1 []) {
        status = TaskStatus.claimed;
        assignee_id = some 2;
        revision = 2;
        updated_at = 5;
      }
      ∷ task 2 (1 ∷ [])
      ∷ [];
}

first_claim : claim_task 5 1 2 two_tasks ≡ done after_claim
unfolding claim_task get_task save_task write_task validate_task_candidate assert_acyclic
first_claim = refl

abbrev one_task : Board
one_task = record two_tasks { tasks = task 1 [] ∷ [] }

first_created : create_task (task 1 []) (record two_tasks { tasks = [] }) ≡ done one_task
unfolding create_task get_task write_task validate_task_candidate assert_acyclic
first_created = refl

second_created : create_task (task 2 (1 ∷ [])) one_task ≡ done two_tasks
unfolding create_task get_task write_task validate_task_candidate assert_acyclic
second_created = refl

claim_reached : Reach (1 ∷ 2 ∷ []) after_claim
claim_reached =
    next
      (next (next empty (created (task 1 [])) first_created) (created (task 2 (1 ∷ [])))
        second_created)
      (claimed_by 5 1 2) first_claim

assert_acyclic-IsOrder_example :
    IsOrder two_tasks.tasks (2 ∷ 1 ∷ [])
    × ((id : ℕ) → In id (ids two_tasks.tasks) → In id (2 ∷ 1 ∷ []))
assert_acyclic-IsOrder_example = assert_acyclic-IsOrder two_tasks.tasks (2 ∷ 1 ∷ []) two_tasks_order

assert_acyclic-ne-out_of_fuel_example : ¬ (assert_acyclic two_tasks.tasks ≡ refused out_of_fuel)
assert_acyclic-ne-out_of_fuel_example = assert_acyclic-ne-out_of_fuel two_tasks.tasks

Reach-OrderedBoard_example : OrderedBoard after_claim
Reach-OrderedBoard_example = Reach-OrderedBoard claim_reached

claim_task-IsClaim_example : IsClaim 5 1 2 two_tasks.tasks after_claim.tasks
claim_task-IsClaim_example = claim_task-IsClaim 5 1 2 two_tasks after_claim first_claim

claim_task_once_example : ¬ (claim_task 6 1 1 after_claim ≡ done after_claim)
claim_task_once_example = claim_task_once 5 6 1 2 1 two_tasks after_claim after_claim first_claim
