-- ===== src/Subagents/Tasks/Samples.antt =====
-- One task: launched, run by a worker, ended, drained.
use fakuicode.Prelude.{
  ◌+◌, ◌≡◌, refl, true, false, none, some, [], ◌∷◌, ◌++◌, codes, get_elem?, count, if◌then◌else◌,
  strip,
}
use fakuicode.Subagents.Tasks.{begin_run, begin_task, end_run, finish, ended_task}
use fakuicode.Subagents.TaskCalls.{launch, launch_named, launch_idle, register, drain_done}
use fakuicode.Subagents.TaskState.{
  Session, ChildRunStatus, ChildRunResult, TaskRun, is_active, running, busy, new_task, lookup_name,
}
use fakuicode.Subagents.Tasks.Steps.{
  System, Reach, start, here, next, with_manager, taken, launched, worker_takes, child_returns,
  drained_done,
}
use fakuicode.Subagents.Tasks.Announced.{
  IsAccounted, Reach-IsAccounted, active_is_scheduled, end_announced_once,
}
use fakuicode.Subagents.Tasks.Edits.{SameEnd}
use fakuicode.Subagents.Tasks.Finality.{end_is_final}
use fakuicode.Subagents.Tasks.Exclusive.{AtMostOneRun, one_run_per_session}

abbrev explorer : Session
explorer = record { id = 7; name = codes "explorer" }

abbrev explore : TaskRun
explore = new_task explorer (codes "read the parser") (codes "explore") true

abbrev waiting : System
waiting =
    with_manager start
      (launch explorer (codes "read the parser") (codes "explore") true start.manager).1

waiting_reached : Reach waiting
waiting_reached = next here (launched explorer (codes "read the parser") (codes "explore") true)

abbrev busy_worker : System
busy_worker = taken waiting 0 [] (begin_run 5 0 (record waiting.manager { work = [] }))

first_in_queue : waiting.manager.work ≡ 0 ∷ []
unfolding launch launch_named launch_idle register busy strip lookup_name
first_in_queue = refl

busy_reached : Reach busy_worker
busy_reached = next waiting_reached (worker_takes 5 0 [] first_in_queue)

abbrev report : ChildRunResult
report = record {
  text = codes "it is a Pratt parser";
  status = ChildRunStatus.completed;
  error = none;
  usage = none;
  tool_count = 3;
  last_activity = codes "read_file";
}

abbrev ended : System
ended = record {
  manager = end_run 9 0 report busy_worker.manager;
  executing = [] ++ [];
  delivered = busy_worker.delivered;
}

one_executing : busy_worker.executing ≡ [] ++ 0 ∷ []
unfolding begin_run begin_task launch launch_named launch_idle register busy strip lookup_name
one_executing = refl

ended_reached : Reach ended
ended_reached = next busy_reached (child_returns 9 0 report [] [] one_executing)

abbrev explored : TaskRun
explored = ended_task 9 report (record explore { status = running; start_time_ns = 5 })

explore_waits : get_elem? waiting.manager.tasks 0 ≡ some explore
unfolding launch launch_named launch_idle register busy strip lookup_name
explore_waits = refl

explore_ended : get_elem? ended.manager.tasks 0 ≡ some explored
unfolding end_run finish begin_run begin_task launch launch_named launch_idle register busy strip
    lookup_name
explore_ended = refl

explored_is_over : is_active explored.status ≡ false
unfolding is_active
explored_is_over = refl

explore_is_active : is_active explore.status ≡ true
unfolding is_active
explore_is_active = refl

drained_one : (drain_done ended.manager).0 ≡ 0 ∷ []
unfolding drain_done end_run finish begin_run begin_task launch launch_named launch_idle register
    busy strip lookup_name
drained_one = refl

Reach-IsAccounted_example : IsAccounted ended
Reach-IsAccounted_example = Reach-IsAccounted ended_reached

active_is_scheduled_example : count 0 waiting.manager.work + count 0 waiting.executing ≡ 1
active_is_scheduled_example =
    active_is_scheduled 0 explore waiting_reached explore_waits explore_is_active

end_announced_once_example :
    count 0 ended.delivered + count 0 ended.manager.done
    ≡ (if is_active explored.status then 0 else 1)
end_announced_once_example = end_announced_once 0 explored ended_reached explore_ended

end_is_final_example :
    (task' : TaskRun) × (get_elem? (drain_done ended.manager).1.tasks 0 ≡ some task')
    × SameEnd explored task'
end_is_final_example =
    end_is_final 0 explored ended_reached drained_done explore_ended explored_is_over

one_run_per_session_example : AtMostOneRun busy_worker.manager.tasks
one_run_per_session_example = one_run_per_session busy_reached
