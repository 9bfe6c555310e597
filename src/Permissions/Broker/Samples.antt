-- ===== src/Permissions/Broker/Samples.antt =====
-- One question: put by a worker, shown, answered.
use fakuicode.Prelude.{ℕ, ◌≡◌, ◌<◌, refl, true, false, none, some, codes, arith}
use fakuicode.Permissions.Models.{PermissionRequest, PermissionScope, ApprovalChoice, Reason}
use fakuicode.Permissions.Broker.{
  Pending, Broker, put_request, next_request, resolve, ask, show, reply, poll,
}
use fakuicode.Permissions.Broker.Invariant.{
  IsConsistent, Reach, start, next, init, Reach-IsConsistent,
}
use fakuicode.Permissions.Broker.Answers.{answer_final}

abbrev question : PermissionRequest
question = record {
  request_id = codes "q1";
  call_id = codes "call-1";
  tool_name = codes "edit_file";
  target = codes "notes.md";
  reason = Reason.needs_confirmation;
  exact_rule = codes "edit_file(notes.md)";
  scope = PermissionScope.target;
  source = none;
}

abbrev no_cell : ℕ → Pending
no_cell t = record { request = question; completed = false; choice = none }

abbrev fresh : Broker
fresh = init no_cell

abbrev asked : Broker
asked = (put_request question fresh).0

abbrev shown : Broker
shown = (next_request asked).0

abbrev answered : Broker
answered = (resolve (codes "q1") ApprovalChoice.once shown).0

shown_reached : Reach no_cell shown
shown_reached = next (next start (ask question)) show

answered_reached : Reach no_cell answered
answered_reached = next shown_reached (reply (codes "q1") ApprovalChoice.once)

issued_still : 0 < answered.count
unfolding resolve next_request put_request
issued_still = omega arith

now_answered : (answered.cell 0).completed ≡ true
unfolding resolve next_request put_request
now_answered = refl

worker_reads : poll 0 answered ≡ some ApprovalChoice.once
unfolding poll resolve next_request put_request
worker_reads = refl

Reach-IsConsistent_example : IsConsistent answered
Reach-IsConsistent_example = Reach-IsConsistent answered_reached

answer_final_example : (next_request answered).0.cell 0 ≡ answered.cell 0
answer_final_example =
    answer_final (Reach-IsConsistent answered_reached) 0 issued_still show now_answered
