-- ===== src/Permissions/Broker.antt =====
-- `ApprovalBroker` of permissions/manager.py: tool workers put questions, one dialog answers them.
-- A pending approval is an object that a worker and the broker share, so the model keeps these
-- objects in a store, `cell`, and passes their numbers around.
pub mod Tracks
pub mod Invariant
pub mod Answers
mod Samples
use fakuicode.Prelude.{
  ℕ, suc, ◌+◌, ◌<◌, ◌≡◌, Bool, true, false, not, ◌&&◌, ◌||◌, Option, none, some, List, [], ◌∷◌,
  ◌++◌, text_eq, is_some, Text, ◌==◌, if◌then◌else◌,
}
use fakuicode.Permissions.Models.{PermissionRequest, ApprovalChoice}

-- `_PendingApproval`; `completed` is the state of its event.
pub record Pending : Type 0 where
  pub request : PermissionRequest
  pub completed : Bool
  pub choice : Option ApprovalChoice

-- `count` is the number of pending approvals made so far.
pub record Broker : Type 0 where
  pub count : ℕ
  pub cell : ℕ → Pending
  pub queue : List ℕ
  pub active : Option ℕ
  pub closed : Bool

abbrev pub update : (ℕ → Pending) → ℕ → Pending → ℕ → Pending
update cell t pending j = if j == t then pending else cell j

-- `pending.choice = choice; pending.completed.set()`
abbrev pub answer : (ℕ → Pending) → ℕ → ApprovalChoice → ℕ → Pending
answer cell t choice = update cell t (record (cell t) { completed = true; choice = some choice })

-- The first half of `request`: a closed broker answers at once, with `none` for no ticket.
unfoldable pub put_request : PermissionRequest → Broker → Broker × Option ℕ
put_request request b = if b.closed then (b, none) else (
  record b {
    count = suc b.count;
    cell = update b.cell b.count (record { request = request; completed = false; choice = none });
    queue = b.queue ++ b.count ∷ [];
  },
  some b.count,
)

-- What the waiting worker reads: nothing yet, or the choice, which is a denial if none was made.
unfoldable pub poll : ℕ → Broker → Option ApprovalChoice
poll t b =
    if (b.cell t).completed
    then some (elim (b.cell t).choice [ none ↦ ApprovalChoice.deny | some choice ↦ choice ])
    else none

-- The loop of `next_request`: completed candidates are dropped.
pub pop_open : (ℕ → Pending) → List ℕ → Option ℕ × List ℕ
pop_open cell [] = (none, [])
pop_open cell (t ∷ queue) =
    let rest = pop_open cell queue in if (cell t).completed then rest else (some t, queue)

unfoldable pub next_request : Broker → Broker × Option PermissionRequest
unfolding pop_open
next_request b =
    if b.closed || is_some b.active
    then (b, none)
    else let (candidate, queue) = pop_open b.cell b.queue in
      (
        record b { queue = queue; active = candidate },
        elim candidate [ none ↦ none | some t ↦ some (b.cell t).request ],
      )

abbrev pub can_resolve : Text → Pending → Bool
can_resolve request_id pending =
    text_eq pending.request.request_id request_id && not pending.completed

unfoldable pub resolve : Text → ApprovalChoice → Broker → Broker × Bool
unfolding text_eq
resolve request_id choice b = elim b.active [
  | none ↦ (b, false)
  | some t ↦
      if can_resolve request_id (b.cell t)
      then (record b { cell = answer b.cell t choice; active = none }, true)
      else (b, false)
]

-- `list.remove`, which does nothing if the ticket is not there.
pub remove : ℕ → List ℕ → List ℕ
remove t [] = []
remove t (j ∷ queue) = if j == t then queue else j ∷ remove t queue

abbrev pub is_active : ℕ → Broker → Bool
is_active t b = elim b.active [ none ↦ false | some a ↦ a == t ]

-- `_complete`, which a cancelled worker calls.
unfoldable pub complete : ℕ → ApprovalChoice → Broker → Broker
unfolding remove
complete t choice b =
    if (b.cell t).completed
    then b
    else if is_active t b
    then record b { cell = answer b.cell t choice; active = none }
    else record b { cell = answer b.cell t choice; queue = remove t b.queue }

pub deny_all : List ℕ → (ℕ → Pending) → ℕ → Pending
deny_all [] cell = cell
deny_all (t ∷ tickets) cell = deny_all tickets (answer cell t ApprovalChoice.deny)

abbrev pub open_tickets : Broker → List ℕ
open_tickets b = elim b.active [ none ↦ b.queue | some t ↦ t ∷ b.queue ]

unfoldable pub close : Broker → Broker
unfolding deny_all
close b = if b.closed then b else record b {
  cell = deny_all (open_tickets b) b.cell;
  queue = [];
  active = none;
  closed = true;
}

-- What a thread may do to the broker, one critical section at a time.
pub data Step (b : Broker) : Broker → Type 0 where
  ask : (request : PermissionRequest) → Step b (put_request request b).0
  show : Step b (next_request b).0
  reply : (request_id : Text) (choice : ApprovalChoice) → Step b (resolve request_id choice b).0
  cancel : (t : ℕ) → t < b.count → Step b (complete t ApprovalChoice.deny b)
  shut : Step b (close b)
