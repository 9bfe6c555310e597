-- ===== src/Subagents/Tasks/Links.antt =====
-- The life of a task: what its status says about the executor and about the announced ends.
use fakuicode.Prelude.{
  ℕ, zero, suc, ◌+◌, ◌≤◌, ◌<◌, ◌≡◌, ◌≢◌, refl, sym, ap, subst, ◌∙◌, inl, inr, none, some, List, [],
  ◌∷◌, ◌++◌, length, length-append, get_elem?, set, length-set, get_elem?-set_self,
  get_elem?-set_ne, get_elem?-lt, get_elem?-append_left, get_elem?-append_length, arith, ◌==◌,
  ==_iff, Bool-cases,
}
use fakuicode.Subagents.TaskState.{
  TaskStatus, queued, running, waiting_approval, completed, failed, cancelling, cancelled, TaskRun,
}

-- `in_queue`, `executing` and `announced` count where a task stands: in the executor's queue, with
-- a worker, and among the announced ends.
abbrev pub Linked : TaskStatus → ℕ → ℕ → ℕ → Type 0
Linked queued in_queue executing announced = (in_queue ≡ 1) × (executing ≡ 0) × (announced ≡ 0)
Linked running in_queue executing announced = (in_queue ≡ 0) × (executing ≡ 1) × (announced ≡ 0)
Linked waiting_approval in_queue executing announced =
    (in_queue ≡ 0) × (executing ≡ 1) × (announced ≡ 0)
Linked cancelling in_queue executing announced = (in_queue + executing ≡ 1) × (announced ≡ 0)
Linked completed in_queue executing announced = (in_queue ≤ 1) × (executing ≡ 0) × (announced ≡ 1)
Linked failed in_queue executing announced = (in_queue ≤ 1) × (executing ≡ 0) × (announced ≡ 1)
Linked cancelled in_queue executing announced = (in_queue ≤ 1) × (executing ≡ 0) × (announced ≡ 1)

pub record AllLinked (tasks : List TaskRun) (in_queue executing announced : ℕ → ℕ) : Type 0 where
  pub each :
      (i : ℕ) (task : TaskRun)
      → get_elem? tasks i ≡ some task
      → Linked task.status (in_queue i) (executing i) (announced i)
  pub beyond : (i : ℕ) → length tasks ≤ i → (in_queue i ≡ 0) × (executing i ≡ 0) × (announced i ≡ 0)

abbrev pub SameOff : ℕ → (ℕ → ℕ) → (ℕ → ℕ) → Type 0
SameOff i f g = (j : ℕ) → j ≢ i → g j ≡ f j

some-eq {ℓ} : {A : Type ℓ} {a b : A} → some a ≡ some b → a ≡ b
some-eq {a} e = ap (λ o. elim o [ none ↦ a | some c ↦ c ]) e

-- One task is rewritten, and the counts change only for it.
pub AllLinked-set :
    {tasks : List TaskRun} {q x a q' x' a' : ℕ → ℕ} (i : ℕ) (task task' : TaskRun)
    → AllLinked tasks q x a
    → get_elem? tasks i ≡ some task
    → SameOff i q q'
    → SameOff i x x'
    → SameOff i a a'
    → Linked task'.status (q' i) (x' i) (a' i)
    → AllLinked (set tasks i task') q' x' a'
AllLinked-set {tasks} {q} {x} {a} {q'} {x'} {a'} i task task' h found sq sx sa now = record {
  each = λ j other at. elim (Bool-cases (j == i)) [
    | inl e ↦
        let same = (==_iff j i).0 e in
        let written = some-eq (
          sym (get_elem?-set_self tasks i task' found)
          ∙ ap (get_elem? (set tasks i task')) (sym same)
          ∙ at) in
        subst (λ k. Linked other.status (q' k) (x' k) (a' k)) (sym same)
          (subst (λ t. Linked t.status (q' i) (x' i) (a' i)) written now)
    | inr e ↦
        let differs : j ≢ i = λ same. ground (arith, e, same) in
        let old =
          h.each j other (sym (get_elem?-set_ne tasks i j task' (λ s. differs (sym s))) ∙ at) in
        rw (sq j differs, sx j differs, sa j differs) old
  ];
  beyond = λ j big.
      let differs : j ≢ i =
        λ same. absurd (omega (arith, get_elem?-lt tasks i found, length-set tasks i task')) in
      rw (sq j differs, sx j differs, sa j differs)
        (h.beyond j (omega (arith, length-set tasks i task')));
}

-- A new task stands in the queue and nowhere else.
pub AllLinked-snoc :
    {tasks : List TaskRun} {q x a : ℕ → ℕ} (q' : ℕ → ℕ) (task : TaskRun)
    → AllLinked tasks q x a
    → SameOff (length tasks) q q'
    → task.status ≡ queued
    → q' (length tasks) ≡ suc (q (length tasks))
    → AllLinked (tasks ++ task ∷ []) q' x a
AllLinked-snoc {tasks} {q} {x} {a} q' task h same st new = record {
  each = λ j other at. elim (Bool-cases (j == length tasks)) [
    | inl e ↦
        let here = (==_iff j (length tasks)).0 e in
        let written = some-eq (
          sym (get_elem?-append_length tasks task)
          ∙ ap (get_elem? (tasks ++ task ∷ [])) (sym here)
          ∙ at) in
        let fresh = h.beyond (length tasks) (omega arith) in
        subst (λ k. Linked other.status (q' k) (x k) (a k)) (sym here)
          (subst (λ t. Linked t.status (q' (length tasks)) (x (length tasks)) (a (length tasks)))
            written
            (subst (λ s. Linked s (q' (length tasks)) (x (length tasks)) (a (length tasks)))
              (sym st) (omega arith)))
    | inr e ↦
        let differs : j ≢ length tasks = λ s. ground (arith, e, s) in
        let below : j < length tasks =
          omega (arith, get_elem?-lt (tasks ++ task ∷ []) j at, length-append tasks (task ∷ [])) in
        rw (same j differs)
          (h.each j other (sym (get_elem?-append_left tasks (task ∷ []) j below) ∙ at))
  ];
  beyond = λ j big.
      let past : suc (length tasks) ≤ j = omega (arith, length-append tasks (task ∷ [])) in
      let differs : j ≢ length tasks = λ s. absurd (omega arith) in
      rw (same j differs) (h.beyond j (omega arith));
}

set_same :
    {tasks : List TaskRun} {task : TaskRun} (i : ℕ)
    → get_elem? tasks i ≡ some task
    → set tasks i task ≡ tasks
set_same {tasks = []} i e = refl
set_same {tasks = t ∷ tasks} zero e = ap (λ (u : TaskRun). u ∷ tasks) (sym (some-eq e))
set_same {tasks = t ∷ tasks} (suc i) e = ap (λ l. t ∷ l) (set_same i e)

-- The counts of one task change, and its record does not.
pub AllLinked-recount :
    {tasks : List TaskRun} {q x a q' x' a' : ℕ → ℕ} (i : ℕ) (task : TaskRun)
    → AllLinked tasks q x a
    → get_elem? tasks i ≡ some task
    → SameOff i q q'
    → SameOff i x x'
    → SameOff i a a'
    → Linked task.status (q' i) (x' i) (a' i)
    → AllLinked tasks q' x' a'
AllLinked-recount {q'} {x'} {a'} i task h found sq sx sa now =
    subst (λ l. AllLinked l q' x' a') (set_same i found)
      (AllLinked-set i task task h found sq sx sa now)
