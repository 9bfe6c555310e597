-- ===== src/Teams/Board/Fuel.antt =====
-- The fuel of the search for cycles, and the visits that are going on at one time.
use fakuicode.Prelude.{
  ℕ, zero, suc, ◌+◌, ◌≤◌, ◌≡◌, ◌≢◌, refl, sym, ap, subst, ◌∙◌, inl, inr, false, some, List, [], ◌∷◌,
  length, In, here, there, In-uncons, any, find, not-any-In, ◌==◌, ==_iff, if_ind, bool_ind,
  option_ind, if◌then◌else◌, arith,
}
use fakuicode.Teams.TaskGraph.{
  TeamTask, Checked, done, refused, out_of_fuel, ◌>>=◌, is_in, get_task, ids, visit, assert_acyclic,
}

drop_one : ℕ → List ℕ → List ℕ
drop_one id [] = []
drop_one id (other ∷ rest) = if other == id then rest else other ∷ drop_one id rest

length-drop_one :
    (id : ℕ) (known : List ℕ) → In id known → suc (length (drop_one id known)) ≡ length known
unfolding drop_one
length-drop_one id [] m = elim m [ ]
length-drop_one id (other ∷ rest) m =
    if_ind (λ l. suc (length l) ≡ suc (length rest)) (other == id) {x = rest}
      {y = other ∷ drop_one id rest} (λ e. refl)
      (λ e. elim (In-uncons m) [
        | inl same ↦ absurd (ground (arith, e, (==_iff other id).1 (sym same)))
        | inr later ↦ ap suc (length-drop_one id rest later)
      ])

In-drop_one :
    (id other : ℕ) (known : List ℕ) → other ≢ id → In other known → In other (drop_one id known)
unfolding drop_one
In-drop_one id other [] differs m = m
In-drop_one id other (first ∷ rest) differs m =
    if_ind (λ l. In other l) (first == id)
      (λ e. elim (In-uncons m) [
        | inl same ↦ absurd (differs (same ∙ (==_iff first id).0 e))
        | inr later ↦ later
      ])
      (λ e. elim (In-uncons m) [
        | inl same ↦ subst (λ n. In n (first ∷ drop_one id rest)) (sym same) here
        | inr later ↦ there (In-drop_one id other rest differs later)
      ])

abbrev Different : List ℕ → Type 0
Different [] = Unit
Different (id ∷ rest) = ¬ In id rest × Different rest

-- Different members of a list are no more than the list is long.
Different-fit :
    (some_ids known : List ℕ)
    → Different some_ids
    → ((id : ℕ) → In id some_ids → In id known)
    → length some_ids ≤ length known
Different-fit [] known d inside = omega arith
Different-fit (id ∷ rest) known (new, d) inside =
    let fits = Different-fit rest (drop_one id known) d (λ other m.
      In-drop_one id other known (λ same. new (subst (λ n. In n rest) same m))
        (inside other (there m))) in
    omega (arith, length-drop_one id known (inside id here))

is_in-false : (id : ℕ) (known : List ℕ) → is_in id known ≡ false → ¬ In id known
unfolding any
is_in-false id known e m = ground (arith, not-any-In (λ n. n == id) e m, (==_iff id id).1 refl)

get_task-In :
    (id : ℕ) (tasks : List TeamTask) {task : TeamTask}
    → get_task id tasks ≡ some task
    → In id (ids tasks)
unfolding get_task find
get_task-In id [] = λ e. cc
get_task-In id (first ∷ tasks) {task} =
    if_ind (λ o. o ≡ some task → In id (first.task_id ∷ ids tasks)) (first.task_id == id)
      (λ same e.
        subst (λ n. In n (first.task_id ∷ ids tasks)) ((==_iff first.task_id id).0 same) here)
      (λ other e. there (get_task-In id tasks e))

abbrev Fuelled {ℓ} : {A : Type ℓ} → Checked A → Type 0
Fuelled (done value) = Unit
Fuelled (refused reason) = reason ≢ out_of_fuel

Fuelled-bind {ℓ κ} :
    {A : Type ℓ} {B : Type κ} (r : Checked A) (next : A → Checked B)
    → Fuelled r
    → ((a : A) → Fuelled (next a))
    → Fuelled (r >>= next)
Fuelled-bind (done value) next h f = f value
Fuelled-bind (refused reason) next h f = h

module _ (tasks : List TeamTask) where
  record Visiting (fuel : ℕ) (visiting : List ℕ) : Type 0 where
    room : fuel + length visiting ≡ suc (length (ids tasks))
    different : Different visiting
    inside : (id : ℕ) → In id visiting → In id (ids tasks)

  deeper :
      (fuel id : ℕ) (visiting : List ℕ) {task : TeamTask}
      → get_task id tasks ≡ some task
      → is_in id visiting ≡ false
      → Visiting (suc fuel) visiting
      → Visiting fuel (id ∷ visiting)
  deeper fuel id visiting found new h = record {
    room = omega (arith, h.room);
    different = (is_in-false id visiting new, h.different);
    inside = λ other m. elim (In-uncons m) [
      | inl same ↦ subst (λ n. In n (ids tasks)) (sym same) (get_task-In id tasks found)
      | inr later ↦ h.inside other later
    ];
  }

  visit-Fuelled :
      (fuel : ℕ) (visiting wanted visited : List ℕ)
      → Visiting fuel visiting
      → Fuelled (visit tasks fuel visiting wanted visited)
  unfolding visit
  visit-Fuelled fuel visiting [] visited h = tt
  visit-Fuelled zero visiting (id ∷ rest) visited h =
      absurd (omega (arith, h.room, Different-fit visiting (ids tasks) h.different h.inside))
  visit-Fuelled (suc fuel) visiting (id ∷ rest) visited h =
      option_ind Fuelled (get_task id tasks) (λ e. λ reason. cc)
        (λ task found.
          bool_ind Fuelled (is_in id visiting) (λ e. λ reason. cc)
            (λ new.
              bool_ind Fuelled (is_in id visited)
                (λ seen. visit-Fuelled (suc fuel) visiting rest visited h)
                (λ e.
                  Fuelled-bind _ _
                    (visit-Fuelled fuel (id ∷ visiting) task.blocked_by visited
                      (deeper fuel id visiting found new h))
                    (λ below. visit-Fuelled (suc fuel) visiting rest (id ∷ below) h))))

-- The search for cycles ends with an answer of its own: its fuel, one more than the number of tasks,
-- is enough for every board.
pub assert_acyclic-ne-out_of_fuel :
    (tasks : List TeamTask) → ¬ (assert_acyclic tasks ≡ refused out_of_fuel)
unfolding assert_acyclic
assert_acyclic-ne-out_of_fuel tasks e =
    subst Fuelled e
      (visit-Fuelled tasks (suc (length (ids tasks))) [] (ids tasks) []
        (record { room = omega arith; different = tt; inside = λ id m. elim m [ ] }))
      refl
