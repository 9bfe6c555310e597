-- ===== src/Teams/Board/Order.antt =====
-- The search for cycles, and orders of the tasks.
use fakuicode.Prelude.{
  ℕ, zero, suc, ◌≡◌, sym, subst, inl, inr, true, some, List, [], ◌∷◌, length, In, here, there,
  In-uncons, any, any-In, ◌==◌, ==_iff, bool_ind, option_ind,
}
use fakuicode.Teams.TaskGraph.{
  TeamTask, Checked, done, refused, ◌>>=◌, is_in, get_task, ids, visit, assert_acyclic,
}

abbrev pub OnDone {ℓ} : {A : Type ℓ} → (A → Type 0) → Checked A → Type 0
OnDone P (done value) = P value
OnDone P (refused reason) = Unit

pub OnDone-map {ℓ} :
    {A : Type ℓ} (P Q : A → Type 0) (r : Checked A)
    → ((a : A) → P a → Q a)
    → OnDone P r
    → OnDone Q r
OnDone-map P Q (done value) f h = f value h
OnDone-map P Q (refused reason) f h = tt

pub OnDone-bind {ℓ κ} :
    {A : Type ℓ} {B : Type κ} (P : A → Type 0) (Q : B → Type 0) (r : Checked A)
    (next : A → Checked B)
    → OnDone P r
    → ((a : A) → P a → OnDone Q (next a))
    → OnDone Q (r >>= next)
OnDone-bind P Q (done value) next h f = f value h
OnDone-bind P Q (refused reason) next h f = tt

pub is_in-In : (id : ℕ) (known : List ℕ) → is_in id known ≡ true → In id known
unfolding any
is_in-In id known e =
    let (other, member, same) = any-In (λ m. m == id) known e in
    subst (λ n. In n known) ((==_iff other id).0 same) member

-- A task of the board, with all that blocks it among the ids before it.
pub record IsPlaced (tasks : List TeamTask) (id : ℕ) (before : List ℕ) : Type 0 where
  pub task : TeamTask
  pub found : get_task id tasks ≡ some task
  pub unblocked : (other : ℕ) → In other task.blocked_by → In other before

-- The last id comes first.
abbrev pub IsOrder : List TeamTask → List ℕ → Type 0
IsOrder tasks [] = Unit
IsOrder tasks (id ∷ before) = IsPlaced tasks id before × IsOrder tasks before

module _ (tasks : List TeamTask) where
  -- What a visit of `wanted` makes of the visited ids.
  record Extends (wanted visited after : List ℕ) : Type 0 where
    order : IsOrder tasks after
    kept : (id : ℕ) → In id visited → In id after
    reached : (id : ℕ) → In id wanted → In id after

  skip_seen :
      (id : ℕ) (rest visited after : List ℕ)
      → In id visited
      → Extends rest visited after
      → Extends (id ∷ rest) visited after
  skip_seen id rest visited after seen h = record {
    order = h.order;
    kept = h.kept;
    reached = λ other m. elim (In-uncons m) [
      | inl same ↦ h.kept other (subst (λ n. In n visited) (sym same) seen)
      | inr later ↦ h.reached other later
    ];
  }

  append_visited :
      (id : ℕ) (rest visited below after : List ℕ)
      → ((other : ℕ) → In other visited → In other below)
      → Extends rest (id ∷ below) after
      → Extends (id ∷ rest) visited after
  append_visited id rest visited below after kept h = record {
    order = h.order;
    kept = λ other m. h.kept other (there (kept other m));
    reached = λ other m. elim (In-uncons m) [
      | inl same ↦ h.kept other (subst (λ n. In n (id ∷ below)) (sym same) here)
      | inr later ↦ h.reached other later
    ];
  }

  visit-Extends :
      (fuel : ℕ) (visiting wanted visited : List ℕ)
      → IsOrder tasks visited
      → OnDone (Extends wanted visited) (visit tasks fuel visiting wanted visited)
  unfolding visit
  visit-Extends fuel visiting [] visited h = record {
    order = h;
    kept = λ id m. m;
    reached = λ id m. elim m [ ];
  }
  visit-Extends zero visiting (id ∷ rest) visited h = tt
  visit-Extends (suc fuel) visiting (id ∷ rest) visited h =
      option_ind (OnDone (Extends (id ∷ rest) visited)) (get_task id tasks) (λ e. tt)
        (λ task found.
          bool_ind (OnDone (Extends (id ∷ rest) visited)) (is_in id visiting) (λ e. tt)
            (λ e.
              bool_ind (OnDone (Extends (id ∷ rest) visited)) (is_in id visited)
                (λ seen.
                  OnDone-map (Extends rest visited) (Extends (id ∷ rest) visited) _
                    (λ after. skip_seen id rest visited after (is_in-In id visited seen))
                    (visit-Extends (suc fuel) visiting rest visited h))
                (λ new.
                  OnDone-bind (Extends task.blocked_by visited) (Extends (id ∷ rest) visited) _ _
                    (visit-Extends fuel (id ∷ visiting) task.blocked_by visited h)
                    (λ below b.
                      OnDone-map (Extends rest (id ∷ below)) (Extends (id ∷ rest) visited) _
                        (λ after. append_visited id rest visited below after b.kept)
                        (visit-Extends (suc fuel) visiting rest (id ∷ below) (
                          record { task = task; found = found; unblocked = b.reached },
                          b.order,
                        ))))))

  -- A board that the search passes has an order of all its tasks in which each task stands behind
  -- every task that blocks it: there is no cycle, and no missing dependency.
  pub assert_acyclic-IsOrder :
      (order : List ℕ)
      → assert_acyclic tasks ≡ done order
      → IsOrder tasks order × ((id : ℕ) → In id (ids tasks) → In id order)
  unfolding assert_acyclic
  assert_acyclic-IsOrder order e =
      let h : Extends (ids tasks) [] order =
        subst (OnDone (Extends (ids tasks) [])) e
          (visit-Extends (suc (length (ids tasks))) [] (ids tasks) [] tt) in
      (h.order, h.reached)
