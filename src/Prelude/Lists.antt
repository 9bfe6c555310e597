-- ===== src/Prelude/Lists.antt =====
-- Lists measured by native numbers, and Boolean searches over them.
use Prim.Native.Nat.{ℕ, zero, suc, ◌+◌, ◌≤◌, ◌<◌}
use mathlib.Core.Path.{◌≡◌, refl, sym, subst, ap}
use mathlib.Core.Logic.{◌⊎◌, inl, inr, ◌≢◌}
use mathlib.Core.Bool.{Bool, true, false, ◌||◌}
use mathlib.Core.List.{List, [], ◌∷◌, ◌++◌, map}
use mathlib.Core.Option.{Option, none, some}
use native.Mathlib.Omega.{arith}
use fakuicode.Prelude.Tests.{if◌then◌else◌, Bool-cases}

module _ {ℓ} {A : Type ℓ} where
  abbrev pub length : List A → ℕ
  length [] = 0
  length (x ∷ xs) = suc (length xs)

  -- The members of a list as an inductive family, so that a proof can take a membership apart.
  pub data In (a : A) : List A → Type ℓ where
    here : {xs : List A} → In a (a ∷ xs)
    there : {x : A} {xs : List A} → In a xs → In a (x ∷ xs)

  -- A predicate of every element, as nested pairs that the tactics read.
  -- `any(p(x) for x in xs)`
  unfoldable pub any : (A → Bool) → List A → Bool
  any p [] = false
  any p (x ∷ xs) = p x || any p xs

  -- `[x for x in xs if p(x)]`
  unfoldable pub filter : (A → Bool) → List A → List A
  filter p [] = []
  filter p (x ∷ xs) = let rest = filter p xs in if p x then x ∷ rest else rest

  -- `next((x for x in xs if p(x)), None)`
  unfoldable pub find : (A → Bool) → List A → Option A
  find p [] = none
  find p (x ∷ xs) = if p x then some x else find p xs

module _ {ℓ} {A : Type ℓ} where
  pub length-append : (xs ys : List A) → length (xs ++ ys) ≡ length xs + length ys
  length-append [] ys = omega arith
  length-append (x ∷ xs) ys = omega (arith, length-append xs ys)

  pub filter-append :
      (p : A → Bool) (xs ys : List A) → filter p (xs ++ ys) ≡ filter p xs ++ filter p ys
  unfolding filter
  filter-append p [] ys = refl
  filter-append p (x ∷ xs) ys = ground (arith, filter-append p xs ys)

  pub In-append_left : {a : A} {xs : List A} (ys : List A) → In a xs → In a (xs ++ ys)
  In-append_left ys here = here
  In-append_left ys (there m) = there (In-append_left ys m)

  pub In-append_right : {a : A} (xs : List A) {ys : List A} → In a ys → In a (xs ++ ys)
  In-append_right [] m = m
  In-append_right (x ∷ xs) m = there (In-append_right xs m)

  pub In-append : {a : A} (xs ys : List A) → In a (xs ++ ys) → In a xs ⊎ In a ys
  In-append [] ys m = inr m
  In-append (x ∷ xs) ys here = inl here
  In-append (x ∷ xs) ys (there m) = elim (In-append xs ys m) [
    | inl l ↦ inl (there l)
    | inr r ↦ inr r
  ]

  pub In-uncons : {a x : A} {xs : List A} → In a (x ∷ xs) → (a ≡ x) ⊎ In a xs
  In-uncons here = inl refl
  In-uncons (there m) = inr m

  -- Membership in a comprehension: the element is in the list and passes the test.
  pub filter-In : {a : A} (p : A → Bool) (xs : List A) → In a (filter p xs) → In a xs × (p a ≡ true)
  unfolding filter
  filter-In p [] m = elim m [ ]
  filter-In {a} p (x ∷ xs) m = elim (Bool-cases (p x)) [
    | inl e ↦ elim (In-uncons (rw e at m)) [
      | inl same ↦ (subst (λ y. In a (y ∷ xs)) same here, rw same e)
      | inr rest ↦ let (old, passed) = filter-In p xs rest in (there old, passed)
    ]
    | inr e ↦ let (old, passed) = filter-In p xs (rw e at m) in (there old, passed)
  ]

  pub In-filter : {a : A} (p : A → Bool) {xs : List A} → In a xs → p a ≡ true → In a (filter p xs)
  unfolding filter
  In-filter p here e = rw e here
  In-filter p (there {x} m) e = elim (Bool-cases (p x)) [
    | inl kept ↦ rw kept (there (In-filter p m e))
    | inr dropped ↦ rw dropped (In-filter p m e)
  ]

  pub filter-none :
      (p : A → Bool) (xs : List A) → ((a : A) → In a xs → p a ≡ false) → filter p xs ≡ []
  unfolding filter
  filter-none p [] h = refl
  filter-none p (x ∷ xs) h = ground (arith, h x here, filter-none p xs (λ a m. h a (there m)))

  pub filter-all :
      (p : A → Bool) (xs : List A) → ((a : A) → In a xs → p a ≡ true) → filter p xs ≡ xs
  unfolding filter
  filter-all p [] h = refl
  filter-all p (x ∷ xs) h = ground (arith, h x here, filter-all p xs (λ a m. h a (there m)))

  pub not-any-In : {a : A} (p : A → Bool) {xs : List A} → any p xs ≡ false → In a xs → p a ≡ false
  unfolding any
  not-any-In p h here = ground arith
  not-any-In p h (there {x} m) = not-any-In p (ground arith) m

  pub any-append : (p : A → Bool) (xs ys : List A) → any p (xs ++ ys) ≡ (any p xs || any p ys)
  unfolding any
  any-append p [] ys = refl
  any-append p (x ∷ xs) ys = ground (arith, any-append p xs ys)

  pub find-In : {a : A} (p : A → Bool) (xs : List A) → find p xs ≡ some a → In a xs × (p a ≡ true)
  unfolding find
  find-In p [] h = cc
  find-In {a} p (x ∷ xs) h = elim (Bool-cases (p x)) [
    | inl e ↦
        let same : x ≡ a = ground arith in
        (subst (λ y. In a (y ∷ xs)) (sym same) here, rw (← same) e)
    | inr e ↦ let (old, passed) = find-In p xs (ground arith) in (there old, passed)
  ]

  pub any-In : (p : A → Bool) (xs : List A) → any p xs ≡ true → (a : A) × In a xs × (p a ≡ true)
  unfolding any
  any-In p [] h = cc
  any-In p (x ∷ xs) h = elim (Bool-cases (p x)) [
    | inl e ↦ (x, here, e)
    | inr e ↦ let (a, m, found) = any-In p xs (ground arith) in (a, there m, found)
  ]

-- The library's indexed access, over the native numbers.
module _ {ℓ} {A : Type ℓ} where
  abbrev pub get_elem? : List A → ℕ → Option A
  get_elem? [] i = none
  get_elem? (x ∷ xs) zero = some x
  get_elem? (x ∷ xs) (suc i) = get_elem? xs i

  -- A write out of bounds changes nothing.
  abbrev pub set : List A → ℕ → A → List A
  set [] i v = []
  set (x ∷ xs) zero v = v ∷ xs
  set (x ∷ xs) (suc i) v = x ∷ set xs i v

module _ {ℓ} {A : Type ℓ} where
  pub length-set : (xs : List A) (i : ℕ) (v : A) → length (set xs i v) ≡ length xs
  length-set [] i v = refl
  length-set (x ∷ xs) zero v = refl
  length-set (x ∷ xs) (suc i) v = ap suc (length-set xs i v)

  pub get_elem?-set_self :
      (xs : List A) (i : ℕ) (v : A) {old : A}
      → get_elem? xs i ≡ some old
      → get_elem? (set xs i v) i ≡ some v
  get_elem?-set_self [] i v h = cc
  get_elem?-set_self (x ∷ xs) zero v h = refl
  get_elem?-set_self (x ∷ xs) (suc i) v h = get_elem?-set_self xs i v h

  pub get_elem?-set_ne :
      (xs : List A) (i j : ℕ) (v : A) → i ≢ j → get_elem? (set xs i v) j ≡ get_elem? xs j
  get_elem?-set_ne [] i j v h = refl
  get_elem?-set_ne (x ∷ xs) zero zero v h = absurd (h refl)
  get_elem?-set_ne (x ∷ xs) zero (suc j) v h = refl
  get_elem?-set_ne (x ∷ xs) (suc i) zero v h = refl
  get_elem?-set_ne (x ∷ xs) (suc i) (suc j) v h = get_elem?-set_ne xs i j v (λ e. h (ap suc e))

  pub get_elem?-lt : (xs : List A) (i : ℕ) {a : A} → get_elem? xs i ≡ some a → i < length xs
  get_elem?-lt [] i h = cc
  get_elem?-lt (x ∷ xs) zero h = omega arith
  get_elem?-lt (x ∷ xs) (suc i) h = omega (arith, get_elem?-lt xs i h)

  pub get_elem?-ge : (xs : List A) (i : ℕ) → length xs ≤ i → get_elem? xs i ≡ none
  get_elem?-ge [] i h = refl
  get_elem?-ge (x ∷ xs) zero h = absurd (omega arith)
  get_elem?-ge (x ∷ xs) (suc i) h = get_elem?-ge xs i (omega arith)

  pub get_elem?-eq-none : (xs : List A) (i : ℕ) → get_elem? xs i ≡ none → length xs ≤ i
  get_elem?-eq-none [] i h = omega arith
  get_elem?-eq-none (x ∷ xs) zero h = cc
  get_elem?-eq-none (x ∷ xs) (suc i) h = omega (arith, get_elem?-eq-none xs i h)

  pub get_elem?-append_left :
      (xs ys : List A) (i : ℕ) → i < length xs → get_elem? (xs ++ ys) i ≡ get_elem? xs i
  get_elem?-append_left [] ys i h = absurd (omega arith)
  get_elem?-append_left (x ∷ xs) ys zero h = refl
  get_elem?-append_left (x ∷ xs) ys (suc i) h = get_elem?-append_left xs ys i (omega arith)

  pub get_elem?-append_length :
      (xs : List A) (y : A) → get_elem? (xs ++ y ∷ []) (length xs) ≡ some y
  get_elem?-append_length [] y = refl
  get_elem?-append_length (x ∷ xs) y = get_elem?-append_length xs y

pub map-append {ℓ κ} :
    {A : Type ℓ} {B : Type κ} (f : A → B) (xs ys : List A) → map f (xs ++ ys) ≡ map f xs ++ map f ys
map-append f [] ys = refl
map-append f (x ∷ xs) ys = ap (λ l. f x ∷ l) (map-append f xs ys)
