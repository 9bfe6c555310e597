-- ===== src/Matching/Exact.antt =====
-- Exact patterns, and patterns whose metacharacters are all escaped.
use fakuicode.Prelude.{
  ℕ, ◌≡◌, refl, ◌≢◌, ap, subst, Bool, true, false, Option, none, some, List, [], ◌∷◌, map, Text,
  text_eq, any, arith,
}
use fakuicode.Matching.{
  Result, ok, err, ◌>>=◌, Piece, lit, any_char, any_string, char_class, Scan, plain, escaped,
  in_class, is_meta, scan_step, append_piece, scan, bad_class, compile_glob, fullmatch,
}

both_ran :
    {A B : Type 0} (step : A → Result B) {made : B} (first : Result A)
    → first >>= step ≡ ok made
    → (value : A) × (step value ≡ ok made) × (first ≡ ok value)
both_ran step (ok value) ran = (value, ran, refl)
both_ran step (err reason) ran = cc

-- The pieces are the characters of one text.
abbrev pub Literal : List Piece → Type 0
Literal pieces = (t : Text) × (pieces ≡ map lit t)

append_piece-Literal :
    (piece : Option Piece) (compiled : List Piece × Bool) {pieces : List Piece}
    → append_piece piece compiled ≡ (pieces, true)
    → (compiled.1 ≡ true → Literal compiled.0)
    → Literal pieces
append_piece-Literal none compiled h below = let (t, e) = below (ground arith) in (t, ground arith)
append_piece-Literal (some (lit c)) compiled h below =
    let (t, e) = below (ground arith) in (c ∷ t, ground arith)
append_piece-Literal (some any_char) compiled h below = cc (ap (λ (p : List Piece × Bool). p.1) h)
append_piece-Literal (some any_string) compiled h below = cc (ap (λ (p : List Piece × Bool). p.1) h)
append_piece-Literal (some (char_class n t)) compiled h below =
    cc (ap (λ (p : List Piece × Bool). p.1) h)

abbrev AllLiteral : Text → Type 0
AllLiteral p =
    (state : Scan) (compiled : List Piece × Bool)
    → scan state p ≡ ok compiled
    → compiled.1 ≡ true
    → Literal compiled.0

-- What follows one step of the loop.
step-Literal :
    (step : Result (Scan × Option Piece)) (rest : Text) (compiled : List Piece × Bool)
    → AllLiteral rest
    → (do (next, piece) ← step; after ← scan next rest; ok (append_piece piece after)) ≡ ok compiled
    → compiled.1 ≡ true
    → Literal compiled.0
step-Literal (err e) rest compiled below h exact = cc
step-Literal (ok (next, piece)) rest compiled below h exact =
    let (after, appended, scanned) = both_ran _ (scan next rest) h in
    append_piece-Literal piece after (ground (arith, appended, exact)) (below next after scanned)

scan-Literal : (p : Text) → AllLiteral p
unfolding scan
scan-Literal [] plain compiled h exact = ([], ground arith)
scan-Literal [] escaped compiled h exact = cc
scan-Literal [] (in_class t) compiled h exact = cc
scan-Literal (c ∷ rest) plain compiled h exact =
    step-Literal (scan_step plain c) rest compiled (scan-Literal rest) h exact
scan-Literal (c ∷ rest) escaped compiled h exact =
    step-Literal (scan_step escaped c) rest compiled (scan-Literal rest) h exact
scan-Literal (c ∷ rest) (in_class t) compiled h exact =
    step-Literal (scan_step (in_class t) c) rest compiled (scan-Literal rest) h exact

pub fullmatch-literal : (t s : Text) → fullmatch (map lit t) s ≡ text_eq t s
unfolding fullmatch text_eq
fullmatch-literal [] [] = refl
fullmatch-literal [] (c ∷ s) = refl
fullmatch-literal (a ∷ t) [] = refl
fullmatch-literal (a ∷ t) (c ∷ s) = rw (fullmatch-literal t s)

-- A pattern that spells a text with its metacharacters escaped.
pub record Spells (p t : Text) : Type 0 where
  pub scanned : scan plain p ≡ ok (map lit t, true)

pub Spells-nil : Spells [] []
unfolding scan
Spells-nil = record { scanned = refl }

pub Spells-escaped :
    {p t : Text} (c : ℕ) → is_meta c ≡ true → Spells p t → Spells (b'\\' ∷ c ∷ p) (c ∷ t)
unfolding scan
Spells-escaped c meta h = record { scanned = rw (meta, h.scanned) }

pub Spells-plain : {p t : Text} (c : ℕ) → is_meta c ≡ false → Spells p t → Spells (c ∷ p) (c ∷ t)
unfolding scan
Spells-plain c other h = record { scanned = ground (arith, h.scanned) }

no_bad_class : (t : Text) → any bad_class (map lit t) ≡ false
unfolding any bad_class
no_bad_class [] = refl
no_bad_class (c ∷ t) = no_bad_class t

pub compile_glob-Spells : {p t : Text} → Spells p t → p ≢ [] → compile_glob p ≡ ok (map lit t, true)
unfolding compile_glob
compile_glob-Spells {p = []} h some_text = absurd (some_text refl)
compile_glob-Spells {p = c ∷ p} {t} h some_text = rw (h.scanned, no_bad_class t)

Literal-matches_one :
    (pieces : List Piece)
    → Literal pieces
    → (t : Text) × ((s : Text) → fullmatch pieces s ≡ text_eq t s)
Literal-matches_one pieces (t, e) = (t, λ s. rw e (fullmatch-literal t s))

-- A pattern that is reported as exact matches exactly one text.
pub exact_matches_one :
    (p : Text) {pieces : List Piece}
    → compile_glob p ≡ ok (pieces, true)
    → (t : Text) × ((s : Text) → fullmatch pieces s ≡ text_eq t s)
unfolding compile_glob
exact_matches_one [] h = cc
exact_matches_one (c ∷ p) {pieces} h =
    let (compiled, checked, scanned) = both_ran _ (scan plain (c ∷ p)) h in
    let same : compiled ≡ (pieces, true) = ground (arith, checked) in
    Literal-matches_one pieces (
      scan-Literal (c ∷ p) plain (pieces, true)
        (subst (λ r. scan plain (c ∷ p) ≡ ok r) same scanned) refl)
