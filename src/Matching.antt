-- ===== src/Matching.antt =====
-- matching.py: the glob grammar of permission rules and hooks. `compile_glob` turns a pattern into
-- the pieces of a regular expression; `fullmatch` is what `re.Pattern.fullmatch` does with them.
pub mod Exact
mod Samples
use fakuicode.Prelude.{
  ℕ, ◌≡◌, Bool, true, false, not, ◌&&◌, ◌||◌, Option, none, some, List, [], ◌∷◌, ◌++◌, Text, any,
  filter, leb, ltb, ◌==◌, if◌then◌else◌,
}

-- `GlobSyntaxError`, one constructor for each message. `bad_range` is the `re.error` that
-- `re.compile` raises on a reversed range such as `[z-a]`.
pub data GlobError : Type 0 where
  empty_pattern trailing_escape bad_escape unclosed_class : GlobError
  malformed_class empty_class unmatched_bracket bad_range : GlobError

pub data Result {ℓ} (A : Type ℓ) : Type ℓ where
  ok : A → Result A
  err : GlobError → Result A

infixl 10 ◌>>=◌
abbrev pub ◌>>=◌ {ℓ κ} : {A : Type ℓ} {B : Type κ} → Result A → (A → Result B) → Result B
ok a >>= f = f a
err e >>= f = err e

-- One entry of `pieces`: an escaped character, `.`, `.*`, or a class with its content.
pub data Piece : Type 0 where
  lit : ℕ → Piece
  any_char any_string : Piece
  char_class : Bool → Text → Piece

-- Where the loop stands: between pieces, behind a backslash, or inside a class whose content so
-- far is given. The search `pattern.find("]", index + 1)` is the third state.
pub data Scan : Type 0 where
  plain escaped : Scan
  in_class : Text → Scan

abbrev pub is_meta : ℕ → Bool
is_meta c = c == b'\\' || c == b'*' || c == b'?' || c == b'[' || c == b']'

-- The content of a class behind its optional `!` or `^`.
class_of : Bool → Text → Result Piece
class_of negated [] = err empty_class
class_of negated (c ∷ content) = ok (char_class negated (c ∷ content))

close_class : Text → Result Piece
unfolding class_of any
close_class [] = err malformed_class
close_class (c ∷ content) =
    if any (λ d. d == b'\\' || d == b'[') (c ∷ content)
    then err malformed_class
    else if c == b'!' || c == b'^'
    then class_of true content
    else class_of false (c ∷ content)

-- One character of the loop: the next state and the piece that is appended, if one is.
scan_step : Scan → ℕ → Result (Scan × Option Piece)
unfolding close_class
scan_step plain c =
    if c == b'\\'
    then ok (escaped, none)
    else if c == b'*'
    then ok (plain, some any_string)
    else if c == b'?'
    then ok (plain, some any_char)
    else if c == b'['
    then ok (in_class [], none)
    else if c == b']'
    then err unmatched_bracket
    else ok (plain, some (lit c))
scan_step escaped c = if is_meta c then ok (plain, some (lit c)) else err bad_escape
scan_step (in_class content) c =
    if c == b']'
    then (do piece ← close_class content; ok (plain, some piece))
    else ok (in_class (content ++ c ∷ []), none)

-- `pieces.append(…)`, and `exact = False` for all but an escaped character.
abbrev append_piece : Option Piece → List Piece × Bool → List Piece × Bool
append_piece none (pieces, exact) = (pieces, exact)
append_piece (some (lit c)) (pieces, exact) = (lit c ∷ pieces, exact)
append_piece (some piece) (pieces, exact) = (piece ∷ pieces, false)

pub scan : Scan → Text → Result (List Piece × Bool)
unfolding scan_step
scan plain [] = ok ([], true)
scan escaped [] = err trailing_escape
scan (in_class content) [] = err unclosed_class
scan state (c ∷ rest) = do
  (next, piece) ← scan_step state c
  compiled ← scan next rest
  ok (append_piece piece compiled)

-- A class content as `re` reads it: single characters and ranges `a-b`, `none` on a reversed range.
class_ranges : Text → Option (List (ℕ × ℕ))
class_ranges [] = some []
class_ranges (a ∷ []) = some ((a, a) ∷ [])
class_ranges (a ∷ b ∷ []) = some ((a, a) ∷ (b, b) ∷ [])
class_ranges (a ∷ b ∷ c ∷ rest) =
    let ranged = class_ranges rest in
    let single = class_ranges (b ∷ c ∷ rest) in
    if b == b'-'
    then (if ltb c a then none else elim ranged [ none ↦ none | some l ↦ some ((a, c) ∷ l) ])
    else elim single [ none ↦ none | some l ↦ some ((a, a) ∷ l) ]

bad_class : Piece → Bool
unfolding class_ranges
bad_class (char_class negated content) = elim (class_ranges content) [
  | none ↦ true
  | some l ↦ false
]
bad_class _ = false

unfoldable pub compile_glob : Text → Result (List Piece × Bool)
unfolding scan bad_class any
compile_glob [] = err empty_pattern
compile_glob (c ∷ rest) = do
  compiled ← scan plain (c ∷ rest)
  if any bad_class compiled.0 then err bad_range else ok compiled

in_ranges : ℕ → Option (List (ℕ × ℕ)) → Bool
unfolding any
in_ranges c none = false
in_ranges c (some l) = any (λ (r : ℕ × ℕ). leb r.0 c && leb c r.1) l

-- Whether a piece other than `.*` matches a character; `.` does not match a line feed.
pub one : Piece → ℕ → Bool
unfolding in_ranges class_ranges
one (lit a) c = a == c
one any_char c = not (c == 10)
one any_string c = false
one (char_class negated content) c =
    if negated then not (in_ranges c (class_ranges content)) else in_ranges c (class_ranges content)

-- `.*` in front of what `rest` matches.
star : (Text → Bool) → Text → Bool
star rest [] = rest []
star rest (c ∷ s) = rest (c ∷ s) || not (c == 10) && star rest s

unfoldable pub fullmatch : List Piece → Text → Bool
unfolding one star
fullmatch [] [] = true
fullmatch [] (c ∷ s) = false
fullmatch (any_string ∷ pieces) s = star (fullmatch pieces) s
fullmatch (piece ∷ pieces) [] = false
fullmatch (piece ∷ pieces) (c ∷ s) = one piece c && fullmatch pieces s
