-- ===== src/Permissions/Rules/Grammar.antt =====
-- The parts of the rule grammar: names of tools, patterns, escaped targets.
use fakuicode.Prelude.{
  ℕ, zero, suc, ◌≡◌, refl, ◌≢◌, ◌≤◌, inl, inr, Bool, true, false, ◌&&◌, some, [], ◌∷◌, ◌++◌, Text,
  any, length, arith, leb, Bool-cases, is_space,
}
use fakuicode.Matching.{is_meta}
use fakuicode.Matching.Exact.{Spells, Spells-nil, Spells-escaped, Spells-plain}
use fakuicode.Permissions.Rules.{
  is_control, ends_in_space, name_start, take_name, take_body, all_name_chars, escape,
}

-- The form that the rule grammar wants of a tool's name.
abbrev pub name_shaped : Text → Bool
name_shaped [] = false
name_shaped (c ∷ name) = name_start c && all_name_chars name && leb (length name) 63

pub take_name-name :
    (room : ℕ) (name rest : Text)
    → all_name_chars name ≡ true
    → length name ≤ room
    → take_name room (name ++ b'(' ∷ rest) ≡ some (name, rest)
unfolding take_name all_name_chars
take_name-name zero [] rest h fits = refl
take_name-name (suc room) [] rest h fits = refl
take_name-name zero (c ∷ name) rest h fits = absurd (omega arith)
take_name-name (suc room) (c ∷ name) rest h fits = ground (arith, take_name-name room name rest)

pub take_body-body :
    (body : Text) → any is_control body ≡ false → take_body (body ++ b')' ∷ []) ≡ some body
unfolding take_body any
take_body-body [] h = refl
take_body-body (c ∷ []) h = ground arith
take_body-body (c ∷ d ∷ body) h = ground (arith, take_body-body (d ∷ body))

pub ends_in_space-snoc : (s : Text) (c : ℕ) → ends_in_space (s ++ c ∷ []) ≡ is_space c
unfolding ends_in_space
ends_in_space-snoc [] c = refl
ends_in_space-snoc (a ∷ []) c = refl
ends_in_space-snoc (a ∷ b ∷ s) c = ends_in_space-snoc (b ∷ s) c

pub escape-no_control : (t : Text) → any is_control t ≡ false → any is_control (escape t) ≡ false
unfolding escape any
escape-no_control [] h = refl
escape-no_control (c ∷ t) h = ground (arith, escape-no_control t)

pub escape-Spells : (t : Text) → Spells (escape t) t
unfolding escape
escape-Spells [] = Spells-nil
escape-Spells (c ∷ t) = elim (Bool-cases (is_meta c)) [
  | inl e ↦ rw e (Spells-escaped c e (escape-Spells t))
  | inr e ↦ rw e (Spells-plain c e (escape-Spells t))
]

pub escape-ne-nil : (c : ℕ) (t : Text) → escape (c ∷ t) ≢ []
unfolding escape
escape-ne-nil c t h = ground arith

pub all_name_chars-no_control : (s : Text) → all_name_chars s ≡ true → any is_control s ≡ false
unfolding all_name_chars any
all_name_chars-no_control [] h = refl
all_name_chars-no_control (c ∷ s) h = ground (arith, all_name_chars-no_control s)
