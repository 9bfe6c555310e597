-- ===== src/Permissions/Rules/Selection.antt =====
-- Which rule `select_rule` selects.
use fakuicode.Prelude.{
  ◌≡◌, refl, sym, subst, inl, inr, true, false, none, some, List, [], ◌∷◌, Text, filter, In, here,
  there, filter-In, In-filter, arith, Bool-cases, ◌≢◌, In-uncons, Option-cases, ◌∙◌, ◌++◌, ap,
  filter-append, append-nil,
}
use mathlib.Core.Bool.{false≢true}
use fakuicode.Permissions.Models.{Rule, RuleEffect}
use fakuicode.Permissions.Rules.{key_lt, min_rule, first_of_matches, applies, select_rule}

-- `key_lt` is the strict part of a total preorder.
key_lt_trans : (a b c : Rule) → key_lt b a ≡ false → key_lt c b ≡ false → key_lt c a ≡ false
unfolding key_lt
key_lt_trans a b c h k = ground arith

key_lt_asym : (a b : Rule) → key_lt a b ≡ true → key_lt b a ≡ false
unfolding key_lt
key_lt_asym a b h = ground arith

key_lt_irrefl : (a : Rule) → key_lt a a ≡ false
unfolding key_lt
key_lt_irrefl a = ground arith

In-behind :
    {a best : Rule} (rule : Rule) {rules : List Rule}
    → In a (best ∷ rules)
    → In a (best ∷ rule ∷ rules)
In-behind rule here = here
In-behind rule (there m) = there (there m)

-- `best` is one of the rules, and none of them has a smaller key.
pub record IsLeast (best : Rule) (rules : List Rule) : Type 0 where
  pub member : In best rules
  pub least : (rule : Rule) → In rule rules → key_lt rule best ≡ false

min_rule-member : (best : Rule) (rules : List Rule) → In (min_rule best rules) (best ∷ rules)
unfolding min_rule
min_rule-member best [] = here
min_rule-member best (rule ∷ rules) = elim (Bool-cases (key_lt rule best)) [
  | inl e ↦ rw e (there (min_rule-member rule rules))
  | inr e ↦ rw e (In-behind rule (min_rule-member best rules))
]

min_rule-le_best : (best : Rule) (rules : List Rule) → key_lt best (min_rule best rules) ≡ false
unfolding min_rule
min_rule-le_best best [] = key_lt_irrefl best
min_rule-le_best best (rule ∷ rules) = elim (Bool-cases (key_lt rule best)) [
  | inl e ↦ rw e (
      key_lt_trans (min_rule rule rules) rule best (min_rule-le_best rule rules)
        (key_lt_asym rule best e))
  | inr e ↦ rw e (min_rule-le_best best rules)
]

min_rule-least :
    (best : Rule) (rules : List Rule) {rule : Rule}
    → In rule rules
    → key_lt rule (min_rule best rules) ≡ false
unfolding min_rule
min_rule-least best [] m = elim m [ ]
min_rule-least best (first ∷ rules) here = elim (Bool-cases (key_lt first best)) [
  | inl e ↦ rw e (min_rule-le_best first rules)
  | inr e ↦ rw e (key_lt_trans (min_rule best rules) best first (min_rule-le_best best rules) e)
]
min_rule-least best (first ∷ rules) (there m) = elim (Bool-cases (key_lt first best)) [
  | inl e ↦ rw e (min_rule-least first rules m)
  | inr e ↦ rw e (min_rule-least best rules m)
]

first_of_matches-IsLeast :
    (found : List Rule) (best : Rule) → first_of_matches found ≡ some best → IsLeast best found
unfolding first_of_matches
first_of_matches-IsLeast [] best h = cc
first_of_matches-IsLeast (rule ∷ rules) best h =
    subst (λ r. IsLeast r (rule ∷ rules)) (ground arith)
      (record {
        member = min_rule-member rule rules;
        least = λ r m. elim (In-uncons m) [
          | inl first ↦ rw first (min_rule-le_best rule rules)
          | inr later ↦ min_rule-least rule rules later
        ];
      })

first_of_matches-none : (found : List Rule) → first_of_matches found ≡ none → found ≡ []
unfolding first_of_matches
first_of_matches-none [] h = refl
first_of_matches-none (rule ∷ rules) h = cc

not-In-nil : {rule : Rule} {rules : List Rule} → In rule rules → rules ≢ []
not-In-nil here e = cc
not-In-nil (there m) e = cc

-- Nothing is selected only where no rule matches.
pub select_rule-none :
    (rules : List Rule) (tool_name target : Text)
    → select_rule rules tool_name target ≡ none
    → (rule : Rule) → In rule rules
    → applies rule tool_name target ≡ false
unfolding select_rule
select_rule-none rules tool_name target h rule m =
    elim (Bool-cases (applies rule tool_name target)) [
      | inl e ↦
          absurd (
            not-In-nil (In-filter (λ r. applies r tool_name target) m e)
              (first_of_matches-none _ h))
      | inr e ↦ e
    ]

-- The selected rule has the least key of those that match.
select_rule-IsLeast :
    (rules : List Rule) (tool_name target : Text) (best : Rule)
    → select_rule rules tool_name target ≡ some best
    → IsLeast best (filter (λ rule. applies rule tool_name target) rules)
unfolding select_rule
select_rule-IsLeast rules tool_name target best h = first_of_matches-IsLeast _ best h

-- The selected rule stands in the list and matches.
pub select_rule-In :
    (rules : List Rule) (tool_name target : Text) {best : Rule}
    → select_rule rules tool_name target ≡ some best
    → In best rules × (applies best tool_name target ≡ true)
select_rule-In rules tool_name target {best} h =
    filter-In (λ rule. applies rule tool_name target) rules
      (select_rule-IsLeast rules tool_name target best h).member

-- Where some rule matches, one is selected.
pub select_rule-found :
    (rules : List Rule) (tool_name target : Text) {rule : Rule}
    → In rule rules
    → applies rule tool_name target ≡ true
    → (best : Rule) × (select_rule rules tool_name target ≡ some best)
select_rule-found rules tool_name target {rule} m e =
    elim (Option-cases (select_rule rules tool_name target)) [
      | inl nothing ↦
          absurd (false≢true (sym (select_rule-none rules tool_name target nothing rule m) ∙ e))
      | inr found ↦ found
    ]

-- Rules that do not match have no part in the selection.
pub select_rule-append_other :
    (rules : List Rule) (tool_name target : Text) (other : Rule)
    → applies other tool_name target ≡ false
    → select_rule (rules ++ other ∷ []) tool_name target ≡ select_rule rules tool_name target
unfolding select_rule filter
select_rule-append_other rules tool_name target other h =
    rw (filter-append, h) (ap first_of_matches (append-nil _))

-- What the key says: an exact rule goes before a pattern, and of rules that are alike in this one
-- that denies goes before one that allows.
not_behind :
    (rule best : Rule)
    → key_lt rule best ≡ false
    → (rule.exact ≡ true → best.exact ≡ true)
      × (rule.exact ≡ best.exact → rule.effect ≡ RuleEffect.deny → best.effect ≡ RuleEffect.deny)
unfolding key_lt
not_behind rule best h = ground arith

-- A selected rule is in the list and matches, and it precedes every matching rule of the list: it
-- is exact if that one is, and where both are exact or neither is, it denies if that one does.
pub select_rule-Precedes :
    (rules : List Rule) (tool_name target : Text) (best rule : Rule)
    → select_rule rules tool_name target ≡ some best
    → In rule rules
    → applies rule tool_name target ≡ true
    → (In best rules × (applies best tool_name target ≡ true))
      × (rule.exact ≡ true → best.exact ≡ true)
      × (rule.exact ≡ best.exact → rule.effect ≡ RuleEffect.deny → best.effect ≡ RuleEffect.deny)
select_rule-Precedes rules tool_name target best rule found member applied =
    let (exact_first, denial_first) = not_behind rule best (
      (select_rule-IsLeast rules tool_name target best found).least rule
        (In-filter (λ r. applies r tool_name target) member applied)) in
    (select_rule-In rules tool_name target found, exact_first, denial_first)
