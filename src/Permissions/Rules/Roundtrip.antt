-- ===== src/Permissions/Rules/Roundtrip.antt =====
-- The rule that an approval generates, `tool(escaped target)`, and the texts that it matches.
use fakuicode.Prelude.{
  ℕ, zero, suc, ◌≡◌, refl, sym, ap, ◌≢◌, inl, inr, Bool, true, false, ◌&&◌, ◌||◌, not, some, List,
  [], ◌∷◌, ◌++◌, map, Text, codes, text_eq, text_eq_iff, any, any-append, append_assoc, length,
  arith, leb, ltb, Bool-cases, if◌then◌else◌, subst, ◌∙◌, is_space,
}
use fakuicode.Matching.{lit}
use fakuicode.Matching.Exact.{compile_glob-Spells, fullmatch-literal}
use fakuicode.Permissions.Models.{Rule, RuleEffect, RuleSource}
use fakuicode.Permissions.Rules.{
  unknown_tool, ok, err, bad_target, known_tools, is_control, ends_in_space, starts_in_space,
  rule_groups, all_name_chars, mcp_tool, mcp_server, is_mcp_tool, is_known_tool, compile_pattern,
  split_rule, parse_rule, escape, escape_exact_target, applies,
}
use fakuicode.Permissions.Rules.Grammar.{
  name_shaped, take_name-name, take_body-body, ends_in_space-snoc, escape-no_control, escape-Spells,
  escape-ne-nil, all_name_chars-no_control,
}

-- The generated expression of `authorize`: f"{name}({escaped})".
abbrev pub exact_expression : Text → Text → Text
exact_expression tool escaped = tool ++ (b'(' ∷ (escaped ++ (b')' ∷ [])))

-- Every tool that the rule grammar knows has a name of the grammar's form.
all_shaped : List Text → Bool
all_shaped [] = true
all_shaped (name ∷ names) = name_shaped name && all_shaped names

all_shaped-any :
    (names : List Text) (tool : Text)
    → any (text_eq tool) names ≡ true
    → all_shaped names ≡ true
    → name_shaped tool ≡ true
unfolding any all_shaped
all_shaped-any [] tool found h = cc
all_shaped-any (name ∷ names) tool found h = elim (Bool-cases (text_eq tool name)) [
  | inl e ↦ subst (λ n. name_shaped n ≡ true) (sym ((text_eq_iff tool name).0 e)) (ground arith)
  | inr e ↦ all_shaped-any names tool (ground arith) (ground arith)
]

known_tools-shaped : all_shaped known_tools ≡ true
unfolding all_shaped all_name_chars
known_tools-shaped = refl

mcp_tool-name_chars : (s : Text) → mcp_tool s ≡ true → all_name_chars s ≡ true
unfolding mcp_tool all_name_chars
mcp_tool-name_chars (a ∷ b ∷ c ∷ s) h = ground arith
mcp_tool-name_chars [] h = cc
mcp_tool-name_chars (a ∷ []) h = cc
mcp_tool-name_chars (a ∷ b ∷ []) h = cc

mcp_server-name_chars : (room : ℕ) (s : Text) → mcp_server room s ≡ true → all_name_chars s ≡ true
unfolding mcp_server all_name_chars
mcp_server-name_chars room [] h = refl
mcp_server-name_chars zero (c ∷ s) h = mcp_tool-name_chars (c ∷ s) h
mcp_server-name_chars (suc room) (c ∷ s) h = elim (Bool-cases (mcp_tool (c ∷ s))) [
  | inl e ↦ mcp_tool-name_chars (c ∷ s) e
  | inr e ↦ ground (arith, mcp_server-name_chars room s)
]

mcp_prefix-shaped :
    (m c p u v a : ℕ) (s : Text)
    → text_eq (m ∷ c ∷ p ∷ u ∷ v ∷ []) (codes "mcp__") ≡ true
    → (leb b'a' a && leb a b'z') ≡ true
    → all_name_chars s ≡ true
    → ltb 64 (length (m ∷ c ∷ p ∷ u ∷ v ∷ a ∷ s)) ≡ false
    → name_shaped (m ∷ c ∷ p ∷ u ∷ v ∷ a ∷ s) ≡ true
unfolding text_eq all_name_chars
mcp_prefix-shaped m c p u v a s start first rest fits = ground arith

is_mcp_tool-shaped :
    (tool : Text) → is_mcp_tool tool ≡ true → ltb 64 (length tool) ≡ false → name_shaped tool ≡ true
unfolding is_mcp_tool
is_mcp_tool-shaped (m ∷ c ∷ p ∷ u ∷ v ∷ a ∷ s) h fits =
    mcp_prefix-shaped m c p u v a s (ground arith) (ground arith)
      (mcp_server-name_chars 31 s (ground arith)) fits
is_mcp_tool-shaped [] h fits = cc
is_mcp_tool-shaped (a ∷ []) h fits = cc
is_mcp_tool-shaped (a ∷ b ∷ []) h fits = cc
is_mcp_tool-shaped (a ∷ b ∷ c ∷ []) h fits = cc
is_mcp_tool-shaped (a ∷ b ∷ c ∷ d ∷ []) h fits = cc
is_mcp_tool-shaped (a ∷ b ∷ c ∷ d ∷ e ∷ []) h fits = cc

is_known_tool-shaped : (tool : Text) → is_known_tool tool ≡ true → name_shaped tool ≡ true
unfolding is_known_tool
is_known_tool-shaped tool h = elim (Bool-cases (any (text_eq tool) known_tools)) [
  | inl e ↦ all_shaped-any known_tools tool e known_tools-shaped
  | inr e ↦ is_mcp_tool-shaped tool (known_elsewhere _ _ _ e h).1 (known_elsewhere _ _ _ e h).0
]
  where
    known_elsewhere :
        (a b c : Bool) → a ≡ false → (a || not b && c) ≡ true → (b ≡ false) × (c ≡ true)
    known_elsewhere a b c e h = ground arith

name_shaped-no_control : (tool : Text) → name_shaped tool ≡ true → any is_control tool ≡ false
unfolding any
name_shaped-no_control [] h = refl
name_shaped-no_control (c ∷ name) h = ground (arith, all_name_chars-no_control name)

starts_in_space-exact :
    (tool rest : Text) → name_shaped tool ≡ true → starts_in_space (tool ++ rest) ≡ false
unfolding starts_in_space
starts_in_space-exact [] rest h = cc
starts_in_space-exact (c ∷ name) rest h = ground arith

ends_in_space-exact : (tool escaped : Text) → ends_in_space (exact_expression tool escaped) ≡ false
unfolding is_space
ends_in_space-exact tool escaped =
    ap ends_in_space (sym (append_assoc tool (b'(' ∷ escaped) (b')' ∷ [])))
    ∙ ends_in_space-snoc (tool ++ (b'(' ∷ escaped)) b')'

any_control-exact :
    (tool escaped : Text)
    → any is_control tool ≡ false
    → any is_control escaped ≡ false
    → any is_control (exact_expression tool escaped) ≡ false
unfolding any
any_control-exact tool escaped h k = ground (
  arith,
  any-append is_control tool (b'(' ∷ (escaped ++ (b')' ∷ []))),
  any-append is_control escaped (b')' ∷ []),
)

rule_groups-exact :
    (tool escaped : Text)
    → name_shaped tool ≡ true
    → any is_control escaped ≡ false
    → escaped ≢ []
    → rule_groups (exact_expression tool escaped) ≡ some (tool, escaped)
unfolding rule_groups
rule_groups-exact [] escaped h k some_text = cc
rule_groups-exact (c ∷ name) [] h k some_text = absurd (some_text refl)
rule_groups-exact (c ∷ name) (e ∷ escaped) h k some_text =
    ground
      (arith, take_name-name 63 name ((e ∷ escaped) ++ (b')' ∷ [])), take_body-body (e ∷ escaped) k)

abbrev pub exact_rule : Text → Text → RuleEffect → RuleSource → Rule
exact_rule tool value effect source = record {
  expression = exact_expression tool (escape value);
  tool_name = tool;
  pattern = escape value;
  effect = effect;
  source = source;
  exact = true;
  matcher = map lit value;
}

split_rule-exact :
    (tool escaped : Text)
    → name_shaped tool ≡ true
    → any is_control escaped ≡ false
    → escaped ≢ []
    → split_rule (exact_expression tool escaped) ≡ ok (tool, escaped)
unfolding split_rule
split_rule-exact tool escaped h k some_text = rw (
  starts_in_space-exact tool (b'(' ∷ (escaped ++ (b')' ∷ []))) h,
  ends_in_space-exact tool escaped,
  any_control-exact tool escaped (name_shaped-no_control tool h) k,
  rule_groups-exact tool escaped h k some_text,
)

compile_pattern-escape :
    (c : ℕ) (t : Text) → compile_pattern (escape (c ∷ t)) ≡ ok (map lit (c ∷ t), true)
unfolding compile_pattern
compile_pattern-escape c t =
    rw (compile_glob-Spells (escape-Spells (c ∷ t)) (escape-ne-nil c t), compile_pattern) refl

escape_exact_target-nil : {escaped : Text} → ¬ (escape_exact_target [] ≡ ok escaped)
unfolding escape_exact_target
escape_exact_target-nil h = cc

escape_exact_target-eq-ok :
    (c : ℕ) (t escaped : Text)
    → escape_exact_target (c ∷ t) ≡ ok escaped
    → (any is_control (c ∷ t) ≡ false) × (escape (c ∷ t) ≡ escaped)
unfolding escape_exact_target
escape_exact_target-eq-ok c t escaped h = if_ok _ _ _ h
  where
    if_ok :
        (b : Bool) (e f : Text)
        → (if b then err bad_target else ok e) ≡ ok f
        → (b ≡ false) × (e ≡ f)
    if_ok b e f h = ground arith

-- For a tool that the rule grammar knows and a target that can be escaped, parsing
-- `tool(escaped target)` gives an exact rule for that tool whose matcher is the target's own
-- characters.
pub parse_rule-exact :
    (tool value escaped : Text) (effect : RuleEffect) (source : RuleSource)
    → is_known_tool tool ≡ true
    → escape_exact_target value ≡ ok escaped
    → parse_rule (exact_expression tool escaped) effect source
      ≡ ok (exact_rule tool value effect source)
unfolding parse_rule
parse_rule-exact tool [] escaped effect source known h = absurd (escape_exact_target-nil h)
parse_rule-exact tool (c ∷ t) escaped effect source known h =
    let (printable, same) = escape_exact_target-eq-ok c t escaped h in
    subst
      (λ e.
        parse_rule (exact_expression tool e) effect source
        ≡ ok (exact_rule tool (c ∷ t) effect source))
      same
      (rw
        (
          split_rule-exact tool (escape (c ∷ t)) (is_known_tool-shaped tool known)
              (escape-no_control (c ∷ t) printable) (escape-ne-nil c t),
          known,
          compile_pattern-escape c t,
        )
        refl)

-- For a tool that has the shape of a name and is not known, the same expression is refused.
pub parse_rule-unknown :
    (tool value escaped : Text) (effect : RuleEffect) (source : RuleSource)
    → name_shaped tool ≡ true
    → is_known_tool tool ≡ false
    → escape_exact_target value ≡ ok escaped
    → parse_rule (exact_expression tool escaped) effect source ≡ err unknown_tool
unfolding parse_rule
parse_rule-unknown tool [] escaped effect source shaped unknown h =
    absurd (escape_exact_target-nil h)
parse_rule-unknown tool (c ∷ t) escaped effect source shaped unknown h =
    let (printable, same) = escape_exact_target-eq-ok c t escaped h in
    subst (λ e. parse_rule (exact_expression tool e) effect source ≡ err unknown_tool) same
      (rw
        (
          split_rule-exact tool (escape (c ∷ t)) shaped (escape-no_control (c ∷ t) printable)
              (escape-ne-nil c t),
          unknown,
        )
        refl)

-- That rule applies to its own tool and target, and to nothing else.
pub applies-exact :
    (tool value : Text) (effect : RuleEffect) (source : RuleSource) (tool' value' : Text)
    → applies (exact_rule tool value effect source) tool' value'
      ≡ (text_eq tool tool' && text_eq value value')
unfolding applies
applies-exact tool value effect source tool' value' = rw (fullmatch-literal value value')
