-- ===== src/Permissions/Rules.antt =====
-- permissions/rules.py: parsing `tool(pattern)` rules, escaping a target, selecting a rule.
pub mod Selection
pub mod Fields
pub mod Grammar
pub mod Roundtrip
use fakuicode.Prelude.{
  ℕ, zero, suc, Bool, true, false, not, ◌&&◌, ◌||◌, Option, none, some, String, List, [], ◌∷◌, ◌++◌,
  map, Text, codes, text_eq, any, filter, length, leb, ltb, ◌==◌, if◌then◌else◌, is_space,
}
use fakuicode.Matching.{GlobError, ok as glob_ok, err as glob_err, Piece, is_meta, compile_glob}
use fakuicode.Permissions.Models.{Rule, RuleEffect, RuleSource, matches}

-- `RuleSyntaxError` by its message. `bad_glob bad_range` is the `re.error` of `compile_glob`,
-- which is no `GlobSyntaxError` and so leaves `parse_rule` as it is.
pub data RuleError : Type 0 where
  untrimmed bad_syntax unknown_tool bad_target : RuleError
  bad_glob : GlobError → RuleError

pub data Result {ℓ} (A : Type ℓ) : Type ℓ where
  ok : A → Result A
  err : RuleError → Result A

infixl 10 ◌>>=◌
abbrev pub ◌>>=◌ {ℓ κ} : {A : Type ℓ} {B : Type κ} → Result A → (A → Result B) → Result B
ok a >>= f = f a
err e >>= f = err e

abbrev pub known_tools : List Text
known_tools = map codes (
    "read_file" ∷ "write_file" ∷ "edit_file" ∷ "run_command" ∷ "find_files" ∷ "search_code"
    ∷ "team_create" ∷ "team_task_create" ∷ "team_task_get" ∷ "team_task_list" ∷ "team_task_update"
    ∷ "team_task_delete" ∷ "team_message_send" ∷ "team_inbox_list" ∷ "team_plan_submit"
    ∷ "team_plan_review" ∷ "team_member_start" ∷ "team_member_assign" ∷ "team_member_resume"
    ∷ "team_member_stop" ∷ "team_task_complete" ∷ "team_integrate_task" ∷ "team_finalize_prepare"
    ∷ "team_finalize" ∷ [])

-- `_CONTROL_PATTERN`
abbrev pub is_control : ℕ → Bool
is_control c = leb c 0x1f || c == 0x7f

pub ends_in_space : Text → Bool
unfolding is_space
ends_in_space [] = false
ends_in_space (c ∷ []) = is_space c
ends_in_space (c ∷ d ∷ s) = ends_in_space (d ∷ s)

starts_in_space : Text → Bool
unfolding is_space
starts_in_space [] = false
starts_in_space (c ∷ s) = is_space c

abbrev name_start : ℕ → Bool
name_start c = leb b'a' c && leb c b'z' || c == b'_'

abbrev name_char : ℕ → Bool
name_char c = name_start c || leb b'0' c && leb c b'9'

-- `[a-z0-9_]{0,room}` up to a `(`: the name, and what stands behind the bracket.
pub take_name : ℕ → Text → Option (Text × Text)
take_name room [] = none
take_name zero (c ∷ s) = if c == b'(' then some ([], s) else none
take_name (suc room) (c ∷ s) =
    let rest = take_name room s in
    if c == b'('
    then some ([], s)
    else if name_char c
    then elim rest [ none ↦ none | some (name, body) ↦ some (c ∷ name, body) ]
    else none

-- `(.*)\)` at the end of the text; `.` does not match a line feed.
pub take_body : Text → Option Text
take_body [] = none
take_body (c ∷ []) = if c == b')' then some [] else none
take_body (c ∷ d ∷ s) =
    if c == 10 then none else elim (take_body (d ∷ s)) [ none ↦ none | some body ↦ some (c ∷ body) ]

-- `_RULE_PATTERN.fullmatch(expression)` and its two groups.
abbrev non_empty_body : Text → Option Text → Option (Text × Text)
non_empty_body name none = none
non_empty_body name (some []) = none
non_empty_body name (some (c ∷ body)) = some (name, c ∷ body)

rule_groups : Text → Option (Text × Text)
unfolding take_name take_body
rule_groups [] = none
rule_groups (c ∷ s) =
    if name_start c
    then elim (take_name 63 s) [
      | none ↦ none
      | some (name, rest) ↦ non_empty_body (c ∷ name) (take_body rest)
    ]
    else none

-- `_MCP_TOOL_PATTERN`: `mcp__`, a server name of at most 32 characters, `__`, a tool name.
unfoldable pub all_name_chars : Text → Bool
all_name_chars [] = true
all_name_chars (c ∷ s) = name_char c && all_name_chars s

mcp_tool : Text → Bool
unfolding all_name_chars
mcp_tool (a ∷ b ∷ c ∷ s) = a == b'_' && b == b'_' && name_start c && all_name_chars s
mcp_tool _ = false

mcp_server : ℕ → Text → Bool
unfolding mcp_tool
mcp_server room [] = false
mcp_server zero (c ∷ s) = mcp_tool (c ∷ s)
mcp_server (suc room) (c ∷ s) = mcp_tool (c ∷ s) || name_char c && mcp_server room s

unfoldable pub is_mcp_tool : Text → Bool
unfolding mcp_server text_eq
is_mcp_tool (m ∷ c ∷ p ∷ u ∷ v ∷ a ∷ s) =
    text_eq (m ∷ c ∷ p ∷ u ∷ v ∷ []) (codes "mcp__") && leb b'a' a && leb a b'z' && mcp_server 31 s
is_mcp_tool _ = false

unfoldable pub is_known_tool : Text → Bool
unfolding any text_eq is_mcp_tool
is_known_tool name =
    any (text_eq name) known_tools || not (ltb 64 (length name)) && is_mcp_tool name

-- `compile_glob` inside `parse_rule`.
compile_pattern : Text → Result (List Piece × Bool)
unfolding compile_glob
compile_pattern pattern = elim (compile_glob pattern) [
  | glob_ok c ↦ ok c
  | glob_err e ↦ err (bad_glob e)
]

split_rule : Text → Result (Text × Text)
unfolding rule_groups any ends_in_space starts_in_space
split_rule expression =
    if starts_in_space expression || ends_in_space expression || any is_control expression
    then err untrimmed
    else elim (rule_groups expression) [ none ↦ err bad_syntax | some groups ↦ ok groups ]

unfoldable pub parse_rule : Text → RuleEffect → RuleSource → Result Rule
unfolding split_rule is_known_tool compile_pattern
parse_rule expression effect source = do
  (tool_name, pattern) ← split_rule expression
  if not (is_known_tool tool_name) then err unknown_tool else do
    (matcher, exact) ← compile_pattern pattern
    ok (record {
      expression = expression;
      tool_name = tool_name;
      pattern = pattern;
      effect = effect;
      source = source;
      exact = exact;
      matcher = matcher;
    })

-- The loop of `escape_exact_target`.
unfoldable pub escape : Text → Text
escape [] = []
escape (c ∷ s) = let rest = escape s in if is_meta c then b'\\' ∷ c ∷ rest else c ∷ rest

unfoldable pub escape_exact_target : Text → Result Text
unfolding escape any
escape_exact_target [] = err bad_target
escape_exact_target (c ∷ s) = if any is_control (c ∷ s) then err bad_target else ok (escape (c ∷ s))

abbrev pub denies : Rule → Bool
denies rule = elim rule.effect [ RuleEffect.deny ↦ true | RuleEffect.allow ↦ false ]

-- `(not a.exact, a.effect is not DENY) < (not b.exact, b.effect is not DENY)` on tuples.
pub key_lt : Rule → Rule → Bool
key_lt a b =
    if a.exact
    then (if b.exact then denies a && not (denies b) else true)
    else (if b.exact then false else denies a && not (denies b))

-- `min` keeps the first of equal keys.
min_rule : Rule → List Rule → Rule
min_rule best [] = best
min_rule best (rule ∷ rules) = min_rule (if key_lt rule best then rule else best) rules

first_of_matches : List Rule → Option Rule
unfolding min_rule
first_of_matches [] = none
first_of_matches (rule ∷ rules) = some (min_rule rule rules)

unfoldable pub applies : Rule → Text → Text → Bool
unfolding text_eq matches
applies rule tool_name target = text_eq rule.tool_name tool_name && matches rule target

unfoldable pub select_rule : List Rule → Text → Text → Option Rule
unfolding first_of_matches filter applies key_lt
select_rule rules tool_name target =
    first_of_matches (filter (λ rule. applies rule tool_name target) rules)
