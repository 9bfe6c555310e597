-- ===== src/Permissions/Samples.antt =====
-- Rules, decisions and authorizations of a small project: `write_file(src/*)` is denied by the
-- user, `edit_file(notes.md)` was approved for the session.
use fakuicode.Prelude.{
  ◌≡◌, ◌≤◌, refl, true, false, none, some, [], ◌∷◌, ◌++◌, map, codes, text_eq, arith, In, here,
}
use fakuicode.Matching.{lit, any_string, fullmatch}
use fakuicode.Permissions.Models.{
  PermissionMode, DecisionKind, RuleEffect, RuleSource, Rule, PermissionSubject,
}
use fakuicode.Permissions.Rules.{
  ok, applies, select_rule, parse_rule, escape_exact_target, is_known_tool,
}
use fakuicode.Permissions.Rules.Selection.{select_rule-Precedes}
use fakuicode.Permissions.Rules.Roundtrip.{exact_rule, exact_expression, parse_rule-exact}
use fakuicode.Permissions.Engine.{
  Snapshot, Guard, decide, after_guard, decide_by_rules, select_deny, decide_selected,
  select_layered_rule, decide_unselected, decide_by_mode, rule_decision,
}
use fakuicode.Permissions.Engine.Modes.{mode_rank, kind_rank, decide_mono}
use fakuicode.Permissions.Engine.Boundaries.{IsInside, decide-IsInside}
use fakuicode.Permissions.Engine.Grounds.{Grounds, decide-Grounds}
use fakuicode.Permissions.Engine.Questions.{IsUndecided, ask-IsUndecided}

abbrev pub source_rule : RuleEffect → RuleSource → Rule
source_rule effect source = record {
  expression = codes "write_file(src/*)";
  tool_name = codes "write_file";
  pattern = codes "src/*";
  effect = effect;
  source = source;
  exact = false;
  matcher = map lit (codes "src/") ++ any_string ∷ [];
}

abbrev pub notes_rule : Rule
notes_rule = exact_rule (codes "edit_file") (codes "notes.md") RuleEffect.allow RuleSource.session

abbrev pub project : Snapshot
project = record {
  mode = PermissionMode.default;
  user_rules = source_rule RuleEffect.deny RuleSource.user ∷ [];
  project_shared_rules = [];
  project_local_rules = [];
  project_trusted = false;
  locked = false;
}

abbrev pub no_objection : Guard
no_objection command = none

abbrev pub notes : PermissionSubject
notes = record { tool_name = codes "edit_file"; target = codes "notes.md"; read_only = false }

parse_source :
    parse_rule (codes "write_file(src/*)") RuleEffect.deny RuleSource.user
    ≡ ok (source_rule RuleEffect.deny RuleSource.user)
unfolding parse_rule
parse_source = refl

escape_notes : escape_exact_target (codes "a*b") ≡ ok (codes "a\\*b")
unfolding escape_exact_target
escape_notes = refl

pub knows_edit : is_known_tool (codes "edit_file") ≡ true
unfolding is_known_tool
knows_edit = refl

select_source :
    select_rule
      (source_rule RuleEffect.allow RuleSource.user
        ∷ source_rule RuleEffect.deny RuleSource.user
        ∷ [])
      (codes "write_file")
      (codes "src/a.py")
    ≡ some (source_rule RuleEffect.deny RuleSource.user)
unfolding select_rule fullmatch
select_source = refl

allowed_source :
    applies (source_rule RuleEffect.allow RuleSource.user) (codes "write_file") (codes "src/a.py")
    ≡ true
unfolding applies fullmatch text_eq
allowed_source = refl

select_rule-Precedes_example :
    (In (source_rule RuleEffect.deny RuleSource.user) (
        source_rule RuleEffect.allow RuleSource.user
        ∷ source_rule RuleEffect.deny RuleSource.user
        ∷ [])
      × (applies
            (source_rule RuleEffect.deny RuleSource.user)
            (codes "write_file")
            (codes "src/a.py")
          ≡ true))
    × (false ≡ true → false ≡ true)
    × (false ≡ false → RuleEffect.allow ≡ RuleEffect.deny → RuleEffect.deny ≡ RuleEffect.deny)
select_rule-Precedes_example =
    select_rule-Precedes
      (source_rule RuleEffect.allow RuleSource.user
        ∷ source_rule RuleEffect.deny RuleSource.user
        ∷ [])
      (codes "write_file") (codes "src/a.py") (source_rule RuleEffect.deny RuleSource.user)
      (source_rule RuleEffect.allow RuleSource.user) select_source here allowed_source

parse_rule-exact_example :
    parse_rule
      (exact_expression (codes "edit_file") (codes "a\\*b"))
      RuleEffect.allow
      RuleSource.project_local
    ≡ ok (exact_rule (codes "edit_file") (codes "a*b") RuleEffect.allow RuleSource.project_local)
parse_rule-exact_example =
    parse_rule-exact (codes "edit_file") (codes "a*b") (codes "a\\*b") RuleEffect.allow
      RuleSource.project_local knows_edit escape_notes

notes_allowed :
    (decide project no_objection notes (notes_rule ∷ []) none false false).kind ≡ DecisionKind.allow
unfolding decide after_guard text_eq decide_by_rules select_deny select_rule decide_selected
    select_layered_rule fullmatch rule_decision
notes_allowed = refl

decide-IsInside_example : IsInside project no_objection notes (notes_rule ∷ []) false
decide-IsInside_example =
    decide-IsInside project no_objection notes (notes_rule ∷ []) none false false notes_allowed

decide-Grounds_example : Grounds project notes (notes_rule ∷ []) PermissionMode.default false
decide-Grounds_example =
    decide-Grounds project notes (notes_rule ∷ []) no_objection none false false refl notes_allowed

decide_mono_example :
    kind_rank (decide project no_objection notes [] (some PermissionMode.strict) false false).kind
    ≤ kind_rank
        (decide project no_objection notes [] (some PermissionMode.trusted) false false).kind
unfolding mode_rank
decide_mono_example =
    decide_mono project no_objection notes [] PermissionMode.strict PermissionMode.trusted
      strict_below_trusted false false
  where
    strict_below_trusted : mode_rank PermissionMode.strict ≤ mode_rank PermissionMode.trusted
    strict_below_trusted = omega arith

notes_asked : (decide project no_objection notes [] none false false).kind ≡ DecisionKind.ask
unfolding decide after_guard text_eq decide_by_rules select_deny select_rule decide_selected
    select_layered_rule decide_unselected decide_by_mode
notes_asked = refl

ask-IsUndecided_example : IsUndecided project no_objection notes [] false
ask-IsUndecided_example = ask-IsUndecided project no_objection notes [] none false false notes_asked
