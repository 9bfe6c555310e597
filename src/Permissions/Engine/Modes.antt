-- ===== src/Permissions/Engine/Modes.antt =====
-- The modes compared.
use fakuicode.Prelude.{ℕ, ◌≤◌, Bool, Option, none, some, List, String, arith}
use fakuicode.Permissions.Models.{PermissionMode, DecisionKind, Rule, Decision, PermissionSubject}
use fakuicode.Permissions.Engine.{
  Snapshot, Guard, select_deny, select_layered_rule, danger, after_guard, decide_by_mode,
  decide_unselected, decide_selected, decide_by_rules, decide,
}

-- `rank` of `_narrower_mode` in manager.py.
unfoldable pub mode_rank : PermissionMode → ℕ
mode_rank PermissionMode.strict = 0
mode_rank PermissionMode.default = 1
mode_rank PermissionMode.trusted = 2

abbrev pub kind_rank : DecisionKind → ℕ
kind_rank DecisionKind.deny = 0
kind_rank DecisionKind.ask = 1
kind_rank DecisionKind.allow = 2

abbrev AtMost : Decision → Decision → Type 0
AtMost d e = kind_rank d.kind ≤ kind_rank e.kind

decide_by_mode_mono :
    (m n : PermissionMode) (subject : PermissionSubject)
    → mode_rank m ≤ mode_rank n
    → AtMost (decide_by_mode m subject) (decide_by_mode n subject)
unfolding decide_by_mode mode_rank
decide_by_mode_mono PermissionMode.strict n subject h = ground arith
decide_by_mode_mono PermissionMode.default n subject h = ground arith
decide_by_mode_mono PermissionMode.trusted n subject h = ground arith

module _ (snapshot : Snapshot) (guard : Guard) (subject : PermissionSubject)
    (session_rules : List Rule) (m n : PermissionMode) (wider : mode_rank m ≤ mode_rank n)
    (preauthorized : Bool) where
  decide_unselected_mono :
      AtMost (decide_unselected subject preauthorized m) (decide_unselected subject preauthorized n)
  unfolding decide_unselected
  decide_unselected_mono = ground (arith, decide_by_mode_mono m n subject wider)

  decide_selected_mono :
      (selected : Option Rule)
      → AtMost
          (decide_selected snapshot subject selected preauthorized m)
          (decide_selected snapshot subject selected preauthorized n)
  unfolding decide_selected
  decide_selected_mono none = ground (arith, decide_unselected_mono)
  decide_selected_mono (some rule) = ground arith

  decide_by_rules_mono :
      (denial : Option Rule)
      → AtMost
          (decide_by_rules snapshot subject session_rules preauthorized m denial)
          (decide_by_rules snapshot subject session_rules preauthorized n denial)
  unfolding decide_by_rules
  decide_by_rules_mono none =
      decide_selected_mono (select_layered_rule snapshot subject session_rules)
  decide_by_rules_mono (some rule) = omega arith

  after_guard_mono :
      (objection : Option String) (d e : Decision)
      → AtMost d e
      → AtMost (after_guard objection d) (after_guard objection e)
  unfolding after_guard
  after_guard_mono none d e h = h
  after_guard_mono (some reason) d e h = omega arith

  -- The same request in a wider mode is never decided more strictly: what a narrower mode allows a
  -- wider one allows, and what a wider mode denies a narrower one denies.
  pub decide_mono :
      (read_only_task : Bool)
      → kind_rank
          (decide snapshot guard subject session_rules (some m) read_only_task preauthorized).kind
        ≤ kind_rank
            (decide snapshot guard subject session_rules (some n) read_only_task preauthorized).kind
  unfolding decide
  decide_mono read_only_task = ground (
    arith,
    after_guard_mono (danger guard subject)
        (decide_by_rules snapshot subject session_rules preauthorized m
          (select_deny snapshot.user_rules subject))
        (decide_by_rules snapshot subject session_rules preauthorized n
          (select_deny snapshot.user_rules subject))
        (decide_by_rules_mono (select_deny snapshot.user_rules subject)),
  )
