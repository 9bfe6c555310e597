-- ===== src/Registry/Samples.antt =====
-- A registry with a tool that is hidden, and one of the host's.
use fakuicode.Prelude.{
  ℕ, ◌+◌, ◌≡◌, refl, true, false, none, some, [], ◌∷◌, Text, codes, text_eq, any, arith,
}
use fakuicode.Context.{ToolCall}
use fakuicode.Permissions.Models.{PermissionScope, DecisionKind, Layer, Reason}
use fakuicode.Permissions.Engine.{decision}
use fakuicode.Registry.{
  Tool, ToolRegistry, ok, empty_registry, register, mark_system, unregister, set_visible_tools,
  lookup, has_name, is_visible,
}
use fakuicode.Registry.Execution.{Host, execute}
use fakuicode.Registry.Execution.Guarded.{Guards, Names, execute-keeps}
use fakuicode.Registry.Scope.{system_tool_stays}
use fakuicode.Registry.Consistent.{start, next, registers, unregisters, at_once, later}

-- A tool that counts its actions.
abbrev counting : Text → Tool ℕ
counting name = record {
  definition = record { name = name; description = []; input_schema = [] };
  read_only = false;
  prepare = λ arguments w. (
    ok (record {
      arguments = arguments;
      target = codes "file";
      permission_scope = PermissionScope.target;
      permission_capability = none;
    }),
    w,
  );
  execute_prepared = λ arguments w. (
    ok (record {
      success = true;
      output = [];
      summary = [];
      duration_seconds = none;
      metadata = none;
    }),
    w + 1,
  );
}

abbrev host : Host ℕ
host = record {
  authorize = λ prepared ro w.
      (ok (decision DecisionKind.allow Reason.allowed_once Layer.user_confirmation), w);
  pre_hook = none;
  post_hook = none;
  reason_text = λ reason. [];
}

abbrev hidden : ToolRegistry ℕ
hidden =
    set_visible_tools (some (codes "read" ∷ [])) true
      (register (counting (codes "write")) empty_registry).0

abbrev writing : ToolCall
writing = record { id = codes "1"; name = codes "write"; arguments = []; argument_error = none }

hidden-invisible : is_visible hidden (codes "write") ≡ false
unfolding is_visible set_visible_tools register any text_eq
hidden-invisible = refl

hidden-Guards : Guards host writing false hidden (λ w. w ≡ 0)
hidden-Guards = record {
  prepares = λ tool w e v h. absurd (ground (arith, v, hidden-invisible));
  authorizes = λ prepared w h. h;
  pre_hooks = λ hook prepared w e h. absurd (ground (arith, e));
  post_hooks = λ hook prepared result outcome w e h. absurd (ground (arith, e));
  acts = λ tool p w a h. absurd (ground (arith, a.visible, hidden-invisible));
}

-- The hidden tool does not act: the count stays at nothing.
execute-keeps_example :
    Names host writing false hidden (execute host writing false hidden 0).0
    × ((execute host writing false hidden 0).1 ≡ 0)
execute-keeps_example = execute-keeps host writing false hidden (λ w. w ≡ 0) hidden-Guards 0 refl

abbrev control : Tool ℕ
control = counting (codes "stop")

abbrev with_control : ToolRegistry ℕ
with_control = (register control empty_registry).0

control_succeeds : (register control empty_registry).1 ≡ none
unfolding any register
control_succeeds = refl

-- Another thread registers a tool between the two sections, and a third one tries to remove the
-- system tool.
abbrev with_both : ToolRegistry ℕ
with_both = mark_system (codes "stop") (register (counting (codes "read")) with_control).0

system_tool_stays_example :
    let s = (unregister (codes "stop") with_both).0 in
    (lookup (codes "stop") s.tools ≡ some control)
    × (has_name (codes "stop") s.system_names ≡ true)
    × (has_name (codes "stop") s.optional_names ≡ false)
system_tool_stays_example =
    system_tool_stays control start control_succeeds
      (later at_once (registers with_control (counting (codes "read"))) tt)
      (next start (unregisters with_both (codes "stop")))
