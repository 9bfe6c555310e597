-- ===== src/Registry/Execution.antt =====
-- `ToolRegistry.execute` of tools/registry.py: the dispatch of a call, from the lookup to the hooks
-- after it. The post hook is told the outcome and the result's summary.
pub mod Guarded
use fakuicode.Prelude.{
  Bool, true, false, not, ◌&&◌, ◌||◌, Option, none, some, List, [], ◌∷◌, ◌++◌, Text, codes, text_eq,
  any, if◌then◌else◌,
}
use fakuicode.Context.{ToolCall, ToolResult}
use fakuicode.Permissions.Models.{Decision, DecisionKind, Layer, Reason}
use fakuicode.Permissions.ManagerState.{PreparedToolCall}
use fakuicode.Registry.{
  ToolPreparation, ToolExecution, Failure, cancelled, output_not_stored, other, tool_error, Result,
  ok, err, Tool, ToolRegistry, has_name, lookup, is_visible,
}

-- What the registry asks: the permission manager, and the hook engine, if there is one. The
-- messages of a decision are those of permissions/manager.py and engine.py.
pub record Host (W : Type 0) : Type 0 where
  pub authorize : PreparedToolCall → Bool → W → Result Decision × W
  pub pre_hook : Option (PreparedToolCall → Bool → W → Option Text × W)
  pub post_hook : Option (PreparedToolCall → ToolResult → Text → Bool → W → W)
  pub reason_text : Reason → Text

-- How `execute` ends: with a result, or with one of the two exceptions that it passes on.
pub data Outcome : Type 0 where
  returned : ToolResult → Outcome
  interrupted unstored : Outcome

abbrev failed_result : ToolCall → Text → Text → ToolResult
failed_result call output summary = record {
  call_id = call.id;
  tool_name = call.name;
  success = false;
  output = output;
  summary = summary;
  duration_seconds = none;
  metadata = none;
}

-- The `PreparedToolCall` of a preparation.
abbrev pub prepared_call : ToolCall → Bool → ToolPreparation → PreparedToolCall
prepared_call call read_only p = record {
  id = call.id;
  name = call.name;
  target = p.target;
  read_only = read_only;
  permission_scope = p.permission_scope;
  permission_capability = p.permission_capability;
}

abbrev is_guard : Layer → Bool
is_guard Layer.dangerous_command = true
is_guard _ = false

module _ {W : Type 0} (host : Host W) (call : ToolCall) (read_only_only : Bool) where
  abbrev post :
      Option (PreparedToolCall → ToolResult → Text → Bool → W → W)
      → PreparedToolCall
      → ToolResult
      → Text
      → W
      → W
  post none prepared result outcome w = w
  post (some hook) prepared result outcome w = hook prepared result outcome read_only_only w

  -- A result that the post hook is told of, `_dispatch_post_hook`.
  abbrev reported : PreparedToolCall → ToolResult → Text → W → Outcome × W
  reported prepared f outcome w = (returned f, post host.post_hook prepared f outcome w)

  -- The handlers of the exceptions, before a call is prepared and after it.
  abbrev unprepared : Failure → W → Outcome × W
  unprepared cancelled w = (interrupted, w)
  unprepared output_not_stored w = (unstored, w)
  unprepared (tool_error message) w =
      (returned ((failed_result call message (codes "tool action was rejected or failed"))), w)
  unprepared other w = (
    returned ((failed_result call (codes "Tool execution failed.") (codes "tool action failed"))),
    w,
  )

  abbrev failed : PreparedToolCall → Failure → W → Outcome × W
  failed prepared cancelled w = (
    interrupted,
    post host.post_hook prepared
        (failed_result call (codes "Tool execution was cancelled.") (codes "tool action cancelled"))
        (codes "cancelled") w,
  )
  failed prepared output_not_stored w = (unstored, w)
  failed prepared (tool_error message) w =
      reported prepared ((failed_result call message (codes "tool action was rejected or failed")))
        (codes "failed") w
  failed prepared other w =
      reported prepared
        ((failed_result call (codes "Tool execution failed.") (codes "tool action failed")))
        (codes "failed") w

  abbrev finished : ToolExecution → ToolResult
  finished x = record {
    call_id = call.id;
    tool_name = call.name;
    success = x.success;
    output = x.output;
    summary = x.summary;
    duration_seconds = x.duration_seconds;
    metadata = x.metadata;
  }

  abbrev executed : PreparedToolCall → Result ToolExecution × W → Outcome × W
  executed prepared (err f, w) = failed prepared f w
  executed prepared (ok x, w) =
      reported prepared (finished x) (if x.success then codes "ok" else codes "failed") w

  abbrev denied_summary : Decision → Text
  denied_summary d =
      if is_guard d.layer
      then codes "permission denied: " ++ host.reason_text d.reason
      else codes "permission denied"

  abbrev denied : PreparedToolCall → Decision → W → Outcome × W
  denied prepared d w =
      reported prepared
        ((failed_result call (codes "Permission denied: " ++ host.reason_text d.reason)
          (denied_summary d)))
        (codes "denied") w

  module _ (tool : Tool W) where
    run_tool : PreparedToolCall → Text → W → Outcome × W
    run_tool prepared arguments w = executed prepared (tool.execute_prepared arguments w)

    -- `decision.kind is not DecisionKind.ALLOW`
    abbrev by_kind : DecisionKind → PreparedToolCall → Text → Decision → W → Outcome × W
    by_kind DecisionKind.allow prepared arguments d w = run_tool prepared arguments w
    by_kind _ prepared arguments d w = denied prepared d w

    abbrev decided : PreparedToolCall → Text → Result Decision × W → Outcome × W
    decided prepared arguments (err f, w) = failed prepared f w
    decided prepared arguments (ok d, w) = by_kind d.kind prepared arguments d w

    -- System tools are not authorized.
    authorized : Bool → PreparedToolCall → Text → W → Outcome × W
    unfolding run_tool
    authorized true prepared arguments w = run_tool prepared arguments w
    authorized false prepared arguments w =
        decided prepared arguments (host.authorize prepared read_only_only w)

    abbrev hooked : Bool → PreparedToolCall → Text → Option Text × W → Outcome × W
    hooked system_tool prepared arguments (some reason, w) =
        reported prepared ((failed_result call (codes "Hook 拒绝：" ++ reason) (codes "Hook 已拒绝工具执行")))
          (codes "denied") w
    hooked system_tool prepared arguments (none, w) = authorized system_tool prepared arguments w

    abbrev pre :
        Option (PreparedToolCall → Bool → W → Option Text × W)
        → PreparedToolCall
        → W
        → Option Text × W
    pre none prepared w = (none, w)
    pre (some hook) prepared w = hook prepared read_only_only w

    abbrev after_prepare : Bool → Result ToolPreparation × W → Outcome × W
    after_prepare system_tool (err f, w) = unprepared f w
    after_prepare system_tool (ok p, w) =
        let prepared = prepared_call call tool.read_only p in
        hooked system_tool prepared p.arguments (pre host.pre_hook prepared w)

  abbrev dispatch : Option (Tool W) → Bool → Bool → W → Outcome × W
  dispatch none visible system_tool w =
      unprepared (tool_error (codes "Unknown tool '" ++ (call.name ++ codes "'."))) w
  dispatch (some tool) visible system_tool w =
      if visible
      then after_prepare tool system_tool (tool.prepare call.arguments w)
      else unprepared
          (tool_error
            (codes "Tool '" ++ (call.name ++ codes "' is not visible in the active Skill scope.")))
          w

  unfoldable pub execute : ToolRegistry W → W → Outcome × W
  unfolding authorized lookup is_visible any
  execute r w =
      dispatch (lookup call.name r.tools) (is_visible r call.name)
        (has_name call.name r.system_names) w
