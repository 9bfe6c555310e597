-- ===== src/Turns/Samples.antt =====
-- The timeline of a turn with one tool call.
use fakuicode.Prelude.{
  any, false, none, ◌≡◌, refl, true, none, some, List, [], ◌∷◌, ◌++◌, map, codes, strip,
}
use fakuicode.Context.{ToolCall, ToolResult, AgentMessage, Role, TimelineEvent, TimelineEventKind}
use fakuicode.Context.Messages.{message, flushed, messages_from_events}
use fakuicode.Agent.{AgentStreamEvent, EventKind, event, text_delta}
use fakuicode.Agent.Runner.{progress_event, result_event, completed_event}
use fakuicode.Agent.{model, tools}
use fakuicode.Turns.{consume_all, new_recorder}
use fakuicode.Turns.Timeline.{overriding, timeline_roundtrip}
use fakuicode.Turns.Follows.{kept}

abbrev question : AgentMessage
question = message Role.user (codes "read it")

abbrev call : ToolCall
call = record { id = codes "1"; name = codes "read"; arguments = codes "{}"; argument_error = none }

abbrev result : ToolResult
result = record {
  call_id = codes "1";
  tool_name = codes "read";
  success = true;
  output = codes "text";
  summary = codes "done";
  duration_seconds = none;
  metadata = none;
}

abbrev turn_events : List AgentStreamEvent
turn_events =
    progress_event 1 model
    ∷ event text_delta (codes "I read")
    ∷ record (event EventKind.tool_call []) { tool_call = some call }
    ∷ progress_event 1 tools
    ∷ result_event result
    ∷ progress_event 2 model
    ∷ event text_delta (codes "it says text")
    ∷ completed_event
    ∷ []

plain_results : any overriding turn_events ≡ false
unfolding any
plain_results = refl

timeline_roundtrip_example :
    let r = (consume_all turn_events (new_recorder question)).0 in
    kept question ∷ messages_from_events r.appended
    ≡ map kept (r.history ++ flushed r.pending_results)
timeline_roundtrip_example = timeline_roundtrip question turn_events plain_results

-- The events that the session writes.
turn_timeline :
    map (λ (e : TimelineEvent). e.kind) (consume_all turn_events (new_recorder question)).0.appended
    ≡ TimelineEventKind.assistant ∷ TimelineEventKind.tool_call ∷ TimelineEventKind.tool_result
      ∷ TimelineEventKind.assistant ∷ []
unfolding consume_all new_recorder strip
turn_timeline = refl
