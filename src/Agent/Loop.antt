-- ===== src/Agent/Loop.antt =====
-- agent.py: `AgentRunner.run` and `_run_loop`, a function for each stretch of a round. What a run
-- yields is a list of events; its ending tells whether the generator returned or raised.
pub mod Terminal
pub mod Ends
pub mod ToolsReplay
pub mod Replay
use fakuicode.Prelude.{
  ℕ, zero, suc, ◌+◌, ◌-◌, ◌*◌, ◌/◌, Bool, true, false, not, ◌&&◌, ◌||◌, Option, none, some, List,
  [], ◌∷◌, ◌++◌, map, Text, codes, is_empty, strip, ltb, ◌==◌, length, if◌then◌else◌,
}
use fakuicode.Context.{ToolCall, ToolResult, ProviderMessageState, Role, AgentMessage}
use fakuicode.Context.Messages.{message}
use fakuicode.Subagents.TaskState.{TokenUsage}
use fakuicode.Agent.{
  AgentMode, execute, plan, EventKind, text_delta, Phase, model, AgentStreamEvent, event,
  ContextStatus, AgentRequest,
}
use fakuicode.Agent.Errors.{ProviderError, plain_error, provider_error_message}
use fakuicode.Agent.Streams.{
  Streamer, Streamed, Stop, streamed, cancelled, rejected, failed, Recovery, Attempt,
  stream_with_retries, status_event,
}
use fakuicode.Agent.Collector.{StreamCollector, new_collector, join, merge_provider_states}
use fakuicode.Agent.Batches.{answer_calls}
use fakuicode.Agent.ToolResults.{Tools, Failure, incompatible_state, Batched}
use fakuicode.Agent.Requests.{
  AgentTurnContext, RequestSource, HookPrompts, request, append_hook_prompts, plan_instruction,
}
use fakuicode.Agent.Runner.{
  HookPayload, turn_start, turn_end, pre_model_request, post_model_response, Preparation, ready,
  limited, unmanaged, ContextManager, Runner, LoopState, Ending, returned, raised, Output,
  progress_event, result_event, cancelled_event, error_event, completed_event,
  missing_final_response, decimal, assistant_message, results_message, is_plan, or_else, emits,
  finish, at,
}
use fakuicode.Agent.Rounds.{answered, hook, post_model_hook, tools_round}

module _ {W : Type 0} (runner : Runner W) (mode : AgentMode) where
  abbrev observe_usage : Option (ContextManager W) → Option TokenUsage → Option AgentRequest → W → W
  observe_usage (some manager) (some counts) (some sent) w = manager.observe_usage sent counts w
  observe_usage _ _ _ w = w

  abbrev model_failed : ℕ → Text → StreamCollector → LoopState W → Output W
  model_failed n text c st =
      finish (error_event text ∷ [])
        (at st (post_model_hook runner mode n (codes "failed") c st.world))

  after_stream : Stop → ℕ → StreamCollector → LoopState W → (LoopState W → Output W) → Output W
  unfolding tools_round join merge_provider_states
  after_stream cancelled n c st next =
      finish (cancelled_event ∷ [])
        (at st (post_model_hook runner mode n (codes "cancelled") c st.world))
  after_stream rejected n c st next = model_failed n (provider_error_message plain_error) c st
  after_stream (failed e) n c st next = model_failed n (provider_error_message e) c st
  after_stream streamed n c st next = elim c.completed [
    | true ↦
        let w = post_model_hook runner mode n (codes "completed") c st.world in
        answered runner mode c.tool_calls n c
          (at st (observe_usage runner.context_manager c.latest_usage st.last_successful_request w))
          next
    | false ↦
        model_failed n (codes "Agent stopped because the provider stream ended unexpectedly.") c st
  ]

  abbrev recovery : Option (ContextManager W) → Option (AgentRequest → W → Recovery × W)
  recovery none = none
  recovery (some manager) = some manager.recover_overflow

  abbrev pub streamer : ℕ → Streamer W
  streamer n = record {
    is_cancelled = runner.tools.is_cancelled;
    invoke = runner.invoke (plan_instruction mode n);
    recover_overflow = recovery runner.context_manager;
    retry_provider_errors = runner.retry_provider_errors;
  }

  stream_round : ℕ → AgentRequest → LoopState W → (LoopState W → Output W) → Output W
  unfolding after_stream stream_with_retries plan_instruction
  stream_round n sent st next =
      let s = stream_with_retries (streamer n) sent new_collector st.world in
      emits s.events (
        after_stream s.stop n s.collector
          (record st {
            last_successful_request = or_else s.successful st.last_successful_request;
            world = s.world;
          })
          next)

  abbrev status_events : Option ContextStatus → List AgentStreamEvent
  status_events none = []
  status_events (some status) = status_event status ∷ []

  abbrev with_pending : Option (HookPrompts W) → AgentRequest → W → AgentRequest × W
  with_pending none sent w = (sent, w)
  with_pending (some hooks) sent w =
      let (prompts, w') = hooks.consume_pending_prompts w in (append_hook_prompts sent prompts, w')

  abbrev prepared : ℕ → Preparation × W → LoopState W → (LoopState W → Output W) → Output W
  prepared n (limited status, w) st next = emits (status_event status ∷ []) (
      model_failed n (codes "Agent stopped because context cannot be sent safely.") new_collector
        (at st w))
  prepared n (unmanaged, w) st next =
      model_failed n (codes "Agent stopped because context preparation failed.") new_collector
        (at st w)
  prepared n (ready sent status, w) st next =
      let (sent', w') = with_pending runner.source.hook_prompts sent w in
      emits (status_events status) (stream_round n sent' (at st w') next)

  abbrev prepare :
      Option (ContextManager W)
      → ℕ
      → AgentRequest
      → LoopState W
      → (LoopState W → Output W)
      → Output W
  prepare none n sent st next = stream_round n sent st next
  prepare (some manager) n sent st next = prepared n (manager.prepare_request sent st.world) st next

  module _ (context : AgentTurnContext) where
    round : ℕ → (LoopState W → Output W) → LoopState W → Output W
    unfolding stream_round request append_hook_prompts
    round n next st =
        let (stop, w₁) =
          runner.tools.is_cancelled (runner.set_parent_messages st.history st.world) in
        elim stop [
          | true ↦ finish (cancelled_event ∷ []) (at st w₁)
          | false ↦
              let w₂ = hook runner mode (pre_model_request n (length st.history)) w₁ in
              let (sent, w₃) = request runner.source st.history mode n context w₂ in
              emits (progress_event n model ∷ [])
                (prepare runner.context_manager n sent (at st w₃) next)
        ]

    -- `for round_number in range(...)`, by the rounds that are left.
    rounds : ℕ → ℕ → LoopState W → Output W
    unfolding round
    rounds zero n st = finish [] st
    rounds (suc left) n st = round n (rounds left (n + 1)) st

    -- `_run_loop`; `max_iterations` rounds are enough, since the last one ends the run.
    unfoldable pub run_loop : List AgentMessage → Option AgentRequest → W → Output W
    unfolding rounds
    run_loop messages last_successful_request w = rounds runner.max_iterations 1 (record {
      history = messages;
      had_tool_results = false;
      consecutive_unknown = 0;
      last_successful_request = last_successful_request;
      world = runner.begin_run mode w;
    })

    abbrev outcome_after : EventKind → Text → Text
    outcome_after EventKind.completed outcome = codes "completed"
    outcome_after EventKind.cancelled outcome = codes "cancelled"
    outcome_after EventKind.error outcome = codes "failed"
    outcome_after _ outcome = outcome

    turn_outcome : Text → List AgentStreamEvent → Text
    turn_outcome outcome [] = outcome
    turn_outcome outcome (e ∷ events) = turn_outcome (outcome_after e.kind outcome) events

    -- `run`, with the hooks at both ends of the turn.
    unfoldable pub run : List AgentMessage → Option AgentRequest → W → Output W
    unfolding run_loop turn_outcome
    run messages last_successful_request w =
        let o =
          run_loop messages last_successful_request
            (hook runner mode (turn_start (length messages)) w) in
        record o {
          final = at o.final (
              hook runner mode (turn_end (length messages) (turn_outcome (codes "failed") o.events))
                o.final.world);
        }
