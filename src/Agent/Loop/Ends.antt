-- ===== src/Agent/Loop/Ends.antt =====
-- How the rounds of a run end, and the events that they yield before.
use fakuicode.Prelude.{
  ℕ, zero, suc, ◌+◌, ◌≤◌, ◌≡◌, refl, length, ◌∙◌, Bool, true, false, Option, none, some, List, [],
  ◌∷◌, map, any, any-append, bool_ind, if_ind, arith, Text, ◌==◌, codes,
}
use fakuicode.Context.{ToolCall, ToolResult, AgentMessage, ProviderMessageState}
use fakuicode.Agent.{AgentMode, Phase, model, AgentStreamEvent, AgentRequest, ContextStatus}
use fakuicode.Agent.Streams.{stream_with_retries, Stop, streamed, rejected, failed, status_event}
use fakuicode.Agent.Collector.{StreamCollector, new_collector}
use fakuicode.Agent.Streams.Once.{Shows, silence, once, attempt_of, stream_with_retries-IsGood}
use fakuicode.Agent.Batches.{answer_calls}
use fakuicode.Agent.ToolResults.{Batched, Failure}
use fakuicode.Agent.Requests.{AgentTurnContext, request}
use fakuicode.Agent.Runner.{
  Preparation, ready, limited, unmanaged, ContextManager, Runner, LoopState, Output, result_event,
  finish, at, is_plan, progress_event, or_else, pre_model_request, turn_start,
}
use fakuicode.Agent.Loop.{
  after_stream, streamer, stream_round, prepared, prepare, round, rounds, run_loop, run,
  model_failed, status_events, with_pending,
}
use fakuicode.Agent.Rounds.{
  finish_message, close_results, after_tools, tools_round, called, answered, final_events, stripped,
  hook,
}
use fakuicode.Agent.Loop.Terminal.{
  EndsOnce, KeepsContract, broken_off, emits-EndsOnce, ended, forward-not_terminal, is_terminal,
  quiet-not_terminal, with_final,
}

module _ {W : Type 0} where
  module _ (runner : Runner W) (mode : AgentMode) (kept : KeepsContract runner.invoke) where
    shown-not_terminal :
        (n : ℕ) {es : List AgentStreamEvent}
        → Shows (streamer runner mode n) es
        → any is_terminal es ≡ false
    shown-not_terminal n (silence q) = quiet-not_terminal _ q
    shown-not_terminal n (once before sent c w q e) =
        let s = streamer runner mode n in
        let a = s.invoke sent w in
        rw e (
          any-append is_terminal before (attempt_of s sent c w).events
          ∙ ground (
            arith,
            quiet-not_terminal before q,
            forward-not_terminal s.is_cancelled a.0.events c false a.1 (kept _ sent w),
          ))

    stream-not_terminal :
        (n : ℕ) (sent : AgentRequest) (c : StreamCollector) (w : W)
        → any is_terminal (stream_with_retries (streamer runner mode n) sent c w).events ≡ false
    stream-not_terminal n sent c w =
        shown-not_terminal n (stream_with_retries-IsGood (streamer runner mode n) sent c w).shows

    -- The rest of the loop is reached only before the last round.
    abbrev Goes : ℕ → (LoopState W → Output W) → Type 0
    Goes n next = (n == runner.max_iterations) ≡ false → (st : LoopState W) → EndsOnce (next st)

    module _ (n : ℕ) (next : LoopState W → Output W) (go : Goes n next) where
      finish_message-EndsOnce :
          (text : Option Text) (st : LoopState W)
          → EndsOnce (finish_message runner mode text n st next)
      unfolding any
      finish_message-EndsOnce none st =
          if_ind EndsOnce (n == runner.max_iterations) (λ _. ended [] _ refl refl refl refl)
            (λ h. go h st)
      finish_message-EndsOnce (some text) st = ended (_ ∷ _ ∷ []) _ refl refl refl refl

      close_results-EndsOnce :
          (b : Batched W) (st : LoopState W) → EndsOnce (close_results runner mode n b st next)
      unfolding any
      close_results-EndsOnce b st =
          bool_ind EndsOnce b.cancelled (λ _. ended [] _ refl refl refl refl)
            (λ _.
              bool_ind EndsOnce b.stopped (λ _. ended [] _ refl refl refl refl)
                (λ _.
                  finish_message-EndsOnce
                    (stripped runner mode (runner.finish_turn_message b.results st.world))
                    (record st { had_tool_results = true })))

      after_tools-EndsOnce :
          (f : Option Failure) (b : Batched W) (st : LoopState W)
          → EndsOnce (after_tools runner mode f n b st next)
      unfolding any
      after_tools-EndsOnce (some f) b st = broken_off f refl refl
      after_tools-EndsOnce none b st = close_results-EndsOnce b _

      results-not_terminal :
          (results : List ToolResult) → any is_terminal (map result_event results) ≡ false
      unfolding any
      results-not_terminal [] = refl
      results-not_terminal (r ∷ results) = results-not_terminal results

      tools_round-EndsOnce :
          (calls : List ToolCall) (st : LoopState W)
          → EndsOnce (tools_round runner mode n calls st next)
      unfolding tools_round any
      tools_round-EndsOnce calls st =
          let w = runner.set_parent_messages st.history st.world in
          let b = answer_calls runner.tools calls (is_plan mode) st.consecutive_unknown w in
          emits-EndsOnce (progress_event n Phase.tools ∷ map result_event b.results)
            (results-not_terminal b.results) (after_tools-EndsOnce b.failure b (at st w))

      called-EndsOnce :
          (state : Option (Option ProviderMessageState)) (c : StreamCollector) (st : LoopState W)
          → EndsOnce (called runner mode state n c st next)
      unfolding any
      called-EndsOnce none c st = broken_off _ refl refl
      called-EndsOnce (some state) c st = tools_round-EndsOnce c.tool_calls _

      final-EndsOnce :
          (b : Bool) (st : LoopState W) → EndsOnce (finish (final_events runner mode b) st)
      unfolding any
      final-EndsOnce true st = ended (_ ∷ []) _ refl refl refl refl
      final-EndsOnce false st = ended [] _ refl refl refl refl

      answered-EndsOnce :
          (calls : List ToolCall) (c : StreamCollector) (st : LoopState W)
          → EndsOnce (answered runner mode calls n c st next)
      answered-EndsOnce [] c st = final-EndsOnce _ st
      answered-EndsOnce (call ∷ calls) c st = called-EndsOnce _ c st

      model_failed-EndsOnce :
          (text : Text) (c : StreamCollector) (st : LoopState W)
          → EndsOnce (model_failed runner mode n text c st)
      unfolding any
      model_failed-EndsOnce text c st = ended [] _ refl refl refl refl

      after_stream-EndsOnce :
          (stop : Stop) (c : StreamCollector) (st : LoopState W)
          → EndsOnce (after_stream runner mode stop n c st next)
      unfolding after_stream any
      after_stream-EndsOnce Stop.cancelled c st = ended [] _ refl refl refl refl
      after_stream-EndsOnce rejected c st = model_failed-EndsOnce _ c st
      after_stream-EndsOnce (failed e) c st = model_failed-EndsOnce _ c st
      after_stream-EndsOnce streamed c st =
          bool_ind EndsOnce c.completed (λ _. answered-EndsOnce c.tool_calls c _)
            (λ _. model_failed-EndsOnce _ c st)

      stream_round-EndsOnce :
          (sent : AgentRequest) (st : LoopState W)
          → EndsOnce (stream_round runner mode n sent st next)
      unfolding stream_round
      stream_round-EndsOnce sent st =
          let s = stream_with_retries (streamer runner mode n) sent new_collector st.world in
          emits-EndsOnce s.events (stream-not_terminal n sent new_collector st.world) (
            after_stream-EndsOnce s.stop s.collector (record st {
              last_successful_request = or_else s.successful st.last_successful_request;
              world = s.world;
            }))

      statuses-not_terminal :
          (status : Option ContextStatus)
          → any is_terminal (status_events runner mode status) ≡ false
      unfolding any
      statuses-not_terminal none = refl
      statuses-not_terminal (some status) = refl

      prepared-EndsOnce :
          (p : Preparation × W) (st : LoopState W) → EndsOnce (prepared runner mode n p st next)
      unfolding any
      prepared-EndsOnce (limited status, w) st = emits-EndsOnce (status_event status ∷ []) refl (
          model_failed-EndsOnce (codes "Agent stopped because context cannot be sent safely.")
            new_collector (at st w))
      prepared-EndsOnce (unmanaged, w) st =
          model_failed-EndsOnce (codes "Agent stopped because context preparation failed.")
            new_collector (at st w)
      prepared-EndsOnce (ready sent status, w) st =
          let (sent', w') = with_pending runner mode runner.source.hook_prompts sent w in
          emits-EndsOnce (status_events runner mode status) (statuses-not_terminal status)
            (stream_round-EndsOnce sent' (at st w'))

      prepare-EndsOnce :
          (manager : Option (ContextManager W)) (sent : AgentRequest) (st : LoopState W)
          → EndsOnce (prepare runner mode manager n sent st next)
      prepare-EndsOnce none sent st = stream_round-EndsOnce sent st
      prepare-EndsOnce (some manager) sent st = prepared-EndsOnce _ st

      round-EndsOnce :
          (context : AgentTurnContext) (st : LoopState W)
          → EndsOnce (round runner mode context n next st)
      unfolding round any
      round-EndsOnce context st =
          bool_ind EndsOnce
            (runner.tools.is_cancelled (runner.set_parent_messages st.history st.world)).0
            (λ _. ended [] _ refl refl refl refl)
            (λ _.
              let w₁ =
                (runner.tools.is_cancelled (runner.set_parent_messages st.history st.world)).1 in
              let w₂ = hook runner mode (pre_model_request n (length st.history)) w₁ in
              let (sent, w₃) = request runner.source st.history mode n context w₂ in
              emits-EndsOnce (progress_event n model ∷ []) refl
                (prepare-EndsOnce runner.context_manager sent (at st w₃)))

    rounds-EndsOnce :
        (context : AgentTurnContext) (left n : ℕ)
        → n + left ≡ runner.max_iterations
        → (st : LoopState W) → EndsOnce (rounds runner mode context (suc left) n st)
    unfolding rounds
    rounds-EndsOnce context zero n h st =
        round-EndsOnce n _ (λ e. absurd (ground (arith, e, h))) context st
    rounds-EndsOnce context (suc left) n h st =
        round-EndsOnce n _ (λ _. rounds-EndsOnce context left (n + 1) (omega arith)) context st

    all_rounds-EndsOnce :
        (context : AgentTurnContext) (k : ℕ)
        → 1 ≤ k
        → k ≡ runner.max_iterations
        → (st : LoopState W) → EndsOnce (rounds runner mode context k 1 st)
    all_rounds-EndsOnce context zero h e st = absurd (omega arith)
    all_rounds-EndsOnce context (suc left) h e st = rounds-EndsOnce context left 1 (omega arith) st

    -- If a provider tells of no cancellation and no error by events of its own, a run of at least
    -- one round ends: it returns after exactly one terminal event, which is the last, or it raises
    -- and has yielded none.
    pub run-EndsOnce :
        (context : AgentTurnContext) (messages : List AgentMessage)
        (last_successful_request : Option AgentRequest) (w : W)
        → 1 ≤ runner.max_iterations
        → EndsOnce (run runner mode context messages last_successful_request w)
    unfolding run run_loop
    run-EndsOnce context messages last w h = with_final (
        all_rounds-EndsOnce context runner.max_iterations h refl (record {
          history = messages;
          had_tool_results = false;
          consecutive_unknown = 0;
          last_successful_request = last;
          world = runner.begin_run mode (hook runner mode (turn_start (length messages)) w);
        }))
