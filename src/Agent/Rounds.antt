-- ===== src/Agent/Rounds.antt =====
-- agent.py: `_run_loop` from an answer of the model to the end of its round, with the hooks.
use fakuicode.Prelude.{
  ℕ, Bool, true, false, ◌&&◌, Option, none, some, List, [], ◌∷◌, ◌++◌, map, Text, codes, is_empty,
  strip, ◌==◌, length, if◌then◌else◌,
}
use fakuicode.Context.{ToolCall, ProviderMessageState}
use fakuicode.Agent.{AgentMode, text_delta, Phase, model, AgentStreamEvent, event}
use fakuicode.Agent.Collector.{StreamCollector, join, merge_provider_states}
use fakuicode.Agent.Batches.{answer_calls}
use fakuicode.Agent.ToolResults.{Failure, incompatible_state, Batched}
use fakuicode.Agent.Runner.{
  HookPayload, post_model_response, Runner, LoopState, raised, Output, progress_event, result_event,
  cancelled_event, error_event, completed_event, missing_final_response, decimal, assistant_message,
  results_message, is_plan, emits, finish, at,
}

module _ {W : Type 0} (runner : Runner W) (mode : AgentMode) where
  abbrev pub dispatch : Option (HookPayload → Bool → W → W) → HookPayload → W → W
  dispatch none payload w = w
  dispatch (some hook) payload w = hook payload (is_plan mode) w

  -- `_dispatch_hook`
  abbrev pub hook : HookPayload → W → W
  hook = dispatch runner.dispatch_hook

  -- `_post_model_hook`
  abbrev pub post_model_hook : ℕ → Text → StreamCollector → W → W
  post_model_hook n outcome c w =
      hook (post_model_response n outcome (length c.tool_calls) (join c.text_parts)) w

  -- The end of a round with tool results: a host tool may end the turn, and the last round does.
  abbrev pub finish_message : Option Text → ℕ → LoopState W → (LoopState W → Output W) → Output W
  finish_message none n st next =
      if n == runner.max_iterations
      then finish
          (error_event (
              codes "Agent stopped after reaching the "
              ++ (decimal runner.max_iterations ++ codes "-round safety limit."))
            ∷ [])
          st
      else next st
  finish_message (some text) n st next =
      finish (progress_event n model ∷ event text_delta text ∷ completed_event ∷ []) st

  -- `finish_message.strip()` where it leaves something.
  abbrev pub stripped : Option Text → Option Text
  stripped none = none
  stripped (some text) = if is_empty (strip text) then none else some (strip text)

  abbrev pub close_results : ℕ → Batched W → LoopState W → (LoopState W → Output W) → Output W
  close_results n b st next = elim b.cancelled [
    | true ↦ finish (cancelled_event ∷ []) st
    | false ↦ elim b.stopped [
      | true ↦
          finish
            (error_event (codes "Agent stopped after two consecutive unknown tool calls.") ∷ []) st
      | false ↦
          finish_message (stripped (runner.finish_turn_message b.results st.world)) n
            (record st { had_tool_results = true }) next
    ]
  ]

  -- The results are yielded as they come, and stand in the history when all of them are there.
  abbrev pub after_tools :
      Option Failure → ℕ → Batched W → LoopState W → (LoopState W → Output W) → Output W
  after_tools (some f) n b st next = record {
    events = [];
    ending = raised f;
    final = at st b.world;
  }
  after_tools none n b st next =
      close_results n b
        (record st {
          history = st.history ++ results_message b.results ∷ [];
          consecutive_unknown = b.unknown;
          world = b.world;
        })
        next

  unfoldable pub tools_round : ℕ → List ToolCall → LoopState W → (LoopState W → Output W) → Output W
  unfolding answer_calls
  tools_round n calls st next =
      let w = runner.set_parent_messages st.history st.world in
      let b = answer_calls runner.tools calls (is_plan mode) st.consecutive_unknown w in
      emits (progress_event n Phase.tools ∷ map result_event b.results)
        (after_tools b.failure n b (at st w) next)

  -- An answer without tool calls ends the turn.
  abbrev pub final_events : Bool → List AgentStreamEvent
  final_events true = event text_delta missing_final_response ∷ completed_event ∷ []
  final_events false = completed_event ∷ []

  abbrev pub called :
      Option (Option ProviderMessageState)
      → ℕ
      → StreamCollector
      → LoopState W
      → (LoopState W → Output W)
      → Output W
  called none n c st next = record { events = []; ending = raised incompatible_state; final = st }
  called (some state) n c st next =
      tools_round n c.tool_calls
        (record st {
          history = st.history ++ assistant_message (join c.text_parts) c.tool_calls state ∷ [];
        })
        next

  abbrev pub answered :
      List ToolCall → ℕ → StreamCollector → LoopState W → (LoopState W → Output W) → Output W
  answered [] n c st next =
      finish (final_events (st.had_tool_results && is_empty (strip (join c.text_parts)))) st
  answered (call ∷ calls) n c st next = called (merge_provider_states c.provider_states) n c st next
