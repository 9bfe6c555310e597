-- ===== src/Agent/Loop/ToolsReplay.antt =====
-- The recorder of turns.py through a round of tools, and the ends of a run that follow it.
use fakuicode.Prelude.{
  ℕ, ◌≡◌, refl, ap, ◌∙◌, true, false, Option, none, some, List, [], ◌∷◌, ◌++◌, append_assoc, map,
  Text, ◌==◌, bool_ind, if_ind,
}
use fakuicode.Context.{ToolCall, ProviderMessageState, AgentMessage}
use fakuicode.Agent.{AgentMode, text_delta, Phase, model, event}
use fakuicode.Agent.Collector.{StreamCollector, new_collector, join, merge_provider_states}
use fakuicode.Agent.Batches.{answer_calls}
use fakuicode.Agent.ToolResults.{Batched, Failure}
use fakuicode.Agent.Batches.Answers.{AnswersCalls}
use fakuicode.Agent.Batches.Some.{IsNonEmpty, answer_calls-some}
use fakuicode.Agent.Runner.{
  Runner, LoopState, Output, progress_event, result_event, completed_event, assistant_message,
  results_message, emits, finish, at, is_plan,
}
use fakuicode.Agent.Rounds.{finish_message, close_results, after_tools, tools_round, stripped}
use fakuicode.Turns.{TurnRecorder}
use fakuicode.Turns.Hearing.{KeepsProtocol}
use fakuicode.Turns.Hears.{Hearing}
use fakuicode.Turns.Replay.{results-Goes, cancelled-Replays, error-Replays, completed-Replays}
use fakuicode.Turns.InStep.{
  InStep, Replays, broken_off, emits-Replays, model-Goes, tools-Goes, text-Goes,
}

module _ {W : Type 0} (runner : Runner W) (mode : AgentMode) (law : AnswersCalls runner.tools)
    (proper : KeepsProtocol runner.invoke) (messages : List AgentMessage)
    (current : AgentMessage) where
  -- The rest of the loop is reached only before the last round.
  abbrev pub Continues : ℕ → (LoopState W → Output W) → Type 0
  Continues n next =
      (n == runner.max_iterations) ≡ false
      → (st : LoopState W) (tail : List AgentMessage) (r : TurnRecorder)
      → st.history ≡ messages ++ tail
      → InStep messages current tail r
      → Replays messages current (next st) r

  -- A final answer: its text, and the end.
  pub text_end-Replays :
      (text : Text) (st : LoopState W) (tail : List AgentMessage) (c : StreamCollector)
      (r : TurnRecorder)
      → st.history ≡ messages ++ tail
      → Hearing (current ∷ tail) c r
      → Replays messages current (finish (event text_delta text ∷ completed_event ∷ []) st) r
  text_end-Replays text st tail c r e h =
      emits-Replays messages current
        {P = Hearing (current ∷ tail) (record c { text_parts = c.text_parts ++ text ∷ [] })}
        (event text_delta text ∷ []) (finish (completed_event ∷ []) st) r
        (text-Goes messages current text (current ∷ tail) c r h)
        (λ r' h'.
          completed-Replays messages current st tail e
            (record c { text_parts = c.text_parts ++ text ∷ [] }) r' h')

  module _ (n : ℕ) (next : LoopState W → Output W) (go : Continues n next) where
    finish_message-Replays :
        (text : Option Text) (st : LoopState W) (tail : List AgentMessage) (r : TurnRecorder)
        → st.history ≡ messages ++ tail
        → InStep messages current tail r
        → Replays messages current (finish_message runner mode text n st next) r
    finish_message-Replays none st tail r e s =
        if_ind (λ (o : Output W). Replays messages current o r) (n == runner.max_iterations)
          (λ _. error-Replays messages current st tail e _ r s) (λ h. go h st tail r e s)
    finish_message-Replays (some text) st tail r e s =
        emits-Replays messages current {P = Hearing (current ∷ tail) new_collector}
          (progress_event n model ∷ []) (finish (event text_delta text ∷ completed_event ∷ []) st) r
          (model-Goes messages current n tail r s)
          (λ r' h. text_end-Replays text st tail new_collector r' e h)

    close_results-Replays :
        (b : Batched W) (st : LoopState W) (tail : List AgentMessage) (r : TurnRecorder)
        → st.history ≡ messages ++ tail
        → InStep messages current tail r
        → Replays messages current (close_results runner mode n b st next) r
    close_results-Replays b st tail r e s =
        let P = λ (o : Output W). Replays messages current o r in
        bool_ind P b.cancelled (λ _. cancelled-Replays messages current st tail e r s)
          (λ _.
            bool_ind P b.stopped (λ _. error-Replays messages current st tail e _ r s)
              (λ _.
                finish_message-Replays
                  (stripped runner mode (runner.finish_turn_message b.results st.world))
                  (record st { had_tool_results = true }) tail r e s))

    -- The answer's tools: the assistant's message is in the loop's history already.
    after_tools-Replays :
        (f : Option Failure) (b : Batched W) (st : LoopState W) (tail : List AgentMessage)
        (c : StreamCollector) (state : Option ProviderMessageState) (r : TurnRecorder)
        → b.failure ≡ f
        → (b.failure ≡ none → IsNonEmpty b.results)
        → st.history
          ≡ messages ++ (tail ++ assistant_message (join c.text_parts) c.tool_calls state ∷ [])
        → merge_provider_states c.provider_states ≡ some state
        → Hearing (current ∷ tail) c r
        → Replays messages current
            (emits (map result_event b.results) (after_tools runner mode f n b st next))
            r
    after_tools-Replays (some f) b st tail c state r e some_results a m h = broken_off f refl
    after_tools-Replays none b st tail c state r e some_results a m h =
        let tail' = tail ++ assistant_message (join c.text_parts) c.tool_calls state ∷ [] in
        let st' : LoopState W = record st {
          history = st.history ++ results_message b.results ∷ [];
          consecutive_unknown = b.unknown;
          world = b.world;
        } in
        emits-Replays messages current
          {P = InStep messages current (tail' ++ results_message b.results ∷ [])}
          (map result_event b.results) (close_results runner mode n b st' next) r
          (results-Goes messages current tail c state b.results r m (some_results e) h)
          (λ r' s.
            close_results-Replays b st' (tail' ++ results_message b.results ∷ []) r'
              (ap (λ l. l ++ results_message b.results ∷ []) a
                ∙ append_assoc messages tail' (results_message b.results ∷ []))
              s)

    pub tools_round-Replays :
        (calls : List ToolCall) (st : LoopState W) (tail : List AgentMessage) (c : StreamCollector)
        (state : Option ProviderMessageState) (r : TurnRecorder)
        → calls ≡ c.tool_calls
        → IsNonEmpty calls
        → st.history
          ≡ messages ++ (tail ++ assistant_message (join c.text_parts) c.tool_calls state ∷ [])
        → merge_provider_states c.provider_states ≡ some state
        → Hearing (current ∷ tail) c r
        → Replays messages current (tools_round runner mode n calls st next) r
    unfolding tools_round
    tools_round-Replays calls st tail c state r e some_calls a m h =
        let w = runner.set_parent_messages st.history st.world in
        let b = answer_calls runner.tools calls (is_plan mode) st.consecutive_unknown w in
        emits-Replays messages current {P = Hearing (current ∷ tail) c}
          (progress_event n Phase.tools ∷ [])
          (emits (map result_event b.results)
            (after_tools runner mode b.failure n b (at st w) next))
          r (tools-Goes messages current n (current ∷ tail) c r h)
          (λ r' h'.
            after_tools-Replays b.failure b (at st w) tail c state r' refl
              (answer_calls-some runner.tools law calls (is_plan mode) st.consecutive_unknown w
                some_calls)
              a m h')
