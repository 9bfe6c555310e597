-- ===== src/Agent/Loop/Replay.antt =====
-- The recorder of turns.py through the rounds of a run.
use fakuicode.Prelude.{
  ℕ, zero, suc, ◌+◌, ◌≤◌, ◌≡◌, refl, sym, ap, subst, ◌∙◌, Bool, true, false, Option, none, some,
  List, [], ◌∷◌, ◌++◌, append_assoc, append-nil, Text, codes, length, bool_ind, arith,
}
use fakuicode.Context.{ToolCall, ProviderMessageState, AgentMessage}
use fakuicode.Agent.{AgentMode, AgentRequest, model, ContextStatus}
use fakuicode.Agent.Streams.{Stop, streamed, rejected, failed, status_event, stream_with_retries}
use fakuicode.Agent.Collector.{StreamCollector, new_collector, join, merge_provider_states}
use fakuicode.Agent.Batches.Answers.{AnswersCalls}
use fakuicode.Agent.Batches.Some.{IsNonEmpty}
use fakuicode.Agent.Requests.{AgentTurnContext, request, plan_instruction}
use fakuicode.Agent.Runner.{
  Preparation, ready, limited, unmanaged, ContextManager, Runner, LoopState, Output, progress_event,
  missing_final_response, assistant_message, finish, at, or_else, pre_model_request, turn_start,
}
use fakuicode.Agent.Loop.{
  after_stream, streamer, stream_round, prepared, prepare, round, rounds, run_loop, run,
  model_failed, status_events, with_pending, observe_usage,
}
use fakuicode.Agent.Rounds.{called, answered, final_events, hook, post_model_hook}
use fakuicode.Turns.{TurnRecorder, consume_all, new_recorder}
use fakuicode.Turns.Hearing.{KeepsProtocol, stream-Goes, status-Goes}
use fakuicode.Turns.Hears.{Hearing}
use fakuicode.Turns.Steps.{Goes}
use fakuicode.Turns.Replay.{cancelled-Replays, error-Replays, completed-Replays}
use fakuicode.Turns.InStep.{InStep, Replays, broken_off, emits-Replays, Hearing-InStep, model-Goes}
use fakuicode.Agent.Loop.ToolsReplay.{Continues, text_end-Replays, tools_round-Replays}

module _ {W : Type 0} (runner : Runner W) (mode : AgentMode) (law : AnswersCalls runner.tools)
    (proper : KeepsProtocol runner.invoke) (messages : List AgentMessage)
    (current : AgentMessage) where
  module _ (n : ℕ) (next : LoopState W → Output W)
      (go : Continues runner mode law proper messages current n next) where
    called-Replays :
        (merged : Option (Option ProviderMessageState)) (c : StreamCollector) (st : LoopState W)
        (tail : List AgentMessage) (r : TurnRecorder)
        → merge_provider_states c.provider_states ≡ merged
        → IsNonEmpty c.tool_calls
        → st.history ≡ messages ++ tail
        → Hearing (current ∷ tail) c r
        → Replays messages current (called runner mode merged n c st next) r
    called-Replays none c st tail r m some_calls a h = broken_off _ refl
    called-Replays (some state) c st tail r m some_calls a h =
        let said = assistant_message (join c.text_parts) c.tool_calls state in
        tools_round-Replays runner mode law proper messages current n next go c.tool_calls
          (record st { history = st.history ++ said ∷ [] }) tail c state r refl some_calls
          (ap (λ l. l ++ said ∷ []) a ∙ append_assoc messages tail (said ∷ [])) m h

    final-Replays :
        (b : Bool) (c : StreamCollector) (st : LoopState W) (tail : List AgentMessage)
        (r : TurnRecorder)
        → st.history ≡ messages ++ tail
        → Hearing (current ∷ tail) c r
        → Replays messages current (finish (final_events runner mode b) st) r
    final-Replays true c st tail r a h =
        text_end-Replays runner mode law proper messages current missing_final_response st tail c r
          a h
    final-Replays false c st tail r a h = completed-Replays messages current st tail a c r h

    answered-Replays :
        (calls : List ToolCall) (c : StreamCollector) (st : LoopState W) (tail : List AgentMessage)
        (r : TurnRecorder)
        → calls ≡ c.tool_calls
        → st.history ≡ messages ++ tail
        → Hearing (current ∷ tail) c r
        → Replays messages current (answered runner mode calls n c st next) r
    answered-Replays [] c st tail r e a h = final-Replays _ c st tail r a h
    answered-Replays (call ∷ calls) c st tail r e a h =
        called-Replays (merge_provider_states c.provider_states) c st tail r refl
          (subst IsNonEmpty e tt) a h

    model_failed-Replays :
        (text : Text) (c d : StreamCollector) (st : LoopState W) (tail : List AgentMessage)
        (r : TurnRecorder)
        → st.history ≡ messages ++ tail
        → Hearing (current ∷ tail) c r
        → Replays messages current (model_failed runner mode n text d st) r
    model_failed-Replays text c d st tail r a h =
        error-Replays messages current
          (at st (post_model_hook runner mode n (codes "failed") d st.world)) tail a text r
          (Hearing-InStep messages current tail c r h)

    after_stream-Replays :
        (stop : Stop) (c : StreamCollector) (st : LoopState W) (tail : List AgentMessage)
        (r : TurnRecorder)
        → st.history ≡ messages ++ tail
        → Hearing (current ∷ tail) c r
        → Replays messages current (after_stream runner mode stop n c st next) r
    unfolding after_stream
    after_stream-Replays Stop.cancelled c st tail r a h =
        cancelled-Replays messages current
          (at st (post_model_hook runner mode n (codes "cancelled") c st.world)) tail a r
          (Hearing-InStep messages current tail c r h)
    after_stream-Replays rejected c st tail r a h = model_failed-Replays _ c c st tail r a h
    after_stream-Replays (failed e) c st tail r a h = model_failed-Replays _ c c st tail r a h
    after_stream-Replays streamed c st tail r a h =
        let w = post_model_hook runner mode n (codes "completed") c st.world in
        bool_ind (λ (o : Output W). Replays messages current o r) c.completed
          (λ _.
            answered-Replays c.tool_calls c
              (at st (
                observe_usage runner mode runner.context_manager c.latest_usage
                  st.last_successful_request w))
              tail r refl a h)
          (λ _. model_failed-Replays _ c c st tail r a h)

    stream_round-Replays :
        (sent : AgentRequest) (st : LoopState W) (tail : List AgentMessage) (r : TurnRecorder)
        → st.history ≡ messages ++ tail
        → Hearing (current ∷ tail) new_collector r
        → Replays messages current (stream_round runner mode n sent st next) r
    unfolding stream_round
    stream_round-Replays sent st tail r a h =
        let s = stream_with_retries (streamer runner mode n) sent new_collector st.world in
        let st' : LoopState W = record st {
          last_successful_request = or_else s.successful st.last_successful_request;
          world = s.world;
        } in
        emits-Replays messages current {P = Hearing (current ∷ tail) s.collector} s.events
          (after_stream runner mode s.stop n s.collector st' next) r
          (stream-Goes (streamer runner mode n) (proper (plan_instruction mode n)) (current ∷ tail)
            sent new_collector st.world r h)
          (λ r' h'. after_stream-Replays s.stop s.collector st' tail r' a h')

    statuses-Goes :
        (status : Option ContextStatus) (history : List AgentMessage) (c : StreamCollector)
        (r : TurnRecorder)
        → Hearing history c r
        → Goes (Hearing history c) (consume_all (status_events runner mode status) r)
    unfolding consume_all
    statuses-Goes none history c r h = (refl, h)
    statuses-Goes (some status) history c r h = status-Goes status history c r h

    prepared-Replays :
        (p : Preparation × W) (st : LoopState W) (tail : List AgentMessage) (r : TurnRecorder)
        → st.history ≡ messages ++ tail
        → Hearing (current ∷ tail) new_collector r
        → Replays messages current (prepared runner mode n p st next) r
    prepared-Replays (limited status, w) st tail r a h =
        let text = codes "Agent stopped because context cannot be sent safely." in
        emits-Replays messages current {P = Hearing (current ∷ tail) new_collector}
          (status_event status ∷ []) (model_failed runner mode n text new_collector (at st w)) r
          (status-Goes status (current ∷ tail) new_collector r h)
          (λ r' h'. model_failed-Replays text new_collector new_collector (at st w) tail r' a h')
    prepared-Replays (unmanaged, w) st tail r a h =
        model_failed-Replays (codes "Agent stopped because context preparation failed.")
          new_collector new_collector (at st w) tail r a h
    prepared-Replays (ready sent status, w) st tail r a h =
        let (sent', w') = with_pending runner mode runner.source.hook_prompts sent w in
        emits-Replays messages current {P = Hearing (current ∷ tail) new_collector}
          (status_events runner mode status) (stream_round runner mode n sent' (at st w') next) r
          (statuses-Goes status (current ∷ tail) new_collector r h)
          (λ r' h'. stream_round-Replays sent' (at st w') tail r' a h')

    prepare-Replays :
        (manager : Option (ContextManager W)) (sent : AgentRequest) (st : LoopState W)
        (tail : List AgentMessage) (r : TurnRecorder)
        → st.history ≡ messages ++ tail
        → Hearing (current ∷ tail) new_collector r
        → Replays messages current (prepare runner mode manager n sent st next) r
    prepare-Replays none sent st tail r a h = stream_round-Replays sent st tail r a h
    prepare-Replays (some manager) sent st tail r a h =
        prepared-Replays (manager.prepare_request sent st.world) st tail r a h

    round-Replays :
        (context : AgentTurnContext) (st : LoopState W) (tail : List AgentMessage)
        (r : TurnRecorder)
        → st.history ≡ messages ++ tail
        → InStep messages current tail r
        → Replays messages current (round runner mode context n next st) r
    unfolding round
    round-Replays context st tail r a s =
        let (stop, w₁) =
          runner.tools.is_cancelled (runner.set_parent_messages st.history st.world) in
        let w₂ = hook runner mode (pre_model_request n (length st.history)) w₁ in
        let (sent, w₃) = request runner.source st.history mode n context w₂ in
        bool_ind (λ (o : Output W). Replays messages current o r) stop
          (λ _. cancelled-Replays messages current (at st w₁) tail a r s)
          (λ _.
            emits-Replays messages current {P = Hearing (current ∷ tail) new_collector}
              (progress_event n model ∷ [])
              (prepare runner mode runner.context_manager n sent (at st w₃) next) r
              (model-Goes messages current n tail r s)
              (λ r' h. prepare-Replays runner.context_manager sent (at st w₃) tail r' a h))

  rounds-Replays :
      (context : AgentTurnContext) (left n : ℕ)
      → n + left ≡ runner.max_iterations
      → (st : LoopState W) (tail : List AgentMessage) (r : TurnRecorder)
      → st.history ≡ messages ++ tail
      → InStep messages current tail r
      → Replays messages current (rounds runner mode context (suc left) n st) r
  unfolding rounds
  rounds-Replays context zero n h st tail r a s =
      round-Replays n _ (λ e. absurd (ground (arith, e, h))) context st tail r a s
  rounds-Replays context (suc left) n h st tail r a s =
      round-Replays n _ (λ _. rounds-Replays context left (n + 1) (omega arith)) context st tail r a
        s

  all_rounds-Replays :
      (context : AgentTurnContext) (k : ℕ)
      → 1 ≤ k
      → k ≡ runner.max_iterations
      → (st : LoopState W) (tail : List AgentMessage) (r : TurnRecorder)
      → st.history ≡ messages ++ tail
      → InStep messages current tail r
      → Replays messages current (rounds runner mode context k 1 st) r
  all_rounds-Replays context zero h e st tail r a s = absurd (omega arith)
  all_rounds-Replays context (suc left) h e st tail r a s =
      rounds-Replays context left 1 (omega arith) st tail r a s

-- If the tools answer the calls that they get, and the provider keeps to the protocol, then the
-- recorder of the turn ends as the run does. Where the run returned, what the recorder has after the
-- current message is what the loop has added to its history, with the answer of a completed turn
-- after it; only an answer of blanks is an error. A run that raised says nothing.
pub run-Replays :
    {W : Type 0} (runner : Runner W) (mode : AgentMode) (law : AnswersCalls runner.tools)
    (proper : KeepsProtocol runner.invoke) (context : AgentTurnContext)
    (messages : List AgentMessage) (current : AgentMessage)
    (last_successful_request : Option AgentRequest) (w : W)
    → 1 ≤ runner.max_iterations
    → Replays messages current
        (run runner mode context messages last_successful_request w)
        (new_recorder current)
unfolding run run_loop new_recorder
run-Replays runner mode law proper context messages current last w h =
    all_rounds-Replays runner mode law proper messages current context runner.max_iterations h refl
      (record {
        history = messages;
        had_tool_results = false;
        consecutive_unknown = 0;
        last_successful_request = last;
        world = runner.begin_run mode (hook runner mode (turn_start (length messages)) w);
      })
      [] (new_recorder current) (sym (append-nil messages)) (record { running = refl; past = refl })
