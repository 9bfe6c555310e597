-- ===== src/Turns/Replay.antt =====
-- The recorder on the tool results of a round, and on the ends of a run.
use fakuicode.Prelude.{
  ◌≡◌, refl, sym, ap, subst, ◌∙◌, Bool, true, Option, none, some, List, [], ◌∷◌, ◌++◌, append_assoc,
  append-nil, map, Text, is_empty, strip, bool_ind, option_ind, arith,
}
use fakuicode.Context.{ToolResult, ProviderMessageState, Role, AgentMessage}
use fakuicode.Context.Messages.{message, flushed}
use fakuicode.Agent.Collector.{StreamCollector, join, merge_provider_states}
use fakuicode.Agent.Runner.{
  LoopState, returned, result_event, error_event, cancelled_event, completed_event,
  assistant_message, results_message, finish,
}
use fakuicode.Agent.Batches.Some.{IsNonEmpty}
use fakuicode.Turns.{
  TurnRecorder, Step, TurnOutcome, consume_all, consume_kind, proceed, record_tool_result, complete,
  terminate, persist_turn, add_result,
}
use fakuicode.Turns.Hears.{Hearing}
use fakuicode.Turns.Steps.{Goes, append-Goes, one-Goes, proceed-Goes}
use fakuicode.Turns.InStep.{Hearing-InStep, InStep, Replayed, Replays, answered, blank, stopped}

module _ (messages : List AgentMessage) (current : AgentMessage) where
  record WaitingParts (past : List AgentMessage) (results : List ToolResult)
      (outcome : Option TurnOutcome) (history : List AgentMessage) (pending : List ToolResult)
      (persisted : Bool) : Type 0 where
    running : outcome ≡ none
    kept : history ≡ past
    waits : pending ≡ results
    opened : persisted ≡ true

  abbrev Waiting : List AgentMessage → List ToolResult → TurnRecorder → Type 0
  Waiting past results r =
      WaitingParts past results r.outcome r.history r.pending_results r.tool_turn_persisted

  proceed-same :
      (P : TurnRecorder → Type 0) (s : Step) → Goes P s → Goes P (proceed s (λ r. (r, none)))
  proceed-same P s g = proceed-Goes (Goes P) s (λ r. (r, none)) g (λ r p. (refl, p))

  Waiting-Goes :
      (past : List AgentMessage) (before : List ToolResult) (x : ToolResult) (r : TurnRecorder)
      → Waiting past before r
      → Goes (Waiting past (before ++ x ∷ [])) (record_tool_result x r)
  unfolding record_tool_result add_result
  Waiting-Goes past before x r w =
      bool_ind (Goes (Waiting past (before ++ x ∷ []))) r.tool_turn_persisted
        (λ _. (
          refl,
          record {
            running = w.running;
            kept = w.kept;
            waits = ap (λ l. l ++ x ∷ []) w.waits;
            opened = w.opened;
          },
        ))
        (λ e. absurd (ground (arith, e, w.opened)))

  first-Goes :
      (past : List AgentMessage) (c : StreamCollector) (state : Option ProviderMessageState)
      (x : ToolResult) (r : TurnRecorder)
      → merge_provider_states c.provider_states ≡ some state
      → Hearing past c r
      → Goes
          (Waiting (past ++ assistant_message (join c.text_parts) c.tool_calls state ∷ []) (x ∷ []))
          (record_tool_result x r)
  unfolding record_tool_result add_result persist_turn
  first-Goes past c state x r m h =
      let P =
        Waiting (past ++ assistant_message (join c.text_parts) c.tool_calls state ∷ []) (x ∷ []) in
      bool_ind (Goes P) r.tool_turn_persisted (λ e. absurd (ground (arith, e, h.fresh)))
        (λ _.
          option_ind (Goes P) (merge_provider_states r.provider_states)
            (λ e. absurd (ground (arith, e, m, ap merge_provider_states h.same_states)))
            (λ state' e.
              let same : state' ≡ state =
                ground (arith, e, m, ap merge_provider_states h.same_states) in
              (
                refl,
                record {
                  running = h.running;
                  kept =
                      ap (λ l. l ++ assistant_message (join r.response_text) r.calls state' ∷ [])
                        h.past
                      ∙ ap (λ t. past ++ assistant_message (join t) r.calls state' ∷ []) h.same_text
                      ∙ ap (λ l. past ++ assistant_message (join c.text_parts) l state' ∷ [])
                          h.same_calls
                      ∙ ap (λ s. past ++ assistant_message (join c.text_parts) c.tool_calls s ∷ [])
                          same;
                  waits = ap (λ l. l ++ x ∷ []) h.empty;
                  opened = refl;
                },
              )))

  result-Goes :
      (P Q : TurnRecorder → Type 0) (x : ToolResult) (results : List ToolResult) (r : TurnRecorder)
      → r.outcome ≡ none
      → Goes P (record_tool_result x r)
      → ((r' : TurnRecorder) → P r' → Goes Q (consume_all (map result_event results) r'))
      → Goes Q (consume_all (map result_event (x ∷ results)) r)
  unfolding consume_kind
  result-Goes P Q x results r running g h =
      append-Goes {P = P} (Goes Q) (result_event x ∷ []) (map result_event results) r
        (one-Goes (Goes P) (result_event x) r running (proceed-same P (record_tool_result x r) g)) h

  more-Goes :
      (past : List AgentMessage) (before results : List ToolResult) (r : TurnRecorder)
      → Waiting past before r
      → Goes (Waiting past (before ++ results)) (consume_all (map result_event results) r)
  unfolding consume_all
  more-Goes past before [] r w = (refl, subst (λ l. Waiting past l r) (sym (append-nil before)) w)
  more-Goes past before (x ∷ results) r w =
      result-Goes (Waiting past (before ++ x ∷ [])) (Waiting past (before ++ x ∷ results)) x results
        r w.running (Waiting-Goes past before x r w)
        (λ r' w'.
          subst (λ l. Goes (Waiting past l) (consume_all (map result_event results) r'))
            (append_assoc before (x ∷ []) results)
            (more-Goes past (before ++ x ∷ []) results r' w'))

  -- The results of a round, all of them.
  pub results-Goes :
      (tail : List AgentMessage) (c : StreamCollector) (state : Option ProviderMessageState)
      (results : List ToolResult) (r : TurnRecorder)
      → merge_provider_states c.provider_states ≡ some state
      → IsNonEmpty results
      → Hearing (current ∷ tail) c r
      → Goes
          (InStep messages current (
            (tail ++ assistant_message (join c.text_parts) c.tool_calls state ∷ [])
            ++ results_message results ∷ []))
          (consume_all (map result_event results) r)
  results-Goes tail c state [] r m n h = absurd n
  results-Goes tail c state (x ∷ results) r m n h =
      let past =
        (current ∷ tail) ++ assistant_message (join c.text_parts) c.tool_calls state ∷ [] in
      result-Goes (Waiting past (x ∷ []))
        (InStep messages current (
          (tail ++ assistant_message (join c.text_parts) c.tool_calls state ∷ [])
          ++ results_message (x ∷ results) ∷ []))
        x results r h.running (first-Goes (current ∷ tail) c state x r m h)
        (λ r' w.
          let (calm, w') = more-Goes past (x ∷ []) results r' w in
          (
            calm,
            record {
              running = w'.running;
              past =
                  ap
                    (λ l.
                      l ++ flushed (consume_all (map result_event results) r').0.pending_results)
                    w'.kept
                  ∙ ap (λ l. past ++ flushed l) w'.waits;
            },
          ))

  module _ {W : Type 0} (st : LoopState W) (tail : List AgentMessage)
      (added : st.history ≡ messages ++ tail) where
    pub cancelled-Replays :
        (r : TurnRecorder)
        → InStep messages current tail r
        → Replays messages current (finish (cancelled_event ∷ []) st) r
    unfolding consume_kind terminate
    cancelled-Replays r s =
        one-Goes (Replayed messages current st.history returned) cancelled_event r s.running
          (stopped tail refl added refl refl s.past)

    pub error-Replays :
        (text : Text) (r : TurnRecorder)
        → InStep messages current tail r
        → Replays messages current (finish (error_event text ∷ []) st) r
    unfolding consume_kind terminate
    error-Replays text r s =
        one-Goes (Replayed messages current st.history returned) (error_event text) r s.running
          (stopped tail refl added refl refl s.past)

    pub completed-Replays :
        (c : StreamCollector) (r : TurnRecorder)
        → Hearing (current ∷ tail) c r
        → Replays messages current (finish (completed_event ∷ []) st) r
    unfolding consume_kind complete
    completed-Replays c r h =
        one-Goes (Replayed messages current st.history returned) completed_event r h.running (
          bool_ind
            (λ s. Replayed messages current st.history returned (proceed s (λ r'. (r', none))))
            (is_empty (strip (join r.response_text))) (λ _. blank refl refl)
            (λ _. answered tail refl added refl refl (
              ap (λ l. l ++ message Role.assistant (join r.response_text) ∷ [])
                (Hearing-InStep messages current tail c r h).past)))
