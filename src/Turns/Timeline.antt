-- ===== src/Turns/Timeline.antt =====
-- The durable timeline of a turn beside the recorder's own history, event by event.
use fakuicode.Prelude.{
  any, Bool, false, map-append, ◌≡◌, refl, sym, ap, ◌∙◌, true, false, Option, none, some, List, [],
  ◌∷◌, ◌++◌, append-nil, map, Text, bool_ind, option_ind, arith, is_empty, strip, codes,
}
use fakuicode.Context.{TimelineEventKind, ToolResult, ProviderMessageState, Role, AgentMessage}
use fakuicode.Context.Messages.{message, flushed, messages_from_events}
use fakuicode.Context.Messages.Reading.{read_all, all_of, messages_from_events-read}
use fakuicode.Agent.{
  EventKind, text_delta, tool_call, tool_result, usage, progress, cancelled, error, Phase, model,
  tools, AgentProgress, AgentStreamEvent, thinking_start, thinking_delta, thinking_end,
  context_status,
}
use fakuicode.Agent.Collector.{join, merge_provider_states}
use fakuicode.Turns.{
  TurnRecorder, Step, TurnError, new_recorder, no_metadata, timeline_event, flush_usage,
  persist_turn, add_result, record_tool_result, complete, terminate, begin_model, on_phase, or_kind,
  consume_kind, with_state, consume, consume_all, proceed,
}
use fakuicode.Turns.Follows.{
  overrides, Follows, Holds, Within, add_result-Within, begin_model-Follows, between, flush-Holds,
  kept, persist_turn-Within, read_snoc, within,
}

-- An event with a result that overrides its own entry in the timeline.
abbrev pub overriding : AgentStreamEvent → Bool
overriding e = overrides e.tool_result

module _ (current : AgentMessage) where
  abbrev Fine : Step → Type 0
  Fine (r, raised) = Holds current r × (raised ≡ none → r.outcome ≡ none → Follows current r)

  goes : (r : TurnRecorder) (raised : Option TurnError) → Follows current r → Fine (r, raised)
  goes r raised f = (flush-Holds current r f, λ _ _. f)

  Within-Fine :
      (result : ToolResult) (r : TurnRecorder)
      → overrides (some result) ≡ false
      → r.tool_turn_persisted ≡ true
      → Within current r
      → Fine (add_result result r, none)
  unfolding add_result
  Within-Fine result r plain p v =
      let (h, w) = add_result-Within current result r plain v in
      goes (add_result result r) none (within p h w)

  add_result-Fine :
      (result : ToolResult) (r : TurnRecorder)
      → overrides (some result) ≡ false
      → r.tool_turn_persisted ≡ true
      → Follows current r
      → Fine (add_result result r, none)
  add_result-Fine result r plain e (within p h w) = Within-Fine result r plain p (h, w)
  add_result-Fine result r plain e (between p z h) = absurd (ground (arith, e, p))

  persist_turn-Fine :
      (state : Option ProviderMessageState) (result : ToolResult) (r : TurnRecorder)
      → overrides (some result) ≡ false
      → r.tool_turn_persisted ≡ false
      → Follows current r
      → Fine (add_result result (persist_turn state r), none)
  unfolding persist_turn
  persist_turn-Fine state result r plain e (within p h w) = absurd (ground (arith, e, p))
  persist_turn-Fine state result r plain e (between p z h) =
      Within-Fine result (persist_turn state r) plain refl (persist_turn-Within current state r z h)

  record_tool_result-Fine :
      (result : ToolResult) (r : TurnRecorder)
      → overrides (some result) ≡ false
      → Follows current r
      → Fine (record_tool_result result r)
  unfolding record_tool_result
  record_tool_result-Fine result r plain f =
      bool_ind Fine r.tool_turn_persisted (λ e. add_result-Fine result r plain e f)
        (λ e.
          option_ind Fine (merge_provider_states r.provider_states) (λ _. goes r _ f)
            (λ state _. persist_turn-Fine state result r plain e f))

  -- The last event of a turn, after the waiting results.
  complete-Fine : (r : TurnRecorder) → Follows current r → Fine (complete r)
  unfolding complete read_all
  complete-Fine r f =
      let answer = join r.response_text in
      let said = message Role.assistant answer in
      let entry = timeline_event TimelineEventKind.assistant answer none no_metadata in
      let h = flush-Holds current r f in
      let whole = r.history ++ flushed r.pending_results in
      bool_ind Fine (is_empty (strip answer))
        (λ _. (h ∙ ap (map kept) (sym (append-nil whole)), λ e _. absurd (ground (arith, e))))
        (λ _. (
          ap (λ t. kept current ∷ all_of t) (read_snoc current r.appended entry)
              ∙ ap (λ l. kept current ∷ l) (append-nil _)
              ∙ ap (λ l. l ++ said ∷ []) h
              ∙ sym (map-append kept whole (said ∷ []))
              ∙ ap (map kept) (sym (append-nil (whole ++ said ∷ []))),
          λ _ e. absurd (ground (arith, e)),
        ))

  terminate-Fine : (text : Text) (r : TurnRecorder) → Follows current r → Fine (terminate text r)
  unfolding terminate read_all
  terminate-Fine text r f =
      let entry = timeline_event TimelineEventKind.system text none no_metadata in
      (
        ap (λ t. kept current ∷ all_of t) (read_snoc current r.appended entry)
            ∙ flush-Holds current r f
            ∙ ap (map kept) (sym (append-nil (r.history ++ flushed r.pending_results))),
        λ _ e. absurd (ground (arith, e)),
      )

  on_phase-Fine : (p : Phase) (r : TurnRecorder) → Follows current r → Fine (on_phase p r, none)
  unfolding on_phase
  on_phase-Fine model r f = goes (begin_model r) none (begin_model-Follows current r f)
  on_phase-Fine tools r f = goes (flush_usage r) none f

  phase-Fine :
      (p : Option AgentProgress) (r : TurnRecorder)
      → Follows current r
      → Fine (elim p [ none ↦ r | some q ↦ on_phase q.phase r ], none)
  phase-Fine none r f = goes r none f
  phase-Fine (some p) r f = on_phase-Fine p.phase r f

  consume_kind-Fine :
      (kind : EventKind) (e : AgentStreamEvent) (r : TurnRecorder)
      → overrides e.tool_result ≡ false
      → Follows current r
      → Fine (consume_kind kind e r)
  unfolding consume_kind on_phase
  consume_kind-Fine progress e r plain f = phase-Fine e.progress r f
  consume_kind-Fine usage e r plain f =
      option_ind (λ r'. Fine (r', none)) e.usage (λ _. goes r none f)
        (λ counts _. goes (record r { round_usage = some counts }) none f)
  consume_kind-Fine text_delta e r plain f =
      goes (record r { response_text = r.response_text ++ e.text ∷ [] }) none f
  consume_kind-Fine tool_call e r plain f =
      option_ind (λ r'. Fine (r', none)) e.tool_call (λ _. goes r none f)
        (λ call _. goes (record r { calls = r.calls ++ call ∷ [] }) none f)
  consume_kind-Fine tool_result e r plain f =
      option_ind Fine e.tool_result (λ _. goes r none f)
        (λ result has. record_tool_result-Fine result r (sym (ap overrides has) ∙ plain) f)
  consume_kind-Fine EventKind.completed e r plain f = complete-Fine r f
  consume_kind-Fine cancelled e r plain f = terminate-Fine (or_kind e.text (codes "cancelled")) r f
  consume_kind-Fine error e r plain f = terminate-Fine (or_kind e.text (codes "error")) r f
  consume_kind-Fine thinking_start e r plain f = goes r none f
  consume_kind-Fine thinking_delta e r plain f = goes r none f
  consume_kind-Fine thinking_end e r plain f = goes r none f
  consume_kind-Fine context_status e r plain f = goes r none f

  with_state-Follows :
      (state : Option ProviderMessageState) (r : TurnRecorder)
      → Follows current r
      → Follows current (with_state state r)
  with_state-Follows none r f = f
  with_state-Follows (some state) r f = f

  consume-Fine :
      (e : AgentStreamEvent) (r : TurnRecorder)
      → overrides e.tool_result ≡ false
      → Fine (r, none)
      → Fine (consume e r)
  unfolding consume
  consume-Fine e r plain (h, follows) =
      option_ind Fine r.outcome
        (λ running.
          consume_kind-Fine e.kind e (with_state e.provider_state r) plain
            (with_state-Follows e.provider_state r (follows refl running)))
        (λ outcome done. (h, λ raised. absurd (ground (arith, raised))))

  proceed-Holds :
      (s : Step) (next : TurnRecorder → Step)
      → Fine s
      → ((r : TurnRecorder) → Fine (r, none) → Holds current (next r).0)
      → Holds current (proceed s next).0
  proceed-Holds (r, some failure) next fine h = fine.0
  proceed-Holds (r, none) next fine h = h r fine

  consume_all-Holds :
      (events : List AgentStreamEvent) (r : TurnRecorder)
      → any overriding events ≡ false
      → Fine (r, none)
      → Holds current (consume_all events r).0
  unfolding consume_all any
  consume_all-Holds [] r plain h = h.0
  consume_all-Holds (e ∷ events) r plain h =
      proceed-Holds (consume e r) (consume_all events) (consume-Fine e r (ground (arith, plain)) h)
        (λ r'. consume_all-Holds events r' (ground (arith, plain)))

-- If no result of a turn carries metadata of its own under the keys of its name, success or summary,
-- then, whatever the events of the turn and wherever it breaks off, the messages made of its timeline
-- are those of the recorder after the first, with the results that wait as a last one; up to what
-- `kept` leaves out: the mark of invalid arguments, the duration and metadata of a result, and a
-- state of the provider that the reader does not accept.
pub timeline_roundtrip :
    (current : AgentMessage) (events : List AgentStreamEvent)
    → any overriding events ≡ false
    → let r = (consume_all events (new_recorder current)).0 in
      kept current ∷ messages_from_events r.appended
      ≡ map kept (r.history ++ flushed r.pending_results)
unfolding new_recorder read_all
timeline_roundtrip current events plain =
    let r = (consume_all events (new_recorder current)).0 in
    ap (λ l. kept current ∷ l) (messages_from_events-read r.appended)
    ∙ consume_all-Holds current events (new_recorder current) plain
        (goes current (new_recorder current) none (between refl refl refl))
