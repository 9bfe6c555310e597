-- ===== src/Turns/Follows.antt =====
-- The timeline of a turn up to a point, and the messages that are made of it.
use fakuicode.Prelude.{
  Text, arith, none, some, ◌||◌, is_some, map-append, ◌≡◌, refl, sym, ap, ◌∙◌, Bool, true, false,
  Option, List, [], ◌∷◌, ◌++◌, append-nil, map,
}
use fakuicode.Context.{
  ResultMetadata, Metadata, TimelineEventKind, TimelineEvent, ToolCall, ToolResult,
  ProviderMessageState, AgentMessage,
}
use fakuicode.Context.Messages.{result_of, with_result, readable_state, flushed}
use fakuicode.Context.Messages.Reading.{Reading, read_all, read_all-append, all_of}
use fakuicode.Agent.Collector.{join}
use fakuicode.Agent.Runner.{assistant_message}
use fakuicode.Turns.{
  override, overridden, no_metadata, timeline_event, TurnRecorder, without_error, assistant_event,
  call_event, result_entry, persist_turn, add_result, begin_model,
}

-- A result as the timeline brings it back: without its duration and its own metadata.
abbrev pub kept_result : ToolResult → ToolResult
kept_result r = record r { duration_seconds = none; metadata = none }

-- A message as the timeline brings it back: an invalid call as an ordinary one, and the state of the
-- provider only where a reader accepts it.
abbrev pub kept : AgentMessage → AgentMessage
kept m = record m {
  tool_calls = map without_error m.tool_calls;
  tool_results = map kept_result m.tool_results;
  provider_state = readable_state m.provider_state;
}

kept-flushed :
    (pending : List ToolResult) → map kept (flushed pending) ≡ flushed (map kept_result pending)
kept-flushed [] = refl
kept-flushed (r ∷ pending) = refl

-- A result whose own metadata takes the place of its name, success or summary in the timeline.
abbrev replaces : Option ResultMetadata → Bool
replaces none = false
replaces (some own) = is_some own.tool_name || is_some own.success || is_some own.summary

abbrev pub overrides : Option ToolResult → Bool
overrides none = false
overrides (some result) = replaces result.metadata

override-absent :
    {A : Type 0} (own : Option (Option A)) (written : Option A)
    → is_some own ≡ false
    → override own written ≡ written
override-absent none written h = refl
override-absent (some own) written h = absurd (ground (arith, h))

-- The event of a result under another name, success and summary, as it is read.
abbrev read_as : ToolResult → Option Text → Option Bool → Option Text → Option ToolResult
read_as result name success summary = result_of (
    timeline_event TimelineEventKind.tool_result result.output (some result.call_id)
      (record no_metadata { tool_name = name; success = success; summary = summary }))

read_as-eq :
    (result : ToolResult) (name : Option Text) (success : Option Bool) (summary : Option Text)
    → name ≡ some result.tool_name
    → success ≡ some result.success
    → summary ≡ some result.summary
    → read_as result name success summary ≡ some (kept_result result)
read_as-eq result name success summary e f g =
    ap (λ n. read_as result n success summary) e
    ∙ ap (λ b. read_as result (some result.tool_name) b summary) f
    ∙ ap (read_as result (some result.tool_name) (some result.success)) g

overridden-result :
    (own : Option ResultMetadata) (result : ToolResult) (written : Metadata)
    → replaces own ≡ false
    → written.tool_name ≡ some result.tool_name
    → written.success ≡ some result.success
    → written.summary ≡ some result.summary
    → result_of (
        timeline_event TimelineEventKind.tool_result result.output
          (some result.call_id)
          (overridden own written))
      ≡ some (kept_result result)
overridden-result none result written h name success summary =
    read_as-eq result written.tool_name written.success written.summary name success summary
overridden-result (some own) result written h name success summary =
    read_as-eq result _ _ _
      (override-absent own.tool_name written.tool_name (ground (arith, h)) ∙ name)
      (override-absent own.success written.success (ground (arith, h)) ∙ success)
      (override-absent own.summary written.summary (ground (arith, h)) ∙ summary)

-- What a reader makes of the event of a result.
result_of-entry :
    (result : ToolResult)
    → replaces result.metadata ≡ false
    → result_of (result_entry result) ≡ some (kept_result result)
result_of-entry result h =
    overridden-result result.metadata result
      (record no_metadata {
        tool_name = some result.tool_name;
        success = some result.success;
        summary = some result.summary;
        duration_seconds = result.duration_seconds;
      })
      h refl refl refl

-- What a reader has after these events.
abbrev read_to_end : List TimelineEvent → Reading
read_to_end events = read_all events ([], [])

module _ (current : AgentMessage) where
  -- The timeline read to its end is the history with the results that wait.
  abbrev pub Holds : TurnRecorder → Type 0
  Holds r =
      kept current ∷ all_of (read_to_end r.appended)
      ≡ map kept (r.history ++ flushed r.pending_results)

  -- Within a round that has results the reader is in step with the recorder; between the rounds
  -- the recorder may be ahead, with the results in its history. The parameters are four fields of
  -- the recorder, so that a step which leaves them alone needs no proof.
  pub data FollowsParts (persisted : Bool) (history : List AgentMessage) (pending : List ToolResult)
      (appended : List TimelineEvent) : Type 0 where
    within :
        persisted ≡ true
        → kept current ∷ (read_to_end appended).0 ≡ map kept history
        → (read_to_end appended).1 ≡ map kept_result pending
        → FollowsParts persisted history pending appended
    between :
        persisted ≡ false
        → pending ≡ []
        → kept current ∷ all_of (read_to_end appended) ≡ map kept history
        → FollowsParts persisted history pending appended

  abbrev pub Follows : TurnRecorder → Type 0
  Follows r = FollowsParts r.tool_turn_persisted r.history r.pending_results r.appended

  pub flush-Holds :
      (r : TurnRecorder)
      → Follows r
      → kept current ∷ all_of (read_to_end r.appended)
        ≡ map kept (r.history ++ flushed r.pending_results)
  flush-Holds r (within p h w) =
      ap (λ l. kept current ∷ ((read_to_end r.appended).0 ++ flushed l)) w
      ∙ ap (λ l. l ++ flushed (map kept_result r.pending_results)) h
      ∙ ap (λ l. map kept r.history ++ l) (sym (kept-flushed r.pending_results))
      ∙ sym (map-append kept r.history (flushed r.pending_results))
  flush-Holds r (between p e h) =
      h
      ∙ ap (map kept) (sym (append-nil r.history))
      ∙ ap (λ l. map kept (r.history ++ flushed l)) (sym e)

  pub begin_model-Follows : (r : TurnRecorder) → Follows r → Follows (begin_model r)
  unfolding begin_model
  begin_model-Follows r f = between refl refl (flush-Holds r f)

  -- One more event.
  pub read_snoc :
      (events : List TimelineEvent) (e : TimelineEvent)
      → read_to_end (events ++ e ∷ []) ≡ read_all (e ∷ []) (read_to_end events)
  read_snoc events e = read_all-append events (e ∷ []) ([], [])

  read_calls :
      (calls : List ToolCall) (reading : Reading)
      → read_all (map call_event calls) reading ≡ reading
  unfolding read_all
  read_calls [] reading = refl
  read_calls (c ∷ calls) reading = read_calls calls reading

  -- A recorder that has put its turn into the history.
  abbrev pub Within : TurnRecorder → Type 0
  Within r =
      (kept current ∷ (read_to_end r.appended).0 ≡ map kept r.history)
      × ((read_to_end r.appended).1 ≡ map kept_result r.pending_results)

  pub add_result-Within :
      (result : ToolResult) (r : TurnRecorder)
      → replaces result.metadata ≡ false
      → Within r
      → Within (add_result result r)
  unfolding add_result read_all
  add_result-Within result r plain (h, w) = (
    ap (λ (t : Reading). kept current ∷ t.0) (read_snoc r.appended (result_entry result)) ∙ h,
    ap (λ (t : Reading). t.1) (read_snoc r.appended (result_entry result))
        ∙ ap (with_result (read_to_end r.appended).1) (result_of-entry result plain)
        ∙ ap (λ l. l ++ kept_result result ∷ []) w
        ∙ sym (map-append kept_result r.pending_results (result ∷ [])),
  )

  pub persist_turn-Within :
      (state : Option ProviderMessageState) (r : TurnRecorder)
      → r.pending_results ≡ []
      → kept current ∷ all_of (read_to_end r.appended) ≡ map kept r.history
      → Within (persist_turn state r)
  unfolding persist_turn read_all
  persist_turn-Within state r e h =
      let entry = assistant_event (join r.response_text) r.calls state in
      let said = assistant_message (join r.response_text) r.calls state in
      let read =
        read_all-append r.appended (entry ∷ map call_event r.calls) ([], [])
        ∙ read_calls r.calls (read_all (entry ∷ []) (read_to_end r.appended)) in
      (
        ap (λ (t : Reading). kept current ∷ t.0) read
            ∙ ap (λ l. l ++ kept said ∷ []) h
            ∙ sym (map-append kept r.history (said ∷ [])),
        ap (λ (t : Reading). t.1) read ∙ ap (map kept_result) (sym e),
      )
