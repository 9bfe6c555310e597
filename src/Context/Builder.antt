-- ===== src/Context/Builder.antt =====
-- `ContextBuilder.build`: the messages of a request, and the events that need a summary.
use fakuicode.Prelude.{
  ℕ, ◌+◌, ◌-◌, ◌/◌, ◌≡◌, refl, sym, ap, ◌∙◌, Bool, true, false, ◌&&◌, Option, none, some, List, [],
  ◌∷◌, ◌++◌, Text, reverse, reverse-append, reverse-reverse, length, filter, leb, ltb, max,
  bool_ind, if_ind, if◌then◌else◌,
}
use fakuicode.Context.{
  TimelineEventKind, tool_call, tool_result, agent_result, TimelineEvent, Role, AgentMessage,
  ContextGroup,
}
use fakuicode.Context.Messages.{message, messages_from_events}
use fakuicode.Context.Groups.{
  group_context_events, events_in, events_in-append, events_in-group_context_events,
}
use fakuicode.Context.Compaction.{take}
use fakuicode.Context.Compaction.Parts.{take-append}

pub record ContextPlan : Type 0 where
  pub messages : List AgentMessage
  pub events_for_summary : List TimelineEvent

abbrev is_summary : TimelineEventKind → Bool
is_summary TimelineEventKind.summary = true
is_summary _ = false

-- `_latest_summary`
pub latest_summary : List TimelineEvent → Option TimelineEvent
latest_summary [] = none
latest_summary (event ∷ events) = elim (latest_summary events) [
  | some later ↦ some later
  | none ↦ if is_summary event.kind then some event else none
]

-- `_covered_through`
abbrev pub covered_through : Option TimelineEvent → ℕ
covered_through none = 0
covered_through (some summary) = elim summary.metadata.through_sequence [
  | none ↦ 0
  | some sequence ↦ sequence
]

abbrev is_candidate_kind : TimelineEventKind → Bool
is_candidate_kind TimelineEventKind.user = true
is_candidate_kind TimelineEventKind.assistant = true
is_candidate_kind tool_call = true
is_candidate_kind tool_result = true
is_candidate_kind agent_result = true
is_candidate_kind _ = false

unfoldable pub candidates_of : List TimelineEvent → List TimelineEvent
unfolding filter latest_summary
candidates_of events =
    filter
      (λ (event : TimelineEvent).
        ltb (covered_through (latest_summary events)) event.sequence
        && is_candidate_kind event.kind)
      events

-- `_character_count`
pub event_characters : List TimelineEvent → ℕ
event_characters [] = 0
event_characters (event ∷ events) = length event.content + event_characters events

pub character_count : List ContextGroup → ℕ
unfolding event_characters
character_count [] = 0
character_count (group ∷ groups) = event_characters group.events + character_count groups

-- `for group in reversed(groups)`: the newest groups that fit, the newest one in any case.
pub take_fitting : ℕ → ℕ → Bool → List ContextGroup → List ContextGroup
unfolding event_characters
take_fitting budget used some_taken [] = []
take_fitting budget used some_taken (group ∷ older) =
    elim (some_taken && ltb budget (used + event_characters group.events)) [
      | true ↦ []
      | false ↦ group ∷ take_fitting budget (used + event_characters group.events) true older
    ]

-- `_messages`
unfoldable pub messages_with : Option TimelineEvent → List TimelineEvent → List AgentMessage
messages_with none events = messages_from_events events
messages_with (some summary) events =
    message Role.assistant summary.content ∷ messages_from_events events

abbrev pub fitting_groups : ℕ → List ContextGroup → List ContextGroup
fitting_groups max_characters groups =
    reverse (take_fitting (max 1 (max_characters / 2)) 0 false (reverse groups))

abbrev pub summary_groups : ℕ → List ContextGroup → List ContextGroup
summary_groups max_characters groups =
    take (length groups - length (fitting_groups max_characters groups)) groups

unfoldable pub build : (List AgentMessage → Text) → ℕ → List TimelineEvent → ContextPlan
unfolding character_count take_fitting
build serialize max_characters events =
    let candidates = candidates_of events in
    let groups = group_context_events serialize candidates in
    if leb (character_count groups) max_characters
    then record {
      messages = messages_with (latest_summary events) candidates;
      events_for_summary = [];
    }
    else record {
      messages =
          messages_with (latest_summary events) (events_in (fitting_groups max_characters groups));
      events_for_summary = events_in (summary_groups max_characters groups);
    }

take_fitting-prefix :
    (budget used : ℕ) (some_taken : Bool) (groups : List ContextGroup)
    → (older : List ContextGroup) × (take_fitting budget used some_taken groups ++ older ≡ groups)
unfolding take_fitting
take_fitting-prefix budget used some_taken [] = ([], refl)
take_fitting-prefix budget used some_taken (group ∷ groups) =
    bool_ind (λ taken. (older : List ContextGroup) × (taken ++ older ≡ group ∷ groups))
      (some_taken && ltb budget (used + event_characters group.events))
      (λ e. (group ∷ groups, refl))
      (λ e.
        let (older, same) =
          take_fitting-prefix budget (used + event_characters group.events) true groups in
        (older, ap (λ l. group ∷ l) same))

summary_groups-fitting_groups :
    (max_characters : ℕ) (groups : List ContextGroup)
    → summary_groups max_characters groups ++ fitting_groups max_characters groups ≡ groups
summary_groups-fitting_groups max_characters groups =
    let taken = take_fitting (max 1 (max_characters / 2)) 0 false (reverse groups) in
    let (older, same) = take_fitting-prefix (max 1 (max_characters / 2)) 0 false (reverse groups) in
    let parts : reverse older ++ reverse taken ≡ groups =
      sym (reverse-append taken older) ∙ ap reverse same ∙ reverse-reverse groups in
    ap (λ l. l ++ reverse taken) (take-append groups (reverse older) (reverse taken) parts) ∙ parts

-- The events to summarize and those that the messages are made of are all the candidates, in order:
-- a build leaves no event out, and it splits them between two groups.
pub build-splits_candidates :
    (serialize : List AgentMessage → Text) (max_characters : ℕ) (events : List TimelineEvent)
    → (retained : List TimelineEvent) × ((build serialize max_characters events).messages
        ≡ messages_with (latest_summary events) retained)
      × ((build serialize max_characters events).events_for_summary ++ retained
          ≡ candidates_of events)
unfolding build
build-splits_candidates serialize max_characters events =
    let groups = group_context_events serialize (candidates_of events) in
    if_ind
      (λ (plan : ContextPlan).
        (retained : List TimelineEvent) × (plan.messages
          ≡ messages_with (latest_summary events) retained)
        × (plan.events_for_summary ++ retained ≡ candidates_of events))
      (leb (character_count groups) max_characters) (λ e. (candidates_of events, refl, refl))
      (λ e. (
        events_in (fitting_groups max_characters groups),
        refl,
        sym (
              events_in-append (summary_groups max_characters groups)
                (fitting_groups max_characters groups))
            ∙ ap events_in (summary_groups-fitting_groups max_characters groups)
            ∙ events_in-group_context_events serialize (candidates_of events),
      ))
