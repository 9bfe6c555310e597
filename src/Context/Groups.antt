-- ===== src/Context/Groups.antt =====
-- `group_context_events`: the groups of events, cut between rounds.
use fakuicode.Prelude.{
  ◌⊎◌, inl, inr, arith, ℕ, ◌≡◌, refl, sym, ap, subst, bool_ind, ◌∙◌, Bool, true, false, ◌&&◌, List,
  [], ◌∷◌, ◌++◌, append_assoc, Text,
}
use fakuicode.Context.{
  TimelineEventKind, tool_call, tool_result, TimelineEvent, AgentMessage, ContextGroup,
  approximate_token_count, is_tool_event, is_user_event, token_sum,
}
use fakuicode.Context.Messages.{messages_from_events}

last_sequence : TimelineEvent → List TimelineEvent → ℕ
last_sequence event [] = event.sequence
last_sequence event (later ∷ events) = last_sequence later events

user_sequences : List TimelineEvent → List ℕ
user_sequences [] = []
user_sequences (event ∷ events) = elim (is_user_event event.kind) [
  | true ↦ event.sequence ∷ user_sequences events
  | false ↦ user_sequences events
]

-- `serialize` is `serialize_agent_messages`, the text that `json.dumps` makes of the messages.
estimate : (List AgentMessage → Text) → List TimelineEvent → List AgentMessage → ℕ
unfolding token_sum
estimate serialize events [] = token_sum events
estimate serialize events (m ∷ messages) = approximate_token_count (serialize (m ∷ messages))

-- `_context_group`, of a list that is not empty.
unfoldable pub context_group :
    (List AgentMessage → Text) → TimelineEvent → List TimelineEvent → ContextGroup
unfolding last_sequence user_sequences estimate messages_from_events
context_group serialize first rest = record {
  events = first ∷ rest;
  start_sequence = first.sequence;
  end_sequence = last_sequence first rest;
  estimated_tokens = estimate serialize (first ∷ rest) (messages_from_events (first ∷ rest));
  user_sequences = user_sequences (first ∷ rest);
}

-- The kinds behind which tool events belong to the same group.
abbrev pub takes_tools : TimelineEventKind → Bool
takes_tools TimelineEventKind.assistant = true
takes_tools tool_call = true
takes_tools tool_result = true
takes_tools _ = false

-- The loops, with the group at hand.
grow :
    (List AgentMessage → Text)
    → TimelineEvent
    → List TimelineEvent
    → List TimelineEvent
    → List ContextGroup
grow serialize first rest [] = context_group serialize first rest ∷ []
grow serialize first rest (event ∷ events) =
    elim (takes_tools first.kind && is_tool_event event.kind) [
      | true ↦ grow serialize first (rest ++ event ∷ []) events
      | false ↦ context_group serialize first rest ∷ grow serialize event [] events
    ]

unfoldable pub group_context_events :
    (List AgentMessage → Text) → List TimelineEvent → List ContextGroup
unfolding grow
group_context_events serialize [] = []
group_context_events serialize (event ∷ events) = grow serialize event [] events

pub events_in : List ContextGroup → List TimelineEvent
events_in [] = []
events_in (group ∷ groups) = group.events ++ events_in groups

pub events_in-append :
    (gs hs : List ContextGroup) → events_in (gs ++ hs) ≡ events_in gs ++ events_in hs
unfolding events_in
events_in-append [] hs = refl
events_in-append (group ∷ gs) hs =
    ap (λ l. group.events ++ l) (events_in-append gs hs)
    ∙ sym (append_assoc group.events (events_in gs) (events_in hs))

events_in-grow :
    (serialize : List AgentMessage → Text) (first : TimelineEvent)
    (rest events : List TimelineEvent)
    → events_in (grow serialize first rest events) ≡ first ∷ (rest ++ events)
unfolding events_in grow context_group
events_in-grow serialize first rest [] = refl
events_in-grow serialize first rest (event ∷ events) =
    bool_ind (λ groups. events_in groups ≡ first ∷ (rest ++ event ∷ events))
      (takes_tools first.kind && is_tool_event event.kind)
      (λ e.
        events_in-grow serialize first (rest ++ event ∷ []) events
        ∙ ap (λ l. first ∷ l) (append_assoc rest (event ∷ []) events))
      (λ e. ap (λ l. first ∷ (rest ++ l)) (events_in-grow serialize event [] events))

-- The groups, put together, are the events: none is lost, doubled or moved.
pub events_in-group_context_events :
    (serialize : List AgentMessage → Text) (events : List TimelineEvent)
    → events_in (group_context_events serialize events) ≡ events
unfolding group_context_events events_in
events_in-group_context_events serialize [] = refl
events_in-group_context_events serialize (event ∷ events) = events_in-grow serialize event [] events

-- The kinds of two neighbouring events that belong together: a tool event behind the assistant's
-- message or behind another tool event.
pub data Joins : TimelineEventKind → TimelineEventKind → Type 0 where
  assistant_call : Joins TimelineEventKind.assistant tool_call
  assistant_result : Joins TimelineEventKind.assistant tool_result
  call_call : Joins tool_call tool_call
  call_result : Joins tool_call tool_result
  result_call : Joins tool_result tool_call
  result_result : Joins tool_result tool_result

-- The last event of the one list and the first of the other do not belong together.
abbrev pub BreakBetween : List TimelineEvent → List TimelineEvent → Type 0
BreakBetween events others =
    (before after : List TimelineEvent) (x y : TimelineEvent)
    → events ≡ before ++ x ∷ []
    → others ≡ y ∷ after
    → ¬ Joins x.kind y.kind

abbrev pub KeepsRounds : List ContextGroup → Type 0
KeepsRounds [] = Unit
KeepsRounds (group ∷ []) = Unit
KeepsRounds (group ∷ next ∷ groups) =
    BreakBetween group.events next.events × KeepsRounds (next ∷ groups)

Joins-takes :
    {k l : TimelineEventKind} → Joins k l → (takes_tools k ≡ true) × (is_tool_event l ≡ true)
Joins-takes assistant_call = (refl, refl)
Joins-takes assistant_result = (refl, refl)
Joins-takes call_call = (refl, refl)
Joins-takes call_result = (refl, refl)
Joins-takes result_call = (refl, refl)
Joins-takes result_result = (refl, refl)

abbrev first_or : TimelineEvent → List TimelineEvent → TimelineEvent
first_or e [] = e
first_or e (x ∷ events) = x

-- What a group at hand looks like: its first event alone, or one that takes tool events.
abbrev Growing : TimelineEvent → List TimelineEvent → Type 0
Growing first rest = (rest ≡ []) ⊎ (takes_tools first.kind ≡ true)

abbrev single : List TimelineEvent → Bool
single (x ∷ []) = true
single _ = false

-- A list of one event that ends in another is that one.
only_event :
    (first x : TimelineEvent) (before : List TimelineEvent)
    → first ∷ [] ≡ before ++ x ∷ []
    → first ≡ x
only_event first x [] e = ap (first_or first) e
only_event first x (y ∷ []) e = absurd (ground (arith, ap single e))
only_event first x (y ∷ z ∷ before) e = absurd (ground (arith, ap single e))

breaks :
    (first event : TimelineEvent) (rest others : List TimelineEvent)
    → Growing first rest
    → (takes_tools first.kind && is_tool_event event.kind) ≡ false
    → BreakBetween (first ∷ rest) (event ∷ others)
breaks first event rest others (inr takes) apart before after x y e f j =
    let tool = (Joins-takes j).1 in
    let same = ap (λ l. is_tool_event (first_or event l).kind) f in
    absurd (ground (arith, takes, apart, tool, same))
breaks first event rest others (inl alone) apart before after x y e f j =
    let (takes, tool) = Joins-takes j in
    let last = only_event first x before (ap (λ l. first ∷ l) (sym alone) ∙ e) in
    let same = ap (λ l. is_tool_event (first_or event l).kind) f in
    let taken = ap (λ (v : TimelineEvent). takes_tools v.kind) last in
    absurd (ground (arith, takes, taken, apart, tool, same))

abbrev Begins : TimelineEvent → List ContextGroup → Type 0
Begins event [] = ⊥
Begins event (group ∷ groups) = (rest : List TimelineEvent) × (group.events ≡ event ∷ rest)

KeepsRounds-cons :
    (group : ContextGroup) (first event : TimelineEvent) (rest : List TimelineEvent)
    (groups : List ContextGroup)
    → group.events ≡ first ∷ rest
    → Growing first rest
    → (takes_tools first.kind && is_tool_event event.kind) ≡ false
    → Begins event groups
    → KeepsRounds groups
    → KeepsRounds (group ∷ groups)
KeepsRounds-cons group first event rest [] whole grown apart begins h = absurd begins
KeepsRounds-cons group first event rest (next ∷ groups) whole grown apart (others, begins) h = (
  subst (λ l. BreakBetween l next.events) (sym whole)
      (subst (BreakBetween (first ∷ rest)) (sym begins)
        (breaks first event rest others grown apart)),
  h,
)

grow-Begins :
    (serialize : List AgentMessage → Text) (first : TimelineEvent)
    (rest events : List TimelineEvent)
    → Begins first (grow serialize first rest events)
unfolding grow context_group
grow-Begins serialize first rest [] = (rest, refl)
grow-Begins serialize first rest (event ∷ events) =
    bool_ind (Begins first) (takes_tools first.kind && is_tool_event event.kind)
      (λ e. grow-Begins serialize first (rest ++ event ∷ []) events) (λ e. (rest, refl))

grow-KeepsRounds :
    (serialize : List AgentMessage → Text) (first : TimelineEvent)
    (rest events : List TimelineEvent)
    → Growing first rest
    → KeepsRounds (grow serialize first rest events)
unfolding grow context_group
grow-KeepsRounds serialize first rest [] grown = tt
grow-KeepsRounds serialize first rest (event ∷ events) grown =
    bool_ind KeepsRounds (takes_tools first.kind && is_tool_event event.kind)
      (λ e. grow-KeepsRounds serialize first (rest ++ event ∷ []) events (inr (ground (arith, e))))
      (λ e.
        KeepsRounds-cons (context_group serialize first rest) first event rest _ refl grown e
          (grow-Begins serialize event [] events)
          (grow-KeepsRounds serialize event [] events (inl refl)))

-- Where one group ends and the next begins, the next one's first event is no tool call or tool
-- result that stands directly behind an assistant message, a tool call or a tool result: a round of
-- tool calls and results is never split.
pub group_context_events-KeepsRounds :
    (serialize : List AgentMessage → Text) (events : List TimelineEvent)
    → KeepsRounds (group_context_events serialize events)
unfolding group_context_events
group_context_events-KeepsRounds serialize [] = tt
group_context_events-KeepsRounds serialize (event ∷ events) =
    grow-KeepsRounds serialize event [] events (inl refl)
