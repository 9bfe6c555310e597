-- ===== src/Agent/Collector.antt =====
-- agent.py: `StreamCollector`, what a model's answer comes to.
use fakuicode.Prelude.{
  Bool, true, false, not, Option, none, some, List, [], ◌∷◌, ◌++◌, Text, text_eq, any,
  if◌then◌else◌,
}
use fakuicode.Context.{ThinkingBlock, ToolCall, ProviderMessageState}
use fakuicode.Subagents.TaskState.{TokenUsage}
use fakuicode.Agent.{EventKind, text_delta, tool_call, usage, AgentStreamEvent}

pub record StreamCollector : Type 0 where
  pub text_parts : List Text
  pub tool_calls : List ToolCall
  pub completed : Bool
  pub latest_usage : Option TokenUsage
  pub provider_states : List ProviderMessageState

abbrev pub new_collector : StreamCollector
new_collector = record {
  text_parts = [];
  tool_calls = [];
  completed = false;
  latest_usage = none;
  provider_states = [];
}

-- `"".join(parts)`
unfoldable pub join : List Text → Text
join [] = []
join (t ∷ ts) = t ++ join ts

-- The cases of `observe` on the kind of the event; `none` is the ProviderError of an invalid call.
abbrev pub observe_kind : EventKind → AgentStreamEvent → StreamCollector → Option StreamCollector
observe_kind text_delta e c = some (record c { text_parts = c.text_parts ++ e.text ∷ [] })
observe_kind tool_call e c = elim e.tool_call [
  | none ↦ none
  | some call ↦ some (record c { tool_calls = c.tool_calls ++ call ∷ [] })
]
observe_kind EventKind.completed e c = some (record c { completed = true })
observe_kind usage e c = elim e.usage [
  | none ↦ some c
  | some counts ↦ some (record c { latest_usage = some counts })
]
observe_kind _ e c = some c

abbrev pub with_state : Option ProviderMessageState → StreamCollector → StreamCollector
with_state none c = c
with_state (some state) c = record c { provider_states = c.provider_states ++ state ∷ [] }

unfoldable pub observe : AgentStreamEvent → StreamCollector → Option StreamCollector
observe e c = elim (observe_kind e.kind e c) [
  | none ↦ none
  | some c' ↦ some (with_state e.provider_state c')
]

blocks_of : List ProviderMessageState → List ThinkingBlock
blocks_of [] = []
blocks_of (s ∷ states) = s.thinking_blocks ++ blocks_of states

-- `StreamCollector.provider_state` of agent.py and `_merge_provider_states` of turns.py, which are
-- the same function; the outer `none` is the ProviderError of incompatible states.
unfoldable pub merge_provider_states :
    List ProviderMessageState → Option (Option ProviderMessageState)
unfolding blocks_of any
merge_provider_states [] = some none
merge_provider_states (s ∷ states) =
    if any (λ t. not (text_eq t.protocol s.protocol)) (s ∷ states)
    then none
    else some (some (record { protocol = s.protocol; thinking_blocks = blocks_of (s ∷ states) }))
