-- ===== src/Context.antt =====
-- context.py: what of a conversation goes into a request. Events and their groups, the messages
-- made of them, the tool results to move out, and the history to keep when it is compacted.
-- JSON objects stand as their texts, and the metadata of an event as what the readers find in it.
pub mod Messages
pub mod Groups
pub mod Offloads
pub mod Compaction
pub mod Builder
mod Samples
use fakuicode.Prelude.{
  ℕ, ◌+◌, ◌/◌, Bool, true, false, ◌&&◌, ◌||◌, Option, none, some, List, [], ◌∷◌, ◌++◌, Text, codes,
  ltb, if◌then◌else◌,
}

pub data TimelineEventKind : Type 0 where
  user assistant thinking tool_call tool_result progress usage summary : TimelineEventKind
  context_diagnostic hook_diagnostic skill_activation agent_result system : TimelineEventKind

pub data ToolArgumentError : Type 0 where
  invalid_json : ToolArgumentError

pub record ToolCall : Type 0 where
  pub id : Text
  pub name : Text
  pub arguments : Text
  pub argument_error : Option ToolArgumentError

-- What is read of a result's own metadata. An entry that takes part in the metadata of an event is
-- none if the key is absent, and `some none` if its value has another type than the readers want.
pub record ResultMetadata : Type 0 where
  pub tool_name : Option (Option Text)
  pub success : Option (Option Bool)
  pub summary : Option (Option Text)
  pub duration_seconds : Option (Option ℕ)
  pub finish_agent_turn : Bool
  pub finish_agent_turn_message : Option Text

-- A duration is a number of microseconds.
pub record ToolResult : Type 0 where
  pub call_id : Text
  pub tool_name : Text
  pub success : Bool
  pub output : Text
  pub summary : Text
  pub duration_seconds : Option ℕ
  pub metadata : Option ResultMetadata

-- A block of a provider: its `type`, if that is a text, and the whole of it as JSON.
pub record ThinkingBlock : Type 0 where
  pub type : Option Text
  pub json : Text

pub record ProviderMessageState : Type 0 where
  pub protocol : Text
  pub thinking_blocks : List ThinkingBlock

-- The entries of an event's metadata that `_tool_calls`, `_provider_state`, `_tool_result` and the
-- summaries read: an absent or ill-typed entry is `none` or the empty list, and an entry
-- `provider_state` is a text for the protocol with a list of blocks. A duration is kept and not read.
pub record Metadata : Type 0 where
  pub tool_calls : List ToolCall
  pub provider_state : Option ProviderMessageState
  pub tool_name : Option Text
  pub success : Option Bool
  pub summary : Option Text
  pub duration_seconds : Option ℕ
  pub through_sequence : Option ℕ

pub record TimelineEvent : Type 0 where
  pub sequence : ℕ
  pub kind : TimelineEventKind
  pub content : Text
  pub call_id : Option Text
  pub metadata : Metadata

pub data Role : Type 0 where
  user assistant : Role

pub record AgentMessage : Type 0 where
  pub role : Role
  pub content : Text
  pub tool_calls : List ToolCall
  pub tool_results : List ToolResult
  pub provider_state : Option ProviderMessageState

pub record ContextGroup : Type 0 where
  pub events : List TimelineEvent
  pub start_sequence : ℕ
  pub end_sequence : ℕ
  pub estimated_tokens : ℕ
  pub user_sequences : List ℕ

-- The defaults of `ContextPolicy` that these functions read. `preview n` is
-- `int(n * tool_preview_ratio)`, the product of a float.
pub record ContextPolicy : Type 0 where
  pub single_tool_result_tokens : ℕ
  pub tool_round_tokens : ℕ
  pub preview : ℕ → ℕ
  pub tool_preview_max_tokens : ℕ
  pub recent_history_target_tokens : ℕ
  pub recent_history_min_groups : ℕ
  pub older_user_messages_target_tokens : ℕ

-- The bytes of a code point in UTF-8.
abbrev utf8_size : ℕ → ℕ
utf8_size c = if ltb c 0x80 then 1 else if ltb c 0x800 then 2 else if ltb c 0x10000 then 3 else 4

byte_count : Text → ℕ
byte_count [] = 0
byte_count (c ∷ s) = utf8_size c + byte_count s

unfoldable pub approximate_token_count : Text → ℕ
unfolding byte_count
approximate_token_count value = (byte_count value + 3) / 4

abbrev pub is_tool_event : TimelineEventKind → Bool
is_tool_event tool_call = true
is_tool_event tool_result = true
is_tool_event _ = false

abbrev pub is_user_event : TimelineEventKind → Bool
is_user_event TimelineEventKind.user = true
is_user_event _ = false

unfoldable pub token_sum : List TimelineEvent → ℕ
token_sum [] = 0
token_sum (event ∷ events) = approximate_token_count event.content + token_sum events
