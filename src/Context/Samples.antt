-- ===== src/Context/Samples.antt =====
-- A short conversation: a question, an answer with one tool call, and the next question.
use fakuicode.Prelude.{
  ℕ, ◌+◌, ◌≤◌, ◌≡◌, refl, true, none, some, List, [], ◌∷◌, ◌++◌, Text, codes, In, here, there,
}
use fakuicode.Context.{
  TimelineEventKind, tool_call, tool_result, Metadata, TimelineEvent, AgentMessage, ContextGroup,
  ContextPolicy, approximate_token_count, token_sum,
}
use fakuicode.Context.Groups.{
  context_group, group_context_events, KeepsRounds, group_context_events-KeepsRounds,
}
use fakuicode.Context.Compaction.{within_budget, select_compaction_history, group_tokens}
use fakuicode.Context.Compaction.Preserved.{FromGroup, preserved_user_events-FromGroup}
use fakuicode.Context.Compaction.Budget.{selection-within_budget}
use fakuicode.Context.Offloads.{
  single_result, with_offload_reason, offload_candidate, plan_tool_result_offloads, is_oversized,
  oversized_is_planned,
}
use fakuicode.Context.Builder.{
  build, messages_with, latest_summary, candidates_of, build-splits_candidates,
}

abbrev no_metadata : Metadata
no_metadata = record {
  tool_calls = [];
  provider_state = none;
  tool_name = none;
  success = none;
  summary = none;
  duration_seconds = none;
  through_sequence = none;
}

abbrev event : ℕ → TimelineEventKind → Text → TimelineEvent
event sequence kind content = record {
  sequence = sequence;
  kind = kind;
  content = content;
  call_id = none;
  metadata = no_metadata;
}

abbrev result_event : TimelineEvent
result_event = record {
  sequence = 4;
  kind = tool_result;
  content = codes "def main(): pass # and more";
  call_id = some (codes "call-1");
  metadata = record no_metadata { tool_name = some (codes "read_file"); success = some true };
}

abbrev conversation : List TimelineEvent
conversation =
    event 1 TimelineEventKind.user (codes "what does it do?")
    ∷ event 2 TimelineEventKind.assistant (codes "let me see")
    ∷ event 3 tool_call (codes "read_file")
    ∷ result_event
    ∷ event 5 TimelineEventKind.user (codes "go on")
    ∷ []

abbrev as_text : List AgentMessage → Text
as_text messages = codes "[]"

abbrev policy : ContextPolicy
policy = record {
  single_tool_result_tokens = 5;
  tool_round_tokens = 6;
  preview = λ n. 1;
  tool_preview_max_tokens = 2;
  recent_history_target_tokens = 1;
  recent_history_min_groups = 1;
  older_user_messages_target_tokens = 5;
}

abbrev rounds : List ContextGroup
rounds = group_context_events as_text conversation

group_context_events-KeepsRounds_example : KeepsRounds rounds
group_context_events-KeepsRounds_example = group_context_events-KeepsRounds as_text conversation

selection-within_budget_example :
    ((select_compaction_history policy 9 rounds).recent_tokens
      ≡ group_tokens (select_compaction_history policy 9 rounds).recent_groups)
    × ((select_compaction_history policy 9 rounds).preserved_user_tokens
        ≡ token_sum (select_compaction_history policy 9 rounds).preserved_user_events)
    × ((select_compaction_history policy 9 rounds).recent_tokens
          + (select_compaction_history policy 9 rounds).preserved_user_tokens
        ≤ 9)
selection-within_budget_example = selection-within_budget policy 9 rounds

first_question_is_kept :
    In
      (event 1 TimelineEventKind.user (codes "what does it do?"))
      (select_compaction_history policy 9 rounds).preserved_user_events
unfolding select_compaction_history group_context_events context_group approximate_token_count
    group_tokens token_sum within_budget
first_question_is_kept = here

preserved_user_events-FromGroup_example :
    FromGroup
      (event 1 TimelineEventKind.user (codes "what does it do?"))
      (select_compaction_history policy 9 rounds).summary_groups
preserved_user_events-FromGroup_example =
    preserved_user_events-FromGroup policy 9 rounds
      (event 1 TimelineEventKind.user (codes "what does it do?")) first_question_is_kept

abbrev answer_round : ContextGroup
answer_round =
    context_group as_text (event 2 TimelineEventKind.assistant (codes "let me see"))
      (event 3 tool_call (codes "read_file") ∷ result_event ∷ [])

result_in_round : In result_event answer_round.events
unfolding context_group
result_in_round = there (there here)

result_is_big : is_oversized policy (offload_candidate policy answer_round result_event) ≡ true
unfolding offload_candidate approximate_token_count
result_is_big = refl

oversized_is_planned_example :
    In
      (with_offload_reason single_result (offload_candidate policy answer_round result_event))
      (plan_tool_result_offloads policy (answer_round ∷ []))
oversized_is_planned_example =
    oversized_is_planned policy (answer_round ∷ []) answer_round result_event here result_in_round
      refl result_is_big

build-splits_candidates_example :
    (retained : List TimelineEvent) × ((build as_text 40 conversation).messages
      ≡ messages_with (latest_summary conversation) retained)
    × ((build as_text 40 conversation).events_for_summary ++ retained ≡ candidates_of conversation)
build-splits_candidates_example = build-splits_candidates as_text 40 conversation
