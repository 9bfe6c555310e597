-- ===== src/Agent/Samples.antt =====
-- A small run: the model calls a tool twice, hears the results, and answers.
use fakuicode.Prelude.{
  ℕ, zero, suc, ◌+◌, ◌≤◌, ◌≡◌, refl, true, false, none, some, List, [], ◌∷◌, map, Text, codes,
  text_eq, strip, any, arith,
}
use fakuicode.Context.{ToolCall, ToolResult, AgentMessage, Role}
use fakuicode.Context.Messages.{message}
use fakuicode.Agent.{execute, EventKind, AgentStreamEvent, event, AgentRequest, text_delta, usage}
use fakuicode.Agent.Errors.{
  ProviderError, provider_error, transient, provider_error_message, normalize_provider_request_id,
}
use fakuicode.Agent.Streams.{Streamer, Attempt, exhausted, provider_failed, stream_with_retries}
use fakuicode.Agent.Collector.{new_collector}
use fakuicode.Agent.Streams.Once.{IsGood, stream_with_retries-IsGood}
use fakuicode.Agent.Batches.{answer_calls}
use fakuicode.Agent.ToolResults.{Tools, returned, tool_batches}
use fakuicode.Agent.Batches.Split.{IsSplit, tool_batches-IsSplit}
use fakuicode.Agent.Batches.Answers.{AnswersCalls, ids, result_ids}
use fakuicode.Agent.Batches.Complete.{Distinct, answer_calls_complete}
use fakuicode.Agent.Requests.{AgentTurnContext, RequestSource}
use fakuicode.Agent.Runner.{Runner}
use fakuicode.Agent.Loop.{run}
use fakuicode.Agent.Loop.Ends.{run-EndsOnce}
use fakuicode.Agent.Loop.Terminal.{EndsOnce, KeepsContract, is_reserved}
use fakuicode.Agent.Loop.Replay.{run-Replays}
use fakuicode.Turns.{new_recorder}
use fakuicode.Turns.Hearing.{KeepsProtocol}
use fakuicode.Turns.Steps.{is_improper}
use fakuicode.Turns.InStep.{Replays}

abbrev call_of : Text → Text → ToolCall
call_of id name = record { id = id; name = name; arguments = []; argument_error = none }

abbrev calls : List ToolCall
calls =
    call_of (codes "1") (codes "read")
    ∷ call_of (codes "2") (codes "read")
    ∷ call_of (codes "3") (codes "write")
    ∷ []

abbrev result_for : ToolCall → ToolResult
result_for call = record {
  call_id = call.id;
  tool_name = call.name;
  success = true;
  output = codes "text";
  summary = codes "done";
  duration_seconds = none;
  metadata = none;
}

abbrev tools : Tools ℕ
tools = record {
  is_known = λ w name. true;
  is_read_only = λ w name. text_eq name (codes "read");
  execute = λ call ro w. (returned (result_for call), w + 10);
  submit = λ call w. (true, w);
  is_lost = λ call w. (false, w);
  is_cancelled = λ w. (false, w);
}

abbrev tools-AnswersCalls : AnswersCalls tools
tools-AnswersCalls call ro w = refl

abbrev calling : Attempt
calling = record {
  events =
      record (event EventKind.tool_call []) {
        tool_call = some (call_of (codes "1") (codes "read"));
      }
      ∷ event EventKind.completed []
      ∷ [];
  end = exhausted;
}

abbrev answering : Attempt
answering = record {
  events = event text_delta (codes "done") ∷ event EventKind.completed [] ∷ [];
  end = exhausted;
}

-- The first request is answered by a call, the others by a text.
abbrev reply : ℕ → Attempt
reply zero = calling
reply (suc n) = answering

abbrev source : RequestSource ℕ
source = record {
  request_template = none;
  definitions = λ ro w. [];
  hook_prompts = none;
  catalog_text = λ w. [];
  active_prompt = λ w. [];
  custom_instructions = [];
  agent_system_prompt = codes "prompt";
  supports_structured_requests = false;
  build_request_envelope = λ a. ([], []);
}

abbrev runner : Runner ℕ
runner = record {
  invoke = λ text sent w. (reply w, w);
  tools = tools;
  source = source;
  context_manager = none;
  dispatch_hook = none;
  begin_run = λ mode w. w;
  set_parent_messages = λ history w. w;
  finish_turn_message = λ results w. none;
  max_iterations = 3;
  retry_provider_errors = true;
}

abbrev no_context : AgentTurnContext
no_context = record { memory_snapshot = none; first_request_reminder = [] }

abbrev question : AgentMessage
question = message Role.user (codes "read it")

reply-contract : (w : ℕ) → any (λ (e : AgentStreamEvent). is_reserved e) (reply w).events ≡ false
unfolding any
reply-contract zero = refl
reply-contract (suc w) = refl

runner-KeepsContract : KeepsContract runner.invoke
runner-KeepsContract text sent w = reply-contract w

reply-protocol : (w : ℕ) → any (λ (e : AgentStreamEvent). is_improper e) (reply w).events ≡ false
unfolding any
reply-protocol zero = refl
reply-protocol (suc w) = refl

runner-KeepsProtocol : KeepsProtocol runner.invoke
runner-KeepsProtocol text sent w = reply-protocol w

three-rounds : 1 ≤ runner.max_iterations
three-rounds = omega arith

run-EndsOnce_example : EndsOnce (run runner execute no_context (question ∷ []) none 0)
run-EndsOnce_example =
    run-EndsOnce runner execute runner-KeepsContract no_context (question ∷ []) none 0 three-rounds

run-Replays_example :
    Replays
      (question ∷ [])
      question
      (run runner execute no_context (question ∷ []) none 0)
      (new_recorder question)
run-Replays_example =
    run-Replays runner execute tools-AnswersCalls runner-KeepsProtocol no_context (question ∷ [])
      question none 0 three-rounds

-- The run: a round with a call, and a round with the answer.
run_kinds :
    map
      (λ (e : AgentStreamEvent). e.kind)
      (run runner execute no_context (question ∷ []) none 0).events
    ≡ EventKind.progress ∷ EventKind.tool_call ∷ EventKind.progress ∷ EventKind.tool_result
      ∷ EventKind.progress ∷ EventKind.text_delta ∷ EventKind.completed ∷ []
unfolding run text_eq strip
run_kinds = refl

calls-Distinct : Distinct (ids calls)
unfolding any text_eq
calls-Distinct = (refl, (refl, (refl, tt)))

calls-answered : (answer_calls tools calls false 0 0).failure ≡ none
unfolding answer_calls text_eq
calls-answered = refl

answer_calls_complete_example : result_ids (answer_calls tools calls false 0 0).results ≡ ids calls
answer_calls_complete_example =
    answer_calls_complete tools tools-AnswersCalls calls false 0 0 calls-Distinct calls-answered

tool_batches-IsSplit_example :
    IsSplit
      (λ c. text_eq c.name (codes "read"))
      false
      (tool_batches (λ c. text_eq c.name (codes "read")) [] calls)
      calls
tool_batches-IsSplit_example = tool_batches-IsSplit (λ c. text_eq c.name (codes "read")) calls

-- A provider that fails once for a while, after a count of tokens.
abbrev busy : ProviderError
busy = provider_error true transient (some 529) (some (codes "overloaded_error")) none none

abbrev failing : ℕ → Attempt
failing zero = record { events = event usage [] ∷ []; end = provider_failed busy }
failing (suc n) = answering

abbrev streamer : Streamer ℕ
streamer = record {
  is_cancelled = λ w. (false, w);
  invoke = λ sent w. (failing w, w + 1);
  recover_overflow = none;
  retry_provider_errors = true;
}

abbrev request : AgentRequest
request = record {
  messages = question ∷ [];
  tools = [];
  system_prompt = [];
  system_supplement = [];
  output_token_limit = none;
}

stream_with_retries-IsGood_example :
    IsGood streamer 4 (stream_with_retries streamer request new_collector 0)
stream_with_retries-IsGood_example = stream_with_retries-IsGood streamer request new_collector 0

-- It is asked a second time, and the answer is shown once.
asks_again :
    map
      (λ (e : AgentStreamEvent). e.kind)
      (stream_with_retries streamer request new_collector 0).events
    ≡ usage ∷ text_delta ∷ []
unfolding stream_with_retries provider_error
asks_again = refl

busy_message :
    provider_error_message busy
    ≡ codes "Agent stopped because the provider request failed (HTTP 529; type=overloaded_error)."
unfolding provider_error_message provider_error text_eq normalize_provider_request_id
busy_message = refl
