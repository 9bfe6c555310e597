-- ===== src/Agent/ToolResults.antt =====
-- agent.py: the tools as the loop sees them, the results that it makes itself, the batches of
-- `_tool_batches`, and how `_run_loop` takes results and fills in those that are missing.
use fakuicode.Prelude.{
  none, ℕ, ◌+◌, Bool, true, false, not, Option, List, [], ◌∷◌, ◌++◌, map, Text, codes, text_eq, any,
  filter, leb, if◌then◌else◌,
}
use fakuicode.Context.{ToolCall, ToolResult}

-- What a tool call comes to: its result, or ToolOutputStorageError, RequestCancelled or another
-- exception.
pub data ToolOutcome : Type 0 where
  returned : ToolResult → ToolOutcome
  unstored interrupted broken : ToolOutcome

-- What the loop needs of the tools, and of the executor of read-only calls: `submit` is false when
-- the executor refuses the call, `is_lost` true when it drops a call that it has taken.
pub record Tools (W : Type 0) : Type 0 where
  pub is_known : W → Text → Bool
  pub is_read_only : W → Text → Bool
  pub execute : ToolCall → Bool → W → ToolOutcome × W
  pub submit : ToolCall → W → Bool × W
  pub is_lost : ToolCall → W → Bool × W
  pub is_cancelled : W → Bool × W

-- An exception that leaves the run.
pub data Failure : Type 0 where
  output_not_stored executor_closed incompatible_state : Failure

abbrev failed_call : Text → Text → ToolCall → ToolResult
failed_call output summary call = record {
  call_id = call.id;
  tool_name = call.name;
  success = false;
  output = output;
  summary = summary;
  duration_seconds = none;
  metadata = none;
}

abbrev pub cancelled_result : ToolCall → ToolResult
cancelled_result =
    failed_call (codes "Tool execution was cancelled before it completed.")
      (codes "tool action cancelled")

abbrev pub failed_result : ToolCall → ToolResult
failed_result = failed_call (codes "Tool execution failed.") (codes "tool action failed")

abbrev pub skipped_result : ToolCall → ToolResult
skipped_result =
    failed_call (codes "Tool execution was skipped after repeated unknown tool calls.")
      (codes "tool call skipped")

abbrev pub invalid_result : ToolCall → ToolResult
invalid_result =
    failed_call
      (codes
        "Tool arguments were incomplete or invalid JSON, usually because the model output was truncated. Retry with a smaller tool call; for a large file, write a smaller base and then use bounded edits.")
      (codes "incomplete or invalid tool arguments")

abbrev flush : List ToolCall → List (List ToolCall)
flush [] = []
flush (c ∷ pending) = (c ∷ pending) ∷ []

-- `_tool_batches`, with the pending calls; the test is "known and read-only".
unfoldable pub tool_batches :
    (ToolCall → Bool) → List ToolCall → List ToolCall → List (List ToolCall)
tool_batches is_shared pending [] = flush pending
tool_batches is_shared pending (call ∷ calls) = elim (is_shared call) [
  | true ↦ tool_batches is_shared (pending ++ call ∷ []) calls
  | false ↦ flush pending ++ (call ∷ []) ∷ tool_batches is_shared [] calls
]

-- What a batch comes to: results and whether it was cancelled, or an exception.
pub data BatchRun : Type 0 where
  ran : List ToolResult → Bool → BatchRun
  raised : Failure → BatchRun

abbrev pub with_result : ToolResult → BatchRun → BatchRun
with_result r (ran results cancelled) = ran (r ∷ results) cancelled
with_result r (raised f) = raised f

-- What the run of the batches comes to.
pub record Batched (W : Type 0) : Type 0 where
  pub results : List ToolResult
  pub unknown : ℕ
  pub cancelled : Bool
  pub stopped : Bool
  pub failure : Option Failure
  pub world : W

pub record Taken : Type 0 where
  pub results : List ToolResult
  pub unknown : ℕ
  pub stopped : Bool

-- The loop over a batch and its results, up to the second unknown call in a row.
unfoldable pub take_results : (Text → Bool) → List ToolCall → List ToolResult → ℕ → Taken
take_results is_known (call ∷ calls) (r ∷ results) unknown =
    let unknown' : ℕ = if is_known call.name then 0 else unknown + 1 in
    elim (leb 2 unknown') [
      | true ↦ record { results = r ∷ []; unknown = unknown'; stopped = true }
      | false ↦
          let rest = take_results is_known calls results unknown' in
          record rest { results = r ∷ rest.results }
    ]
take_results is_known _ _ unknown = record { results = []; unknown = unknown; stopped = false }

abbrev pub is_resolved : List ToolResult → ToolCall → Bool
is_resolved results call = any (text_eq call.id) (map (λ r. r.call_id) results)

-- The results of the calls that have none.
unfoldable pub missing : (ToolCall → ToolResult) → List ToolCall → List ToolResult → List ToolResult
missing result_of calls results =
    map result_of (filter (λ call. not (is_resolved results call)) calls)

abbrev pub fill : {W : Type 0} → List ToolCall → Batched W → Batched W
fill calls b = elim b.cancelled [
  | true ↦ record b { results = b.results ++ missing cancelled_result calls b.results }
  | false ↦ elim b.stopped [
    | true ↦ record b { results = b.results ++ missing skipped_result calls b.results }
    | false ↦ b
  ]
]
