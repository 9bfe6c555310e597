-- ===== src/Agent/Batches.antt =====
-- agent.py: how the batches of one answer are run. `_execute_batch`, `_execute_tool` and the loop
-- over the batches in `_run_loop`.
pub mod Split
pub mod Answers
pub mod Prefix
pub mod Complete
pub mod Some
use fakuicode.Prelude.{
  ℕ, ◌+◌, Bool, true, false, not, ◌&&◌, ◌||◌, Option, none, some, List, [], ◌∷◌, ◌++◌, map, Text,
  codes, text_eq, any, filter, leb, if◌then◌else◌,
}
use fakuicode.Context.{ToolCall, ToolResult}
use fakuicode.Agent.ToolResults.{
  BatchRun, Batched, ToolOutcome, Tools, broken, cancelled_result, executor_closed, failed_result,
  fill, interrupted, invalid_result, missing, output_not_stored, raised, ran, returned,
  take_results, tool_batches, unstored, with_result,
}

module _ {W : Type 0} (tools : Tools W) where
  unfoldable pub execute_tool : ToolCall → Bool → W → ToolOutcome × W
  execute_tool call read_only_only w = elim call.argument_error [
    | none ↦ tools.execute call read_only_only w
    | some _ ↦ (returned (invalid_result call), w)
  ]

  abbrev one_result : ToolCall → ToolOutcome → BatchRun
  one_result call (returned r) = ran (r ∷ []) false
  one_result call unstored = raised output_not_stored
  one_result call interrupted = ran (cancelled_result call ∷ []) true
  one_result call broken = ran (failed_result call ∷ []) false

  -- A call that is not read-only runs alone, in the loop's own thread.
  execute_alone : ToolCall → Bool → W → BatchRun × W
  unfolding execute_tool
  execute_alone call read_only_only w =
      let (outcome, w') = execute_tool call read_only_only w in (one_result call outcome, w')

  -- All calls are handed to the executor before the first result is awaited.
  submit_all : List ToolCall → W → Bool × W
  submit_all [] w = (true, w)
  submit_all (call ∷ calls) w =
      let (taken, w') = tools.submit call w in
      elim taken [ true ↦ submit_all calls w' | false ↦ (false, w') ]

  -- `future.result()`: a dropped call raises an exception there.
  await : ToolCall → Bool → W → ToolOutcome × W
  unfolding execute_tool
  await call read_only_only w =
      let (lost, w') = tools.is_lost call w in
      elim lost [ true ↦ (broken, w') | false ↦ execute_tool call read_only_only w' ]

  abbrev collect_step :
      ToolCall → List ToolCall → ToolOutcome × W → (W → BatchRun × W) → BatchRun × W
  collect_step call calls (returned r, w) next = let (rest, w') = next w in (with_result r rest, w')
  collect_step call calls (unstored, w) next = (raised output_not_stored, w)
  collect_step call calls (interrupted, w) next =
      (ran (map cancelled_result (call ∷ calls)) true, w)
  collect_step call calls (broken, w) next =
      let (rest, w') = next w in (with_result (failed_result call) rest, w')

  -- The results in the order of the calls; a cancellation answers all calls that are left.
  collect : List ToolCall → Bool → W → BatchRun × W
  unfolding await
  collect [] read_only_only w = (ran [] false, w)
  collect (call ∷ calls) read_only_only w =
      let (stop, w') = tools.is_cancelled w in
      elim stop [
        | true ↦ (ran (map cancelled_result (call ∷ calls)) true, w')
        | false ↦
            collect_step call calls (await call read_only_only w') (collect calls read_only_only)
      ]

  execute_pooled : List ToolCall → Bool → W → BatchRun × W
  unfolding submit_all collect
  execute_pooled calls read_only_only w =
      let (taken, w') = submit_all calls w in
      elim taken [ true ↦ collect calls read_only_only w' | false ↦ (raised executor_closed, w') ]

  -- `is_read_only_batch` is the test of every call of the batch.
  abbrev dispatch : (ToolCall → Bool) → List ToolCall → Bool → W → BatchRun × W
  dispatch is_shared (call ∷ []) read_only_only w = elim (is_shared call) [
    | true ↦ execute_pooled (call ∷ []) read_only_only w
    | false ↦ execute_alone call read_only_only w
  ]
  dispatch is_shared calls read_only_only w = execute_pooled calls read_only_only w

  unfoldable pub execute_batch : (ToolCall → Bool) → List ToolCall → Bool → W → BatchRun × W
  unfolding execute_pooled execute_alone
  execute_batch is_shared calls read_only_only w =
      let (stop, w') = tools.is_cancelled w in
      elim stop [
        | true ↦ (ran (map cancelled_result calls) true, w')
        | false ↦ dispatch is_shared calls read_only_only w'
      ]

  -- What comes after one batch; the rest of the loop is a function of the unknown calls in a row.
  abbrev batch_step :
      (Text → Bool) → List ToolCall → ℕ → BatchRun × W → (ℕ → W → Batched W) → Batched W
  batch_step is_known batch unknown (raised f, w) next = record {
    results = [];
    unknown = unknown;
    cancelled = false;
    stopped = false;
    failure = some f;
    world = w;
  }
  batch_step is_known batch unknown (ran results cancelled, w) next =
      let t = take_results is_known batch results unknown in
      elim (cancelled || t.stopped) [
        | true ↦ record {
          results = t.results;
          unknown = t.unknown;
          cancelled = cancelled;
          stopped = t.stopped;
          failure = none;
          world = w;
        }
        | false ↦ let rest = next t.unknown w in record rest { results = t.results ++ rest.results }
      ]

  unfoldable pub run_batches :
      (Text → Bool) → (ToolCall → Bool) → List (List ToolCall) → Bool → ℕ → W → Batched W
  unfolding execute_batch take_results
  run_batches is_known is_shared [] read_only_only unknown w = record {
    results = [];
    unknown = unknown;
    cancelled = false;
    stopped = false;
    failure = none;
    world = w;
  }
  run_batches is_known is_shared (batch ∷ batches) read_only_only unknown w =
      batch_step is_known batch unknown (execute_batch is_shared batch read_only_only w)
        (run_batches is_known is_shared batches read_only_only)

  -- The calls of one answer. The tools are classified as they are registered at the start.
  unfoldable pub answer_calls : List ToolCall → Bool → ℕ → W → Batched W
  unfolding run_batches missing tool_batches
  answer_calls calls read_only_only unknown w =
      let is_shared =
        λ (call : ToolCall). tools.is_known w call.name && tools.is_read_only w call.name in
      fill calls (
        run_batches (tools.is_known w) is_shared (tool_batches is_shared [] calls) read_only_only
          unknown w)
