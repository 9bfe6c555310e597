-- ===== src/Agent/Batches/Answers.antt =====
-- The results of a batch beside its calls.
use fakuicode.Prelude.{
  ℕ, ◌+◌, ◌≡◌, refl, ap, Bool, false, List, [], ◌∷◌, ◌++◌, map, Text, bool_ind, option_ind, arith,
  leb, if◌then◌else◌,
}
use fakuicode.Context.{ToolCall, ToolResult}
use fakuicode.Agent.Batches.{
  execute_tool, execute_alone, submit_all, await, collect, collect_step, execute_pooled, dispatch,
  execute_batch, one_result,
}
use fakuicode.Agent.ToolResults.{
  Tools, ToolOutcome, returned, unstored, interrupted, broken, BatchRun, ran, raised, Taken,
  take_results, cancelled_result, failed_result, with_result,
}

-- The ids of calls and of results.
abbrev pub ids : List ToolCall → List Text
ids = map (λ c. c.id)

abbrev pub result_ids : List ToolResult → List Text
result_ids = map (λ r. r.call_id)

-- The results of a batch are for its calls, in their order.
abbrev pub Fits : List ToolCall → BatchRun → Type 0
Fits calls (ran results cancelled) = result_ids results ≡ ids calls
Fits calls (raised f) = Unit {0}

pub made-ids :
    (result_of : ToolCall → ToolResult) (calls : List ToolCall)
    → ((c : ToolCall) → (result_of c).call_id ≡ c.id)
    → result_ids (map result_of calls) ≡ ids calls
made-ids result_of [] h = refl
made-ids result_of (c ∷ calls) h = ground (arith, h c, made-ids result_of calls h)

with_result-Fits :
    (call : ToolCall) (calls : List ToolCall) (r : ToolResult) (b : BatchRun)
    → r.call_id ≡ call.id
    → Fits calls b
    → Fits (call ∷ calls) (with_result r b)
with_result-Fits call calls r (ran results cancelled) e h = ground (arith, e, h)
with_result-Fits call calls r (raised f) e h = tt

-- The result of a call names the call.
abbrev pub Names : ToolCall → ToolOutcome → Type 0
Names call (returned r) = r.call_id ≡ call.id
Names call _ = Unit {0}

module _ {W : Type 0} (tools : Tools W) where
  -- What a tool executor promises.
  abbrev pub AnswersCalls : Type 0
  AnswersCalls = (call : ToolCall) (ro : Bool) (w : W) → Names call (tools.execute call ro w).0

  module _ (law : AnswersCalls) where
    execute_tool-Names :
        (call : ToolCall) (ro : Bool) (w : W) → Names call (execute_tool tools call ro w).0
    unfolding execute_tool
    execute_tool-Names call ro w =
        option_ind (λ (t : ToolOutcome × W). Names call t.0) call.argument_error
          (λ _. law call ro w) (λ _ _. refl)

    one_result-Fits :
        (call : ToolCall) (o : ToolOutcome)
        → Names call o
        → Fits (call ∷ []) (one_result tools call o)
    one_result-Fits call (returned r) h = ground (arith, h)
    one_result-Fits call unstored h = tt
    one_result-Fits call interrupted h = refl
    one_result-Fits call broken h = refl

    await-Names : (call : ToolCall) (ro : Bool) (w : W) → Names call (await tools call ro w).0
    unfolding await
    await-Names call ro w =
        bool_ind (λ (t : ToolOutcome × W). Names call t.0) (tools.is_lost call w).0 (λ _. tt)
          (λ _. execute_tool-Names call ro (tools.is_lost call w).1)

    collect_step-Fits :
        (call : ToolCall) (calls : List ToolCall) (t : ToolOutcome × W) (next : W → BatchRun × W)
        → Names call t.0
        → ((w : W) → Fits calls (next w).0)
        → Fits (call ∷ calls) (collect_step tools call calls t next).0
    collect_step-Fits call calls (returned r, w) next n h =
        with_result-Fits call calls r (next w).0 n (h w)
    collect_step-Fits call calls (unstored, w) next n h = tt
    collect_step-Fits call calls (interrupted, w) next n h =
        made-ids cancelled_result (call ∷ calls) (λ c. refl)
    collect_step-Fits call calls (broken, w) next n h =
        with_result-Fits call calls (failed_result call) (next w).0 refl (h w)

    collect-Fits :
        (calls : List ToolCall) (ro : Bool) (w : W) → Fits calls (collect tools calls ro w).0
    unfolding collect
    collect-Fits [] ro w = refl
    collect-Fits (call ∷ calls) ro w =
        bool_ind (λ (t : BatchRun × W). Fits (call ∷ calls) t.0) (tools.is_cancelled w).0
          (λ _. made-ids cancelled_result (call ∷ calls) (λ c. refl))
          (λ _.
            collect_step-Fits call calls (await tools call ro (tools.is_cancelled w).1)
              (collect tools calls ro) (await-Names call ro (tools.is_cancelled w).1)
              (collect-Fits calls ro))

    execute_pooled-Fits :
        (calls : List ToolCall) (ro : Bool) (w : W) → Fits calls (execute_pooled tools calls ro w).0
    unfolding execute_pooled
    execute_pooled-Fits calls ro w =
        bool_ind (λ (t : BatchRun × W). Fits calls t.0) (submit_all tools calls w).0
          (λ _. collect-Fits calls ro (submit_all tools calls w).1) (λ _. tt)

    dispatch-Fits :
        (p : ToolCall → Bool) (calls : List ToolCall) (ro : Bool) (w : W)
        → Fits calls (dispatch tools p calls ro w).0
    unfolding execute_alone
    dispatch-Fits p [] ro w = execute_pooled-Fits [] ro w
    dispatch-Fits p (call ∷ []) ro w =
        bool_ind (λ (t : BatchRun × W). Fits (call ∷ []) t.0) (p call)
          (λ _. execute_pooled-Fits (call ∷ []) ro w)
          (λ _.
            one_result-Fits call (execute_tool tools call ro w).0 (execute_tool-Names call ro w))
    dispatch-Fits p (call ∷ next ∷ calls) ro w = execute_pooled-Fits (call ∷ next ∷ calls) ro w

    pub execute_batch-Fits :
        (p : ToolCall → Bool) (calls : List ToolCall) (ro : Bool) (w : W)
        → Fits calls (execute_batch tools p calls ro w).0
    unfolding execute_batch
    execute_batch-Fits p calls ro w =
        bool_ind (λ (t : BatchRun × W). Fits calls t.0) (tools.is_cancelled w).0
          (λ _. made-ids cancelled_result calls (λ c. refl))
          (λ _. dispatch-Fits p calls ro (tools.is_cancelled w).1)

-- The results are those of a beginning of the calls, and of all of them when the run was not
-- broken off.
pub record IsPrefix (calls : List ToolCall) (results : List ToolResult) (partly : Bool)
    : Type 0 where
  pub done : List ToolCall
  pub rest : List ToolCall
  pub split : calls ≡ done ++ rest
  pub named : result_ids results ≡ ids done
  pub whole : partly ≡ false → rest ≡ []

pub take_results-IsPrefix :
    (is_known : Text → Bool) (calls : List ToolCall) (results : List ToolResult) (unknown : ℕ)
    → result_ids results ≡ ids calls
    → let t = take_results is_known calls results unknown in IsPrefix calls t.results t.stopped
unfolding take_results
take_results-IsPrefix is_known [] results unknown h = record {
  done = [];
  rest = [];
  split = refl;
  named = refl;
  whole = λ _. refl;
}
take_results-IsPrefix is_known (call ∷ calls) [] unknown h = absurd (ground (arith, h))
take_results-IsPrefix is_known (call ∷ calls) (r ∷ results) unknown h =
    let unknown' : ℕ = if is_known call.name then 0 else unknown + 1 in
    let ih = take_results-IsPrefix is_known calls results unknown' (ground (arith, h)) in
    let e : r.call_id ≡ call.id = ground (arith, h) in
    bool_ind (λ (t : Taken). IsPrefix (call ∷ calls) t.results t.stopped) (leb 2 unknown')
      (λ _. record {
        done = call ∷ [];
        rest = calls;
        split = refl;
        named = ground (arith, e);
        whole = λ f. absurd (ground (arith, f));
      })
      (λ _. record {
        done = call ∷ ih.done;
        rest = ih.rest;
        split = ap (λ l. call ∷ l) ih.split;
        named = ground (arith, e, ih.named);
        whole = ih.whole;
      })
