-- ===== src/Context/Offloads.antt =====
-- `plan_tool_result_offloads`: which tool results leave the active context.
use fakuicode.Prelude.{
  ℕ, ◌+◌, ◌-◌, ◌≡◌, sym, ap, subst, inl, inr, Bool, true, false, not, ◌&&◌, ◌||◌, Option, none,
  some, List, [], ◌∷◌, ◌++◌, Text, codes, any, filter, leb, ltb, ◌==◌, max, min, In, here, there,
  In-uncons, In-append_left, In-append_right, In-filter, if_ind, bool_ind, if◌then◌else◌,
}
use fakuicode.Context.{
  TimelineEventKind, tool_result, TimelineEvent, ContextGroup, ContextPolicy,
  approximate_token_count,
}

pub data OffloadReason : Type 0 where
  unset single_result round_total : OffloadReason

pub record ToolResultOffload : Type 0 where
  pub group_start_sequence : ℕ
  pub event_sequence : ℕ
  pub call_id : Option Text
  pub tool_name : Text
  pub success : Bool
  pub output : Text
  pub original_tokens : ℕ
  pub preview_budget_tokens : ℕ
  pub reason : OffloadReason

abbrev unknown_tool : Text
unknown_tool = codes "unknown_tool"

-- `_offload_candidate`
unfoldable pub offload_candidate : ContextPolicy → ContextGroup → TimelineEvent → ToolResultOffload
offload_candidate policy group event =
    let original = approximate_token_count event.content in
    record {
      group_start_sequence = group.start_sequence;
      event_sequence = event.sequence;
      call_id = event.call_id;
      tool_name = elim event.metadata.tool_name [ none ↦ unknown_tool | some name ↦ name ];
      success = elim event.metadata.success [ none ↦ false | some success ↦ success ];
      output = event.content;
      original_tokens = original;
      preview_budget_tokens = min (max 1 (policy.preview original)) policy.tool_preview_max_tokens;
      reason = unset;
    }

-- `_with_offload_reason`
abbrev pub with_offload_reason : OffloadReason → ToolResultOffload → ToolResultOffload
with_offload_reason reason candidate = record candidate { reason = reason }

abbrev pub is_tool_result : TimelineEventKind → Bool
is_tool_result tool_result = true
is_tool_result _ = false

pub candidates : ContextPolicy → ContextGroup → List TimelineEvent → List ToolResultOffload
unfolding offload_candidate
candidates policy group [] = []
candidates policy group (event ∷ events) = elim (is_tool_result event.kind) [
  | true ↦ offload_candidate policy group event ∷ candidates policy group events
  | false ↦ candidates policy group events
]

-- `(-item.original_tokens, item.event_sequence)`, at most.
abbrev larger_first : ToolResultOffload → ToolResultOffload → Bool
larger_first a b =
    ltb b.original_tokens a.original_tokens
    || a.original_tokens == b.original_tokens && leb a.event_sequence b.event_sequence

insert_offload : ToolResultOffload → List ToolResultOffload → List ToolResultOffload
insert_offload candidate [] = candidate ∷ []
insert_offload candidate (first ∷ rest) = elim (larger_first candidate first) [
  | true ↦ candidate ∷ first ∷ rest
  | false ↦ first ∷ insert_offload candidate rest
]

pub by_size : List ToolResultOffload → List ToolResultOffload
unfolding insert_offload
by_size [] = []
by_size (candidate ∷ rest) = insert_offload candidate (by_size rest)

abbrev pub is_oversized : ContextPolicy → ToolResultOffload → Bool
is_oversized policy candidate = ltb policy.single_tool_result_tokens candidate.original_tokens

pub marked : OffloadReason → List ToolResultOffload → List ToolResultOffload
marked reason [] = []
marked reason (candidate ∷ rest) = with_offload_reason reason candidate ∷ marked reason rest

-- `event_sequence in selected`
abbrev pub is_selected : List ToolResultOffload → ToolResultOffload → Bool
is_selected selected result =
    any (λ (s : ToolResultOffload). s.event_sequence == result.event_sequence) selected

pub active_total : List ToolResultOffload → List ToolResultOffload → ℕ
unfolding any
active_total selected [] = 0
active_total selected (result ∷ results) =
    (if is_selected selected result then result.preview_budget_tokens else result.original_tokens)
    + active_total selected results

-- The second loop: the largest results leave until the rest fits. A result that is not selected is a
-- part of the total, so the difference is not cut off.
pub choose : ℕ → ℕ → List ToolResultOffload → List ToolResultOffload
choose limit total [] = []
choose limit total (candidate ∷ rest) =
    with_offload_reason round_total candidate
    ∷ elim (leb (total + candidate.preview_budget_tokens - candidate.original_tokens) limit) [
      | true ↦ []
      | false ↦
          choose limit (total + candidate.preview_budget_tokens - candidate.original_tokens) rest
    ]

unfoldable pub oversized : ContextPolicy → List ToolResultOffload → List ToolResultOffload
unfolding marked filter by_size
oversized policy results = marked single_result (filter (is_oversized policy) (by_size results))

-- The offloads of one group.
unfoldable pub plan_round : ContextPolicy → List ToolResultOffload → List ToolResultOffload
unfolding active_total choose by_size filter any
plan_round policy results =
    let selected = oversized policy results in
    let total = active_total selected results in
    if leb total policy.tool_round_tokens
    then selected
    else selected
      ++ choose policy.tool_round_tokens total
          (by_size (filter (λ result. not (is_selected selected result)) results))

pub plan_tool_result_offloads : ContextPolicy → List ContextGroup → List ToolResultOffload
unfolding candidates plan_round
plan_tool_result_offloads policy [] = []
plan_tool_result_offloads policy (group ∷ groups) =
    plan_round policy (candidates policy group group.events)
    ++ plan_tool_result_offloads policy groups

insert_offload-In :
    (candidate : ToolResultOffload) (rest : List ToolResultOffload) {other : ToolResultOffload}
    → In other (candidate ∷ rest)
    → In other (insert_offload candidate rest)
unfolding insert_offload
insert_offload-In candidate [] = λ m. m
insert_offload-In candidate (first ∷ rest) {other} =
    bool_ind (λ l. In other (candidate ∷ first ∷ rest) → In other l) (larger_first candidate first)
      (λ e m. m)
      (λ e m. elim (In-uncons m) [
        | inl same ↦ there (
            insert_offload-In candidate rest (subst (λ x. In x (candidate ∷ rest)) (sym same) here))
        | inr later ↦ elim (In-uncons later) [
          | inl same ↦ subst (λ x. In x (first ∷ insert_offload candidate rest)) (sym same) here
          | inr old ↦ there (insert_offload-In candidate rest (there old))
        ]
      ])

by_size-In :
    (results : List ToolResultOffload) {other : ToolResultOffload}
    → In other results
    → In other (by_size results)
unfolding by_size
by_size-In [] m = m
by_size-In (candidate ∷ rest) m = elim (In-uncons m) [
  | inl same ↦
      insert_offload-In candidate (by_size rest)
        (subst (λ x. In x (candidate ∷ by_size rest)) (sym same) here)
  | inr later ↦ insert_offload-In candidate (by_size rest) (there (by_size-In rest later))
]

marked-In :
    (reason : OffloadReason) (results : List ToolResultOffload) {other : ToolResultOffload}
    → In other results
    → In (with_offload_reason reason other) (marked reason results)
unfolding marked
marked-In reason [] m = elim m [ ]
marked-In reason (candidate ∷ rest) m = elim (In-uncons m) [
  | inl same ↦
      subst
        (λ x.
          In (with_offload_reason reason x)
            (with_offload_reason reason candidate ∷ marked reason rest))
        (sym same) here
  | inr later ↦ there (marked-In reason rest later)
]

plan_round-oversized :
    (policy : ContextPolicy) (results : List ToolResultOffload) {candidate : ToolResultOffload}
    → In candidate results
    → is_oversized policy candidate ≡ true
    → In (with_offload_reason single_result candidate) (plan_round policy results)
unfolding plan_round
plan_round-oversized policy results {candidate} m big =
    let chosen : In (with_offload_reason single_result candidate) (oversized policy results) =
      unfold oversized in
      marked-In single_result _ (In-filter (is_oversized policy) (by_size-In results m) big) in
    if_ind (λ l. In (with_offload_reason single_result candidate) l)
      (leb (active_total (oversized policy results) results) policy.tool_round_tokens) (λ e. chosen)
      (λ e. In-append_left _ chosen)

candidates-In :
    (policy : ContextPolicy) (group : ContextGroup) (events : List TimelineEvent)
    {event : TimelineEvent}
    → In event events
    → is_tool_result event.kind ≡ true
    → In (offload_candidate policy group event) (candidates policy group events)
unfolding candidates
candidates-In policy group [] m is_result = elim m [ ]
candidates-In policy group (first ∷ events) {event} m is_result = elim (In-uncons m) [
  | inl same ↦
      bool_ind (λ l. In (offload_candidate policy group event) l) (is_tool_result first.kind)
        (λ e.
          subst
            (λ x.
              In (offload_candidate policy group x)
                (offload_candidate policy group first ∷ candidates policy group events))
            (sym same) here)
        (λ e. absurd (cc (e, is_result, ap (λ (x : TimelineEvent). is_tool_result x.kind) same)))
  | inr later ↦
      let old = candidates-In policy group events later is_result in
      bool_ind (λ l. In (offload_candidate policy group event) l) (is_tool_result first.kind)
        (λ e. there old) (λ e. old)
]

-- Every tool result of a group whose tokens exceed the limit for a single result is planned to leave
-- the context, for that reason.
pub oversized_is_planned :
    (policy : ContextPolicy) (groups : List ContextGroup) (group : ContextGroup)
    (event : TimelineEvent)
    → In group groups
    → In event group.events
    → is_tool_result event.kind ≡ true
    → is_oversized policy (offload_candidate policy group event) ≡ true
    → In
        (with_offload_reason single_result (offload_candidate policy group event))
        (plan_tool_result_offloads policy groups)
unfolding plan_tool_result_offloads
oversized_is_planned policy [] group event m n is_result big = elim m [ ]
oversized_is_planned policy (first ∷ groups) group event m n is_result big = elim (In-uncons m) [
  | inl same ↦ In-append_left _ (
      subst
        (λ (g : ContextGroup).
          In (with_offload_reason single_result (offload_candidate policy group event))
            (plan_round policy (candidates policy g g.events)))
        same
        (plan_round-oversized policy (candidates policy group group.events)
          (candidates-In policy group group.events n is_result) big))
  | inr later ↦
      In-append_right _ (oversized_is_planned policy groups group event later n is_result big)
]
