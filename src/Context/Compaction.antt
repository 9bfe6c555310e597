-- ===== src/Context/Compaction.antt =====
-- `select_compaction_history`: the recent groups that stay, and the older user messages kept with
-- the summary of the rest. A negative budget counts as 0, which is the least number here.
pub mod Budget
pub mod Parts
pub mod Preserved
use fakuicode.Prelude.{
  ℕ, zero, suc, ◌+◌, ◌-◌, Bool, true, false, ◌&&◌, List, [], ◌∷◌, ◌++◌, reverse, Text, length, leb,
  ltb,
}
use fakuicode.Context.{
  TimelineEvent, ContextGroup, ContextPolicy, approximate_token_count, is_user_event, token_sum,
}

pub record CompactionSelection : Type 0 where
  pub recent_groups : List ContextGroup
  pub summary_groups : List ContextGroup
  pub preserved_user_events : List TimelineEvent
  pub recent_tokens : ℕ
  pub preserved_user_tokens : ℕ

abbrev pub tokens : TimelineEvent → ℕ
tokens event = approximate_token_count event.content

abbrev pub enough : ContextPolicy → ℕ → ℕ → Bool
enough policy recent_tokens count =
    leb policy.recent_history_target_tokens recent_tokens
    && leb policy.recent_history_min_groups count

-- `for group in reversed(groups)`: the groups that are taken, newest first, and the tokens that the
-- loop has added up.
pub take_recent : ContextPolicy → ℕ → ℕ → List ContextGroup → List ContextGroup × ℕ
take_recent policy recent_tokens count [] = ([], recent_tokens)
take_recent policy recent_tokens count (group ∷ older) =
    elim (enough policy (recent_tokens + group.estimated_tokens) (suc count)) [
      | true ↦ (group ∷ [], recent_tokens + group.estimated_tokens)
      | false ↦
          let (taken, total) =
            take_recent policy (recent_tokens + group.estimated_tokens) (suc count) older in
          (group ∷ taken, total)
    ]

unfoldable pub group_tokens : List ContextGroup → ℕ
group_tokens [] = 0
group_tokens (group ∷ groups) = group.estimated_tokens + group_tokens groups

-- `groups[:n]`
abbrev pub take {ℓ} : {A : Type ℓ} → ℕ → List A → List A
take zero xs = []
take (suc n) [] = []
take (suc n) (x ∷ xs) = x ∷ take n xs

pub user_events : List TimelineEvent → List TimelineEvent
user_events [] = []
user_events (event ∷ events) = elim (is_user_event event.kind) [
  | true ↦ event ∷ user_events events
  | false ↦ user_events events
]

pub users_of : List ContextGroup → List TimelineEvent
unfolding user_events
users_of [] = []
users_of (group ∷ groups) = user_events group.events ++ users_of groups

-- A stable insertion sort by a test that says whether the first event may stand before the second.
pub insert :
    (TimelineEvent → TimelineEvent → Bool) → TimelineEvent → List TimelineEvent → List TimelineEvent
insert before event [] = event ∷ []
insert before event (first ∷ events) = elim (before event first) [
  | true ↦ event ∷ first ∷ events
  | false ↦ first ∷ insert before event events
]

pub sorted : (TimelineEvent → TimelineEvent → Bool) → List TimelineEvent → List TimelineEvent
unfolding insert
sorted before [] = []
sorted before (event ∷ events) = insert before event (sorted before events)

abbrev pub newest_first : TimelineEvent → TimelineEvent → Bool
newest_first a b = leb b.sequence a.sequence

abbrev pub oldest_first : TimelineEvent → TimelineEvent → Bool
oldest_first a b = leb a.sequence b.sequence

-- `for event in older_users`: what still fits is kept, and its tokens are added up.
pub keep_users : ℕ → ℕ → List TimelineEvent → List TimelineEvent × ℕ
keep_users limit preserved_tokens [] = ([], preserved_tokens)
keep_users limit preserved_tokens (event ∷ events) =
    elim (ltb limit (preserved_tokens + tokens event)) [
      | true ↦ keep_users limit preserved_tokens events
      | false ↦
          let (kept, total) = keep_users limit (preserved_tokens + tokens event) events in
          (event ∷ kept, total)
    ]

-- `while preserved and …`: the oldest message is given up first.
pub drop_users : ℕ → ℕ → ℕ → List TimelineEvent → List TimelineEvent × ℕ
drop_users budget recent_tokens preserved_tokens [] = ([], preserved_tokens)
drop_users budget recent_tokens preserved_tokens (event ∷ events) =
    elim (ltb budget (recent_tokens + preserved_tokens)) [
      | true ↦ drop_users budget recent_tokens (preserved_tokens - tokens event) events
      | false ↦ (event ∷ events, preserved_tokens)
    ]

-- `while recent and …`: the oldest group goes to the summary. The groups given up, those that stay,
-- and their tokens.
pub drop_groups : ℕ → ℕ → ℕ → List ContextGroup → List ContextGroup × List ContextGroup × ℕ
drop_groups budget preserved_tokens recent_tokens [] = ([], [], recent_tokens)
drop_groups budget preserved_tokens recent_tokens (group ∷ groups) =
    elim (ltb budget (recent_tokens + preserved_tokens)) [
      | true ↦
          let (removed, kept, left) =
            drop_groups budget preserved_tokens (recent_tokens - group.estimated_tokens) groups in
          (group ∷ removed, kept, left)
      | false ↦ ([], group ∷ groups, recent_tokens)
    ]

-- From the choice of recent groups and older messages on, with the sums of the two loops.
unfoldable pub within_budget :
    ℕ → List ContextGroup → List ContextGroup × ℕ → List TimelineEvent × ℕ → CompactionSelection
unfolding drop_users drop_groups
within_budget budget summary (recent, recent_sum) (preserved, preserved_sum) =
    let (kept_users, preserved_tokens) = drop_users budget recent_sum preserved_sum preserved in
    let (removed, kept, recent_tokens) = drop_groups budget preserved_tokens recent_sum recent in
    record {
      recent_groups = kept;
      summary_groups = summary ++ removed;
      preserved_user_events = kept_users;
      recent_tokens = recent_tokens;
      preserved_user_tokens = preserved_tokens;
    }

abbrev pub recent_of : ContextPolicy → List ContextGroup → List ContextGroup × ℕ
recent_of policy groups =
    let (taken, total) = take_recent policy 0 0 (reverse groups) in (reverse taken, total)

abbrev pub summary_of : ContextPolicy → List ContextGroup → List ContextGroup
summary_of policy groups = take (length groups - length (recent_of policy groups).0) groups

abbrev pub preserved_of : ContextPolicy → List ContextGroup → List TimelineEvent × ℕ
preserved_of policy summary =
    let (kept, total) =
      keep_users policy.older_user_messages_target_tokens 0
        (sorted newest_first (users_of summary)) in
    (sorted oldest_first kept, total)

unfoldable pub select_compaction_history :
    ContextPolicy → ℕ → List ContextGroup → CompactionSelection
unfolding take_recent sorted keep_users users_of within_budget
select_compaction_history policy budget groups =
    within_budget budget (summary_of policy groups) (recent_of policy groups)
      (preserved_of policy (summary_of policy groups))

-- `through_sequence`
unfoldable pub through_sequence : List ContextGroup → ℕ
through_sequence [] = 0
through_sequence (group ∷ []) = group.end_sequence
through_sequence (group ∷ next ∷ groups) = through_sequence (next ∷ groups)
