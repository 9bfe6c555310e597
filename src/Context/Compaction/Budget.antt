-- ===== src/Context/Compaction/Budget.antt =====
-- How many tokens a selection keeps.
use mathlib.Core.List.{reverse-cons}
use fakuicode.Prelude.{
  suc, reverse, ◌++◌, Bool, ℕ, ◌+◌, ◌-◌, ◌≤◌, ◌≡◌, refl, ap, ◌∙◌, ◌⊎◌, inl, inr, false, List, [],
  ◌∷◌, arith, bool_ind, ltb,
}
use fakuicode.Context.{TimelineEvent, ContextGroup, ContextPolicy, token_sum}
use fakuicode.Context.Compaction.{
  take_recent, keep_users, insert, sorted, newest_first, oldest_first, users_of, enough,
  CompactionSelection, tokens, group_tokens, drop_users, drop_groups, within_budget, recent_of,
  summary_of, preserved_of, select_compaction_history,
}

not_over : (budget n : ℕ) → ltb budget n ≡ false → n ≤ budget
not_over budget n e = ground arith

-- What `drop_users` leaves: the tokens are those of the messages, and they fit or none is left.
record LeavesUsers (budget recent_tokens : ℕ) (r : List TimelineEvent × ℕ) : Type 0 where
  counted : r.1 ≡ token_sum r.0
  fits : (recent_tokens + r.1 ≤ budget) ⊎ (r.0 ≡ [])

drop_users-LeavesUsers :
    (budget n p : ℕ) (events : List TimelineEvent)
    → p ≡ token_sum events
    → LeavesUsers budget n (drop_users budget n p events)
unfolding drop_users token_sum
drop_users-LeavesUsers budget n p [] e = record { counted = e; fits = inr refl }
drop_users-LeavesUsers budget n p (event ∷ events) e =
    bool_ind (LeavesUsers budget n) (ltb budget (n + p))
      (λ over. drop_users-LeavesUsers budget n (p - tokens event) events (omega arith))
      (λ fits. record { counted = e; fits = inl (not_over budget (n + p) fits) })

record LeavesGroups (budget p : ℕ) (r : List ContextGroup × List ContextGroup × ℕ) : Type 0 where
  counted : r.2 ≡ group_tokens r.1
  fits : (r.2 + p ≤ budget) ⊎ (r.1 ≡ [])

drop_groups-LeavesGroups :
    (budget p n : ℕ) (groups : List ContextGroup)
    → n ≡ group_tokens groups
    → LeavesGroups budget p (drop_groups budget p n groups)
unfolding drop_groups group_tokens
drop_groups-LeavesGroups budget p n [] e = record { counted = e; fits = inr refl }
drop_groups-LeavesGroups budget p n (group ∷ groups) e =
    let below =
      drop_groups-LeavesGroups budget p (n - group.estimated_tokens) groups (omega arith) in
    bool_ind (LeavesGroups budget p) (ltb budget (n + p))
      (λ over. record { counted = below.counted; fits = below.fits })
      (λ fits. record { counted = e; fits = inl (not_over budget (n + p) fits) })

no_tokens : (events : List TimelineEvent) → events ≡ [] → token_sum events ≡ 0
unfolding token_sum
no_tokens events e = ap token_sum e

no_group_tokens : (groups : List ContextGroup) → groups ≡ [] → group_tokens groups ≡ 0
unfolding group_tokens
no_group_tokens groups e = ap group_tokens e

-- The loop over the groups adds up the tokens of those that it takes.
take_recent-counted :
    (policy : ContextPolicy) (n count : ℕ) (groups : List ContextGroup)
    → (take_recent policy n count groups).1 ≡ n + group_tokens (take_recent policy n count groups).0
unfolding take_recent group_tokens
take_recent-counted policy n count [] = omega arith
take_recent-counted policy n count (group ∷ groups) =
    bool_ind (λ (r : List ContextGroup × ℕ). r.1 ≡ n + group_tokens r.0)
      (enough policy (n + group.estimated_tokens) (suc count)) (λ e. omega arith)
      (λ e.
        omega (arith, take_recent-counted policy (n + group.estimated_tokens) (suc count) groups))

keep_users-counted :
    (limit p : ℕ) (events : List TimelineEvent)
    → (keep_users limit p events).1 ≡ p + token_sum (keep_users limit p events).0
unfolding keep_users token_sum
keep_users-counted limit p [] = omega arith
keep_users-counted limit p (event ∷ events) =
    bool_ind (λ (r : List TimelineEvent × ℕ). r.1 ≡ p + token_sum r.0)
      (ltb limit (p + tokens event)) (λ e. keep_users-counted limit p events)
      (λ e. omega (arith, keep_users-counted limit (p + tokens event) events))

-- Neither the order of the groups nor that of the messages matters to the sums.
group_tokens-snoc :
    (groups : List ContextGroup) (group : ContextGroup)
    → group_tokens (groups ++ group ∷ []) ≡ group_tokens groups + group.estimated_tokens
unfolding group_tokens
group_tokens-snoc [] group = omega arith
group_tokens-snoc (g ∷ groups) group = omega (arith, group_tokens-snoc groups group)

group_tokens-reverse :
    (groups : List ContextGroup) → group_tokens (reverse groups) ≡ group_tokens groups
unfolding group_tokens
group_tokens-reverse [] = refl
group_tokens-reverse (group ∷ groups) =
    let turned = ap group_tokens (reverse-cons group groups) in
    omega (arith, turned, group_tokens-snoc (reverse groups) group, group_tokens-reverse groups)

token_sum-insert :
    (before : TimelineEvent → TimelineEvent → Bool) (event : TimelineEvent)
    (events : List TimelineEvent)
    → token_sum (insert before event events) ≡ tokens event + token_sum events
unfolding insert token_sum
token_sum-insert before event [] = refl
token_sum-insert before event (first ∷ events) =
    bool_ind (λ l. token_sum l ≡ tokens event + (tokens first + token_sum events))
      (before event first) (λ e. refl) (λ e. omega (arith, token_sum-insert before event events))

token_sum-sorted :
    (before : TimelineEvent → TimelineEvent → Bool) (events : List TimelineEvent)
    → token_sum (sorted before events) ≡ token_sum events
unfolding sorted token_sum
token_sum-sorted before [] = refl
token_sum-sorted before (event ∷ events) =
    omega
      (arith, token_sum-insert before event (sorted before events), token_sum-sorted before events)

module _ (policy : ContextPolicy) (budget : ℕ) (groups : List ContextGroup) where
  abbrev selection : CompactionSelection
  selection = select_compaction_history policy budget groups

  abbrev recent : List ContextGroup × ℕ
  recent = recent_of policy groups

  abbrev preserved : List TimelineEvent × ℕ
  preserved = preserved_of policy (summary_of policy groups)

  recent_counted : recent.1 ≡ group_tokens recent.0
  recent_counted = omega (
    arith,
    take_recent-counted policy 0 0 (reverse groups),
    group_tokens-reverse (take_recent policy 0 0 (reverse groups)).0,
  )

  preserved_counted : preserved.1 ≡ token_sum preserved.0
  preserved_counted =
      let older = sorted newest_first (users_of (summary_of policy groups)) in
      let limit = policy.older_user_messages_target_tokens in
      omega (
        arith,
        keep_users-counted limit 0 older,
        token_sum-sorted oldest_first (keep_users limit 0 older).0,
      )

  abbrev users_left : List TimelineEvent × ℕ
  users_left = drop_users budget recent.1 preserved.1 preserved.0

  abbrev groups_left : List ContextGroup × List ContextGroup × ℕ
  groups_left = drop_groups budget users_left.1 recent.1 recent.0

  users_fit : LeavesUsers budget recent.1 users_left
  users_fit = drop_users-LeavesUsers budget recent.1 preserved.1 preserved.0 preserved_counted

  groups_fit : LeavesGroups budget users_left.1 groups_left
  groups_fit = drop_groups-LeavesGroups budget users_left.1 recent.1 recent.0 recent_counted

  total_fits : groups_left.2 + users_left.1 ≤ budget
  total_fits = elim groups_fit.fits [
    | inl fits ↦ fits
    | inr no_group ↦
        let none_left : groups_left.2 ≡ 0 = groups_fit.counted ∙ no_group_tokens _ no_group in
        elim users_fit.fits [
          | inl fits ↦ omega arith
          | inr no_user ↦
              let no_user_tokens : users_left.1 ≡ 0 = users_fit.counted ∙ no_tokens _ no_user in
              omega arith
        ]
  ]

  -- The tokens of a selection are those of its groups and messages, and together they stay within
  -- the budget.
  pub selection-within_budget :
      (selection.recent_tokens ≡ group_tokens selection.recent_groups)
      × (selection.preserved_user_tokens ≡ token_sum selection.preserved_user_events)
      × (selection.recent_tokens + selection.preserved_user_tokens ≤ budget)
  unfolding select_compaction_history within_budget
  selection-within_budget = (groups_fit.counted, users_fit.counted, total_fits)
