-- ===== src/Context/Compaction/Preserved.antt =====
-- Where the user messages of a selection come from.
use fakuicode.Prelude.{
  ℕ, ◌+◌, ◌-◌, ◌≡◌, sym, subst, inl, inr, Bool, true, List, [], ◌∷◌, bool_ind, ltb, In, here, there,
  In-uncons, In-append, In-append_left,
}
use fakuicode.Context.{TimelineEvent, ContextGroup, ContextPolicy, is_user_event}
use fakuicode.Context.Compaction.{
  tokens, user_events, users_of, insert, sorted, newest_first, oldest_first, keep_users, drop_users,
  within_budget, summary_of, preserved_of, select_compaction_history,
}

insert-In :
    (before : TimelineEvent → TimelineEvent → Bool) (event : TimelineEvent)
    (events : List TimelineEvent) {other : TimelineEvent}
    → In other (insert before event events)
    → In other (event ∷ events)
unfolding insert
insert-In before event [] = λ m. m
insert-In before event (first ∷ events) {other} =
    bool_ind (λ l. In other l → In other (event ∷ first ∷ events)) (before event first) (λ e m. m)
      (λ e m. elim (In-uncons m) [
        | inl same ↦ subst (λ x. In x (event ∷ first ∷ events)) (sym same) (there here)
        | inr later ↦ elim (In-uncons (insert-In before event events later)) [
          | inl same ↦ subst (λ x. In x (event ∷ first ∷ events)) (sym same) here
          | inr old ↦ there (there old)
        ]
      ])

sorted-In :
    (before : TimelineEvent → TimelineEvent → Bool) (events : List TimelineEvent)
    {other : TimelineEvent}
    → In other (sorted before events)
    → In other events
unfolding sorted
sorted-In before [] m = m
sorted-In before (event ∷ events) m =
    elim (In-uncons (insert-In before event (sorted before events) m)) [
      | inl same ↦ subst (λ x. In x (event ∷ events)) (sym same) here
      | inr later ↦ there (sorted-In before events later)
    ]

keep_users-In :
    (limit n : ℕ) (events : List TimelineEvent) {other : TimelineEvent}
    → In other (keep_users limit n events).0
    → In other events
unfolding keep_users
keep_users-In limit n [] = λ m. m
keep_users-In limit n (event ∷ events) {other} =
    bool_ind (λ (r : List TimelineEvent × ℕ). In other r.0 → In other (event ∷ events))
      (ltb limit (n + tokens event)) (λ e m. there (keep_users-In limit n events m))
      (λ e m. elim (In-uncons m) [
        | inl same ↦ subst (λ x. In x (event ∷ events)) (sym same) here
        | inr later ↦ there (keep_users-In limit (n + tokens event) events later)
      ])

drop_users-In :
    (budget n p : ℕ) (events : List TimelineEvent) {other : TimelineEvent}
    → In other (drop_users budget n p events).0
    → In other events
unfolding drop_users
drop_users-In budget n p [] = λ m. m
drop_users-In budget n p (event ∷ events) {other} =
    bool_ind (λ (r : List TimelineEvent × ℕ). In other r.0 → In other (event ∷ events))
      (ltb budget (n + p)) (λ e m. there (drop_users-In budget n (p - tokens event) events m))
      (λ e m. m)

-- Where a user message of a list of groups stands.
pub record FromGroup (event : TimelineEvent) (groups : List ContextGroup) : Type 0 where
  pub group : ContextGroup
  pub member : In group groups
  pub inside : In event group.events
  pub by_user : is_user_event event.kind ≡ true

user_events-In :
    (events : List TimelineEvent) {event : TimelineEvent}
    → In event (user_events events)
    → In event events × (is_user_event event.kind ≡ true)
unfolding user_events
user_events-In [] = λ m. elim m [ ]
user_events-In (first ∷ events) {event} =
    bool_ind (λ l. In event l → In event (first ∷ events) × (is_user_event event.kind ≡ true))
      (is_user_event first.kind)
      (λ e m. elim (In-uncons m) [
        | inl same ↦
            subst (λ x. In x (first ∷ events) × (is_user_event x.kind ≡ true)) (sym same) (here, e)
        | inr later ↦ let (old, by_user) = user_events-In events later in (there old, by_user)
      ])
      (λ e m. let (old, by_user) = user_events-In events m in (there old, by_user))

users_of-FromGroup :
    (groups : List ContextGroup) {event : TimelineEvent}
    → In event (users_of groups)
    → FromGroup event groups
unfolding users_of
users_of-FromGroup [] m = elim m [ ]
users_of-FromGroup (group ∷ groups) m = elim (In-append (user_events group.events) _ m) [
  | inl now ↦
      let (inside, by_user) = user_events-In group.events now in
      record { group = group; member = here; inside = inside; by_user = by_user }
  | inr later ↦
      let h = users_of-FromGroup groups later in
      record { group = h.group; member = there h.member; inside = h.inside; by_user = h.by_user }
]

-- A preserved message is a user's, and it stands in a group that is to be summarized.
pub preserved_user_events-FromGroup :
    (policy : ContextPolicy) (budget : ℕ) (groups : List ContextGroup) (event : TimelineEvent)
    → In event (select_compaction_history policy budget groups).preserved_user_events
    → FromGroup event (select_compaction_history policy budget groups).summary_groups
unfolding select_compaction_history within_budget
preserved_user_events-FromGroup policy budget groups event m =
    let kept = drop_users-In budget _ _ (preserved_of policy (summary_of policy groups)).0 m in
    let h =
      users_of-FromGroup (summary_of policy groups)
        (sorted-In newest_first _ (keep_users-In _ 0 _ (sorted-In oldest_first _ kept))) in
    record {
      group = h.group;
      member = In-append_left _ h.member;
      inside = h.inside;
      by_user = h.by_user;
    }
