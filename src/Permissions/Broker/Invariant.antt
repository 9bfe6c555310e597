-- ===== src/Permissions/Broker/Invariant.antt =====
-- What holds of the broker in every state that its threads can reach.
use fakuicode.Prelude.{
  ℕ, suc, ◌≡◌, refl, sym, ap, subst, inl, inr, Bool, true, false, ◌||◌, Option, none, some, List,
  [], ◌∷◌, ◌++◌, In, here, is_some, Text, arith, ◌==◌, ==_iff, Option-cases, ◌∙◌, if_ind,
  option_ind,
}
use fakuicode.Permissions.Models.{PermissionRequest, ApprovalChoice}
use fakuicode.Permissions.Broker.{
  Pending, Broker, answer, put_request, pop_open, next_request, can_resolve, resolve, remove,
  is_active, complete, open_tickets, close, Step, ask, show, reply, cancel, shut,
}
use fakuicode.Permissions.Broker.Tracks.{
  Tracks, Tracks-snoc, Tracks-remove, remove_head, Tracks-deny_all,
}

-- The broker's own queue and active approval are the unanswered ones, and a closed broker has none.
pub record IsConsistent (b : Broker) : Type 0 where
  pub tracks : Tracks b.count b.cell (open_tickets b)
  pub shut_empty : b.closed ≡ true → open_tickets b ≡ []

pub open_tickets-active : (b : Broker) {t : ℕ} → b.active ≡ some t → open_tickets b ≡ t ∷ b.queue
open_tickets-active b {t} e =
    option_ind (λ l. l ≡ t ∷ b.queue) b.active (λ n. cc) (λ a n. ground arith)

open_tickets-idle : (b : Broker) → b.active ≡ none → open_tickets b ≡ b.queue
open_tickets-idle b e = option_ind (λ l. l ≡ b.queue) b.active (λ n. refl) (λ a n. cc)

put_request-IsConsistent :
    (request : PermissionRequest) (b : Broker)
    → IsConsistent b
    → IsConsistent (put_request request b).0
unfolding put_request
put_request-IsConsistent request b h =
    if_ind (λ (r : Broker × Option ℕ). IsConsistent r.0) b.closed (λ shut_down. h)
      (λ running. record {
        tracks = subst (Tracks (suc b.count) _) (sym snoc) (Tracks-snoc h.tracks request);
        shut_empty = λ e. cc;
      })
  where
    snoc :
        (elim b.active [ none ↦ b.queue ++ b.count ∷ [] | some t ↦ t ∷ (b.queue ++ b.count ∷ []) ])
        ≡ open_tickets b ++ b.count ∷ []
    snoc = elim (Option-cases b.active) [ inl e ↦ rw e refl | inr (t, e) ↦ rw e refl ]

resolve-IsConsistent :
    (request_id : Text) (choice : ApprovalChoice) (b : Broker)
    → IsConsistent b
    → IsConsistent (resolve request_id choice b).0
unfolding resolve
resolve-IsConsistent request_id choice b h =
    option_ind (λ (r : Broker × Bool). IsConsistent r.0) b.active (λ idle. h)
      (λ t e.
        if_ind (λ (r : Broker × Bool). IsConsistent r.0) (can_resolve request_id (b.cell t))
          (λ unanswered. record {
            tracks =
                subst (Tracks b.count (answer b.cell t choice))
                  (ap (remove t) (open_tickets-active b e) ∙ remove_head t b.queue)
                  (Tracks-remove h.tracks t choice);
            shut_empty = λ closed. cc (h.shut_empty closed, open_tickets-active b e);
          })
          (λ other. h))

pop_open-front :
    (cell : ℕ → Pending) (queue : List ℕ)
    → ((t : ℕ) → In t queue → (cell t).completed ≡ false)
    → (elim (pop_open cell queue).0 [
      | none ↦ (pop_open cell queue).1
      | some t ↦ t ∷ (pop_open cell queue).1
    ])
      ≡ queue
unfolding pop_open
pop_open-front cell [] h = refl
pop_open-front cell (t ∷ queue) h = ground (arith, h t here)

next_request-IsConsistent : (b : Broker) → IsConsistent b → IsConsistent (next_request b).0
unfolding next_request
next_request-IsConsistent b h =
    if_ind (λ (r : Broker × Option PermissionRequest). IsConsistent r.0)
      (b.closed || is_some b.active) (λ busy. h)
      (λ free.
        let idle : b.active ≡ none = ground arith in
        let same = open_tickets-idle b idle in
        let front =
          pop_open-front b.cell b.queue
            (λ t m. (h.tracks.unanswered t (subst (In t) (sym same) m)).1) in
        record {
          tracks = subst (Tracks b.count b.cell) (same ∙ sym front) h.tracks;
          shut_empty = λ closed. front ∙ sym same ∙ h.shut_empty closed;
        })

pub is_active-eq : (t : ℕ) (b : Broker) → is_active t b ≡ true → b.active ≡ some t
is_active-eq t b h = elim (Option-cases b.active) [
  | inl e ↦ cc (rw e at h)
  | inr (a, e) ↦ e ∙ ap some ((==_iff a t).0 (rw e at h))
]

complete-IsConsistent :
    (t : ℕ) (choice : ApprovalChoice) (b : Broker)
    → IsConsistent b
    → IsConsistent (complete t choice b)
unfolding complete
complete-IsConsistent t choice b h =
    if_ind IsConsistent (b.cell t).completed (λ done. h)
      (λ unanswered.
        if_ind IsConsistent (is_active t b)
          (λ active.
            let e = is_active-eq t b active in
            record {
              tracks =
                  subst (Tracks b.count (answer b.cell t choice))
                    (ap (remove t) (open_tickets-active b e) ∙ remove_head t b.queue)
                    (Tracks-remove h.tracks t choice);
              shut_empty = λ closed. cc (h.shut_empty closed, open_tickets-active b e);
            })
          (λ waiting. record {
            tracks =
                subst (Tracks b.count (answer b.cell t choice)) (sym (removed waiting))
                  (Tracks-remove h.tracks t choice);
            shut_empty = λ closed. removed waiting ∙ ap (remove t) (h.shut_empty closed);
          }))
  where
    removed :
        is_active t b ≡ false
        → (elim b.active [ none ↦ remove t b.queue | some a ↦ a ∷ remove t b.queue ])
          ≡ remove t (open_tickets b)
    removed waiting = elim (Option-cases b.active) [
      | inl e ↦ rw e refl
      | inr (a, e) ↦ let other : (a == t) ≡ false = rw e at waiting in rw e (ground (arith, other))
    ]

close-IsConsistent : (b : Broker) → IsConsistent b → IsConsistent (close b)
unfolding close
close-IsConsistent b h =
    if_ind IsConsistent b.closed (λ shut_down. h)
      (λ running. record {
        tracks = Tracks-deny_all (open_tickets b) h.tracks;
        shut_empty = λ e. refl;
      })

-- Every critical section of every thread keeps the broker consistent.
pub Step-IsConsistent : {b b' : Broker} → Step b b' → IsConsistent b → IsConsistent b'
Step-IsConsistent {b} (ask request) h = put_request-IsConsistent request b h
Step-IsConsistent {b} show h = next_request-IsConsistent b h
Step-IsConsistent {b} (reply request_id choice) h = resolve-IsConsistent request_id choice b h
Step-IsConsistent {b} (cancel t below) h = complete-IsConsistent t ApprovalChoice.deny b h
Step-IsConsistent {b} shut h = close-IsConsistent b h

-- `ApprovalBroker()`: no approval is pending. The store holds nothing that a ticket names.
abbrev pub init : (ℕ → Pending) → Broker
init cell = record { count = 0; cell = cell; queue = []; active = none; closed = false }

pub data Reach (cell : ℕ → Pending) : Broker → Type 0 where
  start : Reach cell (init cell)
  next : {b b' : Broker} → Reach cell b → Step b b' → Reach cell b'

init-IsConsistent : (cell : ℕ → Pending) → IsConsistent (init cell)
init-IsConsistent cell = record {
  tracks = record {
    ascending = tt;
    unanswered = λ t m. elim m [ ];
    none_lost = λ t below fresh. absurd (omega arith);
    answered = λ t below done. absurd (omega arith);
  };
  shut_empty = λ e. refl;
}

-- However the threads interleave, no approval is lost: each that is unanswered is queued or shown,
-- once and in the order of the questions, each that is answered carries its choice, and a closed
-- broker has answered all of them.
pub Reach-IsConsistent : {cell : ℕ → Pending} {b : Broker} → Reach cell b → IsConsistent b
Reach-IsConsistent {cell} start = init-IsConsistent cell
Reach-IsConsistent (next r step) = Step-IsConsistent step (Reach-IsConsistent r)
