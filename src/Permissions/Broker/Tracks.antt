-- ===== src/Permissions/Broker/Tracks.antt =====
-- Which tickets a store of approvals leaves open.
use fakuicode.Prelude.{
  ℕ, suc, ◌<◌, ◌≡◌, ◌≢◌, refl, subst, inl, inr, true, false, none, List, [], ◌∷◌, ◌++◌, In, here,
  there, In-uncons, In-append, In-append_left, In-append_right, is_some, arith, ◌==◌, ==_iff,
  Bool-cases, ◌∙◌,
}
use fakuicode.Permissions.Models.{PermissionRequest, ApprovalChoice}
use fakuicode.Permissions.Broker.{Pending, update, answer, remove, deny_all}

abbrev pub Ascending : List ℕ → Type 0
Ascending [] = Unit
Ascending (t ∷ tickets) = ((j : ℕ) → In j tickets → t < j) × Ascending tickets

-- `open` lists the unanswered approvals among the first `count`, oldest first and once each, and
-- an answered one carries its choice.
pub record Tracks (count : ℕ) (cell : ℕ → Pending) (tickets : List ℕ) : Type 0 where
  pub ascending : Ascending tickets
  pub unanswered : (t : ℕ) → In t tickets → (t < count) × ((cell t).completed ≡ false)
  pub none_lost : (t : ℕ) → t < count → (cell t).completed ≡ false → In t tickets
  pub answered : (t : ℕ) → t < count → (cell t).completed ≡ true → is_some (cell t).choice ≡ true

Ascending-snoc :
    (tickets : List ℕ) (n : ℕ)
    → Ascending tickets
    → ((t : ℕ) → In t tickets → t < n)
    → Ascending (tickets ++ n ∷ [])
Ascending-snoc [] n h below = (λ j m. elim m [ ], tt)
Ascending-snoc (t ∷ tickets) n h below = (
  λ j m. elim (In-append tickets (n ∷ []) m) [
    | inl old ↦ h.0 j old
    | inr new ↦ elim (In-uncons new) [
      | inl e ↦ rw e (below t here)
      | inr none_left ↦ elim none_left [ ]
    ]
  ],
  Ascending-snoc tickets n h.1 (λ u m. below u (there m)),
)

In-remove : {j : ℕ} (t : ℕ) (tickets : List ℕ) → In j (remove t tickets) → In j tickets
unfolding remove
In-remove t [] m = m
In-remove {j} t (u ∷ tickets) m = elim (Bool-cases (u == t)) [
  | inl e ↦ there (rw e at m)
  | inr e ↦ elim (In-uncons (rw e at m)) [
    | inl first ↦ rw first here
    | inr later ↦ there (In-remove t tickets later)
  ]
]

ne_of_In-remove : {j t : ℕ} (tickets : List ℕ) → Ascending tickets → In j (remove t tickets) → j ≢ t
unfolding remove
ne_of_In-remove [] h m = elim m [ ]
ne_of_In-remove {j} {t} (u ∷ tickets) h m = elim (Bool-cases (u == t)) [
  | inl e ↦ let later : u < j = h.0 j (rw e at m) in ground arith
  | inr e ↦ elim (In-uncons (rw e at m)) [
    | inl first ↦ ground arith
    | inr later ↦ ne_of_In-remove tickets h.1 later
  ]
]

In-remove_ne : {j t : ℕ} (tickets : List ℕ) → In j tickets → j ≢ t → In j (remove t tickets)
unfolding remove
In-remove_ne {j} {t} (u ∷ tickets) m other = elim (Bool-cases (u == t)) [
  | inl e ↦ rw e (elim (In-uncons m) [
    | inl first ↦ absurd (other (first ∙ (==_iff u t).0 e))
    | inr later ↦ later
  ])
  | inr e ↦ rw e (elim (In-uncons m) [
    | inl first ↦ rw first here
    | inr later ↦ there (In-remove_ne tickets later other)
  ])
]
In-remove_ne [] m other = elim m [ ]

Ascending-remove : (t : ℕ) (tickets : List ℕ) → Ascending tickets → Ascending (remove t tickets)
unfolding remove
Ascending-remove t [] h = tt
Ascending-remove t (u ∷ tickets) h = elim (Bool-cases (u == t)) [
  | inl e ↦ rw e h.1
  | inr e ↦ rw e (λ j m. h.0 j (In-remove t tickets m), Ascending-remove t tickets h.1)
]

module _ {count : ℕ} {cell : ℕ → Pending} {tickets : List ℕ} (h : Tracks count cell tickets) where
  pub Tracks-snoc :
      (request : PermissionRequest)
      → Tracks
          (suc count)
          (update cell count (record { request = request; completed = false; choice = none }))
          (tickets ++ count ∷ [])
  Tracks-snoc request = record {
    ascending = Ascending-snoc tickets count h.ascending (λ t m. (h.unanswered t m).0);
    unanswered = λ t m. elim (In-append tickets (count ∷ []) m) [
      | inl old ↦ let (below, fresh) = h.unanswered t old in (omega arith, ground arith)
      | inr new ↦ elim (In-uncons new) [
        | inl e ↦ (omega arith, ground arith)
        | inr nothing ↦ elim nothing [ ]
      ]
    ];
    none_lost = λ t below fresh. elim (Bool-cases (t == count)) [
      | inl e ↦ rw ((==_iff t count).0 e) (In-append_right tickets here)
      | inr e ↦ In-append_left _ (h.none_lost t (ground arith) (rw e at fresh))
    ];
    answered = λ t below done. elim (Bool-cases (t == count)) [
      | inl e ↦ cc (rw e at done)
      | inr e ↦ rw e (h.answered t (ground arith) (rw e at done))
    ];
  }

  pub Tracks-remove :
      (t : ℕ) (choice : ApprovalChoice) → Tracks count (answer cell t choice) (remove t tickets)
  Tracks-remove t choice = record {
    ascending = Ascending-remove t tickets h.ascending;
    unanswered = λ j m.
        let (below, fresh) = h.unanswered j (In-remove t tickets m) in
        let other : j ≢ t = ne_of_In-remove tickets h.ascending m in (below, ground arith);
    none_lost = λ j below fresh. elim (Bool-cases (j == t)) [
      | inl e ↦ cc (rw e at fresh)
      | inr e ↦
          In-remove_ne tickets (h.none_lost j below (rw e at fresh))
            (λ same. ground (arith, e, same))
    ];
    answered = λ j below done. elim (Bool-cases (j == t)) [
      | inl e ↦ rw e refl
      | inr e ↦ rw e (h.answered j below (rw e at done))
    ];
  }

pub remove_head : (t : ℕ) (tickets : List ℕ) → remove t (t ∷ tickets) ≡ tickets
unfolding remove
remove_head t tickets = ground arith

pub Tracks-deny_all :
    {count : ℕ} (tickets : List ℕ) {cell : ℕ → Pending}
    → Tracks count cell tickets
    → Tracks count (deny_all tickets cell) []
unfolding deny_all
Tracks-deny_all [] h = h
Tracks-deny_all (t ∷ tickets) {cell} h = Tracks-deny_all tickets (
    subst (Tracks _ (answer cell t ApprovalChoice.deny)) (remove_head t tickets)
      (Tracks-remove h t ApprovalChoice.deny))
