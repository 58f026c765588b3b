-- ===== src/Run/Finalize/Totals.antt =====
-- About the counts of `tally`.
use wolochain.Prelude.{
  ℕ, ◌+◌, ◌≤◌, ◌≡◌, refl, true, false, ◌||◌, List, [], ◌∷◌, arith, length, inl, inr, Bool,
  Bool-cases, Option-cases,
}
use wolochain.Decimal.{parse_optional_uwolo}
use wolochain.Codes.{is_confirmed, is_accepted, is_refusal, is_rejected}
use wolochain.Run.{PayoutResult}
use wolochain.Run.Tally.{Tally, tally, tally_flags, tally_outcome, tally_payout, tally_status}

-- A payout that was sent: confirmed, or accepted.
abbrev pub IsExecuted : PayoutResult → Type 0
IsExecuted p = (is_confirmed p.status || is_accepted p.status) ≡ true

-- All payouts were sent.
abbrev pub AllExecuted : List PayoutResult → Type 0
AllExecuted [] = Unit
AllExecuted (p ∷ ps) = IsExecuted p × AllExecuted ps

-- From one tally to the next: at most one payout more is counted as executed, none if it was not
-- sent, and the executed ones remain the confirmed and the accepted ones.
record Counts (sent : Bool) (t u : Tally) : Type 0 where
  parts :
      u.executed_count + (t.confirmed_count + t.accepted_count)
      ≡ t.executed_count + (u.confirmed_count + u.accepted_count)
  at_most : u.executed_count ≤ 1 + t.executed_count
  unsent : sent ≡ false → u.executed_count ≡ t.executed_count

tally_status-Counts :
    (p : PayoutResult) (amount : ℕ) (t : Tally)
    → Counts (is_confirmed p.status || is_accepted p.status) t (tally_status p amount t)
unfolding tally_status
tally_status-Counts p amount t = elim (Bool-cases (is_confirmed p.status)) [
  | inl c ↦
      rw (c, tally_status)
        (record {
          parts = ground arith;
          at_most = ground arith;
          unsent = λ h. absurd (ground arith);
        })
  | inr n ↦ elim (Bool-cases (is_accepted p.status)) [
    | inl a ↦
        rw (n, tally_status)
          (rw (a, tally_status)
            (record {
              parts = ground arith;
              at_most = ground arith;
              unsent = λ h. absurd (ground arith);
            }))
    | inr m ↦
        rw (n, tally_status)
          (rw (m, tally_status)
            (record { parts = ground arith; at_most = ground arith; unsent = λ h. refl }))
  ]
]

tally_outcome-Counts :
    (p : PayoutResult) (amount : ℕ) (sent : Bool) (t u : Tally)
    → Counts sent t u
    → Counts sent t (tally_outcome p amount u)
unfolding tally_outcome
tally_outcome-Counts p amount sent t u c =
    let kept : (v : Tally) → v ≡ v = λ v. refl in
    elim (Bool-cases (is_refusal p.outcome)) [
      | inl r ↦
          rw (r, tally_outcome) (record { parts = c.parts; at_most = c.at_most; unsent = c.unsent })
      | inr n ↦ elim (Bool-cases (is_rejected p.outcome)) [
        | inl r ↦
            rw (n, tally_outcome)
              (rw (r, tally_outcome)
                (record { parts = c.parts; at_most = c.at_most; unsent = c.unsent }))
        | inr m ↦ rw (n, tally_outcome) (rw (m, tally_outcome) c)
      ]
    ]

tally_payout-Counts :
    (p : PayoutResult) (t : Tally)
    → Counts (is_confirmed p.status || is_accepted p.status) t (tally_payout p t)
unfolding tally_payout tally_flags
tally_payout-Counts p t = elim (Option-cases (parse_optional_uwolo p.amount_uwolo)) [
  | inl unread ↦
      rw (unread, tally_payout)
        (record { parts = refl; at_most = ground arith; unsent = λ h. refl })
  | inr (amount, e) ↦
      rw (e, tally_payout)
        (let c =
            tally_outcome-Counts p amount _ t (tally_status p amount t)
              (tally_status-Counts p amount t) in
          record { parts = c.parts; at_most = c.at_most; unsent = c.unsent })
]

pub tally-at-most :
    (ps : List PayoutResult) (t : Tally)
    → (tally ps t).executed_count ≤ length ps + t.executed_count
unfolding tally
tally-at-most [] t = ground arith
tally-at-most (p ∷ ps) t =
    let step = (tally_payout-Counts p t).at_most in
    let rest = tally-at-most ps (tally_payout p t) in ground arith

pub tally-parts :
    (ps : List PayoutResult) (t : Tally)
    → (tally ps t).executed_count + (t.confirmed_count + t.accepted_count)
      ≡ t.executed_count + ((tally ps t).confirmed_count + (tally ps t).accepted_count)
unfolding tally
tally-parts [] t = refl
tally-parts (p ∷ ps) t =
    let step = (tally_payout-Counts p t).parts in
    let rest = tally-parts ps (tally_payout p t) in omega arith

-- Where every payout was counted as executed, every one was sent.
pub tally-AllExecuted :
    (ps : List PayoutResult) (t : Tally)
    → length ps + t.executed_count ≤ (tally ps t).executed_count
    → AllExecuted ps
unfolding tally
tally-AllExecuted [] t all = tt
tally-AllExecuted (p ∷ ps) t all =
    let step = tally_payout-Counts p t in
    let at_most = step.at_most in
    let rest = tally-at-most ps (tally_payout p t) in
    elim (Bool-cases (is_confirmed p.status || is_accepted p.status)) [
      | inl sent ↦ (sent, tally-AllExecuted ps (tally_payout p t) (ground arith))
      | inr unsent ↦ (let same = step.unsent unsent in absurd (ground arith))
    ]

-- No payout was sent.
abbrev pub AllUnsent : List PayoutResult → Type 0
AllUnsent [] = Unit
AllUnsent (p ∷ ps) = ((is_confirmed p.status || is_accepted p.status) ≡ false) × AllUnsent ps

pub tally-AllUnsent :
    (ps : List PayoutResult) (t : Tally)
    → AllUnsent ps
    → (tally ps t).executed_count ≡ t.executed_count
unfolding tally
tally-AllUnsent [] t unsent = refl
tally-AllUnsent (p ∷ ps) t (here, unsent) =
    let same = (tally_payout-Counts p t).unsent here in
    let rest = tally-AllUnsent ps (tally_payout p t) unsent in omega arith
