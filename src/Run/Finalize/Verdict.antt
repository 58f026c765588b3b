-- ===== src/Run/Finalize/Verdict.antt =====
-- About the verdict of `finalize`.
use wolochain.Prelude.{
  ◌+◌, ◌≤◌, ◌≡◌, refl, true, false, arith, length, inl, inr, Bool-cases, ◌==◌, if◌then◌else◌,
  is_empty, sym, ap, ◌∙◌,
}
use wolochain.Codes.{Status, is_no_status}
use wolochain.Run.{RunResponse}
use wolochain.Run.Finalize.{with_requested, with_tally, with_status, derive_run_status, finalize}
use wolochain.Run.Tally.{tally, tally_of}
use wolochain.Run.Finalize.Totals.{AllExecuted, tally-at-most, tally-parts, tally-AllExecuted}

derive_run_status-succeeds :
    (r : RunResponse)
    → r.succeeded ≡ false
    → r.confirmed_payout_count ≤ r.executed_payout_count
    → (derive_run_status r).1 ≡ true
    → r.requested_payout_count ≤ r.executed_payout_count
unfolding derive_run_status
derive_run_status-succeeds r fresh fewer h = ground arith

-- A response as a run has it before its payouts are counted.
pub record IsFresh (r : RunResponse) : Type 0 where
  pub status : r.status ≡ Status.no_status
  pub succeeded : r.succeeded ≡ false
  pub executed : r.executed_payout_count ≡ 0
  pub confirmed : r.confirmed_payout_count ≡ 0
  pub accepted : r.accepted_payout_count ≡ 0

-- What the two ends of a finalization leave alone.
record Kept (r s : RunResponse) : Type 0 where
  succeeded : s.succeeded ≡ r.succeeded
  executed : s.executed_payout_count ≡ r.executed_payout_count
  confirmed : s.confirmed_payout_count ≡ r.confirmed_payout_count
  accepted : s.accepted_payout_count ≡ r.accepted_payout_count
  status : s.status ≡ r.status
  payouts : s.payouts ≡ r.payouts

with_requested-Kept : (r : RunResponse) → Kept r (with_requested r)
unfolding with_requested
with_requested-Kept r = elim (Bool-cases (is_empty r.requested_total_uwolo)) [
  | inl e ↦
      rw (e, with_requested)
        (record {
          succeeded = refl;
          executed = refl;
          confirmed = refl;
          accepted = refl;
          status = refl;
          payouts = refl;
        })
  | inr n ↦
      rw (n, with_requested)
        (record {
          succeeded = refl;
          executed = refl;
          confirmed = refl;
          accepted = refl;
          status = refl;
          payouts = refl;
        })
]

with_requested-count :
    (r : RunResponse)
    → (with_requested r).requested_payout_count
      ≡ (if r.requested_payout_count == 0 then length r.payouts else r.requested_payout_count)
unfolding with_requested
with_requested-count r = elim (Bool-cases (is_empty r.requested_total_uwolo)) [
  | inl e ↦ rw (e, with_requested) refl
  | inr n ↦ rw (n, with_requested) refl
]

-- What the last step leaves alone, and what it takes its verdict from.
record Judged (r s : RunResponse) : Type 0 where
  succeeded : r.status ≡ Status.no_status → s.succeeded ≡ (derive_run_status r).1
  executed : s.executed_payout_count ≡ r.executed_payout_count
  confirmed : s.confirmed_payout_count ≡ r.confirmed_payout_count
  accepted : s.accepted_payout_count ≡ r.accepted_payout_count
  requested : s.requested_payout_count ≡ r.requested_payout_count
  payouts : s.payouts ≡ r.payouts

with_status-Judged : (r : RunResponse) → Judged r (with_status r)
unfolding with_status
with_status-Judged r = elim (Bool-cases (is_no_status r.status)) [
  | inl e ↦
      rw (e, with_status)
        (record {
          succeeded = λ h. refl;
          executed = refl;
          confirmed = refl;
          accepted = refl;
          requested = refl;
          payouts = refl;
        })
  | inr n ↦
      rw (n, with_status)
        (record {
          succeeded = λ h. (let blank = ap is_no_status h in absurd (ground arith));
          executed = refl;
          confirmed = refl;
          accepted = refl;
          requested = refl;
          payouts = refl;
        })
]

-- The executed payouts of a finalized response are the confirmed and the accepted ones.
pub finalize-parts :
    (r : RunResponse)
    → IsFresh r
    → (finalize r).executed_payout_count
      ≡ (finalize r).confirmed_payout_count + (finalize r).accepted_payout_count
unfolding finalize with_tally
finalize-parts r fresh =
    let r' = with_requested r in
    let kept = with_requested-Kept r in
    let executed = kept.executed ∙ fresh.executed in
    let confirmed = kept.confirmed ∙ fresh.confirmed in
    let accepted = kept.accepted ∙ fresh.accepted in
    let parts = tally-parts r'.payouts (tally_of r') in
    let judged = with_status-Judged (with_tally (tally r'.payouts (tally_of r')) r') in
    rw (judged.executed, judged.confirmed, judged.accepted) (omega arith)

requested_at_least :
    (r : RunResponse)
    → length r.payouts ≤ r.requested_payout_count
    → length r.payouts ≤ (with_requested r).requested_payout_count
requested_at_least r enough = rw (with_requested-count r) (ground arith)

counted-AllExecuted :
    (r : RunResponse)
    → r.executed_payout_count ≡ 0
    → length r.payouts ≤ (tally r.payouts (tally_of r)).executed_count
    → AllExecuted r.payouts
counted-AllExecuted r fresh all = tally-AllExecuted r.payouts (tally_of r) (ground arith)

-- A run succeeds only if every payout was sent. Take a response that has no status, no success and
-- no counts yet, and that requests at least as many payouts as it has. If it is finalized as
-- succeeded, each of its payouts is confirmed or accepted, and there are as many as it requests.
pub finalize-succeeds :
    (r : RunResponse)
    → IsFresh r
    → length r.payouts ≤ r.requested_payout_count
    → (finalize r).succeeded ≡ true
    → AllExecuted r.payouts × ((finalize r).requested_payout_count ≡ length r.payouts)
unfolding finalize with_tally
finalize-succeeds r fresh enough h =
    let r' = with_requested r in
    let kept = with_requested-Kept r in
    let counted = with_tally (tally r'.payouts (tally_of r')) r' in
    let executed = kept.executed ∙ fresh.executed in
    let confirmed = kept.confirmed ∙ fresh.confirmed in
    let accepted = kept.accepted ∙ fresh.accepted in
    let parts = tally-parts r'.payouts (tally_of r') in
    let judged = with_status-Judged counted in
    let complete =
      derive_run_status-succeeds counted (kept.succeeded ∙ fresh.succeeded) (omega arith)
        (sym (judged.succeeded (kept.status ∙ fresh.status)) ∙ h) in
    let bound = tally-at-most r'.payouts (tally_of r') in
    let asked = requested_at_least r enough in
    let same_length = ap (λ ps. length ps) kept.payouts in
    (
      rw kept.payouts at (counted-AllExecuted r' executed (omega arith)),
      judged.requested ∙ omega arith,
    )

with_status-decided :
    (r : RunResponse) → is_no_status r.status ≡ false → (with_status r).succeeded ≡ r.succeeded
unfolding with_status
with_status-decided r decided = rw (decided, with_status) refl

-- A response that has its status keeps its verdict.
pub finalize-decided :
    (r : RunResponse) → is_no_status r.status ≡ false → (finalize r).succeeded ≡ r.succeeded
unfolding finalize with_tally
finalize-decided r decided =
    let r' = with_requested r in
    let kept = with_requested-Kept r in
    with_status-decided (with_tally (tally r'.payouts (tally_of r')) r')
      (ap is_no_status kept.status ∙ decided)
    ∙ kept.succeeded

-- A finalization requests at least as many payouts as before.
pub finalize-requested :
    (r : RunResponse) → r.requested_payout_count ≤ (finalize r).requested_payout_count
unfolding finalize with_tally
finalize-requested r =
    let r' = with_requested r in
    let judged = with_status-Judged (with_tally (tally r'.payouts (tally_of r')) r') in
    let counted = with_requested-count r in rw judged.requested (rw counted (ground arith))

-- A finalization leaves the payouts alone.
pub finalize-payouts : (r : RunResponse) → (finalize r).payouts ≡ r.payouts
unfolding finalize with_tally
finalize-payouts r =
    let r' = with_requested r in
    let judged = with_status-Judged (with_tally (tally r'.payouts (tally_of r')) r') in
    let kept = with_requested-Kept r in judged.payouts ∙ kept.payouts
