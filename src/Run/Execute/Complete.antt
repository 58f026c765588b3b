-- ===== src/Run/Execute/Complete.antt =====
-- About the response of `execute_planned`, and the payouts that it reports.
use wolochain.Prelude.{
  ℕ, suc, ◌≤◌, ◌≡◌, refl, sym, ap, ◌∙◌, true, false, [], ◌∷◌, List, arith, Bool-cases, inl, inr,
  length,
}
use wolochain.Text.{Text}
use wolochain.Fallible.{ok, Fallible-cases, ok-injective, fail-ne-ok}
use wolochain.Config.{Config}
use wolochain.Node.{Node}
use wolochain.World.{World, write_run_stored_result}
use wolochain.Broadcast.{Signer}
use wolochain.Execute.{execute_as}
use wolochain.Run.{
  RunRequest, NormalizedRun, NormalizedPayout, PayoutResult, RunResponse, RunStoredResult,
}
use wolochain.Run.Finalize.Totals.{AllExecuted}
use wolochain.Run.Finalize.Verdict.{
  IsFresh, finalize-succeeds, finalize-payouts, finalize-requested,
}
use wolochain.Run.Plan.{build_plan}
use wolochain.Run.Plan.Counts.{validated-CountsLines}
use wolochain.Run.Execute.{
  run_signer, item_request, with_items, finished_run, execute_items, record_run, execute_planned,
}
use wolochain.Run.Execute.Sends.{execute_planned-refused}

with_items-IsFresh : (r : RunResponse) (items : List PayoutResult) → IsFresh (with_items r items)
unfolding with_items
with_items-IsFresh r items = record {
  status = refl;
  succeeded = refl;
  executed = refl;
  confirmed = refl;
  accepted = refl;
}

-- A response of a run whose payouts were all sent, with as many of them as it requests.
pub record IsComplete (r : RunResponse) : Type 0 where
  pub executed : AllExecuted r.payouts
  pub all : r.requested_payout_count ≡ length r.payouts

with_items-enough :
    (r : RunResponse) (items : List PayoutResult)
    → length items ≤ r.requested_payout_count
    → length (with_items r items).payouts ≤ (with_items r items).requested_payout_count
unfolding with_items
with_items-enough r items enough = enough

with_items-payouts :
    (r : RunResponse) (items : List PayoutResult) → (with_items r items).payouts ≡ items
unfolding with_items
with_items-payouts r items = refl

finished_run-IsComplete :
    (r : RunResponse) (items : List PayoutResult)
    → length items ≤ r.requested_payout_count
    → (finished_run r items).succeeded ≡ true
    → IsComplete (finished_run r items)
unfolding finished_run
finished_run-IsComplete r items enough h =
    let fresh = with_items r items in
    let (executed, all) =
      finalize-succeeds fresh (with_items-IsFresh r items) (with_items-enough r items enough) h in
    let same = finalize-payouts fresh in
    record { executed = rw same executed; all = all ∙ ap (λ l. length l) (sym same) }

finished_run-payouts :
    (r : RunResponse) (items : List PayoutResult) → (finished_run r items).payouts ≡ items
unfolding finished_run
finished_run-payouts r items = finalize-payouts (with_items r items) ∙ with_items-payouts r items

with_items-requested :
    (r : RunResponse) (items : List PayoutResult)
    → (with_items r items).requested_payout_count ≡ r.requested_payout_count
unfolding with_items
with_items-requested r items = refl

finished_run-requested :
    (r : RunResponse) (items : List PayoutResult)
    → r.requested_payout_count ≤ (finished_run r items).requested_payout_count
unfolding finished_run
finished_run-requested r items =
    let more = finalize-requested (with_items r items) in
    let same = with_items-requested r items in omega arith

-- The same, of a response that is the finished run.
finished_run-IsComplete_as :
    (r done : RunResponse) (items : List PayoutResult) (lines : ℕ)
    → length items ≤ lines
    → lines ≤ r.requested_payout_count
    → finished_run r items ≡ done
    → done.succeeded ≡ true
    → IsComplete done × (length done.payouts ≡ lines)
finished_run-IsComplete_as r done items lines fewer enough same good =
    let complete =
      finished_run-IsComplete r items (omega arith) (ap (λ d. d.succeeded) same ∙ good) in
    let all = complete.all in
    let listed = ap (λ l. length l) (finished_run-payouts r items) in
    let more = finished_run-requested r items in
    let both : IsComplete (finished_run r items) × (length (finished_run r items).payouts ≡ lines) =
      (complete, omega arith) in
    rw same at both

never : (true ≡ false) → ⊥
never e = absurd (ground arith)

module _ {C : Type 0} (node : Node C) (cfg : Config) where
  execute_items-length :
      (signer : Signer) (ps : List NormalizedPayout) (w : World C) (items : List PayoutResult)
      → (execute_items node cfg signer ps w).0 ≡ ok items
      → length items ≡ length ps
  unfolding execute_items
  execute_items-length signer [] w items h = ap length (sym (ok-injective h))
  execute_items-length signer (p ∷ ps) w items h =
      let (answer, w') = execute_as node cfg signer (item_request p) w in
      elim (Fallible-cases answer) [
        | inr (why, e) ↦ absurd (fail-ne-ok (rw (e, execute_items) at h))
        | inl (r, e) ↦ elim (Fallible-cases (execute_items node cfg signer ps w').0) [
          | inr (why, q) ↦ absurd (fail-ne-ok (rw (e, q, execute_items) at h))
          | inl (rest, q) ↦
              (let same = execute_items-length signer ps w' rest q in
                let cons = ap (λ l. length l) (ok-injective (rw (e, q, execute_items) at h)) in
                sym cons ∙ ap (λ n. suc n) same)
        ]
      ]

  record_run-response :
      (run_id : Text) (run : NormalizedRun) (fingerprint : Text) (r done : RunResponse)
      (w : World C)
      → (record_run node cfg run_id run fingerprint r w).0 ≡ ok done
      → r ≡ done
  unfolding record_run
  record_run-response run_id run fingerprint r done w h =
      let stored : RunStoredResult = record {
        request = run;
        fingerprint = fingerprint;
        response = r;
      } in
      elim (Fallible-cases (write_run_stored_result node cfg run_id stored w).0) [
        | inl (u, e) ↦ ok-injective (rw (e, record_run) at h)
        | inr (why, e) ↦ absurd (fail-ne-ok (rw (e, record_run) at h))
      ]

  -- A run that succeeds has executed every line of its request. If a run is executed as it was
  -- planned and its response says that it succeeded, then each payout of that response is confirmed
  -- or accepted, and there are as many of them as the response requests and as the request has
  -- lines: no line was refused, left out or not sent.
  pub execute_planned-IsComplete :
      (request : RunRequest) (run_id fingerprint : Text) (c : C) (w : World C) (done : RunResponse)
      → (execute_planned node cfg run_id fingerprint
          (build_plan node cfg request c).0.0
          (record (build_plan node cfg request c).0.1 { dry_run = false })
          w).0
        ≡ ok done
      → done.succeeded ≡ true
      → IsComplete done × (length done.payouts ≡ length request.payouts)
  unfolding execute_planned
  execute_planned-IsComplete request run_id fingerprint c w done h good =
      let ((run, plan), c') = build_plan node cfg request c in
      let r : RunResponse = record plan { dry_run = false } in
      elim (Bool-cases plan.succeeded) [
        | inr refused ↦
            (let same = record_run-response run_id run fingerprint r done w (
                sym (
                  ap (λ x. x.0)
                    (execute_planned-refused node cfg run_id fingerprint run r w refused))
                ∙ h) in
              absurd (never (sym good ∙ (ap (λ d. d.succeeded) (sym same) ∙ refused))))
        | inl validated ↦
            elim (Fallible-cases (execute_items node cfg (run_signer run) run.payouts w).0) [
              | inr (why, e) ↦ absurd (fail-ne-ok (rw (validated, e, execute_planned) at h))
              | inl (items, e) ↦
                  (let counts = validated-CountsLines node cfg request c validated in
                    let same =
                      record_run-response run_id run fingerprint (finished_run r items) done _
                        (rw (validated, e, execute_planned) at h) in
                    let sent = execute_items-length (run_signer run) run.payouts w items e in
                    let fewer = counts.fewer in
                    finished_run-IsComplete_as r done items (length request.payouts) (omega arith)
                      counts.requested same good)
            ]
      ]
