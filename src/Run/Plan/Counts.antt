-- ===== src/Run/Plan/Counts.antt =====
-- About the number of payouts that a plan requests.
use wolochain.Prelude.{
  ℕ, suc, ◌+◌, ◌≤◌, ◌≡◌, refl, ap, ◌∙◌, true, false, some, [], ◌∷◌, List, arith, is_empty,
  Bool-cases, inl, inr, length,
}
use wolochain.Text.{Text, text_eq}
use wolochain.Decimal.{parse_optional_uwolo, format_uint}
use wolochain.Config.{Config, escrow_role}
use wolochain.Responses.{HealthResponse}
use wolochain.Node.{Node}
use wolochain.Health.{build_health_report}
use wolochain.Execute.{Verdict, preflight_escrow_signer}
use wolochain.Run.{RunRequest, RunPayoutInput, NormalizedRun, RunResponse}
use wolochain.Run.Prepare.{
  prepare_run, lines_response, planned_run, planned, scan_lines, run_context, Line, RunContext,
  prepare_line, seen_after, refused_line, planned_line,
}
use wolochain.Run.Plan.{
  with_fee_estimate, payout_head, payout_on_remaining, payout_on_balance, payout_on_report,
  escrow_head, escrow_on_verdict, payout_plan, escrow_plan, plan_total, plan_run, build_plan,
}
use wolochain.Run.Plan.Covered.{IsFunded, with_fee_estimate-total, build_plan-IsFunded}
use wolochain.Run.Finalize.{has_ready}
use wolochain.Run.Finalize.Verdict.{finalize-requested}
use wolochain.Run.Prepare.Lines.{scan_lines-length}
use wolochain.Run.Head.{head_response, read_head}

module _ (cfg : Config) where
  payout_on_report-requested :
      (total : ℕ) (health : HealthResponse) (r : RunResponse)
      → (payout_on_report cfg total health r).requested_payout_count ≡ r.requested_payout_count
  unfolding payout_on_report payout_on_balance payout_on_remaining
  payout_on_report-requested total health r = ground arith

  escrow_on_verdict-requested :
      (total : ℕ) (v : Verdict) (r : RunResponse)
      → (escrow_on_verdict cfg total v r).requested_payout_count ≡ r.requested_payout_count
  unfolding escrow_on_verdict
  escrow_on_verdict-requested total v r = ground arith

  with_fee_estimate-requested :
      (count : ℕ) (r : RunResponse)
      → (with_fee_estimate cfg count r).requested_payout_count ≡ r.requested_payout_count
  unfolding with_fee_estimate
  with_fee_estimate-requested count r = ground arith

module _ {C : Type 0} (node : Node C) (cfg : Config) where
  plan_total-requested :
      (run : NormalizedRun) (total : ℕ) (r : RunResponse) (c : C)
      → (plan_total node cfg run (some total) r c).0.requested_payout_count
        ≡ r.requested_payout_count
  unfolding plan_total payout_plan escrow_plan
  plan_total-requested run total r c = elim (Bool-cases (text_eq run.signer_role escrow_role)) [
    | inl named ↦
        rw (named, plan_total, escrow_plan)
          (let v = (preflight_escrow_signer node cfg (format_uint total) c).0 in
            escrow_on_verdict-requested cfg total v (escrow_head cfg v r))
    | inr other ↦
        rw (other, plan_total, payout_plan)
          (let health = (build_health_report node cfg c).0 in
            payout_on_report-requested cfg total health (payout_head cfg health r))
  ]

  -- A plan that succeeds requests at least as many payouts as its preparation does.
  plan_run-requested :
      (run : NormalizedRun) (prepared : RunResponse) (c : C)
      → IsFunded node cfg run prepared c
      → prepared.requested_payout_count
        ≤ (plan_run node cfg run prepared c).0.requested_payout_count
  unfolding plan_run
  plan_run-requested run prepared c f =
      let r : RunResponse = record prepared { dry_run = true } in
      let estimated = with_fee_estimate cfg (length run.payouts) r in
      let parses : parse_optional_uwolo estimated.requested_total_uwolo ≡ some f.total =
        ap parse_optional_uwolo (with_fee_estimate-total node cfg (length run.payouts) r)
        ∙ f.parses in
      rw (f.ready, f.allowed, parses, plan_run)
        (let same = plan_total-requested run f.total estimated c in
          let first = with_fee_estimate-requested cfg (length run.payouts) r in
          let last = finalize-requested (plan_total node cfg run (some f.total) estimated c).0 in
          omega arith)

count_line :
    (line : Line) (lines : List Line) (n : ℕ)
    → length (planned lines) ≤ n
    → length (planned (line ∷ lines)) ≤ suc n
count_line (refused_line r) lines n h = ground arith
count_line (planned_line p r) lines n h = ground arith

-- No more lines are planned than there are.
planned-at-most :
    (ctx : RunContext) (index : ℕ) (seen : List Text) (inputs : List RunPayoutInput)
    → length (planned (scan_lines ctx index seen inputs)) ≤ length inputs
unfolding scan_lines
planned-at-most ctx index seen [] = ground arith
planned-at-most ctx index seen (input ∷ inputs) =
    let line = prepare_line ctx index seen input in
    let rest = planned-at-most ctx (index + 1) (seen_after line seen) inputs in
    count_line line (scan_lines ctx (index + 1) (seen_after line seen) inputs) _ rest

-- The counts of a preparation that has no error in its head.
record HasCounts (request : RunRequest) : Type 0 where
  requested : (prepare_run request).1.requested_payout_count ≡ length request.payouts
  fewer : length (prepare_run request).0.payouts ≤ length request.payouts

prepare_run-HasCounts :
    (request : RunRequest) → is_empty (read_head request).errors ≡ true → HasCounts request
unfolding prepare_run lines_response planned_run
prepare_run-HasCounts request valid =
    let ctx = run_context (read_head request) in
    record {
      requested = rw (valid, prepare_run) (scan_lines-length ctx 0 [] request.payouts);
      fewer = rw (valid, prepare_run) (planned-at-most ctx 0 [] request.payouts);
    }

invalid_head-unready :
    (request : RunRequest)
    → is_empty (read_head request).errors ≡ false
    → has_ready (record (prepare_run request).1 { dry_run = true }) ≡ false
unfolding prepare_run head_response has_ready
invalid_head-unready request invalid = rw (invalid, prepare_run) refl

-- The counts of a plan: it requests every line of the request, and plans no more.
pub record CountsLines (request : RunRequest) (run : NormalizedRun) (planned : RunResponse)
    : Type 0 where
  pub requested : length request.payouts ≤ planned.requested_payout_count
  pub fewer : length run.payouts ≤ length request.payouts

pub validated-CountsLines :
    {C : Type 0} (node : Node C) (cfg : Config) (request : RunRequest) (c : C)
    → (build_plan node cfg request c).0.1.succeeded ≡ true
    → CountsLines request (build_plan node cfg request c).0.0 (build_plan node cfg request c).0.1
unfolding build_plan
validated-CountsLines node cfg request c h =
    let f = build_plan-IsFunded node cfg request c h in
    elim (Bool-cases (is_empty (read_head request).errors)) [
      | inl valid ↦
          (let counts = prepare_run-HasCounts request valid in
            let run = (prepare_run request).0 in
            let more = plan_run-requested node cfg run (prepare_run request).1 c f in
            record { requested = rw (← counts.requested) more; fewer = counts.fewer })
      | inr invalid ↦
          (let ready = f.ready in
            let unready = invalid_head-unready request invalid in absurd (ground arith))
    ]
