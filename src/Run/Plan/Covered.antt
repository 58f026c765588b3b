-- ===== src/Run/Plan/Covered.antt =====
-- About the balance that a plan has read, and the total that it requests.
use wolochain.Prelude.{
  ℕ, ◌+◌, ◌≤◌, ◌≡◌, refl, sym, ap, ◌∙◌, true, false, none, some, arith, is_empty, Option-cases,
  Bool-cases, inl, inr, length,
}
use wolochain.Text.{text_eq}
use wolochain.Decimal.{parse_optional_uwolo, format_uint}
use wolochain.Codes.{Status, is_no_status}
use wolochain.Config.{Config, escrow_role}
use wolochain.Responses.{HealthResponse}
use wolochain.Node.{Node}
use wolochain.Health.{build_health_report}
use wolochain.Execute.{Verdict, preflight_escrow_signer}
use wolochain.Execute.Preflight.{
  IsCovered, payout_floor, escrow_floor, preflight_escrow_signer-IsCovered,
}
use wolochain.Run.{RunRequest, NormalizedRun, RunResponse}
use wolochain.Run.Prepare.{prepare_run, lines_response}
use wolochain.Run.Finalize.{has_ready}
use wolochain.Run.Finalize.Verdict.{finalize-decided}
use wolochain.Run.Plan.{
  requires_escrow_signer, with_fee_estimate, payout_head, payout_on_remaining, payout_on_balance,
  payout_on_report, escrow_head, escrow_on_verdict, payout_plan, escrow_plan, plan_total, plan_run,
  build_plan,
}
use wolochain.Run.Head.{head_response, read_head}

-- A plan that has its status, and succeeds only if a condition holds.
record Decides (P : Type 0) (r : RunResponse) : Type 0 where
  decided : is_no_status r.status ≡ false
  needs : r.succeeded ≡ true → P

-- The health report covers a total.
pub record PaysFor (cfg : Config) (health : HealthResponse) (total : ℕ) : Type 0 where
  pub healthy : health.healthy ≡ true
  pub keyed : is_empty cfg.payout_key_name ≡ false
  pub balance : ℕ
  pub parses : parse_optional_uwolo health.payout_balance_uwolo ≡ some balance
  pub covered : total + payout_floor cfg ≤ balance

module _ (cfg : Config) where
  payout_on_balance-Decides :
      (total balance : ℕ) (r : RunResponse)
      → Decides (total + payout_floor cfg ≤ balance) (payout_on_balance cfg total balance r)
  unfolding payout_on_balance payout_on_remaining
  payout_on_balance-Decides total balance r = record {
    decided = ground arith;
    needs = λ h. ground arith;
  }

  -- `P` is what the plan needs, so that a rewrite in the plan leaves it alone.
  payout_on_report-needs :
      (total : ℕ) (health : HealthResponse) (r : RunResponse) (P : Type 0)
      → (health.healthy ≡ true
          → is_empty cfg.payout_key_name ≡ false
          → (balance : ℕ) → parse_optional_uwolo r.signer_balance_before_uwolo ≡ some balance
          → total + payout_floor cfg ≤ balance
          → P)
      → Decides P (payout_on_report cfg total health r)
  unfolding payout_on_report
  payout_on_report-needs total health r P paid = elim (Bool-cases health.healthy) [
    | inr ill ↦
        rw (ill, payout_on_report) (record { decided = refl; needs = λ h. absurd (ground arith) })
    | inl well ↦ elim (Bool-cases (is_empty cfg.payout_key_name)) [
      | inl unkeyed ↦
          rw (well, unkeyed, payout_on_report)
            (record { decided = refl; needs = λ h. absurd (ground arith) })
      | inr keyed ↦ elim (Bool-cases (is_empty r.signer_address)) [
        | inl unresolved ↦
            rw (well, keyed, unresolved, payout_on_report)
              (record { decided = refl; needs = λ h. absurd (ground arith) })
        | inr resolved ↦ elim (Option-cases (parse_optional_uwolo r.signer_balance_before_uwolo)) [
          | inl unread ↦
              rw (well, keyed, resolved, unread, payout_on_report)
                (record { decided = refl; needs = λ h. absurd (ground arith) })
          | inr (balance, p) ↦
              rw (well, keyed, resolved, p, payout_on_report)
                (let d = payout_on_balance-Decides total balance r in
                  record {
                    decided = d.decided;
                    needs = λ h. paid well keyed balance p (d.needs h);
                  })
        ]
      ]
    ]
  ]

  payout_on_report-Decides :
      (total : ℕ) (health : HealthResponse) (r : RunResponse)
      → Decides
          (PaysFor cfg health total)
          (payout_on_report cfg total health (payout_head cfg health r))
  payout_on_report-Decides total health r =
      payout_on_report-needs total health (payout_head cfg health r) _ (λ well keyed balance p c.
        record { healthy = well; keyed = keyed; balance = balance; parses = p; covered = c })

  escrow_on_verdict-Decides :
      (total : ℕ) (v : Verdict) (r : RunResponse)
      → Decides (v.failure ≡ none) (escrow_on_verdict cfg total v r)
  unfolding escrow_on_verdict
  escrow_on_verdict-Decides total v r = elim (Option-cases v.failure) [
    | inl passed ↦ rw (passed, escrow_on_verdict) (record { decided = refl; needs = λ h. refl })
    | inr (f, e) ↦
        rw (e, escrow_on_verdict) (record { decided = refl; needs = λ h. absurd (ground arith) })
  ]

module _ {C : Type 0} (node : Node C) (cfg : Config) where
  -- What covers the total of a run with the signer that it names.
  pub data Funded (run : NormalizedRun) (total : ℕ) (c : C) : Type 0 where
    by_payout :
        text_eq run.signer_role escrow_role ≡ false
        → PaysFor cfg (build_health_report node cfg c).0 total
        → Funded run total c
    by_escrow :
        text_eq run.signer_role escrow_role ≡ true
        → IsCovered
            (escrow_floor cfg)
            (format_uint total)
            (preflight_escrow_signer node cfg (format_uint total) c).0.balance
        → Funded run total c

  plan_total-Decides :
      (run : NormalizedRun) (total : ℕ) (r : RunResponse) (c : C)
      → Decides (Funded run total c) (plan_total node cfg run (some total) r c).0
  unfolding plan_total payout_plan escrow_plan
  plan_total-Decides run total r c = elim (Bool-cases (text_eq run.signer_role escrow_role)) [
    | inl named ↦
        rw (named, plan_total, escrow_plan)
          (let v = (preflight_escrow_signer node cfg (format_uint total) c).0 in
            let d = escrow_on_verdict-Decides cfg total v (escrow_head cfg v r) in
            record {
              decided = d.decided;
              needs = λ h.
                  by_escrow named
                    (preflight_escrow_signer-IsCovered node cfg (format_uint total) c (d.needs h));
            })
    | inr other ↦
        rw (other, plan_total, payout_plan)
          (let health = (build_health_report node cfg c).0 in
            let d = payout_on_report-Decides cfg total health r in
            record { decided = d.decided; needs = λ h. by_payout other (d.needs h) })
  ]

  pub with_fee_estimate-total :
      (count : ℕ) (r : RunResponse)
      → (with_fee_estimate cfg count r).requested_total_uwolo ≡ r.requested_total_uwolo
  unfolding with_fee_estimate
  with_fee_estimate-total count r = ground arith

  never : (true ≡ false) → ⊥
  never e = absurd (ground arith)

  -- What a plan that succeeds has seen to.
  pub record IsFunded (run : NormalizedRun) (prepared : RunResponse) (c : C) : Type 0 where
    pub ready : has_ready (record prepared { dry_run = true }) ≡ true
    pub allowed : requires_escrow_signer run ≡ false
    pub total : ℕ
    pub parses : parse_optional_uwolo prepared.requested_total_uwolo ≡ some total
    pub funded : Funded run total c

  plan_run-IsFunded :
      (run : NormalizedRun) (prepared : RunResponse) (c : C)
      → prepared.status ≡ Status.failed
      → prepared.succeeded ≡ false
      → (plan_run node cfg run prepared c).0.succeeded ≡ true
      → IsFunded run prepared c
  unfolding plan_run plan_total
  plan_run-IsFunded run prepared c failing unready h =
      let r : RunResponse = record prepared { dry_run = true } in
      elim (Bool-cases (has_ready r)) [
        | inr none_ready ↦ absurd (
            never (
              sym (rw (none_ready, plan_run) at h)
              ∙ (finalize-decided r (ap is_no_status failing) ∙ unready)))
        | inl ready ↦ elim (Bool-cases (requires_escrow_signer run)) [
          | inl required ↦
              absurd (never (sym (rw (ready, required, plan_run) at h) ∙ finalize-decided _ refl))
          | inr allowed ↦
              let estimated = with_fee_estimate cfg (length run.payouts) r in
              let same = with_fee_estimate-total (length run.payouts) r in
              elim (Option-cases (parse_optional_uwolo estimated.requested_total_uwolo)) [
                | inl unread ↦ absurd (
                    never (
                      sym (rw (ready, allowed, unread, plan_run, plan_total) at h)
                      ∙ finalize-decided _ refl))
                | inr (total, p) ↦
                    let d = plan_total-Decides run total estimated c in
                    record {
                      ready = ready;
                      allowed = allowed;
                      total = total;
                      parses = sym (ap parse_optional_uwolo same) ∙ p;
                      funded = d.needs (
                          sym (finalize-decided _ d.decided)
                          ∙ (rw (ready, allowed, p, plan_run) at h));
                    }
              ]
        ]
      ]

prepare_run-failed :
    (request : RunRequest)
    → ((prepare_run request).1.status ≡ Status.failed) × ((prepare_run request).1.succeeded ≡ false)
unfolding prepare_run head_response lines_response
prepare_run-failed request = elim (Bool-cases (is_empty (read_head request).errors)) [
  | inl valid ↦ rw (valid, prepare_run) (refl, refl)
  | inr invalid ↦ rw (invalid, prepare_run) (refl, refl)
]

-- A run is validated only if it is funded. If the plan of a run request succeeds, the run has a
-- payout that is ready, it is not a bet-market run that wants the escrow signer and names another,
-- its requested total is a number, and the balance that the plan has read covers that total and
-- the larger of the fee headroom and the reserve floor of the signer: for the payout signer the
-- balance of a good health report with the signer's key configured, else that of the escrow
-- preflight.
pub build_plan-IsFunded :
    {C : Type 0} (node : Node C) (cfg : Config) (request : RunRequest) (c : C)
    → (build_plan node cfg request c).0.1.succeeded ≡ true
    → IsFunded node cfg (prepare_run request).0 (prepare_run request).1 c
unfolding build_plan
build_plan-IsFunded node cfg request c h =
    let (failing, unready) = prepare_run-failed request in
    plan_run-IsFunded node cfg (prepare_run request).0 (prepare_run request).1 c failing unready h
