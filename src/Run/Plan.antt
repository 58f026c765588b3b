-- ===== src/Run/Plan.antt =====
-- The plan of a run: `buildSettlementRunPlan` of cmd/wolochaind/cmd/settlement.go, with the payout
-- signer and with the escrow signer, and `validateSettlementRun`.
pub mod Covered
pub mod Counts
use wolochain.Prelude.{
  ℕ, ◌-◌, ◌*◌, ◌%◌, Bool, true, false, not, ◌&&◌, ◌||◌, [], ◌∷◌, ◌++◌, Option, none, some, ltb,
  ◌==◌, if◌then◌else◌, is_empty, length,
}
use wolochain.Text.{Text, text, text_eq, trim_space, to_lower, has_prefix}
use wolochain.Decimal.{
  u64_mod, format_uint, format_display_amount, parse_optional_uwolo, format_optional_uwolo,
  format_optional_display_amount,
}
use wolochain.Fallible.{Fallible, ok, fail}
use wolochain.Codes.{Status, FailureCode, is_rpc_unreachable}
use wolochain.Config.{Config, payout_role, escrow_role}
use wolochain.Capacity.{escrow_failure_has_balance}
use wolochain.Responses.{ExecuteResponse, HealthResponse}
use wolochain.Transfers.{parse_base_denom_fee}
use wolochain.Node.{Node}
use wolochain.Probe.{quoted}
use wolochain.Health.{build_health_report}
use wolochain.Execute.{Verdict, preflight_escrow_signer}
use wolochain.Run.{RunRequest, NormalizedRun, RunResponse}
use wolochain.Run.Prepare.{prepare_run}
use wolochain.Run.Finalize.{finalize, has_ready, mark_ready_refused, mark_ready_signer}

-- `requiresEscrowSignerForSettlementRun`
unfoldable pub requires_escrow_signer : NormalizedRun → Bool
requires_escrow_signer run =
    let source_app = to_lower (trim_space run.source_app) in
    let event = to_lower (trim_space run.source_event_id) in
    let run_id = to_lower (trim_space run.settlement_run_id) in
    (text_eq source_app (text "aoe2hdbets")
      && (has_prefix event (text "bet-market-") || has_prefix run_id (text "aoe2-bet-market-")))
    && not (text_eq run.signer_role escrow_role)

-- A run that is refused as a whole, its ready payouts with it.
abbrev pub refuse_run : FailureCode → Bool → Text → RunResponse → RunResponse
refuse_run why again message r = record r {
  succeeded = false;
  status = Status.failed;
  failure_code = why;
  retryable = again;
  detail = message;
  payouts = mark_ready_refused why message again r.payouts;
}

abbrev pub approve_run : Text → RunResponse → RunResponse
approve_run message r = record r { succeeded = true; status = Status.validated; detail = message }

-- `%s uwolo (%s wolo)`
abbrev show_pair : Text → Text → Text
show_pair uwolo wolo = uwolo ++ (text " uwolo (" ++ (wolo ++ text " wolo)"))

-- The warning that the fees may not fit.
abbrev fee_warning : Text → ℕ → RunResponse → RunResponse
fee_warning which remaining r =
    let warned : RunResponse = record r {
      warnings =
          r.warnings
          ++ (which
              ++ (r.projected_remaining_uwolo
                  ++ (text " uwolo is below estimated configured fees "
                      ++ (r.estimated_fee_total_uwolo
                          ++ text " uwolo; fixed-fee runs may still fail during execution"))))
            ∷ [];
    } in
    if is_empty r.estimated_fee_total_uwolo
    then r
    else elim (parse_optional_uwolo r.estimated_fee_total_uwolo) [
      | none ↦ r
      | some fee ↦ if ltb remaining fee then warned else r
    ]

abbrev with_remaining : ℕ → RunResponse → RunResponse
with_remaining remaining r = record r {
  projected_remaining_uwolo = format_uint remaining;
  projected_remaining_wolo = format_display_amount (format_uint remaining);
}

module _ (cfg : Config) where
  -- The estimate, and the warning where there is none.
  unfoldable pub estimate_fee : ℕ → Text × Text
  estimate_fee count =
      if count == 0
      then ([], [])
      else if is_empty (trim_space cfg.fees)
      then (
        [],
        text
              "fee estimate unavailable for grouped runs unless WOLO_SETTLEMENT_FEES is set explicitly in "
            ++ cfg.base_denom,
      )
      else elim (parse_base_denom_fee cfg.fees cfg.base_denom) [
        | fail e ↦ ([], text "fee estimate unavailable: " ++ e)
        | ok fee ↦
            if fee == 0
            then (
              [],
              text "fee estimate unavailable: WOLO_SETTLEMENT_FEES does not include "
                  ++ cfg.base_denom,
            )
            else (format_uint ((fee * count) % u64_mod), [])
      ]

  unfoldable pub with_fee_estimate : ℕ → RunResponse → RunResponse
  with_fee_estimate count r =
      let (fee, warning) = estimate_fee count in
      if not (is_empty fee)
      then record r {
        estimated_fee_total_uwolo = fee;
        estimated_fee_total_wolo = format_display_amount fee;
      }
      else if not (is_empty warning)
      then record r { warnings = r.warnings ++ warning ∷ [] }
      else r

  abbrev payout_head : HealthResponse → RunResponse → RunResponse
  payout_head health r = record r {
    signer_role = payout_role;
    signer_address = health.payout_address;
    payout_balance_before_uwolo = health.payout_balance_uwolo;
    payout_balance_before_wolo = health.payout_balance_wolo;
    signer_balance_before_uwolo = health.payout_balance_uwolo;
    signer_balance_before_wolo = health.payout_balance_wolo;
    min_payout_balance_uwolo = format_optional_uwolo cfg.min_payout_balance_uwolo;
    min_payout_balance_wolo = format_optional_display_amount cfg.min_payout_balance_uwolo;
    fee_headroom_uwolo = format_optional_uwolo cfg.fee_headroom_uwolo;
    fee_headroom_wolo = format_optional_display_amount cfg.fee_headroom_uwolo;
    payouts = mark_ready_signer payout_role health.payout_address r.payouts;
  }

  -- `buildPayoutSettlementRunPlan` once the balance is known.
  unfoldable pub payout_on_remaining : ℕ → RunResponse → RunResponse
  payout_on_remaining remaining r =
      if ltb 0 cfg.fee_headroom_uwolo && ltb remaining cfg.fee_headroom_uwolo
      then refuse_run FailureCode.payout_fee_headroom_too_low true
          (text "run would leave "
            ++ (show_pair r.projected_remaining_uwolo r.projected_remaining_wolo
                ++ (text ", below configured fee headroom "
                    ++ show_pair r.fee_headroom_uwolo r.fee_headroom_wolo)))
          r
      else if ltb 0 cfg.min_payout_balance_uwolo && ltb remaining cfg.min_payout_balance_uwolo
      then refuse_run FailureCode.payout_reserve_floor_hit true
          (text "run would leave "
            ++ (show_pair r.projected_remaining_uwolo r.projected_remaining_wolo
                ++ (text ", below configured reserve floor "
                    ++ show_pair r.min_payout_balance_uwolo r.min_payout_balance_wolo)))
          r
      else approve_run (text "settlement run validated")
          (fee_warning (text "projected remaining balance ") remaining r)

  unfoldable pub payout_on_balance : ℕ → ℕ → RunResponse → RunResponse
  payout_on_balance total balance r =
      if ltb balance total
      then refuse_run FailureCode.payout_balance_too_low true
          (text "run requests "
            ++ (show_pair r.requested_total_uwolo r.requested_total_wolo
                ++ (text " but payout signer balance is "
                    ++ show_pair r.signer_balance_before_uwolo r.signer_balance_before_wolo)))
          r
      else payout_on_remaining (balance - total) (with_remaining (balance - total) r)

  unfoldable pub payout_on_report : ℕ → HealthResponse → RunResponse → RunResponse
  payout_on_report total health r =
      if not health.healthy
      then refuse_run health.failure_code (is_rpc_unreachable health.failure_code) health.detail r
      else if is_empty cfg.payout_key_name
      then refuse_run FailureCode.payout_signer_unconfigured false
          (text "WOLO_SETTLEMENT_PAYOUT_KEY_NAME is required for payout-signed settlement runs") r
      else if is_empty r.signer_address
      then refuse_run FailureCode.payout_signer_unavailable false
          (text "payout signer key "
            ++ (quoted cfg.payout_key_name
                ++ text
                    " could not be resolved; check WOLO_SETTLEMENT_PAYOUT_KEY_NAME, WOLO_SETTLEMENT_HOME, and WOLO_SETTLEMENT_KEYRING_BACKEND"))
          r
      else elim (parse_optional_uwolo r.signer_balance_before_uwolo) [
        | none ↦
            refuse_run FailureCode.payout_balance_lookup_failed true
              (text "payout signer balance could not be parsed") r
        | some balance ↦ payout_on_balance total balance r
      ]

  -- `buildEscrowSettlementRunPlan` on the verdict of the escrow signer's preflight.
  abbrev failure_address : Option ExecuteResponse → Text
  failure_address none = []
  failure_address (some f) = f.signer_address

  abbrev shows_balance : Option ExecuteResponse → Bool
  shows_balance none = true
  shows_balance (some f) = escrow_failure_has_balance f.failure_code

  abbrev escrow_head : Verdict → RunResponse → RunResponse
  escrow_head v r =
      let address = if is_empty v.address then failure_address v.failure else v.address in
      let shown = not (is_empty v.address) && shows_balance v.failure in
      record r {
        signer_role = escrow_role;
        min_escrow_balance_uwolo = format_optional_uwolo cfg.min_escrow_balance_uwolo;
        min_escrow_balance_wolo = format_optional_display_amount cfg.min_escrow_balance_uwolo;
        escrow_fee_headroom_uwolo = format_optional_uwolo cfg.escrow_fee_headroom_uwolo;
        escrow_fee_headroom_wolo = format_optional_display_amount cfg.escrow_fee_headroom_uwolo;
        signer_address = address;
        signer_balance_before_uwolo =
            if shown then format_uint v.balance else r.signer_balance_before_uwolo;
        signer_balance_before_wolo =
            if shown
            then format_display_amount (format_uint v.balance)
            else r.signer_balance_before_wolo;
        payouts = mark_ready_signer escrow_role address r.payouts;
      }

  unfoldable pub escrow_on_verdict : ℕ → Verdict → RunResponse → RunResponse
  escrow_on_verdict total v r = elim v.failure [
    | some f ↦ refuse_run f.failure_code f.retryable f.detail r
    | none ↦
        (let remaining = v.balance - total in
          approve_run (text "settlement run validated from escrow signer")
            (fee_warning (text "projected escrow balance ") remaining (with_remaining remaining r)))
  ]

module _ {C : Type 0} (node : Node C) (cfg : Config) where
  unfoldable pub payout_plan : ℕ → RunResponse → C → RunResponse × C
  payout_plan total r c =
      let (health, c') = build_health_report node cfg c in
      (payout_on_report cfg total health (payout_head cfg health r), c')

  unfoldable pub escrow_plan : ℕ → RunResponse → C → RunResponse × C
  escrow_plan total r c =
      let (v, c') = preflight_escrow_signer node cfg (format_uint total) c in
      (escrow_on_verdict cfg total v (escrow_head cfg v r), c')

  -- The plan of the run's total, by the signer that it names.
  unfoldable pub plan_total : NormalizedRun → Option ℕ → RunResponse → C → RunResponse × C
  plan_total run none r c =
      let message = text "requested_total_uwolo could not be parsed" in
      (record (refuse_run FailureCode.invalid_run false message r) { retryable = r.retryable }, c)
  plan_total run (some total) r c =
      if text_eq run.signer_role escrow_role then escrow_plan total r c else payout_plan total r c

  -- `buildSettlementRunPlan` behind `prepareSettlementRunRequest`
  unfoldable pub plan_run : NormalizedRun → RunResponse → C → RunResponse × C
  plan_run run prepared c =
      let r = record prepared { dry_run = true } in
      let estimated = with_fee_estimate cfg (length run.payouts) r in
      let (planned, c') =
        plan_total run (parse_optional_uwolo estimated.requested_total_uwolo) estimated c in
      if not (has_ready r)
      then (finalize r, c)
      else if requires_escrow_signer run
      then (
        finalize (
            refuse_run FailureCode.escrow_signer_required false
              (text
                "AoE2HDBets escrow-backed bet-market settlement runs must use signer_role=escrow; payout signer reserves cannot fund market obligations")
              r),
        c,
      )
      else (finalize planned, c')

  unfoldable pub build_plan : RunRequest → C → (NormalizedRun × RunResponse) × C
  build_plan request c =
      let (run, prepared) = prepare_run request in
      let (r, c') = plan_run run prepared c in ((run, r), c')

  -- `validateSettlementRun`
  unfoldable pub validate_run : RunRequest → C → RunResponse × C
  validate_run request c =
      let ((run, r), c') = build_plan request c in (record r { dry_run = true }, c')
