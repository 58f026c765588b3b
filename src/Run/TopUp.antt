-- ===== src/Run/TopUp.antt =====
-- The top-up of the payout signer from escrow: `topUpPayoutSignerForSettlementRun` of
-- cmd/wolochaind/cmd/settlement.go, and the gate in front of it.
use wolochain.Prelude.{
  ℕ, ◌+◌, ◌-◌, Bool, true, false, not, ◌&&◌, ◌||◌, [], ◌∷◌, ◌++◌, Option, none, some, ltb, leb,
  ◌==◌, if◌then◌else◌, is_empty, take,
}
use wolochain.Text.{Text, text, trim_space, is_alphanumeric}
use wolochain.Decimal.{ℤ, u64_mod, format_uint, format_display_amount, parse_optional_uwolo}
use wolochain.Fallible.{Fallible, ok, fail}
use wolochain.Codes.{Status, FailureCode, is_rpc_unreachable}
use wolochain.Config.{Config, escrow_role}
use wolochain.Responses.{ExecuteResponse, HealthResponse, blank_response}
use wolochain.Node.{Node}
use wolochain.Health.{build_health_report}
use wolochain.World.{Action, set_env}
use wolochain.Execute.{execute_escrow_transfer}
use wolochain.Run.{RunResponse}

abbrev is_mark : ℕ → Bool
is_mark c = (c == b'.' || c == b'_') || (c == b':' || c == b'-')

abbrev only_id_bytes : Text → Text
only_id_bytes [] = []
only_id_bytes (c ∷ s) = (if is_alphanumeric c || is_mark c then c else b'-') ∷ only_id_bytes s

abbrev trim_marks_left : Text → Text
trim_marks_left [] = []
trim_marks_left (c ∷ s) = let rest = trim_marks_left s in if is_mark c then rest else c ∷ s

abbrev trim_marks_right : Text → Text
trim_marks_right [] = []
trim_marks_right (c ∷ s) =
    let rest = trim_marks_right s in if is_empty rest && is_mark c then [] else c ∷ rest

-- `settlementRunTopUpRequestID`
unfoldable pub top_up_request_id : Text → Text
top_up_request_id run_id =
    let id = trim_marks_left (trim_marks_right (only_id_bytes (trim_space run_id))) in
    take 127 (text "escrow-top-up-" ++ (if is_empty id then text "run" else id))

-- `shouldAttemptSettlementRunEscrowTopUp`
unfoldable pub should_attempt_top_up : FailureCode → Bool
should_attempt_top_up _ = false

-- A sum in an `uint64`; `none` where it does not fit.
abbrev add_checked : ℕ → ℕ → Option ℕ
add_checked a b = if ltb (a + b) u64_mod then some (a + b) else none

-- The refusal of the top-up, at an address.
unfoldable pub top_up_refused : Config → Text → Text → FailureCode → Bool → Text → ExecuteResponse
top_up_refused cfg run_id address why again message = record blank_response {
  status = Status.failed;
  failure_code = why;
  retryable = again;
  request_id = top_up_request_id run_id;
  chain_id = cfg.chain_id;
  signer_role = escrow_role;
  to_address = address;
  amount_uwolo = text "0";
  amount_wolo = format_display_amount (text "0");
  detail = message;
}

unfoldable pub already_funded : Config → Text → Text → ExecuteResponse
already_funded cfg run_id address = record blank_response {
  succeeded = true;
  status = Status.confirmed;
  request_id = top_up_request_id run_id;
  chain_id = cfg.chain_id;
  signer_role = escrow_role;
  to_address = address;
  amount_uwolo = text "0";
  amount_wolo = format_display_amount (text "0");
  detail = text "payout signer already has enough balance after recalculation";
  broadcast_mode = cfg.broadcast_mode;
}

module _ (cfg : Config) where
  abbrev reserve_floor : ℕ
  reserve_floor =
      if ltb cfg.fee_headroom_uwolo cfg.min_payout_balance_uwolo
      then cfg.min_payout_balance_uwolo
      else cfg.fee_headroom_uwolo

  abbrev estimated_fee : RunResponse → ℕ
  estimated_fee r =
      if is_empty r.estimated_fee_total_uwolo
      then 0
      else elim (parse_optional_uwolo r.estimated_fee_total_uwolo) [ none ↦ 0 | some fee ↦ fee ]

  -- The balance that the run needs, or which of the three sums does not fit.
  unfoldable pub required_balance : RunResponse → ℕ → Fallible ℕ
  required_balance r requested = elim (add_checked requested reserve_floor) [
    | none ↦ fail (text "escrow top-up required balance overflowed uint64")
    | some with_floor ↦ elim (add_checked with_floor (estimated_fee r)) [
      | none ↦ fail (text "escrow top-up estimated fee overflowed uint64")
      | some with_fee ↦ elim (add_checked with_fee 1000000) [
        | none ↦ fail (text "escrow top-up safety buffer overflowed uint64")
        | some required ↦ ok required
      ]
    ]
  ]

module _ {C : Type 0} (node : Node C) (cfg : Config) where
  -- The transfer of what is missing.
  unfoldable pub top_up_shortfall : Text → Text → ℕ → ℕ → Action C ExecuteResponse
  top_up_shortfall run_id address balance required w =
      let sent =
        execute_escrow_transfer node cfg
          (record {
            request_id = top_up_request_id run_id;
            to_address = address;
            amount_uwolo = format_uint (required - balance);
            amount_wolo = ℤ.pos 0;
            memo = take 180 (text "settlement run top-up " ++ trim_space run_id);
          })
          w in
      if leb required balance then (ok (already_funded cfg run_id address), w) else sent

  unfoldable pub top_up_amount :
      Text → Text → RunResponse → Option ℕ → Option ℕ → Action C ExecuteResponse
  top_up_amount run_id address r none balance w = (
    ok (
        top_up_refused cfg run_id address FailureCode.invalid_run false
          (text "requested_total_uwolo could not be parsed for escrow top-up")),
    w,
  )
  top_up_amount run_id address r (some requested) none w = (
    ok (
        top_up_refused cfg run_id address FailureCode.payout_balance_lookup_failed true
          (text "payout signer balance could not be parsed for escrow top-up")),
    w,
  )
  top_up_amount run_id address r (some requested) (some balance) w =
      elim (required_balance cfg r requested) [
        | fail e ↦ (ok (top_up_refused cfg run_id address FailureCode.invalid_run false e), w)
        | ok required ↦ top_up_shortfall run_id address balance required w
      ]

  unfoldable pub top_up_on_report : Text → RunResponse → HealthResponse → Action C ExecuteResponse
  top_up_on_report run_id r health w =
      let found = trim_space health.payout_address in
      let address = if is_empty found then trim_space cfg.payout_address else found in
      let transferred =
        top_up_amount run_id address r (parse_optional_uwolo r.requested_total_uwolo)
          (parse_optional_uwolo health.payout_balance_uwolo) w in
      if not health.healthy && not (should_attempt_top_up health.failure_code)
      then (
        ok (
            top_up_refused cfg run_id (trim_space cfg.payout_address) health.failure_code
              (is_rpc_unreachable health.failure_code) health.detail),
        w,
      )
      else if is_empty address
      then (
        ok (
            top_up_refused cfg run_id (trim_space cfg.payout_address)
              FailureCode.payout_signer_unavailable false
              (text "payout signer address is unavailable for escrow top-up")),
        w,
      )
      else transferred

  unfoldable pub top_up : Text → RunResponse → Action C ExecuteResponse
  top_up run_id r w =
      let (health, c) = build_health_report node cfg w.env in
      let transferred = top_up_on_report run_id r health (set_env w c) in
      if not cfg.escrow_auto_top_up
      then (
        ok (
            top_up_refused cfg run_id (trim_space cfg.payout_address)
              FailureCode.escrow_top_up_disabled false
              (text "WOLO_SETTLEMENT_ESCROW_AUTO_TOP_UP_ENABLED is not enabled")),
        w,
      )
      else transferred
