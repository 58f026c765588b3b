-- ===== src/Codes.antt =====
-- The words that the settlement code writes into its responses, one constructor for each literal:
-- statuses, outcomes and failure codes (cmd/wolochaind/cmd/settlement.go and
-- settlement_challenge.go). The code never makes another one, and `strings.TrimSpace` and
-- `strings.EqualFold` change nothing on them.
use wolochain.Prelude.{Bool, true, false}

-- `no_status` is the empty text.
pub data Status : Type 0 where
  no_status failed validated confirmed accepted partial : Status

-- `no_outcome` is the empty text, and `other` a status that `deriveSettlementOutcome` hands on.
pub data Outcome : Type 0 where
  no_outcome ready invalid refused rejected idempotent_replay : Outcome
  confirmed accepted unknown : Outcome
  other : Status → Outcome

-- `no_failure` is the empty text.
pub data FailureCode : Type 0 where
  no_failure : FailureCode
  invalid_request idempotency_conflict state_file_invalid request_in_progress : FailureCode
  rpc_unreachable chain_id_mismatch rest_drift : FailureCode
  payout_signer_unconfigured payout_signer_unavailable payout_address_mismatch : FailureCode
  payout_balance_lookup_failed payout_balance_too_low : FailureCode
  payout_fee_headroom_too_low payout_reserve_floor_hit : FailureCode
  escrow_signer_unconfigured escrow_signer_unavailable escrow_address_mismatch : FailureCode
  escrow_balance_lookup_failed escrow_balance_too_low : FailureCode
  escrow_fee_headroom_too_low escrow_reserve_floor_hit invalid_escrow_address : FailureCode
  escrow_signer_required escrow_top_up_disabled : FailureCode
  insufficient_funds sequence_mismatch broadcast_failed out_of_gas tx_rejected : FailureCode
  invalid_tx_hash lookup_failed tx_not_found : FailureCode
  invalid_run run_in_progress invalid_payout duplicate_request_id : FailureCode
  run_partial_failure run_failed : FailureCode
  invalid_challenge invalid_transfer invalid_transfer_participant : FailureCode
  invalid_treasury_route challenge_in_progress challenge_partial_failure : FailureCode
  challenge_failed escrow_unconfigured not_escrow_deposit : FailureCode
  challenge_funding_mismatch invalid_challenge_funding_memo : FailureCode
  payout_top_up_required escrow_top_up_unconfigured escrow_top_up_unavailable : FailureCode
  escrow_top_up_failed escrow_top_up_pending_confirmation : FailureCode

abbrev pub is_failed : Status → Bool
is_failed Status.failed = true
is_failed _ = false

abbrev pub is_confirmed : Status → Bool
is_confirmed Status.confirmed = true
is_confirmed _ = false

abbrev pub is_accepted : Status → Bool
is_accepted Status.accepted = true
is_accepted _ = false

abbrev pub is_partial : Status → Bool
is_partial Status.partial = true
is_partial _ = false

abbrev pub is_no_status : Status → Bool
is_no_status Status.no_status = true
is_no_status _ = false

abbrev pub is_ready : Outcome → Bool
is_ready Outcome.ready = true
is_ready _ = false

abbrev pub is_refusal : Outcome → Bool
is_refusal Outcome.refused = true
is_refusal Outcome.invalid = true
is_refusal _ = false

abbrev pub is_rejected : Outcome → Bool
is_rejected Outcome.rejected = true
is_rejected _ = false

abbrev pub is_no_failure : FailureCode → Bool
is_no_failure FailureCode.no_failure = true
is_no_failure _ = false

abbrev pub is_rpc_unreachable : FailureCode → Bool
is_rpc_unreachable FailureCode.rpc_unreachable = true
is_rpc_unreachable _ = false

abbrev pub is_invalid_run : FailureCode → Bool
is_invalid_run FailureCode.invalid_run = true
is_invalid_run _ = false

abbrev pub is_tx_not_found : FailureCode → Bool
is_tx_not_found FailureCode.tx_not_found = true
is_tx_not_found _ = false

abbrev pub is_invalid_request : FailureCode → Bool
is_invalid_request FailureCode.invalid_request = true
is_invalid_request _ = false

abbrev pub is_invalid : Outcome → Bool
is_invalid Outcome.invalid = true
is_invalid _ = false

abbrev pub is_invalid_challenge : FailureCode → Bool
is_invalid_challenge FailureCode.invalid_challenge = true
is_invalid_challenge _ = false

-- `strings.HasSuffix(code, "_LOOKUP_FAILED") || strings.HasSuffix(code, "_TOO_LOW")`
abbrev pub is_balance_failure : FailureCode → Bool
is_balance_failure FailureCode.payout_balance_lookup_failed = true
is_balance_failure FailureCode.escrow_balance_lookup_failed = true
is_balance_failure FailureCode.payout_balance_too_low = true
is_balance_failure FailureCode.payout_fee_headroom_too_low = true
is_balance_failure FailureCode.escrow_balance_too_low = true
is_balance_failure FailureCode.escrow_fee_headroom_too_low = true
is_balance_failure _ = false
