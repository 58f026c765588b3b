-- ===== src/Challenge/Audit/Mismatch.antt =====
-- What a lookup says against a stored transfer: `auditLookupMismatch` of
-- cmd/wolochaind/cmd/settlement_challenge_audit.go, with the texts of the failure codes.
use wolochain.Prelude.{Bool, not, ◌&&◌, ◌||◌, [], ◌++◌, if◌then◌else◌, is_empty}
use wolochain.Text.{Text, text, text_eq, trim_space}
use wolochain.Decimal.{format_uint}
use wolochain.Codes.{Status, FailureCode, is_failed, is_confirmed, is_accepted}
use wolochain.Probe.{quoted}
use wolochain.Responses.{LookupResponse}
use wolochain.Challenge.Audit.{first_filled, status_text}

abbrev pub failure_text : FailureCode → Text
failure_text FailureCode.no_failure = []
failure_text FailureCode.invalid_request = text "INVALID_REQUEST"
failure_text FailureCode.idempotency_conflict = text "IDEMPOTENCY_CONFLICT"
failure_text FailureCode.state_file_invalid = text "STATE_FILE_INVALID"
failure_text FailureCode.request_in_progress = text "REQUEST_IN_PROGRESS"
failure_text FailureCode.rpc_unreachable = text "RPC_UNREACHABLE"
failure_text FailureCode.chain_id_mismatch = text "CHAIN_ID_MISMATCH"
failure_text FailureCode.rest_drift = text "REST_DRIFT"
failure_text FailureCode.payout_signer_unconfigured = text "PAYOUT_SIGNER_UNCONFIGURED"
failure_text FailureCode.payout_signer_unavailable = text "PAYOUT_SIGNER_UNAVAILABLE"
failure_text FailureCode.payout_address_mismatch = text "PAYOUT_ADDRESS_MISMATCH"
failure_text FailureCode.payout_balance_lookup_failed = text "PAYOUT_BALANCE_LOOKUP_FAILED"
failure_text FailureCode.payout_balance_too_low = text "PAYOUT_BALANCE_TOO_LOW"
failure_text FailureCode.payout_fee_headroom_too_low = text "PAYOUT_FEE_HEADROOM_TOO_LOW"
failure_text FailureCode.payout_reserve_floor_hit = text "PAYOUT_RESERVE_FLOOR_HIT"
failure_text FailureCode.escrow_signer_unconfigured = text "ESCROW_SIGNER_UNCONFIGURED"
failure_text FailureCode.escrow_signer_unavailable = text "ESCROW_SIGNER_UNAVAILABLE"
failure_text FailureCode.escrow_address_mismatch = text "ESCROW_ADDRESS_MISMATCH"
failure_text FailureCode.escrow_balance_lookup_failed = text "ESCROW_BALANCE_LOOKUP_FAILED"
failure_text FailureCode.escrow_balance_too_low = text "ESCROW_BALANCE_TOO_LOW"
failure_text FailureCode.escrow_fee_headroom_too_low = text "ESCROW_FEE_HEADROOM_TOO_LOW"
failure_text FailureCode.escrow_reserve_floor_hit = text "ESCROW_RESERVE_FLOOR_HIT"
failure_text FailureCode.invalid_escrow_address = text "INVALID_ESCROW_ADDRESS"
failure_text FailureCode.escrow_signer_required = text "ESCROW_SIGNER_REQUIRED"
failure_text FailureCode.escrow_top_up_disabled = text "ESCROW_TOP_UP_DISABLED"
failure_text FailureCode.insufficient_funds = text "INSUFFICIENT_FUNDS"
failure_text FailureCode.sequence_mismatch = text "SEQUENCE_MISMATCH"
failure_text FailureCode.broadcast_failed = text "BROADCAST_FAILED"
failure_text FailureCode.out_of_gas = text "OUT_OF_GAS"
failure_text FailureCode.tx_rejected = text "TX_REJECTED"
failure_text FailureCode.invalid_tx_hash = text "INVALID_TX_HASH"
failure_text FailureCode.lookup_failed = text "LOOKUP_FAILED"
failure_text FailureCode.tx_not_found = text "TX_NOT_FOUND"
failure_text FailureCode.invalid_run = text "INVALID_RUN"
failure_text FailureCode.run_in_progress = text "RUN_IN_PROGRESS"
failure_text FailureCode.invalid_payout = text "INVALID_PAYOUT"
failure_text FailureCode.duplicate_request_id = text "DUPLICATE_REQUEST_ID"
failure_text FailureCode.run_partial_failure = text "RUN_PARTIAL_FAILURE"
failure_text FailureCode.run_failed = text "RUN_FAILED"
failure_text FailureCode.invalid_challenge = text "INVALID_CHALLENGE"
failure_text FailureCode.invalid_transfer = text "INVALID_TRANSFER"
failure_text FailureCode.invalid_transfer_participant = text "INVALID_TRANSFER_PARTICIPANT"
failure_text FailureCode.invalid_treasury_route = text "INVALID_TREASURY_ROUTE"
failure_text FailureCode.challenge_in_progress = text "CHALLENGE_IN_PROGRESS"
failure_text FailureCode.challenge_partial_failure = text "CHALLENGE_PARTIAL_FAILURE"
failure_text FailureCode.challenge_failed = text "CHALLENGE_FAILED"
failure_text FailureCode.escrow_unconfigured = text "ESCROW_UNCONFIGURED"
failure_text FailureCode.not_escrow_deposit = text "NOT_ESCROW_DEPOSIT"
failure_text FailureCode.challenge_funding_mismatch = text "CHALLENGE_FUNDING_MISMATCH"
failure_text FailureCode.invalid_challenge_funding_memo = text "INVALID_CHALLENGE_FUNDING_MEMO"
failure_text FailureCode.payout_top_up_required = text "PAYOUT_TOP_UP_REQUIRED"
failure_text FailureCode.escrow_top_up_unconfigured = text "ESCROW_TOP_UP_UNCONFIGURED"
failure_text FailureCode.escrow_top_up_unavailable = text "ESCROW_TOP_UP_UNAVAILABLE"
failure_text FailureCode.escrow_top_up_failed = text "ESCROW_TOP_UP_FAILED"
failure_text FailureCode.escrow_top_up_pending_confirmation =
    text "ESCROW_TOP_UP_PENDING_CONFIRMATION"

-- Whether the code takes the transfer for one that was sent.
abbrev pub counts_as_sent : Status → Bool
counts_as_sent status = is_confirmed status || is_accepted status

-- The empty text where nothing is wrong.
unfoldable pub audit_lookup_mismatch : LookupResponse → Status → Text → Text
audit_lookup_mismatch lookup status memo =
    if not lookup.succeeded
    then first_filled lookup.detail
        (first_filled (failure_text lookup.failure_code) (text "tx lookup failed"))
    else if not lookup.found
    then text "tx hash was not found on WoloChain REST"
    else if not lookup.matched_expected
    then text "tx did not contain the expected sender, recipient, and amount transfer"
    else if counts_as_sent status && not lookup.tx_success
    then text "stored transfer status is "
      ++ (status_text status ++ (text " but tx failed with code " ++ format_uint lookup.code))
    else if is_failed status && lookup.tx_success
    then text "stored transfer is failed/rejected but tx succeeded on chain"
    else if not (is_empty (trim_space memo))
        && not (text_eq (trim_space lookup.memo) (trim_space memo))
    then text "tx memo "
      ++ (quoted lookup.memo ++ (text " does not match stored memo " ++ quoted memo))
    else []
