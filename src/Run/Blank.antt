-- ===== src/Run/Blank.antt =====
-- The empty responses, runs and results of cmd/wolochaind/cmd/settlement.go: Go's zero values.
use wolochain.Prelude.{false, []}
use wolochain.Codes.{Status, Outcome, FailureCode}
use wolochain.Run.{NormalizedRun, RunResponse, PayoutResult}

-- `settlementRunResponse{}`
abbrev pub blank_run : RunResponse
blank_run = record {
  succeeded = false;
  dry_run = false;
  status = Status.no_status;
  failure_code = FailureCode.no_failure;
  retryable = false;
  idempotent_replay = false;
  settlement_run_id = [];
  source_app = [];
  source_event_id = [];
  note = [];
  memo = [];
  requested_payout_count = 0;
  executed_payout_count = 0;
  confirmed_payout_count = 0;
  accepted_payout_count = 0;
  refused_payout_count = 0;
  rejected_payout_count = 0;
  replay_payout_count = 0;
  requested_total_uwolo = [];
  requested_total_wolo = [];
  signer_role = [];
  signer_address = [];
  signer_balance_before_uwolo = [];
  signer_balance_before_wolo = [];
  executed_total_uwolo = [];
  executed_total_wolo = [];
  confirmed_total_uwolo = [];
  confirmed_total_wolo = [];
  accepted_total_uwolo = [];
  accepted_total_wolo = [];
  refused_total_uwolo = [];
  refused_total_wolo = [];
  rejected_total_uwolo = [];
  rejected_total_wolo = [];
  payout_balance_before_uwolo = [];
  payout_balance_before_wolo = [];
  projected_remaining_uwolo = [];
  projected_remaining_wolo = [];
  estimated_fee_total_uwolo = [];
  estimated_fee_total_wolo = [];
  min_payout_balance_uwolo = [];
  min_payout_balance_wolo = [];
  fee_headroom_uwolo = [];
  fee_headroom_wolo = [];
  min_escrow_balance_uwolo = [];
  min_escrow_balance_wolo = [];
  escrow_fee_headroom_uwolo = [];
  escrow_fee_headroom_wolo = [];
  warnings = [];
  detail = [];
  payouts = [];
}

abbrev pub blank_normalized : NormalizedRun
blank_normalized = record {
  settlement_run_id = [];
  source_app = [];
  source_event_id = [];
  note = [];
  memo = [];
  signer_role = [];
  payouts = [];
}

abbrev pub blank_result : PayoutResult
blank_result = record {
  index = 0;
  request_id = [];
  attempted = false;
  succeeded = false;
  status = Status.no_status;
  outcome = Outcome.no_outcome;
  failure_code = FailureCode.no_failure;
  retryable = false;
  idempotent_replay = false;
  signer_role = [];
  signer_address = [];
  to_address = [];
  amount_uwolo = [];
  amount_wolo = [];
  memo = [];
  tx_hash = [];
  detail = [];
  canonical_tx_lookup = [];
  canonical_tx_lookup_preferred = [];
  canonical_tx_lookup_internal = [];
  canonical_tx_lookup_public = [];
  warnings = [];
}
