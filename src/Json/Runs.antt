-- ===== src/Json/Runs.antt =====
-- The state file of a run as it is read back, field by field. Its digest is hex digits.
use wolochain.Prelude.{map}
use wolochain.Run.{NormalizedPayout, NormalizedRun, PayoutResult, RunResponse, RunStoredResult}
use wolochain.Json.{json_text}

abbrev pub json_payout : NormalizedPayout → NormalizedPayout
json_payout r = record r {
  request_id = json_text r.request_id;
  to_address = json_text r.to_address;
  amount_uwolo = json_text r.amount_uwolo;
  memo = json_text r.memo;
}

abbrev pub json_run : NormalizedRun → NormalizedRun
json_run r = record r {
  settlement_run_id = json_text r.settlement_run_id;
  source_app = json_text r.source_app;
  source_event_id = json_text r.source_event_id;
  note = json_text r.note;
  memo = json_text r.memo;
  signer_role = json_text r.signer_role;
  payouts = map json_payout r.payouts;
}

abbrev pub json_payout_result : PayoutResult → PayoutResult
json_payout_result r = record r {
  request_id = json_text r.request_id;
  signer_role = json_text r.signer_role;
  signer_address = json_text r.signer_address;
  to_address = json_text r.to_address;
  amount_uwolo = json_text r.amount_uwolo;
  amount_wolo = json_text r.amount_wolo;
  memo = json_text r.memo;
  tx_hash = json_text r.tx_hash;
  detail = json_text r.detail;
  canonical_tx_lookup = json_text r.canonical_tx_lookup;
  canonical_tx_lookup_preferred = json_text r.canonical_tx_lookup_preferred;
  canonical_tx_lookup_internal = json_text r.canonical_tx_lookup_internal;
  canonical_tx_lookup_public = json_text r.canonical_tx_lookup_public;
  warnings = map json_text r.warnings;
}

abbrev pub json_run_response : RunResponse → RunResponse
json_run_response r = record r {
  settlement_run_id = json_text r.settlement_run_id;
  source_app = json_text r.source_app;
  source_event_id = json_text r.source_event_id;
  note = json_text r.note;
  memo = json_text r.memo;
  requested_total_uwolo = json_text r.requested_total_uwolo;
  requested_total_wolo = json_text r.requested_total_wolo;
  signer_role = json_text r.signer_role;
  signer_address = json_text r.signer_address;
  signer_balance_before_uwolo = json_text r.signer_balance_before_uwolo;
  signer_balance_before_wolo = json_text r.signer_balance_before_wolo;
  executed_total_uwolo = json_text r.executed_total_uwolo;
  executed_total_wolo = json_text r.executed_total_wolo;
  confirmed_total_uwolo = json_text r.confirmed_total_uwolo;
  confirmed_total_wolo = json_text r.confirmed_total_wolo;
  accepted_total_uwolo = json_text r.accepted_total_uwolo;
  accepted_total_wolo = json_text r.accepted_total_wolo;
  refused_total_uwolo = json_text r.refused_total_uwolo;
  refused_total_wolo = json_text r.refused_total_wolo;
  rejected_total_uwolo = json_text r.rejected_total_uwolo;
  rejected_total_wolo = json_text r.rejected_total_wolo;
  payout_balance_before_uwolo = json_text r.payout_balance_before_uwolo;
  payout_balance_before_wolo = json_text r.payout_balance_before_wolo;
  projected_remaining_uwolo = json_text r.projected_remaining_uwolo;
  projected_remaining_wolo = json_text r.projected_remaining_wolo;
  estimated_fee_total_uwolo = json_text r.estimated_fee_total_uwolo;
  estimated_fee_total_wolo = json_text r.estimated_fee_total_wolo;
  min_payout_balance_uwolo = json_text r.min_payout_balance_uwolo;
  min_payout_balance_wolo = json_text r.min_payout_balance_wolo;
  fee_headroom_uwolo = json_text r.fee_headroom_uwolo;
  fee_headroom_wolo = json_text r.fee_headroom_wolo;
  min_escrow_balance_uwolo = json_text r.min_escrow_balance_uwolo;
  min_escrow_balance_wolo = json_text r.min_escrow_balance_wolo;
  escrow_fee_headroom_uwolo = json_text r.escrow_fee_headroom_uwolo;
  escrow_fee_headroom_wolo = json_text r.escrow_fee_headroom_wolo;
  warnings = map json_text r.warnings;
  detail = json_text r.detail;
  payouts = map json_payout_result r.payouts;
}

abbrev pub json_run_stored_result : RunStoredResult → RunStoredResult
json_run_stored_result r = record r {
  request = json_run r.request;
  response = json_run_response r.response;
}
