-- ===== src/Json/Challenges.antt =====
-- The state file of a challenge as it is read back, field by field. Its digest is hex digits.
use wolochain.Prelude.{map, Option, none, some}
use wolochain.Challenge.{
  FundingInput, NormalizedTransfer, NormalizedChallenge, FundingResult, TransferResult,
  BucketTotals, TopUpResult, ChallengeResponse, ChallengeStoredResult,
}
use wolochain.Json.{json_text}
use wolochain.Json.Requests.{json_response}
use wolochain.Json.Runs.{json_run_response}

abbrev map_option : {A B : Type 0} → (A → B) → Option A → Option B
map_option f none = none
map_option f (some a) = some (f a)

abbrev pub json_funding_input : FundingInput → FundingInput
json_funding_input r = record r {
  funding_tx_hash = json_text r.funding_tx_hash;
  depositor_address = json_text r.depositor_address;
  settlement_run_id = json_text r.settlement_run_id;
  participant_side = json_text r.participant_side;
  participant_id = json_text r.participant_id;
  expected_amount_uwolo = json_text r.expected_amount_uwolo;
  wager_uwolo = json_text r.wager_uwolo;
  guarantee_uwolo = json_text r.guarantee_uwolo;
}

abbrev pub json_transfer : NormalizedTransfer → NormalizedTransfer
json_transfer r = record r {
  request_id = json_text r.request_id;
  participant_side = json_text r.participant_side;
  participant_id = json_text r.participant_id;
  bucket = json_text r.bucket;
  reason = json_text r.reason;
  to_address = json_text r.to_address;
  amount_uwolo = json_text r.amount_uwolo;
  memo = json_text r.memo;
}

abbrev pub json_challenge : NormalizedChallenge → NormalizedChallenge
json_challenge r = record r {
  settlement_run_id = json_text r.settlement_run_id;
  source_app = json_text r.source_app;
  challenge_id = json_text r.challenge_id;
  source_event_id = json_text r.source_event_id;
  treasury_address = json_text r.treasury_address;
  note = json_text r.note;
  memo = json_text r.memo;
  funding = map json_funding_input r.funding;
  transfers = map json_transfer r.transfers;
}

abbrev pub json_funding : FundingResult → FundingResult
json_funding r = record r {
  detail = json_text r.detail;
  funding_tx_hash = json_text r.funding_tx_hash;
  source_app = json_text r.source_app;
  settlement_run_id = json_text r.settlement_run_id;
  challenge_id = json_text r.challenge_id;
  source_event_id = json_text r.source_event_id;
  participant_side = json_text r.participant_side;
  participant_id = json_text r.participant_id;
  sender = json_text r.sender;
  escrow_address = json_text r.escrow_address;
  total_funded_uwolo = json_text r.total_funded_uwolo;
  total_funded_wolo = json_text r.total_funded_wolo;
  wager_uwolo = json_text r.wager_uwolo;
  wager_wolo = json_text r.wager_wolo;
  guarantee_uwolo = json_text r.guarantee_uwolo;
  guarantee_wolo = json_text r.guarantee_wolo;
  memo = json_text r.memo;
  canonical_tx_lookup = json_text r.canonical_tx_lookup;
  canonical_tx_lookup_preferred = json_text r.canonical_tx_lookup_preferred;
  canonical_tx_lookup_internal = json_text r.canonical_tx_lookup_internal;
  canonical_tx_lookup_public = json_text r.canonical_tx_lookup_public;
}

abbrev pub json_transfer_result : TransferResult → TransferResult
json_transfer_result r = record r {
  request_id = json_text r.request_id;
  participant_side = json_text r.participant_side;
  participant_id = json_text r.participant_id;
  bucket = json_text r.bucket;
  reason = json_text r.reason;
  signer_role = json_text r.signer_role;
  signer_address = json_text r.signer_address;
  to_address = json_text r.to_address;
  amount_uwolo = json_text r.amount_uwolo;
  amount_wolo = json_text r.amount_wolo;
  memo = json_text r.memo;
  tx_hash = json_text r.tx_hash;
  detail = json_text r.detail;
  canonical_tx_lookup = json_text r.canonical_tx_lookup;
  canonical_tx_lookup_preferred = json_text r.canonical_tx_lookup_preferred;
  canonical_tx_lookup_internal = json_text r.canonical_tx_lookup_internal;
  canonical_tx_lookup_public = json_text r.canonical_tx_lookup_public;
  warnings = map json_text r.warnings;
}

abbrev pub json_bucket : BucketTotals → BucketTotals
json_bucket r = record r {
  bucket = json_text r.bucket;
  requested_uwolo = json_text r.requested_uwolo;
  requested_wolo = json_text r.requested_wolo;
  executed_uwolo = json_text r.executed_uwolo;
  executed_wolo = json_text r.executed_wolo;
  confirmed_uwolo = json_text r.confirmed_uwolo;
  confirmed_wolo = json_text r.confirmed_wolo;
  accepted_uwolo = json_text r.accepted_uwolo;
  accepted_wolo = json_text r.accepted_wolo;
  refused_uwolo = json_text r.refused_uwolo;
  refused_wolo = json_text r.refused_wolo;
  rejected_uwolo = json_text r.rejected_uwolo;
  rejected_wolo = json_text r.rejected_wolo;
}

abbrev pub json_top_up : TopUpResult → TopUpResult
json_top_up r = record r {
  detail = json_text r.detail;
  request_id = json_text r.request_id;
  signer_role = json_text r.signer_role;
  from_address = json_text r.from_address;
  to_address = json_text r.to_address;
  amount_uwolo = json_text r.amount_uwolo;
  amount_wolo = json_text r.amount_wolo;
  payout_balance_before_uwolo = json_text r.payout_balance_before_uwolo;
  payout_balance_before_wolo = json_text r.payout_balance_before_wolo;
  required_payout_balance_uwolo = json_text r.required_payout_balance_uwolo;
  required_payout_balance_wolo = json_text r.required_payout_balance_wolo;
  escrow_balance_uwolo = json_text r.escrow_balance_uwolo;
  escrow_balance_wolo = json_text r.escrow_balance_wolo;
  response = map_option json_response r.response;
}

abbrev pub json_challenge_response : ChallengeResponse → ChallengeResponse
json_challenge_response r = record r {
  settlement_run_id = json_text r.settlement_run_id;
  source_app = json_text r.source_app;
  challenge_id = json_text r.challenge_id;
  source_event_id = json_text r.source_event_id;
  treasury_address = json_text r.treasury_address;
  note = json_text r.note;
  memo = json_text r.memo;
  funding_total_uwolo = json_text r.funding_total_uwolo;
  funding_total_wolo = json_text r.funding_total_wolo;
  requested_total_uwolo = json_text r.requested_total_uwolo;
  requested_total_wolo = json_text r.requested_total_wolo;
  executed_total_uwolo = json_text r.executed_total_uwolo;
  executed_total_wolo = json_text r.executed_total_wolo;
  confirmed_total_uwolo = json_text r.confirmed_total_uwolo;
  confirmed_total_wolo = json_text r.confirmed_total_wolo;
  accepted_total_uwolo = json_text r.accepted_total_uwolo;
  accepted_total_wolo = json_text r.accepted_total_wolo;
  refused_total_uwolo = json_text r.refused_total_uwolo;
  refused_total_wolo = json_text r.refused_total_wolo;
  rejected_total_uwolo = json_text r.rejected_total_uwolo;
  rejected_total_wolo = json_text r.rejected_total_wolo;
  bucket_totals = map json_bucket r.bucket_totals;
  top_up = map_option json_top_up r.top_up;
  detail = json_text r.detail;
  funding = map json_funding r.funding;
  transfers = map json_transfer_result r.transfers;
  run = map_option json_run_response r.run;
}

abbrev pub json_challenge_stored_result : ChallengeStoredResult → ChallengeStoredResult
json_challenge_stored_result r = record r {
  request = json_challenge r.request;
  response = json_challenge_response r.response;
}
