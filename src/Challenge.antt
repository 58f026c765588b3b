-- ===== src/Challenge.antt =====
-- Challenge settlements: the types of cmd/wolochaind/cmd/settlement_challenge.go. Both players of a
-- challenge pay a deposit into escrow, whose memo splits it into a wager and a guarantee; a
-- settlement moves every part of the deposits on, as one run of payouts.
pub mod Memo
pub mod Deposit
pub mod Transfers
pub mod Lines
pub mod Finalize
pub mod TopUp
pub mod Head
pub mod Plan
pub mod Execute
pub mod Audit
use wolochain.Prelude.{ℕ, Bool, false, List, [], Option, none}
use wolochain.Text.{Text, text}
use wolochain.Decimal.{ℤ}
use wolochain.Codes.{Status, Outcome, FailureCode}
use wolochain.Responses.{ExecuteResponse, LookupResponse}
use wolochain.Run.{RunRequest, RunResponse}

unfoldable pub wager_bucket : Text
wager_bucket = text "wager"

unfoldable pub guarantee_bucket : Text
guarantee_bucket = text "guarantee"

unfoldable pub memo_prefix : Text
memo_prefix = text "wolo.challenge.funding.v1:"

pub record FundingExpectation : Type 0 where
  pub sender : Text
  pub source_app : Text
  pub settlement_run_id : Text
  pub challenge_id : Text
  pub source_event_id : Text
  pub participant_side : Text
  pub participant_id : Text
  pub total_funded_uwolo : Text
  pub wager_uwolo : Text
  pub guarantee_uwolo : Text

pub record FundingResult : Type 0 where
  pub index : ℕ
  pub succeeded : Bool
  pub failure_code : FailureCode
  pub detail : Text
  pub deposit_found : Bool
  pub funding_tx_hash : Text
  pub source_app : Text
  pub settlement_run_id : Text
  pub challenge_id : Text
  pub source_event_id : Text
  pub participant_side : Text
  pub participant_id : Text
  pub sender : Text
  pub escrow_address : Text
  pub total_funded_uwolo : Text
  pub total_funded_wolo : Text
  pub wager_uwolo : Text
  pub wager_wolo : Text
  pub guarantee_uwolo : Text
  pub guarantee_wolo : Text
  pub memo : Text
  pub canonical_tx_lookup : Text
  pub canonical_tx_lookup_preferred : Text
  pub canonical_tx_lookup_internal : Text
  pub canonical_tx_lookup_public : Text

-- `settlementChallengeFundingResult{}`
abbrev pub blank_funding : FundingResult
blank_funding = record {
  index = 0;
  succeeded = false;
  failure_code = FailureCode.no_failure;
  detail = [];
  deposit_found = false;
  funding_tx_hash = [];
  source_app = [];
  settlement_run_id = [];
  challenge_id = [];
  source_event_id = [];
  participant_side = [];
  participant_id = [];
  sender = [];
  escrow_address = [];
  total_funded_uwolo = [];
  total_funded_wolo = [];
  wager_uwolo = [];
  wager_wolo = [];
  guarantee_uwolo = [];
  guarantee_wolo = [];
  memo = [];
  canonical_tx_lookup = [];
  canonical_tx_lookup_preferred = [];
  canonical_tx_lookup_internal = [];
  canonical_tx_lookup_public = [];
}

pub record FundingVerification : Type 0 where
  pub succeeded : Bool
  pub failure_code : FailureCode
  pub detail : Text
  pub funding : Option FundingResult
  pub lookup : Option LookupResponse

pub record FundingInput : Type 0 where
  pub funding_tx_hash : Text
  pub depositor_address : Text
  pub settlement_run_id : Text
  pub participant_side : Text
  pub participant_id : Text
  pub expected_amount_uwolo : Text
  pub wager_uwolo : Text
  pub guarantee_uwolo : Text

pub record TransferInput : Type 0 where
  pub request_id : Text
  pub participant_side : Text
  pub participant_id : Text
  pub bucket : Text
  pub reason : Text
  pub to_address : Text
  pub amount_uwolo : Text
  pub amount_wolo : ℤ
  pub memo : Text

pub record ChallengeRequest : Type 0 where
  pub settlement_run_id : Text
  pub source_app : Text
  pub challenge_id : Text
  pub source_event_id : Text
  pub treasury_address : Text
  pub note : Text
  pub memo : Text
  pub funding : List FundingInput
  pub transfers : List TransferInput

-- A normalized deposit has the fields of its input.
abbrev pub NormalizedFunding : Type 0
NormalizedFunding = FundingInput

pub record NormalizedTransfer : Type 0 where
  pub index : ℕ
  pub request_id : Text
  pub participant_side : Text
  pub participant_id : Text
  pub bucket : Text
  pub reason : Text
  pub to_address : Text
  pub amount_uwolo : Text
  pub memo : Text

pub record NormalizedChallenge : Type 0 where
  pub settlement_run_id : Text
  pub source_app : Text
  pub challenge_id : Text
  pub source_event_id : Text
  pub treasury_address : Text
  pub note : Text
  pub memo : Text
  pub funding : List NormalizedFunding
  pub transfers : List NormalizedTransfer

pub record TransferResult : Type 0 where
  pub index : ℕ
  pub request_id : Text
  pub participant_side : Text
  pub participant_id : Text
  pub bucket : Text
  pub reason : Text
  pub attempted : Bool
  pub succeeded : Bool
  pub status : Status
  pub outcome : Outcome
  pub failure_code : FailureCode
  pub retryable : Bool
  pub idempotent_replay : Bool
  pub signer_role : Text
  pub signer_address : Text
  pub to_address : Text
  pub amount_uwolo : Text
  pub amount_wolo : Text
  pub memo : Text
  pub tx_hash : Text
  pub detail : Text
  pub canonical_tx_lookup : Text
  pub canonical_tx_lookup_preferred : Text
  pub canonical_tx_lookup_internal : Text
  pub canonical_tx_lookup_public : Text
  pub warnings : List Text

pub record BucketTotals : Type 0 where
  pub bucket : Text
  pub requested_uwolo : Text
  pub requested_wolo : Text
  pub executed_uwolo : Text
  pub executed_wolo : Text
  pub confirmed_uwolo : Text
  pub confirmed_wolo : Text
  pub accepted_uwolo : Text
  pub accepted_wolo : Text
  pub refused_uwolo : Text
  pub refused_wolo : Text
  pub rejected_uwolo : Text
  pub rejected_wolo : Text

pub record TopUpResult : Type 0 where
  pub required : Bool
  pub enabled : Bool
  pub possible : Bool
  pub failure_code : FailureCode
  pub detail : Text
  pub request_id : Text
  pub signer_role : Text
  pub from_address : Text
  pub to_address : Text
  pub amount_uwolo : Text
  pub amount_wolo : Text
  pub payout_balance_before_uwolo : Text
  pub payout_balance_before_wolo : Text
  pub required_payout_balance_uwolo : Text
  pub required_payout_balance_wolo : Text
  pub escrow_balance_uwolo : Text
  pub escrow_balance_wolo : Text
  pub response : Option ExecuteResponse

pub record ChallengeResponse : Type 0 where
  pub succeeded : Bool
  pub dry_run : Bool
  pub status : Status
  pub failure_code : FailureCode
  pub retryable : Bool
  pub idempotent_replay : Bool
  pub settlement_run_id : Text
  pub source_app : Text
  pub challenge_id : Text
  pub source_event_id : Text
  pub treasury_address : Text
  pub note : Text
  pub memo : Text
  pub participant_count : ℕ
  pub funding_count : ℕ
  pub funding_verified_count : ℕ
  pub requested_transfer_count : ℕ
  pub executed_transfer_count : ℕ
  pub confirmed_transfer_count : ℕ
  pub accepted_transfer_count : ℕ
  pub refused_transfer_count : ℕ
  pub rejected_transfer_count : ℕ
  pub replay_transfer_count : ℕ
  pub funding_total_uwolo : Text
  pub funding_total_wolo : Text
  pub requested_total_uwolo : Text
  pub requested_total_wolo : Text
  pub executed_total_uwolo : Text
  pub executed_total_wolo : Text
  pub confirmed_total_uwolo : Text
  pub confirmed_total_wolo : Text
  pub accepted_total_uwolo : Text
  pub accepted_total_wolo : Text
  pub refused_total_uwolo : Text
  pub refused_total_wolo : Text
  pub rejected_total_uwolo : Text
  pub rejected_total_wolo : Text
  pub bucket_totals : List BucketTotals
  pub top_up : Option TopUpResult
  pub detail : Text
  pub funding : List FundingResult
  pub transfers : List TransferResult
  pub run : Option RunResponse

pub record ChallengeStoredResult : Type 0 where
  pub request : NormalizedChallenge
  pub fingerprint : Text
  pub response : ChallengeResponse

pub record ChallengePlan : Type 0 where
  pub normalized : NormalizedChallenge
  pub response : ChallengeResponse
  pub run_request : RunRequest
