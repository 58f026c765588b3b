-- ===== src/Run.antt =====
-- Grouped settlement runs: the types of cmd/wolochaind/cmd/settlement.go.
pub mod Blank
pub mod Head
pub mod Duplicates
pub mod Prepare
pub mod Tally
pub mod Finalize
pub mod Plan
pub mod TopUp
pub mod Execute
use wolochain.Prelude.{ℕ, Bool, List}
use wolochain.Text.{Text}
use wolochain.Decimal.{ℤ}
use wolochain.Codes.{Status, Outcome, FailureCode}

pub record RunPayoutInput : Type 0 where
  pub request_id : Text
  pub to_address : Text
  pub amount_uwolo : Text
  pub amount_wolo : ℤ
  pub memo : Text

pub record RunRequest : Type 0 where
  pub settlement_run_id : Text
  pub source_app : Text
  pub source_event_id : Text
  pub note : Text
  pub memo : Text
  pub signer_role : Text
  pub payouts : List RunPayoutInput

pub record NormalizedPayout : Type 0 where
  pub index : ℕ
  pub request_id : Text
  pub to_address : Text
  pub amount_uwolo : Text
  pub memo : Text

pub record NormalizedRun : Type 0 where
  pub settlement_run_id : Text
  pub source_app : Text
  pub source_event_id : Text
  pub note : Text
  pub memo : Text
  pub signer_role : Text
  pub payouts : List NormalizedPayout

pub record PayoutResult : Type 0 where
  pub index : ℕ
  pub request_id : Text
  pub attempted : Bool
  pub succeeded : Bool
  pub status : Status
  pub outcome : Outcome
  pub failure_code : FailureCode
  pub retryable : Bool
  pub idempotent_replay : Bool
  pub signer_role : Text
  pub signer_address : Text
  pub to_address : Text
  pub amount_uwolo : Text
  pub amount_wolo : Text
  pub memo : Text
  pub tx_hash : Text
  pub detail : Text
  pub canonical_tx_lookup : Text
  pub canonical_tx_lookup_preferred : Text
  pub canonical_tx_lookup_internal : Text
  pub canonical_tx_lookup_public : Text
  pub warnings : List Text

pub record RunResponse : Type 0 where
  pub succeeded : Bool
  pub dry_run : Bool
  pub status : Status
  pub failure_code : FailureCode
  pub retryable : Bool
  pub idempotent_replay : Bool
  pub settlement_run_id : Text
  pub source_app : Text
  pub source_event_id : Text
  pub note : Text
  pub memo : Text
  pub requested_payout_count : ℕ
  pub executed_payout_count : ℕ
  pub confirmed_payout_count : ℕ
  pub accepted_payout_count : ℕ
  pub refused_payout_count : ℕ
  pub rejected_payout_count : ℕ
  pub replay_payout_count : ℕ
  pub requested_total_uwolo : Text
  pub requested_total_wolo : Text
  pub signer_role : Text
  pub signer_address : Text
  pub signer_balance_before_uwolo : Text
  pub signer_balance_before_wolo : Text
  pub executed_total_uwolo : Text
  pub executed_total_wolo : Text
  pub confirmed_total_uwolo : Text
  pub confirmed_total_wolo : Text
  pub accepted_total_uwolo : Text
  pub accepted_total_wolo : Text
  pub refused_total_uwolo : Text
  pub refused_total_wolo : Text
  pub rejected_total_uwolo : Text
  pub rejected_total_wolo : Text
  pub payout_balance_before_uwolo : Text
  pub payout_balance_before_wolo : Text
  pub projected_remaining_uwolo : Text
  pub projected_remaining_wolo : Text
  pub estimated_fee_total_uwolo : Text
  pub estimated_fee_total_wolo : Text
  pub min_payout_balance_uwolo : Text
  pub min_payout_balance_wolo : Text
  pub fee_headroom_uwolo : Text
  pub fee_headroom_wolo : Text
  pub min_escrow_balance_uwolo : Text
  pub min_escrow_balance_wolo : Text
  pub escrow_fee_headroom_uwolo : Text
  pub escrow_fee_headroom_wolo : Text
  pub warnings : List Text
  pub detail : Text
  pub payouts : List PayoutResult

pub record RunStoredResult : Type 0 where
  pub request : NormalizedRun
  pub fingerprint : Text
  pub response : RunResponse
