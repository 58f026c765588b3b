-- ===== src/Responses.antt =====
-- The answers of the settlement service: `settlementExecuteResponse`, `settlementStoredResult`,
-- `settlementTransfer`, `settlementLookupResponse` and `settlementHealthResponse` of
-- cmd/wolochaind/cmd/settlement.go. The times of records are left out: nothing reads them.
use wolochain.Prelude.{ℕ, Bool, false, List, [], Option, none}
use wolochain.Text.{Text}
use wolochain.Codes.{Status, FailureCode}
use wolochain.Request.{NormalizedRequest}

pub record ExecuteResponse : Type 0 where
  pub succeeded : Bool
  pub status : Status
  pub failure_code : FailureCode
  pub retryable : Bool
  pub idempotent_replay : Bool
  pub request_id : Text
  pub chain_id : Text
  pub signer_role : Text
  pub signer_address : Text
  pub to_address : Text
  pub amount_uwolo : Text
  pub amount_wolo : Text
  pub broadcast_mode : Text
  pub tx_hash : Text
  pub code : ℕ
  pub codespace : Text
  pub raw_log : Text
  pub detail : Text
  pub canonical_tx_lookup : Text
  pub canonical_tx_lookup_preferred : Text
  pub canonical_tx_lookup_internal : Text
  pub canonical_tx_lookup_public : Text

-- `settlementExecuteResponse{}`
abbrev pub blank_response : ExecuteResponse
blank_response = record {
  succeeded = false;
  status = Status.no_status;
  failure_code = FailureCode.no_failure;
  retryable = false;
  idempotent_replay = false;
  request_id = [];
  chain_id = [];
  signer_role = [];
  signer_address = [];
  to_address = [];
  amount_uwolo = [];
  amount_wolo = [];
  broadcast_mode = [];
  tx_hash = [];
  code = 0;
  codespace = [];
  raw_log = [];
  detail = [];
  canonical_tx_lookup = [];
  canonical_tx_lookup_preferred = [];
  canonical_tx_lookup_internal = [];
  canonical_tx_lookup_public = [];
}

pub record StoredResult : Type 0 where
  pub request : NormalizedRequest
  pub fingerprint : Text
  pub response : ExecuteResponse

pub record Transfer : Type 0 where
  pub sender : Text
  pub recipient : Text
  pub amount : Text
  pub denom : Text

-- What `classifyTransferKind` returns; `no_kind` is the empty text.
pub data Kind : Type 0 where
  no_kind escrow_deposit payout transfer unknown : Kind

pub record LookupResponse : Type 0 where
  pub succeeded : Bool
  pub failure_code : FailureCode
  pub detail : Text
  pub found : Bool
  pub chain_id : Text
  pub tx_hash : Text
  pub tx_success : Bool
  pub kind : Kind
  pub height : Text
  pub code : ℕ
  pub codespace : Text
  pub memo : Text
  pub raw_log : Text
  pub timestamp : Text
  pub canonical_tx_lookup : Text
  pub canonical_tx_lookup_preferred : Text
  pub canonical_tx_lookup_internal : Text
  pub canonical_tx_lookup_public : Text
  pub transfers : List Transfer
  pub matched_expected : Bool
  pub matched_transfer : Option Transfer

-- `settlementLookupResponse{}`
abbrev pub blank_lookup : LookupResponse
blank_lookup = record {
  succeeded = false;
  failure_code = FailureCode.no_failure;
  detail = [];
  found = false;
  chain_id = [];
  tx_hash = [];
  tx_success = false;
  kind = Kind.no_kind;
  height = [];
  code = 0;
  codespace = [];
  memo = [];
  raw_log = [];
  timestamp = [];
  canonical_tx_lookup = [];
  canonical_tx_lookup_preferred = [];
  canonical_tx_lookup_internal = [];
  canonical_tx_lookup_public = [];
  transfers = [];
  matched_expected = false;
  matched_transfer = none;
}

pub record HealthResponse : Type 0 where
  pub healthy : Bool
  pub failure_code : FailureCode
  pub detail : Text
  pub chain_id : Text
  pub runtime_chain_id : Text
  pub rpc_url : Text
  pub rest_url : Text
  pub public_rest_url : Text
  pub home_dir : Text
  pub keyring_backend : Text
  pub payout_key_name : Text
  pub payout_address : Text
  pub escrow_key_name : Text
  pub escrow_address : Text
  pub escrow_signer_address : Text
  pub payout_balance_uwolo : Text
  pub payout_balance_wolo : Text
  pub escrow_balance_uwolo : Text
  pub escrow_balance_wolo : Text
  pub min_payout_balance_uwolo : Text
  pub min_payout_balance_wolo : Text
  pub fee_headroom_uwolo : Text
  pub fee_headroom_wolo : Text
  pub min_escrow_balance_uwolo : Text
  pub min_escrow_balance_wolo : Text
  pub escrow_fee_headroom_uwolo : Text
  pub escrow_fee_headroom_wolo : Text
  pub warnings : List Text
  pub loopback_only : Bool
  pub auth_token_set : Bool
