-- ===== src/Challenge/Audit.antt =====
-- The audit of a challenge: the types of cmd/wolochaind/cmd/settlement_challenge_audit.go, and the
-- list of checks that it collects. The audit reads state files and the chain, and changes neither.
pub mod Deposits
pub mod Allocation
pub mod RunState
pub mod Mismatch
pub mod Borne
pub mod Checks
pub mod Payments
pub mod TopUp
pub mod Report
pub mod Sound
use wolochain.Prelude.{
  ℕ, Bool, true, false, not, ◌&&◌, List, [], ◌∷◌, ◌++◌, Option, none, some, if◌then◌else◌, is_empty,
}
use wolochain.Text.{Text, text, text_eq, trim_space}
use wolochain.Decimal.{format_uint}
use wolochain.Codes.{Status, Outcome, FailureCode, is_no_failure}
use wolochain.Responses.{LookupResponse}
use wolochain.Probe.{quoted}
use wolochain.Challenge.{FundingResult}

-- The failure codes of the audit: one constructor for each literal, `no_audit_failure` for the empty
-- text, and those of a verification that it hands on.
pub data AuditCode : Type 0 where
  no_audit_failure challenge_audit_failed challenge_state_not_found : AuditCode
  challenge_state_fingerprint_mismatch challenge_state_mismatch : AuditCode
  funding_count_mismatch funding_total_mismatch funding_proof_mismatch : AuditCode
  funding_state_mismatch requested_total_mismatch bucket_total_mismatch : AuditCode
  bucket_allocation_mismatch invalid_transfer_amount treasury_route_mismatch : AuditCode
  transfer_funding_mismatch run_state_missing run_state_fingerprint_mismatch : AuditCode
  run_state_mismatch transfer_state_mismatch transfer_state_missing : AuditCode
  transfer_state_fingerprint_mismatch transfer_tx_missing transfer_tx_mismatch : AuditCode
  top_up_state_missing top_up_state_mismatch top_up_state_fingerprint_mismatch : AuditCode
  top_up_tx_missing top_up_tx_mismatch : AuditCode
  handed_on : FailureCode → AuditCode

abbrev pub is_no_audit_failure : AuditCode → Bool
is_no_audit_failure AuditCode.no_audit_failure = true
is_no_audit_failure (AuditCode.handed_on why) = is_no_failure why
is_no_audit_failure _ = false

pub record AuditCheck : Type 0 where
  pub name : Text
  pub passed : Bool
  pub failure_code : AuditCode
  pub detail : Text
  pub expected : Text
  pub actual : Text

pub record AuditSummary : Type 0 where
  pub source_app : Text
  pub challenge_id : Text
  pub source_event_id : Text
  pub treasury_address : Text
  pub funding_count : ℕ
  pub funding_verified_count : ℕ
  pub funding_total_uwolo : Text
  pub wager_funded_uwolo : Text
  pub guarantee_funded_uwolo : Text
  pub requested_transfer_count : ℕ
  pub transfer_tx_checked_count : ℕ
  pub requested_total_uwolo : Text
  pub wager_transfer_uwolo : Text
  pub guarantee_transfer_uwolo : Text
  pub treasury_transfer_uwolo : Text
  pub top_up_required : Bool
  pub top_up_amount_uwolo : Text
  pub top_up_tx_checked : Bool
  pub stored_status : Status
  pub stored_failure_code : FailureCode
  pub stored_confirmed_total_uwolo : Text

pub record AuditFunding : Type 0 where
  pub index : ℕ
  pub passed : Bool
  pub failure_code : AuditCode
  pub detail : Text
  pub funding_tx_hash : Text
  pub stored_funding : Option FundingResult
  pub verified_funding : Option FundingResult

pub record AuditTransfer : Type 0 where
  pub index : ℕ
  pub request_id : Text
  pub bucket : Text
  pub reason : Text
  pub status : Status
  pub outcome : Outcome
  pub passed : Bool
  pub failure_code : AuditCode
  pub detail : Text
  pub signer_address : Text
  pub to_address : Text
  pub amount_uwolo : Text
  pub memo : Text
  pub tx_hash : Text
  pub state_path : Text
  pub tx_lookup : Option LookupResponse

pub record AuditTopUp : Type 0 where
  pub required : Bool
  pub passed : Bool
  pub failure_code : AuditCode
  pub detail : Text
  pub request_id : Text
  pub from_address : Text
  pub to_address : Text
  pub amount_uwolo : Text
  pub tx_hash : Text
  pub state_path : Text
  pub tx_lookup : Option LookupResponse

pub record AuditResponse : Type 0 where
  pub passed : Bool
  pub failure_code : AuditCode
  pub detail : Text
  pub settlement_run_id : Text
  pub challenge_path : Text
  pub run_path : Text
  pub summary : AuditSummary
  pub checks : List AuditCheck
  pub funding : List AuditFunding
  pub transfers : List AuditTransfer
  pub top_up : Option AuditTopUp

-- `settlementChallengeAuditChecks.add`, as the check that it appends
unfoldable pub audit_check : Text → Bool → AuditCode → Text → Text → Text → AuditCheck
audit_check name passed why detail expected actual = record {
  name = name;
  passed = passed;
  failure_code = if passed then AuditCode.no_audit_failure else why;
  detail = trim_space detail;
  expected = trim_space expected;
  actual = trim_space actual;
}

-- `settlementChallengeAuditChecks.addEqual`
unfoldable pub equal_check : Text → AuditCode → Text → Text → AuditCheck
equal_check name why expected actual =
    let e = trim_space expected in
    let a = trim_space actual in
    if text_eq e a
    then audit_check name true AuditCode.no_audit_failure (text "values match") e a
    else audit_check name false why
        (name ++ (text " expected " ++ (quoted e ++ (text " but found " ++ quoted a)))) e a

unfoldable pub checks_pass : List AuditCheck → Bool
checks_pass [] = true
checks_pass (c ∷ cs) = c.passed && checks_pass cs

unfoldable pub first_audit_code : List AuditCheck → AuditCode
first_audit_code [] = AuditCode.challenge_audit_failed
first_audit_code (c ∷ cs) =
    let rest = first_audit_code cs in
    if not c.passed && not (is_no_audit_failure c.failure_code) then c.failure_code else rest

unfoldable pub first_audit_detail : List AuditCheck → Text
first_audit_detail [] = text "one or more challenge settlement audit checks failed"
first_audit_detail (c ∷ cs) =
    let rest = first_audit_detail cs in
    if not c.passed && not (is_empty (trim_space c.detail)) then c.detail else rest

-- The name of a check on the line of that index.
abbrev pub line_name : Text → ℕ → Text → Text
line_name before index after = before ++ (format_uint index ++ after)

-- `firstNonEmpty` of two texts
abbrev pub first_filled : Text → Text → Text
first_filled s t = if is_empty (trim_space s) then trim_space t else trim_space s

-- The text that a status stands for.
abbrev pub status_text : Status → Text
status_text Status.no_status = []
status_text Status.failed = text "failed"
status_text Status.validated = text "validated"
status_text Status.confirmed = text "confirmed"
status_text Status.accepted = text "accepted"
status_text Status.partial = text "partial"
