-- ===== src/Challenge/Audit/Deposits.antt =====
-- The deposits in an audit: `auditChallengeFunding` and `compareStoredChallengeFunding` of
-- cmd/wolochaind/cmd/settlement_challenge_audit.go.
pub mod Proven
use wolochain.Prelude.{
  ℕ, ◌+◌, true, false, List, [], ◌∷◌, ◌++◌, Option, none, some, length, if◌then◌else◌, is_empty,
}
use wolochain.Text.{Text, text, trim_space, equal_fold}
use wolochain.Decimal.{format_uint, parse_optional_uwolo}
use wolochain.Codes.{is_no_failure}
use wolochain.Config.{Config}
use wolochain.Node.{Node}
use wolochain.Probe.{quoted}
use wolochain.Run.Tally.{add_u64}
use wolochain.Challenge.{
  FundingExpectation, FundingInput, FundingResult, FundingVerification, ChallengeStoredResult,
}
use wolochain.Challenge.Deposit.{verify_deposit}
use wolochain.Challenge.Audit.{
  AuditCode, AuditCheck, AuditFunding, audit_check, equal_check, line_name, first_filled,
}

-- A field as it is stored and as it is verified.
pub record StoredField : Type 0 where
  pub field : Text
  pub stored : Text
  pub actual : Text

abbrev stored_fields : FundingResult → FundingResult → List StoredField
stored_fields s v =
    record {
      field = text "funding_tx_hash";
      stored = s.funding_tx_hash;
      actual = v.funding_tx_hash;
    }
    ∷ record { field = text "source_app"; stored = s.source_app; actual = v.source_app }
    ∷ record {
      field = text "settlement_run_id";
      stored = s.settlement_run_id;
      actual = v.settlement_run_id;
    }
    ∷ record { field = text "challenge_id"; stored = s.challenge_id; actual = v.challenge_id }
    ∷ record {
      field = text "source_event_id";
      stored = s.source_event_id;
      actual = v.source_event_id;
    }
    ∷ record {
      field = text "participant_side";
      stored = s.participant_side;
      actual = v.participant_side;
    }
    ∷ record { field = text "participant_id"; stored = s.participant_id; actual = v.participant_id }
    ∷ record { field = text "sender"; stored = s.sender; actual = v.sender }
    ∷ record { field = text "escrow_address"; stored = s.escrow_address; actual = v.escrow_address }
    ∷ record {
      field = text "total_funded_uwolo";
      stored = s.total_funded_uwolo;
      actual = v.total_funded_uwolo;
    }
    ∷ record { field = text "wager_uwolo"; stored = s.wager_uwolo; actual = v.wager_uwolo }
    ∷ record {
      field = text "guarantee_uwolo";
      stored = s.guarantee_uwolo;
      actual = v.guarantee_uwolo;
    }
    ∷ []

abbrev first_difference : List StoredField → Text
first_difference [] = []
first_difference (f ∷ fs) =
    let rest = first_difference fs in
    if equal_fold (trim_space f.stored) (trim_space f.actual)
    then rest
    else f.field
      ++ (text " stored "
          ++ (quoted f.stored ++ (text " does not match verified tx value " ++ quoted f.actual)))

unfoldable pub compare_stored_funding : FundingResult → FundingResult → Text
compare_stored_funding stored verified = first_difference (stored_fields stored verified)

-- What the audit expects of a deposit: the request says it, or where it is blank the stored result.
unfoldable pub audit_expectation :
    ChallengeStoredResult → FundingInput → Option FundingResult → FundingExpectation
audit_expectation record_ funding none = record {
  sender = funding.depositor_address;
  source_app = record_.request.source_app;
  settlement_run_id = funding.settlement_run_id;
  challenge_id = record_.request.challenge_id;
  source_event_id = record_.request.source_event_id;
  participant_side = funding.participant_side;
  participant_id = funding.participant_id;
  total_funded_uwolo = funding.expected_amount_uwolo;
  wager_uwolo = funding.wager_uwolo;
  guarantee_uwolo = funding.guarantee_uwolo;
}
audit_expectation record_ funding (some stored) = record {
  sender = first_filled funding.depositor_address stored.sender;
  source_app = record_.request.source_app;
  settlement_run_id = first_filled funding.settlement_run_id stored.settlement_run_id;
  challenge_id = record_.request.challenge_id;
  source_event_id = record_.request.source_event_id;
  participant_side = funding.participant_side;
  participant_id = funding.participant_id;
  total_funded_uwolo = first_filled funding.expected_amount_uwolo stored.total_funded_uwolo;
  wager_uwolo = first_filled funding.wager_uwolo stored.wager_uwolo;
  guarantee_uwolo = first_filled funding.guarantee_uwolo stored.guarantee_uwolo;
}

-- One deposit: its entry, its checks, and the deposit where it was verified.
pub record AuditedDeposit : Type 0 where
  pub entry : AuditFunding
  pub checks : List AuditCheck
  pub verified : Option FundingResult

abbrev unverified_deposit :
    ℕ → Text → Option FundingResult → FundingVerification → Option FundingResult → AuditedDeposit
unverified_deposit index hash stored v verified =
    let why =
      if is_no_failure v.failure_code
      then AuditCode.funding_proof_mismatch
      else AuditCode.handed_on v.failure_code in
    record {
      entry = record {
        index = index;
        passed = v.succeeded;
        failure_code = why;
        detail = v.detail;
        funding_tx_hash = hash;
        stored_funding = stored;
        verified_funding = verified;
      };
      checks =
          audit_check (line_name (text "funding_") index (text "_proof")) false why v.detail hash
            (text "unverified")
          ∷ [];
      verified = none;
    }

abbrev verified_entry : ℕ → Text → Option FundingResult → FundingResult → AuditFunding
verified_entry index hash stored deposit = record {
  index = index;
  passed = true;
  failure_code = AuditCode.no_audit_failure;
  detail = [];
  funding_tx_hash = hash;
  stored_funding = stored;
  verified_funding = some deposit;
}

abbrev proof_check : ℕ → Text → AuditCheck
proof_check index hash =
    audit_check (line_name (text "funding_") index (text "_proof")) true AuditCode.no_audit_failure
      (text "funding tx matches challenge memo and escrow expectations") hash hash

-- The verified deposit against the stored one.
unfoldable pub proven_deposit : ℕ → Text → Option FundingResult → FundingResult → AuditedDeposit
proven_deposit index hash none deposit = record {
  entry = verified_entry index hash none deposit;
  checks = proof_check index hash ∷ [];
  verified = some deposit;
}
proven_deposit index hash (some stored) deposit =
    let difference = compare_stored_funding stored deposit in
    let same = is_empty difference in
    let entry = verified_entry index hash (some stored) deposit in
    record {
      entry = if same then entry else record entry {
        passed = false;
        failure_code = AuditCode.funding_state_mismatch;
        detail = difference;
      };
      checks =
          proof_check index hash
          ∷ audit_check (line_name (text "funding_") index (text "_state")) same
              AuditCode.funding_state_mismatch
              (if same then text "stored funding state matches verified tx reality" else difference)
              (text "stored funding") (text "verified funding")
          ∷ [];
      verified = some deposit;
    }

unfoldable pub judge_deposit :
    ℕ → Text → Option FundingResult → FundingVerification → Option FundingResult → AuditedDeposit
judge_deposit index hash stored v none = unverified_deposit index hash stored v none
judge_deposit index hash stored v (some deposit) =
    let numbered = record deposit { index = index } in
    if v.succeeded
    then proven_deposit index hash stored numbered
    else unverified_deposit index hash stored v (some numbered)

abbrev pub head_of : List FundingResult → Option FundingResult
head_of [] = none
head_of (r ∷ rs) = some r

abbrev pub tail_of : List FundingResult → List FundingResult
tail_of [] = []
tail_of (r ∷ rs) = rs

abbrev pub verified_deposits : List AuditedDeposit → List FundingResult
verified_deposits [] = []
verified_deposits (d ∷ ds) = elim d.verified [
  | none ↦ verified_deposits ds
  | some deposit ↦ deposit ∷ verified_deposits ds
]

abbrev pub deposit_entries : List AuditedDeposit → List AuditFunding
deposit_entries [] = []
deposit_entries (d ∷ ds) = d.entry ∷ deposit_entries ds

abbrev pub deposit_checks : List AuditedDeposit → List AuditCheck
deposit_checks [] = []
deposit_checks (d ∷ ds) = d.checks ++ deposit_checks ds

abbrev pub optional_amount : Text → ℕ
optional_amount s = elim (parse_optional_uwolo s) [ none ↦ 0 | some n ↦ n ]

-- A total of the verified deposits, in an `uint64`.
unfoldable pub deposit_total : (FundingResult → Text) → ℕ → List FundingResult → ℕ
deposit_total amount total [] = total
deposit_total amount total (r ∷ rs) =
    deposit_total amount (add_u64 total (optional_amount (amount r))) rs

module _ {C : Type 0} (node : Node C) (cfg : Config) (stored : ChallengeStoredResult) where
  unfoldable pub audit_deposit : ℕ → FundingInput → Option FundingResult → C → AuditedDeposit × C
  audit_deposit index funding before c =
      let (v, c') =
        verify_deposit node cfg funding.funding_tx_hash (audit_expectation stored funding before)
          c in
      (judge_deposit index funding.funding_tx_hash before v v.funding, c')

  -- `auditChallengeFunding`, with the stored results that are left
  unfoldable pub audit_deposits :
      ℕ → List FundingInput → List FundingResult → C → List AuditedDeposit × C
  audit_deposits index [] before c = ([], c)
  audit_deposits index (funding ∷ rest) before c =
      let (d, c') = audit_deposit index funding (head_of before) c in
      let (ds, c'') = audit_deposits (index + 1) rest (tail_of before) c' in (d ∷ ds, c'')

  abbrev pub deposit_count_check : List AuditedDeposit → AuditCheck
  deposit_count_check ds =
      equal_check (text "funding_verified_count") AuditCode.funding_count_mismatch
        (format_uint stored.response.funding_verified_count)
        (format_uint (length (verified_deposits ds)))
