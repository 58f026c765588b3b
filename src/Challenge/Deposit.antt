-- ===== src/Challenge/Deposit.antt =====
-- The verification of a deposit: `verifyChallengeFundingDeposit`,
-- `validateChallengeFundingExpectation` and `compareChallengeFundingExpectation` of
-- cmd/wolochaind/cmd/settlement_challenge.go.
pub mod Verified
use wolochain.Prelude.{
  ℕ, Bool, true, false, not, ◌&&◌, ◌||◌, List, [], ◌∷◌, ◌++◌, Option, none, some, ltb,
  if◌then◌else◌, is_empty,
}
use wolochain.Text.{Text, text, trim_space, equal_fold}
use wolochain.Decimal.{parse_uint}
use wolochain.Fallible.{Fallible, ok, fail, require, ◌>>=◌, ◌>>◌}
use wolochain.Codes.{FailureCode, is_no_failure}
use wolochain.Config.{Config}
use wolochain.Request.{is_wolo_address, matches_request_id, matches_source_event}
use wolochain.Responses.{Transfer, Kind, LookupResponse}
use wolochain.Node.{Node}
use wolochain.Probe.{quoted}
use wolochain.Lookup.{normalize_tx_hash, lookup_tx}
use wolochain.Challenge.{FundingExpectation, FundingResult, FundingVerification, blank_funding}
use wolochain.Challenge.Memo.{matches_side, optional_id, optional_run_id, parse_funding}

abbrev positive_text : Text → Bool
positive_text s = elim (parse_uint s) [ none ↦ false | some n ↦ ltb 0 n ]

-- An expected amount that is not blank is a positive number.
abbrev require_amount : Text → Text → Fallible (Unit {0})
require_amount field value =
    require (is_empty value || positive_text value) (field ++ text " must be a positive integer")

-- Go goes through the three amounts in no fixed order; here it is that of the literal.
unfoldable pub validate_expectation : FundingExpectation → Text → Fallible (Unit {0})
validate_expectation e prefix =
    let sender = trim_space e.sender in
    let side = trim_space e.participant_side in
    do
      require (is_empty sender || is_wolo_address sender prefix)
          (text "expected_sender must be a valid WOLO address")
      _ ← optional_id (text "source_app") (trim_space e.source_app) 64 matches_request_id
      _ ← optional_run_id (trim_space e.settlement_run_id)
      _ ← optional_id (text "challenge_id") (trim_space e.challenge_id) 128 matches_source_event
      _ ←
          optional_id (text "source_event_id") (trim_space e.source_event_id) 128
            matches_source_event
      require (is_empty side || matches_side side)
          (text "participant_side uses unsupported characters")
      _ ← optional_id (text "participant_id") (trim_space e.participant_id) 128 matches_source_event
      require_amount (text "expected_amount_uwolo") (trim_space e.total_funded_uwolo)
      require_amount (text "wager_uwolo") (trim_space e.wager_uwolo)
      require_amount (text "guarantee_uwolo") (trim_space e.guarantee_uwolo)

-- A field with the value that is expected and the one that is there.
pub record Check : Type 0 where
  pub field : Text
  pub expected : Text
  pub actual : Text

-- Whether an expectation that is not blank is met.
abbrev pub meets_check : Check → Bool
meets_check c =
    is_empty (trim_space c.expected) || equal_fold (trim_space c.expected) (trim_space c.actual)

abbrev mismatch : Check → Text
mismatch c =
    c.field
    ++ (b'=' ∷ quoted (trim_space c.expected)
        ++ (text " does not match the verified challenge funding value " ++ quoted c.actual))

-- The first check that is not met.
abbrev pub first_mismatch : List Check → Text
first_mismatch [] = []
first_mismatch (c ∷ cs) = let rest = first_mismatch cs in if meets_check c then rest else mismatch c

abbrev pub checks : FundingResult → FundingExpectation → List Check
checks r e =
    record { field = text "source_app"; expected = e.source_app; actual = r.source_app }
    ∷ record {
      field = text "settlement_run_id";
      expected = e.settlement_run_id;
      actual = r.settlement_run_id;
    }
    ∷ record { field = text "challenge_id"; expected = e.challenge_id; actual = r.challenge_id }
    ∷ record {
      field = text "source_event_id";
      expected = e.source_event_id;
      actual = r.source_event_id;
    }
    ∷ record {
      field = text "participant_side";
      expected = e.participant_side;
      actual = r.participant_side;
    }
    ∷ record {
      field = text "participant_id";
      expected = e.participant_id;
      actual = r.participant_id;
    }
    ∷ record { field = text "expected_sender"; expected = e.sender; actual = r.sender }
    ∷ record {
      field = text "expected_amount_uwolo";
      expected = e.total_funded_uwolo;
      actual = r.total_funded_uwolo;
    }
    ∷ record { field = text "wager_uwolo"; expected = e.wager_uwolo; actual = r.wager_uwolo }
    ∷ record {
      field = text "guarantee_uwolo";
      expected = e.guarantee_uwolo;
      actual = r.guarantee_uwolo;
    }
    ∷ []

unfoldable pub compare_funding : FundingResult → FundingExpectation → Text
compare_funding r e = first_mismatch (checks r e)

abbrev is_escrow_kind : Kind → Bool
is_escrow_kind Kind.escrow_deposit = true
is_escrow_kind _ = false

-- `firstNonEmpty` of two failure codes
abbrev pub code_or : FailureCode → FailureCode → FailureCode
code_or a b = if is_no_failure a then b else a

-- The answer that names a failure, in the deposit too.
abbrev pub refuse_deposit :
    Option LookupResponse → FundingResult → FailureCode → Text → FundingVerification
refuse_deposit lookup r why message = record {
  succeeded = false;
  failure_code = why;
  detail = message;
  funding = some (record r { succeeded = false; failure_code = why; detail = message });
  lookup = lookup;
}

abbrev accept_deposit : LookupResponse → FundingResult → FundingVerification
accept_deposit lookup r = record {
  succeeded = true;
  failure_code = FailureCode.no_failure;
  detail = text "challenge funding deposit verified";
  funding =
      some (record r { succeeded = true; detail = text "challenge funding deposit verified" });
  lookup = some lookup;
}

abbrev with_proof_links : LookupResponse → FundingResult → FundingResult
with_proof_links lookup r = record r {
  deposit_found = true;
  canonical_tx_lookup = lookup.canonical_tx_lookup;
  canonical_tx_lookup_preferred = lookup.canonical_tx_lookup_preferred;
  canonical_tx_lookup_internal = lookup.canonical_tx_lookup_internal;
  canonical_tx_lookup_public = lookup.canonical_tx_lookup_public;
}

-- The deposit that was read, against what is expected of it.
unfoldable pub deposit_on_memo :
    FundingResult
    → LookupResponse
    → FundingExpectation
    → Fallible FundingResult
    → FundingVerification
deposit_on_memo r lookup e (fail message) =
    refuse_deposit (some lookup) (with_proof_links lookup r)
      FailureCode.invalid_challenge_funding_memo message
deposit_on_memo r lookup e (ok parsed) =
    let message = compare_funding parsed e in
    if is_empty message
    then accept_deposit lookup parsed
    else refuse_deposit (some lookup) parsed FailureCode.challenge_funding_mismatch message

module _ (cfg : Config) where
  unfoldable pub deposit_on_transfer :
      FundingResult → LookupResponse → FundingExpectation → Option Transfer → FundingVerification
  deposit_on_transfer r lookup e none =
      refuse_deposit (some lookup) (record r { deposit_found = true })
        FailureCode.challenge_funding_mismatch
        (text
          "tx reached escrow but no matching WOLO transfer was found for the expected challenge funding amount")
  deposit_on_transfer r lookup e (some transfer) =
      deposit_on_memo r lookup e (parse_funding transfer lookup cfg.escrow_address)

  -- The deposit once the transaction was looked up.
  unfoldable pub deposit_on_lookup :
      FundingResult → FundingExpectation → LookupResponse → FundingVerification
  deposit_on_lookup r e lookup =
      if not lookup.succeeded
      then refuse_deposit (some lookup) r (code_or lookup.failure_code FailureCode.lookup_failed)
          lookup.detail
      else if not lookup.found
      then refuse_deposit (some lookup) r FailureCode.tx_not_found
          (text "tx hash not found on WoloChain REST")
      else if not (is_escrow_kind lookup.kind)
      then refuse_deposit (some lookup) r FailureCode.not_escrow_deposit
          (text "tx did not deliver a WOLO transfer into the configured escrow address")
      else deposit_on_transfer r lookup e lookup.matched_transfer

  -- The deposit before anything is known of it.
  abbrev pub raw_deposit : Text → FundingResult
  raw_deposit tx_hash = record blank_funding {
    funding_tx_hash = normalize_tx_hash tx_hash;
    escrow_address = trim_space cfg.escrow_address;
  }

module _ {C : Type 0} (node : Node C) (cfg : Config) where
  -- The error of the code's result is that of the lookup, which is always nil.
  unfoldable pub verify_deposit : Text → FundingExpectation → C → FundingVerification × C
  verify_deposit tx_hash e c =
      let (lookup, c') =
        lookup_tx node cfg tx_hash
          (record {
            sender = trim_space e.sender;
            recipient = cfg.escrow_address;
            amount_uwolo = trim_space e.total_funded_uwolo;
          })
          c in
      let answer = deposit_on_lookup cfg (raw_deposit cfg tx_hash) e lookup in
      if is_empty (trim_space cfg.escrow_address)
      then (
        refuse_deposit none (raw_deposit cfg tx_hash) FailureCode.escrow_unconfigured (
            text
              "WOLO_SETTLEMENT_ESCROW_ADDRESS must be set before challenge funding verification can be used"),
        c,
      )
      else elim (validate_expectation e cfg.address_prefix) [
        | fail message ↦
            (refuse_deposit none (raw_deposit cfg tx_hash) FailureCode.invalid_challenge message, c)
        | ok _ ↦ (answer, c')
      ]
