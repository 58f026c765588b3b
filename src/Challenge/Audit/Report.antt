-- ===== src/Challenge/Audit/Report.antt =====
-- The audit of a challenge: `auditSettlementChallenge` of
-- cmd/wolochaind/cmd/settlement_challenge_audit.go.
use wolochain.Prelude.{
  Bool, true, false, List, [], ◌∷◌, ◌++◌, Option, none, some, if◌then◌else◌, is_empty, length,
}
use wolochain.Text.{Text, text, trim_space}
use wolochain.Decimal.{format_uint}
use wolochain.Fallible.{Fallible, ok, fail}
use wolochain.Codes.{Status, FailureCode}
use wolochain.Config.{Config}
use wolochain.Table.{challenge_key, find}
use wolochain.Node.{Node}
use wolochain.World.{
  File, unreadable, content, World, Action, set_env, run_record_path, challenge_record_path,
}
use wolochain.Run.{RunStoredResult}
use wolochain.Challenge.{
  FundingResult, NormalizedTransfer, TopUpResult, ChallengeStoredResult, wager_bucket,
  guarantee_bucket,
}
use wolochain.Challenge.Audit.{
  AuditCode, AuditCheck, AuditSummary, AuditTopUp, AuditResponse, audit_check, equal_check,
  checks_pass, first_audit_code, first_audit_detail,
}
use wolochain.Challenge.Audit.Deposits.{
  AuditedDeposit, verified_deposits, deposit_entries, deposit_checks, deposit_total,
  deposit_count_check, audit_deposits,
}
use wolochain.Challenge.Audit.Allocation.{
  audit_total, audit_allocation, audited_bucket, in_bucket, to_treasury,
}
use wolochain.Challenge.Audit.RunState.{audit_run_state}
use wolochain.Challenge.Audit.Payments.{
  AuditedTransfer, audit_transfers, transfer_entries, transfer_checks, count_looked_up,
}
use wolochain.Challenge.Audit.TopUp.{AuditedTopUp, audit_top_up}

-- `settlementChallengeAuditSummary{}`
abbrev blank_summary : AuditSummary
blank_summary = record {
  source_app = [];
  challenge_id = [];
  source_event_id = [];
  treasury_address = [];
  funding_count = 0;
  funding_verified_count = 0;
  funding_total_uwolo = [];
  wager_funded_uwolo = [];
  guarantee_funded_uwolo = [];
  requested_transfer_count = 0;
  transfer_tx_checked_count = 0;
  requested_total_uwolo = [];
  wager_transfer_uwolo = [];
  guarantee_transfer_uwolo = [];
  treasury_transfer_uwolo = [];
  top_up_required = false;
  top_up_amount_uwolo = [];
  top_up_tx_checked = false;
  stored_status = Status.no_status;
  stored_failure_code = FailureCode.no_failure;
  stored_confirmed_total_uwolo = [];
}

-- The report where no state file stands under the id.
abbrev pub missing_report : Text → Text → AuditResponse
missing_report id path =
    let message = text "stored challenge settlement state was not found" in
    record {
      passed = false;
      failure_code = AuditCode.challenge_state_not_found;
      detail = message;
      settlement_run_id = id;
      challenge_path = path;
      run_path = [];
      summary = blank_summary;
      checks =
          record {
            name = text "challenge_state_exists";
            passed = false;
            failure_code = AuditCode.challenge_state_not_found;
            detail = message;
            expected = path;
            actual = text "missing";
          }
          ∷ [];
      funding = [];
      transfers = [];
      top_up = none;
    }

abbrev is_required : Option TopUpResult → Bool
is_required none = false
is_required (some p) = p.required

abbrev audited_amount : Option AuditTopUp → Text
audited_amount none = []
audited_amount (some e) = e.amount_uwolo

abbrev tx_checked : Option AuditTopUp → Bool
tx_checked none = false
tx_checked (some e) = elim e.tx_lookup [ none ↦ false | some lookup ↦ true ]

-- A total of the transfers of the request that a test keeps.
abbrev moved : ChallengeStoredResult → List FundingResult → (NormalizedTransfer → Bool) → Text
moved stored deposits keeps =
    format_uint
      (audit_total stored.request.treasury_address deposits keeps 0 stored.request.transfers)

-- A total of the deposits that were verified.
abbrev funded : (FundingResult → Text) → List FundingResult → Text
funded amount deposits = format_uint (deposit_total amount 0 deposits)

abbrev audit_summary :
    ChallengeStoredResult
    → List FundingResult
    → List AuditedTransfer
    → Option AuditTopUp
    → AuditSummary
audit_summary stored deposits transfers top_up = record {
  source_app = stored.request.source_app;
  challenge_id = stored.request.challenge_id;
  source_event_id = stored.request.source_event_id;
  treasury_address = stored.request.treasury_address;
  funding_count = length stored.request.funding;
  funding_verified_count = length deposits;
  funding_total_uwolo = funded (λ r. r.total_funded_uwolo) deposits;
  wager_funded_uwolo = funded (λ r. r.wager_uwolo) deposits;
  guarantee_funded_uwolo = funded (λ r. r.guarantee_uwolo) deposits;
  requested_transfer_count = length stored.request.transfers;
  transfer_tx_checked_count = count_looked_up transfers;
  requested_total_uwolo = moved stored deposits (λ t. true);
  wager_transfer_uwolo = moved stored deposits (in_bucket wager_bucket);
  guarantee_transfer_uwolo = moved stored deposits (in_bucket guarantee_bucket);
  treasury_transfer_uwolo = moved stored deposits to_treasury;
  top_up_required = is_required stored.response.top_up;
  top_up_amount_uwolo = audited_amount top_up;
  top_up_tx_checked = tx_checked top_up;
  stored_status = stored.response.status;
  stored_failure_code = stored.response.failure_code;
  stored_confirmed_total_uwolo = stored.response.confirmed_total_uwolo;
}

module _ {C : Type 0} (node : Node C) (cfg : Config) where
  -- The checks of the state file itself.
  unfoldable pub record_checks : Text → ChallengeStoredResult → List AuditCheck
  record_checks path stored =
      audit_check (text "challenge_state_exists") true AuditCode.no_audit_failure
        (text "stored challenge settlement state exists") path path
      ∷ equal_check (text "challenge_state_fingerprint")
          AuditCode.challenge_state_fingerprint_mismatch stored.fingerprint
          (node.challenge_fingerprint stored.request)
      ∷ equal_check (text "challenge_response_settlement_id") AuditCode.challenge_state_mismatch
          stored.response.settlement_run_id stored.request.settlement_run_id
      ∷ equal_check (text "challenge_response_source_app") AuditCode.challenge_state_mismatch
          stored.response.source_app stored.request.source_app
      ∷ equal_check (text "challenge_response_challenge_id") AuditCode.challenge_state_mismatch
          stored.response.challenge_id stored.request.challenge_id
      ∷ equal_check (text "challenge_response_source_event_id") AuditCode.challenge_state_mismatch
          stored.response.source_event_id stored.request.source_event_id
      ∷ equal_check (text "challenge_response_funding_count") AuditCode.funding_count_mismatch
          (format_uint (length stored.request.funding))
          (format_uint (length stored.response.funding))
      ∷ equal_check (text "challenge_response_transfer_count") AuditCode.transfer_state_mismatch
          (format_uint (length stored.request.transfers))
          (format_uint (length stored.response.transfers))
      ∷ []

  -- The checks of the totals of the request.
  abbrev pub total_checks : ChallengeStoredResult → List FundingResult → List AuditCheck
  total_checks stored deposits =
      equal_check (text "requested_total") AuditCode.requested_total_mismatch
        stored.response.requested_total_uwolo (moved stored deposits (λ t. true))
      ∷ equal_check (text "wager_bucket_total") AuditCode.bucket_total_mismatch
          (audited_bucket wager_bucket stored.response.bucket_totals)
          (moved stored deposits (in_bucket wager_bucket))
      ∷ equal_check (text "guarantee_bucket_total") AuditCode.bucket_total_mismatch
          (audited_bucket guarantee_bucket stored.response.bucket_totals)
          (moved stored deposits (in_bucket guarantee_bucket))
      ∷ []

  -- All checks, in the order of the code.
  unfoldable pub audit_checks :
      Text
      → ChallengeStoredResult
      → List AuditedDeposit
      → List AuditCheck
      → List AuditedTransfer
      → List AuditCheck
      → List AuditCheck
  audit_checks path stored ds run_checks transfers top_up_checks =
      let deposits = verified_deposits ds in
      record_checks path stored
      ++ (deposit_checks ds
          ++ (deposit_count_check node cfg stored ds
              ∷ equal_check (text "funding_total") AuditCode.funding_total_mismatch
                  stored.response.funding_total_uwolo (funded (λ r. r.total_funded_uwolo) deposits)
              ∷ (audit_allocation stored.request.treasury_address deposits stored.request.transfers
                  ++ (total_checks stored deposits
                      ++ (run_checks ++ (transfer_checks transfers ++ top_up_checks))))))

  unfoldable pub audit_report :
      Text
      → ChallengeStoredResult
      → List AuditedDeposit
      → Option RunStoredResult × List AuditCheck
      → List AuditedTransfer
      → AuditedTopUp
      → AuditResponse
  audit_report id stored ds (run, run_checks) transfers (top_up, top_up_checks) =
      let path = challenge_record_path node cfg id in
      let checks = audit_checks path stored ds run_checks transfers top_up_checks in
      let fine = checks_pass checks in
      record {
        passed = fine;
        failure_code = if fine then AuditCode.no_audit_failure else first_audit_code checks;
        detail =
            if fine
            then text
                "challenge settlement state reconciles with funding, payout, top-up, and grouped run proofs"
            else first_audit_detail checks;
        settlement_run_id = id;
        challenge_path = path;
        run_path = elim run [
          | none ↦ []
          | some r ↦ run_record_path node cfg stored.request.settlement_run_id
        ];
        summary = audit_summary stored (verified_deposits ds) transfers top_up;
        checks = checks;
        funding = deposit_entries ds;
        transfers = transfer_entries transfers;
        top_up = top_up;
      }

  unfoldable pub audit_on_top_up :
      Text
      → ChallengeStoredResult
      → List AuditedDeposit
      → Option RunStoredResult × List AuditCheck
      → List AuditedTransfer
      → Fallible AuditedTopUp
      → Fallible AuditResponse
  audit_on_top_up id stored ds run transfers (fail e) = fail e
  audit_on_top_up id stored ds run transfers (ok top_up) =
      ok (audit_report id stored ds run transfers top_up)

  -- The audit once the run's state file was read.
  unfoldable pub audit_on_run :
      Text
      → ChallengeStoredResult
      → World C
      → List AuditedDeposit
      → Fallible (Option RunStoredResult × List AuditCheck)
      → C
      → Fallible AuditResponse × C
  audit_on_run id stored w ds (fail e) c = (fail e, c)
  audit_on_run id stored w ds (ok run) c =
      let (transfers, c₁) = audit_transfers node cfg stored run.0 w 0 stored.response.transfers c in
      let (top_up, c₂) = audit_top_up node cfg stored w c₁ in
      (audit_on_top_up id stored ds run transfers top_up, c₂)

  unfoldable pub audit_stored :
      Text → World C → Option (File ChallengeStoredResult) → Fallible AuditResponse × C
  audit_stored id w none = (ok (missing_report id (challenge_record_path node cfg id)), w.env)
  audit_stored id w (some (unreadable e)) = (fail e, w.env)
  audit_stored id w (some (content stored)) =
      let (ds, c) =
        audit_deposits node cfg stored 0 stored.request.funding stored.response.funding w.env in
      audit_on_run id stored w ds (audit_run_state node cfg stored w) c

  -- `auditSettlementChallenge`: the state files and the locks stay as they are.
  unfoldable pub audit_challenge : Text → Action C AuditResponse
  audit_challenge id w =
      let run_id = trim_space id in
      let (report, c) = audit_stored run_id w (find (challenge_key run_id) w.challenges) in
      if is_empty run_id
      then (fail (text "settlement id is required"), w)
      else (report, set_env w c)
