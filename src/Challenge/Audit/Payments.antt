-- ===== src/Challenge/Audit/Payments.antt =====
-- The transfers in an audit: `auditChallengeTransfers` and `shouldHaveSettlementRequestState` of
-- cmd/wolochaind/cmd/settlement_challenge_audit.go.
pub mod Seen
use wolochain.Prelude.{
  ℕ, ◌+◌, Bool, true, false, not, ◌||◌, List, [], ◌∷◌, ◌++◌, Option, none, some, if◌then◌else◌,
  is_empty,
}
use wolochain.Text.{Text, text, text_eq, trim_space}
use wolochain.Config.{Config}
use wolochain.Responses.{LookupResponse, StoredResult}
use wolochain.Table.{request_key, find}
use wolochain.Node.{Node}
use wolochain.World.{File, unreadable, content, World, request_record_path}
use wolochain.Lookup.{lookup_tx}
use wolochain.Run.{PayoutResult, RunStoredResult}
use wolochain.Challenge.{NormalizedTransfer, TransferResult, ChallengeStoredResult}
use wolochain.Challenge.Finalize.{find_payout}
use wolochain.Challenge.Audit.{
  AuditCode, AuditCheck, AuditTransfer, audit_check, equal_check, line_name, first_filled,
  status_text,
}
use wolochain.Challenge.Audit.Mismatch.{counts_as_sent, audit_lookup_mismatch}

-- The transfer of the request under that id; of several, the last.
abbrev requested_transfer :
    Text → Option NormalizedTransfer → List NormalizedTransfer → Option NormalizedTransfer
requested_transfer id found [] = found
requested_transfer id found (t ∷ ts) =
    requested_transfer id (if text_eq t.request_id id then some t else found) ts

unfoldable pub should_have_request_state : TransferResult → Bool
should_have_request_state t = t.attempted || (not (is_empty t.tx_hash) || counts_as_sent t.status)

abbrev check_name : ℕ → Text → Text
check_name index after = line_name (text "transfer_") index after

-- The entry of a transfer with what was found wrong.
abbrev fail_entry : AuditTransfer → AuditCode → Text → AuditTransfer
fail_entry e why message = record e { passed = false; failure_code = why; detail = message }

abbrev request_entry : AuditTransfer → Option NormalizedTransfer → AuditTransfer
request_entry e none =
    fail_entry e AuditCode.transfer_state_mismatch
      (text "challenge transfer response has no matching normalized request line")
request_entry e (some request) = e

abbrev request_checks : ℕ → TransferResult → Option NormalizedTransfer → List AuditCheck
request_checks index t none =
    audit_check (check_name index (text "_request")) false AuditCode.transfer_state_mismatch
      (text "challenge transfer response has no matching normalized request line") t.request_id
      (text "missing")
    ∷ []
request_checks index t (some request) =
    equal_check (check_name index (text "_request_to")) AuditCode.transfer_state_mismatch
      request.to_address t.to_address
    ∷ equal_check (check_name index (text "_request_amount")) AuditCode.transfer_state_mismatch
        request.amount_uwolo t.amount_uwolo
    ∷ equal_check (check_name index (text "_request_bucket")) AuditCode.transfer_state_mismatch
        request.bucket t.bucket
    ∷ equal_check (check_name index (text "_request_reason")) AuditCode.transfer_state_mismatch
        request.reason t.reason
    ∷ []

abbrev payout_result_checks : ℕ → TransferResult → Option PayoutResult → List AuditCheck
payout_result_checks index t none = []
payout_result_checks index t (some p) =
    equal_check (check_name index (text "_run_status")) AuditCode.run_state_mismatch
      (status_text p.status) (status_text t.status)
    ∷ equal_check (check_name index (text "_run_tx_hash")) AuditCode.run_state_mismatch p.tx_hash
        t.tx_hash
    ∷ []

abbrev run_result_checks : ℕ → TransferResult → Option RunStoredResult → List AuditCheck
run_result_checks index t none = []
run_result_checks index t (some run) =
    payout_result_checks index t (find_payout t.request_id none run.response.payouts)

-- A transfer as it is audited: its entry, its checks, and whether its transaction was looked up.
pub record AuditedTransfer : Type 0 where
  pub entry : AuditTransfer
  pub checks : List AuditCheck
  pub looked_up : Bool

-- The transfer without its state file.
unfoldable pub stateless_transfer :
    ℕ → TransferResult → AuditTransfer → List AuditCheck → AuditedTransfer
stateless_transfer index t e before =
    let expected = should_have_request_state t in
    let message = text "stored single-transfer state was not found" in
    record {
      entry = if expected then fail_entry e AuditCode.transfer_state_missing message else e;
      checks =
          before
          ++ ((if expected
                then audit_check (check_name index (text "_state")) false
                    AuditCode.transfer_state_missing message e.state_path (text "missing")
                else audit_check (check_name index (text "_state")) true AuditCode.no_audit_failure
                    (text "single-transfer state is not required for this unattempted transfer") []
                    [])
              ∷ []);
      looked_up = false;
    }

-- A transfer without a transaction.
unfoldable pub hashless_transfer :
    ℕ → TransferResult → AuditTransfer → List AuditCheck → AuditedTransfer
hashless_transfer index t e before =
    let expected = counts_as_sent t.status in
    let message = text "executed transfer has no tx hash" in
    record {
      entry = if expected then fail_entry e AuditCode.transfer_tx_missing message else e;
      checks =
          before
          ++ (if expected
              then audit_check (check_name index (text "_tx")) false AuditCode.transfer_tx_missing
                  message (text "tx hash") (text "missing")
                ∷ []
              else []);
      looked_up = false;
    }

-- A transfer whose transaction was looked up.
unfoldable pub looked_up_transfer :
    ℕ → TransferResult → AuditTransfer → List AuditCheck → LookupResponse → AuditedTransfer
looked_up_transfer index t e before lookup =
    let mismatch = audit_lookup_mismatch lookup t.status t.memo in
    let same = is_empty mismatch in
    let seen : AuditTransfer = record e { tx_lookup = some lookup } in
    record {
      entry = if same then seen else fail_entry seen AuditCode.transfer_tx_mismatch mismatch;
      checks =
          before
          ++ (audit_check (check_name index (text "_tx")) same AuditCode.transfer_tx_mismatch
                (if same
                  then text "transfer tx reconciles with stored state and chain lookup"
                  else mismatch)
                t.tx_hash lookup.tx_hash
              ∷ []);
      looked_up = true;
    }

abbrev pub audit_entry : ℕ → TransferResult → Text → AuditTransfer
audit_entry index t path = record {
  index = index;
  request_id = t.request_id;
  bucket = t.bucket;
  reason = t.reason;
  status = t.status;
  outcome = t.outcome;
  passed = true;
  failure_code = AuditCode.no_audit_failure;
  detail = [];
  signer_address = t.signer_address;
  to_address = t.to_address;
  amount_uwolo = t.amount_uwolo;
  memo = t.memo;
  tx_hash = t.tx_hash;
  state_path = path;
  tx_lookup = none;
}

module _ {C : Type 0} (node : Node C) (cfg : Config) where
  abbrev state_checks : ℕ → TransferResult → Text → StoredResult → List AuditCheck
  state_checks index t path s =
      audit_check (check_name index (text "_state")) true AuditCode.no_audit_failure
        (text "stored single-transfer state exists") path path
      ∷ equal_check (check_name index (text "_state_fingerprint"))
          AuditCode.transfer_state_fingerprint_mismatch s.fingerprint
          (node.fingerprint s.request s.response.signer_address)
      ∷ equal_check (check_name index (text "_state_to")) AuditCode.transfer_state_mismatch
          s.request.to_address t.to_address
      ∷ equal_check (check_name index (text "_state_amount")) AuditCode.transfer_state_mismatch
          s.request.amount_uwolo t.amount_uwolo
      ∷ equal_check (check_name index (text "_state_memo")) AuditCode.transfer_state_mismatch
          s.request.memo t.memo
      ∷ equal_check (check_name index (text "_state_tx_hash")) AuditCode.transfer_state_mismatch
          s.response.tx_hash t.tx_hash
      ∷ []

  -- A transfer with its state file.
  unfoldable pub stored_transfer :
      ℕ → TransferResult → AuditTransfer → List AuditCheck → StoredResult → C → AuditedTransfer × C
  stored_transfer index t e before s c =
      let checks = before ++ state_checks index t e.state_path s in
      let (lookup, c') =
        lookup_tx node cfg t.tx_hash
          (record {
            sender = first_filled t.signer_address s.response.signer_address;
            recipient = t.to_address;
            amount_uwolo = t.amount_uwolo;
          })
          c in
      if is_empty (trim_space t.tx_hash)
      then (hashless_transfer index t e checks, c)
      else (looked_up_transfer index t e checks lookup, c')

  unfoldable pub audit_on_state :
      ℕ
      → TransferResult
      → AuditTransfer
      → List AuditCheck
      → Option (File StoredResult)
      → C
      → AuditedTransfer × C
  audit_on_state index t e before none c = (stateless_transfer index t e before, c)
  audit_on_state index t e before (some (unreadable message)) c =
      (stateless_transfer index t e before, c)
  audit_on_state index t e before (some (content s)) c = stored_transfer index t e before s c

  unfoldable pub audit_transfer :
      ChallengeStoredResult
      → Option RunStoredResult
      → World C
      → ℕ
      → TransferResult
      → C
      → AuditedTransfer × C
  audit_transfer stored run w index t c =
      let request = requested_transfer t.request_id none stored.request.transfers in
      let entry = audit_entry index t (request_record_path node cfg t.request_id) in
      audit_on_state index t (request_entry entry request)
        (request_checks index t request ++ run_result_checks index t run)
        (find (request_key t.request_id) w.requests) c

  -- `auditChallengeTransfers`
  unfoldable pub audit_transfers :
      ChallengeStoredResult
      → Option RunStoredResult
      → World C
      → ℕ
      → List TransferResult
      → C
      → List AuditedTransfer × C
  audit_transfers stored run w index [] c = ([], c)
  audit_transfers stored run w index (t ∷ ts) c =
      let (a, c') = audit_transfer stored run w index t c in
      let (rest, c'') = audit_transfers stored run w (index + 1) ts c' in (a ∷ rest, c'')

abbrev pub transfer_entries : List AuditedTransfer → List AuditTransfer
transfer_entries [] = []
transfer_entries (a ∷ rest) = a.entry ∷ transfer_entries rest

abbrev pub transfer_checks : List AuditedTransfer → List AuditCheck
transfer_checks [] = []
transfer_checks (a ∷ rest) = a.checks ++ transfer_checks rest

abbrev pub count_looked_up : List AuditedTransfer → ℕ
count_looked_up [] = 0
count_looked_up (a ∷ rest) = (if a.looked_up then 1 else 0) + count_looked_up rest
