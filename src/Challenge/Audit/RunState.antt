-- ===== src/Challenge/Audit/RunState.antt =====
-- The run of a challenge in an audit: `auditChallengeRunState` of
-- cmd/wolochaind/cmd/settlement_challenge_audit.go.
use wolochain.Prelude.{
  true, false, ◌||◌, List, [], ◌∷◌, ◌++◌, Option, none, some, if◌then◌else◌, is_empty,
}
use wolochain.Text.{Text, text, text_eq}
use wolochain.Fallible.{Fallible, ok, fail}
use wolochain.Codes.{is_failed}
use wolochain.Config.{Config}
use wolochain.Table.{run_key, find}
use wolochain.Node.{Node}
use wolochain.World.{File, unreadable, content, World, run_record_path}
use wolochain.Run.{NormalizedPayout, RunResponse, RunStoredResult}
use wolochain.Challenge.{NormalizedTransfer, ChallengeStoredResult}
use wolochain.Challenge.Audit.{
  AuditCode, AuditCheck, audit_check, equal_check, line_name, status_text,
}

-- The payout of a run under that id; of several, the last.
abbrev requested_payout :
    Text → Option NormalizedPayout → List NormalizedPayout → Option NormalizedPayout
requested_payout id found [] = found
requested_payout id found (p ∷ ps) =
    requested_payout id (if text_eq p.request_id id then some p else found) ps

-- A transfer of the challenge against the payout of the run.
unfoldable pub payout_checks : NormalizedTransfer → Option NormalizedPayout → List AuditCheck
payout_checks t none =
    audit_check (line_name (text "transfer_") t.index (text "_grouped_run_request")) false
      AuditCode.run_state_mismatch
      (text "challenge transfer request is missing from grouped run state") t.request_id
      (text "missing")
    ∷ []
payout_checks t (some p) =
    equal_check (line_name (text "transfer_") t.index (text "_grouped_run_to"))
      AuditCode.run_state_mismatch t.to_address p.to_address
    ∷ equal_check (line_name (text "transfer_") t.index (text "_grouped_run_amount"))
        AuditCode.run_state_mismatch t.amount_uwolo p.amount_uwolo
    ∷ equal_check (line_name (text "transfer_") t.index (text "_grouped_run_memo"))
        AuditCode.run_state_mismatch t.memo p.memo
    ∷ []

unfoldable pub run_transfer_checks :
    List NormalizedPayout → List NormalizedTransfer → List AuditCheck
run_transfer_checks payouts [] = []
run_transfer_checks payouts (t ∷ ts) =
    payout_checks t (requested_payout t.request_id none payouts) ++ run_transfer_checks payouts ts

abbrev run_missing : Text → Text → AuditCheck
run_missing message expected =
    audit_check (text "grouped_run_state") false AuditCode.run_state_missing message expected
      (text "missing")

module _ {C : Type 0} (node : Node C) (cfg : Config) where
  -- The stored run against the one in the challenge's response.
  unfoldable pub stored_run_checks :
      Text → ChallengeStoredResult → RunResponse → RunStoredResult → List AuditCheck
  stored_run_checks path stored run r =
      audit_check (text "grouped_run_state") true AuditCode.no_audit_failure
        (text "stored grouped run state exists") path path
      ∷ equal_check (text "grouped_run_fingerprint") AuditCode.run_state_fingerprint_mismatch
          r.fingerprint (node.run_fingerprint r.request)
      ∷ equal_check (text "grouped_run_id") AuditCode.run_state_mismatch r.request.settlement_run_id
          stored.request.settlement_run_id
      ∷ equal_check (text "grouped_run_status") AuditCode.run_state_mismatch
          (status_text r.response.status) (status_text run.status)
      ∷ equal_check (text "grouped_run_requested_total") AuditCode.run_state_mismatch
          r.response.requested_total_uwolo run.requested_total_uwolo
      ∷ equal_check (text "grouped_run_confirmed_total") AuditCode.run_state_mismatch
          r.response.confirmed_total_uwolo run.confirmed_total_uwolo
      ∷ run_transfer_checks r.request.payouts stored.request.transfers

  abbrev audit_run_file :
      Text
      → ChallengeStoredResult
      → RunResponse
      → Option (File RunStoredResult)
      → Fallible (Option RunStoredResult × List AuditCheck)
  audit_run_file path stored run none =
      ok (none, run_missing (text "stored grouped run state was not found") path ∷ [])
  audit_run_file path stored run (some (unreadable e)) = fail e
  audit_run_file path stored run (some (content r)) =
      ok (some r, stored_run_checks path stored run r)

  abbrev audit_run :
      ChallengeStoredResult
      → World C
      → Option RunResponse
      → Fallible (Option RunStoredResult × List AuditCheck)
  audit_run stored w none =
      if is_empty stored.response.transfers || is_failed stored.response.status
      then ok (
        none,
        audit_check (text "grouped_run_state") true AuditCode.no_audit_failure
              (text "no grouped run is expected for this stored failed challenge state") [] []
            ∷ [],
      )
      else ok (
        none,
        run_missing (text "stored challenge response has transfers but no embedded grouped run")
              stored.request.settlement_run_id
            ∷ [],
      )
  audit_run stored w (some run) =
      audit_run_file (run_record_path node cfg stored.request.settlement_run_id) stored run
        (find (run_key stored.request.settlement_run_id) w.runs)

  -- `auditChallengeRunState`
  unfoldable pub audit_run_state :
      ChallengeStoredResult → World C → Fallible (Option RunStoredResult × List AuditCheck)
  audit_run_state stored w = audit_run stored w stored.response.run
