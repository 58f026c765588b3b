-- ===== src/Challenge/Audit/TopUp.antt =====
-- The top-up in an audit: `auditChallengeTopUp` of cmd/wolochaind/cmd/settlement_challenge_audit.go.
use wolochain.Prelude.{
  true, false, not, List, [], ◌∷◌, ◌++◌, Option, none, some, if◌then◌else◌, is_empty, take,
}
use wolochain.Text.{Text, text, trim_space}
use wolochain.Fallible.{Fallible, ok, fail}
use wolochain.Config.{Config}
use wolochain.Responses.{ExecuteResponse, LookupResponse, StoredResult}
use wolochain.Table.{request_key, find}
use wolochain.Node.{Node}
use wolochain.World.{File, unreadable, content, World, request_record_path}
use wolochain.Lookup.{lookup_tx}
use wolochain.Challenge.{TopUpResult, ChallengeStoredResult}
use wolochain.Challenge.Audit.{
  AuditCode, AuditCheck, AuditTopUp, audit_check, equal_check, first_filled,
}
use wolochain.Challenge.Audit.Mismatch.{audit_lookup_mismatch}

-- What `auditChallengeTopUp` returns: the entry of the top-up, if one was planned, and the checks.
abbrev pub AuditedTopUp : Type 0
AuditedTopUp = Option AuditTopUp × List AuditCheck

abbrev top_up_entry : TopUpResult → Text → AuditTopUp
top_up_entry p path = record {
  required = p.required;
  passed = true;
  failure_code = AuditCode.no_audit_failure;
  detail = [];
  request_id = p.request_id;
  from_address = p.from_address;
  to_address = p.to_address;
  amount_uwolo = p.amount_uwolo;
  tx_hash = [];
  state_path = path;
  tx_lookup = none;
}

-- The top-up with what was found wrong, and the check that says so.
abbrev failed_top_up :
    AuditTopUp → List AuditCheck → Text → AuditCode → Text → Text → Text → AuditedTopUp
failed_top_up e before name why message expected actual = (
  some (record e { passed = false; failure_code = why; detail = message }),
  before ++ (audit_check name false why message expected actual ∷ []),
)

-- The memo that the top-up of a challenge was sent with.
unfoldable pub audit_top_up_memo : Text → Text
audit_top_up_memo run_id = take 180 (text "challenge top-up " ++ run_id)

-- The top-up whose transaction was looked up.
unfoldable pub looked_up_top_up :
    AuditTopUp → List AuditCheck → ExecuteResponse → Text → LookupResponse → AuditedTopUp
looked_up_top_up e before response memo lookup =
    let mismatch = audit_lookup_mismatch lookup response.status memo in
    let seen : AuditTopUp = record e { tx_lookup = some lookup } in
    if is_empty mismatch
    then (
      some seen,
      before
          ++ (audit_check (text "top_up_tx") true AuditCode.no_audit_failure
                (text "top-up tx reconciles with stored state and chain lookup") response.tx_hash
                lookup.tx_hash
              ∷ []),
    )
    else failed_top_up seen before (text "top_up_tx") AuditCode.top_up_tx_mismatch mismatch
        response.tx_hash lookup.tx_hash

module _ {C : Type 0} (node : Node C) (cfg : Config) where
  abbrev top_up_state_checks : Text → ExecuteResponse → StoredResult → List AuditCheck
  top_up_state_checks path response s =
      audit_check (text "top_up_transfer_state") true AuditCode.no_audit_failure
        (text "stored top-up transfer state exists") path path
      ∷ equal_check (text "top_up_state_fingerprint") AuditCode.top_up_state_fingerprint_mismatch
          s.fingerprint (node.fingerprint s.request s.response.signer_address)
      ∷ equal_check (text "top_up_state_tx_hash") AuditCode.top_up_state_mismatch s.response.tx_hash
          response.tx_hash
      ∷ []

  -- The top-up with its state file.
  unfoldable pub stored_top_up :
      ChallengeStoredResult
      → TopUpResult
      → ExecuteResponse
      → AuditTopUp
      → List AuditCheck
      → C
      → AuditedTopUp × C
  stored_top_up stored p response e before c =
      let (lookup, c') =
        lookup_tx node cfg response.tx_hash
          (record {
            sender = first_filled p.from_address response.signer_address;
            recipient = p.to_address;
            amount_uwolo = p.amount_uwolo;
          })
          c in
      if is_empty (trim_space response.tx_hash)
      then (
        failed_top_up e before (text "top_up_tx") AuditCode.top_up_tx_missing
            (text "executed top-up has no tx hash") (text "tx hash") (text "missing"),
        c,
      )
      else (
        looked_up_top_up e before response (audit_top_up_memo stored.request.settlement_run_id)
            lookup,
        c',
      )

  unfoldable pub top_up_on_state :
      ChallengeStoredResult
      → TopUpResult
      → ExecuteResponse
      → AuditTopUp
      → List AuditCheck
      → Option (File StoredResult)
      → C
      → Fallible AuditedTopUp × C
  top_up_on_state stored p response e before none c = (
    ok (
        failed_top_up e before (text "top_up_transfer_state") AuditCode.top_up_state_missing
          (text "stored top-up transfer state was not found") e.state_path (text "missing")),
    c,
  )
  top_up_on_state stored p response e before (some (unreadable message)) c = (fail message, c)
  top_up_on_state stored p response e before (some (content s)) c =
      let (audited, c') =
        stored_top_up stored p response e (before ++ top_up_state_checks e.state_path response s)
          c in
      (ok audited, c')

  -- A required top-up, with the answer that the challenge has stored of it.
  unfoldable pub top_up_on_response :
      ChallengeStoredResult
      → World C
      → TopUpResult
      → AuditTopUp
      → List AuditCheck
      → Option ExecuteResponse
      → C
      → Fallible AuditedTopUp × C
  top_up_on_response stored w p e before none c = (
    ok (
        failed_top_up e before (text "top_up_response") AuditCode.top_up_state_missing
          (text "top-up was required but no execution response was stored") (text "top-up response")
          (text "missing")),
    c,
  )
  top_up_on_response stored w p e before (some response) c =
      top_up_on_state stored p response (record e { tx_hash = response.tx_hash })
        (before
          ++ (equal_check (text "top_up_response_amount") AuditCode.top_up_state_mismatch
                p.amount_uwolo response.amount_uwolo
              ∷ equal_check (text "top_up_response_to") AuditCode.top_up_state_mismatch p.to_address
                  response.to_address
              ∷ []))
        (find (request_key p.request_id) w.requests) c

  unfoldable pub audit_planned_top_up :
      ChallengeStoredResult → World C → Option TopUpResult → C → Fallible AuditedTopUp × C
  audit_planned_top_up stored w none c = (
    ok (
      none,
      audit_check (text "top_up_state") true AuditCode.no_audit_failure
            (text "no top-up was planned for this challenge settlement") [] []
          ∷ [],
    ),
    c,
  )
  audit_planned_top_up stored w (some p) c =
      let e = top_up_entry p (request_record_path node cfg p.request_id) in
      let present =
        audit_check (text "top_up_state") true AuditCode.no_audit_failure
          (text "top-up plan is present in challenge state") p.request_id p.request_id in
      let needed = top_up_on_response stored w p e (present ∷ []) p.response c in
      if not p.required then (ok (some e, present ∷ []), c) else needed

  -- `auditChallengeTopUp`
  unfoldable pub audit_top_up : ChallengeStoredResult → World C → C → Fallible AuditedTopUp × C
  audit_top_up stored w c = audit_planned_top_up stored w stored.response.top_up c
