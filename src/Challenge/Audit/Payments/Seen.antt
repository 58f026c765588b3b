-- ===== src/Challenge/Audit/Payments/Seen.antt =====
-- About `auditChallengeTransfers` of cmd/wolochaind/cmd/settlement_challenge_audit.go.
use wolochain.Prelude.{
  ℕ, ◌+◌, ◌≡◌, refl, true, false, List, [], ◌∷◌, ◌++◌, Option, none, some, arith, is_empty,
  if◌then◌else◌, Bool-cases, inl, inr,
}
use wolochain.Text.{Text, trim_space}
use wolochain.Config.{Config}
use wolochain.Responses.{Transfer, LookupResponse, StoredResult}
use wolochain.Transfers.{Expectations, meets}
use wolochain.Lookup.{lookup_tx}
use wolochain.Lookup.Matched.{lookup_tx-meets}
use wolochain.Node.{Node}
use wolochain.World.{File, unreadable, content, World, request_record_path}
use wolochain.Table.{request_key, find}
use wolochain.Run.{RunStoredResult}
use wolochain.Challenge.{NormalizedTransfer, TransferResult, ChallengeStoredResult}
use wolochain.Challenge.Audit.{AuditCheck, AuditTransfer, audit_check, checks_pass}
use wolochain.Challenge.Audit.Checks.{checks_pass-split, checks_pass-++}
use wolochain.Challenge.Audit.Borne.{BearsOut, audit_lookup_mismatch-BearsOut}
use wolochain.Challenge.Audit.Mismatch.{counts_as_sent}
use wolochain.Challenge.Audit.Payments.{
  requested_transfer, should_have_request_state, request_entry, request_checks, run_result_checks,
  state_checks, stateless_transfer, hashless_transfer, looked_up_transfer, audit_entry,
  stored_transfer, audit_on_state, audit_transfer, audit_transfers, transfer_entries,
  transfer_checks,
}

-- An audited transfer that passes: where it was sent, a lookup bears it out, and
-- `Found` says where the lookup comes from.
pub record IsSeen (Found : LookupResponse → Type 0) (t : TransferResult) (e : AuditTransfer)
    : Type 0 where
  pub passed : e.passed ≡ true
  pub same_hash : e.tx_hash ≡ t.tx_hash
  pub seen :
      counts_as_sent t.status ≡ true
      → (l : LookupResponse) × (e.tx_lookup ≡ some l) × BearsOut l t.memo × Found l

-- The entry of a transfer that was found in the request.
record StartsWell (t : TransferResult) (e : AuditTransfer) : Type 0 where
  passed : e.passed ≡ true
  same_hash : e.tx_hash ≡ t.tx_hash

unsent_unless_expected :
    (t : TransferResult) → should_have_request_state t ≡ false → counts_as_sent t.status ≡ false
unfolding should_have_request_state
unsent_unless_expected t h = ground arith

-- The last check of a list that passes.
last_passes :
    (before : List AuditCheck) (c : AuditCheck)
    → checks_pass (before ++ (c ∷ [])) ≡ true
    → c.passed ≡ true
last_passes before c h = (checks_pass-split c [] (checks_pass-++ before (c ∷ []) h).1).0

stateless_transfer-IsSeen :
    (Found : LookupResponse → Type 0) (index : ℕ) (t : TransferResult) (e : AuditTransfer)
    (before : List AuditCheck)
    → StartsWell t e
    → checks_pass (stateless_transfer index t e before).checks ≡ true
    → IsSeen Found t (stateless_transfer index t e before).entry
unfolding stateless_transfer audit_check
stateless_transfer-IsSeen Found index t e before start h =
    let last = last_passes before _ h in
    elim (Bool-cases (should_have_request_state t)) [
      | inl expected ↦ absurd (ground arith)
      | inr idle ↦
          (let unsent = unsent_unless_expected t idle in
            rw (idle, stateless_transfer)
              (record {
                passed = start.passed;
                same_hash = start.same_hash;
                seen = λ sent. absurd (ground arith);
              }))
    ]

hashless_transfer-IsSeen :
    (Found : LookupResponse → Type 0) (index : ℕ) (t : TransferResult) (e : AuditTransfer)
    (before : List AuditCheck)
    → StartsWell t e
    → checks_pass (hashless_transfer index t e before).checks ≡ true
    → IsSeen Found t (hashless_transfer index t e before).entry
unfolding hashless_transfer audit_check
hashless_transfer-IsSeen Found index t e before start h =
    elim (Bool-cases (counts_as_sent t.status)) [
      | inl sent ↦
          (let last = last_passes before _ (rw (sent, hashless_transfer) at h) in
            absurd (ground arith))
      | inr unsent ↦
          rw (unsent, hashless_transfer)
            (record {
              passed = start.passed;
              same_hash = start.same_hash;
              seen = λ sent. absurd (ground arith);
            })
    ]

looked_up_transfer-IsSeen :
    (Found : LookupResponse → Type 0) (index : ℕ) (t : TransferResult) (e : AuditTransfer)
    (before : List AuditCheck) (l : LookupResponse)
    → (l.matched_expected ≡ true → Found l)
    → StartsWell t e
    → checks_pass (looked_up_transfer index t e before l).checks ≡ true
    → IsSeen Found t (looked_up_transfer index t e before l).entry
unfolding looked_up_transfer audit_check
looked_up_transfer-IsSeen Found index t e before l found start h =
    let same = last_passes before _ h in
    rw (same, looked_up_transfer)
      (record {
        passed = start.passed;
        same_hash = start.same_hash;
        seen = λ sent.
            let borne = audit_lookup_mismatch-BearsOut l t.status t.memo same sent in
            (l, refl, borne, found borne.matched);
      })

request_checks-StartsWell :
    (index : ℕ) (t : TransferResult) (path : Text) (request : Option NormalizedTransfer)
    (more : List AuditCheck)
    → checks_pass (request_checks index t request ++ more) ≡ true
    → StartsWell t (request_entry (audit_entry index t path) request)
unfolding audit_check checks_pass
request_checks-StartsWell index t path none more h = absurd (ground arith)
request_checks-StartsWell index t path (some request) more h = record {
  passed = refl;
  same_hash = refl;
}

module _ {C : Type 0} (node : Node C) (cfg : Config) where
  -- What the transfer is expected to be: from its signer, or where the response leaves that blank
  -- from the signer of the state file, to its address, and of its amount.
  abbrev pub expected_transfer : TransferResult → StoredResult → Expectations
  expected_transfer t s = record {
    sender =
        if is_empty (trim_space t.signer_address)
        then trim_space s.response.signer_address
        else trim_space t.signer_address;
    recipient = t.to_address;
    amount_uwolo = t.amount_uwolo;
  }

  -- Where the lookup of an audited transfer comes from: the state file of the transfer is there, and
  -- at some state of the outside its hash was looked up, and the transaction has a transfer of the
  -- expected sender, recipient and amount.
  pub record IsLookedUp (w : World C) (t : TransferResult) (l : LookupResponse) : Type 0 where
    pub stored : StoredResult
    pub there : find (request_key t.request_id) w.requests ≡ some (content stored)
    pub env : C
    pub asked : l ≡ (lookup_tx node cfg t.tx_hash (expected_transfer t stored) env).0
    pub transfer : Transfer
    pub named : l.matched_transfer ≡ some transfer
    pub expected :
        meets
          (trim_space (expected_transfer t stored).sender)
          (trim_space t.to_address)
          (trim_space t.amount_uwolo)
          transfer
        ≡ true

  pub data AllSeen (w : World C) : List TransferResult → List AuditTransfer → Type 0 where
    none_to_see : AllSeen w [] []
    next_seen :
        {t : TransferResult} {e : AuditTransfer} {ts : List TransferResult}
        {es : List AuditTransfer}
        → IsSeen (IsLookedUp w t) t e
        → AllSeen w ts es
        → AllSeen w (t ∷ ts) (e ∷ es)

  stored_transfer-IsSeen :
      (index : ℕ) (t : TransferResult) (e : AuditTransfer) (before : List AuditCheck)
      (s : StoredResult) (c : C) (w : World C)
      → find (request_key t.request_id) w.requests ≡ some (content s)
      → (checks_pass before ≡ true → StartsWell t e)
      → checks_pass (stored_transfer node cfg index t e before s c).0.checks ≡ true
      → IsSeen (IsLookedUp w t) t (stored_transfer node cfg index t e before s c).0.entry
  unfolding stored_transfer hashless_transfer looked_up_transfer
  stored_transfer-IsSeen index t e before s c w there start h =
      let state = state_checks node cfg index t e.state_path s in
      let checks = before ++ state in
      elim (Bool-cases (is_empty (trim_space t.tx_hash))) [
        | inl hashless ↦
            (let passes = rw (hashless, stored_transfer) at h in
              rw (hashless, stored_transfer)
                (hashless_transfer-IsSeen (IsLookedUp w t) index t e checks
                  (start (checks_pass-++ before state (checks_pass-++ checks _ passes).0).0)
                  passes))
        | inr hashed ↦
            (let passes = rw (hashed, stored_transfer) at h in
              rw (hashed, stored_transfer)
                (looked_up_transfer-IsSeen (IsLookedUp w t) index t e checks _
                  (λ flagged.
                    let asked = expected_transfer t s in
                    let (transfer, named, met) =
                      lookup_tx-meets node cfg asked t.tx_hash c flagged in
                    record {
                      stored = s;
                      there = there;
                      env = c;
                      asked = refl;
                      transfer = transfer;
                      named = named;
                      expected = met;
                    })
                  (start (checks_pass-++ before state (checks_pass-++ checks _ passes).0).0)
                  passes))
      ]

  audit_on_state-IsSeen :
      (index : ℕ) (t : TransferResult) (e : AuditTransfer) (before : List AuditCheck)
      (file : Option (File StoredResult)) (c : C) (w : World C)
      → find (request_key t.request_id) w.requests ≡ file
      → (checks_pass before ≡ true → StartsWell t e)
      → checks_pass (audit_on_state node cfg index t e before file c).0.checks ≡ true
      → IsSeen (IsLookedUp w t) t (audit_on_state node cfg index t e before file c).0.entry
  unfolding audit_on_state stateless_transfer
  audit_on_state-IsSeen index t e before none c w there start h =
      stateless_transfer-IsSeen (IsLookedUp w t) index t e before
        (start (checks_pass-++ before _ h).0) h
  audit_on_state-IsSeen index t e before (some (unreadable message)) c w there start h =
      stateless_transfer-IsSeen (IsLookedUp w t) index t e before
        (start (checks_pass-++ before _ h).0) h
  audit_on_state-IsSeen index t e before (some (content s)) c w there start h =
      stored_transfer-IsSeen index t e before s c w there start h

  audit_transfer-IsSeen :
      (stored : ChallengeStoredResult) (run : Option RunStoredResult) (w : World C) (index : ℕ)
      (t : TransferResult) (c : C)
      → checks_pass (audit_transfer node cfg stored run w index t c).0.checks ≡ true
      → IsSeen (IsLookedUp w t) t (audit_transfer node cfg stored run w index t c).0.entry
  unfolding audit_transfer
  audit_transfer-IsSeen stored run w index t c h =
      let request = requested_transfer t.request_id none stored.request.transfers in
      let path = request_record_path node cfg t.request_id in
      audit_on_state-IsSeen index t (request_entry (audit_entry index t path) request)
        (request_checks index t request ++ run_result_checks index t run)
        (find (request_key t.request_id) w.requests) c w refl
        (request_checks-StartsWell index t path request (run_result_checks index t run)) h

  pub audit_transfers-AllSeen :
      (stored : ChallengeStoredResult) (run : Option RunStoredResult) (w : World C) (index : ℕ)
      (ts : List TransferResult) (c : C)
      → checks_pass (transfer_checks (audit_transfers node cfg stored run w index ts c).0) ≡ true
      → AllSeen w ts (transfer_entries (audit_transfers node cfg stored run w index ts c).0)
  unfolding audit_transfers
  audit_transfers-AllSeen stored run w index [] c h = AllSeen.none_to_see
  audit_transfers-AllSeen stored run w index (t ∷ ts) c h =
      let here = audit_transfer node cfg stored run w index t c in
      let rest = audit_transfers node cfg stored run w (index + 1) ts here.1 in
      let (first, others) = checks_pass-++ here.0.checks (transfer_checks rest.0) h in
      AllSeen.next_seen (audit_transfer-IsSeen stored run w index t c first)
        (audit_transfers-AllSeen stored run w (index + 1) ts here.1 others)
