-- ===== src/Challenge/Audit/Sound.antt =====
-- About `auditSettlementChallenge` of cmd/wolochaind/cmd/settlement_challenge_audit.go.
use wolochain.Prelude.{
  false-ne-true, ◌≡◌, refl, ap, ◌∙◌, true, List, Option, none, some, is_empty, Bool-cases, inl, inr,
}
use wolochain.Text.{Text, trim_space}
use wolochain.Fallible.{Fallible, ok, fail, ok-injective, fail-ne-ok}
use wolochain.Config.{Config}
use wolochain.Table.{challenge_key, find}
use wolochain.Node.{Node}
use wolochain.World.{File, unreadable, content, World, challenge_record_path}
use wolochain.Run.{RunStoredResult}
use wolochain.Challenge.{ChallengeStoredResult}
use wolochain.Challenge.Audit.{AuditCheck, AuditResponse, checks_pass}
use wolochain.Challenge.Audit.Checks.{checks_pass-split, checks_pass-++, equal_check-passed}
use wolochain.Challenge.Audit.Deposits.Proven.{AllProven, audit_deposits-AllProven}
use wolochain.Challenge.Audit.Deposits.{
  AuditedDeposit, audit_deposits, deposit_checks, verified_deposits,
}
use wolochain.Challenge.Audit.Allocation.{audit_allocation}
use wolochain.Challenge.Audit.Payments.{AuditedTransfer, audit_transfers, transfer_checks}
use wolochain.Challenge.Audit.Payments.Seen.{AllSeen, audit_transfers-AllSeen}
use wolochain.Challenge.Audit.TopUp.{AuditedTopUp}
use wolochain.Challenge.Audit.Report.{
  record_checks, total_checks, audit_checks, audit_report, audit_on_top_up, audit_on_run,
  audit_stored, audit_challenge,
}

module _ {C : Type 0} (node : Node C) (cfg : Config) where
  -- What an audit that passes has seen: the state file of the challenge and its digest, every
  -- deposit verified again, and every sent transfer borne out by the chain.
  pub record IsReconciled (id : Text) (w : World C) (report : AuditResponse) : Type 0 where
    pub stored : ChallengeStoredResult
    pub there : find (challenge_key id) w.challenges ≡ some (content stored)
    pub same_print :
        trim_space stored.fingerprint ≡ trim_space (node.challenge_fingerprint stored.request)
    pub deposits :
        AllProven node cfg stored stored.request.funding stored.response.funding report.funding
    pub transfers : AllSeen node cfg w stored.response.transfers report.transfers

  audit_checks-parts :
      (path : Text) (stored : ChallengeStoredResult) (ds : List AuditedDeposit)
      (run_checks : List AuditCheck) (ts : List AuditedTransfer) (top_up_checks : List AuditCheck)
      → checks_pass (audit_checks node cfg path stored ds run_checks ts top_up_checks) ≡ true
      → (checks_pass (record_checks node cfg path stored) ≡ true)
        × (checks_pass (deposit_checks ds) ≡ true)
        × (checks_pass (transfer_checks ts) ≡ true)
  unfolding audit_checks
  audit_checks-parts path stored ds run_checks ts top_up_checks h =
      let (head, h₁) = checks_pass-++ (record_checks node cfg path stored) _ h in
      let (deposits, h₂) = checks_pass-++ (deposit_checks ds) _ h₁ in
      let (_, h₃) = checks_pass-split _ _ h₂ in
      let (_, h₄) = checks_pass-split _ _ h₃ in
      let (_, h₅) =
        checks_pass-++
          (audit_allocation stored.request.treasury_address (verified_deposits ds)
            stored.request.transfers)
          _ h₄ in
      let (_, h₆) = checks_pass-++ (total_checks node cfg stored (verified_deposits ds)) _ h₅ in
      let (_, h₇) = checks_pass-++ run_checks _ h₆ in
      (head, deposits, (checks_pass-++ (transfer_checks ts) top_up_checks h₇).0)

  record_checks-print :
      (path : Text) (stored : ChallengeStoredResult)
      → checks_pass (record_checks node cfg path stored) ≡ true
      → trim_space stored.fingerprint ≡ trim_space (node.challenge_fingerprint stored.request)
  unfolding record_checks
  record_checks-print path stored h =
      let (_, h₁) = checks_pass-split _ _ h in
      equal_check-passed _ _ stored.fingerprint (node.challenge_fingerprint stored.request)
        (checks_pass-split _ _ h₁).0

  audit_report-IsReconciled :
      (id : Text) (w : World C) (stored : ChallengeStoredResult) (run : Option RunStoredResult)
      (run_checks : List AuditCheck) (top_up : AuditedTopUp) (c : C)
      → find (challenge_key id) w.challenges ≡ some (content stored)
      → (audit_report node cfg id stored
          (audit_deposits node cfg stored 0 stored.request.funding stored.response.funding w.env).0
          (run, run_checks)
          (audit_transfers node cfg stored run w 0 stored.response.transfers c).0
          top_up).passed
        ≡ true
      → IsReconciled id w (
          audit_report node cfg id stored
            (audit_deposits node cfg stored 0 stored.request.funding stored.response.funding
              w.env).0
            (run, run_checks)
            (audit_transfers node cfg stored run w 0 stored.response.transfers c).0
            top_up)
  unfolding audit_report
  audit_report-IsReconciled id w stored run run_checks (top_up, top_up_checks) c there h =
      let (head, deposits, transfers) =
        audit_checks-parts (challenge_record_path node cfg id) stored _ run_checks _ top_up_checks
          h in
      record {
        stored = stored;
        there = there;
        same_print = record_checks-print _ stored head;
        deposits = audit_deposits-AllProven node cfg stored 0 _ _ w.env deposits;
        transfers = audit_transfers-AllSeen node cfg stored run w 0 _ c transfers;
      }

  audit_on_top_up-IsReconciled :
      (id : Text) (w : World C) (stored : ChallengeStoredResult) (run : Option RunStoredResult)
      (run_checks : List AuditCheck) (top_up : Fallible AuditedTopUp) (c : C)
      (report : AuditResponse)
      → find (challenge_key id) w.challenges ≡ some (content stored)
      → audit_on_top_up node cfg id stored
          (audit_deposits node cfg stored 0 stored.request.funding stored.response.funding w.env).0
          (run, run_checks)
          (audit_transfers node cfg stored run w 0 stored.response.transfers c).0
          top_up
        ≡ ok report
      → report.passed ≡ true
      → IsReconciled id w report
  unfolding audit_on_top_up
  audit_on_top_up-IsReconciled id w stored run run_checks (fail e) c report there answered passed =
      absurd (fail-ne-ok answered)
  audit_on_top_up-IsReconciled id w stored run run_checks (ok top_up) c report there answered
        passed =
      let same = ok-injective answered in
      rw (← same) (
        audit_report-IsReconciled id w stored run run_checks top_up c there
          (ap (λ (r : AuditResponse). r.passed) same ∙ passed))

  audit_on_run-IsReconciled :
      (id : Text) (w : World C) (stored : ChallengeStoredResult)
      (run : Fallible (Option RunStoredResult × List AuditCheck)) (c : C) (report : AuditResponse)
      → find (challenge_key id) w.challenges ≡ some (content stored)
      → (audit_on_run node cfg id stored w
          (audit_deposits node cfg stored 0 stored.request.funding stored.response.funding w.env).0
          run
          c).0
        ≡ ok report
      → report.passed ≡ true
      → IsReconciled id w report
  unfolding audit_on_run
  audit_on_run-IsReconciled id w stored (fail e) c report there answered passed =
      absurd (fail-ne-ok answered)
  audit_on_run-IsReconciled id w stored (ok (run, run_checks)) c report there answered passed =
      audit_on_top_up-IsReconciled id w stored run run_checks _ c report there answered passed

  audit_stored-IsReconciled :
      (id : Text) (w : World C) (file : Option (File ChallengeStoredResult))
      (report : AuditResponse)
      → find (challenge_key id) w.challenges ≡ file
      → (audit_stored node cfg id w file).0 ≡ ok report
      → report.passed ≡ true
      → IsReconciled id w report
  unfolding audit_stored
  audit_stored-IsReconciled id w none report there answered passed =
      let same = ok-injective answered in
      absurd (false-ne-true (ap (λ (r : AuditResponse). r.passed) same ∙ passed))
  audit_stored-IsReconciled id w (some (unreadable e)) report there answered passed =
      absurd (fail-ne-ok answered)
  audit_stored-IsReconciled id w (some (content stored)) report there answered passed =
      audit_on_run-IsReconciled id w stored _ _ report there answered passed

  -- An audit that passes has seen what it reports. If the audit of a challenge answers with a report
  -- that passes, then the state file of the challenge is there and carries the digest of its request,
  -- up to white space around it. The hash of each deposit of the request was looked up again, and
  -- its transaction verified as a deposit against what the request says of it and, where that leaves
  -- the sender, the run or an amount blank, against the stored result beside it. Each transfer of the
  -- response that counts as sent (confirmed or accepted) has a state file; its hash was looked up and
  -- found as a transaction that succeeded, that has a transfer from its signer to its address of its
  -- amount (where these are not blank), and that carries its memo, if it has one.
  pub audit_challenge-IsReconciled :
      (id : Text) (w : World C) (report : AuditResponse)
      → (audit_challenge node cfg id w).0 ≡ ok report
      → report.passed ≡ true
      → IsReconciled (trim_space id) w report
  unfolding audit_challenge
  audit_challenge-IsReconciled id w report answered passed =
      elim (Bool-cases (is_empty (trim_space id))) [
        | inl blank ↦ absurd (fail-ne-ok (rw (blank, audit_challenge) at answered))
        | inr named ↦
            audit_stored-IsReconciled (trim_space id) w _ report refl
              (rw (named, audit_challenge) at answered) passed
      ]
