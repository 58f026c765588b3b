-- ===== src/Tests/Audits.antt =====
-- The audit of a challenge that was settled.
use wolochain.Prelude.{ℕ, ◌≡◌, refl, Bool, true, false, [], ◌∷◌, some, arith, if◌then◌else◌}
use wolochain.Text.{Text, text, contains, trim_space}
use wolochain.Fallible.{Fallible, ok, fail}
use wolochain.World.{World}
use wolochain.Node.{Node, Event}
use wolochain.Challenge.Plan.{build_challenge_plan}
use wolochain.Challenge.Execute.{execute_planned_challenge}
use wolochain.Challenge.Audit.{AuditResponse}
use wolochain.Challenge.Audit.Report.{missing_report, audit_challenge}
use wolochain.Challenge.Audit.Sound.{IsReconciled, audit_challenge-IsReconciled}
use wolochain.Tests.{config, payout_address, player, other_player, empty_world, program_runs}
use wolochain.Tests.Challenges.{attribute, challenge_chain, challenge_request}

abbrev transfer_event : Text → Text → Text → Event
transfer_event sender recipient amount = record {
  event_type = text "transfer";
  attributes =
      attribute (text "sender") sender
      ∷ attribute (text "recipient") recipient
      ∷ attribute (text "amount") amount
      ∷ [];
}

-- A chain on which the payments of the challenge are found too, all of them behind `EF`.
abbrev paying_chain : Node ℕ
paying_chain = record challenge_chain {
  get_tx = λ url c.
      if contains url (text "EF")
      then (
        ok (
          200,
          record {
            memo = [];
            height = b'7' ∷ [];
            tx_hash = text "EF";
            code = 0;
            codespace = [];
            raw_log = [];
            timestamp = [];
            logs = [];
            events =
                transfer_event payout_address player (text "20uw")
                ∷ transfer_event payout_address player (text "10uw")
                ∷ transfer_event payout_address other_player (text "10uw")
                ∷ [];
          },
        ),
        c,
      )
      else challenge_chain.get_tx url c;
  decode_broadcast = λ payload.
      some (record { height = []; tx_hash = text "EF"; code = 0; codespace = []; raw_log = [] });
}

-- The challenge once it is settled there.
abbrev paid : World ℕ
paid =
    (execute_planned_challenge paying_chain config (text "run")
      (build_challenge_plan paying_chain config challenge_request 0).0 empty_world).1

abbrev audited : Fallible AuditResponse × World ℕ
audited = audit_challenge paying_chain config (text " run ") paid

abbrev report_of : Fallible AuditResponse → AuditResponse
report_of (ok r) = r
report_of (fail e) = missing_report [] []

abbrev is_report : Fallible AuditResponse → Bool
is_report (ok r) = true
is_report (fail e) = false

ok_report :
    (answer : Fallible AuditResponse) → is_report answer ≡ true → answer ≡ ok (report_of answer)
ok_report (ok r) h = refl
ok_report (fail e) h = absurd (ground arith)

audited_is_report : is_report audited.0 ≡ true
unfolding program_runs
audited_is_report = refl

audited_passes : (report_of audited.0).passed ≡ true
unfolding program_runs
audited_passes = refl

-- All four transfers were looked up.
audited_looks_up_four : (report_of audited.0).summary.transfer_tx_checked_count ≡ 4
unfolding program_runs
audited_looks_up_four = refl

audit_challenge-IsReconciled_example :
    IsReconciled paying_chain config (trim_space (text " run ")) paid (report_of audited.0)
audit_challenge-IsReconciled_example =
    audit_challenge-IsReconciled paying_chain config (text " run ") paid (report_of audited.0)
      (ok_report audited.0 audited_is_report) audited_passes

-- On a chain without the payments the audit does not pass.
unpaid_does_not_pass :
    (report_of (audit_challenge challenge_chain config (text "run") paid).0).passed ≡ false
unfolding program_runs
unpaid_does_not_pass = refl
