-- ===== src/Challenge/Plan/Conserved.antt =====
-- A challenge that is planned moves what its deposits have put into escrow.
use wolochain.Prelude.{
  ◌%◌, ◌≡◌, refl, sym, ap, ◌∙◌, true, false, List, [], Option, some, none, arith, ◌==◌, is_empty,
  length, All, Bool-cases, ==_iff, inl, inr,
}
use wolochain.Text.{Text, text}
use wolochain.Decimal.{u64_mod}
use wolochain.Codes.{is_no_status}
use wolochain.Config.{Config}
use wolochain.Node.{Node}
use wolochain.Run.{RunRequest, RunResponse}
use wolochain.Run.Head.{join}
use wolochain.Run.Plan.{validate_run}
use wolochain.Challenge.TopUp.{build_top_up_plan}
use wolochain.Challenge.{TopUpResult, ChallengeRequest, ChallengeResponse}
use wolochain.Challenge.Transfers.{check_participants}
use wolochain.Challenge.Transfers.Distinct.{check_participants-Distinct}
use wolochain.Challenge.Lines.{Line, plan_lines, line_results, check_allocation, has_invalid}
use wolochain.Challenge.Lines.Sums.{
  IsSound, Distinct, check_allocation-IsAllocated, all_moved-over_all, transfer_sum,
  all_moved-transfer_sum,
}
use wolochain.Challenge.Lines.Sound.{plan_lines-IsSound}
use wolochain.Challenge.Finalize.{
  finalize_challenge, challenge_judged, challenge_tallied, challenge_requested,
}
use wolochain.Challenge.Head.{ChallengeHead, read_challenge_head, challenge_base}
use wolochain.Challenge.Plan.{
  Deposit, deposit_results, verified, refuse_challenge, judge_plan, judge_run, with_deposits,
  with_lines, transfer_context, scan_funding, plan_challenge_run, plan_on_lines, plan_on_deposits,
  build_challenge_plan,
}
use wolochain.Challenge.Finalize.Complete.{finalize_challenge-decided}
use wolochain.Challenge.Plan.Funded.{
  IsFunded, FundedIfVerified, scan_funding-FundedIfVerified, scan_funding-length, All-verified,
  All-NamesPlayer, verified-all, deposit_sum, over_all-deposit_sum,
}

-- What a finalization and a judgement leave alone.
record Keeps (r s : ChallengeResponse) : Type 0 where
  transfers : s.transfers ≡ r.transfers
  funding : s.funding ≡ r.funding

finalize_challenge-Keeps : (r : ChallengeResponse) → Keeps r (finalize_challenge r)
unfolding finalize_challenge challenge_judged challenge_tallied challenge_requested
finalize_challenge-Keeps r = record { transfers = refl; funding = refl }

judge_plan-Keeps :
    (run : RunResponse) (p : Option TopUpResult) (r : ChallengeResponse)
    → Keeps r (judge_plan run p r)
unfolding judge_plan judge_run
judge_plan-Keeps run none r = record { transfers = ground arith; funding = ground arith }
judge_plan-Keeps run (some p) r = record { transfers = ground arith; funding = ground arith }

-- A response that was refused before its status was asked for.
pub refuse_challenge-refuses :
    (message : Text) (r : ChallengeResponse)
    → r.succeeded ≡ false
    → is_no_status r.status ≡ false
    → (refuse_challenge message r).succeeded ≡ false
refuse_challenge-refuses message r fresh decided = finalize_challenge-decided _ decided ∙ fresh

-- What the response of a plan that succeeds has added up.
pub record IsConserved (r : ChallengeResponse) : Type 0 where
  pub valid : has_invalid r.transfers ≡ false
  pub conserved : transfer_sum r.transfers % u64_mod ≡ deposit_sum r.funding % u64_mod

-- The lines of a plan whose deposits are all verified.
record IsReady (lines : List Line) (deposits : List Deposit) (r : ChallengeResponse) : Type 0 where
  fresh : r.succeeded ≡ false
  decided : is_no_status r.status ≡ false
  transfers : r.transfers ≡ line_results lines
  funding : r.funding ≡ deposit_results deposits
  sound : All (IsSound (verified deposits)) lines
  funded : All IsFunded (verified deposits)
  distinct : Distinct (verified deposits)
  all : verified deposits ≡ deposit_results deposits

module _ {C : Type 0} (node : Node C) (cfg : Config) where
  plan_challenge_run-Keeps :
      (head : ChallengeHead) (run_request : RunRequest) (r : ChallengeResponse) (c : C)
      → Keeps r (plan_challenge_run node cfg head run_request r c).0
  unfolding plan_challenge_run
  plan_challenge_run-Keeps head run_request r c =
      let (run, c₁) = validate_run node cfg run_request c in
      let (top_up, c₂) = build_top_up_plan node cfg head.settlement_id run c₁ in
      let asked : ChallengeResponse = record r { run = some run; top_up = top_up } in
      let judged = judge_plan-Keeps run top_up asked in
      let ended = finalize_challenge-Keeps (judge_plan run top_up asked) in
      record {
        transfers = ended.transfers ∙ judged.transfers;
        funding = ended.funding ∙ judged.funding;
      }

  ready-IsConserved :
      (lines : List Line) (deposits : List Deposit) (r : ChallengeResponse)
      → IsReady lines deposits r
      → is_empty (check_allocation lines (verified deposits)) ≡ true
      → has_invalid (line_results lines) ≡ false
      → IsConserved r
  ready-IsConserved lines deposits r ready allocated valid =
      let ds = verified deposits in
      let sums =
        over_all-deposit_sum lines ds ready.funded
          (check_allocation-IsAllocated lines ds allocated) in
      let moved = all_moved-over_all ds lines ready.distinct ready.sound valid in
      let written = all_moved-transfer_sum ds lines ready.sound valid in
      let funded = ap deposit_sum (ready.all ∙ sym ready.funding) in
      let shown = ap transfer_sum ready.transfers in
      record { valid = ap has_invalid ready.transfers ∙ valid; conserved = omega arith }

  IsConserved-Keeps : {r s : ChallengeResponse} → Keeps r s → IsConserved r → IsConserved s
  IsConserved-Keeps keeps c = record {
    valid = ap has_invalid keeps.transfers ∙ c.valid;
    conserved =
        ap (λ ts. transfer_sum ts % u64_mod) keeps.transfers
        ∙ c.conserved
        ∙ ap (λ ds. deposit_sum ds % u64_mod) (sym keeps.funding);
  }

  plan_on_lines-IsConserved :
      (head : ChallengeHead) (deposits : List Deposit) (lines : List Line) (r : ChallengeResponse)
      (c : C)
      → IsReady lines deposits r
      → (plan_on_lines node cfg head deposits lines r c).0.response.succeeded ≡ true
      → IsConserved (plan_on_lines node cfg head deposits lines r c).0.response
  unfolding plan_on_lines
  plan_on_lines-IsConserved head deposits lines r c ready h =
      let errors = check_allocation lines (verified deposits) in
      elim (Bool-cases (is_empty errors)) [
        | inr bad ↦
            (let refused = refuse_challenge-refuses (join errors) r ready.fresh ready.decided in
              absurd (ground arith))
        | inl good ↦ elim (Bool-cases (has_invalid (line_results lines))) [
          | inl bad ↦
              (let refused =
                  refuse_challenge-refuses (text "one or more challenge transfer lines are invalid")
                    r ready.fresh ready.decided in
                absurd (ground arith))
          | inr valid ↦
              rw (good, valid, plan_on_lines)
                (IsConserved-Keeps (plan_challenge_run-Keeps head _ r c)
                  (ready-IsConserved lines deposits r ready good valid))
        ]
      ]

  plan_on_deposits-IsConserved :
      (request : ChallengeRequest) (head : ChallengeHead) (deposits : List Deposit)
      (r : ChallengeResponse) (c : C)
      → r.succeeded ≡ false
      → is_no_status r.status ≡ false
      → r.funding ≡ deposit_results deposits
      → All FundedIfVerified deposits
      → length deposits ≡ length request.funding
      → (plan_on_deposits node cfg request head deposits r c).0.response.succeeded ≡ true
      → IsConserved (plan_on_deposits node cfg request head deposits r c).0.response
  unfolding plan_on_deposits with_lines
  plan_on_deposits-IsConserved request head deposits r c fresh decided funding funded count h =
      let ds = verified deposits in
      let errors = check_participants [] [] ds in
      let lines = plan_lines (transfer_context cfg head) ds [] 0 request.transfers in
      elim (Bool-cases (length ds == length request.funding)) [
        | inr missing ↦
            (let refused =
                refuse_challenge-refuses
                  (text
                    "one or more funding deposits could not be verified against the challenge funding memo convention")
                  r fresh decided in
              absurd (ground arith))
        | inl complete ↦ elim (Bool-cases (is_empty errors)) [
          | inr bad ↦
              (let refused = refuse_challenge-refuses (join errors) r fresh decided in
                absurd (ground arith))
          | inl good ↦
              rw (complete, good, plan_on_deposits)
                (plan_on_lines-IsConserved head deposits lines (with_lines (length ds) lines r) c
                  (record {
                    fresh = fresh;
                    decided = decided;
                    transfers = refl;
                    funding = funding;
                    sound =
                        plan_lines-IsSound (transfer_context cfg head) ds [] 0 request.transfers;
                    funded = All-verified deposits funded;
                    distinct =
                        check_participants-Distinct ds [] []
                          (All-NamesPlayer ds (All-verified deposits funded)) good;
                    all =
                        verified-all deposits
                          ((==_iff (length ds) (length request.funding)).0 complete ∙ sym count);
                  })
                  (rw (complete, good, plan_on_deposits) at h))
        ]
      ]

  -- A challenge moves on exactly what was put into escrow for it. If the plan of a challenge
  -- succeeds, none of its transfers is invalid, and the amounts of its transfers add up, modulo 2^64,
  -- to the totals of its deposits.
  pub build_challenge_plan-IsConserved :
      (request : ChallengeRequest) (c : C)
      → (build_challenge_plan node cfg request c).0.response.succeeded ≡ true
      → IsConserved (build_challenge_plan node cfg request c).0.response
  unfolding build_challenge_plan challenge_base with_deposits
  build_challenge_plan-IsConserved request c h =
      let head = read_challenge_head cfg request in
      let base = challenge_base request head in
      let (deposits, c') = scan_funding node cfg head 0 request.funding c in
      elim (Bool-cases (is_empty head.errors)) [
        | inr bad ↦ absurd (ground arith)
        | inl good ↦
            rw (good, build_challenge_plan)
              (plan_on_deposits-IsConserved request head deposits (with_deposits deposits base) c'
                refl refl refl (scan_funding-FundedIfVerified node cfg head request.funding 0 c)
                (scan_funding-length node cfg head request.funding 0 c)
                (rw (good, build_challenge_plan) at h))
      ]
