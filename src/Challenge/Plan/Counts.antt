-- ===== src/Challenge/Plan/Counts.antt =====
-- A plan has its status, and has counted nothing as sent.
use wolochain.Prelude.{
  ℕ, ◌≡◌, refl, ◌∙◌, true, false, List, [], Option, some, none, arith, ◌==◌, is_empty, length, map,
  Bool-cases, inl, inr,
}
use wolochain.Text.{Text}
use wolochain.Codes.{is_no_status}
use wolochain.Config.{Config}
use wolochain.Node.{Node}
use wolochain.Run.{RunRequest, RunResponse}
use wolochain.Run.Plan.{validate_run}
use wolochain.Run.Finalize.Totals.{AllUnsent}
use wolochain.Challenge.{TopUpResult, ChallengeRequest, ChallengeResponse, ChallengePlan}
use wolochain.Challenge.Transfers.{check_participants}
use wolochain.Challenge.Lines.{Line, plan_lines, line_results, check_allocation, has_invalid}
use wolochain.Challenge.Lines.Unsent.{
  plan_lines-AllUnsent, plan_lines-length, length-line_transfers,
}
use wolochain.Challenge.Finalize.{counted}
use wolochain.Challenge.Finalize.Complete.{
  StartsFresh, finalize_challenge-StartsFresh, finalize_challenge-status,
}
use wolochain.Challenge.TopUp.{build_top_up_plan}
use wolochain.Challenge.Head.{ChallengeHead, read_challenge_head, challenge_base, blank_run_request}
use wolochain.Challenge.Plan.{
  Deposit, verified, refuse_challenge, judge_run, judge_plan, challenge_run_request, challenge_plan,
  with_deposits, with_lines, transfer_context, scan_funding, plan_challenge_run, plan_on_lines,
  plan_on_deposits, build_challenge_plan,
}
use wolochain.Challenge.Plan.Conserved.{refuse_challenge-refuses}

-- A plan that has its status and, where it succeeds, has a line for each transfer and no counts.
pub record IsPlanned (lines : ℕ) (plan : ChallengePlan) : Type 0 where
  pub decided : is_no_status plan.response.status ≡ false
  pub fresh : plan.response.succeeded ≡ true → StartsFresh lines plan.response
  pub complete : plan.response.succeeded ≡ true → length plan.normalized.transfers ≡ lines

refused-IsPlanned :
    (lines : ℕ) (head : ChallengeHead) (deposits : List Deposit) (shown : List Line)
    (message : Text) (r : ChallengeResponse)
    → r.succeeded ≡ false
    → is_no_status r.status ≡ false
    → IsPlanned lines
        (challenge_plan head deposits shown blank_run_request (refuse_challenge message r))
refused-IsPlanned lines head deposits shown message r fresh decided =
    let refused = refuse_challenge-refuses message r fresh decided in
    record {
      decided = finalize_challenge-status _ decided;
      fresh = λ h. absurd (ground arith);
      complete = λ h. absurd (ground arith);
    }

-- What a judgement leaves alone.
record IsJudged (r s : ChallengeResponse) : Type 0 where
  decided : is_no_status s.status ≡ false
  executed : s.executed_transfer_count ≡ r.executed_transfer_count
  confirmed : s.confirmed_transfer_count ≡ r.confirmed_transfer_count
  accepted : s.accepted_transfer_count ≡ r.accepted_transfer_count
  requested : s.requested_transfer_count ≡ r.requested_transfer_count
  transfers : s.transfers ≡ r.transfers

judge_plan-IsJudged :
    (run : RunResponse) (p : Option TopUpResult) (r : ChallengeResponse)
    → IsJudged r (judge_plan run p r)
unfolding judge_plan judge_run
judge_plan-IsJudged run none r = record {
  decided = ground arith;
  executed = ground arith;
  confirmed = ground arith;
  accepted = ground arith;
  requested = ground arith;
  transfers = ground arith;
}
judge_plan-IsJudged run (some p) r = record {
  decided = ground arith;
  executed = ground arith;
  confirmed = ground arith;
  accepted = ground arith;
  requested = ground arith;
  transfers = ground arith;
}

judged-StartsFresh :
    (lines : ℕ) {r s : ChallengeResponse} → IsJudged r s → StartsFresh lines r → StartsFresh lines s
judged-StartsFresh lines judged fresh = record {
  executed = judged.executed ∙ fresh.executed;
  confirmed = judged.confirmed ∙ fresh.confirmed;
  accepted = judged.accepted ∙ fresh.accepted;
  enough = rw judged.requested fresh.enough;
}

module _ {C : Type 0} (node : Node C) (cfg : Config) where
  plan_challenge_run-StartsFresh :
      (lines : ℕ) (head : ChallengeHead) (run_request : RunRequest) (r : ChallengeResponse) (c : C)
      → StartsFresh lines r
      → AllUnsent (map counted r.transfers)
      → (is_no_status (plan_challenge_run node cfg head run_request r c).0.status ≡ false)
        × StartsFresh lines (plan_challenge_run node cfg head run_request r c).0
  unfolding plan_challenge_run
  plan_challenge_run-StartsFresh lines head run_request r c fresh unsent =
      let (run, c₁) = validate_run node cfg run_request c in
      let (top_up, c₂) = build_top_up_plan node cfg head.settlement_id run c₁ in
      let asked : ChallengeResponse = record r { run = some run; top_up = top_up } in
      let judged = judge_plan-IsJudged run top_up asked in
      (
        finalize_challenge-status (judge_plan run top_up asked) judged.decided,
        finalize_challenge-StartsFresh lines (judge_plan run top_up asked)
            (judged-StartsFresh lines judged (record {
              executed = fresh.executed;
              confirmed = fresh.confirmed;
              accepted = fresh.accepted;
              enough = fresh.enough;
            }))
            (rw judged.transfers unsent),
      )

  plan_on_lines-IsPlanned :
      (n : ℕ) (head : ChallengeHead) (deposits : List Deposit) (lines : List Line)
      (r : ChallengeResponse) (c : C)
      → r.succeeded ≡ false
      → is_no_status r.status ≡ false
      → StartsFresh n r
      → AllUnsent (map counted r.transfers)
      → length lines ≡ n
      → IsPlanned n (plan_on_lines node cfg head deposits lines r c).0
  unfolding plan_on_lines
  plan_on_lines-IsPlanned n head deposits lines r c failed decided fresh unsent count =
      elim (Bool-cases (is_empty (check_allocation lines (verified deposits)))) [
        | inr bad ↦
            rw (bad, plan_on_lines) (refused-IsPlanned n head deposits lines _ r failed decided)
        | inl good ↦ elim (Bool-cases (has_invalid (line_results lines))) [
          | inl bad ↦
              rw (good, bad, plan_on_lines)
                (refused-IsPlanned n head deposits lines _ r failed decided)
          | inr valid ↦
              (let (status, starts) =
                  plan_challenge_run-StartsFresh n head (challenge_run_request head lines) r c fresh
                    unsent in
                rw (good, valid, plan_on_lines)
                  (record {
                    decided = status;
                    fresh = λ h. starts;
                    complete = λ h. length-line_transfers lines ∙ count;
                  }))
        ]
      ]

  plan_on_deposits-IsPlanned :
      (request : ChallengeRequest) (head : ChallengeHead) (deposits : List Deposit)
      (r : ChallengeResponse) (c : C)
      → r.succeeded ≡ false
      → is_no_status r.status ≡ false
      → r.executed_transfer_count ≡ 0
      → r.confirmed_transfer_count ≡ 0
      → r.accepted_transfer_count ≡ 0
      → IsPlanned (length request.transfers) (plan_on_deposits node cfg request head deposits r c).0
  unfolding plan_on_deposits with_lines
  plan_on_deposits-IsPlanned request head deposits r c failed decided executed confirmed accepted =
      let ds = verified deposits in
      let lines = plan_lines (transfer_context cfg head) ds [] 0 request.transfers in
      let count = plan_lines-length (transfer_context cfg head) ds [] 0 request.transfers in
      elim (Bool-cases (length ds == length request.funding)) [
        | inr missing ↦
            rw (missing, plan_on_deposits) (refused-IsPlanned _ head deposits [] _ r failed decided)
        | inl all ↦ elim (Bool-cases (is_empty (check_participants [] [] ds))) [
          | inr bad ↦
              rw (all, bad, plan_on_deposits)
                (refused-IsPlanned _ head deposits [] _ r failed decided)
          | inl good ↦
              rw (all, good, plan_on_deposits)
                (plan_on_lines-IsPlanned (length request.transfers) head deposits lines
                  (with_lines (length ds) lines r) c failed decided
                  (record {
                    executed = executed;
                    confirmed = confirmed;
                    accepted = accepted;
                    enough = omega arith;
                  })
                  (plan_lines-AllUnsent (transfer_context cfg head) ds [] 0 request.transfers)
                  count)
        ]
      ]

  -- Every plan of a challenge.
  pub build_challenge_plan-IsPlanned :
      (request : ChallengeRequest) (c : C)
      → IsPlanned (length request.transfers) (build_challenge_plan node cfg request c).0
  unfolding build_challenge_plan challenge_base with_deposits
  build_challenge_plan-IsPlanned request c =
      let head = read_challenge_head cfg request in
      let base = challenge_base request head in
      let (deposits, c') = scan_funding node cfg head 0 request.funding c in
      elim (Bool-cases (is_empty head.errors)) [
        | inr bad ↦
            rw (bad, build_challenge_plan)
              (record {
                decided = refl;
                fresh = λ h. absurd (ground arith);
                complete = λ h. absurd (ground arith);
              })
        | inl good ↦
            rw (good, build_challenge_plan)
              (plan_on_deposits-IsPlanned request head deposits (with_deposits deposits base) c'
                refl refl refl refl refl)
      ]
