-- ===== src/Challenge/Execute/Settled.antt =====
-- When `executeSettlementChallenge` answers that a challenge succeeded.
use wolochain.Prelude.{
  ℕ, ◌≡◌, ◌∙◌, refl, true, false, List, [], ◌∷◌, length, arith, Option, none, some, Bool-cases, inl,
  inr,
}
use wolochain.Text.{Text}
use wolochain.Fallible.{Fallible, ok, fail, Fallible-cases, ok-injective, fail-ne-ok}
use wolochain.Codes.{is_no_status}
use wolochain.Config.{Config}
use wolochain.Node.{Node}
use wolochain.World.{World, write_challenge_stored_result}
use wolochain.Run.{RunResponse}
use wolochain.Run.Execute.{execute_run}
use wolochain.Challenge.{
  TopUpResult, NormalizedTransfer, ChallengeRequest, ChallengeResponse, ChallengeStoredResult,
  ChallengePlan,
}
use wolochain.Challenge.Finalize.{merge_run_results}
use wolochain.Challenge.Finalize.Complete.{
  AllSent, StartsFresh, finalize_challenge-AllSent, finalize_challenge-transfers,
  finalize_challenge-decided,
}
use wolochain.Challenge.Plan.{build_challenge_plan}
use wolochain.Challenge.Plan.Counts.{build_challenge_plan-IsPlanned}
use wolochain.Challenge.Execute.{
  answer_fails, challenge_failed, top_up_failed_challenge, with_run, finished_challenge,
  record_challenge, execute_challenge_run, execute_after_top_up, execute_topped_up_challenge,
  execute_planned_challenge,
}
use wolochain.Challenge.Execute.Replay.{
  execute_topped_up_challenge-cases, execute_planned_challenge-cases,
}

merge_run_results-length :
    (ts : List NormalizedTransfer) (run : RunResponse)
    → length (merge_run_results ts run) ≡ length ts
unfolding merge_run_results
merge_run_results-length [] run = refl
merge_run_results-length (t ∷ ts) run = let rest = merge_run_results-length ts run in ground arith

-- A response that succeeded has sent its transfers, as many as there were lines.
abbrev pub HasSettled : ℕ → ChallengeResponse → Type 0
HasSettled lines r = r.succeeded ≡ true → AllSent r.transfers × (length r.transfers ≡ lines)

not-succeeded-HasSettled :
    (lines : ℕ) (r : ChallengeResponse) → r.succeeded ≡ false → HasSettled lines r
not-succeeded-HasSettled lines r failed h = absurd (ground arith)

challenge_failed-HasSettled :
    (lines : ℕ) (r : ChallengeResponse)
    → is_no_status r.status ≡ false
    → r.succeeded ≡ false
    → HasSettled lines (challenge_failed r)
unfolding challenge_failed
challenge_failed-HasSettled lines r decided failed =
    not-succeeded-HasSettled lines (challenge_failed r)
      (finalize_challenge-decided _ decided ∙ failed)

top_up_failed_challenge-HasSettled :
    (lines : ℕ) (p : TopUpResult) (r : ChallengeResponse)
    → HasSettled lines (top_up_failed_challenge p r)
unfolding top_up_failed_challenge
top_up_failed_challenge-HasSettled lines p r = challenge_failed-HasSettled lines _ refl refl

finished_challenge-HasSettled :
    (lines : ℕ) (plan : ChallengePlan) (r : ChallengeResponse) (run : RunResponse)
    → StartsFresh lines r
    → length plan.normalized.transfers ≡ lines
    → HasSettled lines (finished_challenge plan r run)
unfolding finished_challenge with_run
finished_challenge-HasSettled lines plan r run fresh count h =
    let merged = with_run plan r run in
    let same = merge_run_results-length plan.normalized.transfers run in
    let enough = fresh.enough in
    let sent =
      finalize_challenge-AllSent merged
        (record {
          status = refl;
          succeeded = refl;
          executed = fresh.executed;
          confirmed = fresh.confirmed;
          accepted = fresh.accepted;
        })
        (omega arith) h in
    rw (finalize_challenge-transfers merged) (sent, same ∙ count)

module _ {C : Type 0} (node : Node C) (cfg : Config) where
  -- Every answer of an action, if it is one, has settled.
  abbrev pub AnswerHasSettled : ℕ → Fallible ChallengeResponse × World C → Type 0
  AnswerHasSettled lines answer =
      (done : ChallengeResponse) → answer.0 ≡ ok done → HasSettled lines done

  record_challenge-HasSettled :
      (lines : ℕ) (id : Text) (plan : ChallengePlan) (r : ChallengeResponse) (w : World C)
      → HasSettled lines r
      → AnswerHasSettled lines (record_challenge node cfg id plan r w)
  unfolding record_challenge
  record_challenge-HasSettled lines id plan r w settled done h =
      let stored : ChallengeStoredResult = record {
        request = plan.normalized;
        fingerprint = node.challenge_fingerprint plan.normalized;
        response = r;
      } in
      elim (Fallible-cases (write_challenge_stored_result node cfg id stored w).0) [
        | inl (u, written) ↦ rw (← ok-injective (rw (written, record_challenge) at h)) settled
        | inr (e, refused) ↦ absurd (fail-ne-ok (rw (refused, record_challenge) at h))
      ]

  execute_challenge_run-HasSettled :
      (lines : ℕ) (id : Text) (plan : ChallengePlan) (r : ChallengeResponse) (w : World C)
      → StartsFresh lines r
      → length plan.normalized.transfers ≡ lines
      → AnswerHasSettled lines (execute_challenge_run node cfg id plan r w)
  unfolding execute_challenge_run
  execute_challenge_run-HasSettled lines id plan r w fresh count done h =
      elim (Fallible-cases (execute_run node cfg plan.run_request w).0) [
        | inl (run, ran) ↦
            record_challenge-HasSettled lines id plan (finished_challenge plan r run) _
              (finished_challenge-HasSettled lines plan r run fresh count) done
              (rw (ran, execute_challenge_run) at h)
        | inr (e, stopped) ↦ absurd (fail-ne-ok (rw (stopped, execute_challenge_run) at h))
      ]

  execute_after_top_up-HasSettled :
      (lines : ℕ) (id : Text) (plan : ChallengePlan) (r : ChallengeResponse)
      (q : Fallible TopUpResult) (w : World C)
      → StartsFresh lines r
      → length plan.normalized.transfers ≡ lines
      → AnswerHasSettled lines (execute_after_top_up node cfg id plan r q w)
  unfolding execute_after_top_up
  execute_after_top_up-HasSettled lines id plan r (fail e) w fresh count =
      λ done h. absurd (fail-ne-ok h)
  execute_after_top_up-HasSettled lines id plan r (ok q) w fresh count =
      elim (Bool-cases (answer_fails q.response)) [
        | inl fails ↦
            rw (fails, execute_after_top_up)
              (record_challenge-HasSettled lines id plan (top_up_failed_challenge q r) w
                (top_up_failed_challenge-HasSettled lines q r))
        | inr fine ↦
            rw (fine, execute_after_top_up)
              (execute_challenge_run-HasSettled lines id plan (record r { top_up = some q }) w
                (record {
                  executed = fresh.executed;
                  confirmed = fresh.confirmed;
                  accepted = fresh.accepted;
                  enough = fresh.enough;
                })
                count)
      ]

  execute_topped_up_challenge-HasSettled :
      (lines : ℕ) (id : Text) (plan : ChallengePlan) (r : ChallengeResponse)
      (p : Option TopUpResult) (w : World C)
      → StartsFresh lines r
      → length plan.normalized.transfers ≡ lines
      → AnswerHasSettled lines (execute_topped_up_challenge node cfg id plan r p w)
  unfolding execute_topped_up_challenge
  execute_topped_up_challenge-HasSettled lines id plan r none w fresh count =
      execute_challenge_run-HasSettled lines id plan r w fresh count
  execute_topped_up_challenge-HasSettled lines id plan r (some p) w fresh count =
      elim (execute_topped_up_challenge-cases node cfg id plan r p w) [
        | inl idle ↦ rw idle (execute_challenge_run-HasSettled lines id plan r w fresh count)
        | inr needed ↦ rw needed (execute_after_top_up-HasSettled lines id plan r _ _ fresh count)
      ]

  -- A challenge that answers success has paid everyone. If a challenge is planned from a request and
  -- the plan is executed, with its top-up, its run and the writing of its state file, and the answer
  -- says that it succeeded, then the answer has a transfer for each transfer of the request, and each
  -- of them was sent: its result is confirmed, or accepted.
  pub execute_planned_challenge-AllSent :
      (id : Text) (request : ChallengeRequest) (c : C) (w : World C) (done : ChallengeResponse)
      → (execute_planned_challenge node cfg id (build_challenge_plan node cfg request c).0 w).0
        ≡ ok done
      → done.succeeded ≡ true
      → AllSent done.transfers × (length done.transfers ≡ length request.transfers)
  execute_planned_challenge-AllSent id request c w done answered success =
      let plan = (build_challenge_plan node cfg request c).0 in
      let n = length request.transfers in
      let planned = build_challenge_plan-IsPlanned node cfg request c in
      elim (execute_planned_challenge-cases node cfg id plan w) [
        | inl (failed, refused) ↦
            record_challenge-HasSettled n id plan _ w
              (challenge_failed-HasSettled n _ planned.decided failed) done (rw refused at answered)
              success
        | inr (validated, goes_on) ↦
            (let fresh = planned.fresh validated in
              execute_topped_up_challenge-HasSettled n id plan _ _ w
                (record {
                  executed = fresh.executed;
                  confirmed = fresh.confirmed;
                  accepted = fresh.accepted;
                  enough = fresh.enough;
                })
                (planned.complete validated) done (rw goes_on at answered) success)
      ]
