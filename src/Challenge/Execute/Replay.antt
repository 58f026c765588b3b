-- ===== src/Challenge/Execute/Replay.antt =====
-- About the file of a challenge, and what a later `execute_challenge_planned` makes of it.
use wolochain.Prelude.{
  ◌≡◌, ◌⊎◌, refl, ap, ◌∙◌, some, none, true, false, arith, is_empty, Option, Option-cases,
  Bool-cases, inl, inr,
}
use wolochain.Text.{Text, trim_space}
use wolochain.Text.Laws.{text_eq_refl}
use wolochain.Fallible.{Fallible, ok, fail, Fallible-cases, ok-injective, fail-ne-ok}
use wolochain.Config.{Config}
use wolochain.Table.{challenge_key, find, find-put, key_eq_refl}
use wolochain.Node.{Node}
use wolochain.World.{
  content, World, challenge_record_path, challenge_lock_path, write_challenge_stored_result,
}
use wolochain.Json.Challenges.{json_challenge_response, json_challenge_stored_result}
use wolochain.Lock.Exclusive.{Agree, Agree-trans, with_lock_rule}
use wolochain.Run.Execute.{execute_run}
use wolochain.Challenge.{
  TopUpResult, NormalizedChallenge, ChallengeResponse, ChallengeStoredResult, ChallengePlan,
}
use wolochain.Challenge.Finalize.{challenge_is_final}
use wolochain.Challenge.TopUp.{execute_challenge_top_up}
use wolochain.Challenge.Execute.{
  challenge_in_progress, challenge_failed, top_up_failed_challenge, finished_challenge,
  answer_fails, record_challenge, execute_after_top_up, execute_challenge_run,
  execute_topped_up_challenge, execute_planned_challenge, execute_challenge_stored,
  execute_challenge_planned,
}

-- JSON changes no test of whether a challenge is final.
json_challenge_response-final :
    (r : ChallengeResponse) → challenge_is_final (json_challenge_response r) ≡ challenge_is_final r
unfolding challenge_is_final
json_challenge_response-final r = refl

module _ {C : Type 0} (node : Node C) (cfg : Config) where
  -- The file of a challenge says that it was executed with a response, as JSON reads it back.
  abbrev pub ChallengeRecorded : Text → NormalizedChallenge → ChallengeResponse → World C → Type 0
  ChallengeRecorded id challenge r w =
      (stored : ChallengeStoredResult) × (find (challenge_key id) w.challenges
        ≡ some (content stored))
      × (stored.fingerprint ≡ node.challenge_fingerprint challenge)
      × (stored.response ≡ json_challenge_response r)

  write_challenge_stored_result-stores :
      (id : Text) (result : ChallengeStoredResult) (w : World C) {u : Unit {0}}
      → (write_challenge_stored_result node cfg id result w).0 ≡ ok u
      → find (challenge_key id) (write_challenge_stored_result node cfg id result w).1.challenges
        ≡ some (content (json_challenge_stored_result result))
  unfolding write_challenge_stored_result
  write_challenge_stored_result-stores id result w h =
      elim (Option-cases (node.write_file (challenge_record_path node cfg id) w.env).0) [
        | inl written ↦
            rw (written, write_challenge_stored_result)
              (rw find-put (rw (key_eq_refl (challenge_key id))))
        | inr (e, refused) ↦ absurd (ground arith)
      ]

  -- What an action leaves behind once it has answered.
  abbrev Records : Text → ChallengePlan → Fallible ChallengeResponse × World C → Type 0
  Records id plan answer =
      (done : ChallengeResponse)
      → answer.0 ≡ ok done
      → ChallengeRecorded id plan.normalized done answer.1

  record_challenge-Records :
      (id : Text) (plan : ChallengePlan) (r : ChallengeResponse) (w : World C)
      → Records id plan (record_challenge node cfg id plan r w)
  unfolding record_challenge
  record_challenge-Records id plan r w done h =
      let stored : ChallengeStoredResult = record {
        request = plan.normalized;
        fingerprint = node.challenge_fingerprint plan.normalized;
        response = r;
      } in
      elim (Fallible-cases (write_challenge_stored_result node cfg id stored w).0) [
        | inl (u, written) ↦
            rw (written, record_challenge)
              (
                json_challenge_stored_result stored,
                write_challenge_stored_result-stores id stored w written,
                refl,
                ap json_challenge_response (ok-injective (rw (written, record_challenge) at h)),
              )
        | inr (e, refused) ↦ absurd (fail-ne-ok (rw (refused, record_challenge) at h))
      ]

  execute_challenge_run-Records :
      (id : Text) (plan : ChallengePlan) (r : ChallengeResponse) (w : World C)
      → Records id plan (execute_challenge_run node cfg id plan r w)
  unfolding execute_challenge_run
  execute_challenge_run-Records id plan r w done h =
      elim (Fallible-cases (execute_run node cfg plan.run_request w).0) [
        | inl (run, ran) ↦
            rw (ran, execute_challenge_run)
              (record_challenge-Records id plan (finished_challenge plan r run) _ done
                (rw (ran, execute_challenge_run) at h))
        | inr (e, stopped) ↦ absurd (fail-ne-ok (rw (stopped, execute_challenge_run) at h))
      ]

  execute_after_top_up-Records :
      (id : Text) (plan : ChallengePlan) (r : ChallengeResponse) (q : Fallible TopUpResult)
      (w : World C)
      → Records id plan (execute_after_top_up node cfg id plan r q w)
  unfolding execute_after_top_up
  execute_after_top_up-Records id plan r (fail e) w = λ done h. absurd (fail-ne-ok h)
  execute_after_top_up-Records id plan r (ok q) w = elim (Bool-cases (answer_fails q.response)) [
    | inl fails ↦
        rw (fails, execute_after_top_up)
          (record_challenge-Records id plan (top_up_failed_challenge q r) w)
    | inr fine ↦
        rw (fine, execute_after_top_up)
          (execute_challenge_run-Records id plan (record r { top_up = some q }) w)
  ]

  -- A challenge goes on without a top-up, or with the answer of its top-up.
  pub execute_topped_up_challenge-cases :
      (id : Text) (plan : ChallengePlan) (r : ChallengeResponse) (p : TopUpResult) (w : World C)
      → (execute_topped_up_challenge node cfg id plan r (some p) w
          ≡ execute_challenge_run node cfg id plan r w)
        ⊎ (execute_topped_up_challenge node cfg id plan r (some p) w
            ≡ execute_after_top_up node cfg id plan r
                (execute_challenge_top_up node cfg id p w).0
                (execute_challenge_top_up node cfg id p w).1)
  unfolding execute_topped_up_challenge
  execute_topped_up_challenge-cases id plan r p w = elim (Bool-cases p.required) [
    | inr idle ↦ inl (ground arith)
    | inl needed ↦ inr (ground arith)
  ]

  execute_topped_up_challenge-Records :
      (id : Text) (plan : ChallengePlan) (r : ChallengeResponse) (p : Option TopUpResult)
      (w : World C)
      → Records id plan (execute_topped_up_challenge node cfg id plan r p w)
  unfolding execute_topped_up_challenge
  execute_topped_up_challenge-Records id plan r none w = execute_challenge_run-Records id plan r w
  execute_topped_up_challenge-Records id plan r (some p) w =
      elim (execute_topped_up_challenge-cases id plan r p w) [
        | inl idle ↦ rw idle (execute_challenge_run-Records id plan r w)
        | inr needed ↦ rw needed (execute_after_top_up-Records id plan r _ _)
      ]

  -- A planned challenge goes on, or is recorded as failed.
  pub execute_planned_challenge-cases :
      (id : Text) (plan : ChallengePlan) (w : World C)
      → ((plan.response.succeeded ≡ false)
          × (execute_planned_challenge node cfg id plan w
              ≡ record_challenge node cfg id plan
                  (challenge_failed (record plan.response { dry_run = false }))
                  w))
        ⊎ ((plan.response.succeeded ≡ true)
            × (execute_planned_challenge node cfg id plan w
                ≡ execute_topped_up_challenge node cfg id plan
                    (record plan.response { dry_run = false })
                    plan.response.top_up
                    w))
  unfolding execute_planned_challenge
  execute_planned_challenge-cases id plan w = elim (Bool-cases plan.response.succeeded) [
    | inr refused ↦ inl (refused, ground arith)
    | inl validated ↦ inr (validated, ground arith)
  ]

  execute_planned_challenge-Records :
      (id : Text) (plan : ChallengePlan) (w : World C)
      → Records id plan (execute_planned_challenge node cfg id plan w)
  execute_planned_challenge-Records id plan w = elim (execute_planned_challenge-cases id plan w) [
    | inl (_, refused) ↦ rw refused (record_challenge-Records id plan _ w)
    | inr (_, validated) ↦ rw validated (execute_topped_up_challenge-Records id plan _ _ w)
  ]

  -- A recorded response as a later execution answers it.
  abbrev pub replayed_challenge : ChallengeResponse → ChallengeResponse
  replayed_challenge r = record r { dry_run = false; idempotent_replay = true }

  execute_challenge_stored-replay :
      (id : Text) (plan : ChallengePlan) (r : ChallengeResponse) (w : World C)
      → ChallengeRecorded id plan.normalized r w
      → challenge_is_final r ≡ true
      → execute_challenge_stored node cfg id plan (find (challenge_key id) w.challenges) w
        ≡ (ok (replayed_challenge (json_challenge_response r)), w)
  unfolding execute_challenge_stored
  execute_challenge_stored-replay id plan r w (stored, there, same, response) final =
      rw (there, execute_challenge_stored)
        (rw (same, text_eq_refl (node.challenge_fingerprint plan.normalized))
          (rw response (rw (json_challenge_response-final r ∙ final))))

  -- The answers that a later execution of a recorded challenge can get: the replay, that the lock
  -- is held, or an error of the disk.
  pub data ChallengeAnswers (id : Text) (r : ChallengeResponse)
      : Fallible ChallengeResponse → Type 0 where
    challenge_replayed : ChallengeAnswers id r (ok (replayed_challenge r))
    challenge_locked : ChallengeAnswers id r (ok (challenge_in_progress id))
    challenge_disk_error : (e : Text) → ChallengeAnswers id r (fail e)

  ChallengeRecorded-replay :
      (id : Text) (plan : ChallengePlan) (r : ChallengeResponse) (w : World C)
      → trim_space plan.response.settlement_run_id ≡ id
      → is_empty id ≡ false
      → ChallengeRecorded id plan.normalized r w
      → challenge_is_final r ≡ true
      → ChallengeAnswers id
          (json_challenge_response r)
          (execute_challenge_planned node cfg plan w).0
        × Agree w (execute_challenge_planned node cfg plan w).1
  unfolding execute_challenge_planned
  ChallengeRecorded-replay id plan r w named filled recorded final =
      rw (named, filled, execute_challenge_planned)
        (with_lock_rule node cfg (challenge_key id) (challenge_lock_path node cfg id)
          (λ answer v. ChallengeAnswers id (json_challenge_response r) answer × Agree w v)
          (λ answer u v a post. (post.0, Agree-trans post.1 a))
          (λ v. execute_challenge_stored node cfg id plan (find (challenge_key id) v.challenges) v)
          w (λ e v a. (challenge_disk_error e, a))
          (λ v a.
            rw
              (execute_challenge_stored-replay id plan r v
                (recorded.0, rw (← a.challenges) recorded.1, recorded.2, recorded.3) final)
              (challenge_replayed, a))
          (challenge_in_progress id) (λ v a. (challenge_locked, a)))

  -- A challenge is settled once. If a planned challenge is executed under its id and ends in a final
  -- response (not to be retried, and it succeeded, failed or was partial), then any later execution
  -- of the same normalized challenge under the same id, with the challenge files as that one left
  -- them and whatever the rest of its plan, the chain, the clock and the locks are by then, sends no
  -- command and writes no state file; it answers with the first response, as JSON
  -- reads it back and marked as a replay, or that
  -- the lock is held, or with an error of the disk.
  pub challenge_executed_once :
      (id : Text) (first again : ChallengePlan) (done : ChallengeResponse) (w later : World C)
      → (execute_planned_challenge node cfg id first w).0 ≡ ok done
      → challenge_is_final done ≡ true
      → later.challenges ≡ (execute_planned_challenge node cfg id first w).1.challenges
      → again.normalized ≡ first.normalized
      → trim_space again.response.settlement_run_id ≡ id
      → is_empty id ≡ false
      → ChallengeAnswers id
          (json_challenge_response done)
          (execute_challenge_planned node cfg again later).0
        × Agree later (execute_challenge_planned node cfg again later).1
  challenge_executed_once id first again done w later ended final same equal named filled =
      let (stored, there, printed, answered) =
        execute_planned_challenge-Records id first w done ended in
      ChallengeRecorded-replay id again done later named filled
        (stored, rw same there, rw equal printed, answered) final
