-- ===== src/Challenge/Execute.antt =====
-- `executeSettlementChallenge` of cmd/wolochaind/cmd/settlement_challenge.go: the plan of a
-- challenge, then, under the challenge's lock, the top-up of the payout signer and the run.
pub mod Replay
pub mod Settled
use wolochain.Prelude.{
  ℕ, Bool, true, false, not, ◌&&◌, ◌||◌, [], ◌++◌, Option, none, some, if◌then◌else◌, is_empty,
}
use wolochain.Text.{Text, text, text_eq, trim_space}
use wolochain.Fallible.{Fallible, ok, fail}
use wolochain.Codes.{Status, FailureCode}
use wolochain.Config.{Config}
use wolochain.Responses.{ExecuteResponse}
use wolochain.Table.{challenge_key, find}
use wolochain.Node.{Node}
use wolochain.World.{
  File, unreadable, content, World, Action, set_env, challenge_lock_path,
  write_challenge_stored_result,
}
use wolochain.Lock.{with_lock}
use wolochain.Run.{RunResponse}
use wolochain.Run.Execute.{execute_run}
use wolochain.Challenge.{
  TopUpResult, ChallengeRequest, ChallengeResponse, ChallengeStoredResult, ChallengePlan,
}
use wolochain.Challenge.Deposit.{code_or}
use wolochain.Challenge.Head.{blank_challenge}
use wolochain.Challenge.Finalize.{
  merge_run_results, finalize_challenge, challenge_execution_detail, mark_transfers_failed,
  challenge_is_final,
}
use wolochain.Challenge.TopUp.{execute_challenge_top_up}
use wolochain.Challenge.Plan.{build_challenge_plan}

-- The answer of a challenge that cannot be executed under its id.
abbrev pub challenge_refused : Text → ChallengeResponse → FailureCode → Text → ChallengeResponse
challenge_refused id r why message = record blank_challenge {
  status = Status.failed;
  failure_code = why;
  settlement_run_id = id;
  source_app = r.source_app;
  challenge_id = r.challenge_id;
  source_event_id = r.source_event_id;
  treasury_address = r.treasury_address;
  note = r.note;
  memo = r.memo;
  detail = message;
}

-- The answer of `withChallengeLock` where the lock is held.
unfoldable pub challenge_in_progress : Text → ChallengeResponse
challenge_in_progress id = record blank_challenge {
  status = Status.failed;
  failure_code = FailureCode.challenge_in_progress;
  retryable = true;
  settlement_run_id = id;
  detail =
      text "another challenge settlement attempt with this settlement_run_id is already running";
}

-- A challenge whose ready transfers are refused with it.
unfoldable pub challenge_failed : ChallengeResponse → ChallengeResponse
challenge_failed r =
    finalize_challenge (record r {
      transfers = mark_transfers_failed r.failure_code r.detail r.retryable r.transfers;
    })

abbrev pub answer_fails : Option ExecuteResponse → Bool
answer_fails none = true
answer_fails (some answer) = not answer.succeeded

abbrev answer_retryable : Option ExecuteResponse → Bool
answer_retryable none = false
answer_retryable (some answer) = answer.retryable

-- The challenge after a top-up that failed.
unfoldable pub top_up_failed_challenge : TopUpResult → ChallengeResponse → ChallengeResponse
top_up_failed_challenge p r =
    let message = trim_space p.detail in
    challenge_failed (record r {
      top_up = some p;
      succeeded = false;
      status = Status.failed;
      failure_code = code_or p.failure_code FailureCode.escrow_top_up_failed;
      retryable = answer_retryable p.response;
      detail = if is_empty message then text "escrow top-up failed" else message;
    })

-- The challenge with the results of its run, and nothing counted anew.
unfoldable pub with_run : ChallengePlan → ChallengeResponse → RunResponse → ChallengeResponse
with_run plan r run = record r {
  run = some run;
  transfers = merge_run_results plan.normalized.transfers run;
  status = Status.no_status;
  succeeded = false;
  failure_code = FailureCode.no_failure;
  retryable = run.retryable;
  idempotent_replay = false;
}

unfoldable pub finished_challenge :
    ChallengePlan → ChallengeResponse → RunResponse → ChallengeResponse
finished_challenge plan r run =
    let done = finalize_challenge (with_run plan r run) in
    record done { detail = challenge_execution_detail done }

module _ {C : Type 0} (node : Node C) (cfg : Config) where
  -- The record of a challenge that has its response.
  unfoldable pub record_challenge :
      Text → ChallengePlan → ChallengeResponse → Action C ChallengeResponse
  record_challenge id plan r w =
      let (written, w') =
        write_challenge_stored_result node cfg id
          (record {
            request = plan.normalized;
            fingerprint = node.challenge_fingerprint plan.normalized;
            response = r;
          })
          w in
      elim written [ fail e ↦ (fail e, w') | ok _ ↦ (ok r, w') ]

  unfoldable pub execute_challenge_run :
      Text → ChallengePlan → ChallengeResponse → Action C ChallengeResponse
  execute_challenge_run id plan r w =
      let (run, w') = execute_run node cfg plan.run_request w in
      elim run [
        | fail e ↦ (fail e, w')
        | ok run ↦ record_challenge id plan (finished_challenge plan r run) w'
      ]

  unfoldable pub execute_after_top_up :
      Text → ChallengePlan → ChallengeResponse → Fallible TopUpResult → Action C ChallengeResponse
  execute_after_top_up id plan r (fail e) w = (fail e, w)
  execute_after_top_up id plan r (ok q) w =
      if answer_fails q.response
      then record_challenge id plan (top_up_failed_challenge q r) w
      else execute_challenge_run id plan (record r { top_up = some q }) w

  -- The run behind its top-up.
  unfoldable pub execute_topped_up_challenge :
      Text → ChallengePlan → ChallengeResponse → Option TopUpResult → Action C ChallengeResponse
  execute_topped_up_challenge id plan r none w = execute_challenge_run id plan r w
  execute_topped_up_challenge id plan r (some p) w =
      let (topped_up, w') = execute_challenge_top_up node cfg id p w in
      let without = execute_challenge_run id plan r w in
      if not p.required then without else execute_after_top_up id plan r topped_up w'

  unfoldable pub execute_planned_challenge : Text → ChallengePlan → Action C ChallengeResponse
  execute_planned_challenge id plan w =
      let r = record plan.response { dry_run = false } in
      let executed = execute_topped_up_challenge id plan r r.top_up w in
      if not r.succeeded then record_challenge id plan (challenge_failed r) w else executed

  -- Under the challenge's lock, with what the state directory holds under its id.
  unfoldable pub execute_challenge_stored :
      Text → ChallengePlan → Option (File ChallengeStoredResult) → Action C ChallengeResponse
  execute_challenge_stored id plan none w = execute_planned_challenge id plan w
  execute_challenge_stored id plan (some (unreadable e)) w = (
    ok (
        challenge_refused id plan.response FailureCode.state_file_invalid
          (text "could not read challenge settlement state file: " ++ e)),
    w,
  )
  execute_challenge_stored id plan (some (content stored)) w =
      let again = execute_planned_challenge id plan w in
      if not (text_eq stored.fingerprint (node.challenge_fingerprint plan.normalized))
      then (
        ok (
            challenge_refused id plan.response FailureCode.idempotency_conflict (
              text "settlement_run_id already exists with different challenge settlement payload")),
        w,
      )
      else if challenge_is_final stored.response
      then (ok (record stored.response { dry_run = false; idempotent_replay = true }), w)
      else again

  -- `withChallengeLock`
  abbrev with_challenge_lock : Text → Action C ChallengeResponse → Action C ChallengeResponse
  with_challenge_lock id =
      with_lock node cfg (challenge_key id) (challenge_lock_path node cfg id)
        (challenge_in_progress id)

  -- A planned challenge behind its lock.
  unfoldable pub execute_challenge_planned : ChallengePlan → Action C ChallengeResponse
  execute_challenge_planned plan w =
      let id = trim_space plan.response.settlement_run_id in
      if is_empty id
      then (ok (record plan.response { dry_run = false }), w)
      else with_challenge_lock id
          (λ v. execute_challenge_stored id plan (find (challenge_key id) v.challenges) v) w

  -- `executeSettlementChallenge`
  unfoldable pub execute_challenge : ChallengeRequest → Action C ChallengeResponse
  execute_challenge request w =
      let (plan, c) = build_challenge_plan node cfg request w.env in
      execute_challenge_planned plan (set_env w c)
