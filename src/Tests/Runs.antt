-- ===== src/Tests/Runs.antt =====
-- The statements about runs, on a run of two lines.
use wolochain.Prelude.{
  ℕ, ◌≡◌, ◌≢◌, ◌+◌, ◌%◌, is_empty, refl, true, false, [], ◌∷◌, some, arith, length,
}
use wolochain.Text.{trim_space}
use wolochain.World.{World}
use wolochain.Decimal.{u64_mod, parse_optional_uwolo}
use wolochain.Fallible.{Fallible, ok, fail}
use wolochain.Codes.{Status}
use wolochain.Json.Runs.{json_run_response}
use wolochain.Run.{RunRequest, NormalizedRun, RunResponse}
use wolochain.Run.Prepare.{prepare_run}
use wolochain.Run.Prepare.Lines.{
  DistinctFrom, sum_of, prepare_run-DistinctFrom, requested_total_wraps,
}
use wolochain.Run.Finalize.{finalize, run_is_final}
use wolochain.Run.Finalize.Totals.{AllExecuted}
use wolochain.Run.Finalize.Verdict.{IsFresh, finalize-parts, finalize-succeeds}
use wolochain.Run.Plan.{build_plan, requires_escrow_signer}
use wolochain.Run.Plan.Covered.{IsFunded, build_plan-IsFunded}
use wolochain.Run.Execute.{run_signer, execute_planned, execute_run_planned, execute_run}
use wolochain.Run.Execute.Sends.{Adds, run_sends}
use wolochain.Run.Execute.Replay.{RunAnswers, IsIdle, run_executed_once}
use wolochain.Run.Execute.Refused.{execute_run-IsFunded, market_run_idle}
use wolochain.Run.Execute.Complete.{IsComplete, execute_planned-IsComplete}
use wolochain.Tests.{chain, config, run_request, line, player, empty_world, program_runs}
use wolochain.Run.Blank.{blank_result, blank_run}
use wolochain.Run.Head.{read_head}

prepare_run-DistinctFrom_example : DistinctFrom [] (prepare_run run_request).0.payouts
prepare_run-DistinctFrom_example = prepare_run-DistinctFrom run_request

head_is_valid : is_empty (read_head run_request).errors ≡ true
unfolding program_runs
head_is_valid = refl

requested_total_wraps_example :
    parse_optional_uwolo (prepare_run run_request).1.requested_total_uwolo
    ≡ some (sum_of (prepare_run run_request).0.payouts % u64_mod)
requested_total_wraps_example = requested_total_wraps run_request head_is_valid

run_is_valid : (build_plan chain config run_request 0).0.1.succeeded ≡ true
unfolding program_runs
run_is_valid = refl

build_plan-IsFunded_example :
    IsFunded chain config (prepare_run run_request).0 (prepare_run run_request).1 0
build_plan-IsFunded_example = build_plan-IsFunded chain config run_request 0 run_is_valid

run_sends_example :
    Adds chain config
      (run_signer (prepare_run run_request).0)
      (prepare_run run_request).0.payouts
      []
      (execute_run chain config run_request empty_world).1.sent
run_sends_example = run_sends chain config run_request empty_world

-- Both lines are sent.
run_sends_two : length (execute_run chain config run_request empty_world).1.sent ≡ 2
unfolding program_runs
run_sends_two = refl

run_sends_something : (execute_run chain config run_request empty_world).1.sent ≢ []
unfolding program_runs
run_sends_something e = absurd (cc e)

execute_run-IsFunded_example :
    IsFunded chain config (prepare_run run_request).0 (prepare_run run_request).1 0
execute_run-IsFunded_example =
    execute_run-IsFunded chain config run_request empty_world run_sends_something

-- The same run as a bet market of AoE2HDBets.
abbrev market_request : RunRequest
market_request = record run_request {
  source_app = b'a' ∷ b'o' ∷ b'e' ∷ b'2' ∷ b'h' ∷ b'd' ∷ b'b' ∷ b'e' ∷ b't' ∷ b's' ∷ [];
  source_event_id =
      b'b' ∷ b'e' ∷ b't' ∷ b'-' ∷ b'm' ∷ b'a' ∷ b'r' ∷ b'k' ∷ b'e' ∷ b't' ∷ b'-' ∷ b'1' ∷ [];
}

market_needs_escrow : requires_escrow_signer (prepare_run market_request).0 ≡ true
unfolding program_runs
market_needs_escrow = refl

market_run_idle_example : (execute_run chain config market_request empty_world).1.sent ≡ []
market_run_idle_example =
    market_run_idle chain config market_request empty_world market_needs_escrow

-- The response of the executed run.
abbrev run_reply : Fallible RunResponse
run_reply =
    (execute_planned chain config [] [] (build_plan chain config run_request 0).0.0
      (record (build_plan chain config run_request 0).0.1 { dry_run = false }) empty_world).0

abbrev response_of_run : Fallible RunResponse → RunResponse
response_of_run (ok r) = r
response_of_run (fail e) = blank_run

run_replies : run_reply ≡ ok (response_of_run run_reply)
unfolding program_runs
run_replies = refl

run_succeeds : (response_of_run run_reply).succeeded ≡ true
unfolding program_runs
run_succeeds = refl

execute_planned-IsComplete_example :
    IsComplete (response_of_run run_reply) × (length (response_of_run run_reply).payouts ≡ 2)
execute_planned-IsComplete_example =
    execute_planned-IsComplete chain config run_request [] [] 0 empty_world
      (response_of_run run_reply) run_replies run_succeeds

-- A run of one payout that was confirmed.
abbrev fresh_run : RunResponse
fresh_run = record blank_run {
  requested_payout_count = 1;
  payouts = record blank_result { status = Status.confirmed; amount_uwolo = b'5' ∷ [] } ∷ [];
}

fresh_run-IsFresh : IsFresh fresh_run
fresh_run-IsFresh = record {
  status = refl;
  succeeded = refl;
  executed = refl;
  confirmed = refl;
  accepted = refl;
}

finalize-parts_example :
    (finalize fresh_run).executed_payout_count
    ≡ (finalize fresh_run).confirmed_payout_count + (finalize fresh_run).accepted_payout_count
finalize-parts_example = finalize-parts fresh_run fresh_run-IsFresh

fresh_run_succeeds : (finalize fresh_run).succeeded ≡ true
unfolding program_runs
fresh_run_succeeds = refl

finalize-succeeds_example :
    AllExecuted fresh_run.payouts × ((finalize fresh_run).requested_payout_count ≡ 1)
finalize-succeeds_example =
    finalize-succeeds fresh_run fresh_run-IsFresh (omega arith) fresh_run_succeeds

-- The plan of the run, and the outside after its execution.
abbrev two_payouts : NormalizedRun
two_payouts = (prepare_run run_request).0

abbrev validated_plan : RunResponse
validated_plan = (build_plan chain config run_request 0).0.1

abbrev executed : Fallible RunResponse × World ℕ
executed =
    execute_planned chain config run_request.settlement_run_id [] two_payouts validated_plan
      empty_world

executed_answers : executed.0 ≡ ok (response_of_run executed.0)
unfolding program_runs
executed_answers = refl

executed_is_final : run_is_final (response_of_run executed.0) ≡ true
unfolding program_runs
executed_is_final = refl

plan_keeps_id : trim_space validated_plan.settlement_run_id ≡ run_request.settlement_run_id
unfolding program_runs
plan_keeps_id = refl

run_executed_once_example :
    RunAnswers chain config run_request.settlement_run_id validated_plan.signer_role
      (json_run_response (response_of_run executed.0))
      (execute_run_planned chain config run_request two_payouts validated_plan executed.1).0
    × IsIdle chain config executed.1
        (execute_run_planned chain config run_request two_payouts validated_plan executed.1).1
run_executed_once_example =
    run_executed_once chain config run_request run_request.settlement_run_id two_payouts
      validated_plan validated_plan (response_of_run executed.0) empty_world executed.1
      executed_answers executed_is_final refl plan_keeps_id refl

-- A run with a line whose address is not one of the chain: the plan is valid, the other line is
-- sent, and the run ends with no status and no success.
abbrev mixed_request : RunRequest
mixed_request = record run_request { payouts = line player ∷ line [] ∷ [] }

abbrev mixed_answer : RunResponse
mixed_answer = response_of_run (execute_run chain config mixed_request empty_world).0

mixed_run_ends_blank :
    (mixed_answer.status ≡ Status.no_status)
    × (mixed_answer.succeeded ≡ false)
    × (mixed_answer.executed_payout_count ≡ 1)
    × (mixed_answer.requested_payout_count ≡ 2)
unfolding program_runs
mixed_run_ends_blank = (refl, refl, refl, refl)
