-- ===== src/Tests/Requests.antt =====
-- The statements about single transfers, on the concrete outside.
use wolochain.Prelude.{some, arith, ℕ, ◌≡◌, ◌≢◌, refl, true, false, [], ◌∷◌, none}
use wolochain.Fallible.{Fallible, ok, fail}
use wolochain.Request.{NormalizedRequest}
use wolochain.Responses.{ExecuteResponse, blank_response}
use wolochain.Table.{request_key, find}
use wolochain.World.{World}
use wolochain.Broadcast.{reported, payout}
use wolochain.Health.{build_health_report}
use wolochain.Node.{Broadcast}
use wolochain.Lock.{with_lock}
use wolochain.Lock.Exclusive.{lock_released}
use wolochain.Broadcast.{broadcast}
use wolochain.Broadcast.Unanswered.{IsRejected, printed, first_lookup, broadcast-IsRejected}
use wolochain.Codes.{is_tx_not_found}
use wolochain.Broadcast.Outcome.{IsSettled, broadcast-IsSettled}
use wolochain.Execute.Preflight.{
  IsCovered, LetsThrough, escrow_floor, preflight_execution-LetsThrough,
  preflight_escrow_signer-IsCovered,
}
use wolochain.Execute.{
  is_final, same_request, execute_normalized, preflight_execution, preflight_escrow_signer,
}
use wolochain.Lock.Runs.{TakesFiles}
use wolochain.Json.{json_text}
use wolochain.Json.Requests.{json_request}
use wolochain.Execute.Answered.{new_request_answered}
use wolochain.Execute.Replay.Ascii.{IsAsciiRequest, Replays, ascii_request_replayed}
use wolochain.Execute.Replay.{Recorded, Answers, Unchanged, executed_once}
use wolochain.Execute.Sends.{Outcome, Covered, sends_at_most_one, execute_normalized-Covered}
use wolochain.Tests.{
  chain, silent_chain, config, accepted_request, empty_world, hash, payout_address, program_runs,
}

-- The response of a first attempt.
abbrev first_answer : Fallible ExecuteResponse
first_answer = (execute_normalized chain config payout accepted_request empty_world).0

abbrev response_of : Fallible ExecuteResponse → ExecuteResponse
response_of (ok r) = r
response_of (fail e) = blank_response

abbrev after_first : World ℕ
after_first = (execute_normalized chain config payout accepted_request empty_world).1

first_succeeds : (response_of first_answer).succeeded ≡ true
unfolding program_runs
first_succeeds = refl

first_is_recorded : first_answer ≡ ok (response_of first_answer)
unfolding program_runs
first_is_recorded = refl

first_is_final : is_final (response_of first_answer) ≡ true
unfolding program_runs
first_is_final = refl

nothing_before : find (request_key accepted_request.request_id) empty_world.requests ≡ none
unfolding program_runs
nothing_before = refl

executed_once_example :
    Answers chain config payout accepted_request
      (response_of first_answer)
      (execute_normalized chain config payout accepted_request after_first).0
    × Unchanged chain config after_first
        (execute_normalized chain config payout accepted_request after_first).1
executed_once_example =
    executed_once chain config payout accepted_request (response_of first_answer) empty_world
      after_first nothing_before first_is_recorded first_is_final refl

sends_at_most_one_example :
    Outcome chain config payout accepted_request empty_world
      (execute_normalized chain config payout accepted_request empty_world).1
sends_at_most_one_example = sends_at_most_one chain config payout accepted_request empty_world

first_sends : after_first.sent ≢ empty_world.sent
unfolding program_runs
first_sends e = absurd (cc e)

execute_normalized-Covered_example : (c : ℕ) × Covered chain config payout accepted_request c
execute_normalized-Covered_example =
    execute_normalized-Covered chain config payout accepted_request empty_world first_sends

-- A memo that was cut inside a rune is read back as another one: the request conflicts with itself.
abbrev cut_request : NormalizedRequest
cut_request = record accepted_request { memo = b'x' ∷ 226 ∷ 130 ∷ [] }

cut_request_conflicts : same_request (json_request cut_request) cut_request ≡ false
unfolding program_runs
cut_request_conflicts = refl

-- A whole rune of three bytes is kept.
whole_rune_kept : json_text (b'x' ∷ 226 ∷ 130 ∷ 172 ∷ []) ≡ b'x' ∷ 226 ∷ 130 ∷ 172 ∷ []
unfolding program_runs
whole_rune_kept = refl

payout_passes : (preflight_execution chain config accepted_request.amount_uwolo 0).0.1 ≡ none
unfolding program_runs
payout_passes = refl

preflight_execution-LetsThrough_example :
    LetsThrough chain config (build_health_report chain config 0).0 accepted_request.amount_uwolo
preflight_execution-LetsThrough_example =
    preflight_execution-LetsThrough chain config accepted_request.amount_uwolo 0 payout_passes

escrow_passes :
    (preflight_escrow_signer chain config accepted_request.amount_uwolo 0).0.failure ≡ none
unfolding program_runs
escrow_passes = refl

preflight_escrow_signer-IsCovered_example :
    IsCovered
      (escrow_floor config)
      accepted_request.amount_uwolo
      (preflight_escrow_signer chain config accepted_request.amount_uwolo 0).0.balance
preflight_escrow_signer-IsCovered_example =
    preflight_escrow_signer-IsCovered chain config accepted_request.amount_uwolo 0 escrow_passes

broadcast-IsSettled_example :
    IsSettled (broadcast chain config payout accepted_request payout_address empty_world).0
broadcast-IsSettled_example =
    broadcast-IsSettled chain config payout accepted_request payout_address empty_world

abbrev taken : Broadcast
taken = record { height = []; tx_hash = hash; code = 0; codespace = []; raw_log = [] }

taken_is_reported :
    reported silent_chain config payout
      (printed silent_chain config payout accepted_request empty_world)
    ≡ some taken
unfolding program_runs
taken_is_reported = refl

lookup_fails : (first_lookup silent_chain config hash 0).succeeded ≡ false
unfolding program_runs
lookup_fails = refl

lookup_is_unreachable :
    is_tx_not_found (first_lookup silent_chain config hash 0).failure_code ≡ false
unfolding program_runs
lookup_is_unreachable = refl

broadcast-IsRejected_example :
    IsRejected silent_chain config hash
      (broadcast silent_chain config payout accepted_request [] empty_world).0
broadcast-IsRejected_example =
    broadcast-IsRejected silent_chain config payout accepted_request [] taken empty_world
      taken_is_reported refl (omega arith) lookup_fails lookup_is_unreachable

no_lock : find (request_key hash) empty_world.locks ≡ none
unfolding program_runs
no_lock = refl

lock_released_example :
    find
      (request_key hash)
      (with_lock chain config (request_key hash) [] true (λ w. (ok false, w)) empty_world).1.locks
    ≡ none
lock_released_example =
    lock_released chain config (request_key hash) [] true (λ w. (ok false, w)) empty_world no_lock

-- The disk of the chain takes every file.
chain-TakesFiles : TakesFiles chain
chain-TakesFiles = record {
  makes = λ path c. refl;
  creates = λ path c. refl;
  writes = λ path c. refl;
}

no_lock_before : find (request_key accepted_request.request_id) empty_world.locks ≡ none
unfolding find
no_lock_before = refl

new_request_answered_example :
    (r : ExecuteResponse) × ((execute_normalized chain config payout accepted_request empty_world).0
      ≡ ok r)
    × Recorded chain config accepted_request r
        (execute_normalized chain config payout accepted_request empty_world).1
new_request_answered_example =
    new_request_answered chain config chain-TakesFiles payout accepted_request empty_world
      nothing_before no_lock_before

accepted-IsAsciiRequest : IsAsciiRequest accepted_request
unfolding program_runs
accepted-IsAsciiRequest = record {
  id = refl;
  address = refl;
  amount = refl;
  memo = refl;
  role = refl;
}

ascii_request_replayed_example :
    Replays chain config payout accepted_request
      (response_of first_answer)
      (execute_normalized chain config payout accepted_request after_first).0
ascii_request_replayed_example =
    ascii_request_replayed chain config payout accepted_request (response_of first_answer)
      empty_world after_first accepted-IsAsciiRequest nothing_before first_is_recorded
      first_is_final refl
