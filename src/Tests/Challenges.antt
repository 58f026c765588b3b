-- ===== src/Tests/Challenges.antt =====
-- A challenge of two players, whose deposits stand on a chain.
use wolochain.Prelude.{
  ℕ, ◌≡◌, refl, true, false, [], ◌∷◌, ◌++◌, if◌then◌else◌, length, is_empty, Bool, arith,
}
use wolochain.Text.{Text, text, contains, trim_space}
use wolochain.Decimal.{ℤ}
use wolochain.Fallible.{Fallible, ok, fail}
use wolochain.Responses.{Transfer, LookupResponse, blank_lookup}
use wolochain.World.{World}
use wolochain.Lock.Exclusive.{Agree}
use wolochain.Node.{Node, EventAttribute}
use wolochain.Challenge.{
  FundingExpectation, FundingInput, FundingResult, TransferInput, ChallengeRequest,
  ChallengeResponse, ChallengePlan, blank_funding,
}
use wolochain.Json.Challenges.{json_challenge_response}
use wolochain.Challenge.Memo.{parse_funding}
use wolochain.Challenge.Memo.Said.{SaysDeposit, parse_funding-SaysDeposit}
use wolochain.Challenge.Memo.Split.{IsSplit, parse_funding-IsSplit}
use wolochain.Challenge.Deposit.{verify_deposit}
use wolochain.Challenge.Deposit.Verified.{VerifiedAt, verify_deposit-IsVerified}
use wolochain.Challenge.Finalize.{challenge_is_final}
use wolochain.Challenge.Head.{blank_challenge}
use wolochain.Challenge.Plan.{build_challenge_plan}
use wolochain.Challenge.Plan.Conserved.{IsConserved, build_challenge_plan-IsConserved}
use wolochain.Challenge.Execute.{execute_planned_challenge, execute_challenge_planned}
use wolochain.Challenge.Finalize.Complete.{AllSent}
use wolochain.Challenge.Execute.Settled.{execute_planned_challenge-AllSent}
use wolochain.Challenge.Execute.Replay.{ChallengeAnswers, challenge_executed_once}
use wolochain.Tests.{
  chain, config, payout_address, player, other_player, hash, empty_world, program_runs,
}

abbrev pub attribute : Text → Text → EventAttribute
attribute key value = record { key = key; value = value }

abbrev deposit_memo : Text → Text
deposit_memo side =
    text "wolo.challenge.funding.v1:app=bet&cid=c1&side=" ++ (side ++ text "&w=20&g=10")

-- Deposits of 30 uwolo, the one behind `CD` of side b, any other of side a.
abbrev pub challenge_chain : Node ℕ
challenge_chain = record chain {
  get_tx = λ url c. (
    ok (
      200,
      record {
        memo = deposit_memo (if contains url (text "CD") then text "b" else text "a");
        height = b'7' ∷ [];
        tx_hash = hash;
        code = 0;
        codespace = [];
        raw_log = [];
        timestamp = [];
        logs = [];
        events =
            record {
              event_type = text "transfer";
              attributes =
                  attribute (text "sender") player
                  ∷ attribute (text "recipient") payout_address
                  ∷ attribute (text "amount") (text "30uw")
                  ∷ [];
            }
            ∷ [];
      },
    ),
    c,
  );
}

abbrev funding_input : Text → FundingInput
funding_input tx_hash = record {
  funding_tx_hash = tx_hash;
  depositor_address = [];
  settlement_run_id = [];
  participant_side = [];
  participant_id = [];
  expected_amount_uwolo = [];
  wager_uwolo = [];
  guarantee_uwolo = [];
}

abbrev transfer_input : Text → Text → Text → Text → TransferInput
transfer_input side bucket amount address = record {
  request_id = [];
  participant_side = side;
  participant_id = [];
  bucket = bucket;
  reason = text "payout";
  to_address = address;
  amount_uwolo = amount;
  amount_wolo = ℤ.pos 0;
  memo = [];
}

abbrev pub challenge_request : ChallengeRequest
challenge_request = record {
  settlement_run_id = text "run";
  source_app = text "bet";
  challenge_id = text "c1";
  source_event_id = [];
  treasury_address = [];
  note = [];
  memo = [];
  funding = funding_input (text "AB") ∷ funding_input (text "CD") ∷ [];
  transfers =
      transfer_input (text "a") (text "wager") (text "20") player
      ∷ transfer_input (text "a") (text "guarantee") (text "10") player
      ∷ transfer_input (text "b") (text "wager") (text "20") player
      ∷ transfer_input (text "b") (text "guarantee") (text "10") other_player
      ∷ [];
}

challenge_planned :
    (build_challenge_plan challenge_chain config challenge_request 0).0.response.succeeded ≡ true
unfolding program_runs
challenge_planned = refl

build_challenge_plan-IsConserved_example :
    IsConserved (build_challenge_plan challenge_chain config challenge_request 0).0.response
build_challenge_plan-IsConserved_example =
    build_challenge_plan-IsConserved challenge_chain config challenge_request 0 challenge_planned

-- What a deposit of side a is expected to be.
abbrev expectation : FundingExpectation
expectation = record {
  sender = player;
  source_app = text "bet";
  settlement_run_id = [];
  challenge_id = text "c1";
  source_event_id = [];
  participant_side = text "A";
  participant_id = [];
  total_funded_uwolo = text "30";
  wager_uwolo = text "20";
  guarantee_uwolo = [];
}

deposit_accepted : (verify_deposit challenge_chain config hash expectation 0).0.succeeded ≡ true
unfolding program_runs
deposit_accepted = refl

verify_deposit-IsVerified_example :
    VerifiedAt challenge_chain config hash expectation 0
      (verify_deposit challenge_chain config hash expectation 0).0
verify_deposit-IsVerified_example =
    verify_deposit-IsVerified challenge_chain config hash expectation 0 deposit_accepted

abbrev deposit_transfer : Text → Transfer
deposit_transfer amount = record {
  sender = player;
  recipient = payout_address;
  amount = amount;
  denom = text "uw";
}

abbrev deposit_lookup : Text → LookupResponse
deposit_lookup memo = record blank_lookup { memo = memo; tx_hash = hash }

abbrev fallible_or : FundingResult → Fallible FundingResult → FundingResult
fallible_or r (ok s) = s
fallible_or r (fail e) = r

-- A deposit of 1 uwolo whose memo names a wager of 2^64 - 1 uwolo: the two parts wrap around.
abbrev wrapping_memo : Text
wrapping_memo = text "wolo.challenge.funding.v1:app=bet&cid=c1&side=a&w=18446744073709551615&g=2"

abbrev wrapping_deposit : FundingResult
wrapping_deposit =
    fallible_or blank_funding
      (parse_funding (deposit_transfer (text "1")) (deposit_lookup wrapping_memo) payout_address)

wrapping_deposit_read :
    parse_funding (deposit_transfer (text "1")) (deposit_lookup wrapping_memo) payout_address
    ≡ ok wrapping_deposit
unfolding program_runs
wrapping_deposit_read = refl

parse_funding-IsSplit_example : IsSplit (text "1") wrapping_deposit
parse_funding-IsSplit_example =
    parse_funding-IsSplit (deposit_transfer (text "1")) (deposit_lookup wrapping_memo)
      payout_address wrapping_deposit wrapping_deposit_read

parse_funding-SaysDeposit_example :
    SaysDeposit (trim_space (deposit_lookup wrapping_memo).memo) wrapping_deposit
parse_funding-SaysDeposit_example =
    parse_funding-SaysDeposit (deposit_transfer (text "1")) (deposit_lookup wrapping_memo)
      payout_address wrapping_deposit wrapping_deposit_read

-- A chain whose transaction pays 30 of another denom into escrow, with 1 uwolo.
abbrev other_denom_chain : Node ℕ
other_denom_chain = record chain {
  get_tx = λ url c. (
    ok (
      200,
      record {
        memo = deposit_memo (text "a");
        height = b'7' ∷ [];
        tx_hash = hash;
        code = 0;
        codespace = [];
        raw_log = [];
        timestamp = [];
        logs = [];
        events =
            record {
              event_type = text "transfer";
              attributes =
                  attribute (text "sender") player
                  ∷ attribute (text "recipient") payout_address
                  ∷ attribute (text "amount") (text "30junk,1uw")
                  ∷ [];
            }
            ∷ [];
      },
    ),
    c,
  );
}

-- The denom of a matched transfer is not looked at: the deposit is verified.
other_denom_accepted :
    (verify_deposit other_denom_chain config hash expectation 0).0.succeeded ≡ true
unfolding program_runs
other_denom_accepted = refl

abbrev challenge_plan : ChallengePlan
challenge_plan = (build_challenge_plan challenge_chain config challenge_request 0).0

abbrev settled : Fallible ChallengeResponse × World ℕ
settled = execute_planned_challenge challenge_chain config (text "run") challenge_plan empty_world

abbrev response_of : Fallible ChallengeResponse → ChallengeResponse
response_of (ok r) = r
response_of (fail e) = blank_challenge

abbrev is_ok : Fallible ChallengeResponse → Bool
is_ok (ok r) = true
is_ok (fail e) = false

ok_response :
    (answer : Fallible ChallengeResponse) → is_ok answer ≡ true → answer ≡ ok (response_of answer)
ok_response (ok r) h = refl
ok_response (fail e) h = absurd (ground arith)

settled_is_ok : is_ok settled.0 ≡ true
unfolding program_runs
settled_is_ok = refl

settled_answers : settled.0 ≡ ok (response_of settled.0)
settled_answers = ok_response settled.0 settled_is_ok

settled_is_final : challenge_is_final (response_of settled.0) ≡ true
unfolding program_runs
settled_is_final = refl

plan_keeps_id : trim_space challenge_plan.response.settlement_run_id ≡ text "run"
unfolding program_runs
plan_keeps_id = refl

id_is_filled : is_empty (text "run") ≡ false
unfolding text
id_is_filled = refl

-- All four transfers are sent.
settled_sends_four : length settled.1.sent ≡ 4
unfolding program_runs
settled_sends_four = refl

challenge_executed_once_example :
    ChallengeAnswers challenge_chain config
      (text "run")
      (json_challenge_response (response_of settled.0))
      (execute_challenge_planned challenge_chain config challenge_plan settled.1).0
    × Agree settled.1 (execute_challenge_planned challenge_chain config challenge_plan settled.1).1
challenge_executed_once_example =
    challenge_executed_once challenge_chain config (text "run") challenge_plan challenge_plan
      (response_of settled.0) empty_world settled.1 settled_answers settled_is_final refl refl
      plan_keeps_id id_is_filled

settled_succeeds : (response_of settled.0).succeeded ≡ true
unfolding program_runs
settled_succeeds = refl

execute_planned_challenge-AllSent_example :
    AllSent (response_of settled.0).transfers
    × (length (response_of settled.0).transfers ≡ length challenge_request.transfers)
execute_planned_challenge-AllSent_example =
    execute_planned_challenge-AllSent challenge_chain config (text "run") challenge_request 0
      empty_world (response_of settled.0) settled_answers settled_succeeds
