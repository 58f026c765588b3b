-- ===== src/Challenge/Plan.antt =====
-- The plan of a challenge: `buildSettlementChallengePlan` of
-- cmd/wolochaind/cmd/settlement_challenge.go behind its head, and `validateSettlementChallenge`.
pub mod Funded
pub mod Conserved
pub mod Counts
use wolochain.Prelude.{
  ℕ, ◌+◌, Bool, true, false, not, ◌&&◌, List, [], ◌∷◌, ◌++◌, Option, none, some, ◌==◌,
  if◌then◌else◌, is_empty, length,
}
use wolochain.Text.{Text, text, trim_space}
use wolochain.Decimal.{format_uint, format_display_amount, parse_optional_uwolo}
use wolochain.Codes.{Status, FailureCode, is_balance_failure}
use wolochain.Config.{Config}
use wolochain.Node.{Node}
use wolochain.Lookup.{normalize_tx_hash}
use wolochain.Run.{RunRequest, RunResponse}
use wolochain.Run.Head.{join}
use wolochain.Run.Plan.{validate_run}
use wolochain.Run.Tally.{add_u64}
use wolochain.Challenge.{
  FundingExpectation, FundingInput, FundingResult, FundingVerification, NormalizedFunding,
  TopUpResult, ChallengeRequest, ChallengeResponse, ChallengePlan, blank_funding,
}
use wolochain.Challenge.Deposit.{code_or, verify_deposit}
use wolochain.Challenge.Transfers.{TransferContext, check_participants}
use wolochain.Challenge.Lines.{
  Line, plan_lines, line_results, line_transfers, line_payouts, add_planned, check_allocation,
  has_invalid,
}
use wolochain.Challenge.Finalize.{finalize_challenge}
use wolochain.Challenge.TopUp.{build_top_up_plan}
use wolochain.Challenge.Head.{
  ChallengeHead, blank_run_request, read_challenge_head, challenge_base, normalized_base,
}

-- A deposit of the request: verified, or not.
pub data Deposit : Type 0 where
  refused_deposit : NormalizedFunding → FundingResult → Deposit
  verified_deposit : NormalizedFunding → FundingResult → Deposit

unfoldable pub normalize_funding : FundingInput → NormalizedFunding
normalize_funding input = record {
  funding_tx_hash = normalize_tx_hash input.funding_tx_hash;
  depositor_address = trim_space input.depositor_address;
  settlement_run_id = trim_space input.settlement_run_id;
  participant_side = trim_space input.participant_side;
  participant_id = trim_space input.participant_id;
  expected_amount_uwolo = trim_space input.expected_amount_uwolo;
  wager_uwolo = trim_space input.wager_uwolo;
  guarantee_uwolo = trim_space input.guarantee_uwolo;
}

-- What the head and a deposit of the request expect of its transaction.
unfoldable pub funding_expectation : ChallengeHead → NormalizedFunding → FundingExpectation
funding_expectation head n = record {
  sender = n.depositor_address;
  source_app = head.source_app;
  settlement_run_id = n.settlement_run_id;
  challenge_id = head.challenge_id;
  source_event_id = head.source_event_id;
  participant_side = n.participant_side;
  participant_id = n.participant_id;
  total_funded_uwolo = n.expected_amount_uwolo;
  wager_uwolo = n.wager_uwolo;
  guarantee_uwolo = n.guarantee_uwolo;
}

unfoldable pub deposit_of :
    ℕ → NormalizedFunding → FundingVerification → Option FundingResult → Deposit
deposit_of index n v none = refused_deposit n (record blank_funding {
  index = index;
  funding_tx_hash = n.funding_tx_hash;
  failure_code = code_or v.failure_code FailureCode.invalid_challenge;
  detail = v.detail;
})
deposit_of index n v (some r) =
    if v.succeeded
    then verified_deposit n (record r { index = index })
    else refused_deposit n (record r { index = index })

abbrev pub deposit_result : Deposit → FundingResult
deposit_result (refused_deposit n r) = r
deposit_result (verified_deposit n r) = r

abbrev deposit_input : Deposit → NormalizedFunding
deposit_input (refused_deposit n r) = n
deposit_input (verified_deposit n r) = n

abbrev pub deposit_results : List Deposit → List FundingResult
deposit_results [] = []
deposit_results (d ∷ ds) = deposit_result d ∷ deposit_results ds

abbrev deposit_inputs : List Deposit → List NormalizedFunding
deposit_inputs [] = []
deposit_inputs (d ∷ ds) = deposit_input d ∷ deposit_inputs ds

abbrev pub verified : List Deposit → List FundingResult
verified [] = []
verified (refused_deposit n r ∷ ds) = verified ds
verified (verified_deposit n r ∷ ds) = r ∷ verified ds

-- The funded total, in an `uint64`.
abbrev pub add_funded : ℕ → List FundingResult → ℕ
add_funded total [] = total
add_funded total (r ∷ rs) =
    add_funded
      (elim (parse_optional_uwolo r.total_funded_uwolo) [
        | none ↦ total
        | some amount ↦ add_u64 total amount
      ])
      rs

-- `firstNonEmpty` of a text and a literal
abbrev text_or : Text → Text → Text
text_or s literal = let trimmed = trim_space s in if is_empty trimmed then literal else trimmed

abbrev pub refuse_challenge : Text → ChallengeResponse → ChallengeResponse
refuse_challenge message r =
    finalize_challenge (record r { failure_code = FailureCode.invalid_challenge; detail = message })

abbrev pub approve_challenge : Text → ChallengeResponse → ChallengeResponse
approve_challenge message r = record r {
  succeeded = true;
  status = Status.validated;
  detail = message;
}

abbrev pub fail_challenge : FailureCode → Bool → Text → ChallengeResponse → ChallengeResponse
fail_challenge why again message r = record r {
  succeeded = false;
  status = Status.failed;
  failure_code = why;
  retryable = again;
  detail = message;
}

-- The `switch` at the end of the plan, where no top-up is required.
unfoldable pub judge_run : RunResponse → ChallengeResponse → ChallengeResponse
judge_run run r =
    if run.succeeded
    then approve_challenge (text "challenge settlement validated") r
    else fail_challenge run.failure_code run.retryable run.detail r

unfoldable pub judge_plan : RunResponse → Option TopUpResult → ChallengeResponse → ChallengeResponse
judge_plan run none r = judge_run run r
judge_plan run (some p) r =
    let why = code_or p.failure_code FailureCode.escrow_top_up_unavailable in
    if not p.required
    then judge_run run r
    else if not p.enabled
    then fail_challenge FailureCode.payout_top_up_required true
        (text_or p.detail
          (text "escrow top-up is required before executing this challenge settlement"))
        r
    else if not p.possible
    then fail_challenge why (is_balance_failure why) p.detail r
    else approve_challenge
        (text
          "challenge settlement validated; escrow top-up will fund the payout signer before execution")
        r

unfoldable pub challenge_run_request : ChallengeHead → List Line → RunRequest
challenge_run_request head lines = record {
  settlement_run_id = head.settlement_id;
  source_app = head.source_app;
  source_event_id =
      if is_empty (trim_space head.source_event_id)
      then trim_space head.challenge_id
      else trim_space head.source_event_id;
  note = head.note;
  memo = head.memo;
  signer_role = [];
  payouts = line_payouts lines;
}

-- The response with the deposits, and with the transfers.
unfoldable pub with_deposits : List Deposit → ChallengeResponse → ChallengeResponse
with_deposits deposits r =
    let total = format_uint (add_funded 0 (verified deposits)) in
    record r {
      funding = deposit_results deposits;
      funding_verified_count = length (verified deposits);
      funding_count = length deposits;
      funding_total_uwolo = total;
      funding_total_wolo = format_display_amount total;
    }

unfoldable pub with_lines : ℕ → List Line → ChallengeResponse → ChallengeResponse
with_lines participants lines r =
    let total = format_uint (add_planned 0 lines) in
    record r {
      participant_count = participants;
      transfers = line_results lines;
      requested_transfer_count = length lines;
      requested_total_uwolo = total;
      requested_total_wolo = format_display_amount total;
    }

unfoldable pub transfer_context : Config → ChallengeHead → TransferContext
transfer_context cfg head = record {
  settlement_id = head.settlement_id;
  memo = head.memo;
  treasury_address = head.treasury_address;
  address_prefix = cfg.address_prefix;
}

abbrev pub challenge_plan :
    ChallengeHead → List Deposit → List Line → RunRequest → ChallengeResponse → ChallengePlan
challenge_plan head deposits lines run_request r = record {
  normalized = record (normalized_base head) {
    funding = deposit_inputs deposits;
    transfers = line_transfers lines;
  };
  response = r;
  run_request = run_request;
}

module _ {C : Type 0} (node : Node C) (cfg : Config) where
  -- The loop over the deposits.
  unfoldable pub scan_funding : ChallengeHead → ℕ → List FundingInput → C → List Deposit × C
  scan_funding head index [] c = ([], c)
  scan_funding head index (input ∷ inputs) c =
      let n = normalize_funding input in
      let (v, c₁) = verify_deposit node cfg n.funding_tx_hash (funding_expectation head n) c in
      let (deposits, c₂) = scan_funding head (index + 1) inputs c₁ in
      (deposit_of index n v v.funding ∷ deposits, c₂)

  -- The run that the transfers make, with its top-up.
  unfoldable pub plan_challenge_run :
      ChallengeHead → RunRequest → ChallengeResponse → C → ChallengeResponse × C
  plan_challenge_run head run_request r c =
      let (run, c₁) = validate_run node cfg run_request c in
      let (top_up, c₂) = build_top_up_plan node cfg head.settlement_id run c₁ in
      (
        finalize_challenge (judge_plan run top_up (record r { run = some run; top_up = top_up })),
        c₂,
      )

  unfoldable pub plan_on_lines :
      ChallengeHead → List Deposit → List Line → ChallengeResponse → C → ChallengePlan × C
  plan_on_lines head deposits lines r c =
      let errors = check_allocation lines (verified deposits) in
      let run_request = challenge_run_request head lines in
      let (planned, c') = plan_challenge_run head run_request r c in
      if not (is_empty errors)
      then (
        challenge_plan head deposits lines blank_run_request (refuse_challenge (join errors) r),
        c,
      )
      else if has_invalid (line_results lines)
      then (
        challenge_plan head deposits lines blank_run_request
            (refuse_challenge (text "one or more challenge transfer lines are invalid") r),
        c,
      )
      else (challenge_plan head deposits lines run_request planned, c')

  unfoldable pub plan_on_deposits :
      ChallengeRequest → ChallengeHead → List Deposit → ChallengeResponse → C → ChallengePlan × C
  plan_on_deposits request head deposits r c =
      let errors = check_participants [] [] (verified deposits) in
      let lines =
        plan_lines (transfer_context cfg head) (verified deposits) [] 0 request.transfers in
      let planned =
        plan_on_lines head deposits lines (with_lines (length (verified deposits)) lines r) c in
      if not (length (verified deposits) == length request.funding)
      then (
        challenge_plan head deposits [] blank_run_request (
            refuse_challenge
              (text
                "one or more funding deposits could not be verified against the challenge funding memo convention")
              r),
        c,
      )
      else if not (is_empty errors)
      then (challenge_plan head deposits [] blank_run_request (refuse_challenge (join errors) r), c)
      else planned

  -- `buildSettlementChallengePlan`
  unfoldable pub build_challenge_plan : ChallengeRequest → C → ChallengePlan × C
  build_challenge_plan request c =
      let head = read_challenge_head cfg request in
      let base = challenge_base request head in
      let (deposits, c') = scan_funding head 0 request.funding c in
      if not (is_empty head.errors)
      then (
        challenge_plan head [] [] blank_run_request (record base {
          failure_code = FailureCode.invalid_challenge;
          detail = join head.errors;
        }),
        c,
      )
      else plan_on_deposits request head deposits (with_deposits deposits base) c'

  -- `validateSettlementChallenge`
  unfoldable pub validate_challenge : ChallengeRequest → C → ChallengeResponse × C
  validate_challenge request c =
      let (plan, c') = build_challenge_plan request c in
      (record plan.response { dry_run = true }, c')
