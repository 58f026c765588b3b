-- ===== src/Challenge/Lines.antt =====
-- The loop of `buildSettlementChallengePlan` of cmd/wolochaind/cmd/settlement_challenge.go over the
-- transfers, with `validateChallengeBucketAllocation` and `hasInvalidChallengeTransfers`. What the
-- loop adds up on the way (the allocation of the buckets, the total, the payouts of the run) is read
-- off its lines.
pub mod Sums
pub mod Sound
pub mod Unsent
use wolochain.Prelude.{
  ℕ, ◌+◌, Bool, true, false, not, ◌&&◌, List, [], ◌∷◌, ◌++◌, ◌==◌, if◌then◌else◌, is_empty, any,
}
use wolochain.Text.{Text, text, text_eq, equal_fold}
use wolochain.Decimal.{ℤ, format_uint, format_display_amount}
use wolochain.Fallible.{Fallible, ok, fail}
use wolochain.Codes.{Status, Outcome, FailureCode, is_no_failure, is_invalid}
use wolochain.Probe.{quoted}
use wolochain.Run.{RunPayoutInput}
use wolochain.Run.Prepare.{seen_id}
use wolochain.Run.Tally.{add_u64}
use wolochain.Challenge.{
  FundingResult, TransferInput, NormalizedTransfer, TransferResult, wager_bucket, guarantee_bucket,
}
use wolochain.Challenge.Transfers.{
  TransferContext, deposit_key, deposit_label, resolve_participant, amount_of, normalize_transfer,
}

-- One transfer of the plan: refused before it is allocated, allocated to a deposit and then refused
-- as a duplicate, or allocated and planned.
pub data Line : Type 0 where
  refused_line : NormalizedTransfer → TransferResult → Line
  duplicate_line : NormalizedTransfer → TransferResult → FundingResult → ℕ → Line
  planned_line : NormalizedTransfer → TransferResult → FundingResult → ℕ → Line

abbrev refuse_transfer : FailureCode → Text → TransferResult → TransferResult
refuse_transfer why message r = record r {
  failure_code = why;
  detail = message;
  status = Status.failed;
  outcome = Outcome.invalid;
}

-- The result of a transfer that is allocated to a deposit.
abbrev allocated_result : NormalizedTransfer → FundingResult → TransferResult → TransferResult
allocated_result t deposit r = record r {
  succeeded = true;
  status = Status.validated;
  outcome = Outcome.ready;
  participant_side = deposit.participant_side;
  participant_id = deposit.participant_id;
  amount_uwolo = t.amount_uwolo;
  amount_wolo = format_display_amount t.amount_uwolo;
}

module _ (ctx : TransferContext) (deposits : List FundingResult) where
  -- A treasury transfer has to go to the treasury.
  abbrev pub strays : NormalizedTransfer → Bool
  strays t =
      equal_fold t.reason (text "treasury")
      && (not (is_empty ctx.treasury_address) && not (equal_fold t.to_address ctx.treasury_address))

  unfoldable pub allocate_line :
      List Text → NormalizedTransfer → TransferResult → ℕ → Fallible FundingResult → Line
  allocate_line seen t r amount (fail e) =
      refused_line t (refuse_transfer FailureCode.invalid_transfer_participant e r)
  allocate_line seen t r amount (ok deposit) =
      let shown = allocated_result t deposit r in
      if strays t
      then refused_line t (
          refuse_transfer FailureCode.invalid_treasury_route
            (text "treasury transfer must route to the configured treasury_address") r)
      else if seen_id t.request_id seen
      then duplicate_line t
          (record (refuse_transfer FailureCode.duplicate_request_id
            (text "request_id "
              ++ (quoted t.request_id
                  ++ text " appears more than once in this challenge settlement"))
            shown) { succeeded = false })
          deposit amount
      else planned_line t shown deposit amount

  unfoldable pub plan_line : List Text → ℕ → TransferInput → Line
  plan_line seen index input =
      let (t, r, amount) = normalize_transfer ctx index input in
      if not (is_no_failure r.failure_code)
      then refused_line t r
      else allocate_line seen t r amount
          (resolve_participant deposits t.participant_side t.participant_id)

  abbrev pub seen_after : Line → List Text → List Text
  seen_after (refused_line t r) seen = seen
  seen_after (duplicate_line t r deposit amount) seen = seen
  seen_after (planned_line t r deposit amount) seen = t.request_id ∷ seen

  unfoldable pub plan_lines : List Text → ℕ → List TransferInput → List Line
  plan_lines seen index [] = []
  plan_lines seen index (input ∷ inputs) =
      let line = plan_line seen index input in
      line ∷ plan_lines (seen_after line seen) (index + 1) inputs

abbrev pub line_result : Line → TransferResult
line_result (refused_line t r) = r
line_result (duplicate_line t r deposit amount) = r
line_result (planned_line t r deposit amount) = r

abbrev pub line_transfer : Line → NormalizedTransfer
line_transfer (refused_line t r) = t
line_transfer (duplicate_line t r deposit amount) = t
line_transfer (planned_line t r deposit amount) = t

abbrev pub line_results : List Line → List TransferResult
line_results [] = []
line_results (line ∷ lines) = line_result line ∷ line_results lines

abbrev pub line_transfers : List Line → List NormalizedTransfer
line_transfers [] = []
line_transfers (line ∷ lines) = line_transfer line ∷ line_transfers lines

abbrev payout_input : NormalizedTransfer → RunPayoutInput
payout_input t = record {
  request_id = t.request_id;
  to_address = t.to_address;
  amount_uwolo = t.amount_uwolo;
  amount_wolo = ℤ.pos 0;
  memo = t.memo;
}

abbrev pub line_payouts : List Line → List RunPayoutInput
line_payouts [] = []
line_payouts (refused_line t r ∷ lines) = line_payouts lines
line_payouts (duplicate_line t r deposit amount ∷ lines) = line_payouts lines
line_payouts (planned_line t r deposit amount ∷ lines) = payout_input t ∷ line_payouts lines

-- The total of the planned transfers, in an `uint64`.
unfoldable pub add_planned : ℕ → List Line → ℕ
add_planned total [] = total
add_planned total (refused_line t r ∷ lines) = add_planned total lines
add_planned total (duplicate_line t r deposit amount ∷ lines) = add_planned total lines
add_planned total (planned_line t r deposit amount ∷ lines) =
    add_planned (add_u64 total amount) lines

-- `allocation[key][bucket]`, in an `uint64`: a duplicate counts too.
abbrev pub add_bucket : Text → Text → NormalizedTransfer → FundingResult → ℕ → ℕ → ℕ
add_bucket key bucket t deposit amount total =
    if text_eq (deposit_key deposit) key && text_eq t.bucket bucket
    then add_u64 total amount
    else total

unfoldable pub allocated : Text → Text → ℕ → List Line → ℕ
allocated key bucket total [] = total
allocated key bucket total (refused_line t r ∷ lines) = allocated key bucket total lines
allocated key bucket total (duplicate_line t r deposit amount ∷ lines) =
    allocated key bucket (add_bucket key bucket t deposit amount total) lines
allocated key bucket total (planned_line t r deposit amount ∷ lines) =
    allocated key bucket (add_bucket key bucket t deposit amount total) lines

abbrev bucket_error : Text → Text → ℕ → ℕ → List Text
bucket_error label bucket given funded =
    if not (given == funded)
    then (label
        ++ (b' ' ∷ bucket
            ++ (text " bucket allocates "
                ++ (format_uint given
                    ++ (text " uwolo but funding proves "
                        ++ (format_uint funded ++ text " uwolo"))))))
      ∷ []
    else []

unfoldable pub check_allocation : List Line → List FundingResult → List Text
check_allocation lines [] = []
check_allocation lines (r ∷ rs) =
    bucket_error (deposit_label r) (text "wager") (allocated (deposit_key r) wager_bucket 0 lines)
      (amount_of r.wager_uwolo)
    ++ (bucket_error (deposit_label r) (text "guarantee")
          (allocated (deposit_key r) guarantee_bucket 0 lines) (amount_of r.guarantee_uwolo)
        ++ check_allocation lines rs)

abbrev pub has_invalid : List TransferResult → Bool
has_invalid = any (λ r. is_invalid r.outcome)
