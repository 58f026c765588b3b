-- ===== src/Challenge/Lines/Unsent.antt =====
-- Planning sends nothing: the results of the lines are validated or failed.
use wolochain.Prelude.{
  ℕ, ◌+◌, ◌≡◌, refl, false, ◌||◌, List, [], ◌∷◌, arith, map, length, Bool-cases, inl, inr,
}
use wolochain.Text.{Text}
use wolochain.Fallible.{Fallible, ok, fail}
use wolochain.Codes.{is_confirmed, is_accepted, is_no_failure}
use wolochain.Run.Prepare.{seen_id}
use wolochain.Run.Finalize.Totals.{AllUnsent}
use wolochain.Challenge.{FundingResult, TransferInput, NormalizedTransfer, TransferResult}
use wolochain.Challenge.Transfers.{TransferContext, transfer_result, normalize_transfer}
use wolochain.Challenge.Lines.{
  Line, strays, allocate_line, plan_line, plan_lines, seen_after, line_result, line_results,
  line_transfers,
}
use wolochain.Challenge.Finalize.{counted}

abbrev IsUnsent : TransferResult → Type 0
IsUnsent t = (is_confirmed t.status || is_accepted t.status) ≡ false

transfer_result-IsUnsent :
    (ctx : TransferContext) (t : NormalizedTransfer) (errors : List Text)
    → IsUnsent (transfer_result ctx t errors)
unfolding transfer_result
transfer_result-IsUnsent ctx t [] = refl
transfer_result-IsUnsent ctx t (e ∷ es) = refl

allocate_line-IsUnsent :
    (ctx : TransferContext) (rs : List FundingResult) (seen : List Text) (t : NormalizedTransfer)
    (r : TransferResult) (amount : ℕ) (d : Fallible FundingResult)
    → IsUnsent (line_result (allocate_line ctx rs seen t r amount d))
unfolding allocate_line
allocate_line-IsUnsent ctx rs seen t r amount (fail why) = refl
allocate_line-IsUnsent ctx rs seen t r amount (ok e) = elim (Bool-cases (strays ctx rs t)) [
  | inl astray ↦ rw (astray, allocate_line) refl
  | inr fine ↦ elim (Bool-cases (seen_id t.request_id seen)) [
    | inl again ↦ rw (fine, again, allocate_line) refl
    | inr fresh ↦ rw (fine, fresh, allocate_line) refl
  ]
]

plan_line-IsUnsent :
    (ctx : TransferContext) (rs : List FundingResult) (seen : List Text) (index : ℕ)
    (input : TransferInput)
    → IsUnsent (line_result (plan_line ctx rs seen index input))
unfolding plan_line normalize_transfer
plan_line-IsUnsent ctx rs seen index input =
    elim (Bool-cases (is_no_failure (normalize_transfer ctx index input).1.failure_code)) [
      | inr bad ↦ rw (bad, plan_line) (transfer_result-IsUnsent ctx _ _)
      | inl good ↦ rw (good, plan_line) (allocate_line-IsUnsent ctx rs seen _ _ _ _)
    ]

pub plan_lines-AllUnsent :
    (ctx : TransferContext) (rs : List FundingResult) (seen : List Text) (index : ℕ)
    (inputs : List TransferInput)
    → AllUnsent (map counted (line_results (plan_lines ctx rs seen index inputs)))
unfolding plan_lines
plan_lines-AllUnsent ctx rs seen index [] = tt
plan_lines-AllUnsent ctx rs seen index (input ∷ inputs) =
    let line = plan_line ctx rs seen index input in
    (
      plan_line-IsUnsent ctx rs seen index input,
      plan_lines-AllUnsent ctx rs (seen_after ctx rs line seen) (index + 1) inputs,
    )

-- A plan has a line for each transfer.
pub plan_lines-length :
    (ctx : TransferContext) (rs : List FundingResult) (seen : List Text) (index : ℕ)
    (inputs : List TransferInput)
    → length (plan_lines ctx rs seen index inputs) ≡ length inputs
unfolding plan_lines
plan_lines-length ctx rs seen index [] = refl
plan_lines-length ctx rs seen index (input ∷ inputs) =
    let line = plan_line ctx rs seen index input in
    omega (arith, plan_lines-length ctx rs (seen_after ctx rs line seen) (index + 1) inputs)

pub length-line_transfers : (lines : List Line) → length (line_transfers lines) ≡ length lines
length-line_transfers [] = refl
length-line_transfers (line ∷ lines) = omega (arith, length-line_transfers lines)
