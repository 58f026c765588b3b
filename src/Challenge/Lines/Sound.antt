-- ===== src/Challenge/Lines/Sound.antt =====
-- Where the lines of a challenge come from: a deposit that is there, and one of its buckets.
use wolochain.Prelude.{
  ℕ, ◌+◌, ◌≡◌, refl, ap, ◌∙◌, Bool, true, false, not, ◌||◌, List, [], ◌∷◌, arith, is_empty,
  Bool-cases, inl, inr, All,
}
use wolochain.Text.{Text, text_eq, trim_space}
use wolochain.Text.Laws.{text_eq_refl}
use wolochain.Fallible.{Fallible, ok, fail}
use wolochain.Codes.{is_invalid, is_no_failure}
use wolochain.Request.{normalize_amount_uwolo}
use wolochain.Run.Head.{ok_or}
use wolochain.Run.Prepare.{seen_id}
use wolochain.Challenge.{FundingResult, TransferInput, NormalizedTransfer, TransferResult}
use wolochain.Challenge.Transfers.{
  TransferContext, amount_of, deposit_key, refers_to, referred, only_one, resolve_participant,
  is_bucket, error_if, transfer_errors, transfer_result, normalize_transfer, participant_errors,
  bucket_errors, route_errors, raw_transfer,
}
use wolochain.Challenge.Lines.{strays, allocate_line, plan_line, plan_lines, seen_after}
use wolochain.Challenge.Lines.Sums.{IsSound, is_present, append-empty}

cons_injective : {A : Type 0} {x y : A} {xs ys : List A} → x ∷ xs ≡ y ∷ ys → x ≡ y
cons_injective same = cc

or-true : (a b : Bool) → b ≡ true → (a || b) ≡ true
or-true a b h = ground arith

first-present :
    (side player : Text) (rs : List FundingResult) (d : FundingResult) (ds : List FundingResult)
    → referred side player rs ≡ d ∷ ds
    → is_present (deposit_key d) rs ≡ true
first-present side player [] d ds h = absurd (ground arith)
first-present side player (r ∷ rs) d ds h = elim (Bool-cases (refers_to side player r)) [
  | inl this ↦
      let same : r ≡ d = cons_injective (rw this at h) in
      rw same (rw (text_eq_refl (deposit_key d)) refl)
  | inr other ↦
      or-true (text_eq (deposit_key d) (deposit_key r)) _
        (first-present side player rs d ds (rw other at h))
]

only_one-referred :
    (side player : Text) (rs : List FundingResult) (d : FundingResult)
    → only_one side player rs ≡ ok d
    → rs ≡ d ∷ []
only_one-referred side player [] d h = absurd (ground arith)
only_one-referred side player (r ∷ []) d h = ground arith
only_one-referred side player (r ∷ s ∷ rs) d h = absurd (ground arith)

resolve_participant-present :
    (rs : List FundingResult) (side player : Text) (d : FundingResult)
    → resolve_participant rs side player ≡ ok d
    → is_present (deposit_key d) rs ≡ true
unfolding resolve_participant
resolve_participant-present rs side player d h =
    first-present (trim_space side) (trim_space player) rs d []
      (only_one-referred (trim_space side) (trim_space player) _ d h)

error_if-empty :
    (test : Bool) (message : Text) → is_empty (error_if test message) ≡ true → test ≡ false
error_if-empty test message h = ground arith

-- A transfer without errors names a bucket.
transfer_errors-bucket :
    (ctx : TransferContext) (t : NormalizedTransfer) (amount : Fallible Text)
    → is_empty (transfer_errors ctx t amount) ≡ true
    → is_bucket t.bucket ≡ true
unfolding transfer_errors
transfer_errors-bucket ctx t amount h =
    let (_, later) = append-empty (participant_errors t) _ h in
    let (bucket, _) = append-empty (bucket_errors t) (route_errors ctx t amount) later in
    let named = error_if-empty (not (is_bucket t.bucket)) _ bucket in ground arith

allocate_line-IsSound :
    (ctx : TransferContext) (rs : List FundingResult) (seen : List Text) (t : NormalizedTransfer)
    (r : TransferResult) (amount : ℕ) (d : Fallible FundingResult)
    → is_bucket t.bucket ≡ true
    → amount ≡ amount_of t.amount_uwolo
    → ((e : FundingResult) → d ≡ ok e → is_present (deposit_key e) rs ≡ true)
    → IsSound rs (allocate_line ctx rs seen t r amount d)
unfolding allocate_line
allocate_line-IsSound ctx rs seen t r amount (fail why) bucket exact there = refl
allocate_line-IsSound ctx rs seen t r amount (ok e) bucket exact there =
    elim (Bool-cases (strays ctx rs t)) [
      | inl astray ↦ rw (astray, allocate_line) refl
      | inr fine ↦ elim (Bool-cases (seen_id t.request_id seen)) [
        | inl again ↦ rw (fine, again, allocate_line) refl
        | inr fresh ↦ rw (fine, fresh, allocate_line) (there e refl, bucket, exact)
      ]
    ]

transfer_result-verdict :
    (ctx : TransferContext) (t : NormalizedTransfer) (errors : List Text)
    → (is_invalid (transfer_result ctx t errors).outcome ≡ not (is_empty errors))
      × (is_no_failure (transfer_result ctx t errors).failure_code ≡ is_empty errors)
unfolding transfer_result
transfer_result-verdict ctx t [] = (refl, refl)
transfer_result-verdict ctx t (e ∷ es) = (refl, refl)

plan_line-IsSound :
    (ctx : TransferContext) (rs : List FundingResult) (seen : List Text) (index : ℕ)
    (input : TransferInput)
    → IsSound rs (plan_line ctx rs seen index input)
unfolding plan_line normalize_transfer
plan_line-IsSound ctx rs seen index input =
    let amount = normalize_amount_uwolo input.amount_uwolo input.amount_wolo in
    let t = raw_transfer ctx index input (ok_or [] amount) in
    let errors = transfer_errors ctx t amount in
    let (outcome, failure) = transfer_result-verdict ctx t errors in
    elim (Bool-cases (is_empty errors)) [
      | inr bad ↦ rw (failure, bad) (outcome ∙ ap not bad)
      | inl good ↦
          rw (failure, good)
            (allocate_line-IsSound ctx rs seen t _ _ _ (transfer_errors-bucket ctx t amount good)
              refl (λ e. resolve_participant-present rs t.participant_side t.participant_id e))
    ]

-- Every line of a plan moves a bucket of a deposit that is there, or is invalid.
pub plan_lines-IsSound :
    (ctx : TransferContext) (rs : List FundingResult) (seen : List Text) (index : ℕ)
    (inputs : List TransferInput)
    → All (IsSound rs) (plan_lines ctx rs seen index inputs)
unfolding plan_lines
plan_lines-IsSound ctx rs seen index [] = tt
plan_lines-IsSound ctx rs seen index (input ∷ inputs) =
    let line = plan_line ctx rs seen index input in
    (
      plan_line-IsSound ctx rs seen index input,
      plan_lines-IsSound ctx rs (seen_after ctx rs line seen) (index + 1) inputs,
    )
