-- ===== src/Challenge/Lines/Sums.antt =====
-- What the lines of a challenge add up to, bucket by bucket.
use wolochain.Prelude.{
  ℕ, ◌+◌, ◌%◌, ◌<◌, ◌≡◌, refl, sym, ◌∙◌, Bool, true, false, not, ◌&&◌, List, [], ◌∷◌, ◌++◌, arith,
  if◌then◌else◌, is_empty, Bool-cases, inl, inr, All, any,
}
use wolochain.Text.{Text, text, text_eq}
use wolochain.Text.Laws.{text_eq_iff}
use wolochain.Decimal.{u64_mod}
use wolochain.Codes.{is_invalid}
use wolochain.Run.Tally.{add_u64}
use wolochain.Challenge.{
  FundingResult, NormalizedTransfer, TransferResult, wager_bucket, guarantee_bucket,
}
use wolochain.Challenge.Transfers.{deposit_key, is_bucket, amount_of}
use wolochain.Challenge.Lines.{
  Line, refused_line, duplicate_line, planned_line, line_results, add_planned, allocated,
  bucket_error, check_allocation, has_invalid,
}

-- The whole number that a line moves out of a bucket of a deposit.
abbrev pub share : Text → Text → Line → ℕ
share key bucket (refused_line t r) = 0
share key bucket (duplicate_line t r deposit amount) =
    if text_eq (deposit_key deposit) key && text_eq t.bucket bucket then amount else 0
share key bucket (planned_line t r deposit amount) =
    if text_eq (deposit_key deposit) key && text_eq t.bucket bucket then amount else 0

abbrev pub shares : Text → Text → List Line → ℕ
shares key bucket [] = 0
shares key bucket (line ∷ lines) = share key bucket line + shares key bucket lines

-- The allocation of a bucket is the sum of its shares in 64 bits.
allocated-shares :
    (key bucket : Text) (total : ℕ) (lines : List Line)
    → total < u64_mod
    → allocated key bucket total lines ≡ (total + shares key bucket lines) % u64_mod
unfolding allocated
allocated-shares key bucket total [] fits = omega arith
allocated-shares key bucket total (refused_line t r ∷ lines) fits =
    omega (arith, allocated-shares key bucket total lines fits)
allocated-shares key bucket total (duplicate_line t r deposit amount ∷ lines) fits =
    elim (Bool-cases (text_eq (deposit_key deposit) key && text_eq t.bucket bucket)) [
      | inl here ↦
          rw (here, allocated)
            (allocated-shares key bucket (add_u64 total amount) lines (omega arith) ∙ omega arith)
      | inr other ↦
          rw (other, allocated) (omega (arith, allocated-shares key bucket total lines fits))
    ]
allocated-shares key bucket total (planned_line t r deposit amount ∷ lines) fits =
    elim (Bool-cases (text_eq (deposit_key deposit) key && text_eq t.bucket bucket)) [
      | inl here ↦
          rw (here, allocated)
            (allocated-shares key bucket (add_u64 total amount) lines (omega arith) ∙ omega arith)
      | inr other ↦
          rw (other, allocated) (omega (arith, allocated-shares key bucket total lines fits))
    ]

allocated_sum :
    (key bucket : Text) (lines : List Line)
    → shares key bucket lines % u64_mod ≡ allocated key bucket 0 lines
allocated_sum key bucket lines = omega (arith, allocated-shares key bucket 0 lines (omega arith))

-- The whole number that a line moves.
abbrev moved : Line → ℕ
moved (refused_line t r) = 0
moved (duplicate_line t r deposit amount) = 0
moved (planned_line t r deposit amount) = amount

abbrev pub all_moved : List Line → ℕ
all_moved [] = 0
all_moved (line ∷ lines) = moved line + all_moved lines

pub add_planned-all_moved :
    (total : ℕ) (lines : List Line)
    → total < u64_mod
    → add_planned total lines ≡ (total + all_moved lines) % u64_mod
unfolding add_planned
add_planned-all_moved total [] fits = omega arith
add_planned-all_moved total (refused_line t r ∷ lines) fits =
    omega (arith, add_planned-all_moved total lines fits)
add_planned-all_moved total (duplicate_line t r deposit amount ∷ lines) fits =
    omega (arith, add_planned-all_moved total lines fits)
add_planned-all_moved total (planned_line t r deposit amount ∷ lines) fits =
    add_planned-all_moved (add_u64 total amount) lines (omega arith) ∙ omega arith

-- A deposit whose buckets are allocated as it was funded.
pub record IsAllocated (lines : List Line) (r : FundingResult) : Type 0 where
  pub wager : shares (deposit_key r) wager_bucket lines % u64_mod ≡ amount_of r.wager_uwolo
  pub guarantee :
      shares (deposit_key r) guarantee_bucket lines % u64_mod ≡ amount_of r.guarantee_uwolo

pub append-empty :
    {A : Type 0} (xs ys : List A)
    → is_empty (xs ++ ys) ≡ true
    → (is_empty xs ≡ true) × (is_empty ys ≡ true)
append-empty [] ys h = (refl, h)
append-empty (x ∷ xs) ys h = absurd (ground arith)

bucket_error-empty :
    (label bucket : Text) (given funded : ℕ)
    → is_empty (bucket_error label bucket given funded) ≡ true
    → given ≡ funded
bucket_error-empty label bucket given funded h = ground arith

pub check_allocation-IsAllocated :
    (lines : List Line) (rs : List FundingResult)
    → is_empty (check_allocation lines rs) ≡ true
    → All (IsAllocated lines) rs
unfolding check_allocation
check_allocation-IsAllocated lines [] h = tt
check_allocation-IsAllocated lines (r ∷ rs) h =
    let (wager_fine, more) = append-empty (bucket_error _ _ _ _) _ h in
    let (guarantee_fine, rest) = append-empty (bucket_error _ _ _ _) _ more in
    (
      record {
        wager =
            allocated_sum (deposit_key r) wager_bucket lines
            ∙ bucket_error-empty _ _ _ _ wager_fine;
        guarantee =
            allocated_sum (deposit_key r) guarantee_bucket lines
            ∙ bucket_error-empty _ _ _ _ guarantee_fine;
      },
      check_allocation-IsAllocated lines rs rest,
    )

-- What a line, and what all lines, move out of the buckets of the deposits.
abbrev over : List FundingResult → Line → ℕ
over [] line = 0
over (d ∷ ds) line =
    share (deposit_key d) wager_bucket line
    + share (deposit_key d) guarantee_bucket line
    + over ds line

abbrev pub over_all : List FundingResult → List Line → ℕ
over_all [] lines = 0
over_all (d ∷ ds) lines =
    shares (deposit_key d) wager_bucket lines
    + shares (deposit_key d) guarantee_bucket lines
    + over_all ds lines

over_all-nil : (ds : List FundingResult) → over_all ds [] ≡ 0
over_all-nil [] = refl
over_all-nil (d ∷ ds) = omega (arith, over_all-nil ds)

over_all-cons :
    (ds : List FundingResult) (line : Line) (lines : List Line)
    → over_all ds (line ∷ lines) ≡ over ds line + over_all ds lines
over_all-cons [] line lines = omega arith
over_all-cons (d ∷ ds) line lines = omega (arith, over_all-cons ds line lines)

-- Whether no deposit, or some deposit, has a key.
abbrev pub is_absent : Text → List FundingResult → Bool
is_absent key [] = true
is_absent key (d ∷ ds) = not (text_eq key (deposit_key d)) && is_absent key ds

abbrev pub is_present : Text → List FundingResult → Bool
is_present key = any (λ d. text_eq key (deposit_key d))

-- The keys of the deposits are all different.
abbrev pub Distinct : List FundingResult → Type 0
Distinct [] = Unit {0}
Distinct (d ∷ ds) = (is_absent (deposit_key d) ds ≡ true) × Distinct ds

-- A line that is planned moves the amount of its result out of a bucket of a deposit; any other has
-- an invalid result.
abbrev pub IsSound : List FundingResult → Line → Type 0
IsSound ds (refused_line t r) = is_invalid r.outcome ≡ true
IsSound ds (duplicate_line t r deposit amount) = is_invalid r.outcome ≡ true
IsSound ds (planned_line t r deposit amount) =
    (is_present (deposit_key deposit) ds ≡ true)
    × (is_bucket t.bucket ≡ true)
    × (amount ≡ amount_of r.amount_uwolo)

buckets_apart : text_eq wager_bucket guarantee_bucket ≡ false
unfolding wager_bucket guarantee_bucket text text_eq
buckets_apart = refl

-- No bucket is both.
one_bucket : (b : Text) → text_eq b wager_bucket ≡ true → text_eq b guarantee_bucket ≡ false
one_bucket b h = rw ((text_eq_iff b wager_bucket).0 h) buckets_apart

over-absent :
    (t : NormalizedTransfer) (r : TransferResult) (e : FundingResult) (amount : ℕ)
    (ds : List FundingResult)
    → is_absent (deposit_key e) ds ≡ true
    → over ds (planned_line t r e amount) ≡ 0
over-absent t r e amount [] h = refl
over-absent t r e amount (d ∷ ds) h = ground (arith, over-absent t r e amount ds)

-- A line that is planned moves its amount.
over-present :
    (t : NormalizedTransfer) (r : TransferResult) (e : FundingResult) (amount : ℕ)
    (ds : List FundingResult)
    → Distinct ds
    → is_present (deposit_key e) ds ≡ true
    → is_bucket t.bucket ≡ true
    → over ds (planned_line t r e amount) ≡ amount
over-present t r e amount [] distinct there bucket = absurd (ground arith)
over-present t r e amount (d ∷ ds) (fresh, distinct) there bucket =
    elim (Bool-cases (text_eq (deposit_key e) (deposit_key d))) [
      | inr other ↦
          (let rest = over-present t r e amount ds distinct (ground arith) bucket in ground arith)
      | inl same ↦
          (let none_else =
              over-absent t r e amount ds
                (rw (← (text_eq_iff (deposit_key e) (deposit_key d)).0 same) at fresh) in
            let apart = one_bucket t.bucket in ground arith)
    ]

-- The valid lines move what they move out of the buckets of the deposits.
pub all_moved-over_all :
    (ds : List FundingResult) (lines : List Line)
    → Distinct ds
    → All (IsSound ds) lines
    → has_invalid (line_results lines) ≡ false
    → all_moved lines ≡ over_all ds lines
all_moved-over_all ds [] distinct sound valid = sym (over_all-nil ds)
all_moved-over_all ds (refused_line t r ∷ lines) distinct (bad, sound) valid = absurd (ground arith)
all_moved-over_all ds (duplicate_line t r e amount ∷ lines) distinct (bad, sound) valid =
    absurd (ground arith)
all_moved-over_all ds (planned_line t r e amount ∷ lines) distinct ((there, bucket, _), sound)
      valid =
    let rest = all_moved-over_all ds lines distinct sound (ground arith) in
    let this = over-present t r e amount ds distinct there bucket in
    let split = over_all-cons ds (planned_line t r e amount) lines in omega arith

-- The sum of the amounts of results, as a whole number.
abbrev pub transfer_sum : List TransferResult → ℕ
transfer_sum [] = 0
transfer_sum (r ∷ rs) = amount_of r.amount_uwolo + transfer_sum rs

pub all_moved-transfer_sum :
    (ds : List FundingResult) (lines : List Line)
    → All (IsSound ds) lines
    → has_invalid (line_results lines) ≡ false
    → all_moved lines ≡ transfer_sum (line_results lines)
all_moved-transfer_sum ds [] sound valid = refl
all_moved-transfer_sum ds (refused_line t r ∷ lines) (bad, sound) valid = absurd (ground arith)
all_moved-transfer_sum ds (duplicate_line t r e amount ∷ lines) (bad, sound) valid =
    absurd (ground arith)
all_moved-transfer_sum ds (planned_line t r e amount ∷ lines) ((_, _, same), sound) valid =
    let rest = all_moved-transfer_sum ds lines sound (ground arith) in omega arith
