-- ===== src/Challenge/Plan/Funded.antt =====
-- The verified deposits of a challenge: what each of them was checked for, and what they add up to.
use wolochain.Prelude.{
  ℕ, ◌+◌, ◌%◌, ◌≤◌, ◌≡◌, refl, sym, ap, ◌∙◌, Bool, true, false, List, [], ◌∷◌, Option, some, none,
  arith, if◌then◌else◌, length, suc, All,
}
use wolochain.Text.{Text}
use wolochain.Decimal.{u64_mod}
use wolochain.Config.{Config}
use wolochain.Node.{Node}
use wolochain.Challenge.{
  FundingExpectation, FundingInput, FundingResult, FundingVerification, NormalizedFunding,
  wager_bucket, guarantee_bucket,
}
use wolochain.Challenge.Memo.Split.{IsSplit, IsSplit-same}
use wolochain.Challenge.Deposit.{verify_deposit}
use wolochain.Challenge.Deposit.Verified.{IsVerified, verify_deposit-IsVerified}
use wolochain.Challenge.Transfers.{amount_of, deposit_key}
use wolochain.Challenge.Transfers.Distinct.{NamesPlayer}
use wolochain.Challenge.Lines.{Line}
use wolochain.Challenge.Lines.Sums.{shares, over_all, IsAllocated}
use wolochain.Challenge.Head.{ChallengeHead}
use wolochain.Challenge.Plan.{
  Deposit, refused_deposit, verified_deposit, deposit_of, deposit_results, verified,
  normalize_funding, funding_expectation, scan_funding,
}

-- A deposit that was split and names its player.
pub record IsFunded (r : FundingResult) : Type 0 where
  amount : Text
  split : IsSplit amount r
  player : NamesPlayer r

abbrev pub FundedIfVerified : Deposit → Type 0
FundedIfVerified (refused_deposit n r) = Unit {0}
FundedIfVerified (verified_deposit n r) = IsFunded r

some_injective : {A : Type 0} {x y : A} → some x ≡ some y → x ≡ y
some_injective same = cc

verified_funding :
    (cfg : Config) (e : FundingExpectation) (index : ℕ) (v : FundingVerification)
    (r : FundingResult)
    → v.funding ≡ some r
    → IsVerified cfg e v
    → IsFunded (record r { index = index })
verified_funding cfg e index v r found sound =
    let same : sound.funding ≡ r = some_injective (sym sound.named ∙ found) in
    record {
      amount = sound.transfer.amount;
      split = IsSplit-same (rw same at sound.split) refl refl refl;
      player = rw same at sound.player;
    }

deposit_of-FundedIfVerified :
    (cfg : Config) (e : FundingExpectation) (index : ℕ) (n : NormalizedFunding)
    (v : FundingVerification) (found : Option FundingResult)
    → v.funding ≡ found
    → (v.succeeded ≡ true → IsVerified cfg e v)
    → FundedIfVerified (deposit_of index n v found)
unfolding deposit_of
deposit_of-FundedIfVerified cfg e index n v none same sound = tt
deposit_of-FundedIfVerified cfg e index n v (some r) same sound = verdict v.succeeded refl
  where
    verdict :
        (passed : Bool)
        → v.succeeded ≡ passed
        → FundedIfVerified (
            if passed
            then verified_deposit n (record r { index = index })
            else refused_deposit n (record r { index = index }))
    verdict false h = tt
    verdict true h = verified_funding cfg e index v r same (sound h)

module _ {C : Type 0} (node : Node C) (cfg : Config) where
  pub scan_funding-FundedIfVerified :
      (head : ChallengeHead) (inputs : List FundingInput) (index : ℕ) (c : C)
      → All FundedIfVerified (scan_funding node cfg head index inputs c).0
  unfolding scan_funding
  scan_funding-FundedIfVerified head [] index c = tt
  scan_funding-FundedIfVerified head (input ∷ inputs) index c =
      let n = normalize_funding input in
      let e = funding_expectation head n in
      let (v, c') = verify_deposit node cfg n.funding_tx_hash e c in
      (
        deposit_of-FundedIfVerified cfg e index n v v.funding refl
            (λ done. (verify_deposit-IsVerified node cfg n.funding_tx_hash e c done).0),
        scan_funding-FundedIfVerified head inputs (index + 1) c',
      )

  pub scan_funding-length :
      (head : ChallengeHead) (inputs : List FundingInput) (index : ℕ) (c : C)
      → length (scan_funding node cfg head index inputs c).0 ≡ length inputs
  unfolding scan_funding
  scan_funding-length head [] index c = refl
  scan_funding-length head (input ∷ inputs) index c =
      ap suc (scan_funding-length head inputs (index + 1) _)

pub All-verified : (ds : List Deposit) → All FundedIfVerified ds → All IsFunded (verified ds)
All-verified [] sound = tt
All-verified (refused_deposit n r ∷ ds) (here, sound) = All-verified ds sound
All-verified (verified_deposit n r ∷ ds) (here, sound) = (here, All-verified ds sound)

pub All-NamesPlayer : (rs : List FundingResult) → All IsFunded rs → All NamesPlayer rs
All-NamesPlayer [] funded = tt
All-NamesPlayer (r ∷ rs) (f, funded) = (f.player, All-NamesPlayer rs funded)

length-verified : (ds : List Deposit) → length (verified ds) ≤ length ds
length-verified [] = omega arith
length-verified (refused_deposit n r ∷ ds) = omega (arith, length-verified ds)
length-verified (verified_deposit n r ∷ ds) = omega (arith, length-verified ds)

-- Where all deposits are verified, the verified ones are all.
pub verified-all :
    (ds : List Deposit) → length (verified ds) ≡ length ds → verified ds ≡ deposit_results ds
verified-all [] h = refl
verified-all (refused_deposit n r ∷ ds) h = (let fewer = length-verified ds in absurd (omega arith))
verified-all (verified_deposit n r ∷ ds) h = ap (λ rs. r ∷ rs) (verified-all ds (omega arith))

-- The sum of the totals of deposits, as a whole number.
abbrev pub deposit_sum : List FundingResult → ℕ
deposit_sum [] = 0
deposit_sum (r ∷ rs) = amount_of r.total_funded_uwolo + deposit_sum rs

-- The buckets of a deposit hold its total.
bucket_sum :
    (lines : List Line) (r : FundingResult)
    → IsFunded r
    → IsAllocated lines r
    → (shares (deposit_key r) wager_bucket lines + shares (deposit_key r) guarantee_bucket lines)
        % u64_mod
      ≡ amount_of r.total_funded_uwolo
bucket_sum lines r funded allocated =
    let split = funded.split in
    let wager = allocated.wager ∙ ap amount_or split.wager_written in
    let guarantee = allocated.guarantee ∙ ap amount_or split.guarantee_written in
    let total = ap amount_of split.total_written ∙ ap amount_or split.total_moved in
    let parts = split.parts in omega arith
  where
    amount_or : Option ℕ → ℕ
    amount_or none = 0
    amount_or (some n) = n

pub over_all-deposit_sum :
    (lines : List Line) (rs : List FundingResult)
    → All IsFunded rs
    → All (IsAllocated lines) rs
    → over_all rs lines % u64_mod ≡ deposit_sum rs % u64_mod
over_all-deposit_sum lines [] funded allocated = refl
over_all-deposit_sum lines (r ∷ rs) (f, funded) (a, allocated) =
    let this = bucket_sum lines r f a in
    let rest = over_all-deposit_sum lines rs funded allocated in omega arith
