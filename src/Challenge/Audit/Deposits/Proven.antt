-- ===== src/Challenge/Audit/Deposits/Proven.antt =====
-- About `auditChallengeFunding` of cmd/wolochaind/cmd/settlement_challenge_audit.go.
use wolochain.Prelude.{
  ℕ, ◌+◌, ◌≡◌, refl, true, false, List, [], ◌∷◌, Option, none, some, arith, is_empty, Bool-cases,
  inl, inr,
}
use wolochain.Text.{Text, trim_space}
use wolochain.Config.{Config}
use wolochain.Node.{Node}
use wolochain.Challenge.{
  FundingExpectation, FundingInput, FundingResult, FundingVerification, ChallengeStoredResult,
}
use wolochain.Challenge.Deposit.{verify_deposit}
use wolochain.Challenge.Deposit.Verified.{VerifiedAt, verify_deposit-IsVerified}
use wolochain.Challenge.Audit.{first_filled, AuditFunding, audit_check, checks_pass}
use wolochain.Challenge.Audit.Checks.{checks_pass-++}
use wolochain.Challenge.Audit.Deposits.{
  audit_expectation, proven_deposit, judge_deposit, audit_deposit, audit_deposits, deposit_entries,
  deposit_checks, compare_stored_funding, head_of, tail_of,
}

-- A text as it is given, or another where it is blank.
abbrev GivenOr : Text → Text → Text → Type 0
GivenOr given other actual =
    (is_empty (trim_space given) ≡ false → actual ≡ trim_space given)
    × (is_empty (trim_space given) ≡ true → actual ≡ trim_space other)

-- What is expected of a deposit: what the request says of it, and where the request leaves the
-- sender, the run or an amount blank, what the stored result says.
pub record Expects (stored : ChallengeStoredResult) (f : FundingInput) (e : FundingExpectation)
    : Type 0 where
  pub source_app : e.source_app ≡ stored.request.source_app
  pub challenge : e.challenge_id ≡ stored.request.challenge_id
  pub event : e.source_event_id ≡ stored.request.source_event_id
  pub side : e.participant_side ≡ f.participant_side
  pub player : e.participant_id ≡ f.participant_id

-- The five that the stored result may fill.
pub record ExpectsFilled (f : FundingInput) (before : FundingResult) (e : FundingExpectation)
    : Type 0 where
  pub sender : GivenOr f.depositor_address before.sender e.sender
  pub run : GivenOr f.settlement_run_id before.settlement_run_id e.settlement_run_id
  pub total : GivenOr f.expected_amount_uwolo before.total_funded_uwolo e.total_funded_uwolo
  pub wager : GivenOr f.wager_uwolo before.wager_uwolo e.wager_uwolo
  pub guarantee : GivenOr f.guarantee_uwolo before.guarantee_uwolo e.guarantee_uwolo

pub record ExpectsGiven (f : FundingInput) (e : FundingExpectation) : Type 0 where
  pub sender : e.sender ≡ f.depositor_address
  pub run : e.settlement_run_id ≡ f.settlement_run_id
  pub total : e.total_funded_uwolo ≡ f.expected_amount_uwolo
  pub wager : e.wager_uwolo ≡ f.wager_uwolo
  pub guarantee : e.guarantee_uwolo ≡ f.guarantee_uwolo

abbrev pub ExpectsAmounts : FundingInput → Option FundingResult → FundingExpectation → Type 0
ExpectsAmounts f none e = ExpectsGiven f e
ExpectsAmounts f (some before) e = ExpectsFilled f before e

first_filled-GivenOr : (s t : Text) → GivenOr s t (first_filled s t)
first_filled-GivenOr s t = (λ given. rw given refl, λ blank. rw blank refl)

audit_expectation-Expects :
    (stored : ChallengeStoredResult) (f : FundingInput) (before : Option FundingResult)
    → Expects stored f (audit_expectation stored f before)
      × ExpectsAmounts f before (audit_expectation stored f before)
unfolding audit_expectation
audit_expectation-Expects stored f none = (
  record { source_app = refl; challenge = refl; event = refl; side = refl; player = refl },
  record { sender = refl; run = refl; total = refl; wager = refl; guarantee = refl },
)
audit_expectation-Expects stored f (some before) = (
  record { source_app = refl; challenge = refl; event = refl; side = refl; player = refl },
  record {
    sender = first_filled-GivenOr f.depositor_address before.sender;
    run = first_filled-GivenOr f.settlement_run_id before.settlement_run_id;
    total = first_filled-GivenOr f.expected_amount_uwolo before.total_funded_uwolo;
    wager = first_filled-GivenOr f.wager_uwolo before.wager_uwolo;
    guarantee = first_filled-GivenOr f.guarantee_uwolo before.guarantee_uwolo;
  },
)

module _ {C : Type 0} (node : Node C) (cfg : Config) (stored : ChallengeStoredResult) where
  -- An audited deposit that passes: at some state of the outside its hash was looked up again and
  -- verified against what the request and the stored result say, and the answer is shown.
  pub record IsProven (funding : FundingInput) (before : Option FundingResult) (e : AuditFunding)
      : Type 0 where
    pub passed : e.passed ≡ true
    pub same_hash : e.funding_tx_hash ≡ funding.funding_tx_hash
    pub expectation : FundingExpectation
    pub expects : Expects stored funding expectation
    pub amounts : ExpectsAmounts funding before expectation
    pub env : C
    pub answer : FundingVerification
    pub asked : answer ≡ (verify_deposit node cfg funding.funding_tx_hash expectation env).0
    pub verified : VerifiedAt node cfg funding.funding_tx_hash expectation env answer
    pub deposit : FundingResult
    pub answered : answer.funding ≡ some deposit
    pub shown : e.verified_funding ≡ some (record deposit { index = e.index })

  -- The deposits of the request with the stored results that stand beside them.
  pub data AllProven : List FundingInput → List FundingResult → List AuditFunding → Type 0 where
    none_to_prove : (before : List FundingResult) → AllProven [] before []
    next_proven :
        {f : FundingInput} {before : List FundingResult} {e : AuditFunding} {fs : List FundingInput}
        {es : List AuditFunding}
        → IsProven f (head_of before) e
        → AllProven fs (tail_of before) es
        → AllProven (f ∷ fs) before (e ∷ es)

-- What the judgement of a verification shows where its checks pass.
record IsJudged (hash : Text) (v : FundingVerification) (e : AuditFunding) : Type 0 where
  passed : e.passed ≡ true
  same_hash : e.funding_tx_hash ≡ hash
  succeeded : v.succeeded ≡ true
  deposit : FundingResult
  answered : v.funding ≡ some deposit
  shown : e.verified_funding ≡ some (record deposit { index = e.index })

proven_deposit-IsJudged :
    (index : ℕ) (hash : Text) (before : Option FundingResult) (v : FundingVerification)
    (d : FundingResult)
    → v.succeeded ≡ true
    → v.funding ≡ some d
    → checks_pass (proven_deposit index hash before (record d { index = index })).checks ≡ true
    → IsJudged hash v (proven_deposit index hash before (record d { index = index })).entry
unfolding proven_deposit audit_check checks_pass
proven_deposit-IsJudged index hash none v d succeeded answered h = record {
  passed = refl;
  same_hash = refl;
  succeeded = succeeded;
  deposit = d;
  answered = answered;
  shown = refl;
}
proven_deposit-IsJudged index hash (some stored) v d succeeded answered h =
    let same : is_empty (compare_stored_funding stored (record d { index = index })) ≡ true =
      ground arith in
    rw (same, proven_deposit)
      (record {
        passed = refl;
        same_hash = refl;
        succeeded = succeeded;
        deposit = d;
        answered = answered;
        shown = refl;
      })

judge_deposit-verified :
    (index : ℕ) (hash : Text) (before : Option FundingResult) (v : FundingVerification)
    (d : FundingResult)
    → v.succeeded ≡ true
    → judge_deposit index hash before v (some d)
      ≡ proven_deposit index hash before (record d { index = index })
unfolding judge_deposit
judge_deposit-verified index hash before v d succeeded = ground arith

judge_deposit-IsJudged :
    (index : ℕ) (hash : Text) (before : Option FundingResult) (v : FundingVerification)
    (funding : Option FundingResult)
    → v.funding ≡ funding
    → checks_pass (judge_deposit index hash before v funding).checks ≡ true
    → IsJudged hash v (judge_deposit index hash before v funding).entry
unfolding judge_deposit audit_check checks_pass
judge_deposit-IsJudged index hash before v none answered h = absurd (ground arith)
judge_deposit-IsJudged index hash before v (some d) answered h = elim (Bool-cases v.succeeded) [
  | inl succeeded ↦
      (let same = judge_deposit-verified index hash before v d succeeded in
        rw same (proven_deposit-IsJudged index hash before v d succeeded answered (rw same at h)))
  | inr failed ↦ absurd (ground arith)
]

module _ {C : Type 0} (node : Node C) (cfg : Config) where
  audit_deposit-IsProven :
      (stored : ChallengeStoredResult) (index : ℕ) (funding : FundingInput)
      (before : Option FundingResult) (c : C)
      → checks_pass (audit_deposit node cfg stored index funding before c).0.checks ≡ true
      → IsProven node cfg stored funding before
          (audit_deposit node cfg stored index funding before c).0.entry
  unfolding audit_deposit
  audit_deposit-IsProven stored index funding before c h =
      let e = audit_expectation stored funding before in
      let v = (verify_deposit node cfg funding.funding_tx_hash e c).0 in
      let judged = judge_deposit-IsJudged index funding.funding_tx_hash before v v.funding refl h in
      record {
        passed = judged.passed;
        same_hash = judged.same_hash;
        expectation = e;
        expects = (audit_expectation-Expects stored funding before).0;
        amounts = (audit_expectation-Expects stored funding before).1;
        env = c;
        answer = v;
        asked = refl;
        verified = verify_deposit-IsVerified node cfg funding.funding_tx_hash e c judged.succeeded;
        deposit = judged.deposit;
        answered = judged.answered;
        shown = judged.shown;
      }

  pub audit_deposits-AllProven :
      (stored : ChallengeStoredResult) (index : ℕ) (fs : List FundingInput)
      (before : List FundingResult) (c : C)
      → checks_pass (deposit_checks (audit_deposits node cfg stored index fs before c).0) ≡ true
      → AllProven node cfg stored fs before
          (deposit_entries (audit_deposits node cfg stored index fs before c).0)
  unfolding audit_deposits
  audit_deposits-AllProven stored index [] before c h = AllProven.none_to_prove before
  audit_deposits-AllProven stored index (f ∷ fs) before c h =
      let here = audit_deposit node cfg stored index f (head_of before) c in
      let rest = audit_deposits node cfg stored (index + 1) fs (tail_of before) here.1 in
      let (first, others) = checks_pass-++ here.0.checks (deposit_checks rest.0) h in
      AllProven.next_proven (audit_deposit-IsProven stored index f (head_of before) c first)
        (audit_deposits-AllProven stored (index + 1) fs (tail_of before) here.1 others)
