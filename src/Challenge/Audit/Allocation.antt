-- ===== src/Challenge/Audit/Allocation.antt =====
-- The buckets in an audit: `auditChallengeBucketAllocation` and `challengeResponseBucketRequested` of
-- cmd/wolochaind/cmd/settlement_challenge_audit.go.
use wolochain.Prelude.{
  ℕ, Bool, true, false, List, [], ◌∷◌, ◌++◌, Option, none, some, if◌then◌else◌, is_empty,
}
use wolochain.Text.{Text, text, text_eq, trim_space, equal_fold, is_digit}
use wolochain.Decimal.{parse_uint, parse_optional_uwolo}
use wolochain.Fallible.{Fallible, ok, fail}
use wolochain.Run.Head.{join}
use wolochain.Run.Tally.{add_u64}
use wolochain.Probe.{quoted}
use wolochain.Challenge.{FundingResult, NormalizedTransfer, BucketTotals}
use wolochain.Challenge.Transfers.{resolve_participant}
use wolochain.Challenge.Finalize.{merge_transfer}
use wolochain.Challenge.Lines.{Line, check_allocation}
use wolochain.Challenge.Audit.{AuditCode, AuditCheck, audit_check, equal_check, line_name}

abbrev leading_digits : Text → Text
leading_digits [] = []
leading_digits (c ∷ s) = let rest = leading_digits s in if is_digit c then c ∷ rest else []

-- Whether a text of digits is too large for an `uint64`.
abbrev overflows : Text → Bool
overflows [] = false
overflows (c ∷ s) = elim (parse_uint (c ∷ s)) [ none ↦ true | some n ↦ false ]

-- The error of `strconv.ParseUint` on a text that it refuses
abbrev parse_uint_error : Text → Text
parse_uint_error s =
    text "strconv.ParseUint: parsing "
    ++ (quoted s
        ++ (if overflows (leading_digits s)
            then text ": value out of range"
            else text ": invalid syntax"))

-- One transfer of the request: its checks, its amount if it has one, and its line of the allocation
-- if a deposit was found for it.
pub record AuditedLine : Type 0 where
  pub checks : List AuditCheck
  pub amount : Option ℕ
  pub line : List Line

abbrev treasury_checks : Text → NormalizedTransfer → List AuditCheck
treasury_checks treasury t =
    if equal_fold t.reason (text "treasury")
    then equal_check (line_name (text "transfer_") t.index (text "_treasury_route"))
        AuditCode.treasury_route_mismatch (trim_space treasury) t.to_address
      ∷ []
    else []

abbrev matched_line :
    List AuditCheck → NormalizedTransfer → ℕ → Fallible FundingResult → AuditedLine
matched_line routed t amount (ok deposit) = record {
  checks = routed;
  amount = some amount;
  line = Line.planned_line t (merge_transfer t none) deposit amount ∷ [];
}
matched_line routed t amount (fail e) = record {
  checks =
      routed
      ++ (audit_check (line_name (text "transfer_") t.index (text "_funding_identity")) false
            AuditCode.transfer_funding_mismatch e (t.participant_side ++ (b'|' ∷ t.participant_id))
            []
          ∷ []);
  amount = some amount;
  line = [];
}

unfoldable pub audit_line : Text → List FundingResult → NormalizedTransfer → AuditedLine
audit_line treasury deposits t = elim (parse_optional_uwolo t.amount_uwolo) [
  | none ↦ record {
    checks =
        audit_check (line_name (text "transfer_") t.index (text "_amount")) false
          AuditCode.invalid_transfer_amount (parse_uint_error (trim_space t.amount_uwolo))
          t.amount_uwolo []
        ∷ [];
    amount = none;
    line = [];
  }
  | some amount ↦
      matched_line (treasury_checks treasury t) t amount
        (resolve_participant deposits t.participant_side t.participant_id)
]

abbrev amount_if : Bool → AuditedLine → ℕ
amount_if test l = elim l.amount [ none ↦ 0 | some n ↦ if test then n else 0 ]

unfoldable pub audit_lines : Text → List FundingResult → List NormalizedTransfer → List AuditedLine
audit_lines treasury deposits [] = []
audit_lines treasury deposits (t ∷ ts) =
    audit_line treasury deposits t ∷ audit_lines treasury deposits ts

-- A total of the amounts of the transfers that a test keeps, in an `uint64`.
unfoldable pub audit_total :
    Text → List FundingResult → (NormalizedTransfer → Bool) → ℕ → List NormalizedTransfer → ℕ
audit_total treasury deposits keeps total [] = total
audit_total treasury deposits keeps total (t ∷ ts) =
    audit_total treasury deposits keeps
      (add_u64 total (amount_if (keeps t) (audit_line treasury deposits t))) ts

abbrev pub line_checks : List AuditedLine → List AuditCheck
line_checks [] = []
line_checks (l ∷ ls) = l.checks ++ line_checks ls

abbrev pub allocated_lines : List AuditedLine → List Line
allocated_lines [] = []
allocated_lines (l ∷ ls) = l.line ++ allocated_lines ls

-- The check of the whole allocation.
unfoldable pub allocation_check : List FundingResult → List AuditedLine → AuditCheck
allocation_check deposits lines =
    let errors = check_allocation (allocated_lines lines) deposits in
    let fine = is_empty errors in
    audit_check (text "bucket_allocation") fine AuditCode.bucket_allocation_mismatch
      (if fine
        then text "wager and guarantee transfer buckets reconcile to verified funding"
        else join errors)
      (text "funded buckets") (text "transfer allocation")

-- `auditChallengeBucketAllocation`, but for its totals
unfoldable pub audit_allocation :
    Text → List FundingResult → List NormalizedTransfer → List AuditCheck
audit_allocation treasury deposits ts =
    let lines = audit_lines treasury deposits ts in
    line_checks lines ++ (allocation_check deposits lines ∷ [])

-- `challengeResponseBucketRequested`
unfoldable pub audited_bucket : Text → List BucketTotals → Text
audited_bucket bucket [] = text "0"
audited_bucket bucket (t ∷ ts) =
    let rest = audited_bucket bucket ts in
    if equal_fold t.bucket bucket then trim_space t.requested_uwolo else rest

abbrev pub in_bucket : Text → NormalizedTransfer → Bool
in_bucket bucket t = text_eq t.bucket bucket

abbrev pub to_treasury : NormalizedTransfer → Bool
to_treasury t = equal_fold t.reason (text "treasury")
