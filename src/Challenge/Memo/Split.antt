-- ===== src/Challenge/Memo/Split.antt =====
-- About the buckets of a deposit, and the amount that was moved into escrow.
use wolochain.Prelude.{
  ℕ, List, ◌+◌, ◌%◌, ◌<◌, ◌≡◌, refl, ap, ◌∙◌, some, arith, Option-cases, inl, inr, ==_iff,
}
use wolochain.Text.{Text, trim_space, has_prefix}
use wolochain.Query.{parse_query}
use wolochain.Decimal.{u64_mod, parse_uint}
use wolochain.Decimal.RoundTrip.{parse_uint-format_uint, parse_uint-lt}
use wolochain.Fallible.{ok, >>=-eq-ok, require->>-eq-ok, ok-injective}
use wolochain.Responses.{Transfer, LookupResponse}
use wolochain.Challenge.{FundingResult, memo_prefix}
use wolochain.Challenge.Memo.{
  MemoIds, parse_memo_amount, parse_transfer_amount, split_funding, parse_memo, parse_funding,
  trim_prefix, read_memo_ids, explain_query,
}

-- Two buckets, none of them empty, that add up in 64 bits to an amount that is not 0.
pub record IsSplit (amount : Text) (r : FundingResult) : Type 0 where
  pub wager : ℕ
  pub guarantee : ℕ
  pub total : ℕ
  pub wager_written : parse_uint r.wager_uwolo ≡ some wager
  pub guarantee_written : parse_uint r.guarantee_uwolo ≡ some guarantee
  pub total_written : r.total_funded_uwolo ≡ trim_space amount
  pub total_moved : parse_uint (trim_space amount) ≡ some total
  pub parts : (wager + guarantee) % u64_mod ≡ total
  pub some_wager : 0 < wager
  pub some_guarantee : 0 < guarantee
  pub some_total : 0 < total

-- Only the three amounts of a deposit count.
pub IsSplit-same :
    {amount : Text} {r s : FundingResult}
    → IsSplit amount r
    → s.wager_uwolo ≡ r.wager_uwolo
    → s.guarantee_uwolo ≡ r.guarantee_uwolo
    → s.total_funded_uwolo ≡ r.total_funded_uwolo
    → IsSplit amount s
IsSplit-same split wager guarantee total = record {
  wager = split.wager;
  guarantee = split.guarantee;
  total = split.total;
  wager_written = ap parse_uint wager ∙ split.wager_written;
  guarantee_written = ap parse_uint guarantee ∙ split.guarantee_written;
  total_written = total ∙ split.total_written;
  total_moved = split.total_moved;
  parts = split.parts;
  some_wager = split.some_wager;
  some_guarantee = split.some_guarantee;
  some_total = split.some_total;
}

parse_memo_amount-positive :
    (field raw : Text) (n : ℕ) → parse_memo_amount field raw ≡ ok n → (0 < n) × (n < u64_mod)
unfolding parse_memo_amount
parse_memo_amount-positive field raw n h = elim (Option-cases (parse_uint (trim_space raw))) [
  | inl none_read ↦ absurd (ground arith)
  | inr (m, is_read) ↦
      let fits = parse_uint-lt (trim_space raw) m is_read in
      let same : m ≡ n = ground arith in (ground arith, omega arith)
]

parse_transfer_amount-positive :
    (amount : Text) (n : ℕ)
    → parse_transfer_amount amount ≡ ok n
    → (parse_uint amount ≡ some n) × (0 < n)
parse_transfer_amount-positive amount n h = ground arith

-- What a deposit takes from the amounts and from the names of its memo.
pub split_funding-inv :
    (transfer : Transfer) (lookup : LookupResponse) (escrow_address memo : Text)
    (pairs : List (Text × Text)) (ids : MemoIds) (r : FundingResult)
    → split_funding transfer lookup escrow_address memo pairs ids ≡ ok r
    → IsSplit transfer.amount r
      × (r.participant_side ≡ ids.participant_side)
      × (r.participant_id ≡ ids.participant_id)
unfolding split_funding
split_funding-inv transfer lookup escrow_address memo pairs ids r h =
    let (wager, wager_read, h₁) = >>=-eq-ok _ _ h in
    let (guarantee, guarantee_read, h₂) = >>=-eq-ok _ _ h₁ in
    let (total, total_read, h₃) = >>=-eq-ok _ _ h₂ in
    let (declared, h₄) = require->>-eq-ok _ _ _ h₃ in
    let (same, h₅) = require->>-eq-ok _ _ _ h₄ in
    let built = ok-injective h₅ in
    let (some_wager, wager_fits) = parse_memo_amount-positive _ _ wager wager_read in
    let (some_guarantee, guarantee_fits) =
      parse_memo_amount-positive _ _ guarantee guarantee_read in
    let (moved, some_total) = parse_transfer_amount-positive _ total total_read in
    rw (← built) (
      record {
        wager = wager;
        guarantee = guarantee;
        total = total;
        wager_written = parse_uint-format_uint wager wager_fits;
        guarantee_written = parse_uint-format_uint guarantee guarantee_fits;
        total_written = refl;
        total_moved = moved;
        parts = (==_iff _ total).0 same;
        some_wager = some_wager;
        some_guarantee = some_guarantee;
        some_total = some_total;
      },
      refl,
      refl,
    )

parse_memo-IsSplit :
    (transfer : Transfer) (lookup : LookupResponse) (escrow_address memo : Text) (r : FundingResult)
    → parse_memo transfer lookup escrow_address memo ≡ ok r
    → IsSplit transfer.amount r
unfolding parse_memo
parse_memo-IsSplit transfer lookup escrow_address memo r h =
    let (_, h₁) = require->>-eq-ok (has_prefix memo memo_prefix) _ _ h in
    let (pairs, _, h₂) =
      >>=-eq-ok (explain_query (parse_query (trim_prefix memo memo_prefix))) _ h₁ in
    let (ids, _, h₃) = >>=-eq-ok (read_memo_ids pairs) _ h₂ in
    (split_funding-inv transfer lookup escrow_address memo pairs ids r h₃).0

-- The buckets of a deposit add up. If the memo of a looked-up transaction is read as a deposit,
-- its wager and its guarantee are numbers of 64 bits that are not 0, its total is the amount of the
-- transfer, which is not 0, and wager and guarantee add up to that total modulo 2^64.
pub parse_funding-IsSplit :
    (transfer : Transfer) (lookup : LookupResponse) (escrow_address : Text) (r : FundingResult)
    → parse_funding transfer lookup escrow_address ≡ ok r
    → IsSplit transfer.amount r
unfolding parse_funding
parse_funding-IsSplit transfer lookup escrow_address r h =
    parse_memo-IsSplit transfer lookup escrow_address (trim_space lookup.memo) r h
