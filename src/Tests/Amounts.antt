-- ===== src/Tests/Amounts.antt =====
-- The statements about amounts, requests and balances, at concrete ones.
use Prim.Native.Nat.{max}
use wolochain.Prelude.{◌+◌, ◌-◌, ◌*◌, ◌%◌, ◌≤◌, ◌≡◌, ◌↔◌, refl, [], ◌∷◌, none, some, arith, take}
use wolochain.Text.{trim_space}
use wolochain.Decimal.{pos, micro, u64_mod, parse_uint, format_uint}
use wolochain.Decimal.RoundTrip.{parse_uint-format_uint}
use wolochain.Fallible.{ok}
use wolochain.Request.{NormalizedRequest, normalize_amount_uwolo, normalize_request}
use wolochain.Request.Amount.{wolo_amount_exact, wolo_amount_wraps}
use wolochain.Request.Valid.{
  IsNormal, IsAmount, resubmit, normalize_amount_uwolo-IsAmount, normalize_request-IsNormal,
  normalize-resubmit,
}
use wolochain.Capacity.{
  check_payout_capacity, check_escrow_capacity, check_reserve_health, check_escrow_reserve_health,
}
use wolochain.Capacity.Exact.{payout_capacity_exact, escrow_capacity_exact, capacity_leaves_reserve}
use wolochain.Tests.{config, request, accepted_request, program_runs}

parse_uint-format_uint_example : parse_uint (format_uint 1234) ≡ some 1234
parse_uint-format_uint_example = parse_uint-format_uint 1234 (omega arith)

wolo_amount_exact_example : normalize_amount_uwolo [] (pos 25) ≡ ok (format_uint (25 * micro))
wolo_amount_exact_example = wolo_amount_exact 25 (omega arith) (omega arith)

-- 10_000_000_000_000 wolo is more than an `int64` of uwolo.
wolo_amount_wraps_example :
    normalize_amount_uwolo [] (pos 10000000000000)
    ≡ ok (b'-' ∷ format_uint (u64_mod - 10000000000000 * micro % u64_mod))
wolo_amount_wraps_example = wolo_amount_wraps 10000000000000 (omega arith) (omega arith)

-- The request, normalized and with no role yet.
abbrev normal : NormalizedRequest
normal = record accepted_request { signer_role = [] }

request_accepted : normalize_request request ≡ ok normal
unfolding program_runs
request_accepted = refl

amount_accepted :
    normalize_amount_uwolo request.amount_uwolo request.amount_wolo ≡ ok normal.amount_uwolo
unfolding program_runs
amount_accepted = refl

normalize_amount_uwolo-IsAmount_example : IsAmount normal.amount_uwolo
normalize_amount_uwolo-IsAmount_example =
    normalize_amount_uwolo-IsAmount request.amount_uwolo request.amount_wolo normal.amount_uwolo
      (omega arith) amount_accepted

normalize_request-IsNormal_example : IsNormal normal
normalize_request-IsNormal_example = normalize_request-IsNormal request normal request_accepted

normalize-resubmit_example :
    normalize_request (resubmit normal)
    ≡ ok (record normal { memo = take 180 (trim_space normal.memo) })
normalize-resubmit_example = normalize-resubmit request normal (omega arith) request_accepted

payout_capacity_exact_example :
    (check_payout_capacity config 90 40 ≡ none)
    ↔ (40 + max config.fee_headroom_uwolo config.min_payout_balance_uwolo ≤ 90)
payout_capacity_exact_example = payout_capacity_exact config 90 40

escrow_capacity_exact_example :
    (check_escrow_capacity config 90 87 ≡ none)
    ↔ (87 + max config.escrow_fee_headroom_uwolo config.min_escrow_balance_uwolo ≤ 90)
escrow_capacity_exact_example = escrow_capacity_exact config 90 87

capacity_leaves_reserve_example :
    ((check_payout_capacity config 90 40 ≡ none)
      ↔ ((40 ≤ 90) × (check_reserve_health config (90 - 40) ≡ none)))
    × ((check_escrow_capacity config 90 40 ≡ none)
        ↔ ((40 ≤ 90) × (check_escrow_reserve_health config (90 - 40) ≡ none)))
capacity_leaves_reserve_example = capacity_leaves_reserve config 90 40
