-- ===== src/Request/Amount.antt =====
-- Amounts in whole wolo, and what the test against the digit 0 lets through.
use wolochain.Prelude.{ℕ, ◌-◌, ◌*◌, ◌%◌, ◌≤◌, ◌<◌, ◌≡◌, refl, [], ◌∷◌, arith}
use wolochain.Text.{trim_space, trim_left, trim_right}
use wolochain.Decimal.{pos, micro, i64_mod, u64_mod, format_int, format_uint}
use wolochain.Fallible.{ok}
use wolochain.Request.{normalize_amount_uwolo, scale, wrap_i64}

blank : trim_space [] ≡ []
unfolding trim_space trim_left trim_right
blank = refl

-- An amount of whole wolo that fits an `int64` in uwolo becomes its uwolo digits.
pub wolo_amount_exact :
    (n : ℕ)
    → 0 < n
    → n * micro < i64_mod
    → normalize_amount_uwolo [] (pos n) ≡ ok (format_uint (n * micro))
unfolding normalize_amount_uwolo scale wrap_i64 format_int
wolo_amount_exact n p h = ground (arith, blank)

-- An amount of whole wolo whose product by 1_000_000 wraps to a negative `int64` is accepted, as a
-- text with a minus sign.
pub wolo_amount_wraps :
    (n : ℕ)
    → 0 < n
    → i64_mod ≤ n * micro % u64_mod
    → normalize_amount_uwolo [] (pos n) ≡ ok (b'-' ∷ format_uint (u64_mod - n * micro % u64_mod))
unfolding normalize_amount_uwolo scale wrap_i64 format_int
wolo_amount_wraps n p h = ground (arith, blank)
