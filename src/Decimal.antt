-- ===== src/Decimal.antt =====
-- Amounts as decimal text: Go's `strconv` as cmd/wolochaind/cmd/settlement.go calls it (base 10,
-- 64 bits), and the display and optional formats of that file.
pub mod RoundTrip
use wolochain.Prelude.{
  ℕ, zero, suc, ◌+◌, ◌-◌, ◌*◌, ◌/◌, ◌%◌, ◌^◌, Bool, true, false, ◌&&◌, ◌||◌, List, [], ◌∷◌, ◌++◌,
  Option, none, some, ltb, leb, ◌==◌, if◌then◌else◌, is_empty, length,
}
use wolochain.Text.{Text, is_digit, trim_space, text_runs}

-- Go's `int64` values; `negsuc n` is -(n + 1).
pub data ℤ : Type 0 where
  pos : ℕ → ℤ
  negsuc : ℕ → ℤ

abbrev pub u64_mod : ℕ
u64_mod = 2 ^ 64

abbrev pub i64_mod : ℕ
i64_mod = 2 ^ 63

abbrev pub micro : ℕ
micro = 1_000_000

-- One digit after another; `none` once a character is no digit or the number has passed 64 bits.
unfoldable pub scan : Text → ℕ → Option ℕ
scan [] n = some n
scan (c ∷ s) n =
    let m = n * 10 + (c - b'0') in if is_digit c && ltb m u64_mod then scan s m else none

-- `strconv.ParseUint(s, 10, 64)`; `none` is an error.
unfoldable pub parse_uint : Text → Option ℕ
parse_uint [] = none
parse_uint (c ∷ s) = scan (c ∷ s) 0

-- The digits of `n`, in front of `out`.
unfoldable pub digits : ℕ → ℕ → Text → Text
digits zero n out = out
digits (suc fuel) n out =
    let shown = (b'0' + n % 10) ∷ out in
    let rest = digits fuel (n / 10) shown in if ltb n 10 then shown else rest

-- `strconv.FormatUint(n, 10)`: 20 digits write every 64-bit number.
unfoldable pub format_uint : ℕ → Text
format_uint n = digits 20 n []

-- `strconv.FormatInt(n, 10)`
unfoldable pub format_int : ℤ → Text
format_int (pos n) = format_uint n
format_int (negsuc n) = b'-' ∷ format_uint (n + 1)

abbrev signed : ℕ → Option ℤ
signed zero = some (pos 0)
signed (suc n) = some (negsuc n)

-- `strconv.ParseInt(s, 10, 64)`; `none` is an error.
unfoldable pub parse_int : Text → Option ℤ
parse_int [] = none
parse_int (c ∷ s) =
    if c == b'-'
    then elim (parse_uint s) [ none ↦ none | some n ↦ if leb n i64_mod then signed n else none ]
    else elim (parse_uint (if c == b'+' then s else c ∷ s)) [
      | none ↦ none
      | some n ↦ if ltb n i64_mod then some (pos n) else none
    ]

abbrev zeros : ℕ → Text → Text
zeros zero s = s
zeros (suc n) s = b'0' ∷ zeros n s

-- Zeros in front of `s`, up to a width.
unfoldable pub pad_zeros : ℕ → Text → Text
pad_zeros width s = zeros (width - length s) s

-- `%d` and `%06d` of the quotient and the remainder by 1_000_000: Go rounds towards zero, and the
-- sign counts for the width.
unfoldable pub display : ℤ → Text
display (pos n) = format_uint (n / micro) ++ b'.' ∷ pad_zeros 6 (format_uint (n % micro))
display (negsuc n) =
    let whole = (n + 1) / micro in
    let frac = (n + 1) % micro in
    (if whole == 0 then format_uint 0 else b'-' ∷ format_uint whole)
    ++ b'.'
      ∷ (if frac == 0 then pad_zeros 6 (format_uint 0) else b'-' ∷ pad_zeros 5 (format_uint frac))

unfoldable pub format_display_amount : Text → Text
format_display_amount [] = []
format_display_amount (c ∷ s) = elim (parse_int (c ∷ s)) [ none ↦ [] | some n ↦ display n ]

-- `none` is an error; no text is the amount 0.
unfoldable pub parse_optional_uwolo : Text → Option ℕ
parse_optional_uwolo value =
    let trimmed = trim_space value in if is_empty trimmed then some 0 else parse_uint trimmed

-- No text for the amount 0.
unfoldable pub format_optional_uwolo : ℕ → Text
format_optional_uwolo amount = if amount == 0 then [] else format_uint amount

unfoldable pub format_optional_display_amount : ℕ → Text
format_optional_display_amount amount =
    if amount == 0 then [] else format_display_amount (format_uint amount)

-- What a run on concrete amounts unfolds.
unfoldable pub decimal_runs : Unit {0}
unfolding scan parse_uint digits format_uint format_int parse_int pad_zeros display
    format_display_amount parse_optional_uwolo format_optional_uwolo format_optional_display_amount
    text_runs
decimal_runs = tt
