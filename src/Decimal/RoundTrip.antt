-- ===== src/Decimal/RoundTrip.antt =====
-- Reading back what the decimal formats print, and what the parser accepts.
use mathlib.Core.List.{cons-ne-nil}
use native.Mathlib.Nat.{pow-suc}
use wolochain.Prelude.{
  ℕ, zero, suc, ◌+◌, ◌-◌, ◌*◌, ◌/◌, ◌%◌, ◌^◌, ◌<◌, ◌≡◌, ◌≢◌, refl, true, false, [], ◌∷◌, some,
  arith, ltb, All, inl, inr, ◌∙◌, Bool-cases,
}
use wolochain.Text.{Text, is_digit, trim_space, trim_left, trim_right}
use wolochain.Decimal.{u64_mod, scan, parse_uint, digits, format_uint, parse_optional_uwolo}

-- What is read is in range.
scan-lt : (s : Text) (n r : ℕ) → n < u64_mod → scan s n ≡ some r → r < u64_mod
unfolding scan
scan-lt [] n r fits h = ground arith
scan-lt (c ∷ s) n r fits h = ground (arith, scan-lt s (n * 10 + (c - b'0')) r)

pub parse_uint-lt : (s : Text) (r : ℕ) → parse_uint s ≡ some r → r < u64_mod
unfolding parse_uint scan
parse_uint-lt [] r h = cc
parse_uint-lt (c ∷ s) r h = scan-lt (c ∷ s) 0 r (omega arith) h

scan_last : (n : ℕ) (out : Text) → n < u64_mod → scan ((b'0' + n % 10) ∷ out) (n / 10) ≡ scan out n
unfolding scan
scan_last n out fits = ground arith

digits_more :
    (fuel n : ℕ) (out : Text)
    → ltb n 10 ≡ false
    → digits (suc fuel) n out ≡ digits fuel (n / 10) ((b'0' + n % 10) ∷ out)
unfolding digits
digits_more fuel n out h = rw h

-- Reading the digits that `digits` writes for `n` leaves `n` read.
scan-digits :
    (fuel n : ℕ) (out : Text)
    → n < 10 ^ suc fuel
    → n < u64_mod
    → scan (digits (suc fuel) n out) 0 ≡ scan out n
unfolding digits scan
scan-digits zero n out h fits = ground arith
scan-digits (suc fuel) n out h fits = elim (Bool-cases (ltb n 10)) [
  | inl small ↦ ground arith
  | inr more ↦ rw (digits_more (suc fuel) n out more) (
      scan-digits fuel (n / 10) ((b'0' + n % 10) ∷ out)
        (let p : n < 10 ^ suc fuel * 10 = rw pow-suc at h in omega arith) (omega arith)
      ∙ scan_last n out fits)
]

digits-ne-nil : (fuel n : ℕ) (out : Text) → out ≢ [] → digits fuel n out ≢ []
unfolding digits
digits-ne-nil zero n out h = h
digits-ne-nil (suc fuel) n out h = elim (Bool-cases (ltb n 10)) [
  | inl small ↦ rw small (cons-ne-nil _ out)
  | inr more ↦ rw more (digits-ne-nil fuel (n / 10) _ (cons-ne-nil _ out))
]

pub format_uint-ne-nil : (n : ℕ) → format_uint n ≢ []
unfolding format_uint digits
format_uint-ne-nil n = elim (Bool-cases (ltb n 10)) [
  | inl small ↦ rw small (cons-ne-nil _ [])
  | inr more ↦ rw (digits_more 19 n [] more) (digits-ne-nil 19 (n / 10) _ (cons-ne-nil _ []))
]

parse_uint-scan : (s : Text) → s ≢ [] → parse_uint s ≡ scan s 0
unfolding parse_uint scan
parse_uint-scan [] h = absurd (h refl)
parse_uint-scan (c ∷ s) _ = refl

-- Every 64-bit amount is read back from its decimal print.
pub parse_uint-format_uint : (n : ℕ) → n < u64_mod → parse_uint (format_uint n) ≡ some n
unfolding scan
parse_uint-format_uint n h =
    rw (parse_uint-scan _ (format_uint-ne-nil n))
      (unfold format_uint in scan-digits 19 n [] (omega arith) h)

abbrev AllDigits : Text → Type 0
AllDigits = All (λ c. is_digit c ≡ true)

digits-AllDigits : (fuel n : ℕ) (out : Text) → AllDigits out → AllDigits (digits fuel n out)
unfolding digits
digits-AllDigits zero n out h = h
digits-AllDigits (suc fuel) n out h =
    let step : is_digit (b'0' + n % 10) ≡ true = ground arith in
    elim (Bool-cases (ltb n 10)) [
      | inl small ↦ rw small (step, h)
      | inr more ↦ rw more (digits-AllDigits fuel (n / 10) _ (step, h))
    ]

trim_right-AllDigits : (s : Text) → AllDigits s → trim_right s ≡ s
unfolding trim_right
trim_right-AllDigits [] h = refl
trim_right-AllDigits (c ∷ s) (d, h) = ground (arith, trim_right-AllDigits s h)

trim_left-AllDigits : (s : Text) → AllDigits s → trim_left s ≡ s
unfolding trim_left
trim_left-AllDigits [] h = refl
trim_left-AllDigits (c ∷ s) (d, h) = ground arith

pub trim_space-format_uint : (n : ℕ) → trim_space (format_uint n) ≡ format_uint n
unfolding trim_space format_uint
trim_space-format_uint n =
    let all_digits = digits-AllDigits 20 n [] tt in
    rw (trim_left-AllDigits _ all_digits) (trim_right-AllDigits _ all_digits)

-- An optional amount is read back too.
pub parse_optional_uwolo-format_uint :
    (n : ℕ) → n < u64_mod → parse_optional_uwolo (format_uint n) ≡ some n
unfolding parse_optional_uwolo
parse_optional_uwolo-format_uint n h =
    rw trim_space-format_uint (ground (arith, parse_uint-format_uint n h, format_uint-ne-nil n))

pub parse_optional_uwolo-lt : (s : Text) (r : ℕ) → parse_optional_uwolo s ≡ some r → r < u64_mod
unfolding parse_optional_uwolo
parse_optional_uwolo-lt s r h = ground (arith, parse_uint-lt (trim_space s) r)
