-- ===== src/Run/Prepare/Lines.antt =====
-- About the lines that `prepare_run` makes of its inputs: their number, their ids and their total.
use wolochain.Prelude.{
  ℕ, suc, ◌+◌, ◌%◌, ◌<◌, ◌≡◌, refl, ap, ◌∙◌, true, false, List, [], ◌∷◌, none, some, arith, length,
  inl, inr, Bool-cases, Option-cases, is_empty,
}
use wolochain.Text.{Text}
use wolochain.Decimal.{u64_mod, parse_optional_uwolo}
use wolochain.Decimal.RoundTrip.{parse_optional_uwolo-format_uint}
use wolochain.Fallible.{Fallible, ok, fail}
use wolochain.Request.{NormalizedRequest}
use wolochain.Run.{RunRequest, RunPayoutInput, NormalizedPayout, PayoutResult}
use wolochain.Run.Prepare.{
  Line, refused_line, planned_line, seen_id, RunContext, checked_line, prepare_line, seen_after,
  scan_lines, planned, results, add_amounts, prepare_run, planned_run, lines_response, run_context,
}
use wolochain.Run.Head.{read_head}

-- No id of the payouts is among the seen ones, and none comes twice.
abbrev pub DistinctFrom : List Text → List NormalizedPayout → Type 0
DistinctFrom seen [] = Unit
DistinctFrom seen (p ∷ ps) =
    (seen_id p.request_id seen ≡ false) × DistinctFrom (p.request_id ∷ seen) ps

-- A line that is planned has an id that was not seen.
abbrev IsFresh : List Text → Line → Type 0
IsFresh seen (refused_line r) = Unit
IsFresh seen (planned_line p r) = seen_id p.request_id seen ≡ false

checked_line-IsFresh :
    (ctx : RunContext) (index : ℕ) (seen : List Text) (raw : PayoutResult)
    (n : Fallible NormalizedRequest)
    → IsFresh seen (checked_line ctx index seen raw n)
unfolding checked_line
checked_line-IsFresh ctx index seen raw (fail e) = tt
checked_line-IsFresh ctx index seen raw (ok n) = elim (Bool-cases (seen_id n.request_id seen)) [
  | inl known ↦ rw (known, checked_line) tt
  | inr fresh ↦ rw (fresh, checked_line) fresh
]

prepare_line-IsFresh :
    (ctx : RunContext) (index : ℕ) (seen : List Text) (input : RunPayoutInput)
    → IsFresh seen (prepare_line ctx index seen input)
unfolding prepare_line
prepare_line-IsFresh ctx index seen input = checked_line-IsFresh ctx index seen _ _

planned-DistinctFrom :
    (seen : List Text) (line : Line) (lines : List Line)
    → IsFresh seen line
    → DistinctFrom (seen_after line seen) (planned lines)
    → DistinctFrom seen (planned (line ∷ lines))
planned-DistinctFrom seen (refused_line r) lines f d = d
planned-DistinctFrom seen (planned_line p r) lines f d = (f, d)

scan_lines-DistinctFrom :
    (ctx : RunContext) (index : ℕ) (seen : List Text) (inputs : List RunPayoutInput)
    → DistinctFrom seen (planned (scan_lines ctx index seen inputs))
unfolding scan_lines
scan_lines-DistinctFrom ctx index seen [] = tt
scan_lines-DistinctFrom ctx index seen (input ∷ inputs) =
    planned-DistinctFrom seen (prepare_line ctx index seen input) _
      (prepare_line-IsFresh ctx index seen input) (scan_lines-DistinctFrom ctx (index + 1) _ inputs)

results-scan_lines-length :
    (ctx : RunContext) (index : ℕ) (seen : List Text) (inputs : List RunPayoutInput)
    → length (results (scan_lines ctx index seen inputs)) ≡ length inputs
unfolding scan_lines
results-scan_lines-length ctx index seen [] = refl
results-scan_lines-length ctx index seen (input ∷ inputs) =
    ap (λ n. suc n) (results-scan_lines-length ctx (index + 1) _ inputs)

-- A scan has one line for each input.
pub scan_lines-length :
    (ctx : RunContext) (index : ℕ) (seen : List Text) (inputs : List RunPayoutInput)
    → length (scan_lines ctx index seen inputs) ≡ length inputs
unfolding scan_lines
scan_lines-length ctx index seen [] = refl
scan_lines-length ctx index seen (input ∷ inputs) =
    ap (λ n. suc n) (scan_lines-length ctx (index + 1) _ inputs)

-- The payouts of a prepared run have request ids that are all different, so no two of its lines
-- share a state file.
pub prepare_run-DistinctFrom :
    (request : RunRequest) → DistinctFrom [] (prepare_run request).0.payouts
unfolding prepare_run planned_run
prepare_run-DistinctFrom request = elim (Bool-cases (is_empty (read_head request).errors)) [
  | inl valid ↦
      rw (valid, prepare_run)
        (scan_lines-DistinctFrom (run_context (read_head request)) 0 [] request.payouts)
  | inr invalid ↦ rw (invalid, prepare_run) tt
]

-- What a payout asks for; what cannot be read asks for nothing.
abbrev pub amount_of : NormalizedPayout → ℕ
amount_of p = elim (parse_optional_uwolo p.amount_uwolo) [ none ↦ 0 | some amount ↦ amount ]

-- The sum of the payouts' amounts, as a number.
abbrev pub sum_of : List NormalizedPayout → ℕ
sum_of [] = 0
sum_of (p ∷ ps) = amount_of p + sum_of ps

add_amounts-mod :
    (total : ℕ) (ps : List NormalizedPayout)
    → add_amounts total ps % u64_mod ≡ (total + sum_of ps) % u64_mod
add_amounts-mod total [] = omega arith
add_amounts-mod total (p ∷ ps) = elim (Option-cases (parse_optional_uwolo p.amount_uwolo)) [
  | inl unread ↦
      (let asks : amount_of p ≡ 0 = rw (unread, amount_of) refl in
        let rest = add_amounts-mod total ps in rw unread (omega arith))
  | inr (amount, e) ↦
      (let asks : amount_of p ≡ amount = rw (e, amount_of) refl in
        let rest = add_amounts-mod ((total + amount) % u64_mod) ps in rw e (omega arith))
]

add_amounts-lt :
    (total : ℕ) (ps : List NormalizedPayout) → total < u64_mod → add_amounts total ps < u64_mod
add_amounts-lt total [] small = small
add_amounts-lt total (p ∷ ps) small = elim (Option-cases (parse_optional_uwolo p.amount_uwolo)) [
  | inl unread ↦ rw unread (add_amounts-lt total ps small)
  | inr (amount, e) ↦ rw e (add_amounts-lt ((total + amount) % u64_mod) ps (omega arith))
]

-- The requested total of a run whose head is valid is the sum of the amounts of its payouts
-- modulo 2^64: a sum that does not fit is cut without a word.
pub requested_total_wraps :
    (request : RunRequest)
    → is_empty (read_head request).errors ≡ true
    → parse_optional_uwolo (prepare_run request).1.requested_total_uwolo
      ≡ some (sum_of (prepare_run request).0.payouts % u64_mod)
unfolding prepare_run lines_response planned_run
requested_total_wraps request valid =
    let lines = scan_lines (run_context (read_head request)) 0 [] request.payouts in
    let total = add_amounts 0 (planned lines) in
    let small = add_amounts-lt 0 (planned lines) (omega arith) in
    let congruent = add_amounts-mod 0 (planned lines) in
    let same : total ≡ sum_of (planned lines) % u64_mod = omega arith in
    rw (valid, prepare_run) (parse_optional_uwolo-format_uint total small ∙ ap some same)
