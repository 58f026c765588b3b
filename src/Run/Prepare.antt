-- ===== src/Run/Prepare.antt =====
-- `prepareSettlementRunRequest` of cmd/wolochaind/cmd/settlement.go, with the checks that it calls.
-- The loop over the payouts is `scan_lines`; what the loop adds up on the way (the planned lines,
-- the total, the warnings about equal lines) is read off its lines.
pub mod Lines
use wolochain.Prelude.{
  ℕ, suc, ◌+◌, ◌%◌, Bool, true, false, not, ◌&&◌, ◌||◌, List, [], ◌∷◌, ◌++◌, Option, none, some,
  ltb, leb, ◌==◌, if◌then◌else◌, is_empty, length, take, any,
}
use wolochain.Text.{Text, text, text_eq, trim_space, to_lower}
use wolochain.Decimal.{
  ℤ, u64_mod, format_uint, pad_zeros, format_display_amount, parse_optional_uwolo,
}
use wolochain.Fallible.{Fallible, ok, fail}
use wolochain.Codes.{Status, Outcome, FailureCode}
use wolochain.Config.{payout_role, escrow_role, max_run_payouts}
use wolochain.Request.{
  NormalizedRequest, normalize_request, matches_request_id, matches_source_event,
}
use wolochain.Probe.{quoted}
use wolochain.Run.{
  RunRequest, RunPayoutInput, NormalizedRun, NormalizedPayout, RunResponse, PayoutResult,
}
use wolochain.Run.Blank.{blank_normalized, blank_result}
use wolochain.Run.Head.{Head, read_head, head_response, join}
use wolochain.Run.Duplicates.{group_lines, warn_duplicates}

-- `%s:item-%03d`
unfoldable pub derive_run_request_id : Text → ℕ → Text
derive_run_request_id run_id index =
    run_id ++ (text ":item-" ++ pad_zeros 3 (format_uint (index + 1)))

-- One line of the run: refused, or planned with its result.
pub data Line : Type 0 where
  refused_line : PayoutResult → Line
  planned_line : NormalizedPayout → PayoutResult → Line

-- Whether a request id was seen.
abbrev pub seen_id : Text → List Text → Bool
seen_id id = any (text_eq id)

-- The ids seen after a line.
abbrev pub seen_after : Line → List Text → List Text
seen_after (refused_line r) seen = seen
seen_after (planned_line p r) seen = p.request_id ∷ seen

-- What the lines of a run share.
pub record RunContext : Type 0 where
  pub run_id : Text
  pub memo : Text
  pub signer_role : Text

module _ (ctx : RunContext) where
  abbrev line_request_id : ℕ → RunPayoutInput → Text
  line_request_id index input =
      let id = trim_space input.request_id in
      if is_empty id then derive_run_request_id ctx.run_id index else id

  abbrev line_memo : RunPayoutInput → Text
  line_memo input = let m = trim_space input.memo in if is_empty m then ctx.memo else m

  -- The result of a line before its checks.
  abbrev raw_result : ℕ → RunPayoutInput → PayoutResult
  raw_result index input = record blank_result {
    index = index;
    request_id = line_request_id index input;
    status = Status.failed;
    outcome = Outcome.invalid;
    signer_role = ctx.signer_role;
    memo = line_memo input;
  }

  unfoldable pub checked_line : ℕ → List Text → PayoutResult → Fallible NormalizedRequest → Line
  checked_line index seen raw (fail e) =
      refused_line (record raw { failure_code = FailureCode.invalid_payout; detail = e })
  checked_line index seen raw (ok n) =
      let shown = record raw {
        to_address = n.to_address;
        amount_uwolo = n.amount_uwolo;
        amount_wolo = format_display_amount n.amount_uwolo;
      } in
      if seen_id n.request_id seen
      then refused_line (record shown {
        failure_code = FailureCode.duplicate_request_id;
        detail =
            text "request_id "
            ++ (quoted n.request_id ++ text " appears more than once in this settlement run");
      })
      else planned_line
          (record {
            index = index;
            request_id = n.request_id;
            to_address = n.to_address;
            amount_uwolo = n.amount_uwolo;
            memo = n.memo;
          })
          (record shown {
            succeeded = true;
            status = Status.validated;
            outcome = Outcome.ready;
            memo = n.memo;
          })

  unfoldable pub prepare_line : ℕ → List Text → RunPayoutInput → Line
  prepare_line index seen input = checked_line index seen (raw_result index input) (
      normalize_request (record {
        request_id = line_request_id index input;
        to_address = input.to_address;
        amount_uwolo = input.amount_uwolo;
        amount_wolo = input.amount_wolo;
        memo = line_memo input;
      }))

  unfoldable pub scan_lines : ℕ → List Text → List RunPayoutInput → List Line
  scan_lines index seen [] = []
  scan_lines index seen (input ∷ inputs) =
      let line = prepare_line index seen input in
      line ∷ scan_lines (index + 1) (seen_after line seen) inputs

abbrev pub planned : List Line → List NormalizedPayout
planned [] = []
planned (refused_line r ∷ lines) = planned lines
planned (planned_line p r ∷ lines) = p ∷ planned lines

abbrev pub line_result : Line → PayoutResult
line_result (refused_line r) = r
line_result (planned_line p r) = r

abbrev pub results : List Line → List PayoutResult
results [] = []
results (line ∷ lines) = line_result line ∷ results lines

abbrev pub has_refused : List Line → Bool
has_refused [] = false
has_refused (refused_line r ∷ lines) = true
has_refused (planned_line p r ∷ lines) = has_refused lines

-- The total in an `uint64`, which wraps around.
abbrev pub add_amounts : ℕ → List NormalizedPayout → ℕ
add_amounts total [] = total
add_amounts total (p ∷ ps) =
    add_amounts
      (elim (parse_optional_uwolo p.amount_uwolo) [
        | none ↦ total
        | some amount ↦ (total + amount) % u64_mod
      ])
      ps

-- The normalized run of its planned lines.
unfoldable pub planned_run : Head → List Line → NormalizedRun
planned_run head lines = record {
  settlement_run_id = head.run_id;
  source_app = head.source_app;
  source_event_id = head.source_event_id;
  note = head.note;
  memo = head.memo;
  signer_role = head.signer_role;
  payouts = planned lines;
}

-- The response with the lines.
unfoldable pub lines_response : RunResponse → List Line → RunResponse
lines_response response lines =
    let total = format_uint (add_amounts 0 (planned lines)) in
    let (warnings, rs) = warn_duplicates (group_lines [] (planned lines)) ([], results lines) in
    let invalid = has_refused lines in
    record response {
      payouts = rs;
      requested_payout_count = length lines;
      requested_total_uwolo = total;
      requested_total_wolo = format_display_amount total;
      warnings = warnings;
      failure_code = if invalid then FailureCode.invalid_run else FailureCode.no_failure;
      detail = if invalid then text "one or more payout lines are invalid" else [];
    }

unfoldable pub run_context : Head → RunContext
run_context head = record { run_id = head.run_id; memo = head.memo; signer_role = head.signer_role }

unfoldable pub prepare_run : RunRequest → NormalizedRun × RunResponse
prepare_run request =
    let head = read_head request in
    let lines = scan_lines (run_context head) 0 [] request.payouts in
    if not (is_empty head.errors)
    then (
      blank_normalized,
      record (head_response head) {
        failure_code = FailureCode.invalid_run;
        detail = join head.errors;
      },
    )
    else (planned_run head lines, lines_response (head_response head) lines)
