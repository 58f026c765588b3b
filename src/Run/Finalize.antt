-- ===== src/Run/Finalize.antt =====
-- What a run adds up to: `finalizeSettlementRunResponse` of cmd/wolochaind/cmd/settlement.go with
-- the functions that it calls, and the functions beside it that mark and ask the payouts of a run.
pub mod Totals
pub mod Verdict
use wolochain.Prelude.{
  ℕ, ◌+◌, ◌%◌, Bool, true, false, not, ◌&&◌, ◌||◌, List, [], ◌∷◌, ◌++◌, none, some, ltb, ◌==◌,
  if◌then◌else◌, is_empty, length, any,
}
use wolochain.Text.{Text, text, trim_space}
use wolochain.Decimal.{u64_mod, format_uint, format_display_amount, parse_optional_uwolo}
use wolochain.Codes.{
  Status, Outcome, FailureCode, is_failed, is_confirmed, is_accepted, is_partial, is_no_status,
  is_ready, is_refusal, is_rejected, is_no_failure, is_invalid_run,
}
use wolochain.Responses.{ExecuteResponse}
use wolochain.Run.{NormalizedPayout, PayoutResult, RunResponse}
use wolochain.Run.Prepare.{add_amounts}
use wolochain.Run.Tally.{Tally, tally_of, tally, add_results}

unfoldable pub derive_outcome : ExecuteResponse → Outcome
derive_outcome r =
    if r.idempotent_replay
    then Outcome.idempotent_replay
    else if is_confirmed r.status && r.succeeded
    then Outcome.confirmed
    else if is_accepted r.status && r.succeeded
    then Outcome.accepted
    else if is_failed r.status && is_empty (trim_space r.tx_hash)
    then Outcome.refused
    else if is_failed r.status
    then Outcome.rejected
    else if not (is_no_status r.status)
    then Outcome.other r.status
    else Outcome.unknown

-- `settlementRunPayoutResultFromExecuteResponse`
unfoldable pub payout_result : NormalizedPayout → ExecuteResponse → PayoutResult
payout_result p r = record {
  index = p.index;
  request_id = r.request_id;
  attempted = true;
  succeeded = r.succeeded;
  status = r.status;
  outcome = derive_outcome r;
  failure_code = r.failure_code;
  retryable = r.retryable;
  idempotent_replay = r.idempotent_replay;
  signer_role = r.signer_role;
  signer_address = r.signer_address;
  to_address = r.to_address;
  amount_uwolo = r.amount_uwolo;
  amount_wolo = r.amount_wolo;
  memo = p.memo;
  tx_hash = r.tx_hash;
  detail = r.detail;
  canonical_tx_lookup = r.canonical_tx_lookup;
  canonical_tx_lookup_preferred = r.canonical_tx_lookup_preferred;
  canonical_tx_lookup_internal = r.canonical_tx_lookup_internal;
  canonical_tx_lookup_public = r.canonical_tx_lookup_public;
  warnings = [];
}

abbrev pub run_amount : ℕ → Text
run_amount n = if n == 0 then [] else format_uint n

abbrev pub run_display_amount : ℕ → Text
run_display_amount n = if n == 0 then [] else format_display_amount (format_uint n)

unfoldable pub first_failure_code : List PayoutResult → FailureCode
first_failure_code [] = FailureCode.no_failure
first_failure_code (p ∷ ps) =
    let rest = first_failure_code ps in
    if is_no_failure p.failure_code then rest else p.failure_code

unfoldable pub first_failure_detail : List PayoutResult → Text
first_failure_detail [] = []
first_failure_detail (p ∷ ps) =
    let rest = first_failure_detail ps in
    if not (is_empty (trim_space p.detail)) && not (is_no_failure p.failure_code)
    then p.detail
    else rest

-- `firstNonEmpty` of three failure codes.
abbrev pub first_code : FailureCode → FailureCode → FailureCode → FailureCode
first_code a b c = if not (is_no_failure a) then a else if not (is_no_failure b) then b else c

unfoldable pub derive_run_status : RunResponse → Status × Bool × FailureCode
derive_run_status r =
    let some_failed = ltb 0 r.refused_payout_count || ltb 0 r.rejected_payout_count in
    if is_invalid_run r.failure_code
    then (Status.failed, false, r.failure_code)
    else if r.confirmed_payout_count == r.requested_payout_count && ltb 0 r.requested_payout_count
    then (Status.confirmed, true, FailureCode.no_failure)
    else if r.executed_payout_count == r.requested_payout_count && ltb 0 r.requested_payout_count
    then (Status.accepted, true, FailureCode.no_failure)
    else if ltb 0 r.executed_payout_count && some_failed
    then (
      Status.partial,
      false,
      first_code r.failure_code (first_failure_code r.payouts) FailureCode.run_partial_failure,
    )
    else if r.executed_payout_count == 0 && some_failed
    then (
      Status.failed,
      false,
      first_code r.failure_code (first_failure_code r.payouts) FailureCode.run_failed,
    )
    else (r.status, r.succeeded, r.failure_code)

-- The requested count and total, where the response has none.
unfoldable pub with_requested : RunResponse → RunResponse
with_requested r =
    let total = format_uint (add_results 0 r.payouts) in
    let r' : RunResponse = record r {
      requested_payout_count =
          if r.requested_payout_count == 0 then length r.payouts else r.requested_payout_count;
    } in
    if is_empty r.requested_total_uwolo
    then record r' {
      requested_total_uwolo = total;
      requested_total_wolo = format_display_amount total;
    }
    else r'

unfoldable pub with_tally : Tally → RunResponse → RunResponse
with_tally t r = record r {
  executed_payout_count = t.executed_count;
  confirmed_payout_count = t.confirmed_count;
  accepted_payout_count = t.accepted_count;
  refused_payout_count = t.refused_count;
  rejected_payout_count = t.rejected_count;
  replay_payout_count = t.replay_count;
  retryable = t.again;
  executed_total_uwolo = run_amount t.executed_total;
  executed_total_wolo = run_display_amount t.executed_total;
  confirmed_total_uwolo = run_amount t.confirmed_total;
  confirmed_total_wolo = run_display_amount t.confirmed_total;
  accepted_total_uwolo = run_amount t.accepted_total;
  accepted_total_wolo = run_display_amount t.accepted_total;
  refused_total_uwolo = run_amount t.refused_total;
  refused_total_wolo = run_display_amount t.refused_total;
  rejected_total_uwolo = run_amount t.rejected_total;
  rejected_total_wolo = run_display_amount t.rejected_total;
}

unfoldable pub with_status : RunResponse → RunResponse
with_status r =
    let (status, succeeded, why) = derive_run_status r in
    if is_no_status r.status
    then record r { status = status; succeeded = succeeded; failure_code = why }
    else r

unfoldable pub finalize : RunResponse → RunResponse
finalize r =
    let r' = with_requested r in with_status (with_tally (tally r'.payouts (tally_of r')) r')

-- `settlementRunExecutionDetail`
unfoldable pub execution_detail : RunResponse → Text
execution_detail r =
    let detail = first_failure_detail r.payouts in
    if is_confirmed r.status
    then text "all "
      ++ (format_uint r.confirmed_payout_count ++ text " payouts confirmed on WoloChain")
    else if is_accepted r.status
    then text "all "
      ++ (format_uint r.executed_payout_count
          ++ text
              " payouts broadcast accepted; final confirmation is still pending for at least one payout")
    else if is_partial r.status
    then format_uint r.executed_payout_count
      ++ (text " of "
          ++ (format_uint r.requested_payout_count
              ++ text
                  " payouts executed; inspect per-recipient results for the remaining failures"))
    else if is_failed r.status
    then (if is_empty detail then text "no payouts executed successfully" else detail)
    else trim_space r.detail

unfoldable pub has_ready : RunResponse → Bool
has_ready r = any (λ p. is_ready p.outcome) r.payouts

unfoldable pub has_retryable : RunResponse → Bool
has_retryable r = any (λ p. p.retryable) r.payouts

unfoldable pub run_is_final : RunResponse → Bool
run_is_final r =
    not (has_retryable r) && (r.succeeded || (is_failed r.status || is_partial r.status))

unfoldable pub mark_ready_refused :
    FailureCode → Text → Bool → List PayoutResult → List PayoutResult
mark_ready_refused why message again [] = []
mark_ready_refused why message again (p ∷ ps) =
    (if is_ready p.outcome
      then record p {
        succeeded = false;
        status = Status.failed;
        outcome = Outcome.refused;
        failure_code = why;
        retryable = again;
        detail = message;
      }
      else p)
    ∷ mark_ready_refused why message again ps

unfoldable pub mark_ready_signer : Text → Text → List PayoutResult → List PayoutResult
mark_ready_signer signer_role address [] = []
mark_ready_signer signer_role address (p ∷ ps) =
    (if is_ready p.outcome
      then record p { signer_role = signer_role; signer_address = address }
      else p)
    ∷ mark_ready_signer signer_role address ps
