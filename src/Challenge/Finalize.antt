-- ===== src/Challenge/Finalize.antt =====
-- What a challenge adds up to: `finalizeSettlementChallengeResponse`,
-- `deriveSettlementChallengeStatus` and the functions beside them in
-- cmd/wolochaind/cmd/settlement_challenge.go.
pub mod Complete
use wolochain.Prelude.{
  ℕ, ◌+◌, Bool, true, false, not, ◌&&◌, ◌||◌, List, [], ◌∷◌, ◌++◌, Option, none, some, ltb, ◌==◌,
  if◌then◌else◌, is_empty, length, map,
}
use wolochain.Text.{Text, text, text_eq, trim_space}
use wolochain.Decimal.{format_uint, format_display_amount, parse_optional_uwolo}
use wolochain.Codes.{
  Status, Outcome, FailureCode, is_failed, is_confirmed, is_accepted, is_partial, is_no_status,
  is_ready, is_refusal, is_rejected, is_no_failure, is_invalid_challenge,
}
use wolochain.Run.{PayoutResult, RunResponse}
use wolochain.Run.Blank.{blank_result}
use wolochain.Run.Tally.{Tally, tally, add_results, add_u64}
use wolochain.Run.Finalize.{run_amount, run_display_amount, first_code}
use wolochain.Challenge.{
  NormalizedTransfer, TransferResult, BucketTotals, ChallengeResponse, wager_bucket,
  guarantee_bucket,
}

-- The payout of that id; of several, the last.
abbrev pub find_payout : Text → Option PayoutResult → List PayoutResult → Option PayoutResult
find_payout id found [] = found
find_payout id found (p ∷ ps) =
    find_payout id (if text_eq p.request_id id then some p else found) ps

-- A transfer that the run has no payout of.
abbrev unmatched : NormalizedTransfer → TransferResult
unmatched t = record {
  index = t.index;
  request_id = t.request_id;
  participant_side = t.participant_side;
  participant_id = t.participant_id;
  bucket = t.bucket;
  reason = t.reason;
  attempted = false;
  succeeded = false;
  status = Status.failed;
  outcome = Outcome.invalid;
  failure_code = FailureCode.no_failure;
  retryable = false;
  idempotent_replay = false;
  signer_role = [];
  signer_address = [];
  to_address = t.to_address;
  amount_uwolo = t.amount_uwolo;
  amount_wolo = format_display_amount t.amount_uwolo;
  memo = t.memo;
  tx_hash = [];
  detail = [];
  canonical_tx_lookup = [];
  canonical_tx_lookup_preferred = [];
  canonical_tx_lookup_internal = [];
  canonical_tx_lookup_public = [];
  warnings = [];
}

abbrev pub merge_transfer : NormalizedTransfer → Option PayoutResult → TransferResult
merge_transfer t none = unmatched t
merge_transfer t (some p) = record (unmatched t) {
  attempted = p.attempted;
  succeeded = p.succeeded;
  status = p.status;
  outcome = p.outcome;
  failure_code = p.failure_code;
  retryable = p.retryable;
  idempotent_replay = p.idempotent_replay;
  signer_role = p.signer_role;
  signer_address = p.signer_address;
  tx_hash = p.tx_hash;
  detail = p.detail;
  canonical_tx_lookup = p.canonical_tx_lookup;
  canonical_tx_lookup_preferred = p.canonical_tx_lookup_preferred;
  canonical_tx_lookup_internal = p.canonical_tx_lookup_internal;
  canonical_tx_lookup_public = p.canonical_tx_lookup_public;
  warnings = p.warnings;
}

unfoldable pub merge_run_results : List NormalizedTransfer → RunResponse → List TransferResult
merge_run_results [] run = []
merge_run_results (t ∷ ts) run =
    merge_transfer t (find_payout t.request_id none run.payouts) ∷ merge_run_results ts run

-- What the loop over the transfers reads of each: it counts them as that over a run's payouts does.
abbrev pub counted : TransferResult → PayoutResult
counted t = record blank_result {
  status = t.status;
  outcome = t.outcome;
  retryable = t.retryable;
  idempotent_replay = t.idempotent_replay;
  amount_uwolo = t.amount_uwolo;
}

abbrev pub challenge_tally_of : ChallengeResponse → Tally
challenge_tally_of r = record {
  executed_count = r.executed_transfer_count;
  confirmed_count = r.confirmed_transfer_count;
  accepted_count = r.accepted_transfer_count;
  refused_count = r.refused_transfer_count;
  rejected_count = r.rejected_transfer_count;
  replay_count = r.replay_transfer_count;
  again = r.retryable;
  executed_total = 0;
  confirmed_total = 0;
  accepted_total = 0;
  refused_total = 0;
  rejected_total = 0;
}

-- A total that is written as text, with an amount more; a total that cannot be read is 0.
abbrev add_to : Text → ℕ → Text
add_to total amount =
    format_uint (add_u64 (elim (parse_optional_uwolo total) [ none ↦ 0 | some n ↦ n ]) amount)

abbrev blank_bucket : Text → BucketTotals
blank_bucket bucket = record {
  bucket = bucket;
  requested_uwolo = [];
  requested_wolo = [];
  executed_uwolo = [];
  executed_wolo = [];
  confirmed_uwolo = [];
  confirmed_wolo = [];
  accepted_uwolo = [];
  accepted_wolo = [];
  refused_uwolo = [];
  refused_wolo = [];
  rejected_uwolo = [];
  rejected_wolo = [];
}

abbrev bucket_requested : ℕ → BucketTotals → BucketTotals
bucket_requested amount b =
    let total = add_to b.requested_uwolo amount in
    record b { requested_uwolo = total; requested_wolo = format_display_amount total }

abbrev bucket_executed : ℕ → BucketTotals → BucketTotals
bucket_executed amount b =
    let total = add_to b.executed_uwolo amount in
    record b { executed_uwolo = total; executed_wolo = format_display_amount total }

abbrev bucket_status : TransferResult → ℕ → BucketTotals → BucketTotals
bucket_status t amount b =
    let b' = bucket_executed amount b in
    let confirmed = add_to b.confirmed_uwolo amount in
    let accepted = add_to b.accepted_uwolo amount in
    if is_confirmed t.status
    then record b' { confirmed_uwolo = confirmed; confirmed_wolo = format_display_amount confirmed }
    else if is_accepted t.status
    then record b' { accepted_uwolo = accepted; accepted_wolo = format_display_amount accepted }
    else b

abbrev bucket_outcome : TransferResult → ℕ → BucketTotals → BucketTotals
bucket_outcome t amount b =
    let refused = add_to b.refused_uwolo amount in
    let rejected = add_to b.rejected_uwolo amount in
    if is_refusal t.outcome
    then record b { refused_uwolo = refused; refused_wolo = format_display_amount refused }
    else if is_rejected t.outcome
    then record b { rejected_uwolo = rejected; rejected_wolo = format_display_amount rejected }
    else b

-- The totals of one bucket, where a transfer of it was seen.
unfoldable pub add_to_bucket : TransferResult → BucketTotals → BucketTotals
add_to_bucket t b = elim (parse_optional_uwolo t.amount_uwolo) [
  | none ↦ b
  | some amount ↦ bucket_outcome t amount (bucket_status t amount (bucket_requested amount b))
]

abbrev is_readable : Text → Bool
is_readable amount = elim (parse_optional_uwolo amount) [ none ↦ false | some _ ↦ true ]

abbrev bucket_or : Text → Option BucketTotals → BucketTotals
bucket_or bucket none = blank_bucket bucket
bucket_or bucket (some b) = b

unfoldable pub total_bucket : Text → Option BucketTotals → List TransferResult → Option BucketTotals
total_bucket bucket b [] = b
total_bucket bucket b (t ∷ ts) =
    total_bucket bucket
      (if text_eq t.bucket bucket && is_readable t.amount_uwolo
        then some (add_to_bucket t (bucket_or bucket b))
        else b)
      ts

abbrev option_list : Option BucketTotals → List BucketTotals
option_list none = []
option_list (some b) = b ∷ []

abbrev pub bucket_totals_of : List TransferResult → List BucketTotals
bucket_totals_of ts =
    option_list (total_bucket wager_bucket none ts)
    ++ option_list (total_bucket guarantee_bucket none ts)

unfoldable pub first_transfer_failure_code : List TransferResult → FailureCode
first_transfer_failure_code [] = FailureCode.no_failure
first_transfer_failure_code (t ∷ ts) =
    let rest = first_transfer_failure_code ts in
    if is_no_failure t.failure_code then rest else t.failure_code

unfoldable pub first_transfer_failure_detail : List TransferResult → Text
first_transfer_failure_detail [] = []
first_transfer_failure_detail (t ∷ ts) =
    let rest = first_transfer_failure_detail ts in
    if not (is_empty (trim_space t.detail)) && not (is_no_failure t.failure_code)
    then t.detail
    else rest

unfoldable pub derive_challenge_status : ChallengeResponse → Status × Bool × FailureCode
derive_challenge_status r =
    let some_failed = ltb 0 r.refused_transfer_count || ltb 0 r.rejected_transfer_count in
    let asked = r.requested_transfer_count in
    let failure = first_transfer_failure_code r.transfers in
    if is_invalid_challenge r.failure_code
    then (Status.failed, false, r.failure_code)
    else if r.confirmed_transfer_count == asked && ltb 0 asked
    then (Status.confirmed, true, FailureCode.no_failure)
    else if r.executed_transfer_count == asked && ltb 0 asked
    then (Status.accepted, true, FailureCode.no_failure)
    else if ltb 0 r.executed_transfer_count && some_failed
    then (
      Status.partial,
      false,
      first_code r.failure_code failure FailureCode.challenge_partial_failure,
    )
    else if r.executed_transfer_count == 0 && some_failed
    then (Status.failed, false, first_code r.failure_code failure FailureCode.challenge_failed)
    else (r.status, r.succeeded, r.failure_code)

-- The requested count and total, where the response has none.
unfoldable pub challenge_requested : ChallengeResponse → ChallengeResponse
challenge_requested r =
    let total = add_results 0 (map counted r.transfers) in
    let uwolo = trim_space r.requested_total_uwolo in
    let wolo = trim_space r.requested_total_wolo in
    record r {
      requested_transfer_count =
          if r.requested_transfer_count == 0
          then length r.transfers
          else r.requested_transfer_count;
      requested_total_uwolo = if is_empty uwolo then run_amount total else uwolo;
      requested_total_wolo = if is_empty wolo then run_display_amount total else wolo;
    }

unfoldable pub challenge_tallied : Tally → ChallengeResponse → ChallengeResponse
challenge_tallied t r = record r {
  executed_transfer_count = t.executed_count;
  confirmed_transfer_count = t.confirmed_count;
  accepted_transfer_count = t.accepted_count;
  refused_transfer_count = t.refused_count;
  rejected_transfer_count = t.rejected_count;
  replay_transfer_count = t.replay_count;
  retryable = t.again;
  executed_total_uwolo = run_amount t.executed_total;
  executed_total_wolo = run_display_amount t.executed_total;
  confirmed_total_uwolo = run_amount t.confirmed_total;
  confirmed_total_wolo = run_display_amount t.confirmed_total;
  accepted_total_uwolo = run_amount t.accepted_total;
  accepted_total_wolo = run_display_amount t.accepted_total;
  refused_total_uwolo = run_amount t.refused_total;
  refused_total_wolo = run_display_amount t.refused_total;
  rejected_total_uwolo = run_amount t.rejected_total;
  rejected_total_wolo = run_display_amount t.rejected_total;
  bucket_totals = bucket_totals_of r.transfers;
}

abbrev run_retryable : Option RunResponse → Bool
run_retryable none = false
run_retryable (some run) = run.retryable

-- The status, where the response has none, and the run's word on another attempt.
unfoldable pub challenge_judged : ChallengeResponse → ChallengeResponse
challenge_judged r =
    let (status, succeeded, why) = derive_challenge_status r in
    let blank = is_no_status r.status in
    record r {
      status = if blank then status else r.status;
      succeeded = if blank then succeeded else r.succeeded;
      failure_code = if blank then why else r.failure_code;
      retryable = r.retryable || run_retryable r.run;
    }

unfoldable pub finalize_challenge : ChallengeResponse → ChallengeResponse
finalize_challenge r = challenge_judged (
    challenge_tallied (tally (map counted r.transfers) (challenge_tally_of r))
      (challenge_requested r))

-- `settlementChallengeExecutionDetail`
unfoldable pub challenge_execution_detail : ChallengeResponse → Text
challenge_execution_detail r =
    let detail = first_transfer_failure_detail r.transfers in
    if is_confirmed r.status
    then text "all "
      ++ (format_uint r.confirmed_transfer_count
          ++ text " challenge transfers confirmed on WoloChain")
    else if is_accepted r.status
    then text "all "
      ++ (format_uint r.executed_transfer_count
          ++ text
              " challenge transfers were broadcast accepted; final confirmation is still pending for at least one transfer")
    else if is_partial r.status
    then format_uint r.executed_transfer_count
      ++ (text " of "
          ++ (format_uint r.requested_transfer_count
              ++ text
                  " challenge transfers executed; inspect per-bucket results for the remaining failures"))
    else if is_failed r.status && not (is_empty detail)
    then detail
    else trim_space r.detail

unfoldable pub mark_transfers_failed :
    FailureCode → Text → Bool → List TransferResult → List TransferResult
mark_transfers_failed why message again [] = []
mark_transfers_failed why message again (t ∷ ts) =
    (if is_ready t.outcome
      then record t {
        succeeded = false;
        status = Status.failed;
        outcome = Outcome.refused;
        failure_code = why;
        retryable = again;
        detail = message;
      }
      else t)
    ∷ mark_transfers_failed why message again ts

unfoldable pub challenge_is_final : ChallengeResponse → Bool
challenge_is_final r =
    not r.retryable && (r.succeeded || (is_failed r.status || is_partial r.status))
