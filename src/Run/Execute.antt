-- ===== src/Run/Execute.antt =====
-- `executeSettlementRun` of cmd/wolochaind/cmd/settlement.go: the plan of a run, then, under the
-- run's lock, its payouts one after the other. It stops at the first error of the disk.
pub mod Complete
pub mod Refused
pub mod Replay
pub mod Sends
use wolochain.Prelude.{
  ℕ, Bool, true, false, not, ◌&&◌, List, [], ◌∷◌, ◌++◌, Option, none, some, if◌then◌else◌, is_empty,
}
use wolochain.Text.{Text, text, text_eq, trim_space}
use wolochain.Decimal
use wolochain.Decimal.{ℤ}
use wolochain.Fallible.{Fallible, ok, fail}
use wolochain.Codes.{Status, FailureCode}
use wolochain.Config.{Config, payout_role, escrow_role}
use wolochain.Request.{ExecuteRequest}
use wolochain.Responses.{ExecuteResponse}
use wolochain.Table.{run_key, find}
use wolochain.Node.{Node}
use wolochain.World.{
  File, unreadable, content, World, Action, set_env, run_lock_path, write_run_stored_result,
}
use wolochain.Lock.{with_lock}
use wolochain.Broadcast.{Signer, payout, escrow}
use wolochain.Execute.{execute_as}
use wolochain.Run.{
  RunRequest, NormalizedRun, NormalizedPayout, PayoutResult, RunResponse, RunStoredResult,
}
use wolochain.Run.Finalize.{
  payout_result, finalize, execution_detail, run_is_final, mark_ready_refused,
}
use wolochain.Run.Plan.{build_plan}
use wolochain.Run.TopUp.{should_attempt_top_up, top_up}
use wolochain.Run.Blank.{blank_run}
use wolochain.Run.Head.{normalize_signer_role}

abbrev pub run_signer : NormalizedRun → Signer
run_signer run = if text_eq run.signer_role escrow_role then escrow else payout

abbrev pub item_request : NormalizedPayout → ExecuteRequest
item_request p = record {
  request_id = p.request_id;
  to_address = p.to_address;
  amount_uwolo = p.amount_uwolo;
  amount_wolo = ℤ.pos 0;
  memo = p.memo;
}

-- The response with the results of its payouts, and nothing counted.
unfoldable pub with_items : RunResponse → List PayoutResult → RunResponse
with_items r items = record r {
  payouts = items;
  succeeded = false;
  status = Status.no_status;
  failure_code = FailureCode.no_failure;
  retryable = false;
  idempotent_replay = false;
  executed_payout_count = 0;
  confirmed_payout_count = 0;
  accepted_payout_count = 0;
  refused_payout_count = 0;
  rejected_payout_count = 0;
  replay_payout_count = 0;
  executed_total_uwolo = [];
  executed_total_wolo = [];
  confirmed_total_uwolo = [];
  confirmed_total_wolo = [];
  accepted_total_uwolo = [];
  accepted_total_wolo = [];
  refused_total_uwolo = [];
  refused_total_wolo = [];
  rejected_total_uwolo = [];
  rejected_total_wolo = [];
  detail = [];
}

unfoldable pub finished_run : RunResponse → List PayoutResult → RunResponse
finished_run r items =
    let done = finalize (with_items r items) in record done { detail = execution_detail done }

-- The answer of a run that cannot be executed under its id.
abbrev run_refused : Text → RunResponse → FailureCode → Text → RunResponse
run_refused run_id validation why message = record blank_run {
  status = Status.failed;
  failure_code = why;
  settlement_run_id = run_id;
  source_app = validation.source_app;
  source_event_id = validation.source_event_id;
  note = validation.note;
  memo = validation.memo;
  signer_role = validation.signer_role;
  signer_address = validation.signer_address;
  detail = message;
}

-- The answer of `withRunLock` where the lock is held.
unfoldable pub run_in_progress : Text → Text → RunResponse
run_in_progress run_id signer_role = record blank_run {
  status = Status.failed;
  failure_code = FailureCode.run_in_progress;
  retryable = true;
  settlement_run_id = run_id;
  signer_role = (normalize_signer_role signer_role).0;
  detail = text "another settlement run attempt with this settlement_run_id is already running";
}

-- The run after a top-up that failed.
unfoldable pub top_up_failed_run : ExecuteResponse → RunResponse → RunResponse
top_up_failed_run answer r =
    let message = text "escrow auto-top-up failed: " ++ trim_space answer.detail in
    finalize (record r {
      succeeded = false;
      status = Status.failed;
      failure_code = answer.failure_code;
      retryable = answer.retryable;
      detail = message;
      warnings =
          r.warnings ++ text "escrow auto-top-up attempted before grouped payout execution" ∷ [];
      payouts = mark_ready_refused answer.failure_code message answer.retryable r.payouts;
    })

-- With the middle dot in UTF-8.
abbrev top_up_warning : ExecuteResponse → Text
top_up_warning answer =
    let warning =
      text "escrow auto-top-up confirmed "
      ++ (answer.amount_uwolo
          ++ (text " uwolo (" ++ (answer.amount_wolo ++ text " wolo) into payout signer"))) in
    if is_empty answer.tx_hash
    then warning
    else warning ++ (32 ∷ 194 ∷ 183 ∷ text " tx " ++ answer.tx_hash)

module _ {C : Type 0} (node : Node C) (cfg : Config) where
  -- The payouts in their order; an error ends the loop.
  unfoldable pub execute_items : Signer → List NormalizedPayout → Action C (List PayoutResult)
  execute_items signer [] w = (ok [], w)
  execute_items signer (p ∷ ps) w =
      let (answer, w') = execute_as node cfg signer (item_request p) w in
      elim answer [
        | fail e ↦ (fail e, w')
        | ok r ↦
            (let (rest, w'') = execute_items signer ps w' in
              elim rest [
                | fail e ↦ (fail e, w'')
                | ok items ↦ (ok (payout_result p r ∷ items), w'')
              ])
      ]

  -- A record is written before its response is returned; where it cannot be, the error is.
  unfoldable pub record_run : Text → NormalizedRun → Text → RunResponse → Action C RunResponse
  record_run run_id run fingerprint r w =
      let (written, w') =
        write_run_stored_result node cfg run_id
          (record { request = run; fingerprint = fingerprint; response = r }) w in
      elim written [ fail e ↦ (fail e, w') | ok _ ↦ (ok r, w') ]

  -- The run as it is planned: refused as it stands, or its payouts.
  unfoldable pub execute_planned : Text → Text → NormalizedRun → RunResponse → Action C RunResponse
  execute_planned run_id fingerprint run r w =
      let (items, w') = execute_items (run_signer run) run.payouts w in
      if not r.succeeded then record_run run_id run fingerprint r w else elim items [
        | fail e ↦ (fail e, w')
        | ok results ↦ record_run run_id run fingerprint (finished_run r results) w'
      ]

  -- The run behind the top-up that it may want.
  unfoldable pub execute_topped_up :
      RunRequest → Text → Text → NormalizedRun → RunResponse → Action C RunResponse
  execute_topped_up request run_id fingerprint run r w =
      let (answer, w') = top_up node cfg run_id r w in
      if (text_eq run.signer_role payout_role && not r.succeeded)
        && (should_attempt_top_up r.failure_code && cfg.escrow_auto_top_up)
      then elim answer [
        | fail e ↦ (fail e, w')
        | ok a ↦
            (let ((run', planned), c) = build_plan node cfg request w'.env in
              if not a.succeeded
              then record_run run_id run fingerprint (top_up_failed_run a r) w'
              else execute_planned run_id fingerprint run'
                  (record planned {
                    dry_run = false;
                    warnings = planned.warnings ++ top_up_warning a ∷ [];
                  })
                  (set_env w' c))
      ]
      else execute_planned run_id fingerprint run r w

  -- Under the run's lock, with what the state directory holds under the run's id.
  unfoldable pub execute_run_stored :
      RunRequest
      → Text
      → NormalizedRun
      → RunResponse
      → Option (File RunStoredResult)
      → Action C RunResponse
  execute_run_stored request run_id run validation none w =
      execute_topped_up request run_id (node.run_fingerprint run) run validation w
  execute_run_stored request run_id run validation (some (unreadable e)) w = (
    ok (
        run_refused run_id validation FailureCode.state_file_invalid
          (text "could not read settlement run state file: " ++ e)),
    w,
  )
  execute_run_stored request run_id run validation (some (content stored)) w =
      let fingerprint = node.run_fingerprint run in
      let again = execute_topped_up request run_id fingerprint run validation w in
      if not (text_eq stored.fingerprint fingerprint)
      then (
        ok (
            run_refused run_id validation FailureCode.idempotency_conflict
              (text "settlement_run_id already exists with different settlement payload")),
        w,
      )
      else if run_is_final stored.response
      then (ok (record stored.response { dry_run = false; idempotent_replay = true }), w)
      else again

  abbrev with_run_lock : Text → Text → Action C RunResponse → Action C RunResponse
  with_run_lock run_id signer_role =
      with_lock node cfg (run_key run_id) (run_lock_path node cfg run_id)
        (run_in_progress run_id signer_role)

  -- The planned run behind its lock.
  unfoldable pub execute_run_planned :
      RunRequest → NormalizedRun → RunResponse → Action C RunResponse
  execute_run_planned request run planned w =
      let validation = record planned { dry_run = false } in
      let run_id = trim_space validation.settlement_run_id in
      if is_empty run_id
      then (ok validation, w)
      else with_run_lock run_id validation.signer_role
          (λ v. execute_run_stored request run_id run validation (find (run_key run_id) v.runs) v) w

  unfoldable pub execute_run : RunRequest → Action C RunResponse
  execute_run request w =
      let ((run, planned), c) = build_plan node cfg request w.env in
      execute_run_planned request run planned (set_env w c)
