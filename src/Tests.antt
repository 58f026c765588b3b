-- ===== src/Tests.antt =====
-- A concrete outside, with its configuration and requests, on which the statements are tried: a
-- chain that answers as it should, a clock that advances at each reading and in each sleep, and a
-- disk that takes every file.
mod Amounts
mod Challenges
mod Audits
mod Requests
mod Routes
mod Runs
mod Waiting
use wolochain.Prelude.{ℕ, ◌+◌, true, false, [], ◌∷◌, none, some, List}
use wolochain.Text
use wolochain.Text.{Text, text, text_runs}
use wolochain.Decimal
use wolochain.Decimal.{ℤ, decimal_runs}
use wolochain.Fallible.{Fallible, ok, fail}
use wolochain.Config.{Config, canonical_prefix, payout_role, escrow_role}
use wolochain.Request.{
  ExecuteRequest, NormalizedRequest, matches_request_id, matches_source_event, is_wolo_address,
  wrap_i64, scale, normalize_amount_uwolo, normalize_request,
}
use wolochain.Capacity.{
  show_amount, check_reserve_health, check_payout_capacity, check_escrow_reserve_health,
  check_escrow_capacity, escrow_failure_has_balance,
}
use wolochain.Codes.{FailureCode}
use wolochain.Responses.{ExecuteResponse, StoredResult, blank_response}
use wolochain.Table.{key_eq, find, remove, put}
use wolochain.Node.{Node}
use wolochain.Urls.{tx_lookup_url, public_tx_lookup_url, preferred_tx_lookup_url}
use wolochain.Probe.{
  fetch_runtime_chain_id, validate_rest_invariants, first_balance, fetch_account_balance_uwolo,
  resolve_payout_address, resolve_escrow_address, listen_addr_is_loopback,
}
use wolochain.Health.{
  config_warnings, health_base, health_on_escrow_balance, health_on_escrow_signer, health_on_escrow,
  health_on_balance, health_on_payout, health_on_rest, health_on_chain, build_health_report,
}
use wolochain.Transfers.{
  split_commas, span_digits, split_coin, split_coin_amounts, read_attributes, event_transfers,
  extract_transfers, match_transfer, classify_transfer_kind, parse_base_denom_fee,
}
use wolochain.Lookup.{
  normalize_tx_hash, is_hex_hash, derived_kind, found_lookup, lookup_on_payload, lookup_on_chain,
  lookup_tx, poll_round, poll, wait_for_tx_confirmation,
}
use wolochain.World.{
  World, request_record_path, request_lock_path, run_record_path, run_lock_path,
  write_stored_result, write_run_stored_result, write_settlement_record, challenge_record_path,
  challenge_lock_path, write_challenge_stored_result,
}
use wolochain.Lock.{holding, with_new_lock, with_free_lock, with_lock}
use wolochain.Broadcast.{
  send_args, extract_json_payload, classify_exec_error, classify_rejected_tx, sent_response,
  with_broadcast, confirm, after_broadcast, exec_failed, reported, broadcast,
}
use wolochain.Execute.{
  stored_signer_role, same_request, preflight_on_report, preflight_execution, escrow_on_balance,
  escrow_on_signer, escrow_on_rest, escrow_on_chain, preflight_escrow_signer,
  preflight_escrow_transfer, record_response, attempt, execute_stored, execute_locked,
  request_in_progress, execute_normalized, execute_as, execute_settlement, execute_escrow_transfer,
}
use wolochain.Http.{
  check_auth, payout_answer, run_answer, invalid_run_body, validate_serve_safety, guarded,
  serve_health, serve_payout, serve_validate_run, serve_run,
}
use wolochain.Run.{RunRequest, RunPayoutInput}
use wolochain.Run.Prepare.{
  derive_run_request_id, checked_line, prepare_line, scan_lines, planned_run, lines_response,
  run_context, prepare_run,
}
use wolochain.Run.Finalize.{
  derive_outcome, payout_result, first_failure_code, first_failure_detail, derive_run_status,
  with_requested, with_tally, with_status, finalize, execution_detail, has_ready, has_retryable,
  run_is_final, mark_ready_refused, mark_ready_signer,
}
use wolochain.Run.Plan.{
  requires_escrow_signer, estimate_fee, with_fee_estimate, payout_on_remaining, payout_on_balance,
  payout_on_report, escrow_on_verdict, payout_plan, escrow_plan, plan_total, plan_run, build_plan,
  validate_run,
}
use wolochain.Run.TopUp.{
  top_up_request_id, should_attempt_top_up, top_up_refused, already_funded, required_balance,
  top_up_shortfall, top_up_amount, top_up_on_report, top_up,
}
use wolochain.Run.Execute.{
  with_items, finished_run, run_in_progress, top_up_failed_run, execute_items, record_run,
  execute_planned, execute_topped_up, execute_run_stored, execute_run_planned, execute_run,
}
use wolochain.Run.Duplicates.{warn_duplicates}
use wolochain.Run.Head.{
  head_response, normalize_metadata_id, normalize_signer_role, read_head, validate_run_id,
}
use wolochain.Run.Tally.{tally, tally_flags, tally_outcome, tally_payout, tally_status}
use wolochain.Challenge.{memo_prefix, wager_bucket, guarantee_bucket}
use wolochain.Query.{
  query_unescape, cut, split_query, parse_pair, parse_pairs, parse_query, get_value,
}
use wolochain.Challenge.Memo.{
  matches_side, matches_reason, trim_prefix, first_value, parse_memo_amount, check_memo_ids,
  read_memo_ids, split_funding, parse_memo, parse_funding,
}
use wolochain.Challenge.Deposit.{
  validate_expectation, compare_funding, deposit_on_memo, deposit_on_transfer, deposit_on_lookup,
  verify_deposit,
}
use wolochain.Challenge.Transfers.{
  identity_key, funding_label, derive_transfer_request_id, check_participants, resolve_participant,
  raw_transfer, transfer_errors, transfer_result, normalize_transfer,
}
use wolochain.Challenge.Lines.{
  allocate_line, plan_line, plan_lines, add_planned, allocated, check_allocation,
}
use wolochain.Challenge.Finalize.{
  merge_run_results, add_to_bucket, total_bucket, first_transfer_failure_code,
  first_transfer_failure_detail, derive_challenge_status, challenge_requested, challenge_tallied,
  challenge_judged, finalize_challenge, challenge_execution_detail, mark_transfers_failed,
  challenge_is_final,
}
use wolochain.Challenge.TopUp.{
  derive_top_up_request_id, required_payout_balance, raw_top_up, top_up_on_balance,
  top_up_on_escrow, plan_shortfall, plan_top_up, build_top_up_plan, answered_top_up, pending_top_up,
  settle_top_up, after_top_up, execute_challenge_top_up,
}
use wolochain.Challenge.Head.{read_challenge_head, challenge_base, normalized_base}
use wolochain.Challenge.Plan.{
  normalize_funding, funding_expectation, deposit_of, judge_run, judge_plan, challenge_run_request,
  with_deposits, with_lines, transfer_context, scan_funding, plan_challenge_run, plan_on_lines,
  plan_on_deposits, build_challenge_plan, validate_challenge,
}
use wolochain.Challenge.Execute.{
  challenge_in_progress, challenge_failed, top_up_failed_challenge, with_run, finished_challenge,
  record_challenge, execute_challenge_run, execute_after_top_up, execute_topped_up_challenge,
  execute_planned_challenge, execute_challenge_stored, execute_challenge_planned, execute_challenge,
}
use wolochain.Challenge.Audit.{
  audit_check, equal_check, checks_pass, first_audit_code, first_audit_detail,
}
use wolochain.Challenge.Audit.Deposits.{
  compare_stored_funding, audit_expectation, proven_deposit, judge_deposit, deposit_total,
  audit_deposit, audit_deposits,
}
use wolochain.Challenge.Audit.Allocation.{
  audit_line, audit_lines, audit_total, allocation_check, audit_allocation, audited_bucket,
}
use wolochain.Challenge.Audit.RunState.{
  payout_checks, run_transfer_checks, stored_run_checks, audit_run_state,
}
use wolochain.Challenge.Audit.Mismatch.{audit_lookup_mismatch}
use wolochain.Challenge.Audit.Payments.{
  should_have_request_state, stateless_transfer, hashless_transfer, looked_up_transfer,
  stored_transfer, audit_on_state, audit_transfer, audit_transfers,
}
use wolochain.Challenge.Audit.TopUp.{
  audit_top_up_memo, looked_up_top_up, stored_top_up, top_up_on_state, top_up_on_response,
  audit_planned_top_up, audit_top_up,
}
use wolochain.Challenge.Audit.Report.{
  record_checks, audit_checks, audit_report, audit_on_top_up, audit_on_run, audit_stored,
  audit_challenge,
}
use wolochain.Json.{rune_tail, json_bytes}

abbrev pub payout_address : Text
payout_address = b'w' ∷ b'o' ∷ b'l' ∷ b'o' ∷ b'1' ∷ b'p' ∷ []

abbrev pub escrow_address : Text
escrow_address = b'w' ∷ b'o' ∷ b'l' ∷ b'o' ∷ b'1' ∷ b'e' ∷ []

abbrev pub player : Text
player = b'w' ∷ b'o' ∷ b'l' ∷ b'o' ∷ b'1' ∷ b'x' ∷ []

abbrev pub other_player : Text
other_player = b'w' ∷ b'o' ∷ b'l' ∷ b'o' ∷ b'1' ∷ b'y' ∷ []

abbrev uwolo : Text
uwolo = b'u' ∷ b'w' ∷ []

abbrev pub hash : Text
hash = b'A' ∷ b'B' ∷ []

abbrev pub chain : Node ℕ
chain = record {
  get_status = λ url c. (ok (b'w' ∷ []), c);
  get_node_info = λ url c. (ok (b'w' ∷ []), c);
  get_denom_metadata = λ url c. (ok (record { base = uwolo; display = b'w' ∷ [] }), c);
  get_staking_bond_denom = λ url c. (ok uwolo, c);
  get_mint_denom = λ url c. (ok uwolo, c);
  get_balances = λ url c. (ok (record { denom = uwolo; amount = b'9' ∷ b'0' ∷ [] } ∷ []), c);
  get_tx = λ url c. (
    ok (
      200,
      record {
        memo = [];
        height = b'7' ∷ [];
        tx_hash = hash;
        code = 0;
        codespace = [];
        raw_log = [];
        timestamp = [];
        logs = [];
        events = [];
      },
    ),
    c,
  );
  show_key = λ args c. (record { stdout = payout_address; stderr = []; error = none }, c);
  send = λ args c. ((b'{' ∷ b'}' ∷ [], none), c);
  decode_broadcast = λ payload.
      some (record { height = []; tx_hash = hash; code = 0; codespace = []; raw_log = [] });
  make_dir = λ path c. (none, c);
  write_file = λ path c. (none, c);
  create_file = λ path c. (none, c);
  now = λ c. (c, c + 1);
  sleep = λ time c. (none, c + 1);
  split_host = λ addr. none;
  is_loopback_ip = λ host. false;
  fingerprint = λ request address. [];
  run_fingerprint = λ run. [];
  challenge_fingerprint = λ challenge. [];
}

-- A chain that does not answer.
abbrev pub silent_chain : Node ℕ
silent_chain = record chain { get_status = λ url c. (fail [], c) }

-- A headroom of 3 uwolo and a floor of 5, for both signers.
abbrev pub config : Config
config = record {
  executable_path = [];
  home_dir = [];
  keyring_backend = [];
  keyring_dir = [];
  node_addr = [];
  rpc_http = [];
  rest_url = [];
  public_rest_url = [];
  chain_id = b'w' ∷ [];
  base_denom = uwolo;
  display_denom = b'w' ∷ [];
  address_prefix = b'w' ∷ b'o' ∷ b'l' ∷ b'o' ∷ [];
  payout_key_name = b'p' ∷ [];
  payout_address = payout_address;
  escrow_key_name = b'e' ∷ [];
  escrow_address = payout_address;
  treasury_address = [];
  escrow_auto_top_up = true;
  broadcast_mode = [];
  gas = [];
  gas_adjustment = [];
  gas_prices = [];
  fees = [];
  min_payout_balance_uwolo = 5;
  fee_headroom_uwolo = 3;
  min_escrow_balance_uwolo = 5;
  escrow_fee_headroom_uwolo = 3;
  state_dir = [];
  listen_addr = [];
  auth_token = [];
  request_lock_ttl = 100;
  request_timeout = 100;
  lookup_timeout = 100;
  health_timeout = 100;
  confirm_timeout = 4;
  confirm_interval = 1;
}

abbrev pub request : ExecuteRequest
request = record {
  request_id = b'r' ∷ b'e' ∷ b'q' ∷ [];
  to_address = player;
  amount_uwolo = b'4' ∷ b'0' ∷ [];
  amount_wolo = ℤ.pos 0;
  memo = [];
}

-- The request as it is executed by the payout signer.
abbrev pub accepted_request : NormalizedRequest
accepted_request = record {
  request_id = b'r' ∷ b'e' ∷ b'q' ∷ [];
  to_address = player;
  amount_uwolo = b'4' ∷ b'0' ∷ [];
  memo = [];
  signer_role = b'p' ∷ b'a' ∷ b'y' ∷ b'o' ∷ b'u' ∷ b't' ∷ [];
}

abbrev pub empty_world : World ℕ
empty_world = record { env = 0; requests = []; runs = []; challenges = []; locks = []; sent = [] }

abbrev pub line : Text → RunPayoutInput
line address = record {
  request_id = [];
  to_address = address;
  amount_uwolo = b'2' ∷ b'0' ∷ [];
  amount_wolo = ℤ.pos 0;
  memo = [];
}

abbrev pub run_request : RunRequest
run_request = record {
  settlement_run_id = b'r' ∷ b'u' ∷ b'n' ∷ [];
  source_app = [];
  source_event_id = [];
  note = [];
  memo = [];
  signer_role = [];
  payouts = line player ∷ line other_player ∷ [];
}

-- What a run of the whole program unfolds.
unfoldable pub program_runs : Unit {0}
unfolding decimal_runs text_runs canonical_prefix payout_role escrow_role key_eq find remove put
    matches_request_id matches_source_event is_wolo_address wrap_i64 scale normalize_amount_uwolo
    normalize_request show_amount check_reserve_health check_payout_capacity
    check_escrow_reserve_health check_escrow_capacity escrow_failure_has_balance tx_lookup_url
    public_tx_lookup_url preferred_tx_lookup_url fetch_runtime_chain_id validate_rest_invariants
    first_balance fetch_account_balance_uwolo resolve_payout_address resolve_escrow_address
    listen_addr_is_loopback config_warnings health_base health_on_escrow_balance
    health_on_escrow_signer health_on_escrow health_on_balance health_on_payout health_on_rest
    health_on_chain build_health_report split_commas span_digits split_coin split_coin_amounts
    read_attributes event_transfers extract_transfers match_transfer classify_transfer_kind
    parse_base_denom_fee normalize_tx_hash is_hex_hash derived_kind found_lookup lookup_on_payload
    lookup_on_chain lookup_tx poll_round poll wait_for_tx_confirmation request_record_path
    request_lock_path run_record_path run_lock_path write_stored_result write_run_stored_result
    write_settlement_record holding with_new_lock with_free_lock with_lock send_args
    extract_json_payload classify_exec_error classify_rejected_tx sent_response with_broadcast
    confirm after_broadcast exec_failed reported broadcast stored_signer_role same_request
    preflight_on_report preflight_execution escrow_on_balance escrow_on_signer escrow_on_rest
    escrow_on_chain preflight_escrow_signer preflight_escrow_transfer record_response attempt
    execute_stored execute_locked request_in_progress execute_normalized execute_as
    execute_settlement execute_escrow_transfer normalize_signer_role validate_run_id
    normalize_metadata_id derive_run_request_id checked_line prepare_line scan_lines warn_duplicates
    read_head head_response planned_run lines_response run_context prepare_run derive_outcome
    payout_result tally_status tally_outcome tally_flags tally_payout tally first_failure_code
    first_failure_detail derive_run_status with_requested with_tally with_status finalize
    execution_detail has_ready has_retryable run_is_final mark_ready_refused mark_ready_signer
    requires_escrow_signer estimate_fee with_fee_estimate payout_on_remaining payout_on_balance
    payout_on_report escrow_on_verdict payout_plan escrow_plan plan_total plan_run build_plan
    validate_run top_up_request_id should_attempt_top_up top_up_refused already_funded
    required_balance top_up_shortfall top_up_amount top_up_on_report top_up with_items finished_run
    run_in_progress top_up_failed_run execute_items record_run execute_planned execute_topped_up
    execute_run_stored execute_run_planned execute_run check_auth payout_answer run_answer
    invalid_run_body validate_serve_safety guarded serve_health serve_payout serve_validate_run
    serve_run memo_prefix wager_bucket guarantee_bucket query_unescape cut split_query parse_pair
    parse_pairs parse_query get_value matches_side matches_reason trim_prefix first_value
    parse_memo_amount check_memo_ids read_memo_ids split_funding parse_memo parse_funding
    validate_expectation compare_funding deposit_on_memo deposit_on_transfer deposit_on_lookup
    verify_deposit identity_key funding_label derive_transfer_request_id check_participants
    resolve_participant raw_transfer transfer_errors transfer_result normalize_transfer
    allocate_line plan_line plan_lines add_planned allocated check_allocation merge_run_results
    add_to_bucket total_bucket first_transfer_failure_code first_transfer_failure_detail
    derive_challenge_status challenge_requested challenge_tallied challenge_judged
    finalize_challenge challenge_execution_detail mark_transfers_failed challenge_is_final
    derive_top_up_request_id required_payout_balance raw_top_up top_up_on_balance top_up_on_escrow
    plan_shortfall plan_top_up build_top_up_plan answered_top_up pending_top_up settle_top_up
    after_top_up execute_challenge_top_up read_challenge_head challenge_base normalized_base
    normalize_funding funding_expectation deposit_of judge_run judge_plan challenge_run_request
    with_deposits with_lines transfer_context scan_funding plan_challenge_run plan_on_lines
    plan_on_deposits build_challenge_plan validate_challenge challenge_in_progress challenge_failed
    top_up_failed_challenge with_run finished_challenge record_challenge execute_challenge_run
    execute_after_top_up execute_topped_up_challenge execute_planned_challenge
    execute_challenge_stored execute_challenge_planned execute_challenge challenge_record_path
    challenge_lock_path write_challenge_stored_result rune_tail json_bytes audit_check equal_check
    checks_pass first_audit_code first_audit_detail compare_stored_funding audit_expectation
    proven_deposit judge_deposit deposit_total audit_deposit audit_deposits audit_line audit_lines
    audit_total allocation_check audit_allocation audited_bucket payout_checks run_transfer_checks
    stored_run_checks audit_run_state audit_lookup_mismatch should_have_request_state
    stateless_transfer hashless_transfer looked_up_transfer stored_transfer audit_on_state
    audit_transfer audit_transfers audit_top_up_memo looked_up_top_up stored_top_up top_up_on_state
    top_up_on_response audit_planned_top_up audit_top_up record_checks audit_checks audit_report
    audit_on_top_up audit_on_run audit_stored audit_challenge
program_runs = tt
