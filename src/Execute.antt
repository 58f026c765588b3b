-- ===== src/Execute.antt =====
-- One transfer: `executeSettlement` and `preflightExecution` of cmd/wolochaind/cmd/settlement.go,
-- `executeEscrowTransfer` and `preflightEscrowSigner` of settlement_challenge.go. The two ways to
-- execute differ in the signer alone.
pub mod Preflight
pub mod Replay
pub mod Sends
pub mod Answered
use wolochain.Prelude.{
  ℕ, Bool, true, false, not, ◌&&◌, ◌||◌, [], ◌∷◌, ◌++◌, Option, none, some, if◌then◌else◌, is_empty,
}
use wolochain.Text.{Text, text, text_eq, trim_space, to_lower, contains}
use wolochain.Decimal.{parse_uint, format_display_amount}
use wolochain.Fallible.{Fallible, ok, fail}
use wolochain.Codes.{Status, FailureCode, is_rpc_unreachable}
use wolochain.Config.{Config, payout_role, escrow_role}
use wolochain.Request.{ExecuteRequest, NormalizedRequest, normalize_request}
use wolochain.Capacity.{check_payout_capacity, check_escrow_capacity}
use wolochain.Responses.{ExecuteResponse, StoredResult, HealthResponse, blank_response}
use wolochain.Table.{request_key, find}
use wolochain.Node.{Node}
use wolochain.Probe.{
  fetch_runtime_chain_id, validate_rest_invariants, fetch_account_balance_uwolo,
  resolve_escrow_address, quoted,
}
use wolochain.Health.{build_health_report}
use wolochain.World.{
  File, unreadable, content, World, Action, set_env, request_lock_path, write_settlement_record,
}
use wolochain.Lock.{with_lock}
use wolochain.Broadcast.{Signer, payout, escrow, role, broadcast}

-- An empty role is the payout role.
unfoldable pub stored_signer_role : Text → Text
stored_signer_role r =
    let trimmed = trim_space (to_lower r) in if is_empty trimmed then payout_role else trimmed

unfoldable pub same_request : NormalizedRequest → NormalizedRequest → Bool
same_request a b =
    text_eq a.request_id b.request_id
    && (text_eq a.to_address b.to_address
        && (text_eq a.amount_uwolo b.amount_uwolo
            && (text_eq a.memo b.memo
                && text_eq (stored_signer_role a.signer_role) (stored_signer_role b.signer_role))))

-- A stored response that is final: it is replayed.
abbrev pub is_final : ExecuteResponse → Bool
is_final r = r.succeeded || (not (is_empty r.tx_hash) || not r.retryable)

-- What `preflightEscrowSigner` finds: the address, the balance, the failure.
pub record Verdict : Type 0 where
  pub address : Text
  pub balance : ℕ
  pub failure : Option ExecuteResponse

abbrev pub replay : ExecuteResponse → ExecuteResponse
replay r = record r { idempotent_replay = true }

module _ {C : Type 0} (node : Node C) (cfg : Config) where
  -- A response that refuses before anything is sent.
  abbrev refusal : Signer → FailureCode → Bool → Text → Text → ExecuteResponse
  refusal signer failure again address message = record blank_response {
    status = Status.failed;
    failure_code = failure;
    retryable = again;
    chain_id = cfg.chain_id;
    signer_role = role signer;
    signer_address = address;
    detail = message;
  }

  -- `preflightExecution` on a health report: the signer's address and no failure, or a failure.
  unfoldable pub preflight_on_report : Text → HealthResponse → Text × Option ExecuteResponse
  preflight_on_report amount health =
      if not health.healthy
      then (
        [],
        some (
            refusal payout health.failure_code (is_rpc_unreachable health.failure_code)
              health.payout_address health.detail),
      )
      else if is_empty cfg.payout_key_name
      then (
        [],
        some (
            refusal payout FailureCode.payout_signer_unconfigured false []
              (text "WOLO_SETTLEMENT_PAYOUT_KEY_NAME is required for payout execution")),
      )
      else if is_empty health.payout_address
      then (
        [],
        some (
            refusal payout FailureCode.payout_signer_unavailable false [] (
              text "payout signer key "
              ++ (quoted cfg.payout_key_name
                  ++ text
                      " could not be resolved; check WOLO_SETTLEMENT_PAYOUT_KEY_NAME, WOLO_SETTLEMENT_HOME, and WOLO_SETTLEMENT_KEYRING_BACKEND"))),
      )
      else elim (parse_uint (trim_space amount)) [
        | none ↦ (
          [],
          some (
              refusal payout FailureCode.invalid_request false health.payout_address
                (text "amount_uwolo must be a positive integer")),
        )
        | some requested ↦ elim (parse_uint (trim_space health.payout_balance_uwolo)) [
          | none ↦ (
            [],
            some (
                refusal payout FailureCode.payout_balance_lookup_failed true health.payout_address
                  (text "payout signer balance could not be parsed")),
          )
          | some balance ↦ elim (check_payout_capacity cfg balance requested) [
            | some (failure, message) ↦
                ([], some (refusal payout failure true health.payout_address message))
            | none ↦ (health.payout_address, none)
          ]
        ]
      ]

  unfoldable pub preflight_execution : Text → C → (Text × Option ExecuteResponse) × C
  preflight_execution amount c =
      let (health, c') = build_health_report node cfg c in (preflight_on_report amount health, c')

  -- `preflightEscrowSigner` from one question to the next.
  abbrev escrow_refused : FailureCode → Bool → Text → ℕ → Text → Verdict
  escrow_refused failure again address balance message = record {
    address = address;
    balance = balance;
    failure = some (refusal escrow failure again address message);
  }

  unfoldable pub escrow_on_balance : Text → ℕ → Fallible ℕ → Verdict
  escrow_on_balance address requested (fail e) =
      escrow_refused FailureCode.escrow_balance_lookup_failed true address 0 e
  escrow_on_balance address requested (ok balance) =
      elim (check_escrow_capacity cfg balance requested) [
        | some (failure, message) ↦ escrow_refused failure true address balance message
        | none ↦ record { address = address; balance = balance; failure = none }
      ]

  unfoldable pub escrow_on_signer : Text → Fallible Text → C → Verdict × C
  escrow_on_signer amount (fail e) c = (
    escrow_refused
        (if contains (to_lower e) (text "expected")
          then FailureCode.escrow_address_mismatch
          else FailureCode.escrow_signer_unavailable)
        false [] 0 e,
    c,
  )
  escrow_on_signer amount (ok address) c = elim (parse_uint (trim_space amount)) [
    | none ↦ (
      escrow_refused FailureCode.invalid_request false address 0
          (text "amount_uwolo must be a positive integer"),
      c,
    )
    | some requested ↦
        (let (balance, c') = fetch_account_balance_uwolo node cfg address c in
          (escrow_on_balance address requested balance, c'))
  ]

  unfoldable pub escrow_on_rest : Text → Fallible (Unit {0}) → C → Verdict × C
  escrow_on_rest amount (fail e) c = (escrow_refused FailureCode.rest_drift false [] 0 e, c)
  escrow_on_rest amount (ok _) c =
      let (signer, c') = resolve_escrow_address node cfg c in
      if is_empty cfg.escrow_key_name
      then (
        escrow_refused FailureCode.escrow_signer_unconfigured false [] 0
            (text "WOLO_SETTLEMENT_ESCROW_KEY_NAME is required for escrow transfers"),
        c,
      )
      else escrow_on_signer amount signer c'

  unfoldable pub escrow_on_chain : Text → Fallible Text → C → Verdict × C
  escrow_on_chain amount (fail e) c = (escrow_refused FailureCode.rpc_unreachable true [] 0 e, c)
  escrow_on_chain amount (ok id) c =
      let (drift, c') = validate_rest_invariants node cfg c in
      if not (text_eq id cfg.chain_id)
      then (
        escrow_refused FailureCode.chain_id_mismatch false [] 0
            (text "rpc reported " ++ (id ++ (text ", expected " ++ cfg.chain_id))),
        c,
      )
      else escrow_on_rest amount drift c'

  unfoldable pub preflight_escrow_signer : Text → C → Verdict × C
  preflight_escrow_signer amount c =
      let (id, c') = fetch_runtime_chain_id node cfg c in escrow_on_chain amount id c'

  unfoldable pub preflight_escrow_transfer : Text → C → (Text × Option ExecuteResponse) × C
  preflight_escrow_transfer amount c =
      let (v, c') = preflight_escrow_signer amount c in ((v.address, v.failure), c')

  abbrev preflight : Signer → Text → C → (Text × Option ExecuteResponse) × C
  preflight payout = preflight_execution
  preflight escrow = preflight_escrow_transfer

  -- The fields that the three early answers share.
  abbrev early : Signer → NormalizedRequest → FailureCode → Text → ExecuteResponse
  early signer request failure message = record blank_response {
    status = Status.failed;
    failure_code = failure;
    request_id = request.request_id;
    chain_id = cfg.chain_id;
    signer_role = role signer;
    to_address = request.to_address;
    amount_uwolo = request.amount_uwolo;
    amount_wolo = format_display_amount request.amount_uwolo;
    detail = message;
  }

  -- A record is written before its response is returned; where it cannot be, the error is.
  unfoldable pub record_response :
      NormalizedRequest → Text → ExecuteResponse → Action C ExecuteResponse
  record_response request signer_address response w =
      let (written, w') = write_settlement_record node cfg request signer_address response w in
      elim written [ fail e ↦ (fail e, w') | ok _ ↦ (ok response, w') ]

  -- The attempt itself: preflight, then the broadcast.
  unfoldable pub attempt : Signer → NormalizedRequest → Action C ExecuteResponse
  attempt signer request w =
      let ((address, failure), c) = preflight signer request.amount_uwolo w.env in
      elim failure [
        | some refused ↦
            record_response request (if is_empty address then refused.signer_address else address)
              (record refused {
                request_id = request.request_id;
                to_address = request.to_address;
                amount_uwolo = request.amount_uwolo;
                amount_wolo = format_display_amount request.amount_uwolo;
              })
              (set_env w c)
        | none ↦
            (let (result, w') = broadcast node cfg signer request address (set_env w c) in
              record_response request address result w')
      ]

  -- Under the lock, with what the state directory holds under the request's id.
  unfoldable pub execute_stored :
      Signer → NormalizedRequest → Option (File StoredResult) → Action C ExecuteResponse
  execute_stored signer request none w = attempt signer request w
  execute_stored signer request (some (unreadable e)) w = (
    ok (
        early signer request FailureCode.state_file_invalid
          (text "could not read settlement state file: " ++ e)),
    w,
  )
  execute_stored signer request (some (content stored)) w =
      let again = attempt signer request w in
      if not (same_request stored.request request)
      then (
        ok
            (record (early signer request FailureCode.idempotency_conflict
              (text "request id already exists with different settlement payload")) {
                signer_address = stored.response.signer_address;
              }),
        w,
      )
      else if is_final stored.response
      then (ok (replay stored.response), w)
      else again

  unfoldable pub execute_locked : Signer → NormalizedRequest → Action C ExecuteResponse
  execute_locked signer request w =
      execute_stored signer request (find (request_key request.request_id) w.requests) w

  -- The answer of `withRequestLock` where the lock is held.
  unfoldable pub request_in_progress : Signer → Text → ExecuteResponse
  request_in_progress signer id = record blank_response {
    status = Status.failed;
    failure_code = FailureCode.request_in_progress;
    retryable = true;
    request_id = id;
    chain_id = cfg.chain_id;
    signer_role = role signer;
    detail = text "another settlement attempt with this request id is already running";
  }

  abbrev with_request_lock : Signer → Text → Action C ExecuteResponse → Action C ExecuteResponse
  with_request_lock signer id =
      with_lock node cfg (request_key id) (request_lock_path node cfg id)
        (request_in_progress signer id)

  unfoldable pub execute_normalized : Signer → NormalizedRequest → Action C ExecuteResponse
  execute_normalized signer request =
      with_request_lock signer request.request_id (execute_locked signer request)

  unfoldable pub execute_as : Signer → ExecuteRequest → Action C ExecuteResponse
  execute_as signer request w = elim (normalize_request request) [
    | fail e ↦ (
      ok (record blank_response {
        status = Status.failed;
        failure_code = FailureCode.invalid_request;
        detail = e;
        request_id = trim_space request.request_id;
        chain_id = cfg.chain_id;
        signer_role = role signer;
      }),
      w,
    )
    | ok normalized ↦ execute_normalized signer (record normalized { signer_role = role signer }) w
  ]

  unfoldable pub execute_settlement : ExecuteRequest → Action C ExecuteResponse
  execute_settlement = execute_as payout

  unfoldable pub execute_escrow_transfer : ExecuteRequest → Action C ExecuteResponse
  execute_escrow_transfer = execute_as escrow
