-- ===== src/Health.antt =====
-- `buildHealthReport` of cmd/wolochaind/cmd/settlement.go: the checks before a payout is signed.
-- Each function below is the code from one question to the outside to the next.
use wolochain.Prelude.{
  ℕ, Bool, true, false, not, ◌&&◌, [], ◌∷◌, ◌++◌, none, some, ◌==◌, if◌then◌else◌, is_empty,
}
use wolochain.Text.{Text, text, text_eq, equal_fold, contains}
use wolochain.Decimal.{
  format_uint, format_display_amount, format_optional_uwolo, format_optional_display_amount,
}
use wolochain.Fallible.{Fallible, ok, fail}
use wolochain.Codes.{FailureCode}
use wolochain.Config.{Config}
use wolochain.Request.{is_wolo_address}
use wolochain.Capacity.{check_reserve_health, check_escrow_reserve_health}
use wolochain.Responses.{HealthResponse}
use wolochain.Node.{Node}
use wolochain.Probe.{
  fetch_runtime_chain_id, validate_rest_invariants, fetch_account_balance_uwolo,
  resolve_payout_address, resolve_escrow_address, listen_addr_is_loopback,
}

abbrev pub refuse : HealthResponse → FailureCode → Text → HealthResponse
refuse report failure message = record report {
  healthy = false;
  failure_code = failure;
  detail = message;
}

abbrev pub warn : HealthResponse → Text → HealthResponse
warn report warning = record report { warnings = report.warnings ++ warning ∷ [] }

abbrev warn_if : Bool → HealthResponse → Text → HealthResponse
warn_if test report warning = if test then warn report warning else report

-- The warnings about the configuration, in the order of the code.
unfoldable pub config_warnings : Config → HealthResponse → HealthResponse
config_warnings cfg report =
    let r =
      warn_if (is_empty cfg.payout_key_name) report
        (text "WOLO_SETTLEMENT_PAYOUT_KEY_NAME is not set; payout execution is disabled") in
    let r = warn_if (equal_fold cfg.payout_key_name (text "faucetgrowth")) r (
      text
        "WOLO_SETTLEMENT_PAYOUT_KEY_NAME still points at temporary faucetgrowth; move settlement to a dedicated payout signer") in
    let r =
      warn_if (text_eq cfg.keyring_backend (text "test")) r (
        text
          "test keyring backend is enabled; use only for local/dev or explicitly accepted ops") in
    let r = warn_if (is_empty cfg.auth_token) r (
      text
        "WOLO_SETTLEMENT_AUTH_TOKEN is empty; payout POST access relies on loopback-only binding") in
    let r = warn_if (is_empty cfg.public_rest_url) r (
      text
        "WOLO_SETTLEMENT_PUBLIC_REST_URL is empty; preferred proof links will stay internal-only") in
    let r = warn_if (cfg.min_payout_balance_uwolo == 0) r (
      text "WOLO_SETTLEMENT_MIN_PAYOUT_BALANCE_UWOLO is zero; reserve-floor refusal is disabled") in
    let r =
      warn_if (cfg.fee_headroom_uwolo == 0) r
        (text "WOLO_SETTLEMENT_FEE_HEADROOM_UWOLO is zero; fee-headroom refusal is disabled") in
    let r = warn_if (is_empty cfg.escrow_address) r (
      text
        "WOLO_SETTLEMENT_ESCROW_ADDRESS is empty; escrow proof/discovery helpers are disabled") in
    let r =
      warn_if (is_empty cfg.escrow_key_name) r (
        text "WOLO_SETTLEMENT_ESCROW_KEY_NAME is empty; escrow-signed grouped runs are disabled") in
    let r = warn_if (cfg.min_escrow_balance_uwolo == 0) r (
      text
        "WOLO_SETTLEMENT_MIN_ESCROW_BALANCE_UWOLO is zero; escrow reserve-floor refusal is disabled") in
    let r = warn_if (cfg.escrow_fee_headroom_uwolo == 0) r (
      text
        "WOLO_SETTLEMENT_ESCROW_FEE_HEADROOM_UWOLO is zero; escrow fee-headroom refusal is disabled") in
    let r = warn_if (cfg.escrow_auto_top_up && is_empty cfg.escrow_key_name) r (
      text
        "WOLO_SETTLEMENT_ESCROW_AUTO_TOP_UP_ENABLED is on but WOLO_SETTLEMENT_ESCROW_KEY_NAME is empty") in
    let r = warn_if (cfg.escrow_auto_top_up && is_empty cfg.escrow_address) r (
      text
        "WOLO_SETTLEMENT_ESCROW_AUTO_TOP_UP_ENABLED is on but WOLO_SETTLEMENT_ESCROW_ADDRESS is empty") in
    warn_if
      (not (is_empty cfg.treasury_address)
        && not (is_wolo_address cfg.treasury_address cfg.address_prefix))
      r (text "WOLO_SETTLEMENT_TREASURY_ADDRESS does not match the wolo prefix")

module _ {C : Type 0} (node : Node C) (cfg : Config) where
  -- The report before any question.
  unfoldable pub health_base : HealthResponse
  health_base = record {
    healthy = true;
    failure_code = FailureCode.no_failure;
    detail = [];
    chain_id = cfg.chain_id;
    runtime_chain_id = [];
    rpc_url = cfg.rpc_http;
    rest_url = cfg.rest_url;
    public_rest_url = cfg.public_rest_url;
    home_dir = cfg.home_dir;
    keyring_backend = cfg.keyring_backend;
    payout_key_name = cfg.payout_key_name;
    payout_address = [];
    escrow_key_name = cfg.escrow_key_name;
    escrow_address = cfg.escrow_address;
    escrow_signer_address = [];
    payout_balance_uwolo = [];
    payout_balance_wolo = [];
    escrow_balance_uwolo = [];
    escrow_balance_wolo = [];
    min_payout_balance_uwolo = format_optional_uwolo cfg.min_payout_balance_uwolo;
    min_payout_balance_wolo = format_optional_display_amount cfg.min_payout_balance_uwolo;
    fee_headroom_uwolo = format_optional_uwolo cfg.fee_headroom_uwolo;
    fee_headroom_wolo = format_optional_display_amount cfg.fee_headroom_uwolo;
    min_escrow_balance_uwolo = format_optional_uwolo cfg.min_escrow_balance_uwolo;
    min_escrow_balance_wolo = format_optional_display_amount cfg.min_escrow_balance_uwolo;
    escrow_fee_headroom_uwolo = format_optional_uwolo cfg.escrow_fee_headroom_uwolo;
    escrow_fee_headroom_wolo = format_optional_display_amount cfg.escrow_fee_headroom_uwolo;
    warnings = [];
    loopback_only = listen_addr_is_loopback node cfg;
    auth_token_set = not (is_empty cfg.auth_token);
  }

  -- With the escrow signer's balance: what goes wrong is a warning.
  unfoldable pub health_on_escrow_balance : HealthResponse → Fallible ℕ → HealthResponse
  health_on_escrow_balance report (fail e) = warn report e
  health_on_escrow_balance report (ok balance) =
      let shown = record report {
        escrow_balance_uwolo = format_uint balance;
        escrow_balance_wolo = format_display_amount (format_uint balance);
      } in
      elim (check_escrow_reserve_health cfg balance) [
        | none ↦ shown
        | some (_, message) ↦ warn shown message
      ]

  unfoldable pub health_on_escrow_signer : HealthResponse → Fallible Text → C → HealthResponse × C
  health_on_escrow_signer report (fail e) c = (warn report e, c)
  health_on_escrow_signer report (ok address) c =
      let (balance, c') = fetch_account_balance_uwolo node cfg address c in
      if is_empty address then (report, c) else (
        health_on_escrow_balance (record report { escrow_signer_address = address }) balance,
        c',
      )

  -- The checks of the escrow address and signer, behind those of the payout signer. An escrow
  -- address of another prefix makes the report unhealthy and the checks go on.
  unfoldable pub health_on_escrow : HealthResponse → Text → C → HealthResponse × C
  health_on_escrow report payout_address c =
      let r =
        warn_if
          (not (is_empty payout_address)
            && (not (is_empty cfg.escrow_address) && equal_fold payout_address cfg.escrow_address))
          report
          (text
            "payout and escrow currently point at the same address; split roles before mainnet") in
      let r =
        if not (is_empty cfg.escrow_address)
          && not (is_wolo_address cfg.escrow_address cfg.address_prefix)
        then refuse r FailureCode.invalid_escrow_address
            (text "WOLO_SETTLEMENT_ESCROW_ADDRESS does not match the wolo prefix")
        else r in
      let (signer, c') = resolve_escrow_address node cfg c in
      if is_empty cfg.escrow_key_name then (r, c) else health_on_escrow_signer r signer c'

  unfoldable pub health_on_balance : HealthResponse → Text → Fallible ℕ → C → HealthResponse × C
  health_on_balance report address (fail e) c =
      (refuse report FailureCode.payout_balance_lookup_failed e, c)
  health_on_balance report address (ok balance) c =
      let shown = record report {
        payout_balance_uwolo = format_uint balance;
        payout_balance_wolo = format_display_amount (format_uint balance);
      } in
      elim (check_reserve_health cfg balance) [
        | none ↦ health_on_escrow shown address c
        | some (failure, message) ↦ (refuse shown failure message, c)
      ]

  unfoldable pub health_on_payout : HealthResponse → Fallible Text → C → HealthResponse × C
  health_on_payout report (fail e) c =
      if is_empty cfg.payout_key_name
      then health_on_escrow report [] c
      else if contains e (text "payout signer resolved to")
      then (refuse report FailureCode.payout_address_mismatch e, c)
      else health_on_escrow (warn report e) [] c
  health_on_payout report (ok address) c =
      let (balance, c') = fetch_account_balance_uwolo node cfg address c in
      if is_empty address
      then health_on_escrow report [] c
      else health_on_balance (record report { payout_address = address }) address balance c'

  unfoldable pub health_on_rest : HealthResponse → Fallible (Unit {0}) → C → HealthResponse × C
  health_on_rest report (fail e) c = (refuse report FailureCode.rest_drift e, c)
  health_on_rest report (ok _) c =
      let (address, c') = resolve_payout_address node cfg c in
      health_on_payout (config_warnings cfg report) address c'

  unfoldable pub health_on_chain : Fallible Text → C → HealthResponse × C
  health_on_chain (fail e) c = (refuse health_base FailureCode.rpc_unreachable e, c)
  health_on_chain (ok id) c =
      let report = record health_base { runtime_chain_id = id } in
      let (drift, c') = validate_rest_invariants node cfg c in
      if not (text_eq id cfg.chain_id)
      then (
        refuse report FailureCode.chain_id_mismatch
            (text "rpc reported " ++ (id ++ (text ", expected " ++ cfg.chain_id))),
        c,
      )
      else health_on_rest report drift c'

  unfoldable pub build_health_report : C → HealthResponse × C
  build_health_report c = let (id, c') = fetch_runtime_chain_id node cfg c in health_on_chain id c'
