-- ===== src/Config.antt =====
-- `settlementConfig` of cmd/wolochaind/cmd/settlement.go and the constants beside it. Durations
-- are numbers of nanoseconds.
use wolochain.Prelude.{ℕ, Bool}
use wolochain.Text.{Text, text}

pub record Config : Type 0 where
  pub executable_path : Text
  pub home_dir : Text
  pub keyring_backend : Text
  pub keyring_dir : Text
  pub node_addr : Text
  pub rpc_http : Text
  pub rest_url : Text
  pub public_rest_url : Text
  pub chain_id : Text
  pub base_denom : Text
  pub display_denom : Text
  pub address_prefix : Text
  pub payout_key_name : Text
  pub payout_address : Text
  pub escrow_key_name : Text
  pub escrow_address : Text
  pub treasury_address : Text
  pub escrow_auto_top_up : Bool
  pub broadcast_mode : Text
  pub gas : Text
  pub gas_adjustment : Text
  pub gas_prices : Text
  pub fees : Text
  pub min_payout_balance_uwolo : ℕ
  pub fee_headroom_uwolo : ℕ
  pub min_escrow_balance_uwolo : ℕ
  pub escrow_fee_headroom_uwolo : ℕ
  pub state_dir : Text
  pub listen_addr : Text
  pub auth_token : Text
  pub request_lock_ttl : ℕ
  pub request_timeout : ℕ
  pub lookup_timeout : ℕ
  pub health_timeout : ℕ
  pub confirm_timeout : ℕ
  pub confirm_interval : ℕ

unfoldable pub canonical_prefix : Text
canonical_prefix = text "wolo"

unfoldable pub payout_role : Text
payout_role = text "payout"

unfoldable pub escrow_role : Text
escrow_role = text "escrow"

abbrev pub max_run_payouts : ℕ
max_run_payouts = 250
