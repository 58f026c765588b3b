-- ===== src/Probe.antt =====
-- The questions that the settlement code of cmd/wolochaind/cmd/settlement.go (and
-- `resolveEscrowAddress` of settlement_challenge.go) puts to the chain and to the key ring.
use wolochain.Prelude.{
  ℕ, Bool, false, not, ◌&&◌, ◌||◌, List, [], ◌∷◌, ◌++◌, none, some, if◌then◌else◌, is_empty,
}
use wolochain.Text.{Text, text, text_eq, trim_space, trim_slashes, equal_fold, path_escape}
use wolochain.Decimal.{parse_uint}
use wolochain.Fallible.{Fallible, ok, fail}
use wolochain.Config.{Config}
use wolochain.Request.{is_wolo_address}
use wolochain.Node.{Node, Coin, DenomMetadata, CommandResult}

-- A question to the outside that may fail.
abbrev pub Probe : Type 0 → Type 0 → Type 0
Probe C A = C → Fallible A × C

module _ {C A B : Type 0} where
  infixl 5 ◌>>=◌
  abbrev pub ◌>>=◌ : Probe C A → (A → Probe C B) → Probe C B
  ◌>>=◌ m f c = let (r, c') = m c in elim r [ ok a ↦ f a c' | fail e ↦ (fail e, c') ]

abbrev pub pure : {C A : Type 0} → A → Probe C A
pure a c = (ok a, c)

abbrev pub raise : {C A : Type 0} → Text → Probe C A
raise e c = (fail e, c)

-- `fmt.Errorf("...: %w", err)`
abbrev pub explain : {C A : Type 0} → Text → Probe C A → Probe C A
explain what m c =
    let (r, c') = m c in elim r [ ok a ↦ (ok a, c') | fail e ↦ (fail (what ++ e), c') ]

-- `%q` of a text without quotes, backslashes and control characters
abbrev pub quoted : Text → Text
quoted s = b'"' ∷ s ++ b'"' ∷ []

module _ {C : Type 0} (node : Node C) (cfg : Config) where
  unfoldable pub fetch_runtime_chain_id : Probe C Text
  fetch_runtime_chain_id =
      node.get_status (trim_slashes cfg.rpc_http ++ text "/status") >>= λ network.
      if is_empty (trim_space network)
      then raise (text "rpc status returned no chain id")
      else pure (trim_space network)

  abbrev rest_target : Text → Text
  rest_target path = trim_slashes cfg.rest_url ++ path

  abbrev check_mint_denom : Text → Probe C (Unit {0})
  check_mint_denom mint =
      if not (text_eq mint cfg.base_denom)
      then raise (text "mint denom drift: " ++ mint)
      else pure tt

  abbrev check_bond_denom : Text → Probe C (Unit {0})
  check_bond_denom bond =
      if not (text_eq bond cfg.base_denom)
      then raise (text "staking bond denom drift: " ++ bond)
      else (explain (text "rest mint params failed: ")
            (node.get_mint_denom (rest_target (text "/cosmos/mint/v1beta1/params")))
          >>= check_mint_denom)

  abbrev check_denom_metadata : DenomMetadata → Probe C (Unit {0})
  check_denom_metadata denom =
      if not (text_eq denom.base cfg.base_denom) || not (text_eq denom.display cfg.display_denom)
      then raise (
          text "rest denom metadata drift: base="
          ++ (denom.base ++ (text " display=" ++ denom.display)))
      else (explain (text "rest staking params failed: ")
            (node.get_staking_bond_denom (rest_target (text "/cosmos/staking/v1beta1/params")))
          >>= check_bond_denom)

  abbrev check_network : Text → Probe C (Unit {0})
  check_network network =
      if not (text_eq (trim_space network) cfg.chain_id)
      then raise
          (text "rest node_info reported " ++ (network ++ (text ", expected " ++ cfg.chain_id)))
      else (explain (text "rest denom metadata failed: ") (
            node.get_denom_metadata
              (rest_target (text "/cosmos/bank/v1beta1/denoms_metadata/" ++ cfg.base_denom)))
          >>= check_denom_metadata)

  unfoldable pub validate_rest_invariants : Probe C (Unit {0})
  validate_rest_invariants =
      explain (text "rest node_info failed: ")
        (node.get_node_info (rest_target (text "/cosmos/base/tendermint/v1beta1/node_info")))
      >>= check_network

  -- The first balance in the base denom; none is a balance of 0.
  unfoldable pub first_balance : List Coin → Fallible ℕ
  first_balance [] = ok 0
  first_balance (coin ∷ coins) =
      if not (text_eq coin.denom cfg.base_denom)
      then first_balance coins
      else elim (parse_uint (trim_space coin.amount)) [
        | none ↦ fail (
            text "rest balance lookup returned invalid "
            ++ (cfg.base_denom ++ (text " amount " ++ quoted coin.amount)))
        | some amount ↦ ok amount
      ]

  unfoldable pub fetch_account_balance_uwolo : Text → Probe C ℕ
  fetch_account_balance_uwolo address =
      explain (text "rest balance lookup failed for " ++ (address ++ text ": ")) (
        node.get_balances
          (rest_target (text "/cosmos/bank/v1beta1/balances/" ++ path_escape address)))
      >>= λ balances c. (first_balance balances, c)

  abbrev show_key_args : Text → List Text
  show_key_args key =
      (text "keys"
        ∷ text "show"
        ∷ key
        ∷ text "--address"
        ∷ text "--home"
        ∷ cfg.home_dir
        ∷ text "--keyring-backend"
        ∷ cfg.keyring_backend
        ∷ [])
      ++ (if is_empty cfg.keyring_dir then [] else text "--keyring-dir" ∷ cfg.keyring_dir ∷ [])

  -- What `resolvePayoutAddress` and `resolveEscrowAddress` do with the output of the command; they
  -- differ in `role` alone.
  abbrev resolved : Text → Text → Text → CommandResult → Fallible Text
  resolved role key expected result =
      let address = trim_space result.stdout in
      let detail = trim_space result.stderr in
      elim result.error [
        | some _ ↦ fail (
            text "could not resolve "
            ++ (role
                ++ (text " signer "
                    ++ (quoted key
                        ++ (text ": "
                            ++ (if is_empty detail then trim_space result.stdout else detail))))))
        | none ↦
            if not (is_wolo_address address cfg.address_prefix)
            then fail (
                text "resolved "
                ++ (role
                    ++ (text " signer "
                        ++ (quoted key ++ (text " to non-wolo address " ++ quoted address)))))
            else if not (is_empty expected) && not (equal_fold address expected)
            then fail (
                role
                ++ (text " signer resolved to " ++ (address ++ (text ", expected " ++ expected))))
            else ok address
      ]

  unfoldable pub resolve_payout_address : Probe C Text
  resolve_payout_address c =
      if is_empty cfg.payout_key_name
      then (ok [], c)
      else (let (result, c') = node.show_key (show_key_args cfg.payout_key_name) c in
          (resolved (text "payout") cfg.payout_key_name cfg.payout_address result, c'))

  unfoldable pub resolve_escrow_address : Probe C Text
  resolve_escrow_address c =
      if is_empty cfg.escrow_key_name
      then (fail (text "WOLO_SETTLEMENT_ESCROW_KEY_NAME is not set"), c)
      else (let (result, c') = node.show_key (show_key_args cfg.escrow_key_name) c in
          (resolved (text "escrow") cfg.escrow_key_name cfg.escrow_address result, c'))

  unfoldable pub listen_addr_is_loopback : Bool
  listen_addr_is_loopback = elim (node.split_host cfg.listen_addr) [
    | none ↦ false
    | some host ↦ text_eq host (text "localhost") || node.is_loopback_ip host
  ]
