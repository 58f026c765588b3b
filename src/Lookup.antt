-- ===== src/Lookup.antt =====
-- `lookupSettlementTx` and `waitForTxConfirmation` of cmd/wolochaind/cmd/settlement.go.
pub mod Wait
pub mod Matched
use wolochain.Prelude.{
  ℕ, zero, suc, ◌+◌, ◌%◌, Bool, true, false, not, ◌&&◌, ◌||◌, List, [], ◌∷◌, ◌++◌, Option, none,
  some, ltb, ◌==◌, if◌then◌else◌, is_empty, length, all,
}
use wolochain.Text.{Text, text, text_eq, trim_space, to_upper, is_digit}
use wolochain.Prelude.{leb}
use wolochain.Fallible.{Fallible, ok, fail}
use wolochain.Codes.{FailureCode, is_tx_not_found}
use wolochain.Config.{Config}
use wolochain.Responses.{Transfer, Kind, LookupResponse, blank_lookup}
use wolochain.Node.{Node, TxPayload}
use wolochain.Urls.{tx_lookup_url, preferred_tx_lookup_url, public_tx_lookup_url}
use wolochain.Probe.{fetch_runtime_chain_id, resolve_payout_address}
use wolochain.Transfers.{Expectations, extract_transfers, match_transfer, classify_transfer_kind}

unfoldable pub normalize_tx_hash : Text → Text
normalize_tx_hash hash = to_upper (trim_space hash)

abbrev is_hex : ℕ → Bool
is_hex c = is_digit c || ((leb b'a' c && leb c b'f') || (leb b'A' c && leb c b'F'))

unfoldable pub is_hex_hash : Text → Bool
is_hex_hash hash = not (is_empty hash) && (length hash % 2 == 0 && all is_hex hash)

abbrev pub failed_lookup : FailureCode → Text → LookupResponse
failed_lookup failure message = record blank_lookup { failure_code = failure; detail = message }

abbrev is_plain_transfer : Kind → Bool
is_plain_transfer Kind.transfer = true
is_plain_transfer _ = false

abbrev pub is_some : {A : Type 0} → Option A → Bool
is_some none = false
is_some (some _) = true

module _ {C : Type 0} (node : Node C) (cfg : Config) where
  abbrev with_lookup_urls : Text → LookupResponse → LookupResponse
  with_lookup_urls hash response = record response {
    canonical_tx_lookup = tx_lookup_url cfg hash;
    canonical_tx_lookup_preferred = preferred_tx_lookup_url cfg hash;
    canonical_tx_lookup_internal = tx_lookup_url cfg hash;
    canonical_tx_lookup_public = public_tx_lookup_url cfg hash;
  }

  -- The kind, with the payout address of the key ring where none is configured.
  unfoldable pub derived_kind : List Transfer → C → Kind × C
  derived_kind transfers c =
      let kind =
        classify_transfer_kind cfg.escrow_address cfg.payout_address cfg.base_denom transfers in
      let (resolved, c') = resolve_payout_address node cfg c in
      if is_plain_transfer kind
        && (is_empty cfg.payout_address && not (is_empty cfg.payout_key_name))
      then elim resolved [
        | fail _ ↦ (kind, c')
        | ok address ↦
            if is_empty address
            then (kind, c')
            else (classify_transfer_kind cfg.escrow_address address cfg.base_denom transfers, c')
      ]
      else (kind, c)

  unfoldable pub found_lookup : Text → Expectations → TxPayload → C → LookupResponse × C
  found_lookup hash expectations payload c =
      let found_transfers = extract_transfers payload.logs payload.events in
      let matched = match_transfer found_transfers expectations in
      let (kind, c') = derived_kind found_transfers c in
      (
        with_lookup_urls hash (record blank_lookup {
          succeeded = true;
          found = true;
          chain_id = cfg.chain_id;
          tx_hash = payload.tx_hash;
          tx_success = payload.code == 0;
          kind = kind;
          height = payload.height;
          code = payload.code;
          codespace = payload.codespace;
          memo = payload.memo;
          raw_log = payload.raw_log;
          timestamp = payload.timestamp;
          transfers = found_transfers;
          matched_expected = is_some matched;
          matched_transfer = matched;
        }),
        c',
      )

  unfoldable pub lookup_on_payload :
      Text → Expectations → Fallible (ℕ × TxPayload) → C → LookupResponse × C
  lookup_on_payload hash expectations (fail e) c =
      (with_lookup_urls hash (failed_lookup FailureCode.lookup_failed e), c)
  lookup_on_payload hash expectations (ok (status, payload)) c =
      if status == 404
      then (
        with_lookup_urls hash
            (failed_lookup FailureCode.tx_not_found (text "tx hash not found on WoloChain REST")),
        c,
      )
      else found_lookup hash expectations payload c

  unfoldable pub lookup_on_chain : Text → Expectations → Fallible Text → C → LookupResponse × C
  lookup_on_chain hash expectations (fail e) c = (failed_lookup FailureCode.rpc_unreachable e, c)
  lookup_on_chain hash expectations (ok id) c =
      let (payload, c') = node.get_tx (tx_lookup_url cfg hash) c in
      if not (text_eq id cfg.chain_id)
      then (
        failed_lookup FailureCode.chain_id_mismatch
            (text "rpc reported " ++ (id ++ (text ", expected " ++ cfg.chain_id))),
        c,
      )
      else lookup_on_payload hash expectations payload c'

  -- The error of the code's result is always nil.
  unfoldable pub lookup_tx : Text → Expectations → C → LookupResponse × C
  lookup_tx tx_hash expectations c =
      let hash = normalize_tx_hash tx_hash in
      let (id, c') = fetch_runtime_chain_id node cfg c in
      if is_empty hash
      then (failed_lookup FailureCode.invalid_tx_hash (text "tx hash is required"), c)
      else if not (is_hex_hash hash)
      then (
        failed_lookup FailureCode.invalid_tx_hash (text "tx hash must be uppercase/lowercase hex"),
        c,
      )
      else lookup_on_chain hash expectations id c'

  -- The test that ends the polling: the transaction is there, or the lookup failed in another way.
  abbrev pub is_answer : LookupResponse → Bool
  is_answer result = (result.succeeded && result.found) || not (is_tx_not_found result.failure_code)

  -- The outside after one round of the polling.
  abbrev pub after_round : Text → C → C
  after_round hash c =
      let (time, c₁) = node.now c in
      let (result, c₂) =
        lookup_tx hash (record { sender = []; recipient = []; amount_uwolo = [] }) c₁ in
      (node.sleep cfg.confirm_interval c₂).1

  -- One round of the polling, with what the rounds behind it come to; `ok none` means that the
  -- deadline has passed.
  unfoldable pub poll_round :
      ℕ → Text → C → Fallible (Option LookupResponse) × C → Fallible (Option LookupResponse) × C
  poll_round deadline hash c rest =
      let (time, c₁) = node.now c in
      let (result, c₂) =
        lookup_tx hash (record { sender = []; recipient = []; amount_uwolo = [] }) c₁ in
      let (done, c₃) = node.sleep cfg.confirm_interval c₂ in
      if not (ltb time deadline)
      then (ok none, c₁)
      else if is_answer result
      then (ok (some result), c₂)
      else elim done [ some e ↦ (fail e, c₃) | none ↦ rest ]

  -- Polling until the deadline. The number of rounds is fuel.
  unfoldable pub poll : ℕ → ℕ → Text → C → Fallible (Option LookupResponse) × C
  poll zero deadline hash c = (ok none, c)
  poll (suc rounds) deadline hash c =
      poll_round deadline hash c (poll rounds deadline hash (after_round hash c))

  -- One round for each nanosecond of the timeout.
  unfoldable pub wait_for_tx_confirmation : Text → C → Fallible (Option LookupResponse) × C
  wait_for_tx_confirmation hash c =
      let (time, c') = node.now c in
      poll (cfg.confirm_timeout + 2) (time + cfg.confirm_timeout) hash c'
