-- ===== src/Broadcast.antt =====
-- Sending a transfer: `broadcastPayout` of cmd/wolochaind/cmd/settlement.go and
-- `broadcastEscrowTransfer` of settlement_challenge.go, which differ in the key, the role and two
-- words of the detail.
pub mod Outcome
pub mod Unanswered
use wolochain.Prelude.{
  ℕ, String, Bool, true, false, not, ◌&&◌, ◌||◌, List, [], ◌∷◌, ◌++◌, Option, none, some, ◌==◌,
  if◌then◌else◌, is_empty,
}
use wolochain.Text.{Text, text, trim_space, to_lower, contains}
use wolochain.Decimal.{format_uint, format_display_amount}
use wolochain.Fallible.{Fallible, ok, fail}
use wolochain.Codes.{Status, FailureCode}
use wolochain.Config.{Config, payout_role, escrow_role}
use wolochain.Request.{NormalizedRequest}
use wolochain.Responses.{ExecuteResponse, LookupResponse, blank_response}
use wolochain.Node.{Node, Broadcast}
use wolochain.Urls.{tx_lookup_url, preferred_tx_lookup_url, public_tx_lookup_url}
use wolochain.Lookup.{wait_for_tx_confirmation}
use wolochain.World.{World}

-- The two keys that sign.
pub data Signer : Type 0 where
  payout escrow : Signer

abbrev pub role : Signer → Text
role payout = payout_role
role escrow = escrow_role

abbrev pub key_name : Config → Signer → Text
key_name cfg payout = cfg.payout_key_name
key_name cfg escrow = cfg.escrow_key_name

-- How the details of a signer begin.
abbrev what : Signer → Text
what payout = text "payout"
what escrow = text "escrow transfer"

abbrev flag : String → Text → List Text
flag name value = if is_empty value then [] else text name ∷ value ∷ []

-- The arguments of the command.
unfoldable pub send_args : Config → Signer → NormalizedRequest → List Text
send_args cfg signer request =
    (text "tx"
      ∷ text "bank"
      ∷ text "send"
      ∷ key_name cfg signer
      ∷ request.to_address
      ∷ (request.amount_uwolo ++ cfg.base_denom)
      ∷ text "--yes"
      ∷ text "--output"
      ∷ text "json"
      ∷ text "--broadcast-mode"
      ∷ cfg.broadcast_mode
      ∷ text "--chain-id"
      ∷ cfg.chain_id
      ∷ text "--home"
      ∷ cfg.home_dir
      ∷ text "--keyring-backend"
      ∷ cfg.keyring_backend
      ∷ text "--node"
      ∷ cfg.node_addr
      ∷ text "--gas"
      ∷ cfg.gas
      ∷ [])
    ++ (flag "--keyring-dir" cfg.keyring_dir
        ++ (flag "--gas-adjustment" cfg.gas_adjustment
            ++ ((if is_empty cfg.fees
                  then flag "--gas-prices" cfg.gas_prices
                  else text "--fees" ∷ cfg.fees ∷ [])
                ++ flag "--note" request.memo)))

abbrev pub from_brace : Text → Text
from_brace [] = []
from_brace (c ∷ s) = if c == b'{' then c ∷ s else from_brace s

abbrev pub through_last_brace : Text → Text
through_last_brace [] = []
through_last_brace (c ∷ s) =
    let rest = through_last_brace s in
    if not (is_empty rest) then c ∷ rest else if c == b'}' then c ∷ [] else []

-- `extractJSONPayload`: from the first `{` through the last `}`.
unfoldable pub extract_json_payload : Text → Text
extract_json_payload output = trim_space (through_last_brace (from_brace output))

unfoldable pub classify_exec_error : Text → FailureCode × Bool
classify_exec_error raw =
    let s = to_lower (trim_space raw) in
    if contains s (text "insufficient funds")
    then (FailureCode.insufficient_funds, false)
    else if contains s (text "account sequence mismatch")
        || contains s (text "incorrect account sequence")
    then (FailureCode.sequence_mismatch, true)
    else if contains s (text "connection refused")
        || (contains s (text "no such host")
            || (contains s (text "deadline exceeded")
                || (contains s (text "timed out") || contains s (text "rpc error"))))
    then (FailureCode.rpc_unreachable, true)
    else (FailureCode.broadcast_failed, true)

unfoldable pub classify_rejected_tx : Text → FailureCode
classify_rejected_tx raw_log =
    let s = to_lower raw_log in
    if contains s (text "out of gas")
    then FailureCode.out_of_gas
    else if contains s (text "insufficient funds")
    then FailureCode.insufficient_funds
    else FailureCode.tx_rejected

module _ {C : Type 0} (node : Node C) (cfg : Config) (signer : Signer) where
  abbrev with_urls : Text → ExecuteResponse → ExecuteResponse
  with_urls hash response = record response {
    canonical_tx_lookup = tx_lookup_url cfg hash;
    canonical_tx_lookup_preferred = preferred_tx_lookup_url cfg hash;
    canonical_tx_lookup_internal = tx_lookup_url cfg hash;
    canonical_tx_lookup_public = public_tx_lookup_url cfg hash;
  }

  -- The response before the output is read.
  unfoldable pub sent_response : NormalizedRequest → Text → ExecuteResponse
  sent_response request signer_address = with_urls [] (record blank_response {
    status = Status.failed;
    request_id = request.request_id;
    chain_id = cfg.chain_id;
    signer_role = role signer;
    signer_address = signer_address;
    to_address = request.to_address;
    amount_uwolo = request.amount_uwolo;
    amount_wolo = format_display_amount request.amount_uwolo;
    broadcast_mode = cfg.broadcast_mode;
  })

  -- With the transaction that the command reports.
  unfoldable pub with_broadcast : ExecuteResponse → Broadcast → ExecuteResponse
  with_broadcast response b = with_urls b.tx_hash (record response {
    tx_hash = b.tx_hash;
    code = b.code;
    codespace = b.codespace;
    raw_log = b.raw_log;
  })

  abbrev accepted : ExecuteResponse → Text → ExecuteResponse
  accepted response message = record response {
    succeeded = true;
    status = Status.accepted;
    detail = message;
  }

  -- What the polling says of a transaction that was taken.
  unfoldable pub confirm : ExecuteResponse → Fallible (Option LookupResponse) → ExecuteResponse
  confirm response (fail _) =
      accepted response (what signer ++ text " broadcast accepted; final confirmation check failed")
  confirm response (ok none) =
      accepted response (what signer ++ text " broadcast accepted; final confirmation pending")
  confirm response (ok (some confirmed)) =
      let seen = record response {
        code = confirmed.code;
        codespace = confirmed.codespace;
        raw_log = confirmed.raw_log;
      } in
      if confirmed.tx_success
      then record seen {
        succeeded = true;
        status = Status.confirmed;
        detail = what signer ++ text " confirmed on WoloChain";
      }
      else record seen {
        failure_code = classify_rejected_tx confirmed.raw_log;
        detail = text "tx failed with code " ++ format_uint confirmed.code;
        retryable = false;
      }

  -- A transaction was reported; one that was refused at once is not polled for.
  unfoldable pub after_broadcast : ExecuteResponse → Broadcast → C → ExecuteResponse × C
  after_broadcast response b c =
      let taken = with_broadcast response b in
      let (answer, c') = wait_for_tx_confirmation node cfg b.tx_hash c in
      if b.code == 0 then (confirm taken answer, c') else (
        record taken {
          failure_code = classify_rejected_tx b.raw_log;
          detail = text "tx rejected with code " ++ format_uint b.code;
          retryable = false;
        },
        c,
      )

  -- No transaction was reported.
  unfoldable pub exec_failed : ExecuteResponse → Text → Option Text → ExecuteResponse
  exec_failed response output error =
      let (failure, again) = classify_exec_error output in
      let said = trim_space output in
      record response {
        failure_code = failure;
        retryable = again;
        detail = if is_empty said then elim error [ none ↦ [] | some e ↦ e ] else said;
      }

  -- The transaction in the output of the command, if it holds one with a hash.
  unfoldable pub reported : Text → Option Broadcast
  reported output =
      let payload = extract_json_payload output in
      if is_empty payload then none else elim (node.decode_broadcast payload) [
        | none ↦ none
        | some b ↦ if is_empty b.tx_hash then none else some b
      ]

  -- The command is noted in `sent`.
  unfoldable pub broadcast : NormalizedRequest → Text → World C → ExecuteResponse × World C
  broadcast request signer_address w =
      let args = send_args cfg signer request in
      let (printed, c) = node.send args w.env in
      let response = sent_response request signer_address in
      elim (reported printed.0) [
        | none ↦
            (exec_failed response printed.0 printed.1, record w { env = c; sent = args ∷ w.sent })
        | some b ↦
            (let (answer, c') = after_broadcast response b c in
              (answer, record w { env = c'; sent = args ∷ w.sent }))
      ]

module _ {C : Type 0} (node : Node C) (cfg : Config) where
  abbrev pub broadcast_payout : NormalizedRequest → Text → World C → ExecuteResponse × World C
  broadcast_payout = broadcast node cfg payout

  abbrev pub broadcast_escrow_transfer :
      NormalizedRequest → Text → World C → ExecuteResponse × World C
  broadcast_escrow_transfer = broadcast node cfg escrow
