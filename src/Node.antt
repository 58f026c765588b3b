-- ===== src/Node.antt =====
-- What lies outside the settlement code: the chain's RPC and REST endpoints, the executable that
-- signs and sends transactions, the disk and the clock. `C` is the state of all that; each call
-- may change it, so the program assumes nothing of two calls in a row. The fields stand for
-- `getJSON` at each target type, `exec.CommandContext`, `json.Unmarshal` of its output, the
-- SHA-256 digest of a request's JSON, and `net.SplitHostPort` with `net.ParseIP`.
use wolochain.Prelude.{ℕ, Bool, List, Option}
use wolochain.Text.{Text}
use wolochain.Fallible.{Fallible}
use wolochain.Request.{NormalizedRequest}
use wolochain.Run.{NormalizedRun}
use wolochain.Challenge.{NormalizedChallenge}

-- `restTxEventAttribute`, `restTxEvent` and `restTxLookupResponse`
pub record EventAttribute : Type 0 where
  pub key : Text
  pub value : Text

pub record Event : Type 0 where
  pub event_type : Text
  pub attributes : List EventAttribute

pub record TxPayload : Type 0 where
  pub memo : Text
  pub height : Text
  pub tx_hash : Text
  pub code : ℕ
  pub codespace : Text
  pub raw_log : Text
  pub timestamp : Text
  pub logs : List (List Event)
  pub events : List Event

-- `bankSendBroadcastResponse`
pub record Broadcast : Type 0 where
  pub height : Text
  pub tx_hash : Text
  pub code : ℕ
  pub codespace : Text
  pub raw_log : Text

-- One entry of `restBalancesResponse`, and the metadata of `restDenomMetadataResponse`.
pub record Coin : Type 0 where
  pub denom : Text
  pub amount : Text

pub record DenomMetadata : Type 0 where
  pub base : Text
  pub display : Text

-- What a command that ran has printed; `error` is the error that Go reports.
pub record CommandResult : Type 0 where
  pub stdout : Text
  pub stderr : Text
  pub error : Option Text

pub record Node (C : Type 0) : Type 0 where
  pub get_status : Text → C → Fallible Text × C
  pub get_node_info : Text → C → Fallible Text × C
  pub get_denom_metadata : Text → C → Fallible DenomMetadata × C
  pub get_staking_bond_denom : Text → C → Fallible Text × C
  pub get_mint_denom : Text → C → Fallible Text × C
  pub get_balances : Text → C → Fallible (List Coin) × C
  pub get_tx : Text → C → Fallible (ℕ × TxPayload) × C
  -- `cmd.Output()` of a command that shows a key
  pub show_key : List Text → C → CommandResult × C
  -- `cmd.CombinedOutput()` of a command that sends a transaction: its output and its error
  pub send : List Text → C → (Text × Option Text) × C
  pub decode_broadcast : Text → Option Broadcast
  -- `none` once a directory is made, a file is written or a lock file is created
  pub make_dir : Text → C → Option Text × C
  pub write_file : Text → C → Option Text × C
  pub create_file : Text → C → Option Text × C
  pub now : C → ℕ × C
  -- waits, and says if the caller's context was done first
  pub sleep : ℕ → C → Option Text × C
  -- the host of a `host:port`, and whether a text is a loopback IP
  pub split_host : Text → Option Text
  pub is_loopback_ip : Text → Bool
  -- the hex SHA-256 digests of the JSON of a request and its signer, of a run, and of a challenge
  pub fingerprint : NormalizedRequest → Text → Text
  pub run_fingerprint : NormalizedRun → Text
  pub challenge_fingerprint : NormalizedChallenge → Text
