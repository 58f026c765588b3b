-- ===== src/Broadcast/Unanswered.antt =====
-- About `waitForTxConfirmation` behind `broadcastPayout`: a transaction that the chain has taken, and
-- a lookup that fails.
use wolochain.Prelude.{
  ℕ, suc, ◌+◌, ◌<◌, ◌≡◌, refl, ap, ◌∙◌, true, false, some, [], arith, lt→ltb, ◌==◌, is_empty,
  Bool-cases, inl, inr, false-ne-true, sym,
}
use wolochain.Text.{Text, text_eq, text_runs}
use wolochain.Fallible.{Fallible, ok, fail}
use wolochain.Codes.{Status, FailureCode, is_tx_not_found}
use wolochain.Config.{Config}
use wolochain.Request.{NormalizedRequest}
use wolochain.Responses.{ExecuteResponse, LookupResponse}
use wolochain.Node.{Node, Broadcast, TxPayload}
use wolochain.Transfers.{Expectations}
use wolochain.Lookup.{
  normalize_tx_hash, is_hex_hash, lookup_tx, lookup_on_chain, lookup_on_payload, found_lookup,
  is_answer, poll_round, poll, wait_for_tx_confirmation,
}
use wolochain.World.{World}
use wolochain.Broadcast.{
  Signer, send_args, classify_rejected_tx, sent_response, with_broadcast, confirm, after_broadcast,
  reported, broadcast,
}

classify_empty_log : classify_rejected_tx [] ≡ FailureCode.tx_rejected
unfolding classify_rejected_tx text_runs
classify_empty_log = refl

-- A lookup that fails has seen no transaction.
abbrev SeesNothing : LookupResponse → Type 0
SeesNothing l = l.succeeded ≡ false → (l.tx_success ≡ false) × (l.raw_log ≡ [])

module _ {C : Type 0} (node : Node C) (cfg : Config) (e : Expectations) where
  lookup_on_payload-SeesNothing :
      (hash : Text) (payload : Fallible (ℕ × TxPayload)) (c : C)
      → SeesNothing (lookup_on_payload node cfg hash e payload c).0
  unfolding lookup_on_payload found_lookup
  lookup_on_payload-SeesNothing hash (fail why) c = λ h. (refl, refl)
  lookup_on_payload-SeesNothing hash (ok (status, payload)) c = elim (Bool-cases (status == 404)) [
    | inl missing ↦ rw (missing, lookup_on_payload) (λ h. (refl, refl))
    | inr there ↦ rw (there, lookup_on_payload) (λ h. absurd (false-ne-true (sym h)))
  ]

  lookup_on_chain-SeesNothing :
      (hash : Text) (id : Fallible Text) (c : C)
      → SeesNothing (lookup_on_chain node cfg hash e id c).0
  unfolding lookup_on_chain
  lookup_on_chain-SeesNothing hash (fail why) c = λ h. (refl, refl)
  lookup_on_chain-SeesNothing hash (ok id) c = elim (Bool-cases (text_eq id cfg.chain_id)) [
    | inl same ↦ rw (same, lookup_on_chain) (lookup_on_payload-SeesNothing _ _ _)
    | inr other ↦ rw (other, lookup_on_chain) (λ h. (refl, refl))
  ]

  lookup_tx-SeesNothing : (tx_hash : Text) (c : C) → SeesNothing (lookup_tx node cfg tx_hash e c).0
  unfolding lookup_tx
  lookup_tx-SeesNothing tx_hash c = elim (Bool-cases (is_empty (normalize_tx_hash tx_hash))) [
    | inl blank ↦ rw (blank, lookup_tx) (λ h. (refl, refl))
    | inr given ↦ elim (Bool-cases (is_hex_hash (normalize_tx_hash tx_hash))) [
      | inr odd ↦ rw (given, odd, lookup_tx) (λ h. (refl, refl))
      | inl hex ↦ rw (given, hex, lookup_tx) (lookup_on_chain-SeesNothing _ _ _)
    ]
  ]

-- What the polling expects of a transaction: nothing.
abbrev no_expectations : Expectations
no_expectations = record { sender = []; recipient = []; amount_uwolo = [] }

module _ {C : Type 0} (node : Node C) (cfg : Config) where
  -- The first reading of the clock in the polling, and its first lookup.
  abbrev pub first_time : C → ℕ
  first_time c = (node.now (node.now c).1).0

  abbrev pub first_lookup : Text → C → LookupResponse
  first_lookup hash c = (lookup_tx node cfg hash no_expectations (node.now (node.now c).1).1).0

  poll-first :
      (rounds deadline : ℕ) (hash : Text) (c : C)
      → (node.now c).0 < deadline
      → is_answer node cfg (lookup_tx node cfg hash no_expectations (node.now c).1).0 ≡ true
      → (poll node cfg (suc rounds) deadline hash c).0
        ≡ ok (some (lookup_tx node cfg hash no_expectations (node.now c).1).0)
  unfolding poll poll_round
  poll-first rounds deadline hash c early answered =
      rw (lt→ltb (node.now c).0 deadline early, answered, poll, poll_round) refl

  wait-first :
      (hash : Text) (c : C)
      → first_time c < (node.now c).0 + cfg.confirm_timeout
      → is_answer node cfg (first_lookup hash c) ≡ true
      → (wait_for_tx_confirmation node cfg hash c).0 ≡ ok (some (first_lookup hash c))
  unfolding wait_for_tx_confirmation
  wait-first hash c early answered =
      let rounds : cfg.confirm_timeout + 2 ≡ suc (cfg.confirm_timeout + 1) = omega arith in
      ap (λ n. (poll node cfg n ((node.now c).0 + cfg.confirm_timeout) hash (node.now c).1).0)
        rounds
      ∙ poll-first (cfg.confirm_timeout + 1) ((node.now c).0 + cfg.confirm_timeout) hash
          (node.now c).1 early answered

  -- A failed and final response that names its transaction.
  pub record IsRejected (hash : Text) (r : ExecuteResponse) : Type 0 where
    pub status : r.status ≡ Status.failed
    pub code : r.failure_code ≡ FailureCode.tx_rejected
    pub final : r.retryable ≡ false
    pub named : r.tx_hash ≡ hash

  after_broadcast-IsRejected :
      (signer : Signer) (request : NormalizedRequest) (address : Text) (b : Broadcast) (c : C)
      → b.code ≡ 0
      → first_time c < (node.now c).0 + cfg.confirm_timeout
      → (first_lookup b.tx_hash c).succeeded ≡ false
      → is_tx_not_found (first_lookup b.tx_hash c).failure_code ≡ false
      → IsRejected b.tx_hash
          (after_broadcast node cfg signer (sent_response node cfg signer request address) b c).0
  unfolding after_broadcast confirm with_broadcast sent_response
  after_broadcast-IsRejected signer request address b c taken early failed other =
      let zero_code : (b.code == 0) ≡ true = ground arith in
      let answered : is_answer node cfg (first_lookup b.tx_hash c) ≡ true = ground arith in
      let (unseen, unlogged) =
        lookup_tx-SeesNothing node cfg no_expectations b.tx_hash (node.now (node.now c).1).1
          failed in
      rw (zero_code, wait-first b.tx_hash c early answered, after_broadcast, confirm)
        (rw (unseen, unlogged, confirm)
          (record { status = refl; code = classify_empty_log; final = refl; named = refl }))

  -- What the command of a broadcast has printed, and the outside behind it.
  abbrev pub printed : Signer → NormalizedRequest → World C → Text
  printed signer request w = (node.send (send_args cfg signer request) w.env).0.0

  abbrev pub sent_env : Signer → NormalizedRequest → World C → C
  sent_env signer request w = (node.send (send_args cfg signer request) w.env).1

  -- A lookup that fails turns a transaction that the chain has taken into a rejected one. If the
  -- command of a broadcast reports a transaction of code 0, the polling starts before its deadline,
  -- and its first lookup fails with any code but that of a transaction that is not there yet (an RPC
  -- endpoint that does not answer, another chain id, a REST call that fails), then the broadcast is
  -- answered as failed with TX_REJECTED, not to be retried, and names the transaction.
  pub broadcast-IsRejected :
      (signer : Signer) (request : NormalizedRequest) (address : Text) (b : Broadcast) (w : World C)
      → reported node cfg signer (printed signer request w) ≡ some b
      → b.code ≡ 0
      → first_time (sent_env signer request w)
        < (node.now (sent_env signer request w)).0 + cfg.confirm_timeout
      → (first_lookup b.tx_hash (sent_env signer request w)).succeeded ≡ false
      → is_tx_not_found (first_lookup b.tx_hash (sent_env signer request w)).failure_code ≡ false
      → IsRejected b.tx_hash (broadcast node cfg signer request address w).0
  unfolding broadcast
  broadcast-IsRejected signer request address b w told taken early failed other =
      rw (told, broadcast)
        (after_broadcast-IsRejected signer request address b _ taken early failed other)
