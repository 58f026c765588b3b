-- ===== src/Broadcast/Outcome.antt =====
-- What a broadcast can come to.
use wolochain.Prelude.{
  ◌≡◌, ◌≢◌, ◌⊎◌, inl, inr, refl, true, false, none, some, arith, Option, Option-cases, Bool-cases,
  ◌==◌, is_empty,
}
use wolochain.Text.{Text}
use wolochain.Fallible.{Fallible, ok, fail}
use wolochain.Codes.{Status, FailureCode}
use wolochain.Config.{Config}
use wolochain.Request.{NormalizedRequest}
use wolochain.Responses.{ExecuteResponse, LookupResponse}
use wolochain.Node.{Node, Broadcast}
use wolochain.World.{World}
use wolochain.Broadcast.{
  Signer, send_args, classify_exec_error, classify_rejected_tx, sent_response, with_broadcast,
  confirm, after_broadcast, exec_failed, reported, broadcast,
}

-- A response of a broadcast: a success names a transaction that was taken or confirmed, a failure
-- has a failure code, and what may be retried names no transaction.
pub record IsSettled (r : ExecuteResponse) : Type 0 where
  pub success : r.succeeded ≡ true → is_empty r.tx_hash ≡ false
  pub status_success :
      r.succeeded ≡ true → (r.status ≡ Status.confirmed) ⊎ (r.status ≡ Status.accepted)
  pub status_failure : r.succeeded ≡ false → r.status ≡ Status.failed
  pub coded : r.succeeded ≡ false → r.failure_code ≢ FailureCode.no_failure
  pub retry : r.retryable ≡ true → is_empty r.tx_hash ≡ true

classify_rejected_tx-coded : (s : Text) → classify_rejected_tx s ≢ FailureCode.no_failure
unfolding classify_rejected_tx
classify_rejected_tx-coded s = ground arith

classify_exec_error-coded : (s : Text) → (classify_exec_error s).0 ≢ FailureCode.no_failure
unfolding classify_exec_error
classify_exec_error-coded s = ground arith

module _ {C : Type 0} (node : Node C) (cfg : Config) (signer : Signer) where
  -- The response when the transaction is known, before the polling.
  record IsTaken (r : ExecuteResponse) : Type 0 where
    not_yet : r.succeeded ≡ false
    failed_yet : r.status ≡ Status.failed
    final : r.retryable ≡ false
    named : is_empty r.tx_hash ≡ false

  confirm-IsSettled :
      (r : ExecuteResponse) (answer : Fallible (Option LookupResponse))
      → IsTaken r
      → IsSettled (confirm node cfg signer r answer)
  unfolding confirm
  confirm-IsSettled r (fail e) t = ground arith
  confirm-IsSettled r (ok none) t = ground arith
  confirm-IsSettled r (ok (some l)) t = ground (arith, classify_rejected_tx-coded l.raw_log)

  with_broadcast-IsTaken :
      (request : NormalizedRequest) (address : Text) (b : Broadcast)
      → is_empty b.tx_hash ≡ false
      → IsTaken (with_broadcast node cfg signer (sent_response node cfg signer request address) b)
  unfolding with_broadcast sent_response
  with_broadcast-IsTaken request address b h = record {
    not_yet = refl;
    failed_yet = refl;
    final = refl;
    named = h;
  }

  after_broadcast-IsSettled :
      (request : NormalizedRequest) (address : Text) (b : Broadcast) (c : C)
      → is_empty b.tx_hash ≡ false
      → IsSettled
          (after_broadcast node cfg signer (sent_response node cfg signer request address) b c).0
  unfolding after_broadcast
  after_broadcast-IsSettled request address b c h =
      let t = with_broadcast-IsTaken request address b h in
      elim (Bool-cases (b.code == 0)) [
        | inl taken ↦ rw (taken, after_broadcast) (confirm-IsSettled _ _ t)
        | inr other ↦
            rw (other, after_broadcast) (ground (arith, classify_rejected_tx-coded b.raw_log))
      ]

  exec_failed-IsSettled :
      (request : NormalizedRequest) (address output : Text) (error : Option Text)
      → IsSettled
          (exec_failed node cfg signer (sent_response node cfg signer request address) output error)
  unfolding exec_failed sent_response
  exec_failed-IsSettled request address output error =
      ground (arith, classify_exec_error-coded output)

  reported-named :
      (output : Text) (b : Broadcast)
      → reported node cfg signer output ≡ some b
      → is_empty b.tx_hash ≡ false
  unfolding reported
  reported-named output b h = ground arith

  -- Every response of a broadcast is settled: a success names a transaction and is confirmed or
  -- accepted, a failure is `failed` with a failure code, and what is to be retried names none.
  pub broadcast-IsSettled :
      (request : NormalizedRequest) (address : Text) (w : World C)
      → IsSettled (broadcast node cfg signer request address w).0
  unfolding broadcast
  broadcast-IsSettled request address w =
      let (printed, c) = node.send (send_args cfg signer request) w.env in
      elim (Option-cases (reported node cfg signer printed.0)) [
        | inl silent ↦
            rw (silent, broadcast) (exec_failed-IsSettled request address printed.0 printed.1)
        | inr (b, told) ↦
            rw (told, broadcast)
              (after_broadcast-IsSettled request address b c (reported-named printed.0 b told))
      ]
