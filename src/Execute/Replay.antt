-- ===== src/Execute/Replay.antt =====
-- About the file of a request, and what a later attempt makes of it.
pub mod Ascii
use wolochain.Prelude.{
  ◌≡◌, refl, sym, ap, ◌∙◌, Bool-cases, none, some, true, false, arith, Option-cases, inl, inr,
}
use wolochain.Text.{Text}
use wolochain.Text.Laws.{text_eq_refl}
use wolochain.Fallible.{Fallible, ok, fail, Fallible-cases, ok-injective, fail-ne-ok}
use wolochain.Codes.{FailureCode}
use wolochain.Config.{Config}
use wolochain.Request.{NormalizedRequest}
use wolochain.Responses.{ExecuteResponse, StoredResult}
use wolochain.Table.{request_key, find, find-put, key_eq_refl}
use wolochain.Node.{Node}
use wolochain.World.{
  content, World, write_stored_result, write_settlement_record, request_record_path,
  request_lock_path,
}
use wolochain.Json.Requests.{json_request, json_response, json_stored_result}
use wolochain.Json.Plain.{json_text-is_empty}
use wolochain.Lock.Exclusive.{with_lock_rule}
use wolochain.Broadcast.{Signer}
use wolochain.Execute.{
  preflight, same_request, stored_signer_role, record_response, attempt, is_final, replay,
  execute_stored, execute_locked, request_in_progress, execute_normalized,
}

pub same_request_refl : (request : NormalizedRequest) → same_request request request ≡ true
unfolding same_request
same_request_refl request = ground (
  arith,
  text_eq_refl request.request_id,
  text_eq_refl request.to_address,
  text_eq_refl request.amount_uwolo,
  text_eq_refl request.memo,
  text_eq_refl (stored_signer_role request.signer_role),
)

-- JSON changes no test of whether a response is final.
json_response-final : (r : ExecuteResponse) → is_final (json_response r) ≡ is_final r
json_response-final r = rw (json_text-is_empty r.tx_hash) refl

module _ {C : Type 0} (node : Node C) (cfg : Config) where
  -- The file of a request says that it was executed with the response `r`, both as JSON reads them
  -- back.
  abbrev pub Recorded : NormalizedRequest → ExecuteResponse → World C → Type 0
  Recorded request r w =
      (stored : StoredResult) × (find (request_key request.request_id) w.requests
        ≡ some (content stored))
      × (stored.request ≡ json_request request)
      × (stored.response ≡ json_response r)

  write_stored_result-stores :
      (id : Text) (result : StoredResult) (w : World C) {u : Unit {0}}
      → (write_stored_result node cfg id result w).0 ≡ ok u
      → find (request_key id) (write_stored_result node cfg id result w).1.requests
        ≡ some (content (json_stored_result result))
  unfolding write_stored_result
  write_stored_result-stores id result w h =
      elim (Option-cases (node.write_file (request_record_path node cfg id) w.env).0) [
        | inl written ↦
            rw (written, write_stored_result) (rw find-put (rw (key_eq_refl (request_key id))))
        | inr (e, refused) ↦ absurd (ground arith)
      ]

  record_response-Recorded :
      (request : NormalizedRequest) (address : Text) (response r : ExecuteResponse) (w : World C)
      → (record_response node cfg request address response w).0 ≡ ok r
      → Recorded request r (record_response node cfg request address response w).1
  unfolding record_response write_settlement_record
  record_response-Recorded request address response r w h =
      let stored : StoredResult = record {
        request = request;
        fingerprint = node.fingerprint request address;
        response = response;
      } in
      elim (Fallible-cases (write_stored_result node cfg request.request_id stored w).0) [
        | inl (u, written) ↦
            rw (written, record_response, write_settlement_record)
              (
                json_stored_result stored,
                write_stored_result-stores request.request_id stored w written,
                refl,
                ap json_response
                    (ok-injective (rw (written, record_response, write_settlement_record) at h)),
              )
        | inr (e, refused) ↦
            absurd (fail-ne-ok (rw (refused, record_response, write_settlement_record) at h))
      ]

  attempt-Recorded :
      (signer : Signer) (request : NormalizedRequest) (w : World C) (r : ExecuteResponse)
      → (attempt node cfg signer request w).0 ≡ ok r
      → Recorded request r (attempt node cfg signer request w).1
  unfolding attempt
  attempt-Recorded signer request w r h =
      let (v, c) = preflight node cfg signer request.amount_uwolo w.env in
      elim (Option-cases v.1) [
        | inl ready ↦
            rw (ready, attempt)
              (record_response-Recorded request _ _ r _ (rw (ready, attempt) at h))
        | inr (refused, e) ↦
            rw (e, attempt) (record_response-Recorded request _ _ r _ (rw (e, attempt) at h))
      ]

  -- What was recorded decides the next attempt: a final response is replayed, and nothing changes.
  execute_locked-replay :
      (signer : Signer) (request : NormalizedRequest) (r : ExecuteResponse) (w : World C)
      → Recorded request r w
      → same_request (json_request request) request ≡ true
      → is_final r ≡ true
      → execute_locked node cfg signer request w ≡ (ok (replay (json_response r)), w)
  unfolding execute_locked execute_stored
  execute_locked-replay signer request r w (stored, there, asked, response) same final =
      rw (there, execute_locked, execute_stored)
        (rw asked (rw same (rw response (rw (json_response-final r ∙ final)))))

  -- An answer that refuses a request as a conflict, not to be retried.
  pub record IsConflict (answer : ExecuteResponse) : Type 0 where
    pub code : answer.failure_code ≡ FailureCode.idempotency_conflict
    pub refused : answer.succeeded ≡ false
    pub final : answer.retryable ≡ false

  -- A request that comes back from its file as another one is a conflict with itself.
  execute_locked-IsConflict :
      (signer : Signer) (request : NormalizedRequest) (r : ExecuteResponse) (w : World C)
      → Recorded request r w
      → same_request (json_request request) request ≡ false
      → (answer : ExecuteResponse) × IsConflict answer
        × (execute_locked node cfg signer request w ≡ (ok answer, w))
  unfolding execute_locked execute_stored
  execute_locked-IsConflict signer request r w (stored, there, asked, response) other =
      rw (there, execute_locked, execute_stored)
        (rw asked (rw other (_, record { code = refl; refused = refl; final = refl }, refl)))

  busy_not_final :
      (signer : Signer) (id : Text) → is_final (request_in_progress node cfg signer id) ≡ false
  unfolding request_in_progress
  busy_not_final signer id = refl

  pub execute_locked-Recorded :
      (signer : Signer) (request : NormalizedRequest) (r : ExecuteResponse) (w : World C)
      → find (request_key request.request_id) w.requests ≡ none
      → (execute_locked node cfg signer request w).0 ≡ ok r
      → Recorded request r (execute_locked node cfg signer request w).1
  unfolding execute_locked execute_stored
  execute_locked-Recorded signer request r w new h =
      rw (new, execute_locked, execute_stored)
        (attempt-Recorded signer request w r (rw (new, execute_locked, execute_stored) at h))

  -- A first attempt that ends in a final response has recorded it.
  execute_normalized-Recorded :
      (signer : Signer) (request : NormalizedRequest) (r : ExecuteResponse) (w : World C)
      → find (request_key request.request_id) w.requests ≡ none
      → is_final r ≡ true
      → (execute_normalized node cfg signer request w).0 ≡ ok r
      → Recorded request r (execute_normalized node cfg signer request w).1
  unfolding execute_normalized
  execute_normalized-Recorded signer request r w new final =
      with_lock_rule node cfg (request_key request.request_id)
        (request_lock_path node cfg request.request_id)
        (λ answer v. answer ≡ ok r → Recorded request r v)
        (λ answer u v a post h. rw a.requests at (post h)) (execute_locked node cfg signer request)
        w (λ e v a h. absurd (fail-ne-ok h))
        (λ v a. execute_locked-Recorded signer request r v (rw a.requests at new))
        (request_in_progress node cfg signer request.request_id)
        (λ v a h. cc (final, ok-injective h, busy_not_final signer request.request_id))

  -- The answers that a later attempt at a recorded request can get: the replay of the response as
  -- JSON reads it back, if the request comes back as the same; a conflict, if it does not; that the
  -- lock is held; or an error of the disk.
  pub data Answers (signer : Signer) (request : NormalizedRequest) (r : ExecuteResponse)
      : Fallible ExecuteResponse → Type 0 where
    replayed :
        same_request (json_request request) request ≡ true
        → Answers signer request r (ok (replay (json_response r)))
    conflicting :
        (answer : ExecuteResponse)
        → same_request (json_request request) request ≡ false
        → IsConflict answer
        → Answers signer request r (ok answer)
    in_progress :
        Answers signer request r (ok (request_in_progress node cfg signer request.request_id))
    disk_error : (e : Text) → Answers signer request r (fail e)

  abbrev pub Unchanged : World C → World C → Type 0
  Unchanged w v = (v.sent ≡ w.sent) × (v.requests ≡ w.requests)

  Recorded-Answers :
      (signer : Signer) (request : NormalizedRequest) (r : ExecuteResponse) (w : World C)
      → Recorded request r w
      → is_final r ≡ true
      → Answers signer request r (execute_locked node cfg signer request w).0
        × Unchanged w (execute_locked node cfg signer request w).1
  Recorded-Answers signer request r w recorded final =
      elim (Bool-cases (same_request (json_request request) request)) [
        | inl same ↦
            rw (execute_locked-replay signer request r w recorded same final)
              (replayed same, (refl, refl))
        | inr other ↦
            (let (answer, conflict, answered) =
                execute_locked-IsConflict signer request r w recorded other in
              rw answered (conflicting answer other conflict, (refl, refl)))
      ]

  pub Recorded-replay :
      (signer : Signer) (request : NormalizedRequest) (r : ExecuteResponse) (w : World C)
      → Recorded request r w
      → is_final r ≡ true
      → Answers signer request r (execute_normalized node cfg signer request w).0
        × Unchanged w (execute_normalized node cfg signer request w).1
  unfolding execute_normalized
  Recorded-replay signer request r w recorded final =
      with_lock_rule node cfg (request_key request.request_id)
        (request_lock_path node cfg request.request_id)
        (λ answer v. Answers signer request r answer × Unchanged w v)
        (λ answer u v a post. (post.0, (sym a.sent ∙ post.1.0, sym a.requests ∙ post.1.1)))
        (execute_locked node cfg signer request) w
        (λ e v a. (disk_error e, (sym a.sent, sym a.requests)))
        (λ v a.
          let (answer, kept) =
            Recorded-Answers signer request r v
              (recorded.0, rw (← a.requests) recorded.1, recorded.2, recorded.3) final in
          (answer, (kept.0 ∙ sym a.sent, kept.1 ∙ sym a.requests)))
        (request_in_progress node cfg signer request.request_id)
        (λ v a. (in_progress, (sym a.sent, sym a.requests)))

  -- A request is executed once. If the first attempt at a request, with no file under its id,
  -- ends in a final response (it succeeded, or has a transaction hash, or is not to be retried),
  -- then any later attempt, with the state files as that one left them and whatever the chain, the
  -- clock and the locks are by then, sends no command and changes no request file. It answers with
  -- the first response, as JSON reads it back and marked as a replay, if the request too comes back
  -- from JSON as the same one; with a conflict that is not to be retried, if the request comes back
  -- as another one (its text was not valid UTF-8); that the lock is held; or with an error of the
  -- disk.
  pub executed_once :
      (signer : Signer) (request : NormalizedRequest) (r : ExecuteResponse) (w later : World C)
      → find (request_key request.request_id) w.requests ≡ none
      → (execute_normalized node cfg signer request w).0 ≡ ok r
      → is_final r ≡ true
      → later.requests ≡ (execute_normalized node cfg signer request w).1.requests
      → Answers signer request r (execute_normalized node cfg signer request later).0
        × Unchanged later (execute_normalized node cfg signer request later).1
  executed_once signer request r w later new done final same =
      let (stored, there, asked, answered) =
        execute_normalized-Recorded signer request r w new final done in
      Recorded-replay signer request r later (stored, rw same there, asked, answered) final
