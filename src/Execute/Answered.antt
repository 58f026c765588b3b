-- ===== src/Execute/Answered.antt =====
-- A new request on a disk that takes every file.
use wolochain.Prelude.{◌≡◌, refl, ◌∙◌, none, Option-cases, inl, inr}
use wolochain.Text.{Text}
use wolochain.Fallible.{ok}
use wolochain.Config.{Config}
use wolochain.Request.{NormalizedRequest}
use wolochain.Responses.{ExecuteResponse}
use wolochain.Table.{request_key, find}
use wolochain.Node.{Node}
use wolochain.World.{
  World, write_stored_result, write_settlement_record, request_record_path, request_lock_path,
}
use wolochain.Lock.Runs.{TakesFiles, with_lock-Runs}
use wolochain.Broadcast.{Signer}
use wolochain.Execute.{
  preflight, record_response, attempt, execute_stored, execute_locked, request_in_progress,
  execute_normalized,
}
use wolochain.Execute.Replay.{Recorded, execute_locked-Recorded}

module _ {C : Type 0} (node : Node C) (cfg : Config) (takes : TakesFiles node) where
  record_response-answers :
      (request : NormalizedRequest) (address : Text) (response : ExecuteResponse) (w : World C)
      → (record_response node cfg request address response w).0 ≡ ok response
  unfolding record_response write_settlement_record write_stored_result
  record_response-answers request address response w =
      rw
        (
          takes.writes (request_record_path node cfg request.request_id) w.env,
          record_response,
          write_settlement_record,
          write_stored_result,
        )
        refl

  attempt-answers :
      (signer : Signer) (request : NormalizedRequest) (w : World C)
      → (r : ExecuteResponse) × ((attempt node cfg signer request w).0 ≡ ok r)
  unfolding attempt
  attempt-answers signer request w =
      let (v, c) = preflight node cfg signer request.amount_uwolo w.env in
      elim (Option-cases v.1) [
        | inl ready ↦ rw (ready, attempt) (_, record_response-answers request _ _ _)
        | inr (refused, e) ↦ rw (e, attempt) (_, record_response-answers request _ _ _)
      ]

  execute_locked-answers :
      (signer : Signer) (request : NormalizedRequest) (w : World C)
      → find (request_key request.request_id) w.requests ≡ none
      → (r : ExecuteResponse) × ((execute_locked node cfg signer request w).0 ≡ ok r)
  unfolding execute_locked execute_stored
  execute_locked-answers signer request w new =
      rw (new, execute_locked, execute_stored) (attempt-answers signer request w)

  -- A new request is answered and recorded: on a disk that takes every file, and where neither a
  -- state file nor a lock file stands under the request's id, an attempt ends with a response, no
  -- matter what the chain and the commands answer, and leaves a state file with the request and that
  -- response, as JSON reads them back.
  pub new_request_answered :
      (signer : Signer) (request : NormalizedRequest) (w : World C)
      → find (request_key request.request_id) w.requests ≡ none
      → find (request_key request.request_id) w.locks ≡ none
      → (r : ExecuteResponse) × ((execute_normalized node cfg signer request w).0 ≡ ok r)
        × Recorded node cfg request r (execute_normalized node cfg signer request w).1
  unfolding execute_normalized
  new_request_answered signer request w new free =
      let (v, same, answer, files) =
        with_lock-Runs node cfg (request_key request.request_id)
          (request_lock_path node cfg request.request_id)
          (request_in_progress node cfg signer request.request_id)
          (execute_locked node cfg signer request) w takes free in
      let new_there = rw same.requests at new in
      let (r, answered) = execute_locked-answers signer request v new_there in
      let recorded = execute_locked-Recorded node cfg signer request r v new_there answered in
      (r, answer ∙ answered, (recorded.0, rw files recorded.1, recorded.2, recorded.3))
