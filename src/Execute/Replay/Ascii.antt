-- ===== src/Execute/Replay/Ascii.antt =====
-- A request in ASCII comes back from its state file as it was.
use wolochain.Prelude.{◌≡◌, ◌⊎◌, ◌∙◌, refl, true, none, all, ltb, inl, inr, false-ne-true, sym}
use wolochain.Text.{Text}
use wolochain.Fallible.{Fallible, ok, fail}
use wolochain.Config.{Config}
use wolochain.Request.{NormalizedRequest}
use wolochain.Responses.{ExecuteResponse}
use wolochain.Table.{request_key, find}
use wolochain.Node.{Node}
use wolochain.World.{World}
use wolochain.Json.Requests.{json_request, json_response}
use wolochain.Json.Plain.{json_text-ascii}
use wolochain.Broadcast.{Signer}
use wolochain.Execute.{same_request, is_final, replay, request_in_progress, execute_normalized}
use wolochain.Execute.Replay.{
  same_request_refl, Answers, replayed, conflicting, in_progress, disk_error, executed_once,
}

abbrev pub IsAscii : Text → Type 0
IsAscii s = all (λ c. ltb c 128) s ≡ true

-- All five texts of a request.
pub record IsAsciiRequest (request : NormalizedRequest) : Type 0 where
  pub id : IsAscii request.request_id
  pub address : IsAscii request.to_address
  pub amount : IsAscii request.amount_uwolo
  pub memo : IsAscii request.memo
  pub role : IsAscii request.signer_role

same_request-json :
    (request : NormalizedRequest)
    → IsAsciiRequest request
    → same_request (json_request request) request ≡ true
same_request-json request plain =
    rw
      (
        json_text-ascii request.request_id plain.id,
        json_text-ascii request.to_address plain.address,
        json_text-ascii request.amount_uwolo plain.amount,
        json_text-ascii request.memo plain.memo,
        json_text-ascii request.signer_role plain.role,
      )
      (same_request_refl request)

module _ {C : Type 0} (node : Node C) (cfg : Config) where
  -- The replay of a response as JSON reads it back, that the lock is held, or an error of the disk.
  abbrev pub Replays :
      Signer → NormalizedRequest → ExecuteResponse → Fallible ExecuteResponse → Type 0
  Replays signer request r answer =
      (answer ≡ ok (replay (json_response r)))
      ⊎ ((answer ≡ ok (request_in_progress node cfg signer request.request_id))
          ⊎ ((e : Text) × (answer ≡ fail e)))

  Answers-Replays :
      (signer : Signer) (request : NormalizedRequest) (r : ExecuteResponse)
      (answer : Fallible ExecuteResponse)
      → same_request (json_request request) request ≡ true
      → Answers node cfg signer request r answer
      → Replays signer request r answer
  Answers-Replays signer request r _ same (replayed kept) = inl refl
  Answers-Replays signer request r _ same (conflicting answer other conflict) =
      absurd (false-ne-true (sym other ∙ same))
  Answers-Replays signer request r _ same in_progress = inr (inl refl)
  Answers-Replays signer request r _ same (disk_error e) = inr (inr (e, refl))

  -- A request in ASCII is replayed. If all texts of a request are ASCII, and the first attempt at it,
  -- with no file under its id, ends in a final response, then a later attempt, with the state files as
  -- that one left them and whatever the chain, the clock and the locks are by then, is no conflict: it
  -- answers with the first response, as JSON reads it back and marked as a replay, or that the lock
  -- is held, or with an error of the disk.
  pub ascii_request_replayed :
      (signer : Signer) (request : NormalizedRequest) (r : ExecuteResponse) (w later : World C)
      → IsAsciiRequest request
      → find (request_key request.request_id) w.requests ≡ none
      → (execute_normalized node cfg signer request w).0 ≡ ok r
      → is_final r ≡ true
      → later.requests ≡ (execute_normalized node cfg signer request w).1.requests
      → Replays signer request r (execute_normalized node cfg signer request later).0
  ascii_request_replayed signer request r w later plain new done final same =
      Answers-Replays signer request r _ (same_request-json request plain)
        (executed_once node cfg signer request r w later new done final same).0
