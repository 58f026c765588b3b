-- ===== src/Execute/Sends.antt =====
-- When an attempt sends a command, which one, and what covers it.
use wolochain.Prelude.{
  ◌≢◌, ◌≡◌, refl, sym, ap, ◌∙◌, none, some, true, false, ◌∷◌, Option, arith, Option-cases,
  Bool-cases, inl, inr,
}
use wolochain.Text.{Text}
use wolochain.Config.{Config}
use wolochain.Request.{NormalizedRequest}
use wolochain.Responses.{ExecuteResponse, StoredResult}
use wolochain.Table.{request_key, find}
use wolochain.Node.{Node}
use wolochain.Health.{build_health_report}
use wolochain.World.{
  File, unreadable, content, World, set_env, write_stored_result, write_settlement_record,
  request_lock_path,
}
use wolochain.Lock.Exclusive.{Agree, with_lock_rule}
use wolochain.Broadcast.{Signer, payout, escrow, broadcast, send_args, reported}
use wolochain.Execute.{
  preflight, same_request, record_response, attempt, is_final, execute_stored, execute_locked,
  request_in_progress, execute_normalized, preflight_escrow_signer, preflight_escrow_transfer,
}
use wolochain.Execute.Preflight.{
  LetsThrough, IsCovered, escrow_floor, preflight_execution-LetsThrough,
  preflight_escrow_signer-IsCovered,
}

module _ {C : Type 0} (node : Node C) (cfg : Config) where
  record_response-sent :
      (request : NormalizedRequest) (address : Text) (response : ExecuteResponse) (w : World C)
      → (record_response node cfg request address response w).1.sent ≡ w.sent
  unfolding record_response write_settlement_record write_stored_result
  record_response-sent request address response w = ground arith

  broadcast-sent :
      (signer : Signer) (request : NormalizedRequest) (address : Text) (w : World C)
      → (broadcast node cfg signer request address w).1.sent ≡ send_args cfg signer request ∷ w.sent
  unfolding broadcast
  broadcast-sent signer request address w =
      elim (Option-cases
        (reported node cfg signer (node.send (send_args cfg signer request) w.env).0.0)) [
          | inl silent ↦ rw (silent, broadcast)
          | inr (b, told) ↦ rw (told, broadcast)
        ]

  -- The state of the outside at which the preflight passed.
  pub record IsCleared (signer : Signer) (request : NormalizedRequest) : Type 0 where
    pub seen : C
    pub passed : (preflight node cfg signer request.amount_uwolo seen).0.1 ≡ none

  -- What may have become of the sent commands: none was added, or that of the request, once, after
  -- a preflight that passed.
  pub data Sends (signer : Signer) (request : NormalizedRequest) (w v : World C) : Type 0 where
    none_sent : v.sent ≡ w.sent → Sends signer request w v
    one_sent :
        IsCleared signer request
        → v.sent ≡ send_args cfg signer request ∷ w.sent
        → Sends signer request w v

  attempt-Sends :
      (signer : Signer) (request : NormalizedRequest) (w : World C)
      → Sends signer request w (attempt node cfg signer request w).1
  unfolding attempt
  attempt-Sends signer request w =
      let (v, c) = preflight node cfg signer request.amount_uwolo w.env in
      elim (Option-cases v.1) [
        | inl ready ↦
            rw (ready, attempt)
              (one_sent (record { seen = w.env; passed = ready })
                (record_response-sent request _ _ _
                  ∙ broadcast-sent signer request v.0 (set_env w c)))
        | inr (refused, e) ↦ rw (e, attempt) (none_sent (record_response-sent request _ _ _))
      ]

  -- The file of a request leaves the request open: there is none, or one of the same request whose
  -- response is not final.
  pub data IsOpen (request : NormalizedRequest) : Option (File StoredResult) → Type 0 where
    no_file : IsOpen request none
    retry :
        (stored : StoredResult)
        → same_request stored.request request ≡ true
        → is_final stored.response ≡ false
        → IsOpen request (some (content stored))

  -- With the reason why the file let it.
  pub data Outcome (signer : Signer) (request : NormalizedRequest) (w v : World C) : Type 0 where
    quiet : v.sent ≡ w.sent → Outcome signer request w v
    cleared :
        IsOpen request (find (request_key request.request_id) w.requests)
        → IsCleared signer request
        → v.sent ≡ send_args cfg signer request ∷ w.sent
        → Outcome signer request w v

  of_Sends :
      (signer : Signer) (request : NormalizedRequest) (w v : World C)
      → IsOpen request (find (request_key request.request_id) w.requests)
      → Sends signer request w v
      → Outcome signer request w v
  of_Sends signer request w v o (none_sent e) = quiet e
  of_Sends signer request w v o (one_sent c e) = cleared o c e

  execute_stored-Outcome :
      (signer : Signer) (request : NormalizedRequest) (file : Option (File StoredResult))
      (w : World C)
      → find (request_key request.request_id) w.requests ≡ file
      → Outcome signer request w (execute_stored node cfg signer request file w).1
  unfolding execute_stored
  execute_stored-Outcome signer request none w e =
      of_Sends signer request w _ (rw e no_file) (attempt-Sends signer request w)
  execute_stored-Outcome signer request (some (unreadable m)) w e = quiet refl
  execute_stored-Outcome signer request (some (content stored)) w e =
      elim (Bool-cases (same_request stored.request request)) [
        | inr other ↦ rw (other, execute_stored) (quiet refl)
        | inl same ↦ elim (Bool-cases (is_final stored.response)) [
          | inl final ↦ rw (same, final, execute_stored) (quiet refl)
          | inr open_yet ↦
              rw (same, open_yet, execute_stored)
                (of_Sends signer request w _ (rw e (retry stored same open_yet))
                  (attempt-Sends signer request w))
        ]
      ]

  rebase :
      (signer : Signer) (request : NormalizedRequest) (w u v : World C)
      → Agree w u
      → Outcome signer request u v
      → Outcome signer request w v
  rebase signer request w u v a (quiet e) = quiet (e ∙ sym a.sent)
  rebase signer request w u v a (cleared o c e) =
      cleared (rw a.requests o) c (e ∙ ap (λ s. send_args cfg signer request ∷ s) (sym a.sent))

  moved :
      (signer : Signer) (request : NormalizedRequest) (w u v : World C)
      → u.sent ≡ v.sent
      → Outcome signer request w u
      → Outcome signer request w v
  moved signer request w u v e (quiet q) = quiet (sym e ∙ q)
  moved signer request w u v e (cleared o c q) = cleared o c (sym e ∙ q)

  execute_locked-Outcome :
      (signer : Signer) (request : NormalizedRequest) (w : World C)
      → Outcome signer request w (execute_locked node cfg signer request w).1
  unfolding execute_locked
  execute_locked-Outcome signer request w =
      execute_stored-Outcome signer request (find (request_key request.request_id) w.requests) w
        refl

  -- An attempt at a request sends no command, or exactly one: that of the request. It sends one
  -- only where the state directory holds no file of the request, or one of the same request whose
  -- response is not final, and where the preflight of the signer has passed.
  pub sends_at_most_one :
      (signer : Signer) (request : NormalizedRequest) (w : World C)
      → Outcome signer request w (execute_normalized node cfg signer request w).1
  unfolding execute_normalized
  sends_at_most_one signer request w =
      with_lock_rule node cfg (request_key request.request_id)
        (request_lock_path node cfg request.request_id) (λ answer v. Outcome signer request w v)
        (λ answer u v a. moved signer request w u v a.sent) (execute_locked node cfg signer request)
        w (λ e v a. quiet (sym a.sent))
        (λ v a. rebase signer request w v _ a (execute_locked-Outcome signer request v))
        (request_in_progress node cfg signer request.request_id) (λ v a. quiet (sym a.sent))

  -- What covers a transfer at a state of the outside.
  abbrev pub Covered : Signer → NormalizedRequest → C → Type 0
  Covered payout request c =
      LetsThrough node cfg (build_health_report node cfg c).0 request.amount_uwolo
  Covered escrow request c =
      IsCovered (escrow_floor cfg) request.amount_uwolo
        (preflight_escrow_signer node cfg request.amount_uwolo c).0.balance

  IsCleared-Covered :
      (signer : Signer) (request : NormalizedRequest) (h : IsCleared signer request)
      → Covered signer request h.seen
  unfolding preflight_escrow_transfer
  IsCleared-Covered payout request h =
      preflight_execution-LetsThrough node cfg request.amount_uwolo h.seen h.passed
  IsCleared-Covered escrow request h =
      preflight_escrow_signer-IsCovered node cfg request.amount_uwolo h.seen h.passed

  Outcome-Covered :
      (signer : Signer) (request : NormalizedRequest) (w v : World C)
      → v.sent ≢ w.sent
      → Outcome signer request w v
      → (c : C) × Covered signer request c
  Outcome-Covered signer request w v changed (quiet e) = absurd (changed e)
  Outcome-Covered signer request w v changed (cleared o h e) =
      (h.seen, IsCleared-Covered signer request h)

  -- An attempt that sends a command was covered: the balance that the preflight read is at least
  -- the amount plus the larger of the signer's fee headroom and reserve floor, and a payout also had
  -- a good health report, a configured key and a resolved address.
  pub execute_normalized-Covered :
      (signer : Signer) (request : NormalizedRequest) (w : World C)
      → (execute_normalized node cfg signer request w).1.sent ≢ w.sent
      → (c : C) × Covered signer request c
  execute_normalized-Covered signer request w changed =
      Outcome-Covered signer request w _ changed (sends_at_most_one signer request w)
