-- ===== src/Run/Execute/Replay.antt =====
-- About the file of a run, and what a later `execute_run_planned` makes of it.
use wolochain.Prelude.{
  ◌≡◌, refl, sym, ap, ◌∙◌, List, [], ◌∷◌, ◌||◌, map, any, some, true, false, arith, is_empty,
  Option-cases, Bool-cases, inl, inr,
}
use wolochain.Text.{Text, trim_space}
use wolochain.Text.Laws.{text_eq_refl}
use wolochain.Fallible.{Fallible, ok, fail, Fallible-cases, ok-injective, fail-ne-ok}
use wolochain.Config.{Config}
use wolochain.Table.{run_key, find, find-put, key_eq_refl}
use wolochain.Node.{Node}
use wolochain.World.{content, World, run_record_path, run_lock_path, write_run_stored_result}
use wolochain.Json.Runs.{json_payout_result, json_run_response, json_run_stored_result}
use wolochain.Lock.Exclusive.{Agree, with_lock_rule}
use wolochain.Run.{RunRequest, NormalizedRun, PayoutResult, RunResponse, RunStoredResult}
use wolochain.Run.Finalize.{has_retryable, run_is_final}
use wolochain.Run.Execute.{
  run_signer, finished_run, run_in_progress, execute_items, record_run, execute_planned,
  execute_run_stored, execute_run_planned,
}
use wolochain.Run.Execute.Sends.{execute_planned-refused}

-- JSON changes no test of whether a run is final.
has_retryable-json :
    (ps : List PayoutResult)
    → any (λ p. p.retryable) (map json_payout_result ps) ≡ any (λ p. p.retryable) ps
has_retryable-json [] = refl
has_retryable-json (p ∷ ps) = ap (λ b. p.retryable || b) (has_retryable-json ps)

json_run_response-final : (r : RunResponse) → run_is_final (json_run_response r) ≡ run_is_final r
unfolding run_is_final has_retryable
json_run_response-final r = rw (has_retryable-json r.payouts) refl

module _ {C : Type 0} (node : Node C) (cfg : Config) where
  -- The file of a run says that it was executed with a response, as JSON reads it back.
  abbrev pub RunRecorded : Text → NormalizedRun → RunResponse → World C → Type 0
  RunRecorded run_id run r w =
      (stored : RunStoredResult) × (find (run_key run_id) w.runs ≡ some (content stored))
      × (stored.fingerprint ≡ node.run_fingerprint run)
      × (stored.response ≡ json_run_response r)

  write_run_stored_result-stores :
      (id : Text) (result : RunStoredResult) (w : World C) {u : Unit {0}}
      → (write_run_stored_result node cfg id result w).0 ≡ ok u
      → find (run_key id) (write_run_stored_result node cfg id result w).1.runs
        ≡ some (content (json_run_stored_result result))
  unfolding write_run_stored_result
  write_run_stored_result-stores id result w h =
      elim (Option-cases (node.write_file (run_record_path node cfg id) w.env).0) [
        | inl written ↦
            rw (written, write_run_stored_result) (rw find-put (rw (key_eq_refl (run_key id))))
        | inr (e, refused) ↦ absurd (ground arith)
      ]

  record_run-RunRecorded :
      (run_id : Text) (run : NormalizedRun) (r done : RunResponse) (w : World C)
      → (record_run node cfg run_id run (node.run_fingerprint run) r w).0 ≡ ok done
      → RunRecorded run_id run done
          (record_run node cfg run_id run (node.run_fingerprint run) r w).1
  unfolding record_run
  record_run-RunRecorded run_id run r done w h =
      let stored : RunStoredResult = record {
        request = run;
        fingerprint = node.run_fingerprint run;
        response = r;
      } in
      elim (Fallible-cases (write_run_stored_result node cfg run_id stored w).0) [
        | inl (u, written) ↦
            rw (written, record_run)
              (
                json_run_stored_result stored,
                write_run_stored_result-stores run_id stored w written,
                refl,
                ap json_run_response (ok-injective (rw (written, record_run) at h)),
              )
        | inr (e, refused) ↦ absurd (fail-ne-ok (rw (refused, record_run) at h))
      ]

  execute_planned-RunRecorded :
      (run_id : Text) (run : NormalizedRun) (r done : RunResponse) (w : World C)
      → (execute_planned node cfg run_id (node.run_fingerprint run) run r w).0 ≡ ok done
      → RunRecorded run_id run done
          (execute_planned node cfg run_id (node.run_fingerprint run) run r w).1
  unfolding execute_planned
  execute_planned-RunRecorded run_id run r done w h = elim (Bool-cases r.succeeded) [
    | inr refused ↦
        rw (execute_planned-refused node cfg run_id (node.run_fingerprint run) run r w refused) (
          record_run-RunRecorded run_id run r done w (
            sym (
              ap (λ x. x.0)
                (execute_planned-refused node cfg run_id (node.run_fingerprint run) run r w
                  refused))
            ∙ h))
    | inl validated ↦
        elim (Fallible-cases (execute_items node cfg (run_signer run) run.payouts w).0) [
          | inr (why, e) ↦ absurd (fail-ne-ok (rw (validated, e, execute_planned) at h))
          | inl (items, e) ↦
              rw (validated, e, execute_planned)
                (record_run-RunRecorded run_id run (finished_run r items) done _
                  (rw (validated, e, execute_planned) at h))
        ]
  ]

  -- A recorded response as a later execution answers it.
  abbrev pub replayed_run : RunResponse → RunResponse
  replayed_run r = record r { dry_run = false; idempotent_replay = true }

  execute_run_stored-replay :
      (request : RunRequest) (run_id : Text) (run : NormalizedRun) (validation r : RunResponse)
      (w : World C)
      → RunRecorded run_id run r w
      → run_is_final r ≡ true
      → execute_run_stored node cfg request run_id run validation (find (run_key run_id) w.runs) w
        ≡ (ok (replayed_run (json_run_response r)), w)
  unfolding execute_run_stored
  execute_run_stored-replay request run_id run validation r w (stored, there, same, response)
        final =
      rw (there, execute_run_stored)
        (rw (same, text_eq_refl (node.run_fingerprint run))
          (rw response (rw (json_run_response-final r ∙ final))))

  -- The answers that a later execution of a recorded run can get: the replay, that the lock is
  -- held, or an error of the disk.
  pub data RunAnswers (run_id signer_role : Text) (r : RunResponse)
      : Fallible RunResponse → Type 0 where
    run_replayed : RunAnswers run_id signer_role r (ok (replayed_run r))
    run_locked : RunAnswers run_id signer_role r (ok (run_in_progress run_id signer_role))
    run_disk_error : (e : Text) → RunAnswers run_id signer_role r (fail e)

  -- Nothing was sent, and no state file was written.
  pub record IsIdle (w v : World C) : Type 0 where
    pub sent : v.sent ≡ w.sent
    pub requests : v.requests ≡ w.requests
    pub runs : v.runs ≡ w.runs

  Agree-IsIdle : {w v : World C} → Agree w v → IsIdle w v
  Agree-IsIdle a = record { sent = sym a.sent; requests = sym a.requests; runs = sym a.runs }

  IsIdle-Agree : {w u v : World C} → IsIdle w u → Agree u v → IsIdle w v
  IsIdle-Agree i a = record {
    sent = sym a.sent ∙ i.sent;
    requests = sym a.requests ∙ i.requests;
    runs = sym a.runs ∙ i.runs;
  }

  RunRecorded-replay :
      (request : RunRequest) (run_id : Text) (run : NormalizedRun) (planned r : RunResponse)
      (w : World C)
      → trim_space planned.settlement_run_id ≡ run_id
      → is_empty run_id ≡ false
      → RunRecorded run_id run r w
      → run_is_final r ≡ true
      → RunAnswers run_id planned.signer_role
          (json_run_response r)
          (execute_run_planned node cfg request run planned w).0
        × IsIdle w (execute_run_planned node cfg request run planned w).1
  unfolding execute_run_planned
  RunRecorded-replay request run_id run planned r w named filled recorded final =
      let validation : RunResponse = record planned { dry_run = false } in
      rw (named, filled, execute_run_planned)
        (with_lock_rule node cfg (run_key run_id) (run_lock_path node cfg run_id)
          (λ answer v.
            RunAnswers run_id planned.signer_role (json_run_response r) answer × IsIdle w v)
          (λ answer u v a post. (post.0, IsIdle-Agree post.1 a))
          (λ v.
            execute_run_stored node cfg request run_id run validation (find (run_key run_id) v.runs)
              v)
          w (λ e v a. (run_disk_error e, Agree-IsIdle a))
          (λ v a.
            rw
              (execute_run_stored-replay request run_id run validation r v
                (recorded.0, rw (← a.runs) recorded.1, recorded.2, recorded.3) final)
              (run_replayed, Agree-IsIdle a))
          (run_in_progress run_id planned.signer_role) (λ v a. (run_locked, Agree-IsIdle a)))

  -- A run is executed once. If a planned run is executed under its id and ends in a final response
  -- (none of its payouts may be retried, and it succeeded, failed or was partial), then any later
  -- execution of the same run under the same id, with the run files as that one left them and
  -- whatever its new plan, the chain, the clock and the locks are by then, sends no command and
  -- writes no state file; it answers with the first response, as JSON reads it back and marked as a
  -- replay, or that the lock is held, or with an error of the disk.
  pub run_executed_once :
      (request : RunRequest) (run_id : Text) (run : NormalizedRun)
      (first planned done : RunResponse) (w later : World C)
      → (execute_planned node cfg run_id (node.run_fingerprint run) run first w).0 ≡ ok done
      → run_is_final done ≡ true
      → later.runs ≡ (execute_planned node cfg run_id (node.run_fingerprint run) run first w).1.runs
      → trim_space planned.settlement_run_id ≡ run_id
      → is_empty run_id ≡ false
      → RunAnswers run_id planned.signer_role
          (json_run_response done)
          (execute_run_planned node cfg request run planned later).0
        × IsIdle later (execute_run_planned node cfg request run planned later).1
  run_executed_once request run_id run first planned done w later ended final same named filled =
      let (stored, there, printed, answered) =
        execute_planned-RunRecorded run_id run first done w ended in
      RunRecorded-replay request run_id run planned done later named filled
        (stored, rw same there, printed, answered) final
