-- ===== src/Run/Execute/Sends.antt =====
-- About the commands that `execute_run` sends.
use wolochain.Prelude.{
  ◌≡◌, refl, none, some, false, not, ◌&&◌, [], ◌∷◌, Option, List, arith, is_empty, Bool-cases, inl,
  inr,
}
use wolochain.Text.{Text, text_eq, trim_space}
use wolochain.Fallible.{ok, Fallible-cases}
use wolochain.Config.{Config, payout_role}
use wolochain.Request.{NormalizedRequest, normalize_request}
use wolochain.Table.{run_key, find}
use wolochain.Node.{Node}
use wolochain.World.{
  File, unreadable, content, World, set_env, run_lock_path, write_run_stored_result,
}
use wolochain.Lock.Exclusive.{with_lock_rule}
use wolochain.Broadcast.{Signer, role, send_args}
use wolochain.Execute.{execute_as}
use wolochain.Execute.Sends.{IsCleared, Outcome, quiet, cleared, sends_at_most_one}
use wolochain.Run.{RunRequest, NormalizedRun, NormalizedPayout, RunResponse, RunStoredResult}
use wolochain.Run.Finalize.{run_is_final}
use wolochain.Run.Plan.{build_plan, plan_run}
use wolochain.Run.Prepare.{prepare_run}
use wolochain.Run.TopUp.{should_attempt_top_up}
use wolochain.Run.Execute.{
  run_signer, item_request, finished_run, run_in_progress, execute_items, record_run,
  execute_planned, execute_topped_up, execute_run_stored, execute_run_planned, execute_run,
}

-- The request that a signer executes for a payout.
abbrev pub signed : Signer → NormalizedRequest → NormalizedRequest
signed signer n = record n { signer_role = role signer }

module _ {C : Type 0} (node : Node C) (cfg : Config) where
  -- From one list of sent commands to the next, the latest first: of each payout in turn, its
  -- command or none.
  pub data Adds (signer : Signer)
      : List NormalizedPayout → List (List Text) → List (List Text) → Type 0 where
    stop : {ps : List NormalizedPayout} {s : List (List Text)} → Adds signer ps s s
    skip :
        {p : NormalizedPayout} {ps : List NormalizedPayout} {s t : List (List Text)}
        → Adds signer ps s t
        → Adds signer (p ∷ ps) s t
    send :
        {p : NormalizedPayout} {ps : List NormalizedPayout} {s t : List (List Text)}
        (n : NormalizedRequest)
        → normalize_request (item_request p) ≡ ok n
        → IsCleared node cfg signer (signed signer n)
        → Adds signer ps (send_args cfg signer (signed signer n) ∷ s) t
        → Adds signer (p ∷ ps) s t

  Adds-from :
      {signer : Signer} {ps : List NormalizedPayout} {s s' t : List (List Text)}
      → s ≡ s'
      → Adds signer ps s' t
      → Adds signer ps s t
  Adds-from e adds = rw e adds

  after_outcome :
      (signer : Signer) (p : NormalizedPayout) (ps : List NormalizedPayout) (n : NormalizedRequest)
      (w v : World C) (t : List (List Text))
      → normalize_request (item_request p) ≡ ok n
      → Outcome node cfg signer (signed signer n) w v
      → Adds signer ps v.sent t
      → Adds signer (p ∷ ps) w.sent t
  after_outcome signer p ps n w v t e (quiet q) rest = skip (rw q at rest)
  after_outcome signer p ps n w v t e (cleared o c q) rest = send n e c (rw q at rest)

  after_item :
      (signer : Signer) (p : NormalizedPayout) (ps : List NormalizedPayout) (w : World C)
      (t : List (List Text))
      → Adds signer ps (execute_as node cfg signer (item_request p) w).1.sent t
      → Adds signer (p ∷ ps) w.sent t
  unfolding execute_as
  after_item signer p ps w t rest = elim (Fallible-cases (normalize_request (item_request p))) [
    | inr (why, e) ↦ skip (rw (e, execute_as) at rest)
    | inl (n, e) ↦
        after_outcome signer p ps n w _ t e (sends_at_most_one node cfg signer (signed signer n) w)
          (rw (e, execute_as) at rest)
  ]

  execute_items-Adds :
      (signer : Signer) (ps : List NormalizedPayout) (w : World C)
      → Adds signer ps w.sent (execute_items node cfg signer ps w).1.sent
  unfolding execute_items
  execute_items-Adds signer [] w = stop
  execute_items-Adds signer (p ∷ ps) w =
      let (answer, w') = execute_as node cfg signer (item_request p) w in
      after_item signer p ps w _ (elim (Fallible-cases answer) [
        | inr (why, e) ↦ rw (e, execute_items) stop
        | inl (r, e) ↦
            rw (e, execute_items)
              (let rest = execute_items-Adds signer ps w' in
                elim (Fallible-cases (execute_items node cfg signer ps w').0) [
                  | inr (why, q) ↦ rw q rest
                  | inl (items, q) ↦ rw q rest
                ])
      ])

  pub record_run-sent :
      (run_id : Text) (run : NormalizedRun) (fingerprint : Text) (r : RunResponse) (w : World C)
      → (record_run node cfg run_id run fingerprint r w).1.sent ≡ w.sent
  unfolding record_run write_run_stored_result
  record_run-sent run_id run fingerprint r w = ground arith

  pub execute_planned-refused :
      (run_id fingerprint : Text) (run : NormalizedRun) (r : RunResponse) (w : World C)
      → r.succeeded ≡ false
      → execute_planned node cfg run_id fingerprint run r w
        ≡ record_run node cfg run_id run fingerprint r w
  unfolding execute_planned
  execute_planned-refused run_id fingerprint run r w unready = rw (unready, execute_planned) refl

  pub execute_planned-Adds :
      (run_id fingerprint : Text) (run : NormalizedRun) (r : RunResponse) (w : World C)
      → Adds
          (run_signer run)
          run.payouts
          w.sent
          (execute_planned node cfg run_id fingerprint run r w).1.sent
  unfolding execute_planned
  execute_planned-Adds run_id fingerprint run r w =
      let (items, w') = execute_items node cfg (run_signer run) run.payouts w in
      let all = execute_items-Adds (run_signer run) run.payouts w in
      elim (Bool-cases r.succeeded) [
        | inr unready ↦
            rw (execute_planned-refused run_id fingerprint run r w unready)
              (rw (record_run-sent run_id run fingerprint r w) stop)
        | inl ready ↦ elim (Fallible-cases items) [
          | inr (why, e) ↦ rw (ready, e, execute_planned) all
          | inl (rs, e) ↦
              rw (ready, e, execute_planned)
                (rw (record_run-sent run_id run fingerprint (finished_run r rs) w') all)
        ]
      ]

  -- Behind the closed gate an execution goes on with the plan that it has.
  top_up_closed :
      (request : RunRequest) (run_id fingerprint : Text) (run : NormalizedRun) (r : RunResponse)
      (w : World C)
      → execute_topped_up node cfg request run_id fingerprint run r w
        ≡ execute_planned node cfg run_id fingerprint run r w
  unfolding execute_topped_up should_attempt_top_up
  top_up_closed request run_id fingerprint run r w =
      elim (Bool-cases (text_eq run.signer_role payout_role && not r.succeeded)) [
        | inl wanting ↦ rw (wanting, execute_topped_up) refl
        | inr other ↦ rw (other, execute_topped_up) refl
      ]

  execute_run_stored-rule :
      (P : List (List Text) → Type 0) (request : RunRequest) (run_id : Text) (run : NormalizedRun)
      (validation : RunResponse) (file : Option (File RunStoredResult)) (w : World C)
      → P w.sent
      → ((fingerprint : Text)
          → P (execute_planned node cfg run_id fingerprint run validation w).1.sent)
      → P (execute_run_stored node cfg request run_id run validation file w).1.sent
  unfolding execute_run_stored
  execute_run_stored-rule P request run_id run validation none w idle runs =
      rw (top_up_closed request run_id (node.run_fingerprint run) run validation w) (runs _)
  execute_run_stored-rule P request run_id run validation (some (unreadable e)) w idle runs = idle
  execute_run_stored-rule P request run_id run validation (some (content stored)) w idle runs =
      elim (Bool-cases (text_eq stored.fingerprint (node.run_fingerprint run))) [
        | inr other ↦ rw (other, execute_run_stored) idle
        | inl same ↦ elim (Bool-cases (run_is_final stored.response)) [
          | inl final ↦ rw (same, final, execute_run_stored) idle
          | inr open_yet ↦
              rw (same, open_yet, execute_run_stored)
                (rw (top_up_closed request run_id (node.run_fingerprint run) run validation w)
                  (runs _))
        ]
      ]

  pub execute_run_planned-rule :
      (P : List (List Text) → Type 0) (request : RunRequest) (run : NormalizedRun)
      (planned : RunResponse) (w : World C)
      → P w.sent
      → ((run_id fingerprint : Text) (v : World C)
          → w.sent ≡ v.sent
          → P
              (execute_planned node cfg run_id fingerprint run
                (record planned { dry_run = false })
                v).1.sent)
      → P (execute_run_planned node cfg request run planned w).1.sent
  unfolding execute_run_planned
  execute_run_planned-rule P request run planned w idle runs =
      let validation : RunResponse = record planned { dry_run = false } in
      let run_id = trim_space validation.settlement_run_id in
      elim (Bool-cases (is_empty run_id)) [
        | inl blank ↦ rw (blank, execute_run_planned) idle
        | inr named ↦
            rw (named, execute_run_planned)
              (with_lock_rule node cfg (run_key run_id) (run_lock_path node cfg run_id)
                (λ answer v. P v.sent) (λ answer u v a post. rw a.sent at post)
                (λ v.
                  execute_run_stored node cfg request run_id run validation
                    (find (run_key run_id) v.runs) v)
                w (λ e v a. rw a.sent at idle)
                (λ v a.
                  execute_run_stored-rule P request run_id run validation
                    (find (run_key run_id) v.runs) v (rw a.sent at idle)
                    (λ fingerprint. runs run_id fingerprint v a.sent))
                (run_in_progress run_id validation.signer_role) (λ v a. rw a.sent at idle))
      ]

  -- The execution of a run sends, of each of its payouts in their order, its command once or not at
  -- all, and nothing else. Every command is the one of the run's signer, and each follows a
  -- preflight that passed.
  pub run_sends :
      (request : RunRequest) (w : World C)
      → Adds
          (run_signer (prepare_run request).0)
          (prepare_run request).0.payouts
          w.sent
          (execute_run node cfg request w).1.sent
  unfolding execute_run build_plan
  run_sends request w =
      let (run, prepared) = prepare_run request in
      let (planned, c) = plan_run node cfg run prepared w.env in
      execute_run_planned-rule (Adds (run_signer run) run.payouts w.sent) request run planned
        (set_env w c) stop
        (λ run_id fingerprint v same.
          Adds-from same
            (execute_planned-Adds run_id fingerprint run (record planned { dry_run = false }) v))
