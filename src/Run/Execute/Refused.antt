-- ===== src/Run/Execute/Refused.antt =====
-- About runs whose plan is refused, and what `execute_run` sends of them.
use wolochain.Prelude.{◌≡◌, ◌≢◌, refl, sym, ◌∙◌, true, false, arith, Bool-cases, inl, inr}
use wolochain.Config.{Config}
use wolochain.Node.{Node}
use wolochain.World.{World, set_env}
use wolochain.Run.{RunRequest}
use wolochain.Run.Prepare.{prepare_run}
use wolochain.Run.Plan.{requires_escrow_signer, plan_run, build_plan}
use wolochain.Run.Plan.Covered.{IsFunded, build_plan-IsFunded}
use wolochain.Run.Execute.{execute_run}
use wolochain.Run.Execute.Sends.{record_run-sent, execute_planned-refused, execute_run_planned-rule}

module _ {C : Type 0} (node : Node C) (cfg : Config) where
  refused_run_idle :
      (request : RunRequest) (w : World C)
      → (build_plan node cfg request w.env).0.1.succeeded ≡ false
      → (execute_run node cfg request w).1.sent ≡ w.sent
  unfolding execute_run build_plan
  refused_run_idle request w refused =
      let (run, prepared) = prepare_run request in
      let (planned, c) = plan_run node cfg run prepared w.env in
      execute_run_planned-rule node cfg (λ s. s ≡ w.sent) request run planned (set_env w c) refl
        (λ run_id fingerprint v same.
          rw
            (execute_planned-refused node cfg run_id fingerprint run
              (record planned { dry_run = false }) v refused)
            (record_run-sent node cfg run_id run fingerprint (record planned { dry_run = false }) v
              ∙ sym same))

  -- A run that sends a command was funded: its plan has seen a ready payout, a signer that the run
  -- may use, and a balance that covers the requested total and the larger of the signer's fee
  -- headroom and reserve floor.
  pub execute_run-IsFunded :
      (request : RunRequest) (w : World C)
      → (execute_run node cfg request w).1.sent ≢ w.sent
      → IsFunded node cfg (prepare_run request).0 (prepare_run request).1 w.env
  execute_run-IsFunded request w sends =
      elim (Bool-cases (build_plan node cfg request w.env).0.1.succeeded) [
        | inl validated ↦ build_plan-IsFunded node cfg request w.env validated
        | inr refused ↦ absurd (sends (refused_run_idle request w refused))
      ]

  -- A bet-market run that does not name the escrow signer sends nothing.
  pub market_run_idle :
      (request : RunRequest) (w : World C)
      → requires_escrow_signer (prepare_run request).0 ≡ true
      → (execute_run node cfg request w).1.sent ≡ w.sent
  market_run_idle request w required =
      elim (Bool-cases (build_plan node cfg request w.env).0.1.succeeded) [
        | inl validated ↦
            (let allowed = (build_plan-IsFunded node cfg request w.env validated).allowed in
              absurd (ground arith))
        | inr refused ↦ refused_run_idle request w refused
      ]
