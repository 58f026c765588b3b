-- ===== src/Execute/Preflight.antt =====
-- About the balance that a preflight has read.
use Prim.Native.Nat.{max}
use wolochain.Prelude.{
  ℕ, ◌+◌, ◌≤◌, ◌≡◌, true, false, none, some, arith, is_empty, Option-cases, Bool-cases, inl, inr,
}
use wolochain.Text.{Text, text_eq, trim_space}
use wolochain.Decimal.{parse_uint}
use wolochain.Fallible.{Fallible, ok, fail}
use wolochain.Config.{Config}
use wolochain.Capacity.{check_payout_capacity, check_escrow_capacity}
use wolochain.Capacity.Exact.{payout_capacity_exact, escrow_capacity_exact}
use wolochain.Responses.{HealthResponse}
use wolochain.Node.{Node}
use wolochain.Probe.{
  fetch_account_balance_uwolo, fetch_runtime_chain_id, validate_rest_invariants,
  resolve_escrow_address,
}
use wolochain.Health.{build_health_report}
use wolochain.Execute.{
  Verdict, preflight_on_report, preflight_execution, escrow_on_balance, escrow_on_signer,
  escrow_on_rest, escrow_on_chain, preflight_escrow_signer,
}

-- An amount, as text, that a balance covers with a floor left over.
pub record IsCovered (floor : ℕ) (amount : Text) (balance : ℕ) : Type 0 where
  pub requested : ℕ
  pub parses : parse_uint (trim_space amount) ≡ some requested
  pub covered : requested + floor ≤ balance

abbrev pub payout_floor : Config → ℕ
payout_floor cfg = max cfg.fee_headroom_uwolo cfg.min_payout_balance_uwolo

abbrev pub escrow_floor : Config → ℕ
escrow_floor cfg = max cfg.escrow_fee_headroom_uwolo cfg.min_escrow_balance_uwolo

module _ {C : Type 0} (node : Node C) (cfg : Config) where
  -- The health report lets a payout through.
  pub record LetsThrough (health : HealthResponse) (amount : Text) : Type 0 where
    pub healthy : health.healthy ≡ true
    pub keyed : is_empty cfg.payout_key_name ≡ false
    pub resolved : is_empty health.payout_address ≡ false
    pub balance : ℕ
    pub parses : parse_uint (trim_space health.payout_balance_uwolo) ≡ some balance
    pub covered : IsCovered (payout_floor cfg) amount balance

  preflight_on_report-LetsThrough :
      (amount : Text) (health : HealthResponse)
      → (preflight_on_report node cfg amount health).1 ≡ none
      → LetsThrough health amount
  unfolding preflight_on_report
  preflight_on_report-LetsThrough amount health h =
      elim (Option-cases (parse_uint (trim_space amount))) [
        | inl bad ↦ absurd (ground arith)
        | inr (requested, p) ↦
            elim (Option-cases (parse_uint (trim_space health.payout_balance_uwolo))) [
              | inl bad ↦ absurd (ground arith)
              | inr (balance, q) ↦
                  let passed : check_payout_capacity cfg balance requested ≡ none = ground arith in
                  record {
                    healthy = ground arith;
                    keyed = ground arith;
                    resolved = ground arith;
                    balance = balance;
                    parses = q;
                    covered = record {
                      requested = requested;
                      parses = p;
                      covered = (payout_capacity_exact cfg balance requested).0 passed;
                    };
                  }
            ]
      ]

  -- The payout preflight passes only on a good health report whose balance covers the amount and
  -- the larger of the fee headroom and the reserve floor.
  pub preflight_execution-LetsThrough :
      (amount : Text) (c : C)
      → (preflight_execution node cfg amount c).0.1 ≡ none
      → LetsThrough (build_health_report node cfg c).0 amount
  unfolding preflight_execution
  preflight_execution-LetsThrough amount c h =
      preflight_on_report-LetsThrough amount (build_health_report node cfg c).0 h

  abbrev Covers : Text → Verdict → Type 0
  Covers amount v = v.failure ≡ none → IsCovered (escrow_floor cfg) amount v.balance

  escrow_on_balance-Covers :
      (amount address : Text) (requested : ℕ) (answer : Fallible ℕ)
      → parse_uint (trim_space amount) ≡ some requested
      → Covers amount (escrow_on_balance node cfg address requested answer)
  unfolding escrow_on_balance
  escrow_on_balance-Covers amount address requested (fail e) p h = absurd (ground arith)
  escrow_on_balance-Covers amount address requested (ok balance) p h =
      elim (Option-cases (check_escrow_capacity cfg balance requested)) [
        | inr (refused, e) ↦ absurd (ground arith)
        | inl passed ↦
            rw (passed, escrow_on_balance)
              (record {
                requested = requested;
                parses = p;
                covered = (escrow_capacity_exact cfg balance requested).0 passed;
              })
      ]

  escrow_on_signer-Covers :
      (amount : Text) (signer : Fallible Text) (c : C)
      → Covers amount (escrow_on_signer node cfg amount signer c).0
  unfolding escrow_on_signer
  escrow_on_signer-Covers amount (fail e) c h = absurd (ground arith)
  escrow_on_signer-Covers amount (ok address) c h =
      elim (Option-cases (parse_uint (trim_space amount))) [
        | inl bad ↦ absurd (ground arith)
        | inr (requested, p) ↦
            rw (p, escrow_on_signer)
              (escrow_on_balance-Covers amount address requested
                (fetch_account_balance_uwolo node cfg address c).0 p
                (rw (p, escrow_on_signer) at h))
      ]

  escrow_on_rest-Covers :
      (amount : Text) (drift : Fallible (Unit {0})) (c : C)
      → Covers amount (escrow_on_rest node cfg amount drift c).0
  unfolding escrow_on_rest
  escrow_on_rest-Covers amount (fail e) c h = absurd (ground arith)
  escrow_on_rest-Covers amount (ok _) c h = elim (Bool-cases (is_empty cfg.escrow_key_name)) [
    | inl unkeyed ↦ absurd (ground arith)
    | inr keyed ↦
        let (signer, c') = resolve_escrow_address node cfg c in
        rw (keyed, escrow_on_rest)
          (escrow_on_signer-Covers amount signer c' (rw (keyed, escrow_on_rest) at h))
  ]

  escrow_on_chain-Covers :
      (amount : Text) (id : Fallible Text) (c : C)
      → Covers amount (escrow_on_chain node cfg amount id c).0
  unfolding escrow_on_chain
  escrow_on_chain-Covers amount (fail e) c h = absurd (ground arith)
  escrow_on_chain-Covers amount (ok id) c h = elim (Bool-cases (text_eq id cfg.chain_id)) [
    | inr other ↦ absurd (ground arith)
    | inl same ↦
        let (drift, c') = validate_rest_invariants node cfg c in
        rw (same, escrow_on_chain)
          (escrow_on_rest-Covers amount drift c' (rw (same, escrow_on_chain) at h))
  ]

  -- The escrow preflight passes only if the balance that it has read covers the amount and the
  -- larger of the escrow fee headroom and the escrow reserve floor.
  pub preflight_escrow_signer-IsCovered :
      (amount : Text) (c : C)
      → (preflight_escrow_signer node cfg amount c).0.failure ≡ none
      → IsCovered (escrow_floor cfg) amount (preflight_escrow_signer node cfg amount c).0.balance
  unfolding preflight_escrow_signer
  preflight_escrow_signer-IsCovered amount c =
      let (id, c') = fetch_runtime_chain_id node cfg c in escrow_on_chain-Covers amount id c'
