-- ===== src/Capacity/Exact.antt =====
-- The balance checks against the floors that they stand for.
use Prim.Native.Nat.{max}
use wolochain.Prelude.{ℕ, ◌+◌, ◌-◌, ◌≤◌, true, ◌≡◌, ◌↔◌, none, some, arith}
use wolochain.Text.{Text}
use wolochain.Codes.{FailureCode}
use wolochain.Config.{Config}
use wolochain.Capacity.{
  check_reserve_health, check_payout_capacity, check_escrow_reserve_health, check_escrow_capacity,
  escrow_failure_has_balance,
}

-- The payout check passes exactly when the balance covers the request and the larger of the fee
-- headroom and the reserve floor.
pub payout_capacity_exact :
    (cfg : Config) (balance request : ℕ)
    → (check_payout_capacity cfg balance request ≡ none)
      ↔ (request + max cfg.fee_headroom_uwolo cfg.min_payout_balance_uwolo ≤ balance)
unfolding check_payout_capacity
payout_capacity_exact cfg balance request = ground arith

-- The escrow check passes exactly when the balance covers the request and the larger of the escrow
-- fee headroom and the escrow reserve floor.
pub escrow_capacity_exact :
    (cfg : Config) (balance request : ℕ)
    → (check_escrow_capacity cfg balance request ≡ none)
      ↔ (request + max cfg.escrow_fee_headroom_uwolo cfg.min_escrow_balance_uwolo ≤ balance)
unfolding check_escrow_capacity
escrow_capacity_exact cfg balance request = ground arith

-- A payout passes the capacity check exactly when the balance covers it and what is left passes
-- the reserve check of the health report; so does an escrow transfer with the escrow checks.
pub capacity_leaves_reserve :
    (cfg : Config) (balance request : ℕ)
    → ((check_payout_capacity cfg balance request ≡ none)
        ↔ ((request ≤ balance) × (check_reserve_health cfg (balance - request) ≡ none)))
      × ((check_escrow_capacity cfg balance request ≡ none)
          ↔ ((request ≤ balance) × (check_escrow_reserve_health cfg (balance - request) ≡ none)))
unfolding check_payout_capacity check_reserve_health check_escrow_capacity
    check_escrow_reserve_health
capacity_leaves_reserve cfg balance request = (ground arith, ground arith)

-- An escrow refusal by the capacity check always reports a balance.
pub escrow_capacity-has_balance :
    (cfg : Config) (balance request : ℕ) (code : FailureCode) (detail : Text)
    → check_escrow_capacity cfg balance request ≡ some (code, detail)
    → escrow_failure_has_balance code ≡ true
unfolding check_escrow_capacity escrow_failure_has_balance
escrow_capacity-has_balance cfg balance request code detail h = ground arith
