-- ===== src/Run/Tally.antt =====
-- The loop of `finalizeSettlementRunResponse` of cmd/wolochaind/cmd/settlement.go over the payouts.
use wolochain.Prelude.{ℕ, ◌+◌, ◌%◌, Bool, ◌||◌, List, [], ◌∷◌, none, some, if◌then◌else◌}
use wolochain.Decimal.{u64_mod, parse_optional_uwolo}
use wolochain.Codes.{is_confirmed, is_accepted, is_refusal, is_rejected}
use wolochain.Run.{PayoutResult, RunResponse}

-- The counts and totals that the loop over the payouts keeps.
pub record Tally : Type 0 where
  pub executed_count : ℕ
  pub confirmed_count : ℕ
  pub accepted_count : ℕ
  pub refused_count : ℕ
  pub rejected_count : ℕ
  pub replay_count : ℕ
  pub again : Bool
  pub executed_total : ℕ
  pub confirmed_total : ℕ
  pub accepted_total : ℕ
  pub refused_total : ℕ
  pub rejected_total : ℕ

-- The counts that the response has, and no totals.
abbrev pub tally_of : RunResponse → Tally
tally_of r = record {
  executed_count = r.executed_payout_count;
  confirmed_count = r.confirmed_payout_count;
  accepted_count = r.accepted_payout_count;
  refused_count = r.refused_payout_count;
  rejected_count = r.rejected_payout_count;
  replay_count = r.replay_payout_count;
  again = r.retryable;
  executed_total = 0;
  confirmed_total = 0;
  accepted_total = 0;
  refused_total = 0;
  rejected_total = 0;
}

abbrev pub add_u64 : ℕ → ℕ → ℕ
add_u64 a b = (a + b) % u64_mod

-- The two `switch` statements and the two tests behind them.
unfoldable pub tally_status : PayoutResult → ℕ → Tally → Tally
tally_status p amount t =
    if is_confirmed p.status
    then record t {
      confirmed_count = t.confirmed_count + 1;
      executed_count = t.executed_count + 1;
      executed_total = add_u64 t.executed_total amount;
      confirmed_total = add_u64 t.confirmed_total amount;
    }
    else if is_accepted p.status
    then record t {
      accepted_count = t.accepted_count + 1;
      executed_count = t.executed_count + 1;
      executed_total = add_u64 t.executed_total amount;
      accepted_total = add_u64 t.accepted_total amount;
    }
    else t

unfoldable pub tally_outcome : PayoutResult → ℕ → Tally → Tally
tally_outcome p amount t =
    if is_refusal p.outcome
    then record t {
      refused_count = t.refused_count + 1;
      refused_total = add_u64 t.refused_total amount;
    }
    else if is_rejected p.outcome
    then record t {
      rejected_count = t.rejected_count + 1;
      rejected_total = add_u64 t.rejected_total amount;
    }
    else t

unfoldable pub tally_flags : PayoutResult → Tally → Tally
tally_flags p t = record t {
  replay_count = if p.idempotent_replay then t.replay_count + 1 else t.replay_count;
  again = t.again || p.retryable;
}

-- A payout whose amount cannot be read is passed over.
unfoldable pub tally_payout : PayoutResult → Tally → Tally
tally_payout p t = elim (parse_optional_uwolo p.amount_uwolo) [
  | none ↦ t
  | some amount ↦ tally_flags p (tally_outcome p amount (tally_status p amount t))
]

unfoldable pub tally : List PayoutResult → Tally → Tally
tally [] t = t
tally (p ∷ ps) t = tally ps (tally_payout p t)

-- The sum of the payouts' amounts in an `uint64`.
abbrev pub add_results : ℕ → List PayoutResult → ℕ
add_results total [] = total
add_results total (p ∷ ps) =
    add_results
      (elim (parse_optional_uwolo p.amount_uwolo) [
        | none ↦ total
        | some amount ↦ add_u64 total amount
      ])
      ps
