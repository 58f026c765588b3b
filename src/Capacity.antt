-- ===== src/Capacity.antt =====
-- The balance checks of cmd/wolochaind/cmd/settlement.go: `checkReserveHealth`,
-- `checkPayoutCapacity` and their escrow twins. A check answers `some` with the failure code and
-- the detail where the code returns `true` as its third result.
pub mod Exact
use wolochain.Prelude.{
  ℕ, ◌-◌, Bool, true, false, ◌&&◌, ◌++◌, Option, none, some, ltb, if◌then◌else◌,
}
use wolochain.Text.{Text, text}
use wolochain.Decimal.{format_uint, format_display_amount}
use wolochain.Codes
use wolochain.Codes.{FailureCode}
use wolochain.Config.{Config}

-- `%s uwolo (%s wolo)` at an amount
unfoldable pub show_amount : ℕ → Text
show_amount n =
    format_uint n ++ (text " uwolo (" ++ (format_display_amount (format_uint n) ++ text " wolo)"))

unfoldable pub check_reserve_health : Config → ℕ → Option (FailureCode × Text)
check_reserve_health cfg balance =
    if ltb 0 cfg.fee_headroom_uwolo && ltb balance cfg.fee_headroom_uwolo
    then some (
      FailureCode.payout_fee_headroom_too_low,
      text "payout signer balance "
          ++ (show_amount balance
              ++ (text " is below configured fee headroom " ++ show_amount cfg.fee_headroom_uwolo)),
    )
    else if ltb 0 cfg.min_payout_balance_uwolo && ltb balance cfg.min_payout_balance_uwolo
    then some (
      FailureCode.payout_reserve_floor_hit,
      text "payout signer balance "
          ++ (show_amount balance
              ++ (text " is below configured reserve floor "
                  ++ show_amount cfg.min_payout_balance_uwolo)),
    )
    else none

unfoldable pub check_payout_capacity : Config → ℕ → ℕ → Option (FailureCode × Text)
check_payout_capacity cfg balance request =
    let remaining = balance - request in
    if ltb balance request
    then some (
      FailureCode.payout_balance_too_low,
      text "payout signer balance "
          ++ (show_amount balance ++ (text " is below requested payout " ++ show_amount request)),
    )
    else if ltb 0 cfg.fee_headroom_uwolo && ltb remaining cfg.fee_headroom_uwolo
    then some (
      FailureCode.payout_fee_headroom_too_low,
      text "payout would leave "
          ++ (show_amount remaining
              ++ (text ", below configured fee headroom " ++ show_amount cfg.fee_headroom_uwolo)),
    )
    else if ltb 0 cfg.min_payout_balance_uwolo && ltb remaining cfg.min_payout_balance_uwolo
    then some (
      FailureCode.payout_reserve_floor_hit,
      text "payout would leave "
          ++ (show_amount remaining
              ++ (text ", below configured reserve floor "
                  ++ show_amount cfg.min_payout_balance_uwolo)),
    )
    else none

unfoldable pub check_escrow_reserve_health : Config → ℕ → Option (FailureCode × Text)
check_escrow_reserve_health cfg balance =
    if ltb 0 cfg.escrow_fee_headroom_uwolo && ltb balance cfg.escrow_fee_headroom_uwolo
    then some (
      FailureCode.escrow_fee_headroom_too_low,
      text "escrow signer balance "
          ++ (show_amount balance
              ++ (text " is below configured escrow fee headroom "
                  ++ show_amount cfg.escrow_fee_headroom_uwolo)),
    )
    else if ltb 0 cfg.min_escrow_balance_uwolo && ltb balance cfg.min_escrow_balance_uwolo
    then some (
      FailureCode.escrow_reserve_floor_hit,
      text "escrow signer balance "
          ++ (show_amount balance
              ++ (text " is below configured escrow reserve floor "
                  ++ show_amount cfg.min_escrow_balance_uwolo)),
    )
    else none

unfoldable pub check_escrow_capacity : Config → ℕ → ℕ → Option (FailureCode × Text)
check_escrow_capacity cfg balance request =
    let remaining = balance - request in
    if ltb balance request
    then some (
      FailureCode.escrow_balance_too_low,
      text "escrow signer balance "
          ++ (show_amount balance
              ++ (text " is below requested escrow transfer total " ++ show_amount request)),
    )
    else if ltb 0 cfg.escrow_fee_headroom_uwolo && ltb remaining cfg.escrow_fee_headroom_uwolo
    then some (
      FailureCode.escrow_fee_headroom_too_low,
      text "escrow transfer would leave "
          ++ (show_amount remaining
              ++ (text ", below configured escrow fee headroom "
                  ++ show_amount cfg.escrow_fee_headroom_uwolo)),
    )
    else if ltb 0 cfg.min_escrow_balance_uwolo && ltb remaining cfg.min_escrow_balance_uwolo
    then some (
      FailureCode.escrow_reserve_floor_hit,
      text "escrow transfer would leave "
          ++ (show_amount remaining
              ++ (text ", below configured escrow reserve floor "
                  ++ show_amount cfg.min_escrow_balance_uwolo)),
    )
    else none

unfoldable pub escrow_failure_has_balance : FailureCode → Bool
escrow_failure_has_balance FailureCode.escrow_balance_too_low = true
escrow_failure_has_balance FailureCode.escrow_fee_headroom_too_low = true
escrow_failure_has_balance FailureCode.escrow_reserve_floor_hit = true
escrow_failure_has_balance _ = false
