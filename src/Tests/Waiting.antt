-- ===== src/Tests/Waiting.antt =====
-- The polling, on a clock that advances with each round.
use wolochain.Prelude.{ℕ, ◌+◌, ◌<◌, ◌≡◌, arith}
use wolochain.Lookup.{after_round, poll, wait_for_tx_confirmation}
use wolochain.Lookup.Wait.{wait_terminates}
use wolochain.Tests.{chain, config, hash, program_runs}

clock_advances : (c : ℕ) → (chain.now c).0 < (chain.now (after_round chain config hash c)).0
unfolding program_runs
clock_advances c = omega arith

wait_terminates_example :
    wait_for_tx_confirmation chain config hash 0 ≡ poll chain config (6 + 10) 4 hash 1
wait_terminates_example = wait_terminates chain config hash clock_advances 10 0 (omega arith)
