-- ===== src/Lookup/Wait.antt =====
-- About the rounds of the polling of `wait_for_tx_confirmation`.
use wolochain.Prelude.{
  ℕ, zero, suc, ◌+◌, ◌≤◌, ◌<◌, ◌≡◌, refl, sym, ap, ◌∙◌, Option, arith, ltb, Bool-cases, inl, inr,
  none,
}
use wolochain.Text.{Text}
use wolochain.Fallible.{Fallible, ok}
use wolochain.Config.{Config}
use wolochain.Node.{Node}
use wolochain.Responses.{LookupResponse}
use wolochain.Lookup.{poll_round, after_round, poll, wait_for_tx_confirmation}

module _ {C : Type 0} (node : Node C) (cfg : Config) (hash : Text)
    (advances : (c : C) → (node.now c).0 < (node.now (after_round node cfg hash c)).0) where
  past_deadline :
      (deadline : ℕ) (c : C) (rest : Fallible (Option LookupResponse) × C)
      → deadline ≤ (node.now c).0
      → poll_round node cfg deadline hash c rest ≡ (ok none, (node.now c).1)
  unfolding poll_round
  past_deadline deadline c rest late = elim (Bool-cases (ltb (node.now c).0 deadline)) [
    | inl early ↦ absurd (ground arith)
    | inr past ↦ rw (past, poll_round) refl
  ]

  poll-past :
      (rounds deadline : ℕ) (c : C)
      → deadline ≤ (node.now c).0
      → poll node cfg (suc rounds) deadline hash c ≡ (ok none, (node.now c).1)
  unfolding poll
  poll-past rounds deadline c late = past_deadline deadline c _ late

  -- With one round more than there are nanoseconds left, further rounds change nothing.
  poll-enough :
      (rounds more deadline : ℕ) (c : C)
      → deadline ≤ (node.now c).0 + rounds
      → rounds < more
      → poll node cfg more deadline hash c ≡ poll node cfg (suc rounds) deadline hash c
  unfolding poll
  poll-enough rounds zero deadline c enough fuel = absurd (omega arith)
  poll-enough zero (suc more) deadline c enough fuel =
      poll-past more deadline c (omega arith) ∙ sym (poll-past 0 deadline c (omega arith))
  poll-enough (suc rounds) (suc more) deadline c enough fuel =
      let step = advances c in
      ap (poll_round node cfg deadline hash c)
        (poll-enough rounds more deadline (after_round node cfg hash c) (omega arith) (omega arith))

  -- The polling for a confirmation never runs out of rounds. On a clock that advances with every
  -- round, and does not go back from one reading to the next, it comes to the same with any larger
  -- number of rounds: it ends with an answer, an error of the context, or at the deadline.
  pub wait_terminates :
      (more : ℕ) (c : C)
      → (node.now c).0 ≤ (node.now (node.now c).1).0
      → wait_for_tx_confirmation node cfg hash c
        ≡ poll node cfg
            (cfg.confirm_timeout + 2 + more)
            ((node.now c).0 + cfg.confirm_timeout)
            hash
            (node.now c).1
  unfolding wait_for_tx_confirmation
  wait_terminates more c forward =
      let deadline = (node.now c).0 + cfg.confirm_timeout in
      poll-enough cfg.confirm_timeout (cfg.confirm_timeout + 2) deadline (node.now c).1
        (omega arith) (omega arith)
      ∙ sym (
          poll-enough cfg.confirm_timeout (cfg.confirm_timeout + 2 + more) deadline (node.now c).1
            (omega arith) (omega arith))
