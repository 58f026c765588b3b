-- ===== src/Challenge/Finalize/Complete.antt =====
-- When a challenge is finalized as succeeded.
use wolochain.Prelude.{
  ℕ, ◌≤◌, ◌≡◌, refl, Bool, true, false, List, arith, length, map, ◌==◌, if◌then◌else◌, length-map,
}
use wolochain.Codes.{Status, is_no_status}
use wolochain.Run.Tally.{tally}
use wolochain.Run.Finalize.Totals.{
  AllExecuted, tally-at-most, tally-parts, tally-AllExecuted, AllUnsent, tally-AllUnsent,
}
use wolochain.Challenge.{ChallengeResponse, TransferResult}
use wolochain.Challenge.Finalize.{
  counted, challenge_tally_of, derive_challenge_status, challenge_requested, challenge_tallied,
  challenge_judged, finalize_challenge,
}

derive_challenge_status-succeeds :
    (r : ChallengeResponse)
    → r.succeeded ≡ false
    → r.confirmed_transfer_count ≤ r.executed_transfer_count
    → (derive_challenge_status r).1 ≡ true
    → r.requested_transfer_count ≤ r.executed_transfer_count
unfolding derive_challenge_status
derive_challenge_status-succeeds r fresh fewer h = ground arith

-- A response as a challenge has it before its transfers are counted.
pub record IsFresh (r : ChallengeResponse) : Type 0 where
  pub status : r.status ≡ Status.no_status
  pub succeeded : r.succeeded ≡ false
  pub executed : r.executed_transfer_count ≡ 0
  pub confirmed : r.confirmed_transfer_count ≡ 0
  pub accepted : r.accepted_transfer_count ≡ 0

-- All transfers were sent: each is confirmed, or accepted.
abbrev pub AllSent : List TransferResult → Type 0
AllSent ts = AllExecuted (map counted ts)

requested_at_least : (n l m : ℕ) → m ≤ n → m ≤ (if n == 0 then l else n)
requested_at_least n l m h = ground arith

judged_blank :
    {s : Status} (x y : Bool)
    → s ≡ Status.no_status
    → (if is_no_status s then x else y) ≡ true
    → x ≡ true
judged_blank x y blank h = rw blank at h

-- A challenge is finalized as succeeded only if every transfer was sent.
pub finalize_challenge-AllSent :
    (r : ChallengeResponse)
    → IsFresh r
    → length r.transfers ≤ r.requested_transfer_count
    → (finalize_challenge r).succeeded ≡ true
    → AllSent r.transfers
unfolding finalize_challenge challenge_judged challenge_tallied challenge_requested
finalize_challenge-AllSent r fresh enough h =
    let ps = map counted r.transfers in
    let t = challenge_tally_of r in
    let done = challenge_tallied (tally ps t) (challenge_requested r) in
    let parts = tally-parts ps t in
    let most = tally-at-most ps t in
    let same_length = length-map counted r.transfers in
    let executed = fresh.executed in
    let confirmed = fresh.confirmed in
    let accepted = fresh.accepted in
    let asked = requested_at_least r.requested_transfer_count (length r.transfers) _ enough in
    let complete =
      derive_challenge_status-succeeds done fresh.succeeded (omega arith)
        (judged_blank _ _ fresh.status h) in
    tally-AllExecuted ps t (omega arith)

pub finalize_challenge-transfers :
    (r : ChallengeResponse) → (finalize_challenge r).transfers ≡ r.transfers
unfolding finalize_challenge challenge_judged challenge_tallied challenge_requested
finalize_challenge-transfers r = refl

-- The counts of a response, none of whose transfers was sent.
pub record StartsFresh (lines : ℕ) (r : ChallengeResponse) : Type 0 where
  pub executed : r.executed_transfer_count ≡ 0
  pub confirmed : r.confirmed_transfer_count ≡ 0
  pub accepted : r.accepted_transfer_count ≡ 0
  pub enough : lines ≤ r.requested_transfer_count

-- A finalization counts no transfer that was not sent.
pub finalize_challenge-StartsFresh :
    (lines : ℕ) (r : ChallengeResponse)
    → StartsFresh lines r
    → AllUnsent (map counted r.transfers)
    → StartsFresh lines (finalize_challenge r)
unfolding finalize_challenge challenge_judged challenge_tallied challenge_requested
finalize_challenge-StartsFresh lines r fresh unsent =
    let ps = map counted r.transfers in
    let t = challenge_tally_of r in
    let same = tally-AllUnsent ps t unsent in
    let parts = tally-parts ps t in
    let executed = fresh.executed in
    let confirmed = fresh.confirmed in
    let accepted = fresh.accepted in
    record {
      executed = omega arith;
      confirmed = omega arith;
      accepted = omega arith;
      enough =
          requested_at_least r.requested_transfer_count (length r.transfers) lines fresh.enough;
    }

status_kept :
    (s t : Status) → is_no_status s ≡ false → is_no_status (if is_no_status s then t else s) ≡ false
status_kept s t h = ground arith

pub finalize_challenge-status :
    (r : ChallengeResponse)
    → is_no_status r.status ≡ false
    → is_no_status (finalize_challenge r).status ≡ false
unfolding finalize_challenge challenge_judged challenge_tallied challenge_requested
finalize_challenge-status r decided = status_kept _ _ decided

if-false : {b : Bool} (x y : Bool) → b ≡ false → (if b then x else y) ≡ y
if-false x y h = ground arith

-- A response that has its status keeps its verdict.
pub finalize_challenge-decided :
    (r : ChallengeResponse)
    → is_no_status r.status ≡ false
    → (finalize_challenge r).succeeded ≡ r.succeeded
unfolding finalize_challenge challenge_judged challenge_tallied challenge_requested
finalize_challenge-decided r decided = if-false _ _ decided
