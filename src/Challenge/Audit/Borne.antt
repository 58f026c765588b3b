-- ===== src/Challenge/Audit/Borne.antt =====
-- About `auditLookupMismatch` of cmd/wolochaind/cmd/settlement_challenge_audit.go.
use wolochain.Prelude.{
  ◌≡◌, refl, Bool, true, false, not, ◌&&◌, [], ◌++◌, arith, is_empty, if◌then◌else◌, Bool-cases,
  inl, inr,
}
use wolochain.Text.{Text, text, trim_space, trim_left, trim_right}
use wolochain.Text.Laws.{text_eq_sound, trim_space_idem}
use wolochain.Codes.{Status, is_failed}
use wolochain.Probe.{quoted}
use wolochain.Responses.{LookupResponse}
use wolochain.Challenge.Audit.{first_filled}
use wolochain.Challenge.Audit.Mismatch.{failure_text, counts_as_sent, audit_lookup_mismatch}

-- A lookup that bears a sent transfer out: the transaction was found, has succeeded, has the
-- expected transfer, and carries the memo of the transfer, if it has one.
pub record BearsOut (l : LookupResponse) (memo : Text) : Type 0 where
  pub succeeded : l.succeeded ≡ true
  pub found : l.found ≡ true
  pub matched : l.matched_expected ≡ true
  pub tx_success : l.tx_success ≡ true
  pub same_memo : is_empty (trim_space memo) ≡ false → trim_space l.memo ≡ trim_space memo

first_filled-filled :
    (s t : Text) → is_empty (trim_space t) ≡ false → is_empty (first_filled s t) ≡ false
first_filled-filled s t h = ground arith

trimmed_filled :
    (s t : Text)
    → is_empty (trim_space t) ≡ false
    → is_empty (trim_space (first_filled s t)) ≡ false
trimmed_filled s t h = elim (Bool-cases (is_empty (trim_space s))) [
  | inl blank ↦ rw (blank, trim_space_idem t) h
  | inr filled ↦ rw (filled, trim_space_idem s) filled
]

-- Where no message of the chain is given, none of its conditions holds.
nothing_given :
    (a b c d e f : Bool) (m₁ m₂ m₃ m₄ m₅ m₆ : Text)
    → is_empty m₁ ≡ false
    → is_empty m₂ ≡ false
    → is_empty m₃ ≡ false
    → is_empty m₄ ≡ false
    → is_empty m₅ ≡ false
    → is_empty m₆ ≡ false
    → is_empty (
        if not a
        then m₁
        else if not b
        then m₂
        else if not c
        then m₃
        else if d
        then m₄
        else if e
        then m₅
        else if f
        then m₆
        else [])
      ≡ true
    → (a ≡ true) × (b ≡ true) × (c ≡ true) × (d ≡ false) × (f ≡ false)
nothing_given a b c d e f m₁ m₂ m₃ m₄ m₅ m₆ f₁ f₂ f₃ f₄ f₅ f₆ h = ground arith

sent_and_successful : (a b : Bool) → (a && not b) ≡ false → a ≡ true → b ≡ true
sent_and_successful a b h sent = ground arith

same_unless_blank : (a b : Bool) → (not a && not b) ≡ false → a ≡ false → b ≡ true
same_unless_blank a b h filled = ground arith

pub audit_lookup_mismatch-BearsOut :
    (l : LookupResponse) (s : Status) (memo : Text)
    → is_empty (audit_lookup_mismatch l s memo) ≡ true
    → counts_as_sent s ≡ true
    → BearsOut l memo
unfolding audit_lookup_mismatch text trim_space trim_left trim_right
audit_lookup_mismatch-BearsOut l s memo h sent =
    let (succeeded, found, matched, success, same) =
      nothing_given l.succeeded l.found l.matched_expected _ (is_failed s && l.tx_success) _ _ _ _ _
        (text "stored transfer is failed/rejected but tx succeeded on chain")
        (text "tx memo " ++ (quoted l.memo ++ (text " does not match stored memo " ++ quoted memo)))
        (first_filled-filled l.detail
          (first_filled (failure_text l.failure_code) (text "tx lookup failed"))
          (trimmed_filled (failure_text l.failure_code) (text "tx lookup failed") refl))
        refl refl refl refl refl h in
    record {
      succeeded = succeeded;
      found = found;
      matched = matched;
      tx_success = sent_and_successful (counts_as_sent s) l.tx_success success sent;
      same_memo = λ filled.
          text_eq_sound (trim_space l.memo) (trim_space memo)
            (same_unless_blank (is_empty (trim_space memo)) _ same filled);
    }
