-- ===== src/Challenge/Audit/Checks.antt =====
-- About the checks of cmd/wolochaind/cmd/settlement_challenge_audit.go.
use wolochain.Prelude.{
  ◌≡◌, refl, Bool, true, List, [], ◌∷◌, ◌++◌, arith, &&-eq-true, Bool-cases, inl, inr,
}
use wolochain.Text.{Text, text_eq, trim_space}
use wolochain.Text.Laws.{text_eq_sound}
use wolochain.Challenge.Audit.{AuditCode, AuditCheck, audit_check, equal_check, checks_pass}

pub checks_pass-split :
    (c : AuditCheck) (cs : List AuditCheck)
    → checks_pass (c ∷ cs) ≡ true
    → (c.passed ≡ true) × (checks_pass cs ≡ true)
unfolding checks_pass
checks_pass-split c cs h = &&-eq-true c.passed (checks_pass cs) h

pub checks_pass-++ :
    (cs ds : List AuditCheck)
    → checks_pass (cs ++ ds) ≡ true
    → (checks_pass cs ≡ true) × (checks_pass ds ≡ true)
unfolding checks_pass
checks_pass-++ [] ds h = (refl, h)
checks_pass-++ (c ∷ cs) ds h =
    let (first, rest) = &&-eq-true c.passed (checks_pass (cs ++ ds)) h in
    let (left, right) = checks_pass-++ cs ds rest in (rw first left, right)

pub audit_check-passed :
    (name : Text) (b : Bool) (why : AuditCode) (detail expected actual : Text)
    → (audit_check name b why detail expected actual).passed ≡ b
unfolding audit_check
audit_check-passed name b why detail expected actual = refl

-- A check for equality passes only on equal texts, up to white space around them.
pub equal_check-passed :
    (name : Text) (why : AuditCode) (expected actual : Text)
    → (equal_check name why expected actual).passed ≡ true
    → trim_space expected ≡ trim_space actual
unfolding equal_check audit_check
equal_check-passed name why expected actual h =
    elim (Bool-cases (text_eq (trim_space expected) (trim_space actual))) [
      | inl same ↦ text_eq_sound (trim_space expected) (trim_space actual) same
      | inr differs ↦ absurd (ground arith)
    ]
