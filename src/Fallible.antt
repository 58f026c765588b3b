-- ===== src/Fallible.antt =====
-- Go's pairs of a value and an error: a value, or the message of the error.
use wolochain.Prelude.{◌≡◌, ◌⊎◌, inl, inr, refl, Bool, true, false}
use wolochain.Text.{Text}

pub data Fallible {ℓ} (Value : Type ℓ) : Type ℓ where
  ok : Value → Fallible Value
  fail : Text → Fallible Value

-- `if err != nil { return err }` between two steps, with the value of the first, and without.
infixl 5 ◌>>=◌ ◌>>◌
abbrev pub ◌>>=◌ : {A B : Type 0} → Fallible A → (A → Fallible B) → Fallible B
fail message >>= next = fail message
ok value >>= next = next value

abbrev pub ◌>>◌ : {B : Type 0} → Fallible (Unit {0}) → Fallible B → Fallible B
fail message >> next = fail message
ok _ >> next = next

-- `if !test { return errors.New(message) }`
abbrev pub require : Bool → Text → Fallible (Unit {0})
require false message = fail message
require true message = ok tt

pub ok-injective {ℓ} : {A : Type ℓ} {x y : A} → ok x ≡ ok y → x ≡ y
ok-injective same = cc

pub fail-ne-ok {ℓ} : {A : Type ℓ} {message : Text} {x : A} → fail message ≡ ok x → ⊥
fail-ne-ok same = cc

pub Fallible-cases {ℓ} :
    {A : Type ℓ} (answer : Fallible A)
    → ((x : A) × (answer ≡ ok x)) ⊎ ((message : Text) × (answer ≡ fail message))
Fallible-cases (fail message) = inr (message, refl)
Fallible-cases (ok x) = inl (x, refl)

-- Two steps that succeed: each of them does.
pub >>=-eq-ok :
    {A B : Type 0} (first : Fallible A) (next : A → Fallible B) {y : B}
    → first >>= next ≡ ok y
    → (x : A) × (first ≡ ok x) × (next x ≡ ok y)
>>=-eq-ok first next done = elim (Fallible-cases first) [
  | inl (x, found) ↦ (x, found, rw found at done)
  | inr (message, failed) ↦ absurd (fail-ne-ok (rw failed at done))
]

pub require->>-eq-ok :
    {B : Type 0} (test : Bool) (message : Text) (next : Fallible B) {y : B}
    → require test message >> next ≡ ok y
    → (test ≡ true) × (next ≡ ok y)
require->>-eq-ok false message next done = absurd (fail-ne-ok done)
require->>-eq-ok true message next done = (refl, done)
