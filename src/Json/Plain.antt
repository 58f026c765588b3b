-- ===== src/Json/Plain.antt =====
-- About the texts that come back from a state file as they were written.
use wolochain.Prelude.{
  ◌≡◌, refl, ap, true, [], ◌∷◌, arith, ltb, all, is_empty, some, Option-cases, inl, inr, ℕ,
}
use wolochain.Text.{Text}
use wolochain.Json.{rune_tail, json_bytes, json_text}

rune_tail-ascii : (c : ℕ) (s : Text) → ltb c 128 ≡ true → rune_tail c s ≡ some 0
unfolding rune_tail
rune_tail-ascii c s h = rw h

-- ASCII comes back as it is.
pub json_text-ascii : (s : Text) → all (λ c. ltb c 128) s ≡ true → json_text s ≡ s
unfolding json_bytes
json_text-ascii [] h = refl
json_text-ascii (c ∷ s) h =
    let rest = json_text-ascii s (ground arith) in
    rw (rune_tail-ascii c s (ground arith), json_bytes) (ap (λ t. c ∷ t) rest)

-- Only an empty text comes back empty.
pub json_text-is_empty : (s : Text) → is_empty (json_text s) ≡ is_empty s
unfolding json_bytes
json_text-is_empty [] = refl
json_text-is_empty (c ∷ s) = elim (Option-cases (rune_tail c s)) [
  | inl odd ↦ rw (odd, json_bytes) refl
  | inr (more, fits) ↦ rw (fits, json_bytes) refl
]
