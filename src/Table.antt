-- ===== src/Table.antt =====
-- A directory of state files or of lock files, as an association list keyed by the id that the
-- file's name carries.
use wolochain.Prelude.{
  ◌≡◌, ◌↔◌, refl, Bool, true, false, List, [], ◌∷◌, Option, none, some, arith, if◌then◌else◌,
}
use wolochain.Text.{Text, text_eq}
use wolochain.Text.Laws.{text_eq_iff}

-- Request files, run files, challenge files and their locks stand in directories of their own.
pub data Key : Type 0 where
  request_key run_key challenge_key : Text → Key

unfoldable pub key_eq : Key → Key → Bool
key_eq (request_key a) (request_key b) = text_eq a b
key_eq (run_key a) (run_key b) = text_eq a b
key_eq (challenge_key a) (challenge_key b) = text_eq a b
key_eq (request_key a) (run_key b) = false
key_eq (request_key a) (challenge_key b) = false
key_eq (run_key a) (request_key b) = false
key_eq (run_key a) (challenge_key b) = false
key_eq (challenge_key a) (request_key b) = false
key_eq (challenge_key a) (run_key b) = false

key_eq_sound : (a b : Key) → key_eq a b ≡ true → a ≡ b
unfolding key_eq
key_eq_sound (request_key a) (request_key b) h = cc ((text_eq_iff a b).0 h)
key_eq_sound (run_key a) (run_key b) h = cc ((text_eq_iff a b).0 h)
key_eq_sound (challenge_key a) (challenge_key b) h = cc ((text_eq_iff a b).0 h)
key_eq_sound (request_key a) (run_key b) h = cc
key_eq_sound (request_key a) (challenge_key b) h = cc
key_eq_sound (run_key a) (request_key b) h = cc
key_eq_sound (run_key a) (challenge_key b) h = cc
key_eq_sound (challenge_key a) (request_key b) h = cc
key_eq_sound (challenge_key a) (run_key b) h = cc

pub key_eq_refl : (a : Key) → key_eq a a ≡ true
unfolding key_eq
key_eq_refl (request_key a) = (text_eq_iff a a).1 refl
key_eq_refl (run_key a) = (text_eq_iff a a).1 refl
key_eq_refl (challenge_key a) = (text_eq_iff a a).1 refl

pub key_eq_iff : (a b : Key) → (key_eq a b ≡ true) ↔ (a ≡ b)
key_eq_iff a b = (key_eq_sound a b, λ e. rw e (key_eq_refl b))

abbrev pub Table : Type 0 → Type 0
Table V = List (Key × V)

module _ {V : Type 0} where
  unfoldable pub find : Key → Table V → Option V
  find k [] = none
  find k ((j, v) ∷ t) = if key_eq j k then some v else find k t

  unfoldable pub remove : Key → Table V → Table V
  remove k [] = []
  remove k ((j, v) ∷ t) = let rest = remove k t in if key_eq j k then rest else (j, v) ∷ rest

  unfoldable pub put : Key → V → Table V → Table V
  put k v t = (k, v) ∷ remove k t

module _ {V : Type 0} where
  pub find-remove :
      (k j : Key) (t : Table V) → find j (remove k t) ≡ (if key_eq k j then none else find j t)
  unfolding find remove
  find-remove k j [] = ground arith
  find-remove k j ((i, v) ∷ t) =
      ground (arith, find-remove k j t, key_eq_iff k j, key_eq_iff i j, key_eq_iff i k)

  pub find-put :
      (k j : Key) (v : V) (t : Table V)
      → find j (put k v t) ≡ (if key_eq k j then some v else find j t)
  unfolding find put
  find-put k j v t = ground (arith, find-remove k j t)
