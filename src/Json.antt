-- ===== src/Json.antt =====
-- What `encoding/json` makes of a text that it writes and reads back: the state files of
-- cmd/wolochaind/cmd/settlement.go and settlement_challenge.go go through `json.MarshalIndent` and
-- `json.Unmarshal`. A byte that does not belong to a UTF-8 sequence comes back as U+FFFD; every
-- other byte comes back as it is.
pub mod Requests
pub mod Runs
pub mod Challenges
pub mod Plain
use wolochain.Prelude.{
  ℕ, zero, suc, Bool, true, false, ◌&&◌, ◌||◌, List, [], ◌∷◌, Option, none, some, ltb, leb, ◌==◌,
  if◌then◌else◌,
}
use wolochain.Text.{Text}

-- Whether the next byte of a text lies between two bounds.
abbrev next_in : ℕ → ℕ → Text → Bool
next_in low high [] = false
next_in low high (c ∷ s) = leb low c && leb c high

abbrev behind : Text → Text
behind [] = []
behind (c ∷ s) = s

-- A continuation byte comes next.
abbrev continues : Text → Bool
continues = next_in 128 191

-- The second byte that a first byte of a longer sequence allows (`utf8.DecodeRuneInString`).
abbrev second_fits : ℕ → Text → Bool
second_fits c s =
    if c == 224
    then next_in 160 191 s
    else if c == 237
    then next_in 128 159 s
    else if c == 240
    then next_in 144 191 s
    else if c == 244
    then next_in 128 143 s
    else continues s

-- The number of bytes that belong to the first byte of a text, if it starts a UTF-8 sequence.
unfoldable pub rune_tail : ℕ → Text → Option ℕ
rune_tail c s =
    let two = second_fits c s in
    let three = two && continues (behind s) in
    let four = three && continues (behind (behind s)) in
    if ltb c 128
    then some 0
    else if ltb c 194
    then none
    else if ltb c 224
    then (if two then some 1 else none)
    else if ltb c 240
    then (if three then some 2 else none)
    else if ltb c 245
    then (if four then some 3 else none)
    else none

-- The bytes that are left of a sequence that was found are kept.
unfoldable pub json_bytes : ℕ → Text → Text
json_bytes kept [] = []
json_bytes (suc kept) (c ∷ s) = c ∷ json_bytes kept s
json_bytes zero (c ∷ s) = elim (rune_tail c s) [
  | none ↦ 239 ∷ 191 ∷ 189 ∷ json_bytes 0 s
  | some more ↦ c ∷ json_bytes more s
]

abbrev pub json_text : Text → Text
json_text = json_bytes 0
