-- ===== src/Challenge/Transfers/Distinct.antt =====
-- Deposits of different players have different identity keys.
use wolochain.Prelude.{
  ℕ, ◌≡◌, refl, sym, ap, ◌∙◌, Bool, true, false, not, ◌&&◌, ◌||◌, List, [], ◌∷◌, ◌++◌, arith,
  is_empty, all, any, All, Bool-cases, inl, inr,
}
use wolochain.Text.{Text, text, text_eq, trim_space, to_lower}
use wolochain.Text.Laws.{text_eq_iff, text_eq_refl}
use wolochain.Challenge.{FundingResult}
use wolochain.Challenge.Memo.Named.{no_bar, IsNamed}
use wolochain.Challenge.Transfers.{
  identity_key, deposit_key, deposit_label, find_label, is_none, check_seen, note_seen,
  check_participants,
}
use wolochain.Challenge.Lines.Sums.{append-empty, is_absent, Distinct}

cons_split : {c d : ℕ} {s t : Text} → c ∷ s ≡ d ∷ t → (c ≡ d) × (s ≡ t)
cons_split h = (cc, cc)

bar_split :
    (s t : Text) {u v : Text}
    → all no_bar s ≡ true
    → all no_bar t ≡ true
    → s ++ (b'|' ∷ u) ≡ t ++ (b'|' ∷ v)
    → (s ≡ t) × (u ≡ v)
bar_split [] [] hs ht h = (refl, (cons_split h).1)
bar_split [] (d ∷ t) hs ht h = (let head = (cons_split h).0 in absurd (ground arith))
bar_split (c ∷ s) [] hs ht h = (let head = (cons_split h).0 in absurd (ground arith))
bar_split (c ∷ s) (d ∷ t) hs ht h =
    let (head, tail) = cons_split h in
    let (same, rest) = bar_split s t (ground arith) (ground arith) tail in
    (rw (head, same) refl, rest)

to_lower-plain : (s : Text) → all no_bar s ≡ true → all no_bar (to_lower s) ≡ true
unfolding to_lower
to_lower-plain [] h = refl
to_lower-plain (c ∷ s) h = (let rest = to_lower-plain s (ground arith) in ground arith)

to_lower-empty : (s : Text) → is_empty (to_lower s) ≡ is_empty s
unfolding to_lower
to_lower-empty [] = refl
to_lower-empty (c ∷ s) = refl

-- Equal keys: the same player.
lowered-plain :
    (s : Text)
    → all no_bar s ≡ true
    → trim_space s ≡ s
    → all no_bar (to_lower (trim_space s)) ≡ true
lowered-plain s plain trimmed = rw trimmed (to_lower-plain s plain)

identity_key-same :
    (side player tx side' player' tx' : Text)
    → IsNamed side player
    → IsNamed side' player'
    → identity_key side player tx ≡ identity_key side' player' tx'
    → (to_lower (trim_space side) ≡ to_lower (trim_space side'))
      × (to_lower (trim_space player) ≡ to_lower (trim_space player'))
unfolding identity_key
identity_key-same side player tx side' player' tx' n n' h =
    let (sides, rest) =
      bar_split (to_lower (trim_space side)) (to_lower (trim_space side'))
        (lowered-plain side n.side_plain n.side_trimmed)
        (lowered-plain side' n'.side_plain n'.side_trimmed) h in
    let (players, _) =
      bar_split (to_lower (trim_space player)) (to_lower (trim_space player'))
        (lowered-plain player n.player_plain n.player_trimmed)
        (lowered-plain player' n'.player_plain n'.player_trimmed) rest in
    (sides, players)

-- Whether a name was seen.
abbrev is_seen : Text → List (Text × Text) → Bool
is_seen name seen = not (is_none (find_label name seen))

cons-is_seen :
    (name other label : Text) (seen : List (Text × Text))
    → is_seen name seen ≡ true
    → is_seen name ((other, label) ∷ seen) ≡ true
cons-is_seen name other label seen h = ground arith

note_seen-is_seen :
    (name other label : Text) (seen : List (Text × Text))
    → is_seen name seen ≡ true
    → is_seen name (note_seen other label seen) ≡ true
note_seen-is_seen name other label seen h =
    elim (Bool-cases (not (is_empty other) && is_none (find_label (to_lower other) seen))) [
      | inl fresh ↦ rw fresh (cons-is_seen name (to_lower other) label seen h)
      | inr known ↦ rw known h
    ]

note_seen-noted :
    (name label : Text) (seen : List (Text × Text))
    → is_empty name ≡ false
    → is_seen (to_lower name) (note_seen name label seen) ≡ true
note_seen-noted name label seen given =
    elim (Bool-cases (is_none (find_label (to_lower name) seen))) [
      | inl fresh ↦ rw (given, fresh) (rw (text_eq_refl (to_lower name)) refl)
      | inr known ↦ note_seen-is_seen (to_lower name) name label seen (ap not known)
    ]

-- Whether another deposit has a name, in either field.
abbrev clashes : (FundingResult → Text) → Text → FundingResult → Bool
clashes field name r =
    not (is_empty (trim_space (field r))) && text_eq (to_lower (trim_space (field r))) name

abbrev side_of : FundingResult → Text
side_of r = r.participant_side

abbrev player_of : FundingResult → Text
player_of r = r.participant_id

seen_error-empty :
    (field name label : Text) (seen : List (Text × Text))
    → is_empty (check_seen field name label seen) ≡ true
    → is_empty name ≡ false
    → is_seen (to_lower name) seen ≡ false
seen_error-empty field name label seen fine given = ground arith

abbrev sides_after : FundingResult → List (Text × Text) → List (Text × Text)
sides_after r = note_seen (trim_space r.participant_side) (deposit_label r)

abbrev players_after : FundingResult → List (Text × Text) → List (Text × Text)
players_after r = note_seen (trim_space r.participant_id) (deposit_label r)

-- What a loop without errors has found of its first deposit, and of the others.
record Unseen (sides players : List (Text × Text)) (r : FundingResult) (rs : List FundingResult)
    : Type 0 where
  side :
      is_empty (
        check_seen
          (text "participant_side")
          (trim_space r.participant_side)
          (deposit_label r)
          sides)
      ≡ true
  player :
      is_empty
        (check_seen (text "participant_id") (trim_space r.participant_id) (deposit_label r) players)
      ≡ true
  rest : is_empty (check_participants (sides_after r sides) (players_after r players) rs) ≡ true

check_participants-Unseen :
    (sides players : List (Text × Text)) (r : FundingResult) (rs : List FundingResult)
    → is_empty (check_participants sides players (r ∷ rs)) ≡ true
    → Unseen sides players r rs
unfolding check_participants
check_participants-Unseen sides players r rs fine =
    let (side, later) =
      append-empty
        (check_seen (text "participant_side") (trim_space r.participant_side) (deposit_label r)
          sides)
        _ fine in
    let (player, rest) =
      append-empty
        (check_seen (text "participant_id") (trim_space r.participant_id) (deposit_label r) players)
        _ later in
    record { side = side; player = player; rest = rest }

not_clashing :
    (field_name name label key : Text) (seen : List (Text × Text))
    → is_empty (check_seen field_name name label seen) ≡ true
    → is_seen key seen ≡ true
    → (not (is_empty name) && text_eq (to_lower name) key) ≡ false
not_clashing field_name name label key seen fine there = elim (Bool-cases (is_empty name)) [
  | inl blank ↦ rw blank refl
  | inr given ↦ elim (Bool-cases (text_eq (to_lower name) key)) [
    | inr other ↦ rw (given, other) refl
    | inl same ↦
        (let unseen = seen_error-empty field_name name label seen fine given in
          let known = rw (← (text_eq_iff (to_lower name) key).0 same) at there in
          absurd (ground arith))
  ]
]

-- No later deposit has a side, or an id, that was seen.
side_unseen :
    (rs : List FundingResult) (sides players : List (Text × Text)) (name : Text)
    → is_empty (check_participants sides players rs) ≡ true
    → is_seen name sides ≡ true
    → any (clashes side_of name) rs ≡ false
side_unseen [] sides players name fine seen = refl
side_unseen (r ∷ rs) sides players name fine seen =
    let u = check_participants-Unseen sides players r rs fine in
    rw (not_clashing _ (trim_space r.participant_side) (deposit_label r) name sides u.side seen) (
      side_unseen rs (sides_after r sides) (players_after r players) name u.rest
        (note_seen-is_seen name (trim_space r.participant_side) (deposit_label r) sides seen))

player_unseen :
    (rs : List FundingResult) (sides players : List (Text × Text)) (name : Text)
    → is_empty (check_participants sides players rs) ≡ true
    → is_seen name players ≡ true
    → any (clashes player_of name) rs ≡ false
player_unseen [] sides players name fine seen = refl
player_unseen (r ∷ rs) sides players name fine seen =
    let u = check_participants-Unseen sides players r rs fine in
    rw (not_clashing _ (trim_space r.participant_id) (deposit_label r) name players u.player seen) (
      player_unseen rs (sides_after r sides) (players_after r players) name u.rest
        (note_seen-is_seen name (trim_space r.participant_id) (deposit_label r) players seen))

-- A deposit that names its player.
abbrev pub NamesPlayer : FundingResult → Type 0
NamesPlayer r = IsNamed r.participant_side r.participant_id

shared_name :
    (a b : Text)
    → to_lower a ≡ to_lower b
    → is_empty a ≡ false
    → (not (is_empty b) && text_eq (to_lower b) (to_lower a)) ≡ true
shared_name a b same given =
    let filled : is_empty b ≡ false =
      sym (to_lower-empty b) ∙ ap is_empty (sym same) ∙ to_lower-empty a ∙ given in
    rw (filled, same, text_eq_refl (to_lower b)) refl

or-apart : (a b : Bool) → a ≡ true → (a || b) ≡ false → ⊥
or-apart a b h h' = ground arith

blank_apart :
    (a b : Text)
    → trim_space a ≡ a
    → trim_space b ≡ b
    → is_empty a && is_empty b ≡ false
    → is_empty (trim_space a) ≡ true
    → is_empty (trim_space b) ≡ false
blank_apart a b ta tb named blank =
    let blank_a = sym (ap is_empty ta) ∙ blank in ap is_empty tb ∙ ground arith

same_key-clash :
    (r s : FundingResult) (rs : List FundingResult)
    → NamesPlayer r
    → NamesPlayer s
    → text_eq (deposit_key r) (deposit_key s) ≡ true
    → (is_empty (trim_space r.participant_side) ≡ false
        → any (clashes side_of (to_lower (trim_space r.participant_side))) (s ∷ rs) ≡ false)
    → (is_empty (trim_space r.participant_id) ≡ false
        → any (clashes player_of (to_lower (trim_space r.participant_id))) (s ∷ rs) ≡ false)
    → ⊥
same_key-clash r s rs n m same side player =
    let (sides, players) =
      identity_key-same r.participant_side r.participant_id r.funding_tx_hash s.participant_side
        s.participant_id s.funding_tx_hash n m
        ((text_eq_iff (deposit_key r) (deposit_key s)).0 same) in
    elim (Bool-cases (is_empty (trim_space r.participant_side))) [
      | inr given ↦ or-apart _ _ (shared_name _ _ sides given) (side given)
      | inl blank ↦
          (let given =
              blank_apart r.participant_side r.participant_id n.side_trimmed n.player_trimmed
                n.named blank in
            or-apart _ _ (shared_name _ _ players given) (player given))
    ]

-- Deposits that share neither a side nor an id have different keys.
key-absent :
    (r : FundingResult) (rs : List FundingResult)
    → NamesPlayer r
    → All NamesPlayer rs
    → (is_empty (trim_space r.participant_side) ≡ false
        → any (clashes side_of (to_lower (trim_space r.participant_side))) rs ≡ false)
    → (is_empty (trim_space r.participant_id) ≡ false
        → any (clashes player_of (to_lower (trim_space r.participant_id))) rs ≡ false)
    → is_absent (deposit_key r) rs ≡ true
key-absent r [] n ns side player = refl
key-absent r (s ∷ rs) n (m, ns) side player =
    let rest =
      key-absent r rs n ns (λ given. (let h = side given in ground arith))
        (λ given. (let h = player given in ground arith)) in
    elim (Bool-cases (text_eq (deposit_key r) (deposit_key s))) [
      | inr other ↦ rw other rest
      | inl same ↦ absurd (same_key-clash r s rs n m same side player)
    ]

-- Deposits that pass the loop over the participants have different keys.
pub check_participants-Distinct :
    (rs : List FundingResult) (sides players : List (Text × Text))
    → All NamesPlayer rs
    → is_empty (check_participants sides players rs) ≡ true
    → Distinct rs
check_participants-Distinct [] sides players named fine = tt
check_participants-Distinct (r ∷ rs) sides players (n, ns) fine =
    let u = check_participants-Unseen sides players r rs fine in
    (
      key-absent r rs n ns
          (λ given.
            side_unseen rs (sides_after r sides) (players_after r players) _ u.rest
              (note_seen-noted (trim_space r.participant_side) (deposit_label r) sides given))
          (λ given.
            player_unseen rs (sides_after r sides) (players_after r players) _ u.rest
              (note_seen-noted (trim_space r.participant_id) (deposit_label r) players given)),
      check_participants-Distinct rs (sides_after r sides) (players_after r players) ns u.rest,
    )
