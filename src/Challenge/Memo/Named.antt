-- ===== src/Challenge/Memo/Named.antt =====
-- Whom a deposit names: a side or an id, without the bar that parts an identity key.
use wolochain.Prelude.{
  ℕ, ◌≡◌, refl, Bool, true, false, not, ◌&&◌, ◌||◌, List, [], ◌∷◌, arith, ◌==◌, is_empty, all,
  Bool-cases, inl, inr,
}
use wolochain.Text.{Text, text, trim_space, trim_left, trim_right, has_prefix, is_alphanumeric}
use wolochain.Text.Laws.{trim_space_idem}
use wolochain.Fallible.{ok, >>=-eq-ok, require->>-eq-ok, ok-injective}
use wolochain.Request.{matches_request_id, matches_source_event, is_event_char}
use wolochain.Query.{parse_query, get_value}
use wolochain.Responses.{Transfer, LookupResponse}
use wolochain.Run.Head.{normalize_metadata_id}
use wolochain.Challenge.{FundingResult, memo_prefix}
use wolochain.Challenge.Memo.Split.{split_funding-inv}
use wolochain.Challenge.Memo.{
  MemoIds, is_token_char, matches_side, first_value, optional_id, optional_run_id, read_memo_ids,
  check_memo_ids, parse_memo, parse_funding, explain_query, trim_prefix,
}

abbrev pub no_bar : ℕ → Bool
no_bar c = not (c == b'|')

-- A trimmed side and a trimmed id, without a bar, and not both empty.
pub record IsNamed (side player : Text) : Type 0 where
  pub side_plain : all no_bar side ≡ true
  pub player_plain : all no_bar player ≡ true
  pub side_trimmed : trim_space side ≡ side
  pub player_trimmed : trim_space player ≡ player
  pub named : is_empty side && is_empty player ≡ false

all-imp :
    (p q : ℕ → Bool)
    → ((c : ℕ) → p c ≡ true → q c ≡ true)
    → (s : Text) → all p s ≡ true
    → all q s ≡ true
all-imp p q imp [] h = refl
all-imp p q imp (c ∷ s) h =
    let here = imp c (ground arith) in let rest = all-imp p q imp s (ground arith) in ground arith

matches_side-plain : (s : Text) → matches_side s ≡ true → all no_bar s ≡ true
unfolding matches_side
matches_side-plain [] h = refl
matches_side-plain (c ∷ s) h =
    let rest =
      all-imp (λ d. is_alphanumeric d || is_token_char d) no_bar (λ d k. ground arith) s
        (ground arith) in
    ground arith

matches_source_event-plain : (s : Text) → matches_source_event s ≡ true → all no_bar s ≡ true
unfolding matches_source_event
matches_source_event-plain [] h = refl
matches_source_event-plain (c ∷ s) h =
    let rest = all-imp is_event_char no_bar (λ d k. ground arith) s (ground arith) in ground arith

pub trimmed_nil : trim_space [] ≡ []
unfolding trim_space trim_left trim_right
trimmed_nil = refl

pub first_value-trimmed :
    (keys : List Text) (pairs : List (Text × Text))
    → trim_space (first_value keys pairs) ≡ first_value keys pairs
unfolding first_value
first_value-trimmed [] pairs = trimmed_nil
first_value-trimmed (key ∷ keys) pairs =
    elim (Bool-cases (is_empty (trim_space (get_value key pairs)))) [
      | inl blank ↦ rw (blank, first_value) (first_value-trimmed keys pairs)
      | inr given ↦ rw (given, first_value) (trim_space_idem (get_value key pairs))
    ]

normalize_metadata_id-event :
    (field s id : Text)
    → normalize_metadata_id field s 128 matches_source_event ≡ ok id
    → (all no_bar id ≡ true) × (trim_space id ≡ id)
unfolding normalize_metadata_id
normalize_metadata_id-event field s id h = elim (Bool-cases (is_empty (trim_space s))) [
  | inl blank ↦
      let same : [] ≡ id = ok-injective (rw (blank, normalize_metadata_id) at h) in
      rw (← same) (refl, trimmed_nil)
  | inr given ↦ elim (Bool-cases (matches_source_event (trim_space s))) [
    | inr odd ↦ absurd (ground arith)
    | inl fine ↦
        let same : trim_space s ≡ id = ground arith in
        rw (← same) (matches_source_event-plain (trim_space s) fine, trim_space_idem s)
  ]
]

optional_id-event :
    (field s id : Text)
    → optional_id field s 128 matches_source_event ≡ ok id
    → (all no_bar id ≡ true) × (trim_space id ≡ id)
optional_id-event field s id h = elim (Bool-cases (is_empty s)) [
  | inl blank ↦ let same : [] ≡ id = ok-injective (rw blank at h) in rw (← same) (refl, trimmed_nil)
  | inr given ↦ normalize_metadata_id-event field s id (rw given at h)
]

-- A side that is empty or matches its pattern has no bar.
side_plain : (s : Text) → (is_empty s || matches_side s) ≡ true → all no_bar s ≡ true
side_plain [] h = refl
side_plain (c ∷ s) h = matches_side-plain (c ∷ s) (ground arith)

check_memo_ids-IsNamed :
    (app run challenge event side player : Text) (ids : MemoIds)
    → trim_space side ≡ side
    → check_memo_ids app run challenge event side player ≡ ok ids
    → IsNamed ids.participant_side ids.participant_id
unfolding check_memo_ids
check_memo_ids-IsNamed app run challenge event side player ids trimmed h =
    let (_, h₁) = require->>-eq-ok (not (is_empty app)) _ _ h in
    let (_, _, h₂) =
      >>=-eq-ok (normalize_metadata_id (text "source_app") app 64 matches_request_id) _ h₁ in
    let (_, _, h₃) = >>=-eq-ok (optional_run_id run) _ h₂ in
    let (challenge_id, _, h₄) =
      >>=-eq-ok (optional_id (text "challenge_id") challenge 128 matches_source_event) _ h₃ in
    let (event_id, _, h₅) =
      >>=-eq-ok (optional_id (text "source_event_id") event 128 matches_source_event) _ h₄ in
    let (_, h₆) = require->>-eq-ok (not (is_empty challenge_id && is_empty event_id)) _ _ h₅ in
    let (fine, h₇) = require->>-eq-ok (is_empty side || matches_side side) _ _ h₆ in
    let (id, read, h₈) =
      >>=-eq-ok (optional_id (text "participant_id") player 128 matches_source_event) _ h₇ in
    let (given, h₉) = require->>-eq-ok (not (is_empty side && is_empty id)) _ _ h₈ in
    let (plain, id_trimmed) = optional_id-event (text "participant_id") player id read in
    rw (← ok-injective h₉) (record {
      side_plain = side_plain side fine;
      player_plain = plain;
      side_trimmed = trimmed;
      player_trimmed = id_trimmed;
      named = ground arith;
    })

read_memo_ids-IsNamed :
    (pairs : List (Text × Text)) (ids : MemoIds)
    → read_memo_ids pairs ≡ ok ids
    → IsNamed ids.participant_side ids.participant_id
unfolding read_memo_ids
read_memo_ids-IsNamed pairs ids h =
    check_memo_ids-IsNamed _ _ _ _ (first_value (text "participant_side" ∷ text "side" ∷ []) pairs)
      _ ids (first_value-trimmed (text "participant_side" ∷ text "side" ∷ []) pairs) h

-- A deposit that was read names its player.
parse_memo-IsNamed :
    (transfer : Transfer) (lookup : LookupResponse) (escrow_address memo : Text) (r : FundingResult)
    → parse_memo transfer lookup escrow_address memo ≡ ok r
    → IsNamed r.participant_side r.participant_id
unfolding parse_memo
parse_memo-IsNamed transfer lookup escrow_address memo r h =
    let (_, h₁) = require->>-eq-ok (has_prefix memo memo_prefix) _ _ h in
    let (pairs, _, h₂) =
      >>=-eq-ok (explain_query (parse_query (trim_prefix memo memo_prefix))) _ h₁ in
    let (ids, read, h₃) = >>=-eq-ok (read_memo_ids pairs) _ h₂ in
    let (_, side, player) = split_funding-inv transfer lookup escrow_address memo pairs ids r h₃ in
    rw (side, player) (read_memo_ids-IsNamed pairs ids read)

pub parse_funding-IsNamed :
    (transfer : Transfer) (lookup : LookupResponse) (escrow_address : Text) (r : FundingResult)
    → parse_funding transfer lookup escrow_address ≡ ok r
    → IsNamed r.participant_side r.participant_id
unfolding parse_funding
parse_funding-IsNamed transfer lookup escrow_address r h =
    parse_memo-IsNamed transfer lookup escrow_address (trim_space lookup.memo) r h
