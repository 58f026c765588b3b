-- ===== src/Challenge/Memo/Said.antt =====
-- What a deposit takes from its memo.
use wolochain.Prelude.{
  ℕ, ◌<◌, ◌≡◌, refl, sym, ap, ◌∙◌, Bool, true, false, not, ◌&&◌, ◌||◌, List, [], ◌∷◌, some, arith,
  is_empty, Bool-cases, Option-cases, inl, inr,
}
use wolochain.Text.{Text, text, text_eq, trim_space, has_prefix}
use wolochain.Text.Laws.{text_eq_sound}
use wolochain.Decimal.{parse_uint, u64_mod}
use wolochain.Decimal.RoundTrip.{parse_uint-format_uint, parse_uint-lt}
use wolochain.Fallible.{ok, Fallible-cases, fail-ne-ok, >>=-eq-ok, require->>-eq-ok, ok-injective}
use wolochain.Request.{matches_request_id, matches_source_event}
use wolochain.Query.{parse_query}
use wolochain.Responses.{Transfer, LookupResponse}
use wolochain.Run.Head.{normalize_metadata_id, validate_run_id}
use wolochain.Challenge.{FundingResult, memo_prefix}
use wolochain.Challenge.Memo.{
  MemoIds, matches_side, first_value, optional_id, optional_run_id, parse_memo_amount,
  parse_transfer_amount, check_memo_ids, read_memo_ids, split_funding, declared_total,
  explain_query, trim_prefix, parse_memo, parse_funding,
}
use wolochain.Challenge.Memo.Named.{first_value-trimmed}

-- What a memo says under the first of several keys that has a value.
abbrev pub said : List (Text × Text) → List Text → Text
said pairs keys = first_value keys pairs

abbrev pub said_total : List (Text × Text) → Text
said_total pairs =
    said pairs (text "total_funded_uwolo" ∷ text "total_uwolo" ∷ text "total" ∷ text "t" ∷ [])

-- The names of a deposit are those of its memo.
record SaysNames (pairs : List (Text × Text)) (ids : MemoIds) : Type 0 where
  source_app : ids.source_app ≡ said pairs (text "source_app" ∷ text "app" ∷ [])
  run :
      ids.settlement_run_id
      ≡ said pairs (text "settlement_run_id" ∷ text "run_id" ∷ text "sid" ∷ [])
  challenge : ids.challenge_id ≡ said pairs (text "challenge_id" ∷ text "cid" ∷ [])
  event :
      ids.source_event_id ≡ said pairs (text "source_event_id" ∷ text "event_id" ∷ text "eid" ∷ [])
  side : ids.participant_side ≡ said pairs (text "participant_side" ∷ text "side" ∷ [])
  player : ids.participant_id ≡ said pairs (text "participant_id" ∷ text "pid" ∷ [])

-- A deposit says what its memo says: behind the prefix of the convention stands a query whose values
-- are the amounts and the names of the deposit.
pub record SaysDeposit (memo : Text) (r : FundingResult) : Type 0 where
  pub pairs : List (Text × Text)
  pub prefixed : has_prefix memo memo_prefix ≡ true
  pub query : parse_query (trim_prefix memo memo_prefix) ≡ ok pairs
  pub wager :
      parse_uint r.wager_uwolo
      ≡ parse_uint (trim_space (said pairs (text "wager_uwolo" ∷ text "w" ∷ [])))
  pub guarantee :
      parse_uint r.guarantee_uwolo
      ≡ parse_uint (trim_space (said pairs (text "guarantee_uwolo" ∷ text "g" ∷ [])))
  pub total :
      is_empty (trim_space (said_total pairs)) ≡ false
      → r.total_funded_uwolo ≡ trim_space (said_total pairs)
  pub source_app : r.source_app ≡ said pairs (text "source_app" ∷ text "app" ∷ [])
  pub run :
      r.settlement_run_id ≡ said pairs (text "settlement_run_id" ∷ text "run_id" ∷ text "sid" ∷ [])
  pub challenge : r.challenge_id ≡ said pairs (text "challenge_id" ∷ text "cid" ∷ [])
  pub event :
      r.source_event_id ≡ said pairs (text "source_event_id" ∷ text "event_id" ∷ text "eid" ∷ [])
  pub side : r.participant_side ≡ said pairs (text "participant_side" ∷ text "side" ∷ [])
  pub player : r.participant_id ≡ said pairs (text "participant_id" ∷ text "pid" ∷ [])

-- The verdict on a deposit changes nothing of what its memo says.
pub SaysDeposit-judged :
    {memo : Text} {r : FundingResult} (verdict : Bool) (message : Text)
    → SaysDeposit memo r
    → SaysDeposit memo (record r { succeeded = verdict; detail = message })
SaysDeposit-judged verdict message deposit = record {
  pairs = deposit.pairs;
  prefixed = deposit.prefixed;
  query = deposit.query;
  wager = deposit.wager;
  guarantee = deposit.guarantee;
  total = deposit.total;
  source_app = deposit.source_app;
  run = deposit.run;
  challenge = deposit.challenge;
  event = deposit.event;
  side = deposit.side;
  player = deposit.player;
}

nil_if_empty : (s : Text) → is_empty s ≡ true → [] ≡ s
nil_if_empty [] h = refl
nil_if_empty (c ∷ s) h = absurd (ground arith)

normalize_metadata_id-trim :
    (field s : Text) (max_len : ℕ) (matches : Text → Bool) (id : Text)
    → normalize_metadata_id field s max_len matches ≡ ok id
    → id ≡ trim_space s
unfolding normalize_metadata_id
normalize_metadata_id-trim field s max_len matches id h =
    elim (Bool-cases (is_empty (trim_space s))) [
      | inl blank ↦
          sym (ok-injective (rw (blank, normalize_metadata_id) at h))
          ∙ nil_if_empty (trim_space s) blank
      | inr given ↦ ground arith
    ]

optional_id-same :
    (field s : Text) (max_len : ℕ) (matches : Text → Bool) (id : Text)
    → trim_space s ≡ s
    → optional_id field s max_len matches ≡ ok id
    → id ≡ s
optional_id-same field s max_len matches id trimmed h = elim (Bool-cases (is_empty s)) [
  | inl blank ↦ sym (ok-injective (rw blank at h)) ∙ nil_if_empty s blank
  | inr given ↦ normalize_metadata_id-trim field s max_len matches id (rw given at h) ∙ trimmed
]

optional_run_id-same : (s id : Text) → optional_run_id s ≡ ok id → id ≡ s
optional_run_id-same s id h = elim (Bool-cases (is_empty s)) [
  | inl blank ↦ sym (ok-injective (rw blank at h)) ∙ nil_if_empty s blank
  | inr given ↦ elim (Option-cases (validate_run_id s)) [
    | inl fine ↦ sym (ok-injective (rw (given, fine) at h))
    | inr (e, refused) ↦ absurd (ground arith)
  ]
]

read_memo_ids-SaysNames :
    (pairs : List (Text × Text)) (ids : MemoIds)
    → read_memo_ids pairs ≡ ok ids
    → SaysNames pairs ids
unfolding read_memo_ids check_memo_ids
read_memo_ids-SaysNames pairs ids h =
    let app = said pairs (text "source_app" ∷ text "app" ∷ []) in
    let run = said pairs (text "settlement_run_id" ∷ text "run_id" ∷ text "sid" ∷ []) in
    let challenge = said pairs (text "challenge_id" ∷ text "cid" ∷ []) in
    let event = said pairs (text "source_event_id" ∷ text "event_id" ∷ text "eid" ∷ []) in
    let side = said pairs (text "participant_side" ∷ text "side" ∷ []) in
    let player = said pairs (text "participant_id" ∷ text "pid" ∷ []) in
    let (_, h₁) = require->>-eq-ok (not (is_empty app)) _ _ h in
    let (app_id, app_read, h₂) =
      >>=-eq-ok (normalize_metadata_id (text "source_app") app 64 matches_request_id) _ h₁ in
    let (run_id, run_read, h₃) = >>=-eq-ok (optional_run_id run) _ h₂ in
    let (challenge_id, challenge_read, h₄) =
      >>=-eq-ok (optional_id (text "challenge_id") challenge 128 matches_source_event) _ h₃ in
    let (event_id, event_read, h₅) =
      >>=-eq-ok (optional_id (text "source_event_id") event 128 matches_source_event) _ h₄ in
    let (_, h₆) = require->>-eq-ok (not (is_empty challenge_id && is_empty event_id)) _ _ h₅ in
    let (_, h₇) = require->>-eq-ok (is_empty side || matches_side side) _ _ h₆ in
    let (id, read, h₈) =
      >>=-eq-ok (optional_id (text "participant_id") player 128 matches_source_event) _ h₇ in
    let (_, h₉) = require->>-eq-ok (not (is_empty side && is_empty id)) _ _ h₈ in
    rw (← ok-injective h₉) (record {
      source_app =
          normalize_metadata_id-trim _ app 64 matches_request_id app_id app_read
          ∙ first_value-trimmed (text "source_app" ∷ text "app" ∷ []) pairs;
      run = optional_run_id-same run run_id run_read;
      challenge =
          optional_id-same _ challenge 128 matches_source_event challenge_id
            (first_value-trimmed (text "challenge_id" ∷ text "cid" ∷ []) pairs) challenge_read;
      event =
          optional_id-same _ event 128 matches_source_event event_id
            (first_value-trimmed (text "source_event_id" ∷ text "event_id" ∷ text "eid" ∷ []) pairs)
            event_read;
      side = refl;
      player =
          optional_id-same _ player 128 matches_source_event id
            (first_value-trimmed (text "participant_id" ∷ text "pid" ∷ []) pairs) read;
    })

-- An amount as it is written into the deposit is read as the memo's.
parse_memo_amount-said :
    (field raw : Text) (n : ℕ)
    → parse_memo_amount field raw ≡ ok n
    → (parse_uint (trim_space raw) ≡ some n) × (n < u64_mod)
unfolding parse_memo_amount
parse_memo_amount-said field raw n h = elim (Option-cases (parse_uint (trim_space raw))) [
  | inl none_read ↦ absurd (ground arith)
  | inr (m, is_read) ↦
      let fits = parse_uint-lt (trim_space raw) m is_read in
      let same : m ≡ n = ground arith in (is_read ∙ ap (λ x. some x) same, omega arith)
]

declared_same : (s t : Text) → (is_empty s || text_eq s t) ≡ true → is_empty s ≡ false → t ≡ s
declared_same s t h filled =
    let same : text_eq s t ≡ true = ground arith in sym (text_eq_sound s t same)

explained :
    (memo : Text) (pairs : List (Text × Text))
    → explain_query (parse_query memo) ≡ ok pairs
    → parse_query memo ≡ ok pairs
explained memo pairs h = elim (Fallible-cases (parse_query memo)) [
  | inl (read, parsed) ↦ parsed ∙ ap (λ x. ok x) (ok-injective (rw parsed at h))
  | inr (e, refused) ↦ absurd (fail-ne-ok (rw refused at h))
]

split_funding-SaysDeposit :
    (transfer : Transfer) (lookup : LookupResponse) (escrow_address memo : Text)
    (pairs : List (Text × Text)) (ids : MemoIds) (r : FundingResult)
    → has_prefix memo memo_prefix ≡ true
    → parse_query (trim_prefix memo memo_prefix) ≡ ok pairs
    → SaysNames pairs ids
    → split_funding transfer lookup escrow_address memo pairs ids ≡ ok r
    → SaysDeposit memo r
unfolding split_funding
split_funding-SaysDeposit transfer lookup escrow_address memo pairs ids r prefixed query names h =
    let (wager, wager_read, h₁) =
      >>=-eq-ok
        (parse_memo_amount (text "wager_uwolo") (said pairs (text "wager_uwolo" ∷ text "w" ∷ []))) _
        h in
    let (guarantee, guarantee_read, h₂) =
      >>=-eq-ok
        (parse_memo_amount (text "guarantee_uwolo")
          (said pairs (text "guarantee_uwolo" ∷ text "g" ∷ [])))
        _ h₁ in
    let (total, total_read, h₃) =
      >>=-eq-ok (parse_transfer_amount (trim_space transfer.amount)) _ h₂ in
    let (declared, h₄) = require->>-eq-ok _ _ _ h₃ in
    let (same, h₅) = require->>-eq-ok _ _ _ h₄ in
    let (wager_said, wager_fits) = parse_memo_amount-said _ _ wager wager_read in
    let (guarantee_said, guarantee_fits) = parse_memo_amount-said _ _ guarantee guarantee_read in
    let built = ok-injective h₅ in
    rw (← built) (record {
      pairs = pairs;
      prefixed = prefixed;
      query = query;
      wager = parse_uint-format_uint wager wager_fits ∙ sym wager_said;
      guarantee = parse_uint-format_uint guarantee guarantee_fits ∙ sym guarantee_said;
      total =
          declared_same (trim_space (declared_total pairs)) (trim_space transfer.amount) declared;
      source_app = names.source_app;
      run = names.run;
      challenge = names.challenge;
      event = names.event;
      side = names.side;
      player = names.player;
    })

parse_memo-SaysDeposit :
    (transfer : Transfer) (lookup : LookupResponse) (escrow_address memo : Text) (r : FundingResult)
    → parse_memo transfer lookup escrow_address memo ≡ ok r
    → SaysDeposit memo r
unfolding parse_memo
parse_memo-SaysDeposit transfer lookup escrow_address memo r h =
    let (prefixed, h₁) = require->>-eq-ok (has_prefix memo memo_prefix) _ _ h in
    let (pairs, read, h₂) =
      >>=-eq-ok (explain_query (parse_query (trim_prefix memo memo_prefix))) _ h₁ in
    let (ids, named, h₃) = >>=-eq-ok (read_memo_ids pairs) _ h₂ in
    split_funding-SaysDeposit transfer lookup escrow_address memo pairs ids r prefixed
      (explained (trim_prefix memo memo_prefix) pairs read)
      (read_memo_ids-SaysNames pairs ids named) h₃

-- A deposit says what its memo says. If the memo of a looked-up transaction is read as a deposit,
-- then it starts with the prefix of the convention, and behind it stands a query; the wager of the
-- deposit is the number under wager_uwolo or w, its guarantee the number under guarantee_uwolo or g,
-- and its total what stands under total_funded_uwolo, total_uwolo, total or t, if anything does; the
-- source app, the run, the challenge, the event, the side and the participant are the values under
-- their keys. Of several keys the first one counts whose value is not blank.
pub parse_funding-SaysDeposit :
    (transfer : Transfer) (lookup : LookupResponse) (escrow_address : Text) (r : FundingResult)
    → parse_funding transfer lookup escrow_address ≡ ok r
    → SaysDeposit (trim_space lookup.memo) r
unfolding parse_funding
parse_funding-SaysDeposit transfer lookup escrow_address r h =
    parse_memo-SaysDeposit transfer lookup escrow_address (trim_space lookup.memo) r h
