-- ===== src/Challenge/Memo.antt =====
-- The memo of a deposit: `parseChallengeFundingResult` and `parseChallengeMemoAmount` of
-- cmd/wolochaind/cmd/settlement_challenge.go, with the patterns of that file.
pub mod Split
pub mod Named
pub mod Said
use wolochain.Prelude.{
  ℕ, suc, Bool, true, false, not, ◌&&◌, ◌||◌, List, [], ◌∷◌, ◌++◌, Option, none, some, ltb, leb,
  ◌==◌, if◌then◌else◌, is_empty, length, all,
}
use wolochain.Text.{
  Text, text, text_eq, trim_space, has_prefix, is_alphanumeric, is_lower, is_digit,
}
use wolochain.Decimal.{parse_uint, format_uint, format_display_amount}
use wolochain.Fallible.{Fallible, ok, fail, require, ◌>>=◌, ◌>>◌}
use wolochain.Request.{matches_request_id, matches_source_event}
use wolochain.Responses.{Transfer, LookupResponse}
use wolochain.Query.{parse_query, get_value}
use wolochain.Run.Head.{normalize_metadata_id, validate_run_id}
use wolochain.Run.Tally.{add_u64}
use wolochain.Challenge.{FundingResult, blank_funding, memo_prefix}

abbrev pub is_token_char : ℕ → Bool
is_token_char c = is_digit c || (c == b'_' || c == b'-')

-- `^[A-Za-z0-9][A-Za-z0-9_-]{0,31}$`
unfoldable pub matches_side : Text → Bool
matches_side [] = false
matches_side (c ∷ s) =
    is_alphanumeric c && (leb (length s) 31 && all (λ d. is_alphanumeric d || is_token_char d) s)

-- `^[a-z][a-z0-9_-]{0,31}$`
unfoldable pub matches_reason : Text → Bool
matches_reason [] = false
matches_reason (c ∷ s) =
    is_lower c && (leb (length s) 31 && all (λ d. is_lower d || is_token_char d) s)

-- `strings.TrimPrefix(s, p)` where the prefix is there
unfoldable pub trim_prefix : Text → Text → Text
trim_prefix s [] = s
trim_prefix [] (d ∷ p) = []
trim_prefix (c ∷ s) (d ∷ p) = trim_prefix s p

-- `getValue`: the first of the keys with a value that is not blank.
unfoldable pub first_value : List Text → List (Text × Text) → Text
first_value [] pairs = []
first_value (key ∷ keys) pairs =
    let value = trim_space (get_value key pairs) in
    let rest = first_value keys pairs in if is_empty value then rest else value

-- A field that may be left out.
abbrev pub optional_id : Text → Text → ℕ → (Text → Bool) → Fallible Text
optional_id field value max_len matches =
    if is_empty value then ok [] else normalize_metadata_id field value max_len matches

abbrev pub optional_run_id : Text → Fallible Text
optional_run_id value =
    if is_empty value
    then ok []
    else elim (validate_run_id value) [ some e ↦ fail e | none ↦ ok value ]

unfoldable pub parse_memo_amount : Text → Text → Fallible ℕ
parse_memo_amount field raw =
    let trimmed = trim_space raw in
    if is_empty trimmed
    then fail (text "memo is missing " ++ field)
    else elim (parse_uint trimmed) [
      | none ↦ fail (field ++ text " must be a positive integer")
      | some value ↦
          if value == 0 then fail (field ++ text " must be a positive integer") else ok value
    ]

abbrev pub parse_transfer_amount : Text → Fallible ℕ
parse_transfer_amount amount = elim (parse_uint amount) [
  | none ↦ fail (text "escrow transfer amount is not a positive uwolo integer")
  | some total ↦
      if total == 0
      then fail (text "escrow transfer amount is not a positive uwolo integer")
      else ok total
]

-- What a memo says of its deposit.
pub record MemoIds : Type 0 where
  pub source_app : Text
  pub settlement_run_id : Text
  pub challenge_id : Text
  pub source_event_id : Text
  pub participant_side : Text
  pub participant_id : Text

unfoldable pub check_memo_ids : Text → Text → Text → Text → Text → Text → Fallible MemoIds
check_memo_ids app run challenge event side player = do
  require (not (is_empty app)) (text "memo is missing source_app")
  source_app ← normalize_metadata_id (text "source_app") app 64 matches_request_id
  run_id ← optional_run_id run
  challenge_id ← optional_id (text "challenge_id") challenge 128 matches_source_event
  event_id ← optional_id (text "source_event_id") event 128 matches_source_event
  require (not (is_empty challenge_id && is_empty event_id))
      (text "memo is missing challenge_id or source_event_id")
  require (is_empty side || matches_side side)
      (text "memo participant_side uses unsupported characters")
  participant_id ← optional_id (text "participant_id") player 128 matches_source_event
  require (not (is_empty side && is_empty participant_id))
      (text "memo is missing participant_side or participant_id")
  ok (record {
    source_app = source_app;
    settlement_run_id = run_id;
    challenge_id = challenge_id;
    source_event_id = event_id;
    participant_side = side;
    participant_id = participant_id;
  })

-- A name goes by several keys.
unfoldable pub read_memo_ids : List (Text × Text) → Fallible MemoIds
read_memo_ids pairs =
    check_memo_ids (first_value (text "source_app" ∷ text "app" ∷ []) pairs)
      (first_value (text "settlement_run_id" ∷ text "run_id" ∷ text "sid" ∷ []) pairs)
      (first_value (text "challenge_id" ∷ text "cid" ∷ []) pairs)
      (first_value (text "source_event_id" ∷ text "event_id" ∷ text "eid" ∷ []) pairs)
      (first_value (text "participant_side" ∷ text "side" ∷ []) pairs)
      (first_value (text "participant_id" ∷ text "pid" ∷ []) pairs)

-- The verified deposit, with its buckets.
abbrev pub funding_of :
    Transfer → LookupResponse → Text → Text → MemoIds → Text → ℕ → ℕ → FundingResult
funding_of transfer lookup escrow_address memo ids total wager guarantee = record {
  index = 0;
  succeeded = true;
  failure_code = blank_funding.failure_code;
  detail = [];
  deposit_found = true;
  funding_tx_hash = lookup.tx_hash;
  source_app = ids.source_app;
  settlement_run_id = ids.settlement_run_id;
  challenge_id = ids.challenge_id;
  source_event_id = ids.source_event_id;
  participant_side = ids.participant_side;
  participant_id = ids.participant_id;
  sender = transfer.sender;
  escrow_address = escrow_address;
  total_funded_uwolo = total;
  total_funded_wolo = format_display_amount total;
  wager_uwolo = format_uint wager;
  wager_wolo = format_display_amount (format_uint wager);
  guarantee_uwolo = format_uint guarantee;
  guarantee_wolo = format_display_amount (format_uint guarantee);
  memo = memo;
  canonical_tx_lookup = lookup.canonical_tx_lookup;
  canonical_tx_lookup_preferred = lookup.canonical_tx_lookup_preferred;
  canonical_tx_lookup_internal = lookup.canonical_tx_lookup_internal;
  canonical_tx_lookup_public = lookup.canonical_tx_lookup_public;
}

-- `getValue("total_funded_uwolo", ...)`
abbrev pub declared_total : List (Text × Text) → Text
declared_total =
    first_value (text "total_funded_uwolo" ∷ text "total_uwolo" ∷ text "total" ∷ text "t" ∷ [])

-- The amounts of a memo, against the transfer's.
unfoldable pub split_funding :
    Transfer → LookupResponse → Text → Text → List (Text × Text) → MemoIds → Fallible FundingResult
split_funding transfer lookup escrow_address memo pairs ids = do
  wager ←
      parse_memo_amount (text "wager_uwolo")
        (first_value (text "wager_uwolo" ∷ text "w" ∷ []) pairs)
  guarantee ←
      parse_memo_amount (text "guarantee_uwolo")
        (first_value (text "guarantee_uwolo" ∷ text "g" ∷ []) pairs)
  total ← parse_transfer_amount (trim_space transfer.amount)
  require
      (is_empty (trim_space (declared_total pairs))
        || text_eq (trim_space (declared_total pairs)) (trim_space transfer.amount))
      (text "memo total_funded_uwolo="
        ++ (trim_space (declared_total pairs)
            ++ (text " does not match the escrow transfer amount " ++ trim_space transfer.amount)))
  require (add_u64 wager guarantee == total) (
      text "memo bucket totals "
      ++ (format_uint (add_u64 wager guarantee)
          ++ (text " do not match the escrow transfer amount " ++ format_uint total)))
  ok (
      funding_of transfer lookup escrow_address memo ids (trim_space transfer.amount) wager
        guarantee)

abbrev pub explain_query : {A : Type 0} → Fallible A → Fallible A
explain_query (ok a) = ok a
explain_query (fail e) = fail (text "memo query string is invalid: " ++ e)

unfoldable pub parse_memo : Transfer → LookupResponse → Text → Text → Fallible FundingResult
parse_memo transfer lookup escrow_address memo = do
  require (has_prefix memo memo_prefix)
      (text "memo does not use the wolo.challenge.funding.v1 convention")
  pairs ← explain_query (parse_query (trim_prefix memo memo_prefix))
  ids ← read_memo_ids pairs
  split_funding transfer lookup escrow_address memo pairs ids

unfoldable pub parse_funding : Transfer → LookupResponse → Text → Fallible FundingResult
parse_funding transfer lookup escrow_address =
    parse_memo transfer lookup escrow_address (trim_space lookup.memo)
