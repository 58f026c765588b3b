-- ===== src/Request.antt =====
-- `normalizeSettlementRequest` of cmd/wolochaind/cmd/settlement.go, with the checks that it calls.
pub mod Valid
pub mod Amount
use wolochain.Prelude.{
  ℕ, zero, suc, ◌+◌, ◌-◌, ◌*◌, ◌%◌, Bool, true, false, not, ◌&&◌, ◌||◌, [], ◌∷◌, ◌++◌, none, some,
  ltb, leb, ◌==◌, if◌then◌else◌, is_empty, length, take, all,
}
use wolochain.Text.{Text, text, text_eq, trim_space, to_lower, has_prefix, is_alphanumeric}
use wolochain.Decimal.{ℤ, pos, negsuc, u64_mod, i64_mod, micro, parse_uint, format_int}
use wolochain.Fallible.{Fallible, ok, fail, require, ◌>>=◌, ◌>>◌}
use wolochain.Config.{canonical_prefix}

pub record ExecuteRequest : Type 0 where
  pub request_id : Text
  pub to_address : Text
  pub amount_uwolo : Text
  pub amount_wolo : ℤ
  pub memo : Text

pub record NormalizedRequest : Type 0 where
  pub request_id : Text
  pub to_address : Text
  pub amount_uwolo : Text
  pub memo : Text
  pub signer_role : Text

abbrev pub is_id_char : ℕ → Bool
is_id_char c = is_alphanumeric c || (c == b'.' || (c == b'_' || (c == b':' || c == b'-')))

abbrev pub is_event_char : ℕ → Bool
is_event_char c = is_id_char c || c == b'/'

-- `^[A-Za-z0-9][A-Za-z0-9._:-]{2,127}$`
unfoldable pub matches_request_id : Text → Bool
matches_request_id [] = false
matches_request_id (c ∷ s) =
    is_alphanumeric c && (leb 2 (length s) && (leb (length s) 127 && all is_id_char s))

-- `^[A-Za-z0-9][A-Za-z0-9._:/-]{0,127}$`
unfoldable pub matches_source_event : Text → Bool
matches_source_event [] = false
matches_source_event (c ∷ s) = is_alphanumeric c && (leb (length s) 127 && all is_event_char s)

unfoldable pub is_wolo_address : Text → Text → Bool
is_wolo_address address prefix =
    let trimmed = trim_space address in
    not (is_empty trimmed) && has_prefix (to_lower trimmed) (to_lower prefix ++ b'1' ∷ [])

-- A product that has wrapped around in an `int64`.
unfoldable pub wrap_i64 : ℕ → ℤ
wrap_i64 n = let r = n % u64_mod in if ltb r i64_mod then pos r else negsuc (u64_mod - r - 1)

abbrev is_positive : ℤ → Bool
is_positive (pos n) = ltb 0 n
is_positive (negsuc n) = false

-- `amountWolo*1_000_000`
unfoldable pub scale : ℤ → ℤ
scale (pos n) = wrap_i64 (n * micro)
scale (negsuc n) = wrap_i64 (u64_mod - (n + 1) * micro % u64_mod)

abbrev checked_amount : Text → Fallible Text
checked_amount trimmed = elim (parse_uint trimmed) [
  | none ↦ fail (text "amount_uwolo must be a positive integer")
  | some _ ↦
      if text_eq trimmed (b'0' ∷ [])
      then fail (text "amount_uwolo must be greater than zero")
      else ok trimmed
]

unfoldable pub normalize_amount_uwolo : Text → ℤ → Fallible Text
normalize_amount_uwolo amount_uwolo amount_wolo =
    let trimmed = trim_space amount_uwolo in
    if not (is_empty trimmed) && is_positive amount_wolo
    then fail (text "provide either amount_uwolo or amount_wolo, not both")
    else if is_empty trimmed && not (is_positive amount_wolo)
    then fail (text "amount_uwolo or amount_wolo is required")
    else if not (is_empty trimmed)
    then checked_amount trimmed
    else if not (is_positive amount_wolo)
    then fail (text "amount_wolo must be greater than zero")
    else ok (format_int (scale amount_wolo))

-- The fields of an accepted request.
abbrev pub normalized : ExecuteRequest → Text → NormalizedRequest
normalized request amount = record {
  request_id = trim_space request.request_id;
  to_address = trim_space request.to_address;
  amount_uwolo = amount;
  memo = take 180 (trim_space request.memo);
  signer_role = [];
}

unfoldable pub normalize_request : ExecuteRequest → Fallible NormalizedRequest
normalize_request request = do
  require (matches_request_id (trim_space request.request_id)) (
      text "request_id must be 3-128 chars using letters, numbers, dot, underscore, colon, or dash")
  require (is_wolo_address (trim_space request.to_address) canonical_prefix)
      (text "to_address must be a valid wolo address")
  amount ← normalize_amount_uwolo request.amount_uwolo request.amount_wolo
  ok (normalized request amount)
