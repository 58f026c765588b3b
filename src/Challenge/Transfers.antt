-- ===== src/Challenge/Transfers.antt =====
-- The transfers of a challenge against its verified deposits: `normalizeSettlementChallengeTransfer`,
-- `validateVerifiedChallengeFundingParticipants`, `resolveChallengeFundingParticipant`,
-- `challengeFundingIdentityKey`, `challengeFundingLabel` and
-- `deriveSettlementChallengeTransferRequestID` of cmd/wolochaind/cmd/settlement_challenge.go.
pub mod Distinct
use wolochain.Prelude.{
  ℕ, ◌+◌, Bool, true, false, not, ◌&&◌, ◌||◌, List, [], ◌∷◌, ◌++◌, Option, none, some,
  if◌then◌else◌, is_empty, take,
}
use wolochain.Text.{Text, text, text_eq, trim_space, to_lower, to_upper, equal_fold}
use wolochain.Decimal.{ℤ, parse_uint, format_uint, pad_zeros, format_display_amount}
use wolochain.Fallible.{Fallible, ok, fail}
use wolochain.Codes.{Status, Outcome, FailureCode}
use wolochain.Request.{
  is_wolo_address, matches_request_id, matches_source_event, normalize_amount_uwolo,
}
use wolochain.Probe.{quoted}
use wolochain.Run.Head.{normalize_metadata_id, fallible_error, ok_or, join}
use wolochain.Challenge.{
  FundingResult, TransferInput, NormalizedTransfer, TransferResult, wager_bucket, guarantee_bucket,
}
use wolochain.Challenge.Memo.{matches_side, matches_reason}

unfoldable pub identity_key : Text → Text → Text → Text
identity_key side player tx_hash =
    to_lower (trim_space side)
    ++ (b'|' ∷ (to_lower (trim_space player) ++ (b'|' ∷ to_upper (trim_space tx_hash))))

abbrev pub deposit_key : FundingResult → Text
deposit_key r = identity_key r.participant_side r.participant_id r.funding_tx_hash

unfoldable pub funding_label : Text → Text → Text → Text
funding_label side player tx_hash =
    if not (is_empty (trim_space side)) && not (is_empty (trim_space player))
    then text "participant_side="
      ++ (side ++ (text " participant_id=" ++ (player ++ (text " (tx " ++ (tx_hash ++ text ")")))))
    else if not (is_empty (trim_space side))
    then text "participant_side=" ++ (side ++ (text " (tx " ++ (tx_hash ++ text ")")))
    else if not (is_empty (trim_space player))
    then text "participant_id=" ++ (player ++ (text " (tx " ++ (tx_hash ++ text ")")))
    else text "funding tx " ++ tx_hash

abbrev pub deposit_label : FundingResult → Text
deposit_label r = funding_label r.participant_side r.participant_id r.funding_tx_hash

-- `%s:challenge-%03d`
unfoldable pub derive_transfer_request_id : Text → ℕ → Text
derive_transfer_request_id id index =
    id ++ (text ":challenge-" ++ pad_zeros 3 (format_uint (index + 1)))

-- The label under which a name was seen.
abbrev pub find_label : Text → List (Text × Text) → Option Text
find_label name [] = none
find_label name ((n, label) ∷ seen) = if text_eq n name then some label else find_label name seen

-- The error of a name that was seen, where the name is not blank.
abbrev pub seen_error : Text → Text → Text → Option Text → List Text
seen_error field name label none = []
seen_error field name label (some existing) =
    (field
      ++ (b' ' ∷ quoted name
          ++ (text " appears in multiple funding deposits ("
              ++ (existing ++ (text " and " ++ (label ++ text ")"))))))
    ∷ []

abbrev pub check_seen : Text → Text → Text → List (Text × Text) → List Text
check_seen field name label seen =
    if is_empty name then [] else seen_error field name label (find_label (to_lower name) seen)

abbrev pub is_none : Option Text → Bool
is_none none = true
is_none (some _) = false

abbrev pub note_seen : Text → Text → List (Text × Text) → List (Text × Text)
note_seen name label seen =
    if not (is_empty name) && is_none (find_label (to_lower name) seen)
    then (to_lower name, label) ∷ seen
    else seen

-- The loop over the deposits, with the sides and the ids seen so far.
unfoldable pub check_participants :
    List (Text × Text) → List (Text × Text) → List FundingResult → List Text
check_participants sides players [] = []
check_participants sides players (r ∷ rs) =
    let side = trim_space r.participant_side in
    let player = trim_space r.participant_id in
    let rest =
      check_participants (note_seen side (deposit_label r) sides)
        (note_seen player (deposit_label r) players) rs in
    check_seen (text "participant_side") side (deposit_label r) sides
    ++ (check_seen (text "participant_id") player (deposit_label r) players ++ rest)

-- Whether a deposit is one that a transfer refers to.
abbrev pub refers_to : Text → Text → FundingResult → Bool
refers_to side player r =
    (is_empty side || equal_fold (trim_space r.participant_side) side)
    && ((is_empty player || equal_fold (trim_space r.participant_id) player)
        && not (is_empty side && is_empty player))

abbrev pub referred : Text → Text → List FundingResult → List FundingResult
referred side player [] = []
referred side player (r ∷ rs) =
    let rest = referred side player rs in if refers_to side player r then r ∷ rest else rest

abbrev pub only_one : Text → Text → List FundingResult → Fallible FundingResult
only_one side player (r ∷ []) = ok r
only_one side player (r ∷ s ∷ rs) =
    fail (text "participant reference is ambiguous across verified funding deposits")
only_one side player [] = fail (
    text "no verified funding deposit matches participant_side="
    ++ (quoted side ++ (text " participant_id=" ++ quoted player)))

unfoldable pub resolve_participant : List FundingResult → Text → Text → Fallible FundingResult
resolve_participant deposits side player =
    only_one (trim_space side) (trim_space player)
      (referred (trim_space side) (trim_space player) deposits)

-- The number of a text that is an amount; the code drops the error, and the texts that it reads
-- here are never out of range.
abbrev pub amount_of : Text → ℕ
amount_of s = elim (parse_uint s) [ none ↦ 0 | some n ↦ n ]

-- What the transfers of a challenge share.
pub record TransferContext : Type 0 where
  pub settlement_id : Text
  pub memo : Text
  pub treasury_address : Text
  pub address_prefix : Text

abbrev pub error_if : Bool → Text → List Text
error_if test message = if test then message ∷ [] else []

abbrev pub is_bucket : Text → Bool
is_bucket bucket = text_eq bucket wager_bucket || text_eq bucket guarantee_bucket

-- The errors of a transfer, in the order of the code.
abbrev pub participant_errors : NormalizedTransfer → List Text
participant_errors t =
    error_if (not (matches_request_id t.request_id)) (
      text "request_id must be 3-128 chars using letters, numbers, dot, underscore, colon, or dash")
    ++ (error_if (is_empty t.participant_side && is_empty t.participant_id)
          (text "participant_side or participant_id is required on each challenge transfer")
        ++ (error_if (not (is_empty t.participant_side) && not (matches_side t.participant_side))
              (text "participant_side uses unsupported characters")
            ++ (if is_empty t.participant_id
                then []
                else fallible_error (
                    normalize_metadata_id (text "participant_id") t.participant_id 128
                      matches_source_event))))

abbrev pub bucket_errors : NormalizedTransfer → List Text
bucket_errors t = error_if (not (is_bucket t.bucket)) (text "bucket must be wager or guarantee")

module _ (ctx : TransferContext) where
  -- The transfer as it stands before its checks, and its amount where it has one.
  unfoldable pub raw_transfer : ℕ → TransferInput → Text → NormalizedTransfer
  raw_transfer index input amount =
      let given = trim_space input.request_id in
      let reason = trim_space (to_lower input.reason) in
      let to_address = trim_space input.to_address in
      let memo = trim_space input.memo in
      record {
        index = index;
        request_id =
            if is_empty given then derive_transfer_request_id ctx.settlement_id index else given;
        participant_side = trim_space input.participant_side;
        participant_id = trim_space input.participant_id;
        bucket = trim_space (to_lower input.bucket);
        reason = reason;
        to_address =
            if is_empty to_address && text_eq reason (text "treasury")
            then ctx.treasury_address
            else to_address;
        amount_uwolo = amount;
        memo = take 180 (if is_empty memo then ctx.memo else memo);
      }

  abbrev pub route_errors : NormalizedTransfer → Fallible Text → List Text
  route_errors t amount =
      error_if (is_empty t.reason || not (matches_reason t.reason))
        (text "reason must be a lowercase token such as refund, return, payout, or treasury")
      ++ (error_if (is_empty t.to_address)
            (text "to_address is required for each challenge transfer")
          ++ (error_if
                (not (is_empty t.to_address)
                  && not (is_wolo_address t.to_address ctx.address_prefix))
                (text "to_address must be a valid WOLO address")
              ++ fallible_error amount))

  unfoldable pub transfer_errors : NormalizedTransfer → Fallible Text → List Text
  transfer_errors t amount = participant_errors t ++ (bucket_errors t ++ route_errors t amount)

  -- The result of a transfer, with its errors.
  unfoldable pub transfer_result : NormalizedTransfer → List Text → TransferResult
  transfer_result t errors =
      let fine = is_empty errors in
      record {
        index = t.index;
        request_id = t.request_id;
        participant_side = t.participant_side;
        participant_id = t.participant_id;
        bucket = t.bucket;
        reason = t.reason;
        attempted = false;
        succeeded = fine;
        status = if fine then Status.validated else Status.failed;
        outcome = if fine then Outcome.ready else Outcome.invalid;
        failure_code = if fine then FailureCode.no_failure else FailureCode.invalid_transfer;
        retryable = false;
        idempotent_replay = false;
        signer_role = [];
        signer_address = [];
        to_address = if fine then t.to_address else [];
        amount_uwolo = t.amount_uwolo;
        amount_wolo = format_display_amount t.amount_uwolo;
        memo = t.memo;
        tx_hash = [];
        detail = if fine then [] else join errors;
        canonical_tx_lookup = [];
        canonical_tx_lookup_preferred = [];
        canonical_tx_lookup_internal = [];
        canonical_tx_lookup_public = [];
        warnings = [];
      }

  -- The normalized transfer, its result, and the amount to move.
  unfoldable pub normalize_transfer : ℕ → TransferInput → NormalizedTransfer × TransferResult × ℕ
  normalize_transfer index input =
      let amount = normalize_amount_uwolo input.amount_uwolo input.amount_wolo in
      let t = raw_transfer index input (ok_or [] amount) in
      let errors = transfer_errors t amount in
      (t, transfer_result t errors, if is_empty errors then amount_of t.amount_uwolo else 0)
