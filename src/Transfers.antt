-- ===== src/Transfers.antt =====
-- Coins and transfer events: `splitCoinAmounts`, `extractSettlementTransfersFromLogsAndEvents`,
-- `matchSettlementTransfer`, `classifyTransferKind` and `parseBaseDenomFeeAmount` of
-- cmd/wolochaind/cmd/settlement.go.
use wolochain.Prelude.{
  ℕ, ◌+◌, ◌%◌, Bool, true, false, not, ◌&&◌, ◌||◌, List, [], ◌∷◌, ◌++◌, Option, none, some, ◌==◌,
  if◌then◌else◌, is_empty,
}
use wolochain.Text.{Text, text, text_eq, trim_space, equal_fold, is_digit}
use wolochain.Decimal.{u64_mod, parse_uint}
use wolochain.Fallible.{Fallible, ok, fail}
use wolochain.Responses.{Transfer, Kind}
use wolochain.Node.{Coin, Event, EventAttribute}

abbrev cons_to_first : ℕ → List Text → List Text
cons_to_first c [] = (c ∷ []) ∷ []
cons_to_first c (part ∷ parts) = (c ∷ part) ∷ parts

-- `strings.Split(raw, ",")`
unfoldable pub split_commas : Text → List Text
split_commas [] = [] ∷ []
split_commas (c ∷ s) =
    let parts = split_commas s in if c == b',' then [] ∷ parts else cons_to_first c parts

-- The digits in front, and the rest.
unfoldable pub span_digits : Text → Text × Text
span_digits [] = ([], [])
span_digits (c ∷ s) =
    let (amount, denom) = span_digits s in if is_digit c then (c ∷ amount, denom) else ([], c ∷ s)

-- One part of a list of coins; a part with no digits in front or nothing behind them is dropped.
unfoldable pub split_coin : Text → List Coin
split_coin part =
    let (amount, denom) = span_digits (trim_space part) in
    if is_empty (trim_space part) || (is_empty amount || is_empty denom)
    then []
    else record { denom = denom; amount = amount } ∷ []

abbrev pub split_parts : List Text → List Coin
split_parts [] = []
split_parts (part ∷ parts) = split_coin part ++ split_parts parts

unfoldable pub split_coin_amounts : Text → List Coin
split_coin_amounts raw = split_parts (split_commas raw)

-- The sender, the recipient and the amount that an event names; the last of each counts.
pub record TransferFields : Type 0 where
  pub sender : Text
  pub recipient : Text
  pub amount : Text

abbrev read_attribute : TransferFields → EventAttribute → TransferFields
read_attribute f a =
    if text_eq a.key (text "sender")
    then record f { sender = trim_space a.value }
    else if text_eq a.key (text "recipient")
    then record f { recipient = trim_space a.value }
    else if text_eq a.key (text "amount")
    then record f { amount = trim_space a.value }
    else f

unfoldable pub read_attributes : TransferFields → List EventAttribute → TransferFields
read_attributes f [] = f
read_attributes f (a ∷ as_rest) = read_attributes (read_attribute f a) as_rest

abbrev pub transfers_of : Text → Text → List Coin → List Transfer
transfers_of sender recipient [] = []
transfers_of sender recipient (coin ∷ coins) =
    record { sender = sender; recipient = recipient; amount = coin.amount; denom = coin.denom }
    ∷ transfers_of sender recipient coins

unfoldable pub event_transfers : Event → List Transfer
event_transfers event =
    let f =
      read_attributes (record { sender = []; recipient = []; amount = [] }) event.attributes in
    if not (text_eq event.event_type (text "transfer"))
    then []
    else if is_empty f.sender || (is_empty f.recipient || is_empty f.amount)
    then []
    else transfers_of f.sender f.recipient (split_coin_amounts f.amount)

abbrev pub events_transfers : List Event → List Transfer
events_transfers [] = []
events_transfers (event ∷ events) = event_transfers event ++ events_transfers events

abbrev pub logs_transfers : List (List Event) → List Transfer
logs_transfers [] = []
logs_transfers (events ∷ logs) = events_transfers events ++ logs_transfers logs

-- The transfers of the logs, or of the events where the logs have none.
unfoldable pub extract_transfers : List (List Event) → List Event → List Transfer
extract_transfers logs events =
    let transfers = logs_transfers logs in
    if is_empty transfers then events_transfers events else transfers

pub record Expectations : Type 0 where
  pub sender : Text
  pub recipient : Text
  pub amount_uwolo : Text

-- Whether a transfer meets the trimmed expectations that are not empty.
abbrev pub meets : Text → Text → Text → Transfer → Bool
meets sender recipient amount t =
    (is_empty sender || equal_fold t.sender sender)
    && ((is_empty recipient || equal_fold t.recipient recipient)
        && (is_empty amount || text_eq t.amount amount))

abbrev pub first_match : Text → Text → Text → List Transfer → Option Transfer
first_match sender recipient amount [] = none
first_match sender recipient amount (t ∷ ts) =
    if meets sender recipient amount t then some t else first_match sender recipient amount ts

unfoldable pub match_transfer : List Transfer → Expectations → Option Transfer
match_transfer transfers e =
    let sender = trim_space e.sender in
    let recipient = trim_space e.recipient in
    let amount = trim_space e.amount_uwolo in
    if is_empty sender && (is_empty recipient && is_empty amount)
    then none
    else first_match sender recipient amount transfers

abbrev classify_rest : Bool → Kind
classify_rest true = Kind.unknown
classify_rest false = Kind.transfer

module _ (escrow_address payout_address base_denom : Text) where
  abbrev is_escrow_deposit : Transfer → Bool
  is_escrow_deposit t =
      not (is_empty escrow_address)
      && (equal_fold t.recipient escrow_address && text_eq t.denom base_denom)

  abbrev is_payout : Transfer → Bool
  is_payout t =
      not (is_empty payout_address)
      && (equal_fold t.sender payout_address && text_eq t.denom base_denom)

  -- `none` at the end of the loop.
  abbrev pub classified : List Transfer → Option Kind
  classified [] = none
  classified (t ∷ ts) =
      if is_escrow_deposit t
      then some Kind.escrow_deposit
      else if is_payout t
      then some Kind.payout
      else classified ts

  unfoldable pub classify_transfer_kind : List Transfer → Kind
  classify_transfer_kind transfers = elim (classified transfers) [
    | some kind ↦ kind
    | none ↦ classify_rest (is_empty transfers)
  ]

-- The fees in the base denom, added in an `uint64`; an error where an amount is out of range.
abbrev pub sum_fees : Text → ℕ → List Coin → Fallible ℕ
sum_fees base_denom total [] = ok total
sum_fees base_denom total (coin ∷ coins) = elim (parse_uint (trim_space coin.amount)) [
  | none ↦
      if text_eq coin.denom base_denom
      then fail (
          text "invalid "
          ++ (base_denom ++ (text " fee amount " ++ (text "\"" ++ (coin.amount ++ text "\"")))))
      else sum_fees base_denom total coins
  | some amount ↦
      sum_fees base_denom
        (if text_eq coin.denom base_denom then (total + amount) % u64_mod else total) coins
]

unfoldable pub parse_base_denom_fee : Text → Text → Fallible ℕ
parse_base_denom_fee raw base_denom = sum_fees base_denom 0 (split_coin_amounts raw)
