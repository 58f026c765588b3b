-- ===== src/Lookup/Matched.antt =====
-- The transfer that a lookup names.
use wolochain.Prelude.{
  ℕ, ◌≡◌, refl, sym, ap, ◌∙◌, true, none, some, arith, List, [], ◌∷◌, Option-cases, Bool-cases, inl,
  inr, ◌==◌, is_empty, false-ne-true,
}
use wolochain.Text.{Text, text_eq, trim_space}
use wolochain.Fallible.{Fallible, ok, fail}
use wolochain.Config.{Config}
use wolochain.Responses.{Transfer, LookupResponse}
use wolochain.Node.{Node, TxPayload}
use wolochain.Transfers.{Expectations, meets, first_match, match_transfer}
use wolochain.Lookup.{
  is_some, normalize_tx_hash, is_hex_hash, lookup_tx, lookup_on_chain, lookup_on_payload,
  found_lookup,
}

-- The transfer that a lookup names is the first one that meets its expectations.
module _ {C : Type 0} (node : Node C) (cfg : Config) (e : Expectations) where
  abbrev IsMatched : LookupResponse → Type 0
  IsMatched lookup = lookup.matched_transfer ≡ match_transfer lookup.transfers e

  match_none : match_transfer [] e ≡ none
  unfolding match_transfer
  match_none = ground arith

  lookup_on_payload-IsMatched :
      (hash : Text) (payload : Fallible (ℕ × TxPayload)) (c : C)
      → IsMatched (lookup_on_payload node cfg hash e payload c).0
  unfolding lookup_on_payload found_lookup
  lookup_on_payload-IsMatched hash (fail why) c = sym match_none
  lookup_on_payload-IsMatched hash (ok (status, payload)) c = elim (Bool-cases (status == 404)) [
    | inl missing ↦ rw (missing, lookup_on_payload) (sym match_none)
    | inr there ↦ rw (there, lookup_on_payload) refl
  ]

  lookup_on_chain-IsMatched :
      (hash : Text) (id : Fallible Text) (c : C)
      → IsMatched (lookup_on_chain node cfg hash e id c).0
  unfolding lookup_on_chain
  lookup_on_chain-IsMatched hash (fail why) c = sym match_none
  lookup_on_chain-IsMatched hash (ok id) c = elim (Bool-cases (text_eq id cfg.chain_id)) [
    | inl same ↦ rw (same, lookup_on_chain) (lookup_on_payload-IsMatched _ _ _)
    | inr other ↦ rw (other, lookup_on_chain) (sym match_none)
  ]

  pub lookup_tx-IsMatched : (tx_hash : Text) (c : C) → IsMatched (lookup_tx node cfg tx_hash e c).0
  unfolding lookup_tx
  lookup_tx-IsMatched tx_hash c = elim (Bool-cases (is_empty (normalize_tx_hash tx_hash))) [
    | inl blank ↦ rw (blank, lookup_tx) (sym match_none)
    | inr given ↦ elim (Bool-cases (is_hex_hash (normalize_tx_hash tx_hash))) [
      | inr odd ↦ rw (given, odd, lookup_tx) (sym match_none)
      | inl hex ↦ rw (given, hex, lookup_tx) (lookup_on_chain-IsMatched _ _ _)
    ]
  ]

  -- A lookup is flagged as matched exactly where it names a transfer.
  abbrev IsFlagged : LookupResponse → Type 0
  IsFlagged lookup = lookup.matched_expected ≡ is_some lookup.matched_transfer

  lookup_on_payload-IsFlagged :
      (hash : Text) (payload : Fallible (ℕ × TxPayload)) (c : C)
      → IsFlagged (lookup_on_payload node cfg hash e payload c).0
  unfolding lookup_on_payload found_lookup
  lookup_on_payload-IsFlagged hash (fail why) c = refl
  lookup_on_payload-IsFlagged hash (ok (status, payload)) c = elim (Bool-cases (status == 404)) [
    | inl missing ↦ rw (missing, lookup_on_payload) refl
    | inr there ↦ rw (there, lookup_on_payload) refl
  ]

  lookup_on_chain-IsFlagged :
      (hash : Text) (id : Fallible Text) (c : C)
      → IsFlagged (lookup_on_chain node cfg hash e id c).0
  unfolding lookup_on_chain
  lookup_on_chain-IsFlagged hash (fail why) c = refl
  lookup_on_chain-IsFlagged hash (ok id) c = elim (Bool-cases (text_eq id cfg.chain_id)) [
    | inl same ↦ rw (same, lookup_on_chain) (lookup_on_payload-IsFlagged _ _ _)
    | inr other ↦ rw (other, lookup_on_chain) refl
  ]

  lookup_tx-IsFlagged : (tx_hash : Text) (c : C) → IsFlagged (lookup_tx node cfg tx_hash e c).0
  unfolding lookup_tx
  lookup_tx-IsFlagged tx_hash c = elim (Bool-cases (is_empty (normalize_tx_hash tx_hash))) [
    | inl blank ↦ rw (blank, lookup_tx) refl
    | inr given ↦ elim (Bool-cases (is_hex_hash (normalize_tx_hash tx_hash))) [
      | inr odd ↦ rw (given, odd, lookup_tx) refl
      | inl hex ↦ rw (given, hex, lookup_tx) (lookup_on_chain-IsFlagged _ _ _)
    ]
  ]

some_injective : {A : Type 0} {x y : A} → some x ≡ some y → x ≡ y
some_injective same = cc

first_match-meets :
    (sender recipient amount : Text) (ts : List Transfer) (t : Transfer)
    → first_match sender recipient amount ts ≡ some t
    → meets sender recipient amount t ≡ true
first_match-meets sender recipient amount [] t h = absurd (ground arith)
first_match-meets sender recipient amount (u ∷ us) t h =
    elim (Bool-cases (meets sender recipient amount u)) [
      | inl met ↦ let same : u ≡ t = some_injective (rw met at h) in rw (← same) met
      | inr missed ↦ first_match-meets sender recipient amount us t (rw missed at h)
    ]

-- The transfer that is matched meets the expectations.
pub match_transfer-meets :
    (ts : List Transfer) (e : Expectations) (t : Transfer)
    → match_transfer ts e ≡ some t
    → meets (trim_space e.sender) (trim_space e.recipient) (trim_space e.amount_uwolo) t ≡ true
unfolding match_transfer
match_transfer-meets ts e t h =
    first_match-meets (trim_space e.sender) (trim_space e.recipient) (trim_space e.amount_uwolo) ts
      t (ground arith)

module _ {C : Type 0} (node : Node C) (cfg : Config) where
  -- A lookup that says that it has matched has a transfer that meets the expectations.
  pub lookup_tx-meets :
      (e : Expectations) (tx_hash : Text) (c : C)
      → (lookup_tx node cfg tx_hash e c).0.matched_expected ≡ true
      → (t : Transfer) × ((lookup_tx node cfg tx_hash e c).0.matched_transfer ≡ some t)
        × (meets (trim_space e.sender) (trim_space e.recipient) (trim_space e.amount_uwolo) t
            ≡ true)
  lookup_tx-meets e tx_hash c flagged =
      let l = (lookup_tx node cfg tx_hash e c).0 in
      let flag = lookup_tx-IsFlagged node cfg e tx_hash c in
      elim (Option-cases l.matched_transfer) [
        | inl missed ↦ absurd (false-ne-true (ap is_some (sym missed) ∙ sym flag ∙ flagged))
        | inr (t, named) ↦ (
          t,
          named,
          match_transfer-meets l.transfers e t
              (sym (lookup_tx-IsMatched node cfg e tx_hash c) ∙ named),
        )
      ]
