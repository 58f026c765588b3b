-- ===== src/Challenge/Deposit/Verified.antt =====
-- What a verified deposit was checked against.
use wolochain.Prelude.{
  false-ne-true, ◌≡◌, refl, sym, ◌∙◌, true, false, none, some, arith, all, Bool-cases, inl, inr,
  is_empty, [], ◌∷◌, ◌++◌, List, Option, ℕ,
}
use wolochain.Text.{Text, text, trim_space}
use wolochain.Fallible.{Fallible-cases}
use wolochain.Config.{Config}
use wolochain.Responses.{Transfer, LookupResponse}
use wolochain.Node.{Node}
use wolochain.Transfers.{Expectations, meets, match_transfer}
use wolochain.Lookup.{lookup_tx}
use wolochain.Lookup.Matched.{lookup_tx-IsMatched, match_transfer-meets}
use wolochain.Challenge.{FundingExpectation, FundingResult, FundingVerification}
use wolochain.Challenge.Memo.{parse_funding}
use wolochain.Challenge.Memo.Split.{IsSplit, IsSplit-same, parse_funding-IsSplit}
use wolochain.Challenge.Memo.Said.{SaysDeposit, SaysDeposit-judged, parse_funding-SaysDeposit}
use wolochain.Challenge.Memo.Named.{IsNamed, parse_funding-IsNamed}
use wolochain.Challenge.Deposit.{
  Check, meets_check, first_mismatch, checks, compare_funding, is_escrow_kind, deposit_on_memo,
  deposit_on_transfer, deposit_on_lookup, raw_deposit, verify_deposit, validate_expectation,
}

append-cons : (s t : Text) (c : ℕ) → is_empty (s ++ (c ∷ t)) ≡ false
append-cons [] t c = refl
append-cons (d ∷ s) t c = refl

first_mismatch-met :
    (cs : List Check) → is_empty (first_mismatch cs) ≡ true → all meets_check cs ≡ true
first_mismatch-met [] h = refl
first_mismatch-met (c ∷ cs) h = elim (Bool-cases (meets_check c)) [
  | inl met ↦ rw met (first_mismatch-met cs (rw met at h))
  | inr missed ↦ absurd (false-ne-true (sym (append-cons c.field _ b'=') ∙ rw missed at h))
]

-- What a verification expects of the transfer.
abbrev pub transfer_expectations : Config → FundingExpectation → Expectations
transfer_expectations cfg e = record {
  sender = trim_space e.sender;
  recipient = cfg.escrow_address;
  amount_uwolo = trim_space e.total_funded_uwolo;
}

-- A deposit that was found on the chain, in escrow, and read from its memo as it is expected.
pub record IsVerified (cfg : Config) (e : FundingExpectation) (v : FundingVerification)
    : Type 0 where
  pub funding : FundingResult
  pub lookup : LookupResponse
  pub transfer : Transfer
  pub named : v.funding ≡ some funding
  pub looked_up : v.lookup ≡ some lookup
  pub succeeded : lookup.succeeded ≡ true
  pub found : lookup.found ≡ true
  pub in_escrow : is_escrow_kind lookup.kind ≡ true
  pub matched : match_transfer lookup.transfers (transfer_expectations cfg e) ≡ some transfer
  pub expected :
      meets
        (trim_space (trim_space e.sender))
        (trim_space cfg.escrow_address)
        (trim_space (trim_space e.total_funded_uwolo))
        transfer
      ≡ true
  pub split : IsSplit transfer.amount funding
  pub said : SaysDeposit (trim_space lookup.memo) funding
  pub player : IsNamed funding.participant_side funding.participant_id
  pub met : all meets_check (checks funding e) ≡ true

module _ (cfg : Config) (e : FundingExpectation) (lookup : LookupResponse)
    (exact : lookup.matched_transfer
      ≡ match_transfer lookup.transfers (transfer_expectations cfg e)) where
  deposit_on_memo-IsVerified :
      (r : FundingResult) (transfer : Transfer)
      → lookup.succeeded ≡ true
      → lookup.found ≡ true
      → is_escrow_kind lookup.kind ≡ true
      → lookup.matched_transfer ≡ some transfer
      → (deposit_on_memo r lookup e (parse_funding transfer lookup cfg.escrow_address)).succeeded
        ≡ true
      → IsVerified cfg e
          (deposit_on_memo r lookup e (parse_funding transfer lookup cfg.escrow_address))
  unfolding deposit_on_memo compare_funding
  deposit_on_memo-IsVerified r transfer succeeded found in_escrow matched h =
      elim (Fallible-cases (parse_funding transfer lookup cfg.escrow_address)) [
        | inr (message, refused) ↦ absurd (false-ne-true (rw (refused, deposit_on_memo) at h))
        | inl (parsed, is_read) ↦ elim (Bool-cases (is_empty (compare_funding parsed e))) [
          | inr differs ↦ absurd (false-ne-true (rw (is_read, deposit_on_memo, differs) at h))
          | inl same ↦
              let names = parse_funding-IsNamed transfer lookup _ parsed is_read in
              rw (is_read, deposit_on_memo, same)
                (record {
                  funding = record parsed {
                    succeeded = true;
                    detail = text "challenge funding deposit verified";
                  };
                  lookup = lookup;
                  transfer = transfer;
                  named = refl;
                  looked_up = refl;
                  succeeded = succeeded;
                  found = found;
                  in_escrow = in_escrow;
                  matched = sym exact ∙ matched;
                  expected =
                      match_transfer-meets lookup.transfers (transfer_expectations cfg e) transfer
                        (sym exact ∙ matched);
                  split =
                      IsSplit-same (parse_funding-IsSplit transfer lookup _ parsed is_read) refl
                        refl refl;
                  said =
                      SaysDeposit-judged true (text "challenge funding deposit verified")
                        (parse_funding-SaysDeposit transfer lookup _ parsed is_read);
                  player = names;
                  met = first_mismatch-met (checks parsed e) same;
                })
        ]
      ]

  -- A deposit whose lookup did not fail is read from the transfer that it has matched.
  deposit_on_lookup-transfer :
      (r : FundingResult)
      → (deposit_on_lookup cfg r e lookup).succeeded ≡ true
      → (lookup.succeeded ≡ true)
        × (lookup.found ≡ true)
        × (is_escrow_kind lookup.kind ≡ true)
        × (deposit_on_lookup cfg r e lookup
            ≡ deposit_on_transfer cfg r lookup e lookup.matched_transfer)
  unfolding deposit_on_lookup
  deposit_on_lookup-transfer r h = ground arith

  deposit_on_transfer-lookup :
      (r : FundingResult) (matched : Option Transfer)
      → (deposit_on_transfer cfg r lookup e matched).lookup ≡ some lookup
  unfolding deposit_on_transfer deposit_on_memo
  deposit_on_transfer-lookup r none = refl
  deposit_on_transfer-lookup r (some transfer) =
      elim (Fallible-cases (parse_funding transfer lookup cfg.escrow_address)) [
        | inr (message, refused) ↦ rw (refused, deposit_on_memo) refl
        | inl (parsed, is_read) ↦ elim (Bool-cases (is_empty (compare_funding parsed e))) [
          | inr differs ↦ rw (is_read, deposit_on_memo, differs) refl
          | inl same ↦ rw (is_read, deposit_on_memo, same) refl
        ]
      ]

  -- The answer shows the lookup.
  deposit_on_lookup-lookup :
      (r : FundingResult) → (deposit_on_lookup cfg r e lookup).lookup ≡ some lookup
  unfolding deposit_on_lookup
  deposit_on_lookup-lookup r =
      let shown = deposit_on_transfer-lookup r lookup.matched_transfer in ground arith

  deposit_on_transfer-IsVerified :
      (r : FundingResult) (matched : Option Transfer)
      → lookup.succeeded ≡ true
      → lookup.found ≡ true
      → is_escrow_kind lookup.kind ≡ true
      → lookup.matched_transfer ≡ matched
      → (deposit_on_transfer cfg r lookup e matched).succeeded ≡ true
      → IsVerified cfg e (deposit_on_transfer cfg r lookup e matched)
  unfolding deposit_on_transfer
  deposit_on_transfer-IsVerified r none succeeded found in_escrow same h = absurd (false-ne-true h)
  deposit_on_transfer-IsVerified r (some transfer) succeeded found in_escrow same h =
      deposit_on_memo-IsVerified r transfer succeeded found in_escrow same h

  deposit_on_lookup-IsVerified :
      (r : FundingResult)
      → (deposit_on_lookup cfg r e lookup).succeeded ≡ true
      → IsVerified cfg e (deposit_on_lookup cfg r e lookup)
  deposit_on_lookup-IsVerified r h =
      let (succeeded, found, in_escrow, read) = deposit_on_lookup-transfer r h in
      rw read (
        deposit_on_transfer-IsVerified r lookup.matched_transfer succeeded found in_escrow refl
          (rw read at h))

module _ {C : Type 0} (node : Node C) (cfg : Config) where
  -- The lookup that a verification makes.
  abbrev pub deposit_lookup : Text → FundingExpectation → C → LookupResponse × C
  deposit_lookup tx_hash e c = lookup_tx node cfg tx_hash (transfer_expectations cfg e) c

  verify_deposit-answers :
      (tx_hash : Text) (e : FundingExpectation) (c : C)
      → (verify_deposit node cfg tx_hash e c).0.succeeded ≡ true
      → (verify_deposit node cfg tx_hash e c).0
        ≡ deposit_on_lookup cfg (raw_deposit cfg tx_hash) e (deposit_lookup tx_hash e c).0
  unfolding verify_deposit
  verify_deposit-answers tx_hash e c h =
      elim (Bool-cases (is_empty (trim_space cfg.escrow_address))) [
        | inl unset ↦ absurd (false-ne-true (rw (unset, verify_deposit) at h))
        | inr set ↦ elim (Fallible-cases (validate_expectation e cfg.address_prefix)) [
          | inr (message, refused) ↦ absurd (false-ne-true (rw (set, refused, verify_deposit) at h))
          | inl (fine, passed) ↦ rw (set, passed, verify_deposit) refl
        ]
      ]

  -- A verification with its lookup, which is that of the hash that it was asked for.
  abbrev pub VerifiedAt : Text → FundingExpectation → C → FundingVerification → Type 0
  VerifiedAt tx_hash e c v =
      IsVerified cfg e v
      × (v.lookup ≡ some (lookup_tx node cfg tx_hash (transfer_expectations cfg e) c).0)

  -- A deposit is verified only by its transaction. If the verification of a deposit succeeds, the
  -- lookup that it shows is that of the hash that it was asked for. That lookup has found a
  -- transaction that pays into escrow, and has matched the first of its transfers
  -- to the escrow address that comes from the expected sender and is of the expected total, where
  -- they are given. The wager, the guarantee and the names of the deposit are what the memo of that
  -- transaction says under their keys, its total is the amount of that transfer, the two parts add up
  -- to it modulo 2^64, and the deposit meets every expectation that is not blank.
  pub verify_deposit-IsVerified :
      (tx_hash : Text) (e : FundingExpectation) (c : C)
      → (verify_deposit node cfg tx_hash e c).0.succeeded ≡ true
      → VerifiedAt tx_hash e c (verify_deposit node cfg tx_hash e c).0
  verify_deposit-IsVerified tx_hash e c h =
      let same = verify_deposit-answers tx_hash e c h in
      let (lookup, c') = deposit_lookup tx_hash e c in
      rw same (
        deposit_on_lookup-IsVerified cfg e lookup
            (lookup_tx-IsMatched node cfg (transfer_expectations cfg e) tx_hash c)
            (raw_deposit cfg tx_hash) (rw same at h),
        deposit_on_lookup-lookup cfg e lookup
            (lookup_tx-IsMatched node cfg (transfer_expectations cfg e) tx_hash c)
            (raw_deposit cfg tx_hash),
      )
