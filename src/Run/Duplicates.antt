-- ===== src/Run/Duplicates.antt =====
-- The warnings of `prepareSettlementRunRequest` of cmd/wolochaind/cmd/settlement.go about lines with
-- the same address, amount and memo. Go goes through the map of equal lines in no fixed order; here
-- it is the order of the lines.
use wolochain.Prelude.{ℕ, List, [], ◌∷◌, ◌++◌, ltb, ◌==◌, if◌then◌else◌, length, any}
use wolochain.Text.{Text, text, text_eq}
use wolochain.Decimal.{format_uint}
use wolochain.Run.{NormalizedPayout, PayoutResult}

-- The warnings about lines with the same address, amount and memo.
abbrev payout_key : NormalizedPayout → Text
payout_key p = p.to_address ++ b'|' ∷ p.amount_uwolo ++ b'|' ∷ p.memo

abbrev add_to_group : Text → ℕ → List (Text × List ℕ) → List (Text × List ℕ)
add_to_group key index [] = (key, index ∷ []) ∷ []
add_to_group key index ((k, indexes) ∷ groups) =
    if text_eq k key
    then (k, indexes ++ index ∷ []) ∷ groups
    else (k, indexes) ∷ add_to_group key index groups

abbrev pub group_lines : List (Text × List ℕ) → List NormalizedPayout → List (Text × List ℕ)
group_lines groups [] = groups
group_lines groups (p ∷ ps) = group_lines (add_to_group (payout_key p) p.index groups) ps

-- What stands before the first `|`, and behind it.
abbrev cut_bar : Text → Text × Text
cut_bar [] = ([], [])
cut_bar (c ∷ s) =
    let (before, behind) = cut_bar s in if c == b'|' then ([], s) else (c ∷ before, behind)

-- `parts[0]` and `parts[1]` of `strings.SplitN(payoutKey, "|", 3)`
abbrev duplicate_warning : Text → List ℕ → Text
duplicate_warning key indexes =
    let (address, rest) = cut_bar key in
    text "duplicate payout line items detected for "
    ++ (address
        ++ (text " "
            ++ ((cut_bar rest).0
                ++ (text " uwolo (" ++ (format_uint (length indexes) ++ text " entries)")))))

abbrev warn_lines : Text → List ℕ → List PayoutResult → List PayoutResult
warn_lines warning indexes [] = []
warn_lines warning indexes (r ∷ rs) =
    (if any (λ i. i == r.index) indexes
      then record r { warnings = r.warnings ++ warning ∷ [] }
      else r)
    ∷ warn_lines warning indexes rs

unfoldable pub warn_duplicates :
    List (Text × List ℕ) → List Text × List PayoutResult → List Text × List PayoutResult
warn_duplicates [] out = out
warn_duplicates ((key, indexes) ∷ groups) (warnings, rs) =
    let warning = duplicate_warning key indexes in
    warn_duplicates groups (
      if ltb (length indexes) 2
      then (warnings, rs)
      else (warnings ++ warning ∷ [], warn_lines warning indexes rs))
