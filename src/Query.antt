-- ===== src/Query.antt =====
-- `url.ParseQuery` and `Values.Get` of Go's net/url, which cmd/wolochaind/cmd/settlement_challenge.go
-- calls on the memo of a deposit.
use wolochain.Prelude.{
  ℕ, ◌+◌, ◌-◌, ◌*◌, Bool, ◌&&◌, List, [], ◌∷◌, ◌++◌, Option, none, some, leb, ◌==◌, if◌then◌else◌,
  is_empty, take, any,
}
use wolochain.Text.{Text, text, text_eq, is_digit}
use wolochain.Fallible.{Fallible, ok, fail, ◌>>=◌}
use wolochain.Probe.{quoted}

-- The value of a hexadecimal digit.
abbrev hex_value : ℕ → Option ℕ
hex_value c =
    if is_digit c
    then some (c - b'0')
    else if leb b'a' c && leb c b'f'
    then some (c - b'a' + 10)
    else if leb b'A' c && leb c b'F'
    then some (c - b'A' + 10)
    else none

abbrev invalid_escape : Text → Fallible Text
invalid_escape s = fail (text "invalid URL escape " ++ quoted (take 3 s))

abbrev cons_ok : ℕ → Fallible Text → Fallible Text
cons_ok c (ok s) = ok (c ∷ s)
cons_ok c (fail e) = fail e

-- The byte of two hexadecimal digits, in front of the rest.
abbrev cons_escaped : Text → Option ℕ → Option ℕ → Fallible Text → Fallible Text
cons_escaped s none low rest = invalid_escape s
cons_escaped s (some high) none rest = invalid_escape s
cons_escaped s (some high) (some low) rest = cons_ok (high * 16 + low) rest

-- `url.QueryUnescape`
unfoldable pub query_unescape : Text → Fallible Text
query_unescape [] = ok []
query_unescape (c ∷ []) =
    if c == b'%' then invalid_escape (c ∷ []) else ok ((if c == b'+' then 32 else c) ∷ [])
query_unescape (c ∷ d ∷ []) =
    let rest = query_unescape (d ∷ []) in
    if c == b'%' then invalid_escape (c ∷ d ∷ []) else cons_ok (if c == b'+' then 32 else c) rest
query_unescape (c ∷ d ∷ e ∷ s) =
    let behind = query_unescape s in
    let rest = query_unescape (d ∷ e ∷ s) in
    if c == b'%'
    then cons_escaped (c ∷ d ∷ e ∷ []) (hex_value d) (hex_value e) behind
    else cons_ok (if c == b'+' then 32 else c) rest

-- `strings.Cut(s, sep)`, without the flag
unfoldable pub cut : ℕ → Text → Text × Text
cut sep [] = ([], [])
cut sep (c ∷ s) =
    let (before, behind) = cut sep s in if c == sep then ([], s) else (c ∷ before, behind)

abbrev cons_first : ℕ → List Text → List Text
cons_first c [] = (c ∷ []) ∷ []
cons_first c (part ∷ parts) = (c ∷ part) ∷ parts

-- The parts between the `&`.
unfoldable pub split_query : Text → List Text
split_query [] = [] ∷ []
split_query (c ∷ s) =
    let parts = split_query s in if c == b'&' then [] ∷ parts else cons_first c parts

-- A key with its value.
unfoldable pub parse_pair : Text → Fallible (Text × Text)
parse_pair part =
    let (key, value) = cut b'=' part in
    do key ← query_unescape key; value ← query_unescape value; ok (key, value)

-- The pairs; an empty part is passed over.
unfoldable pub parse_pairs : List Text → Fallible (List (Text × Text))
parse_pairs [] = ok []
parse_pairs (part ∷ parts) =
    let rest = parse_pairs parts in
    if is_empty part then rest else (do pair ← parse_pair part; pairs ← rest; ok (pair ∷ pairs))

abbrev has_semicolon : Text → Bool
has_semicolon = any (λ c. c == b';')

-- The error of a semicolon goes before that of an escape, wherever it stands.
unfoldable pub parse_query : Text → Fallible (List (Text × Text))
parse_query query =
    if has_semicolon query
    then fail (text "invalid semicolon separator in query")
    else parse_pairs (split_query query)

-- `values.Get(key)`: the first value of the key, or no text.
unfoldable pub get_value : Text → List (Text × Text) → Text
get_value key [] = []
get_value key ((k, v) ∷ pairs) = if text_eq k key then v else get_value key pairs
