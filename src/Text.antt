-- ===== src/Text.antt =====
-- Go strings, as the settlement code of cmd/wolochaind/cmd/settlement.go uses them: a text is its
-- list of bytes. The functions are those of Go's `strings` package that the code calls, on ASCII:
-- white space and letters outside ASCII are left as they are.
pub mod Laws
use Prim.Native.Char.{code}
use Prim.Native.String
use mathlib.Core.List.{reverse}
use wolochain.Prelude.{
  ℕ, zero, suc, ◌+◌, ◌-◌, ◌*◌, ◌/◌, ◌%◌, String, Bool, true, false, not, ◌&&◌, ◌||◌, List, [], ◌∷◌,
  ◌++◌, map, ltb, leb, ◌==◌, if◌then◌else◌, is_empty, take,
}

abbrev pub Text : Type 0
Text = List ℕ

-- A string literal.
unfoldable pub text : String → Text
text String.[] = []
text (String.◌∷◌ c s) = code c ∷ text s

unfoldable pub text_eq : Text → Text → Bool
text_eq [] [] = true
text_eq [] (d ∷ t) = false
text_eq (c ∷ s) [] = false
text_eq (c ∷ s) (d ∷ t) = c == d && text_eq s t

abbrev pub is_space : ℕ → Bool
is_space c = (leb 9 c && leb c 13) || c == 32

abbrev pub is_digit : ℕ → Bool
is_digit c = leb b'0' c && leb c b'9'

abbrev pub is_upper : ℕ → Bool
is_upper c = leb b'A' c && leb c b'Z'

abbrev pub is_lower : ℕ → Bool
is_lower c = leb b'a' c && leb c b'z'

abbrev pub is_alphanumeric : ℕ → Bool
is_alphanumeric c = is_upper c || (is_lower c || is_digit c)

unfoldable pub trim_left : Text → Text
trim_left [] = []
trim_left (c ∷ s) = if is_space c then trim_left s else c ∷ s

unfoldable pub trim_right : Text → Text
trim_right [] = []
trim_right (c ∷ s) = let r = trim_right s in if is_space c && is_empty r then [] else c ∷ r

-- `strings.TrimSpace`
unfoldable pub trim_space : Text → Text
trim_space s = trim_right (trim_left s)

-- `strings.TrimRight(s, "/")`
unfoldable pub trim_slashes : Text → Text
trim_slashes [] = []
trim_slashes (c ∷ s) = let r = trim_slashes s in if c == b'/' && is_empty r then [] else c ∷ r

abbrev pub lower : ℕ → ℕ
lower c = if is_upper c then c + 32 else c

abbrev pub upper : ℕ → ℕ
upper c = if is_lower c then c - 32 else c

unfoldable pub to_lower : Text → Text
to_lower s = map lower s

unfoldable pub to_upper : Text → Text
to_upper s = map upper s

-- `strings.EqualFold`
unfoldable pub equal_fold : Text → Text → Bool
equal_fold s t = text_eq (to_lower s) (to_lower t)

-- `strings.HasPrefix(s, p)`
unfoldable pub has_prefix : Text → Text → Bool
has_prefix s [] = true
has_prefix [] (d ∷ p) = false
has_prefix (c ∷ s) (d ∷ p) = c == d && has_prefix s p

-- `strings.Contains(s, p)`
unfoldable pub contains : Text → Text → Bool
contains [] p = has_prefix [] p
contains (c ∷ s) p = has_prefix (c ∷ s) p || contains s p

-- `url.PathEscape`: what is left as it is in a path segment; every other byte is `%XX`.
abbrev is_path_safe : ℕ → Bool
is_path_safe c =
    is_alphanumeric c
    || (c == b'-'
        || (c == b'_'
            || (c == b'.'
                || (c == b'~'
                    || (c == b'$'
                        || (c == b'&'
                            || (c == b'+' || (c == b'=' || (c == b':' || c == b'@')))))))))

abbrev hex_digit : ℕ → ℕ
hex_digit d = if ltb d 10 then b'0' + d else b'A' + (d - 10)

unfoldable pub path_escape : Text → Text
path_escape [] = []
path_escape (c ∷ s) =
    let rest = path_escape s in
    if is_path_safe c then c ∷ rest else b'%' ∷ hex_digit (c / 16) ∷ hex_digit (c % 16) ∷ rest

-- What a run on concrete texts unfolds.
unfoldable pub text_runs : Unit {0}
unfolding text text_eq trim_left trim_right trim_space trim_slashes to_lower to_upper equal_fold
    has_prefix contains path_escape
text_runs = tt
