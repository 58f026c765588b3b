-- ===== src/Request/Valid.antt =====
-- About the requests and amounts that `normalize_request` accepts.
use wolochain.Prelude.{
  ℕ, ◌*◌, ◌≤◌, ◌<◌, ◌≡◌, inl, inr, refl, sym, ap, ◌∙◌, true, false, [], ◌∷◌, arith, some, length,
  take, length-take, ltb, ltb→lt, Bool-cases, Option-cases, is_empty,
}
use wolochain.Text.{Text, text_eq, trim_space}
use wolochain.Text.Laws.{trim_space_idem, text_eq_sound}
use wolochain.Decimal.{
  ℤ, pos, negsuc, micro, i64_mod, u64_mod, scan, parse_uint, format_int, format_uint,
}
use wolochain.Decimal.RoundTrip.{parse_uint-format_uint, trim_space-format_uint}
use wolochain.Fallible.{ok, >>=-eq-ok, require->>-eq-ok, ok-injective}
use wolochain.Config.{canonical_prefix}
use wolochain.Request.{
  ExecuteRequest, NormalizedRequest, matches_request_id, is_wolo_address, normalize_amount_uwolo,
  normalize_request, scale, wrap_i64, normalized, checked_amount,
}

pub record IsNormal (n : NormalizedRequest) : Type 0 where
  pub id : matches_request_id n.request_id ≡ true
  pub id_trimmed : trim_space n.request_id ≡ n.request_id
  pub address : is_wolo_address n.to_address canonical_prefix ≡ true
  pub address_trimmed : trim_space n.to_address ≡ n.to_address
  pub memo_fits : length n.memo ≤ 180

-- The amount in whole wolo, if there is one, fits an `int64` in uwolo.
abbrev pub FitsInt64 : ℤ → Type 0
FitsInt64 (pos n) = n * micro < i64_mod
FitsInt64 (negsuc n) = Unit

-- The amount of a request stands for itself: it is a trimmed text that the parser accepts, and is
-- not the digit 0.
pub record IsAmount (amount : Text) : Type 0 where
  pub trimmed : trim_space amount ≡ amount
  pub value : ℕ
  pub parses : parse_uint amount ≡ some value
  pub not_zero : text_eq amount (b'0' ∷ []) ≡ false

-- An amount of whole wolo that fits is printed in uwolo.
scale-pos : (n : ℕ) → n * micro < i64_mod → scale (pos n) ≡ pos (n * micro)
unfolding scale wrap_i64
scale-pos n h = ground arith

format_int-pos : (n : ℕ) → format_int (pos n) ≡ format_uint n
unfolding format_int
format_int-pos n = refl

zero_text : (n : ℕ) → parse_uint (b'0' ∷ []) ≡ some n → n ≡ 0
unfolding parse_uint scan
zero_text n e = ground arith

format_uint-zero : (n : ℕ) → 0 < n → n < u64_mod → text_eq (format_uint n) (b'0' ∷ []) ≡ false
format_uint-zero n p h = elim (Bool-cases (text_eq (format_uint n) (b'0' ∷ []))) [
  | inl same ↦
      let e : parse_uint (b'0' ∷ []) ≡ some n =
        rw (text_eq_sound _ _ same) at (parse_uint-format_uint n h) in
      let z = zero_text n e in absurd (omega arith)
  | inr other ↦ other
]

format_uint-IsAmount : (n : ℕ) → 0 < n → n < u64_mod → IsAmount (format_uint n)
format_uint-IsAmount n p h = record {
  trimmed = trim_space-format_uint n;
  value = n;
  parses = parse_uint-format_uint n h;
  not_zero = format_uint-zero n p h;
}

checked_amount-IsAmount :
    (trimmed amount : Text)
    → trim_space trimmed ≡ trimmed
    → checked_amount trimmed ≡ ok amount
    → IsAmount amount
checked_amount-IsAmount trimmed amount t h = elim (Option-cases (parse_uint trimmed)) [
  | inl bad ↦ absurd (ground arith)
  | inr (v, good) ↦ elim (Bool-cases (text_eq trimmed (b'0' ∷ []))) [
    | inl zero_digit ↦ absurd (ground arith)
    | inr fine ↦
        let e : trimmed ≡ amount = ground arith in
        rw (← e) (record { trimmed = t; value = v; parses = good; not_zero = fine })
  ]
]

-- An accepted amount is one that the program reads back: if the whole wolo that are asked for fit an
-- `int64` of uwolo, the amount is a trimmed decimal in the range of an `uint64`, and not the digit 0.
pub normalize_amount_uwolo-IsAmount :
    (raw : Text) (wolo : ℤ) (amount : Text)
    → FitsInt64 wolo
    → normalize_amount_uwolo raw wolo ≡ ok amount
    → IsAmount amount
unfolding normalize_amount_uwolo
normalize_amount_uwolo-IsAmount raw (pos n) amount fits h =
    elim (Bool-cases (is_empty (trim_space raw))) [
      | inl blank ↦ elim (Bool-cases (ltb 0 n)) [
        | inl some_wolo ↦
            let e : format_int (scale (pos n)) ≡ amount = ground arith in
            let e' : format_uint (n * micro) ≡ amount =
              sym (format_int-pos (n * micro)) ∙ ap format_int (sym (scale-pos n fits)) ∙ e in
            rw (← e')
              (format_uint-IsAmount (n * micro) (omega (arith, ltb→lt 0 n some_wolo)) (omega arith))
        | inr no_wolo ↦ absurd (ground arith)
      ]
      | inr given ↦ elim (Bool-cases (ltb 0 n)) [
        | inl some_wolo ↦ absurd (ground arith)
        | inr no_wolo ↦
            checked_amount-IsAmount (trim_space raw) amount (trim_space_idem raw) (ground arith)
      ]
    ]
normalize_amount_uwolo-IsAmount raw (negsuc n) amount fits h =
    elim (Bool-cases (is_empty (trim_space raw))) [
      | inl blank ↦ absurd (ground arith)
      | inr given ↦
          checked_amount-IsAmount (trim_space raw) amount (trim_space_idem raw) (ground arith)
    ]

pub normalize_request-inv :
    (request : ExecuteRequest) (n : NormalizedRequest)
    → normalize_request request ≡ ok n
    → (matches_request_id (trim_space request.request_id) ≡ true)
      × (is_wolo_address (trim_space request.to_address) canonical_prefix ≡ true)
      × (normalize_amount_uwolo request.amount_uwolo request.amount_wolo ≡ ok n.amount_uwolo)
      × (n ≡ normalized request n.amount_uwolo)
unfolding normalize_request
normalize_request-inv request n h =
    let (p, h₁) = require->>-eq-ok _ _ _ h in
    let (q, h₂) = require->>-eq-ok _ _ _ h₁ in
    let (amount, e, h₃) = >>=-eq-ok _ _ h₂ in
    let same : normalized request amount ≡ n = ok-injective h₃ in
    let amount_same : amount ≡ n.amount_uwolo =
      ap (λ (r : NormalizedRequest). r.amount_uwolo) same in
    (p, q, e ∙ ap ok amount_same, sym same ∙ ap (normalized request) amount_same)

-- An accepted request is well formed: its id matches the pattern of ids, its address has the wolo
-- prefix, both are trimmed, and its memo has at most 180 bytes.
pub normalize_request-IsNormal :
    (request : ExecuteRequest) (n : NormalizedRequest)
    → normalize_request request ≡ ok n
    → IsNormal n
normalize_request-IsNormal request n h =
    let (p, q, _, e) = normalize_request-inv request n h in
    rw e (record {
      id = p;
      id_trimmed = trim_space_idem request.request_id;
      address = q;
      address_trimmed = trim_space_idem request.to_address;
      memo_fits = omega (arith, length-take 180 (trim_space request.memo));
    })

-- The request that a settlement run sends for a planned line.
abbrev pub resubmit : NormalizedRequest → ExecuteRequest
resubmit n = record {
  request_id = n.request_id;
  to_address = n.to_address;
  amount_uwolo = n.amount_uwolo;
  amount_wolo = pos 0;
  memo = n.memo;
}

parses-nonempty : (s : Text) (v : ℕ) → parse_uint s ≡ some v → is_empty s ≡ false
unfolding parse_uint
parses-nonempty [] v h = cc
parses-nonempty (c ∷ s) v h = refl

resubmit-amount :
    (amount : Text) → IsAmount amount → normalize_amount_uwolo amount (pos 0) ≡ ok amount
unfolding normalize_amount_uwolo
resubmit-amount amount a =
    rw a.trimmed (ground (arith, a.parses, a.not_zero, parses-nonempty amount a.value a.parses))

normalize-resubmit_normal :
    (n : NormalizedRequest)
    → IsNormal n
    → IsAmount n.amount_uwolo
    → normalize_request (resubmit n) ≡ ok (normalized (resubmit n) n.amount_uwolo)
unfolding normalize_request
normalize-resubmit_normal n v a =
    rw v.id_trimmed
      (rw v.id (rw v.address_trimmed (rw v.address (rw (resubmit-amount n.amount_uwolo a)))))

-- A request that was accepted is accepted again when its normalized fields are sent, with the same
-- id, address and amount; only its memo is trimmed again. An amount of whole wolo has to fit.
pub normalize-resubmit :
    (request : ExecuteRequest) (n : NormalizedRequest)
    → FitsInt64 request.amount_wolo
    → normalize_request request ≡ ok n
    → normalize_request (resubmit n) ≡ ok (record n { memo = take 180 (trim_space n.memo) })
normalize-resubmit request n fits h =
    let v = normalize_request-IsNormal request n h in
    let (_, _, given, same) = normalize_request-inv request n h in
    let no_role : n.signer_role ≡ [] = ap (λ (r : NormalizedRequest). r.signer_role) same in
    normalize-resubmit_normal n v (normalize_amount_uwolo-IsAmount _ _ _ fits given)
    ∙ ap ok (rw (v.id_trimmed, v.address_trimmed, no_role))
