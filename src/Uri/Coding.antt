-- ===== src/Uri/Coding.antt =====
-- `decodeURIComponent` undoes `encodeURIComponent`, and which characters an
-- encoded text has.
use supply_chain_mangement_s.Common.{
  ℕ, zero, suc, ◌+◌, ◌≤◌, ◌≡◌, ◌∙◌, refl, ap, true, false, Option, none, some, [], ◌∷◌, ◌++◌,
  length, length-append, All, All-append, arith, Bool-cases, inl, inr, ltb, ◌&&◌, not, ◌/◌, ◌%◌,
}
use supply_chain_mangement_s.Bytes.{Bytes, ◌===◌}
use supply_chain_mangement_s.Uri.{
  is_unreserved, is_scalar, utf8, hex_digit, escaped, encoded_point, prefixed, encode_uri_component,
  read_point, decode_from, decode_uri_component,
}
use supply_chain_mangement_s.Uri.Escapes.{read_point-utf8}

prefixed-some :
    (front : Bytes) (o : Option Bytes) (text : Bytes)
    → prefixed front o ≡ some text
    → (rest : Bytes) × (o ≡ some rest) × (text ≡ front ++ rest)
prefixed-some front none text h = absurd (ground (arith, h))
prefixed-some front (some rest) text h = (rest, refl, ground (arith, h))

-- What an encoded text is made of.
pub encode-cons :
    (c : ℕ) (text encoded : Bytes)
    → encode_uri_component (c ∷ text) ≡ some encoded
    → (is_scalar c ≡ true)
      × ((rest : Bytes) × (encode_uri_component text ≡ some rest)
          × (encoded ≡ encoded_point c ++ rest))
unfolding encode_uri_component
encode-cons c text encoded h = elim (Bool-cases (is_scalar c)) [
  | inl scalar ↦
      (scalar, prefixed-some (encoded_point c) (encode_uri_component text) encoded (rw scalar at h))
  | inr surrogate ↦ absurd (ground (arith, rw surrogate at h))
]

utf8-cons : (c : ℕ) → (b : ℕ) × (bytes : Bytes) × (utf8 c ≡ b ∷ bytes)
unfolding utf8
utf8-cons c = elim (Bool-cases (ltb c 128)) [
  | inl one ↦ (c, [], rw one refl)
  | inr many ↦ elim (Bool-cases (ltb c 2048)) [
    | inl two ↦ (192 + c / 64, (128 + c % 64) ∷ [], rw (many, two) refl)
    | inr more ↦ elim (Bool-cases (ltb c 65536)) [
      | inl three ↦
          (224 + c / 4096, (128 + c / 64 % 64) ∷ (128 + c % 64) ∷ [], rw (many, more, three) refl)
      | inr most ↦ (
        240 + c / 262144,
        (128 + c / 4096 % 64) ∷ (128 + c / 64 % 64) ∷ (128 + c % 64) ∷ [],
        rw (many, more, most) refl,
      )
    ]
  ]
]

decode_from-point :
    (fuel : ℕ) (text front : Bytes) (point : ℕ) (rest : Bytes)
    → text ≡ b'%' ∷ front
    → read_point text ≡ some (point, rest)
    → decode_from (suc fuel) text ≡ prefixed (point ∷ []) (decode_from fuel rest)
unfolding decode_from
decode_from-point fuel text front point rest e h = rw e (rw (decode_from, rw e at h) refl)

-- An encoded code point at the front is read back in one round.
decode_from-encoded_point :
    (fuel c : ℕ) (rest : Bytes)
    → is_scalar c ≡ true
    → decode_from (suc fuel) (encoded_point c ++ rest) ≡ prefixed (c ∷ []) (decode_from fuel rest)
unfolding encoded_point
decode_from-encoded_point fuel c rest h = elim (Bool-cases (is_unreserved c)) [
  | inl plain ↦
      let no_percent : (c === b'%') ≡ false = unfold is_unreserved in ground (arith, plain) in
      rw plain (unfold decode_from in rw (decode_from, no_percent) refl)
  | inr other ↦
      let (b, bytes, e) = utf8-cons c in
      let front = hex_digit (b / 16) ∷ hex_digit (b % 16) ∷ (escaped bytes ++ rest) in
      rw other (
        decode_from-point fuel (escaped (utf8 c) ++ rest) front c rest
          (unfold escaped in ap (λ t. escaped t ++ rest) e) (read_point-utf8 c rest h))
]

length-encoded_point : (c : ℕ) → 1 ≤ length (encoded_point c)
unfolding encoded_point
length-encoded_point c = elim (Bool-cases (is_unreserved c)) [
  | inl plain ↦ rw plain (omega arith)
  | inr other ↦ let (b, bytes, e) = utf8-cons c in rw (other, e) (unfold escaped in omega arith)
]

decode_from-encoded :
    (text encoded : Bytes) (fuel : ℕ)
    → encode_uri_component text ≡ some encoded
    → length encoded ≤ fuel
    → decode_from fuel encoded ≡ some text
unfolding encode_uri_component
decode_from-encoded [] encoded fuel h enough =
    let empty : [] ≡ encoded = ground (arith, h) in rw (← empty) (unfold decode_from in refl)
decode_from-encoded (c ∷ text) encoded zero h enough =
    let (scalar, (rest, h', e)) = encode-cons c text encoded h in
    absurd
      (omega (arith, length-encoded_point c, ap length e, length-append (encoded_point c) rest))
decode_from-encoded (c ∷ text) encoded (suc fuel) h enough =
    let (scalar, (rest, h', e)) = encode-cons c text encoded h in
    let shorter : length rest ≤ fuel =
      omega (arith, length-encoded_point c, ap length e, length-append (encoded_point c) rest) in
    rw e (
      decode_from-encoded_point fuel c rest scalar
      ∙ ap (prefixed (c ∷ [])) (decode_from-encoded text rest fuel h' shorter))

-- What `encodeURIComponent` makes of a text, `decodeURIComponent` turns back into the text.
pub decode-encode :
    (text encoded : Bytes)
    → encode_uri_component text ≡ some encoded
    → decode_uri_component encoded ≡ some text
unfolding decode_uri_component
decode-encode text encoded h = decode_from-encoded text encoded (length encoded) h (omega arith)

-- A printable character in ASCII that is no space and no `;`.
abbrev pub IsPlain : ℕ → Type 0
IsPlain c = (ltb 32 c && ltb c 127 && not (c === b';')) ≡ true

hex_digit-IsPlain : (n : ℕ) → ltb n 16 ≡ true → IsPlain (hex_digit n)
unfolding hex_digit
hex_digit-IsPlain n h = ground (arith, h)

escaped-IsPlain : (bytes : Bytes) → All (λ b. ltb b 256 ≡ true) bytes → All IsPlain (escaped bytes)
unfolding escaped
escaped-IsPlain [] h = tt
escaped-IsPlain (b ∷ bytes) h = (
  refl,
  (
    hex_digit-IsPlain (b / 16) (ground (arith, h.0)),
    (hex_digit-IsPlain (b % 16) (ground arith), escaped-IsPlain bytes h.1),
  ),
)

utf8-bytes : (c : ℕ) → is_scalar c ≡ true → All (λ b. ltb b 256 ≡ true) (utf8 c)
unfolding utf8
utf8-bytes c h =
    let top : ltb c 1114112 ≡ true = unfold is_scalar in ground (arith, h) in
    elim (Bool-cases (ltb c 128)) [
      | inl one ↦ rw one (ground (arith, one), tt)
      | inr many ↦ elim (Bool-cases (ltb c 2048)) [
        | inl two ↦ rw (many, two) (ground (arith, two), (ground arith, tt))
        | inr more ↦ elim (Bool-cases (ltb c 65536)) [
          | inl three ↦
              rw (many, more, three) (ground (arith, three), (ground arith, (ground arith, tt)))
          | inr most ↦
              rw (many, more, most)
                (ground (arith, top), (ground arith, (ground arith, (ground arith, tt))))
        ]
      ]
    ]

encoded_point-IsPlain : (c : ℕ) → is_scalar c ≡ true → All IsPlain (encoded_point c)
unfolding encoded_point
encoded_point-IsPlain c h = elim (Bool-cases (is_unreserved c)) [
  | inl plain ↦ rw plain (unfold is_unreserved in ground (arith, plain), tt)
  | inr other ↦ rw other (escaped-IsPlain (utf8 c) (utf8-bytes c h))
]

pub encode-IsPlain :
    (text encoded : Bytes) → encode_uri_component text ≡ some encoded → All IsPlain encoded
unfolding encode_uri_component
encode-IsPlain [] encoded h = let empty : [] ≡ encoded = ground (arith, h) in rw (← empty) tt
encode-IsPlain (c ∷ text) encoded h =
    let (scalar, (rest, h', e)) = encode-cons c text encoded h in
    rw e (
      All-append IsPlain (encoded_point c) rest (encoded_point-IsPlain c scalar)
        (encode-IsPlain text rest h'))
