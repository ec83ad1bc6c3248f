-- ===== src/Uri.antt =====
-- `encodeURIComponent` and `decodeURIComponent` of ECMAScript, which src/auth/cookies.ts calls, over
-- UTF-8, on the code points of a text.
pub mod Escapes
pub mod Coding
use supply_chain_mangement_s.Common.{
  ℕ, zero, suc, ◌+◌, ◌-◌, ◌*◌, ◌/◌, ◌%◌, ltb, Bool, true, false, ◌&&◌, ◌||◌, not, Option, none,
  some, List, [], ◌∷◌, ◌++◌, if◌then◌else◌, length,
}
use supply_chain_mangement_s.Bytes.{Bytes, ◌===◌, codes}

-- A letter, a digit, or one of `-_.!~*'()`.
unfoldable pub is_unreserved : ℕ → Bool
is_unreserved c =
    ltb 47 c && ltb c 58
    || ltb 64 c && ltb c 91
    || ltb 96 c && ltb c 123
    || ltb 38 c && ltb c 43
    || c === 45
    || c === 95
    || c === 46
    || c === 33
    || c === 126

-- A code point that UTF-8 encodes: no surrogate, at most 10FFFF.
unfoldable pub is_scalar : ℕ → Bool
is_scalar c = ltb c 55296 || ltb 57343 c && ltb c 1114112

unfoldable pub utf8 : ℕ → Bytes
utf8 c =
    if ltb c 128
    then c ∷ []
    else if ltb c 2048
    then (192 + c / 64) ∷ (128 + c % 64) ∷ []
    else if ltb c 65536
    then (224 + c / 4096) ∷ (128 + c / 64 % 64) ∷ (128 + c % 64) ∷ []
    else (240 + c / 262144) ∷ (128 + c / 4096 % 64) ∷ (128 + c / 64 % 64) ∷ (128 + c % 64) ∷ []

unfoldable pub hex_digit : ℕ → ℕ
hex_digit n = if ltb n 10 then 48 + n else 55 + n

-- `%XX` for each byte.
unfoldable pub escaped : Bytes → Bytes
unfolding hex_digit
escaped [] = []
escaped (b ∷ bytes) = b'%' ∷ hex_digit (b / 16) ∷ hex_digit (b % 16) ∷ escaped bytes

unfoldable pub encoded_point : ℕ → Bytes
unfolding is_unreserved utf8 escaped
encoded_point c = if is_unreserved c then c ∷ [] else escaped (utf8 c)

abbrev pub prefixed : Bytes → Option Bytes → Option Bytes
prefixed front none = none
prefixed front (some text) = some (front ++ text)

-- `none` is a `URIError`, on a surrogate without its pair.
unfoldable pub encode_uri_component : Bytes → Option Bytes
unfolding is_scalar encoded_point
encode_uri_component [] = some []
encode_uri_component (c ∷ text) =
    let rest = encode_uri_component text in
    if is_scalar c then prefixed (encoded_point c) rest else none

unfoldable pub hex_value : ℕ → Option ℕ
hex_value c =
    if ltb 47 c && ltb c 58
    then some (c - 48)
    else if ltb 64 c && ltb c 71
    then some (c - 55)
    else if ltb 96 c && ltb c 103
    then some (c - 87)
    else none

abbrev pub byte_of : Option ℕ → Option ℕ → Bytes → Option (ℕ × Bytes)
byte_of none low rest = none
byte_of (some high) none rest = none
byte_of (some high) (some low) rest = some (high * 16 + low, rest)

-- The byte that `%XX` at the front stands for, and the text behind it.
unfoldable pub read_byte : Bytes → Option (ℕ × Bytes)
unfolding hex_value
read_byte (p ∷ high ∷ low ∷ rest) =
    if p === b'%' then byte_of (hex_value high) (hex_value low) rest else none
read_byte _ = none

-- `n` continuation bytes behind bits that stand for `acc`.
unfoldable pub read_continuation : ℕ → ℕ → Bytes → Option (ℕ × Bytes)
unfolding read_byte
read_continuation zero acc text = some (acc, text)
read_continuation (suc n) acc text = elim (read_byte text) [
  | none ↦ none
  | some (b, rest) ↦ elim (ltb 127 b && ltb b 192) [
    | true ↦ read_continuation n (acc * 64 + (b - 128)) rest
    | false ↦ none
  ]
]

-- The shortest form of a scalar only.
abbrev pub checked : ℕ → Option (ℕ × Bytes) → Option (ℕ × Bytes)
checked least none = none
checked least (some (c, rest)) = if not (ltb c least) && is_scalar c then some (c, rest) else none

-- The code point that starts with the byte `b`, the escapes behind it in `rest`.
unfoldable pub point_from : ℕ → Bytes → Option (ℕ × Bytes)
unfolding read_continuation is_scalar
point_from b rest =
    if ltb b 128
    then some (b, rest)
    else if ltb b 192
    then none
    else if ltb b 224
    then checked 128 (read_continuation 1 (b - 192) rest)
    else if ltb b 240
    then checked 2048 (read_continuation 2 (b - 224) rest)
    else if ltb b 248
    then checked 65536 (read_continuation 3 (b - 240) rest)
    else none

unfoldable pub read_point : Bytes → Option (ℕ × Bytes)
unfolding read_byte point_from
read_point text = elim (read_byte text) [ none ↦ none | some (b, rest) ↦ point_from b rest ]

-- Every round reads a character at least.
unfoldable pub decode_from : ℕ → Bytes → Option Bytes
unfolding read_point
decode_from fuel [] = some []
decode_from zero (c ∷ text) = none
decode_from (suc fuel) (c ∷ text) = elim (c === b'%') [
  | false ↦ prefixed (c ∷ []) (decode_from fuel text)
  | true ↦ elim (read_point (c ∷ text)) [
    | none ↦ none
    | some (point, rest) ↦ prefixed (point ∷ []) (decode_from fuel rest)
  ]
]

-- `none` is a `URIError`.
unfoldable pub decode_uri_component : Bytes → Option Bytes
unfolding decode_from
decode_uri_component text = decode_from (length text) text
