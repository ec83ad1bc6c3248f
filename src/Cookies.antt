-- ===== src/Cookies.antt =====
-- src/auth/cookies.ts: the Cookie header of a request and the Set-Cookie header of a response. A text
-- is the list of its code points.
pub mod Parts
pub mod Headers
mod Tests
use supply_chain_mangement_s.Common.{
  ℕ, zero, suc, ◌+◌, ◌-◌, ◌*◌, ◌/◌, ◌%◌, ltb, Bool, true, false, ◌&&◌, ◌||◌, not, Option, none,
  some, List, [], ◌∷◌, ◌++◌, if◌then◌else◌, length,
}
use supply_chain_mangement_s.Bytes.{Bytes, ◌===◌, codes}
use supply_chain_mangement_s.Uri.{
  is_unreserved, is_scalar, utf8, hex_digit, escaped, encoded_point, prefixed, encode_uri_component,
  hex_value, byte_of, read_byte, read_continuation, checked, point_from, read_point, decode_from,
  decode_uri_component,
}

-- The characters that `trim` removes.
unfoldable pub is_space : ℕ → Bool
is_space c =
    ltb 8 c && ltb c 14
    || c === 32
    || c === 160
    || c === 5760
    || ltb 8191 c && ltb c 8203
    || c === 8232
    || c === 8233
    || c === 8239
    || c === 8287
    || c === 12288
    || c === 65279

unfoldable pub trim_start : Bytes → Bytes
unfolding is_space
trim_start [] = []
trim_start (c ∷ text) = let rest = trim_start text in if is_space c then rest else c ∷ text

abbrev pub ended_by : ℕ → Bytes → Bytes
ended_by c [] = if is_space c then [] else c ∷ []
ended_by c (d ∷ rest) = c ∷ d ∷ rest

unfoldable pub trim_end : Bytes → Bytes
unfolding is_space
trim_end [] = []
trim_end (c ∷ text) = ended_by c (trim_end text)

abbrev pub onto_first : ℕ → List Bytes → List Bytes
onto_first c [] = (c ∷ []) ∷ []
onto_first c (part ∷ parts) = (c ∷ part) ∷ parts

-- `text.split(separator)`
unfoldable pub split_on : ℕ → Bytes → List Bytes
split_on separator [] = [] ∷ []
split_on separator (c ∷ text) =
    let parts = split_on separator text in
    if c === separator then [] ∷ parts else onto_first c parts

abbrev pub after_char : ℕ → Option (Bytes × Bytes) → Option (Bytes × Bytes)
after_char c none = none
after_char c (some (left, right)) = some (c ∷ left, right)

-- The text in front of the first separator, and behind it.
unfoldable pub cut_at : ℕ → Bytes → Option (Bytes × Bytes)
cut_at separator [] = none
cut_at separator (c ∷ text) =
    let rest = cut_at separator text in
    if c === separator then some ([], text) else after_char c rest

unfoldable pub same : Bytes → Bytes → Bool
same [] [] = true
same (c ∷ s) (d ∷ t) = c === d && same s t
same _ _ = false

-- The object `out`, its newest assignment first.
abbrev pub Cookies : Type 0
Cookies = List (Bytes × Bytes)

unfoldable pub get : Bytes → Cookies → Option Bytes
unfolding same
get name [] = none
get name ((key, value) ∷ out) =
    let rest = get name out in if same key name then some value else rest

-- The decoded value, or the value itself.
abbrev pub or_raw : Bytes → Option Bytes → Bytes
or_raw value none = value
or_raw value (some text) = text

-- `out[key] = …`: no assignment for an empty key, and none that shows for `__proto__`, whose setter
-- ignores a string.
unfoldable pub assign : Bytes → Bytes → Cookies → Cookies
unfolding same decode_uri_component
assign [] value out = out
assign (c ∷ key) value out =
    if same (c ∷ key) (codes "__proto__")
    then out
    else (c ∷ key, or_raw value (decode_uri_component value)) ∷ out

unfoldable pub parse_part : Bytes → Cookies → Cookies
unfolding cut_at trim_start trim_end assign
parse_part part out = elim (cut_at b'=' part) [
  | none ↦ out
  | some (left, right) ↦ assign (trim_end (trim_start left)) (trim_end (trim_start right)) out
]

unfoldable pub parse_parts : List Bytes → Cookies → Cookies
unfolding parse_part
parse_parts [] out = out
parse_parts (part ∷ parts) out = parse_parts parts (parse_part part out)

unfoldable pub parse_cookies : Option Bytes → Cookies
unfolding split_on parse_parts
parse_cookies none = []
parse_cookies (some header) = parse_parts (split_on b';' header) []

abbrev pub session_cookie_name : Bytes
session_cookie_name = codes "scs_session"

-- The attributes behind the value.
abbrev pub attributes : Bytes → (secure : Bool) → Bytes
attributes max_age secure =
    codes "; Path=/; HttpOnly; SameSite=Lax; Max-Age="
    ++ max_age
    ++ (if secure then codes "; Secure" else [])

unfoldable pub serialize_session_cookie : Bytes → (secure : Bool) → Option Bytes
unfolding encode_uri_component
serialize_session_cookie token secure = elim (encode_uri_component token) [
  | none ↦ none
  | some value ↦ some (session_cookie_name ++ b'=' ∷ (value ++ attributes (codes "2592000") secure))
]

unfoldable pub serialize_clear_cookie : (secure : Bool) → Bytes
serialize_clear_cookie secure = session_cookie_name ++ b'=' ∷ attributes (codes "0") secure
