-- ===== src/Cookies/Headers.antt =====
-- src/auth/cookies.ts: the cookie that a response sets, as a browser stores it and sends it back among
-- others (RFC 6265).
use supply_chain_mangement_s.Common.{
  ℕ, ◌≡◌, ◌∙◌, refl, ap, Bool, true, false, none, some, List, [], ◌∷◌, ◌++◌, All, All-append, arith,
  if◌then◌else◌,
}
use supply_chain_mangement_s.Bytes.{Bytes, ◌===◌, codes}
use supply_chain_mangement_s.Uri.{
  is_scalar, encode_uri_component, encoded_point, decode_uri_component,
}
use supply_chain_mangement_s.Cookies.{
  is_space, trim_start, trim_end, ended_by, cut_at, Cookies, get, same, assign, or_raw, parse_part,
  parse_parts, parse_cookies, session_cookie_name, attributes, serialize_session_cookie,
  serialize_clear_cookie,
}
use supply_chain_mangement_s.Uri.Coding.{IsPlain, encode-IsPlain, decode-encode}
use supply_chain_mangement_s.Cookies.Parts.{
  IsCookie, stored, header_of, stored-attributes, parse_part-some, parse_parts-out,
  parse_parts-append, parse_cookies-header_of, get-append,
}

IsPlain-space : (c : ℕ) → IsPlain c → is_space c ≡ false
unfolding is_space
IsPlain-space c h = ground (arith, h)

IsPlain-end : (c : ℕ) → IsPlain c → (c === b';') ≡ false
IsPlain-end c h = ground (arith, h)

plain-IsCookie : (text : Bytes) → All IsPlain text → IsCookie text
plain-IsCookie [] h = tt
plain-IsCookie (c ∷ text) h = (IsPlain-end c h.0, plain-IsCookie text h.1)

trim_start-plain : (text : Bytes) → All IsPlain text → trim_start text ≡ text
unfolding trim_start
trim_start-plain [] h = refl
trim_start-plain (c ∷ text) h = rw (IsPlain-space c h.0) refl

ended_by-plain : (c : ℕ) (text : Bytes) → is_space c ≡ false → ended_by c text ≡ c ∷ text
ended_by-plain c [] h = rw h refl
ended_by-plain c (d ∷ text) h = refl

trim_end-plain : (text : Bytes) → All IsPlain text → trim_end text ≡ text
unfolding trim_end
trim_end-plain [] h = refl
trim_end-plain (c ∷ text) h =
    ap (ended_by c) (trim_end-plain text h.1) ∙ ended_by-plain c text (IsPlain-space c h.0)

-- The session cookie of a value.
abbrev pub session_cookie : Bytes → Bytes
session_cookie value = session_cookie_name ++ b'=' ∷ value

session_cookie-IsCookie : (value : Bytes) → All IsPlain value → IsCookie (session_cookie value)
session_cookie-IsCookie value h =
    All-append (λ c. (c === b';') ≡ false) (session_cookie_name ++ b'=' ∷ []) value (ground arith)
      (plain-IsCookie value h)

parse_part-session_cookie :
    (value : Bytes) (out : Cookies)
    → All IsPlain value
    → parse_part (session_cookie value) out
      ≡ (session_cookie_name, or_raw value (decode_uri_component value)) ∷ out
unfolding trim_end assign trim_start
parse_part-session_cookie value out h =
    parse_part-some (session_cookie value) session_cookie_name value out (unfold cut_at in refl)
    ∙ ap (λ v. assign session_cookie_name v out)
        (ap trim_end (trim_start-plain value h) ∙ trim_end-plain value h)
    ∙ unfold assign same in refl

-- A session cookie that is sent after the cookies `before` and before the cookies `after`, which set
-- no session, is the one that the server reads.
get-session_cookie :
    (value : Bytes) (before after : List Bytes)
    → All IsPlain value
    → All IsCookie before
    → All IsCookie after
    → get session_cookie_name (parse_parts after []) ≡ none
    → get session_cookie_name
        (parse_cookies (some (header_of (before ++ session_cookie value ∷ after))))
      ≡ some (or_raw value (decode_uri_component value))
unfolding parse_parts
get-session_cookie value before after plain before_plain after_plain other =
    let mine : Bytes × Bytes = (session_cookie_name, or_raw value (decode_uri_component value)) in
    let cookies = parse_parts before [] in
    ap (get session_cookie_name) (
      parse_cookies-header_of (before ++ session_cookie value ∷ after) (
        All-append IsCookie before (session_cookie value ∷ after) before_plain
          (session_cookie-IsCookie value plain, after_plain))
      ∙ parse_parts-append before (session_cookie value ∷ after) []
      ∙ ap (parse_parts after) (parse_part-session_cookie value cookies plain)
      ∙ parse_parts-out after (mine ∷ cookies))
    ∙ get-append session_cookie_name (parse_parts after []) (mine ∷ cookies) other
    ∙ unfold get same in refl

encode-scalars :
    (text : Bytes)
    → All (λ c. is_scalar c ≡ true) text
    → (encoded : Bytes) × (encode_uri_component text ≡ some encoded)
unfolding encode_uri_component
encode-scalars [] h = ([], refl)
encode-scalars (c ∷ text) h =
    let (rest, e) = encode-scalars text h.1 in (encoded_point c ++ rest, rw (h.0, e) refl)

-- What a browser stores of a Set-Cookie header.
stored-session_cookie :
    (value max_age : Bytes) (secure : Bool)
    → All IsPlain value
    → stored (session_cookie value ++ attributes max_age secure) ≡ session_cookie value
stored-session_cookie value max_age secure h =
    stored-attributes (session_cookie value)
      (codes " Path=/; HttpOnly; SameSite=Lax; Max-Age="
        ++ max_age
        ++ (if secure then codes "; Secure" else []))
      (session_cookie-IsCookie value h)

-- A token of code points that UTF-8 encodes makes a session cookie; of its text a browser stores what
-- is in front of the first `;`. When a later request sends this among other cookies, where no cookie
-- has a `;` in it and none behind it sets a session, the server reads the token.
pub parse-serialize_session_cookie :
    (token : Bytes) (secure : Bool) (before after : List Bytes)
    → All (λ c. is_scalar c ≡ true) token
    → All IsCookie before
    → All IsCookie after
    → get session_cookie_name (parse_parts after []) ≡ none
    → (cookie : Bytes) × (serialize_session_cookie token secure ≡ some cookie)
      × (get session_cookie_name
            (parse_cookies (some (header_of (before ++ stored cookie ∷ after))))
          ≡ some token)
unfolding serialize_session_cookie
parse-serialize_session_cookie token secure before after scalars before_plain after_plain other =
    let (value, e) = encode-scalars token scalars in
    let plain = encode-IsPlain token value e in
    let max_age = codes "2592000" in
    (
      session_cookie value ++ attributes max_age secure,
      rw (serialize_session_cookie, e) refl,
      ap (λ c. get session_cookie_name (parse_cookies (some (header_of (before ++ c ∷ after)))))
            (stored-session_cookie value max_age secure plain)
          ∙ get-session_cookie value before after plain before_plain after_plain other
          ∙ ap (λ o. some (or_raw value o)) (decode-encode token value e),
    )

-- After the cookie that clears the session, the server reads the empty token.
parse-serialize_clear_cookie :
    (secure : Bool) (before after : List Bytes)
    → All IsCookie before
    → All IsCookie after
    → get session_cookie_name (parse_parts after []) ≡ none
    → get session_cookie_name (
        parse_cookies (some (header_of (before ++ stored (serialize_clear_cookie secure) ∷ after))))
      ≡ some []
unfolding serialize_clear_cookie
parse-serialize_clear_cookie secure before after before_plain after_plain other =
    ap (λ c. get session_cookie_name (parse_cookies (some (header_of (before ++ c ∷ after)))))
      (stored-session_cookie [] (codes "0") secure tt)
    ∙ get-session_cookie [] before after tt before_plain after_plain other
    ∙ unfold decode_uri_component in refl
