-- ===== src/Cookies/Tests.antt =====
-- src/auth/cookies.ts: cookies of a browser that also sends a theme and a language.
use supply_chain_mangement_s.Common.{◌≡◌, refl, some, none, List, [], ◌∷◌, ◌++◌, true, arith}
use supply_chain_mangement_s.Bytes.{Bytes, codes}
use supply_chain_mangement_s.Uri.{is_scalar, encode_uri_component, decode_uri_component}
use supply_chain_mangement_s.Cookies.{
  get, parse_parts, parse_cookies, session_cookie_name, serialize_session_cookie,
  serialize_clear_cookie,
}
use supply_chain_mangement_s.Cookies.Parts.{header_of, stored}
use supply_chain_mangement_s.Cookies.Headers.{parse-serialize_session_cookie}

abbrev token : Bytes
token = codes "b 1;é€😀"

abbrev theme : List Bytes
theme = codes "theme=dark" ∷ []

abbrev language : List Bytes
language = codes "lang" ∷ codes "l=%zz" ∷ []

encoded_token : encode_uri_component token ≡ some (codes "b%201%3B%C3%A9%E2%82%AC%F0%9F%98%80")
unfolding encode_uri_component
encoded_token = refl

malformed_escape : get (codes "l") (parse_parts language []) ≡ some (codes "%zz")
unfolding get parse_parts
malformed_escape = refl

overlong : decode_uri_component (codes "%C0%80") ≡ none
unfolding decode_uri_component
overlong = refl

no_session : get session_cookie_name (parse_parts language []) ≡ none
unfolding get parse_parts
no_session = refl

cleared :
    serialize_clear_cookie true
    ≡ codes "scs_session=; Path=/; HttpOnly; SameSite=Lax; Max-Age=0; Secure"
unfolding serialize_clear_cookie
cleared = refl

parse-serialize_session_cookie_example :
    (cookie : Bytes) × (serialize_session_cookie token true ≡ some cookie)
    × (get session_cookie_name
          (parse_cookies (some (header_of (theme ++ stored cookie ∷ language))))
        ≡ some token)
unfolding is_scalar
parse-serialize_session_cookie_example =
    parse-serialize_session_cookie token true theme language (ground arith) (ground arith)
      (ground arith) no_session
