-- ===== src/Cookies/Parts.antt =====
-- src/auth/cookies.ts: a header of several cookies is read cookie by cookie, the later ones in front.
use supply_chain_mangement_s.Common.{
  ◌≡◌, ◌∙◌, refl, sym, ap, false, none, some, List, [], ◌∷◌, ◌++◌, append_assoc, append-nil, All,
  arith, if◌then◌else◌, Bool-cases, Option-cases, inl, inr,
}
use supply_chain_mangement_s.Bytes.{Bytes, ◌===◌}
use supply_chain_mangement_s.Cookies.{
  is_space, trim_start, trim_end, split_on, after_char, cut_at, Cookies, get, same, assign,
  parse_part, parse_parts, parse_cookies,
}

-- No `;` in the text of one cookie.
abbrev pub IsCookie : Bytes → Type 0
IsCookie cookie = All (λ c. (c === b';') ≡ false) cookie

-- What a browser stores: the text in front of the first `;`.
abbrev pub stored : Bytes → Bytes
stored [] = []
stored (c ∷ text) = if c === b';' then [] else c ∷ stored text

-- The header that a browser sends.
abbrev pub later_cookies : List Bytes → Bytes
later_cookies [] = []
later_cookies (cookie ∷ cookies) = b';' ∷ b' ' ∷ (cookie ++ later_cookies cookies)

abbrev pub header_of : List Bytes → Bytes
header_of [] = []
header_of (cookie ∷ cookies) = cookie ++ later_cookies cookies

pub stored-attributes :
    (cookie rest : Bytes) → IsCookie cookie → stored (cookie ++ b';' ∷ rest) ≡ cookie
stored-attributes [] rest h = refl
stored-attributes (c ∷ cookie) rest h = rw (h.0, stored-attributes cookie rest h.1) refl

abbrev pub after_space : List Bytes → List Bytes
after_space [] = []
after_space (cookie ∷ cookies) = (b' ' ∷ cookie) ∷ after_space cookies

pub split_on-plain : (cookie : Bytes) → IsCookie cookie → split_on b';' cookie ≡ cookie ∷ []
unfolding split_on
split_on-plain [] h = refl
split_on-plain (c ∷ cookie) h = rw (h.0, split_on-plain cookie h.1) refl

pub split_on-front :
    (cookie rest : Bytes)
    → IsCookie cookie
    → split_on b';' (cookie ++ b';' ∷ rest) ≡ cookie ∷ split_on b';' rest
unfolding split_on
split_on-front [] rest h = refl
split_on-front (c ∷ cookie) rest h = rw (h.0, split_on-front cookie rest h.1) refl

pub split_on-header_of :
    (cookie : Bytes) (cookies : List Bytes)
    → IsCookie cookie
    → All IsCookie cookies
    → split_on b';' (cookie ++ later_cookies cookies) ≡ cookie ∷ after_space cookies
split_on-header_of cookie [] h hs = rw (append-nil cookie) (split_on-plain cookie h)
split_on-header_of cookie (next ∷ cookies) h hs =
    split_on-front cookie (b' ' ∷ (next ++ later_cookies cookies)) h
    ∙ ap (λ parts. cookie ∷ parts) (split_on-header_of (b' ' ∷ next) cookies (refl, hs.0) hs.1)

pub parse_part-none :
    (part : Bytes) (out : Cookies) → cut_at b'=' part ≡ none → parse_part part out ≡ out
unfolding parse_part
parse_part-none part out h = rw (parse_part, h) refl

pub parse_part-some :
    (part left right : Bytes) (out : Cookies)
    → cut_at b'=' part ≡ some (left, right)
    → parse_part part out ≡ assign (trim_end (trim_start left)) (trim_end (trim_start right)) out
unfolding parse_part
parse_part-some part left right out h = rw (parse_part, h) refl

pub cut_at-space : (part : Bytes) → cut_at b'=' (b' ' ∷ part) ≡ after_char b' ' (cut_at b'=' part)
unfolding cut_at
cut_at-space part = refl

pub parse_part-space :
    (part : Bytes) (out : Cookies) → parse_part (b' ' ∷ part) out ≡ parse_part part out
parse_part-space part out = elim (Option-cases (cut_at b'=' part)) [
  | inl e ↦
      parse_part-none (b' ' ∷ part) out (cut_at-space part ∙ ap (after_char b' ') e)
      ∙ sym (parse_part-none part out e)
  | inr ((left, right), e) ↦
      parse_part-some (b' ' ∷ part) (b' ' ∷ left) right out
        (cut_at-space part ∙ ap (after_char b' ') e)
      ∙ unfold trim_start is_space in sym (parse_part-some part left right out e)
]

-- What a part assigns comes in front of what was there.
pub assign-append :
    (key value : Bytes) (out : Cookies) → assign key value out ≡ assign key value [] ++ out
unfolding assign
assign-append [] value out = refl
assign-append (c ∷ key) value out = ground arith

pub parse_part-append :
    (part : Bytes) (out : Cookies) → parse_part part out ≡ parse_part part [] ++ out
parse_part-append part out = elim (Option-cases (cut_at b'=' part)) [
  | inl e ↦ parse_part-none part out e ∙ ap (λ o. o ++ out) (sym (parse_part-none part [] e))
  | inr ((left, right), e) ↦
      parse_part-some part left right out e
      ∙ assign-append (trim_end (trim_start left)) (trim_end (trim_start right)) out
      ∙ ap (λ o. o ++ out) (sym (parse_part-some part left right [] e))
]

pub parse_parts-out :
    (parts : List Bytes) (out : Cookies) → parse_parts parts out ≡ parse_parts parts [] ++ out
unfolding parse_parts
parse_parts-out [] out = refl
parse_parts-out (part ∷ parts) out =
    ap (parse_parts parts) (parse_part-append part out)
    ∙ parse_parts-out parts (parse_part part [] ++ out)
    ∙ sym (append_assoc (parse_parts parts []) (parse_part part []) out)
    ∙ ap (λ o. o ++ out) (sym (parse_parts-out parts (parse_part part [])))

pub parse_parts-append :
    (first second : List Bytes) (out : Cookies)
    → parse_parts (first ++ second) out ≡ parse_parts second (parse_parts first out)
unfolding parse_parts
parse_parts-append [] second out = refl
parse_parts-append (part ∷ first) second out = parse_parts-append first second (parse_part part out)

pub parse_parts-space :
    (cookies : List Bytes) (out : Cookies)
    → parse_parts (after_space cookies) out ≡ parse_parts cookies out
unfolding parse_parts
parse_parts-space [] out = refl
parse_parts-space (cookie ∷ cookies) out =
    ap (parse_parts (after_space cookies)) (parse_part-space cookie out)
    ∙ parse_parts-space cookies (parse_part cookie out)

-- A header is read cookie by cookie.
pub parse_cookies-header_of :
    (cookies : List Bytes)
    → All IsCookie cookies
    → parse_cookies (some (header_of cookies)) ≡ parse_parts cookies []
unfolding parse_cookies parse_parts
parse_cookies-header_of [] h = refl
parse_cookies-header_of (cookie ∷ cookies) h =
    ap (λ parts. parse_parts parts []) (split_on-header_of cookie cookies h.0 h.1)
    ∙ parse_parts-space cookies (parse_part cookie [])

pub get-append :
    (name : Bytes) (newer older : Cookies)
    → get name newer ≡ none
    → get name (newer ++ older) ≡ get name older
unfolding get
get-append name [] older h = refl
get-append name ((key, value) ∷ newer) older h = elim (Bool-cases (same key name)) [
  | inl e ↦ absurd (ground (arith, rw e at h))
  | inr e ↦ rw e (get-append name newer older (rw e at h))
]
