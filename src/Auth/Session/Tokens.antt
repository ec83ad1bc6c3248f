-- ===== src/Auth/Session/Tokens.antt =====
-- A token that was made is accepted until it expires, and an accepted token is signed.
use Prim.Native.String.append
use Prim.Native.String.{◌++◌ as join}
use text.Mathlib.TextLemmas.{append_assoc}
use supply_chain_mangement_s.Common.{
  ℕ, ◌+◌, String, ◌≡◌, ◌∙◌, refl, ap, true, false, none, some, List, [], ◌∷◌, ltb, arith,
  if◌then◌else◌,
}
use supply_chain_mangement_s.Text.{truthy, has_char, split, split-one, split-join, decimal}
use supply_chain_mangement_s.Text.Decimal.{number-decimal, has_char-decimal, truthy-decimal}
use supply_chain_mangement_s.Auth.Session.{
  Crypto, session_ttl_ms, same_bytes, sign, payload_of, create_session_token, check_parts,
  check_split, verify_session_token,
}

pub same_bytes_refl : (bytes : List ℕ) → same_bytes bytes bytes ≡ true
unfolding same_bytes
same_bytes_refl [] = refl
same_bytes_refl (b ∷ bytes) = ground (arith, same_bytes_refl bytes)

pub eq_of_same_bytes : (a b : List ℕ) → same_bytes a b ≡ true → a ≡ b
unfolding same_bytes
eq_of_same_bytes [] [] h = refl
eq_of_same_bytes (a ∷ rest) [] h = ground (arith, h)
eq_of_same_bytes [] (b ∷ others) h = ground (arith, h)
eq_of_same_bytes (a ∷ rest) (b ∷ others) h = ground (arith, h, eq_of_same_bytes rest others)

-- What the digest gives: a text that is not empty and has no full stop.
abbrev pub IsDigest : Crypto → Type 0
IsDigest crypto =
    (secret payload : String)
    → (truthy (some (crypto.hmac_hex secret payload)) ≡ true)
      × (has_char "." (crypto.hmac_hex secret payload) ≡ false)

dot : (s : String) → join "." s ≡ String.◌∷◌ "." s
dot s = append.cons "." "" s ∙ ap (String.◌∷◌ ".") (append.nil s)

-- The token, with its two full stops in place.
pub token_parts :
    (a b c : String)
    → join (join a (join "." b)) (join "." c) ≡ join a (String.◌∷◌ "." (join b (String.◌∷◌ "." c)))
token_parts a b c =
    ap (λ x. join (join a x) (join "." c)) (dot b)
    ∙ append_assoc a (String.◌∷◌ "." b) (join "." c)
    ∙ ap (join a) (append.cons "." b (join "." c))
    ∙ ap (λ x. join a (String.◌∷◌ "." (join b x))) (dot c)

truthy-append : (a s : String) → truthy (some a) ≡ true → truthy (some (join a s)) ≡ true
truthy-append String.[] s h = ground (arith, h)
truthy-append (String.◌∷◌ c a) s h = ap (λ x. truthy (some x)) (append.cons c a s)

module _ (crypto : Crypto) (secret : String) where
  split-token :
      (a b c : String)
      → has_char "." a ≡ false
      → has_char "." b ≡ false
      → has_char "." c ≡ false
      → split "." (join (payload_of crypto secret a b) (join "." c)) ≡ a ∷ b ∷ c ∷ []
  split-token a b c ha hb hc =
      ap (split ".") (token_parts a b c)
      ∙ split-join "." a (join b (String.◌∷◌ "." c)) ha
      ∙ ap (λ parts. a ∷ parts)
          (split-join "." b c hb ∙ ap (λ parts. b ∷ parts) (split-one "." c hc))

  check_parts-signed :
      (now t : ℕ) (business_id : String)
      → truthy (some business_id) ≡ true
      → let expires = decimal (now + session_ttl_ms) in
        let signature = sign crypto secret (payload_of crypto secret business_id expires) in
        truthy (some signature) ≡ true
        → check_parts crypto secret t business_id expires signature
          ≡ (if ltb (now + session_ttl_ms) t then none else some business_id)
  unfolding check_parts
  check_parts-signed now t business_id present signed =
      let expires = decimal (now + session_ttl_ms) in
      let signature = sign crypto secret (payload_of crypto secret business_id expires) in
      ground (
        arith,
        present,
        signed,
        truthy-decimal (now + session_ttl_ms),
        same_bytes_refl (crypto.from_hex signature),
        number-decimal (now + session_ttl_ms),
      )

  -- A token made for a business id that is not empty and has no full stop is accepted, by the same
  -- secret, at every time up to its expiry 30 days after it was made, and names that business; after
  -- that it is not accepted. The digests are not empty and have no full stop.
  pub verify-create :
      (now t : ℕ) (business_id : String)
      → IsDigest crypto
      → truthy (some business_id) ≡ true
      → has_char "." business_id ≡ false
      → verify_session_token crypto secret t
          (some (create_session_token crypto secret now business_id))
        ≡ (if ltb (now + session_ttl_ms) t then none else some business_id)
  unfolding verify_session_token create_session_token sign
  verify-create now t business_id digest present plain =
      let expires = decimal (now + session_ttl_ms) in
      let payload = payload_of crypto secret business_id expires in
      let signature = sign crypto secret payload in
      let (signed, no_stop) = digest secret payload in
      let whole =
        truthy-append payload (join "." signature)
          (truthy-append business_id (join "." expires) present) in
      let parts =
        split-token business_id expires signature plain (has_char-decimal (now + session_ttl_ms))
          no_stop in
      ap
        (λ b.
          if b
          then check_split crypto secret t (split "." (join payload (join "." signature)))
          else none)
        whole
      ∙ ap (check_split crypto secret t) parts
      ∙ check_parts-signed now t business_id present signed
