-- ===== src/Auth/Session.antt =====
-- src/auth/session.ts: session tokens `id.expiry.signature`. The HMAC of node:crypto and the
-- decoding of hexadecimal text are parameters. An expiry that is not a text of decimal digits, which
-- no token that `createSessionToken` signs has, is read as not a number.
pub mod Tokens
pub mod Accepted
mod Tests
use Prim.Native.String.{◌++◌ as join}
use supply_chain_mangement_s.Common.{
  ℕ, ◌+◌, String, Bool, true, false, ◌&&◌, ◌||◌, Option, none, some, List, [], ◌∷◌, ltb, ◌==◌, leb,
  if◌then◌else◌,
}
use supply_chain_mangement_s.Text.{truthy, split, decimal, number}

-- `createHmac("sha256", secret).update(payload).digest("hex")` and `Buffer.from(text, "hex")`.
pub record Crypto : Type 0 where
  pub hmac_hex : (secret payload : String) → String
  pub from_hex : String → List ℕ

-- `SESSION_TTL_MS`
abbrev pub session_ttl_ms : ℕ
session_ttl_ms = 2592000000

-- `process.env.SESSION_SECRET` and `devFallbackSecret`.
pub record Secrets : Type 0 where
  pub session_secret : Option String
  pub dev_fallback_secret : Option String

abbrev pub or_empty : Option String → String
or_empty none = String.[]
or_empty (some s) = s

-- `getSecret`, with what `randomBytes(32)` would give.
unfoldable pub get_secret : String → Secrets → String × Secrets
get_secret random s =
    if truthy s.session_secret
    then (or_empty s.session_secret, s)
    else if truthy s.dev_fallback_secret
    then (or_empty s.dev_fallback_secret, s)
    else (random, record s { dev_fallback_secret = some random })

-- The comparison of lengths and `timingSafeEqual`.
unfoldable pub same_bytes : List ℕ → List ℕ → Bool
same_bytes [] [] = true
same_bytes (a ∷ rest) (b ∷ others) = leb a b && leb b a && same_bytes rest others
same_bytes _ _ = false

module _ (crypto : Crypto) (secret : String) where
  unfoldable pub sign : String → String
  sign payload = crypto.hmac_hex secret payload

  abbrev pub payload_of : String → String → String
  payload_of business_id expires_at = join business_id (join "." expires_at)

  unfoldable pub create_session_token : ℕ → String → String
  unfolding sign
  create_session_token now business_id =
      let payload = payload_of business_id (decimal (now + session_ttl_ms)) in
      join payload (join "." (sign payload))

  -- The checks on the three parts.
  unfoldable pub check_parts : ℕ → String → String → String → Option String
  unfolding sign same_bytes
  check_parts now business_id expires_at signature =
      if truthy (some business_id) && truthy (some expires_at) && truthy (some signature)
      then if same_bytes (crypto.from_hex signature)
          (crypto.from_hex (sign (payload_of business_id expires_at)))
        then elim (number expires_at) [
          | none ↦ none
          | some expires ↦ if ltb expires now then none else some business_id
        ]
        else none
      else none

  abbrev pub check_split : ℕ → List String → Option String
  check_split now (business_id ∷ expires_at ∷ signature ∷ []) =
      check_parts now business_id expires_at signature
  check_split now _ = none

  unfoldable pub verify_session_token : ℕ → Option String → Option String
  unfolding check_parts
  verify_session_token now none = none
  verify_session_token now (some token) =
      if truthy (some token) then check_split now (split "." token) else none
