-- ===== src/Auth/Session/Accepted.antt =====
-- What an accepted token proves.
use Prim.Native.String.{◌++◌ as join}
use supply_chain_mangement_s.Common.{
  ℕ, ◌≤◌, String, ◌≡◌, ◌∙◌, sym, ap, some, List, [], ◌∷◌, Option-cases, inl, inr, arith,
}
use supply_chain_mangement_s.Text.{split, number}
use supply_chain_mangement_s.Text.Split.{unsplit, unsplit-split}
use supply_chain_mangement_s.Auth.Session.{
  Crypto, sign, payload_of, check_parts, check_split, verify_session_token,
}
use supply_chain_mangement_s.Auth.Session.Tokens.{eq_of_same_bytes, token_parts}

module _ (crypto : Crypto) (secret : String) where
  -- The text that was signed, and the signature's bytes.
  pub record IsSigned (now : ℕ) (token business_id : String) : Type 0 where
    pub expires_at : String
    pub signature : String
    pub parts : token ≡ join (payload_of crypto secret business_id expires_at) (join "." signature)
    pub signed :
        crypto.from_hex signature
        ≡ crypto.from_hex (crypto.hmac_hex secret (payload_of crypto secret business_id expires_at))
    pub expires : ℕ
    pub expiry : number expires_at ≡ some expires
    pub in_time : now ≤ expires

  check_parts_sound :
      (now : ℕ) (a b c business_id : String)
      → check_parts crypto secret now a b c ≡ some business_id
      → (a ≡ business_id)
        × (crypto.from_hex c
            ≡ crypto.from_hex (crypto.hmac_hex secret (payload_of crypto secret a b)))
        × ((expires : ℕ) × (number b ≡ some expires) × (now ≤ expires))
  unfolding check_parts sign
  check_parts_sound now a b c business_id h =
      let expected = crypto.from_hex (crypto.hmac_hex secret (payload_of crypto secret a b)) in
      elim (Option-cases (number b)) [
        | inl e ↦ absurd (ground (arith, h, e))
        | inr (n, e) ↦ (
          ground (arith, h, e),
          eq_of_same_bytes (crypto.from_hex c) expected (ground (arith, h, e)),
          (n, e, ground (arith, h, e)),
        )
      ]

  check_split_sound :
      (now : ℕ) (parts : List String) (token business_id : String)
      → unsplit "." parts ≡ token
      → check_split crypto secret now parts ≡ some business_id
      → IsSigned now token business_id
  check_split_sound now (a ∷ b ∷ c ∷ []) token business_id whole h =
      let (same, signed, (n, e, in_time)) = check_parts_sound now a b c business_id h in
      record {
        expires_at = b;
        signature = c;
        parts =
            sym whole
            ∙ sym (token_parts a b c)
            ∙ ap (λ x. join (payload_of crypto secret x b) (join "." c)) same;
        signed =
            signed
            ∙ ap (λ x. crypto.from_hex (crypto.hmac_hex secret (payload_of crypto secret x b)))
                same;
        expires = n;
        expiry = e;
        in_time = in_time;
      }
  check_split_sound now [] token business_id whole h = absurd (ground (arith, h))
  check_split_sound now (a ∷ []) token business_id whole h = absurd (ground (arith, h))
  check_split_sound now (a ∷ b ∷ []) token business_id whole h = absurd (ground (arith, h))
  check_split_sound now (a ∷ b ∷ c ∷ d ∷ rest) token business_id whole h =
      absurd (ground (arith, h))

  -- A token that is accepted at a time for a business is that business's id, an expiry and a
  -- signature, joined by full stops; the signature decodes to the bytes of the digest of id and
  -- expiry under the secret; and the expiry is a number that is not before the time.
  pub verify-IsSigned :
      (now : ℕ) (token business_id : String)
      → verify_session_token crypto secret now (some token) ≡ some business_id
      → IsSigned now token business_id
  unfolding verify_session_token
  verify-IsSigned now token business_id h =
      check_split_sound now (split "." token) token business_id (unsplit-split "." token)
        (ground (arith, h))
