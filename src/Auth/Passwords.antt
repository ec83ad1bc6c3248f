-- ===== src/Auth/Passwords.antt =====
-- src/auth/passwords.ts: password hashes `scrypt:salt:key`. The key derivation of node:crypto and
-- the two ways between bytes and hexadecimal text are parameters.
mod Tests
use Prim.Native.String.append
use Prim.Native.String.{◌++◌ as join}
use text.Mathlib.TextLemmas.{append_assoc}
use supply_chain_mangement_s.Common.{
  ℕ, String, ◌≡◌, ◌∙◌, refl, ap, Bool, true, false, ◌&&◌, Option, none, some, List, [], ◌∷◌, ◌==◌,
  arith, if◌then◌else◌,
}
use supply_chain_mangement_s.Text.{truthy, has_char, split, split-one, split-join}
use supply_chain_mangement_s.Auth.Session.{same_bytes}

-- `scryptSync(password, salt, 64, params)`, `toString("hex")`, `Buffer.from(text, "hex")`.
pub record Kdf : Type 0 where
  pub scrypt : (password salt : String) → List ℕ
  pub to_hex : List ℕ → String
  pub from_hex : String → List ℕ

colon : (s : String) → join ":" s ≡ String.◌∷◌ ":" s
colon s = append.cons ":" "" s ∙ ap (String.◌∷◌ ":") (append.nil s)

module _ (kdf : Kdf) where
  -- `hashPassword`, with the salt that `randomBytes(16)` gives.
  unfoldable pub hash_password : (salt password : String) → String
  hash_password salt password =
      join "scrypt:" (join salt (join ":" (kdf.to_hex (kdf.scrypt password salt))))

  unfoldable pub check_hash : String → (scheme salt derived_key_hex : String) → Bool
  unfolding same_bytes
  check_hash password scheme salt derived_key_hex =
      if scheme == "scrypt" && truthy (some salt) && truthy (some derived_key_hex)
      then same_bytes (kdf.scrypt password salt) (kdf.from_hex derived_key_hex)
      else false

  abbrev pub check_fields : String → List String → Bool
  check_fields password (scheme ∷ salt ∷ derived_key_hex ∷ _) =
      check_hash password scheme salt derived_key_hex
  check_fields password _ = false

  unfoldable pub verify_password : (password stored : String) → Bool
  unfolding check_hash
  verify_password password stored = check_fields password (split ":" stored)

  -- What a stored key is: a text that is not empty, has no colon and decodes to the derived bytes.
  abbrev pub IsKeyText : Type 0
  IsKeyText =
      (password salt : String)
      → let key = kdf.to_hex (kdf.scrypt password salt) in
        (truthy (some key) ≡ true)
        × (has_char ":" key ≡ false)
        × (kdf.from_hex key ≡ kdf.scrypt password salt)

  hash_parts :
      (salt key : String)
      → join "scrypt:" (join salt (join ":" key))
        ≡ join "scrypt" (String.◌∷◌ ":" (join salt (String.◌∷◌ ":" key)))
  hash_parts salt key =
      append_assoc "scrypt" ":" (join salt (join ":" key))
      ∙ ap (join "scrypt")
          (colon (join salt (join ":" key)) ∙ ap (λ x. String.◌∷◌ ":" (join salt x)) (colon key))

  -- A password is accepted against the hash of a password exactly when the two passwords give the
  -- same key under the hash's salt, for a salt that is not empty and has no colon and keys whose
  -- texts are not empty, have no colon and decode to the keys.
  pub verify-hash :
      (salt password stored_password : String)
      → IsKeyText
      → truthy (some salt) ≡ true
      → has_char ":" salt ≡ false
      → verify_password password (hash_password salt stored_password)
        ≡ same_bytes (kdf.scrypt password salt) (kdf.scrypt stored_password salt)
  unfolding verify_password hash_password
  verify-hash salt password stored_password keys present plain =
      let key = kdf.to_hex (kdf.scrypt stored_password salt) in
      let (some_key, no_colon, decoded) = keys stored_password salt in
      ap (check_fields password) (
        ap (split ":") (hash_parts salt key)
        ∙ split-join ":" "scrypt" (join salt (String.◌∷◌ ":" key)) refl
        ∙ ap (λ parts. "scrypt" ∷ parts)
            (split-join ":" salt key plain
              ∙ ap (λ parts. salt ∷ parts) (split-one ":" key no_colon)))
      ∙ ground (arith, present, some_key, decoded)
