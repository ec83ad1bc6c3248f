-- ===== src/Sample/Toys.antt =====
-- Toy functions in place of node:crypto, which count characters.
use supply_chain_mangement_s.Common.{
  ℕ, zero, suc, ◌-◌, String, ◌≡◌, refl, ap, true, false, some, List, [], ◌∷◌, arith,
}
use supply_chain_mangement_s.Text.{truthy, has_char}
use supply_chain_mangement_s.Auth.Passwords.{Kdf, IsKeyText}
use supply_chain_mangement_s.Auth.Session.{Crypto}
use supply_chain_mangement_s.Auth.Session.Tokens.{IsDigest}

abbrev tallied : String → String
tallied String.[] = "f"
tallied (String.◌∷◌ c s) = String.◌∷◌ "a" (tallied s)

abbrev size : String → ℕ
size String.[] = 0
size (String.◌∷◌ c s) = suc (size s)

abbrev pub toy_crypto : Crypto
toy_crypto = record { hmac_hex = λ secret payload. tallied payload; from_hex = λ s. size s ∷ [] }

pub toy_crypto-IsDigest : IsDigest toy_crypto
toy_crypto-IsDigest secret payload = go payload
  where
    go : (s : String) → (truthy (some (tallied s)) ≡ true) × (has_char "." (tallied s) ≡ false)
    go String.[] = (refl, refl)
    go (String.◌∷◌ c s) = (refl, (go s).1)

abbrev marks : ℕ → String
marks zero = "f"
marks (suc n) = String.◌∷◌ "a" (marks n)

abbrev text_of : List ℕ → String
text_of [] = "f"
text_of (n ∷ _) = marks n

abbrev pub toy_kdf : Kdf
toy_kdf = record {
  scrypt = λ password salt. size password ∷ [];
  to_hex = text_of;
  from_hex = λ text. (size text - 1) ∷ [];
}

size-marks : (n : ℕ) → size (marks n) ≡ suc n
size-marks zero = refl
size-marks (suc n) = ap suc (size-marks n)

marks_lem : (n : ℕ) → (truthy (some (marks n)) ≡ true) × (has_char ":" (marks n) ≡ false)
marks_lem zero = (refl, refl)
marks_lem (suc n) = (refl, (marks_lem n).1)

pub toy_kdf-IsKeyText : IsKeyText toy_kdf
toy_kdf-IsKeyText password salt =
    let (present, plain) = marks_lem (size password) in
    (present, plain, ap (λ n. n ∷ []) (omega (arith, size-marks (size password))))
