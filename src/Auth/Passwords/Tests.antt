-- ===== src/Auth/Passwords/Tests.antt =====
-- Hashes under the toy key derivation.
use supply_chain_mangement_s.Common.{◌≡◌, refl}
use supply_chain_mangement_s.Auth.Session.{same_bytes}
use supply_chain_mangement_s.Sample.Toys.{toy_kdf, toy_kdf-IsKeyText}
use supply_chain_mangement_s.Auth.Passwords.{hash_password, verify_password, verify-hash}

verify-hash_example :
    verify_password toy_kdf "wrong" (hash_password toy_kdf "salt" "secret123")
    ≡ same_bytes (toy_kdf.scrypt "wrong" "salt") (toy_kdf.scrypt "secret123" "salt")
verify-hash_example = verify-hash toy_kdf "salt" "wrong" "secret123" toy_kdf-IsKeyText refl refl
