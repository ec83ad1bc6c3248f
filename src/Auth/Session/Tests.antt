-- ===== src/Auth/Session/Tests.antt =====
-- Tokens under the toy digest.
use supply_chain_mangement_s.Common.{◌+◌, ◌≡◌, refl, none, some, ltb, if◌then◌else◌}
use supply_chain_mangement_s.Auth.Session.{
  session_ttl_ms, create_session_token, verify_session_token,
}
use supply_chain_mangement_s.Auth.Session.Tokens.{verify-create}
use supply_chain_mangement_s.Sample.Toys.{toy_crypto, toy_crypto-IsDigest}
use supply_chain_mangement_s.Auth.Session.Accepted.{IsSigned, verify-IsSigned}

verify-create_example :
    verify_session_token toy_crypto "key" 2000
      (some (create_session_token toy_crypto "key" 1000 "b1"))
    ≡ (if ltb (1000 + session_ttl_ms) 2000 then none else some "b1")
verify-create_example = verify-create toy_crypto "key" 1000 2000 "b1" toy_crypto-IsDigest refl refl

accepted :
    verify_session_token toy_crypto "key" 2000
      (some (create_session_token toy_crypto "key" 1000 "b1"))
    ≡ some "b1"
accepted = verify-create toy_crypto "key" 1000 2000 "b1" toy_crypto-IsDigest refl refl

verify-IsSigned_example :
    IsSigned toy_crypto "key" 2000 (create_session_token toy_crypto "key" 1000 "b1") "b1"
verify-IsSigned_example =
    verify-IsSigned toy_crypto "key" 2000 (create_session_token toy_crypto "key" 1000 "b1") "b1"
      accepted
