-- ===== src/Business/Tests.antt =====
-- Accounts in an empty store.
use supply_chain_mangement_s.Common.{◌≡◌, refl, none, some, [], arith, if◌then◌else◌}
use supply_chain_mangement_s.Dict.{lookup}
use supply_chain_mangement_s.Auth.Session.{same_bytes}
use supply_chain_mangement_s.Sample.Toys.{
  toy_kdf, toy_kdf-IsKeyText, toy_crypto, toy_crypto-IsDigest,
}
use supply_chain_mangement_s.Business.{
  Business, BusinessStore, Registration, Draws, Patch, create, update, get_by_email, register,
  login, account_of, current_business, signed_in, refuse,
}
use supply_chain_mangement_s.Business.Store.{IsIndexed, create-IsIndexed, update-IsIndexed}
use supply_chain_mangement_s.Business.Accounts.{register-register, register-login}

abbrev nobody : BusinessStore
nobody = record { by_id = []; id_by_email = [] }

abbrev draws : Draws
draws = record { now = 1000; uuid = "b1"; salt = "00ff" }

abbrev acme : Registration
acme = record {
  email = "ops@acme.example";
  password = "secret123";
  business_name = "Acme";
  business_type = "b2b";
  description = "";
  accent_color = "#9fd3ff";
}

abbrev registered : BusinessStore
registered = (register toy_kdf toy_crypto "key" draws (some acme) nobody).1

abbrev account : Business
account = account_of toy_kdf toy_crypto "key" draws acme

register-register_example :
    register toy_kdf toy_crypto "key" draws (some acme) registered
    ≡ (refuse 409 "EMAIL_TAKEN", registered)
register-register_example =
    register-register toy_kdf toy_crypto "key" draws draws acme acme nobody refl refl

register-login_example :
    (login toy_kdf toy_crypto "key" 5000
        (some (record { email = "ops@acme.example"; password = "wrong" }))
        registered
      ≡ (if same_bytes (toy_kdf.scrypt "wrong" "00ff") (toy_kdf.scrypt "secret123" "00ff")
          then signed_in toy_kdf toy_crypto "key" 200 5000 account
          else refuse 401 "INVALID_CREDENTIALS"))
    × (current_business toy_kdf toy_crypto "key" 5000
          (register toy_kdf toy_crypto "key" draws (some acme) nobody).0.session
          registered
        ≡ some account)
register-login_example =
    register-login toy_kdf toy_crypto "key" draws acme nobody "wrong" 5000 toy_kdf-IsKeyText
      toy_crypto-IsDigest (unfold get_by_email lookup in refl) refl refl refl refl (omega arith)

nobody-IsIndexed : IsIndexed nobody
unfolding lookup
nobody-IsIndexed email id found = absurd (ground (arith, found))

create-IsIndexed_example : IsIndexed (create account nobody)
unfolding account_of
create-IsIndexed_example =
    create-IsIndexed account nobody nobody-IsIndexed refl (unfold lookup in refl)

abbrev renamed : Patch
renamed = record {
  business_name = some "Acme Ltd";
  business_type = none;
  description = none;
  accent_color = none;
}

update-IsIndexed_example : IsIndexed (update "b1" renamed 6000 (create account nobody)).1
unfolding account_of
update-IsIndexed_example =
    update-IsIndexed "b1" renamed 6000 (create account nobody)
      (create-IsIndexed account nobody nobody-IsIndexed refl (unfold lookup in refl))
