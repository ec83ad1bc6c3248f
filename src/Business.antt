-- ===== src/Business.antt =====
-- src/business/businessStore.ts and the account routes of src/api/routes/business.ts. A request
-- comes with its payload as the schema gives it, or none if the schema refuses it, and with the token
-- of its session cookie; a response carries the token that it sets, if it sets one.
pub mod Store
pub mod Accounts
mod Tests
use supply_chain_mangement_s.Common.{
  ℕ, String, Bool, true, false, Option, none, some, List, [], ◌∷◌, if◌then◌else◌,
}
use supply_chain_mangement_s.Dict.{Dict, lookup, insert}
use supply_chain_mangement_s.Exec.{Result, ok, err, unknown_business, Exec}
use supply_chain_mangement_s.Text.{truthy}
use supply_chain_mangement_s.Bytes.{Bytes}
use supply_chain_mangement_s.Cookies.{serialize_clear_cookie}
use supply_chain_mangement_s.Auth.Passwords.{Kdf, hash_password, verify_password}
use supply_chain_mangement_s.Auth.Session.{Crypto, create_session_token, verify_session_token}

pub record Business : Type 0 where
  pub id : String
  pub email : String
  pub password_hash : String
  pub business_name : String
  pub business_type : String
  pub description : String
  pub accent_color : String
  pub created_at : ℕ
  pub updated_at : ℕ

-- `BusinessProfilePatch`
pub record Patch : Type 0 where
  pub business_name : Option String
  pub business_type : Option String
  pub description : Option String
  pub accent_color : Option String

pub record BusinessStore : Type 0 where
  pub by_id : Dict Business
  pub id_by_email : Dict String

unfoldable pub create : Business → BusinessStore → BusinessStore
create business store = record {
  by_id = insert business.id business store.by_id;
  id_by_email = insert business.email business.id store.id_by_email;
}

unfoldable pub get_by_id : String → BusinessStore → Option Business
get_by_id id store = lookup id store.by_id

unfoldable pub get_by_email : String → BusinessStore → Option Business
get_by_email email store = elim (lookup email store.id_by_email) [
  | none ↦ none
  | some id ↦ if truthy (some id) then lookup id store.by_id else none
]

abbrev pub or_else : Option String → String → String
or_else none old = old
or_else (some new) old = new

-- `Object.assign(business, patch, { updatedAt: Date.now() })`
unfoldable pub patched : Patch → ℕ → Business → Business
patched patch now b = record b {
  business_name = or_else patch.business_name b.business_name;
  business_type = or_else patch.business_type b.business_type;
  description = or_else patch.description b.description;
  accent_color = or_else patch.accent_color b.accent_color;
  updated_at = now;
}

unfoldable pub update : String → Patch → ℕ → Exec BusinessStore Business
unfolding patched
update id patch now store = elim (lookup id store.by_id) [
  | none ↦ (err (unknown_business id), store)
  | some b ↦ (
    ok (patched patch now b),
    record store { by_id = insert id (patched patch now b) store.by_id },
  )
]

-- `PublicBusiness`: the account without its password hash.
pub record PublicBusiness : Type 0 where
  pub id : String
  pub email : String
  pub business_name : String
  pub business_type : String
  pub description : String
  pub accent_color : String
  pub created_at : ℕ
  pub updated_at : ℕ

unfoldable pub to_public : Business → PublicBusiness
to_public b = record {
  id = b.id;
  email = b.email;
  business_name = b.business_name;
  business_type = b.business_type;
  description = b.description;
  accent_color = b.accent_color;
  created_at = b.created_at;
  updated_at = b.updated_at;
}

pub data Body : Type 0 where
  failure : (error : String) → Body
  account : PublicBusiness → Body

pub record Response : Type 0 where
  pub status : ℕ
  pub body : Body
  pub session : Option String

abbrev pub refuse : ℕ → String → Response
refuse status error = record { status = status; body = failure error; session = none }

-- The parsed payloads of `registerSchema` and `loginSchema`.
pub record Registration : Type 0 where
  pub email : String
  pub password : String
  pub business_name : String
  pub business_type : String
  pub description : String
  pub accent_color : String

pub record Login : Type 0 where
  pub email : String
  pub password : String

-- What a request draws: the time, read once for the account and the session, a random id and a salt.
pub record Draws : Type 0 where
  pub now : ℕ
  pub uuid : String
  pub salt : String

module _ (kdf : Kdf) (crypto : Crypto) (secret : String) where
  abbrev pub signed_in : ℕ → ℕ → Business → Response
  signed_in status now b = record {
    status = status;
    body = account (to_public b);
    session = some (create_session_token crypto secret now b.id);
  }

  unfoldable pub account_of : Draws → Registration → Business
  account_of d r = record {
    id = d.uuid;
    email = r.email;
    password_hash = hash_password kdf d.salt r.password;
    business_name = r.business_name;
    business_type = r.business_type;
    description = r.description;
    accent_color = r.accent_color;
    created_at = d.now;
    updated_at = d.now;
  }

  -- `POST /auth/register`
  unfoldable pub register : Draws → Option Registration → BusinessStore → Response × BusinessStore
  unfolding get_by_email create account_of
  register d none store = (refuse 400 "INVALID_PAYLOAD", store)
  register d (some r) store = elim (get_by_email r.email store) [
    | some _ ↦ (refuse 409 "EMAIL_TAKEN", store)
    | none ↦ (signed_in 201 d.now (account_of d r), create (account_of d r) store)
  ]

  -- `POST /auth/login`
  unfoldable pub login : ℕ → Option Login → BusinessStore → Response
  unfolding get_by_email
  login now none store = refuse 400 "INVALID_PAYLOAD"
  login now (some l) store = elim (get_by_email l.email store) [
    | none ↦ refuse 401 "INVALID_CREDENTIALS"
    | some b ↦
        if verify_password kdf l.password b.password_hash
        then signed_in 200 now b
        else refuse 401 "INVALID_CREDENTIALS"
  ]

  -- `businessId ? await store.getById(businessId) : undefined`
  unfoldable pub current_business : ℕ → Option String → BusinessStore → Option Business
  unfolding get_by_id
  current_business now token store = elim (verify_session_token crypto secret now token) [
    | none ↦ none
    | some id ↦ if truthy (some id) then get_by_id id store else none
  ]

  -- `GET /auth/me`
  unfoldable pub me : ℕ → Option String → BusinessStore → Response
  unfolding current_business
  me now token store = elim (current_business now token store) [
    | none ↦ refuse 401 "UNAUTHENTICATED"
    | some b ↦ record { status = 200; body = account (to_public b); session = none }
  ]

  -- `PATCH /business/profile`; an unknown business rejects, and the request fails with that error.
  unfoldable pub update_profile : ℕ → Option String → Option Patch → Exec BusinessStore Response
  unfolding update
  update_profile now token patch store = elim (verify_session_token crypto secret now token) [
    | none ↦ (ok (refuse 401 "UNAUTHENTICATED"), store)
    | some id ↦ elim patch [
      | none ↦ (ok (refuse 400 "INVALID_PAYLOAD"), store)
      | some fields ↦
          let (r, store') = update id fields now store in
          elim r [
            | err e ↦ (err e, store')
            | ok b ↦
                (ok (record { status = 200; body = account (to_public b); session = none }), store')
          ]
    ]
  ]

-- `POST /auth/logout`: the status and the Set-Cookie header.
unfoldable pub logout : (secure : Bool) → ℕ × Bytes
unfolding serialize_clear_cookie
logout secure = (204, serialize_clear_cookie secure)
