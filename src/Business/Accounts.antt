-- ===== src/Business/Accounts.antt =====
-- Registration, login and the session, one after the other.
use supply_chain_mangement_s.Common.{
  ℕ, ◌+◌, ◌≤◌, String, ◌≡◌, ◌∙◌, refl, ap, Bool, true, false, Option, none, some, arith, eq_refl,
  ltb, Option-cases, inl, inr, if◌then◌else◌,
}
use supply_chain_mangement_s.Dict.{lookup, lookup-insert}
use supply_chain_mangement_s.Text.{truthy, has_char}
use supply_chain_mangement_s.Auth.Passwords.{Kdf, verify_password, IsKeyText, verify-hash}
use supply_chain_mangement_s.Auth.Session.{Crypto, session_ttl_ms, same_bytes, verify_session_token}
use supply_chain_mangement_s.Auth.Session.Tokens.{IsDigest, verify-create}
use supply_chain_mangement_s.Business.{
  Business, BusinessStore, Registration, Login, Draws, refuse, create, get_by_email, account_of,
  register, login, current_business, signed_in,
}
use supply_chain_mangement_s.Business.Store.{get_by_email-create}

lookup-create : (b : Business) (store : BusinessStore) → lookup b.id (create b store).by_id ≡ some b
unfolding create
lookup-create b store = ground (arith, lookup-insert b.id b.id b store.by_id, eq_refl b.id)

module _ (kdf : Kdf) (crypto : Crypto) (secret : String) where
  -- The two ends of a registration whose payload the schema accepts.
  register-new :
      (d : Draws) (r : Registration) (store : BusinessStore)
      → get_by_email r.email store ≡ none
      → register kdf crypto secret d (some r) store ≡ (
        signed_in kdf crypto secret 201 d.now (account_of kdf crypto secret d r),
        create (account_of kdf crypto secret d r) store,
      )
  unfolding register
  register-new d r store free = rw (register, free) refl

  register-taken :
      (d : Draws) (r : Registration) (store : BusinessStore) (b : Business)
      → get_by_email r.email store ≡ some b
      → register kdf crypto secret d (some r) store ≡ (refuse 409 "EMAIL_TAKEN", store)
  unfolding register
  register-taken d r store b taken = rw (register, taken) refl

  -- Whether an email was free or taken, after a registration with it every further registration with
  -- the same email is answered 409 EMAIL_TAKEN and leaves the store as it is, if the ids that are
  -- drawn are not empty.
  pub register-register :
      (d d' : Draws) (r r' : Registration) (store : BusinessStore)
      → truthy (some d.uuid) ≡ true
      → r'.email ≡ r.email
      → let store' = (register kdf crypto secret d (some r) store).1 in
        register kdf crypto secret d' (some r') store' ≡ (refuse 409 "EMAIL_TAKEN", store')
  unfolding account_of
  register-register d d' r r' store present same =
      let b = account_of kdf crypto secret d r in
      elim (Option-cases (get_by_email r.email store)) [
        | inl free ↦ rw (register-new d r store free) (
            register-taken d' r' (create b store) b (
              ap (λ e. get_by_email e (create b store)) same ∙ get_by_email-create b store present))
        | inr (old, taken) ↦
            rw (register-taken d r store old taken)
              (register-taken d' r' store old (ap (λ e. get_by_email e store) same ∙ taken))
      ]

  login-found :
      (now : ℕ) (l : Login) (store : BusinessStore) (b : Business)
      → get_by_email l.email store ≡ some b
      → (v : Bool) → verify_password kdf l.password b.password_hash ≡ v
      → login kdf crypto secret now (some l) store
        ≡ (if v then signed_in kdf crypto secret 200 now b else refuse 401 "INVALID_CREDENTIALS")
  unfolding login
  login-found now l store b found v verdict = rw (login, found, verdict) refl

  current_business-found :
      (now : ℕ) (token : Option String) (id : String) (store : BusinessStore) (b : Business)
      → verify_session_token crypto secret now token ≡ some id
      → truthy (some id) ≡ true
      → lookup id store.by_id ≡ some b
      → current_business kdf crypto secret now token store ≡ some b
  unfolding current_business
  current_business-found now token id store b who present found =
      rw (current_business, who, present, found) refl

  -- After a registration with a free email and a new id that is not empty and has no full stop, under
  -- a salt that is not empty and has no colon:
  -- a login with that email is answered 200 with the account and its session, if the password gives
  -- the same key as the registered one, and otherwise 401 INVALID_CREDENTIALS;
  -- and the session token of the registration is answered by the account until it expires after 30
  -- days. The texts of keys and digests are as node:crypto makes them (IsKeyText, IsDigest).
  pub register-login :
      (d : Draws) (r : Registration) (store : BusinessStore) (password : String) (now : ℕ)
      → IsKeyText kdf
      → IsDigest crypto
      → get_by_email r.email store ≡ none
      → truthy (some d.uuid) ≡ true
      → has_char "." d.uuid ≡ false
      → truthy (some d.salt) ≡ true
      → has_char ":" d.salt ≡ false
      → now ≤ d.now + session_ttl_ms
      → let out = register kdf crypto secret d (some r) store in
        let b = account_of kdf crypto secret d r in
        (login kdf crypto secret now (some (record { email = r.email; password = password })) out.1
          ≡ (if same_bytes (kdf.scrypt password d.salt) (kdf.scrypt r.password d.salt)
              then signed_in kdf crypto secret 200 now b
              else refuse 401 "INVALID_CREDENTIALS"))
        × (current_business kdf crypto secret now out.0.session out.1 ≡ some b)
  unfolding account_of
  register-login d r store password now keys digest free present no_stop salted no_colon in_time =
      let b = account_of kdf crypto secret d r in
      let unexpired : (if ltb (d.now + session_ttl_ms) now then none else some d.uuid)
          ≡ some d.uuid =
        ground (arith, in_time) in
      rw (register-new d r store free) (
        login-found now (record { email = r.email; password = password }) _ b
            (get_by_email-create b store present) _
            (verify-hash kdf d.salt password r.password keys salted no_colon),
        current_business-found now _ d.uuid (create b store) b
            (verify-create crypto secret d.now now d.uuid digest present no_stop ∙ unexpired)
            present (lookup-create b store),
      )
