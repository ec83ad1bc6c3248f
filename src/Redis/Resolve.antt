-- ===== src/Redis/Resolve.antt =====
-- Releasing twice, and releasing after the reservation has expired.
use supply_chain_mangement_s.Common.{
  ℕ, ◌+◌, ◌*◌, ◌≤◌, ℤ, pos, ◌-ℤ◌, ◌<ℤ◌, ◌≤ℤ◌, String, ◌≡◌, ◌≢◌, ◌∙◌, refl, none, some, arith,
  eq_iff, inl, inr, Bool-cases,
}
use supply_chain_mangement_s.Dict.{lookup, insert, lookup-erase, lookup-insert, contains_lem}
use supply_chain_mangement_s.Exec.{ok}
use supply_chain_mangement_s.Redis.{
  Redis, already_resolved, ok_reserved, Mode, drop_key, is_expired, eval_reserve, eval_release,
  add_back, resolve_mode,
}
use supply_chain_mangement_s.Redis.Laws.{
  IsPersistent, level, hold, reserve_outcome, eval_reserve-persistent,
}

-- A key that reads as gone at `now`.
abbrev pub IsGone : ℕ → String → Redis → Type 0
IsGone now v r = (lookup v r.store ≡ none) × (lookup v r.expires_at ≡ none)

-- Giving a quantity back to one key leaves the other keys.
lookup-add_back :
    (t : ℕ) (s v : String) (q : ℤ) (r : Redis)
    → s ≢ v
    → lookup v (add_back t s q r).store ≡ lookup v r.store
unfolding add_back drop_key
lookup-add_back t s v q r ne = elim (Bool-cases (is_expired t (lookup s r.expires_at))) [
  | inl gone ↦ rw gone (grind (arith, lookup-insert, lookup-erase, eq_iff s v))
  | inr live ↦ rw live (grind (arith, lookup-insert, eq_iff s v))
]

lookup-resolve_mode :
    (t : ℕ) (s v : String) (q : ℤ) (mode : Mode) (r : Redis)
    → s ≢ v
    → lookup v (resolve_mode t s q mode r).1.store ≡ lookup v r.store
unfolding resolve_mode
lookup-resolve_mode t s v q Mode.release r ne = lookup-add_back t s v q r ne
lookup-resolve_mode t s v q Mode.commit r ne = refl
lookup-resolve_mode t s v q (Mode.other m) r ne = refl

-- The first call of the release script, with any mode, removes the reservation, or finds that it
-- has none.
gone_after_release :
    (t : ℕ) (s v : String) (mode : Mode) (r : Redis)
    → s ≢ v
    → lookup v (eval_release t s v mode r).1.store ≡ none
unfolding eval_release drop_key
gone_after_release t s v mode r ne =
    grind (
      arith,
      lookup-resolve_mode t s v,
      contains_lem v r.store,
      lookup-erase v v r.store,
      eq_iff v v,
    )

-- A release of a reservation that the store does not have changes no stored value.
release_of_gone :
    (t : ℕ) (s v : String) (mode : Mode) (r : Redis)
    → lookup v r.store ≡ none
    → ((eval_release t s v mode r).0 ≡ ok (already_resolved, pos 0))
      × ((j : String) → lookup j (eval_release t s v mode r).1.store ≡ lookup j r.store)
unfolding eval_release is_expired drop_key
release_of_gone t s v mode r gone = (
  ground (arith, gone, contains_lem v r.store),
  λ j. ground (arith, gone, contains_lem v r.store, lookup-erase v j r.store, eq_iff v j),
)

-- The release script is idempotent: whatever the first call was and found, a second call for the
-- same reservation key, in any mode and at any time, replies ALREADY_RESOLVED and changes no
-- stored value, if the reservation key is not the stock key.
pub eval_release-idempotent :
    (t t' : ℕ) (s v : String) (mode mode' : Mode) (r : Redis)
    → s ≢ v
    → let r1 = (eval_release t s v mode r).1 in
      ((eval_release t' s v mode' r1).0 ≡ ok (already_resolved, pos 0))
      × ((j : String) → lookup j (eval_release t' s v mode' r1).1.store ≡ lookup j r1.store)
eval_release-idempotent t t' s v mode mode' r ne =
    release_of_gone t' s v mode' (eval_release t s v mode r).1 (gone_after_release t s v mode r ne)

-- Past the deadline the reservation is dropped and nothing else is written.
release_expired :
    (now t ttl : ℕ) (s v : String) (q : ℤ) (r : Redis)
    → now + ttl * 1000 ≤ t
    → let held = hold now s v q ttl r in
      ((eval_release t s v Mode.release held).0 ≡ ok (already_resolved, pos 0))
      × ((j : String)
          → j ≢ v
          → lookup j (eval_release t s v Mode.release held).1.store ≡ lookup j held.store)
unfolding eval_release hold is_expired drop_key
release_expired now t ttl s v q r late =
    let deadline = lookup-insert v v (now + ttl * 1000) r.expires_at in
    (
      ground (arith, deadline, eq_iff v v),
      λ j ne. ground (
        arith,
        deadline,
        eq_iff v v,
        eq_iff v j,
        lookup-erase v j (insert v q (insert s (level s r -ℤ q) r.store)),
      ),
    )

stock_held :
    (now ttl : ℕ) (s v : String) (q a : ℤ) (r : Redis)
    → s ≢ v
    → lookup s r.store ≡ some a
    → lookup s (hold now s v q ttl r).store ≡ some (a -ℤ q)
unfolding hold
stock_held now ttl s v q a r ne stock = ground (
  arith,
  stock,
  eq_iff v s,
  eq_iff s s,
  lookup-insert v s q (insert s (level s r -ℤ q) r.store),
  lookup-insert s s (level s r -ℤ q) r.store,
)

-- An expired reservation does not give its quantity back: for a stock key that does not expire and
-- a reservation key other than it, a positive quantity within the stock is accepted, and a release
-- at any time from the deadline on replies ALREADY_RESOLVED and leaves the stock lower by the
-- quantity.
pub release_after_deadline :
    (now t ttl : ℕ) (s v : String) (q a : ℤ) (r : Redis)
    → s ≢ v
    → IsPersistent s r
    → lookup s r.store ≡ some a
    → pos 0 <ℤ q
    → q ≤ℤ a
    → now + ttl * 1000 ≤ t
    → let r1 = (eval_reserve now s v q ttl r).1 in
      ((eval_reserve now s v q ttl r).0 ≡ ok (ok_reserved, a -ℤ q))
      × ((eval_release t s v Mode.release r1).0 ≡ ok (already_resolved, pos 0))
      × (lookup s (eval_release t s v Mode.release r1).1.store ≡ some (a -ℤ q))
unfolding reserve_outcome
release_after_deadline now t ttl s v q a r ne persistent stock positive enough late =
    let held : eval_reserve now s v q ttl r ≡ (ok (ok_reserved, a -ℤ q), hold now s v q ttl r) =
      rw (eval_reserve-persistent now s v q ttl r persistent) (ground (arith, stock)) in
    let (reply, kept) = release_expired now t ttl s v q r late in
    rw held (refl, reply, kept s ne ∙ stock_held now ttl s v q a r ne stock)
