-- ===== src/Lua/InProcess.antt =====
-- The calls in process: what each writes, and what is read afterwards.
use supply_chain_mangement_s.Common.{
  Bool, false, ℕ, ◌+◌, ◌*◌, ◌≤◌, ℤ, pos, ◌+ℤ◌, ◌-ℤ◌, leb_ℤ, ltb_ℤ, ltb, String, ◌≡◌, refl, true,
  false, ◌==◌, Option, none, some, arith, eq_iff, Bool-cases, inl, inr, if◌then◌else◌, int_laws,
}
use supply_chain_mangement_s.Bytes.{◌===◌}
use supply_chain_mangement_s.Dict.{lookup, insert, erase, lookup-insert, lookup-erase, contains_lem}
use supply_chain_mangement_s.Exec.{ok, err, reply_invalid_qty}
use supply_chain_mangement_s.Redis.{
  Redis, drop_key, is_expired, peek, sweep, is_live, ok_reserved, unknown_sku, insufficient_stock,
  already_resolved, Mode, number_at, eval_reserve, add_back, resolve_mode, eval_release,
}
use supply_chain_mangement_s.Lua.{counted}

-- Whether `t` is the very millisecond of a deadline.
abbrev pub at_deadline : ℕ → Option ℕ → Bool
at_deadline t none = false
at_deadline t (some exp) = t === exp

-- `t` is not the deadline of the key.
abbrev pub Off : ℕ → String → Redis → Type 0
Off t key r = at_deadline t (lookup key r.expires_at) ≡ false

pub Off-drop_key :
    (t : ℕ) (key asked : String) (r : Redis) → Off t asked r → Off t asked (drop_key key r)
unfolding drop_key
Off-drop_key t key asked r h = ground (arith, h, lookup-erase key asked r.expires_at)

pub Off-of_drop_key :
    (t : ℕ) (key asked : String) (r : Redis)
    → (key == asked) ≡ false
    → Off t asked (drop_key key r)
    → Off t asked r
unfolding drop_key
Off-of_drop_key t key asked r other h =
    ground (arith, h, other, lookup-erase key asked r.expires_at)

pub Off-of_sweep :
    (now t : ℕ) (key asked : String) (r : Redis)
    → now ≤ t
    → Off now key r
    → Off t asked (sweep now key r)
    → Off t asked r
unfolding sweep drop_key is_expired
Off-of_sweep now t key asked r late off h =
    ground (arith, h, off, lookup-erase key asked r.expires_at, eq_iff key asked)

pub Off-of_add_back :
    (now t : ℕ) (key asked : String) (qty : ℤ) (r : Redis)
    → now ≤ t
    → Off now key r
    → Off t asked (add_back now key qty r)
    → Off t asked r
unfolding add_back is_live drop_key is_expired
Off-of_add_back now t key asked qty r late off h =
    ground (arith, h, off, lookup-erase key asked r.expires_at, eq_iff key asked)

-- A key without a value has no deadline.
abbrev pub NoStrayDeadline : Redis → Type 0
NoStrayDeadline r = (key : String) → lookup key r.store ≡ none → lookup key r.expires_at ≡ none

pub expired_later :
    (now t : ℕ) (o : Option ℕ) → now ≤ t → is_expired now o ≡ true → is_expired t o ≡ true
unfolding is_expired
expired_later now t none h e = e
expired_later now t (some exp) h e = ground arith

-- Dropping an expired key shows nothing new.
pub peek-drop_key :
    (now t : ℕ) (key asked : String) (r : Redis)
    → now ≤ t
    → is_expired now (lookup key r.expires_at) ≡ true
    → peek t asked (drop_key key r) ≡ peek t asked r
unfolding peek drop_key is_expired
peek-drop_key now t key asked r h e = ground (
  arith,
  lookup-erase key asked r.store,
  lookup-erase key asked r.expires_at,
  eq_iff key asked,
  expired_later now t (lookup key r.expires_at) h e,
)

pub drop_key-NoStrayDeadline :
    (key : String) (r : Redis) → NoStrayDeadline r → NoStrayDeadline (drop_key key r)
unfolding drop_key
drop_key-NoStrayDeadline key r clean asked h =
    ground
      (arith, h, lookup-erase key asked r.store, lookup-erase key asked r.expires_at, clean asked)

-- Reading a key may drop it if it has expired, which shows nothing new.
pub peek-sweep :
    (now t : ℕ) (key asked : String) (r : Redis)
    → now ≤ t
    → peek t asked (sweep now key r) ≡ peek t asked r
unfolding sweep
peek-sweep now t key asked r h = elim (Bool-cases (is_expired now (lookup key r.expires_at))) [
  | inl e ↦ rw e (peek-drop_key now t key asked r h e)
  | inr e ↦ rw e refl
]

pub sweep-NoStrayDeadline :
    (now : ℕ) (key : String) (r : Redis) → NoStrayDeadline r → NoStrayDeadline (sweep now key r)
unfolding sweep
sweep-NoStrayDeadline now key r clean =
    elim (Bool-cases (is_expired now (lookup key r.expires_at))) [
      | inl e ↦ rw e (drop_key-NoStrayDeadline key r clean)
      | inr e ↦ rw e clean
    ]

module _ (now : ℕ) (key resv_key : String) (qty : ℤ) (ttl : ℕ) (r : Redis) where
  -- What an accepted reservation writes in process.
  abbrev pub held : ℤ → Redis
  held available = record {
    store = insert resv_key qty (insert key (available -ℤ qty) r.store);
    expires_at = insert resv_key (now + ttl * 1000) r.expires_at;
  }

  pub reserve-invalid :
      leb_ℤ qty (pos 0) ≡ true
      → eval_reserve now key resv_key qty ttl r ≡ (err reply_invalid_qty, r)
  unfolding eval_reserve
  reserve-invalid e = ground (arith, e)

  pub reserve-unknown :
      leb_ℤ qty (pos 0) ≡ false
      → peek now key r ≡ none
      → eval_reserve now key resv_key qty ttl r ≡ (ok (unknown_sku, pos 0), sweep now key r)
  unfolding eval_reserve peek sweep
  reserve-unknown e h = ground (arith, e, h, contains_lem key r.store)

  pub reserve-short :
      (available : ℤ)
      → leb_ℤ qty (pos 0) ≡ false
      → peek now key r ≡ some available
      → ltb_ℤ available qty ≡ true
      → eval_reserve now key resv_key qty ttl r ≡ (ok (insufficient_stock, available), r)
  unfolding eval_reserve peek
  reserve-short available e h short = ground (arith, e, h, short, contains_lem key r.store)

  pub reserve-held :
      (available : ℤ)
      → leb_ℤ qty (pos 0) ≡ false
      → peek now key r ≡ some available
      → ltb_ℤ available qty ≡ false
      → eval_reserve now key resv_key qty ttl r
        ≡ (ok (ok_reserved, available -ℤ qty), held available)
  unfolding eval_reserve peek
  reserve-held available e h enough = ground (arith, e, h, enough, contains_lem key r.store)

pub minus : (a b : ℤ) → a +ℤ (pos 0 -ℤ b) ≡ a -ℤ b
minus a b = omega int_laws

-- What is read after an accepted reservation.
pub peek-held :
    (now t : ℕ) (key resv_key asked : String) (qty : ℤ) (ttl : ℕ) (available : ℤ) (r : Redis)
    → peek now key r ≡ some available
    → peek t asked (held now key resv_key qty ttl r available) ≡ (
        if resv_key == asked
        then (if ltb t (now + ttl * 1000) then some qty else none)
        else if key == asked
        then counted (some available) (peek t key r) (pos 0 -ℤ qty)
        else peek t asked r)
unfolding peek is_expired
peek-held now t key resv_key asked qty ttl available r h = ground (
  arith,
  h,
  minus available qty,
  lookup-insert resv_key asked qty (insert key (available -ℤ qty) r.store),
  lookup-insert key asked (available -ℤ qty) r.store,
  lookup-insert resv_key asked (now + ttl * 1000) r.expires_at,
  eq_iff key asked,
)

pub peek-drop :
    (t : ℕ) (key asked : String) (r : Redis)
    → peek t asked (drop_key key r) ≡ (if key == asked then none else peek t asked r)
unfolding peek drop_key is_expired
peek-drop t key asked r =
    ground (arith, lookup-erase key asked r.store, lookup-erase key asked r.expires_at)

pub zero-plus : (a : ℤ) → pos 0 +ℤ a ≡ a
zero-plus a = omega int_laws

-- What is read after the quantity of a reservation is added back.
pub peek-add_back :
    (now t : ℕ) (key asked : String) (qty : ℤ) (r : Redis)
    → now ≤ t
    → NoStrayDeadline r
    → peek t asked (add_back now key qty r)
      ≡ (if key == asked then counted (peek now key r) (peek t key r) qty else peek t asked r)
unfolding peek add_back is_live drop_key is_expired
peek-add_back now t key asked qty r late clean = ground (
  arith,
  contains_lem key r.store,
  lookup-erase key asked r.store,
  lookup-erase key asked r.expires_at,
  lookup-insert key asked (number_at key r +ℤ qty) r.store,
  lookup-insert key asked (pos 0 +ℤ qty) r.store,
  lookup-insert key asked (pos 0 +ℤ qty) (erase key r.store),
  eq_iff key asked,
  clean key,
)

pub add_back-NoStrayDeadline :
    (now : ℕ) (key : String) (qty : ℤ) (r : Redis)
    → NoStrayDeadline r
    → NoStrayDeadline (add_back now key qty r)
unfolding add_back is_live drop_key
add_back-NoStrayDeadline now key qty r clean asked absent = ground (
  arith,
  absent,
  contains_lem key r.store,
  lookup-erase key asked r.store,
  lookup-erase key asked r.expires_at,
  lookup-insert key asked (number_at key r +ℤ qty) r.store,
  lookup-insert key asked (pos 0 +ℤ qty) r.store,
  lookup-insert key asked (pos 0 +ℤ qty) (erase key r.store),
  clean asked,
)

module _ (now : ℕ) (key resv_key : String) (mode : Mode) (r : Redis) where
  pub release-gone :
      peek now resv_key r ≡ none
      → eval_release now key resv_key mode r ≡ (ok (already_resolved, pos 0), sweep now resv_key r)
  unfolding eval_release is_live peek sweep
  release-gone h = ground (arith, h, contains_lem resv_key r.store)

  pub release-open :
      (qty : ℤ)
      → peek now resv_key r ≡ some qty
      → eval_release now key resv_key mode r ≡ resolve_mode now key qty mode (drop_key resv_key r)
  unfolding eval_release is_live peek
  release-open qty h = ground (arith, h, contains_lem resv_key r.store)
