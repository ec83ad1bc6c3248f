-- ===== src/Redis/Laws.antt =====
-- The two scripts on a stock key that never expires: what they reply and what they write.
use supply_chain_mangement_s.Common.{
  ℕ, ◌+◌, ◌*◌, ℤ, pos, ◌+ℤ◌, ◌-ℤ◌, leb_ℤ, ltb_ℤ, String, ◌≡◌, ◌≢◌, false, Option, none, some, arith,
  eq_iff, if◌then◌else◌,
}
use supply_chain_mangement_s.Dict.{lookup, insert, erase, lookup-erase, contains_lem}
use supply_chain_mangement_s.Exec.{Result, ok, err, reply_invalid_qty}
use supply_chain_mangement_s.Redis.{
  Redis, ReserveStatus, ok_reserved, unknown_sku, insufficient_stock, released, committed, Mode,
  drop_key, is_expired, eval_reserve, eval_release,
}

abbrev pub IsPersistent : String → Redis → Type 0
IsPersistent key r = lookup key r.expires_at ≡ none

abbrev pub or_zero : Option ℤ → ℤ
or_zero none = pos 0
or_zero (some v) = v

-- The stock count under a key, 0 if there is none.
abbrev pub level : String → Redis → ℤ
level key r = or_zero (lookup key r.store)

-- What an accepted reservation writes.
unfoldable pub hold : ℕ → String → String → ℤ → ℕ → Redis → Redis
hold now stock_key resv_key qty ttl r = record {
  store = insert resv_key qty (insert stock_key (level stock_key r -ℤ qty) r.store);
  expires_at = insert resv_key (now + ttl * 1000) r.expires_at;
}

-- What a release writes.
unfoldable pub give_back : String → String → ℤ → Redis → Redis
give_back stock_key resv_key qty r = record {
  store = insert stock_key (level stock_key r +ℤ qty) (erase resv_key r.store);
  expires_at = erase resv_key r.expires_at;
}

-- What the reserve script does to a stock key that does not expire, in terms of the stored count.
unfoldable pub reserve_outcome :
    ℕ → String → String → ℤ → ℕ → Redis → Result (ReserveStatus × ℤ) × Redis
unfolding hold
reserve_outcome now s v q ttl r =
    if leb_ℤ q (pos 0) then (err reply_invalid_qty, r) else elim (lookup s r.store) [
      | none ↦ (ok (unknown_sku, pos 0), r)
      | some a ↦
          if ltb_ℤ a q
          then (ok (insufficient_stock, a), r)
          else (ok (ok_reserved, a -ℤ q), hold now s v q ttl r)
    ]

pub eval_reserve-persistent :
    (now : ℕ) (s v : String) (q : ℤ) (ttl : ℕ) (r : Redis)
    → IsPersistent s r
    → eval_reserve now s v q ttl r ≡ reserve_outcome now s v q ttl r
unfolding eval_reserve reserve_outcome is_expired
eval_reserve-persistent now s v q ttl r h = ground (arith, contains_lem s r.store)

-- A reservation key that is live at `now` and holds `q`.
pub record IsLiveHold (now : ℕ) (v : String) (q : ℤ) (r : Redis) : Type 0 where
  pub holds : lookup v r.store ≡ some q
  pub live : is_expired now (lookup v r.expires_at) ≡ false

pub eval_release-live :
    (now : ℕ) (s v : String) (q : ℤ) (r : Redis)
    → s ≢ v
    → IsPersistent s r
    → IsLiveHold now v q r
    → eval_release now s v Mode.release r ≡ (ok (released, q), give_back s v q r)
unfolding eval_release is_expired give_back drop_key
eval_release-live now s v q r ne h l = ground (
  arith,
  l.live,
  l.holds,
  contains_lem v r.store,
  contains_lem s (erase v r.store),
  lookup-erase v s r.store,
  lookup-erase v s r.expires_at,
  eq_iff v s,
)

pub eval_commit-live :
    (now : ℕ) (s v : String) (q : ℤ) (r : Redis)
    → IsLiveHold now v q r
    → eval_release now s v Mode.commit r ≡ (ok (committed, q), drop_key v r)
unfolding eval_release drop_key
eval_commit-live now s v q r l = ground (arith, l.live, l.holds, contains_lem v r.store)
