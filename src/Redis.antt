-- ===== src/Redis.antt =====
-- src/inventory/inMemoryRedis.ts: the in-process Redis client and the two scripts that it runs.
-- The program stores decimal texts of integers only, and a text is read as the integer it stands
-- for. A synchronous method takes its readings of `Date.now()` as the one number `now`.
pub mod Laws
pub mod Resolve
pub mod NoOversell
mod Tests
use supply_chain_mangement_s.Common.{
  ℕ, ◌+◌, ◌*◌, ℤ, pos, ◌+ℤ◌, ◌-ℤ◌, leb_ℤ, ltb_ℤ, leb, String, Bool, false, Option, none, some, List,
  [], ◌∷◌, if◌then◌else◌,
}
use supply_chain_mangement_s.Dict.{Dict, lookup, contains, insert, erase}
use supply_chain_mangement_s.Exec.{
  reply_invalid_qty, reply_invalid_mode, unknown_script, Result, ok, err, Exec,
}

pub record Redis : Type 0 where
  pub store : Dict ℤ
  pub expires_at : Dict ℕ

abbrev pub empty : Redis
empty = record { store = []; expires_at = [] }

-- `this.store.delete(key); this.expiresAt.delete(key);`
unfoldable pub drop_key : String → Redis → Redis
drop_key key r = record { store = erase key r.store; expires_at = erase key r.expires_at }

-- `exp !== undefined && exp <= Date.now()`
unfoldable pub is_expired : ℕ → Option ℕ → Bool
is_expired now none = false
is_expired now (some exp) = leb exp now

-- The value of a live key, as `isLive(key) ? store.get(key) : …` reads it.
unfoldable pub peek : ℕ → String → Redis → Option ℤ
peek now key r = if is_expired now (lookup key r.expires_at) then none else lookup key r.store

-- The write of `isLive`: an expired key is removed when it is read.
unfoldable pub sweep : ℕ → String → Redis → Redis
sweep now key r = if is_expired now (lookup key r.expires_at) then drop_key key r else r

unfoldable pub is_live : ℕ → String → Redis → Bool × Redis
unfolding sweep
is_live now key r =
    if is_expired now (lookup key r.expires_at)
    then (false, drop_key key r)
    else (contains key r.store, r)

unfoldable pub get : ℕ → String → Redis → Option ℤ × Redis
unfolding is_live
get now key r =
    let (live, r') = is_live now key r in (if live then lookup key r'.store else none, r')

unfoldable pub set : String → ℤ → Redis → Redis
set key value r = record { store = insert key value r.store; expires_at = erase key r.expires_at }

-- The loop of `del` over its keys, with the count so far.
unfoldable pub del_from : ℕ → ℕ → List String → Redis → ℕ × Redis
unfolding is_live
del_from count now [] r = (count, r)
del_from count now (key ∷ keys) r =
    let (live, r') = is_live now key r in
    del_from (if live then count + 1 else count) now keys (drop_key key r')

unfoldable pub del : ℕ → List String → Redis → ℕ × Redis
unfolding del_from
del now keys r = del_from 0 now keys r

pub data ReserveStatus : Type 0 where
  ok_reserved unknown_sku insufficient_stock : ReserveStatus

pub data ReleaseStatus : Type 0 where
  already_resolved released committed : ReleaseStatus

pub data Mode : Type 0 where
  release commit : Mode
  other : String → Mode

-- `Number(this.store.get(key))` after the key was found live.
abbrev pub number_at : String → Redis → ℤ
number_at key r = elim (lookup key r.store) [ none ↦ pos 0 | some v ↦ v ]

unfoldable pub eval_reserve : ℕ → String → String → ℤ → ℕ → Exec Redis (ReserveStatus × ℤ)
unfolding is_live
eval_reserve now stock_key resv_key qty ttl_seconds r =
    if leb_ℤ qty (pos 0)
    then (err reply_invalid_qty, r)
    else let (live, r') = is_live now stock_key r in
      let available = number_at stock_key r' in
      let remaining = available -ℤ qty in
      if live
      then if ltb_ℤ available qty then (ok (insufficient_stock, available), r') else (
        ok (ok_reserved, remaining),
        record {
          store = insert resv_key qty (insert stock_key remaining r'.store);
          expires_at = insert resv_key (now + ttl_seconds * 1000) r'.expires_at;
        },
      )
      else (ok (unknown_sku, pos 0), r')

-- `const current = this.isLive(stockKey) ? Number(this.store.get(stockKey)) : 0`, and the write.
unfoldable pub add_back : ℕ → String → ℤ → Redis → Redis
unfolding is_live
add_back now stock_key qty r =
    let (live, r') = is_live now stock_key r in
    let current = if live then number_at stock_key r' else pos 0 in
    record r' { store = insert stock_key (current +ℤ qty) r'.store }

unfoldable pub resolve_mode : ℕ → String → ℤ → Mode → Exec Redis (ReleaseStatus × ℤ)
unfolding add_back
resolve_mode now stock_key qty release r = (ok (released, qty), add_back now stock_key qty r)
resolve_mode now stock_key qty commit r = (ok (committed, qty), r)
resolve_mode now stock_key qty (other _) r = (err reply_invalid_mode, r)

unfoldable pub eval_release : ℕ → String → String → Mode → Exec Redis (ReleaseStatus × ℤ)
unfolding is_live resolve_mode
eval_release now stock_key resv_key mode r =
    let (live, r') = is_live now resv_key r in
    let qty = number_at resv_key r' in
    let resolved = resolve_mode now stock_key qty mode (drop_key resv_key r') in
    if live then resolved else (ok (already_resolved, pos 0), r')

-- The calls of `eval`: the two known scripts with their keys and arguments, or another script.
pub data Script : Type 0 where
  reserve_script :
      (stock_key resv_key : String) → ℤ → (reservation_id : String) → (ttl : ℕ) → Script
  release_script : (stock_key resv_key : String) → Mode → Script
  other_script : String → Script

pub data Reply : Type 0 where
  reserve_reply : ReserveStatus → ℤ → Reply
  release_reply : ReleaseStatus → ℤ → Reply

abbrev pub as_reply : {A : Type 0} → (A → ℤ → Reply) → Result (A × ℤ) × Redis → Result Reply × Redis
as_reply f (ok (a, n), r) = (ok (f a n), r)
as_reply f (err e, r) = (err e, r)

unfoldable pub eval : ℕ → Script → Exec Redis Reply
unfolding eval_reserve eval_release
eval now (reserve_script stock_key resv_key qty reservation_id ttl) r =
    as_reply reserve_reply (eval_reserve now stock_key resv_key qty ttl r)
eval now (release_script stock_key resv_key mode) r =
    as_reply release_reply (eval_release now stock_key resv_key mode r)
eval now (other_script _) r = (err unknown_script, r)
