-- ===== src/Lua.antt =====
-- src/inventory/reserve.lua and src/inventory/release.lua: the scripts as a Redis server runs them, over
-- its commands as a parameter. A stored text is read as the integer it stands for, as in Redis.
pub mod InProcess
pub mod Equivalent
pub mod Sequences
mod Tests
use supply_chain_mangement_s.Common.{
  ℕ, ◌+◌, ◌*◌, ◌≤◌, ℤ, pos, ◌+ℤ◌, ◌-ℤ◌, leb_ℤ, ltb_ℤ, ltb, String, ◌≡◌, Bool, false, ◌&&◌, ◌==◌,
  Option, none, some, if◌then◌else◌,
}
use supply_chain_mangement_s.Bytes.{◌===◌}
use supply_chain_mangement_s.Exec.{
  Result, ok, err, reply_invalid_qty, reply_invalid_mode, reply_invalid_expire,
}
use supply_chain_mangement_s.Redis.{
  ReserveStatus, ok_reserved, unknown_sku, insufficient_stock, ReleaseStatus, already_resolved,
  released, committed, Mode,
}

-- The commands that the scripts call, at the server's time; `none` is an error reply.
pub record Commands (S : Type 0) : Type 0 where
  pub get : ℕ → String → S → Option ℤ
  pub del : ℕ → String → S → S
  pub incrby : ℕ → String → ℤ → S → S
  pub decrby : ℕ → String → ℤ → S → S
  pub set_ex : ℕ → String → ℤ → (ttl_seconds : ℕ) → S → Option S

-- What a counter reads later: a new one has no time to live, an old one keeps its own.
abbrev pub counted : (at_once later : Option ℤ) → ℤ → Option ℤ
counted none later change = some (pos 0 +ℤ change)
counted (some _) none change = none
counted (some _) (some value) change = some (value +ℤ change)

-- A time to live in seconds that is far from the server's limits.
abbrev pub IsTtl : ℕ → Type 0
IsTtl ttl = (1 ≤ ttl) × (ttl ≤ 1_000_000_000)

module _ {S : Type 0} (redis : Commands S) where
  -- The effect of each command on what GET replies at a time `t` from `now` on, as Redis documents it.
  pub record Documented : Type 0 where
    pub get-del :
        (now t : ℕ) (key asked : String) (s : S)
        → now ≤ t
        → redis.get t asked (redis.del now key s)
          ≡ (if key == asked then none else redis.get t asked s)
    pub get-incrby :
        (now t : ℕ) (key asked : String) (n : ℤ) (s : S)
        → now ≤ t
        → redis.get t asked (redis.incrby now key n s) ≡ (
            if key == asked
            then counted (redis.get now key s) (redis.get t key s) n
            else redis.get t asked s)
    pub get-decrby :
        (now t : ℕ) (key asked : String) (n : ℤ) (s : S)
        → now ≤ t
        → redis.get t asked (redis.decrby now key n s) ≡ (
            if key == asked
            then counted (redis.get now key s) (redis.get t key s) (pos 0 -ℤ n)
            else redis.get t asked s)
    -- Whether a key is gone at the very millisecond of its deadline is open.
    pub get-set_ex :
        (now t : ℕ) (key asked : String) (value : ℤ) (ttl : ℕ) (s s' : S)
        → redis.set_ex now key value ttl s ≡ some s'
        → now ≤ t
        → (key == asked && t === now + ttl * 1000) ≡ false
        → redis.get t asked s' ≡ (
            if key == asked
            then (if ltb t (now + ttl * 1000) then some value else none)
            else redis.get t asked s)
    -- A time to live of at least a second is taken, and one of no seconds refused.
    pub set_ex_taken :
        (now : ℕ) (key : String) (value : ℤ) (ttl : ℕ) (s : S)
        → IsTtl ttl
        → (s' : S) × (redis.set_ex now key value ttl s ≡ some s')
    pub set_ex_refused :
        (now : ℕ) (key : String) (value : ℤ) (s : S) → redis.set_ex now key value 0 s ≡ none

  -- From the DECRBY on; an error of SET ends the script, and the DECRBY stays.
  unfoldable pub hold_script :
      ℕ → String → String → ℤ → ℕ → (available : ℤ) → S → Result (ReserveStatus × ℤ) × S
  hold_script now stock_key resv_key qty ttl available s =
      let s' = redis.decrby now stock_key qty s in
      elim (redis.set_ex now resv_key qty ttl s') [
        | none ↦ (err reply_invalid_expire, s')
        | some held ↦ (ok (ok_reserved, available -ℤ qty), held)
      ]

  -- reserve.lua
  unfoldable pub reserve_script : ℕ → String → String → ℤ → ℕ → S → Result (ReserveStatus × ℤ) × S
  unfolding hold_script
  reserve_script now stock_key resv_key qty ttl s =
      if leb_ℤ qty (pos 0) then (err reply_invalid_qty, s) else elim (redis.get now stock_key s) [
        | none ↦ (ok (unknown_sku, pos 0), s)
        | some available ↦
            if ltb_ℤ available qty
            then (ok (insufficient_stock, available), s)
            else hold_script now stock_key resv_key qty ttl available s
      ]

  unfoldable pub resolve_script : ℕ → String → ℤ → Mode → S → Result (ReleaseStatus × ℤ) × S
  resolve_script now stock_key qty Mode.release s =
      (ok (released, qty), redis.incrby now stock_key qty s)
  resolve_script now stock_key qty Mode.commit s = (ok (committed, qty), s)
  resolve_script now stock_key qty (Mode.other _) s = (err reply_invalid_mode, s)

  -- release.lua
  unfoldable pub release_script : ℕ → String → String → Mode → S → Result (ReleaseStatus × ℤ) × S
  unfolding resolve_script
  release_script now stock_key resv_key mode s = elim (redis.get now resv_key s) [
    | none ↦ (ok (already_resolved, pos 0), s)
    | some qty ↦ resolve_script now stock_key qty mode (redis.del now resv_key s)
  ]
