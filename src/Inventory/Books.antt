-- ===== src/Inventory/Books.antt =====
-- The books of the open reservations: each is stored under its own key and outlives the time
-- window of the run, and what they hold back is exactly what is missing from the stock counts.
use supply_chain_mangement_s.Common.{
  ℕ, ◌+◌, ◌≤◌, ◌<◌, ℤ, pos, ◌+ℤ◌, String, ◌≡◌, ◌≢◌, none, some, List, [], ◌∷◌, ◌++◌, arith, ◌==◌,
  All, if◌then◌else◌, int_laws,
}
use supply_chain_mangement_s.Dict.{lookup}
use supply_chain_mangement_s.Types.{Reservation}
use supply_chain_mangement_s.Keys.{stock_key, reservation_key}
use supply_chain_mangement_s.Redis.{Redis}
use supply_chain_mangement_s.Redis.Laws.{IsPersistent, level}
use supply_chain_mangement_s.World.{Env, World}

-- A reservation and the quantity that it holds back.
pub record Hold : Type 0 where
  pub res : Reservation
  pub qty : ℤ

abbrev pub stock_of : Hold → String
stock_of h = stock_key h.res.warehouse_id h.res.sku

abbrev pub key_of : Hold → String
key_of h = reservation_key h.res.reservation_id

-- What the open reservations hold back from one stock key.
unfoldable pub held_qty : String → List Hold → ℤ
held_qty k [] = pos 0
held_qty k (h ∷ hs) = (if stock_of h == k then h.qty else pos 0) +ℤ held_qty k hs

-- The clock stays within one reservation's life, and no id is drawn twice.
pub record IsWindow (start : ℕ) (env : Env) : Type 0 where
  pub after : (n : ℕ) → start ≤ env.clock n
  pub before : (n : ℕ) → env.clock n < start + 900000
  pub unique : (m n : ℕ) → env.uuids m ≡ env.uuids n → m ≡ n

pub record IsHeld (start : ℕ) (r : Redis) (h : Hold) : Type 0 where
  pub stored : lookup (key_of h) r.store ≡ some h.qty
  pub deadline : ℕ
  pub expires : lookup (key_of h) r.expires_at ≡ some deadline
  pub late : start + 900000 ≤ deadline

abbrev pub AllHeld : ℕ → Redis → List Hold → Type 0
AllHeld start r = All (IsHeld start r)

abbrev pub Apart : Hold → List Hold → Type 0
Apart h = All (λ h'. key_of h ≢ key_of h')

abbrev pub Distinct : List Hold → Type 0
Distinct [] = Unit
Distinct (h ∷ hs) = Apart h hs × Distinct hs

-- `total k` is the stock of `k` with nothing reserved.
pub record Books (start : ℕ) (total : String → ℤ) (hs : List Hold) (w : World) : Type 0 where
  pub persistent : (a b : String) → IsPersistent (stock_key a b) w.redis
  pub fresh : (n : ℕ) → w.drawn ≤ n → lookup (reservation_key (w.env.uuids n)) w.redis.store ≡ none
  pub held : AllHeld start w.redis hs
  pub distinct : Distinct hs
  pub balance :
      (a b : String)
      → total (stock_key a b) ≡ level (stock_key a b) w.redis +ℤ held_qty (stock_key a b) hs

pub held_qty-append :
    (k : String) (hs : List Hold) (h : Hold)
    → held_qty k (hs ++ h ∷ []) ≡ held_qty k hs +ℤ (if stock_of h == k then h.qty else pos 0)
unfolding held_qty
held_qty-append k [] h = omega int_laws
held_qty-append k (x ∷ hs) h = rw (held_qty-append k hs h) (omega int_laws)

-- A new hold under a key that the store does not have is apart from the old ones.
module _ (start : ℕ) (r : Redis) (h : Hold) (absent : lookup (key_of h) r.store ≡ none) where
  Apart_of_absent : (x : Hold) → IsHeld start r x → key_of x ≢ key_of h
  Apart_of_absent x held e = ground (arith, held.stored)

  pub Distinct-append :
      (hs : List Hold) → AllHeld start r hs → Distinct hs → Distinct (hs ++ h ∷ [])
  Distinct-append [] held d = (tt, tt)
  Distinct-append (x ∷ hs) held d = (apart hs d.0, Distinct-append hs held.1 d.1)
    where
      apart : (ys : List Hold) → Apart x ys → Apart x (ys ++ h ∷ [])
      apart [] a = (Apart_of_absent x held.0, tt)
      apart (y ∷ ys) a = (a.0, apart ys a.1)
