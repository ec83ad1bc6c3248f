-- ===== src/Inventory/Listing/Complete.antt =====
-- `listAll` shows every known pair once, with its count, in order, and changes no stock.
use mathlib.Core.List.{Perm}
use mathlib.Core.List.Perm
use supply_chain_mangement_s.Common.{
  ℕ, ℤ, ◌+◌, ◌≡◌, ◌∙◌, ap, String, Bool, true, false, List, [], ◌∷◌, map, length, All, arith,
  Bool-cases, inl, inr,
}
use supply_chain_mangement_s.Dict.{values, lookup, contains_lem}
use supply_chain_mangement_s.Exec.{Result, ok, continue, pure, ◌>>=◌}
use supply_chain_mangement_s.Keys.{stock_key}
use supply_chain_mangement_s.Redis
use supply_chain_mangement_s.Redis.{Redis, is_expired}
use supply_chain_mangement_s.Redis.Laws.{IsPersistent, level}
use supply_chain_mangement_s.World.{World, now}
use supply_chain_mangement_s.Inventory.{get_available}
use supply_chain_mangement_s.Inventory.Listing.{
  KnownStockRecord, get_each, sort_key, place, sort_records, list_all,
}

-- What is shown of a pair.
abbrev pub shown : Redis → String × String → KnownStockRecord
shown r pair = record {
  warehouse_id = pair.0;
  sku = pair.1;
  available = level (stock_key pair.0 pair.1) r;
}

abbrev read_clock : ℕ → World → World
read_clock n w = record w { reads = w.reads + n }

abbrev AllPersistent : Redis → List (String × String) → Type 0
AllPersistent r pairs = All (λ pair. IsPersistent (stock_key pair.0 pair.1) r) pairs

get-persistent :
    (t : ℕ) (key : String) (r : Redis)
    → IsPersistent key r
    → Redis.get t key r ≡ (lookup key r.store, r)
unfolding Redis.get is_expired
get-persistent t key r h = ground (arith, h, contains_lem key r.store)

get_available-persistent :
    (a b : String) (w : World)
    → IsPersistent (stock_key a b) w.redis
    → get_available a b w ≡ (ok (level (stock_key a b) w.redis), read_clock 1 w)
unfolding get_available now
get_available-persistent a b w h =
    rw (get_available, get-persistent (w.env.clock w.reads) (stock_key a b) w.redis h)
      (ap (λ v. (ok v, read_clock 1 w)) (ground arith))

get_each-persistent :
    (pairs : List (String × String)) (w : World)
    → AllPersistent w.redis pairs
    → get_each pairs w ≡ (ok (map (shown w.redis) pairs), read_clock (length pairs) w)
unfolding get_each
get_each-persistent [] w h = ap (λ n. (ok [], record w { reads = n })) (omega arith)
get_each-persistent ((a, b) ∷ pairs) w h =
    ap
      (λ (out : Result ℤ × World).
        continue out.0
          (λ available. get_each pairs >>= λ records.
            pure (record { warehouse_id = a; sku = b; available = available } ∷ records))
          out.1)
      (get_available-persistent a b w h.0)
    ∙ ap
        (λ (out : Result (List KnownStockRecord) × World).
          continue out.0 (λ records. pure (shown w.redis (a, b) ∷ records)) out.1)
        (get_each-persistent pairs (read_clock 1 w) h.1)
    ∙ ap (λ n. (ok (map (shown w.redis) ((a, b) ∷ pairs)), record w { reads = n })) (omega arith)

-- A comparison of texts by `localeCompare`: of two texts one is at most the other, and the order is
-- transitive.
pub record IsCollation (at_most : String → String → Bool) : Type 0 where
  pub total : (a b : String) → at_most a b ≡ false → at_most b a ≡ true
  pub transitive : (a b c : String) → at_most a b ≡ true → at_most b c ≡ true → at_most a c ≡ true

module _ (at_most : String → String → Bool) where
  place-perm :
      (r : KnownStockRecord) (rest : List KnownStockRecord) → Perm (place at_most r rest) (r ∷ rest)
  unfolding place
  place-perm r [] = Perm.refl (r ∷ [])
  place-perm r (next ∷ rest) = elim (Bool-cases (at_most (sort_key r) (sort_key next))) [
    | inl le ↦ rw le (Perm.refl (r ∷ next ∷ rest))
    | inr gt ↦ rw gt (Perm.trans (Perm.cons next (place-perm r rest)) (Perm.swap r next rest))
  ]

  sort_records-perm : (rs : List KnownStockRecord) → Perm (sort_records at_most rs) rs
  unfolding sort_records
  sort_records-perm [] = Perm.refl []
  sort_records-perm (r ∷ rs) =
      Perm.trans (place-perm r (sort_records at_most rs)) (Perm.cons r (sort_records-perm rs))

  -- No record comes in front of one that it does not go before.
  abbrev pub AllAfter : KnownStockRecord → List KnownStockRecord → Type 0
  AllAfter r rest = All (λ next. at_most (sort_key r) (sort_key next) ≡ true) rest

  abbrev pub IsSorted : List KnownStockRecord → Type 0
  IsSorted [] = Unit
  IsSorted (r ∷ rest) = AllAfter r rest × IsSorted rest

  module _ (collation : IsCollation at_most) where
    AllAfter-trans :
        (r next : KnownStockRecord) (rest : List KnownStockRecord)
        → at_most (sort_key r) (sort_key next) ≡ true
        → AllAfter next rest
        → AllAfter r rest
    AllAfter-trans r next [] le h = tt
    AllAfter-trans r next (third ∷ rest) le h = (
      collation.transitive (sort_key r) (sort_key next) (sort_key third) le h.0,
      AllAfter-trans r next rest le h.1,
    )

    AllAfter-place :
        (first r : KnownStockRecord) (rest : List KnownStockRecord)
        → at_most (sort_key first) (sort_key r) ≡ true
        → AllAfter first rest
        → AllAfter first (place at_most r rest)
    unfolding place
    AllAfter-place first r [] le h = (le, tt)
    AllAfter-place first r (next ∷ rest) le h =
        elim (Bool-cases (at_most (sort_key r) (sort_key next))) [
          | inl e ↦ rw e (le, h)
          | inr e ↦ rw e (h.0, AllAfter-place first r rest le h.1)
        ]

    place-IsSorted :
        (r : KnownStockRecord) (rest : List KnownStockRecord)
        → IsSorted rest
        → IsSorted (place at_most r rest)
    unfolding place
    place-IsSorted r [] s = (tt, tt)
    place-IsSorted r (next ∷ rest) s = elim (Bool-cases (at_most (sort_key r) (sort_key next))) [
      | inl e ↦ rw e ((e, AllAfter-trans r next rest e s.0), s)
      | inr e ↦ rw e (
        AllAfter-place next r rest (collation.total (sort_key r) (sort_key next) e) s.0,
        place-IsSorted r rest s.1,
      )
    ]

    sort_records-IsSorted : (rs : List KnownStockRecord) → IsSorted (sort_records at_most rs)
    unfolding sort_records
    sort_records-IsSorted [] = tt
    sort_records-IsSorted (r ∷ rs) =
        place-IsSorted r (sort_records at_most rs) (sort_records-IsSorted rs)

    -- Where the stock key of each known pair has no deadline, `listAll` returns each known pair once,
    -- with its stored count or 0 if it has none, sorted by the texts that it compares, and all that
    -- it changes is the number of readings of the clock.
    pub list_all-lists :
        (w : World)
        → All (λ pair. IsPersistent (stock_key pair.0 pair.1) w.redis) (values w.known)
        → (records : List KnownStockRecord) × (list_all at_most w
            ≡ (ok records, record w { reads = w.reads + length (values w.known) }))
          × Perm records (map (shown w.redis) (values w.known))
          × IsSorted records
    unfolding list_all
    list_all-lists w h = (
      sort_records at_most (map (shown w.redis) (values w.known)),
      ap
          (λ (out : Result (List KnownStockRecord) × World).
            continue out.0 (λ records. pure (sort_records at_most records)) out.1)
          (get_each-persistent (values w.known) w h),
      sort_records-perm (map (shown w.redis) (values w.known)),
      sort_records-IsSorted (map (shown w.redis) (values w.known)),
    )
