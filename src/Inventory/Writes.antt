-- ===== src/Inventory/Writes.antt =====
-- What the three kinds of write, of a reservation, of a release and of a dropped key, leave of the
-- other reservations, of the stock counts and of the ids not in use.
use supply_chain_mangement_s.Common.{
  ℕ, ◌+◌, ◌*◌, ◌≤◌, ℤ, ◌+ℤ◌, ◌-ℤ◌, String, ◌≡◌, ◌≢◌, none, List, [], ◌∷◌, arith, ◌==◌, eq_iff,
  if◌then◌else◌,
}
use supply_chain_mangement_s.Dict.{lookup, insert, erase, lookup-insert, lookup-erase}
use supply_chain_mangement_s.Keys.{
  stock_key, reservation_key, stock_key-ne, reservation_key-injective,
}
use supply_chain_mangement_s.Redis.{Redis, drop_key}
use supply_chain_mangement_s.Redis.Laws.{IsPersistent, level, hold, give_back}
use supply_chain_mangement_s.Inventory.Books.{Hold, key_of, IsHeld, AllHeld, Apart}

-- The writes of a new reservation keep the old ones.
pub hold_keeps :
    (start now : ℕ) (a b id : String) (q : ℤ) (r : Redis) (h : Hold)
    → lookup (reservation_key id) r.store ≡ none
    → IsHeld start r h
    → IsHeld start (hold now (stock_key a b) (reservation_key id) q 900 r) h
unfolding hold
hold_keeps start now a b id q r h absent held =
    let apart : reservation_key id ≢ key_of h = λ e. ground (arith, held.stored) in
    let stock : stock_key a b ≢ key_of h = stock_key-ne a b h.res.reservation_id in
    record {
      stored = ground (
        arith,
        held.stored,
        eq_iff (reservation_key id) (key_of h),
        eq_iff (stock_key a b) (key_of h),
        lookup-insert (reservation_key id) (key_of h) q
            (insert (stock_key a b) (level (stock_key a b) r -ℤ q) r.store),
        lookup-insert (stock_key a b) (key_of h) (level (stock_key a b) r -ℤ q) r.store,
      );
      deadline = held.deadline;
      expires = ground (
        arith,
        held.expires,
        eq_iff (reservation_key id) (key_of h),
        lookup-insert (reservation_key id) (key_of h) (now + 900 * 1000) r.expires_at,
      );
      late = held.late;
    }

-- The writes of a release keep the other reservations.
pub give_back_keeps :
    (start : ℕ) (a b id : String) (q : ℤ) (r : Redis) (h : Hold)
    → reservation_key id ≢ key_of h
    → IsHeld start r h
    → IsHeld start (give_back (stock_key a b) (reservation_key id) q r) h
unfolding give_back
give_back_keeps start a b id q r h apart held =
    let stock : stock_key a b ≢ key_of h = stock_key-ne a b h.res.reservation_id in
    record {
      stored = ground (
        arith,
        held.stored,
        eq_iff (reservation_key id) (key_of h),
        eq_iff (stock_key a b) (key_of h),
        lookup-insert (stock_key a b) (key_of h) (level (stock_key a b) r +ℤ q)
            (erase (reservation_key id) r.store),
        lookup-erase (reservation_key id) (key_of h) r.store,
      );
      deadline = held.deadline;
      expires = ground (
        arith,
        held.expires,
        eq_iff (reservation_key id) (key_of h),
        lookup-erase (reservation_key id) (key_of h) r.expires_at,
      );
      late = held.late;
    }

-- Dropping the key of a reservation keeps the other ones.
pub drop_keeps :
    (start : ℕ) (id : String) (r : Redis) (h : Hold)
    → reservation_key id ≢ key_of h
    → IsHeld start r h
    → IsHeld start (drop_key (reservation_key id) r) h
unfolding drop_key
drop_keeps start id r h apart held = record {
  stored = ground (
    arith,
    held.stored,
    eq_iff (reservation_key id) (key_of h),
    lookup-erase (reservation_key id) (key_of h) r.store,
  );
  deadline = held.deadline;
  expires = ground (
    arith,
    held.expires,
    eq_iff (reservation_key id) (key_of h),
    lookup-erase (reservation_key id) (key_of h) r.expires_at,
  );
  late = held.late;
}

pub All-map_keeps :
    (start : ℕ) (r r' : Redis) (hs : List Hold)
    → ((h : Hold) → IsHeld start r h → IsHeld start r' h)
    → AllHeld start r hs
    → AllHeld start r' hs
All-map_keeps start r r' [] keep held = tt
All-map_keeps start r r' (h ∷ hs) keep held =
    (keep h held.0, All-map_keeps start r r' hs keep held.1)

pub All-apart_keeps :
    (start : ℕ) (r r' : Redis) (g : Hold) (hs : List Hold)
    → ((h : Hold) → key_of g ≢ key_of h → IsHeld start r h → IsHeld start r' h)
    → Apart g hs
    → AllHeld start r hs
    → AllHeld start r' hs
All-apart_keeps start r r' g [] keep apart held = tt
All-apart_keeps start r r' g (h ∷ hs) keep apart held =
    (keep h apart.0 held.0, All-apart_keeps start r r' g hs keep apart.1 held.1)

-- The stock count of a key after the writes of a reservation and of a release.
pub level-hold :
    (now : ℕ) (a b a' b' id : String) (q : ℤ) (r : Redis)
    → level (stock_key a' b') (hold now (stock_key a b) (reservation_key id) q 900 r) ≡ (
        if stock_key a b == stock_key a' b'
        then level (stock_key a b) r -ℤ q
        else level (stock_key a' b') r)
unfolding hold
level-hold now a b a' b' id q r =
    let stock : stock_key a' b' ≢ reservation_key id = stock_key-ne a' b' id in
    ground (
      arith,
      eq_iff (reservation_key id) (stock_key a' b'),
      eq_iff (stock_key a b) (stock_key a' b'),
      lookup-insert (reservation_key id) (stock_key a' b') q
          (insert (stock_key a b) (level (stock_key a b) r -ℤ q) r.store),
      lookup-insert (stock_key a b) (stock_key a' b') (level (stock_key a b) r -ℤ q) r.store,
    )

pub level-give_back :
    (a b a' b' id : String) (q : ℤ) (r : Redis)
    → level (stock_key a' b') (give_back (stock_key a b) (reservation_key id) q r) ≡ (
        if stock_key a b == stock_key a' b'
        then level (stock_key a b) r +ℤ q
        else level (stock_key a' b') r)
unfolding give_back
level-give_back a b a' b' id q r =
    let stock : stock_key a' b' ≢ reservation_key id = stock_key-ne a' b' id in
    ground (
      arith,
      eq_iff (reservation_key id) (stock_key a' b'),
      eq_iff (stock_key a b) (stock_key a' b'),
      lookup-insert (stock_key a b) (stock_key a' b') (level (stock_key a b) r +ℤ q)
          (erase (reservation_key id) r.store),
      lookup-erase (reservation_key id) (stock_key a' b') r.store,
    )

pub level-drop :
    (a' b' id : String) (r : Redis)
    → level (stock_key a' b') (drop_key (reservation_key id) r) ≡ level (stock_key a' b') r
unfolding drop_key
level-drop a' b' id r =
    let stock : stock_key a' b' ≢ reservation_key id = stock_key-ne a' b' id in
    ground (
      arith,
      eq_iff (reservation_key id) (stock_key a' b'),
      lookup-erase (reservation_key id) (stock_key a' b') r.store,
    )

-- A new reservation is held.
pub IsHeld-hold :
    (start now : ℕ) (a b : String) (h : Hold) (r : Redis)
    → start ≤ now
    → IsHeld start (hold now (stock_key a b) (key_of h) h.qty 900 r) h
unfolding hold
IsHeld-hold start now a b h r late = record {
  stored = ground (
    arith,
    eq_iff (key_of h) (key_of h),
    lookup-insert (key_of h) (key_of h) h.qty
        (insert (stock_key a b) (level (stock_key a b) r -ℤ h.qty) r.store),
  );
  deadline = now + 900 * 1000;
  expires = ground (
    arith,
    eq_iff (key_of h) (key_of h),
    lookup-insert (key_of h) (key_of h) (now + 900 * 1000) r.expires_at,
  );
  late = omega arith;
}

-- No write of a reservation, a release or a commit gives a stock key an expiry.
module _ (a b a' b' id : String) (q : ℤ) (r : Redis) (h : IsPersistent (stock_key a' b') r) where
  pub hold-IsPersistent :
      (now : ℕ)
      → IsPersistent (stock_key a' b') (hold now (stock_key a b) (reservation_key id) q 900 r)
  unfolding hold
  hold-IsPersistent now =
      let stock : stock_key a' b' ≢ reservation_key id = stock_key-ne a' b' id in
      ground (
        arith,
        eq_iff (reservation_key id) (stock_key a' b'),
        lookup-insert (reservation_key id) (stock_key a' b') (now + 900 * 1000) r.expires_at,
      )

  pub give_back-IsPersistent :
      IsPersistent (stock_key a' b') (give_back (stock_key a b) (reservation_key id) q r)
  unfolding give_back
  give_back-IsPersistent =
      ground (arith, lookup-erase (reservation_key id) (stock_key a' b') r.expires_at)

module _ (a' b' id : String) (r : Redis) (h : IsPersistent (stock_key a' b') r) where
  pub drop-IsPersistent : IsPersistent (stock_key a' b') (drop_key (reservation_key id) r)
  unfolding drop_key
  drop-IsPersistent =
      ground (arith, lookup-erase (reservation_key id) (stock_key a' b') r.expires_at)

-- An id that is not in use stays so, but for the id of a new reservation.
module _ (a b id id' : String) (q : ℤ) (r : Redis) where
  abbrev pub Unused : Redis → Type 0
  Unused r' = lookup (reservation_key id') r'.store ≡ none

  pub hold-Unused :
      (now : ℕ)
      → id ≢ id'
      → Unused r
      → Unused (hold now (stock_key a b) (reservation_key id) q 900 r)
  unfolding hold
  hold-Unused now ne h =
      let apart : reservation_key id ≢ reservation_key id' =
        λ e. ne (reservation_key-injective id id' e) in
      let stock : stock_key a b ≢ reservation_key id' = stock_key-ne a b id' in
      ground (
        arith,
        eq_iff (reservation_key id) (reservation_key id'),
        eq_iff (stock_key a b) (reservation_key id'),
        lookup-insert (reservation_key id) (reservation_key id') q
            (insert (stock_key a b) (level (stock_key a b) r -ℤ q) r.store),
        lookup-insert (stock_key a b) (reservation_key id') (level (stock_key a b) r -ℤ q) r.store,
      )

  pub give_back-Unused : Unused r → Unused (give_back (stock_key a b) (reservation_key id) q r)
  unfolding give_back
  give_back-Unused h =
      let stock : stock_key a b ≢ reservation_key id' = stock_key-ne a b id' in
      ground (
        arith,
        eq_iff (stock_key a b) (reservation_key id'),
        lookup-insert (stock_key a b) (reservation_key id') (level (stock_key a b) r +ℤ q)
            (erase (reservation_key id) r.store),
        lookup-erase (reservation_key id) (reservation_key id') r.store,
      )

module _ (id id' : String) (r : Redis) where
  pub drop-Unused :
      lookup (reservation_key id') r.store ≡ none
      → lookup (reservation_key id') (drop_key (reservation_key id) r).store ≡ none
  unfolding drop_key
  drop-Unused h = ground (arith, lookup-erase (reservation_key id) (reservation_key id') r.store)
