-- ===== src/Inventory/Steps.antt =====
-- Each call of the inventory service keeps the books: an accepted reservation adds a hold, a
-- release or a commit takes one off, a refusal changes nothing.
use supply_chain_mangement_s.Common.{
  ℕ, suc, ◌+◌, ◌≤◌, ℤ, pos, ◌+ℤ◌, ◌-ℤ◌, ◌<ℤ◌, ◌≤ℤ◌, String, ◌≡◌, refl, ap, ◌⊎◌, inl, inr, none,
  List, [], ◌∷◌, ◌++◌, arith, ◌==◌, eq_iff, All-append, if◌then◌else◌, int_laws,
}
use supply_chain_mangement_s.Dict.{lookup}
use supply_chain_mangement_s.Exec.Returns.{Returns}
use supply_chain_mangement_s.Types.{ReservationResult, accepted, rejected}
use supply_chain_mangement_s.Keys.{stock_key, reservation_key, stock_key-ne}
use supply_chain_mangement_s.Redis.{released, committed, drop_key, is_expired}
use supply_chain_mangement_s.Redis.Laws.{
  level, hold, give_back, IsLiveHold, eval_release-live, eval_commit-live,
}
use supply_chain_mangement_s.World.{World}
use supply_chain_mangement_s.Inventory.{reserve, release, commit}
use supply_chain_mangement_s.Inventory.Outcome.{SameOutside, reserve-SameOutside, reserve-cases}
use supply_chain_mangement_s.Inventory.Books.{
  Hold, stock_of, key_of, held_qty, held_qty-append, IsWindow, IsHeld, AllHeld, Distinct-append,
  Books,
}
use supply_chain_mangement_s.Inventory.Writes.{
  hold_keeps, give_back_keeps, drop_keeps, All-map_keeps, All-apart_keeps, level-hold,
  level-give_back, level-drop, IsHeld-hold, hold-IsPersistent, give_back-IsPersistent,
  drop-IsPersistent, hold-Unused, give_back-Unused, drop-Unused,
}

abbrev pub new_hold : String → String → String → ℤ → Hold
new_hold a b id q = record {
  res = record { warehouse_id = a; sku = b; reservation_id = id };
  qty = q;
}

module _ (start : ℕ) (total : String → ℤ) where
  abbrev pub AfterReserve :
      List Hold → String → String → ℤ → World → ReservationResult → World → Type 0
  AfterReserve hs a b q w (accepted id left) w' =
      Books start total (hs ++ new_hold a b id q ∷ []) w' × SameOutside w w' × (pos 0 <ℤ q)
  AfterReserve hs a b q w (rejected why left) w' =
      Books start total hs w'
      × SameOutside w w'
      × ((q ≤ℤ pos 0) ⊎ (level (stock_key a b) w.redis <ℤ q))

  -- A refused reservation keeps the books as they are.
  pub refused-Books :
      (hs : List Hold) (w w' : World)
      → Books start total hs w
      → w'.redis ≡ w.redis
      → w'.env ≡ w.env
      → w.drawn ≤ w'.drawn
      → Books start total hs w'
  refused-Books hs w w' books r e d = record {
    persistent = λ a b. rw r (books.persistent a b);
    fresh = λ n h. rw (r, e) (books.fresh n (omega arith));
    held = rw r books.held;
    distinct = books.distinct;
    balance = λ a b. rw r (books.balance a b);
  }

  module _ (hs : List Hold) (a b : String) (q : ℤ) (w w' : World) (now : ℕ)
      (window : IsWindow start w.env) (books : Books start total hs w)
      (r : w'.redis
        ≡ hold now (stock_key a b) (reservation_key (w.env.uuids w.drawn)) q 900 w.redis)
      (e : w'.env ≡ w.env) (d : w'.drawn ≡ suc w.drawn) (late : start ≤ now) where
    abbrev new_id : String
    new_id = w.env.uuids w.drawn

    abbrev added : Hold
    added = new_hold a b new_id q

    accepted-balance :
        (a' b' : String)
        → total (stock_key a' b')
          ≡ level (stock_key a' b') w'.redis +ℤ held_qty (stock_key a' b') (hs ++ added ∷ [])
    accepted-balance a' b' =
        rw
          (r, level-hold now a b a' b' new_id q w.redis, held_qty-append (stock_key a' b') hs added)
          (grind (int_laws, books.balance a' b', eq_iff (stock_key a b) (stock_key a' b')))

    accepted-fresh :
        (n : ℕ) → w'.drawn ≤ n → lookup (reservation_key (w'.env.uuids n)) w'.redis.store ≡ none
    accepted-fresh n h =
        rw (r, e)
          (hold-Unused a b new_id (w.env.uuids n) q w.redis now
            (λ same. absurd (omega (arith, window.unique w.drawn n same)))
            (books.fresh n (omega arith)))

    accepted-held : AllHeld start w'.redis (hs ++ added ∷ [])
    accepted-held = rw r (
        All-append (IsHeld start _) hs (added ∷ [])
          (All-map_keeps start w.redis _ hs
            (λ h. hold_keeps start now a b new_id q w.redis h (books.fresh w.drawn (omega arith)))
            books.held)
          (IsHeld-hold start now a b added w.redis late, tt))

    accepted-Books : Books start total (hs ++ added ∷ []) w'
    accepted-Books = record {
      persistent =
          λ a' b'. rw r (hold-IsPersistent a b a' b' new_id q w.redis (books.persistent a' b') now);
      fresh = accepted-fresh;
      held = accepted-held;
      distinct =
          Distinct-append start w.redis added (books.fresh w.drawn (omega arith)) hs books.held
            books.distinct;
      balance = accepted-balance;
    }

  -- In a state whose books hold the reservations `hs`, with the clock in the window, `reserve` returns
  -- without an error and touches nothing but Redis, the known stock, the metrics, the clock and the
  -- ids. Accepted, the quantity is positive and the books hold the new reservation too; rejected,
  -- they hold `hs` as before, and the quantity is not positive or more than the stock.
  pub reserve-Books :
      (hs : List Hold) (a b : String) (q : ℤ) (w : World)
      → IsWindow start w.env
      → Books start total hs w
      → Returns (reserve a b q) (AfterReserve hs a b q w) w
  reserve-Books hs a b q w window books =
      let outside = reserve-SameOutside a b q w (books.persistent a b) in
      elim (reserve-cases a b q w (books.persistent a b)) [
        | inl (why, left, e, r, d, short) ↦ (
          rejected why left,
          (reserve a b q w).1,
          ap (λ v. (v, (reserve a b q w).1)) e,
          (refused-Books hs w _ books r outside.env d, outside, short),
        )
        | inr (e, r, d, positive, enough) ↦ (
          accepted (w.env.uuids w.drawn) _,
          (reserve a b q w).1,
          ap (λ v. (v, (reserve a b q w).1)) e,
          (
            accepted-Books hs a b q w _ _ window books r outside.env d (window.after (w.reads + 1)),
            outside,
            positive,
          ),
        )
      ]

  -- In the window a held reservation is live.
  IsLiveHold-of_IsHeld :
      (h : Hold) (w : World) (n : ℕ)
      → IsWindow start w.env
      → IsHeld start w.redis h
      → IsLiveHold (w.env.clock n) (key_of h) h.qty w.redis
  unfolding is_expired
  IsLiveHold-of_IsHeld h w n window held = record {
    holds = held.stored;
    live = ground (arith, held.expires, held.late, window.before n);
  }

  module _ (h : Hold) (hs : List Hold) (w w' : World) (books : Books start total (h ∷ hs) w)
      (r : w'.redis ≡ give_back (stock_of h) (key_of h) h.qty w.redis) (e : w'.env ≡ w.env)
      (d : w'.drawn ≡ w.drawn) where
    released-Books : Books start total hs w'
    unfolding held_qty
    released-Books =
        let id = h.res.reservation_id in
        let a = h.res.warehouse_id in
        let b = h.res.sku in
        record {
          persistent = λ a' b'.
              rw r (give_back-IsPersistent a b a' b' id h.qty w.redis (books.persistent a' b'));
          fresh = λ n le.
              rw (r, e)
                (give_back-Unused a b id (w.env.uuids n) h.qty w.redis
                  (books.fresh n (omega arith)));
          held = rw r (
              All-apart_keeps start w.redis _ h hs
                (λ g. give_back_keeps start a b id h.qty w.redis g) books.distinct.0 books.held.1);
          distinct = books.distinct.1;
          balance = λ a' b'.
              rw (r, level-give_back a b a' b' id h.qty w.redis)
                (grind (int_laws, books.balance a' b', eq_iff (stock_of h) (stock_key a' b')));
        }

  -- In a state whose books hold a reservation and `hs`, with the clock in the window, its `release`
  -- replies RELEASED, leaves the books with `hs` at the same total, so that its quantity is back in
  -- stock, and touches nothing but Redis and the clock.
  pub release-Books :
      (h : Hold) (hs : List Hold) (w : World)
      → IsWindow start w.env
      → Books start total (h ∷ hs) w
      → Returns
          (release h.res.warehouse_id h.res.sku h.res.reservation_id)
          (λ status w'. (status ≡ released) × Books start total hs w' × SameOutside w w')
          w
  unfolding release
  release-Books h hs w window books =
      let run =
        eval_release-live (w.env.clock w.reads) (stock_of h) (key_of h) h.qty w.redis
          (stock_key-ne h.res.warehouse_id h.res.sku h.res.reservation_id)
          (books.persistent h.res.warehouse_id h.res.sku)
          (IsLiveHold-of_IsHeld h w w.reads window books.held.0) in
      (
        released,
        record w { redis = give_back (stock_of h) (key_of h) h.qty w.redis; reads = w.reads + 1 },
        ground (arith, run),
        (refl, released-Books h hs w _ books refl refl refl, ground arith),
      )

-- The stock with the quantity of one hold gone for good.
abbrev pub spent : Hold → (String → ℤ) → String → ℤ
spent h total k = total k -ℤ (if stock_of h == k then h.qty else pos 0)

module _ (start : ℕ) (total : String → ℤ) where
  module _ (h : Hold) (hs : List Hold) (w w' : World) (books : Books start total (h ∷ hs) w)
      (r : w'.redis ≡ drop_key (key_of h) w.redis) (e : w'.env ≡ w.env)
      (d : w'.drawn ≡ w.drawn) where
    committed-Books : Books start (spent h total) hs w'
    unfolding held_qty
    committed-Books =
        let id = h.res.reservation_id in
        record {
          persistent = λ a' b'. rw r (drop-IsPersistent a' b' id w.redis (books.persistent a' b'));
          fresh = λ n le.
              rw (r, e) (drop-Unused id (w.env.uuids n) w.redis (books.fresh n (omega arith)));
          held = rw r (
              All-apart_keeps start w.redis _ h hs (λ g. drop_keeps start id w.redis g)
                books.distinct.0 books.held.1);
          distinct = books.distinct.1;
          balance = λ a' b'.
              rw (r, level-drop a' b' id w.redis)
                (grind (int_laws, books.balance a' b', eq_iff (stock_of h) (stock_key a' b')));
        }

  -- In a state whose books hold a reservation and `hs`, with the clock in the window, its `commit`
  -- replies COMMITTED, leaves the books with `hs` at a total lower by its quantity, so that the stock
  -- count stays, and touches nothing but Redis and the clock.
  pub commit-Books :
      (h : Hold) (hs : List Hold) (w : World)
      → IsWindow start w.env
      → Books start total (h ∷ hs) w
      → Returns
          (commit h.res.warehouse_id h.res.sku h.res.reservation_id)
          (λ status w'. (status ≡ committed) × Books start (spent h total) hs w' × SameOutside w w')
          w
  unfolding commit
  commit-Books h hs w window books =
      let run =
        eval_commit-live (w.env.clock w.reads) (stock_of h) (key_of h) h.qty w.redis
          (IsLiveHold-of_IsHeld start total h w w.reads window books.held.0) in
      (
        committed,
        record w { redis = drop_key (key_of h) w.redis; reads = w.reads + 1 },
        ground (arith, run),
        (refl, committed-Books h hs w _ books refl refl refl, ground arith),
      )
