-- ===== src/Crash/Recovered.antt =====
-- The process that starts after the crash gives the stock back and cancels the order.
use supply_chain_mangement_s.Common.{
  ℕ, ◌+◌, ℤ, pos, ◌≤ℤ◌, ◌<ℤ◌, String, ◌≡◌, ◌∙◌, refl, ap, true, false, not, Bool, none, some, List,
  [], ◌∷◌, ◌++◌, keep, length, arith, eq_refl, inl, inr,
}
use supply_chain_mangement_s.Dict.{lookup, contains, insert, values, lookup-insert}
use supply_chain_mangement_s.Exec.{ok, pure, continue, ◌>>◌}
use supply_chain_mangement_s.Exec.Returns.{Returns, Returns-bind}
use supply_chain_mangement_s.Text.{truthy}
use supply_chain_mangement_s.Types.{OrderStatus, Order, ReservationResult, accepted, rejected}
use supply_chain_mangement_s.Keys.{stock_key}
use supply_chain_mangement_s.Redis.Laws.{level}
use supply_chain_mangement_s.Orders
use supply_chain_mangement_s.Orders.{OrderStore, is_terminal_status, updated}
use supply_chain_mangement_s.World.{World, now, random_uuid}
use supply_chain_mangement_s.Inventory.{reserve}
use supply_chain_mangement_s.Inventory.Outcome.{SameOutside}
use supply_chain_mangement_s.Inventory.Books.{IsWindow, Books}
use supply_chain_mangement_s.Inventory.Steps.{new_hold, AfterReserve, refused-Books, reserve-Books}
use supply_chain_mangement_s.Saga.Frame.{event_types, Books-same}
use supply_chain_mangement_s.Recovery.{
  has_event, find_event, reservations_from_history, completed_steps, recover_each,
  recover_stuck_orders,
}
use supply_chain_mangement_s.Recovery.Rollback.{IsStuck, recover_stuck-RolledBack}
use supply_chain_mangement_s.Server
use supply_chain_mangement_s.Server.{build_services}
use supply_chain_mangement_s.Crash.{
  Exit, killed, chaos_order, reserved_event, can_create, create_stored, after_create,
  record_reservation, reserve_and_crash, crash_mid_saga,
}

-- What the next process makes of the order, and of the stock.
pub record Recovered (id : String) (total : String → ℤ) (swept : ℕ) (w : World) : Type 0 where
  pub one : swept ≡ 1
  pub order : Order
  pub stored : lookup id w.store ≡ some order
  pub cancelled : order.status ≡ OrderStatus.cancelled
  pub history :
      event_types order.history
      ≡ "order.inventory_reserved" ∷ "order.compensating" ∷ "order.cancelled" ∷ []
  pub stock : (a b : String) → level (stock_key a b) w.redis ≡ total (stock_key a b)

-- A new order at the end of the store, written twice.
values-new :
    (p : Order → Bool) (id : String) (first second : Order) (store : OrderStore)
    → lookup id store ≡ none
    → keep p (values (insert id second (insert id first store)))
      ≡ keep p (values store) ++ keep p (second ∷ [])
unfolding values insert lookup
values-new p id first second [] h = ground (arith, eq_refl id)
values-new p id first second ((key, o) ∷ store) h =
    ground (arith, h, values-new p id first second store)

module _ (start : ℕ) (total : String → ℤ) (sku warehouse_id : String) (qty : ℤ) (w : World) where
  abbrev id : String
  id = w.env.uuids w.drawn

  abbrev placed : Order
  placed = chaos_order id sku warehouse_id qty (w.env.clock w.reads)

  -- The state in which the script reserves.
  abbrev created : World
  created = record w {
    reads = w.reads + 1;
    drawn = w.drawn + 1;
    store = Orders.create placed w.store;
  }

  left : String → ℕ → Order
  left reservation_id at =
      updated OrderStatus.inventory_reserved (reserved_event sku warehouse_id reservation_id at) at
        placed

  -- The state in which the process is killed.
  abbrev crashed : String → World → World
  crashed reservation_id v =
      let at = v.env.clock v.reads in
      record v { reads = v.reads + 1; store = insert id (left reservation_id at) v.store }

  recorded :
      (reservation_id : String) (remaining : ℤ) (v : World)
      → SameOutside created v
      → record_reservation id sku warehouse_id (accepted reservation_id remaining) v
        ≡ (ok (killed id), crashed reservation_id v)
  unfolding record_reservation now left Orders.create Orders.update_status
  recorded reservation_id remaining v same =
      let found : lookup id v.store ≡ some placed =
        ap (lookup id) same.store ∙ lookup-insert id id placed w.store ∙ rw (eq_refl id) refl in
      rw (record_reservation, Orders.update_status, found) refl

  module _ (window : IsWindow start w.env) (absent : lookup id w.store ≡ none)
      (others_done : Orders.non_terminal w.store ≡ []) where
    stuck :
        (reservation_id : String) (v : World)
        → Books start total (new_hold warehouse_id sku reservation_id qty ∷ []) v
        → SameOutside created v
        → IsStuck start total
            (new_hold warehouse_id sku reservation_id qty ∷ [])
            (left reservation_id (v.env.clock v.reads))
            (build_services (crashed reservation_id v))
    unfolding build_services left updated is_terminal_status reservations_from_history find_event
        completed_steps has_event lookup
    stuck reservation_id v books same = record {
      window = rw same.env window;
      books = Books-same v (build_services (crashed reservation_id v)) books refl refl refl;
      stored =
          lookup-insert id id (left reservation_id (v.env.clock v.reads)) v.store
          ∙ rw (eq_refl id) refl;
      unfinished = refl;
      reserved = refl;
      paid = λ h. refl;
      shipped = λ h. refl;
    }

    only_one :
        (reservation_id : String) (v : World)
        → SameOutside created v
        → Orders.non_terminal (crashed reservation_id v).store
          ≡ left reservation_id (v.env.clock v.reads) ∷ []
    unfolding Orders.non_terminal Orders.create left updated is_terminal_status
    only_one reservation_id v same =
        ap
          (λ s.
            keep (λ (o : Order). not (is_terminal_status o.status))
              (values (insert id (left reservation_id (v.env.clock v.reads)) s)))
          same.store
        ∙ values-new (λ o. not (is_terminal_status o.status)) id placed
            (left reservation_id (v.env.clock v.reads)) w.store absent
        ∙ ap (λ found. found ++ left reservation_id (v.env.clock v.reads) ∷ []) others_done

    next_process :
        (reservation_id : String) (v : World)
        → Books start total (new_hold warehouse_id sku reservation_id qty ∷ []) v
        → SameOutside created v
        → Returns (Server.start false) (Recovered id total) (crashed reservation_id v)
    unfolding Server.start recover_stuck_orders recover_each left updated
    next_process reservation_id v books same =
        let u = build_services (crashed reservation_id v) in
        let mine = left reservation_id (v.env.clock v.reads) in
        let (o, w', e, rolled) =
          recover_stuck-RolledBack start total (new_hold warehouse_id sku reservation_id qty ∷ [])
            mine u (stuck reservation_id v books same) false in
        let found : Orders.non_terminal u.store ≡ mine ∷ [] =
          unfold build_services in only_one reservation_id v same in
        let sweep = λ (found : List Order). (recover_each false found >> pure (length found)) u in
        (
          1,
          w',
          ap sweep found
              ∙ ap
                  (λ out.
                    continue (continue out.0 (λ _. recover_each false []) out.1).0 (λ _. pure 1)
                      (continue out.0 (λ _. recover_each false []) out.1).1)
                  e,
          record {
            one = refl;
            order = o;
            stored = rolled.stored;
            cancelled = rolled.status;
            history = rolled.history;
            stock = rolled.stock;
          },
        )

    -- The end of the script from the reservation on, and the process after it.
    abbrev Ended : Exit → World → Type 0
    Ended exit w' = (exit ≡ killed id) × Returns (Server.start false) (Recovered id total) w'

    module _ (positive : pos 0 <ℤ qty)
        (enough : qty ≤ℤ level (stock_key warehouse_id sku) w.redis) where
      after_reserve :
          (result : ReservationResult) (v : World)
          → AfterReserve start total [] warehouse_id sku qty created result v
          → Returns (record_reservation id sku warehouse_id result) Ended v
      after_reserve (rejected why remaining) v (books, same, inl none_asked) = absurd (omega arith)
      after_reserve (rejected why remaining) v (books, same, inr short) = absurd (omega arith)
      after_reserve (accepted reservation_id remaining) v (books, same, more) = (
        killed id,
        crashed reservation_id v,
        recorded reservation_id remaining v same,
        (refl, next_process reservation_id v books same),
      )

      Books-created : Books start total [] w → Books start total [] created
      Books-created books = refused-Books start total [] w created books refl refl (omega arith)

-- Postgres takes the order of the script.
creatable :
    (sku warehouse_id : String) (qty : ℤ) (w : World)
    → lookup (w.env.uuids w.drawn) w.store ≡ none
    → pos 0 <ℤ qty
    → qty ≤ℤ pos 2_147_483_647
    → can_create
        (chaos_order (w.env.uuids w.drawn) sku warehouse_id qty (w.env.clock w.reads))
        w.store
      ≡ true
unfolding can_create contains
creatable sku warehouse_id qty w absent positive fits = ground (arith, absent, positive, fits)

-- Killed between the reservation and the payment, the script has printed the order's id, if the id is
-- new and the stock covers a positive quantity that fits a column of type INTEGER; then the next process, where no other unfinished order
-- is stored and the clock is within the reservation's life, sweeps exactly this order: it ends
-- CANCELLED, its history is the reservation and the two events of the rollback, and every stock count
-- is what it is with nothing reserved.
pub crash-Recovered :
    (start : ℕ) (total : String → ℤ) (sku warehouse_id : String) (qty : ℤ) (w : World)
    → IsWindow start w.env
    → Books start total [] w
    → lookup (w.env.uuids w.drawn) w.store ≡ none
    → Orders.non_terminal w.store ≡ []
    → truthy (some sku) ≡ true
    → truthy (some warehouse_id) ≡ true
    → pos 0 <ℤ qty
    → qty ≤ℤ pos 2_147_483_647
    → qty ≤ℤ level (stock_key warehouse_id sku) w.redis
    → Returns
        (crash_mid_saga (some sku) (some warehouse_id) qty)
        (λ exit w'.
          (exit ≡ killed (w.env.uuids w.drawn))
          × Returns (Server.start false) (Recovered (w.env.uuids w.drawn) total) w')
        w
unfolding crash_mid_saga reserve_and_crash now random_uuid create_stored after_create
crash-Recovered start total sku warehouse_id qty w window books absent others_done s h positive fits
      enough =
    rw (s, h, creatable sku warehouse_id qty w absent positive fits)
      (Returns-bind (reserve warehouse_id sku qty)
        (record_reservation (w.env.uuids w.drawn) sku warehouse_id)
        (created start total sku warehouse_id qty w)
        (reserve-Books start total [] warehouse_id sku qty
          (created start total sku warehouse_id qty w) window
          (Books-created start total sku warehouse_id qty w window absent others_done positive
            enough books))
        (after_reserve start total sku warehouse_id qty w window absent others_done positive
          enough))
