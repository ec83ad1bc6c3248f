-- ===== src/Recovery/Rollback.antt =====
-- `recoverStuck` from a state that a stopped process left behind.
use supply_chain_mangement_s.Common.{
  ℤ, ℕ, String, ◌≡◌, refl, sym, Bool, true, false, Option, none, some, List, [], ◌∷◌, ◌++◌,
  if◌then◌else◌, ◌∙◌, ap, append_assoc, int_laws,
}
use supply_chain_mangement_s.Dict.{lookup}
use supply_chain_mangement_s.Exec.Returns.{Returns, Returns-map, Returns-bind}
use supply_chain_mangement_s.Types.{OrderStatus, Order}
use supply_chain_mangement_s.Keys.{stock_key}
use supply_chain_mangement_s.Redis.Laws.{level}
use supply_chain_mangement_s.Orders.{is_terminal_status}
use supply_chain_mangement_s.World.{World}
use supply_chain_mangement_s.Inventory.Books.{Hold, IsWindow, Books, held_qty}
use supply_chain_mangement_s.Saga.{was, fail, compensate, must_get}
use supply_chain_mangement_s.Saga.Frame.{SameOthers, SameOthers-refl, event_types}
use supply_chain_mangement_s.Saga.Loops.{reservations_of}
use supply_chain_mangement_s.Saga.Steps.{At, transition-At, must_get-At}
use supply_chain_mangement_s.Saga.Unwind.{compensate-At}
use supply_chain_mangement_s.Recovery.{
  reservations_from_history, completed_steps, current_status, roll_back, recover_stuck,
}

-- The state left behind: the order is stored and not finished, its open reservations are those of
-- its history, and a charge or a shipment that exists is in its history.
pub record IsStuck (start : ℕ) (total : String → ℤ) (hs : List Hold) (order : Order) (w : World)
    : Type 0 where
  pub window : IsWindow start w.env
  pub books : Books start total hs w
  pub stored : lookup order.id w.store ≡ some order
  pub unfinished : is_terminal_status order.status ≡ false
  pub reserved : reservations_from_history order ≡ reservations_of hs
  pub paid : (completed_steps order).paid ≡ false → lookup order.id w.payments.charges ≡ none
  pub shipped :
      (completed_steps order).shipped ≡ false → lookup order.id w.shipping.shipments ≡ none

-- The state after recovery.
pub record RolledBack (total : String → ℤ) (order : Order) (w : World) (o : Order) (w' : World)
    : Type 0 where
  pub stored : lookup order.id w'.store ≡ some o
  pub status : o.status ≡ OrderStatus.cancelled
  pub history :
      event_types o.history
      ≡ event_types order.history ++ "order.compensating" ∷ "order.cancelled" ∷ []
  pub stock : (a b : String) → level (stock_key a b) w'.redis ≡ total (stock_key a b)
  pub charge : lookup order.id w'.payments.charges ≡ none
  pub shipment : lookup order.id w'.shipping.shipments ≡ none
  pub others : SameOthers order.id w w'

none_left :
    {o : Option String} (done : Bool)
    → (done ≡ false → o ≡ none)
    → (if done then none else o) ≡ none
none_left true h = refl
none_left false h = h refl

module _ (start : ℕ) (total : String → ℤ) (hs : List Hold) (order : Order) (w : World)
    (stuck : IsStuck start total hs order w) where
  stuck-At :
      At start order w order.status
        (event_types order.history)
        total
        hs
        (lookup order.id w.payments.charges)
        (lookup order.id w.shipping.shipments)
        w
  stuck-At = record {
    window = stuck.window;
    books = stuck.books;
    stands = record {
      order = order;
      found = stuck.stored;
      status = refl;
      types = refl;
      lines = refl;
      id = refl;
    };
    charge = refl;
    shipment = refl;
    others = SameOthers-refl order.id w;
    pay_fails = refl;
    ship_fails = refl;
  }

  abbrev pub Compensated : World → Type 0
  Compensated =
      At start order w OrderStatus.compensating
        (event_types order.history ++ "order.compensating" ∷ []) total []
        (if (completed_steps order).paid then none else lookup order.id w.payments.charges)
        (if (completed_steps order).shipped then none else lookup order.id w.shipping.shipments)

  pub compensate-stuck :
      Returns
        (compensate order.id (reservations_from_history order) (completed_steps order))
        (λ _. Compensated)
        w
  compensate-stuck =
      rw stuck.reserved (compensate-At start order w w stuck-At (completed_steps order))

  abbrev Ended : World → Type 0
  Ended =
      At start order w OrderStatus.cancelled
        ((event_types order.history ++ "order.compensating" ∷ []) ++ "order.cancelled" ∷ []) total
        [] (if (completed_steps order).paid then none else lookup order.id w.payments.charges)
        (if (completed_steps order).shipped then none else lookup order.id w.shipping.shipments)

  rolled :
      (o : Order) (w' : World)
      → Ended w'
      → lookup order.id w'.store ≡ some o
      → o.status ≡ OrderStatus.cancelled
      → RolledBack total order w o w'
  unfolding held_qty
  rolled o w' at found status =
      let same : at.stands.order ≡ o = cc (at.stands.found, found) in
      record {
        stored = found;
        status = status;
        history =
            ap (λ (x : Order). event_types x.history) (sym same)
            ∙ at.stands.types
            ∙ append_assoc (event_types order.history) _ _;
        stock = λ a b. grind (int_laws, at.books.balance a b);
        charge = at.charge ∙ none_left (completed_steps order).paid stuck.paid;
        shipment = at.shipment ∙ none_left (completed_steps order).shipped stuck.shipped;
        others = at.others;
      }

  -- Recovery of an order that a stopped process left unfinished returns without an error, if its
  -- history names its open reservations, still live, and every charge and shipment it has. The order
  -- ends CANCELLED with the two events of the rollback in its history, each stock count is what it
  -- is with nothing reserved, the order has no charge and no shipment, and no other order, its
  -- charge or its shipment is touched. This is so for both stores.
  pub recover_stuck-RolledBack :
      (aliased : Bool) → Returns (recover_stuck aliased order) (RolledBack total order w) w
  unfolding recover_stuck roll_back fail
  recover_stuck-RolledBack aliased = rw stuck.unfinished (
      Returns-bind (compensate order.id (reservations_from_history order) (completed_steps order)) _
        w compensate-stuck
        (λ _ w1 at.
          Returns-bind
            (fail order.id "RECOVERED_AFTER_RESTART" (was (current_status aliased order w1))) _ w1
            (transition-At start order w w1 at OrderStatus.cancelled "order.cancelled" _)
            (λ _ w2 at2.
              Returns-map (must_get order.id) w2 (must_get-At start order w w2 at2)
                (λ o w3 end. rolled o w3 end.0 end.1 end.2))))
