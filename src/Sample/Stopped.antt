-- ===== src/Sample/Stopped.antt =====
-- A process that was stopped after the payment of an order, with the books of what it holds.
use supply_chain_mangement_s.Common.{
  ℕ, ◌+◌, ◌≤◌, ℤ, pos, ◌+ℤ◌, String, ◌≢◌, refl, false, some, List, [], ◌∷◌, arith, eq_iff,
}
use supply_chain_mangement_s.Dict.{lookup}
use supply_chain_mangement_s.Types.{OrderStatus, Order, Detail, Reservation}
use supply_chain_mangement_s.Keys.{
  stock_key, reservation_key, stock_key-ne, reservation_key-injective,
}
use supply_chain_mangement_s.Redis.{Redis}
use supply_chain_mangement_s.Redis.Laws.{level}
use supply_chain_mangement_s.World.{World}
use supply_chain_mangement_s.Inventory.Books.{Hold, Books, held_qty}
use supply_chain_mangement_s.Sample.{unary, unary-injective, laptops, order, world}

abbrev pub held : Reservation
held = record { warehouse_id = "wh-1"; sku = "SKU-LAPTOP"; reservation_id = unary 1 }

abbrev pub one_hold : Hold
one_hold = record { res = held; qty = pos 2 }

abbrev pub holds : List Hold
holds = one_hold ∷ []

abbrev pub charged_order : Order
charged_order = record order {
  status = OrderStatus.payment_charged;
  history =
      record {
        type = "order.inventory_reserved";
        at = 0;
        detail = some (Detail.reservations (held ∷ []));
      }
      ∷ record { type = "order.payment_charged"; at = 0; detail = some (Detail.payment "pay_o1") }
      ∷ [];
}

abbrev pub redis : Redis
redis = record {
  store = (reservation_key (unary 1), pos 2) ∷ (laptops, pos 3) ∷ [];
  expires_at = (reservation_key (unary 1), 43200000 + 900000) ∷ [];
}

abbrev pub charged_world : World
charged_world = record world {
  redis = redis;
  payments = record { charges = ("o1", "pay_o1") ∷ []; fail_for = λ id. false };
  store = ("o1", charged_order) ∷ [];
  drawn = 2;
}

-- Five laptops in all, of which the order holds two.
abbrev pub five : String → ℤ
five k = level k redis +ℤ held_qty k holds

reservation-ne : (n : ℕ) → 2 ≤ n → reservation_key (unary 1) ≢ reservation_key (unary n)
reservation-ne n h e =
    ground (arith, unary-injective 1 n (reservation_key-injective (unary 1) (unary n) e))

pub books : Books 43200000 five holds charged_world
unfolding lookup reservation_key
books = record {
  persistent = λ a b.
      let apart = stock_key-ne a b (unary 1) in
      ground (arith, eq_iff (reservation_key (unary 1)) (stock_key a b));
  fresh = λ n h.
      let ne = reservation-ne n h in
      let apart = stock_key-ne "wh-1" "SKU-LAPTOP" (unary n) in
      ground (
        arith,
        eq_iff (reservation_key (unary 1)) (reservation_key (unary n)),
        eq_iff laptops (reservation_key (unary n)),
      );
  held = (
    record { stored = refl; deadline = 43200000 + 900000; expires = refl; late = omega arith },
    tt,
  );
  distinct = (tt, tt);
  balance = λ a b. refl;
}
