-- ===== src/Crash/Tests.antt =====
-- The script, and the process after it, at a concrete state.
use supply_chain_mangement_s.Common.{◌≡◌, refl, false, pos, none, some, [], arith, ℤ, ◌+ℤ◌, String}
use supply_chain_mangement_s.Dict.{lookup, values}
use supply_chain_mangement_s.Exec.{ok}
use supply_chain_mangement_s.Exec.Returns.{Returns}
use supply_chain_mangement_s.Orders.{non_terminal}
use supply_chain_mangement_s.Keys.{stock_key}
use supply_chain_mangement_s.Redis.Laws.{level}
use supply_chain_mangement_s.World.{World}
use supply_chain_mangement_s.Inventory.Books.{Books, held_qty}
use supply_chain_mangement_s.Sample.{stocked, unary, world, world-IsReady, env-IsWindow}
use supply_chain_mangement_s.Server
use supply_chain_mangement_s.Crash.{exited, killed, crash_mid_saga}
use supply_chain_mangement_s.Crash.Recovered.{Recovered, crash-Recovered}

abbrev no_orders : World
no_orders = record world { store = [] }

-- All that is in stock, with nothing reserved.
abbrev in_stock : String → ℤ
in_stock k = level k stocked +ℤ held_qty k []

no_arguments : (crash_mid_saga none (some "wh-1") (pos 3) no_orders).0 ≡ ok (exited 2)
unfolding crash_mid_saga
no_arguments = refl

-- A quantity that no column of the order's lines takes.
not_created : (crash_mid_saga (some "SKU-LAPTOP") (some "wh-1") (pos 0) no_orders).0 ≡ ok (exited 1)
unfolding crash_mid_saga lookup
not_created = refl

too_many :
    (crash_mid_saga (some "SKU-LAPTOP") (some "wh-1") (pos 2_147_483_648) no_orders).0
    ≡ ok (exited 1)
unfolding crash_mid_saga lookup
too_many = refl

books : Books 43200000 in_stock [] no_orders
books = record {
  persistent = world-IsReady.persistent;
  fresh = world-IsReady.fresh;
  held = tt;
  distinct = tt;
  balance = λ a b. refl;
}

crash-Recovered_example :
    Returns
      (crash_mid_saga (some "SKU-LAPTOP") (some "wh-1") (pos 3))
      (λ exit w'.
        (exit ≡ killed (unary 0)) × Returns (Server.start false) (Recovered (unary 0) in_stock) w')
      no_orders
unfolding lookup non_terminal values stock_key
crash-Recovered_example =
    crash-Recovered 43200000 in_stock "SKU-LAPTOP" "wh-1" (pos 3) no_orders env-IsWindow books refl
      refl refl refl (omega arith) (omega arith) (omega arith)
