-- ===== src/Inventory/Tests.antt =====
-- The inventory service at a concrete state.
use supply_chain_mangement_s.Common.{pos, ◌≡◌, []}
use supply_chain_mangement_s.Exec.Returns.{Returns}
use supply_chain_mangement_s.Redis.{released, committed}
use supply_chain_mangement_s.Inventory.{reserve, release, commit}
use supply_chain_mangement_s.Inventory.Outcome.{SameOutside}
use supply_chain_mangement_s.Inventory.Books.{Books}
use supply_chain_mangement_s.Inventory.Steps.{
  AfterReserve, spent, reserve-Books, release-Books, commit-Books,
}
use supply_chain_mangement_s.Sample.{unary, env-IsWindow}
use supply_chain_mangement_s.Sample.Stopped.{holds, one_hold, charged_world, five, books}

reserve-Books_example :
    Returns
      (reserve "wh-1" "SKU-LAPTOP" (pos 3))
      (AfterReserve 43200000 five holds "wh-1" "SKU-LAPTOP" (pos 3) charged_world)
      charged_world
reserve-Books_example =
    reserve-Books 43200000 five holds "wh-1" "SKU-LAPTOP" (pos 3) charged_world env-IsWindow books

release-Books_example :
    Returns
      (release "wh-1" "SKU-LAPTOP" (unary 1))
      (λ status w'. (status ≡ released) × Books 43200000 five [] w' × SameOutside charged_world w')
      charged_world
release-Books_example = release-Books 43200000 five one_hold [] charged_world env-IsWindow books

commit-Books_example :
    Returns
      (commit "wh-1" "SKU-LAPTOP" (unary 1))
      (λ status w'.
        (status ≡ committed)
        × Books 43200000 (spent one_hold five) [] w'
        × SameOutside charged_world w')
      charged_world
commit-Books_example = commit-Books 43200000 five one_hold [] charged_world env-IsWindow books
