-- ===== src/Redis/Tests.antt =====
-- The scripts at concrete stores.
use supply_chain_mangement_s.Common.{
  ℤ, pos, ◌-ℤ◌, ◌≤ℤ◌, String, ◌≡◌, ◌≢◌, eq_iff, refl, some, List, [], ◌∷◌, arith, length,
}
use Prim.Native.Nat.{min}
use supply_chain_mangement_s.Dict.{lookup}
use supply_chain_mangement_s.Exec.{ok}
use supply_chain_mangement_s.Redis.{
  Redis, Mode, ok_reserved, already_resolved, eval_reserve, eval_release,
}
use supply_chain_mangement_s.Redis.Laws.{level}
use supply_chain_mangement_s.Redis.NoOversell.{
  Request, serve, sold, accepted, serve-no_oversell, accepted-units,
}
use supply_chain_mangement_s.Redis.Resolve.{eval_release-idempotent, release_after_deadline}

abbrev stock : String
stock = "stock:wh-1:SKU-A"

abbrev three_left : Redis
three_left = record { store = (stock, pos 3) ∷ []; expires_at = [] }

abbrev ask : String → ℤ → Request
ask key qty = record { now = 1000; resv_key = key; qty = qty; ttl = 900 }

abbrev mixed : List Request
mixed = ask "resv:a" (pos 2) ∷ ask "resv:b" (pos 2) ∷ ask "resv:c" (pos 1) ∷ []

abbrev units : List Request
units =
    ask "resv:a" (pos 1) ∷ ask "resv:b" (pos 1) ∷ ask "resv:c" (pos 1) ∷ ask "resv:d" (pos 1) ∷ []

apart_a : stock ≢ "resv:a"
apart_a e = ground (arith, (eq_iff stock "resv:a").1 e)

apart_b : stock ≢ "resv:b"
apart_b e = ground (arith, (eq_iff stock "resv:b").1 e)

apart_c : stock ≢ "resv:c"
apart_c e = ground (arith, (eq_iff stock "resv:c").1 e)

apart_d : stock ≢ "resv:d"
apart_d e = ground (arith, (eq_iff stock "resv:d").1 e)

serve-no_oversell_example :
    (level stock (serve stock mixed three_left)
      ≡ level stock three_left -ℤ sold stock mixed three_left)
    × (pos 0 ≤ℤ level stock (serve stock mixed three_left))
unfolding lookup
serve-no_oversell_example =
    serve-no_oversell stock mixed three_left (apart_a, (apart_b, (apart_c, tt))) refl (omega arith)

accepted-units_example : accepted stock units three_left ≡ min 3 (length units)
accepted-units_example =
    accepted-units stock 3 units three_left (apart_a, (apart_b, (apart_c, (apart_d, tt))))
      (refl, (refl, (refl, (refl, tt)))) (unfold lookup in refl) (unfold lookup in refl)

abbrev reserved : Redis
reserved = (eval_reserve 1000 stock "resv:a" (pos 2) 900 three_left).1

eval_release-idempotent_example :
    let r1 = (eval_release 2000 stock "resv:a" Mode.release reserved).1 in
    ((eval_release 3000 stock "resv:a" Mode.commit r1).0 ≡ ok (already_resolved, pos 0))
    × ((j : String)
        → lookup j (eval_release 3000 stock "resv:a" Mode.commit r1).1.store ≡ lookup j r1.store)
eval_release-idempotent_example =
    eval_release-idempotent 2000 3000 stock "resv:a" Mode.release Mode.commit reserved apart_a

release_after_deadline_example :
    ((eval_reserve 1000 stock "resv:a" (pos 2) 900 three_left).0 ≡ ok (ok_reserved, pos 3 -ℤ pos 2))
    × ((eval_release 901000 stock "resv:a" Mode.release reserved).0 ≡ ok (already_resolved, pos 0))
    × (lookup stock (eval_release 901000 stock "resv:a" Mode.release reserved).1.store
        ≡ some (pos 3 -ℤ pos 2))
release_after_deadline_example =
    release_after_deadline 1000 901000 900 stock "resv:a" (pos 2) (pos 3) three_left apart_a
      (unfold lookup in refl) (unfold lookup in refl) (omega arith) (omega arith) (omega arith)
