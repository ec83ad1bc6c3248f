-- ===== src/Api/Scoping.antt =====
-- Who may see an order that was posted, and who may write stock.
use supply_chain_mangement_s.Common.{
  ◌+◌, String, ◌≡◌, ◌∙◌, ◌⊎◌, Option-cases, refl, ap, Bool, true, false, Option, none, some, [],
  arith, eq_refl, inl, inr, if◌then◌else◌,
}
use supply_chain_mangement_s.Dict.{lookup-insert}
use supply_chain_mangement_s.Exec.{ok}
use supply_chain_mangement_s.Types.{Order, OrderStatus}
use supply_chain_mangement_s.Auth.Session.{Crypto, verify_session_token}
use supply_chain_mangement_s.Orders.{
  same_business, get, visible, in_scope, create, OrderStore, Scope, unscoped, owned_by,
}
use supply_chain_mangement_s.World.{World}
use supply_chain_mangement_s.Saga.{create_order}
use supply_chain_mangement_s.Api.{
  NewOrder, NewStock, respond, failure, one, post_order, get_order, put_inventory, found_or_missing,
}

get-create :
    (o : Order) (scope : Scope) (store : OrderStore)
    → get o.id scope (create o store) ≡ (if in_scope scope o then some o else none)
unfolding get create visible
get-create o scope store = ground (arith, lookup-insert o.id o.id o store, eq_refl o.id)

module _ (crypto : Crypto) (secret : String) where
  -- The business of a token when the process reads the clock next, if it is accepted.
  abbrev pub asker : Option String → World → Option String
  asker token w = verify_session_token crypto secret (w.env.clock w.reads) token

  shown :
      (b : Bool) (o : Order)
      → ok (found_or_missing crypto secret (if b then some o else none))
        ≡ ok (if b then respond 200 (one (some o)) else respond 404 (failure "NOT_FOUND"))
  shown true o = refl
  shown false o = refl

  -- The order that a post creates.
  abbrev posted : Option String → NewOrder → World → Order
  posted poster p w = record {
    id = w.env.uuids w.drawn;
    customer_id = p.customer_id;
    lines = p.lines;
    amount_cents = p.amount_cents;
    status = OrderStatus.created;
    history = [];
    created_at = w.env.clock (w.reads + 1);
    updated_at = w.env.clock (w.reads + 1 + 1);
    business_id = asker poster w;
  }

  -- A posted order is answered 202 with the order and its id. A later request for it, in the state
  -- after the post, is answered 200 with the order exactly if its token is of the same business as
  -- the token of the post, where no accepted token counts as one business of its own, and 404
  -- otherwise.
  pub post-get :
      (poster reader : Option String) (p : NewOrder) (w : World)
      → let (r, w1) = post_order crypto secret poster (some p) w in
        (o : Order) × (r ≡ ok (record { status = 202; body = one (some o); location = some o.id }))
        × ((get_order crypto secret reader o.id w1).0
            ≡ ok (
                if same_business (asker poster w) (asker reader w1)
                then respond 200 (one (some o))
                else respond 404 (failure "NOT_FOUND")))
  unfolding post_order get_order create_order in_scope
  post-get poster reader p w =
      let o = posted poster p w in
      let reader_id = asker reader (post_order crypto secret poster (some p) w).1 in
      (
        o,
        rw (get-create o unscoped w.store) refl,
        ap (λ found. ok (found_or_missing crypto secret found))
              (get-create o (owned_by reader_id) w.store)
            ∙ shown (same_business o.business_id reader_id) o,
      )

  -- A stock write whose token is not accepted, or whose payload is refused, is answered 401 or 400 and
  -- leaves the store of Redis as it is.
  pub put_inventory-guarded :
      (token : Option String) (payload : Option NewStock) (w : World)
      → (asker token w ≡ none) ⊎ (payload ≡ none)
      → let (r, w1) = put_inventory crypto secret token payload w in
        (w1.redis ≡ w.redis)
        × ((r ≡ ok (respond 401 (failure "UNAUTHENTICATED")))
            ⊎ (r ≡ ok (respond 400 (failure "INVALID_PAYLOAD"))))
  unfolding put_inventory
  put_inventory-guarded token payload w (inl e) = rw e (refl, inl refl)
  put_inventory-guarded token payload w (inr e) = elim (Option-cases (asker token w)) [
    | inl a ↦ rw (e, a) (refl, inl refl)
    | inr (b, a) ↦ rw (e, a) (refl, inr refl)
  ]
