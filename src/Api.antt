-- ===== src/Api.antt =====
-- src/api/routes/orders.ts and the write of src/api/routes/inventory.ts, with currentBusinessId of
-- src/auth/currentBusiness.ts. A request comes with its payload as the schema gives it, or none if
-- the schema refuses it, and with the token of its session cookie.
pub mod Scoping
mod Tests
use supply_chain_mangement_s.Common.{ℕ, ℤ, String, Option, none, some, List}
use supply_chain_mangement_s.Exec.{Exec, pure, gets, modify, ◌>>=◌, ◌>>◌}
use supply_chain_mangement_s.Types.{OrderLine, Order}
use supply_chain_mangement_s.Auth.Session.{Crypto, verify_session_token}
use supply_chain_mangement_s.Orders
use supply_chain_mangement_s.Orders.{unscoped, owned_by}
use supply_chain_mangement_s.World.{World, now}
use supply_chain_mangement_s.Inventory.{set_stock}
use supply_chain_mangement_s.Saga.{create_order}

-- The payload of `createOrderSchema` and the one of `setStockSchema`.
pub record NewOrder : Type 0 where
  pub customer_id : String
  pub amount_cents : ℤ
  pub lines : List OrderLine

pub record NewStock : Type 0 where
  pub warehouse_id : String
  pub sku : String
  pub qty : ℤ

pub data Body : Type 0 where
  nothing : Body
  failure : (error : String) → Body
  one : Option Order → Body
  many : List Order → Body

pub record Response : Type 0 where
  pub status : ℕ
  pub body : Body
  pub location : Option String

abbrev pub respond : ℕ → Body → Response
respond status body = record { status = status; body = body; location = none }

module _ (crypto : Crypto) (secret : String) where
  -- `currentBusinessId(req)`, and `scopeFor(req)` with `null` for none.
  unfoldable pub current_business_id : Option String → Exec World (Option String)
  unfolding now
  current_business_id token = do t ← now; pure (verify_session_token crypto secret t token)

  abbrev pub scope_for : Option String → Exec World (Option String)
  scope_for token = current_business_id token

  -- `POST /orders`
  unfoldable pub post_order : Option String → Option NewOrder → Exec World Response
  unfolding current_business_id
  post_order token none = pure (respond 400 (failure "INVALID_PAYLOAD"))
  post_order token (some p) = do
    business_id ← scope_for token
    order_id ← create_order p.customer_id p.lines p.amount_cents business_id
    order ← gets (λ w. Orders.get order_id unscoped w.store)
    pure (record { status = 202; body = one order; location = some order_id })

  abbrev pub found_or_missing : Option Order → Response
  found_or_missing none = respond 404 (failure "NOT_FOUND")
  found_or_missing (some order) = respond 200 (one (some order))

  -- `GET /orders/:id`
  unfoldable pub get_order : Option String → String → Exec World Response
  unfolding current_business_id
  get_order token id = do
    business_id ← scope_for token
    order ← gets (λ w. Orders.get id (owned_by business_id) w.store)
    pure (found_or_missing order)

  -- `GET /orders`
  unfoldable pub get_orders : Option String → Exec World Response
  unfolding current_business_id
  get_orders token = do
    business_id ← scope_for token
    orders ← gets (λ w. Orders.all (owned_by business_id) w.store)
    pure (respond 200 (many orders))

  abbrev put_checked : Option NewStock → Option String → Exec World Response
  put_checked payload none = pure (respond 401 (failure "UNAUTHENTICATED"))
  put_checked none (some business_id) = pure (respond 400 (failure "INVALID_PAYLOAD"))
  put_checked (some s) (some business_id) = do
    modify (set_stock s.warehouse_id s.sku s.qty)
    pure (respond 204 nothing)

  -- `PUT /inventory`
  unfoldable pub put_inventory : Option String → Option NewStock → Exec World Response
  unfolding current_business_id
  put_inventory token payload = do
    business_id ← current_business_id token
    put_checked payload business_id
