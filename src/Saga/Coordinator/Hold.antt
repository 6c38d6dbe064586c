-- ===== src/Saga/Coordinator/Hold.antt =====
-- `place_hold` and `_assert_sufficient_stock_for_lines` of src/saga/coordinator.py.
pub mod Quantities
pub mod Stock
use ihms_oms.Prelude.{
  ℕ, zero, suc, ◌+◌, String, Bool, true, false, Option, none, some, List, [], ◌∷◌, map, Dict,
  lookup, insert, string_eq, ltb, not, if◌then◌else◌,
}
use ihms_oms.Session.Models.{
  is_below_zero, Uuid, held, SessionLineItem, CheckoutSession, is_created,
}
use ihms_oms.Gateway.Models.{
  ℤ, pos, negsuc, ObservabilityHeaders, CreateHoldItemRequest, HoldResponse,
}
use ihms_oms.Gateway.Errors.{
  upstream_error, empty_cart, hold_from, product_not_found, invalid_state_transition,
  insufficient_stock, Error, gateway, saga, validation_failure, Result, ok, err,
}
use ihms_oms.Gateway.Ihms.{create_hold, get_inventory}
use ihms_oms.Observability.Metrics.{record_hold_placed, record_hold_failed}
use ihms_oms.Catalog.Provider.{CatalogProduct}
use ihms_oms.Catalog.Inventory.{inventory_by_product_id, stock_or_zero}
use ihms_oms.Catalog.Live.{CatalogProvider, get_product}
use ihms_oms.Effect.{pure, raise, gets, raise_if, lift_result, ◌>>=◌, ◌>>◌, catch}
use ihms_oms.Saga.World.{M, external, require_session, session_save, count_metric}

-- The quantities that the API lets through are positive; a dict keeps the order of first mention.
unfoldable pub merge_onto : List (String × ℕ) → Dict String ℕ → Dict String ℕ
merge_onto [] d = d
merge_onto ((sku, quantity) ∷ items) d =
    merge_onto items
      (insert sku (elim (lookup sku d) [ none ↦ quantity | some n ↦ n + quantity ]) d)

unfoldable pub merged_quantities : List (String × ℕ) → Dict String ℕ
unfolding merge_onto
merged_quantities items = merge_onto items []

-- `SessionLineItem(…)`, whose quantity must be positive and whose price must not be below zero.
line_item : CatalogProduct → ℕ → Result SessionLineItem
line_item p zero = err validation_failure
line_item p (suc n) =
    if is_below_zero p.unit_price
    then err validation_failure
    else ok (record {
      sku = p.sku;
      name = p.name;
      ihms_product_id = p.ihms_product_id;
      ecops_item_code = p.ecops_item_code;
      quantity = suc n;
      unit_price = p.unit_price;
    })

item_for : CatalogProvider → String → ℕ → Result SessionLineItem
unfolding line_item
item_for catalog sku quantity = elim (get_product sku catalog) [
  | none ↦ err (saga (product_not_found sku))
  | some p ↦ line_item p quantity
]

abbrev prepend :
    Result SessionLineItem → Result (List SessionLineItem) → Result (List SessionLineItem)
prepend (err x) rest = err x
prepend (ok i) (err x) = err x
prepend (ok i) (ok is) = ok (i ∷ is)

unfoldable pub line_items_for : CatalogProvider → Dict String ℕ → Result (List SessionLineItem)
unfolding item_for
line_items_for catalog [] = ok []
line_items_for catalog ((sku, quantity) ∷ d) =
    prepend (item_for catalog sku quantity) (line_items_for catalog d)

unfoldable pub hold_items : List SessionLineItem → List CreateHoldItemRequest
hold_items = map (λ i. record { product_id = i.ihms_product_id; quantity = i.quantity })

-- `quantity > available`
abbrev pub exceeds : ℕ → ℤ → Bool
exceeds quantity (pos n) = ltb n quantity
exceeds quantity (negsuc _) = true

-- The loop of `_assert_sufficient_stock_for_lines`: the first line that exceeds its stock raises.
unfoldable pub assert_stock : Dict String ℤ → List SessionLineItem → Result (Unit {0})
assert_stock stock [] = ok tt
assert_stock stock (i ∷ is) =
    let available = stock_or_zero i.ihms_product_id stock in
    if exceeds i.quantity available
    then err (saga (insufficient_stock i.sku i.quantity available))
    else assert_stock stock is

-- `except GatewayError: return`
abbrev pub ignore_gateway : Error → M (Option (Dict String ℤ))
ignore_gateway (gateway _) = pure none
ignore_gateway x = raise x

abbrev check_stock : Option (Dict String ℤ) → List SessionLineItem → Result (Unit {0})
check_stock none items = ok tt
check_stock (some stock) items = assert_stock stock items

unfoldable pub assert_sufficient_stock : List SessionLineItem → ObservabilityHeaders → M (Unit {0})
assert_sufficient_stock items headers = do
  stock ←
      catch
        (do
          inventory ← external (λ w. get_inventory w.ihms headers)
          pure (some (inventory_by_product_id inventory)))
        ignore_gateway
  lift_result (check_stock stock items)

-- `except (HoldConflictError, UpstreamError)`
unfoldable pub hold_rejected : Error → M HoldResponse
unfolding record_hold_failed
hold_rejected (gateway (upstream_error k p)) = do
  count_metric record_hold_failed
  raise (gateway (upstream_error k p))
hold_rejected x = raise x

abbrev pub held_session :
    HoldResponse → String → List SessionLineItem → CheckoutSession → CheckoutSession
held_session hold customer_name items s = record s {
  state = held;
  hold_id = some hold.hold_id;
  expires_at = some hold.expires_at;
  customer_name = some customer_name;
  line_items = items;
}

-- The `async with` block of `place_hold`: whatever happened before the lock was taken, the session
-- is read and tested again.
unfoldable pub place_hold_locked :
    Uuid → List SessionLineItem → String → ObservabilityHeaders → M CheckoutSession
unfolding record_hold_placed
place_hold_locked session_id items customer_name headers = do
  s ← require_session session_id
  raise_if (not (is_created s.state)) (saga (invalid_state_transition (hold_from s.state)))
  assert_sufficient_stock items headers
  hold ← catch (external (λ w. create_hold w.ihms (hold_items items) headers)) hold_rejected
  saved ← session_save (held_session hold customer_name items s)
  count_metric record_hold_placed
  pure saved

abbrev is_empty {ℓ} : {A : Type ℓ} → List A → Bool
is_empty [] = true
is_empty (_ ∷ _) = false

-- What `place_hold` does before it waits for the lock.
unfoldable pub prepare_hold : Uuid → List (String × ℕ) → M (List SessionLineItem)
prepare_hold session_id items = do
  raise_if (is_empty items) (saga (invalid_state_transition empty_cart))
  catalog ← gets (λ w. w.catalog)
  lines ← lift_result (line_items_for catalog (merged_quantities items))
  s ← require_session session_id
  raise_if (not (is_created s.state)) (saga (invalid_state_transition (hold_from s.state)))
  pure lines

unfoldable pub place_hold :
    Uuid → List (String × ℕ) → String → ObservabilityHeaders → M CheckoutSession
place_hold session_id items customer_name headers = do
  lines ← prepare_hold session_id items
  place_hold_locked session_id lines customer_name headers
