-- ===== src/Inventory/Repository.antt =====
-- internal/inventory/repository/postgres.go. A quantity that reaches a statement has been checked
-- to be positive, so it is passed on as its positive part.
use event_driven_ecommerce.Base.{
  ℕ, ◌-◌, String, Bool, ◌||◌, List, [], ◌∷◌, pos, pos_part, ltb_ℤ, leb_ℤ, ◌==◌, if◌then◌else◌,
  is_blank, is_empty, trim_space, Action, ◌>>=◌, ◌>>◌, pure, fail_if, map_error, World, DbError,
  no_rows, broken, Failure, domain, wrap, now, query, transaction,
}
use event_driven_ecommerce.Inventory.Domain.{
  Stock, StockReservation, StockError, stock_not_found, invalid_stock, insufficient_stock,
  reservation_not_found, InventoryStock, InventoryReservation, InventoryDb,
}
use event_driven_ecommerce.Inventory.Queries
use event_driven_ecommerce.Inventory.Queries.{
  reserve_inventory_stock, release_inventory_stock, get_reservation_for_update,
  list_reservations_by_order_id, upsert_inventory_reservation,
  update_inventory_reservation_quantity, delete_inventory_reservation,
}

abbrev pub Call : Type 0 → Type 0
Call A = Action (World InventoryDb) (Failure StockError) A

-- `if err == pgx.ErrNoRows { return missing }`, and any other error wrapped.
abbrev pub or_missing : StockError → String → DbError → Failure StockError
or_missing missing context no_rows = domain missing
or_missing missing context e = wrap context e

abbrev pub fails_with : String → String → Failure StockError
fails_with context text = wrap context (broken text)

unfoldable pub map_db_stock : InventoryStock → Stock
map_db_stock row = record {
  product_id = row.product_id;
  available_quantity = row.available_quantity;
  reserved_quantity = row.reserved_quantity;
  total_quantity = row.total_quantity;
}

unfoldable pub validate_stock_reservation : StockReservation → Bool
validate_stock_reservation r =
    is_blank r.order_id || is_blank r.product_id || leb_ℤ r.quantity (pos 0)

unfoldable pub get_stock_by_product_id : String → Call Stock
get_stock_by_product_id p = do
  fail_if (is_blank p) (domain invalid_stock)
  row ←
      map_error (or_missing stock_not_found "get stock by id from postgres")
        (query (Queries.get_stock_by_product_id p))
  pure (map_db_stock row)

-- What `ReserveStock` does between `Begin` and `Commit`.
unfoldable pub reserve_body : StockReservation → Call InventoryStock
reserve_body r = do
  stock ←
      map_error (or_missing stock_not_found "get stock by id from postgres for update")
        (query (Queries.get_stock_by_product_id r.product_id))
  fail_if (ltb_ℤ (pos stock.available_quantity) r.quantity) (domain insufficient_stock)
  at ← now
  row ←
      map_error (or_missing insufficient_stock "reserve stock in postgres")
        (query (reserve_inventory_stock r.product_id (pos_part r.quantity) at))
  map_error (wrap "upsert inventory reservation in postgres")
      (query (upsert_inventory_reservation r.product_id r.order_id (pos_part r.quantity) at))
  pure row

unfoldable pub reserve_stock : StockReservation → Call Stock
reserve_stock r = do
  fail_if (validate_stock_reservation r) (domain invalid_stock)
  row ←
      transaction (fails_with "begin reserve stock transaction")
        (λ _. fails_with "commit reserve stock transaction") (reserve_body r)
  pure (map_db_stock row)

-- The branch on `reserved.Quantity == reservation.Quantity`.
unfoldable pub settle_reservation : StockReservation → ℕ → ℕ → Call (Unit {0})
settle_reservation r reserved at =
    if reserved == pos_part r.quantity
    then map_error (wrap "delete inventory reservation in postgres")
        (query (delete_inventory_reservation r.product_id r.order_id))
    else map_error (wrap "update inventory reservation quantity in postgres") (
        query (
          update_inventory_reservation_quantity r.product_id r.order_id
            (reserved - pos_part r.quantity) at))

-- What `ReleaseStock` does between `Begin` and `Commit`.
unfoldable pub release_body : StockReservation → Call InventoryStock
release_body r = do
  map_error (or_missing stock_not_found "get stock by id from postgres for update")
      (query (Queries.get_stock_by_product_id r.product_id))
  reserved ←
      map_error
        (or_missing reservation_not_found "get inventory reservation from postgres for update")
        (query (get_reservation_for_update r.product_id r.order_id))
  fail_if (ltb_ℤ (pos reserved.quantity) r.quantity) (domain reservation_not_found)
  at ← now
  row ←
      map_error (wrap "release stock in postgres")
        (query (release_inventory_stock r.product_id (pos_part r.quantity) at))
  settle_reservation r reserved.quantity at
  pure row

unfoldable pub release_stock : StockReservation → Call Stock
release_stock r = do
  fail_if (validate_stock_reservation r) (domain invalid_stock)
  row ←
      transaction (fails_with "begin release stock transaction")
        (λ _. fails_with "commit release stock transaction") (release_body r)
  pure (map_db_stock row)

-- One round of the loop of `ReleaseReservationsByOrderID`.
unfoldable pub release_reservation : ℕ → InventoryReservation → Call (Unit {0})
release_reservation at r = do
  map_error (or_missing stock_not_found "get stock by id from postgres for order release")
      (query (Queries.get_stock_by_product_id r.product_id))
  map_error (wrap "release reserved stock in postgres")
      (query (release_inventory_stock r.product_id r.quantity at))
  map_error (wrap "delete reservation by order id in postgres")
      (query (delete_inventory_reservation r.product_id r.order_id))

unfoldable pub release_each : ℕ → List InventoryReservation → Call (Unit {0})
release_each at [] = pure tt
release_each at (r ∷ rs) = release_reservation at r >> release_each at rs

-- Nothing is released, and the clock not read, where there is no reservation. The result says
-- which of the two commits follows.
unfoldable pub release_found : List InventoryReservation → Call Bool
release_found [] = pure Bool.false
release_found (r ∷ rs) = now >>= λ at. release_each at (r ∷ rs) >> pure Bool.true

unfoldable pub release_all_body : String → Call Bool
release_all_body o = do
  rs ←
      map_error (wrap "list reservations by order id in postgres")
        (query (list_reservations_by_order_id o))
  release_found rs

abbrev commit_context : Bool → String
commit_context Bool.true = "commit release reservations by order transaction"
commit_context Bool.false = "commit empty release reservations by order transaction"

unfoldable pub release_reservations_by_order_id : String → Call (Unit {0})
release_reservations_by_order_id o = do
  fail_if (is_empty (trim_space o)) (domain invalid_stock)
  transaction (fails_with "begin release reservations by order transaction")
      (λ some_released. fails_with (commit_context some_released)) (release_all_body (trim_space o))
  pure tt
