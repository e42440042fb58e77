-- ===== src/Inventory/Handler.antt =====
-- internal/inventory/handler/grpc.go. Log lines are left out; a request is its fields, as their
-- getters read them.
use event_driven_ecommerce.Base.{ℕ, String, ◌>>=◌, pure, Failure, domain, other}
use event_driven_ecommerce.Grpc.{
  Status, status_error, invalid_argument, not_found, failed_precondition, internal, Rpc, served,
}
use event_driven_ecommerce.Inventory.Domain.{
  Stock, StockReservation, InventoryDb, StockError, error_text, stock_not_found, invalid_stock,
  insufficient_stock, reservation_not_found,
}
use event_driven_ecommerce.Inventory.Service

-- `*inventoryv1.Stock`, where it is not nil.
pub record ProtoStock : Type 0 where
  pub product_id : String
  pub available_quantity : ℕ
  pub reserved_quantity : ℕ
  pub total_quantity : ℕ

unfoldable pub convert_stock_to_proto : Stock → ProtoStock
convert_stock_to_proto stock = record {
  product_id = stock.product_id;
  available_quantity = stock.available_quantity;
  reserved_quantity = stock.reserved_quantity;
  total_quantity = stock.total_quantity;
}

unfoldable pub map_inventory_error : Failure StockError → Status
map_inventory_error (other text) = status_error internal "internal server error"
map_inventory_error (domain invalid_stock) =
    status_error invalid_argument (error_text (domain invalid_stock))
map_inventory_error (domain stock_not_found) =
    status_error not_found (error_text (domain stock_not_found))
map_inventory_error (domain reservation_not_found) =
    status_error not_found (error_text (domain reservation_not_found))
map_inventory_error (domain insufficient_stock) =
    status_error failed_precondition (error_text (domain insufficient_stock))

unfoldable pub get_stock_by_product_id : String → Rpc InventoryDb ProtoStock
get_stock_by_product_id product_id = do
  stock ← served map_inventory_error (Service.get_stock_by_product_id product_id)
  pure (convert_stock_to_proto stock)

unfoldable pub reserve_stock : StockReservation → Rpc InventoryDb ProtoStock
reserve_stock reservation = do
  stock ← served map_inventory_error (Service.reserve_stock reservation)
  pure (convert_stock_to_proto stock)

unfoldable pub release_stock : StockReservation → Rpc InventoryDb ProtoStock
release_stock reservation = do
  stock ← served map_inventory_error (Service.release_stock reservation)
  pure (convert_stock_to_proto stock)
