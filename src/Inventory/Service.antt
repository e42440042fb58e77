-- ===== src/Inventory/Service.antt =====
-- internal/inventory/service/service.go.
use event_driven_ecommerce.Base.{String, Bool, ◌||◌, pos, leb_ℤ, is_blank, ◌>>◌, fail_if, domain}
use event_driven_ecommerce.Inventory.Domain.{Stock, StockReservation, invalid_stock}
use event_driven_ecommerce.Inventory.Repository
use event_driven_ecommerce.Inventory.Repository.{Call}

unfoldable pub validate_reservation_request : StockReservation → Bool
validate_reservation_request r =
    is_blank r.product_id || is_blank r.order_id || leb_ℤ r.quantity (pos 0)

unfoldable pub get_stock_by_product_id : String → Call Stock
get_stock_by_product_id p = do
  fail_if (is_blank p) (domain invalid_stock)
  Repository.get_stock_by_product_id p

unfoldable pub reserve_stock : StockReservation → Call Stock
unfolding validate_reservation_request
reserve_stock r = do
  fail_if (validate_reservation_request r) (domain invalid_stock)
  Repository.reserve_stock r

unfoldable pub release_stock : StockReservation → Call Stock
unfolding validate_reservation_request
release_stock r = do
  fail_if (validate_reservation_request r) (domain invalid_stock)
  Repository.release_stock r

unfoldable pub release_reservations_by_order_id : String → Call (Unit {0})
release_reservations_by_order_id o = do
  fail_if (is_blank o) (domain invalid_stock)
  Repository.release_reservations_by_order_id o
