-- ===== src/Inventory/Domain.antt =====
-- internal/inventory/domain/model.go, and the tables of db/schema/inventory.sql as
-- internal/inventory/repository/sqlc/models.go reads them.
use event_driven_ecommerce.Base.{ℕ, String, ℤ, Bool, List, Failure, domain, other}

pub record Stock : Type 0 where
  pub product_id : String
  pub available_quantity : ℕ
  pub reserved_quantity : ℕ
  pub total_quantity : ℕ

pub record StockReservation : Type 0 where
  pub product_id : String
  pub order_id : String
  pub quantity : ℤ

pub data StockError : Type 0 where
  stock_not_found invalid_stock insufficient_stock reservation_not_found : StockError

-- `err.Error()`
abbrev pub error_text : Failure StockError → String
error_text (domain stock_not_found) = "stock not found"
error_text (domain invalid_stock) = "invalid stock"
error_text (domain insufficient_stock) = "insufficient stock"
error_text (domain reservation_not_found) = "reservation not found"
error_text (other text) = text

-- The quantities are BIGINT columns that the schema checks to be 0 or more.
pub record InventoryStock : Type 0 where
  pub product_id : String
  pub available_quantity : ℕ
  pub reserved_quantity : ℕ
  pub total_quantity : ℕ
  pub created_at : ℕ
  pub updated_at : ℕ

pub record InventoryReservation : Type 0 where
  pub product_id : String
  pub order_id : String
  pub quantity : ℕ
  pub created_at : ℕ
  pub updated_at : ℕ

-- `collates a b`: the database sorts `a` before `b` or puts them together.
pub record InventoryDb : Type 0 where
  pub stocks : List InventoryStock
  pub reservations : List InventoryReservation
  pub collates : String → String → Bool
