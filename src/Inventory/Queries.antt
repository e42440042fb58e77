-- ===== src/Inventory/Queries.antt =====
-- The statements of internal/inventory/repository/sqlc/inventory.sql.go (db/queries/inventory.sql),
-- over the tables and constraints of db/schema/inventory.sql. One transaction runs at a time, so
-- `FOR UPDATE` takes no part.
use event_driven_ecommerce.Base.{
  ℕ, ◌+◌, ◌-◌, String, str_eq, Bool, ◌&&◌, Option, none, some, List, [], ◌∷◌, leb, ◌==◌,
  if◌then◌else◌, Result, ok, err, DbError, no_rows, max_bigint, out_of_range, foreign_key_violation,
  check_violation,
}
use event_driven_ecommerce.Inventory.Domain.{InventoryStock, InventoryReservation, InventoryDb}

unfoldable pub find_stock : String → List InventoryStock → Option InventoryStock
find_stock p [] = none
find_stock p (s ∷ ss) = if str_eq s.product_id p then some s else find_stock p ss

-- The row with the key of `t` becomes `t`.
unfoldable pub replace_stock : InventoryStock → List InventoryStock → List InventoryStock
replace_stock t [] = []
replace_stock t (s ∷ ss) =
    if str_eq s.product_id t.product_id then t ∷ ss else s ∷ replace_stock t ss

-- The key of a reservation is (product_id, order_id).
unfoldable pub is_for : String → String → InventoryReservation → Bool
is_for p o r = str_eq r.product_id p && str_eq r.order_id o

unfoldable pub find_reservation :
    String → String → List InventoryReservation → Option InventoryReservation
unfolding is_for
find_reservation p o [] = none
find_reservation p o (r ∷ rs) = if is_for p o r then some r else find_reservation p o rs

unfoldable pub replace_reservation :
    InventoryReservation → List InventoryReservation → List InventoryReservation
unfolding is_for
replace_reservation t [] = []
replace_reservation t (r ∷ rs) =
    if is_for t.product_id t.order_id r then t ∷ rs else r ∷ replace_reservation t rs

unfoldable pub remove_reservations :
    String → String → List InventoryReservation → List InventoryReservation
unfolding is_for
remove_reservations p o [] = []
remove_reservations p o (r ∷ rs) =
    let rest = remove_reservations p o rs in if is_for p o r then rest else r ∷ rest

unfoldable pub reservations_of : String → List InventoryReservation → List InventoryReservation
reservations_of o [] = []
reservations_of o (r ∷ rs) =
    let rest = reservations_of o rs in if str_eq r.order_id o then r ∷ rest else rest

unfoldable pub insert_by_product :
    (String → String → Bool)
    → InventoryReservation
    → List InventoryReservation
    → List InventoryReservation
insert_by_product before r [] = r ∷ []
insert_by_product before r (t ∷ ts) =
    if before r.product_id t.product_id then r ∷ t ∷ ts else t ∷ insert_by_product before r ts

unfoldable pub sort_by_product :
    (String → String → Bool) → List InventoryReservation → List InventoryReservation
unfolding insert_by_product
sort_by_product before [] = []
sort_by_product before (r ∷ rs) = insert_by_product before r (sort_by_product before rs)

-- `GetStockByProductID`; `GetStockByProductIDForUpdate` differs by its lock alone.
unfoldable pub get_stock_by_product_id :
    String → InventoryDb → Result DbError (InventoryStock × InventoryDb)
get_stock_by_product_id p d = elim (find_stock p d.stocks) [
  | none ↦ err no_rows
  | some s ↦ ok (s, d)
]

unfoldable pub get_reservation_for_update :
    String → String → InventoryDb → Result DbError (InventoryReservation × InventoryDb)
get_reservation_for_update p o d = elim (find_reservation p o d.reservations) [
  | none ↦ err no_rows
  | some r ↦ ok (r, d)
]

unfoldable pub list_reservations_by_order_id :
    String → InventoryDb → Result DbError (List InventoryReservation × InventoryDb)
list_reservations_by_order_id o d =
    ok (sort_by_product d.collates (reservations_of o d.reservations), d)

unfoldable pub reserved_row : ℕ → ℕ → InventoryStock → InventoryStock
reserved_row q at s = record s {
  available_quantity = s.available_quantity - q;
  reserved_quantity = s.reserved_quantity + q;
  updated_at = at;
}

unfoldable pub reserve_inventory_stock :
    String → ℕ → ℕ → InventoryDb → Result DbError (InventoryStock × InventoryDb)
reserve_inventory_stock p q at d = elim (find_stock p d.stocks) [
  | none ↦ err no_rows
  | some s ↦
      if leb q s.available_quantity
      then if leb (s.reserved_quantity + q) max_bigint
        then ok (
          reserved_row q at s,
          record d { stocks = replace_stock (reserved_row q at s) d.stocks },
        )
        else err out_of_range
      else err no_rows
]

unfoldable pub released_row : ℕ → ℕ → InventoryStock → InventoryStock
released_row q at s = record s {
  available_quantity = s.available_quantity + q;
  reserved_quantity = s.reserved_quantity - q;
  updated_at = at;
}

unfoldable pub release_inventory_stock :
    String → ℕ → ℕ → InventoryDb → Result DbError (InventoryStock × InventoryDb)
release_inventory_stock p q at d = elim (find_stock p d.stocks) [
  | none ↦ err no_rows
  | some s ↦
      if leb q s.reserved_quantity
      then if leb (s.available_quantity + q) max_bigint
        then ok (
          released_row q at s,
          record d { stocks = replace_stock (released_row q at s) d.stocks },
        )
        else err out_of_range
      else err no_rows
]

-- `ON CONFLICT (product_id, order_id) DO UPDATE`; a product with no stock fails the foreign key.
unfoldable pub upsert_inventory_reservation :
    String → String → ℕ → ℕ → InventoryDb → Result DbError (Unit {0} × InventoryDb)
upsert_inventory_reservation p o q at d = elim (find_reservation p o d.reservations) [
  | some r ↦
      if leb (r.quantity + q) max_bigint
      then ok (
        tt,
        record d {
          reservations =
              replace_reservation (record r { quantity = r.quantity + q; updated_at = at })
                d.reservations;
        },
      )
      else err out_of_range
  | none ↦ elim (find_stock p d.stocks) [
    | none ↦
        err
          (foreign_key_violation "inventory_reservations" "inventory_reservations_product_id_fkey")
    | some s ↦ ok (
      tt,
      record d {
        reservations =
            record { product_id = p; order_id = o; quantity = q; created_at = at; updated_at = at }
            ∷ d.reservations;
      },
    )
  ]
]

unfoldable pub update_inventory_reservation_quantity :
    String → String → ℕ → ℕ → InventoryDb → Result DbError (Unit {0} × InventoryDb)
update_inventory_reservation_quantity p o q at d = elim (find_reservation p o d.reservations) [
  | none ↦ ok (tt, d)
  | some r ↦
      if q == 0
      then err (check_violation "inventory_reservations" "inventory_reservations_quantity_check")
      else ok (
        tt,
        record d {
          reservations =
              replace_reservation (record r { quantity = q; updated_at = at }) d.reservations;
        },
      )
]

unfoldable pub delete_inventory_reservation :
    String → String → InventoryDb → Result DbError (Unit {0} × InventoryDb)
delete_inventory_reservation p o d =
    ok (tt, record d { reservations = remove_reservations p o d.reservations })
