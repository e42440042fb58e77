-- ===== src/Inventory/Outcomes.antt =====
-- What the service's `ReserveStock` and `ReleaseStock` promise, whichever calls to the database
-- fail on the way.
use event_driven_ecommerce.Base.{
  ◌≡◌, refl, false, some, pos_part, ◌<◌, arith, Settles, transaction-Settles, guard-Settles,
  mapped-Settles,
}
use event_driven_ecommerce.Inventory.Domain.{Stock, StockReservation, InventoryStock, InventoryDb}
use event_driven_ecommerce.Inventory.Queries.{find_stock}
use event_driven_ecommerce.Inventory.Repository
use event_driven_ecommerce.Inventory.Repository.{map_db_stock, validate_stock_reservation}
use event_driven_ecommerce.Inventory.Service
use event_driven_ecommerce.Inventory.Reserving.{
  Holds, Consistent, Reserved, Released, reserve_body-Ensures, release_body-Ensures,
  Holds-Consistent, Holds-Consistent_back,
}

-- A reservation of at least one unit was made, the inventory is consistent, and the stock that is
-- returned is what the product's row says now.
pub record ReserveDone (r : StockReservation) (d : InventoryDb) (s : Stock) (d' : InventoryDb)
    : Type 0 where
  pub positive : 0 < pos_part r.quantity
  pub holds : Holds r.product_id r.order_id (pos_part r.quantity) d d'
  pub consistent : Consistent d'
  pub returned :
      (row : InventoryStock) × (find_stock r.product_id d'.stocks ≡ some row)
      × (s ≡ map_db_stock row)

pub record ReleaseDone (r : StockReservation) (d : InventoryDb) (s : Stock) (d' : InventoryDb)
    : Type 0 where
  pub positive : 0 < pos_part r.quantity
  pub held : Holds r.product_id r.order_id (pos_part r.quantity) d' d
  pub consistent : Consistent d'
  pub returned :
      (row : InventoryStock) × (find_stock r.product_id d'.stocks ≡ some row)
      × (s ≡ map_db_stock row)

module _ (r : StockReservation) (d : InventoryDb) (c : Consistent d) where
  positive_of_valid : validate_stock_reservation r ≡ false → 0 < pos_part r.quantity
  unfolding validate_stock_reservation
  positive_of_valid v = ground arith

  -- `ReserveStock` either reserves exactly what was asked, and keeps the inventory consistent, or
  -- fails and leaves the tables as they were.
  pub reserve_stock-Settles : Settles d (Service.reserve_stock r) (ReserveDone r d)
  unfolding Service.reserve_stock Repository.reserve_stock
  reserve_stock-Settles = guard-Settles d _ _ _ _ λ _. guard-Settles d _ _ _ _ λ valid.
      mapped-Settles d _ map_db_stock (Reserved r d) _
        (transaction-Settles d _ _ _ _ (reserve_body-Ensures r d c.unique))
        λ row d' done. record {
          positive = positive_of_valid valid;
          holds = done.holds;
          consistent = Holds-Consistent _ _ _ d d' done.holds done.unique c;
          returned = (row, done.found, refl);
        }

  -- `ReleaseStock` either gives back exactly what was asked, which the order held, and keeps the
  -- inventory consistent, or fails and leaves the tables as they were.
  pub release_stock-Settles : Settles d (Service.release_stock r) (ReleaseDone r d)
  unfolding Service.release_stock Repository.release_stock
  release_stock-Settles = guard-Settles d _ _ _ _ λ _. guard-Settles d _ _ _ _ λ valid.
      mapped-Settles d _ map_db_stock (Released r d) _
        (transaction-Settles d _ _ _ _ (release_body-Ensures r d c.unique))
        λ row d' done. record {
          positive = positive_of_valid valid;
          held = done.held;
          consistent = Holds-Consistent_back _ _ _ d d' done.held done.unique c;
          returned = (row, done.found, refl);
        }
