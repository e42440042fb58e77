-- ===== src/Inventory/Promises.antt =====
-- What the operations of the inventory service promise to their callers.
use event_driven_ecommerce.Base.{
  ℕ, suc, ◌≤◌, String, ◌≡◌, refl, false, none, some, List, [], ◌∷◌, pos_part, arith, trim_space,
  max_bigint, is_ok, true, Result, ok, err, World, Outcome, running, outside, eq_iff, Option-cases,
  inl, inr,
}
use event_driven_ecommerce.Inventory.Domain.{
  StockReservation, InventoryStock, InventoryReservation, InventoryDb,
}
use event_driven_ecommerce.Inventory.Queries
use event_driven_ecommerce.Inventory.Queries.{
  find_stock, find_reservation, reserve_inventory_stock, upsert_inventory_reservation,
}
use event_driven_ecommerce.Inventory.Repository
use event_driven_ecommerce.Inventory.Repository.{validate_stock_reservation, reserve_body}
use event_driven_ecommerce.Inventory.Service
use event_driven_ecommerce.Inventory.Service.{validate_reservation_request}
use event_driven_ecommerce.Inventory.Quantities.{committed}
use event_driven_ecommerce.Inventory.Reserving.{Consistent}
use event_driven_ecommerce.Inventory.Moves.Stocks.{reserve-StockMoves}
use event_driven_ecommerce.Inventory.Outcomes.{
  ReserveDone, ReleaseDone, reserve_stock-Settles, release_stock-Settles,
}
use event_driven_ecommerce.Inventory.Releasing.{OrderReleased, release_order-Settles}

-- From a consistent inventory `ReserveStock` either reserves exactly the units that were asked for,
-- at least one, changes no other quantity and returns the product's row, with the inventory
-- consistent; or it fails and leaves the tables as they were. Any call may fail on the way.
pub reserve_stock-Outcome :
    (r : StockReservation) (w : World InventoryDb)
    → Consistent w.db
    → Outcome w.db (ReserveDone r w.db) (Service.reserve_stock r w)
reserve_stock-Outcome r w c = (reserve_stock-Settles r w.db c).apply w refl

-- From a consistent inventory `ReleaseStock` either gives back exactly the units that were asked
-- for, at least one, which the order held, changes no other quantity and returns the product's row,
-- with the inventory consistent; or it fails and leaves the tables as they were.
pub release_stock-Outcome :
    (r : StockReservation) (w : World InventoryDb)
    → Consistent w.db
    → Outcome w.db (ReleaseDone r w.db) (Service.release_stock r w)
release_stock-Outcome r w c = (release_stock-Settles r w.db c).apply w refl

-- From a consistent inventory `ReleaseReservationsByOrderID` either makes every unit that the order
-- (its id trimmed) held available again and leaves it none, changes no other quantity and keeps the
-- inventory consistent; or it fails and leaves the tables as they were.
pub release_order-Outcome :
    (o : String) (w : World InventoryDb)
    → Consistent w.db
    → Outcome w.db
        (λ _ d'. OrderReleased (trim_space o) w.db d')
        (Service.release_reservations_by_order_id o w)
release_order-Outcome o w c = (release_order-Settles (trim_space o) w.db c o refl).apply w refl

find_reservation-le-committed :
    (p o : String) (rs : List InventoryReservation) (r : InventoryReservation)
    → find_reservation p o rs ≡ some r
    → r.quantity ≤ committed p rs
unfolding find_reservation committed
find_reservation-le-committed p o [] r e = absurd (ground arith)
find_reservation-le-committed p o (t ∷ rs) r e =
    ground (arith, eq_iff t.product_id p, find_reservation-le-committed p o rs r)

module _ (r : StockReservation) (d : InventoryDb) (s : InventoryStock) (c : Consistent d)
    (found : find_stock r.product_id d.stocks ≡ some s) (fits : s.total_quantity ≤ max_bigint)
    (enough : pos_part r.quantity ≤ s.available_quantity) where
  reserve_row_ok :
      (at : ℕ) → is_ok (reserve_inventory_stock r.product_id (pos_part r.quantity) at d) ≡ true
  unfolding reserve_inventory_stock
  reserve_row_ok at = ground (arith, c.balanced r.product_id)

  upsert_ok :
      (at : ℕ) (row : InventoryStock) (d' : InventoryDb)
      → reserve_inventory_stock r.product_id (pos_part r.quantity) at d ≡ ok (row, d')
      → is_ok (upsert_inventory_reservation r.product_id r.order_id (pos_part r.quantity) at d')
        ≡ true
  unfolding upsert_inventory_reservation
  upsert_ok at row d' e =
      let (moves, there, same) = reserve-StockMoves _ _ at d row d' e in
      elim (Option-cases (find_reservation r.product_id r.order_id d.reservations)) [
        | inl missing ↦ ground arith
        | inr (kept, is) ↦ ground (
          arith,
          find_reservation-le-committed r.product_id r.order_id d.reservations kept is,
          c.balanced r.product_id,
          c.backed r.product_id,
        )
      ]

ok_result : {E A : Type 0} (x : Result E A) → is_ok x ≡ true → (a : A) × (x ≡ ok a)
ok_result (ok a) h = (a, refl)
ok_result (err e) h = cc

-- Where no call fails, a valid request for units that are available is granted: from a consistent
-- inventory whose total for the product is a BIGINT, `ReserveStock` gives no error.
pub reserve_stock_granted :
    (r : StockReservation) (w : World InventoryDb) (s : InventoryStock)
    → Consistent w.db
    → ((n : ℕ) → w.fault n ≡ none)
    → validate_reservation_request r ≡ false
    → find_stock r.product_id w.db.stocks ≡ some s
    → s.total_quantity ≤ max_bigint
    → pos_part r.quantity ≤ s.available_quantity
    → is_ok (Service.reserve_stock r w).0 ≡ true
unfolding Service.reserve_stock Repository.reserve_stock reserve_body validate_reservation_request
    validate_stock_reservation Queries.get_stock_by_product_id running outside
reserve_stock_granted r w s c up valid found fits enough =
    let at : ℕ = w.clock (suc (suc w.tick)) in
    let ((row, d'), e) = ok_result _ (reserve_row_ok r w.db s c found fits enough at) in
    let ((u, d''), e') = ok_result _ (upsert_ok r w.db s c found fits enough at row d' e) in
    ground (
      arith,
      up w.tick,
      up (suc w.tick),
      up (suc (suc w.tick)),
      up (suc (suc (suc w.tick))),
      up (suc (suc (suc (suc w.tick)))),
      up (suc (suc (suc (suc (suc w.tick))))),
      e,
      e',
    )
