-- ===== src/Inventory/Moves.antt =====
-- What the statements of the inventory do to the quantities. `Holds` is the specification of a
-- reservation of `n` units of the product `p` for the order `o`; read backwards, of a release.
pub mod Stocks
pub mod Reservations
use event_driven_ecommerce.Base.{
  ℕ, ◌+◌, ◌-◌, ◌≤◌, String, str_eq, eq_iff, ◌≡◌, refl, ◌∙◌, sym, subst, ◌&&◌, Bool, Option, none,
  some, List, [], ◌∷◌, leb, ◌==◌, if◌then◌else◌, arith, Result, ok, err, max_bigint, Option-cases,
  inl, inr,
}
use event_driven_ecommerce.Inventory.Domain.{InventoryStock, InventoryReservation, InventoryDb}
use event_driven_ecommerce.Inventory.Queries.{
  find_stock, replace_stock, find_reservation, is_for, reserve_inventory_stock,
  release_inventory_stock, upsert_inventory_reservation, update_inventory_reservation_quantity,
  delete_inventory_reservation, reserved_row, released_row, replace_reservation,
  remove_reservations,
}
use event_driven_ecommerce.Inventory.Quantities.{
  available_in, reserved_in, total_in, quantity_in, is_some, committed, Unique,
  find_stock-replace_stock, find_stock-product_id, find_reservation-key,
  find_reservation-replace_reservation, committed-replace_reservation, Unique-replace_reservation,
  find_reservation-remove_reservations, committed-remove_reservations, Unique-remove_reservations,
}

abbrev pub units : String → String → ℕ → ℕ
units p q n = if str_eq p q then n else 0

abbrev pub units_for : String → String → String → String → ℕ → ℕ
units_for p o q u n = if str_eq p q && str_eq o u then n else 0

-- `n` units of `p` go from available to reserved.
pub record StockMoves (p : String) (n : ℕ) (ss ss' : List InventoryStock) : Type 0 where
  pub listed : (q : String) → is_some (find_stock q ss') ≡ is_some (find_stock q ss)
  pub available :
      (q : String) → available_in (find_stock q ss) ≡ available_in (find_stock q ss') + units p q n
  pub reserved :
      (q : String) → reserved_in (find_stock q ss') ≡ reserved_in (find_stock q ss) + units p q n
  pub total : (q : String) → total_in (find_stock q ss') ≡ total_in (find_stock q ss)

-- The order `o` holds `n` more units of `p`.
pub record ReservationGrows (p o : String) (n : ℕ) (rs rs' : List InventoryReservation)
    : Type 0 where
  pub held :
      (q u : String)
      → quantity_in (find_reservation q u rs')
        ≡ quantity_in (find_reservation q u rs) + units_for p o q u n
  pub sum : (q : String) → committed q rs' ≡ committed q rs + units p q n

-- What a statement on the reservations leaves as it was, and that the keys are still distinct.
pub record LeavesStocks (d d' : InventoryDb) : Type 0 where
  pub stocks : d'.stocks ≡ d.stocks
  pub unique : Unique d'.reservations
