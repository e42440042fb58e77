-- ===== src/Inventory/Reserving.antt =====
-- `ReserveStock` and `ReleaseStock` of the repository against their specification.
use event_driven_ecommerce.Base.{
  ℕ, ◌+◌, String, ◌≡◌, subst, false, some, pos, pos_part, ltb_ℤ, ◌==◌, arith, ◌>>◌, pure, Ensures,
  read-Ensures, step-Ensures, guard-Ensures, clock-Ensures, pure-Ensures, Bool-cases, inl, inr,
}
use event_driven_ecommerce.Inventory.Domain.{
  StockReservation, InventoryStock, InventoryReservation, InventoryDb,
}
use event_driven_ecommerce.Inventory.Queries
use event_driven_ecommerce.Inventory.Queries.{
  find_stock, find_reservation, reserve_inventory_stock, upsert_inventory_reservation,
}
use event_driven_ecommerce.Inventory.Repository.{reserve_body, release_body, settle_reservation}
use event_driven_ecommerce.Inventory.Quantities.{
  available_in, reserved_in, total_in, committed, Unique,
}
use event_driven_ecommerce.Inventory.Moves.{StockMoves, ReservationGrows, LeavesStocks}
use event_driven_ecommerce.Inventory.Moves.Stocks.{reserve-StockMoves, release-StockMoves}
use event_driven_ecommerce.Inventory.Moves.Reservations.{
  upsert-ReservationGrows, delete-ReservationGrows, update-ReservationGrows,
}

-- `d'` is `d` with `n` more units of `p` reserved for the order `o`, and nothing else changed in
-- any quantity.
pub record Holds (p o : String) (n : ℕ) (d d' : InventoryDb) : Type 0 where
  pub moves : StockMoves p n d.stocks d'.stocks
  pub grows : ReservationGrows p o n d.reservations d'.reservations

-- In every product the available and the reserved units make the total, and the reserved units are
-- those of the reservations; no two reservations have one key.
pub record Consistent (d : InventoryDb) : Type 0 where
  pub balanced :
      (q : String)
      → available_in (find_stock q d.stocks) + reserved_in (find_stock q d.stocks)
        ≡ total_in (find_stock q d.stocks)
  pub backed : (q : String) → reserved_in (find_stock q d.stocks) ≡ committed q d.reservations
  pub unique : Unique d.reservations

-- What a successful reservation has done: the row that is returned is the product's row now.
pub record Reserved (r : StockReservation) (d : InventoryDb) (row : InventoryStock)
    (d' : InventoryDb) : Type 0 where
  pub holds : Holds r.product_id r.order_id (pos_part r.quantity) d d'
  pub found : find_stock r.product_id d'.stocks ≡ some row
  pub unique : Unique d'.reservations

pub record Released (r : StockReservation) (d : InventoryDb) (row : InventoryStock)
    (d' : InventoryDb) : Type 0 where
  pub held : Holds r.product_id r.order_id (pos_part r.quantity) d' d
  pub found : find_stock r.product_id d'.stocks ≡ some row
  pub unique : Unique d'.reservations

-- A stock statement followed by a reservation statement.
reserved :
    (r : StockReservation) (d d₁ d₂ : InventoryDb) (row : InventoryStock)
    → StockMoves r.product_id (pos_part r.quantity) d.stocks d₁.stocks
      × (find_stock r.product_id d₁.stocks ≡ some row)
      × (d₁.reservations ≡ d.reservations)
    → ReservationGrows r.product_id r.order_id (pos_part r.quantity) d₁.reservations d₂.reservations
      × LeavesStocks d₁ d₂
    → Reserved r d row d₂
reserved r d d₁ d₂ row (moves, found, same) (grows, left) = record {
  holds = record { moves = rw left.stocks moves; grows = rw same at grows };
  found = rw left.stocks found;
  unique = left.unique;
}

released :
    (r : StockReservation) (d d₁ d₂ : InventoryDb) (row : InventoryStock)
    → StockMoves r.product_id (pos_part r.quantity) d₁.stocks d.stocks
      × (find_stock r.product_id d₁.stocks ≡ some row)
      × (d₁.reservations ≡ d.reservations)
    → ReservationGrows r.product_id r.order_id (pos_part r.quantity) d₂.reservations d₁.reservations
      × LeavesStocks d₁ d₂
    → Released r d row d₂
released r d d₁ d₂ row (moves, found, same) (grows, left) = record {
  held = record { moves = rw left.stocks moves; grows = rw same at grows };
  found = rw left.stocks found;
  unique = left.unique;
}

module _ (r : StockReservation) (d : InventoryDb) (unique : Unique d.reservations) where
  pub reserve_body-Ensures : Ensures d (reserve_body r) (Reserved r d)
  unfolding reserve_body Queries.get_stock_by_product_id
  reserve_body-Ensures =
      read-Ensures d _ _ _ _ (λ s d' e. ground arith)
        λ s e. guard-Ensures d _ _ _ _ λ enough. clock-Ensures d _ _ λ at.
          step-Ensures d _ _ _ _ λ row d₁ e₁. step-Ensures d₁ _ _ _ _ λ _ d₂ e₂.
            let stock = reserve-StockMoves _ _ at d row d₁ e₁ in
            pure-Ensures row d₂ _ (
              reserved r d d₁ d₂ row stock
                (upsert-ReservationGrows _ _ _ at d₁ d₂ (rw stock.2 unique) e₂))

  settle-Ensures :
      (kept : InventoryReservation) (row : InventoryStock) (at : ℕ) (d₁ : InventoryDb)
      → find_reservation r.product_id r.order_id d.reservations ≡ some kept
      → ltb_ℤ (pos kept.quantity) r.quantity ≡ false
      → StockMoves r.product_id (pos_part r.quantity) d₁.stocks d.stocks
        × (find_stock r.product_id d₁.stocks ≡ some row)
        × (d₁.reservations ≡ d.reservations)
      → Ensures d₁ (settle_reservation r kept.quantity at >> pure row) (Released r d)
  unfolding settle_reservation
  settle-Ensures kept row at d₁ found enough stock =
      let there : find_reservation r.product_id r.order_id d₁.reservations ≡ some kept =
        rw stock.2 found in
      let distinct : Unique d₁.reservations = rw stock.2 unique in
      elim (Bool-cases (kept.quantity == pos_part r.quantity)) [
        | inl all ↦ rw all (
            step-Ensures d₁ _ _ _ _ λ _ d₂ e₂.
              let same : kept.quantity ≡ pos_part r.quantity = ground arith in
              let gone = delete-ReservationGrows _ _ d₁ d₂ distinct kept there e₂ in
              pure-Ensures row d₂ _ (
                released r d d₁ d₂ row stock (
                  subst
                      (λ n.
                        ReservationGrows r.product_id r.order_id n d₂.reservations d₁.reservations)
                      same gone.0,
                  gone.1,
                )))
        | inr some_left ↦ rw some_left (
            step-Ensures d₁ _ _ _ _ λ _ d₂ e₂. pure-Ensures row d₂ _ (
              released r d d₁ d₂ row stock (
                update-ReservationGrows _ _ d₁ d₂ distinct kept there (pos_part r.quantity) at
                  (ground arith) e₂)))
      ]

  pub release_body-Ensures : Ensures d (release_body r) (Released r d)
  unfolding release_body Queries.get_stock_by_product_id Queries.get_reservation_for_update
  release_body-Ensures =
      read-Ensures d _ _ _ _ (λ s d' e. ground arith)
        λ s e.
          read-Ensures d _ _ _ _ (λ s d' e. ground arith)
            λ kept e. guard-Ensures d _ _ _ _ λ enough. clock-Ensures d _ _ λ at.
              step-Ensures d _ _ _ _ λ row d₁ e₁.
                settle-Ensures kept row at d₁ (ground arith) enough
                  (release-StockMoves _ _ at d row d₁ e₁)

-- Keeping the invariant follows from the specification alone, both ways.
pub Holds-Consistent :
    (p o : String) (n : ℕ) (d d' : InventoryDb)
    → Holds p o n d d'
    → Unique d'.reservations
    → Consistent d
    → Consistent d'
Holds-Consistent p o n d d' h unique c = record {
  balanced =
      λ q. omega (arith, h.moves.available q, h.moves.reserved q, h.moves.total q, c.balanced q);
  backed = λ q. omega (arith, h.moves.reserved q, h.grows.sum q, c.backed q);
  unique = unique;
}

pub Holds-Consistent_back :
    (p o : String) (n : ℕ) (d d' : InventoryDb)
    → Holds p o n d' d
    → Unique d'.reservations
    → Consistent d
    → Consistent d'
Holds-Consistent_back p o n d d' h unique c = record {
  balanced =
      λ q. omega (arith, h.moves.available q, h.moves.reserved q, h.moves.total q, c.balanced q);
  backed = λ q. omega (arith, h.moves.reserved q, h.grows.sum q, c.backed q);
  unique = unique;
}
