-- ===== src/Inventory/Releasing.antt =====
-- `ReleaseReservationsByOrderID` gives back all that an order holds.
use event_driven_ecommerce.Base.{
  ℕ, String, ◌≡◌, some, List, [], ◌∷◌, All, arith, trim_space, ok, Ensures, read-Ensures,
  step-Ensures, clock-Ensures, pure-Ensures, >>=-Ensures, Ensures_mono, subst, sym, fun_ext, ◌∙◌,
  eq_iff, called-Ensures, Settles, guard-Settles, mapped-Settles, transaction-Settles,
}
use event_driven_ecommerce.Inventory.Domain.{InventoryReservation, InventoryDb}
use event_driven_ecommerce.Inventory.Queries
use event_driven_ecommerce.Inventory.Queries.{
  find_reservation, reservations_of, sort_by_product, remove_reservations,
  list_reservations_by_order_id, delete_inventory_reservation,
}
use event_driven_ecommerce.Inventory.Repository
use event_driven_ecommerce.Inventory.Repository.{
  release_reservation, release_each, release_found, release_all_body,
}
use event_driven_ecommerce.Inventory.Service
use event_driven_ecommerce.Inventory.Quantities.{quantity_in, committed, Unique}
use event_driven_ecommerce.Inventory.Moves.{units}
use event_driven_ecommerce.Inventory.Moves.Stocks.{release-StockMoves}
use event_driven_ecommerce.Inventory.Moves.Reservations.{delete-ReservationGrows}
use event_driven_ecommerce.Inventory.Reserving.{Holds, Consistent, Holds-Consistent_back}
use event_driven_ecommerce.Inventory.Shifts.{Shift, Holds-Shift, Shift-none, Shift-trans}
use event_driven_ecommerce.Inventory.Listing.{
  IsOf, Unique-sort_by_product, committed-sort_by_product, All-sort_by_product,
  committed-reservations_of, Unique-reservations_of, All-reservations_of,
  All-IsOf-remove_reservations,
}

-- One round has given back the reservation `r` and removed it.
record RoundDone (r : InventoryReservation) (d : InventoryDb) (d' : InventoryDb) : Type 0 where
  held : Holds r.product_id r.order_id r.quantity d' d
  consistent : Consistent d'
  removed : d'.reservations ≡ remove_reservations r.product_id r.order_id d.reservations

delete_rows :
    (p o : String) (d d' : InventoryDb) (x : Unit {0})
    → delete_inventory_reservation p o d ≡ ok (x, d')
    → d'.reservations ≡ remove_reservations p o d.reservations
unfolding delete_inventory_reservation
delete_rows p o d d' x e = ground arith

release_reservation-Ensures :
    (at : ℕ) (r : InventoryReservation) (d : InventoryDb)
    → Consistent d
    → find_reservation r.product_id r.order_id d.reservations ≡ some r
    → Ensures d (release_reservation at r) (λ _ d'. RoundDone r d d')
unfolding release_reservation Queries.get_stock_by_product_id
release_reservation-Ensures at r d c found =
    read-Ensures d _ _ _ _ (λ s d' e. ground arith)
      λ s e. step-Ensures d _ _ _ _ λ row d₁ e₁.
        let (moves, now_row, same) = release-StockMoves _ _ at d row d₁ e₁ in
        called-Ensures _ _ d₁ _ λ x d₂ e₂.
          let (grows, left) =
            delete-ReservationGrows _ _ d₁ d₂ (rw same c.unique) r (rw same found) e₂ in
          let held : Holds r.product_id r.order_id r.quantity d₂ d = record {
            moves = rw left.stocks moves;
            grows = rw same at grows;
          } in
          record {
            held = held;
            consistent = Holds-Consistent_back _ _ _ d d₂ held left.unique c;
            removed = rw same at (delete_rows _ _ d₁ d₂ x e₂);
          }

-- All of the list `rs` has been given back.
record AllDone (o : String) (rs : List InventoryReservation) (d d' : InventoryDb) : Type 0 where
  shift : Shift o (λ q. committed q rs) d' d
  consistent : Consistent d'

module _ (o : String) (at : ℕ) where
  release_each-Ensures :
      (rs : List InventoryReservation) (d : InventoryDb)
      → Consistent d
      → Unique rs
      → All (IsOf o d.reservations) rs
      → Ensures d (release_each at rs) (λ _ d'. AllDone o rs d d')
  unfolding release_each committed
  release_each-Ensures [] d c u a =
      pure-Ensures tt d _ (record { shift = Shift-none o d; consistent = c })
  release_each-Ensures (r ∷ rs) d c u a =
      let found =
        subst (λ x. find_reservation r.product_id x d.reservations ≡ some r) (sym a.0.0) a.0.1 in
      >>=-Ensures _ _ d (λ _ d'. RoundDone r d d') _ (release_reservation-Ensures at r d c found)
        λ _ d₁ round.
          let others : All (IsOf o d₁.reservations) rs =
            rw round.removed (All-IsOf-remove_reservations o r d.reservations rs a.0.0 u.0 a.1) in
          let back : Shift o (λ q. units r.product_id q r.quantity) d₁ d =
            subst (λ x. Shift x (λ q. units r.product_id q r.quantity) d₁ d) a.0.0
              (Holds-Shift _ _ _ d₁ d round.held) in
          Ensures_mono d₁ _ _ _ (release_each-Ensures rs d₁ round.consistent u.1 others)
            λ _ d₂ rest. record {
              shift = Shift-trans o _ _ _ d₂ d₁ d (λ q. omega arith) rest.shift back;
              consistent = rest.consistent;
            }

-- Every unit that the order held is available again, the order holds nothing, no other order is
-- touched, and the inventory is consistent.
pub record OrderReleased (o : String) (d d' : InventoryDb) : Type 0 where
  pub shift : Shift o (λ q. quantity_in (find_reservation q o d.reservations)) d' d
  pub emptied : (q : String) → quantity_in (find_reservation q o d'.reservations) ≡ 0
  pub consistent : Consistent d'

release_found-Ensures :
    (o : String) (rs : List InventoryReservation) (d : InventoryDb)
    → Consistent d
    → Unique rs
    → All (IsOf o d.reservations) rs
    → Ensures d (release_found rs) (λ _ d'. AllDone o rs d d')
unfolding release_found committed
release_found-Ensures o [] d c u a =
    pure-Ensures _ d _ (record { shift = Shift-none o d; consistent = c })
release_found-Ensures o (r ∷ rs) d c u a = clock-Ensures d _ _ λ at.
    >>=-Ensures _ _ d _ _ (release_each-Ensures o at (r ∷ rs) d c u a)
      λ _ d' done. pure-Ensures _ d' _ done

listed_rows :
    (o : String) (d d' : InventoryDb) (rs : List InventoryReservation)
    → list_reservations_by_order_id o d ≡ ok (rs, d')
    → (rs ≡ sort_by_product d.collates (reservations_of o d.reservations)) × (d' ≡ d)
unfolding list_reservations_by_order_id
listed_rows o d d' rs e = (ground arith, ground arith)

AllDone-OrderReleased :
    (o : String) (rs : List InventoryReservation) (d d' : InventoryDb)
    → ((q : String) → committed q rs ≡ quantity_in (find_reservation q o d.reservations))
    → AllDone o rs d d'
    → OrderReleased o d d'
AllDone-OrderReleased o rs d d' sum done = record {
  shift = subst (λ f. Shift o f d' d) (fun_ext sum) done.shift;
  emptied = λ q. ground (arith, done.shift.held q o, sum q, eq_iff o o);
  consistent = done.consistent;
}

module _ (o : String) (d : InventoryDb) (c : Consistent d) where
  release_all_body-Ensures : Ensures d (release_all_body o) (λ _ d'. OrderReleased o d d')
  unfolding release_all_body
  release_all_body-Ensures =
      read-Ensures d _ _ _ _ (λ rs d' e. (listed_rows o d d' rs e).1)
        λ rs e.
          let of : List InventoryReservation = reservations_of o d.reservations in
          let is_sorted : rs ≡ sort_by_product d.collates of = (listed_rows o d d rs e).0 in
          let distinct =
            Unique-sort_by_product d.collates of
              (Unique-reservations_of o d.reservations c.unique) in
          let theirs =
            All-sort_by_product d.collates (IsOf o d.reservations) of
              (All-reservations_of o d.reservations c.unique) in
          Ensures_mono d _ _ _
            (release_found-Ensures o rs d c (rw is_sorted distinct) (rw is_sorted theirs))
            λ _ d' done.
              AllDone-OrderReleased o rs d d'
                (λ q. rw is_sorted (
                  committed-sort_by_product d.collates of q
                  ∙ committed-reservations_of o d.reservations q c.unique))
                done

  pub release_order-Settles :
      (x : String)
      → trim_space x ≡ o
      → Settles d (Service.release_reservations_by_order_id x) (λ _ d'. OrderReleased o d d')
  unfolding Service.release_reservations_by_order_id Repository.release_reservations_by_order_id
  release_order-Settles x e = guard-Settles d _ _ _ _ λ _. guard-Settles d _ _ _ _ λ _.
      mapped-Settles d _ _ (λ _ d'. OrderReleased o d d') _
        (transaction-Settles d _ _ _ _ (rw e release_all_body-Ensures)) λ _ d' done. done
