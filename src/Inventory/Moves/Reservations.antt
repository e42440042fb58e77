-- ===== src/Inventory/Moves/Reservations.antt =====
-- The statements on inventory_reservations change what one order holds of one product by the
-- quantity they are given, and keep the keys distinct.
use event_driven_ecommerce.Base.{
  ℕ, ◌+◌, ◌-◌, ◌≤◌, String, eq_iff, ◌≡◌, refl, none, some, List, ◌∷◌, arith, ok, Option-cases, inl,
  inr,
}
use event_driven_ecommerce.Inventory.Domain.{InventoryReservation, InventoryDb}
use event_driven_ecommerce.Inventory.Queries.{
  find_reservation, is_for, upsert_inventory_reservation, update_inventory_reservation_quantity,
  delete_inventory_reservation, replace_reservation, remove_reservations,
}
use event_driven_ecommerce.Inventory.Quantities.{
  committed, Unique, find_reservation-key, find_reservation-replace_reservation,
  committed-replace_reservation, Unique-replace_reservation, find_reservation-remove_reservations,
  committed-remove_reservations, Unique-remove_reservations,
}
use event_driven_ecommerce.Inventory.Moves.{ReservationGrows, LeavesStocks}

module _ (p o : String) (rs : List InventoryReservation) where
  replace_grows :
      (n : ℕ) (r t : InventoryReservation)
      → find_reservation p o rs ≡ some r
      → t.product_id ≡ r.product_id
      → t.order_id ≡ r.order_id
      → t.quantity ≡ r.quantity + n
      → ReservationGrows p o n rs (replace_reservation t rs)
  unfolding is_for
  replace_grows n r t found same_p same_o more =
      let key = find_reservation-key p o rs r found in
      let there : find_reservation t.product_id t.order_id rs ≡ some r = cc in
      record {
        held = λ q u. ground (
          arith,
          find_reservation-replace_reservation t rs q u r there,
          eq_iff t.product_id q,
          eq_iff p q,
          eq_iff t.order_id u,
          eq_iff o u,
          found,
        );
        sum = λ q. ground (
          arith,
          committed-replace_reservation t rs q r there,
          eq_iff t.product_id q,
          eq_iff p q,
        );
      }

  replace_shrinks :
      (n : ℕ) (r t : InventoryReservation)
      → find_reservation p o rs ≡ some r
      → t.product_id ≡ r.product_id
      → t.order_id ≡ r.order_id
      → r.quantity ≡ t.quantity + n
      → ReservationGrows p o n (replace_reservation t rs) rs
  unfolding is_for
  replace_shrinks n r t found same_p same_o less =
      let key = find_reservation-key p o rs r found in
      let there : find_reservation t.product_id t.order_id rs ≡ some r = cc in
      record {
        held = λ q u. ground (
          arith,
          find_reservation-replace_reservation t rs q u r there,
          eq_iff t.product_id q,
          eq_iff p q,
          eq_iff t.order_id u,
          eq_iff o u,
          found,
        );
        sum = λ q. ground (
          arith,
          committed-replace_reservation t rs q r there,
          eq_iff t.product_id q,
          eq_iff p q,
        );
      }

  remove_shrinks :
      (r : InventoryReservation)
      → Unique rs
      → find_reservation p o rs ≡ some r
      → ReservationGrows p o r.quantity (remove_reservations p o rs) rs
  remove_shrinks r unique found = record {
    held = λ q u.
        ground
          (arith, find_reservation-remove_reservations p o rs q u, eq_iff p q, eq_iff o u, found);
    sum = λ q. ground (arith, committed-remove_reservations p o rs q r unique found, eq_iff p q);
  }

  insert_grows :
      (t : InventoryReservation)
      → find_reservation p o rs ≡ none
      → t.product_id ≡ p
      → t.order_id ≡ o
      → ReservationGrows p o t.quantity rs (t ∷ rs)
  unfolding find_reservation committed
  insert_grows t missing is_p is_o = record {
    held = λ q u.
        ground (arith, eq_iff p q, eq_iff o u, eq_iff t.product_id q, eq_iff t.order_id u, missing);
    sum = λ q. ground (arith, eq_iff p q, eq_iff t.product_id q);
  }

module _ (p o : String) (n at : ℕ) (d d' : InventoryDb) (unique : Unique d.reservations) where
  pub upsert-ReservationGrows :
      upsert_inventory_reservation p o n at d ≡ ok (tt, d')
      → ReservationGrows p o n d.reservations d'.reservations × LeavesStocks d d'
  unfolding upsert_inventory_reservation
  upsert-ReservationGrows e = elim (Option-cases (find_reservation p o d.reservations)) [
    | inl missing ↦
        let t : InventoryReservation = record {
          product_id = p;
          order_id = o;
          quantity = n;
          created_at = at;
          updated_at = at;
        } in
        let grown : d'.reservations ≡ t ∷ d.reservations = ground arith in
        (
          rw grown (insert_grows p o d.reservations t missing refl refl),
          record { stocks = ground arith; unique = rw grown (missing, unique) },
        )
    | inr (r, found) ↦
        let t : InventoryReservation = record r { quantity = r.quantity + n; updated_at = at } in
        let key = find_reservation-key p o d.reservations r found in
        let grown : d'.reservations ≡ replace_reservation t d.reservations = ground arith in
        let there : find_reservation r.product_id r.order_id d.reservations ≡ some r = cc in
        (
          rw grown (replace_grows p o d.reservations n r t found refl refl refl),
          record {
            stocks = ground arith;
            unique = rw grown (Unique-replace_reservation t d.reservations r there unique);
          },
        )
  ]

-- What `ReleaseStock` and `ReleaseReservationsByOrderID` do to a reservation `r` that they found.
module _ (p o : String) (d d' : InventoryDb) (unique : Unique d.reservations)
    (r : InventoryReservation) (found : find_reservation p o d.reservations ≡ some r) where
  pub delete-ReservationGrows :
      delete_inventory_reservation p o d ≡ ok (tt, d')
      → ReservationGrows p o r.quantity d'.reservations d.reservations × LeavesStocks d d'
  unfolding delete_inventory_reservation
  delete-ReservationGrows e =
      let gone : d'.reservations ≡ remove_reservations p o d.reservations = ground arith in
      (
        rw gone (remove_shrinks p o d.reservations r unique found),
        record {
          stocks = ground arith;
          unique = rw gone (Unique-remove_reservations p o d.reservations unique);
        },
      )

  pub update-ReservationGrows :
      (n at : ℕ)
      → n ≤ r.quantity
      → update_inventory_reservation_quantity p o (r.quantity - n) at d ≡ ok (tt, d')
      → ReservationGrows p o n d'.reservations d.reservations × LeavesStocks d d'
  unfolding update_inventory_reservation_quantity
  update-ReservationGrows n at enough e =
      let t : InventoryReservation = record r { quantity = r.quantity - n; updated_at = at } in
      let key = find_reservation-key p o d.reservations r found in
      let less : d'.reservations ≡ replace_reservation t d.reservations = ground arith in
      let there : find_reservation r.product_id r.order_id d.reservations ≡ some r = cc in
      (
        rw less (replace_shrinks p o d.reservations n r t found refl refl (omega arith)),
        record {
          stocks = ground arith;
          unique = rw less (Unique-replace_reservation t d.reservations r there unique);
        },
      )
