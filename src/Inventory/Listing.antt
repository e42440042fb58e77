-- ===== src/Inventory/Listing.antt =====
-- `ListReservationsByOrderID` lists each reservation of the order once.
use event_driven_ecommerce.Base.{
  String, eq_iff, ◌≡◌, refl, Bool, none, some, List, [], ◌∷◌, All, if◌then◌else◌, arith,
}
use event_driven_ecommerce.Inventory.Domain.{InventoryReservation}
use event_driven_ecommerce.Inventory.Queries.{
  find_reservation, is_for, remove_reservations, reservations_of, insert_by_product,
  sort_by_product,
}
use event_driven_ecommerce.Inventory.Quantities.{
  quantity_in, committed, Unique, find_reservation-remove_reservations,
}

-- `r` is a reservation of `o` as the table `rs` has it.
abbrev pub IsOf : String → List InventoryReservation → InventoryReservation → Type 0
IsOf o rs r = (r.order_id ≡ o) × (find_reservation r.product_id o rs ≡ some r)

module _ (before : String → String → Bool) (t : InventoryReservation) where
  find_reservation-insert_by_product :
      (ts : List InventoryReservation) (p o : String)
      → find_reservation t.product_id t.order_id ts ≡ none
      → find_reservation p o (insert_by_product before t ts)
        ≡ (if is_for p o t then some t else find_reservation p o ts)
  unfolding find_reservation insert_by_product
  find_reservation-insert_by_product [] p o h = refl
  find_reservation-insert_by_product (r ∷ ts) p o h = ground (
    arith,
    eq_iff t.product_id p,
    eq_iff t.order_id o,
    eq_iff r.product_id p,
    eq_iff r.order_id o,
    eq_iff r.product_id t.product_id,
    eq_iff r.order_id t.order_id,
    find_reservation-insert_by_product ts p o,
  )

  Unique-insert_by_product :
      (ts : List InventoryReservation)
      → find_reservation t.product_id t.order_id ts ≡ none
      → Unique ts
      → Unique (insert_by_product before t ts)
  unfolding find_reservation insert_by_product
  Unique-insert_by_product [] h u = (refl, tt)
  Unique-insert_by_product (r ∷ ts) h u = ground (
    arith,
    eq_iff r.product_id t.product_id,
    eq_iff r.order_id t.order_id,
    eq_iff t.product_id r.product_id,
    eq_iff t.order_id r.order_id,
    find_reservation-insert_by_product ts r.product_id r.order_id,
    Unique-insert_by_product ts,
  )

  committed-insert_by_product :
      (ts : List InventoryReservation) (q : String)
      → committed q (insert_by_product before t ts) ≡ committed q (t ∷ ts)
  unfolding committed insert_by_product
  committed-insert_by_product [] q = refl
  committed-insert_by_product (r ∷ ts) q = ground (arith, committed-insert_by_product ts q)

  All-insert_by_product :
      (P : InventoryReservation → Type 0) (ts : List InventoryReservation)
      → P t
      → All P ts
      → All P (insert_by_product before t ts)
  unfolding insert_by_product
  All-insert_by_product P [] h a = (h, tt)
  All-insert_by_product P (r ∷ ts) h a = ground (arith, All-insert_by_product P ts h a.1)

module _ (before : String → String → Bool) where
  find_reservation-sort_by_product :
      (ts : List InventoryReservation) (p o : String)
      → Unique ts
      → find_reservation p o (sort_by_product before ts) ≡ find_reservation p o ts
  unfolding find_reservation sort_by_product
  find_reservation-sort_by_product [] p o u = refl
  find_reservation-sort_by_product (r ∷ ts) p o u = ground (
    arith,
    find_reservation-sort_by_product ts r.product_id r.order_id u.1,
    find_reservation-sort_by_product ts p o u.1,
    find_reservation-insert_by_product before r (sort_by_product before ts) p o,
  )

  pub Unique-sort_by_product :
      (ts : List InventoryReservation) → Unique ts → Unique (sort_by_product before ts)
  unfolding sort_by_product
  Unique-sort_by_product [] u = tt
  Unique-sort_by_product (r ∷ ts) u =
      Unique-insert_by_product before r (sort_by_product before ts)
        (rw (find_reservation-sort_by_product ts r.product_id r.order_id u.1) u.0)
        (Unique-sort_by_product ts u.1)

  pub committed-sort_by_product :
      (ts : List InventoryReservation) (q : String)
      → committed q (sort_by_product before ts) ≡ committed q ts
  unfolding committed sort_by_product
  committed-sort_by_product [] q = refl
  committed-sort_by_product (r ∷ ts) q = omega (
    arith,
    committed-insert_by_product before r (sort_by_product before ts) q,
    committed-sort_by_product ts q,
  )

  pub All-sort_by_product :
      (P : InventoryReservation → Type 0) (ts : List InventoryReservation)
      → All P ts
      → All P (sort_by_product before ts)
  unfolding sort_by_product
  All-sort_by_product P [] a = tt
  All-sort_by_product P (r ∷ ts) a =
      All-insert_by_product before r P (sort_by_product before ts) a.0
        (All-sort_by_product P ts a.1)

module _ (o : String) where
  find_reservation-reservations_of :
      (rs : List InventoryReservation) (p : String)
      → find_reservation p o (reservations_of o rs) ≡ find_reservation p o rs
  unfolding find_reservation reservations_of
  find_reservation-reservations_of [] p = refl
  find_reservation-reservations_of (r ∷ rs) p =
      ground (arith, eq_iff r.order_id o, find_reservation-reservations_of rs p)

  pub committed-reservations_of :
      (rs : List InventoryReservation) (q : String)
      → Unique rs
      → committed q (reservations_of o rs) ≡ quantity_in (find_reservation q o rs)
  unfolding committed find_reservation reservations_of
  committed-reservations_of [] q u = refl
  committed-reservations_of (r ∷ rs) q u =
      ground (arith, eq_iff r.order_id o, eq_iff r.product_id q, committed-reservations_of rs q u.1)

  pub Unique-reservations_of :
      (rs : List InventoryReservation) → Unique rs → Unique (reservations_of o rs)
  unfolding find_reservation reservations_of
  Unique-reservations_of [] u = tt
  Unique-reservations_of (r ∷ rs) u = ground (
    arith,
    eq_iff r.order_id o,
    find_reservation-reservations_of rs r.product_id,
    Unique-reservations_of rs u.1,
  )

  -- What the rest of the table holds, the whole table holds.
  IsOf-later :
      (r t : InventoryReservation) (rs : List InventoryReservation)
      → find_reservation r.product_id r.order_id rs ≡ none
      → IsOf o rs t
      → IsOf o (r ∷ rs) t
  unfolding find_reservation
  IsOf-later r t rs fresh h =
      (h.0, ground (arith, eq_iff r.product_id t.product_id, eq_iff r.order_id o))

  All-IsOf-later :
      (r : InventoryReservation) (rs ts : List InventoryReservation)
      → find_reservation r.product_id r.order_id rs ≡ none
      → All (IsOf o rs) ts
      → All (IsOf o (r ∷ rs)) ts
  All-IsOf-later r rs [] fresh a = tt
  All-IsOf-later r rs (t ∷ ts) fresh a =
      (IsOf-later r t rs fresh a.0, All-IsOf-later r rs ts fresh a.1)

  pub All-reservations_of :
      (rs : List InventoryReservation) → Unique rs → All (IsOf o rs) (reservations_of o rs)
  unfolding find_reservation reservations_of
  All-reservations_of [] u = tt
  All-reservations_of (r ∷ rs) u =
      let later = All-IsOf-later r rs (reservations_of o rs) u.0 (All-reservations_of rs u.1) in
      ground (arith, eq_iff r.order_id o, eq_iff r.product_id r.product_id, later)

  -- Once `r` is removed, the others are still there.
  pub All-IsOf-remove_reservations :
      (r : InventoryReservation) (rs ts : List InventoryReservation)
      → r.order_id ≡ o
      → find_reservation r.product_id r.order_id ts ≡ none
      → All (IsOf o rs) ts
      → All (IsOf o (remove_reservations r.product_id r.order_id rs)) ts
  unfolding find_reservation
  All-IsOf-remove_reservations r rs [] of fresh a = tt
  All-IsOf-remove_reservations r rs (t ∷ ts) of fresh a = ground (
    arith,
    eq_iff t.product_id r.product_id,
    eq_iff r.product_id t.product_id,
    eq_iff t.order_id r.order_id,
    eq_iff r.order_id o,
    find_reservation-remove_reservations r.product_id r.order_id rs t.product_id o,
    All-IsOf-remove_reservations r rs ts of,
  )
