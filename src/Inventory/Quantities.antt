-- ===== src/Inventory/Quantities.antt =====
-- What the tables of the inventory say of each product and order, in numbers: the abstract view
-- on which the reservations are specified.
use event_driven_ecommerce.Base.{
  ℕ, ◌+◌, String, str_eq, eq_iff, ◌≡◌, refl, ◌&&◌, Bool, true, false, Option, none, some, List, [],
  ◌∷◌, if◌then◌else◌, arith,
}
use event_driven_ecommerce.Inventory.Domain.{InventoryStock, InventoryReservation}
use event_driven_ecommerce.Inventory.Queries.{
  find_stock, replace_stock, is_for, find_reservation, replace_reservation, remove_reservations,
}

abbrev pub available_in : Option InventoryStock → ℕ
available_in none = 0
available_in (some s) = s.available_quantity

abbrev pub reserved_in : Option InventoryStock → ℕ
reserved_in none = 0
reserved_in (some s) = s.reserved_quantity

abbrev pub total_in : Option InventoryStock → ℕ
total_in none = 0
total_in (some s) = s.total_quantity

abbrev pub quantity_in : Option InventoryReservation → ℕ
quantity_in none = 0
quantity_in (some r) = r.quantity

abbrev pub is_some {ℓ} : {A : Type ℓ} → Option A → Bool
is_some none = false
is_some (some a) = true

-- The quantities of all reservations of a product, added up.
unfoldable pub committed : String → List InventoryReservation → ℕ
committed p [] = 0
committed p (r ∷ rs) = (if str_eq r.product_id p then r.quantity else 0) + committed p rs

-- No two reservations have one key.
abbrev pub Unique : List InventoryReservation → Type 0
Unique [] = Unit
Unique (r ∷ rs) = (find_reservation r.product_id r.order_id rs ≡ none) × Unique rs

pub find_stock-replace_stock :
    (t : InventoryStock) (ss : List InventoryStock) (q : String) (found : InventoryStock)
    → find_stock t.product_id ss ≡ some found
    → find_stock q (replace_stock t ss)
      ≡ (if str_eq t.product_id q then some t else find_stock q ss)
unfolding find_stock replace_stock
find_stock-replace_stock t [] q found h = ground arith
find_stock-replace_stock t (s ∷ ss) q found h = ground (
  arith,
  eq_iff s.product_id t.product_id,
  eq_iff s.product_id q,
  eq_iff t.product_id q,
  find_stock-replace_stock t ss q found,
)

-- What is found under a key has that key.
pub find_stock-product_id :
    (p : String) (ss : List InventoryStock) (found : InventoryStock)
    → find_stock p ss ≡ some found
    → found.product_id ≡ p
unfolding find_stock
find_stock-product_id p [] found h = ground arith
find_stock-product_id p (s ∷ ss) found h =
    ground (arith, eq_iff s.product_id p, find_stock-product_id p ss found)

pub find_reservation-key :
    (p o : String) (rs : List InventoryReservation) (found : InventoryReservation)
    → find_reservation p o rs ≡ some found
    → (found.product_id ≡ p) × (found.order_id ≡ o)
unfolding find_reservation
find_reservation-key p o [] found h = ground arith
find_reservation-key p o (r ∷ rs) found h =
    ground (arith, eq_iff r.product_id p, eq_iff r.order_id o, find_reservation-key p o rs found)

module _ (t : InventoryReservation) where
  pub find_reservation-replace_reservation :
      (rs : List InventoryReservation) (q u : String) (found : InventoryReservation)
      → find_reservation t.product_id t.order_id rs ≡ some found
      → find_reservation q u (replace_reservation t rs)
        ≡ (if is_for q u t then some t else find_reservation q u rs)
  unfolding find_reservation replace_reservation
  find_reservation-replace_reservation [] q u found h = ground arith
  find_reservation-replace_reservation (r ∷ rs) q u found h = ground (
    arith,
    eq_iff r.product_id t.product_id,
    eq_iff r.order_id t.order_id,
    eq_iff r.product_id q,
    eq_iff r.order_id u,
    eq_iff t.product_id q,
    eq_iff t.order_id u,
    find_reservation-replace_reservation rs q u found,
  )

  pub committed-replace_reservation :
      (rs : List InventoryReservation) (q : String) (found : InventoryReservation)
      → find_reservation t.product_id t.order_id rs ≡ some found
      → committed q (replace_reservation t rs)
          + (if str_eq t.product_id q then found.quantity else 0)
        ≡ committed q rs + (if str_eq t.product_id q then t.quantity else 0)
  unfolding find_reservation replace_reservation committed
  committed-replace_reservation [] q found h = ground arith
  committed-replace_reservation (r ∷ rs) q found h = ground (
    arith,
    eq_iff r.product_id t.product_id,
    eq_iff r.order_id t.order_id,
    eq_iff r.product_id q,
    eq_iff t.product_id q,
    committed-replace_reservation rs q found,
  )

  pub Unique-replace_reservation :
      (rs : List InventoryReservation) (found : InventoryReservation)
      → find_reservation t.product_id t.order_id rs ≡ some found
      → Unique rs
      → Unique (replace_reservation t rs)
  unfolding find_reservation replace_reservation
  Unique-replace_reservation [] found h d = tt
  Unique-replace_reservation (r ∷ rs) found h d = ground (
    arith,
    eq_iff r.product_id t.product_id,
    eq_iff r.order_id t.order_id,
    eq_iff t.product_id r.product_id,
    eq_iff t.order_id r.order_id,
    find_reservation-replace_reservation rs r.product_id r.order_id found,
    Unique-replace_reservation rs found,
  )

module _ (p o : String) where
  pub find_reservation-remove_reservations :
      (rs : List InventoryReservation) (q u : String)
      → find_reservation q u (remove_reservations p o rs)
        ≡ (if str_eq p q && str_eq o u then none else find_reservation q u rs)
  unfolding find_reservation remove_reservations
  find_reservation-remove_reservations [] q u = ground arith
  find_reservation-remove_reservations (r ∷ rs) q u = ground (
    arith,
    eq_iff r.product_id p,
    eq_iff r.order_id o,
    eq_iff r.product_id q,
    eq_iff r.order_id u,
    eq_iff p q,
    eq_iff o u,
    find_reservation-remove_reservations rs q u,
  )

  -- Nothing is removed where the key is not there.
  pub remove_reservations_missing :
      (rs : List InventoryReservation)
      → find_reservation p o rs ≡ none
      → remove_reservations p o rs ≡ rs
  unfolding find_reservation remove_reservations
  remove_reservations_missing [] h = refl
  remove_reservations_missing (r ∷ rs) h = ground (arith, remove_reservations_missing rs)

  pub committed-remove_reservations :
      (rs : List InventoryReservation) (q : String) (found : InventoryReservation)
      → Unique rs
      → find_reservation p o rs ≡ some found
      → committed q (remove_reservations p o rs) + (if str_eq p q then found.quantity else 0)
        ≡ committed q rs
  unfolding find_reservation remove_reservations committed
  committed-remove_reservations [] q found d h = ground arith
  committed-remove_reservations (r ∷ rs) q found d h = ground (
    arith,
    eq_iff r.product_id p,
    eq_iff r.order_id o,
    eq_iff r.product_id q,
    eq_iff p q,
    remove_reservations_missing rs,
    committed-remove_reservations rs q found,
  )

  pub Unique-remove_reservations :
      (rs : List InventoryReservation) → Unique rs → Unique (remove_reservations p o rs)
  unfolding find_reservation remove_reservations
  Unique-remove_reservations [] d = tt
  Unique-remove_reservations (r ∷ rs) d = ground (
    arith,
    find_reservation-remove_reservations rs r.product_id r.order_id,
    Unique-remove_reservations rs d.1,
  )
