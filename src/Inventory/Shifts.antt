-- ===== src/Inventory/Shifts.antt =====
-- Several reservations for one order, added up.
use event_driven_ecommerce.Base.{
  ℕ, ◌+◌, String, str_eq, ◌≡◌, List, [], ◌∷◌, if◌then◌else◌, pos_part, arith,
}
use event_driven_ecommerce.Events.{OrderCreatedItem, InventoryReservationItem}
use event_driven_ecommerce.Inventory.Domain.{InventoryDb}
use event_driven_ecommerce.Inventory.Queries.{find_stock, find_reservation}
use event_driven_ecommerce.Inventory.Quantities.{
  available_in, reserved_in, total_in, quantity_in, is_some,
}
use event_driven_ecommerce.Inventory.Moves.{units, units_for}
use event_driven_ecommerce.Inventory.Reserving.{Holds}

-- `d'` is `d` with `amount q` more units of each product `q` reserved for the order `o`.
pub record Shift (o : String) (amount : String → ℕ) (d d' : InventoryDb) : Type 0 where
  pub listed : (q : String) → is_some (find_stock q d'.stocks) ≡ is_some (find_stock q d.stocks)
  pub available :
      (q : String)
      → available_in (find_stock q d.stocks) ≡ available_in (find_stock q d'.stocks) + amount q
  pub reserved :
      (q : String)
      → reserved_in (find_stock q d'.stocks) ≡ reserved_in (find_stock q d.stocks) + amount q
  pub total : (q : String) → total_in (find_stock q d'.stocks) ≡ total_in (find_stock q d.stocks)
  pub held :
      (q u : String)
      → quantity_in (find_reservation q u d'.reservations)
        ≡ quantity_in (find_reservation q u d.reservations) + (if str_eq o u then amount q else 0)

-- No quantity differs.
abbrev pub SameQuantities : InventoryDb → InventoryDb → Type 0
SameQuantities d d' = Shift "" (λ _. 0) d d'

abbrev pub demand : List InventoryReservationItem → String → ℕ
demand [] q = 0
demand (item ∷ items) q = units item.product_id q (pos_part item.quantity) + demand items q

abbrev pub ordered : List OrderCreatedItem → String → ℕ
ordered [] q = 0
ordered (item ∷ items) q = units item.product_id q (pos_part item.quantity) + ordered items q

units_for_split :
    (p o q u : String) (n : ℕ) → units_for p o q u n ≡ (if str_eq o u then units p q n else 0)
units_for_split p o q u n = ground arith

pub Holds-Shift :
    (p o : String) (n : ℕ) (d d' : InventoryDb) → Holds p o n d d' → Shift o (λ q. units p q n) d d'
Holds-Shift p o n d d' h = record {
  listed = h.moves.listed;
  available = h.moves.available;
  reserved = h.moves.reserved;
  total = h.moves.total;
  held = λ q u. omega (arith, h.grows.held q u, units_for_split p o q u n);
}

pub Shift-none : (o : String) (d : InventoryDb) → Shift o (λ _. 0) d d
Shift-none o d = record {
  listed = λ q. ground arith;
  available = λ q. omega arith;
  reserved = λ q. omega arith;
  total = λ q. ground arith;
  held = λ q u. ground arith;
}

-- The amounts of two shifts add up; `add` is any function that is their sum.
pub Shift-trans :
    (o : String) (f g add : String → ℕ) (d e d' : InventoryDb)
    → ((q : String) → add q ≡ f q + g q)
    → Shift o f d e
    → Shift o g e d'
    → Shift o add d d'
Shift-trans o f g add d e d' sum a b = record {
  listed = λ q. ground (arith, a.listed q, b.listed q);
  available = λ q. omega (arith, a.available q, b.available q, sum q);
  reserved = λ q. omega (arith, a.reserved q, b.reserved q, sum q);
  total = λ q. omega (arith, a.total q, b.total q);
  held = λ q u. ground (arith, a.held q u, b.held q u, sum q);
}

-- A shift undone in part.
pub Shift-undo :
    (o : String) (f g rest : String → ℕ) (d e d' : InventoryDb)
    → ((q : String) → f q ≡ rest q + g q)
    → Shift o f d e
    → Shift o g d' e
    → Shift o rest d d'
Shift-undo o f g rest d e d' sum a b = record {
  listed = λ q. ground (arith, a.listed q, b.listed q);
  available = λ q. omega (arith, a.available q, b.available q, sum q);
  reserved = λ q. omega (arith, a.reserved q, b.reserved q, sum q);
  total = λ q. omega (arith, a.total q, b.total q);
  held = λ q u. ground (arith, a.held q u, b.held q u, sum q);
}

pub Shift-SameQuantities :
    (o : String) (d d' : InventoryDb) → Shift o (λ _. 0) d d' → SameQuantities d d'
Shift-SameQuantities o d d' s = record {
  listed = s.listed;
  available = s.available;
  reserved = s.reserved;
  total = s.total;
  held = λ q u. ground (arith, s.held q u);
}
