-- ===== src/Inventory/Moves/Stocks.antt =====
-- The statements on inventory_stocks move units between available and reserved, and no others.
use event_driven_ecommerce.Base.{
  ℕ, ◌+◌, ◌≤◌, String, str_eq, eq_iff, eq_refl, ◌≡◌, ◌∙◌, sym, subst, some, List, if◌then◌else◌,
  arith, ok, Option-cases, inl, inr,
}
use event_driven_ecommerce.Inventory.Domain.{InventoryStock, InventoryDb}
use event_driven_ecommerce.Inventory.Queries.{
  find_stock, replace_stock, reserve_inventory_stock, release_inventory_stock, reserved_row,
  released_row,
}
use event_driven_ecommerce.Inventory.Quantities.{find_stock-replace_stock, find_stock-product_id}
use event_driven_ecommerce.Inventory.Moves.{StockMoves}

-- A row of `p` is replaced by one with `n` units moved, or by one with them moved back.
module _ (p : String) (n : ℕ) (ss : List InventoryStock) (s t : InventoryStock)
    (found : find_stock p ss ≡ some s) (same_key : t.product_id ≡ s.product_id)
    (same_total : t.total_quantity ≡ s.total_quantity) where
  replaced :
      (q : String)
      → find_stock q (replace_stock t ss) ≡ (if str_eq p q then some t else find_stock q ss)
  replaced q =
      let key : t.product_id ≡ p = same_key ∙ find_stock-product_id p ss s found in
      let there = subst (λ x. find_stock x ss ≡ some s) (sym key) found in
      subst
        (λ x. find_stock q (replace_stock t ss) ≡ (if str_eq x q then some t else find_stock q ss))
        key (find_stock-replace_stock t ss q s there)

  moved_out :
      s.available_quantity ≡ t.available_quantity + n
      → t.reserved_quantity ≡ s.reserved_quantity + n
      → StockMoves p n ss (replace_stock t ss)
  moved_out a r = record {
    listed = λ q. ground (arith, replaced q, eq_iff p q);
    available = λ q. ground (arith, replaced q, eq_iff p q);
    reserved = λ q. ground (arith, replaced q, eq_iff p q);
    total = λ q. ground (arith, replaced q, eq_iff p q);
  }

  moved_back :
      t.available_quantity ≡ s.available_quantity + n
      → s.reserved_quantity ≡ t.reserved_quantity + n
      → StockMoves p n (replace_stock t ss) ss
  moved_back a r = record {
    listed = λ q. ground (arith, replaced q, eq_iff p q);
    available = λ q. ground (arith, replaced q, eq_iff p q);
    reserved = λ q. ground (arith, replaced q, eq_iff p q);
    total = λ q. ground (arith, replaced q, eq_iff p q);
  }

module _ (p : String) (n at : ℕ) (d : InventoryDb) (row : InventoryStock) (d' : InventoryDb) where
  reserve_row :
      reserve_inventory_stock p n at d ≡ ok (row, d')
      → (s : InventoryStock) × (find_stock p d.stocks ≡ some s)
        × (n ≤ s.available_quantity)
        × (row ≡ reserved_row n at s)
        × (d'.stocks ≡ replace_stock row d.stocks)
        × (d'.reservations ≡ d.reservations)
  unfolding reserve_inventory_stock
  reserve_row e = elim (Option-cases (find_stock p d.stocks)) [
    | inl missing ↦ absurd (ground arith)
    | inr (s, found) ↦ (s, found, ground arith, ground arith, ground arith, ground arith)
  ]

  pub reserve-StockMoves :
      reserve_inventory_stock p n at d ≡ ok (row, d')
      → StockMoves p n d.stocks d'.stocks
        × (find_stock p d'.stocks ≡ some row)
        × (d'.reservations ≡ d.reservations)
  unfolding reserved_row
  reserve-StockMoves e =
      let (s, found, enough, is_row, stocks, rest) = reserve_row e in
      let key : row.product_id ≡ s.product_id = ground arith in
      (
        rw stocks
            (moved_out p n d.stocks s row found key (ground arith) (ground arith) (ground arith)),
        rw stocks
            (ground (arith, replaced p n d.stocks s row found key (ground arith) p, eq_refl p)),
        rest,
      )

  release_row :
      release_inventory_stock p n at d ≡ ok (row, d')
      → (s : InventoryStock) × (find_stock p d.stocks ≡ some s)
        × (n ≤ s.reserved_quantity)
        × (row ≡ released_row n at s)
        × (d'.stocks ≡ replace_stock row d.stocks)
        × (d'.reservations ≡ d.reservations)
  unfolding release_inventory_stock
  release_row e = elim (Option-cases (find_stock p d.stocks)) [
    | inl missing ↦ absurd (ground arith)
    | inr (s, found) ↦ (s, found, ground arith, ground arith, ground arith, ground arith)
  ]

  pub release-StockMoves :
      release_inventory_stock p n at d ≡ ok (row, d')
      → StockMoves p n d'.stocks d.stocks
        × (find_stock p d'.stocks ≡ some row)
        × (d'.reservations ≡ d.reservations)
  unfolding released_row
  release-StockMoves e =
      let (s, found, enough, is_row, stocks, rest) = release_row e in
      let key : row.product_id ≡ s.product_id = ground arith in
      (
        rw stocks
            (moved_back p n d.stocks s row found key (ground arith) (ground arith) (ground arith)),
        rw stocks
            (ground (arith, replaced p n d.stocks s row found key (ground arith) p, eq_refl p)),
        rest,
      )
