-- ===== src/Inventory/Compensation.antt =====
-- `reserveAll` of the order.created consumer reserves every item of an order or, undoing what it
-- had reserved in transactions of its own, none.
use event_driven_ecommerce.Base.{
  ℕ, ◌+◌, ◌≤◌, String, ◌<>◌, ◌≡◌, refl, List, [], ◌∷◌, ◌++◌, map, reverse, reverse_aux,
  reverse_aux-eq, pos_part, arith, Failure, other, Ends, Settles-Ends, pure-Ends, fail-Ends,
  bind-Ends, try-Ends, Ends_mono,
}
use event_driven_ecommerce.Events.{OrderCreated, OrderCreatedItem, InventoryReservationItem}
use event_driven_ecommerce.Inventory.Domain.{StockError, InventoryDb, error_text}
use event_driven_ecommerce.Inventory.Moves.{units}
use event_driven_ecommerce.Inventory.Reserving.{Consistent}
use event_driven_ecommerce.Inventory.Outcomes.{reserve_stock-Settles, release_stock-Settles}
use event_driven_ecommerce.Inventory.Shifts.{
  Shift, SameQuantities, demand, ordered, Holds-Shift, Shift-none, Shift-trans, Shift-undo,
  Shift-SameQuantities,
}
use event_driven_ecommerce.Inventory.Consumers.{
  ReserveAll, reserved, refused, reservation_item, reservation_of, release_one, release_reserved,
  reserve_from, reserve_all,
}

-- What holds where a rollback failed: the error says which product's it was and why, the order is
-- left with some of the units of its items, no other quantity changed, and the inventory is
-- consistent all the same.
pub record RolledBack (o : String) (start : InventoryDb) (all : String → ℕ) (e : Failure StockError)
    (d : InventoryDb) : Type 0 where
  pub product : String
  pub cause : Failure StockError
  pub reported :
      e ≡ other ("rollback reservation for product " <> product <> ": " <> error_text cause)
  pub left : String → ℕ
  pub within : (q : String) → left q ≤ all q
  pub shift : Shift o left start d
  pub consistent : Consistent d

module _ (o : String) (start : InventoryDb) where
  -- `n q` units of each product `q` are reserved since the start.
  record Since (n : String → ℕ) (d : InventoryDb) : Type 0 where
    shift : Shift o n start d
    consistent : Consistent d

  module _ (all : String → ℕ) where
    release_one-Ends :
        (item : InventoryReservationItem) (n : String → ℕ) (d : InventoryDb)
        → ((q : String) → units item.product_id q (pos_part item.quantity) + n q ≤ all q)
        → Since (λ q. units item.product_id q (pos_part item.quantity) + n q) d
        → Ends d (release_one o item) (λ _ d'. Since n d') (RolledBack o start all)
    unfolding release_one
    release_one-Ends item n d fits h =
        try-Ends d _ _ _ _ _ _
          (Settles-Ends d _ _ (release_stock-Settles (reservation_of o item) d h.consistent))
          (λ s d' done. pure-Ends d' tt _ _ (record {
            shift =
                Shift-undo o _ _ n start d d' (λ q. omega arith) h.shift
                  (Holds-Shift _ o _ d' d done.held);
            consistent = done.consistent;
          }))
          (λ e d' same. fail-Ends d' _ _ _ (record {
            product = item.product_id;
            cause = e;
            reported = refl;
            left = λ q. units item.product_id q (pos_part item.quantity) + n q;
            within = fits;
            shift = rw same h.shift;
            consistent = rw same h.consistent;
          }))

    release_reserved-Ends :
        (items : List InventoryReservationItem) (d : InventoryDb)
        → ((q : String) → demand items q ≤ all q)
        → Since (demand items) d
        → Ends d (release_reserved o items) (λ _ d'. Since (λ _. 0) d') (RolledBack o start all)
    unfolding release_reserved
    release_reserved-Ends [] d fits h = pure-Ends d tt _ _ h
    release_reserved-Ends (item ∷ items) d fits h =
        bind-Ends d _ _ (λ _ d'. Since (demand items) d') _ _
          (release_one-Ends item (demand items) d fits h)
          λ _ d' h'. release_reserved-Ends items d' (λ q. omega (arith, fits q)) h'

    -- How the loop ends: with all of `all` reserved and the items reported in their order, or with
    -- one of them refused and nothing changed.
    abbrev AllOrNone : List InventoryReservationItem → ReserveAll → InventoryDb → Type 0
    AllOrNone target (reserved items) d' = (items ≡ target) × Since all d'
    AllOrNone target (refused item e) d' =
        (before : List InventoryReservationItem) × (after : List InventoryReservationItem) × (target
          ≡ before ++ (item ∷ after))
        × Since (λ _. 0) d'

    reserve_from-Ends :
        (items : List OrderCreatedItem) (done : List InventoryReservationItem) (d : InventoryDb)
        → ((q : String) → all q ≡ demand done q + ordered items q)
        → Since (demand done) d
        → Ends d
            (reserve_from o items done)
            (AllOrNone (reverse_aux done (map reservation_item items)))
            (RolledBack o start all)
    unfolding reserve_from
    reserve_from-Ends [] done d sum h = pure-Ends d _ _ _ (
      refl,
      record {
        shift =
            Shift-trans o _ _ all start d d (λ q. omega (arith, sum q)) h.shift (Shift-none o d);
        consistent = h.consistent;
      },
    )
    reserve_from-Ends (item ∷ items) done d sum h =
        try-Ends d _ _ _ _ _ _
          (Settles-Ends d _ _
            (reserve_stock-Settles (reservation_of o (reservation_item item)) d h.consistent))
          (λ s d' ok_done.
            reserve_from-Ends items (reservation_item item ∷ done) d' (λ q. omega (arith, sum q))
              (record {
                shift =
                    Shift-trans o _ _ _ start d d' (λ q. omega arith) h.shift
                      (Holds-Shift _ o _ d d' ok_done.holds);
                consistent = ok_done.consistent;
              }))
          (λ e d' same.
            bind-Ends d' _ _ (λ _ d''. Since (λ _. 0) d'') _ _
              (release_reserved-Ends done d' (λ q. omega (arith, sum q)) (rw same h))
              λ _ d'' h'. pure-Ends d'' _ _ _ (
                reverse done,
                map reservation_item items,
                reverse_aux-eq done (map reservation_item (item ∷ items)),
                h',
              ))

-- What `reserveAll` gives: the items of the event, all of them reserved and reported in their order,
-- or one of them that was refused, with every quantity as it was.
abbrev pub Reserves : OrderCreated → InventoryDb → ReserveAll → InventoryDb → Type 0
Reserves event d (reserved items) d' =
    (items ≡ map reservation_item event.items)
    × Shift event.order_id (ordered event.items) d d'
    × Consistent d'
Reserves event d (refused item e) d' =
    (before : List InventoryReservationItem) × (after : List InventoryReservationItem) × (map
        reservation_item event.items
      ≡ before ++ (item ∷ after))
    × SameQuantities d d'
    × Consistent d'

-- What holds where a rollback of `reserveAll` failed.
abbrev pub Stuck : OrderCreated → InventoryDb → Failure StockError → InventoryDb → Type 0
Stuck event d = RolledBack event.order_id d (ordered event.items)

-- From a consistent inventory `reserveAll` reserves every item of the order and changes nothing
-- else, or reports a refusal with every quantity as it was; where a rollback fails, it reports
-- that. The inventory is consistent on each way out, whichever calls to the database fail.
pub reserve_all-Ends :
    (event : OrderCreated) (d : InventoryDb)
    → Consistent d
    → Ends d (reserve_all event) (Reserves event d) (Stuck event d)
unfolding reserve_all
reserve_all-Ends event d c =
    Ends_mono d _ _ (Reserves event d) (Stuck event d)
      (reserve_from-Ends event.order_id d (ordered event.items) event.items [] d (λ q. omega arith)
        (record { shift = Shift-none event.order_id d; consistent = c }))
      (λ r d' h. finished r d' h)
  where
    finished :
        (r : ReserveAll) (d' : InventoryDb)
        → AllOrNone event.order_id d (ordered event.items) (map reservation_item event.items) r d'
        → Reserves event d r d'
    finished (reserved items) d' (same, h) = (same, h.shift, h.consistent)
    finished (refused item e) d' (before, after, is, h) =
        (before, after, is, Shift-SameQuantities event.order_id d d' h.shift, h.consistent)
