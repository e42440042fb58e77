-- ===== src/Order/Statements.antt =====
-- What the statements of the order service, and the loops over them, leave in its tables.
use event_driven_ecommerce.Base.{
  micros, ℕ, suc, String, ◌≡◌, refl, ap, ◌∙◌, subst, none, List, [], ◌∷◌, arith, ok, Ensures,
  step-Ensures, clock-Ensures, guard-Ensures, called-Ensures, pure-Ensures, map_error-Ensures,
  lift-Ensures,
}
use event_driven_ecommerce.Order.Domain.{
  Order, OrderItem, OrderRow, OrderItemRow, OrderOutboxEvent, OrderDb,
}
use event_driven_ecommerce.Order.Queries
use event_driven_ecommerce.Order.Queries.{
  find_order, replace_order, find_event, stored, order_row_error, create_order_item,
  create_order_outbox_event, list_order_items_by_order_id, delete_order_items_by_order_id,
}
use event_driven_ecommerce.Order.Rows.{
  map_db_order, known, parse_currency, parse_order_status, parse_payment_method, order_of_row,
}
use event_driven_ecommerce.Order.Outbox.{About, Emitted}
use event_driven_ecommerce.Order.Repository.{insert_items_from, insert_outbox_event, mapped}

-- The orders and the outbox of some tables.
abbrev pub Holds : List OrderRow → List OrderOutboxEvent → OrderDb → Type 0
Holds os es d = (d.orders ≡ os) × (d.outbox ≡ es)

pub create_order-eq-ok :
    (p row : OrderRow) (d d' : OrderDb)
    → Queries.create_order p d ≡ ok (row, d')
    → (row ≡ stored p) × Holds (stored p ∷ d.orders) d.outbox d'
unfolding Queries.create_order
create_order-eq-ok p row d d' e = ground arith

pub update_order-eq-ok :
    (p row : OrderRow) (d d' : OrderDb)
    → Queries.update_order p d ≡ ok (row, d')
    → (row ≡ stored p) × Holds (replace_order (stored p) d.orders) d.outbox d'
unfolding Queries.update_order
update_order-eq-ok p row d d' e = ground arith

item-Holds :
    (t : OrderItemRow) (u : Unit {0}) (d d' : OrderDb)
    → create_order_item t d ≡ ok (u, d')
    → Holds d.orders d.outbox d'
unfolding create_order_item
item-Holds t u d d' e = ground arith

event-Holds :
    (t : OrderOutboxEvent) (u : Unit {0}) (d d' : OrderDb)
    → create_order_outbox_event t d ≡ ok (u, d')
    → (find_event t.id d.outbox ≡ none)
      × Holds d.orders (record t { created_at = micros t.created_at } ∷ d.outbox) d'
unfolding create_order_outbox_event
event-Holds t u d d' h = ground arith

module _ (os : List OrderRow) (es : List OrderOutboxEvent) where
  pub insert_items-Holds :
      (o : String) (i : ℕ) (items : List OrderItem) (d : OrderDb)
      → Holds os es d
      → Ensures d (insert_items_from o i items) (λ _. Holds os es)
  unfolding insert_items_from
  insert_items-Holds o i [] d h = pure-Ensures tt d _ h
  insert_items-Holds o i (item ∷ items) d h = step-Ensures d _ _ _ _ λ u d' e.
      insert_items-Holds o (suc i) items d'
        (let (same, kept) = item-Holds _ u d d' e in (same ∙ h.0, kept ∙ h.1))

  pub insert_event-Holds :
      (context topic : String) (message : ℕ → OrderOutboxEvent) (type q id : String) (d : OrderDb)
      → Holds os es d
      → ((at : ℕ) → (message at).id ≡ id)
      → ((at : ℕ) → About type q (message at))
      → Ensures d
          (insert_outbox_event context topic message)
          (λ _ d'. (d'.orders ≡ os) × Emitted type q id es d'.outbox)
  unfolding insert_outbox_event
  insert_event-Holds context topic message type q id d h named about = guard-Ensures d _ _ _ _ λ _.
      clock-Ensures d _ _ λ at. called-Ensures _ _ d _ λ u d' s.
        let (fresh, (same, kept)) = event-Holds (message at) u d d' s in
        (
          same ∙ h.0,
          record {
            event = record (message at) { created_at = micros (message at).created_at };
            named = named at;
            about = record {
              typed = (about at).typed;
              aggregate = (about at).aggregate;
              keyed = (about at).keyed;
            };
            fresh =
                subst (λ x. find_event id x ≡ none) h.1
                  (subst (λ x. find_event x d.outbox ≡ none) (named at) fresh);
            put =
                kept
                ∙ ap (λ x. record (message at) { created_at = micros (message at).created_at } ∷ x)
                    h.1;
          },
        )

pub id-map_db_order :
    (row : OrderRow) (items : List OrderItemRow) (o : Order)
    → map_db_order row items ≡ ok o
    → o.id ≡ row.id
unfolding map_db_order known parse_currency parse_order_status parse_payment_method order_of_row
id-map_db_order row items o e = ground arith

pub mapped-Ensures :
    (context : String) (row : OrderRow) (items : List OrderItemRow) (d : OrderDb)
    → Ensures d (mapped context row items) (λ o d'. (o.id ≡ row.id) × (d' ≡ d))
unfolding mapped
mapped-Ensures context row items d = map_error-Ensures _ _ d _ (
    lift-Ensures _ d (λ o d'. (o.id ≡ row.id) × (d' ≡ d))
      (λ o e. (id-map_db_order row items o e, refl)))

pub deleted-Holds :
    (o : String) (u : Unit {0}) (d d' : OrderDb)
    → delete_order_items_by_order_id o d ≡ ok (u, d')
    → Holds d.orders d.outbox d'
unfolding delete_order_items_by_order_id
deleted-Holds o u d d' e = ground arith

pub Holds-same :
    {os : List OrderRow} {es : List OrderOutboxEvent} (d d' : OrderDb)
    → d' ≡ d
    → Holds os es d
    → Holds os es d'
Holds-same d d' e h =
    (ap (λ (x : OrderDb). x.orders) e ∙ h.0, ap (λ (x : OrderDb). x.outbox) e ∙ h.1)
