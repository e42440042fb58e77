-- ===== src/Order/Publishing.antt =====
-- The transactional outbox of the order service over every operation, message and fault.
use event_driven_ecommerce.Base.{
  String, ◌≡◌, refl, sym, ap, subst, some, List, World, Keeps, Settles, Settles-Keeps,
  transaction-Settles, guard-Settles, pure-Keeps, fail_if-Keeps, if-Keeps, on_some-Keeps,
  bind-Keeps, now-Keeps,
}
use event_driven_ecommerce.Events.{Codec}
use event_driven_ecommerce.Order.Enums.{pending, status_name}
use event_driven_ecommerce.Order.Domain.{Order, OrderRow, OrderOutboxEvent, OrderDb}
use event_driven_ecommerce.Order.Queries.{find_order, replace_order, stored}
use event_driven_ecommerce.Order.Rows.{to_order_db_params}
use event_driven_ecommerce.Order.Repository
use event_driven_ecommerce.Order.Repository.{
  newly_cancelled, get_order_by_id, get_order_by_idempotency_key,
}
use event_driven_ecommerce.Order.Service
use event_driven_ecommerce.Order.Service.{
  Transition, same_or_conflict, id_or_new, after_create, create_new, after_lookup,
  create_normalized, create_order, cancel_found, cancel_order, apply_transition, transition_order,
  mark_inventory_reserved, mark_inventory_reservation_failed, mark_payment_captured,
  mark_payment_failed, mark_payment_creation_failed,
}
use event_driven_ecommerce.Order.Consumers.{run}
use event_driven_ecommerce.Order.Reading.{get_order_by_id-Keeps, create_order-Keeps}
use event_driven_ecommerce.Order.Handling.{Topic, handler, consumer-Keeps}
use event_driven_ecommerce.Order.Outbox.{
  Announced, Announced-created, Announced-updated, Announced-cancelled,
}
use event_driven_ecommerce.Order.Writing.{
  Created, Updated, Told, becomes_cancelled, says_nothing, written, create_body-Ensures,
  update_body-Ensures,
}

abbrev pub Outboxed : OrderDb → Type 0
Outboxed d = Announced d.orders d.outbox

at_tables :
    {os : List OrderRow} {es : List OrderOutboxEvent} (d : OrderDb)
    → d.orders ≡ os
    → d.outbox ≡ es
    → Announced os es
    → Outboxed d
at_tables d h k a = subst (λ x. Announced x d.outbox) (sym h) (subst (Announced _) (sym k) a)

Created-Outboxed :
    (order : Order) (d d' : OrderDb) (o : Order)
    → order.status ≡ pending
    → Outboxed d
    → Created order d o d'
    → Outboxed d'
unfolding written stored to_order_db_params
Created-Outboxed order d d' o s a c =
    at_tables d' c.orders refl
      (Announced-created d.orders d.outbox d'.outbox (written order) a c.outbox (ap status_name s))

Told-Outboxed :
    (rs : List OrderRow) (es es' : List OrderOutboxEvent) (old row : OrderRow)
    → Announced rs es
    → find_order row.id rs ≡ some old
    → Told row.id old.status row.status es es'
    → Announced (replace_order row rs) es'
Told-Outboxed rs es es' old row a was (becomes_cancelled before after m) =
    Announced-cancelled rs es row old a was es' m
Told-Outboxed rs es es' old row a was (says_nothing held same) =
    subst (Announced _) (sym same) (Announced-updated rs es row old a was held)

Updated-Outboxed :
    (order : Order) (d d' : OrderDb) (o : Order) → Outboxed d → Updated order d o d' → Outboxed d'
unfolding written stored to_order_db_params
Updated-Outboxed order d d' o a u =
    at_tables d' u.orders refl
      (Told-Outboxed d.orders d.outbox d'.outbox u.old (written order) a u.was u.outbox)

module _ (codec : Codec) (created_topic cancelled_topic : String) where
  pub update_order-Settles :
      (order : Order) (d : OrderDb)
      → Settles d
          (Repository.update_order codec created_topic cancelled_topic order)
          (Updated order d)
  unfolding Repository.update_order
  update_order-Settles order d = guard-Settles d _ _ _ _ λ _.
      transaction-Settles d _ _ _ _
        (update_body-Ensures codec created_topic cancelled_topic order d)

  pub create_order-Settles :
      (order : Order) (d : OrderDb)
      → Settles d
          (Repository.create_order codec created_topic cancelled_topic order)
          (Created order d)
  unfolding Repository.create_order
  create_order-Settles order d = guard-Settles d _ _ _ _ λ _.
      transaction-Settles d _ _ _ _
        (create_body-Ensures codec created_topic cancelled_topic order d)

  pub update_order-Keeps :
      (order : Order)
      → Keeps Outboxed (Repository.update_order codec created_topic cancelled_topic order)
  update_order-Keeps order =
      Settles-Keeps Outboxed _ (Updated order) (λ d a. update_order-Settles order d)
        (λ d o d' a done. Updated-Outboxed order d d' o a done)

  create_row-Keeps :
      (order : Order)
      → order.status ≡ pending
      → Keeps Outboxed (Repository.create_order codec created_topic cancelled_topic order)
  create_row-Keeps order s =
      Settles-Keeps Outboxed _ (Created order) (λ d a. create_order-Settles order d)
        (λ d o d' a done. Created-Outboxed order d d' o s a done)

  cancel_order-Keeps :
      (id reason : String)
      → Keeps Outboxed (cancel_order codec created_topic cancelled_topic id reason)
  unfolding cancel_order cancel_found Service.update_order
  cancel_order-Keeps id reason = bind-Keeps _ _ _ (fail_if-Keeps Outboxed _ _) λ _.
      bind-Keeps _ _ _ (fail_if-Keeps Outboxed _ _) λ _.
        bind-Keeps _ _ _ (get_order_by_id-Keeps Outboxed id) λ order.
          if-Keeps Outboxed _ _ _ (pure-Keeps Outboxed order) (
            bind-Keeps _ _ _ (fail_if-Keeps Outboxed _ _)
              λ _. bind-Keeps _ _ _ (now-Keeps Outboxed) λ at. update_order-Keeps _)

  transition_order-Keeps :
      (id : String) (f : Transition)
      → Keeps Outboxed (transition_order codec created_topic cancelled_topic id f)
  unfolding transition_order apply_transition Service.update_order
  transition_order-Keeps id f = bind-Keeps _ _ _ (get_order_by_id-Keeps Outboxed id) λ order.
      on_some-Keeps Outboxed _ _ _ (pure-Keeps Outboxed order)
        λ change. bind-Keeps _ _ _ (now-Keeps Outboxed) λ at. update_order-Keeps _

  -- Whatever `CreateOrder`, `CancelOrder` and the five consumers are given, and whichever calls
  -- fail, every order in the tables has its order.created event in the outbox, and every cancelled
  -- order its order.cancelled event too, if that was so before: an event with the id that is due, of
  -- that type, whose aggregate and key are the id of the order.
  pub run-Outboxed :
      (raw : Order) (id reason expected : String) (t : Topic) (ms : List String) (w : World OrderDb)
      → Outboxed w.db
      → Outboxed (create_order codec created_topic cancelled_topic raw w).1.db
        × Outboxed (cancel_order codec created_topic cancelled_topic id reason w).1.db
        × Outboxed (run codec expected (handler codec created_topic cancelled_topic t) ms w).1.db
  run-Outboxed raw id reason expected t ms w a = (
    (create_order-Keeps codec created_topic cancelled_topic Outboxed create_row-Keeps raw).apply w
        a,
    (cancel_order-Keeps id reason).apply w a,
    (consumer-Keeps codec created_topic cancelled_topic Outboxed (λ id. transition_order-Keeps id _)
          (λ id. transition_order-Keeps id _) (λ r id. transition_order-Keeps id _) t expected
          ms).apply
        w a,
  )
