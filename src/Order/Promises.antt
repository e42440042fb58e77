-- ===== src/Order/Promises.antt =====
-- What the repository of the order service promises.
use event_driven_ecommerce.Base.{String, refl, World, Outcome}
use event_driven_ecommerce.Events.{Codec}
use event_driven_ecommerce.Order.Domain.{Order, OrderDb}
use event_driven_ecommerce.Order.Repository
use event_driven_ecommerce.Order.Writing.{Created, Updated}
use event_driven_ecommerce.Order.Publishing.{create_order-Settles, update_order-Settles}

module _ (codec : Codec) (created_topic cancelled_topic : String) where
  -- The repository's `CreateOrder` either puts in the row of an order whose id is new together with
  -- one event with the new id `outbox-<order id>`, an order.created event whose aggregate and key are
  -- the id of the order, or fails and leaves orders, items and outbox as they
  -- were. Any call may fail on the way.
  pub create_order-Outcome :
      (order : Order) (w : World OrderDb)
      → Outcome w.db
          (Created order w.db)
          (Repository.create_order codec created_topic cancelled_topic order w)
  create_order-Outcome order w =
      (create_order-Settles codec created_topic cancelled_topic order w.db).apply w refl

  -- The repository's `UpdateOrder` either replaces the row of an order that is there, or fails and
  -- leaves orders, items and outbox as they were. Where the row was not cancelled and now is, it puts
  -- one order.cancelled event with the new id `outbox-cancelled-<order id>` in, whose aggregate and
  -- key are the id of the order; otherwise the outbox is unchanged.
  pub update_order-Outcome :
      (order : Order) (w : World OrderDb)
      → Outcome w.db
          (Updated order w.db)
          (Repository.update_order codec created_topic cancelled_topic order w)
  update_order-Outcome order w =
      (update_order-Settles codec created_topic cancelled_topic order w.db).apply w refl
