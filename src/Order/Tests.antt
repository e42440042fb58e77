-- ===== src/Order/Tests.antt =====
-- An order in the tables, and runs of the service on it.
use event_driven_ecommerce.Base.{
  map, Message, take, String, micros, is_ok, on_some, true, ◌≡◌, refl, ap, subst, ◌∙◌, false, some,
  [], ◌∷◌, pos, arith, eq_iff, ok, Outcome, running, outside, trim_space, ◌+◌, ◌^◌, is_empty,
}
use event_driven_ecommerce.Events.{inventory_reserved_event_type}
use event_driven_ecommerce.Order.Enums.{
  awaiting_payment, cancelled, currency_unspecified, status_name, currency_name, method_name,
  currency_value, status_value, method_value, same_currency,
}
use event_driven_ecommerce.Order.Queries
use event_driven_ecommerce.Order.Queries.{
  find_order, find_order_by_key, find_event, list_order_items_by_order_id, items_of,
  insert_by_position, stored, order_row_error, key_taken_by_other, delete_order_items_by_order_id,
  without_items, create_order_item, has_item, replace_order,
}
use event_driven_ecommerce.Order.Rows.{
  to_order_db_params, to_item_params, map_db_order, map_db_order_items, map_db_order_item, known,
  parse_currency, parse_order_status, parse_payment_method, order_of_row,
}
use event_driven_ecommerce.Order.Repository
use event_driven_ecommerce.Order.Repository.{
  get_order_by_idempotency_key, update_body, validate_order, insert_order_items, insert_items_from,
  mapped, cancelled_event_if, newly_cancelled, map_create_order_error, map_update_order_error,
}
use event_driven_ecommerce.Order.Service
use event_driven_ecommerce.Order.Service.{
  Priced, price_items, priced_item, item_refused, normalize_order_input, normalize_item,
  normalize_address, validate_create_order, orders_match_for_idempotency, items_match, create_order,
  cancel_order, apply_transition, payment_captured_transition,
}
use event_driven_ecommerce.Order.Dispatcher
use event_driven_ecommerce.Order.Dispatcher.{
  default_outbox_dispatcher_config, started, validate, rounds, dispatch_once,
  claim_pending_order_outbox_events, pending_events, claimable, has_event, locked_ones, lock_events,
  after_claim, get_order_outbox_stats, count_events, change_event, dispatch_rows, dispatch_row,
  publish, after_publish,
}
use event_driven_ecommerce.Order.Listing.{sort_by, insert_by}
use event_driven_ecommerce.Order.Dispatching.{Tidy, run-Tidy}
use event_driven_ecommerce.Order.Domain.{OrderItem, Order, OrderRow, OrderDb}
use event_driven_ecommerce.Order.Consumers.{run}
use event_driven_ecommerce.Order.Handling.{inventory_reserved, handler}
use event_driven_ecommerce.Order.Outbox.{HasCreated}
use event_driven_ecommerce.Order.Writing.{Created, Updated}
use event_driven_ecommerce.Order.Publishing.{Outboxed, run-Outboxed}
use event_driven_ecommerce.Order.Lifecycle.{Moved}
use event_driven_ecommerce.Order.Courses.{run-Moved}
use event_driven_ecommerce.Order.Pricing.{Charged, cost_all, price_items-Charged}
use event_driven_ecommerce.Order.Retrying.{Retried, create_order_retry}
use event_driven_ecommerce.Order.Promises.{create_order-Outcome, update_order-Outcome}
use event_driven_ecommerce.Order.Samples.{
  dollars, two_teas, request, first_row, first_event, world_of, tables, codec,
}

first_row_is_not_cancelled : first_row.status ≡ status_name cancelled → ⊥
unfolding first_row status_name to_order_db_params stored
first_row_is_not_cancelled h =
    absurd (ground (arith, h, eq_iff "ORDER_STATUS_PENDING" "ORDER_STATUS_CANCELLED"))

tables-Outboxed : Outboxed tables
unfolding find_order find_event first_row to_order_db_params stored status_name
tables-Outboxed = record {
  created = λ q row f.
      let e : "o1" ≡ q = ground (arith, f, eq_iff "o1" q) in
      subst (λ x. HasCreated x tables.outbox) e
        (first_event, refl, record { typed = refl; aggregate = refl; keyed = refl });
  cancelled = λ q row f c.
      let e : first_row ≡ row = ground (arith, f, eq_iff "o1" q) in
      absurd (first_row_is_not_cancelled (ap (λ (x : OrderRow). x.status) e ∙ c));
}

create_order-Outcome_example :
    Outcome tables
      (Created request tables)
      (Repository.create_order codec "orders" "cancellations" request (world_of tables))
create_order-Outcome_example =
    create_order-Outcome codec "orders" "cancellations" request (world_of tables)

abbrev given_up : Order
given_up = record request { status = cancelled; cancel_reason = "late" }

update_order-Outcome_example :
    Outcome tables
      (Updated given_up tables)
      (Repository.update_order codec "orders" "cancellations" given_up (world_of tables))
update_order-Outcome_example =
    update_order-Outcome codec "orders" "cancellations" given_up (world_of tables)

run-Moved_example :
    Moved tables (create_order codec "orders" "cancellations" request (world_of tables)).1.db
    × Moved tables (cancel_order codec "orders" "cancellations" "o1" "late" (world_of tables)).1.db
    × Moved tables
        (run codec inventory_reserved_event_type
          (handler codec "orders" "cancellations" inventory_reserved)
          ("m" ∷ "n" ∷ [])
          (world_of tables)).1.db
run-Moved_example =
    run-Moved codec "orders" "cancellations" request "o1" "late" inventory_reserved_event_type
      inventory_reserved ("m" ∷ "n" ∷ []) (world_of tables)

run-Outboxed_example :
    Outboxed (create_order codec "orders" "cancellations" request (world_of tables)).1.db
    × Outboxed (cancel_order codec "orders" "cancellations" "o1" "late" (world_of tables)).1.db
    × Outboxed
        (run codec inventory_reserved_event_type
          (handler codec "orders" "cancellations" inventory_reserved)
          ("m" ∷ "n" ∷ [])
          (world_of tables)).1.db
run-Outboxed_example =
    run-Outboxed codec "orders" "cancellations" request "o1" "late" inventory_reserved_event_type
      inventory_reserved ("m" ∷ "n" ∷ []) (world_of tables) tables-Outboxed

abbrev cancelled_row : OrderRow
cancelled_row = record first_row { status = "ORDER_STATUS_CANCELLED" }

abbrev cancelled_tables : OrderDb
cancelled_tables = record tables { orders = cancelled_row ∷ [] }

abbrev priced : Priced
priced = record { items = two_teas ∷ []; total = dollars 10 }

priced_teas : price_items currency_unspecified (pos 0) (two_teas ∷ []) ≡ some priced
unfolding price_items item_refused priced_item trim_space same_currency
priced_teas = refl

price_items-Charged_example : Charged (0 + cost_all (two_teas ∷ [])) priced
price_items-Charged_example =
    price_items-Charged (two_teas ∷ []) currency_unspecified 0 priced priced_teas (ground arith)

-- Four units of 2 ^ 62 + 1 cents come to 4 cents, past 2 ^ 64.
abbrev dear : OrderItem
dear = record two_teas { quantity = pos 4; unit_price = dollars (2 ^ 62 + 1) }

dear_wraps :
    price_items currency_unspecified (pos 0) (dear ∷ [])
    ≡ some (record { items = record dear { total_price = dollars 4 } ∷ []; total = dollars 4 })
unfolding price_items item_refused priced_item trim_space same_currency
dear_wraps = refl

abbrev again : Order
again = record request { id = "" }

again_is_valid : validate_create_order (normalize_order_input again) ≡ false
unfolding validate_create_order normalize_order_input normalize_address normalize_item trim_space
again_is_valid = refl

again_has_key : is_empty (normalize_order_input again).idempotency_key ≡ false
unfolding normalize_order_input trim_space
again_has_key = refl

first_is_found :
    (get_order_by_idempotency_key (normalize_order_input again).idempotency_key (world_of tables)).0
    ≡ ok request
unfolding get_order_by_idempotency_key normalize_order_input trim_space running outside
    Queries.get_order_by_idempotency_key find_order_by_key list_order_items_by_order_id items_of
    insert_by_position map_db_order map_db_order_items map_db_order_item known parse_currency
    parse_order_status parse_payment_method order_of_row currency_value status_value method_value
    first_row to_order_db_params stored micros status_name currency_name method_name
first_is_found = refl

create_order_retry_example :
    Retried request
      (normalize_order_input again)
      (create_order codec "orders" "cancellations" again (world_of tables)).0
    × ((create_order codec "orders" "cancellations" again (world_of tables)).1.db ≡ tables)
create_order_retry_example =
    create_order_retry codec "orders" "cancellations" again request (world_of tables) again_is_valid
      again_has_key first_is_found

-- The order as `MarkPaymentCaptured` read it before it was cancelled.
abbrev stale : Order
stale = record request { status = awaiting_payment }

stale_capture_succeeds :
    is_ok
      (apply_transition codec "orders" "cancellations" payment_captured_transition stale
        (world_of cancelled_tables)).0
    ≡ true
unfolding apply_transition payment_captured_transition on_some running outside Service.update_order
    Repository.update_order update_body validate_order trim_space Queries.get_order_by_id find_order
    Queries.update_order order_row_error key_taken_by_other delete_order_items_by_order_id
    without_items insert_order_items insert_items_from create_order_item has_item to_item_params
    list_order_items_by_order_id items_of insert_by_position mapped map_db_order map_db_order_items
    map_db_order_item known parse_currency parse_order_status parse_payment_method order_of_row
    currency_value status_value method_value cancelled_event_if newly_cancelled first_row
    to_order_db_params stored micros status_name currency_name method_name replace_order
    map_create_order_error map_update_order_error
stale_capture_succeeds = refl

tables-Tidy : Tidy (world_of tables)
unfolding find_event
tables-Tidy = record {
  distinct = (refl, tt);
  told = λ q e f p. absurd (ground (arith, f, p, eq_iff "outbox-o1" q));
}

run-Tidy_example : Tidy (Dispatcher.run 2 default_outbox_dispatcher_config (world_of tables)).1
run-Tidy_example = run-Tidy 2 default_outbox_dispatcher_config (world_of tables) tables-Tidy

abbrev message_topic : Message → String
message_topic m = m.topic

-- One round sends the event of the outbox.
one_round :
    map message_topic (Dispatcher.run 0 default_outbox_dispatcher_config (world_of tables)).1.sent
    ≡ "orders" ∷ []
unfolding Dispatcher.run started validate rounds dispatch_once claim_pending_order_outbox_events
    pending_events claimable sort_by insert_by take has_event locked_ones lock_events after_claim
    get_order_outbox_stats count_events dispatch_rows dispatch_row publish after_publish
    Dispatcher.mark_order_outbox_event_published change_event running outside
one_round = refl
