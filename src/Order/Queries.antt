-- ===== src/Order/Queries.antt =====
-- The statements of internal/order/repository/sqlc/order.sql.go that write an order, with the
-- constraints of db/schema/order.sql: a NULL, then the checks, then the unique indexes, then the
-- foreign key. A timestamp keeps microseconds. JSONB is taken to give the payload back as it was.
use event_driven_ecommerce.Base.{
  ℕ, String, str_eq, Bool, false, ◌&&◌, ◌||◌, not, pos, leb_ℤ, ltb, ◌==◌, Option, none, some, List,
  [], ◌∷◌, if◌then◌else◌, Result, ok, err, DbError, no_rows, unique_violation, not_null_violation,
  is_none, micros, foreign_key_violation, check_violation,
}
use event_driven_ecommerce.Order.Domain.{OrderRow, OrderItemRow, OrderOutboxEvent, OrderDb}

unfoldable pub stored : OrderRow → OrderRow
unfolding micros
stored row = record row { created_at = micros row.created_at; updated_at = micros row.updated_at }

unfoldable pub find_order : String → List OrderRow → Option OrderRow
find_order id [] = none
find_order id (r ∷ rs) = if str_eq r.id id then some r else find_order id rs

abbrev pub has_key : String → OrderRow → Bool
has_key key r = elim r.idempotency_key [ none ↦ false | some k ↦ str_eq k key ]

unfoldable pub find_order_by_key : String → List OrderRow → Option OrderRow
find_order_by_key key [] = none
find_order_by_key key (r ∷ rs) = if has_key key r then some r else find_order_by_key key rs

unfoldable pub replace_order : OrderRow → List OrderRow → List OrderRow
replace_order t [] = []
replace_order t (r ∷ rs) = if str_eq r.id t.id then t ∷ rs else r ∷ replace_order t rs

unfoldable pub key_taken : Option String → List OrderRow → Bool
unfolding find_order_by_key
key_taken none rs = false
key_taken (some key) rs = not (is_none (find_order_by_key key rs))

-- The key belongs to a row other than that of `id`.
unfoldable pub key_taken_by_other : String → Option String → List OrderRow → Bool
key_taken_by_other id none rs = false
key_taken_by_other id (some key) [] = false
key_taken_by_other id (some key) (r ∷ rs) =
    (has_key key r && not (str_eq r.id id)) || key_taken_by_other id (some key) rs

-- The NULL and check constraints of a row of `orders`.
unfoldable pub order_row_error : OrderRow → Option DbError
unfolding not_null_violation
order_row_error row =
    if is_none row.created_at
    then some (not_null_violation "orders" "created_at")
    else if is_none row.updated_at
    then some (not_null_violation "orders" "updated_at")
    else if leb_ℤ row.total_amount_cents (pos 0)
    then some (check_violation "orders" "orders_total_amount_cents_check")
    else none

unfoldable pub create_order : OrderRow → OrderDb → Result DbError (OrderRow × OrderDb)
create_order row d = elim (order_row_error row) [
  | some e ↦ err e
  | none ↦
      if not (is_none (find_order row.id d.orders))
      then err (unique_violation "orders_pkey")
      else if key_taken row.idempotency_key d.orders
      then err (unique_violation "orders_idempotency_key_key")
      else ok (stored row, record d { orders = stored row ∷ d.orders })
]

unfoldable pub get_order_by_id : String → OrderDb → Result DbError (OrderRow × OrderDb)
get_order_by_id id d = elim (find_order id d.orders) [ none ↦ err no_rows | some r ↦ ok (r, d) ]

unfoldable pub get_order_by_idempotency_key : String → OrderDb → Result DbError (OrderRow × OrderDb)
get_order_by_idempotency_key key d = elim (find_order_by_key key d.orders) [
  | none ↦ err no_rows
  | some r ↦ ok (r, d)
]

unfoldable pub update_order : OrderRow → OrderDb → Result DbError (OrderRow × OrderDb)
update_order row d = elim (find_order row.id d.orders) [
  | none ↦ err no_rows
  | some r ↦ elim (order_row_error row) [
    | some e ↦ err e
    | none ↦
        if key_taken_by_other row.id row.idempotency_key d.orders
        then err (unique_violation "orders_idempotency_key_key")
        else ok (stored row, record d { orders = replace_order (stored row) d.orders })
  ]
]

unfoldable pub has_item : String → ℕ → List OrderItemRow → Bool
has_item o i [] = false
has_item o i (t ∷ ts) = (str_eq t.order_id o && t.item_position == i) || has_item o i ts

unfoldable pub create_order_item : OrderItemRow → OrderDb → Result DbError (Unit {0} × OrderDb)
create_order_item t d =
    if leb_ℤ t.quantity (pos 0)
    then err (check_violation "order_items" "order_items_quantity_check")
    else if leb_ℤ t.unit_price_amount_cents (pos 0)
    then err (check_violation "order_items" "order_items_unit_price_amount_cents_check")
    else if leb_ℤ t.total_price_amount_cents (pos 0)
    then err (check_violation "order_items" "order_items_total_price_amount_cents_check")
    else if has_item t.order_id t.item_position d.items
    then err (unique_violation "order_items_pkey")
    else if is_none (find_order t.order_id d.orders)
    then err (foreign_key_violation "order_items" "order_items_order_id_fkey")
    else ok (tt, record d { items = t ∷ d.items })

unfoldable pub insert_by_position : OrderItemRow → List OrderItemRow → List OrderItemRow
insert_by_position t [] = t ∷ []
insert_by_position t (u ∷ us) =
    if ltb t.item_position u.item_position then t ∷ u ∷ us else u ∷ insert_by_position t us

unfoldable pub items_of : String → List OrderItemRow → List OrderItemRow
unfolding insert_by_position
items_of o [] = []
items_of o (t ∷ ts) =
    let rest = items_of o ts in if str_eq t.order_id o then insert_by_position t rest else rest

unfoldable pub list_order_items_by_order_id :
    String → OrderDb → Result DbError (List OrderItemRow × OrderDb)
list_order_items_by_order_id o d = ok (items_of o d.items, d)

unfoldable pub without_items : String → List OrderItemRow → List OrderItemRow
without_items o [] = []
without_items o (t ∷ ts) =
    let rest = without_items o ts in if str_eq t.order_id o then rest else t ∷ rest

unfoldable pub delete_order_items_by_order_id :
    String → OrderDb → Result DbError (Unit {0} × OrderDb)
delete_order_items_by_order_id o d = ok (tt, record d { items = without_items o d.items })

unfoldable pub find_event : String → List OrderOutboxEvent → Option OrderOutboxEvent
find_event id [] = none
find_event id (e ∷ es) = if str_eq e.id id then some e else find_event id es

unfoldable pub create_order_outbox_event :
    OrderOutboxEvent → OrderDb → Result DbError (Unit {0} × OrderDb)
create_order_outbox_event e d =
    if is_none e.created_at
    then err (not_null_violation "order_outbox_events" "created_at")
    else if not (is_none (find_event e.id d.outbox))
    then err (unique_violation "order_outbox_events_pkey")
    else ok (tt, record d { outbox = record e { created_at = micros e.created_at } ∷ d.outbox })
