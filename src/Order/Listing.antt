-- ===== src/Order/Listing.antt =====
-- `ListOrdersByCustomer`: its statements in internal/order/repository/sqlc/order.sql.go, and the
-- repository and the service over them. `collates a b` says that the database sorts `a` before `b` or
-- puts them together.
use event_driven_ecommerce.Base.{
  ℕ, suc, String, str_eq, Bool, false, ◌&&◌, ◌||◌, ℤ, Option, none, some, List, [], ◌∷◌, map,
  if◌then◌else◌, ◌==◌, ltb, on_some, is_blank, length, take, drop, page_bounds, Result, ok, ◌then◌,
  DbError, ◌>>=◌, ◌>>◌, pure, fail_if, lift, map_error, query, Failure, domain, other, wrap, ◌<>◌,
}
use event_driven_ecommerce.Order.Domain.{
  Order, OrderItem, OrderRow, OrderItemRow, OrderDb, OrderError, Call, invalid_customer_id,
}
use event_driven_ecommerce.Order.Repository.{error_text}
use event_driven_ecommerce.Order.Rows.{to_item_params, map_db_order_item, map_db_order}

unfoldable pub insert_by : {A : Type 0} → (A → A → Bool) → A → List A → List A
insert_by before x [] = x ∷ []
insert_by before x (y ∷ ys) = if before x y then x ∷ y ∷ ys else y ∷ insert_by before x ys

unfoldable pub sort_by : {A : Type 0} → (A → A → Bool) → List A → List A
unfolding insert_by
sort_by before [] = []
sort_by before (x ∷ xs) = insert_by before x (sort_by before xs)

abbrev pub time_or_zero : Option ℕ → ℕ
time_or_zero none = 0
time_or_zero (some t) = t

unfoldable pub orders_of : String → List OrderRow → List OrderRow
orders_of c [] = []
orders_of c (r ∷ rs) =
    let rest = orders_of c rs in if str_eq r.customer_id c then r ∷ rest else rest

unfoldable pub count_orders_by_customer : String → OrderDb → Result DbError (ℕ × OrderDb)
count_orders_by_customer c d = ok (length (orders_of c d.orders), d)

abbrev pub is_one_of : List String → String → Bool
is_one_of [] id = false
is_one_of (o ∷ os) id = str_eq o id || is_one_of os id

unfoldable pub items_of_orders : List String → List OrderItemRow → List OrderItemRow
items_of_orders os [] = []
items_of_orders os (t ∷ ts) =
    let rest = items_of_orders os ts in if is_one_of os t.order_id then t ∷ rest else rest

module _ (collates : String → String → Bool) where
  -- `ORDER BY created_at ASC, id ASC`
  abbrev pub listed_before : OrderRow → OrderRow → Bool
  listed_before r t =
      let a = time_or_zero r.created_at in
      let b = time_or_zero t.created_at in ltb a b || (a == b && collates r.id t.id)

  unfoldable pub list_orders_by_customer :
      String → ℕ → ℕ → OrderDb → Result DbError (List OrderRow × OrderDb)
  list_orders_by_customer c limit offset d =
      ok (take limit (drop offset (sort_by listed_before (orders_of c d.orders))), d)

  -- `ORDER BY order_id ASC, item_position ASC`
  abbrev pub item_before : OrderItemRow → OrderItemRow → Bool
  item_before t u =
      if str_eq t.order_id u.order_id
      then ltb t.item_position u.item_position
      else collates t.order_id u.order_id

  unfoldable pub list_order_items_by_order_ids :
      List String → OrderDb → Result DbError (List OrderItemRow × OrderDb)
  list_order_items_by_order_ids os d = ok (sort_by item_before (items_of_orders os d.items), d)

-- A Go map from order ids to items; a key that is missing has no items.
abbrev pub Grouped : Type 0
Grouped = List (String × List OrderItem)

abbrev pub items_at : String → Grouped → List OrderItem
items_at o [] = []
items_at o ((p, items) ∷ groups) = if str_eq p o then items else items_at o groups

abbrev pub append_item : OrderItem → List OrderItem → List OrderItem
append_item item [] = item ∷ []
append_item item (i ∷ is) = i ∷ append_item item is

unfoldable pub add_item : String → OrderItem → Grouped → Grouped
add_item o item [] = (o, item ∷ []) ∷ []
add_item o item ((p, items) ∷ groups) =
    if str_eq p o then (p, append_item item items) ∷ groups else (p, items) ∷ add_item o item groups

unfoldable pub group_from : Grouped → List OrderItemRow → Result (Failure OrderError) Grouped
unfolding add_item
group_from groups [] = ok groups
group_from groups (row ∷ rows) =
    map_db_order_item row then λ item. group_from (add_item row.order_id item groups) rows

unfoldable pub group_db_order_items : List OrderItemRow → Result (Failure OrderError) Grouped
unfolding group_from
group_db_order_items rows = group_from [] rows

-- `toDBItems`, which leaves the order id empty.
unfoldable pub to_db_items_from : ℕ → List OrderItem → List OrderItemRow
to_db_items_from i [] = []
to_db_items_from i (item ∷ items) = to_item_params "" i item ∷ to_db_items_from (suc i) items

unfoldable pub map_db_orders : List OrderRow → Grouped → Result (Failure OrderError) (List Order)
unfolding to_db_items_from
map_db_orders [] groups = ok []
map_db_orders (row ∷ rows) groups =
    let rest = map_db_orders rows groups in
    map_db_order row (to_db_items_from 0 (items_at row.id groups)) then λ order.
    rest then λ orders. ok (order ∷ orders)

-- The error of a map, wrapped.
abbrev pub wrapped : String → Failure OrderError → Failure OrderError
wrapped context e = other (context <> ": " <> error_text e)

abbrev pub row_id : OrderRow → String
row_id row = row.id

module _ (collates : String → String → Bool) where
  -- The rows of a page, with their items.
  unfoldable pub list_rows : String → ℕ → ℕ → Call (List Order)
  list_rows customer limit offset = do
    rows ←
        map_error (wrap "list orders by customer from postgres")
          (query (list_orders_by_customer collates customer limit offset))
    items ←
        map_error (wrap "list order items by order ids from postgres")
          (query (list_order_items_by_order_ids collates (map row_id rows)))
    groups ←
        map_error (wrapped "group listed order items from postgres")
          (lift (group_db_order_items items))
    map_error (wrapped "map listed orders from postgres") (lift (map_db_orders rows groups))

  -- The repository's, once the orders are counted.
  unfoldable pub list_page : String → ℤ → ℤ → ℕ → Call (List Order × ℕ)
  list_page customer page page_size total =
      if total == 0
      then pure ([], 0)
      else on_some (page_bounds page page_size total) (pure ([], total))
          λ bounds. list_rows customer bounds.0 bounds.1 >>= λ orders. pure (orders, total)

  unfoldable pub repository_list : String → ℤ → ℤ → Call (List Order × ℕ)
  repository_list customer page page_size = do
    total ←
        map_error (wrap "count orders by customer from postgres")
          (query (count_orders_by_customer customer))
    list_page customer page page_size total

  -- The service's.
  unfoldable pub list_orders : String → ℤ → ℤ → Call (List Order × ℕ)
  list_orders customer page page_size =
      fail_if (is_blank customer) (domain invalid_customer_id)
      >> repository_list customer page page_size
