-- ===== src/Order/Lifecycle.antt =====
-- The statuses that an order goes through.
use event_driven_ecommerce.Base.{
  String, str_eq, eq_iff, ◌≡◌, sym, ap, ◌∙◌, subst, Bool-cases, inl, inr, some, List, arith, ok,
  some_inj,
}
use event_driven_ecommerce.Order.Enums.{
  OrderStatus, pending, awaiting_payment, confirmed, cancelled, status_name, status_value,
}
use event_driven_ecommerce.Order.Domain.{Order, OrderRow, OrderItemRow, OrderDb}
use event_driven_ecommerce.Order.Queries.{find_order, replace_order, stored}
use event_driven_ecommerce.Order.Rows.{
  map_db_order, known, parse_currency, parse_order_status, parse_payment_method, order_of_row,
  to_order_db_params,
}
use event_driven_ecommerce.Order.Outbox.{find_order-replace_same, find_order-replace_other}
use event_driven_ecommerce.Order.Writing.{Created, Updated, written}

-- The changes of status that the service means to make.
pub data Step : OrderStatus → OrderStatus → Type 0 where
  reserve : Step pending awaiting_payment
  capture_pending : Step pending confirmed
  capture : Step awaiting_payment confirmed
  cancel_pending : Step pending cancelled
  cancel_awaiting : Step awaiting_payment cancelled
  cancel_confirmed : Step confirmed cancelled

-- A status, as the table holds it, becomes another by such steps.
pub data Course : String → String → Type 0 where
  stays : {s : String} → Course s s
  moves :
      {a b : OrderStatus} {t : String}
      → Step a b
      → Course (status_name b) t
      → Course (status_name a) t

Course-trans : {r s t : String} → Course r s → Course s t → Course r t
Course-trans stays c = c
Course-trans (moves step rest) c = moves step (Course-trans rest c)

-- Every order stays, under its id, and its status moves by steps.
unfoldable pub Moved : OrderDb → OrderDb → Type 0
Moved d d' =
    (q : String) (row : OrderRow)
    → find_order q d.orders ≡ some row
    → (row' : OrderRow) × (find_order q d'.orders ≡ some row') × Course row.status row'.status

pub Moved-refl : (d : OrderDb) → Moved d d
unfolding Moved
Moved-refl d q row f = (row, f, stays)

pub Moved-trans : (d d₁ d₂ : OrderDb) → Moved d d₁ → Moved d₁ d₂ → Moved d d₂
unfolding Moved
Moved-trans d d₁ d₂ m n q row f =
    let (row₁, f₁, c) = m q row f in
    let (row₂, f₂, c₂) = n q row₁ f₁ in (row₂, f₂, Course-trans c c₂)

pub Updated-Moved :
    (order : Order) (s : OrderStatus) (row : OrderRow) (d d' : OrderDb) (o : Order)
    → find_order order.id d.orders ≡ some row
    → row.status ≡ status_name s
    → Step s order.status
    → Updated order d o d'
    → Moved d d'
unfolding Moved written stored to_order_db_params
Updated-Moved order s row d d' o was is step u q r f = elim (Bool-cases (str_eq order.id q)) [
  | inl same ↦
      let e : order.id ≡ q = ground (arith, eq_iff order.id q) in
      let at : r ≡ row =
        some_inj r row (sym f ∙ subst (λ x. find_order x d.orders ≡ some row) e was) in
      let back : status_name s ≡ r.status = sym is ∙ ap (λ (x : OrderRow). x.status) (sym at) in
      (
        written order,
        ap (find_order q) u.orders
            ∙ subst
                (λ x. find_order x (replace_order (written order) d.orders) ≡ some (written order))
                e (find_order-replace_same (written order) u.old d.orders u.was),
        subst (λ x. Course x (status_name order.status)) back (moves step stays),
      )
  | inr other ↦ (
    r,
    ap (find_order q) u.orders ∙ find_order-replace_other (written order) q d.orders other ∙ f,
    stays,
  )
]

pub Created-Moved : (order : Order) (d d' : OrderDb) (o : Order) → Created order d o d' → Moved d d'
unfolding Moved written stored to_order_db_params find_order
Created-Moved order d d' o c q r f =
    (r, ap (find_order q) c.orders ∙ ground (arith, eq_iff order.id q, c.fresh, f), stays)

status_name-parse : (t : String) (s : OrderStatus) → status_value t ≡ some s → t ≡ status_name s
unfolding status_value status_name
status_name-parse t s e = ground (
  arith,
  eq_iff t "ORDER_STATUS_UNSPECIFIED",
  eq_iff t "ORDER_STATUS_PENDING",
  eq_iff t "ORDER_STATUS_AWAITING_PAYMENT",
  eq_iff t "ORDER_STATUS_CONFIRMED",
  eq_iff t "ORDER_STATUS_CANCELLED",
  eq_iff t "ORDER_STATUS_SHIPPED",
  eq_iff t "ORDER_STATUS_COMPLETED",
)

parsed_status :
    (row : OrderRow) (items : List OrderItemRow) (o : Order)
    → map_db_order row items ≡ ok o
    → status_value row.status ≡ some o.status
unfolding map_db_order known parse_currency parse_order_status parse_payment_method order_of_row
parsed_status row items o e = ground arith

-- An order is read with the status that its row has.
pub status-map_db_order :
    (row : OrderRow) (items : List OrderItemRow) (o : Order)
    → map_db_order row items ≡ ok o
    → row.status ≡ status_name o.status
status-map_db_order row items o e = status_name-parse _ _ (parsed_status row items o e)
