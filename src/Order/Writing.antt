-- ===== src/Order/Writing.antt =====
-- What the two transactions of the order repository leave in the tables.
use event_driven_ecommerce.Base.{
  String, ◌<>◌, ◌≡◌, ◌≢◌, eq_iff, refl, sym, ap, ◌∙◌, subst, Bool, true, false, none, some, List,
  ◌∷◌, arith, ok, pure, Ensures, step-Ensures, read-Ensures, pure-Ensures, >>=-Ensures,
  Ensures_mono, ◌>>◌,
}
use event_driven_ecommerce.Events.{Codec, order_created_event_type, order_cancelled_event_type}
use event_driven_ecommerce.Order.Enums.{status_name, cancelled}
use event_driven_ecommerce.Order.Outbox.{Emitted}
use event_driven_ecommerce.Order.Domain.{Order, OrderRow, OrderOutboxEvent, OrderDb}
use event_driven_ecommerce.Order.Queries
use event_driven_ecommerce.Order.Queries.{
  find_order, replace_order, find_event, stored, order_row_error, create_order_item,
  create_order_outbox_event, list_order_items_by_order_id, delete_order_items_by_order_id,
}
use event_driven_ecommerce.Order.Rows.{to_order_db_params}
use event_driven_ecommerce.Order.OutboxMessage.{
  new_order_created_outbox_message, new_order_cancelled_outbox_message,
}
use event_driven_ecommerce.Order.Repository.{
  create_body, update_body, insert_order_items, insert_order_created_outbox_event,
  insert_order_cancelled_outbox_event, newly_cancelled, cancelled_event_if,
}
use event_driven_ecommerce.Order.Statements.{
  Holds, create_order-eq-ok, update_order-eq-ok, mapped-Ensures, deleted-Holds, Holds-same,
  insert_items-Holds, insert_event-Holds,
}

unfoldable pub written : Order → OrderRow
unfolding stored to_order_db_params
written order = stored (to_order_db_params order)

-- What `CreateOrder` of the repository does to the tables.
pub record Created (order : Order) (d : OrderDb) (o : Order) (d' : OrderDb) : Type 0 where
  pub same_id : o.id ≡ order.id
  pub fresh : find_order order.id d.orders ≡ none
  pub orders : d'.orders ≡ written order ∷ d.orders
  pub outbox : Emitted order_created_event_type order.id ("outbox-" <> order.id) d.outbox d'.outbox

-- What happens to the outbox where the order `q` with the status `old` is written with `new`.
pub data Told (q old new : String) (es es' : List OrderOutboxEvent) : Type 0 where
  becomes_cancelled :
      old ≢ status_name cancelled
      → new ≡ status_name cancelled
      → Emitted order_cancelled_event_type q ("outbox-cancelled-" <> q) es es'
      → Told q old new es es'
  says_nothing :
      (new ≡ status_name cancelled → old ≡ status_name cancelled) → es' ≡ es → Told q old new es es'

-- What `UpdateOrder` of the repository does.
pub record Updated (order : Order) (d : OrderDb) (o : Order) (d' : OrderDb) : Type 0 where
  pub old : OrderRow
  pub was : find_order order.id d.orders ≡ some old
  pub same_id : o.id ≡ order.id
  pub orders : d'.orders ≡ replace_order (written order) d.orders
  pub outbox : Told order.id old.status (written order).status d.outbox d'.outbox

cancels :
    (old row : OrderRow)
    → newly_cancelled old row ≡ true
    → (old.status ≢ status_name cancelled) × (row.status ≡ status_name cancelled)
unfolding newly_cancelled
cancels old row h =
    ground (arith, eq_iff old.status row.status, eq_iff row.status (status_name cancelled))

unmoved :
    (old row : OrderRow)
    → newly_cancelled old row ≡ false
    → row.status ≡ status_name cancelled
    → old.status ≡ status_name cancelled
unfolding newly_cancelled
unmoved old row h c =
    ground (arith, eq_iff old.status row.status, eq_iff row.status (status_name cancelled))

fresh_id :
    (p row : OrderRow) (d d' : OrderDb)
    → Queries.create_order p d ≡ ok (row, d')
    → find_order p.id d.orders ≡ none
unfolding Queries.create_order
fresh_id p row d d' e = ground arith

found_order :
    (id : String) (old : OrderRow) (d : OrderDb)
    → Queries.get_order_by_id id d ≡ ok (old, d)
    → find_order id d.orders ≡ some old
unfolding Queries.get_order_by_id
found_order id old d e = ground arith

module _ (codec : Codec) (created_topic cancelled_topic : String) (order : Order)
    (d : OrderDb) where
  pub create_body-Ensures :
      Ensures d (create_body codec created_topic cancelled_topic order) (Created order d)
  unfolding create_body insert_order_items insert_order_created_outbox_event
      new_order_created_outbox_message written stored to_order_db_params
      list_order_items_by_order_id
  create_body-Ensures = step-Ensures d _ _ _ _ λ row d₁ e.
      let (is, h) = create_order-eq-ok _ row d d₁ e in
      >>=-Ensures _ _ d₁ _ _ (insert_items-Holds _ _ order.id 0 order.items d₁ h) λ _ d₂ h₂.
        >>=-Ensures _ _ d₂ _ _
          (insert_event-Holds _ _ _ created_topic _ order_created_event_type order.id
            ("outbox-" <> order.id) d₂ h₂ (λ at. refl)
            (λ at. record { typed = refl; aggregate = refl; keyed = refl }))
          λ _ d₃ r.
            read-Ensures d₃ _ _ _ _ (λ xs d₄ e₄. ground arith)
              λ items e₄. Ensures_mono d₃ _ _ _ (mapped-Ensures _ row items d₃) λ o d₄ m.
                let (same, kept) = Holds-same d₃ d₄ m.1 (r.0, refl) in
                record {
                  same_id = m.0 ∙ ap (λ (x : OrderRow). x.id) is;
                  fresh = fresh_id _ row d d₁ e;
                  orders = same;
                  outbox = subst (Emitted _ _ _ d.outbox) (sym kept) r.1;
                }

  -- The order.cancelled event, where it is due, and the end of `update_body`.
  cancelled_event-Ensures :
      (old : OrderRow) (b : Bool) (o : Order) (d₁ : OrderDb)
      → find_order order.id d.orders ≡ some old
      → newly_cancelled old (written order) ≡ b
      → o.id ≡ order.id
      → Holds (replace_order (written order) d.orders) d.outbox d₁
      → Ensures d₁
          (cancelled_event_if codec created_topic cancelled_topic b o >> pure o)
          (Updated order d)
  unfolding cancelled_event_if insert_order_cancelled_outbox_event
      new_order_cancelled_outbox_message
  cancelled_event-Ensures old true o d₁ was due i h =
      let (before, after) = cancels old (written order) due in
      >>=-Ensures _ _ d₁ _ _
        (insert_event-Holds _ _ _ cancelled_topic _ order_cancelled_event_type order.id
          ("outbox-cancelled-" <> order.id) d₁ h (λ at. ap (λ x. "outbox-cancelled-" <> x) i)
          (λ at. record { typed = refl; aggregate = i; keyed = i }))
        λ _ d₂ r. pure-Ensures o d₂ _ (record {
          old = old;
          was = was;
          same_id = i;
          orders = r.0;
          outbox = becomes_cancelled before after r.1;
        })
  cancelled_event-Ensures old false o d₁ was due i h =
      >>=-Ensures _ _ d₁ (λ _. Holds (replace_order (written order) d.orders) d.outbox) _
        (pure-Ensures tt d₁ _ h)
        λ _ d₂ r. pure-Ensures o d₂ _ (record {
          old = old;
          was = was;
          same_id = i;
          orders = r.0;
          outbox = says_nothing (unmoved old (written order) due) r.1;
        })

  pub update_body-Ensures :
      Ensures d (update_body codec created_topic cancelled_topic order) (Updated order d)
  unfolding update_body insert_order_items Queries.get_order_by_id delete_order_items_by_order_id
      list_order_items_by_order_id written stored to_order_db_params
  update_body-Ensures =
      read-Ensures d _ _ _ _ (λ x d₁ e. ground arith)
        λ old found. step-Ensures d _ _ _ _ λ row d₁ e.
          let (is, h) = update_order-eq-ok _ row d d₁ e in
          step-Ensures d₁ _ _ _ _ λ _ d₂ e₂.
            >>=-Ensures _ _ d₂ _ _
              (insert_items-Holds _ _ order.id 0 order.items d₂
                (let (same, kept) = deleted-Holds order.id _ d₁ d₂ e₂ in (same ∙ h.0, kept ∙ h.1)))
              λ _ d₃ h₃.
                read-Ensures d₃ _ _ _ _ (λ x d₄ e₄. ground arith)
                  λ items e₄. >>=-Ensures _ _ d₃ _ _ (mapped-Ensures _ row items d₃) λ o d₄ r.
                    cancelled_event-Ensures old (newly_cancelled old row) o d₄
                      (found_order order.id old d found) (ap (newly_cancelled old) (sym is))
                      (r.0 ∙ ap (λ (x : OrderRow). x.id) is) (Holds-same d₃ d₄ r.1 h₃)
