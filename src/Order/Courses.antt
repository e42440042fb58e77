-- ===== src/Order/Courses.antt =====
-- Every operation and consumer of the order service moves orders along `Step` alone.
use event_driven_ecommerce.Base.{
  ℕ, String, ◌≡◌, refl, ap, ◌∙◌, subst, Bool, true, false, not, Option, none, some, List, arith,
  World, Keeps, Settles, Settles-Keeps, Settles_mono, Ensures, read-Ensures, lift-Ensures, Ends,
  Settles-Ends, Ends-Settles, reading-Ends, bind-Ends, guard-Settles, pure-Settles, clock-Settles,
  if-Settles, on_some, pure, ◌>>=◌, ok, now, trim_space,
}
use event_driven_ecommerce.Events.{Codec}
use event_driven_ecommerce.Order.Enums.{OrderStatus, status_name, is_cancelled}
use event_driven_ecommerce.Order.Domain.{Order, OrderRow, OrderDb}
use event_driven_ecommerce.Order.Queries
use event_driven_ecommerce.Order.Queries.{find_order, list_order_items_by_order_id}
use event_driven_ecommerce.Order.Repository
use event_driven_ecommerce.Order.Repository.{get_order_by_id}
use event_driven_ecommerce.Order.Service
use event_driven_ecommerce.Order.Service.{
  Transition, can_cancel_order, cancel_order_with_reason, create_order, cancel_found, cancel_order,
  apply_transition, transition_order, inventory_reserved_transition, payment_captured_transition,
  failed_transition,
}
use event_driven_ecommerce.Order.Consumers.{run}
use event_driven_ecommerce.Order.Handling.{Topic, handler, consumer-Keeps}
use event_driven_ecommerce.Order.Reading.{get_order_by_id-Keeps, create_order-Keeps}
use event_driven_ecommerce.Order.Outbox.{id-find_order}
use event_driven_ecommerce.Order.Statements.{id-map_db_order}
use event_driven_ecommerce.Order.Publishing.{update_order-Settles, create_order-Settles}
use event_driven_ecommerce.Order.Transitions.{
  LawfulAt, inventory_reserved_lawful, payment_captured_lawful, failed_lawful, cancel_lawful,
}
use event_driven_ecommerce.Order.Lifecycle.{
  Step, Moved, Moved-refl, Moved-trans, Updated-Moved, Created-Moved, status-map_db_order,
}

-- What is read of an order is what its row says.
record Read (id : String) (o : Order) (d : OrderDb) : Type 0 where
  row : OrderRow
  found : find_order id d.orders ≡ some row
  same_id : o.id ≡ row.id
  status : row.status ≡ status_name o.status

found_row :
    (id : String) (d : OrderDb) (row : OrderRow)
    → Queries.get_order_by_id id d ≡ ok (row, d)
    → find_order id d.orders ≡ some row
unfolding Queries.get_order_by_id
found_row id d row e = ground arith

get_order_by_id-Ensures : (id : String) (d : OrderDb) → Ensures d (get_order_by_id id) (Read id)
unfolding get_order_by_id Queries.get_order_by_id list_order_items_by_order_id
get_order_by_id-Ensures id d =
    read-Ensures d _ _ _ _ (λ x d₁ e. ground arith)
      λ row e.
        read-Ensures d _ _ _ _ (λ x d₁ e₁. ground arith)
          λ items e₁. lift-Ensures _ d _ λ o h. record {
            row = row;
            found = found_row id d row e;
            same_id = id-map_db_order row items o h;
            status = status-map_db_order row items o h;
          }

get_order_by_id-Ends :
    (id : String) (d : OrderDb)
    → Ends d (get_order_by_id id) (λ o d'. (d' ≡ d) × Read id o d') (λ _ d'. d' ≡ d)
get_order_by_id-Ends id d =
    reading-Ends d _ (Read id) (get_order_by_id-Ensures id d)
      (λ w at. (get_order_by_id-Keeps (λ x. x ≡ d) id).apply w at)

true_of_not : (b : Bool) → not b ≡ false → b ≡ true
true_of_not true h = refl
true_of_not false h = absurd (ground (arith, h))

module _ (codec : Codec) (created_topic cancelled_topic : String) where
  -- An order that has been read is written with the next status.
  write_back-Settles :
      (id : String) (d : OrderDb) (o next : Order)
      → Read id o d
      → Step o.status next.status
      → next.id ≡ o.id
      → Settles d (Service.update_order codec created_topic cancelled_topic next) (λ _. Moved d)
  unfolding Service.update_order
  write_back-Settles id d o next r step i =
      Settles_mono d _ _ _ (update_order-Settles codec created_topic cancelled_topic next d)
        λ o' d' u.
          Updated-Moved next o.status r.row d d' o'
            (ap (λ x. find_order x d.orders)
                (i ∙ r.same_id ∙ id-find_order id d.orders r.row r.found)
              ∙ r.found)
            r.status step u

  changed-Settles :
      (id : String) (d : OrderDb) (o : Order) (x : Option (ℕ → Order → Order))
      → Read id o d
      → LawfulAt o.status x
      → Settles d
          (on_some x (pure o) λ change.
            now >>= λ at. Service.update_order codec created_topic cancelled_topic (change at o))
          (λ _. Moved d)
  unfolding on_some
  changed-Settles id d o none r l = pure-Settles d o _ (Moved-refl d)
  changed-Settles id d o (some change) r l =
      clock-Settles d _ _
        λ at. let (step, same) = l at o refl in write_back-Settles id d o (change at o) r step same

  transition_order-Settles :
      (id : String) (f : Transition) (d : OrderDb)
      → ((s : OrderStatus) → LawfulAt s (f s))
      → Settles d (transition_order codec created_topic cancelled_topic id f) (λ _. Moved d)
  unfolding transition_order apply_transition
  transition_order-Settles id f d l = Ends-Settles d _ _ (
      bind-Ends d _ _ (λ o d'. (d' ≡ d) × Read id o d') _ _ (get_order_by_id-Ends id d)
        λ o d' r.
          subst
            (λ x.
              Ends d' (apply_transition codec created_topic cancelled_topic f o) (λ _. Moved x)
                (λ _ d''. d'' ≡ x))
            r.0 (Settles-Ends d' _ _ (changed-Settles id d' o (f o.status) r.1 (l o.status))))

  transition_order-Keeps :
      (d₀ : OrderDb) (id : String) (f : Transition)
      → ((s : OrderStatus) → LawfulAt s (f s))
      → Keeps (Moved d₀) (transition_order codec created_topic cancelled_topic id f)
  transition_order-Keeps d₀ id f l =
      Settles-Keeps (Moved d₀) _ (λ d _. Moved d) (λ d m. transition_order-Settles id f d l)
        (λ d o d' m n. Moved-trans d₀ d d' m n)

  cancel_found-Settles :
      (id reason : String) (d : OrderDb) (o : Order)
      → Read id o d
      → Settles d (cancel_found codec created_topic cancelled_topic reason o) (λ _. Moved d)
  unfolding cancel_found cancel_order_with_reason
  cancel_found-Settles id reason d o r =
      if-Settles d (is_cancelled o.status) _ _ _ (λ _. pure-Settles d o _ (Moved-refl d))
        λ _. guard-Settles d _ _ _ _ λ can. clock-Settles d _ _ λ at.
          write_back-Settles id d o (cancel_order_with_reason at reason o) r
            (cancel_lawful o.status (true_of_not _ can)) refl

  cancel_order-Settles :
      (id reason : String) (d : OrderDb)
      → Settles d (cancel_order codec created_topic cancelled_topic id reason) (λ _. Moved d)
  unfolding cancel_order
  cancel_order-Settles id reason d = guard-Settles d _ _ _ _ λ _. guard-Settles d _ _ _ _ λ _.
      Ends-Settles d _ _ (
        bind-Ends d _ _ (λ o d'. (d' ≡ d) × Read id o d') _ _ (get_order_by_id-Ends id d)
          λ o d' r.
            subst
              (λ x.
                Ends d' (cancel_found codec created_topic cancelled_topic (trim_space reason) o)
                  (λ _. Moved x) (λ _ d''. d'' ≡ x))
              r.0 (Settles-Ends d' _ _ (cancel_found-Settles id (trim_space reason) d' o r.1)))

  cancel_order-Keeps :
      (d₀ : OrderDb) (id reason : String)
      → Keeps (Moved d₀) (cancel_order codec created_topic cancelled_topic id reason)
  cancel_order-Keeps d₀ id reason =
      Settles-Keeps (Moved d₀) _ (λ d _. Moved d) (λ d m. cancel_order-Settles id reason d)
        (λ d o d' m n. Moved-trans d₀ d d' m n)

  create_row-Keeps :
      (d₀ : OrderDb) (order : Order)
      → Keeps (Moved d₀) (Repository.create_order codec created_topic cancelled_topic order)
  create_row-Keeps d₀ order =
      Settles-Keeps (Moved d₀) _ (λ d _. Moved d)
        (λ d m.
          Settles_mono d _ _ _ (create_order-Settles codec created_topic cancelled_topic order d)
            (λ o d' c. Created-Moved order d d' o c))
        (λ d o d' m n. Moved-trans d₀ d d' m n)

  pub consumer-Moved :
      (t : Topic) (expected : String) (ms : List String) (w : World OrderDb)
      → Moved w.db (run codec expected (handler codec created_topic cancelled_topic t) ms w).1.db
  consumer-Moved t expected ms w =
      (consumer-Keeps codec created_topic cancelled_topic (Moved w.db)
          (λ id. transition_order-Keeps w.db id _ inventory_reserved_lawful)
          (λ id. transition_order-Keeps w.db id _ payment_captured_lawful)
          (λ r id. transition_order-Keeps w.db id _ (failed_lawful r)) t expected ms).apply
        w (Moved-refl w.db)

  -- Whatever `CreateOrder`, `CancelOrder` and the five consumers are given, and whichever calls
  -- fail, every order that was there stays under its id, and its status moves along `Step` alone.
  pub run-Moved :
      (raw : Order) (id reason expected : String) (t : Topic) (ms : List String) (w : World OrderDb)
      → Moved w.db (create_order codec created_topic cancelled_topic raw w).1.db
        × Moved w.db (cancel_order codec created_topic cancelled_topic id reason w).1.db
        × Moved w.db (run codec expected (handler codec created_topic cancelled_topic t) ms w).1.db
  run-Moved raw id reason expected t ms w = (
    (create_order-Keeps codec created_topic cancelled_topic (Moved w.db)
          (λ order _. create_row-Keeps w.db order) raw).apply
        w (Moved-refl w.db),
    (cancel_order-Keeps w.db id reason).apply w (Moved-refl w.db),
    consumer-Moved t expected ms w,
  )
