-- ===== src/Order/Outbox.antt =====
-- Every order has its order.created event in the outbox, and every cancelled order its
-- order.cancelled event: what the tables of the order service keep.
use event_driven_ecommerce.Base.{
  String, str_eq, eq_iff, ◌<>◌, ◌≡◌, refl, sym, ap, subst, ◌∙◌, false, true, Bool-cases, inl, inr,
  none, some, List, [], ◌∷◌, arith,
}
use event_driven_ecommerce.Events.{order_created_event_type, order_cancelled_event_type}
use event_driven_ecommerce.Order.Enums.{status_name, pending, cancelled}
use event_driven_ecommerce.Order.Domain.{OrderRow, OrderOutboxEvent}
use event_driven_ecommerce.Order.Queries.{find_order, replace_order, find_event}

-- An event of the type about the order `q`, with its id as the key of the message.
pub record About (type q : String) (e : OrderOutboxEvent) : Type 0 where
  pub typed : e.event_type ≡ type
  pub aggregate : e.aggregate_id ≡ q
  pub keyed : e.event_key ≡ q

-- The event with the id is of the type and about the order `q`.
abbrev pub Recorded : String → String → String → List OrderOutboxEvent → Type 0
Recorded type q id es = (e : OrderOutboxEvent) × (find_event id es ≡ some e) × About type q e

abbrev pub HasCreated : String → List OrderOutboxEvent → Type 0
HasCreated q es = Recorded order_created_event_type q ("outbox-" <> q) es

abbrev pub HasCancelled : String → List OrderOutboxEvent → Type 0
HasCancelled q es = Recorded order_cancelled_event_type q ("outbox-cancelled-" <> q) es

pub record Announced (orders : List OrderRow) (outbox : List OrderOutboxEvent) : Type 0 where
  pub created : (q : String) (row : OrderRow) → find_order q orders ≡ some row → HasCreated q outbox
  pub cancelled :
      (q : String) (row : OrderRow)
      → find_order q orders ≡ some row
      → row.status ≡ status_name cancelled
      → HasCancelled q outbox

-- An event of the type about `q`, with an id that no event had, is put before the others.
pub record Emitted (type q id : String) (es es' : List OrderOutboxEvent) : Type 0 where
  pub event : OrderOutboxEvent
  pub named : event.id ≡ id
  pub about : About type q event
  pub fresh : find_event id es ≡ none
  pub put : es' ≡ event ∷ es

kept_by :
    (id : String) (e x : OrderOutboxEvent) (es : List OrderOutboxEvent)
    → find_event e.id es ≡ none
    → find_event id es ≡ some x
    → find_event id (e ∷ es) ≡ some x
unfolding find_event
kept_by id e x es new h = ground (arith, eq_iff e.id id)

found_first :
    (id : String) (e : OrderOutboxEvent) (es : List OrderOutboxEvent)
    → e.id ≡ id
    → find_event id (e ∷ es) ≡ some e
unfolding find_event
found_first id e es h = ground (arith, eq_iff e.id id)

module _ (type q id : String) (es es' : List OrderOutboxEvent) (m : Emitted type q id es es') where
  Recorded-later : (type' q' id' : String) → Recorded type' q' id' es → Recorded type' q' id' es'
  Recorded-later type' q' id' (x, h, a) =
      let new : find_event m.event.id es ≡ none = rw m.named m.fresh in
      (x, rw m.put (kept_by id' m.event x es new h), a)

  Recorded-first : Recorded type q id es'
  Recorded-first = (m.event, rw m.put (found_first id m.event es m.named), m.about)

pub id-find_order :
    (q : String) (rs : List OrderRow) (row : OrderRow) → find_order q rs ≡ some row → row.id ≡ q
unfolding find_order
id-find_order q [] row e = absurd (ground arith)
id-find_order q (r ∷ rs) row e = ground (arith, eq_iff r.id q, id-find_order q rs row)

pub find_order-replace_same :
    (t old : OrderRow) (rs : List OrderRow)
    → find_order t.id rs ≡ some old
    → find_order t.id (replace_order t rs) ≡ some t
unfolding find_order replace_order
find_order-replace_same t old [] e = absurd (ground arith)
find_order-replace_same t old (r ∷ rs) e =
    ground (arith, eq_iff t.id t.id, eq_iff r.id t.id, find_order-replace_same t old rs)

pub find_order-replace_other :
    (t : OrderRow) (q : String) (rs : List OrderRow)
    → str_eq t.id q ≡ false
    → find_order q (replace_order t rs) ≡ find_order q rs
unfolding find_order replace_order
find_order-replace_other t q [] h = refl
find_order-replace_other t q (r ∷ rs) h =
    ground
      (arith, eq_iff t.id q, eq_iff r.id t.id, eq_iff r.id q, find_order-replace_other t q rs h)

pending_is_not_cancelled : status_name pending ≡ status_name cancelled → ⊥
unfolding status_name
pending_is_not_cancelled h =
    absurd (ground (arith, h, eq_iff "ORDER_STATUS_PENDING" "ORDER_STATUS_CANCELLED"))

find_order-first :
    (row r : OrderRow) (q : String) (rs : List OrderRow)
    → find_order q (row ∷ rs) ≡ some r
    → str_eq row.id q ≡ true
    → (row.id ≡ q) × (r ≡ row)
unfolding find_order
find_order-first row r q rs f h = ground (arith, eq_iff row.id q)

find_order-rest :
    (row r : OrderRow) (q : String) (rs : List OrderRow)
    → find_order q (row ∷ rs) ≡ some r
    → str_eq row.id q ≡ false
    → find_order q rs ≡ some r
unfolding find_order
find_order-rest row r q rs f h = ground (arith, eq_iff row.id q)

-- A new order, which is not cancelled, and its event.
pub Announced-created :
    (rs : List OrderRow) (es es' : List OrderOutboxEvent) (row : OrderRow)
    → Announced rs es
    → Emitted order_created_event_type row.id ("outbox-" <> row.id) es es'
    → row.status ≡ status_name pending
    → Announced (row ∷ rs) es'
Announced-created rs es es' row a m s = record {
  created = λ q r f. elim (Bool-cases (str_eq row.id q)) [
    | inl same ↦
        subst (λ x. HasCreated x es') (find_order-first row r q rs f same).0
          (Recorded-first _ _ _ _ _ m)
    | inr other ↦
        Recorded-later _ _ _ _ _ m _ _ _ (a.created q r (find_order-rest row r q rs f other))
  ];
  cancelled = λ q r f c. elim (Bool-cases (str_eq row.id q)) [
    | inl same ↦ absurd (
        pending_is_not_cancelled (
          sym s ∙ sym (ap (λ (x : OrderRow). x.status) (find_order-first row r q rs f same).1) ∙ c))
    | inr other ↦
        Recorded-later _ _ _ _ _ m _ _ _ (a.cancelled q r (find_order-rest row r q rs f other) c)
  ];
}

-- An order that was there is written again.
module _ (rs : List OrderRow) (es : List OrderOutboxEvent) (row old : OrderRow)
    (a : Announced rs es) (was : find_order row.id rs ≡ some old) where
  rewritten :
      (q : String) (r : OrderRow)
      → find_order q (replace_order row rs) ≡ some r
      → str_eq row.id q ≡ true
      → (row.id ≡ q) × (r ≡ row)
  rewritten q r f h = ground (arith, eq_iff row.id q, find_order-replace_same row old rs was)

  untouched :
      (q : String) (r : OrderRow)
      → find_order q (replace_order row rs) ≡ some r
      → str_eq row.id q ≡ false
      → find_order q rs ≡ some r
  untouched q r f h = sym (find_order-replace_other row q rs h) ∙ f

  created_before :
      (q : String) (r : OrderRow) → find_order q (replace_order row rs) ≡ some r → HasCreated q es
  created_before q r f = elim (Bool-cases (str_eq row.id q)) [
    | inl same ↦ subst (λ x. HasCreated x es) (rewritten q r f same).0 (a.created row.id old was)
    | inr other ↦ a.created q r (untouched q r f other)
  ]

  -- With no event.
  pub Announced-updated :
      (row.status ≡ status_name cancelled → old.status ≡ status_name cancelled)
      → Announced (replace_order row rs) es
  Announced-updated s = record {
    created = created_before;
    cancelled = λ q r f c. elim (Bool-cases (str_eq row.id q)) [
      | inl same ↦
          let (here, is) = rewritten q r f same in
          subst (λ x. HasCancelled x es) here
            (a.cancelled row.id old was (s (sym (ap (λ (x : OrderRow). x.status) is) ∙ c)))
      | inr other ↦ a.cancelled q r (untouched q r f other) c
    ];
  }

  -- With an event that it is cancelled.
  pub Announced-cancelled :
      (es' : List OrderOutboxEvent)
      → Emitted order_cancelled_event_type row.id ("outbox-cancelled-" <> row.id) es es'
      → Announced (replace_order row rs) es'
  Announced-cancelled es' m = record {
    created = λ q r f. Recorded-later _ _ _ _ _ m _ _ _ (created_before q r f);
    cancelled = λ q r f c. elim (Bool-cases (str_eq row.id q)) [
      | inl same ↦
          subst (λ x. HasCancelled x es') (rewritten q r f same).0 (Recorded-first _ _ _ _ _ m)
      | inr other ↦ Recorded-later _ _ _ _ _ m _ _ _ (a.cancelled q r (untouched q r f other) c)
    ];
  }
