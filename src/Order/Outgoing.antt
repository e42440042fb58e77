-- ===== src/Order/Outgoing.antt =====
-- What the statements of the dispatcher do to the events of the outbox.
use event_driven_ecommerce.Base.{
  ℕ, String, str_eq, eq_iff, eq_refl, ◌≡◌, refl, sym, ◌∙◌, subst, Bool, true, false, Bool-cases,
  inl, inr, Option, none, some, List, [], ◌∷◌, All, Message, arith, if◌then◌else◌,
}
use event_driven_ecommerce.Order.Domain.{OrderOutboxEvent}
use event_driven_ecommerce.Order.Queries.{find_event}
use event_driven_ecommerce.Order.Dispatcher.{
  has_event, lock, lock_events, locked_ones, change_event, released, published,
}

abbrev pub message_of : OrderOutboxEvent → Message
message_of e = record { topic = e.topic; key = e.event_key; value = e.payload }

-- A change that keeps the id and the message of an event.
pub record Keeping (f : OrderOutboxEvent → OrderOutboxEvent) : Type 0 where
  pub same_id : (e : OrderOutboxEvent) → (f e).id ≡ e.id
  pub same_message : (e : OrderOutboxEvent) → message_of (f e) ≡ message_of e

pub released-Keeping : (text : String) → Keeping (released text)
released-Keeping text = record { same_id = λ e. refl; same_message = λ e. refl }

pub published-Keeping : (at : ℕ) → Keeping (published at)
published-Keeping at = record { same_id = λ e. refl; same_message = λ e. refl }

abbrev pub changed :
    (OrderOutboxEvent → OrderOutboxEvent) → Option OrderOutboxEvent → Option OrderOutboxEvent
changed f none = none
changed f (some e) = some (f e)

-- Every event has its own id.
abbrev pub Distinct : List OrderOutboxEvent → Type 0
Distinct [] = Unit
Distinct (e ∷ es) = (find_event e.id es ≡ none) × Distinct es

pub find_event-change :
    (q id : String) (f : OrderOutboxEvent → OrderOutboxEvent) (k : Keeping f)
    (es : List OrderOutboxEvent)
    → find_event q (change_event id f es)
      ≡ (if str_eq id q then changed f (find_event q es) else find_event q es)
unfolding find_event change_event
find_event-change q id f k [] = ground arith
find_event-change q id f k (e ∷ es) = ground (
  arith,
  eq_iff e.id id,
  eq_iff e.id q,
  eq_iff id q,
  k.same_id e,
  eq_iff (f e).id q,
  find_event-change q id f k es,
)

pub find_event-lock :
    (q : String) (at : ℕ) (c es : List OrderOutboxEvent)
    → find_event q (lock_events at c es)
      ≡ (if has_event q c then changed (lock at) (find_event q es) else find_event q es)
unfolding find_event lock_events
find_event-lock q at c [] = ground arith
find_event-lock q at c (e ∷ es) = ground (arith, eq_iff e.id q, find_event-lock q at c es)

-- The event with the id of a row that was claimed is still there, with its message.
pub record Carries (es : List OrderOutboxEvent) (row : OrderOutboxEvent) : Type 0 where
  pub event : OrderOutboxEvent
  pub found : find_event row.id es ≡ some event
  pub message : message_of event ≡ message_of row

abbrev Kept : String → List OrderOutboxEvent → OrderOutboxEvent → Type 0
Kept q es e = (e' : OrderOutboxEvent) × (find_event q es ≡ some e') × (message_of e' ≡ message_of e)

there_after_change :
    (q id : String) (f : OrderOutboxEvent → OrderOutboxEvent) (k : Keeping f)
    (es : List OrderOutboxEvent) (e : OrderOutboxEvent)
    → find_event q es ≡ some e
    → Kept q (change_event id f es) e
there_after_change q id f k es e h = elim (Bool-cases (str_eq id q)) [
  | inl same ↦ (f e, ground (arith, same, h, find_event-change q id f k es), k.same_message e)
  | inr other ↦ (e, ground (arith, other, h, find_event-change q id f k es), refl)
]

there_after_lock :
    (q : String) (at : ℕ) (c es : List OrderOutboxEvent) (e : OrderOutboxEvent)
    → find_event q es ≡ some e
    → Kept q (lock_events at c es) e
there_after_lock q at c es e h = elim (Bool-cases (has_event q c)) [
  | inl same ↦ (lock at e, ground (arith, same, h, find_event-lock q at c es), refl)
  | inr other ↦ (e, ground (arith, other, h, find_event-lock q at c es), refl)
]

lost_in_change :
    (q id : String) (f : OrderOutboxEvent → OrderOutboxEvent) (k : Keeping f)
    (es : List OrderOutboxEvent)
    → find_event q es ≡ none
    → find_event q (change_event id f es) ≡ none
lost_in_change q id f k es h = ground (arith, h, find_event-change q id f k es)

lost_in_lock :
    (q : String) (at : ℕ) (c es : List OrderOutboxEvent)
    → find_event q es ≡ none
    → find_event q (lock_events at c es) ≡ none
lost_in_lock q at c es h = ground (arith, h, find_event-lock q at c es)

pub Distinct-change :
    (id : String) (f : OrderOutboxEvent → OrderOutboxEvent) (k : Keeping f)
    (es : List OrderOutboxEvent)
    → Distinct es
    → Distinct (change_event id f es)
unfolding change_event
Distinct-change id f k [] d = tt
Distinct-change id f k (e ∷ es) (fresh, d) = elim (Bool-cases (str_eq e.id id)) [
  | inl same ↦
      let here : f e ∷ es ≡ change_event id f (e ∷ es) = ground (arith, same) in
      subst Distinct here (subst (λ x. find_event x es ≡ none) (sym (k.same_id e)) fresh, d)
  | inr other ↦
      let later : e ∷ change_event id f es ≡ change_event id f (e ∷ es) = ground (arith, other) in
      subst Distinct later (lost_in_change e.id id f k es fresh, Distinct-change id f k es d)
]

id-lock : (b : Bool) (at : ℕ) (e : OrderOutboxEvent) → (if b then lock at e else e).id ≡ e.id
id-lock true at e = refl
id-lock false at e = refl

pub Distinct-lock :
    (at : ℕ) (c es : List OrderOutboxEvent) → Distinct es → Distinct (lock_events at c es)
unfolding lock_events
Distinct-lock at c [] d = tt
Distinct-lock at c (e ∷ es) (fresh, d) = (
  subst (λ x. find_event x (lock_events at c es) ≡ none) (sym (id-lock (has_event e.id c) at e))
      (lost_in_lock e.id at c es fresh),
  Distinct-lock at c es d,
)

pub Carries-change :
    (id : String) (f : OrderOutboxEvent → OrderOutboxEvent) (k : Keeping f)
    (es : List OrderOutboxEvent) (row : OrderOutboxEvent)
    → Carries es row
    → Carries (change_event id f es) row
Carries-change id f k es row c =
    let (e, found, message) = there_after_change row.id id f k es c.event c.found in
    record { event = e; found = found; message = message ∙ c.message }

-- A row that stays behind one with another id.
Carries-behind :
    (e row : OrderOutboxEvent) (es : List OrderOutboxEvent)
    → find_event e.id es ≡ none
    → Carries es row
    → Carries (e ∷ es) row
unfolding find_event
Carries-behind e row es fresh c = record {
  event = c.event;
  found = ground (arith, eq_iff e.id row.id, fresh, c.found);
  message = c.message;
}

All-behind :
    (e : OrderOutboxEvent) (rows es : List OrderOutboxEvent)
    → find_event e.id es ≡ none
    → All (Carries es) rows
    → All (Carries (e ∷ es)) rows
All-behind e [] es fresh all = tt
All-behind e (row ∷ rows) es fresh (c, all) =
    (Carries-behind e row es fresh c, All-behind e rows es fresh all)

claimed_head :
    (b : Bool) (at : ℕ) (e : OrderOutboxEvent) (es rows : List OrderOutboxEvent)
    → All (Carries ((if b then lock at e else e) ∷ es)) rows
    → All (Carries ((if b then lock at e else e) ∷ es)) (if b then lock at e ∷ rows else rows)
unfolding find_event
claimed_head true at e es rows tail =
    let here : find_event e.id (lock at e ∷ es) ≡ some (lock at e) = ground (arith, eq_refl e.id) in
    (record { event = lock at e; found = here; message = refl }, tail)
claimed_head false at e es rows tail = tail

-- The rows that are claimed are in the table with the messages that they carry.
pub locked_ones-Carries :
    (at : ℕ) (c es : List OrderOutboxEvent)
    → Distinct es
    → All (Carries (lock_events at c es)) (locked_ones at c es)
unfolding lock_events locked_ones find_event
locked_ones-Carries at c [] d = tt
locked_ones-Carries at c (e ∷ es) (fresh, d) =
    let e' = if has_event e.id c then lock at e else e in
    let tail : All (Carries (e' ∷ lock_events at c es)) (locked_ones at c es) =
      All-behind e' (locked_ones at c es) (lock_events at c es)
        (subst (λ x. find_event x (lock_events at c es) ≡ none)
          (sym (id-lock (has_event e.id c) at e)) (lost_in_lock e.id at c es fresh))
        (locked_ones-Carries at c es d) in
    claimed_head (has_event e.id c) at e (lock_events at c es) (locked_ones at c es) tail
