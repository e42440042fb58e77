-- ===== src/Order/Delivered.antt =====
-- The events that count as published, and the messages that have been sent.
use event_driven_ecommerce.Base.{
  ℕ, String, str_eq, eq_iff, ◌≡◌, refl, sym, ap, ◌∙◌, subst, Bool, true, false, ◌⊎◌, inr, Option,
  none, some, List, [], ◌∷◌, Message, is_none, arith, if◌then◌else◌, some_inj,
}
use event_driven_ecommerce.Order.Domain.{OrderOutboxEvent}
use event_driven_ecommerce.Order.Queries.{find_event}
use event_driven_ecommerce.Order.Dispatcher.{
  has_event, lock, lock_events, change_event, released, published,
}
use event_driven_ecommerce.Order.Outgoing.{
  message_of, changed, released-Keeping, published-Keeping, Distinct, find_event-change,
  find_event-lock, Distinct-change, Distinct-lock, Carries,
}

-- A message is among those sent.
abbrev pub Sent : Message → List Message → Type 0
Sent m [] = ⊥
Sent m (n ∷ ns) = (n ≡ m) ⊎ Sent m ns

-- Every event has its own id, and where it counts as published its message has been sent.
pub record Delivered (es : List OrderOutboxEvent) (sent : List Message) : Type 0 where
  pub distinct : Distinct es
  pub told :
      (q : String) (e : OrderOutboxEvent)
      → find_event q es ≡ some e
      → is_none e.published_at ≡ false
      → Sent (message_of e) sent

-- An event after a change, or not, with what is to be shown of its message.
abbrev Tells : List Message → OrderOutboxEvent → Type 0
Tells sent e = is_none e.published_at ≡ false → Sent (message_of e) sent

told_after :
    (b : Bool) (f : OrderOutboxEvent → OrderOutboxEvent) (o : Option OrderOutboxEvent)
    (e : OrderOutboxEvent) (sent : List Message)
    → (if b then changed f o else o) ≡ some e
    → ((x : OrderOutboxEvent) → o ≡ some x → b ≡ true → Tells sent (f x))
    → ((x : OrderOutboxEvent) → o ≡ some x → b ≡ false → Tells sent x)
    → Tells sent e
told_after true f none e sent h k l = absurd (ground (arith, h))
told_after true f (some x) e sent h k l = subst (Tells sent) (some_inj (f x) e h) (k x refl refl)
told_after false f none e sent h k l = absurd (ground (arith, h))
told_after false f (some x) e sent h k l = subst (Tells sent) (some_inj x e h) (l x refl refl)

pub Delivered-more :
    (es : List OrderOutboxEvent) (sent : List Message) (m : Message)
    → Delivered es sent
    → Delivered es (m ∷ sent)
Delivered-more es sent m d = record {
  distinct = d.distinct;
  told = λ q e f p. inr (d.told q e f p);
}

pub Delivered-lock :
    (at : ℕ) (c es : List OrderOutboxEvent) (sent : List Message)
    → Delivered es sent
    → Delivered (lock_events at c es) sent
Delivered-lock at c es sent d = record {
  distinct = Distinct-lock at c es d.distinct;
  told = λ q e f.
      told_after (has_event q c) (lock at) (find_event q es) e sent
        (sym (find_event-lock q at c es) ∙ f) (λ x h b. d.told q x h) (λ x h b. d.told q x h);
}

pub Delivered-released :
    (id text : String) (es : List OrderOutboxEvent) (sent : List Message)
    → Delivered es sent
    → Delivered (change_event id (released text) es) sent
Delivered-released id text es sent d = record {
  distinct = Distinct-change id (released text) (released-Keeping text) es d.distinct;
  told = λ q e f.
      told_after (str_eq id q) (released text) (find_event q es) e sent
        (sym (find_event-change q id (released text) (released-Keeping text) es) ∙ f)
        (λ x h b. d.told q x h) (λ x h b. d.told q x h);
}

-- An event whose message has been sent may be marked.
pub Delivered-published :
    (at : ℕ) (row : OrderOutboxEvent) (es : List OrderOutboxEvent) (sent : List Message)
    → Delivered es sent
    → Carries es row
    → Sent (message_of row) sent
    → Delivered (change_event row.id (published at) es) sent
Delivered-published at row es sent d c s = record {
  distinct = Distinct-change row.id (published at) (published-Keeping at) es d.distinct;
  told = λ q e f.
      told_after (str_eq row.id q) (published at) (find_event q es) e sent
        (sym (find_event-change q row.id (published at) (published-Keeping at) es) ∙ f)
        (λ x h b p.
          let same : row.id ≡ q = ground (arith, eq_iff row.id q, b) in
          let at_row : c.event ≡ x =
            some_inj c.event x (sym c.found ∙ ap (λ y. find_event y es) same ∙ h) in
          subst (λ m. Sent m sent) (sym c.message ∙ ap message_of at_row) s)
        (λ x h b. d.told q x h);
}
