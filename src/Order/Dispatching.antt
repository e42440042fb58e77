-- ===== src/Order/Dispatching.antt =====
-- The rounds of the dispatcher over every fault.
use event_driven_ecommerce.Base.{
  ℕ, zero, suc, ◌-◌, ◌<>◌, String, ◌≡◌, refl, sym, subst, Bool-cases, Option-cases, inl, inr,
  Option, none, some, List, [], ◌∷◌, All, Message, World, Result, ok, err, Failure, DbError, Action,
  ◌>>=◌, fail, query, query-broken, query-ok, now, running, outside, pos_part, arith,
}
use event_driven_ecommerce.Order.Domain.{OrderOutboxEvent, OrderDb, OrderError}
use event_driven_ecommerce.Order.Dispatcher.{
  OutboxDispatcherConfig, validate, change_event, released, published, attempts_left,
  claim_pending_order_outbox_events, get_order_outbox_stats, release_order_outbox_event,
  mark_order_outbox_event_published, publish, after_publish, dispatch_row, dispatch_rows,
  after_claim, dispatch_once, rounds, started, run,
}
use event_driven_ecommerce.Order.Outgoing.{
  message_of, Carries, Carries-change, released-Keeping, published-Keeping, locked_ones-Carries,
}
use event_driven_ecommerce.Order.Delivered.{
  Delivered, Delivered-more, Delivered-lock, Delivered-released, Delivered-published,
}

-- What one row comes to.
data RowDone (row : OrderOutboxEvent) (w w' : World OrderDb) : Type 0 where
  left : w'.sent ≡ w.sent → w'.db.outbox ≡ w.db.outbox → RowDone row w w'
  let_go :
      (text : String)
      → w'.sent ≡ w.sent
      → w'.db.outbox ≡ change_event row.id (released text) w.db.outbox
      → RowDone row w w'
  unmarked : w'.sent ≡ message_of row ∷ w.sent → w'.db.outbox ≡ w.db.outbox → RowDone row w w'
  marked :
      (at : ℕ)
      → w'.sent ≡ message_of row ∷ w.sent
      → w'.db.outbox ≡ change_event row.id (published at) w.db.outbox
      → RowDone row w w'

dispatch_row-done :
    (row : OrderOutboxEvent) (w : World OrderDb) → RowDone row w (dispatch_row row w).1
unfolding dispatch_row publish after_publish release_order_outbox_event
    mark_order_outbox_event_published running outside
dispatch_row-done row w = elim (Option-cases (w.fault w.tick)) [
  | inr (text, lost) ↦ elim (Option-cases (w.fault (suc w.tick))) [
    | inr (again, e) ↦ left (ground (arith, lost, e)) (ground (arith, lost, e))
    | inl e ↦ elim (Bool-cases (attempts_left row.id w.db.outbox)) [
      | inl more ↦
          let_go ("write kafka message: " <> text) (ground (arith, lost, e, more))
            (ground (arith, lost, e, more))
      | inr over ↦ left (ground (arith, lost, e, over)) (ground (arith, lost, e, over))
    ]
  ]
  | inl there ↦ elim (Option-cases (w.fault (suc (suc w.tick)))) [
    | inr (text, e) ↦ unmarked (ground (arith, there, e)) (ground (arith, there, e))
    | inl e ↦ marked (w.clock (suc w.tick)) (ground (arith, there, e)) (ground (arith, there, e))
  ]
]

-- What holds while rows are dispatched.
record Ready (rows : List OrderOutboxEvent) (w : World OrderDb) : Type 0 where
  delivered : Delivered w.db.outbox w.sent
  carried : All (Carries w.db.outbox) rows

All-changed :
    (id : String) (f : OrderOutboxEvent → OrderOutboxEvent)
    (k : (row : OrderOutboxEvent) (es : List OrderOutboxEvent)
      → Carries es row
      → Carries (change_event id f es) row)
    (es rows : List OrderOutboxEvent)
    → All (Carries es) rows
    → All (Carries (change_event id f es)) rows
All-changed id f k es [] all = tt
All-changed id f k es (row ∷ rows) (c, all) = (k row es c, All-changed id f k es rows all)

ready :
    (rows es : List OrderOutboxEvent) (sent : List Message) (w : World OrderDb)
    → w.sent ≡ sent
    → w.db.outbox ≡ es
    → Delivered es sent
    → All (Carries es) rows
    → Ready rows w
ready rows es sent w s o d c = record {
  delivered = subst (Delivered w.db.outbox) (sym s) (subst (λ x. Delivered x sent) (sym o) d);
  carried = subst (λ x. All (Carries x) rows) (sym o) c;
}

RowDone-Ready :
    (row : OrderOutboxEvent) (rows : List OrderOutboxEvent) (w w' : World OrderDb)
    → Ready (row ∷ rows) w
    → RowDone row w w'
    → Ready rows w'
RowDone-Ready row rows w w' r (left s o) = ready rows _ _ w' s o r.delivered (r.carried.1)
RowDone-Ready row rows w w' r (let_go text s o) =
    ready rows _ _ w' s o (Delivered-released row.id text _ _ r.delivered) (
      All-changed row.id (released text)
        (λ x es. Carries-change row.id (released text) (released-Keeping text) es x) _ rows
        (r.carried.1))
RowDone-Ready row rows w w' r (unmarked s o) =
    ready rows _ _ w' s o (Delivered-more _ _ _ r.delivered) (r.carried.1)
RowDone-Ready row rows w w' r (marked at s o) =
    ready rows _ _ w' s o
      (Delivered-published at row _ _ (Delivered-more _ _ _ r.delivered) (r.carried.0) (inl refl))
      (All-changed row.id (published at)
        (λ x es. Carries-change row.id (published at) (published-Keeping at) es x) _ rows
        (r.carried.1))

abbrev pub Tidy : World OrderDb → Type 0
Tidy w = Delivered w.db.outbox w.sent

bound :
    {A B : Type 0} (f : A → Action (World OrderDb) (Failure OrderError) B)
    (P : World OrderDb → Type 0) (x : Result (Failure OrderError) A × World OrderDb)
    → P x.1
    → ((w : World OrderDb) → P w → Tidy w)
    → ((a : A) (w : World OrderDb) → P w → Tidy (f a w).1)
    → Tidy (◌>>=◌ (λ (w : World OrderDb). x) f x.1).1
unfolding running
bound f P (ok a, w) p h k = k a w p
bound f P (err e, w) p h k = h w p

dispatch_rows-Tidy :
    (rows : List OrderOutboxEvent) (w : World OrderDb)
    → Ready rows w
    → Tidy (dispatch_rows rows w).1
unfolding dispatch_rows running
dispatch_rows-Tidy [] w r = r.delivered
dispatch_rows-Tidy (row ∷ rows) w r =
    bound (λ _. dispatch_rows rows) (Ready rows) (dispatch_row row w)
      (RowDone-Ready row rows w _ r (dispatch_row-done row w)) (λ v r'. r'.delivered)
      (λ _ v r'. dispatch_rows-Tidy rows v r')

abbrev Claimed : Result DbError (List OrderOutboxEvent) → World OrderDb → Type 0
Claimed (err e) w = Tidy w
Claimed (ok rows) w = Ready rows w

claim-Claimed :
    (limit before at : ℕ) (w : World OrderDb)
    → Tidy w
    → let x = query (claim_pending_order_outbox_events limit before at) w in Claimed x.0 x.1
unfolding claim_pending_order_outbox_events
claim-Claimed limit before at w t =
    let q = claim_pending_order_outbox_events limit before at in
    elim (Option-cases (w.fault w.tick)) [
      | inr (text, e) ↦
          subst (λ (x : Result DbError (List OrderOutboxEvent) × World OrderDb). Claimed x.0 x.1)
            (sym (query-broken q w text e)) t
      | inl e ↦
          subst (λ (x : Result DbError (List OrderOutboxEvent) × World OrderDb). Claimed x.0 x.1)
            (sym (query-ok q w _ _ e refl))
            (record {
              delivered = Delivered-lock at _ w.db.outbox w.sent t;
              carried = locked_ones-Carries at _ w.db.outbox t.distinct;
            })
    ]

stats_read_only :
    (w : World OrderDb)
    → let x = query get_order_outbox_stats w in (x.1.sent ≡ w.sent) × (x.1.db.outbox ≡ w.db.outbox)
unfolding query get_order_outbox_stats
stats_read_only w = ground arith

after_claim-Tidy :
    (r : Result DbError (List OrderOutboxEvent)) (w : World OrderDb)
    → Claimed r w
    → Tidy (after_claim r w).1
unfolding after_claim running
after_claim-Tidy (err e) w t = t
after_claim-Tidy (ok rows) w r =
    let (s, o) = stats_read_only w in
    dispatch_rows-Tidy rows (query get_order_outbox_stats w).1
      (ready rows _ _ _ s o r.delivered r.carried)

dispatch_once-Tidy :
    (c : OutboxDispatcherConfig) (w : World OrderDb) → Tidy w → Tidy (dispatch_once c w).1
unfolding dispatch_once running now
dispatch_once-Tidy c w t = after_claim-Tidy _ _ (
    claim-Claimed (pos_part c.batch_size) (w.clock w.tick - pos_part c.lock_timeout)
      (w.clock w.tick) (record w { tick = suc w.tick }) t)

rounds-Tidy :
    (n : ℕ) (c : OutboxDispatcherConfig) (w : World OrderDb) → Tidy w → Tidy (rounds n c w).1
unfolding rounds running
rounds-Tidy zero c w t = dispatch_once-Tidy c w t
rounds-Tidy (suc n) c w t =
    bound (λ _. rounds n c) Tidy (dispatch_once c w) (dispatch_once-Tidy c w t) (λ v h. h)
      (λ _ v h. rounds-Tidy n c v h)

started-Tidy :
    (o : Option String) (n : ℕ) (c : OutboxDispatcherConfig) (w : World OrderDb)
    → Tidy w
    → Tidy (started o n c w).1
unfolding started fail
started-Tidy (some text) n c w t = t
started-Tidy none n c w t = rounds-Tidy n c w t

-- Where the events of the outbox have ids of their own and the message of each published one has been
-- sent, this is so after any number of rounds of the dispatcher, with any configuration and whichever
-- calls fail: an event is marked as published only once Kafka has taken its message.
pub run-Tidy :
    (n : ℕ) (c : OutboxDispatcherConfig) (w : World OrderDb) → Tidy w → Tidy (run n c w).1
unfolding run
run-Tidy n c w t = started-Tidy (validate c) n c w t
