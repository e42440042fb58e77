-- ===== src/Order/Dispatcher.antt =====
-- internal/order/events/outbox_dispatcher.go and kafka_publisher.go, with the statements on the outbox
-- of internal/order/repository/sqlc/order.sql.go. Log lines are left out, with the time of the last one
-- and the deadline of a publication: one that it stops is a call that fails.
use event_driven_ecommerce.Base.{
  ℕ, zero, suc, ◌+◌, ◌-◌, ◌*◌, ◌/◌, ◌^◌, String, str_eq, Bool, true, false, ◌&&◌, ◌||◌, ℤ, pos,
  pos_part, leb_ℤ, ltb_ℤ, Option, none, some, List, [], ◌∷◌, ltb, leb, if◌then◌else◌, is_none, take,
  micros, Result, ok, err, DbError, pg_error, ◌>>=◌, ◌>>◌, pure, fail, try, query, Failure, other,
  now, write_message, ◌<>◌,
}
use event_driven_ecommerce.Order.Domain.{OrderOutboxEvent, OrderDb, OrderError, Call}
use event_driven_ecommerce.Order.Repository.{error_text}
use event_driven_ecommerce.Order.Listing.{sort_by, time_or_zero}

-- Times in nanoseconds.
pub record OutboxDispatcherConfig : Type 0 where
  pub poll_interval : ℤ
  pub lock_timeout : ℤ
  pub publish_timeout : ℤ
  pub batch_size : ℤ

abbrev pub default_outbox_dispatcher_config : OutboxDispatcherConfig
default_outbox_dispatcher_config = record {
  poll_interval = pos 1000000000;
  lock_timeout = pos 30000000000;
  publish_timeout = pos 5000000000;
  batch_size = pos 10;
}

-- What is wrong with it, if anything.
unfoldable pub validate : OutboxDispatcherConfig → Option String
validate c =
    if leb_ℤ c.poll_interval (pos 0)
    then some "outbox poll interval must be greater than zero"
    else if leb_ℤ c.lock_timeout (pos 0)
    then some "outbox lock timeout must be greater than zero"
    else if leb_ℤ c.publish_timeout (pos 0)
    then some "outbox publish timeout must be greater than zero"
    else if leb_ℤ c.batch_size (pos 0)
    then some "outbox batch size must be greater than zero"
    else if ltb_ℤ c.lock_timeout c.publish_timeout
    then some "outbox lock timeout must be greater than or equal to publish timeout"
    else none

-- Not published, and not locked since a time.
unfoldable pub claimable : ℕ → OrderOutboxEvent → Bool
claimable before e =
    is_none e.published_at && elim e.locked_at [ none ↦ true | some t ↦ ltb t before ]

unfoldable pub pending_events : ℕ → List OrderOutboxEvent → List OrderOutboxEvent
pending_events before [] = []
pending_events before (e ∷ es) =
    let rest = pending_events before es in if claimable before e then e ∷ rest else rest

abbrev pub created_before : OrderOutboxEvent → OrderOutboxEvent → Bool
created_before e f = leb (time_or_zero e.created_at) (time_or_zero f.created_at)

unfoldable pub has_event : String → List OrderOutboxEvent → Bool
has_event id [] = false
has_event id (e ∷ es) = str_eq e.id id || has_event id es

abbrev pub lock : ℕ → OrderOutboxEvent → OrderOutboxEvent
lock at e = record e { locked_at = micros (some at) }

-- Each event that is among the pending ones, locked.
unfoldable pub lock_events :
    ℕ → List OrderOutboxEvent → List OrderOutboxEvent → List OrderOutboxEvent
lock_events at claimed [] = []
lock_events at claimed (e ∷ es) =
    (if has_event e.id claimed then lock at e else e) ∷ lock_events at claimed es

unfoldable pub locked_ones :
    ℕ → List OrderOutboxEvent → List OrderOutboxEvent → List OrderOutboxEvent
locked_ones at claimed [] = []
locked_ones at claimed (e ∷ es) =
    let rest = locked_ones at claimed es in
    if has_event e.id claimed then lock at e ∷ rest else rest

-- In what order the rows come back from an UPDATE is up to the database; here it is that of the table.
unfoldable pub claim_pending_order_outbox_events :
    ℕ → ℕ → ℕ → OrderDb → Result DbError (List OrderOutboxEvent × OrderDb)
claim_pending_order_outbox_events limit before at d =
    let claimed =
      take limit (sort_by created_before (pending_events (before / 1000 * 1000) d.outbox)) in
    ok (locked_ones at claimed d.outbox, record d { outbox = lock_events at claimed d.outbox })

abbrev pub is_retrying : OrderOutboxEvent → Bool
is_retrying e = is_none e.published_at && ltb 0 e.attempt_count

unfoldable pub count_events : (OrderOutboxEvent → Bool) → List OrderOutboxEvent → ℕ
count_events p [] = 0
count_events p (e ∷ es) = let rest = count_events p es in if p e then suc rest else rest

abbrev pub is_pending : OrderOutboxEvent → Bool
is_pending e = is_none e.published_at

-- The pending and the retrying events; the oldest, which only a log line reads, is left out.
unfoldable pub get_order_outbox_stats : OrderDb → Result DbError ((ℕ × ℕ) × OrderDb)
unfolding count_events
get_order_outbox_stats d =
    ok ((count_events is_pending d.outbox, count_events is_retrying d.outbox), d)

-- The event with the id, changed.
unfoldable pub change_event :
    String → (OrderOutboxEvent → OrderOutboxEvent) → List OrderOutboxEvent → List OrderOutboxEvent
change_event id f [] = []
change_event id f (e ∷ es) = if str_eq e.id id then f e ∷ es else e ∷ change_event id f es

abbrev pub released : String → OrderOutboxEvent → OrderOutboxEvent
released last_error e = record e {
  locked_at = none;
  attempt_count = e.attempt_count + 1;
  last_error = last_error;
}

unfoldable pub attempts_left : String → List OrderOutboxEvent → Bool
attempts_left id [] = true
attempts_left id (e ∷ es) =
    if str_eq e.id id then ltb e.attempt_count (2 ^ 31 - 1) else attempts_left id es

-- `attempt_count` is an INT.
unfoldable pub release_order_outbox_event :
    String → String → OrderDb → Result DbError (Unit {0} × OrderDb)
release_order_outbox_event id last_error d =
    if attempts_left id d.outbox
    then ok (tt, record d { outbox = change_event id (released last_error) d.outbox })
    else err (pg_error "22003" "" "ERROR: integer out of range (SQLSTATE 22003)")

abbrev pub published : ℕ → OrderOutboxEvent → OrderOutboxEvent
published at e = record e { published_at = micros (some at); locked_at = none; last_error = "" }

unfoldable pub mark_order_outbox_event_published :
    String → ℕ → OrderDb → Result DbError (Unit {0} × OrderDb)
mark_order_outbox_event_published id at d =
    ok (tt, record d { outbox = change_event id (published at) d.outbox })

-- `KafkaPublisher.Publish`
unfoldable pub publish : String → String → String → Call (Unit {0})
publish topic key payload =
    write_message (λ text. other ("write kafka message: " <> text))
      (record { topic = topic; key = key; value = payload })

unfoldable pub after_publish :
    OrderOutboxEvent → Result (Failure OrderError) (Unit {0}) → Call (Unit {0})
after_publish row (err e) =
    try (query (release_order_outbox_event row.id (error_text e))) >> pure tt
after_publish row (ok _) =
    now >>= λ at. try (query (mark_order_outbox_event_published row.id at)) >> pure tt

unfoldable pub dispatch_row : OrderOutboxEvent → Call (Unit {0})
dispatch_row row = try (publish row.topic row.event_key row.payload) >>= after_publish row

unfoldable pub dispatch_rows : List OrderOutboxEvent → Call (Unit {0})
unfolding dispatch_row
dispatch_rows [] = pure tt
dispatch_rows (row ∷ rows) = dispatch_row row >> dispatch_rows rows

unfoldable pub after_claim : Result DbError (List OrderOutboxEvent) → Call (Unit {0})
after_claim (err e) = pure tt
after_claim (ok rows) = try (query get_order_outbox_stats) >> dispatch_rows rows

unfoldable pub dispatch_once : OutboxDispatcherConfig → Call (Unit {0})
dispatch_once c = do
  claimed_at ← now
  claimed ← try (
      query (
        claim_pending_order_outbox_events (pos_part c.batch_size)
          (claimed_at - pos_part c.lock_timeout) claimed_at))
  after_claim claimed

-- The first round, and one for each tick until the context is done.
unfoldable pub rounds : ℕ → OutboxDispatcherConfig → Call (Unit {0})
rounds zero c = dispatch_once c
rounds (suc n) c = dispatch_once c >> rounds n c

unfoldable pub started : Option String → ℕ → OutboxDispatcherConfig → Call (Unit {0})
started (some text) n c = fail (other text)
started none n c = rounds n c

unfoldable pub run : ℕ → OutboxDispatcherConfig → Call (Unit {0})
unfolding started
run n c = started (validate c) n c
