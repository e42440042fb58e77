-- ===== src/Base/Surroundings.antt =====
-- What surrounds a service process: its PostgreSQL tables, the keys that it has set in Redis, the
-- messages that it has sent to Kafka, and those that it has committed as read, latest first. Every call to the outside takes one tick, on which
-- `fault` may make it fail, with any text; a reading of the clock takes one tick too.
use Prim.Native.Nat.{ℕ, suc}
use Prim.Native.String.{String}
use mathlib.Core.Path.{◌≡◌, refl}
use mathlib.Core.Bool.{Bool, true, false, ◌||◌}
use mathlib.Core.List.{List, [], ◌∷◌}
use mathlib.Core.Option.{Option, none, some}
use native.Mathlib.Omega.{arith}
use text.Mathlib.Text.{◌==◌ as str_eq}
use event_driven_ecommerce.Base.Text.{◌<>◌}
use event_driven_ecommerce.Base.Actions.{Result, ok, err, Action, ◌>>=◌, ◌>>◌, pure}

abbrev pub has : String → List String → Bool
has k [] = false
has k (j ∷ js) = str_eq k j || has k js

pub record Message : Type 0 where
  pub topic : String
  pub key : String
  pub value : String

pub record World (D : Type 0) : Type 0 where
  pub db : D
  pub processed : List String
  pub sent : List Message
  pub committed : List String
  pub fault : ℕ → Option String
  pub clock : ℕ → ℕ
  pub tick : ℕ

-- `pgx.ErrNoRows`, `*pgconn.PgError` with its code, constraint and text, and a call that did not
-- come through.
pub data DbError : Type 0 where
  no_rows : DbError
  pg_error : String → String → String → DbError
  broken : String → DbError

abbrev pub db_error_text : DbError → String
db_error_text no_rows = "no rows in result set"
db_error_text (pg_error code constraint text) = text
db_error_text (broken text) = text

-- An error of a service: one of its domain's errors, or a text that no caller tests for.
pub data Failure (E : Type 0) : Type 0 where
  domain : E → Failure E
  other : String → Failure E

-- `fmt.Errorf(context + ": %w", err)`
abbrev pub wrap : {E : Type 0} → String → DbError → Failure E
wrap context e = other (context <> ": " <> db_error_text e)

module _ {D : Type 0} where
  -- One SQL statement; a statement that fails changes nothing.
  unfoldable pub query : {A : Type 0} → (D → Result DbError (A × D)) → Action (World D) DbError A
  query q w = elim (w.fault w.tick) [
    | some text ↦ (err (broken text), record w { tick = suc w.tick })
    | none ↦ elim (q w.db) [
      | ok (a, d) ↦ (ok a, record w { db = d; tick = suc w.tick })
      | err e ↦ (err e, record w { tick = suc w.tick })
    ]
  ]

module _ {D E : Type 0} where
  -- `time.Now()`
  unfoldable pub now : Action (World D) E ℕ
  now w = (ok (w.clock w.tick), record w { tick = suc w.tick })

  -- `pool.Begin`, the body, and `tx.Commit`, or the deferred `tx.Rollback` where the body or the
  -- commit fails. No other transaction runs in between.
  unfoldable pub transaction :
      {A : Type 0} → (String → E) → (A → String → E) → Action (World D) E A → Action (World D) E A
  transaction begin_error commit_error body w = elim (w.fault w.tick) [
    | some text ↦ (err (begin_error text), record w { tick = suc w.tick })
    | none ↦
        let (r, v) = body (record w { tick = suc w.tick }) in
        elim r [
          | err e ↦ (err e, record v { db = w.db })
          | ok a ↦ elim (v.fault v.tick) [
            | some text ↦ (err (commit_error a text), record v { db = w.db; tick = suc v.tick })
            | none ↦ (ok a, record v { tick = suc v.tick })
          ]
        ]
  ]

  -- Redis `EXISTS`.
  unfoldable pub redis_exists : (String → E) → String → Action (World D) E Bool
  redis_exists failed key w = elim (w.fault w.tick) [
    | some text ↦ (err (failed text), record w { tick = suc w.tick })
    | none ↦ (ok (has key w.processed), record w { tick = suc w.tick })
  ]

  -- Redis `SET` of a key to "1"; that the key expires later is left out.
  unfoldable pub redis_set : (String → E) → String → Action (World D) E (Unit {0})
  redis_set failed key w = elim (w.fault w.tick) [
    | some text ↦ (err (failed text), record w { tick = suc w.tick })
    | none ↦ (ok tt, record w { processed = key ∷ w.processed; tick = suc w.tick })
  ]

  -- `WriteMessages` of one message.
  unfoldable pub write_message : (String → E) → Message → Action (World D) E (Unit {0})
  write_message failed m w = elim (w.fault w.tick) [
    | some text ↦ (err (failed text), record w { tick = suc w.tick })
    | none ↦ (ok tt, record w { sent = m ∷ w.sent; tick = suc w.tick })
  ]

  -- A transaction that fails, at any call, leaves the tables as they were.
  pub transaction_rolls_back :
      {A : Type 0} (b : String → E) (c : A → String → E) (body : Action (World D) E A) (w : World D)
      {e : E}
      → (transaction b c body w).0 ≡ err e
      → (transaction b c body w).1.db ≡ w.db
  unfolding transaction
  transaction_rolls_back b c body w h = ground arith

  -- One that commits has run its body once, from the tables as they were.
  pub transaction-eq-ok :
      {A : Type 0} (b : String → E) (c : A → String → E) (body : Action (World D) E A) (w : World D)
      {a : A}
      → (transaction b c body w).0 ≡ ok a
      → let (r, v) = body (record w { tick = suc w.tick }) in
        (r ≡ ok a) × ((transaction b c body w).1.db ≡ v.db)
  unfolding transaction
  transaction-eq-ok b c body w h = ground arith

module _ {D E : Type 0} where
  -- `CommitMessages` of one message, here its value.
  unfoldable pub commit_message : (String → E) → String → Action (World D) E (Unit {0})
  commit_message failed value w = elim (w.fault w.tick) [
    | some text ↦ (err (failed text), record w { tick = suc w.tick })
    | none ↦ (ok tt, record w { committed = value ∷ w.committed; tick = suc w.tick })
  ]

  -- `FetchMessage`, of a message that is there.
  unfoldable pub fetch_message : (String → E) → String → Action (World D) E String
  fetch_message failed value w = elim (w.fault w.tick) [
    | some text ↦ (err (failed text), record w { tick = suc w.tick })
    | none ↦ (ok value, record w { tick = suc w.tick })
  ]

  -- A message is committed only where its handler said so.
  unfoldable pub commit_if :
      (String → E) → String → Action (World D) E (Unit {0}) → Bool → Action (World D) E (Unit {0})
  commit_if commit_failed value rest true = commit_message commit_failed value >> rest
  commit_if commit_failed value rest false = rest

  -- `Run` of every consumer, over the messages that come until its context is done: an error ends
  -- it.
  unfoldable pub run_consumer :
      (String → E)
      → (String → E)
      → (String → Action (World D) E Bool)
      → List String
      → Action (World D) E (Unit {0})
  run_consumer fetch_failed commit_failed handle [] = pure tt
  run_consumer fetch_failed commit_failed handle (m ∷ ms) =
      let rest = run_consumer fetch_failed commit_failed handle ms in
      fetch_message fetch_failed m >>= λ value. handle value >>= commit_if commit_failed value rest

unfoldable pub outside : Unit {0}
unfolding now query transaction redis_exists redis_set write_message commit_message fetch_message
outside = tt

module _ {D A : Type 0} (q : D → Result DbError (A × D)) (w : World D) where
  -- A statement that does not come through, and one that succeeds.
  pub query-broken :
      (text : String)
      → w.fault w.tick ≡ some text
      → query q w ≡ (err (broken text), record w { tick = suc w.tick })
  unfolding query
  query-broken text e = rw (e, query) refl

  pub query-ok :
      (a : A) (d : D)
      → w.fault w.tick ≡ none
      → q w.db ≡ ok (a, d)
      → query q w ≡ (ok a, record w { db = d; tick = suc w.tick })
  unfolding query
  query-ok a d e f = rw (e, f, query) refl
