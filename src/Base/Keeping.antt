-- ===== src/Base/Keeping.antt =====
-- Rules for invariants of the tables: an action keeps one however it ends.
use Prim.Native.String.{String}
use mathlib.Core.Path.{◌≡◌, refl, sym, subst}
use mathlib.Core.Bool.{Bool, true, false}
use mathlib.Core.Logic.{inl, inr}
use mathlib.Core.List.{List, [], ◌∷◌}
use native.Mathlib.Omega.{arith}
use mathlib.Core.Option.{Option, none, some}
use event_driven_ecommerce.Base.Tests.{if◌then◌else◌, on_some}
use event_driven_ecommerce.Base.Actions.{
  Result, ok, err, Result-cases, Action, ◌>>=◌, pure, fail, fail_if, lift, map_error, try,
}
use event_driven_ecommerce.Base.Surroundings.{
  World, DbError, query, Message, now, redis_exists, redis_set, write_message, commit_message,
  fetch_message, commit_if, run_consumer,
}
use event_driven_ecommerce.Base.Settling.{Outcome, Settles}
use event_driven_ecommerce.Base.Ending.{Ended, Ends}

-- Calls that do not touch the tables, however they end.
module _ {D E : Type 0} (failed : String → E) (w : World D) where
  db-redis_exists : (k : String) → (redis_exists failed k w).1.db ≡ w.db
  unfolding redis_exists
  db-redis_exists k = ground arith

  db-redis_set : (k : String) → (redis_set failed k w).1.db ≡ w.db
  unfolding redis_set
  db-redis_set k = ground arith

  db-write_message : (m : Message) → (write_message failed m w).1.db ≡ w.db
  unfolding write_message
  db-write_message m = ground arith

  db-commit_message : (v : String) → (commit_message failed v w).1.db ≡ w.db
  unfolding commit_message
  db-commit_message v = ground arith

  db-fetch_message : (v : String) → (fetch_message failed v w).1.db ≡ w.db
  unfolding fetch_message
  db-fetch_message v = ground arith

module _ {D : Type 0} (I : D → Type 0) where
  pub record Keeps {E A : Type 0} (m : Action (World D) E A) : Type 0 where
    pub apply : (w : World D) → I w.db → I (m w).1.db

  kept_outcome :
      {E A : Type 0} (d : D) (Q : A → D → Type 0) (x : Result E A × World D)
      → I d
      → ((a : A) (d' : D) → Q a d' → I d')
      → Outcome d Q x
      → I x.1.db
  kept_outcome d Q (ok a, w) i h o = h a w.db o
  kept_outcome d Q (err e, w) i h o = subst I (sym o) i

  pub Settles-Keeps :
      {E A : Type 0} (m : Action (World D) E A) (Q : D → A → D → Type 0)
      → ((d : D) → I d → Settles d m (Q d))
      → ((d : D) (a : A) (d' : D) → I d → Q d a d' → I d')
      → Keeps m
  Settles-Keeps m Q s h = record {
    apply =
        λ w i. kept_outcome w.db (Q w.db) (m w) i (λ a d'. h w.db a d' i) ((s w.db i).apply w refl);
  }

  kept_end :
      {E A : Type 0} (Q : A → D → Type 0) (R : E → D → Type 0) (x : Result E A × World D)
      → ((a : A) (d' : D) → Q a d' → I d')
      → ((e : E) (d' : D) → R e d' → I d')
      → Ended Q R x
      → I x.1.db
  kept_end Q R (ok a, w) h g o = h a w.db o
  kept_end Q R (err e, w) h g o = g e w.db o

  pub Ends-Keeps :
      {E A : Type 0} (m : Action (World D) E A) (Q : D → A → D → Type 0) (R : D → E → D → Type 0)
      → ((d : D) → I d → Ends d m (Q d) (R d))
      → ((d : D) (a : A) (d' : D) → Q d a d' → I d')
      → ((d : D) (e : E) (d' : D) → R d e d' → I d')
      → Keeps m
  Ends-Keeps m Q R s h g = record {
    apply = λ w i.
        kept_end (Q w.db) (R w.db) (m w) (λ a d'. h w.db a d') (λ e d'. g w.db e d')
          ((s w.db i).apply w refl);
  }

  pub pure-Keeps : {E A : Type 0} (a : A) → Keeps (pure {E = E} a)
  unfolding pure
  pure-Keeps a = record { apply = λ w i. i }

  bound :
      {E A B : Type 0} (f : A → Action (World D) E B) (x : Result E A × World D)
      → ((a : A) → Keeps (f a))
      → I x.1.db
      → I (◌>>=◌ (λ (w : World D). x) f x.1).1.db
  unfolding ◌>>=◌
  bound f (ok a, w) h i = (h a).apply w i
  bound f (err e, w) h i = i

  pub bind-Keeps :
      {E A B : Type 0} (m : Action (World D) E A) (f : A → Action (World D) E B)
      → Keeps m
      → ((a : A) → Keeps (f a))
      → Keeps (m >>= f)
  unfolding ◌>>=◌
  bind-Keeps m f k h = record { apply = λ w i. bound f (m w) h (k.apply w i) }

  pub if-Keeps :
      {E A : Type 0} (b : Bool) (m n : Action (World D) E A)
      → Keeps m
      → Keeps n
      → Keeps (if b then m else n)
  if-Keeps true m n k l = k
  if-Keeps false m n k l = l

  pub on_some-Keeps :
      {E A B : Type 0} (o : Option A) (skip : Action (World D) E B) (f : A → Action (World D) E B)
      → Keeps skip
      → ((a : A) → Keeps (f a))
      → Keeps (on_some o skip f)
  unfolding on_some
  on_some-Keeps none skip f k h = k
  on_some-Keeps (some a) skip f k h = h a

  pub fail-Keeps : {E A : Type 0} (e : E) → Keeps (fail {A = A} e)
  unfolding fail
  fail-Keeps e = record { apply = λ w i. i }

  pub fail_if-Keeps : {E : Type 0} (b : Bool) (e : E) → Keeps (fail_if b e)
  unfolding fail_if
  fail_if-Keeps true e = record { apply = λ w i. i }
  fail_if-Keeps false e = record { apply = λ w i. i }

  pub lift-Keeps : {E A : Type 0} (r : Result E A) → Keeps (lift r)
  unfolding lift
  lift-Keeps r = record { apply = λ w i. i }

  mapped_error :
      {E F A : Type 0} (g : E → F) (x : Result E A × World D)
      → I x.1.db
      → I (map_error g (λ (w : World D). x) x.1).1.db
  unfolding map_error
  mapped_error g (ok a, w) i = i
  mapped_error g (err e, w) i = i

  pub map_error-Keeps :
      {E F A : Type 0} (g : E → F) (m : Action (World D) E A) → Keeps m → Keeps (map_error g m)
  unfolding map_error
  map_error-Keeps g m k = record { apply = λ w i. mapped_error g (m w) (k.apply w i) }

  pub try-Keeps : {E F A : Type 0} (m : Action (World D) E A) → Keeps m → Keeps {E = F} (try m)
  unfolding try
  try-Keeps m k = record { apply = λ w i. k.apply w i }

  db-read :
      {A : Type 0} (q : D → Result DbError (A × D)) (w : World D)
      → ((d d' : D) (a : A) → q d ≡ ok (a, d') → d' ≡ d)
      → (query q w).1.db ≡ w.db
  unfolding query
  db-read q w same = elim (Result-cases (q w.db)) [
    | inl ((a, d'), e) ↦ ground (arith, e, same w.db d' a e)
    | inr (x, e) ↦ ground (arith, e)
  ]

  -- A statement that only reads.
  pub read-Keeps :
      {A : Type 0} (q : D → Result DbError (A × D))
      → ((d d' : D) (a : A) → q d ≡ ok (a, d') → d' ≡ d)
      → Keeps (query q)
  read-Keeps q same = record { apply = λ w i. subst I (sym (db-read q w same)) i }

  -- Calls that do not touch the tables.
  pub now-Keeps : {E : Type 0} → Keeps {E = E} now
  unfolding now
  now-Keeps = record { apply = λ w i. i }

  module _ {E : Type 0} (failed : String → E) where
    pub redis_exists-Keeps : (k : String) → Keeps (redis_exists failed k)
    redis_exists-Keeps k = record { apply = λ w i. subst I (sym (db-redis_exists failed w k)) i }

    pub redis_set-Keeps : (k : String) → Keeps (redis_set failed k)
    redis_set-Keeps k = record { apply = λ w i. subst I (sym (db-redis_set failed w k)) i }

    pub write_message-Keeps : (m : Message) → Keeps (write_message failed m)
    write_message-Keeps m = record { apply = λ w i. subst I (sym (db-write_message failed w m)) i }

    pub commit_message-Keeps : (v : String) → Keeps (commit_message failed v)
    commit_message-Keeps v = record {
      apply = λ w i. subst I (sym (db-commit_message failed w v)) i;
    }

    pub fetch_message-Keeps : (v : String) → Keeps (fetch_message failed v)
    fetch_message-Keeps v = record { apply = λ w i. subst I (sym (db-fetch_message failed w v)) i }

  -- A consumer keeps what its handler keeps, over any messages.
  module _ {E : Type 0} (fetch_failed commit_failed : String → E)
      (handle : String → Action (World D) E Bool) (h : (v : String) → Keeps (handle v)) where
    after_commit :
        (v : String) (rest : Action (World D) E (Unit {0})) (commit : Bool)
        → Keeps rest
        → Keeps (commit_if commit_failed v rest commit)
    unfolding commit_if
    after_commit v rest true k = bind-Keeps _ _ (commit_message-Keeps commit_failed v) λ _. k
    after_commit v rest false k = k

    pub run_consumer-Keeps :
        (ms : List String) → Keeps (run_consumer fetch_failed commit_failed handle ms)
    unfolding run_consumer
    run_consumer-Keeps [] = pure-Keeps tt
    run_consumer-Keeps (m ∷ ms) = bind-Keeps _ _ (fetch_message-Keeps fetch_failed m) λ value.
        bind-Keeps _ _ (h value) λ commit. after_commit value _ commit (run_consumer-Keeps ms)
