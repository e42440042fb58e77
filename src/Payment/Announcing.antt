-- ===== src/Payment/Announcing.antt =====
-- The event of a captured payment.
use event_driven_ecommerce.Base.{
  suc, ◌<>◌, format_int, String, ◌≡◌, refl, sym, ◌∙◌, subst, Bool, true, false, ◌⊎◌, inl, inr, some,
  List, ◌∷◌, Option-cases, Message, Result, ok, err, arith, World, ◌>>=◌, map_error, running, pure,
  ◌>>◌, Failure, now, write_message,
}
use event_driven_ecommerce.Events.{Codec, payment_captured_event_type}
use event_driven_ecommerce.Payment.Enums.{captured, status_name}
use event_driven_ecommerce.Payment.Domain.{Payment, PaymentError, PaymentDb}
use event_driven_ecommerce.Payment.Service
use event_driven_ecommerce.Payment.Service.{
  Verdict, done, moves, refused, capture_verdict, captured_at, settle,
}
use event_driven_ecommerce.Payment.Publisher.{
  Topics, failed_as, write_event, publish_payment_captured,
}
use event_driven_ecommerce.Payment.Handler
use event_driven_ecommerce.Payment.Handler.{
  announce_captured, map_payment_error, convert_payment_to_proto,
}
use event_driven_ecommerce.Payment.Accounts.{Account, view}
use event_driven_ecommerce.Payment.Capturing.{
  CapturedAt, Moves, capture_payment-Quiet, capture_payment-Ensures, captured_already-Ensures,
}
use event_driven_ecommerce.Payment.Handling.{write_event-Keeps}

module _ {D : Type 0} where
  -- What a write of one event does to the messages sent.
  abbrev Sends : String → String → World D → World D → Type 0
  Sends topic key w w' =
      (w'.sent ≡ w.sent)
      ⊎ ((m : Message) × (w'.sent ≡ m ∷ w.sent) × (m.topic ≡ topic) × (m.key ≡ key))

  write_message-Sends :
      {E : Type 0} (failed : String → E) (m : Message) (w : World D)
      → Sends m.topic m.key w (write_message failed m w).1
  unfolding write_message
  write_message-Sends failed m w = elim (Option-cases (w.fault w.tick)) [
    | inr (text, e) ↦ inl (ground (arith, e))
    | inl e ↦ inr (m, ground (arith, e), refl, refl)
  ]

module _ (codec : Codec) where
  write_event-Sends :
      (topic event_type source key payload : String) (w : World PaymentDb)
      → Sends topic key w (write_event codec topic event_type source key payload w).1
  unfolding write_event running now write_message
  write_event-Sends topic event_type source key payload w =
      write_message-Sends (failed_as ("write " <> event_type <> " event to kafka"))
        (record {
          topic = topic;
          key = key;
          value = codec.marshal_envelope (record {
            event_id = source <> ":" <> format_int (w.clock w.tick);
            event_type = event_type;
            occurred_at = codec.format_rfc3339 (w.clock (suc w.tick));
            payload = payload;
          });
        })
        (record w { tick = suc (suc w.tick) })

module _ {S E A : Type 0} where
  state-map_error :
      {F : Type 0} (g : E → F) (x : Result E A × S) → (map_error g (λ (w : S). x) x.1).1 ≡ x.1
  unfolding running
  state-map_error g (ok a, w) = refl
  state-map_error g (err e, w) = refl

  state-then_pure :
      {B : Type 0} (b : B) (x : Result E A × S) → (◌>>=◌ (λ (w : S). x) (λ _. pure b) x.1).1 ≡ x.1
  unfolding running
  state-then_pure b (ok a, w) = refl
  state-then_pure b (err e, w) = refl

module _ (codec : Codec) (topics : Topics) where
  -- From the messages `sent`, none or one has been sent: on the topic of captured payments, with the
  -- order of a payment that is captured in the table as its key.
  abbrev pub Told : String → List Message → World PaymentDb → Type 0
  Told id sent w =
      (w.sent ≡ sent)
      ⊎ ((m : Message) × (w.sent ≡ m ∷ sent)
          × (m.topic ≡ topics.captured)
          × CapturedAt id m.key w.db)

  sent_by :
      (id o : String) (x : Result (Failure PaymentError) (Unit {0}) × World PaymentDb)
      (w : World PaymentDb)
      → Sends topics.captured o w x.1
      → x.1.db ≡ w.db
      → CapturedAt id o w.db
      → Told id w.sent x.1
  sent_by id o x w (inl same) db c = inl same
  sent_by id o x w (inr (m, new, topic, key)) db c =
      let c' : CapturedAt id m.key x.1.db =
        subst (λ k. CapturedAt id k x.1.db) (sym key) (subst (CapturedAt id o) (sym db) c) in
      inr (m, new, topic, c')

  announced :
      (id : String) (p : Payment) (moved : Bool) (w : World PaymentDb)
      → (moved ≡ true → CapturedAt id p.order_id w.db)
      → Told id w.sent (announce_captured codec topics p moved w).1
  unfolding announce_captured running publish_payment_captured
  announced id p false w h = inl refl
  announced id p true w h =
      let x =
        write_event codec topics.captured payment_captured_event_type p.id p.order_id
          (codec.marshal_payment_captured (record {
            order_id = p.order_id;
            customer_id = p.customer_id;
            payment_id = p.id;
            status = status_name p.status;
          }))
          w in
      subst (Told id w.sent) (sym (state-map_error _ x)) (
        sent_by id p.order_id x w (write_event-Sends codec _ _ _ _ _ w)
          ((write_event-Keeps codec topics (λ d. d ≡ w.db) _ _ _ _ _).apply w refl) (h refl))

  captured_then :
      (id : String) (sent : List Message)
      (x : Result (Failure PaymentError) (Payment × Bool) × World PaymentDb)
      → x.1.sent ≡ sent
      → ((a : Payment × Bool) → x.0 ≡ ok a → Moves id a x.1.db)
      → Told id sent
          (◌>>=◌
            (map_error map_payment_error (λ (w : World PaymentDb). x))
            (λ result.
              announce_captured codec topics result.0 result.1
              >> pure (convert_payment_to_proto result.0))
            x.1).1
  unfolding running
  captured_then id sent (err e, w) same h = inl same
  captured_then id sent (ok (p, moved), w) same h =
      subst (Told id sent) (sym (state-then_pure _ (announce_captured codec topics p moved w))) (
        subst (λ s. Told id s (announce_captured codec topics p moved w).1) same
          (announced id p moved w (h (p, moved) refl)))

  -- `CapturePayment` sends no message, or one on the topic of captured payments with the order of the
  -- payment as its key; where it sends one, the table holds the payment as captured.
  pub capture_payment-Told :
      (id : String) (w : World PaymentDb)
      → Told id w.sent (Handler.capture_payment codec topics id w).1
  unfolding Handler.capture_payment running
  capture_payment-Told id w =
      captured_then id w.sent (Service.capture_payment id w) ((capture_payment-Quiet id).apply w)
        ((capture_payment-Ensures id w.db).apply w refl)

  not_announced :
      (x : Result (Failure PaymentError) (Payment × Bool) × World PaymentDb)
      → ((a : Payment × Bool) → x.0 ≡ ok a → a.1 ≡ false)
      → (◌>>=◌
          (map_error map_payment_error (λ (w : World PaymentDb). x))
          (λ result.
            announce_captured codec topics result.0 result.1
            >> pure (convert_payment_to_proto result.0))
          x.1).1.sent
        ≡ x.1.sent
  unfolding running announce_captured
  not_announced (err e, w) h = refl
  not_announced (ok (p, true), w) h = absurd (ground (arith, h (p, true) refl))
  not_announced (ok (p, false), w) h = refl

  -- Once the table holds a payment as captured, `CapturePayment` of it sends no message, whichever
  -- calls fail.
  pub captured_sends_nothing :
      (id : String) (w : World PaymentDb) (a : Account)
      → view w.db id ≡ some a
      → a.status ≡ status_name captured
      → (Handler.capture_payment codec topics id w).1.sent ≡ w.sent
  unfolding Handler.capture_payment running
  captured_sends_nothing id w a there is =
      not_announced (Service.capture_payment id w)
        ((captured_already-Ensures id w.db a there is).apply w refl)
      ∙ (capture_payment-Quiet id).apply w
