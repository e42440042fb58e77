-- ===== src/Payment/Requests.antt =====
-- The requests that the payment service serves, one after the other: the methods of its gRPC handler,
-- and the messages that its consumer is given.
use event_driven_ecommerce.Base.{String, ℤ, List, [], ◌∷◌, World}
use event_driven_ecommerce.Events.{Codec}
use event_driven_ecommerce.Payment.Domain.{PaymentDb}
use event_driven_ecommerce.Payment.Publisher.{Topics}
use event_driven_ecommerce.Payment.Handler.{
  CreatePaymentRequest, create_payment, get_payment_by_id, get_payment_by_order_id,
  list_payments_by_customer, cancel_payment, capture_payment, fail_payment,
}
use event_driven_ecommerce.Payment.Consumer.{run}

pub data Request : Type 0 where
  create : CreatePaymentRequest → Request
  get_by_id get_by_order_id : String → Request
  list_by_customer : String → ℤ → ℤ → Request
  cancel : String → String → Request
  capture : String → Request
  fail : String → String → Request
  consume : List String → Request

module _ (codec : Codec) (topics : Topics) where
  unfoldable pub serve : Request → World PaymentDb → World PaymentDb
  serve (create req) w = (create_payment req w).1
  serve (get_by_id id) w = (get_payment_by_id id w).1
  serve (get_by_order_id o) w = (get_payment_by_order_id o w).1
  serve (list_by_customer c page page_size) w = (list_payments_by_customer c page page_size w).1
  serve (cancel id reason) w = (cancel_payment id reason w).1
  serve (capture id) w = (capture_payment codec topics id w).1
  serve (fail id reason) w = (fail_payment codec topics id reason w).1
  serve (consume ms) w = (run codec topics ms w).1

  unfoldable pub serve_all : List Request → World PaymentDb → World PaymentDb
  unfolding serve
  serve_all [] w = w
  serve_all (r ∷ rs) w = serve_all rs (serve r w)
