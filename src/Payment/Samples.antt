-- ===== src/Payment/Samples.antt =====
-- A payment, the table that holds it and a codec, for the tests.
use event_driven_ecommerce.Base.{none, some, true, [], ◌∷◌, pos, World}
use event_driven_ecommerce.Events.{Codec}
use event_driven_ecommerce.Protobuf.{usd, card}
use event_driven_ecommerce.Payment.Domain.{PaymentRow, PaymentDb}
use event_driven_ecommerce.Payment.Publisher.{Topics}
use event_driven_ecommerce.Payment.Handler.{CreatePaymentRequest}
use event_driven_ecommerce.Order.Samples

abbrev pub codec : Codec
codec = record Samples.codec {
  unmarshal_inventory_reserved = λ v. some (record {
    order_id = "o2";
    customer_id = "c";
    amount = record { currency = "USD"; amount_cents = pos 10 };
    payment = record { method = "CARD"; method_details = "" };
    items = [];
  });
}

abbrev pub topics : Topics
topics = record {
  created = "payment.created";
  creation_failed = "payment.creation_failed";
  captured = "payment.captured";
  failed = "payment.failed";
}

abbrev pub pending_row : PaymentRow
pending_row = record {
  id = "p1";
  order_id = "o1";
  customer_id = "c";
  amount_currency = "CURRENCY_USD";
  amount_cents = pos 10;
  payment_method = "PAYMENT_METHOD_TYPE_CARD";
  payment_method_details = "";
  idempotency_key = some "k1";
  status = "PAYMENT_STATUS_PENDING";
  cancel_reason = "";
  created_at = some 0;
  updated_at = some 0;
}

abbrev pub captured_row : PaymentRow
captured_row = record pending_row { status = "PAYMENT_STATUS_CAPTURED" }

abbrev pub table_of : PaymentRow → PaymentDb
table_of row = record { payments = row ∷ []; collates = λ a b. true }

abbrev pub world_of : PaymentDb → World PaymentDb
world_of d = record {
  db = d;
  processed = [];
  sent = [];
  committed = [];
  fault = λ n. none;
  clock = λ n. n;
  tick = 0;
}

abbrev pub tea_request : CreatePaymentRequest
tea_request = record {
  order_id = "o2";
  customer_id = "c";
  amount = some (record { currency = usd; amount_cents = pos 25 });
  payment_method = card;
  payment_method_details = "";
  idempotency_key = "k2";
}
