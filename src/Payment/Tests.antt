-- ===== src/Payment/Tests.antt =====
-- Runs of the payment service on a table with one payment.
use event_driven_ecommerce.Base.{
  map, Message, ◌==◌, run_consumer, commit_if, on_some, is_ok, String, ◌≡◌, refl, arith, some, none,
  Option, [], ◌∷◌, List, ap, pos, false, true, ok, err, if◌then◌else◌, ltb, World, Outcome, length,
  is_blank, trim_space, running, outside, micros, format_int,
}
use event_driven_ecommerce.Grpc.{status_error, internal}
use event_driven_ecommerce.Protobuf.{
  unknown_currency, usd, card, currency_name, currency_value, method_name, method_value,
}
use event_driven_ecommerce.Payment.Enums.{pending, captured, status_name, status_value}
use event_driven_ecommerce.Payment.Domain.{Payment, PaymentDb}
use event_driven_ecommerce.Payment.Queries
use event_driven_ecommerce.Payment.Queries.{
  has_id, find_row, row_error, replace_row, stored, listed, payments_of, sort_listed, insert_listed,
}
use event_driven_ecommerce.Payment.Rows.{
  known, parse_currency, parse_payment_method, parse_payment_status, payment_of_row, map_db_payment,
  map_db_payments, to_payment_db_params,
}
use event_driven_ecommerce.Payment.Repository
use event_driven_ecommerce.Payment.Repository.{validate_payment}
use event_driven_ecommerce.Payment.Service
use event_driven_ecommerce.Payment.Service.{
  new_payment, create_new, after_create, id_or_new, create_payment, validate_create_payment,
  after_lookup, capture_verdict, settle,
}
use event_driven_ecommerce.Payment.Consumer
use event_driven_ecommerce.Payment.Consumer.{handle_message, handle_inventory_reserved, answer}
use event_driven_ecommerce.Payment.Publisher.{
  is_processed, processed_event_key, mark_processed, publish_payment_creation_failed,
  publish_payment_captured, write_event,
}
use event_driven_ecommerce.Payment.Handler
use event_driven_ecommerce.Payment.Handler.{
  CreatePaymentRequest, payment_of_request, convert_money, announce_captured, map_payment_error,
}
use event_driven_ecommerce.Payment.RoundTrips.{
  declared_currency, in_micros, Writable, get-create_payment,
}
use event_driven_ecommerce.Payment.Announcing.{Told, capture_payment-Told, captured_sends_nothing}
use event_driven_ecommerce.Payment.Retrying.{create_payment_retry}
use event_driven_ecommerce.Payment.Pages.{first_pages, first_pages_cover}
use event_driven_ecommerce.Payment.Accounts.{Account, account, view, captured_is, Steps}
use event_driven_ecommerce.Payment.Requests.{Request, create, capture, cancel, consume, serve_all}
use event_driven_ecommerce.Payment.Lifecycle.{Course, serve_all-Course, serve_all-Settled}
use event_driven_ecommerce.Payment.Refinement.{serve_all-Steps}
use event_driven_ecommerce.Payment.Samples.{
  codec, topics, pending_row, captured_row, table_of, world_of, tea_request,
}

abbrev requests : List Request
requests = create tea_request ∷ capture "p1" ∷ cancel "p1" "late" ∷ consume ("m" ∷ "m" ∷ []) ∷ []

serve_all-Steps_example :
    Steps
      (view (table_of pending_row))
      (view (serve_all codec topics requests (world_of (table_of pending_row))).db)
serve_all-Steps_example = serve_all-Steps codec topics requests (world_of (table_of pending_row))

pending_found : view (table_of pending_row) "p1" ≡ some (account pending_row)
unfolding view find_row
pending_found = refl

captured_found : view (table_of captured_row) "p1" ≡ some (account captured_row)
unfolding view find_row
captured_found = refl

captured_there : find_row (has_id "p1") (table_of captured_row).payments ≡ some captured_row
unfolding find_row
captured_there = refl

serve_all-Course_example :
    (b : Account) × (view
        (serve_all codec topics requests (world_of (table_of pending_row))).db
        "p1"
      ≡ some b)
    × Course (account pending_row) b
serve_all-Course_example =
    serve_all-Course codec topics requests (world_of (table_of pending_row)) "p1"
      (account pending_row) pending_found

captured_status : captured_row.status ≡ status_name captured
unfolding status_name
captured_status = refl

serve_all-Settled_example :
    find_row
      (has_id "p1")
      (serve_all codec topics requests (world_of (table_of captured_row))).db.payments
    ≡ some captured_row
serve_all-Settled_example =
    serve_all-Settled codec topics requests (world_of (table_of captured_row)) "p1" captured_row
      captured captured_there captured_status captured_is

-- What `CreatePayment` writes for the request.
abbrev tea_payment : Payment
tea_payment = new_payment (payment_of_request tea_request) "p2" 7

tea_payment-trimmed : trim_space tea_payment.idempotency_key ≡ tea_payment.idempotency_key
unfolding trim_space
tea_payment-trimmed = refl

tea_payment_amount : tea_payment.amount.currency ≡ usd
unfolding convert_money
tea_payment_amount = refl

tea_payment-Writable : Writable tea_payment
tea_payment-Writable = record {
  currency = ap declared_currency tea_payment_amount;
  method = refl;
  status = refl;
  key = tea_payment-trimmed;
}

abbrev before_tea : World PaymentDb
before_tea = world_of (table_of pending_row)

-- The world as the call left it.
abbrev after_tea : World PaymentDb
after_tea = (Repository.create_payment tea_payment before_tea).1

tea_is_created :
    ((Repository.create_payment tea_payment before_tea).0 ≡ ok (in_micros tea_payment))
    × (after_tea.fault after_tea.tick ≡ none)
unfolding convert_money Repository.create_payment validate_payment Queries.create_payment row_error
    stored micros to_payment_db_params find_row map_db_payment known parse_currency
    parse_payment_method parse_payment_status payment_of_row currency_name method_name status_name
    currency_value method_value status_value running outside trim_space
tea_is_created = (refl, refl)

get-create_payment_example :
    (in_micros tea_payment ≡ in_micros tea_payment)
    × ((Repository.get_payment_by_id tea_payment.id after_tea).0 ≡ ok (in_micros tea_payment))
get-create_payment_example =
    get-create_payment tea_payment (in_micros tea_payment) before_tea after_tea tea_payment-Writable
      tea_is_created.0 refl tea_is_created.1

capture_payment-Told_example :
    Told codec topics "p1" []
      (Handler.capture_payment codec topics "p1" (world_of (table_of pending_row))).1
capture_payment-Told_example =
    capture_payment-Told codec topics "p1" (world_of (table_of pending_row))

captured_sends_nothing_example :
    (Handler.capture_payment codec topics "p1" (world_of (table_of captured_row))).1.sent ≡ []
captured_sends_nothing_example =
    captured_sends_nothing codec topics "p1" (world_of (table_of captured_row))
      (account captured_row) captured_found captured_status

-- Kafka does not answer from the third tick on.
abbrev unsent : World PaymentDb
unsent = record (world_of (table_of pending_row)) {
  fault = λ n. if ltb n 4 then none else some "no broker";
}

abbrev row_status : PaymentDb → Option String
row_status d = elim d.payments [ [] ↦ none | r ∷ rs ↦ some r.status ]

-- The capture fails, the payment is captured and no event has been sent.
unsent_capture :
    let (r, w) = Handler.capture_payment codec topics "p1" unsent in
    (r ≡ err (status_error internal "failed to publish payment.captured event"))
    × (w.sent ≡ [])
    × (row_status w.db ≡ some "PAYMENT_STATUS_CAPTURED")
unfolding Handler.capture_payment announce_captured publish_payment_captured write_event
    Service.capture_payment capture_verdict settle Repository.get_payment_by_id
    Repository.update_payment validate_payment Queries.get_payment_by_id Queries.update_payment
    find_row row_error replace_row stored micros map_db_payment known parse_currency
    parse_payment_method parse_payment_status payment_of_row to_payment_db_params currency_value
    method_value status_value currency_name method_name status_name running outside trim_space
    format_int map_payment_error
unsent_capture = (refl, refl, refl)

-- The request whose payment is in the table.
abbrev k1_request : CreatePaymentRequest
k1_request = record tea_request { order_id = "o1"; idempotency_key = "k1" }

abbrev pending_payment : Payment
pending_payment = record {
  id = "p1";
  order_id = "o1";
  customer_id = "c";
  amount = record { currency = usd; amount_cents = pos 10 };
  payment_method = card;
  payment_method_details = "";
  idempotency_key = "k1";
  status = pending;
  cancel_reason = "";
  created_at = some 0;
  updated_at = some 0;
}

k1_trimmed : trim_space " k1 " ≡ trim_space "k1"
unfolding trim_space
k1_trimmed = refl

k1_has_no_spaces : is_blank (payment_of_request k1_request).idempotency_key ≡ false
unfolding trim_space
k1_has_no_spaces = refl

k1_first :
    (create_payment (payment_of_request k1_request) (world_of (table_of pending_row))).0
    ≡ ok pending_payment
unfolding create_payment validate_create_payment after_lookup convert_money
    Repository.get_payment_by_idempotency_key Queries.get_payment_by_idempotency_key find_row
    map_db_payment known parse_currency parse_payment_method parse_payment_status payment_of_row
    currency_value method_value status_value running outside trim_space
k1_first = refl

-- A second request, with another amount, gets the payment of the first.
create_payment_retry_example :
    let again = record (payment_of_request k1_request) {
      amount = record { currency = usd; amount_cents = pos 99 };
      idempotency_key = " k1 ";
    } in
    let w = (create_payment (payment_of_request k1_request) (world_of (table_of pending_row))).1 in
    Outcome w.db (λ r d. (d ≡ w.db) × (r ≡ pending_payment)) (create_payment again w)
create_payment_retry_example =
    create_payment_retry (payment_of_request k1_request)
      (record (payment_of_request k1_request) {
        amount = record { currency = usd; amount_cents = pos 99 };
        idempotency_key = " k1 ";
      })
      pending_payment (world_of (table_of pending_row))
      (create_payment (payment_of_request k1_request) (world_of (table_of pending_row))).1
      k1_has_no_spaces k1_trimmed k1_first refl

abbrev three : PaymentDb
three = record {
  payments =
      captured_row ∷ record pending_row { id = "p2" } ∷ record pending_row { id = "p3" } ∷ [];
  collates = λ a b. true;
}

abbrev three_payments : List Payment
three_payments =
    record pending_payment { status = captured }
    ∷ record pending_payment { id = "p2" }
    ∷ record pending_payment { id = "p3" }
    ∷ []

three_listed : map_db_payments (listed (trim_space " c") three) ≡ ok three_payments
unfolding listed payments_of sort_listed insert_listed map_db_payments map_db_payment known
    parse_currency parse_payment_method parse_payment_status payment_of_row currency_value
    method_value status_value trim_space
three_listed = refl

spaced_is_not_blank : is_blank " c" ≡ false
unfolding trim_space
spaced_is_not_blank = refl

first_pages_cover_example : (first_pages 2 2 " c" (world_of three)).0 ≡ ok three_payments
first_pages_cover_example =
    first_pages_cover " c" 2 2 three_payments (world_of three) (λ m. refl) spaced_is_not_blank
      three_listed (omega arith) (omega arith) (omega arith) (omega arith) (omega arith)

-- A currency that the enum does not declare is refused only after its row is in the table.
abbrev odd_request : CreatePaymentRequest
odd_request = record tea_request {
  amount = some (record { currency = unknown_currency (pos 7); amount_cents = pos 25 });
}

odd_currency_stays :
    let (r, w) =
      create_payment (payment_of_request odd_request) (world_of (table_of pending_row)) in
    (is_ok r ≡ false) × (length w.db.payments ≡ 2)
unfolding create_payment validate_create_payment after_lookup create_new after_create id_or_new
    convert_money Repository.create_payment validate_payment Queries.create_payment row_error stored
    micros to_payment_db_params Repository.get_payment_by_idempotency_key
    Queries.get_payment_by_idempotency_key find_row map_db_payment known parse_currency
    parse_payment_method parse_payment_status payment_of_row currency_name method_name status_name
    currency_value method_value status_value running outside trim_space format_int
odd_currency_stays = (refl, refl)

-- The database does not answer the third call, the lookup of the key.
abbrev lost_lookup : World PaymentDb
lost_lookup = record (world_of (table_of pending_row)) {
  fault = λ n. if n == 2 then some "timeout" else none;
}

abbrev message_topic : Message → String
message_topic m = m.topic

-- The failure is announced as final, and the message is committed.
lost_lookup_is_final :
    let w = (Consumer.run codec topics ("m" ∷ []) lost_lookup).1 in
    (map message_topic w.sent ≡ "payment.creation_failed" ∷ []) × (w.committed ≡ "m" ∷ [])
unfolding Consumer.run run_consumer commit_if handle_message on_some is_processed
    processed_event_key handle_inventory_reserved Consumer.create_payment Consumer.parse_currency
    Consumer.parse_payment_method answer mark_processed publish_payment_creation_failed write_event
    create_payment validate_create_payment after_lookup Repository.get_payment_by_idempotency_key
    running outside trim_space format_int
lost_lookup_is_final = (refl, refl)
