-- ===== src/Order/Service/Requests.antt =====
-- The parts of internal/order/service/service.go that look at a request alone: its normal form, its
-- validation, its price, and whether it is the request of an order that is there.
use event_driven_ecommerce.Base.{
  str_eq, Bool, true, false, not, ◌&&◌, ◌||◌, ℤ, pos, leb_ℤ, ◌+ℤ◌, ◌*ℤ◌, wrap_i64, Option, none,
  some, List, [], ◌∷◌, map, if◌then◌else◌, is_empty, trim_space,
}
use event_driven_ecommerce.Order.Enums.{
  Currency, is_currency_unspecified, is_method_unspecified, same_currency, same_method, same_ℤ,
}
use event_driven_ecommerce.Order.Domain.{Money, OrderItem, Address, PaymentDetails, Order}

unfoldable pub normalize_item : OrderItem → OrderItem
normalize_item item = record item {
  product_id = trim_space item.product_id;
  sku = trim_space item.sku;
  product_name = trim_space item.product_name;
}

unfoldable pub normalize_address : Address → Address
normalize_address a = record {
  country = trim_space a.country;
  city = trim_space a.city;
  street = trim_space a.street;
  postal_code = trim_space a.postal_code;
  house = trim_space a.house;
  apartment = trim_space a.apartment;
}

unfoldable pub normalize_order_input : Order → Order
unfolding normalize_item normalize_address
normalize_order_input order = record order {
  customer_id = trim_space order.customer_id;
  idempotency_key = trim_space order.idempotency_key;
  shipping_address = normalize_address order.shipping_address;
  payment = record {
    method = order.payment.method;
    method_details = trim_space order.payment.method_details;
  };
  items = map normalize_item order.items;
}

abbrev pub no_items : List OrderItem → Bool
no_items [] = true
no_items (i ∷ is) = false

unfoldable pub validate_create_order : Order → Bool
validate_create_order order =
    is_empty order.customer_id
    || no_items order.items
    || is_empty order.shipping_address.country
    || is_empty order.shipping_address.city
    || is_empty order.shipping_address.street
    || is_empty order.shipping_address.postal_code
    || is_empty order.shipping_address.house
    || is_method_unspecified order.payment.method

abbrev pub same_money : Money → Money → Bool
same_money a b = same_currency a.currency b.currency && same_ℤ a.amount_cents b.amount_cents

abbrev pub same_address : Address → Address → Bool
same_address a b =
    str_eq a.country b.country
    && str_eq a.city b.city
    && str_eq a.street b.street
    && str_eq a.postal_code b.postal_code
    && str_eq a.house b.house
    && str_eq a.apartment b.apartment

abbrev pub same_payment : PaymentDetails → PaymentDetails → Bool
same_payment a b = same_method a.method b.method && str_eq a.method_details b.method_details

unfoldable pub items_match : List OrderItem → List OrderItem → Bool
items_match [] [] = true
items_match [] (j ∷ js) = false
items_match (i ∷ is) [] = false
items_match (i ∷ is) (j ∷ js) =
    str_eq i.product_id j.product_id
    && str_eq i.sku j.sku
    && str_eq i.product_name j.product_name
    && same_ℤ i.quantity j.quantity
    && same_money i.unit_price j.unit_price
    && items_match is js

unfoldable pub orders_match_for_idempotency : Order → Order → Bool
unfolding items_match
orders_match_for_idempotency existing incoming =
    str_eq existing.customer_id incoming.customer_id
    && same_address existing.shipping_address incoming.shipping_address
    && same_payment existing.payment incoming.payment
    && items_match existing.items incoming.items

-- The check of an item in the loop of `CreateOrder`; `total` is the currency of those before.
unfoldable pub item_refused : Currency → OrderItem → Bool
item_refused total item =
    is_empty (trim_space item.product_id)
    || leb_ℤ item.quantity (pos 0)
    || leb_ℤ item.unit_price.amount_cents (pos 0)
    || is_currency_unspecified item.unit_price.currency
    || (not (is_currency_unspecified total) && not (same_currency item.unit_price.currency total))

unfoldable pub priced_item : OrderItem → OrderItem
priced_item item = record item {
  product_id = trim_space item.product_id;
  total_price = record {
    currency = item.unit_price.currency;
    amount_cents = wrap_i64 (item.quantity *ℤ item.unit_price.amount_cents);
  };
}

pub record Priced : Type 0 where
  pub items : List OrderItem
  pub total : Money

abbrev pub with_item : OrderItem → Priced → Priced
with_item item p = record { items = item ∷ p.items; total = p.total }

-- The loop of `CreateOrder`: the items priced and the total, or `none` where one is invalid.
unfoldable pub price_items : Currency → ℤ → List OrderItem → Option Priced
unfolding item_refused priced_item
price_items currency amount [] =
    some (record { items = []; total = record { currency = currency; amount_cents = amount } })
price_items currency amount (item ∷ items) =
    let rest =
      price_items (if is_currency_unspecified currency then item.unit_price.currency else currency)
        (wrap_i64 (amount +ℤ (priced_item item).total_price.amount_cents)) items in
    if item_refused currency item
    then none
    else elim rest [ none ↦ none | some p ↦ some (with_item (priced_item item) p) ]
