-- ===== src/Order/Matching.antt =====
-- What it means that a request repeats an order, and that `ordersMatchForIdempotency` decides it.
use event_driven_ecommerce.Base.{eq_iff, ◌≡◌, refl, ap, true, ℤ, pos, negsuc, List, [], ◌∷◌, arith}
use event_driven_ecommerce.Order.Enums.{
  Currency, currency_unspecified, usd, eur, unknown_currency, PaymentMethodType, method_unspecified,
  card, cash, unknown_method, same_ℤ, same_currency, same_method,
}
use event_driven_ecommerce.Order.Domain.{Money, OrderItem, Order}
use event_driven_ecommerce.Order.Service.{items_match, orders_match_for_idempotency}

-- The same product at the same price; the total price of the item does not count.
pub record SameItem (i j : OrderItem) : Type 0 where
  pub product_id : i.product_id ≡ j.product_id
  pub sku : i.sku ≡ j.sku
  pub product_name : i.product_name ≡ j.product_name
  pub quantity : i.quantity ≡ j.quantity
  pub unit_price : i.unit_price ≡ j.unit_price

-- The same items in the same order.
pub data SameItems : List OrderItem → List OrderItem → Type 0 where
  no_more : SameItems [] []
  next :
      {i j : OrderItem} {is js : List OrderItem}
      → SameItem i j
      → SameItems is js
      → SameItems (i ∷ is) (j ∷ js)

-- The same customer, address, payment and items.
pub record SamePayload (a b : Order) : Type 0 where
  pub customer_id : a.customer_id ≡ b.customer_id
  pub shipping_address : a.shipping_address ≡ b.shipping_address
  pub payment : a.payment ≡ b.payment
  pub items : SameItems a.items b.items

eq-same_ℤ : (a b : ℤ) → same_ℤ a b ≡ true → a ≡ b
unfolding same_ℤ
eq-same_ℤ (pos m) (pos n) h = ground (arith, h)
eq-same_ℤ (negsuc m) (negsuc n) h = ground (arith, h)
eq-same_ℤ (pos m) (negsuc n) h = cc
eq-same_ℤ (negsuc m) (pos n) h = cc

same_ℤ_refl : (a : ℤ) → same_ℤ a a ≡ true
unfolding same_ℤ
same_ℤ_refl (pos m) = ground arith
same_ℤ_refl (negsuc m) = ground arith

same_currency_refl : (a : Currency) → same_currency a a ≡ true
unfolding same_currency
same_currency_refl currency_unspecified = refl
same_currency_refl usd = refl
same_currency_refl eur = refl
same_currency_refl (unknown_currency n) = same_ℤ_refl n

same_method_refl : (a : PaymentMethodType) → same_method a a ≡ true
unfolding same_method
same_method_refl method_unspecified = refl
same_method_refl card = refl
same_method_refl cash = refl
same_method_refl (unknown_method n) = same_ℤ_refl n

eq-same_currency : (a b : Currency) → same_currency a b ≡ true → a ≡ b
unfolding same_currency
eq-same_currency currency_unspecified currency_unspecified h = refl
eq-same_currency usd usd h = refl
eq-same_currency eur eur h = refl
eq-same_currency (unknown_currency m) (unknown_currency n) h = ap unknown_currency (eq-same_ℤ m n h)
eq-same_currency a b h = cc

eq-same_method : (a b : PaymentMethodType) → same_method a b ≡ true → a ≡ b
unfolding same_method
eq-same_method method_unspecified method_unspecified h = refl
eq-same_method card card h = refl
eq-same_method cash cash h = refl
eq-same_method (unknown_method m) (unknown_method n) h = ap unknown_method (eq-same_ℤ m n h)
eq-same_method a b h = cc

same_money-eq :
    (a b : Money)
    → same_currency a.currency b.currency ≡ true
    → same_ℤ a.amount_cents b.amount_cents ≡ true
    → a ≡ b
same_money-eq a b h k =
    let c = eq-same_currency a.currency b.currency h in
    let n = eq-same_ℤ a.amount_cents b.amount_cents k in
    λ t. record { currency = c t; amount_cents = n t }

items_match-SameItems : (is js : List OrderItem) → items_match is js ≡ true → SameItems is js
unfolding items_match
items_match-SameItems [] [] h = no_more
items_match-SameItems [] (j ∷ js) h = cc
items_match-SameItems (i ∷ is) [] h = cc
items_match-SameItems (i ∷ is) (j ∷ js) h =
    next
      (record {
        product_id = ground (arith, eq_iff i.product_id j.product_id);
        sku = ground (arith, eq_iff i.sku j.sku);
        product_name = ground (arith, eq_iff i.product_name j.product_name);
        quantity = ground (arith, eq-same_ℤ i.quantity j.quantity);
        unit_price = same_money-eq i.unit_price j.unit_price (ground arith) (ground arith);
      })
      (items_match-SameItems is js (ground arith))

SameItems-items_match : {is js : List OrderItem} → SameItems is js → items_match is js ≡ true
unfolding items_match
SameItems-items_match no_more = refl
SameItems-items_match (next {i} {j} {is} {js} s rest) = ground (
  arith,
  eq_iff i.product_id j.product_id,
  eq_iff i.sku j.sku,
  eq_iff i.product_name j.product_name,
  s.product_id,
  s.sku,
  s.product_name,
  s.quantity,
  s.unit_price,
  same_ℤ_refl i.quantity,
  same_ℤ_refl i.unit_price.amount_cents,
  same_currency_refl i.unit_price.currency,
  SameItems-items_match rest,
)

-- The test of the service decides whether a request repeats an order.
pub orders_match-SamePayload :
    (a b : Order) → orders_match_for_idempotency a b ≡ true → SamePayload a b
unfolding orders_match_for_idempotency
orders_match-SamePayload a b h = record {
  customer_id = ground (arith, eq_iff a.customer_id b.customer_id);
  shipping_address = ground (
    arith,
    eq_iff a.shipping_address.country b.shipping_address.country,
    eq_iff a.shipping_address.city b.shipping_address.city,
    eq_iff a.shipping_address.street b.shipping_address.street,
    eq_iff a.shipping_address.postal_code b.shipping_address.postal_code,
    eq_iff a.shipping_address.house b.shipping_address.house,
    eq_iff a.shipping_address.apartment b.shipping_address.apartment,
  );
  payment = ground (
    arith,
    eq-same_method a.payment.method b.payment.method,
    eq_iff a.payment.method_details b.payment.method_details,
  );
  items = items_match-SameItems a.items b.items (ground arith);
}

pub SamePayload-orders_match :
    (a b : Order) → SamePayload a b → orders_match_for_idempotency a b ≡ true
unfolding orders_match_for_idempotency
SamePayload-orders_match a b s = ground (
  arith,
  eq_iff a.customer_id b.customer_id,
  eq_iff a.shipping_address.country b.shipping_address.country,
  eq_iff a.shipping_address.city b.shipping_address.city,
  eq_iff a.shipping_address.street b.shipping_address.street,
  eq_iff a.shipping_address.postal_code b.shipping_address.postal_code,
  eq_iff a.shipping_address.house b.shipping_address.house,
  eq_iff a.shipping_address.apartment b.shipping_address.apartment,
  eq_iff a.payment.method_details b.payment.method_details,
  same_method_refl a.payment.method,
  s.customer_id,
  s.shipping_address,
  s.payment,
  SameItems-items_match s.items,
)
