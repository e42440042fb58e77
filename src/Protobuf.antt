-- ===== src/Protobuf.antt =====
-- The enums that gen/order/v1 and gen/payment/v1 declare alike, with the names that `String()` prints
-- and the maps `Currency_value` and `PaymentMethodType_value` from a name. A number that an enum does
-- not know prints as the number, and no such name is in the map.
use event_driven_ecommerce.Base.{
  String, Bool, true, false, Option, some, none, str_eq, ◌<>◌, ℤ, pos, negsuc, suc, format_int,
  if◌then◌else◌, ◌==◌,
}

abbrev pub format_ℤ : ℤ → String
format_ℤ (pos n) = format_int n
format_ℤ (negsuc n) = "-" <> format_int (suc n)

pub data Currency : Type 0 where
  currency_unspecified usd eur : Currency
  unknown_currency : ℤ → Currency

pub data PaymentMethodType : Type 0 where
  method_unspecified card cash : PaymentMethodType
  unknown_method : ℤ → PaymentMethodType

unfoldable pub currency_name : Currency → String
currency_name currency_unspecified = "CURRENCY_UNSPECIFIED"
currency_name usd = "CURRENCY_USD"
currency_name eur = "CURRENCY_EUR"
currency_name (unknown_currency n) = format_ℤ n

unfoldable pub method_name : PaymentMethodType → String
method_name method_unspecified = "PAYMENT_METHOD_TYPE_UNSPECIFIED"
method_name card = "PAYMENT_METHOD_TYPE_CARD"
method_name cash = "PAYMENT_METHOD_TYPE_CASH"
method_name (unknown_method n) = format_ℤ n

unfoldable pub currency_value : String → Option Currency
currency_value s =
    if str_eq s "CURRENCY_UNSPECIFIED"
    then some currency_unspecified
    else if str_eq s "CURRENCY_USD"
    then some usd
    else if str_eq s "CURRENCY_EUR"
    then some eur
    else none

unfoldable pub method_value : String → Option PaymentMethodType
method_value s =
    if str_eq s "PAYMENT_METHOD_TYPE_UNSPECIFIED"
    then some method_unspecified
    else if str_eq s "PAYMENT_METHOD_TYPE_CARD"
    then some card
    else if str_eq s "PAYMENT_METHOD_TYPE_CASH"
    then some cash
    else none

-- `==` on the int32 values.
unfoldable pub same_ℤ : ℤ → ℤ → Bool
same_ℤ (pos m) (pos n) = m == n
same_ℤ (negsuc m) (negsuc n) = m == n
same_ℤ (pos m) (negsuc n) = false
same_ℤ (negsuc m) (pos n) = false

unfoldable pub same_currency : Currency → Currency → Bool
unfolding same_ℤ
same_currency currency_unspecified currency_unspecified = true
same_currency usd usd = true
same_currency eur eur = true
same_currency (unknown_currency m) (unknown_currency n) = same_ℤ m n
same_currency a b = false

unfoldable pub same_method : PaymentMethodType → PaymentMethodType → Bool
unfolding same_ℤ
same_method method_unspecified method_unspecified = true
same_method card card = true
same_method cash cash = true
same_method (unknown_method m) (unknown_method n) = same_ℤ m n
same_method a b = false

abbrev pub is_method_unspecified : PaymentMethodType → Bool
is_method_unspecified method_unspecified = true
is_method_unspecified m = false

abbrev pub is_currency_unspecified : Currency → Bool
is_currency_unspecified currency_unspecified = true
is_currency_unspecified c = false
