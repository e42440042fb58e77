-- ===== src/Order/Pricing.antt =====
-- The amounts that `CreateOrder` computes.
use event_driven_ecommerce.Base.{
  ℕ, ◌+◌, ◌*◌, ◌<◌, ◌^◌, ◌≡◌, refl, false, some, List, [], ◌∷◌, All, arith, ℤ, pos, negsuc,
  pos_part, ◌+ℤ◌, ◌*ℤ◌, Option-cases, some_inj, inl, inr, subst, ap, sym, ◌∙◌, leb_ℤ, wrap_i64,
  if◌then◌else◌,
}
use event_driven_ecommerce.Order.Enums.{Currency, is_currency_unspecified}
use event_driven_ecommerce.Order.Domain.{OrderItem}
use event_driven_ecommerce.Order.Service.{item_refused, priced_item, Priced, with_item, price_items}

-- What an item costs, in the natural numbers.
abbrev pub cost : OrderItem → ℕ
cost item = pos_part item.quantity * pos_part item.unit_price.amount_cents

abbrev pub cost_all : List OrderItem → ℕ
cost_all [] = 0
cost_all (item ∷ items) = cost item + cost_all items

wrap_small : (n : ℕ) → n < 2 ^ 63 → wrap_i64 (pos n) ≡ pos n
wrap_small n h = ground arith

times_pos :
    (a b : ℤ)
    → leb_ℤ a (pos 0) ≡ false
    → leb_ℤ b (pos 0) ≡ false
    → a *ℤ b ≡ pos (pos_part a * pos_part b)
times_pos (pos m) (pos n) h k = ground arith
times_pos (negsuc m) b h k = absurd (ground arith)
times_pos (pos m) (negsuc n) h k = absurd (ground arith)

plus_pos : (m n : ℕ) → pos m +ℤ pos n ≡ pos (m + n)
plus_pos m n = ground arith

item_positive :
    (c : Currency) (item : OrderItem)
    → item_refused c item ≡ false
    → (leb_ℤ item.quantity (pos 0) ≡ false) × (leb_ℤ item.unit_price.amount_cents (pos 0) ≡ false)
unfolding item_refused
item_positive c item h = ground (arith, h)

priced_amount :
    (c : Currency) (item : OrderItem)
    → item_refused c item ≡ false
    → cost item < 2 ^ 63
    → (priced_item item).total_price.amount_cents ≡ pos (cost item)
unfolding priced_item
priced_amount c item h k =
    let (q, u) = item_positive c item h in
    rw (times_pos item.quantity item.unit_price.amount_cents q u) (wrap_small (cost item) k)

abbrev next_currency : Currency → OrderItem → Currency
next_currency c item = if is_currency_unspecified c then item.unit_price.currency else c

abbrev next_amount : ℤ → OrderItem → ℤ
next_amount amount item = wrap_i64 (amount +ℤ (priced_item item).total_price.amount_cents)

price_items-cons :
    (c : Currency) (amount : ℤ) (item : OrderItem) (items : List OrderItem) (p : Priced)
    → price_items c amount (item ∷ items) ≡ some p
    → (item_refused c item ≡ false)
      × (rest : Priced) × (price_items (next_currency c item) (next_amount amount item) items
          ≡ some rest)
      × (p ≡ with_item (priced_item item) rest)
unfolding price_items
price_items-cons c amount item items p e =
    elim (Option-cases (price_items (next_currency c item) (next_amount amount item) items)) [
      | inl missing ↦ absurd (ground (arith, missing, e))
      | inr (rest, is) ↦ (ground (arith, e), rest, is, ground (arith, is, e))
    ]

-- The total is `n`, and every item costs its quantity times its unit price.
abbrev pub Charged : ℕ → Priced → Type 0
Charged n p =
    (p.total.amount_cents ≡ pos n) × All (λ i. i.total_price.amount_cents ≡ pos (cost i)) p.items

price_items-nil :
    (c : Currency) (n : ℕ) (p : Priced) → price_items c (pos n) [] ≡ some p → Charged n p
unfolding price_items
price_items-nil c n p e = subst (Charged n) (some_inj _ p e) (refl, tt)

next_amount_small :
    (c : Currency) (n : ℕ) (item : OrderItem)
    → item_refused c item ≡ false
    → n + cost item < 2 ^ 63
    → next_amount (pos n) item ≡ pos (n + cost item)
next_amount_small c n item fine small =
    ap (λ x. wrap_i64 (pos n +ℤ x)) (priced_amount c item fine (omega (arith, small)))
    ∙ ap wrap_i64 (plus_pos n (cost item))
    ∙ wrap_small (n + cost item) small

cost-priced_item : (item : OrderItem) → cost (priced_item item) ≡ cost item
unfolding priced_item
cost-priced_item item = refl

-- Where the items cost less than 2 ^ 63 cents together with the `n` before them, each item that
-- `CreateOrder` prices costs its quantity times its unit price, and the total is their sum with `n`.
pub price_items-Charged :
    (items : List OrderItem) (c : Currency) (n : ℕ) (p : Priced)
    → price_items c (pos n) items ≡ some p
    → n + cost_all items < 2 ^ 63
    → Charged (n + cost_all items) p
price_items-Charged [] c n p e small =
    subst (λ m. Charged m p) (omega arith) (price_items-nil c n p e)
price_items-Charged (item ∷ items) c n p e small =
    let (fine, rest, is, made) = price_items-cons c (pos n) item items p e in
    let amount = next_amount_small c n item fine (omega (arith, small)) in
    let (total, all) =
      price_items-Charged items (next_currency c item) (n + cost item) rest
        (subst (λ x. price_items (next_currency c item) x items ≡ some rest) amount is)
        (omega (arith, small)) in
    subst (Charged (n + cost_all (item ∷ items))) (sym made) (
      total ∙ ap pos (omega arith),
      (
        priced_amount c item fine (omega (arith, small)) ∙ ap pos (sym (cost-priced_item item)),
        all,
      ),
    )
