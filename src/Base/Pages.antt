-- ===== src/Base/Pages.antt =====
-- The bounds of a page, and the parts of a list that pages are.
use Prim.Native.Nat.{ℕ, zero, suc, ◌+◌, ◌*◌, ◌^◌, ◌≤◌, ◌<◌}
use mathlib.Core.Path.{◌≡◌, refl, ap, sym, ◌∙◌}
use mathlib.Core.Option.{none, some}
use mathlib.Core.List.{List, [], ◌∷◌, ◌++◌}
use native.Mathlib.Omega.{arith}
use event_driven_ecommerce.Base.Tests.{if◌then◌else◌}
use event_driven_ecommerce.Base.Lists.{length}
use event_driven_ecommerce.Base.Int.{pos, leb_ℤ, wrap_i64, ◌-ℤ◌, ◌*ℤ◌}
use event_driven_ecommerce.Base.Paging.{take, drop, clamp_int64_to_int32, within_total, page_bounds}

module _ {A : Type 0} where
  pub take_none : (a : ℕ) (xs : List A) → xs ≡ [] → take a xs ≡ []
  unfolding take
  take_none zero xs e = refl
  take_none (suc a) [] e = refl
  take_none (suc a) (x ∷ xs) e = absurd (ground (arith, e))

  pub take-add : (a b : ℕ) (xs : List A) → take (a + b) xs ≡ take a xs ++ take b (drop a xs)
  unfolding take drop
  take-add zero b xs = let e : 0 + b ≡ b = omega arith in ap (λ m. take m xs) e
  take-add (suc a) b [] = take_none (suc a + b) [] refl ∙ sym (take_none b [] refl)
  take-add (suc a) b (x ∷ xs) =
      let e : suc a + b ≡ suc (a + b) = omega arith in
      ap (λ m. take m (x ∷ xs)) e ∙ ap (λ y. x ∷ y) (take-add a b xs)

  pub drop_past : (a : ℕ) (xs : List A) → length xs ≤ a → drop a xs ≡ []
  unfolding drop
  drop_past zero [] h = refl
  drop_past zero (x ∷ xs) h = absurd (omega (arith, h))
  drop_past (suc a) [] h = refl
  drop_past (suc a) (x ∷ xs) h = drop_past a xs (omega (arith, h))

  pub take_past : (a : ℕ) (xs : List A) → length xs ≤ a → take a xs ≡ xs
  unfolding take
  take_past zero [] h = refl
  take_past zero (x ∷ xs) h = absurd (omega (arith, h))
  take_past (suc a) [] h = refl
  take_past (suc a) (x ∷ xs) h = ap (λ y. x ∷ y) (take_past a xs (omega (arith, h)))

offset_of : (k n : ℕ) → k * n < 2 ^ 63 → wrap_i64 ((pos (suc k) -ℤ pos 1) *ℤ pos n) ≡ pos (k * n)
offset_of k n h = ground (arith, h)

positive_page : (k : ℕ) → (if leb_ℤ (pos (suc k)) (pos 0) then pos 1 else pos (suc k)) ≡ pos (suc k)
positive_page k = ground arith

positive_size : (n total : ℕ) → 0 < n → (if leb_ℤ (pos n) (pos 0) then pos total else pos n) ≡ pos n
positive_size n total h = ground (arith, h)

bounds_of :
    (k n total : ℕ)
    → k * n < 2 ^ 63
    → 0 < n
    → page_bounds (pos (suc k)) (pos n) total ≡ within_total (pos n) (pos (k * n)) total
unfolding page_bounds
bounds_of k n total b h =
    ap
      (λ f.
        let limit = if leb_ℤ (pos n) (pos 0) then pos total else pos n in
        within_total limit (wrap_i64 ((f -ℤ pos 1) *ℤ limit)) total)
      (positive_page k)
    ∙ ap (λ limit. within_total limit (wrap_i64 ((pos (suc k) -ℤ pos 1) *ℤ limit)) total)
        (positive_size n total h)
    ∙ ap (λ o. within_total (pos n) o total) (offset_of k n b)

bounds_within :
    (n total m : ℕ)
    → n < 2 ^ 31
    → total < 2 ^ 31
    → m < total
    → within_total (pos n) (pos m) total ≡ some (n, m)
unfolding within_total clamp_int64_to_int32
bounds_within n total m s t h = ground (arith, s, t, h)

bounds_past : (n total m : ℕ) → total ≤ m → within_total (pos n) (pos m) total ≡ none
unfolding within_total
bounds_past n total m h = ground (arith, h)

-- The bounds of the page `k + 1` of `n` rows: `n` rows from `k * n` on.
pub page_bounds_within :
    (k n total : ℕ)
    → k * n < 2 ^ 63
    → 0 < n
    → n < 2 ^ 31
    → total < 2 ^ 31
    → k * n < total
    → page_bounds (pos (suc k)) (pos n) total ≡ some (n, k * n)
page_bounds_within k n total b p s t h =
    bounds_of k n total b p ∙ bounds_within n total (k * n) s t h

pub page_bounds_past :
    (k n total : ℕ)
    → k * n < 2 ^ 63
    → 0 < n
    → total ≤ k * n
    → page_bounds (pos (suc k)) (pos n) total ≡ none
page_bounds_past k n total b p h = bounds_of k n total b p ∙ bounds_past n total (k * n) h

mul_le : (k n c : ℕ) → n ≤ c → k * n ≤ k * c
mul_le zero n c h = omega arith
mul_le (suc k) n c h = omega (arith, mul_le k n c h)

pub mul_bound : (k n : ℕ) → k < 2 ^ 31 → n < 2 ^ 31 → k * n < 2 ^ 63
mul_bound k n h s = omega (arith, mul_le k n (2 ^ 31) (omega (arith, s)))
