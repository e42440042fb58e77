-- ===== src/Base/Paging.antt =====
-- LIMIT and OFFSET, and the bounds that both ListPaymentsByCustomer and ListOrdersByCustomer compute.
use Prim.Native.Nat.{ℕ, suc, zero, ◌-◌, ◌^◌}
use mathlib.Core.Option.{Option, none, some}
use mathlib.Core.List.{List, [], ◌∷◌}
use event_driven_ecommerce.Base.Tests.{leb, if◌then◌else◌}
use event_driven_ecommerce.Base.Int.{ℤ, pos, negsuc, leb_ℤ, ◌-ℤ◌, ◌*ℤ◌, wrap_i64}

module _ {ℓ} {A : Type ℓ} where
  unfoldable pub take : ℕ → List A → List A
  take zero xs = []
  take (suc n) [] = []
  take (suc n) (x ∷ xs) = x ∷ take n xs

  unfoldable pub drop : ℕ → List A → List A
  drop zero xs = xs
  drop (suc n) [] = []
  drop (suc n) (x ∷ xs) = drop n xs

-- `clampInt64ToInt32`
unfoldable pub clamp_int64_to_int32 : ℤ → ℕ
clamp_int64_to_int32 (pos n) = if leb n (2 ^ 31 - 1) then n else 2 ^ 31 - 1
clamp_int64_to_int32 (negsuc n) = 0

-- `none` where the offset lies past the `total` rows.
unfoldable pub within_total : ℤ → ℤ → ℕ → Option (ℕ × ℕ)
unfolding clamp_int64_to_int32
within_total limit offset total =
    if leb_ℤ (pos total) offset
    then none
    else some (clamp_int64_to_int32 limit, clamp_int64_to_int32 offset)

-- The limit and the offset of a page, clamped.
unfoldable pub page_bounds : ℤ → ℤ → ℕ → Option (ℕ × ℕ)
unfolding within_total
page_bounds page page_size total =
    let first = if leb_ℤ page (pos 0) then pos 1 else page in
    let limit = if leb_ℤ page_size (pos 0) then pos total else page_size in
    within_total limit (wrap_i64 ((first -ℤ pos 1) *ℤ limit)) total
