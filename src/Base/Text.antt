-- ===== src/Base/Text.antt =====
-- Texts. A Go string is taken as the sequence of its code points, so texts that are no valid
-- UTF-8 are left out. `strings.TrimSpace` is written out.
use Prim.Native.Nat.{ℕ, zero, suc, ◌/◌, ◌%◌, ◌<◌}
use Prim.Native.Char.{Char, code}
use Prim.Native.String.{String, ◌++◌}
use mathlib.Core.Bool.{Bool, true, false, ◌&&◌, ◌||◌}
use mathlib.Core.Path.{◌≡◌, refl}
use native.Mathlib.Omega.{arith}
use event_driven_ecommerce.Base.Tests.{ltb, leb, ◌==◌, if◌then◌else◌}

infixr 65 ◌<>◌
abbrev pub ◌<>◌ : String → String → String
s <> t = s ++ t

abbrev pub is_empty : String → Bool
is_empty String.[] = true
is_empty (String.◌∷◌ c s) = false

-- `unicode.IsSpace`
is_space : Char → Bool
is_space c =
    let n = code c in
    (leb 9 n && leb n 13)
    || n == 0x20
    || n == 0x85
    || n == 0xA0
    || n == 0x1680
    || (leb 0x2000 n && leb n 0x200A)
    || n == 0x2028
    || n == 0x2029
    || n == 0x202F
    || n == 0x205F
    || n == 0x3000

trim_left : String → String
trim_left String.[] = ""
trim_left (String.◌∷◌ c s) = let rest = trim_left s in if is_space c then rest else String.◌∷◌ c s

trim_right : String → String
trim_right String.[] = ""
trim_right (String.◌∷◌ c s) =
    let rest = trim_right s in if is_space c && is_empty rest then "" else String.◌∷◌ c rest

-- `strings.TrimSpace`
unfoldable pub trim_space : String → String
unfolding trim_left trim_right is_space
trim_space s = trim_right (trim_left s)

-- `strings.TrimSpace(s) == ""`
abbrev pub is_blank : String → Bool
is_blank s = is_empty (trim_space s)

trim_padded : trim_space " a b\t" ≡ "a b"
unfolding trim_space
trim_padded = refl

trim_right_idem : (s : String) → trim_right (trim_right s) ≡ trim_right s
unfolding trim_right
trim_right_idem String.[] = refl
trim_right_idem (String.◌∷◌ c s) = ground (arith, trim_right_idem s)

-- A text starts with no space.
abbrev Starts : String → Type 0
Starts String.[] = Unit
Starts (String.◌∷◌ c s) = is_space c ≡ false

trim_left-Starts : (s : String) → Starts (trim_left s)
unfolding trim_left
trim_left-Starts String.[] = tt
trim_left-Starts (String.◌∷◌ c s) = ground (arith, trim_left-Starts s)

trim_left_of_Starts : (s : String) → Starts s → trim_left s ≡ s
unfolding trim_left
trim_left_of_Starts String.[] h = refl
trim_left_of_Starts (String.◌∷◌ c s) h = ground arith

trim_right-Starts : (s : String) → Starts s → Starts (trim_right s)
unfolding trim_right
trim_right-Starts String.[] h = tt
trim_right-Starts (String.◌∷◌ c s) h = ground arith

pub trim_space_idem : (s : String) → trim_space (trim_space s) ≡ trim_space s
unfolding trim_space
trim_space_idem s =
    rw (trim_left_of_Starts _ (trim_right-Starts _ (trim_left-Starts s)))
      (trim_right_idem (trim_left s))

digit : ℕ → String
digit n =
    if n == 0
    then "0"
    else if n == 1
    then "1"
    else if n == 2
    then "2"
    else if n == 3
    then "3"
    else if n == 4
    then "4"
    else if n == 5
    then "5"
    else if n == 6
    then "6"
    else if n == 7
    then "7"
    else if n == 8
    then "8"
    else "9"

-- One digit fewer with each round, so a number is fuel enough for itself.
digits_before : ℕ → ℕ → String → String
unfolding digit
digits_before zero n rest = rest
digits_before (suc fuel) n rest =
    let more = digits_before fuel (n / 10) (digit (n % 10) <> rest) in
    if ltb n 10 then digit n <> rest else more

digits_before_enough :
    (f g n : ℕ) (rest : String) → n < f → n < g → digits_before f n rest ≡ digits_before g n rest
unfolding digits_before
digits_before_enough zero g n rest h k = absurd (omega arith)
digits_before_enough (suc f) zero n rest h k = absurd (omega arith)
digits_before_enough (suc f) (suc g) n rest h k =
    ground (arith, digits_before_enough f g (n / 10) (digit (n % 10) <> rest))

-- `%d` of a number that is not negative.
unfoldable pub format_int : ℕ → String
unfolding digits_before
format_int n = digits_before (suc n) n ""

format_int_1204 : format_int 1204 ≡ "1204"
unfolding format_int
format_int_1204 = refl
