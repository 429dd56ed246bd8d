-- ===== src/Base/Decimal.antt =====
-- `std::stoi`, `std::to_string` and the trimming of a text.
use Prim.Native.Nat.{ℕ, zero, suc, ◌+◌, ◌-◌, ◌*◌, ◌/◌, ◌%◌, ◌^◌, ◌<◌}
use mathlib.Core.Path.{◌≡◌, refl, ◌∙◌}
use mathlib.Core.Bool.{Bool, true, false}
use mathlib.Core.Option.{Option, none, some}
use mathlib.Core.Logic.{inl, inr}
use mathlib.Core.List.{[], ◌∷◌, ◌++◌, reverse}
use native.Mathlib.Omega.{arith}
use xnminer.Base.Tests.{ltb, ◌==◌, if◌then◌else◌, Bool-cases}
use xnminer.Base.Int.{ℤ, pos, negsuc}
use xnminer.Base.Bytes.{Text, is_space, is_digit}

unfoldable pub trim_front : Text → Text
trim_front [] = []
trim_front (c ∷ s) = if is_space c then trim_front s else c ∷ s

unfoldable pub trim : Text → Text
unfolding trim_front
trim s = reverse (trim_front (reverse (trim_front s)))

-- The value of the leading digits, after those read so far, or none if there is no digit.
unfoldable pub digits_value : Option ℕ → Text → Option ℕ
digits_value acc [] = acc
digits_value none (c ∷ s) = if is_digit c then digits_value (some (c - b'0')) s else none
digits_value (some n) (c ∷ s) =
    if is_digit c then digits_value (some (n * 10 + (c - b'0'))) s else some n

-- The value as an `int`, or the exception `out_of_range`.
unfoldable pub fit_int : Bool → Option ℕ → Option ℤ
fit_int neg none = none
fit_int false (some n) = if ltb n (2 ^ 31) then some (pos n) else none
fit_int true (some zero) = some (pos 0)
fit_int true (some (suc n)) = if ltb n (2 ^ 31) then some (negsuc n) else none

unfoldable pub signed : Text → Option ℤ
unfolding digits_value fit_int
signed [] = none
signed (c ∷ s) =
    if c == b'-'
    then fit_int true (digits_value none s)
    else if c == b'+'
    then fit_int false (digits_value none s)
    else fit_int false (digits_value none (c ∷ s))

-- `std::stoi`: white space, a sign, digits; `none` where it throws.
unfoldable pub stoi : Text → Option ℤ
unfolding signed trim_front
stoi s = signed (trim_front s)

-- The decimal digits of a number in front of a text, with fuel above the number.
unfoldable pub decimal : ℕ → ℕ → Text → Text
decimal zero n acc = acc
decimal (suc f) n acc =
    let here = (b'0' + n % 10) ∷ acc in
    let rest = decimal f (n / 10) here in if ltb n 10 then here else rest

unfoldable pub to_decimal : ℕ → Text
unfolding decimal
to_decimal n = decimal (suc n) n []

unfoldable pub to_string : ℤ → Text
unfolding to_decimal
to_string (pos n) = to_decimal n
to_string (negsuc n) = b'-' ∷ to_decimal (n + 1)

-- The text behind the leading digits.
unfoldable pub drop_digits : Text → Text
drop_digits [] = []
drop_digits (c ∷ s) = if is_digit c then drop_digits s else c ∷ s

decimal-append : (f n : ℕ) (acc r : Text) → decimal f n acc ++ r ≡ decimal f n (acc ++ r)
unfolding decimal
decimal-append zero n acc r = refl
decimal-append (suc f) n acc r = elim (Bool-cases (ltb n 10)) [
  | inl e ↦ rw e refl
  | inr e ↦ rw e (decimal-append f (n / 10) ((b'0' + n % 10) ∷ acc) r)
]

digits_value-decimal :
    (f n : ℕ) (acc : Text) → n < f → digits_value none (decimal f n acc) ≡ digits_value (some n) acc
unfolding decimal digits_value
digits_value-decimal zero n acc h = absurd (omega arith)
digits_value-decimal (suc f) n acc h = elim (Bool-cases (ltb n 10)) [
  | inl e ↦ rw (e, digits_value, digit, value (ground arith)) refl
  | inr e ↦
      rw e (digits_value-decimal f (n / 10) ((b'0' + n % 10) ∷ acc) (ground arith) ∙ ground arith)
]
  where
    digit : is_digit (b'0' + n % 10) ≡ true
    digit = ground arith

    value : n < 10 → b'0' + n % 10 - b'0' ≡ n
    value small = omega arith

drop_digits-decimal :
    (f n : ℕ) (acc : Text) → n < f → drop_digits (decimal f n acc) ≡ drop_digits acc
unfolding decimal drop_digits
drop_digits-decimal zero n acc h = absurd (omega arith)
drop_digits-decimal (suc f) n acc h = elim (Bool-cases (ltb n 10)) [
  | inl e ↦ rw e (ground arith)
  | inr e ↦
      rw e (drop_digits-decimal f (n / 10) ((b'0' + n % 10) ∷ acc) (ground arith) ∙ ground arith)
]

-- Reading back a printed number with whatever follows.
pub digits_value-to_decimal :
    (n : ℕ) (r : Text) → digits_value none (to_decimal n ++ r) ≡ digits_value (some n) r
unfolding to_decimal
digits_value-to_decimal n r =
    rw (decimal-append (suc n) n [] r) (digits_value-decimal (suc n) n r (omega arith))

pub drop_digits-to_decimal : (n : ℕ) (r : Text) → drop_digits (to_decimal n ++ r) ≡ drop_digits r
unfolding to_decimal
drop_digits-to_decimal n r =
    rw (decimal-append (suc n) n [] r) (drop_digits-decimal (suc n) n r (omega arith))
