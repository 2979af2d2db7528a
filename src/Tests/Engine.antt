-- ===== src/Tests/Engine.antt =====
-- A concrete engine for the tests: fixed-point numbers in thousandths, with one NaN, and text
-- functions that leave texts in the case that they have and order them by length. Its angles are all
-- taken for 0, and its distances go along the axes.
use sih.Prelude.{
  ℕ, zero, suc, ◌⊕◌, ◌===◌, ◌+◌, ◌-◌, ◌*◌, ◌/◌, ◌%◌, String, ◌≡◌, refl, Bool, true, false, ◌||◌,
  ltb, leb, ◌==◌, if◌then◌else◌, arith,
}
use sih.Prelude.Runtime.{Runtime, Sign, before, same, after}
use sih.Prelude.Value.{Value, string, end}
use Prim.Native.Nat.{◌^◌}
use Prim.Native.String.{len, slice}

-- `minus n` is -n thousandths; `minus 0` is not used.
pub data Milli : Type 0 where
  plus minus : ℕ → Milli
  nan : Milli

abbrev pub lt_milli : Milli → Milli → Bool
lt_milli (plus a) (plus b) = ltb a b
lt_milli (minus a) (minus b) = ltb b a
lt_milli (minus a) (plus b) = ltb 0 (a + b)
lt_milli _ _ = false

abbrev pub eq_milli : Milli → Milli → Bool
eq_milli (plus a) (plus b) = a == b
eq_milli (minus a) (minus b) = a == b
eq_milli (minus a) (plus b) = a + b == 0
eq_milli (plus a) (minus b) = a + b == 0
eq_milli _ _ = false

abbrev pub is_number : Milli → Bool
is_number nan = false
is_number _ = true

abbrev pub neg_milli : Milli → Milli
neg_milli (plus a) = minus a
neg_milli (minus a) = plus a
neg_milli nan = nan

-- a - b thousandths
abbrev pub difference : ℕ → ℕ → Milli
difference a b = if leb b a then plus (a - b) else minus (b - a)

abbrev pub add_milli : Milli → Milli → Milli
add_milli (plus a) (plus b) = plus (a + b)
add_milli (minus a) (minus b) = minus (a + b)
add_milli (plus a) (minus b) = difference a b
add_milli (minus a) (plus b) = difference b a
add_milli _ _ = nan

abbrev pub max_milli : Milli → Milli → Milli
max_milli nan b = nan
max_milli a nan = nan
max_milli a b = if lt_milli a b then b else a

abbrev pub min_milli : Milli → Milli → Milli
min_milli nan b = nan
min_milli a nan = nan
min_milli a b = if lt_milli b a then b else a

abbrev pub mul_milli : Milli → Milli → Milli
mul_milli (plus a) (plus b) = plus (a * b / 1000)
mul_milli (plus a) (minus b) = minus (a * b / 1000)
mul_milli (minus a) (plus b) = minus (a * b / 1000)
mul_milli (minus a) (minus b) = plus (a * b / 1000)
mul_milli _ _ = nan

abbrev pub is_whole : Milli → Bool
is_whole (plus a) = a % 1000 == 0
is_whole (minus a) = a % 1000 == 0
is_whole nan = false

abbrev pub div_milli : Milli → Milli → Milli
div_milli (plus a) (plus b) = if b == 0 then nan else plus (a * 1000 / b)
div_milli (minus a) (plus b) = if b == 0 then nan else minus (a * 1000 / b)
div_milli (plus a) (minus b) = if b == 0 then nan else minus (a * 1000 / b)
div_milli (minus a) (minus b) = if b == 0 then nan else plus (a * 1000 / b)
div_milli _ _ = nan

abbrev pub abs_milli : Milli → Milli
abs_milli (minus a) = plus a
abs_milli a = a

abbrev pub round_milli : Milli → Milli
round_milli (plus a) = plus ((a + 500) / 1000 * 1000)
round_milli (minus a) = minus ((a + 499) / 1000 * 1000)
round_milli nan = nan

abbrev pub ceil_milli : Milli → Milli
ceil_milli (plus a) = plus ((a + 999) / 1000 * 1000)
ceil_milli (minus a) = minus (a / 1000 * 1000)
ceil_milli nan = nan

abbrev pub rem_milli : Milli → Milli → Milli
rem_milli (plus a) (plus b) = if b == 0 then nan else plus (a % b)
rem_milli (minus a) (plus b) = if b == 0 then nan else minus (a % b)
rem_milli (plus a) (minus b) = if b == 0 then nan else plus (a % b)
rem_milli (minus a) (minus b) = if b == 0 then nan else minus (a % b)
rem_milli _ _ = nan

-- The last digits of a number, as many as the first argument says.
abbrev digits : ℕ → ℕ → String
digits zero n = ""
digits (suc k) n = digits k (n / 10) ⊕ slice "0123456789" (n % 10) (suc (n % 10))

abbrev pub show_milli : Milli → String
show_milli (plus a) = digits 9 a
show_milli (minus a) = "-" ⊕ digits 9 a
show_milli nan = "NaN"

abbrev pub text_of_value : Value Milli → String
text_of_value (string s) = s
text_of_value _ = "value"

-- Texts in the order of their lengths.
abbrev pub compare_texts : String → String → Sign
compare_texts a b =
    if ltb (len a) (len b) then before else if ltb (len b) (len a) then after else same

abbrev pub engine : Runtime
engine = record {
  Num = Milli;
  decimal = λ m k. plus (m * 1000 / 10 ^ k);
  is_finite = is_number;
  is_integer = is_whole;
  lt = lt_milli;
  le = λ a b. lt_milli a b || eq_milli a b;
  eq = eq_milli;
  neg = neg_milli;
  add = add_milli;
  sub = λ a b. add_milli a (neg_milli b);
  mul = mul_milli;
  div = div_milli;
  max_num = max_milli;
  min_num = min_milli;
  round = round_milli;
  abs = abs_milli;
  ceil = ceil_milli;
  rem = rem_milli;
  sin = λ a. plus 0;
  cos = λ a. plus 1000;
  hypot = λ a b. add_milli (abs_milli a) (abs_milli b);
  pi = plus 3142;
  show = show_milli;
  to_fixed = λ a k. show_milli a;
  number_of = λ s. nan;
  to_upper_case = λ s. s;
  to_lower_case = λ s. s;
  replace_all = λ s from to. s;
  includes = λ s part. s === part;
  index_fields = λ v. end;
  text_of = text_of_value;
  locale_compare = compare_texts;
}

-- In this engine, too, a number is not above its equal.
pub engine-equal : (a b : Milli) → eq_milli a b ≡ true → lt_milli a b ≡ false
engine-equal (plus a) (plus b) e = ground arith
engine-equal (plus a) (minus b) e = refl
engine-equal (minus a) (plus b) e = ground arith
engine-equal (minus a) (minus b) e = ground arith
engine-equal nan b e = refl
engine-equal (plus a) nan e = refl
engine-equal (minus a) nan e = refl
