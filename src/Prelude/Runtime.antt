-- ===== src/Prelude/Runtime.antt =====
-- The JavaScript engine: IEEE doubles and the text functions that the sources call.
-- Nothing of it is under the repository, so it is a parameter of the model.
use sih.Prelude.Value.{Value, Fields}
use Prim.Native.Nat.{ℕ}
use Prim.Native.String.{String}
use mathlib.Core.Bool.{Bool}

pub data Sign : Type 0 where
  before same after : Sign

pub record Runtime : Type 1 where
  -- the type `number`
  pub Num : Type 0
  -- the literal of a whole number over a power of ten: `decimal 5 1` is 0.5
  pub decimal : ℕ → ℕ → Num
  pub is_finite : Num → Bool
  pub is_integer : Num → Bool
  -- `<` and `<=`, false when an operand is NaN
  pub lt : Num → Num → Bool
  pub le : Num → Num → Bool
  pub eq : Num → Num → Bool
  pub neg : Num → Num
  pub add : Num → Num → Num
  pub sub : Num → Num → Num
  pub mul : Num → Num → Num
  pub div : Num → Num → Num
  -- `Math.max`, `Math.min`, `Math.round`
  pub max_num : Num → Num → Num
  pub min_num : Num → Num → Num
  pub round : Num → Num
  -- `Math.abs`, `Math.ceil` and `%`
  pub abs : Num → Num
  pub ceil : Num → Num
  pub rem : Num → Num → Num
  pub sin : Num → Num
  pub cos : Num → Num
  pub hypot : Num → Num → Num
  pub pi : Num
  -- `String(n)` and `n.toFixed(digits)`
  pub show : Num → String
  pub to_fixed : Num → ℕ → String
  -- `Number(text)`
  pub number_of : String → Num
  pub to_upper_case : String → String
  pub to_lower_case : String → String
  pub replace_all : String → String → String → String
  -- `text.includes(part)`
  pub includes : String → String → Bool
  -- the own properties of an array or a text, by index
  pub index_fields : Value Num → Fields Num
  -- `String(value)`
  pub text_of : Value Num → String
  -- the sign of `a.localeCompare(b)`
  pub locale_compare : String → String → Sign
