-- ===== src/Prelude/Value.antt =====
-- A value of the dynamic type `unknown`, as `JSON.parse` and property access give them.
use sih.Prelude.Tests.{if◌then◌else◌, ◌===◌}
use Prim.Native.String.{String}
use mathlib.Core.Bool.{Bool}
use mathlib.Core.List.{List, [], ◌∷◌}
use mathlib.Core.Path.{◌≡◌, refl}
use native.Mathlib.Omega.{arith}
use text.Mathlib.TextEquality.{eq_iff}

mutual
  pub data Value (N : Type 0) : Type 0 where
    undefined : Value N
    null : Value N
    boolean : Bool → Value N
    number : N → Value N
    string : String → Value N
    array : Items N → Value N
    object : Fields N → Value N

  pub data Items (N : Type 0) : Type 0 where
    nil : Items N
    cons : Value N → Items N → Items N

  -- The own properties of an object, in order, each key once.
  pub data Fields (N : Type 0) : Type 0 where
    end : Fields N
    field : String → Value N → Fields N → Fields N

module _ {N : Type 0} where
  abbrev pub items : Items N → List (Value N)
  items nil = []
  items (cons v vs) = v ∷ items vs

  -- `Object.values(record)`
  abbrev pub values : Fields N → List (Value N)
  values end = []
  values (field k v fs) = v ∷ values fs

  -- `record[key]`: a missing key reads as `undefined`.
  abbrev pub member : String → Fields N → Value N
  member key end = undefined
  member key (field k v fs) = if k === key then v else member key fs

  -- `value.key`. The sources read properties of objects only, behind a test; the last clause is
  -- there to make the function total.
  unfoldable pub prop : Value N → String → Value N
  prop (object fs) key = member key fs
  prop _ key = undefined

  -- `{ ...record, [key]: v }`
  abbrev pub assign : String → Value N → Fields N → Fields N
  assign key v end = field key v end
  assign key v (field k w fs) = if k === key then field k v fs else field k w (assign key v fs)

  -- `{ ...record, ...patch }`
  abbrev pub spread : Fields N → Fields N → Fields N
  spread fs end = fs
  spread fs (field k v patch) = spread (assign k v fs) patch

  pub member-assign :
      (key k : String) (v : Value N) (fs : Fields N)
      → member key (assign k v fs) ≡ (if k === key then v else member key fs)
  member-assign key k v end = refl
  member-assign key k v (field j w fs) =
      ground (arith, eq_iff j k, eq_iff j key, eq_iff k key, member-assign key k v fs)
