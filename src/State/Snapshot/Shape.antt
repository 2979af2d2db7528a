-- ===== src/State/Snapshot/Shape.antt =====
-- A vocabulary for the interfaces of frontend/src/types.ts, in which an interface also says where the
-- test on messages departs from it. `Fits` is what a message has to be for the test, and `accepts`
-- decides it; `conforms`, in Conforms, decides what the interface itself asks for.
pub mod Operations
pub mod Interfaces
pub mod Laws
pub mod Agree
pub mod Conforms
use sih.Prelude.{
  ℕ, String, ◌≡◌, ◌≢◌, ◌↔◌, ◌⊎◌, inl, inr, refl, Bool, true, false, not, ◌&&◌, ◌||◌, List, [], ◌∷◌,
  arith, every, All, every_iff, Bool-cases,
}
use sih.Prelude.Runtime.{Runtime}
use sih.Prelude.Value.{
  Value, undefined, null, boolean, number, string, array, object, items, values, prop, Items, nil,
  cons, Fields,
}
use sih.State.Snapshot.Sensors.{is_false, number_is, is_beyond}
use sih.State.Snapshot.World.{haul_phases}
use sih.State.Snapshot.Basics.{
  has, is_record, is_string, is_boolean, is_number, is_null, is_undefined, is_text, is_one_of,
  is_array_of, is_non_empty, has_values, is_finite_number,
}

mutual
  pub data Shape : Type 0 where
    any_number finite text flag : Shape
    nothing : Shape
    absent : Shape
    one_of : List String → Shape
    -- The interface names the texts, and the test takes any.
    named : List String → Shape
    -- The interface has properties, and the test asks for an object only.
    untested : Properties → Shape
    either both : Shape → Shape → Shape
    list_of : Shape → Shape
    -- The interface has a list, and the test asks for one with an item.
    non_empty_list_of : Shape → Shape
    dictionary_of : Shape → Shape
    interface : Properties → Shape
    -- Two conditions that the test has and no interface: the ranges of a position report, and, in the
    -- place of the haul phases that the interface names, a value that is one of them once it is turned
    -- into a text.
    gps_report : Shape
    phase_text : Shape

  pub data Properties : Type 0 where
    done : Properties
    with : String → Shape → Properties → Properties
    -- A property of the interface that the test does not look at.
    unread : String → Shape → Properties → Properties
    -- A property that the test asks for, and the interface does not have.
    unnamed : String → Shape → Properties → Properties

-- `T | null` and `key?: T`
abbrev pub nullable : Shape → Shape
nullable s = either nothing s

abbrev pub optional : Shape → Shape
optional s = either absent s

module _ (js : Runtime) where
  open js use {Num, is_finite, lt, decimal, text_of}

  abbrev pub accepts_limit : Value Num → String → ℕ → Bool
  accepts_limit v key limit =
      not (not (is_null (prop v key)) && number_is (is_beyond js limit) (prop v key))

  abbrev pub accepts_gps : Value Num → Bool
  accepts_gps v =
      not (
        number_is (λ n. lt n (decimal 0 0)) (prop v "sats")
        || number_is (λ n. lt n (decimal 0 0)) (prop v "bytes"))
      && accepts_limit v "lat" 90
      && accepts_limit v "lon" 180
      && (is_false (prop v "fix")
          || not (is_null (prop v "lat"))
            && not (is_null (prop v "lon"))
            && not (is_null (prop v "age")))

  -- What a position report promises beyond the types of its fields.
  pub record IsGpsReport (v : Value Num) : Type 0 where
    pub sats : (n : Num) → prop v "sats" ≡ number n → lt n (decimal 0 0) ≡ false
    pub bytes : (n : Num) → prop v "bytes" ≡ number n → lt n (decimal 0 0) ≡ false
    pub lat : (n : Num) → prop v "lat" ≡ number n → is_beyond js 90 n ≡ false
    pub lon : (n : Num) → prop v "lon" ≡ number n → is_beyond js 180 n ≡ false
    pub located :
        (prop v "fix" ≡ boolean false)
        ⊎ ((prop v "lat" ≢ null) × (prop v "lon" ≢ null) × (prop v "age" ≢ null))

  unfoldable mutual
    pub accepts : Shape → Value Num → Bool
    accepts any_number v = is_number v
    accepts finite v = is_finite_number js v
    accepts text v = is_string v
    accepts flag v = is_boolean v
    accepts nothing v = is_null v
    accepts absent v = is_undefined v
    accepts (one_of set) v = is_one_of set v
    accepts (named set) v = is_string v
    accepts (untested ps) v = is_record v
    accepts (either s t) v = accepts s v || accepts t v
    accepts (both s t) v = accepts s v && accepts t v
    accepts (list_of s) v = is_array_of (accepts s) v
    accepts (non_empty_list_of s) v = is_non_empty v && is_array_of (accepts s) v
    accepts (dictionary_of s) v = has_values (accepts s) v
    accepts (interface ps) v = is_record v && accepts_all ps v
    accepts gps_report v = accepts_gps v
    accepts phase_text v = has haul_phases (text_of v)

    pub accepts_all : Properties → Value Num → Bool
    accepts_all done v = true
    accepts_all (with key s ps) v = accepts s (prop v key) && accepts_all ps v
    accepts_all (unread key s ps) v = accepts_all ps v
    accepts_all (unnamed key s ps) v = accepts s (prop v key) && accepts_all ps v

  abbrev mutual
    pub Fits : Shape → Value Num → Type 0
    Fits any_number v = (n : Num) × (v ≡ number n)
    Fits finite v = (n : Num) × (v ≡ number n) × (is_finite n ≡ true)
    Fits text v = (s : String) × (v ≡ string s)
    Fits flag v = (b : Bool) × (v ≡ boolean b)
    Fits nothing v = v ≡ null
    Fits absent v = v ≡ undefined
    Fits (one_of set) v = (s : String) × (v ≡ string s) × (has set s ≡ true)
    Fits (named set) v = (s : String) × (v ≡ string s)
    Fits (untested ps) v = (fs : Fields Num) × (v ≡ object fs)
    Fits (either s t) v = Fits s v ⊎ Fits t v
    Fits (both s t) v = Fits s v × Fits t v
    Fits (list_of s) v = (vs : Items Num) × (v ≡ array vs) × All (Fits s) (items vs)
    Fits (non_empty_list_of s) v =
        (vs : Items Num) × (v ≡ array vs) × (vs ≢ nil) × All (Fits s) (items vs)
    Fits (dictionary_of s) v = (fs : Fields Num) × (v ≡ object fs) × All (Fits s) (values fs)
    Fits gps_report v = IsGpsReport v
    Fits phase_text v = has haul_phases (text_of v) ≡ true
    Fits (interface ps) v = ((fs : Fields Num) × (v ≡ object fs)) × FitsAll ps v

    pub FitsAll : Properties → Value Num → Type 0
    FitsAll done v = Unit
    FitsAll (with key s ps) v = Fits s (prop v key) × FitsAll ps v
    FitsAll (unread key s ps) v = FitsAll ps v
    FitsAll (unnamed key s ps) v = Fits s (prop v key) × FitsAll ps v
