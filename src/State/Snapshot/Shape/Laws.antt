-- ===== src/State/Snapshot/Shape/Laws.antt =====
-- `accepts` decides `Fits`.
use sih.Prelude.{
  String, ◌≡◌, ◌≢◌, ◌↔◌, ◌⊎◌, inl, inr, refl, Bool, true, false, not, ◌&&◌, ◌||◌, List, arith, All,
  every, every_iff, [], sym, subst, All-imp,
}
use sih.Prelude.Runtime.{Runtime}
use sih.Prelude.Value.{
  Value, undefined, null, boolean, number, string, array, object, Items, nil, cons, Fields, items,
  values, prop,
}
use sih.State.Snapshot.Basics.{
  has, is_record, is_string, is_boolean, is_number, is_null, is_undefined, is_one_of, is_array_of,
  is_non_empty, has_values, is_finite_number,
}
use sih.State.Snapshot.Sensors.{is_false, number_is, is_beyond}
use sih.State.Snapshot.Shape.{
  Shape, any_number, finite, text, flag, nothing, absent, one_of, named, untested, either, both,
  list_of, non_empty_list_of, dictionary_of, interface, gps_report, phase_text, Properties, done,
  with, unread, unnamed, accepts, accepts_all, accepts_gps, Fits, FitsAll, IsGpsReport,
}

pub and-split : (a b : Bool) → ((a && b) ≡ true) ↔ ((a ≡ true) × (b ≡ true))
and-split a b = (λ h. (ground arith, ground arith), λ h. ground arith)

pub or-split : (a b : Bool) → ((a || b) ≡ true) ↔ ((a ≡ true) ⊎ (b ≡ true))
or-split a b = (λ h. ground arith, λ h. ground arith)

every_iff_of :
    {A : Type 0} (p : A → Bool) (P : A → Type 0)
    → ((x : A) → (p x ≡ true) ↔ P x)
    → (xs : List A) → (every p xs ≡ true) ↔ All P xs
every_iff_of p P decides xs =
    let (to, from) = every_iff p xs in
    (
      λ h. All-imp (λ x. p x ≡ true) xs (λ x q. (decides x).0 q) (to h),
      λ h. from (All-imp P xs (λ x q. (decides x).1 q) h),
    )

module _ {N : Type 0} where
  abbrev items_of : Value N → List (Value N)
  items_of (array vs) = items vs
  items_of _ = []

  abbrev values_of : Value N → List (Value N)
  values_of (object fs) = values fs
  values_of _ = []

  is_null_iff : (v : Value N) → (is_null v ≡ true) ↔ (v ≡ null)
  unfolding is_null
  is_null_iff null = (λ _. refl, λ _. refl)
  is_null_iff _ = (λ h. cc, λ h. cc)

  is_undefined_iff : (v : Value N) → (is_undefined v ≡ true) ↔ (v ≡ undefined)
  unfolding is_undefined
  is_undefined_iff undefined = (λ _. refl, λ _. refl)
  is_undefined_iff _ = (λ h. cc, λ h. cc)

  is_string_iff : (v : Value N) → (is_string v ≡ true) ↔ ((s : String) × (v ≡ string s))
  unfolding is_string
  is_string_iff (string s) = (λ _. (s, refl), λ _. refl)
  is_string_iff _ = (λ h. cc, λ h. cc)

  is_number_iff : (v : Value N) → (is_number v ≡ true) ↔ ((n : N) × (v ≡ number n))
  unfolding is_number
  is_number_iff (number s) = (λ _. (s, refl), λ _. refl)
  is_number_iff _ = (λ h. cc, λ h. cc)

  is_boolean_iff : (v : Value N) → (is_boolean v ≡ true) ↔ ((b : Bool) × (v ≡ boolean b))
  unfolding is_boolean
  is_boolean_iff (boolean b) = (λ _. (b, refl), λ _. refl)
  is_boolean_iff _ = (λ h. cc, λ h. cc)

  is_record_iff : (v : Value N) → (is_record v ≡ true) ↔ ((fs : Fields N) × (v ≡ object fs))
  unfolding is_record
  is_record_iff (object fs) = (λ _. (fs, refl), λ _. refl)
  is_record_iff _ = (λ h. cc, λ h. cc)

  is_one_of_iff :
      (set : List String) (v : Value N)
      → (is_one_of set v ≡ true) ↔ ((s : String) × (v ≡ string s) × (has set s ≡ true))
  unfolding is_one_of
  is_one_of_iff set (string s) = (λ h. (s, refl, h), λ (t, e, h). ground arith)
  is_one_of_iff set _ = (λ h. cc, λ h. cc)

  pub is_array_of_iff :
      (p : Value N → Bool) (P : Value N → Type 0)
      → ((v : Value N) → (p v ≡ true) ↔ P v)
      → (v : Value N)
      → (is_array_of p v ≡ true) ↔ ((vs : Items N) × (v ≡ array vs) × All P (items vs))
  unfolding is_array_of
  is_array_of_iff p P decides (array vs) =
      let (to, from) = every_iff_of p P decides (items vs) in
      (λ h. (vs, refl, to h), λ (ws, e, h). from (subst (λ w. All P (items_of w)) (sym e) h))
  is_array_of_iff p P decides _ = (λ h. cc, λ h. cc)

  pub has_values_iff :
      (p : Value N → Bool) (P : Value N → Type 0)
      → ((v : Value N) → (p v ≡ true) ↔ P v)
      → (v : Value N)
      → (has_values p v ≡ true) ↔ ((fs : Fields N) × (v ≡ object fs) × All P (values fs))
  unfolding has_values
  has_values_iff p P decides (object fs) =
      let (to, from) = every_iff_of p P decides (values fs) in
      (λ h. (fs, refl, to h), λ (gs, e, h). from (subst (λ w. All P (values_of w)) (sym e) h))
  has_values_iff p P decides _ = (λ h. cc, λ h. cc)

  is_non_empty_iff : (vs : Items N) → (is_non_empty (array vs) ≡ true) ↔ (vs ≢ nil)
  unfolding is_non_empty
  is_non_empty_iff nil = (λ h. cc, λ h. absurd (h refl))
  is_non_empty_iff (cons v vs) = (λ h e. cc, λ h. refl)

  number_is_iff :
      (p : N → Bool) (v : Value N)
      → (number_is p v ≡ false) ↔ ((n : N) → v ≡ number n → p n ≡ false)
  number_is_iff p (number m) = (λ h n e. ground arith, λ h. h m refl)
  number_is_iff p _ = (λ h n e. cc, λ h. refl)

  is_false_iff : (v : Value N) → (is_false v ≡ true) ↔ (v ≡ boolean false)
  is_false_iff (boolean false) = (λ h. refl, λ h. refl)
  is_false_iff (boolean true) = (λ h. cc, λ h. cc)
  is_false_iff _ = (λ h. cc, λ h. cc)

  not-null_iff : (v : Value N) → (not (is_null v) ≡ true) ↔ (v ≢ null)
  unfolding is_null
  not-null_iff null = (λ h. cc, λ h. absurd (h refl))
  not-null_iff _ = (λ h e. cc, λ h. refl)

  -- A limit on a nullable number.
  limit_iff :
      (p : N → Bool) (v : Value N)
      → (not (not (is_null v) && number_is p v) ≡ true) ↔ ((n : N) → v ≡ number n → p n ≡ false)
  unfolding is_null
  limit_iff p (number m) = (λ h n e. ground arith, λ h. ground (arith, h m refl))
  limit_iff p _ = (λ h n e. cc, λ h. refl)

module _ (js : Runtime) where
  open js use {Num, is_finite, lt, decimal}

  is_finite_number_iff :
      (v : Value Num)
      → (is_finite_number js v ≡ true) ↔ ((n : Num) × (v ≡ number n) × (is_finite n ≡ true))
  unfolding is_finite_number
  is_finite_number_iff (number n) = (λ h. (n, refl, h), λ (m, e, h). ground arith)
  is_finite_number_iff _ = (λ h. cc, λ h. cc)

  located_iff :
      (fix lat lon age : Value Num)
      → ((is_false fix || not (is_null lat) && not (is_null lon) && not (is_null age)) ≡ true)
        ↔ ((fix ≡ boolean false) ⊎ ((lat ≢ null) × (lon ≢ null) × (age ≢ null)))
  located_iff fix lat lon age =
      let (flag_to, flag_from) = is_false_iff fix in
      let (lat_to, lat_from) = not-null_iff lat in
      let (lon_to, lon_from) = not-null_iff lon in
      let (age_to, age_from) = not-null_iff age in
      (
        λ h. elim ((or-split _ _).0 h) [
          | inl e ↦ inl (flag_to e)
          | inr e ↦
              let (two, a) = (and-split _ _).0 e in
              let (b, c) = (and-split _ _).0 two in inr (lat_to b, lon_to c, age_to a)
        ],
        λ h. elim h [
          | inl e ↦ (or-split _ _).1 (inl (flag_from e))
          | inr (a, b, c) ↦
              (or-split _ _).1
                (inr ((and-split _ _).1 ((and-split _ _).1 (lat_from a, lon_from b), age_from c)))
        ],
      )

  nor_iff : (a b : Bool) → (not (a || b) ≡ true) ↔ ((a ≡ false) × (b ≡ false))
  nor_iff a b = (λ h. (ground arith, ground arith), λ h. ground arith)

  accepts_gps_iff : (v : Value Num) → (accepts_gps js v ≡ true) ↔ IsGpsReport js v
  accepts_gps_iff v =
      let negative = λ (n : Num). lt n (decimal 0 0) in
      let (counts_to, counts_from) =
        nor_iff (number_is negative (prop v "sats")) (number_is negative (prop v "bytes")) in
      let (sats_to, sats_from) = number_is_iff negative (prop v "sats") in
      let (bytes_to, bytes_from) = number_is_iff negative (prop v "bytes") in
      let (lat_to, lat_from) = limit_iff (is_beyond js 90) (prop v "lat") in
      let (lon_to, lon_from) = limit_iff (is_beyond js 180) (prop v "lon") in
      let (fix_to, fix_from) =
        located_iff (prop v "fix") (prop v "lat") (prop v "lon") (prop v "age") in
      (
        λ h.
            let (ranges, fix) = (and-split _ _).0 h in
            let (below, lon) = (and-split _ _).0 ranges in
            let (counts, lat) = (and-split _ _).0 below in
            let (sats, bytes) = counts_to counts in
            record {
              sats = sats_to sats;
              bytes = bytes_to bytes;
              lat = lat_to lat;
              lon = lon_to lon;
              located = fix_to fix;
            },
        λ g. (and-split _ _).1 (
          (and-split _ _).1 (
            (and-split _ _).1 (counts_from (sats_from g.sats, bytes_from g.bytes), lat_from g.lat),
            lon_from g.lon,
          ),
          fix_from g.located,
        ),
      )

  either_iff :
      {a b : Bool} {P Q : Type 0} → (a ≡ true) ↔ P → (b ≡ true) ↔ Q → ((a || b) ≡ true) ↔ (P ⊎ Q)
  either_iff {a} {b} (to, from) (to', from') = (
    λ h. elim ((or-split a b).0 h) [ inl e ↦ inl (to e) | inr e ↦ inr (to' e) ],
    λ h. (or-split a b).1 (elim h [ inl p ↦ inl (from p) | inr q ↦ inr (from' q) ]),
  )

  both_iff :
      {a b : Bool} {P Q : Type 0} → (a ≡ true) ↔ P → (b ≡ true) ↔ Q → ((a && b) ≡ true) ↔ (P × Q)
  both_iff {a} {b} (to, from) (to', from') = (
    λ h. let (p, q) = (and-split a b).0 h in (to p, to' q),
    λ (p, q). (and-split a b).1 (from p, from' q),
  )

  filled_iff :
      (p : Value Num → Bool) (P : Value Num → Type 0)
      → ((v : Value Num) → (p v ≡ true) ↔ P v)
      → (v : Value Num)
      → ((is_non_empty v && is_array_of p v) ≡ true)
        ↔ ((vs : Items Num) × (v ≡ array vs) × (vs ≢ nil) × All P (items vs))
  filled_iff p P decides v =
      let (to, from) = is_array_of_iff p P decides v in
      (
        λ h.
            let (some_item, listed) = (and-split (is_non_empty v) _).0 h in
            let (vs, e, all) = to listed in
            (vs, e, (is_non_empty_iff vs).0 (rw e at some_item), all),
        λ (vs, e, some_item, all).
            (and-split _ _).1 (rw e ((is_non_empty_iff vs).1 some_item), from (vs, e, all)),
      )

  mutual
    unfolding accepts

    -- A value is accepted exactly when it has the shape.
    pub accepts_iff : (s : Shape) (v : Value Num) → (accepts js s v ≡ true) ↔ Fits js s v
    accepts_iff any_number v = is_number_iff v
    accepts_iff finite v = is_finite_number_iff v
    accepts_iff text v = is_string_iff v
    accepts_iff flag v = is_boolean_iff v
    accepts_iff nothing v = is_null_iff v
    accepts_iff absent v = is_undefined_iff v
    accepts_iff (one_of set) v = is_one_of_iff set v
    accepts_iff (named set) v = is_string_iff v
    accepts_iff (untested ps) v = is_record_iff v
    accepts_iff (either s t) v = either_iff (accepts_iff s v) (accepts_iff t v)
    accepts_iff (both s t) v = both_iff (accepts_iff s v) (accepts_iff t v)
    accepts_iff (list_of s) v = is_array_of_iff (accepts js s) (Fits js s) (accepts_iff s) v
    accepts_iff (non_empty_list_of s) v = filled_iff (accepts js s) (Fits js s) (accepts_iff s) v
    accepts_iff (dictionary_of s) v = has_values_iff (accepts js s) (Fits js s) (accepts_iff s) v
    accepts_iff (interface ps) v = both_iff (is_record_iff v) (accepts_all_iff ps v)
    accepts_iff gps_report v = accepts_gps_iff v
    accepts_iff phase_text v = (λ h. h, λ h. h)

    pub accepts_all_iff :
        (ps : Properties) (v : Value Num) → (accepts_all js ps v ≡ true) ↔ FitsAll js ps v
    accepts_all_iff done v = (λ _. tt, λ _. refl)
    accepts_all_iff (with key s ps) v = both_iff (accepts_iff s (prop v key)) (accepts_all_iff ps v)
    accepts_all_iff (unread key s ps) v = accepts_all_iff ps v
    accepts_all_iff (unnamed key s ps) v =
        both_iff (accepts_iff s (prop v key)) (accepts_all_iff ps v)
