-- ===== src/State/Snapshot/Shape/Conforms.antt =====
-- frontend/src/types.ts: whether a value conforms to an interface as it is written. A strict reading
-- adds what the test on messages demands besides: an age of each load sample, points in each feature,
-- a position report in its ranges, and a phase that is one of the phases when it is turned into a text.
use sih.Prelude.{◌≡◌, ◌↔◌, refl, inl, inr, Bool, true, false, not, ◌&&◌, ◌||◌, All-imp}
use sih.Prelude.Runtime.{Runtime}
use sih.Prelude.Value.{Value, string, prop, items, values}
use sih.State.Snapshot.World.{haul_phases}
use sih.State.Snapshot.Basics.{
  has, is_record, is_string, is_boolean, is_number, is_null, is_undefined, is_one_of, is_array_of,
  is_non_empty, has_values, is_finite_number,
}
use sih.State.Snapshot.Shape.{
  Shape, any_number, finite, text, flag, nothing, absent, one_of, named, untested, either, both,
  list_of, non_empty_list_of, dictionary_of, interface, gps_report, phase_text, Properties, done,
  with, unread, unnamed, accepts, accepts_all, accepts_gps,
}
use sih.State.Snapshot.Shape.Laws.{and-split, or-split, is_array_of_iff, has_values_iff}

module _ (js : Runtime) where
  open js use {Num, text_of}

  unfoldable mutual
    pub conforms : Bool → Shape → Value Num → Bool
    conforms strict any_number v = is_number v
    conforms strict finite v = is_finite_number js v
    conforms strict text v = is_string v
    conforms strict flag v = is_boolean v
    conforms strict nothing v = is_null v
    conforms strict absent v = is_undefined v
    conforms strict (one_of set) v = is_one_of set v
    conforms strict (named set) v = is_one_of set v
    conforms strict (untested ps) v = is_record v && conforms_all strict ps v
    conforms strict (either s t) v = conforms strict s v || conforms strict t v
    conforms strict (both s t) v = conforms strict s v && conforms strict t v
    conforms strict (list_of s) v = is_array_of (conforms strict s) v
    conforms strict (non_empty_list_of s) v =
        (not strict || is_non_empty v) && is_array_of (conforms strict s) v
    conforms strict (dictionary_of s) v = has_values (conforms strict s) v
    conforms strict (interface ps) v = is_record v && conforms_all strict ps v
    conforms strict gps_report v = not strict || accepts_gps js v
    conforms strict phase_text v =
        is_one_of haul_phases v && (not strict || has haul_phases (text_of v))

    pub conforms_all : Bool → Properties → Value Num → Bool
    conforms_all strict done v = true
    conforms_all strict (with key s ps) v =
        conforms strict s (prop v key) && conforms_all strict ps v
    conforms_all strict (unread key s ps) v =
        conforms strict s (prop v key) && conforms_all strict ps v
    conforms_all strict (unnamed key s ps) v =
        (not strict || conforms strict s (prop v key)) && conforms_all strict ps v

  same_test : (p : Value Num → Bool) (v : Value Num) → (p v ≡ true) ↔ (p v ≡ true)
  same_test p v = (λ h. h, λ h. h)

  is_array_of_imp :
      (p q : Value Num → Bool)
      → ((v : Value Num) → p v ≡ true → q v ≡ true)
      → (v : Value Num) → is_array_of p v ≡ true
      → is_array_of q v ≡ true
  is_array_of_imp p q f v h =
      let (vs, e, all) = (is_array_of_iff p (λ x. p x ≡ true) (same_test p) v).0 h in
      (is_array_of_iff q (λ x. q x ≡ true) (same_test q) v).1
        (vs, e, All-imp (λ x. p x ≡ true) (items vs) f all)

  has_values_imp :
      (p q : Value Num → Bool)
      → ((v : Value Num) → p v ≡ true → q v ≡ true)
      → (v : Value Num) → has_values p v ≡ true
      → has_values q v ≡ true
  has_values_imp p q f v h =
      let (fs, e, all) = (has_values_iff p (λ x. p x ≡ true) (same_test p) v).0 h in
      (has_values_iff q (λ x. q x ≡ true) (same_test q) v).1
        (fs, e, All-imp (λ x. p x ≡ true) (values fs) f all)

  is_one_of-is_text : (set : _) (v : Value Num) → is_one_of set v ≡ true → is_string v ≡ true
  unfolding is_one_of is_string
  is_one_of-is_text set (string s) h = refl
  is_one_of-is_text set _ h = absurd (cc)

  and_imp :
      {a b c d : Bool}
      → (a ≡ true → c ≡ true)
      → (b ≡ true → d ≡ true)
      → (a && b) ≡ true
      → (c && d) ≡ true
  and_imp {a} {b} {c} {d} f g h = let (x, y) = (and-split a b).0 h in (and-split c d).1 (f x, g y)

  or_imp :
      {a b c d : Bool}
      → (a ≡ true → c ≡ true)
      → (b ≡ true → d ≡ true)
      → (a || b) ≡ true
      → (c || d) ≡ true
  or_imp {a} {b} {c} {d} f g h =
      (or-split c d).1 (elim ((or-split a b).0 h) [ inl x ↦ inl (f x) | inr y ↦ inr (g y) ])

  mutual
    unfolding accepts conforms

    -- What conforms strictly is accepted.
    pub conforms-accepts :
        (s : Shape) (v : Value Num) → conforms true s v ≡ true → accepts js s v ≡ true
    conforms-accepts any_number v h = h
    conforms-accepts finite v h = h
    conforms-accepts text v h = h
    conforms-accepts flag v h = h
    conforms-accepts nothing v h = h
    conforms-accepts absent v h = h
    conforms-accepts (one_of set) v h = h
    conforms-accepts (named set) v h = is_one_of-is_text set v h
    conforms-accepts (untested ps) v h = ((and-split _ _).0 h).0
    conforms-accepts (either s t) v h = or_imp (conforms-accepts s v) (conforms-accepts t v) h
    conforms-accepts (both s t) v h = and_imp (conforms-accepts s v) (conforms-accepts t v) h
    conforms-accepts (list_of s) v h =
        is_array_of_imp (conforms true s) (accepts js s) (conforms-accepts s) v h
    conforms-accepts (non_empty_list_of s) v h =
        and_imp (λ k. k) (is_array_of_imp (conforms true s) (accepts js s) (conforms-accepts s) v) h
    conforms-accepts (dictionary_of s) v h =
        has_values_imp (conforms true s) (accepts js s) (conforms-accepts s) v h
    conforms-accepts (interface ps) v h = and_imp (λ k. k) (conforms_all-accepts_all ps v) h
    conforms-accepts gps_report v h = h
    conforms-accepts phase_text v h = ((and-split _ _).0 h).1

    pub conforms_all-accepts_all :
        (ps : Properties) (v : Value Num)
        → conforms_all true ps v ≡ true
        → accepts_all js ps v ≡ true
    conforms_all-accepts_all done v h = refl
    conforms_all-accepts_all (with key s ps) v h =
        and_imp (conforms-accepts s (prop v key)) (conforms_all-accepts_all ps v) h
    conforms_all-accepts_all (unread key s ps) v h =
        conforms_all-accepts_all ps v ((and-split _ _).0 h).1
    conforms_all-accepts_all (unnamed key s ps) v h =
        and_imp (conforms-accepts s (prop v key)) (conforms_all-accepts_all ps v) h

  weaken : (b : Bool) → (not true || b) ≡ true → (not false || b) ≡ true
  weaken b h = refl

  mutual
    unfolding conforms

    -- What conforms strictly conforms to the interface as it is written.
    pub conforms-relaxed :
        (s : Shape) (v : Value Num) → conforms true s v ≡ true → conforms false s v ≡ true
    conforms-relaxed any_number v h = h
    conforms-relaxed finite v h = h
    conforms-relaxed text v h = h
    conforms-relaxed flag v h = h
    conforms-relaxed nothing v h = h
    conforms-relaxed absent v h = h
    conforms-relaxed (one_of set) v h = h
    conforms-relaxed (named set) v h = h
    conforms-relaxed (untested ps) v h = and_imp (λ k. k) (conforms_all-relaxed ps v) h
    conforms-relaxed (either s t) v h = or_imp (conforms-relaxed s v) (conforms-relaxed t v) h
    conforms-relaxed (both s t) v h = and_imp (conforms-relaxed s v) (conforms-relaxed t v) h
    conforms-relaxed (list_of s) v h =
        is_array_of_imp (conforms true s) (conforms false s) (conforms-relaxed s) v h
    conforms-relaxed (non_empty_list_of s) v h =
        and_imp (weaken (is_non_empty v))
          (is_array_of_imp (conforms true s) (conforms false s) (conforms-relaxed s) v) h
    conforms-relaxed (dictionary_of s) v h =
        has_values_imp (conforms true s) (conforms false s) (conforms-relaxed s) v h
    conforms-relaxed (interface ps) v h = and_imp (λ k. k) (conforms_all-relaxed ps v) h
    conforms-relaxed gps_report v h = refl
    conforms-relaxed phase_text v h = and_imp (λ k. k) (weaken (has haul_phases (text_of v))) h

    conforms_all-relaxed :
        (ps : Properties) (v : Value Num)
        → conforms_all true ps v ≡ true
        → conforms_all false ps v ≡ true
    conforms_all-relaxed done v h = refl
    conforms_all-relaxed (with key s ps) v h =
        and_imp (conforms-relaxed s (prop v key)) (conforms_all-relaxed ps v) h
    conforms_all-relaxed (unread key s ps) v h =
        and_imp (conforms-relaxed s (prop v key)) (conforms_all-relaxed ps v) h
    conforms_all-relaxed (unnamed key s ps) v h = and_imp (λ _. refl) (conforms_all-relaxed ps v) h
