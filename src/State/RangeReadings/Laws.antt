-- ===== src/State/RangeReadings/Laws.antt =====
-- rangeReadings.ts: exactly the usable readings of reporting sensors are available.
use sih.Prelude.{
  ◌≡◌, ◌⊎◌, inl, inr, ◌↔◌, eq_iff, String, Bool, true, false, ◌&&◌, ◌||◌, List, [], ◌∷◌, Memᴰ,
  All-mem, All-filter, All-filter_of, All-of_mem, mem-filter_of, any, filter, refl, ◌===◌, sym, ◌∙◌,
  arith, Bool-cases,
}
use sih.Prelude.Runtime.{Runtime}
use sih.State.World.{SensorStatus, healthy, degraded, stale, offline, RangeReading, SensorHealth}
use sih.State.RangeReadings.{
  is_reporting, is_usable_range_reading, usable_range_readings, available_sensors,
  available_range_readings,
}

-- The states in which a sensor's readings are trusted.
abbrev pub IsTrusted : SensorStatus → Type 0
IsTrusted s = (s ≡ healthy) ⊎ (s ≡ degraded)

is_reporting_iff : (s : SensorStatus) → (is_reporting s ≡ true) ↔ IsTrusted s
is_reporting_iff healthy = (λ h. inl refl, λ h. refl)
is_reporting_iff degraded = (λ h. inr refl, λ h. refl)
is_reporting_iff stale =
    (λ h. absurd (cc), λ h. elim h [ inl e ↦ absurd (cc) | inr e ↦ absurd (cc) ])
is_reporting_iff offline =
    (λ h. absurd (cc), λ h. elim h [ inl e ↦ absurd (cc) | inr e ↦ absurd (cc) ])

module _ (js : Runtime) where
  open js use {decimal, is_finite, lt, le}

  -- The sensor has an entry in the health report that says it is healthy or degraded.
  abbrev pub IsReporting : List (SensorHealth js) → String → Type 0
  IsReporting health id =
      (h : SensorHealth js) × Memᴰ h health × (h.sensor_id ≡ id) × IsTrusted h.status

  -- What makes a reading available, in the words of the world's data.
  pub record IsAvailable (readings : List (RangeReading js)) (health : List (SensorHealth js))
      (connected : Bool) (r : RangeReading js) : Type 0 where
    pub given : Memᴰ r readings
    pub valid : r.is_valid ≡ true
    pub finite : is_finite r.range_m ≡ true
    pub positive : lt (decimal 0 0) r.range_m ≡ true
    pub certain : le (decimal 5 1) r.quality ≡ true
    pub reporting : IsReporting health r.sensor_id
    pub linked : connected ≡ true

  abbrev pub is_listed : String → List (SensorHealth js) → Bool
  is_listed id health = any (λ other. other === id) (available_sensors js health)

  pub is_listed-cons :
      (id : String) (x : SensorHealth js) (health : List (SensorHealth js))
      → is_listed id (x ∷ health)
        ≡ ((is_reporting x.status && x.sensor_id === id) || is_listed id health)
  unfolding available_sensors filter any
  is_listed-cons id x health = elim (Bool-cases (is_reporting x.status)) [
    | inl e ↦ rw e refl
    | inr e ↦ rw e refl
  ]

  listed-IsReporting :
      (id : String) (health : List (SensorHealth js))
      → is_listed id health ≡ true
      → IsReporting health id
  unfolding available_sensors any filter
  listed-IsReporting id [] h = absurd (cc)
  listed-IsReporting id (x ∷ health) h =
      elim (Bool-cases (is_reporting x.status && x.sensor_id === id)) [
        | inl e ↦ (
          x,
          Memᴰ.head refl,
          (eq_iff x.sensor_id id).0 (ground (arith, e)),
          (is_reporting_iff x.status).0 (ground (arith, e)),
        )
        | inr e ↦
            let rest : is_listed id health ≡ true =
              (rw e at (sym (is_listed-cons id x health) ∙ h)) in
            let (y, m, same, good) = listed-IsReporting id health rest in
            (y, Memᴰ.tail m, same, good)
      ]

  reporting_listed :
      (id : String) (health : List (SensorHealth js)) (h : SensorHealth js)
      → Memᴰ h health
      → h.sensor_id ≡ id
      → is_reporting h.status ≡ true
      → is_listed id health ≡ true
  reporting_listed id [] h m e good = elim m [ ]
  reporting_listed id (x ∷ health) h (Memᴰ.head same) e good =
      let here : (x.sensor_id === id) ≡ true = (eq_iff x.sensor_id id).1 (cc) in
      let trusted : is_reporting x.status ≡ true = cc in
      is_listed-cons id x health ∙ rw (trusted, here) refl
  reporting_listed id (x ∷ health) h (Memᴰ.tail m) e good =
      is_listed-cons id x health ∙ ground (arith, reporting_listed id health h m e good)

  -- A reading is available exactly if the telemetry is connected, the reading is a given one,
  -- valid, finite, above 0 and of a quality of at least 0.5, and the health report has an entry
  -- for its sensor whose status is healthy or degraded.
  pub available_range_readings_iff :
      (readings : List (RangeReading js)) (health : List (SensorHealth js)) (connected : Bool)
      (r : RangeReading js)
      → Memᴰ r (available_range_readings js readings health connected)
        ↔ IsAvailable readings health connected r
  unfolding available_range_readings usable_range_readings is_usable_range_reading
  available_range_readings_iff readings health false r =
      (λ m. elim m [ ], λ a. absurd (cc (a.linked)))
  available_range_readings_iff readings health true r =
      let reports : RangeReading js → Bool = λ x. is_listed x.sensor_id health in
      let usable = filter (is_usable_range_reading js) readings in
      (
        λ m.
            let u : is_usable_range_reading js r ≡ true =
              All-mem _ _
                (All-filter_of _ reports usable (All-filter (is_usable_range_reading js) readings))
                m in
            record {
              given =
                  All-mem (λ x. Memᴰ x readings) _
                    (All-filter_of _ reports usable (
                      All-filter_of _ (is_usable_range_reading js) readings
                        (All-of_mem _ readings (λ x k. k))))
                    m;
              valid = ground (arith, u);
              finite = ground (arith, u);
              positive = ground (arith, u);
              certain = ground (arith, u);
              reporting =
                  listed-IsReporting r.sensor_id health
                    (All-mem (λ x. reports x ≡ true) _ (All-filter reports usable) m);
              linked = refl;
            },
        λ a.
            let (h, m, e, good) = a.reporting in
            mem-filter_of reports usable
              (mem-filter_of (is_usable_range_reading js) readings a.given
                (rw (a.valid, a.finite, a.positive, a.certain) refl))
              (reporting_listed r.sensor_id health h m e ((is_reporting_iff h.status).1 good)),
      )
