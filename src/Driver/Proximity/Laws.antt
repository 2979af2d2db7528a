-- ===== src/Driver/Proximity/Laws.antt =====
-- ProximityWidget.tsx: what the alerts and the trusted readings are.
use sih.Prelude.{
  ◌≡◌, refl, sym, ◌∙◌, true, List, [], ◌∷◌, none, some, if◌then◌else◌, Memᴰ, All, All-mem, All-if,
  Bool-cases, Option-cases, inl, inr, ap,
}
use sih.Prelude.Runtime.{Runtime}
use sih.Prelude.Sort.{sort, mem-sort, All-sort}
use sih.State.World.{RangeReading}
use sih.Settings.Sensors.{SensorDisplaySetting}
use sih.Spatial.Projection.Readings.{
  ThreatLevel, alert, caution, clear, unknown, get_sensor_threat_level,
}
use sih.Driver.Proximity.{
  ProximityAlert, active_proximity_alerts, raised_alerts, latest_reading, is_alert_level, head?,
  is_farther,
}

is_alert_level_sound : (t : ThreatLevel) → is_alert_level t ≡ true → t ≡ alert
is_alert_level_sound alert h = refl
is_alert_level_sound caution h = absurd (cc)
is_alert_level_sound clear h = absurd (cc)
is_alert_level_sound unknown h = absurd (cc)

head?-mem {ℓ} :
    {A : Type ℓ} {x : A} (xs : List A) → Memᴰ x xs → (y : A) × (head? xs ≡ some y) × Memᴰ y xs
head?-mem [] m = elim m [ ]
head?-mem (y ∷ xs) m = (y, refl, Memᴰ.head refl)

module _ (js : Runtime) where
  abbrev threat : ProximityAlert js → ThreatLevel
  threat a = get_sensor_threat_level js (some a.reading) a.sensor

  raised_none :
      (readings : List (RangeReading js)) (s : SensorDisplaySetting js)
      (sensors : List (SensorDisplaySetting js))
      → latest_reading js readings s.sensor_id ≡ none
      → raised_alerts js readings (s ∷ sensors) ≡ raised_alerts js readings sensors
  unfolding raised_alerts
  raised_none readings s sensors e = rw (e, raised_alerts) refl

  raised_some :
      (readings : List (RangeReading js)) (s : SensorDisplaySetting js)
      (sensors : List (SensorDisplaySetting js)) {r : RangeReading js}
      → latest_reading js readings s.sensor_id ≡ some r
      → raised_alerts js readings (s ∷ sensors) ≡ (
          if is_alert_level (get_sensor_threat_level js (some r) s)
          then record { sensor = s; reading = r } ∷ raised_alerts js readings sensors
          else raised_alerts js readings sensors)
  unfolding raised_alerts
  raised_some readings s sensors e = rw (e, raised_alerts) refl

  raised-alert :
      (readings : List (RangeReading js)) (sensors : List (SensorDisplaySetting js))
      → All (λ a. threat a ≡ alert) (raised_alerts js readings sensors)
  raised-alert readings [] = unfold raised_alerts in tt
  raised-alert readings (s ∷ sensors) =
      elim (Option-cases (latest_reading js readings s.sensor_id)) [
        | inl e ↦ rw (raised_none readings s sensors e) (raised-alert readings sensors)
        | inr (r, e) ↦ rw (raised_some readings s sensors e) (
            All-if (λ a. threat a ≡ alert) (is_alert_level (get_sensor_threat_level js (some r) s))
              (record { sensor = s; reading = r } ∷ raised_alerts js readings sensors)
              (raised_alerts js readings sensors)
              (λ near. (is_alert_level_sound _ near, raised-alert readings sensors))
              (λ _. raised-alert readings sensors))
      ]

  raised-covers :
      (readings : List (RangeReading js)) (sensors : List (SensorDisplaySetting js))
      (sensor : SensorDisplaySetting js) (reading : RangeReading js)
      → Memᴰ sensor sensors
      → latest_reading js readings sensor.sensor_id ≡ some reading
      → get_sensor_threat_level js (some reading) sensor ≡ alert
      → (a : ProximityAlert js) × Memᴰ a (raised_alerts js readings sensors)
  raised-covers readings [] sensor reading m e near = elim m [ ]
  raised-covers readings (s ∷ sensors) sensor reading (Memᴰ.head same) e near =
      let e' : latest_reading js readings s.sensor_id ≡ some reading =
        ap (λ (x : SensorDisplaySetting js). latest_reading js readings x.sensor_id) (sym same)
        ∙ e in
      let near' : is_alert_level (get_sensor_threat_level js (some reading) s) ≡ true =
        ap
          (λ (x : SensorDisplaySetting js).
            is_alert_level (get_sensor_threat_level js (some reading) x))
          (sym same)
        ∙ ap is_alert_level near in
      (
        record { sensor = s; reading = reading },
        rw (raised_some readings s sensors e', near') (Memᴰ.head refl),
      )
  raised-covers readings (s ∷ sensors) sensor reading (Memᴰ.tail m) e near =
      let (a, here) = raised-covers readings sensors sensor reading m e near in
      elim (Option-cases (latest_reading js readings s.sensor_id)) [
        | inl g ↦ (a, rw (raised_none readings s sensors g) here)
        | inr (r, g) ↦ elim (Bool-cases (is_alert_level (get_sensor_threat_level js (some r) s))) [
          | inl yes' ↦ (a, rw (raised_some readings s sensors g, yes') (Memᴰ.tail here))
          | inr no' ↦ (a, rw (raised_some readings s sensors g, no') here)
        ]
      ]

  -- A sensor whose latest reading is at its alert distance makes some alert come first.
  pub alert_first :
      (readings : List (RangeReading js)) (sensors : List (SensorDisplaySetting js))
      (sensor : SensorDisplaySetting js) (reading : RangeReading js)
      → Memᴰ sensor sensors
      → latest_reading js readings sensor.sensor_id ≡ some reading
      → get_sensor_threat_level js (some reading) sensor ≡ alert
      → (a : ProximityAlert js) × (head? (active_proximity_alerts js readings sensors) ≡ some a)
        × (get_sensor_threat_level js (some a.reading) a.sensor ≡ alert)
  unfolding active_proximity_alerts
  alert_first readings sensors sensor reading m e near =
      let (a, here) = raised-covers readings sensors sensor reading m e near in
      let sorted = sort (is_farther js) (raised_alerts js readings sensors) in
      let (b, first, there) =
        head?-mem sorted (mem-sort (is_farther js) (raised_alerts js readings sensors) here) in
      (
        b,
        first,
        All-mem (λ a. threat a ≡ alert) sorted
            (All-sort (is_farther js) _ (raised_alerts js readings sensors)
              (raised-alert readings sensors))
            there,
      )
