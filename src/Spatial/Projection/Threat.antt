-- ===== src/Spatial/Projection/Threat.antt =====
-- spatialProjection.ts: how dangerous a reading is said to be.
use sih.Prelude.{ℕ, ◌≤◌, ◌≡◌, true, some, arith, Bool-cases, inl, inr}
use sih.Prelude.Runtime.{Runtime}
use sih.State.World.{RangeReading}
use sih.Settings.Sensors.{SensorDisplaySetting}
use sih.Spatial.Projection.Readings.{
  ThreatLevel, alert, caution, clear, unknown, alert_distance, get_sensor_threat_level,
}

-- The documented behaviour of `<=` on numbers; NaN is in no relation.
abbrev pub LeIsTransitive : Runtime → Type 0
LeIsTransitive js = (a b c : js.Num) → js.le a b ≡ true → js.le b c ≡ true → js.le a c ≡ true

abbrev pub danger : ThreatLevel → ℕ
danger unknown = 0
danger clear = 1
danger caution = 2
danger alert = 3

module _ (js : Runtime) where
  open js use {Num, le, is_finite, mul, decimal}

  -- Where `<=` is transitive, a valid and finite reading is never rated as less dangerous than a
  -- reading of the same sensor that is farther away or equally far.
  pub threat_level_monotone :
      LeIsTransitive js
      → (setting : SensorDisplaySetting js) (near far : RangeReading js) → near.is_valid ≡ true
      → is_finite near.range_m ≡ true
      → le near.range_m far.range_m ≡ true
      → danger (get_sensor_threat_level js (some far) setting)
        ≤ danger (get_sensor_threat_level js (some near) setting)
  unfolding get_sensor_threat_level
  threat_level_monotone transitive setting near far valid finite nearer =
      let limit = alert_distance js setting in
      let wide = mul limit (decimal 15 1) in
      elim (Bool-cases (le far.range_m limit)) [
        | inl a ↦ let near_a = transitive near.range_m far.range_m limit nearer a in ground arith
        | inr a ↦ elim (Bool-cases (le far.range_m wide)) [
          | inl c ↦ let near_c = transitive near.range_m far.range_m wide nearer c in ground arith
          | inr c ↦ ground arith
        ]
      ]
