-- ===== src/State/Selectors/Laws.antt =====
-- selectors.ts: the report on the five range sensors.
use sih.Prelude.{
  ◌≡◌, ◌≤◌, refl, List, [], ◌∷◌, map, length, length-filter, Option-cases, inl, inr, any, find_last,
  find_last_sound, filter, arith, String, ◌===◌, eq_iff,
}
use sih.Prelude.Runtime.{Runtime}
use sih.State.World.{SensorHealth}
use sih.State.RangeReadings.{is_healthy}
use sih.State.Selectors.{tof_sensor_ids, health_of, tof_sensor_health, tof_sensor_health_summary}

module _ (js : Runtime) where
  health_of-id :
      (known : List (SensorHealth js)) (id : String) → (health_of js known id).sensor_id ≡ id
  unfolding health_of
  health_of-id known id = elim (Option-cases (find_last (λ s. s.sensor_id === id) known)) [
    | inl e ↦ rw e refl
    | inr (s, e) ↦
        let (holds, m) = find_last_sound (λ t. t.sensor_id === id) known e in
        rw e ((eq_iff s.sensor_id id).0 holds)
  ]

  map_ids :
      (known : List (SensorHealth js)) (ids : List String)
      → map (λ s. s.sensor_id) (map (health_of js known) ids) ≡ ids
  map_ids known [] = refl
  map_ids known (id ∷ ids) = ground (arith, health_of-id known id, map_ids known ids)

  -- The health report has one entry for each of the five range sensors, in their order, whatever
  -- the world reports; the summary's total is their number, and the healthy ones are at most as
  -- many.
  pub tof_sensor_health_lem :
      (sensors : List (SensorHealth js))
      → let summary = tof_sensor_health_summary js sensors in
        (map (λ s. s.sensor_id) (tof_sensor_health js sensors) ≡ tof_sensor_ids)
        × (summary.total ≡ length (tof_sensor_health js sensors))
        × (summary.healthy ≤ summary.total)
  unfolding tof_sensor_health tof_sensor_health_summary
  tof_sensor_health_lem sensors = (
    map_ids (filter (λ s. any (λ id. id === s.sensor_id) tof_sensor_ids) sensors) tof_sensor_ids,
    refl,
    length-filter (λ s. is_healthy s.status) (tof_sensor_health js sensors),
  )
