-- ===== src/Driver/Dashboard/Laws.antt =====
-- DriverDashboard.tsx: without telemetry nothing is claimed, a stop is always shown, and so is an
-- alert of a sensor that may be trusted.
use sih.Prelude.{
  ◌≡◌, refl, ap, ◌∙◌, String, Bool, true, false, List, [], ◌∷◌, Option, none, some, if◌then◌else◌,
  get_or, filter, ◌===◌, Memᴰ, arith, Bool-cases, inl, inr,
}
use sih.Prelude.Runtime.{Runtime}
use sih.Prelude.Sort.{sort}
use sih.State.World.{DataMode, live, simulated, replay, WorldState, grey, RangeReading}
use sih.State.Connection.{ConnectionState}
use sih.State.Selectors.{primary_vehicle}
use sih.State.RangeReadings.{available_range_readings}
use sih.State.SpatialPoints.{available_spatial_points}
use sih.Settings.Sensors.{SensorDisplaySetting}
use sih.Spatial.ForwardHazard.{ForwardHazard, Frame, forward, is_simulated}
use sih.Spatial.Projection.Readings.{alert, get_sensor_threat_level}
use sih.Driver.Proximity.{
  ProximityAlert, active_proximity_alerts, raised_alerts, latest_reading, head?, is_farther,
}
use sih.Driver.Proximity.Laws.{alert_first}
use sih.Driver.Dashboard.{
  DriverView, Banner, telemetry_banner, emergency_banner, proximity_banner, no_banner, is_available,
  is_live, driver_view, banner, display_emergency_state, display_emergency_reason,
  emergency_control_state,
}

module _ (js : Runtime) where
  -- What is claimed without telemetry.
  abbrev pub IsTelemetryBanner : Banner js → Type 0
  IsTelemetryBanner (telemetry_banner title text) = Unit
  IsTelemetryBanner (emergency_banner title text) = ⊥
  IsTelemetryBanner (proximity_banner a) = ⊥
  IsTelemetryBanner no_banner = ⊥

  no_alerts :
      (settings : List (SensorDisplaySetting js)) → active_proximity_alerts js [] settings ≡ []
  unfolding active_proximity_alerts sort
  no_alerts settings = ap (sort (is_farther js)) (none_raised settings)
    where
      none_raised : (settings : List (SensorDisplaySetting js)) → raised_alerts js [] settings ≡ []
      none_raised [] = unfold raised_alerts in refl
      none_raised (s ∷ rest) = unfold raised_alerts latest_reading filter in none_raised rest

  stop_shown :
      (world : WorldState js) (hazard : Option (ForwardHazard js))
      → world.emergency.state ≡ "EMERGENCY_STOP"
      → display_emergency_state js world hazard ≡ "EMERGENCY_STOP"
  unfolding display_emergency_state
  stop_shown world hazard stop =
      let e : (world.emergency.state === "EMERGENCY_STOP") ≡ true =
        ap (λ t. t === "EMERGENCY_STOP") stop in
      elim (Bool-cases (is_simulated world.mode)) [
        | inl m ↦ rw (m, e, display_emergency_state) stop
        | inr m ↦ rw (m, display_emergency_state) stop
      ]

  reason_shown :
      (world : WorldState js) (hazard : Option (ForwardHazard js))
      → display_emergency_reason js world hazard "EMERGENCY_STOP" ≡ world.emergency.reason
  unfolding display_emergency_reason
  reason_shown world none = refl
  reason_shown world (some h) = ground arith

  abbrev stop_banner : Option String → Banner js
  stop_banner reason =
      emergency_banner "EMERGENCY STOP" (get_or reason "Reduce speed and check the safe corridor.")

  live_shown :
      (world : WorldState js) (hazard : Option (ForwardHazard js))
      → is_live world.mode ≡ true
      → display_emergency_state js world hazard ≡ world.emergency.state
  unfolding display_emergency_state
  live_shown world hazard h =
      let m : is_simulated world.mode ≡ false = live_only world.mode h in
      rw (m, display_emergency_state) refl
    where
      live_only : (mode : DataMode) → is_live mode ≡ true → is_simulated mode ≡ false
      live_only live h = refl
      live_only simulated h = absurd (cc)
      live_only replay h = refl

  if_live :
      (mode : DataMode) (a : Option (ProximityAlert js))
      → is_live mode ≡ true
      → (if is_live mode then a else none) ≡ a
  if_live mode a h = rw h refl

  banner_alert :
      (link : ConnectionState) (v : DriverView js) (a : ProximityAlert js)
      → v.telemetry_available ≡ true
      → v.emergency_state ≡ "SAFE"
      → v.proximity_alert ≡ some a
      → banner js link v ≡ proximity_banner a
  unfolding banner
  banner_alert link v a h safe first =
      let e : (v.emergency_state === "SAFE") ≡ true = ap (λ t. t === "SAFE") safe in
      rw (h, e, first, banner) refl

  control_stop :
      (available : Bool) (world : WorldState js) (state : String)
      → available ≡ true
      → state ≡ "EMERGENCY_STOP"
      → emergency_control_state js available world state
        ≡ (if world.emergency.motor_cut then "MOTOR CUT" else "STOP REQUEST")
  unfolding emergency_control_state
  control_stop available world state h stop =
      let e : (state === "EMERGENCY_STOP") ≡ true = ap (λ t. t === "EMERGENCY_STOP") stop in
      ground arith

  banner_stop :
      (connection : ConnectionState) (v : DriverView js)
      → v.telemetry_available ≡ true
      → v.emergency_state ≡ "EMERGENCY_STOP"
      → banner js connection v
        ≡ emergency_banner "EMERGENCY STOP"
            (get_or v.emergency_reason "Reduce speed and check the safe corridor.")
  unfolding banner
  banner_stop link v h stop =
      let e : (v.emergency_state === "SAFE") ≡ false = ap (λ t. t === "SAFE") stop in
      let e' : (v.emergency_state === "EMERGENCY_STOP") ≡ true =
        ap (λ t. t === "EMERGENCY_STOP") stop in
      ground arith

  module _ (world : WorldState js) (connection : ConnectionState)
      (settings : List (SensorDisplaySetting js)) (previous : Option (ForwardHazard js)) where
    abbrev view : DriverView js
    view = driver_view js world connection settings previous

    -- Without a connection or without the primary vehicle the driver's page shows no ranges,
    -- points, alerts or hazards, says that the control state and the corridor are not verified,
    -- and its banner says that the telemetry is missing.
    pub driver_view_unavailable :
        is_available js world connection ≡ false
        → let v = driver_view js world connection settings previous in
          (v.ranges ≡ [])
          × (v.points ≡ some [])
          × (v.proximity_alert ≡ none)
          × (v.forward_hazard ≡ none)
          × (v.control_state ≡ "UNVERIFIED")
          × (v.corridor_state ≡ grey)
          × (v.corridor_confidence ≡ js.decimal 0 0)
          × IsTelemetryBanner (banner js connection v)
    unfolding driver_view
    driver_view_unavailable h =
        rw (h, no_alerts settings)
          (
            unfold available_range_readings in refl,
            unfold available_spatial_points in refl,
            unfold active_proximity_alerts in ground arith,
            unfold forward in refl,
            unfold emergency_control_state in refl,
            refl,
            refl,
            unfold banner in tt,
          )

    -- While the telemetry is available, an emergency stop of the world is what the driver's banner
    -- says, with the world's reason, whatever the mode and the hazards ahead, and the control
    -- state is a stop request or a motor cut.
    pub driver_view_stop :
        is_available js world connection ≡ true
        → world.emergency.state ≡ "EMERGENCY_STOP"
        → let v = driver_view js world connection settings previous in
          (v.emergency_state ≡ "EMERGENCY_STOP")
          × (v.control_state ≡ (if world.emergency.motor_cut then "MOTOR CUT" else "STOP REQUEST"))
          × (banner js connection v
              ≡ emergency_banner "EMERGENCY STOP"
                  (get_or world.emergency.reason "Reduce speed and check the safe corridor."))
    unfolding driver_view
    driver_view_stop h stop =
        let frame : Frame js = record {
          telemetry_available = is_available js world connection;
          world = world;
          vehicle = primary_vehicle js world;
        } in
        let hazard = forward js frame previous in
        let shown = stop_shown world hazard stop in
        (
          shown,
          control_stop (is_available js world connection) world _ h shown,
          banner_stop connection (driver_view js world connection settings previous) h shown
              ∙ ap stop_banner
                  (ap (display_emergency_reason js world hazard) shown ∙ reason_shown world hazard),
        )

    -- While the telemetry is available in a live world whose emergency state is safe, a sensor of
    -- the settings whose latest available reading is at its alert distance makes the driver's
    -- banner a proximity alert, and the one shown is of a reading at its sensor's alert distance.
    pub driver_view_alert :
        is_available js world connection ≡ true
        → is_live world.mode ≡ true
        → world.emergency.state ≡ "SAFE"
        → (sensor : SensorDisplaySetting js) → Memᴰ sensor settings
        → (reading : RangeReading js)
        → latest_reading js
            (available_range_readings js world.ranges world.sensor_health true)
            sensor.sensor_id
          ≡ some reading
        → get_sensor_threat_level js (some reading) sensor ≡ alert
        → (shown : ProximityAlert js) × (banner js connection
              (driver_view js world connection settings previous)
            ≡ proximity_banner shown)
          × (get_sensor_threat_level js (some shown.reading) shown.sensor ≡ alert)
    unfolding driver_view
    driver_view_alert h mode safe sensor m reading e near =
        let ranges = available_range_readings js world.ranges world.sensor_health true in
        let (shown, first, good) = alert_first js ranges settings sensor reading m e near in
        (
          shown,
          banner_alert connection (driver_view js world connection settings previous) shown h
              (live_shown world _ mode ∙ safe)
              (if_live world.mode _ mode
                ∙ ap
                    (λ b. head? (
                      active_proximity_alerts js
                        (available_range_readings js world.ranges world.sensor_health b) settings))
                    h
                ∙ first),
          good,
        )
