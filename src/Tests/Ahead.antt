-- ===== src/Tests/Ahead.antt =====
-- A truck ahead (frontend/src/spatial/forwardHazard.ts), and how near a reading is.
use sih.Prelude.{ℕ, ◌≡◌, ◌≤◌, refl, true, false, [], ◌∷◌, none, some, arith}
use sih.Prelude.Sort.{sort, insert}
use sih.Tests.Engine.{plus, minus, nan, engine}
use sih.Tests.Fleet.{world, pose, reading}
use sih.State.World.{VehiclePose, simulated}
use sih.Settings.Sensors.{SensorDisplaySetting}
use sih.Spatial.RouteGeometry.{local_point}
use sih.Spatial.ForwardHazard.{
  ForwardHazard, Frame, truck, eligible, rock_at, rock_hazards, truck_hazards, candidates,
  held_hazard, select_simulated_forward_hazard, forward, watch,
}
use sih.Spatial.Projection.Readings.{get_sensor_threat_level, caution, clear}
use sih.Spatial.Projection.{finite_number}
use sih.Spatial.Projection.Threat.{LeIsTransitive, danger, threat_level_monotone}

abbrev driver : VehiclePose engine
driver = record pose { mode = simulated }

-- The other truck stands 6 m ahead, and later far away.
abbrev other : ℕ → VehiclePose engine
other y = record pose { vehicle_id = "DUMPER_02"; mode = simulated; y_m = plus y }

abbrev frame_at : ℕ → ℕ → Frame engine
frame_at time y = record {
  telemetry_available = true;
  world = record world {
    mode = simulated;
    generated_at_ms = plus time;
    vehicles = driver ∷ other y ∷ [];
  };
  vehicle = driver;
}

hazards : Unit {0}
unfolding eligible rock_at rock_hazards truck_hazards candidates held_hazard local_point
    select_simulated_forward_hazard forward watch sort insert
hazards = tt

abbrev encounter : ForwardHazard engine
encounter = record {
  id = "truck:DUMPER_02";
  kind = truck;
  distance_m = plus 2800;
  title = "Truck encounter";
  detail = "Truck nearby. Keep clear.";
  last_seen_ms = plus 9000000;
}

-- 8 s later it is not.
ended_encounter :
    forward engine (frame_at 17000000 90000) (watch engine (frame_at 9000000 6000 ∷ []) none) ≡ none
unfolding hazards
ended_encounter = refl

engine-LeIsTransitive : LeIsTransitive engine
engine-LeIsTransitive (plus a) (plus b) (plus c) h k = ground arith
engine-LeIsTransitive (plus a) (plus b) (minus c) h k = ground arith
engine-LeIsTransitive (plus a) (minus b) (plus c) h k = ground arith
engine-LeIsTransitive (plus a) (minus b) (minus c) h k = ground arith
engine-LeIsTransitive (minus a) (plus b) (plus c) h k = ground arith
engine-LeIsTransitive (minus a) (plus b) (minus c) h k = ground arith
engine-LeIsTransitive (minus a) (minus b) (plus c) h k = ground arith
engine-LeIsTransitive (minus a) (minus b) (minus c) h k = ground arith
engine-LeIsTransitive nan b c h k = absurd (cc)
engine-LeIsTransitive (plus a) nan c h k = absurd (cc)
engine-LeIsTransitive (minus a) nan c h k = absurd (cc)
engine-LeIsTransitive (plus a) (plus b) nan h k = absurd (cc)
engine-LeIsTransitive (plus a) (minus b) nan h k = absurd (cc)
engine-LeIsTransitive (minus a) (plus b) nan h k = absurd (cc)
engine-LeIsTransitive (minus a) (minus b) nan h k = absurd (cc)

abbrev front : SensorDisplaySetting engine
front = record {
  sensor_id = "front_fixed";
  label = "Front fixed";
  scanner = false;
  display_pose = record {
    x_m = plus 0;
    y_m = plus 550;
    z_m = plus 320;
    yaw_deg = plus 0;
    pitch_deg = plus 0;
  };
  alert_distance_m = plus 700;
  visual_range_m = plus 2000;
}

front_far : get_sensor_threat_level engine (some reading) front ≡ clear
unfolding get_sensor_threat_level finite_number
front_far = refl

front_near :
    get_sensor_threat_level engine (some (record reading { range_m = plus 900 })) front ≡ caution
unfolding get_sensor_threat_level finite_number
front_near = refl

threat_level_monotone_example :
    danger (get_sensor_threat_level engine (some reading) front)
    ≤ danger (get_sensor_threat_level engine (some (record reading { range_m = plus 900 })) front)
threat_level_monotone_example =
    threat_level_monotone engine engine-LeIsTransitive front (record reading { range_m = plus 900 })
      reading refl refl refl
