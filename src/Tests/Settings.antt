-- ===== src/Tests/Settings.antt =====
-- Sensor settings that are edited and saved (frontend/src/settings).
use sih.Prelude.{◌≡◌, ◌⊎◌, refl, true, false, List, [], ◌∷◌, none, some, find, ◌===◌, is_some}
use sih.Tests.Engine.{plus, engine}
use sih.Tests.Fleet.{reading}
use sih.State.World.{RangeReading}
use sih.Settings.Sensors.{SensorDisplaySetting, default_sensor_settings, setting_for_reading}
use sih.Settings.Hook.{
  Event, rejected, read_json, failure_detail, loaded, save_sensor, zero_imu_now, update_sensor,
  put_setting, first_render, with_sensor, load_settles, start_save, save_settles, start_zero,
  zero_settles, step, run, loading, local_only, saved,
}
use sih.Settings.Hook.Laws.{saving, saving_shows, run_demo_silent}

abbrev front : SensorDisplaySetting engine
front = record {
  sensor_id = "front_fixed";
  label = "Front fixed";
  scanner = false;
  display_pose = record {
    x_m = plus 0;
    y_m = plus 550;
    z_m = plus 320;
    yaw_deg = plus 0;
    pitch_deg = plus 0;
  };
  alert_distance_m = plus 900;
  visual_range_m = plus 2000;
}

settings_run : Unit {0}
unfolding first_render with_sensor load_settles start_save save_settles start_zero zero_settles step
    run find default_sensor_settings setting_for_reading failure_detail read_json
settings_run = tt

abbrev demo_events : List (Event engine)
demo_events =
    loaded (rejected none)
    ∷ update_sensor "front_fixed" front
    ∷ save_sensor "front_fixed"
    ∷ zero_imu_now
    ∷ []

demo_connection : (run engine true demo_events (first_render engine)).0.connection ≡ local_only
unfolding settings_run
demo_connection = refl

missing_response :
    read_json engine
      (λ value. value)
      (record { is_ok = false; status = plus 404; json = none; syntax_error = "" })
    ≡ rejected (some "Request failed with status 000000404")
unfolding settings_run
missing_response = refl

run_demo_silent_example :
    let o = run engine true demo_events (first_render engine) in
    (o.1 ≡ []) × ((o.0.connection ≡ loading) ⊎ (o.0.connection ≡ local_only))
run_demo_silent_example = run_demo_silent engine demo_events

first_render_idle : (first_render engine).waiting ≡ []
unfolding settings_run
first_render_idle = refl

front_held :
    is_some (setting_for_reading engine (first_render engine).settings.sensors reading) ≡ true
unfolding settings_run
front_held = refl

saving_shows_example :
    let o = run engine false (saving engine "front_fixed" front front) (first_render engine) in
    (o.1 ≡ put_setting front ∷ [])
    × (setting_for_reading engine o.0.settings.sensors reading ≡ some front)
    × (o.0.connection ≡ saved)
    × ((other : RangeReading engine)
        → ("front_fixed" === other.sensor_id) ≡ false
        → setting_for_reading engine o.0.settings.sensors other
          ≡ setting_for_reading engine (first_render engine).settings.sensors other)
saving_shows_example =
    saving_shows engine (first_render engine) front front reading first_render_idle front_held refl
      refl
