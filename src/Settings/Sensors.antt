-- ===== src/Settings/Sensors.antt =====
-- frontend/src/settings/sensorSettingsApi.ts: the settings of the five range sensors, their defaults,
-- and the requests. `fetch` is the environment's: a request is data, and its answer an argument.
use sih.Prelude.{ℕ, String, Bool, true, false, List, [], ◌∷◌, Option, none, some, find, ◌===◌}
use sih.Prelude.Runtime.{Runtime}
use sih.State.World.{RangeReading}

abbrev pub sensor_ids : List String
sensor_ids = "front_scanner" ∷ "front_fixed" ∷ "rear_scanner" ∷ "left_side" ∷ "right_side" ∷ []

pub data ImuZeroStatus : Type 0 where
  ready zeroing zeroed error : ImuZeroStatus

module _ (js : Runtime) where
  open js use {Num, decimal, neg, text_of}

  pub record SensorDisplayPose : Type 0 where
    pub x_m : Num
    pub y_m : Num
    pub z_m : Num
    pub yaw_deg : Num
    pub pitch_deg : Num

  -- A settings file is not tested when it is read, so an id is any text.
  pub record SensorDisplaySetting : Type 0 where
    pub sensor_id : String
    pub label : String
    pub scanner : Bool
    pub display_pose : SensorDisplayPose
    pub alert_distance_m : Num
    pub visual_range_m : Num

  pub record ImuZeroState : Type 0 where
    pub available : Bool
    pub status : ImuZeroStatus
    pub zeroed_at_ms : Option Num
    pub detail : Option String

  pub record SensorSettingsState : Type 0 where
    pub revision : ℕ
    pub imu_zero : ImuZeroState
    pub sensors : List SensorDisplaySetting

  abbrev pub pose : Num → Num → Num → Num → SensorDisplayPose
  pose x y yaw pitch = record {
    x_m = x;
    y_m = y;
    z_m = decimal 32 2;
    yaw_deg = yaw;
    pitch_deg = pitch;
  }

  -- `DEFAULT_SENSORS`
  abbrev pub default_sensors : List SensorDisplaySetting
  default_sensors =
      record {
        sensor_id = "front_scanner";
        label = "Front scanner";
        scanner = true;
        display_pose = pose (decimal 0 0) (decimal 32 2) (decimal 0 0) (decimal 0 0);
        alert_distance_m = decimal 8 1;
        visual_range_m = decimal 4 0;
      }
      ∷ record {
        sensor_id = "front_fixed";
        label = "Front fixed";
        scanner = false;
        display_pose = pose (decimal 0 0) (decimal 55 2) (decimal 0 0) (neg (decimal 50 0));
        alert_distance_m = decimal 7 1;
        visual_range_m = decimal 2 0;
      }
      ∷ record {
        sensor_id = "rear_scanner";
        label = "Rear scanner";
        scanner = true;
        display_pose = pose (decimal 0 0) (neg (decimal 55 2)) (decimal 180 0) (decimal 0 0);
        alert_distance_m = decimal 7 1;
        visual_range_m = decimal 4 0;
      }
      ∷ record {
        sensor_id = "left_side";
        label = "Left fixed";
        scanner = false;
        display_pose =
            pose (neg (decimal 36 2)) (decimal 0 0) (neg (decimal 90 0)) (neg (decimal 50 0));
        alert_distance_m = decimal 55 2;
        visual_range_m = decimal 2 0;
      }
      ∷ record {
        sensor_id = "right_side";
        label = "Right fixed";
        scanner = false;
        display_pose = pose (decimal 36 2) (decimal 0 0) (decimal 90 0) (neg (decimal 50 0));
        alert_distance_m = decimal 55 2;
        visual_range_m = decimal 2 0;
      }
      ∷ []

  unfoldable pub default_sensor_settings : SensorSettingsState
  default_sensor_settings = record {
    revision = 0;
    imu_zero = record {
      available = false;
      status = ready;
      zeroed_at_ms = none;
      detail = some "Connect MAIN to zero the IMU.";
    };
    sensors = default_sensors;
  }

  -- The first setting of the reading's sensor.
  unfoldable pub setting_for_reading :
      List SensorDisplaySetting → RangeReading js → Option SensorDisplaySetting
  unfolding find
  setting_for_reading settings reading = find (λ s. s.sensor_id === reading.sensor_id) settings
