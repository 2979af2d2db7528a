-- ===== src/Settings/Hook.antt =====
-- frontend/src/settings/useSensorSettings.ts, and the requests of sensorSettingsApi.ts.
-- The hook's state and the requests that are not answered are one record; each call of the page and
-- each answer is a step, in any order, and a step returns the requests that it made.
pub mod Laws
use sih.Prelude.{
  ℕ, String, Bool, true, false, not, List, [], ◌∷◌, ◌++◌, map, Option, none, some, if◌then◌else◌,
  find, get_elem?, ◌===◌, ◌⊕◌, get_or,
}
use sih.Prelude.Runtime.{Runtime}
use sih.Prelude.Value.{Value, prop}
use sih.Simulation.Manifest.{is_truthy}
use sih.Simulation.Playback.{remove_at}
use sih.Settings.Sensors.{
  SensorSettingsState, SensorDisplaySetting, ImuZeroState, zeroing, error, default_sensor_settings,
}

pub data SettingsConnection : Type 0 where
  loading saved local_only failed : SettingsConnection

-- A settled promise. A reason that is no `Error` has no message.
pub data Reply {ℓ} (A : Type ℓ) : Type ℓ where
  fulfilled : A → Reply A
  rejected : Option String → Reply A

-- A call of the API that waits: a save of the sensor with this id, or a zeroing.
pub data Waiting : Type 0 where
  save_waits : String → Waiting
  zero_waits : Waiting

module _ (js : Runtime) where
  open js use {Num, show, text_of}

  -- What `fetch` gives; `json` is `none` where the text does not parse, with `syntax_error`.
  pub record Response : Type 0 where
    pub is_ok : Bool
    pub status : Num
    pub json : Option (Value Num)
    pub syntax_error : String

  -- The message of a response that is not `ok`. A value that has no `detail` keeps the status.
  unfoldable pub failure_detail : Response → String
  unfolding is_truthy prop
  failure_detail response =
      let detail = "Request failed with status " ⊕ show response.status in
      elim response.json [
        | none ↦ detail
        | some body ↦
            if is_truthy js (prop body "detail") then text_of (prop body "detail") else detail
      ]

  -- `cast` is what the page takes a parsed value for: the source does not test it.
  unfoldable pub read_json {ℓ} : {A : Type ℓ} → (Value Num → A) → Response → Reply A
  unfolding failure_detail
  read_json cast response =
      if not response.is_ok then rejected (some (failure_detail response)) else elim response.json [
        | none ↦ rejected (some response.syntax_error)
        | some value ↦ fulfilled (cast value)
      ]

  pub data Request : Type 0 where
    get_settings : Request
    put_setting : SensorDisplaySetting js → Request
    post_zero : Request

  pub record Hook : Type 0 where
    pub settings : SensorSettingsState js
    pub connection : SettingsConnection
    pub message : Option String
    pub disposed : Bool
    pub waiting : List Waiting

  pub data Event : Type 0 where
    loaded : Reply (SensorSettingsState js) → Event
    update_sensor : String → SensorDisplaySetting js → Event
    save_sensor : String → Event
    zero_imu_now : Event
    -- the answer of the call at this index
    save_answered : ℕ → Reply (SensorDisplaySetting js) → Event
    zero_answered : ℕ → Reply (ImuZeroState js) → Event
    unmount : Event

  abbrev pub Outcome : Type 0
  Outcome = Hook × List Request

  unfoldable pub first_render : Hook
  unfolding default_sensor_settings
  first_render = record {
    settings = default_sensor_settings js;
    connection = loading;
    message = none;
    disposed = false;
    waiting = [];
  }

  -- `sensors.map((sensor) => sensor.sensor_id === id ? setting : sensor)`
  unfoldable pub with_sensor :
      String → SensorDisplaySetting js → SensorSettingsState js → SensorSettingsState js
  with_sensor id setting settings = record settings {
    sensors = map (λ s. if s.sensor_id === id then setting else s) settings.sensors;
  }

  module _ (static_demo : Bool) where
    unfoldable pub load_settles : Reply (SensorSettingsState js) → Hook → Hook
    load_settles reply h = if h.disposed then h else elim reply [
      | fulfilled settings ↦ record h {
        settings = settings;
        connection = if static_demo then local_only else saved;
        message =
            if static_demo
            then some
                "Demo display settings apply only to this tab. Hardware calibration is unavailable."
            else h.message;
      }
      | rejected reason ↦ record h {
        connection = local_only;
        message = some "Calibration unavailable. Display defaults are active.";
      }
    ]

    unfoldable pub start_save : String → Hook → Outcome
    unfolding find
    start_save id h = elim (find (λ s. s.sensor_id === id) h.settings.sensors) [
      | none ↦ (h, [])
      | some setting ↦
          if static_demo
          then (
            record h {
              connection = local_only;
              message =
                  some
                    (setting.label ⊕ " applied to this tab only. Recorded telemetry is unchanged.");
            },
            [],
          )
          else (
            record h {
              message = some "Saving display settings...";
              waiting = h.waiting ++ (save_waits id ∷ []);
            },
            put_setting setting ∷ [],
          )
    ]

    unfoldable pub save_settles : String → Reply (SensorDisplaySetting js) → Hook → Hook
    unfolding with_sensor
    save_settles id (fulfilled setting) h = record h {
      settings = with_sensor id setting h.settings;
      connection = saved;
      message = some (setting.label ⊕ " saved.");
    }
    save_settles id (rejected reason) h = record h {
      connection = failed;
      message = some (get_or reason "Settings could not be saved.");
    }

    unfoldable pub start_zero : Hook → Outcome
    start_zero h =
        if static_demo
        then (
          record h { message = some "IMU zeroing requires connected hardware in the local app." },
          [],
        )
        else let imu = record h.settings.imu_zero {
          status = zeroing;
          detail = some "Keep the vehicle still.";
        } in
          (
            record h {
              settings = record h.settings { imu_zero = imu };
              waiting = h.waiting ++ (zero_waits ∷ []);
            },
            post_zero ∷ [],
          )

    unfoldable pub zero_settles : Reply (ImuZeroState js) → Hook → Hook
    zero_settles (fulfilled imu) h = record h {
      settings = record h.settings { imu_zero = imu };
      connection = saved;
      message = some (get_or imu.detail "IMU zero stored.");
    }
    zero_settles (rejected reason) h =
        let detail = get_or reason "IMU zero failed." in
        let imu = record h.settings.imu_zero { status = error; detail = some detail } in
        record h {
          settings = record h.settings { imu_zero = imu };
          connection = failed;
          message = some detail;
        }

    abbrev answered : ℕ → Hook → Hook
    answered i h = record h { waiting = remove_at i h.waiting }

    -- An answer to a call of the other kind, or to none, does not occur and changes nothing.
    unfoldable pub step : Event → Hook → Outcome
    unfolding load_settles start_save save_settles start_zero zero_settles with_sensor
    step (loaded reply) h = (load_settles reply h, [])
    step (update_sensor id setting) h =
        (record h { settings = with_sensor id setting h.settings }, [])
    step (save_sensor id) h = start_save id h
    step zero_imu_now h = start_zero h
    step (save_answered i reply) h = elim (get_elem? h.waiting i) [
      | none ↦ (h, [])
      | some zero_waits ↦ (h, [])
      | some (save_waits id) ↦ (save_settles id reply (answered i h), [])
    ]
    step (zero_answered i reply) h = elim (get_elem? h.waiting i) [
      | none ↦ (h, [])
      | some (save_waits id) ↦ (h, [])
      | some zero_waits ↦ (zero_settles reply (answered i h), [])
    ]
    step unmount h = (record h { disposed = true }, [])

    unfoldable pub run : List Event → Hook → Outcome
    run [] h = (h, [])
    run (e ∷ es) h =
        let (after, requests) = step e h in
        let (last, later) = run es after in (last, requests ++ later)

    -- The first render and its effect.
    unfoldable pub mounted : Outcome
    unfolding first_render
    mounted = (first_render, get_settings ∷ [])
