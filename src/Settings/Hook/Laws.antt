-- ===== src/Settings/Hook/Laws.antt =====
-- useSensorSettings.ts: a static demo never reaches the hardware; what is edited is what is sent, and
-- what the backend answers is what is shown.
use sih.Prelude.{
  ◌≡◌, refl, sym, ap, ◌∙◌, ◌⊎◌, inl, inr, String, Bool, true, false, List, [], ◌∷◌, ◌++◌, map,
  Option, none, some, if◌then◌else◌, find, any, ◌===◌, eq_iff, eq_refl, arith, Bool-cases,
  Option-cases, is_some,
}
use sih.Prelude.Runtime.{Runtime}
use sih.State.World.{RangeReading}
use sih.Settings.Sensors.{SensorSettingsState, SensorDisplaySetting, setting_for_reading}
use sih.Settings.Hook.{
  loading, local_only, saved, Reply, fulfilled, rejected, save_waits, Request, put_setting, Hook,
  Event, Outcome, loaded, update_sensor, save_sensor, zero_imu_now, save_answered, zero_answered,
  unmount, first_render, with_sensor, load_settles, start_save, save_settles, start_zero, step, run,
}

module _ (js : Runtime) where
  -- A page that has asked for nothing and has not failed.
  record IsLocal (h : Hook js) : Type 0 where
    idle : h.waiting ≡ []
    state : (h.connection ≡ loading) ⊎ (h.connection ≡ local_only)

  record StaysLocal (o : Outcome js) : Type 0 where
    page : IsLocal o.0
    silent : o.1 ≡ []

  load-IsLocal :
      (reply : Reply (SensorSettingsState js)) (h : Hook js)
      → IsLocal h
      → IsLocal (load_settles js true reply h)
  unfolding load_settles
  load-IsLocal (fulfilled s) h l = elim (Bool-cases h.disposed) [
    | inl e ↦ rw (e, load_settles) record { idle = l.idle; state = l.state }
    | inr e ↦ rw (e, load_settles) record { idle = l.idle; state = inr refl }
  ]
  load-IsLocal (rejected reason) h l = elim (Bool-cases h.disposed) [
    | inl e ↦ rw (e, load_settles) record { idle = l.idle; state = l.state }
    | inr e ↦ rw (e, load_settles) record { idle = l.idle; state = inr refl }
  ]

  save-StaysLocal : (id : String) (h : Hook js) → IsLocal h → StaysLocal (start_save js true id h)
  unfolding start_save
  save-StaysLocal id h l = elim (Option-cases (find (λ s. s.sensor_id === id) h.settings.sensors)) [
    | inl e ↦ rw (e, start_save) record { page = l; silent = refl }
    | inr (s, e) ↦
        rw (e, start_save)
          record { page = record { idle = l.idle; state = inr refl }; silent = refl }
  ]

  step-StaysLocal : (e : Event js) (h : Hook js) → IsLocal h → StaysLocal (step js true e h)
  unfolding step
  step-StaysLocal (loaded reply) h l = record { page = load-IsLocal reply h l; silent = refl }
  step-StaysLocal (update_sensor id s) h l = record {
    page = record { idle = l.idle; state = l.state };
    silent = refl;
  }
  step-StaysLocal (save_sensor id) h l = save-StaysLocal id h l
  step-StaysLocal zero_imu_now h l =
      unfold start_zero in
      record { page = record { idle = l.idle; state = l.state }; silent = refl }
  step-StaysLocal (save_answered i reply) h l =
      rw (l.idle, step) record { page = record { idle = l.idle; state = l.state }; silent = refl }
  step-StaysLocal (zero_answered i reply) h l =
      rw (l.idle, step) record { page = record { idle = l.idle; state = l.state }; silent = refl }
  step-StaysLocal unmount h l = record {
    page = record { idle = l.idle; state = l.state };
    silent = refl;
  }

  run-StaysLocal : (es : List (Event js)) (h : Hook js) → IsLocal h → StaysLocal (run js true es h)
  unfolding run
  run-StaysLocal [] h l = record { page = l; silent = refl }
  run-StaysLocal (e ∷ es) h l =
      let one = step-StaysLocal e h l in
      let rest = run-StaysLocal es (step js true e h).0 one.page in
      record {
        page = rest.page;
        silent =
            ap (λ (q : List (Request js)). q ++ (run js true es (step js true e h).0).1) one.silent
            ∙ rest.silent;
      }

  -- On a static demo no sequence of calls and answers makes the settings page send a request after
  -- its first load, and it never says that settings are saved or failed.
  pub run_demo_silent :
      (es : List (Event js))
      → let o = run js true es (first_render js) in
        (o.1 ≡ []) × ((o.0.connection ≡ loading) ⊎ (o.0.connection ≡ local_only))
  unfolding first_render
  run_demo_silent es =
      let s = run-StaysLocal es (first_render js) (record { idle = refl; state = inl refl }) in
      (s.silent, s.page.state)

  abbrev is_of : String → SensorDisplaySetting js → Bool
  is_of id s = s.sensor_id === id

  abbrev found : String → SensorSettingsState js → Option (SensorDisplaySetting js)
  found id settings = find (is_of id) settings.sensors

  -- The setting that is put is found under its id, and the others as before.
  find-replaced :
      (k id : String) (s : SensorDisplaySetting js) (xs : List (SensorDisplaySetting js))
      → s.sensor_id ≡ id
      → find (is_of k) (map (λ x. if x.sensor_id === id then s else x) xs)
        ≡ (if id === k then (if any (is_of id) xs then some s else none) else find (is_of k) xs)
  unfolding find any
  find-replaced k id s [] own = ground arith
  find-replaced k id s (x ∷ xs) own =
      let later = find-replaced k id s xs own in
      let same : (s.sensor_id === k) ≡ (id === k) = ap (λ t. t === k) own in
      elim (Bool-cases (x.sensor_id === id)) [
        | inl e ↦
            let swap : (x.sensor_id === k) ≡ (id === k) =
              ap (λ t. t === k) ((eq_iff x.sensor_id id).0 e) in
            rw e (ground (arith, same, swap, later))
        | inr e ↦ elim (Bool-cases (id === k)) [
          | inl f ↦
              let swap : (x.sensor_id === k) ≡ (x.sensor_id === id) =
                ap (λ t. x.sensor_id === t) (sym ((eq_iff id k).0 f)) in
              rw e (ground (arith, swap, later))
          | inr f ↦ rw e (ground (arith, later))
        ]
      ]

  find-with_sensor_own :
      (id : String) (s : SensorDisplaySetting js) (settings : SensorSettingsState js)
      → s.sensor_id ≡ id
      → any (is_of id) settings.sensors ≡ true
      → found id (with_sensor js id s settings) ≡ some s
  unfolding with_sensor
  find-with_sensor_own id s settings own here =
      let self : (id === id) ≡ true = eq_refl id in
      find-replaced id id s settings.sensors own ∙ rw (self, here) refl

  find-with_sensor_other :
      (k id : String) (s : SensorDisplaySetting js) (settings : SensorSettingsState js)
      → s.sensor_id ≡ id
      → (id === k) ≡ false
      → found k (with_sensor js id s settings) ≡ found k settings
  unfolding with_sensor
  find-with_sensor_other k id s settings own other =
      find-replaced k id s settings.sensors own ∙ rw other refl

  any-find :
      (id : String) (xs : List (SensorDisplaySetting js)) {s : SensorDisplaySetting js}
      → find (is_of id) xs ≡ some s
      → any (is_of id) xs ≡ true
  unfolding find any
  any-find id [] e = absurd (cc)
  any-find id (x ∷ xs) e = elim (Bool-cases (is_of id x)) [
    | inl f ↦ rw f refl
    | inr f ↦ rw f (any-find id xs (rw f at e))
  ]

  any-is_some :
      (id : String) (xs : List (SensorDisplaySetting js))
      → is_some (find (is_of id) xs) ≡ true
      → any (is_of id) xs ≡ true
  any-is_some id xs h = elim (Option-cases (find (is_of id) xs)) [
    | inl e ↦ absurd (cc)
    | inr (s, e) ↦ any-find id xs e
  ]

  -- An edit of a sensor, its save, and the answer.
  abbrev pub saving : String → SensorDisplaySetting js → SensorDisplaySetting js → List (Event js)
  saving id edited answer =
      update_sensor id edited ∷ save_sensor id ∷ save_answered 0 (fulfilled answer) ∷ []

  start_save_lem :
      (id : String) (h : Hook js) {s : SensorDisplaySetting js}
      → found id h.settings ≡ some s
      → start_save js false id h ≡ (
        record h {
          message = some "Saving display settings...";
          waiting = h.waiting ++ (save_waits id ∷ []);
        },
        put_setting s ∷ [],
      )
  unfolding start_save
  start_save_lem id h e = rw (e, start_save) refl

  -- The hook after the three steps, and what it asked for.
  saving_lem :
      (h : Hook js) (id : String) (edited answer : SensorDisplaySetting js)
      → h.waiting ≡ []
      → found id (with_sensor js id edited h.settings) ≡ some edited
      → let o = run js false (saving id edited answer) h in
        (o.1 ≡ put_setting edited ∷ [])
        × (o.0.settings ≡ with_sensor js id answer (with_sensor js id edited h.settings))
        × (o.0.connection ≡ saved)
  unfolding run step save_settles
  saving_lem h id edited answer idle e =
      rw (start_save_lem id (record h { settings = with_sensor js id edited h.settings }) e, idle)
        (refl, refl, refl)

  -- Where nothing is asked for yet: after an edit of a known sensor, its save and the answer, the
  -- edited setting is the one that was sent, the answered one is found for the sensor's readings,
  -- the page says that it is saved, and other sensors' readings find the settings that they found
  -- before.
  pub saving_shows :
      (h : Hook js) (edited answer : SensorDisplaySetting js) (reading : RangeReading js)
      → h.waiting ≡ []
      → is_some (setting_for_reading js h.settings.sensors reading) ≡ true
      → edited.sensor_id ≡ reading.sensor_id
      → answer.sensor_id ≡ reading.sensor_id
      → let o = run js false (saving reading.sensor_id edited answer) h in
        (o.1 ≡ put_setting edited ∷ [])
        × (setting_for_reading js o.0.settings.sensors reading ≡ some answer)
        × (o.0.connection ≡ saved)
        × ((other : RangeReading js)
            → (reading.sensor_id === other.sensor_id) ≡ false
            → setting_for_reading js o.0.settings.sensors other
              ≡ setting_for_reading js h.settings.sensors other)
  unfolding setting_for_reading
  saving_shows h edited answer reading idle held own own' =
      let id = reading.sensor_id in
      let once = with_sensor js id edited h.settings in
      let here : any (is_of id) h.settings.sensors ≡ true =
        any-is_some id h.settings.sensors held in
      let e : found id once ≡ some edited = find-with_sensor_own id edited h.settings own here in
      let (asked, settings, state) = saving_lem h id edited answer idle e in
      (
        asked,
        ap (found id) settings
            ∙ find-with_sensor_own id answer once own' (any-find id once.sensors e),
        state,
        λ other apart.
            ap (found other.sensor_id) settings
            ∙ find-with_sensor_other other.sensor_id id answer once own' apart
            ∙ find-with_sensor_other other.sensor_id id edited h.settings own apart,
      )
