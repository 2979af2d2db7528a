-- ===== src/Supervisor/ViewModel/Raised.antt =====
-- supervisorViewModel.ts: no vehicle that needs the supervisor goes without an issue.
use sih.Prelude.{
  ◌≡◌, ◌⊎◌, inl, inr, refl, sym, ap, ◌∙◌, subst, Bool, true, false, not, ◌||◌, String, List, [],
  ◌∷◌, ◌++◌, map, Memᴰ, All, All-mem, All-append, All-map, All-tabulate, Option, none, some, any,
  arith, leb, ◌===◌, eq_refl, eq_iff, Bool-cases, Option-cases, if◌then◌else◌, filter,
}
use sih.Prelude.Runtime.{Runtime}
use sih.Prelude.Sort.{any-sort, All-sort}
use sih.State.World.{WorldState, LinkStatus, VehiclePose, V2xPeerNode, TelemetrySample}
use sih.Supervisor.ViewModel.{
  SupervisorVehicle, SupervisorIssue, critical, vehicle_tone, emergency_rank, is_set_text,
  normalized_emergency_state, unsafe_state, issue_for_vehicle, safety_issue, link_issue, is_lost,
  is_degraded,
}
use sih.Supervisor.ViewModel.Vehicles.{
  pose_vehicle, peer_vehicle, sample_vehicle, pose_vehicles, with_peers, with_samples,
  gathered_vehicles, supervisor_vehicles, vehicle_after, peer_of, peers, list_or, has_id,
  sensors_degraded, is_poor,
}
use sih.Supervisor.ViewModel.Issues.{
  to_list, vehicle_issues, raised_issues, supervisor_issues, issue_after, sensor_issues,
  visibility_issues, haul_issues,
}
use sih.State.Selectors.{tof_sensor_health_summary}
use mathlib.Core.Option
use sih.Supervisor.ViewModel.View.{create_supervisor_view_model}

-- The documented behaviour of `toUpperCase`: a text in upper case stays as it is.
abbrev pub KeepsUpperCase : Runtime → Type 0
KeepsUpperCase js = (s : String) → js.to_upper_case (js.to_upper_case s) ≡ js.to_upper_case s

critical_rank :
    (emergency : Option String) (link : Option LinkStatus) (primary sensors visibility : Bool)
    → vehicle_tone emergency link primary sensors visibility ≡ critical
    → leb 3 (emergency_rank emergency) ≡ true
unfolding vehicle_tone
critical_rank emergency link primary sensors visibility h = ground arith

module _ (js : Runtime) (upper : KeepsUpperCase js) where
  open js use {to_upper_case}

  set_rank : (s : String) → leb 3 (emergency_rank (some s)) ≡ true → is_set_text s ≡ true
  set_rank s h = ground arith

  normalized_set :
      (s : String)
      → is_set_text s ≡ true
      → normalized_emergency_state js (some s) ≡ some (to_upper_case s)
  unfolding normalized_emergency_state
  normalized_set s e = rw e refl

  normalized_twice :
      (e : Option String)
      → let state = normalized_emergency_state js e in
        leb 3 (emergency_rank state) ≡ true → normalized_emergency_state js state ≡ state
  normalized_twice none h = unfold normalized_emergency_state in refl
  normalized_twice (some s) h = elim (Bool-cases (is_set_text s)) [
    | inl e ↦
        let same = normalized_set s e in
        let again : is_set_text (to_upper_case s) ≡ true =
          set_rank (to_upper_case s) (subst (λ o. leb 3 (emergency_rank o) ≡ true) same h) in
        ap (normalized_emergency_state js) same
        ∙ normalized_set (to_upper_case s) again
        ∙ ap some (upper s)
        ∙ sym same
    | inr e ↦ unfold normalized_emergency_state in rw e refl
  ]

  unsafe_some :
      (state : Option String)
      → leb 3 (emergency_rank state) ≡ true
      → (s : String) × (unsafe_state js state ≡ some s)
  unsafe_some none h = absurd (ground arith)
  unsafe_some (some s) h = elim (Bool-cases (s === "SAFE")) [
    | inl e ↦
        let safe = subst (λ t. leb 3 (emergency_rank (some t)) ≡ true) ((eq_iff s "SAFE").0 e) h in
        absurd (ground arith)
    | inr e ↦ (s, ground arith)
  ]

  -- A vehicle whose tone is critical has an emergency of that rank, written as the view writes it.
  abbrev IsStated : SupervisorVehicle js → Type 0
  IsStated v =
      v.tone ≡ critical
      → (leb 3 (emergency_rank v.emergency_state) ≡ true)
        × (normalized_emergency_state js v.emergency_state ≡ v.emergency_state)

  normalized_critical :
      (state : Option String) (link : Option LinkStatus) (primary sensors visibility : Bool)
      → let normal = normalized_emergency_state js state in
        vehicle_tone normal link primary sensors visibility ≡ critical
        → (leb 3 (emergency_rank normal) ≡ true) × (normalized_emergency_state js normal ≡ normal)
  normalized_critical state link primary sensors visibility h =
      let rank =
        critical_rank (normalized_emergency_state js state) link primary sensors visibility h in
      (rank, normalized_twice state rank)

  pose-IsStated :
      (world : WorldState js) (peer : Option (V2xPeerNode js)) (v : VehiclePose js)
      → IsStated (pose_vehicle js world peer v)
  unfolding pose_vehicle
  pose-IsStated world peer v h =
      let primary = v.vehicle_id === world.primary_vehicle_id in
      normalized_critical
        (if primary then some world.emergency.state else Option.map (λ p. p.emergency_state) peer)
        (Option.map (λ p. p.link_status) peer) primary
        (sensors_degraded js (tof_sensor_health_summary js world.sensor_health))
        (is_poor world.environment.visibility_state) h

  peer-IsStated :
      (world : WorldState js) (peer : V2xPeerNode js) → IsStated (peer_vehicle js world peer)
  unfolding peer_vehicle
  peer-IsStated world peer h =
      normalized_critical (some peer.emergency_state) (some peer.link_status) false false false h

  sample-IsStated :
      (world : WorldState js) (sample : TelemetrySample js)
      → IsStated (sample_vehicle js world sample)
  unfolding sample_vehicle
  sample-IsStated world sample h = absurd (ground arith)

  samples-IsStated :
      (world : WorldState js) (samples : List (TelemetrySample js))
      (vs : List (SupervisorVehicle js))
      → All IsStated vs
      → All IsStated (with_samples js world samples vs)
  unfolding with_samples
  samples-IsStated world [] vs h = h
  samples-IsStated world (s ∷ ss) vs h = elim (Bool-cases (has_id js s.vehicle_id vs)) [
    | inl e ↦ rw e (samples-IsStated world ss vs h)
    | inr e ↦ rw e (
        samples-IsStated world ss (vs ++ (sample_vehicle js world s ∷ []))
          (All-append IsStated vs (sample_vehicle js world s ∷ []) h (sample-IsStated world s, tt)))
  ]

  shown-IsStated : (world : WorldState js) → All IsStated (supervisor_vehicles js world)
  unfolding supervisor_vehicles gathered_vehicles with_peers pose_vehicles
  shown-IsStated world =
      let poses = pose_vehicles js world in
      let others = filter (λ p. not (has_id js p.vehicle_id poses)) (peers js world) in
      let of_poses : All IsStated poses =
        All-map IsStated (λ v. pose_vehicle js world (peer_of js world v.vehicle_id) v)
          world.vehicles
          (All-tabulate (λ v. IsStated (pose_vehicle js world (peer_of js world v.vehicle_id) v))
            world.vehicles (λ v. pose-IsStated world (peer_of js world v.vehicle_id) v)) in
      let of_peers =
        All-map IsStated (peer_vehicle js world) others
          (All-tabulate (λ p. IsStated (peer_vehicle js world p)) others (peer-IsStated world)) in
      All-sort (vehicle_after js) IsStated (gathered_vehicles js world) (
        samples-IsStated world (list_or world.vehicle_telemetry) (with_peers js world poses)
          (All-append IsStated poses (map (peer_vehicle js world) others) of_poses of_peers))

  -- What calls for the supervisor's attention.
  abbrev pub NeedsIssue : SupervisorVehicle js → Type 0
  NeedsIssue v =
      (v.tone ≡ critical) ⊎ (is_lost v.link_status ≡ true) ⊎ (is_degraded v.link_status ≡ true)

  abbrev names_vehicle : SupervisorVehicle js → SupervisorIssue → Bool
  names_vehicle v issue = issue.vehicle_id === v.vehicle_id

  issue_of_safety :
      (v : SupervisorVehicle js) (s : String)
      → unsafe_state js (normalized_emergency_state js v.emergency_state) ≡ some s
      → issue_for_vehicle js v ≡ some (safety_issue js v.vehicle_id s)
  unfolding issue_for_vehicle
  issue_of_safety v s e = rw (e, issue_for_vehicle) refl

  issue_of_link :
      (v : SupervisorVehicle js)
      → unsafe_state js (normalized_emergency_state js v.emergency_state) ≡ none
      → issue_for_vehicle js v ≡ link_issue js v
  unfolding issue_for_vehicle
  issue_of_link v e = rw (e, issue_for_vehicle) refl

  safety-names :
      (v : SupervisorVehicle js) (s : String)
      → unsafe_state js (normalized_emergency_state js v.emergency_state) ≡ some s
      → any (names_vehicle v) (to_list (issue_for_vehicle js v)) ≡ true
  safety-names v s e =
      subst (λ o. any (names_vehicle v) (to_list o) ≡ true) (sym (issue_of_safety v s e))
        (unfold any safety_issue in rw (eq_refl v.vehicle_id) refl)

  link_issue-names :
      (v : SupervisorVehicle js)
      → (is_lost v.link_status || is_degraded v.link_status) ≡ true
      → any (names_vehicle v) (to_list (link_issue js v)) ≡ true
  unfolding any link_issue
  link_issue-names v h = elim (Bool-cases (is_lost v.link_status)) [
    | inl l ↦ rw (l, eq_refl v.vehicle_id) refl
    | inr l ↦
        let d : is_degraded v.link_status ≡ true = ground arith in
        rw (l, d, eq_refl v.vehicle_id) refl
  ]

  link-names :
      (v : SupervisorVehicle js)
      → (is_lost v.link_status || is_degraded v.link_status) ≡ true
      → unsafe_state js (normalized_emergency_state js v.emergency_state) ≡ none
      → any (names_vehicle v) (to_list (issue_for_vehicle js v)) ≡ true
  link-names v h e =
      subst (λ o. any (names_vehicle v) (to_list o) ≡ true) (sym (issue_of_link v e))
        (link_issue-names v h)

  own_issue :
      (v : SupervisorVehicle js)
      → IsStated v
      → NeedsIssue v
      → any (names_vehicle v) (to_list (issue_for_vehicle js v)) ≡ true
  own_issue v stated (inl e) =
      let (rank, same) = stated e in
      let (s, found) =
        unsafe_some (normalized_emergency_state js v.emergency_state)
          (subst (λ o. leb 3 (emergency_rank o) ≡ true) (sym same) rank) in
      safety-names v s found
  own_issue v stated (inr bad) =
      elim (Option-cases (unsafe_state js (normalized_emergency_state js v.emergency_state))) [
        | inl e ↦ link-names v (elim bad [ inl l ↦ ground arith | inr d ↦ ground arith ]) e
        | inr (s, e) ↦ safety-names v s e
      ]

  any-append :
      (p : SupervisorIssue → Bool) (xs ys : List SupervisorIssue)
      → any p (xs ++ ys) ≡ (any p xs || any p ys)
  unfolding any
  any-append p [] ys = refl
  any-append p (x ∷ xs) ys = ground (arith, any-append p xs ys)

  issues-cons :
      (p : SupervisorIssue → Bool) (w : SupervisorVehicle js) (ws : List (SupervisorVehicle js))
      → any p (vehicle_issues js (w ∷ ws))
        ≡ (any p (to_list (issue_for_vehicle js w)) || any p (vehicle_issues js ws))
  unfolding vehicle_issues
  issues-cons p w ws = any-append p (to_list (issue_for_vehicle js w)) (vehicle_issues js ws)

  vehicle_issues-names :
      {v : SupervisorVehicle js} (vs : List (SupervisorVehicle js))
      → Memᴰ v vs
      → any (names_vehicle v) (to_list (issue_for_vehicle js v)) ≡ true
      → any (names_vehicle v) (vehicle_issues js vs) ≡ true
  vehicle_issues-names [] m h = elim m [ ]
  vehicle_issues-names {v} (w ∷ ws) (Memᴰ.head e) h =
      let here : any (names_vehicle v) (to_list (issue_for_vehicle js w)) ≡ true =
        subst (λ u. any (names_vehicle v) (to_list (issue_for_vehicle js u)) ≡ true) e h in
      issues-cons (names_vehicle v) w ws ∙ ground (arith, here)
  vehicle_issues-names {v} (w ∷ ws) (Memᴰ.tail m) h =
      issues-cons (names_vehicle v) w ws ∙ ground (arith, vehicle_issues-names ws m h)

  -- Where upper-casing twice is upper-casing once, every vehicle in the supervisor's view whose
  -- tone is critical, or whose link is lost or degraded, has an issue in the view that names it.
  pub issue-raised :
      (world : WorldState js) {v : SupervisorVehicle js}
      → let view = create_supervisor_view_model js world in
        Memᴰ v view.vehicles
        → NeedsIssue v
        → any (λ i. i.vehicle_id === v.vehicle_id) view.issues ≡ true
  unfolding create_supervisor_view_model supervisor_issues raised_issues
  issue-raised world {v} m needs =
      let shown = supervisor_vehicles js world in
      let own = own_issue v (All-mem IsStated shown (shown-IsStated world) m) needs in
      any-sort (issue_after js) (names_vehicle v) (raised_issues js world shown)
      ∙ any-append (names_vehicle v) (vehicle_issues js shown)
          (sensor_issues js world ++ (visibility_issues js world ++ haul_issues js world))
      ∙ ground (arith, vehicle_issues-names shown m own)
