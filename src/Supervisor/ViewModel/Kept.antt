-- ===== src/Supervisor/ViewModel/Kept.antt =====
-- supervisorViewModel.ts: no vehicle that the world names is left out of the view.
use sih.Prelude.{
  ◌≡◌, refl, sym, ◌∙◌, Bool, true, false, not, ◌||◌, List, [], ◌∷◌, ◌++◌, map, All, All-imp, subst,
  filter, any, ◌===◌, arith, Bool-cases, inl, inr, String, eq_refl,
}
use sih.Prelude.Runtime.{Runtime}
use sih.Prelude.Sort.{any-sort}
use sih.State.World.{WorldState, V2xPeerNode, TelemetrySample}
use sih.Supervisor.ViewModel.{SupervisorVehicle}
use sih.Supervisor.ViewModel.Vehicles.{
  has_id, list_or, peers, peer_vehicle, pose_vehicles, pose_vehicle, peer_of, with_peers,
  with_samples, sample_vehicle, gathered_vehicles, supervisor_vehicles, vehicle_after,
}
use sih.Supervisor.ViewModel.View.{create_supervisor_view_model}

module _ (js : Runtime) where
  has_id-append :
      (id : String) (vs ws : List (SupervisorVehicle js))
      → has_id js id (vs ++ ws) ≡ (has_id js id vs || has_id js id ws)
  unfolding any
  has_id-append id [] ws = refl
  has_id-append id (v ∷ vs) ws = ground (arith, has_id-append id vs ws)

  -- Adding samples loses no vehicle.
  with_samples_keeps :
      (world : WorldState js) (id : String) (samples : List (TelemetrySample js))
      (vs : List (SupervisorVehicle js))
      → has_id js id vs ≡ true
      → has_id js id (with_samples js world samples vs) ≡ true
  unfolding with_samples
  with_samples_keeps world id [] vs h = h
  with_samples_keeps world id (s ∷ ss) vs h = elim (Bool-cases (has_id js s.vehicle_id vs)) [
    | inl e ↦ rw e (with_samples_keeps world id ss vs h)
    | inr e ↦ rw e (
        with_samples_keeps world id ss (vs ++ (sample_vehicle js world s ∷ []))
          (has_id-append id vs (sample_vehicle js world s ∷ []) ∙ ground (arith, h)))
  ]

  own_id :
      (world : WorldState js) (s : TelemetrySample js)
      → has_id js s.vehicle_id (sample_vehicle js world s ∷ []) ≡ true
  unfolding any sample_vehicle
  own_id world s = rw (eq_refl s.vehicle_id) refl

  samples_known :
      (world : WorldState js) (s : TelemetrySample js) (ss : List (TelemetrySample js))
      (vs : List (SupervisorVehicle js))
      → has_id js s.vehicle_id vs ≡ true
      → with_samples js world (s ∷ ss) vs ≡ with_samples js world ss vs
  unfolding with_samples
  samples_known world s ss vs e = rw e refl

  samples_new :
      (world : WorldState js) (s : TelemetrySample js) (ss : List (TelemetrySample js))
      (vs : List (SupervisorVehicle js))
      → has_id js s.vehicle_id vs ≡ false
      → with_samples js world (s ∷ ss) vs
        ≡ with_samples js world ss (vs ++ (sample_vehicle js world s ∷ []))
  unfolding with_samples
  samples_new world s ss vs e = rw e refl

  -- Every sample's vehicle is there once the samples are added.
  with_samples_adds :
      (world : WorldState js) (samples : List (TelemetrySample js))
      (vs : List (SupervisorVehicle js))
      → All (λ s. has_id js s.vehicle_id (with_samples js world samples vs) ≡ true) samples
  unfolding with_samples
  with_samples_adds world [] vs = tt
  with_samples_adds world (s ∷ ss) vs = elim (Bool-cases (has_id js s.vehicle_id vs)) [
    | inl e ↦
        subst shows (sym (samples_known world s ss vs e))
          (with_samples_keeps world s.vehicle_id ss vs e, with_samples_adds world ss vs)
    | inr e ↦
        let added = vs ++ (sample_vehicle js world s ∷ []) in
        let own : has_id js s.vehicle_id added ≡ true =
          has_id-append s.vehicle_id vs (sample_vehicle js world s ∷ [])
          ∙ ground (arith, own_id world s) in
        subst shows (sym (samples_new world s ss vs e))
          (with_samples_keeps world s.vehicle_id ss added own, with_samples_adds world ss added)
  ]
    where
      shows : List (SupervisorVehicle js) → Type 0
      shows ws = (has_id js s.vehicle_id ws ≡ true) × All (λ u. has_id js u.vehicle_id ws ≡ true) ss

  has_id-more :
      (id : String) (vs : List (SupervisorVehicle js)) (w : SupervisorVehicle js)
      (ws : List (SupervisorVehicle js))
      → has_id js id (vs ++ ws) ≡ true
      → has_id js id (vs ++ (w ∷ ws)) ≡ true
  unfolding any
  has_id-more id vs w ws h =
      has_id-append id vs (w ∷ ws) ∙ ground (arith, h, has_id-append id vs ws)

  map_shows {ℓ} :
      {A : Type ℓ} (f : A → SupervisorVehicle js) (id : A → String)
      → ((a : A) → (f a).vehicle_id ≡ id a)
      → (xs : List A) → All (λ a. has_id js (id a) (map f xs) ≡ true) xs
  unfolding any
  map_shows f id own [] = tt
  map_shows f id own (x ∷ xs) = (
    rw (own x, eq_refl (id x)) refl,
    All-imp _ xs (λ a h. has_id-more (id a) [] (f x) (map f xs) h) (map_shows f id own xs),
  )

  module _ (world : WorldState js) (canonical : List (SupervisorVehicle js)) where
    abbrev is_new : V2xPeerNode js → Bool
    is_new p = not (has_id js p.vehicle_id canonical)

    abbrev joined : List (V2xPeerNode js) → List (SupervisorVehicle js)
    joined ps = canonical ++ map (peer_vehicle js world) (filter is_new ps)

    joined_known :
        (p : V2xPeerNode js) (ps : List (V2xPeerNode js))
        → has_id js p.vehicle_id canonical ≡ true
        → joined (p ∷ ps) ≡ joined ps
    unfolding filter
    joined_known p ps e = rw e refl

    joined_new :
        (p : V2xPeerNode js) (ps : List (V2xPeerNode js))
        → has_id js p.vehicle_id canonical ≡ false
        → joined (p ∷ ps)
          ≡ canonical ++ (peer_vehicle js world p ∷ map (peer_vehicle js world) (filter is_new ps))
    unfolding filter
    joined_new p ps e = rw e refl

    own_peer :
        (p : V2xPeerNode js) (ws : List (SupervisorVehicle js))
        → has_id js p.vehicle_id (peer_vehicle js world p ∷ ws) ≡ true
    unfolding any peer_vehicle
    own_peer p ws = rw (eq_refl p.vehicle_id) refl

    joined_shows :
        (ps : List (V2xPeerNode js)) → All (λ p. has_id js p.vehicle_id (joined ps) ≡ true) ps
    joined_shows [] = tt
    joined_shows (p ∷ ps) = elim (Bool-cases (has_id js p.vehicle_id canonical)) [
      | inl e ↦
          let rest = map (peer_vehicle js world) (filter is_new ps) in
          subst shows (sym (joined_known p ps e))
            (has_id-append p.vehicle_id canonical rest ∙ ground (arith, e), joined_shows ps)
      | inr e ↦
          let rest = map (peer_vehicle js world) (filter is_new ps) in
          let w = peer_vehicle js world p in
          subst shows (sym (joined_new p ps e)) (
            has_id-append p.vehicle_id canonical (w ∷ rest) ∙ ground (arith, own_peer p rest),
            All-imp _ ps (λ q h. has_id-more q.vehicle_id canonical w rest h) (joined_shows ps),
          )
    ]
      where
        shows : List (SupervisorVehicle js) → Type 0
        shows ws =
            (has_id js p.vehicle_id ws ≡ true) × All (λ q. has_id js q.vehicle_id ws ≡ true) ps

  -- What is gathered before the samples are added is in the view.
  shown_from_start :
      (world : WorldState js) (id : String)
      → has_id js id (with_peers js world (pose_vehicles js world)) ≡ true
      → has_id js id (supervisor_vehicles js world) ≡ true
  unfolding supervisor_vehicles gathered_vehicles
  shown_from_start world id h =
      any-sort (vehicle_after js) (λ v. v.vehicle_id === id) (gathered_vehicles js world)
      ∙ with_samples_keeps world id (list_or world.vehicle_telemetry)
          (with_peers js world (pose_vehicles js world)) h

  -- Every vehicle that a pose, a radio peer or a telemetry sample of the world names is in the
  -- supervisor's view.
  pub every_vehicle_shown :
      (world : WorldState js)
      → let shown = (create_supervisor_view_model js world).vehicles in
        All (λ v. has_id js v.vehicle_id shown ≡ true) world.vehicles
        × All (λ p. has_id js p.vehicle_id shown ≡ true) (peers js world)
        × All (λ s. has_id js s.vehicle_id shown ≡ true) (list_or world.vehicle_telemetry)
  unfolding create_supervisor_view_model
  every_vehicle_shown world =
      let poses = pose_vehicles js world in
      (
        All-imp _ world.vehicles
            (λ v h.
              shown_from_start world v.vehicle_id
                (unfold with_peers in has_id-append v.vehicle_id poses _ ∙ ground (arith, h)))
            (unfold pose_vehicles in
              map_shows (λ v. pose_vehicle js world (peer_of js world v.vehicle_id) v)
                (λ v. v.vehicle_id) (λ v. unfold pose_vehicle in refl) world.vehicles),
        All-imp _ (peers js world)
            (λ p h. shown_from_start world p.vehicle_id (unfold with_peers in h))
            (joined_shows world poses (peers js world)),
        All-imp _ (list_or world.vehicle_telemetry)
            (λ s h.
              unfold supervisor_vehicles gathered_vehicles in
              any-sort (vehicle_after js) (λ v. v.vehicle_id === s.vehicle_id)
                (gathered_vehicles js world)
              ∙ h)
            (with_samples_adds world (list_or world.vehicle_telemetry) (with_peers js world poses)),
      )
