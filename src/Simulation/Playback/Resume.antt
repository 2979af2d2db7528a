-- ===== src/Simulation/Playback/Resume.antt =====
-- demoPlayback.ts: a call of `advance` that goes on after its `await` keeps the invariant.
use sih.Prelude.{
  ℕ, zero, suc, ◌+◌, ◌%◌, ◌<◌, ◌≡◌, ◌≢◌, refl, sym, Bool, true, false, List, [], ◌∷◌, Option, none,
  some, if◌then◌else◌, length, get_elem?, All, arith, Option-cases, inl, inr, subst, All-imp,
}
use mathlib.Core.Option.{some-injective}
use sih.Prelude.Counting.{count_if}
use sih.Prelude.Runtime.{Runtime}
use sih.Prelude.Value.{Value}
use sih.Simulation.Manifest.{Chunk, DemoManifest, read_demo_manifest}
use sih.Simulation.Manifest.Laws.{IsChunk, read_demo_manifest_sound}
use sih.Simulation.Frames.{decode_demo_frames, is_simulated_frame}
use sih.Simulation.Frames.Laws.{IsShowable, decode_demo_frames_sound}
use sih.Simulation.Playback.{
  Stage, manifest_stage, chunk_stage, Flight, Player, Outcome, finish, fail, show_frame, remove_at,
  manifest_arrives, chunk_arrives, resume, resume_with,
}
use sih.Simulation.Playback.Invariant.{
  IsFilled, IsPlayable, IsShown, is_current, IsAwaitable, IsIssued, HasManifest, IsFirst, IsEarly,
  IsDriven, GoesOn,
}
use sih.Simulation.Playback.Steps.{eq_self, fail-GoesOn, show_frame-GoesOn, fetch_or_show-GoesOn}
use native.Mathlib.Nat.{mod-lt}

All-remove_at {ℓ} :
    {A : Type ℓ} (P : A → Type 0) (i : ℕ) (xs : List A) → All P xs → All P (remove_at i xs)
All-remove_at P i [] h = tt
All-remove_at P zero (x ∷ xs) (p, h) = h
All-remove_at P (suc i) (x ∷ xs) (p, h) = (p, All-remove_at P i xs h)

count_if-remove_at {ℓ} :
    {A : Type ℓ} (p : A → Bool) (i : ℕ) (xs : List A) {x : A}
    → get_elem? xs i ≡ some x
    → count_if p xs ≡ (if p x then 1 else 0) + count_if p (remove_at i xs)
unfolding count_if
count_if-remove_at p i [] e = absurd (cc)
count_if-remove_at p zero (y ∷ xs) {x} e = let same : y ≡ x = some-injective _ _ e in rw same refl
count_if-remove_at p (suc i) (y ∷ xs) e = omega (arith, count_if-remove_at p i xs e)

pub count_if-mem {ℓ} :
    {A : Type ℓ} (p : A → Bool) (i : ℕ) (xs : List A) {x : A}
    → get_elem? xs i ≡ some x
    → p x ≡ true
    → 0 < count_if p xs
unfolding count_if
count_if-mem p i xs e h = omega (arith, rw h at (count_if-remove_at p i xs e))

-- A number is not above a number that it equals (IEEE comparison).
abbrev pub EqualIsNotAbove : Runtime → Type 0
EqualIsNotAbove js = (a b : js.Num) → js.eq a b ≡ true → js.lt a b ≡ false

module _ (js : Runtime) (numbers : EqualIsNotAbove js) where
  open js use {Num, lt, eq, decimal}

  -- The call at an index leaves the list of calls that wait.
  abbrev pub taken : ℕ → Player js → Player js
  taken i p = record p { flights = remove_at i p.flights }

  pub taken-IsDriven :
      (i n : ℕ) (p : Player js) {f : Flight js}
      → get_elem? p.flights i ≡ some f
      → IsDriven js ((if is_current js p.generation f then 1 else 0) + n) p
      → IsDriven js n (taken i p)
  taken-IsDriven i n p e d = record {
    driven = omega (arith, d.driven, count_if-remove_at (is_current js p.generation) i p.flights e);
    issued = All-remove_at (IsIssued js p.generation) i p.flights d.issued;
    early = All-remove_at (IsEarly js p.manifest p.generation) i p.flights d.early;
    held = d.held;
    playable = d.playable;
    shown = d.shown;
    slow = d.slow;
  }

  IsPlayable-of_read :
      (value : Value Num) {m : DemoManifest js}
      → read_demo_manifest js value ≡ some m
      → IsPlayable js m
  IsPlayable-of_read value {m} e =
      let (some_chunk, all) = read_demo_manifest_sound js value e in
      record {
        some_chunk = some_chunk;
        filled = All-imp (IsChunk js) m.chunks (λ c h. h.positive) all;
      }

  fresh-IsDriven :
      (m : DemoManifest js) (p : Player js)
      → IsPlayable js m
      → p.manifest ≡ none
      → IsDriven js 0 p
      → (p.chunk_index < length m.chunks) × IsDriven js 0 (record p { manifest = some m })
  fresh-IsDriven m p playable unset d =
      let zero_index : p.chunk_index ≡ 0 =
        subst (λ o. HasManifest js o p.chunk_index) unset d.playable in
      let inside : p.chunk_index < length m.chunks = omega (arith, playable.some_chunk) in
      (
        inside,
        record {
          driven = d.driven;
          issued = d.issued;
          early = none_current p.generation p.flights (omega (arith, d.driven)) (some m);
          held = d.held;
          playable = (playable, inside);
          shown = d.shown;
          slow = d.slow;
        },
      )
    where
      none_current :
          (g : ℕ) (fs : List (Flight js))
          → count_if (is_current js g) fs ≡ 0
          → (o : Option (DemoManifest js)) → All (IsEarly js o g) fs
      none_current g [] h o = tt
      none_current g (f ∷ fs) h o = (
        λ e. absurd (unfold count_if in ground arith),
        none_current g fs (unfold count_if in omega arith) o,
      )

  manifest_arrives-GoesOn :
      (controller : ℕ) (value : Value Num) (p : Player js)
      → p.manifest ≡ none
      → IsDriven js 0 p
      → GoesOn js p (manifest_arrives js p.generation controller value p)
  unfolding manifest_arrives
  manifest_arrives-GoesOn controller value p unset d =
      elim (Option-cases (read_demo_manifest js value)) [
        | inl e ↦ rw (e, manifest_arrives) (fail-GoesOn js controller p d)
        | inr (m, e) ↦
            let playable = IsPlayable-of_read value e in
            let (inside, d') = fresh-IsDriven m p playable unset d in
            rw (e, manifest_arrives, eq_self p.generation)
              (loaded-GoesOn m (
                fetch_or_show-GoesOn js m controller (record p { manifest = some m }) playable
                  inside d'))
      ]
    where
      loaded-GoesOn :
          (m : DemoManifest js) {o : Outcome js}
          → GoesOn js (record p { manifest = some m }) o
          → GoesOn js p o
      loaded-GoesOn m g = record {
        driven = g.driven;
        active = g.active;
        disposed = g.disposed;
        good = g.good;
      }

  non_empty :
      (frames : List (Value Num)) (count : Num)
      → eq (decimal (length frames) 0) count ≡ true
      → lt (decimal 0 0) count ≡ true
      → 0 < length frames
  non_empty [] count e h = absurd (cc (numbers (decimal 0 0) count e))
  non_empty (f ∷ fs) count e h = omega arith

  -- The player once a chunk is decoded.
  abbrev decoded : DemoManifest js → List (Value Num) → Player js → Player js
  decoded m frames p = record p {
    frames = frames;
    frame_index = 0;
    chunk_index = suc p.chunk_index % length m.chunks;
  }

  module _ (chunk : Chunk js) (controller : ℕ) (value : Value Num) (p : Player js) where
    chunk_unset :
        p.manifest ≡ none
        → chunk_arrives js chunk p.generation controller value p ≡ fail js p.generation controller p
    unfolding chunk_arrives
    chunk_unset e = ground (arith, eq_self p.generation)

    chunk_refused :
        {m : DemoManifest js}
        → p.manifest ≡ some m
        → decode_demo_frames js value m.reference_map chunk.frames ≡ none
        → chunk_arrives js chunk p.generation controller value p ≡ fail js p.generation controller p
    unfolding chunk_arrives
    chunk_refused e bad = ground (arith, eq_self p.generation)

    chunk_decoded :
        {m : DemoManifest js} {frames : List (Value Num)}
        → p.manifest ≡ some m
        → decode_demo_frames js value m.reference_map chunk.frames ≡ some frames
        → chunk_arrives js chunk p.generation controller value p
          ≡ show_frame js m p.generation controller (decoded m frames p)
    unfolding chunk_arrives
    chunk_decoded e good = ground (arith, eq_self p.generation)

  simulated : {r : Value Num} (f : Value Num) → IsShowable js r f → IsShown js f
  unfolding is_simulated_frame
  simulated f h = rw (h.valid, h.simulated) refl

  decoded-IsDriven :
      (m : DemoManifest js) (frames : List (Value Num)) (p : Player js)
      → p.manifest ≡ some m
      → IsPlayable js m
      → All (IsShown js) frames
      → IsDriven js 0 p
      → IsDriven js 0 (decoded m frames p)
  decoded-IsDriven m frames p e playable all d = record {
    driven = d.driven;
    issued = d.issued;
    early = d.early;
    held = d.held;
    playable =
        subst (λ o. HasManifest js o (suc p.chunk_index % length m.chunks)) (sym e)
          (playable, mod-lt _ playable.some_chunk);
    shown = all;
    slow = d.slow;
  }

  decoded-GoesOn :
      (m : DemoManifest js) (frames : List (Value Num)) (p : Player js) {o : Outcome js}
      → GoesOn js (decoded m frames p) o
      → GoesOn js p o
  decoded-GoesOn m frames p g = record {
    driven = g.driven;
    active = g.active;
    disposed = g.disposed;
    good = g.good;
  }

  chunk_arrives-GoesOn :
      (chunk : Chunk js) (controller : ℕ) (value : Value Num) (p : Player js)
      → IsFilled js chunk
      → IsDriven js 0 p
      → GoesOn js p (chunk_arrives js chunk p.generation controller value p)
  chunk_arrives-GoesOn chunk controller value p filled d = elim (Option-cases p.manifest) [
    | inl e ↦
        subst (GoesOn js p) (sym (chunk_unset chunk controller value p e))
          (fail-GoesOn js controller p d)
    | inr (m, e) ↦ elim (Option-cases (decode_demo_frames js value m.reference_map chunk.frames)) [
      | inl bad ↦
          subst (GoesOn js p) (sym (chunk_refused chunk controller value p e bad))
            (fail-GoesOn js controller p d)
      | inr (frames, good) ↦
          let (size, all) = decode_demo_frames_sound js value m.reference_map chunk.frames good in
          let (playable, inside) = subst (λ o. HasManifest js o p.chunk_index) e d.playable in
          let shown = All-imp (IsShowable js m.reference_map) frames (λ f h. simulated f h) all in
          subst (GoesOn js p) (sym (chunk_decoded chunk controller value p e good)) (
            decoded-GoesOn m frames p (
              show_frame-GoesOn js m controller (decoded m frames p)
                (non_empty frames chunk.frames size filled)
                (decoded-IsDriven m frames p e playable shown d)))
    ]
  ]

  -- A call of the present generation that goes on leaves exactly one thing pending.
  pub resume-GoesOn :
      (f : Flight js) (result : Option (Value Num)) (p : Player js)
      → f.token ≡ p.generation
      → IsAwaitable js f.stage
      → IsFirst js p.manifest f.stage
      → IsDriven js 0 p
      → GoesOn js p (resume js f result p)
  unfolding resume
  resume-GoesOn f none p now ready first d = rw now (fail-GoesOn js f.controller p d)
  resume-GoesOn f (some value) p now ready first d = rw now (arrives f.stage ready first)
    where
      arrives :
          (stage : Stage js)
          → IsAwaitable js stage
          → IsFirst js p.manifest stage
          → GoesOn js p (resume_with js stage p.generation f.controller value p)
      arrives manifest_stage ready unset = manifest_arrives-GoesOn f.controller value p unset d
      arrives (chunk_stage chunk) filled _ =
          chunk_arrives-GoesOn chunk f.controller value p filled d

  -- A call of an earlier generation only gives up its request, whatever its download brought.
  pub resume_stale :
      (f : Flight js) (result : Option (Value Num)) (p : Player js)
      → f.token ≢ p.generation
      → resume js f result p ≡ (finish js f.controller p, [])
  unfolding resume fail manifest_arrives chunk_arrives
  resume_stale f none p stale = ground arith
  resume_stale f (some value) p stale = gone f.stage
    where
      gone :
          (stage : Stage js)
          → resume_with js stage f.token f.controller value p ≡ (finish js f.controller p, [])
      gone manifest_stage = ground arith
      gone (chunk_stage chunk) = ground arith
