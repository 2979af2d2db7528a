-- ===== src/Simulation/Playback/Laws.antt =====
-- demoPlayback.ts: every event keeps the invariant, and only good frames are reported.
use sih.Prelude.{
  ℕ, suc, ◌+◌, ◌<◌, ◌≡◌, ◌≢◌, refl, sym, Bool, true, false, List, [], ◌∷◌, Option, none, some,
  if◌then◌else◌, get_elem?, filter, All, arith, Bool-cases, Option-cases, inl, inr, ◌⊎◌, subst,
}
use sih.Prelude.Counting.{count_if}
use sih.Prelude.Runtime.{Runtime}
use sih.Prelude.Value.{Value}
use sih.Simulation.Manifest.{DemoManifest}
use sih.Simulation.Playback.{
  Flight, Timer, Player, Outcome, finish, remove_at, resume, settle, clear_timer, without,
  new_player,
}
use sih.Simulation.Playback.Invariant.{
  is_current, IsIssued, IsEarly, drivers, IsDriven, one_if, IsSound, IsGood, GoesOn,
}
use sih.Simulation.Playback.Steps.{eq_self, All-get, finish-IsDriven}
use sih.Simulation.Playback.Resume.{
  EqualIsNotAbove, count_if-mem, taken, taken-IsDriven, resume-GoesOn, resume_stale,
}
use sih.Prelude.{◌∙◌}

module _ (js : Runtime) (numbers : EqualIsNotAbove js) where
  open js use {Num}

  -- What a step promises: the player stays sound, and every frame that it reports may be shown.
  pub record Keeps (o : Outcome js) : Type 0 where
    pub sound : IsSound js o.0
    pub good : All (IsGood js) o.1

  pub new_player-IsSound : IsSound js (new_player js)
  unfolding new_player count_if
  new_player-IsSound = record {
    driven = record {
      driven = refl;
      issued = tt;
      early = tt;
      held = tt;
      playable = refl;
      shown = tt;
      slow = (omega arith, omega arith);
    };
    stopped = λ _. refl;
  }

  pub going-Keeps :
      (p : Player js) {o : Outcome js}
      → p.active ≡ true
      → p.disposed ≡ false
      → GoesOn js p o
      → Keeps o
  going-Keeps p {o} on open' g = record {
    sound = record {
      driven = subst (λ b. IsDriven js (one_if js b) o.0) (sym (g.active ∙ on)) g.driven;
      stopped = λ e. absurd (cc (g.disposed));
    };
    good = g.good;
  }

  -- Something pending means that the player is active, and so not disposed.
  pub busy :
      (p : Player js) → IsSound js p → 0 < drivers js p → (p.active ≡ true) × (p.disposed ≡ false)
  busy p s h = elim (Bool-cases p.active) [
    | inr off ↦ absurd (omega (arith, rw off at s.driven.driven))
    | inl on ↦ elim (Bool-cases p.disposed) [
      | inl gone ↦ absurd (cc (s.stopped gone))
      | inr open' ↦ (on, open')
    ]
  ]

  pub settle_current :
      (i : ℕ) (result : Option (Value Num)) (p : Player js) {f : Flight js}
      → get_elem? p.flights i ≡ some f
      → settle js i result p ≡ resume js f result (record p { flights = remove_at i p.flights })
  unfolding settle
  settle_current i result p e = ground arith

  pub settle_missing :
      (i : ℕ) (result : Option (Value Num)) (p : Player js)
      → get_elem? p.flights i ≡ none
      → settle js i result p ≡ (p, [])
  unfolding settle
  settle_missing i result p e = ground arith

  -- The calls that wait all belong to a generation that there was, and each may go on.
  pub now_or_stale :
      (f : Flight js) (p : Player js) → (f.token ≡ p.generation) ⊎ (f.token ≢ p.generation)
  now_or_stale f p = omega arith

  pub current_one :
      (i : ℕ) (p : Player js) {f : Flight js} {n : ℕ}
      → get_elem? p.flights i ≡ some f
      → f.token ≡ p.generation
      → IsDriven js n p
      → 0 < drivers js p
  current_one i p e now d = omega (
    arith,
    count_if-mem (is_current js p.generation) i p.flights e (rw now (eq_self p.generation)),
  )

  finish-IsSound :
      (controller : ℕ) (p : Player js) → IsSound js p → IsSound js (finish js controller p)
  finish-IsSound controller p s = record {
    driven = unfold finish in finish-IsDriven js (one_if js p.active) controller p s.driven;
    stopped = unfold finish in s.stopped;
  }

  at_count : {n m : ℕ} (p : Player js) → n ≡ m → IsDriven js n p → IsDriven js m p
  at_count p e d = subst (λ k. IsDriven js k p) e d

  settle_now :
      (i : ℕ) (result : Option (Value Num)) (p : Player js) {f : Flight js}
      → get_elem? p.flights i ≡ some f
      → f.token ≡ p.generation
      → IsSound js p
      → Keeps (resume js f result (taken js numbers i p))
  settle_now i result p {f} e now s =
      let (on, open') = busy p s (current_one i p e now s.driven) in
      let ready = All-get (IsIssued js p.generation) p.flights i s.driven.issued e in
      let first = All-get (IsEarly js p.manifest p.generation) p.flights i s.driven.early e now in
      let counted : one_if js p.active ≡ (if is_current js p.generation f then 1 else 0) + 0 =
        rw (on, now, eq_self p.generation) (omega arith) in
      going-Keeps (taken js numbers i p) on open' (
        resume-GoesOn js numbers f result (taken js numbers i p) now ready.1 first
          (taken-IsDriven js numbers i 0 p e (at_count p counted s.driven)))

  settle_late :
      (i : ℕ) (result : Option (Value Num)) (p : Player js) {f : Flight js}
      → get_elem? p.flights i ≡ some f
      → f.token ≢ p.generation
      → IsSound js p
      → Keeps (resume js f result (taken js numbers i p))
  settle_late i result p {f} e late s =
      let counted : one_if js p.active
          ≡ (if is_current js p.generation f then 1 else 0) + one_if js p.active =
        ground arith in
      let left : IsSound js (taken js numbers i p) = record {
        driven = taken-IsDriven js numbers i (one_if js p.active) p e (at_count p counted s.driven);
        stopped = s.stopped;
      } in
      rw (resume_stale js numbers f result (taken js numbers i p) late)
        record { sound = finish-IsSound f.controller (taken js numbers i p) left; good = tt }

  pub settle-Keeps :
      (i : ℕ) (result : Option (Value Num)) (p : Player js)
      → IsSound js p
      → Keeps (settle js i result p)
  settle-Keeps i result p s = elim (Option-cases (get_elem? p.flights i)) [
    | inl e ↦ rw (settle_missing i result p e) record { sound = s; good = tt }
    | inr (f, e) ↦ rw (settle_current i result p e) (elim (now_or_stale f p) [
      | inl now ↦ settle_now i result p e now s
      | inr late ↦ settle_late i result p e late s
    ])
  ]

  -- A new generation leaves all waiting calls behind, and no timer.
  behind :
      (g : ℕ) (fs : List (Flight js))
      → All (IsIssued js g) fs
      → count_if (is_current js (suc g)) fs ≡ 0
  unfolding count_if
  behind g [] h = refl
  behind g (f ∷ fs) ((old, _), h) = ground (arith, behind g fs h)

  IsIssued-next :
      (g : ℕ) (fs : List (Flight js)) → All (IsIssued js g) fs → All (IsIssued js (suc g)) fs
  IsIssued-next g [] h = tt
  IsIssued-next g (f ∷ fs) ((old, ready), h) = ((omega arith, ready), IsIssued-next g fs h)

  IsEarly-next :
      (g : ℕ) (o : Option (DemoManifest js)) (fs : List (Flight js))
      → All (IsIssued js g) fs
      → All (IsEarly js o (suc g)) fs
  IsEarly-next g o [] h = tt
  IsEarly-next g o (f ∷ fs) ((old, _), h) = (λ e. absurd (omega arith), IsEarly-next g o fs h)

  unheld :
      (handle : Option ℕ) (ts : List (Timer js))
      → All (λ t. handle ≡ some t.handle) ts
      → without js handle ts ≡ []
  unfolding filter
  unheld none [] h = refl
  unheld none (t ∷ ts) (e, h) = absurd (cc)
  unheld (some i) [] h = refl
  unheld (some i) (t ∷ ts) (e, h) = ground (arith, unheld (some i) ts h)

  -- The player once `setActive` has raised the generation and cleared the timer.
  abbrev pub switched : Bool → Player js → Player js
  switched next p = clear_timer js (record p { active = next; generation = suc p.generation })

  pub switched-IsDriven :
      (next : Bool) (p : Player js) {n : ℕ} → IsDriven js n p → IsDriven js 0 (switched next p)
  unfolding clear_timer
  switched-IsDriven next p d =
      let none_left = unheld p.timer p.timers d.held in
      record {
        driven = rw (behind p.generation p.flights d.issued, none_left) refl;
        issued = IsIssued-next p.generation p.flights d.issued;
        early = IsEarly-next p.generation p.manifest p.flights d.issued;
        held = rw none_left tt;
        playable = d.playable;
        shown = d.shown;
        slow = d.slow;
      }
