-- ===== src/Simulation/Playback/Steps.antt =====
-- demoPlayback.ts: the pieces of `advance` keep the invariant, and leave one thing pending.
use sih.Prelude.{
  ℕ, zero, suc, ◌*◌, ◌<◌, min, ◌≡◌, refl, sym, true, false, List, [], ◌∷◌, none, some, length,
  get_elem?, leb, ◌==◌, All, arith, Bool-cases, Option-cases, inl, inr, get_elem?-some, subst,
}
use mathlib.Core.Option.{some-injective}
use sih.Prelude.Counting.{count_if}
use sih.Prelude.Runtime.{Runtime}
use sih.Simulation.Manifest.{DemoManifest}
use sih.Simulation.Playback.{
  Stage, manifest_stage, chunk_stage, Flight, Delay, frame_interval, retry, Player, Outcome,
  set_timer, finish, fail, show_frame, wait, fetch_or_show, advance, first_retry_ms, last_retry_ms,
}
use sih.Simulation.Playback.Invariant.{
  IsFirst, IsFilled, IsPlayable, IsShown, is_current, IsAwaitable, HasManifest, IsDriven, GoesOn,
}

pub eq_self : (n : ℕ) → (n == n) ≡ true
eq_self n = ground arith

pub nil_of_length {ℓ} : {A : Type ℓ} (xs : List A) → length xs ≡ 0 → xs ≡ []
nil_of_length [] h = refl
nil_of_length (x ∷ xs) h = absurd (omega arith)

pub All-get {ℓ} :
    {A : Type ℓ} (P : A → Type 0) (xs : List A) (i : ℕ) {x : A}
    → All P xs
    → get_elem? xs i ≡ some x
    → P x
All-get P [] i h e = absurd (cc)
All-get P (y ∷ xs) zero (p, h) e = let same = some-injective _ _ e in subst P same p
All-get P (y ∷ xs) (suc i) (p, h) e = All-get P xs i h e

module _ (js : Runtime) where
  open js use {Num}

  set_timer-IsDriven :
      (delay : Delay js) (p : Player js) → IsDriven js 0 p → IsDriven js 1 (set_timer js delay p)
  unfolding set_timer
  set_timer-IsDriven delay p i =
      let none_left : p.timers ≡ [] = nil_of_length p.timers (omega (arith, i.driven)) in
      record {
        driven = omega (arith, i.driven);
        issued = i.issued;
        early = i.early;
        held = (refl, rw none_left tt);
        playable = i.playable;
        shown = i.shown;
        slow = i.slow;
      }

  pub finish-IsDriven :
      (n controller : ℕ) (p : Player js) → IsDriven js n p → IsDriven js n (finish js controller p)
  unfolding finish
  finish-IsDriven n controller p i = record {
    driven = i.driven;
    issued = i.issued;
    early = i.early;
    held = i.held;
    playable = i.playable;
    shown = i.shown;
    slow = i.slow;
  }

  pub fail-GoesOn :
      (controller : ℕ) (p : Player js)
      → IsDriven js 0 p
      → GoesOn js p (fail js p.generation controller p)
  unfolding fail set_timer finish
  fail-GoesOn controller p i = rw (eq_self p.generation) record {
    driven = finish-IsDriven 1 controller _ (slower (set_timer-IsDriven (retry p.retry_ms) p i));
    active = refl;
    disposed = refl;
    good = (tt, tt);
  }
    where
      slower :
          {q : Player js}
          → IsDriven js 1 q
          → IsDriven js 1 (record q { retry_ms = min (q.retry_ms * 2) last_retry_ms })
      slower {q} d = record {
        driven = d.driven;
        issued = d.issued;
        early = d.early;
        held = d.held;
        playable = d.playable;
        shown = d.shown;
        slow = (omega (arith, d.slow), omega arith);
      }

  current_count :
      (generation : ℕ) (f : Flight js) (fs : List (Flight js))
      → f.token ≡ generation
      → count_if (is_current js generation) (f ∷ fs) ≡ suc (count_if (is_current js generation) fs)
  unfolding count_if
  current_count generation f fs e = rw e (rw (eq_self generation) (omega arith))

  wait-GoesOn :
      (controller : ℕ) (stage : Stage js) (p : Player js)
      → IsAwaitable js stage
      → IsFirst js p.manifest stage
      → IsDriven js 0 p
      → GoesOn js p (wait js p.generation controller stage p)
  unfolding wait
  wait-GoesOn controller stage p ready first i =
      let f : Flight js = record { token = p.generation; controller = controller; stage = stage } in
      record {
        driven = record {
          driven = omega (arith, i.driven, current_count p.generation f p.flights refl);
          issued = ((omega arith, ready), i.issued);
          early = (λ _. first, i.early);
          held = i.held;
          playable = i.playable;
          shown = i.shown;
          slow = i.slow;
        };
        active = refl;
        disposed = refl;
        good = tt;
      }

  pub show_frame-GoesOn :
      (m : DemoManifest js) (controller : ℕ) (p : Player js)
      → p.frame_index < length p.frames
      → IsDriven js 0 p
      → GoesOn js p (show_frame js m p.generation controller p)
  unfolding show_frame
  show_frame-GoesOn m controller p inside i =
      let (frame, e) = get_elem?-some p.frames p.frame_index inside in
      let shown : Player js = record p {
        frame_index = suc p.frame_index;
        retry_ms = first_retry_ms;
      } in
      let later : Player js = set_timer js (frame_interval m.frame_interval_ms) shown in
      rw (eq_self p.generation) record {
        driven = finish-IsDriven 1 controller later (
            set_timer-IsDriven (frame_interval m.frame_interval_ms) shown (record {
              driven = i.driven;
              issued = i.issued;
              early = i.early;
              held = i.held;
              playable = i.playable;
              shown = i.shown;
              slow = (omega arith, omega arith);
            }));
        active = unfold set_timer finish in refl;
        disposed = unfold set_timer finish in refl;
        good = (rw e (All-get (IsShown js) p.frames p.frame_index i.shown e), (tt, tt));
      }

  pub fetch_or_show-GoesOn :
      (m : DemoManifest js) (controller : ℕ) (p : Player js)
      → IsPlayable js m
      → p.chunk_index < length m.chunks
      → IsDriven js 0 p
      → GoesOn js p (fetch_or_show js m p.generation controller p)
  unfolding fetch_or_show
  fetch_or_show-GoesOn m controller p playable inside i =
      let (chunk, e) = get_elem?-some m.chunks p.chunk_index inside in
      elim (Bool-cases (leb (length p.frames) p.frame_index)) [
        | inl used ↦
            rw (used, e)
              (wait-GoesOn controller (chunk_stage chunk) p
                (All-get (IsFilled js) m.chunks p.chunk_index playable.filled e) tt i)
        | inr left ↦ rw left (show_frame-GoesOn m controller p (ground arith) i)
      ]

  -- A call of `advance` has a controller of its own.
  abbrev begin : Player js → Player js
  begin p = record p { request = some p.next_id; next_id = suc p.next_id }

  advance-first :
      (p : Player js)
      → p.active ≡ true
      → p.disposed ≡ false
      → p.manifest ≡ none
      → advance js p ≡ wait js p.generation p.next_id manifest_stage (begin p)
  unfolding advance
  advance-first p on open' e = ground arith

  advance-next :
      (p : Player js) {m : DemoManifest js}
      → p.active ≡ true
      → p.disposed ≡ false
      → p.manifest ≡ some m
      → advance js p ≡ fetch_or_show js m p.generation p.next_id (begin p)
  unfolding advance
  advance-next p on open' e = ground arith

  begin-IsDriven : (n : ℕ) (p : Player js) → IsDriven js n p → IsDriven js n (begin p)
  begin-IsDriven n p i = record {
    driven = i.driven;
    issued = i.issued;
    early = i.early;
    held = i.held;
    playable = i.playable;
    shown = i.shown;
    slow = i.slow;
  }

  begin-GoesOn : (p : Player js) {o : Outcome js} → GoesOn js (begin p) o → GoesOn js p o
  begin-GoesOn p g = record {
    driven = g.driven;
    active = g.active;
    disposed = g.disposed;
    good = g.good;
  }

  -- Starting `advance` on an active player with nothing pending makes it go on.
  pub advance-GoesOn :
      (p : Player js)
      → p.active ≡ true
      → p.disposed ≡ false
      → IsDriven js 0 p
      → GoesOn js p (advance js p)
  advance-GoesOn p on open' i =
      let d = begin-IsDriven 0 p i in
      elim (Option-cases p.manifest) [
        | inl e ↦
            subst (GoesOn js p) (sym (advance-first p on open' e))
              (begin-GoesOn p (wait-GoesOn p.next_id manifest_stage (begin p) tt e d))
        | inr (m, e) ↦
            let (playable, inside) = subst (λ o. HasManifest js o p.chunk_index) e i.playable in
            subst (GoesOn js p) (sym (advance-next p on open' e))
              (begin-GoesOn p (fetch_or_show-GoesOn m p.next_id (begin p) playable inside d))
      ]
