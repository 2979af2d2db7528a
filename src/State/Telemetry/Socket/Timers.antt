-- ===== src/State/Telemetry/Socket/Timers.antt =====
-- useTelemetry.ts: the lists of pending timers.
use sih.Prelude.{
  ℕ, suc, ◌<◌, ◌≡◌, refl, sym, ap, ◌∙◌, true, false, not, ◌||◌, List, [], ◌∷◌, Option, none, some,
  All, All-imp, All-filter_of, any, find, filter, arith, ◌==◌, Bool-cases, inl, inr,
}
use mathlib.Core.Option.{some-injective}
use sih.State.Telemetry.Socket.{Action, Timer, is_at, without, reconnect}
use sih.State.Telemetry.Socket.Invariant.{
  is_retry, is_reconnect, IsBelow, IsDistinct, IsApart, IsOrderly,
}

without_kept :
    (o : Option ℕ) (t : Timer) (ts : List Timer)
    → is_at o t.handle ≡ false
    → without o (t ∷ ts) ≡ t ∷ without o ts
unfolding without filter
without_kept o t ts e = rw e refl

without_gone :
    (o : Option ℕ) (t : Timer) (ts : List Timer)
    → is_at o t.handle ≡ true
    → without o (t ∷ ts) ≡ without o ts
unfolding without filter
without_gone o t ts e = rw e refl

any-cons : (t : Timer) (ts : List Timer) → any is_retry (t ∷ ts) ≡ (is_retry t || any is_retry ts)
unfolding any
any-cons t ts = refl

-- Clearing the timer of silence leaves the timers of reconnection.
pub retry-without :
    (o : Option ℕ) (ts : List Timer)
    → All (IsApart o) ts
    → any is_retry (without o ts) ≡ any is_retry ts
retry-without o [] h = unfold without filter in refl
retry-without o (t ∷ ts) (p, h) = elim (Bool-cases (is_at o t.handle)) [
  | inl e ↦
      ap (any is_retry) (without_gone o t ts e)
      ∙ retry-without o ts h
      ∙ sym (any-cons t ts ∙ ground (arith, e))
  | inr e ↦
      ap (any is_retry) (without_kept o t ts e)
      ∙ any-cons t (without o ts)
      ∙ ground (arith, retry-without o ts h, any-cons t ts)
]

IsDistinct-without : (o : Option ℕ) (ts : List Timer) → IsDistinct ts → IsDistinct (without o ts)
unfolding without filter
IsDistinct-without o [] d = tt
IsDistinct-without o (t ∷ ts) (new, d) = elim (Bool-cases (is_at o t.handle)) [
  | inl e ↦ rw e (IsDistinct-without o ts d)
  | inr e ↦ rw e (
    All-filter_of (λ u. (u.handle == t.handle) ≡ false) (λ u. not (is_at o u.handle)) ts new,
    IsDistinct-without o ts d,
  )
]

pub IsOrderly-without :
    (o stale : Option ℕ) (n : ℕ) (ts : List Timer)
    → IsOrderly stale n ts
    → IsOrderly stale n (without o ts)
IsOrderly-without o stale n ts h = record {
  issued =
      unfold without in All-filter_of (λ t. t.handle < n) (λ t. not (is_at o t.handle)) ts h.issued;
  known = h.known;
  distinct = IsDistinct-without o ts h.distinct;
  apart = unfold without in All-filter_of (IsApart stale) (λ t. not (is_at o t.handle)) ts h.apart;
}

-- A fresh timer, of silence or of reconnection.
new_handle :
    (n : ℕ) (ts : List Timer) → All (λ t. t.handle < n) ts → All (λ t. (t.handle == n) ≡ false) ts
new_handle n ts h = All-imp (λ t. t.handle < n) ts (λ t k. ground arith) h

older : (n : ℕ) (ts : List Timer) → All (λ t. t.handle < n) ts → All (λ t. t.handle < suc n) ts
older n ts h = All-imp (λ t. t.handle < n) ts (λ t k. omega arith) h

pub IsOrderly-next :
    (stale : Option ℕ) (n : ℕ) (ts : List Timer) → IsOrderly stale n ts → IsOrderly stale (suc n) ts
IsOrderly-next stale n ts h = record {
  issued = older n ts h.issued;
  known = below stale h.known;
  distinct = h.distinct;
  apart = h.apart;
}
  where
    below : (o : Option ℕ) → IsBelow n o → IsBelow (suc n) o
    below none k = tt
    below (some i) k = omega arith

pub IsOrderly-stale :
    (stale : Option ℕ) (n d : ℕ) (a : Action) (ts : List Timer)
    → is_reconnect a ≡ false
    → IsOrderly stale n ts
    → IsOrderly (some n) (suc n) (record { handle = n; delay_ms = d; action = a } ∷ ts)
IsOrderly-stale stale n d a ts e h = record {
  issued = (omega arith, older n ts h.issued);
  known = omega arith;
  distinct = (new_handle n ts h.issued, h.distinct);
  apart = (ground arith, All-imp (λ t. t.handle < n) ts (λ t k. ground arith) h.issued);
}

pub IsOrderly-retry :
    (stale : Option ℕ) (n d : ℕ) (ts : List Timer)
    → IsOrderly stale n ts
    → IsOrderly stale (suc n) (record { handle = n; delay_ms = d; action = reconnect } ∷ ts)
IsOrderly-retry stale n d ts h = record {
  issued = (omega arith, older n ts h.issued);
  known = (IsOrderly-next stale n ts h).known;
  distinct = (new_handle n ts h.issued, h.distinct);
  apart = (fresh stale h.known, h.apart);
}
  where
    fresh : (o : Option ℕ) → IsBelow n o → is_at o n ≡ false
    fresh none k = refl
    fresh (some i) k = ground arith

without_absent :
    (i : ℕ) (ts : List Timer) → All (λ t. (t.handle == i) ≡ false) ts → without (some i) ts ≡ ts
without_absent i [] h = unfold without filter in refl
without_absent i (t ∷ ts) (p, h) =
    without_kept (some i) t ts (ground arith) ∙ ap (λ us. t ∷ us) (without_absent i ts h)

-- Firing a timer that is not one of reconnection leaves those that are.
pub retry-fired :
    (i : ℕ) (ts : List Timer) {x : Timer}
    → IsDistinct ts
    → find (λ t. t.handle == i) ts ≡ some x
    → is_retry x ≡ false
    → any is_retry (without (some i) ts) ≡ any is_retry ts
unfolding find
retry-fired i [] {x} d e h = cc
retry-fired i (t ∷ ts) {x} (new, d) e h = elim (Bool-cases (t.handle == i)) [
  | inl same ↦
      let hit : is_at (some i) t.handle ≡ true = ground arith in
      let is_x : t ≡ x = some-injective t x (rw same at e) in
      let plain : is_retry t ≡ false = ap is_retry is_x ∙ h in
      ap (any is_retry) (without_gone (some i) t ts hit)
      ∙ ap (any is_retry) (
          without_absent i ts
            (All-imp (λ u. (u.handle == t.handle) ≡ false) ts (λ u k. ground arith) new))
      ∙ sym (any-cons t ts ∙ ground (arith, plain))
  | inr other ↦
      ap (any is_retry) (without_kept (some i) t ts (ground arith))
      ∙ any-cons t (without (some i) ts)
      ∙ ground (arith, any-cons t ts, retry-fired i ts d (rw other at e) h)
]
