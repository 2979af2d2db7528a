-- ===== src/State/Snapshot/Shape/Agree.antt =====
-- Two tests agree if each is true where the other is.
use sih.Prelude.{◌≡◌, refl, sym, Bool, true, false, ◌||◌}

pub bool_ext : (a b : Bool) → (a ≡ true → b ≡ true) → (b ≡ true → a ≡ true) → a ≡ b
bool_ext true true to from = refl
bool_ext true false to from = sym (to refl)
bool_ext false true to from = from refl
bool_ext false false to from = refl

pub or-ext : (a b c : Bool) → b ≡ c → (a || b) ≡ (a || c)
or-ext a b c e = rw e
