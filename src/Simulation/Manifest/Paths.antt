-- ===== src/Simulation/Manifest/Paths.antt =====
-- demoPlayback.ts, line 17: where the path of an accepted chunk leads.
use sih.Prelude.{
  ℕ, String, ◌≡◌, ◌<◌, refl, sym, ap, ◌∙◌, Bool, true, false, ◌||◌, List, [], ◌∷◌, ◌++◌, some, All,
  All-append, All-imp, every_iff, length, ◌==◌, arith, Option-cases, Bool-cases, inl, inr,
}
use sih.Simulation.Manifest.{codes, strip_prefix, is_name_code, is_name, is_chunk_url}
use mathlib.Core.List.{reverse, reverse-append, reverse-reverse, reverse-cons}

-- What would leave a folder, or hide a character that does: `/`, `\` and `%`.
abbrev pub is_separator : ℕ → Bool
is_separator c = c == 47 || c == 92 || c == 37

-- The path is a file of the demo's folder: a name that is not empty and has no separator, between
-- the folder and the extension.
abbrev pub IsInFolder : String → Type 0
IsInFolder url =
    (name : List ℕ) × (codes url ≡ codes "/demo/" ++ (name ++ codes ".json.gz"))
    × All (λ c. is_separator c ≡ false) name
    × (0 < length name)

strip_sound : (p text : List ℕ) {rest : List ℕ} → strip_prefix p text ≡ some rest → text ≡ p ++ rest
unfolding strip_prefix
strip_sound [] text h = ground arith
strip_sound (p ∷ ps) [] h = absurd (cc)
strip_sound (p ∷ ps) (c ∷ cs) {rest} h = elim (Bool-cases (p == c)) [
  | inl e ↦
      let same : c ≡ p = ground (arith, e) in
      let tail : cs ≡ ps ++ rest = strip_sound ps cs (rw e at h) in rw (same, tail) refl
  | inr e ↦ absurd (cc (rw e at h))
]

name-apart : (c : ℕ) → is_name_code c ≡ true → is_separator c ≡ false
name-apart c h = ground arith

All-reverse : (P : ℕ → Type 0) (xs : List ℕ) → All P xs → All P (reverse xs)
All-reverse P [] h = tt
All-reverse P (x ∷ xs) (p, h) =
    rw (reverse-cons x xs) (All-append P (reverse xs) (x ∷ []) (All-reverse P xs h) (p, tt))

name_names :
    (cs : List ℕ)
    → is_name cs ≡ true
    → All (λ c. is_separator c ≡ false) (reverse cs) × (0 < length (reverse cs))
name_names [] h = absurd (cc)
name_names (c ∷ cs) h = (
  All-reverse _ (c ∷ cs) (
      All-imp (λ x. is_name_code x ≡ true) (c ∷ cs) name-apart
        (ground (arith, h), (every_iff is_name_code cs).0 (ground (arith, h)))),
  rw (reverse-cons c cs) (filled (reverse cs)),
)
  where
    filled : (xs : List ℕ) → 0 < length (xs ++ c ∷ [])
    filled [] = omega arith
    filled (x ∷ xs) = omega arith

pub is_chunk_url-IsInFolder : (url : String) → is_chunk_url url ≡ true → IsInFolder url
unfolding is_chunk_url
is_chunk_url-IsInFolder url h = elim (Option-cases (strip_prefix (codes "/demo/") (codes url))) [
  | inl e ↦ absurd (cc (rw (e, is_chunk_url) at h))
  | inr (rest, e) ↦ elim (Option-cases (strip_prefix (reverse (codes ".json.gz")) (reverse rest))) [
    | inl f ↦ absurd (cc (rw (e, f, is_chunk_url) at h))
    | inr (name, f) ↦
        let (apart, filled) = name_names name (rw (e, f, is_chunk_url) at h) in
        (
          reverse name,
          strip_sound (codes "/demo/") (codes url) e
              ∙ ap (λ r. codes "/demo/" ++ r) (split rest name f),
          apart,
          filled,
        )
  ]
]
  where
    split :
        (rest name : List ℕ)
        → strip_prefix (reverse (codes ".json.gz")) (reverse rest) ≡ some name
        → rest ≡ reverse name ++ codes ".json.gz"
    split rest name f =
        sym (reverse-reverse rest)
        ∙ ap reverse (strip_sound (reverse (codes ".json.gz")) (reverse rest) f)
        ∙ reverse-append (reverse (codes ".json.gz")) name
