-- ===== src/Simulation/Manifest/Laws.antt =====
-- demoPlayback.ts: what an accepted manifest guarantees.
use sih.Prelude.{
  ◌≡◌, ◌<◌, true, false, List, [], ◌∷◌, some, All, map, length, arith, Bool-cases, inl, inr,
  every_iff, All-imp, All-map, subst,
}
use sih.Prelude.Runtime.{Runtime}
use sih.Prelude.Value.{Value, number, string, array, items, prop}
use sih.State.Snapshot.Basics.{is_non_empty, is_array_of}
use sih.Simulation.Manifest.{
  Chunk, DemoManifest, is_chunk, is_chunk_url, is_demo_manifest, read_demo_manifest, chunk_of,
  items_or, number_or, is_frame_count, is_chunk_text, text_or,
}
use sih.Simulation.Manifest.Paths.{IsInFolder, is_chunk_url-IsInFolder}

module _ (js : Runtime) where
  open js use {Num, is_finite, is_integer, lt, le, decimal}

  -- What the manifest promises of a chunk.
  pub record IsChunk (c : Chunk js) : Type 0 where
    pub path : IsInFolder c.url
    pub whole : is_integer c.frames ≡ true
    pub positive : lt (decimal 0 0) c.frames ≡ true
    pub limited : le c.frames (decimal 100 0) ≡ true

  count_sound :
      (v : Value Num)
      → is_frame_count js v ≡ true
      → let n = number_or js (decimal 0 0) v in
        (is_integer n ≡ true) × (lt (decimal 0 0) n ≡ true) × (le n (decimal 100 0) ≡ true)
  count_sound (number n) h = (ground arith, ground arith, ground arith)
  count_sound _ h = absurd (cc)

  text_sound : (v : Value Num) → is_chunk_text js v ≡ true → is_chunk_url (text_or js "" v) ≡ true
  text_sound (string s) h = h
  text_sound _ h = absurd (cc)

  is_chunk_sound : (v : Value Num) → is_chunk js v ≡ true → IsChunk (chunk_of js v)
  unfolding is_chunk
  is_chunk_sound v h =
      let text = text_sound (prop v "url") (ground arith) in
      let (whole, positive, limited) = count_sound (prop v "frames") (ground arith) in
      record {
        path = is_chunk_url-IsInFolder _ text;
        whole = whole;
        positive = positive;
        limited = limited;
      }

  chunks_sound :
      (v : Value Num)
      → is_non_empty v ≡ true
      → is_array_of (is_chunk js) v ≡ true
      → (0 < length (map (chunk_of js) (items_or js v)))
        × All IsChunk (map (chunk_of js) (items_or js v))
  unfolding is_non_empty is_array_of
  chunks_sound (array vs) h k = (
    filled (items vs) h,
    All-map IsChunk (chunk_of js) (items vs) (
        All-imp (λ c. is_chunk js c ≡ true) (items vs) is_chunk_sound
          ((every_iff (is_chunk js) (items vs)).0 k)),
  )
    where
      filled :
          (l : List (Value Num))
          → (elim l [ [] ↦ false | _ ↦ true ]) ≡ true
          → 0 < length (map (chunk_of js) l)
      filled [] e = absurd (cc)
      filled (x ∷ xs) e = omega arith
  chunks_sound _ h k = absurd (cc)

  -- An accepted manifest has at least one chunk; each chunk's path is `/demo/`, a name that is not
  -- empty and has no `/`, backslash or percent sign, and `.json.gz`; and its frame count is a
  -- whole number above 0 and at most 100.
  pub read_demo_manifest_sound :
      (value : Value Num) {m : DemoManifest js}
      → read_demo_manifest js value ≡ some m
      → (0 < length m.chunks) × All IsChunk m.chunks
  unfolding read_demo_manifest is_demo_manifest
  read_demo_manifest_sound value {m} h = elim (Bool-cases (is_demo_manifest js value)) [
    | inr bad ↦ absurd (cc (rw bad at h))
    | inl good ↦
        let same : map (chunk_of js) (items_or js (prop value "chunks")) ≡ m.chunks =
          ground arith in
        subst (λ (l : List (Chunk js)). (0 < length l) × All IsChunk l) same
          (chunks_sound (prop value "chunks") (ground arith) (ground arith))
  ]
