-- ===== src/Simulation/Manifest.antt =====
-- frontend/src/simulation/demoPlayback.ts, lines 5 to 24: the manifest of a recorded demo.
pub mod Paths
pub mod Laws
use sih.Prelude.{
  ℕ, String, Bool, true, false, not, ◌&&◌, ◌||◌, List, [], ◌∷◌, Option, none, some, map, every,
  if◌then◌else◌, leb, ◌==◌, ◌===◌,
}
use sih.Prelude.Runtime.{Runtime}
use sih.Prelude.Value.{Value, undefined, null, boolean, number, string, array, items, prop}
use sih.State.Snapshot.Basics.{is_non_empty, is_array_of}
use Prim.Native.Char.{code}
use mathlib.Core.List.{reverse}

-- The code points of a text.
abbrev pub codes : String → List ℕ
codes String.[] = []
codes (String.◌∷◌ c s) = code c ∷ codes s

-- What follows a prefix.
unfoldable pub strip_prefix : List ℕ → List ℕ → Option (List ℕ)
strip_prefix [] text = some text
strip_prefix (p ∷ ps) [] = none
strip_prefix (p ∷ ps) (c ∷ cs) = if p == c then strip_prefix ps cs else none

-- `[a-zA-Z0-9._-]`
abbrev pub is_name_code : ℕ → Bool
is_name_code c =
    leb b'a' c && leb c b'z'
    || leb b'A' c && leb c b'Z'
    || leb b'0' c && leb c b'9'
    || c == b'.'
    || c == b'_'
    || c == b'-'

-- `[a-zA-Z0-9._-]+`
abbrev pub is_name : List ℕ → Bool
is_name [] = false
is_name (c ∷ cs) = is_name_code c && every is_name_code cs

-- `/^\/demo\/[a-zA-Z0-9._-]+\.json\.gz$/.test(url)`: between the fixed ends stands a name.
unfoldable pub is_chunk_url : String → Bool
unfolding strip_prefix every
is_chunk_url url = elim (strip_prefix (codes "/demo/") (codes url)) [
  | none ↦ false
  | some rest ↦ elim (strip_prefix (reverse (codes ".json.gz")) (reverse rest)) [
    | none ↦ false
    | some name ↦ is_name name
  ]
]

module _ (js : Runtime) where
  open js use {Num, is_finite, is_integer, lt, le, eq, decimal}

  pub record Chunk : Type 0 where
    pub url : String
    pub frames : Num

  pub record DemoManifest : Type 0 where
    pub frame_interval_ms : Num
    pub reference_map : Value Num
    pub chunks : List Chunk

  -- Whether `if (value)` takes the branch.
  unfoldable pub is_truthy : Value Num → Bool
  is_truthy undefined = false
  is_truthy null = false
  is_truthy (boolean b) = b
  is_truthy (number n) = eq n n && not (eq n (decimal 0 0))
  is_truthy (string s) = not (s === "")
  is_truthy _ = true

  -- `manifest.version === 1`
  abbrev pub is_one : Value Num → Bool
  is_one (number n) = eq n (decimal 1 0)
  is_one _ = false

  -- `Number.isFinite(ms) && ms >= 50 && ms <= 2000`
  abbrev pub is_interval : Value Num → Bool
  is_interval (number ms) = is_finite ms && not (lt ms (decimal 50 0) || lt (decimal 2000 0) ms)
  is_interval _ = false

  abbrev pub is_chunk_text : Value Num → Bool
  is_chunk_text (string url) = is_chunk_url url
  is_chunk_text _ = false

  abbrev pub is_frame_count : Value Num → Bool
  is_frame_count (number n) = is_integer n && lt (decimal 0 0) n && le n (decimal 100 0)
  is_frame_count _ = false

  unfoldable pub is_chunk : Value Num → Bool
  unfolding is_truthy is_chunk_url
  is_chunk chunk =
      is_truthy chunk && is_chunk_text (prop chunk "url") && is_frame_count (prop chunk "frames")

  -- The program goes on with the value itself; here its fields are read into a record.
  abbrev pub number_or : Num → Value Num → Num
  number_or fallback (number n) = n
  number_or fallback _ = fallback

  abbrev pub text_or : String → Value Num → String
  text_or fallback (string s) = s
  text_or fallback _ = fallback

  abbrev pub items_or : Value Num → List (Value Num)
  items_or (array vs) = items vs
  items_or _ = []

  abbrev pub chunk_of : Value Num → Chunk
  chunk_of v = record {
    url = text_or "" (prop v "url");
    frames = number_or (decimal 0 0) (prop v "frames");
  }

  unfoldable pub is_demo_manifest : Value Num → Bool
  unfolding is_truthy is_chunk is_non_empty is_array_of
  is_demo_manifest value =
      is_one (prop value "version")
      && is_interval (prop value "frame_interval_ms")
      && is_truthy (prop value "reference_map")
      && is_non_empty (prop value "chunks")
      && is_array_of is_chunk (prop value "chunks")

  -- `none` is the error "Invalid demo manifest".
  unfoldable pub read_demo_manifest : Value Num → Option DemoManifest
  unfolding is_demo_manifest
  read_demo_manifest value =
      if is_demo_manifest value
      then some (record {
        frame_interval_ms = number_or (decimal 0 0) (prop value "frame_interval_ms");
        reference_map = prop value "reference_map";
        chunks = map chunk_of (items_or (prop value "chunks"));
      })
      else none
