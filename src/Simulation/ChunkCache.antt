-- ===== src/Simulation/ChunkCache.antt =====
-- frontend/src/simulation/demoPlayback.ts, lines 45 to 77: the cache of `createChunkLoader`, with the
-- size of each compressed chunk in place of its bytes. The download, the compression of a body that
-- the browser has decompressed and the parsing are the browser's.
pub mod Entries
pub mod Laws
use sih.Prelude.{
  ℕ, ◌+◌, ◌-◌, ◌*◌, Bool, not, String, List, [], ◌∷◌, ◌++◌, Option, none, some, if◌then◌else◌, leb,
  ltb, ◌===◌, filter, find, any,
}

abbrev pub max_bytes : ℕ
max_bytes = 20 * 1024 * 1024

-- A key of the `Map`, with the `byteLength` of its value.
pub record Entry : Type 0 where
  pub url : String
  pub byte_length : ℕ

-- The map's entries, the oldest first, and the variable `bytes`.
pub record ChunkCache : Type 0 where
  pub entries : List Entry
  pub bytes : ℕ

unfoldable pub empty_cache : ChunkCache
empty_cache = record { entries = []; bytes = 0 }

-- `cache.has(url)`
unfoldable pub is_cached : String → List Entry → Bool
unfolding any
is_cached url entries = any (λ e. e.url === url) entries

-- `cache.delete(url)`
unfoldable pub delete : String → List Entry → List Entry
unfolding filter
delete url entries = filter (λ e. not (e.url === url)) entries

-- `cache.set(url, chunk)`: a key that is there keeps its place.
unfoldable pub set : Entry → List Entry → List Entry
set e [] = e ∷ []
set e (d ∷ ds) = if d.url === e.url then e ∷ ds else d ∷ set e ds

-- The loop of lines 60 to 64, for a chunk of `size` bytes. With no entry left `cache.get(oldest)!`
-- is undefined and its `byteLength` throws: `none`.
unfoldable pub evict : ℕ → List Entry → ℕ → Option ChunkCache
evict size [] bytes' =
    if ltb max_bytes (bytes' + size) then none else some (record { entries = []; bytes = bytes' })
evict size (e ∷ es) bytes' =
    let rest = evict size es (bytes' - e.byte_length) in
    if ltb max_bytes (bytes' + size)
    then rest
    else some (record { entries = e ∷ es; bytes = bytes' })

-- Lines 59 to 67, after a download.
unfoldable pub store : Entry → ChunkCache → Option ChunkCache
unfolding evict set
store e cache =
    if leb e.byte_length max_bytes
    then elim (evict e.byte_length cache.entries cache.bytes) [
      | none ↦ none
      | some room ↦
          some (record { entries = set e room.entries; bytes = room.bytes + e.byte_length })
    ]
    else some cache

-- Lines 69 and 70, for a chunk that is there: it becomes the newest.
unfoldable pub refresh : Entry → ChunkCache → ChunkCache
unfolding delete set
refresh e cache = record cache { entries = set e (delete e.url cache.entries) }

-- A call of the loader that runs to its end before the next: `downloaded` is the size of the chunk
-- that a download would give.
unfoldable pub load : String → ℕ → ChunkCache → Option ChunkCache
unfolding find store refresh
load url' downloaded cache = elim (find (λ e. e.url === url') cache.entries) [
  | none ↦ store (record { url = url'; byte_length = downloaded }) cache
  | some e ↦ some (refresh e cache)
]
