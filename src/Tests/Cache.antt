-- ===== src/Tests/Cache.antt =====
-- The chunk cache of the demo (frontend/src/simulation/demoPlayback.ts).
use sih.Prelude.{arith, ◌<◌, ◌≡◌, ◌⊎◌, refl, true, some, [], ◌∷◌, filter, find, any}
use sih.Simulation.ChunkCache.{ChunkCache, max_bytes, is_cached, load, store, evict, set}
use sih.Simulation.ChunkCache.Laws.{IsSound, load-IsSound}

-- Two chunks of 8 MB each.
abbrev full : ChunkCache
full = record {
  entries =
      record { url = "/demo/a.json.gz"; byte_length = 8000000 }
      ∷ record { url = "/demo/b.json.gz"; byte_length = 8000000 }
      ∷ [];
  bytes = 16000000;
}

-- A third chunk takes the place of the oldest.
oldest_leaves :
    load "/demo/c.json.gz" 8000000 full
    ≡ some (record {
      entries =
          record { url = "/demo/b.json.gz"; byte_length = 8000000 }
          ∷ record { url = "/demo/c.json.gz"; byte_length = 8000000 }
          ∷ [];
      bytes = 16000000;
    })
unfolding load store evict set find any filter
oldest_leaves = refl

full-IsSound : IsSound full
unfolding is_cached any
full-IsSound = record { counted = refl; bounded = omega arith; distinct = (refl, (refl, tt)) }

load-IsSound_example :
    (c : ChunkCache) × (load "/demo/c.json.gz" 8000000 full ≡ some c)
    × IsSound c
    × ((is_cached "/demo/c.json.gz" c.entries ≡ true) ⊎ (max_bytes < 8000000))
load-IsSound_example = load-IsSound "/demo/c.json.gz" 8000000 full full-IsSound
