-- ===== src/Simulation/ChunkCache/Laws.antt =====
-- demoPlayback.ts: the chunk cache counts its bytes and keeps to its limit.
use sih.Prelude.{
  ℕ, ◌+◌, ◌-◌, ◌≤◌, ◌<◌, ◌≡◌, ◌⊎◌, inl, inr, refl, sym, ap, ◌∙◌, subst, true, false, String, List,
  [], ◌∷◌, none, some, Memᴰ, arith, Bool-cases, Option-cases, find, find_sound, find-none, ltb, leb,
  ◌===◌, eq_iff, eq_refl,
}
use sih.Simulation.ChunkCache.{
  Entry, ChunkCache, max_bytes, is_cached, delete, set, evict, store, refresh, load,
}
use sih.Simulation.ChunkCache.Entries.{
  total, IsDistinct, total-append, is_cached-append, apart, IsDistinct-append, set_new, deleted,
  IsDistinct-delete, total-delete,
}

-- The count of bytes is that of the entries, within the limit, and no key stands twice.
pub record IsSound (cache : ChunkCache) : Type 0 where
  pub counted : cache.bytes ≡ total cache.entries
  pub bounded : cache.bytes ≤ max_bytes
  pub distinct : IsDistinct cache.entries

-- What the eviction leaves.
record HasRoom (size : ℕ) (es : List Entry) (room : ChunkCache) : Type 0 where
  counted : room.bytes ≡ total room.entries
  fits : room.bytes + size ≤ max_bytes
  distinct : IsDistinct room.entries
  fewer : (url : String) → is_cached url es ≡ false → is_cached url room.entries ≡ false

evict_lem :
    (size : ℕ) (es : List Entry) (bytes : ℕ)
    → size ≤ max_bytes
    → bytes ≡ total es
    → IsDistinct es
    → (room : ChunkCache) × (evict size es bytes ≡ some room) × HasRoom size es room
unfolding evict
evict_lem size [] bytes small h distinct =
    let fits : ltb max_bytes (bytes + size) ≡ false = ground arith in
    (
      record { entries = []; bytes = bytes },
      rw fits refl,
      record { counted = h; fits = ground arith; distinct = tt; fewer = λ url k. k },
    )
evict_lem size (e ∷ es) bytes small h (new, distinct) =
    elim (Bool-cases (ltb max_bytes (bytes + size))) [
      | inl over ↦
          let (room, e', r) =
            evict_lem size es (bytes - e.byte_length) small (omega arith) distinct in
          (
            room,
            rw over e',
            record {
              counted = r.counted;
              fits = r.fits;
              distinct = r.distinct;
              fewer = λ url k. r.fewer url (apart e es url k).1;
            },
          )
      | inr under ↦ (
        record { entries = e ∷ es; bytes = bytes },
        rw under refl,
        record { counted = h; fits = ground arith; distinct = (new, distinct); fewer = λ url k. k },
      )
    ]

-- Adding a new key at the end, within the limit.
push-IsSound :
    (e : Entry) (es : List Entry) (bytes : ℕ)
    → bytes ≡ total es + e.byte_length
    → bytes ≤ max_bytes
    → IsDistinct es
    → is_cached e.url es ≡ false
    → IsSound (record { entries = set e es; bytes = bytes })
push-IsSound e es bytes count bound distinct new =
    subst (λ ds. IsSound (record { entries = ds; bytes = bytes })) (sym (set_new e es new))
      (record {
        counted = omega (arith, total-append es (e ∷ []));
        bounded = bound;
        distinct = IsDistinct-append es e distinct new;
      })

set-cached :
    (e : Entry) (es : List Entry) → is_cached e.url es ≡ false → is_cached e.url (set e es) ≡ true
set-cached e es new =
    ap (is_cached e.url) (set_new e es new)
    ∙ is_cached-append e.url es e
    ∙ ground (arith, eq_refl e.url)

store_lem :
    (e : Entry) (cache : ChunkCache)
    → IsSound cache
    → is_cached e.url cache.entries ≡ false
    → (c : ChunkCache) × (store e cache ≡ some c)
      × IsSound c
      × ((is_cached e.url c.entries ≡ true) ⊎ (max_bytes < e.byte_length))
unfolding store
store_lem e cache s new = elim (Bool-cases (leb e.byte_length max_bytes)) [
  | inl small ↦
      let (room, found, r) =
        evict_lem e.byte_length cache.entries cache.bytes (ground arith) s.counted s.distinct in
      let absent = r.fewer e.url new in
      (
        record { entries = set e room.entries; bytes = room.bytes + e.byte_length },
        rw (small, found) refl,
        push-IsSound e room.entries (room.bytes + e.byte_length) (omega (arith, r.counted)) r.fits
            r.distinct absent,
        inl (set-cached e room.entries absent),
      )
  | inr large ↦ (cache, rw large refl, s, inr (ground arith))
]

refresh_lem :
    (e : Entry) (cache : ChunkCache)
    → IsSound cache
    → Memᴰ e cache.entries
    → IsSound (refresh e cache) × (is_cached e.url (refresh e cache).entries ≡ true)
unfolding refresh
refresh_lem e cache s m =
    let gone = deleted e.url cache.entries in
    (
      push-IsSound e (delete e.url cache.entries) cache.bytes
          (omega (arith, s.counted, total-delete e cache.entries m s.distinct)) s.bounded
          (IsDistinct-delete e.url cache.entries s.distinct) gone,
      set-cached e (delete e.url cache.entries) gone,
    )

find_none_lem :
    (url : String) (es : List Entry)
    → find (λ e. e.url === url) es ≡ none
    → is_cached url es ≡ false
unfolding is_cached
find_none_lem url es h = find-none (λ e. e.url === url) es h

load_missed :
    (url : String) (downloaded : ℕ) (cache : ChunkCache)
    → find (λ e. e.url === url) cache.entries ≡ none
    → load url downloaded cache ≡ store (record { url = url; byte_length = downloaded }) cache
unfolding load
load_missed url downloaded cache e = rw (e, load) refl

load_found :
    (url : String) (downloaded : ℕ) (cache : ChunkCache) (d : Entry)
    → find (λ e. e.url === url) cache.entries ≡ some d
    → load url downloaded cache ≡ some (refresh d cache)
unfolding load
load_found url downloaded cache d e = rw (e, load) refl

-- A load on a cache whose byte count is that of its entries, within the limit and with no key
-- twice, never fails for lack of an entry to evict, and leaves such a cache; the chunk is in it,
-- unless it is new and larger than the limit.
pub load-IsSound :
    (url : String) (downloaded : ℕ) (cache : ChunkCache)
    → IsSound cache
    → (c : ChunkCache) × (load url downloaded cache ≡ some c)
      × IsSound c
      × ((is_cached url c.entries ≡ true) ⊎ (max_bytes < downloaded))
load-IsSound url downloaded cache s =
    elim (Option-cases (find (λ e. e.url === url) cache.entries)) [
      | inl e ↦
          let (c, found, sound, there) =
            store_lem (record { url = url; byte_length = downloaded }) cache s
              (find_none_lem url cache.entries e) in
          (c, load_missed url downloaded cache e ∙ found, sound, there)
      | inr (d, e) ↦
          let (holds, m) = find_sound (λ d. d.url === url) cache.entries e in
          let (sound, there) = refresh_lem d cache s m in
          let key : d.url ≡ url = (eq_iff d.url url).0 holds in
          (
            refresh d cache,
            load_found url downloaded cache d e,
            sound,
            inl (subst (λ u. is_cached u (refresh d cache).entries ≡ true) key there),
          )
    ]
