-- ===== src/Simulation/ChunkCache/Entries.antt =====
-- demoPlayback.ts: the entries of the chunk cache, a map that holds a key once.
use sih.Prelude.{
  ℕ, ◌+◌, ◌≡◌, inl, inr, refl, sym, ap, ◌∙◌, subst, true, false, ◌||◌, String, List, [], ◌∷◌, ◌++◌,
  Memᴰ, arith, Bool-cases, filter, any, any-mem, ◌===◌, eq_iff, eq_refl,
}
use sih.Simulation.ChunkCache.{Entry, is_cached, delete, set}

abbrev pub total : List Entry → ℕ
total [] = 0
total (e ∷ es) = e.byte_length + total es

-- A map holds a key once.
abbrev pub IsDistinct : List Entry → Type 0
IsDistinct [] = Unit
IsDistinct (e ∷ es) = (is_cached e.url es ≡ false) × IsDistinct es

pub total-append : (es ds : List Entry) → total (es ++ ds) ≡ total es + total ds
total-append [] ds = omega arith
total-append (e ∷ es) ds = omega (arith, total-append es ds)

pub is_cached-append :
    (url : String) (es : List Entry) (d : Entry)
    → is_cached url (es ++ (d ∷ [])) ≡ (is_cached url es || d.url === url)
unfolding is_cached any
is_cached-append url [] d = ground arith
is_cached-append url (e ∷ es) d = ground (arith, is_cached-append url es d)

same_key : (a b : String) → a ≡ b → (a === b) ≡ true
same_key a b e = (eq_iff a b).1 e

other_way : (a b : String) → (a === b) ≡ false → (b === a) ≡ false
other_way a b h = elim (Bool-cases (b === a)) [
  | inl e ↦ absurd (cc (same_key a b (sym ((eq_iff b a).0 e)), h))
  | inr e ↦ e
]

pub apart :
    (e : Entry) (es : List Entry) (url : String)
    → is_cached url (e ∷ es) ≡ false
    → ((e.url === url) ≡ false) × (is_cached url es ≡ false)
unfolding is_cached any
apart e es url k = (ground arith, ground arith)

pub IsDistinct-append :
    (es : List Entry) (d : Entry)
    → IsDistinct es
    → is_cached d.url es ≡ false
    → IsDistinct (es ++ (d ∷ []))
IsDistinct-append [] d h k = (unfold is_cached any in refl, tt)
IsDistinct-append (e ∷ es) d (new, h) k =
    let (first, rest) = apart e es d.url k in
    (
      is_cached-append e.url es d ∙ ground (arith, new, other_way e.url d.url first),
      IsDistinct-append es d h rest,
    )

pub set_new : (e : Entry) (es : List Entry) → is_cached e.url es ≡ false → set e es ≡ es ++ (e ∷ [])
unfolding set is_cached any
set_new e [] h = refl
set_new e (d ∷ ds) h = ground (arith, set_new e ds)

delete_head :
    (url : String) (e : Entry) (es : List Entry)
    → (e.url === url) ≡ true
    → delete url (e ∷ es) ≡ delete url es
unfolding delete filter
delete_head url e es h = rw h refl

delete_tail :
    (url : String) (e : Entry) (es : List Entry)
    → (e.url === url) ≡ false
    → delete url (e ∷ es) ≡ e ∷ delete url es
unfolding delete filter
delete_tail url e es h = rw h refl

is_cached-cons :
    (url : String) (e : Entry) (es : List Entry)
    → is_cached url (e ∷ es) ≡ (e.url === url || is_cached url es)
unfolding is_cached any
is_cached-cons url e es = refl

is_cached-mem : (e : Entry) (es : List Entry) → Memᴰ e es → is_cached e.url es ≡ true
unfolding is_cached
is_cached-mem e es m = any-mem (λ d. d.url === e.url) es m (eq_refl e.url)

delete_absent : (url : String) (es : List Entry) → is_cached url es ≡ false → delete url es ≡ es
delete_absent url [] h = unfold delete filter in refl
delete_absent url (e ∷ es) h =
    let (first, rest) = apart e es url h in
    delete_tail url e es first ∙ ap (λ ds. e ∷ ds) (delete_absent url es rest)

is_cached-delete :
    (url key : String) (es : List Entry)
    → is_cached key es ≡ false
    → is_cached key (delete url es) ≡ false
is_cached-delete url key [] h = unfold delete filter in h
is_cached-delete url key (e ∷ es) h =
    let (first, rest) = apart e es key h in
    let later = is_cached-delete url key es rest in
    elim (Bool-cases (e.url === url)) [
      | inl same ↦ ap (is_cached key) (delete_head url e es same) ∙ later
      | inr other ↦
          ap (is_cached key) (delete_tail url e es other)
          ∙ is_cached-cons key e (delete url es)
          ∙ ground (arith, first, later)
    ]

pub deleted : (url : String) (es : List Entry) → is_cached url (delete url es) ≡ false
deleted url [] = unfold delete filter is_cached any in refl
deleted url (e ∷ es) = elim (Bool-cases (e.url === url)) [
  | inl same ↦ ap (is_cached url) (delete_head url e es same) ∙ deleted url es
  | inr other ↦
      ap (is_cached url) (delete_tail url e es other)
      ∙ is_cached-cons url e (delete url es)
      ∙ ground (arith, other, deleted url es)
]

pub IsDistinct-delete :
    (url : String) (es : List Entry) → IsDistinct es → IsDistinct (delete url es)
IsDistinct-delete url [] d = unfold delete filter in tt
IsDistinct-delete url (e ∷ es) (new, d) = elim (Bool-cases (e.url === url)) [
  | inl same ↦ subst IsDistinct (sym (delete_head url e es same)) (IsDistinct-delete url es d)
  | inr other ↦
      subst IsDistinct (sym (delete_tail url e es other))
        (is_cached-delete url e.url es new, IsDistinct-delete url es d)
]

pub total-delete :
    (e : Entry) (es : List Entry)
    → Memᴰ e es
    → IsDistinct es
    → total (delete e.url es) + e.byte_length ≡ total es
total-delete e [] m d = elim m [ ]
total-delete e (x ∷ xs) (Memᴰ.head same) (new, d) =
    let key : x.url ≡ e.url = ap (λ y. y.url) (sym same) in
    let gone : delete e.url (x ∷ xs) ≡ xs =
      delete_head e.url x xs (same_key x.url e.url key)
      ∙ delete_absent e.url xs (subst (λ u. is_cached u xs ≡ false) key new) in
    let size : e.byte_length ≡ x.byte_length = ap (λ y. y.byte_length) same in
    omega (arith, ap total gone, size)
total-delete e (x ∷ xs) (Memᴰ.tail m) (new, d) =
    let other : (x.url === e.url) ≡ false = differ in
    omega (arith, ap total (delete_tail e.url x xs other), total-delete e xs m d)
  where
    differ : (x.url === e.url) ≡ false
    differ = elim (Bool-cases (x.url === e.url)) [
      | inr miss ↦ miss
      | inl hit ↦
          let clash = subst (λ u. is_cached u xs ≡ false) ((eq_iff x.url e.url).0 hit) new in
          absurd (cc (is_cached-mem e xs m, clash))
    ]
