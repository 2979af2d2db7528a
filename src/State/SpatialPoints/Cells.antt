-- ===== src/State/SpatialPoints/Cells.antt =====
-- spatialPoints.ts: the cells of the display hold one point each.
use sih.Prelude.{
  ◌≤◌, max, ◌≡◌, refl, sym, ap, subst, ◌⊎◌, String, Bool, List, [], ◌∷◌, map, some, if◌then◌else◌,
  find, ◌===◌, eq_iff, eq_refl, arith, Bool-cases, Option-cases, inl, inr, All, All-imp, All-map,
  All-tabulate, Memᴰ,
}
use sih.Prelude.Counting.{count_if}
use sih.Prelude.Runtime.{Runtime}
use sih.State.World.{SpatialPoint}
use sih.State.SpatialPoints.{
  Cell, put, keep_newest, fill_cells, newest_points, spatial_point_cell_key,
}

module _ (js : Runtime) where
  open js use {le}

  -- Is the cell, or the cell of the point, the one with this key?
  abbrev pub is_cell : String → Cell js → Bool
  is_cell key c = c.key === key

  abbrev pub is_in : String → SpatialPoint js → Bool
  is_in key p = spatial_point_cell_key js p === key

  count_if-put :
      (k key : String) (p : SpatialPoint js) (cells : List (Cell js))
      → count_if (is_cell k) (put js key p cells)
        ≡ (if key === k then max 1 (count_if (is_cell k) cells) else count_if (is_cell k) cells)
  unfolding put count_if
  count_if-put k key p [] = ground arith
  count_if-put k key p (c ∷ cells) = elim (Bool-cases (c.key === key)) [
    | inl e ↦
        let swap : (c.key === k) ≡ (key === k) = ap (λ t. t === k) ((eq_iff c.key key).0 e) in
        ground (arith, swap)
    | inr e ↦ elim (Bool-cases (key === k)) [
      | inl f ↦
          let swap : (c.key === k) ≡ (c.key === key) =
            ap (λ t. c.key === t) (sym ((eq_iff key k).0 f)) in
          ground (arith, swap, count_if-put k key p cells)
      | inr f ↦ ground (arith, count_if-put k key p cells)
    ]
  ]

  All-put {κ} :
      (P : Cell js → Type κ) (key : String) (p : SpatialPoint js) (cells : List (Cell js))
      → P (record { key = key; point = p })
      → All P cells
      → All P (put js key p cells)
  unfolding put
  All-put P key p [] q h = (q, tt)
  All-put P key p (c ∷ cells) q (r, h) = elim (Bool-cases (c.key === key)) [
    | inl e ↦ rw e (q, h)
    | inr e ↦ rw e (r, All-put P key p cells q h)
  ]

  -- Every cell holds a point that satisfies `P` under that point's key, and no key is there twice.
  pub record IsGrid {κ} (P : SpatialPoint js → Type κ) (cells : List (Cell js)) : Type κ where
    pub keyed : All (λ c. (c.key ≡ spatial_point_cell_key js c.point) × P c.point) cells
    pub single : (k : String) → count_if (is_cell k) cells ≤ 1

  put-IsGrid {κ} :
      (P : SpatialPoint js → Type κ) (p : SpatialPoint js) (cells : List (Cell js))
      → P p
      → IsGrid P cells
      → IsGrid P (put js (spatial_point_cell_key js p) p cells)
  put-IsGrid P p cells q g = record {
    keyed = All-put _ (spatial_point_cell_key js p) p cells (refl, q) g.keyed;
    single = λ k. ground (arith, count_if-put k (spatial_point_cell_key js p) p cells, g.single k);
  }

  count_if-find :
      (k : String) (cells : List (Cell js)) {c : Cell js}
      → find (is_cell k) cells ≡ some c
      → 1 ≤ count_if (is_cell k) cells
  unfolding find count_if
  count_if-find k [] h = absurd (cc)
  count_if-find k (c ∷ cells) h = elim (Bool-cases (is_cell k c)) [
    | inl e ↦ ground arith
    | inr e ↦ ground (arith, count_if-find k cells (rw e at h))
  ]

  -- A point takes its cell, or the cell is held already.
  keep_newest-cases :
      (p : SpatialPoint js) (cells : List (Cell js))
      → let key = spatial_point_cell_key js p in
        (keep_newest js p cells ≡ put js key p cells)
        ⊎ ((keep_newest js p cells ≡ cells) × (1 ≤ count_if (is_cell key) cells))
  unfolding keep_newest put
  keep_newest-cases p cells =
      elim (Option-cases (find (λ c. c.key === spatial_point_cell_key js p) cells)) [
        | inl e ↦ inl (rw (e, keep_newest) refl)
        | inr (c, e) ↦ elim (Bool-cases (le c.point.timestamp_ms p.timestamp_ms)) [
          | inl newer ↦ inl (rw (e, newer, keep_newest) refl)
          | inr older ↦
              inr (
                rw (e, older, keep_newest) refl,
                count_if-find (spatial_point_cell_key js p) cells e,
              )
        ]
      ]

  keep_newest-IsGrid {κ} :
      (P : SpatialPoint js → Type κ) (p : SpatialPoint js) (cells : List (Cell js))
      → P p
      → IsGrid P cells
      → IsGrid P (keep_newest js p cells)
  keep_newest-IsGrid P p cells q g = elim (keep_newest-cases p cells) [
    | inl e ↦ subst (IsGrid P) (sym e) (put-IsGrid P p cells q g)
    | inr (e, _) ↦ subst (IsGrid P) (sym e) g
  ]

  pub fill_cells-IsGrid {κ} :
      (P : SpatialPoint js → Type κ) (points : List (SpatialPoint js)) (cells : List (Cell js))
      → All P points
      → IsGrid P cells
      → IsGrid P (fill_cells js points cells)
  unfolding fill_cells
  fill_cells-IsGrid P [] cells h g = g
  fill_cells-IsGrid P (p ∷ points) cells (q, h) g =
      fill_cells-IsGrid P points (keep_newest js p cells) h (keep_newest-IsGrid P p cells q g)

  -- A cell is held as long as points come, and a point's own cell is held once it has come.
  keep_newest_keeps :
      (k : String) (p : SpatialPoint js) (cells : List (Cell js))
      → (1 ≤ count_if (is_cell k) cells → 1 ≤ count_if (is_cell k) (keep_newest js p cells))
        × (1 ≤ count_if (is_cell (spatial_point_cell_key js p)) (keep_newest js p cells))
  keep_newest_keeps k p cells =
      let key = spatial_point_cell_key js p in
      elim (keep_newest-cases p cells) [
        | inl e ↦ rw e (
          λ h. ground (arith, count_if-put k key p cells),
          ground (arith, count_if-put key key p cells, eq_refl key),
        )
        | inr (e, held) ↦ rw e (λ h. h, held)
      ]

  fill_cells_keeps :
      (k : String) (points : List (SpatialPoint js)) (cells : List (Cell js))
      → 1 ≤ count_if (is_cell k) cells
      → 1 ≤ count_if (is_cell k) (fill_cells js points cells)
  unfolding fill_cells
  fill_cells_keeps k [] cells h = h
  fill_cells_keeps k (p ∷ points) cells h =
      fill_cells_keeps k points (keep_newest js p cells) ((keep_newest_keeps k p cells).0 h)

  fill_cells_covers :
      {p : SpatialPoint js} (points : List (SpatialPoint js)) (cells : List (Cell js))
      → Memᴰ p points
      → 1 ≤ count_if (is_cell (spatial_point_cell_key js p)) (fill_cells js points cells)
  unfolding fill_cells
  fill_cells_covers [] cells m = elim m [ ]
  fill_cells_covers {p} (q ∷ points) cells (Memᴰ.head e) =
      let key : spatial_point_cell_key js q ≡ spatial_point_cell_key js p =
        ap (spatial_point_cell_key js) (sym e) in
      subst (λ k. 1 ≤ count_if (is_cell k) (fill_cells js (q ∷ points) cells)) key
        (fill_cells_keeps (spatial_point_cell_key js q) points (keep_newest js q cells)
          (keep_newest_keeps (spatial_point_cell_key js q) q cells).1)
  fill_cells_covers (q ∷ points) cells (Memᴰ.tail m) =
      fill_cells_covers points (keep_newest js q cells) m

  -- Counted by the points instead of by the entries.
  count_if-points :
      (k : String) (cells : List (Cell js))
      → All (λ c. (c.key ≡ spatial_point_cell_key js c.point) × Unit {0}) cells
      → count_if (is_in k) (map (λ c. c.point) cells) ≡ count_if (is_cell k) cells
  unfolding count_if
  count_if-points k [] h = refl
  count_if-points k (c ∷ cells) ((e, _), h) =
      let swap : (c.key === k) ≡ is_in k c.point = ap (λ t. t === k) e in
      ground (arith, swap, count_if-points k cells h)

  all_points : (points : List (SpatialPoint js)) → IsGrid {0} (λ _. Unit) (fill_cells js points [])
  all_points points =
      fill_cells-IsGrid {0} (λ _. Unit) points [] (All-tabulate _ points (λ _. tt))
        (record { keyed = tt; single = λ k. unfold count_if in omega arith })

  -- Of the newest points no two are in one cell, and each point's cell has one.
  pub newest_points_single :
      (points : List (SpatialPoint js)) (k : String)
      → count_if (is_in k) (newest_points js points) ≤ 1
  unfolding newest_points
  newest_points_single points k =
      let g = all_points points in
      omega (arith, count_if-points k (fill_cells js points []) g.keyed, g.single k)

  pub newest_points_cover :
      {p : SpatialPoint js} (points : List (SpatialPoint js))
      → Memᴰ p points
      → count_if (is_in (spatial_point_cell_key js p)) (newest_points js points) ≡ 1
  unfolding newest_points
  newest_points_cover {p} points m =
      let g = all_points points in
      let k = spatial_point_cell_key js p in
      omega (
        arith,
        count_if-points k (fill_cells js points []) g.keyed,
        g.single k,
        fill_cells_covers points [] m,
      )

  pub All-newest_points {κ} :
      (P : SpatialPoint js → Type κ) (points : List (SpatialPoint js))
      → All P points
      → All P (newest_points js points)
  unfolding newest_points
  All-newest_points P points h =
      let g =
        fill_cells-IsGrid P points [] h
          (record { keyed = tt; single = λ k. unfold count_if in omega arith }) in
      All-map P (λ c. c.point) (fill_cells js points [])
        (All-imp _ (fill_cells js points []) (λ c (_, q). q) g.keyed)
