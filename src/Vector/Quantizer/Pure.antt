-- ===== src/Vector/Quantizer/Pure.antt =====
-- The quantizer on vectors that are long enough: nothing is out of range, and what its loops come to
-- is written as functions.
use native.Mathlib.Nat.{mul-le-mul_right}
use odyssey_tasks.Prelude.{
  ℕ, zero, suc, ◌+◌, ◌*◌, ◌≤◌, ◌<◌, ◌≡◌, refl, List, [], ◌∷◌, ◌++◌, length, take, drop,
  if◌then◌else◌, length-take, length-drop, arith,
}
use odyssey_tasks.Prelude.Outcome.{ok}
use odyssey_tasks.Vector.Float.{Float}
use odyssey_tasks.Vector.Simd.{
  subspan, reduce, square_step, square_term, l2_distance, measure, table_row,
}
use odyssey_tasks.Vector.Quantizer.{
  ProductQuantizer, get_elem, pointed, centroid_distance, nearest_loop,
}

-- `f k`, `f (k + 1)` and so on.
unfoldable pub tabulate : {A : Type 0} → ℕ → ℕ → (ℕ → A) → List A
tabulate zero k f = []
tabulate (suc rounds) k f = f k ∷ tabulate rounds (suc k) f

pub length-tabulate :
    {A : Type 0} (rounds k : ℕ) (f : ℕ → A) → length (tabulate rounds k f) ≡ rounds
unfolding tabulate
length-tabulate zero k f = refl
length-tabulate (suc rounds) k f = omega (arith, length-tabulate rounds (suc k) f)

pub subspan-ok :
    {A : Type 0} (offset count : ℕ) (xs : List A)
    → offset + count ≤ length xs
    → subspan offset count xs ≡ ok (take count (drop offset xs))
unfolding subspan
subspan-ok offset count xs h = ground arith

pub pointed-ok :
    {A : Type 0} (offset count : ℕ) (xs : List A)
    → 0 < count
    → offset + count ≤ length xs
    → pointed offset count xs ≡ ok (take count (drop offset xs))
unfolding pointed
pointed-ok offset count xs some h = ground arith

pub length-slice :
    {A : Type 0} (offset count : ℕ) (xs : List A)
    → offset + count ≤ length xs
    → length (take count (drop offset xs)) ≡ count
length-slice offset count xs h =
    omega (arith, length-take count (drop offset xs), length-drop offset xs)

pub get_elem-append :
    {A : Type 0} (xs ys : List A) (i : ℕ) → get_elem (length xs + i) (xs ++ ys) ≡ get_elem i ys
unfolding get_elem
get_elem-append [] ys i = rw (e) refl
  where
    e : 0 + i ≡ i
    e = omega arith
get_elem-append (x ∷ xs) ys i = rw (e) (get_elem-append xs ys i)
  where
    e : suc (length xs) + i ≡ suc (length xs + i)
    e = omega arith

pub get_elem-append_left :
    {A : Type 0} (xs ys : List A) (i : ℕ) → i < length xs → get_elem i (xs ++ ys) ≡ get_elem i xs
unfolding get_elem
get_elem-append_left [] ys i h = absurd (omega arith)
get_elem-append_left (x ∷ xs) ys zero h = refl
get_elem-append_left (x ∷ xs) ys (suc i) h = get_elem-append_left xs ys i (omega arith)

pub get_elem-tabulate :
    {A : Type 0} (rounds k i : ℕ) (f : ℕ → A)
    → i < rounds
    → get_elem i (tabulate rounds k f) ≡ ok (f (k + i))
unfolding get_elem tabulate
get_elem-tabulate zero k i f h = absurd (omega arith)
get_elem-tabulate (suc rounds) k zero f h = rw (e) refl
  where
    e : k + 0 ≡ k
    e = omega arith
get_elem-tabulate (suc rounds) k (suc i) f h =
    rw (e) (get_elem-tabulate rounds (suc k) i f (omega arith))
  where
    e : k + suc i ≡ suc k + i
    e = omega arith

-- Cell `k` of row `m` lies in a table of `rows` rows.
pub cell_inside :
    (rows columns width m k : ℕ)
    → m < rows
    → k < columns
    → (m * columns + k) * width + width ≤ rows * columns * width
cell_inside rows columns width m k hm hk =
    let below : suc m * columns ≤ rows * columns = mul-le-mul_right columns hm in
    let next : suc (m * columns + k) ≤ rows * columns = omega arith in
    omega (arith, mul-le-mul_right width next)

module _ (F : Float) where
  abbrev pub Vector : Type 0
  Vector = List F.carrier

  -- There is a cell for each number of each centroid.
  pub record IsWellFormed (q : ProductQuantizer F) : Type 0 where
    pub centroids_full : length q.centroids ≡ q.num_subspaces * q.num_centroids * q.sub_dim

  -- The vector has all parts.
  abbrev pub Covers : ProductQuantizer F → Vector → Type 0
  Covers q v = q.num_subspaces * q.sub_dim ≤ length v

  module _ (q : ProductQuantizer F) where
    abbrev pub part_of : Vector → ℕ → Vector
    part_of v m = take q.sub_dim (drop (m * q.sub_dim) v)

    abbrev pub centroid : ℕ → ℕ → Vector
    centroid m k = take q.sub_dim (drop ((m * q.num_centroids + k) * q.sub_dim) q.centroids)

    -- The squared distance of a part from a centroid.
    unfoldable pub part_distance : Vector → ℕ → ℕ → F.carrier
    unfolding reduce
    part_distance part m k = reduce F (square_step F) (square_term F) part (centroid m k)

    -- The number of the nearest centroid, from `k` on.
    unfoldable pub nearest : Vector → ℕ → ℕ → ℕ → F.carrier → ℕ → ℕ
    unfolding part_distance
    nearest part m zero k best_dist best_k = best_k
    nearest part m (suc rounds) k best_dist best_k =
        nearest part m rounds (suc k)
          (if F.less (part_distance part m k) best_dist then part_distance part m k else best_dist)
          (if F.less (part_distance part m k) best_dist then k else best_k)

    unfoldable pub code_at : Vector → ℕ → ℕ
    unfolding nearest
    code_at v m = nearest (part_of v m) m q.num_centroids 0 F.largest 0

    unfoldable pub code_of : Vector → List ℕ
    unfolding code_at tabulate
    code_of v = tabulate q.num_subspaces 0 (code_at v)

    -- The sum of the distances of a vector's parts from the centroids that a code names.
    unfoldable pub sum_from : Vector → ℕ → List ℕ → F.carrier → F.carrier
    unfolding part_distance
    sum_from v m [] dist = dist
    sum_from v m (c ∷ code) dist =
        sum_from v (suc m) code (F.add dist (part_distance (part_of v m) m c))

    unfoldable pub distance_to_code : Vector → List ℕ → F.carrier
    unfolding sum_from
    distance_to_code v code = sum_from v 0 code (F.of_nat 0)

    module _ (w : IsWellFormed q) where
      pub measure-ok :
          (part : Vector) (m k : ℕ)
          → length part ≡ q.sub_dim
          → m < q.num_subspaces
          → k < q.num_centroids
          → measure F q.centroids q.sub_dim q.num_centroids m k part ≡ ok (part_distance part m k)
      unfolding measure l2_distance part_distance
      measure-ok part m k long hm hk =
          let inside : (m * q.num_centroids + k) * q.sub_dim + q.sub_dim ≤ length q.centroids =
            rw w.centroids_full (cell_inside q.num_subspaces q.num_centroids q.sub_dim m k hm hk) in
          rw (subspan-ok ((m * q.num_centroids + k) * q.sub_dim) q.sub_dim q.centroids inside) (
            ground
              (arith, length-slice ((m * q.num_centroids + k) * q.sub_dim) q.sub_dim q.centroids))

      pub table_row-ok :
          (part : Vector) (m rounds k : ℕ)
          → length part ≡ q.sub_dim
          → m < q.num_subspaces
          → k + rounds ≤ q.num_centroids
          → table_row F q.centroids q.sub_dim q.num_centroids m rounds k part
            ≡ ok (tabulate rounds k (part_distance part m))
      unfolding table_row tabulate
      table_row-ok part m zero k long hm hk = refl
      table_row-ok part m (suc rounds) k long hm hk = rw (
        measure-ok part m k long hm (omega arith),
        table_row-ok part m rounds (suc k) long hm (omega arith),
      )

      centroid_distance-ok :
          (part : Vector) (m k : ℕ)
          → 0 < q.sub_dim
          → length part ≡ q.sub_dim
          → m < q.num_subspaces
          → k < q.num_centroids
          → centroid_distance F q m k part ≡ ok (part_distance part m k)
      unfolding centroid_distance l2_distance part_distance
      centroid_distance-ok part m k some_dim long hm hk =
          let inside : (m * q.num_centroids + k) * q.sub_dim + q.sub_dim ≤ length q.centroids =
            rw w.centroids_full (cell_inside q.num_subspaces q.num_centroids q.sub_dim m k hm hk) in
          rw
            (pointed-ok ((m * q.num_centroids + k) * q.sub_dim) q.sub_dim q.centroids some_dim
              inside)
            (ground
              (arith, length-slice ((m * q.num_centroids + k) * q.sub_dim) q.sub_dim q.centroids))

      pub nearest_loop-ok :
          (cast : ℕ → ℕ) (part : Vector) (m rounds k : ℕ) (best_dist : F.carrier) (best_k : ℕ)
          → ((j : ℕ) → j < q.num_centroids → cast j ≡ j)
          → 0 < q.sub_dim
          → length part ≡ q.sub_dim
          → m < q.num_subspaces
          → k + rounds ≤ q.num_centroids
          → nearest_loop F cast q m part rounds k best_dist best_k
            ≡ ok (nearest part m rounds k best_dist best_k)
      unfolding nearest_loop nearest
      nearest_loop-ok cast part m zero k best_dist best_k whole some_dim long hm hk = refl
      nearest_loop-ok cast part m (suc rounds) k best_dist best_k whole some_dim long hm hk =
          rw (centroid_distance-ok part m k some_dim long hm (omega arith), whole k (omega arith))
            (nearest_loop-ok cast part m rounds (suc k) _ _ whole some_dim long hm (omega arith))
