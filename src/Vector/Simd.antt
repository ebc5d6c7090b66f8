-- ===== src/Vector/Simd.antt =====
-- simd_ops.cpp: distances and products in eight lanes, and the table of a query. `fault` is an index
-- or a `subspan` beyond the end.
pub mod Exact
use odyssey_tasks.Prelude.{
  ℕ, zero, suc, ◌+◌, ◌*◌, ◌/◌, List, [], ◌∷◌, ◌++◌, length, take, drop, replicate, ltb, leb,
  if◌then◌else◌,
}
use odyssey_tasks.Prelude.Outcome.{Outcome, ok, fault, ◌>>=◌}
use odyssey_tasks.Vector.Float.{Float}

-- `span.subspan(offset, count)`
unfoldable pub subspan : {A : Type 0} → ℕ → ℕ → List A → Outcome (List A)
subspan offset count xs =
    if leb (offset + count) (length xs) then ok (take count (drop offset xs)) else fault

module _ (F : Float) where
  -- One instruction over all lanes.
  unfoldable pub lanes :
      (F.carrier → F.carrier → F.carrier → F.carrier)
      → List F.carrier
      → List F.carrier
      → List F.carrier
      → List F.carrier
  lanes step (x ∷ xs) (y ∷ ys) (s ∷ sums) = step x y s ∷ lanes step xs ys sums
  lanes step (x ∷ xs) (y ∷ ys) [] = []
  lanes step (x ∷ xs) [] sums = sums
  lanes step [] ys sums = sums

  -- The loop over groups of eight.
  unfoldable pub vector_loop :
      (F.carrier → F.carrier → F.carrier → F.carrier)
      → ℕ
      → List F.carrier
      → List F.carrier
      → List F.carrier
      → List F.carrier
  vector_loop step zero a b sums = sums
  vector_loop step (suc rounds) a b sums =
      vector_loop step rounds (drop 8 a) (drop 8 b) (lanes step (take 8 a) (take 8 b) sums)

  unfoldable pub add_all : F.carrier → List F.carrier → F.carrier
  add_all total [] = total
  add_all total (x ∷ xs) = add_all (F.add total x) xs

  -- `buffer[0] + ... + buffer[7]`
  unfoldable pub buffer_sum : List F.carrier → F.carrier
  unfolding add_all
  buffer_sum [] = F.of_nat 0
  buffer_sum (x ∷ xs) = add_all x xs

  -- The loop over what is left behind the last group.
  unfoldable pub tail_loop :
      (F.carrier → F.carrier → F.carrier) → F.carrier → List F.carrier → List F.carrier → F.carrier
  tail_loop term total (x ∷ xs) (y ∷ ys) = tail_loop term (F.add total (term x y)) xs ys
  tail_loop term total (x ∷ xs) [] = total
  tail_loop term total [] ys = total

  -- Both functions are this, with other instructions.
  unfoldable pub reduce :
      (F.carrier → F.carrier → F.carrier → F.carrier)
      → (F.carrier → F.carrier → F.carrier)
      → List F.carrier
      → List F.carrier
      → F.carrier
  unfolding vector_loop lanes buffer_sum tail_loop
  reduce step term a b =
      let rounds = length a / 8 in
      let sums = vector_loop step rounds a b (replicate 8 (F.of_nat 0)) in
      tail_loop term (buffer_sum sums) (drop (8 * rounds) a) (drop (8 * rounds) b)

  abbrev pub square_step : F.carrier → F.carrier → F.carrier → F.carrier
  square_step x y s = F.fused (F.sub x y) (F.sub x y) s

  abbrev pub square_term : F.carrier → F.carrier → F.carrier
  square_term x y = F.mul (F.sub x y) (F.sub x y)

  unfoldable pub l2_distance : List F.carrier → List F.carrier → Outcome F.carrier
  unfolding reduce
  l2_distance a b =
      if ltb (length b) (length a) then fault else ok (reduce square_step square_term a b)

  unfoldable pub dot_product : List F.carrier → List F.carrier → Outcome F.carrier
  unfolding reduce
  dot_product a b = if ltb (length b) (length a) then fault else ok (reduce F.fused F.mul a b)

  -- The distance of a part of a vector from centroid `k` of subspace `m`.
  unfoldable pub measure : List F.carrier → ℕ → ℕ → ℕ → ℕ → List F.carrier → Outcome F.carrier
  unfolding subspan l2_distance
  measure centroids sub_dim num_centroids m k part = do
    centroid ← subspan ((m * num_centroids + k) * sub_dim) sub_dim centroids
    l2_distance part centroid

  -- The cells of one subspace, from centroid `k` on.
  unfoldable pub table_row :
      List F.carrier → ℕ → ℕ → ℕ → ℕ → ℕ → List F.carrier → Outcome (List F.carrier)
  unfolding measure
  table_row centroids sub_dim num_centroids m zero k part = ok []
  table_row centroids sub_dim num_centroids m (suc rounds) k part = do
    cell ← measure centroids sub_dim num_centroids m k part
    cells ← table_row centroids sub_dim num_centroids m rounds (suc k) part
    ok (cell ∷ cells)

  -- The cells of all subspaces, from `m` on.
  unfoldable pub table_rows :
      List F.carrier → ℕ → ℕ → ℕ → ℕ → List F.carrier → Outcome (List F.carrier)
  unfolding table_row subspan
  table_rows centroids sub_dim num_centroids zero m query = ok []
  table_rows centroids sub_dim num_centroids (suc rounds) m query = do
    part ← subspan (m * sub_dim) sub_dim query
    row ← table_row centroids sub_dim num_centroids m num_centroids 0 part
    rows ← table_rows centroids sub_dim num_centroids rounds (suc m) query
    ok (row ++ rows)

  -- The cells are written in the order of their places, from the first of `distance_table` on.
  unfoldable pub compute_distance_table :
      List F.carrier → List F.carrier → ℕ → ℕ → ℕ → List F.carrier → Outcome (List F.carrier)
  unfolding table_rows
  compute_distance_table query centroids num_subspaces sub_dim num_centroids distance_table = do
    cells ← table_rows centroids sub_dim num_centroids num_subspaces 0 query
    if ltb (length distance_table) (length cells)
        then fault
        else ok (cells ++ drop (length cells) distance_table)
