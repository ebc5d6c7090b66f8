-- ===== src/Vector/Quantizer/Tables.antt =====
-- Tables of distances, sums over a code, and the codes of vectors, where nothing is out of range.
use native.Mathlib.Nat.{mul-le-mul_right}
use odyssey_tasks.Prelude.{
  ℕ, zero, suc, ◌+◌, ◌*◌, ◌%◌, ◌≤◌, ◌<◌, ◌≡◌, refl, ap, List, [], ◌∷◌, ◌++◌, length, drop, false,
  replicate, length-append, arith, All, ltb, ◌∙◌,
}
use odyssey_tasks.Prelude.Outcome.{ok, ◌>>=◌}
use odyssey_tasks.Vector.Float.{Float}
use odyssey_tasks.Vector.Simd.{table_rows, compute_distance_table}
use odyssey_tasks.Vector.Quantizer.{
  ProductQuantizer, get_elem, encode_loop, encode, compute_query_table, distance_loop,
  asymmetric_distance,
}
use odyssey_tasks.Vector.Quantizer.Pure.{
  tabulate, length-tabulate, subspan-ok, length-slice, get_elem-append, get_elem-append_left,
  get_elem-tabulate, IsWellFormed, Vector, Covers, part_of, part_distance, code_at, code_of,
  sum_from, distance_to_code, table_row-ok, nearest_loop-ok,
}

pub length-replicate : {A : Type 0} (n : ℕ) (a : A) → length (replicate n a) ≡ n
length-replicate zero a = refl
length-replicate (suc n) a = omega (arith, length-replicate n a)

pub drop-all : {A : Type 0} (n : ℕ) (xs : List A) → length xs ≤ n → drop n xs ≡ []
drop-all zero [] h = refl
drop-all (suc n) [] h = refl
drop-all zero (x ∷ xs) h = absurd (omega arith)
drop-all (suc n) (x ∷ xs) h = drop-all n xs (omega arith)

pub append_nil : {A : Type 0} (xs : List A) → xs ++ [] ≡ xs
append_nil [] = refl
append_nil (x ∷ xs) = ap (◌∷◌ x) (append_nil xs)

module _ (F : Float) (q : ProductQuantizer F) (w : IsWellFormed F q) where
  -- Part `m` lies in a vector that has all parts.
  pub part_inside :
      (v : Vector F) (m : ℕ)
      → Covers F q v
      → m < q.num_subspaces
      → m * q.sub_dim + q.sub_dim ≤ length v
  part_inside v m long hm =
      omega (arith, mul-le-mul_right {m = suc m} {n = q.num_subspaces} q.sub_dim hm)

  module _ (v : Vector F) (long : Covers F q v) where
    rows_of : ℕ → ℕ → List F.carrier
    rows_of zero m = []
    rows_of (suc rounds) m =
        tabulate q.num_centroids 0 (part_distance F q (part_of F q v m) m) ++ rows_of rounds (suc m)

    length-rows_of : (rounds m : ℕ) → length (rows_of rounds m) ≡ rounds * q.num_centroids
    unfolding rows_of
    length-rows_of zero m = omega arith
    length-rows_of (suc rounds) m =
        let row = tabulate q.num_centroids 0 (part_distance F q (part_of F q v m) m) in
        omega (
          arith,
          length-append row (rows_of rounds (suc m)),
          length-tabulate q.num_centroids 0 (part_distance F q (part_of F q v m) m),
          length-rows_of rounds (suc m),
        )

    table_rows-ok :
        (rounds m : ℕ)
        → m + rounds ≤ q.num_subspaces
        → table_rows F q.centroids q.sub_dim q.num_centroids rounds m v ≡ ok (rows_of rounds m)
    unfolding table_rows rows_of
    table_rows-ok zero m h = refl
    table_rows-ok (suc rounds) m h =
        let inside = part_inside v m long (omega arith) in
        rw (
          subspan-ok (m * q.sub_dim) q.sub_dim v inside,
          table_row-ok F q w (part_of F q v m) m q.num_centroids 0
              (length-slice (m * q.sub_dim) q.sub_dim v inside) (omega arith) (omega arith),
          table_rows-ok rounds (suc m) (omega arith),
        )

    get_elem-rows_of :
        (rounds m i c : ℕ)
        → i < rounds
        → c < q.num_centroids
        → get_elem (i * q.num_centroids + c) (rows_of rounds m)
          ≡ ok (part_distance F q (part_of F q v (m + i)) (m + i) c)
    unfolding rows_of
    get_elem-rows_of zero m i c hi hc = absurd (omega arith)
    get_elem-rows_of (suc rounds) m zero c hi hc =
        let f = part_distance F q (part_of F q v m) m in
        let row = tabulate q.num_centroids 0 f in
        let size = length-tabulate q.num_centroids 0 f in
        let here : 0 * q.num_centroids + c ≡ c = omega arith in
        let same : m + 0 ≡ m = omega arith in
        let at_c : 0 + c ≡ c = omega arith in
        rw (here, same)
          (get_elem-append_left row (rows_of rounds (suc m)) c (omega (arith, size))
            ∙ (get_elem-tabulate q.num_centroids 0 c f hc ∙ ap (λ (t : ℕ). ok (f t)) at_c))
    get_elem-rows_of (suc rounds) m (suc i) c hi hc =
        let f = part_distance F q (part_of F q v m) m in
        let row = tabulate q.num_centroids 0 f in
        let size = length-tabulate q.num_centroids 0 f in
        let place : suc i * q.num_centroids + c ≡ length row + (i * q.num_centroids + c) =
          omega (arith, size) in
        let same : m + suc i ≡ suc m + i = omega arith in
        rw (place, same)
          (get_elem-append row (rows_of rounds (suc m)) (i * q.num_centroids + c)
            ∙ get_elem-rows_of rounds (suc m) i c (omega arith) hc)

    -- The table of a query has the distance of each part from each centroid of its subspace.
    pub compute_query_table-ok :
        (table : List F.carrier) × (compute_query_table F q v ≡ ok table)
        × ((m c : ℕ)
            → m < q.num_subspaces
            → c < q.num_centroids
            → get_elem (m * q.num_centroids + c) table
              ≡ ok (part_distance F q (part_of F q v m) m c))
    unfolding compute_query_table compute_distance_table
    compute_query_table-ok =
        let rows = rows_of q.num_subspaces 0 in
        let blank = replicate (q.num_subspaces * q.num_centroids) (F.of_nat 0) in
        let size = length-rows_of q.num_subspaces 0 in
        let blanks = length-replicate (q.num_subspaces * q.num_centroids) (F.of_nat 0) in
        let fits : ltb (length blank) (length rows) ≡ false = ground (arith, size, blanks) in
        let full : drop (length rows) blank ≡ [] =
          drop-all (length rows) blank (omega (arith, size, blanks)) in
        (
          rows,
          rw (table_rows-ok q.num_subspaces 0 (omega arith), fits, full) (ap ok (append_nil rows)),
          λ m c hm hc.
              let found = get_elem-rows_of q.num_subspaces 0 m c hm hc in
              let same : 0 + m ≡ m = omega arith in rw same at found,
        )

    distance_loop-ok :
        (table : List F.carrier)
        → ((m c : ℕ)
            → m < q.num_subspaces
            → c < q.num_centroids
            → get_elem (m * q.num_centroids + c) table
              ≡ ok (part_distance F q (part_of F q v m) m c))
        → (code rest : List ℕ) (m : ℕ) (dist : F.carrier) → All (λ c. c < q.num_centroids) code
        → m + length code ≤ q.num_subspaces
        → distance_loop F q table (length code) m (code ++ rest) dist
          ≡ ok (sum_from F q v m code dist)
    unfolding distance_loop sum_from
    distance_loop-ok table cells [] rest m dist small h = refl
    distance_loop-ok table cells (c ∷ code) rest m dist small h =
        rw (cells m c (omega arith) small.0)
          (distance_loop-ok table cells code rest (suc m) _ small.1 (omega arith))

    -- The asymmetric distance, looked up in the table of a query, is the sum of the distances of the
    -- query's parts from the centroids that the code names, whatever stands behind the code.
    pub asymmetric_distance_lem :
        (code rest : List ℕ)
        → length code ≡ q.num_subspaces
        → All (λ c. c < q.num_centroids) code
        → (compute_query_table F q v >>= λ table. asymmetric_distance F q table (code ++ rest))
          ≡ ok (distance_to_code F q v code)
    unfolding asymmetric_distance distance_to_code
    asymmetric_distance_lem code rest size small =
        let (table, made, cells) = compute_query_table-ok in
        rw made
          (rw size at (distance_loop-ok table cells code rest 0 (F.of_nat 0) small (omega arith)))

    encode_loop-ok :
        (rounds m : ℕ)
        → 0 < q.sub_dim
        → q.num_centroids ≤ 256
        → m + rounds ≤ q.num_subspaces
        → encode_loop F q v rounds m ≡ ok (tabulate rounds m (code_at F q v))
    unfolding encode_loop tabulate code_at
    encode_loop-ok zero m some_dim bytes h = refl
    encode_loop-ok (suc rounds) m some_dim bytes h =
        let inside = part_inside v m long (omega arith) in
        rw (
          subspan-ok (m * q.sub_dim) q.sub_dim v inside,
          nearest_loop-ok F q w (λ k. k % 256) (part_of F q v m) m q.num_centroids 0 F.largest 0
              (λ j hj. omega arith) some_dim (length-slice (m * q.sub_dim) q.sub_dim v inside)
              (omega arith) (omega arith),
          encode_loop-ok rounds (suc m) some_dim bytes (omega arith),
        )

    pub encode-ok : 0 < q.sub_dim → q.num_centroids ≤ 256 → encode F q v ≡ ok (code_of F q v)
    unfolding encode code_of
    encode-ok some_dim bytes = encode_loop-ok q.num_subspaces 0 some_dim bytes (omega arith)
