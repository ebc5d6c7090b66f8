-- ===== src/Vector/Quantizer/Nearest.antt =====
-- `Encode` picks the centroids that are nearest, part by part, and so the code that is nearest.
use native.Mathlib.Decide.{dec_le}
use odyssey_tasks.Prelude.{
  ℕ, zero, suc, ◌+◌, ◌≤◌, ◌<◌, ◌≡◌, false, List, [], ◌∷◌, length, arith, All, Bool-cases, inl, inr,
}
use odyssey_tasks.Prelude.Outcome.{ok, ◌>>=◌}
use odyssey_tasks.Vector.Float.{Float, IsOrdered}
use odyssey_tasks.Vector.Quantizer.{
  ProductQuantizer, encode, compute_query_table, asymmetric_distance,
}
use odyssey_tasks.Vector.Quantizer.Pure.{
  tabulate, length-tabulate, IsWellFormed, Vector, Covers, part_of, part_distance, nearest, code_at,
  code_of, sum_from, distance_to_code,
}
use odyssey_tasks.Vector.Quantizer.Tables.{append_nil, asymmetric_distance_lem, encode-ok}

module _ (F : Float) (q : ProductQuantizer F) where
  pub nearest-lt :
      (part : Vector F) (m rounds k : ℕ) (best_dist : F.carrier) (best_k : ℕ)
      → best_k < q.num_centroids
      → k + rounds ≤ q.num_centroids
      → nearest F q part m rounds k best_dist best_k < q.num_centroids
  unfolding nearest
  nearest-lt part m zero k best_dist best_k hb hk = hb
  nearest-lt part m (suc rounds) k best_dist best_k hb hk =
      nearest-lt part m rounds (suc k) _ _ (ground arith) (omega arith)

  All-tabulate :
      (v : Vector F) (rounds m : ℕ)
      → 0 < q.num_centroids
      → All (λ c. c < q.num_centroids) (tabulate rounds m (code_at F q v))
  unfolding tabulate code_at
  All-tabulate v zero m some_centroid = tt
  All-tabulate v (suc rounds) m some_centroid = (
    nearest-lt (part_of F q v m) m q.num_centroids 0 F.largest 0 some_centroid (omega arith),
    All-tabulate v rounds (suc m) some_centroid,
  )

  -- The numbers of a code name centroids.
  pub code_of-small :
      (v : Vector F) → 0 < q.num_centroids → All (λ c. c < q.num_centroids) (code_of F q v)
  unfolding code_of
  code_of-small v some_centroid = All-tabulate v q.num_subspaces 0 some_centroid

  pub length-code_of : (v : Vector F) → length (code_of F q v) ≡ q.num_subspaces
  unfolding code_of
  length-code_of v = length-tabulate q.num_subspaces 0 (code_at F q v)

  module _ (ordered : IsOrdered F) where
    -- What the search finds is not farther than what it began with, nor than what it saw.
    nearest_least :
        (part : Vector F) (m rounds k : ℕ) (best_dist : F.carrier) (best_k : ℕ)
        → F.less best_dist (part_distance F q part m best_k) ≡ false
        → (F.less best_dist
              (part_distance F q part m (nearest F q part m rounds k best_dist best_k))
            ≡ false)
          × ((j : ℕ)
              → k ≤ j
              → j < k + rounds
              → F.less
                  (part_distance F q part m j)
                  (part_distance F q part m (nearest F q part m rounds k best_dist best_k))
                ≡ false)
    unfolding nearest
    nearest_least part m zero k best_dist best_k known = (known, λ j lo hi. absurd (omega arith))
    nearest_least part m (suc rounds) k best_dist best_k known =
        let here = part_distance F q part m k in
        elim (Bool-cases (F.less here best_dist)) [
          | inl better ↦
              (rw better (
                let (below, rest) =
                  nearest_least part m rounds (suc k) here k (ordered.less_irreflexive here) in
                let found = nearest F q part m rounds (suc k) here k in
                let value = part_distance F q part m found in
                (
                  ordered.not_less_trans value here best_dist below
                      (ordered.less-not_less here best_dist better),
                  λ j lo hi. elim (dec_le (suc k) j) [
                    | yes later ↦ rest j later (omega arith)
                    | no now ↦ (let same : j ≡ k = omega arith in rw same below)
                  ],
                )))
          | inr worse ↦
              (rw worse (
                let (below, rest) = nearest_least part m rounds (suc k) best_dist best_k known in
                let found = nearest F q part m rounds (suc k) best_dist best_k in
                let value = part_distance F q part m found in
                (
                  below,
                  λ j lo hi. elim (dec_le (suc k) j) [
                    | yes later ↦ rest j later (omega arith)
                    | no now ↦
                        (let same : j ≡ k = omega arith in
                          rw same (ordered.not_less_trans value best_dist here below worse))
                  ],
                )))
        ]

    module _ (v : Vector F) where
      -- The distances do not exceed the largest number, which infinities do.
      abbrev pub IsBounded : Type 0
      IsBounded =
          (m : ℕ)
          → m < q.num_subspaces
          → F.less F.largest (part_distance F q (part_of F q v m) m 0) ≡ false

      module _ (bounded : IsBounded) where
        sum_least :
            (code : List ℕ) (m : ℕ) (dist dist' : F.carrier)
            → m + length code ≤ q.num_subspaces
            → All (λ c. c < q.num_centroids) code
            → F.less dist dist' ≡ false
            → F.less
                (sum_from F q v m code dist)
                (sum_from F q v m (tabulate (length code) m (code_at F q v)) dist')
              ≡ false
        unfolding sum_from tabulate code_at
        sum_least [] m dist dist' h small le = le
        sum_least (c ∷ code) m dist dist' h small le =
            let part = part_of F q v m in
            let (_, rest) =
              nearest_least part m q.num_centroids 0 F.largest 0 (bounded m (omega arith)) in
            let this = rest c (omega arith) (omega (arith, small.0)) in
            sum_least code (suc m) _ _ (omega arith) small.1
              (ordered.add_monotone dist' dist _ _ le this)

        -- No code is nearer to the vector than the vector's own, as asymmetric distances tell, where
        -- parts have numbers and there are from 1 to 256 centroids for each.
        pub encode_nearest :
            IsWellFormed F q
            → Covers F q v
            → 0 < q.sub_dim
            → 0 < q.num_centroids
            → q.num_centroids ≤ 256
            → (code : List ℕ) → length code ≡ q.num_subspaces
            → All (λ c. c < q.num_centroids) code
            → (own : List ℕ) × (own_dist : F.carrier) × (dist : F.carrier) × (encode F q v ≡ ok own)
              × ((compute_query_table F q v >>= λ table. asymmetric_distance F q table own)
                  ≡ ok own_dist)
              × ((compute_query_table F q v >>= λ table. asymmetric_distance F q table code)
                  ≡ ok dist)
              × (F.less dist own_dist ≡ false)
        unfolding distance_to_code code_of
        encode_nearest w long some_dim some_centroid bytes code size small =
            let own = code_of F q v in
            (
              own,
              distance_to_code F q v own,
              distance_to_code F q v code,
              encode-ok F q w v long some_dim bytes,
              rw (append_nil own) at (
                  asymmetric_distance_lem F q w v long own [] (length-code_of v)
                    (code_of-small v some_centroid)),
              rw (append_nil code) at (asymmetric_distance_lem F q w v long code [] size small),
              rw size at (
                  sum_least code 0 (F.of_nat 0) (F.of_nat 0) (omega arith) small
                    (ordered.less_irreflexive (F.of_nat 0))),
            )
