-- ===== src/Vector/Quantizer/Rounds.antt =====
-- The loops of one iteration of `Train`: on enough data nothing is out of range, and each subspace
-- keeps all its centroids.
use native.Mathlib.Nat.{mul-le-mul_right, mod-lt}
use odyssey_tasks.Prelude.{
  ℕ, zero, suc, ◌+◌, ◌*◌, ◌%◌, ◌≤◌, ◌<◌, ◌≡◌, refl, ◌∙◌, false, length, take, drop, ◌==◌, arith,
  All,
}
use odyssey_tasks.Prelude.Outcome.{ok}
use odyssey_tasks.Vector.Float.{Float}
use odyssey_tasks.Vector.Quantizer.{ProductQuantizer, pick_loop, Sums, add_cells, assign_loop}
use odyssey_tasks.Vector.Quantizer.Pure.{
  subspan-ok, length-slice, IsWellFormed, Vector, nearest, nearest_loop-ok,
}
use odyssey_tasks.Vector.Quantizer.Nearest.{nearest-lt}
use odyssey_tasks.Vector.Quantizer.Shape.{
  update-ok, All-unit, Trained, Trained-trans, Trained-refl, set_centroid-ok, length-add_cells,
}

module _ (F : Float) where
  module _ (training_data : Vector F) (num_vectors : ℕ) where
    -- The data has this many vectors, whose parts the quantizer knows.
    pub record Suits (q : ProductQuantizer F) : Type 0 where
      pub enough : num_vectors * q.dim ≤ length training_data
      pub parts : q.num_subspaces * q.sub_dim ≤ q.dim
      pub some_vector : 0 < num_vectors
      pub some_centroid : 0 < q.num_centroids
      pub some_dim : 0 < q.sub_dim

    pub Suits-Trained : (q q' : ProductQuantizer F) → Trained F q q' → Suits q → Suits q'
    Suits-Trained q q' t s = record {
      enough = rw t.same_dim s.enough;
      parts = rw (t.same_dim, t.same_subspaces, t.same_sub_dim) s.parts;
      some_vector = s.some_vector;
      some_centroid = rw t.same_centroids s.some_centroid;
      some_dim = rw t.same_sub_dim s.some_dim;
    }

    data_inside :
        (q : ProductQuantizer F) (i m : ℕ)
        → Suits q
        → i < num_vectors
        → m < q.num_subspaces
        → i * q.dim + m * q.sub_dim + q.sub_dim ≤ length training_data
    data_inside q i m s hi hm = omega (
      arith,
      mul-le-mul_right {m = suc i} {n = num_vectors} q.dim hi,
      mul-le-mul_right {m = suc m} {n = q.num_subspaces} q.sub_dim hm,
      s.enough,
      s.parts,
    )

    pub pick_loop-ok :
        (draws : ℕ → ℕ) (m rounds k : ℕ) (q : ProductQuantizer F)
        → IsWellFormed F q
        → Suits q
        → m < q.num_subspaces
        → k + rounds ≤ q.num_centroids
        → (q' : ProductQuantizer F) × (pick_loop F training_data num_vectors draws m rounds k q
            ≡ ok q')
          × Trained F q q'
    unfolding pick_loop
    pick_loop-ok draws m zero k q w s hm hk = (q, refl, Trained-refl F q w)
    pick_loop-ok draws m (suc rounds) k q w s hm hk =
        let i = draws (m * q.num_centroids + k) % num_vectors in
        let drawn : i < num_vectors = mod-lt (draws (m * q.num_centroids + k)) s.some_vector in
        let inside = data_inside q i m s drawn hm in
        let some_vector : (num_vectors == 0) ≡ false = ground (arith, s.some_vector) in
        let (set, e, t) =
          set_centroid-ok F q m k (take q.sub_dim (drop (i * q.dim + m * q.sub_dim) training_data))
            w hm (omega arith)
            (length-slice (i * q.dim + m * q.sub_dim) q.sub_dim training_data inside) in
        let (q', e', t') =
          pick_loop-ok draws m rounds (suc k) set t.well_formed (Suits-Trained q set t s)
            (omega (arith, t.same_subspaces)) (omega (arith, t.same_centroids)) in
        (
          q',
          rw (some_vector, subspan-ok (i * q.dim + m * q.sub_dim) q.sub_dim training_data inside, e)
              e',
          Trained-trans F q set q' t t',
        )

    pub assign_loop-ok :
        (q : ProductQuantizer F) (m rounds i : ℕ) (sums : Sums F)
        → IsWellFormed F q
        → Suits q
        → m < q.num_subspaces
        → i + rounds ≤ num_vectors
        → length sums.counts ≡ q.num_centroids
        → length sums.new_centroids ≡ q.num_centroids
        → All (λ cell. length cell ≡ q.sub_dim) sums.new_centroids
        → (sums' : Sums F) × (assign_loop F q training_data m rounds i sums ≡ ok sums')
          × (length sums'.counts ≡ q.num_centroids)
          × (length sums'.new_centroids ≡ q.num_centroids)
          × All (λ cell. length cell ≡ q.sub_dim) sums'.new_centroids
    unfolding assign_loop
    assign_loop-ok q m zero i sums w s hm hi counted summed sizes =
        (sums, refl, counted, summed, sizes)
    assign_loop-ok q m (suc rounds) i sums w s hm hi counted summed sizes =
        let inside = data_inside q i m s (omega arith) hm in
        let part = take q.sub_dim (drop (i * q.dim + m * q.sub_dim) training_data) in
        let k = nearest F q part m q.num_centroids 0 F.largest 0 in
        let small : k < q.num_centroids =
          nearest-lt F q part m q.num_centroids 0 F.largest 0 s.some_centroid (omega arith) in
        let (counts, e, size, _) =
          update-ok (λ _. Unit {0}) k (λ n. n + 1) sums.counts (omega (arith, counted))
            (All-unit sums.counts) (λ n h. tt) in
        let (cells, e', size', sizes') =
          update-ok (λ cell. length cell ≡ q.sub_dim) k (λ cell. add_cells F cell part)
            sums.new_centroids (omega (arith, summed)) sizes
            (λ cell h. length-add_cells F cell part ∙ h) in
        let (last, e'', counted', summed', all_sizes) =
          assign_loop-ok q m rounds (suc i) (record { counts = counts; new_centroids = cells }) w s
            hm (omega arith) (size ∙ counted) (size' ∙ summed) sizes' in
        (
          last,
          rw
              (
                subspan-ok (i * q.dim + m * q.sub_dim) q.sub_dim training_data inside,
                nearest_loop-ok F q w (λ j. j) part m q.num_centroids 0 F.largest 0 (λ j hj. refl)
                    s.some_dim
                    (length-slice (i * q.dim + m * q.sub_dim) q.sub_dim training_data inside) hm
                    (omega arith),
                e,
                e',
              )
              e'',
          counted',
          summed',
          all_sizes,
        )
