-- ===== src/Vector/Quantizer/Train.antt =====
-- `Train` and the constructor: on enough data nothing is out of range.
use native.Mathlib.Nat.{mul-div-le, le-div_iff_mul-le}
use odyssey_tasks.Prelude.{
  ℕ, zero, suc, ◌+◌, ◌*◌, ◌/◌, ◌≤◌, ◌<◌, ◌≡◌, refl, false, replicate, ◌==◌, arith, length,
}
use odyssey_tasks.Prelude.Outcome.{ok}
use odyssey_tasks.Vector.Float.{Float}
use odyssey_tasks.Vector.Quantizer
use odyssey_tasks.Vector.Quantizer.{ProductQuantizer, Sums, iterate, train_loop, train}
use odyssey_tasks.Vector.Quantizer.Pure.{IsWellFormed, Vector}
use odyssey_tasks.Vector.Quantizer.Tables.{length-replicate}
use odyssey_tasks.Vector.Quantizer.Shape.{
  All-replicate, Trained, Trained-trans, Trained-refl, mean_loop-ok,
}
use odyssey_tasks.Vector.Quantizer.Rounds.{Suits, Suits-Trained, pick_loop-ok, assign_loop-ok}

module _ (F : Float) where
  -- A quantizer has a cell for each number of each centroid from the start.
  pub new-ok :
      (dim num_subspaces num_centroids : ℕ)
      → 0 < num_subspaces
      → num_subspaces ≤ dim
      → (q : ProductQuantizer F) × (Quantizer.new F dim num_subspaces num_centroids ≡ ok q)
        × IsWellFormed F q
        × (q.dim ≡ dim)
        × (q.num_subspaces ≡ num_subspaces)
        × (q.num_centroids ≡ num_centroids)
        × (q.num_subspaces * q.sub_dim ≤ q.dim)
        × (0 < q.sub_dim)
  unfolding Quantizer.new
  new-ok dim num_subspaces num_centroids h enough =
      let some_subspace : (num_subspaces == 0) ≡ false = ground arith in
      let cells = num_subspaces * num_centroids * (dim / num_subspaces) in
      (
        record {
          dim = dim;
          num_subspaces = num_subspaces;
          sub_dim = dim / num_subspaces;
          num_centroids = num_centroids;
          centroids = replicate cells (F.of_nat 0);
        },
        rw some_subspace,
        record { centroids_full = length-replicate cells (F.of_nat 0) },
        refl,
        refl,
        refl,
        mul-div-le dim num_subspaces,
        (le-div_iff_mul-le {k = num_subspaces} {x = 1} {y = dim} h).1 (omega arith),
      )

  module _ (training_data : Vector F) (num_vectors : ℕ) where
    iterate-ok :
        (m max_iters : ℕ) (q : ProductQuantizer F)
        → IsWellFormed F q
        → Suits F training_data num_vectors q
        → m < q.num_subspaces
        → (q' : ProductQuantizer F) × (iterate F training_data num_vectors m max_iters q ≡ ok q')
          × Trained F q q'
    unfolding iterate
    iterate-ok m zero q w s hm = (q, refl, Trained-refl F q w)
    iterate-ok m (suc max_iters) q w s hm =
        let blank = replicate q.sub_dim (F.of_nat 0) in
        let start : Sums F = record {
          counts = replicate q.num_centroids 0;
          new_centroids = replicate q.num_centroids blank;
        } in
        let (sums, e, counted, summed, sizes) =
          assign_loop-ok F training_data num_vectors q m num_vectors 0 start w s hm (omega arith)
            (length-replicate q.num_centroids 0) (length-replicate q.num_centroids blank)
            (All-replicate (λ cell. length cell ≡ q.sub_dim) q.num_centroids blank
              (length-replicate q.sub_dim (F.of_nat 0))) in
        let (moved, e', t) =
          mean_loop-ok F m 0 sums.counts sums.new_centroids q w hm (omega (arith, counted))
            (omega (arith, counted, summed)) sizes in
        let (q', e'', t') =
          iterate-ok m max_iters moved t.well_formed
            (Suits-Trained F training_data num_vectors q moved t s)
            (omega (arith, t.same_subspaces)) in
        (q', rw (e, e') e'', Trained-trans F q moved q' t t')

    train_loop-ok :
        (max_iters : ℕ) (draws : ℕ → ℕ) (rounds m : ℕ) (q : ProductQuantizer F)
        → IsWellFormed F q
        → Suits F training_data num_vectors q
        → m + rounds ≤ q.num_subspaces
        → (q' : ProductQuantizer F) × (train_loop F training_data num_vectors max_iters draws rounds
              m q
            ≡ ok q')
          × Trained F q q'
    unfolding train_loop
    train_loop-ok max_iters draws zero m q w s hm = (q, refl, Trained-refl F q w)
    train_loop-ok max_iters draws (suc rounds) m q w s hm =
        let (picked, e, t) =
          pick_loop-ok F training_data num_vectors draws m q.num_centroids 0 q w s (omega arith)
            (omega arith) in
        let suits = Suits-Trained F training_data num_vectors q picked t s in
        let (moved, e', t') =
          iterate-ok m max_iters picked t.well_formed suits (omega (arith, t.same_subspaces)) in
        let (q', e'', t'') =
          train_loop-ok max_iters draws rounds (suc m) moved t'.well_formed
            (Suits-Trained F training_data num_vectors picked moved t' suits)
            (omega (arith, t.same_subspaces, t'.same_subspaces)) in
        (q', rw (e, e') e'', Trained-trans F q picked q' t (Trained-trans F picked moved q' t' t''))

    -- Training a well-formed quantizer on a positive number of vectors, all in the data and with all
    -- parts, indexes nothing out of range, and gives a well-formed quantizer of the same shape,
    -- whatever numbers are drawn and however often it iterates.
    pub train-Trained :
        (max_iters : ℕ) (draws : ℕ → ℕ) (q : ProductQuantizer F)
        → IsWellFormed F q
        → Suits F training_data num_vectors q
        → (q' : ProductQuantizer F) × (train F training_data num_vectors max_iters draws q ≡ ok q')
          × Trained F q q'
    unfolding train
    train-Trained max_iters draws q w s =
        train_loop-ok max_iters draws q.num_subspaces 0 q w s (omega arith)
