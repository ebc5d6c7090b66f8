-- ===== src/Octree/Renderer/Gradients.antt =====
-- Gradients of a ray that ends.
use odyssey_tasks.Prelude.{
  ℕ, zero, suc, ◌-◌, ◌<◌, ◌≡◌, ap, false, List, ◌∷◌, length, replicate, Bool-cases, inl, inr, arith,
}
use odyssey_tasks.Prelude.Outcome.{ok}
use odyssey_tasks.Octree.Voxels.{Scalar, Vec3, Ray, SparseVoxelOctree, zero_coeffs}
use odyssey_tasks.Octree.Renderer.{add_first, gradient_loop, compute_ray_gradients}

module _ (S : Scalar) where
  -- Where a ray is after this many steps.
  abbrev pub after : ℕ → S.carrier → S.carrier → S.carrier
  after zero t step_size = t
  after (suc n) t step_size = after n (S.add t step_size) step_size

  gradient_loop_lem :
      (n fuel : ℕ) (d : Vec3 S) (t far_t step_size transmittance c : S.carrier)
      (row : List S.carrier) (rows : List (List S.carrier))
      → n < fuel
      → S.less (after n t step_size) far_t ≡ false
      → (c' : S.carrier) × (gradient_loop S fuel d t far_t step_size transmittance
            ((c ∷ row) ∷ rows)
          ≡ ok ((c' ∷ row) ∷ rows))
  unfolding gradient_loop add_first
  gradient_loop_lem n zero d t far_t step_size transmittance c row rows h ends =
      absurd (omega arith)
  gradient_loop_lem zero (suc fuel) d t far_t step_size transmittance c row rows h ends =
      (c, rw ends)
  gradient_loop_lem (suc n) (suc fuel) d t far_t step_size transmittance c row rows h ends =
      elim (Bool-cases (S.less t far_t)) [
        | inl goes_on ↦ rw goes_on (
            gradient_loop_lem n fuel d (S.add t step_size) far_t step_size _ _ row rows
              (omega arith) ends)
        | inr over ↦ (c, rw over)
      ]

  -- For a ray that is beyond the far end after `n` steps, more than `n` rounds give the gradients, of
  -- as many nodes as there are; all of them are 0 but for the first coefficient of the first node.
  pub compute_ray_gradients_lem :
      (n fuel : ℕ) (octree : SparseVoxelOctree S) (ray : Ray S) (d : Vec3 S)
      (near_t far_t step_size : S.carrier)
      → n < fuel
      → 0 < length octree.nodes
      → S.less (after n near_t step_size) far_t ≡ false
      → (c : S.carrier) × (compute_ray_gradients S fuel octree ray d near_t far_t step_size
          ≡ ok record {
            d_density = zero_coeffs S (length octree.nodes);
            d_sh = (c ∷ zero_coeffs S 26) ∷ replicate (length octree.nodes - 1) (zero_coeffs S 27);
          })
  unfolding compute_ray_gradients
  compute_ray_gradients_lem n fuel octree ray d near_t far_t step_size enough some_node ends =
      let rest = replicate (length octree.nodes - 1) (zero_coeffs S 27) in
      let (c, e) =
        gradient_loop_lem n fuel d near_t far_t step_size (S.literal 1 0) (S.literal 0 0)
          (zero_coeffs S 26) rest enough ends in
      let size : length octree.nodes ≡ suc (length octree.nodes - 1) = omega arith in
      let start : replicate (length octree.nodes) (zero_coeffs S 27) ≡ zero_coeffs S 27 ∷ rest =
        ap (λ (k : ℕ). replicate k (zero_coeffs S 27)) size in
      (c, rw (start, e))
