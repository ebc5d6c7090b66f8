-- ===== src/Octree/Renderer.antt =====
-- volume_renderer.hpp and volume_renderer.cpp: colours along a ray and their gradients. `out_of_fuel`
-- is a loop that has rounds left; `fault` an index beyond the end.
pub mod Gradients
use odyssey_tasks.Prelude.{ℕ, zero, suc, ◌≡◌, ◌&&◌, List, [], ◌∷◌, length, replicate, if◌then◌else◌}
use odyssey_tasks.Prelude.Outcome.{Outcome, ok, fault, out_of_fuel, ◌>>=◌}
use odyssey_tasks.Octree.Voxels.{
  Scalar, Vec3, add_vec, scale_vec, Ray, SparseVoxelOctree, zero_coeffs,
}

module _ (S : Scalar) where
  pub record RenderGradients : Type 0 where
    pub d_density : List S.carrier
    pub d_sh : List (List S.carrier)

  -- `1.0f - std::exp(-sigma * step_size)` for the density 0.5.
  unfoldable pub alpha_of : S.carrier → S.carrier
  alpha_of step_size = S.sub (S.literal 1 0) (S.exp (S.mul (S.negate (S.literal 5 1)) step_size))

  unfoldable pub ray_loop :
      ℕ → S.carrier → S.carrier → S.carrier → S.carrier → Vec3 S → Outcome (Vec3 S)
  unfolding alpha_of
  ray_loop zero t far_t step_size transmittance color = out_of_fuel
  ray_loop (suc fuel) t far_t step_size transmittance color =
      let alpha = alpha_of step_size in
      let sample : Vec3 S = record { x = S.literal 8 1; y = S.literal 2 1; z = S.literal 2 1 } in
      let next =
        ray_loop fuel (S.add t step_size) far_t step_size
          (S.mul transmittance (S.sub (S.literal 1 0) alpha))
          (add_vec S color (scale_vec S sample (S.mul transmittance alpha))) in
      if S.less t far_t && S.less (S.literal 1 3) transmittance then next else ok color

  -- The octree and the ray play no part.
  unfoldable pub render_ray :
      ℕ → SparseVoxelOctree S → Ray S → S.carrier → S.carrier → S.carrier → Outcome (Vec3 S)
  unfolding ray_loop
  render_ray fuel octree ray near_t far_t step_size =
      ray_loop fuel near_t far_t step_size (S.literal 1 0)
        (record { x = S.literal 0 0; y = S.literal 0 0; z = S.literal 0 0 })

  -- `d_sh[0][0] += d`
  unfoldable pub add_first : S.carrier → List (List S.carrier) → Outcome (List (List S.carrier))
  add_first d [] = fault
  add_first d ([] ∷ rows) = fault
  add_first d ((c ∷ row) ∷ rows) = ok ((S.add c d ∷ row) ∷ rows)

  unfoldable pub gradient_loop :
      ℕ
      → Vec3 S
      → S.carrier
      → S.carrier
      → S.carrier
      → S.carrier
      → List (List S.carrier)
      → Outcome (List (List S.carrier))
  unfolding alpha_of add_first
  gradient_loop zero d_loss_d_rgb t far_t step_size transmittance d_sh = out_of_fuel
  gradient_loop (suc fuel) d_loss_d_rgb t far_t step_size transmittance d_sh =
      let alpha = alpha_of step_size in
      let next = do
        d_sh' ← add_first (S.mul d_loss_d_rgb.x (S.mul transmittance alpha)) d_sh
        gradient_loop fuel d_loss_d_rgb (S.add t step_size) far_t step_size
            (S.mul transmittance (S.sub (S.literal 1 0) alpha)) d_sh'
      in if S.less t far_t then next else ok d_sh

  unfoldable pub compute_ray_gradients :
      ℕ
      → SparseVoxelOctree S
      → Ray S
      → Vec3 S
      → S.carrier
      → S.carrier
      → S.carrier
      → Outcome RenderGradients
  unfolding gradient_loop
  compute_ray_gradients fuel octree ray d_loss_d_rgb near_t far_t step_size = do
    d_sh ←
        gradient_loop fuel d_loss_d_rgb near_t far_t step_size (S.literal 1 0)
          (replicate (length octree.nodes) (zero_coeffs S 27))
    ok (record { d_density = zero_coeffs S (length octree.nodes); d_sh = d_sh })
