-- ===== src/Octree/Examples.antt =====
-- Theorems about voxels at concrete values.
use odyssey_tasks.Prelude.{ℕ, ◌+◌, ◌-◌, ◌*◌, ◌^◌, ◌≡◌, refl, some, [], ◌∷◌, ltb, arith}
use odyssey_tasks.Prelude.Outcome.{ok}
use odyssey_tasks.Octree.Morton.{encode3d, decode3d}
use odyssey_tasks.Octree.Morton.RoundTrip.{decode3d-encode3d}
use odyssey_tasks.Octree.Voxels.{
  Scalar, Ray, Voxel, leaf_of, new, insert_voxels, lookup, zero_coeffs,
}
use odyssey_tasks.Octree.Voxels.Lookup.{lookup_first}
use odyssey_tasks.Octree.Renderer.{compute_ray_gradients}
use odyssey_tasks.Octree.Renderer.Gradients.{compute_ray_gradients_lem}

decode3d-encode3d_example :
    decode3d (encode3d 0x1FFFFF 0x123456 (2 ^ 21 + 7)) ≡ (0x1FFFFF, 0x123456, 7)
decode3d-encode3d_example =
    decode3d-encode3d 0x1FFFFF 0x123456 (2 ^ 21 + 7) (omega arith) (omega arith) (omega arith)

-- Numbers without sign or fraction.
abbrev whole : Scalar
whole = record {
  carrier = ℕ;
  add = λ a b. a + b;
  sub = λ a b. a - b;
  mul = λ a b. a * b;
  negate = λ a. a;
  exp = λ a. a;
  less = ltb;
  literal = λ a k. a;
}

abbrev dense : Voxel whole
dense = record { x = 1; y = 2; z = 3; density = 9; sh = zero_coeffs whole 27 }

abbrev thin : Voxel whole
thin = record { x = 4; y = 5; z = 6; density = 1; sh = zero_coeffs whole 27 }

lookup_first_example :
    lookup whole 4 5 6 (insert_voxels whole (dense ∷ thin ∷ []) (new whole 8))
    ≡ some (leaf_of whole dense)
lookup_first_example = lookup_first whole 8 dense (thin ∷ []) 4 5 6

abbrev ahead : Ray whole
ahead = record {
  origin = record { x = 0; y = 0; z = 0 };
  direction = record { x = 1; y = 0; z = 0 };
}

compute_ray_gradients_lem_example :
    (c : ℕ) × (compute_ray_gradients whole 6
        (new whole 8)
        ahead
        (record { x = 1; y = 1; z = 1 })
        0
        5
        1
      ≡ ok record { d_density = zero_coeffs whole 1; d_sh = (c ∷ zero_coeffs whole 26) ∷ [] })
unfolding new
compute_ray_gradients_lem_example =
    compute_ray_gradients_lem whole 5 6 (new whole 8) ahead (record { x = 1; y = 1; z = 1 }) 0 5 1
      (omega arith) (omega arith) refl
