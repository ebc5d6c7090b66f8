-- ===== src/Octree/Voxels/Lookup.antt =====
-- What `Lookup` finds.
use mathlib.Core.List.{append_assoc, append-nil}
use odyssey_tasks.Prelude.{ℕ, ◌≡◌, refl, ap, sym, ◌∙◌, some, List, [], ◌∷◌, ◌++◌}
use odyssey_tasks.Octree.Voxels.{
  Scalar, OctreeNode, SparseVoxelOctree, Voxel, leaf_of, new, insert_voxels, lookup, second,
}

module _ (S : Scalar) where
  leaves : List (Voxel S) → List (OctreeNode S)
  leaves [] = []
  leaves (v ∷ voxels) = leaf_of S v ∷ leaves voxels

  insert_voxels-nodes :
      (voxels : List (Voxel S)) (t : SparseVoxelOctree S)
      → (insert_voxels S voxels t).nodes ≡ t.nodes ++ leaves voxels
  unfolding insert_voxels leaves
  insert_voxels-nodes [] t = sym (append-nil t.nodes)
  insert_voxels-nodes (v ∷ voxels) t =
      insert_voxels-nodes voxels (record t { nodes = t.nodes ++ leaf_of S v ∷ [] })
      ∙ append_assoc t.nodes (leaf_of S v ∷ []) (leaves voxels)

  -- Whatever voxels were inserted, and wherever one looks, the first of them is found.
  pub lookup_first :
      (max_depth : ℕ) (first : Voxel S) (voxels : List (Voxel S)) (x y z : ℕ)
      → lookup S x y z (insert_voxels S (first ∷ voxels) (new S max_depth)) ≡ some (leaf_of S first)
  unfolding lookup new leaves second
  lookup_first max_depth first voxels x y z =
      ap (second S) (insert_voxels-nodes (first ∷ voxels) (new S max_depth)) ∙ found
    where
      found : second S ((new S max_depth).nodes ++ leaves (first ∷ voxels)) ≡ some (leaf_of S first)
      found = refl
