-- ===== src/Octree/Voxels.antt =====
-- svo_types.hpp, octree.hpp and octree.cpp: the nodes of an octree, which are a list. Single precision
-- numbers are the parameter `Scalar`.
pub mod Lookup
use odyssey_tasks.Prelude.{ℕ, zero, suc, Bool, Option, none, some, List, [], ◌∷◌, ◌++◌, length}

pub record Scalar : Type 1 where
  pub carrier : Type 0
  pub add : carrier → carrier → carrier
  pub sub : carrier → carrier → carrier
  pub mul : carrier → carrier → carrier
  pub negate : carrier → carrier
  pub exp : carrier → carrier
  pub less : carrier → carrier → Bool
  -- The literal of this many digits behind the point.
  pub literal : ℕ → ℕ → carrier

module _ (S : Scalar) where
  pub record Vec3 : Type 0 where
    pub x : S.carrier
    pub y : S.carrier
    pub z : S.carrier

  pub add_vec : Vec3 → Vec3 → Vec3
  add_vec v o = record { x = S.add v.x o.x; y = S.add v.y o.y; z = S.add v.z o.z }

  pub sub_vec : Vec3 → Vec3 → Vec3
  sub_vec v o = record { x = S.sub v.x o.x; y = S.sub v.y o.y; z = S.sub v.z o.z }

  pub scale_vec : Vec3 → S.carrier → Vec3
  scale_vec v s = record { x = S.mul v.x s; y = S.mul v.y s; z = S.mul v.z s }

  pub record Ray : Type 0 where
    pub origin : Vec3
    pub direction : Vec3

  pub record OctreeNode : Type 0 where
    pub child_mask : ℕ
    pub child_offset : ℕ
    pub density : S.carrier
    pub sh_coeffs : List S.carrier

  abbrev pub zero_coeffs : ℕ → List S.carrier
  zero_coeffs zero = []
  zero_coeffs (suc n) = S.literal 0 0 ∷ zero_coeffs n

  abbrev pub fresh_node : OctreeNode
  fresh_node = record {
    child_mask = 0;
    child_offset = 0;
    density = S.literal 0 0;
    sh_coeffs = zero_coeffs 27;
  }

  pub record SparseVoxelOctree : Type 0 where
    pub max_depth : ℕ
    pub nodes : List OctreeNode

  unfoldable pub new : ℕ → SparseVoxelOctree
  new max_depth = record { max_depth = max_depth; nodes = fresh_node ∷ [] }

  -- A voxel as `InsertVoxel` gets it.
  pub record Voxel : Type 0 where
    pub x : ℕ
    pub y : ℕ
    pub z : ℕ
    pub density : S.carrier
    pub sh : List S.carrier

  abbrev pub leaf_of : Voxel → OctreeNode
  leaf_of v = record fresh_node { density = v.density; sh_coeffs = v.sh }

  unfoldable pub insert_voxel : Voxel → SparseVoxelOctree → SparseVoxelOctree
  insert_voxel v t = record t { nodes = t.nodes ++ leaf_of v ∷ [] }

  unfoldable pub insert_voxels : List Voxel → SparseVoxelOctree → SparseVoxelOctree
  unfolding insert_voxel
  insert_voxels [] t = t
  insert_voxels (v ∷ voxels) t = insert_voxels voxels (insert_voxel v t)

  -- `&nodes_[1]`, if there is one.
  unfoldable pub second : List OctreeNode → Option OctreeNode
  second [] = none
  second (root ∷ []) = none
  second (root ∷ n ∷ nodes) = some n

  unfoldable pub lookup : ℕ → ℕ → ℕ → SparseVoxelOctree → Option OctreeNode
  unfolding second
  lookup x y z t = second t.nodes
