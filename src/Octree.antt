-- ===== src/Octree.antt =====
-- tasks/differentiable-sparse-voxel-octree: Morton codes, the list of voxels and the renderer.
pub mod Morton
pub mod Voxels
pub mod Renderer
mod Examples
