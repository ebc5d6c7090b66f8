-- ===== src/Alloc/Cache.antt =====
-- allocator_ref.cpp: the cache of one thread, and `Malloc`, `Free` and `Realloc` on it. Addresses are
-- numbers, `nullptr` is 0. `blocks` is what the C library has handed out and not taken back; the
-- pointer that a free node holds is kept apart from the bytes.
pub mod Blocks
pub mod Sizes
pub mod Invariant
pub mod Clients
pub mod Soundness
pub mod Refinement
pub mod Simulation
pub mod Contents
pub mod Destroy
mod Examples
use odyssey_tasks.Prelude.{
  ℕ, zero, suc, ◌+◌, ◌-◌, ◌*◌, ◌%◌, ◌^◌, max, min, Bool, true, false, ◌&&◌, not, Option, none, some,
  List, [], ◌∷◌, ltb, leb, ◌==◌, if◌then◌else◌,
}

abbrev pub Blocks : Type 0
Blocks = List (ℕ × ℕ)

pub record Allocator : Type 0 where
  pub blocks : Blocks
  pub bins : ℕ → ℕ
  pub counts : ℕ → ℕ
  pub next : ℕ → ℕ
  pub bytes : ℕ → ℕ

abbrev pub num_small_classes : ℕ
num_small_classes = 13

abbrev pub max_small_size : ℕ
max_small_size = 1024

-- `sizeof(FreeNode)`, which is aligned to 64.
abbrev pub free_node_size : ℕ
free_node_size = 64

-- An assignment to a member of an array, or to a word of memory.
abbrev pub set : ℕ → ℕ → (ℕ → ℕ) → ℕ → ℕ
set i v f j = if j == i then v else f j

pub new : (ℕ → ℕ) → Allocator
new bytes = record { blocks = []; bins = λ i. 0; counts = λ i. 0; next = λ a. 0; bytes = bytes }

-- `(size + 15) & ~15`, in 64 bits.
pub round_up : ℕ → ℕ
round_up size = let sum = (size + 15) % 2 ^ 64 in sum - sum % 16

unfoldable pub remove_block : ℕ → Blocks → Blocks
remove_block ptr [] = []
remove_block ptr ((a, size) ∷ blocks) =
    if a == ptr then blocks else (a, size) ∷ remove_block ptr blocks

pub aligned_free_16 : ℕ → Allocator → Allocator
aligned_free_16 ptr s = record s { blocks = remove_block ptr s.blocks }

pub size_to_class : ℕ → ℕ
size_to_class bytes =
    if leb bytes 16
    then 0
    else if leb bytes 32
    then 1
    else if leb bytes 64
    then 2
    else if leb bytes 128
    then 3
    else if leb bytes 256
    then 4
    else if leb bytes 512
    then 5
    else if leb bytes 1024
    then 6
    else num_small_classes - 1

class_to_size : ℕ → ℕ
class_to_size size_class = 2 ^ (size_class + 4) % 2 ^ 64

deallocate : ℕ → ℕ → Allocator → Allocator
deallocate size_class ptr s =
    if ptr == 0
    then s
    else if ltb size_class num_small_classes && ltb (s.counts size_class) 64
    then record s {
      next = set ptr (s.bins size_class) s.next;
      bins = set size_class ptr s.bins;
      counts = set size_class ((s.counts size_class + 1) % 2 ^ 64) s.counts;
    }
    else aligned_free_16 ptr s

-- `Free` takes every block for one of the smallest class.
pub free : ℕ → Allocator → Allocator
free ptr s = if ptr == 0 then s else deallocate 0 ptr s

pub memcpy : ℕ → ℕ → ℕ → Allocator → Allocator
memcpy dst src n s = record s {
  bytes = λ a. if leb dst a && ltb a (dst + n) then s.bytes (src + (a - dst)) else s.bytes a;
}

-- The end of `Realloc`, once there is a new block.
pub move : ℕ → ℕ → ℕ × Allocator → ℕ × Allocator
move ptr new_size (new_ptr, s) =
    if new_ptr == 0 then (0, s) else (new_ptr, free ptr (memcpy new_ptr ptr (min new_size 32) s))

-- The loop of `~ThreadCache` over one bin from `curr` on, with fuel for its rounds.
destroy_bin : ℕ → ℕ → Allocator → Allocator
destroy_bin zero curr s = s
destroy_bin (suc fuel) curr s =
    let rest = destroy_bin fuel (s.next curr) (aligned_free_16 curr s) in
    if curr == 0 then s else rest

abbrev clear_bin : ℕ → Allocator → Allocator
clear_bin i s = record s { bins = set i 0 s.bins; counts = set i 0 s.counts }

-- The loop over the bins from `i` on. A bin of `counts` nodes takes as many rounds, and one more.
destroy_bins : ℕ → ℕ → Allocator → Allocator
destroy_bins zero i s = s
destroy_bins (suc rounds) i s =
    destroy_bins rounds (suc i) (clear_bin i (destroy_bin (suc (s.counts i)) (s.bins i) s))

pub destroy : Allocator → Allocator
destroy s = destroy_bins num_small_classes 0 s

-- `posix_memalign` of the C library, from what it has handed out and a size to an address.
module _ (posix_memalign : Blocks → ℕ → Option ℕ) where
  handed_out : ℕ → Allocator → Option ℕ → ℕ × Allocator
  handed_out size s none = (0, s)
  handed_out size s (some ptr) = (ptr, record s { blocks = (ptr, size) ∷ s.blocks })

  aligned_alloc_16 : ℕ → Allocator → ℕ × Allocator
  aligned_alloc_16 size s = handed_out (round_up size) s (posix_memalign s.blocks (round_up size))

  allocate : ℕ → ℕ → Allocator → ℕ × Allocator
  allocate size_class obj_size s =
      if ltb size_class num_small_classes && not (s.bins size_class == 0)
      then (
        s.bins size_class,
        record s {
          bins = set size_class (s.next (s.bins size_class)) s.bins;
          counts = set size_class ((s.counts size_class + 2 ^ 64 - 1) % 2 ^ 64) s.counts;
        },
      )
      else aligned_alloc_16 (round_up (max obj_size free_node_size)) s

  pub malloc : ℕ → Allocator → ℕ × Allocator
  malloc bytes s =
      if bytes == 0
      then (0, s)
      else if leb bytes max_small_size
      then allocate (size_to_class bytes) bytes s
      else aligned_alloc_16 (round_up bytes) s

  pub realloc : ℕ → ℕ → Allocator → ℕ × Allocator
  realloc ptr new_size s =
      if ptr == 0
      then malloc new_size s
      else if new_size == 0
      then (0, free ptr s)
      else move ptr new_size (malloc new_size s)
