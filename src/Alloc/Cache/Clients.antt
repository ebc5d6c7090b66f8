-- ===== src/Alloc/Cache/Clients.antt =====
-- Clients of the allocator, and which blocks they hold.
use odyssey_tasks.Prelude.{
  ℕ, ◌+◌, ◌^◌, ◌<◌, ◌≡◌, ◌⊎◌, Option, some, ◌==◌, List, [], ◌∷◌, if◌then◌else◌, All,
}
use odyssey_tasks.Alloc.Cache.{Blocks, Allocator, remove_block, free, malloc, realloc}
use odyssey_tasks.Alloc.Cache.Blocks.{times_in, Apart}

-- What clients call.
pub data Request : Type 0 where
  take_block : ℕ → Request
  give_back : ℕ → Request
  resize : ℕ → ℕ → Request

-- The allocator, with the blocks that clients hold and the sizes that they asked for.
pub record Heap : Type 0 where
  pub allocator : Allocator
  pub live : Blocks

-- A block is held unless it is `nullptr`.
abbrev pub hold : ℕ → ℕ → Blocks → Blocks
hold ptr n live = if ptr == 0 then live else (ptr, n) ∷ live

-- What `realloc` with a block does to what is held: a failure leaves the block.
abbrev pub exchange : ℕ → ℕ → ℕ → Blocks → Blocks
exchange ptr n new_ptr live = if new_ptr == 0 then live else (new_ptr, n) ∷ remove_block ptr live

module _ (posix_memalign : Blocks → ℕ → Option ℕ) where
  unfoldable pub serve : Request → Heap → Heap
  serve (take_block n) h =
      let (ptr, s) = malloc posix_memalign n h.allocator in
      record { allocator = s; live = hold ptr n h.live }
  serve (give_back ptr) h = record {
    allocator = free ptr h.allocator;
    live = if ptr == 0 then h.live else remove_block ptr h.live;
  }
  serve (resize ptr n) h =
      let (new_ptr, s) = realloc posix_memalign ptr n h.allocator in
      record {
        allocator = s;
        live =
            if ptr == 0
            then hold new_ptr n h.live
            else if n == 0
            then remove_block ptr h.live
            else exchange ptr n new_ptr h.live;
      }

  unfoldable pub serve_all : List Request → Heap → Heap
  serve_all [] h = h
  serve_all (r ∷ rs) h = serve_all rs (serve r h)

  -- Sizes have room to be rounded up, and what is given back is held, or `nullptr`.
  abbrev pub Allowed : Request → Heap → Type 0
  Allowed (take_block n) h = n + 15 < 2 ^ 64
  Allowed (give_back ptr) h = (ptr ≡ 0) ⊎ (0 < times_in ptr h.live)
  Allowed (resize ptr n) h = (n + 15 < 2 ^ 64) × ((ptr ≡ 0) ⊎ (0 < times_in ptr h.live))

  abbrev pub AllAllowed : List Request → Heap → Type 0
  AllAllowed [] h = Unit
  AllAllowed (r ∷ rs) h = Allowed r h × AllAllowed rs (serve r h)

-- New blocks are not null, and apart from the others.
abbrev pub IsFresh : (Blocks → ℕ → Option ℕ) → Type 0
IsFresh posix_memalign =
    (blocks : Blocks) (size ptr : ℕ)
    → posix_memalign blocks size ≡ some ptr
    → (0 < ptr) × All (Apart (ptr, size)) blocks
