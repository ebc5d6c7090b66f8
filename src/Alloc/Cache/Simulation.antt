-- ===== src/Alloc/Cache/Simulation.antt =====
-- Whatever clients ask for, the allocator answers as the pool does.
use odyssey_tasks.Prelude.{
  ℕ, ◌+◌, ◌^◌, ◌<◌, ◌≡◌, ◌⊎◌, inl, inr, refl, min, true, false, Option, ◌==◌, List, [], ◌∷◌,
  if◌then◌else◌, arith, Bool-cases, ap₂,
}
use odyssey_tasks.Alloc.Cache.{
  Blocks, Allocator, new, free, memcpy, move, malloc, realloc, remove_block,
}
use odyssey_tasks.Alloc.Cache.Blocks.{times_in}
use odyssey_tasks.Alloc.Cache.Invariant.{Invariant, unique, memcpy-Invariant}
use odyssey_tasks.Alloc.Cache.Clients.{
  Request, take_block, give_back, resize, Heap, hold, exchange, serve, Allowed, AllAllowed, IsFresh,
}
use odyssey_tasks.Alloc.Cache.Soundness.{new-Invariant}
use odyssey_tasks.Alloc.Cache.Refinement.{
  Pool, put_back, take_out, Represents, malloc-Agree, free-Represents,
}

exchange_pool : ℕ → ℕ × Pool → ℕ × Pool
exchange_pool ptr (new_ptr, p) = (new_ptr, if new_ptr == 0 then p else put_back ptr p)

module _ (posix_memalign : Blocks → ℕ → Option ℕ) where
  serve_pool : Request → Pool → ℕ × Pool
  serve_pool (take_block n) p = take_out posix_memalign n p
  serve_pool (give_back ptr) p = (0, put_back ptr p)
  serve_pool (resize ptr n) p =
      if ptr == 0
      then take_out posix_memalign n p
      else if n == 0
      then (0, put_back ptr p)
      else exchange_pool ptr (take_out posix_memalign n p)

  -- The addresses that a pool answers with, 0 for none.
  pub pool_answers : List Request → Pool → List ℕ
  pool_answers [] p = []
  pool_answers (r ∷ rs) p = (serve_pool r p).0 ∷ pool_answers rs (serve_pool r p).1

  answer : Request → Allocator → ℕ
  answer (take_block n) s = (malloc posix_memalign n s).0
  answer (give_back ptr) s = 0
  answer (resize ptr n) s = (realloc posix_memalign ptr n s).0

  -- The addresses that the allocator answers with.
  pub answers : List Request → Heap → List ℕ
  answers [] h = []
  answers (r ∷ rs) h = answer r h.allocator ∷ answers rs (serve posix_memalign r h)

module _ (posix_memalign : Blocks → ℕ → Option ℕ) (fresh : IsFresh posix_memalign) where
  abbrev Matches : ℕ × Allocator → Blocks → ℕ × Pool → Type 0
  Matches r live r' = (r.0 ≡ r'.0) × Represents r.1 live r'.1

  move-Matches :
      (ptr n : ℕ) (live : Blocks) (r : ℕ × Allocator) (r' : ℕ × Pool)
      → 0 < times_in ptr live
      → Matches r (hold r.0 n live) r'
      → Matches (move ptr n r) (exchange ptr n (move ptr n r).0 live) (exchange_pool ptr r')
  unfolding move exchange_pool times_in remove_block memcpy
  move-Matches ptr n live (new_ptr, s) (new_ptr', p) held (e, (same, inv)) =
      elim (Bool-cases (new_ptr == 0)) [
        | inl null ↦
            let null' : (new_ptr' == 0) ≡ true = ground (arith, null, e) in
            let empty : 0 ≡ new_ptr' = ground (arith, null') in
            rw (null, null') (empty, (same, rw null at inv))
        | inr found ↦
            let found' : (new_ptr' == 0) ≡ false = ground (arith, found, e) in
            let sound : Invariant s ((new_ptr, n) ∷ live) p.waiting = rw found at inv in
            let once = unique ptr s.blocks inv.apart inv.usable in
            let twice = sound.split ptr in
            let other : (new_ptr == ptr) ≡ false = ground (arith, once, twice) in
            let copied =
              memcpy-Invariant new_ptr ptr (min n 32) s ((new_ptr, n) ∷ live) p.waiting sound in
            let given =
              free-Represents posix_memalign fresh ptr (memcpy new_ptr ptr (min n 32) s)
                ((new_ptr, n) ∷ live) p (ground (arith, held)) (same, copied) in
            rw (found, found, found') (e, rw other at given)
      ]

  resize-Matches :
      (ptr n : ℕ) (h : Heap) (p : Pool)
      → n + 15 < 2 ^ 64
      → (ptr ≡ 0) ⊎ (0 < times_in ptr h.live)
      → Represents h.allocator h.live p
      → Matches
          (realloc posix_memalign ptr n h.allocator)
          (serve posix_memalign (resize ptr n) h).live
          (serve_pool posix_memalign (resize ptr n) p)
  unfolding realloc serve serve_pool
  resize-Matches ptr n h p room held rep = elim (Bool-cases (ptr == 0)) [
    | inl null ↦ rw null (malloc-Agree posix_memalign fresh n h.allocator h.live p room rep)
    | inr block ↦
        let member : 0 < times_in ptr h.live = ground (arith, held, block) in
        elim (Bool-cases (n == 0)) [
          | inl empty ↦
              rw (block, empty)
                (refl, free-Represents posix_memalign fresh ptr h.allocator h.live p member rep)
          | inr sized ↦
              rw (block, sized)
                (move-Matches ptr n h.live (malloc posix_memalign n h.allocator)
                  (take_out posix_memalign n p) member
                  (malloc-Agree posix_memalign fresh n h.allocator h.live p room rep))
        ]
  ]

  give_back-Matches :
      (ptr : ℕ) (h : Heap) (p : Pool)
      → (ptr ≡ 0) ⊎ (0 < times_in ptr h.live)
      → Represents h.allocator h.live p
      → Represents
          (free ptr h.allocator)
          (serve posix_memalign (give_back ptr) h).live
          (put_back ptr p)
  unfolding serve free put_back
  give_back-Matches ptr h p held rep = elim (Bool-cases (ptr == 0)) [
    | inl null ↦ rw null rep
    | inr block ↦
        let member : 0 < times_in ptr h.live = ground (arith, held, block) in
        let given = free-Represents posix_memalign fresh ptr h.allocator h.live p member rep in
        rw block (rw block at given)
  ]

  serve-Matches :
      (r : Request) (h : Heap) (p : Pool)
      → Allowed posix_memalign r h
      → Represents h.allocator h.live p
      → let h' = serve posix_memalign r h in
        Matches
          (answer posix_memalign r h.allocator, h'.allocator)
          h'.live
          (serve_pool posix_memalign r p)
  unfolding serve serve_pool answer
  serve-Matches (take_block n) h p room rep =
      malloc-Agree posix_memalign fresh n h.allocator h.live p room rep
  serve-Matches (give_back ptr) h p held rep = (refl, give_back-Matches ptr h p held rep)
  serve-Matches (resize ptr n) h p (room, held) rep = resize-Matches ptr n h p room held rep

  answers-pool :
      (rs : List Request) (h : Heap) (p : Pool)
      → AllAllowed posix_memalign rs h
      → Represents h.allocator h.live p
      → answers posix_memalign rs h ≡ pool_answers posix_memalign rs p
  unfolding answers pool_answers
  answers-pool [] h p allowed rep = refl
  answers-pool (r ∷ rs) h p (allowed, all) rep =
      let (e, rep') = serve-Matches r h p allowed rep in
      ap₂ (λ (a : ℕ) (l : List ℕ). a ∷ l) e
        (answers-pool rs (serve posix_memalign r h) (serve_pool posix_memalign r p).1 all rep')

-- The allocator refines a pool that keeps a list of at most 64 blocks in place of bins, counts and
-- linked nodes: starting without blocks, it answers all requests with the same addresses, as long as
-- clients give back what they hold and ask for less than 2^64 - 15 bytes, provided that the C library's
-- new blocks are not null and apart from the others.
pub answers_refine :
    (posix_memalign : Blocks → ℕ → Option ℕ)
    → IsFresh posix_memalign
    → (bytes : ℕ → ℕ) (rs : List Request)
    → AllAllowed posix_memalign rs (record { allocator = new bytes; live = [] })
    → answers posix_memalign rs (record { allocator = new bytes; live = [] })
      ≡ pool_answers posix_memalign rs (record { blocks = []; waiting = [] })
unfolding new
answers_refine posix_memalign fresh bytes rs allowed =
    let start : Heap = record { allocator = new bytes; live = [] } in
    let pool : Pool = record { blocks = []; waiting = [] } in
    answers-pool posix_memalign fresh rs start pool allowed (refl, new-Invariant bytes)
