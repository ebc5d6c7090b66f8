-- ===== src/Alloc/Cache/Examples.antt =====
-- Theorems on the allocator at concrete values.
use odyssey_tasks.Prelude.{ℕ, ◌+◌, ◌≡◌, ◌<◌, ◌≤◌, inr, Option, some, List, [], ◌∷◌, All, arith, max}
use odyssey_tasks.Alloc.Cache.{
  destroy, Blocks, new, malloc, allocate, aligned_alloc_16, handed_out, round_up, size_to_class,
}
use odyssey_tasks.Alloc.Cache.Blocks.{times_in, Apart, AllApart}
use odyssey_tasks.Alloc.Cache.Clients.{
  Request, take_block, give_back, Heap, serve, serve_all, IsFresh,
}
use odyssey_tasks.Alloc.Cache.Soundness.{Backed, serve_all-IsSound}
use odyssey_tasks.Alloc.Cache.Destroy.{destroy-serve_all}
use odyssey_tasks.Alloc.Cache.Refinement.{Pool}
use odyssey_tasks.Alloc.Cache.Simulation.{answers, pool_answers, answers_refine}

-- A C library that puts each block behind all others.
end_of : Blocks → ℕ
end_of [] = 1
end_of ((a, size) ∷ blocks) = max (a + size) (end_of blocks)

behind : Blocks → ℕ → Option ℕ
behind blocks size = some (end_of blocks)

end_of_positive : (blocks : Blocks) → 0 < end_of blocks
unfolding end_of
end_of_positive [] = omega arith
end_of_positive ((a, size) ∷ blocks) = omega (arith, end_of_positive blocks)

end_of_behind :
    (blocks : Blocks) (ptr size : ℕ) → end_of blocks ≤ ptr → All (Apart (ptr, size)) blocks
unfolding end_of
end_of_behind [] ptr size last = tt
end_of_behind ((a, n) ∷ blocks) ptr size last =
    (inr (omega arith), end_of_behind blocks ptr size (omega arith))

behind-IsFresh : IsFresh behind
unfolding behind
behind-IsFresh blocks size ptr e =
    let at : end_of blocks ≡ ptr = ground (arith, e) in
    (omega (arith, at, end_of_positive blocks), end_of_behind blocks ptr size (omega (arith, at)))

abbrev requests : List Request
requests = take_block 100 ∷ take_block 10 ∷ give_back 1 ∷ take_block 8 ∷ []

abbrev start : Heap
start = record { allocator = new (λ a. 0); live = [] }

serve_all-IsSound_example :
    let h = serve_all behind requests start in
    AllApart h.live × All (Backed h.allocator.blocks) h.live
unfolding serve malloc allocate aligned_alloc_16 handed_out round_up size_to_class new behind end_of
    times_in
serve_all-IsSound_example =
    serve_all-IsSound behind behind-IsFresh (λ a. 0) requests
      (omega arith, (omega arith, (inr (omega arith), (omega arith, tt))))

destroy-serve_all_example :
    let h = serve_all behind requests start in
    times_in 1 (destroy h.allocator).blocks ≡ times_in 1 h.live
unfolding serve malloc allocate aligned_alloc_16 handed_out round_up size_to_class new behind end_of
    times_in
destroy-serve_all_example =
    destroy-serve_all behind behind-IsFresh (λ a. 0) requests
      (omega arith, (omega arith, (inr (omega arith), (omega arith, tt)))) 1

abbrev no_blocks : Pool
no_blocks = record { blocks = []; waiting = [] }

answers_refine_example : answers behind requests start ≡ pool_answers behind requests no_blocks
unfolding serve malloc allocate aligned_alloc_16 handed_out round_up size_to_class new behind end_of
    times_in
answers_refine_example =
    answers_refine behind behind-IsFresh (λ a. 0) requests
      (omega arith, (omega arith, (inr (omega arith), (omega arith, tt))))
