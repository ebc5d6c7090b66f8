-- ===== src/Alloc/Arena.antt =====
-- slab_arena.hpp and slab_arena.cpp of environment/: the stacks of free nodes that threads share. A node
-- is its address, 0 is the null pointer. Between the load of a head and its exchange the other threads
-- act once in each round; an exchange may fail without cause.
pub mod Push
mod Examples
use odyssey_tasks.Prelude.{
  ℕ, Bool, true, false, not, ◌&&◌, ◌||◌, List, [], ◌∷◌, leb, ◌==◌, if◌then◌else◌,
}
use odyssey_tasks.Prelude.Outcome.{Outcome, ok, out_of_fuel}
use odyssey_tasks.Alloc.Cache.{num_small_classes, set}

pub record CentralArena : Type 0 where
  pub central_bins : ℕ → ℕ
  pub next : ℕ → ℕ

pub record Interference : Type 0 where
  pub act : CentralArena → CentralArena
  pub spurious : Bool

unfoldable pub new : (ℕ → ℕ) → CentralArena
new memory = record { central_bins = λ size_class. 0; next = memory }

-- Whether `compare_exchange_weak` exchanges.
unfoldable pub exchanges : Interference → CentralArena → ℕ → ℕ → Bool
exchanges others s size_class expected =
    not others.spurious && (s.central_bins size_class == expected)

unfoldable pub set_bin : ℕ → ℕ → CentralArena → CentralArena
set_bin size_class head s = record s { central_bins = set size_class head s.central_bins }

-- The node behind the head is read before the others act.
unfoldable pub pop_loop : List Interference → ℕ → ℕ → CentralArena → Outcome (ℕ × CentralArena)
unfolding exchanges set_bin
pop_loop [] size_class head s = if head == 0 then ok (0, s) else out_of_fuel
pop_loop (others ∷ rounds) size_class head s =
    let met = others.act s in
    let again = pop_loop rounds size_class (met.central_bins size_class) met in
    if head == 0
    then ok (0, s)
    else if exchanges others met size_class head
    then ok (head, set_bin size_class (s.next head) met)
    else again

-- `count` plays no part.
unfoldable pub pop_batch : List Interference → ℕ → ℕ → CentralArena → Outcome (ℕ × CentralArena)
unfolding pop_loop
pop_batch rounds size_class count s =
    if leb num_small_classes size_class
    then ok (0, s)
    else pop_loop rounds size_class (s.central_bins size_class) s

unfoldable pub push_loop : List Interference → ℕ → ℕ → ℕ → ℕ → CentralArena → Outcome CentralArena
unfolding exchanges set_bin
push_loop [] size_class head tail old_head s = out_of_fuel
push_loop (others ∷ rounds) size_class head tail old_head s =
    let met = others.act (record s { next = set tail old_head s.next }) in
    let again = push_loop rounds size_class head tail (met.central_bins size_class) met in
    if exchanges others met size_class old_head then ok (set_bin size_class head met) else again

unfoldable pub push_batch : List Interference → ℕ → ℕ → ℕ → ℕ → CentralArena → Outcome CentralArena
unfolding push_loop
push_batch rounds size_class head tail count s =
    if head == 0 || leb num_small_classes size_class
    then ok s
    else push_loop rounds size_class head tail (s.central_bins size_class) s
