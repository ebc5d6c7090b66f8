-- ===== src/Alloc/Cache/Refinement.antt =====
-- The allocator as a pool: what remains of it without bins, counts, pointers and bytes.
use mathlib.Core.Path.{subst}
use odyssey_tasks.Prelude.{
  ℕ, ◌+◌, ◌^◌, ◌≤◌, ◌<◌, ◌≡◌, ◌≢◌, ◌⊎◌, inl, inr, refl, max, true, false, Option, none, some, ltb,
  leb, ◌==◌, not, ◌&&◌, List, [], ◌∷◌, if◌then◌else◌, arith, Bool-cases, length, sym, ap,
}
use odyssey_tasks.Alloc.Cache.{
  Blocks, Allocator, num_small_classes, max_small_size, round_up, size_to_class, handed_out,
  aligned_alloc_16, allocate, malloc, remove_block, aligned_free_16, deallocate, free,
}
use odyssey_tasks.Alloc.Cache.Sizes.{popped, round_up_bounds, size_to_class_cases}
use odyssey_tasks.Alloc.Cache.Invariant.{
  Invariant, pop-Invariant, fresh-Invariant, bin-Invariant, library-Invariant, Usable,
}
use odyssey_tasks.Alloc.Cache.Blocks.{times_in, All-at}
use odyssey_tasks.Alloc.Cache.Clients.{hold, IsFresh}

-- The blocks of the C library, and those that wait to be handed out again, the next first.
pub record Pool : Type 0 where
  pub blocks : Blocks
  pub waiting : List ℕ

-- The size of a new block.
pub block_size : ℕ → ℕ
block_size n = round_up (round_up (max n 64))

block_size_wide : (n : ℕ) → n + 15 < 2 ^ 64 → max n 64 ≤ block_size n
unfolding block_size
block_size_wide n room =
    let once = round_up_bounds (max n 64) (omega arith) in
    omega (arith, once, round_up_bounds (round_up (max n 64)) once.1)

unfoldable pub put_back : ℕ → Pool → Pool
put_back ptr p =
    if ptr == 0
    then p
    else if ltb (length p.waiting) 64
    then record p { waiting = ptr ∷ p.waiting }
    else record p { blocks = remove_block ptr p.blocks }

module _ (posix_memalign : Blocks → ℕ → Option ℕ) where
  pub new_block : ℕ → Pool → Option ℕ → ℕ × Pool
  new_block size p none = (0, p)
  new_block size p (some ptr) = (ptr, record p { blocks = (ptr, size) ∷ p.blocks })

  take_waiting : ℕ → Pool → List ℕ → ℕ × Pool
  take_waiting n p [] = new_block (block_size n) p (posix_memalign p.blocks (block_size n))
  take_waiting n p (c ∷ cs) = (c, record p { waiting = cs })

  -- Small requests take a block that waits; others, or where none waits, a new one.
  pub take_out : ℕ → Pool → ℕ × Pool
  take_out n p =
      if n == 0
      then (0, p)
      else if leb n 16
      then take_waiting n p p.waiting
      else new_block (block_size n) p (posix_memalign p.blocks (block_size n))

  malloc_zero : (n : ℕ) (s : Allocator) → (n == 0) ≡ true → malloc posix_memalign n s ≡ (0, s)
  unfolding malloc
  malloc_zero n s empty = rw empty refl

  -- The two ways of `Malloc`.
  malloc_pop :
      (n : ℕ) (s : Allocator)
      → n ≢ 0
      → n ≤ 16
      → s.bins 0 ≢ 0
      → malloc posix_memalign n s ≡ (s.bins 0, popped s)
  unfolding malloc allocate size_to_class
  malloc_pop n s sized small filled =
      let some_bytes : (n == 0) ≡ false = ground (arith, sized) in
      let first : leb n 16 ≡ true = ground arith in
      let fits : leb n max_small_size ≡ true = ground arith in
      let head : (s.bins 0 == 0) ≡ false = ground (arith, filled) in
      rw (some_bytes, fits, first, head) refl

  malloc_new :
      (n : ℕ) (s : Allocator)
      → n ≢ 0
      → ((n ≤ 16) × (s.bins 0 ≡ 0)) ⊎ (16 < n)
      → ((i : ℕ) → 0 < i → s.bins i ≡ 0)
      → malloc posix_memalign n s
        ≡ handed_out posix_memalign (block_size n) s (posix_memalign s.blocks (block_size n))
  unfolding malloc allocate aligned_alloc_16 block_size
  malloc_new n s sized empty others =
      let some_bytes : (n == 0) ≡ false = ground (arith, sized) in
      let bin : s.bins (size_to_class n) ≡ 0 = elim (size_to_class_cases n) [
        | inl (small, first) ↦
            let none_waits : s.bins 0 ≡ 0 = elim empty [
              | inl h ↦ h.1
              | inr large ↦ absurd (omega arith)
            ] in
            rw first none_waits
        | inr higher ↦ others (size_to_class n) higher
      ] in
      let test : (ltb (size_to_class n) num_small_classes && not (s.bins (size_to_class n) == 0))
          ≡ false =
        ground (arith, bin) in
      elim (Bool-cases (leb n max_small_size)) [
        | inl small ↦ rw (some_bytes, small, test) refl
        | inr large ↦ let same : max n 64 ≡ n = ground arith in rw (some_bytes, large, same) refl
      ]

-- The bins and pointers of an allocator stand for a pool, where clients hold `live`.
abbrev pub Represents : Allocator → Blocks → Pool → Type 0
Represents s live p = (s.blocks ≡ p.blocks) × Invariant s live p.waiting

module _ (posix_memalign : Blocks → ℕ → Option ℕ) (fresh : IsFresh posix_memalign) where
  -- The same answer, and states that correspond.
  abbrev pub Agree : ℕ → Blocks → ℕ × Allocator → ℕ × Pool → Type 0
  Agree n live r r' = (r.0 ≡ r'.0) × Represents r.1 (hold r.0 n live) r'.1

  handed_out-Agree :
      (n : ℕ) (s : Allocator) (live : Blocks) (p : Pool) (o : Option ℕ)
      → n + 15 < 2 ^ 64
      → Represents s live p
      → posix_memalign s.blocks (block_size n) ≡ o
      → Agree n live
          (handed_out posix_memalign (block_size n) s o)
          (new_block posix_memalign (block_size n) p o)
  unfolding handed_out new_block
  handed_out-Agree n s live p none room (same, inv) found = (refl, (same, inv))
  handed_out-Agree n s live p (some ptr) room (same, inv) found =
      let (positive, far) = fresh s.blocks (block_size n) ptr found in
      let held : (ptr == 0) ≡ false = ground arith in
      let wide : max n 64 ≤ block_size n = block_size_wide n room in
      (
        refl,
        (
          ap (λ (bs : Blocks). (ptr, block_size n) ∷ bs) same,
          rw held (fresh-Invariant n ptr (block_size n) s live p.waiting wide positive far inv),
        ),
      )

  new-Agree :
      (n : ℕ) (s : Allocator) (live : Blocks) (p : Pool)
      → n + 15 < 2 ^ 64
      → Represents s live p
      → Agree n live
          (handed_out posix_memalign (block_size n) s (posix_memalign s.blocks (block_size n)))
          (new_block posix_memalign (block_size n) p (posix_memalign p.blocks (block_size n)))
  new-Agree n s live p room (same, inv) =
      let size = block_size n in
      let given = posix_memalign s.blocks size in
      subst
        (λ (o : Option ℕ).
          Agree n live (handed_out posix_memalign size s given) (new_block posix_memalign size p o))
        (ap (λ (bs : Blocks). posix_memalign bs size) same)
        (handed_out-Agree n s live p given room (same, inv) refl)

  waiting-Agree :
      (n : ℕ) (s : Allocator) (live : Blocks) (blocks : Blocks) (waiting : List ℕ)
      → n + 15 < 2 ^ 64
      → n ≢ 0
      → n ≤ 16
      → (s.blocks ≡ blocks) × Invariant s live waiting
      → Agree n live
          (malloc posix_memalign n s)
          (take_waiting posix_memalign n (record { blocks = blocks; waiting = waiting }) waiting)
  unfolding take_waiting
  waiting-Agree n s live blocks [] room sized small (same, inv) =
      rw (malloc_new posix_memalign n s sized (inl (small, inv.chain)) inv.others)
        (new-Agree n s live (record { blocks = blocks; waiting = [] }) room (same, inv))
  waiting-Agree n s live blocks (c ∷ cs) room sized small (same, inv) =
      let head : s.bins 0 ≡ c = inv.chain.0 in
      let filled : s.bins 0 ≢ 0 = ground (arith, head, inv.chain.1) in
      let held : (s.bins 0 == 0) ≡ false = ground (arith, filled) in
      let after : Invariant (popped s) ((s.bins 0, n) ∷ live) cs =
        subst (λ (ptr : ℕ). Invariant (popped s) ((ptr, n) ∷ live) cs) (sym head)
          (pop-Invariant n s live c cs small inv) in
      rw (malloc_pop posix_memalign n s sized small filled) (head, (same, rw held after))

  pub malloc-Agree :
      (n : ℕ) (s : Allocator) (live : Blocks) (p : Pool)
      → n + 15 < 2 ^ 64
      → Represents s live p
      → Agree n live (malloc posix_memalign n s) (take_out posix_memalign n p)
  unfolding take_out
  malloc-Agree n s live p room rep = elim (Bool-cases (n == 0)) [
    | inl empty ↦ rw empty (rw (malloc_zero posix_memalign n s empty) (refl, rep))
    | inr some_bytes ↦
        let sized : n ≢ 0 = ground (arith, some_bytes) in
        elim (Bool-cases (leb n 16)) [
          | inl small ↦
              rw (some_bytes, small)
                (waiting-Agree n s live p.blocks p.waiting room sized (ground (arith, small)) rep)
          | inr large ↦
              let big : 16 < n = ground (arith, large) in
              rw (some_bytes, large)
                (rw (malloc_new posix_memalign n s sized (inr big) rep.1.others)
                  (new-Agree n s live p room rep))
        ]
  ]

  pub free-Represents :
      (ptr : ℕ) (s : Allocator) (live : Blocks) (p : Pool)
      → 0 < times_in ptr live
      → Represents s live p
      → Represents (free ptr s) (remove_block ptr live) (put_back ptr p)
  unfolding free deallocate put_back aligned_free_16
  free-Represents ptr s live p held (same, inv) =
      let all = inv.split ptr in
      let member : 0 < times_in ptr s.blocks = omega (arith, all) in
      let positive : 0 < ptr = (All-at Usable ptr s.blocks inv.usable member).0 in
      let block : (ptr == 0) ≡ false = ground arith in
      let counted : s.counts 0 ≡ length p.waiting = inv.counted in
      elim (Bool-cases (ltb (length p.waiting) 64)) [
        | inl room ↦
            let roomy : ltb (s.counts 0) 64 ≡ true = rw counted room in
            rw (block, roomy, room)
              (same, bin-Invariant ptr s live p.waiting held inv positive (ground (arith, room)))
        | inr full ↦
            let filled : ltb (s.counts 0) 64 ≡ false = rw counted full in
            rw (block, filled, full)
              (ap (remove_block ptr) same, library-Invariant ptr s live p.waiting held inv)
      ]
