-- ===== src/Alloc/Cache/Contents.antt =====
-- The bytes of a block that is resized.
use odyssey_tasks.Prelude.{
  ℕ, ◌+◌, ◌-◌, ◌≡◌, ◌≢◌, refl, min, false, Option, none, some, ltb, leb, ◌==◌, if◌then◌else◌, arith,
  if-elim, not, ◌&&◌,
}
use odyssey_tasks.Alloc.Cache.{
  Blocks, Allocator, max_small_size, aligned_free_16, deallocate, free, memcpy, handed_out,
  aligned_alloc_16, allocate, malloc, move, realloc, size_to_class, round_up,
}

abbrev SameBytes : Allocator → ℕ × Allocator → Type 0
SameBytes s r = r.1.bytes ≡ s.bytes

free-bytes : (ptr : ℕ) (s : Allocator) → (free ptr s).bytes ≡ s.bytes
unfolding free deallocate aligned_free_16
free-bytes ptr s = ground (arith)

move_copies :
    (ptr n i : ℕ) (s : Allocator) (r : ℕ × Allocator)
    → r.0 ≢ 0
    → SameBytes s r
    → ((move ptr n r).0 ≡ r.0)
      × ((move ptr n r).1.bytes (r.0 + i)
          ≡ (if ltb i (min n 32) then s.bytes (ptr + i) else s.bytes (r.0 + i)))
unfolding move memcpy
move_copies ptr n i s (new_ptr, s') found same =
    let kept : (new_ptr == 0) ≡ false = ground (arith, found) in
    let copied = free-bytes ptr (memcpy new_ptr ptr (min n 32) s') in
    let offset : new_ptr + i - new_ptr ≡ i = omega arith in
    let inside : (leb new_ptr (new_ptr + i) && ltb (new_ptr + i) (new_ptr + min n 32))
        ≡ ltb i (min n 32) =
      ground arith in
    (rw kept refl, rw (kept, copied, inside, offset, same) refl)

module _ (posix_memalign : Blocks → ℕ → Option ℕ) where
  handed_out-bytes :
      (size : ℕ) (s : Allocator) (o : Option ℕ) → SameBytes s (handed_out posix_memalign size s o)
  unfolding handed_out
  handed_out-bytes size s none = refl
  handed_out-bytes size s (some ptr) = refl

  malloc-bytes : (n : ℕ) (s : Allocator) → SameBytes s (malloc posix_memalign n s)
  unfolding malloc allocate aligned_alloc_16
  malloc-bytes n s =
      let fresh = λ (size : ℕ).
        handed_out-bytes (round_up size) s (posix_memalign s.blocks (round_up size)) in
      if-elim (SameBytes s) (n == 0) (0, s) _ (λ e. refl)
        (λ sized.
          if-elim (SameBytes s) (leb n max_small_size) _ _
            (λ e.
              if-elim (SameBytes s)
                (ltb (size_to_class n) 13 && not (s.bins (size_to_class n) == 0)) _ _ (λ e'. refl)
                (λ e'. fresh _))
            (λ e. fresh _))

  -- Resizing a block to `n` bytes, where a new block is found, copies its first 32 bytes at most; the
  -- new block keeps what it held behind them.
  pub realloc_copies :
      (ptr n i : ℕ) (s : Allocator)
      → ptr ≢ 0
      → n ≢ 0
      → (malloc posix_memalign n s).0 ≢ 0
      → let r = realloc posix_memalign ptr n s in
        r.1.bytes (r.0 + i) ≡ (if ltb i (min n 32) then s.bytes (ptr + i) else s.bytes (r.0 + i))
  unfolding realloc
  realloc_copies ptr n i s block sized found =
      let kept : (ptr == 0) ≡ false = ground (arith, block) in
      let some_bytes : (n == 0) ≡ false = ground (arith, sized) in
      let moved = move_copies ptr n i s (malloc posix_memalign n s) found (malloc-bytes n s) in
      rw (kept, some_bytes) (rw moved.0 moved.1)
