-- ===== src/Alloc/Cache/Sizes.antt =====
-- What `Malloc` comes to: the head of the first bin, or a fresh block that is large enough.
use odyssey_tasks.Prelude.{
  ℕ, ◌+◌, ◌-◌, ◌%◌, ◌^◌, ◌≤◌, ◌<◌, ◌≡◌, ◌≢◌, ◌⊎◌, inl, inr, refl, max, false, Option, some, ltb,
  leb, ◌==◌, ◌∷◌, arith, if-elim, Bool-cases, Option-cases, not, ◌&&◌,
}
use odyssey_tasks.Alloc.Cache.{
  Blocks, Allocator, max_small_size, set, round_up, size_to_class, handed_out, aligned_alloc_16,
  allocate, malloc,
}

pub round_up_bounds : (x : ℕ) → x + 15 < 2 ^ 64 → (x ≤ round_up x) × (round_up x + 15 < 2 ^ 64)
unfolding round_up
round_up_bounds x room = (omega arith, omega arith)

pub size_to_class_cases : (n : ℕ) → (n ≤ 16 × size_to_class n ≡ 0) ⊎ (0 < size_to_class n)
unfolding size_to_class
size_to_class_cases n = ground arith

-- The state after the first bin gave its head.
abbrev pub popped : Allocator → Allocator
popped s = record s {
  bins = set 0 (s.next (s.bins 0)) s.bins;
  counts = set 0 ((s.counts 0 + 2 ^ 64 - 1) % 2 ^ 64) s.counts;
}

module _ (posix_memalign : Blocks → ℕ → Option ℕ) where
  -- A result is nothing, or a block that is new from the C library and has `n` bytes.
  abbrev pub Fresh : ℕ → Allocator → ℕ × Allocator → Type 0
  Fresh n s r =
      (r ≡ (0, s))
      ⊎ ((ptr : ℕ) × (size : ℕ) × (n ≤ size)
          × (posix_memalign s.blocks size ≡ some ptr)
          × (r ≡ (ptr, record s { blocks = (ptr, size) ∷ s.blocks })))

  aligned_alloc_16-Fresh :
      (x n : ℕ) (s : Allocator)
      → x + 15 < 2 ^ 64
      → n ≤ x
      → Fresh n s (aligned_alloc_16 posix_memalign x s)
  unfolding aligned_alloc_16 handed_out
  aligned_alloc_16-Fresh x n s room small =
      elim (Option-cases (posix_memalign s.blocks (round_up x))) [
        | inl nothing ↦ inl (rw nothing refl)
        | inr (ptr, found) ↦
            let bounds = round_up_bounds x room in
            inr (ptr, round_up x, omega (arith, bounds.0), found, rw found refl)
      ]

  -- The head of the first bin for a small request, or a block of at least `max n 64` bytes.
  abbrev pub Served : ℕ → Allocator → ℕ × Allocator → Type 0
  Served n s r = ((n ≤ 16) × (s.bins 0 ≢ 0) × (r ≡ (s.bins 0, popped s))) ⊎ Fresh (max n 64) s r

  rounded-Fresh :
      (x n : ℕ) (s : Allocator)
      → x + 15 < 2 ^ 64
      → n ≤ x
      → Fresh n s (aligned_alloc_16 posix_memalign (round_up x) s)
  rounded-Fresh x n s room small =
      let bounds = round_up_bounds x room in
      aligned_alloc_16-Fresh (round_up x) n s bounds.1 (omega (arith, bounds.0))

  allocate_cases :
      (size_class n : ℕ) (s : Allocator)
      → (n ≤ 16 × size_class ≡ 0) ⊎ (0 < size_class)
      → n + 15 < 2 ^ 64
      → ((i : ℕ) → 0 < i → s.bins i ≡ 0)
      → Served n s (allocate posix_memalign size_class n s)
  unfolding allocate
  allocate_cases size_class n s class room others =
      let fresh = rounded-Fresh (max n 64) (max n 64) s (omega arith) (omega arith) in
      elim (Bool-cases (s.bins size_class == 0)) [
        | inl empty ↦
            let test : (ltb size_class 13 && not (s.bins size_class == 0)) ≡ false =
              ground (arith, empty) in
            inr (rw test fresh)
        | inr filled ↦ elim class [
          | inl (small, first) ↦
              let head : (s.bins 0 == 0) ≡ false = rw first at filled in
              let kept : s.bins 0 ≢ 0 = ground (arith, head) in
              inl (small, kept, rw (first, head) refl)
          | inr higher ↦ absurd (ground (arith, others size_class higher, filled))
        ]
      ]

  pub malloc_cases :
      (n : ℕ) (s : Allocator)
      → n + 15 < 2 ^ 64
      → ((i : ℕ) → 0 < i → s.bins i ≡ 0)
      → Served n s (malloc posix_memalign n s)
  unfolding malloc
  malloc_cases n s room others =
      let fresh = rounded-Fresh n (max n 64) s room in
      let small = allocate_cases (size_to_class n) n s (size_to_class_cases n) room others in
      if-elim (Served n s) (n == 0) (0, s) _ (λ zero_size. inr (inl refl))
        (λ sized.
          if-elim (Served n s) (leb n max_small_size) _ _ (λ h. small)
            (λ h. inr (fresh (ground arith))))
