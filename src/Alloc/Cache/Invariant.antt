-- ===== src/Alloc/Cache/Invariant.antt =====
-- The state that `Malloc` and `Free` keep: the first bin is a list of blocks that no client holds.
use odyssey_tasks.Prelude.{
  ℕ, suc, ◌+◌, ◌%◌, ◌^◌, ◌≤◌, ◌<◌, ◌≡◌, ◌≢◌, inl, inr, refl, max, true, false, ltb, ◌==◌, List, [],
  ◌∷◌, if◌then◌else◌, arith, Bool-cases, All, length,
}
use odyssey_tasks.Alloc.Cache.{
  Blocks, Allocator, set, remove_block, aligned_free_16, deallocate, free, memcpy,
}
use odyssey_tasks.Alloc.Cache.Blocks.{
  times_in, size_in, Apart, AllApart, times_in-remove, size_in-remove, All-remove, AllApart-remove,
  All-at,
}
use odyssey_tasks.Alloc.Cache.Sizes.{popped}

unfoldable pub occurs : ℕ → List ℕ → ℕ
occurs a [] = 0
occurs a (b ∷ bs) = let rest = occurs a bs in if b == a then suc rest else rest

-- The free nodes from `p` on are those of the list, in order.
abbrev pub Chain : (ℕ → ℕ) → ℕ → List ℕ → Type 0
Chain next p [] = p ≡ 0
Chain next p (c ∷ cs) = (p ≡ c) × (0 < c) × Chain next (next c) cs

Chain-set :
    (next : ℕ → ℕ) (ptr v p : ℕ) (cs : List ℕ)
    → occurs ptr cs ≡ 0
    → Chain next p cs
    → Chain (set ptr v next) p cs
unfolding occurs
Chain-set next ptr v p [] absent chain = chain
Chain-set next ptr v p (c ∷ cs) absent (e, positive, chain) =
    let other : (c == ptr) ≡ false = ground arith in
    (e, positive, rw other (Chain-set next ptr v (next c) cs (ground arith) chain))

-- A block that no pointer but `nullptr` equals, with room for a free node.
abbrev pub Usable : ℕ × ℕ → Type 0
Usable (a, size) = (0 < a) × (64 ≤ size)

pub unique : (a : ℕ) (bs : Blocks) → AllApart bs → All Usable bs → times_in a bs ≤ 1
unfolding times_in
unique a [] apart usable = omega arith
unique a ((b, size) ∷ bs) (apart, aparts) (usable, usables) =
    elim (Bool-cases (ltb 0 (times_in a bs))) [
      | inl twice ↦
          let member : 0 < times_in a bs = ground arith in
          let far : Apart (b, size) (a, size_in a bs) =
            All-at (Apart (b, size)) a bs apart member in
          let wide : Usable (a, size_in a bs) = All-at Usable a bs usables member in
          ground (arith, unique a bs aparts usables)
      | inr once ↦ ground arith
    ]

-- `live` is what the clients hold, with the sizes that they asked for; `cached` is the first bin.
pub record Invariant (s : Allocator) (live : Blocks) (cached : List ℕ) : Type 0 where
  pub chain : Chain s.next (s.bins 0) cached
  pub counted : s.counts 0 ≡ length cached
  pub bounded : length cached ≤ 64
  pub others : (i : ℕ) → 0 < i → s.bins i ≡ 0
  pub split : (a : ℕ) → times_in a live + occurs a cached ≡ times_in a s.blocks
  pub apart : AllApart s.blocks
  pub usable : All Usable s.blocks
  pub fits : (a : ℕ) → 0 < times_in a live → size_in a live ≤ size_in a s.blocks

pub pop-Invariant :
    (n : ℕ) (s : Allocator) (live : Blocks) (c : ℕ) (cs : List ℕ)
    → n ≤ 16
    → Invariant s live (c ∷ cs)
    → Invariant (popped s) ((c, n) ∷ live) cs
unfolding occurs times_in size_in
pop-Invariant n s live c cs small inv =
    let member : 0 < times_in c s.blocks = ground (arith, inv.split c) in
    let wide : Usable (c, size_in c s.blocks) = All-at Usable c s.blocks inv.usable member in
    let head : s.bins 0 ≡ c = inv.chain.0 in
    record {
      chain = rw head inv.chain.2;
      counted = omega (arith, inv.counted, inv.bounded);
      bounded = omega (arith, inv.bounded);
      others = λ i positive. ground (arith, inv.others i positive);
      split = λ a. ground (arith, inv.split a);
      apart = inv.apart;
      usable = inv.usable;
      fits = λ a held. ground (arith, inv.fits a, wide);
    }

pub fresh-Invariant :
    (n ptr size : ℕ) (s : Allocator) (live : Blocks) (cached : List ℕ)
    → max n 64 ≤ size
    → 0 < ptr
    → All (Apart (ptr, size)) s.blocks
    → Invariant s live cached
    → Invariant (record s { blocks = (ptr, size) ∷ s.blocks }) ((ptr, n) ∷ live) cached
unfolding times_in size_in
fresh-Invariant n ptr size s live cached wide positive far inv = record {
  chain = inv.chain;
  counted = inv.counted;
  bounded = inv.bounded;
  others = inv.others;
  split = λ a. ground (arith, inv.split a);
  apart = (far, inv.apart);
  usable = ((positive, omega arith), inv.usable);
  fits = λ a held. ground (arith, inv.fits a);
}

pub memcpy-Invariant :
    (dst src n : ℕ) (s : Allocator) (live : Blocks) (cached : List ℕ)
    → Invariant s live cached
    → Invariant (memcpy dst src n s) live cached
unfolding memcpy
memcpy-Invariant dst src n s live cached inv = record {
  chain = inv.chain;
  counted = inv.counted;
  bounded = inv.bounded;
  others = inv.others;
  split = inv.split;
  apart = inv.apart;
  usable = inv.usable;
  fits = inv.fits;
}

-- A block that a client gives back, to the bin or to the C library.
module _ (ptr : ℕ) (s : Allocator) (live : Blocks) (cached : List ℕ) (held : 0 < times_in ptr live)
    (inv : Invariant s live cached) where
  alone : (times_in ptr live ≡ 1) × (occurs ptr cached ≡ 0) × (times_in ptr s.blocks ≡ 1)
  alone =
      let once = unique ptr s.blocks inv.apart inv.usable in
      let all = inv.split ptr in
      (omega (arith, once, all), omega (arith, once, all), omega (arith, once, all))

  fits-remove :
      (blocks : Blocks)
      → ((a : ℕ) → a ≢ ptr → size_in a blocks ≡ size_in a s.blocks)
      → (a : ℕ) → 0 < times_in a (remove_block ptr live)
      → size_in a (remove_block ptr live) ≤ size_in a blocks
  fits-remove blocks same a member =
      let left = times_in-remove a ptr live in
      let other : a ≢ ptr = ground (arith, left, alone.0) in
      let kept = size_in-remove a ptr live other in
      let still : 0 < times_in a live = ground (arith, left) in
      omega (arith, kept, same a other, inv.fits a still)

  pub bin-Invariant :
      0 < ptr
      → length cached < 64
      → Invariant
          (record s {
            next = set ptr (s.bins 0) s.next;
            bins = set 0 ptr s.bins;
            counts = set 0 ((s.counts 0 + 1) % 2 ^ 64) s.counts;
          })
          (remove_block ptr live)
          (ptr ∷ cached)
  unfolding occurs
  bin-Invariant positive room =
      let absent : occurs ptr cached ≡ 0 = alone.1 in
      let self : (ptr == ptr) ≡ true = ground arith in
      record {
        chain = (
          refl,
          positive,
          rw self (Chain-set s.next ptr (s.bins 0) (s.bins 0) cached absent inv.chain),
        );
        counted = omega (arith, inv.counted);
        bounded = omega arith;
        others = λ i higher. ground (arith, inv.others i higher);
        split = λ a. ground (arith, inv.split a, times_in-remove a ptr live, held);
        apart = inv.apart;
        usable = inv.usable;
        fits = fits-remove s.blocks (λ a other. refl);
      }

  pub library-Invariant : Invariant (aligned_free_16 ptr s) (remove_block ptr live) cached
  unfolding aligned_free_16
  library-Invariant = record {
    chain = inv.chain;
    counted = inv.counted;
    bounded = inv.bounded;
    others = inv.others;
    split = λ a.
        ground
          (arith, inv.split a, times_in-remove a ptr live, times_in-remove a ptr s.blocks, alone);
    apart = AllApart-remove ptr s.blocks inv.apart;
    usable = All-remove Usable ptr s.blocks inv.usable;
    fits = fits-remove (remove_block ptr s.blocks) (λ a other. size_in-remove a ptr s.blocks other);
  }

  pub free-Invariant :
      0 < ptr → (cached' : List ℕ) × Invariant (free ptr s) (remove_block ptr live) cached'
  unfolding free deallocate
  free-Invariant positive = elim (Bool-cases (ltb (s.counts 0) 64)) [
    | inl room ↦
        let null : (ptr == 0) ≡ false = ground arith in
        (ptr ∷ cached, rw (null, room) (bin-Invariant positive (ground (arith, inv.counted))))
    | inr full ↦
        let null : (ptr == 0) ≡ false = ground arith in (cached, rw (null, full) library-Invariant)
  ]
