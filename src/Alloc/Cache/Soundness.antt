-- ===== src/Alloc/Cache/Soundness.antt =====
-- The blocks that clients hold do not overlap.
use mathlib.Core.Path.{subst}
use odyssey_tasks.Prelude.{
  ℕ, ◌+◌, ◌^◌, ◌≤◌, ◌<◌, ◌≡◌, ◌≢◌, ◌⊎◌, inl, inr, refl, min, true, false, Option, ◌==◌, List, [],
  ◌∷◌, arith, Bool-cases, All, sym,
}
use odyssey_tasks.Alloc.Cache.{
  Blocks, Allocator, new, remove_block, free, malloc, move, realloc, memcpy,
}
use odyssey_tasks.Alloc.Cache.Blocks.{
  times_in, size_in, Apart, AllApart, All-at, All-from, AllApart-at,
}
use odyssey_tasks.Alloc.Cache.Clients.{
  Request, take_block, give_back, resize, Heap, hold, exchange, serve, serve_all, Allowed,
  AllAllowed, IsFresh,
}
use odyssey_tasks.Alloc.Cache.Sizes.{popped, malloc_cases}
use odyssey_tasks.Alloc.Cache.Invariant.{
  occurs, Usable, Invariant, pop-Invariant, fresh-Invariant, unique, memcpy-Invariant,
  free-Invariant,
}

abbrev pub Kept : Allocator → Blocks → Type 0
Kept s live = (cached : List ℕ) × Invariant s live cached

module _ (posix_memalign : Blocks → ℕ → Option ℕ) (fresh : IsFresh posix_memalign) where
  pop-Kept :
      (n : ℕ) (s : Allocator) (live : Blocks) (cached : List ℕ)
      → n ≤ 16
      → s.bins 0 ≢ 0
      → Invariant s live cached
      → Kept (popped s) (hold (s.bins 0) n live)
  pop-Kept n s live [] small filled inv = absurd (filled inv.chain)
  pop-Kept n s live (c ∷ cs) small filled inv =
      let head : s.bins 0 ≡ c = inv.chain.0 in
      let positive : 0 < c = inv.chain.1 in
      let held : (s.bins 0 == 0) ≡ false = ground arith in
      (
        cs,
        rw held (
            subst (λ (p : ℕ). Invariant (popped s) ((p, n) ∷ live) cs) (sym head)
              (pop-Invariant n s live c cs small inv)),
      )

  malloc-Kept :
      (n : ℕ) (s : Allocator) (live : Blocks)
      → n + 15 < 2 ^ 64
      → Kept s live
      → let r = malloc posix_memalign n s in Kept r.1 (hold r.0 n live)
  malloc-Kept n s live room (cached, inv) = elim (malloc_cases posix_memalign n s room inv.others) [
    | inl (small, filled, e) ↦ rw e (pop-Kept n s live cached small filled inv)
    | inr (inl e) ↦ rw e (cached, inv)
    | inr (inr (ptr, size, wide, found, e)) ↦
        let (positive, far) = fresh s.blocks size ptr found in
        let held : (ptr == 0) ≡ false = ground arith in
        rw (e, held) (cached, fresh-Invariant n ptr size s live cached wide positive far inv)
  ]

  free-Kept :
      (ptr : ℕ) (s : Allocator) (live : Blocks)
      → 0 < times_in ptr live
      → Kept s live
      → Kept (free ptr s) (remove_block ptr live)
  free-Kept ptr s live held (cached, inv) =
      let all = inv.split ptr in
      let member : 0 < times_in ptr s.blocks = omega (arith, all) in
      let positive = (All-at Usable ptr s.blocks inv.usable member).0 in
      free-Invariant ptr s live cached held inv positive

  -- The new block, if there is one, is taken before the old one is given back.
  move-Kept :
      (ptr n : ℕ) (live : Blocks) (r : ℕ × Allocator)
      → 0 < times_in ptr live
      → Kept r.1 (hold r.0 n live)
      → let r' = move ptr n r in Kept r'.1 (exchange ptr n r'.0 live)
  unfolding move times_in remove_block
  move-Kept ptr n live (new_ptr, s) held (cached, inv) = elim (Bool-cases (new_ptr == 0)) [
    | inl null ↦ rw null (cached, rw null at inv)
    | inr found ↦
        let sound : Invariant s ((new_ptr, n) ∷ live) cached = rw found at inv in
        let once = unique ptr s.blocks inv.apart inv.usable in
        let twice = sound.split ptr in
        let other : (new_ptr == ptr) ≡ false = ground (arith, once, twice) in
        let copied = memcpy-Invariant new_ptr ptr (min n 32) s ((new_ptr, n) ∷ live) cached sound in
        let given =
          free-Kept ptr (memcpy new_ptr ptr (min n 32) s) ((new_ptr, n) ∷ live)
            (ground (arith, held)) (cached, copied) in
        rw (found, found) (rw other at given)
  ]

  realloc-Kept :
      (ptr n : ℕ) (h : Heap)
      → n + 15 < 2 ^ 64
      → (ptr ≡ 0) ⊎ (0 < times_in ptr h.live)
      → Kept h.allocator h.live
      → let h' = serve posix_memalign (resize ptr n) h in Kept h'.allocator h'.live
  unfolding serve realloc
  realloc-Kept ptr n h room held kept = elim (Bool-cases (ptr == 0)) [
    | inl null ↦ rw null (malloc-Kept n h.allocator h.live room kept)
    | inr block ↦
        let member : 0 < times_in ptr h.live = ground (arith, held, block) in
        elim (Bool-cases (n == 0)) [
          | inl empty ↦ rw (block, empty) (free-Kept ptr h.allocator h.live member kept)
          | inr sized ↦
              rw (block, sized)
                (move-Kept ptr n h.live (malloc posix_memalign n h.allocator) member
                  (malloc-Kept n h.allocator h.live room kept))
        ]
  ]

  give_back-Kept :
      (ptr : ℕ) (h : Heap)
      → (ptr ≡ 0) ⊎ (0 < times_in ptr h.live)
      → Kept h.allocator h.live
      → let h' = serve posix_memalign (give_back ptr) h in Kept h'.allocator h'.live
  unfolding serve free
  give_back-Kept ptr h held kept = elim (Bool-cases (ptr == 0)) [
    | inl null ↦ rw null kept
    | inr block ↦
        let member : 0 < times_in ptr h.live = ground (arith, held, block) in
        let given : Kept (free ptr h.allocator) (remove_block ptr h.live) =
          free-Kept ptr h.allocator h.live member kept in
        rw block (rw block at given)
  ]

  serve-Kept :
      (r : Request) (h : Heap)
      → Allowed posix_memalign r h
      → Kept h.allocator h.live
      → let h' = serve posix_memalign r h in Kept h'.allocator h'.live
  unfolding serve
  serve-Kept (take_block n) h room kept = malloc-Kept n h.allocator h.live room kept
  serve-Kept (give_back ptr) h allowed kept = give_back-Kept ptr h allowed kept
  serve-Kept (resize ptr n) h (room, held) kept = realloc-Kept ptr n h room held kept

  pub serve_all-Kept :
      (rs : List Request) (h : Heap)
      → AllAllowed posix_memalign rs h
      → Kept h.allocator h.live
      → let h' = serve_all posix_memalign rs h in Kept h'.allocator h'.live
  unfolding serve_all
  serve_all-Kept [] h allowed kept = kept
  serve_all-Kept (r ∷ rs) h (allowed, all) kept =
      serve_all-Kept rs (serve posix_memalign r h) all (serve-Kept r h allowed kept)

-- The blocks of an allocator in the C library's books.
pub Backed : Blocks → ℕ × ℕ → Type 0
Backed blocks (a, n) = (0 < a) × (0 < times_in a blocks) × (n ≤ size_in a blocks)

abbrev IsSound : Heap → Type 0
IsSound h = AllApart h.live × All (Backed h.allocator.blocks) h.live

-- Blocks that stand once each, within those of the C library, are apart as those are.
live-IsSound :
    (blocks live : Blocks)
    → AllApart blocks
    → All Usable blocks
    → ((a : ℕ) → times_in a live ≤ times_in a blocks)
    → ((a : ℕ) → 0 < times_in a live → size_in a live ≤ size_in a blocks)
    → AllApart live × All (Backed blocks) live
unfolding times_in size_in Backed
live-IsSound blocks [] apart usable part fits = (tt, tt)
live-IsSound blocks ((a, n) ∷ live) apart usable part fits =
    let self : (a == a) ≡ true = ground arith in
    let once = unique a blocks apart usable in
    let here : 0 < times_in a blocks = ground (arith, part a) in
    let last : times_in a live ≡ 0 = ground (arith, part a, once) in
    let room : n ≤ size_in a blocks = let fit = fits a (ground arith) in rw self at fit in
    let others : (b : ℕ) → 0 < times_in b live → (a == b) ≡ false = λ b held. ground arith in
    let part' : (b : ℕ) → times_in b live ≤ times_in b blocks = λ b. ground (arith, part b) in
    let fits' : (b : ℕ) → 0 < times_in b live → size_in b live ≤ size_in b blocks =
      λ b held. ground (arith, fits b, others b held) in
    let single : (b : ℕ) → times_in b live ≤ 1 =
      λ b. ground (arith, part' b, unique b blocks apart usable) in
    let far : (b : ℕ) → 0 < times_in b live → Apart (a, n) (b, size_in b live) = λ b held.
      let other : a ≢ b = ground (arith, others b held) in
      let there : 0 < times_in b blocks = ground (arith, part' b) in
      ground (arith, AllApart-at a b blocks apart other here there, fits' b held) in
    let (aparts, backed) = live-IsSound blocks live apart usable part' fits' in
    (
      (All-from (Apart (a, n)) live single far, aparts),
      (((All-at Usable a blocks usable here).0, here, room), backed),
    )

pub new-Invariant : (bytes : ℕ → ℕ) → Invariant (new bytes) [] []
unfolding new times_in size_in occurs
new-Invariant bytes = record {
  chain = refl;
  counted = refl;
  bounded = omega arith;
  others = λ i higher. refl;
  split = λ a. refl;
  apart = tt;
  usable = tt;
  fits = λ a held. omega arith;
}

pub start_Kept : (bytes : ℕ → ℕ) → Kept (new bytes) []
start_Kept bytes = ([], new-Invariant bytes)

-- Starting without blocks, whatever clients take, give back and resize, as long as they give back
-- what they hold and ask for less than 2^64 - 15 bytes: no two of the blocks that they hold overlap,
-- and each lies, with all the bytes that were asked for, in a block of the C library that was not
-- given back to it; provided that the C library's new blocks are not null and apart from the others.
pub serve_all-IsSound :
    (posix_memalign : Blocks → ℕ → Option ℕ)
    → IsFresh posix_memalign
    → (bytes : ℕ → ℕ) (rs : List Request)
    → AllAllowed posix_memalign rs (record { allocator = new bytes; live = [] })
    → IsSound (serve_all posix_memalign rs (record { allocator = new bytes; live = [] }))
serve_all-IsSound posix_memalign fresh bytes rs allowed =
    let start : Heap = record { allocator = new bytes; live = [] } in
    let h = serve_all posix_memalign rs start in
    let (cached, inv) = serve_all-Kept posix_memalign fresh rs start allowed (start_Kept bytes) in
    live-IsSound h.allocator.blocks h.live inv.apart inv.usable (λ a. omega (arith, inv.split a))
      inv.fits
