-- ===== src/Alloc/Cache/Destroy.antt =====
-- What the end of a thread gives back.
use odyssey_tasks.Prelude.{
  ℕ, zero, suc, ◌-◌, ◌≡◌, ◌≤◌, ◌<◌, ◌∙◌, refl, ap, true, false, Option, List, [], ◌∷◌, length, ◌==◌,
  arith,
}
use odyssey_tasks.Alloc.Cache.{
  Blocks, Allocator, new, aligned_free_16, destroy_bin, clear_bin, destroy_bins, destroy,
}
use odyssey_tasks.Alloc.Cache.Blocks.{times_in, times_in-remove}
use odyssey_tasks.Alloc.Cache.Invariant.{Chain, Invariant, occurs}
use odyssey_tasks.Alloc.Cache.Clients.{Request, Heap, serve_all, AllAllowed, IsFresh}
use odyssey_tasks.Alloc.Cache.Soundness.{serve_all-Kept, start_Kept}

-- A bin of the list `cs` is given back as a whole; bins, counts and pointers stay.
destroy_bin-Chain :
    (a fuel p : ℕ) (cs : List ℕ) (s : Allocator)
    → length cs < fuel
    → Chain s.next p cs
    → (times_in a (destroy_bin fuel p s).blocks ≡ times_in a s.blocks - occurs a cs)
      × ((destroy_bin fuel p s).bins ≡ s.bins)
unfolding destroy_bin aligned_free_16 occurs
destroy_bin-Chain a zero p cs s enough chain = absurd (omega arith)
destroy_bin-Chain a (suc fuel) p [] s enough chain =
    let null : (p == 0) ≡ true = ground (arith, chain) in rw null (omega arith, refl)
destroy_bin-Chain a (suc fuel) p (c ∷ cs) s enough (e, positive, chain) =
    let block : (c == 0) ≡ false = ground arith in
    let (rest, bins) =
      destroy_bin-Chain a fuel (s.next c) cs (aligned_free_16 c s) (omega arith) chain in
    rw (e, block) (ground (arith, rest, times_in-remove a c s.blocks), bins)

destroy_bin_empty : (fuel p : ℕ) (s : Allocator) → p ≡ 0 → destroy_bin (suc fuel) p s ≡ s
unfolding destroy_bin
destroy_bin_empty fuel p s e = rw e refl

-- Empty bins give nothing back.
destroy_bins-empty :
    (rounds i : ℕ) (s : Allocator)
    → ((j : ℕ) → i ≤ j → s.bins j ≡ 0)
    → (destroy_bins rounds i s).blocks ≡ s.blocks
unfolding destroy_bins
destroy_bins-empty zero i s empty = refl
destroy_bins-empty (suc rounds) i s empty =
    ap (λ (t : Allocator). (destroy_bins rounds (suc i) (clear_bin i t)).blocks)
      (destroy_bin_empty (s.counts i) (s.bins i) s (empty i (omega arith)))
    ∙ destroy_bins-empty rounds (suc i) (clear_bin i s)
        (λ j later. ground (arith, empty j (omega arith)))

destroy_gives_back :
    (a : ℕ) (s : Allocator) (live : Blocks) (cached : List ℕ)
    → Invariant s live cached
    → times_in a (destroy s).blocks ≡ times_in a live
unfolding destroy destroy_bins
destroy_gives_back a s live cached inv =
    let (left, bins) =
      destroy_bin-Chain a (suc (s.counts 0)) (s.bins 0) cached s (omega (arith, inv.counted))
        inv.chain in
    let s' = destroy_bin (suc (s.counts 0)) (s.bins 0) s in
    let s'' = clear_bin 0 s' in
    let empty : (j : ℕ) → 1 ≤ j → s''.bins j ≡ 0 =
      λ j later. ground (arith, ap (λ (f : ℕ → ℕ). f j) bins, inv.others j later) in
    ap (times_in a) (destroy_bins-empty 12 1 s'' empty) ∙ omega (arith, left, inv.split a)

-- When a thread ends that started without blocks, whatever clients took, gave back and resized, as
-- long as they gave back what they held and asked for less than 2^64 - 15 bytes, every block that
-- the C library handed out has been given back to it, but for those that clients still hold; provided
-- that its new blocks are not null and apart from the others.
pub destroy-serve_all :
    (posix_memalign : Blocks → ℕ → Option ℕ)
    → IsFresh posix_memalign
    → (bytes : ℕ → ℕ) (rs : List Request)
    → AllAllowed posix_memalign rs (record { allocator = new bytes; live = [] })
    → (a : ℕ)
    → let h = serve_all posix_memalign rs (record { allocator = new bytes; live = [] }) in
      times_in a (destroy h.allocator).blocks ≡ times_in a h.live
destroy-serve_all posix_memalign fresh bytes rs allowed a =
    let start : Heap = record { allocator = new bytes; live = [] } in
    let h = serve_all posix_memalign rs start in
    let (cached, inv) = serve_all-Kept posix_memalign fresh rs start allowed (start_Kept bytes) in
    destroy_gives_back a h.allocator h.live cached inv
