-- ===== src/Alloc/Cache/Blocks.antt =====
-- Lists of blocks: an address with a size.
use odyssey_tasks.Prelude.{
  ℕ, suc, ◌+◌, ◌-◌, ◌≤◌, ◌<◌, ◌≡◌, ◌≢◌, ◌⊎◌, inl, inr, refl, true, false, [], ◌∷◌, ◌==◌,
  if◌then◌else◌, All, arith, if-elim, Bool-cases, sym,
}
use odyssey_tasks.Alloc.Cache.{Blocks, remove_block}

-- How often an address stands in a list.
unfoldable pub times_in : ℕ → Blocks → ℕ
times_in ptr [] = 0
times_in ptr ((a, size) ∷ blocks) =
    let rest = times_in ptr blocks in if a == ptr then suc rest else rest

unfoldable pub size_in : ℕ → Blocks → ℕ
size_in ptr [] = 0
size_in ptr ((a, size) ∷ blocks) = let rest = size_in ptr blocks in if a == ptr then size else rest

-- Two blocks have no byte in common.
abbrev pub Apart : ℕ × ℕ → ℕ × ℕ → Type 0
Apart (a, n) (b, m) = (a + n ≤ b) ⊎ (b + m ≤ a)

abbrev pub AllApart : Blocks → Type 0
AllApart [] = Unit
AllApart (b ∷ bs) = All (Apart b) bs × AllApart bs

pub times_in-remove :
    (a ptr : ℕ) (bs : Blocks)
    → times_in a (remove_block ptr bs) ≡ (if ptr == a then times_in a bs - 1 else times_in a bs)
unfolding times_in remove_block
times_in-remove a ptr [] = ground arith
times_in-remove a ptr ((b, size) ∷ bs) = ground (arith, times_in-remove a ptr bs)

pub size_in-remove :
    (a ptr : ℕ) (bs : Blocks) → a ≢ ptr → size_in a (remove_block ptr bs) ≡ size_in a bs
unfolding size_in remove_block
size_in-remove a ptr [] h = refl
size_in-remove a ptr ((b, size) ∷ bs) h = ground (arith, size_in-remove a ptr bs)

pub All-remove :
    (P : ℕ × ℕ → Type 0) (ptr : ℕ) (bs : Blocks) → All P bs → All P (remove_block ptr bs)
unfolding remove_block
All-remove P ptr [] h = tt
All-remove P ptr ((b, size) ∷ bs) (p, ps) =
    if-elim (All P) (b == ptr) bs _ (λ e. ps) (λ e. (p, All-remove P ptr bs ps))

pub AllApart-remove : (ptr : ℕ) (bs : Blocks) → AllApart bs → AllApart (remove_block ptr bs)
unfolding remove_block
AllApart-remove ptr [] h = tt
AllApart-remove ptr ((b, size) ∷ bs) (p, ps) =
    if-elim AllApart (b == ptr) bs _ (λ e. ps)
      (λ e. (All-remove (Apart (b, size)) ptr bs p, AllApart-remove ptr bs ps))

-- What holds for all blocks holds for one that stands among them.
pub All-at :
    (P : ℕ × ℕ → Type 0) (ptr : ℕ) (bs : Blocks)
    → All P bs
    → 0 < times_in ptr bs
    → P (ptr, size_in ptr bs)
unfolding times_in size_in
All-at P ptr [] h member = absurd (omega arith)
All-at P ptr ((b, size) ∷ bs) (p, ps) member = elim (Bool-cases (b == ptr)) [
  | inl same ↦ let e : b ≡ ptr = ground (arith, same) in rw same (rw (sym e) p)
  | inr other ↦ rw other (All-at P ptr bs ps (rw other at member))
]

-- The converse, for blocks that stand once each.
pub All-from :
    (P : ℕ × ℕ → Type 0) (bs : Blocks)
    → ((a : ℕ) → times_in a bs ≤ 1)
    → ((a : ℕ) → 0 < times_in a bs → P (a, size_in a bs))
    → All P bs
unfolding times_in size_in
All-from P [] single each = tt
All-from P ((b, size) ∷ bs) single each =
    let self : (b == b) ≡ true = ground arith in
    let others : (a : ℕ) → 0 < times_in a bs → (b == a) ≡ false =
      λ a held. ground (arith, single a) in
    let member : 0 < times_in b ((b, size) ∷ bs) = rw self (omega arith) in
    let head : P (b, size) = let found = each b member in rw self at found in
    (
      head,
      All-from P bs (λ a. ground (arith, single a))
          (λ a held.
            let other = others a held in let found = each a (rw other held) in rw other at found),
    )

pub AllApart-at :
    (p q : ℕ) (bs : Blocks)
    → AllApart bs
    → p ≢ q
    → 0 < times_in p bs
    → 0 < times_in q bs
    → Apart (p, size_in p bs) (q, size_in q bs)
unfolding times_in size_in
AllApart-at p q [] h apart member_p member_q = absurd (omega arith)
AllApart-at p q ((b, size) ∷ bs) (h, hs) apart member_p member_q = elim (Bool-cases (b == p)) [
  | inl same_p ↦
      let others : 0 < times_in q bs = ground arith in
      let found : Apart (b, size) (q, size_in q bs) = All-at (Apart (b, size)) q bs h others in
      ground arith
  | inr other_p ↦
      let others : 0 < times_in p bs = ground arith in
      elim (Bool-cases (b == q)) [
        | inl same_q ↦
            let found : Apart (b, size) (p, size_in p bs) =
              All-at (Apart (b, size)) p bs h others in
            ground arith
        | inr other_q ↦
            let rest : 0 < times_in q bs = ground arith in
            let found : Apart (p, size_in p bs) (q, size_in q bs) =
              AllApart-at p q bs hs apart others rest in
            rw (other_p, other_q) found
      ]
]
