-- ===== src/Vector/Index/Search.antt =====
-- `SearchKNN`: the loop over the codes keeps the nearest, and the results come out in order.
use mathlib.Core.Bool.{Bool-set}
use mathlib.Core.Path.{subst}
use mathlib.Core.Logic.Or
use mathlib.Core.List.{
  Mem, Perm, reverse, mem-append, mem-cons, mem-cons_self, mem-cons_of_mem, mem-reverse,
  not-mem-nil, perm_middle, foldr, reverse-append,
}
use mathlib.Core.List.Perm
use native.Mathlib.Nat.{ℕ_set}
use odyssey_tasks.Prelude.{
  ℕ, zero, suc, ◌≤◌, ◌<◌, ◌≡◌, refl, sym, ap, ◌∙◌, min, false, some, List, [], ◌∷◌, ◌++◌, length,
  ltb, if◌then◌else◌, length-append, arith, Bool-cases, Option-cases, inl, inr,
}
use odyssey_tasks.Prelude.Outcome.{ok}
use odyssey_tasks.Vector.Float.{Float, IsOrdered}
use odyssey_tasks.Vector.Index.{SearchResult, closer, PriorityQueue, pop, drain_loop}

length-foldr : {A : Type 0} (xs : List A) → length xs ≡ foldr (λ (_ : A) (n : ℕ). suc n) 0 xs
length-foldr [] = refl
length-foldr (x ∷ xs) = ap suc (length-foldr xs)

pub length-perm : {A : Type 0} {xs ys : List A} → Perm xs ys → length xs ≡ length ys
length-perm {A} {xs} {ys} p =
    length-foldr xs
    ∙ (Perm.foldr-eq ℕ_set (λ (_ : A) (n : ℕ). suc n) (λ _ _ n. refl) p 0 ∙ sym (length-foldr ys))

pub mem-perm : {A : Type 0} {x : A} {xs ys : List A} → Perm xs ys → Mem x xs → Mem x ys
mem-perm p m = (Perm.mem_iff p).0 m

module _ (F : Float) (ordered : IsOrdered F) (Q : PriorityQueue F) where
  -- What the queue holds is as much of the results so far as it may, and nothing that was left out is
  -- closer.
  pub record Best (k : ℕ) (seen : List (SearchResult F)) (top : Q.Queue) : Type 0 where
    pub left_out : List (SearchResult F)
    pub whole : Perm (left_out ++ Q.items top) seen
    pub size : length (Q.items top) ≡ min k (length seen)
    pub farther :
        (x y : SearchResult F) → Mem x left_out → Mem y (Q.items top) → closer F x y ≡ false

  pub Best-perm :
      {k : ℕ} {seen seen' : List (SearchResult F)} {top : Q.Queue}
      → Perm seen seen'
      → Best k seen top
      → Best k seen' top
  Best-perm p b = record {
    left_out = b.left_out;
    whole = Perm.trans b.whole p;
    size = omega (arith, length-perm p, b.size);
    farther = b.farther;
  }

  module _ (k : ℕ) (seen : List (SearchResult F)) (top : Q.Queue) (x : SearchResult F)
      (b : Best k seen top) where
    -- An element more, while there is room.
    push-Best : length (Q.items top) < k → Best k (x ∷ seen) (Q.push x top)
    push-Best roomy = record {
      left_out = b.left_out;
      whole =
          Perm.trans (Perm.append_left b.left_out (Q.items-push x top))
            (Perm.trans (perm_middle b.left_out (Q.items top)) (Perm.cons x b.whole));
      size = omega (arith, length-perm (Q.items-push x top), b.size);
      farther = λ d y m _. absurd (
          nothing b.left_out d
            (omega (arith, length-perm b.whole, length-append b.left_out (Q.items top), b.size)) m);
    }
      where
        nothing : (xs : List (SearchResult F)) (d : SearchResult F) → length xs ≡ 0 → Mem d xs → ⊥
        nothing [] d h m = not-mem-nil m
        nothing (z ∷ xs) d h m = omega arith

    -- An element more, and the farthest is left out.
    extract-Best :
        (far : SearchResult F) (rest : Q.Queue)
        → k ≤ length (Q.items top)
        → Q.extract (Q.push x top) ≡ some (far, rest)
        → Best k (x ∷ seen) rest
    extract-Best far rest full e =
        let pushed = Q.items-push x top in
        let taken = Q.items-extract (Q.push x top) rest far e in
        let both : Perm (far ∷ Q.items rest) (x ∷ Q.items top) =
          Perm.trans (Perm.symm taken) pushed in
        record {
          left_out = far ∷ b.left_out;
          whole = Perm.trans (Perm.symm (perm_middle b.left_out (Q.items rest))) (
              Perm.trans (Perm.append_left b.left_out both)
                (Perm.trans (perm_middle b.left_out (Q.items top)) (Perm.cons x b.whole)));
          size = omega (arith, length-perm both, b.size);
          farther = λ d y m n.
              let held : Mem y (Q.items (Q.push x top)) =
                mem-perm (Perm.symm taken) (mem-cons_of_mem far n) in
              let least = Q.extract_farthest (Q.push x top) rest far y e held in
              Or.elim (Bool-set _ _) (mem-cons.0 m) (λ same. rw same least)
                (λ old.
                  Or.elim (Bool-set _ _) (mem-cons.0 (mem-perm both mem-cons_self))
                    (λ new. b.farther d y old (
                      mem-perm
                        (Perm.cons_inv (
                          subst (λ (z : SearchResult F). Perm (z ∷ Q.items rest) (x ∷ Q.items top))
                            new both))
                        n))
                    (λ before.
                      ordered.not_less_trans y.distance far.distance d.distance least
                        (b.farther d far old before)));
        }

  -- One round of the loop over the codes.
  pub push_pop-Best :
      (k : ℕ) (seen : List (SearchResult F)) (top : Q.Queue) (x : SearchResult F)
      → Best k seen top
      → Best k
          (x ∷ seen)
          (if ltb k (Q.size (Q.push x top)) then pop F Q (Q.push x top) else Q.push x top)
  unfolding pop
  push_pop-Best k seen top x b =
      let grown : Q.size (Q.push x top) ≡ suc (length (Q.items top)) =
        Q.size-items (Q.push x top) ∙ length-perm (Q.items-push x top) in
      elim (Bool-cases (ltb k (Q.size (Q.push x top)))) [
        | inl over ↦ rw over (elim (Option-cases (Q.extract (Q.push x top))) [
          | inl gone ↦ absurd (
              omega (
                arith,
                grown,
                Q.size-items (Q.push x top),
                ap length (Q.extract-none (Q.push x top) gone),
              ))
          | inr ((far, rest), e) ↦
              rw (e, pop) (extract-Best k seen top x b far rest (ground (arith, grown)) e)
        ])
        | inr roomy ↦ rw roomy (push-Best k seen top x b (ground (arith, grown)))
      ]

  -- From the farthest to the closest, and the other way round.
  pub Descending : List (SearchResult F) → Type 0
  Descending [] = Unit {0}
  Descending (x ∷ xs) = ((y : SearchResult F) → Mem y xs → closer F x y ≡ false) × Descending xs

  abbrev pub Ascending : List (SearchResult F) → Type 0
  Ascending [] = Unit {0}
  Ascending (x ∷ xs) = ((y : SearchResult F) → Mem y xs → closer F y x ≡ false) × Ascending xs

  Ascending-append :
      (xs : List (SearchResult F)) (x : SearchResult F)
      → Ascending xs
      → ((y : SearchResult F) → Mem y xs → closer F x y ≡ false)
      → Ascending (xs ++ x ∷ [])
  Ascending-append [] x sorted last = (λ y m. absurd (not-mem-nil m), tt)
  Ascending-append (z ∷ xs) x sorted last = (
    λ y m. Or.elim (Bool-set _ _) (mem-append.0 m) (sorted.0 y) (λ n.
        Or.elim (Bool-set _ _) (mem-cons.0 n) (λ same. rw same (last z mem-cons_self))
          (λ none_left. absurd (not-mem-nil none_left))),
    Ascending-append xs x sorted.1 (λ y m. last y (mem-cons_of_mem z m)),
  )

  pub reverse-Ascending : (xs : List (SearchResult F)) → Descending xs → Ascending (reverse xs)
  unfolding Descending
  reverse-Ascending [] sorted = tt
  reverse-Ascending (x ∷ xs) sorted = rw (reverse-append (x ∷ []) xs) (
      Ascending-append (reverse xs) x (reverse-Ascending xs sorted.1)
        (λ y m. sorted.0 y (mem-reverse.0 m)))

  -- Emptying the queue gives what it holds, the farthest first.
  pub drain_loop_lem :
      (fuel : ℕ) (top : Q.Queue)
      → length (Q.items top) < fuel
      → (results : List (SearchResult F)) × (drain_loop F Q fuel top ≡ ok results)
        × Perm results (Q.items top)
        × Descending results
  unfolding drain_loop Descending
  drain_loop_lem zero top h = absurd (omega arith)
  drain_loop_lem (suc fuel) top h = elim (Option-cases (Q.extract top)) [
    | inl gone ↦ ([], rw (gone, drain_loop), rw (Q.extract-none top gone) (Perm.refl []), tt)
    | inr ((far, rest), e) ↦
        (let taken = Q.items-extract top rest far e in
          let (results, made, same, sorted) =
            drain_loop_lem fuel rest (omega (arith, length-perm taken)) in
          (
            far ∷ results,
            rw (e, drain_loop, made),
            Perm.trans (Perm.cons far same) (Perm.symm taken),
            (
              λ y m.
                  Q.extract_farthest top rest far y e
                    (mem-perm (Perm.symm taken) (mem-cons_of_mem far (mem-perm same m))),
              sorted,
            ),
          ))
  ]
