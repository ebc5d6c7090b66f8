-- ===== src/Alloc/Hazard/Reclaim.antt =====
-- What `Retire` and `Reclaim` free, whatever other threads do meanwhile.
use odyssey_tasks.Prelude.{
  ℕ, zero, suc, ◌+◌, ◌≡◌, ◌≤◌, ◌<◌, ◌≢◌, inl, inr, refl, Bool, true, false, List, [], ◌∷◌, ◌++◌,
  length, leb, ◌==◌, arith, Bool-cases, if-elim, ◌∙◌,
}
use odyssey_tasks.Alloc.Hazard.{
  max_hazard_pointers, View, HazardPointerDomain, is_hazardous, reclaim_one, reclaim_loop, reclaim,
  retire, retire_all,
}
use odyssey_tasks.Alloc.Cache.Invariant.{occurs}

-- Record `i` is active and holds `p` at all times.
abbrev pub Protected : View → ℕ → ℕ → Type 0
Protected view i p = (time : ℕ) → ((view time i).active ≡ true) × ((view time i).pointer ≡ p)

is_hazardous-Protected :
    (view : View) (rounds i j p loads : ℕ)
    → Protected view j p
    → i ≤ j
    → j < i + rounds
    → (is_hazardous view rounds i p loads).0 ≡ true
unfolding is_hazardous
is_hazardous-Protected view zero i j p loads protected low high = absurd (omega arith)
is_hazardous-Protected view (suc rounds) i j p loads protected low high =
    elim (Bool-cases (i == j)) [
      | inl same ↦
          let e : i ≡ j = ground (arith, same) in
          let self : (p == p) ≡ true = ground arith in
          rw (e, (protected loads).0, (protected (suc loads)).1, self) refl
      | inr other ↦
          let later : (n : ℕ) → (is_hazardous view rounds (suc i) p n).0 ≡ true = λ n.
            is_hazardous-Protected view rounds (suc i) j p n protected (ground arith)
              (omega arith) in
          let result : Bool × ℕ → Type 0 = λ r. r.0 ≡ true in
          if-elim result (view loads i).active _ _
            (λ e.
              if-elim result ((view (suc loads) i).pointer == p) _ _ (λ e'. refl)
                (λ e'. later (suc (suc loads))))
            (λ e. later (suc loads))
    ]

occurs-append : (a : ℕ) (xs ys : List ℕ) → occurs a (xs ++ ys) ≡ occurs a xs + occurs a ys
unfolding occurs
occurs-append a [] ys = omega arith
occurs-append a (x ∷ xs) ys = ground (arith, occurs-append a xs ys)

-- A pointer that no record ever holds is never hazardous.
abbrev pub Idle : View → ℕ → Type 0
Idle view p = (time i : ℕ) → (view time i).pointer ≢ p

is_hazardous-Idle :
    (view : View) (rounds i p loads : ℕ)
    → Idle view p
    → (is_hazardous view rounds i p loads).0 ≡ false
unfolding is_hazardous
is_hazardous-Idle view zero i p loads idle = refl
is_hazardous-Idle view (suc rounds) i p loads idle =
    let result : Bool × ℕ → Type 0 = λ r. r.0 ≡ false in
    let other : ((view (suc loads) i).pointer == p) ≡ false = ground (arith, idle (suc loads) i) in
    if-elim result (view loads i).active _ _
      (λ e. rw other (is_hazardous-Idle view rounds (suc i) p (suc (suc loads)) idle))
      (λ e. is_hazardous-Idle view rounds (suc i) p (suc loads) idle)

-- How often a pointer is retired and freed, before and after one round.
reclaim_one-occurs :
    (a p : ℕ) (r : Bool × ℕ) (d : HazardPointerDomain)
    → let d' = reclaim_one p r d in
      (occurs a d'.retired_list + occurs a d'.freed
        ≡ occurs a d.retired_list + occurs a (p ∷ []) + occurs a d.freed)
      × (r.0 ≡ true → occurs a d'.freed ≡ occurs a d.freed)
      × (r.0 ≡ false → occurs a d'.retired_list ≡ occurs a d.retired_list)
      × (p ≢ a
          → (occurs a d'.freed ≡ occurs a d.freed)
            × (occurs a d'.retired_list ≡ occurs a d.retired_list))
unfolding reclaim_one occurs
reclaim_one-occurs a p (true, loads) d =
    let joined = occurs-append a d.retired_list (p ∷ []) in
    (
      ground (arith, joined),
      λ e. refl,
      λ e. absurd (ground (arith, e)),
      λ e. (refl, ground (arith, joined, e)),
    )
reclaim_one-occurs a p (false, loads) d =
    (ground arith, λ e. absurd (ground (arith, e)), λ e. refl, λ e. (ground (arith, e), refl))

reclaim_loop-occurs :
    (view : View) (a : ℕ) (ps : List ℕ) (d : HazardPointerDomain)
    → let d' = reclaim_loop view ps d in
      occurs a d'.retired_list + occurs a d'.freed
      ≡ occurs a d.retired_list + occurs a ps + occurs a d.freed
unfolding reclaim_loop occurs
reclaim_loop-occurs view a [] d = omega arith
reclaim_loop-occurs view a (p ∷ ps) d =
    let r = is_hazardous view max_hazard_pointers 0 p d.loads in
    let one = (reclaim_one-occurs a p r d).0 in
    let rest = reclaim_loop-occurs view a ps (reclaim_one p r d) in ground (arith, one, rest)

reclaim_loop-Protected :
    (view : View) (i a : ℕ) (ps : List ℕ) (d : HazardPointerDomain)
    → i < max_hazard_pointers
    → Protected view i a
    → occurs a (reclaim_loop view ps d).freed ≡ occurs a d.freed
unfolding reclaim_loop
reclaim_loop-Protected view i a [] d within protected = refl
reclaim_loop-Protected view i a (p ∷ ps) d within protected =
    let r = is_hazardous view max_hazard_pointers 0 p d.loads in
    let (all, kept, gone, others) = reclaim_one-occurs a p r d in
    let rest = reclaim_loop-Protected view i a ps (reclaim_one p r d) within protected in
    elim (Bool-cases (p == a)) [
      | inl same ↦
          let e : p ≡ a = ground (arith, same) in
          let found : r.0 ≡ true =
            is_hazardous-Protected view max_hazard_pointers 0 i p d.loads (rw e protected)
              (omega arith) (omega arith) in
          rest ∙ kept found
      | inr other ↦ rest ∙ (others (ground (arith, other))).0
    ]

reclaim_loop-Idle :
    (view : View) (a : ℕ) (ps : List ℕ) (d : HazardPointerDomain)
    → Idle view a
    → occurs a (reclaim_loop view ps d).retired_list ≡ occurs a d.retired_list
unfolding reclaim_loop
reclaim_loop-Idle view a [] d idle = refl
reclaim_loop-Idle view a (p ∷ ps) d idle =
    let r = is_hazardous view max_hazard_pointers 0 p d.loads in
    let (all, kept, gone, others) = reclaim_one-occurs a p r d in
    let rest = reclaim_loop-Idle view a ps (reclaim_one p r d) idle in
    elim (Bool-cases (p == a)) [
      | inl same ↦
          let e : p ≡ a = ground (arith, same) in
          let free : r.0 ≡ false =
            is_hazardous-Idle view max_hazard_pointers 0 p d.loads (rw e idle) in
          rest ∙ gone free
      | inr other ↦ rest ∙ (others (ground (arith, other))).1
    ]

abbrev Retired : View → ℕ → ℕ → HazardPointerDomain → HazardPointerDomain → Type 0
Retired view a p d d' =
    (occurs a d'.retired_list + occurs a d'.freed
      ≡ occurs a d.retired_list + occurs a (p ∷ []) + occurs a d.freed)
    × ((i : ℕ)
        → i < max_hazard_pointers
        → Protected view i a
        → occurs a d'.freed ≡ occurs a d.freed)

retire-Retired :
    (view : View) (a p : ℕ) (d : HazardPointerDomain) → Retired view a p d (retire view p d)
unfolding retire reclaim occurs
retire-Retired view a p d =
    let joined = occurs-append a d.retired_list (p ∷ []) in
    let list = d.retired_list ++ (p ∷ []) in
    let start = record d { retired_list = [] } in
    if-elim (Retired view a p d) (leb 32 (length list)) _ _
      (λ full. (
        omega (arith, joined, reclaim_loop-occurs view a list start),
        λ i within protected. reclaim_loop-Protected view i a list start within protected,
      ))
      (λ room. (omega (arith, joined), λ i within protected. refl))

retire_all-Retired :
    (view : View) (a : ℕ) (ps : List ℕ) (d : HazardPointerDomain)
    → let d' = retire_all view ps d in
      (occurs a d'.retired_list + occurs a d'.freed
        ≡ occurs a d.retired_list + occurs a ps + occurs a d.freed)
      × ((i : ℕ)
          → i < max_hazard_pointers
          → Protected view i a
          → occurs a d'.freed ≡ occurs a d.freed)
unfolding retire_all occurs
retire_all-Retired view a [] d = (omega arith, λ i within protected. refl)
retire_all-Retired view a (p ∷ ps) d =
    let (all, kept) = retire_all-Retired view a ps (retire view p d) in
    let (one, still) = retire-Retired view a p d in
    (
      ground (arith, all, one),
      λ i within protected. kept i within protected ∙ still i within protected,
    )

-- Whatever other threads do meanwhile: a pointer that a record of the domain holds at all times is
-- not freed by any retirement, and stays on the list as often as it was retired.
pub retire_all-Protected :
    (view : View) (i a : ℕ) (ps : List ℕ) (d : HazardPointerDomain)
    → i < max_hazard_pointers
    → Protected view i a
    → let d' = retire_all view ps d in
      (occurs a d'.freed ≡ occurs a d.freed)
      × (occurs a d'.retired_list ≡ occurs a d.retired_list + occurs a ps)
retire_all-Protected view i a ps d within protected =
    let (all, kept) = retire_all-Retired view a ps d in
    let same = kept i within protected in (same, omega (arith, all, same))

-- `Reclaim` frees all retired copies of a pointer that no record holds meanwhile.
pub reclaim-Idle :
    (view : View) (a : ℕ) (d : HazardPointerDomain)
    → Idle view a
    → let d' = reclaim view d in
      (occurs a d'.retired_list ≡ 0)
      × (occurs a d'.freed ≡ occurs a d.retired_list + occurs a d.freed)
unfolding reclaim occurs
reclaim-Idle view a d idle =
    let start = record d { retired_list = [] } in
    let none_left = reclaim_loop-Idle view a d.retired_list start idle in
    let all = reclaim_loop-occurs view a d.retired_list start in
    (none_left, omega (arith, none_left, all))
