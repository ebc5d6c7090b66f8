-- ===== src/Alloc/Hazard/Examples.antt =====
-- Theorems on hazard pointers at concrete values.
use odyssey_tasks.Prelude.{◌+◌, ◌≡◌, true, false, [], ◌∷◌, refl, ◌==◌, if◌then◌else◌, arith}
use odyssey_tasks.Alloc.Cache.Invariant.{occurs}
use odyssey_tasks.Alloc.Hazard.{HazardPointerDomain, View, retire_all}
use odyssey_tasks.Alloc.Hazard.Reclaim.{retire_all-Protected}

-- Record 3 holds 7; the others are not active, and change what they hold.
abbrev reading : View
reading time i =
    if i == 3
    then record { pointer = 7; active = true }
    else record { pointer = time; active = false }

abbrev nothing_retired : HazardPointerDomain
nothing_retired = record { retired_list = []; freed = []; loads = 0 }

retire_all-Protected_example :
    let d' = retire_all reading (7 ∷ 9 ∷ []) nothing_retired in
    (occurs 7 d'.freed ≡ occurs 7 [])
    × (occurs 7 d'.retired_list ≡ occurs 7 [] + occurs 7 (7 ∷ 9 ∷ []))
retire_all-Protected_example =
    retire_all-Protected reading 3 7 (7 ∷ 9 ∷ []) nothing_retired (omega arith)
      (λ time. (refl, refl))

-- No record is in use.
abbrev unused : View
unused time i = record { pointer = 0; active = false }
