-- ===== src/Alloc/Hazard.antt =====
-- hazard_pointer.cpp: the records that threads publish pointers in, and the pointers that one thread
-- retired. Other threads write to the records while `Reclaim` looks at them, so each load sees the
-- records as they are at that time: a `View` gives each record by the number of loads before.
-- `nullptr` is 0, and `freed` lists what was passed to `std::free`, the last first.
pub mod Reclaim
mod Examples
use odyssey_tasks.Prelude.{
  ℕ, zero, suc, ◌+◌, ◌-◌, Bool, true, false, ◌&&◌, not, Option, none, some, List, [], ◌∷◌, ◌++◌,
  length, leb, ◌==◌, if◌then◌else◌,
}

abbrev pub max_hazard_pointers : ℕ
max_hazard_pointers = 128

pub record HazardRecord : Type 0 where
  pub pointer : ℕ
  pub active : Bool

abbrev pub View : Type 0
View = ℕ → ℕ → HazardRecord

pub record HazardPointerDomain : Type 0 where
  pub retired_list : List ℕ
  pub freed : List ℕ
  pub loads : ℕ

-- The loop of `Acquire` from record `i` on, at one time: the first record that is not active.
acquire_loop : ℕ → ℕ → (ℕ → HazardRecord) → Option ℕ
acquire_loop zero i records = none
acquire_loop (suc rounds) i records =
    let later = acquire_loop rounds (suc i) records in if (records i).active then later else some i

set_record : ℕ → HazardRecord → (ℕ → HazardRecord) → ℕ → HazardRecord
set_record i record' records j = if j == i then record' else records j

activate : Option ℕ → (ℕ → HazardRecord) → (ℕ → HazardRecord)
activate none records = records
activate (some i) records =
    set_record i (record { pointer = (records i).pointer; active = true }) records

pub acquire : (ℕ → HazardRecord) → Option ℕ × (ℕ → HazardRecord)
acquire records =
    let found = acquire_loop max_hazard_pointers 0 records in (found, activate found records)

pub release : Option ℕ → (ℕ → HazardRecord) → (ℕ → HazardRecord)
release none records = records
release (some i) records = set_record i (record { pointer = 0; active = false }) records

-- The loop over the records from `i` on: whether one is active and then holds the pointer, and the
-- loads made. `&&` loads the pointer only of an active record.
is_hazardous : View → ℕ → ℕ → ℕ → ℕ → Bool × ℕ
is_hazardous view zero i p loads = (false, loads)
is_hazardous view (suc rounds) i p loads =
    let after_one = is_hazardous view rounds (suc i) p (suc loads) in
    let after_two = is_hazardous view rounds (suc i) p (suc (suc loads)) in
    if (view loads i).active
    then (if (view (suc loads) i).pointer == p then (true, suc (suc loads)) else after_two)
    else after_one

-- One retired pointer is freed, or kept at the end of `still_retired`.
reclaim_one : ℕ → Bool × ℕ → HazardPointerDomain → HazardPointerDomain
reclaim_one p (true, loads) d = record d {
  retired_list = d.retired_list ++ (p ∷ []);
  loads = loads;
}
reclaim_one p (false, loads) d = record d { freed = p ∷ d.freed; loads = loads }

-- The loop over the retired pointers, with the result in place of `still_retired`.
reclaim_loop : View → List ℕ → HazardPointerDomain → HazardPointerDomain
reclaim_loop view [] d = d
reclaim_loop view (p ∷ ps) d =
    reclaim_loop view ps (reclaim_one p (is_hazardous view max_hazard_pointers 0 p d.loads) d)

pub reclaim : View → HazardPointerDomain → HazardPointerDomain
reclaim view d = reclaim_loop view d.retired_list (record d { retired_list = [] })

pub retire : View → ℕ → HazardPointerDomain → HazardPointerDomain
retire view ptr d =
    let d' = record d { retired_list = d.retired_list ++ (ptr ∷ []) } in
    if leb 32 (length d'.retired_list) then reclaim view d' else d'

pub retire_all : View → List ℕ → HazardPointerDomain → HazardPointerDomain
retire_all view [] d = d
retire_all view (p ∷ ps) d = retire_all view ps (retire view p d)
