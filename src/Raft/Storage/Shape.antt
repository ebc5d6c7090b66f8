-- ===== src/Raft/Storage/Shape.antt =====
-- The shape of the log, kept by every storage method: the entry at offset k has index
-- `snapshot_index + k`, so that arithmetic on offsets is a search by index.
use odyssey_tasks.Prelude.{
  ℕ, zero, suc, ◌+◌, ◌-◌, ◌≤◌, ◌<◌, ◌≡◌, refl, sym, List, [], ◌∷◌, ◌++◌, length, get_or, take, leb,
  ◌==◌, if◌then◌else◌, arith,
}
use odyssey_tasks.Raft.Types.{LogEntry}
use odyssey_tasks.Raft.Storage.{Storage, dummy, init, back, get_last_index, get_term, truncate}

-- The indices rise by one from `n`.
abbrev pub Contiguous : ℕ → List LogEntry → Type 0
Contiguous n [] = Unit {0}
Contiguous n (e ∷ es) = (e.index ≡ n) × Contiguous (suc n) es

abbrev pub IsLog : ℕ → ℕ → List LogEntry → Type 0
IsLog i t [] = ⊥
IsLog i t (e ∷ es) = (e.index ≡ i) × (e.term ≡ t) × Contiguous (suc i) es

abbrev pub IsWellFormed : Storage → Type 0
IsWellFormed s = IsLog s.snapshot_index s.snapshot_term s.log

-- The entries with an index up to `i`, and the term of the entry with index `i`.
abbrev pub up_to : ℕ → List LogEntry → List LogEntry
up_to i [] = []
up_to i (e ∷ es) = if leb e.index i then e ∷ up_to i es else up_to i es

abbrev pub term_at : ℕ → List LogEntry → ℕ
term_at i [] = 0
term_at i (e ∷ es) = if e.index == i then e.term else term_at i es

pub back-Contiguous :
    (n : ℕ) (e : LogEntry) (es : List LogEntry)
    → Contiguous n (e ∷ es)
    → (back (e ∷ es)).index ≡ n + length es
unfolding back
back-Contiguous n e [] c = omega arith
back-Contiguous n e (f ∷ es) c = omega (arith, back-Contiguous (suc n) f es c.1)

term_at_below : (i n : ℕ) (es : List LogEntry) → Contiguous n es → i < n → term_at i es ≡ 0
term_at_below i n [] c h = refl
term_at_below i n (e ∷ es) c h = ground (arith, term_at_below i (suc n) es c.1)

term_at_above :
    (i n : ℕ) (es : List LogEntry) → Contiguous n es → n + length es ≤ i → term_at i es ≡ 0
term_at_above i n [] c h = refl
term_at_above i n (e ∷ es) c h = ground (arith, term_at_above i (suc n) es c.1)

term_at_offset :
    (k n : ℕ) (es : List LogEntry)
    → Contiguous n es
    → k < length es
    → term_at (n + k) es ≡ (get_or es k (dummy 0 0)).term
term_at_offset k n [] c h = absurd (omega arith)
term_at_offset zero n (e ∷ es) c h = ground arith
term_at_offset (suc k) n (e ∷ es) c h =
    let next : n + suc k ≡ suc n + k = omega arith in
    ground (arith, next, term_at_offset k (suc n) es c.1)

-- `get_term` computes an offset into the vector; on a well-formed storage this finds the entry that
-- carries the index, and 0 where there is none.
pub get_term-term_at : (s : Storage) (i : ℕ) → IsWellFormed s → get_term s i ≡ term_at i s.log
unfolding get_term
get_term-term_at s i w = by_log s.log refl w
  where
    by_log :
        (log : List LogEntry)
        → s.log ≡ log
        → IsLog s.snapshot_index s.snapshot_term log
        → get_term s i ≡ term_at i s.log
    by_log [] e c = absurd c
    by_log (x ∷ es) e c = rw e (
        ground (
          arith,
          back-Contiguous s.snapshot_index x es (c.0, c.2),
          term_at_below i s.snapshot_index (x ∷ es) (c.0, c.2),
          term_at_above i s.snapshot_index (x ∷ es) (c.0, c.2),
          term_at_offset (i - s.snapshot_index) s.snapshot_index (x ∷ es) (c.0, c.2),
        ))

pub last_index-length :
    (s : Storage) → IsWellFormed s → get_last_index s + 1 ≡ s.snapshot_index + length s.log
unfolding get_last_index
last_index-length s w = by_log s.log refl w
  where
    by_log :
        (log : List LogEntry)
        → s.log ≡ log
        → IsLog s.snapshot_index s.snapshot_term log
        → (back s.log).index + 1 ≡ s.snapshot_index + length s.log
    by_log [] e c = absurd c
    by_log (x ∷ es) e c = rw e (omega (arith, back-Contiguous s.snapshot_index x es (c.0, c.2)))

init-IsWellFormed : IsWellFormed init
unfolding init
init-IsWellFormed = omega arith

Contiguous-append :
    (n : ℕ) (es fs : List LogEntry)
    → Contiguous n es
    → Contiguous (n + length es) fs
    → Contiguous n (es ++ fs)
Contiguous-append n [] fs c d = let e : n ≡ n + 0 = omega arith in rw e d
Contiguous-append n (e ∷ es) fs c d =
    let k : n + suc (length es) ≡ suc n + length es = omega arith in
    (c.0, Contiguous-append (suc n) es fs c.1 (rw k at d))

Contiguous-take : (k n : ℕ) (es : List LogEntry) → Contiguous n es → Contiguous n (take k es)
Contiguous-take zero n es c = tt
Contiguous-take (suc k) n [] c = tt
Contiguous-take (suc k) n (e ∷ es) c = (c.0, Contiguous-take k (suc n) es c.1)

up_to_all :
    (i n : ℕ) (es : List LogEntry) → Contiguous n es → n + length es ≤ i + 1 → up_to i es ≡ es
up_to_all i n [] c h = refl
up_to_all i n (e ∷ es) c h = ground (arith, up_to_all i (suc n) es c.1)

up_to_none : (i n : ℕ) (es : List LogEntry) → Contiguous n es → i < n → up_to i es ≡ []
up_to_none i n [] c h = refl
up_to_none i n (e ∷ es) c h = ground (arith, up_to_none i (suc n) es c.1)

take-up_to :
    (k i n : ℕ) (es : List LogEntry) → Contiguous n es → i + 1 ≡ n + k → take k es ≡ up_to i es
take-up_to zero i n es c h = sym (up_to_none i n es c (omega arith))
take-up_to (suc k) i n [] c h = refl
take-up_to (suc k) i n (e ∷ es) c h = ground (arith, take-up_to k i (suc n) es c.1)

module _ (s : Storage) (w : IsWellFormed s) where
  whole : Contiguous s.snapshot_index s.log
  whole = by_log s.log w
    where
      by_log :
          (log : List LogEntry)
          → IsLog s.snapshot_index s.snapshot_term log
          → Contiguous s.snapshot_index log
      by_log [] c = absurd c
      by_log (x ∷ es) c = (c.0, c.2)

  -- Truncating behind index `i` keeps exactly the entries up to `i`, from the snapshot on.
  pub truncate-up_to : (i : ℕ) → s.snapshot_index ≤ i → (truncate s (i + 1)).log ≡ up_to i s.log
  unfolding truncate
  truncate-up_to i h = ground (
    arith,
    take-up_to (i + 1 - s.snapshot_index) i s.snapshot_index s.log whole,
    up_to_all i s.snapshot_index s.log whole,
  )

up_to-Contiguous : (i n : ℕ) (es : List LogEntry) → Contiguous n es → Contiguous n (up_to i es)
up_to-Contiguous i n [] c = tt
up_to-Contiguous i n (e ∷ es) c =
    ground (arith, up_to-Contiguous i (suc n) es c.1, up_to_none i (suc n) es c.1)

up_to-IsLog : (i n t : ℕ) (log : List LogEntry) → n ≤ i → IsLog n t log → IsLog n t (up_to i log)
up_to-IsLog i n t [] h c = absurd c
up_to-IsLog i n t (e ∷ es) h c = ground (arith, up_to-Contiguous i (suc n) es c.2)

pub length-up_to :
    (i n : ℕ) (es : List LogEntry)
    → Contiguous n es
    → n ≤ i + 1
    → i < n + length es
    → n + length (up_to i es) ≡ i + 1
length-up_to i n [] c l h = omega arith
length-up_to i n (e ∷ es) c l h =
    ground (arith, up_to_none i (suc n) es c.1, length-up_to i (suc n) es c.1)

-- Cutting the log behind `i` and appending entries that start at `i + 1` keeps the shape.
pub replace-IsLog :
    (i n t : ℕ) (log entries : List LogEntry)
    → IsLog n t log
    → n ≤ i
    → i < n + length log
    → Contiguous (suc i) entries
    → IsLog n t (up_to i log ++ entries)
replace-IsLog i n t [] entries c l h d = absurd c
replace-IsLog i n t (e ∷ es) entries c l h d =
    let k : suc n + length (up_to i es) ≡ suc i = omega (arith, length-up_to i (suc n) es c.2) in
    ground (
      arith,
      Contiguous-append (suc n) (up_to i es) entries (up_to-Contiguous i (suc n) es c.2) (rw k d),
    )

-- Appending at the end keeps the shape.
pub append-IsLog :
    (n t : ℕ) (log entries : List LogEntry)
    → IsLog n t log
    → Contiguous (n + length log) entries
    → IsLog n t (log ++ entries)
append-IsLog n t [] entries c d = absurd c
append-IsLog n t (e ∷ es) entries c d =
    let k : n + suc (length es) ≡ suc n + length es = omega arith in
    (c.0, c.1, Contiguous-append (suc n) es entries c.2 (rw k at d))
