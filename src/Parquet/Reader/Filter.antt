-- ===== src/Parquet/Reader/Filter.antt =====
-- The filter keeps every row group with a matching row, as long as the metadata bounds the rows.
use odyssey_tasks.Prelude.{
  ℕ, zero, suc, ◌+◌, ◌*◌, ◌<◌, ◌≤◌, ltb, ap, ◌∙◌, ◌≡◌, refl, Bool, true, false, ◌||◌, Option, none,
  some, List, replicate, arith,
}
use odyssey_tasks.Parquet.Types.{ℤ, pos, negsuc, less, ColumnChunkMeta, RowGroupMeta}
use odyssey_tasks.Parquet.Reader.{
  FilterPredicate, ParquetReader, get_elem?, open_reader, whole_file, read_int64_column,
  fill_column, to_int64, value_column, is_disjoint, is_pruned, evaluate_filter,
}

-- The column has no bounds, or the value lies between them.
abbrev pub Within : ColumnChunkMeta → ℤ → Type 0
Within col v =
    ((lowest : ℤ) → col.min_int64 ≡ some lowest → less v lowest ≡ false)
    × ((highest : ℤ) → col.max_int64 ≡ some highest → less highest v ≡ false)

-- The value lies in the predicate's range, its ends included.
abbrev pub Matches : FilterPredicate → ℤ → Type 0
Matches pred v = (less v pred.gt_val ≡ false) × (less pred.lt_val v ≡ false)

not_less_trans : (a b c : ℤ) → less b a ≡ false → less c b ≡ false → less c a ≡ false
not_less_trans (pos a) (pos b) (pos c) h k = ground arith
not_less_trans (pos a) (pos b) (negsuc c) h k = absurd (ground arith)
not_less_trans (pos a) (negsuc b) c h k = absurd (ground arith)
not_less_trans (negsuc a) (pos b) (pos c) h k = refl
not_less_trans (negsuc a) (pos b) (negsuc c) h k = absurd (ground arith)
not_less_trans (negsuc a) (negsuc b) (pos c) h k = refl
not_less_trans (negsuc a) (negsuc b) (negsuc c) h k = ground arith

is_disjoint-false :
    (pred : FilterPredicate) (lowest highest : Option ℤ) (v : ℤ)
    → ((l : ℤ) → lowest ≡ some l → less v l ≡ false)
    → ((u : ℤ) → highest ≡ some u → less u v ≡ false)
    → Matches pred v
    → is_disjoint pred lowest highest ≡ false
unfolding is_disjoint
is_disjoint-false pred none highest v above below inside = refl
is_disjoint-false pred (some l) none v above below inside = refl
is_disjoint-false pred (some l) (some u) v above below inside = rw (
  not_less_trans pred.gt_val v u inside.0 (below u refl),
  not_less_trans l v pred.lt_val (above l refl) inside.1,
)

-- The rows of a group with a matching value in the predicate's column are all kept, whatever the
-- metadata says, where the value lies between the bounds that the column has.
pub evaluate_filter_keeps :
    (pred : FilterPredicate) (r : ParquetReader) (g : ℕ) (rg : RowGroupMeta) (col : ColumnChunkMeta)
    (v : ℤ)
    → get_elem? r.metadata.row_groups g ≡ some rg
    → get_elem? rg.columns pred.column_idx ≡ some col
    → Within col v
    → Matches pred v
    → evaluate_filter pred r g ≡ replicate rg.num_rows 1
unfolding evaluate_filter is_pruned
evaluate_filter_keeps pred r g rg col v has_group has_column within inside = rw (
  has_group,
  evaluate_filter,
  has_column,
  is_pruned,
  is_disjoint-false pred col.min_int64 col.max_int64 v within.0 within.1 inside,
)

get_elem?-fill_column :
    (cell : ℕ → ℤ) (rounds k i : ℕ)
    → i < rounds
    → get_elem? (fill_column cell rounds k) i ≡ some (cell (k + i))
unfolding fill_column
get_elem?-fill_column cell zero k i h = absurd (omega arith)
get_elem?-fill_column cell (suc rounds) k zero h = let e : k + 0 ≡ k = omega arith in rw e
get_elem?-fill_column cell (suc rounds) k (suc i) h =
    let e : k + suc i ≡ suc k + i = omega arith in
    rw e (get_elem?-fill_column cell rounds (suc k) i (omega arith))

to_int64-small : (i : ℕ) → i < 1000 → to_int64 (i * 10) ≡ pos (i * 10)
unfolding to_int64
to_int64-small i h = ground arith

or_true : (b : Bool) → (b || true) ≡ true
or_true true = refl
or_true false = refl

-- Of a file that was opened, whatever it holds, the filter drops rows of the second column that
-- match, where the upper end of the range is at least 0 and below 100: row `i` has the value `10 * i`,
-- and the made-up bounds begin at 100.
pub open_reader_drops :
    (bytes : List ℕ) (r : ParquetReader) (gt_val : ℤ) (l i : ℕ)
    → l < 100
    → i * 10 ≤ l
    → less (pos (i * 10)) gt_val ≡ false
    → (get_elem? (read_int64_column (open_reader (whole_file bytes) r).0 1 0) i
        ≡ some (pos (i * 10)))
      × Matches (record { column_idx = 1; gt_val = gt_val; lt_val = pos l }) (pos (i * 10))
      × (evaluate_filter
            (record { column_idx = 1; gt_val = gt_val; lt_val = pos l })
            (open_reader (whole_file bytes) r).0
            0
          ≡ replicate 1000 0)
unfolding open_reader read_int64_column evaluate_filter is_pruned is_disjoint value_column
open_reader_drops bytes r gt_val l i small below above =
    let in_range : ltb l (i * 10) ≡ false = ground arith in
    let too_low : ltb l 100 ≡ true = ground arith in
    let zero_first : 0 + i ≡ i = omega arith in
    let cell = get_elem?-fill_column (λ j. to_int64 (j * 10)) 1000 0 i (omega arith) in
    (
      cell
          ∙ ap some (ap (λ (j : ℕ). to_int64 (j * 10)) zero_first ∙ to_int64-small i (omega arith)),
      (above, in_range),
      rw (too_low, or_true (less (pos 10999) gt_val)),
    )
