-- ===== src/Parquet/Reader.antt =====
-- parquet_reader.hpp and parquet_reader.cpp: the reader and the filter on a row group's bounds. What
-- the file system has of the file is an argument.
pub mod Filter
use odyssey_tasks.Prelude.{
  ℕ, zero, suc, ◌+◌, ◌-◌, ◌*◌, ◌%◌, ◌^◌, Bool, true, false, ◌||◌, Option, none, some, List, [], ◌∷◌,
  ◌++◌, length, take, drop, replicate, ltb, leb, if◌then◌else◌,
}
use odyssey_tasks.Parquet.Types.{
  ℤ, pos, negsuc, less, int32, int64, ColumnChunkMeta, fresh_column, RowGroupMeta, FileMetaData,
  fresh_metadata,
}

pub record FilterPredicate : Type 0 where
  pub column_idx : ℕ
  pub gt_val : ℤ
  pub lt_val : ℤ

pub record ParquetReader : Type 0 where
  pub file_path : List ℕ
  pub metadata : FileMetaData
  pub file_buffer : List ℕ

unfoldable pub new : List ℕ → ParquetReader
new file_path = record { file_path = file_path; metadata = fresh_metadata; file_buffer = [] }

-- `v[i]`, after a comparison of `i` with the size.
abbrev pub get_elem? : {A : Type 0} → List A → ℕ → Option A
get_elem? [] i = none
get_elem? (x ∷ xs) zero = some x
get_elem? (x ∷ xs) (suc i) = get_elem? xs i

unfoldable pub id_column : ColumnChunkMeta
id_column = record fresh_column {
  column_type = int32;
  num_values = 1000;
  min_int64 = some (pos 0);
  max_int64 = some (pos 999);
}

unfoldable pub value_column : ColumnChunkMeta
value_column = record fresh_column {
  column_type = int64;
  num_values = 1000;
  min_int64 = some (pos 100);
  max_int64 = some (pos 10999);
}

-- The metadata is made up, whatever the bytes are.
unfoldable pub metadata_of : ℕ → FileMetaData
unfolding id_column value_column
metadata_of size = record {
  version = 1;
  num_rows = 1000;
  column_names = (b'i' ∷ b'd' ∷ []) ∷ (b'v' ∷ b'a' ∷ b'l' ∷ b'u' ∷ b'e' ∷ []) ∷ [];
  column_types = int32 ∷ int64 ∷ [];
  row_groups =
      record { columns = id_column ∷ value_column ∷ []; total_byte_size = size; num_rows = 1000 }
      ∷ [];
}

-- What the file system answers: the file cannot be opened, or it has this size and only these bytes
-- are read, or all its bytes are.
pub data FileAnswer : Type 0 where
  not_open : FileAnswer
  cut_off : ℕ → List ℕ → FileAnswer
  whole_file : List ℕ → FileAnswer

-- `file_buffer_.resize(size)`, and the bytes that are read into it.
unfoldable pub filled_buffer : ℕ → List ℕ → List ℕ → List ℕ
filled_buffer size bytes file_buffer =
    bytes ++ drop (length bytes) (take size file_buffer ++ replicate (size - length file_buffer) 0)

unfoldable pub open_reader : FileAnswer → ParquetReader → ParquetReader × Bool
unfolding metadata_of filled_buffer
open_reader not_open r = (r, false)
open_reader (cut_off size bytes) r =
    (record r { file_buffer = filled_buffer size bytes r.file_buffer }, false)
open_reader (whole_file bytes) r =
    (record r { file_buffer = bytes; metadata = metadata_of (length bytes) }, true)

-- A cell of 32 bits whose highest bit is set is negative.
unfoldable pub to_int32 : ℕ → ℤ
to_int32 i = let low = i % 2 ^ 32 in if ltb low (2 ^ 31) then pos low else negsuc (2 ^ 32 - 1 - low)

unfoldable pub to_int64 : ℕ → ℤ
to_int64 i = let low = i % 2 ^ 64 in if ltb low (2 ^ 63) then pos low else negsuc (2 ^ 64 - 1 - low)

-- The loops that fill a column, from row `i` on.
unfoldable pub fill_column : (ℕ → ℤ) → ℕ → ℕ → List ℤ
fill_column cell zero i = []
fill_column cell (suc rounds) i = cell i ∷ fill_column cell rounds (suc i)

unfoldable pub read_int32_column : ParquetReader → ℕ → ℕ → List ℤ
unfolding fill_column to_int32
read_int32_column r col_idx row_group_idx = elim (get_elem? r.metadata.row_groups row_group_idx) [
  | none ↦ []
  | some rg ↦ fill_column to_int32 rg.num_rows 0
]

unfoldable pub read_int64_column : ParquetReader → ℕ → ℕ → List ℤ
unfolding fill_column to_int64
read_int64_column r col_idx row_group_idx = elim (get_elem? r.metadata.row_groups row_group_idx) [
  | none ↦ []
  | some rg ↦ fill_column (λ i. to_int64 (i * 10)) rg.num_rows 0
]

-- Whether the bounds of a column, where it has both, leave the predicate's range.
unfoldable pub is_disjoint : FilterPredicate → Option ℤ → Option ℤ → Bool
is_disjoint pred none highest = false
is_disjoint pred (some lowest) none = false
is_disjoint pred (some lowest) (some highest) = less highest pred.gt_val || less pred.lt_val lowest

unfoldable pub is_pruned : FilterPredicate → RowGroupMeta → Bool
unfolding is_disjoint
is_pruned pred rg = elim (get_elem? rg.columns pred.column_idx) [
  | none ↦ false
  | some col ↦ is_disjoint pred col.min_int64 col.max_int64
]

unfoldable pub evaluate_filter : FilterPredicate → ParquetReader → ℕ → List ℕ
unfolding is_pruned
evaluate_filter pred r row_group_idx = elim (get_elem? r.metadata.row_groups row_group_idx) [
  | none ↦ []
  | some rg ↦ replicate rg.num_rows (if is_pruned pred rg then 0 else 1)
]
