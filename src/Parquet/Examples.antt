-- ===== src/Parquet/Examples.antt =====
-- Theorems on runs at concrete values.
use odyssey_tasks.Prelude.{◌≡◌, refl, some, [], ◌∷◌, arith, replicate}
use odyssey_tasks.Prelude.Outcome.{ok}
use odyssey_tasks.Parquet.BitUnpack.{decode_rle}
use odyssey_tasks.Parquet.Types.{pos}
use odyssey_tasks.Parquet.Reader
use odyssey_tasks.Parquet.Reader.{
  FilterPredicate, ParquetReader, get_elem?, id_column, value_column, metadata_of, open_reader,
  whole_file, read_int64_column, evaluate_filter,
}
use odyssey_tasks.Parquet.Reader.Filter.{Matches, evaluate_filter_keeps, open_reader_drops}
use odyssey_tasks.Parquet.BitUnpack.Runs.{encode_runs, expand_runs, decode_rle-encode_runs}

-- Two sevens and three times 300, of which four values are wanted.
decode_rle-encode_runs_example :
    decode_rle (encode_runs 12 ((2, 7) ∷ (3, 300) ∷ [])) 12 [] 4 ≡ ok (7 ∷ 7 ∷ 300 ∷ 300 ∷ [])
unfolding expand_runs
decode_rle-encode_runs_example =
    decode_rle-encode_runs 12 4 ((2, 7) ∷ (3, 300) ∷ []) [] (omega arith)
      ((omega arith, omega arith), ((omega arith, omega arith), tt))

kept_rows : FilterPredicate
kept_rows = record { column_idx = 1; gt_val = pos 90; lt_val = pos 5000 }

opened : ParquetReader
opened = (open_reader (whole_file []) (Reader.new [])).0

evaluate_filter_keeps_example : evaluate_filter kept_rows opened 0 ≡ replicate 1000 1
unfolding opened kept_rows open_reader metadata_of value_column
evaluate_filter_keeps_example =
    evaluate_filter_keeps kept_rows opened 0
      (record { columns = id_column ∷ value_column ∷ []; total_byte_size = 0; num_rows = 1000 })
      value_column (pos 200) refl refl (λ lowest e. ground arith, λ highest e. ground arith)
      (refl, refl)

open_reader_drops_example :
    (get_elem? (read_int64_column (open_reader (whole_file []) (Reader.new [])).0 1 0) 3
      ≡ some (pos 30))
    × Matches (record { column_idx = 1; gt_val = pos 10; lt_val = pos 50 }) (pos 30)
    × (evaluate_filter
          (record { column_idx = 1; gt_val = pos 10; lt_val = pos 50 })
          (open_reader (whole_file []) (Reader.new [])).0
          0
        ≡ replicate 1000 0)
open_reader_drops_example =
    open_reader_drops [] (Reader.new []) (pos 10) 50 3 (omega arith) (omega arith) refl
