-- ===== src/Parquet/Types.antt =====
-- parquet_types.hpp: the metadata of a file. An `int64_t` is an integer; names are lists of codes.
use odyssey_tasks.Prelude.{ℕ, Bool, true, false, Option, none, List, [], ltb}

-- `negsuc n` is -(n + 1).
pub data ℤ : Type 0 where
  pos : ℕ → ℤ
  negsuc : ℕ → ℤ

abbrev pub less : ℤ → ℤ → Bool
less (pos m) (pos n) = ltb m n
less (pos m) (negsuc n) = false
less (negsuc m) (pos n) = true
less (negsuc m) (negsuc n) = ltb n m

pub data ColumnType : Type 0 where
  boolean : ColumnType
  int32 : ColumnType
  int64 : ColumnType
  int96 : ColumnType
  float : ColumnType
  double : ColumnType
  byte_array : ColumnType
  fixed_len_byte_array : ColumnType

pub data Encoding : Type 0 where
  plain : Encoding
  plain_dictionary : Encoding
  rle : Encoding
  bit_packed : Encoding
  delta_binary_packed : Encoding
  delta_length_byte_array : Encoding
  delta_byte_array : Encoding
  rle_dictionary : Encoding

pub data Compression : Type 0 where
  uncompressed : Compression
  snappy : Compression
  gzip : Compression
  lzo : Compression
  brotli : Compression
  lz4 : Compression
  zstd : Compression

pub record ColumnChunkMeta : Type 0 where
  pub column_type : ColumnType
  pub encodings : List Encoding
  pub compression : Compression
  pub num_values : ℕ
  pub total_uncompressed_size : ℕ
  pub total_compressed_size : ℕ
  pub data_page_offset : ℕ
  pub dictionary_page_offset : ℕ
  pub min_int64 : Option ℤ
  pub max_int64 : Option ℤ

abbrev pub fresh_column : ColumnChunkMeta
fresh_column = record {
  column_type = int32;
  encodings = [];
  compression = uncompressed;
  num_values = 0;
  total_uncompressed_size = 0;
  total_compressed_size = 0;
  data_page_offset = 0;
  dictionary_page_offset = 0;
  min_int64 = none;
  max_int64 = none;
}

-- Counts and sizes are not negative.
pub record RowGroupMeta : Type 0 where
  pub columns : List ColumnChunkMeta
  pub total_byte_size : ℕ
  pub num_rows : ℕ

pub record FileMetaData : Type 0 where
  pub version : ℕ
  pub num_rows : ℕ
  pub column_names : List (List ℕ)
  pub column_types : List ColumnType
  pub row_groups : List RowGroupMeta

abbrev pub fresh_metadata : FileMetaData
fresh_metadata = record {
  version = 1;
  num_rows = 0;
  column_names = [];
  column_types = [];
  row_groups = [];
}
