-- ===== src/Mvcc/Wal.antt =====
-- wal.hpp and wal.cpp: the log file as the list of its bytes. Integers are stored as the machine
-- holds them, lowest byte first; a key is the bit pattern of its int64_t. What `flush` makes durable
-- and the condition variable are left out.
pub mod RoundTrip
use odyssey_tasks.Prelude.{
  ℕ, zero, suc, ◌+◌, ◌-◌, ◌*◌, ◌/◌, ◌%◌, ◌^◌, Bool, true, false, Option, none, some, List, [], ◌∷◌,
  ◌++◌, length, take, drop, replicate, leb, if◌then◌else◌,
}

-- `type` is the value of the `LogType`, which a read may set to any byte.
pub record LogRecord : Type 0 where
  pub lsn : ℕ
  pub prev_lsn : ℕ
  pub txn_id : ℕ
  pub type : ℕ
  pub key : ℕ
  pub before_val : List ℕ
  pub after_val : List ℕ
  pub undo_next_lsn : ℕ

-- A record with the default value of every member.
abbrev pub empty_record : LogRecord
empty_record = record {
  lsn = 0;
  prev_lsn = 0;
  txn_id = 0;
  type = 0;
  key = 0;
  before_val = [];
  after_val = [];
  undo_next_lsn = 0;
}

pub record Wal : Type 0 where
  pub is_open : Bool
  pub file : List ℕ
  pub next_lsn : ℕ
  pub flushed_lsn : ℕ

pub new : Wal
new = record { is_open = false; file = []; next_lsn = 1; flushed_lsn = 0 }

-- `found` is what the file system gives for the path: the content (that of a new file is empty), or
-- none where the file can be neither opened nor created.
pub open_file : Wal → Option (List ℕ) → Wal × Bool
open_file w none = (record w { is_open = false; file = [] }, false)
open_file w (some bytes) = (record w { is_open = true; file = bytes }, true)

pub close : Wal → Wal
close w = record w { is_open = false }

-- The `n` bytes of an integer in memory.
le_bytes : ℕ → ℕ → List ℕ
le_bytes zero v = []
le_bytes (suc n) v = (v % 256) ∷ le_bytes n (v / 256)

of_le : List ℕ → ℕ
of_le [] = 0
of_le (b ∷ bs) = b + 256 * of_le bs

-- `uint32_t len = val.size();` and the bytes, where there are any.
write_string : List ℕ → List ℕ
write_string val = let len = length val % 2 ^ 32 in le_bytes 4 len ++ take len val

pub write_record : LogRecord → List ℕ
write_record r =
    le_bytes 8 r.lsn
    ++ (le_bytes 8 r.prev_lsn
        ++ (le_bytes 8 r.txn_id
            ++ (le_bytes 1 r.type
                ++ (le_bytes 8 r.key
                    ++ (le_bytes 8 r.undo_next_lsn
                        ++ (write_string r.before_val ++ write_string r.after_val))))))

pub append_record : Wal → LogRecord → Wal × ℕ
append_record w r =
    let lsn = w.next_lsn in
    (
      record w {
        next_lsn = (lsn + 1) % 2 ^ 64;
        file = if w.is_open then w.file ++ write_record (record r { lsn = lsn }) else w.file;
      },
      lsn,
    )

pub flush : Wal → ℕ → Wal
flush w lsn = record w { flushed_lsn = lsn }

-- The file as an input stream: what is left of it, and that no read came short.
record Input : Type 0 where
  rest : List ℕ
  good : Bool

-- A read that comes short stores what there is; after that a read stores nothing.
read_bytes : ℕ → Input → List ℕ × Input
read_bytes n s =
    if s.good
    then if leb n (length s.rest)
      then (take n s.rest, record { rest = drop n s.rest; good = true })
      else (s.rest, record { rest = []; good = false })
    else ([], s)

-- The integer is 0 before it is read, so the bytes that are not stored are 0.
read_int : ℕ → Input → ℕ × Input
read_int n s = let (bytes, s') = read_bytes n s in (of_le bytes, s')

-- `resize(len)` fills the string with zeros before it is read.
read_string : Input → List ℕ × Input
read_string s =
    let (len, s₁) = read_int 4 s in
    let (bytes, s₂) = read_bytes len s₁ in (bytes ++ replicate (len - length bytes) 0, s₂)

-- What follows the sequence number.
read_fields : ℕ → Input → LogRecord × Input
read_fields lsn s =
    let (prev_lsn, s₁) = read_int 8 s in
    let (txn_id, s₂) = read_int 8 s₁ in
    let (type, s₃) = read_int 1 s₂ in
    let (key, s₄) = read_int 8 s₃ in
    let (undo_next_lsn, s₅) = read_int 8 s₄ in
    let (before_val, s₆) = read_string s₅ in
    let (after_val, s₇) = read_string s₆ in
    (
      record {
        lsn = lsn;
        prev_lsn = prev_lsn;
        txn_id = txn_id;
        type = type;
        key = key;
        before_val = before_val;
        after_val = after_val;
        undo_next_lsn = undo_next_lsn;
      },
      s₇,
    )

is_eof : Input → Bool
is_eof s = elim s.rest [ [] ↦ true | b ∷ bs ↦ if s.good then false else true ]

-- `none` means that the fuel ran out.
read_loop : ℕ → Input → List LogRecord → Option (List LogRecord)
read_loop zero s records = none
read_loop (suc fuel) s records =
    let lsn = read_int 8 s in
    let r = read_fields lsn.0 lsn.1 in
    let more = read_loop fuel r.1 (records ++ r.0 ∷ []) in
    if is_eof s then some records else if lsn.1.good then more else some records

-- Each record takes at least eight bytes.
pub read_all_records : Wal → Option (List LogRecord)
read_all_records w =
    if w.is_open
    then read_loop (suc (length w.file)) (record { rest = w.file; good = true }) []
    else some []
