-- ===== src/Mvcc/Examples.antt =====
-- A log and a history of transactions, each with the conditions of a theorem.
use odyssey_tasks.Prelude.{◌^◌, ◌≡◌, some, List, [], ◌∷◌, arith}
use odyssey_tasks.Mvcc.Wal.{LogRecord, empty_record, open_file, read_all_records}
use odyssey_tasks.Mvcc.Wal
use odyssey_tasks.Mvcc.Wal.RoundTrip.{IsRecord, append_all, numbered, read_all_records-append_all}
use odyssey_tasks.Mvcc.Engine.{Call, call_begin, call_put, call_delete, call_commit, run}
use odyssey_tasks.Mvcc.Engine.Isolation.{start, AllOwn, run-get}

abbrev begin_record : LogRecord
begin_record = record empty_record { txn_id = 1; type = 1 }

-- The smallest key, as a bit pattern.
abbrev insert_record : LogRecord
insert_record = record empty_record {
  txn_id = 1;
  type = 2;
  prev_lsn = 1;
  key = 2 ^ 63;
  after_val = 0x61 ∷ [];
}

abbrev records : List LogRecord
records = begin_record ∷ insert_record ∷ []

begin-IsRecord : IsRecord begin_record
begin-IsRecord = record {
  lsn = omega arith;
  prev_lsn = omega arith;
  txn_id = omega arith;
  type = omega arith;
  key = omega arith;
  undo_next_lsn = omega arith;
  before_val = omega arith;
  after_val = omega arith;
}

insert-IsRecord : IsRecord insert_record
insert-IsRecord = record {
  lsn = omega arith;
  prev_lsn = omega arith;
  txn_id = omega arith;
  type = omega arith;
  key = omega arith;
  undo_next_lsn = omega arith;
  before_val = omega arith;
  after_val = omega arith;
}

read_all_records-append_all_example :
    read_all_records (append_all (open_file Wal.new (some [])).0 records)
    ≡ some (numbered 1 records)
read_all_records-append_all_example =
    read_all_records-append_all records (begin-IsRecord, (insert-IsRecord, tt)) (omega arith)

-- A transaction writes two keys and commits, and a second one, which begins after that, deletes one.
abbrev history : List Call
history =
    call_begin
    ∷ call_put 0 10 (0x61 ∷ [])
    ∷ call_put 0 11 (0x62 ∷ [])
    ∷ call_commit 0
    ∷ call_begin
    ∷ call_delete 1 11
    ∷ []

run-get_example : AllOwn (run history start).engine 10 (run history start).txns
run-get_example = run-get history 10 (omega arith)
