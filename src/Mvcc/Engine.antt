-- ===== src/Mvcc/Engine.antt =====
-- engine.hpp, engine.cpp, transaction.hpp and transaction.cpp: the versions of every key, newest
-- first, and the transactions. A key is the bit pattern of its int64_t and a value the list of its
-- bytes. `recover`, `checkpoint` and `vacuum` are empty in the source and left out, as is the
-- shared mutex: each operation holds it from start to end. A transaction always has an engine.
mod Chains
mod Operations
pub mod Isolation
use odyssey_tasks.Prelude.{
  ℕ, zero, suc, ◌+◌, ◌-◌, ◌%◌, ◌^◌, Bool, true, false, Option, none, some, List, [], ◌∷◌, ◌++◌, leb,
  ltb, ◌==◌, ◌||◌, ◌&&◌, if◌then◌else◌,
}
use odyssey_tasks.Prelude.Dict.{insert}
use odyssey_tasks.Mvcc.Wal.{LogRecord, Wal, append_record, empty_record, flush}
use odyssey_tasks.Mvcc.Wal

pub record VersionRecord : Type 0 where
  pub commit_ts : ℕ
  pub txn_id : ℕ
  pub is_deleted : Bool
  pub value : List ℕ

pub data TxnState : Type 0 where
  active : TxnState
  committed : TxnState
  aborted : TxnState

pub record Transaction : Type 0 where
  pub txn_id : ℕ
  pub read_ts : ℕ
  pub commit_ts : ℕ
  pub state : TxnState
  pub prev_lsn : ℕ
  pub write_set : List (ℕ × Option (List ℕ))

-- `index` holds the chain of versions of each key, by increasing key.
pub record StorageEngine : Type 0 where
  pub wal : Wal
  pub global_ts : ℕ
  pub next_txn_id : ℕ
  pub index : List (ℕ × List VersionRecord)

unfoldable pub new : StorageEngine
new = record { wal = Wal.new; global_ts = 1; next_txn_id = 1; index = [] }

-- The place of a key in the order of the signed integers.
abbrev pub rank : ℕ → ℕ
rank key = (key + 2 ^ 63) % 2 ^ 64

unfoldable pub chain : ℕ → List (ℕ × List VersionRecord) → List VersionRecord
chain key [] = []
chain key (entry ∷ index) = if key == entry.0 then entry.1 else chain key index

unfoldable pub count : ℕ → List (ℕ × List VersionRecord) → Bool
count key [] = false
count key (entry ∷ index) = let later = count key index in if key == entry.0 then true else later

-- An assignment at a key that is in the map, and at one that is not.
unfoldable pub replace :
    ℕ → List VersionRecord → List (ℕ × List VersionRecord) → List (ℕ × List VersionRecord)
replace key vs [] = []
replace key vs (entry ∷ index) =
    let rest = replace key vs index in if key == entry.0 then (key, vs) ∷ index else entry ∷ rest

unfoldable pub insert_new :
    ℕ → List VersionRecord → List (ℕ × List VersionRecord) → List (ℕ × List VersionRecord)
insert_new key vs [] = (key, vs) ∷ []
insert_new key vs (entry ∷ index) =
    let rest = insert_new key vs index in
    if ltb (rank key) (rank entry.0) then (key, vs) ∷ entry ∷ index else entry ∷ rest

-- Puts a version in front of the key's chain.
unfoldable pub add_version :
    ℕ → VersionRecord → List (ℕ × List VersionRecord) → List (ℕ × List VersionRecord)
add_version key v index =
    if count key index
    then replace key (v ∷ chain key index) index
    else insert_new key (v ∷ []) index

-- Logs a record of the transaction: the engine, the transaction with `prev_lsn` set, and the number.
unfoldable pub log : StorageEngine → LogRecord → StorageEngine × ℕ
log e r = let (wal, lsn) = append_record e.wal r in (record e { wal = wal }, lsn)

unfoldable pub begin_transaction : StorageEngine → StorageEngine × Transaction
begin_transaction e =
    let tid = e.next_txn_id in
    let (e', lsn) = log e (record empty_record { txn_id = tid; type = 1 }) in
    (
      record e' { next_txn_id = (tid + 1) % 2 ^ 64 },
      record {
        txn_id = tid;
        read_ts = e.global_ts;
        commit_ts = 0;
        state = TxnState.active;
        prev_lsn = lsn;
        write_set = [];
      },
    )

-- The record that ends the transaction, made durable.
unfoldable pub log_end : StorageEngine → Transaction → ℕ → StorageEngine
log_end e txn type =
    let (e', lsn) =
      log e (record empty_record { txn_id = txn.txn_id; prev_lsn = txn.prev_lsn; type = type }) in
    record e' { wal = flush e'.wal lsn }

unfoldable pub commit : StorageEngine → Transaction → (StorageEngine × Transaction) × Bool
commit e txn = elim txn.state [
  | active ↦ (
    (
      log_end e txn 5,
      record txn { state = TxnState.committed; commit_ts = (txn.read_ts + 1) % 2 ^ 64 },
    ),
    true,
  )
  | committed ↦ ((e, txn), false)
  | aborted ↦ ((e, txn), false)
]

unfoldable pub abort : StorageEngine → Transaction → StorageEngine × Transaction
abort e txn = elim txn.state [
  | active ↦ (log_end e txn 6, record txn { state = TxnState.aborted })
  | committed ↦ (e, txn)
  | aborted ↦ (e, txn)
]

-- The type of the record and its two values.
unfoldable pub write_kind : LogRecord → Option (List ℕ) → Option (List ℕ) → LogRecord
write_kind r none (some after) = record r { type = 2; after_val = after }
write_kind r (some before) (some after) = record r {
  type = 3;
  before_val = before;
  after_val = after;
}
write_kind r none none = record r { type = 4 }
write_kind r (some before) none = record r { type = 4; before_val = before }

unfoldable pub record_write :
    StorageEngine
    → Transaction
    → ℕ
    → Option (List ℕ)
    → Option (List ℕ)
    → StorageEngine × Transaction
record_write e txn key before_val after_val =
    let r = record empty_record { txn_id = txn.txn_id; prev_lsn = txn.prev_lsn; key = key } in
    let (e', lsn) = log e (write_kind r before_val after_val) in
    (e', record txn { write_set = insert key after_val txn.write_set; prev_lsn = lsn })

unfoldable pub stamp : Transaction → ℕ
stamp txn = if txn.commit_ts == 0 then 2 ^ 64 - 1 else txn.commit_ts

unfoldable pub put : StorageEngine → Transaction → ℕ → List ℕ → StorageEngine × Transaction
put e txn key value =
    let v : VersionRecord = record {
      commit_ts = stamp txn;
      txn_id = txn.txn_id;
      is_deleted = false;
      value = value;
    } in
    record_write (record e { index = add_version key v e.index }) txn key none (some value)

unfoldable pub delete : StorageEngine → Transaction → ℕ → StorageEngine × Transaction
delete e txn key =
    let v : VersionRecord = record {
      commit_ts = stamp txn;
      txn_id = txn.txn_id;
      is_deleted = true;
      value = [];
    } in
    record_write (record e { index = add_version key v e.index }) txn key none none

-- The value of the newest version that the transaction may see.
unfoldable pub visible : Transaction → List VersionRecord → Option (List ℕ)
visible txn [] = none
visible txn (v ∷ vs) =
    let older = visible txn vs in
    if (v.txn_id == txn.txn_id) || leb v.commit_ts txn.read_ts
    then if v.is_deleted then none else some v.value
    else older

unfoldable pub get : StorageEngine → Transaction → ℕ → Option (List ℕ)
get e txn key = visible txn (chain key e.index)

unfoldable pub scan_loop : Transaction → ℕ → List (ℕ × List VersionRecord) → List (ℕ × List ℕ)
scan_loop txn end_key [] = []
scan_loop txn end_key (entry ∷ index) =
    let rest = scan_loop txn end_key index in
    if leb (rank entry.0) (rank end_key)
    then elim (visible txn entry.1) [ none ↦ rest | some value ↦ (entry.0, value) ∷ rest ]
    else []

unfoldable pub lower_bound : ℕ → List (ℕ × List VersionRecord) → List (ℕ × List VersionRecord)
lower_bound key [] = []
lower_bound key (entry ∷ index) =
    let rest = lower_bound key index in
    if leb (rank key) (rank entry.0) then entry ∷ index else rest

unfoldable pub scan : StorageEngine → Transaction → ℕ → ℕ → List (ℕ × List ℕ)
scan e txn start_key end_key = scan_loop txn end_key (lower_bound start_key e.index)

-- A program over the engine: the transactions in the order of their begin, each named by its place.
pub data Call : Type 0 where
  call_begin : Call
  call_put : ℕ → ℕ → List ℕ → Call
  call_delete : ℕ → ℕ → Call
  call_commit : ℕ → Call
  call_abort : ℕ → Call

pub record System : Type 0 where
  pub engine : StorageEngine
  pub txns : List Transaction

-- Applies an operation to the transaction at the place, where there is one.
unfoldable pub on_txn :
    ℕ
    → (StorageEngine → Transaction → StorageEngine × Transaction)
    → StorageEngine
    → List Transaction
    → StorageEngine × List Transaction
on_txn i f e [] = (e, [])
on_txn zero f e (txn ∷ txns) = let (e', txn') = f e txn in (e', txn' ∷ txns)
on_txn (suc i) f e (txn ∷ txns) = let (e', txns') = on_txn i f e txns in (e', txn ∷ txns')

unfoldable pub at_txn :
    ℕ → (StorageEngine → Transaction → StorageEngine × Transaction) → System → System
at_txn i f s = let (e, txns) = on_txn i f s.engine s.txns in record { engine = e; txns = txns }

unfoldable pub call : Call → System → System
call Call.call_begin s =
    let (e, txn) = begin_transaction s.engine in record { engine = e; txns = s.txns ++ txn ∷ [] }
call (Call.call_put i key value) s =
    at_txn i (λ (e : StorageEngine) (txn : Transaction). put e txn key value) s
call (Call.call_delete i key) s =
    at_txn i (λ (e : StorageEngine) (txn : Transaction). delete e txn key) s
call (Call.call_commit i) s =
    at_txn i (λ (e : StorageEngine) (txn : Transaction). (commit e txn).0) s
call (Call.call_abort i) s = at_txn i abort s

unfoldable pub run : List Call → System → System
run [] s = s
run (c ∷ calls) s = run calls (call c s)
