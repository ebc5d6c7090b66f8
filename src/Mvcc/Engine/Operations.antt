-- ===== src/Mvcc/Engine/Operations.antt =====
-- What one operation of a transaction does to its own view and to those of the others.
use odyssey_tasks.Prelude.{
  ℕ, ◌≤◌, ◌≡◌, ◌≢◌, refl, ap, ◌∙◌, Bool, true, false, Option, none, some, List, [], ◌∷◌, All, ◌==◌,
  if◌then◌else◌, arith,
}
use odyssey_tasks.Prelude.Dict.{insert, lookup, lookup-insert}
use odyssey_tasks.Mvcc.Engine.{
  TxnState, VersionRecord, Transaction, StorageEngine, chain, add_version, log, log_end, commit,
  abort, record_write, stamp, put, delete,
}
use odyssey_tasks.Mvcc.Engine.Chains.{Index, chain-add_version, own_write, IsFuture}

-- The last write of a transaction, as its write set has it; none where it deleted.
abbrev pub written : Option (Option (List ℕ)) → Option (List ℕ)
written none = none
written (some value) = value

unfoldable pub AllFuture : ℕ → Index → Type 0
AllFuture n index = (key : ℕ) → All (IsFuture n) (chain key index)

pub record IsTxn (id : ℕ) (index : Index) (txn : Transaction) : Type 0 where
  pub txn_id : txn.txn_id ≡ id
  pub read_ts : txn.read_ts ≡ 1
  pub commit_ts : txn.commit_ts ≢ 1
  pub writes : (key : ℕ) → own_write id (chain key index) ≡ written (lookup key txn.write_set)

-- The operation of a transaction `id` leaves the engine `e'` and the transaction `txn'`.
pub record IsAct (n id : ℕ) (e e' : StorageEngine) (txn' : Transaction) : Type 0 where
  pub txn : IsTxn id e'.index txn'
  pub others :
      (j key : ℕ) → j ≢ id → own_write j (chain key e'.index) ≡ own_write j (chain key e.index)
  pub future : AllFuture n e'.index
  pub global_ts : e'.global_ts ≡ e.global_ts
  pub next_txn_id : e'.next_txn_id ≡ e.next_txn_id

abbrev pub Op : Type 0
Op = StorageEngine → Transaction → StorageEngine × Transaction

abbrev pub IsOp : Op → Type 0
IsOp f =
    (n id : ℕ) (e : StorageEngine) (txn : Transaction)
    → id ≤ n
    → IsTxn id e.index txn
    → AllFuture n e.index
    → IsAct n id e (f e txn).0 (f e txn).1

-- Neither the index nor what the transaction wrote changes.
pub same_index :
    (n id : ℕ) (e e' : StorageEngine) (txn txn' : Transaction)
    → IsTxn id e.index txn
    → AllFuture n e.index
    → e'.index ≡ e.index
    → e'.global_ts ≡ e.global_ts
    → e'.next_txn_id ≡ e.next_txn_id
    → txn'.txn_id ≡ txn.txn_id
    → txn'.read_ts ≡ txn.read_ts
    → txn'.commit_ts ≢ 1
    → txn'.write_set ≡ txn.write_set
    → IsAct n id e e' txn'
unfolding AllFuture
same_index n id e e' txn txn' t future index global next tid rts cts writes = record {
  txn = record {
    txn_id = tid ∙ t.txn_id;
    read_ts = rts ∙ t.read_ts;
    commit_ts = cts;
    writes = λ (key : ℕ). rw (index, writes) (t.writes key);
  };
  others = λ (j key : ℕ) _. ap (λ (i : Index). own_write j (chain key i)) index;
  future = λ (key : ℕ). rw index (future key);
  global_ts = global;
  next_txn_id = next;
}

pub commit_at :
    (n id : ℕ) (e : StorageEngine) (txn : Transaction) (st : TxnState)
    → IsTxn id e.index txn
    → AllFuture n e.index
    → IsAct n id e
        (commit e (record txn { state = st })).0.0
        (commit e (record txn { state = st })).0.1
unfolding commit log_end log
commit_at n id e txn TxnState.active t future =
    same_index n id e (log_end e txn 5) txn _ t future refl refl refl refl refl
      (omega (arith, t.read_ts)) refl
commit_at n id e txn TxnState.committed t future =
    same_index n id e e txn _ t future refl refl refl refl refl t.commit_ts refl
commit_at n id e txn TxnState.aborted t future =
    same_index n id e e txn _ t future refl refl refl refl refl t.commit_ts refl

pub commit-IsOp : IsOp (λ (e : StorageEngine) (txn : Transaction). (commit e txn).0)
commit-IsOp n id e txn le t future = commit_at n id e txn txn.state t future

pub abort_at :
    (n id : ℕ) (e : StorageEngine) (txn : Transaction) (st : TxnState)
    → IsTxn id e.index txn
    → AllFuture n e.index
    → IsAct n id e (abort e (record txn { state = st })).0 (abort e (record txn { state = st })).1
unfolding abort log_end log
abort_at n id e txn TxnState.active t future =
    same_index n id e (log_end e txn 6) txn _ t future refl refl refl refl refl t.commit_ts refl
abort_at n id e txn TxnState.committed t future =
    same_index n id e e txn _ t future refl refl refl refl refl t.commit_ts refl
abort_at n id e txn TxnState.aborted t future =
    same_index n id e e txn _ t future refl refl refl refl refl t.commit_ts refl

pub abort-IsOp : IsOp abort
abort-IsOp n id e txn le t future = abort_at n id e txn txn.state t future

pub AllFuture_if :
    (n : ℕ) (b : Bool) (vs ws : List VersionRecord)
    → All (IsFuture n) vs
    → All (IsFuture n) ws
    → All (IsFuture n) (if b then vs else ws)
AllFuture_if n true vs ws p q = p
AllFuture_if n false vs ws p q = q

-- A version in front of the chain of a key, and the same in the write set.
pub write-IsAct :
    (n id key : ℕ) (e e' : StorageEngine) (txn txn' : Transaction) (v : VersionRecord)
    (after : Option (List ℕ))
    → id ≤ n
    → IsTxn id e.index txn
    → AllFuture n e.index
    → e'.index ≡ add_version key v e.index
    → v.txn_id ≡ txn.txn_id
    → v.commit_ts ≡ stamp txn
    → (if v.is_deleted then none else some v.value) ≡ after
    → e'.global_ts ≡ e.global_ts
    → e'.next_txn_id ≡ e.next_txn_id
    → txn'.txn_id ≡ txn.txn_id
    → txn'.read_ts ≡ txn.read_ts
    → txn'.commit_ts ≡ txn.commit_ts
    → txn'.write_set ≡ insert key after txn.write_set
    → IsAct n id e e' txn'
unfolding own_write AllFuture IsFuture stamp
write-IsAct n id key e e' txn txn' v after le t future index tid stamped value global next tid' rts
      cts writes =
    record {
      txn = record {
        txn_id = tid' ∙ t.txn_id;
        read_ts = rts ∙ t.read_ts;
        commit_ts = omega (arith, t.commit_ts);
        writes = λ (k : ℕ).
            rw (index, writes)
              (ground (
                arith,
                chain-add_version k key v e.index,
                lookup-insert k key after txn.write_set,
                t.writes k,
                t.txn_id,
              ));
      };
      others =
          λ (j k : ℕ) other. rw index (ground (arith, chain-add_version k key v e.index, t.txn_id));
      future = λ (k : ℕ).
          rw (index, chain-add_version k key v e.index)
            (AllFuture_if n (k == key) (v ∷ chain key e.index) (chain k e.index)
              (ground (arith, t.commit_ts, t.txn_id), future key) (future k));
      global_ts = global;
      next_txn_id = next;
    }

pub put-IsOp :
    (key : ℕ) (value : List ℕ)
    → IsOp (λ (e : StorageEngine) (txn : Transaction). put e txn key value)
unfolding put record_write log
put-IsOp key value n id e txn le t future =
    write-IsAct n id key e _ txn _
      (record { commit_ts = stamp txn; txn_id = txn.txn_id; is_deleted = false; value = value })
      (some value) le t future refl refl refl refl refl refl refl refl refl refl

pub delete-IsOp : (key : ℕ) → IsOp (λ (e : StorageEngine) (txn : Transaction). delete e txn key)
unfolding delete record_write log
delete-IsOp key n id e txn le t future =
    write-IsAct n id key e _ txn _
      (record { commit_ts = stamp txn; txn_id = txn.txn_id; is_deleted = true; value = [] }) none le
      t future refl refl refl refl refl refl refl refl refl refl
