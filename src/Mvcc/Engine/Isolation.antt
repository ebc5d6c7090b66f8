-- ===== src/Mvcc/Engine/Isolation.antt =====
-- What a transaction sees over a history: its own writes, and no other's.
use odyssey_tasks.Prelude.{
  ℕ, zero, suc, ◌+◌, ◌^◌, ◌<◌, ◌≤◌, ◌≡◌, ◌≢◌, ◌⊎◌, inl, inr, refl, ap, ◌∙◌, List, [], ◌∷◌, ◌++◌,
  length, length-append, All, arith,
}
use odyssey_tasks.Prelude.Dict.{lookup}
use odyssey_tasks.Mvcc.Engine.{
  VersionRecord, Transaction, StorageEngine, System, Call, new, chain, log, begin_transaction, get,
  on_txn, at_txn, call, run,
}
use odyssey_tasks.Mvcc.Engine.Chains.{
  Index, own_write, IsFuture, visible-own_write, own_write-later,
}
use odyssey_tasks.Mvcc.Engine.Operations.{
  written, AllFuture, IsTxn, Op, IsOp, commit-IsOp, abort-IsOp, put-IsOp, delete-IsOp,
}

-- The transactions have the numbers after `b`.
AllTxns : ℕ → Index → List Transaction → Type 0
AllTxns b index [] = Unit {0}
AllTxns b index (t ∷ ts) = IsTxn (suc b) index t × AllTxns (suc b) index ts

AllTxns-others :
    (b id : ℕ) (index index' : Index) (ts : List Transaction)
    → id ≤ b
    → ((j key : ℕ) → j ≢ id → own_write j (chain key index') ≡ own_write j (chain key index))
    → AllTxns b index ts
    → AllTxns b index' ts
unfolding AllTxns
AllTxns-others b id index index' [] le others ok = ok
AllTxns-others b id index index' (t ∷ ts) le others ok = (
  record {
    txn_id = ok.0.txn_id;
    read_ts = ok.0.read_ts;
    commit_ts = ok.0.commit_ts;
    writes = λ (key : ℕ). others (suc b) key (omega arith) ∙ ok.0.writes key;
  },
  AllTxns-others (suc b) id index index' ts (omega arith) others ok.1,
)

record IsStep (n b : ℕ) (e e' : StorageEngine) (ts ts' : List Transaction) : Type 0 where
  txns : AllTxns b e'.index ts'
  others : (j key : ℕ) → j ≤ b → own_write j (chain key e'.index) ≡ own_write j (chain key e.index)
  future : AllFuture n e'.index
  global_ts : e'.global_ts ≡ e.global_ts
  next_txn_id : e'.next_txn_id ≡ e.next_txn_id
  length : length ts' ≡ length ts

on_txn-IsStep :
    (f : Op) (i n b : ℕ) (e : StorageEngine) (ts : List Transaction)
    → IsOp f
    → b + length ts ≤ n
    → AllTxns b e.index ts
    → AllFuture n e.index
    → IsStep n b e (on_txn i f e ts).0 ts (on_txn i f e ts).1
unfolding on_txn AllTxns
on_txn-IsStep f i n b e [] op le ok future = record {
  txns = ok;
  others = λ (j key : ℕ) _. refl;
  future = future;
  global_ts = refl;
  next_txn_id = refl;
  length = refl;
}
on_txn-IsStep f zero n b e (t ∷ ts) op le ok future =
    let act = op n (suc b) e t (omega arith) ok.0 future in
    record {
      txns = (
        act.txn,
        AllTxns-others (suc b) (suc b) e.index (f e t).0.index ts (omega arith) act.others ok.1,
      );
      others = λ (j key : ℕ) below. act.others j key (omega arith);
      future = act.future;
      global_ts = act.global_ts;
      next_txn_id = act.next_txn_id;
      length = refl;
    }
on_txn-IsStep f (suc i) n b e (t ∷ ts) op le ok future =
    let rec = on_txn-IsStep f i n (suc b) e ts op (omega arith) ok.1 future in
    record {
      txns = (
        record {
          txn_id = ok.0.txn_id;
          read_ts = ok.0.read_ts;
          commit_ts = ok.0.commit_ts;
          writes = λ (key : ℕ). rec.others (suc b) key (omega arith) ∙ ok.0.writes key;
        },
        rec.txns,
      );
      others = λ (j key : ℕ) below. rec.others j key (omega arith);
      future = rec.future;
      global_ts = rec.global_ts;
      next_txn_id = rec.next_txn_id;
      length = ap suc rec.length;
    }

-- Holds after `n` transactions began.
record IsIsolated (n : ℕ) (s : System) : Type 0 where
  size : length s.txns ≡ n
  txns : AllTxns 0 s.engine.index s.txns
  future : AllFuture n s.engine.index
  global_ts : s.engine.global_ts ≡ 1
  next_txn_id : s.engine.next_txn_id ≡ suc n

at_txn-IsIsolated :
    (f : Op) (i n : ℕ) (s : System) → IsOp f → IsIsolated n s → IsIsolated n (at_txn i f s)
unfolding at_txn
at_txn-IsIsolated f i n s op ok =
    let st = on_txn-IsStep f i n 0 s.engine s.txns op (omega (arith, ok.size)) ok.txns ok.future in
    record {
      size = st.length ∙ ok.size;
      txns = st.txns;
      future = st.future;
      global_ts = st.global_ts ∙ ok.global_ts;
      next_txn_id = st.next_txn_id ∙ ok.next_txn_id;
    }

AllFuture_later :
    (n : ℕ) (vs : List VersionRecord) → All (IsFuture n) vs → All (IsFuture (suc n)) vs
unfolding IsFuture
AllFuture_later n [] h = h
AllFuture_later n (v ∷ vs) h = ((h.0.0, omega (arith, h.0.1)), AllFuture_later n vs h.1)

AllTxns-append :
    (b id : ℕ) (index : Index) (ts : List Transaction) (t : Transaction)
    → AllTxns b index ts
    → id ≡ suc (b + length ts)
    → IsTxn id index t
    → AllTxns b index (ts ++ t ∷ [])
unfolding AllTxns
AllTxns-append b id index [] t ok p h = let q : suc b ≡ id = omega arith in (rw q h, ok)
AllTxns-append b id index (u ∷ ts) t ok p h =
    (ok.0, AllTxns-append (suc b) id index ts t ok.1 (omega arith) h)

begin-IsIsolated :
    (n : ℕ) (s : System)
    → suc (suc n) < 2 ^ 64
    → IsIsolated n s
    → IsIsolated (suc n) (call Call.call_begin s)
unfolding call begin_transaction log lookup AllFuture
begin-IsIsolated n s small ok = record {
  size = omega (arith, ok.size, length-append s.txns ((begin_transaction s.engine).1 ∷ []));
  txns = AllTxns-append 0 (suc n) s.engine.index s.txns _ ok.txns (omega (arith, ok.size)) (record {
    txn_id = ok.next_txn_id;
    read_ts = ok.global_ts;
    commit_ts = omega arith;
    writes = λ (key : ℕ).
        own_write-later n (suc n) (chain key s.engine.index) (ok.future key)
          (omega (arith, ok.size));
  });
  future = λ (key : ℕ). AllFuture_later n (chain key s.engine.index) (ok.future key);
  global_ts = ok.global_ts;
  next_txn_id = omega (arith, ok.next_txn_id);
}

call-IsIsolated :
    (c : Call) (n : ℕ) (s : System)
    → suc (suc n) < 2 ^ 64
    → IsIsolated n s
    → (IsIsolated n (call c s)) ⊎ (IsIsolated (suc n) (call c s))
unfolding call
call-IsIsolated Call.call_begin n s small ok = inr (begin-IsIsolated n s small ok)
call-IsIsolated (Call.call_put i key value) n s small ok =
    inl (at_txn-IsIsolated _ i n s (put-IsOp key value) ok)
call-IsIsolated (Call.call_delete i key) n s small ok =
    inl (at_txn-IsIsolated _ i n s (delete-IsOp key) ok)
call-IsIsolated (Call.call_commit i) n s small ok = inl (at_txn-IsIsolated _ i n s commit-IsOp ok)
call-IsIsolated (Call.call_abort i) n s small ok = inl (at_txn-IsIsolated _ i n s abort-IsOp ok)

run-IsIsolated :
    (calls : List Call) (n : ℕ) (s : System)
    → suc n + length calls < 2 ^ 64
    → IsIsolated n s
    → (m : ℕ) × IsIsolated m (run calls s)
unfolding run
run-IsIsolated [] n s small ok = (n, ok)
run-IsIsolated (c ∷ calls) n s small ok = elim (call-IsIsolated c n s (omega arith) ok) [
  | inl same ↦ run-IsIsolated calls n (call c s) (omega arith) same
  | inr more ↦ run-IsIsolated calls (suc n) (call c s) (omega arith) more
]

pub start : System
start = record { engine = new; txns = [] }

-- What each transaction of a list gets at a key is what it wrote there last.
pub AllOwn : StorageEngine → ℕ → List Transaction → Type 0
AllOwn e key ts = All (λ (t : Transaction). get e t key ≡ written (lookup key t.write_set)) ts

AllTxns-AllOwn :
    (n b : ℕ) (e : StorageEngine) (key : ℕ) (ts : List Transaction)
    → AllFuture n e.index
    → AllTxns b e.index ts
    → AllOwn e key ts
unfolding AllTxns AllOwn AllFuture get
AllTxns-AllOwn n b e key [] future ok = ok
AllTxns-AllOwn n b e key (t ∷ ts) future ok = (
  visible-own_write t n (chain key e.index) ok.0.read_ts (future key)
      ∙ ap (λ (id : ℕ). own_write id (chain key e.index)) ok.0.txn_id
      ∙ ok.0.writes key,
  AllTxns-AllOwn n (suc b) e key ts future ok.1,
)

-- After any calls from a new engine, of which there are few enough for the transaction numbers,
-- every transaction, active or ended, gets at every key exactly what it wrote there last itself,
-- and none where it deleted the key last or did not write it: also of what others committed before
-- it began it sees nothing.
pub run-get :
    (calls : List Call) (key : ℕ)
    → suc (length calls) < 2 ^ 64
    → AllOwn (run calls start).engine key (run calls start).txns
unfolding start new AllFuture AllTxns chain
run-get calls key small =
    let (m, ok) = run-IsIsolated calls 0 start (omega arith) (record {
      size = refl;
      txns = _;
      future = λ (k : ℕ). _;
      global_ts = refl;
      next_txn_id = refl;
    }) in
    AllTxns-AllOwn m 0 (run calls start).engine key (run calls start).txns ok.future ok.txns
