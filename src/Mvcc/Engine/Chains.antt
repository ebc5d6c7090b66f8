-- ===== src/Mvcc/Engine/Chains.antt =====
-- The chains of versions under the map operations, and what of them a transaction may see.
use odyssey_tasks.Prelude.{
  ℕ, ◌<◌, ◌≤◌, ◌≡◌, refl, true, false, Option, none, some, List, [], ◌∷◌, All, ◌==◌, if◌then◌else◌,
  arith,
}
use odyssey_tasks.Mvcc.Engine.{
  VersionRecord, Transaction, chain, count, replace, insert_new, add_version, visible,
}

abbrev pub Index : Type 0
Index = List (ℕ × List VersionRecord)

pub chain-replace :
    (k key : ℕ) (vs : List VersionRecord) (index : Index)
    → count key index ≡ true
    → chain k (replace key vs index) ≡ (if k == key then vs else chain k index)
unfolding chain replace count
chain-replace k key vs [] h = ground arith
chain-replace k key vs (entry ∷ index) h = ground (arith, chain-replace k key vs index)

pub chain-insert_new :
    (k key : ℕ) (vs : List VersionRecord) (index : Index)
    → count key index ≡ false
    → chain k (insert_new key vs index) ≡ (if k == key then vs else chain k index)
unfolding chain insert_new count
chain-insert_new k key vs [] h = ground arith
chain-insert_new k key vs (entry ∷ index) h = ground (arith, chain-insert_new k key vs index)

pub chain-count : (key : ℕ) (index : Index) → count key index ≡ false → chain key index ≡ []
unfolding chain count
chain-count key [] h = refl
chain-count key (entry ∷ index) h = ground (arith, chain-count key index)

pub chain-add_version :
    (k key : ℕ) (v : VersionRecord) (index : Index)
    → chain k (add_version key v index) ≡ (if k == key then v ∷ chain key index else chain k index)
unfolding add_version
chain-add_version k key v index = ground (
  arith,
  chain-replace k key (v ∷ chain key index) index,
  chain-insert_new k key (v ∷ []) index,
  chain-count key index,
)

-- The newest version that a transaction wrote itself.
unfoldable pub own_write : ℕ → List VersionRecord → Option (List ℕ)
own_write id [] = none
own_write id (v ∷ vs) =
    let older = own_write id vs in
    if v.txn_id == id then if v.is_deleted then none else some v.value else older

-- The versions come from the first transactions and are of later time than the start.
unfoldable pub IsFuture : ℕ → VersionRecord → Type 0
IsFuture n v = (2 ≤ v.commit_ts) × (v.txn_id ≤ n)

pub visible-own_write :
    (txn : Transaction) (n : ℕ) (vs : List VersionRecord)
    → txn.read_ts ≡ 1
    → All (IsFuture n) vs
    → visible txn vs ≡ own_write txn.txn_id vs
unfolding visible own_write IsFuture
visible-own_write txn n [] at h = refl
visible-own_write txn n (v ∷ vs) at h = ground (arith, visible-own_write txn n vs)

pub own_write-later :
    (n id : ℕ) (vs : List VersionRecord) → All (IsFuture n) vs → n < id → own_write id vs ≡ none
unfolding own_write IsFuture
own_write-later n id [] h less = refl
own_write-later n id (v ∷ vs) h less = ground (arith, own_write-later n id vs)
