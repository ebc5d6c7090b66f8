-- ===== src/Raft/Node/Commit.antt =====
-- The commit index and the end of the log.
use odyssey_tasks.Prelude.{
  ℕ, suc, ◌+◌, ◌^◌, ◌≤◌, ◌<◌, ◌≡◌, ◌≢◌, ◌⊎◌, refl, none, true, List, [], ◌∷◌, length, length-append,
  arith, ap, min, ltb, if◌then◌else◌,
}
use odyssey_tasks.Raft.Types.{LogEntry, AppendEntriesArgs}
use odyssey_tasks.Raft.Storage.{Storage, get_last_index}
use odyssey_tasks.Raft.Storage.Shape.{
  Contiguous, IsLog, IsWellFormed, up_to, last_index-length, length-up_to,
}
use odyssey_tasks.Raft.Node.{RaftNode, handle_append_entries, store_entries}
use odyssey_tasks.Raft.Node.Log.{
  IsValidAppend, replaced, store_entries-log, store_entries-snapshot, store_entries-IsWellFormed,
  old_term, hard_state, hard_state_index, hard_state_term,
}

-- The last index once entries stand behind index `i`, where it was `last`.
abbrev last_after : ℕ → ℕ → List LogEntry → ℕ
last_after i last [] = last
last_after i last (e ∷ es) = i + length (e ∷ es)

length-replaced :
    (i n t : ℕ) (log es : List LogEntry) (last : ℕ)
    → IsLog n t log
    → n ≤ i
    → i ≤ last
    → last + 1 ≡ n + length log
    → n + length (replaced i log es) ≡ last_after i last es + 1
length-replaced i n t [] es last w l h e = absurd w
length-replaced i n t (x ∷ log) [] last w l h e = omega arith
length-replaced i n t (x ∷ log) (y ∷ es) last w l h e = omega (
  arith,
  length-append (up_to i (x ∷ log)) (y ∷ es),
  length-up_to i n (x ∷ log) (w.0, w.2) (omega arith) (omega arith),
)

store_entries-last_index :
    (s : Storage) (args : AppendEntriesArgs)
    → IsWellFormed s
    → s.snapshot_index ≤ args.prev_log_index
    → args.prev_log_index ≤ get_last_index s
    → args.prev_log_index + 1 < 2 ^ 64
    → Contiguous (suc args.prev_log_index) args.entries
    → get_last_index (store_entries s args)
      ≡ last_after args.prev_log_index (get_last_index s) args.entries
store_entries-last_index s args w h l f c = omega (
  arith,
  ap length (store_entries-log s args args.entries w refl h f),
  store_entries-snapshot s args args.entries refl,
  last_index-length (store_entries s args) (store_entries-IsWellFormed s args w h l f c),
  length-replaced args.prev_log_index s.snapshot_index s.snapshot_term s.log args.entries
      (get_last_index s) w h l (last_index-length s w),
)

-- Each way through a successful call, for what it leaves as last index and commit index.
append_entries-ends :
    (n : RaftNode) (args : AppendEntriesArgs)
    → IsWellFormed n.storage
    → IsValidAppend n args
    → (handle_append_entries n args).1.success ≡ true
    → (get_last_index (handle_append_entries n args).0.storage
        ≡ last_after args.prev_log_index (get_last_index n.storage) args.entries)
      × ((handle_append_entries n args).0.commit_index ≡ (
          if ltb n.commit_index args.leader_commit
          then min args.leader_commit
              (last_after args.prev_log_index (get_last_index n.storage) args.entries)
          else n.commit_index))
unfolding handle_append_entries
append_entries-ends n args w v h =
    let s = n.storage in
    let s' : Storage = hard_state s args.term none in
    let last = store_entries-last_index s args w in
    let last' = store_entries-last_index s' args w in
    let index = hard_state_index s args.term none in
    let term = hard_state_term s args.term none args.prev_log_index in
    let old = old_term s args.prev_log_index in
    (
      ground (arith, old, index, term, last, last', v.follow),
      ground (arith, old, index, term, last, last', v.follow),
    )

-- On a well-formed log with the commit index within it, a valid call that succeeds and brings
-- nothing, or reaches the committed end of the log, does not lower the commit index and keeps it
-- within the log.
pub append_entries-commit :
    (n : RaftNode) (args : AppendEntriesArgs)
    → IsWellFormed n.storage
    → IsValidAppend n args
    → (handle_append_entries n args).1.success ≡ true
    → n.commit_index ≤ get_last_index n.storage
    → (args.entries ≡ []) ⊎ (n.commit_index ≤ args.prev_log_index + length args.entries)
    → (n.commit_index ≤ (handle_append_entries n args).0.commit_index)
      × ((handle_append_entries n args).0.commit_index
          ≤ get_last_index (handle_append_entries n args).0.storage)
append_entries-commit n args w v h c r = ground (arith, append_entries-ends n args w v h)

-- On a well-formed log, a valid call that succeeds with entries ending below the commit index,
-- such as a delayed one, and with no higher commit index of the leader, cuts committed entries
-- off: the log then ends below the commit index.
pub append_entries_uncommits :
    (n : RaftNode) (args : AppendEntriesArgs)
    → IsWellFormed n.storage
    → IsValidAppend n args
    → (handle_append_entries n args).1.success ≡ true
    → args.entries ≢ []
    → args.prev_log_index + length args.entries < n.commit_index
    → args.leader_commit ≤ n.commit_index
    → get_last_index (handle_append_entries n args).0.storage
      < (handle_append_entries n args).0.commit_index
append_entries_uncommits n args w v h e short c = ground (arith, append_entries-ends n args w v h)
