-- ===== src/Raft/Node/Log.antt =====
-- What the handlers do to the log.
use odyssey_tasks.Prelude.{
  ℕ, suc, ◌+◌, ◌%◌, ◌^◌, ◌≤◌, ◌<◌, ◌≡◌, ◌≢◌, ◌↔◌, ◌⊎◌, refl, true, List, [], ◌∷◌, Option, none,
  ◌++◌, length, arith,
}
use odyssey_tasks.Raft.Types.{LogEntry, normal, AppendEntriesArgs}
use odyssey_tasks.Raft.Storage.{Storage, get_last_index, get_term, append, truncate}
use odyssey_tasks.Raft.Storage.Shape.{
  Contiguous, IsLog, IsWellFormed, up_to, term_at, get_term-term_at, last_index-length,
  truncate-up_to, replace-IsLog, append-IsLog,
}
use odyssey_tasks.Raft.Node.{
  RaftNode, Call, tick, request_vote, append_entries, install_snapshot, proposal, steps_down,
  step_down, current_term, handle_append_entries, handle_tick, handle_request_vote,
  handle_install_snapshot, propose, step, store_entries,
}

-- An `AppendEntries` that a correct leader may send: the entries follow the one before them, which
-- is not older than the receiver's snapshot unless its term shows that it is a real entry.
pub record IsValidAppend (n : RaftNode) (args : AppendEntriesArgs) : Type 0 where
  pub follow : Contiguous (suc args.prev_log_index) args.entries
  pub fits : args.prev_log_index + 1 < 2 ^ 64
  pub recent : (n.storage.snapshot_index ≤ args.prev_log_index) ⊎ (args.prev_log_term ≢ 0)

-- The log after entries behind index `i` are replaced, where there are any.
abbrev pub replaced : ℕ → List LogEntry → List LogEntry → List LogEntry
replaced i log [] = log
replaced i log (e ∷ es) = up_to i log ++ (e ∷ es)

pub old_term : (s : Storage) (i : ℕ) → i < s.snapshot_index → get_term s i ≡ 0
unfolding get_term
old_term s i h = ground arith

-- The storage with another term and vote.
abbrev pub hard_state : Storage → ℕ → Option ℕ → Storage
hard_state s t v = record s { current_term = t; voted_for = v }

-- The term and the vote do not touch the log.
pub hard_state_index :
    (s : Storage) (t : ℕ) (v : Option ℕ) → get_last_index (hard_state s t v) ≡ get_last_index s
unfolding get_last_index
hard_state_index s t v = refl

pub hard_state_term :
    (s : Storage) (t : ℕ) (v : Option ℕ) (i : ℕ) → get_term (hard_state s t v) i ≡ get_term s i
unfolding get_term
hard_state_term s t v i = refl

-- A node with a well-formed log takes entries exactly when their term is not old, the index before
-- them is not behind the log, and the log's term at that index (0 where it has no such entry) is
-- the stated one.
pub append_entries_success :
    (n : RaftNode) (args : AppendEntriesArgs)
    → IsWellFormed n.storage
    → ((handle_append_entries n args).1.success ≡ true) ↔ (
        (current_term n ≤ args.term)
        × (args.prev_log_index ≤ get_last_index n.storage)
        × (term_at args.prev_log_index n.storage.log ≡ args.prev_log_term))
unfolding handle_append_entries
append_entries_success n args w =
    let found = get_term-term_at n.storage args.prev_log_index w in
    let index = hard_state_index n.storage args.term none in
    let term = hard_state_term n.storage args.term none args.prev_log_index in
    (λ h. ground (arith, found, index, term), λ h. ground (arith, found, index, term))

pub store_entries-log :
    (s : Storage) (args : AppendEntriesArgs) (es : List LogEntry)
    → IsWellFormed s
    → args.entries ≡ es
    → s.snapshot_index ≤ args.prev_log_index
    → args.prev_log_index + 1 < 2 ^ 64
    → (store_entries s args).log ≡ replaced args.prev_log_index s.log es
unfolding store_entries append
store_entries-log s args [] w e h f = rw e
store_entries-log s args (x ∷ es) w e h f =
    let small : (args.prev_log_index + 1) % 2 ^ 64 ≡ args.prev_log_index + 1 = omega arith in
    rw (e, small, truncate-up_to s w args.prev_log_index h)

-- A node with a well-formed log that takes a valid `AppendEntries` cuts its log behind the entry
-- before the new ones and adds them there; without new entries the log stays.
pub append_entries-log :
    (n : RaftNode) (args : AppendEntriesArgs)
    → IsWellFormed n.storage
    → IsValidAppend n args
    → (handle_append_entries n args).1.success ≡ true
    → (handle_append_entries n args).0.storage.log
      ≡ replaced args.prev_log_index n.storage.log args.entries
unfolding handle_append_entries
append_entries-log n args w v h =
    let s = n.storage in
    ground (
      arith,
      old_term s args.prev_log_index,
      hard_state_term s args.term none args.prev_log_index,
      store_entries-log s args args.entries w refl,
      store_entries-log (hard_state s args.term none) args args.entries w refl,
    )

pub store_entries-snapshot :
    (s : Storage) (args : AppendEntriesArgs) (es : List LogEntry)
    → args.entries ≡ es
    → ((store_entries s args).snapshot_index ≡ s.snapshot_index)
      × ((store_entries s args).snapshot_term ≡ s.snapshot_term)
unfolding store_entries append truncate
store_entries-snapshot s args [] e = (rw e, rw e)
store_entries-snapshot s args (x ∷ es) e = (rw e (ground arith), rw e (ground arith))

replaced-IsLog :
    (i n t : ℕ) (log es : List LogEntry)
    → IsLog n t log
    → n ≤ i
    → i < n + length log
    → Contiguous (suc i) es
    → IsLog n t (replaced i log es)
replaced-IsLog i n t log [] w l h c = w
replaced-IsLog i n t log (x ∷ es) w l h c = replace-IsLog i n t log (x ∷ es) w l h c

pub store_entries-IsWellFormed :
    (s : Storage) (args : AppendEntriesArgs)
    → IsWellFormed s
    → s.snapshot_index ≤ args.prev_log_index
    → args.prev_log_index ≤ get_last_index s
    → args.prev_log_index + 1 < 2 ^ 64
    → Contiguous (suc args.prev_log_index) args.entries
    → IsWellFormed (store_entries s args)
store_entries-IsWellFormed s args w h l f c =
    let (index, term) = store_entries-snapshot s args args.entries refl in
    rw (index, term, store_entries-log s args args.entries w refl h f)
      (replaced-IsLog args.prev_log_index _ _ s.log args.entries w h
        (omega (arith, last_index-length s w)) c)

-- Each way through the handler, for a property of the storage that it leaves.
append_entries_cases {ℓ} :
    (P : Storage → Type ℓ) (n : RaftNode) (args : AppendEntriesArgs)
    → ((t : ℕ) (v : Option ℕ) → P (hard_state n.storage t v))
    → ((t : ℕ) (v : Option ℕ)
        → args.prev_log_index ≤ get_last_index n.storage
        → get_term n.storage args.prev_log_index ≡ args.prev_log_term
        → P (store_entries (hard_state n.storage t v) args))
    → P (handle_append_entries n args).0.storage
unfolding handle_append_entries
append_entries_cases P n args kept stored =
    let s = n.storage in
    ground (
      arith,
      hard_state_index s args.term none,
      hard_state_term s args.term none args.prev_log_index,
      kept s.current_term s.voted_for,
      kept args.term none,
      stored s.current_term s.voted_for,
      stored args.term none,
    )

append_entries-IsWellFormed :
    (n : RaftNode) (args : AppendEntriesArgs)
    → IsWellFormed n.storage
    → IsValidAppend n args
    → IsWellFormed (handle_append_entries n args).0.storage
append_entries-IsWellFormed n args w v =
    append_entries_cases IsWellFormed n args (λ t u. w)
      λ t u last term.
        store_entries-IsWellFormed (hard_state n.storage t u) args w (from_snapshot v.recent term)
          (rw hard_state_index last) v.fits v.follow
  where
    from_snapshot :
        (n.storage.snapshot_index ≤ args.prev_log_index) ⊎ (args.prev_log_term ≢ 0)
        → get_term n.storage args.prev_log_index ≡ args.prev_log_term
        → n.storage.snapshot_index ≤ args.prev_log_index
    from_snapshot recent term = ground (arith, old_term n.storage args.prev_log_index)

-- What a call may bring: a valid `AppendEntries`, and room for one more index.
abbrev pub IsValidCall : RaftNode → Call → Type 0
IsValidCall n (append_entries args) = IsValidAppend n args
IsValidCall n (proposal payload) = get_last_index n.storage + 1 < 2 ^ 64
IsValidCall n tick = Unit
IsValidCall n (request_vote args) = Unit
IsValidCall n (install_snapshot args) = Unit
IsValidCall n (steps_down new_term) = Unit

propose-IsWellFormed :
    (n : RaftNode) (payload : List ℕ)
    → IsWellFormed n.storage
    → get_last_index n.storage + 1 < 2 ^ 64
    → IsWellFormed (propose n payload).0.storage
unfolding propose append
propose-IsWellFormed n payload w f = ground (
  arith,
  last_index-length n.storage w,
  append-IsLog n.storage.snapshot_index n.storage.snapshot_term n.storage.log
      (record {
        term = current_term n;
        index = get_last_index n.storage + 1;
        type = normal;
        payload = payload;
      }
        ∷ [])
      w,
)

-- A call of any of a node's public methods leaves a well-formed log well-formed: the dummy entry
-- with the snapshot's index and term, and behind it entries with contiguous indices. What an
-- `AppendEntries` carries must follow on its previous index, that index must be below 2 ^ 64 - 1,
-- and it must not lie before the node's snapshot unless the stated term there is not 0. A proposal
-- must have room for one more index below 2 ^ 64. The other calls bring anything.
pub step-IsWellFormed :
    (n : RaftNode) (c : Call)
    → IsWellFormed n.storage
    → IsValidCall n c
    → IsWellFormed (step n c).storage
unfolding step handle_tick handle_request_vote handle_install_snapshot step_down
step-IsWellFormed n tick w v = ground arith
step-IsWellFormed n (request_vote args) w v = ground arith
step-IsWellFormed n (append_entries args) w v = append_entries-IsWellFormed n args w v
step-IsWellFormed n (install_snapshot args) w v = ground arith
step-IsWellFormed n (proposal payload) w v = propose-IsWellFormed n payload w v
step-IsWellFormed n (steps_down new_term) w v = ground arith
