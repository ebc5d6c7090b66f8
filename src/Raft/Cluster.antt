-- ===== src/Raft/Cluster.antt =====
-- raft_cluster.hpp and raft_cluster.cpp, with the sends of raft_node.cpp: messages are calls of the
-- target's handler, made while the sender holds its own mutex; the replies are dropped.
-- `none` means that the thread waits for a `node_mutex_` that it holds itself. `cluster_mutex_` is
-- held for look-ups only. The order of `nodes` stands for the unspecified order of the hash map.
pub mod Links
pub mod Progress
use odyssey_tasks.Prelude.{
  ℕ, Bool, true, false, ◌&&◌, ◌||◌, not, Option, none, some, List, [], ◌∷◌, ◌++◌, map, ◌==◌,
  if◌then◌else◌, ◌>>=◌,
}
use odyssey_tasks.Prelude.Dict.{lookup, insert}
use odyssey_tasks.Raft.Types.{RequestVoteArgs, AppendEntriesArgs, InstallSnapshotArgs}
use odyssey_tasks.Raft.Node.{
  RaftNode, Outgoing, silent, vote_requests, heartbeats, handle_request_vote, handle_append_entries,
  handle_install_snapshot, handle_tick, propose,
}

pub record Cluster : Type 0 where
  pub nodes : List (ℕ × RaftNode)
  pub blocked_links : List (ℕ × ℕ)

-- Membership in a `std::set` of ids.
abbrev pub contains : List ℕ → ℕ → Bool
contains [] a = false
contains (x ∷ xs) a = x == a || contains xs a

unfoldable pub add_node : Cluster → RaftNode → Cluster
add_node c n = record c { nodes = insert n.id n c.nodes }

-- The inner loop: both directions between `a` and each member of the other group.
block_all : ℕ → List ℕ → List (ℕ × ℕ) → List (ℕ × ℕ)
block_all a [] links = links
block_all a (b ∷ bs) links = block_all a bs ((b, a) ∷ (a, b) ∷ links)

block_groups : List ℕ → List ℕ → List (ℕ × ℕ) → List (ℕ × ℕ)
unfolding block_all
block_groups [] bs links = links
block_groups (a ∷ as') bs links = block_groups as' bs (block_all a bs links)

unfoldable pub set_partition : Cluster → List ℕ → List ℕ → Cluster
unfolding block_groups
set_partition c group_a group_b = record c {
  blocked_links = block_groups group_a group_b c.blocked_links;
}

unfoldable pub clear_partitions : Cluster → Cluster
clear_partitions c = record c { blocked_links = [] }

has_link : List (ℕ × ℕ) → ℕ → ℕ → Bool
has_link [] a b = false
has_link ((x, y) ∷ links) a b = (x == a && y == b) || has_link links a b

unfoldable pub can_communicate : Cluster → ℕ → ℕ → Bool
unfolding has_link
can_communicate c a b = not (has_link c.blocked_links a b)

-- A call of a handler through the target's mutex.
deliver : Cluster → ℕ → (RaftNode → RaftNode) → Option Cluster
deliver c to handler = elim (lookup to c.nodes) [
  | none ↦ some c
  | some n ↦ if n.locked then none else some (record c { nodes = insert to (handler n) c.nodes })
]

unfoldable pub send_request_vote : Cluster → ℕ → ℕ → RequestVoteArgs → Option Cluster
unfolding deliver
send_request_vote c from to args =
    if can_communicate c from to then deliver c to (λ n. (handle_request_vote n args).0) else some c

unfoldable pub send_append_entries : Cluster → ℕ → ℕ → AppendEntriesArgs → Option Cluster
unfolding deliver
send_append_entries c from to args =
    if can_communicate c from to
    then deliver c to (λ n. (handle_append_entries n args).0)
    else some c

unfoldable pub send_install_snapshot : Cluster → ℕ → ℕ → InstallSnapshotArgs → Option Cluster
unfolding deliver
send_install_snapshot c from to args =
    if can_communicate c from to
    then deliver c to (λ n. (handle_install_snapshot n args).0)
    else some c

send : Cluster → ℕ → ℕ → Outgoing → Option Cluster
send c from to silent = some c
send c from to (vote_requests args) = send_request_vote c from to args
send c from to (heartbeats args) = send_append_entries c from to args

-- `for (node_id_t peer : peers_) if (cluster_) cluster_->Send…(id_, peer, args);`
broadcast : Cluster → ℕ → Outgoing → List ℕ → Option Cluster
unfolding send
broadcast c from out [] = some c
broadcast c from out (peer ∷ peers) = do c' ← send c from peer out; broadcast c' from out peers

-- The end of the sender's `lock_guard`.
unlock : Cluster → ℕ → Cluster
unlock c id = elim (lookup id c.nodes) [
  | none ↦ c
  | some n ↦ record c { nodes = insert id (record n { locked = false }) c.nodes }
]

-- The node's new state, its broadcast under the held mutex, and the release.
send_locked : Cluster → ℕ → RaftNode → Outgoing → Option Cluster
unfolding broadcast unlock
send_locked c id n out = do
  let held : Cluster = record c { nodes = insert id (record n { locked = true }) c.nodes }
  c' ← broadcast held n.id out (if n.attached then n.peers else [])
  some (unlock c' id)

unfoldable pub tick_node : Cluster → ℕ → Option Cluster
unfolding send_locked
tick_node c id = elim (lookup id c.nodes) [
  | none ↦ some c
  | some n ↦ if n.locked then none else send_locked c id (handle_tick n).0 (handle_tick n).1
]

unfoldable pub propose_node : Cluster → ℕ → List ℕ → Option Cluster
unfolding send_locked
propose_node c id payload = elim (lookup id c.nodes) [
  | none ↦ some c
  | some n ↦ if n.locked then none else send_locked c id (propose n payload).0 (propose n payload).2
]

tick_list : Cluster → List (ℕ × RaftNode) → Option Cluster
tick_list c [] = some c
tick_list c ((id, n) ∷ ns) = do c' ← tick_node c id; tick_list c' ns

-- The nodes to tick are those of the start: the list is copied before the first tick.
unfoldable pub tick_all : Cluster → Option Cluster
unfolding tick_list
tick_all c = tick_list c c.nodes
