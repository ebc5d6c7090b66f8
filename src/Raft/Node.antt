-- ===== src/Raft/Node.antt =====
-- raft_node.hpp and raft_node.cpp: one node and its message handlers.
-- A handler holds `node_mutex_` from start to end and sends nothing, so it is a function on the node.
-- The sends of a tick and of a proposal are values of `Outgoing`; Raft/Cluster delivers them.
pub mod Log
pub mod Commit
pub mod Terms
pub mod Votes
pub mod Leadership
use odyssey_tasks.Prelude.{
  ℕ, ◌+◌, ◌%◌, ◌^◌, Bool, true, false, ◌&&◌, ◌||◌, not, Option, none, some, List, [], ◌∷◌, ltb, leb,
  ◌==◌, if◌then◌else◌, min, max,
}
use odyssey_tasks.Raft.Types.{
  Role, follower, candidate, leader, normal, LogEntry, RequestVoteArgs, RequestVoteReply,
  AppendEntriesArgs, AppendEntriesReply, InstallSnapshotArgs, InstallSnapshotReply,
}
use odyssey_tasks.Raft.Storage.{
  Storage, save_hard_state, get_last_index, get_last_term, get_term, truncate, append,
  apply_snapshot,
}

-- `locked` is `node_mutex_`, and `attached` says that `cluster_` is no null pointer.
pub record RaftNode : Type 0 where
  pub id : ℕ
  pub peers : List ℕ
  pub storage : Storage
  pub attached : Bool
  pub role : Role
  pub locked : Bool
  pub commit_index : ℕ
  pub last_applied : ℕ
  pub election_elapsed : ℕ
  pub heartbeat_elapsed : ℕ
  pub randomized_election_timeout : ℕ
  pub heartbeat_timeout : ℕ
  pub votes_granted : List ℕ
  pub next_index : List (ℕ × ℕ)
  pub match_index : List (ℕ × ℕ)

unfoldable pub new : ℕ → List ℕ → Storage → Bool → RaftNode
new id peers storage attached = record {
  id = id;
  peers = peers;
  storage = storage;
  attached = attached;
  role = follower;
  locked = false;
  commit_index = 0;
  last_applied = 0;
  election_elapsed = 0;
  heartbeat_elapsed = 0;
  randomized_election_timeout = 15;
  heartbeat_timeout = 5;
  votes_granted = [];
  next_index = [];
  match_index = [];
}

abbrev pub current_term : RaftNode → ℕ
current_term n = n.storage.current_term

unfoldable pub step_down : RaftNode → ℕ → RaftNode
unfolding save_hard_state
step_down n new_term = record n {
  storage = save_hard_state n.storage new_term none;
  role = follower;
  election_elapsed = 0;
}

abbrev is_candidate : Role → Bool
is_candidate candidate = true
is_candidate _ = false

abbrev pub is_leader : Role → Bool
is_leader leader = true
is_leader _ = false

-- `!voted_for.has_value() || *voted_for == candidate_id`
abbrev may_vote : Option ℕ → ℕ → Bool
may_vote none candidate_id = true
may_vote (some v) candidate_id = v == candidate_id

abbrev log_ok : Storage → RequestVoteArgs → Bool
log_ok s args =
    ltb (get_last_term s) args.last_log_term
    || (args.last_log_term == get_last_term s && leb (get_last_index s) args.last_log_index)

-- What follows the comparison of terms.
grant_vote : RaftNode → RequestVoteArgs → RaftNode × RequestVoteReply
unfolding save_hard_state
grant_vote n args =
    if may_vote n.storage.voted_for args.candidate_id && log_ok n.storage args
    then (
      record n {
        storage = save_hard_state n.storage args.term (some args.candidate_id);
        election_elapsed = 0;
      },
      record { term = args.term; vote_granted = true },
    )
    else (n, record { term = n.storage.current_term; vote_granted = false })

unfoldable pub handle_request_vote : RaftNode → RequestVoteArgs → RaftNode × RequestVoteReply
unfolding grant_vote step_down
handle_request_vote n args =
    if ltb args.term (current_term n)
    then (n, record { term = current_term n; vote_granted = false })
    else grant_vote (if ltb (current_term n) args.term then step_down n args.term else n) args

-- `if (!args.entries.empty()) { Truncate; Append; }`
pub store_entries : Storage → AppendEntriesArgs → Storage
store_entries s args = elim args.entries [
  | [] ↦ s
  | e ∷ es ↦ append (truncate s ((args.prev_log_index + 1) % 2 ^ 64)) (e ∷ es)
]

-- What follows the comparison of terms, with the term from before it for the reply.
accept_entries : RaftNode → ℕ → AppendEntriesArgs → RaftNode × AppendEntriesReply
unfolding store_entries
accept_entries n cur_term args =
    if ltb (get_last_index n.storage) args.prev_log_index
      || not (get_term n.storage args.prev_log_index == args.prev_log_term)
    then (n, record { term = cur_term; success = false; match_index = 0 })
    else let s = store_entries n.storage args in
      (
        record n {
          storage = s;
          commit_index =
              if ltb n.commit_index args.leader_commit
              then min args.leader_commit (get_last_index s)
              else n.commit_index;
        },
        record { term = cur_term; success = true; match_index = get_last_index s },
      )

unfoldable pub handle_append_entries : RaftNode → AppendEntriesArgs → RaftNode × AppendEntriesReply
unfolding accept_entries step_down
handle_append_entries n args =
    if ltb args.term (current_term n)
    then (n, record { term = current_term n; success = false; match_index = 0 })
    else let n' =
        if ltb (current_term n) args.term || is_candidate n.role
        then step_down n args.term
        else n in
      accept_entries (record n' { election_elapsed = 0 }) (current_term n) args

unfoldable pub handle_install_snapshot :
    RaftNode → InstallSnapshotArgs → RaftNode × InstallSnapshotReply
unfolding step_down apply_snapshot
handle_install_snapshot n args =
    if ltb args.term (current_term n)
    then (n, record { term = current_term n })
    else let n' = if ltb (current_term n) args.term then step_down n args.term else n in
      (
        record n' {
          election_elapsed = 0;
          storage =
              apply_snapshot n'.storage args.last_included_index args.last_included_term
                args.payload;
          commit_index = max n'.commit_index args.last_included_index;
          last_applied = max n'.last_applied args.last_included_index;
        },
        record { term = current_term n },
      )

-- What a node sends to each of its peers while it holds its mutex.
pub data Outgoing : Type 0 where
  silent : Outgoing
  vote_requests : RequestVoteArgs → Outgoing
  heartbeats : AppendEntriesArgs → Outgoing

start_election : RaftNode → RaftNode × Outgoing
unfolding save_hard_state
start_election n =
    let term = (current_term n + 1) % 2 ^ 64 in
    let s = save_hard_state n.storage term (some n.id) in
    (
      record n { storage = s; role = candidate; votes_granted = n.id ∷ [] },
      vote_requests (record {
        term = term;
        candidate_id = n.id;
        last_log_index = get_last_index s;
        last_log_term = get_last_term s;
        is_pre_vote = false;
      }),
    )

broadcast_heartbeats : RaftNode → Outgoing
broadcast_heartbeats n = heartbeats (record {
  term = current_term n;
  leader_id = n.id;
  prev_log_index = get_last_index n.storage;
  prev_log_term = get_last_term n.storage;
  entries = [];
  leader_commit = n.commit_index;
})

leader_tick : RaftNode → RaftNode × Outgoing
unfolding broadcast_heartbeats
leader_tick n =
    let elapsed = n.heartbeat_elapsed + 1 in
    if leb n.heartbeat_timeout elapsed
    then (let n' : RaftNode = record n { heartbeat_elapsed = 0 } in (n', broadcast_heartbeats n'))
    else (record n { heartbeat_elapsed = elapsed }, silent)

election_tick : RaftNode → RaftNode × Outgoing
unfolding start_election
election_tick n =
    let elapsed = n.election_elapsed + 1 in
    if leb n.randomized_election_timeout elapsed
    then start_election (record n { election_elapsed = 0 })
    else (record n { election_elapsed = elapsed }, silent)

unfoldable pub handle_tick : RaftNode → RaftNode × Outgoing
unfolding leader_tick election_tick
handle_tick n = if is_leader n.role then leader_tick n else election_tick n

-- `match_index_[id_] = index`
set_match : ℕ → ℕ → List (ℕ × ℕ) → List (ℕ × ℕ)
set_match id index [] = (id, index) ∷ []
set_match id index ((j, i) ∷ m) = if j == id then (id, index) ∷ m else (j, i) ∷ set_match id index m

-- The result says whether the proposal was taken.
unfoldable pub propose : RaftNode → List ℕ → RaftNode × Bool × Outgoing
unfolding broadcast_heartbeats set_match append
propose n payload =
    let index = (get_last_index n.storage + 1) % 2 ^ 64 in
    let entry : LogEntry = record {
      term = current_term n;
      index = index;
      type = normal;
      payload = payload;
    } in
    let n' : RaftNode = record n {
      storage = append n.storage (entry ∷ []);
      match_index = set_match n.id index n.match_index;
    } in
    if is_leader n.role then (n', true, broadcast_heartbeats n') else (n, false, silent)

-- A call of a node's public methods.
pub data Call : Type 0 where
  tick : Call
  request_vote : RequestVoteArgs → Call
  append_entries : AppendEntriesArgs → Call
  install_snapshot : InstallSnapshotArgs → Call
  proposal : List ℕ → Call
  steps_down : ℕ → Call

unfoldable pub step : RaftNode → Call → RaftNode
step n tick = (handle_tick n).0
step n (request_vote args) = (handle_request_vote n args).0
step n (append_entries args) = (handle_append_entries n args).0
step n (install_snapshot args) = (handle_install_snapshot n args).0
step n (proposal payload) = (propose n payload).0
step n (steps_down new_term) = step_down n new_term

unfoldable pub run : RaftNode → List Call → RaftNode
run n [] = n
run n (c ∷ cs) = run (step n c) cs
