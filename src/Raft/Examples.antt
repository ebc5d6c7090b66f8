-- ===== src/Raft/Examples.antt =====
-- Runs of the nodes and of the cluster, each with the conditions of a theorem.
use odyssey_tasks.Prelude.{
  ℕ, ◌<◌, ◌≤◌, ◌≡◌, inl, inr, refl, ap, true, false, some, List, [], ◌∷◌, length, arith,
}
use odyssey_tasks.Prelude.Dict.{lookup}
use odyssey_tasks.Raft.Types.{LogEntry, normal, AppendEntriesArgs, RequestVoteArgs}
use odyssey_tasks.Raft.Storage.{Storage, init, back, get_last_index, get_last_term, get_term, dummy}
use odyssey_tasks.Raft.Storage.Shape.{IsWellFormed}
use odyssey_tasks.Raft.Node
use odyssey_tasks.Raft.Node.{
  RaftNode, Call, tick, request_vote, append_entries, proposal, current_term, is_leader,
  handle_append_entries, handle_request_vote, handle_tick, propose, step, run,
}
use odyssey_tasks.Raft.Node.Log.{IsValidAppend, append_entries-log, step-IsWellFormed}
use odyssey_tasks.Raft.Node.Commit.{append_entries-commit, append_entries_uncommits}
use odyssey_tasks.Raft.Node.Votes.{run-votes_once, candidate_votes_twice}
use odyssey_tasks.Raft.Node.Leadership.{run-never_leads}
use odyssey_tasks.Raft.Cluster.{Cluster, set_partition, can_communicate, tick_all}
use odyssey_tasks.Raft.Cluster.Links.{set_partition-can_communicate}
use odyssey_tasks.Raft.Cluster.Progress.{AllFree, tick_all-some}

abbrev entry : ℕ → ℕ → LogEntry
entry term index = record { term = term; index = index; type = normal; payload = [] }

-- A log of three entries behind the dummy one, of the terms 1, 1 and 2.
abbrev three_entries : Storage
three_entries = record init {
  current_term = 2;
  log = dummy 0 0 ∷ entry 1 1 ∷ entry 1 2 ∷ entry 2 3 ∷ [];
}

abbrev follower_node : RaftNode
follower_node = record (Node.new 1 (2 ∷ 3 ∷ []) three_entries true) { commit_index = 2 }

-- The entry behind index 2 is replaced by two of a later term.
abbrev two_more : AppendEntriesArgs
two_more = record {
  term = 3;
  leader_id = 2;
  prev_log_index = 2;
  prev_log_term = 1;
  entries = entry 3 3 ∷ entry 3 4 ∷ [];
  leader_commit = 3;
}

abbrev delayed : AppendEntriesArgs
delayed = record two_more {
  prev_log_index = 0;
  prev_log_term = 0;
  entries = entry 1 1 ∷ [];
  leader_commit = 0;
}

two_more-IsValidAppend : IsValidAppend follower_node two_more
unfolding Node.new init
two_more-IsValidAppend = record {
  follow = (refl, (refl, tt));
  fits = omega arith;
  recent = inl (omega arith);
}

three_entries-IsWellFormed : IsWellFormed three_entries
unfolding Node.new init
three_entries-IsWellFormed = (refl, refl, (refl, (refl, (refl, tt))))

append_entries-log_example :
    (handle_append_entries follower_node two_more).0.storage.log
    ≡ dummy 0 0 ∷ entry 1 1 ∷ entry 1 2 ∷ entry 3 3 ∷ entry 3 4 ∷ []
unfolding handle_append_entries get_last_index back get_term Node.new init
append_entries-log_example =
    append_entries-log follower_node two_more three_entries-IsWellFormed two_more-IsValidAppend refl

step-IsWellFormed_example : IsWellFormed (step follower_node (append_entries two_more)).storage
unfolding Node.new init
step-IsWellFormed_example =
    step-IsWellFormed follower_node (append_entries two_more) three_entries-IsWellFormed
      two_more-IsValidAppend

append_entries-commit_example :
    (2 ≤ (handle_append_entries follower_node two_more).0.commit_index)
    × ((handle_append_entries follower_node two_more).0.commit_index
        ≤ get_last_index (handle_append_entries follower_node two_more).0.storage)
unfolding handle_append_entries get_last_index back get_term Node.new init
append_entries-commit_example =
    append_entries-commit follower_node two_more three_entries-IsWellFormed two_more-IsValidAppend
      refl (omega arith) (inr (omega arith))

abbrev committed_node : RaftNode
committed_node = record follower_node { commit_index = 3 }

append_entries_uncommits_example :
    get_last_index (handle_append_entries committed_node delayed).0.storage
    < (handle_append_entries committed_node delayed).0.commit_index
unfolding handle_append_entries get_last_index back get_term Node.new init
append_entries_uncommits_example =
    append_entries_uncommits committed_node delayed three_entries-IsWellFormed
      (record { follow = (refl, tt); fits = omega arith; recent = inl (omega arith) }) refl
      (λ p. omega (arith, ap length p)) (omega arith) (omega arith)

abbrev vote : ℕ → ℕ → RequestVoteArgs
vote term candidate_id = record {
  term = term;
  candidate_id = candidate_id;
  last_log_index = 3;
  last_log_term = 2;
  is_pre_vote = false;
}

run-votes_once_example : (vote 3 2).candidate_id ≡ (vote 3 2).candidate_id
unfolding handle_request_vote get_last_index get_last_term back run step handle_tick Node.new init
run-votes_once_example =
    run-votes_once follower_node (vote 3 2) (vote 3 2) (tick ∷ []) refl (omega arith, tt, tt) refl
      refl

run-never_leads_example :
    (is_leader (run (Node.new 1 [] init true) (tick ∷ tick ∷ [])).role ≡ false)
    × ((propose (run (Node.new 1 [] init true) (tick ∷ tick ∷ [])) []).1 ≡ false)
    × ((propose (run (Node.new 1 [] init true) (tick ∷ tick ∷ [])) []).0
        ≡ run (Node.new 1 [] init true) (tick ∷ tick ∷ []))
unfolding Node.new init
run-never_leads_example = run-never_leads 1 [] init true (tick ∷ tick ∷ []) []

-- A node about to start an election.
abbrev impatient : RaftNode
impatient = record follower_node { election_elapsed = 14 }

abbrev empty_call : AppendEntriesArgs
empty_call = record two_more { entries = [] }

candidate_votes_twice_example :
    ((step impatient tick).storage.voted_for ≡ some 1)
    × ((handle_request_vote
          (step (step impatient tick) (append_entries empty_call))
          (vote 3 3)).1.vote_granted
        ≡ true)
    × (current_term
          (handle_request_vote
            (step (step impatient tick) (append_entries empty_call))
            (vote 3 3)).0
        ≡ current_term (step impatient tick))
unfolding step handle_tick handle_append_entries get_last_index get_last_term back get_term Node.new
    init
candidate_votes_twice_example =
    candidate_votes_twice impatient empty_call (vote 3 3) refl (omega arith) refl refl
      (record { recent = inr (refl, omega arith) })

-- Three nodes, of which the first starts an election.
abbrev node : ℕ → List ℕ → RaftNode
node id peers = Node.new id peers init true

abbrev three_nodes : Cluster
three_nodes = record {
  nodes =
      (1, record (node 1 (2 ∷ 3 ∷ [])) { election_elapsed = 14 })
      ∷ (2, node 2 (1 ∷ 3 ∷ []))
      ∷ (3, node 3 (1 ∷ 2 ∷ []))
      ∷ [];
  blocked_links = [];
}

abbrev split : Cluster
split = set_partition three_nodes (1 ∷ 2 ∷ []) (3 ∷ [])

set_partition-can_communicate_example :
    can_communicate (set_partition three_nodes (1 ∷ 2 ∷ []) (3 ∷ [])) 1 3 ≡ false
unfolding can_communicate Node.new init
set_partition-can_communicate_example =
    set_partition-can_communicate three_nodes (1 ∷ 2 ∷ []) (3 ∷ []) 1 3

three_nodes-AllFree : AllFree three_nodes
unfolding lookup Node.new init
three_nodes-AllFree k n e = ground arith

tick_all-some_example : (c' : Cluster) × (tick_all three_nodes ≡ some c') × AllFree c'
unfolding Node.new init
tick_all-some_example = tick_all-some three_nodes three_nodes-AllFree

abbrev loner : Cluster
loner = record {
  nodes = (1, record (node 1 (1 ∷ 2 ∷ [])) { election_elapsed = 14 }) ∷ [];
  blocked_links = [];
}

-- A cluster of two nodes on both sides of a partition.
abbrev cut : Cluster
cut = record {
  nodes = (1, record (node 1 (2 ∷ [])) { election_elapsed = 14 }) ∷ (2, node 2 (1 ∷ [])) ∷ [];
  blocked_links = (2, 1) ∷ (1, 2) ∷ [];
}

abbrev cut_after : Cluster
cut_after = record cut {
  nodes =
      (1, (handle_tick (record (node 1 (2 ∷ [])) { election_elapsed = 14 })).0)
      ∷ (2, node 2 (1 ∷ []))
      ∷ [];
}
