-- ===== src/Raft/Node/Votes.antt =====
-- How often a node votes in one term.
use odyssey_tasks.Prelude.{
  ℕ, ◌+◌, ◌≤◌, ◌<◌, ◌≡◌, ◌⊎◌, ◌↔◌, inl, inr, refl, true, false, Option, none, some, List, [], ◌∷◌,
  arith, ◌∙◌, sym,
}
use odyssey_tasks.Raft.Types.{AppendEntriesArgs, RequestVoteArgs}
use odyssey_tasks.Raft.Storage.{append, truncate, get_last_index, get_last_term}
use odyssey_tasks.Raft.Node.{
  RaftNode, Call, tick, request_vote, append_entries, install_snapshot, proposal, steps_down,
  step_down, current_term, handle_append_entries, handle_tick, handle_request_vote,
  handle_install_snapshot, propose, step, run, store_entries, is_candidate, is_leader,
}
use odyssey_tasks.Raft.Node.Terms.{HasRoom}

-- The candidate's log is at least as recent as the node's: a later last term, or the same and an
-- index that is not smaller.
pub record IsUpToDate (n : RaftNode) (args : RequestVoteArgs) : Type 0 where
  pub recent :
      (get_last_term n.storage < args.last_log_term)
      ⊎ ((args.last_log_term ≡ get_last_term n.storage)
          × (get_last_index n.storage ≤ args.last_log_index))

-- The node has not voted for another candidate in the request's term.
abbrev pub IsFree : RaftNode → RequestVoteArgs → Type 0
IsFree n args =
    (current_term n < args.term)
    ⊎ ((current_term n ≡ args.term)
        × ((n.storage.voted_for ≡ none) ⊎ (n.storage.voted_for ≡ some args.candidate_id)))

hard_state_index :
    (n : RaftNode) (t : ℕ) (v : Option ℕ)
    → get_last_index (record (n.storage) { current_term = t; voted_for = v })
      ≡ get_last_index n.storage
unfolding get_last_index
hard_state_index n t v = refl

hard_state_term :
    (n : RaftNode) (t : ℕ) (v : Option ℕ)
    → get_last_term (record (n.storage) { current_term = t; voted_for = v })
      ≡ get_last_term n.storage
unfolding get_last_term
hard_state_term n t v = refl

-- A vote is granted exactly when the node is free to give it and the candidate's log is recent.
pub handle_request_vote_granted :
    (n : RaftNode) (args : RequestVoteArgs)
    → ((handle_request_vote n args).1.vote_granted ≡ true) ↔ (IsFree n args × IsUpToDate n args)
unfolding handle_request_vote
handle_request_vote_granted n args =
    let i = hard_state_index n args.term none in
    let t = hard_state_term n args.term none in
    (λ h. ground (arith, i, t), λ h. ground (arith, i, t))

-- A vote for `c` in term `t` still stands, or the node has left the term.
abbrev Stands : ℕ → ℕ → RaftNode → Type 0
Stands t c n = (t < current_term n) ⊎ ((current_term n ≡ t) × (n.storage.voted_for ≡ some c))

-- No call of `AppendEntries` reaches the node while it is a candidate, and `StepDown` names a later
-- term.
abbrev pub IsQuiet : RaftNode → Call → Type 0
IsQuiet n (append_entries args) = is_candidate n.role ≡ false
IsQuiet n (steps_down new_term) = current_term n < new_term
IsQuiet n _ = Unit

abbrev pub AllQuiet : RaftNode → List Call → Type 0
AllQuiet n [] = Unit {0}
AllQuiet n (c ∷ cs) = HasRoom n c × IsQuiet n c × AllQuiet (step n c) cs

step-Stands :
    (t v : ℕ) (n : RaftNode) (c : Call)
    → HasRoom n c
    → IsQuiet n c
    → Stands t v n
    → Stands t v (step n c)
unfolding step handle_tick handle_request_vote handle_install_snapshot propose store_entries append
    truncate step_down
step-Stands t v n tick r q h = ground arith
step-Stands t v n (request_vote args) r q h = ground arith
step-Stands t v n (append_entries args) r q h = unfold handle_append_entries in ground arith
step-Stands t v n (install_snapshot args) r q h = ground arith
step-Stands t v n (proposal payload) r q h = ground arith
step-Stands t v n (steps_down new_term) r q h = ground arith

run-Stands :
    (t v : ℕ) (n : RaftNode) (cs : List Call) → AllQuiet n cs → Stands t v n → Stands t v (run n cs)
unfolding run
run-Stands t v n [] q h = h
run-Stands t v n (c ∷ cs) q h = run-Stands t v (step n c) cs q.2 (step-Stands t v n c q.0 q.1 h)

granted-Stands :
    (n : RaftNode) (a : RequestVoteArgs)
    → (handle_request_vote n a).1.vote_granted ≡ true
    → Stands a.term a.candidate_id (handle_request_vote n a).0
unfolding handle_request_vote
granted-Stands n a h = ground arith

granted-once :
    (n : RaftNode) (b : RequestVoteArgs) (v : ℕ)
    → Stands b.term v n
    → (handle_request_vote n b).1.vote_granted ≡ true
    → b.candidate_id ≡ v
unfolding handle_request_vote
granted-once n b v s h = ground arith

-- Two votes that a node grants in one term go to the same candidate, whatever calls of its public
-- methods come between them, as long as no tick comes at the term 2 ^ 64 - 1, no `AppendEntries`
-- reaches the node while it is itself a candidate, and `StepDown` is called with a term that is
-- later than the node's own only.
pub run-votes_once :
    (n : RaftNode) (a b : RequestVoteArgs) (cs : List Call)
    → (handle_request_vote n a).1.vote_granted ≡ true
    → AllQuiet (handle_request_vote n a).0 cs
    → (handle_request_vote (run (handle_request_vote n a).0 cs) b).1.vote_granted ≡ true
    → a.term ≡ b.term
    → b.candidate_id ≡ a.candidate_id
run-votes_once n a b cs first q second e =
    granted-once _ b a.candidate_id
      (rw (← e) (run-Stands a.term a.candidate_id _ cs q (granted-Stands n a first))) second

election_votes_self :
    (n : RaftNode)
    → is_leader n.role ≡ false
    → n.randomized_election_timeout ≤ n.election_elapsed + 1
    → (is_candidate (step n tick).role ≡ true) × ((step n tick).storage.voted_for ≡ some n.id)
unfolding step handle_tick
election_votes_self n r h = ground arith

append_entries-forgets :
    (n : RaftNode) (a : AppendEntriesArgs)
    → is_candidate n.role ≡ true
    → a.term ≡ current_term n
    → ((step n (append_entries a)).storage.voted_for ≡ none)
      × (current_term (step n (append_entries a)) ≡ current_term n)
unfolding step handle_append_entries store_entries append truncate
append_entries-forgets n a r h = ground arith

granted-current_term :
    (n : RaftNode) (b : RequestVoteArgs)
    → (handle_request_vote n b).1.vote_granted ≡ true
    → current_term (handle_request_vote n b).0 ≡ b.term
unfolding handle_request_vote
granted-current_term n b h = ground arith

-- The exception is real. A node whose election timeout runs out votes for itself; an
-- `AppendEntries` of the same term then makes it forget that vote, and in that term it votes for
-- any candidate whose log is recent.
pub candidate_votes_twice :
    (n : RaftNode) (a : AppendEntriesArgs) (b : RequestVoteArgs)
    → is_leader n.role ≡ false
    → n.randomized_election_timeout ≤ n.election_elapsed + 1
    → a.term ≡ current_term (step n tick)
    → b.term ≡ current_term (step n tick)
    → IsUpToDate (step (step n tick) (append_entries a)) b
    → ((step n tick).storage.voted_for ≡ some n.id)
      × ((handle_request_vote (step (step n tick) (append_entries a)) b).1.vote_granted ≡ true)
      × (current_term (handle_request_vote (step (step n tick) (append_entries a)) b).0
          ≡ current_term (step n tick))
candidate_votes_twice n a b r h ea eb u =
    let (role, self) = election_votes_self n r h in
    let (empty, same) = append_entries-forgets (step n tick) a role ea in
    let granted = (handle_request_vote_granted _ b).1 (inr (same ∙ sym eb, inl empty), u) in
    (self, granted, granted-current_term _ b granted ∙ eb)
