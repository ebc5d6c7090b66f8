-- ===== src/Raft/Node/Leadership.antt =====
-- Who can become a leader.
use odyssey_tasks.Prelude.{ℕ, ◌≡◌, refl, Bool, false, List, [], ◌∷◌, arith}
use odyssey_tasks.Raft.Storage.{Storage}
use odyssey_tasks.Raft.Node.{
  RaftNode, Call, tick, request_vote, append_entries, install_snapshot, proposal, steps_down,
  step_down, is_leader, new, handle_append_entries, handle_tick, handle_request_vote,
  handle_install_snapshot, propose, step, run,
}

step-is_leader :
    (n : RaftNode) (c : Call) → is_leader n.role ≡ false → is_leader (step n c).role ≡ false
unfolding step handle_tick handle_request_vote handle_install_snapshot propose step_down
step-is_leader n tick h = ground arith
step-is_leader n (request_vote args) h = ground arith
step-is_leader n (append_entries args) h = unfold handle_append_entries in ground arith
step-is_leader n (install_snapshot args) h = ground arith
step-is_leader n (proposal payload) h = ground arith
step-is_leader n (steps_down new_term) h = ground arith

run-is_leader :
    (n : RaftNode) (cs : List Call) → is_leader n.role ≡ false → is_leader (run n cs).role ≡ false
unfolding run
run-is_leader n [] h = h
run-is_leader n (c ∷ cs) h = run-is_leader (step n c) cs (step-is_leader n c h)

-- No sequence of calls makes a new node a leader, so it refuses every proposal.
pub run-never_leads :
    (id : ℕ) (peers : List ℕ) (s : Storage) (attached : Bool) (cs : List Call) (payload : List ℕ)
    → let n = run (new id peers s attached) cs in
      (is_leader n.role ≡ false) × ((propose n payload).1 ≡ false) × ((propose n payload).0 ≡ n)
unfolding propose
run-never_leads id peers s attached cs payload =
    let h = run-is_leader (new id peers s attached) cs (unfold new in refl) in
    (h, ground (arith, h), ground (arith, h))
