-- ===== src/Raft/Node/Terms.antt =====
-- The node's term over calls.
use odyssey_tasks.Prelude.{◌+◌, ◌^◌, ◌≤◌, ◌<◌, List, [], ◌∷◌, arith}
use odyssey_tasks.Raft.Storage.{append}
use odyssey_tasks.Raft.Node.{
  RaftNode, Call, tick, request_vote, append_entries, install_snapshot, proposal, steps_down,
  step_down, current_term, handle_append_entries, handle_tick, handle_request_vote,
  handle_install_snapshot, propose, step, run, store_entries,
}
use odyssey_tasks.Raft.Storage.{truncate}

-- A new election does not take the term past uint64_t, and `StepDown` names no earlier term.
abbrev pub HasRoom : RaftNode → Call → Type 0
HasRoom n tick = current_term n + 1 < 2 ^ 64
HasRoom n (steps_down new_term) = current_term n ≤ new_term
HasRoom n _ = Unit

abbrev pub AllHaveRoom : RaftNode → List Call → Type 0
AllHaveRoom n [] = Unit {0}
AllHaveRoom n (c ∷ cs) = HasRoom n c × AllHaveRoom (step n c) cs

pub step-current_term-le :
    (n : RaftNode) (c : Call) → HasRoom n c → current_term n ≤ current_term (step n c)
unfolding step handle_tick handle_request_vote handle_install_snapshot propose store_entries append
    truncate step_down
step-current_term-le n tick h = ground arith
step-current_term-le n (request_vote args) h = ground arith
step-current_term-le n (append_entries args) h = unfold handle_append_entries in ground arith
step-current_term-le n (install_snapshot args) h = ground arith
step-current_term-le n (proposal payload) h = ground arith
step-current_term-le n (steps_down new_term) h = ground arith

-- A node's term never falls, over any sequence of calls in which no tick comes at the term 2 ^ 64
-- - 1 and no `StepDown` names an earlier term.
pub run-current_term-le :
    (n : RaftNode) (cs : List Call) → AllHaveRoom n cs → current_term n ≤ current_term (run n cs)
unfolding run
run-current_term-le n [] h = omega arith
run-current_term-le n (c ∷ cs) h =
    omega (arith, step-current_term-le n c h.0, run-current_term-le (step n c) cs h.1)
