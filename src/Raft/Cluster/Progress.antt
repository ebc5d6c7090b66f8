-- ===== src/Raft/Cluster/Progress.antt =====
-- Ticks come to an end: no thread waits for a mutex that it holds.
use odyssey_tasks.Prelude.{
  ℕ, ◌+◌, ◌≤◌, ◌≡◌, ◌≢◌, ◌⊎◌, inl, inr, refl, ◌∙◌, ap, Bool, true, false, none, some, List, [], ◌∷◌,
  if◌then◌else◌, arith, Option-cases, Bool-cases,
}
use odyssey_tasks.Prelude.Dict.{lookup, insert, lookup-insert}
use odyssey_tasks.Raft.Node.{
  RaftNode, Outgoing, silent, vote_requests, heartbeats, handle_tick, handle_request_vote,
  handle_append_entries, is_leader,
}
use odyssey_tasks.Raft.Cluster.Links.{can_communicate-nodes}
use odyssey_tasks.Raft.Types.{RequestVoteArgs, AppendEntriesArgs}
use odyssey_tasks.Raft.Cluster.{
  Cluster, can_communicate, deliver, send, broadcast, unlock, send_locked, tick_node, tick_list,
  tick_all, send_request_vote, send_append_entries, contains,
}

-- A node stands under its own id, is not its own peer, and its mutex is free (but for `holder`).
abbrev pub IsFree : ℕ → RaftNode → Type 0
IsFree k n = (n.id ≡ k) × (contains n.peers k ≡ false) × (n.locked ≡ false)

abbrev IsFreeBut : ℕ → ℕ → RaftNode → Type 0
IsFreeBut holder k n =
    (n.id ≡ k) × (contains n.peers k ≡ false) × ((n.locked ≡ false) ⊎ (k ≡ holder))

abbrev pub AllFree : Cluster → Type 0
AllFree c = (k : ℕ) (n : RaftNode) → lookup k c.nodes ≡ some n → IsFree k n

abbrev AllFreeBut : ℕ → Cluster → Type 0
AllFreeBut holder c = (k : ℕ) (n : RaftNode) → lookup k c.nodes ≡ some n → IsFreeBut holder k n

-- What a handler leaves alone.
abbrev Keeps : (RaftNode → RaftNode) → Type 0
Keeps h = (n : RaftNode) → ((h n).id ≡ n.id) × ((h n).peers ≡ n.peers) × ((h n).locked ≡ n.locked)

handle_request_vote-Keeps : (args : RequestVoteArgs) → Keeps (λ n. (handle_request_vote n args).0)
unfolding handle_request_vote
handle_request_vote-Keeps args n = (ground arith, ground arith, ground arith)

handle_append_entries-Keeps :
    (args : AppendEntriesArgs) → Keeps (λ n. (handle_append_entries n args).0)
unfolding handle_append_entries
handle_append_entries-Keeps args n = (ground arith, ground arith, ground arith)

handle_tick-Keeps : Keeps (λ n. (handle_tick n).0)
unfolding handle_tick
handle_tick-Keeps n = (ground arith, ground arith, ground arith)

deliver-some :
    (c : Cluster) (holder to : ℕ) (h : RaftNode → RaftNode)
    → Keeps h
    → AllFreeBut holder c
    → to ≢ holder
    → (c' : Cluster) × (deliver c to h ≡ some c') × AllFreeBut holder c'
unfolding deliver
deliver-some c holder to h keeps free ne = elim (Option-cases (lookup to c.nodes)) [
  | inl e ↦ (c, rw (e, deliver), free)
  | inr (n, e) ↦ (
    record c { nodes = insert to (h n) c.nodes },
    rw (e, deliver) (ground (arith, free to n e)),
    λ k m f. ground (arith, free to n e, free k m, lookup-insert k to (h n) c.nodes, keeps n),
  )
]

send-some :
    (c : Cluster) (holder from to : ℕ) (out : Outgoing)
    → AllFreeBut holder c
    → to ≢ holder
    → (c' : Cluster) × (send c from to out ≡ some c') × AllFreeBut holder c'
unfolding send send_request_vote send_append_entries
send-some c holder from to silent free ne = (c, refl, free)
send-some c holder from to (vote_requests args) free ne =
    elim (Bool-cases (can_communicate c from to)) [
      | inl e ↦ rw e (deliver-some c holder to _ (handle_request_vote-Keeps args) free ne)
      | inr e ↦ rw e (c, refl, free)
    ]
send-some c holder from to (heartbeats args) free ne =
    elim (Bool-cases (can_communicate c from to)) [
      | inl e ↦ rw e (deliver-some c holder to _ (handle_append_entries-Keeps args) free ne)
      | inr e ↦ rw e (c, refl, free)
    ]

broadcast-some :
    (c : Cluster) (holder from : ℕ) (out : Outgoing) (peers : List ℕ)
    → AllFreeBut holder c
    → contains peers holder ≡ false
    → (c' : Cluster) × (broadcast c from out peers ≡ some c') × AllFreeBut holder c'
unfolding broadcast
broadcast-some c holder from out [] free ne = (c, refl, free)
broadcast-some c holder from out (p ∷ ps) free ne =
    let (d, sent, free') = send-some c holder from p out free (ground arith) in
    rw sent (broadcast-some d holder from out ps free' (ground arith))

unlock-AllFree : (c : Cluster) (holder : ℕ) → AllFreeBut holder c → AllFree (unlock c holder)
unfolding unlock
unlock-AllFree c holder free = elim (Option-cases (lookup holder c.nodes)) [
  | inl e ↦ rw (e, unlock) (λ k n f. ground (arith, free k n f))
  | inr (m, e) ↦
      rw (e, unlock)
        λ k n f. ground (
          arith,
          free holder m e,
          free k n,
          lookup-insert k holder (record m { locked = false }) c.nodes,
        )
]

send_locked-some :
    (c : Cluster) (id : ℕ) (n : RaftNode) (out : Outgoing)
    → AllFree c
    → n.id ≡ id
    → contains n.peers id ≡ false
    → (c' : Cluster) × (send_locked c id n out ≡ some c') × AllFree c'
unfolding send_locked
send_locked-some c id n out free own alone =
    let n' : RaftNode = record n { locked = true } in
    let held : Cluster = record c { nodes = insert id n' c.nodes } in
    let peers : List ℕ = if n.attached then n.peers else [] in
    let held-free : AllFreeBut id held =
      λ k m f. ground (arith, free k m, lookup-insert k id n' c.nodes) in
    let (d, sent, free') = broadcast-some held id n.id out peers held-free (ground arith) in
    (unlock d id, rw sent, unlock-AllFree d id free')

tick_node-some :
    (c : Cluster) (id : ℕ) → AllFree c → (c' : Cluster) × (tick_node c id ≡ some c') × AllFree c'
unfolding tick_node send_locked
tick_node-some c id free = elim (Option-cases (lookup id c.nodes)) [
  | inl e ↦ (c, rw (e, tick_node), free)
  | inr (n, e) ↦
      let (own, alone, open') = free id n e in
      let (keep, peers, _) = handle_tick-Keeps n in
      let (c', sent, free') =
        send_locked-some c id (handle_tick n).0 (handle_tick n).1 free (keep ∙ own)
          (rw peers alone) in
      (c', rw (e, tick_node) (ground (arith, sent, open')), free')
]

tick_list-some :
    (c : Cluster) (ns : List (ℕ × RaftNode))
    → AllFree c
    → (c' : Cluster) × (tick_list c ns ≡ some c') × AllFree c'
unfolding tick_list
tick_list-some c [] free = (c, refl, free)
tick_list-some c ((id, n) ∷ ns) free =
    let (d, ticked, free') = tick_node-some c id free in rw ticked (tick_list-some d ns free')

-- A round of ticks ends, with every mutex free again, where no node is among its own peers and all
-- mutexes are free at the start.
pub tick_all-some : (c : Cluster) → AllFree c → (c' : Cluster) × (tick_all c ≡ some c') × AllFree c'
unfolding tick_all
tick_all-some c free = tick_list-some c c.nodes free

abbrev is_silent : Outgoing → Bool
is_silent silent = true
is_silent _ = false

deliver-none :
    (c : Cluster) (to : ℕ) (n : RaftNode) (h : RaftNode → RaftNode)
    → lookup to c.nodes ≡ some n
    → n.locked ≡ true
    → deliver c to h ≡ none
unfolding deliver
deliver-none c to n h f l = rw (f, deliver) (rw l)

send-none :
    (c : Cluster) (from to : ℕ) (n : RaftNode) (out : Outgoing)
    → lookup to c.nodes ≡ some n
    → n.locked ≡ true
    → can_communicate c from to ≡ true
    → is_silent out ≡ false
    → send c from to out ≡ none
unfolding send send_request_vote send_append_entries
send-none c from to n silent f l r o = cc
send-none c from to n (vote_requests args) f l r o = rw r (deliver-none c to n _ f l)
send-none c from to n (heartbeats args) f l r o = rw r (deliver-none c to n _ f l)

election_sends :
    (n : RaftNode)
    → is_leader n.role ≡ false
    → n.randomized_election_timeout ≤ n.election_elapsed + 1
    → (is_silent (handle_tick n).1 ≡ false) × ((handle_tick n).0.attached ≡ n.attached)
unfolding handle_tick
election_sends n r h = ground arith

broadcast-none :
    (c : Cluster) (from : ℕ) (out : Outgoing) (p : ℕ) (ps : List ℕ)
    → send c from p out ≡ none
    → broadcast c from out (p ∷ ps) ≡ none
unfolding broadcast
broadcast-none c from out p ps e = rw e

send_locked-none :
    (c : Cluster) (id : ℕ) (n : RaftNode) (peers : List ℕ) (out : Outgoing)
    → n.id ≡ id
    → n.peers ≡ id ∷ peers
    → n.attached ≡ true
    → can_communicate c id id ≡ true
    → is_silent out ≡ false
    → send_locked c id n out ≡ none
unfolding send_locked
send_locked-none c id n peers out own self on reach o =
    let n' : RaftNode = record n { locked = true } in
    let held : Cluster = record c { nodes = insert id n' c.nodes } in
    let there : lookup id held.nodes ≡ some n' = ground (arith, lookup-insert id id n' c.nodes) in
    let first : send held n.id id out ≡ none =
      send-none held n.id id n' out there refl
        (can_communicate-nodes c held n.id id refl ∙ rw own reach) o in
    let all : (if n.attached then n.peers else []) ≡ id ∷ peers = ground arith in
    let stuck = ap (broadcast held n.id out) all ∙ broadcast-none held n.id out id peers first in
    rw stuck

-- A follower or candidate that stands under its own id, is attached to the cluster, is its own
-- first peer and can reach itself, waits forever for its own mutex once its election timeout runs
-- out.
pub tick_node_self_peer :
    (c : Cluster) (id : ℕ) (n : RaftNode) (peers : List ℕ)
    → lookup id c.nodes ≡ some n
    → n.id ≡ id
    → n.peers ≡ id ∷ peers
    → n.attached ≡ true
    → can_communicate c id id ≡ true
    → is_leader n.role ≡ false
    → n.randomized_election_timeout ≤ n.election_elapsed + 1
    → tick_node c id ≡ none
unfolding tick_node send_locked
tick_node_self_peer c id n peers f own self on reach r h =
    let (keep, same, _) = handle_tick-Keeps n in
    let (loud, here) = election_sends n r h in
    let stuck =
      send_locked-none c id (handle_tick n).0 peers (handle_tick n).1 (keep ∙ own) (same ∙ self)
        (here ∙ on) reach loud in
    rw (f, tick_node) (ground (arith, stuck))
