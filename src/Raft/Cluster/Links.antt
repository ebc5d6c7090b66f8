-- ===== src/Raft/Cluster/Links.antt =====
-- Partitions, and who is out of reach.
use odyssey_tasks.Prelude.{
  ℕ, ◌≡◌, ◌≢◌, ◌⊎◌, inl, inr, refl, true, false, ◌&&◌, ◌||◌, not, Option, none, some, List, [], ◌∷◌,
  ◌==◌, ◌∙◌, >>=-eq-some, else-some, Option-cases, if◌then◌else◌, arith,
}
use odyssey_tasks.Prelude.Dict.{lookup, insert, lookup-insert}
use odyssey_tasks.Raft.Node.{
  RaftNode, Outgoing, silent, vote_requests, heartbeats, handle_tick, handle_request_vote,
  handle_append_entries,
}
use odyssey_tasks.Raft.Cluster.{
  Cluster, contains, block_all, block_groups, set_partition, clear_partitions, has_link,
  can_communicate, deliver, send, broadcast, unlock, send_locked, tick_node, send_request_vote,
  send_append_entries,
}

has_link-block_all :
    (a : ℕ) (bs : List ℕ) (links : List (ℕ × ℕ)) (x y : ℕ)
    → has_link (block_all a bs links) x y
      ≡ (has_link links x y || ((a == x && contains bs y) || (contains bs x && a == y)))
unfolding has_link block_all
has_link-block_all a [] links x y = ground arith
has_link-block_all a (b ∷ bs) links x y =
    ground (arith, has_link-block_all a bs ((b, a) ∷ (a, b) ∷ links) x y)

has_link-block_groups :
    (as' bs : List ℕ) (links : List (ℕ × ℕ)) (x y : ℕ)
    → has_link (block_groups as' bs links) x y ≡ (
        has_link links x y
        || ((contains as' x && contains bs y) || (contains bs x && contains as' y)))
unfolding block_groups
has_link-block_groups [] bs links x y = ground arith
has_link-block_groups (a ∷ as') bs links x y = ground (
  arith,
  has_link-block_groups as' bs (block_all a bs links) x y,
  has_link-block_all a bs links x y,
)

-- A partition blocks the links between the two groups, in both directions, and no others.
pub set_partition-can_communicate :
    (c : Cluster) (as' bs : List ℕ) (x y : ℕ)
    → can_communicate (set_partition c as' bs) x y ≡ (
        can_communicate c x y
        && not ((contains as' x && contains bs y) || (contains bs x && contains as' y)))
unfolding can_communicate set_partition
set_partition-can_communicate c as' bs x y =
    ground (arith, has_link-block_groups as' bs c.blocked_links x y)

-- Clearing the partitions lets every pair communicate.
clear_partitions-can_communicate :
    (c : Cluster) (x y : ℕ) → can_communicate (clear_partitions c) x y ≡ true
unfolding can_communicate clear_partitions
clear_partitions-can_communicate c x y = refl

-- A change of the nodes leaves the links as they are.
pub can_communicate-nodes :
    (c c' : Cluster) (x y : ℕ)
    → c'.blocked_links ≡ c.blocked_links
    → can_communicate c' x y ≡ can_communicate c x y
unfolding can_communicate
can_communicate-nodes c c' x y e = rw e

-- What a step may do, seen from node `k`: nothing, and the links stay.
abbrev Spares : ℕ → Cluster → Cluster → Type 0
Spares k c c' = (c'.blocked_links ≡ c.blocked_links) × (lookup k c'.nodes ≡ lookup k c.nodes)

deliver-Spares :
    (c c' : Cluster) (to k : ℕ) (h : RaftNode → RaftNode)
    → deliver c to h ≡ some c'
    → k ≢ to
    → Spares k c c'
unfolding deliver
deliver-Spares c c' to k h e ne = by_node (lookup to c.nodes) refl
  where
    by_node : (o : Option RaftNode) → lookup to c.nodes ≡ o → Spares k c c'
    by_node none f = let e' = rw (f, deliver) at e in ground arith
    by_node (some n) f =
        let e' = rw (f, deliver) at e in ground (arith, lookup-insert k to (h n) c.nodes)

send-Spares :
    (c c' : Cluster) (from to k : ℕ) (out : Outgoing)
    → send c from to out ≡ some c'
    → (k ≢ to) ⊎ (can_communicate c from k ≡ false)
    → Spares k c c'
unfolding send send_request_vote send_append_entries
send-Spares c c' from to k silent e r = ground arith
send-Spares c c' from to k (vote_requests args) e r =
    ground (arith, deliver-Spares c c' to k (λ n. (handle_request_vote n args).0))
send-Spares c c' from to k (heartbeats args) e r =
    ground (arith, deliver-Spares c c' to k (λ n. (handle_append_entries n args).0))

broadcast-Spares :
    (c c' : Cluster) (from k : ℕ) (out : Outgoing) (peers : List ℕ)
    → broadcast c from out peers ≡ some c'
    → can_communicate c from k ≡ false
    → Spares k c c'
unfolding broadcast
broadcast-Spares c c' from k out [] e r = ground arith
broadcast-Spares c c' from k out (p ∷ ps) e r =
    let (d, sent, rest) = >>=-eq-some (send c from p out) _ e in
    let one = send-Spares c d from p k out sent (inr r) in
    let more =
      broadcast-Spares d c' from k out ps rest (can_communicate-nodes c d from k one.0 ∙ r) in
    (more.0 ∙ one.0, more.1 ∙ one.1)

unlock-Spares : (c : Cluster) (id k : ℕ) → k ≢ id → Spares k c (unlock c id)
unfolding unlock
unlock-Spares c id k ne = elim (Option-cases (lookup id c.nodes)) [
  | inl e ↦ rw (e, unlock) (refl, refl)
  | inr (n, e) ↦
      rw (e, unlock)
        (refl, ground (arith, lookup-insert k id (record n { locked = false }) c.nodes))
]

handle_tick-id : (n : RaftNode) → (handle_tick n).0.id ≡ n.id
unfolding handle_tick
handle_tick-id n = ground arith

send_locked-Spares :
    (c c' : Cluster) (id k : ℕ) (n : RaftNode) (out : Outgoing)
    → send_locked c id n out ≡ some c'
    → n.id ≡ id
    → k ≢ id
    → can_communicate c id k ≡ false
    → Spares k c c'
unfolding send_locked
send_locked-Spares c c' id k n out e own ne r =
    let held : Cluster = record c { nodes = insert id (record n { locked = true }) c.nodes } in
    let peers : List ℕ = if n.attached then n.peers else [] in
    let (d, sent, rest) = >>=-eq-some (broadcast held n.id out peers) _ e in
    let cut : can_communicate held n.id k ≡ false =
      can_communicate-nodes c held n.id k refl ∙ rw own r in
    let (links, node) = broadcast-Spares held d n.id k out peers sent cut in
    let (links', node') = unlock-Spares d id k ne in
    ground (arith, lookup-insert k id (record n { locked = true }) c.nodes)

-- A tick of a node that stands under its own id, where the tick ends, leaves every other node that
-- it cannot reach as it was.
pub tick_node_isolated :
    (c c' : Cluster) (id k : ℕ) (n : RaftNode)
    → lookup id c.nodes ≡ some n
    → n.id ≡ id
    → tick_node c id ≡ some c'
    → k ≢ id
    → can_communicate c id k ≡ false
    → lookup k c'.nodes ≡ lookup k c.nodes
unfolding tick_node send_locked
tick_node_isolated c c' id k n f own e ne r =
    (send_locked-Spares c c' id k (handle_tick n).0 (handle_tick n).1
      (else-some n.locked _ (rw (f, tick_node) at e)) (handle_tick-id n ∙ own) ne r).1
