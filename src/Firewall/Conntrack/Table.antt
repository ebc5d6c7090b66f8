-- ===== src/Firewall/Conntrack/Table.antt =====
-- Which packets are let through, the size of the table, and what a cleanup leaves.
use odyssey_tasks.Prelude.{
  ℕ, suc, ◌<◌, ◌≤◌, ◌≡◌, ◌≢◌, ◌⊎◌, ◌↔◌, inl, inr, refl, true, false, none, some, List, [], ◌∷◌,
  length, All, arith, Option-cases,
}
use odyssey_tasks.Firewall.Types.{syn_sent, FiveTuple, same_tuple, PacketMeta}
use odyssey_tasks.Firewall.Conntrack.{
  ConntrackEntry, ConntrackTable, Call, packet, cleanup, find, assign, erase, has_flag, next_state,
  process_tcp_packet, is_expired, remove_expired, cleanup_expired, size, run,
}

-- A packet is let through exactly when its connection is tracked, or it opens one (SYN without ACK)
-- and the table has room.
pub process_tcp_packet_accepts :
    (t : ConntrackTable) (pkt : PacketMeta)
    → ((process_tcp_packet t pkt).1 ≡ true) ↔ (
        (find pkt.tuple t.entries ≢ none)
        ⊎ ((has_flag pkt 0x02 ≡ true) × (has_flag pkt 0x10 ≡ false) × (size t < t.max_entries)))
unfolding process_tcp_packet size
process_tcp_packet_accepts t pkt = elim (Option-cases (find pkt.tuple t.entries)) [
  | inl e ↦ (λ h. ground arith, λ h. ground arith)
  | inr (entry, e) ↦ (λ h. ground arith, λ h. ground arith)
]

length-assign_new :
    (k : FiveTuple) (e : ConntrackEntry) (entries : List (FiveTuple × ConntrackEntry))
    → length (assign k e entries) ≤ suc (length entries)
unfolding assign
length-assign_new k e [] = omega arith
length-assign_new k e (x ∷ entries) = ground (arith, length-assign_new k e entries)

length-assign :
    (k : FiveTuple) (e old : ConntrackEntry) (entries : List (FiveTuple × ConntrackEntry))
    → find k entries ≡ some old
    → length (assign k e entries) ≡ length entries
unfolding assign find
length-assign k e old [] h = ground arith
length-assign k e old (x ∷ entries) h = ground (arith, length-assign k e old entries)

length-erase :
    (k : FiveTuple) (entries : List (FiveTuple × ConntrackEntry))
    → length (erase k entries) ≤ length entries
unfolding erase
length-erase k [] = omega arith
length-erase k (x ∷ entries) = ground (arith, length-erase k entries)

length-remove_expired :
    (now timeout : ℕ) (entries : List (FiveTuple × ConntrackEntry))
    → length (remove_expired now timeout entries) ≤ length entries
unfolding remove_expired
length-remove_expired now timeout [] = omega arith
length-remove_expired now timeout (x ∷ entries) =
    ground (arith, length-remove_expired now timeout entries)

process-size :
    (t : ConntrackTable) (pkt : PacketMeta)
    → size t ≤ t.max_entries
    → (size (process_tcp_packet t pkt).0 ≤ t.max_entries)
      × ((process_tcp_packet t pkt).0.max_entries ≡ t.max_entries)
unfolding process_tcp_packet size
process-size t pkt h = elim (Option-cases (find pkt.tuple t.entries)) [
  | inl e ↦ ground (
    arith,
    length-assign_new pkt.tuple
        (record {
          state = syn_sent;
          last_seq = pkt.seq;
          last_ack = 0;
          last_seen_ns = pkt.timestamp_ns;
        })
        t.entries,
  )
  | inr (entry, e) ↦ ground (
    arith,
    length-erase pkt.tuple t.entries,
    length-assign pkt.tuple
        (record entry {
          state =
              next_state entry.state (has_flag pkt 0x02) (has_flag pkt 0x10) (has_flag pkt 0x01);
          last_seen_ns = pkt.timestamp_ns;
        })
        entry t.entries e,
  )
]

-- The table never holds more connections than its limit, over any packets and cleanups from a table
-- that does not.
pub run-size-le :
    (t : ConntrackTable) (calls : List Call)
    → size t ≤ t.max_entries
    → (size (run t calls) ≤ t.max_entries) × ((run t calls).max_entries ≡ t.max_entries)
unfolding run size cleanup_expired
run-size-le t [] h = (h, refl)
run-size-le t (packet pkt ∷ calls) h =
    let (small, same) = process-size t pkt h in
    let rec = run-size-le (process_tcp_packet t pkt).0 calls (rw same small) in rw same at rec
run-size-le t (cleanup now timeout ∷ calls) h =
    run-size-le (cleanup_expired t now timeout) calls
      (omega (arith, length-remove_expired now timeout t.entries))

-- No connection of the list is expired.
pub AllFresh : ℕ → ℕ → List (FiveTuple × ConntrackEntry) → Type 0
AllFresh now timeout entries =
    All (λ (x : FiveTuple × ConntrackEntry). is_expired now timeout x.1 ≡ false) entries

remove_expired-AllFresh :
    (now timeout : ℕ) (entries : List (FiveTuple × ConntrackEntry))
    → AllFresh now timeout (remove_expired now timeout entries)
unfolding AllFresh remove_expired
remove_expired-AllFresh now timeout [] = tt
remove_expired-AllFresh now timeout (x ∷ entries) =
    ground (arith, remove_expired-AllFresh now timeout entries)

find-remove_expired :
    (now timeout : ℕ) (k : FiveTuple) (e : ConntrackEntry)
    (entries : List (FiveTuple × ConntrackEntry))
    → find k entries ≡ some e
    → is_expired now timeout e ≡ false
    → find k (remove_expired now timeout entries) ≡ some e
unfolding find remove_expired
find-remove_expired now timeout k e [] h fresh = h
find-remove_expired now timeout k e (x ∷ entries) h fresh =
    ground (arith, find-remove_expired now timeout k e entries)

-- A cleanup leaves no expired connection, and keeps each one that is found and not expired as it was.
pub cleanup_expired_lem :
    (t : ConntrackTable) (now timeout : ℕ) (k : FiveTuple) (e : ConntrackEntry)
    → find k t.entries ≡ some e
    → is_expired now timeout e ≡ false
    → AllFresh now timeout (cleanup_expired t now timeout).entries
      × (find k (cleanup_expired t now timeout).entries ≡ some e)
unfolding cleanup_expired
cleanup_expired_lem t now timeout k e h fresh = (
  remove_expired-AllFresh now timeout t.entries,
  find-remove_expired now timeout k e t.entries h fresh,
)

-- The reply to a connection's first packet, with the tuple's ends exchanged.
unfoldable pub reversed : FiveTuple → FiveTuple
reversed t = record t {
  src_ip = t.dst_ip;
  dst_ip = t.src_ip;
  src_port = t.dst_port;
  dst_port = t.src_port;
}

find-assign_other :
    (k j : FiveTuple) (e : ConntrackEntry) (entries : List (FiveTuple × ConntrackEntry))
    → same_tuple j k ≡ false
    → find j entries ≡ none
    → find j (assign k e entries) ≡ none
unfolding find assign
find-assign_other k j e [] other h = ground arith
find-assign_other k j e (x ∷ entries) other h = ground (arith, find-assign_other k j e entries)

-- Where neither direction of a connection is tracked, its first SYN is let through if the table has
-- room, but the answer to it, with ACK and the ends exchanged, is refused.
pub answer_refused :
    (t : ConntrackTable) (pkt answer : PacketMeta)
    → find pkt.tuple t.entries ≡ none
    → find (reversed pkt.tuple) t.entries ≡ none
    → same_tuple (reversed pkt.tuple) pkt.tuple ≡ false
    → has_flag pkt 0x02 ≡ true
    → has_flag pkt 0x10 ≡ false
    → size t < t.max_entries
    → answer.tuple ≡ reversed pkt.tuple
    → has_flag answer 0x10 ≡ true
    → ((process_tcp_packet t pkt).1 ≡ true)
      × ((process_tcp_packet (process_tcp_packet t pkt).0 answer).1 ≡ false)
unfolding process_tcp_packet size
answer_refused t pkt answer new_one no_answer other syn first room ends ack =
    let entry : ConntrackEntry = record {
      state = syn_sent;
      last_seq = pkt.seq;
      last_ack = 0;
      last_seen_ns = pkt.timestamp_ns;
    } in
    let untracked : find answer.tuple (assign pkt.tuple entry t.entries) ≡ none =
      rw ends (find-assign_other pkt.tuple (reversed pkt.tuple) entry t.entries other no_answer) in
    ground (arith, untracked)
