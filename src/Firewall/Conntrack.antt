-- ===== src/Firewall/Conntrack.antt =====
-- conntrack.hpp and conntrack.cpp: the table of connections. Each method holds the table's mutex from
-- start to end. The hash map is an association list, and its hash function is left out.
pub mod Table
use Prim.Native.Nat.{bit_and}
use odyssey_tasks.Prelude.{
  ℕ, ◌+◌, ◌%◌, ◌^◌, Bool, true, false, ◌&&◌, not, Option, none, some, List, [], ◌∷◌, length, ltb,
  ◌==◌, if◌then◌else◌,
}
use odyssey_tasks.Firewall.Types.{
  TcpState, closed, syn_sent, syn_recv, established, fin_wait, time_wait, FiveTuple, same_tuple,
  PacketMeta,
}

pub record ConntrackEntry : Type 0 where
  pub state : TcpState
  pub last_seq : ℕ
  pub last_ack : ℕ
  pub last_seen_ns : ℕ

pub record ConntrackTable : Type 0 where
  pub max_entries : ℕ
  pub entries : List (FiveTuple × ConntrackEntry)

unfoldable pub new : ℕ → ConntrackTable
new max_entries = record { max_entries = max_entries; entries = [] }

unfoldable pub find : FiveTuple → List (FiveTuple × ConntrackEntry) → Option ConntrackEntry
find t [] = none
find t (entry ∷ entries) =
    let later = find t entries in if same_tuple t entry.0 then some entry.1 else later

-- `entries_[tuple] = entry`
unfoldable pub assign :
    FiveTuple
    → ConntrackEntry
    → List (FiveTuple × ConntrackEntry)
    → List (FiveTuple × ConntrackEntry)
assign t e [] = (t, e) ∷ []
assign t e (entry ∷ entries) =
    let rest = assign t e entries in
    if same_tuple t entry.0 then (entry.0, e) ∷ entries else entry ∷ rest

unfoldable pub erase :
    FiveTuple → List (FiveTuple × ConntrackEntry) → List (FiveTuple × ConntrackEntry)
erase t [] = []
erase t (entry ∷ entries) =
    let rest = erase t entries in if same_tuple t entry.0 then entries else entry ∷ rest

abbrev pub has_flag : PacketMeta → ℕ → Bool
has_flag pkt mask = not (bit_and pkt.tcp_flags mask == 0)

-- The branches on the state of a tracked connection, for the flags SYN, ACK and FIN.
unfoldable pub next_state : TcpState → Bool → Bool → Bool → TcpState
next_state syn_sent true true fin = syn_recv
next_state syn_recv syn true fin = established
next_state state syn ack true = fin_wait
next_state state syn ack false = state

unfoldable pub process_tcp_packet : ConntrackTable → PacketMeta → ConntrackTable × Bool
process_tcp_packet t pkt =
    let syn = has_flag pkt 0x02 in
    let ack = has_flag pkt 0x10 in
    let fin = has_flag pkt 0x01 in
    let rst = has_flag pkt 0x04 in
    elim (find pkt.tuple t.entries) [
      | none ↦
          if syn && not ack
          then if ltb (length t.entries) t.max_entries
            then (
              record t {
                entries =
                    assign pkt.tuple
                      (record {
                        state = syn_sent;
                        last_seq = pkt.seq;
                        last_ack = 0;
                        last_seen_ns = pkt.timestamp_ns;
                      })
                      t.entries;
              },
              true,
            )
            else (t, false)
          else (t, false)
      | some entry ↦ if rst then (record t { entries = erase pkt.tuple t.entries }, true) else (
        record t {
          entries =
              assign pkt.tuple
                (record entry {
                  state = next_state entry.state syn ack fin;
                  last_seen_ns = pkt.timestamp_ns;
                })
                t.entries;
        },
        true,
      )
    ]

-- The comparison of `CleanupExpired`, with its sum of two uint64_t.
abbrev pub is_expired : ℕ → ℕ → ConntrackEntry → Bool
is_expired current_time_ns timeout_ns entry =
    ltb ((entry.last_seen_ns + timeout_ns) % 2 ^ 64) current_time_ns

unfoldable pub remove_expired :
    ℕ → ℕ → List (FiveTuple × ConntrackEntry) → List (FiveTuple × ConntrackEntry)
remove_expired current_time_ns timeout_ns [] = []
remove_expired current_time_ns timeout_ns (entry ∷ entries) =
    let rest = remove_expired current_time_ns timeout_ns entries in
    if is_expired current_time_ns timeout_ns entry.1 then rest else entry ∷ rest

unfoldable pub cleanup_expired : ConntrackTable → ℕ → ℕ → ConntrackTable
cleanup_expired t current_time_ns timeout_ns = record t {
  entries = remove_expired current_time_ns timeout_ns t.entries;
}

unfoldable pub size : ConntrackTable → ℕ
size t = length t.entries

pub data Call : Type 0 where
  packet : PacketMeta → Call
  cleanup : ℕ → ℕ → Call

unfoldable pub run : ConntrackTable → List Call → ConntrackTable
run t [] = t
run t (packet pkt ∷ calls) = run (process_tcp_packet t pkt).0 calls
run t (cleanup now timeout ∷ calls) = run (cleanup_expired t now timeout) calls
