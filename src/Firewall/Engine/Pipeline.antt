-- ===== src/Firewall/Engine/Pipeline.antt =====
-- The verdict on a packet.
use odyssey_tasks.Prelude.{◌<◌, ◌≡◌, ◌≢◌, ◌⊎◌, ◌↔◌, true, false, none, arith}
use odyssey_tasks.Firewall.Types.{xdp_pass, PacketMeta}
use odyssey_tasks.Firewall.Conntrack.{find, has_flag, size}
use odyssey_tasks.Firewall.Conntrack.Table.{process_tcp_packet_accepts}
use odyssey_tasks.Firewall.Engine.{Double, FirewallEngine, allow_packet, subnet_of, process_packet}

-- A packet passes exactly when its subnet has a token left and it is no TCP packet, belongs to a
-- tracked connection, or opens one (SYN without ACK) in a table with room.
pub process_packet_pass :
    (D : Double) (e : FirewallEngine D) (pkt : PacketMeta)
    → ((process_packet D e pkt).1 ≡ xdp_pass) ↔ (
        ((allow_packet D e.rate_limiter (subnet_of D pkt) pkt.timestamp_ns (D.of_nat 1)).1 ≡ true)
        × ((pkt.tuple.protocol ≢ 6)
            ⊎ ((find pkt.tuple e.conntrack.entries ≢ none)
                ⊎ ((has_flag pkt 0x02 ≡ true)
                    × (has_flag pkt 0x10 ≡ false)
                    × (size e.conntrack < e.conntrack.max_entries)))))
unfolding process_packet
process_packet_pass D e pkt =
    let accepts = process_tcp_packet_accepts e.conntrack pkt in
    (λ h. ground (arith, accepts), λ h. ground (arith, accepts))
