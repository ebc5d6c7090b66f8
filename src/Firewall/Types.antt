-- ===== src/Firewall/Types.antt =====
-- firewall_types.hpp: packets and verdicts. The integers are below 2 ^ 8, 2 ^ 16, 2 ^ 32 or 2 ^ 64.
use odyssey_tasks.Prelude.{ℕ, Bool, ◌&&◌, ◌==◌}

pub data XdpAction : Type 0 where
  xdp_aborted xdp_drop xdp_pass xdp_tx xdp_redirect : XdpAction

pub data TcpState : Type 0 where
  closed syn_sent syn_recv established fin_wait time_wait : TcpState

pub record FiveTuple : Type 0 where
  pub src_ip : ℕ
  pub dst_ip : ℕ
  pub src_port : ℕ
  pub dst_port : ℕ
  pub protocol : ℕ

-- `operator==`
unfoldable pub same_tuple : FiveTuple → FiveTuple → Bool
same_tuple a b =
    a.src_ip == b.src_ip
    && (a.dst_ip == b.dst_ip
        && (a.src_port == b.src_port && (a.dst_port == b.dst_port && a.protocol == b.protocol)))

pub record PacketMeta : Type 0 where
  pub tuple : FiveTuple
  pub tcp_flags : ℕ
  pub seq : ℕ
  pub ack : ℕ
  pub payload_len : ℕ
  pub timestamp_ns : ℕ
