-- ===== src/Firewall/Examples.antt =====
-- Packets at a firewall, each with the conditions of a theorem.
use odyssey_tasks.Prelude.{ℕ, ◌+◌, ◌*◌, ◌-◌, ◌/◌, ◌≤◌, ◌≡◌, [], ◌∷◌, ltb, leb, arith}
use odyssey_tasks.Firewall.Types.{syn_recv, FiveTuple, PacketMeta}
use odyssey_tasks.Firewall.Conntrack
use odyssey_tasks.Firewall.Conntrack.{
  ConntrackEntry, ConntrackTable, packet, cleanup, find, has_flag, process_tcp_packet, is_expired,
  cleanup_expired, size, run,
}
use odyssey_tasks.Firewall.Conntrack.Table.{run-size-le, reversed}
use odyssey_tasks.Firewall.Engine.{Double, TokenBucket, RateLimiter}

abbrev client : FiveTuple
client = record {
  src_ip = 0x0A000001;
  dst_ip = 0xC0A80001;
  src_port = 40000;
  dst_port = 443;
  protocol = 6;
}

abbrev opening : PacketMeta
opening = record {
  tuple = client;
  tcp_flags = 2;
  seq = 7;
  ack = 0;
  payload_len = 0;
  timestamp_ns = 5;
}

abbrev answer : PacketMeta
answer = record opening { tuple = reversed client; tcp_flags = 18; timestamp_ns = 6 }

abbrev entry : ConntrackEntry
entry = record { state = syn_recv; last_seq = 7; last_ack = 0; last_seen_ns = 5 }

abbrev table : ConntrackTable
table = record { max_entries = 2; entries = (client, entry) ∷ [] }

run-size-le_example :
    (size (run (Conntrack.new 1) (packet opening ∷ packet answer ∷ cleanup 9 1 ∷ [])) ≤ 1)
    × ((run (Conntrack.new 1) (packet opening ∷ packet answer ∷ cleanup 9 1 ∷ [])).max_entries ≡ 1)
unfolding size Conntrack.new
run-size-le_example =
    run-size-le (Conntrack.new 1) (packet opening ∷ packet answer ∷ cleanup 9 1 ∷ []) (omega arith)

-- Whole numbers as tokens.
abbrev whole : Double
whole = record {
  carrier = ℕ;
  add = λ x y. x + y;
  sub = λ x y. x - y;
  mul = λ x y. x * y;
  less = ltb;
  greater_equal = λ x y. leb y x;
  seconds = λ n. n / 1000000000;
  of_nat = λ n. n;
}

abbrev bucket : TokenBucket whole
bucket = record { tokens = 3; max_capacity = 10; rate_per_sec = 5; last_update_ns = 1 }

abbrev limiter : RateLimiter whole
limiter = record { default_rate = 5; default_burst = 10; buckets = [] }
