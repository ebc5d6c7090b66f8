-- ===== src/Firewall/Engine.antt =====
-- rate_limiter.hpp, rate_limiter.cpp, firewall_engine.hpp and firewall_engine.cpp: the token buckets
-- and the pipeline of a packet. Floating point numbers are a parameter, `Double`.
pub mod Pipeline
use Prim.Native.Nat.{bit_and}
use odyssey_tasks.Prelude.{
  ℕ, ◌+◌, ◌-◌, ◌%◌, ◌^◌, Bool, true, false, Option, none, some, List, [], ◌∷◌, ◌==◌, if◌then◌else◌,
}
use odyssey_tasks.Prelude.Dict.{lookup, insert}
use odyssey_tasks.Firewall.Types.{XdpAction, xdp_drop, xdp_pass, PacketMeta}
use odyssey_tasks.Firewall.Conntrack
use odyssey_tasks.Firewall.Conntrack.{ConntrackTable, process_tcp_packet}

-- What the limiter uses of `double`; `seconds` is a number of nanoseconds divided by 1e9.
pub record Double : Type 1 where
  pub carrier : Type 0
  pub add : carrier → carrier → carrier
  pub sub : carrier → carrier → carrier
  pub mul : carrier → carrier → carrier
  pub less : carrier → carrier → Bool
  pub greater_equal : carrier → carrier → Bool
  pub seconds : ℕ → carrier
  pub of_nat : ℕ → carrier

module _ (D : Double) where
  pub record TokenBucket : Type 0 where
    pub tokens : D.carrier
    pub max_capacity : D.carrier
    pub rate_per_sec : D.carrier
    pub last_update_ns : ℕ

  pub record RateLimiter : Type 0 where
    pub default_rate : D.carrier
    pub default_burst : D.carrier
    pub buckets : List (ℕ × TokenBucket)

  -- `std::min(a, b)`
  unfoldable pub minimum : D.carrier → D.carrier → D.carrier
  minimum a b = if D.less b a then b else a

  -- The bucket that `buckets_[subnet]` creates.
  unfoldable pub fresh_bucket : TokenBucket
  fresh_bucket = record {
    tokens = D.of_nat 0;
    max_capacity = D.of_nat 1000;
    rate_per_sec = D.of_nat 1000;
    last_update_ns = 0;
  }

  unfoldable pub bucket_of : RateLimiter → ℕ → TokenBucket
  bucket_of l subnet = elim (lookup subnet l.buckets) [ none ↦ fresh_bucket | some b ↦ b ]

  -- A bucket before the packet's cost is taken off.
  unfoldable pub refill : RateLimiter → TokenBucket → ℕ → TokenBucket
  refill l b timestamp_ns =
      if b.last_update_ns == 0
      then record {
        tokens = l.default_burst;
        max_capacity = l.default_burst;
        rate_per_sec = l.default_rate;
        last_update_ns = timestamp_ns;
      }
      else record b {
        tokens = minimum b.max_capacity (
            D.add b.tokens (
              D.mul (D.seconds ((timestamp_ns + 2 ^ 64 - b.last_update_ns) % 2 ^ 64))
                b.rate_per_sec));
        last_update_ns = timestamp_ns;
      }

  unfoldable pub allow_packet : RateLimiter → ℕ → ℕ → D.carrier → RateLimiter × Bool
  allow_packet l subnet timestamp_ns cost =
      let b = refill l (bucket_of l subnet) timestamp_ns in
      if D.greater_equal b.tokens cost
      then (
        record l { buckets = insert subnet (record b { tokens = D.sub b.tokens cost }) l.buckets },
        true,
      )
      else (record l { buckets = insert subnet b l.buckets }, false)

  pub record FirewallEngine : Type 0 where
    pub conntrack : ConntrackTable
    pub rate_limiter : RateLimiter

  unfoldable pub new : FirewallEngine
  new = record {
    conntrack = Conntrack.new 1000000;
    rate_limiter = record {
      default_rate = D.of_nat 1000;
      default_burst = D.of_nat 2000;
      buckets = [];
    };
  }

  abbrev pub subnet_of : PacketMeta → ℕ
  subnet_of pkt = bit_and pkt.tuple.src_ip 0xFFFFFF00

  unfoldable pub process_packet : FirewallEngine → PacketMeta → FirewallEngine × XdpAction
  process_packet e pkt =
      let limited = allow_packet e.rate_limiter (subnet_of pkt) pkt.timestamp_ns (D.of_nat 1) in
      let tracked = process_tcp_packet e.conntrack pkt in
      if limited.1
      then if pkt.tuple.protocol == 6
        then (
          record { conntrack = tracked.0; rate_limiter = limited.0 },
          if tracked.1 then xdp_pass else xdp_drop,
        )
        else (record e { rate_limiter = limited.0 }, xdp_pass)
      else (record e { rate_limiter = limited.0 }, xdp_drop)
