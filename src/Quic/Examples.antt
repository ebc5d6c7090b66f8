-- ===== src/Quic/Examples.antt =====
-- Packets, frames and streams at concrete values, each with the conditions of a theorem.
use odyssey_tasks.Prelude.{
  ℕ, ◌≡◌, inl, inr, refl, Bool, true, false, some, List, [], ◌∷◌, ◌++◌, length, arith,
}
use odyssey_tasks.Quic.Varint.{encoded_length, encoding}
use odyssey_tasks.Quic.Frame.{StreamFrame, stream, parse_frame}
use odyssey_tasks.Quic.Frame.Parse.{stream_wire, parse_frame-stream_wire}
use odyssey_tasks.Quic.Stream
use odyssey_tasks.Quic.Stream.{push_frame, read, push, reads, run}
use odyssey_tasks.Quic.Stream.Content.{run-in_order}
use odyssey_tasks.Quic.Engine
use odyssey_tasks.Quic.Engine.{process_packet}
use odyssey_tasks.Quic.Engine.Packets.{wires, process_packet_ends, process_packet-limits}

abbrev zeros : List ℕ
zeros = 0 ∷ 0 ∷ 0 ∷ 0 ∷ 0 ∷ 0 ∷ 0 ∷ 0 ∷ 7 ∷ []

-- The example of RFC 9000, A.1.
abbrev two_bytes : List ℕ
two_bytes = 0x7b ∷ 0xbd ∷ []

abbrev hello : StreamFrame
hello = record { stream_id = 4; offset = 0; fin = true; payload = 0x68 ∷ 0x69 ∷ [] }

abbrev hello_packet : List ℕ
hello_packet = 0x0b ∷ 4 ∷ 2 ∷ 0x68 ∷ 0x69 ∷ []

parse_frame-stream_wire_example :
    parse_frame (stream_wire false true hello ++ zeros)
    ≡ some (stream hello, length (stream_wire false true hello))
unfolding encoding encoded_length
parse_frame-stream_wire_example =
    parse_frame-stream_wire false true hello zeros (omega arith) (omega arith) (omega arith)
      (inr refl) (inl refl)

process_packet_ends_example :
    (r : Engine.Engine × Bool) × (process_packet (Engine.new 100 10) hello_packet ≡ some r)
process_packet_ends_example =
    process_packet_ends (Engine.new 100 10) hello_packet
      (omega arith, (omega arith, (omega arith, (omega arith, (omega arith, tt))))) (omega arith)

-- 500 is written in two bytes and 70000 in four.
two_limits : wires (500 ∷ 70000 ∷ []) ≡ 0x10 ∷ 0x41 ∷ 0xf4 ∷ 0x10 ∷ 0x80 ∷ 0x01 ∷ 0x11 ∷ 0x70 ∷ []
unfolding encoding encoded_length
two_limits = refl

process_packet-limits_example :
    process_packet (Engine.new 100 10) (wires (500 ∷ 70000 ∷ []))
    ≡ some (record (Engine.new 100 10) { connection_max_data = 70000 }, true)
unfolding Engine.new
process_packet-limits_example =
    process_packet-limits (Engine.new 100 10) (500 ∷ 70000 ∷ []) (omega arith, (omega arith, tt))

-- The content of a stream: each byte is its position.
abbrev content : ℕ → ℕ
content i = i

abbrev part : ℕ → List ℕ → StreamFrame
part offset bytes = record { stream_id = 4; offset = offset; fin = false; payload = bytes }

-- Two frames that overlap, the later first.
run-in_order_example :
    run
      (Stream.new 4)
      (push (part 2 (2 ∷ 3 ∷ [])) ∷ reads 9 ∷ push (part 0 (0 ∷ 1 ∷ 2 ∷ [])) ∷ reads 9 ∷ [])
    ≡ 0 ∷ 1 ∷ 2 ∷ 3 ∷ []
unfolding run push_frame read Stream.new
run-in_order_example =
    run-in_order content 4
      (push (part 2 (2 ∷ 3 ∷ [])) ∷ reads 9 ∷ push (part 0 (0 ∷ 1 ∷ 2 ∷ [])) ∷ reads 9 ∷ [])
      (
        record { slices = refl; fits = omega arith },
        (record { slices = refl; fits = omega arith }, tt),
      )

abbrev loaded : Stream.Stream
loaded = record (Stream.new 4) { segments = (0, 0 ∷ 1 ∷ []) ∷ (2, 2 ∷ 3 ∷ []) ∷ [] }
