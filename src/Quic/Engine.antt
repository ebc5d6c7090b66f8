-- ===== src/Quic/Engine.antt =====
-- quic_engine.hpp and quic_engine.cpp: packets are taken apart into frames, and stream frames pushed
-- to their streams. `streams` holds the stream objects, which callers share by their ids.
pub mod Packets
use odyssey_tasks.Prelude.{
  ℕ, zero, suc, ◌+◌, ◌%◌, ◌^◌, max, Bool, true, false, Option, none, some, List, [], ◌∷◌, ◌++◌,
  length, drop, ltb, if◌then◌else◌,
}
use odyssey_tasks.Prelude.Dict.{lookup, insert}
use odyssey_tasks.Quic.Frame.{
  Frame, StreamFrame, stream, max_data, ack, max_stream_data, reset_stream, parse_frame,
  serialize_frame,
}
use odyssey_tasks.Quic.Stream
use odyssey_tasks.Quic.Stream.{Stream, push_frame}

pub record Engine : Type 0 where
  pub connection_max_data : ℕ
  pub initial_max_stream_data : ℕ
  pub bytes_received : ℕ
  pub streams : List (ℕ × Stream)
  pub pending_control_frames : List Frame

unfoldable pub new : ℕ → ℕ → Engine
new initial_max_data initial_max_stream_data = record {
  connection_max_data = initial_max_data;
  initial_max_stream_data = initial_max_stream_data;
  bytes_received = 0;
  streams = [];
  pending_control_frames = [];
}

-- The stream with this id, created where it is missing.
get_stream : Engine → ℕ → Engine × Stream
get_stream e stream_id = elim (lookup stream_id e.streams) [
  | some s ↦ (e, s)
  | none ↦ let s = Stream.new stream_id in (record e { streams = insert stream_id s e.streams }, s)
]

-- `push_frame` changes the shared object, which is written back under its id.
receive : Engine → StreamFrame → Engine × Bool
unfolding get_stream
receive e frame =
    let (e', s) = get_stream e frame.stream_id in
    let (s', done) = push_frame s frame in
    let stored : Engine = record e' { streams = insert frame.stream_id s' e'.streams } in
    if done
    then (
      record stored { bytes_received = (e'.bytes_received + length frame.payload) % 2 ^ 64 },
      true,
    )
    else (stored, false)

unfoldable pub handle_frame : Engine → Frame → Engine × Bool
unfolding receive
handle_frame e (stream frame) = receive e frame
handle_frame e (max_data maximum) =
    (record e { connection_max_data = max e.connection_max_data maximum }, true)
handle_frame e (ack frame) = (e, true)
handle_frame e (max_stream_data frame) = (e, true)
handle_frame e (reset_stream frame) = (e, true)

-- `none` means that the fuel ran out.
packet_loop : ℕ → Engine → List ℕ → ℕ → Option (Engine × Bool)
packet_loop zero e packet offset = none
packet_loop (suc fuel) e packet offset =
    if ltb offset (length packet)
    then (elim (parse_frame (drop offset packet)) [
      | none ↦ some (e, false)
      | some (frame, size) ↦
          let r = handle_frame e frame in
          elim r.1 [
            | true ↦ packet_loop fuel r.0 packet (offset + size)
            | false ↦ some (r.0, false)
          ]
    ])
    else some (e, true)

-- Each frame takes at least one byte, and one more round ends the loop.
unfoldable pub process_packet : Engine → List ℕ → Option (Engine × Bool)
unfolding packet_loop
process_packet e packet = packet_loop (suc (length packet)) e packet 0

-- `bufs` gives the uninitialised buffer of each call of `SerializeFrame`.
serialize_all : (ℕ → List ℕ) → ℕ → List Frame → List ℕ
serialize_all bufs k [] = []
serialize_all bufs k (f ∷ fs) = serialize_frame (bufs k) f ++ serialize_all bufs (suc k) fs

unfoldable pub generate_control_frames : (ℕ → List ℕ) → Engine → Engine × List ℕ
unfolding serialize_all
generate_control_frames bufs e =
    (record e { pending_control_frames = [] }, serialize_all bufs 0 e.pending_control_frames)
