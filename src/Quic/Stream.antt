-- ===== src/Quic/Stream.antt =====
-- quic_stream.hpp and quic_stream.cpp: the segments of one stream, ordered by their offsets as in a
-- `std::map`, and the bytes that are read from them.
pub mod Content
pub mod Loss
use odyssey_tasks.Prelude.{
  ℕ, ◌+◌, ◌-◌, ◌%◌, ◌^◌, min, Bool, true, false, ◌&&◌, List, [], ◌∷◌, ◌++◌, length, take, drop, ltb,
  leb, ◌==◌, if◌then◌else◌,
}
use odyssey_tasks.Quic.Frame.{StreamFrame}

pub record Stream : Type 0 where
  pub stream_id : ℕ
  pub bytes_read : ℕ
  pub fin_received : Bool
  pub final_size : ℕ
  pub segments : List (ℕ × List ℕ)

unfoldable pub new : ℕ → Stream
new stream_id = record {
  stream_id = stream_id;
  bytes_read = 0;
  fin_received = false;
  final_size = 2 ^ 64 - 1;
  segments = [];
}

-- `segments_[offset] = bytes`
store : ℕ → List ℕ → List (ℕ × List ℕ) → List (ℕ × List ℕ)
store offset bytes [] = (offset, bytes) ∷ []
store offset bytes ((start, old) ∷ segments) =
    if offset == start
    then (offset, bytes) ∷ segments
    else if ltb offset start
    then (offset, bytes) ∷ (start, old) ∷ segments
    else (start, old) ∷ store offset bytes segments

-- `if (!frame.data.empty()) segments_[frame.offset] = frame.data;`
store_payload : ℕ → List ℕ → List (ℕ × List ℕ) → List (ℕ × List ℕ)
unfolding store
store_payload offset [] segments = segments
store_payload offset (b ∷ bytes) segments = store offset (b ∷ bytes) segments

unfoldable pub push_frame : Stream → StreamFrame → Stream × Bool
unfolding store_payload
push_frame s frame =
    if frame.stream_id == s.stream_id
    then (
      record s {
        fin_received = if frame.fin then true else s.fin_received;
        final_size =
            if frame.fin then (frame.offset + length frame.payload) % 2 ^ 64 else s.final_size;
        segments = store_payload frame.offset frame.payload s.segments;
      },
      true,
    )
    else (s, false)

-- The variables of the loop in `Read`.
pub record Reading : Type 0 where
  pub segments : List (ℕ × List ℕ)
  pub bytes_read : ℕ
  pub result : List ℕ

-- Every round erases the first segment or ends the loop, so the recursion is on the segments.
read_loop : ℕ → List (ℕ × List ℕ) → ℕ → List ℕ → Reading
read_loop max_bytes [] bytes_read result = record {
  segments = [];
  bytes_read = bytes_read;
  result = result;
}
read_loop max_bytes ((start, bytes) ∷ segments) bytes_read result =
    let stop : Reading = record {
      segments = (start, bytes) ∷ segments;
      bytes_read = bytes_read;
      result = result;
    } in
    let seg_end = (start + length bytes) % 2 ^ 64 in
    let skip = read_loop max_bytes segments bytes_read result in
    let offset_in_data = bytes_read - start in
    let to_copy = min (length bytes - offset_in_data) (max_bytes - length result) in
    let result' = result ++ take to_copy (drop offset_in_data bytes) in
    let bytes_read' = (bytes_read + to_copy) % 2 ^ 64 in
    let partial : Reading = record {
      segments = (start, bytes) ∷ segments;
      bytes_read = bytes_read';
      result = result';
    } in
    let more = read_loop max_bytes segments bytes_read' result' in
    if ltb (length result) max_bytes && leb start bytes_read
    then if ltb bytes_read seg_end
      then if ltb (offset_in_data + to_copy) (length bytes) then partial else more
      else skip
    else stop

unfoldable pub read : Stream → ℕ → Stream × List ℕ
unfolding read_loop
read s max_bytes =
    let r = read_loop max_bytes s.segments s.bytes_read [] in
    (record s { segments = r.segments; bytes_read = r.bytes_read }, r.result)

unfoldable pub is_finished : Stream → Bool
is_finished s = s.fin_received && s.bytes_read == s.final_size

-- The calls that a user of a stream makes, and all the bytes that they read.
pub data Call : Type 0 where
  push : StreamFrame → Call
  reads : ℕ → Call

unfoldable pub run : Stream → List Call → List ℕ
run s [] = []
run s (push frame ∷ calls) = run (push_frame s frame).0 calls
run s (reads max_bytes ∷ calls) = (read s max_bytes).1 ++ run (read s max_bytes).0 calls
