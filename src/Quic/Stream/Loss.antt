-- ===== src/Quic/Stream/Loss.antt =====
-- A frame replaces the segment that begins where it begins, also a longer one.
use odyssey_tasks.Prelude.{
  take-length, ℕ, ◌-◌, ◌^◌, ◌<◌, ◌≤◌, ◌≡◌, min, false, List, [], ◌∷◌, length, arith,
}
use odyssey_tasks.Quic.Frame.{StreamFrame}
use odyssey_tasks.Quic.Stream.{new, push_frame, read, Stream}

-- A frame at the start of a stream, with more to come.
abbrev pub opening : ℕ → List ℕ → StreamFrame
opening stream_id bytes = record { stream_id = stream_id; offset = 0; fin = false; payload = bytes }

abbrev pub pushed_twice : ℕ → List ℕ → List ℕ → Stream
pushed_twice stream_id first second =
    (push_frame (push_frame (new stream_id) (opening stream_id first)).0
      (opening stream_id second)).0

-- Where a new stream gets a frame and then a shorter one at the same offset, with data that agrees,
-- a reader with room for all gets the shorter data only, and nothing more after it.
pub shorter_frame_loses :
    (stream_id max_bytes x y : ℕ) (xs ys : List ℕ)
    → length (y ∷ ys) < length (x ∷ xs)
    → length (x ∷ xs) ≤ max_bytes
    → max_bytes < 2 ^ 64
    → ((read (pushed_twice stream_id (x ∷ xs) (y ∷ ys)) max_bytes).1 ≡ y ∷ ys)
      × ((read (pushed_twice stream_id (x ∷ xs) (y ∷ ys)) max_bytes).0.segments ≡ [])
unfolding new push_frame read
shorter_frame_loses stream_id max_bytes x y xs ys less room small =
    ground (arith, take-length (y ∷ ys) (min (length (y ∷ ys) - 0) (max_bytes - 0)))
