-- ===== src/Quic/Stream/Content.antt =====
-- Reading delivers the stream's content in order: the byte at each position of the stream is given
-- by a function `content`, and every segment holds a slice of it.
use odyssey_tasks.Prelude.{
  ℕ, zero, suc, ◌+◌, ◌-◌, ◌%◌, ◌^◌, ◌<◌, ◌≤◌, ◌≡◌, ◌⊎◌, inr, refl, ap, ap₂, ◌∙◌, min, List, [], ◌∷◌,
  ◌++◌, length, length-append, take, drop, arith,
}
use odyssey_tasks.Quic.Frame.{StreamFrame}
use odyssey_tasks.Quic.Stream.{
  Stream, Reading, new, store, store_payload, push_frame, read_loop, read, Call, push, reads, run,
}

-- The `n` bytes of the content from position `i` on.
abbrev pub slice : (ℕ → ℕ) → ℕ → ℕ → List ℕ
slice content i zero = []
slice content i (suc n) = content i ∷ slice content (suc i) n

module _ (content : ℕ → ℕ) where
  -- A segment at `start` holds the content there, and ends below 2 ^ 64.
  pub record IsSegment (start : ℕ) (bytes : List ℕ) : Type 0 where
    pub slices : bytes ≡ slice content start (length bytes)
    pub fits : start + length bytes < 2 ^ 64

  abbrev pub AllSegments : List (ℕ × List ℕ) → Type 0
  AllSegments [] = Unit {0}
  AllSegments ((start, bytes) ∷ segments) = IsSegment start bytes × AllSegments segments

  length-slice : (i n : ℕ) → length (slice content i n) ≡ n
  length-slice i zero = refl
  length-slice i (suc n) = ap suc (length-slice (suc i) n)

  slice-append :
      (i n m : ℕ) → slice content i n ++ slice content (i + n) m ≡ slice content i (n + m)
  slice-append i zero m =
      let e : i + 0 ≡ i = omega arith in rw e (let f : 0 + m ≡ m = omega arith in rw f)
  slice-append i (suc n) m =
      let e : i + suc n ≡ suc i + n = omega arith in
      let f : suc n + m ≡ suc (n + m) = omega arith in
      rw (e, f) (ap (◌∷◌ (content i)) (slice-append (suc i) n m))

  take-slice : (c i n : ℕ) → c ≤ n → take c (slice content i n) ≡ slice content i c
  take-slice zero i n h = refl
  take-slice (suc c) i zero h = absurd (omega arith)
  take-slice (suc c) i (suc n) h = ap (◌∷◌ (content i)) (take-slice c (suc i) n (omega arith))

  drop-slice : (o i n : ℕ) → o ≤ n → drop o (slice content i n) ≡ slice content (i + o) (n - o)
  drop-slice zero i n h =
      let e : i + 0 ≡ i = omega arith in let f : n - 0 ≡ n = omega arith in rw (e, f)
  drop-slice (suc o) i zero h = absurd (omega arith)
  drop-slice (suc o) i (suc n) h =
      let e : i + suc o ≡ suc i + o = omega arith in
      let f : suc n - suc o ≡ n - o = omega arith in
      rw (e, f) (drop-slice o (suc i) n (omega arith))

  -- The part of a segment that is copied holds the content from the read position on.
  copied :
      (start r c : ℕ) (bytes : List ℕ)
      → IsSegment start bytes
      → start ≤ r
      → r - start + c ≤ length bytes
      → take c (drop (r - start) bytes) ≡ slice content r c
  copied start r c bytes seg h k =
      let at : start + (r - start) ≡ r = omega arith in
      ap (λ (l : List ℕ). take c (drop (r - start) l)) seg.slices
      ∙ ap (take c) (drop-slice (r - start) start (length bytes) (omega arith))
      ∙ rw at (take-slice c r (length bytes - (r - start)) (omega arith))

  -- The first segment that is left begins behind the read position.
  abbrev pub Waits : ℕ → List (ℕ × List ℕ) → Type 0
  Waits r [] = Unit {0}
  Waits r ((start, bytes) ∷ segments) = r < start

  pub record Delivers (from max_bytes : ℕ) (r : Reading) : Type 0 where
    pub in_order : r.result ≡ slice content from (length r.result)
    pub position : r.bytes_read ≡ from + length r.result
    pub small : r.bytes_read < 2 ^ 64
    pub bounded : length r.result ≤ max_bytes
    pub kept : AllSegments r.segments
    pub maximal : (length r.result ≡ max_bytes) ⊎ Waits r.bytes_read r.segments

  extend :
      (from r c : ℕ) (result : List ℕ) (start : ℕ) (bytes : List ℕ)
      → result ≡ slice content from (length result)
      → r ≡ from + length result
      → IsSegment start bytes
      → start ≤ r
      → r - start + c ≤ length bytes
      → (result ++ take c (drop (r - start) bytes)
          ≡ slice content from (length (result ++ take c (drop (r - start) bytes))))
        × (length (result ++ take c (drop (r - start) bytes)) ≡ length result + c)
  extend from r c result start bytes e p seg h k =
      let part = copied start r c bytes seg h k in
      let size : length (result ++ take c (drop (r - start) bytes)) ≡ length result + c = omega (
        arith,
        length-append result (take c (drop (r - start) bytes)),
        ap length part,
        length-slice r c,
      ) in
      let joined : result ++ slice content r c ≡ slice content from (length result + c) = rw p (
        ap (λ (l : List ℕ). l ++ slice content (from + length result) c) e
        ∙ slice-append from (length result) c) in
      (rw size (ap (◌++◌ result) part ∙ joined), size)

  read_loop-Delivers :
      (max_bytes from r : ℕ) (segments : List (ℕ × List ℕ)) (result : List ℕ)
      → AllSegments segments
      → result ≡ slice content from (length result)
      → r ≡ from + length result
      → r < 2 ^ 64
      → length result ≤ max_bytes
      → Delivers from max_bytes (read_loop max_bytes segments r result)
  unfolding read_loop
  read_loop-Delivers max_bytes from r [] result segs e p w b = record {
    in_order = e;
    position = p;
    small = w;
    bounded = b;
    kept = tt;
    maximal = inr tt;
  }
  read_loop-Delivers max_bytes from r ((start, bytes) ∷ segments) result segs e p w b =
      let c : ℕ = min (length bytes - (r - start)) (max_bytes - length result) in
      let result' : List ℕ = result ++ take c (drop (r - start) bytes) in
      ground (
        arith,
        segs.0,
        extend from r c result start bytes e p segs.0,
        read_loop-Delivers max_bytes from r segments result segs.1 e p w b,
        read_loop-Delivers max_bytes from ((r + c) % 2 ^ 64) segments result' segs.1,
      )

  -- Reading from segments that hold slices of the content, at a position below 2 ^ 64, delivers the
  -- bytes that follow those read before: as many as were asked for, or fewer where what is left waits
  -- for missing bytes. The position moves by as much, and the segments left hold slices.
  pub read-Delivers :
      (s : Stream) (max_bytes : ℕ)
      → AllSegments s.segments
      → s.bytes_read < 2 ^ 64
      → Delivers s.bytes_read max_bytes (record {
        segments = (read s max_bytes).0.segments;
        bytes_read = (read s max_bytes).0.bytes_read;
        result = (read s max_bytes).1;
      })
  unfolding read
  read-Delivers s max_bytes segs w =
      read_loop-Delivers max_bytes s.bytes_read s.bytes_read s.segments [] segs refl (omega arith) w
        (omega arith)

  store-AllSegments :
      (offset : ℕ) (bytes : List ℕ) (segments : List (ℕ × List ℕ))
      → IsSegment offset bytes
      → AllSegments segments
      → AllSegments (store offset bytes segments)
  unfolding store
  store-AllSegments offset bytes [] seg segs = (seg, tt)
  store-AllSegments offset bytes ((start, old) ∷ segments) seg segs =
      ground (arith, seg, segs, store-AllSegments offset bytes segments seg segs.1)

  store_payload-AllSegments :
      (offset : ℕ) (bytes : List ℕ) (segments : List (ℕ × List ℕ))
      → IsSegment offset bytes
      → AllSegments segments
      → AllSegments (store_payload offset bytes segments)
  unfolding store_payload
  store_payload-AllSegments offset [] segments seg segs = segs
  store_payload-AllSegments offset (b ∷ bytes) segments seg segs =
      store-AllSegments offset (b ∷ bytes) segments seg segs

  push_frame-AllSegments :
      (s : Stream) (frame : StreamFrame)
      → IsSegment frame.offset frame.payload
      → AllSegments s.segments
      → AllSegments (push_frame s frame).0.segments
        × ((push_frame s frame).0.bytes_read ≡ s.bytes_read)
  unfolding push_frame
  push_frame-AllSegments s frame seg segs =
      ground (arith, store_payload-AllSegments frame.offset frame.payload s.segments seg segs)

  -- The frames among the calls are of one sender's content.
  abbrev pub AllSent : List Call → Type 0
  AllSent [] = Unit {0}
  AllSent (push frame ∷ calls) = IsSegment frame.offset frame.payload × AllSent calls
  AllSent (reads max_bytes ∷ calls) = AllSent calls

  joined :
      (from : ℕ) (xs ys : List ℕ)
      → xs ≡ slice content from (length xs)
      → ys ≡ slice content (from + length xs) (length ys)
      → xs ++ ys ≡ slice content from (length (xs ++ ys))
  joined from xs ys e f =
      rw (length-append xs ys) (ap₂ ◌++◌ e f ∙ slice-append from (length xs) (length ys))

  run_from-in_order :
      (from : ℕ) (s : Stream) (calls : List Call)
      → s.bytes_read ≡ from
      → AllSent calls
      → AllSegments s.segments
      → from < 2 ^ 64
      → run s calls ≡ slice content from (length (run s calls))
  unfolding run
  run_from-in_order from s [] p sent segs w = refl
  run_from-in_order from s (push frame ∷ calls) p sent segs w =
      let (segs', same) = push_frame-AllSegments s frame sent.0 segs in
      run_from-in_order from (push_frame s frame).0 calls (same ∙ p) sent.1 segs' w
  run_from-in_order from s (reads max_bytes ∷ calls) p sent segs w =
      let d = read-Delivers s max_bytes segs (omega arith) in
      let first : (read s max_bytes).1 ≡ slice content from (length (read s max_bytes).1) =
        d.in_order ∙ ap (λ (i : ℕ). slice content i (length (read s max_bytes).1)) p in
      joined from (read s max_bytes).1 (run (read s max_bytes).0 calls) first (
        run_from-in_order (from + length (read s max_bytes).1) (read s max_bytes).0 calls
          (omega (arith, d.position)) sent d.kept (omega (arith, d.position, d.small)))

  -- All that is ever read from a new stream, over any pushes of one sender's frames (each a slice
  -- of the content that ends below 2 ^ 64) in any order and any reads, is a prefix of the content.
  pub run-in_order :
      (stream_id : ℕ) (calls : List Call)
      → AllSent calls
      → run (new stream_id) calls ≡ slice content 0 (length (run (new stream_id) calls))
  unfolding new
  run-in_order stream_id calls sent = run_from-in_order 0 _ calls refl sent tt (omega arith)
