-- ===== src/Quic/Engine/Packets.antt =====
-- Whole packets: that their processing ends, and what it leaves in the engine.
use mathlib.Core.List.{append_assoc}
use odyssey_tasks.Prelude.{
  ℕ, zero, suc, ◌+◌, ◌^◌, ◌<◌, ◌≤◌, ◌≡◌, inl, inr, refl, sym, ap, ◌∙◌, max, Bool, true, false, some,
  List, [], ◌∷◌, ◌++◌, length, length-append, length-drop, All, drop, drop-append, ltb, ltb→lt,
  arith, Option-cases, Bool-cases,
}
use odyssey_tasks.Quic.Varint.{IsByte}
use odyssey_tasks.Quic.Frame.{Frame, max_data, parse_frame}
use odyssey_tasks.Quic.Frame.Parse.{parse_frame_bounds, max_data_wire, parse_frame-max_data_wire}
use odyssey_tasks.Quic.Engine.{Engine, handle_frame, packet_loop, process_packet}

All-drop : (n : ℕ) (xs : List ℕ) → All IsByte xs → All IsByte (drop n xs)
All-drop zero xs h = h
All-drop (suc n) [] h = tt
All-drop (suc n) (x ∷ xs) h = All-drop n xs h.1

packet_loop_ends :
    (fuel : ℕ) (e : Engine) (packet : List ℕ) (offset : ℕ)
    → All IsByte packet
    → length packet < 2 ^ 63
    → offset ≤ length packet
    → length packet < fuel + offset
    → (r : Engine × Bool) × (packet_loop fuel e packet offset ≡ some r)
unfolding packet_loop
packet_loop_ends zero e packet offset bytes small l h = absurd (omega arith)
packet_loop_ends (suc fuel) e packet offset bytes small l h =
    elim (Bool-cases (ltb offset (length packet))) [
      | inr done ↦ ((e, true), rw done)
      | inl more ↦ rw more (elim (Option-cases (parse_frame (drop offset packet))) [
        | inl none' ↦ ((e, false), rw none')
        | inr ((frame, size), found) ↦
            let bound =
              parse_frame_bounds (drop offset packet) frame size (All-drop offset packet bytes)
                (omega (arith, length-drop offset packet)) found in
            rw found (elim (Bool-cases (handle_frame e frame).1) [
              | inr refused ↦ (((handle_frame e frame).0, false), rw refused)
              | inl taken ↦ rw taken (
                  packet_loop_ends fuel (handle_frame e frame).0 packet (offset + size) bytes small
                    (omega
                      (arith, bound, length-drop offset packet, ltb→lt offset (length packet) more))
                    (omega (arith, bound)))
            ])
      ])
    ]

-- The processing of any packet of fewer than 2 ^ 63 bytes ends: the fuel of one round for each
-- byte, and one more, is enough.
pub process_packet_ends :
    (e : Engine) (packet : List ℕ)
    → All IsByte packet
    → length packet < 2 ^ 63
    → (r : Engine × Bool) × (process_packet e packet ≡ some r)
unfolding process_packet
process_packet_ends e packet bytes small =
    packet_loop_ends (suc (length packet)) e packet 0 bytes small (omega arith) (omega arith)

packet_loop-step :
    (e : Engine) (packet : List ℕ) (frame : Frame) (fuel offset size : ℕ)
    → ltb offset (length packet) ≡ true
    → parse_frame (drop offset packet) ≡ some (frame, size)
    → (handle_frame e frame).1 ≡ true
    → packet_loop (suc fuel) e packet offset
      ≡ packet_loop fuel (handle_frame e frame).0 packet (offset + size)
unfolding packet_loop
packet_loop-step e packet frame fuel offset size first found taken = rw (first, found, taken)

-- Frames that raise the connection's limit, on the wire one after the other.
abbrev pub wires : List ℕ → List ℕ
wires [] = []
wires (v ∷ vs) = max_data_wire v ++ wires vs

abbrev pub highest : ℕ → List ℕ → ℕ
highest m [] = m
highest m (v ∷ vs) = highest (max m v) vs

abbrev IsLimit : ℕ → Type 0
IsLimit v = v < 2 ^ 62

handle_frame-max_data :
    (e : Engine) (v : ℕ)
    → ((handle_frame e (max_data v)).0
        ≡ record e { connection_max_data = max e.connection_max_data v })
      × ((handle_frame e (max_data v)).1 ≡ true)
unfolding handle_frame
handle_frame-max_data e v = (refl, refl)

packet_loop-wires :
    (fuel : ℕ) (e : Engine) (packet front vs : List ℕ) (offset : ℕ)
    → packet ≡ front ++ wires vs
    → offset ≡ length front
    → length vs < fuel
    → All IsLimit vs
    → packet_loop fuel e packet offset
      ≡ some (record e { connection_max_data = highest e.connection_max_data vs }, true)
unfolding packet_loop
packet_loop-wires zero e packet front vs offset p at h ok = absurd (omega arith)
packet_loop-wires (suc fuel) e packet front [] offset p at h ok =
    let last : ltb offset (length packet) ≡ false =
      ground (arith, ap length p, length-append front []) in
    rw last
packet_loop-wires (suc fuel) e packet front (v ∷ vs) offset p at h ok =
    let first : ltb offset (length packet) ≡ true = ground (
      arith,
      ap length p,
      length-append front (wires (v ∷ vs)),
      length-append (max_data_wire v) (wires vs),
    ) in
    let here : drop offset packet ≡ max_data_wire v ++ wires vs =
      rw (p, at) (drop-append front (wires (v ∷ vs))) in
    let found : parse_frame (drop offset packet) ≡ some (max_data v, length (max_data_wire v)) =
      rw here (parse_frame-max_data_wire v (wires vs) ok.0) in
    let (raised, taken) = handle_frame-max_data e v in
    let next : Engine = record e { connection_max_data = max e.connection_max_data v } in
    packet_loop-step e packet (max_data v) fuel offset _ first found taken
    ∙ ap (λ (e' : Engine). packet_loop fuel e' packet (offset + length (max_data_wire v))) raised
    ∙ packet_loop-wires fuel next packet (front ++ max_data_wire v) vs
        (offset + length (max_data_wire v)) (p ∙ sym (append_assoc front _ (wires vs)))
        (omega (arith, length-append front (max_data_wire v))) (omega arith) ok.1

length-limits-le : (vs : List ℕ) → length vs ≤ length (wires vs)
length-limits-le [] = omega arith
length-limits-le (v ∷ vs) =
    omega (arith, length-limits-le vs, length-append (max_data_wire v) (wires vs))

-- A packet of MAX_DATA frames alone, each with a limit below 2 ^ 62 and on the wire as RFC 9000
-- writes it, is taken to its end: the connection's limit is then the highest of them and the one
-- before, in whatever order they come, and nothing else of the engine changes.
pub process_packet-limits :
    (e : Engine) (vs : List ℕ)
    → All IsLimit vs
    → process_packet e (wires vs)
      ≡ some (record e { connection_max_data = highest e.connection_max_data vs }, true)
unfolding process_packet
process_packet-limits e vs ok =
    packet_loop-wires (suc (length (wires vs))) e (wires vs) [] vs 0 refl refl
      (omega (arith, length-limits-le vs)) ok
