-- ===== src/Vector/Index/Rooms.antt =====
-- The places that a level of the graph has for nodes: what makes room, and what keeps it.
use native.Mathlib.Decide.{ℕ_discrete}
use odyssey_tasks.Prelude.{
  ℕ, zero, suc, ◌+◌, ◌-◌, ◌^◌, ◌%◌, ◌≤◌, ◌<◌, ◌≡◌, ◌≢◌, refl, ap, max, List, [], ◌∷◌, ◌++◌, length,
  take, replicate, length-append, length-take, arith,
}
use odyssey_tasks.Prelude.Outcome.{Outcome, ok}
use odyssey_tasks.Vector.Quantizer.{update}
use odyssey_tasks.Vector.Quantizer.Tables.{length-replicate}
use odyssey_tasks.Vector.Index.{Graph, resize, make_room, make_rooms, add_edge, connect_loop}

-- How many nodes a level has a place for.
abbrev pub room : Graph → ℕ → ℕ
room [] l = 0
room (nodes ∷ graph) zero = length nodes
room (nodes ∷ graph) (suc l) = room graph l

pub length-resize : {A : Type 0} (fresh : A) (n : ℕ) (xs : List A) → length (resize fresh n xs) ≡ n
unfolding resize
length-resize fresh n xs = omega (
  arith,
  length-append (take n xs) (replicate (n - length xs) fresh),
  length-take n xs,
  length-replicate (n - length xs) fresh,
)

room_at_end : (n l : ℕ) → room (replicate n []) l ≡ 0
room_at_end zero l = refl
room_at_end (suc n) zero = refl
room_at_end (suc n) (suc l) = room_at_end n l

-- A graph that grows keeps its levels.
pub room-resize :
    (n : ℕ) (graph : Graph) (l : ℕ) → length graph ≤ n → room (resize [] n graph) l ≡ room graph l
unfolding resize
room-resize zero [] l h = refl
room-resize (suc n) [] l h = room_at_end (suc n - 0) l
room-resize zero (nodes ∷ graph) l h = absurd (omega arith)
room-resize (suc n) (nodes ∷ graph) zero h = refl
room-resize (suc n) (nodes ∷ graph) (suc l) h =
    let one_less : suc n - suc (length graph) ≡ n - length graph = omega arith in
    rw one_less (room-resize n graph l (omega arith))

-- One level changes.
update-room :
    (l : ℕ) (f : List (List ℕ) → Outcome (List (List ℕ))) (graph : Graph) (nodes : ℕ)
    → l < length graph
    → ((level : List (List ℕ))
        → length level ≡ room graph l
        → (level' : List (List ℕ)) × (f level ≡ ok level') × (length level' ≡ nodes))
    → (graph' : Graph) × (update l f graph ≡ ok graph')
      × (length graph' ≡ length graph)
      × (room graph' l ≡ nodes)
      × ((j : ℕ) → j ≢ l → room graph' j ≡ room graph j)
unfolding update
update-room l f [] nodes h step = absurd (omega arith)
update-room zero f (level ∷ graph) nodes h step =
    let (level', e, size) = step level refl in
    (level' ∷ graph, rw e, refl, size, elim [ zero ↦ λ ne. absurd (ne refl) | suc j ↦ λ ne. refl ])
update-room (suc l) f (level ∷ graph) nodes h step =
    let (graph', e, size, here, others) = update-room l f graph nodes (omega arith) step in
    (
      level ∷ graph',
      rw e,
      omega (arith, size),
      here,
      elim [ zero ↦ λ ne. refl | suc j ↦ λ ne. others j (λ e'. ne (ap suc e')) ],
    )

make_room-ok :
    (id : ℕ) (nodes : List (List ℕ))
    → id + 1 < 2 ^ 32
    → length (make_room id nodes) ≡ max (length nodes) (id + 1)
unfolding make_room
make_room-ok id nodes h = ground (arith, length-resize [] ((id + 1) % 2 ^ 32) nodes)

-- The levels from `l` on, `rounds` of them, have room for `id` then, and no level has less than before.
pub make_rooms-ok :
    (id rounds l : ℕ) (graph : Graph)
    → id + 1 < 2 ^ 32
    → l + rounds ≤ length graph
    → (graph' : Graph) × (make_rooms id rounds l graph ≡ ok graph')
      × (length graph' ≡ length graph)
      × ((j : ℕ) → room graph j ≤ room graph' j)
      × ((j : ℕ) → l ≤ j → j < l + rounds → id < room graph' j)
unfolding make_rooms
make_rooms-ok id zero l graph h inside =
    (graph, refl, refl, λ j. omega arith, λ j lo hi. absurd (omega arith))
make_rooms-ok id (suc rounds) l graph h inside =
    let (first, e, size, here, others) =
      update-room l (λ nodes. ok (make_room id nodes)) graph (max (room graph l) (id + 1))
        (omega arith)
        (λ level same. (make_room id level, refl, omega (arith, make_room-ok id level h, same))) in
    let (last, e', size', more, there) =
      make_rooms-ok id rounds (suc l) first h (omega (arith, size)) in
    (
      last,
      rw e e',
      omega (arith, size, size'),
      λ j. elim (ℕ_discrete j l) [
        | yes same ↦ rw same (omega (arith, here, more l))
        | no other ↦ omega (arith, others j other, more j)
      ],
      λ j lo hi. elim (ℕ_discrete j l) [
        | yes same ↦ rw same (omega (arith, here, more l))
        | no other ↦ there j (omega arith) (omega arith)
      ],
    )

-- A neighbour more changes no room.
update_neighbours :
    (a : ℕ) (x : ℕ) (nodes : List (List ℕ))
    → a < length nodes
    → (nodes' : List (List ℕ)) × (update a (λ neighbours. ok (neighbours ++ x ∷ [])) nodes
        ≡ ok nodes')
      × (length nodes' ≡ length nodes)
unfolding update
update_neighbours a x [] h = absurd (omega arith)
update_neighbours zero x (n ∷ nodes) h = ((n ++ x ∷ []) ∷ nodes, refl, refl)
update_neighbours (suc a) x (n ∷ nodes) h =
    let (nodes', e, size) = update_neighbours a x nodes (omega arith) in
    (n ∷ nodes', rw e, omega (arith, size))

-- No level gains or loses a place.
abbrev pub SameRoom : Graph → Graph → Type 0
SameRoom graph graph' = (length graph' ≡ length graph) × ((j : ℕ) → room graph' j ≡ room graph j)

add_edge-ok :
    (l a b : ℕ) (graph : Graph)
    → l < length graph
    → a < room graph l
    → (graph' : Graph) × (add_edge l a b graph ≡ ok graph') × SameRoom graph graph'
unfolding add_edge
add_edge-ok l a b graph h ha =
    let (graph', e, size, here, others) =
      update-room l (update a (λ neighbours. ok (neighbours ++ b ∷ []))) graph (room graph l) h
        (λ level same.
          let (nodes, made, size) = update_neighbours a b level (rw same ha) in
          (nodes, made, omega (arith, size, same))) in
    (
      graph',
      e,
      (size, λ j. elim (ℕ_discrete j l) [ yes same ↦ rw same here | no other ↦ others j other ]),
    )

pub connect_loop-ok :
    (id enter_node rounds l : ℕ) (graph : Graph)
    → l + rounds ≤ length graph
    → ((j : ℕ) → l ≤ j → j < l + rounds → (id < room graph j) × (enter_node < room graph j))
    → (graph' : Graph) × (connect_loop id enter_node rounds l graph ≡ ok graph')
      × SameRoom graph graph'
unfolding connect_loop
connect_loop-ok id enter_node zero l graph h places = (graph, refl, (refl, λ j. refl))
connect_loop-ok id enter_node (suc rounds) l graph h places =
    let here = places l (omega arith) (omega arith) in
    let (there, e, (size, same)) = add_edge-ok l id enter_node graph (omega arith) here.0 in
    let (back, e', (size', same')) =
      add_edge-ok l enter_node id there (omega (arith, size)) (omega (arith, same l, here.1)) in
    let (last, e'', (size'', same'')) =
      connect_loop-ok id enter_node rounds (suc l) back (omega (arith, size, size')) (λ j lo hi.
        let p = places j (omega arith) (omega arith) in
        (omega (arith, p.0, same j, same' j), omega (arith, p.1, same j, same' j))) in
    (
      last,
      rw (e, e') e'',
      (omega (arith, size, size', size''), λ j. omega (arith, same j, same' j, same'' j)),
    )
