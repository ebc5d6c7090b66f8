-- ===== src/Vector/Index.antt =====
-- hnsw.hpp and hnsw.cpp: the index. The level that `SelectRandomLevel` draws is an argument, and
-- `std::priority_queue` is a parameter with what its documentation says.
pub mod Rooms
pub mod Insertion
pub mod Search
pub mod Knn
pub mod History
use mathlib.Core.List.{reverse, Mem, Perm}
use odyssey_tasks.Prelude.{
  ℕ, zero, suc, ◌+◌, ◌-◌, ◌*◌, ◌%◌, ◌^◌, ◌≡◌, min, max, Bool, true, false, Option, none, some, List,
  [], ◌∷◌, ◌++◌, length, take, drop, replicate, ltb, leb, ◌==◌, if◌then◌else◌,
}
use odyssey_tasks.Prelude.Outcome.{Outcome, ok, fault, out_of_fuel, ◌>>=◌}
use odyssey_tasks.Vector.Float.{Float}
use odyssey_tasks.Vector.Quantizer
use odyssey_tasks.Vector.Quantizer.{
  ProductQuantizer, train, encode, compute_query_table, asymmetric_distance, update,
}

-- A node's neighbours, the nodes of a level, the levels.
abbrev pub Graph : Type 0
Graph = List (List (List ℕ))

-- `v.resize(n)`
unfoldable pub resize : {A : Type 0} → A → ℕ → List A → List A
resize fresh n xs = take n xs ++ replicate (n - length xs) fresh

-- `id + 1` has 32 bits.
unfoldable pub make_room : ℕ → List (List ℕ) → List (List ℕ)
unfolding resize
make_room id nodes = if leb (length nodes) id then resize [] ((id + 1) % 2 ^ 32) nodes else nodes

-- The loop over the levels up to `level`, from `l` on.
unfoldable pub make_rooms : ℕ → ℕ → ℕ → Graph → Outcome Graph
unfolding make_room update
make_rooms id zero l graph = ok graph
make_rooms id (suc rounds) l graph = do
  graph' ← update l (λ nodes. ok (make_room id nodes)) graph
  make_rooms id rounds (suc l) graph'

-- `graph_[l][a].push_back(b)`
unfoldable pub add_edge : ℕ → ℕ → ℕ → Graph → Outcome Graph
unfolding update
add_edge l a b graph = update l (update a (λ neighbours. ok (neighbours ++ b ∷ []))) graph

unfoldable pub connect_loop : ℕ → ℕ → ℕ → ℕ → Graph → Outcome Graph
unfolding add_edge
connect_loop id enter_node zero l graph = ok graph
connect_loop id enter_node (suc rounds) l graph = do
  there ← add_edge l id enter_node graph
  back ← add_edge l enter_node id there
  connect_loop id enter_node rounds (suc l) back

module _ (F : Float) where
  pub record SearchResult : Type 0 where
    pub id : ℕ
    pub distance : F.carrier

  -- `operator<`
  abbrev pub closer : SearchResult → SearchResult → Bool
  closer a b = F.less a.distance b.distance

  -- A queue whose `top` is not closer than any other element; which one it is among equals is open.
  pub record PriorityQueue : Type 1 where
    pub Queue : Type 0
    pub items : Queue → List SearchResult
    pub empty : Queue
    pub push : SearchResult → Queue → Queue
    pub size : Queue → ℕ
    -- `top` and `pop`, unless the queue is empty.
    pub extract : Queue → Option (SearchResult × Queue)
    pub items-empty : items empty ≡ []
    pub size-items : (q : Queue) → size q ≡ length (items q)
    pub items-push : (x : SearchResult) (q : Queue) → Perm (items (push x q)) (x ∷ items q)
    pub extract-none : (q : Queue) → extract q ≡ none → items q ≡ []
    pub items-extract :
        (q q' : Queue) (x : SearchResult) → extract q ≡ some (x, q') → Perm (items q) (x ∷ items q')
    pub extract_farthest :
        (q q' : Queue) (x y : SearchResult)
        → extract q ≡ some (x, q')
        → Mem y (items q)
        → closer x y ≡ false

  -- `levels` is `max_level_ + 1`, which is 0 at first. `ml_` serves to draw levels only.
  pub record HnswIndex : Type 0 where
    pub dim : ℕ
    pub m : ℕ
    pub m0 : ℕ
    pub ef_construction : ℕ
    pub ef_search : ℕ
    pub pq : Option (ProductQuantizer F)
    pub quantized_vectors : List ℕ
    pub graph : Graph
    pub node_levels : List ℕ
    pub enter_node : ℕ
    pub levels : ℕ
    pub num_elements : ℕ

  unfoldable pub new : ℕ → ℕ → ℕ → ℕ → HnswIndex
  new dim m ef_construction ef_search = record {
    dim = dim;
    m = m;
    m0 = 2 * m;
    ef_construction = ef_construction;
    ef_search = ef_search;
    pq = none;
    quantized_vectors = [];
    graph = [];
    node_levels = [];
    enter_node = 0;
    levels = 0;
    num_elements = 0;
  }

  unfoldable pub build_pq : List F.carrier → ℕ → ℕ → (ℕ → ℕ) → HnswIndex → Outcome HnswIndex
  unfolding Quantizer.new train
  build_pq train_data num_vectors num_subspaces draws h = do
    fresh ← Quantizer.new F h.dim num_subspaces 256
    trained ← train F train_data num_vectors 20 draws fresh
    ok (record h { pq = some trained })

  -- The quantizer that an insertion finds or makes.
  unfoldable pub quantizer_of : HnswIndex → Outcome (ProductQuantizer F)
  unfolding Quantizer.new
  quantizer_of h = elim h.pq [ none ↦ Quantizer.new F h.dim 32 256 | some q ↦ ok q ]

  -- The node takes its place in the graph.
  unfoldable pub link : ℕ → ℕ → HnswIndex → Outcome HnswIndex
  unfolding connect_loop
  link id level h =
      if h.num_elements == 0 then ok (record h { enter_node = id; levels = level + 1 }) else do
        graph ← connect_loop id h.enter_node (min (level + 1) h.levels) 0 h.graph
        ok (
            if leb h.levels level
            then record h { graph = graph; levels = level + 1; enter_node = id }
            else record h { graph = graph })

  unfoldable pub insert : ℕ → List F.carrier → ℕ → HnswIndex → Outcome HnswIndex
  unfolding quantizer_of encode resize make_rooms link
  insert id vector level h = do
    q ← quantizer_of h
    code ← encode F q vector
    let graph = resize [] (max (length h.graph) (level + 1)) h.graph
    roomy ← make_rooms id (level + 1) 0 graph
    linked ← link id level (record h {
      pq = some q;
      quantized_vectors = h.quantized_vectors ++ code;
      graph = roomy;
      node_levels = h.node_levels ++ level ∷ [];
    })
    ok (record linked { num_elements = linked.num_elements + 1 })

  -- Calls of `Insert`, one after another.
  pub record InsertCall : Type 0 where
    pub id : ℕ
    pub vector : List F.carrier
    pub level : ℕ

  unfoldable pub insert_all : List InsertCall → HnswIndex → Outcome HnswIndex
  unfolding insert
  insert_all [] h = ok h
  insert_all (x ∷ calls) h = do h' ← insert x.id x.vector x.level h; insert_all calls h'

  module _ (Q : PriorityQueue) where
    -- `pop`, of a queue that has elements.
    unfoldable pub pop : Q.Queue → Q.Queue
    pop q = elim (Q.extract q) [ none ↦ q | some (x, rest) ↦ rest ]

    -- The loop over all codes, from node `id` on. Nodes have 32 bits, the number of elements 64: the
    -- loop has no end where there are 2^32 elements or more.
    unfoldable pub candidate_loop :
        ProductQuantizer F → List F.carrier → List ℕ → ℕ → ℕ → ℕ → ℕ → Q.Queue → Outcome Q.Queue
    unfolding asymmetric_distance pop
    candidate_loop q q_table quantized_vectors k num_elements zero id top_candidates = out_of_fuel
    candidate_loop q q_table quantized_vectors k num_elements (suc fuel) id top_candidates =
        if leb num_elements id then ok top_candidates else do
          dist ← asymmetric_distance F q q_table (drop (id * q.num_subspaces) quantized_vectors)
          let pushed = Q.push (record { id = id; distance = dist }) top_candidates
          candidate_loop q q_table quantized_vectors k num_elements fuel ((id + 1) % 2 ^ 32)
              (if ltb k (Q.size pushed) then pop pushed else pushed)

    -- The queue is emptied, from the farthest on.
    unfoldable pub drain_loop : ℕ → Q.Queue → Outcome (List SearchResult)
    drain_loop zero top_candidates = out_of_fuel
    drain_loop (suc fuel) top_candidates = elim (Q.extract top_candidates) [
      | none ↦ ok []
      | some (x, rest) ↦ (drain_loop fuel rest >>= λ results. ok (x ∷ results))
    ]

    unfoldable pub search_quantized :
        ProductQuantizer F → List F.carrier → ℕ → HnswIndex → Outcome (List SearchResult)
    unfolding compute_query_table candidate_loop drain_loop
    search_quantized q query k h = do
      q_table ← compute_query_table F q query
      top_candidates ←
          candidate_loop q q_table h.quantized_vectors k h.num_elements (h.num_elements + 1) 0
            Q.empty
      results ← drain_loop (Q.size top_candidates + 1) top_candidates
      ok (reverse results)

    -- The search, with the quantizer that the index has.
    unfoldable pub search_with :
        Option (ProductQuantizer F) → List F.carrier → ℕ → HnswIndex → Outcome (List SearchResult)
    unfolding search_quantized
    search_with none query k h = ok []
    search_with (some q) query k h =
        if h.num_elements == 0 then ok [] else search_quantized q query k h

    unfoldable pub search_knn : List F.carrier → ℕ → HnswIndex → Outcome (List SearchResult)
    unfolding search_with
    search_knn query k h = search_with h.pq query k h
