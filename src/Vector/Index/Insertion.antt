-- ===== src/Vector/Index/Insertion.antt =====
-- `Insert`: the graph has room for every edge, and the codes are those of the vectors, in order.
use mathlib.Core.List.{append_assoc}
use odyssey_tasks.Prelude.{
  ℕ, ◌+◌, ◌^◌, ◌≤◌, ◌<◌, ◌≡◌, refl, ap, min, max, some, List, [], ◌∷◌, ◌++◌, length, leb, ◌==◌,
  length-append, arith, ◌∙◌, sym, Bool-cases, inl, inr,
}
use odyssey_tasks.Prelude.Outcome.{ok}
use odyssey_tasks.Vector.Float.{Float}
use odyssey_tasks.Vector.Quantizer.{ProductQuantizer}
use odyssey_tasks.Vector.Quantizer.Pure.{IsWellFormed, Vector, Covers, code_of}
use odyssey_tasks.Vector.Quantizer.Tables.{append_nil, encode-ok}
use odyssey_tasks.Vector.Index.{resize, HnswIndex, quantizer_of, link, insert}
use odyssey_tasks.Vector.Index.Rooms.{
  room, length-resize, room-resize, make_rooms-ok, connect_loop-ok,
}

module _ (F : Float) where
  -- A quantizer whose codes fit bytes and whose parts have numbers.
  pub record IsUsable (q : ProductQuantizer F) : Type 0 where
    pub well_formed : IsWellFormed F q
    pub some_centroid : 0 < q.num_centroids
    pub bytes : q.num_centroids ≤ 256
    pub some_dim : 0 < q.sub_dim

  unfoldable pub codes_of : ProductQuantizer F → List (Vector F) → List ℕ
  unfolding code_of
  codes_of q [] = []
  codes_of q (v ∷ vectors) = code_of F q v ++ codes_of q vectors

  codes_of-append :
      (q : ProductQuantizer F) (vectors : List (Vector F)) (v : Vector F)
      → codes_of q (vectors ++ v ∷ []) ≡ codes_of q vectors ++ code_of F q v
  unfolding codes_of
  codes_of-append q [] v = append_nil (code_of F q v)
  codes_of-append q (x ∷ vectors) v = simp (codes_of-append q vectors v, append_assoc)

  -- The index has the codes of these vectors, in order, and its graph a place for the entry node on
  -- all levels.
  pub record Stores (h : HnswIndex F) (q : ProductQuantizer F) (vectors : List (Vector F))
      : Type 0 where
    pub found : quantizer_of F h ≡ ok q
    pub kept : 0 < h.num_elements → h.pq ≡ some q
    pub codes : h.quantized_vectors ≡ codes_of q vectors
    pub counted : h.num_elements ≡ length vectors
    pub levels_of_nodes : length h.node_levels ≡ length vectors
    pub has_levels : h.levels ≤ length h.graph
    pub entered : (l : ℕ) → l < h.levels → h.enter_node < room h.graph l

  -- What an insertion leaves to `link`, and what it gets.
  record Linked (h h' : HnswIndex F) : Type 0 where
    same_pq : h'.pq ≡ h.pq
    same_codes : h'.quantized_vectors ≡ h.quantized_vectors
    same_count : h'.num_elements ≡ h.num_elements
    same_levels : h'.node_levels ≡ h.node_levels
    has_levels : h'.levels ≤ length h'.graph
    entered : (l : ℕ) → l < h'.levels → h'.enter_node < room h'.graph l

  link-ok :
      (id level : ℕ) (h : HnswIndex F)
      → level + 1 ≤ length h.graph
      → h.levels ≤ length h.graph
      → ((l : ℕ) → l < level + 1 → id < room h.graph l)
      → ((l : ℕ) → l < h.levels → h.enter_node < room h.graph l)
      → (h' : HnswIndex F) × (link F id level h ≡ ok h') × Linked h h'
  unfolding link
  link-ok id level h enough levels place entered = elim (Bool-cases (h.num_elements == 0)) [
    | inl first ↦ (
      record h { enter_node = id; levels = level + 1 },
      rw first,
      record {
        same_pq = refl;
        same_codes = refl;
        same_count = refl;
        same_levels = refl;
        has_levels = enough;
        entered = place;
      },
    )
    | inr more ↦
        (let (graph, e, (size, same)) =
            connect_loop-ok id h.enter_node (min (level + 1) h.levels) 0 h.graph (omega arith)
              (λ j lo hi. (place j (omega arith), entered j (omega arith))) in
          elim (Bool-cases (leb h.levels level)) [
            | inl higher ↦ (
              record h { graph = graph; levels = level + 1; enter_node = id },
              rw (more, e, higher),
              record {
                same_pq = refl;
                same_codes = refl;
                same_count = refl;
                same_levels = refl;
                has_levels = omega (arith, size);
                entered = λ l hl. omega (arith, same l, place l hl);
              },
            )
            | inr lower ↦ (
              record h { graph = graph },
              rw (more, e, lower),
              record {
                same_pq = refl;
                same_codes = refl;
                same_count = refl;
                same_levels = refl;
                has_levels = omega (arith, size);
                entered = λ l hl. omega (arith, same l, entered l hl);
              },
            )
          ])
  ]

  -- The element is counted.
  stored :
      (q : ProductQuantizer F) (h before after : HnswIndex F) (vectors : List (Vector F))
      (v : Vector F) (level : ℕ)
      → Stores h q vectors
      → Linked before after
      → before.pq ≡ some q
      → before.quantized_vectors ≡ h.quantized_vectors ++ code_of F q v
      → before.node_levels ≡ h.node_levels ++ level ∷ []
      → before.num_elements ≡ h.num_elements
      → Stores (record after { num_elements = after.num_elements + 1 }) q (vectors ++ v ∷ [])
  unfolding quantizer_of
  stored q h before after vectors v level s linked pq codes levels count = record {
    found = rw (linked.same_pq, pq);
    kept = λ _. linked.same_pq ∙ pq;
    codes =
        linked.same_codes
        ∙ (codes
            ∙ (ap (λ (c : List ℕ). c ++ code_of F q v) s.codes
                ∙ sym (codes_of-append q vectors v)));
    counted = omega (arith, linked.same_count, count, s.counted, length-append vectors (v ∷ []));
    levels_of_nodes =
        rw (linked.same_levels, levels)
          (omega (
            arith,
            s.levels_of_nodes,
            length-append vectors (v ∷ []),
            length-append h.node_levels (level ∷ []),
          ));
    has_levels = linked.has_levels;
    entered = linked.entered;
  }

  -- Inserting a vector that has all parts, each of one number at least, under an id below 2^32 - 1,
  -- indexes nothing out of range, and adds the vector to those whose codes the index has, whatever
  -- its level is.
  pub insert-Stores :
      (q : ProductQuantizer F) (h : HnswIndex F) (vectors : List (Vector F)) (v : Vector F)
      (id level : ℕ)
      → IsUsable q
      → Stores h q vectors
      → Covers F q v
      → id + 1 < 2 ^ 32
      → (h' : HnswIndex F) × (insert F id v level h ≡ ok h') × Stores h' q (vectors ++ v ∷ [])
  unfolding insert quantizer_of
  insert-Stores q h vectors v id level u s long small =
      let graph = resize [] (max (length h.graph) (level + 1)) h.graph in
      let size = length-resize [] (max (length h.graph) (level + 1)) h.graph in
      let keeps = room-resize (max (length h.graph) (level + 1)) h.graph in
      let (roomy, e, size', more, there) =
        make_rooms-ok id (level + 1) 0 graph small (omega (arith, size)) in
      let before : HnswIndex F = record h {
        pq = some q;
        quantized_vectors = h.quantized_vectors ++ code_of F q v;
        graph = roomy;
        node_levels = h.node_levels ++ level ∷ [];
      } in
      let (after, e', linked) =
        link-ok id level before (omega (arith, size, size'))
          (omega (arith, size, size', s.has_levels)) (λ l hl. there l (omega arith) (omega arith))
          (λ l hl. omega (arith, s.entered l hl, more l, keeps l (omega arith))) in
      (
        record after { num_elements = after.num_elements + 1 },
        rw (s.found, encode-ok F q u.well_formed v long u.some_dim u.bytes, e, e') refl,
        stored q h before after vectors v level s linked refl refl refl refl,
      )
