-- ===== src/Vector/Index/Knn.antt =====
-- `SearchKNN` after insertions: the vectors whose codes are nearest.
use mathlib.Core.List.{
  append_assoc, Mem, Perm, reverse, reverse_perm, perm_middle, perm_append_comm, not-mem-nil,
}
use mathlib.Core.List.Perm
use odyssey_tasks.Prelude.{
  ℕ, suc, ◌+◌, ◌*◌, ◌%◌, ◌^◌, ◌≤◌, ◌≡◌, refl, ap, ◌∙◌, min, ◌<◌, false, Option, none, some, List,
  [], ◌∷◌, ◌++◌, length, drop, leb, ltb, if◌then◌else◌, true, length-append, drop-append, arith,
}
use odyssey_tasks.Prelude.Outcome.{ok}
use odyssey_tasks.Vector.Float.{Float, IsOrdered}
use odyssey_tasks.Vector.Quantizer.{ProductQuantizer, compute_query_table, asymmetric_distance}
use odyssey_tasks.Vector.Quantizer.Pure.{Vector, Covers, code_of, distance_to_code}
use odyssey_tasks.Vector.Quantizer.Tables.{
  append_nil, compute_query_table-ok, asymmetric_distance_lem,
}
use odyssey_tasks.Vector.Quantizer.Nearest.{length-code_of, code_of-small}
use odyssey_tasks.Vector.Index.{
  SearchResult, closer, PriorityQueue, HnswIndex, candidate_loop, pop, search_quantized,
  search_with, search_knn,
}
use odyssey_tasks.Vector.Index.Insertion.{IsUsable, codes_of, Stores}
use odyssey_tasks.Vector.Index.Search.{
  length-perm, mem-perm, Best, Best-perm, push_pop-Best, Ascending, reverse-Ascending,
  drain_loop_lem,
}

module _ (F : Float) (q : ProductQuantizer F) (query : Vector F) where
  -- The vectors from number `id` on, with the distance of the query from what their codes stand for.
  abbrev pub ranked : ℕ → List (Vector F) → List (SearchResult F)
  ranked id [] = []
  ranked id (v ∷ vectors) =
      record { id = id; distance = distance_to_code F q query (code_of F q v) }
      ∷ ranked (suc id) vectors

  length-ranked : (id : ℕ) (vectors : List (Vector F)) → length (ranked id vectors) ≡ length vectors
  length-ranked id [] = refl
  length-ranked id (v ∷ vectors) = omega (arith, length-ranked (suc id) vectors)

  module _ (ordered : IsOrdered F) (Q : PriorityQueue F) (u : IsUsable F q)
      (long : Covers F q query) where
    candidate_loop-end :
        (table : List F.carrier) (codes : List ℕ) (k n fuel id : ℕ) (top : Q.Queue)
        → n ≤ id
        → candidate_loop F Q q table codes k n (suc fuel) id top ≡ ok top
    unfolding candidate_loop
    candidate_loop-end table codes k n fuel id top h =
        let ends : leb n id ≡ true = ground arith in rw ends

    candidate_loop-round :
        (table : List F.carrier) (codes : List ℕ) (k n fuel id : ℕ) (top : Q.Queue)
        (distance : F.carrier)
        → id < n
        → n < 2 ^ 32
        → asymmetric_distance F q table (drop (id * q.num_subspaces) codes) ≡ ok distance
        → let pushed = Q.push (record { id = id; distance = distance }) top in
          candidate_loop F Q q table codes k n (suc fuel) id top
          ≡ candidate_loop F Q q table codes k n fuel
              (suc id)
              (if ltb k (Q.size pushed) then pop F Q pushed else pushed)
    unfolding candidate_loop
    candidate_loop-round table codes k n fuel id top distance h few measured =
        let goes_on : leb n id ≡ false = ground arith in
        let next : (id + 1) % 2 ^ 32 ≡ suc id = omega arith in rw (goes_on, measured, next) refl

    -- The loop from the codes of `vectors` on, which stand behind those of the elements before.
    candidate_loop-Best :
        (table : List F.carrier)
        → compute_query_table F q query ≡ ok table
        → (k : ℕ) (vectors : List (Vector F)) (front : List ℕ) (id : ℕ)
          (seen : List (SearchResult F)) (top : Q.Queue) (n : ℕ)
        → n ≡ id + length vectors
        → n < 2 ^ 32
        → length front ≡ id * q.num_subspaces
        → Best F ordered Q k seen top
        → (top' : Q.Queue) × (candidate_loop F Q q table
              (front ++ codes_of F q vectors)
              k
              n
              (suc (length vectors))
              id
              top
            ≡ ok top')
          × Best F ordered Q k (ranked id vectors ++ seen) top'
    unfolding codes_of
    candidate_loop-Best table made k [] front id seen top n all few size b =
        (top, candidate_loop-end table (front ++ []) k n 0 id top (omega arith), b)
    candidate_loop-Best table made k (v ∷ vectors) front id seen top n all few size b =
        let code = code_of F q v in
        let behind : drop (id * q.num_subspaces) (front ++ (code ++ codes_of F q vectors))
            ≡ code ++ codes_of F q vectors =
          rw (← size) (drop-append front (code ++ codes_of F q vectors)) in
        let measured : asymmetric_distance F q table (code ++ codes_of F q vectors)
            ≡ ok (distance_to_code F q query code) =
          rw made at (
            asymmetric_distance_lem F q u.well_formed query long code (codes_of F q vectors)
              (length-code_of F q v) (code_of-small F q v u.some_centroid)) in
        let x : SearchResult F = record { id = id; distance = distance_to_code F q query code } in
        let (top', e, best) =
          candidate_loop-Best table made k vectors (front ++ code) (suc id) (x ∷ seen) _ n
            (omega arith) few (omega (arith, length-append front code, length-code_of F q v, size))
            (push_pop-Best F ordered Q k seen top x b) in
        (
          top',
          candidate_loop-round table (front ++ (code ++ codes_of F q vectors)) k n
                (suc (length vectors)) id top (distance_to_code F q query code) (omega arith) few
                (rw behind measured)
              ∙ (rw (append_assoc front code (codes_of F q vectors)) at e),
          Best-perm F ordered Q (perm_middle (ranked (suc id) vectors) seen) best,
        )

    -- Nothing seen, nothing held.
    empty-Best : (k : ℕ) → Best F ordered Q k [] Q.empty
    empty-Best k = record {
      left_out = [];
      whole = rw Q.items-empty (Perm.refl []);
      size = rw Q.items-empty (omega arith);
      farther = λ x y m _. absurd (not-mem-nil m);
    }

    -- The whole loop.
    candidates-Best :
        (table : List F.carrier)
        → compute_query_table F q query ≡ ok table
        → (k : ℕ) (vectors : List (Vector F)) → length vectors < 2 ^ 32
        → (top : Q.Queue) × (candidate_loop F Q q table
              (codes_of F q vectors)
              k
              (length vectors)
              (length vectors + 1)
              0
              Q.empty
            ≡ ok top)
          × Best F ordered Q k (ranked 0 vectors ++ []) top
    candidates-Best table made k vectors few =
        let fuel : length vectors + 1 ≡ suc (length vectors) = omega arith in
        rw fuel (
          candidate_loop-Best table made k vectors [] 0 [] Q.empty (length vectors) (omega arith)
            few (omega arith) (empty-Best k))

    -- What a search gives for vectors: results in order, and no other vector is closer.
    pub record Answers (k : ℕ) (vectors : List (Vector F)) (results : List (SearchResult F))
        : Type 0 where
      pub left_out : List (SearchResult F)
      pub whole : Perm (results ++ left_out) (ranked 0 vectors)
      pub size : length results ≡ min k (length vectors)
      pub sorted : Ascending F ordered Q results
      pub nearest : (x y : SearchResult F) → Mem x left_out → Mem y results → closer F x y ≡ false

    search_quantized_lem :
        (h : HnswIndex F) (vectors : List (Vector F)) (k : ℕ)
        → h.quantized_vectors ≡ codes_of F q vectors
        → h.num_elements ≡ length vectors
        → length vectors < 2 ^ 32
        → (results : List (SearchResult F)) × (search_quantized F Q q query k h ≡ ok results)
          × Answers k vectors results
    unfolding search_quantized
    search_quantized_lem h vectors k codes counted few =
        let (table, made, _) = compute_query_table-ok F q u.well_formed query long in
        let (top, e, b) = candidates-Best table made k vectors few in
        let (drained, e', same, sorted) =
          drain_loop_lem F ordered Q (Q.size top + 1) top (omega (arith, Q.size-items top)) in
        let backwards : Perm (reverse drained) (Q.items top) =
          Perm.trans (reverse_perm drained) same in
        (
          reverse drained,
          rw (made, codes, counted, e, e'),
          record {
            left_out = b.left_out;
            whole = Perm.trans (Perm.append_right b.left_out backwards) (
                Perm.trans (perm_append_comm (Q.items top) b.left_out)
                  (rw (append_nil (ranked 0 vectors)) at b.whole));
            size = omega (
              arith,
              length-perm backwards,
              b.size,
              length-append (ranked 0 vectors) [],
              length-ranked 0 vectors,
            );
            sorted = reverse-Ascending F ordered Q drained sorted;
            nearest = λ x y m n. b.farther x y m (mem-perm backwards n);
          },
        )

    search_with-empty :
        (pq : Option (ProductQuantizer F)) (h : HnswIndex F) (k : ℕ)
        → h.num_elements ≡ 0
        → search_with F Q pq query k h ≡ ok []
    unfolding search_with
    search_with-empty none h k nothing = refl
    search_with-empty (some p) h k nothing = rw nothing

    search_with-some :
        (h : HnswIndex F) (k : ℕ)
        → 0 < h.num_elements
        → search_with F Q (some q) query k h ≡ search_quantized F Q q query k h
    unfolding search_with
    search_with-some h k something = ground arith

    -- A search of an index that has the codes of these vectors, fewer than 2^32, gives as many as it has, and `k` at
    -- most, in the order of the distances of their codes from the query, and none that it leaves out
    -- is closer than one that it gives.
    pub search_knn-Answers :
        (h : HnswIndex F) (vectors : List (Vector F)) (k : ℕ)
        → Stores F h q vectors
        → length vectors < 2 ^ 32
        → (results : List (SearchResult F)) × (search_knn F Q query k h ≡ ok results)
          × Answers k vectors results
    unfolding search_knn
    search_knn-Answers h [] k s few = (
      [],
      search_with-empty h.pq h k s.counted,
      record {
        left_out = [];
        whole = Perm.refl [];
        size = omega arith;
        sorted = tt;
        nearest = λ x y m _. absurd (not-mem-nil m);
      },
    )
    search_knn-Answers h (v ∷ vectors) k s few =
        let (results, e, a) = search_quantized_lem h (v ∷ vectors) k s.codes s.counted few in
        (
          results,
          ap (λ (pq : Option (ProductQuantizer F)). search_with F Q pq query k h)
                (s.kept (omega (arith, s.counted)))
              ∙ (search_with-some h k (omega (arith, s.counted)) ∙ e),
          a,
        )
