-- ===== src/Vector/Index/History.antt =====
-- An index from its training to a search.
use mathlib.Core.List.{append_assoc, append-nil}
use odyssey_tasks.Prelude.{
  ℕ, ◌+◌, ◌*◌, ◌^◌, ◌≤◌, ◌<◌, ◌≡◌, refl, some, List, [], ◌∷◌, ◌++◌, length, All, arith,
}
use odyssey_tasks.Prelude.Outcome.{ok, ◌>>=◌}
use odyssey_tasks.Vector.Float.{Float, IsOrdered}
use odyssey_tasks.Vector.Quantizer.{ProductQuantizer}
use odyssey_tasks.Vector.Quantizer.Pure.{Vector, Covers}
use odyssey_tasks.Vector.Quantizer.Train.{new-ok, train-Trained}
use odyssey_tasks.Vector.Index
use odyssey_tasks.Vector.Index.{
  SearchResult, PriorityQueue, HnswIndex, quantizer_of, build_pq, InsertCall, insert_all,
  search_knn,
}
use odyssey_tasks.Vector.Index.Insertion.{IsUsable, Stores, insert-Stores, codes_of}
use odyssey_tasks.Vector.Index.Knn.{Answers, search_knn-Answers}

module _ (F : Float) where
  -- A call whose vector has all parts of a quantizer, and whose id leaves room for one more.
  abbrev pub IsProper : ProductQuantizer F → InsertCall F → Type 0
  IsProper q x = Covers F q x.vector × (x.id + 1 < 2 ^ 32)

  abbrev pub vectors_of : List (InsertCall F) → List (Vector F)
  vectors_of [] = []
  vectors_of (x ∷ calls) = x.vector ∷ vectors_of calls

  length-vectors_of : (calls : List (InsertCall F)) → length (vectors_of calls) ≡ length calls
  length-vectors_of [] = refl
  length-vectors_of (x ∷ calls) = omega (arith, length-vectors_of calls)

  insert_all-Stores :
      (q : ProductQuantizer F) (calls : List (InsertCall F)) (h : HnswIndex F)
      (vectors : List (Vector F))
      → IsUsable F q
      → Stores F h q vectors
      → All (IsProper q) calls
      → (h' : HnswIndex F) × (insert_all F calls h ≡ ok h')
        × Stores F h' q (vectors ++ vectors_of calls)
  unfolding insert_all
  insert_all-Stores q [] h vectors u s proper = (h, refl, rw (append-nil vectors) s)
  insert_all-Stores q (x ∷ calls) h vectors u s proper =
      let (h', e, s') =
        insert-Stores F q h vectors x.vector x.id x.level u s proper.0.0 proper.0.1 in
      let (last, e', s'') = insert_all-Stores q calls h' (vectors ++ x.vector ∷ []) u s' proper.1 in
      (last, rw e e', rw (append_assoc vectors (x.vector ∷ []) (vectors_of calls)) at s'')

  -- An index without elements, whose quantizer was built, has no codes.
  build_pq-Stores :
      (dim m ef_construction ef_search : ℕ) (train_data : Vector F) (num_vectors num_subspaces : ℕ)
      (draws : ℕ → ℕ)
      → 0 < num_subspaces
      → num_subspaces ≤ dim
      → 0 < num_vectors
      → num_vectors * dim ≤ length train_data
      → (h : HnswIndex F) × (q : ProductQuantizer F) × (build_pq F train_data num_vectors
            num_subspaces draws
            (Index.new F dim m ef_construction ef_search)
          ≡ ok h)
        × (h.pq ≡ some q)
        × IsUsable F q
        × Stores F h q []
        × (q.num_subspaces * q.sub_dim ≤ dim)
  unfolding build_pq Index.new quantizer_of codes_of
  build_pq-Stores dim m ef_construction ef_search train_data num_vectors num_subspaces draws hs hd
        hv long =
      let (fresh, e, w, same_dim, same_subspaces, same_centroids, parts, some_dim) =
        new-ok F dim num_subspaces 256 hs hd in
      let (q, e', t) = train-Trained F train_data num_vectors 20 draws fresh w (record {
        enough = rw same_dim long;
        parts = parts;
        some_vector = hv;
        some_centroid = omega (arith, same_centroids);
        some_dim = some_dim;
      }) in
      let parts' : q.num_subspaces * q.sub_dim ≤ dim =
        rw (t.same_subspaces, t.same_sub_dim) (omega (arith, parts, same_dim)) in
      (
        record (Index.new F dim m ef_construction ef_search) { pq = some q },
        q,
        rw (e, e') refl,
        refl,
        record {
          well_formed = t.well_formed;
          some_centroid = omega (arith, t.same_centroids, same_centroids);
          bytes = omega (arith, t.same_centroids, same_centroids);
          some_dim = omega (arith, t.same_sub_dim, some_dim);
        },
        record {
          found = refl;
          kept = λ _. refl;
          codes = refl;
          counted = refl;
          levels_of_nodes = refl;
          has_levels = omega arith;
          entered = λ l h. absurd (omega arith);
        },
        parts',
      )

  -- A quantizer that is trained on a positive number of vectors, fewer than 2^32 insertions, and a
  -- search: nothing is out of range, all loops end, and the search gives the vectors whose codes are
  -- nearest to the query, where there is a subspace and a dimension for each, all vectors have the
  -- index's dimension at least, ids are below 2^32 - 1 and no number is NaN.
  pub build-insert-search :
      (ordered : IsOrdered F) (Q : PriorityQueue F)
      → (dim m ef_construction ef_search : ℕ) (train_data : Vector F)
        (num_vectors num_subspaces : ℕ) (draws : ℕ → ℕ) (calls : List (InsertCall F))
        (query : Vector F) (k : ℕ)
      → 0 < num_subspaces
      → num_subspaces ≤ dim
      → 0 < num_vectors
      → num_vectors * dim ≤ length train_data
      → length calls < 2 ^ 32
      → All (λ x. (dim ≤ length x.vector) × (x.id + 1 < 2 ^ 32)) calls
      → dim ≤ length query
      → (built : HnswIndex F) × (q : ProductQuantizer F) × (u : IsUsable F q) × (long : Covers F q
          query)
        × (results : List (SearchResult F)) × (build_pq F train_data num_vectors num_subspaces draws
              (Index.new F dim m ef_construction ef_search)
            ≡ ok built)
        × (built.pq ≡ some q)
        × ((insert_all F calls built >>= λ h. search_knn F Q query k h) ≡ ok results)
        × Answers F q query ordered Q u long k (vectors_of calls) results
  build-insert-search ordered Q dim m ef_construction ef_search train_data num_vectors num_subspaces
        draws calls query k hs hd hv enough few proper covered =
      let (built, q, e, has, u, s, parts) =
        build_pq-Stores dim m ef_construction ef_search train_data num_vectors num_subspaces draws
          hs hd hv enough in
      let long : Covers F q query = omega arith in
      let (filled, e', s') =
        insert_all-Stores q calls built [] u s (covers-proper q calls parts proper) in
      let (results, e'', a) =
        search_knn-Answers F q query ordered Q u long filled (vectors_of calls) k s'
          (omega (arith, length-vectors_of calls)) in
      (built, q, u, long, results, e, has, rw e' e'', a)
    where
      covers-proper :
          (q : ProductQuantizer F) (xs : List (InsertCall F))
          → q.num_subspaces * q.sub_dim ≤ dim
          → All (λ x. (dim ≤ length x.vector) × (x.id + 1 < 2 ^ 32)) xs
          → All (IsProper q) xs
      covers-proper q [] parts all = tt
      covers-proper q (x ∷ xs) parts all =
          ((omega (arith, all.0.0), all.0.1), covers-proper q xs parts all.1)
