-- ===== src/Vector/Examples.antt =====
-- Theorems about the vector engine at concrete values.
mod Values
use Prim.Native.Nat.{ℕ}
use mathlib.Core.Bool.{Bool-set}
use mathlib.Core.Logic.Or
use mathlib.Core.List.{Mem, Perm, mem-cons, not-mem-nil}
use mathlib.Core.List.Perm
use odyssey_tasks.Prelude.{
  zero, suc, ◌+◌, ◌-◌, ◌*◌, ◌/◌, ◌^◌, ◌≤◌, ◌<◌, ◌≡◌, refl, min, max, false, true, Option, none,
  some, List, [], ◌∷◌, ◌++◌, length, ltb, if◌then◌else◌, arith, Bool-cases, inl, inr, All,
}
use odyssey_tasks.Prelude.Outcome.{ok, ◌>>=◌}
use odyssey_tasks.Vector.Float.{Float, IsOrdered, IsExact}
use odyssey_tasks.Vector.Simd.{l2_distance, dot_product}
use odyssey_tasks.Vector.Simd.Exact.{plain_sum, squared_gap, simd-plain_sum}
use odyssey_tasks.Vector.Quantizer.{
  ProductQuantizer, train, encode, compute_query_table, asymmetric_distance,
}
use odyssey_tasks.Vector.Quantizer.Pure.{
  IsWellFormed, Covers, code_of, distance_to_code, part_of, part_distance,
}
use odyssey_tasks.Vector.Quantizer.Tables.{asymmetric_distance_lem}
use odyssey_tasks.Vector.Quantizer.Nearest.{encode_nearest}
use odyssey_tasks.Vector.Quantizer.Shape.{Trained}
use odyssey_tasks.Vector.Quantizer.Rounds.{Suits}
use odyssey_tasks.Vector.Quantizer.Train.{train-Trained}
use odyssey_tasks.Vector.Index
use odyssey_tasks.Vector.Index.{
  SearchResult, closer, PriorityQueue, HnswIndex, build_pq, InsertCall, insert, insert_all,
  search_knn,
}
use odyssey_tasks.Vector.Index.Insertion.{IsUsable, Stores, insert-Stores, codes_of}
use odyssey_tasks.Vector.Index.Knn.{Answers}
use odyssey_tasks.Vector.Index.History.{build-insert-search}
use odyssey_tasks.Vector.Examples.Values.{
  whole, whole-IsOrdered, whole-IsExact, Item, take_farthest, extract_items, list_queue,
}

nine : List ℕ
nine = 1 ∷ 2 ∷ 3 ∷ 4 ∷ 5 ∷ 6 ∷ 7 ∷ 8 ∷ 9 ∷ []

ones : List ℕ
ones = 1 ∷ 1 ∷ 1 ∷ 1 ∷ 1 ∷ 1 ∷ 1 ∷ 1 ∷ 1 ∷ []

nine_dot_ones : dot_product whole nine ones ≡ ok 45
unfolding dot_product nine ones
nine_dot_ones = refl

simd-plain_sum_example :
    (l2_distance whole nine ones ≡ ok (plain_sum squared_gap nine ones))
    × (dot_product whole nine ones ≡ ok (plain_sum ◌*◌ nine ones))
unfolding nine ones
simd-plain_sum_example =
    simd-plain_sum whole whole-IsExact nine ones refl (omega arith) (omega arith) (omega arith)
      (omega arith)

-- Two subspaces of one number each, with centroids 0 and 10.
abbrev two_by_two : ProductQuantizer whole
two_by_two = record {
  dim = 2;
  num_subspaces = 2;
  sub_dim = 1;
  num_centroids = 2;
  centroids = 0 ∷ 10 ∷ 0 ∷ 10 ∷ [];
}

abbrev point : List ℕ
point = 7 ∷ 4 ∷ []

two_by_two-IsWellFormed : IsWellFormed whole two_by_two
two_by_two-IsWellFormed = record { centroids_full = refl }

encode-point : encode whole two_by_two point ≡ ok (1 ∷ 0 ∷ [])
unfolding encode
encode-point = refl

asymmetric_distance_lem_example :
    (compute_query_table whole two_by_two point >>= λ table.
    asymmetric_distance whole two_by_two table (1 ∷ 0 ∷ []))
    ≡ ok (distance_to_code whole two_by_two point (1 ∷ 0 ∷ []))
asymmetric_distance_lem_example =
    asymmetric_distance_lem whole two_by_two two_by_two-IsWellFormed point (omega arith)
      (1 ∷ 0 ∷ []) [] refl (omega arith)

encode_nearest_example :
    (own : List ℕ) × (own_dist : ℕ) × (dist : ℕ) × (encode whole two_by_two point ≡ ok own)
    × ((compute_query_table whole two_by_two point >>= λ table.
          asymmetric_distance whole two_by_two table own)
        ≡ ok own_dist)
    × ((compute_query_table whole two_by_two point >>= λ table.
          asymmetric_distance whole two_by_two table (0 ∷ 1 ∷ []))
        ≡ ok dist)
    × (ltb dist own_dist ≡ false)
unfolding part_distance
encode_nearest_example =
    encode_nearest whole two_by_two whole-IsOrdered point point_bounded two_by_two-IsWellFormed
      (omega arith) (omega arith) (omega arith) (omega arith) (0 ∷ 1 ∷ []) refl (omega arith)
  where
    point_bounded :
        (m : ℕ)
        → m < 2
        → ltb 1000000 (part_distance whole two_by_two (part_of whole two_by_two point m) m 0)
          ≡ false
    point_bounded zero h = refl
    point_bounded (suc zero) h = refl
    point_bounded (suc (suc m)) h = absurd (omega arith)

-- Two points under the ids 5 and 3: the search names them by the order of their insertion.
abbrev calls : List (InsertCall whole)
calls =
    record { id = 5; vector = 0 ∷ 9 ∷ []; level = 1 }
    ∷ record { id = 3; vector = 8 ∷ 9 ∷ []; level = 0 }
    ∷ []

abbrev untrained : HnswIndex whole
untrained = record (Index.new whole 2 4 8 8) { pq = some two_by_two }

search_calls :
    (insert_all whole calls untrained >>= λ h. search_knn whole list_queue (9 ∷ 9 ∷ []) 1 h)
    ≡ ok (record { id = 1; distance = 2 } ∷ [])
unfolding Index.new insert_all search_knn take_farthest extract_items
search_calls = refl

two_by_two-IsUsable : IsUsable whole two_by_two
two_by_two-IsUsable = record {
  well_formed = two_by_two-IsWellFormed;
  some_centroid = omega arith;
  bytes = omega arith;
  some_dim = omega arith;
}

untrained-Stores : Stores whole untrained two_by_two []
unfolding Index.quantizer_of codes_of Index.new
untrained-Stores = record {
  found = refl;
  kept = λ _. refl;
  codes = refl;
  counted = refl;
  levels_of_nodes = refl;
  has_levels = omega arith;
  entered = λ l h. absurd (omega arith);
}

insert-Stores_example :
    (h' : HnswIndex whole) × (insert whole 5 (0 ∷ 9 ∷ []) 1 untrained ≡ ok h')
    × Stores whole h' two_by_two ((0 ∷ 9 ∷ []) ∷ [])
insert-Stores_example =
    insert-Stores whole two_by_two untrained [] (0 ∷ 9 ∷ []) 5 1 two_by_two-IsUsable
      untrained-Stores (omega arith) (omega arith)

build-insert-search_example :
    (built : HnswIndex whole) × (q : ProductQuantizer whole) × (u : IsUsable whole q)
    × (long : Covers whole q (9 ∷ 9 ∷ [])) × (results : List Item) × (build_pq whole
          (0 ∷ 10 ∷ [])
          1
          2
          (λ i. i)
          (Index.new whole 2 4 8 8)
        ≡ ok built)
    × (built.pq ≡ some q)
    × ((insert_all whole calls built >>= λ h. search_knn whole list_queue (9 ∷ 9 ∷ []) 1 h)
        ≡ ok results)
    × Answers whole q
        (9 ∷ 9 ∷ [])
        whole-IsOrdered
        list_queue
        u
        long
        1
        ((0 ∷ 9 ∷ []) ∷ (8 ∷ 9 ∷ []) ∷ [])
        results
build-insert-search_example =
    build-insert-search whole whole-IsOrdered list_queue 2 4 8 8 (0 ∷ 10 ∷ []) 1 2 (λ i. i) calls
      (9 ∷ 9 ∷ []) 1 (omega arith) (omega arith) (omega arith) (omega arith) (omega arith)
      (omega arith) (omega arith)
