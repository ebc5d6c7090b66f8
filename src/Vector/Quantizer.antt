-- ===== src/Vector/Quantizer.antt =====
-- pq.hpp and pq.cpp: the product quantizer. `draws` are the numbers that `rng` gives, one after
-- another.
pub mod Pure
pub mod Tables
pub mod Nearest
pub mod Shape
pub mod Rounds
pub mod Train
use odyssey_tasks.Prelude.{
  ℕ, zero, suc, ◌+◌, ◌*◌, ◌/◌, ◌%◌, List, [], ◌∷◌, ◌++◌, length, take, drop, replicate, ltb, leb,
  ◌==◌, ◌&&◌, if◌then◌else◌,
}
use odyssey_tasks.Prelude.Outcome.{Outcome, ok, fault, ◌>>=◌}
use odyssey_tasks.Vector.Float.{Float}
use odyssey_tasks.Vector.Simd.{subspan, l2_distance, compute_distance_table}

-- `v[i]`
unfoldable pub get_elem : {A : Type 0} → ℕ → List A → Outcome A
get_elem i [] = fault
get_elem zero (x ∷ xs) = ok x
get_elem (suc i) (x ∷ xs) = get_elem i xs

-- `std::span(&v[offset], count)`: the place is one of the vector's, even for no elements.
unfoldable pub pointed : {A : Type 0} → ℕ → ℕ → List A → Outcome (List A)
pointed offset count xs =
    if ltb offset (length xs) && leb (offset + count) (length xs)
    then ok (take count (drop offset xs))
    else fault

-- One element is replaced by what becomes of it.
unfoldable pub update : {A : Type 0} → ℕ → (A → Outcome A) → List A → Outcome (List A)
update i f [] = fault
update zero f (x ∷ xs) = do x' ← f x; ok (x' ∷ xs)
update (suc i) f (x ∷ xs) = do xs' ← update i f xs; ok (x ∷ xs')

-- Cells from `offset` on are overwritten.
unfoldable pub write_at : {A : Type 0} → ℕ → List A → List A → Outcome (List A)
write_at offset new xs =
    if ltb (length xs) (offset + length new)
    then fault
    else ok (take offset xs ++ (new ++ drop (offset + length new) xs))

module _ (F : Float) where
  pub record ProductQuantizer : Type 0 where
    pub dim : ℕ
    pub num_subspaces : ℕ
    pub sub_dim : ℕ
    pub num_centroids : ℕ
    pub centroids : List F.carrier

  -- `dim / num_subspaces` is undefined for no subspaces.
  unfoldable pub new : ℕ → ℕ → ℕ → Outcome ProductQuantizer
  new dim num_subspaces num_centroids =
      if num_subspaces == 0
      then fault
      else ok record {
        dim = dim;
        num_subspaces = num_subspaces;
        sub_dim = dim / num_subspaces;
        num_centroids = num_centroids;
        centroids = replicate (num_subspaces * num_centroids * (dim / num_subspaces)) (F.of_nat 0);
      }

  -- The distance of a part from centroid `k` of subspace `m`, in `Train` and `Encode`.
  unfoldable pub centroid_distance : ProductQuantizer → ℕ → ℕ → List F.carrier → Outcome F.carrier
  unfolding pointed l2_distance
  centroid_distance q m k part = do
    c_vec ← pointed ((m * q.num_centroids + k) * q.sub_dim) q.sub_dim q.centroids
    l2_distance F part c_vec

  -- The search for the nearest centroid, from `k` on; `cast` is what is kept of its number.
  unfoldable pub nearest_loop :
      (ℕ → ℕ) → ProductQuantizer → ℕ → List F.carrier → ℕ → ℕ → F.carrier → ℕ → Outcome ℕ
  unfolding centroid_distance
  nearest_loop cast q m part zero k best_dist best_k = ok best_k
  nearest_loop cast q m part (suc rounds) k best_dist best_k = do
    dist ← centroid_distance q m k part
    let closer = F.less dist best_dist
    nearest_loop cast q m part rounds (suc k) (if closer then dist else best_dist)
        (if closer then cast k else best_k)

  unfoldable pub encode_loop : ProductQuantizer → List F.carrier → ℕ → ℕ → Outcome (List ℕ)
  unfolding nearest_loop subspan
  encode_loop q vector zero m = ok []
  encode_loop q vector (suc rounds) m = do
    part ← subspan (m * q.sub_dim) q.sub_dim vector
    best_k ← nearest_loop (λ k. k % 256) q m part q.num_centroids 0 F.largest 0
    codes ← encode_loop q vector rounds (suc m)
    ok (best_k ∷ codes)

  unfoldable pub encode : ProductQuantizer → List F.carrier → Outcome (List ℕ)
  unfolding encode_loop
  encode q vector = encode_loop q vector q.num_subspaces 0

  unfoldable pub compute_query_table : ProductQuantizer → List F.carrier → Outcome (List F.carrier)
  unfolding compute_distance_table
  compute_query_table q query =
      compute_distance_table F query q.centroids q.num_subspaces q.sub_dim q.num_centroids
        (replicate (q.num_subspaces * q.num_centroids) (F.of_nat 0))

  unfoldable pub distance_loop :
      ProductQuantizer → List F.carrier → ℕ → ℕ → List ℕ → F.carrier → Outcome F.carrier
  unfolding get_elem
  distance_loop q query_table zero m code dist = ok dist
  distance_loop q query_table (suc rounds) m [] dist = fault
  distance_loop q query_table (suc rounds) m (c ∷ code) dist = do
    cell ← get_elem (m * q.num_centroids + c) query_table
    distance_loop q query_table rounds (suc m) code (F.add dist cell)

  unfoldable pub asymmetric_distance :
      ProductQuantizer → List F.carrier → List ℕ → Outcome F.carrier
  unfolding distance_loop
  asymmetric_distance q query_table quantized_code =
      distance_loop q query_table q.num_subspaces 0 quantized_code (F.of_nat 0)

  -- A centroid of subspace `m` is overwritten.
  unfoldable pub set_centroid : ProductQuantizer → ℕ → ℕ → List F.carrier → Outcome ProductQuantizer
  unfolding write_at
  set_centroid q m k cells = do
    centroids' ← write_at ((m * q.num_centroids + k) * q.sub_dim) cells q.centroids
    ok (record q { centroids = centroids' })

  -- The centroids of subspace `m` from `k` on, picked from the data.
  unfoldable pub pick_loop :
      List F.carrier → ℕ → (ℕ → ℕ) → ℕ → ℕ → ℕ → ProductQuantizer → Outcome ProductQuantizer
  unfolding subspan set_centroid
  pick_loop training_data num_vectors draws m zero k q = ok q
  pick_loop training_data num_vectors draws m (suc rounds) k q =
      if num_vectors == 0 then fault else do
        part ←
            subspan (draws (m * q.num_centroids + k) % num_vectors * q.dim + m * q.sub_dim)
              q.sub_dim training_data
        q' ← set_centroid q m k part
        pick_loop training_data num_vectors draws m rounds (suc k) q'

  -- `counts` and `new_centroids` of one iteration, a list of cells for each centroid.
  pub record Sums : Type 0 where
    pub counts : List ℕ
    pub new_centroids : List (List F.carrier)

  unfoldable pub add_cells : List F.carrier → List F.carrier → List F.carrier
  add_cells [] part = []
  add_cells (x ∷ xs) [] = x ∷ xs
  add_cells (x ∷ xs) (y ∷ part) = F.add x y ∷ add_cells xs part

  -- The loop over the training vectors, from `i` on.
  unfoldable pub assign_loop : ProductQuantizer → List F.carrier → ℕ → ℕ → ℕ → Sums → Outcome Sums
  unfolding subspan nearest_loop update add_cells
  assign_loop q training_data m zero i sums = ok sums
  assign_loop q training_data m (suc rounds) i sums = do
    part ← subspan (i * q.dim + m * q.sub_dim) q.sub_dim training_data
    best_k ← nearest_loop (λ k. k) q m part q.num_centroids 0 F.largest 0
    counts ← update best_k (λ n. ok (n + 1)) sums.counts
    new_centroids ← update best_k (λ cells. ok (add_cells cells part)) sums.new_centroids
    assign_loop q training_data m rounds (suc i)
        (record { counts = counts; new_centroids = new_centroids })

  unfoldable pub divide_cells : ℕ → List F.carrier → List F.carrier
  divide_cells count [] = []
  divide_cells count (x ∷ xs) = F.div x (F.of_nat count) ∷ divide_cells count xs

  -- The centroids of subspace `m` from `k` on become means, where a vector was assigned to them.
  unfoldable pub mean_loop :
      ℕ → ℕ → List ℕ → List (List F.carrier) → ProductQuantizer → Outcome ProductQuantizer
  unfolding set_centroid divide_cells
  mean_loop m k [] cells q = ok q
  mean_loop m k (count ∷ counts) [] q = fault
  mean_loop m k (count ∷ counts) (cell ∷ cells) q = do
    q' ← if ltb 0 count then set_centroid q m k (divide_cells count cell) else ok q
    mean_loop m (suc k) counts cells q'

  unfoldable pub iterate : List F.carrier → ℕ → ℕ → ℕ → ProductQuantizer → Outcome ProductQuantizer
  unfolding assign_loop mean_loop
  iterate training_data num_vectors m zero q = ok q
  iterate training_data num_vectors m (suc max_iters) q = do
    sums ← assign_loop q training_data m num_vectors 0 (record {
      counts = replicate q.num_centroids 0;
      new_centroids = replicate q.num_centroids (replicate q.sub_dim (F.of_nat 0));
    })
    q' ← mean_loop m 0 sums.counts sums.new_centroids q
    iterate training_data num_vectors m max_iters q'

  unfoldable pub train_loop :
      List F.carrier → ℕ → ℕ → (ℕ → ℕ) → ℕ → ℕ → ProductQuantizer → Outcome ProductQuantizer
  unfolding pick_loop iterate
  train_loop training_data num_vectors max_iters draws zero m q = ok q
  train_loop training_data num_vectors max_iters draws (suc rounds) m q = do
    picked ← pick_loop training_data num_vectors draws m q.num_centroids 0 q
    moved ← iterate training_data num_vectors m max_iters picked
    train_loop training_data num_vectors max_iters draws rounds (suc m) moved

  unfoldable pub train :
      List F.carrier → ℕ → ℕ → (ℕ → ℕ) → ProductQuantizer → Outcome ProductQuantizer
  unfolding train_loop
  train training_data num_vectors max_iters draws q =
      train_loop training_data num_vectors max_iters draws q.num_subspaces 0 q
