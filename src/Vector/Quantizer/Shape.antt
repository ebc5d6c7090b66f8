-- ===== src/Vector/Quantizer/Shape.antt =====
-- What a step of `Train` leaves of a quantizer's shape.
use odyssey_tasks.Prelude.{
  ℕ, zero, suc, ◌+◌, ◌*◌, ◌≤◌, ◌<◌, ◌≡◌, refl, ap, ◌∙◌, List, [], ◌∷◌, ◌++◌, length, take, drop,
  replicate, ltb, length-append, length-take, length-drop, arith, All, Bool-cases, inl, inr,
}
use odyssey_tasks.Prelude.Outcome.{ok}
use odyssey_tasks.Vector.Float.{Float}
use odyssey_tasks.Vector.Quantizer.{
  ProductQuantizer, write_at, update, set_centroid, add_cells, divide_cells, mean_loop,
}
use odyssey_tasks.Vector.Quantizer.Pure.{cell_inside, IsWellFormed}

length-write_at :
    {A : Type 0} (offset : ℕ) (new xs : List A)
    → offset + length new ≤ length xs
    → (written : List A) × (write_at offset new xs ≡ ok written) × (length written ≡ length xs)
unfolding write_at
length-write_at offset new xs h =
    let rest = drop (offset + length new) xs in
    (
      take offset xs ++ (new ++ rest),
      ground arith,
      omega (
        arith,
        length-append (take offset xs) (new ++ rest),
        length-append new rest,
        length-take offset xs,
        length-drop (offset + length new) xs,
      ),
    )

-- An element in range changes as `f` says.
pub update-ok :
    {A : Type 0} (P : A → Type 0) (i : ℕ) (f : A → A) (xs : List A)
    → i < length xs
    → All P xs
    → ((x : A) → P x → P (f x))
    → (xs' : List A) × (update i (λ x. ok (f x)) xs ≡ ok xs') × (length xs' ≡ length xs) × All P xs'
unfolding update
update-ok P i f [] h all keeps = absurd (omega arith)
update-ok P zero f (x ∷ xs) h all keeps = (f x ∷ xs, refl, refl, (keeps x all.0, all.1))
update-ok P (suc i) f (x ∷ xs) h all keeps =
    let (xs', e, size, rest) = update-ok P i f xs (omega arith) all.1 keeps in
    (x ∷ xs', rw e, omega (arith, size), (all.0, rest))

pub All-replicate : {A : Type 0} (P : A → Type 0) (n : ℕ) (a : A) → P a → All P (replicate n a)
All-replicate P zero a h = tt
All-replicate P (suc n) a h = (h, All-replicate P n a h)

pub All-unit : {A : Type 0} (xs : List A) → All (λ _. Unit {0}) xs
All-unit [] = tt
All-unit (x ∷ xs) = (tt, All-unit xs)

module _ (F : Float) where
  -- All but the numbers of the centroids is the same, and there are as many of them.
  pub record Trained (q q' : ProductQuantizer F) : Type 0 where
    pub same_dim : q'.dim ≡ q.dim
    pub same_subspaces : q'.num_subspaces ≡ q.num_subspaces
    pub same_sub_dim : q'.sub_dim ≡ q.sub_dim
    pub same_centroids : q'.num_centroids ≡ q.num_centroids
    pub well_formed : IsWellFormed F q'

  pub Trained-trans : (a b c : ProductQuantizer F) → Trained a b → Trained b c → Trained a c
  Trained-trans a b c t u = record {
    same_dim = u.same_dim ∙ t.same_dim;
    same_subspaces = u.same_subspaces ∙ t.same_subspaces;
    same_sub_dim = u.same_sub_dim ∙ t.same_sub_dim;
    same_centroids = u.same_centroids ∙ t.same_centroids;
    well_formed = u.well_formed;
  }

  pub Trained-refl : (q : ProductQuantizer F) → IsWellFormed F q → Trained q q
  Trained-refl q w = record {
    same_dim = refl;
    same_subspaces = refl;
    same_sub_dim = refl;
    same_centroids = refl;
    well_formed = w;
  }

  pub set_centroid-ok :
      (q : ProductQuantizer F) (m k : ℕ) (cells : List F.carrier)
      → IsWellFormed F q
      → m < q.num_subspaces
      → k < q.num_centroids
      → length cells ≡ q.sub_dim
      → (q' : ProductQuantizer F) × (set_centroid F q m k cells ≡ ok q') × Trained q q'
  unfolding set_centroid
  set_centroid-ok q m k cells w hm hk size =
      let inside = cell_inside q.num_subspaces q.num_centroids q.sub_dim m k hm hk in
      let (written, e, same) =
        length-write_at ((m * q.num_centroids + k) * q.sub_dim) cells q.centroids
          (omega (arith, inside, size, w.centroids_full)) in
      (
        record q { centroids = written },
        rw e,
        record {
          same_dim = refl;
          same_subspaces = refl;
          same_sub_dim = refl;
          same_centroids = refl;
          well_formed = record { centroids_full = same ∙ w.centroids_full };
        },
      )

  pub length-add_cells : (xs part : List F.carrier) → length (add_cells F xs part) ≡ length xs
  unfolding add_cells
  length-add_cells [] part = refl
  length-add_cells (x ∷ xs) [] = refl
  length-add_cells (x ∷ xs) (y ∷ part) = ap suc (length-add_cells xs part)

  length-divide_cells :
      (count : ℕ) (xs : List F.carrier) → length (divide_cells F count xs) ≡ length xs
  unfolding divide_cells
  length-divide_cells count [] = refl
  length-divide_cells count (x ∷ xs) = ap suc (length-divide_cells count xs)

  -- The means become centroids.
  pub mean_loop-ok :
      (m k : ℕ) (counts : List ℕ) (cells : List (List F.carrier)) (q : ProductQuantizer F)
      → IsWellFormed F q
      → m < q.num_subspaces
      → k + length counts ≤ q.num_centroids
      → length cells ≡ length counts
      → All (λ cell. length cell ≡ q.sub_dim) cells
      → (q' : ProductQuantizer F) × (mean_loop F m k counts cells q ≡ ok q') × Trained q q'
  unfolding mean_loop
  mean_loop-ok m k [] cells q w hm hk same sizes = (q, refl, Trained-refl q w)
  mean_loop-ok m k (count ∷ counts) [] q w hm hk same sizes = absurd (omega arith)
  mean_loop-ok m k (count ∷ counts) (cell ∷ cells) q w hm hk same sizes =
      elim (Bool-cases (ltb 0 count)) [
        | inl some_vector ↦
            (let (set, e, t) =
                set_centroid-ok q m k (divide_cells F count cell) w hm (omega arith)
                  (length-divide_cells count cell ∙ sizes.0) in
              let (q', e', t') =
                mean_loop-ok m (suc k) counts cells set t.well_formed
                  (omega (arith, t.same_subspaces)) (omega (arith, t.same_centroids)) (omega arith)
                  (rw t.same_sub_dim sizes.1) in
              (q', rw (some_vector, e) e', Trained-trans q set q' t t'))
        | inr no_vector ↦
            (let (q', e, t) =
                mean_loop-ok m (suc k) counts cells q w hm (omega arith) (omega arith) sizes.1 in
              (q', rw no_vector e, t))
      ]
