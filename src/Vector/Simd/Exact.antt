-- ===== src/Vector/Simd/Exact.antt =====
-- Eight lanes and a rest on vectors of whole numbers, which floats count exactly up to 2^24.
use odyssey_tasks.Prelude.{
  ℕ, zero, suc, ◌+◌, ◌-◌, ◌*◌, ◌/◌, ◌^◌, ◌≤◌, ◌≡◌, refl, ap, ◌∙◌, min, max, false, List, [], ◌∷◌,
  length, take, drop, replicate, ltb, length-take, length-drop, arith, All,
}
use odyssey_tasks.Prelude.Outcome.{ok}
use odyssey_tasks.Vector.Float.{Float, IsExact}
use odyssey_tasks.Vector.Simd.{
  lanes, vector_loop, add_all, buffer_sum, tail_loop, reduce, square_step, square_term, l2_distance,
  dot_product,
}

-- The sum of a term for each place, as one would write it.
abbrev pub plain_sum : (ℕ → ℕ → ℕ) → List ℕ → List ℕ → ℕ
plain_sum term [] ys = 0
plain_sum term (x ∷ xs) [] = 0
plain_sum term (x ∷ xs) (y ∷ ys) = term x y + plain_sum term xs ys

abbrev pub squared_gap : ℕ → ℕ → ℕ
squared_gap x y = (max x y - min x y) * (max x y - min x y)

-- No number is too large to be counted.
abbrev pub AreSmall : List ℕ → Type 0
AreSmall xs = All (λ x. x ≤ 2 ^ 24) xs

total : List ℕ → ℕ
total [] = 0
total (x ∷ xs) = x + total xs

take-AreSmall : (n : ℕ) (xs : List ℕ) → AreSmall xs → AreSmall (take n xs)
take-AreSmall zero xs h = tt
take-AreSmall (suc n) [] h = tt
take-AreSmall (suc n) (x ∷ xs) h = (h.0, take-AreSmall n xs h.1)

drop-AreSmall : (n : ℕ) (xs : List ℕ) → AreSmall xs → AreSmall (drop n xs)
drop-AreSmall zero xs h = h
drop-AreSmall (suc n) [] h = tt
drop-AreSmall (suc n) (x ∷ xs) h = drop-AreSmall n xs h.1

drop-add : {A : Type 0} (m n : ℕ) (xs : List A) → drop (m + n) xs ≡ drop n (drop m xs)
drop-add zero n xs = let e : 0 + n ≡ n = omega arith in rw e
drop-add (suc m) zero [] = let e : suc m + 0 ≡ suc m = omega arith in rw e
drop-add (suc m) (suc n) [] = let e : suc m + suc n ≡ suc (m + suc n) = omega arith in rw e
drop-add (suc m) n (x ∷ xs) =
    let e : suc m + n ≡ suc (m + n) = omega arith in rw e (drop-add m n xs)

total-replicate : (n : ℕ) → total (replicate n 0) ≡ 0
unfolding total
total-replicate zero = refl
total-replicate (suc n) = omega (arith, total-replicate n)

plain_sum-nil : (term : ℕ → ℕ → ℕ) (xs : List ℕ) → plain_sum term xs [] ≡ 0
plain_sum-nil term [] = refl
plain_sum-nil term (x ∷ xs) = refl

plain_sum-split :
    (term : ℕ → ℕ → ℕ) (n : ℕ) (xs ys : List ℕ)
    → plain_sum term xs ys
      ≡ plain_sum term (take n xs) (take n ys) + plain_sum term (drop n xs) (drop n ys)
plain_sum-split term zero xs ys = omega arith
plain_sum-split term (suc n) [] ys = omega arith
plain_sum-split term (suc n) (x ∷ xs) [] = omega (arith, plain_sum-nil term (drop n xs))
plain_sum-split term (suc n) (x ∷ xs) (y ∷ ys) = omega (arith, plain_sum-split term n xs ys)

module _ (F : Float) (exact : IsExact F) where
  -- Whole numbers as floats.
  abbrev pub floats : List ℕ → List F.carrier
  floats [] = []
  floats (x ∷ xs) = F.of_nat x ∷ floats xs

  take-floats : (n : ℕ) (xs : List ℕ) → take n (floats xs) ≡ floats (take n xs)
  take-floats zero xs = refl
  take-floats (suc n) [] = refl
  take-floats (suc n) (x ∷ xs) = ap (◌∷◌ (F.of_nat x)) (take-floats n xs)

  drop-floats : (n : ℕ) (xs : List ℕ) → drop n (floats xs) ≡ floats (drop n xs)
  drop-floats zero xs = refl
  drop-floats (suc n) [] = refl
  drop-floats (suc n) (x ∷ xs) = drop-floats n xs

  length-floats : (xs : List ℕ) → length (floats xs) ≡ length xs
  length-floats [] = refl
  length-floats (x ∷ xs) = ap suc (length-floats xs)

  replicate-floats : (n : ℕ) → replicate n (F.of_nat 0) ≡ floats (replicate n 0)
  replicate-floats zero = refl
  replicate-floats (suc n) = ap (◌∷◌ (F.of_nat 0)) (replicate-floats n)

  add_all_lem :
      (start : ℕ) (xs : List ℕ)
      → start + total xs ≤ 2 ^ 24
      → add_all F (F.of_nat start) (floats xs) ≡ F.of_nat (start + total xs)
  unfolding add_all total
  add_all_lem start [] h = ap F.of_nat (let e : start ≡ start + 0 = omega arith in e)
  add_all_lem start (x ∷ xs) h =
      let same : (start + x) + total xs ≡ start + (x + total xs) = omega arith in
      rw (exact.add-nat start x (omega arith), add_all)
        (add_all_lem (start + x) xs (omega arith) ∙ ap F.of_nat same)

  buffer_sum_lem :
      (xs : List ℕ) → total xs ≤ 2 ^ 24 → buffer_sum F (floats xs) ≡ F.of_nat (total xs)
  unfolding buffer_sum total
  buffer_sum_lem [] h = refl
  buffer_sum_lem (x ∷ xs) h = add_all_lem x xs h

  module _ (step : F.carrier → F.carrier → F.carrier → F.carrier)
      (term : F.carrier → F.carrier → F.carrier) (count : ℕ → ℕ → ℕ)
      (term_lem : (x y : ℕ)
        → x ≤ 2 ^ 24
        → y ≤ 2 ^ 24
        → count x y ≤ 2 ^ 24
        → term (F.of_nat x) (F.of_nat y) ≡ F.of_nat (count x y))
      (step_lem : (x y s : ℕ)
        → x ≤ 2 ^ 24
        → y ≤ 2 ^ 24
        → count x y + s ≤ 2 ^ 24
        → step (F.of_nat x) (F.of_nat y) (F.of_nat s) ≡ F.of_nat (count x y + s)) where
    lanes_lem :
        (xs ys sums : List ℕ)
        → length xs ≤ length sums
        → length ys ≡ length xs
        → AreSmall xs
        → AreSmall ys
        → plain_sum count xs ys + total sums ≤ 2 ^ 24
        → (sums' : List ℕ) × (lanes F step (floats xs) (floats ys) (floats sums) ≡ floats sums')
          × (total sums' ≡ plain_sum count xs ys + total sums)
          × (length sums' ≡ length sums)
    unfolding lanes total
    lanes_lem [] ys sums h same small small' bound = (sums, refl, omega arith, refl)
    lanes_lem (x ∷ xs) [] sums h same small small' bound = absurd (omega arith)
    lanes_lem (x ∷ xs) (y ∷ ys) [] h same small small' bound = absurd (omega arith)
    lanes_lem (x ∷ xs) (y ∷ ys) (s ∷ sums) h same small small' bound =
        let (sums', e, summed, size) =
          lanes_lem xs ys sums (omega arith) (omega arith) small.1 small'.1 (omega arith) in
        (
          (count x y + s) ∷ sums',
          rw (step_lem x y s small.0 small'.0 (omega arith), e) refl,
          omega (arith, summed),
          omega (arith, size),
        )

    -- What the lanes hold, and what the loop leaves, come to the whole.
    vector_loop_lem :
        (rounds : ℕ) (a b sums : List ℕ)
        → 8 * rounds ≤ length a
        → length a ≡ length b
        → length sums ≡ 8
        → AreSmall a
        → AreSmall b
        → plain_sum count a b + total sums ≤ 2 ^ 24
        → (sums' : List ℕ) × (vector_loop F step rounds (floats a) (floats b) (floats sums)
            ≡ floats sums')
          × (plain_sum count (drop (8 * rounds) a) (drop (8 * rounds) b) + total sums'
              ≡ plain_sum count a b + total sums)
    unfolding vector_loop
    vector_loop_lem zero a b sums h same size small small' bound = (sums, refl, refl)
    vector_loop_lem (suc rounds) a b sums h same size small small' bound =
        let further : 8 * suc rounds ≡ 8 + 8 * rounds = omega arith in
        let split = plain_sum-split count 8 a b in
        let (held, e, summed, kept) =
          lanes_lem (take 8 a) (take 8 b) sums (omega (arith, length-take 8 a))
            (omega (arith, length-take 8 a, length-take 8 b)) (take-AreSmall 8 a small)
            (take-AreSmall 8 b small') (omega (arith, split)) in
        let (sums', e', whole) =
          vector_loop_lem rounds (drop 8 a) (drop 8 b) held (omega (arith, length-drop 8 a))
            (omega (arith, length-drop 8 a, length-drop 8 b)) (omega (arith, kept))
            (drop-AreSmall 8 a small) (drop-AreSmall 8 b small') (omega (arith, split, summed)) in
        (
          sums',
          rw (take-floats 8 a, take-floats 8 b, drop-floats 8 a, drop-floats 8 b, e) e',
          rw (further, drop-add 8 (8 * rounds) a, drop-add 8 (8 * rounds) b)
              (omega (arith, whole, split, summed)),
        )

    tail_loop_lem :
        (start : ℕ) (a b : List ℕ)
        → AreSmall a
        → AreSmall b
        → plain_sum count a b + start ≤ 2 ^ 24
        → tail_loop F term (F.of_nat start) (floats a) (floats b)
          ≡ F.of_nat (plain_sum count a b + start)
    unfolding tail_loop
    tail_loop_lem start [] b small small' bound =
        ap F.of_nat (let e : start ≡ 0 + start = omega arith in e)
    tail_loop_lem start (x ∷ a) [] small small' bound =
        ap F.of_nat (let e : start ≡ 0 + start = omega arith in e)
    tail_loop_lem start (x ∷ a) (y ∷ b) small small' bound =
        let same : plain_sum count a b + (start + count x y)
            ≡ (count x y + plain_sum count a b) + start =
          omega arith in
        rw
          (
            term_lem x y small.0 small'.0 (omega arith),
            exact.add-nat start (count x y) (omega arith),
          )
          (tail_loop_lem (start + count x y) a b small.1 small'.1 (omega arith) ∙ ap F.of_nat same)

    reduce_lem :
        (a b : List ℕ)
        → length a ≡ length b
        → AreSmall a
        → AreSmall b
        → plain_sum count a b ≤ 2 ^ 24
        → reduce F step term (floats a) (floats b) ≡ F.of_nat (plain_sum count a b)
    unfolding reduce
    reduce_lem a b same small small' bound =
        let rounds = length a / 8 in
        let start : List ℕ = replicate 8 0 in
        let nothing = total-replicate 8 in
        let (sums, e, whole) =
          vector_loop_lem rounds a b start (omega arith) same refl small small'
            (omega (arith, nothing)) in
        let rest = drop (8 * rounds) a in
        let rest' = drop (8 * rounds) b in
        let done : plain_sum count rest rest' + total sums ≡ plain_sum count a b =
          omega (arith, whole, nothing) in
        rw
          (
            length-floats a,
            replicate-floats 8,
            e,
            drop-floats (8 * rounds) a,
            drop-floats (8 * rounds) b,
            buffer_sum_lem sums (omega (arith, done)),
          )
          (tail_loop_lem (total sums) rest rest' (drop-AreSmall (8 * rounds) a small)
              (drop-AreSmall (8 * rounds) b small') (omega (arith, done))
            ∙ ap F.of_nat done)

  -- On vectors of one length, whatever it is, that hold whole numbers up to 2^24, the distance is the
  -- sum of the squares of the differences, and the dot product that of the products, where these
  -- sums do not exceed 2^24 either: up to there floats count without rounding.
  pub simd-plain_sum :
      (a b : List ℕ)
      → length a ≡ length b
      → AreSmall a
      → AreSmall b
      → plain_sum squared_gap a b ≤ 2 ^ 24
      → plain_sum ◌*◌ a b ≤ 2 ^ 24
      → (l2_distance F (floats a) (floats b) ≡ ok (F.of_nat (plain_sum squared_gap a b)))
        × (dot_product F (floats a) (floats b) ≡ ok (F.of_nat (plain_sum ◌*◌ a b)))
  unfolding l2_distance dot_product
  simd-plain_sum a b same small small' squares products =
      let long : ltb (length (floats b)) (length (floats a)) ≡ false =
        ground (arith, length-floats a, length-floats b) in
      (
        rw (
          long,
          reduce_lem (square_step F) (square_term F) squared_gap exact.square-nat
              exact.fused_square-nat a b same small small' squares,
        ),
        rw (
          long,
          reduce_lem F.fused F.mul ◌*◌ exact.mul-nat exact.fused-nat a b same small small' products,
        ),
      )
