-- ===== src/Quantum/Simulator/Shots.antt =====
-- Samples name amplitudes, as long as no draw lies above the sum of the probabilities.
use odyssey_tasks.Prelude.{
  ℕ, zero, suc, ◌^◌, ◌%◌, ◌≤◌, ◌<◌, ◌≡◌, refl, ap, true, false, List, [], ◌∷◌, length, Bool-cases,
  inl, inr, arith,
}
use odyssey_tasks.Quantum.Types.{Real}
use odyssey_tasks.Quantum.Simulator.{
  QuantumSimulator, get_probability, cumulative_loop, lower_bound, shot_loop, upper_end, sample,
}

module _ (R : Real) where
  -- The element at a place.
  abbrev pub cell_at : List R.carrier → ℕ → R.carrier
  cell_at [] i = R.nought
  cell_at (c ∷ cs) zero = c
  cell_at (c ∷ cs) (suc i) = cell_at cs i

  -- The place is inside, its sum is not below the draw, and all sums in front of it are.
  abbrev pub IsPicked : List R.carrier → R.carrier → ℕ → Type 0
  IsPicked cumulative r i =
      (i < length cumulative)
      × (R.less (cell_at cumulative i) r ≡ false)
      × ((j : ℕ) → j < i → R.less (cell_at cumulative j) r ≡ true)

  -- The last sum is not below the draw.
  Reaches : List R.carrier → R.carrier → Type 0
  Reaches [] r = ⊥
  Reaches (c ∷ []) r = R.less c r ≡ false
  Reaches (c ∷ d ∷ cs) r = Reaches (d ∷ cs) r

  lower_bound-IsPicked :
      (cumulative : List R.carrier) (r : R.carrier)
      → Reaches cumulative r
      → IsPicked cumulative r (lower_bound R cumulative r)
  unfolding lower_bound Reaches
  lower_bound-IsPicked [] r h = absurd h
  lower_bound-IsPicked (c ∷ []) r h = rw h (omega arith, h, λ j hj. absurd (omega arith))
  lower_bound-IsPicked (c ∷ d ∷ cs) r h = elim (Bool-cases (R.less c r)) [
    | inl below ↦
        (let (inside, here, before) = lower_bound-IsPicked (d ∷ cs) r h in
          rw below (
            omega (arith, inside),
            here,
            elim [ zero ↦ λ _. below | suc j ↦ λ hj. before j (omega arith) ],
          ))
    | inr above ↦ rw above (omega arith, above, λ j hj. absurd (omega arith))
  ]

  cumulative_loop-Reaches :
      (sim : QuantumSimulator R) (rounds i : ℕ) (sum r : R.carrier)
      → R.less (cumulative_loop R sim (suc rounds) i sum).1 r ≡ false
      → Reaches (cumulative_loop R sim (suc rounds) i sum).0 r
  unfolding cumulative_loop Reaches
  cumulative_loop-Reaches sim zero i sum r h = h
  cumulative_loop-Reaches sim (suc rounds) i sum r h =
      cumulative_loop-Reaches sim rounds (suc i) (R.add sum (get_probability R sim i)) r h

  length-cumulative_loop :
      (sim : QuantumSimulator R) (rounds i : ℕ) (sum : R.carrier)
      → length (cumulative_loop R sim rounds i sum).0 ≡ rounds
  unfolding cumulative_loop
  length-cumulative_loop sim zero i sum = refl
  length-cumulative_loop sim (suc rounds) i sum =
      ap suc (length-cumulative_loop sim rounds (suc i) (R.add sum (get_probability R sim i)))

  -- Each shot from number `s` on is picked by its draw.
  abbrev pub ArePicked : List R.carrier → (ℕ → R.carrier) → ℕ → List ℕ → Type 0
  ArePicked cumulative draws s [] = Unit {0}
  ArePicked cumulative draws s (i ∷ shots) =
      IsPicked cumulative (draws s) i × ArePicked cumulative draws (suc s) shots

  shot_loop-ArePicked :
      (draws : ℕ → R.carrier) (cumulative : List R.carrier) (rounds s : ℕ)
      → length cumulative ≤ 2 ^ 32
      → ((k : ℕ) → Reaches cumulative (draws k))
      → ArePicked cumulative draws s (shot_loop R draws cumulative rounds s)
        × (length (shot_loop R draws cumulative rounds s) ≡ rounds)
  unfolding shot_loop
  shot_loop-ArePicked draws cumulative zero s few h = (tt, refl)
  shot_loop-ArePicked draws cumulative (suc rounds) s few h =
      let (rest, size) = shot_loop-ArePicked draws cumulative rounds (suc s) few h in
      let picked = lower_bound-IsPicked cumulative (draws s) (h s) in
      let small : lower_bound R cumulative (draws s) % 2 ^ 32 ≡ lower_bound R cumulative (draws s) =
        omega (arith, picked.0, few) in
      ((rw small picked, rest), ap suc size)

  loop-Reaches :
      (sim : QuantumSimulator R) (rounds : ℕ) (r : R.carrier)
      → 0 < rounds
      → R.less (cumulative_loop R sim rounds 0 R.nought).1 r ≡ false
      → Reaches (cumulative_loop R sim rounds 0 R.nought).0 r
  loop-Reaches sim zero r h below = absurd (omega arith)
  loop-Reaches sim (suc rounds) r h below = cumulative_loop-Reaches sim rounds 0 R.nought r below

  -- A simulator with 1 to 2 ^ 32 amplitudes gives as many samples as shots. Each sample is the number of an
  -- amplitude, the first at which the sum of the probabilities is not below the draw, where no draw
  -- lies above the whole sum.
  pub sample-ArePicked :
      (draws : R.carrier → ℕ → R.carrier) (sim : QuantumSimulator R) (num_shots : ℕ)
      → 0 < sim.num_amplitudes
      → sim.num_amplitudes ≤ 2 ^ 32
      → ((k : ℕ)
          → R.less
              (cumulative_loop R sim sim.num_amplitudes 0 R.nought).1
              (draws (upper_end R (cumulative_loop R sim sim.num_amplitudes 0 R.nought).1) k)
            ≡ false)
      → (length (sample R draws sim num_shots) ≡ num_shots)
        × (length (cumulative_loop R sim sim.num_amplitudes 0 R.nought).0 ≡ sim.num_amplitudes)
        × ArePicked
            (cumulative_loop R sim sim.num_amplitudes 0 R.nought).0
            (draws (upper_end R (cumulative_loop R sim sim.num_amplitudes 0 R.nought).1))
            0
            (sample R draws sim num_shots)
  unfolding sample
  sample-ArePicked draws sim num_shots some_amplitude few bounded =
      let sums = cumulative_loop R sim sim.num_amplitudes 0 R.nought in
      let all = length-cumulative_loop sim sim.num_amplitudes 0 R.nought in
      let (picked, size) =
        shot_loop-ArePicked (draws (upper_end R sums.1)) sums.0 num_shots 0
          (omega (arith, all, few))
          (λ k.
            loop-Reaches sim sim.num_amplitudes (draws (upper_end R sums.1) k) some_amplitude
              (bounded k)) in
      (size, all, picked)
