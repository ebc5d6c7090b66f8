-- ===== src/Quantum/Simulator/State.antt =====
-- The state vector never leaves its first state.
use native.Mathlib.Nat.{pow-le-pow_right}
use odyssey_tasks.Prelude.{
  ℕ, zero, suc, ◌^◌, ◌<◌, ◌≤◌, ◌≡◌, refl, ap, ◌∙◌, false, List, [], ◌∷◌, replicate, get_or, ltb,
  leb, ◌==◌, if◌then◌else◌, Bool-cases, inl, inr, arith,
}
use odyssey_tasks.Prelude.Outcome.{ok}
use odyssey_tasks.Quantum.Types.{Real, Complex, zero_amplitude, unit_amplitude}
use odyssey_tasks.Quantum.Simulator.{
  QuantumSimulator, new, set_first, fill_zero, Call, resets, appends, optimizes, runs, apply_call,
  call_all, get_amplitude,
}

module _ (R : Real) where
  -- The state |0...0>.
  abbrev ground_state : ℕ → List (Complex R)
  ground_state n = set_first R (replicate n (zero_amplitude R))

  fill_zero-replicate :
      (n : ℕ) → fill_zero R (replicate n (zero_amplitude R)) ≡ replicate n (zero_amplitude R)
  unfolding fill_zero
  fill_zero-replicate zero = refl
  fill_zero-replicate (suc n) = ap (◌∷◌ (zero_amplitude R)) (fill_zero-replicate n)

  refilled : (n : ℕ) → set_first R (fill_zero R (ground_state n)) ≡ ground_state n
  unfolding fill_zero set_first
  refilled zero = refl
  refilled (suc n) = ap (◌∷◌ (unit_amplitude R)) (fill_zero-replicate n)

  apply_call-state :
      (c : Call R) (n : ℕ) (sim : QuantumSimulator R)
      → sim.state_vector ≡ ground_state n
      → (apply_call R c sim).state_vector ≡ ground_state n
  unfolding apply_call
  apply_call-state resets n sim e =
      ap (λ (v : List (Complex R)). set_first R (fill_zero R v)) e ∙ refilled n
  apply_call-state (appends gate) n sim e = e
  apply_call-state optimizes n sim e = e
  apply_call-state runs n sim e = e

  apply_call-size :
      (c : Call R) (sim : QuantumSimulator R)
      → (apply_call R c sim).num_amplitudes ≡ sim.num_amplitudes
  unfolding apply_call
  apply_call-size resets sim = refl
  apply_call-size (appends gate) sim = refl
  apply_call-size optimizes sim = refl
  apply_call-size runs sim = refl

  call_all-state :
      (calls : List (Call R)) (n : ℕ) (sim : QuantumSimulator R)
      → sim.state_vector ≡ ground_state n
      → ((call_all R calls sim).state_vector ≡ ground_state n)
        × ((call_all R calls sim).num_amplitudes ≡ sim.num_amplitudes)
  unfolding call_all
  call_all-state [] n sim e = (e, refl)
  call_all-state (c ∷ calls) n sim e =
      let rest = call_all-state calls n (apply_call R c sim) (apply_call-state c n sim e) in
      (rest.0, rest.1 ∙ apply_call-size c sim)

  get_or-replicate :
      (n i : ℕ) → get_or (replicate n (zero_amplitude R)) i (zero_amplitude R) ≡ zero_amplitude R
  get_or-replicate zero i = refl
  get_or-replicate (suc n) zero = refl
  get_or-replicate (suc n) (suc i) = get_or-replicate n i

  get_or-ground_state :
      (n i : ℕ)
      → 0 < n
      → get_or (ground_state n) i (zero_amplitude R)
        ≡ (if i == 0 then unit_amplitude R else zero_amplitude R)
  unfolding set_first
  get_or-ground_state zero i h = absurd (omega arith)
  get_or-ground_state (suc n) zero h = refl
  get_or-ground_state (suc n) (suc i) h =
      let other : (suc i == 0) ≡ false = ground arith in rw other (get_or-replicate n i)

  -- Of a simulator of fewer than 64 qubits, whatever gates are appended, and however often it is reset,
  -- optimized and run, the first amplitude is 1 and every other one 0.
  pub call_all-get_amplitude :
      (n : ℕ) (calls : List (Call R)) (index : ℕ)
      → n < 64
      → (sim : QuantumSimulator R) × (new R n ≡ ok sim)
        × (get_amplitude R (call_all R calls sim) index
            ≡ (if index == 0 then unit_amplitude R else zero_amplitude R))
  unfolding new get_amplitude
  call_all-get_amplitude n calls index small =
      let sim : QuantumSimulator R = record {
        num_qubits = n;
        num_amplitudes = 2 ^ n;
        state_vector = ground_state (2 ^ n);
        circuit = [];
      } in
      let fits : leb 64 n ≡ false = ground arith in
      let (state, size) = call_all-state calls (2 ^ n) sim refl in
      let some_amplitude : 1 ≤ 2 ^ n =
        pow-le-pow_right {n = 2} (omega arith) {i = 0} {j = n} (omega arith) in
      let value = get_or-ground_state (2 ^ n) index some_amplitude in
      (
        sim,
        rw fits,
        rw (state, size)
            (elim (Bool-cases (ltb index (2 ^ n))) [
              | inl inside ↦ rw inside value
              | inr outside ↦
                  (let other : (index == 0) ≡ false = ground arith in rw (outside, other))
            ]),
      )
