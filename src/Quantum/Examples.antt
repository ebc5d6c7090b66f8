-- ===== src/Quantum/Examples.antt =====
-- Theorems about the simulator at concrete values.
use odyssey_tasks.Prelude.{ℕ, ◌+◌, ◌*◌, ◌≡◌, refl, [], ◌∷◌, length, ltb, arith}
use odyssey_tasks.Prelude.Outcome.{ok}
use odyssey_tasks.Quantum.Types.{Real, zero_amplitude, unit_amplitude, GateOp, GateMatrix2x2, h}
use odyssey_tasks.Quantum.Simulator.{
  QuantumSimulator, new, appends, runs, call_all, get_amplitude, cumulative_loop, upper_end, sample,
}
use odyssey_tasks.Quantum.Simulator.State.{call_all-get_amplitude}
use odyssey_tasks.Quantum.Simulator.Shots.{ArePicked, sample-ArePicked}

-- Numbers without sign or fraction.
abbrev whole : Real
whole = record {
  carrier = ℕ;
  nought = 0;
  one = 1;
  add = λ a b. a + b;
  mul = λ a b. a * b;
  less = ltb;
}

abbrev flat : GateMatrix2x2 whole
flat = record {
  m00 = unit_amplitude whole;
  m01 = unit_amplitude whole;
  m10 = unit_amplitude whole;
  m11 = zero_amplitude whole;
}

abbrev hadamard : GateOp whole
hadamard = record {
  gate_type = h;
  targets = 0 ∷ [];
  controls = [];
  params = [];
  matrix2x2 = flat;
  matrix4x4 = record { rows = [] };
}

call_all-get_amplitude_example :
    (sim : QuantumSimulator whole) × (new whole 2 ≡ ok sim)
    × (get_amplitude whole (call_all whole (appends hadamard ∷ runs ∷ []) sim) 0
        ≡ unit_amplitude whole)
call_all-get_amplitude_example =
    call_all-get_amplitude whole 2 (appends hadamard ∷ runs ∷ []) 0 (omega arith)

-- Two amplitudes, with the probabilities 1 and 4.
abbrev pair : QuantumSimulator whole
pair = record {
  num_qubits = 1;
  num_amplitudes = 2;
  state_vector = unit_amplitude whole ∷ record { real = 2; imag = 0 } ∷ [];
  circuit = [];
}

three_shots : sample whole (λ upper k. k * 2) pair 3 ≡ 0 ∷ 1 ∷ 1 ∷ []
unfolding sample
three_shots = refl

sample-ArePicked_example :
    (length (sample whole (λ upper k. upper) pair 3) ≡ 3)
    × (length (cumulative_loop whole pair 2 0 0).0 ≡ 2)
    × ArePicked whole
        (cumulative_loop whole pair 2 0 0).0
        (λ k. upper_end whole (cumulative_loop whole pair 2 0 0).1)
        0
        (sample whole (λ upper k. upper) pair 3)
unfolding cumulative_loop upper_end
sample-ArePicked_example =
    sample-ArePicked whole (λ upper k. upper) pair 3 (omega arith) (omega arith) (λ k. refl)
