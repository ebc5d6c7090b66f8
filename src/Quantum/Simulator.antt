-- ===== src/Quantum/Simulator.antt =====
-- circuit_simulator.hpp, circuit_simulator.cpp and simd_complex.cpp. `fault` is a shift by the width of
-- the type or more. A draw of `dist(rng)` is a function of the upper end and the number of the shot.
pub mod State
pub mod Shots
use odyssey_tasks.Prelude.{
  ℕ, zero, suc, ◌+◌, ◌%◌, ◌^◌, Bool, true, false, List, [], ◌∷◌, ◌++◌, replicate, get_or, ltb, leb,
  if◌then◌else◌,
}
use odyssey_tasks.Prelude.Outcome.{Outcome, ok, fault}
use odyssey_tasks.Quantum.Types.{
  Real, Complex, zero_amplitude, unit_amplitude, GateMatrix2x2, GateMatrix4x4, GateOp,
}

module _ (R : Real) where
  -- `ApplyGate1Q_AVX2` and `ApplyGate2Q_AVX2` do nothing yet.
  unfoldable pub apply_gate1_q : ℕ → GateMatrix2x2 R → List (Complex R) → List (Complex R)
  apply_gate1_q target mat state = state

  unfoldable pub apply_gate2_q : ℕ → ℕ → GateMatrix4x4 R → List (Complex R) → List (Complex R)
  apply_gate2_q q0 q1 mat state = state

  pub record QuantumSimulator : Type 0 where
    pub num_qubits : ℕ
    pub num_amplitudes : ℕ
    pub state_vector : List (Complex R)
    pub circuit : List (GateOp R)

  -- `state_vector_[0] = 1`
  unfoldable pub set_first : List (Complex R) → List (Complex R)
  set_first [] = []
  set_first (a ∷ state) = unit_amplitude R ∷ state

  unfoldable pub new : ℕ → Outcome QuantumSimulator
  unfolding set_first
  new num_qubits =
      if leb 64 num_qubits
      then fault
      else ok record {
        num_qubits = num_qubits;
        num_amplitudes = 2 ^ num_qubits;
        state_vector = set_first (replicate (2 ^ num_qubits) (zero_amplitude R));
        circuit = [];
      }

  -- `std::fill_zero`
  unfoldable pub fill_zero : List (Complex R) → List (Complex R)
  fill_zero [] = []
  fill_zero (a ∷ state) = zero_amplitude R ∷ fill_zero state

  unfoldable pub reset : QuantumSimulator → QuantumSimulator
  unfolding fill_zero set_first
  reset sim = record sim { state_vector = set_first (fill_zero sim.state_vector); circuit = [] }

  unfoldable pub append_gate : GateOp R → QuantumSimulator → QuantumSimulator
  append_gate gate sim = record sim { circuit = sim.circuit ++ gate ∷ [] }

  unfoldable pub optimize_dag : QuantumSimulator → QuantumSimulator
  optimize_dag sim = sim

  unfoldable pub run : QuantumSimulator → QuantumSimulator
  run sim = sim

  unfoldable pub get_amplitude : QuantumSimulator → ℕ → Complex R
  get_amplitude sim index =
      if ltb index sim.num_amplitudes
      then get_or sim.state_vector index (zero_amplitude R)
      else zero_amplitude R

  unfoldable pub get_probability : QuantumSimulator → ℕ → R.carrier
  get_probability sim index =
      let amp = get_or sim.state_vector index (zero_amplitude R) in
      if ltb index sim.num_amplitudes
      then R.add (R.mul amp.real amp.real) (R.mul amp.imag amp.imag)
      else R.nought

  -- `cumulative` from `i` on, and the last `sum`.
  unfoldable pub cumulative_loop : QuantumSimulator → ℕ → ℕ → R.carrier → List R.carrier × R.carrier
  unfolding get_probability
  cumulative_loop sim zero i sum = ([], sum)
  cumulative_loop sim (suc rounds) i sum =
      let sum' = R.add sum (get_probability sim i) in
      let (cumulative, last) = cumulative_loop sim rounds (suc i) sum' in (sum' ∷ cumulative, last)

  -- `std::lower_bound`, as the number of elements in front of its place.
  unfoldable pub lower_bound : List R.carrier → R.carrier → ℕ
  lower_bound [] r = 0
  lower_bound (c ∷ cumulative) r = if R.less c r then suc (lower_bound cumulative r) else 0

  -- A sample has 32 bits.
  unfoldable pub shot_loop : (ℕ → R.carrier) → List R.carrier → ℕ → ℕ → List ℕ
  unfolding lower_bound
  shot_loop draws cumulative zero s = []
  shot_loop draws cumulative (suc rounds) s =
      lower_bound cumulative (draws s) % 2 ^ 32 ∷ shot_loop draws cumulative rounds (suc s)

  -- The upper end of the draws.
  unfoldable pub upper_end : R.carrier → R.carrier
  upper_end sum = if R.less R.nought sum then sum else R.one

  unfoldable pub sample : (R.carrier → ℕ → R.carrier) → QuantumSimulator → ℕ → List ℕ
  unfolding cumulative_loop shot_loop upper_end
  sample draws sim num_shots =
      let (cumulative, sum) = cumulative_loop sim sim.num_amplitudes 0 R.nought in
      shot_loop (draws (upper_end sum)) cumulative num_shots 0

  -- The calls that may change the simulator.
  pub data Call : Type 0 where
    resets : Call
    appends : GateOp R → Call
    optimizes : Call
    runs : Call

  unfoldable pub apply_call : Call → QuantumSimulator → QuantumSimulator
  unfolding reset append_gate optimize_dag run
  apply_call resets sim = reset sim
  apply_call (appends gate) sim = append_gate gate sim
  apply_call optimizes sim = optimize_dag sim
  apply_call runs sim = run sim

  unfoldable pub call_all : List Call → QuantumSimulator → QuantumSimulator
  unfolding apply_call
  call_all [] sim = sim
  call_all (c ∷ calls) sim = call_all calls (apply_call c sim)
