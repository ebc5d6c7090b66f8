-- ===== src/Quantum/Types.antt =====
-- quantum_types.hpp: amplitudes, gates and their matrices. Single precision numbers are the parameter
-- `Real`.
use odyssey_tasks.Prelude.{ℕ, Bool, List}

pub record Real : Type 1 where
  pub carrier : Type 0
  pub nought : carrier
  pub one : carrier
  pub add : carrier → carrier → carrier
  pub mul : carrier → carrier → carrier
  pub less : carrier → carrier → Bool

pub data GateType : Type 0 where
  h : GateType
  x : GateType
  y : GateType
  z : GateType
  s : GateType
  t : GateType
  rx : GateType
  ry : GateType
  rz : GateType
  cx : GateType
  cz : GateType
  swap : GateType
  fused_2q : GateType

module _ (R : Real) where
  -- `std::complex<float>`
  pub record Complex : Type 0 where
    pub real : R.carrier
    pub imag : R.carrier

  abbrev pub zero_amplitude : Complex
  zero_amplitude = record { real = R.nought; imag = R.nought }

  abbrev pub unit_amplitude : Complex
  unit_amplitude = record { real = R.one; imag = R.nought }

  pub record GateMatrix2x2 : Type 0 where
    pub m00 : Complex
    pub m01 : Complex
    pub m10 : Complex
    pub m11 : Complex

  -- Four rows of four.
  pub record GateMatrix4x4 : Type 0 where
    pub rows : List (List Complex)

  pub record GateOp : Type 0 where
    pub gate_type : GateType
    pub targets : List ℕ
    pub controls : List ℕ
    pub params : List R.carrier
    pub matrix2x2 : GateMatrix2x2
    pub matrix4x4 : GateMatrix4x4
