-- ===== src/Tls/Hkdf.antt =====
-- hkdf.cpp, whose functions are stand-ins without a hash: bytes joined by `^`.
use Prim.Native.Nat.{bit_xor}
use odyssey_tasks.Prelude.{ℕ, zero, suc, ◌/◌, ◌%◌, ◌^◌, List, [], ◌∷◌, ◌++◌, length, get_or}

-- The loop of `Extract` from `i` on. `get_or` reads 0 behind the end.
extract_loop : ℕ → ℕ → List ℕ → List ℕ → List ℕ
extract_loop zero i salt ikm = []
extract_loop (suc rounds) i salt ikm =
    bit_xor (bit_xor (get_or salt i 0) (get_or ikm i 0)) (i % 2 ^ 8)
    ∷ extract_loop rounds (suc i) salt ikm

pub extract : List ℕ → List ℕ → List ℕ
extract salt ikm = extract_loop 32 0 salt ikm

-- The loop of `Expand` from `i` on, for a `prk` that is not empty.
expand_loop : ℕ → ℕ → List ℕ → List ℕ → List ℕ
expand_loop zero i prk info = []
expand_loop (suc rounds) i prk info =
    bit_xor (bit_xor (get_or prk (i % length prk) 0) (get_or info i 0)) (i % 2 ^ 8)
    ∷ expand_loop rounds (suc i) prk info

pub expand : List ℕ → List ℕ → ℕ → List ℕ
expand prk info length' = expand_loop length' 0 prk info

-- "tls13 ", as bytes.
abbrev pub label_prefix : List ℕ
label_prefix = 0x74 ∷ 0x6C ∷ 0x73 ∷ 0x31 ∷ 0x33 ∷ 0x20 ∷ []

hkdf_label : List ℕ → List ℕ → ℕ → List ℕ
hkdf_label label context length' =
    (length' / 2 ^ 8 % 2 ^ 8 ∷ length' % 2 ^ 8 ∷ length (label_prefix ++ label) % 2 ^ 8 ∷ [])
    ++ (label_prefix ++ label ++ (length context % 2 ^ 8 ∷ context))

-- `length` is a `uint16_t`.
pub expand_label : List ℕ → List ℕ → List ℕ → ℕ → List ℕ
expand_label secret label context length' = expand secret (hkdf_label label context length') length'

pub derive_secret : List ℕ → List ℕ → List ℕ → List ℕ
derive_secret secret label messages_hash = expand_label secret label messages_hash 32
