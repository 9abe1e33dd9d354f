-- ===== src/Api/ErrorCode.antt =====
-- libs/rust/ftl_api/src/error.rs: error codes, each an `i32` made of four ASCII characters.
use ftl.Base.{
  ℕ, ◌+◌, ◌*◌, ◌/◌, ◌%◌, ◌^◌, ◌<◌, ◌≡◌, arith, ltb, ◌==◌, List, [], ◌∷◌, length, All, Exec, done,
  ◌>>◌, assert, bit_or,
}
use ftl.Base.Bits.{bit_or_low, zero-bit_or}

pub data ErrorCode : Type 0 where
  out_of_memory not_allowed already_exists invalid_arg : ErrorCode
  invalid_state invalid_type out_of_bounds unsupported : ErrorCode

-- The loop of `from_name`: `raw = (raw << 8) | ch`, in 32 bits.
from_name_loop : ℕ → List ℕ → Exec ℕ
from_name_loop raw [] = done raw
from_name_loop raw (ch ∷ rest) = do
  assert (ltb ch 128)
  from_name_loop (bit_or (raw * 2 ^ 8 % 2 ^ 32) ch) rest

unfoldable pub from_name : List ℕ → Exec ℕ
unfolding from_name_loop
from_name name = do assert (length name == 4); from_name_loop 0 name

-- `self.0.to_be_bytes()`, the text that `Debug` prints.
unfoldable pub name_bytes : ℕ → List ℕ
name_bytes raw =
    (raw / 2 ^ 24 % 256) ∷ (raw / 2 ^ 16 % 256) ∷ (raw / 2 ^ 8 % 256) ∷ (raw % 256) ∷ []

abbrev pub name : ErrorCode → List ℕ
name out_of_memory = b' ' ∷ b'O' ∷ b'O' ∷ b'M' ∷ []
name not_allowed = b'N' ∷ b'A' ∷ b'L' ∷ b'W' ∷ []
name already_exists = b'E' ∷ b'X' ∷ b'S' ∷ b'T' ∷ []
name invalid_arg = b'I' ∷ b'N' ∷ b'V' ∷ b'A' ∷ []
name invalid_state = b'I' ∷ b'N' ∷ b'V' ∷ b'S' ∷ []
name invalid_type = b'I' ∷ b'N' ∷ b'V' ∷ b'T' ∷ []
name out_of_bounds = b' ' ∷ b'O' ∷ b'O' ∷ b'B' ∷ []
name unsupported = b'U' ∷ b'N' ∷ b'S' ∷ b'P' ∷ []

push_byte :
    (raw ch : ℕ) → raw < 2 ^ 24 → ch < 2 ^ 8 → bit_or (raw * 2 ^ 8 % 2 ^ 32) ch ≡ raw * 2 ^ 8 + ch
push_byte raw ch h k =
    let e : raw * 2 ^ 8 % 2 ^ 32 ≡ raw * 2 ^ 8 = omega arith in rw e (bit_or_low 8 raw ch k)

-- A name of four ASCII characters makes a code, and the code prints as that name; so different names
-- make different codes.
name_bytes-from_name :
    (a b c d : ℕ)
    → All (λ ch. ch < 128) (a ∷ b ∷ c ∷ d ∷ [])
    → (raw : ℕ) × (from_name (a ∷ b ∷ c ∷ d ∷ []) ≡ done raw)
      × (raw < 2 ^ 31)
      × (name_bytes raw ≡ a ∷ b ∷ c ∷ d ∷ [])
unfolding from_name name_bytes
name_bytes-from_name a b c d h = (
  ((a * 2 ^ 8 + b) * 2 ^ 8 + c) * 2 ^ 8 + d,
  ground (
    arith,
    zero-bit_or a,
    push_byte a b,
    push_byte (a * 2 ^ 8 + b) c,
    push_byte ((a * 2 ^ 8 + b) * 2 ^ 8 + c) d,
  ),
  omega arith,
  ground arith,
)
