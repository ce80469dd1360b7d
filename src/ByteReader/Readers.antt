-- ===== src/ByteReader/Readers.antt =====
-- The four readers of src/common/byte_reader.h against the number that the bytes spell.
use nasdaq_itch_trading_syst.Base.{
  ℕ, ◌^◌, ◌≤◌, ◌<◌, ◌≡◌, ◌∙◌, ap, Option, none, some, List, ◌++◌, length, arith, leb, if◌then◌else◌,
}
use nasdaq_itch_trading_syst.ByteReader.{accumulate, be16, be32, be48, be64}
use nasdaq_itch_trading_syst.ByteReader.Value.{
  IsBytes, be_value, be_bytes, accumulate-value, accumulate-short, accumulate-be_bytes, be_value-lt,
  IsBytes-take,
}
use native.Mathlib.Decide.{dec_le}
use native.Mathlib.Nat.{mod-eq_of_lt}

-- What a reader of `n` bytes has to return at `p`.
abbrev pub Reads : ℕ → (List ℕ → Option ℕ) → List ℕ → Type 0
Reads n reader p = reader p ≡ (if leb n (length p) then some (be_value n 0 p) else none)

accumulate-Reads :
    (w n : ℕ) (p : List ℕ) → 256 ^ n ≤ 2 ^ w → IsBytes p → Reads n (accumulate w n 0) p
accumulate-Reads w n p room bytes = elim (dec_le n (length p)) [
  | yes h ↦ accumulate-value w n 0 p (IsBytes-take n p bytes) h (omega arith) ∙ ground arith
  | no h ↦ accumulate-short w n 0 p (omega arith) ∙ ground arith
]

-- On any bytes each of the four readers returns the big endian number that its 2, 4, 6 or 8 bytes
-- spell, and where the buffer ends before its width it reads past the end.
pub readers_read :
    (p : List ℕ) → IsBytes p → Reads 2 be16 p × Reads 4 be32 p × Reads 6 be48 p × Reads 8 be64 p
unfolding be16 be32 be48 be64
readers_read p bytes = (
  ground (arith, accumulate-Reads 32 2 p (omega arith) bytes, be_value-lt 2 0 p bytes),
  accumulate-Reads 32 4 p (omega arith) bytes,
  accumulate-Reads 64 6 p (omega arith) bytes,
  accumulate-Reads 64 8 p (omega arith) bytes,
)

pub be16-be_bytes : (v : ℕ) (rest : List ℕ) → v < 2 ^ 16 → be16 (be_bytes 2 v ++ rest) ≡ some v
unfolding be16
be16-be_bytes v rest h =
    rw (accumulate-be_bytes 32 2 v rest h (omega arith)) (ap some (mod-eq_of_lt h))

pub be32-be_bytes : (v : ℕ) (rest : List ℕ) → v < 2 ^ 32 → be32 (be_bytes 4 v ++ rest) ≡ some v
unfolding be32
be32-be_bytes v rest h = accumulate-be_bytes 32 4 v rest h (omega arith)

pub be48-be_bytes : (v : ℕ) (rest : List ℕ) → v < 2 ^ 48 → be48 (be_bytes 6 v ++ rest) ≡ some v
unfolding be48
be48-be_bytes v rest h = accumulate-be_bytes 64 6 v rest h (omega arith)

pub be64-be_bytes : (v : ℕ) (rest : List ℕ) → v < 2 ^ 64 → be64 (be_bytes 8 v ++ rest) ≡ some v
unfolding be64
be64-be_bytes v rest h = accumulate-be_bytes 64 8 v rest h (omega arith)
