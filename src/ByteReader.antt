-- ===== src/ByteReader.antt =====
-- Big endian field readers of src/common/byte_reader.h. A pointer is the list of the bytes from it
-- to the end of its buffer, so `p + n` is `drop n p`; reading past the end is `none`.
pub mod Value
pub mod Readers
mod Examples
use nasdaq_itch_trading_syst.Base.{
  ℕ, zero, suc, ◌*◌, ◌%◌, ◌^◌, bit_or, Option, none, some, List, [], ◌∷◌, u16, ◌>>=◌,
}

-- `for (i = 0; i < n; ++i) res = (res << 8) | p[i];` in an accumulator of `w` bits.
unfoldable pub accumulate : ℕ → ℕ → ℕ → List ℕ → Option ℕ
accumulate w zero res p = some res
accumulate w (suc n) res [] = none
accumulate w (suc n) res (b ∷ p) = accumulate w n (bit_or (res * 2 ^ 8 % 2 ^ w) b) p

-- The accumulator of `be16` has 32 bits, and the result is cast back to 16.
unfoldable pub be16 : List ℕ → Option ℕ
be16 p = do res ← accumulate 32 2 0 p; some (u16 res)

unfoldable pub be32 : List ℕ → Option ℕ
be32 p = accumulate 32 4 0 p

unfoldable pub be48 : List ℕ → Option ℕ
be48 p = accumulate 64 6 0 p

unfoldable pub be64 : List ℕ → Option ℕ
be64 p = accumulate 64 8 0 p
