-- ===== src/ByteReader/Examples.antt =====
-- The readers of src/common/byte_reader.h on concrete bytes.
use nasdaq_itch_trading_syst.Base.{ℕ, ◌≡◌, refl, none, some, List, [], ◌∷◌, arith}
use nasdaq_itch_trading_syst.ByteReader.{accumulate, be16, be32, be48, be64}
use nasdaq_itch_trading_syst.ByteReader.Readers.{Reads, readers_read}

be32_test : be32 (0 ∷ 0 ∷ 1 ∷ 2 ∷ 9 ∷ []) ≡ some 258
unfolding be32 accumulate
be32_test = refl

be16_short : be16 (7 ∷ []) ≡ none
unfolding be16 accumulate
be16_short = refl

abbrev seven_bytes : List ℕ
seven_bytes = 0xff ∷ 0x10 ∷ 2 ∷ 3 ∷ 4 ∷ 5 ∷ 6 ∷ []

readers_read_example :
    Reads 2 be16 seven_bytes
    × Reads 4 be32 seven_bytes
    × Reads 6 be48 seven_bytes
    × Reads 8 be64 seven_bytes
readers_read_example = readers_read seven_bytes (omega arith)
