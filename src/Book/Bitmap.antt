-- ===== src/Book/Bitmap.antt =====
-- The occupancy bitmap of src/book/price_levels.cc: words of 64 bits, and the bit scans of the
-- standard header `bit`.
pub mod Scan
pub mod ScanDown
pub mod Marks
pub mod Enumerate
pub mod Positions
mod Examples
use nasdaq_itch_trading_syst.Base.{
  ℕ, zero, suc, ◌+◌, ◌-◌, ◌*◌, ◌/◌, ◌%◌, ◌^◌, bit_or, bit_and, Bool, Option, none, some, List, [],
  ◌∷◌, get_or, set, leb, ◌==◌, if◌then◌else◌,
}

-- `1 << (i & 63)`.
unfoldable pub bit_of : ℕ → ℕ
bit_of i = 2 ^ bit_and i 63

-- `bits_[i >> 6] |= 1 << (i & 63)`; all words lie below 2 ^ 64.
unfoldable pub set_bit : List ℕ → ℕ → List ℕ
unfolding bit_of
set_bit bits i = set bits (i / 2 ^ 6) (bit_or (get_or bits (i / 2 ^ 6) 0) (bit_of i))

-- `bits_[i >> 6] &= ~(1 << (i & 63))`.
unfoldable pub clear_bit : List ℕ → ℕ → List ℕ
unfolding bit_of
clear_bit bits i =
    set bits (i / 2 ^ 6) (bit_and (get_or bits (i / 2 ^ 6) 0) (2 ^ 64 - 1 - bit_of i))

-- `(bits_[i >> 6] >> (i & 63)) & 1`.
unfoldable pub test_bit : List ℕ → ℕ → Bool
test_bit bits i = get_or bits (i / 2 ^ 6) 0 / 2 ^ bit_and i 63 % 2 == 1

-- `std::countr_zero` and `std::countl_zero` of a word of `n` bits.
unfoldable pub countr_zero : ℕ → ℕ → ℕ
countr_zero zero word = 0
countr_zero (suc n) word = if word % 2 == 1 then 0 else suc (countr_zero n (word / 2))

unfoldable pub countl_zero : ℕ → ℕ → ℕ
countl_zero zero word = 0
countl_zero (suc n) word = if leb (2 ^ n) word then 0 else suc (countl_zero n word)

-- The lowest set bit of the words, of which the first is word `w`.
unfoldable pub scan_up : List ℕ → ℕ → Option ℕ
unfolding countr_zero
scan_up [] w = none
scan_up (word ∷ bits) w =
    let rest = scan_up bits (w + 1) in
    if word == 0 then rest else some (w * 64 + countr_zero 64 word)

-- The highest set bit among the first `w` words.
unfoldable pub scan_down : List ℕ → ℕ → Option ℕ
unfolding countl_zero
scan_down bits zero = none
scan_down bits (suc w) =
    let rest = scan_down bits w in
    let word = get_or bits w 0 in
    if word == 0 then rest else some (w * 64 + 63 - countl_zero 64 word)

-- The set bits of a word in the order of `word &= word - 1`, on fuel of one round for each bit.
unfoldable pub bits_up : ℕ → ℕ → List ℕ
unfolding countr_zero
bits_up zero word = []
bits_up (suc fuel) word =
    let rest = bits_up fuel (bit_and word (word - 1)) in
    if word == 0 then [] else countr_zero 64 word ∷ rest

-- And in the order of `word &= ~(1 << bit)` from the highest.
unfoldable pub bits_down : ℕ → ℕ → List ℕ
unfolding countl_zero
bits_down zero word = []
bits_down (suc fuel) word =
    let bit = 63 - countl_zero 64 word in
    let rest = bits_down fuel (bit_and word (2 ^ 64 - 1 - 2 ^ bit)) in
    if word == 0 then [] else bit ∷ rest
