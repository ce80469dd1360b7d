-- ===== src/Book/Bitmap/Examples.antt =====
-- A run of the scan of src/book/price_levels.cc on two words.
use nasdaq_itch_trading_syst.Base.{
  ℕ, ◌<◌, ◌≡◌, ◌⊎◌, refl, true, false, some, none, List, [], ◌∷◌, arith,
}
use nasdaq_itch_trading_syst.Book.Bitmap.{
  scan_up, scan_down, countr_zero, countl_zero, test_bit, set_bit, clear_bit, bit_of,
}
use nasdaq_itch_trading_syst.Book.Bitmap.Scan.{scan_up_correct}
use nasdaq_itch_trading_syst.Book.Bitmap.ScanDown.{scan_down_correct}

abbrev sample_bits : List ℕ
sample_bits = 0 ∷ 12 ∷ []

scan_up_test : scan_up sample_bits 0 ≡ some 66
unfolding scan_up countr_zero
scan_up_test = refl

scan_down_test : scan_down sample_bits 2 ≡ some 67
unfolding scan_down countl_zero
scan_down_test = refl

clear_bit_test : clear_bit (set_bit sample_bits 5) 66 ≡ 32 ∷ 8 ∷ []
unfolding clear_bit set_bit bit_of
clear_bit_test = refl

scan_up_correct_example :
    ((scan_up sample_bits 0 ≡ none) × ((i : ℕ) → test_bit sample_bits i ≡ false))
    ⊎ ((i : ℕ) × (scan_up sample_bits 0 ≡ some i)
        × (test_bit sample_bits i ≡ true)
        × ((j : ℕ) → j < i → test_bit sample_bits j ≡ false))
scan_up_correct_example = scan_up_correct sample_bits (omega arith)

scan_down_correct_example :
    ((scan_down sample_bits 2 ≡ none) × ((i : ℕ) → i < 128 → test_bit sample_bits i ≡ false))
    ⊎ ((i : ℕ) × (scan_down sample_bits 2 ≡ some i)
        × (test_bit sample_bits i ≡ true)
        × ((j : ℕ) → i < j → j < 128 → test_bit sample_bits j ≡ false))
scan_down_correct_example = scan_down_correct sample_bits (omega arith)
