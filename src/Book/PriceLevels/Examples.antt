-- ===== src/Book/PriceLevels/Examples.antt =====
-- Runs of one side, src/book/price_levels.cc.
use nasdaq_itch_trading_syst.Base.{ℕ, ◌≡◌, refl, List, [], ◌∷◌, arith}
use nasdaq_itch_trading_syst.Book.Level.{buy_side, empty_level}
use nasdaq_itch_trading_syst.Book.PriceLevels.{price_levels, best}
use nasdaq_itch_trading_syst.Book.PriceLevels.Best.{IsBest}
use nasdaq_itch_trading_syst.Book.PriceLevels.WellFormed.{IsSide, level_at}
use nasdaq_itch_trading_syst.Book.PriceLevels.Shares.{level_of}
use nasdaq_itch_trading_syst.Book.PriceLevels.Refinement.{
  Change, add_change, reduce_change, remove_change, change_all, spec_all, AllPermitted,
  change_all-refines, change_all-best,
}

-- A level in the window, one far above it that moves the window, one that is no whole cent.
abbrev sample_changes : List Change
sample_changes =
    add_change 10000 300
    ∷ add_change 9000 40
    ∷ add_change 500000 100
    ∷ add_change 10000 5
    ∷ reduce_change 10000 50
    ∷ add_change 10050 7
    ∷ remove_change 500000 100
    ∷ remove_change 10000 250
    ∷ []

sample_test : spec_all sample_changes (λ q. empty_level) 10000 ≡ level_of 10000 5 1
sample_test = refl

sample-AllPermitted : AllPermitted sample_changes (λ q. empty_level)
sample-AllPermitted = (
  (omega arith, omega arith),
  (
    (omega arith, omega arith),
    (
      (omega arith, omega arith),
      ((omega arith, omega arith), (refl, ((omega arith, omega arith), (refl, (refl, tt))))),
    ),
  ),
)

change_all-refines_example :
    IsSide (change_all sample_changes (price_levels buy_side 0 64))
    × ((q : ℕ)
        → level_at (change_all sample_changes (price_levels buy_side 0 64)) q
          ≡ spec_all sample_changes (λ q. empty_level) q)
change_all-refines_example =
    change_all-refines buy_side 0 64 sample_changes refl sample-AllPermitted

change_all-best_example :
    IsBest buy_side
      (spec_all sample_changes (λ q. empty_level))
      (best (change_all sample_changes (price_levels buy_side 0 64)))
change_all-best_example = change_all-best buy_side 0 64 sample_changes refl sample-AllPermitted
