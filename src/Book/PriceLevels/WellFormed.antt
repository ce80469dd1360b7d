-- ===== src/Book/PriceLevels/WellFormed.antt =====
-- What src/book/price_levels.cc keeps of one side, and the level that a side has at a price.
use nasdaq_itch_trading_syst.Base.{
  ℕ, ◌*◌, ◌/◌, ◌%◌, ◌≡◌, ◌⊎◌, false, not, none, some, length, ◌==◌, if◌then◌else◌,
}
use nasdaq_itch_trading_syst.Book.Level.{Level, empty_level}
use nasdaq_itch_trading_syst.Book.SortedMap.{get, get_or_empty}
use nasdaq_itch_trading_syst.Book.SortedMap.Lookup.{IsSorted}
use nasdaq_itch_trading_syst.Book.Bitmap.{test_bit}
use nasdaq_itch_trading_syst.Book.Bitmap.Marks.{AreWords}
use nasdaq_itch_trading_syst.Book.PriceLevels.{PriceLevels, tick, no_base, cell, cell_of}

-- The cells are either not there yet or as many as the span, and the bitmap marks the occupied
-- ones; an occupied cell is that of its price, and a blank one has no shares. The map has only
-- occupied levels, at their prices, which have no cell.
pub record IsSide (t : PriceLevels) : Type 0 where
  pub span_words : t.span / 64 * 64 ≡ t.span
  pub cell_count : (length t.cells ≡ 0) ⊎ (length t.cells ≡ t.span)
  pub bit_count : length t.bits * 64 ≡ length t.cells
  pub words : AreWords t.bits
  pub marks : (i : ℕ) → test_bit t.bits i ≡ not ((cell t.cells i).orders == 0)
  pub blank : (i : ℕ) → (cell t.cells i).orders ≡ 0 → (cell t.cells i).shares ≡ 0
  pub placed :
      (i : ℕ) → ((cell t.cells i).orders == 0) ≡ false → cell_of t (cell t.cells i).price ≡ some i
  pub sorted : IsSorted t.far
  pub far_placed :
      (k : ℕ) (l : Level)
      → get t.far k ≡ some l
      → (l.price ≡ k) × ((l.orders == 0) ≡ false) × (cell_of t k ≡ none)
  pub loose :
      (k : ℕ) (l : Level) → t.base_cents ≡ no_base → get t.far k ≡ some l → (k % tick == 0) ≡ false

-- A level without orders is no level.
abbrev pub settled : Level → Level
settled l = if l.orders == 0 then empty_level else l

-- The level at a price, or an empty one.
unfoldable pub level_at : PriceLevels → ℕ → Level
unfolding cell_of get_or_empty
level_at t price =
    settled (elim (cell_of t price) [ some i ↦ cell t.cells i | none ↦ get_or_empty t.far price ])
