-- ===== src/Book/PriceLevels.antt =====
-- One side of a book, src/book/price_levels.h and price_levels.cc: cells of one cent around a base
-- price, a bitmap of the occupied ones, and a sorted map for every other price. `best_cell_ == -1`
-- is none. A cell is read by `cell`.
pub mod Update
pub mod Merge
pub mod WellFormed
pub mod Writes
pub mod FarWrites
pub mod Gather
pub mod Latest
pub mod Placing
pub mod Rebase
pub mod Gathered
pub mod Anchoring
pub mod Adding
pub mod AddedCell
pub mod Removing
pub mod Vacating
pub mod Top
pub mod Cached
pub mod Scanned
pub mod Entering
pub mod Best
pub mod Sides
pub mod Refinement
mod Examples
pub mod Shares
use nasdaq_itch_trading_syst.Base.{
  ℕ, zero, suc, ◌+◌, ◌-◌, ◌*◌, ◌/◌, ◌%◌, Bool, true, false, not, ◌&&◌, ◌||◌, Option, none, some,
  List, [], ◌∷◌, ◌++◌, length, get_or, set, replicate, ltb, leb, ◌==◌, if◌then◌else◌, u32, u64,
  sub_u32, sub_u64,
}
use nasdaq_itch_trading_syst.Book.Level.{Side, buy_side, sell_side, Level, empty_level}
use nasdaq_itch_trading_syst.Book.SortedMap.{
  SortedMap, get, put, get_or_empty, remove_key, first, last, values,
}
use nasdaq_itch_trading_syst.Book.Bitmap.{set_bit, clear_bit, scan_up, scan_down, bits_up}

-- kTick, kNoBase and kDefaultSpan.
abbrev pub tick : ℕ
tick = 100

abbrev pub no_base : ℕ
no_base = 0xffff_ffff

abbrev pub default_span : ℕ
default_span = 1024

pub record PriceLevels : Type 0 where
  pub side : Side
  pub span : ℕ
  pub base_cents : ℕ
  pub cells : List Level
  pub bits : List ℕ
  pub array_count : ℕ
  pub best_cell : Option ℕ
  pub far : SortedMap
  pub rebases : ℕ

-- The base of a window of cells around a price.
unfoldable pub window : ℕ → ℕ → ℕ
window span price =
    let centre = price / tick in if ltb (span / 2) centre then centre - span / 2 else 0

-- The constructor.
unfoldable pub price_levels : Side → ℕ → ℕ → PriceLevels
unfolding window
price_levels side reference_price tick_span = record {
  side = side;
  span = tick_span;
  base_cents =
      if not (reference_price == 0) && reference_price % tick == 0
      then window tick_span reference_price
      else no_base;
  cells = [];
  bits = [];
  array_count = 0;
  best_cell = none;
  far = [];
  rebases = 0;
}

unfoldable pub better : Side → ℕ → ℕ → Bool
better buy_side a b = ltb b a
better sell_side a b = ltb a b

-- The cell of a price if it is a whole cent inside the window.
unfoldable pub cell_of : PriceLevels → ℕ → Option ℕ
cell_of t price =
    let cents = price / tick in
    if t.base_cents == no_base || not (price % tick == 0)
    then none
    else if ltb cents t.base_cents || leb t.span (cents - t.base_cents)
    then none
    else some (cents - t.base_cents)

abbrev pub cell : List Level → ℕ → Level
cell cells i = get_or cells i empty_level

-- The best entry of a map that is not empty: the highest key for bids, the lowest for asks.
unfoldable pub far_best : PriceLevels → Option (ℕ × Level)
unfolding first last
far_best t = elim t.side [ buy_side ↦ last t.far | sell_side ↦ first t.far ]

unfoldable pub scan_best : PriceLevels → Option ℕ
unfolding scan_up scan_down
scan_best t = elim t.side [
  | buy_side ↦ scan_down t.bits (length t.bits)
  | sell_side ↦ scan_up t.bits 0
]

-- `best_cell_ < 0 || better(price, cells_[best_cell_].price)`.
unfoldable pub improves : PriceLevels → ℕ → Bool
unfolding better
improves t price = elim t.best_cell [
  | none ↦ true
  | some b ↦ better t.side price (cell t.cells b).price
]

unfoldable pub ensure_cells : PriceLevels → PriceLevels
ensure_cells t =
    if length t.cells == 0
    then record t { cells = replicate t.span empty_level; bits = replicate (t.span / 64) 0 }
    else t

-- A new level in a cell: its bit, the count, and the best if it is better.
unfoldable pub occupy : PriceLevels → ℕ → Level → PriceLevels
unfolding set_bit improves
occupy t i l =
    let t' = record t {
      cells = set t.cells i l;
      bits = set_bit t.bits i;
      array_count = u64 (t.array_count + 1);
    } in
    if improves t' l.price then record t' { best_cell = some i } else t'

-- A whole level, wherever it belongs given the base.
unfoldable pub place_level : PriceLevels → Level → PriceLevels
unfolding cell_of occupy put
place_level t l = elim (cell_of t l.price) [
  | none ↦ record t { far = put t.far l.price l }
  | some i ↦ occupy t i l
]

unfoldable pub place_all : List Level → PriceLevels → PriceLevels
unfolding place_level
place_all [] t = t
place_all (l ∷ ls) t = place_all ls (place_level t l)

-- The levels at the cells `w * 64 + bit`, and the cells without them.
unfoldable pub gather_cells : List ℕ → ℕ → List Level → List Level × List Level
gather_cells [] w cells = ([], cells)
gather_cells (bit ∷ bits) w cells =
    let rest = gather_cells bits w (set cells (w * 64 + bit) empty_level) in
    (cell cells (w * 64 + bit) ∷ rest.0, rest.1)

unfoldable pub gather : List ℕ → ℕ → List Level → List Level × List Level
unfolding gather_cells bits_up
gather [] w cells = ([], cells)
gather (word ∷ words) w cells =
    let here = gather_cells (bits_up 64 word) w cells in
    let rest = gather words (w + 1) here.1 in (here.0 ++ rest.0, rest.1)

-- A new window around the price, into which every level is put back.
unfoldable pub rebase : PriceLevels → ℕ → PriceLevels
unfolding gather values ensure_cells window place_all
rebase t centre_price =
    let gathered = if length t.cells == 0 then ([], []) else gather t.bits 0 t.cells in
    let emptied = ensure_cells (record t { cells = gathered.1; far = [] }) in
    place_all (gathered.0 ++ values t.far) (record emptied {
      bits = replicate (t.span / 64) 0;
      array_count = 0;
      best_cell = none;
      base_cents = window t.span centre_price;
      rebases = u64 (t.rebases + 1);
    })

unfoldable pub best : PriceLevels → Option Level
unfolding far_best better
best t = elim t.best_cell [
  | some b ↦ elim (far_best t) [
    | some e ↦ if better t.side e.0 (cell t.cells b).price then some e.1 else some (cell t.cells b)
    | none ↦ some (cell t.cells b)
  ]
  | none ↦ elim (far_best t) [ some e ↦ some e.1 | none ↦ none ]
]

-- `array_count_ + far_.size()`.
unfoldable pub level_count : PriceLevels → ℕ
level_count t = u64 (t.array_count + length t.far)
