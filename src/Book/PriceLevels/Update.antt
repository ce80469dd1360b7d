-- ===== src/Book/PriceLevels/Update.antt =====
-- The operations on the levels of a side, src/book/price_levels.cc.
use nasdaq_itch_trading_syst.Base.{
  ℕ, ◌+◌, ◌%◌, Bool, false, ◌&&◌, none, some, set, ◌==◌, if◌then◌else◌, u32, u64, sub_u32, sub_u64,
}
use nasdaq_itch_trading_syst.Book.Level.{Level}
use nasdaq_itch_trading_syst.Book.SortedMap.{get, put, get_or_empty, remove_key}
use nasdaq_itch_trading_syst.Book.Bitmap.{clear_bit}
use nasdaq_itch_trading_syst.Book.PriceLevels.{
  PriceLevels, tick, no_base, window, cell_of, cell, far_best, scan_best, improves, ensure_cells,
  occupy, rebase,
}

-- The first whole cent price sets the base.
unfoldable pub anchor : PriceLevels → ℕ → PriceLevels
unfolding window
anchor t price =
    if t.base_cents == no_base && price % tick == 0
    then record t { base_cents = window t.span price }
    else t

-- One more order of shares at a level.
unfoldable pub credit : Level → ℕ → Level
credit l shares = record l { shares = u64 (l.shares + shares); orders = u32 (l.orders + 1) }

unfoldable pub add_cell : PriceLevels → ℕ → ℕ → ℕ → PriceLevels
unfolding occupy credit
add_cell t i price shares =
    let l = cell t.cells i in
    let t' = if l.orders == 0 then occupy t i (record l { price = price }) else t in
    record t' { cells = set t'.cells i (credit (cell t'.cells i) shares) }

-- A far level that is now the best of the side moves the window, if it is a whole cent.
unfoldable pub add_far : PriceLevels → ℕ → ℕ → PriceLevels
unfolding get_or_empty put credit improves rebase
add_far t price shares =
    let l : Level = record (get_or_empty t.far price) { price = price } in
    let t' = record t { far = put t.far price (credit l shares) } in
    if price % tick == 0 && improves t' price then rebase t' price else t'

unfoldable pub add_level : PriceLevels → ℕ → ℕ → PriceLevels
unfolding anchor cell_of ensure_cells add_cell add_far
add_level t price shares =
    let t' = anchor t price in
    elim (cell_of t' price) [
      | some i ↦ add_cell (ensure_cells t') i price shares
      | none ↦ add_far t' price shares
    ]

unfoldable pub reduce_level : PriceLevels → ℕ → ℕ → PriceLevels
unfolding cell_of get put
reduce_level t price shares = elim (cell_of t price) [
  | some i ↦
      let l = cell t.cells i in
      record t { cells = set t.cells i (record l { shares = sub_u64 l.shares shares }) }
  | none ↦ elim (get t.far price) [
    | some l ↦ record t { far = put t.far price (record l { shares = sub_u64 l.shares shares }) }
    | none ↦ t
  ]
]

-- The next best after the best cell has emptied; the window moves if it is a whole cent in the map.
unfoldable pub next_best : PriceLevels → PriceLevels
unfolding scan_best far_best improves rebase
next_best t =
    let t' = record t { best_cell = scan_best t } in
    elim (far_best t') [
      | none ↦ t'
      | some e ↦ if e.0 % tick == 0 && improves t' e.0 then rebase t' e.0 else t'
    ]

-- `best_cell_ == c`.
unfoldable pub is_best : PriceLevels → ℕ → Bool
is_best t i = elim t.best_cell [ none ↦ false | some b ↦ b == i ]

unfoldable pub vacate : PriceLevels → ℕ → Level → PriceLevels
unfolding clear_bit is_best next_best
vacate t i l =
    let t' = record t {
      cells = set t.cells i (record l { shares = 0 });
      bits = clear_bit t.bits i;
      array_count = sub_u64 t.array_count 1;
    } in
    if is_best t i then next_best t' else t'

unfoldable pub debit : Level → ℕ → Level
debit l shares = record l { shares = sub_u64 l.shares shares; orders = sub_u32 l.orders 1 }

unfoldable pub remove_level : PriceLevels → ℕ → ℕ → PriceLevels
unfolding cell_of debit vacate get put remove_key
remove_level t price shares = elim (cell_of t price) [
  | some i ↦
      let l = debit (cell t.cells i) shares in
      if l.orders == 0 then vacate t i l else record t { cells = set t.cells i l }
  | none ↦ elim (get t.far price) [
    | none ↦ t
    | some old ↦
        let l = debit old shares in
        if l.orders == 0
        then record t { far = remove_key t.far price }
        else record t { far = put t.far price l }
  ]
]
