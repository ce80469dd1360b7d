-- ===== src/Book/PriceLevels/Merge.antt =====
-- The levels of a side in order and its invariant check, src/book/price_levels.cc.
use nasdaq_itch_trading_syst.Base.{
  ℕ, zero, suc, ◌+◌, ◌*◌, Bool, true, false, not, ◌&&◌, Option, none, some, List, [], ◌∷◌, ◌++◌,
  length, get_or, ◌==◌, if◌then◌else◌,
}
use nasdaq_itch_trading_syst.Book.Level.{buy_side, sell_side, Level}
use nasdaq_itch_trading_syst.Book.SortedMap.{SortedMap, values}
use nasdaq_itch_trading_syst.Book.Bitmap.{bits_up, bits_down, test_bit}
use nasdaq_itch_trading_syst.Book.PriceLevels.{PriceLevels, better, cell, cell_of, scan_best}

-- The occupied cells of word `w`, at the given bits.
abbrev pub word_cells : List Level → ℕ → List ℕ → List Level
word_cells cells w [] = []
word_cells cells w (bit ∷ bits) = cell cells (w * 64 + bit) ∷ word_cells cells w bits

unfoldable pub cells_up : List Level → List ℕ → ℕ → List Level
unfolding bits_up
cells_up cells [] w = []
cells_up cells (word ∷ words) w =
    word_cells cells w (bits_up 64 word) ++ cells_up cells words (w + 1)

unfoldable pub cells_down : List Level → List ℕ → ℕ → List Level
unfolding bits_down
cells_down cells bits zero = []
cells_down cells bits (suc w) =
    word_cells cells w (bits_down 64 (get_or bits w 0)) ++ cells_down cells bits w

abbrev reverse : List Level → List Level → List Level
reverse [] out = out
reverse (l ∷ ls) out = reverse ls (l ∷ out)

-- The merge of two lists that are both best first, on fuel of their lengths together.
unfoldable pub merge : ℕ → PriceLevels → List Level → List Level → List Level
unfolding better
merge zero t arr far = []
merge (suc fuel) t [] far = far
merge (suc fuel) t (a ∷ arr) [] = a ∷ arr
merge (suc fuel) t (a ∷ arr) (f ∷ far) =
    let left = merge fuel t arr (f ∷ far) in
    let right = merge fuel t (a ∷ arr) far in
    if better t.side a.price f.price then a ∷ left else f ∷ right

unfoldable pub levels : PriceLevels → List Level
unfolding cells_up cells_down values merge
levels t =
    let arr : List Level = elim t.side [
      | buy_side ↦ cells_down t.cells t.bits (length t.bits)
      | sell_side ↦ cells_up t.cells t.bits 0
    ] in
    let far : List Level = elim t.side [
      | buy_side ↦ reverse (values t.far) []
      | sell_side ↦ values t.far
    ] in
    merge (length arr + length far + 1) t arr far

abbrev same_cell : Option ℕ → Option ℕ → Bool
same_cell none none = true
same_cell (some a) (some b) = a == b
same_cell none (some b) = false
same_cell (some a) none = false

-- The loop over the cells: the number of the occupied ones, or none where the check fails.
unfoldable pub count_cells : PriceLevels → List Level → ℕ → ℕ → Option ℕ
unfolding test_bit cell_of
count_cells t [] i counted = some counted
count_cells t (l ∷ cells) i counted =
    let occupied = not (l.orders == 0) in
    let there = count_cells t cells (i + 1) (counted + 1) in
    let vacant = count_cells t cells (i + 1) counted in
    if test_bit t.bits i
    then if occupied && (not (l.shares == 0) && same_cell (cell_of t l.price) (some i))
      then there
      else none
    else if occupied
    then none
    else vacant

unfoldable pub check_far : PriceLevels → SortedMap → Bool
unfolding cell_of
check_far t [] = true
check_far t ((price, l) ∷ m) =
    not (l.orders == 0)
    && (not (l.shares == 0)
        && (l.price == price && (same_cell (cell_of t price) none && check_far t m)))

unfoldable pub check_levels : PriceLevels → Bool
unfolding count_cells scan_best check_far
check_levels t = elim (count_cells t t.cells 0 0) [
  | none ↦ false
  | some counted ↦
      counted == t.array_count && (same_cell (scan_best t) t.best_cell && check_far t t.far)
]
