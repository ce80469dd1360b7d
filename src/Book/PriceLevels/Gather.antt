-- ===== src/Book/PriceLevels/Gather.antt =====
-- The levels that a move of the window of src/book/price_levels.cc takes out of the cells and the
-- map.
use nasdaq_itch_trading_syst.Base.{
  ℕ, ◌+◌, ◌*◌, ◌≡◌, refl, ap, sym, subst, ◌∙◌, arith, Bool, true, false, List, [], ◌∷◌, ◌++◌,
  length, set, ◌==◌, ltb, if◌then◌else◌, length-set, get_or-set, get_or-set_other, get_or-outside,
  Bool-cases, ==_iff, ltb→lt, ltb→le, inl, inr,
}
use nasdaq_itch_trading_syst.Book.Level.{Level, empty_level}
use nasdaq_itch_trading_syst.Book.Bitmap.{bits_up}
use nasdaq_itch_trading_syst.Book.Bitmap.Enumerate.{has, Distinct}
use nasdaq_itch_trading_syst.Book.Bitmap.Positions.{shift, positions}
use nasdaq_itch_trading_syst.Book.PriceLevels.{cell, gather_cells, gather}

-- The levels at some positions are taken out.
pub take_cells : List ℕ → List Level → List Level × List Level
take_cells [] cells = ([], cells)
take_cells (i ∷ is) cells =
    let rest = take_cells is (set cells i empty_level) in (cell cells i ∷ rest.0, rest.1)

both : List Level → List Level × List Level → List Level × List Level
both ls rest = (ls ++ rest.0, rest.1)

gather_cells-take :
    (bits : List ℕ) (w : ℕ) (cells : List Level)
    → gather_cells bits w cells ≡ take_cells (shift w bits) cells
unfolding gather_cells take_cells shift
gather_cells-take [] w cells = refl
gather_cells-take (bit ∷ bits) w cells =
    ap (λ (rest : List Level × List Level). (cell cells (w * 64 + bit) ∷ rest.0, rest.1))
      (gather_cells-take bits w (set cells (w * 64 + bit) empty_level))

take_cells-append :
    (is js : List ℕ) (cells : List Level)
    → take_cells (is ++ js) cells
      ≡ both (take_cells is cells).0 (take_cells js (take_cells is cells).1)
unfolding take_cells both
take_cells-append [] js cells = refl
take_cells-append (i ∷ is) js cells =
    ap (λ (rest : List Level × List Level). (cell cells i ∷ rest.0, rest.1))
      (take_cells-append is js (set cells i empty_level))

pub gather-take :
    (words : List ℕ) (w : ℕ) (cells : List Level)
    → gather words w cells ≡ take_cells (positions words w) cells
unfolding gather positions take_cells both
gather-take [] w cells = refl
gather-take (word ∷ words) w cells =
    ap (λ (here : List Level × List Level). both here.0 (gather words (w + 1) here.1))
      (gather_cells-take (bits_up 64 word) w cells)
    ∙ ap (both (take_cells (shift w (bits_up 64 word)) cells).0)
        (gather-take words (w + 1) (take_cells (shift w (bits_up 64 word)) cells).1)
    ∙ sym (take_cells-append (shift w (bits_up 64 word)) (positions words (w + 1)) cells)

unfoldable pub read_cells : List ℕ → List Level → List Level
read_cells [] cells = []
read_cells (i ∷ is) cells = cell cells i ∷ read_cells is cells

blank_cell :
    (cells : List Level) (i j : ℕ)
    → cell (set cells i empty_level) j ≡ (if i == j then empty_level else cell cells j)
blank_cell cells i j = elim (Bool-cases (i == j)) [
  | inl e ↦
      let p = (==_iff i j).0 e in
      rw e (elim (Bool-cases (ltb i (length cells))) [
        | inl lt ↦
            subst (λ (k : ℕ). cell (set cells i empty_level) k ≡ empty_level) p
              (get_or-set cells i empty_level empty_level (ltb→lt i (length cells) lt))
        | inr ge ↦
            get_or-outside (set cells i empty_level) j empty_level
              (omega (arith, length-set cells i empty_level, ltb→le i (length cells) ge))
      ])
  | inr ne ↦ rw ne (get_or-set_other cells i empty_level j empty_level (λ p. ground arith))
]

read_cells-set :
    (is : List ℕ) (i : ℕ) (cells : List Level)
    → has i is ≡ false
    → read_cells is (set cells i empty_level) ≡ read_cells is cells
unfolding read_cells
read_cells-set [] i cells h = refl
read_cells-set (j ∷ is) i cells h = elim (Bool-cases (j == i)) [
  | inl e ↦ absurd (ground (arith, e))
  | inr ne ↦
      let rest : has i is ≡ false = ground arith in
      let here = get_or-set_other cells i empty_level j empty_level (λ p. ground arith) in
      ap (λ (l : Level). l ∷ read_cells is (set cells i empty_level)) here
      ∙ ap (◌∷◌ (cell cells j)) (read_cells-set is i cells rest)
]

pub take_cells-read :
    (is : List ℕ) (cells : List Level) → Distinct is → (take_cells is cells).0 ≡ read_cells is cells
unfolding take_cells read_cells
take_cells-read [] cells d = refl
take_cells-read (i ∷ is) cells d =
    ap (◌∷◌ (cell cells i))
      (take_cells-read is (set cells i empty_level) d.1 ∙ read_cells-set is i cells d.0)

-- The cells that are left behind.
pub take_cells-blank :
    (is : List ℕ) (cells : List Level) (j : ℕ)
    → cell (take_cells is cells).1 j ≡ (if has j is then empty_level else cell cells j)
unfolding take_cells
take_cells-blank [] cells j = refl
take_cells-blank (i ∷ is) cells j =
    take_cells-blank is (set cells i empty_level) j
    ∙ ap (λ (l : Level). if has j is then empty_level else l) (blank_cell cells i j)
    ∙ either (i == j) (has j is)
  where
    either :
        (here there : Bool)
        → (if there then empty_level else if here then empty_level else cell cells j)
          ≡ (if (if here then true else there) then empty_level else cell cells j)
    either true true = refl
    either true false = refl
    either false true = refl
    either false false = refl

pub length-take_cells :
    (is : List ℕ) (cells : List Level) → length (take_cells is cells).1 ≡ length cells
unfolding take_cells
length-take_cells [] cells = refl
length-take_cells (i ∷ is) cells =
    length-take_cells is (set cells i empty_level) ∙ length-set cells i empty_level
