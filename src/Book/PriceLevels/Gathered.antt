-- ===== src/Book/PriceLevels/Gathered.antt =====
-- What a move of the window of src/book/price_levels.cc takes out of the cells.
use nasdaq_itch_trading_syst.Base.{
  ℕ, ◌-◌, ◌*◌, ◌≡◌, inl, inr, refl, ap, sym, subst, ◌∙◌, arith, Bool, true, false, not, Option,
  none, some, List, All, length, ◌==◌, leb, if◌then◌else◌, Bool-cases,
}
use nasdaq_itch_trading_syst.Book.Level.{Level, empty_level}
use nasdaq_itch_trading_syst.Book.Bitmap.{test_bit}
use nasdaq_itch_trading_syst.Book.Bitmap.Enumerate.{has}
use nasdaq_itch_trading_syst.Book.Bitmap.Positions.{positions, has-positions, positions-Distinct}
use nasdaq_itch_trading_syst.Book.PriceLevels.{PriceLevels, cell, cell_of, gather}
use nasdaq_itch_trading_syst.Book.PriceLevels.WellFormed.{IsSide, settled}
use nasdaq_itch_trading_syst.Book.PriceLevels.Gather.{
  gather-take, take_cells-blank, length-take_cells,
}
use nasdaq_itch_trading_syst.Book.PriceLevels.Latest.{
  latest, latest-take, take_cells-All, Fits-has, cell_at,
}

has-positions_marks :
    (t : PriceLevels) (i : ℕ)
    → IsSide t
    → has i (positions t.bits 0) ≡ not ((cell t.cells i).orders == 0)
has-positions_marks t i s =
    has-positions i 0 t.bits s.words
    ∙ from_zero i (i - 0 * 64) (omega arith) (test_bit t.bits)
    ∙ s.marks i
  where
    from_zero : (i j : ℕ) → j ≡ i → (f : ℕ → Bool) → (if leb (0 * 64) i then f j else false) ≡ f i
    from_zero i j e f = rw e (at_any (leb 0 i) (ground arith))
      where
        at_any : (b : Bool) → b ≡ true → (if b then f i else false) ≡ f i
        at_any b h = rw h refl

-- What is taken out of the cells.
pub record Gathered (t : PriceLevels) (g : List Level × List Level) : Type 0 where
  pub count : length g.1 ≡ length t.cells
  pub blank : (j : ℕ) → ((cell g.1 j).orders ≡ 0) × ((cell g.1 j).shares ≡ 0)
  pub live : All (λ (l : Level). (l.orders == 0) ≡ false) g.0
  pub at_cell :
      (p i : ℕ) → cell_of t p ≡ some i → latest g.0 p empty_level ≡ settled (cell t.cells i)
  pub no_cell : (p : ℕ) → cell_of t p ≡ none → latest g.0 p empty_level ≡ empty_level

pub gather-Gathered : (t : PriceLevels) → IsSide t → Gathered t (gather t.bits 0 t.cells)
unfolding cell_at
gather-Gathered t s =
    let is = positions t.bits 0 in
    let distinct = positions-Distinct 0 t.bits s.words in
    let occupied = λ (i : ℕ) (h : has i is ≡ true).
      not_false ((cell t.cells i).orders == 0) (sym (has-positions_marks t i s) ∙ h) in
    let at = λ (p : ℕ).
      latest-take t is p empty_level distinct (Fits-has t is (λ i h. s.placed i (occupied i h))) in
    subst (λ (g : List Level × List Level). Gathered t g) (sym (gather-take t.bits 0 t.cells))
      (record {
        count = length-take_cells is t.cells;
        blank = λ j.
            subst (λ (l : Level). (l.orders ≡ 0) × (l.shares ≡ 0))
              (sym (take_cells-blank is t.cells j))
              (left (cell t.cells j) (has j is) (has-positions_marks t j s) (s.blank j));
        live = take_cells-All (λ (l : Level). (l.orders == 0) ≡ false) is t.cells distinct occupied;
        at_cell = λ p i e.
            at p
            ∙ ap (λ (o : Option ℕ). cell_at t is o empty_level) e
            ∙ read (cell t.cells i) (has i is) (has-positions_marks t i s);
        no_cell = λ p e. at p ∙ ap (λ (o : Option ℕ). cell_at t is o empty_level) e;
      })
  where
    not_false : (b : Bool) → not b ≡ true → b ≡ false
    not_false true e = sym e
    not_false false e = refl

    left :
        (l : Level) (b : Bool)
        → b ≡ not (l.orders == 0)
        → (l.orders ≡ 0 → l.shares ≡ 0)
        → ((if b then empty_level else l).orders ≡ 0) × ((if b then empty_level else l).shares ≡ 0)
    left l true e h = (refl, refl)
    left l false e h = let z : l.orders ≡ 0 = ground (arith, e) in (z, h z)

    read :
        (l : Level) (b : Bool)
        → b ≡ not (l.orders == 0)
        → (if b then l else empty_level) ≡ settled l
    read l b e = elim (Bool-cases (l.orders == 0)) [
      | inl z ↦ rw (e, z) refl
      | inr z ↦ rw (e, z) refl
    ]
