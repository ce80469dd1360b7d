-- ===== src/Book/PriceLevels/Rebase.antt =====
-- The move of the window in src/book/price_levels.cc.
use nasdaq_itch_trading_syst.Base.{
  ℕ, zero, suc, ◌%◌, ◌+◌, ◌/◌, ◌≡◌, ◌≢◌, inl, inr, refl, ap, sym, subst, ◌∙◌, arith, Bool, true,
  false, Option, none, List, [], ◌++◌, length, replicate, get_or, ◌==◌, if◌then◌else◌, u64,
  length-replicate, get_or-replicate, get_or-outside, ◌⊎◌, All-append, Option-cases, Bool-cases,
  ==_iff,
}
use nasdaq_itch_trading_syst.Book.Level.{Level, empty_level}
use nasdaq_itch_trading_syst.Book.SortedMap.{get, values}
use nasdaq_itch_trading_syst.Book.Bitmap.Scan.{test_bit-false, zero_word}
use nasdaq_itch_trading_syst.Book.Bitmap.Marks.{AreWords}
use nasdaq_itch_trading_syst.Book.PriceLevels.{
  PriceLevels, no_base, window, cell, cell_of, gather, ensure_cells, place_all, rebase,
}
use nasdaq_itch_trading_syst.Book.PriceLevels.WellFormed.{IsSide, settled, level_at}
use nasdaq_itch_trading_syst.Book.PriceLevels.FarWrites.{level_at-far, level_at-cell, or_empty}
use nasdaq_itch_trading_syst.Book.PriceLevels.Latest.{
  latest, latest-append, latest-values, values-All, or_else,
}
use nasdaq_itch_trading_syst.Book.PriceLevels.Top.{IsTop}
use nasdaq_itch_trading_syst.Book.PriceLevels.Placing.{place_all_correct}
use nasdaq_itch_trading_syst.Book.PriceLevels.Gathered.{Gathered, gather-Gathered}

-- The cells and the map before anything is put back.
abbrev pub fresh : PriceLevels → List Level → ℕ → PriceLevels
fresh t cells base = record {
  side = t.side;
  span = t.span;
  base_cents = base;
  cells = cells;
  bits = replicate (t.span / 64) 0;
  array_count = 0;
  best_cell = none;
  far = [];
  rebases = u64 (t.rebases + 1);
}

pub zeros-AreWords : (n : ℕ) → AreWords (replicate n 0)
zeros-AreWords zero = tt
zeros-AreWords (suc n) = (omega arith, zeros-AreWords n)

fresh-IsSide :
    (t : PriceLevels) (cells : List Level) (base : ℕ)
    → IsSide t
    → length cells ≡ t.span
    → ((j : ℕ) → ((cell cells j).orders ≡ 0) × ((cell cells j).shares ≡ 0))
    → IsSide (fresh t cells base)
unfolding get
fresh-IsSide t cells base s count blank = record {
  span_words = s.span_words;
  cell_count = inr count;
  bit_count = rw (length-replicate {A = ℕ} (t.span / 64) 0) (s.span_words ∙ sym count);
  words = zeros-AreWords (t.span / 64);
  marks = λ i.
      test_bit-false (replicate (t.span / 64) 0) i (
        zero_word (get_or (replicate (t.span / 64) 0) (i / 64) 0) (i % 64)
          (get_or-replicate (t.span / 64) (i / 64) 0))
      ∙ rw ((blank i).0) refl;
  blank = λ i e. (blank i).1;
  placed = λ i e. absurd (ground (arith, e, (blank i).0));
  sorted = tt;
  far_placed = λ k l e. absurd (ground (arith, e));
  loose = λ k l b e. absurd (ground (arith, e));
}

fresh-level_at :
    (t : PriceLevels) (cells : List Level) (base : ℕ)
    → ((j : ℕ) → ((cell cells j).orders ≡ 0) × ((cell cells j).shares ≡ 0))
    → (p : ℕ) → level_at (fresh t cells base) p ≡ empty_level
unfolding get
fresh-level_at t cells base blank p = elim (Option-cases (cell_of (fresh t cells base) p)) [
  | inl e ↦ level_at-far (fresh t cells base) p e
  | inr (i, e) ↦ level_at-cell (fresh t cells base) p i e ∙ rw ((blank i).0) refl
]

-- The cells into which the levels are put back.
pub refilled : ℕ → List Level → List Level
refilled span cells = if length cells == 0 then replicate span empty_level else cells

refilled_lem :
    (span : ℕ) (cells : List Level)
    → (length cells ≡ 0) ⊎ (length cells ≡ span)
    → ((j : ℕ) → ((cell cells j).orders ≡ 0) × ((cell cells j).shares ≡ 0))
    → (length (refilled span cells) ≡ span)
      × ((j : ℕ)
          → ((cell (refilled span cells) j).orders ≡ 0)
            × ((cell (refilled span cells) j).shares ≡ 0))
unfolding refilled
refilled_lem span cells count blank = elim (Bool-cases (length cells == 0)) [
  | inl e ↦ rw e (
    length-replicate span empty_level,
    λ j. rw (get_or-replicate span j empty_level) (refl, refl),
  )
  | inr ne ↦ rw ne (ground arith, blank)
]

pub taken : PriceLevels → List Level × List Level
taken t = if length t.cells == 0 then ([], []) else gather t.bits 0 t.cells

taken-Gathered : (t : PriceLevels) → IsSide t → Gathered t (taken t)
unfolding taken latest
taken-Gathered t s = elim (Bool-cases (length t.cells == 0)) [
  | inl e ↦
      let z : length t.cells ≡ 0 = (==_iff (length t.cells) 0).0 e in
      rw e (record {
        count = sym z;
        blank = λ j. (refl, refl);
        live = tt;
        at_cell = λ p i c. sym (ap settled (get_or-outside t.cells i empty_level (omega arith)));
        no_cell = λ p c. refl;
      })
  | inr ne ↦ rw ne (gather-Gathered t s)
]

pub rebase_parts :
    (t : PriceLevels) (centre : ℕ)
    → rebase t centre
      ≡ place_all
          ((taken t).0 ++ values t.far)
          (fresh t (refilled t.span (taken t).1) (window t.span centre))
unfolding rebase ensure_cells refilled taken
rebase_parts t centre =
    ap (place_all ((taken t).0 ++ values t.far)) (either (length (taken t).1 == 0))
  where
    either :
        (b : Bool)
        → record (if b
            then record t {
              cells = replicate t.span empty_level;
              bits = replicate (t.span / 64) 0;
              far = [];
            }
            else record t { cells = (taken t).1; far = [] }) {
              bits = replicate (t.span / 64) 0;
              array_count = 0;
              best_cell = none;
              base_cents = window t.span centre;
              rebases = u64 (t.rebases + 1);
            }
          ≡ fresh t (if b then replicate t.span empty_level else (taken t).1) (window t.span centre)
    either true = refl
    either false = refl

-- A move of the window keeps every level.
pub rebase_correct :
    (t : PriceLevels) (centre : ℕ)
    → IsSide t
    → window t.span centre ≢ no_base
    → IsSide (rebase t centre)
      × ((p : ℕ) → level_at (rebase t centre) p ≡ level_at t p)
      × IsTop (rebase t centre)
rebase_correct t centre s based =
    let g = taken-Gathered t s in
    let base = window t.span centre in
    let (count, blank) =
      refilled_lem t.span (taken t).1
        (subst (λ (n : ℕ). (n ≡ 0) ⊎ (n ≡ t.span)) (sym g.count) s.cell_count) g.blank in
    let cells = refilled t.span (taken t).1 in
    let (side, at, top) =
      place_all_correct ((taken t).0 ++ values t.far) (fresh t cells base)
        (fresh-IsSide t cells base s count blank) (record { based = based; cells = count })
        (All-append (λ (l : Level). (l.orders == 0) ≡ false) (taken t).0 (values t.far) g.live
          (values-All (λ (l : Level). (l.orders == 0) ≡ false) t.far s.sorted
            (λ k l e. (s.far_placed k l e).1))) in
    subst (λ u. IsSide u × ((p : ℕ) → level_at u p ≡ level_at t p) × IsTop u)
      (sym (rebase_parts t centre))
      (
        side,
        λ p.
            at p
            ∙ ap (latest ((taken t).0 ++ values t.far) p) (fresh-level_at t cells base blank p)
            ∙ latest-append (taken t).0 (values t.far) p empty_level
            ∙ latest-values t.far p (latest (taken t).0 p empty_level) s.sorted
                (λ k l e. (s.far_placed k l e).0)
            ∙ put_back t s g p,
        top (λ i. rw ((blank i).0) refl),
      )
  where
    put_back :
        (t : PriceLevels)
        → IsSide t
        → Gathered t (taken t)
        → (p : ℕ) → or_else (get t.far p) (latest (taken t).0 p empty_level) ≡ level_at t p
    put_back t s g p = elim (Option-cases (get t.far p)) [
      | inr (l, e) ↦
          let (a, live, far) = s.far_placed p l e in
          ap (λ (o : Option Level). or_else o (latest (taken t).0 p empty_level)) e
          ∙ sym (
              level_at-far t p far
              ∙ ap (λ (o : Option Level). settled (or_empty o)) e
              ∙ rw live refl)
      | inl e ↦
          ap (λ (o : Option Level). or_else o (latest (taken t).0 p empty_level)) e
          ∙ elim (Option-cases (cell_of t p)) [
            | inl far ↦
                g.no_cell p far
                ∙ sym (level_at-far t p far ∙ ap (λ (o : Option Level). settled (or_empty o)) e)
            | inr (i, there) ↦ g.at_cell p i there ∙ sym (level_at-cell t p i there)
          ]
    ]
