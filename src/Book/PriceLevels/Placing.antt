-- ===== src/Book/PriceLevels/Placing.antt =====
-- Levels that are put where they belong, in src/book/price_levels.cc.
use nasdaq_itch_trading_syst.Base.{
  sym, set, subst, ℕ, ◌+◌, ◌/◌, ◌<◌, ◌≡◌, ◌≢◌, inl, inr, refl, ap, ◌∙◌, arith, Bool, true, false,
  Option, some, List, [], ◌∷◌, All, length, ◌==◌, if◌then◌else◌, u64, length-set, Option-cases,
}
use nasdaq_itch_trading_syst.Book.Level.{Level}
use nasdaq_itch_trading_syst.Book.Bitmap.{set_bit}
use nasdaq_itch_trading_syst.Book.Bitmap.Marks.{
  set_bit-AreWords, test_bit-set_bit, test_bit-set_bit_other, length-set_bit,
}
use nasdaq_itch_trading_syst.Book.PriceLevels.{
  PriceLevels, no_base, cell, cell_of, improves, occupy, place_level, place_all,
}
use nasdaq_itch_trading_syst.Book.PriceLevels.WellFormed.{IsSide, level_at}
use nasdaq_itch_trading_syst.Book.PriceLevels.Writes.{
  Moves, Moves-change, IsWrite, written, written_correct, cell_of-some, cell_of-injective,
}
use nasdaq_itch_trading_syst.Book.PriceLevels.FarWrites.{put_far_correct}
use nasdaq_itch_trading_syst.Book.PriceLevels.Top.{Top, IsTop, enter-Top}
use nasdaq_itch_trading_syst.Book.PriceLevels.Latest.{latest}

-- The side has a window and its cells.
pub record IsReady (t : PriceLevels) : Type 0 where
  pub based : t.base_cents ≢ no_base
  pub cells : length t.cells ≡ t.span

-- A level with orders and the bit of its cell.
pub mark_IsWrite :
    (t : PriceLevels) (i : ℕ) (l : Level)
    → IsSide t
    → i < length t.cells
    → (l.orders == 0) ≡ false
    → cell_of t l.price ≡ some i
    → IsWrite t i l (set_bit t.bits i)
mark_IsWrite t i l s inside live there =
    let word : i / 64 < length t.bits = omega (arith, s.bit_count) in
    record {
      inside = inside;
      blank = λ z. absurd (ground arith);
      placed = there;
      words = set_bit-AreWords t.bits i s.words;
      bit_count = length-set_bit t.bits i;
      here = test_bit-set_bit t.bits i word ∙ rw live refl;
      others = λ j ne. test_bit-set_bit_other t.bits i j word ne;
    }

-- `occupy` writes the level and its bit.
pub occupy_written :
    (t : PriceLevels) (i : ℕ) (l : Level)
    → (b : Option ℕ) × (occupy t i l ≡ written t i l (set_bit t.bits i) (u64 (t.array_count + 1)) b)
unfolding occupy
occupy_written t i l = either (improves t' l.price)
  where
    t' : PriceLevels
    t' = written t i l (set_bit t.bits i) (u64 (t.array_count + 1)) t.best_cell

    either :
        (b : Bool)
        → (best : Option ℕ) × ((if b then record t' { best_cell = some i } else t')
            ≡ written t i l (set_bit t.bits i) (u64 (t.array_count + 1)) best)
    either true = (some i, refl)
    either false = (t.best_cell, refl)

-- A level that is put into its cell is the best if it is better than the best before.
pub occupy-Top :
    (t : PriceLevels) (i : ℕ) (l : Level)
    → IsSide t
    → i < length t.cells
    → (l.orders == 0) ≡ false
    → cell_of t l.price ≡ some i
    → IsTop t
    → IsTop (occupy t i l)
unfolding occupy improves
occupy-Top t i l s inside live there top = either (improves t' l.price) (
    enter-Top t.side t.cells i l l t.best_cell inside refl live
      (λ h. cell_of-injective t (cell t.cells i).price l.price i (s.placed i h) there) top)
  where
    t' : PriceLevels
    t' = written t i l (set_bit t.bits i) (u64 (t.array_count + 1)) t.best_cell

    either :
        (b : Bool)
        → Top t.side (set t.cells i l) (if b then some i else t.best_cell)
        → IsTop (if b then record t' { best_cell = some i } else t')
    either true h = h
    either false h = h

place_level_correct :
    (t : PriceLevels) (l : Level)
    → IsSide t
    → IsReady t
    → (l.orders == 0) ≡ false
    → Moves t (place_level t l) l.price l
      × IsReady (place_level t l)
      × (IsTop t → IsTop (place_level t l))
unfolding place_level
place_level_correct t l s ready live = elim (Option-cases (cell_of t l.price)) [
  | inl far ↦
      rw (far, place_level)
        (
          put_far_correct t l.price l s far (refl, live, λ e. absurd (ready.based e)),
          record { based = ready.based; cells = ready.cells },
          λ top. top,
        )
  | inr (i, there) ↦
      let (inside, p, based) = cell_of-some t l.price i there in
      let inside' : i < length t.cells = omega (arith, ready.cells) in
      let (b, e) = occupy_written t i l in
      let m =
        written_correct t i l (set_bit t.bits i) (u64 (t.array_count + 1)) b s
          (mark_IsWrite t i l s inside' live there) in
      rw (there, place_level)
        (subst (λ (u : PriceLevels). Moves t u l.price l × IsReady u × (IsTop t → IsTop u)) (sym e)
          (
            Moves-change m refl (rw live refl),
            record { based = ready.based; cells = length-set t.cells i l ∙ ready.cells },
            λ top. subst IsTop e (occupy-Top t i l s inside' live there top),
          ))
]

-- The side has the last of the levels at every price.
pub place_all_correct :
    (ls : List Level) (t : PriceLevels)
    → IsSide t
    → IsReady t
    → All (λ (l : Level). (l.orders == 0) ≡ false) ls
    → IsSide (place_all ls t)
      × ((p : ℕ) → level_at (place_all ls t) p ≡ latest ls p (level_at t p))
      × (IsTop t → IsTop (place_all ls t))
unfolding place_all latest
place_all_correct [] t s ready live = (s, λ p. refl, λ top. top)
place_all_correct (l ∷ ls) t s ready live =
    let (m, ready', top') = place_level_correct t l s ready live.0 in
    let (s', at, top'') = place_all_correct ls (place_level t l) m.side ready' live.1 in
    (s', λ p. at p ∙ ap (latest ls p) (m.at p), λ top. top'' (top' top))
