-- ===== src/Book/PriceLevels/Vacating.antt =====
-- A cell that loses its last order, and the best that follows, in src/book/price_levels.cc.
use nasdaq_itch_trading_syst.Base.{
  ℕ, ◌/◌, ◌%◌, ◌<◌, ◌^◌, ◌≡◌, inl, inr, refl, ap, sym, subst, ◌∙◌, arith, Bool, true, false, ◌&&◌,
  Option, none, some, length, ◌==◌, if◌then◌else◌, Bool-cases, ==_iff, sub_u64,
}
use nasdaq_itch_trading_syst.Book.Level.{Side, buy_side, sell_side, Level, empty_level}
use nasdaq_itch_trading_syst.Book.SortedMap.{get, first, last}
use nasdaq_itch_trading_syst.Book.SortedMap.Lookup.{first-get, last-get}
use nasdaq_itch_trading_syst.Book.Bitmap.{clear_bit}
use nasdaq_itch_trading_syst.Book.Bitmap.Marks.{
  clear_bit-AreWords, test_bit-clear_bit, test_bit-clear_bit_other, length-clear_bit,
}
use nasdaq_itch_trading_syst.Book.PriceLevels.{
  PriceLevels, tick, cell, cell_of, improves, far_best, scan_best, rebase,
}
use nasdaq_itch_trading_syst.Book.PriceLevels.Update.{is_best, next_best, vacate}
use nasdaq_itch_trading_syst.Book.PriceLevels.WellFormed.{IsSide, settled, level_at}
use nasdaq_itch_trading_syst.Book.PriceLevels.Writes.{Moves, Moves-change, written, written_correct}
use nasdaq_itch_trading_syst.Book.PriceLevels.FarWrites.{level_at-far, or_empty}
use nasdaq_itch_trading_syst.Book.PriceLevels.Rebase.{rebase_correct}
use nasdaq_itch_trading_syst.Book.PriceLevels.Anchoring.{Keeps, Moves-Keeps, window-lt}
use nasdaq_itch_trading_syst.Book.PriceLevels.Shares.{occupied_inside}

-- All prices with orders, and their orders, have 32 bits.
unfoldable pub IsNarrow : PriceLevels → Type 0
IsNarrow t =
    (q : ℕ) → ((level_at t q).orders == 0) ≡ false → (q < 2 ^ 32) × ((level_at t q).orders < 2 ^ 32)

pub Moves-IsNarrow :
    {t u : PriceLevels} {p : ℕ} {l : Level}
    → Moves t u p l
    → p < 2 ^ 32
    → l.orders < 2 ^ 32
    → IsNarrow t
    → IsNarrow u
unfolding IsNarrow
Moves-IsNarrow {t} {u} {p} {l} m small few n q live = elim (Bool-cases (p == q)) [
  | inl e ↦
      let now : level_at u q ≡ l = m.at q ∙ rw e refl in
      (
        subst (λ (r : ℕ). r < 2 ^ 32) ((==_iff p q).0 e) small,
        subst (λ (k : Level). k.orders < 2 ^ 32) (sym now) few,
      )
  | inr ne ↦
      let same : level_at u q ≡ level_at t q = m.at q ∙ rw ne refl in
      subst (λ (k : Level). (q < 2 ^ 32) × (k.orders < 2 ^ 32)) (sym same)
        (n q (subst (λ (k : Level). (k.orders == 0) ≡ false) same live))
]

pub far_best-get :
    (t : PriceLevels) (e : ℕ × Level) → IsSide t → far_best t ≡ some e → get t.far e.0 ≡ some e.1
unfolding far_best
far_best-get t e s h = either t.side h
  where
    either :
        (side : Side)
        → (elim side [ buy_side ↦ last t.far | sell_side ↦ first t.far ]) ≡ some e
        → get t.far e.0 ≡ some e.1
    either buy_side h = last-get t.far e s.sorted h
    either sell_side h = first-get t.far e h

pub rebest_Keeps :
    (t : PriceLevels) (b : Option ℕ) → IsSide t → Keeps t (record t { best_cell = b })
unfolding cell_of level_at
rebest_Keeps t b s = record {
  side = record {
    span_words = s.span_words;
    cell_count = s.cell_count;
    bit_count = s.bit_count;
    words = s.words;
    marks = s.marks;
    blank = s.blank;
    placed = s.placed;
    sorted = s.sorted;
    far_placed = s.far_placed;
    loose = s.loose;
  };
  same = λ q. refl;
}

pub far_best_narrow :
    (t : PriceLevels) (e : ℕ × Level) → IsSide t → IsNarrow t → far_best t ≡ some e → e.0 < 2 ^ 32
unfolding IsNarrow
far_best_narrow t e s narrow h =
    let g = far_best-get t e s h in
    let (a, live, far) = s.far_placed e.0 e.1 g in
    let at : level_at t e.0 ≡ e.1 =
      level_at-far t e.0 far ∙ ap (λ (o : Option Level). settled (or_empty o)) g ∙ rw live refl in
    (narrow e.0 (subst (λ (l : Level). (l.orders == 0) ≡ false) (sym at) live)).0

next_best-Keeps : (t : PriceLevels) → IsSide t → IsNarrow t → Keeps t (next_best t)
unfolding next_best far_best
next_best-Keeps t s narrow = either (far_best u) refl
  where
    u : PriceLevels
    u = record t { best_cell = scan_best t }

    k : Keeps t u
    k = rebest_Keeps t (scan_best t) s

    inner : (e : ℕ × Level) → e.0 < 2 ^ 32 → (b : Bool) → Keeps t (if b then rebase u e.0 else u)
    inner e small true =
        let (side, same, top) = rebase_correct u e.0 k.side (window-lt u.span e.0 small) in
        record { side = side; same = λ q. same q ∙ k.same q }
    inner e small false = k

    either :
        (o : Option (ℕ × Level))
        → far_best u ≡ o
        → Keeps t (elim o [
          | none ↦ u
          | some e ↦ if e.0 % tick == 0 && improves u e.0 then rebase u e.0 else u
        ])
    either none h = k
    either (some e) h = inner e (far_best_narrow t e s narrow h) (e.0 % tick == 0 && improves u e.0)

-- A cell whose last order is gone, before the next best is found.
abbrev pub vacated : PriceLevels → ℕ → Level → PriceLevels
vacated t i l =
    written t i (record l { shares = 0 }) (clear_bit t.bits i) (sub_u64 t.array_count 1) t.best_cell

pub vacated_correct :
    (t : PriceLevels) (i : ℕ) (l : Level)
    → IsSide t
    → ((cell t.cells i).orders == 0) ≡ false
    → l.price ≡ (cell t.cells i).price
    → (l.orders == 0) ≡ true
    → Moves t (vacated t i l) l.price empty_level
vacated_correct t i l s live p gone =
    let inside = occupied_inside t.cells i live in
    let word : i / 64 < length t.bits = omega (arith, s.bit_count) in
    Moves-change
      (written_correct t i (record l { shares = 0 }) (clear_bit t.bits i) (sub_u64 t.array_count 1)
        t.best_cell s
        (record {
          inside = inside;
          blank = λ z. refl;
          placed = subst (λ (q : ℕ). cell_of t q ≡ some i) (sym p) (s.placed i live);
          words = clear_bit-AreWords t.bits i s.words;
          bit_count = length-clear_bit t.bits i;
          here = test_bit-clear_bit t.bits i word ∙ rw gone refl;
          others = λ j ne. test_bit-clear_bit_other t.bits i j word ne;
        }))
      refl (rw gone refl)

pub vacate_correct :
    (t : PriceLevels) (i : ℕ) (l : Level)
    → IsSide t
    → IsNarrow t
    → ((cell t.cells i).orders == 0) ≡ false
    → l.price ≡ (cell t.cells i).price
    → (l.orders == 0) ≡ true
    → l.price < 2 ^ 32
    → Moves t (vacate t i l) l.price empty_level
unfolding vacate
vacate_correct t i l s narrow live p gone small = either (is_best t i)
  where
    m : Moves t (vacated t i l) l.price empty_level
    m = vacated_correct t i l s live p gone

    either :
        (b : Bool)
        → Moves t (if b then next_best (vacated t i l) else vacated t i l) l.price empty_level
    either true =
        Moves-Keeps m
          (next_best-Keeps (vacated t i l) m.side (Moves-IsNarrow m small (omega arith) narrow))
    either false = m
