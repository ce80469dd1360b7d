-- ===== src/Book/PriceLevels/Anchoring.antt =====
-- The first steps of an addition in src/book/price_levels.cc: the base is set and the cells are made.
use nasdaq_itch_trading_syst.Base.{
  ℕ, ◌/◌, ◌%◌, ◌<◌, ◌^◌, ◌≡◌, ◌≢◌, inl, inr, refl, ap, sym, subst, ◌∙◌, arith, Bool, true, false,
  ◌&&◌, Option, none, some, length, replicate, get_or, ◌==◌, if◌then◌else◌, length-replicate,
  get_or-replicate, get_or-outside, Option-cases, Bool-cases, ==_iff,
}
use nasdaq_itch_trading_syst.Book.Level.{Level, empty_level}
use nasdaq_itch_trading_syst.Book.SortedMap.{get}
use nasdaq_itch_trading_syst.Book.Bitmap.Scan.{test_bit-false, zero_word}
use nasdaq_itch_trading_syst.Book.PriceLevels.{
  PriceLevels, tick, no_base, window, cell, cell_of, ensure_cells,
}
use nasdaq_itch_trading_syst.Book.PriceLevels.Update.{anchor}
use nasdaq_itch_trading_syst.Book.PriceLevels.WellFormed.{IsSide, settled, level_at}
use nasdaq_itch_trading_syst.Book.PriceLevels.Writes.{Moves, cell_of-some}
use nasdaq_itch_trading_syst.Book.PriceLevels.FarWrites.{level_at-far, level_at-cell, or_empty}
use nasdaq_itch_trading_syst.Book.PriceLevels.Rebase.{zeros-AreWords}

-- The side is well formed and has the same levels.
pub record Keeps (t t' : PriceLevels) : Type 0 where
  pub side : IsSide t'
  pub same : (q : ℕ) → level_at t' q ≡ level_at t q

pub Keeps-Moves :
    {t u v : PriceLevels} {p : ℕ} {l : Level} → Keeps t u → Moves u v p l → Moves t v p l
Keeps-Moves {t} {u} {v} {p} {l} k m = record {
  side = m.side;
  at = λ q. m.at q ∙ ap (λ (o : Level). if p == q then l else o) (k.same q);
}

pub Moves-Keeps :
    {t u v : PriceLevels} {p : ℕ} {l : Level} → Moves t u p l → Keeps u v → Moves t v p l
Moves-Keeps m k = record { side = k.side; at = λ q. k.same q ∙ m.at q }

pub window-lt : (span price : ℕ) → price < 2 ^ 32 → window span price ≢ no_base
unfolding window
window-lt span price small = ground arith

rough : (t : PriceLevels) (k : ℕ) → (k % tick == 0) ≡ false → cell_of t k ≡ none
unfolding cell_of
rough t k h = ground arith

unbased : (t : PriceLevels) (q : ℕ) → t.base_cents ≡ no_base → cell_of t q ≡ none
unfolding cell_of
unbased t q e = ground arith

unbased_blank :
    (t : PriceLevels) (i : ℕ)
    → IsSide t
    → t.base_cents ≡ no_base
    → (cell t.cells i).orders == 0 ≡ true
unbased_blank t i s e = elim (Bool-cases ((cell t.cells i).orders == 0)) [
  | inl blank ↦ blank
  | inr live ↦
      let (a, b, based) = cell_of-some t (cell t.cells i).price i (s.placed i live) in
      absurd (based e)
]

based_Keeps :
    (t : PriceLevels) (base : ℕ)
    → IsSide t
    → t.base_cents ≡ no_base
    → Keeps t (record t { base_cents = base })
based_Keeps t base s e = record {
  side = record {
    span_words = s.span_words;
    cell_count = s.cell_count;
    bit_count = s.bit_count;
    words = s.words;
    marks = s.marks;
    blank = s.blank;
    placed = λ i live. absurd (ground (arith, live, unbased_blank t i s e));
    sorted = s.sorted;
    far_placed =
        λ k l g. let (a, b, c) = s.far_placed k l g in (a, b, rough t' k (s.loose k l e g));
    loose = λ k l b g. s.loose k l e g;
  };
  same = λ q. elim (Option-cases (cell_of t' q)) [
    | inl far ↦ level_at-far t' q far ∙ sym (level_at-far t q (unbased t q e))
    | inr (i, there) ↦
        level_at-cell t' q i there
        ∙ rw (unbased_blank t i s e) (
            sym (
              level_at-far t q (unbased t q e)
              ∙ ap (λ (o : Option Level). settled (or_empty o)) (no_entry q i there)))
  ];
}
  where
    t' : PriceLevels
    t' = record t { base_cents = base }

    no_entry : (q i : ℕ) → cell_of t' q ≡ some i → get t.far q ≡ none
    no_entry q i there = elim (Option-cases (get t.far q)) [
      | inl missing ↦ missing
      | inr (l, g) ↦ absurd (ground (arith, there, rough t' q (s.loose q l e g)))
    ]

pub anchor_correct : (t : PriceLevels) (price : ℕ) → IsSide t → Keeps t (anchor t price)
unfolding anchor
anchor_correct t price s = elim (Bool-cases (t.base_cents == no_base && price % tick == 0)) [
  | inl first ↦
      let e : t.base_cents ≡ no_base = ground (arith, first) in
      subst (λ (b : Bool). Keeps t (if b then record t { base_cents = window t.span price } else t))
        (sym first) (based_Keeps t (window t.span price) s e)
  | inr other ↦
      subst (λ (b : Bool). Keeps t (if b then record t { base_cents = window t.span price } else t))
        (sym other) (record { side = s; same = λ q. refl })
]

pub anchor-base :
    (t : PriceLevels) (price : ℕ)
    → price < 2 ^ 32
    → (anchor t price).base_cents ≡ no_base
    → (price % tick == 0) ≡ false
unfolding anchor
anchor-base t price small e = ground (arith, window-lt t.span price small)

filled_Keeps :
    (t : PriceLevels)
    → IsSide t
    → length t.cells ≡ 0
    → Keeps t (record t { cells = replicate t.span empty_level; bits = replicate (t.span / 64) 0 })
unfolding cell_of
filled_Keeps t s z = record {
  side = record {
    span_words = s.span_words;
    cell_count = inr (length-replicate t.span empty_level);
    bit_count =
        rw (length-replicate {A = ℕ} (t.span / 64) 0, length-replicate t.span empty_level)
          s.span_words;
    words = zeros-AreWords (t.span / 64);
    marks = λ i.
        test_bit-false (replicate (t.span / 64) 0) i (
          zero_word (get_or (replicate (t.span / 64) 0) (i / 64) 0) (i % 64)
            (get_or-replicate (t.span / 64) (i / 64) 0))
        ∙ rw (get_or-replicate t.span i empty_level) refl;
    blank = λ i e. rw (get_or-replicate t.span i empty_level) refl;
    placed = λ i live. absurd (ground (arith, live, get_or-replicate t.span i empty_level));
    sorted = s.sorted;
    far_placed = s.far_placed;
    loose = s.loose;
  };
  same = λ q. same q (cell_of t q) refl;
}
  where
    t' : PriceLevels
    t' = record t { cells = replicate t.span empty_level; bits = replicate (t.span / 64) 0 }

    same : (q : ℕ) (o : Option ℕ) → cell_of t q ≡ o → level_at t' q ≡ level_at t q
    same q none e = level_at-far t' q e ∙ sym (level_at-far t q e)
    same q (some i) e =
        level_at-cell t' q i e
        ∙ ap settled (
            get_or-replicate t.span i empty_level
            ∙ sym (get_or-outside t.cells i empty_level (omega arith)))
        ∙ sym (level_at-cell t q i e)

-- The cells are there afterwards.
pub ensure_cells_correct :
    (t : PriceLevels)
    → IsSide t
    → Keeps t (ensure_cells t)
      × (length (ensure_cells t).cells ≡ t.span)
      × ((p : ℕ) → cell_of (ensure_cells t) p ≡ cell_of t p)
unfolding ensure_cells cell_of
ensure_cells_correct t s = elim (Bool-cases (length t.cells == 0)) [
  | inl e ↦ subst Ensured (sym e) (
    filled_Keeps t s ((==_iff (length t.cells) 0).0 e),
    length-replicate t.span empty_level,
    λ p. refl,
  )
  | inr ne ↦ subst Ensured (sym ne) (record { side = s; same = λ q. refl }, ground arith, λ p. refl)
]
  where
    Ensured : Bool → Type 0
    Ensured b =
        let u : PriceLevels =
          if b
          then record t { cells = replicate t.span empty_level; bits = replicate (t.span / 64) 0 }
          else t in
        Keeps t u × (length u.cells ≡ t.span) × ((p : ℕ) → cell_of u p ≡ cell_of t p)
