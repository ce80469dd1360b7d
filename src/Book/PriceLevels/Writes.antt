-- ===== src/Book/PriceLevels/Writes.antt =====
-- Writes of one level, to a cell or to the map of src/book/price_levels.cc.
use nasdaq_itch_trading_syst.Base.{
  ℕ, ◌+◌, ◌*◌, ◌<◌, ◌≡◌, ◌≢◌, ◌⊎◌, inl, inr, refl, ap, sym, subst, ◌∙◌, arith, false, not, Option,
  some, List, length, set, ◌==◌, if◌then◌else◌, length-set, get_or-set, get_or-set_other,
  Option-cases, Bool-cases, ==_iff,
}
use native.Mathlib.Decide.{ℕ_discrete}
use nasdaq_itch_trading_syst.Book.Level.{Level, empty_level}
use nasdaq_itch_trading_syst.Book.Bitmap.{test_bit}
use nasdaq_itch_trading_syst.Book.Bitmap.Marks.{AreWords}
use nasdaq_itch_trading_syst.Book.PriceLevels.{PriceLevels, no_base, cell, cell_of}
use nasdaq_itch_trading_syst.Book.PriceLevels.WellFormed.{IsSide, settled, level_at}

-- The side is well formed, and has the level at the price and all others as they were.
pub record Moves (t t' : PriceLevels) (price : ℕ) (l : Level) : Type 0 where
  pub side : IsSide t'
  pub at : (q : ℕ) → level_at t' q ≡ (if price == q then l else level_at t q)

pub Moves-change :
    {t t' : PriceLevels} {p p' : ℕ} {l l' : Level}
    → Moves t t' p l
    → p ≡ p'
    → l ≡ l'
    → Moves t t' p' l'
Moves-change {t} {t'} {p} {p'} {l} {l'} m e f =
    subst (λ (q : ℕ). Moves t t' q l') e (subst (λ (k : Level). Moves t t' p k) f m)

pub cell_of-some :
    (t : PriceLevels) (p i : ℕ)
    → cell_of t p ≡ some i
    → (i < t.span) × (p ≡ (i + t.base_cents) * 100) × (t.base_cents ≢ no_base)
unfolding cell_of
cell_of-some t p i e = ground arith

abbrev pub written : PriceLevels → ℕ → Level → List ℕ → ℕ → Option ℕ → PriceLevels
written t i l bits n b = record t {
  cells = set t.cells i l;
  bits = bits;
  array_count = n;
  best_cell = b;
}

pub cell_of-injective :
    (t : PriceLevels) (p q i : ℕ) → cell_of t p ≡ some i → cell_of t q ≡ some i → p ≡ q
cell_of-injective t p q i hp hq =
    let (a, b, c) = cell_of-some t p i hp in let (d, e, f) = cell_of-some t q i hq in b ∙ sym e

-- What a new level and a new bitmap have to satisfy.
pub record IsWrite (t : PriceLevels) (i : ℕ) (l : Level) (bits : List ℕ) : Type 0 where
  pub inside : i < length t.cells
  pub blank : l.orders ≡ 0 → l.shares ≡ 0
  pub placed : cell_of t l.price ≡ some i
  pub words : AreWords bits
  pub bit_count : length bits ≡ length t.bits
  pub here : test_bit bits i ≡ not (l.orders == 0)
  pub others : (j : ℕ) → i ≢ j → test_bit bits j ≡ test_bit t.bits j

written-IsSide :
    (t : PriceLevels) (i : ℕ) (l : Level) (bits : List ℕ) (n : ℕ) (b : Option ℕ)
    → IsSide t
    → IsWrite t i l bits
    → IsSide (written t i l bits n b)
unfolding cell_of
written-IsSide t i l bits n b s w = record {
  span_words = s.span_words;
  cell_count =
      subst (λ (k : ℕ). (k ≡ 0) ⊎ (k ≡ t.span)) (sym (length-set t.cells i l)) s.cell_count;
  bit_count = rw (length-set t.cells i l, w.bit_count) s.bit_count;
  words = w.words;
  marks = λ j.
      at_cell j (λ (m : Level). test_bit bits j ≡ not (m.orders == 0))
        (λ e. subst (λ (j : ℕ). test_bit bits j ≡ not (l.orders == 0)) e w.here)
        (λ ne. w.others j ne ∙ s.marks j);
  blank =
      λ j. at_cell j (λ (m : Level). m.orders ≡ 0 → m.shares ≡ 0) (λ e. w.blank) (λ ne. s.blank j);
  placed = λ j.
      at_cell j (λ (m : Level). (m.orders == 0) ≡ false → cell_of t m.price ≡ some j)
        (λ e o. w.placed ∙ ap some e) (λ ne. s.placed j);
  sorted = s.sorted;
  far_placed = s.far_placed;
  loose = s.loose;
}
  where
    at_cell :
        (j : ℕ) (P : Level → Type 0)
        → (i ≡ j → P l)
        → (i ≢ j → P (cell t.cells j))
        → P (cell (set t.cells i l) j)
    at_cell j P here other = elim (ℕ_discrete i j) [
      | yes e ↦
          subst P
            (sym (
              ap (λ (j : ℕ). cell (set t.cells i l) j) (sym e)
              ∙ get_or-set t.cells i l empty_level w.inside))
            (here e)
      | no ne ↦ subst P (sym (get_or-set_other t.cells i l j empty_level ne)) (other ne)
    ]

pub not_same : (p q : ℕ) → (p == q) ≡ false → p ≢ q
not_same p q ne e = ground arith

written_at :
    (t : PriceLevels) (i : ℕ) (l : Level) (bits : List ℕ) (n : ℕ) (b : Option ℕ)
    → IsWrite t i l bits
    → (q : ℕ)
    → level_at (written t i l bits n b) q ≡ (if l.price == q then settled l else level_at t q)
unfolding level_at cell_of
written_at t i l bits n b w q = elim (Bool-cases (l.price == q)) [
  | inl e ↦
      let e' : l.price ≡ q = (==_iff l.price q).0 e in
      let here : cell_of t q ≡ some i = subst (λ (p : ℕ). cell_of t p ≡ some i) e' w.placed in
      rw (e, here, get_or-set t.cells i l empty_level w.inside) refl
  | inr ne ↦ elim (Option-cases (cell_of t q)) [
    | inl far ↦ rw (ne, far) refl
    | inr (j, there) ↦
        let apart : i ≢ j = λ m.
          not_same l.price q ne
            (cell_of-injective t l.price q i w.placed (there ∙ ap some (sym m))) in
        rw (ne, there, get_or-set_other t.cells i l j empty_level apart) refl
  ]
]

-- A level is written to the cell of its price.
pub written_correct :
    (t : PriceLevels) (i : ℕ) (l : Level) (bits : List ℕ) (n : ℕ) (b : Option ℕ)
    → IsSide t
    → IsWrite t i l bits
    → Moves t (written t i l bits n b) l.price (settled l)
written_correct t i l bits n b s w = record {
  side = written-IsSide t i l bits n b s w;
  at = written_at t i l bits n b w;
}
