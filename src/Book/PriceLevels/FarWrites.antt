-- ===== src/Book/PriceLevels/FarWrites.antt =====
-- Writes of one level to the map of src/book/price_levels.cc.
use nasdaq_itch_trading_syst.Base.{
  ℕ, ◌%◌, ◌≡◌, inl, inr, refl, ap, sym, subst, ◌∙◌, false, Option, none, some, ◌==◌, Option-cases,
  Bool-cases, ==_iff,
}
use nasdaq_itch_trading_syst.Book.Level.{Level, empty_level}
use nasdaq_itch_trading_syst.Book.SortedMap.{SortedMap, get, get_or_empty, put, remove_key}
use nasdaq_itch_trading_syst.Book.SortedMap.Lookup.{
  IsSorted, get-put, get-put_other, put-IsSorted, get-remove_key, get-remove_key_other,
  remove_key-IsSorted,
}
use nasdaq_itch_trading_syst.Book.PriceLevels.{PriceLevels, tick, no_base, cell, cell_of}
use nasdaq_itch_trading_syst.Book.PriceLevels.WellFormed.{IsSide, settled, level_at}
use nasdaq_itch_trading_syst.Book.PriceLevels.Writes.{Moves}

abbrev pub or_empty : Option Level → Level
or_empty none = empty_level
or_empty (some l) = l

pub level_at-far :
    (t : PriceLevels) (q : ℕ) → cell_of t q ≡ none → level_at t q ≡ settled (or_empty (get t.far q))
unfolding level_at get_or_empty
level_at-far t q e = elim (Option-cases (get t.far q)) [
  | inl a ↦ rw (e, get_or_empty, a) refl
  | inr (l, a) ↦ rw (e, get_or_empty, a) refl
]

pub level_at-cell :
    (t : PriceLevels) (q i : ℕ) → cell_of t q ≡ some i → level_at t q ≡ settled (cell t.cells i)
unfolding level_at
level_at-cell t q i e = rw e refl

-- The entry of a map at a price that has no cell.
abbrev pub IsEntry : PriceLevels → ℕ → Option Level → Type 0
IsEntry t price none = Unit
IsEntry t price (some l) =
    (l.price ≡ price)
    × ((l.orders == 0) ≡ false)
    × (t.base_cents ≡ no_base → (price % tick == 0) ≡ false)

-- The map is replaced by one that differs at a price which has no cell.
pub far_correct :
    (t : PriceLevels) (m : SortedMap) (price : ℕ)
    → IsSide t
    → IsSorted m
    → cell_of t price ≡ none
    → IsEntry t price (get m price)
    → ((q : ℕ) → (price == q) ≡ false → get m q ≡ get t.far q)
    → Moves t (record t { far = m }) price (or_empty (get m price))
unfolding cell_of
far_correct t m price s sorted far entry others = record {
  side = record {
    span_words = s.span_words;
    cell_count = s.cell_count;
    bit_count = s.bit_count;
    words = s.words;
    marks = s.marks;
    blank = s.blank;
    placed = s.placed;
    sorted = sorted;
    far_placed = λ k l e. elim (Bool-cases (price == k)) [
      | inl same ↦
          let p = (==_iff price k).0 same in
          let (a, b, c) = subst (λ o. IsEntry t price o) (ap (λ (q : ℕ). get m q) p ∙ e) entry in
          (a ∙ p, b, subst (λ (q : ℕ). cell_of t q ≡ none) p far)
      | inr ne ↦ s.far_placed k l (sym (others k ne) ∙ e)
    ];
    loose = λ k l base e. elim (Bool-cases (price == k)) [
      | inl same ↦
          let p = (==_iff price k).0 same in
          let (a, b, c) = subst (λ o. IsEntry t price o) (ap (λ (q : ℕ). get m q) p ∙ e) entry in
          subst (λ (q : ℕ). (q % tick == 0) ≡ false) p (c base)
      | inr ne ↦ s.loose k l base (sym (others k ne) ∙ e)
    ];
  };
  at = λ q. elim (Bool-cases (price == q)) [
    | inl same ↦
        let p = (==_iff price q).0 same in
        let here = level_at-far t' price far ∙ no_blank (get m price) entry in
        rw same (subst (λ (k : ℕ). level_at t' k ≡ or_empty (get m price)) p here)
    | inr ne ↦ rw ne (other q ne (cell_of t q) refl)
  ];
}
  where
    t' : PriceLevels
    t' = record t { far = m }

    no_blank : (o : Option Level) → IsEntry t price o → settled (or_empty o) ≡ or_empty o
    no_blank none h = refl
    no_blank (some l) h = rw (h.1) refl

    other :
        (q : ℕ)
        → (price == q) ≡ false
        → (c : Option ℕ) → cell_of t q ≡ c
        → level_at t' q ≡ level_at t q
    other q ne none e =
        level_at-far t' q e
        ∙ ap (λ o. settled (or_empty o)) (others q ne)
        ∙ sym (level_at-far t q e)
    other q ne (some i) e = level_at-cell t' q i e ∙ sym (level_at-cell t q i e)

-- A level that has no cell is written to the map.
pub put_far_correct :
    (t : PriceLevels) (price : ℕ) (l : Level)
    → IsSide t
    → cell_of t price ≡ none
    → IsEntry t price (some l)
    → Moves t (record t { far = put t.far price l }) price l
put_far_correct t price l s far entry =
    let e = get-put t.far price l in
    subst (λ (o : Option Level). Moves t (record t { far = put t.far price l }) price (or_empty o))
      e
      (far_correct t (put t.far price l) price s (put-IsSorted t.far price l s.sorted) far
        (subst (λ o. IsEntry t price o) (sym e) entry) (get-put_other t.far price l))

-- A level of the map is erased.
pub remove_far_correct :
    (t : PriceLevels) (price : ℕ)
    → IsSide t
    → cell_of t price ≡ none
    → Moves t (record t { far = remove_key t.far price }) price empty_level
remove_far_correct t price s far =
    let e = get-remove_key t.far price s.sorted in
    subst
      (λ (o : Option Level). Moves t (record t { far = remove_key t.far price }) price (or_empty o))
      e
      (far_correct t (remove_key t.far price) price s (remove_key-IsSorted t.far price s.sorted) far
        (subst (λ o. IsEntry t price o) (sym e) tt) (get-remove_key_other t.far price))
