-- ===== src/Book/PriceLevels/Best.antt =====
-- The best level of a side, src/book/price_levels.cc.
use nasdaq_itch_trading_syst.Base.{
  ℕ, ◌≡◌, refl, ap, sym, subst, ◌∙◌, arith, Bool, true, false, none, some, Option, [], ◌∷◌, ==_refl,
  ◌==◌, if◌then◌else◌, inl, inr, Bool-cases, le→ltb,
}
use nasdaq_itch_trading_syst.Book.Level.{Side, buy_side, sell_side, Level}
use nasdaq_itch_trading_syst.Book.SortedMap.{SortedMap, get, first, last}
use nasdaq_itch_trading_syst.Book.SortedMap.Lookup.{first-least, last-greatest, first-get, last-get}
use nasdaq_itch_trading_syst.Book.PriceLevels.{PriceLevels, better, cell, far_best, best}
use nasdaq_itch_trading_syst.Book.PriceLevels.WellFormed.{IsSide, settled, level_at}
use nasdaq_itch_trading_syst.Book.PriceLevels.FarWrites.{level_at-far, level_at-cell, or_empty}
use nasdaq_itch_trading_syst.Book.PriceLevels.Top.{Top, IsTop, better_below}
use nasdaq_itch_trading_syst.Book.PriceLevels.Shares.{StandsAt, level_at-StandsAt}

-- The best of the levels at all prices, if there are any.
abbrev pub IsBest : Side → (ℕ → Level) → Option Level → Type 0
IsBest side m none = (q : ℕ) → ((m q).orders == 0) ≡ true
IsBest side m (some l) =
    ((l.orders == 0) ≡ false)
    × (m l.price ≡ l)
    × ((q : ℕ) → ((m q).orders == 0) ≡ false → better side q l.price ≡ false)

better_trans :
    (side : Side) (p q r : ℕ)
    → better side p q ≡ false
    → better side q r ≡ false
    → better side p r ≡ false
unfolding better
better_trans buy_side p q r h h' = ground arith
better_trans sell_side p q r h h' = ground arith

-- No entry of the map is better than its best.
abbrev FarEntry : Side → SortedMap → Option (ℕ × Level) → Type 0
FarEntry side m none = (q : ℕ) → get m q ≡ none
FarEntry side m (some e) =
    (get m e.0 ≡ some e.1) × ((q : ℕ) (l : Level) → get m q ≡ some l → better side q e.0 ≡ false)

none-first : (m : SortedMap) (q : ℕ) → first m ≡ none → get m q ≡ none
unfolding first get
none-first [] q h = refl
none-first (e ∷ m) q h = absurd (ground (arith, h))

none-last : (m : SortedMap) (q : ℕ) → last m ≡ none → get m q ≡ none
unfolding last get
none-last [] q h = refl
none-last (e ∷ []) q h = absurd (ground (arith, h))
none-last (e ∷ (k, l) ∷ m) q h =
    let there : get ((k, l) ∷ m) k ≡ some l = rw (==_refl k) refl in
    absurd (ground (arith, there, none-last ((k, l) ∷ m) k h))

far_best-FarEntry :
    (t : PriceLevels) (o : Option (ℕ × Level)) → IsSide t → far_best t ≡ o → FarEntry t.side t.far o
unfolding far_best better
far_best-FarEntry t o s h = either t.side o h
  where
    either :
        (side : Side) (o : Option (ℕ × Level))
        → (elim side [ buy_side ↦ last t.far | sell_side ↦ first t.far ]) ≡ o
        → FarEntry side t.far o
    either buy_side none h = λ q. none-last t.far q h
    either sell_side none h = λ q. none-first t.far q h
    either buy_side (some e) h = (
      last-get t.far e s.sorted h,
      λ q l g. le→ltb e.0 q (last-greatest t.far e q l s.sorted h g),
    )
    either sell_side (some e) h =
        (first-get t.far e h, λ q l g. le→ltb q e.0 (first-least t.far e q l s.sorted h g))

-- The best of a side is the best of its levels.
pub best_correct : (t : PriceLevels) → IsSide t → IsTop t → IsBest t.side (level_at t) (best t)
unfolding best StandsAt
best_correct t s top = either t.best_cell top (far_best t) (far_best-FarEntry t (far_best t) s refl)
  where
    -- A bound for the cells and one for the map bound all levels.
    all_below :
        (p : ℕ)
        → ((i : ℕ)
            → ((cell t.cells i).orders == 0) ≡ false
            → better t.side (cell t.cells i).price p ≡ false)
        → ((q : ℕ) (l : Level) → get t.far q ≡ some l → better t.side q p ≡ false)
        → (q : ℕ) → ((level_at t q).orders == 0) ≡ false
        → better t.side q p ≡ false
    all_below p cells far q live = elim (level_at-StandsAt t q s live) [
      | inl (i, e, at, same, o) ↦ subst (λ (r : ℕ). better t.side r p ≡ false) same (cells i o)
      | inr (l, none_there, e, at, same, o, loose) ↦ far q l e
    ]

    cell_best :
        (b : ℕ)
        → Top t.side t.cells (some b)
        → ((q : ℕ) (l : Level)
            → get t.far q ≡ some l
            → better t.side q (cell t.cells b).price ≡ false)
        → IsBest t.side (level_at t) (some (cell t.cells b))
    cell_best b top far = (
      top.0,
      level_at-cell t (cell t.cells b).price b (s.placed b top.0) ∙ rw (top.0) refl,
      all_below (cell t.cells b).price top.1 far,
    )

    far_best' :
        (e : ℕ × Level)
        → FarEntry t.side t.far (some e)
        → ((i : ℕ)
            → ((cell t.cells i).orders == 0) ≡ false
            → better t.side (cell t.cells i).price e.0 ≡ false)
        → IsBest t.side (level_at t) (some e.1)
    far_best' e entry cells =
        let (p, live, far) = s.far_placed e.0 e.1 entry.0 in
        (
          live,
          ap (level_at t) p
              ∙ level_at-far t e.0 far
              ∙ ap (λ (o : Option Level). settled (or_empty o)) (entry.0)
              ∙ rw live refl,
          subst
              (λ (r : ℕ).
                (q : ℕ) → ((level_at t q).orders == 0) ≡ false → better t.side q r ≡ false)
              (sym p) (all_below e.0 cells entry.1),
        )

    choose :
        (b : ℕ) (e : ℕ × Level)
        → Top t.side t.cells (some b)
        → FarEntry t.side t.far (some e)
        → (c : Bool) → better t.side e.0 (cell t.cells b).price ≡ c
        → IsBest t.side (level_at t) (if c then some e.1 else some (cell t.cells b))
    choose b e top entry true h = far_best' e entry (λ i live.
        better_below t.side (cell t.cells i).price (cell t.cells b).price e.0 (top.1 i live) h)
    choose b e top entry false h =
        cell_best b top
          (λ q l g. better_trans t.side q e.0 (cell t.cells b).price (entry.1 q l g) h)

    either :
        (o : Option ℕ)
        → Top t.side t.cells o
        → (f : Option (ℕ × Level)) → FarEntry t.side t.far f
        → IsBest t.side (level_at t) (elim o [
          | some b ↦ elim f [
            | some e ↦
                if better t.side e.0 (cell t.cells b).price then some e.1 else some (cell t.cells b)
            | none ↦ some (cell t.cells b)
          ]
          | none ↦ elim f [ some e ↦ some e.1 | none ↦ none ]
        ])
    either (some b) top (some e) entry =
        choose b e top entry (better t.side e.0 (cell t.cells b).price) refl
    either (some b) top none entry = cell_best b top (λ q l g. absurd (ground (arith, g, entry q)))
    either none top (some e) entry =
        far_best' e entry (λ i live. absurd (ground (arith, live, top i)))
    either none top none entry = λ q. elim (Bool-cases ((level_at t q).orders == 0)) [
      | inl blank ↦ blank
      | inr live ↦ elim (level_at-StandsAt t q s live) [
        | inl (i, e, at, same, o) ↦ absurd (ground (arith, o, top i))
        | inr (l, none_there, e, at, same, o, loose) ↦ absurd (ground (arith, e, entry q))
      ]
    ]
