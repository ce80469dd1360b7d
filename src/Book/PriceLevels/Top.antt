-- ===== src/Book/PriceLevels/Top.antt =====
-- The cached best cell of src/book/price_levels.cc.
use nasdaq_itch_trading_syst.Base.{
  ℕ, ◌<◌, ◌≡◌, ◌≢◌, ◌⊎◌, refl, ap, sym, subst, ◌∙◌, arith, true, false, List, none, some, Option,
  length, set, ◌==◌, if◌then◌else◌, inl, inr, Bool-cases, get_or-set, get_or-set_other,
}
use native.Mathlib.Decide.{ℕ_discrete}
use nasdaq_itch_trading_syst.Book.Level.{Side, buy_side, sell_side, Level, empty_level}
use nasdaq_itch_trading_syst.Book.PriceLevels.{PriceLevels, better, cell}

-- None if all cells are blank, and else an occupied cell than which no other is better.
abbrev pub Top : Side → List Level → Option ℕ → Type 0
Top side cells none = (i : ℕ) → ((cell cells i).orders == 0) ≡ true
Top side cells (some b) =
    (((cell cells b).orders == 0) ≡ false)
    × ((j : ℕ)
        → ((cell cells j).orders == 0) ≡ false
        → better side (cell cells j).price (cell cells b).price ≡ false)

abbrev pub IsTop : PriceLevels → Type 0
IsTop t = Top t.side t.cells t.best_cell

pub better_self : (side : Side) (p : ℕ) → better side p p ≡ false
unfolding better
better_self buy_side p = ground arith
better_self sell_side p = ground arith

pub better_below :
    (side : Side) (p q r : ℕ)
    → better side p q ≡ false
    → better side r q ≡ true
    → better side p r ≡ false
unfolding better
better_below buy_side p q r h h' = ground arith
better_below sell_side p q r h h' = ground arith

-- The same cells are occupied, at the same prices.
pub Top-outline :
    (side : Side) (cells cells' : List Level) (best : Option ℕ)
    → ((j : ℕ) → ((cell cells' j).orders == 0) ≡ ((cell cells j).orders == 0))
    → ((j : ℕ)
        → ((cell cells j).orders == 0) ≡ false
        → (cell cells' j).price ≡ (cell cells j).price)
    → Top side cells best
    → Top side cells' best
Top-outline side cells cells' none occupied price top = λ i. occupied i ∙ top i
Top-outline side cells cells' (some b) occupied price top = (
  occupied b ∙ top.0,
  λ j live.
      let live' = sym (occupied j) ∙ live in
      ap (λ (p : ℕ). better side p (cell cells' b).price) (price j live')
      ∙ ap (λ (p : ℕ). better side (cell cells j).price p) (price b top.0)
      ∙ top.1 j live',
)

module _ (cells : List Level) (i : ℕ) (l' : Level) (inside : i < length cells) where
  pub at_entry :
      (P : Level → Type 0) (j : ℕ)
      → (i ≡ j → P l')
      → (i ≢ j → P (cell cells j))
      → P (cell (set cells i l') j)
  at_entry P j here other = elim (ℕ_discrete i j) [
    | yes e ↦
        subst (λ (j : ℕ). P (cell (set cells i l') j)) e
          (subst P (sym (get_or-set cells i l' empty_level inside)) (here e))
    | no ne ↦ subst P (sym (get_or-set_other cells i l' j empty_level ne)) (other ne)
  ]

  -- What holds of the price that enters and of those that were there holds of all.
  entered_prices :
      (Q : ℕ → Type 0)
      → Q l'.price
      → ((j : ℕ) → ((cell cells j).orders == 0) ≡ false → Q (cell cells j).price)
      → (j : ℕ) → ((cell (set cells i l') j).orders == 0) ≡ false
      → Q (cell (set cells i l') j).price
  entered_prices Q new old j =
      at_entry (λ (k : Level). (k.orders == 0) ≡ false → Q k.price) j (λ e live. new)
        (λ ne live. old j live)

  entered_price :
      (b : ℕ)
      → ((cell cells i).price ≡ l'.price ⊎ (i ≢ b))
      → (cell (set cells i l') b).price ≡ (cell cells b).price
  entered_price b same =
      at_entry (λ (k : Level). k.price ≡ (cell cells b).price) b
        (λ e. elim same [
          | inl p ↦ sym p ∙ ap (λ (j : ℕ). (cell cells j).price) e
          | inr ne ↦ absurd (ne e)
        ])
        (λ ne. refl)

same_or_apart :
    (cells : List Level) (i b p : ℕ)
    → (((cell cells i).orders == 0) ≡ false → (cell cells i).price ≡ p)
    → ((cell cells b).orders == 0) ≡ false
    → ((cell cells i).price ≡ p) ⊎ (i ≢ b)
same_or_apart cells i b p same live = elim (ℕ_discrete i b) [
  | yes e ↦ inl (same (subst (λ (j : ℕ). ((cell cells j).orders == 0) ≡ false) (sym e) live))
  | no ne ↦ inr ne
]

-- A level with orders enters a cell; the test looks at the cells with a level of the same price.
pub enter-Top :
    (side : Side) (cells : List Level) (i : ℕ) (l l' : Level) (best : Option ℕ)
    → i < length cells
    → l'.price ≡ l.price
    → (l'.orders == 0) ≡ false
    → (((cell cells i).orders == 0) ≡ false → (cell cells i).price ≡ l.price)
    → Top side cells best
    → Top side (set cells i l') (
        if (elim best [ none ↦ true | some b ↦ better side l.price (cell (set cells i l) b).price ])
        then some i
        else best)
enter-Top side cells i l l' none inside p live same top = (
  at_entry cells i l' inside (λ (k : Level). (k.orders == 0) ≡ false) i (λ e. live)
      (λ ne. absurd (ne refl)),
  λ j lj. rw (get_or-set cells i l' empty_level inside) (
      entered_prices cells i l' inside (λ (q : ℕ). better side q l'.price ≡ false)
        (better_self side l'.price) (λ k h. absurd (ground (arith, h, top k))) j lj),
)
enter-Top side cells i l l' (some b) inside p live same top =
    elim (Bool-cases (better side l.price (cell (set cells i l) b).price)) [
      | inl gains ↦
          let gains' : better side l'.price (cell cells b).price ≡ true =
            ap (λ (q : ℕ). better side q (cell cells b).price) p
            ∙ ap (λ (q : ℕ). better side l.price q)
                (sym
                  (entered_price cells i l inside b (same_or_apart cells i b l.price same top.0)))
            ∙ gains in
          rw gains (
            at_entry cells i l' inside (λ (k : Level). (k.orders == 0) ≡ false) i (λ e. live)
                (λ ne. absurd (ne refl)),
            λ j lj. rw (get_or-set cells i l' empty_level inside) (
                entered_prices cells i l' inside (λ (q : ℕ). better side q l'.price ≡ false)
                  (better_self side l'.price)
                  (λ k h.
                    better_below side (cell cells k).price (cell cells b).price l'.price (top.1 k h)
                      gains')
                  j lj),
          )
      | inr stays ↦
          let stays' : better side l'.price (cell cells b).price ≡ false =
            ap (λ (q : ℕ). better side q (cell cells b).price) p
            ∙ ap (λ (q : ℕ). better side l.price q)
                (sym
                  (entered_price cells i l inside b (same_or_apart cells i b l.price same top.0)))
            ∙ stays in
          let kept =
            entered_price cells i l' inside b
              (same_or_apart cells i b l'.price (λ h. same h ∙ sym p) top.0) in
          rw stays (
            at_entry cells i l' inside (λ (k : Level). (k.orders == 0) ≡ false) b (λ e. live)
                (λ ne. top.0),
            λ j lj.
                subst (λ (q : ℕ). better side (cell (set cells i l') j).price q ≡ false) (sym kept)
                  (entered_prices cells i l' inside
                    (λ (q : ℕ). better side q (cell cells b).price ≡ false) stays' top.1 j lj),
          )
    ]

-- A cell other than the best is vacated.
pub leave-Top :
    (side : Side) (cells : List Level) (i : ℕ) (l : Level) (best : Option ℕ)
    → i < length cells
    → (l.orders == 0) ≡ true
    → best ≢ some i
    → Top side cells best
    → Top side (set cells i l) best
leave-Top side cells i l none inside gone apart top = λ j.
    at_entry cells i l inside (λ (k : Level). (k.orders == 0) ≡ true) j (λ e. gone) (λ ne. top j)
leave-Top side cells i l (some b) inside gone apart top =
    let here = get_or-set_other cells i l b empty_level (λ e. apart (ap some (sym e))) in
    (
      subst (λ (k : Level). (k.orders == 0) ≡ false) (sym here) top.0,
      λ j.
          subst
            (λ (m : Level).
              ((cell (set cells i l) j).orders == 0) ≡ false
              → better side (cell (set cells i l) j).price m.price ≡ false)
            (sym here)
            (at_entry cells i l inside
              (λ (k : Level).
                (k.orders == 0) ≡ false → better side k.price (cell cells b).price ≡ false)
              j (λ e h. absurd (ground (arith, h, gone))) (λ ne. top.1 j)),
    )
