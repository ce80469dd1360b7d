-- ===== src/Book/PriceLevels/Adding.antt =====
-- An order that is added to a side, src/book/price_levels.cc.
use nasdaq_itch_trading_syst.Base.{
  ℕ, ◌+◌, ◌%◌, ◌<◌, ◌^◌, ◌≡◌, inl, inr, refl, ap, sym, subst, ◌∙◌, arith, Bool, true, false, ◌&&◌,
  Option, none, some, ◌==◌, if◌then◌else◌, Option-cases, u32, u64,
}
use nasdaq_itch_trading_syst.Book.Level.{Level, empty_level}
use nasdaq_itch_trading_syst.Book.SortedMap.{get, get_or_empty, put}
use nasdaq_itch_trading_syst.Book.PriceLevels.{
  PriceLevels, tick, no_base, cell_of, improves, ensure_cells, rebase,
}
use nasdaq_itch_trading_syst.Book.PriceLevels.Update.{anchor, credit, add_cell, add_far, add_level}
use nasdaq_itch_trading_syst.Book.PriceLevels.WellFormed.{IsSide, settled, level_at}
use nasdaq_itch_trading_syst.Book.PriceLevels.Writes.{Moves, Moves-change, cell_of-some}
use nasdaq_itch_trading_syst.Book.PriceLevels.FarWrites.{put_far_correct, level_at-far, or_empty}
use nasdaq_itch_trading_syst.Book.PriceLevels.Rebase.{rebase_correct}
use nasdaq_itch_trading_syst.Book.PriceLevels.Anchoring.{
  Keeps-Moves, Moves-Keeps, window-lt, anchor_correct, anchor-base, ensure_cells_correct,
}
use nasdaq_itch_trading_syst.Book.PriceLevels.Shares.{level_of}
use nasdaq_itch_trading_syst.Book.PriceLevels.AddedCell.{
  credited, some_left, credited_as, add_cell_correct,
}

far_level :
    (t : PriceLevels) (price : ℕ)
    → IsSide t
    → cell_of t price ≡ none
    → level_at t price ≡ get_or_empty t.far price
unfolding get_or_empty
far_level t price s far = elim (Option-cases (get t.far price)) [
  | inl e ↦
      level_at-far t price far
      ∙ ap (λ (o : Option Level). settled (or_empty o)) e
      ∙ sym (ap or_empty' e)
  | inr (l, e) ↦
      let (a, live, c) = s.far_placed price l e in
      level_at-far t price far
      ∙ ap (λ (o : Option Level). settled (or_empty o)) e
      ∙ rw live refl
      ∙ sym (ap or_empty' e)
]
  where
    or_empty' : Option Level → Level
    or_empty' o = elim o [ none ↦ empty_level | some l ↦ l ]

-- The map with one more order at a price.
abbrev pub far_put : PriceLevels → ℕ → ℕ → PriceLevels
far_put t price shares = record t {
  far = put t.far price (credited price (get_or_empty t.far price) shares);
}

pub far_put_correct :
    (t : PriceLevels) (price shares : ℕ)
    → IsSide t
    → cell_of t price ≡ none
    → (t.base_cents ≡ no_base → (price % tick == 0) ≡ false)
    → (level_at t price).orders + 1 < 2 ^ 32
    → Moves t (far_put t price shares) price (credited price (level_at t price) shares)
far_put_correct t price shares s far loose room =
    let l = get_or_empty t.far price in
    let at : level_at t price ≡ l = far_level t price s far in
    Moves-change
      (put_far_correct t price (credited price l shares) s far
        (refl, some_left l.orders (subst (λ (k : Level). k.orders + 1 < 2 ^ 32) at room), loose))
      refl
      (credited_as price shares l (level_at t price) (sym (ap (λ (k : Level). k.shares) at))
        (sym (ap (λ (k : Level). k.orders) at)))

add_far_correct :
    (t : PriceLevels) (price shares : ℕ)
    → IsSide t
    → price < 2 ^ 32
    → cell_of t price ≡ none
    → (t.base_cents ≡ no_base → (price % tick == 0) ≡ false)
    → (level_at t price).orders + 1 < 2 ^ 32
    → Moves t (add_far t price shares) price (credited price (level_at t price) shares)
unfolding add_far credit
add_far_correct t price shares s small far loose room =
    either (price % tick == 0 && improves (far_put t price shares) price)
  where
    m : Moves t (far_put t price shares) price (credited price (level_at t price) shares)
    m = far_put_correct t price shares s far loose room

    either :
        (b : Bool)
        → Moves t
            (if b then rebase (far_put t price shares) price else far_put t price shares)
            price
            (credited price (level_at t price) shares)
    either true =
        let (side, same, top) =
          rebase_correct (far_put t price shares) price m.side (window-lt t.span price small) in
        Moves-Keeps m (record { side = side; same = same })
    either false = m

-- On a side that satisfies the invariant, for a price of 32 bits with fewer than 2 ^ 32 - 1 orders,
-- `add` keeps the invariant: the level at the price has the shares more, on 64 bits, and one order
-- more, and every other level is as it was, also if the window of cells moves.
pub add_level_correct :
    (t : PriceLevels) (price shares : ℕ)
    → IsSide t
    → price < 2 ^ 32
    → (level_at t price).orders + 1 < 2 ^ 32
    → Moves t (add_level t price shares) price (
        level_of price
          (u64 ((level_at t price).shares + shares))
          (u32 ((level_at t price).orders + 1)))
unfolding add_level
add_level_correct t price shares s small room =
    let k = anchor_correct t price s in
    Keeps-Moves k (
      subst (λ (l : Level). Moves u (add_level t price shares) price (credited price l shares))
        (k.same price)
        (either (cell_of u price) refl k.side
          (subst (λ (l : Level). l.orders + 1 < 2 ^ 32) (sym (k.same price)) room)))
  where
    u : PriceLevels
    u = anchor t price

    either :
        (o : Option ℕ)
        → cell_of u price ≡ o
        → IsSide u
        → (level_at u price).orders + 1 < 2 ^ 32
        → Moves u
            (elim o [
              | some i ↦ add_cell (ensure_cells u) i price shares
              | none ↦ add_far u price shares
            ])
            price
            (credited price (level_at u price) shares)
    either none e s' room' =
        add_far_correct u price shares s' small e (anchor-base t price small) room'
    either (some i) e s' room' =
        let (k, count, cells) = ensure_cells_correct u s' in
        let (inside, p, based) = cell_of-some u price i e in
        Keeps-Moves k (
          subst
            (λ (l : Level).
              Moves (ensure_cells u) (add_cell (ensure_cells u) i price shares) price
                (credited price l shares))
            (k.same price)
            (add_cell_correct (ensure_cells u) i price shares k.side (omega (arith, count))
              (cells price ∙ e)
              (subst (λ (l : Level). l.orders + 1 < 2 ^ 32) (sym (k.same price)) room')))
