-- ===== src/Book/PriceLevels/Entering.antt =====
-- An addition of src/book/price_levels.cc keeps the best cell.
use nasdaq_itch_trading_syst.Base.{
  ℕ, ◌+◌, ◌%◌, ◌<◌, ◌^◌, ◌/◌, ◌≡◌, refl, sym, subst, ◌∙◌, arith, Bool, true, false, ◌&&◌, List,
  none, some, Option, length, set, replicate, ◌==◌, if◌then◌else◌, inl, inr, Bool-cases,
  get_or-replicate, get_or-outside, set-set, u32, u64,
}
use nasdaq_itch_trading_syst.Book.Level.{Level, empty_level}
use nasdaq_itch_trading_syst.Book.Bitmap.{set_bit}
use nasdaq_itch_trading_syst.Book.PriceLevels.{
  PriceLevels, no_base, tick, window, cell, cell_of, improves, ensure_cells, occupy, rebase,
}
use nasdaq_itch_trading_syst.Book.PriceLevels.Update.{anchor, credit, add_cell, add_far, add_level}
use nasdaq_itch_trading_syst.Book.PriceLevels.WellFormed.{IsSide, level_at}
use nasdaq_itch_trading_syst.Book.PriceLevels.Writes.{written, cell_of-some}
use nasdaq_itch_trading_syst.Book.PriceLevels.FarWrites.{level_at-cell}
use nasdaq_itch_trading_syst.Book.PriceLevels.Top.{Top, IsTop, Top-outline, enter-Top}
use nasdaq_itch_trading_syst.Book.PriceLevels.Rebase.{rebase_correct}
use nasdaq_itch_trading_syst.Book.PriceLevels.Anchoring.{
  window-lt, anchor_correct, anchor-base, ensure_cells_correct,
}
use nasdaq_itch_trading_syst.Book.PriceLevels.Adding.{far_put, far_put_correct}
use nasdaq_itch_trading_syst.Book.PriceLevels.AddedCell.{some_left, blank_zero, occupied_here}
use nasdaq_itch_trading_syst.Book.PriceLevels.Cached.{rewrite-Top}

add_cell-Top :
    (t : PriceLevels) (i price shares : ℕ)
    → IsSide t
    → i < length t.cells
    → cell_of t price ≡ some i
    → (level_at t price).orders + 1 < 2 ^ 32
    → IsTop t
    → IsTop (add_cell t i price shares)
unfolding add_cell credit occupy improves
add_cell-Top t i price shares s inside there room top = elim (Bool-cases (l.orders == 0)) [
  | inl blank ↦
      subst (λ (b : Bool). IsTop (put_in (if b then occupy t i l' else t))) (sym blank)
        (blank_cell blank)
  | inr live ↦
      let at : level_at t price ≡ l = level_at-cell t price i there ∙ rw live refl in
      subst (λ (b : Bool). IsTop (put_in (if b then occupy t i l' else t))) (sym live)
        (rewrite-Top t i (u64 (l.shares + shares)) (u32 (l.orders + 1)) live
          (some_left l.orders (subst (λ (k : Level). k.orders + 1 < 2 ^ 32) at room)) top)
]
  where
    l : Level
    l = cell t.cells i

    l' : Level
    l' = record l { price = price }

    put_in : PriceLevels → PriceLevels
    put_in u = record u { cells = set u.cells i (credit (cell u.cells i) shares) }

    t' : PriceLevels
    t' = written t i l' (set_bit t.bits i) (u64 (t.array_count + 1)) t.best_cell

    either :
        (b : Bool)
        → Top t.side (set t.cells i (credit l' shares)) (if b then some i else t.best_cell)
        → Top
            (if b then record t' { best_cell = some i } else t').side
            (set (if b then record t' { best_cell = some i } else t').cells i (credit l' shares))
            (if b then record t' { best_cell = some i } else t').best_cell
    either true h =
        subst (λ (cells : List Level). Top t.side cells (some i))
          (sym (set-set t.cells i l' (credit l' shares))) h
    either false h =
        subst (λ (cells : List Level). Top t.side cells t.best_cell)
          (sym (set-set t.cells i l' (credit l' shares))) h

    blank_cell : (l.orders == 0) ≡ true → IsTop (put_in (occupy t i l'))
    blank_cell blank =
        let (z, zs) = blank_zero t i s blank in
        subst
          (λ (c : Level).
            Top (occupy t i l').side (set (occupy t i l').cells i (credit c shares))
              (occupy t i l').best_cell)
          (sym (occupied_here t i l' inside))
          (either (improves t' price) (
            enter-Top t.side t.cells i l' (credit l' shares) t.best_cell inside refl
              (ground (arith, z)) (λ h. absurd (ground (arith, h, blank))) top))

add_far-Top :
    (t : PriceLevels) (price shares : ℕ)
    → IsSide t
    → price < 2 ^ 32
    → cell_of t price ≡ none
    → (t.base_cents ≡ no_base → (price % tick == 0) ≡ false)
    → (level_at t price).orders + 1 < 2 ^ 32
    → IsTop t
    → IsTop (add_far t price shares)
unfolding add_far credit
add_far-Top t price shares s small far loose room top =
    either (price % tick == 0 && improves (far_put t price shares) price)
  where
    either :
        (b : Bool)
        → IsTop (if b then rebase (far_put t price shares) price else far_put t price shares)
    either true =
        let m = far_put_correct t price shares s far loose room in
        let (side, same, top') =
          rebase_correct (far_put t price shares) price m.side (window-lt t.span price small) in
        top'
    either false = top

anchor-Top : (t : PriceLevels) (price : ℕ) → IsTop t → IsTop (anchor t price)
unfolding anchor
anchor-Top t price top = either (t.base_cents == no_base && price % tick == 0)
  where
    either : (b : Bool) → IsTop (if b then record t { base_cents = window t.span price } else t)
    either true = top
    either false = top

ensure_cells-Top : (t : PriceLevels) → IsTop t → IsTop (ensure_cells t)
unfolding ensure_cells
ensure_cells-Top t top = either (length t.cells == 0) refl
  where
    filled : PriceLevels
    filled = record t { cells = replicate t.span empty_level; bits = replicate (t.span / 64) 0 }

    either : (b : Bool) → (length t.cells == 0) ≡ b → IsTop (if b then filled else t)
    either true e =
        let outside = λ (j : ℕ). get_or-outside t.cells j empty_level (ground (arith, e)) in
        Top-outline t.side t.cells (replicate t.span empty_level) t.best_cell
          (λ j. rw (get_or-replicate t.span j empty_level, outside j) refl)
          (λ j live. rw (get_or-replicate t.span j empty_level, outside j) refl) top
    either false e = top

pub add_level-Top :
    (t : PriceLevels) (price shares : ℕ)
    → IsSide t
    → price < 2 ^ 32
    → (level_at t price).orders + 1 < 2 ^ 32
    → IsTop t
    → IsTop (add_level t price shares)
unfolding add_level
add_level-Top t price shares s small room top =
    let k = anchor_correct t price s in
    either (cell_of u price) refl k.side
      (subst (λ (l : Level). l.orders + 1 < 2 ^ 32) (sym (k.same price)) room)
      (anchor-Top t price top)
  where
    u : PriceLevels
    u = anchor t price

    either :
        (o : Option ℕ)
        → cell_of u price ≡ o
        → IsSide u
        → (level_at u price).orders + 1 < 2 ^ 32
        → IsTop u
        → IsTop (elim o [
          | some i ↦ add_cell (ensure_cells u) i price shares
          | none ↦ add_far u price shares
        ])
    either none e s' room' top' =
        add_far-Top u price shares s' small e (anchor-base t price small) room' top'
    either (some i) e s' room' top' =
        let (k, count, cells) = ensure_cells_correct u s' in
        let (inside, p, based) = cell_of-some u price i e in
        add_cell-Top (ensure_cells u) i price shares k.side (omega (arith, count)) (cells price ∙ e)
          (subst (λ (l : Level). l.orders + 1 < 2 ^ 32) (sym (k.same price)) room')
          (ensure_cells-Top u top')
