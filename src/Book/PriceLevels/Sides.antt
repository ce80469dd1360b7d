-- ===== src/Book/PriceLevels/Sides.antt =====
-- The operations of src/book/price_levels.cc on a bid side give a bid side, and on an ask side an
-- ask side.
use nasdaq_itch_trading_syst.Base.{
  ℕ, ◌%◌, ◌+◌, ◌≡◌, sym, subst, ◌++◌, Bool, true, false, ◌&&◌, none, some, Option, List, [], ◌∷◌,
  length, set, replicate, ◌/◌, ◌==◌, if◌then◌else◌, u64, sub_u64,
}
use nasdaq_itch_trading_syst.Book.Level.{Side, Level, empty_level}
use nasdaq_itch_trading_syst.Book.SortedMap.{get, put, remove_key, values}
use nasdaq_itch_trading_syst.Book.Bitmap.{set_bit}
use nasdaq_itch_trading_syst.Book.PriceLevels.{
  PriceLevels, no_base, tick, window, cell, cell_of, far_best, scan_best, improves, ensure_cells,
  occupy, place_level, place_all, rebase,
}
use nasdaq_itch_trading_syst.Book.PriceLevels.Update.{
  anchor, credit, add_cell, add_far, add_level, reduce_level, is_best, next_best, vacate, debit,
  remove_level,
}
use nasdaq_itch_trading_syst.Book.PriceLevels.Rebase.{rebase_parts, taken, refilled, fresh}
use nasdaq_itch_trading_syst.Book.PriceLevels.Adding.{far_put}
use nasdaq_itch_trading_syst.Book.PriceLevels.Vacating.{vacated}

-- What the two branches of a test have in common.
module _ (side : Side) where
  abbrev Has : PriceLevels → Type 0
  Has t = t.side ≡ side

  either_side : (t u : PriceLevels) → Has t → Has u → (b : Bool) → Has (if b then t else u)
  either_side t u e f true = e
  either_side t u e f false = f

  occupy-side : (t : PriceLevels) (i : ℕ) (l : Level) → Has t → Has (occupy t i l)
  unfolding occupy
  occupy-side t i l e =
      let u : PriceLevels = record t {
        cells = set t.cells i l;
        bits = set_bit t.bits i;
        array_count = u64 (t.array_count + 1);
      } in
      either_side (record u { best_cell = some i }) u e e (improves u l.price)

  place_level-side : (t : PriceLevels) (l : Level) → Has t → Has (place_level t l)
  unfolding place_level
  place_level-side t l e = either (cell_of t l.price)
    where
      either :
          (o : Option ℕ)
          → Has (elim o [ none ↦ record t { far = put t.far l.price l } | some i ↦ occupy t i l ])
      either none = e
      either (some i) = occupy-side t i l e

  place_all-side : (ls : List Level) (t : PriceLevels) → Has t → Has (place_all ls t)
  unfolding place_all
  place_all-side [] t e = e
  place_all-side (l ∷ ls) t e = place_all-side ls (place_level t l) (place_level-side t l e)

  rebase-side : (t : PriceLevels) (centre : ℕ) → Has t → Has (rebase t centre)
  rebase-side t centre e =
      subst (λ (u : PriceLevels). Has u) (sym (rebase_parts t centre))
        (place_all-side ((taken t).0 ++ values t.far)
          (fresh t (refilled t.span (taken t).1) (window t.span centre)) e)

  ensure_cells-side : (t : PriceLevels) → Has t → Has (ensure_cells t)
  unfolding ensure_cells
  ensure_cells-side t e =
      either_side
        (record t { cells = replicate t.span empty_level; bits = replicate (t.span / 64) 0 }) t e e
        (length t.cells == 0)

  anchor-side : (t : PriceLevels) (price : ℕ) → Has t → Has (anchor t price)
  unfolding anchor
  anchor-side t price e =
      either_side (record t { base_cents = window t.span price }) t e e
        (t.base_cents == no_base && price % tick == 0)

  add_cell-side : (t : PriceLevels) (i price shares : ℕ) → Has t → Has (add_cell t i price shares)
  unfolding add_cell
  add_cell-side t i price shares e =
      let l : Level = record (cell t.cells i) { price = price } in
      either_side (occupy t i l) t (occupy-side t i l e) e ((cell t.cells i).orders == 0)

  add_far-side : (t : PriceLevels) (price shares : ℕ) → Has t → Has (add_far t price shares)
  unfolding add_far credit
  add_far-side t price shares e =
      let u = far_put t price shares in
      either_side (rebase u price) u (rebase-side u price e) e
        (price % tick == 0 && improves u price)

  pub add_level-side : (t : PriceLevels) (price shares : ℕ) → Has t → Has (add_level t price shares)
  unfolding add_level
  add_level-side t price shares e = either (cell_of u price)
    where
      u : PriceLevels
      u = anchor t price

      either :
          (o : Option ℕ)
          → Has (elim o [
            | some i ↦ add_cell (ensure_cells u) i price shares
            | none ↦ add_far u price shares
          ])
      either none = add_far-side u price shares (anchor-side t price e)
      either (some i) =
          add_cell-side (ensure_cells u) i price shares
            (ensure_cells-side u (anchor-side t price e))

  next_best-side : (t : PriceLevels) → Has t → Has (next_best t)
  unfolding next_best
  next_best-side t e = either (far_best u)
    where
      u : PriceLevels
      u = record t { best_cell = scan_best t }

      either :
          (o : Option (ℕ × Level))
          → Has (elim o [
            | none ↦ u
            | some f ↦ if f.0 % tick == 0 && improves u f.0 then rebase u f.0 else u
          ])
      either none = e
      either (some f) =
          either_side (rebase u f.0) u (rebase-side u f.0 e) e (f.0 % tick == 0 && improves u f.0)

  vacate-side : (t : PriceLevels) (i : ℕ) (l : Level) → Has t → Has (vacate t i l)
  unfolding vacate
  vacate-side t i l e =
      let u = vacated t i l in either_side (next_best u) u (next_best-side u e) e (is_best t i)

  pub remove_level-side :
      (t : PriceLevels) (price shares : ℕ) → Has t → Has (remove_level t price shares)
  unfolding remove_level
  remove_level-side t price shares e = either (cell_of t price)
    where
      in_map : Option Level → PriceLevels
      in_map o = elim o [
        | none ↦ t
        | some old ↦
            if (debit old shares).orders == 0
            then record t { far = remove_key t.far price }
            else record t { far = put t.far price (debit old shares) }
      ]

      in_map-side : (o : Option Level) → Has (in_map o)
      in_map-side none = e
      in_map-side (some old) =
          either_side (record t { far = remove_key t.far price })
            (record t { far = put t.far price (debit old shares) }) e e
            ((debit old shares).orders == 0)

      either :
          (o : Option ℕ)
          → Has (elim o [
            | some i ↦
                if (debit (cell t.cells i) shares).orders == 0
                then vacate t i (debit (cell t.cells i) shares)
                else record t { cells = set t.cells i (debit (cell t.cells i) shares) }
            | none ↦ in_map (get t.far price)
          ])
      either none = in_map-side (get t.far price)
      either (some i) =
          either_side (vacate t i (debit (cell t.cells i) shares))
            (record t { cells = set t.cells i (debit (cell t.cells i) shares) })
            (vacate-side t i (debit (cell t.cells i) shares) e) e
            ((debit (cell t.cells i) shares).orders == 0)

  pub reduce_level-side :
      (t : PriceLevels) (price shares : ℕ) → Has t → Has (reduce_level t price shares)
  unfolding reduce_level
  reduce_level-side t price shares e = either (cell_of t price)
    where
      in_map :
          (o : Option Level)
          → Has (elim o [
            | some l ↦ record t {
              far = put t.far price (record l { shares = sub_u64 l.shares shares });
            }
            | none ↦ t
          ])
      in_map none = e
      in_map (some l) = e

      either :
          (o : Option ℕ)
          → Has (elim o [
            | some i ↦
                let l = cell t.cells i in
                record t { cells = set t.cells i (record l { shares = sub_u64 l.shares shares }) }
            | none ↦ elim (get t.far price) [
              | some l ↦ record t {
                far = put t.far price (record l { shares = sub_u64 l.shares shares });
              }
              | none ↦ t
            ]
          ])
      either none = in_map (get t.far price)
      either (some i) = e
