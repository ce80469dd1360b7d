-- ===== src/Book/PriceLevels/Cached.antt =====
-- The operations of src/book/price_levels.cc keep the best cell.
use nasdaq_itch_trading_syst.Base.{
  ℕ, ◌%◌, ◌<◌, ◌^◌, ◌≡◌, ◌≢◌, refl, ap, sym, subst, ◌∙◌, arith, Bool, true, false, ◌&&◌, none, some,
  Option, set, ◌==◌, if◌then◌else◌, inl, inr, sub_u64, sub_u32,
}
use nasdaq_itch_trading_syst.Book.Level.{Level}
use nasdaq_itch_trading_syst.Book.SortedMap.{put, remove_key}
use nasdaq_itch_trading_syst.Book.PriceLevels.{
  PriceLevels, tick, cell, improves, scan_best, far_best, rebase,
}
use nasdaq_itch_trading_syst.Book.PriceLevels.Update.{
  debit, reduce_level, is_best, next_best, vacate, remove_level,
}
use nasdaq_itch_trading_syst.Book.PriceLevels.WellFormed.{IsSide, level_at}
use nasdaq_itch_trading_syst.Book.PriceLevels.Top.{Top, IsTop, Top-outline, leave-Top, at_entry}
use nasdaq_itch_trading_syst.Book.PriceLevels.Rebase.{rebase_correct}
use nasdaq_itch_trading_syst.Book.PriceLevels.Anchoring.{Keeps, window-lt}
use nasdaq_itch_trading_syst.Book.PriceLevels.Vacating.{
  IsNarrow, Moves-IsNarrow, rebest_Keeps, far_best_narrow, vacated, vacated_correct,
}
use nasdaq_itch_trading_syst.Book.PriceLevels.Shares.{occupied_inside, StandsAt, level_at-StandsAt}
use nasdaq_itch_trading_syst.Book.PriceLevels.Scanned.{scan-Top}

-- A cell is written again with orders at its price.
pub rewrite-Top :
    (t : PriceLevels) (i shares orders : ℕ)
    → ((cell t.cells i).orders == 0) ≡ false
    → (orders == 0) ≡ false
    → IsTop t
    → Top t.side
        (set t.cells i
          (record { price = (cell t.cells i).price; shares = shares; orders = orders }))
        t.best_cell
rewrite-Top t i shares orders live o top =
    let inside = occupied_inside t.cells i live in
    Top-outline t.side t.cells (set t.cells i new) t.best_cell
      (λ j.
        at_entry t.cells i new inside
          (λ (k : Level). (k.orders == 0) ≡ ((cell t.cells j).orders == 0)) j
          (λ e. o ∙ sym (ap (λ (j : ℕ). (cell t.cells j).orders == 0) (sym e) ∙ live)) (λ ne. refl))
      (λ j h.
        at_entry t.cells i new inside (λ (k : Level). k.price ≡ (cell t.cells j).price) j
          (λ e. ap (λ (j : ℕ). (cell t.cells j).price) e) (λ ne. refl))
      top
  where
    new : Level
    new = record { price = (cell t.cells i).price; shares = shares; orders = orders }

pub reduce_level-Top :
    (t : PriceLevels) (price shares : ℕ)
    → IsSide t
    → ((level_at t price).orders == 0) ≡ false
    → IsTop t
    → IsTop (reduce_level t price shares)
unfolding reduce_level StandsAt
reduce_level-Top t price shares s live top = elim (level_at-StandsAt t price s live) [
  | inl (i, e, at, p, o) ↦
      rw (e, reduce_level)
        (rewrite-Top t i (sub_u64 (cell t.cells i).shares shares) (cell t.cells i).orders o o top)
  | inr (l, far, e, at, p, o, loose) ↦ rw (far, e, reduce_level) top
]

next_best-Top : (t : PriceLevels) → IsSide t → IsNarrow t → IsTop (next_best t)
unfolding next_best far_best
next_best-Top t s narrow = either (far_best u) refl
  where
    u : PriceLevels
    u = record t { best_cell = scan_best t }

    k : Keeps t u
    k = rebest_Keeps t (scan_best t) s

    inner : (e : ℕ × Level) → e.0 < 2 ^ 32 → (b : Bool) → IsTop (if b then rebase u e.0 else u)
    inner e small true =
        let (side, same, top) = rebase_correct u e.0 k.side (window-lt u.span e.0 small) in top
    inner e small false = scan-Top t s

    either :
        (o : Option (ℕ × Level))
        → far_best u ≡ o
        → IsTop (elim o [
          | none ↦ u
          | some e ↦ if e.0 % tick == 0 && improves u e.0 then rebase u e.0 else u
        ])
    either none h = scan-Top t s
    either (some e) h = inner e (far_best_narrow t e s narrow h) (e.0 % tick == 0 && improves u e.0)

vacate-Top :
    (t : PriceLevels) (i : ℕ) (l : Level)
    → IsSide t
    → IsNarrow t
    → ((cell t.cells i).orders == 0) ≡ false
    → l.price ≡ (cell t.cells i).price
    → (l.orders == 0) ≡ true
    → l.price < 2 ^ 32
    → IsTop t
    → IsTop (vacate t i l)
unfolding vacate is_best
vacate-Top t i l s narrow live p gone small top = either t.best_cell refl
  where
    u : PriceLevels
    u = vacated t i l

    inner : (b : Bool) → (b ≡ false → t.best_cell ≢ some i) → IsTop (if b then next_best u else u)
    inner true apart =
        let m = vacated_correct t i l s live p gone in
        next_best-Top u m.side (Moves-IsNarrow m small (omega arith) narrow)
    inner false apart =
        leave-Top t.side t.cells i (record l { shares = 0 }) t.best_cell
          (occupied_inside t.cells i live) gone (apart refl) top

    either :
        (o : Option ℕ)
        → t.best_cell ≡ o
        → IsTop (if (elim o [ none ↦ false | some b ↦ b == i ]) then next_best u else u)
    either none e = inner false (λ f h. ground (arith, e, h))
    either (some b) e = inner (b == i) (λ f h. ground (arith, e, h, f))

pub remove_level-Top :
    (t : PriceLevels) (price shares : ℕ)
    → IsSide t
    → IsNarrow t
    → ((level_at t price).orders == 0) ≡ false
    → IsTop t
    → IsTop (remove_level t price shares)
unfolding remove_level debit StandsAt IsNarrow
remove_level-Top t price shares s narrow live top = elim (level_at-StandsAt t price s live) [
  | inl (i, e, at, p, o) ↦
      rw (e, remove_level) (in_cell i p o ((debit (cell t.cells i) shares).orders == 0) refl)
  | inr (l, far, e, at, p, o, loose) ↦
      rw (far, e, remove_level) (in_map l ((debit l shares).orders == 0))
]
  where
    in_map :
        (l : Level) (b : Bool)
        → IsTop (
            if b
            then record t { far = remove_key t.far price }
            else record t { far = put t.far price (debit l shares) })
    in_map l true = top
    in_map l false = top

    in_cell :
        (i : ℕ)
        → (cell t.cells i).price ≡ price
        → ((cell t.cells i).orders == 0) ≡ false
        → (b : Bool) → (sub_u32 (cell t.cells i).orders 1 == 0) ≡ b
        → IsTop (
            if b
            then vacate t i (debit (cell t.cells i) shares)
            else record t { cells = set t.cells i (debit (cell t.cells i) shares) })
    in_cell i p o true h =
        vacate-Top t i (debit (cell t.cells i) shares) s narrow o refl h
          (subst (λ (q : ℕ). q < 2 ^ 32) (sym p) ((narrow price live).0)) top
    in_cell i p o false h =
        rewrite-Top t i (sub_u64 (cell t.cells i).shares shares) (sub_u32 (cell t.cells i).orders 1)
          o h top
