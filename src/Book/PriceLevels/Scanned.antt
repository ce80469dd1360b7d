-- ===== src/Book/PriceLevels/Scanned.antt =====
-- The best cell that the scan of src/book/price_levels.cc finds.
use nasdaq_itch_trading_syst.Base.{
  ℕ, ◌+◌, ◌*◌, ◌<◌, ◌≤◌, ◌≡◌, refl, sym, subst, ◌∙◌, arith, Bool, true, false, not, length, ◌==◌,
  ltb, inl, inr, Bool-cases, get_or-outside, ltb→lt, ltb→le,
}
use nasdaq_itch_trading_syst.Book.Level.{Side, buy_side, sell_side, empty_level}
use nasdaq_itch_trading_syst.Book.Bitmap.{scan_up, scan_down, test_bit}
use nasdaq_itch_trading_syst.Book.Bitmap.Scan.{scan_up_correct}
use nasdaq_itch_trading_syst.Book.Bitmap.ScanDown.{scan_down_correct}
use nasdaq_itch_trading_syst.Book.PriceLevels.{PriceLevels, better, cell, scan_best}
use nasdaq_itch_trading_syst.Book.PriceLevels.WellFormed.{IsSide}
use nasdaq_itch_trading_syst.Book.PriceLevels.Writes.{cell_of-some}
use nasdaq_itch_trading_syst.Book.PriceLevels.Top.{Top}
use nasdaq_itch_trading_syst.Book.PriceLevels.Shares.{occupied_inside}

-- Marks and occupied cells.
vacant :
    (t : PriceLevels) (i : ℕ)
    → IsSide t
    → test_bit t.bits i ≡ false
    → ((cell t.cells i).orders == 0) ≡ true
vacant t i s e = is_true ((cell t.cells i).orders == 0) (sym (s.marks i) ∙ e)
  where
    is_true : (b : Bool) → not b ≡ false → b ≡ true
    is_true true h = refl
    is_true false h = sym h

marked :
    (t : PriceLevels) (i : ℕ)
    → IsSide t
    → test_bit t.bits i ≡ true
    → ((cell t.cells i).orders == 0) ≡ false
marked t i s e = is_false ((cell t.cells i).orders == 0) (sym (s.marks i) ∙ e)
  where
    is_false : (b : Bool) → not b ≡ true → b ≡ false
    is_false true h = sym h
    is_false false h = refl

-- The price of an occupied cell.
price_at :
    (t : PriceLevels) (i : ℕ)
    → IsSide t
    → ((cell t.cells i).orders == 0) ≡ false
    → (cell t.cells i).price ≡ (i + t.base_cents) * 100
price_at t i s live = (cell_of-some t (cell t.cells i).price i (s.placed i live)).1

ordered_up :
    (t : PriceLevels) (i j : ℕ)
    → IsSide t
    → ((cell t.cells i).orders == 0) ≡ false
    → ((cell t.cells j).orders == 0) ≡ false
    → i ≤ j
    → better sell_side (cell t.cells j).price (cell t.cells i).price ≡ false
unfolding better
ordered_up t i j s li lj le = ground (arith, price_at t i s li, price_at t j s lj)

ordered_down :
    (t : PriceLevels) (i j : ℕ)
    → IsSide t
    → ((cell t.cells i).orders == 0) ≡ false
    → ((cell t.cells j).orders == 0) ≡ false
    → j ≤ i
    → better buy_side (cell t.cells j).price (cell t.cells i).price ≡ false
unfolding better
ordered_down t i j s li lj le = ground (arith, price_at t i s li, price_at t j s lj)

-- The scan gives the best cell.
pub scan-Top : (t : PriceLevels) → IsSide t → Top t.side t.cells (scan_best t)
unfolding scan_best
scan-Top t s = either t.side
  where
    not_before :
        (i j : ℕ)
        → ((k : ℕ) → k < i → test_bit t.bits k ≡ false)
        → ((cell t.cells j).orders == 0) ≡ false
        → i ≤ j
    not_before i j h live = elim (Bool-cases (ltb j i)) [
      | inl lt ↦ absurd (ground (arith, live, vacant t j s (h j (ltb→lt j i lt))))
      | inr ge ↦ ltb→le j i ge
    ]

    not_after :
        (i j : ℕ)
        → ((k : ℕ) → i < k → k < length t.bits * 64 → test_bit t.bits k ≡ false)
        → ((cell t.cells j).orders == 0) ≡ false
        → j ≤ i
    not_after i j h live = elim (Bool-cases (ltb i j)) [
      | inl lt ↦
          let inside = occupied_inside t.cells j live in
          absurd
            (ground (arith, live, vacant t j s (h j (ltb→lt i j lt) (omega (arith, s.bit_count)))))
      | inr ge ↦ ltb→le i j ge
    ]

    either :
        (side : Side)
        → Top side t.cells (elim side [
          | buy_side ↦ scan_down t.bits (length t.bits)
          | sell_side ↦ scan_up t.bits 0
        ])
    either buy_side = elim (scan_down_correct t.bits s.words) [
      | inl (e, empty) ↦ subst (Top buy_side t.cells) (sym e) (λ i.
          elim (Bool-cases (ltb i (length t.cells))) [
            | inl lt ↦
                vacant t i s (empty i (omega (arith, s.bit_count, ltb→lt i (length t.cells) lt)))
            | inr ge ↦ rw (get_or-outside t.cells i empty_level (ltb→le i (length t.cells) ge)) refl
          ])
      | inr (i, e, is_set, above) ↦
          let live = marked t i s is_set in
          subst (Top buy_side t.cells) (sym e)
            (live, λ j lj. ordered_down t i j s live lj (not_after i j above lj))
    ]
    either sell_side = elim (scan_up_correct t.bits s.words) [
      | inl (e, empty) ↦ subst (Top sell_side t.cells) (sym e) (λ i. vacant t i s (empty i))
      | inr (i, e, is_set, below) ↦
          let live = marked t i s is_set in
          subst (Top sell_side t.cells) (sym e)
            (live, λ j lj. ordered_up t i j s live lj (not_before i j below lj))
    ]
