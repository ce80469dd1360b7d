-- ===== src/Book/PriceLevels/Removing.antt =====
-- An order that is removed from a side, src/book/price_levels.cc.
use nasdaq_itch_trading_syst.Base.{
  ℕ, ◌%◌, ◌<◌, ◌^◌, ◌≡◌, inl, inr, refl, ap, sym, subst, ◌∙◌, arith, Bool, true, false, Option,
  none, some, set, ◌==◌, if◌then◌else◌, sub_u32, sub_u64,
}
use nasdaq_itch_trading_syst.Book.Level.{Level, empty_level}
use nasdaq_itch_trading_syst.Book.SortedMap.{get, put, remove_key}
use nasdaq_itch_trading_syst.Book.PriceLevels.{PriceLevels, tick, no_base, cell, cell_of}
use nasdaq_itch_trading_syst.Book.PriceLevels.Update.{debit, vacate, remove_level}
use nasdaq_itch_trading_syst.Book.PriceLevels.WellFormed.{IsSide, level_at}
use nasdaq_itch_trading_syst.Book.PriceLevels.Writes.{Moves, Moves-change, written_correct}
use nasdaq_itch_trading_syst.Book.PriceLevels.FarWrites.{put_far_correct, remove_far_correct}
use nasdaq_itch_trading_syst.Book.PriceLevels.Shares.{
  level_of, rewrite_IsWrite, settled_of, StandsAt, level_at-StandsAt,
}
use nasdaq_itch_trading_syst.Book.PriceLevels.Vacating.{IsNarrow, vacate_correct}

last_order :
    (n : ℕ) (b : Bool) → (n == 0) ≡ false → n < 2 ^ 32 → (sub_u32 n 1 == 0) ≡ b → (n == 1) ≡ b
last_order n b o few h = sym (ground arith) ∙ h

-- On a side that satisfies the invariant, whose prices and counts have 32 bits, for a price that has orders,
-- `remove` keeps the invariant: the level at the price has one order less, and is gone with its
-- last order and else has the shares less, on 64 bits; every other level is as it was, also if the
-- window of cells moves.
pub remove_level_correct :
    (t : PriceLevels) (price shares : ℕ)
    → IsSide t
    → IsNarrow t
    → ((level_at t price).orders == 0) ≡ false
    → Moves t (remove_level t price shares) price (
        if (level_at t price).orders == 1
        then empty_level
        else level_of price
            (sub_u64 (level_at t price).shares shares)
            (sub_u32 (level_at t price).orders 1))
unfolding remove_level debit StandsAt IsNarrow
remove_level_correct t price shares s narrow live = elim (level_at-StandsAt t price s live) [
  | inl (i, e, at, p, o) ↦
      let l = cell t.cells i in
      let left = debit l shares in
      subst (λ (c : Option ℕ). Moves t (at_cell c) price (debited (level_at t price))) (sym e)
        (subst (λ (k : Level). Moves t (at_cell (some i)) price (debited k)) (sym at)
          (in_cell i p o (subst (λ (k : Level). k.orders < 2 ^ 32) at ((narrow price live).1))
            (left.orders == 0) refl))
  | inr (l, far, e, at, p, o, loose) ↦
      subst (λ (c : Option ℕ). Moves t (at_cell c) price (debited (level_at t price))) (sym far)
        (subst (λ (k : Option Level). Moves t (in_map k) price (debited (level_at t price))) (sym e)
          (subst (λ (k : Level). Moves t (in_map (some l)) price (debited k)) (sym at)
            (at_key l far p o loose
              (subst (λ (k : Level). k.orders < 2 ^ 32) at ((narrow price live).1))
              ((debit l shares).orders == 0) refl)))
]
  where
    debited : Level → Level
    debited k =
        if k.orders == 1
        then empty_level
        else level_of price (sub_u64 k.shares shares) (sub_u32 k.orders 1)

    in_map : Option Level → PriceLevels
    in_map o = elim o [
      | none ↦ t
      | some old ↦
          if (debit old shares).orders == 0
          then record t { far = remove_key t.far price }
          else record t { far = put t.far price (debit old shares) }
    ]

    at_cell : Option ℕ → PriceLevels
    at_cell o = elim o [
      | some i ↦
          if (debit (cell t.cells i) shares).orders == 0
          then vacate t i (debit (cell t.cells i) shares)
          else record t { cells = set t.cells i (debit (cell t.cells i) shares) }
      | none ↦ in_map (get t.far price)
    ]

    last_one :
        (k : Level) (b : Bool)
        → (k.orders == 0) ≡ false
        → k.orders < 2 ^ 32
        → (sub_u32 k.orders 1 == 0) ≡ b
        → debited k ≡ (
            if b
            then empty_level
            else level_of price (sub_u64 k.shares shares) (sub_u32 k.orders 1))
    last_one k b o few h =
        let same : (k.orders == 1) ≡ b = last_order k.orders b o few h in rw same refl

    in_cell :
        (i : ℕ)
        → (cell t.cells i).price ≡ price
        → ((cell t.cells i).orders == 0) ≡ false
        → (cell t.cells i).orders < 2 ^ 32
        → (b : Bool) → (sub_u32 (cell t.cells i).orders 1 == 0) ≡ b
        → Moves t (at_cell (some i)) price (debited (cell t.cells i))
    in_cell i p o few true h = rw h (
        Moves-change
          (vacate_correct t i (debit (cell t.cells i) shares) s narrow o refl h
            (subst (λ (q : ℕ). q < 2 ^ 32) (sym p) ((narrow price live).0)))
          p (sym (last_one (cell t.cells i) true o few h)))
    in_cell i p o few false h =
        let l = cell t.cells i in
        let left : ℕ = sub_u64 l.shares shares in
        rw h (
          Moves-change
            (written_correct t i (level_of l.price left (sub_u32 l.orders 1)) t.bits t.array_count
              t.best_cell s (rewrite_IsWrite t i left (sub_u32 l.orders 1) s o h))
            p (settled_of l price left (sub_u32 l.orders 1) p h ∙ sym (last_one l false o few h)))

    at_key :
        (l : Level)
        → cell_of t price ≡ none
        → l.price ≡ price
        → (l.orders == 0) ≡ false
        → (t.base_cents ≡ no_base → (price % tick == 0) ≡ false)
        → l.orders < 2 ^ 32
        → (b : Bool) → (sub_u32 l.orders 1 == 0) ≡ b
        → Moves t (in_map (some l)) price (debited l)
    at_key l far p o loose few true h =
        rw h (Moves-change (remove_far_correct t price s far) refl (sym (last_one l true o few h)))
    at_key l far p o loose few false h = rw h (
        Moves-change (put_far_correct t price (debit l shares) s far (p, h, loose)) refl (
          ap (λ (q : ℕ). level_of q (sub_u64 l.shares shares) (sub_u32 l.orders 1)) p
          ∙ sym (last_one l false o few h)))
