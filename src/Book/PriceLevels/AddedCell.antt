-- ===== src/Book/PriceLevels/AddedCell.antt =====
-- An order that is added to a cell, src/book/price_levels.cc.
use nasdaq_itch_trading_syst.Base.{
  ℕ, ◌+◌, ◌<◌, ◌^◌, ◌≡◌, inl, inr, refl, ap, sym, subst, ◌∙◌, arith, Bool, true, false, some, List,
  length, set, ◌==◌, if◌then◌else◌, get_or-set, set-set, Bool-cases, ==_iff, u32, u64,
}
use nasdaq_itch_trading_syst.Book.Level.{Level, empty_level}
use nasdaq_itch_trading_syst.Book.Bitmap.{set_bit}
use nasdaq_itch_trading_syst.Book.PriceLevels.{PriceLevels, cell, cell_of, occupy}
use nasdaq_itch_trading_syst.Book.PriceLevels.Update.{credit, add_cell}
use nasdaq_itch_trading_syst.Book.PriceLevels.WellFormed.{IsSide, level_at}
use nasdaq_itch_trading_syst.Book.PriceLevels.Writes.{Moves, Moves-change, written, written_correct}
use nasdaq_itch_trading_syst.Book.PriceLevels.FarWrites.{level_at-cell}
use nasdaq_itch_trading_syst.Book.PriceLevels.Placing.{mark_IsWrite, occupy_written}
use nasdaq_itch_trading_syst.Book.PriceLevels.Shares.{
  level_of, rewrite_IsWrite, cell_price, settled_of,
}

-- The level after one more order.
abbrev pub credited : ℕ → Level → ℕ → Level
credited price l shares = level_of price (u64 (l.shares + shares)) (u32 (l.orders + 1))

pub some_left : (n : ℕ) → n + 1 < 2 ^ 32 → (u32 (n + 1) == 0) ≡ false
some_left n h = ground arith

pub blank_zero :
    (t : PriceLevels) (i : ℕ)
    → IsSide t
    → ((cell t.cells i).orders == 0) ≡ true
    → ((cell t.cells i).orders ≡ 0) × ((cell t.cells i).shares ≡ 0)
blank_zero t i s e = let z = (==_iff (cell t.cells i).orders 0).0 e in (z, s.blank i z)

-- A new level in a blank cell.
occupied_cell :
    (t : PriceLevels) (i price shares orders : ℕ)
    → IsSide t
    → i < length t.cells
    → cell_of t price ≡ some i
    → (orders == 0) ≡ false
    → (l : Level)
    → let t' = occupy t i l in
      Moves t
        (record t' { cells = set t'.cells i (level_of price shares orders) })
        price
        (level_of price shares orders)
occupied_cell t i price shares orders s inside there live l =
    let new : Level = level_of price shares orders in
    let n : ℕ = u64 (t.array_count + 1) in
    let (b, e) = occupy_written t i l in
    let m =
      Moves-change {p' = price} {l' = new}
        (written_correct t i new (set_bit t.bits i) n b s
          (mark_IsWrite t i new s inside live there))
        refl (rw live refl) in
    subst (λ (u : PriceLevels). Moves t (record u { cells = set u.cells i new }) price new) (sym e)
      (subst
        (λ (cells : List Level).
          Moves t (record (written t i l (set_bit t.bits i) n b) { cells = cells }) price new)
        (sym (set-set t.cells i l new)) m)

pub occupied_here :
    (t : PriceLevels) (i : ℕ) (l : Level) → i < length t.cells → cell (occupy t i l).cells i ≡ l
occupied_here t i l inside =
    let (b, e) = occupy_written t i l in
    ap (λ (u : PriceLevels). cell u.cells i) e ∙ get_or-set t.cells i l empty_level inside

pub credited_as :
    (price shares : ℕ) (l m : Level)
    → l.shares ≡ m.shares
    → l.orders ≡ m.orders
    → credited price l shares ≡ credited price m shares
credited_as price shares l m e f =
    ap (λ (n : ℕ). level_of price (u64 (n + shares)) (u32 (l.orders + 1))) e
    ∙ ap (λ (n : ℕ). level_of price (u64 (m.shares + shares)) (u32 (n + 1))) f

pub add_cell_correct :
    (t : PriceLevels) (i price shares : ℕ)
    → IsSide t
    → i < length t.cells
    → cell_of t price ≡ some i
    → (level_at t price).orders + 1 < 2 ^ 32
    → Moves t (add_cell t i price shares) price (credited price (level_at t price) shares)
unfolding add_cell credit
add_cell_correct t i price shares s inside there room = elim (Bool-cases (l.orders == 0)) [
  | inl blank ↦
      let (z, zs) = blank_zero t i s blank in
      let at : level_at t price ≡ empty_level = level_at-cell t price i there ∙ rw blank refl in
      let m =
        occupied_cell t i price (u64 (l.shares + shares)) (u32 (l.orders + 1)) s inside there
          (ground (arith, z)) (record l { price = price }) in
      subst (λ (b : Bool). Moves t (body b) price (credited price (level_at t price) shares))
        (sym blank)
        (subst
          (λ (c : Level).
            Moves t (put_in (occupy t i (record l { price = price })) c) price
              (credited price (level_at t price) shares))
          (sym (occupied_here t i (record l { price = price }) inside))
          (Moves-change m refl (
            credited_as price shares l (level_at t price)
              (zs ∙ sym (ap (λ (k : Level). k.shares) at))
              (z ∙ sym (ap (λ (k : Level). k.orders) at)))))
  | inr live ↦
      let at : level_at t price ≡ l = level_at-cell t price i there ∙ rw live refl in
      let p = cell_price t price i s there live in
      let some_orders : (u32 (l.orders + 1) == 0) ≡ false =
        some_left l.orders (subst (λ (k : Level). k.orders + 1 < 2 ^ 32) at room) in
      let m =
        written_correct t i (credited l.price l shares) t.bits t.array_count t.best_cell s
          (rewrite_IsWrite t i (u64 (l.shares + shares)) (u32 (l.orders + 1)) s live some_orders) in
      subst (λ (b : Bool). Moves t (body b) price (credited price (level_at t price) shares))
        (sym live)
        (Moves-change m p (
          settled_of l price (u64 (l.shares + shares)) (u32 (l.orders + 1)) p some_orders
          ∙ credited_as price shares l (level_at t price) (sym (ap (λ (k : Level). k.shares) at))
              (sym (ap (λ (k : Level). k.orders) at))))
]
  where
    l : Level
    l = cell t.cells i

    put_in : PriceLevels → Level → PriceLevels
    put_in u c = record u { cells = set u.cells i (credit c shares) }

    body : Bool → PriceLevels
    body b =
        let u : PriceLevels = if b then occupy t i (record l { price = price }) else t in
        put_in u (cell u.cells i)
