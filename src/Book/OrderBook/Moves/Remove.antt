-- ===== src/Book/OrderBook/Moves/Remove.antt =====
-- How `remove` of src/book/order_book.cc moves the resting shares.
use nasdaq_itch_trading_syst.Base.{
  ℕ, ◌+◌, ◌^◌, ◌<◌, ◌≡◌, ◌≢◌, refl, subst, sym, ap, inl, inr, Option, some, length, sub_u64, arith,
}
use nasdaq_itch_trading_syst.OrderIndex.{Order, slot, qty}
use nasdaq_itch_trading_syst.OrderIndex.Finding.{find_correct}
use nasdaq_itch_trading_syst.Book.OrderBook.{OrderBook, ApplyResult, applied, unknown_ref, remove}
use nasdaq_itch_trading_syst.Book.OrderBook.Spec.{view, resting?}
use nasdaq_itch_trading_syst.Book.OrderBook.Invariant.{IsBook}
use nasdaq_itch_trading_syst.Book.OrderBook.Removing.{qty-lt, remove_live}
use nasdaq_itch_trading_syst.Book.OrderBook.Moves.{Moves, quantity}

-- A removal moves them by all that the order had.
abbrev pub Removed : OrderBook → ℕ → Option (OrderBook × ApplyResult) → Type 0
Removed b ref run =
    (b' : OrderBook) × (r : ApplyResult) × (run ≡ some (b', r))
    × (quantity (view b ref) < 2 ^ 31)
    × Moves b b' 0 (quantity (view b ref))

remove_live-Moves :
    (b b' : OrderBook) (n : ℕ)
    → n < 2 ^ 31
    → length b'.orders.slots ≡ length b.orders.slots
    → b'.order_shares ≡ sub_u64 b.order_shares n
    → b'.orders.size + 1 ≡ b.orders.size
    → Moves b b' 0 n
remove_live-Moves b b' n small wide shares size = record {
  shares = omega (arith, shares);
  size = omega (arith, size);
  width = λ m le le'. omega (arith, wide);
}

pub remove-Moves : (b : OrderBook) (ref : ℕ) → IsBook b → ref ≢ 0 → Removed b ref (remove b ref)
unfolding remove
remove-Moves b ref v ne = elim (find_correct b.orders ref v.orders ne) [
  | inl (e, absent) ↦ rw e (
    b,
    unknown_ref,
    refl,
    omega (arith, ap (λ (o : Option Order). quantity (resting? o)) absent),
    record {
      shares = omega (arith, ap (λ (o : Option Order). quantity (resting? o)) absent);
      size = omega arith;
      width = λ n le le'. le;
    },
  )
  | inr (i, e, hi, same, live) ↦
      let o = (slot b.orders.slots i).order in
      let (b', run, stands, wide, shares, size) = remove_live b ref i v ne e live in
      subst (λ (n : ℕ). Taken n) (sym (ap (λ (o : Option Order). quantity (resting? o)) live))
        (b', applied, run, qty-lt o, remove_live-Moves b b' (qty o) (qty-lt o) wide shares size)
]
  where
    Taken : ℕ → Type 0
    Taken n =
        (b' : OrderBook) × (r : ApplyResult) × (remove b ref ≡ some (b', r))
        × (n < 2 ^ 31)
        × Moves b b' 0 n
