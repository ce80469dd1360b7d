-- ===== src/Book/OrderBook/Moves/Reduce.antt =====
-- How `reduce` of src/book/order_book.cc moves the resting shares.
use nasdaq_itch_trading_syst.Base.{
  ℕ, ◌+◌, ◌-◌, ◌^◌, ◌<◌, ◌≤◌, ◌≡◌, ◌≢◌, refl, sym, ap, ◌∙◌, inl, inr, Bool, true, false, Option,
  none, some, length, sub_u64, arith, Bool-cases, ◌==◌, ==_iff, ==_refl,
}
use nasdaq_itch_trading_syst.OrderIndex.{
  Order, OrderIndex, slot, qty, buy, pack, find, write_shares,
}
use nasdaq_itch_trading_syst.OrderIndex.Tables.{refs}
use nasdaq_itch_trading_syst.OrderIndex.Lookup.{lookup}
use nasdaq_itch_trading_syst.OrderIndex.Finding.{find_correct}
use nasdaq_itch_trading_syst.Book.PriceLevels.Update.{reduce_level, remove_level}
use nasdaq_itch_trading_syst.Book.OrderBook.{
  OrderBook, ApplyResult, unknown_ref, reduce, reduce_to, settle_levels,
}
use nasdaq_itch_trading_syst.Book.OrderBook.Spec.{Resting, resting, after, reduced, view, resting?}
use nasdaq_itch_trading_syst.Book.OrderBook.Invariant.{IsBook, on_side-order_shares}
use nasdaq_itch_trading_syst.Book.OrderBook.Removing.{qty-lt}
use nasdaq_itch_trading_syst.Book.OrderBook.Reduction.{Reduces, index_reduced}
use nasdaq_itch_trading_syst.Book.OrderBook.Reducing.{taken, taken_lem, reduce_end_lem, reduce_run}
use nasdaq_itch_trading_syst.Book.OrderBook.Moves.{Moves, quantity}

settle_levels-order_shares :
    (b : OrderBook) (o : Order) (n : ℕ) (dies : Bool)
    → (settle_levels b o n dies).order_shares ≡ b.order_shares
unfolding settle_levels
settle_levels-order_shares b o n true =
    on_side-order_shares (λ l. remove_level l o.price n) b (buy o)
settle_levels-order_shares b o n false =
    on_side-order_shares (λ l. reduce_level l o.price n) b (buy o)

-- A reduction moves the resting shares by what the order has lost.
abbrev pub Reduced : OrderBook → ℕ → Option (OrderBook × ApplyResult) → Type 0
Reduced b ref run =
    (b' : OrderBook) × (r : ApplyResult) × (run ≡ some (b', r))
    × (quantity (view b' ref) ≤ quantity (view b ref))
    × (quantity (view b ref) < 2 ^ 31)
    × Moves b b' 0 (quantity (view b ref) - quantity (view b' ref))

still-Reduced :
    (b : OrderBook) (ref : ℕ) (r : ApplyResult) → view b ref ≡ none → Reduced b ref (some (b, r))
still-Reduced b ref r e = (
  b,
  r,
  refl,
  omega arith,
  omega (arith, ap quantity e),
  record { shares = omega (arith, ap quantity e); size = omega arith; width = λ n le le'. le },
)

quantity-after : (o : Resting) (left : ℕ) → quantity (after o left) ≡ left
quantity-after o left = elim (Bool-cases (left == 0)) [
  | inl gone ↦ rw gone (sym ((==_iff left 0).0 gone))
  | inr kept ↦ rw kept refl
]

reduced-Reduced :
    (b b' : OrderBook) (ref n left : ℕ) (g : OrderIndex) (o : Order)
    → Reduces b.orders ref o left g
    → ref ≢ 0
    → b'.orders ≡ g
    → b'.order_shares ≡ sub_u64 b.order_shares n
    → view b ref ≡ some (resting o)
    → left + n ≡ qty o
    → (quantity (view b' ref) ≤ quantity (view b ref))
      × (quantity (view b ref) < 2 ^ 31)
      × Moves b b' 0 (quantity (view b ref) - quantity (view b' ref))
reduced-Reduced b b' ref n left g o e ne same shares live split =
    let now : quantity (view b' ref) ≡ left =
      ap (λ (t : OrderIndex). quantity (resting? (lookup t.slots ref))) same
      ∙ ap quantity (e.same ref ne)
      ∙ rw (==_refl ref) (quantity-after (resting o) left) in
    let small = qty-lt o in
    let before : quantity (view b ref) ≡ qty o = ap quantity live in
    (
      omega (arith, now, before),
      omega (arith, before, small),
      record {
        shares = omega (arith, now, before, shares);
        size = omega (arith, ap (λ (t : OrderIndex). t.size) same, e.size);
        width = λ m le le'. omega (arith, ap (λ (t : OrderIndex). length t.slots) same, e.capacity);
      },
    )

reduce_live-Reduced :
    (b : OrderBook) (ref shares i : ℕ)
    → IsBook b
    → ref ≢ 0
    → i < length b.orders.slots
    → refs b.orders.slots i ≡ ref
    → find b.orders ref ≡ some (some i)
    → view b ref ≡ some (resting (slot b.orders.slots i).order)
    → Reduced b ref (reduce b ref shares)
unfolding reduce_to
reduce_live-Reduced b ref shares i v ne hi same e live =
    let o = (slot b.orders.slots i).order in
    let n = taken (qty o) shares in
    let left = qty o - shares in
    let result = reduced (qty o) shares in
    let (monus, split) = taken_lem (qty o) shares (qty-lt o) in
    let (g, run, r) =
      index_reduced b.orders ref i left v.orders ne hi same (omega (arith, qty-lt o, split)) in
    let b0 : OrderBook = record b {
      orders = write_shares b.orders i (pack left (buy o));
      order_shares = sub_u64 b.order_shares n;
    } in
    let b' : OrderBook = record (settle_levels b0 o n (left == 0)) { orders = g } in
    let (less, small, moves) =
      reduced-Reduced b b' ref n left g o r ne refl (settle_levels-order_shares b0 o n (left == 0))
        live split in
    (
      b',
      result,
      reduce_run b ref shares i e (qty o) refl
          ∙ ap (λ (k : ℕ). reduce_to b ref i n k result) monus
          ∙ reduce_end_lem b0 o n (left == 0) ref g result run,
      less,
      small,
      moves,
    )

pub reduce-Moves :
    (b : OrderBook) (ref shares : ℕ) → IsBook b → ref ≢ 0 → Reduced b ref (reduce b ref shares)
unfolding reduce
reduce-Moves b ref shares v ne = elim (find_correct b.orders ref v.orders ne) [
  | inl (e, absent) ↦ rw e (still-Reduced b ref unknown_ref (ap resting? absent))
  | inr (i, e, hi, same, live) ↦
      reduce_live-Reduced b ref shares i v ne hi same e (ap resting? live)
]
