-- ===== src/Book/OrderBook/Reducing.antt =====
-- `reduce` of src/book/order_book.cc.
use nasdaq_itch_trading_syst.Base.{
  ℕ, ◌+◌, ◌-◌, ◌^◌, ◌<◌, ◌≡◌, ◌≢◌, refl, subst, sym, ap, ◌∙◌, inl, inr, Bool, true, false, some,
  length, u64, sub_u32, sub_u64, arith, ◌>>=◌, Bool-cases, ◌==◌, if◌then◌else◌, ltb,
}
use nasdaq_itch_trading_syst.OrderIndex.{
  Order, OrderIndex, slot, qty, buy, pack, find, write_shares,
}
use nasdaq_itch_trading_syst.OrderIndex.Tables.{refs}
use nasdaq_itch_trading_syst.OrderIndex.Finding.{find_correct}
use nasdaq_itch_trading_syst.Book.PriceLevels.Update.{remove_level, reduce_level}
use nasdaq_itch_trading_syst.Book.OrderBook.{
  OrderBook, ApplyResult, settle_levels, erase_if, reduce, reduce_to, reduce_found,
}
use nasdaq_itch_trading_syst.Book.OrderBook.Spec.{
  Orders, resting, resting?, view, update, after, reduced, spec_reduce, spec_reduce-none,
  spec_reduce-some,
}
use nasdaq_itch_trading_syst.Book.OrderBook.Invariant.{
  resting_total, IsBook, Achieves, sub-u64, on_side-orders, on_side-order_shares,
  on_side-level_orders,
}
use nasdaq_itch_trading_syst.Book.OrderBook.Removing.{qty-lt}
use nasdaq_itch_trading_syst.Book.OrderBook.Reduction.{Reduces, index_reduced}

-- What the reduction takes, and what it leaves.
abbrev pub taken : ℕ → ℕ → ℕ
taken quantity shares = if ltb quantity shares then quantity else shares

pub taken_lem :
    (quantity shares : ℕ)
    → quantity < 2 ^ 31
    → (sub_u32 quantity (taken quantity shares) ≡ quantity - shares)
      × (quantity - shares + taken quantity shares ≡ quantity)
taken_lem quantity shares h = elim (Bool-cases (ltb quantity shares)) [
  | inl over ↦ rw over (ground arith, ground arith)
  | inr within ↦ rw within (ground arith, ground arith)
]

-- The levels leave the index alone, and take what the index has lost.
settle_levels-orders :
    (b : OrderBook) (o : Order) (n : ℕ) (dies : Bool) → (settle_levels b o n dies).orders ≡ b.orders
unfolding settle_levels
settle_levels-orders b o n true = on_side-orders (λ l. remove_level l o.price n) b b.orders (buy o)
settle_levels-orders b o n false = on_side-orders (λ l. reduce_level l o.price n) b b.orders (buy o)

settle_levels-IsBook :
    (b : OrderBook) (o : Order) (n : ℕ) (dies : Bool) (g : OrderIndex)
    → IsBook (record b {
      orders = g;
      level_shares = sub_u64 b.level_shares n;
      level_orders = if dies then sub_u64 b.level_orders 1 else b.level_orders;
    })
    → IsBook (record (settle_levels b o n dies) { orders = g })
unfolding settle_levels
settle_levels-IsBook b o n true g v =
    let e = on_side-order_shares (λ l. remove_level l o.price n) b (buy o) in
    record { orders = v.orders; shares = e ∙ v.shares; levels = v.levels ∙ sym e; count = v.count }
settle_levels-IsBook b o n false g v =
    let e = on_side-order_shares (λ l. reduce_level l o.price n) b (buy o) in
    record {
      orders = v.orders;
      shares = e ∙ v.shares;
      levels = v.levels ∙ sym e;
      count = on_side-level_orders (λ l. reduce_level l o.price n) b (buy o) ∙ v.count;
    }

-- The invariant of the book once the index and the levels have been told.
reduced-IsBook :
    (b : OrderBook) (o : Order) (ref left n : ℕ) (t g : OrderIndex)
    → IsBook b
    → Reduces b.orders ref o left g
    → left + n ≡ qty o
    → IsBook
        (record (settle_levels
          (record b { orders = t; order_shares = sub_u64 b.order_shares n })
          o
          n
          (left == 0)) { orders = g })
reduced-IsBook b o ref left n t g v e split =
    settle_levels-IsBook (record b { orders = t; order_shares = sub_u64 b.order_shares n }) o n
      (left == 0) g
      (record {
        orders = e.valid;
        shares = rw v.shares (
            sub-u64 (resting_total b.orders) (resting_total g) n (omega (arith, e.total))
              (omega (arith, qty-lt o)));
        levels = rw v.levels refl;
        count = elim (Bool-cases (left == 0)) [
          | inl dead ↦
              rw (dead, v.count) (sub-u64 b.orders.size g.size 1 (gone e dead) (omega arith))
          | inr alive ↦ rw (alive, v.count) (ap u64 (sym (kept e alive)))
        ];
      })
  where
    gone : Reduces b.orders ref o left g → (left == 0) ≡ true → g.size + 1 ≡ b.orders.size
    gone e dead = let s = e.size in ground arith

    kept : Reduces b.orders ref o left g → (left == 0) ≡ false → g.size ≡ b.orders.size
    kept e alive = let s = e.size in ground arith

pub reduce_end_lem :
    (b : OrderBook) (o : Order) (n : ℕ) (dies : Bool) (ref : ℕ) (g : OrderIndex)
    (result : ApplyResult)
    → erase_if dies b.orders ref ≡ some g
    → ◌>>=◌ {B = OrderBook × ApplyResult}
        (erase_if dies (settle_levels b o n dies).orders ref)
        (λ orders. some (record (settle_levels b o n dies) { orders = orders }, result))
      ≡ some (record (settle_levels b o n dies) { orders = g }, result)
reduce_end_lem b o n dies ref g result run = rw (settle_levels-orders b o n dies, run)

reduce_to_lem :
    (b : OrderBook) (ref i n left : ℕ) (result : ApplyResult)
    → IsBook b
    → ref ≢ 0
    → i < length b.orders.slots
    → refs b.orders.slots i ≡ ref
    → left + n ≡ qty (slot b.orders.slots i).order
    → Achieves
        (reduce_to b ref i n left result)
        (update (view b) ref (after (resting (slot b.orders.slots i).order) left), result)
unfolding reduce_to
reduce_to_lem b ref i n left result v ne hi same split =
    let o = (slot b.orders.slots i).order in
    let (g, run, r) =
      index_reduced b.orders ref i left v.orders ne hi same (omega (arith, qty-lt o, split)) in
    let b0 : OrderBook = record b {
      orders = write_shares b.orders i (pack left (buy o));
      order_shares = sub_u64 b.order_shares n;
    } in
    (
      record (settle_levels b0 o n (left == 0)) { orders = g },
      reduce_end_lem b0 o n (left == 0) ref g result run,
      record { valid = reduced-IsBook b o ref left n b0.orders g v r split; same = r.same },
    )

pub reduce_run :
    (b : OrderBook) (ref shares i : ℕ)
    → find b.orders ref ≡ some (some i)
    → (quantity : ℕ) → qty (slot b.orders.slots i).order ≡ quantity
    → reduce b ref shares
      ≡ reduce_to b ref i
          (taken quantity shares)
          (sub_u32 quantity (taken quantity shares))
          (reduced quantity shares)
unfolding reduce reduce_found
reduce_run b ref shares i e quantity q = rw (e, ← q) refl

reduce_live :
    (b : OrderBook) (ref shares i : ℕ)
    → IsBook b
    → ref ≢ 0
    → i < length b.orders.slots
    → refs b.orders.slots i ≡ ref
    → find b.orders ref ≡ some (some i)
    → Achieves (reduce b ref shares) (
      update (view b) ref (
          after
            (resting (slot b.orders.slots i).order)
            (qty (slot b.orders.slots i).order - shares)),
      reduced (qty (slot b.orders.slots i).order) shares,
    )
reduce_live b ref shares i v ne hi same e =
    let o = (slot b.orders.slots i).order in
    let (monus, split) = taken_lem (qty o) shares (qty-lt o) in
    let spec : Orders × ApplyResult =
      (update (view b) ref (after (resting o) (qty o - shares)), reduced (qty o) shares) in
    subst (λ run. Achieves run spec)
      (sym (
        reduce_run b ref shares i e (qty o) refl
        ∙ ap (λ (k : ℕ). reduce_to b ref i (taken (qty o) shares) k (reduced (qty o) shares))
            monus))
      (reduce_to_lem b ref i (taken (qty o) shares) (qty o - shares) (reduced (qty o) shares) v ne
        hi same split)

-- On a book that satisfies the invariant, for a reference other than 0, `reduce` ends, keeps the
-- invariant, and does to the map of resting orders what its specification says, with the result
-- that it gives: a reduction by more than the order has is clamped and reported, and an order
-- that is reduced to nothing is gone.
pub reduce_correct :
    (b : OrderBook) (ref shares : ℕ)
    → IsBook b
    → ref ≢ 0
    → Achieves (reduce b ref shares) (spec_reduce (view b) ref shares)
unfolding reduce
reduce_correct b ref shares v ne = elim (find_correct b.orders ref v.orders ne) [
  | inl (e, absent) ↦
      subst (Achieves (reduce b ref shares))
        (sym (spec_reduce-none (view b) ref shares (ap resting? absent)))
        (b, rw e refl, record { valid = v; same = λ r nz. refl })
  | inr (i, e, hi, same, live) ↦
      subst (Achieves (reduce b ref shares))
        (sym (
          spec_reduce-some (view b) ref shares (resting (slot b.orders.slots i).order)
            (ap resting? live)))
        (reduce_live b ref shares i v ne hi same e)
]
