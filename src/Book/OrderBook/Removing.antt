-- ===== src/Book/OrderBook/Removing.antt =====
-- `remove` of src/book/order_book.cc.
use nasdaq_itch_trading_syst.Base.{
  ℕ, ◌+◌, ◌^◌, ◌<◌, ◌≡◌, ◌≢◌, refl, subst, sym, ap, ◌∙◌, inl, inr, Bool, true, none, some, length,
  sub_u64, arith, ◌>>=◌, bit_and_mask, Bool-cases, ◌==◌,
}
use nasdaq_itch_trading_syst.OrderIndex.{Order, OrderIndex, slot, qty, buy, find, erase}
use nasdaq_itch_trading_syst.OrderIndex.Lookup.{lookup}
use nasdaq_itch_trading_syst.OrderIndex.Finding.{find_correct}
use nasdaq_itch_trading_syst.OrderIndex.Removal.{Erases, erase_correct}
use nasdaq_itch_trading_syst.Book.PriceLevels.{PriceLevels}
use nasdaq_itch_trading_syst.Book.PriceLevels.Update.{remove_level}
use nasdaq_itch_trading_syst.Book.OrderBook.{OrderBook, ApplyResult, applied, on_side, remove}
use nasdaq_itch_trading_syst.Book.OrderBook.Spec.{
  resting, resting?, view, update, spec_remove, spec_remove-none, spec_remove-some,
}
use nasdaq_itch_trading_syst.Book.OrderBook.Invariant.{
  held, resting_total, IsBook, Stands, Achieves, sub-u64, on_side-IsBook, on_side-orders,
  on_side-order_shares,
}

pub qty-lt : (o : Order) → qty o < 2 ^ 31
unfolding qty
qty-lt o = omega (arith, bit_and_mask 31 o.shares)

-- The invariant once an order has gone from the index and its quantity from the totals.
pub erased-IsBook :
    (b : OrderBook) (ref : ℕ) (o : Order) (g : OrderIndex)
    → IsBook b
    → lookup b.orders.slots ref ≡ some o
    → Erases b.orders ref g true
    → IsBook (record b {
      orders = g;
      order_shares = sub_u64 b.order_shares (qty o);
      level_shares = sub_u64 b.level_shares (qty o);
      level_orders = sub_u64 b.level_orders 1;
    })
erased-IsBook b ref o g v live e = record {
  orders = e.valid;
  shares = rw v.shares (
      sub-u64 (resting_total b.orders) (resting_total g) (qty o) (e.weights held o live)
        (omega (arith, qty-lt o)));
  levels = rw (v.levels) refl;
  count = rw v.count (sub-u64 b.orders.size g.size 1 e.size (omega arith));
}

-- The map once an order has gone from the index.
pub erased-view :
    (t g : OrderIndex) (ref : ℕ) (b : Bool)
    → Erases t ref g b
    → (r : ℕ) → r ≢ 0
    → resting? (lookup g.slots r) ≡ update (λ r. resting? (lookup t.slots r)) ref none r
erased-view t g ref b e r nz = elim (Bool-cases (r == ref)) [
  | inl hit ↦ rw (e.orders r nz, hit) refl
  | inr miss ↦ rw (e.orders r nz, miss) refl
]

-- The end of `remove`: the side leaves the index alone.
erase_end_lem :
    (d : Bool) (f : PriceLevels → PriceLevels) (b : OrderBook) (ref : ℕ) (g : OrderIndex) (e : Bool)
    → erase b.orders ref ≡ some (g, e)
    → ◌>>=◌ {B = OrderBook × ApplyResult}
        (erase (on_side d f b).orders ref)
        (λ r. some (record (on_side d f b) { orders = r.0 }, applied))
      ≡ some (record (on_side d f b) { orders = g }, applied)
erase_end_lem d f b ref g e run = rw (on_side-orders f b g d, run)

pub remove_live :
    (b : OrderBook) (ref i : ℕ)
    → IsBook b
    → ref ≢ 0
    → find b.orders ref ≡ some (some i)
    → lookup b.orders.slots ref ≡ some (slot b.orders.slots i).order
    → (b' : OrderBook) × (remove b ref ≡ some (b', applied))
      × Stands b' (update (view b) ref none)
      × (length b'.orders.slots ≡ length b.orders.slots)
      × (b'.order_shares ≡ sub_u64 b.order_shares (qty (slot b.orders.slots i).order))
      × (b'.orders.size + 1 ≡ b.orders.size)
unfolding remove
remove_live b ref i v ne e live =
    let o = (slot b.orders.slots i).order in
    let (g, erased, run, gone') = erase_correct b.orders ref v.orders ne in
    let yes_erased : erased ≡ true = gone'.returns ∙ rw live refl in
    let gone : Erases b.orders ref g true = subst (Erases b.orders ref g) yes_erased gone' in
    let b0 : OrderBook = record b {
      order_shares = sub_u64 b.order_shares (qty o);
      level_shares = sub_u64 b.level_shares (qty o);
      level_orders = sub_u64 b.level_orders 1;
    } in
    let f = λ (l : PriceLevels). remove_level l o.price (qty o) in
    (
      record (on_side (buy o) f b0) { orders = g },
      rw e (erase_end_lem (buy o) f b0 ref g erased run),
      record {
        valid = on_side-IsBook f b0 g (buy o) (erased-IsBook b ref o g v live gone);
        same = erased-view b.orders g ref true gone;
      },
      gone.capacity,
      on_side-order_shares f b0 (buy o),
      gone.size,
    )

-- On a book that satisfies the invariant, for a reference other than 0, `remove` ends, keeps the
-- invariant, and does to the map of resting orders what its specification says, with the result
-- that it gives.
pub remove_correct :
    (b : OrderBook) (ref : ℕ)
    → IsBook b
    → ref ≢ 0
    → Achieves (remove b ref) (spec_remove (view b) ref)
unfolding remove
remove_correct b ref v ne = elim (find_correct b.orders ref v.orders ne) [
  | inl (e, absent) ↦
      subst (Achieves (remove b ref)) (sym (spec_remove-none (view b) ref (ap resting? absent)))
        (b, rw e refl, record { valid = v; same = λ r nz. refl })
  | inr (i, e, hi, same, live) ↦
      subst (Achieves (remove b ref))
        (sym (
          spec_remove-some (view b) ref (resting (slot b.orders.slots i).order) (ap resting? live)))
        (let (b', run, stands, _, _, _) = remove_live b ref i v ne e live in (b', run, stands))
]
