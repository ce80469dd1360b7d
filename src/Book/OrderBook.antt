-- ===== src/Book/OrderBook.antt =====
-- The order book of one stock, src/book/order_book.h and order_book.cc: the index of the live
-- orders, both sides, and the running totals. `none` is a probe loop of the index that never ends.
pub mod Check
pub mod Spec
pub mod Invariant
pub mod Removing
pub mod Reducing
pub mod Reduction
pub mod Adding
pub mod Moves
pub mod Replacing
pub mod Reachable
mod Examples
use nasdaq_itch_trading_syst.Base.{
  ℕ, zero, suc, ◌+◌, Bool, true, false, not, ◌&&◌, Option, none, some, List, [], ◌∷◌, length, ltb,
  ◌==◌, if◌then◌else◌, ◌>>=◌, u32, u64, sub_u32, sub_u64,
}
use nasdaq_itch_trading_syst.OrderIndex.{
  Slot, Order, OrderIndex, slot, qty, buy, pack, insert, find, erase, write_shares,
}
use nasdaq_itch_trading_syst.OrderIndex
use nasdaq_itch_trading_syst.Book.Level.{Side, buy_side, sell_side, Level}
use nasdaq_itch_trading_syst.Book.PriceLevels.{
  PriceLevels, default_span, price_levels, best, ensure_cells,
}
use nasdaq_itch_trading_syst.Book.PriceLevels.Update.{add_level, reduce_level, remove_level}

pub data ApplyResult : Type 0 where
  applied unknown_ref duplicate_ref clamped_reduce : ApplyResult

pub record OrderBook : Type 0 where
  pub orders : OrderIndex
  pub bids : PriceLevels
  pub asks : PriceLevels
  pub order_shares : ℕ
  pub level_shares : ℕ
  pub level_orders : ℕ

-- A book before its first order.
unfoldable pub new_book : OrderBook
unfolding price_levels OrderIndex.new
new_book = record {
  orders = OrderIndex.new;
  bids = price_levels buy_side 0 default_span;
  asks = price_levels sell_side 0 default_span;
  order_shares = 0;
  level_shares = 0;
  level_orders = 0;
}

unfoldable pub is_buy_side : Side → Bool
is_buy_side buy_side = true
is_buy_side sell_side = false

-- `buy ? Side::Buy : Side::Sell`.
unfoldable pub to_side : Bool → Side
to_side is_buy = if is_buy then buy_side else sell_side

-- An operation on the side that an order rests on.
unfoldable pub on_side : Bool → (PriceLevels → PriceLevels) → OrderBook → OrderBook
on_side is_buy f b = if is_buy then record b { bids = f b.bids } else record b { asks = f b.asks }

-- The end of `add`, once the index has been asked.
unfoldable pub add_end : OrderBook → Side → ℕ → ℕ → OrderIndex × Bool → OrderBook × ApplyResult
unfolding on_side is_buy_side add_level
add_end b side shares price (orders, false) = (record b { orders = orders }, duplicate_ref)
add_end b side shares price (orders, true) =
    let b' =
      on_side (is_buy_side side) (λ l. add_level l price shares)
        (record b { orders = orders; order_shares = u64 (b.order_shares + shares) }) in
    (
      record b' {
        level_shares = u64 (b'.level_shares + shares);
        level_orders = u64 (b'.level_orders + 1);
      },
      applied,
    )

unfoldable pub add : OrderBook → ℕ → Side → ℕ → ℕ → Option (OrderBook × ApplyResult)
unfolding add_end is_buy_side
add b ref side shares price = insert b.orders ref shares price (is_buy_side side) >>= λ r.
    some (add_end b side shares price r)

-- The book after the levels have been told of a reduction of the order of a slot.
unfoldable pub settle_levels : OrderBook → Order → ℕ → Bool → OrderBook
unfolding on_side reduce_level remove_level
settle_levels b o reduce_by dies =
    let removed = on_side (buy o) (λ l. remove_level l o.price reduce_by) b in
    let reduced = on_side (buy o) (λ l. reduce_level l o.price reduce_by) b in
    if dies
    then record removed {
      level_orders = sub_u64 b.level_orders 1;
      level_shares = sub_u64 b.level_shares reduce_by;
    }
    else record reduced { level_shares = sub_u64 b.level_shares reduce_by }

unfoldable pub erase_if : Bool → OrderIndex → ℕ → Option OrderIndex
erase_if dies orders ref = if dies then (do r ← erase orders ref; some r.0) else some orders

-- The order at slot `i` loses `reduce_by` shares and has `left`; it dies at zero.
unfoldable pub reduce_to :
    OrderBook → ℕ → ℕ → ℕ → ℕ → ApplyResult → Option (OrderBook × ApplyResult)
unfolding settle_levels erase_if
reduce_to b ref i reduce_by left result =
    let o = (slot b.orders.slots i).order in
    let dies = left == 0 in
    let b' =
      settle_levels
        (record b {
          orders = write_shares b.orders i (pack left (buy o));
          order_shares = sub_u64 b.order_shares reduce_by;
        })
        o reduce_by dies in
    erase_if dies b'.orders ref >>= λ orders. some (record b' { orders = orders }, result)

-- `reduce` of the order at slot `i`, clamped to what the order has.
unfoldable pub reduce_found : OrderBook → ℕ → ℕ → ℕ → Option (OrderBook × ApplyResult)
unfolding reduce_to
reduce_found b ref shares i =
    let order_qty = qty (slot b.orders.slots i).order in
    let clamped = ltb order_qty shares in
    let reduce_by = if clamped then order_qty else shares in
    let left = sub_u32 order_qty reduce_by in
    reduce_to b ref i reduce_by left (if clamped then clamped_reduce else applied)

unfoldable pub reduce : OrderBook → ℕ → ℕ → Option (OrderBook × ApplyResult)
unfolding reduce_found
reduce b ref shares = find b.orders ref >>= λ found. elim found [
  | none ↦ some (b, unknown_ref)
  | some i ↦ reduce_found b ref shares i
]

-- `remove` of the order at slot `i`.
unfoldable pub remove_found : OrderBook → ℕ → ℕ → Option (OrderBook × ApplyResult)
unfolding on_side remove_level
remove_found b ref i =
    let o = (slot b.orders.slots i).order in
    let b' =
      on_side (buy o) (λ l. remove_level l o.price (qty o))
        (record b {
          order_shares = sub_u64 b.order_shares (qty o);
          level_shares = sub_u64 b.level_shares (qty o);
          level_orders = sub_u64 b.level_orders 1;
        }) in
    erase b'.orders ref >>= λ r. some (record b' { orders = r.0 }, applied)

unfoldable pub remove : OrderBook → ℕ → Option (OrderBook × ApplyResult)
unfolding remove_found
remove b ref = find b.orders ref >>= λ found. elim found [
  | none ↦ some (b, unknown_ref)
  | some i ↦ remove_found b ref i
]

-- `new_ref != original_ref && orders_.find(new_ref) != nullptr`.
unfoldable pub collides : OrderBook → ℕ → ℕ → Option Bool
collides b original_ref new_ref =
    if new_ref == original_ref
    then some false
    else (do found ← find b.orders new_ref; some (elim found [ none ↦ false | some i ↦ true ]))

-- `return add(...)`, or what `remove` returned if it failed.
unfoldable pub add_replacement :
    ℕ → Side → ℕ → ℕ → OrderBook × ApplyResult → Option (OrderBook × ApplyResult)
unfolding add
add_replacement new_ref side shares price (b, applied) = add b new_ref side shares price
add_replacement new_ref side shares price (b, unknown_ref) = some (b, unknown_ref)
add_replacement new_ref side shares price (b, duplicate_ref) = some (b, duplicate_ref)
add_replacement new_ref side shares price (b, clamped_reduce) = some (b, clamped_reduce)

-- `replace` of the order at slot `i`.
unfoldable pub replace_found : OrderBook → ℕ → ℕ → ℕ → ℕ → ℕ → Option (OrderBook × ApplyResult)
unfolding collides to_side remove add_replacement
replace_found b original_ref new_ref shares price i =
    let side = to_side (buy (slot b.orders.slots i).order) in
    collides b original_ref new_ref >>= λ clash.
    if clash
    then some (b, duplicate_ref)
    else remove b original_ref >>= λ removed. add_replacement new_ref side shares price removed

unfoldable pub replace : OrderBook → ℕ → ℕ → ℕ → ℕ → Option (OrderBook × ApplyResult)
unfolding replace_found
replace b original_ref new_ref shares price = find b.orders original_ref >>= λ found. elim found [
  | none ↦ some (b, unknown_ref)
  | some i ↦ replace_found b original_ref new_ref shares price i
]

unfoldable pub best_bid : OrderBook → Option Level
best_bid b = best b.bids

unfoldable pub best_ask : OrderBook → Option Level
best_ask b = best b.asks

unfoldable pub shares_of : OrderBook → ℕ → Option ℕ
shares_of b ref = find b.orders ref >>= λ found.
    some (elim found [ none ↦ 0 | some i ↦ qty (slot b.orders.slots i).order ])

unfoldable pub reserve : OrderBook → OrderBook
reserve b = record b { bids = ensure_cells b.bids; asks = ensure_cells b.asks }

unfoldable pub check_invariants_fast : OrderBook → Bool
check_invariants_fast b = b.order_shares == b.level_shares && b.orders.size == b.level_orders
