-- ===== src/Book/OrderBook/Invariant.antt =====
-- The invariant of src/book/order_book.h: what the constant time check compares, and the quantity
-- that rests in the index.
use nasdaq_itch_trading_syst.Base.{
  ℕ, ◌+◌, ◌^◌, ◌<◌, ◌≡◌, ◌≢◌, refl, Bool, true, false, Option, some, u64, sub_u64, arith,
}
use nasdaq_itch_trading_syst.OrderIndex.{Slot, OrderIndex, qty}
use nasdaq_itch_trading_syst.OrderIndex.Slots.{weight}
use nasdaq_itch_trading_syst.OrderIndex.Valid.{IsValid}
use nasdaq_itch_trading_syst.Book.PriceLevels.{PriceLevels}
use nasdaq_itch_trading_syst.Book.OrderBook.{OrderBook, ApplyResult, on_side}
use nasdaq_itch_trading_syst.Book.OrderBook.Spec.{Orders, view}

-- The quantity of a slot, and the quantity that rests in the index.
abbrev pub held : Slot → ℕ
held s = qty s.order

abbrev pub resting_total : OrderIndex → ℕ
resting_total t = weight held t.slots

-- Both running totals are the resting quantity on 64 bits, and the order count is the index's.
pub record IsBook (b : OrderBook) : Type 0 where
  pub orders : IsValid b.orders
  pub shares : b.order_shares ≡ u64 (resting_total b.orders)
  pub levels : b.level_shares ≡ b.order_shares
  pub count : b.level_orders ≡ u64 b.orders.size

-- A book that satisfies the invariant and stands for the map.
pub record Stands (b : OrderBook) (m : Orders) : Type 0 where
  pub valid : IsBook b
  pub same : (r : ℕ) → r ≢ 0 → view b r ≡ m r

-- A run that ends, with the result and the map that the specification gives.
abbrev pub Achieves : Option (OrderBook × ApplyResult) → Orders × ApplyResult → Type 0
Achieves run spec = (b : OrderBook) × (run ≡ some (b, spec.1)) × Stands b spec.0

-- Totals on 64 bits.
pub sub-u64 : (n n' k : ℕ) → n' + k ≡ n → k < 2 ^ 64 → sub_u64 (u64 n) k ≡ u64 n'
sub-u64 n n' k e h = omega arith

pub add-u64 : (n k : ℕ) → u64 (u64 n + k) ≡ u64 (n + k)
add-u64 n k = omega arith

-- An operation on one side leaves the index and the totals alone.
module _ (f : PriceLevels → PriceLevels) (b : OrderBook) (g : OrderIndex) where
  pub on_side-IsBook :
      (d : Bool) → IsBook (record b { orders = g }) → IsBook (record (on_side d f b) { orders = g })
  unfolding on_side
  on_side-IsBook true v = record {
    orders = v.orders;
    shares = v.shares;
    levels = v.levels;
    count = v.count;
  }
  on_side-IsBook false v = record {
    orders = v.orders;
    shares = v.shares;
    levels = v.levels;
    count = v.count;
  }

  pub on_side-orders : (d : Bool) → (on_side d f b).orders ≡ b.orders
  unfolding on_side
  on_side-orders true = refl
  on_side-orders false = refl

module _ (f : PriceLevels → PriceLevels) (b : OrderBook) where
  pub on_side-order_shares : (d : Bool) → (on_side d f b).order_shares ≡ b.order_shares
  unfolding on_side
  on_side-order_shares true = refl
  on_side-order_shares false = refl

  pub on_side-level_orders : (d : Bool) → (on_side d f b).level_orders ≡ b.level_orders
  unfolding on_side
  on_side-level_orders true = refl
  on_side-level_orders false = refl
