-- ===== src/Book/OrderBook/Reachable.antt =====
-- The books that the operations of src/book/order_book.h make, and their constant time check.
use nasdaq_itch_trading_syst.Base.{
  ℕ, ◌^◌, ◌<◌, ◌≤◌, ◌≡◌, ◌≢◌, refl, subst, true, Option, some, length, u64, arith,
}
use nasdaq_itch_trading_syst.OrderIndex.{OrderIndex}
use nasdaq_itch_trading_syst.OrderIndex
use nasdaq_itch_trading_syst.OrderIndex.Slots.{weight}
use nasdaq_itch_trading_syst.OrderIndex.Valid.{IsValid, unused, used, new-IsValid, room-used}
use nasdaq_itch_trading_syst.Book.Level.{Side}
use nasdaq_itch_trading_syst.Book.OrderBook.{
  OrderBook, ApplyResult, new_book, add, reduce, remove, replace, check_invariants_fast,
}
use nasdaq_itch_trading_syst.Book.OrderBook.Spec.{Orders}
use nasdaq_itch_trading_syst.Book.OrderBook.Invariant.{IsBook, Achieves, resting_total}
use nasdaq_itch_trading_syst.Book.OrderBook.Removing.{remove_correct}
use nasdaq_itch_trading_syst.Book.OrderBook.Reducing.{reduce_correct}
use nasdaq_itch_trading_syst.Book.OrderBook.Adding.{add_correct}
use nasdaq_itch_trading_syst.Book.OrderBook.Replacing.{replace_correct}

-- Any sequence of operations on a new book, with references other than 0 and fewer than 2 ^ 31
-- shares in an order, while the index has at most 2 ^ 61 slots.
pub data IsReachable : OrderBook → Type 0 where
  start : IsReachable new_book
  after_add :
      (b b' : OrderBook) (ref : ℕ) (side : Side) (shares price : ℕ) (r : ApplyResult)
      → IsReachable b
      → shares < 2 ^ 31
      → length b.orders.slots ≤ 2 ^ 61
      → add b ref side shares price ≡ some (b', r)
      → IsReachable b'
  after_reduce :
      (b b' : OrderBook) (ref shares : ℕ) (r : ApplyResult)
      → IsReachable b
      → ref ≢ 0
      → reduce b ref shares ≡ some (b', r)
      → IsReachable b'
  after_remove :
      (b b' : OrderBook) (ref : ℕ) (r : ApplyResult)
      → IsReachable b
      → ref ≢ 0
      → remove b ref ≡ some (b', r)
      → IsReachable b'
  after_replace :
      (b b' : OrderBook) (original_ref new_ref shares price : ℕ) (r : ApplyResult)
      → IsReachable b
      → original_ref ≢ 0
      → new_ref ≢ 0
      → shares < 2 ^ 31
      → length b.orders.slots ≤ 2 ^ 61
      → replace b original_ref new_ref shares price ≡ some (b', r)
      → IsReachable b'

pub new_book-IsBook : IsBook new_book
unfolding new_book weight OrderIndex.new
new_book-IsBook = record { orders = new-IsValid; shares = refl; levels = refl; count = refl }

-- A run that achieves something leaves a book with the invariant.
pub run-IsBook :
    (run : Option (OrderBook × ApplyResult)) (spec : Orders × ApplyResult) (b : OrderBook)
    (r : ApplyResult)
    → Achieves run spec
    → run ≡ some (b, r)
    → IsBook b
run-IsBook run spec b r (b', e, stands) e' =
    let same : b' ≡ b = cc in subst IsBook same stands.valid

pub reachable-IsBook : (b : OrderBook) → IsReachable b → IsBook b
reachable-IsBook _ start = new_book-IsBook
reachable-IsBook _ (after_add b b' ref side shares price r h small room e) =
    run-IsBook _ _ b' r (add_correct b ref side shares price (reachable-IsBook b h) small room) e
reachable-IsBook _ (after_reduce b b' ref shares r h ne e) =
    run-IsBook _ _ b' r (reduce_correct b ref shares (reachable-IsBook b h) ne) e
reachable-IsBook _ (after_remove b b' ref r h ne e) =
    run-IsBook _ _ b' r (remove_correct b ref (reachable-IsBook b h) ne) e
reachable-IsBook _ (after_replace b b' original_ref new_ref shares price r h ne ne' small room e) =
    run-IsBook _ _ b' r
      (replace_correct b original_ref new_ref shares price (reachable-IsBook b h) ne ne' small room)
      e

size-le : (t : OrderIndex) → IsValid t → t.size ≤ length t.slots
size-le t (unused e s a) = omega (arith, s)
size-le t (used table c f th w) = omega (arith, c, room-used t c f th w)

pub IsBook-check_invariants_fast :
    (b : OrderBook) → IsBook b → b.orders.size < 2 ^ 64 → check_invariants_fast b ≡ true
unfolding check_invariants_fast
IsBook-check_invariants_fast b v small =
    let same : b.orders.size ≡ b.level_orders = omega (arith, v.count) in
    rw (v.levels, same) (ground arith)

-- After any sequence of operations on a new book, with references other than 0 for all but `add`,
-- fewer than 2 ^ 31 shares in a new order and at most 2 ^ 61 slots in its index, the constant
-- time check of the book succeeds, and its resting shares are the sum over the live orders on 64
-- bits.
pub reachable-check_invariants_fast :
    (b : OrderBook)
    → IsReachable b
    → length b.orders.slots ≤ 2 ^ 61
    → (check_invariants_fast b ≡ true) × (b.order_shares ≡ u64 (resting_total b.orders))
reachable-check_invariants_fast b h small =
    let v = reachable-IsBook b h in
    (IsBook-check_invariants_fast b v (omega (arith, size-le b.orders v.orders)), v.shares)
