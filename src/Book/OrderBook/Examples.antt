-- ===== src/Book/OrderBook/Examples.antt =====
-- Runs of src/book/order_book.cc on concrete orders.
use nasdaq_itch_trading_syst.Base.{◌≤◌, ◌^◌, ◌≡◌, refl, true, some, length, arith, u64}
use nasdaq_itch_trading_syst.OrderIndex
use nasdaq_itch_trading_syst.Book.Level.{buy_side, sell_side}
use nasdaq_itch_trading_syst.Book.OrderBook.{
  OrderBook, applied, new_book, add_end, on_side, is_buy_side, best_ask, add, reduce, remove,
  replace, check_invariants_fast,
}
use nasdaq_itch_trading_syst.Book.OrderBook.Spec.{
  view, spec_add, spec_reduce, spec_remove, spec_replace,
}
use nasdaq_itch_trading_syst.Book.OrderBook.Invariant.{Achieves, resting_total}
use nasdaq_itch_trading_syst.Book.OrderBook.Removing.{remove_correct}
use nasdaq_itch_trading_syst.Book.OrderBook.Reducing.{reduce_correct}
use nasdaq_itch_trading_syst.Book.OrderBook.Adding.{add_correct}
use nasdaq_itch_trading_syst.Book.OrderBook.Replacing.{replace_correct}
use nasdaq_itch_trading_syst.Book.OrderBook.Reachable.{
  reachable-IsBook, IsReachable, start, after_add, reachable-check_invariants_fast,
}
use nasdaq_itch_trading_syst.OrderIndex.Examples.{one_order, runs}
use nasdaq_itch_trading_syst.Book.PriceLevels.{best}
use nasdaq_itch_trading_syst.Book.PriceLevels.Update.{add_level}

-- A book with the sell order 7 of 100 shares at 5000.
abbrev one_book : OrderBook
one_book = (add_end new_book sell_side 100 5000 (one_order, true)).0

adds : add new_book 7 sell_side 100 5000 ≡ some (one_book, applied)
unfolding add add_end is_buy_side new_book
adds = rw (runs) refl

none_yet : length new_book.orders.slots ≤ 2 ^ 61
unfolding new_book OrderIndex.new
none_yet = omega arith

one_book-IsReachable : IsReachable one_book
one_book-IsReachable =
    after_add new_book one_book 7 sell_side 100 5000 applied start (omega arith) none_yet adds

one_book_width : length one_book.orders.slots ≤ 2 ^ 61
unfolding add_end on_side is_buy_side
one_book_width = omega arith

-- The order rests, and the best ask is its level.
best_ask_test : best_ask one_book ≡ some (record { price = 5000; shares = 100; orders = 1 })
unfolding best_ask add_end on_side is_buy_side new_book add_level best
best_ask_test = refl

reachable-check_invariants_fast_example :
    (check_invariants_fast one_book ≡ true)
    × (one_book.order_shares ≡ u64 (resting_total one_book.orders))
reachable-check_invariants_fast_example =
    reachable-check_invariants_fast one_book one_book-IsReachable one_book_width

add_correct_example :
    Achieves (add one_book 8 buy_side 50 4900) (spec_add (view one_book) 8 buy_side 50 4900)
add_correct_example =
    add_correct one_book 8 buy_side 50 4900 (reachable-IsBook one_book one_book-IsReachable)
      (omega arith) one_book_width

reduce_correct_example : Achieves (reduce one_book 7 130) (spec_reduce (view one_book) 7 130)
reduce_correct_example =
    reduce_correct one_book 7 130 (reachable-IsBook one_book one_book-IsReachable) (omega arith)

remove_correct_example : Achieves (remove one_book 7) (spec_remove (view one_book) 7)
remove_correct_example =
    remove_correct one_book 7 (reachable-IsBook one_book one_book-IsReachable) (omega arith)

replace_correct_example :
    Achieves (replace one_book 7 9 60 5100) (spec_replace (view one_book) 7 9 60 5100)
replace_correct_example =
    replace_correct one_book 7 9 60 5100 (reachable-IsBook one_book one_book-IsReachable)
      (omega arith) (omega arith) (omega arith) one_book_width
