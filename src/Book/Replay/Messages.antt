-- ===== src/Book/Replay/Messages.antt =====
-- A message at its book, src/book/replay.cc: reads within the message, and the invariant kept.
use nasdaq_itch_trading_syst.Base.{
  ℕ, ◌^◌, ◌<◌, ◌≤◌, ◌≡◌, ◌≢◌, true, Option, some, List, length, get_elem?,
}
use nasdaq_itch_trading_syst.Itch.MessageType.{
  MessageType, to_char, expected_length, system_event, stock_directory, stock_trading_action,
  reg_sho_restriction, market_participant_pos, add_order, add_order_mpid, order_executed,
  order_executed_with_price, order_cancel, order_delete, order_replace, trade_non_cross,
  trade_cross, broken_trade,
}
use nasdaq_itch_trading_syst.Itch.Messages.{
  AddOrder, OrderExecuted, OrderCancel, OrderDelete, OrderReplace,
}
use nasdaq_itch_trading_syst.Itch.Decoder.{
  decode_add_order, decode_order_executed, decode_order_cancel, decode_order_delete,
  decode_order_replace,
}
use nasdaq_itch_trading_syst.Itch.Decoder.Bounds.{decoders_in_bounds}
use nasdaq_itch_trading_syst.Book.OrderBook.{OrderBook, ApplyResult}
use nasdaq_itch_trading_syst.Book.OrderBook.Spec.{Orders}
use nasdaq_itch_trading_syst.Book.OrderBook.Invariant.{IsBook, Achieves}
use nasdaq_itch_trading_syst.Book.OrderBook.Removing.{remove_correct}
use nasdaq_itch_trading_syst.Book.OrderBook.Reducing.{reduce_correct}
use nasdaq_itch_trading_syst.Book.OrderBook.Adding.{add_correct}
use nasdaq_itch_trading_syst.Book.OrderBook.Replacing.{replace_correct}
use nasdaq_itch_trading_syst.Book.Replay.{moves_book, apply_to_book, side_of}

-- Fields that an exchange sends: references other than 0, and fewer than 2 ^ 31 shares.
abbrev pub IsSound : MessageType → List ℕ → Type 0
IsSound add_order p = (m : AddOrder) → decode_add_order p ≡ some m → m.shares < 2 ^ 31
IsSound add_order_mpid p = (m : AddOrder) → decode_add_order p ≡ some m → m.shares < 2 ^ 31
IsSound order_executed p = (m : OrderExecuted) → decode_order_executed p ≡ some m → m.order_ref ≢ 0
IsSound order_executed_with_price p =
    (m : OrderExecuted) → decode_order_executed p ≡ some m → m.order_ref ≢ 0
IsSound order_cancel p = (m : OrderCancel) → decode_order_cancel p ≡ some m → m.order_ref ≢ 0
IsSound order_delete p = (m : OrderDelete) → decode_order_delete p ≡ some m → m.order_ref ≢ 0
IsSound order_replace p =
    (m : OrderReplace)
    → decode_order_replace p ≡ some m
    → (m.original_order_ref ≢ 0) × (m.new_order_ref ≢ 0) × (m.shares < 2 ^ 31)
IsSound _ p = Unit {0}

abbrev pub Keeps : Option (OrderBook × ApplyResult) → Type 0
Keeps run = (b : OrderBook) × (r : ApplyResult) × (run ≡ some (b, r)) × IsBook b

kept :
    (run : Option (OrderBook × ApplyResult)) (spec : Orders × ApplyResult)
    → Achieves run spec
    → Keeps run
kept run spec (b, e, stands) = (b, spec.1, e, stands.valid)

-- A message of a type that moves a book, with sound fields and at least the bytes of its type, is
-- applied without a read past the end, and the book keeps its invariant.
pub apply_to_book_correct :
    (t : MessageType) (p : List ℕ) (b : OrderBook)
    → moves_book (to_char t) ≡ true
    → get_elem? p 0 ≡ some (to_char t)
    → expected_length (some t) ≤ length p
    → IsSound t p
    → IsBook b
    → length b.orders.slots ≤ 2 ^ 61
    → Keeps (apply_to_book (to_char t) p b)
unfolding apply_to_book to_char moves_book
apply_to_book_correct add_order p b moves first long sound v small =
    let (m, e) = decoders_in_bounds add_order p first long in
    rw e
      (kept _ _ (add_correct b m.order_ref (side_of m.side) m.shares m.price v (sound m e) small))
apply_to_book_correct add_order_mpid p b moves first long sound v small =
    let (m, e) = decoders_in_bounds add_order_mpid p first long in
    rw e
      (kept _ _ (add_correct b m.order_ref (side_of m.side) m.shares m.price v (sound m e) small))
apply_to_book_correct order_executed p b moves first long sound v small =
    let (m, e) = decoders_in_bounds order_executed p first long in
    rw e (kept _ _ (reduce_correct b m.order_ref m.executed_shares v (sound m e)))
apply_to_book_correct order_executed_with_price p b moves first long sound v small =
    let (m, e) = decoders_in_bounds order_executed_with_price p first long in
    rw e (kept _ _ (reduce_correct b m.order_ref m.executed_shares v (sound m e)))
apply_to_book_correct order_cancel p b moves first long sound v small =
    let (m, e) = decoders_in_bounds order_cancel p first long in
    rw e (kept _ _ (reduce_correct b m.order_ref m.cancelled_shares v (sound m e)))
apply_to_book_correct order_delete p b moves first long sound v small =
    let (m, e) = decoders_in_bounds order_delete p first long in
    rw e (kept _ _ (remove_correct b m.order_ref v (sound m e)))
apply_to_book_correct order_replace p b moves first long sound v small =
    let (m, e) = decoders_in_bounds order_replace p first long in
    let (ne, ne', few) = sound m e in
    rw e (
      kept _ _ (
        replace_correct b m.original_order_ref m.new_order_ref m.shares m.price v ne ne' few small))
apply_to_book_correct system_event p b moves first long sound v small = absurd (cc)
apply_to_book_correct stock_directory p b moves first long sound v small = absurd (cc)
apply_to_book_correct stock_trading_action p b moves first long sound v small = absurd (cc)
apply_to_book_correct reg_sho_restriction p b moves first long sound v small = absurd (cc)
apply_to_book_correct market_participant_pos p b moves first long sound v small = absurd (cc)
apply_to_book_correct trade_non_cross p b moves first long sound v small = absurd (cc)
apply_to_book_correct trade_cross p b moves first long sound v small = absurd (cc)
apply_to_book_correct broken_trade p b moves first long sound v small = absurd (cc)
