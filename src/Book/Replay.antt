-- ===== src/Book/Replay.antt =====
-- Dispatch of one message and the replay of a buffer, src/book/replay.h and replay.cc. `none` is a
-- read past the end of the buffer, or a probe loop that never ends.
pub mod Messages
pub mod Dispatch
mod Examples
use nasdaq_itch_trading_syst.Base.{
  ℕ, suc, ◌+◌, Bool, ◌&&◌, ◌||◌, Option, some, List, get_elem?, length, ◌==◌, if◌then◌else◌, ◌>>=◌,
  u64,
}
use nasdaq_itch_trading_syst.Itch.MessageType.{
  is_known, of_char, expected_length, to_char, stock_directory,
}
use nasdaq_itch_trading_syst.Itch.Decoder.{
  decode_header, decode_stock_directory, decode_add_order, decode_order_executed,
  decode_order_cancel, decode_order_delete, decode_order_replace,
}
use nasdaq_itch_trading_syst.Itch.Framing.{MessageView, framer, walk}
use nasdaq_itch_trading_syst.Book.Level.{Side, buy_side, sell_side}
use nasdaq_itch_trading_syst.Book.OrderBook.{
  OrderBook, ApplyResult, applied, unknown_ref, duplicate_ref, clamped_reduce, add, reduce, remove,
  replace,
}
use nasdaq_itch_trading_syst.Book.BookSet.{BookSet, on_stock_directory, known, book, set_book}

pub record ReplayStats : Type 0 where
  pub messages : ℕ
  pub unknown_type : ℕ
  pub length_mismatch : ℕ
  pub unknown_locate : ℕ
  pub applied_count : ℕ
  pub unknown_refs : ℕ
  pub duplicate_refs : ℕ
  pub clamped_reduces : ℕ

unfoldable pub new_stats : ReplayStats
new_stats = record {
  messages = 0;
  unknown_type = 0;
  length_mismatch = 0;
  unknown_locate = 0;
  applied_count = 0;
  unknown_refs = 0;
  duplicate_refs = 0;
  clamped_reduces = 0;
}

unfoldable pub clean : ReplayStats → Bool
clean s =
    s.length_mismatch == 0
    && (s.unknown_locate == 0
        && (s.unknown_refs == 0 && (s.duplicate_refs == 0 && s.clamped_reduces == 0)))

unfoldable pub side_of : ℕ → Side
side_of c = if c == b'S' then sell_side else buy_side

unfoldable pub tally : ReplayStats → ApplyResult → ReplayStats
tally s applied = record s { applied_count = u64 (s.applied_count + 1) }
tally s unknown_ref = record s { unknown_refs = u64 (s.unknown_refs + 1) }
tally s duplicate_ref = record s { duplicate_refs = u64 (s.duplicate_refs + 1) }
tally s clamped_reduce = record s { clamped_reduces = u64 (s.clamped_reduces + 1) }

-- The types that move a book.
unfoldable pub moves_book : ℕ → Bool
moves_book type =
    type == b'A'
    || (type == b'F'
        || (type == b'E' || (type == b'C' || (type == b'X' || (type == b'D' || type == b'U')))))

-- The second switch: the message of that type, applied to its book.
unfoldable pub apply_to_book : ℕ → List ℕ → OrderBook → Option (OrderBook × ApplyResult)
unfolding side_of
apply_to_book type p b =
    if type == b'A' || type == b'F'
    then (do m ← decode_add_order p; add b m.order_ref (side_of m.side) m.shares m.price)
    else if type == b'E' || type == b'C'
    then (do m ← decode_order_executed p; reduce b m.order_ref m.executed_shares)
    else if type == b'X'
    then (do m ← decode_order_cancel p; reduce b m.order_ref m.cancelled_shares)
    else if type == b'D'
    then (do m ← decode_order_delete p; remove b m.order_ref)
    else do
      m ← decode_order_replace p
      replace b m.original_order_ref m.new_order_ref m.shares m.price

-- The routing of a message that moves a book.
unfoldable pub route : BookSet → ReplayStats → ℕ → List ℕ → Option (BookSet × ReplayStats)
unfolding apply_to_book tally known book set_book
route books stats type p = decode_header p >>= λ header.
    let locate = header.stock_locate in
    if known books locate
    then (do
      r ← apply_to_book type p (book books locate)
      some (set_book books locate r.0, tally stats r.1))
    else some (books, record stats { unknown_locate = u64 (stats.unknown_locate + 1) })

-- A known type, after its length has been compared.
unfoldable pub dispatch : BookSet → ReplayStats → ℕ → List ℕ → Option (BookSet × ReplayStats)
unfolding moves_book route on_stock_directory
dispatch books stats type p =
    if type == to_char stock_directory
    then (do m ← decode_stock_directory p; some (on_stock_directory books m, stats))
    else if moves_book type
    then route books stats type p
    else some (books, stats)

-- `if (expected_length(type) != mv.size) ++stats.length_mismatch;`
unfoldable pub check_length : ReplayStats → ℕ → ℕ → ReplayStats
check_length stats type size =
    if expected_length (of_char type) == size
    then stats
    else record stats { length_mismatch = u64 (stats.length_mismatch + 1) }

unfoldable pub apply_message : MessageView → BookSet × ReplayStats → Option (BookSet × ReplayStats)
unfolding check_length dispatch
apply_message mv (books, before) = get_elem? mv.bytes 0 >>= λ type.
    let stats : ReplayStats = record before { messages = u64 (before.messages + 1) } in
    if is_known type
    then dispatch books (check_length stats type mv.size) type mv.bytes
    else some (books, record stats { unknown_type = u64 (stats.unknown_type + 1) })

-- Fuel: as many rounds as the buffer has bytes, and one.
unfoldable pub replay : BookSet → List ℕ → Option (BookSet × ReplayStats)
unfolding apply_message new_stats
replay books buffer = do
  r ← walk (suc (length buffer)) apply_message (framer buffer (length buffer)) (books, new_stats)
  some r.0
