-- ===== src/FeedHandler.antt =====
-- The offline driver, apps/feed_handler/main.cc: the audit of the messages of a file against the
-- books that they build. `debug` says whether it was compiled without NDEBUG. `none` is a read past
-- the end of the buffer, or a loop that never ends.
pub mod Balance
pub mod Books
pub mod Messages
pub mod Loop
pub mod Report
mod Examples
use nasdaq_itch_trading_syst.Base.{
  ℕ, zero, suc, ◌+◌, ◌%◌, Bool, true, false, not, ◌&&◌, ◌||◌, Option, none, some, List, [], ◌∷◌,
  get_elem?, length, ◌==◌, if◌then◌else◌, ◌>>=◌, ltb, u64, sub_u32, sub_u64,
}
use nasdaq_itch_trading_syst.Itch.MessageType.{
  is_known, of_char, expected_length, to_char, stock_directory,
}
use nasdaq_itch_trading_syst.Itch.Messages.{AddOrder, OrderDelete, OrderReplace}
use nasdaq_itch_trading_syst.Itch.Decoder.{
  decode_header, decode_stock_directory, decode_add_order, decode_order_executed,
  decode_order_cancel, decode_order_delete, decode_order_replace,
}
use nasdaq_itch_trading_syst.Itch.Framing.{MessageView, Framer, next}
use nasdaq_itch_trading_syst.Book.Level.{Side, buy_side, sell_side}
use nasdaq_itch_trading_syst.Book.OrderBook.{
  OrderBook, ApplyResult, applied, unknown_ref, duplicate_ref, clamped_reduce, add, reduce, remove,
  replace, shares_of, check_invariants_fast,
}
use nasdaq_itch_trading_syst.Book.BookSet.{
  BookSet, new_book_set, on_stock_directory, known, book, set_book,
}
use nasdaq_itch_trading_syst.Book.BookSet.Check.{check_invariants}

pub record Audit : Type 0 where
  pub applied_count : ℕ
  pub unknown_refs : ℕ
  pub duplicate_refs : ℕ
  pub clamped_reduces : ℕ
  pub shares_added : ℕ
  pub shares_executed : ℕ
  pub shares_cancelled : ℕ
  pub shares_deleted : ℕ

abbrev pub new_audit : Audit
new_audit = record {
  applied_count = 0;
  unknown_refs = 0;
  duplicate_refs = 0;
  clamped_reduces = 0;
  shares_added = 0;
  shares_executed = 0;
  shares_cancelled = 0;
  shares_deleted = 0;
}

unfoldable pub tally : Audit → ApplyResult → Audit
tally a applied = record a { applied_count = u64 (a.applied_count + 1) }
tally a unknown_ref = record a { unknown_refs = u64 (a.unknown_refs + 1) }
tally a duplicate_ref = record a { duplicate_refs = u64 (a.duplicate_refs + 1) }
tally a clamped_reduce = record a { clamped_reduces = u64 (a.clamped_reduces + 1) }

unfoldable pub expected_resting : Audit → ℕ
expected_resting a =
    sub_u64 (sub_u64 (sub_u64 a.shares_added a.shares_executed) a.shares_cancelled) a.shares_deleted

unfoldable pub to_side : ℕ → Side
to_side c = if c == b'S' then sell_side else buy_side

-- The three totals, each raised by an amount.
abbrev pub executed : Audit → ℕ → Audit
executed a n = record a { shares_executed = u64 (a.shares_executed + n) }

abbrev pub cancelled : Audit → ℕ → Audit
cancelled a n = record a { shares_cancelled = u64 (a.shares_cancelled + n) }

abbrev pub deleted : Audit → ℕ → Audit
deleted a n = record a { shares_deleted = u64 (a.shares_deleted + n) }

-- `if (r == book::ApplyResult::Applied) audit.shares_added += m.shares;` after the tally.
unfoldable pub count_added : Audit → ApplyResult → ℕ → Audit
count_added a applied shares = record a { shares_added = u64 (a.shares_added + shares) }
count_added a unknown_ref shares = a
count_added a duplicate_ref shares = a
count_added a clamped_reduce shares = a

-- The same for a replacement, which ends `killed` shares and adds others.
unfoldable pub count_replaced : Audit → ApplyResult → ℕ → ℕ → Audit
unfolding count_added
count_replaced a applied killed shares = count_added (deleted a killed) applied shares
count_replaced a unknown_ref killed shares = a
count_replaced a duplicate_ref killed shares = a
count_replaced a clamped_reduce killed shares = a

-- The arms of the switch, at the book of a registered locate.
unfoldable pub on_add : AddOrder → OrderBook → Audit → Option (OrderBook × Audit)
unfolding to_side tally count_added
on_add m b a = do
  r ← add b m.order_ref (to_side m.side) m.shares m.price
  some (r.0, count_added (tally a r.1) r.1 m.shares)

-- 'E', 'C' and 'X': what left the order is measured, and raises one of the totals.
unfoldable pub on_reduce :
    (Audit → ℕ → Audit) → ℕ → ℕ → OrderBook → Audit → Option (OrderBook × Audit)
unfolding tally shares_of
on_reduce count ref shares b a = do
  before ← shares_of b ref
  r ← reduce b ref shares
  left ← shares_of r.0 ref
  some (r.0, count (tally a r.1) (sub_u32 before left))

unfoldable pub on_delete : OrderDelete → OrderBook → Audit → Option (OrderBook × Audit)
unfolding tally shares_of
on_delete m b a = do
  killed ← shares_of b m.order_ref
  r ← remove b m.order_ref
  some (r.0, tally (deleted a killed) r.1)

unfoldable pub on_replace : OrderReplace → OrderBook → Audit → Option (OrderBook × Audit)
unfolding tally count_replaced shares_of
on_replace m b a = do
  killed ← shares_of b m.original_order_ref
  r ← replace b m.original_order_ref m.new_order_ref m.shares m.price
  some (r.0, count_replaced (tally a r.1) r.1 killed m.shares)

-- The locals of the loop.
pub record FeedState : Type 0 where
  pub books : BookSet
  pub counts : List (ℕ × ℕ)
  pub audit : Audit
  pub messages : ℕ
  pub unknown_type : ℕ
  pub length_mismatch : ℕ
  pub unknown_locate : ℕ
  pub invariants_ok : Bool

unfoldable pub new_feed : FeedState
unfolding new_book_set
new_feed = record {
  books = new_book_set;
  counts = [];
  audit = new_audit;
  messages = 0;
  unknown_type = 0;
  length_mismatch = 0;
  unknown_locate = 0;
  invariants_ok = true;
}

-- An arm, if its locate is registered.
unfoldable pub at_book :
    FeedState → ℕ → (OrderBook → Audit → Option (OrderBook × Audit)) → Option FeedState
unfolding known book set_book
at_book s locate arm =
    if known s.books locate
    then (do
      r ← arm (book s.books locate) s.audit
      some (record s { books = set_book s.books locate r.0; audit = r.1 }))
    else some (record s { unknown_locate = u64 (s.unknown_locate + 1) })

-- `switch (type)`.
unfoldable pub route : FeedState → ℕ → ℕ → List ℕ → Option FeedState
unfolding at_book on_add on_reduce on_delete on_replace
route s type locate p =
    if type == b'A' || type == b'F'
    then (do m ← decode_add_order p; at_book s locate (on_add m))
    else if type == b'E' || type == b'C'
    then (do
      m ← decode_order_executed p
      at_book s locate (on_reduce executed m.order_ref m.executed_shares))
    else if type == b'X'
    then (do
      m ← decode_order_cancel p
      at_book s locate (on_reduce cancelled m.order_ref m.cancelled_shares))
    else if type == b'D'
    then (do m ← decode_order_delete p; at_book s locate (on_delete m))
    else if type == b'U'
    then (do m ← decode_order_replace p; at_book s locate (on_replace m))
    else some s

-- What follows the switch: the state, and whether the loop goes on.
unfoldable pub after_switch : Bool → ℕ → FeedState → FeedState × Bool
unfolding known book check_invariants_fast check_invariants
after_switch debug locate s =
    if known s.books locate && not (check_invariants_fast (book s.books locate))
    then (record s { invariants_ok = false }, false)
    else if debug && (s.messages % 250_000 == 0 && not (check_invariants s.books))
    then (record s { invariants_ok = false }, false)
    else (s, true)

-- The order of `char`, which is signed where the program runs: 128 and above come first.
unfoldable pub char_order : ℕ → ℕ
char_order c = (c + 128) % 256

-- `++counts[type]` of a `std::map<char, std::size_t>`.
unfoldable pub count_type : List (ℕ × ℕ) → ℕ → List (ℕ × ℕ)
unfolding char_order
count_type [] type = (type, 1) ∷ []
count_type ((k, n) ∷ counts) type =
    let rest = count_type counts type in
    if ltb (char_order type) (char_order k)
    then (type, 1) ∷ (k, n) ∷ counts
    else if type == k
    then (k, u64 (n + 1)) ∷ counts
    else (k, n) ∷ rest

-- A known type, from its length on.
unfoldable pub on_known : Bool → FeedState → ℕ → List ℕ → Option (FeedState × Bool)
unfolding on_stock_directory route after_switch
on_known debug s type p =
    if type == to_char stock_directory
    then (do
      m ← decode_stock_directory p
      some (record s { books = on_stock_directory s.books m }, true))
    else (do
      header ← decode_header p
      s' ← route s type header.stock_locate p
      some (after_switch debug header.stock_locate s'))

-- The body of the loop.
unfoldable pub on_message : Bool → MessageView → FeedState → Option (FeedState × Bool)
unfolding count_type on_known
on_message debug mv s = get_elem? mv.bytes 0 >>= λ type.
    let begun : FeedState = record s {
      messages = u64 (s.messages + 1);
      counts = count_type s.counts type;
    } in
    if is_known type
    then on_known debug
        (if expected_length (of_char type) == mv.size
          then begun
          else record begun { length_mismatch = u64 (begun.length_mismatch + 1) })
        type mv.bytes
    else some (record begun { unknown_type = u64 (begun.unknown_type + 1) }, true)
