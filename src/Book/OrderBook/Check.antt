-- ===== src/Book/OrderBook/Check.antt =====
-- The full check of a book, src/book/order_book.cc: both sides against a rebuild from the index,
-- and the getters.
use nasdaq_itch_trading_syst.Base.{
  ℕ, ◌+◌, Bool, true, false, not, ◌&&◌, ◌||◌, Option, none, some, List, [], ◌∷◌, length, ◌==◌,
  if◌then◌else◌, u32, u64,
}
use nasdaq_itch_trading_syst.OrderIndex.{Slot, Order, qty, buy}
use nasdaq_itch_trading_syst.Book.Level.{Level}
use nasdaq_itch_trading_syst.Book.SortedMap.{SortedMap, get, put, get_or_empty}
use nasdaq_itch_trading_syst.Book.PriceLevels.{PriceLevels}
use nasdaq_itch_trading_syst.Book.PriceLevels.Merge.{levels, check_levels}
use nasdaq_itch_trading_syst.Book.OrderBook.{OrderBook, check_invariants_fast}

unfoldable pub live_orders : OrderBook → ℕ
live_orders b = b.orders.size

unfoldable pub resting_shares : OrderBook → ℕ
resting_shares b = b.order_shares

unfoldable pub index_rehashes : OrderBook → ℕ
index_rehashes b = b.orders.rehashes

unfoldable pub rebases : OrderBook → ℕ
rebases b = u64 (b.bids.rebases + b.asks.rebases)

-- `orders_.for_each(f)`, in the order of the slots.
unfoldable pub for_each {ℓ} : {S : Type ℓ} → (ℕ → Order → S → S) → List Slot → S → S
for_each f [] s = s
for_each f (x ∷ slots) s = for_each f slots (if x.ref == 0 then s else f x.ref x.order s)

-- An order, added to the computed level of its price.
unfoldable pub count_order : Order → SortedMap → SortedMap
unfolding put get_or_empty qty
count_order o m =
    let level = get_or_empty m o.price in
    put m o.price (record {
      price = o.price;
      shares = u64 (level.shares + qty o);
      orders = u32 (level.orders + 1);
    })

-- The body of the loop over the index: the computed bids and asks.
unfoldable pub compute : ℕ → Order → SortedMap × SortedMap → SortedMap × SortedMap
unfolding count_order buy
compute ref o (bids, asks) =
    if buy o then (count_order o bids, asks) else (bids, count_order o asks)

unfoldable pub level_matches : Level → Option Level → Bool
level_matches l none = false
level_matches l (some l') = l.shares == l'.shares && l.orders == l'.orders

-- The loop over the stored levels.
unfoldable pub all_match : List Level → SortedMap → Bool
unfolding level_matches get
all_match [] computed = true
all_match (l ∷ ls) computed =
    not (l.shares == 0 || l.orders == 0)
    && (level_matches l (get computed l.price) && all_match ls computed)

unfoldable pub side_matches : PriceLevels → SortedMap → Bool
unfolding check_levels levels all_match
side_matches stored computed =
    check_levels stored
    && (length (levels stored) == length computed && all_match (levels stored) computed)

unfoldable pub check_invariants : OrderBook → Bool
unfolding check_invariants_fast for_each compute side_matches
check_invariants b =
    let computed = for_each compute b.orders.slots ([], []) in
    check_invariants_fast b && (side_matches b.bids computed.0 && side_matches b.asks computed.1)
