-- ===== src/Itch/Decoder.antt =====
-- The decoder, src/itch/decoder.cc: one function per message, reading at the offsets of the
-- specification. `none` is a read past the end of the buffer.
pub mod Wire
pub mod RoundTrip
pub mod Bounds
use nasdaq_itch_trading_syst.Base.{
  ℕ, zero, suc, Bool, true, false, Option, none, some, List, [], ◌∷◌, drop, get_elem?, ◌==◌,
  if◌then◌else◌, ◌>>=◌,
}
use nasdaq_itch_trading_syst.ByteReader.{be16, be32, be48, be64}
use nasdaq_itch_trading_syst.Itch.MessageType.{to_char, order_executed_with_price, trade_non_cross}
use nasdaq_itch_trading_syst.Itch.Messages.{
  Stock, Header, SystemEvent, StockDirectory, AddOrder, OrderExecuted, OrderCancel, OrderDelete,
  OrderReplace, Trade,
}

-- The loop over the `n` characters of a field.
unfoldable pub read_chars : ℕ → List ℕ → Option (List ℕ)
read_chars zero p = some []
read_chars (suc n) [] = none
read_chars (suc n) (c ∷ p) = do cs ← read_chars n p; some (c ∷ cs)

unfoldable pub read_stock : List ℕ → Option Stock
unfolding read_chars
read_stock p = read_chars 8 p

unfoldable pub decode_header : List ℕ → Option Header
decode_header p = do
  stock_locate ← be16 (drop 1 p)
  tracking_number ← be16 (drop 3 p)
  timestamp ← be48 (drop 5 p)
  some (record {
    stock_locate = stock_locate;
    tracking_number = tracking_number;
    timestamp = timestamp;
  })

unfoldable pub decode_system_event : List ℕ → Option SystemEvent
decode_system_event p = do
  header ← decode_header p
  event_code ← get_elem? p 11
  some (record { header = header; event_code = event_code })

unfoldable pub decode_stock_directory : List ℕ → Option StockDirectory
decode_stock_directory p = do
  header ← decode_header p
  stock ← read_stock (drop 11 p)
  market_category ← get_elem? p 19
  round_lot_size ← be32 (drop 21 p)
  some (record {
    header = header;
    stock = stock;
    market_category = market_category;
    round_lot_size = round_lot_size;
  })

unfoldable pub decode_add_order : List ℕ → Option AddOrder
decode_add_order p = do
  header ← decode_header p
  order_ref ← be64 (drop 11 p)
  side ← get_elem? p 19
  shares ← be32 (drop 20 p)
  stock ← read_stock (drop 24 p)
  price ← be32 (drop 32 p)
  some (record {
    header = header;
    order_ref = order_ref;
    side = side;
    shares = shares;
    stock = stock;
    price = price;
  })

-- The tail that only 'C' has; `printable` and `execution_price` keep their defaults otherwise.
unfoldable pub decode_price_tail : ℕ → List ℕ → OrderExecuted → Option OrderExecuted
decode_price_tail type p msg =
    if type == to_char order_executed_with_price
    then (do
      flag ← get_elem? p 31
      execution_price ← be32 (drop 32 p)
      some (record msg { printable = flag == b'Y'; execution_price = execution_price }))
    else some msg

unfoldable pub decode_order_executed : List ℕ → Option OrderExecuted
unfolding decode_price_tail
decode_order_executed p = do
  header ← decode_header p
  order_ref ← be64 (drop 11 p)
  executed_shares ← be32 (drop 19 p)
  match_number ← be64 (drop 23 p)
  type ← get_elem? p 0
  decode_price_tail type p (record {
    header = header;
    order_ref = order_ref;
    executed_shares = executed_shares;
    match_number = match_number;
    execution_price = 0;
    printable = true;
  })

unfoldable pub decode_order_cancel : List ℕ → Option OrderCancel
decode_order_cancel p = do
  header ← decode_header p
  order_ref ← be64 (drop 11 p)
  cancelled_shares ← be32 (drop 19 p)
  some (record { header = header; order_ref = order_ref; cancelled_shares = cancelled_shares })

unfoldable pub decode_order_delete : List ℕ → Option OrderDelete
decode_order_delete p = do
  header ← decode_header p
  order_ref ← be64 (drop 11 p)
  some (record { header = header; order_ref = order_ref })

unfoldable pub decode_order_replace : List ℕ → Option OrderReplace
decode_order_replace p = do
  header ← decode_header p
  original_order_ref ← be64 (drop 11 p)
  new_order_ref ← be64 (drop 19 p)
  shares ← be32 (drop 27 p)
  price ← be32 (drop 31 p)
  some (record {
    header = header;
    original_order_ref = original_order_ref;
    new_order_ref = new_order_ref;
    shares = shares;
    price = price;
  })

unfoldable pub decode_non_cross : List ℕ → Header → Option Trade
decode_non_cross p header = do
  order_ref ← be64 (drop 11 p)
  side ← get_elem? p 19
  shares ← be32 (drop 20 p)
  stock ← read_stock (drop 24 p)
  price ← be32 (drop 32 p)
  match_number ← be64 (drop 36 p)
  some (record {
    header = header;
    order_ref = order_ref;
    side = side;
    shares = shares;
    stock = stock;
    price = price;
    match_number = match_number;
    has_order = true;
  })

-- A cross has no resting order and no side, and its share count has 8 bytes.
unfoldable pub decode_cross : List ℕ → Header → Option Trade
decode_cross p header = do
  shares ← be64 (drop 11 p)
  stock ← read_stock (drop 19 p)
  price ← be32 (drop 27 p)
  match_number ← be64 (drop 31 p)
  some (record {
    header = header;
    order_ref = 0;
    side = b' ';
    shares = shares;
    stock = stock;
    price = price;
    match_number = match_number;
    has_order = false;
  })

unfoldable pub decode_trade : List ℕ → Option Trade
unfolding decode_non_cross decode_cross
decode_trade p = do
  header ← decode_header p
  type ← get_elem? p 0
  if type == to_char trade_non_cross then decode_non_cross p header else decode_cross p header
