-- ===== src/Itch/Decoder/RoundTrip.antt =====
-- Decoding src/itch/decoder.cc gives back the message of which the bytes are the wire layout.
use nasdaq_itch_trading_syst.Base.{
  ℕ, zero, suc, ◌^◌, ◌<◌, ◌≡◌, ◌≢◌, refl, ap, ◌∙◌, sym, List, [], ◌∷◌, ◌++◌, length, true, false,
  some, drop, get_elem?, arith, drop-drop, drop-append, get_elem?-drop, ◌+◌, ◌==◌,
}
use nasdaq_itch_trading_syst.ByteReader.Value.{be_bytes}
use nasdaq_itch_trading_syst.ByteReader.Readers.{
  be16-be_bytes, be32-be_bytes, be48-be_bytes, be64-be_bytes,
}
use nasdaq_itch_trading_syst.Itch.MessageType.{to_char}
use nasdaq_itch_trading_syst.Itch.Messages.{
  Header, SystemEvent, StockDirectory, AddOrder, OrderExecuted, OrderCancel, OrderDelete,
  OrderReplace, Trade,
}
use nasdaq_itch_trading_syst.Itch.Decoder.{
  read_chars, read_stock, decode_header, decode_system_event, decode_stock_directory,
  decode_add_order, decode_order_executed, decode_order_cancel, decode_order_delete,
  decode_order_replace, decode_trade,
}
use nasdaq_itch_trading_syst.Itch.Decoder.Wire.{
  IsHeader, wire_header, wire_system_event, wire_stock_directory, wire_add_order,
  wire_order_executed, wire_order_cancel, wire_order_delete, wire_order_replace, wire_non_cross,
  wire_cross,
}

pub decode_header-wire :
    (type : ℕ) (h : Header) (rest : List ℕ)
    → IsHeader h
    → decode_header (wire_header type h rest) ≡ some h
unfolding decode_header
decode_header-wire type h rest v = rw (
  be16-be_bytes h.stock_locate _ v.locate_fits,
  be16-be_bytes h.tracking_number _ v.tracking_fits,
  be48-be_bytes h.timestamp rest v.timestamp_fits,
)

pub decode_order_delete-wire :
    (type : ℕ) (m : OrderDelete) (rest : List ℕ)
    → IsHeader m.header
    → m.order_ref < 2 ^ 64
    → decode_order_delete (wire_order_delete type m rest) ≡ some m
unfolding decode_order_delete
decode_order_delete-wire type m rest v ref =
    rw (decode_header-wire type m.header _ v, be64-be_bytes m.order_ref rest ref)

pub read_chars_lem : (n : ℕ) (s rest : List ℕ) → n ≡ length s → read_chars n (s ++ rest) ≡ some s
unfolding read_chars
read_chars_lem zero [] rest h = refl
read_chars_lem zero (c ∷ s) rest h = absurd (omega arith)
read_chars_lem (suc n) [] rest h = absurd (omega arith)
read_chars_lem (suc n) (c ∷ s) rest h = rw (read_chars_lem n s rest (omega arith))

pub read_stock_lem : (s rest : List ℕ) → length s ≡ 8 → read_stock (s ++ rest) ≡ some s
unfolding read_stock
read_stock_lem s rest h = read_chars_lem 8 s rest (sym h)

-- Where a stock symbol stands at offset `n`, what follows it stands at `n + 8`.
behind_stock :
    (n : ℕ) (p s rest : List ℕ) → drop n p ≡ s ++ rest → length s ≡ 8 → drop (n + 8) p ≡ rest
behind_stock n p s rest at h = sym (drop-drop n 8 p) ∙ ap (drop 8) at ∙ drop-append 8 s rest (sym h)

pub decode_system_event-wire :
    (type : ℕ) (m : SystemEvent) (rest : List ℕ)
    → IsHeader m.header
    → decode_system_event (wire_system_event type m rest) ≡ some m
unfolding decode_system_event
decode_system_event-wire type m rest v = rw (decode_header-wire type m.header _ v)

pub decode_stock_directory-wire :
    (type status : ℕ) (m : StockDirectory) (rest : List ℕ)
    → IsHeader m.header
    → length m.stock ≡ 8
    → m.round_lot_size < 2 ^ 32
    → decode_stock_directory (wire_stock_directory type status m rest) ≡ some m
unfolding decode_stock_directory
decode_stock_directory-wire type status m rest v stock lot =
    let p = wire_stock_directory type status m rest in
    let tail = m.market_category ∷ status ∷ (be_bytes 4 m.round_lot_size ++ rest) in
    let e : drop 19 p ≡ tail = behind_stock 11 p m.stock tail refl stock in
    let category : get_elem? p 19 ≡ some m.market_category =
      get_elem?-drop 19 p ∙ ap (λ (q : List ℕ). get_elem? q 0) e in
    let lot_at : drop 21 p ≡ be_bytes 4 m.round_lot_size ++ rest =
      sym (drop-drop 19 2 p) ∙ ap (drop 2) e in
    rw (
      decode_header-wire type m.header _ v,
      read_stock_lem m.stock tail stock,
      category,
      lot_at,
      be32-be_bytes m.round_lot_size rest lot,
    )

pub record IsAddOrder (m : AddOrder) : Type 0 where
  pub header : IsHeader m.header
  pub ref_fits : m.order_ref < 2 ^ 64
  pub shares_fit : m.shares < 2 ^ 32
  pub stock_wide : length m.stock ≡ 8
  pub price_fits : m.price < 2 ^ 32

-- Decoding the wire layout of an add order message whose fields fit their widths, with any type
-- byte and any bytes behind it, gives back the message.
pub decode_add_order-wire :
    (type : ℕ) (m : AddOrder) (rest : List ℕ)
    → IsAddOrder m
    → decode_add_order (wire_add_order type m rest) ≡ some m
unfolding decode_add_order
decode_add_order-wire type m rest v =
    let p = wire_add_order type m rest in
    let tail = be_bytes 4 m.price ++ rest in
    let e : drop 32 p ≡ tail = behind_stock 24 p m.stock tail refl v.stock_wide in
    rw (
      decode_header-wire type m.header _ v.header,
      be64-be_bytes m.order_ref _ v.ref_fits,
      be32-be_bytes m.shares (m.stock ++ tail) v.shares_fit,
      read_stock_lem m.stock tail v.stock_wide,
      e,
      be32-be_bytes m.price rest v.price_fits,
    )

pub decode_order_cancel-wire :
    (type : ℕ) (m : OrderCancel) (rest : List ℕ)
    → IsHeader m.header
    → m.order_ref < 2 ^ 64
    → m.cancelled_shares < 2 ^ 32
    → decode_order_cancel (wire_order_cancel type m rest) ≡ some m
unfolding decode_order_cancel
decode_order_cancel-wire type m rest v ref shares = rw (
  decode_header-wire type m.header _ v,
  be64-be_bytes m.order_ref _ ref,
  be32-be_bytes m.cancelled_shares rest shares,
)

pub record IsOrderReplace (m : OrderReplace) : Type 0 where
  pub header : IsHeader m.header
  pub original_fits : m.original_order_ref < 2 ^ 64
  pub new_fits : m.new_order_ref < 2 ^ 64
  pub shares_fit : m.shares < 2 ^ 32
  pub price_fits : m.price < 2 ^ 32

-- Decoding the wire layout of a replace message whose fields fit their widths, with any type byte
-- and any bytes behind it, gives back the message.
pub decode_order_replace-wire :
    (type : ℕ) (m : OrderReplace) (rest : List ℕ)
    → IsOrderReplace m
    → decode_order_replace (wire_order_replace type m rest) ≡ some m
unfolding decode_order_replace
decode_order_replace-wire type m rest v = rw (
  decode_header-wire type m.header _ v.header,
  be64-be_bytes m.original_order_ref _ v.original_fits,
  be64-be_bytes m.new_order_ref _ v.new_fits,
  be32-be_bytes m.shares _ v.shares_fit,
  be32-be_bytes m.price rest v.price_fits,
)

pub record IsOrderExecuted (m : OrderExecuted) : Type 0 where
  pub header : IsHeader m.header
  pub ref_fits : m.order_ref < 2 ^ 64
  pub shares_fit : m.executed_shares < 2 ^ 32
  pub match_fits : m.match_number < 2 ^ 64

-- Decoding the wire layout of an execution whose fields fit their widths and whose type is not
-- 'C' gives back the message with price 0 and the printable flag set.
pub decode_order_executed-wire :
    (type : ℕ) (m : OrderExecuted) (rest : List ℕ)
    → IsOrderExecuted m
    → type ≢ b'C'
    → decode_order_executed (wire_order_executed type m rest)
      ≡ some (record m { execution_price = 0; printable = true })
unfolding decode_order_executed to_char
decode_order_executed-wire type m rest v plain =
    let other : (type == b'C') ≡ false = ground arith in
    rw (
      decode_header-wire type m.header _ v.header,
      be64-be_bytes m.order_ref _ v.ref_fits,
      be32-be_bytes m.executed_shares _ v.shares_fit,
      be64-be_bytes m.match_number rest v.match_fits,
      other,
    )

-- Decoding the wire layout of a 'C' execution whose fields fit their widths, with a flag byte
-- that is 'Y' exactly if the message is printable, gives back the message with its price and
-- flag.
pub decode_order_executed-wire_with_price :
    (flag : ℕ) (m : OrderExecuted) (rest : List ℕ)
    → IsOrderExecuted m
    → m.execution_price < 2 ^ 32
    → m.printable ≡ (flag == b'Y')
    → decode_order_executed
        (wire_order_executed b'C' m (flag ∷ (be_bytes 4 m.execution_price ++ rest)))
      ≡ some m
unfolding decode_order_executed to_char
decode_order_executed-wire_with_price flag m rest v price shown =
    let tail = be_bytes 4 m.execution_price ++ rest in
    rw (
      decode_header-wire b'C' m.header _ v.header,
      be64-be_bytes m.order_ref _ v.ref_fits,
      be32-be_bytes m.executed_shares _ v.shares_fit,
      be64-be_bytes m.match_number (flag ∷ tail) v.match_fits,
      be32-be_bytes m.execution_price rest price,
      ← shown,
    )

pub record IsTrade (m : Trade) : Type 0 where
  pub header : IsHeader m.header
  pub match_fits : m.match_number < 2 ^ 64
  pub stock_wide : length m.stock ≡ 8
  pub price_fits : m.price < 2 ^ 32

-- 'P': a share count of 4 bytes, an order reference and a side.
pub decode_trade-wire_non_cross :
    (m : Trade) (rest : List ℕ)
    → IsTrade m
    → m.order_ref < 2 ^ 64
    → m.shares < 2 ^ 32
    → m.has_order ≡ true
    → decode_trade (wire_non_cross b'P' m rest) ≡ some m
unfolding decode_trade to_char
decode_trade-wire_non_cross m rest v ref shares order =
    let p = wire_non_cross b'P' m rest in
    let last = be_bytes 8 m.match_number ++ rest in
    let tail = be_bytes 4 m.price ++ last in
    let e : drop 32 p ≡ tail = behind_stock 24 p m.stock tail refl v.stock_wide in
    let e' : drop 36 p ≡ last = sym (drop-drop 32 4 p) ∙ ap (drop 4) e in
    rw (
      decode_header-wire b'P' m.header _ v.header,
      be64-be_bytes m.order_ref _ ref,
      be32-be_bytes m.shares (m.stock ++ tail) shares,
      read_stock_lem m.stock tail v.stock_wide,
      e,
      be32-be_bytes m.price last v.price_fits,
      e',
      be64-be_bytes m.match_number rest v.match_fits,
      ← order,
    )

-- Decoding the wire layout of a cross trade, of any type but 'P' and with a share count of 8
-- bytes, whose fields fit their widths gives back the message without an order and with a blank
-- side.
pub decode_trade-wire_cross :
    (type : ℕ) (m : Trade) (rest : List ℕ)
    → IsTrade m
    → type ≢ b'P'
    → m.shares < 2 ^ 64
    → decode_trade (wire_cross type m rest)
      ≡ some (record m { order_ref = 0; side = b' '; has_order = false })
unfolding decode_trade to_char
decode_trade-wire_cross type m rest v other shares =
    let p = wire_cross type m rest in
    let last = be_bytes 8 m.match_number ++ rest in
    let tail = be_bytes 4 m.price ++ last in
    let e : drop 27 p ≡ tail = behind_stock 19 p m.stock tail refl v.stock_wide in
    let e' : drop 31 p ≡ last = sym (drop-drop 27 4 p) ∙ ap (drop 4) e in
    let cross : (type == b'P') ≡ false = ground arith in
    rw (
      decode_header-wire type m.header _ v.header,
      cross,
      be64-be_bytes m.shares (m.stock ++ tail) shares,
      read_stock_lem m.stock tail v.stock_wide,
      e,
      be32-be_bytes m.price last v.price_fits,
      e',
      be64-be_bytes m.match_number rest v.match_fits,
    )
