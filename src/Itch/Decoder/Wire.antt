-- ===== src/Itch/Decoder/Wire.antt =====
-- The wire layout of the messages that src/itch/decoder.cc reads, as the ITCH 5.0 specification
-- gives it: fields in order, numbers big endian. It is independent of the decoder's offsets.
use nasdaq_itch_trading_syst.Base.{ℕ, ◌^◌, ◌<◌, List, ◌∷◌, ◌++◌}
use nasdaq_itch_trading_syst.ByteReader.Value.{be_bytes}
use nasdaq_itch_trading_syst.Itch.Messages.{
  Header, SystemEvent, StockDirectory, AddOrder, OrderExecuted, OrderCancel, OrderDelete,
  OrderReplace, Trade,
}

pub record IsHeader (h : Header) : Type 0 where
  pub locate_fits : h.stock_locate < 2 ^ 16
  pub tracking_fits : h.tracking_number < 2 ^ 16
  pub timestamp_fits : h.timestamp < 2 ^ 48

-- Type byte, locate, tracking number and time stamp, and what follows.
abbrev pub wire_header : ℕ → Header → List ℕ → List ℕ
wire_header type h rest =
    type
    ∷ (be_bytes 2 h.stock_locate
        ++ (be_bytes 2 h.tracking_number ++ (be_bytes 6 h.timestamp ++ rest)))

abbrev pub wire_system_event : ℕ → SystemEvent → List ℕ → List ℕ
wire_system_event type m rest = wire_header type m.header (m.event_code ∷ rest)

-- `status` is the financial status indicator, `rest` the fields behind the round lot size.
abbrev pub wire_stock_directory : ℕ → ℕ → StockDirectory → List ℕ → List ℕ
wire_stock_directory type status m rest =
    wire_header type m.header
      (m.stock ++ (m.market_category ∷ status ∷ (be_bytes 4 m.round_lot_size ++ rest)))

-- 'F' has its market participant in `rest`.
abbrev pub wire_add_order : ℕ → AddOrder → List ℕ → List ℕ
wire_add_order type m rest = wire_header type m.header (
    be_bytes 8 m.order_ref
    ++ (m.side ∷ (be_bytes 4 m.shares ++ (m.stock ++ (be_bytes 4 m.price ++ rest)))))

abbrev pub wire_order_executed : ℕ → OrderExecuted → List ℕ → List ℕ
wire_order_executed type m rest = wire_header type m.header (
    be_bytes 8 m.order_ref ++ (be_bytes 4 m.executed_shares ++ (be_bytes 8 m.match_number ++ rest)))

abbrev pub wire_order_cancel : ℕ → OrderCancel → List ℕ → List ℕ
wire_order_cancel type m rest =
    wire_header type m.header (be_bytes 8 m.order_ref ++ (be_bytes 4 m.cancelled_shares ++ rest))

abbrev pub wire_order_delete : ℕ → OrderDelete → List ℕ → List ℕ
wire_order_delete type m rest = wire_header type m.header (be_bytes 8 m.order_ref ++ rest)

abbrev pub wire_order_replace : ℕ → OrderReplace → List ℕ → List ℕ
wire_order_replace type m rest = wire_header type m.header (
    be_bytes 8 m.original_order_ref
    ++ (be_bytes 8 m.new_order_ref ++ (be_bytes 4 m.shares ++ (be_bytes 4 m.price ++ rest))))

abbrev pub wire_non_cross : ℕ → Trade → List ℕ → List ℕ
wire_non_cross type m rest = wire_header type m.header (
    be_bytes 8 m.order_ref
    ++ (m.side
        ∷ (be_bytes 4 m.shares
            ++ (m.stock ++ (be_bytes 4 m.price ++ (be_bytes 8 m.match_number ++ rest))))))

abbrev pub wire_cross : ℕ → Trade → List ℕ → List ℕ
wire_cross type m rest = wire_header type m.header (
    be_bytes 8 m.shares ++ (m.stock ++ (be_bytes 4 m.price ++ (be_bytes 8 m.match_number ++ rest))))
