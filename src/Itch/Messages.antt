-- ===== src/Itch/Messages.antt =====
-- Decoded messages, src/itch/messages.h. A `char` is the byte that it holds, and a field that the
-- constructor of the struct defaults has that value in `…_default`.
use nasdaq_itch_trading_syst.Base.{ℕ, Bool, List}

-- `std::array<char, 8>`.
abbrev pub Stock : Type 0
Stock = List ℕ

pub record Header : Type 0 where
  pub stock_locate : ℕ
  pub tracking_number : ℕ
  pub timestamp : ℕ

pub record SystemEvent : Type 0 where
  pub header : Header
  pub event_code : ℕ

pub record StockDirectory : Type 0 where
  pub header : Header
  pub stock : Stock
  pub market_category : ℕ
  pub round_lot_size : ℕ

pub record AddOrder : Type 0 where
  pub header : Header
  pub order_ref : ℕ
  pub side : ℕ
  pub shares : ℕ
  pub stock : Stock
  pub price : ℕ

pub record OrderExecuted : Type 0 where
  pub header : Header
  pub order_ref : ℕ
  pub executed_shares : ℕ
  pub match_number : ℕ
  pub execution_price : ℕ
  pub printable : Bool

pub record OrderCancel : Type 0 where
  pub header : Header
  pub order_ref : ℕ
  pub cancelled_shares : ℕ

pub record OrderDelete : Type 0 where
  pub header : Header
  pub order_ref : ℕ

pub record OrderReplace : Type 0 where
  pub header : Header
  pub original_order_ref : ℕ
  pub new_order_ref : ℕ
  pub shares : ℕ
  pub price : ℕ

pub record Trade : Type 0 where
  pub header : Header
  pub order_ref : ℕ
  pub side : ℕ
  pub shares : ℕ
  pub stock : Stock
  pub price : ℕ
  pub match_number : ℕ
  pub has_order : Bool
