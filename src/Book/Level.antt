-- ===== src/Book/Level.antt =====
-- Sides and aggregated levels, src/book/level.h.
use nasdaq_itch_trading_syst.Base.{ℕ}

pub data Side : Type 0 where
  buy_side sell_side : Side

pub record Level : Type 0 where
  pub price : ℕ
  pub shares : ℕ
  pub orders : ℕ

-- `Level{}`.
abbrev pub empty_level : Level
empty_level = record { price = 0; shares = 0; orders = 0 }
