-- ===== src/Book.antt =====
-- The books, src/book: price levels, the order book of one stock, the books of all stocks, and the
-- replay of a buffer of messages into them.
pub mod Level
pub mod SortedMap
pub mod Bitmap
pub mod PriceLevels
pub mod OrderBook
pub mod BookSet
pub mod Replay
