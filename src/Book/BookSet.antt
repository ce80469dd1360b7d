-- ===== src/Book/BookSet.antt =====
-- The books of all stocks by their locate, src/book/book_set.h and book_set.cc.
pub mod Check
pub mod Invariant
use nasdaq_itch_trading_syst.Base.{
  ℕ, ◌+◌, ◌-◌, Bool, true, false, ◌&&◌, List, [], ◌∷◌, ◌++◌, length, get_or, set, replicate, ltb,
  leb, if◌then◌else◌, u64,
}
use nasdaq_itch_trading_syst.Itch.Messages.{Stock, StockDirectory}
use nasdaq_itch_trading_syst.Book.OrderBook.{OrderBook, new_book, check_invariants_fast}

pub record BookSet : Type 0 where
  pub books : List OrderBook
  pub symbols : List Stock
  pub is_registered : List Bool
  pub registered : ℕ

unfoldable pub new_book_set : BookSet
new_book_set = record { books = []; symbols = []; is_registered = []; registered = 0 }

-- `Stock{}`, eight zero bytes.
abbrev pub no_stock : Stock
no_stock = replicate 8 0

-- `resize(n, d)` to more elements.
unfoldable pub resize {ℓ} : {A : Type ℓ} → List A → ℕ → A → List A
resize xs n d = xs ++ replicate (n - length xs) d

-- `if (locate >= books_.size())` all three lists are lengthened.
unfoldable pub make_locate : BookSet → ℕ → BookSet
unfolding resize
make_locate s locate =
    if leb (length s.books) locate
    then record s {
      books = resize s.books (locate + 1) new_book;
      symbols = resize s.symbols (locate + 1) no_stock;
      is_registered = resize s.is_registered (locate + 1) false;
    }
    else s

unfoldable pub on_stock_directory : BookSet → StockDirectory → BookSet
unfolding make_locate
on_stock_directory s msg =
    let locate = msg.header.stock_locate in
    let s' = make_locate s locate in
    record s' {
      symbols = set s'.symbols locate msg.stock;
      is_registered = set s'.is_registered locate true;
      registered =
          if get_or s'.is_registered locate false then s'.registered else u64 (s'.registered + 1);
    }

unfoldable pub known : BookSet → ℕ → Bool
known s locate = ltb locate (length s.is_registered) && get_or s.is_registered locate false

-- `books_[locate]` of a known locate; past the end, which is undefined in C++, a new book.
unfoldable pub book : BookSet → ℕ → OrderBook
book s locate = get_or s.books locate new_book

-- A change of the book of a locate, through the reference that `book` returned.
unfoldable pub set_book : BookSet → ℕ → OrderBook → BookSet
set_book s locate b = record s { books = set s.books locate b }

-- The symbol, and the empty text for a locate that is not registered.
unfoldable pub symbol : BookSet → ℕ → List ℕ
unfolding known
symbol s locate = if known s locate then get_or s.symbols locate no_stock else []

abbrev pub sum_shares : List OrderBook → ℕ → ℕ
sum_shares [] total = total
sum_shares (b ∷ books) total = sum_shares books (u64 (total + b.order_shares))

unfoldable pub resting_shares : BookSet → ℕ
resting_shares s = sum_shares s.books 0

abbrev pub check_books_fast : List OrderBook → Bool
check_books_fast [] = true
check_books_fast (b ∷ books) = check_invariants_fast b && check_books_fast books

unfoldable pub check_all_fast : BookSet → Bool
check_all_fast s = check_books_fast s.books
