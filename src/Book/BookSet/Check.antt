-- ===== src/Book/BookSet/Check.antt =====
-- The full check of the books of all stocks, src/book/book_set.cc.
use nasdaq_itch_trading_syst.Base.{ℕ, Bool, true, false, ◌&&◌, List, ◌∷◌, length, ◌==◌}
use nasdaq_itch_trading_syst.Book.OrderBook.{OrderBook}
use nasdaq_itch_trading_syst.Book.OrderBook.Check
use nasdaq_itch_trading_syst.Book.BookSet.{BookSet}

-- The loop over the books, each with whether it is registered.
unfoldable pub check_books : List Bool → List OrderBook → Bool
unfolding Check.check_invariants
check_books (true ∷ known) (b ∷ books) = Check.check_invariants b && check_books known books
check_books (false ∷ known) (b ∷ books) = check_books known books
check_books _ _ = true

unfoldable pub check_invariants : BookSet → Bool
unfolding check_books
check_invariants s =
    length s.is_registered == length s.books
    && (length s.symbols == length s.books && check_books s.is_registered s.books)

-- `size()`.
unfoldable pub size : BookSet → ℕ
size s = s.registered
