-- ===== src/Book/BookSet/Invariant.antt =====
-- The invariant of the books of all stocks, src/book/book_set.cc.
use nasdaq_itch_trading_syst.Base.{
  ℕ, zero, suc, ◌+◌, ◌-◌, ◌<◌, ◌≡◌, sym, ◌∙◌, inl, inr, true, false, Bool-cases, List, [], ◌∷◌, All,
  length, get_or, set, replicate, length-set, length-append, All-append, length-replicate, arith,
  leb,
}
use nasdaq_itch_trading_syst.Itch.Messages.{StockDirectory}
use nasdaq_itch_trading_syst.Book.OrderBook.{OrderBook, new_book}
use nasdaq_itch_trading_syst.Book.OrderBook.Invariant.{IsBook}
use nasdaq_itch_trading_syst.Book.OrderBook.Reachable.{new_book-IsBook}
use nasdaq_itch_trading_syst.Book.BookSet.{
  BookSet, no_stock, resize, make_locate, on_stock_directory, set_book,
}

module _ {ℓ κ} {A : Type ℓ} (P : A → Type κ) where
  pub All-get_or : (xs : List A) (i : ℕ) (d : A) → All P xs → i < length xs → P (get_or xs i d)
  All-get_or [] i d h lt = absurd (omega arith)
  All-get_or (x ∷ xs) zero d h lt = h.0
  All-get_or (x ∷ xs) (suc i) d h lt = All-get_or xs i d h.1 (omega arith)

  pub All-set : (xs : List A) (i : ℕ) (v : A) → All P xs → P v → All P (set xs i v)
  All-set [] i v h p = tt
  All-set (x ∷ xs) zero v h p = (p, h.1)
  All-set (x ∷ xs) (suc i) v h p = (h.0, All-set xs i v h.1 p)

  pub All-replicate : (n : ℕ) (v : A) → P v → All P (replicate n v)
  All-replicate zero v p = tt
  All-replicate (suc n) v p = (p, All-replicate n v p)

length-resize {ℓ} :
    {A : Type ℓ} (xs : List A) (n : ℕ) (d : A)
    → length (resize xs n d) ≡ length xs + (n - length xs)
unfolding resize
length-resize xs n d =
    omega
      (arith, length-append xs (replicate (n - length xs) d), length-replicate (n - length xs) d)

-- Every book satisfies its invariant, and the three lists are equally long.
pub record IsBookSet (s : BookSet) : Type 0 where
  pub books : All IsBook s.books
  pub registers : length s.is_registered ≡ length s.books
  pub names : length s.symbols ≡ length s.books

pub on_stock_directory-IsBookSet :
    (s : BookSet) (m : StockDirectory) → IsBookSet s → IsBookSet (on_stock_directory s m)
unfolding on_stock_directory make_locate resize
on_stock_directory-IsBookSet s m v =
    let locate = m.header.stock_locate in
    elim (Bool-cases (leb (length s.books) locate)) [
      | inl beyond ↦ rw beyond (record {
        books =
            All-append IsBook s.books _ v.books
              (All-replicate IsBook (locate + 1 - length s.books) new_book new_book-IsBook);
        registers = omega (
          arith,
          length-set (resize s.is_registered (locate + 1) false) locate true,
          length-resize s.is_registered (locate + 1) false,
          length-resize s.books (locate + 1) new_book,
          v.registers,
        );
        names = omega (
          arith,
          length-set (resize s.symbols (locate + 1) no_stock) locate m.stock,
          length-resize s.symbols (locate + 1) no_stock,
          length-resize s.books (locate + 1) new_book,
          v.names,
        );
      })
      | inr within ↦ rw within (record {
        books = v.books;
        registers = length-set s.is_registered locate true ∙ v.registers;
        names = length-set s.symbols locate m.stock ∙ v.names;
      })
    ]

pub set_book-IsBookSet :
    (s : BookSet) (locate : ℕ) (b : OrderBook)
    → IsBookSet s
    → IsBook b
    → IsBookSet (set_book s locate b)
unfolding set_book
set_book-IsBookSet s locate b v h = record {
  books = All-set IsBook s.books locate b v.books h;
  registers = v.registers ∙ sym (length-set s.books locate b);
  names = v.names ∙ sym (length-set s.books locate b);
}
