-- ===== src/FeedHandler/Books.antt =====
-- The books of apps/feed_handler/main.cc between two messages: balanced, and not too wide.
use nasdaq_itch_trading_syst.Base.{
  All-append, ℕ, zero, suc, ◌+◌, ◌-◌, ◌*◌, ◌^◌, ◌<◌, ◌≤◌, ◌≡◌, refl, subst, sym, ◌∙◌, inl, inr,
  true, Bool-cases, Option, some, List, [], ◌∷◌, ◌++◌, All, length, get_or, set, replicate, leb,
  u64, arith,
}
use nasdaq_itch_trading_syst.Itch.Messages.{StockDirectory}
use nasdaq_itch_trading_syst.OrderIndex
use nasdaq_itch_trading_syst.Book.OrderBook.{OrderBook, new_book}
use nasdaq_itch_trading_syst.Book.OrderBook.Invariant.{IsBook}
use nasdaq_itch_trading_syst.Book.BookSet.{
  BookSet, make_locate, resize, on_stock_directory, known, book, set_book, resting_shares,
  sum_shares,
}
use nasdaq_itch_trading_syst.Book.BookSet.Invariant.{
  IsBookSet, All-set, All-get_or, All-replicate, on_stock_directory-IsBookSet, set_book-IsBookSet,
}
use nasdaq_itch_trading_syst.Book.Replay.Dispatch.{known-lt}
use nasdaq_itch_trading_syst.FeedHandler.{Audit, FeedState, at_book}
use nasdaq_itch_trading_syst.FeedHandler.Balance.{IsAudit, Balanced, Conserves, Arm}

-- The resting shares of all books as a sum that does not wrap.
abbrev pub total : List OrderBook → ℕ
total [] = 0
total (b ∷ books) = b.order_shares + total books

sum_shares-total :
    (books : List OrderBook) (n : ℕ) → u64 (sum_shares books n) ≡ u64 (n + total books)
sum_shares-total [] n = omega arith
sum_shares-total (b ∷ books) n = omega (arith, sum_shares-total books (u64 (n + b.order_shares)))

sum_shares-small : (books : List OrderBook) (n : ℕ) → n < 2 ^ 64 → sum_shares books n < 2 ^ 64
sum_shares-small [] n h = h
sum_shares-small (b ∷ books) n h = sum_shares-small books (u64 (n + b.order_shares)) (omega arith)

pub resting_shares-total : (s : BookSet) → resting_shares s ≡ u64 (total s.books)
unfolding resting_shares
resting_shares-total s =
    omega (arith, sum_shares-total s.books 0, sum_shares-small s.books 0 (omega arith))

total-set :
    (books : List OrderBook) (i : ℕ) (b : OrderBook)
    → i < length books
    → total (set books i b) + (get_or books i new_book).order_shares ≡ total books + b.order_shares
total-set [] i b h = absurd (omega arith)
total-set (x ∷ books) zero b h = omega arith
total-set (x ∷ books) (suc i) b h = omega (arith, total-set books i b (omega arith))

total-append : (xs ys : List OrderBook) → total (xs ++ ys) ≡ total xs + total ys
total-append [] ys = omega arith
total-append (x ∷ xs) ys = omega (arith, total-append xs ys)

total-replicate : (n : ℕ) → total (replicate n new_book) ≡ 0
unfolding new_book
total-replicate zero = refl
total-replicate (suc n) = omega (arith, total-replicate n)

-- After `k` messages no book has more than `k` orders, and its index is no wider than that needs.
pub record IsSized (k : ℕ) (b : OrderBook) : Type 0 where
  pub size : b.orders.size ≤ k
  pub width : length b.orders.slots ≤ 256 + 4 * k

pub new_book-IsSized : (k : ℕ) → IsSized k new_book
unfolding new_book OrderIndex.new
new_book-IsSized k = record { size = omega arith; width = omega arith }

later : (k : ℕ) (books : List OrderBook) → All (IsSized k) books → All (IsSized (k + 1)) books
later k [] h = tt
later k (b ∷ books) h =
    (record { size = omega (arith, h.0.size); width = omega (arith, h.0.width) }, later k books h.1)

-- The state of the loop after `k` messages.
pub record IsFeed (k : ℕ) (s : FeedState) : Type 0 where
  pub books : IsBookSet s.books
  pub audit : IsAudit s.audit
  pub sizes : All (IsSized k) s.books.books
  pub balance : Balanced (total s.books.books) s.audit
  pub sound : s.invariants_ok ≡ true

-- Only the books and the audit count.
pub IsFeed-later :
    (k : ℕ) (s s' : FeedState)
    → IsFeed k s
    → s'.books ≡ s.books
    → s'.audit ≡ s.audit
    → s'.invariants_ok ≡ s.invariants_ok
    → IsFeed (k + 1) s'
IsFeed-later k s s' v e e' e'' = record {
  books = subst IsBookSet (sym e) v.books;
  audit = subst IsAudit (sym e') v.audit;
  sizes =
      subst (λ (t : BookSet). All (IsSized (k + 1)) t.books) (sym e)
        (later k s.books.books v.sizes);
  balance =
      subst (λ (t : BookSet). Balanced (total t.books) s'.audit) (sym e)
        (subst (Balanced (total s.books.books)) (sym e') v.balance);
  sound = e'' ∙ v.sound;
}

-- A directory message brings books without orders.
directory-total :
    (s : BookSet) (m : StockDirectory) → total (on_stock_directory s m).books ≡ total s.books
unfolding on_stock_directory make_locate resize
directory-total s m = elim (Bool-cases (leb (length s.books) m.header.stock_locate)) [
  | inl beyond ↦ rw beyond (
      omega (
        arith,
        total-append s.books (replicate (m.header.stock_locate + 1 - length s.books) new_book),
        total-replicate (m.header.stock_locate + 1 - length s.books),
      ))
  | inr within ↦ rw within refl
]

directory-All :
    (k : ℕ) (s : BookSet) (m : StockDirectory)
    → All (IsSized k) s.books
    → All (IsSized k) (on_stock_directory s m).books
unfolding on_stock_directory make_locate resize
directory-All k s m h = elim (Bool-cases (leb (length s.books) m.header.stock_locate)) [
  | inl beyond ↦ rw beyond (
      All-append (IsSized k) s.books _ h (
        All-replicate (IsSized k) (m.header.stock_locate + 1 - length s.books) new_book
          (new_book-IsSized k)))
  | inr within ↦ rw within h
]

pub directory-IsFeed :
    (k : ℕ) (s : FeedState) (m : StockDirectory)
    → IsFeed k s
    → IsFeed (k + 1) (record s { books = on_stock_directory s.books m })
directory-IsFeed k s m v = record {
  books = on_stock_directory-IsBookSet s.books m v.books;
  audit = v.audit;
  sizes = later k _ (directory-All k s.books m v.sizes);
  balance = subst (λ (n : ℕ). Balanced n s.audit) (sym (directory-total s.books m)) v.balance;
  sound = v.sound;
}

-- A book, once its arm has run.
put_back :
    (k : ℕ) (s : FeedState) (locate : ℕ) (b' : OrderBook) (a' : Audit)
    → IsFeed k s
    → locate < length s.books.books
    → Conserves (book s.books locate) b' s.audit a'
    → IsFeed (k + 1) (record s { books = set_book s.books locate b'; audit = a' })
unfolding book set_book
put_back k s locate b' a' v inside c =
    let books = s.books.books in
    let b = get_or books locate new_book in
    let sized = All-get_or (IsSized k) books locate new_book v.sizes inside in
    let moved = total-set books locate b' inside in
    let least : b.order_shares ≤ total books = total-get_or books locate inside in
    let rest = total books - b.order_shares in
    let old : rest + b.order_shares ≡ total books = omega arith in
    let new : rest + b'.order_shares ≡ total (set books locate b') = omega (arith, moved) in
    record {
      books = set_book-IsBookSet s.books locate b' v.books c.valid;
      audit = c.audit;
      sizes = All-set (IsSized (k + 1)) books locate b' (later k books v.sizes) (record {
        size = omega (arith, c.size, sized.size);
        width =
            c.width (256 + 4 * (k + 1)) (omega (arith, sized.width)) (omega (arith, sized.size));
      });
      balance =
          subst (λ (n : ℕ). Balanced n a') new
            (c.balance rest (subst (λ (n : ℕ). Balanced n s.audit) (sym old) v.balance));
      sound = v.sound;
    }
  where
    total-get_or :
        (books : List OrderBook) (i : ℕ)
        → i < length books
        → (get_or books i new_book).order_shares ≤ total books
    total-get_or [] i h = absurd (omega arith)
    total-get_or (x ∷ books) zero h = omega arith
    total-get_or (x ∷ books) (suc i) h = omega (arith, total-get_or books i (omega arith))

-- A run of one step, after which the state is one after `k` messages.
abbrev pub Feeds : ℕ → Option FeedState → Type 0
Feeds k run = (s : FeedState) × (run ≡ some s) × IsFeed k s

pub at_book-Feeds :
    (k : ℕ) (s : FeedState) (locate : ℕ) (arm : OrderBook → Audit → Option (OrderBook × Audit))
    → IsFeed k s
    → k < 2 ^ 58
    → ((b : OrderBook) → IsBook b → length b.orders.slots ≤ 2 ^ 61 → Arm b s.audit (arm b s.audit))
    → Feeds (k + 1) (at_book s locate arm)
unfolding at_book book
at_book-Feeds k s locate arm v few runs = elim (Bool-cases (known s.books locate)) [
  | inr missing ↦ rw missing (
    record s { unknown_locate = u64 (s.unknown_locate + 1) },
    refl,
    IsFeed-later k s _ v refl refl refl,
  )
  | inl present ↦
      let inside : locate < length s.books.books =
        omega (arith, known-lt s.books locate present, v.books.registers) in
      let sized = All-get_or (IsSized k) s.books.books locate new_book v.sizes inside in
      let (b', a', run, c) =
        runs (book s.books locate)
          (All-get_or IsBook s.books.books locate new_book v.books.books inside)
          (omega (arith, sized.width)) in
      rw (present, run)
        (
          record s { books = set_book s.books locate b'; audit = a' },
          refl,
          put_back k s locate b' a' v inside c,
        )
]
