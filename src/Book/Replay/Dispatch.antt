-- ===== src/Book/Replay/Dispatch.antt =====
-- One message at the books of all stocks, src/book/replay.cc and book_set.cc.
use nasdaq_itch_trading_syst.Base.{
  ℕ, ◌+◌, ◌^◌, ◌<◌, ◌≤◌, ◌≡◌, refl, ap, sym, ◌∙◌, subst, inl, inr, Bool, true, false, not, ◌&&◌,
  ◌||◌, Option, some, Bool-cases, List, All, length, get_elem?, get_or, arith, ltb, ◌==◌,
  if◌then◌else◌, u64, ltb→lt, ==_iff,
}
use nasdaq_itch_trading_syst.Itch.MessageType.{
  MessageType, to_char, of_char, is_known, expected_length, stock_directory,
}
use nasdaq_itch_trading_syst.Itch.MessageType.Table.{of_char-to_char, known_table}
use nasdaq_itch_trading_syst.Itch.Decoder.Bounds.{decoders_in_bounds, header-Defined}
use nasdaq_itch_trading_syst.Itch.Framing.{MessageView}
use nasdaq_itch_trading_syst.Book.OrderBook.{
  OrderBook, ApplyResult, applied, unknown_ref, duplicate_ref, clamped_reduce, new_book,
}
use nasdaq_itch_trading_syst.Book.OrderBook.Invariant.{IsBook}
use nasdaq_itch_trading_syst.Book.BookSet.{BookSet, on_stock_directory, known, book, set_book}
use nasdaq_itch_trading_syst.Book.Replay.{
  ReplayStats, moves_book, tally, route, dispatch, check_length, apply_message,
}
use nasdaq_itch_trading_syst.Book.Replay.Messages.{IsSound, apply_to_book_correct}
use nasdaq_itch_trading_syst.Book.BookSet.Invariant.{
  All-get_or, IsBookSet, on_stock_directory-IsBookSet, set_book-IsBookSet,
}

-- The index of the book has at most 2 ^ 61 slots.
abbrev pub IsNarrow : OrderBook → Type 0
IsNarrow b = length b.orders.slots ≤ 2 ^ 61

-- The messages that have been sorted: of no known type, for no known stock, or applied.
abbrev pub sorted : ReplayStats → ℕ
sorted s =
    s.unknown_type + s.unknown_locate + s.applied_count + s.unknown_refs + s.duplicate_refs
    + s.clamped_reduces

tally-sorted :
    (s : ReplayStats) (r : ApplyResult)
    → (u64 (sorted (tally s r)) ≡ u64 (sorted s + 1))
      × ((tally s r).messages ≡ s.messages)
      × ((tally s r).length_mismatch ≡ s.length_mismatch)
unfolding tally
tally-sorted s applied = (omega arith, refl, refl)
tally-sorted s unknown_ref = (omega arith, refl, refl)
tally-sorted s duplicate_ref = (omega arith, refl, refl)
tally-sorted s clamped_reduce = (omega arith, refl, refl)

-- The books are kept, and the message is sorted if it is one that is.
abbrev pub Sorts : ReplayStats → ℕ → Option (BookSet × ReplayStats) → Type 0
Sorts before n run =
    (books : BookSet) × (stats : ReplayStats) × (run ≡ some (books, stats))
    × IsBookSet books
    × (u64 (sorted stats) ≡ u64 (sorted before + n))
    × (stats.messages ≡ before.messages)
    × (stats.length_mismatch ≡ before.length_mismatch)

pub known-lt : (s : BookSet) (locate : ℕ) → known s locate ≡ true → locate < length s.is_registered
unfolding known
known-lt s locate e =
    ltb→lt locate (length s.is_registered)
      (first_of (ltb locate (length s.is_registered)) (get_or s.is_registered locate false) e)
  where
    first_of : (a b : Bool) → (a && b) ≡ true → a ≡ true
    first_of a b e = ground arith

route_lem :
    (s : BookSet) (stats : ReplayStats) (t : MessageType) (p : List ℕ)
    → IsBookSet s
    → All IsNarrow s.books
    → moves_book (to_char t) ≡ true
    → get_elem? p 0 ≡ some (to_char t)
    → expected_length (some t) ≤ length p
    → 11 ≤ length p
    → IsSound t p
    → Sorts stats 1 (route s stats (to_char t) p)
unfolding route book
route_lem s stats t p v narrow moves first long head sound =
    let (header, e) = header-Defined p head in
    let locate = header.stock_locate in
    elim (Bool-cases (known s locate)) [
      | inr missing ↦
          rw (e, missing)
            (
              s,
              record stats { unknown_locate = u64 (stats.unknown_locate + 1) },
              refl,
              v,
              omega arith,
              refl,
              refl,
            )
      | inl present ↦
          let inside : locate < length s.books =
            omega (arith, known-lt s locate present, v.registers) in
          let (b, r, run, h) =
            apply_to_book_correct t p (book s locate) moves first long sound
              (All-get_or IsBook s.books locate new_book v.books inside)
              (All-get_or IsNarrow s.books locate new_book narrow inside) in
          let counted = tally-sorted stats r in
          rw (e, present, run)
            (
              set_book s locate b,
              tally stats r,
              refl,
              set_book-IsBookSet s locate b v h,
              counted.0,
              counted.1,
              counted.2,
            )
    ]

-- The number of messages that a message of the type is sorted as.
abbrev pub one_if : Bool → ℕ
one_if sorts = if sorts then 1 else 0

pub same_type : (t u : MessageType) → to_char t ≡ to_char u → t ≡ u
same_type t u e =
    let e' : some t ≡ some u = sym (of_char-to_char t) ∙ ap of_char e ∙ of_char-to_char u in cc

directory_lem :
    (s : BookSet) (stats : ReplayStats) (p : List ℕ)
    → IsBookSet s
    → get_elem? p 0 ≡ some (to_char stock_directory)
    → expected_length (some stock_directory) ≤ length p
    → Sorts stats
        (one_if (moves_book (to_char stock_directory)))
        (dispatch s stats (to_char stock_directory) p)
unfolding dispatch to_char moves_book
directory_lem s stats p v first long =
    let (m, e) = decoders_in_bounds stock_directory p first long in
    rw e (
      on_stock_directory s m,
      stats,
      refl,
      on_stock_directory-IsBookSet s m v,
      omega arith,
      refl,
      refl,
    )

dispatch_lem :
    (s : BookSet) (stats : ReplayStats) (t : MessageType) (p : List ℕ)
    → IsBookSet s
    → All IsNarrow s.books
    → get_elem? p 0 ≡ some (to_char t)
    → expected_length (some t) ≤ length p
    → 11 ≤ length p
    → IsSound t p
    → Sorts stats (one_if (moves_book (to_char t))) (dispatch s stats (to_char t) p)
unfolding dispatch
dispatch_lem s stats t p v narrow first long head sound =
    elim (Bool-cases (to_char t == to_char stock_directory)) [
      | inl directory ↦
          let e : t ≡ stock_directory =
            same_type t stock_directory
              ((==_iff (to_char t) (to_char stock_directory)).0 directory) in
          at_directory t e first long
      | inr other ↦ elim (Bool-cases (moves_book (to_char t))) [
        | inl moves ↦ rw (other, moves) (route_lem s stats t p v narrow moves first long head sound)
        | inr still ↦ rw (other, still) (s, stats, refl, v, omega arith, refl, refl)
      ]
    ]
  where
    at_directory :
        (t : MessageType)
        → t ≡ stock_directory
        → get_elem? p 0 ≡ some (to_char t)
        → expected_length (some t) ≤ length p
        → Sorts stats (one_if (moves_book (to_char t))) (dispatch s stats (to_char t) p)
    at_directory t e =
        subst
          (λ t.
            get_elem? p 0 ≡ some (to_char t)
            → expected_length (some t) ≤ length p
            → Sorts stats (one_if (moves_book (to_char t))) (dispatch s stats (to_char t) p))
          (sym e) (λ first long. directory_lem s stats p v first long)

check_length_lem :
    (stats : ReplayStats) (type size : ℕ)
    → (sorted (check_length stats type size) ≡ sorted stats)
      × ((check_length stats type size).messages ≡ stats.messages)
      × ((check_length stats type size).length_mismatch ≡ (
          if expected_length (of_char type) == size
          then stats.length_mismatch
          else u64 (stats.length_mismatch + 1)))
unfolding check_length
check_length_lem stats type size = elim (Bool-cases (expected_length (of_char type) == size)) [
  | inl equal ↦ rw equal (refl, refl, refl)
  | inr other ↦ rw other (refl, refl, refl)
]

-- What one message does to the books and the counters.
pub record Applies (mv : MessageView) (type : ℕ) (before : ReplayStats) (books : BookSet)
    (stats : ReplayStats) : Type 0 where
  pub valid : IsBookSet books
  pub sorts :
      u64 (sorted stats) ≡ u64 (sorted before + one_if (not (is_known type) || moves_book type))
  pub messages : stats.messages ≡ u64 (before.messages + 1)
  pub mismatches : stats.length_mismatch ≡ (
      if is_known type && not (expected_length (of_char type) == mv.size)
      then u64 (before.length_mismatch + 1)
      else before.length_mismatch)

apply_known :
    (mv : MessageView) (t : MessageType) (books : BookSet) (before : ReplayStats)
    → IsBookSet books
    → All IsNarrow books.books
    → get_elem? mv.bytes 0 ≡ some (to_char t)
    → is_known (to_char t) ≡ true
    → expected_length (some t) ≤ length mv.bytes
    → 11 ≤ length mv.bytes
    → IsSound t mv.bytes
    → (books' : BookSet) × (stats : ReplayStats) × (apply_message mv (books, before)
        ≡ some (books', stats))
      × Applies mv (to_char t) before books' stats
unfolding apply_message
apply_known mv t books before v narrow first named long head sound =
    let begun : ReplayStats = record before { messages = u64 (before.messages + 1) } in
    let checked = check_length begun (to_char t) mv.size in
    let (same, number, mismatch) = check_length_lem begun (to_char t) mv.size in
    let (books', stats, run, v', sorts, messages, mismatches) =
      dispatch_lem books checked t mv.bytes v narrow first long head sound in
    (
      books',
      stats,
      rw (first, named) run,
      record {
        valid = v';
        sorts = rw named (sorts ∙ ap (λ (k : ℕ). u64 (k + one_if (moves_book (to_char t)))) same);
        messages = messages ∙ number;
        mismatches =
            rw named
              (mismatches ∙ mismatch ∙ flip _ _ (expected_length (of_char (to_char t)) == mv.size));
      },
    )
  where
    flip : (m n : ℕ) (b : Bool) → (if b then m else n) ≡ (if not b then n else m)
    flip m n true = refl
    flip m n false = refl

-- For a message of any type at a set of books that satisfies the invariant and whose indexes have
-- at most 2 ^ 61 slots, if for a known type the buffer has at least the bytes that the table
-- states and the fields are sound (references other than 0, fewer than 2 ^ 31 shares in a new
-- order), `apply_message` reads nothing past the end, ends, and keeps the invariant; the message
-- is counted, the sum of the counters for unknown types, unknown locates and the four results
-- grows by one if its type is unknown or moves a book and stays otherwise, and a length mismatch
-- is counted exactly if its type is known and its size is not that of the table; all counts are
-- on 64 bits.
pub apply_message_correct :
    (mv : MessageView) (type : ℕ) (books : BookSet) (before : ReplayStats)
    → IsBookSet books
    → All IsNarrow books.books
    → get_elem? mv.bytes 0 ≡ some type
    → ((t : MessageType)
        → of_char type ≡ some t
        → (expected_length (some t) ≤ length mv.bytes) × IsSound t mv.bytes)
    → (books' : BookSet) × (stats : ReplayStats) × (apply_message mv (books, before)
        ≡ some (books', stats))
      × Applies mv type before books' stats
unfolding apply_message
apply_message_correct mv type books before v narrow first whole = elim (known_table type) [
  | inr (unnamed, none_such, zero_length) ↦ (
    books,
    record before {
      messages = u64 (before.messages + 1);
      unknown_type = u64 (before.unknown_type + 1);
    },
    rw (first, unnamed) refl,
    record {
      valid = v;
      sorts = rw unnamed (omega arith);
      messages = refl;
      mismatches = rw unnamed refl;
    },
  )
  | inl (named, (t, e, same, head)) ↦
      subst
        (λ (type : ℕ).
          (books' : BookSet) × (stats : ReplayStats) × (apply_message mv (books, before)
            ≡ some (books', stats))
          × Applies mv type before books' stats)
        same
        (apply_known mv t books before v narrow (first ∙ ap some (sym same))
          (ap is_known same ∙ named) (whole t e).0
          (omega (arith, (whole t e).0, ap expected_length e, head)) (whole t e).1)
]
