-- ===== src/Book/Replay/Examples.antt =====
-- Runs of src/book/replay.cc on concrete messages.
use nasdaq_itch_trading_syst.Base.{
  ◌≤◌, ◌≡◌, refl, true, false, some, [], ◌∷◌, ◌++◌, length, replicate, arith, sym, subst, ap, ◌∙◌,
}
use nasdaq_itch_trading_syst.Itch.MessageType.{MessageType, of_char, expected_length, order_delete}
use nasdaq_itch_trading_syst.ByteReader.{be16, be48, be64, accumulate}
use nasdaq_itch_trading_syst.Itch.Messages.{OrderDelete}
use nasdaq_itch_trading_syst.Itch.Decoder.{decode_order_delete, decode_header}
use nasdaq_itch_trading_syst.Itch.Framing.{MessageView}
use nasdaq_itch_trading_syst.Book.BookSet.{BookSet}
use nasdaq_itch_trading_syst.Book.OrderBook.{new_book}
use nasdaq_itch_trading_syst.OrderIndex
use nasdaq_itch_trading_syst.Book.OrderBook.Reachable.{new_book-IsBook}
use nasdaq_itch_trading_syst.Book.Replay.{ReplayStats, new_stats, apply_message}
use nasdaq_itch_trading_syst.Book.Replay.Messages.{IsSound}
use nasdaq_itch_trading_syst.Book.BookSet.Invariant.{IsBookSet}
use nasdaq_itch_trading_syst.Book.Replay.Dispatch.{IsNarrow, Applies, apply_message_correct}

-- Two books, of which locate 1 is registered.
abbrev two_books : BookSet
two_books = record {
  books = new_book ∷ new_book ∷ [];
  symbols = replicate 8 0 ∷ replicate 8 b'A' ∷ [];
  is_registered = false ∷ true ∷ [];
  registered = 1;
}

two_books-IsBookSet : IsBookSet two_books
two_books-IsBookSet = record {
  books = (new_book-IsBook, (new_book-IsBook, tt));
  registers = refl;
  names = refl;
}

new_book-IsNarrow : IsNarrow new_book
unfolding new_book OrderIndex.new
new_book-IsNarrow = omega arith

-- A delete message of 19 bytes for locate 1 and order 259.
abbrev delete_view : MessageView
delete_view = record {
  bytes = b'D' ∷ 0 ∷ 1 ∷ (replicate 8 0 ++ (replicate 6 0 ++ (1 ∷ 3 ∷ [])));
  size = 19;
}

abbrev decoded : OrderDelete
decoded = record {
  header = record { stock_locate = 1; tracking_number = 0; timestamp = 0 };
  order_ref = 259;
}

decoded_test : decode_order_delete delete_view.bytes ≡ some decoded
unfolding decode_order_delete decode_header be16 be48 be64 accumulate
decoded_test = refl

some_injective {ℓ} : {A : Type ℓ} {u v : A} → some u ≡ some v → u ≡ v
some_injective e = cc

delete_view-IsSound : IsSound order_delete delete_view.bytes
delete_view-IsSound m e =
    let same : decoded ≡ m = some_injective (sym decoded_test ∙ e) in
    let ref : m.order_ref ≡ 259 = ap (λ (k : OrderDelete). k.order_ref) (sym same) in omega arith

is_delete : of_char b'D' ≡ some order_delete
unfolding of_char
is_delete = refl

delete_length : expected_length (some order_delete) ≤ 19
unfolding expected_length
delete_length = omega arith

delete_whole :
    (t : MessageType)
    → of_char b'D' ≡ some t
    → (expected_length (some t) ≤ length delete_view.bytes) × IsSound t delete_view.bytes
delete_whole t e =
    let same : order_delete ≡ t = some_injective (sym is_delete ∙ e) in
    subst (λ t. (expected_length (some t) ≤ length delete_view.bytes) × IsSound t delete_view.bytes)
      same (delete_length, delete_view-IsSound)

apply_message_correct_example :
    (books : BookSet) × (stats : ReplayStats) × (apply_message delete_view (two_books, new_stats)
      ≡ some (books, stats))
    × Applies delete_view b'D' new_stats books stats
apply_message_correct_example =
    apply_message_correct delete_view b'D' two_books new_stats two_books-IsBookSet
      (new_book-IsNarrow, (new_book-IsNarrow, tt)) refl delete_whole
