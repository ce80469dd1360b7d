-- ===== src/FeedHandler/Examples.antt =====
-- Runs of apps/feed_handler/main.cc on a file of three messages.
use nasdaq_itch_trading_syst.Base.{
  ℕ, ◌≤◌, ◌≡◌, refl, true, false, none, some, Option, List, [], ◌∷◌, ◌++◌, All, length, replicate,
  get_elem?, arith, sym, subst, ap, ◌∙◌,
}
use nasdaq_itch_trading_syst.Itch.MessageType.{
  MessageType, to_char, of_char, expected_length, stock_directory, add_order, order_executed,
}
use nasdaq_itch_trading_syst.ByteReader.{be16, be32, be48, be64, accumulate}
use nasdaq_itch_trading_syst.Itch.Messages.{AddOrder, OrderExecuted}
use nasdaq_itch_trading_syst.Itch.Decoder.{
  decode_order_executed, decode_add_order, decode_header, read_stock, read_chars,
}
use nasdaq_itch_trading_syst.Itch.Framing.{MessageView}
use nasdaq_itch_trading_syst.Itch.Framing.Stream.{IsSplit, frames, views}
use nasdaq_itch_trading_syst.Book.BookSet.Invariant.{IsBookSet}
use nasdaq_itch_trading_syst.Book.BookSet.Check.{check_invariants}
use nasdaq_itch_trading_syst.Book.Replay.Messages.{IsSound}
use nasdaq_itch_trading_syst.FeedHandler.{FeedState, new_feed, on_message}
use nasdaq_itch_trading_syst.FeedHandler.Books.{IsSized}
use nasdaq_itch_trading_syst.FeedHandler.Messages.{IsWhole, GoesOn, on_message_correct}
use nasdaq_itch_trading_syst.FeedHandler.Loop.{new_feed-IsFeed, run_file_correct}
use nasdaq_itch_trading_syst.FeedHandler.Report.{conserved, run_file}

-- Locate 1 is named, 100 shares are offered under reference 7, and 30 of them are executed.
abbrev directory_message : List ℕ
directory_message = b'R' ∷ 0 ∷ 1 ∷ replicate 36 0

abbrev add_message : List ℕ
add_message =
    b'A'
    ∷ 0
    ∷ 1
    ∷ (replicate 15 0 ++ (7 ∷ b'S' ∷ 0 ∷ 0 ∷ 0 ∷ 100 ∷ (replicate 8 b' ' ++ (0 ∷ 1 ∷ 0 ∷ 0 ∷ []))))

abbrev executed_message : List ℕ
executed_message = b'E' ∷ 0 ∷ 1 ∷ (replicate 15 0 ++ (7 ∷ 0 ∷ 0 ∷ 0 ∷ 30 ∷ replicate 8 0))

abbrev messages : List (List ℕ)
messages = directory_message ∷ add_message ∷ executed_message ∷ []

abbrev file : List ℕ
file = frames messages

file-IsSplit : IsSplit file messages []
file-IsSplit = record {
  messages =
      ((omega arith, omega arith), ((omega arith, omega arith), ((omega arith, omega arith), tt)));
  stops = tt;
  rest_bytes = tt;
  spells = refl;
}

abbrev add_bytes : List ℕ
add_bytes = add_message ++ frames (executed_message ∷ [])

abbrev first_view : MessageView
first_view = record {
  bytes = directory_message ++ (frames (add_message ∷ executed_message ∷ []) ++ []);
  size = 39;
}

abbrev second_view : MessageView
second_view = record { bytes = add_bytes ++ []; size = 36 }

abbrev third_view : MessageView
third_view = record { bytes = executed_message; size = 31 }

some_injective {ℓ} : {A : Type ℓ} {u v : A} → some u ≡ some v → u ≡ v
some_injective e = cc

-- A view of a message of a known type.
IsWhole-view :
    (mv : MessageView) (c : ℕ) (t : MessageType)
    → get_elem? mv.bytes 0 ≡ some c
    → of_char c ≡ some t
    → expected_length (some t) ≤ length mv.bytes
    → IsSound t mv.bytes
    → IsWhole mv
IsWhole-view mv c t first type long sound = (
  c,
  first,
  λ t' e.
      subst (λ t. (expected_length (some t) ≤ length mv.bytes) × IsSound t mv.bytes)
        (some_injective (sym type ∙ e)) (long, sound),
)

abbrev shares_in : Option AddOrder → ℕ
shares_in none = 0
shares_in (some m) = m.shares

add_shares : shares_in (decode_add_order add_bytes) ≡ 100
unfolding decode_add_order decode_header be16 be32 be48 be64 accumulate read_stock read_chars
add_shares = refl

abbrev ref_in : Option OrderExecuted → ℕ
ref_in none = 0
ref_in (some m) = m.order_ref

executed_ref : ref_in (decode_order_executed executed_message) ≡ 7
unfolding decode_order_executed decode_header be16 be32 be48 be64 accumulate to_char
executed_ref = refl

types :
    (of_char b'R' ≡ some stock_directory)
    × (of_char b'A' ≡ some add_order)
    × (of_char b'E' ≡ some order_executed)
unfolding of_char
types = (refl, refl, refl)

lengths :
    (expected_length (some stock_directory) ≤ 39)
    × (expected_length (some add_order) ≤ 36)
    × (expected_length (some order_executed) ≤ 31)
unfolding expected_length
lengths = (omega arith, omega arith, omega arith)

whole : All IsWhole (views messages [])
whole = (
  IsWhole-view first_view b'R' stock_directory refl types.0 (omega (arith, lengths.0)) tt,
  (
    IsWhole-view second_view b'A' add_order refl types.1 (omega (arith, lengths.1))
        (λ m e. let s : 100 ≡ m.shares = sym add_shares ∙ ap shares_in e in omega arith),
    (
      IsWhole-view third_view b'E' order_executed refl types.2 (omega (arith, lengths.2)) (λ m e z.
          let s : 7 ≡ m.order_ref = sym executed_ref ∙ ap ref_in e in
          let z' : m.order_ref ≡ 0 = z in omega arith),
      tt,
    ),
  ),
)

on_message_correct_example : GoesOn 1 (on_message false first_view new_feed)
on_message_correct_example =
    on_message_correct 0 first_view new_feed new_feed-IsFeed (omega arith) whole.0

run_file_correct_example :
    (s : FeedState) × (run_file false file ≡ some s)
    × IsBookSet s.books
    × All (IsSized 3) s.books.books
    × (conserved s ≡ true)
    × (s.invariants_ok ≡ check_invariants s.books)
run_file_correct_example = run_file_correct file messages [] (omega arith) file-IsSplit whole
