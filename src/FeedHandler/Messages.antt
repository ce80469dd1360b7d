-- ===== src/FeedHandler/Messages.antt =====
-- One message in apps/feed_handler/main.cc.
use nasdaq_itch_trading_syst.Base.{
  ℕ, ◌+◌, ◌^◌, ◌<◌, ◌≤◌, ◌≡◌, refl, subst, sym, ap, ◌∙◌, inl, inr, Bool, true, false, Bool-cases,
  Option, some, List, length, get_elem?, get_or, ◌==◌, ==_iff, if◌then◌else◌, u64, arith,
}
use nasdaq_itch_trading_syst.Itch.MessageType.{
  MessageType, to_char, of_char, expected_length, system_event, stock_directory,
  stock_trading_action, reg_sho_restriction, market_participant_pos, add_order, add_order_mpid,
  order_executed, order_executed_with_price, order_cancel, order_delete, order_replace,
  trade_non_cross, trade_cross, broken_trade,
}
use nasdaq_itch_trading_syst.Itch.MessageType.Table.{known_table}
use nasdaq_itch_trading_syst.Itch.Decoder.Bounds.{decoders_in_bounds, header-Defined}
use nasdaq_itch_trading_syst.Itch.Framing.{MessageView}
use nasdaq_itch_trading_syst.Book.OrderBook.{new_book}
use nasdaq_itch_trading_syst.Book.OrderBook.Invariant.{IsBook}
use nasdaq_itch_trading_syst.Book.OrderBook.Reachable.{IsBook-check_invariants_fast}
use nasdaq_itch_trading_syst.Book.BookSet.{on_stock_directory, known, book}
use nasdaq_itch_trading_syst.Book.BookSet.Invariant.{All-get_or}
use nasdaq_itch_trading_syst.Book.Replay.Messages.{IsSound}
use nasdaq_itch_trading_syst.Book.Replay.Dispatch.{known-lt, same_type}
use nasdaq_itch_trading_syst.FeedHandler.{
  FeedState, executed, cancelled, on_add, on_reduce, on_delete, on_replace, route, after_switch,
  count_type, on_known, on_message,
}
use nasdaq_itch_trading_syst.FeedHandler.Balance.{
  executed-Counts, cancelled-Counts, on_add-Arm, on_reduce-Arm, on_delete-Arm, on_replace-Arm,
}
use nasdaq_itch_trading_syst.FeedHandler.Books.{
  IsSized, IsFeed, IsFeed-later, Feeds, directory-IsFeed, at_book-Feeds,
}

untouched : (k : ℕ) (s : FeedState) → IsFeed k s → Feeds (k + 1) (some s)
untouched k s v = (s, refl, IsFeed-later k s s v refl refl refl)

-- The switch.
route-Feeds :
    (k : ℕ) (s : FeedState) (t : MessageType) (locate : ℕ) (p : List ℕ)
    → IsFeed k s
    → k < 2 ^ 58
    → get_elem? p 0 ≡ some (to_char t)
    → expected_length (some t) ≤ length p
    → IsSound t p
    → Feeds (k + 1) (route s (to_char t) locate p)
unfolding route to_char
route-Feeds k s add_order locate p v few first long sound =
    let (m, e) = decoders_in_bounds add_order p first long in
    rw e (
      at_book-Feeds k s locate (on_add m) v few (λ b h w. on_add-Arm m b _ h v.audit (sound m e) w))
route-Feeds k s add_order_mpid locate p v few first long sound =
    let (m, e) = decoders_in_bounds add_order_mpid p first long in
    rw e (
      at_book-Feeds k s locate (on_add m) v few (λ b h w. on_add-Arm m b _ h v.audit (sound m e) w))
route-Feeds k s order_executed locate p v few first long sound =
    let (m, e) = decoders_in_bounds order_executed p first long in
    rw e (
      at_book-Feeds k s locate (on_reduce executed m.order_ref m.executed_shares) v few
        (λ b h w. on_reduce-Arm executed m.order_ref _ b _ executed-Counts h v.audit (sound m e)))
route-Feeds k s order_executed_with_price locate p v few first long sound =
    let (m, e) = decoders_in_bounds order_executed_with_price p first long in
    rw e (
      at_book-Feeds k s locate (on_reduce executed m.order_ref m.executed_shares) v few
        (λ b h w. on_reduce-Arm executed m.order_ref _ b _ executed-Counts h v.audit (sound m e)))
route-Feeds k s order_cancel locate p v few first long sound =
    let (m, e) = decoders_in_bounds order_cancel p first long in
    rw e (
      at_book-Feeds k s locate (on_reduce cancelled m.order_ref m.cancelled_shares) v few
        (λ b h w. on_reduce-Arm cancelled m.order_ref _ b _ cancelled-Counts h v.audit (sound m e)))
route-Feeds k s order_delete locate p v few first long sound =
    let (m, e) = decoders_in_bounds order_delete p first long in
    rw e (
      at_book-Feeds k s locate (on_delete m) v few
        (λ b h w. on_delete-Arm m b _ h v.audit (sound m e)))
route-Feeds k s order_replace locate p v few first long sound =
    let (m, e) = decoders_in_bounds order_replace p first long in
    let (ne, ne', small) = sound m e in
    rw e (
      at_book-Feeds k s locate (on_replace m) v few
        (λ b h w. on_replace-Arm m b _ h v.audit ne ne' small w))
route-Feeds k s system_event locate p v few first long sound = untouched k s v
route-Feeds k s stock_directory locate p v few first long sound = untouched k s v
route-Feeds k s stock_trading_action locate p v few first long sound = untouched k s v
route-Feeds k s reg_sho_restriction locate p v few first long sound = untouched k s v
route-Feeds k s market_participant_pos locate p v few first long sound = untouched k s v
route-Feeds k s trade_non_cross locate p v few first long sound = untouched k s v
route-Feeds k s trade_cross locate p v few first long sound = untouched k s v
route-Feeds k s broken_trade locate p v few first long sound = untouched k s v

-- The constant time check of the touched book succeeds, so the loop goes on.
after_switch_goes_on :
    (k : ℕ) (s : FeedState) (locate : ℕ)
    → IsFeed k s
    → k < 2 ^ 60
    → after_switch false locate s ≡ (s, true)
unfolding after_switch book
after_switch_goes_on k s locate v few = elim (Bool-cases (known s.books locate)) [
  | inr missing ↦ rw missing refl
  | inl present ↦
      let inside : locate < length s.books.books =
        omega (arith, known-lt s.books locate present, v.books.registers) in
      let sized = All-get_or (IsSized k) s.books.books locate new_book v.sizes inside in
      let holds =
        IsBook-check_invariants_fast (get_or s.books.books locate new_book)
          (All-get_or IsBook s.books.books locate new_book v.books.books inside)
          (omega (arith, sized.size)) in
      rw (present, holds) refl
]

-- A run of the body that does not leave the loop.
abbrev pub GoesOn : ℕ → Option (FeedState × Bool) → Type 0
GoesOn k run = (s : FeedState) × (run ≡ some (s, true)) × IsFeed k s

directory-GoesOn :
    (k : ℕ) (s : FeedState) (p : List ℕ)
    → IsFeed k s
    → get_elem? p 0 ≡ some (to_char stock_directory)
    → expected_length (some stock_directory) ≤ length p
    → GoesOn (k + 1) (on_known false s (to_char stock_directory) p)
unfolding on_known to_char
directory-GoesOn k s p v first long =
    let (m, e) = decoders_in_bounds stock_directory p first long in
    rw e (record s { books = on_stock_directory s.books m }, refl, directory-IsFeed k s m v)

on_known-GoesOn :
    (k : ℕ) (s : FeedState) (t : MessageType) (p : List ℕ)
    → IsFeed k s
    → k < 2 ^ 58
    → get_elem? p 0 ≡ some (to_char t)
    → expected_length (some t) ≤ length p
    → 11 ≤ length p
    → IsSound t p
    → GoesOn (k + 1) (on_known false s (to_char t) p)
unfolding on_known
on_known-GoesOn k s t p v few first long head sound =
    elim (Bool-cases (to_char t == to_char stock_directory)) [
      | inl directory ↦
          let e : t ≡ stock_directory =
            same_type t stock_directory
              ((==_iff (to_char t) (to_char stock_directory)).0 directory) in
          at_directory t e first long
      | inr other ↦
          let (header, e) = header-Defined p head in
          let (s', run, v') = route-Feeds k s t header.stock_locate p v few first long sound in
          rw (other, e, run)
            (s', ap some (after_switch_goes_on (k + 1) s' header.stock_locate v' (omega arith)), v')
    ]
  where
    at_directory :
        (t : MessageType)
        → t ≡ stock_directory
        → get_elem? p 0 ≡ some (to_char t)
        → expected_length (some t) ≤ length p
        → GoesOn (k + 1) (on_known false s (to_char t) p)
    at_directory t e =
        subst
          (λ t.
            get_elem? p 0 ≡ some (to_char t)
            → expected_length (some t) ≤ length p
            → GoesOn (k + 1) (on_known false s (to_char t) p))
          (sym e) (λ first long. directory-GoesOn k s p v first long)

-- A view of a message of some type: for a known one, all its bytes and sound fields.
abbrev pub IsWhole : MessageView → Type 0
IsWhole mv =
    (type : ℕ) × (get_elem? mv.bytes 0 ≡ some type)
    × ((t : MessageType)
        → of_char type ≡ some t
        → (expected_length (some t) ≤ length mv.bytes) × IsSound t mv.bytes)

-- For a message of any type at a state that satisfies the invariant after `k` messages, fewer
-- than 2 ^ 58, if for a known type the buffer has at least the bytes that the table states and
-- the fields are sound (references other than 0, fewer than 2 ^ 31 shares in a new order), the
-- body of the loop, compiled with NDEBUG, reads nothing past the end, ends without leaving the
-- loop, and keeps the invariant for `k + 1` messages: every book keeps its own, no book has more
-- orders than there were messages, and on 64 bits the shares that rest and those that were
-- executed, cancelled and deleted are together the shares that were added.
pub on_message_correct :
    (k : ℕ) (mv : MessageView) (s : FeedState)
    → IsFeed k s
    → k < 2 ^ 58
    → IsWhole mv
    → GoesOn (k + 1) (on_message false mv s)
unfolding on_message
on_message_correct k mv s v few (type, first, whole) =
    let begun : FeedState = record s {
      messages = u64 (s.messages + 1);
      counts = count_type s.counts type;
    } in
    elim (known_table type) [
      | inr (unnamed, none_such, zero_length) ↦ (
        record begun { unknown_type = u64 (begun.unknown_type + 1) },
        rw (first, unnamed) refl,
        IsFeed-later k s _ v refl refl refl,
      )
      | inl (named, (t, e, same, head)) ↦
          let (long, sound) = whole t e in
          rw (first, named)
            (subst
              (λ (c : ℕ). GoesOn (k + 1) (
                on_known false
                  (if expected_length (of_char c) == mv.size
                    then begun
                    else record begun { length_mismatch = u64 (begun.length_mismatch + 1) })
                  c mv.bytes))
              same
              (on_known-GoesOn k _ t mv.bytes (checked _ begun (begun_feed type)) few
                (first ∙ ap some (sym same)) long (omega (arith, long, ap expected_length e, head))
                sound))
    ]
  where
    begun_feed :
        (type : ℕ)
        → IsFeed k (record s { messages = u64 (s.messages + 1); counts = count_type s.counts type })
    begun_feed type = record {
      books = v.books;
      audit = v.audit;
      sizes = v.sizes;
      balance = v.balance;
      sound = v.sound;
    }

    checked :
        (equal : Bool) (s : FeedState)
        → IsFeed k s
        → IsFeed k (if equal then s else record s { length_mismatch = u64 (s.length_mismatch + 1) })
    checked true s v = v
    checked false s v = record {
      books = v.books;
      audit = v.audit;
      sizes = v.sizes;
      balance = v.balance;
      sound = v.sound;
    }
