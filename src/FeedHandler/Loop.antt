-- ===== src/FeedHandler/Loop.antt =====
-- The loop of apps/feed_handler/main.cc over a whole file.
use nasdaq_itch_trading_syst.Base.{
  ℕ, ◌+◌, ◌^◌, ◌<◌, ◌≡◌, refl, subst, sym, ◌∙◌, inl, inr, true, false, Bool-cases, some, List, All,
  length, ==_iff, arith,
}
use nasdaq_itch_trading_syst.Itch.Framing.{MessageView}
use nasdaq_itch_trading_syst.Itch.Framing.Stream.{views, IsSplit}
use nasdaq_itch_trading_syst.Itch.Framing.Leave.{Round, walk_while-IsSplit}
use nasdaq_itch_trading_syst.Book.BookSet.{BookSet, new_book_set}
use nasdaq_itch_trading_syst.Book.BookSet.Invariant.{IsBookSet}
use nasdaq_itch_trading_syst.Book.BookSet.Check.{check_invariants}
use nasdaq_itch_trading_syst.FeedHandler.{FeedState, new_feed, on_message}
use nasdaq_itch_trading_syst.FeedHandler.Balance.{Balanced-expected_resting}
use nasdaq_itch_trading_syst.FeedHandler.Books.{total, IsSized, IsFeed, resting_shares-total}
use nasdaq_itch_trading_syst.FeedHandler.Messages.{IsWhole, on_message_correct}
use nasdaq_itch_trading_syst.FeedHandler.Report.{conserved, final_check, run_file}

-- The body as a round of a loop that it never leaves.
on_message-Round :
    (k : ℕ) (v : MessageView) (s : FeedState)
    → IsWhole v
    → k < 2 ^ 58
    → IsFeed k s
    → Round IsFeed (λ s. ⊥) (k + 1) (on_message false v s)
on_message-Round k v s whole few h = inl (on_message_correct k v s h few whole)

pub new_feed-IsFeed : IsFeed 0 new_feed
unfolding new_feed new_book_set
new_feed-IsFeed = record {
  books = record { books = tt; registers = refl; names = refl };
  audit = record {
    added = omega arith;
    executed = omega arith;
    cancelled = omega arith;
    deleted = omega arith;
  };
  sizes = tt;
  balance = refl;
  sound = refl;
}

conserved-IsFeed : (k : ℕ) (s : FeedState) → IsFeed k s → conserved s ≡ true
unfolding conserved
conserved-IsFeed k s v = (==_iff _ _).1 (
    resting_shares-total s.books
    ∙ Balanced-expected_resting (total s.books.books) s.audit v.audit v.balance)

final_check-conserved : (s : FeedState) → conserved (final_check s) ≡ conserved s
unfolding final_check conserved
final_check-conserved s = elim (Bool-cases (check_invariants s.books)) [
  | inl holds ↦ rw holds refl
  | inr broken ↦ rw broken refl
]

final_check_sound :
    (s : FeedState)
    → s.invariants_ok ≡ true
    → (final_check s).invariants_ok ≡ check_invariants (final_check s).books
unfolding final_check
final_check_sound s e = elim (Bool-cases (check_invariants s.books)) [
  | inl holds ↦ rw holds (e ∙ sym holds)
  | inr broken ↦ rw broken (sym broken)
]

-- The feed handler, compiled with NDEBUG, on a file of fewer than 2 ^ 58 bytes, in which every
-- complete frame of a known type has at least the bytes that the table states for it and sound
-- fields (references other than 0, fewer than 2 ^ 31 shares in a new order), reads nothing past
-- the end and ends; then every book keeps its invariant, no book has more orders than the file
-- has messages, the resting shares are what the audit expects, so that `conserved` is true, and
-- `invariants_ok` is the result of the full check after the loop: no check inside the loop has
-- failed.
pub run_file_correct :
    (file : List ℕ) (ms : List (List ℕ)) (rest : List ℕ)
    → length file < 2 ^ 58
    → IsSplit file ms rest
    → All IsWhole (views ms rest)
    → (s : FeedState) × (run_file false file ≡ some s)
      × IsBookSet s.books
      × All (IsSized (length ms)) s.books.books
      × (conserved s ≡ true)
      × (s.invariants_ok ≡ check_invariants s.books)
unfolding run_file
run_file_correct file ms rest few split whole =
    let (s, f, run, ended) =
      walk_while-IsSplit (on_message false) IsFeed (λ s. ⊥) IsWhole (2 ^ 58) on_message-Round file
        ms rest new_feed (omega arith) (omega arith) split whole new_feed-IsFeed in
    let v : IsFeed (length ms) s = elim ended [ inl v ↦ v | inr never ↦ absurd never ] in
    (
      final_check s,
      rw run refl,
      subst IsBookSet (sym (final_check-books s)) v.books,
      subst (λ (t : BookSet). All (IsSized (length ms)) t.books) (sym (final_check-books s))
          v.sizes,
      final_check-conserved s ∙ conserved-IsFeed (length ms) s v,
      final_check_sound s v.sound,
    )
  where
    final_check-books : (s : FeedState) → (final_check s).books ≡ s.books
    final_check-books s = elim (Bool-cases (check_invariants s.books)) [
      | inl holds ↦ rw (final_check, holds) refl
      | inr broken ↦ rw (final_check, broken) refl
    ]
