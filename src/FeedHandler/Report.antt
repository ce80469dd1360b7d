-- ===== src/FeedHandler/Report.antt =====
-- The end of apps/feed_handler/main.cc: the whole run on a file, the exit code and the table of the
-- first ten books with both sides.
use nasdaq_itch_trading_syst.Base.{
  ℕ, zero, suc, ◌+◌, Bool, false, ◌&&◌, Option, none, some, List, [], ◌∷◌, length, ◌==◌,
  if◌then◌else◌, ◌>>=◌,
}
use nasdaq_itch_trading_syst.Itch.Framing.{framer, walk_while}
use nasdaq_itch_trading_syst.Book.Level.{Level}
use nasdaq_itch_trading_syst.Book.OrderBook.{best_bid, best_ask}
use nasdaq_itch_trading_syst.Book.BookSet.{BookSet, known, book, symbol, resting_shares}
use nasdaq_itch_trading_syst.Book.BookSet.Check.{check_invariants}
use nasdaq_itch_trading_syst.FeedHandler.{FeedState, new_feed, expected_resting, on_message}

-- `resting == expected`.
unfoldable pub conserved : FeedState → Bool
unfolding resting_shares expected_resting
conserved s = resting_shares s.books == expected_resting s.audit

-- What `main` returns once it has the file.
unfoldable pub exit_code : FeedState → ℕ
unfolding conserved
exit_code s =
    if s.invariants_ok
      && (conserved s
          && (s.unknown_type == 0
              && (s.length_mismatch == 0
                  && (s.unknown_locate == 0
                      && (s.audit.unknown_refs == 0
                          && (s.audit.duplicate_refs == 0 && s.audit.clamped_reduces == 0))))))
    then 0
    else 1

-- `if (!books.check_invariants()) invariants_ok = false;`
unfoldable pub final_check : FeedState → FeedState
unfolding check_invariants
final_check s = if check_invariants s.books then s else record s { invariants_ok = false }

-- The run on a file. Fuel: as many rounds as the file has bytes, and one.
unfoldable pub run_file : Bool → List ℕ → Option FeedState
unfolding on_message walk_while new_feed final_check
run_file debug file = do
  r ← walk_while (suc (length file)) (on_message debug) (framer file (length file)) new_feed
  some (final_check r.0)

-- A row of the table, of a registered locate with both sides.
unfoldable pub row : BookSet → ℕ → Option (List ℕ × Level × Level)
unfolding known book symbol best_bid best_ask
row s locate =
    if known s locate
    then (do
      bid ← best_bid (book s locate)
      ask ← best_ask (book s locate)
      some (symbol s locate, bid, ask))
    else none

-- The loop from `locate` on: `rounds` is what is left up to 0xffff, `room` what is left of ten.
unfoldable pub top_rows : BookSet → ℕ → ℕ → ℕ → List (List ℕ × Level × Level)
unfolding row
top_rows s zero locate room = []
top_rows s (suc rounds) locate zero = []
top_rows s (suc rounds) locate (suc room) = elim (row s locate) [
  | none ↦ top_rows s rounds (locate + 1) (suc room)
  | some r ↦ r ∷ top_rows s rounds (locate + 1) room
]

unfoldable pub top_of_book : BookSet → List (List ℕ × Level × Level)
unfolding top_rows
top_of_book s = top_rows s 0xffff 1 10
