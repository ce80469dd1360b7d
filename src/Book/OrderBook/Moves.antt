-- ===== src/Book/OrderBook/Moves.antt =====
-- How far each operation of src/book/order_book.cc moves the resting shares of a book, and how wide
-- its index can become.
pub mod Reduce
pub mod Remove
pub mod Replace
use nasdaq_itch_trading_syst.Base.{
  ℕ, ◌+◌, ◌-◌, ◌*◌, ◌^◌, ◌<◌, ◌≤◌, ◌≡◌, ◌≢◌, refl, subst, sym, ap, ◌∙◌, inl, inr, Bool, true, false,
  not, ◌&&◌, ◌||◌, Option, none, some, length, u64, sub_u32, sub_u64, arith, ◌>>=◌, Bool-cases, ltb,
  ◌==◌, ==_iff, ==_refl, if◌then◌else◌,
}
use nasdaq_itch_trading_syst.OrderIndex.{
  Order, OrderIndex, slot, qty, buy, pack, find, insert, erase, write_shares,
}
use nasdaq_itch_trading_syst.OrderIndex.Tables.{refs}
use nasdaq_itch_trading_syst.OrderIndex.Lookup.{lookup, is_some}
use nasdaq_itch_trading_syst.OrderIndex.Finding.{find_correct}
use nasdaq_itch_trading_syst.OrderIndex.Insertion.{Inserts, IsWithin, insert_correct}
use nasdaq_itch_trading_syst.Book.Level.{Side}
use nasdaq_itch_trading_syst.Book.PriceLevels.{PriceLevels}
use nasdaq_itch_trading_syst.Book.PriceLevels.Update.{add_level, reduce_level, remove_level}
use nasdaq_itch_trading_syst.Book.OrderBook.{
  to_side, replace_found, add_replacement, OrderBook, ApplyResult, applied, unknown_ref,
  duplicate_ref, clamped_reduce, is_buy_side, add, add_end, reduce, reduce_to, remove, replace,
  settle_levels, shares_of,
}
use nasdaq_itch_trading_syst.Book.OrderBook.Spec.{
  update, spec_add_taken, Orders, Resting, resting, after, reduced, view, resting?,
}
use nasdaq_itch_trading_syst.Book.OrderBook.Invariant.{IsBook, on_side-orders, on_side-order_shares}
use nasdaq_itch_trading_syst.Book.OrderBook.Removing.{qty-lt, remove_live}
use nasdaq_itch_trading_syst.Book.OrderBook.Reduction.{Reduces, index_reduced}
use nasdaq_itch_trading_syst.Book.OrderBook.Reducing.{taken, taken_lem, reduce_end_lem, reduce_run}
use nasdaq_itch_trading_syst.Book.OrderBook.Adding.{add_correct}
use nasdaq_itch_trading_syst.Book.OrderBook.Replacing.{collides_lem}

-- The quantity of an order that may rest.
abbrev pub quantity : Option Resting → ℕ
quantity none = 0
quantity (some o) = o.quantity

pub shares_of_lem :
    (b : OrderBook) (ref : ℕ) → IsBook b → ref ≢ 0 → shares_of b ref ≡ some (quantity (view b ref))
unfolding shares_of
shares_of_lem b ref v ne = elim (find_correct b.orders ref v.orders ne) [
  | inl (e, absent) ↦ rw (e, absent) refl
  | inr (i, e, hi, same, live) ↦ rw (e, live) refl
]

-- From `b` to `b'` the resting shares grow by `gain` and shrink by `loss`.
pub record Moves (b b' : OrderBook) (gain loss : ℕ) : Type 0 where
  pub shares : u64 (b'.order_shares + loss) ≡ u64 (b.order_shares + gain)
  pub size : b'.orders.size ≤ b.orders.size + 1
  pub width : IsWithin b.orders b'.orders

-- What an operation that adds `n` shares adds.
abbrev pub gained : ApplyResult → ℕ → ℕ
gained applied n = n
gained unknown_ref n = 0
gained duplicate_ref n = 0
gained clamped_reduce n = 0

add_end-Moves :
    (b : OrderBook) (ref : ℕ) (o : Order) (side : Side) (shares price : ℕ) (g : OrderIndex)
    (inserted : Bool)
    → Inserts b.orders ref o g inserted
    → Moves b
        (add_end b side shares price (g, inserted)).0
        (gained (add_end b side shares price (g, inserted)).1 shares)
        0
unfolding add_end
add_end-Moves b ref o side shares price g true e =
    let b0 : OrderBook = record b { orders = g; order_shares = u64 (b.order_shares + shares) } in
    let f = λ (l : PriceLevels). add_level l price shares in
    let same = on_side-orders f b0 g (is_buy_side side) in
    record {
      shares =
          ap (λ (n : ℕ). u64 (n + 0)) (on_side-order_shares f b0 (is_buy_side side)) ∙ omega arith;
      size = omega (arith, ap (λ (t : OrderIndex). t.size) same, e.size);
      width =
          λ n le le'. omega (arith, ap (λ (t : OrderIndex). length t.slots) same, e.width n le le');
    }
add_end-Moves b ref o side shares price g false e = record {
  shares = refl;
  size = omega (arith, e.size);
  width = e.width;
}

pub add-Moves :
    (b : OrderBook) (ref : ℕ) (side : Side) (shares price : ℕ)
    → IsBook b
    → length b.orders.slots ≤ 2 ^ 61
    → (b' : OrderBook) × (r : ApplyResult) × (add b ref side shares price ≡ some (b', r))
      × Moves b b' (gained r shares) 0
unfolding add
add-Moves b ref side shares price v room =
    let (g, inserted, run, e) =
      insert_correct b.orders ref shares price (is_buy_side side) v.orders room in
    (
      (add_end b side shares price (g, inserted)).0,
      (add_end b side shares price (g, inserted)).1,
      rw run refl,
      add_end-Moves b ref _ side shares price g inserted e,
    )
