-- ===== src/Book/OrderBook/Adding.antt =====
-- `add` of src/book/order_book.cc.
use nasdaq_itch_trading_syst.Base.{
  ℕ, ◌+◌, ◌^◌, ◌<◌, ◌≤◌, ◌≡◌, refl, subst, sym, ap, ◌∙◌, inl, inr, Bool, true, false, not, ◌&&◌,
  ◌||◌, Option, none, some, length, u64, arith, Bool-cases, ◌==◌,
}
use nasdaq_itch_trading_syst.OrderIndex.{Order, OrderIndex, qty, pack, insert}
use nasdaq_itch_trading_syst.OrderIndex.Packing.{pack_lem}
use nasdaq_itch_trading_syst.OrderIndex.Lookup.{lookup, is_some}
use nasdaq_itch_trading_syst.OrderIndex.Insertion.{Inserts, insert_correct}
use nasdaq_itch_trading_syst.Book.Level.{Side, buy_side, sell_side}
use nasdaq_itch_trading_syst.Book.OrderBook.{OrderBook, on_side, is_buy_side, to_side, add, add_end}
use nasdaq_itch_trading_syst.Book.OrderBook.Spec.{
  Orders, resting, resting?, view, update, spec_add, spec_add_refused, spec_add_taken,
}
use nasdaq_itch_trading_syst.Book.OrderBook.Invariant.{
  held, resting_total, IsBook, Stands, Achieves, add-u64,
}

packed : Side → ℕ → ℕ → Order
packed side shares price = record { shares = pack shares (is_buy_side side); price = price }

side_back : (side : Side) → to_side (is_buy_side side) ≡ side
unfolding to_side is_buy_side
side_back buy_side = refl
side_back sell_side = refl

packed-resting :
    (side : Side) (shares price : ℕ)
    → shares < 2 ^ 31
    → (qty (packed side shares price) ≡ shares)
      × (resting (packed side shares price)
          ≡ record { side = side; quantity = shares; price = price })
unfolding packed
packed-resting side shares price small =
    let (q, b) = pack_lem shares price (is_buy_side side) small in
    (q, rw (q, b, side_back side) refl)

-- The totals after an insertion.
module _ (b : OrderBook) (g : OrderIndex) (ref : ℕ) (side : Side) (shares price : ℕ) (v : IsBook b)
    (small : shares < 2 ^ 31) where
  added-shares :
      Inserts b.orders ref (packed side shares price) g true
      → u64 (b.order_shares + shares) ≡ u64 (resting_total g)
  added-shares e =
      let (q, back) = packed-resting side shares price small in
      let w : resting_total g ≡ resting_total b.orders + qty (packed side shares price) =
        e.weights held in
      rw (v.shares, add-u64 (resting_total b.orders) shares, w, q) refl

  added-count :
      Inserts b.orders ref (packed side shares price) g true → u64 (b.level_orders + 1) ≡ u64 g.size
  added-count e =
      let s : g.size ≡ b.orders.size + 1 = e.size in rw (v.count, add-u64 b.orders.size 1, s) refl

  added-IsBook :
      Inserts b.orders ref (packed side shares price) g true
      → IsBook (add_end b side shares price (g, true)).0
  unfolding add_end on_side is_buy_side
  added-IsBook e = elim side as (λ s. IsBook (add_end b s shares price (g, true)).0) [
    | buy_side ↦ record {
      orders = e.valid;
      shares = added-shares e;
      levels = ap (λ (k : ℕ). u64 (k + shares)) v.levels;
      count = added-count e;
    }
    | sell_side ↦ record {
      orders = e.valid;
      shares = added-shares e;
      levels = ap (λ (k : ℕ). u64 (k + shares)) v.levels;
      count = added-count e;
    }
  ]

  added-orders : (add_end b side shares price (g, true)).0.orders ≡ g
  unfolding add_end on_side is_buy_side
  added-orders = elim side as (λ s. (add_end b s shares price (g, true)).0.orders ≡ g) [
    | buy_side ↦ refl
    | sell_side ↦ refl
  ]

  added-Stands :
      Inserts b.orders ref (packed side shares price) g true
      → Stands
          (add_end b side shares price (g, true)).0
          (update (view b) ref (some (record { side = side; quantity = shares; price = price })))
  added-Stands e =
      let (q, back) = packed-resting side shares price small in
      record {
        valid = added-IsBook e;
        same = λ r nz.
            ap (λ (t : OrderIndex). resting? (lookup t.slots r)) added-orders
            ∙ ap resting? (e.orders r nz)
            ∙ elim (Bool-cases (r == ref)) [
              | inl hit ↦ rw hit (ap some back)
              | inr miss ↦ rw miss refl
            ];
      }

  refused-Stands :
      Inserts b.orders ref (packed side shares price) g false
      → Stands (record b { orders = g }) (view b)
  refused-Stands e = record {
    valid = record {
      orders = e.valid;
      shares = v.shares ∙ ap u64 (sym (omega (arith, e.weights held)));
      levels = v.levels;
      count = v.count ∙ ap u64 (sym (omega (arith, e.size)));
    };
    same = λ r nz. ap resting? (e.orders r nz);
  }

pub is_some-resting? : (o : Option Order) → is_some (resting? o) ≡ is_some o
is_some-resting? none = refl
is_some-resting? (some o) = refl

refusal :
    (m : Orders) (ref : ℕ) (live inserted : Bool)
    → is_some (m ref) ≡ live
    → inserted ≡ (not (ref == 0) && not live)
    → (ref == 0 || is_some (m ref)) ≡ not inserted
refusal m ref live inserted same e = rw (same, e) (ground arith)

add-insert :
    (b : OrderBook) (ref : ℕ) (side : Side) (shares price : ℕ) (g : OrderIndex) (inserted : Bool)
    → IsBook b
    → shares < 2 ^ 31
    → insert b.orders ref shares price (is_buy_side side) ≡ some (g, inserted)
    → Inserts b.orders ref (packed side shares price) g inserted
    → Achieves (add b ref side shares price) (spec_add (view b) ref side shares price)
unfolding add add_end
add-insert b ref side shares price g true v small run e =
    let no : (ref == 0 || is_some (view b ref)) ≡ false =
      refusal (view b) ref (is_some (lookup b.orders.slots ref)) true
        (is_some-resting? (lookup b.orders.slots ref)) e.returns in
    subst (Achieves (add b ref side shares price))
      (sym (spec_add_taken (view b) ref side shares price no))
      (
        (add_end b side shares price (g, true)).0,
        rw run refl,
        added-Stands b g ref side shares price v small e,
      )
add-insert b ref side shares price g false v small run e =
    let yes_refused : (ref == 0 || is_some (view b ref)) ≡ true =
      refusal (view b) ref (is_some (lookup b.orders.slots ref)) false
        (is_some-resting? (lookup b.orders.slots ref)) e.returns in
    subst (Achieves (add b ref side shares price))
      (sym (spec_add_refused (view b) ref side shares price yes_refused))
      (record b { orders = g }, rw run refl, refused-Stands b g ref side shares price v small e)

-- On a book that satisfies the invariant and whose index has at most 2 ^ 61 slots, for fewer than
-- 2 ^ 31 shares, `add` ends, keeps the invariant, and does to the map of resting orders what its
-- specification says, with the result that it gives: reference 0 and a live reference are refused
-- and change nothing.
pub add_correct :
    (b : OrderBook) (ref : ℕ) (side : Side) (shares price : ℕ)
    → IsBook b
    → shares < 2 ^ 31
    → length b.orders.slots ≤ 2 ^ 61
    → Achieves (add b ref side shares price) (spec_add (view b) ref side shares price)
unfolding packed
add_correct b ref side shares price v small room =
    let (g, inserted, run, e) =
      insert_correct b.orders ref shares price (is_buy_side side) v.orders room in
    add-insert b ref side shares price g inserted v small run e
