-- ===== src/Book/OrderBook/Reduction.antt =====
-- The index of src/book/order_book.cc after the reduction of an order: it holds what is left.
use nasdaq_itch_trading_syst.Base.{
  ℕ, ◌+◌, ◌^◌, ◌<◌, ◌≡◌, ◌≢◌, refl, subst, ap, ◌∙◌, inl, inr, true, false, some, length, arith,
  Bool-cases, ◌==◌, if◌then◌else◌, ==_iff, ==_refl,
}
use nasdaq_itch_trading_syst.OrderIndex.{Order, OrderIndex, slot, qty, buy, pack, write_shares}
use nasdaq_itch_trading_syst.OrderIndex.Packing.{pack_lem}
use nasdaq_itch_trading_syst.OrderIndex.Tables.{refs}
use nasdaq_itch_trading_syst.OrderIndex.Valid.{IsValid}
use nasdaq_itch_trading_syst.OrderIndex.Lookup.{lookup}
use nasdaq_itch_trading_syst.OrderIndex.Removal.{Erases, erase_correct}
use nasdaq_itch_trading_syst.OrderIndex.Writes.{write_shares_lem}
use nasdaq_itch_trading_syst.Book.OrderBook.{erase_if}
use nasdaq_itch_trading_syst.Book.OrderBook.Spec.{resting, resting?, update, after}
use nasdaq_itch_trading_syst.Book.OrderBook.Invariant.{held, resting_total}
use nasdaq_itch_trading_syst.Book.OrderBook.Removing.{erased-view}

-- The index after the reduction of an order: it holds what is left, if anything is.
pub record Reduces (t : OrderIndex) (ref : ℕ) (o : Order) (left : ℕ) (g : OrderIndex) : Type 0 where
  pub valid : IsValid g
  pub size : g.size + (if left == 0 then 1 else 0) ≡ t.size
  pub capacity : length g.slots ≡ length t.slots
  pub total : resting_total g + qty o ≡ resting_total t + left
  pub same :
      (r : ℕ)
      → r ≢ 0
      → resting? (lookup g.slots r)
        ≡ update (λ r. resting? (lookup t.slots r)) ref (after (resting o) left) r

-- The order with what is left of it, and the rest of the map.
repacked : Order → ℕ → Order
repacked o left = record { shares = pack left (buy o); price = o.price }

repacked-resting :
    (o : Order) (left : ℕ)
    → left < 2 ^ 31
    → (qty (repacked o left) ≡ left)
      × (resting (repacked o left) ≡ record (resting o) { quantity = left })
unfolding repacked
repacked-resting o left small =
    let (left_back, side_back) = pack_lem left o.price (buy o) small in
    (left_back, rw (left_back, side_back) refl)

index_alive :
    (t t' : OrderIndex) (ref : ℕ) (o : Order) (left : ℕ)
    → IsValid t'
    → t'.size ≡ t.size
    → length t'.slots ≡ length t.slots
    → ((r : ℕ)
        → r ≢ 0
        → lookup t'.slots r ≡ (if r == ref then some (repacked o left) else lookup t.slots r))
    → resting_total t' + qty o ≡ resting_total t + qty (repacked o left)
    → left < 2 ^ 31
    → (left == 0) ≡ false
    → Reduces t ref o left t'
index_alive t t' ref o left valid size capacity orders total small alive =
    let (left_back, back) = repacked-resting o left small in
    record {
      valid = valid;
      size = rw alive (omega (arith, size));
      capacity = capacity;
      total = omega (arith, total, left_back);
      same = λ r nz. elim (Bool-cases (r == ref)) [
        | inl hit ↦ rw (orders r nz, hit, alive) (ap some back)
        | inr miss ↦ rw (orders r nz, miss) refl
      ];
    }

index_dead :
    (t t' g : OrderIndex) (ref : ℕ) (o : Order) (left : ℕ)
    → t'.size ≡ t.size
    → length t'.slots ≡ length t.slots
    → ((r : ℕ)
        → r ≢ 0
        → lookup t'.slots r ≡ (if r == ref then some (repacked o left) else lookup t.slots r))
    → resting_total t' + qty o ≡ resting_total t + qty (repacked o left)
    → left < 2 ^ 31
    → (left == 0) ≡ true
    → lookup t'.slots ref ≡ some (repacked o left)
    → Erases t' ref g true
    → Reduces t ref o left g
index_dead t t' g ref o left size capacity orders total small dead live gone =
    let (left_back, back) = repacked-resting o left small in
    let z : left ≡ 0 = (==_iff left 0).0 dead in
    record {
      valid = gone.valid;
      size = rw dead (omega (arith, size, gone.size));
      capacity = gone.capacity ∙ capacity;
      total = omega (arith, total, left_back, z, gone.weights held (repacked o left) live);
      same = λ r nz. erased-view t' g ref true gone r nz ∙ elim (Bool-cases (r == ref)) [
        | inl hit ↦ rw (hit, dead) refl
        | inr miss ↦ rw (orders r nz, miss) refl
      ];
    }

pub index_reduced :
    (t : OrderIndex) (ref i left : ℕ)
    → IsValid t
    → ref ≢ 0
    → i < length t.slots
    → refs t.slots i ≡ ref
    → left < 2 ^ 31
    → (g : OrderIndex) × (erase_if
          (left == 0)
          (write_shares t i (pack left (buy (slot t.slots i).order)))
          ref
        ≡ some g)
      × Reduces t ref (slot t.slots i).order left g
unfolding erase_if repacked
index_reduced t ref i left v ne hi same small =
    let o = (slot t.slots i).order in
    let t' = write_shares t i (pack left (buy o)) in
    let w = write_shares_lem t ref i (pack left (buy o)) v ne hi same in
    let live : lookup t'.slots ref ≡ some (repacked o left) =
      w.orders ref ne ∙ rw (==_refl ref) refl in
    elim (Bool-cases (left == 0)) [
      | inl dead ↦
          let (g, erased, run, gone) = erase_correct t' ref w.valid ne in
          let yes_erased : erased ≡ true = gone.returns ∙ rw live refl in
          (
            g,
            rw (dead, run) refl,
            index_dead t t' g ref o left w.size w.capacity w.orders (w.weights held) small dead live
                (subst (Erases t' ref g) yes_erased gone),
          )
      | inr alive ↦ (
        t',
        rw alive refl,
        index_alive t t' ref o left w.valid w.size w.capacity w.orders (w.weights held) small alive,
      )
    ]
