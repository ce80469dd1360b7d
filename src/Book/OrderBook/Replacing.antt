-- ===== src/Book/OrderBook/Replacing.antt =====
-- `replace` of src/book/order_book.cc.
use nasdaq_itch_trading_syst.Base.{
  ℕ, ◌^◌, ◌<◌, ◌≤◌, ◌≡◌, ◌≢◌, refl, subst, sym, ap, ◌∙◌, inl, inr, not, ◌&&◌, Option, none, some,
  length, arith, Bool-cases, ◌==◌, if◌then◌else◌,
}
use nasdaq_itch_trading_syst.OrderIndex.{slot, buy, find}
use nasdaq_itch_trading_syst.OrderIndex.Lookup.{lookup, is_some}
use nasdaq_itch_trading_syst.OrderIndex.Finding.{find_correct}
use nasdaq_itch_trading_syst.Book.Level.{Side}
use nasdaq_itch_trading_syst.Book.OrderBook.{
  OrderBook, ApplyResult, duplicate_ref, collides, to_side, add, add_replacement, replace,
  replace_found,
}
use nasdaq_itch_trading_syst.Book.OrderBook.Spec.{
  Orders, resting, resting?, view, update, spec_add, spec_replace, spec_replace-none,
  spec_replace-some, spec_add-ext,
}
use nasdaq_itch_trading_syst.Book.OrderBook.Invariant.{IsBook, Achieves}
use nasdaq_itch_trading_syst.Book.OrderBook.Removing.{remove_live}
use nasdaq_itch_trading_syst.Book.OrderBook.Adding.{add_correct}

-- The collision test asks whether another order has the new reference.
pub collides_lem :
    (b : OrderBook) (original_ref new_ref : ℕ)
    → IsBook b
    → new_ref ≢ 0
    → collides b original_ref new_ref
      ≡ some (not (new_ref == original_ref) && is_some (view b new_ref))
unfolding collides
collides_lem b original_ref new_ref v ne = elim (Bool-cases (new_ref == original_ref)) [
  | inl same ↦ rw same refl
  | inr other ↦ elim (find_correct b.orders new_ref v.orders ne) [
    | inl (e, absent) ↦ rw (other, e, absent) refl
    | inr (i, e, hi, at, live) ↦ rw (other, e, live) refl
  ]
]

-- The map that a book stands for, under an equal map.
restated :
    (run : Option (OrderBook × ApplyResult)) (m m' : Orders) (ref : ℕ) (side : Side)
    (shares price : ℕ)
    → ref ≢ 0
    → ((r : ℕ) → r ≢ 0 → m r ≡ m' r)
    → Achieves run (spec_add m ref side shares price)
    → Achieves run (spec_add m' ref side shares price)
restated run m m' ref side shares price ne same (b, e, stands) =
    let ext = spec_add-ext m m' ref side shares price (same ref ne) in
    (
      b,
      e ∙ ap (λ (k : ApplyResult). some (b, k)) ext.0,
      record { valid = stands.valid; same = λ r nz. stands.same r nz ∙ ext.1 r (same r nz) },
    )

replace_live :
    (b : OrderBook) (original_ref new_ref shares price i : ℕ)
    → IsBook b
    → original_ref ≢ 0
    → new_ref ≢ 0
    → shares < 2 ^ 31
    → length b.orders.slots ≤ 2 ^ 61
    → find b.orders original_ref ≡ some (some i)
    → lookup b.orders.slots original_ref ≡ some (slot b.orders.slots i).order
    → Achieves (replace_found b original_ref new_ref shares price i) (
        if not (new_ref == original_ref) && is_some (view b new_ref)
        then (view b, duplicate_ref)
        else spec_add
            (update (view b) original_ref none)
            new_ref
            (to_side (buy (slot b.orders.slots i).order))
            shares
            price)
unfolding replace_found
replace_live b original_ref new_ref shares price i v ne ne' small room e live =
    let clash = not (new_ref == original_ref) && is_some (view b new_ref) in
    let test = collides_lem b original_ref new_ref v ne' in
    let side = to_side (buy (slot b.orders.slots i).order) in
    elim (Bool-cases clash) [
      | inl yes_clash ↦ rw (test, yes_clash) (b, refl, record { valid = v; same = λ r nz. refl })
      | inr no_clash ↦
          let (b', run, stands, wide, _, _) = remove_live b original_ref i v ne e live in
          rw (test, no_clash, run, add_replacement)
            (restated (add b' new_ref side shares price) (view b')
              (update (view b) original_ref none) new_ref side shares price ne' stands.same
              (add_correct b' new_ref side shares price stands.valid small (omega (arith, wide))))
    ]

-- On a book that satisfies the invariant and whose index has at most 2 ^ 61 slots, for references
-- other than 0 and fewer than 2 ^ 31 shares, `replace` ends, keeps the invariant, and does to the
-- map of resting orders what its specification says, with the result that it gives: an unknown
-- original and a collision of the new reference change nothing, and otherwise the original is
-- gone and the new order rests on its side.
pub replace_correct :
    (b : OrderBook) (original_ref new_ref shares price : ℕ)
    → IsBook b
    → original_ref ≢ 0
    → new_ref ≢ 0
    → shares < 2 ^ 31
    → length b.orders.slots ≤ 2 ^ 61
    → Achieves
        (replace b original_ref new_ref shares price)
        (spec_replace (view b) original_ref new_ref shares price)
unfolding replace
replace_correct b original_ref new_ref shares price v ne ne' small room =
    elim (find_correct b.orders original_ref v.orders ne) [
      | inl (e, absent) ↦
          subst (Achieves (replace b original_ref new_ref shares price))
            (sym
              (spec_replace-none (view b) original_ref new_ref shares price (ap resting? absent)))
            (b, rw e refl, record { valid = v; same = λ r nz. refl })
      | inr (i, e, hi, same, live) ↦
          subst (Achieves (replace b original_ref new_ref shares price))
            (sym (
              spec_replace-some (view b) original_ref new_ref shares price
                (resting (slot b.orders.slots i).order) (ap resting? live)))
            (rw e (replace_live b original_ref new_ref shares price i v ne ne' small room e live))
    ]
