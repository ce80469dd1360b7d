-- ===== src/Book/OrderBook/Spec.antt =====
-- What the operations of src/book/order_book.h promise, over a map from the reference to the order
-- that rests: its side, its quantity and its price.
use nasdaq_itch_trading_syst.Base.{
  ℕ, ◌-◌, ◌≡◌, refl, Bool-cases, inl, inr, true, false, not, ◌&&◌, ◌||◌, Option, none, some, ltb,
  ◌==◌, if◌then◌else◌,
}
use nasdaq_itch_trading_syst.OrderIndex.{Order, qty, buy}
use nasdaq_itch_trading_syst.OrderIndex.Lookup.{is_some, lookup}
use nasdaq_itch_trading_syst.Book.Level.{Side}
use nasdaq_itch_trading_syst.Book.OrderBook.{
  OrderBook, ApplyResult, applied, unknown_ref, duplicate_ref, clamped_reduce, to_side,
}

pub record Resting : Type 0 where
  pub side : Side
  pub quantity : ℕ
  pub price : ℕ

abbrev pub Orders : Type 0
Orders = ℕ → Option Resting

abbrev pub resting : Order → Resting
resting o = record { side = to_side (buy o); quantity = qty o; price = o.price }

abbrev pub resting? : Option Order → Option Resting
resting? none = none
resting? (some o) = some (resting o)

-- The map that a book stands for.
abbrev pub view : OrderBook → Orders
view b r = resting? (lookup b.orders.slots r)

abbrev pub update : Orders → ℕ → Option Resting → Orders
update m ref o r = if r == ref then o else m r

-- 0 is no reference, and a reference that is live is refused.
abbrev pub spec_add : Orders → ℕ → Side → ℕ → ℕ → Orders × ApplyResult
spec_add m ref side shares price =
    if ref == 0 || is_some (m ref)
    then (m, duplicate_ref)
    else (update m ref (some (record { side = side; quantity = shares; price = price })), applied)

pub spec_add_refused :
    (m : Orders) (ref : ℕ) (side : Side) (shares price : ℕ)
    → (ref == 0 || is_some (m ref)) ≡ true
    → spec_add m ref side shares price ≡ (m, duplicate_ref)
spec_add_refused m ref side shares price e = rw (e, spec_add) refl

pub spec_add_taken :
    (m : Orders) (ref : ℕ) (side : Side) (shares price : ℕ)
    → (ref == 0 || is_some (m ref)) ≡ false
    → spec_add m ref side shares price
      ≡ (update m ref (some (record { side = side; quantity = shares; price = price })), applied)
spec_add_taken m ref side shares price e = rw (e, spec_add) refl

-- A reduction to nothing ends the order; one by more than it has is reported, and takes what it has.
abbrev pub spec_reduce : Orders → ℕ → ℕ → Orders × ApplyResult
spec_reduce m ref shares = elim (m ref) [
  | none ↦ (m, unknown_ref)
  | some o ↦
      let left = o.quantity - shares in
      (
        update m ref (if left == 0 then none else some (record o { quantity = left })),
        if ltb o.quantity shares then clamped_reduce else applied,
      )
]

abbrev pub spec_remove : Orders → ℕ → Orders × ApplyResult
spec_remove m ref = elim (m ref) [ none ↦ (m, unknown_ref) | some o ↦ (update m ref none, applied) ]

pub spec_remove-none : (m : Orders) (ref : ℕ) → m ref ≡ none → spec_remove m ref ≡ (m, unknown_ref)
spec_remove-none m ref e = rw (e, spec_remove) refl

pub spec_remove-some :
    (m : Orders) (ref : ℕ) (o : Resting)
    → m ref ≡ some o
    → spec_remove m ref ≡ (update m ref none, applied)
spec_remove-some m ref o e = rw (e, spec_remove) refl

pub spec_reduce-none :
    (m : Orders) (ref shares : ℕ) → m ref ≡ none → spec_reduce m ref shares ≡ (m, unknown_ref)
spec_reduce-none m ref shares e = rw (e, spec_reduce) refl

-- What is left of an order.
abbrev pub after : Resting → ℕ → Option Resting
after o left = if left == 0 then none else some (record o { quantity = left })

abbrev pub reduced : ℕ → ℕ → ApplyResult
reduced quantity shares = if ltb quantity shares then clamped_reduce else applied

pub spec_reduce-some :
    (m : Orders) (ref shares : ℕ) (o : Resting)
    → m ref ≡ some o
    → spec_reduce m ref shares
      ≡ (update m ref (after o (o.quantity - shares)), reduced o.quantity shares)
spec_reduce-some m ref shares o e = rw (e, spec_reduce) refl

-- The replacement rests on the side of the original, which is gone; a collision changes nothing.
abbrev pub spec_replace : Orders → ℕ → ℕ → ℕ → ℕ → Orders × ApplyResult
spec_replace m original_ref new_ref shares price = elim (m original_ref) [
  | none ↦ (m, unknown_ref)
  | some o ↦
      if not (new_ref == original_ref) && is_some (m new_ref)
      then (m, duplicate_ref)
      else spec_add (update m original_ref none) new_ref o.side shares price
]

pub spec_replace-none :
    (m : Orders) (original_ref new_ref shares price : ℕ)
    → m original_ref ≡ none
    → spec_replace m original_ref new_ref shares price ≡ (m, unknown_ref)
spec_replace-none m original_ref new_ref shares price e = rw (e, spec_replace) refl

pub spec_replace-some :
    (m : Orders) (original_ref new_ref shares price : ℕ) (o : Resting)
    → m original_ref ≡ some o
    → spec_replace m original_ref new_ref shares price ≡ (
        if not (new_ref == original_ref) && is_some (m new_ref)
        then (m, duplicate_ref)
        else spec_add (update m original_ref none) new_ref o.side shares price)
spec_replace-some m original_ref new_ref shares price o e = rw (e, spec_replace) refl

-- The specification reads the map at the reference alone.
pub spec_add-ext :
    (m m' : Orders) (ref : ℕ) (side : Side) (shares price : ℕ)
    → m ref ≡ m' ref
    → ((spec_add m ref side shares price).1 ≡ (spec_add m' ref side shares price).1)
      × ((r : ℕ)
          → m r ≡ m' r
          → (spec_add m ref side shares price).0 r ≡ (spec_add m' ref side shares price).0 r)
spec_add-ext m m' ref side shares price e = elim (Bool-cases (ref == 0 || is_some (m' ref))) [
  | inl refused ↦
      let refused' : (ref == 0 || is_some (m ref)) ≡ true = rw e refused in
      rw
        (
          spec_add_refused m ref side shares price refused',
          spec_add_refused m' ref side shares price refused,
        )
        (refl, λ r same. same)
  | inr added ↦
      let added' : (ref == 0 || is_some (m ref)) ≡ false = rw e added in
      rw
        (
          spec_add_taken m ref side shares price added',
          spec_add_taken m' ref side shares price added,
        )
        (refl, λ r same. rw same refl)
]
