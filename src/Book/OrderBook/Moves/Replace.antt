-- ===== src/Book/OrderBook/Moves/Replace.antt =====
-- How `replace` of src/book/order_book.cc moves the resting shares.
use nasdaq_itch_trading_syst.Base.{
  ℕ, ◌+◌, ◌^◌, ◌<◌, ◌≤◌, ◌≡◌, ◌≢◌, refl, subst, sym, ap, ◌∙◌, inl, inr, Bool, false, not, ◌&&◌,
  ◌||◌, Option, none, some, length, sub_u64, arith, Bool-cases, ◌==◌,
}
use nasdaq_itch_trading_syst.OrderIndex.{Order, slot, qty, buy, find}
use nasdaq_itch_trading_syst.OrderIndex.Lookup.{lookup, is_some}
use nasdaq_itch_trading_syst.OrderIndex.Finding.{find_correct}
use nasdaq_itch_trading_syst.Book.Level.{Side}
use nasdaq_itch_trading_syst.Book.OrderBook.{
  to_side, replace_found, add_replacement, OrderBook, ApplyResult, applied, unknown_ref,
  duplicate_ref, add, replace,
}
use nasdaq_itch_trading_syst.Book.OrderBook.Spec.{
  update, spec_add_taken, Orders, Resting, view, resting?,
}
use nasdaq_itch_trading_syst.Book.OrderBook.Invariant.{IsBook}
use nasdaq_itch_trading_syst.Book.OrderBook.Removing.{qty-lt, remove_live}
use nasdaq_itch_trading_syst.Book.OrderBook.Adding.{add_correct}
use nasdaq_itch_trading_syst.Book.OrderBook.Replacing.{collides_lem}
use nasdaq_itch_trading_syst.Book.OrderBook.Moves.{Moves, gained, quantity, add-Moves}

-- A replacement that is applied ends all that the original had and adds the new shares; any other
-- moves nothing.
abbrev pub Replaced : OrderBook → ℕ → ℕ → Option (OrderBook × ApplyResult) → Type 0
Replaced b ref shares run =
    (b' : OrderBook) × (r : ApplyResult) × (run ≡ some (b', r))
    × (quantity (view b ref) < 2 ^ 31)
    × Moves b b' (gained r shares) (gained r (quantity (view b ref)))

unmoved :
    (b : OrderBook) (ref shares : ℕ) (r : ApplyResult)
    → gained r shares ≡ 0
    → gained r (quantity (view b ref)) ≡ 0
    → quantity (view b ref) < 2 ^ 31
    → Replaced b ref shares (some (b, r))
unmoved b ref shares r e e' small = (
  b,
  r,
  refl,
  small,
  record { shares = omega (arith, e, e'); size = omega arith; width = λ n le le'. le },
)

replaced-Moves :
    (b b1 b' : OrderBook) (n shares : ℕ)
    → n < 2 ^ 31
    → length b1.orders.slots ≡ length b.orders.slots
    → b1.order_shares ≡ sub_u64 b.order_shares n
    → b1.orders.size + 1 ≡ b.orders.size
    → Moves b1 b' shares 0
    → Moves b b' shares n
replaced-Moves b b1 b' n shares small wide less size m = record {
  shares = omega (arith, less, m.shares);
  size = omega (arith, size, m.size);
  width = λ k le le'. m.width k (omega (arith, wide)) (omega (arith, size));
}

-- Once the original is gone and no other order has the new reference, it is taken.
add_again-Moves :
    (b : OrderBook) (ref : ℕ) (side : Side) (shares price : ℕ)
    → IsBook b
    → shares < 2 ^ 31
    → length b.orders.slots ≤ 2 ^ 61
    → ref ≢ 0
    → view b ref ≡ none
    → (b' : OrderBook) × (add b ref side shares price ≡ some (b', applied)) × Moves b b' shares 0
add_again-Moves b ref side shares price v small room ne absent =
    let (b', r, run, m) = add-Moves b ref side shares price v room in
    let (b'', run', stands) = add_correct b ref side shares price v small room in
    let free : (ref == 0 || is_some (view b ref)) ≡ false = rw absent (ground arith) in
    let same : r ≡ applied =
      result-eq (sym run ∙ run')
      ∙ ap (λ (s : Orders × ApplyResult). s.1)
          (spec_add_taken (view b) ref side shares price free) in
    (
      b',
      run ∙ ap (λ (k : ApplyResult). some (b', k)) same,
      subst (λ (k : ApplyResult). Moves b b' (gained k shares) 0) same m,
    )
  where
    result-eq :
        {c c' : OrderBook} {r r' : ApplyResult}
        → ◌≡◌ {A = Option (OrderBook × ApplyResult)} (some (c, r)) (some (c', r'))
        → r ≡ r'
    result-eq e = cc

replace_live-Moves :
    (b : OrderBook) (original_ref new_ref shares price i : ℕ)
    → IsBook b
    → original_ref ≢ 0
    → new_ref ≢ 0
    → shares < 2 ^ 31
    → length b.orders.slots ≤ 2 ^ 61
    → find b.orders original_ref ≡ some (some i)
    → lookup b.orders.slots original_ref ≡ some (slot b.orders.slots i).order
    → Replaced b original_ref shares (replace_found b original_ref new_ref shares price i)
unfolding replace_found
replace_live-Moves b original_ref new_ref shares price i v ne ne' small room e live =
    let o = (slot b.orders.slots i).order in
    let had : quantity (view b original_ref) ≡ qty o =
      ap (λ (o : Option Order). quantity (resting? o)) live in
    let test = collides_lem b original_ref new_ref v ne' in
    let side = to_side (buy o) in
    elim (Bool-cases (not (new_ref == original_ref) && is_some (view b new_ref))) [
      | inl yes_clash ↦
          rw (test, yes_clash)
            (unmoved b original_ref shares duplicate_ref refl refl (omega (arith, had, qty-lt o)))
      | inr no_clash ↦
          let (b1, run, stands, wide, less, size) = remove_live b original_ref i v ne e live in
          let absent : view b1 new_ref ≡ none =
            stands.same new_ref ne' ∙ gone (view b) original_ref new_ref no_clash in
          let (b', added, m) =
            add_again-Moves b1 new_ref side shares price stands.valid small (omega (arith, wide))
              ne' absent in
          rw (test, no_clash, run, add_replacement)
            (
              b',
              applied,
              added,
              omega (arith, had, qty-lt o),
              subst (Moves b b' shares) (sym had)
                  (replaced-Moves b b1 b' (qty o) shares (qty-lt o) wide less size m),
            )
    ]
  where
    gone :
        (m : Orders) (original_ref new_ref : ℕ)
        → (not (new_ref == original_ref) && is_some (m new_ref)) ≡ false
        → update m original_ref none new_ref ≡ none
    gone m original_ref new_ref e = elim (Bool-cases (new_ref == original_ref)) [
      | inl same ↦ rw same refl
      | inr other ↦
          rw other
            (none_of (m new_ref) (second (new_ref == original_ref) (is_some (m new_ref)) e other))
    ]
      where
        none_of : (o : Option Resting) → is_some o ≡ false → o ≡ none
        none_of none e = refl
        none_of (some o) e = absurd cc

        second : (a c : Bool) → (not a && c) ≡ false → a ≡ false → c ≡ false
        second a c e e' = ground arith

pub replace-Moves :
    (b : OrderBook) (original_ref new_ref shares price : ℕ)
    → IsBook b
    → original_ref ≢ 0
    → new_ref ≢ 0
    → shares < 2 ^ 31
    → length b.orders.slots ≤ 2 ^ 61
    → Replaced b original_ref shares (replace b original_ref new_ref shares price)
unfolding replace
replace-Moves b original_ref new_ref shares price v ne ne' small room =
    elim (find_correct b.orders original_ref v.orders ne) [
      | inl (e, absent) ↦ rw e (
          unmoved b original_ref shares unknown_ref refl refl
            (omega (arith, ap (λ (o : Option Order). quantity (resting? o)) absent)))
      | inr (i, e, hi, same, live) ↦
          rw e (replace_live-Moves b original_ref new_ref shares price i v ne ne' small room e live)
    ]
