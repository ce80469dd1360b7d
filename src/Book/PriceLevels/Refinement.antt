-- ===== src/Book/PriceLevels/Refinement.antt =====
-- One side of a book, src/book/price_levels.cc, as a map from prices to levels.
use nasdaq_itch_trading_syst.Base.{
  ℕ, ◌+◌, ◌*◌, ◌/◌, ◌%◌, ◌<◌, ◌^◌, ◌≡◌, refl, ap, sym, subst, arith, fun_ext, Bool, true, false,
  List, [], ◌∷◌, ◌==◌, if◌then◌else◌, u32, u64, sub_u32, sub_u64, inl, inr, Option-cases,
}
use nasdaq_itch_trading_syst.Book.Level.{Side, Level, empty_level}
use nasdaq_itch_trading_syst.Book.SortedMap.{get}
use nasdaq_itch_trading_syst.Book.Bitmap.Scan.{test_bit-false, zero_word}
use nasdaq_itch_trading_syst.Book.PriceLevels.{PriceLevels, price_levels, cell_of, best}
use nasdaq_itch_trading_syst.Book.PriceLevels.Top.{IsTop}
use nasdaq_itch_trading_syst.Book.PriceLevels.Cached.{reduce_level-Top, remove_level-Top}
use nasdaq_itch_trading_syst.Book.PriceLevels.Entering.{add_level-Top}
use nasdaq_itch_trading_syst.Book.PriceLevels.Best.{IsBest, best_correct}
use nasdaq_itch_trading_syst.Book.PriceLevels.Sides.{
  add_level-side, reduce_level-side, remove_level-side,
}
use nasdaq_itch_trading_syst.Book.PriceLevels.Update.{add_level, reduce_level, remove_level}
use nasdaq_itch_trading_syst.Book.PriceLevels.WellFormed.{IsSide, level_at}
use nasdaq_itch_trading_syst.Book.PriceLevels.FarWrites.{level_at-far, level_at-cell}
use nasdaq_itch_trading_syst.Book.PriceLevels.Shares.{level_of, reduce_level_correct}
use nasdaq_itch_trading_syst.Book.PriceLevels.Adding.{add_level_correct}
use nasdaq_itch_trading_syst.Book.PriceLevels.Removing.{remove_level_correct}
use nasdaq_itch_trading_syst.Book.PriceLevels.Vacating.{IsNarrow, Moves-IsNarrow}

-- A call of `add`, `reduce` or `remove` with its price and shares.
pub data Change : Type 0 where
  add_change : ℕ → ℕ → Change
  reduce_change : ℕ → ℕ → Change
  remove_change : ℕ → ℕ → Change

unfoldable pub change : Change → PriceLevels → PriceLevels
unfolding add_level reduce_level remove_level
change (add_change p n) t = add_level t p n
change (reduce_change p n) t = reduce_level t p n
change (remove_change p n) t = remove_level t p n

unfoldable pub change_all : List Change → PriceLevels → PriceLevels
unfolding change
change_all [] t = t
change_all (c ∷ cs) t = change_all cs (change c t)

-- A side as a caller sees it: a level at each price, empty where there is none.
abbrev pub Levels : Type 0
Levels = ℕ → Level

abbrev pub update : Levels → ℕ → Level → Levels
update m p l q = if p == q then l else m q

abbrev pub spec : Change → Levels → Levels
spec (add_change p n) m = update m p (level_of p (u64 ((m p).shares + n)) (u32 ((m p).orders + 1)))
spec (reduce_change p n) m = update m p (level_of p (sub_u64 (m p).shares n) (m p).orders)
spec (remove_change p n) m = update m p (
    if (m p).orders == 1
    then empty_level
    else level_of p (sub_u64 (m p).shares n) (sub_u32 (m p).orders 1))

abbrev pub spec_all : List Change → Levels → Levels
spec_all [] m = m
spec_all (c ∷ cs) m = spec_all cs (spec c m)

-- An order is added at a price of 32 bits, where its count does not wrap; shares and orders are
-- taken off where there are orders.
abbrev pub Permitted : Change → Levels → Type 0
Permitted (add_change p n) m = (p < 2 ^ 32) × ((m p).orders + 1 < 2 ^ 32)
Permitted (reduce_change p n) m = ((m p).orders == 0) ≡ false
Permitted (remove_change p n) m = ((m p).orders == 0) ≡ false

abbrev pub AllPermitted : List Change → Levels → Type 0
AllPermitted [] m = Unit
AllPermitted (c ∷ cs) m = Permitted c m × AllPermitted cs (spec c m)

record Refines (bid_or_ask : Side) (t : PriceLevels) (m : Levels) : Type 0 where
  pub side : IsSide t
  pub top : IsTop t
  pub sided : t.side ≡ bid_or_ask
  pub narrow : IsNarrow t
  pub same : level_at t ≡ m

change_correct :
    (c : Change) (t : PriceLevels)
    → IsSide t
    → IsNarrow t
    → IsTop t
    → Permitted c (level_at t)
    → Refines t.side (change c t) (spec c (level_at t))
unfolding change IsNarrow
change_correct (add_change p n) t s narrow top (small, room) =
    let m = add_level_correct t p n s small room in
    record {
      side = m.side;
      top = add_level-Top t p n s small room top;
      sided = add_level-side t.side t p n refl;
      narrow = Moves-IsNarrow m small (omega arith) narrow;
      same = fun_ext m.at;
    }
change_correct (reduce_change p n) t s narrow top live =
    let m = reduce_level_correct t p n s live in
    record {
      side = m.side;
      top = reduce_level-Top t p n s live top;
      sided = reduce_level-side t.side t p n refl;
      narrow = Moves-IsNarrow m ((narrow p live).0) ((narrow p live).1) narrow;
      same = fun_ext m.at;
    }
change_correct (remove_change p n) t s narrow top live =
    let m = remove_level_correct t p n s narrow live in
    record {
      side = m.side;
      top = remove_level-Top t p n s narrow live top;
      sided = remove_level-side t.side t p n refl;
      narrow = Moves-IsNarrow m ((narrow p live).0) (few ((level_at t p).orders == 1)) narrow;
      same = fun_ext m.at;
    }
  where
    few :
        (b : Bool)
        → (if b
            then empty_level
            else level_of p
                (sub_u64 (level_at t p).shares n)
                (sub_u32 (level_at t p).orders 1)).orders
          < 2 ^ 32
    few true = omega arith
    few false = omega arith

change_all_correct :
    (side : Side) (cs : List Change) (t : PriceLevels) (m : Levels)
    → Refines side t m
    → AllPermitted cs m
    → Refines side (change_all cs t) (spec_all cs m)
unfolding change_all
change_all_correct side [] t m r h = r
change_all_correct side (c ∷ cs) t m r h =
    let step =
      change_correct c t r.side r.narrow r.top
        (subst (λ (m : Levels). Permitted c m) (sym r.same) h.0) in
    change_all_correct side cs (change c t) (spec c m)
      (subst (λ (b : Side). Refines b (change c t) (spec c m)) r.sided
        (subst (λ (m : Levels). Refines t.side (change c t) (spec c m)) r.same step))
      h.1

-- A new side has no levels.
price_levels-Refines :
    (side : Side) (reference_price span : ℕ)
    → span / 64 * 64 ≡ span
    → Refines side (price_levels side reference_price span) (λ q. empty_level)
unfolding IsNarrow get price_levels
price_levels-Refines side reference_price span words = record {
  top = λ i. refl;
  sided = refl;
  side = record {
    span_words = words;
    cell_count = inl refl;
    bit_count = refl;
    words = tt;
    marks = λ i. test_bit-false [] i (zero_word 0 (i % 64) refl);
    blank = λ i e. refl;
    placed = λ i e. absurd (ground (arith, e));
    sorted = tt;
    far_placed = λ k l e. absurd (ground (arith, e));
    loose = λ k l b e. absurd (ground (arith, e));
  };
  narrow = λ q live. absurd (ground (arith, live, empty q));
  same = fun_ext empty;
}
  where
    t : PriceLevels
    t = price_levels side reference_price span

    empty : (q : ℕ) → level_at t q ≡ empty_level
    empty q = elim (Option-cases (cell_of t q)) [
      | inl e ↦ level_at-far t q e
      | inr (i, e) ↦ level_at-cell t q i e
    ]

-- After any permitted sequence of `add`, `reduce` and `remove` on a new side whose span is a
-- multiple of 64, the side satisfies its invariant, and has at every price the level that its
-- specification gives, wherever the level is kept and whenever the window of cells has moved; an
-- order is to be added at a price of 32 bits at which the count does not wrap, and shares and
-- orders are to be taken off a price with orders.
pub change_all-refines :
    (side : Side) (reference_price span : ℕ) (cs : List Change)
    → span / 64 * 64 ≡ span
    → AllPermitted cs (λ q. empty_level)
    → IsSide (change_all cs (price_levels side reference_price span))
      × ((q : ℕ)
          → level_at (change_all cs (price_levels side reference_price span)) q
            ≡ spec_all cs (λ q. empty_level) q)
change_all-refines side reference_price span cs words permitted =
    let r =
      change_all_correct side cs (price_levels side reference_price span) (λ q. empty_level)
        (price_levels-Refines side reference_price span words) permitted in
    (r.side, λ q. ap (λ (m : Levels). m q) r.same)

-- After any permitted sequence of `add`, `reduce` and `remove` on a new side whose span is a
-- multiple of 64, `best` gives the best of all the levels that the specification gives, which is
-- the one with the highest price for bids and the lowest for asks, and nothing if there is none.
pub change_all-best :
    (side : Side) (reference_price span : ℕ) (cs : List Change)
    → span / 64 * 64 ≡ span
    → AllPermitted cs (λ q. empty_level)
    → IsBest side
        (spec_all cs (λ q. empty_level))
        (best (change_all cs (price_levels side reference_price span)))
change_all-best side reference_price span cs words permitted =
    let t = change_all cs (price_levels side reference_price span) in
    let r =
      change_all_correct side cs (price_levels side reference_price span) (λ q. empty_level)
        (price_levels-Refines side reference_price span words) permitted in
    subst (λ (b : Side). IsBest b (spec_all cs (λ q. empty_level)) (best t)) r.sided
      (subst (λ (m : Levels). IsBest t.side m (best t)) r.same (best_correct t r.side r.top))
