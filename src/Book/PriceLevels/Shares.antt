-- ===== src/Book/PriceLevels/Shares.antt =====
-- What the operations of src/book/price_levels.cc do to the level at a price.
use nasdaq_itch_trading_syst.Base.{
  ℕ, ◌%◌, ◌<◌, ◌≡◌, ◌⊎◌, inl, inr, refl, ap, subst, ◌∙◌, arith, false, none, some, List, length,
  ◌==◌, ltb, get_or-outside, Option-cases, Bool-cases, sub_u64, ltb→lt, ltb→le,
}
use nasdaq_itch_trading_syst.Book.Level.{Level, empty_level}
use nasdaq_itch_trading_syst.Book.SortedMap.{get}
use nasdaq_itch_trading_syst.Book.PriceLevels.{PriceLevels, tick, no_base, cell, cell_of}
use nasdaq_itch_trading_syst.Book.PriceLevels.Update.{reduce_level}
use nasdaq_itch_trading_syst.Book.PriceLevels.WellFormed.{IsSide, settled, level_at}
use nasdaq_itch_trading_syst.Book.PriceLevels.Writes.{
  Moves, Moves-change, IsWrite, written_correct, cell_of-injective,
}
use nasdaq_itch_trading_syst.Book.PriceLevels.FarWrites.{
  put_far_correct, level_at-far, level_at-cell, or_empty,
}

blank_live : ((0 == 0) ≡ false) → ⊥
blank_live e = ground arith

pub occupied_inside :
    (cells : List Level) (i : ℕ) → ((cell cells i).orders == 0) ≡ false → i < length cells
occupied_inside cells i live = elim (Bool-cases (ltb i (length cells))) [
  | inl lt ↦ ltb→lt i (length cells) lt
  | inr ge ↦ absurd (
      blank_live (
        subst (λ (l : Level). (l.orders == 0) ≡ false)
          (get_or-outside cells i empty_level (ltb→le i (length cells) ge)) live))
]

-- An occupied cell that is written again at its price.
pub rewrite_IsWrite :
    (t : PriceLevels) (i shares orders : ℕ)
    → IsSide t
    → ((cell t.cells i).orders == 0) ≡ false
    → (orders == 0) ≡ false
    → IsWrite t i
        (record { price = (cell t.cells i).price; shares = shares; orders = orders })
        t.bits
rewrite_IsWrite t i shares orders s live o = record {
  inside = occupied_inside t.cells i live;
  blank = λ z. absurd (ground arith);
  placed = s.placed i live;
  words = s.words;
  bit_count = refl;
  here = s.marks i ∙ rw (live, o) refl;
  others = λ j ne. refl;
}

pub cell_price :
    (t : PriceLevels) (price i : ℕ)
    → IsSide t
    → cell_of t price ≡ some i
    → ((cell t.cells i).orders == 0) ≡ false
    → (cell t.cells i).price ≡ price
cell_price t price i s e live =
    cell_of-injective t (cell t.cells i).price price i (s.placed i live) e

-- Where an occupied level stands.
unfoldable pub StandsAt : PriceLevels → ℕ → Type 0
StandsAt t price =
    ((i : ℕ) × (cell_of t price ≡ some i)
      × (level_at t price ≡ cell t.cells i)
      × ((cell t.cells i).price ≡ price)
      × (((cell t.cells i).orders == 0) ≡ false))
    ⊎ ((l : Level) × (cell_of t price ≡ none)
        × (get t.far price ≡ some l)
        × (level_at t price ≡ l)
        × (l.price ≡ price)
        × ((l.orders == 0) ≡ false)
        × (t.base_cents ≡ no_base → (price % tick == 0) ≡ false))

settled_live :
    (l : Level) → ((settled l).orders == 0) ≡ false → ((l.orders == 0) ≡ false) × (settled l ≡ l)
settled_live l h = elim (Bool-cases (l.orders == 0)) [
  | inl e ↦ absurd (ground (arith, e))
  | inr e ↦ (e, rw e refl)
]

pub level_at-StandsAt :
    (t : PriceLevels) (price : ℕ)
    → IsSide t
    → ((level_at t price).orders == 0) ≡ false
    → StandsAt t price
unfolding StandsAt
level_at-StandsAt t price s live = elim (Option-cases (cell_of t price)) [
  | inr (i, e) ↦
      let at = level_at-cell t price i e in
      let (o, whole) =
        settled_live (cell t.cells i) (subst (λ (l : Level). (l.orders == 0) ≡ false) at live) in
      inl (i, e, at ∙ whole, cell_price t price i s e o, o)
  | inl far ↦ elim (Option-cases (get t.far price)) [
    | inr (l, e) ↦
        let at = level_at-far t price far ∙ ap (λ o. settled (or_empty o)) e in
        let (p, o, c) = s.far_placed price l e in
        let (o', whole) = settled_live l (subst (λ (m : Level). (m.orders == 0) ≡ false) at live) in
        inr (l, far, e, at ∙ whole, p, o, λ base. s.loose price l base e)
    | inl e ↦ absurd (
        blank_live (
          subst (λ (m : Level). (m.orders == 0) ≡ false)
            (level_at-far t price far ∙ ap (λ o. settled (or_empty o)) e) live))
  ]
]

-- A level with other shares and orders.
abbrev pub level_of : ℕ → ℕ → ℕ → Level
level_of price shares orders = record { price = price; shares = shares; orders = orders }

pub settled_of :
    (l : Level) (price shares orders : ℕ)
    → l.price ≡ price
    → (orders == 0) ≡ false
    → settled (level_of l.price shares orders) ≡ level_of price shares orders
settled_of l price shares orders p o = rw o (ap (λ (q : ℕ). level_of q shares orders) p)

-- Taking shares off a level that has orders keeps the side well formed and changes the shares at
-- that price, on 64 bits, and no other level.
pub reduce_level_correct :
    (t : PriceLevels) (price shares : ℕ)
    → IsSide t
    → ((level_at t price).orders == 0) ≡ false
    → Moves t
        (reduce_level t price shares)
        price
        (level_of price (sub_u64 (level_at t price).shares shares) (level_at t price).orders)
unfolding reduce_level StandsAt
reduce_level_correct t price shares s live = elim (level_at-StandsAt t price s live) [
  | inl (i, e, at, p, o) ↦
      let l = cell t.cells i in
      let left : ℕ = sub_u64 l.shares shares in
      let m =
        written_correct t i (level_of l.price left l.orders) t.bits t.array_count t.best_cell s
          (rewrite_IsWrite t i left l.orders s o o) in
      rw (e, reduce_level, at) (Moves-change m p (settled_of l price left l.orders p o))
  | inr (l, far, e, at, p, o, loose) ↦
      let left : ℕ = sub_u64 l.shares shares in
      let m = put_far_correct t price (level_of price left l.orders) s far (refl, o, loose) in
      rw (far, e, reduce_level, at, p) m
]
