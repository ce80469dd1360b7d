-- ===== src/Book/PriceLevels/Latest.antt =====
-- The level that a list of levels of src/book/price_levels.cc has at a price.
use nasdaq_itch_trading_syst.Base.{
  ℕ, ◌≡◌, refl, ap, sym, subst, ◌∙◌, Bool, true, false, Option, none, some, List, [], ◌∷◌, ◌++◌,
  All, ◌==◌, if◌then◌else◌, Bool-cases, ==_iff, ==_refl, inl, inr,
}
use nasdaq_itch_trading_syst.Book.Level.{Level}
use nasdaq_itch_trading_syst.Book.SortedMap.{SortedMap, get, values}
use nasdaq_itch_trading_syst.Book.SortedMap.Lookup.{IsSorted, Over-get, get-tail}
use nasdaq_itch_trading_syst.Book.Bitmap.Enumerate.{has, Distinct}
use nasdaq_itch_trading_syst.Book.PriceLevels.{PriceLevels, cell, cell_of}
use nasdaq_itch_trading_syst.Book.PriceLevels.Writes.{cell_of-injective, not_same}
use nasdaq_itch_trading_syst.Book.PriceLevels.Gather.{take_cells, read_cells, take_cells-read}

-- The last of the levels at a price, if there is any.
unfoldable pub latest : List Level → ℕ → Level → Level
latest [] p q = q
latest (l ∷ ls) p q = latest ls p (if l.price == p then l else q)

pub latest-append :
    (ls ms : List Level) (p : ℕ) (q : Level) → latest (ls ++ ms) p q ≡ latest ms p (latest ls p q)
unfolding latest
latest-append [] ms p q = refl
latest-append (l ∷ ls) ms p q = latest-append ls ms p (if l.price == p then l else q)

-- Each of the positions has a level at the price that belongs there.
abbrev pub Fits : PriceLevels → List ℕ → Type 0
Fits t = All (λ (i : ℕ). cell_of t (cell t.cells i).price ≡ some i)

-- What the cells have at a price, if they are read at some positions.
unfoldable pub cell_at : PriceLevels → List ℕ → Option ℕ → Level → Level
cell_at t is none q = q
cell_at t is (some i) q = if has i is then cell t.cells i else q

cell_at-first :
    (t : PriceLevels) (i : ℕ) (is : List ℕ) (p : ℕ) (q : Level)
    → cell_of t (cell t.cells i).price ≡ some i
    → (o : Option ℕ) → cell_of t p ≡ o
    → cell_at t is o (if (cell t.cells i).price == p then cell t.cells i else q)
      ≡ cell_at t (i ∷ is) o q
unfolding cell_at
cell_at-first t i is p q fit o e = elim (Bool-cases ((cell t.cells i).price == p)) [
  | inl same ↦
      let there : cell_of t p ≡ some i =
        subst (λ (r : ℕ). cell_of t r ≡ some i) ((==_iff (cell t.cells i).price p).0 same) fit in
      subst
        (λ (o : Option ℕ).
          cell_at t is o (if (cell t.cells i).price == p then cell t.cells i else q)
          ≡ cell_at t (i ∷ is) o q)
        (sym there ∙ e) (rw (same, ==_refl i) (both_ways (has i is)))
  | inr ne ↦ rw ne (other o e ne)
]
  where
    both_ways : (b : Bool) → (if b then cell t.cells i else cell t.cells i) ≡ cell t.cells i
    both_ways true = refl
    both_ways false = refl

    other :
        (o : Option ℕ)
        → cell_of t p ≡ o
        → ((cell t.cells i).price == p) ≡ false
        → cell_at t is o q ≡ cell_at t (i ∷ is) o q
    other none e ne = refl
    other (some k) e ne = elim (Bool-cases (i == k)) [
      | inl same ↦ absurd (
          not_same (cell t.cells i).price p ne (
            cell_of-injective t (cell t.cells i).price p k (fit ∙ ap some ((==_iff i k).0 same)) e))
      | inr apart ↦ rw apart refl
    ]

latest-read :
    (t : PriceLevels) (is : List ℕ) (p : ℕ) (q : Level)
    → Fits t is
    → latest (read_cells is t.cells) p q ≡ cell_at t is (cell_of t p) q
unfolding latest read_cells cell_at
latest-read t [] p q fits = nothing (cell_of t p)
  where
    nothing : (o : Option ℕ) → q ≡ cell_at t [] o q
    nothing none = refl
    nothing (some i) = refl
latest-read t (i ∷ is) p q fits =
    latest-read t is p (if (cell t.cells i).price == p then cell t.cells i else q) fits.1
    ∙ cell_at-first t i is p q fits.0 (cell_of t p) refl

pub latest-take :
    (t : PriceLevels) (is : List ℕ) (p : ℕ) (q : Level)
    → Distinct is
    → Fits t is
    → latest (take_cells is t.cells).0 p q ≡ cell_at t is (cell_of t p) q
latest-take t is p q d fits =
    ap (λ (ls : List Level). latest ls p q) (take_cells-read is t.cells d)
    ∙ latest-read t is p q fits

abbrev pub or_else : Option Level → Level → Level
or_else none q = q
or_else (some l) q = l

pub values-All :
    (P : Level → Type 0) (m : SortedMap)
    → IsSorted m
    → ((k : ℕ) (l : Level) → get m k ≡ some l → P l)
    → All P (values m)
unfolding values get
values-All P [] s h = tt
values-All P ((k, l) ∷ m) s h =
    (h k l (rw (==_refl k) refl), values-All P m s.1 (λ j l' e. h j l' (get-tail m k l j l' s e)))

pub latest-values :
    (m : SortedMap) (p : ℕ) (q : Level)
    → IsSorted m
    → ((k : ℕ) (l : Level) → get m k ≡ some l → l.price ≡ k)
    → latest (values m) p q ≡ or_else (get m p) q
unfolding latest values get
latest-values [] p q s priced = refl
latest-values ((k, l) ∷ m) p q s priced =
    let at_k : l.price ≡ k = priced k l (rw (==_refl k) refl) in
    let tail =
      λ (j : ℕ) (l' : Level) (e : get m j ≡ some l'). priced j l' (get-tail m k l j l' s e) in
    latest-values m p (if l.price == p then l else q) s.1 tail
    ∙ rw at_k (elim (Bool-cases (k == p)) [
      | inl same ↦
          let e = subst (λ (r : ℕ). get m r ≡ none) ((==_iff k p).0 same) (Over-get m k s.1 s.0) in
          rw (same, get, e) refl
      | inr ne ↦ rw ne refl
    ])

All-has : (P : ℕ → Type 0) (is : List ℕ) → ((i : ℕ) → has i is ≡ true → P i) → All P is
All-has P [] h = tt
All-has P (i ∷ is) h = (
  h i (rw (==_refl i) refl),
  All-has P is (λ j e. h j (elim (Bool-cases (i == j)) [ inl a ↦ rw a refl | inr a ↦ rw a e ])),
)

pub Fits-has :
    (t : PriceLevels) (is : List ℕ)
    → ((i : ℕ) → has i is ≡ true → cell_of t (cell t.cells i).price ≡ some i)
    → Fits t is
Fits-has t is h = All-has (λ (i : ℕ). cell_of t (cell t.cells i).price ≡ some i) is h

read_cells-All :
    (P : Level → Type 0) (is : List ℕ) (cells : List Level)
    → All (λ (i : ℕ). P (cell cells i)) is
    → All P (read_cells is cells)
unfolding read_cells
read_cells-All P [] cells h = tt
read_cells-All P (i ∷ is) cells h = (h.0, read_cells-All P is cells h.1)

pub take_cells-All :
    (P : Level → Type 0) (is : List ℕ) (cells : List Level)
    → Distinct is
    → ((i : ℕ) → has i is ≡ true → P (cell cells i))
    → All P (take_cells is cells).0
take_cells-All P is cells d h =
    subst (λ (ls : List Level). All P ls) (sym (take_cells-read is cells d))
      (read_cells-All P is cells (All-has (λ (i : ℕ). P (cell cells i)) is h))
