-- ===== src/Book/SortedMap.antt =====
-- `std::map<std::uint32_t, Level>` of src/book/price_levels.h: pairs with increasing keys.
pub mod Lookup
use nasdaq_itch_trading_syst.Base.{ℕ, Option, none, some, List, [], ◌∷◌, ltb, ◌==◌, if◌then◌else◌}
use nasdaq_itch_trading_syst.Book.Level.{Level, empty_level}

abbrev pub SortedMap : Type 0
SortedMap = List (ℕ × Level)

unfoldable pub get : SortedMap → ℕ → Option Level
get [] k = none
get ((k', l) ∷ m) k = if k' == k then some l else get m k

-- `m[k] = l`.
unfoldable pub put : SortedMap → ℕ → Level → SortedMap
put [] k l = (k, l) ∷ []
put ((k', l') ∷ m) k l =
    let rest = put m k l in
    if ltb k k' then (k, l) ∷ (k', l') ∷ m else if k == k' then (k, l) ∷ m else (k', l') ∷ rest

-- `m[k]` as a value: a missing key is entered with an empty level.
unfoldable pub get_or_empty : SortedMap → ℕ → Level
unfolding get
get_or_empty m k = elim (get m k) [ none ↦ empty_level | some l ↦ l ]

unfoldable pub remove_key : SortedMap → ℕ → SortedMap
remove_key [] k = []
remove_key ((k', l) ∷ m) k = let rest = remove_key m k in if k' == k then m else (k', l) ∷ rest

-- `*m.begin()` and `*m.rbegin()`, if there are any.
unfoldable pub first : SortedMap → Option (ℕ × Level)
first [] = none
first (e ∷ m) = some e

unfoldable pub last : SortedMap → Option (ℕ × Level)
last [] = none
last (e ∷ []) = some e
last (e ∷ e' ∷ m) = last (e' ∷ m)

-- The levels in the order of the keys.
unfoldable pub values : SortedMap → List Level
values [] = []
values ((k, l) ∷ m) = l ∷ values m
