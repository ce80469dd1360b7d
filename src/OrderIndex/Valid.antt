-- ===== src/OrderIndex/Valid.antt =====
-- The invariant of the class in src/common/flat_hash_map.h, and the map that its table stands for.
use nasdaq_itch_trading_syst.Base.{ℕ, ◌-◌, ◌/◌, ◌≤◌, ◌<◌, ◌≡◌, refl, [], length, arith}
use nasdaq_itch_trading_syst.OrderIndex.{Order, OrderIndex, new}
use nasdaq_itch_trading_syst.OrderIndex.Slots.{live}
use nasdaq_itch_trading_syst.OrderIndex.Tables.{IsTable, Holds}

-- Before the first insert there are no slots, and the first insert grows. After it the size is the
-- number of live slots, at most three quarters of the capacity.
pub data IsValid (t : OrderIndex) : Type 0 where
  unused : t.slots ≡ [] → t.size ≡ 0 → t.grow_at ≡ 0 → IsValid t
  used :
      IsTable t.mask t.slots
      → live t.slots ≡ t.size
      → t.size ≤ t.grow_at
      → t.grow_at ≡ length t.slots - length t.slots / 4
      → 256 ≤ length t.slots
      → IsValid t

-- The map: every reference of a live slot and its order.
abbrev pub Maps : OrderIndex → ℕ → Order → Type 0
Maps t r o = Holds t.slots r o

pub new-IsValid : IsValid new
unfolding new
new-IsValid = unused refl refl refl

-- The table is never full.
pub room-used :
    (t : OrderIndex)
    → live t.slots ≡ t.size
    → t.size ≤ t.grow_at
    → t.grow_at ≡ length t.slots - length t.slots / 4
    → 256 ≤ length t.slots
    → live t.slots < length t.slots
room-used t a b c d = omega arith
