-- ===== src/OrderIndex/Slots.antt =====
-- The slots of src/common/flat_hash_map.h as a list: reads after writes, the number of live slots,
-- and the empty slot that a table which is not full must have.
use nasdaq_itch_trading_syst.Base.{
  ℕ, zero, suc, ◌+◌, ◌<◌, ◌≡◌, ◌≢◌, refl, List, [], ◌∷◌, length, set, replicate, ◌==◌,
  if◌then◌else◌, arith,
}
use native.Mathlib.Decide.{ℕ_discrete}
use nasdaq_itch_trading_syst.OrderIndex.{Slot, empty_slot, slot}

pub slot-set :
    (xs : List Slot) (i j : ℕ) (s : Slot)
    → i < length xs
    → slot (set xs i s) j ≡ (if i == j then s else slot xs j)
slot-set [] i j s h = absurd (omega arith)
slot-set (x ∷ xs) zero zero s h = refl
slot-set (x ∷ xs) zero (suc j) s h = ground arith
slot-set (x ∷ xs) (suc i) zero s h = ground arith
slot-set (x ∷ xs) (suc i) (suc j) s h = ground (arith, slot-set xs i j s)

pub slot-replicate : (n i : ℕ) → slot (replicate n empty_slot) i ≡ empty_slot
slot-replicate zero i = refl
slot-replicate (suc n) zero = refl
slot-replicate (suc n) (suc i) = slot-replicate n i

module _ (w : Slot → ℕ) where
  abbrev pub weight_slot : Slot → ℕ
  weight_slot s = if s.ref == 0 then 0 else w s

  -- The sum of a measure over the live slots.
  unfoldable pub weight : List Slot → ℕ
  weight [] = 0
  weight (s ∷ xs) = weight_slot s + weight xs

  pub weight-set :
      (xs : List Slot) (i : ℕ) (s : Slot)
      → i < length xs
      → weight (set xs i s) + weight_slot (slot xs i) ≡ weight xs + weight_slot s
  unfolding weight
  weight-set [] i s h = absurd (omega arith)
  weight-set (x ∷ xs) zero s h = omega arith
  weight-set (x ∷ xs) (suc i) s h = omega (arith, weight-set xs i s (omega arith))

  pub weight-replicate : (n : ℕ) → weight (replicate n empty_slot) ≡ 0
  unfolding weight
  weight-replicate zero = refl
  weight-replicate (suc n) = omega (arith, weight-replicate n)

-- The number of live slots.
abbrev pub one : Slot → ℕ
one s = 1

abbrev pub live : List Slot → ℕ
live xs = weight one xs

-- A table that is not full has an empty slot.
pub empty_slot_exists :
    (xs : List Slot) → live xs < length xs → (i : ℕ) × (i < length xs) × ((slot xs i).ref ≡ 0)
unfolding weight
empty_slot_exists [] h = absurd (omega arith)
empty_slot_exists (x ∷ xs) h = elim (ℕ_discrete x.ref 0) [
  | yes e ↦ (0, omega arith, e)
  | no ne ↦ let (i, lt, e) = empty_slot_exists xs (ground arith) in (suc i, omega arith, e)
]

pub live-pos : (xs : List Slot) (i : ℕ) → i < length xs → (slot xs i).ref ≢ 0 → 0 < live xs
unfolding weight
live-pos [] i h ne = absurd (omega arith)
live-pos (x ∷ xs) zero h ne = ground arith
live-pos (x ∷ xs) (suc i) h ne = omega (arith, live-pos xs i (omega arith) ne)

pub live_at : (xs : List Slot) → live xs ≡ 0 → (i : ℕ) → (slot xs i).ref ≡ 0
unfolding weight
live_at [] h i = refl
live_at (x ∷ xs) h zero = ground arith
live_at (x ∷ xs) h (suc i) = live_at xs (omega arith) i
