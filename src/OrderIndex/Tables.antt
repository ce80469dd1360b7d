-- ===== src/OrderIndex/Tables.antt =====
-- A table of slots of src/common/flat_hash_map.h that satisfies the chain invariant, and what it
-- holds.
use nasdaq_itch_trading_syst.Base.{
  ℕ, ◌+◌, ◌<◌, ◌≡◌, ◌≢◌, ◌↔◌, ◌⊎◌, inl, inr, ap, sym, ◌∙◌, List, length, set, replicate, arith,
  length-set, length-replicate,
}
use native.Mathlib.Decide.{ℕ_discrete}
use nasdaq_itch_trading_syst.OrderIndex.{Slot, Order, empty_slot, slot, home}
use nasdaq_itch_trading_syst.OrderIndex.Ring.{IsRing}
use nasdaq_itch_trading_syst.OrderIndex.Chains.{IsChained, IsFree, IsWrite, write-IsChained}
use nasdaq_itch_trading_syst.OrderIndex.Slots.{slot-set, slot-replicate, weight, weight-set}

abbrev pub refs : List Slot → ℕ → ℕ
refs xs i = (slot xs i).ref

pub record IsTable (mask : ℕ) (xs : List Slot) : Type 0 where
  pub ring : IsRing mask (length xs)
  pub chains : IsChained (length xs) (home mask) (refs xs)

-- The table maps the reference to the order.
abbrev pub Holds : List Slot → ℕ → Order → Type 0
Holds xs r o = (i : ℕ) × (i < length xs) × (slot xs i ≡ record { ref = r; order = o })

abbrev pub IsAbsent : List Slot → ℕ → Type 0
IsAbsent xs r = (i : ℕ) → i < length xs → refs xs i ≢ r

pub slot-set_self : (xs : List Slot) (i : ℕ) (s : Slot) → i < length xs → slot (set xs i s) i ≡ s
slot-set_self xs i s h = slot-set xs i i s h ∙ ground arith

pub slot-set_ne :
    (xs : List Slot) (i j : ℕ) (s : Slot) → i < length xs → j ≢ i → slot (set xs i s) j ≡ slot xs j
slot-set_ne xs i j s h ne = slot-set xs i j s h ∙ ground arith

pub set-IsWrite :
    (xs : List Slot) (i : ℕ) (s : Slot)
    → i < length xs
    → IsWrite (length xs) (refs xs) (refs (set xs i s)) i s.ref
set-IsWrite xs i s h = record {
  written = ap (λ (t : Slot). t.ref) (slot-set_self xs i s h);
  kept = λ j hj ne. ap (λ (t : Slot). t.ref) (slot-set_ne xs i j s h ne);
}

pub empty_IsTable : (mask n : ℕ) → IsRing mask n → IsTable mask (replicate n empty_slot)
empty_IsTable mask n ring = record {
  ring = rw (length-replicate n empty_slot) ring;
  chains = record {
    chained = λ i p hi hp ne d. absurd (ne (ap (λ (s : Slot). s.ref) (slot-replicate n i)));
    unique = λ i p hi hp ne e. absurd (ne (ap (λ (s : Slot). s.ref) (slot-replicate n i)));
  };
}

-- What a write of a live slot over an empty one does to a table.
module _ {mask : ℕ} {xs : List Slot} (t : IsTable mask xs) (s : Slot) (i : ℕ) (live_ref : s.ref ≢ 0)
    (absent : IsAbsent xs s.ref) (free : IsFree (length xs) (home mask) (refs xs) s.ref i) where
  pub set-IsTable : IsTable mask (set xs i s)
  set-IsTable = record {
    ring = rw (length-set xs i s) t.ring;
    chains = rw (length-set xs i s) (
        write-IsChained (length xs) (home mask) t.chains live_ref absent free
          (set-IsWrite xs i s free.inside));
  }

  pub weight-set_free : (w : Slot → ℕ) → weight w (set xs i s) ≡ weight w xs + w s
  weight-set_free w = ground (arith, weight-set w xs i s free.inside, free.empty)

  -- The new table holds the new order, and otherwise what it held.
  pub Holds-set :
      (r : ℕ) (o : Order)
      → r ≢ 0
      → Holds (set xs i s) r o ↔ ((s ≡ record { ref = r; order = o }) ⊎ Holds xs r o)
  Holds-set r o ne = (there, back)
    where
      there : Holds (set xs i s) r o → (s ≡ record { ref = r; order = o }) ⊎ Holds xs r o
      there (j, hj, e) = elim (ℕ_discrete j i) [
        | yes same ↦
            inl (sym (slot-set_self xs i s free.inside) ∙ ap (slot (set xs i s)) (sym same) ∙ e)
        | no other ↦
            inr (
              j,
              omega (arith, length-set xs i s),
              sym (slot-set_ne xs i j s free.inside other) ∙ e,
            )
      ]

      back : (s ≡ record { ref = r; order = o }) ⊎ Holds xs r o → Holds (set xs i s) r o
      back (inl e) =
          (i, omega (arith, length-set xs i s, free.inside), slot-set_self xs i s free.inside ∙ e)
      back (inr (j, hj, e)) =
          let other : j ≢ i =
            λ z. ne (sym (ap (λ (t : Slot). t.ref) e) ∙ ap (refs xs) z ∙ free.empty) in
          (j, omega (arith, length-set xs i s), slot-set_ne xs i j s free.inside other ∙ e)
