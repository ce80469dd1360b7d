-- ===== src/OrderIndex/Growth.antt =====
-- The doubling rebuild of src/common/flat_hash_map.h: `grow` ends, doubles the table and keeps
-- what it holds.
use nasdaq_itch_trading_syst.Base.{
  ℕ, suc, ◌+◌, ◌-◌, ◌*◌, ◌/◌, ◌^◌, ◌≤◌, ◌<◌, ◌≡◌, ◌≢◌, ◌↔◌, inl, inr, refl, ap, sym, subst, ◌∙◌,
  List, [], ◌∷◌, some, length, replicate, length-replicate, ◌==◌, if◌then◌else◌, u64, arith,
}
use nasdaq_itch_trading_syst.OrderIndex.{
  Slot, Order, OrderIndex, empty_slot, rebuild, next_capacity, grow,
}
use nasdaq_itch_trading_syst.OrderIndex.Ring.{IsRing, ring_exponent}
use native.Mathlib.Nat.{pow-suc}
use nasdaq_itch_trading_syst.OrderIndex.Slots.{one, live, weight, weight-replicate, slot-replicate}
use nasdaq_itch_trading_syst.OrderIndex.Tables.{refs, IsTable, empty_IsTable}
use nasdaq_itch_trading_syst.OrderIndex.Valid.{IsValid, unused, used, Maps}
use nasdaq_itch_trading_syst.OrderIndex.Rebuild.{Rebuilt, rebuild_lem}

live_nil : live [] ≡ 0
unfolding weight
live_nil = refl

next_capacity_nil : next_capacity [] ≡ 256
unfolding next_capacity
next_capacity_nil = refl

-- What `grow` leaves: a valid table with the same map and room for one more.
pub record Grown (t g : OrderIndex) : Type 0 where
  pub valid : IsValid g
  pub used_table : IsTable g.mask g.slots
  pub not_full : live g.slots < length g.slots
  pub size : g.size ≡ t.size
  pub counted : live g.slots ≡ g.size
  pub roomy : g.size + 1 ≤ g.grow_at
  pub threshold : g.grow_at ≡ length g.slots - length g.slots / 4
  pub wide : 256 ≤ length g.slots
  pub capacity : length g.slots ≤ 256 + 2 * length t.slots
  pub weights : (w : Slot → ℕ) → weight w g.slots ≡ weight w t.slots
  pub same : (r : ℕ) (o : Order) → r ≢ 0 → Maps g r o ↔ Maps t r o

abbrev grown : OrderIndex → List Slot → ℕ → OrderIndex
grown t ys next = record {
  slots = ys;
  mask = next - 1;
  size = live ys;
  grow_at = next - next / 4;
  rehashes = if length t.slots == 0 then t.rehashes else t.rehashes + 1;
}

-- The rebuild into `next` empty slots, once it has ended.
grown_lem :
    (t : OrderIndex) (next : ℕ)
    → next_capacity t.slots ≡ next
    → 256 ≤ next
    → next ≤ 256 + 2 * length t.slots
    → live t.slots ≡ t.size
    → t.size + 1 ≤ next - next / 4
    → Rebuilt (next - 1) t.slots (replicate next empty_slot) (live (replicate next empty_slot))
    → (g : OrderIndex) × (grow t ≡ some g) × Grown t g
unfolding grow
grown_lem t next e wide near counted room (ys, runs, table, width, count, same) =
    let len : length ys ≡ next = width ∙ length-replicate next empty_slot in
    let runs' : rebuild t.slots (next - 1) (replicate next empty_slot) 0 ≡ some (ys, live ys) =
      subst (λ z. rebuild t.slots (next - 1) (replicate next empty_slot) z ≡ some (ys, live ys))
        (weight-replicate one next) runs in
    let total : live ys ≡ t.size = omega (arith, count one, weight-replicate one next) in
    (
      grown t ys next,
      rw (e, runs') refl,
      record {
        valid = used table refl (omega arith) (omega arith) (omega arith);
        used_table = table;
        not_full = omega arith;
        size = total;
        counted = refl;
        roomy = omega arith;
        threshold = omega arith;
        wide = omega arith;
        capacity = omega arith;
        weights = λ w. omega (arith, count w, weight-replicate w next);
        same = λ r o ne. (
          (λ h. elim ((same r o ne).0 h) [
            | inl (i, hi, e') ↦ absurd (
                ne (
                  sym (ap (λ (s : Slot). s.ref) e')
                  ∙ ap (λ (s : Slot). s.ref) (slot-replicate next i)))
            | inr there ↦ there
          ]),
          λ h. (same r o ne).1 (inr h),
        );
      },
    )

grow_into :
    (t : OrderIndex) (next : ℕ)
    → next_capacity t.slots ≡ next
    → IsRing (next - 1) next
    → 256 ≤ next
    → next ≤ 256 + 2 * length t.slots
    → live t.slots ≡ t.size
    → t.size + 1 ≤ next - next / 4
    → ((i j : ℕ)
        → i < length t.slots
        → j < length t.slots
        → refs t.slots i ≢ 0
        → refs t.slots i ≡ refs t.slots j
        → i ≡ j)
    → (g : OrderIndex) × (grow t ≡ some g) × Grown t g
grow_into t next e ring wide near counted room distinct =
    let fresh = replicate next empty_slot in
    let len : length fresh ≡ next = length-replicate next empty_slot in
    grown_lem t next e wide near counted room (
      rebuild_lem (next - 1) t.slots fresh (empty_IsTable (next - 1) next ring)
        (record {
          distinct = distinct;
          apart = λ i hi ne j hj z. ne (sym z ∙ ap (λ (s : Slot). s.ref) (slot-replicate next j));
        })
        (omega (arith, len, weight-replicate one next)))

next_capacity_lem : (xs : List Slot) → 0 < length xs → next_capacity xs ≡ u64 (length xs * 2)
unfolding next_capacity
next_capacity_lem [] h = absurd (omega arith)
next_capacity_lem (s ∷ xs) h = refl

double-IsRing : (mask n : ℕ) → IsRing mask n → n ≤ 2 ^ 61 → IsRing (n * 2 - 1) (n * 2)
double-IsRing mask n r small = record {
  k = suc r.k;
  power = omega (arith, pow-suc 2 r.k, r.power);
  small = ring_exponent mask n r small;
  masked = refl;
}

-- `grow` ends on any valid table of at most 2 ^ 61 slots.
pub grow_lem :
    (t : OrderIndex)
    → IsValid t
    → length t.slots ≤ 2 ^ 61
    → (g : OrderIndex) × (grow t ≡ some g) × Grown t g
grow_lem t (unused e s a) small =
    let none_live : live t.slots ≡ 0 = ap live e ∙ live_nil in
    grow_into t 256 (ap next_capacity e ∙ next_capacity_nil)
      (record { k = 8; power = refl; small = omega arith; masked = refl }) (omega arith)
      (omega arith) (none_live ∙ sym s) (omega arith)
      (λ i j hi hj ne d. absurd (omega (arith, hi, ap length e)))
grow_lem t (used table count full threshold wide) small =
    let n = length t.slots in
    let cap : u64 (n * 2) ≡ n * 2 = omega arith in
    grow_into t (n * 2) (next_capacity_lem t.slots (omega arith) ∙ cap)
      (double-IsRing t.mask n table.ring small) (omega arith) (omega arith) count (omega arith)
      table.chains.unique
