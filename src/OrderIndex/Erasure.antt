-- ===== src/OrderIndex/Erasure.antt =====
-- The slot that `erase` of src/common/flat_hash_map.h takes out, and the table without it.
use nasdaq_itch_trading_syst.Base.{
  ℕ, ◌+◌, ◌<◌, ◌≡◌, ◌≢◌, ◌↔◌, refl, ap, sym, subst, ◌∙◌, List, some, length, set, arith, length-set,
}
use native.Mathlib.Decide.{ℕ_discrete}
use nasdaq_itch_trading_syst.OrderIndex.{Slot, Order, empty_slot, slot, home, backward_shift}
use nasdaq_itch_trading_syst.OrderIndex.Ring.{dist, dist_self, dist_injective, dist-lt, home-lt}
use nasdaq_itch_trading_syst.OrderIndex.Holes.{IsHoled}
use nasdaq_itch_trading_syst.OrderIndex.Slots.{live, weight, weight-set, empty_slot_exists}
use nasdaq_itch_trading_syst.OrderIndex.Tables.{refs, IsTable, Holds, slot-set_self, slot-set_ne}
use nasdaq_itch_trading_syst.OrderIndex.Moves.{IsShifted}
use nasdaq_itch_trading_syst.OrderIndex.Shifts.{shift-Ends}

module _ {mask : ℕ} {xs : List Slot} (t : IsTable mask xs) (i : ℕ) (hi : i < length xs)
    (live_i : refs xs i ≢ 0) where
  abbrev emptied : List Slot
  emptied = set xs i empty_slot

  here : refs emptied i ≡ 0
  here = ap (λ (s : Slot). s.ref) (slot-set_self xs i empty_slot hi)

  there : (p : ℕ) → p ≢ i → refs emptied p ≡ refs xs p
  there p ne = ap (λ (s : Slot). s.ref) (slot-set_ne xs i p empty_slot hi ne)

  other : (p : ℕ) → refs emptied p ≢ 0 → p ≢ i
  other p live_p e = live_p (ap (refs emptied) e ∙ here)

  -- Where the loop starts nothing has been looked at, and only the new hole breaks chains.
  start_IsHoled : IsHoled (length xs) (home mask) (home-lt t.ring) (refs emptied) i i
  start_IsHoled = record {
    hole-lt = hi;
    j-lt = hi;
    open_hole = here;
    unique = λ a b ha hb live_a e.
        let na = other a live_a in
        let nb = other b (λ z. live_a (e ∙ z)) in
        t.chains.unique a b ha hb (λ z. live_a (there a na ∙ z))
          (sym (there a na) ∙ e ∙ there b nb);
    broken = λ a p ha hp live_a d zero_p.
        let na = other a live_a in
        elim (ℕ_discrete p i) [
          | yes e ↦ (
            e,
            ground (arith, dist_self (length xs) i, dist_injective (length xs) i a i hi ha hi),
          )
          | no np ↦ absurd (
              t.chains.chained a p ha hp (λ z. live_a (there a na ∙ z))
                (subst (λ r. dist (length xs) (home mask r) p < dist (length xs) (home mask r) a)
                  (there a na) d)
                (sym (there p np) ∙ zero_p))
        ];
    looked_at = λ p hp pos near. absurd (omega (arith, pos, near, dist_self (length xs) i));
  }

  -- `backward_shift` ends.
  pub erase_ends :
      live xs < length xs
      → (ys : List Slot) × (backward_shift (length xs) xs mask i i ≡ some ys)
        × IsShifted mask emptied ys
  erase_ends room =
      let (e, he, empty) = empty_slot_exists xs room in
      let ne : e ≢ i = λ z. live_i (ap (refs xs) (sym z) ∙ empty) in
      let zero_here = dist_self (length xs) i in
      let apart : dist (length xs) i e ≢ 0 =
        λ z. ne (dist_injective (length xs) i e i hi he hi (z ∙ sym zero_here)) in
      shift-Ends t.ring (length xs) xs i i e refl start_IsHoled he (there e ne ∙ empty)
        (omega arith) (omega (arith, dist-lt (length xs) i e hi he))

  -- The weight of the slot is gone.
  pub weight-emptied : (w : Slot → ℕ) → weight w emptied + w (slot xs i) ≡ weight w xs
  weight-emptied w = ground (arith, weight-set w xs i empty_slot hi)

  pub emptied_IsUnique : (ys : List Slot) → IsShifted mask emptied ys → IsTable mask ys
  emptied_IsUnique ys s =
      let width : length ys ≡ length xs = s.width ∙ length-set xs i empty_slot in
      record { ring = rw width t.ring; chains = rw s.width s.chains }

  -- Every other reference keeps its order.
  pub Holds-emptied :
      (r : ℕ) (o : Order) → r ≢ 0 → Holds emptied r o ↔ ((r ≢ refs xs i) × Holds xs r o)
  Holds-emptied r o ne = (forth, back)
    where
      forth : Holds emptied r o → (r ≢ refs xs i) × Holds xs r o
      forth (p, hp, e) =
          let rp : refs emptied p ≡ r = ap (λ (s : Slot). s.ref) e in
          let np = other p (λ z. ne (sym rp ∙ z)) in
          let hp' : p < length xs = omega (arith, length-set xs i empty_slot) in
          (
            (λ z. np (
                t.chains.unique p i hp' hi (λ y. ne (sym rp ∙ there p np ∙ y))
                  (sym (there p np) ∙ rp ∙ z))),
            (p, hp', sym (slot-set_ne xs i p empty_slot hi np) ∙ e),
          )

      back : (r ≢ refs xs i) × Holds xs r o → Holds emptied r o
      back (nr, (p, hp, e)) =
          let np : p ≢ i = λ z. nr (sym (ap (λ (s : Slot). s.ref) e) ∙ ap (refs xs) z) in
          (p, omega (arith, length-set xs i empty_slot), slot-set_ne xs i p empty_slot hi np ∙ e)
