-- ===== src/OrderIndex/Shifts.antt =====
-- `backward_shift` of src/common/flat_hash_map.h: it ends, and what it leaves is the table without
-- the slot at the hole, in an order in which no probe chain is broken.
use nasdaq_itch_trading_syst.Base.{
  ℕ, zero, suc, ◌+◌, ◌<◌, ◌≡◌, ◌≢◌, ◌↔◌, inl, inr, refl, ap, sym, subst, ◌∙◌, List, not, ◌&&◌,
  Option, some, length, set, ◌==◌, leb, if◌then◌else◌, arith, length-set, Bool-cases, set-set,
  ==_iff,
}
use nasdaq_itch_trading_syst.OrderIndex.{Slot, Order, empty_slot, slot, home, backward_shift}
use nasdaq_itch_trading_syst.OrderIndex.Ring.{
  IsRing, dist, dist-lt, dist_self, next, next-lt, dist-next, home-lt, advance_lem, distance_lem,
  dist_injective, dist_through,
}
use nasdaq_itch_trading_syst.OrderIndex.Chains.{IsChained}
use nasdaq_itch_trading_syst.OrderIndex.Holes.{IsHoled, stop-IsChained, keep-IsHoled, move-IsHoled}
use nasdaq_itch_trading_syst.OrderIndex.Slots.{weight}
use nasdaq_itch_trading_syst.OrderIndex.Moves.{
  IsShifted, moved, moved_width, moved_hole, moved_source, moved_other, moved_count, moved_same,
}
use nasdaq_itch_trading_syst.OrderIndex.Tables.{refs, Holds, slot-set_ne}

module _ {mask n : ℕ} (ring : IsRing mask n) where
  -- One round of the loop, with the masks read as steps and distances on the ring.
  round :
      (fuel : ℕ) (slots : List Slot) (hole j : ℕ)
      → hole < n
      → j < n
      → backward_shift (suc fuel) slots mask hole j ≡ (
          let j' = next n j in
          let d = dist n hole (home mask (refs slots j')) in
          if refs slots j' == 0
          then some (set slots hole empty_slot)
          else if leb d (dist n hole j') && not (d == 0)
          then backward_shift fuel slots mask hole j'
          else backward_shift fuel (set slots hole (slot slots j')) mask j' j')
  unfolding backward_shift
  round fuel slots hole j hh hj = rw (
    advance_lem ring j hj,
    distance_lem ring hole (next n j) hh (next-lt n j hj),
    distance_lem ring hole (home mask (refs slots (next n j))) hh (home-lt ring _),
  )

  -- The table that the loop stands for: the slot at the hole is gone.
  abbrev holed : List Slot → ℕ → List Slot
  holed slots hole = set slots hole empty_slot

  abbrev Ends : Option (List Slot) → List Slot → Type 0
  Ends r xs = (ys : List Slot) × (r ≡ some ys) × IsShifted mask xs ys

  IsShifted_trans :
      (xs zs : List Slot)
      → length zs ≡ length xs
      → ((w : Slot → ℕ) → weight w zs ≡ weight w xs)
      → ((r : ℕ) (o : Order) → r ≢ 0 → Holds zs r o ↔ Holds xs r o)
      → (r : Option (List Slot)) → Ends r zs
      → Ends r xs
  IsShifted_trans xs zs width count same r (ys, e, s) = (
    ys,
    e,
    record {
      width = s.width ∙ width;
      chains = subst (λ k. IsChained k (home mask) (refs ys)) width s.chains;
      count = λ w. s.count w ∙ count w;
      same = λ r o ne. (
        (λ h. (same r o ne).0 ((s.same r o ne).0 h)),
        λ h. (s.same r o ne).1 ((same r o ne).1 h),
      );
    },
  )

  -- A move in the code is a move of the table without the slot at the hole.
  holed_move :
      (slots : List Slot) (hole j : ℕ)
      → hole < length slots
      → j ≢ hole
      → holed (set slots hole (slot slots j)) j ≡ moved (holed slots hole) hole j
  holed_move slots hole j hh ne =
      let e : slot (holed slots hole) j ≡ slot slots j =
        slot-set_ne slots hole j empty_slot hh ne in
      rw (set-set slots hole empty_slot, e)

  move_IsHoled :
      (xs : List Slot) (hole j j' : ℕ)
      → length xs ≡ n
      → IsHoled n (home mask) (home-lt ring) (refs xs) hole j
      → j' < n
      → dist n hole j' ≡ dist n hole j + 1
      → j' ≢ hole
      → refs xs j' ≢ 0
      → (0 < dist n hole (home mask (refs xs j'))
          → dist n hole j' < dist n hole (home mask (refs xs j')))
      → IsHoled n (home mask) (home-lt ring) (refs (moved xs hole j')) j' j'
  move_IsHoled xs hole j j' width v hj step ne live_j far =
      let hh : hole < length xs = omega (arith, v.hole-lt) in
      let hj' : j' < length xs = omega arith in
      let ref : Slot → ℕ = λ s. s.ref in
      move-IsHoled n (home mask) (home-lt ring) v hj step live_j far
        (ap ref (moved_hole xs hole j' hh hj' ne v.open_hole))
        (ap ref (moved_source xs hole j' hh hj' ne v.open_hole))
        (λ p hp nh nj. ap ref (moved_other xs hole j' hh hj' ne v.open_hole p nh nj))

  -- The round that moves a slot, given what the rest of the loop does.
  after_move :
      (fuel : ℕ) (slots : List Slot) (hole j j' e : ℕ)
      → length slots ≡ n
      → IsHoled n (home mask) (home-lt ring) (refs (holed slots hole)) hole j
      → j' < n
      → dist n hole j' ≡ dist n hole j + 1
      → j' ≢ hole
      → refs (holed slots hole) j' ≢ 0
      → (0 < dist n hole (home mask (refs (holed slots hole) j'))
          → dist n hole j' < dist n hole (home mask (refs (holed slots hole) j')))
      → e < n
      → refs (holed slots hole) e ≡ 0
      → dist n hole j' < dist n hole e
      → dist n hole e < fuel + dist n hole j'
      → (let slots' = set slots hole (slot slots j') in
          length slots' ≡ n
          → IsHoled n (home mask) (home-lt ring) (refs (holed slots' j')) j' j'
          → e < n
          → refs (holed slots' j') e ≡ 0
          → dist n j' j' < dist n j' e
          → dist n j' e < fuel + dist n j' j'
          → Ends (backward_shift fuel slots' mask j' j') (holed slots' j'))
      → Ends (backward_shift fuel (set slots hole (slot slots j')) mask j' j') (holed slots hole)
  after_move fuel slots hole j j' e width v hj' step ne live_j far he empty ahead enough rest =
      let xs = holed slots hole in
      let width' : length xs ≡ n = length-set slots hole empty_slot ∙ width in
      let hh : hole < length xs = omega (arith, v.hole-lt) in
      let hj : j' < length xs = omega arith in
      let same : holed (set slots hole (slot slots j')) j' ≡ moved xs hole j' =
        holed_move slots hole j' (omega (arith, v.hole-lt)) ne in
      let nh : e ≢ hole =
        λ z. absurd (omega (arith, ahead, ap (λ k. dist n hole k) z ∙ dist_self n hole)) in
      let nj : e ≢ j' = λ z. live_j (ap (refs xs) (sym z) ∙ empty) in
      let still : refs (moved xs hole j') e ≡ 0 =
        ap (λ (s : Slot). s.ref) (moved_other xs hole j' hh hj ne v.open_hole e nh nj) ∙ empty in
      let through = dist_through n hole j' e v.hole-lt hj' he ahead in
      let zero_here = dist_self n j' in
      let moved' = move_IsHoled xs hole j j' width' v hj' step ne live_j far in
      IsShifted_trans xs (moved xs hole j') (moved_width xs hole j' hh hj ne v.open_hole)
        (moved_count xs hole j' hh hj ne v.open_hole) (moved_same xs hole j' hh hj ne v.open_hole)
        (backward_shift fuel (set slots hole (slot slots j')) mask j' j')
        (subst (λ z. Ends (backward_shift fuel (set slots hole (slot slots j')) mask j' j') z) same
          (rest (length-set slots hole (slot slots j') ∙ width)
            (subst (λ z. IsHoled n (home mask) (home-lt ring) (refs z) j' j') (sym same) moved') he
            (ap (λ z. refs z e) same ∙ still) (omega arith) (omega arith)))

  -- From the invariant, with an empty slot ahead and fuel to reach it, the loop ends.
  pub shift-Ends :
      (fuel : ℕ) (slots : List Slot) (hole j e : ℕ)
      → length slots ≡ n
      → IsHoled n (home mask) (home-lt ring) (refs (holed slots hole)) hole j
      → e < n
      → refs (holed slots hole) e ≡ 0
      → dist n hole j < dist n hole e
      → dist n hole e < fuel + dist n hole j
      → Ends (backward_shift fuel slots mask hole j) (holed slots hole)
  shift-Ends zero slots hole j e width v he empty ahead enough = absurd (omega arith)
  shift-Ends (suc fuel) slots hole j e width v he empty ahead enough =
      let xs = holed slots hole in
      let j' = next n j in
      let hj' : j' < n = next-lt n j v.j-lt in
      let hh : hole < length slots = omega (arith, v.hole-lt) in
      let step : dist n hole j' ≡ dist n hole j + 1 =
        dist-next n hole j v.hole-lt v.j-lt (omega (arith, dist-lt n hole e v.hole-lt he)) in
      let ne : j' ≢ hole =
        λ z. absurd (omega (arith, step, ap (λ k. dist n hole k) z ∙ dist_self n hole)) in
      let here : refs xs j' ≡ refs slots j' =
        ap (λ (s : Slot). s.ref) (slot-set_ne slots hole j' empty_slot hh ne) in
      let width' : length xs ≡ n = length-set slots hole empty_slot ∙ width in
      rw (round fuel slots hole j v.hole-lt v.j-lt) (elim (Bool-cases (refs slots j' == 0)) [
        | inl stop ↦ rw stop (
          xs,
          refl,
          record {
            width = refl;
            chains = rw width' (
                stop-IsChained n (home mask) (home-lt ring) v hj' step
                  (here ∙ (==_iff (refs slots j') 0).0 stop));
            count = λ w. refl;
            same = λ r o z. ((λ h. h), λ h. h);
          },
        )
        | inr go ↦
            let live_s : refs slots j' ≢ 0 = λ z. ground arith in
            let live_x : refs xs j' ≢ 0 = λ z. live_s (sym here ∙ z) in
            let apart : dist n hole j' ≢ dist n hole e =
              λ z. live_x (ap (refs xs) (dist_injective n hole j' e v.hole-lt hj' he z) ∙ empty) in
            let d = dist n hole (home mask (refs slots j')) in
            let same_home : dist n hole (home mask (refs xs j')) ≡ d =
              ap (λ r. dist n hole (home mask r)) here in
            elim (Bool-cases (leb d (dist n hole j') && not (d == 0))) [
              | inl stays ↦
                  rw (go, stays)
                    (shift-Ends fuel slots hole j' e width
                      (keep-IsHoled n (home mask) (home-lt ring) v hj' step live_x (ground arith)
                        (ground arith))
                      he empty (omega arith) (omega arith))
              | inr moves ↦
                  rw (go, moves)
                    (after_move fuel slots hole j j' e width v hj' step ne live_x (ground arith) he
                      empty (omega arith) (omega arith)
                      (shift-Ends fuel (set slots hole (slot slots j')) j' j' e))
            ]
      ])
