-- ===== src/OrderIndex/Moves.antt =====
-- One move of `backward_shift` in src/common/flat_hash_map.h, from a live slot into the hole.
use nasdaq_itch_trading_syst.Base.{
  ℕ, ◌<◌, ◌≡◌, ◌≢◌, ◌↔◌, ap, sym, ◌∙◌, List, length, set, arith, length-set,
}
use native.Mathlib.Decide.{ℕ_discrete}
use nasdaq_itch_trading_syst.OrderIndex.{Slot, Order, empty_slot, slot, home}
use nasdaq_itch_trading_syst.OrderIndex.Chains.{IsChained}
use nasdaq_itch_trading_syst.OrderIndex.Slots.{weight, weight_slot, weight-set}
use nasdaq_itch_trading_syst.OrderIndex.Tables.{refs, Holds, slot-set_self, slot-set_ne}

-- The slots `ys` are the live slots of `xs` in a chained order.
pub record IsShifted (mask : ℕ) (xs ys : List Slot) : Type 0 where
  pub width : length ys ≡ length xs
  pub chains : IsChained (length xs) (home mask) (refs ys)
  pub count : (w : Slot → ℕ) → weight w ys ≡ weight w xs
  pub same : (r : ℕ) (o : Order) → r ≢ 0 → Holds ys r o ↔ Holds xs r o

-- The live slot at `j` moved to the slot at `hole`.
abbrev pub moved : List Slot → ℕ → ℕ → List Slot
moved xs hole j = set (set xs hole (slot xs j)) j empty_slot

-- Moving the live slot at `j` to the empty slot at `hole` keeps what the table holds.
module _ (xs : List Slot) (hole j : ℕ) (hh : hole < length xs) (hj : j < length xs) (ne : j ≢ hole)
    (empty : refs xs hole ≡ 0) where
  len₁ : length (set xs hole (slot xs j)) ≡ length xs
  len₁ = length-set xs hole (slot xs j)

  pub moved_width : length (moved xs hole j) ≡ length xs
  moved_width = length-set (set xs hole (slot xs j)) j empty_slot ∙ len₁

  pub moved_hole : slot (moved xs hole j) hole ≡ slot xs j
  moved_hole =
      slot-set_ne (set xs hole (slot xs j)) j hole empty_slot (omega (arith, len₁))
        (λ e. ne (sym e))
      ∙ slot-set_self xs hole (slot xs j) hh

  pub moved_source : slot (moved xs hole j) j ≡ empty_slot
  moved_source = slot-set_self (set xs hole (slot xs j)) j empty_slot (omega (arith, len₁))

  pub moved_other : (p : ℕ) → p ≢ hole → p ≢ j → slot (moved xs hole j) p ≡ slot xs p
  moved_other p nh nj =
      slot-set_ne (set xs hole (slot xs j)) j p empty_slot (omega (arith, len₁)) nj
      ∙ slot-set_ne xs hole p (slot xs j) hh nh

  pub moved_count : (w : Slot → ℕ) → weight w (moved xs hole j) ≡ weight w xs
  moved_count w =
      let a = weight-set w xs hole (slot xs j) hh in
      let b = weight-set w (set xs hole (slot xs j)) j empty_slot (omega (arith, len₁)) in
      let c : weight_slot w (slot (set xs hole (slot xs j)) j) ≡ weight_slot w (slot xs j) =
        ap (weight_slot w) (slot-set_ne xs hole j (slot xs j) hh ne) in
      let d : weight_slot w (slot xs hole) ≡ 0 = ground arith in omega arith

  pub moved_same : (r : ℕ) (o : Order) → r ≢ 0 → Holds (moved xs hole j) r o ↔ Holds xs r o
  moved_same r o nz = (there, back)
    where
      there : Holds (moved xs hole j) r o → Holds xs r o
      there (i, hi, e) = elim (ℕ_discrete i hole) [
        | yes at_hole ↦ (j, hj, sym moved_hole ∙ ap (slot (moved xs hole j)) (sym at_hole) ∙ e)
        | no nh ↦ elim (ℕ_discrete i j) [
          | yes at_j ↦ absurd (
              nz (
                ap (λ (s : Slot). s.ref) (sym e ∙ ap (slot (moved xs hole j)) at_j ∙ moved_source)))
          | no nj ↦ (i, omega (arith, moved_width), sym (moved_other i nh nj) ∙ e)
        ]
      ]

      back : Holds xs r o → Holds (moved xs hole j) r o
      back (i, hi, e) = elim (ℕ_discrete i j) [
        | yes at_j ↦ (hole, omega (arith, moved_width), moved_hole ∙ ap (slot xs) (sym at_j) ∙ e)
        | no nj ↦ elim (ℕ_discrete i hole) [
          | yes at_hole ↦
              absurd (nz (ap (λ (s : Slot). s.ref) (sym e) ∙ ap (refs xs) at_hole ∙ empty))
          | no nh ↦ (i, omega (arith, moved_width), moved_other i nh nj ∙ e)
        ]
      ]
