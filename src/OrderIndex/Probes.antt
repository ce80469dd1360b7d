-- ===== src/OrderIndex/Probes.antt =====
-- The probe loops of src/common/flat_hash_map.h: on a table that is not full they end, at the
-- reference or at a free slot behind its chain.
use nasdaq_itch_trading_syst.Base.{
  ℕ, zero, suc, ◌+◌, ◌≤◌, ◌<◌, ◌≡◌, ◌≢◌, ◌⊎◌, inl, inr, refl, ap, sym, subst, ◌∙◌, List, Option,
  none, some, length, ◌==◌, arith, Bool-cases, ==_iff,
}
use native.Mathlib.Decide.{ℕ_discrete, dec_lt}
use nasdaq_itch_trading_syst.OrderIndex.{
  Slot, home, advance, Probe, found, free, lost, probe, settle,
}
use nasdaq_itch_trading_syst.OrderIndex.Ring.{
  IsRing, dist, dist-lt, dist_self, dist_injective, next, next-lt, dist-next, home-lt, advance_lem,
}
use nasdaq_itch_trading_syst.OrderIndex.Chains.{IsFree}
use nasdaq_itch_trading_syst.OrderIndex.Slots.{live, empty_slot_exists}
use nasdaq_itch_trading_syst.OrderIndex.Tables.{refs, IsTable, IsAbsent}

module _ {mask n : ℕ} (ring : IsRing mask n) (xs : List Slot) (width : length xs ≡ n) (ref h : ℕ)
    (hh : h < n) where
  -- Every slot on the way from `h` to before `i` is live and has another reference.
  abbrev Passed : ℕ → Type 0
  Passed i = (p : ℕ) → p < n → dist n h p < dist n h i → (refs xs p ≢ 0) × (refs xs p ≢ ref)

  abbrev pub Ended : Probe → Type 0
  Ended (found i) = (i < n) × (refs xs i ≡ ref) × (refs xs i ≢ 0)
  Ended (free i) = (i < n) × (refs xs i ≡ 0) × Passed i
  Ended lost = ⊥

  Passed-next :
      (i : ℕ)
      → i < n
      → dist n h i + 1 < n
      → Passed i
      → refs xs i ≢ 0
      → refs xs i ≢ ref
      → Passed (next n i)
  Passed-next i hi small passed live_i other p hp d =
      let step = dist-next n h i hh hi small in
      elim (ℕ_discrete (dist n h p) (dist n h i)) [
        | yes same ↦
            let e : p ≡ i = dist_injective n h p i hh hp hi same in
            ((λ z. live_i (sym (ap (refs xs) e) ∙ z)), λ z. other (sym (ap (refs xs) e) ∙ z))
        | no apart ↦ passed p hp (omega arith)
      ]

  pub probe_ends :
      (fuel i e : ℕ)
      → i < n
      → e < n
      → refs xs e ≡ 0
      → dist n h i ≤ dist n h e
      → dist n h e < fuel + dist n h i
      → Passed i
      → Ended (probe fuel xs mask ref i)
  unfolding probe
  probe_ends zero i e hi he empty ahead enough passed = absurd (omega arith)
  probe_ends (suc fuel) i e hi he empty ahead enough passed = elim (Bool-cases (refs xs i == 0)) [
    | inl stop ↦ rw stop (hi, (==_iff (refs xs i) 0).0 stop, passed)
    | inr go ↦ elim (Bool-cases (refs xs i == ref)) [
      | inl hit ↦ rw (go, hit) (hi, (==_iff (refs xs i) ref).0 hit, λ z. ground arith)
      | inr miss ↦
          let live_i : refs xs i ≢ 0 = λ z. ground arith in
          let other : refs xs i ≢ ref = λ z. ground arith in
          let apart : dist n h i ≢ dist n h e =
            λ z. live_i (ap (refs xs) (dist_injective n h i e hh hi he z) ∙ empty) in
          let bound = dist-lt n h e hh he in
          let small : dist n h i + 1 < n = omega arith in
          let step = dist-next n h i hh hi small in
          rw (go, miss, advance_lem ring i hi)
            (probe_ends fuel (next n i) e (next-lt n i hi) he empty (omega arith) (omega arith)
              (Passed-next i hi small passed live_i other))
    ]
  ]

-- `settle` is the probe for the reference 0, which no live slot has.
abbrev free_slot : Probe → Option ℕ
free_slot (free i) = some i
free_slot _ = none

settle-probe :
    (fuel : ℕ) (xs : List Slot) (mask i : ℕ)
    → settle fuel xs mask i ≡ free_slot (probe fuel xs mask 0 i)
unfolding settle probe
settle-probe zero xs mask i = refl
settle-probe (suc fuel) xs mask i = ground (arith, settle-probe fuel xs mask (advance mask i))

module _ {mask : ℕ} {xs : List Slot} (t : IsTable mask xs) (room : live xs < length xs) where
  abbrev Found : ℕ → Probe → Type 0
  Found ref r = (i : ℕ) × (r ≡ found i) × (i < length xs) × (refs xs i ≡ ref)

  abbrev Missing : ℕ → Probe → Type 0
  Missing ref r =
      (i : ℕ) × (r ≡ free i) × IsFree (length xs) (home mask) (refs xs) ref i × IsAbsent xs ref

  -- A free slot behind the whole chain of a reference shows that it is absent.
  IsAbsent-behind :
      (ref i : ℕ)
      → ref ≢ 0
      → i < length xs
      → refs xs i ≡ 0
      → ((p : ℕ)
          → p < length xs
          → dist (length xs) (home mask ref) p < dist (length xs) (home mask ref) i
          → (refs xs p ≢ 0) × (refs xs p ≢ ref))
      → IsAbsent xs ref
  IsAbsent-behind ref i ne hi empty passed k hk e =
      let n = length xs in
      let hh : home mask ref < n = home-lt t.ring ref in
      elim (dec_lt (dist n (home mask ref) k) (dist n (home mask ref) i)) [
        | yes before ↦ (passed k hk before).1 e
        | no behind ↦ elim (ℕ_discrete (dist n (home mask ref) k) (dist n (home mask ref) i)) [
          | yes same ↦
              ne (sym e ∙ ap (refs xs) (dist_injective n (home mask ref) k i hh hk hi same) ∙ empty)
          | no apart ↦
              t.chains.chained k i hk hi (λ z. ne (sym e ∙ z))
                (subst (λ r. dist n (home mask r) i < dist n (home mask r) k) (sym e) (omega arith))
                empty
        ]
      ]

  -- The probe from the home of a reference finds it, or shows that it is absent.
  pub probe-home :
      (ref : ℕ)
      → ref ≢ 0
      → let r = probe (length xs) xs mask ref (home mask ref) in Found ref r ⊎ Missing ref r
  probe-home ref ne =
      let n = length xs in
      let hh : home mask ref < n = home-lt t.ring ref in
      let (e, he, empty) = empty_slot_exists xs room in
      let zero_here = dist_self n (home mask ref) in
      let bound = dist-lt n (home mask ref) e hh he in
      classify (probe n xs mask ref (home mask ref)) refl (
        probe_ends t.ring xs refl ref (home mask ref) hh n (home mask ref) e hh he empty
          (omega arith) (omega arith) (λ p hp d. absurd (omega (arith, d, zero_here))))
    where
      classify :
          (r : Probe)
          → probe (length xs) xs mask ref (home mask ref) ≡ r
          → Ended t.ring xs refl ref (home mask ref) (home-lt t.ring ref) r
          → Found ref (probe (length xs) xs mask ref (home mask ref))
            ⊎ Missing ref (probe (length xs) xs mask ref (home mask ref))
      classify (found i) e (hi, same, live_i) = inl (i, e, hi, same)
      classify (free i) e (hi, empty, passed) = inr (
        i,
        e,
        record { inside = hi; empty = empty; behind = λ p hp d. (passed p hp d).0 },
        IsAbsent-behind ref i ne hi empty passed,
      )
      classify lost e h = absurd h

  -- The loop of `grow` ends at a free slot behind the chain of any reference.
  pub settle-home :
      (ref : ℕ)
      → (i : ℕ) × (settle (length xs) xs mask (home mask ref) ≡ some i)
        × IsFree (length xs) (home mask) (refs xs) ref i
  settle-home ref =
      let n = length xs in
      let hh : home mask ref < n = home-lt t.ring ref in
      let (e, he, empty) = empty_slot_exists xs room in
      let zero_here = dist_self n (home mask ref) in
      let bound = dist-lt n (home mask ref) e hh he in
      classify (probe n xs mask 0 (home mask ref)) refl (
        probe_ends t.ring xs refl 0 (home mask ref) hh n (home mask ref) e hh he empty (omega arith)
          (omega arith) (λ p hp d. absurd (omega (arith, d, zero_here))))
    where
      classify :
          (r : Probe)
          → probe (length xs) xs mask 0 (home mask ref) ≡ r
          → Ended t.ring xs refl 0 (home mask ref) (home-lt t.ring ref) r
          → (i : ℕ) × (settle (length xs) xs mask (home mask ref) ≡ some i)
            × IsFree (length xs) (home mask) (refs xs) ref i
      classify (found i) e (hi, same, live_i) = absurd (live_i same)
      classify (free i) e (hi, empty, passed) = (
        i,
        settle-probe (length xs) xs mask (home mask ref) ∙ ap free_slot e,
        record { inside = hi; empty = empty; behind = λ p hp d. (passed p hp d).0 },
      )
      classify lost e h = absurd h
