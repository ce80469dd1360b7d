-- ===== src/OrderIndex/Rebuild.antt =====
-- The loop of `grow` in src/common/flat_hash_map.h, which puts the old slots into the new table.
use nasdaq_itch_trading_syst.Base.{
  ℕ, zero, suc, ◌+◌, ◌<◌, ◌≡◌, ◌≢◌, ◌↔◌, ◌⊎◌, inl, inr, refl, ap, sym, ◌∙◌, List, [], ◌∷◌, true,
  false, some, length, set, length-set, ◌==◌, arith, Bool-cases, ==_iff,
}
use nasdaq_itch_trading_syst.OrderIndex.{Slot, Order, home, rebuild, settle}
use nasdaq_itch_trading_syst.OrderIndex.Chains.{IsFree}
use native.Mathlib.Decide.{ℕ_discrete}
use nasdaq_itch_trading_syst.OrderIndex.Slots.{one, live, weight}
use nasdaq_itch_trading_syst.OrderIndex.Tables.{
  refs, IsTable, Holds, IsAbsent, set-IsTable, weight-set_free, Holds-set, slot-set_self,
  slot-set_ne,
}
use nasdaq_itch_trading_syst.OrderIndex.Probes.{settle-home}

-- What is left of the old table while `grow` runs: no reference of it is in the new one yet.
pub record Pending (old new : List Slot) : Type 0 where
  pub distinct :
      (i j : ℕ) → i < length old → j < length old → refs old i ≢ 0 → refs old i ≡ refs old j → i ≡ j
  pub apart : (i : ℕ) → i < length old → refs old i ≢ 0 → IsAbsent new (refs old i)

-- `rebuild` ends, in a table that holds what both tables held.
abbrev pub Rebuilt : ℕ → List Slot → List Slot → ℕ → Type 0
Rebuilt mask old xs size =
    (ys : List Slot) × (rebuild old mask xs size ≡ some (ys, live ys))
    × IsTable mask ys
    × (length ys ≡ length xs)
    × ((w : Slot → ℕ) → weight w ys ≡ weight w xs + weight w old)
    × ((r : ℕ) (o : Order) → r ≢ 0 → Holds ys r o ↔ (Holds xs r o ⊎ Holds old r o))

Holds-nil : (xs : List Slot) (r : ℕ) (o : Order) → Holds xs r o ↔ (Holds xs r o ⊎ Holds [] r o)
Holds-nil xs r o = (inl, λ h. elim h [ inl h' ↦ h' | inr (i, hi, e) ↦ elim hi [ ] ])

Holds-cons :
    (s : Slot) (old : List Slot) (r : ℕ) (o : Order)
    → Holds (s ∷ old) r o ↔ ((s ≡ record { ref = r; order = o }) ⊎ Holds old r o)
Holds-cons s old r o = (there, back)
  where
    there : Holds (s ∷ old) r o → (s ≡ record { ref = r; order = o }) ⊎ Holds old r o
    there (zero, hi, e) = inl e
    there (suc i, hi, e) = inr (i, omega arith, e)

    back : (s ≡ record { ref = r; order = o }) ⊎ Holds old r o → Holds (s ∷ old) r o
    back (inl e) = (0, omega arith, e)
    back (inr (i, hi, e)) = (suc i, omega arith, e)

suc_injective : {i j : ℕ} → suc i ≡ suc j → i ≡ j
suc_injective e = omega arith

Pending-tail : (s : Slot) (old xs : List Slot) → Pending (s ∷ old) xs → Pending old xs
Pending-tail s old xs p = record {
  distinct =
      λ i j hi hj ne e. suc_injective (p.distinct (suc i) (suc j) (omega arith) (omega arith) ne e);
  apart = λ i hi ne. p.apart (suc i) (omega arith) ne;
}

Pending-set :
    (s : Slot) (old xs : List Slot)
    → Pending (s ∷ old) xs
    → (i : ℕ) → s.ref ≢ 0
    → i < length xs
    → Pending old (set xs i s)
Pending-set s old xs p i ne hi = record {
  distinct = (Pending-tail s old xs p).distinct;
  apart = λ k hk live_k j hj e. elim (ℕ_discrete j i) [
    | yes same ↦
        let here : refs (set xs i s) j ≡ s.ref =
          ap (refs (set xs i s)) same ∙ ap (λ (t : Slot). t.ref) (slot-set_self xs i s hi) in
        absurd (omega (arith, p.distinct 0 (suc k) (omega arith) (omega arith) ne (sym here ∙ e)))
    | no other ↦
        p.apart (suc k) (omega arith) live_k j (omega (arith, length-set xs i s))
          (sym (ap (λ (t : Slot). t.ref) (slot-set_ne xs i j s hi other)) ∙ e)
  ];
}

rebuild_dead :
    (mask : ℕ) (s : Slot) (old xs : List Slot)
    → (s.ref == 0) ≡ true
    → Rebuilt mask old xs (live xs)
    → Rebuilt mask (s ∷ old) xs (live xs)
unfolding rebuild weight
rebuild_dead mask s old xs dead (ys, runs, t, width, count, same) = (
  ys,
  rw (dead, rebuild) runs,
  t,
  width,
  (λ w. ground (arith, count w)),
  λ r o ne. (
    (λ h. elim ((same r o ne).0 h) [
      | inl here ↦ inl here
      | inr there ↦ inr ((Holds-cons s old r o).1 (inr there))
    ]),
    λ h. elim h [
      | inl here ↦ (same r o ne).1 (inl here)
      | inr there ↦ elim ((Holds-cons s old r o).0 there) [
        | inl e ↦ absurd (ne (sym (ap (λ (t : Slot). t.ref) e) ∙ (==_iff s.ref 0).0 dead))
        | inr deep ↦ (same r o ne).1 (inr deep)
      ]
    ],
  ),
)

rebuild_live :
    (mask : ℕ) (s : Slot) (old xs : List Slot) (t : IsTable mask xs) (ne : s.ref ≢ 0)
    (absent : IsAbsent xs s.ref) (i : ℕ)
    → settle (length xs) xs mask (home mask s.ref) ≡ some i
    → (free : IsFree (length xs) (home mask) (refs xs) s.ref i)
    → Rebuilt mask old (set xs i s) (live (set xs i s))
    → Rebuilt mask (s ∷ old) xs (live xs)
unfolding rebuild weight
rebuild_live mask s old xs t ne absent i settles free (ys, runs, t', width, count, same) =
    let more = weight-set_free t s i ne absent free one in
    let alive : (s.ref == 0) ≡ false = ground arith in
    (
      ys,
      rw (alive, rebuild, settles, ← more) runs,
      t',
      width ∙ length-set xs i s,
      (λ w. ground (arith, count w, weight-set_free t s i ne absent free w)),
      λ r o nz. (
        (λ h. elim ((same r o nz).0 h) [
          | inl here ↦ elim ((Holds-set t s i ne absent free r o nz).0 here) [
            | inl e ↦ inr ((Holds-cons s old r o).1 (inl e))
            | inr before ↦ inl before
          ]
          | inr there ↦ inr ((Holds-cons s old r o).1 (inr there))
        ]),
        λ h. elim h [
          | inl before ↦
              (same r o nz).1 (inl ((Holds-set t s i ne absent free r o nz).1 (inr before)))
          | inr there ↦ elim ((Holds-cons s old r o).0 there) [
            | inl e ↦ (same r o nz).1 (inl ((Holds-set t s i ne absent free r o nz).1 (inl e)))
            | inr deep ↦ (same r o nz).1 (inr deep)
          ]
        ],
      ),
    )

pub rebuild_lem :
    (mask : ℕ) (old xs : List Slot)
    → IsTable mask xs
    → Pending old xs
    → live xs + live old < length xs
    → Rebuilt mask old xs (live xs)
unfolding rebuild weight
rebuild_lem mask [] xs t p room =
    (xs, refl, t, refl, (λ w. omega arith), λ r o ne. Holds-nil xs r o)
rebuild_lem mask (s ∷ old) xs t p room = elim (Bool-cases (s.ref == 0)) [
  | inl dead ↦
      rebuild_dead mask s old xs dead
        (rebuild_lem mask old xs t (Pending-tail s old xs p) (ground arith))
  | inr go ↦
      let ne : s.ref ≢ 0 = λ z. ground arith in
      let (i, runs, free) = settle-home t (omega arith) s.ref in
      let absent : IsAbsent xs s.ref = p.apart 0 (omega arith) ne in
      let count = weight-set_free t s i ne absent free one in
      rebuild_live mask s old xs t ne absent i runs free (
        rebuild_lem mask old (set xs i s) (set-IsTable t s i ne absent free)
          (Pending-set s old xs p i ne free.inside) (ground (arith, count, length-set xs i s)))
]
