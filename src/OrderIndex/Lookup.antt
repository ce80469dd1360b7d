-- ===== src/OrderIndex/Lookup.antt =====
-- The map that a table of src/common/flat_hash_map.h stands for, as a function of the reference.
use nasdaq_itch_trading_syst.Base.{
  ℕ, zero, suc, ◌<◌, ◌≡◌, ◌≢◌, ◌↔◌, inl, inr, ap, sym, ◌∙◌, List, [], ◌∷◌, Bool, true, false,
  Option, none, some, length, ◌==◌, if◌then◌else◌, arith, Option-cases, Bool-cases,
}
use nasdaq_itch_trading_syst.OrderIndex.{Slot, Order, slot}
use nasdaq_itch_trading_syst.OrderIndex.Tables.{refs, Holds, IsAbsent}

-- The order at the first slot with the reference.
unfoldable pub lookup : List Slot → ℕ → Option Order
lookup [] r = none
lookup (s ∷ xs) r = if s.ref == r then some s.order else lookup xs r

-- Whether the reference is live.
abbrev pub is_some {ℓ} : {A : Type ℓ} → Option A → Bool
is_some none = false
is_some (some a) = true

pub lookup-Holds : (xs : List Slot) (r : ℕ) (o : Order) → lookup xs r ≡ some o → Holds xs r o
unfolding lookup
lookup-Holds [] r o e = cc
lookup-Holds (s ∷ xs) r o e = elim (Bool-cases (s.ref == r)) [
  | inl hit ↦ (0, omega arith, ground arith)
  | inr miss ↦ let (i, hi, e') = lookup-Holds xs r o (ground arith) in (suc i, omega arith, e')
]

pub lookup-eq-none : (xs : List Slot) (r : ℕ) → lookup xs r ≡ none → IsAbsent xs r
unfolding lookup
lookup-eq-none [] r e i hi z = absurd (omega arith)
lookup-eq-none (s ∷ xs) r e zero hi z = ground arith
lookup-eq-none (s ∷ xs) r e (suc i) hi z = lookup-eq-none xs r (ground arith) i (omega arith) z

-- References stand once.
abbrev pub IsUnique : List Slot → Type 0
IsUnique xs =
    (i j : ℕ) → i < length xs → j < length xs → refs xs i ≢ 0 → refs xs i ≡ refs xs j → i ≡ j

Holds-functional :
    (xs : List Slot) (r : ℕ) (o o' : Order)
    → IsUnique xs
    → r ≢ 0
    → Holds xs r o
    → Holds xs r o'
    → o ≡ o'
Holds-functional xs r o o' u ne (i, hi, e) (j, hj, e') =
    let ri : refs xs i ≡ r = ap (λ (s : Slot). s.ref) e in
    let rj : refs xs j ≡ r = ap (λ (s : Slot). s.ref) e' in
    let same : i ≡ j = u i j hi hj (λ z. ne (sym ri ∙ z)) (ri ∙ sym rj) in
    ap (λ (s : Slot). s.order) (sym e ∙ ap (slot xs) same ∙ e')

pub Holds-lookup :
    (xs : List Slot) (r : ℕ) (o : Order) → IsUnique xs → r ≢ 0 → Holds xs r o → lookup xs r ≡ some o
Holds-lookup xs r o u ne h = elim (Option-cases (lookup xs r)) [
  | inl e ↦ let (i, hi, e') = h in absurd (lookup-eq-none xs r e i hi (ap (λ (s : Slot). s.ref) e'))
  | inr (o', e) ↦ e ∙ ap some (Holds-functional xs r o' o u ne (lookup-Holds xs r o' e) h)
]

-- An absent reference has no order.
pub lookup-absent : (xs : List Slot) (r : ℕ) → IsAbsent xs r → lookup xs r ≡ none
lookup-absent xs r a = elim (Option-cases (lookup xs r)) [
  | inl e ↦ e
  | inr (o, e) ↦
      let (i, hi, e') = lookup-Holds xs r o e in absurd (a i hi (ap (λ (s : Slot). s.ref) e'))
]

-- Two tables that hold the same orders at a reference look up the same.
pub lookup_ext :
    (xs ys : List Slot) (r : ℕ)
    → IsUnique xs
    → IsUnique ys
    → r ≢ 0
    → ((o : Order) → Holds xs r o ↔ Holds ys r o)
    → lookup xs r ≡ lookup ys r
lookup_ext xs ys r ux uy ne same = elim (Option-cases (lookup xs r)) [
  | inl e ↦ elim (Option-cases (lookup ys r)) [
    | inl e' ↦ e ∙ sym e'
    | inr (o, e') ↦
        let (i, hi, e'') = (same o).1 (lookup-Holds ys r o e') in
        absurd (lookup-eq-none xs r e i hi (ap (λ (s : Slot). s.ref) e''))
  ]
  | inr (o, e) ↦ e ∙ sym (Holds-lookup ys r o uy ne ((same o).0 (lookup-Holds xs r o e)))
]
