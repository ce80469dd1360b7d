-- ===== src/OrderIndex/Writes.antt =====
-- A write through the pointer that `find` of src/common/flat_hash_map.h returned.
use nasdaq_itch_trading_syst.Base.{
  ℕ, zero, suc, ◌+◌, ◌-◌, ◌/◌, ◌<◌, ◌≡◌, ◌≢◌, refl, ap, sym, ◌∙◌, subst, fun_ext, inl, inr, List,
  [], ◌∷◌, Bool, false, some, length, set, length-set, ◌==◌, if◌then◌else◌, arith, Bool-cases,
  ==_iff,
}
use native.Mathlib.Decide.{ℕ_discrete}
use nasdaq_itch_trading_syst.OrderIndex.{Slot, Order, OrderIndex, slot, home, write_shares}
use nasdaq_itch_trading_syst.OrderIndex.Chains.{IsChained}
use nasdaq_itch_trading_syst.OrderIndex.Slots.{one, weight, weight-set}
use nasdaq_itch_trading_syst.OrderIndex.Tables.{refs, IsTable, slot-set_self, slot-set_ne}
use nasdaq_itch_trading_syst.OrderIndex.Valid.{IsValid, unused, used}
use nasdaq_itch_trading_syst.OrderIndex.Lookup.{lookup, Holds-lookup}
use nasdaq_itch_trading_syst.OrderIndex.Finding.{IsValid-IsUnique}

-- What a write of the shares at a live slot does: the order there has them, all else is the same.
pub record Writes (t : OrderIndex) (ref i shares : ℕ) (g : OrderIndex) : Type 0 where
  pub valid : IsValid g
  pub size : g.size ≡ t.size
  pub capacity : length g.slots ≡ length t.slots
  pub orders :
      (r : ℕ)
      → r ≢ 0
      → lookup g.slots r ≡ (
          if r == ref
          then some (record { shares = shares; price = (slot t.slots i).order.price })
          else lookup t.slots r)
  pub weights :
      (w : Slot → ℕ)
      → weight w g.slots + w (record { ref = ref; order = (slot t.slots i).order })
        ≡ weight w t.slots
          + w (record {
            ref = ref;
            order = record { shares = shares; price = (slot t.slots i).order.price };
          })

same_refs :
    (xs : List Slot) (i j : ℕ) (o : Order)
    → i < length xs
    → refs (set xs i (record { ref = refs xs i; order = o })) j ≡ refs xs j
same_refs xs i j o h = elim (ℕ_discrete j i) [
  | yes e ↦
      subst (λ (k : ℕ). refs (set xs i (record { ref = refs xs i; order = o })) k ≡ refs xs k)
        (sym e)
        (ap (λ (s : Slot). s.ref) (slot-set_self xs i (record { ref = refs xs i; order = o }) h))
  | no ne ↦
      ap (λ (s : Slot). s.ref) (slot-set_ne xs i j (record { ref = refs xs i; order = o }) h ne)
]

rewritten-IsTable :
    (mask : ℕ) (xs : List Slot) (i : ℕ) (o : Order)
    → IsTable mask xs
    → i < length xs
    → IsTable mask (set xs i (record { ref = refs xs i; order = o }))
rewritten-IsTable mask xs i o t h =
    let s : Slot = record { ref = refs xs i; order = o } in
    record {
      ring = rw (length-set xs i s) t.ring;
      chains = rw (length-set xs i s) (
          subst (IsChained (length xs) (home mask)) (sym (fun_ext (λ j. same_refs xs i j o h)))
            t.chains);
    }

lookup-set_ne :
    (xs : List Slot) (i r : ℕ) (o : Order)
    → i < length xs
    → refs xs i ≢ r
    → lookup (set xs i (record { ref = refs xs i; order = o })) r ≡ lookup xs r
unfolding lookup
lookup-set_ne [] i r o h ne = refl
lookup-set_ne (x ∷ xs) zero r o h ne = ground arith
lookup-set_ne (x ∷ xs) (suc i) r o h ne = rw (lookup-set_ne xs i r o (omega arith) ne) refl

written_weight :
    (w : Slot → ℕ) (xs : List Slot) (i : ℕ) (o : Order)
    → i < length xs
    → refs xs i ≢ 0
    → weight w (set xs i (record { ref = refs xs i; order = o })) + w (slot xs i)
      ≡ weight w xs + w (record { ref = refs xs i; order = o })
written_weight w xs i o h ne =
    let s : Slot = record { ref = refs xs i; order = o } in
    let e = weight-set w xs i s h in
    let b : (refs xs i == 0) ≡ false = ground arith in
    counted (weight w (set xs i s)) (w (slot xs i)) (weight w xs) (w s) (refs xs i == 0) b e
  where
    counted :
        (a b c d : ℕ) (z : Bool)
        → z ≡ false
        → a + (if z then 0 else b) ≡ c + (if z then 0 else d)
        → a + b ≡ c + d
    counted a b c d z f e = ground arith

written-IsValid :
    (t : OrderIndex) (i : ℕ) (o : Order)
    → IsValid t
    → i < length t.slots
    → refs t.slots i ≢ 0
    → IsValid (record t { slots = set t.slots i (record { ref = refs t.slots i; order = o }) })
written-IsValid t i o (unused e s a) h ne = absurd (omega (arith, h, ap length e))
written-IsValid t i o (used table c f th w) h ne =
    let s : Slot = record { ref = refs t.slots i; order = o } in
    let width = length-set t.slots i s in
    used (rewritten-IsTable t.mask t.slots i o table h)
      (omega (arith, written_weight one t.slots i o h ne, c)) f
      (th ∙ ap (λ (n : ℕ). n - n / 4) (sym width)) (omega arith)

written_order :
    (t : OrderIndex) (i r : ℕ) (o : Order)
    → IsValid t
    → i < length t.slots
    → refs t.slots i ≢ 0
    → r ≢ 0
    → lookup (set t.slots i (record { ref = refs t.slots i; order = o })) r
      ≡ (if r == refs t.slots i then some o else lookup t.slots r)
written_order t i r o v h ne nz =
    let s : Slot = record { ref = refs t.slots i; order = o } in
    let ys = set t.slots i s in
    elim (Bool-cases (r == refs t.slots i)) [
      | inl hit ↦
          let e : r ≡ refs t.slots i = (==_iff r (refs t.slots i)).0 hit in
          rw hit (
            Holds-lookup ys r o
              (IsValid-IsUnique (record t { slots = ys }) (written-IsValid t i o v h ne)) nz
              (
                i,
                omega (arith, h, length-set t.slots i s),
                slot-set_self t.slots i s h ∙ ap (λ (k : ℕ). record { ref = k; order = o }) (sym e),
              ))
      | inr miss ↦ rw miss (lookup-set_ne t.slots i r o h (unequal (refs t.slots i) miss))
    ]
  where
    unequal : (k : ℕ) → (r == k) ≡ false → k ≢ r
    unequal k e z = ground arith

-- On a valid table a write at the slot of a live reference leaves a valid table that differs in
-- the shares of that order alone.
pub write_shares_lem :
    (t : OrderIndex) (ref i shares : ℕ)
    → IsValid t
    → ref ≢ 0
    → i < length t.slots
    → refs t.slots i ≡ ref
    → Writes t ref i shares (write_shares t i shares)
unfolding write_shares
write_shares_lem t ref i shares v ne hi same =
    let o : Order = record { shares = shares; price = (slot t.slots i).order.price } in
    let live_ref : refs t.slots i ≢ 0 = λ z. ne (sym same ∙ z) in
    subst
      (λ (k : ℕ).
        Writes t k i shares
          (record t { slots = set t.slots i (record { ref = refs t.slots i; order = o }) }))
      same
      (record {
        valid = written-IsValid t i o v hi live_ref;
        size = refl;
        capacity = length-set t.slots i _;
        orders = λ r nz. written_order t i r o v hi live_ref nz;
        weights = λ w. written_weight w t.slots i o hi live_ref;
      })
