-- ===== src/OrderIndex/Removal.antt =====
-- `erase` of src/common/flat_hash_map.h against the map that the table stands for.
use nasdaq_itch_trading_syst.Base.{
  ℕ, ◌+◌, ◌-◌, ◌/◌, ◌≤◌, ◌<◌, ◌≡◌, ◌≢◌, inl, inr, refl, ap, sym, ◌∙◌, List, Bool, true, false, none,
  some, length, set, length-set, ◌==◌, if◌then◌else◌, arith, Bool-cases, ==_iff,
}
use nasdaq_itch_trading_syst.OrderIndex.{
  Slot, Order, OrderIndex, empty_slot, slot, home, probe, erase, erase_end,
}
use nasdaq_itch_trading_syst.OrderIndex.Slots.{one, live, weight}
use nasdaq_itch_trading_syst.OrderIndex.Tables.{refs, IsTable}
use nasdaq_itch_trading_syst.OrderIndex.Probes.{probe-home}
use nasdaq_itch_trading_syst.OrderIndex.Valid.{IsValid, unused, used, room-used}
use nasdaq_itch_trading_syst.OrderIndex.Lookup.{
  lookup, is_some, Holds-lookup, lookup-absent, lookup_ext,
}
use nasdaq_itch_trading_syst.OrderIndex.Erasure.{
  erase_ends, weight-emptied, emptied_IsUnique, Holds-emptied,
}
use nasdaq_itch_trading_syst.OrderIndex.Finding.{size-zero-IsAbsent}
use nasdaq_itch_trading_syst.OrderIndex.Moves.{IsShifted}

-- What `erase` does: it returns whether the reference was live, and afterwards it is not.
pub record Erases (t : OrderIndex) (ref : ℕ) (g : OrderIndex) (erased : Bool) : Type 0 where
  pub valid : IsValid g
  pub returns : erased ≡ is_some (lookup t.slots ref)
  pub size : g.size + (if erased then 1 else 0) ≡ t.size
  pub capacity : length g.slots ≡ length t.slots
  pub orders : (r : ℕ) → r ≢ 0 → lookup g.slots r ≡ (if r == ref then none else lookup t.slots r)
  pub weights :
      (w : Slot → ℕ) (o : Order)
      → lookup t.slots ref ≡ some o
      → weight w g.slots + w (record { ref = ref; order = o }) ≡ weight w t.slots

erase_missing :
    (t : OrderIndex) (ref : ℕ)
    → IsValid t
    → ref ≢ 0
    → lookup t.slots ref ≡ none
    → Erases t ref t false
erase_missing t ref v ne absent = record {
  valid = v;
  returns = rw absent refl;
  size = omega arith;
  capacity = refl;
  orders = λ r nz. elim (Bool-cases (r == ref)) [
    | inl hit ↦ rw hit (ap (lookup t.slots) ((==_iff r ref).0 hit) ∙ absent)
    | inr miss ↦ rw miss refl
  ];
  weights = λ w o e. absurd (cc);
}

erase_found :
    (t : OrderIndex) (ref i : ℕ) (v : IsValid t) (ne : ref ≢ 0) (table : IsTable t.mask t.slots)
    → live t.slots ≡ t.size
    → t.size ≤ t.grow_at
    → t.grow_at ≡ length t.slots - length t.slots / 4
    → 256 ≤ length t.slots
    → (hi : i < length t.slots) (same : refs t.slots i ≡ ref) (ys : List Slot)
    → IsShifted t.mask (set t.slots i empty_slot) ys
    → Erases t ref (record t { slots = ys; size = t.size - 1 }) true
erase_found t ref i v ne table c f th w hi same ys s =
    let live_i : refs t.slots i ≢ 0 = λ z. ne (sym same ∙ z) in
    let table' = emptied_IsUnique table i hi live_i ys s in
    let width : length ys ≡ length t.slots = s.width ∙ length-set t.slots i empty_slot in
    let gone = weight-emptied table i hi live_i in
    let count : live ys + 1 ≡ live t.slots = omega (arith, s.count one, gone one) in
    let whole : slot t.slots i ≡ record { ref = ref; order = (slot t.slots i).order } =
      ap (λ (k : ℕ). record { ref = k; order = (slot t.slots i).order }) same in
    let old : lookup t.slots ref ≡ some (slot t.slots i).order =
      Holds-lookup t.slots ref (slot t.slots i).order table.chains.unique ne (i, hi, whole) in
    record {
      valid =
          used table' (omega arith) (omega arith) (th ∙ ap (λ (n : ℕ). n - n / 4) (sym width))
            (omega arith);
      returns = rw old refl;
      size = omega arith;
      capacity = width;
      orders = λ r nz. elim (Bool-cases (r == ref)) [
        | inl hit ↦ rw hit (
            lookup-absent ys r (λ p hp z.
              ((Holds-emptied table i hi live_i r (slot ys p).order nz).0 (
                  (s.same r (slot ys p).order nz).0
                    (p, hp, ap (λ (k : ℕ). record { ref = k; order = (slot ys p).order }) z))).0
                ((==_iff r ref).0 hit ∙ sym same)))
        | inr miss ↦ rw miss (
            lookup_ext ys t.slots r table'.chains.unique table.chains.unique nz (λ o. (
              (λ h. ((Holds-emptied table i hi live_i r o nz).0 ((s.same r o nz).0 h)).1),
              λ h. (s.same r o nz).1 (
                  (Holds-emptied table i hi live_i r o nz).1 ((λ z. unequal r miss (z ∙ same)), h)),
            )))
      ];
      weights = λ w o e.
          let o_eq : record { ref = ref; order = o } ≡ slot t.slots i =
            ap (λ (k : Order). record { ref = ref; order = k }) (cc) ∙ sym whole in
          rw o_eq (omega (arith, s.count w, gone w));
    }
  where
    unequal : (r : ℕ) → (r == ref) ≡ false → r ≢ ref
    unequal r miss e = ground arith

-- On a valid table, for a reference other than 0, `erase` ends and leaves a valid table of the
-- same capacity. It returns whether the reference was live; afterwards the map has nothing at it
-- and is unchanged at all others, and, if it was live, the size has fallen by one and every
-- measure summed over the live slots by that of the slot that is gone.
pub erase_correct :
    (t : OrderIndex) (ref : ℕ)
    → IsValid t
    → ref ≢ 0
    → (g : OrderIndex) × (b : Bool) × (erase t ref ≡ some (g, b)) × Erases t ref g b
unfolding erase
erase_correct t ref v ne = elim (Bool-cases (t.size == 0)) [
  | inl none_live ↦ (
    t,
    false,
    rw none_live refl,
    erase_missing t ref v ne
        (lookup-absent t.slots ref (size-zero-IsAbsent t ref v ((==_iff t.size 0).0 none_live) ne)),
  )
  | inr some_live ↦
      let (g, b, e, h) = erase_some t v (λ z. ground arith) in (g, b, rw some_live e, h)
]
  where
    erase_some :
        (t : OrderIndex)
        → IsValid t
        → t.size ≢ 0
        → (g : OrderIndex) × (b : Bool) × (erase_end t
              (probe (length t.slots) t.slots t.mask ref (home t.mask ref))
            ≡ some (g, b))
          × Erases t ref g b
    erase_some t (unused e s a) nz = absurd (nz s)
    erase_some t (used table c f th w) nz =
        let room = room-used t c f th w in
        elim (probe-home table room ref ne) [
          | inr (i, e, behind, absent) ↦ (
            t,
            false,
            rw e refl,
            erase_missing t ref (used table c f th w) ne (lookup-absent t.slots ref absent),
          )
          | inl (i, e, hi, same) ↦
              let live_i : refs t.slots i ≢ 0 = λ z. ne (sym same ∙ z) in
              let (ys, ends, shifted) = erase_ends table i hi live_i room in
              (
                record t { slots = ys; size = t.size - 1 },
                true,
                rw (e, ends) refl,
                erase_found t ref i (used table c f th w) ne table c f th w hi same ys shifted,
              )
        ]
