-- ===== src/OrderIndex/Finding.antt =====
-- `find` of src/common/flat_hash_map.h against the map that the table stands for.
use nasdaq_itch_trading_syst.Base.{
  ℕ, ◌<◌, ◌≡◌, ◌≢◌, ◌⊎◌, inl, inr, refl, ap, sym, ◌∙◌, Option, none, some, length, ◌==◌, arith,
  Bool-cases, ==_iff,
}
use nasdaq_itch_trading_syst.OrderIndex.{OrderIndex, slot, home, probe, find, find_end}
use nasdaq_itch_trading_syst.OrderIndex.Slots.{live, live-pos}
use nasdaq_itch_trading_syst.OrderIndex.Tables.{refs, IsTable, IsAbsent}
use nasdaq_itch_trading_syst.OrderIndex.Probes.{probe-home}
use nasdaq_itch_trading_syst.OrderIndex.Valid.{IsValid, unused, used, room-used}
use nasdaq_itch_trading_syst.OrderIndex.Lookup.{lookup, IsUnique, Holds-lookup, lookup-absent}

pub IsValid-IsUnique : (t : OrderIndex) → IsValid t → IsUnique t.slots
IsValid-IsUnique t (unused e s a) i j hi hj = absurd (omega (arith, hi, ap length e))
IsValid-IsUnique t (used table c f th w) i j hi hj = table.chains.unique i j hi hj

pub size-zero-IsAbsent :
    (t : OrderIndex) (r : ℕ) → IsValid t → t.size ≡ 0 → r ≢ 0 → IsAbsent t.slots r
size-zero-IsAbsent t r (unused e s a) z ne i hi same = absurd (omega (arith, hi, ap length e))
size-zero-IsAbsent t r (used table c f th w) z ne i hi same =
    absurd (omega (arith, live-pos t.slots i hi (λ y. ne (sym same ∙ y)), c))

-- What `find` has to return: the slot of the reference, or the null pointer if it is not live.
abbrev pub Finds : OrderIndex → ℕ → Option (Option ℕ) → Type 0
Finds t r result =
    ((result ≡ some none) × (lookup t.slots r ≡ none))
    ⊎ ((i : ℕ) × (result ≡ some (some i))
        × (i < length t.slots)
        × (refs t.slots i ≡ r)
        × (lookup t.slots r ≡ some (slot t.slots i).order))

found_order :
    (t : OrderIndex) (r i : ℕ)
    → IsValid t
    → r ≢ 0
    → i < length t.slots
    → refs t.slots i ≡ r
    → lookup t.slots r ≡ some (slot t.slots i).order
found_order t r i v ne hi same =
    Holds-lookup t.slots r (slot t.slots i).order (IsValid-IsUnique t v) ne
      (i, hi, ap (λ (k : ℕ). record { ref = k; order = (slot t.slots i).order }) same)

find_used :
    (t : OrderIndex) (r : ℕ)
    → IsValid t
    → r ≢ 0
    → IsTable t.mask t.slots
    → live t.slots < length t.slots
    → Finds t r (find_end (probe (length t.slots) t.slots t.mask r (home t.mask r)))
unfolding find_end
find_used t r v ne table room = elim (probe-home table room r ne) [
  | inl (i, e, hi, same) ↦ inr (i, rw e, hi, same, found_order t r i v ne hi same)
  | inr (i, e, f, absent) ↦ inl (rw e, lookup-absent t.slots r absent)
]

-- On a valid table, for a reference other than 0, `find` ends: it returns the slot at which the
-- reference stands, whose order is what the map has at the reference, or the null pointer if the
-- map has none.
pub find_correct : (t : OrderIndex) (r : ℕ) → IsValid t → r ≢ 0 → Finds t r (find t r)
unfolding find
find_correct t r v ne = elim (Bool-cases (t.size == 0)) [
  | inl none_live ↦ rw none_live (
      inl (
        refl,
        lookup-absent t.slots r (size-zero-IsAbsent t r v ((==_iff t.size 0).0 none_live) ne),
      ))
  | inr some_live ↦ rw some_live (find_some t r v ne (λ z. ground arith))
]
  where
    find_some :
        (t : OrderIndex) (r : ℕ)
        → IsValid t
        → r ≢ 0
        → t.size ≢ 0
        → Finds t r (find_end (probe (length t.slots) t.slots t.mask r (home t.mask r)))
    find_some t r (unused e s a) ne nz = absurd (nz s)
    find_some t r (used table c f th w) ne nz =
        find_used t r (used table c f th w) ne table (room-used t c f th w)
