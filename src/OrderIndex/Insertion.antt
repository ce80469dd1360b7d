-- ===== src/OrderIndex/Insertion.antt =====
-- `insert` of src/common/flat_hash_map.h against the map that the table stands for.
use nasdaq_itch_trading_syst.Base.{
  ℕ, ◌+◌, ◌-◌, ◌*◌, ◌/◌, ◌≤◌, ◌<◌, ◌^◌, ◌≡◌, ◌≢◌, inl, inr, refl, ap, sym, ◌∙◌, Bool, true, false,
  not, ◌&&◌, some, length, set, length-set, ◌==◌, if◌then◌else◌, ltb, arith, Bool-cases, ==_iff,
}
use nasdaq_itch_trading_syst.OrderIndex.{
  Slot, Order, OrderIndex, slot, home, pack, probe, insert, make_room, place,
}
use nasdaq_itch_trading_syst.OrderIndex.Slots.{one, live, weight}
use nasdaq_itch_trading_syst.OrderIndex.Chains.{IsFree}
use nasdaq_itch_trading_syst.OrderIndex.Tables.{
  refs, IsTable, IsAbsent, set-IsTable, weight-set_free, Holds-set,
}
use nasdaq_itch_trading_syst.OrderIndex.Probes.{probe-home}
use nasdaq_itch_trading_syst.OrderIndex.Valid.{IsValid, unused, used, room-used}
use nasdaq_itch_trading_syst.OrderIndex.Growth.{Grown, grow_lem}
use nasdaq_itch_trading_syst.OrderIndex.Lookup.{
  lookup, is_some, Holds-lookup, lookup-absent, lookup_ext,
}
use nasdaq_itch_trading_syst.OrderIndex.Finding.{IsValid-IsUnique}

-- The slots of `g` are as many as those of `t` if those are enough for its size.
abbrev pub IsWithin : OrderIndex → OrderIndex → Type 0
IsWithin t g = (n : ℕ) → length t.slots ≤ n → 256 + 4 * t.size ≤ n → length g.slots ≤ n

-- What `insert` of an order does: it returns whether the reference was new and not 0, and if so
-- the map has the order at the reference and is otherwise the same.
pub record Inserts (t : OrderIndex) (ref : ℕ) (o : Order) (g : OrderIndex) (inserted : Bool)
    : Type 0 where
  pub valid : IsValid g
  pub returns : inserted ≡ (not (ref == 0) && not (is_some (lookup t.slots ref)))
  pub size : g.size ≡ t.size + (if inserted then 1 else 0)
  pub orders :
      (r : ℕ)
      → r ≢ 0
      → lookup g.slots r ≡ (if inserted && r == ref then some o else lookup t.slots r)
  pub weights :
      (w : Slot → ℕ)
      → weight w g.slots
        ≡ weight w t.slots + (if inserted then w (record { ref = ref; order = o }) else 0)
  pub width : IsWithin t g

-- A table with room: a valid one that need not grow, or the one that `grow` made.
pub record Roomy (t g : OrderIndex) : Type 0 where
  valid : IsValid g
  table : IsTable g.mask g.slots
  not_full : live g.slots < length g.slots
  size : g.size ≡ t.size
  counted : live g.slots ≡ g.size
  roomy : g.size + 1 ≤ g.grow_at
  threshold : g.grow_at ≡ length g.slots - length g.slots / 4
  wide : 256 ≤ length g.slots
  orders : (r : ℕ) → r ≢ 0 → lookup g.slots r ≡ lookup t.slots r
  weights : (w : Slot → ℕ) → weight w g.slots ≡ weight w t.slots
  width : IsWithin t g

-- A table grows only when three quarters of it are in use.
capacity_within :
    (t g : OrderIndex)
    → IsValid t
    → Grown t g
    → t.grow_at < t.size + 1
    → (n : ℕ) → length t.slots ≤ n
    → 256 + 4 * t.size ≤ n
    → length g.slots ≤ n
capacity_within t g (unused e s a) h tight n le le' = omega (arith, h.capacity, ap length e)
capacity_within t g (used table c f th w) h tight n le le' = omega (arith, h.capacity, th)

make_room_lem :
    (t : OrderIndex)
    → IsValid t
    → length t.slots ≤ 2 ^ 61
    → (g : OrderIndex) × (make_room t ≡ some g) × Roomy t g
unfolding make_room
make_room_lem t v small = elim (Bool-cases (ltb t.grow_at (t.size + 1))) [
  | inl tight ↦
      let (g, e, h) = grow_lem t v small in
      (
        g,
        rw tight e,
        record {
          valid = h.valid;
          table = h.used_table;
          not_full = h.not_full;
          size = h.size;
          counted = h.counted;
          roomy = h.roomy;
          threshold = h.threshold;
          wide = h.wide;
          orders = λ r ne.
              lookup_ext g.slots t.slots r (IsValid-IsUnique g h.valid) (IsValid-IsUnique t v) ne
                (λ o. h.same r o ne);
          weights = h.weights;
          width = λ n le le'. capacity_within t g v h (ground arith) n le le';
        },
      )
  | inr roomy ↦ (t, rw roomy refl, stays t v (ground arith))
]
  where
    stays : (t : OrderIndex) → IsValid t → t.size + 1 ≤ t.grow_at → Roomy t t
    stays t (unused e s a) h = absurd (omega arith)
    stays t (used table c f th w) h = record {
      valid = used table c f th w;
      table = table;
      not_full = room-used t c f th w;
      size = refl;
      counted = c;
      roomy = h;
      threshold = th;
      wide = w;
      orders = λ r ne. refl;
      weights = λ w. refl;
      width = λ n le le'. le;
    }

insert_free :
    (t g : OrderIndex) (ref : ℕ) (o : Order) (ne : ref ≢ 0) (room : Roomy t g) (i : ℕ)
    → IsAbsent g.slots ref
    → IsFree (length g.slots) (home g.mask) (refs g.slots) ref i
    → Inserts t ref o
        (record g { slots = set g.slots i (record { ref = ref; order = o }); size = g.size + 1 })
        true
insert_free t g ref o ne room i absent free =
    let s : Slot = record { ref = ref; order = o } in
    let xs = set g.slots i s in
    let table : IsTable g.mask xs = set-IsTable room.table s i ne absent free in
    let count : live xs ≡ live g.slots + 1 = weight-set_free room.table s i ne absent free one in
    let width = length-set g.slots i s in
    record {
      valid =
          used table (omega (arith, count, room.counted)) room.roomy
            (room.threshold ∙ ap (λ (n : ℕ). n - n / 4) (sym width)) (omega (arith, room.wide));
      returns = rw (← room.orders ref ne, lookup-absent g.slots ref absent) (ground arith);
      size = omega (arith, room.size);
      orders = λ r nz. elim (Bool-cases (r == ref)) [
        | inl hit ↦ rw hit (
            Holds-lookup xs r o table.chains.unique nz (
              (Holds-set room.table s i ne absent free r o nz).1
                (inl (ap (λ (k : ℕ). record { ref = k; order = o }) (sym ((==_iff r ref).0 hit))))))
        | inr miss ↦ rw miss (
            lookup_ext xs g.slots r table.chains.unique (IsValid-IsUnique g room.valid) nz (λ o'. (
              (λ h. elim ((Holds-set room.table s i ne absent free r o' nz).0 h) [
                | inl e ↦ absurd (unequal r miss (ap (λ (k : Slot). k.ref) e))
                | inr before ↦ before
              ]),
              λ h. (Holds-set room.table s i ne absent free r o' nz).1 (inr h),
            ))
            ∙ room.orders r nz)
      ];
      weights = λ w. omega (arith, weight-set_free room.table s i ne absent free w, room.weights w);
      width = λ n le le'. omega (arith, width, room.width n le le');
    }
  where
    unequal : (r : ℕ) → (r == ref) ≡ false → ref ≢ r
    unequal r miss e = ground arith

insert_end :
    (t g : OrderIndex) (ref : ℕ) (o : Order)
    → ref ≢ 0
    → Roomy t g
    → (h : OrderIndex) × (b : Bool) × (place g ref o
          (probe (length g.slots) g.slots g.mask ref (home g.mask ref))
        ≡ some (h, b))
      × Inserts t ref o h b
unfolding place
insert_end t g ref o ne room = elim (probe-home room.table room.not_full ref ne) [
  | inl (i, e, hi, same) ↦
      let old : lookup g.slots ref ≡ some (slot g.slots i).order =
        Holds-lookup g.slots ref (slot g.slots i).order (IsValid-IsUnique g room.valid) ne
          (i, hi, ap (λ (k : ℕ). record { ref = k; order = (slot g.slots i).order }) same) in
      (
        g,
        false,
        rw e refl,
        record {
          valid = room.valid;
          returns = rw (← room.orders ref ne, old) (ground arith);
          size = omega (arith, room.size);
          orders = room.orders;
          weights = λ w. omega (arith, room.weights w);
          width = room.width;
        },
      )
  | inr (i, e, at_free, absent) ↦ (
    record g { slots = set g.slots i (record { ref = ref; order = o }); size = g.size + 1 },
    true,
    rw e refl,
    insert_free t g ref o ne room i absent at_free,
  )
]

-- On a valid table of at most 2 ^ 61 slots `insert` ends, and leaves a valid table. It returns
-- false exactly if the reference is 0 or live already. If it returns true, the size has grown by
-- one, the map has the packed order at the reference and is unchanged at all others, and every
-- measure summed over the live slots has grown by that of the new slot; if it returns false,
-- size, map and sums are unchanged. Any bound on the number of slots that is at least 256 and
-- four times the old size still holds.
pub insert_correct :
    (t : OrderIndex) (ref quantity price : ℕ) (is_buy : Bool)
    → IsValid t
    → length t.slots ≤ 2 ^ 61
    → (g : OrderIndex) × (b : Bool) × (insert t ref quantity price is_buy ≡ some (g, b))
      × Inserts t ref (record { shares = pack quantity is_buy; price = price }) g b
unfolding insert
insert_correct t ref quantity price is_buy v small = elim (Bool-cases (ref == 0)) [
  | inl zero_ref ↦ (
    t,
    false,
    rw zero_ref refl,
    record {
      valid = v;
      returns = rw zero_ref refl;
      size = omega arith;
      orders = λ r ne. refl;
      weights = λ w. omega arith;
      width = λ n le le'. le;
    },
  )
  | inr live_ref ↦
      let (g, e, room) = make_room_lem t v small in
      let (h, b, placed, result) =
        insert_end t g ref (record { shares = pack quantity is_buy; price = price })
          (λ z. ground arith) room in
      (h, b, rw (live_ref, e) placed, result)
]
