-- ===== src/OrderIndex.antt =====
-- Order reference to resting order, src/common/flat_hash_map.h: open addressing with linear
-- probing and backward shift deletion. A result `none` is a probe loop that never ends. `slots_[i]`
-- is read by `slot`; every index is masked, and so lies within the table.
pub mod Ring
pub mod Slots
pub mod Chains
pub mod Holes
pub mod Tables
pub mod Probes
pub mod Valid
pub mod Growth
pub mod Rebuild
pub mod Lookup
pub mod Erasure
pub mod Finding
pub mod Insertion
pub mod Removal
pub mod Moves
pub mod Shifts
pub mod Packing
pub mod Writes
pub mod Examples
use nasdaq_itch_trading_syst.Base.{
  ℕ, zero, suc, ◌+◌, ◌-◌, ◌*◌, ◌/◌, ◌^◌, Bool, true, false, not, ◌&&◌, Option, none, some, List, [],
  ◌∷◌, bit_and, bit_or, bit_xor, u64, sub_u64, length, get_or, set, replicate, ltb, leb, ◌==◌,
  if◌then◌else◌, ◌>>=◌,
}

-- kSideBit and kInitial.
abbrev pub side_bit : ℕ
side_bit = 0x8000_0000

abbrev pub initial : ℕ
initial = 256

pub record Order : Type 0 where
  pub shares : ℕ
  pub price : ℕ

-- `shares & ~kSideBit`.
unfoldable pub qty : Order → ℕ
qty o = bit_and o.shares 0x7fff_ffff

unfoldable pub buy : Order → Bool
buy o = not (bit_and o.shares side_bit == 0)

-- `buy ? (qty | kSideBit) : qty`.
unfoldable pub pack : ℕ → Bool → ℕ
pack quantity is_buy = if is_buy then bit_or quantity side_bit else quantity

pub record Slot : Type 0 where
  pub ref : ℕ
  pub order : Order

abbrev pub empty_slot : Slot
empty_slot = record { ref = 0; order = record { shares = 0; price = 0 } }

pub record OrderIndex : Type 0 where
  pub slots : List Slot
  pub mask : ℕ
  pub size : ℕ
  pub grow_at : ℕ
  pub rehashes : ℕ

unfoldable pub new : OrderIndex
new = record { slots = []; mask = 0; size = 0; grow_at = 0; rehashes = 0 }

abbrev pub slot : List Slot → ℕ → Slot
slot slots i = get_or slots i empty_slot

unfoldable pub home : ℕ → ℕ → ℕ
home mask ref = let h = u64 (ref * 0x9e37_79b9_7f4a_7c15) in bit_and (bit_xor h (h / 2 ^ 32)) mask

unfoldable pub home_slot : OrderIndex → ℕ → ℕ
unfolding home
home_slot t ref = home t.mask ref

-- `(i + 1) & mask_`.
unfoldable pub advance : ℕ → ℕ → ℕ
advance mask i = bit_and (u64 (i + 1)) mask

-- `(to - from) & mask_`, the way forward around the ring.
unfoldable pub distance : ℕ → ℕ → ℕ → ℕ
distance mask from to = bit_and (sub_u64 to from) mask

-- Where the probe loop of `insert`, `find` and `erase` ends: at the reference, at an empty slot, or
-- (`lost`) not within its fuel.
pub data Probe : Type 0 where
  found free : ℕ → Probe
  lost : Probe

unfoldable pub probe : ℕ → List Slot → ℕ → ℕ → ℕ → Probe
probe zero slots mask ref i = lost
probe (suc fuel) slots mask ref i =
    let rest = probe fuel slots mask ref (advance mask i) in
    if (slot slots i).ref == 0 then free i else if (slot slots i).ref == ref then found i else rest

-- The loop of `grow`, which looks for an empty slot only.
unfoldable pub settle : ℕ → List Slot → ℕ → ℕ → Option ℕ
settle zero slots mask i = none
settle (suc fuel) slots mask i =
    let rest = settle fuel slots mask (advance mask i) in
    if (slot slots i).ref == 0 then some i else rest

-- The loop over the old slots; the new table and its size so far.
unfoldable pub rebuild : List Slot → ℕ → List Slot → ℕ → Option (List Slot × ℕ)
rebuild [] mask slots size = some (slots, size)
rebuild (s ∷ old) mask slots size = elim (s.ref == 0) [
  | true ↦ rebuild old mask slots size
  | false ↦ settle (length slots) slots mask (home mask s.ref) >>= λ i.
      rebuild old mask (set slots i s) (size + 1)
]

-- The next capacity: `slots_.empty() ? kInitial : slots_.size() * 2`.
unfoldable pub next_capacity : List Slot → ℕ
next_capacity [] = initial
next_capacity (s ∷ slots) = u64 (length (s ∷ slots) * 2)

unfoldable pub grow : OrderIndex → Option OrderIndex
unfolding next_capacity rebuild settle
grow t =
    let next = next_capacity t.slots in
    rebuild t.slots (next - 1) (replicate next empty_slot) 0 >>= λ r. some (record {
      slots = r.0;
      mask = next - 1;
      size = r.1;
      grow_at = next - next / 4;
      rehashes = if length t.slots == 0 then t.rehashes else t.rehashes + 1;
    })

-- The end of `insert`, once the probe has ended.
unfoldable pub place : OrderIndex → ℕ → Order → Probe → Option (OrderIndex × Bool)
place t ref order (found i) = some (t, false)
place t ref order (free i) = some (
  record t { slots = set t.slots i (record { ref = ref; order = order }); size = t.size + 1 },
  true,
)
place t ref order lost = none

-- `if (size_ + 1 > grow_at_) grow();`
unfoldable pub make_room : OrderIndex → Option OrderIndex
make_room t = if ltb t.grow_at (t.size + 1) then grow t else some t

unfoldable pub insert : OrderIndex → ℕ → ℕ → ℕ → Bool → Option (OrderIndex × Bool)
unfolding make_room place
insert t ref quantity price is_buy =
    if ref == 0
    then some (t, false)
    else make_room t >>= λ g.
        place g ref (record { shares = pack quantity is_buy; price = price })
          (probe (length g.slots) g.slots g.mask ref (home g.mask ref))

-- The slot of the reference, or `some none` for the null pointer.
unfoldable pub find_end : Probe → Option (Option ℕ)
find_end (found i) = some (some i)
find_end (free i) = some none
find_end lost = none

unfoldable pub find : OrderIndex → ℕ → Option (Option ℕ)
unfolding find_end
find t ref =
    if t.size == 0
    then some none
    else find_end (probe (length t.slots) t.slots t.mask ref (home t.mask ref))

-- `backward_shift`: the hole, and the slot that was looked at last.
unfoldable pub backward_shift : ℕ → List Slot → ℕ → ℕ → ℕ → Option (List Slot)
backward_shift zero slots mask hole j = none
backward_shift (suc fuel) slots mask hole j =
    let j' = advance mask j in
    let s = slot slots j' in
    let dist_j = distance mask hole j' in
    let dist_home = distance mask hole (home mask s.ref) in
    let keep = backward_shift fuel slots mask hole j' in
    let move = backward_shift fuel (set slots hole s) mask j' j' in
    if s.ref == 0
    then some (set slots hole empty_slot)
    else if leb dist_home dist_j && not (dist_home == 0)
    then keep
    else move

unfoldable pub erase_end : OrderIndex → Probe → Option (OrderIndex × Bool)
erase_end t (found i) = backward_shift (length t.slots) t.slots t.mask i i >>= λ slots.
    some (record t { slots = slots; size = t.size - 1 }, true)
erase_end t (free i) = some (t, false)
erase_end t lost = none

unfoldable pub erase : OrderIndex → ℕ → Option (OrderIndex × Bool)
unfolding erase_end
erase t ref =
    if t.size == 0
    then some (t, false)
    else erase_end t (probe (length t.slots) t.slots t.mask ref (home t.mask ref))

-- `order_p->shares = shares` through the pointer that `find` returned.
unfoldable pub write_shares : OrderIndex → ℕ → ℕ → OrderIndex
write_shares t i shares =
    let s = slot t.slots i in
    let order : Order = record { shares = shares; price = s.order.price } in
    record t { slots = set t.slots i (record { ref = s.ref; order = order }) }
