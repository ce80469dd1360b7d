-- ===== src/OrderIndex/Examples.antt =====
-- Runs of the table of src/common/flat_hash_map.h on concrete orders.
use nasdaq_itch_trading_syst.Base.{
  ℕ, ◌≤◌, ◌^◌, ◌≡◌, refl, Bool, true, false, some, arith, length, set, replicate, subst,
}
use nasdaq_itch_trading_syst.OrderIndex.{
  OrderIndex, probe, advance, qty, buy, new, home, insert, find, erase, empty_slot, pack, make_room,
  grow, place,
}
use nasdaq_itch_trading_syst.OrderIndex.Packing.{pack_lem}
use nasdaq_itch_trading_syst.OrderIndex.Valid.{IsValid, new-IsValid}
use nasdaq_itch_trading_syst.OrderIndex.Finding.{Finds, find_correct}
use nasdaq_itch_trading_syst.OrderIndex.Insertion.{Inserts, insert_correct}
use nasdaq_itch_trading_syst.OrderIndex.Removal.{Erases, erase_correct}

-- The table after the first order.
abbrev pub one_order : OrderIndex
one_order = record {
  slots =
      set (replicate 256 empty_slot) 129
        (record { ref = 7; order = record { shares = 100; price = 5000 } });
  mask = 255;
  size = 1;
  grow_at = 192;
  rehashes = 0;
}

pub runs : insert new 7 100 5000 false ≡ some (one_order, true)
unfolding insert make_room grow place probe home advance new pack
runs = refl

inserted-IsValid :
    (t g : OrderIndex) (ref quantity price : ℕ) (is_buy b : Bool)
    → IsValid t
    → length t.slots ≤ 2 ^ 61
    → insert t ref quantity price is_buy ≡ some (g, b)
    → IsValid g
inserted-IsValid t g ref quantity price is_buy b v small e =
    let (g', b', e', h) = insert_correct t ref quantity price is_buy v small in
    let same : g' ≡ g = cc in subst IsValid same h.valid

none_yet : length new.slots ≤ 2 ^ 61
unfolding new
none_yet = omega arith

pub one_order-IsValid : IsValid one_order
one_order-IsValid = inserted-IsValid new one_order 7 100 5000 false true new-IsValid none_yet runs

find_correct_example : Finds one_order 7 (find one_order 7)
find_correct_example = find_correct one_order 7 one_order-IsValid (omega arith)

insert_correct_example :
    (g : OrderIndex) × (b : Bool) × (insert one_order 263 9 8 true ≡ some (g, b))
    × Inserts one_order 263 (record { shares = pack 9 true; price = 8 }) g b
insert_correct_example = insert_correct one_order 263 9 8 true one_order-IsValid (omega arith)

erase_correct_example :
    (g : OrderIndex) × (b : Bool) × (erase one_order 7 ≡ some (g, b)) × Erases one_order 7 g b
erase_correct_example = erase_correct one_order 7 one_order-IsValid (omega arith)

pack_lem_example :
    (qty (record { shares = pack 300 true; price = 5000 }) ≡ 300)
    × (buy (record { shares = pack 300 true; price = 5000 }) ≡ true)
pack_lem_example = pack_lem 300 5000 true (omega arith)
