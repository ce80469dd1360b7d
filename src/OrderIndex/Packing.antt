-- ===== src/OrderIndex/Packing.antt =====
-- The side bit that `Order` of src/common/flat_hash_map.h keeps in its share count.
use nasdaq_itch_trading_syst.Base.{
  ℕ, ◌<◌, ◌^◌, ◌≡◌, Bool, true, false, arith, bit_or, bit_and, ◌+◌, not, ◌==◌, or_parts,
  bit_or-zero, bit_and_mask, bit_and_bit,
}
use nasdaq_itch_trading_syst.OrderIndex.{side_bit, qty, buy, pack}

sold_bit : (quantity : ℕ) → quantity < 2 ^ 31 → bit_or quantity side_bit ≡ 2 ^ 31 + quantity
sold_bit quantity small =
    let e =
      or_parts 31 0 quantity 1 0 quantity side_bit small (omega arith) (omega arith)
        (omega arith) in
    omega (arith, e, bit_or-zero quantity)

-- An order packed from fewer than 2 ^ 31 shares and a side gives both back.
pub pack_lem :
    (quantity price : ℕ) (is_buy : Bool)
    → quantity < 2 ^ 31
    → (qty (record { shares = pack quantity is_buy; price = price }) ≡ quantity)
      × (buy (record { shares = pack quantity is_buy; price = price }) ≡ is_buy)
unfolding pack qty buy
pack_lem quantity price true small =
    let e = sold_bit quantity small in
    let m = bit_and_mask 31 (bit_or quantity side_bit) in
    let b = bit_and_bit 31 (bit_or quantity side_bit) in
    (
      omega (arith, e, m),
      bought (bit_and (bit_or quantity side_bit) side_bit) (omega (arith, e, b)),
    )
  where
    bought : (n : ℕ) → n ≡ 2 ^ 31 → not (n == 0) ≡ true
    bought n e = ground arith
pack_lem quantity price false small =
    let m = bit_and_mask 31 quantity in
    let b = bit_and_bit 31 quantity in
    (omega (arith, m), sold (bit_and quantity side_bit) (omega (arith, b)))
  where
    sold : (n : ℕ) → n ≡ 0 → not (n == 0) ≡ false
    sold n e = ground arith
