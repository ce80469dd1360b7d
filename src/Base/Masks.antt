-- ===== src/Base/Masks.antt =====
-- What the program's masks and shifts compute: `|` of disjoint fields, `&` with a low mask, and the
-- top bit that marks the side of an order.
use Prim.Native.Nat.{
  ℕ, zero, suc, ◌+◌, ◌-◌, ◌*◌, ◌/◌, ◌%◌, ◌^◌, ◌≤◌, ◌<◌, bit_and, bit_or, bit_or-bitwise,
  bit_and-bitwise,
}
use mathlib.Core.Path.{◌≡◌, refl, sym}
use native.Mathlib.Nat.{pow-suc, one-le-pow, div-add-mod', mod-lt}
use native.Mathlib.Omega.{arith}
use nasdaq_itch_trading_syst.Base.Bits.{bit_or_lowest, bit_and_lowest, bit_or_split, bit_and_split}

pub zero-bit_or : (a : ℕ) → bit_or 0 a ≡ a
zero-bit_or a = bit_or-bitwise 0 a

pub zero-bit_and : (a : ℕ) → bit_and 0 a ≡ 0
zero-bit_and a = bit_and-bitwise 0 a

halving : (P : ℕ → Type 0) → P 0 → ((n : ℕ) → P (suc n / 2) → P (suc n)) → (n m : ℕ) → m ≤ n → P m
halving P base step n zero h = base
halving P base step zero (suc m) h = absurd (omega arith)
halving P base step (suc n) (suc m) h = step m (halving P base step n (suc m / 2) (omega arith))

pub bit_or-zero : (a : ℕ) → bit_or a 0 ≡ a
bit_or-zero a =
    halving (λ n. bit_or n 0 ≡ n) refl (λ n ih. omega (arith, bit_or_lowest (suc n) 0)) a a
      (omega arith)

pub bit_and-zero : (a : ℕ) → bit_and a 0 ≡ 0
bit_and-zero a =
    halving (λ n. bit_and n 0 ≡ 0) refl (λ n ih. omega (arith, bit_and_lowest (suc n) 0)) a a
      (omega arith)

-- The split of `Bits` at any `a` and `b` whose fields are known.
pub or_parts :
    (k q r p s a b : ℕ)
    → r < 2 ^ k
    → s < 2 ^ k
    → a ≡ q * 2 ^ k + r
    → b ≡ p * 2 ^ k + s
    → bit_or a b ≡ bit_or q p * 2 ^ k + bit_or r s
or_parts k q r p s a b hr hs ea eb = rw (ea, eb) (bit_or_split k q r p s hr hs)

and_parts :
    (k q r p s a b : ℕ)
    → r < 2 ^ k
    → s < 2 ^ k
    → a ≡ q * 2 ^ k + r
    → b ≡ p * 2 ^ k + s
    → bit_and a b ≡ bit_and q p * 2 ^ k + bit_and r s
and_parts k q r p s a b hr hs ea eb = rw (ea, eb) (bit_and_split k q r p s hr hs)

-- `(q << k) | r` is a sum when `r` fits into `k` bits.
pub bit_or_fields : (k q r : ℕ) → r < 2 ^ k → bit_or (q * 2 ^ k) r ≡ q * 2 ^ k + r
bit_or_fields k q r h = rw (
  or_parts k q 0 0 r (q * 2 ^ k) r (omega arith) h (omega arith) (omega arith),
  bit_or-zero q,
  zero-bit_or r,
)

full_mask : (k r : ℕ) → r < 2 ^ k → bit_and r (2 ^ k - 1) ≡ r
full_mask zero r h = let e : r ≡ 0 = omega arith in rw e (bit_and-zero 0)
full_mask (suc k) r h =
    let m : (2 ^ suc k - 1) / 2 ≡ 2 ^ k - 1 = omega (arith, pow-suc 2 k, one-le-pow k 2) in
    let o : (2 ^ suc k - 1) % 2 ≡ 1 = omega (arith, pow-suc 2 k, one-le-pow k 2) in
    rw (bit_and_lowest r (2 ^ suc k - 1), m, o, full_mask k (r / 2) (omega (arith, pow-suc 2 k)))
      (omega arith)

-- `a & (2^k - 1)` is the remainder by `2^k`.
pub bit_and_mask : (k a : ℕ) → bit_and a (2 ^ k - 1) ≡ a % 2 ^ k
bit_and_mask k a =
    let pos : 0 < 2 ^ k = one-le-pow k 2 (omega arith) in
    let low : a % 2 ^ k < 2 ^ k = mod-lt a pos in
    let whole : a ≡ a / 2 ^ k * 2 ^ k + a % 2 ^ k = sym (div-add-mod' a (2 ^ k)) in
    let split : _ ≡ _ =
      and_parts k (a / 2 ^ k) (a % 2 ^ k) 0 (2 ^ k - 1) a (2 ^ k - 1) low (omega arith) whole
        (omega arith) in
    rw (split, bit_and-zero, full_mask k (a % 2 ^ k) low) (omega arith)

-- `a & 2^k` keeps one bit.
pub bit_and_bit : (k a : ℕ) → bit_and a (2 ^ k) ≡ a / 2 ^ k % 2 * 2 ^ k
bit_and_bit k a =
    let pos : 0 < 2 ^ k = one-le-pow k 2 (omega arith) in
    let low : a % 2 ^ k < 2 ^ k = mod-lt a pos in
    let whole : a ≡ a / 2 ^ k * 2 ^ k + a % 2 ^ k = sym (div-add-mod' a (2 ^ k)) in
    let split : _ ≡ _ =
      and_parts k (a / 2 ^ k) (a % 2 ^ k) 1 0 a (2 ^ k) low pos whole (omega arith) in
    let one : bit_and (a / 2 ^ k) 1 ≡ a / 2 ^ k % 2 =
      omega (arith, bit_and_lowest (a / 2 ^ k) 1, bit_and-zero (a / 2 ^ k / 2)) in
    rw (split, one, bit_and-zero) (omega arith)
