-- ===== src/Base/Bits.antt =====
-- `|` and `&` of native numbers, digit by digit and field by field, as arithmetic.
use Prim.Native.Nat.{
  ℕ, zero, suc, ◌+◌, ◌*◌, ◌/◌, ◌%◌, ◌^◌, ◌≤◌, ◌<◌, min, max, bit_and, bit_or, digits, bitwise,
  bit_and-bitwise, bit_or-bitwise,
}
use mathlib.Core.Path.{◌≡◌, refl, ap}
use native.Mathlib.Nat.{pow-suc}
use native.Mathlib.Omega.{arith}

-- The operations are a recursion on binary digits with fuel; any fuel from the number up will do.
module _ (z : ℕ → ℕ) (f : ℕ → ℕ → ℕ) where
  enough_digits : (m n a b : ℕ) → a ≤ m → a ≤ n → digits z f m a b ≡ digits z f n a b
  enough_digits zero zero zero b h k = refl
  enough_digits zero (suc n) zero b h k = refl
  enough_digits (suc m) zero zero b h k = refl
  enough_digits (suc m) (suc n) zero b h k = refl
  enough_digits zero n (suc a) b h k = absurd (omega arith)
  enough_digits (suc m) zero (suc a) b h k = absurd (omega arith)
  enough_digits (suc m) (suc n) (suc a) b h k =
      ap (λ (t : ℕ). t * 2 + f (suc a % 2) (b % 2))
        (enough_digits m n (suc a / 2) (b / 2) (omega arith) (omega arith))

  bitwise_lowest :
      (a b : ℕ)
      → bitwise z f (suc a) b ≡ bitwise z f (suc a / 2) (b / 2) * 2 + f (suc a % 2) (b % 2)
  bitwise_lowest a b =
      ap (λ (t : ℕ). t * 2 + f (suc a % 2) (b % 2))
        (enough_digits a (suc a / 2) (suc a / 2) (b / 2) (omega arith) (omega arith))

pub bit_or_lowest : (a b : ℕ) → bit_or a b ≡ bit_or (a / 2) (b / 2) * 2 + max (a % 2) (b % 2)
bit_or_lowest zero b = simp bit_or-bitwise (omega arith)
bit_or_lowest (suc a) b = simp bit_or-bitwise (bitwise_lowest (λ y. y) max a b)

pub bit_and_lowest : (a b : ℕ) → bit_and a b ≡ bit_and (a / 2) (b / 2) * 2 + min (a % 2) (b % 2)
bit_and_lowest zero b = simp bit_and-bitwise (omega arith)
bit_and_lowest (suc a) b = simp bit_and-bitwise (bitwise_lowest (λ y. 0) min a b)

-- Both split at any bit: the low `k` bits and the rest do not meet.
pow_lem : (q k : ℕ) → q * 2 ^ suc k ≡ 2 * (q * 2 ^ k)
pow_lem q k = omega (arith, ap (λ (t : ℕ). q * t) (pow-suc 2 k))

pub bit_or_split :
    (k q r p s : ℕ)
    → r < 2 ^ k
    → s < 2 ^ k
    → bit_or (q * 2 ^ k + r) (p * 2 ^ k + s) ≡ bit_or q p * 2 ^ k + bit_or r s
bit_or_split zero q r p s hr hs =
    let er : r ≡ 0 = omega arith in
    let es : s ≡ 0 = omega arith in
    let eq : q * 2 ^ zero + 0 ≡ q = omega arith in
    let ep : p * 2 ^ zero + 0 ≡ p = omega arith in rw (er, es, eq, ep) (omega arith)
bit_or_split (suc k) q r p s hr hs =
    let e : r / 2 < 2 ^ k = omega (arith, pow-suc 2 k) in
    let d : s / 2 < 2 ^ k = omega (arith, pow-suc 2 k) in
    let x : (q * 2 ^ suc k + r) / 2 ≡ q * 2 ^ k + r / 2 = omega (arith, pow_lem q k) in
    let y : (p * 2 ^ suc k + s) / 2 ≡ p * 2 ^ k + s / 2 = omega (arith, pow_lem p k) in
    let x0 : (q * 2 ^ suc k + r) % 2 ≡ r % 2 = omega (arith, pow_lem q k) in
    let y0 : (p * 2 ^ suc k + s) % 2 ≡ s % 2 = omega (arith, pow_lem p k) in
    rw
      (
        bit_or_lowest (q * 2 ^ suc k + r) (p * 2 ^ suc k + s),
        x,
        y,
        x0,
        y0,
        bit_or_split k q (r / 2) p (s / 2) e d,
      )
      (omega (arith, bit_or_lowest r s, pow_lem (bit_or q p) k))

pub bit_and_split :
    (k q r p s : ℕ)
    → r < 2 ^ k
    → s < 2 ^ k
    → bit_and (q * 2 ^ k + r) (p * 2 ^ k + s) ≡ bit_and q p * 2 ^ k + bit_and r s
bit_and_split zero q r p s hr hs =
    let er : r ≡ 0 = omega arith in
    let es : s ≡ 0 = omega arith in
    let eq : q * 2 ^ zero + 0 ≡ q = omega arith in
    let ep : p * 2 ^ zero + 0 ≡ p = omega arith in rw (er, es, eq, ep) (omega arith)
bit_and_split (suc k) q r p s hr hs =
    let e : r / 2 < 2 ^ k = omega (arith, pow-suc 2 k) in
    let d : s / 2 < 2 ^ k = omega (arith, pow-suc 2 k) in
    let x : (q * 2 ^ suc k + r) / 2 ≡ q * 2 ^ k + r / 2 = omega (arith, pow_lem q k) in
    let y : (p * 2 ^ suc k + s) / 2 ≡ p * 2 ^ k + s / 2 = omega (arith, pow_lem p k) in
    let x0 : (q * 2 ^ suc k + r) % 2 ≡ r % 2 = omega (arith, pow_lem q k) in
    let y0 : (p * 2 ^ suc k + s) % 2 ≡ s % 2 = omega (arith, pow_lem p k) in
    rw
      (
        bit_and_lowest (q * 2 ^ suc k + r) (p * 2 ^ suc k + s),
        x,
        y,
        x0,
        y0,
        bit_and_split k q (r / 2) p (s / 2) e d,
      )
      (omega (arith, bit_and_lowest r s, pow_lem (bit_and q p) k))
