-- ===== src/Book/Bitmap/Marks.antt =====
-- The bits that setting and clearing one cell of the bitmap of src/book/price_levels.cc change.
use nasdaq_itch_trading_syst.Base.{
  ℕ, zero, suc, ◌-◌, ◌*◌, ◌/◌, ◌%◌, ◌^◌, ◌<◌, ◌≡◌, min, max, bit_and, bit_or, refl, ◌∙◌, subst,
  arith, bit_and_lowest, bit_or_lowest, zero-bit_and, get_or-set, get_or-set_other, length-set, ◌≢◌,
  true, false, if◌then◌else◌, ◌==◌, List, length, get_or, set, bit_and_mask, All, [], ◌∷◌,
}
use native.Mathlib.Nat.{pow-suc, pow-le-pow_right}
use native.Mathlib.Decide.{ℕ_discrete}
use nasdaq_itch_trading_syst.Book.Bitmap.{bit_of, set_bit, clear_bit, test_bit}
use nasdaq_itch_trading_syst.Book.Bitmap.Scan.{bit_at, bit_at-suc, test_bit-bit_at, zero_word}

pub bit_at-bit_and : (a b k : ℕ) → bit_at (bit_and a b) k ≡ min (bit_at a k) (bit_at b k)
bit_at-bit_and a b zero = omega (arith, bit_and_lowest a b)
bit_at-bit_and a b (suc k) =
    let half : bit_and a b / 2 ≡ bit_and (a / 2) (b / 2) = omega (arith, bit_and_lowest a b) in
    rw (bit_at-suc (bit_and a b) k, half, bit_at-suc a k, bit_at-suc b k)
      (bit_at-bit_and (a / 2) (b / 2) k)

bit_at-bit_or : (a b k : ℕ) → bit_at (bit_or a b) k ≡ max (bit_at a k) (bit_at b k)
bit_at-bit_or a b zero = omega (arith, bit_or_lowest a b)
bit_at-bit_or a b (suc k) =
    let half : bit_or a b / 2 ≡ bit_or (a / 2) (b / 2) = omega (arith, bit_or_lowest a b) in
    rw (bit_at-suc (bit_or a b) k, half, bit_at-suc a k, bit_at-suc b k)
      (bit_at-bit_or (a / 2) (b / 2) k)

bit_at-pow : (b k : ℕ) → bit_at (2 ^ b) k ≡ (if b == k then 1 else 0)
bit_at-pow zero zero = refl
bit_at-pow zero (suc k) = bit_at-suc 1 k ∙ zero_word 0 k refl ∙ ground arith
bit_at-pow (suc b) zero =
    let even : 2 ^ suc b / 2 ^ 0 % 2 ≡ 0 = omega (arith, pow-suc 2 b) in rw even (ground arith)
bit_at-pow (suc b) (suc k) =
    let half : 2 ^ suc b / 2 ≡ 2 ^ b = omega (arith, pow-suc 2 b) in
    rw (bit_at-suc (2 ^ suc b) k, half, bit_at-pow b k) (ground arith)

bit_at-complement : (n x k : ℕ) → x < 2 ^ n → k < n → bit_at (2 ^ n - 1 - x) k ≡ 1 - bit_at x k
bit_at-complement zero x k small h = absurd (omega arith)
bit_at-complement (suc n) x zero small h = omega (arith, pow-suc 2 n)
bit_at-complement (suc n) x (suc k) small h =
    let p : 2 ^ suc n ≡ 2 * 2 ^ n = omega (arith, pow-suc 2 n) in
    let half : (2 ^ suc n - 1 - x) / 2 ≡ 2 ^ n - 1 - x / 2 = omega arith in
    rw (bit_at-suc (2 ^ suc n - 1 - x) k, half, bit_at-suc x k)
      (bit_at-complement n (x / 2) k (omega arith) (omega arith))

bit_or-lt : (n a b : ℕ) → a < 2 ^ n → b < 2 ^ n → bit_or a b < 2 ^ n
bit_or-lt zero a b ha hb =
    let e : a ≡ 0 = omega arith in
    let f : b ≡ 0 = omega arith in rw (e, f) (omega (arith, bit_or_lowest 0 0))
bit_or-lt (suc n) a b ha hb = omega (
  arith,
  pow-suc 2 n,
  bit_or_lowest a b,
  bit_or-lt n (a / 2) (b / 2) (omega (arith, pow-suc 2 n)) (omega (arith, pow-suc 2 n)),
)

pub bit_and-lt : (n a b : ℕ) → a < 2 ^ n → bit_and a b < 2 ^ n
bit_and-lt zero a b ha = let e : a ≡ 0 = omega arith in rw (e, zero-bit_and b) (omega arith)
bit_and-lt (suc n) a b ha = omega (
  arith,
  pow-suc 2 n,
  bit_and_lowest a b,
  bit_and-lt n (a / 2) (b / 2) (omega (arith, pow-suc 2 n)),
)

place_lem : (i : ℕ) → bit_and i 63 ≡ i % 64
place_lem i = omega (arith, bit_and_mask 6 i)

-- Words of 64 bits.
abbrev pub AreWords : List ℕ → Type 0
AreWords = All (λ (word : ℕ). word < 2 ^ 64)

pub word-lt : (bits : List ℕ) (v : ℕ) → AreWords bits → get_or bits v 0 < 2 ^ 64
word-lt [] v small = omega arith
word-lt (word ∷ bits) zero small = small.0
word-lt (word ∷ bits) (suc v) small = word-lt bits v small.1

set-AreWords : (bits : List ℕ) (i v : ℕ) → AreWords bits → v < 2 ^ 64 → AreWords (set bits i v)
set-AreWords [] i v small h = tt
set-AreWords (word ∷ bits) zero v small h = (h, small.1)
set-AreWords (word ∷ bits) (suc i) v small h = (small.0, set-AreWords bits i v small.1 h)

pow-lt : (i : ℕ) → 2 ^ (i % 64) < 2 ^ 64
pow-lt i = omega (arith, pow-le-pow_right {n = 2} (omega arith) {i = i % 64} {j = 63} (omega arith))

pub set_bit-AreWords : (bits : List ℕ) (i : ℕ) → AreWords bits → AreWords (set_bit bits i)
unfolding set_bit bit_of
set_bit-AreWords bits i small = rw (place_lem i) (
    set-AreWords bits (i / 64) (bit_or (get_or bits (i / 64) 0) (2 ^ (i % 64))) small (
      bit_or-lt 64 (get_or bits (i / 64) 0) (2 ^ (i % 64)) (word-lt bits (i / 64) small)
        (pow-lt i)))

pub clear_bit-AreWords : (bits : List ℕ) (i : ℕ) → AreWords bits → AreWords (clear_bit bits i)
unfolding clear_bit
clear_bit-AreWords bits i small =
    set-AreWords bits (i / 64) (bit_and (get_or bits (i / 64) 0) (2 ^ 64 - 1 - bit_of i)) small
      (bit_and-lt 64 (get_or bits (i / 64) 0) (2 ^ 64 - 1 - bit_of i) (word-lt bits (i / 64) small))

-- A word of the map is replaced by one in which the bits other than that of `i` are as before.
other_bit :
    (bits : List ℕ) (i j v : ℕ)
    → i / 64 < length bits
    → i ≢ j
    → ((k : ℕ) → k < 64 → i % 64 ≢ k → bit_at v k ≡ bit_at (get_or bits (i / 64) 0) k)
    → test_bit (set bits (i / 64) v) j ≡ test_bit bits j
other_bit bits i j v inside ne same = elim (ℕ_discrete (i / 64) (j / 64)) [
  | yes e ↦
      let at_i : bit_at (get_or (set bits (i / 64) v) (i / 64) 0) (j % 64)
          ≡ bit_at (get_or bits (i / 64) 0) (j % 64) =
        rw (get_or-set bits (i / 64) v 0 inside)
          (same (j % 64) (omega arith) (λ m. ne (omega arith))) in
      let at_j : bit_at (get_or (set bits (i / 64) v) (j / 64) 0) (j % 64)
          ≡ bit_at (get_or bits (j / 64) 0) (j % 64) =
        subst
          (λ (w : ℕ).
            bit_at (get_or (set bits (i / 64) v) w 0) (j % 64) ≡ bit_at (get_or bits w 0) (j % 64))
          e at_i in
      rw (test_bit-bit_at (set bits (i / 64) v) j, at_j, test_bit-bit_at bits j) refl
  | no apart ↦
      rw
        (
          test_bit-bit_at (set bits (i / 64) v) j,
          get_or-set_other bits (i / 64) v (j / 64) 0 apart,
          test_bit-bit_at bits j,
        )
        refl
]

same_bit :
    (bits : List ℕ) (i v : ℕ)
    → i / 64 < length bits
    → test_bit (set bits (i / 64) v) i ≡ (bit_at v (i % 64) == 1)
same_bit bits i v inside =
    rw (test_bit-bit_at (set bits (i / 64) v) i, get_or-set bits (i / 64) v 0 inside) refl

pub test_bit-set_bit :
    (bits : List ℕ) (i : ℕ) → i / 64 < length bits → test_bit (set_bit bits i) i ≡ true
unfolding set_bit bit_of
test_bit-set_bit bits i inside =
    let v = bit_or (get_or bits (i / 64) 0) (2 ^ (i % 64)) in
    rw (place_lem i, same_bit bits i v inside)
      (ground (
        arith,
        bit_at-bit_or (get_or bits (i / 64) 0) (2 ^ (i % 64)) (i % 64),
        bit_at-pow (i % 64) (i % 64),
      ))

pub test_bit-set_bit_other :
    (bits : List ℕ) (i j : ℕ)
    → i / 64 < length bits
    → i ≢ j
    → test_bit (set_bit bits i) j ≡ test_bit bits j
unfolding set_bit bit_of
test_bit-set_bit_other bits i j inside ne =
    let word = get_or bits (i / 64) 0 in
    rw (place_lem i) (
      other_bit bits i j (bit_or word (2 ^ (i % 64))) inside ne
        (λ k h apart. ground (arith, bit_at-bit_or word (2 ^ (i % 64)) k, bit_at-pow (i % 64) k)))

cleared :
    (word b k : ℕ)
    → b < 64
    → k < 64
    → bit_at (bit_and word (2 ^ 64 - 1 - 2 ^ b)) k ≡ (if b == k then 0 else bit_at word k)
cleared word b k hb hk =
    let small : 2 ^ b < 2 ^ 64 =
      omega (arith, pow-le-pow_right {n = 2} (omega arith) {i = b} {j = 63} (omega arith)) in
    ground (
      arith,
      bit_at-bit_and word (2 ^ 64 - 1 - 2 ^ b) k,
      bit_at-complement 64 (2 ^ b) k small hk,
      bit_at-pow b k,
    )

pub test_bit-clear_bit :
    (bits : List ℕ) (i : ℕ) → i / 64 < length bits → test_bit (clear_bit bits i) i ≡ false
unfolding clear_bit bit_of
test_bit-clear_bit bits i inside =
    let word = get_or bits (i / 64) 0 in
    let v = bit_and word (2 ^ 64 - 1 - 2 ^ (i % 64)) in
    rw (place_lem i, same_bit bits i v inside)
      (ground (arith, cleared word (i % 64) (i % 64) (omega arith) (omega arith)))

pub test_bit-clear_bit_other :
    (bits : List ℕ) (i j : ℕ)
    → i / 64 < length bits
    → i ≢ j
    → test_bit (clear_bit bits i) j ≡ test_bit bits j
unfolding clear_bit bit_of
test_bit-clear_bit_other bits i j inside ne =
    let word = get_or bits (i / 64) 0 in
    rw (place_lem i) (
      other_bit bits i j (bit_and word (2 ^ 64 - 1 - 2 ^ (i % 64))) inside ne
        (λ k h apart. ground (arith, cleared word (i % 64) k (omega arith) h)))

pub length-set_bit : (bits : List ℕ) (i : ℕ) → length (set_bit bits i) ≡ length bits
unfolding set_bit
length-set_bit bits i = length-set bits (i / 64) (bit_or (get_or bits (i / 64) 0) (bit_of i))

pub length-clear_bit : (bits : List ℕ) (i : ℕ) → length (clear_bit bits i) ≡ length bits
unfolding clear_bit
length-clear_bit bits i =
    length-set bits (i / 64) (bit_and (get_or bits (i / 64) 0) (2 ^ 64 - 1 - bit_of i))
