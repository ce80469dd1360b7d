-- ===== src/ByteReader/Value.antt =====
-- What the readers of src/common/byte_reader.h return: the number in base 256 that the bytes spell.
use nasdaq_itch_trading_syst.Base.{
  ℕ, zero, suc, ◌+◌, ◌*◌, ◌/◌, ◌%◌, ◌^◌, ◌≤◌, ◌<◌, ◌≡◌, refl, ap, ◌∙◌, none, some, List, [], ◌∷◌,
  ◌++◌, bit_or, All, length, take, arith, bit_or_fields,
}
use native.Mathlib.Nat.{pow-suc, mod-eq_of_lt, one-le-pow, mod-lt, div-lt_iff_lt-mul, div-add-mod'}
use nasdaq_itch_trading_syst.ByteReader.{accumulate, be16}

abbrev pub IsByte : ℕ → Type 0
IsByte b = b < 256

abbrev pub IsBytes : List ℕ → Type 0
IsBytes p = All IsByte p

-- The first `n` bytes as a number, most significant byte first, behind the digits of `acc`.
unfoldable pub be_value : ℕ → ℕ → List ℕ → ℕ
be_value zero acc p = acc
be_value (suc n) acc [] = acc
be_value (suc n) acc (b ∷ p) = be_value n (acc * 256 + b) p

-- One round of the loop is a digit in base 256.
pub or_byte :
    (w res b : ℕ) → b < 256 → res * 256 < 2 ^ w → bit_or (res * 2 ^ 8 % 2 ^ w) b ≡ res * 256 + b
or_byte w res b hb fits =
    let e : res * 2 ^ 8 % 2 ^ w ≡ res * 2 ^ 8 = mod-eq_of_lt fits in rw e (bit_or_fields 8 res b hb)

step_fits :
    (n res b m : ℕ) → b < 256 → (res + 1) * 256 ^ suc n ≤ m → (res * 256 + b + 1) * 256 ^ n ≤ m
step_fits n res b m hb h =
    let e : (res + 1) * 256 ^ suc n ≡ (res + 1) * 256 * 256 ^ n =
      omega (arith, ap (λ (t : ℕ). (res + 1) * t) (pow-suc 256 n)) in
    let le : (res * 256 + b + 1) * 256 ^ n ≤ (res + 1) * 256 * 256 ^ n = grind arith in omega arith

no_overflow : (n res m : ℕ) → (res + 1) * 256 ^ suc n ≤ m → res * 256 < m
no_overflow n res m h =
    let pos : 1 ≤ 256 ^ n = one-le-pow n 256 (omega arith) in
    let e : (res + 1) * 256 ^ suc n ≡ (res + 1) * 256 * 256 ^ n =
      omega (arith, ap (λ (t : ℕ). (res + 1) * t) (pow-suc 256 n)) in
    let le : (res + 1) * 256 * 1 ≤ (res + 1) * 256 * 256 ^ n = grind arith in omega arith

-- Where the accumulator holds `n` bytes the loop returns their value.
pub accumulate-value :
    (w n res : ℕ) (p : List ℕ)
    → IsBytes (take n p)
    → n ≤ length p
    → (res + 1) * 256 ^ n ≤ 2 ^ w
    → accumulate w n res p ≡ some (be_value n res p)
unfolding accumulate be_value
accumulate-value w zero res p bytes enough fits = refl
accumulate-value w (suc n) res [] bytes enough fits = absurd (omega arith)
accumulate-value w (suc n) res (b ∷ p) bytes enough fits =
    rw (or_byte w res b bytes.0 (no_overflow n res (2 ^ w) fits)) (
      accumulate-value w n (res * 256 + b) p bytes.1 (omega arith)
        (step_fits n res b (2 ^ w) bytes.0 fits))

-- Where the buffer ends earlier it reads past the end.
pub accumulate-short : (w n res : ℕ) (p : List ℕ) → length p < n → accumulate w n res p ≡ none
unfolding accumulate
accumulate-short w zero res p short = absurd (omega arith)
accumulate-short w (suc n) res [] short = refl
accumulate-short w (suc n) res (b ∷ p) short = accumulate-short w n _ p (omega arith)

-- The `n` digits of `v` in base 256, most significant first.
abbrev pub be_bytes : ℕ → ℕ → List ℕ
be_bytes zero v = []
be_bytes (suc n) v = v / 256 ^ n ∷ be_bytes n (v % 256 ^ n)

pub be_bytes_lem :
    (n v acc : ℕ) (rest : List ℕ)
    → v < 256 ^ n
    → (be_value n acc (be_bytes n v ++ rest) ≡ acc * 256 ^ n + v)
      × IsBytes (take n (be_bytes n v ++ rest))
      × (n ≤ length (be_bytes n v ++ rest))
unfolding be_value
be_bytes_lem zero v acc rest fits = (omega arith, tt, omega arith)
be_bytes_lem (suc n) v acc rest fits =
    let m : ℕ = 256 ^ n in
    let pos : 0 < 256 ^ n = one-le-pow n 256 (omega arith) in
    let top : v / 256 ^ n < 256 = (div-lt_iff_lt-mul pos).1 (omega (arith, pow-suc 256 n)) in
    let (value, bytes, enough) =
      be_bytes_lem n (v % 256 ^ n) (acc * 256 + v / 256 ^ n) rest (mod-lt v pos) in
    (
      omega (arith, value, div-add-mod' v (256 ^ n), ap (λ (t : ℕ). acc * t) (pow-suc 256 n)),
      (top, bytes),
      omega arith,
    )

-- A reader behind which the digits of a number lie returns that number.
pub accumulate-be_bytes :
    (w n v : ℕ) (rest : List ℕ)
    → v < 256 ^ n
    → 256 ^ n ≤ 2 ^ w
    → accumulate w n 0 (be_bytes n v ++ rest) ≡ some v
accumulate-be_bytes w n v rest fits room =
    let (value, bytes, enough) = be_bytes_lem n v 0 rest fits in
    accumulate-value w n 0 (be_bytes n v ++ rest) bytes enough (omega arith) ∙ ap some (omega arith)

-- A two byte prefix.
pub be16_bytes : (a b : ℕ) (p : List ℕ) → a < 256 → b < 256 → be16 (a ∷ b ∷ p) ≡ some (a * 256 + b)
unfolding be16 accumulate
be16_bytes a b p ha hb =
    rw (or_byte 32 0 a ha (omega arith), or_byte 32 (0 * 256 + a) b hb (omega arith))
      (ap some (omega arith))

pub IsBytes-take : (n : ℕ) (p : List ℕ) → IsBytes p → IsBytes (take n p)
IsBytes-take zero p h = tt
IsBytes-take (suc n) [] h = tt
IsBytes-take (suc n) (b ∷ p) h = (h.0, IsBytes-take n p h.1)

pub be_value-lt : (n acc : ℕ) (p : List ℕ) → IsBytes p → be_value n acc p < (acc + 1) * 256 ^ n
unfolding be_value
be_value-lt zero acc p bytes = omega arith
be_value-lt (suc n) acc [] bytes =
    let pos : 1 ≤ 256 ^ suc n = one-le-pow (suc n) 256 (omega arith) in grind arith
be_value-lt (suc n) acc (b ∷ p) bytes = omega (
  arith,
  be_value-lt n (acc * 256 + b) p bytes.1,
  step_fits n acc b ((acc + 1) * 256 ^ suc n) bytes.0 (omega arith),
)
