-- ===== src/Book/Bitmap/Positions.antt =====
-- The cells that the loop over all words of src/book/price_levels.cc visits.
use nasdaq_itch_trading_syst.Base.{
  ℕ, suc, ◌+◌, ◌-◌, ◌*◌, ◌/◌, ◌%◌, ◌≡◌, refl, ◌∙◌, arith, Bool, true, false, if◌then◌else◌, ltb,
  leb, ◌==◌, List, [], ◌∷◌, ◌++◌, Bool-cases, inl, inr,
}
use nasdaq_itch_trading_syst.Book.Bitmap.{bits_up, test_bit}
use nasdaq_itch_trading_syst.Book.Bitmap.Scan.{bit_at, test_bit-bit_at, test_bit-false, zero_word}
use nasdaq_itch_trading_syst.Book.Bitmap.Marks.{AreWords}
use nasdaq_itch_trading_syst.Book.Bitmap.Enumerate.{has, Distinct, bits_up_lem}

-- The positions of the bits of word `w`.
unfoldable pub shift : ℕ → List ℕ → List ℕ
shift w [] = []
shift w (bit ∷ bits) = (w * 64 + bit) ∷ shift w bits

unfoldable pub positions : List ℕ → ℕ → List ℕ
unfolding shift bits_up
positions [] w = []
positions (word ∷ words) w = shift w (bits_up 64 word) ++ positions words (w + 1)

pub has-append : (i : ℕ) (xs ys : List ℕ) → has i (xs ++ ys) ≡ (if has i xs then true else has i ys)
has-append i [] ys = refl
has-append i (x ∷ xs) ys =
    let rest = has-append i xs ys in
    elim (Bool-cases (x == i)) [ inl e ↦ rw e refl | inr e ↦ rw e rest ]

has-shift :
    (w i : ℕ) (bits : List ℕ)
    → has i (shift w bits) ≡ (if leb (w * 64) i then has (i - w * 64) bits else false)
unfolding shift
has-shift w i [] = ground arith
has-shift w i (bit ∷ bits) = let rest = has-shift w i bits in ground arith

test_bit-cons :
    (word j : ℕ) (words : List ℕ)
    → test_bit (word ∷ words) j ≡ (if ltb j 64 then bit_at word j == 1 else test_bit words (j - 64))
test_bit-cons word j words = elim (Bool-cases (ltb j 64)) [
  | inl here ↦
      let z : j / 64 ≡ 0 = ground arith in
      let m : j % 64 ≡ j = ground arith in rw (here, test_bit-bit_at (word ∷ words) j, z, m) refl
  | inr there ↦
      let z : j / 64 ≡ suc ((j - 64) / 64) = ground arith in
      let m : j % 64 ≡ (j - 64) % 64 = ground arith in
      rw (there, test_bit-bit_at (word ∷ words) j, z, m, test_bit-bit_at words (j - 64)) refl
]

meets :
    (w i : ℕ) (s r t : Bool) (b h : Bool)
    → s ≡ (if leb (w * 64) i then h else false)
    → h ≡ (if ltb (i - w * 64) 64 then b else false)
    → r ≡ (if leb ((w + 1) * 64) i then t else false)
    → (if s then true else r)
      ≡ (if leb (w * 64) i then if ltb (i - w * 64) 64 then b else t else false)
meets w i s r t b h es eh er = ground arith

pub has-positions :
    (i w : ℕ) (words : List ℕ)
    → AreWords words
    → has i (positions words w) ≡ (if leb (w * 64) i then test_bit words (i - w * 64) else false)
unfolding positions
has-positions i w [] small =
    let none_set = test_bit-false [] (i - w * 64) (zero_word 0 ((i - w * 64) % 64) refl) in
    elim (Bool-cases (leb (w * 64) i)) [ inl h ↦ rw (h, none_set) refl | inr h ↦ rw h refl ]
has-positions i w (word ∷ words) small =
    let j = i - w * 64 in
    let back : i - (w + 1) * 64 ≡ j - 64 = omega arith in
    rw
      (
        has-append i (shift w (bits_up 64 word)) (positions words (w + 1)),
        test_bit-cons word j words,
      )
      (meets w i (has i (shift w (bits_up 64 word))) (has i (positions words (w + 1)))
        (test_bit words (j - 64)) (bit_at word j == 1) (has j (bits_up 64 word))
        (has-shift w i (bits_up 64 word))
        ((bits_up_lem 64 word 0 small.0 refl (λ k h. absurd (omega arith))).0 j)
        (has-positions i (w + 1) words small.1 ∙ rw back refl))

Distinct-append :
    (xs ys : List ℕ)
    → Distinct xs
    → Distinct ys
    → ((i : ℕ) → has i xs ≡ true → has i ys ≡ false)
    → Distinct (xs ++ ys)
Distinct-append [] ys dx dy apart = dy
Distinct-append (x ∷ xs) ys dx dy apart = (
  has-append x xs ys ∙ rw (dx.0, apart x (ground arith)) refl,
  Distinct-append xs ys dx.1 dy (λ i h. apart i (ground arith)),
)

Distinct-shift : (w : ℕ) (bits : List ℕ) → Distinct bits → Distinct (shift w bits)
unfolding shift
Distinct-shift w [] d = tt
Distinct-shift w (bit ∷ bits) d =
    let back : w * 64 + bit - w * 64 ≡ bit = omega arith in
    (has-shift w (w * 64 + bit) bits ∙ rw (back, d.0) (ground arith), Distinct-shift w bits d.1)

pub positions-Distinct : (w : ℕ) (words : List ℕ) → AreWords words → Distinct (positions words w)
unfolding positions
positions-Distinct w [] small = tt
positions-Distinct w (word ∷ words) small =
    let (all, distinct) = bits_up_lem 64 word 0 small.0 refl (λ k h. absurd (omega arith)) in
    Distinct-append (shift w (bits_up 64 word)) (positions words (w + 1))
      (Distinct-shift w (bits_up 64 word) distinct) (positions-Distinct (w + 1) words small.1)
      (λ i h.
        behind w i (has i (shift w (bits_up 64 word))) (has i (positions words (w + 1)))
          (test_bit words (i - (w + 1) * 64)) (bit_at word (i - w * 64) == 1)
          (has (i - w * 64) (bits_up 64 word)) (has-shift w i (bits_up 64 word)) (all (i - w * 64))
          (has-positions i (w + 1) words small.1) h)
  where
    behind :
        (w i : ℕ) (s r t b h : Bool)
        → s ≡ (if leb (w * 64) i then h else false)
        → h ≡ (if ltb (i - w * 64) 64 then b else false)
        → r ≡ (if leb ((w + 1) * 64) i then t else false)
        → s ≡ true
        → r ≡ false
    behind w i s r t b h es eh er met = ground arith
