-- ===== src/Book/Bitmap/Scan.antt =====
-- The bit scans of src/book/price_levels.cc: the cell that a scan returns is occupied, and none
-- before it is.
use nasdaq_itch_trading_syst.Base.{
  ℕ, zero, suc, ◌+◌, ◌*◌, ◌/◌, ◌%◌, ◌^◌, ◌<◌, ◌≡◌, ◌⊎◌, inl, inr, refl, ap, sym, ◌∙◌, true, false,
  Option, some, none, List, [], ◌∷◌, All, get_or, arith, ◌==◌, Bool-cases, bit_and, bit_and_mask,
  ==_iff,
}
use native.Mathlib.Nat.{pow-suc, div-div-eq-div-mul, zero-div}
use native.Mathlib.Decide.{ℕ_discrete}
use nasdaq_itch_trading_syst.Book.Bitmap.{test_bit, countr_zero, scan_up}

-- Bit `k` of a word.
abbrev pub bit_at : ℕ → ℕ → ℕ
bit_at word k = word / 2 ^ k % 2

pub bit_at-suc : (word k : ℕ) → bit_at word (suc k) ≡ bit_at (word / 2) k
bit_at-suc word k =
    let p : 2 ^ suc k ≡ 2 * 2 ^ k = omega (arith, pow-suc 2 k) in
    ap (λ (m : ℕ). word / m % 2) p ∙ ap (λ (m : ℕ). m % 2) (sym (div-div-eq-div-mul word 2 (2 ^ k)))

pub countr_zero_lem :
    (n word : ℕ)
    → 0 < word
    → word < 2 ^ n
    → (countr_zero n word < n)
      × (bit_at word (countr_zero n word) ≡ 1)
      × ((k : ℕ) → k < countr_zero n word → bit_at word k ≡ 0)
unfolding countr_zero
countr_zero_lem zero word pos small = absurd (omega arith)
countr_zero_lem (suc n) word pos small = elim (Bool-cases (word % 2 == 1)) [
  | inl odd ↦
      let e : word % 2 ≡ 1 = (==_iff (word % 2) 1).0 odd in
      rw odd (omega arith, omega arith, λ k h. absurd (omega arith))
  | inr even ↦
      let e : word % 2 ≡ 0 = ground arith in
      let (a, b, c) = countr_zero_lem n (word / 2) (omega arith) (omega (arith, pow-suc 2 n)) in
      rw even
        (omega arith, bit_at-suc word (countr_zero n (word / 2)) ∙ b, λ k h. below word n c e k h)
]
  where
    below :
        (word n : ℕ)
        → ((k : ℕ) → k < countr_zero n (word / 2) → bit_at (word / 2) k ≡ 0)
        → word % 2 ≡ 0
        → (k : ℕ) → k < suc (countr_zero n (word / 2))
        → bit_at word k ≡ 0
    below word n c e zero h = omega arith
    below word n c e (suc k) h = bit_at-suc word k ∙ c k (omega arith)

-- The lowest set bit of the words from word `w` on.
Lowest : List ℕ → ℕ → Option ℕ → Type 0
Lowest bits w result =
    ((result ≡ none) × ((v : ℕ) → get_or bits v 0 ≡ 0))
    ⊎ ((v b : ℕ) × (result ≡ some ((w + v) * 64 + b))
        × (b < 64)
        × (bit_at (get_or bits v 0) b ≡ 1)
        × ((k : ℕ) → k < b → bit_at (get_or bits v 0) k ≡ 0)
        × ((u : ℕ) → u < v → get_or bits u 0 ≡ 0))

scan_up-Lowest :
    (bits : List ℕ) (w : ℕ)
    → All (λ (word : ℕ). word < 2 ^ 64) bits
    → Lowest bits w (scan_up bits w)
unfolding Lowest scan_up
scan_up-Lowest [] w small = inl (refl, λ v. refl)
scan_up-Lowest (word ∷ bits) w small = elim (Bool-cases (word == 0)) [
  | inl empty ↦
      let z : word ≡ 0 = (==_iff word 0).0 empty in
      elim (scan_up-Lowest bits (w + 1) small.1) [
        | inl (e, none_set) ↦ rw (empty, e) (inl (refl, λ v. all_zero z none_set v))
        | inr (v, b, e, inside, set_bit, below, zeros) ↦
            rw (empty, e)
              (inr (
                suc v,
                b,
                ap some (omega arith),
                inside,
                set_bit,
                below,
                λ u h. zero_below z zeros u h,
              ))
      ]
  | inr full ↦
      let (inside, set_bit, below) = countr_zero_lem 64 word (ground arith) small.0 in
      rw full (
        inr (
          0,
          countr_zero 64 word,
          ap some (omega arith),
          inside,
          set_bit,
          below,
          λ u h. absurd (omega arith),
        ))
]
  where
    all_zero : word ≡ 0 → ((v : ℕ) → get_or bits v 0 ≡ 0) → (v : ℕ) → get_or (word ∷ bits) v 0 ≡ 0
    all_zero z h zero = z
    all_zero z h (suc v) = h v

    zero_below :
        {v : ℕ}
        → word ≡ 0
        → ((u : ℕ) → u < v → get_or bits u 0 ≡ 0)
        → (u : ℕ) → u < suc v
        → get_or (word ∷ bits) u 0 ≡ 0
    zero_below z h zero lt = z
    zero_below z h (suc u) lt = h u (omega arith)

pub test_bit-bit_at :
    (bits : List ℕ) (i : ℕ) → test_bit bits i ≡ (bit_at (get_or bits (i / 64) 0) (i % 64) == 1)
unfolding test_bit
test_bit-bit_at bits i =
    let m : bit_and i 63 ≡ i % 64 = omega (arith, bit_and_mask 6 i) in rw m refl

-- A bit that is not set.
pub test_bit-false :
    (bits : List ℕ) (i : ℕ) → bit_at (get_or bits (i / 64) 0) (i % 64) ≡ 0 → test_bit bits i ≡ false
test_bit-false bits i e = test_bit-bit_at bits i ∙ rw e refl

pub zero_word : (word k : ℕ) → word ≡ 0 → bit_at word k ≡ 0
zero_word word k z = rw (z, zero-div (2 ^ k)) refl

-- On words of 64 bits the upward scan, by which asks find their best cell, either gives nothing,
-- and then no bit is set, or gives a position whose bit is set, and then no lower bit is.
pub scan_up_correct :
    (bits : List ℕ)
    → All (λ (word : ℕ). word < 2 ^ 64) bits
    → ((scan_up bits 0 ≡ none) × ((i : ℕ) → test_bit bits i ≡ false))
      ⊎ ((i : ℕ) × (scan_up bits 0 ≡ some i)
          × (test_bit bits i ≡ true)
          × ((j : ℕ) → j < i → test_bit bits j ≡ false))
unfolding Lowest
scan_up_correct bits small = elim (scan_up-Lowest bits 0 small) [
  | inl (e, empty) ↦
      inl (
        e,
        λ i. test_bit-false bits i (zero_word (get_or bits (i / 64) 0) (i % 64) (empty (i / 64))),
      )
  | inr (v, b, e, inside, set_bit, below, zeros) ↦
      let word : (v * 64 + b) / 64 ≡ v = omega arith in
      let place : (v * 64 + b) % 64 ≡ b = omega arith in
      inr (
        v * 64 + b,
        e ∙ ap some (omega arith),
        test_bit-bit_at bits (v * 64 + b) ∙ rw (word, place, set_bit) refl,
        λ j h. test_bit-false bits j (before bits v b inside below zeros j h),
      )
]
  where
    before :
        (bits : List ℕ) (v b : ℕ)
        → b < 64
        → ((k : ℕ) → k < b → bit_at (get_or bits v 0) k ≡ 0)
        → ((u : ℕ) → u < v → get_or bits u 0 ≡ 0)
        → (j : ℕ) → j < v * 64 + b
        → bit_at (get_or bits (j / 64) 0) (j % 64) ≡ 0
    before bits v b inside below zeros j h = elim (ℕ_discrete (j / 64) v) [
      | yes e ↦ ap (λ (u : ℕ). bit_at (get_or bits u 0) (j % 64)) e ∙ below (j % 64) (omega arith)
      | no ne ↦ zero_word (get_or bits (j / 64) 0) (j % 64) (zeros (j / 64) (omega arith))
    ]
