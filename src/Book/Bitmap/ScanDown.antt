-- ===== src/Book/Bitmap/ScanDown.antt =====
-- The downward bit scan of src/book/price_levels.cc, by which bids find their best cell.
use nasdaq_itch_trading_syst.Base.{
  ℕ, zero, suc, ◌+◌, ◌*◌, ◌/◌, ◌%◌, ◌^◌, ◌<◌, ◌≤◌, ◌≡◌, ◌⊎◌, inl, inr, refl, ap, ◌∙◌, true, false,
  Option, some, none, List, [], ◌∷◌, All, length, get_or, arith, leb, ◌==◌, Bool-cases, ==_iff,
}
use native.Mathlib.Nat.{pow-suc, pow-le-pow_right, div-eq_of_lt, div-eq_of_lt-le}
use native.Mathlib.Decide.{ℕ_discrete}
use nasdaq_itch_trading_syst.Book.Bitmap.{test_bit, countl_zero, scan_down}
use nasdaq_itch_trading_syst.Book.Bitmap.Scan.{bit_at, test_bit-bit_at, test_bit-false, zero_word}

-- The word lies between the power of its highest bit and the next.
countl_zero_lem :
    (n word : ℕ)
    → 0 < word
    → word < 2 ^ n
    → (top : ℕ) × (top + 1 + countl_zero n word ≡ n) × (2 ^ top ≤ word) × (word < 2 ^ suc top)
unfolding countl_zero
countl_zero_lem zero word pos small = absurd (omega arith)
countl_zero_lem (suc n) word pos small = elim (Bool-cases (leb (2 ^ n) word)) [
  | inl reaches ↦ rw reaches (n, omega arith, ground arith, small)
  | inr under ↦
      let (top, e, low, high) = countl_zero_lem n word pos (ground arith) in
      rw under (top, omega arith, low, high)
]

top_bit : (word top : ℕ) → 2 ^ top ≤ word → word < 2 ^ suc top → bit_at word top ≡ 1
top_bit word top low high =
    let p : 2 ^ suc top ≡ 2 * 2 ^ top = omega (arith, pow-suc 2 top) in
    one_time word (2 ^ top) low (omega arith)
  where
    one_time : (n m : ℕ) → m ≤ n → n < 2 * m → n / m % 2 ≡ 1
    one_time n m low high =
        let q : n / m ≡ 1 = div-eq_of_lt-le m (omega arith) (omega arith) in rw q refl

above_top : (word top k : ℕ) → word < 2 ^ suc top → top < k → bit_at word k ≡ 0
above_top word top k high h =
    let le : 2 ^ suc top ≤ 2 ^ k =
      pow-le-pow_right {n = 2} (omega arith) {i = suc top} {j = k} (omega arith) in
    let z : word / 2 ^ k ≡ 0 = div-eq_of_lt (omega arith) in rw z refl

-- The highest set bit among the first `w` words.
Highest : List ℕ → ℕ → Option ℕ → Type 0
Highest bits w result =
    ((result ≡ none) × ((v : ℕ) → v < w → get_or bits v 0 ≡ 0))
    ⊎ ((v b : ℕ) × (result ≡ some (v * 64 + b))
        × (v < w)
        × (b < 64)
        × (bit_at (get_or bits v 0) b ≡ 1)
        × ((k : ℕ) → b < k → bit_at (get_or bits v 0) k ≡ 0)
        × ((u : ℕ) → v < u → u < w → get_or bits u 0 ≡ 0))

word-lt :
    (bits : List ℕ) (v : ℕ) → All (λ (word : ℕ). word < 2 ^ 64) bits → get_or bits v 0 < 2 ^ 64
word-lt [] v small = omega arith
word-lt (word ∷ bits) zero small = small.0
word-lt (word ∷ bits) (suc v) small = word-lt bits v small.1

scan_down-Highest :
    (bits : List ℕ) (w : ℕ)
    → All (λ (word : ℕ). word < 2 ^ 64) bits
    → Highest bits w (scan_down bits w)
unfolding Highest scan_down
scan_down-Highest bits zero small = inl (refl, λ v h. absurd (omega arith))
scan_down-Highest bits (suc w) small = elim (Bool-cases (get_or bits w 0 == 0)) [
  | inl empty ↦
      let z : get_or bits w 0 ≡ 0 = (==_iff (get_or bits w 0) 0).0 empty in
      elim (scan_down-Highest bits w small) [
        | inl (e, none_set) ↦ rw (empty, e) (inl (refl, λ v h. last_zero z v h (none_set v)))
        | inr (v, b, e, lower, inside, top, above, zeros) ↦
            rw (empty, e)
              (inr (
                v,
                b,
                refl,
                omega arith,
                inside,
                top,
                above,
                λ u h h'. last_zero z u h' (zeros u h),
              ))
      ]
  | inr full ↦
      let word = get_or bits w 0 in
      let (b, e, low, high) = countl_zero_lem 64 word (ground arith) (word-lt bits w small) in
      rw full (
        inr (
          w,
          b,
          ap some (omega arith),
          omega arith,
          omega arith,
          top_bit word b low high,
          λ k h. above_top word b k high h,
          λ u h h'. absurd (omega arith),
        ))
]
  where
    last_zero :
        get_or bits w 0 ≡ 0
        → (v : ℕ) → v < suc w
        → (v < w → get_or bits v 0 ≡ 0)
        → get_or bits v 0 ≡ 0
    last_zero z v h f = elim (ℕ_discrete v w) [
      | yes e ↦ ap (λ (u : ℕ). get_or bits u 0) e ∙ z
      | no ne ↦ f (omega arith)
    ]

-- On words of 64 bits the downward scan over all words, by which bids find their best cell,
-- either gives nothing, and then no bit of the words is set, or gives a position whose bit is
-- set, and then no higher bit of the words is.
pub scan_down_correct :
    (bits : List ℕ)
    → All (λ (word : ℕ). word < 2 ^ 64) bits
    → ((scan_down bits (length bits) ≡ none)
        × ((i : ℕ) → i < length bits * 64 → test_bit bits i ≡ false))
      ⊎ ((i : ℕ) × (scan_down bits (length bits) ≡ some i)
          × (test_bit bits i ≡ true)
          × ((j : ℕ) → i < j → j < length bits * 64 → test_bit bits j ≡ false))
unfolding Highest
scan_down_correct bits small = elim (scan_down-Highest bits (length bits) small) [
  | inl (e, empty) ↦ inl (
    e,
    λ i h.
        test_bit-false bits i
          (zero_word (get_or bits (i / 64) 0) (i % 64) (empty (i / 64) (omega arith))),
  )
  | inr (v, b, e, inside_v, inside, top, above, zeros) ↦
      let word : (v * 64 + b) / 64 ≡ v = omega arith in
      let place : (v * 64 + b) % 64 ≡ b = omega arith in
      inr (
        v * 64 + b,
        e,
        test_bit-bit_at bits (v * 64 + b) ∙ rw (word, place, top) refl,
        λ j h h'. test_bit-false bits j (behind v b inside above zeros j h h'),
      )
]
  where
    behind :
        (v b : ℕ)
        → b < 64
        → ((k : ℕ) → b < k → bit_at (get_or bits v 0) k ≡ 0)
        → ((u : ℕ) → v < u → u < length bits → get_or bits u 0 ≡ 0)
        → (j : ℕ) → v * 64 + b < j
        → j < length bits * 64
        → bit_at (get_or bits (j / 64) 0) (j % 64) ≡ 0
    behind v b inside above zeros j h h' = elim (ℕ_discrete (j / 64) v) [
      | yes e ↦ ap (λ (u : ℕ). bit_at (get_or bits u 0) (j % 64)) e ∙ above (j % 64) (omega arith)
      | no ne ↦
          zero_word (get_or bits (j / 64) 0) (j % 64) (zeros (j / 64) (omega arith) (omega arith))
    ]
