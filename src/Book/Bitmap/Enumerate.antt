-- ===== src/Book/Bitmap/Enumerate.antt =====
-- The loop over the bits of a word of src/book/price_levels.cc, `word &= word - 1`: it meets each
-- set bit once, in ascending order.
use nasdaq_itch_trading_syst.Base.{
  ℕ, zero, suc, ◌+◌, ◌-◌, ◌/◌, ◌%◌, ◌^◌, ◌<◌, ◌≡◌, bit_and, refl, sym, ◌∙◌, subst, arith, Bool,
  true, false, if◌then◌else◌, ltb, ◌==◌, List, [], ◌∷◌, ==_iff, Bool-cases, inl, inr,
}
use native.Mathlib.Nat.{pow-suc}
use native.Mathlib.Decide.{ℕ_discrete}
use nasdaq_itch_trading_syst.Book.Bitmap.{bits_up, countr_zero}
use nasdaq_itch_trading_syst.Book.Bitmap.Scan.{bit_at, bit_at-suc, zero_word, countr_zero_lem}
use nasdaq_itch_trading_syst.Book.Bitmap.Marks.{bit_at-bit_and, bit_and-lt}

-- `word - 1` keeps the bits above the lowest set one.
pred_bit :
    (c word k : ℕ)
    → bit_at word c ≡ 1
    → ((j : ℕ) → j < c → bit_at word j ≡ 0)
    → c < k
    → bit_at (word - 1) k ≡ bit_at word k
pred_bit zero word zero set_bit below h = absurd (omega arith)
pred_bit zero word (suc k) set_bit below h =
    let odd : word % 2 ≡ 1 = omega arith in
    let half : (word - 1) / 2 ≡ word / 2 = omega arith in
    rw (bit_at-suc (word - 1) k, half, bit_at-suc word k) refl
pred_bit (suc c) word zero set_bit below h = absurd (omega arith)
pred_bit (suc c) word (suc k) set_bit below h =
    let first = below 0 (omega arith) in
    let even : word % 2 ≡ 0 = omega arith in
    let half : (word - 1) / 2 ≡ word / 2 - 1 = omega arith in
    rw (bit_at-suc (word - 1) k, half, bit_at-suc word k)
      (pred_bit c (word / 2) k (sym (bit_at-suc word c) ∙ set_bit)
        (λ j lt. sym (bit_at-suc word j) ∙ below (suc j) (omega arith)) (omega arith))

pred_lowest :
    (c word : ℕ)
    → bit_at word c ≡ 1
    → ((j : ℕ) → j < c → bit_at word j ≡ 0)
    → bit_at (word - 1) c ≡ 0
pred_lowest zero word set_bit below = omega arith
pred_lowest (suc c) word set_bit below =
    let first = below 0 (omega arith) in
    let even : word % 2 ≡ 0 = omega arith in
    let half : (word - 1) / 2 ≡ word / 2 - 1 = omega arith in
    rw (bit_at-suc (word - 1) c, half)
      (pred_lowest c (word / 2) (sym (bit_at-suc word c) ∙ set_bit)
        (λ j lt. sym (bit_at-suc word j) ∙ below (suc j) (omega arith)))

next_word :
    (c word k : ℕ)
    → bit_at word c ≡ 1
    → ((j : ℕ) → j < c → bit_at word j ≡ 0)
    → bit_at (bit_and word (word - 1)) k ≡ (if c == k then 0 else bit_at word k)
next_word c word k set_bit below = elim (ℕ_discrete c k) [
  | yes e ↦
      let low : bit_at (word - 1) k ≡ 0 =
        subst (λ (j : ℕ). bit_at (word - 1) j ≡ 0) e (pred_lowest c word set_bit below) in
      ground (arith, bit_at-bit_and word (word - 1) k)
  | no ne ↦ elim (Bool-cases (ltb c k)) [
    | inl lt ↦
        ground
          (arith, bit_at-bit_and word (word - 1) k, pred_bit c word k set_bit below (ground arith))
    | inr ge ↦ ground (arith, bit_at-bit_and word (word - 1) k, below k (ground arith))
  ]
]

abbrev pub has : ℕ → List ℕ → Bool
has i [] = false
has i (x ∷ xs) = if x == i then true else has i xs

abbrev pub Distinct : List ℕ → Type 0
Distinct [] = Unit
Distinct (x ∷ xs) = (has x xs ≡ false) × Distinct xs

-- A word whose bits are all 0 is 0.
no_bits : (n word : ℕ) → word < 2 ^ n → ((j : ℕ) → j < n → bit_at word j ≡ 0) → word ≡ 0
no_bits zero word small none_set = omega arith
no_bits (suc n) word small none_set =
    let first = none_set 0 (omega arith) in
    let rest =
      no_bits n (word / 2) (omega (arith, pow-suc 2 n))
        (λ j h. sym (bit_at-suc word j) ∙ none_set (suc j) (omega arith)) in
    omega arith

next_below :
    (word b c : ℕ)
    → ((j : ℕ) → j < b → bit_at word j ≡ 0)
    → bit_at word c ≡ 1
    → ((j : ℕ) → j < c → bit_at word j ≡ 0)
    → (j : ℕ) → j < b + 1
    → bit_at (bit_and word (word - 1)) j ≡ 0
next_below word b c below set_bit lower j h = elim (ℕ_discrete c j) [
  | yes e ↦ ground (arith, next_word c word j set_bit lower)
  | no ne ↦ elim (Bool-cases (ltb c b)) [
    | inl lt ↦ absurd (ground (arith, below c))
    | inr ge ↦ ground (arith, next_word c word j set_bit lower, lower j (ground arith))
  ]
]

met :
    (c i n n' : ℕ) (h : Bool)
    → c < 64
    → (c ≡ i → n ≡ 1)
    → h ≡ (if ltb i 64 then n' == 1 else false)
    → n' ≡ (if c == i then 0 else n)
    → (if c == i then true else h) ≡ (if ltb i 64 then n == 1 else false)
met c i n n' h inside here e e' = ground arith

met_once :
    (c n' : ℕ) (h : Bool)
    → h ≡ (if ltb c 64 then n' == 1 else false)
    → n' ≡ (if c == c then 0 else 1)
    → h ≡ false
met_once c n' h e e' = ground arith

pub bits_up_lem :
    (fuel word b : ℕ)
    → word < 2 ^ 64
    → b + fuel ≡ 64
    → ((j : ℕ) → j < b → bit_at word j ≡ 0)
    → ((i : ℕ) → has i (bits_up fuel word) ≡ (if ltb i 64 then bit_at word i == 1 else false))
      × Distinct (bits_up fuel word)
unfolding bits_up
bits_up_lem zero word b small enough below = (λ i. ground (arith, below i), tt)
bits_up_lem (suc fuel) word b small enough below = elim (Bool-cases (word == 0)) [
  | inl empty ↦
      let z : word ≡ 0 = (==_iff word 0).0 empty in
      rw empty (λ i. ground (arith, zero_word word i z), tt)
  | inr full ↦
      let c = countr_zero 64 word in
      let (inside, set_bit, lower) = countr_zero_lem 64 word (ground arith) small in
      let word' = bit_and word (word - 1) in
      let (all, distinct) =
        bits_up_lem fuel word' (b + 1) (bit_and-lt 64 word (word - 1) small) (omega arith)
          (λ j h. next_below word b c below set_bit lower j h) in
      rw full (
        λ i.
            met c i (bit_at word i) (bit_at word' i) (has i (bits_up fuel word')) inside
              (λ e. subst (λ (j : ℕ). bit_at word j ≡ 1) e set_bit) (all i)
              (next_word c word i set_bit lower),
        (
          met_once c (bit_at word' c) (has c (bits_up fuel word')) (all c)
              (next_word c word c set_bit lower ∙ rw set_bit refl),
          distinct,
        ),
      )
]
