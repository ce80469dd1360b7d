-- ===== src/Capture/Checksum.antt =====
-- The checksum of apps/replayer/capture.cc.
use nasdaq_itch_trading_syst.Base.{
  ℕ, suc, ◌+◌, ◌-◌, ◌*◌, ◌/◌, ◌%◌, ◌^◌, ◌<◌, ◌≡◌, ◌≢◌, refl, ◌∙◌, inl, inr, true, bit_and,
  bit_and_mask, Option, some, [], ◌∷◌, ◌==◌, ==_iff, Bool-cases, if◌then◌else◌, u16, u32, arith,
}
use nasdaq_itch_trading_syst.ByteReader.Value.{IsBytes}
use nasdaq_itch_trading_syst.Capture.{sum_words, fold_carry, complement, ip_checksum, ip_header}

-- One round takes the carries of a sum of 32 bits back in, which is the same modulo 2 ^ 16 - 1.
carried : ℕ → ℕ
carried sum = sum % 2 ^ 16 + sum / 2 ^ 16

fold_carry-step :
    (fuel sum : ℕ)
    → sum < 2 ^ 32
    → fold_carry (suc fuel) sum
      ≡ (if sum / 2 ^ 16 == 0 then some sum else fold_carry fuel (carried sum))
unfolding fold_carry carried
fold_carry-step fuel sum small =
    let e : u32 (bit_and sum 0xffff + sum / 2 ^ 16) ≡ sum % 2 ^ 16 + sum / 2 ^ 16 =
      omega (arith, bit_and_mask 16 sum) in
    rw e refl

-- What the loop leaves: a word that is congruent to the sum, and 0 only if the sum is.
abbrev pub Folds : ℕ → Option ℕ → Type 0
Folds sum run =
    (w : ℕ) × (run ≡ some w) × (w < 2 ^ 16) × (w % 65_535 ≡ sum % 65_535) × (w ≡ 0 → sum ≡ 0)

no_carries :
    (fuel sum : ℕ) → sum < 2 ^ 32 → sum / 2 ^ 16 ≡ 0 → Folds sum (fold_carry (suc fuel) sum)
no_carries fuel sum small none_left =
    let none_carried : (sum / 2 ^ 16 == 0) ≡ true = (==_iff (sum / 2 ^ 16) 0).1 none_left in
    rw (fold_carry-step fuel sum small, none_carried) (sum, refl, omega arith, refl, λ z. z)

more_carries :
    (fuel sum : ℕ)
    → sum < 2 ^ 32
    → Folds (carried sum) (fold_carry fuel (carried sum))
    → Folds sum (fold_carry (suc fuel) sum)
unfolding carried
more_carries fuel sum small (w, run, word, same, zero_only) =
    elim (Bool-cases (sum / 2 ^ 16 == 0)) [
      | inl none_left ↦ no_carries fuel sum small ((==_iff (sum / 2 ^ 16) 0).0 none_left)
      | inr some_left ↦
          rw (fold_carry-step fuel sum small, some_left)
            (
              w,
              run,
              word,
              omega (arith, same),
              λ z. let nothing : sum % 2 ^ 16 + sum / 2 ^ 16 ≡ 0 = zero_only z in omega arith,
            )
    ]

pub fold_carry_lem : (sum : ℕ) → sum < 2 ^ 32 → Folds sum (fold_carry 4 sum)
unfolding carried
fold_carry_lem sum small = more_carries 3 sum small (
    more_carries 2 (carried sum) (omega arith)
      (no_carries 1 (carried (carried sum)) (omega arith) (omega arith)))

-- The sum of the words of an IPv4 header.
abbrev words : ℕ → ℕ → ℕ → ℕ → ℕ → ℕ → ℕ → ℕ → ℕ → ℕ
words total a b c d a' b' c' d' =
    0x4500 + total + 0x4011 + (a * 256 + b) + (c * 256 + d) + (a' * 256 + b') + (c' * 256 + d')

module _ (total a b c d a' b' c' d' : ℕ) (small : total < 2 ^ 16)
    (from : IsBytes (a ∷ b ∷ c ∷ d ∷ [])) (dst : IsBytes (a' ∷ b' ∷ c' ∷ d' ∷ [])) where
  header_sum :
      (csum : ℕ)
      → csum < 2 ^ 16
      → sum_words (ip_header total (a ∷ b ∷ c ∷ d ∷ []) (a' ∷ b' ∷ c' ∷ d' ∷ []) csum) 0
        ≡ words total a b c d a' b' c' d' + csum
  unfolding sum_words ip_header
  header_sum csum h =
      omega
        (arith, from.0, from.1.0, from.1.1.0, from.1.1.1.0, dst.0, dst.1.0, dst.1.1.0, dst.1.1.1.0)

  -- For a total length of 16 bits and addresses of four bytes, the loops of `ip_checksum` end on
  -- the header without a checksum and give 16 bits, and on the header with that checksum they end
  -- and give 0, as a receiver checks it.
  pub ip_checksum_correct :
      (csum : ℕ) × (ip_checksum (ip_header total (a ∷ b ∷ c ∷ d ∷ []) (a' ∷ b' ∷ c' ∷ d' ∷ []) 0)
        ≡ some csum)
      × (csum < 2 ^ 16)
      × (ip_checksum (ip_header total (a ∷ b ∷ c ∷ d ∷ []) (a' ∷ b' ∷ c' ∷ d' ∷ []) csum) ≡ some 0)
  unfolding ip_checksum complement
  ip_checksum_correct =
      let base = words total a b c d a' b' c' d' in
      let short : base < 2 ^ 20 = omega (
        arith, from.0, from.1.0, from.1.1.0, from.1.1.1.0, dst.0, dst.1.0, dst.1.1.0, dst.1.1.1.0,
      ) in
      let (w, run, word, same, zero_only) = fold_carry_lem base (omega arith) in
      let some_words : w ≢ 0 = λ z. let nothing : base ≡ 0 = zero_only z in omega arith in
      let csum : ℕ = 65_535 - w in
      let first : u16 (2 ^ 32 - 1 - w) ≡ csum = omega arith in
      let (w', run', word', same', zero_only') = fold_carry_lem (base + csum) (omega arith) in
      let not_zero : w' ≢ 0 = λ z. let nothing : base + csum ≡ 0 = zero_only' z in omega arith in
      let all_ones : w' ≡ 65_535 = omega (arith, not_zero) in
      let last : u16 (2 ^ 32 - 1 - w') ≡ 0 = omega arith in
      let sum0 = header_sum 0 (omega arith) ∙ plus_zero base in
      (
        csum,
        rw (sum0, run, first) refl,
        omega arith,
        rw (header_sum csum (omega arith), run', last) refl,
      )
    where
      plus_zero : (n : ℕ) → n + 0 ≡ n
      plus_zero n = omega arith
