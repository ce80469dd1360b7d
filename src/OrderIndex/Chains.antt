-- ===== src/OrderIndex/Chains.antt =====
-- The invariant of the probe chains of src/common/flat_hash_map.h, over the references alone: `at`
-- gives the reference at each position, 0 for an empty slot, and `hm` the home of each reference.
use nasdaq_itch_trading_syst.Base.{ℕ, ◌<◌, ◌≡◌, ◌≢◌, ap, sym, subst, ◌∙◌}
use native.Mathlib.Decide.{ℕ_discrete}
use nasdaq_itch_trading_syst.OrderIndex.Ring.{dist}

-- `at'` is `at` with `r` written at `i`, for positions below `n`.
pub record IsWrite (n : ℕ) (at at' : ℕ → ℕ) (i r : ℕ) : Type 0 where
  pub written : at' i ≡ r
  pub kept : (j : ℕ) → j < n → j ≢ i → at' j ≡ at j

module _ (n : ℕ) (hm : ℕ → ℕ) where
  -- The slots from the home of a live slot up to it are live, and no reference stands twice.
  pub record IsChained (at : ℕ → ℕ) : Type 0 where
    pub chained :
        (i p : ℕ)
        → i < n
        → p < n
        → at i ≢ 0
        → dist n (hm (at i)) p < dist n (hm (at i)) i
        → at p ≢ 0
    pub unique : (i j : ℕ) → i < n → j < n → at i ≢ 0 → at i ≡ at j → i ≡ j

  -- A free position behind an unbroken chain from the home of `r`.
  pub record IsFree (at : ℕ → ℕ) (r i : ℕ) : Type 0 where
    pub inside : i < n
    pub empty : at i ≡ 0
    pub behind : (p : ℕ) → p < n → dist n (hm r) p < dist n (hm r) i → at p ≢ 0

  module _ {at at' : ℕ → ℕ} {i r : ℕ} (c : IsChained at) (ne : r ≢ 0)
      (absent : (j : ℕ) → j < n → at j ≢ r) (free : IsFree at r i) (w : IsWrite n at at' i r) where
    written_live : (p : ℕ) → p < n → at p ≢ 0 → at' p ≢ 0
    written_live p hp live = elim (ℕ_discrete p i) [
      | yes e ↦ λ z. ne (sym w.written ∙ ap at' (sym e) ∙ z)
      | no other ↦ λ z. live (sym (w.kept p hp other) ∙ z)
    ]

    -- A new reference at a free position behind its chain keeps the invariant.
    pub write-IsChained : IsChained at'
    write-IsChained = record { chained = chained'; unique = unique' }
      where
        chained' :
            (j p : ℕ)
            → j < n
            → p < n
            → at' j ≢ 0
            → dist n (hm (at' j)) p < dist n (hm (at' j)) j
            → at' p ≢ 0
        chained' j p hj hp live d = elim (ℕ_discrete j i) [
          | yes e ↦ written_live p hp (
              free.behind p hp (
                subst (λ k. dist n (hm r) p < dist n (hm r) k) e
                  (subst (λ k. dist n (hm k) p < dist n (hm k) j) (ap at' e ∙ w.written) d)))
          | no other ↦
              let same = w.kept j hj other in
              written_live p hp (
                c.chained j p hj hp (λ z. live (same ∙ z))
                  (subst (λ k. dist n (hm k) p < dist n (hm k) j) same d))
        ]

        unique' : (j k : ℕ) → j < n → k < n → at' j ≢ 0 → at' j ≡ at' k → j ≡ k
        unique' j k hj hk live e = elim (ℕ_discrete j i) [
          | yes ej ↦ elim (ℕ_discrete k i) [
            | yes ek ↦ ej ∙ sym ek
            | no other ↦
                absurd (absent k hk (sym (w.kept k hk other) ∙ sym e ∙ ap at' ej ∙ w.written))
          ]
          | no oj ↦ elim (ℕ_discrete k i) [
            | yes ek ↦ absurd (absent j hj (sym (w.kept j hj oj) ∙ e ∙ ap at' ek ∙ w.written))
            | no ok ↦
                let ej = w.kept j hj oj in
                c.unique j k hj hk (λ z. live (ej ∙ z)) (sym ej ∙ e ∙ w.kept k hk ok)
          ]
        ]
