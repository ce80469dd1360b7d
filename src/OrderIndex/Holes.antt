-- ===== src/OrderIndex/Holes.antt =====
-- The loop invariant of `backward_shift` in src/common/flat_hash_map.h, over the references alone:
-- `at` is 0 at the hole; `j` is the position that was looked at last.
use nasdaq_itch_trading_syst.Base.{ℕ, ◌+◌, ◌≤◌, ◌<◌, ◌≡◌, ◌≢◌, ap, sym, subst, ◌∙◌, arith}
use native.Mathlib.Decide.{ℕ_discrete}
use nasdaq_itch_trading_syst.OrderIndex.Ring.{
  dist, dist-lt, dist_self, dist_injective, dist_through, dist_add, dist_back,
}
use nasdaq_itch_trading_syst.OrderIndex.Chains.{IsChained}

module _ (n : ℕ) (hm : ℕ → ℕ) (home-lt : (r : ℕ) → hm r < n) where
  -- A chain may be broken at the hole alone, and only for slots beyond those looked at, which are
  -- all live.
  pub record IsHoled (at : ℕ → ℕ) (hole j : ℕ) : Type 0 where
    pub hole-lt : hole < n
    pub j-lt : j < n
    pub open_hole : at hole ≡ 0
    pub unique : (i k : ℕ) → i < n → k < n → at i ≢ 0 → at i ≡ at k → i ≡ k
    pub broken :
        (i p : ℕ)
        → i < n
        → p < n
        → at i ≢ 0
        → dist n (hm (at i)) p < dist n (hm (at i)) i
        → at p ≡ 0
        → (p ≡ hole) × (dist n hole j < dist n hole i)
    pub looked_at : (p : ℕ) → p < n → 0 < dist n hole p → dist n hole p ≤ dist n hole j → at p ≢ 0

  module _ {at : ℕ → ℕ} {hole j j' : ℕ} (v : IsHoled at hole j) (hj : j' < n)
      (step : dist n hole j' ≡ dist n hole j + 1) where
    other : j' ≢ hole
    other e =
        let z : dist n hole j' ≡ 0 = ap (λ k. dist n hole k) e ∙ dist_self n hole in
        absurd (omega (arith, z))

    -- At an empty slot the hole can be closed: no chain is broken.
    pub stop-IsChained : at j' ≡ 0 → IsChained n hm at
    stop-IsChained empty = record { chained = chained; unique = v.unique }
      where
        chained :
            (i p : ℕ)
            → i < n
            → p < n
            → at i ≢ 0
            → dist n (hm (at i)) p < dist n (hm (at i)) i
            → at p ≢ 0
        chained i p hi hp live d zero_p =
            let (at_hole, beyond) = v.broken i p hi hp live d zero_p in
            let q = hm (at i) in
            let hq : q < n = home-lt (at i) in
            let d' : dist n q hole < dist n q i = subst (λ k. dist n q k < dist n q i) at_hole d in
            let whole = dist_through n q hole i hq v.hole-lt hi d' in
            let apart : dist n hole j' ≢ dist n hole i =
              λ e. live (ap at (sym (dist_injective n hole j' i v.hole-lt hj hi e)) ∙ empty) in
            let bound = dist-lt n q i hq hi in
            let sum = dist_add n q hole j' hq v.hole-lt hj (omega arith) in
            other (v.broken i j' hi hj live (omega arith) empty).0

    -- A slot whose home lies behind the hole stays.
    pub keep-IsHoled :
        at j' ≢ 0
        → 0 < dist n hole (hm (at j'))
        → dist n hole (hm (at j')) ≤ dist n hole j'
        → IsHoled at hole j'
    keep-IsHoled live_j pos near = record {
      hole-lt = v.hole-lt;
      j-lt = hj;
      open_hole = v.open_hole;
      unique = v.unique;
      broken = broken;
      looked_at = looked_at;
    }
      where
        broken :
            (i p : ℕ)
            → i < n
            → p < n
            → at i ≢ 0
            → dist n (hm (at i)) p < dist n (hm (at i)) i
            → at p ≡ 0
            → (p ≡ hole) × (dist n hole j' < dist n hole i)
        broken i p hi hp live d zero_p =
            let (at_hole, beyond) = v.broken i p hi hp live d zero_p in
            elim (ℕ_discrete (dist n hole j') (dist n hole i)) [
              | no apart ↦ (at_hole, omega arith)
              | yes same ↦
                  let e : i ≡ j' = sym (dist_injective n hole j' i v.hole-lt hj hi same) in
                  let q = hm (at j') in
                  let hq : q < n = home-lt (at j') in
                  let d' : dist n q hole < dist n q j' =
                    subst (λ k. dist n q k < dist n q j') at_hole
                      (subst (λ k. dist n (hm (at k)) p < dist n (hm (at k)) k) e d) in
                  let whole = dist_through n q hole j' hq v.hole-lt hj d' in
                  let apart : hole ≢ q = λ z.
                    absurd
                      (omega (arith, pos, ap (λ k. dist n hole k) (sym z) ∙ dist_self n hole)) in
                  let turn = dist_back n hole q v.hole-lt hq apart in
                  let bound = dist-lt n q j' hq hj in absurd (omega arith)
            ]

        looked_at : (p : ℕ) → p < n → 0 < dist n hole p → dist n hole p ≤ dist n hole j' → at p ≢ 0
        looked_at p hp pos_p near_p zero_p = elim (ℕ_discrete (dist n hole p) (dist n hole j')) [
          | yes same ↦
              live_j (ap at (sym (dist_injective n hole p j' v.hole-lt hp hj same)) ∙ zero_p)
          | no apart ↦ v.looked_at p hp pos_p (omega arith) zero_p
        ]

    -- Any other slot moves into the hole and leaves a hole behind.
    module _ {at' : ℕ → ℕ} (live_j : at j' ≢ 0)
        (far : 0 < dist n hole (hm (at j')) → dist n hole j' < dist n hole (hm (at j')))
        (filled : at' hole ≡ at j') (emptied : at' j' ≡ 0)
        (kept : (p : ℕ) → p < n → p ≢ hole → p ≢ j' → at' p ≡ at p) where
      moved_broken :
          (i p : ℕ)
          → i < n
          → p < n
          → at' i ≢ 0
          → dist n (hm (at' i)) p < dist n (hm (at' i)) i
          → at' p ≡ 0
          → p ≢ j'
          → ⊥
      moved_broken i p hi hp live d zero_p np =
          let not_hole : p ≢ hole = λ e. live_j (sym filled ∙ ap at' (sym e) ∙ zero_p) in
          let zero_at : at p ≡ 0 = sym (kept p hp not_hole np) ∙ zero_p in
          let ij : i ≢ j' = λ e. live (ap at' e ∙ emptied) in
          elim (ℕ_discrete i hole) [
            | no ih ↦
                let same = kept i hi ih ij in
                not_hole
                  (v.broken i p hi hp (λ z. live (same ∙ z))
                    (subst (λ k. dist n (hm k) p < dist n (hm k) i) same d) zero_at).0
            | yes ih ↦
                let q = hm (at j') in
                let hq : q < n = home-lt (at j') in
                let d' : dist n q p < dist n q hole =
                  subst (λ k. dist n q p < dist n q k) ih
                    (subst (λ k. dist n (hm k) p < dist n (hm k) i) (ap at' ih ∙ filled) d) in
                let apart : hole ≢ q =
                  λ z. absurd (omega (arith, d', ap (λ k. dist n q k) z ∙ dist_self n q)) in
                let turn = dist_back n hole q v.hole-lt hq apart in
                let bound = dist-lt n q hole hq v.hole-lt in
                let sum = dist_add n q hole j' hq v.hole-lt hj (omega (arith, far)) in
                not_hole (v.broken j' p hj hp live_j (omega arith) zero_at).0
          ]

      moved_unique : (i k : ℕ) → i < n → k < n → at' i ≢ 0 → at' i ≡ at' k → i ≡ k
      moved_unique i k hi hk live e = elim (ℕ_discrete i hole) [
        | yes ih ↦ elim (ℕ_discrete k hole) [
          | yes kh ↦ ih ∙ sym kh
          | no nk ↦ absurd (
              kj (
                sym (
                  v.unique j' k hj hk live_j (sym filled ∙ ap at' (sym ih) ∙ e ∙ kept k hk nk kj))))
        ]
        | no ni ↦ elim (ℕ_discrete k hole) [
          | yes kh ↦ absurd (
              ij (
                v.unique i j' hi hj (λ z. live (kept i hi ni ij ∙ z))
                  (sym (kept i hi ni ij) ∙ e ∙ ap at' kh ∙ filled)))
          | no nk ↦
              let same = kept i hi ni ij in
              v.unique i k hi hk (λ z. live (same ∙ z)) (sym same ∙ e ∙ kept k hk nk kj)
        ]
      ]
        where
          ij : i ≢ j'
          ij z = live (ap at' z ∙ emptied)

          kj : k ≢ j'
          kj z = live (e ∙ ap at' z ∙ emptied)

      pub move-IsHoled : IsHoled at' j' j'
      move-IsHoled = record {
        hole-lt = hj;
        j-lt = hj;
        open_hole = emptied;
        unique = moved_unique;
        broken = λ i p hi hp live d zero_p. elim (ℕ_discrete p j') [
          | no np ↦ absurd (moved_broken i p hi hp live d zero_p np)
          | yes e ↦ (
            e,
            elim (ℕ_discrete i j') [
              | yes ij ↦ absurd (live (ap at' ij ∙ emptied))
              | no ij ↦ ground (arith, dist_self n j', dist_injective n j' i j' hj hi hj)
            ],
          )
        ];
        looked_at = λ p hp pos near. absurd (omega (arith, pos, near, dist_self n j'));
      }
