-- ===== src/Mold/GapInjector/Drops.antt =====
-- How many packets src/mold/gap_injector.h drops.
use nasdaq_itch_trading_syst.Base.{
  ℕ, zero, suc, ◌+◌, ◌*◌, ◌/◌, ◌%◌, ◌^◌, ◌<◌, ◌≡◌, refl, ap, sym, subst, ◌∙◌, false, ◌==◌,
  Bool-cases, inl, inr, ==_iff, if◌then◌else◌, u64, arith,
}
use native.Mathlib.Nat.{
  suc-mul, mul-mod_left, mul-add-mod_self_right, mod-eq_of_lt, div-eq_of_lt-le,
}
use nasdaq_itch_trading_syst.Mold.GapInjector.{GapInjector, every_nth, should_drop}

-- The drops among the packets 0 to n - 1, asked for in their order, and the injector after them.
abbrev pub drops : GapInjector → ℕ → GapInjector × ℕ
drops g zero = (g, 0)
drops g (suc n) =
    let before = drops g n in
    let asked = should_drop before.0 n in (asked.0, before.1 + (if asked.1 then 1 else 0))

-- At `d` full rounds of `n` and `r` more, the next is the last of a round exactly if r + 1 is n.
last_of_round : (n k d r : ℕ) → d * n + r ≡ k → r < n → ((k + 1) % n == 0) ≡ (r + 1 == n)
last_of_round n k d r e lt = elim (Bool-cases (r + 1 == n)) [
  | inl last ↦
      let full : k + 1 ≡ (d + 1) * n = omega (arith, suc-mul d n, (==_iff (r + 1) n).0 last) in
      rw (last, full) ((==_iff _ 0).1 (mul-mod_left (d + 1) n))
  | inr inside ↦
      let more : k + 1 ≡ d * n + (r + 1) = omega arith in
      let less : r + 1 < n = ground arith in
      let rest : (k + 1) % n ≡ r + 1 =
        ap (λ (m : ℕ). m % n) more ∙ mul-add-mod_self_right d n (r + 1) ∙ mod-eq_of_lt less in
      rw (inside, rest) (ground arith)
]

-- After `k` packets: `d` drops, one for each full round, and `r` packets of the next round.
abbrev InRound : ℕ → ℕ → GapInjector × ℕ → Type 0
InRound n k asked = (r : ℕ) × (asked.0 ≡ every_nth n) × (r < n) × (asked.1 * n + r ≡ k)

one_more :
    (n k d r : ℕ)
    → r < n
    → k + 1 < 2 ^ 64
    → d * n + r ≡ k
    → InRound n
        (suc k)
        ((should_drop (every_nth n) k).0, d + (if (should_drop (every_nth n) k).1 then 1 else 0))
unfolding should_drop every_nth
one_more n k d r lt few e =
    let some_n : (n == 0) ≡ false = ground arith in
    let wide : u64 (k + 1) ≡ k + 1 = omega arith in
    rw (some_n, wide, last_of_round n k d r e lt)
      (elim (Bool-cases (r + 1 == n)) [
        | inl last ↦
            let full : r + 1 ≡ n = (==_iff (r + 1) n).0 last in
            rw last (0, refl, omega arith, omega (arith, suc-mul d n))
        | inr inside ↦ rw inside (r + 1, refl, ground arith, omega (arith, add-zero d))
      ])
  where
    add-zero : (d : ℕ) → (d + 0) * n ≡ d * n
    add-zero d = ap (λ (m : ℕ). m * n) (omega arith)

drops-InRound : (n k : ℕ) → 0 < n → k < 2 ^ 64 → InRound n k (drops (every_nth n) k)
drops-InRound n zero pos few = (0, refl, pos, omega arith)
drops-InRound n (suc k) pos few =
    let (r, same, lt, e) = drops-InRound n k pos (omega arith) in
    let before = drops (every_nth n) k in
    subst
      (λ (g : GapInjector).
        InRound n (suc k) ((should_drop g k).0, before.1 + (if (should_drop g k).1 then 1 else 0)))
      (sym same) (one_more n k before.1 r lt (omega arith) e)

-- An injector for every `n`-th packet, `n` above 0, asked for the packets 0 to `k - 1` in their
-- order, fewer than 2 ^ 64, drops `k / n` of them.
pub drops-every_nth : (n k : ℕ) → 0 < n → k < 2 ^ 64 → (drops (every_nth n) k).1 ≡ k / n
drops-every_nth n k pos few =
    let (r, same, lt, e) = drops-InRound n k pos few in
    sym (div-eq_of_lt-le n (omega arith) (omega (arith, suc-mul (drops (every_nth n) k).1 n)))
