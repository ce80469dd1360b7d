-- ===== src/OrderIndex/Ring.antt =====
-- The ring of a table of `2 ^ k` slots: the masked expressions of src/common/flat_hash_map.h as
-- arithmetic with a case for the wrap.
use nasdaq_itch_trading_syst.Base.{
  ℕ, zero, suc, ◌+◌, ◌-◌, ◌*◌, ◌%◌, ◌^◌, ◌≤◌, ◌<◌, ◌≡◌, ◌≢◌, ◌⊎◌, ap, sym, ◌∙◌, arith, bit_and, u64,
  sub_u64, bit_and_mask, leb, if◌then◌else◌,
}
use native.Mathlib.Nat.{
  pow-suc, one-le-pow, mod_self, mod-eq_of_lt, mod-lt, pow-le-pow_right, add-mul-mod_self_right,
}
use native.Mathlib.Decide.{dec_le, dec_lt}
use nasdaq_itch_trading_syst.OrderIndex.{home, advance, distance}

-- A table of `2 ^ k` slots; 2 ^ 62 slots are more than memory holds.
pub record IsRing (mask n : ℕ) : Type 0 where
  pub k : ℕ
  pub power : n ≡ 2 ^ k
  pub small : k ≤ 62
  pub masked : mask ≡ n - 1

-- The way forward from `h` to `i` in a ring of `n`.
abbrev pub dist : ℕ → ℕ → ℕ → ℕ
dist n h i = if leb h i then i - h else i + n - h

pub dist_cases :
    (n h i : ℕ)
    → h < n
    → i < n
    → ((h ≤ i) × (dist n h i + h ≡ i)) ⊎ ((i < h) × (dist n h i + h ≡ i + n))
dist_cases n h i hn hi = ground arith

pow_add : (a b : ℕ) → 2 ^ (a + b) ≡ 2 ^ a * 2 ^ b
pow_add zero b = let e : zero + b ≡ b = omega arith in rw e (omega arith)
pow_add (suc a) b =
    let e : suc a + b ≡ suc (a + b) = omega arith in
    rw e (
      omega (
        arith,
        pow-suc 2 (a + b),
        pow-suc 2 a,
        pow_add a b,
        ap (λ (t : ℕ). t * 2 ^ b) (pow-suc 2 a),
      ))

module _ {mask n : ℕ} (ring : IsRing mask n) where
  pub ring_pos : 0 < n
  ring_pos = rw ring.power (one-le-pow ring.k 2 (omega arith))

  pub ring_small : n ≤ 2 ^ 62
  ring_small = rw ring.power (pow-le-pow_right (omega arith) ring.small)

  pub masked_mod : (a : ℕ) → bit_and a mask ≡ a % n
  masked_mod a = rw (ring.masked, ring.power) (bit_and_mask ring.k a)

  pub home-lt : (ref : ℕ) → home mask ref < n
  unfolding home
  home-lt ref = rw (masked_mod _) (mod-lt _ ring_pos)

  -- One step forward.
  pub advance_lem : (i : ℕ) → i < n → advance mask i ≡ (if leb n (i + 1) then 0 else i + 1)
  unfolding advance
  advance_lem i h =
      let e : u64 (i + 1) ≡ i + 1 = omega (arith, ring_small) in
      rw (masked_mod (u64 (i + 1)), e)
        (elim (dec_le n (i + 1)) [
          | yes wrap ↦ let last : i + 1 ≡ n = omega arith in rw last (mod_self n ∙ ground arith)
          | no inside ↦ mod-eq_of_lt (omega arith) ∙ ground arith
        ])

  -- 2 ^ 64 is a whole number of turns.
  turns : (c : ℕ) × (c * n + n ≡ 2 ^ 64)
  turns =
      let e : 64 - ring.k + ring.k ≡ 64 = omega (arith, ring.small) in
      let two64 : 2 ^ (64 - ring.k) * n ≡ 2 ^ 64 =
        rw ring.power (sym (pow_add (64 - ring.k) ring.k) ∙ ap (λ (t : ℕ). 2 ^ t) e) in
      let pos : 0 < 2 ^ (64 - ring.k) = one-le-pow (64 - ring.k) 2 (omega arith) in
      let c = 2 ^ (64 - ring.k) - 1 in
      let whole : c + 1 ≡ 2 ^ (64 - ring.k) = omega arith in
      (c, omega (arith, ap (λ (t : ℕ). t * n) whole))

  pub distance_lem : (h i : ℕ) → h < n → i < n → distance mask h i ≡ dist n h i
  unfolding distance
  distance_lem h i hn hi = rw (masked_mod (sub_u64 i h)) (elim (dec_le h i) [
    | yes ahead ↦
        let e : sub_u64 i h ≡ i - h = omega (arith, ring_small) in
        rw e (mod-eq_of_lt (omega arith) ∙ ground arith)
    | no behind ↦
        let (c, whole) = turns in
        let e : sub_u64 i h ≡ (i + n - h) + c * n = omega (arith, ring_small) in
        rw e (add-mul-mod_self_right (i + n - h) c n ∙ mod-eq_of_lt (omega arith) ∙ ground arith)
  ])

-- A ring of at most 2 ^ 61 slots can double.
pub ring_exponent : (mask n : ℕ) (r : IsRing mask n) → n ≤ 2 ^ 61 → suc r.k ≤ 62
ring_exponent mask n r h = elim (dec_lt r.k 62) [
  | yes small ↦ small
  | no large ↦
      let e : 2 ^ 62 ≤ 2 ^ r.k = pow-le-pow_right (omega arith) {i = 62} (omega arith) in
      absurd (omega (arith, e, r.power))
]

-- The successor on the ring.
abbrev pub next : ℕ → ℕ → ℕ
next n i = if leb n (i + 1) then 0 else i + 1

module _ (n : ℕ) where
  pub dist-lt : (a b : ℕ) → a < n → b < n → dist n a b < n
  dist-lt a b ha hb = ground arith

  pub dist_self : (a : ℕ) → dist n a a ≡ 0
  dist_self a = ground arith

  pub next-lt : (i : ℕ) → i < n → next n i < n
  next-lt i h = ground arith

  pub dist-next :
      (a i : ℕ) → a < n → i < n → dist n a i + 1 < n → dist n a (next n i) ≡ dist n a i + 1
  dist-next a i ha hi h = ground arith

  pub dist_injective : (a b c : ℕ) → a < n → b < n → c < n → dist n a b ≡ dist n a c → b ≡ c
  dist_injective a b c ha hb hc h = ground arith

  -- The way to `c` leads over every `b` before it.
  pub dist_through :
      (a b c : ℕ)
      → a < n
      → b < n
      → c < n
      → dist n a b < dist n a c
      → dist n a c ≡ dist n a b + dist n b c
  dist_through a b c ha hb hc h = ground arith

  pub dist_add :
      (a b c : ℕ)
      → a < n
      → b < n
      → c < n
      → dist n a b + dist n b c < n
      → dist n a c ≡ dist n a b + dist n b c
  dist_add a b c ha hb hc h = ground arith

  -- There and back is one turn.
  pub dist_back : (a b : ℕ) → a < n → b < n → a ≢ b → dist n a b + dist n b a ≡ n
  dist_back a b ha hb h = ground arith
