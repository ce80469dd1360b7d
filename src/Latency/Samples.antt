-- ===== src/Latency/Samples.antt =====
-- The samples that src/common/latency_recorder.h holds.
use nasdaq_itch_trading_syst.Base.{
  ℕ, zero, suc, ◌+◌, ◌-◌, ◌<◌, ◌≤◌, ◌≡◌, ◌⊎◌, refl, sym, ap, subst, ◌∙◌, inl, inr, Bool, true,
  false, List, [], ◌∷◌, ◌++◌, All, length, take, drop, get_or, set, length-set, length-take,
  length-drop, length-append, take-append, u64, ltb, leb, ◌==◌, Bool-cases, if◌then◌else◌, arith,
}
use nasdaq_itch_trading_syst.Latency.{
  LatencyRecorder, add_sample, discard_first, insert_sorted, sort, percentile, largest, max_ticks,
}

-- The samples that count.
abbrev pub recorded : LatencyRecorder → List ℕ
recorded r = take r.count r.samples

-- The number of samples that a test holds for.
abbrev pub tally_of : (ℕ → Bool) → List ℕ → ℕ
tally_of test [] = 0
tally_of test (x ∷ xs) = (if test x then 1 else 0) + tally_of test xs

tally_of-insert_sorted :
    (test : ℕ → Bool) (x : ℕ) (ys : List ℕ)
    → tally_of test (insert_sorted x ys) ≡ (if test x then 1 else 0) + tally_of test ys
unfolding insert_sorted
tally_of-insert_sorted test x [] = refl
tally_of-insert_sorted test x (y ∷ ys) = elim (Bool-cases (leb x y)) [
  | inl least ↦ rw least refl
  | inr more ↦ rw more (omega (arith, tally_of-insert_sorted test x ys))
]

tally_of-sort : (test : ℕ → Bool) (xs : List ℕ) → tally_of test (sort xs) ≡ tally_of test xs
unfolding sort
tally_of-sort test [] = refl
tally_of-sort test (x ∷ xs) =
    tally_of-insert_sorted test x (sort xs)
    ∙ ap (λ (n : ℕ). (if test x then 1 else 0) + n) (tally_of-sort test xs)

abbrev IsSorted : List ℕ → Type 0
IsSorted [] = Unit {0}
IsSorted (x ∷ xs) = All (λ y. x ≤ y) xs × IsSorted xs

insert_sorted-All :
    (b x : ℕ) (ys : List ℕ) → b ≤ x → All (λ y. b ≤ y) ys → All (λ y. b ≤ y) (insert_sorted x ys)
unfolding insert_sorted
insert_sorted-All b x [] h hs = (h, tt)
insert_sorted-All b x (y ∷ ys) h hs = elim (Bool-cases (leb x y)) [
  | inl least ↦ rw least (h, hs)
  | inr more ↦ rw more (hs.0, insert_sorted-All b x ys h hs.1)
]

All-le_trans : (a b : ℕ) (ys : List ℕ) → a ≤ b → All (λ y. b ≤ y) ys → All (λ y. a ≤ y) ys
All-le_trans a b [] h hs = tt
All-le_trans a b (y ∷ ys) h hs = (omega (arith, hs.0), All-le_trans a b ys h hs.1)

insert_sorted-IsSorted : (x : ℕ) (ys : List ℕ) → IsSorted ys → IsSorted (insert_sorted x ys)
unfolding insert_sorted
insert_sorted-IsSorted x [] h = (tt, tt)
insert_sorted-IsSorted x (y ∷ ys) h = elim (Bool-cases (leb x y)) [
  | inl least ↦ rw least ((ground arith, All-le_trans x y ys (ground arith) h.0), h)
  | inr more ↦
      rw more (insert_sorted-All y x ys (ground arith) h.0, insert_sorted-IsSorted x ys h.1)
]

sort-IsSorted : (xs : List ℕ) → IsSorted (sort xs)
unfolding sort
sort-IsSorted [] = tt
sort-IsSorted (x ∷ xs) = insert_sorted-IsSorted x (sort xs) (sort-IsSorted xs)

length-insert_sorted : (x : ℕ) (ys : List ℕ) → length (insert_sorted x ys) ≡ length ys + 1
unfolding insert_sorted
length-insert_sorted x [] = refl
length-insert_sorted x (y ∷ ys) = elim (Bool-cases (leb x y)) [
  | inl least ↦ rw least (omega arith)
  | inr more ↦ rw more (omega (arith, length-insert_sorted x ys))
]

length-sort : (xs : List ℕ) → length (sort xs) ≡ length xs
unfolding sort
length-sort [] = refl
length-sort (x ∷ xs) = omega (arith, length-insert_sorted x (sort xs), length-sort xs)

none_below : (v : ℕ) (xs : List ℕ) → All (λ y. v ≤ y) xs → tally_of (λ x. ltb x v) xs ≡ 0
none_below v [] h = refl
none_below v (x ∷ xs) h =
    let least : ltb x v ≡ false = ground (arith, h.0) in
    rw least (omega (arith, none_below v xs h.1))

get_or-All : (P : ℕ → Type 0) (xs : List ℕ) (i : ℕ) → All P xs → i < length xs → P (get_or xs i 0)
get_or-All P [] i h lt = absurd (omega arith)
get_or-All P (x ∷ xs) zero h lt = h.0
get_or-All P (x ∷ xs) (suc i) h lt = get_or-All P xs i h.1 (omega arith)

-- In a sorted list, at most `i` elements are below the one at `i`, and more than `i` are not above.
ranks :
    (xs : List ℕ) (i : ℕ)
    → IsSorted xs
    → i < length xs
    → (tally_of (λ x. ltb x (get_or xs i 0)) xs ≤ i)
      × (i < tally_of (λ x. leb x (get_or xs i 0)) xs)
ranks [] i h lt = absurd (omega arith)
ranks (x ∷ xs) zero h lt =
    let not_below : ltb x x ≡ false = ground arith in
    let within : leb x x ≡ true = ground arith in
    (rw not_below (omega (arith, none_below x xs h.0)), rw within (omega arith))
ranks (x ∷ xs) (suc i) h lt =
    let (low, high) = ranks xs i h.1 (omega arith) in
    let above : x ≤ get_or xs i 0 = get_or-All (λ y. x ≤ y) xs i h.0 (omega arith) in
    let within : leb x (get_or xs i 0) ≡ true = ground arith in
    (
      elim (Bool-cases (ltb x (get_or xs i 0))) [
        | inl below ↦ rw below (omega arith)
        | inr equal ↦ rw equal (omega arith)
      ],
      rw within (omega arith),
    )

-- The index of a percentile, once it is clamped.
abbrev pub clamped_rank : ℕ → ℕ → ℕ
clamped_rank count rank = if leb count rank then count - 1 else rank

-- For any index that the floating point computation gives, of a recorder with at least one sample
-- and a count within its capacity, the percentile is the sample of that rank, where the rank is
-- clamped to the last: at most so many samples are below it, and more than so many are not above
-- it.
pub percentile_correct :
    (rank : ℕ → ℕ) (r : LatencyRecorder)
    → 0 < r.count
    → r.count ≤ length r.samples
    → (tally_of (λ x. ltb x (percentile rank r)) (recorded r) ≤ clamped_rank r.count (rank r.count))
      × (clamped_rank r.count (rank r.count)
          < tally_of (λ x. leb x (percentile rank r)) (recorded r))
unfolding percentile
percentile_correct rank r pos fits =
    let i = clamped_rank r.count (rank r.count) in
    let some_samples : (r.count == 0) ≡ false = ground arith in
    let inside : i < r.count = within r.count (rank r.count) pos in
    let whole = length-take r.count r.samples in
    let v = get_or (sort (recorded r)) i 0 in
    let (low, high) =
      ranks (sort (recorded r)) i (sort-IsSorted (recorded r))
        (omega (arith, length-sort (recorded r), whole)) in
    rw some_samples (
      subst (λ (n : ℕ). n ≤ i) (tally_of-sort (λ x. ltb x v) (recorded r)) low,
      subst (λ (n : ℕ). i < n) (tally_of-sort (λ x. leb x v) (recorded r)) high,
    )
  where
    within : (n k : ℕ) → 0 < n → clamped_rank n k < n
    within n k pos = ground arith

take-set :
    (xs : List ℕ) (n t : ℕ) → n < length xs → take (n + 1) (set xs n t) ≡ take n xs ++ (t ∷ [])
take-set [] n t h = absurd (omega arith)
take-set (x ∷ xs) zero t h = refl
take-set (x ∷ xs) (suc n) t h =
    let same : suc n + 1 ≡ suc (n + 1) = omega arith in
    rw same (ap (◌∷◌ x) (take-set xs n t (omega arith)))

-- The recorder after a new sample: the sample is behind the others, or it was dropped.
abbrev pub Adds : LatencyRecorder → ℕ → LatencyRecorder → Type 0
Adds r ticks r' =
    ((r.count < length r.samples)
      × (recorded r' ≡ recorded r ++ (ticks ∷ []))
      × (r'.dropped ≡ r.dropped))
    ⊎ ((r.count ≡ length r.samples)
        × (recorded r' ≡ recorded r)
        × (r'.dropped ≡ u64 (r.dropped + 1)))

-- On a recorder whose count is within its capacity, a new sample is put behind those that count
-- if there is room, and otherwise it is counted as dropped, on 64 bits, and the samples stay; the
-- capacity is unchanged, and the count is within it.
pub add_sample_correct :
    (r : LatencyRecorder) (ticks : ℕ)
    → r.count ≤ length r.samples
    → Adds r ticks (add_sample r ticks)
      × (length (add_sample r ticks).samples ≡ length r.samples)
      × ((add_sample r ticks).count ≤ length r.samples)
unfolding add_sample
add_sample_correct r ticks fits = elim (Bool-cases (ltb r.count (length r.samples))) [
  | inl room ↦
      let lt : r.count < length r.samples = ground arith in
      rw room (
        inl (lt, take-set r.samples r.count ticks lt, refl),
        length-set r.samples r.count ticks,
        omega arith,
      )
  | inr full ↦ rw full (inr (ground arith, refl, refl), refl, fits)
]

-- Discarding the first samples.
pub discard_first_correct :
    (r : LatencyRecorder) (n : ℕ)
    → r.count ≤ length r.samples
    → (recorded (discard_first r n) ≡ drop n (recorded r))
      × (length (discard_first r n).samples ≡ length r.samples)
      × ((discard_first r n).count ≡ r.count - n)
unfolding discard_first
discard_first_correct r n fits =
    let whole = length-take r.count r.samples in
    elim (Bool-cases (leb r.count n)) [
      | inl all ↦
          let none_left : length (drop n (recorded r)) ≡ 0 =
            omega (arith, length-drop n (recorded r), whole, gone r.count n all) in
          rw all (
            sym (length_zero (drop n (recorded r)) none_left),
            refl,
            omega (arith, gone r.count n all),
          )
      | inr less ↦
          let kept : r.count - n ≡ length (drop n (recorded r)) =
            omega (arith, length-drop n (recorded r), whole) in
          rw less (
            take-append (r.count - n) (drop n (recorded r)) (drop (r.count - n) r.samples) kept,
            omega (
              arith,
              length-append (drop n (recorded r)) (drop (r.count - n) r.samples),
              length-drop (r.count - n) r.samples,
              kept,
            ),
            refl,
          )
    ]
  where
    gone : (c n : ℕ) → leb c n ≡ true → c ≤ n
    gone c n e = ground arith

    length_zero : (xs : List ℕ) → length xs ≡ 0 → xs ≡ []
    length_zero [] e = refl
    length_zero (x ∷ xs) e = absurd (omega arith)

-- The largest of `m` and the elements of a list.
abbrev IsLargest : List ℕ → ℕ → ℕ → Type 0
IsLargest xs m top =
    (m ≤ top) × All (λ x. x ≤ top) xs × ((top ≡ m) ⊎ (0 < tally_of (λ x. x == top) xs))

IsLargest-cons :
    (x : ℕ) (xs : List ℕ) (m top : ℕ)
    → IsLargest xs (if ltb m x then x else m) top
    → IsLargest (x ∷ xs) m top
IsLargest-cons x xs m top (low, all, attained) = (
  ground arith,
  (ground arith, all),
  elim attained [ inl first ↦ at_once first | inr later ↦ inr (omega (arith, later)) ],
)
  where
    at_once : top ≡ (if ltb m x then x else m) → (top ≡ m) ⊎ (0 < tally_of (λ y. y == top) (x ∷ xs))
    at_once e = elim (Bool-cases (x == top)) [
      | inl here ↦ inr (rw here (omega arith))
      | inr elsewhere ↦ inl (ground arith)
    ]

largest-IsLargest : (xs : List ℕ) (m : ℕ) → IsLargest xs m (largest xs m)
unfolding largest
largest-IsLargest [] m = (omega arith, tt, inl refl)
largest-IsLargest (x ∷ xs) m =
    IsLargest-cons x xs m (largest xs (if ltb m x then x else m))
      (largest-IsLargest xs (if ltb m x then x else m))

-- The maximum of a recorder with at least one sample and a count within its capacity is one of
-- the samples, and none of them is above it.
pub max_ticks_correct :
    (r : LatencyRecorder)
    → 0 < r.count
    → r.count ≤ length r.samples
    → All (λ x. x ≤ max_ticks r) (recorded r) × (0 < tally_of (λ x. x == max_ticks r) (recorded r))
unfolding max_ticks
max_ticks_correct r pos fits =
    let (low, all, attained) = largest-IsLargest (recorded r) 0 in
    (
      all,
      elim attained [
        | inl zero_max ↦
            subst (λ (m : ℕ). 0 < tally_of (λ x. x == m) (recorded r)) (sym zero_max)
              (all_zero (recorded r) (subst (λ (m : ℕ). All (λ x. x ≤ m) (recorded r)) zero_max all)
                (omega (arith, length-take r.count r.samples)))
        | inr there ↦ there
      ],
    )
  where
    all_zero : (xs : List ℕ) → All (λ x. x ≤ 0) xs → 0 < length xs → 0 < tally_of (λ x. x == 0) xs
    all_zero [] h pos = absurd (omega arith)
    all_zero (x ∷ xs) h pos =
        let zero_x : (x == 0) ≡ true = ground (arith, h.0) in rw zero_x (omega arith)
