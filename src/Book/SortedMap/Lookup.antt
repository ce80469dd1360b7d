-- ===== src/Book/SortedMap/Lookup.antt =====
-- Lookups in the map of src/book/price_levels.h after it has changed.
use nasdaq_itch_trading_syst.Base.{
  ℕ, ◌≤◌, ◌<◌, subst, ltb→lt, ltb→le, ◌≡◌, refl, sym, ◌∙◌, false, Option, none, some, [], ◌∷◌, ltb,
  ◌==◌, Bool-cases, ==_iff, ==_refl, arith, inl, inr,
}
use nasdaq_itch_trading_syst.Book.Level.{Level}
use nasdaq_itch_trading_syst.Book.SortedMap.{SortedMap, get, put, remove_key, first, last}

pub get-put : (m : SortedMap) (k : ℕ) (l : Level) → get (put m k l) k ≡ some l
unfolding get put
get-put [] k l = ground arith
get-put ((k', l') ∷ m) k l = let rest = get-put m k l in ground arith

pub get-put_other :
    (m : SortedMap) (k : ℕ) (l : Level) (j : ℕ) → (k == j) ≡ false → get (put m k l) j ≡ get m j
unfolding get put
get-put_other [] k l j ne = ground arith
get-put_other ((k', l') ∷ m) k l j ne = let rest = get-put_other m k l j ne in ground arith

-- The keys ascend.
abbrev pub Over : ℕ → SortedMap → Type 0
Over k [] = Unit
Over k ((k', l) ∷ m) = k < k'

abbrev pub IsSorted : SortedMap → Type 0
IsSorted [] = Unit
IsSorted ((k, l) ∷ m) = Over k m × IsSorted m

Over-down : (m : SortedMap) (k k' : ℕ) → k < k' → Over k' m → Over k m
Over-down [] k k' h o = tt
Over-down ((j, l) ∷ m) k k' h o = omega arith

pub Over-get : (m : SortedMap) (k : ℕ) → IsSorted m → Over k m → get m k ≡ none
unfolding get
Over-get [] k s o = refl
Over-get ((k', l) ∷ m) k s o = let rest = Over-get m k s.1 (Over-down m k k' o s.0) in ground arith

Over-put : (m : SortedMap) (j k : ℕ) (l : Level) → j < k → Over j m → Over j (put m k l)
unfolding put
Over-put [] j k l h o = h
Over-put ((k', l') ∷ m) j k l h o = elim (Bool-cases (ltb k k')) [
  | inl lt ↦ rw lt h
  | inr ge ↦ elim (Bool-cases (k == k')) [ inl e ↦ rw (ge, e) h | inr ne ↦ rw (ge, ne) o ]
]

pub put-IsSorted : (m : SortedMap) (k : ℕ) (l : Level) → IsSorted m → IsSorted (put m k l)
unfolding put
put-IsSorted [] k l s = (tt, tt)
put-IsSorted ((k', l') ∷ m) k l s = elim (Bool-cases (ltb k k')) [
  | inl lt ↦ rw lt (ltb→lt k k' lt, s)
  | inr ge ↦ elim (Bool-cases (k == k')) [
    | inl e ↦ rw (ge, e) (subst (λ (j : ℕ). Over j m × IsSorted m) (sym ((==_iff k k').0 e)) s)
    | inr ne ↦ rw (ge, ne) (Over-put m k' k l (ground arith) s.0, put-IsSorted m k l s.1)
  ]
]

Over-remove_key : (m : SortedMap) (j k : ℕ) → IsSorted m → Over j m → Over j (remove_key m k)
unfolding remove_key
Over-remove_key [] j k s o = tt
Over-remove_key ((k', l) ∷ m) j k s o = elim (Bool-cases (k' == k)) [
  | inl e ↦ rw e (Over-down m j k' o s.0)
  | inr ne ↦ rw ne o
]

pub remove_key-IsSorted : (m : SortedMap) (k : ℕ) → IsSorted m → IsSorted (remove_key m k)
unfolding remove_key
remove_key-IsSorted [] k s = tt
remove_key-IsSorted ((k', l) ∷ m) k s = elim (Bool-cases (k' == k)) [
  | inl e ↦ rw e s.1
  | inr ne ↦ rw ne (Over-remove_key m k' k s.1 s.0, remove_key-IsSorted m k s.1)
]

pub get-remove_key : (m : SortedMap) (k : ℕ) → IsSorted m → get (remove_key m k) k ≡ none
unfolding get remove_key
get-remove_key [] k s = refl
get-remove_key ((k', l) ∷ m) k s = elim (Bool-cases (k' == k)) [
  | inl e ↦ rw e (subst (λ (j : ℕ). get m j ≡ none) ((==_iff k' k).0 e) (Over-get m k' s.1 s.0))
  | inr ne ↦ rw (ne, ne) (get-remove_key m k s.1)
]

pub get-remove_key_other :
    (m : SortedMap) (k j : ℕ) → (k == j) ≡ false → get (remove_key m k) j ≡ get m j
unfolding get remove_key
get-remove_key_other [] k j ne = refl
get-remove_key_other ((k', l) ∷ m) k j ne = let rest = get-remove_key_other m k j ne in ground arith

pub get-tail :
    (m : SortedMap) (k : ℕ) (l : Level) (j : ℕ) (l' : Level)
    → IsSorted ((k, l) ∷ m)
    → get m j ≡ some l'
    → get ((k, l) ∷ m) j ≡ some l'
unfolding get
get-tail m k l j l' s e = elim (Bool-cases (k == j)) [
  | inl same ↦
      let missing : get m j ≡ none =
        subst (λ (r : ℕ). get m r ≡ none) ((==_iff k j).0 same) (Over-get m k s.1 s.0) in
      absurd (ground (arith, e, missing))
  | inr ne ↦ rw ne e
]

-- The ends of the map are entries of it.
pub first-get : (m : SortedMap) (e : ℕ × Level) → first m ≡ some e → get m e.0 ≡ some e.1
unfolding get first
first-get [] e h = absurd (ground (arith, h))
first-get ((k, l) ∷ m) e h = subst (λ (o : Option (ℕ × Level)). or_entry o) h (rw (==_refl k) refl)
  where
    or_entry : Option (ℕ × Level) → Type 0
    or_entry none = Unit
    or_entry (some e) = get ((k, l) ∷ m) e.0 ≡ some e.1

pub last-get : (m : SortedMap) (e : ℕ × Level) → IsSorted m → last m ≡ some e → get m e.0 ≡ some e.1
unfolding first last
last-get [] e s h = absurd (ground (arith, h))
last-get (e' ∷ []) e s h = first-get (e' ∷ []) e (lone e' ∙ h)
  where
    lone : (e' : ℕ × Level) → first (e' ∷ []) ≡ some e'
    lone e' = refl
last-get ((k, l) ∷ e' ∷ m) e s h = get-tail (e' ∷ m) k l e.0 e.1 s (last-get (e' ∷ m) e s.1 h)

pub first-least :
    (m : SortedMap) (e : ℕ × Level) (q : ℕ) (l : Level)
    → IsSorted m
    → first m ≡ some e
    → get m q ≡ some l
    → e.0 ≤ q
unfolding get first
first-least [] e q l s h g = absurd (ground (arith, h))
first-least ((k, l') ∷ m) e q l s h g =
    subst (λ (o : Option (ℕ × Level)). bounded o) h
      (elim (Bool-cases (ltb q k)) [
        | inl lt ↦ absurd (ground (arith, g, Over-get ((k, l') ∷ m) q s (ltb→lt q k lt)))
        | inr ge ↦ ltb→le q k ge
      ])
  where
    bounded : Option (ℕ × Level) → Type 0
    bounded none = Unit
    bounded (some e) = e.0 ≤ q

pub last-greatest :
    (m : SortedMap) (e : ℕ × Level) (q : ℕ) (l : Level)
    → IsSorted m
    → last m ≡ some e
    → get m q ≡ some l
    → q ≤ e.0
unfolding get last
last-greatest [] e q l s h g = absurd (ground (arith, h))
last-greatest ((k, l') ∷ []) e q l s h g =
    subst (λ (o : Option (ℕ × Level)). bounded o) h (ground (arith, g))
  where
    bounded : Option (ℕ × Level) → Type 0
    bounded none = Unit
    bounded (some e) = q ≤ e.0
last-greatest ((k, l') ∷ (k', l'') ∷ m) e q l s h g = elim (Bool-cases (k == q)) [
  | inl here ↦
      let rest = last-greatest ((k', l'') ∷ m) e k' l'' s.1 h (rw (==_refl k') refl) in
      let lt : k < k' = s.0 in omega (arith, (==_iff k q).0 here)
  | inr ne ↦ last-greatest ((k', l'') ∷ m) e q l s.1 h (sym (rw ne refl) ∙ g)
]
