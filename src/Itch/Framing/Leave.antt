-- ===== src/Itch/Framing/Leave.antt =====
-- The loops `while (framer.next(mv))` of apps/feed_handler/main.cc and apps/replayer/main.cc, which
-- their bodies may leave.
use nasdaq_itch_trading_syst.Base.{
  ℕ, zero, suc, ◌+◌, ◌^◌, ◌<◌, ◌≤◌, ◌≡◌, ◌⊎◌, refl, subst, sym, ap, ◌∙◌, inl, inr, Bool, true,
  false, Option, some, List, [], ◌∷◌, ◌++◌, All, length, drop, length-append, arith,
}
use nasdaq_itch_trading_syst.ByteReader.Value.{IsBytes}
use nasdaq_itch_trading_syst.Itch.Framing.{MessageView, Framer, framer, walk_while}
use nasdaq_itch_trading_syst.Itch.Framing.Stream.{
  frames, IsMessage, IsIncomplete, views, IsFramer, IsSplit, next-incomplete,
}
use nasdaq_itch_trading_syst.Itch.Framing.Walk.{length-frames, behind, view_of, takes_frame}

-- What a body has done: it goes on, with the invariant for one more round, or it leaves the loop.
abbrev pub Round {ℓ κ} :
    {S : Type ℓ} → (ℕ → S → Type κ) → (S → Type κ) → ℕ → Option (S × Bool) → Type (ℓ ⊔ κ)
Round {S} Inv Left k run =
    ((s : S) × (run ≡ some (s, true)) × Inv k s) ⊎ ((s : S) × (run ≡ some (s, false)) × Left s)

-- A body that keeps an invariant that counts the rounds, or leaves the loop.
module _ {ℓ κ μ} {S : Type ℓ} (body : MessageView → S → Option (S × Bool)) (Inv : ℕ → S → Type κ)
    (Left : S → Type κ) (Good : MessageView → Type μ) (limit : ℕ)
    (keeps : (k : ℕ) (v : MessageView) (s : S)
      → Good v
      → k < limit
      → Inv k s
      → Round Inv Left (k + 1) (body v s)) where
  -- The loop has ended, after all `n` rounds or before.
  abbrev pub Ends : ℕ → Option (S × Framer) → Type (ℓ ⊔ κ)
  Ends n run = (s : S) × (f : Framer) × (run ≡ some (s, f)) × (Inv n s ⊎ Left s)

  walk_while-frames :
      (fuel : ℕ) (f : Framer) (ms : List (List ℕ)) (rest : List ℕ) (k : ℕ) (s : S)
      → IsFramer f
      → All IsMessage ms
      → All Good (views ms rest)
      → IsIncomplete rest
      → IsBytes rest
      → drop f.pos f.bytes ≡ frames ms ++ rest
      → length ms < fuel
      → k + length ms ≤ limit
      → Inv k s
      → Ends (k + length ms) (walk_while fuel body f s)
  unfolding walk_while
  walk_while-frames zero f ms rest k s v ok good stop bytes at enough few inv = absurd (omega arith)
  walk_while-frames (suc fuel) f [] rest k s v ok good stop bytes at enough few inv =
      let same : k + 0 ≡ k = omega arith in
      (
        s,
        f,
        rw (next-incomplete f rest v bytes stop at, walk_while) refl,
        inl (subst (λ (n : ℕ). Inv n s) (sym same) inv),
      )
  walk_while-frames (suc fuel) f (m ∷ ms) rest k s v ok good stop bytes at enough few inv =
      let t = takes_frame f m ms rest v ok.0 at in
      let same : k + 1 + length ms ≡ k + length (m ∷ ms) = omega arith in
      elim (keeps k (view_of m ms rest) s good.0 (omega arith) inv) [
        | inl (s1, one_round, inv1) ↦
            let (s', f', run, ended) =
              walk_while-frames fuel (behind f m) ms rest (k + 1) s1 t.valid ok.1 good.1 stop bytes
                t.left (omega arith) (omega arith) inv1 in
            (
              s',
              f',
              rw (t.hands_out, walk_while) (rw one_round run),
              subst (λ (n : ℕ). Inv n s' ⊎ Left s') same ended,
            )
        | inr (s1, one_round, left) ↦
            (s1, behind f m, rw (t.hands_out, walk_while) (rw one_round refl), inr left)
      ]

  pub walk_while-IsSplit :
      (file : List ℕ) (ms : List (List ℕ)) (rest : List ℕ) (s : S)
      → length file ≤ limit
      → length file < 2 ^ 64
      → IsSplit file ms rest
      → All Good (views ms rest)
      → Inv 0 s
      → Ends (length ms) (walk_while (suc (length file)) body (framer file (length file)) s)
  unfolding framer
  walk_while-IsSplit file ms rest s few fits split good inv =
      let total : length file ≡ length (frames ms) + length rest =
        ap length split.spells ∙ length-append (frames ms) rest in
      let (s', f, run, ended) =
        walk_while-frames (suc (length file)) (framer file (length file)) ms rest 0 s
          (record { whole = refl; inside = omega arith; fits = fits }) split.messages good
          split.stops split.rest_bytes split.spells (omega (arith, length-frames ms))
          (omega (arith, length-frames ms)) inv in
      let same : 0 + length ms ≡ length ms = omega arith in
      (s', f, run, subst (λ (n : ℕ). Inv n s' ⊎ Left s') same ended)
