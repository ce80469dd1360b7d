-- ===== src/Itch/Framing/Walk.antt =====
-- The loop over a framer, src/itch/framing.cc: on any buffer it delivers exactly the messages whose
-- frames the buffer holds, in order, and ends where the complete frames end.
use nasdaq_itch_trading_syst.Base.{
  ℕ, zero, suc, ◌+◌, ◌-◌, ◌^◌, ◌≤◌, ◌<◌, ◌≡◌, ◌↔◌, refl, sym, ap, ◌∙◌, Option, some, List, [], ◌∷◌,
  ◌++◌, drop, length, All, arith, drop-drop, drop-append, length-drop, length-append, ◌>>=◌, true,
  Option-cases, inl, inr, ==_iff,
}
use mathlib.Core.List.{append_assoc}
use nasdaq_itch_trading_syst.ByteReader.Value.{IsBytes}
use nasdaq_itch_trading_syst.Itch.Framing.{MessageView, Framer, framer, next, exhausted, walk}
use nasdaq_itch_trading_syst.Itch.Framing.Stream.{
  frame, frames, IsMessage, IsIncomplete, views, IsFramer, next-frame, next-incomplete, IsSplit,
  IsSplit-exists,
}

-- Every frame takes at least its prefix.
pub length-frames : (ms : List (List ℕ)) → length ms ≤ length (frames ms)
length-frames [] = omega arith
length-frames (m ∷ ms) = omega (arith, length-append (frame m) (frames ms), length-frames ms)

-- The loop's body on a list of views, where it cannot fail.
abbrev pub run_views {ℓ} : {S : Type ℓ} → (MessageView → S → S) → List MessageView → S → S
run_views body [] s = s
run_views body (v ∷ vs) s = run_views body vs (body v s)

-- The view of a message, and the framer behind it.
abbrev pub view_of : List ℕ → List (List ℕ) → List ℕ → MessageView
view_of m ms rest = record { bytes = m ++ (frames ms ++ rest); size = length m }

abbrev pub behind : Framer → List ℕ → Framer
behind f m = record f { pos = f.pos + (2 + length m) }

-- One round of the loop at a complete frame.
pub record TakesFrame (f : Framer) (m : List ℕ) (ms : List (List ℕ)) (rest : List ℕ) : Type 0 where
  pub hands_out : next f ≡ some (some (view_of m ms rest, behind f m))
  pub valid : IsFramer (behind f m)
  pub left : drop (behind f m).pos f.bytes ≡ frames ms ++ rest
  pub stop : (behind f m).pos + length (frames ms) ≡ f.pos + length (frames (m ∷ ms))

pub takes_frame :
    (f : Framer) (m : List ℕ) (ms : List (List ℕ)) (rest : List ℕ)
    → IsFramer f
    → IsMessage m
    → drop f.pos f.bytes ≡ frames (m ∷ ms) ++ rest
    → TakesFrame f m ms rest
takes_frame f m ms rest v ok at =
    let here : drop f.pos f.bytes ≡ frame m ++ (frames ms ++ rest) =
      at ∙ append_assoc (frame m) (frames ms) rest in
    let span : length (frame m) ≤ f.size - f.pos = omega (
      arith,
      length-drop f.pos f.bytes,
      ap length here,
      length-append (frame m) (frames ms ++ rest),
    ) in
    record {
      hands_out = next-frame f m (frames ms ++ rest) v ok here;
      valid = record { whole = v.whole; inside = omega arith; fits = v.fits };
      left =
          sym (drop-drop f.pos (2 + length m) f.bytes)
          ∙ ap (drop (2 + length m)) here
          ∙ drop-append (2 + length m) (frame m) (frames ms ++ rest) (omega arith);
      stop = omega (arith, length-append (frame m) (frames ms));
    }

module _ {ℓ} {S : Type ℓ} (body : MessageView → S → Option S) where
  -- The loop's body on a list of views.
  abbrev pub fold_views : List MessageView → S → Option S
  fold_views [] s = some s
  fold_views (v ∷ vs) s = body v s >>= fold_views vs

  abbrev pub delivers : Framer → List (List ℕ) → List ℕ → S → Option (S × Framer)
  delivers f ms rest s = fold_views (views ms rest) s >>= λ s'.
      some (s', record f { pos = f.pos + length (frames ms) })

  pub walk-frames :
      (fuel : ℕ) (f : Framer) (ms : List (List ℕ)) (rest : List ℕ) (s : S)
      → IsFramer f
      → All IsMessage ms
      → IsIncomplete rest
      → IsBytes rest
      → drop f.pos f.bytes ≡ frames ms ++ rest
      → length ms < fuel
      → walk fuel body f s ≡ delivers f ms rest s
  unfolding walk
  walk-frames zero f ms rest s v ok stop bytes at enough = absurd (omega arith)
  walk-frames (suc fuel) f [] rest s v ok stop bytes at enough =
      rw (next-incomplete f rest v bytes stop at, walk) (ground arith)
  walk-frames (suc fuel) f (m ∷ ms) rest s v ok stop bytes at enough =
      let t = takes_frame f m ms rest v ok.0 at in
      let stop_at = t.stop in
      rw (t.hands_out, walk)
        (elim (Option-cases (body (view_of m ms rest) s)) [
          | inl e ↦ rw e
          | inr (s', e) ↦ rw e (
              walk-frames fuel (behind f m) ms rest s' t.valid ok.1 stop bytes t.left (omega arith)
              ∙ rw stop_at)
        ])

fold-run {ℓ} :
    {S : Type ℓ} (body : MessageView → S → S) (vs : List MessageView) (s : S)
    → fold_views (λ v t. some (body v t)) vs s ≡ some (run_views body vs s)
fold-run body [] s = refl
fold-run body (v ∷ vs) s = fold-run body vs (body v s)

length-eq-zero {ℓ} : {A : Type ℓ} (xs : List A) → length xs ≡ 0 → xs ≡ []
length-eq-zero [] h = refl
length-eq-zero (x ∷ xs) h = absurd (omega arith)

-- The loop on a buffer whose split is given.
pub walk-IsSplit {ℓ} :
    {S : Type ℓ} (body : MessageView → S → S) (buffer : List ℕ) (s : S) (ms : List (List ℕ))
    (rest : List ℕ)
    → length buffer < 2 ^ 64
    → IsSplit buffer ms rest
    → (f : Framer) × (walk
          (suc (length buffer))
          (λ v t. some (body v t))
          (framer buffer (length buffer))
          s
        ≡ some (run_views body (views ms rest) s, f))
      × (f.pos + length rest ≡ length buffer)
      × ((exhausted f ≡ true) ↔ (rest ≡ []))
unfolding framer exhausted
walk-IsSplit body buffer s ms rest fits split =
    let n = length buffer in
    let total : n ≡ length (frames ms) + length rest =
      ap length split.spells ∙ length-append (frames ms) rest in
    let f : Framer = record { bytes = buffer; size = n; pos = 0 + length (frames ms) } in
    let run : walk (suc n) (λ v t. some (body v t)) (framer buffer n) s
        ≡ delivers (λ v t. some (body v t)) (framer buffer n) ms rest s =
      walk-frames (λ v t. some (body v t)) (suc n) (framer buffer n) ms rest s
        (record { whole = refl; inside = omega arith; fits = fits }) split.messages split.stops
        split.rest_bytes split.spells (omega (arith, length-frames ms)) in
    (
      f,
      run ∙ rw (fold-run body (views ms rest) s),
      omega arith,
      (
        (λ e. length-eq-zero rest (omega (arith, (==_iff f.pos n).0 e))),
        λ e. (==_iff f.pos n).1 (omega (arith, ap length e)),
      ),
    )

-- On a buffer of bytes, walking on as much fuel as the buffer has bytes, with a body that never
-- fails, there are messages and left over bytes that the buffer spells, each message is not empty
-- and can be described by a prefix, the left over bytes hold no complete frame, and the loop ends
-- normally after running the body on exactly those messages in order; it stops at the left over
-- bytes, and `exhausted` reports whether there are none.
pub walk_total {ℓ} :
    {S : Type ℓ} (body : MessageView → S → S) (buffer : List ℕ) (s : S)
    → IsBytes buffer
    → length buffer < 2 ^ 64
    → (ms : List (List ℕ)) × (rest : List ℕ) × (f : Framer) × IsSplit buffer ms rest
      × (walk (suc (length buffer)) (λ v t. some (body v t)) (framer buffer (length buffer)) s
          ≡ some (run_views body (views ms rest) s, f))
      × (f.pos + length rest ≡ length buffer)
      × ((exhausted f ≡ true) ↔ (rest ≡ []))
walk_total body buffer s bytes fits =
    let (ms, rest, split) = IsSplit-exists (suc (length buffer)) buffer (omega arith) bytes in
    let (f, run, stop, ends) = walk-IsSplit body buffer s ms rest fits split in
    (ms, rest, f, split, run, stop, ends)
