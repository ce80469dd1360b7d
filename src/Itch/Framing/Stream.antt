-- ===== src/Itch/Framing/Stream.antt =====
-- What a buffer means to the framer: the messages whose frames it holds, and what is left over.
use nasdaq_itch_trading_syst.Base.{
  ℕ, zero, suc, ◌+◌, ◌-◌, ◌*◌, ◌/◌, ◌%◌, ◌^◌, ◌≤◌, ◌<◌, ◌≡◌, ◌⊎◌, inl, inr, refl, sym, ap, ◌∙◌,
  none, some, List, [], ◌∷◌, ◌++◌, drop, length, All, arith, ltb, ◌==◌, drop-drop, lt→ltb, le→ltb,
  ==_iff, u64, sub_u64, length-append, length-drop, length-take, take, take-append-drop, true,
  false,
}
use mathlib.Core.List.{append_assoc}
use native.Mathlib.Decide.{dec_lt}
use nasdaq_itch_trading_syst.ByteReader.{be16}
use nasdaq_itch_trading_syst.ByteReader.Value.{IsBytes, be16_bytes}
use nasdaq_itch_trading_syst.Itch.Framing.{MessageView, Framer, next, take_frame}

-- A message with its two byte prefix.
abbrev pub frame : List ℕ → List ℕ
frame m = length m / 256 ∷ length m % 256 ∷ m

abbrev pub frames : List (List ℕ) → List ℕ
frames [] = []
frames (m ∷ ms) = frame m ++ frames ms

-- A message that a prefix can describe: not empty, and at most 65535 bytes.
abbrev pub IsMessage : List ℕ → Type 0
IsMessage m = (0 < length m) × (length m < 65536)

-- Bytes at which the framer stops: no room for a prefix, a prefix of zero, or one that claims more
-- bytes than there are.
abbrev pub IsIncomplete : List ℕ → Type 0
IsIncomplete [] = Unit {0}
IsIncomplete (a ∷ []) = Unit {0}
IsIncomplete (a ∷ b ∷ p) = (a * 256 + b ≡ 0) ⊎ (length p < a * 256 + b)

-- The views of the messages, each running on to the end of the buffer.
abbrev pub views : List (List ℕ) → List ℕ → List MessageView
views [] rest = []
views (m ∷ ms) rest = record { bytes = m ++ (frames ms ++ rest); size = length m } ∷ views ms rest

pub record IsFramer (f : Framer) : Type 0 where
  pub whole : f.size ≡ length f.bytes
  pub inside : f.pos ≤ f.size
  pub fits : f.size < 2 ^ 64

-- The framer at a complete frame hands it out and moves behind it.
pub next-frame :
    (f : Framer) (m rest : List ℕ)
    → IsFramer f
    → IsMessage m
    → drop f.pos f.bytes ≡ frame m ++ rest
    → next f
      ≡ some (
          some (
            record { bytes = m ++ rest; size = length m },
            record f { pos = f.pos + (2 + length m) },
          ))
unfolding next take_frame
next-frame f m rest v ok at =
    let n = length m in
    let left : f.size - f.pos ≡ 2 + (n + length rest) =
      omega (arith, length-drop f.pos f.bytes, ap length at, length-append m rest) in
    let room : ltb (sub_u64 f.size f.pos) 2 ≡ false = le→ltb _ _ (omega arith) in
    let prefix : be16 (frame m ++ rest) ≡ some n =
      be16_bytes (n / 256) (n % 256) (m ++ rest) (omega arith) (omega arith)
      ∙ ap some (omega arith) in
    let some_bytes : (n == 0) ≡ false = ground arith in
    let present : ltb (sub_u64 (sub_u64 f.size f.pos) 2) n ≡ false = le→ltb _ _ (omega arith) in
    let start : u64 (f.pos + 2) ≡ f.pos + 2 = omega arith in
    let there : drop (f.pos + 2) f.bytes ≡ m ++ rest =
      sym (drop-drop f.pos 2 f.bytes) ∙ ap (drop 2) at in
    let pos : u64 (f.pos + u64 (2 + n)) ≡ f.pos + (2 + n) = omega arith in
    rw (room, at, prefix, some_bytes, present, start, there, pos)

-- At anything else it reports the end and stays where it is.
pub next-incomplete :
    (f : Framer) (rest : List ℕ)
    → IsFramer f
    → IsBytes rest
    → IsIncomplete rest
    → drop f.pos f.bytes ≡ rest
    → next f ≡ some none
unfolding next take_frame
next-incomplete f [] v bytes stop at =
    let left : f.size - f.pos ≡ 0 = omega (arith, length-drop f.pos f.bytes, ap length at) in
    rw (lt→ltb (sub_u64 f.size f.pos) 2 (omega arith))
next-incomplete f (a ∷ []) v bytes stop at =
    let left : f.size - f.pos ≡ 1 = omega (arith, length-drop f.pos f.bytes, ap length at) in
    rw (lt→ltb (sub_u64 f.size f.pos) 2 (omega arith))
next-incomplete f (a ∷ b ∷ p) v bytes stop at =
    let left : f.size - f.pos ≡ 2 + length p =
      omega (arith, length-drop f.pos f.bytes, ap length at) in
    let room : ltb (sub_u64 f.size f.pos) 2 ≡ false = le→ltb _ _ (omega arith) in
    rw (room, at, be16_bytes a b p bytes.0 bytes.1.0)
      (elim stop [
        | inl empty ↦ rw ((==_iff (a * 256 + b) 0).1 empty)
        | inr beyond ↦
            let short : ltb (sub_u64 (sub_u64 f.size f.pos) 2) (a * 256 + b) ≡ true =
              lt→ltb _ _ (omega arith) in
            let more : (a * 256 + b == 0) ≡ false = ground arith in rw (more, short)
      ])

-- Every buffer is a sequence of complete frames with incomplete bytes behind it.
pub record IsSplit (p : List ℕ) (ms : List (List ℕ)) (rest : List ℕ) : Type 0 where
  pub messages : All IsMessage ms
  pub stops : IsIncomplete rest
  pub rest_bytes : IsBytes rest
  pub spells : p ≡ frames ms ++ rest

pub IsBytes-drop : (n : ℕ) (p : List ℕ) → IsBytes p → IsBytes (drop n p)
IsBytes-drop zero p h = h
IsBytes-drop (suc n) [] h = tt
IsBytes-drop (suc n) (x ∷ p) h = IsBytes-drop n p h.1

IsSplit-end : (p : List ℕ) → IsBytes p → IsIncomplete p → IsSplit p [] p
IsSplit-end p bytes stop = record { messages = tt; stops = stop; rest_bytes = bytes; spells = refl }

IsSplit-frame :
    (a b : ℕ) (p : List ℕ) (ms : List (List ℕ)) (rest : List ℕ)
    → a < 256
    → b < 256
    → 0 < a * 256 + b
    → a * 256 + b ≤ length p
    → IsSplit (drop (a * 256 + b) p) ms rest
    → IsSplit (a ∷ b ∷ p) (take (a * 256 + b) p ∷ ms) rest
IsSplit-frame a b p ms rest ha hb pos enough s =
    let l = a * 256 + b in
    let len : length (take l p) ≡ l = omega (arith, length-take l p) in
    let hi : length (take l p) / 256 ≡ a = omega arith in
    let lo : length (take l p) % 256 ≡ b = omega arith in
    let body : p ≡ (take l p ++ frames ms) ++ rest =
      sym (take-append-drop l p)
      ∙ ap (◌++◌ (take l p)) s.spells
      ∙ sym (append_assoc (take l p) (frames ms) rest) in
    record {
      messages = ((omega arith, omega arith), s.messages);
      stops = s.stops;
      rest_bytes = s.rest_bytes;
      spells = rw (hi, lo) (ap (λ (q : List ℕ). a ∷ b ∷ q) body);
    }

pub IsSplit-exists :
    (n : ℕ) (p : List ℕ)
    → length p < n
    → IsBytes p
    → (ms : List (List ℕ)) × (rest : List ℕ) × IsSplit p ms rest
IsSplit-exists zero p h bytes = absurd (omega arith)
IsSplit-exists (suc n) [] h bytes = ([], [], IsSplit-end [] tt tt)
IsSplit-exists (suc n) (a ∷ []) h bytes = ([], a ∷ [], IsSplit-end (a ∷ []) bytes tt)
IsSplit-exists (suc n) (a ∷ b ∷ p) h bytes =
    let (ms, rest, s) =
      IsSplit-exists n (drop (a * 256 + b) p) (omega (arith, length-drop (a * 256 + b) p))
        (IsBytes-drop (a * 256 + b) p bytes.1.1) in
    elim (dec_lt 0 (a * 256 + b)) [
      | no zero_prefix ↦ ([], a ∷ b ∷ p, IsSplit-end (a ∷ b ∷ p) bytes (inl (omega arith)))
      | yes pos ↦ elim (dec_lt (length p) (a * 256 + b)) [
        | yes beyond ↦ ([], a ∷ b ∷ p, IsSplit-end (a ∷ b ∷ p) bytes (inr beyond))
        | no fits ↦ (
          take (a * 256 + b) p ∷ ms,
          rest,
          IsSplit-frame a b p ms rest bytes.0 bytes.1.0 pos (omega arith) s,
        )
      ]
    ]
