-- ===== src/Itch/Framing.antt =====
-- Length prefixed framing, src/itch/framing.h and framing.cc. A view starts at the type byte and
-- runs to the end of the buffer; its `size` is that of the message.
pub mod Stream
pub mod Walk
pub mod Leave
use nasdaq_itch_trading_syst.Base.{
  ℕ, zero, suc, ◌+◌, Bool, true, false, Option, none, some, List, drop, ltb, ◌==◌, if◌then◌else◌,
  ◌>>=◌, u64, sub_u64,
}
use nasdaq_itch_trading_syst.ByteReader.{be16}

pub record MessageView : Type 0 where
  pub bytes : List ℕ
  pub size : ℕ

pub record Framer : Type 0 where
  pub bytes : List ℕ
  pub size : ℕ
  pub pos : ℕ

-- The constructor.
unfoldable pub framer : List ℕ → ℕ → Framer
framer bytes size = record { bytes = bytes; size = size; pos = 0 }

-- A frame of `len` bytes behind the prefix at `pos`, unless it is empty or runs past the buffer.
unfoldable pub take_frame : Framer → ℕ → Option (MessageView × Framer)
take_frame f len =
    if len == 0
    then none
    else if ltb (sub_u64 (sub_u64 f.size f.pos) 2) len
    then none
    else some (
      record { bytes = drop (u64 (f.pos + 2)) f.bytes; size = len },
      record f { pos = u64 (f.pos + u64 (2 + len)) },
    )

-- `some none` is the return value false.
unfoldable pub next : Framer → Option (Option (MessageView × Framer))
unfolding take_frame
next f =
    if ltb (sub_u64 f.size f.pos) 2
    then some none
    else (do len ← be16 (drop f.pos f.bytes); some (take_frame f len))

unfoldable pub offset : Framer → ℕ
offset f = f.pos

unfoldable pub exhausted : Framer → Bool
exhausted f = f.pos == f.size

-- `while (framer.next(mv)) body(mv);` on fuel, of which `none` says that it ran out.
unfoldable pub walk {ℓ} :
    {S : Type ℓ} → ℕ → (MessageView → S → Option S) → Framer → S → Option (S × Framer)
walk zero body f s = none
walk (suc fuel) body f s = elim (next f) [
  | none ↦ none
  | some none ↦ some (s, f)
  | some (some (view, f')) ↦ body view s >>= λ s'. walk fuel body f' s'
]

-- `while (framer.next(mv)) { ... break; ... }`, where the body says whether to go on.
unfoldable pub walk_while {ℓ} :
    {S : Type ℓ} → ℕ → (MessageView → S → Option (S × Bool)) → Framer → S → Option (S × Framer)
walk_while zero body f s = none
walk_while (suc fuel) body f s = elim (next f) [
  | none ↦ none
  | some none ↦ some (s, f)
  | some (some (view, f')) ↦
      body view s >>= λ r. elim r.1 [ true ↦ walk_while fuel body f' r.0 | false ↦ some (r.0, f') ]
]
