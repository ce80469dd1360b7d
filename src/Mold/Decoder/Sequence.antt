-- ===== src/Mold/Decoder/Sequence.antt =====
-- What src/mold/decoder.cc does with a packet: the accounting of sequence numbers, and the delivery
-- of all blocks of a packet or of none.
use nasdaq_itch_trading_syst.Base.{
  ℕ, suc, ◌+◌, ◌^◌, ◌<◌, ◌≤◌, ◌≡◌, refl, ap, ◌∙◌, inl, inr, false, List, [], ◌∷◌, length, arith,
  ltb, u32, u64, sub_u64, Bool-cases, ltb→le, ltb→lt,
}
use nasdaq_itch_trading_syst.Itch.Framing.{MessageView}
use nasdaq_itch_trading_syst.Itch.Framing.Stream.{views}
use nasdaq_itch_trading_syst.Itch.Framing.Walk.{run_views}
use nasdaq_itch_trading_syst.Mold.Packet.{PacketHeader}
use nasdaq_itch_trading_syst.Mold.Decoder.{
  Decoder, same_session, note_gap, note_jump, follow_session, end_session,
}

-- Between two states the next expected number advances by what was delivered and what is missing.
pub record Balances (a b : Decoder) : Type 0 where
  pub numbers :
      u64 (b.expected + (a.delivered + a.gap_messages))
      ≡ u64 (a.expected + (b.delivered + b.gap_messages))

jumped :
    (e x g s : ℕ)
    → e < 2 ^ 64
    → s < 2 ^ 64
    → e ≤ s
    → u64 (s + (x + g)) ≡ u64 (e + (x + u64 (g + sub_u64 s e)))
jumped e x g s fits fits' h = omega arith

pub end_session-Balances :
    (d : Decoder) (h : PacketHeader)
    → d.expected < 2 ^ 64
    → h.sequence < 2 ^ 64
    → Balances d (end_session d h)
unfolding end_session note_jump note_gap
end_session-Balances d h fits fits' = elim (Bool-cases (ltb d.expected h.sequence)) [
  | inl jump ↦ record {
    numbers = rw jump (
        jumped d.expected d.delivered d.gap_messages h.sequence fits fits'
          (omega (arith, ltb→lt d.expected h.sequence jump)));
  }
  | inr level ↦ record { numbers = rw level refl }
]

-- The state after the blocks of a packet have been delivered.
abbrev pub delivered_state : Decoder → PacketHeader → Decoder
delivered_state d h =
    let d' = note_jump d h.sequence in
    record d' {
      last_sequence = h.sequence;
      delivered = u64 (d'.delivered + h.message_count);
      applied_packets = u64 (d'.applied_packets + 1);
      expected = u64 (h.sequence + h.message_count);
    }

pub delivered_state-Balances :
    (d : Decoder) (h : PacketHeader)
    → d.expected < 2 ^ 64
    → h.sequence < 2 ^ 64
    → ltb h.sequence d.expected ≡ false
    → Balances d (delivered_state d h)
unfolding note_jump note_gap
delivered_state-Balances d h fits fits' fresh = elim (Bool-cases (ltb d.expected h.sequence)) [
  | inl jump ↦ record {
    numbers = rw jump (
        gap_then d.expected d.delivered d.gap_messages h.sequence h.message_count fits fits'
          (omega (arith, ltb→lt d.expected h.sequence jump)));
  }
  | inr level ↦
      let same : h.sequence ≡ d.expected =
        omega (arith, ltb→le h.sequence d.expected fresh, ltb→le d.expected h.sequence level) in
      record { numbers = rw (level, same) (omega arith) }
]
  where
    gap_then :
        (e x g s c : ℕ)
        → e < 2 ^ 64
        → s < 2 ^ 64
        → e ≤ s
        → u64 (u64 (s + c) + (x + g)) ≡ u64 (e + (u64 (x + c) + u64 (g + sub_u64 s e)))
    gap_then e x g s c fits fits' h = omega arith

pub counted :
    (vs : List MessageView) (n : ℕ)
    → n + length vs < 2 ^ 32
    → run_views (λ v k. u32 (k + 1)) vs n ≡ n + length vs
counted [] n h = omega arith
counted (v ∷ vs) n h = counted vs (u32 (n + 1)) (omega arith) ∙ omega arith

pub length-views : (ms : List (List ℕ)) (rest : List ℕ) → length (views ms rest) ≡ length ms
length-views [] rest = refl
length-views (m ∷ ms) rest = ap suc (length-views ms rest)

pub end_session-delivered :
    (d : Decoder) (h : PacketHeader)
    → ((end_session d h).delivered ≡ d.delivered)
      × ((end_session d h).applied_packets ≡ d.applied_packets)
unfolding end_session note_jump note_gap
end_session-delivered d h = elim (Bool-cases (ltb d.expected h.sequence)) [
  | inl jump ↦ rw jump (refl, refl)
  | inr level ↦ rw level (refl, refl)
]

pub follow_session-lt :
    (d : Decoder) (h : PacketHeader)
    → d.expected < 2 ^ 64
    → h.sequence < 2 ^ 64
    → (follow_session d h).expected < 2 ^ 64
unfolding follow_session
follow_session-lt d h fits fits' = elim (Bool-cases d.started) [
  | inl on ↦ elim (Bool-cases (same_session h.session d.session)) [
    | inl same ↦ rw (on, same) fits
    | inr other ↦ rw (on, other) fits'
  ]
  | inr off ↦ rw off fits'
]
