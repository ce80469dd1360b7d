-- ===== src/Mold/Decoder/Delivery.antt =====
-- Delivery in src/mold/decoder.cc: all blocks of a packet, in order, or none.
use nasdaq_itch_trading_syst.Base.{
  ℕ, suc, ◌+◌, ◌^◌, ◌<◌, ◌≤◌, ◌≡◌, ◌⊎◌, ◌↔◌, refl, ap, ◌∙◌, subst, inl, inr, Bool, true, false, not,
  ◌||◌, List, [], drop, length, Option, some, arith, ltb, ◌==◌, u32, u64, sub_u64, Bool-cases,
  ==_iff, length-drop, ltb→le, ltb→lt, length-append,
}
use nasdaq_itch_trading_syst.ByteReader.Value.{IsBytes}
use nasdaq_itch_trading_syst.Itch.Framing.{MessageView, exhausted}
use nasdaq_itch_trading_syst.Itch.Framing.Stream.{
  views, IsSplit, IsSplit-exists, IsBytes-drop, frames,
}
use nasdaq_itch_trading_syst.Itch.Framing.Walk.{walk-IsSplit, run_views, length-frames}
use nasdaq_itch_trading_syst.Mold.Packet.{
  PacketHeader, header_size, end_of_session_count, heartbeat_count,
}
use nasdaq_itch_trading_syst.Mold.Packet.Header.{IsHeaderOf, header_exists}
use nasdaq_itch_trading_syst.Mold.Decoder.{
  PacketView, Decoder, follow_session, end_session, count_blocks, deliver, take_blocks, sort_packet,
  on_packet,
}
use nasdaq_itch_trading_syst.Mold.Decoder.Sequence.{
  Balances, end_session-Balances, delivered_state, delivered_state-Balances, counted, length-views,
  end_session-delivered, follow_session-lt,
}

-- A packet from a receiver: its bytes are those of the datagram.
pub record IsSized (pkt : PacketView) : Type 0 where
  pub whole : pkt.len ≡ length pkt.bytes
  pub short : pkt.len < 2 ^ 32

pub record IsPacket (pkt : PacketView) : Type 0 where
  pub bytes : IsBytes pkt.bytes
  pub sized : IsSized pkt

module _ {ℓ} {S : Type ℓ} (f : MessageView → ℕ → S → S) where
  abbrev pub pure_sink : MessageView → ℕ → S → Option S
  pure_sink v t s = some (f v t s)

  -- All blocks of the packet have been delivered, as many as the header states, none of them late,
  -- and the next packet is expected behind them.
  pub record IsDelivered (d : Decoder) (h : PacketHeader) (pkt : PacketView) (s : S) (d' : Decoder)
      (s' : S) : Type ℓ where
    pub blocks : List (List ℕ)
    pub split : IsSplit (drop 20 pkt.bytes) blocks []
    pub stated : length blocks ≡ h.message_count
    pub fresh : d.expected ≤ h.sequence
    pub next : d'.expected ≡ u64 (h.sequence + h.message_count)
    pub sunk : s' ≡ run_views (λ v t. f v pkt.rx_tsc t) (views blocks []) s

  -- The sink has not been called, and nothing is counted as delivered.
  pub record IsSilent (d : Decoder) (s : S) (d' : Decoder) (s' : S) : Type ℓ where
    pub untouched : s' ≡ s
    pub delivered : d'.delivered ≡ d.delivered
    pub packets : d'.applied_packets ≡ d.applied_packets

  abbrev pub Handled : Decoder → PacketHeader → PacketView → S → Option (Decoder × S) → Type ℓ
  Handled d h pkt s run =
      (d' : Decoder) × (s' : S) × (run ≡ some (d', s'))
      × Balances d d'
      × (IsSilent d s d' s' ⊎ IsDelivered d h pkt s d' s')

  body_length :
      (pkt : PacketView)
      → IsSized pkt
      → 20 ≤ pkt.len
      → sub_u64 pkt.len 20 ≡ length (drop 20 pkt.bytes)
  body_length pkt v h = omega (arith, length-drop 20 pkt.bytes, v.whole, v.short)

  pub deliver_lem :
      (d : Decoder) (h : PacketHeader) (pkt : PacketView) (s : S) (ms : List (List ℕ))
      (rest : List ℕ)
      → IsSized pkt
      → 20 ≤ pkt.len
      → IsSplit (drop 20 pkt.bytes) ms rest
      → deliver pure_sink d h pkt s
        ≡ some (delivered_state d h, run_views (λ v t. f v pkt.rx_tsc t) (views ms rest) s)
  unfolding deliver
  deliver_lem d h pkt s ms rest v enough split =
      let small : length (drop 20 pkt.bytes) < 2 ^ 64 =
        omega (arith, length-drop 20 pkt.bytes, v.whole, v.short) in
      let (fr, run, stop, ends) =
        walk-IsSplit (λ v t. f v pkt.rx_tsc t) (drop 20 pkt.bytes) s ms rest small split in
      rw (body_length pkt v enough, run) refl

  pub count_blocks_lem :
      (pkt : PacketView) (ms : List (List ℕ)) (rest : List ℕ)
      → IsSized pkt
      → 20 ≤ pkt.len
      → IsSplit (drop 20 pkt.bytes) ms rest
      → (full : Bool) × (count_blocks pkt ≡ some (length ms, full)) × ((full ≡ true) ↔ (rest ≡ []))
  unfolding count_blocks
  count_blocks_lem pkt ms rest v enough split =
      let body = drop 20 pkt.bytes in
      let n : length body + 20 ≡ length pkt.bytes =
        omega (arith, length-drop 20 pkt.bytes, v.whole) in
      let total : length body ≡ length (frames ms) + length rest =
        ap length split.spells ∙ length-append (frames ms) rest in
      let (fr, run, stop, ends) =
        walk-IsSplit (λ mv blocks. u32 (blocks + 1)) body 0 ms rest
          (omega (arith, n, v.whole, v.short)) split in
      let number : run_views (λ mv blocks. u32 (blocks + 1)) (views ms rest) 0 ≡ length ms = omega (
        arith,
        counted (views ms rest) 0
            (omega (arith, length-views ms rest, length-frames ms, total, n, v.whole, v.short)),
        length-views ms rest,
      ) in
      (exhausted fr, rw (body_length pkt v enough, run, number) refl, ends)

  malformed_lem :
      (d : Decoder) (h : PacketHeader) (pkt : PacketView) (s : S)
      → Handled d h pkt s (some (record d { malformed = u64 (d.malformed + 1) }, s))
  malformed_lem d h pkt s = (
    record d { malformed = u64 (d.malformed + 1) },
    s,
    refl,
    record { numbers = refl },
    inl (record { untouched = refl; delivered = refl; packets = refl }),
  )

  take_blocks_lem :
      (d : Decoder) (h : PacketHeader) (pkt : PacketView) (s : S)
      → IsPacket pkt
      → 20 ≤ pkt.len
      → d.expected < 2 ^ 64
      → h.sequence < 2 ^ 64
      → ltb h.sequence d.expected ≡ false
      → Handled d h pkt s (take_blocks pure_sink d h pkt s)
  unfolding take_blocks
  take_blocks_lem d h pkt s v enough fits fits' fresh =
      let body = drop 20 pkt.bytes in
      let (ms, rest, split) =
        IsSplit-exists (suc (length body)) body (omega arith) (IsBytes-drop 20 pkt.bytes v.bytes) in
      let (full, count, ends) = count_blocks_lem pkt ms rest v.sized enough split in
      elim (Bool-cases (not full || not (length ms == h.message_count))) [
        | inl bad ↦ rw (count, bad) (malformed_lem d h pkt s)
        | inr good ↦
            let filled : rest ≡ [] =
              ends.0 (is_full full (not (length ms == h.message_count)) good) in
            let stated : length ms ≡ h.message_count =
              (==_iff (length ms) h.message_count).0
                (is_stated full (length ms == h.message_count) good) in
            let whole : IsSplit body ms [] = subst (IsSplit body ms) filled split in
            rw (count, good)
              (
                delivered_state d h,
                run_views (λ v t. f v pkt.rx_tsc t) (views ms []) s,
                deliver_lem d h pkt s ms [] v.sized enough whole,
                delivered_state-Balances d h fits fits' fresh,
                inr (record {
                  blocks = ms;
                  split = whole;
                  stated = stated;
                  fresh = ltb→le h.sequence d.expected fresh;
                  next = refl;
                  sunk = refl;
                }),
              )
      ]
    where
      is_full : (full b : Bool) → (not full || b) ≡ false → full ≡ true
      is_full full b e = ground arith

      is_stated : (full b : Bool) → (not full || not b) ≡ false → b ≡ true
      is_stated full b e = ground arith

  sort_packet_lem :
      (d : Decoder) (h : PacketHeader) (pkt : PacketView) (s : S)
      → IsPacket pkt
      → 20 ≤ pkt.len
      → d.expected < 2 ^ 64
      → h.sequence < 2 ^ 64
      → Handled d h pkt s (sort_packet pure_sink d h pkt s)
  unfolding sort_packet
  sort_packet_lem d h pkt s v enough fits fits' =
      elim (Bool-cases (h.message_count == end_of_session_count)) [
        | inl last ↦ rw last (
          end_session d h,
          s,
          refl,
          end_session-Balances d h fits fits',
          inl (record {
            untouched = refl;
            delivered = (end_session-delivered d h).0;
            packets = (end_session-delivered d h).1;
          }),
        )
        | inr more ↦ elim (Bool-cases (h.message_count == heartbeat_count)) [
          | inl beat ↦
              rw (more, beat)
                (
                  record d { heartbeats = u64 (d.heartbeats + 1) },
                  s,
                  refl,
                  record { numbers = refl },
                  inl (record { untouched = refl; delivered = refl; packets = refl }),
                )
          | inr blocks ↦ elim (Bool-cases (ltb h.sequence d.expected)) [
            | inl late ↦
                rw (more, blocks, late)
                  (
                    record d { duplicates = u64 (d.duplicates + 1) },
                    s,
                    refl,
                    record { numbers = refl },
                    inl (record { untouched = refl; delivered = refl; packets = refl }),
                  )
            | inr fresh ↦
                rw (more, blocks, fresh) (take_blocks_lem d h pkt s v enough fits fits' fresh)
          ]
        ]
      ]

  -- On a datagram of fewer than 2 ^ 32 bytes, with a sink that never fails, `on_packet` ends. A
  -- datagram without a whole header is counted as malformed and changes nothing else. Otherwise,
  -- once the session of its header has been followed, the next expected number advances on 64
  -- bits by what is counted as delivered and as missing, and either the sink is left as it was
  -- and nothing is counted as delivered, or the blocks fill the datagram, are as many as the
  -- header states, are not older than expected, have all been handed to the sink in order, and
  -- the next expected number is the one behind them.
  pub on_packet_correct :
      (d : Decoder) (s : S) (pkt : PacketView)
      → IsPacket pkt
      → d.expected < 2 ^ 64
      → ((pkt.len < 20)
          × (on_packet pure_sink pkt (d, s)
              ≡ some (record d { malformed = u64 (d.malformed + 1) }, s)))
        ⊎ ((h : PacketHeader) × IsHeaderOf pkt.bytes h
            × Handled (follow_session d h) h pkt s (on_packet pure_sink pkt (d, s)))
  unfolding on_packet
  on_packet_correct d s pkt v fits = elim (Bool-cases (ltb pkt.len header_size)) [
    | inl small ↦ inl (ltb→lt pkt.len 20 small, rw small refl)
    | inr enough ↦
        let room : 20 ≤ pkt.len = ltb→le pkt.len 20 enough in
        let (h, header) = header_exists pkt.bytes v.bytes (omega (arith, v.sized.whole)) in
        inr (
          h,
          header,
          rw (enough, header.decodes)
              (sort_packet_lem (follow_session d h) h pkt s v room
                (follow_session-lt d h fits header.sequence_fits) header.sequence_fits),
        )
  ]
