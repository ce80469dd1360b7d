-- ===== src/Mold/Transfer.antt =====
-- From the packer of src/mold/packer.cc to the decoder of src/mold/decoder.cc.
use nasdaq_itch_trading_syst.Base.{
  ℕ, ◌+◌, ◌^◌, ◌<◌, ◌≤◌, ◌≡◌, refl, ap, sym, ◌∙◌, Bool, true, false, List, [], ◌∷◌, drop, length,
  some, arith, ltb, ◌==◌, if◌then◌else◌, u64, ==_iff, ==_refl,
}
use nasdaq_itch_trading_syst.Itch.Framing.{MessageView}
use nasdaq_itch_trading_syst.Itch.Framing.Stream.{views, IsSplit}
use nasdaq_itch_trading_syst.Itch.Framing.Walk.{run_views}
use nasdaq_itch_trading_syst.Mold.Packet.{
  PacketHeader, Session, decode_packet_header, header_size, end_of_session_count, heartbeat_count,
}
use nasdaq_itch_trading_syst.Mold.Packer.{Packer, finish}
use nasdaq_itch_trading_syst.Mold.Packer.Packets.{IsPacking, finish_correct, length-finish}
use nasdaq_itch_trading_syst.Mold.Decoder.{
  PacketView, Decoder, same_session, follow_session, take_blocks, sort_packet, on_packet, note_jump,
}
use nasdaq_itch_trading_syst.Mold.Decoder.Sequence.{delivered_state}
use nasdaq_itch_trading_syst.Mold.Decoder.Delivery.{
  IsSized, pure_sink, deliver_lem, count_blocks_lem,
}

same_session_refl : (s : Session) → same_session s s ≡ true
same_session_refl [] = refl
same_session_refl (c ∷ s) = rw (==_refl c) (same_session_refl s)

-- A started decoder keeps its state at a header of its session.
stays :
    (d : Decoder) (h : PacketHeader)
    → d.started ≡ true
    → d.session ≡ h.session
    → follow_session d h ≡ d
unfolding follow_session
stays d h started session =
    pick d _ _ d.started (same_session h.session d.session) started
      (ap (same_session h.session) session ∙ same_session_refl h.session)
  where
    pick :
        (x y z : Decoder) (a b : Bool)
        → a ≡ true
        → b ≡ true
        → (if a then (if b then x else y) else z) ≡ x
    pick x y z a b e e' = rw (e, e') refl

-- The packet that `finish` gives to the sender, as the receiver gets it.
abbrev pub received : Packer → ℕ → PacketView
received p rx_tsc = record { bytes = (finish p).1; len = length (finish p).1; rx_tsc = rx_tsc }

abbrev pub header_of : Packer → List (List ℕ) → PacketHeader
header_of p ms = record { session = p.session; sequence = p.sequence; message_count = length ms }

module _ {ℓ} {S : Type ℓ} (f : MessageView → ℕ → S → S) where
  -- A packet of a known split whose header states its count.
  take_blocks-IsSplit :
      (d : Decoder) (h : PacketHeader) (pkt : PacketView) (s : S) (ms : List (List ℕ))
      → IsSized pkt
      → 20 ≤ pkt.len
      → IsSplit (drop 20 pkt.bytes) ms []
      → length ms ≡ h.message_count
      → take_blocks (pure_sink f) d h pkt s
        ≡ some (delivered_state d h, run_views (λ v t. f v pkt.rx_tsc t) (views ms []) s)
  unfolding take_blocks
  take_blocks-IsSplit d h pkt s ms v enough split stated =
      let (full, count, ends) = count_blocks_lem f pkt ms [] v enough split in
      let filled : full ≡ true = ends.1 refl in
      let equal : (length ms == h.message_count) ≡ true =
        (==_iff (length ms) h.message_count).1 stated in
      rw (count, filled, equal) (deliver_lem f d h pkt s ms [] v enough split)

  -- The next packet of the session, at the decoder.
  next_packet :
      (d : Decoder) (h : PacketHeader) (pkt : PacketView) (s : S) (ms : List (List ℕ))
      → IsSized pkt
      → 20 ≤ pkt.len
      → decode_packet_header pkt.bytes ≡ some h
      → IsSplit (drop 20 pkt.bytes) ms []
      → length ms ≡ h.message_count
      → 0 < length ms
      → length ms < 0xffff
      → d.started ≡ true
      → d.session ≡ h.session
      → d.expected ≡ h.sequence
      → on_packet (pure_sink f) pkt (d, s)
        ≡ some (delivered_state d h, run_views (λ v t. f v pkt.rx_tsc t) (views ms []) s)
  unfolding on_packet sort_packet
  next_packet d h pkt s ms v enough decodes split stated some_messages few started session
        expected =
      let long : ltb pkt.len header_size ≡ false = ground arith in
      let blocks : (h.message_count == end_of_session_count) ≡ false = ground arith in
      let beat : (h.message_count == heartbeat_count) ≡ false = ground arith in
      let fresh : ltb h.sequence d.expected ≡ false = ground arith in
      rw (long, decodes, stays d h started session, blocks, beat, fresh)
        (take_blocks-IsSplit d h pkt s ms v enough split stated)

  -- A decoder that expects the packet notes no jump.
  in_order :
      (d : Decoder) (h : PacketHeader)
      → d.expected ≡ h.sequence
      → delivered_state d h ≡ record d {
        expected = u64 (h.sequence + h.message_count);
        last_sequence = h.sequence;
        applied_packets = u64 (d.applied_packets + 1);
        delivered = u64 (d.delivered + h.message_count);
      }
  unfolding note_jump
  in_order d h e = let level : ltb d.expected h.sequence ≡ false = ground arith in rw level refl

  -- A packet that `finish` makes of a packer that has taken at least one message, with a payload
  -- limit below 2 ^ 31, when it arrives at a started decoder of the same session that expects its
  -- sequence number, with a sink that never fails, makes the decoder end and hand exactly the
  -- packed messages to the sink in their order; the decoder then expects the number of the
  -- packer's next packet, holds the packet's number as the last one, has counted the packet as
  -- applied and the messages as delivered, on 64 bits, and is otherwise as it was: it notes no
  -- gap.
  pub transfer :
      (p : Packer) (ms : List (List ℕ)) (d : Decoder) (s : S) (rx_tsc : ℕ)
      → IsPacking p ms
      → 0 < length ms
      → p.max_payload < 2 ^ 31
      → d.started ≡ true
      → d.session ≡ p.session
      → d.expected ≡ p.sequence
      → on_packet (pure_sink f) (received p rx_tsc) (d, s)
        ≡ some (
          record d {
            expected = (finish p).0.sequence;
            last_sequence = p.sequence;
            applied_packets = u64 (d.applied_packets + 1);
            delivered = u64 (d.delivered + length ms);
          },
          run_views (λ v t. f v rx_tsc t) (views ms []) s,
        )
  transfer p ms d s rx_tsc k some_messages small started session expected =
      let (decodes, split, packing, next) = finish_correct p ms k in
      let h = header_of p ms in
      let pkt = received p rx_tsc in
      let long = length-finish p ms k in
      let room = k.room in
      let body = k.body in
      let few : length ms < 0xffff = omega (arith, k.count, k.count_fits) in
      let behind : delivered_state d h ≡ record d {
        expected = (finish p).0.sequence;
        last_sequence = p.sequence;
        applied_packets = u64 (d.applied_packets + 1);
        delivered = u64 (d.delivered + length ms);
      } =
        in_order d h expected
        ∙ ap
            (λ (n : ℕ). record d {
              expected = n;
              last_sequence = p.sequence;
              applied_packets = u64 (d.applied_packets + 1);
              delivered = u64 (d.delivered + length ms);
            })
            (sym next) in
      next_packet d h pkt s ms (record { whole = refl; short = omega arith }) (omega arith) decodes
        split refl some_messages few started session expected
      ∙ ap (λ (d' : Decoder). some (d', run_views (λ v t. f v rx_tsc t) (views ms []) s)) behind
