-- ===== src/Mold/Decoder.antt =====
-- Sequence tracking and delivery of the messages of packets, src/mold/decoder.h and decoder.cc. The
-- sink is a parameter: a step on a state of its own.
pub mod Sequence
pub mod Delivery
use nasdaq_itch_trading_syst.Base.{
  ℕ, zero, suc, ◌+◌, ◌-◌, Bool, true, false, not, ◌&&◌, ◌||◌, Option, none, some, List, [], ◌∷◌,
  ◌++◌, drop, replicate, length, ltb, ◌==◌, if◌then◌else◌, ◌>>=◌, u32, u64, sub_u64,
}
use nasdaq_itch_trading_syst.Itch.Framing.{MessageView, Framer, framer, exhausted, walk}
use nasdaq_itch_trading_syst.Mold.Packet.{
  Session, PacketHeader, decode_packet_header, header_size, end_of_session_count, heartbeat_count,
  session_size,
}

pub record PacketView : Type 0 where
  pub bytes : List ℕ
  pub len : ℕ
  pub rx_tsc : ℕ

pub record Gap : Type 0 where
  pub first_missing : ℕ
  pub count : ℕ

-- kMaxGaps.
abbrev pub max_gaps : ℕ
max_gaps = 4096

pub record Decoder : Type 0 where
  pub expected : ℕ
  pub last_sequence : ℕ
  pub started : Bool
  pub eos : Bool
  pub session : Session
  pub session_changes : ℕ
  pub applied_packets : ℕ
  pub delivered : ℕ
  pub duplicates : ℕ
  pub malformed : ℕ
  pub heartbeats : ℕ
  pub gaps_total : ℕ
  pub gap_messages : ℕ
  pub gaps : List Gap

unfoldable pub new_decoder : Decoder
new_decoder = record {
  expected = 1;
  last_sequence = 0;
  started = false;
  eos = false;
  session = replicate session_size 0;
  session_changes = 0;
  applied_packets = 0;
  delivered = 0;
  duplicates = 0;
  malformed = 0;
  heartbeats = 0;
  gaps_total = 0;
  gap_messages = 0;
  gaps = [];
}

unfoldable pub note_gap : Decoder → ℕ → ℕ → Decoder
note_gap d first count = record d {
  gaps_total = u64 (d.gaps_total + 1);
  gap_messages = u64 (d.gap_messages + count);
  gaps =
      if ltb (length d.gaps) max_gaps
      then d.gaps ++ (record { first_missing = first; count = count } ∷ [])
      else d.gaps;
}

abbrev pub same_session : Session → Session → Bool
same_session [] [] = true
same_session [] (c ∷ s) = false
same_session (c ∷ s) [] = false
same_session (a ∷ s) (b ∷ t) = a == b && same_session s t

-- The first packet defines the session, and another session restarts the sequence.
unfoldable pub follow_session : Decoder → PacketHeader → Decoder
follow_session d h =
    if d.started
    then if same_session h.session d.session then d else record d {
      session_changes = u64 (d.session_changes + 1);
      session = h.session;
      expected = h.sequence;
    }
    else record d { session = h.session; expected = h.sequence; started = true }

-- `if (h.sequence > expected_) note_gap(...)`.
unfoldable pub note_jump : Decoder → ℕ → Decoder
unfolding note_gap
note_jump d sequence =
    if ltb d.expected sequence then note_gap d d.expected (sub_u64 sequence d.expected) else d

unfoldable pub end_session : Decoder → PacketHeader → Decoder
unfolding note_jump
end_session d h =
    let d' = note_jump d h.sequence in
    record d' {
      expected = if ltb d.expected h.sequence then h.sequence else d.expected;
      eos = true;
      last_sequence = h.sequence;
    }

-- The number of blocks that a walk of the packet finds, and whether they fill it.
unfoldable pub count_blocks : PacketView → Option (ℕ × Bool)
count_blocks pkt =
    let body = drop header_size pkt.bytes in
    walk (suc (length body)) (λ mv blocks. some (u32 (blocks + 1)))
      (framer body (sub_u64 pkt.len header_size)) 0
    >>= λ r. some (r.0, exhausted r.1)

module _ {ℓ} {S : Type ℓ} (sink : MessageView → ℕ → S → Option S) where
  -- A packet whose blocks have been validated.
  unfoldable pub deliver : Decoder → PacketHeader → PacketView → S → Option (Decoder × S)
  unfolding note_jump
  deliver d h pkt s =
      let d' = note_jump d h.sequence in
      let body = drop header_size pkt.bytes in
      walk (suc (length body)) (λ mv. sink mv pkt.rx_tsc)
        (framer body (sub_u64 pkt.len header_size)) s
      >>= λ r. some (
        record d' {
          last_sequence = h.sequence;
          delivered = u64 (d'.delivered + h.message_count);
          applied_packets = u64 (d'.applied_packets + 1);
          expected = u64 (h.sequence + h.message_count);
        },
        r.0,
      )

  -- A packet with blocks that is not a duplicate.
  unfoldable pub take_blocks : Decoder → PacketHeader → PacketView → S → Option (Decoder × S)
  unfolding count_blocks deliver
  take_blocks d h pkt s = count_blocks pkt >>= λ r.
      if not r.1 || not (r.0 == h.message_count)
      then some (record d { malformed = u64 (d.malformed + 1) }, s)
      else deliver d h pkt s

  -- The cases of a packet, once its session has been followed.
  unfoldable pub sort_packet : Decoder → PacketHeader → PacketView → S → Option (Decoder × S)
  unfolding end_session take_blocks
  sort_packet d h pkt s =
      if h.message_count == end_of_session_count
      then some (end_session d h, s)
      else if h.message_count == heartbeat_count
      then some (record d { heartbeats = u64 (d.heartbeats + 1) }, s)
      else if ltb h.sequence d.expected
      then some (record d { duplicates = u64 (d.duplicates + 1) }, s)
      else take_blocks d h pkt s

  unfoldable pub on_packet : PacketView → Decoder × S → Option (Decoder × S)
  unfolding sort_packet follow_session
  on_packet pkt (d, s) =
      if ltb pkt.len header_size
      then some (record d { malformed = u64 (d.malformed + 1) }, s)
      else decode_packet_header pkt.bytes >>= λ h. sort_packet (follow_session d h) h pkt s
