-- ===== src/Mold/Packer.antt =====
-- Packing messages into packets, src/mold/packer.h and packer.cc. The buffer behind the header is
-- the list of the bytes written so far; `body_` is its length.
pub mod Packets
use nasdaq_itch_trading_syst.Base.{
  ℕ, ◌+◌, ◌-◌, ◌/◌, ◌^◌, bit_and, Bool, true, false, List, [], ◌∷◌, ◌++◌, take, length, ltb, ◌==◌,
  ◌||◌, if◌then◌else◌, u8, u16, u64, sub_u64,
}
use nasdaq_itch_trading_syst.Itch.Framing.{MessageView}
use nasdaq_itch_trading_syst.Mold.Packet.{
  Session, PacketHeader, encode_header, header_size, end_of_session_count,
}

pub record Packer : Type 0 where
  pub session : Session
  pub sequence : ℕ
  pub max_payload : ℕ
  pub written : List ℕ
  pub body : ℕ
  pub count : ℕ

-- The constructor.
unfoldable pub packer : Session → ℕ → ℕ → Packer
packer session first_sequence max_payload = record {
  session = session;
  sequence = first_sequence;
  max_payload = max_payload;
  written = [];
  body = 0;
  count = 0;
}

-- The bytes of one message block.
unfoldable pub block : MessageView → List ℕ
block msg = u8 (msg.size / 2 ^ 8) ∷ bit_and msg.size 0xff ∷ take msg.size msg.bytes

-- Whether the message does not fit any more.
unfoldable pub is_full : Packer → MessageView → Bool
is_full p msg =
    let room = sub_u64 p.max_payload p.body in
    ltb room 2 || (ltb (sub_u64 room 2) msg.size || p.count == end_of_session_count - 1)

unfoldable pub try_add : Packer → MessageView → Packer × Bool
unfolding is_full block
try_add p msg = if is_full p msg then (p, false) else (
  record p {
    written = p.written ++ block msg;
    body = u64 (p.body + (2 + msg.size));
    count = u16 (p.count + 1);
  },
  true,
)

unfoldable pub finish : Packer → Packer × List ℕ
unfolding encode_header
finish p = (
  record p { sequence = u64 (p.sequence + p.count); written = []; body = 0; count = 0 },
  encode_header (record { session = p.session; sequence = p.sequence; message_count = p.count })
      ++ p.written,
)

unfoldable pub end_of_session : Packer → List ℕ
unfolding encode_header
end_of_session p =
    encode_header
      (record { session = p.session; sequence = p.sequence; message_count = end_of_session_count })

unfoldable pub empty : Packer → Bool
empty p = p.count == 0

unfoldable pub next_sequence : Packer → ℕ
next_sequence p = u64 (p.sequence + p.count)

unfoldable pub too_large : Packer → ℕ → Bool
too_large p message_size = ltb p.max_payload (u64 (2 + message_size))
