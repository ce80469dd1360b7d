-- ===== src/Mold/Packet.antt =====
-- The packet header, src/mold/mold.h and mold.cc.
pub mod Header
use nasdaq_itch_trading_syst.Base.{
  ℕ, zero, suc, ◌+◌, ◌-◌, ◌*◌, ◌/◌, ◌%◌, ◌^◌, bit_and, Option, none, some, List, [], ◌∷◌, ◌++◌,
  drop, replicate, set, length, get_or, u8, ◌==◌, if◌then◌else◌, ◌>>=◌,
}
use nasdaq_itch_trading_syst.ByteReader.{be16, be64}
use nasdaq_itch_trading_syst.Itch.Decoder.{read_chars}

-- kSessionSize, kHeaderSize, kEndOfSession and kHeartbeat.
abbrev pub session_size : ℕ
session_size = 10

abbrev pub header_size : ℕ
header_size = 20

abbrev pub end_of_session_count : ℕ
end_of_session_count = 0xffff

abbrev pub heartbeat_count : ℕ
heartbeat_count = 0

-- `std::array<char, 10>`.
abbrev pub Session : Type 0
Session = List ℕ

pub record PacketHeader : Type 0 where
  pub session : Session
  pub sequence : ℕ
  pub message_count : ℕ

-- The bytes that `put_be16` writes.
unfoldable pub put_be16 : ℕ → List ℕ
put_be16 v = u8 (v / 2 ^ 8) ∷ bit_and v 0xff ∷ []

-- The loop of `put_be64`, which writes the bytes from the last one.
unfoldable pub put_bytes : ℕ → ℕ → List ℕ → List ℕ
put_bytes zero v out = out
put_bytes (suc n) v out = put_bytes n (v / 2 ^ 8) (bit_and v 0xff ∷ out)

unfoldable pub put_be64 : ℕ → List ℕ
unfolding put_bytes
put_be64 v = put_bytes 8 v []

-- The bytes that `encode_header` writes; what is behind them in the buffer stays.
unfoldable pub encode_header : PacketHeader → List ℕ
unfolding put_be16 put_be64
encode_header h = h.session ++ (put_be64 h.sequence ++ put_be16 h.message_count)

unfoldable pub decode_packet_header : List ℕ → Option PacketHeader
decode_packet_header p = do
  session ← read_chars session_size p
  sequence ← be64 (drop session_size p)
  message_count ← be16 (drop (session_size + 8) p)
  some (record { session = session; sequence = sequence; message_count = message_count })

-- The loop of `make_session` over a text that a zero byte ends.
unfoldable pub copy_text : ℕ → List ℕ → Session
copy_text zero text = []
copy_text (suc n) [] = replicate (suc n) b' '
copy_text (suc n) (c ∷ text) =
    let rest = copy_text n text in if c == 0 then replicate (suc n) b' ' else c ∷ rest

unfoldable pub make_session : List ℕ → Session
unfolding copy_text
make_session text = copy_text session_size text
