-- ===== src/Mold/Examples.antt =====
-- Runs of src/mold on concrete packets.
use nasdaq_itch_trading_syst.Base.{
  ℕ, none, ◌/◌, ◌+◌, ◌<◌, ◌≡◌, ◌⊎◌, refl, true, false, List, [], ◌∷◌, ◌++◌, some, arith, u64, drop,
  replicate,
}
use nasdaq_itch_trading_syst.Itch.Framing.{MessageView}
use nasdaq_itch_trading_syst.Itch.Framing.Stream.{views, IsSplit}
use nasdaq_itch_trading_syst.Itch.Framing.Walk.{run_views}
use nasdaq_itch_trading_syst.Mold.Packet.{
  PacketHeader, encode_header, decode_packet_header, make_session, copy_text,
}
use nasdaq_itch_trading_syst.Mold.Packet.Header.{IsHeaderOf, decode_packet_header-encode_header}
use nasdaq_itch_trading_syst.Mold.Packer.{Packer, try_add, finish}
use nasdaq_itch_trading_syst.Mold.Packer.Packets.{IsPacking, Adds, try_add_correct, finish_correct}
use nasdaq_itch_trading_syst.Mold.Decoder.{PacketView, Decoder, follow_session, on_packet}
use nasdaq_itch_trading_syst.Mold.Decoder.Delivery.{pure_sink, Handled, on_packet_correct}
use nasdaq_itch_trading_syst.Mold.GapInjector.{every_nth}
use nasdaq_itch_trading_syst.Mold.GapInjector.Drops.{drops, drops-every_nth}
use nasdaq_itch_trading_syst.Mold.UdpSender.{System, udp_sender, failed, no_socket}
use nasdaq_itch_trading_syst.Mold.UdpSender.Errors.{Accounts, udp_sender_correct}
use nasdaq_itch_trading_syst.Mold.Transfer.{received, transfer}

-- A system that refuses the multicast options.
abbrev refusing : System
refusing = record {
  socket = some 5;
  inet_pton = λ text. true;
  setsockopt = λ option. false;
  granted = 0;
}

udp_sender_correct_example :
    ((refusing.socket ≡ none) × (udp_sender refusing [] true [] 0 ≡ (failed no_socket, [])))
    ⊎ ((fd : ℕ) × (refusing.socket ≡ some fd)
        × Accounts refusing [] true [] 0 fd (udp_sender refusing [] true [] 0))
udp_sender_correct_example = udp_sender_correct refusing [] true [] 0

drops-every_nth_example : (drops (every_nth 3) 10).1 ≡ 10 / 3
drops-every_nth_example = drops-every_nth 3 10 (omega arith) (omega arith)

abbrev sample_session : List ℕ
sample_session = b'T' ∷ b'E' ∷ b'S' ∷ b'T' ∷ replicate 6 b' '

make_session_test : make_session (b'T' ∷ b'E' ∷ b'S' ∷ b'T' ∷ 0 ∷ b'x' ∷ []) ≡ sample_session
unfolding make_session copy_text
make_session_test = refl

abbrev sample_header : PacketHeader
sample_header = record { session = sample_session; sequence = 70_000; message_count = 2 }

decode_packet_header-encode_header_example :
    decode_packet_header (encode_header sample_header ++ (9 ∷ [])) ≡ some sample_header
decode_packet_header-encode_header_example =
    decode_packet_header-encode_header sample_header (9 ∷ []) refl (omega arith) (omega arith)

-- A packer that has taken one message of two bytes.
abbrev sample_packer : Packer
sample_packer = record {
  session = sample_session;
  sequence = 5;
  max_payload = 40;
  written = 0 ∷ 2 ∷ b'S' ∷ 7 ∷ [];
  body = 4;
  count = 1;
}

sample_packer-IsPacking : IsPacking sample_packer ((b'S' ∷ 7 ∷ []) ∷ [])
sample_packer-IsPacking = record {
  session_wide = refl;
  sequence_fits = omega arith;
  messages = ((omega arith, omega arith), tt);
  written = refl;
  body = refl;
  room = omega arith;
  payload_fits = omega arith;
  count = refl;
  count_fits = omega arith;
}

abbrev sample_view : MessageView
sample_view = record { bytes = b'D' ∷ 1 ∷ 2 ∷ 0 ∷ 5 ∷ []; size = 3 }

try_add_correct_example :
    Adds sample_packer
      ((b'S' ∷ 7 ∷ []) ∷ [])
      (b'D' ∷ 1 ∷ 2 ∷ [])
      (try_add sample_packer sample_view).0
      (try_add sample_packer sample_view).1
try_add_correct_example =
    try_add_correct sample_packer ((b'S' ∷ 7 ∷ []) ∷ []) sample_view (b'D' ∷ 1 ∷ 2 ∷ [])
      (0 ∷ 5 ∷ []) sample_packer-IsPacking (omega arith, omega arith) refl refl

finish_correct_example :
    (decode_packet_header (finish sample_packer).1
      ≡ some (record { session = sample_session; sequence = 5; message_count = 1 }))
    × IsSplit (drop 20 (finish sample_packer).1) ((b'S' ∷ 7 ∷ []) ∷ []) []
    × IsPacking (finish sample_packer).0 []
    × ((finish sample_packer).0.sequence ≡ u64 (5 + 1))
finish_correct_example = finish_correct sample_packer ((b'S' ∷ 7 ∷ []) ∷ []) sample_packer-IsPacking

-- A decoder that expects the packet.
abbrev sample_decoder : Decoder
sample_decoder = record {
  expected = 5;
  last_sequence = 1;
  started = true;
  eos = false;
  session = sample_session;
  session_changes = 0;
  applied_packets = 1;
  delivered = 4;
  duplicates = 0;
  malformed = 0;
  heartbeats = 0;
  gaps_total = 0;
  gap_messages = 0;
  gaps = [];
}

abbrev sum_sizes : MessageView → ℕ → ℕ → ℕ
sum_sizes v rx_tsc n = n + v.size

transfer_example :
    on_packet (pure_sink sum_sizes) (received sample_packer 99) (sample_decoder, 10)
    ≡ some (
      record sample_decoder {
        expected = (finish sample_packer).0.sequence;
        last_sequence = 5;
        applied_packets = 2;
        delivered = u64 (4 + 1);
      },
      run_views (λ v t. sum_sizes v 99 t) (views ((b'S' ∷ 7 ∷ []) ∷ []) []) 10,
    )
transfer_example =
    transfer sum_sizes sample_packer ((b'S' ∷ 7 ∷ []) ∷ []) sample_decoder 10 99
      sample_packer-IsPacking (omega arith) (omega arith) refl refl refl

-- A datagram of one message, ten numbers ahead of what is expected.
abbrev sample_datagram : PacketView
sample_datagram = record {
  bytes = sample_session ++ (0 ∷ 0 ∷ 0 ∷ 0 ∷ 0 ∷ 0 ∷ 0 ∷ 15 ∷ 0 ∷ 1 ∷ 0 ∷ 2 ∷ b'S' ∷ 7 ∷ []);
  len = 24;
  rx_tsc = 99;
}

on_packet_correct_example :
    ((24 < 20)
      × (on_packet (pure_sink sum_sizes) sample_datagram (sample_decoder, 10)
          ≡ some (record sample_decoder { malformed = 1 }, 10)))
    ⊎ ((h : PacketHeader) × IsHeaderOf sample_datagram.bytes h
        × Handled sum_sizes
            (follow_session sample_decoder h)
            h
            sample_datagram
            10
            (on_packet (pure_sink sum_sizes) sample_datagram (sample_decoder, 10)))
on_packet_correct_example =
    on_packet_correct sum_sizes sample_decoder 10 sample_datagram
      (record { bytes = omega arith; sized = record { whole = refl; short = omega arith } })
      (omega arith)
