-- ===== src/Replayer/Examples.antt =====
-- A run of apps/replayer/main.cc on a file of three messages.
use nasdaq_itch_trading_syst.Base.{ℕ, ◌+◌, ◌*◌, true, some, List, [], ◌∷◌, length}
use nasdaq_itch_trading_syst.Mold.UdpSender.{UdpSender}
use nasdaq_itch_trading_syst.Replayer.{Options, Environment, Replayer}

-- Two messages of three bytes, of which only one fits into a packet, and one that never fits; a
-- partial frame is left over.
abbrev messages : List (List ℕ)
messages = (b'S' ∷ 1 ∷ 2 ∷ []) ∷ (b'S' ∷ 3 ∷ 4 ∷ []) ∷ (b'A' ∷ 0 ∷ 0 ∷ 0 ∷ 0 ∷ 0 ∷ 0 ∷ []) ∷ []

abbrev left_over : List ℕ
left_over = 0 ∷ 9 ∷ b'D' ∷ []

-- Every second packet is dropped.
abbrev options : Options
options = record {
  session = b'T' ∷ b'E' ∷ b'S' ∷ b'T' ∷ [];
  max_payload = 8;
  drop_every = 2;
  threshold = 0;
  seed = 1;
  max_packets = 0;
  schedule_log = true;
}

-- A clock of one microsecond per packet, and a system that sends every packet whole.
abbrev environment : Environment
environment = record {
  wait = λ index. index * 1_000;
  now_ns = λ index. index * 1_000 + 7;
  sendto = λ call packet. some (length packet);
}

abbrev sender : UdpSender
sender = record { fd = 3; packets = 0; bytes = 0; failures = 0; effective_send_buffer = 4096 }
