-- ===== src/Replayer/Loop.antt =====
-- The loop of apps/replayer/main.cc over a file, and what the summary reports.
use nasdaq_itch_trading_syst.Base.{ℕ, ◌+◌, ◌≤◌, ◌≡◌, ◌≢◌, true, false, length, ◌==◌, if◌then◌else◌}
use nasdaq_itch_trading_syst.Mold.UdpSender.{UdpSender}
use nasdaq_itch_trading_syst.Replayer.{Options, Replayer, packed_all, seq_ok, exit_code}
use nasdaq_itch_trading_syst.Replayer.Flush.{calls}

-- What the summary reports: all messages that were read were packed or too large, the packer's
-- number is one above the packed messages, and each packet was dropped, and listed, or handed to
-- `sendto`, as was the end of the session.
pub record Reports (o : Options) (n : ℕ) (r : Replayer) : Type 0 where
  pub packs : packed_all r ≡ true
  pub numbers : seq_ok r ≡ true
  pub takes : r.refused ≡ false
  pub code : exit_code r ≡ (if r.sender.failures == 0 then 0 else 1)
  pub read_all : o.max_packets ≡ 0 → r.messages_read ≡ n
  pub limited : o.max_packets ≢ 0 → r.packets_built ≤ o.max_packets
  pub sent : r.packets_dropped + calls r.sender ≡ r.packets_built + 1
  pub listed : length r.drops ≡ r.packets_dropped
