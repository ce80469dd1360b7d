-- ===== src/Capture/Examples.antt =====
-- A header of apps/replayer/capture.cc.
use nasdaq_itch_trading_syst.Base.{ℕ, ◌<◌, ◌^◌, ◌≡◌, some, [], ◌∷◌, arith}
use nasdaq_itch_trading_syst.Capture.{ip_checksum, ip_header}
use nasdaq_itch_trading_syst.Capture.Checksum.{ip_checksum_correct}

-- From 127.0.0.1 to 239.1.1.1, with 100 bytes in all.
ip_checksum_correct_example :
    (csum : ℕ) × (ip_checksum (ip_header 100 (127 ∷ 0 ∷ 0 ∷ 1 ∷ []) (239 ∷ 1 ∷ 1 ∷ 1 ∷ []) 0)
      ≡ some csum)
    × (csum < 2 ^ 16)
    × (ip_checksum (ip_header 100 (127 ∷ 0 ∷ 0 ∷ 1 ∷ []) (239 ∷ 1 ∷ 1 ∷ 1 ∷ []) csum) ≡ some 0)
ip_checksum_correct_example =
    ip_checksum_correct 100 127 0 0 1 239 1 1 1 (omega arith) (omega arith) (omega arith)
