-- ===== src/Latency/Examples.antt =====
-- Runs of src/common/latency_recorder.h on a full recorder.
use nasdaq_itch_trading_syst.Base.{◌<◌, ◌≤◌, ◌≡◌, [], ◌∷◌, All, length, ltb, leb, ◌==◌, arith}
use nasdaq_itch_trading_syst.Latency.{LatencyRecorder, add_sample, percentile, max_ticks}
use nasdaq_itch_trading_syst.Latency.Samples.{
  recorded, tally_of, clamped_rank, percentile_correct, Adds, add_sample_correct, max_ticks_correct,
}

abbrev full : LatencyRecorder
full = record { samples = 40 ∷ 10 ∷ 30 ∷ []; count = 3; dropped = 0 }

percentile_correct_example :
    (tally_of (λ x. ltb x (percentile (λ n. 1) full)) (recorded full) ≤ clamped_rank 3 1)
    × (clamped_rank 3 1 < tally_of (λ x. leb x (percentile (λ n. 1) full)) (recorded full))
percentile_correct_example = percentile_correct (λ n. 1) full (omega arith) (omega arith)

add_sample_correct_example :
    Adds full 20 (add_sample full 20)
    × (length (add_sample full 20).samples ≡ 3)
    × ((add_sample full 20).count ≤ 3)
add_sample_correct_example = add_sample_correct full 20 (omega arith)

max_ticks_correct_example :
    All (λ x. x ≤ max_ticks full) (recorded full)
    × (0 < tally_of (λ x. x == max_ticks full) (recorded full))
max_ticks_correct_example = max_ticks_correct full (omega arith) (omega arith)
