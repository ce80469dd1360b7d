-- ===== src/Latency.antt =====
-- The recorder of latencies, src/common/latency_recorder.h. The index of a percentile is computed in
-- floating point from the count, and is a parameter.
pub mod Samples
mod Examples
use nasdaq_itch_trading_syst.Base.{
  ℕ, ◌+◌, ◌-◌, List, [], ◌∷◌, ◌++◌, length, take, drop, get_or, set, replicate, ltb, leb, ◌==◌,
  if◌then◌else◌, u64,
}

pub record LatencyRecorder : Type 0 where
  pub samples : List ℕ
  pub count : ℕ
  pub dropped : ℕ

-- The constructor.
unfoldable pub latency_recorder : ℕ → LatencyRecorder
latency_recorder capacity = record { samples = replicate capacity 0; count = 0; dropped = 0 }

-- `record(ticks)`.
unfoldable pub add_sample : LatencyRecorder → ℕ → LatencyRecorder
add_sample r ticks =
    if ltb r.count (length r.samples)
    then record r { samples = set r.samples r.count ticks; count = r.count + 1 }
    else record r { dropped = u64 (r.dropped + 1) }

-- The copy moves the samples `n` to `count - 1` to the front, and leaves the others where they are.
unfoldable pub discard_first : LatencyRecorder → ℕ → LatencyRecorder
discard_first r n = if leb r.count n then record r { count = 0 } else record r {
  samples = drop n (take r.count r.samples) ++ drop (r.count - n) r.samples;
  count = r.count - n;
}

-- `std::sort`, as an insertion sort.
unfoldable pub insert_sorted : ℕ → List ℕ → List ℕ
insert_sorted x [] = x ∷ []
insert_sorted x (y ∷ ys) = let rest = insert_sorted x ys in if leb x y then x ∷ y ∷ ys else y ∷ rest

unfoldable pub sort : List ℕ → List ℕ
unfolding insert_sorted
sort [] = []
sort (x ∷ xs) = insert_sorted x (sort xs)

-- `rank` takes the count to the index of the percentile before it is clamped.
unfoldable pub percentile : (ℕ → ℕ) → LatencyRecorder → ℕ
unfolding sort
percentile rank r =
    if r.count == 0
    then 0
    else get_or (sort (take r.count r.samples))
        (if leb r.count (rank r.count) then r.count - 1 else rank r.count) 0

-- The loop of `max_ticks`.
unfoldable pub largest : List ℕ → ℕ → ℕ
largest [] m = m
largest (x ∷ xs) m = largest xs (if ltb m x then x else m)

unfoldable pub max_ticks : LatencyRecorder → ℕ
unfolding largest
max_ticks r = largest (take r.count r.samples) 0
