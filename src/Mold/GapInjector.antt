-- ===== src/Mold/GapInjector.antt =====
-- Packets that are dropped on purpose, src/mold/gap_injector.h. `probability_` is held as
-- `threshold`, the least number that is not below probability_ * 2 ^ 53: the test u < probability_,
-- in which u is exactly (z >> 11) / 2 ^ 53, is then that of z >> 11 against it.
pub mod Drops
use nasdaq_itch_trading_syst.Base.{
  ℕ, ◌+◌, ◌*◌, ◌/◌, ◌%◌, ◌^◌, bit_xor, Bool, true, false, not, ◌||◌, ◌==◌, ltb, if◌then◌else◌, u64,
}

pub record GapInjector : Type 0 where
  pub every : ℕ
  pub threshold : ℕ
  pub state : ℕ

-- `none()`.
unfoldable pub no_gaps : GapInjector
no_gaps = record { every = 0; threshold = 0; state = 0 }

unfoldable pub every_nth : ℕ → GapInjector
every_nth n = record { every = n; threshold = 0; state = 0 }

unfoldable pub with_probability : ℕ → ℕ → GapInjector
with_probability threshold seed = record { every = 0; threshold = threshold; state = seed }

-- One step of splitmix64: the output of a state.
unfoldable pub mix : ℕ → ℕ
mix state =
    let z = u64 (bit_xor state (state / 2 ^ 30) * 0xbf58_476d_1ce4_e5b9) in
    let z' = u64 (bit_xor z (z / 2 ^ 27) * 0x94d0_49bb_1331_11eb) in bit_xor z' (z' / 2 ^ 31)

unfoldable pub should_drop : GapInjector → ℕ → GapInjector × Bool
unfolding mix
should_drop g packet_index =
    if not (g.every == 0)
    then (g, u64 (packet_index + 1) % g.every == 0)
    else if not (g.threshold == 0)
    then (
      record g { state = u64 (g.state + 0x9e37_79b9_7f4a_7c15) },
      ltb (mix (u64 (g.state + 0x9e37_79b9_7f4a_7c15)) / 2 ^ 11) g.threshold,
    )
    else (g, false)

unfoldable pub active : GapInjector → Bool
active g = not (g.every == 0) || not (g.threshold == 0)
