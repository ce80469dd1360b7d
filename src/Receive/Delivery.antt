-- ===== src/Receive/Delivery.antt =====
-- What the loop of src/receive/recvfrom_receiver.cc hands to its sink.
use nasdaq_itch_trading_syst.Base.{
  ℕ, ◌+◌, ◌≡◌, refl, inl, inr, some, List, [], ◌∷◌, length, ltb, Bool-cases, if◌then◌else◌, u64,
  arith,
}
use nasdaq_itch_trading_syst.Mold.Decoder.{PacketView}
use nasdaq_itch_trading_syst.Receive.{
  Receiver, Answer, datagram, interrupted, broken, buffer_size, count_call, run,
}

-- The answers up to the first failure.
abbrev pub until_broken : List Answer → List Answer
until_broken [] = []
until_broken (broken ∷ answers) = broken ∷ []
until_broken (interrupted ∷ answers) = interrupted ∷ until_broken answers
until_broken (datagram rx_tsc bytes ∷ answers) = datagram rx_tsc bytes ∷ until_broken answers

-- The datagrams that fit into the buffer, and the number of those that do not.
abbrev pub fitting : List Answer → List PacketView
fitting [] = []
fitting (broken ∷ answers) = fitting answers
fitting (interrupted ∷ answers) = fitting answers
fitting (datagram rx_tsc bytes ∷ answers) =
    if ltb buffer_size (length bytes)
    then fitting answers
    else record { bytes = bytes; len = length bytes; rx_tsc = rx_tsc } ∷ fitting answers

abbrev pub too_long : List Answer → ℕ
too_long [] = 0
too_long (broken ∷ answers) = too_long answers
too_long (interrupted ∷ answers) = too_long answers
too_long (datagram rx_tsc bytes ∷ answers) =
    (if ltb buffer_size (length bytes) then 1 else 0) + too_long answers

abbrev pub hand_over {ℓ} : {S : Type ℓ} → (PacketView → S → S) → List PacketView → S → S
hand_over f [] s = s
hand_over f (v ∷ vs) s = hand_over f vs (f v s)

-- The counters after the answers.
pub record Counts (answers : List Answer) (r r' : Receiver) : Type 0 where
  pub packets : u64 r'.packets ≡ u64 (r.packets + length (fitting answers))
  pub truncated : u64 r'.truncated ≡ u64 (r.truncated + too_long answers)
  pub syscalls : u64 r'.syscalls ≡ u64 (r.syscalls + length answers)

module _ {ℓ} {S : Type ℓ} (f : PacketView → S → S) where
  -- For any answers of `recvfrom`, of which stop is seen after the last, and a sink that never
  -- fails, the loop ends and has handed to the sink, in their order, exactly the datagrams of at
  -- most 2048 bytes up to the first failure of the socket; on 64 bits the packets have grown by
  -- these, the truncated ones by the longer datagrams, and the system calls by the answers up to
  -- and with that failure.
  pub run_correct :
      (answers : List Answer) (r : Receiver) (s : S)
      → (r' : Receiver) × (run (λ v t. some (f v t)) answers r s
          ≡ some (r', hand_over f (fitting (until_broken answers)) s))
        × Counts (until_broken answers) r r'
  unfolding run
  run_correct [] r s =
      (r, refl, record { packets = omega arith; truncated = omega arith; syscalls = omega arith })
  run_correct (broken ∷ answers) r s = (
    count_call r,
    refl,
    record { packets = omega arith; truncated = omega arith; syscalls = omega arith },
  )
  run_correct (interrupted ∷ answers) r s =
      let (r', run', c) = run_correct answers (count_call r) s in
      (
        r',
        run',
        record {
          packets = c.packets;
          truncated = c.truncated;
          syscalls = omega (arith, c.syscalls);
        },
      )
  run_correct (datagram rx_tsc bytes ∷ answers) r s =
      elim (Bool-cases (ltb buffer_size (length bytes))) [
        | inl long ↦
            let (r', run', c) =
              run_correct answers (record (count_call r) { truncated = u64 (r.truncated + 1) }) s in
            (
              r',
              rw (long, run) run',
              record {
                packets = rw long c.packets;
                truncated = rw long (omega (arith, c.truncated));
                syscalls = omega (arith, c.syscalls);
              },
            )
        | inr fits ↦
            let v : PacketView = record { bytes = bytes; len = length bytes; rx_tsc = rx_tsc } in
            let (r', run', c) =
              run_correct answers (record (count_call r) { packets = u64 (r.packets + 1) })
                (f v s) in
            (
              r',
              rw (fits, run) run',
              record {
                packets = rw fits (omega (arith, c.packets));
                truncated = rw fits (omega (arith, c.truncated));
                syscalls = omega (arith, c.syscalls);
              },
            )
      ]
