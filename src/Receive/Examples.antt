-- ===== src/Receive/Examples.antt =====
-- Runs of src/receive.
use nasdaq_itch_trading_syst.Base.{
  refl, ℕ, ◌+◌, ◌≡◌, ◌⊎◌, true, false, none, some, List, [], ◌∷◌, replicate,
}
use nasdaq_itch_trading_syst.Receive.{
  System, open_udp_socket, open_at, require, join_group, bound_port, ready, failed, no_socket,
  no_name, Receiver, Answer, datagram, interrupted, broken, run,
}
use nasdaq_itch_trading_syst.Receive.Errors.{Opens, checks, open_udp_socket_correct}
use nasdaq_itch_trading_syst.Receive.Delivery.{
  until_broken, fitting, hand_over, Counts, run_correct,
}

-- A system on which no group can be joined.
abbrev lonely : System
lonely = record {
  socket = some 4;
  reuse = true;
  inet_pton = λ text. true;
  bind = true;
  membership = false;
  getsockname = some 26_477;
}

open_udp_socket_correct_example :
    ((lonely.socket ≡ none) × (open_udp_socket lonely [] true [] true ≡ (failed no_socket, [])))
    ⊎ ((fd : ℕ) × (lonely.socket ≡ some fd)
        × Opens true
            (some 26_477)
            fd
            (checks lonely [] true [])
            (open_udp_socket lonely [] true [] true))
open_udp_socket_correct_example = open_udp_socket_correct lonely [] true [] true

-- A system that has no name for the socket.
abbrev nameless : System
nameless = record lonely { getsockname = none }

no_pointer_test : open_udp_socket nameless [] false [] false ≡ (ready 4 none, [])
unfolding open_udp_socket open_at require join_group bound_port
no_pointer_test = refl

no_name_test : open_udp_socket nameless [] false [] true ≡ (failed no_name, 4 ∷ [])
unfolding open_udp_socket open_at require join_group bound_port
no_name_test = refl

abbrev answers : List Answer
answers =
    datagram 1 (7 ∷ 8 ∷ [])
    ∷ interrupted
    ∷ datagram 2 (replicate 2_049 0)
    ∷ datagram 3 []
    ∷ broken
    ∷ datagram 4 (9 ∷ [])
    ∷ []

abbrev idle : Receiver
idle = record { packets = 0; syscalls = 0; truncated = 0 }

-- The sink counts the bytes.
run_correct_example :
    (r : Receiver) × (run (λ v n. some (n + v.len)) answers idle 0
      ≡ some (r, hand_over (λ v n. n + v.len) (fitting (until_broken answers)) 0))
    × Counts (until_broken answers) idle r
run_correct_example = run_correct (λ v n. n + v.len) answers idle 0
