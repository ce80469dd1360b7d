-- ===== src/Mold/UdpSender.antt =====
-- The sender of datagrams, src/mold/udp_sender.h and udp_sender.cc. What the calls of the operating
-- system answer is a parameter.
pub mod Errors
use nasdaq_itch_trading_syst.Base.{
  ℕ, ◌+◌, Bool, true, false, not, ◌&&◌, ◌||◌, Option, none, some, List, [], ◌∷◌, length, ◌==◌,
  if◌then◌else◌, u64,
}

pub record UdpSender : Type 0 where
  pub fd : ℕ
  pub packets : ℕ
  pub bytes : ℕ
  pub failures : ℕ
  pub effective_send_buffer : ℕ

pub data SocketOption : Type 0 where
  multicast_ttl multicast_loop multicast_if send_buffer_size : SocketOption

-- `socket` gives a descriptor or fails; `inet_pton` accepts a text or not; `setsockopt` succeeds or
-- not; `getsockopt` reports the size of the buffer.
pub record System : Type 0 where
  pub socket : Option ℕ
  pub inet_pton : List ℕ → Bool
  pub setsockopt : SocketOption → Bool
  pub granted : ℕ

-- The exceptions of the constructor.
pub data OpenError : Type 0 where
  no_socket bad_address bad_interface multicast_refused buffer_refused : OpenError

pub data Opening : Type 0 where
  opened : UdpSender → Opening
  failed : OpenError → Opening

-- What a constructor that has opened `fd` does when it throws: `close(fd_)` first. The second part
-- is the list of the descriptors that were closed.
abbrev pub close_and_fail : ℕ → OpenError → Opening × List ℕ
close_and_fail fd e = (failed e, fd ∷ [])

unfoldable pub set_buffer : System → ℕ → ℕ → Opening × List ℕ
set_buffer sys send_buffer fd =
    if not (send_buffer == 0) && not (sys.setsockopt send_buffer_size)
    then close_and_fail fd buffer_refused
    else (
      opened (record {
        fd = fd;
        packets = 0;
        bytes = 0;
        failures = 0;
        effective_send_buffer = sys.granted;
      }),
      [],
    )

unfoldable pub set_multicast : System → List ℕ → ℕ → ℕ → Opening × List ℕ
unfolding set_buffer
set_multicast sys interface send_buffer fd =
    if not (sys.inet_pton interface)
    then close_and_fail fd bad_interface
    else if not (sys.setsockopt multicast_ttl)
        || (not (sys.setsockopt multicast_loop) || not (sys.setsockopt multicast_if))
    then close_and_fail fd multicast_refused
    else set_buffer sys send_buffer fd

-- The constructor, once `socket` has answered.
unfoldable pub open_at : System → List ℕ → Bool → List ℕ → ℕ → Option ℕ → Opening × List ℕ
unfolding set_multicast set_buffer
open_at sys host multicast interface send_buffer none = (failed no_socket, [])
open_at sys host multicast interface send_buffer (some fd) =
    if not (sys.inet_pton host)
    then close_and_fail fd bad_address
    else if multicast
    then set_multicast sys interface send_buffer fd
    else set_buffer sys send_buffer fd

-- The constructor. A negative `send_buffer` is as 0.
unfoldable pub udp_sender : System → List ℕ → Bool → List ℕ → ℕ → Opening × List ℕ
unfolding open_at
udp_sender sys host multicast interface send_buffer =
    open_at sys host multicast interface send_buffer sys.socket

-- `sent` is what `sendto` returned: none for a negative number.
unfoldable pub send : UdpSender → List ℕ → Option ℕ → UdpSender × Bool
send s packet none = (record s { failures = u64 (s.failures + 1) }, false)
send s packet (some sent) =
    if sent == length packet
    then (record s { packets = u64 (s.packets + 1); bytes = u64 (s.bytes + length packet) }, true)
    else (record s { failures = u64 (s.failures + 1) }, false)
