-- ===== src/Receive.antt =====
-- The receivers of src/receive: the socket of socket_setup.cc, and the loop of recvfrom_receiver.cc.
-- What the operating system answers is a parameter.
pub mod Delivery
pub mod Errors
mod Examples
use nasdaq_itch_trading_syst.Base.{
  ℕ, ◌+◌, Bool, true, false, not, ◌&&◌, ◌||◌, Option, none, some, List, [], ◌∷◌, length, ltb,
  if◌then◌else◌, ◌>>=◌, u64,
}
use nasdaq_itch_trading_syst.Mold.Decoder.{PacketView}

-- The exceptions of `open_udp_socket`.
pub data SetupError : Type 0 where
  no_socket no_reuse bad_bind_address no_bind bad_group no_membership no_name : SetupError

-- The descriptor that is returned, with what is written to `*bound_port`, if anything is; or the
-- exception.
pub data Setup : Type 0 where
  ready : ℕ → Option ℕ → Setup
  failed : SetupError → Setup

-- The answers of the calls, in the order of the source; `getsockname` gives the bound port.
pub record System : Type 0 where
  pub socket : Option ℕ
  pub reuse : Bool
  pub inet_pton : List ℕ → Bool
  pub bind : Bool
  pub membership : Bool
  pub getsockname : Option ℕ

-- A call that must succeed: otherwise the descriptor is closed, which the second part lists.
unfoldable pub require : Bool → SetupError → ℕ → Setup × List ℕ → Setup × List ℕ
require true e fd rest = rest
require false e fd rest = (failed e, fd ∷ [])

-- `if (bound_port)`: the name of the socket is asked for only if the pointer is not null.
unfoldable pub bound_port : Bool → Option ℕ → ℕ → Setup × List ℕ
bound_port false name fd = (ready fd none, [])
bound_port true none fd = (failed no_name, fd ∷ [])
bound_port true (some port) fd = (ready fd (some port), [])

-- The membership of the group. An interface that is no address is any interface.
unfoldable pub join_group : System → Bool → List ℕ → ℕ → Setup × List ℕ → Setup × List ℕ
unfolding require
join_group sys multicast group fd rest =
    if multicast
    then require (sys.inet_pton group) bad_group fd (require sys.membership no_membership fd rest)
    else rest

-- `wants_port`: the pointer for the bound port is not null.
unfoldable pub open_at : System → List ℕ → Bool → List ℕ → Bool → Option ℕ → Setup × List ℕ
unfolding require join_group bound_port
open_at sys host multicast group wants_port none = (failed no_socket, [])
open_at sys host multicast group wants_port (some fd) = require sys.reuse no_reuse fd (
    require (multicast || sys.inet_pton host) bad_bind_address fd (
      require sys.bind no_bind fd
        (join_group sys multicast group fd (bound_port wants_port sys.getsockname fd))))

unfoldable pub open_udp_socket : System → List ℕ → Bool → List ℕ → Bool → Setup × List ℕ
unfolding open_at
open_udp_socket sys host multicast group wants_port =
    open_at sys host multicast group wants_port sys.socket

-- kBufferSize.
abbrev pub buffer_size : ℕ
buffer_size = 2048

-- The counters of RecvfromReceiver.
pub record Receiver : Type 0 where
  pub packets : ℕ
  pub syscalls : ℕ
  pub truncated : ℕ

-- What `recvfrom` answers, with the time after it: a datagram, of any length since MSG_TRUNC is
-- given, an interruption, or a failure of the socket.
pub data Answer : Type 0 where
  datagram : ℕ → List ℕ → Answer
  interrupted : Answer
  broken : Answer

abbrev pub count_call : Receiver → Receiver
count_call r = record r { syscalls = u64 (r.syscalls + 1) }

-- `run(sink)` over the answers until `stop` is seen, with a sink on a state of its own.
unfoldable pub run {ℓ} :
    {S : Type ℓ} → (PacketView → S → Option S) → List Answer → Receiver → S → Option (Receiver × S)
run sink [] r s = some (r, s)
run sink (broken ∷ answers) r s = some (count_call r, s)
run sink (interrupted ∷ answers) r s = run sink answers (count_call r) s
run sink (datagram rx_tsc bytes ∷ answers) r s = elim (ltb buffer_size (length bytes)) [
  | true ↦ run sink answers (record (count_call r) { truncated = u64 (r.truncated + 1) }) s
  | false ↦ sink (record { bytes = bytes; len = length bytes; rx_tsc = rx_tsc }) s >>= λ s'.
      run sink answers (record (count_call r) { packets = u64 (r.packets + 1) }) s'
]
