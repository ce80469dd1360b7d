-- ===== src/Mold/UdpSender/Errors.antt =====
-- The failures of src/mold/udp_sender.cc.
use nasdaq_itch_trading_syst.Base.{
  ℕ, ◌≡◌, ◌≢◌, ==_iff, ◌⊎◌, refl, ap, sym, subst, inl, inr, Bool, true, false, Option, none, some,
  List, [], ◌∷◌, ◌==◌, Bool-cases, Option-cases, if◌then◌else◌, arith,
}
use nasdaq_itch_trading_syst.Mold.UdpSender.{
  multicast_ttl, multicast_loop, multicast_if, send_buffer_size, System, no_socket, bad_address,
  bad_interface, multicast_refused, buffer_refused, Opening, opened, failed, set_buffer,
  set_multicast, open_at, udp_sender,
}

-- The calls for a multicast socket have succeeded.
abbrev pub Joins : System → List ℕ → Type 0
Joins sys interface =
    (sys.inet_pton interface ≡ true)
    × (sys.setsockopt multicast_ttl ≡ true)
    × (sys.setsockopt multicast_loop ≡ true)
    × (sys.setsockopt multicast_if ≡ true)

-- How the constructor may end, by the calls that succeeded or failed: the descriptor is held by the
-- sender, or it was closed.
abbrev pub Accounts : System → List ℕ → Bool → List ℕ → ℕ → ℕ → Opening × List ℕ → Type 0
Accounts sys host multicast interface size fd (opened s, closed) =
    (s ≡ record {
      fd = fd;
      packets = 0;
      bytes = 0;
      failures = 0;
      effective_send_buffer = sys.granted;
    })
    × (closed ≡ [])
    × (sys.inet_pton host ≡ true)
    × (multicast ≡ true → Joins sys interface)
    × (size ≢ 0 → sys.setsockopt send_buffer_size ≡ true)
Accounts sys host multicast interface size fd (failed no_socket, closed) = ⊥
Accounts sys host multicast interface size fd (failed bad_address, closed) =
    (closed ≡ fd ∷ []) × (sys.inet_pton host ≡ false)
Accounts sys host multicast interface size fd (failed bad_interface, closed) =
    (closed ≡ fd ∷ []) × (multicast ≡ true) × (sys.inet_pton interface ≡ false)
Accounts sys host multicast interface size fd (failed multicast_refused, closed) =
    (closed ≡ fd ∷ [])
    × (multicast ≡ true)
    × ((sys.setsockopt multicast_ttl ≡ false)
        ⊎ ((sys.setsockopt multicast_loop ≡ false) ⊎ (sys.setsockopt multicast_if ≡ false)))
Accounts sys host multicast interface size fd (failed buffer_refused, closed) =
    (closed ≡ fd ∷ []) × (size ≢ 0) × (sys.setsockopt send_buffer_size ≡ false)

module _ (sys : System) (host : List ℕ) (interface : List ℕ) (size fd : ℕ) where
  set_buffer_lem :
      (multicast : Bool)
      → sys.inet_pton host ≡ true
      → (multicast ≡ true → Joins sys interface)
      → Accounts sys host multicast interface size fd (set_buffer sys size fd)
  unfolding set_buffer
  set_buffer_lem multicast named joins = elim (Bool-cases (size == 0)) [
    | inl unset ↦ rw unset (refl, refl, named, joins, λ ne. absurd (ne ((==_iff size 0).0 unset)))
    | inr asked ↦ elim (Bool-cases (sys.setsockopt send_buffer_size)) [
      | inl set ↦ rw (asked, set) (refl, refl, named, joins, λ ne. set)
      | inr refused ↦ rw (asked, refused) (refl, λ z. ground arith, refused)
    ]
  ]

  set_multicast_lem :
      sys.inet_pton host ≡ true
      → Accounts sys host true interface size fd (set_multicast sys interface size fd)
  unfolding set_multicast
  set_multicast_lem named = elim (Bool-cases (sys.inet_pton interface)) [
    | inr bad ↦ rw bad (refl, refl, bad)
    | inl good ↦ elim (Bool-cases (sys.setsockopt multicast_ttl)) [
      | inr no_ttl ↦ rw (good, no_ttl) (refl, refl, inl no_ttl)
      | inl ttl ↦ elim (Bool-cases (sys.setsockopt multicast_loop)) [
        | inr no_loop ↦ rw (good, ttl, no_loop) (refl, refl, inr (inl no_loop))
        | inl loop ↦ elim (Bool-cases (sys.setsockopt multicast_if)) [
          | inr no_if ↦ rw (good, ttl, loop, no_if) (refl, refl, inr (inr no_if))
          | inl joined ↦
              rw (good, ttl, loop, joined)
                (set_buffer_lem true named (λ z. (good, ttl, loop, joined)))
        ]
      ]
    ]
  ]

-- If the socket cannot be opened the constructor throws and closes nothing. Otherwise it returns
-- a sender that holds the descriptor, has counted nothing, and for which every call that was
-- asked for has succeeded, and nothing is closed; or it throws the error of a call that did fail,
-- and has closed exactly that descriptor.
pub udp_sender_correct :
    (sys : System) (host : List ℕ) (multicast : Bool) (interface : List ℕ) (size : ℕ)
    → ((sys.socket ≡ none)
        × (udp_sender sys host multicast interface size ≡ (failed no_socket, [])))
      ⊎ ((fd : ℕ) × (sys.socket ≡ some fd)
          × Accounts sys host multicast interface size fd
              (udp_sender sys host multicast interface size))
unfolding udp_sender open_at
udp_sender_correct sys host multicast interface size = elim (Option-cases sys.socket) [
  | inl e ↦ inl (e, ap (open_at sys host multicast interface size) e)
  | inr (fd, e) ↦ inr (
    fd,
    e,
    subst
        (λ (o : Option ℕ).
          Accounts sys host multicast interface size fd
            (open_at sys host multicast interface size o))
        (sym e)
        (elim (Bool-cases (sys.inet_pton host)) [
          | inr bad ↦ rw bad (refl, bad)
          | inl good ↦ rw good (by_mode multicast fd good)
        ]),
  )
]
  where
    by_mode :
        (multicast : Bool) (fd : ℕ)
        → sys.inet_pton host ≡ true
        → Accounts sys host multicast interface size fd
            (if multicast then set_multicast sys interface size fd else set_buffer sys size fd)
    by_mode true fd good = set_multicast_lem sys host interface size fd good
    by_mode false fd good = set_buffer_lem sys host interface size fd false good (λ z. absurd cc)
