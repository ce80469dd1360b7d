-- ===== src/Receive/Errors.antt =====
-- The failures of `open_udp_socket` in src/receive/socket_setup.cc.
use nasdaq_itch_trading_syst.Base.{
  ℕ, ◌≡◌, ◌⊎◌, refl, sym, ap, subst, inl, inr, Bool, true, false, ◌&&◌, ◌||◌, Option, none, some,
  List, [], ◌∷◌, Option-cases, if◌then◌else◌,
}
use nasdaq_itch_trading_syst.Receive.{
  SetupError, no_socket, no_reuse, bad_bind_address, no_bind, bad_group, no_membership, no_name,
  Setup, ready, failed, System, require, bound_port, join_group, open_at, open_udp_socket,
}

-- The socket is ready and open, which needs every check, and the port if it is wanted; or it was
-- closed, and a check has failed or the wanted port could not be had.
abbrev pub Opens : Bool → Option ℕ → ℕ → Bool → Setup × List ℕ → Type 0
Opens wants_port name fd checks result =
    ((checks ≡ true)
      × ((wants_port ≡ true) → (port : ℕ) × (name ≡ some port))
      × (result ≡ (ready fd (if wants_port then name else none), [])))
    ⊎ ((e : SetupError) × (result ≡ (failed e, fd ∷ []))
        × ((checks ≡ false) ⊎ ((wants_port ≡ true) × (name ≡ none))))

module _ (wants_port : Bool) (name : Option ℕ) where
  require-Opens :
      (ok : Bool) (e : SetupError) (fd : ℕ) (checks : Bool) (rest : Setup × List ℕ)
      → Opens wants_port name fd checks rest
      → Opens wants_port name fd (ok && checks) (require ok e fd rest)
  unfolding require
  require-Opens true e fd checks rest h = h
  require-Opens false e fd checks rest h = inr (e, refl, inl refl)

bound_port-Opens :
    (wants_port : Bool) (name : Option ℕ) (fd : ℕ)
    → Opens wants_port name fd true (bound_port wants_port name fd)
unfolding bound_port
bound_port-Opens false name fd = inl (refl, λ wanted. cc, refl)
bound_port-Opens true none fd = inr (no_name, refl, inr (refl, refl))
bound_port-Opens true (some port) fd = inl (refl, λ wanted. (port, refl), refl)

-- All checks but the last.
abbrev pub checks : System → List ℕ → Bool → List ℕ → Bool
checks sys host multicast group =
    sys.reuse
    && ((multicast || sys.inet_pton host)
        && (sys.bind
            && (if multicast then sys.inet_pton group && (sys.membership && true) else true)))

join_group-Opens :
    (wants_port : Bool) (sys : System) (multicast : Bool) (group : List ℕ) (fd : ℕ)
    (rest : Setup × List ℕ)
    → Opens wants_port sys.getsockname fd true rest
    → Opens wants_port sys.getsockname fd
        (if multicast then sys.inet_pton group && (sys.membership && true) else true)
        (join_group sys multicast group fd rest)
unfolding join_group
join_group-Opens wants_port sys true group fd rest h =
    require-Opens wants_port sys.getsockname (sys.inet_pton group) bad_group fd
      (sys.membership && true) _
      (require-Opens wants_port sys.getsockname sys.membership no_membership fd true rest h)
join_group-Opens wants_port sys false group fd rest h = h

-- If the socket cannot be opened, the function throws and closes nothing. Otherwise it either
-- returns the open descriptor, with the bound port exactly if the caller gave a pointer for it,
-- having closed nothing, and then every call that it depends on has succeeded, or it throws,
-- since one of them has failed, and has closed exactly that descriptor; without a pointer it does
-- not depend on `getsockname`.
pub open_udp_socket_correct :
    (sys : System) (host : List ℕ) (multicast : Bool) (group : List ℕ) (wants_port : Bool)
    → ((sys.socket ≡ none)
        × (open_udp_socket sys host multicast group wants_port ≡ (failed no_socket, [])))
      ⊎ ((fd : ℕ) × (sys.socket ≡ some fd)
          × Opens wants_port sys.getsockname fd
              (checks sys host multicast group)
              (open_udp_socket sys host multicast group wants_port))
unfolding open_udp_socket open_at
open_udp_socket_correct sys host multicast group wants_port = elim (Option-cases sys.socket) [
  | inl e ↦ inl (e, ap (open_at sys host multicast group wants_port) e)
  | inr (fd, e) ↦
      let needs = require-Opens wants_port sys.getsockname in
      inr (
        fd,
        e,
        subst
            (λ (o : Option ℕ).
              Opens wants_port sys.getsockname fd (checks sys host multicast group)
                (open_at sys host multicast group wants_port o))
            (sym e)
            (needs sys.reuse no_reuse fd _ _ (
              needs (multicast || sys.inet_pton host) bad_bind_address fd _ _ (
                needs sys.bind no_bind fd _ _ (
                  join_group-Opens wants_port sys multicast group fd _
                    (bound_port-Opens wants_port sys.getsockname fd))))),
      )
]
