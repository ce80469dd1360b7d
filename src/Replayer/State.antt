-- ===== src/Replayer/State.antt =====
-- The state of the loop of apps/replayer/main.cc between two messages.
use nasdaq_itch_trading_syst.Base.{
  ℕ, ◌+◌, ◌^◌, ◌<◌, ◌≤◌, ◌≡◌, ◌≢◌, refl, subst, ◌∙◌, inl, inr, Bool, true, false, List, [], ◌∷◌,
  ◌++◌, All, length, length-append, Bool-cases, if◌then◌else◌, u64, arith,
}
use nasdaq_itch_trading_syst.Itch.Framing.{MessageView}
use nasdaq_itch_trading_syst.Itch.Framing.Stream.{frames, views, IsMessage}
use nasdaq_itch_trading_syst.Mold.Packer.{Packer, try_add, is_full}
use nasdaq_itch_trading_syst.Mold.Packer.Packets.{IsPacking, try_add_correct}
use nasdaq_itch_trading_syst.Replayer.{Options, Replayer, retry}
use nasdaq_itch_trading_syst.Replayer.Flush.{IsReplayer}

-- The view of a message that a prefix can describe.
abbrev pub IsView : MessageView → Type 0
IsView v =
    (m : List ℕ) × (tail : List ℕ) × (v.bytes ≡ m ++ tail) × (v.size ≡ length m) × IsMessage m

pub views-IsView :
    (ms : List (List ℕ)) (rest : List ℕ) → All IsMessage ms → All IsView (views ms rest)
views-IsView [] rest h = tt
views-IsView (m ∷ ms) rest h = ((m, frames ms ++ rest, refl, refl, h.0), views-IsView ms rest h.1)

-- Between two messages, `k` of which were read.
pub record IsRunning (o : Options) (k : ℕ) (r : Replayer) : Type 0 where
  pub replayer : IsReplayer o r
  pub read : r.messages_read ≡ k
  pub sorted : r.messages_packed + r.too_large ≡ k
  pub limited : o.max_packets ≢ 0 → r.packets_built < o.max_packets
  pub going : r.stopped_early ≡ false
  pub taken : r.refused ≡ false

-- After the loop was left, since the packets were as many as were asked for.
pub record IsStopped (o : Options) (r : Replayer) : Type 0 where
  pub replayer : IsReplayer o r
  pub bound : r.messages_read < 2 ^ 62
  pub sorted : r.messages_packed + r.too_large + 1 ≡ r.messages_read
  pub asked : o.max_packets ≢ 0
  pub limited : r.packets_built ≤ o.max_packets
  pub emptied : r.packer.count ≡ 0
  pub stopped : r.stopped_early ≡ true
  pub taken : r.refused ≡ false

try_add-same :
    (p : Packer) (v : MessageView)
    → ((try_add p v).0.sequence ≡ p.sequence) × ((try_add p v).0.max_payload ≡ p.max_payload)
unfolding try_add
try_add-same p v = elim (Bool-cases (is_full p v)) [
  | inl full ↦ rw full (refl, refl)
  | inr roomy ↦ rw roomy (refl, refl)
]

-- The replayer once its packer has been asked to take a message.
pub asked-IsReplayer :
    (o : Options) (r : Replayer) (m : List ℕ) (v : MessageView) (held : List (List ℕ))
    (added : Bool)
    → IsReplayer o r
    → IsPacking r.packer held
    → IsPacking (try_add r.packer v).0 (if added then held ++ (m ∷ []) else held)
    → (packed : ℕ) → packed ≡ r.messages_packed + (if added then 1 else 0)
    → IsReplayer o (record r { packer = (try_add r.packer v).0; messages_packed = packed })
asked-IsReplayer o r m v held true h k k' packed e =
    let same = try_add-same r.packer v in
    record {
      held = held ++ (m ∷ []);
      packing = k';
      payload = same.1 ∙ h.payload;
      numbers = omega (arith, h.numbers, same.0, k.count, k'.count, e, length-append held (m ∷ []));
      some_each = omega (arith, h.some_each, same.0);
      sent = h.sent;
      dropped = h.dropped;
      logged = h.logged;
    }
asked-IsReplayer o r m v held false h k k' packed e =
    let same = try_add-same r.packer v in
    record {
      held = held;
      packing = k';
      payload = same.1 ∙ h.payload;
      numbers = omega (arith, h.numbers, same.0, k.count, k'.count, e);
      some_each = omega (arith, h.some_each, same.0);
      sent = h.sent;
      dropped = h.dropped;
      logged = h.logged;
    }

-- What a step of the loop has done with a message, as a pair.
abbrev pub Steps : Options → ℕ → Replayer × Bool → Type 0
Steps o k (r, true) = IsRunning o k r
Steps o k (r, false) = IsStopped o r

-- An empty packer takes a message that is not too large.
pub retry-Steps :
    (o : Options) (k : ℕ) (mv : MessageView) (r : Replayer)
    → IsReplayer o r
    → r.packer.count ≡ 0
    → r.packer.body ≡ 0
    → IsView mv
    → mv.size + 2 ≤ o.max_payload
    → r.messages_read ≡ k + 1
    → r.messages_packed + r.too_large ≡ k
    → k < 2 ^ 61
    → (o.max_packets ≢ 0 → r.packets_built < o.max_packets)
    → r.stopped_early ≡ false
    → r.refused ≡ false
    → Steps o (k + 1) (retry mv r)
unfolding retry
retry-Steps o k mv r h none_held no_body (m, tail, bytes, size, message) fits read sorted few
      limited going taken =
    let a = try_add_correct r.packer h.held mv m tail h.packing message bytes size in
    let yes_added : (try_add r.packer mv).1 ≡ true =
      a.answer.1 (omega (arith, no_body, size, h.payload), omega (arith, none_held)) in
    let packing : IsPacking (try_add r.packer mv).0 (h.held ++ (m ∷ [])) =
      subst
        (λ (b : Bool). IsPacking (try_add r.packer mv).0 (if b then h.held ++ (m ∷ []) else h.held))
        yes_added a.packing in
    rw yes_added (record {
      replayer =
          asked-IsReplayer o r m mv h.held true h h.packing packing (u64 (r.messages_packed + 1))
            (omega arith);
      read = read;
      sorted = omega arith;
      limited = limited;
      going = going;
      taken = taken;
    })
