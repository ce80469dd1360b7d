-- ===== src/Replayer/Steps.antt =====
-- One message in the loop of apps/replayer/main.cc.
use nasdaq_itch_trading_syst.Base.{
  ℕ, ◌+◌, ◌^◌, ◌<◌, ◌≤◌, ◌≡◌, ◌≢◌, refl, subst, ◌∙◌, inl, inr, Bool, true, false, not, ◌&&◌, some,
  [], ◌∷◌, ◌++◌, Bool-cases, leb, ltb, ◌==◌, if◌then◌else◌, u64, arith,
}
use nasdaq_itch_trading_syst.Itch.Framing.{MessageView}
use nasdaq_itch_trading_syst.Itch.Framing.Leave.{Round}
use nasdaq_itch_trading_syst.Mold.Packer.{try_add, too_large}
use nasdaq_itch_trading_syst.Mold.Packer.Packets.{IsPacking, try_add_correct}
use nasdaq_itch_trading_syst.Replayer.{
  Options, Environment, Replayer, flush, after_flush, pack_message, replay_message,
}
use nasdaq_itch_trading_syst.Replayer.Flush.{recounted, IsReplayer, Flushes, flush-Flushes}
use nasdaq_itch_trading_syst.Replayer.State.{
  IsView, IsRunning, IsStopped, asked-IsReplayer, Steps, retry-Steps,
}

-- A full packet was flushed: the loop stops, or the message begins the next packet.
after_flush-Steps :
    (o : Options) (k : ℕ) (mv : MessageView) (r r' : Replayer)
    → Flushes o r r'
    → IsView mv
    → mv.size + 2 ≤ o.max_payload
    → r.messages_read ≡ k + 1
    → r.messages_packed + r.too_large ≡ k
    → k < 2 ^ 61
    → (o.max_packets ≢ 0 → r.packets_built < o.max_packets)
    → r.stopped_early ≡ false
    → r.refused ≡ false
    → Steps o (k + 1) (after_flush o mv r')
unfolding after_flush
after_flush-Steps o k mv r r' f view fits read sorted few limited going taken =
    elim (Bool-cases (not (o.max_packets == 0) && leb o.max_packets r'.packets_built)) [
      | inl reached ↦ rw reached (record {
        replayer = recounted o r' r'.messages_read r'.too_large true r'.refused f.replayer;
        bound = omega (arith, f.kept.read);
        sorted = omega (arith, f.kept.packed, f.kept.large, f.kept.read);
        asked = (asks o.max_packets r'.packets_built reached).0;
        limited = omega (arith, f.built, limited (asks o.max_packets r'.packets_built reached).0);
        emptied = f.emptied;
        stopped = refl;
        taken = f.kept.refused ∙ taken;
      })
      | inr below ↦ rw below (
          retry-Steps o k mv r' f.replayer f.emptied f.vacated view fits (f.kept.read ∙ read)
            (omega (arith, f.kept.packed, f.kept.large)) few
            (λ ne. room o.max_packets r'.packets_built below ne) (f.kept.stopped ∙ going)
            (f.kept.refused ∙ taken))
    ]
  where
    asks : (n built : ℕ) → (not (n == 0) && leb n built) ≡ true → (n ≢ 0) × (n ≤ built)
    asks n built e = (λ z. ground arith, ground arith)

    room : (n built : ℕ) → (not (n == 0) && leb n built) ≡ false → n ≢ 0 → built < n
    room n built e ne = ground arith

pack_message-Steps :
    (env : Environment) (o : Options) (k : ℕ) (mv : MessageView) (r : Replayer)
    → IsReplayer o r
    → IsView mv
    → mv.size + 2 ≤ o.max_payload
    → r.messages_read ≡ k + 1
    → r.messages_packed + r.too_large ≡ k
    → k < 2 ^ 61
    → (o.max_packets ≢ 0 → r.packets_built < o.max_packets)
    → r.stopped_early ≡ false
    → r.refused ≡ false
    → Steps o (k + 1) (pack_message env o mv r)
unfolding pack_message
pack_message-Steps env o k mv r h view fits read sorted few limited going taken =
    let (m, tail, bytes, size, message) = view in
    let a = try_add_correct r.packer h.held mv m tail h.packing message bytes size in
    let packed =
      λ (b : Bool). IsPacking (try_add r.packer mv).0 (if b then h.held ++ (m ∷ []) else h.held) in
    elim (Bool-cases (try_add r.packer mv).1) [
      | inl added ↦ rw added (record {
        replayer =
            asked-IsReplayer o r m mv h.held true h h.packing (subst packed added a.packing)
              (u64 (r.messages_packed + 1)) (omega arith);
        read = read;
        sorted = omega arith;
        limited = limited;
        going = going;
        taken = taken;
      })
      | inr full ↦
          let r' : Replayer = record r { packer = (try_add r.packer mv).0 } in
          let h' : IsReplayer o r' =
            asked-IsReplayer o r m mv h.held false h h.packing (subst packed full a.packing)
              r.messages_packed (omega arith) in
          rw full (
            after_flush-Steps o k mv r' (flush env o r') (flush-Flushes env o r' h' (omega arith))
              view fits read sorted few limited going taken)
    ]

Steps-Round :
    (o : Options) (k : ℕ) (run : Replayer × Bool)
    → Steps o k run
    → Round (IsRunning o) (IsStopped o) k (some run)
Steps-Round o k (r, true) h = inl (r, refl, h)
Steps-Round o k (r, false) h = inr (r, refl, h)

-- One message: it is counted as too large, or it is packed, or the loop stops.
pub replay_message-Round :
    (env : Environment) (o : Options) (k : ℕ) (mv : MessageView) (r : Replayer)
    → IsView mv
    → k < 2 ^ 61
    → IsRunning o k r
    → Round (IsRunning o) (IsStopped o) (k + 1) (replay_message env o mv r)
unfolding replay_message too_large
replay_message-Round env o k mv r view few h =
    let (m, tail, bytes, size, message) = view in
    let read : u64 (r.messages_read + 1) ≡ k + 1 = omega (arith, h.read) in
    let begun : Replayer = record r { messages_read = u64 (r.messages_read + 1) } in
    let replayer : IsReplayer o begun =
      recounted o r (u64 (r.messages_read + 1)) r.too_large r.stopped_early r.refused h.replayer in
    Steps-Round o (k + 1) _ (elim (Bool-cases (ltb r.packer.max_payload (u64 (2 + mv.size)))) [
      | inl large ↦ rw large (record {
        replayer =
            recounted o r (u64 (r.messages_read + 1)) (u64 (r.too_large + 1)) r.stopped_early
              r.refused h.replayer;
        read = read;
        sorted = omega (arith, h.sorted);
        limited = h.limited;
        going = h.going;
        taken = h.taken;
      })
      | inr fits ↦ rw fits (
          pack_message-Steps env o k mv begun replayer view
            (omega (arith, h.replayer.payload, within _ _ fits, size, message.1)) read h.sorted few
            h.limited h.going h.taken)
    ])
  where
    within : (n m : ℕ) → ltb n m ≡ false → m ≤ n
    within n m e = ground arith
