-- ===== src/Replayer/Flush.antt =====
-- What the lambda `flush` of apps/replayer/main.cc keeps: every message is in a packet or in the
-- packer, and every packet was dropped or handed to the sender.
use nasdaq_itch_trading_syst.Base.{
  ℕ, ◌+◌, ◌^◌, ◌<◌, ◌≤◌, ◌≡◌, refl, subst, sym, ap, ◌∙◌, inl, inr, Bool, true, false, Option, none,
  some, List, [], ◌∷◌, length, length-append, Bool-cases, ◌==◌, ==_iff, if◌then◌else◌, u64, arith,
}
use nasdaq_itch_trading_syst.Mold.Packer.{Packer, empty, finish}
use nasdaq_itch_trading_syst.Mold.Packer.Packets.{IsPacking, finish_correct}
use nasdaq_itch_trading_syst.Mold.GapInjector.{should_drop}
use nasdaq_itch_trading_syst.Mold.UdpSender.{UdpSender, send}
use nasdaq_itch_trading_syst.Replayer.{
  Options, Environment, ScheduleEntry, Replayer, send_packet, drop_or_send, log_packet, dispose,
  flush_full, flush,
}

-- The calls of `sendto`.
abbrev pub calls : UdpSender → ℕ
calls s = s.packets + s.failures

calls-send :
    (s : UdpSender) (packet : List ℕ) (sent : Option ℕ)
    → calls s < 2 ^ 63
    → calls (send s packet sent).0 ≡ calls s + 1
unfolding send
calls-send s packet none few = omega arith
calls-send s packet (some n) few = elim (Bool-cases (n == length packet)) [
  | inl whole ↦ rw whole (omega arith)
  | inr part ↦ rw part (omega arith)
]

pub calls-send_packet :
    (env : Environment) (packet : List ℕ) (s : UdpSender)
    → calls s < 2 ^ 63
    → calls (send_packet env packet s) ≡ calls s + 1
unfolding send_packet
calls-send_packet env packet s few = calls-send s packet _ few

-- Every message that was packed is in a packet that was built or in the packer, and every packet
-- was dropped or handed to `sendto`, and logged if there is a log.
pub record IsReplayer (o : Options) (r : Replayer) : Type 0 where
  pub held : List (List ℕ)
  pub packing : IsPacking r.packer held
  pub payload : r.packer.max_payload ≡ o.max_payload
  pub numbers : r.packer.sequence + r.packer.count ≡ 1 + r.messages_packed
  pub some_each : r.packets_built + 1 ≤ r.packer.sequence
  pub sent : r.packets_dropped + calls r.sender ≡ r.packets_built
  pub dropped : length r.drops ≡ r.packets_dropped
  pub logged : length r.schedule ≡ (if o.schedule_log then r.packets_built else 0)

-- It does not depend on the counters of messages that were read or too large, or on the flags.
pub recounted :
    (o : Options) (r : Replayer) (read large : ℕ) (stopped refused : Bool)
    → IsReplayer o r
    → IsReplayer o (record r {
      messages_read = read;
      too_large = large;
      stopped_early = stopped;
      refused = refused;
    })
recounted o r read large stopped refused h = record {
  held = h.held;
  packing = h.packing;
  payload = h.payload;
  numbers = h.numbers;
  some_each = h.some_each;
  sent = h.sent;
  dropped = h.dropped;
  logged = h.logged;
}

-- The counters of messages and the flags are left alone.
pub record IsKept (r r' : Replayer) : Type 0 where
  pub read : r'.messages_read ≡ r.messages_read
  pub packed : r'.messages_packed ≡ r.messages_packed
  pub large : r'.too_large ≡ r.too_large
  pub stopped : r'.stopped_early ≡ r.stopped_early
  pub refused : r'.refused ≡ r.refused

-- After a flush the packer is empty, and at most one packet more was built.
pub record Flushes (o : Options) (r r' : Replayer) : Type 0 where
  pub replayer : IsReplayer o r'
  pub kept : IsKept r r'
  pub emptied : r'.packer.count ≡ 0
  pub vacated : r'.packer.body ≡ 0
  pub built : r'.packets_built ≤ r.packets_built + 1
  pub idle : r.packer.count ≡ 0 → r'.packets_built ≡ r.packets_built

module _ (env : Environment) (o : Options) (packet : List ℕ) (sequence count index : ℕ) where
  -- What dropping or sending does to the counters of packets.
  record Disposes (r r' : Replayer) : Type 0 where
    kept : IsKept r r'
    packer : r'.packer ≡ r.packer
    built : r'.packets_built ≡ r.packets_built
    logged : r'.schedule ≡ r.schedule
    sent : r'.packets_dropped + calls r'.sender ≡ r.packets_dropped + calls r.sender + 1
    drops : length r'.drops + r.packets_dropped ≡ length r.drops + r'.packets_dropped

  drop_or_send-Disposes :
      (r : Replayer) (drop : Bool)
      → r.packets_dropped + calls r.sender < 2 ^ 63
      → Disposes r (drop_or_send env packet sequence count index drop r)
  unfolding drop_or_send
  drop_or_send-Disposes r true few = record {
    kept = record { read = refl; packed = refl; large = refl; stopped = refl; refused = refl };
    packer = refl;
    built = refl;
    logged = refl;
    sent = omega arith;
    drops = omega (
      arith,
      length-append r.drops (record { first = sequence; count = count; packet_index = index } ∷ []),
    );
  }
  drop_or_send-Disposes r false few = record {
    kept = record { read = refl; packed = refl; large = refl; stopped = refl; refused = refl };
    packer = refl;
    built = refl;
    logged = refl;
    sent = omega (arith, calls-send_packet env packet r.sender (omega arith));
    drops = refl;
  }

-- Logging touches the schedule alone.
record Logs (logs : Bool) (r r' : Replayer) : Type 0 where
  kept : IsKept r r'
  packer : r'.packer ≡ r.packer
  built : r'.packets_built ≡ r.packets_built
  sender : r'.sender ≡ r.sender
  dropped : r'.packets_dropped ≡ r.packets_dropped
  drops : r'.drops ≡ r.drops
  schedule : length r'.schedule ≡ length r.schedule + (if logs then 1 else 0)

log_packet-Logs :
    (logs : Bool) (entry : ScheduleEntry) (r : Replayer) → Logs logs r (log_packet logs entry r)
unfolding log_packet
log_packet-Logs true entry r = record {
  kept = record { read = refl; packed = refl; large = refl; stopped = refl; refused = refl };
  packer = refl;
  built = refl;
  sender = refl;
  dropped = refl;
  drops = refl;
  schedule = length-append r.schedule (entry ∷ []);
}
log_packet-Logs false entry r = record {
  kept = record { read = refl; packed = refl; large = refl; stopped = refl; refused = refl };
  packer = refl;
  built = refl;
  sender = refl;
  dropped = refl;
  drops = refl;
  schedule = omega arith;
}

IsKept-trans : (r r' r'' : Replayer) → IsKept r r' → IsKept r' r'' → IsKept r r''
IsKept-trans r r' r'' h h' = record {
  read = h'.read ∙ h.read;
  packed = h'.packed ∙ h.packed;
  large = h'.large ∙ h.large;
  stopped = h'.stopped ∙ h.stopped;
  refused = h'.refused ∙ h.refused;
}

-- What becomes of a packet: one more was dropped or handed to `sendto`, and one more was logged.
record Disposed (logs : Bool) (r r' : Replayer) : Type 0 where
  kept : IsKept r r'
  packer : r'.packer ≡ r.packer
  built : r'.packets_built ≡ r.packets_built
  sent : r'.packets_dropped + calls r'.sender ≡ r.packets_dropped + calls r.sender + 1
  drops : length r'.drops + r.packets_dropped ≡ length r.drops + r'.packets_dropped
  schedule : length r'.schedule ≡ length r.schedule + (if logs then 1 else 0)

dispose-Disposed :
    (env : Environment) (o : Options) (packet : List ℕ) (sequence count index : ℕ) (drop : Bool)
    (r : Replayer)
    → r.packets_dropped + calls r.sender < 2 ^ 63
    → Disposed o.schedule_log r (dispose env o packet sequence count index drop r)
unfolding dispose
dispose-Disposed env o packet sequence count index drop r few =
    let entry : ScheduleEntry = record {
      sequence = sequence;
      count = count;
      scheduled_ns = env.wait index;
      actual_ns = env.now_ns index;
      dropped = drop;
    } in
    let r1 = drop_or_send env packet sequence count index drop r in
    let d = drop_or_send-Disposes env o packet sequence count index r drop few in
    let l = log_packet-Logs o.schedule_log entry r1 in
    record {
      kept = IsKept-trans r r1 _ d.kept l.kept;
      packer = l.packer ∙ d.packer;
      built = l.built ∙ d.built;
      sent = omega (arith, l.dropped, ap calls l.sender, d.sent);
      drops = omega (arith, ap length l.drops, l.dropped, d.drops);
      schedule =
          l.schedule
          ∙ ap (λ (xs : List ScheduleEntry). length xs + (if o.schedule_log then 1 else 0))
              d.logged;
    }

logs_one_more :
    (b : Bool) (n n' built built' : ℕ)
    → n ≡ (if b then built else 0)
    → n' ≡ n + (if b then 1 else 0)
    → built' ≡ built + 1
    → n' ≡ (if b then built' else 0)
logs_one_more true n n' built built' e e' e'' = omega arith
logs_one_more false n n' built built' e e' e'' = omega arith

flush_full-Flushes :
    (env : Environment) (o : Options) (r : Replayer)
    → IsReplayer o r
    → r.messages_packed < 2 ^ 62
    → 0 < r.packer.count
    → Flushes o r (flush_full env o r)
unfolding flush_full finish
flush_full-Flushes env o r v few full =
    let p = r.packer in
    let (decodes, split, packing, next) = finish_correct p v.held v.packing in
    let index = r.packets_built in
    let built : Replayer = record r {
      packer = (finish p).0;
      packets_built = u64 (index + 1);
      gaps = (should_drop r.gaps index).0;
    } in
    let numbers = v.numbers in
    let some_each = v.some_each in
    let count : p.count ≡ length v.held = v.packing.count in
    let sent = v.sent in
    let r' =
      dispose env o (finish p).1 p.sequence p.count index (should_drop r.gaps index).1 built in
    let d =
      dispose-Disposed env o (finish p).1 p.sequence p.count index (should_drop r.gaps index).1
        built (omega arith) in
    let sequence : r'.packer.sequence ≡ p.sequence + p.count =
      ap (λ (q : Packer). q.sequence) d.packer ∙ omega arith in
    let emptied : r'.packer.count ≡ 0 = ap (λ (q : Packer). q.count) d.packer in
    let one_more : r'.packets_built ≡ index + 1 = d.built ∙ omega arith in
    record {
      replayer = record {
        held = [];
        packing = subst (λ (q : Packer). IsPacking q []) (sym d.packer) packing;
        payload = ap (λ (q : Packer). q.max_payload) d.packer ∙ v.payload;
        numbers = omega (arith, sequence, emptied, d.kept.packed);
        some_each = omega (arith, sequence, one_more);
        sent = omega (arith, d.sent, one_more);
        dropped = omega (arith, d.drops, v.dropped);
        logged =
            logs_one_more o.schedule_log (length r.schedule) (length r'.schedule) index
              r'.packets_built v.logged d.schedule one_more;
      };
      kept = record {
        read = d.kept.read;
        packed = d.kept.packed;
        large = d.kept.large;
        stopped = d.kept.stopped;
        refused = d.kept.refused;
      };
      emptied = emptied;
      vacated = ap (λ (q : Packer). q.body) d.packer;
      built = omega (arith, one_more);
      idle = λ z. absurd (omega (arith, z));
    }

pub flush-Flushes :
    (env : Environment) (o : Options) (r : Replayer)
    → IsReplayer o r
    → r.messages_packed < 2 ^ 62
    → Flushes o r (flush env o r)
unfolding flush empty
flush-Flushes env o r v few = elim (Bool-cases (r.packer.count == 0)) [
  | inr full ↦ stay_or_go _ full (flush_full-Flushes env o r v few (ground arith))
  | inl none_held ↦ go_or_stay _ none_held (still ((==_iff r.packer.count 0).0 none_held))
]
  where
    stay_or_go :
        (b : Bool)
        → b ≡ false
        → Flushes o r (flush_full env o r)
        → Flushes o r (if b then r else flush_full env o r)
    stay_or_go true e h = absurd cc
    stay_or_go false e h = h

    go_or_stay :
        (b : Bool) → b ≡ true → Flushes o r r → Flushes o r (if b then r else flush_full env o r)
    go_or_stay true e h = h
    go_or_stay false e h = absurd cc

    empty_body :
        (ms : List (List ℕ)) → IsPacking r.packer ms → r.packer.count ≡ 0 → r.packer.body ≡ 0
    empty_body [] h e = omega (arith, h.body, ap length h.written)
    empty_body (m ∷ ms) h e = absurd (omega (arith, h.count))

    still : r.packer.count ≡ 0 → Flushes o r r
    still e = record {
      replayer = v;
      kept = record { read = refl; packed = refl; large = refl; stopped = refl; refused = refl };
      emptied = e;
      vacated = empty_body v.held v.packing e;
      built = omega arith;
      idle = λ z. refl;
    }
