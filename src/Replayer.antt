-- ===== src/Replayer.antt =====
-- The replayer, apps/replayer/main.cc: the loop that packs a file into packets, drops some of them
-- and sends the others. The clock of the rate limiter and the results of `sendto` are parameters.
pub mod Flush
pub mod State
pub mod Steps
pub mod Loop
mod Examples
use nasdaq_itch_trading_syst.Base.{
  ℕ, suc, ◌+◌, Bool, true, false, not, ◌&&◌, Option, some, List, [], ◌∷◌, ◌++◌, length, leb, ◌==◌,
  if◌then◌else◌, ◌>>=◌, u64, sub_u64,
}
use nasdaq_itch_trading_syst.Itch.Framing.{MessageView, framer, walk_while}
use nasdaq_itch_trading_syst.Mold.Packet.{make_session}
use nasdaq_itch_trading_syst.Mold.Packer.{
  Packer, packer, try_add, finish, end_of_session, too_large, empty,
}
use nasdaq_itch_trading_syst.Mold.GapInjector.{
  GapInjector, no_gaps, every_nth, with_probability, should_drop,
}
use nasdaq_itch_trading_syst.Mold.UdpSender.{UdpSender, send}

-- What the loop reads of the options; `threshold` stands for the probability of a drop, as in the
-- gap injector, and `schedule_log` says whether a name was given.
pub record Options : Type 0 where
  pub session : List ℕ
  pub max_payload : ℕ
  pub drop_every : ℕ
  pub threshold : ℕ
  pub seed : ℕ
  pub max_packets : ℕ
  pub schedule_log : Bool

-- By the index of a packet: the time at which `wait` says that it was due, and the time after it
-- was sent. By the number of the calls before it: what `sendto` returns, none for an error.
pub record Environment : Type 0 where
  pub wait : ℕ → ℕ
  pub now_ns : ℕ → ℕ
  pub sendto : ℕ → List ℕ → Option ℕ

pub record ScheduleEntry : Type 0 where
  pub sequence : ℕ
  pub count : ℕ
  pub scheduled_ns : ℕ
  pub actual_ns : ℕ
  pub dropped : Bool

pub record DropEntry : Type 0 where
  pub first : ℕ
  pub count : ℕ
  pub packet_index : ℕ

-- The locals of `main`.
pub record Replayer : Type 0 where
  pub sender : UdpSender
  pub packer : Packer
  pub gaps : GapInjector
  pub schedule : List ScheduleEntry
  pub drops : List DropEntry
  pub messages_read : ℕ
  pub messages_packed : ℕ
  pub packets_built : ℕ
  pub packets_dropped : ℕ
  pub too_large : ℕ
  pub stopped_early : Bool
  pub refused : Bool

unfoldable pub make_gaps : Options → GapInjector
unfolding no_gaps every_nth with_probability
make_gaps o =
    if not (o.drop_every == 0)
    then every_nth o.drop_every
    else if not (o.threshold == 0)
    then with_probability o.threshold o.seed
    else no_gaps

unfoldable pub new_replayer : Options → UdpSender → Replayer
unfolding packer make_session make_gaps
new_replayer o sender = record {
  sender = sender;
  packer = packer (make_session o.session) 1 o.max_payload;
  gaps = make_gaps o;
  schedule = [];
  drops = [];
  messages_read = 0;
  messages_packed = 0;
  packets_built = 0;
  packets_dropped = 0;
  too_large = 0;
  stopped_early = false;
  refused = false;
}

-- `sender.send(pkt)`, whose answer is not read.
unfoldable pub send_packet : Environment → List ℕ → UdpSender → UdpSender
unfolding send
send_packet env packet s = (send s packet (env.sendto (s.packets + s.failures) packet)).0

-- A finished packet is dropped or sent.
unfoldable pub drop_or_send : Environment → List ℕ → ℕ → ℕ → ℕ → Bool → Replayer → Replayer
unfolding send_packet
drop_or_send env packet sequence count index true r = record r {
  packets_dropped = u64 (r.packets_dropped + 1);
  drops = r.drops ++ (record { first = sequence; count = count; packet_index = index } ∷ []);
}
drop_or_send env packet sequence count index false r = record r {
  sender = send_packet env packet r.sender;
}

-- `if (!o.schedule_log.empty()) schedule.push_back(...)`.
unfoldable pub log_packet : Bool → ScheduleEntry → Replayer → Replayer
log_packet true entry r = record r { schedule = r.schedule ++ (entry ∷ []) }
log_packet false entry r = r

-- The end of `flush`: what becomes of the packet that was numbered `index`.
unfoldable pub dispose : Environment → Options → List ℕ → ℕ → ℕ → ℕ → Bool → Replayer → Replayer
unfolding drop_or_send log_packet
dispose env o packet sequence count index drop r =
    log_packet o.schedule_log
      (record {
        sequence = sequence;
        count = count;
        scheduled_ns = env.wait index;
        actual_ns = env.now_ns index;
        dropped = drop;
      })
      (drop_or_send env packet sequence count index drop r)

-- `flush` of a packer that holds messages.
unfoldable pub flush_full : Environment → Options → Replayer → Replayer
unfolding finish should_drop dispose
flush_full env o r =
    let p = r.packer in
    let finished = finish p in
    let index = r.packets_built in
    let asked = should_drop r.gaps index in
    dispose env o finished.1 p.sequence p.count index asked.1
      (record r { packer = finished.0; packets_built = u64 (index + 1); gaps = asked.0 })

-- The lambda `flush`.
unfoldable pub flush : Environment → Options → Replayer → Replayer
unfolding empty flush_full
flush env o r = if empty r.packer then r else flush_full env o r

-- The second `try_add`, after the flush.
unfoldable pub retry : MessageView → Replayer → Replayer × Bool
unfolding try_add
retry mv r =
    let added = try_add r.packer mv in
    if added.1
    then (record r { packer = added.0; messages_packed = u64 (r.messages_packed + 1) }, true)
    else (record r { packer = added.0; refused = true }, false)

-- What follows the flush of a full packet.
unfoldable pub after_flush : Options → MessageView → Replayer → Replayer × Bool
unfolding retry
after_flush o mv r =
    if not (o.max_packets == 0) && leb o.max_packets r.packets_built
    then (record r { stopped_early = true }, false)
    else retry mv r

-- A message that is not too large.
unfoldable pub pack_message : Environment → Options → MessageView → Replayer → Replayer × Bool
unfolding try_add flush after_flush
pack_message env o mv r =
    let added = try_add r.packer mv in
    if added.1
    then (record r { packer = added.0; messages_packed = u64 (r.messages_packed + 1) }, true)
    else after_flush o mv (flush env o (record r { packer = added.0 }))

-- The body of the loop, and whether it goes on. `refused` is `return 1`.
unfoldable pub replay_message :
    Environment → Options → MessageView → Replayer → Option (Replayer × Bool)
unfolding too_large pack_message
replay_message env o mv before =
    let r : Replayer = record before { messages_read = u64 (before.messages_read + 1) } in
    some (
      if too_large r.packer mv.size
      then (record r { too_large = u64 (r.too_large + 1) }, true)
      else pack_message env o mv r)

-- `if (stopped_early) --messages_read;`
unfoldable pub uncount : Bool → ℕ → ℕ
uncount true messages_read = sub_u64 messages_read 1
uncount false messages_read = messages_read

-- `flush(); (void) sender.send(packer.end_of_session());`
unfoldable pub close_session : Environment → Options → Replayer → Replayer
unfolding flush send_packet end_of_session
close_session env o r =
    let flushed = flush env o r in
    record flushed { sender = send_packet env (end_of_session flushed.packer) flushed.sender }

-- What follows the loop, unless the packer has refused a message.
unfoldable pub finish_replay : Environment → Options → Bool → Replayer → Replayer
unfolding close_session uncount
finish_replay env o true r = r
finish_replay env o false r =
    close_session env o (record r { messages_read = uncount r.stopped_early r.messages_read })

-- `main`, with the file and an open sender. Fuel: as many rounds as the file has bytes, and one.
unfoldable pub replay_file : Environment → Options → List ℕ → UdpSender → Option Replayer
unfolding framer walk_while replay_message new_replayer finish_replay
replay_file env o file sender = do
  r ←
      walk_while (suc (length file)) (replay_message env o) (framer file (length file))
        (new_replayer o sender)
  some (finish_replay env o r.0.refused r.0)

unfoldable pub packed_all : Replayer → Bool
packed_all r = u64 (r.messages_packed + r.too_large) == r.messages_read

unfoldable pub seq_ok : Replayer → Bool
seq_ok r = r.packer.sequence == u64 (1 + r.messages_packed)

-- What `main` returns.
unfoldable pub exit_code : Replayer → ℕ
unfolding packed_all seq_ok
exit_code r =
    if r.refused then 1 else if packed_all r && (seq_ok r && r.sender.failures == 0) then 0 else 1
