-- ===== src/Mold/Packer/Packets.antt =====
-- What src/mold/packer.cc packs: the frames of the messages that it took, behind their header.
use nasdaq_itch_trading_syst.Base.{
  ℕ, ◌+◌, ◌-◌, ◌/◌, ◌%◌, ◌^◌, ◌<◌, ◌≤◌, ◌≡◌, ◌↔◌, refl, ap, sym, ◌∙◌, inl, inr, Bool, true, false,
  ◌||◌, List, [], ◌∷◌, ◌++◌, All, drop, length, some, arith, ltb, ◌==◌, if◌then◌else◌, u8, u16, u64,
  sub_u64, Bool-cases, length-append, drop-append, take-append, bit_and, bit_and_mask,
}
use mathlib.Core.List.{append_assoc, append-nil}
use nasdaq_itch_trading_syst.Itch.Framing.{MessageView}
use nasdaq_itch_trading_syst.Itch.Framing.Stream.{frame, frames, IsMessage, IsSplit}
use nasdaq_itch_trading_syst.Mold.Packet.{
  PacketHeader, put_be16, put_be64, put_bytes, encode_header, decode_packet_header,
}
use nasdaq_itch_trading_syst.Mold.Packet.Header.{decode_packet_header-encode_header}
use nasdaq_itch_trading_syst.Mold.Packer.{Packer, block, is_full, try_add, finish}

-- A packer that has taken the messages since the last packet.
pub record IsPacking (p : Packer) (ms : List (List ℕ)) : Type 0 where
  pub session_wide : length p.session ≡ 10
  pub sequence_fits : p.sequence < 2 ^ 64
  pub messages : All IsMessage ms
  pub written : p.written ≡ frames ms
  pub body : p.body ≡ length p.written
  pub room : p.body ≤ p.max_payload
  pub payload_fits : p.max_payload < 2 ^ 32
  pub count : p.count ≡ length ms
  pub count_fits : p.count < 0xffff

block_lem :
    (v : MessageView) (m tail : List ℕ)
    → v.bytes ≡ m ++ tail
    → v.size ≡ length m
    → IsMessage m
    → block v ≡ frame m
unfolding block
block_lem v m tail e size (pos, small) =
    let hi : u8 (length m / 2 ^ 8) ≡ length m / 256 = omega arith in
    let lo : bit_and (length m) 0xff ≡ length m % 256 = omega (arith, bit_and_mask 8 (length m)) in
    rw (e, size, take-append (length m) m tail refl, hi, lo) refl

frames-append : (ms : List (List ℕ)) (m : List ℕ) → frames (ms ++ (m ∷ [])) ≡ frames ms ++ frame m
frames-append [] m = append-nil (frame m)
frames-append (n ∷ ms) m =
    ap (◌++◌ (frame n)) (frames-append ms m) ∙ sym (append_assoc (frame n) (frames ms) (frame m))

All-append :
    (ms : List (List ℕ)) (m : List ℕ)
    → All IsMessage ms
    → IsMessage m
    → All IsMessage (ms ++ (m ∷ []))
All-append [] m h h' = (h', tt)
All-append (n ∷ ms) m h h' = (h.0, All-append ms m h.1 h')

-- What `try_add` answers, what the packer has taken after it, and what of it stays.
pub record Adds (p : Packer) (ms : List (List ℕ)) (m : List ℕ) (p' : Packer) (added : Bool)
    : Type 0 where
  pub answer : (added ≡ true) ↔ ((p.body + 2 + length m ≤ p.max_payload) × (p.count < 0xfffe))
  pub packing : IsPacking p' (if added then ms ++ (m ∷ []) else ms)
  pub refused : added ≡ false → p' ≡ p
  pub header :
      (p'.session ≡ p.session) × (p'.sequence ≡ p.sequence) × (p'.max_payload ≡ p.max_payload)

fullness :
    (body room len count : ℕ)
    → body ≤ room
    → room < 2 ^ 32
    → count < 0xffff
    → ((ltb (sub_u64 room body) 2
          || (ltb (sub_u64 (sub_u64 room body) 2) len || count == 0xffff - 1))
        ≡ false)
      ↔ ((body + 2 + len ≤ room) × (count < 0xfffe))
fullness body room len count h h' h'' = ground arith

added-IsPacking :
    (p : Packer) (ms : List (List ℕ)) (v : MessageView) (m tail : List ℕ)
    → IsPacking p ms
    → IsMessage m
    → v.bytes ≡ m ++ tail
    → v.size ≡ length m
    → p.body + 2 + length m ≤ p.max_payload
    → p.count < 0xfffe
    → IsPacking
        (record p {
          written = p.written ++ block v;
          body = u64 (p.body + (2 + v.size));
          count = u16 (p.count + 1);
        })
        (ms ++ (m ∷ []))
added-IsPacking p ms v m tail k message e size fits below =
    let b = block_lem v m tail e size message in
    let wide : length (block v) ≡ 2 + length m = omega (arith, ap length b) in
    let room = k.room in
    let top = k.payload_fits in
    record {
      session_wide = k.session_wide;
      sequence_fits = k.sequence_fits;
      messages = All-append ms m k.messages message;
      written = rw (b, k.written) (sym (frames-append ms m));
      body = omega (arith, length-append p.written (block v), wide, size, k.body);
      room = omega (arith, size);
      payload_fits = k.payload_fits;
      count = omega (arith, length-append ms (m ∷ []), k.count);
      count_fits = omega arith;
    }

fits :
    (p : Packer) (ms : List (List ℕ)) (v : MessageView)
    → IsPacking p ms
    → (m : List ℕ) → v.size ≡ length m
    → (is_full p v ≡ false) ↔ ((p.body + 2 + length m ≤ p.max_payload) × (p.count < 0xfffe))
unfolding is_full
fits p ms v k m size =
    rw size (fullness p.body p.max_payload (length m) p.count k.room k.payload_fits k.count_fits)

length-encode_header : (h : PacketHeader) → length h.session ≡ 10 → 20 ≡ length (encode_header h)
unfolding encode_header put_be64 put_bytes put_be16
length-encode_header h wide =
    omega (arith, wide, length-append h.session (put_be64 h.sequence ++ put_be16 h.message_count))

-- On a packer that has taken the messages `ms`, for a view of a message that is not empty and has
-- at most 65535 bytes, `try_add` answers true exactly if the message and its prefix fit into the
-- payload limit and the packet has fewer than 65534 messages; then the packer has taken the
-- message behind the others and keeps its session, its sequence number and its limit, and
-- otherwise it is as it was.
pub try_add_correct :
    (p : Packer) (ms : List (List ℕ)) (v : MessageView) (m tail : List ℕ)
    → IsPacking p ms
    → IsMessage m
    → v.bytes ≡ m ++ tail
    → v.size ≡ length m
    → Adds p ms m (try_add p v).0 (try_add p v).1
unfolding try_add
try_add_correct p ms v m tail k message e size = elim (Bool-cases (is_full p v)) [
  | inl full ↦ rw full (record {
    answer =
        ((λ z. cc), λ h. absurd (contradiction (is_full p v) full ((fits p ms v k m size).1 h)));
    packing = k;
    refused = λ z. refl;
    header = (refl, refl, refl);
  })
  | inr roomy ↦
      let h = (fits p ms v k m size).0 roomy in
      rw roomy (record {
        answer = ((λ z. h), λ z. refl);
        packing = added-IsPacking p ms v m tail k message e size h.0 h.1;
        refused = λ z. cc;
        header = (refl, refl, refl);
      })
]
  where
    contradiction : (b : Bool) → b ≡ true → b ≡ false → ⊥
    contradiction b h h' = cc

-- From a packer that has taken the messages `ms`, `finish` gives a packet whose header has the
-- session, the sequence number and the count of the messages, and whose body is split into
-- exactly these messages by the framer; the packer then has taken none and numbers the next
-- packet behind them.
pub finish_correct :
    (p : Packer) (ms : List (List ℕ))
    → IsPacking p ms
    → (decode_packet_header (finish p).1
        ≡ some (record { session = p.session; sequence = p.sequence; message_count = length ms }))
      × IsSplit (drop 20 (finish p).1) ms []
      × IsPacking (finish p).0 []
      × ((finish p).0.sequence ≡ u64 (p.sequence + length ms))
unfolding finish
finish_correct p ms k =
    let h : PacketHeader = record {
      session = p.session;
      sequence = p.sequence;
      message_count = p.count;
    } in
    let wide : 20 ≡ length (encode_header h) = length-encode_header h k.session_wide in
    let behind : drop 20 (encode_header h ++ p.written) ≡ frames ms ++ [] =
      drop-append 20 (encode_header h) p.written wide ∙ k.written ∙ sym (append-nil (frames ms)) in
    (
      decode_packet_header-encode_header h p.written k.session_wide k.sequence_fits
            (omega (arith, k.count_fits))
          ∙ ap (λ (n : ℕ). some (record h { message_count = n })) k.count,
      record { messages = k.messages; stops = tt; rest_bytes = tt; spells = behind },
      record {
        session_wide = k.session_wide;
        sequence_fits = omega arith;
        messages = tt;
        written = refl;
        body = refl;
        room = omega arith;
        payload_fits = k.payload_fits;
        count = refl;
        count_fits = omega arith;
      },
      ap (λ (n : ℕ). u64 (p.sequence + n)) k.count,
    )

pub length-finish :
    (p : Packer) (ms : List (List ℕ)) → IsPacking p ms → length (finish p).1 ≡ 20 + length p.written
unfolding finish
length-finish p ms k =
    let h : PacketHeader = record {
      session = p.session;
      sequence = p.sequence;
      message_count = p.count;
    } in
    omega (arith, length-append (encode_header h) p.written, length-encode_header h k.session_wide)
