-- ===== src/Mold/Packet/Header.antt =====
-- The header of src/mold/mold.cc reads back as it was written.
use nasdaq_itch_trading_syst.Base.{
  ℕ, zero, suc, ◌+◌, ◌*◌, ◌/◌, ◌%◌, ◌^◌, ◌<◌, ◌≤◌, ◌≡◌, refl, ap, sym, ◌∙◌, List, [], ◌∷◌, ◌++◌,
  drop, length, take, some, arith, bit_and, bit_and_mask, drop-append, drop-drop, length-drop,
}
use mathlib.Core.List.{append_assoc}
use nasdaq_itch_trading_syst.ByteReader.{be16, be64}
use nasdaq_itch_trading_syst.ByteReader.Value.{IsBytes, be_value, accumulate-value, be_value-lt}
use nasdaq_itch_trading_syst.ByteReader.Readers.{readers_read}
use nasdaq_itch_trading_syst.Itch.Decoder.{read_chars}
use nasdaq_itch_trading_syst.Itch.Decoder.RoundTrip.{read_chars_lem}
use nasdaq_itch_trading_syst.Itch.Framing.Stream.{IsBytes-drop}
use nasdaq_itch_trading_syst.Mold.Packet.{
  PacketHeader, put_be16, put_be64, put_bytes, encode_header, decode_packet_header,
}

low_byte : (v : ℕ) → bit_and v 0xff ≡ v % 256
low_byte v = omega (arith, bit_and_mask 8 v)

put_be16-be16 : (v : ℕ) (rest : List ℕ) → v < 2 ^ 16 → be16 (put_be16 v ++ rest) ≡ some v
unfolding be16 put_be16 be_value
put_be16-be16 v rest h =
    let bytes : IsBytes (v / 2 ^ 8 % 2 ^ 8 ∷ v % 256 ∷ []) = omega arith in
    rw
      (
        low_byte v,
        accumulate-value 32 2 0 (v / 2 ^ 8 % 2 ^ 8 ∷ v % 256 ∷ rest) bytes (omega arith)
            (omega arith),
      )
      (ap some (omega arith))

digits :
    (v : ℕ)
    → v < 2 ^ 64
    → (((((((0 + v / 256 / 256 / 256 / 256 / 256 / 256 / 256 % 256) * 256
                                + v / 256 / 256 / 256 / 256 / 256 / 256 % 256)
                              * 256
                            + v / 256 / 256 / 256 / 256 / 256 % 256)
                          * 256
                        + v / 256 / 256 / 256 / 256 % 256)
                      * 256
                    + v / 256 / 256 / 256 % 256)
                  * 256
                + v / 256 / 256 % 256)
              * 256
            + v / 256 % 256)
          * 256
        + v % 256
      ≡ v
digits v h = omega arith

put_be64-be64 : (v : ℕ) (rest : List ℕ) → v < 2 ^ 64 → be64 (put_be64 v ++ rest) ≡ some v
unfolding be64 put_be64 put_bytes be_value
put_be64-be64 v rest h =
    let v1 = v / 256 in
    let v2 = v1 / 256 in
    let v3 = v2 / 256 in
    let v4 = v3 / 256 in
    let v5 = v4 / 256 in
    let v6 = v5 / 256 in
    let v7 = v6 / 256 in
    let p : List ℕ =
      v7 % 256 ∷ v6 % 256 ∷ v5 % 256 ∷ v4 % 256 ∷ v3 % 256 ∷ v2 % 256 ∷ v1 % 256 ∷ v % 256 ∷ rest in
    let bytes : IsBytes (take 8 p) = omega arith in
    rw
      (
        low_byte v7,
        low_byte v6,
        low_byte v5,
        low_byte v4,
        low_byte v3,
        low_byte v2,
        low_byte v1,
        low_byte v,
        accumulate-value 64 8 0 p bytes (omega arith) (omega arith),
      )
      (ap some (digits v h))

-- A packet header with a session of ten characters, a sequence number of 64 bits and a count of
-- 16 bits is read back as it was written, whatever follows it.
pub decode_packet_header-encode_header :
    (h : PacketHeader) (rest : List ℕ)
    → length h.session ≡ 10
    → h.sequence < 2 ^ 64
    → h.message_count < 2 ^ 16
    → decode_packet_header (encode_header h ++ rest) ≡ some h
unfolding decode_packet_header encode_header
decode_packet_header-encode_header h rest wide sequence_fits count_fits =
    let tail = put_be64 h.sequence ++ (put_be16 h.message_count ++ rest) in
    let p = (h.session ++ (put_be64 h.sequence ++ put_be16 h.message_count)) ++ rest in
    let whole : p ≡ h.session ++ tail =
      append_assoc h.session (put_be64 h.sequence ++ put_be16 h.message_count) rest
      ∙ ap (◌++◌ h.session) (append_assoc (put_be64 h.sequence) (put_be16 h.message_count) rest) in
    let at_10 : drop 10 p ≡ tail = ap (drop 10) whole ∙ drop-append 10 h.session tail (sym wide) in
    let at_18 : drop 18 p ≡ put_be16 h.message_count ++ rest =
      sym (drop-drop 10 8 p)
      ∙ ap (drop 8) at_10
      ∙ drop-append 8 (put_be64 h.sequence) (put_be16 h.message_count ++ rest)
          (length-put_be64 h.sequence) in
    rw
      (
        at_10,
        at_18,
        put_be64-be64 h.sequence (put_be16 h.message_count ++ rest) sequence_fits,
        put_be16-be16 h.message_count rest count_fits,
        whole,
        read_chars_lem 10 h.session tail (sym wide),
      )
      refl
  where
    length-put_be64 : (v : ℕ) → 8 ≡ length (put_be64 v)
    length-put_be64 v = refl

-- What a packet of at least 20 bytes has for a header.
pub record IsHeaderOf (p : List ℕ) (h : PacketHeader) : Type 0 where
  pub decodes : decode_packet_header p ≡ some h
  pub sequence_fits : h.sequence < 2 ^ 64
  pub count_fits : h.message_count < 2 ^ 16

read_chars-Defined :
    (n : ℕ) (p : List ℕ) → n ≤ length p → (cs : List ℕ) × (read_chars n p ≡ some cs)
unfolding read_chars
read_chars-Defined zero p h = ([], refl)
read_chars-Defined (suc n) [] h = absurd (omega arith)
read_chars-Defined (suc n) (c ∷ p) h =
    let (cs, e) = read_chars-Defined n p (omega arith) in (c ∷ cs, rw e refl)

be64-Defined : (p : List ℕ) → IsBytes p → 8 ≤ length p → (v : ℕ) × (be64 p ≡ some v) × (v < 2 ^ 64)
be64-Defined p bytes h =
    let read : be64 p ≡ some (be_value 8 0 p) = (readers_read p bytes).3 ∙ ground arith in
    (be_value 8 0 p, read, omega (arith, be_value-lt 8 0 p bytes))

be16-Defined : (p : List ℕ) → IsBytes p → 2 ≤ length p → (v : ℕ) × (be16 p ≡ some v) × (v < 2 ^ 16)
be16-Defined p bytes h =
    let read : be16 p ≡ some (be_value 2 0 p) = (readers_read p bytes).0 ∙ ground arith in
    (be_value 2 0 p, read, omega (arith, be_value-lt 2 0 p bytes))

pub header_exists : (p : List ℕ) → IsBytes p → 20 ≤ length p → (h : PacketHeader) × IsHeaderOf p h
unfolding decode_packet_header
header_exists p bytes enough =
    let (session, e) = read_chars-Defined 10 p (omega arith) in
    let (sequence, e', fits) =
      be64-Defined (drop 10 p) (IsBytes-drop 10 p bytes) (omega (arith, length-drop 10 p)) in
    let (count, e'', fits') =
      be16-Defined (drop 18 p) (IsBytes-drop 18 p bytes) (omega (arith, length-drop 18 p)) in
    (
      record { session = session; sequence = sequence; message_count = count },
      record { decodes = rw (e, e', e'') refl; sequence_fits = fits; count_fits = fits' },
    )
