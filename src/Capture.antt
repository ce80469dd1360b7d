-- ===== src/Capture.antt =====
-- The capture file that apps/replayer/capture.cc writes: pcap records with a synthesised IPv4 and UDP
-- header in front of each datagram. Numbers of the file are written in the host's order, which is
-- little endian.
pub mod Checksum
mod Examples
use nasdaq_itch_trading_syst.Base.{
  ℕ, zero, suc, ◌+◌, ◌-◌, ◌*◌, ◌/◌, ◌%◌, ◌^◌, bit_and, Option, none, some, List, [], ◌∷◌, ◌++◌,
  length, take, replicate, ◌==◌, if◌then◌else◌, ◌>>=◌, u8, u16, u32,
}

-- `put32` and `put16`, by the host's order of bytes.
unfoldable pub put32 : ℕ → List ℕ
put32 v = u8 v ∷ u8 (v / 2 ^ 8) ∷ u8 (v / 2 ^ 16) ∷ u8 (v / 2 ^ 24) ∷ []

unfoldable pub put16 : ℕ → List ℕ
put16 v = u8 v ∷ u8 (v / 2 ^ 8) ∷ []

-- The loop over pairs of bytes: the sum of the words.
unfoldable pub sum_words : List ℕ → ℕ → ℕ
sum_words (a ∷ b ∷ p) sum = sum_words p (u32 (sum + (a * 2 ^ 8 + b)))
sum_words _ sum = sum

-- `while (sum >> 16)`, on fuel; `none` says that it ran out.
unfoldable pub fold_carry : ℕ → ℕ → Option ℕ
fold_carry zero sum = none
fold_carry (suc fuel) sum =
    let rest = fold_carry fuel (u32 (bit_and sum 0xffff + sum / 2 ^ 16)) in
    if sum / 2 ^ 16 == 0 then some sum else rest

-- `~sum` of 32 bits, cut to 16.
unfoldable pub complement : ℕ → ℕ
complement sum = u16 (2 ^ 32 - 1 - sum)

-- Fuel: a sum of 32 bits has no carries left after two rounds.
unfoldable pub ip_checksum : List ℕ → Option ℕ
unfolding sum_words fold_carry complement
ip_checksum p = do sum ← fold_carry 4 (sum_words p 0); some (complement sum)

-- The global header of the file.
unfoldable pub pcap_header : List ℕ
unfolding put32 put16
pcap_header =
    put32 0xa1b2_c3d4
    ++ (put16 2 ++ (put16 4 ++ (put32 0 ++ (put32 0 ++ (put32 65_535 ++ put32 228)))))

-- A datagram as `recvfrom` gave it: the sender's address and port as bytes in network order.
pub record Datagram : Type 0 where
  pub from_address : List ℕ
  pub from_port : List ℕ
  pub payload : List ℕ

-- The IPv4 header of 20 bytes, with its checksum bytes.
unfoldable pub ip_header : ℕ → List ℕ → List ℕ → ℕ → List ℕ
ip_header total from dst csum =
    0x45
    ∷ 0
    ∷ u8 (total / 2 ^ 8)
    ∷ u8 total
    ∷ 0
    ∷ 0
    ∷ 0
    ∷ 0
    ∷ 64
    ∷ 17
    ∷ u8 (csum / 2 ^ 8)
    ∷ u8 csum
    ∷ (take 4 from ++ take 4 dst)

unfoldable pub udp_header : List ℕ → ℕ → ℕ → List ℕ
udp_header from_port port ulen =
    take 2 from_port ++ (u8 (port / 2 ^ 8) ∷ u8 port ∷ u8 (ulen / 2 ^ 8) ∷ u8 ulen ∷ 0 ∷ 0 ∷ [])

-- The record of one datagram: times, lengths, both headers and the payload. `dst` is the group, or
-- the sender's address if no group was joined.
unfoldable pub pcap_record : ℕ → List ℕ → ℕ → ℕ → Datagram → Option (List ℕ)
unfolding put32 ip_header udp_header ip_checksum
pcap_record port dst seconds microseconds d = do
  let payload = u16 (length d.payload)
  let total = u16 (28 + payload)
  csum ← ip_checksum (ip_header total d.from_address dst 0)
  some (
      put32 (u32 seconds)
      ++ (put32 (u32 microseconds)
          ++ (put32 (28 + payload)
              ++ (put32 (28 + payload)
                  ++ (ip_header total d.from_address dst csum
                      ++ (udp_header d.from_port port (u16 (8 + payload))
                          ++ take payload d.payload))))))
