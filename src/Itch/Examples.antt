-- ===== src/Itch/Examples.antt =====
-- The ITCH theorems at concrete messages and buffers (src/itch).
use nasdaq_itch_trading_syst.Base.{
  ℕ, ◌≡◌, ◌≢◌, ◌⊎◌, ◌↔◌, ◌≤◌, ◌+◌, refl, true, false, some, List, [], ◌∷◌, ◌++◌, length, replicate,
  arith,
}
use nasdaq_itch_trading_syst.ByteReader.Value.{be_bytes}
use nasdaq_itch_trading_syst.Itch.MessageType.{
  MessageType, is_known, of_char, to_char, expected_length, order_delete,
}
use nasdaq_itch_trading_syst.Itch.MessageType.Table.{known_table}
use nasdaq_itch_trading_syst.Itch.Messages.{Header, AddOrder, OrderExecuted, OrderReplace, Trade}
use nasdaq_itch_trading_syst.Itch.Decoder.{
  decode_add_order, decode_order_executed, decode_order_replace, decode_trade,
}
use nasdaq_itch_trading_syst.Itch.Decoder.Wire.{
  wire_add_order, wire_order_executed, wire_order_replace, wire_cross,
}
use nasdaq_itch_trading_syst.Itch.Decoder.RoundTrip.{
  decode_add_order-wire, decode_order_executed-wire, decode_order_executed-wire_with_price,
  decode_order_replace-wire, decode_trade-wire_cross,
}
use nasdaq_itch_trading_syst.Itch.Decoder.Bounds.{Decodes, decoders_in_bounds}
use nasdaq_itch_trading_syst.Itch.Framing.{MessageView, Framer, framer, walk, exhausted}
use nasdaq_itch_trading_syst.Itch.Framing.Stream.{IsSplit, views}
use nasdaq_itch_trading_syst.Itch.Framing.Walk.{run_views, walk_total}

known_table_example :
    ((is_known b'A' ≡ true)
      × ((t : MessageType) × (of_char b'A' ≡ some t)
          × (to_char t ≡ b'A')
          × (12 ≤ expected_length (of_char b'A'))))
    ⊎ ((is_known b'A' ≡ false)
        × ((t : MessageType) → to_char t ≢ b'A')
        × (expected_length (of_char b'A') ≡ 0))
known_table_example = known_table b'A'

abbrev sample_header : Header
sample_header = record { stock_locate = 7; tracking_number = 2; timestamp = 34_200_000_000_000 }

abbrev sample_stock : List ℕ
sample_stock = b'A' ∷ b'A' ∷ b'P' ∷ b'L' ∷ b' ' ∷ b' ' ∷ b' ' ∷ b' ' ∷ []

abbrev sample_add : AddOrder
sample_add = record {
  header = sample_header;
  order_ref = 1_000_001;
  side = b'B';
  shares = 300;
  stock = sample_stock;
  price = 1_895_000;
}

decode_add_order-wire_example :
    decode_add_order (wire_add_order b'F' sample_add (b'N' ∷ b'I' ∷ b'T' ∷ b'E' ∷ []))
    ≡ some sample_add
decode_add_order-wire_example =
    decode_add_order-wire b'F' sample_add (b'N' ∷ b'I' ∷ b'T' ∷ b'E' ∷ []) (record {
      header = omega arith;
      ref_fits = omega arith;
      shares_fit = omega arith;
      stock_wide = refl;
      price_fits = omega arith;
    })

abbrev sample_executed : OrderExecuted
sample_executed = record {
  header = sample_header;
  order_ref = 1_000_001;
  executed_shares = 100;
  match_number = 55;
  execution_price = 1_894_900;
  printable = false;
}

decode_order_executed-wire_example :
    decode_order_executed (wire_order_executed b'E' sample_executed [])
    ≡ some (record sample_executed { execution_price = 0; printable = true })
decode_order_executed-wire_example =
    decode_order_executed-wire b'E' sample_executed [] (omega arith) (omega arith)

decode_order_executed-wire_with_price_example :
    decode_order_executed
      (wire_order_executed b'C' sample_executed (b'N' ∷ (be_bytes 4 1_894_900 ++ [])))
    ≡ some sample_executed
decode_order_executed-wire_with_price_example =
    decode_order_executed-wire_with_price b'N' sample_executed [] (omega arith) (omega arith) refl

abbrev sample_replace : OrderReplace
sample_replace = record {
  header = sample_header;
  original_order_ref = 1_000_001;
  new_order_ref = 1_000_009;
  shares = 200;
  price = 1_895_100;
}

decode_order_replace-wire_example :
    decode_order_replace (wire_order_replace b'U' sample_replace []) ≡ some sample_replace
decode_order_replace-wire_example = decode_order_replace-wire b'U' sample_replace [] (omega arith)

abbrev sample_cross : Trade
sample_cross = record {
  header = sample_header;
  order_ref = 0;
  side = b' ';
  shares = 5_000_000_000;
  stock = sample_stock;
  price = 1_894_500;
  match_number = 77;
  has_order = false;
}

decode_trade-wire_cross_example :
    decode_trade (wire_cross b'Q' sample_cross (b'O' ∷ []))
    ≡ some (record sample_cross { order_ref = 0; side = b' '; has_order = false })
decode_trade-wire_cross_example =
    decode_trade-wire_cross b'Q' sample_cross (b'O' ∷ [])
      (record {
        header = omega arith;
        match_fits = omega arith;
        stock_wide = refl;
        price_fits = omega arith;
      })
      (omega arith) (omega arith)

-- A delete message of 19 bytes.
abbrev sample_delete : List ℕ
sample_delete = b'D' ∷ replicate 18 1

decoders_in_bounds_example : Decodes order_delete sample_delete
unfolding to_char expected_length
decoders_in_bounds_example = decoders_in_bounds order_delete sample_delete refl (omega arith)

-- Two frames and a truncated third.
abbrev sample_buffer : List ℕ
sample_buffer = 0 ∷ 2 ∷ b'S' ∷ 1 ∷ 0 ∷ 1 ∷ b'D' ∷ 0 ∷ 9 ∷ b'A' ∷ []

abbrev count_view : MessageView → ℕ → ℕ
count_view v n = n + v.size

walk_total_example :
    (ms : List (List ℕ)) × (rest : List ℕ) × (f : Framer) × IsSplit sample_buffer ms rest
    × (walk 11 (λ v t. some (count_view v t)) (framer sample_buffer 10) 0
        ≡ some (run_views count_view (views ms rest) 0, f))
    × (f.pos + length rest ≡ 10)
    × ((exhausted f ≡ true) ↔ (rest ≡ []))
walk_total_example = walk_total count_view sample_buffer 0 (omega arith) (omega arith)
