-- ===== src/Itch/Decoder/Bounds.antt =====
-- A message as long as its type says is decoded without a read past its end
-- (src/itch/decoder.cc, with the lengths of src/itch/message_type.h).
use nasdaq_itch_trading_syst.Base.{
  ℕ, zero, suc, ◌+◌, ◌≤◌, ◌<◌, ◌≡◌, refl, List, [], ◌∷◌, length, Option, some, drop, get_elem?,
  arith, ◌>>=◌, ◌==◌, length-drop, Bool-cases, inl, inr, u16, get_elem?-Defined, ==_iff,
}
use nasdaq_itch_trading_syst.ByteReader.{accumulate, be16, be32, be48, be64}
use nasdaq_itch_trading_syst.Itch.Messages.{Header, OrderExecuted}
use nasdaq_itch_trading_syst.Itch.MessageType.{
  MessageType, to_char, expected_length, system_event, stock_directory, stock_trading_action,
  reg_sho_restriction, market_participant_pos, add_order, add_order_mpid, order_executed,
  order_executed_with_price, order_cancel, order_delete, order_replace, trade_non_cross,
  trade_cross, broken_trade,
}
use nasdaq_itch_trading_syst.Itch.Decoder.{
  read_chars, read_stock, decode_header, decode_system_event, decode_stock_directory,
  decode_add_order, decode_order_executed, decode_price_tail, decode_order_cancel,
  decode_order_delete, decode_order_replace, decode_trade, decode_non_cross, decode_cross,
}

abbrev pub Defined {ℓ} : {A : Type ℓ} → Option A → Type ℓ
Defined {A} o = (a : A) × (o ≡ some a)

-- A chain of reads is defined if each of them is.
bind-Defined {ℓ κ} :
    {A : Type ℓ} {B : Type κ} (o : Option A) (f : A → Option B)
    → Defined o
    → ((a : A) → Defined (f a))
    → Defined (o >>= f)
bind-Defined o f (a, e) h = let (b, e') = h a in (b, rw e e')

accumulate-Defined : (w n res : ℕ) (p : List ℕ) → n ≤ length p → Defined (accumulate w n res p)
unfolding accumulate
accumulate-Defined w zero res p h = (res, refl)
accumulate-Defined w (suc n) res [] h = absurd (omega arith)
accumulate-Defined w (suc n) res (b ∷ p) h = accumulate-Defined w n _ p (omega arith)

read_chars-Defined : (n : ℕ) (p : List ℕ) → n ≤ length p → Defined (read_chars n p)
unfolding read_chars
read_chars-Defined zero p h = ([], refl)
read_chars-Defined (suc n) [] h = absurd (omega arith)
read_chars-Defined (suc n) (c ∷ p) h =
    let (cs, e) = read_chars-Defined n p (omega arith) in (c ∷ cs, rw e)

module _ (p : List ℕ) (k : ℕ) where
  char-Defined : k < length p → Defined (get_elem? p k)
  char-Defined h = get_elem?-Defined p k h

  be16-Defined : k + 2 ≤ length p → Defined (be16 (drop k p))
  unfolding be16
  be16-Defined h =
      let (v, e) = accumulate-Defined 32 2 0 (drop k p) (omega (arith, length-drop k p)) in
      (u16 v, rw e)

  be32-Defined : k + 4 ≤ length p → Defined (be32 (drop k p))
  unfolding be32
  be32-Defined h = accumulate-Defined 32 4 0 (drop k p) (omega (arith, length-drop k p))

  be48-Defined : k + 6 ≤ length p → Defined (be48 (drop k p))
  unfolding be48
  be48-Defined h = accumulate-Defined 64 6 0 (drop k p) (omega (arith, length-drop k p))

  be64-Defined : k + 8 ≤ length p → Defined (be64 (drop k p))
  unfolding be64
  be64-Defined h = accumulate-Defined 64 8 0 (drop k p) (omega (arith, length-drop k p))

  stock-Defined : k + 8 ≤ length p → Defined (read_stock (drop k p))
  unfolding read_stock
  stock-Defined h = read_chars-Defined 8 (drop k p) (omega (arith, length-drop k p))

module _ (p : List ℕ) where
  pub header-Defined : 11 ≤ length p → Defined (decode_header p)
  unfolding decode_header
  header-Defined h = bind-Defined _ _ (be16-Defined p 1 (omega arith)) λ _.
      bind-Defined _ _ (be16-Defined p 3 (omega arith))
        λ _. bind-Defined _ _ (be48-Defined p 5 (omega arith)) λ _. (_, refl)

  system_event-Defined : 12 ≤ length p → Defined (decode_system_event p)
  unfolding decode_system_event
  system_event-Defined h =
      bind-Defined _ _ (header-Defined (omega arith))
        λ _. bind-Defined _ _ (char-Defined p 11 (omega arith)) λ _. (_, refl)

  stock_directory-Defined : 39 ≤ length p → Defined (decode_stock_directory p)
  unfolding decode_stock_directory
  stock_directory-Defined h = bind-Defined _ _ (header-Defined (omega arith)) λ _.
      bind-Defined _ _ (stock-Defined p 11 (omega arith)) λ _.
        bind-Defined _ _ (char-Defined p 19 (omega arith))
          λ _. bind-Defined _ _ (be32-Defined p 21 (omega arith)) λ _. (_, refl)

  add_order-Defined : 36 ≤ length p → Defined (decode_add_order p)
  unfolding decode_add_order
  add_order-Defined h = bind-Defined _ _ (header-Defined (omega arith)) λ _.
      bind-Defined _ _ (be64-Defined p 11 (omega arith)) λ _.
        bind-Defined _ _ (char-Defined p 19 (omega arith)) λ _.
          bind-Defined _ _ (be32-Defined p 20 (omega arith)) λ _.
            bind-Defined _ _ (stock-Defined p 24 (omega arith))
              λ _. bind-Defined _ _ (be32-Defined p 32 (omega arith)) λ _. (_, refl)

  -- The tail is read of 'C' alone, which has 36 bytes.
  price_tail-Defined :
      (type : ℕ) (m : OrderExecuted)
      → (type ≡ b'C' → 36 ≤ length p)
      → Defined (decode_price_tail type p m)
  unfolding decode_price_tail to_char
  price_tail-Defined type m h = elim (Bool-cases (type == b'C')) [
    | inl e ↦
        let enough = h ((==_iff type b'C').0 e) in
        rw e (
          bind-Defined _ _ (char-Defined p 31 (omega arith))
            λ _. bind-Defined _ _ (be32-Defined p 32 (omega arith)) λ _. (_, refl))
    | inr e ↦ rw e (_, refl)
  ]

  order_executed-Defined :
      (type : ℕ)
      → get_elem? p 0 ≡ some type
      → 31 ≤ length p
      → (type ≡ b'C' → 36 ≤ length p)
      → Defined (decode_order_executed p)
  unfolding decode_order_executed
  order_executed-Defined type first h tail = bind-Defined _ _ (header-Defined (omega arith)) λ _.
      bind-Defined _ _ (be64-Defined p 11 (omega arith)) λ _.
        bind-Defined _ _ (be32-Defined p 19 (omega arith)) λ _.
          bind-Defined _ _ (be64-Defined p 23 (omega arith))
            λ _. rw first (price_tail-Defined type _ tail)

  order_cancel-Defined : 23 ≤ length p → Defined (decode_order_cancel p)
  unfolding decode_order_cancel
  order_cancel-Defined h = bind-Defined _ _ (header-Defined (omega arith)) λ _.
      bind-Defined _ _ (be64-Defined p 11 (omega arith))
        λ _. bind-Defined _ _ (be32-Defined p 19 (omega arith)) λ _. (_, refl)

  order_delete-Defined : 19 ≤ length p → Defined (decode_order_delete p)
  unfolding decode_order_delete
  order_delete-Defined h =
      bind-Defined _ _ (header-Defined (omega arith))
        λ _. bind-Defined _ _ (be64-Defined p 11 (omega arith)) λ _. (_, refl)

  order_replace-Defined : 35 ≤ length p → Defined (decode_order_replace p)
  unfolding decode_order_replace
  order_replace-Defined h = bind-Defined _ _ (header-Defined (omega arith)) λ _.
      bind-Defined _ _ (be64-Defined p 11 (omega arith)) λ _.
        bind-Defined _ _ (be64-Defined p 19 (omega arith)) λ _.
          bind-Defined _ _ (be32-Defined p 27 (omega arith))
            λ _. bind-Defined _ _ (be32-Defined p 31 (omega arith)) λ _. (_, refl)

  non_cross-Defined : (h : Header) → 44 ≤ length p → Defined (decode_non_cross p h)
  unfolding decode_non_cross
  non_cross-Defined header h = bind-Defined _ _ (be64-Defined p 11 (omega arith)) λ _.
      bind-Defined _ _ (char-Defined p 19 (omega arith)) λ _.
        bind-Defined _ _ (be32-Defined p 20 (omega arith)) λ _.
          bind-Defined _ _ (stock-Defined p 24 (omega arith)) λ _.
            bind-Defined _ _ (be32-Defined p 32 (omega arith))
              λ _. bind-Defined _ _ (be64-Defined p 36 (omega arith)) λ _. (_, refl)

  cross-Defined : (h : Header) → 40 ≤ length p → Defined (decode_cross p h)
  unfolding decode_cross
  cross-Defined header h = bind-Defined _ _ (be64-Defined p 11 (omega arith)) λ _.
      bind-Defined _ _ (stock-Defined p 19 (omega arith)) λ _.
        bind-Defined _ _ (be32-Defined p 27 (omega arith))
          λ _. bind-Defined _ _ (be64-Defined p 31 (omega arith)) λ _. (_, refl)

  trade-Defined :
      (type : ℕ)
      → get_elem? p 0 ≡ some type
      → 40 ≤ length p
      → (type ≡ b'P' → 44 ≤ length p)
      → Defined (decode_trade p)
  unfolding decode_trade to_char
  trade-Defined type first h long = bind-Defined _ _ (header-Defined (omega arith)) λ header.
      rw first (elim (Bool-cases (type == b'P')) [
        | inl e ↦ rw e (non_cross-Defined header (long ((==_iff type b'P').0 e)))
        | inr e ↦ rw e (cross-Defined header h)
      ])

-- What the decoder of each type's messages has to give at `p`; five types have none.
abbrev pub Decodes : MessageType → List ℕ → Type 0
Decodes system_event p = Defined (decode_system_event p)
Decodes stock_directory p = Defined (decode_stock_directory p)
Decodes add_order p = Defined (decode_add_order p)
Decodes add_order_mpid p = Defined (decode_add_order p)
Decodes order_executed p = Defined (decode_order_executed p)
Decodes order_executed_with_price p = Defined (decode_order_executed p)
Decodes order_cancel p = Defined (decode_order_cancel p)
Decodes order_delete p = Defined (decode_order_delete p)
Decodes order_replace p = Defined (decode_order_replace p)
Decodes trade_non_cross p = Defined (decode_trade p)
Decodes trade_cross p = Defined (decode_trade p)
Decodes _ p = Defined (decode_header p)

-- For every known message type, on a buffer of at least the length that the table gives for the
-- type and that starts with its byte, the decoder that the program applies to the type reads
-- nothing past the end.
pub decoders_in_bounds :
    (t : MessageType) (p : List ℕ)
    → get_elem? p 0 ≡ some (to_char t)
    → expected_length (some t) ≤ length p
    → Decodes t p
unfolding expected_length to_char
decoders_in_bounds system_event p first h = system_event-Defined p h
decoders_in_bounds stock_directory p first h = stock_directory-Defined p h
decoders_in_bounds add_order p first h = add_order-Defined p h
decoders_in_bounds add_order_mpid p first h = add_order-Defined p (omega arith)
decoders_in_bounds order_executed p first h = order_executed-Defined p b'E' first h (ground arith)
decoders_in_bounds order_executed_with_price p first h =
    order_executed-Defined p b'C' first (omega arith) (λ _. h)
decoders_in_bounds order_cancel p first h = order_cancel-Defined p h
decoders_in_bounds order_delete p first h = order_delete-Defined p h
decoders_in_bounds order_replace p first h = order_replace-Defined p h
decoders_in_bounds trade_non_cross p first h = trade-Defined p b'P' first (omega arith) (λ _. h)
decoders_in_bounds trade_cross p first h = trade-Defined p b'Q' first h (ground arith)
decoders_in_bounds stock_trading_action p first h = header-Defined p (omega arith)
decoders_in_bounds reg_sho_restriction p first h = header-Defined p (omega arith)
decoders_in_bounds market_participant_pos p first h = header-Defined p (omega arith)
decoders_in_bounds broken_trade p first h = header-Defined p (omega arith)
