-- ===== src/Itch/MessageType/Table.antt =====
-- The type table of src/itch/message_type.h: the bytes that are known are those of the enumerators.
use nasdaq_itch_trading_syst.Base.{
  ℕ, ◌≤◌, ◌≡◌, ◌≢◌, ◌⊎◌, inl, inr, refl, sym, ap, ◌∙◌, Option-cases, true, false, none, some, arith,
}
use nasdaq_itch_trading_syst.Itch.MessageType.{
  MessageType, to_char, is_known, of_char, expected_length, system_event,
}

pub of_char-to_char : (t : MessageType) → of_char (to_char t) ≡ some t
unfolding of_char to_char
of_char-to_char system_event = refl
of_char-to_char _ = refl

pub to_char-of_char : (c : ℕ) (t : MessageType) → of_char c ≡ some t → to_char t ≡ c
unfolding of_char to_char
to_char-of_char c t e = ground arith

known_char : (t : MessageType) → is_known (to_char t) ≡ true
unfolding is_known to_char
known_char system_event = refl
known_char _ = refl

length_bound : (t : MessageType) → 12 ≤ expected_length (some t)
unfolding expected_length
length_bound system_event = omega arith
length_bound _ = omega arith

unknown_char : (c : ℕ) → of_char c ≡ none → is_known c ≡ false
unfolding is_known of_char
unknown_char c e = ground arith

-- Every byte is either known, and then it is the value of an enumerator, to which the cast takes
-- it and whose messages have at least 12 bytes; or it is not known, and then it is the value of
-- no enumerator and the length table gives 0 for it.
pub known_table :
    (c : ℕ)
    → ((is_known c ≡ true)
        × ((t : MessageType) × (of_char c ≡ some t)
            × (to_char t ≡ c)
            × (12 ≤ expected_length (of_char c))))
      ⊎ ((is_known c ≡ false)
          × ((t : MessageType) → to_char t ≢ c)
          × (expected_length (of_char c) ≡ 0))
unfolding expected_length
known_table c = elim (Option-cases (of_char c)) [
  | inr (t, e) ↦
      let same = to_char-of_char c t e in
      inl (ap is_known (sym same) ∙ known_char t, (t, e, same, rw e (length_bound t)))
  | inl e ↦
      inr (unknown_char c e, (λ t z. clash (sym (of_char-to_char t) ∙ ap of_char z ∙ e)), rw e refl)
]
  where
    clash : {t : MessageType} → some t ≡ none → ⊥
    clash e = cc
