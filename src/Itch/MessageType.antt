-- ===== src/Itch/MessageType.antt =====
-- Message type bytes and their lengths, src/itch/message_type.h.
pub mod Table
use nasdaq_itch_trading_syst.Base.{
  ℕ, Bool, true, false, Option, none, some, ◌==◌, if◌then◌else◌, ◌||◌,
}

pub data MessageType : Type 0 where
  system_event stock_directory stock_trading_action reg_sho_restriction : MessageType
  market_participant_pos add_order add_order_mpid order_executed : MessageType
  order_executed_with_price order_cancel order_delete order_replace : MessageType
  trade_non_cross trade_cross broken_trade : MessageType

-- The value of each enumerator.
unfoldable pub to_char : MessageType → ℕ
to_char system_event = b'S'
to_char stock_directory = b'R'
to_char stock_trading_action = b'H'
to_char reg_sho_restriction = b'Y'
to_char market_participant_pos = b'L'
to_char add_order = b'A'
to_char add_order_mpid = b'F'
to_char order_executed = b'E'
to_char order_executed_with_price = b'C'
to_char order_cancel = b'X'
to_char order_delete = b'D'
to_char order_replace = b'U'
to_char trade_non_cross = b'P'
to_char trade_cross = b'Q'
to_char broken_trade = b'B'

unfoldable pub is_known : ℕ → Bool
is_known c =
    c == b'S'
    || (c == b'R'
        || (c == b'H'
            || (c == b'Y'
                || (c == b'L'
                    || (c == b'A'
                        || (c == b'F'
                            || (c == b'E'
                                || (c == b'C'
                                    || (c == b'X'
                                        || (c == b'D'
                                            || (c == b'U'
                                                || (c == b'P'
                                                    || (c == b'Q' || c == b'B')))))))))))))

-- `static_cast<MessageType>(type)`: the enumerator with that value, if there is one.
unfoldable pub of_char : ℕ → Option MessageType
of_char c =
    if c == b'S'
    then some system_event
    else if c == b'R'
    then some stock_directory
    else if c == b'H'
    then some stock_trading_action
    else if c == b'Y'
    then some reg_sho_restriction
    else if c == b'L'
    then some market_participant_pos
    else if c == b'A'
    then some add_order
    else if c == b'F'
    then some add_order_mpid
    else if c == b'E'
    then some order_executed
    else if c == b'C'
    then some order_executed_with_price
    else if c == b'X'
    then some order_cancel
    else if c == b'D'
    then some order_delete
    else if c == b'U'
    then some order_replace
    else if c == b'P'
    then some trade_non_cross
    else if c == b'Q'
    then some trade_cross
    else if c == b'B'
    then some broken_trade
    else none

-- Bytes of a message of that type, without the length prefix; 0 is the default of the switch.
unfoldable pub expected_length : Option MessageType → ℕ
expected_length (some system_event) = 12
expected_length (some stock_directory) = 39
expected_length (some stock_trading_action) = 25
expected_length (some reg_sho_restriction) = 20
expected_length (some market_participant_pos) = 26
expected_length (some add_order) = 36
expected_length (some add_order_mpid) = 40
expected_length (some order_executed) = 31
expected_length (some order_executed_with_price) = 36
expected_length (some order_cancel) = 23
expected_length (some order_delete) = 19
expected_length (some order_replace) = 35
expected_length (some trade_non_cross) = 44
expected_length (some trade_cross) = 40
expected_length (some broken_trade) = 19
expected_length none = 0
