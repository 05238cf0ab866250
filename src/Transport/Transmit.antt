-- ===== src/Transport/Transmit.antt =====
-- Sending a frame (src/leos_cyphal/transport/mcp251xfd/driver.c).
use leos_sdk.Prelude.{ℕ, ◌-◌, ◌%◌, ◌^◌, Bool, true, false, if◌then◌else◌, leb, ◌==◌, List}
use leos_sdk.Prelude.Int.{ℤ, pos, int8}

-- The parameter is a uint8_t.
unfoldable pub bytes_to_dlc : ℕ → ℕ
bytes_to_dlc n =
    if leb n 8
    then n
    else if leb n 12
    then 9
    else if leb n 16
    then 10
    else if leb n 20
    then 11
    else if leb n 24
    then 12
    else if leb n 32
    then 13
    else if leb n 48
    then 14
    else 15

-- The frame of libcanard, and the message for the controller. The control flags are always those
-- of a CAN FD frame with an extended identifier, and are left out.
pub record Frame : Type 0 where
  pub extended_can_id : ℕ
  pub payload_size : ℕ
  pub payload : List ℕ

pub record Message : Type 0 where
  pub id : ℕ
  pub dlc : ℕ
  pub payload_data : List ℕ

-- The controller's library: an error is a number, 0 for OK; a status is its bits.
pub record Controller (W : Type 0) : Type 0 where
  pub txq_status : W → ℕ × Bool × W
  pub reset_txq : W → W
  pub transmit : Message → W → ℕ × W

-- `return -result` as int8_t.
unfoldable pub negated : ℕ → ℤ
negated result = int8 ((2 ^ 8 - result % 2 ^ 8) % 2 ^ 8)

unfoldable pub message_of : Frame → Message
unfolding bytes_to_dlc
message_of f = record {
  id = f.extended_can_id;
  dlc = bytes_to_dlc (f.payload_size % 256);
  payload_data = f.payload;
}

module _ {W : Type 0} (mcp : Controller W) where
  -- A full queue is emptied.
  unfoldable pub make_room : Bool → W → W
  make_room true w = w
  make_room false w = mcp.reset_txq w

  unfoldable pub send : Frame → W → ℤ × W
  unfolding message_of negated
  send f w =
      let (result, w') = mcp.transmit (message_of f) w in
      (if result == 0 then pos 1 else negated result, w')

  unfoldable pub tx_frame : Frame → W → ℤ × W
  unfolding make_room send negated
  tx_frame f w =
      let (result, not_full, w') = mcp.txq_status w in
      if result == 0 then send f (make_room not_full w') else (negated result, w')
