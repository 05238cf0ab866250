-- ===== src/Transport/Receive.antt =====
-- The receive loop (src/leos_cyphal/transport/mcp251xfd/driver.c).
use leos_sdk.Prelude.{
  ℕ, zero, suc, ◌+◌, ◌%◌, ◌^◌, Bool, true, false, if◌then◌else◌, ◌==◌, Option, none, some, List,
}
use leos_sdk.Prelude.Int.{ℤ, pos, negsuc, is_negative}
use leos_sdk.Cyphal.Node.{Handler, dispatch}

-- A message of the controller, with the time stamp that comes with it.
pub record Received : Type 0 where
  pub id : ℕ
  pub dlc : ℕ
  pub payload_data : List ℕ
  pub timestamp_us : ℕ

-- `struct CanardRxTransfer` as far as the loop reads it, and the subscription.
pub record Transfer : Type 0 where
  pub payload : Option ℕ
  pub subscription : Option ℕ

-- The controller's library, libcanard with its heap, and the application's callbacks, over a world
-- that holds them all. FIFO1 is the only FIFO that is read.
pub record Receiver (W : Type 0) : Type 0 where
  -- MCP251XFD_GetFIFOStatus: an error, 0 for OK, and whether the FIFO is not empty.
  pub fifo_status : W → ℕ × Bool × W
  pub receive_message : W → ℕ × Received × W
  pub dlc_to_byte : ℕ → ℕ
  -- canardRxAccept: the time stamp, the identifier, the bytes and their number.
  pub rx_accept : ℕ → ℕ → List ℕ → ℕ → W → ℤ × Transfer × W
  -- What a variable of type eERRORRESULT holds after a result of canardRxAccept is put there.
  pub stored : ℤ → ℤ
  pub deallocate : Option ℕ → W → W
  pub handlers : W → ℕ → Handler
  -- A call of an application's callback, with the user reference.
  pub run_callback : ℕ × ℕ → Transfer → W → W

abbrev pub is_one : ℤ → Bool
is_one (pos n) = n == 1
is_one (negsuc _) = false

-- Where a turn of the loop ends: with `break` or an empty FIFO, or with another turn; with the
-- frames counted.
pub data Progress (W : Type 0) : Type 0 where
  stopped : ℕ → W → Progress W
  more : ℕ → W → Progress W

module _ {W : Type 0} (io : Receiver W) where
  -- The end of a turn.
  abbrev pub again : ℕ → ℕ × Bool × W → Progress W
  again count (result, not_empty, w) =
      if result == 0 then if not_empty then more count w else stopped count w else stopped count w

  abbrev pub call_back : Option (ℕ × ℕ) → Transfer → W → W
  call_back none transfer w = w
  call_back (some callback) transfer w = io.run_callback callback transfer w

  -- The subscription's callback, if any, and the release of the payload.
  unfoldable pub deliver : Transfer → W → W
  unfolding dispatch
  deliver transfer w =
      io.deallocate transfer.payload
        (call_back (dispatch (io.handlers w) true transfer.subscription) transfer w)

  unfoldable pub accepted : ℕ → ℤ × Transfer × W → Progress W
  unfolding deliver
  accepted count (result, transfer, w) =
      if is_one (io.stored result)
      then again count (io.fifo_status (deliver transfer w))
      else if is_negative (io.stored result)
      then stopped count w
      else again count (io.fifo_status w)

  unfoldable pub received : ℕ → ℕ × Received × W → Progress W
  unfolding accepted
  received count (result, m, w) =
      if result == 0
      then accepted ((count + 1) % 2 ^ 32)
          (io.rx_accept m.timestamp_us m.id m.payload_data (io.dlc_to_byte m.dlc) w)
      else stopped count w

  abbrev pub continue : Progress W → (ℕ → W → Option (ℕ × W)) → Option (ℕ × W)
  continue (stopped count w) rest = some (count, w)
  continue (more count w) rest = rest count w

  -- The do-while loop, on fuel, with the count so far.
  unfoldable pub drain : ℕ → ℕ → W → Option (ℕ × W)
  unfolding received
  drain zero count w = none
  drain (suc fuel) count w =
      continue (received count (io.receive_message w)) (λ count w. drain fuel count w)

  unfoldable pub drain_if : ℕ → ℕ × Bool × W → Option (ℕ × W)
  unfolding drain
  drain_if fuel (result, not_empty, w) =
      if result == 0 then if not_empty then drain fuel 0 w else some (0, w) else some (0, w)

  -- The frames that were processed.
  unfoldable pub rx_process : ℕ → W → Option (ℕ × W)
  unfolding drain_if
  rx_process fuel w = drain_if fuel (io.fifo_status w)
