-- ===== src/Transport/Link.antt =====
-- The transport that the node is given, and its use by libcanard
-- (src/leos_cyphal/transport/mcp251xfd/driver.c and src/leos_cyphal/node/cyphal.c).
use leos_sdk.Prelude.{ℕ, Option}
use leos_sdk.Prelude.Int.{ℤ}
use leos_sdk.Transport.Transmit.{Frame, Controller, tx_frame}
use leos_sdk.Transport.Receive.{Receiver, rx_process}

-- `leos_cyphal_transport_t`, with the device in its functions; the receive process is on fuel.
pub record Transport (W : Type 0) : Type 0 where
  pub tx_frame : Frame → W → ℤ × W
  pub rx_process : ℕ → W → Option (ℕ × W)

unfoldable pub transport_mcp251xfd : {W : Type 0} → Controller W → Receiver W → Transport W
transport_mcp251xfd mcp io = record {
  tx_frame = λ f w. tx_frame mcp f w;
  rx_process = λ fuel w. rx_process io fuel w;
}

-- The deadline is passed on to a function that does not use it.
unfoldable pub tx_callback : {W : Type 0} → Transport W → Frame → W → ℤ × W
tx_callback transport frame w = transport.tx_frame frame w
