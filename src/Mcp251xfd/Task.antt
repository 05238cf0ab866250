-- ===== src/Mcp251xfd/Task.antt =====
-- leos_mcp251xfd_task of src/leos_mcp251xfd/mcp251xfd.c.
use leos_sdk.Prelude.{ℕ, zero, suc, Bool, true, false, Option, none, some}
use leos_sdk.Mcp251xfd.Types.{
  Context, Device, Code, no_interrupt, error_interrupt, wakeup_interrupt, opmode_change_occured,
  txq_interrupt, fifo1_interrupt, other, Flags, bus_error_event, bus_wakeup_event,
  operation_mode_change_event, rx_event, clearable_flags_mask, Platform,
}
use leos_sdk.Mcp251xfd.State.{Action, pure, ◌>>=◌, ◌>>◌, get_device, get_context, modify_context}
use leos_sdk.Mcp251xfd.Driver.{call}

module _ {W : Type 0} (p : Platform W) where
  unfoldable pub clear : Device → Flags → Action W (Unit {0})
  unfolding call
  clear d flags = do call (p.clear_interrupt_events d flags); pure tt

  -- The case MCP251XFD_TXQ_INTERRUPT after GetTXQStatus: an error leaves the switch.
  unfoldable pub service_txq : Device → ℕ × Bool → Action W (Unit {0})
  unfolding call
  service_txq d (suc _, _) = pure tt
  service_txq d (zero, false) = pure tt
  service_txq d (zero, true) = do call (p.reset_txq d); pure tt

  unfoldable pub run_callback : Device → Context → Option ℕ → Action W (Unit {0})
  unfolding call
  run_callback d c none = pure tt
  run_callback d c (some f) = do call (p.callback f c.cb_user_reference d); pure tt

  -- A receive FIFO that is not empty is left to the callback, if there is one.
  unfoldable pub receive : ℕ → Device → Bool → Action W (Unit {0})
  unfolding run_callback get_context
  receive a d false = pure tt
  receive a d true = do c ← get_context a; run_callback d c c.rx_cb

  unfoldable pub service_fifo1 : ℕ → Device → ℕ × Bool → Action W (Unit {0})
  unfolding receive clear call
  service_fifo1 a d (suc _, _) = pure tt
  service_fifo1 a d (zero, not_empty) = do
    receive a d not_empty
    call (p.clear_fifo1_events d)
    clear d rx_event

  -- The switch over the code of an event.
  unfoldable pub service : ℕ → Device → Code → Action W (Unit {0})
  unfolding clear service_txq service_fifo1 call
  service a d no_interrupt = pure tt
  service a d error_interrupt = do
    call (p.get_transmit_receive_error_status d)
    clear d bus_error_event
  service a d wakeup_interrupt = clear d bus_wakeup_event
  service a d opmode_change_occured = do
    call (p.get_actual_operation_mode d)
    clear d operation_mode_change_event
  service a d txq_interrupt = do r ← call (p.get_txq_status d); service_txq d r
  service a d fifo1_interrupt = do r ← call (p.get_fifo1_status d); service_fifo1 a d r
  service a d (other _) = clear d clearable_flags_mask

  -- What follows the question for the next event; `rest` is the next round.
  unfoldable pub handle_event : ℕ → Device → Action W Bool → ℕ × Code → Action W Bool
  unfolding service
  handle_event a d rest (suc _, _) = pure true
  handle_event a d rest (zero, no_interrupt) = pure true
  handle_event a d rest (zero, error_interrupt) = service a d error_interrupt >> rest
  handle_event a d rest (zero, wakeup_interrupt) = service a d wakeup_interrupt >> rest
  handle_event a d rest (zero, opmode_change_occured) = service a d opmode_change_occured >> rest
  handle_event a d rest (zero, txq_interrupt) = service a d txq_interrupt >> rest
  handle_event a d rest (zero, fifo1_interrupt) = service a d fifo1_interrupt >> rest
  handle_event a d rest (zero, other n) = service a d (other n) >> rest

  -- The loop; the answer is false when the fuel runs out.
  unfoldable pub serve : ℕ → ℕ → Device → Action W Bool
  unfolding handle_event call
  serve zero a d = pure false
  serve (suc fuel) a d = do
    event ← call (p.get_current_interrupt_event d)
    handle_event a d (λ s. serve fuel a d s) event

  -- Nothing is done unless the handler has latched an interrupt.
  unfoldable pub task_if : ℕ → ℕ → Device → Bool → Action W Bool
  unfolding serve modify_context
  task_if fuel a d false = pure true
  task_if fuel a d true = do
    modify_context a (λ c. record c { irq_pending = false })
    serve fuel a d

  unfoldable pub task_on : ℕ → Device → Option ℕ → Action W Bool
  unfolding task_if get_context
  task_on fuel d none = pure true
  task_on fuel d (some a) = do c ← get_context a; task_if fuel a d c.irq_pending

  unfoldable pub task : ℕ → Option ℕ → Action W Bool
  unfolding task_on
  task fuel none = pure true
  task fuel (some dev) = do d ← get_device dev; task_on fuel d d.user_driver_data
