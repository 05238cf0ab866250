-- ===== src/Mcp251xfd/Servicing.antt =====
-- The service of events faults nowhere and keeps the shape of the state.
use leos_sdk.Prelude.{ℕ, zero, suc, Bool, true, false, ◌≡◌, refl, Option, none, some}
use leos_sdk.Mcp251xfd.Types.{
  Context, Device, Code, no_interrupt, error_interrupt, wakeup_interrupt, opmode_change_occured,
  txq_interrupt, fifo1_interrupt, other, Flags, bus_error_event, bus_wakeup_event,
  operation_mode_change_event, rx_event, clearable_flags_mask, Platform,
}
use leos_sdk.Mcp251xfd.State.{Action, get_context, modify_context}
use leos_sdk.Mcp251xfd.Task.{
  clear, service_txq, run_callback, receive, service_fifo1, service, handle_event, serve, task_if,
  task_on,
}
use leos_sdk.Mcp251xfd.Consistency.{safe, SameShape-refl, modify_context-Keeps}
use leos_sdk.Mcp251xfd.Stable.{Stable, Stable-bind, Stable-pure, call-Stable}

module _ {W : Type 0} (p : Platform W) (a : ℕ) (d : Device) where
  clear-Stable : (flags : Flags) → Stable a (clear p d flags)
  unfolding clear
  clear-Stable flags =
      Stable-bind a _ _ (call-Stable a (p.clear_interrupt_events d flags)) (λ _. Stable-pure a tt)

  service_txq-Stable : (r : ℕ × Bool) → Stable a (service_txq p d r)
  unfolding service_txq
  service_txq-Stable (suc _, _) = Stable-pure a tt
  service_txq-Stable (zero, false) = Stable-pure a tt
  service_txq-Stable (zero, true) =
      Stable-bind a _ _ (call-Stable a (p.reset_txq d)) (λ _. Stable-pure a tt)

  run_callback-Stable : (c : Context) (f : Option ℕ) → Stable a (run_callback p d c f)
  unfolding run_callback
  run_callback-Stable c none = Stable-pure a tt
  run_callback-Stable c (some f) =
      Stable-bind a _ _ (call-Stable a (p.callback f c.cb_user_reference d)) (λ _. Stable-pure a tt)

  get_context-Stable : Stable {W = W} a (get_context a)
  unfolding get_context
  get_context-Stable s con (c, e) = rw e (safe (SameShape-refl s s.world))

  receive-Stable : (not_empty : Bool) → Stable a (receive p a d not_empty)
  unfolding receive
  receive-Stable false = Stable-pure a tt
  receive-Stable true =
      Stable-bind a (get_context a) _ get_context-Stable (λ c. run_callback-Stable c c.rx_cb)

  service_fifo1-Stable : (r : ℕ × Bool) → Stable a (service_fifo1 p a d r)
  unfolding service_fifo1
  service_fifo1-Stable (suc _, _) = Stable-pure a tt
  service_fifo1-Stable (zero, not_empty) =
      Stable-bind a _ _ (receive-Stable not_empty) (λ _.
        Stable-bind a _ _ (call-Stable a (p.clear_fifo1_events d)) (λ _. clear-Stable rx_event))

  service-Stable : (code : Code) → Stable a (service p a d code)
  unfolding service
  service-Stable no_interrupt = Stable-pure a tt
  service-Stable error_interrupt =
      Stable-bind a _ _ (call-Stable a (p.get_transmit_receive_error_status d))
        (λ _. clear-Stable bus_error_event)
  service-Stable wakeup_interrupt = clear-Stable bus_wakeup_event
  service-Stable opmode_change_occured =
      Stable-bind a _ _ (call-Stable a (p.get_actual_operation_mode d))
        (λ _. clear-Stable operation_mode_change_event)
  service-Stable txq_interrupt =
      Stable-bind a _ _ (call-Stable a (p.get_txq_status d)) service_txq-Stable
  service-Stable fifo1_interrupt =
      Stable-bind a _ _ (call-Stable a (p.get_fifo1_status d)) service_fifo1-Stable
  service-Stable (other _) = clear-Stable clearable_flags_mask

  handle_event-Stable :
      (rest : Action W Bool)
      → Stable a rest
      → (event : ℕ × Code) → Stable a (handle_event p a d rest event)
  unfolding handle_event
  handle_event-Stable rest h (suc _, _) = Stable-pure a true
  handle_event-Stable rest h (zero, no_interrupt) = Stable-pure a true
  handle_event-Stable rest h (zero, error_interrupt) =
      Stable-bind a _ _ (service-Stable error_interrupt) (λ _. h)
  handle_event-Stable rest h (zero, wakeup_interrupt) =
      Stable-bind a _ _ (service-Stable wakeup_interrupt) (λ _. h)
  handle_event-Stable rest h (zero, opmode_change_occured) =
      Stable-bind a _ _ (service-Stable opmode_change_occured) (λ _. h)
  handle_event-Stable rest h (zero, txq_interrupt) =
      Stable-bind a _ _ (service-Stable txq_interrupt) (λ _. h)
  handle_event-Stable rest h (zero, fifo1_interrupt) =
      Stable-bind a _ _ (service-Stable fifo1_interrupt) (λ _. h)
  handle_event-Stable rest h (zero, other n) = Stable-bind a _ _ (service-Stable (other n)) (λ _. h)

  serve-Stable : (fuel : ℕ) → Stable a (serve p fuel a d)
  unfolding serve
  serve-Stable zero = Stable-pure a false
  serve-Stable (suc fuel) =
      Stable-bind a _ _ (call-Stable a (p.get_current_interrupt_event d))
        (handle_event-Stable _ (serve-Stable fuel))

  modify_context-Stable :
      (f : Context → Context)
      → ((c : Context) → (f c).hw ≡ c.hw)
      → Stable {W = W} a (modify_context a f)
  modify_context-Stable f same s con (c, e) = modify_context-Keeps a f s c same e

  task_if-Stable : (fuel : ℕ) (pending : Bool) → Stable a (task_if p fuel a d pending)
  unfolding task_if
  task_if-Stable fuel false = Stable-pure a true
  task_if-Stable fuel true =
      Stable-bind a _ _ (modify_context-Stable _ (λ c. refl)) (λ _. serve-Stable fuel)

  pub task_on-Stable : (fuel : ℕ) → Stable a (task_on p fuel d (some a))
  unfolding task_on
  task_on-Stable fuel =
      Stable-bind a (get_context a) _ get_context-Stable (λ c. task_if-Stable fuel c.irq_pending)
