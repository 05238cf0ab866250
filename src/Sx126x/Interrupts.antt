-- ===== src/Sx126x/Interrupts.antt =====
-- DIO1 interrupts that come while the driver works.
use leos_sdk.Prelude.{
  true, false, ◌≡◌, refl, ◌⊎◌, inl, inr, arith, ℕ, Option, none, some, Buffer, if_cases,
}
use leos_sdk.Sx126x.Types.{Status, ok, rx}
use leos_sdk.Sx126x.Vendor.{
  Call, Irq, irq_tx_done, irq_rx_done, irq_crc_err, irq_timeout, irq_other, IrqRun, finished,
  callback, Driver,
}
use leos_sdk.Sx126x.Context.{State, Result, value, stop, status_of, after}
use leos_sdk.Sx126x.Receive.{
  store_packet, latch_rx, receive_callback, run_irq, service_deferred_irq,
}
use leos_sdk.Sx126x.Transmit.{finish_poll, poll_ctx, is_tx}
use leos_sdk.Sx126x.Api.{start_rx_ctx, begin_rx, prepare_rx, listen}
use leos_sdk.Sx126x.Frame.{then-post}
use leos_sdk.Sx126x.Invariant.Keeps.{Keeps-prepare_rx}
use leos_sdk.Sx126x.Polling.{after-SameTx, receive_callback-SameTx}

module _ {W F : Type 0} (d : Driver W F) where
  -- DIO1 interrupts one of the vendor's steps of the run again.
  abbrev pub Reinterrupted : IrqRun W → State W → Type 0
  Reinterrupted (finished r) s = r.dio1 ≡ true
  Reinterrupted (callback type buf len r rest) s =
      let t = receive_callback d type buf len (after d r s) in
      (r.dio1 ≡ true) ⊎ Reinterrupted (rest t.ctx.handle t.world) t

  after-pending :
      (r : Call W) (s : State W)
      → s.ctx.initialized ≡ true
      → (s.ctx.irq_pending ≡ true) ⊎ (r.dio1 ≡ true)
      → (after d r s).ctx.irq_pending ≡ true
  unfolding after
  after-pending r s live h = ground arith

  receive_callback-pending :
      (type : Irq) (buf : Option Buffer) (len : ℕ) (s : State W)
      → s.ctx.initialized ≡ true
      → s.ctx.irq_pending ≡ true
      → (receive_callback d type buf len s).ctx.irq_pending ≡ true
  unfolding receive_callback latch_rx store_packet
  receive_callback-pending irq_rx_done none len s live h = h
  receive_callback-pending irq_rx_done (some buf) len s live h =
      let c = store_packet buf len s.ctx in
      let t = record s { ctx = c } in
      let r = (d.get_lora_packet_status c.radio c.handle s.world).0 in
      ground (arith, after-pending r t)
  receive_callback-pending irq_tx_done buf len s live h = h
  receive_callback-pending irq_crc_err buf len s live h = h
  receive_callback-pending irq_timeout buf len s live h = h
  receive_callback-pending (irq_other n) buf len s live h = h

  -- Nothing in a run of the handler takes a latched interrupt back.
  run_irq-pending :
      (run : IrqRun W) (s : State W)
      → s.ctx.initialized ≡ true
      → (s.ctx.irq_pending ≡ true) ⊎ Reinterrupted run s
      → (run_irq d run s).1.ctx.irq_pending ≡ true
  unfolding run_irq
  run_irq-pending (finished r) s live h = after-pending r s live h
  run_irq-pending (callback type buf len r rest) s live h =
      let u = after d r s in
      let t = receive_callback d type buf len u in
      let live' : u.ctx.initialized ≡ true = ground (arith, after-SameTx d r s) in
      let live'' : t.ctx.initialized ≡ true =
        ground (arith, receive_callback-SameTx d type buf len u) in
      run_irq-pending (rest t.ctx.handle t.world) t live'' (elim h [
        | inl old ↦
            inl (receive_callback-pending type buf len u live' (after-pending r s live (inl old)))
        | inr (inl new) ↦
            inl (receive_callback-pending type buf len u live' (after-pending r s live (inr new)))
        | inr (inr later) ↦ inr later
      ])

  finish_poll-pending :
      (r : Result ℕ) (s : State W)
      → s.ctx.irq_pending ≡ true
      → (finish_poll d (r, s)).1.ctx.irq_pending ≡ true
  unfolding finish_poll
  finish_poll-pending (value a) s h = ground arith
  finish_poll-pending (stop e) s h = ground arith

  -- An interrupt that comes while poll services an earlier one is not lost: it is pending when
  -- poll returns, at whatever step of the vendor's handler it came.
  pub poll_ctx_late_irq :
      (s : State W)
      → s.ctx.initialized ≡ true
      → s.ctx.irq_pending ≡ true
      → (let c = record s.ctx { irq_pending = false } in
          Reinterrupted (d.irq_handler c.radio c.handle s.world) (record s { ctx = c }))
      → (poll_ctx d s).1.ctx.irq_pending ≡ true
  unfolding poll_ctx service_deferred_irq
  poll_ctx_late_irq s live first again =
      let c = record s.ctx { irq_pending = false } in
      let t = record s { ctx = c } in
      let run = d.irq_handler c.radio c.handle s.world in
      let (r, u) = run_irq d run t in
      let P = λ (x : Status × State W). x.1.ctx.irq_pending ≡ true in
      if_cases P s.ctx.initialized
        (λ _.
          if_cases (λ (x : Result ℕ × State W). P (finish_poll d x)) s.ctx.irq_pending
            (λ _. finish_poll-pending r u (run_irq-pending run t live (inr again))) (λ off. cc))
        (λ off. cc)

  abbrev IsReceiving : State W → Type 0
  IsReceiving s = (s.ctx.mode ≡ rx) × (s.ctx.irq_pending ≡ false)

  listen-IsReceiving : (s : State W) → status_of (listen s).0 ≡ ok → IsReceiving (listen s).1
  unfolding listen
  listen-IsReceiving s done = (refl, refl)

  begin_rx-IsReceiving :
      (s : State W) → status_of (begin_rx d s).0 ≡ ok → IsReceiving (begin_rx d s).1
  unfolding begin_rx
  begin_rx-IsReceiving =
      then-post W IsReceiving (prepare_rx d) listen (Keeps-prepare_rx d) listen-IsReceiving

  -- start_rx, by contrast, forgets: when it answers OK no interrupt is pending, so one that DIO1
  -- raised while the radio was already receiving (during sx1262_continuous_receive) is dropped.
  pub start_rx_ctx_forgets :
      (s : State W)
      → s.ctx.initialized ≡ true
      → is_tx s.ctx.mode ≡ false
      → (start_rx_ctx d s).0 ≡ ok
      → ((start_rx_ctx d s).1.ctx.mode ≡ rx) × ((start_rx_ctx d s).1.ctx.irq_pending ≡ false)
  unfolding start_rx_ctx begin_rx
  start_rx_ctx_forgets s live quiet =
      if_cases Forgot s.ctx.initialized
        (λ _. if_cases Forgot (is_tx s.ctx.mode) (λ busy. cc) (λ _. begin_rx-IsReceiving s))
        (λ off. cc)
    where
      Forgot : Status × State W → Type 0
      Forgot r = r.0 ≡ ok → IsReceiving r.1
