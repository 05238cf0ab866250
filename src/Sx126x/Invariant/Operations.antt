-- ===== src/Sx126x/Invariant/Operations.antt =====
-- Every function of the API keeps its context consistent.
use leos_sdk.Prelude.{
  ℕ, ◌*◌, ◌||◌, true, false, ◌≡◌, refl, ap, ◌∙◌, arith, Buffer, if_cases, Option, none, some,
}
use leos_sdk.Prelude.Words.{u32}
use leos_sdk.Sx126x.Types.{Status}
use leos_sdk.Sx126x.Vendor.{
  Irq, irq_tx_done, irq_rx_done, irq_crc_err, irq_timeout, irq_other, IrqRun, finished, callback,
  Driver, set_tx, set_standby, xtal_32mhz,
}
use leos_sdk.Sx126x.Context.{Context, State, Result, value, stop, after, command}
use leos_sdk.Sx126x.Frame.{kept, kept-after, kept-command, Keeps-apply}
use leos_sdk.Sx126x.Receive.{
  store_packet, latch_rx, receive_callback, run_irq, service_deferred_irq,
}
use leos_sdk.Sx126x.Transmit.{
  finish_tx, is_tx, start_tx_ctx, prepare_tx, launch_tx, begin_tx, poll_ctx, finish_poll,
}
use leos_sdk.Sx126x.Api.{standby_ctx}
use leos_sdk.Sx126x.Invariant.{IsConsistent, IsConsistent-kept, receive_callback-IsConsistent}
use leos_sdk.Sx126x.Invariant.Keeps.{Keeps-prepare_tx}

-- Consistent, and set up by init.
pub record IsLive (c : Context) : Type 0 where
  pub consistent : IsConsistent c
  pub live : c.initialized ≡ true

pub IsLive-kept : {c c' : Context} → kept c' ≡ kept c → IsLive c → IsLive c'
IsLive-kept {c} {c'} e h = record {
  consistent = IsConsistent-kept e h.consistent;
  live = ap (λ k. k.initialized) e ∙ h.live;
}

module _ {W F : Type 0} (d : Driver W F) where
  receive_callback-initialized :
      (type : Irq) (buf : Option Buffer) (len : ℕ) (s : State W)
      → (receive_callback d type buf len s).ctx.initialized ≡ s.ctx.initialized
  unfolding receive_callback latch_rx
  receive_callback-initialized irq_rx_done none len s = refl
  receive_callback-initialized irq_rx_done (some buf) len s =
      let c = store_packet buf len s.ctx in
      let t = record s { ctx = c } in
      let r = (d.get_lora_packet_status c.radio c.handle s.world).0 in
      ground (arith, kept-after d r t)
  receive_callback-initialized irq_tx_done buf len s = refl
  receive_callback-initialized irq_crc_err buf len s = refl
  receive_callback-initialized irq_timeout buf len s = refl
  receive_callback-initialized (irq_other n) buf len s = refl

  run_irq-IsLive : (run : IrqRun W) (s : State W) → IsLive s.ctx → IsLive (run_irq d run s).1.ctx
  unfolding run_irq
  run_irq-IsLive (finished r) s h = IsLive-kept (kept-after d r s) h
  run_irq-IsLive (callback type buf len r rest) s h =
      let u = after d r s in
      let t = receive_callback d type buf len u in
      let h' : IsLive u.ctx = IsLive-kept (kept-after d r s) h in
      run_irq-IsLive (rest t.ctx.handle t.world) t (record {
        consistent = receive_callback-IsConsistent d type buf len u h'.consistent h'.live;
        live = receive_callback-initialized type buf len u ∙ h'.live;
      })

  service_deferred_irq-IsLive :
      (s : State W) → IsLive s.ctx → IsLive (service_deferred_irq d s).1.ctx
  unfolding service_deferred_irq
  service_deferred_irq-IsLive s h =
      let c = record s.ctx { irq_pending = false } in
      if_cases (λ (r : Result ℕ × State W). IsLive r.1.ctx) s.ctx.irq_pending
        (λ _.
          run_irq-IsLive (d.irq_handler c.radio c.handle s.world) (record s { ctx = c })
            (IsLive-kept {c = s.ctx} refl h))
        (λ _. h)

  finish_poll-IsConsistent :
      (r : Result ℕ) (s : State W) → IsLive s.ctx → IsConsistent (finish_poll d (r, s)).1.ctx
  unfolding finish_poll
  finish_poll-IsConsistent (value a) s h = ground arith
  finish_poll-IsConsistent (stop e) s h = ground arith

  -- poll keeps the context consistent, whatever the vendor's interrupt handler does.
  pub poll_ctx-IsConsistent : (s : State W) → IsConsistent s.ctx → IsConsistent (poll_ctx d s).1.ctx
  unfolding poll_ctx
  poll_ctx-IsConsistent s h =
      if_cases (λ (r : Status × State W). IsConsistent r.1.ctx) s.ctx.initialized
        (λ e.
          let (r, t) = service_deferred_irq d s in
          finish_poll-IsConsistent r t
            (service_deferred_irq-IsLive s (record { consistent = h; live = e })))
        (λ _. h)

  finish_tx-IsConsistent :
      (r : Result ℕ) (s : State W) → IsLive s.ctx → IsConsistent (finish_tx d (r, s)).1.ctx
  unfolding finish_tx
  finish_tx-IsConsistent (value a) s h = h.consistent
  finish_tx-IsConsistent (stop e) s h = ground arith

  begin_tx-IsLive : (now : ℕ) (c : Context) → IsLive c → IsLive (begin_tx now c)
  unfolding begin_tx
  begin_tx-IsLive now c h = ground arith

  launch_tx-IsConsistent :
      (r : Result ℕ) (s : State W) → IsLive s.ctx → IsConsistent (launch_tx d (r, s)).1.ctx
  unfolding launch_tx
  launch_tx-IsConsistent (stop e) s h = h.consistent
  launch_tx-IsConsistent (value a) s h =
      let c = begin_tx (d.now_ms s.world) s.ctx in
      let t = record s { ctx = c } in
      let cmd = set_tx (u32 ((c.config).tx_timeout_ms * 1000)) in
      finish_tx-IsConsistent (command d cmd t).0 (command d cmd t).1
        (IsLive-kept (kept-command d cmd t) (begin_tx-IsLive (d.now_ms s.world) s.ctx h))

  pub start_tx_ctx-IsConsistent :
      (payload : Buffer) (len : ℕ) (s : State W)
      → IsConsistent s.ctx
      → IsConsistent (start_tx_ctx d payload len s).1.ctx
  unfolding start_tx_ctx
  start_tx_ctx-IsConsistent payload len s h =
      if_cases Good s.ctx.initialized
        (λ e.
          if_cases Good (s.ctx.tx_in_flight || is_tx s.ctx.mode) (λ _. h)
            (λ _.
              let (r, t) = prepare_tx d payload len s in
              let same = Keeps-apply W _ (Keeps-prepare_tx d payload len) s in
              launch_tx-IsConsistent r t (IsLive-kept same (record { consistent = h; live = e }))))
        (λ _. h)
    where
      Good : Status × State W → Type 0
      Good r = IsConsistent r.1.ctx

  pub standby_ctx-IsConsistent :
      (s : State W) → IsConsistent s.ctx → IsConsistent (standby_ctx d s).1.ctx
  unfolding standby_ctx
  standby_ctx-IsConsistent s h = ground (arith, kept-command d (set_standby xtal_32mhz) s)
