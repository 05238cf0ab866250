-- ===== src/Sx126x/Polling.antt =====
-- What a call of poll says about a transmission, and what it does to interrupts.
use leos_sdk.Prelude.{
  ℕ, ◌+◌, ◌≤◌, ◌<◌, true, false, ◌≡◌, ◌≢◌, ap, inl, inr, arith, Option, none, some, Buffer,
  Bool-cases, if_cases,
}
use leos_sdk.Prelude.Words.{sub_u64, u64_mod}
use leos_sdk.Sx126x.Types.{Config, Status, ok, err_timeout, standby}
use leos_sdk.Sx126x.Vendor.{
  Call, Irq, irq_tx_done, irq_rx_done, irq_crc_err, irq_timeout, irq_other, IrqRun, finished,
  callback, Driver,
}
use leos_sdk.Sx126x.Context.{Context, State, Result, value, stop, after}
use leos_sdk.Sx126x.Convert.{map_status}
use leos_sdk.Sx126x.Frame.{kept-after, check-ne-stop_ok}
use leos_sdk.Sx126x.Receive.{
  store_packet, latch_rx, receive_callback, run_irq, service_deferred_irq,
}
use leos_sdk.Sx126x.Transmit.{tx_outcome, finish_poll, poll_ctx}

-- The fields of a transmission that the interrupt service does not write.
abbrev pub SameTx : Context → Context → Type 0
SameTx c' c =
    (c'.tx_in_flight ≡ c.tx_in_flight)
    × (c'.tx_started_at_ms ≡ c.tx_started_at_ms)
    × (c'.last_tx_status ≡ c.last_tx_status)
    × (c'.config ≡ c.config)
    × (c'.initialized ≡ c.initialized)

-- How a transmission stands after a poll at the time `now` that took `c` to `c'` and answered
-- `status`.
pub record Polled (now : ℕ) (c : Context) (status : Status) (c' : Context) : Type 0 where
  -- Still in flight: no error, neither flag of the handle is set, its time is not over, and its
  -- start and the configuration are what they were.
  pub running :
      c'.tx_in_flight ≡ true
      → (status ≡ ok)
        × ((c'.handle).tx_done ≡ 0)
        × ((c'.handle).timeout ≡ 0)
        × (sub_u64 now c'.tx_started_at_ms < (c'.config).tx_timeout_ms)
        × (c'.tx_started_at_ms ≡ c.tx_started_at_ms)
        × (c'.config ≡ c.config)
  -- Ended by this call: the mode is STANDBY, and the outcome is the error that the call answers,
  -- else OK exactly if the handle says that the transmission was done, else a timeout.
  pub ended :
      c.tx_in_flight ≡ true
      → c'.tx_in_flight ≡ false
      → (c'.mode ≡ standby)
        × (status ≢ ok → c'.last_tx_status ≡ status)
        × (status ≡ ok → (c'.handle).tx_done ≢ 0 → c'.last_tx_status ≡ ok)
        × (status ≡ ok → (c'.handle).tx_done ≡ 0 → c'.last_tx_status ≡ err_timeout)
  -- None in flight before: none after, and the last outcome stays.
  pub idle :
      c.tx_in_flight ≡ false → (c'.tx_in_flight ≡ false) × (c'.last_tx_status ≡ c.last_tx_status)

module _ {W F : Type 0} (d : Driver W F) where
  pub after-SameTx : (r : Call W) (s : State W) → SameTx (after d r s).ctx s.ctx
  after-SameTx r s = ground (arith, kept-after d r s)

  pub receive_callback-SameTx :
      (type : Irq) (buf : Option Buffer) (len : ℕ) (s : State W)
      → SameTx (receive_callback d type buf len s).ctx s.ctx
  unfolding receive_callback latch_rx
  receive_callback-SameTx irq_rx_done none len s = ground arith
  receive_callback-SameTx irq_rx_done (some buf) len s =
      let c = store_packet buf len s.ctx in
      let t = record s { ctx = c } in
      let r = (d.get_lora_packet_status c.radio c.handle s.world).0 in
      ground (arith, kept-after d r t)
  receive_callback-SameTx irq_tx_done buf len s = ground arith
  receive_callback-SameTx irq_crc_err buf len s = ground arith
  receive_callback-SameTx irq_timeout buf len s = ground arith
  receive_callback-SameTx (irq_other n) buf len s = ground arith

  run_irq-SameTx : (run : IrqRun W) (s : State W) → SameTx (run_irq d run s).1.ctx s.ctx
  unfolding run_irq
  run_irq-SameTx (finished r) s = after-SameTx r s
  run_irq-SameTx (callback type buf len r rest) s =
      let u = after d r s in
      let t = receive_callback d type buf len u in
      ground (
        arith,
        after-SameTx r s,
        receive_callback-SameTx type buf len u,
        run_irq-SameTx (rest t.ctx.handle t.world) t,
      )

  run_irq-ne-stop_ok : (run : IrqRun W) (s : State W) → (run_irq d run s).0 ≢ stop ok
  unfolding run_irq
  run_irq-ne-stop_ok (finished r) s = check-ne-stop_ok (map_status r.rc) r.out
  run_irq-ne-stop_ok (callback type buf len r rest) s =
      let t = receive_callback d type buf len (after d r s) in
      run_irq-ne-stop_ok (rest t.ctx.handle t.world) t

  pub service_deferred_irq_lem :
      (s : State W)
      → SameTx (service_deferred_irq d s).1.ctx s.ctx × ((service_deferred_irq d s).0 ≢ stop ok)
  unfolding service_deferred_irq
  service_deferred_irq_lem s =
      let c = record s.ctx { irq_pending = false } in
      let t = record s { ctx = c } in
      let run = d.irq_handler c.radio c.handle s.world in
      if_cases (λ (r : Result ℕ × State W). SameTx r.1.ctx s.ctx × (r.0 ≢ stop ok))
        s.ctx.irq_pending (λ _. (run_irq-SameTx run t, run_irq-ne-stop_ok run t))
        (λ _. (ground arith, λ q. cc))

  finish_poll-Polled :
      (c : Context) (r : Result ℕ) (s : State W)
      → r ≢ stop ok
      → SameTx s.ctx c
      → let (status, t) = finish_poll d (r, s) in Polled (d.now_ms t.world) c status t.ctx
  unfolding finish_poll tx_outcome
  finish_poll-Polled c (value a) s h same = ground arith
  finish_poll-Polled c (stop e) s h same = let e-ne-ok : e ≢ ok = λ q. h (ap stop q) in ground arith

  -- After a poll of an initialized radio the transmission stands as Polled says: it is in flight
  -- only while nothing failed, its flags are clear and its time is not over; a transmission that
  -- this call ended leaves the radio in STANDBY with the outcome that the call saw; and where
  -- none was in flight none is, and the last outcome stays. This is so whatever the vendor's
  -- interrupt handler does.
  pub poll_ctx-Polled :
      (s : State W)
      → s.ctx.initialized ≡ true
      → let (status, t) = poll_ctx d s in Polled (d.now_ms t.world) s.ctx status t.ctx
  unfolding poll_ctx
  poll_ctx-Polled s live =
      let (same, honest) = service_deferred_irq_lem s in
      let (r, t) = service_deferred_irq d s in simp live (finish_poll-Polled s.ctx r t honest same)

  -- The deadline on a clock that has not wrapped: once tx_timeout_ms have passed since the start
  -- of the transmission, a poll leaves none in flight.
  pub poll_ctx_deadline :
      (s : State W)
      → s.ctx.initialized ≡ true
      → let t = (poll_ctx d s).1 in
        d.now_ms t.world < u64_mod
        → s.ctx.tx_started_at_ms + (s.ctx.config).tx_timeout_ms ≤ d.now_ms t.world
        → t.ctx.tx_in_flight ≡ false
  poll_ctx_deadline s live fits late =
      let t = (poll_ctx d s).1 in
      elim (Bool-cases t.ctx.tx_in_flight) [
        | inr over ↦ over
        | inl still ↦
            let (_, _, _, early, same_start, same_config) =
              (poll_ctx-Polled s live).running still in
            let same_timeout = ap (λ (k : Config). k.tx_timeout_ms) same_config in
            absurd (omega arith)
      ]
