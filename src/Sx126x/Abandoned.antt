-- ===== src/Sx126x/Abandoned.antt =====
-- A transmission that standby cuts short stays in flight for the driver.
use leos_sdk.Prelude.{ℕ, ◌≤◌, true, false, if◌then◌else◌, ◌==◌, ◌≡◌, ap, arith, if_cases}
use leos_sdk.Prelude.Words.{sub_u64}
use leos_sdk.Sx126x.Types.{Status, ok, err_timeout, standby, rx}
use leos_sdk.Sx126x.Vendor.{Driver, set_standby, xtal_32mhz}
use leos_sdk.Sx126x.Context.{Context, State, Result, value, stop, continue}
use leos_sdk.Sx126x.Frame.{kept-command, command-ne-stop_ok, Keeps-apply}
use leos_sdk.Sx126x.Receive.{service_deferred_irq}
use leos_sdk.Sx126x.Transmit.{is_tx, tx_outcome, finish_poll, poll_ctx}
use leos_sdk.Sx126x.Api.{standby_ctx, start_rx_ctx, begin_rx, prepare_rx, listen}
use leos_sdk.Sx126x.Interrupts.{start_rx_ctx_forgets}
use leos_sdk.Sx126x.Invariant.Keeps.{Keeps-prepare_rx}

-- A transmission in flight on an initialized radio, begun and bounded as in `c`.
pub record InFlight (c c' : Context) : Type 0 where
  pub live : c'.initialized ≡ true
  pub flying : c'.tx_in_flight ≡ true
  pub same_start : c'.tx_started_at_ms ≡ c.tx_started_at_ms
  pub same_timeout : (c'.config).tx_timeout_ms ≡ (c.config).tx_timeout_ms

-- The outcome that is told of a transmission whose time is over.
abbrev pub outcome_of : Context → Status
outcome_of c = if (c.handle).tx_done == 0 then err_timeout else ok

module _ {W F : Type 0} (d : Driver W F) where
  standby_ctx-InFlight :
      (c : Context) (s : State W)
      → InFlight c s.ctx
      → (standby_ctx d s).0 ≡ ok
      → InFlight c (standby_ctx d s).1.ctx × ((standby_ctx d s).1.ctx.mode ≡ standby)
  unfolding standby_ctx
  standby_ctx-InFlight c s h done = ground (
    arith,
    kept-command d (set_standby xtal_32mhz) s,
    command-ne-stop_ok d (set_standby xtal_32mhz) s,
  )

  listen-InFlight :
      (c : Context) (r : Result ℕ) (s : State W)
      → InFlight c s.ctx
      → InFlight c (continue (λ _. listen) r s).1.ctx
  unfolding listen
  listen-InFlight c (value a) s h = ground arith
  listen-InFlight c (stop e) s h = h

  start_rx_ctx-InFlight :
      (c : Context) (s : State W) → InFlight c s.ctx → InFlight c (start_rx_ctx d s).1.ctx
  unfolding start_rx_ctx begin_rx
  start_rx_ctx-InFlight c s h =
      let (r, t) = prepare_rx d s in
      let same = Keeps-apply W (prepare_rx d) (Keeps-prepare_rx d) s in
      let h' : InFlight c t.ctx = ground arith in
      if_cases (λ (x : Status × State W). InFlight c x.1.ctx) s.ctx.initialized
        (λ _.
          if_cases (λ (x : Status × State W). InFlight c x.1.ctx) (is_tx s.ctx.mode) (λ _. h)
            (λ _. listen-InFlight c r t h'))
        (λ _. h)

  poll_ctx_stale :
      (s : State W)
      → s.ctx.initialized ≡ true
      → s.ctx.irq_pending ≡ false
      → s.ctx.tx_in_flight ≡ true
      → (s.ctx.config).tx_timeout_ms ≤ sub_u64 (d.now_ms s.world) s.ctx.tx_started_at_ms
      → let t = (poll_ctx d s).1 in
        (t.ctx.mode ≡ standby)
        × (t.ctx.tx_in_flight ≡ false)
        × (t.ctx.last_tx_status ≡ outcome_of s.ctx)
        × (t.world ≡ s.world)
  unfolding poll_ctx service_deferred_irq finish_poll tx_outcome
  poll_ctx_stale s live quiet flying late = ground arith

  -- Where standby and then start_rx answer OK during a transmission of an initialized radio, the
  -- mode is RX with the transmission still in flight. Once its time is over, as seen at a later
  -- state of the world, a poll tells its outcome, the timeout unless the handle's flag of a
  -- transmission done is set, and reports the mode STANDBY with nothing in flight, and that state
  -- of the world stays: no call of the vendor library has ended the reception.
  pub poll-start_rx-standby :
      (s : State W) (w : W)
      → s.ctx.initialized ≡ true
      → s.ctx.tx_in_flight ≡ true
      → (standby_ctx d s).0 ≡ ok
      → let s' = (standby_ctx d s).1 in
        (start_rx_ctx d s').0 ≡ ok
        → (s.ctx.config).tx_timeout_ms ≤ sub_u64 (d.now_ms w) s.ctx.tx_started_at_ms
        → let s'' = (start_rx_ctx d s').1 in
          let t = (poll_ctx d (record s'' { world = w })).1 in
          (s''.ctx.mode ≡ rx)
          × (s''.ctx.tx_in_flight ≡ true)
          × (t.ctx.mode ≡ standby)
          × (t.ctx.tx_in_flight ≡ false)
          × (t.ctx.last_tx_status ≡ outcome_of s''.ctx)
          × (t.world ≡ w)
  poll-start_rx-standby s w live flying stood listening late =
      let (h, mode_standby) = standby_ctx-InFlight s.ctx s (ground arith) stood in
      let s' = (standby_ctx d s).1 in
      let h' = start_rx_ctx-InFlight s.ctx s' h in
      let quiet : is_tx s'.ctx.mode ≡ false = ap is_tx mode_standby in
      let (receiving, forgot) = start_rx_ctx_forgets d s' h.live quiet listening in
      let t = (start_rx_ctx d s').1 in
      let (m, over, told, same) =
        poll_ctx_stale (record t { world = w }) h'.live forgot h'.flying (ground arith) in
      (receiving, h'.flying, m, over, told, same)
