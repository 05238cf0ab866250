-- ===== src/LinuxPort/Clock.antt =====
-- The radio driver on the clock of the port (src/leos_sx126x/sx126x.c over sx126x_port_linux.c).
use leos_sdk.Prelude.{ℕ, ◌+◌, ◌≤◌, ◌<◌, true, false, Bool-cases, ◌≡◌, refl, ap, inl, inr, arith}
use leos_sdk.Prelude.Int.{negsuc}
use leos_sdk.Prelude.Words.{u64_mod}
use leos_sdk.Sx126x.Types.{Config, ok, err_timeout}
use leos_sdk.Sx126x.Vendor.{Driver}
use leos_sdk.Sx126x.Context
use leos_sdk.Sx126x.Transmit.{poll_ctx}
use leos_sdk.Sx126x.Polling.{poll_ctx-Polled}
use leos_sdk.LinuxPort.Gpiod.{Gpiod, State}
use leos_sdk.LinuxPort.Bus.{now_ms}

module _ {W F : Type 0} (lib : Gpiod W) (d : Driver (State W) F) where
  -- The driver whose clock is the port's.
  unfoldable pub on_linux : Driver (State W) F
  on_linux = record d { now_ms = λ s. now_ms lib s.world }

  now_ms-fails : (n : ℕ) (w : W) → (lib.clock_gettime w).0 ≡ negsuc n → now_ms lib w ≡ 0
  unfolding now_ms
  now_ms-fails n w e = rw (e, now_ms) refl

  -- For an initialized radio on the port's clock, with a transmission that did not start at 0 ms and
  -- whose deadline does not wrap: a poll that answers OK, at whose end clock_gettime fails and the
  -- radio has not said that the transmission was done, leaves no transmission in flight and its
  -- outcome as a timeout, whatever the age of the transmission.
  pub poll_ctx-clock_fails :
      (n : ℕ) (s : Context.State (State W))
      → s.ctx.initialized ≡ true
      → s.ctx.tx_in_flight ≡ true
      → 0 < s.ctx.tx_started_at_ms
      → s.ctx.tx_started_at_ms + (s.ctx.config).tx_timeout_ms ≤ u64_mod
      → let (status, t) = poll_ctx on_linux s in
        (lib.clock_gettime t.world.world).0 ≡ negsuc n
        → status ≡ ok
        → (t.ctx.handle).tx_done ≡ 0
        → (t.ctx.tx_in_flight ≡ false) × (t.ctx.last_tx_status ≡ err_timeout)
  unfolding on_linux
  poll_ctx-clock_fails n s live flies late fits fails good quiet =
      let t = (poll_ctx on_linux s).1 in
      let polled = poll_ctx-Polled on_linux s live in
      let now = now_ms-fails n t.world.world fails in
      let over : t.ctx.tx_in_flight ≡ false = elim (Bool-cases t.ctx.tx_in_flight) [
        | inr over ↦ over
        | inl still ↦
            let (_, _, _, early, same_start, same_config) = polled.running still in
            let same_timeout = ap (λ (k : Config). k.tx_timeout_ms) same_config in
            absurd (omega arith)
      ] in
      let (_, _, _, timed_out) = polled.ended flies over in (over, timed_out good quiet)
