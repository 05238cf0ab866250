-- ===== src/Sx126x/Invariant.antt =====
-- What holds of a context between two calls of the API, whatever the vendor library answers and
-- whenever DIO1 interrupts.
pub mod Keeps
pub mod Setup
pub mod Operations
use leos_sdk.Prelude.{
  ℕ, ◌≤◌, Bool, true, false, ◌≡◌, ◌≢◌, refl, arith, length, length-memcpy, memcpy, Option, none,
  some, Buffer,
}
use leos_sdk.Sx126x.Types.{uninit, tx, HwConfig, Config, Radio}
use leos_sdk.Sx126x.Vendor.{
  Call, Irq, irq_tx_done, irq_rx_done, irq_crc_err, irq_timeout, irq_other, IrqRun, finished,
  callback, Driver,
}
use leos_sdk.Sx126x.Context.{Context, State, after, latch_dio1}
use leos_sdk.Sx126x.Frame.{kept, kept-after}
use leos_sdk.Sx126x.Receive.{
  store_packet, clamp_len, latch_rx, receive_callback, run_irq, service_deferred_irq,
}
use leos_sdk.Sx126x.Transmit.{start_tx_ctx, poll_ctx}

pub record IsConsistent (c : Context) : Type 0 where
  -- The receive buffer is never resized, and its contents fit.
  pub buffer_size : length c.rx_buf ≡ 255
  pub rx_bounded : c.rx_len ≤ 255
  pub rx_empty : c.rx_pending ≡ false → c.rx_len ≡ 0
  -- The mode is TX only while a transmission is in flight.
  pub tx_counted : c.mode ≡ tx → c.tx_in_flight ≡ true
  -- The mode is UNINIT exactly before a successful init, and then nothing is in flight.
  pub mode_uninit : c.initialized ≡ false → c.mode ≡ uninit
  pub mode_init : c.initialized ≡ true → c.mode ≢ uninit
  pub uninit_idle : c.initialized ≡ false → c.tx_in_flight ≡ false

pub IsConsistent-kept : {c c' : Context} → kept c' ≡ kept c → IsConsistent c → IsConsistent c'
IsConsistent-kept e h = ground arith

pub latch_dio1-IsConsistent :
    (now : ℕ) (c : Context) → IsConsistent c → IsConsistent (latch_dio1 now c)
unfolding latch_dio1
latch_dio1-IsConsistent now c h = ground arith

module _ {W F : Type 0} (d : Driver W F) where
  pub after-IsConsistent :
      (r : Call W) (s : State W) → IsConsistent s.ctx → IsConsistent (after d r s).ctx
  after-IsConsistent r s h = IsConsistent-kept (kept-after d r s) h

  latch_rx-IsConsistent :
      (buf : Option Buffer) (len : ℕ) (s : State W)
      → IsConsistent s.ctx
      → IsConsistent (latch_rx d buf len s).ctx
  unfolding latch_rx
  latch_rx-IsConsistent none len s h = h
  latch_rx-IsConsistent (some buf) len s h =
      let c = store_packet buf len s.ctx in
      let t = record s { ctx = c } in
      let r = (d.get_lora_packet_status c.radio c.handle s.world).0 in
      ground (arith, kept-after d r t, length-memcpy s.ctx.rx_buf buf (clamp_len len))

  pub receive_callback-IsConsistent :
      (type : Irq) (buf : Option Buffer) (len : ℕ) (s : State W)
      → IsConsistent s.ctx
      → s.ctx.initialized ≡ true
      → IsConsistent (receive_callback d type buf len s).ctx
  unfolding receive_callback
  receive_callback-IsConsistent irq_rx_done buf len s h i = latch_rx-IsConsistent buf len s h
  receive_callback-IsConsistent irq_tx_done buf len s h i = ground arith
  receive_callback-IsConsistent irq_crc_err buf len s h i = ground arith
  receive_callback-IsConsistent irq_timeout buf len s h i = ground arith
  receive_callback-IsConsistent (irq_other n) buf len s h i = h
