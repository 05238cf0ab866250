-- ===== src/Sx126x/Reception.antt =====
-- What the receive path promises: the packet that the vendor hands over is the packet that a read
-- returns, once, and a later packet cannot overwrite it.
use leos_sdk.Prelude.{
  ℕ, ◌≤◌, ◌<◌, Bool, true, false, ◌≡◌, arith, if◌then◌else◌, none, some, Buffer, bytes, take,
  take-memcpy,
}
use leos_sdk.Sx126x.Types.{ok, err_arg, err_state}
use leos_sdk.Sx126x.Vendor.{Driver, irq_rx_done}
use leos_sdk.Sx126x.Context.{Context, State}
use leos_sdk.Sx126x.Frame.{kept-after}
use leos_sdk.Sx126x.Receive.{clamp_len, store_packet, latch_rx, receive_callback}
use leos_sdk.Sx126x.Api.{read_ctx}

-- What a context holds once a packet of `len` bytes at `buf` is latched.
pub record Holds (buf : Buffer) (len : ℕ) (c : Context) : Type 0 where
  pub pending : c.rx_pending ≡ true
  pub len_stored : c.rx_len ≡ clamp_len len
  pub payload_stored : take c.rx_len c.rx_buf ≡ bytes buf (clamp_len len)
  pub crc_stored : (c.rx_info).crc_ok ≡ true

module _ {W F : Type 0} (d : Driver W F) where
  latch-Holds :
      (buf : Buffer) (len : ℕ) (s : State W)
      → s.ctx.rx_pending ≡ false
      → Holds buf len (receive_callback d irq_rx_done (some buf) len s).ctx
  unfolding receive_callback latch_rx store_packet
  latch-Holds buf len s free =
      let c = store_packet buf len s.ctx in
      let t = record s { ctx = c } in
      let r = (d.get_lora_packet_status c.radio c.handle s.world).0 in
      ground (arith, kept-after d r t, take-memcpy s.ctx.rx_buf buf (clamp_len len))

  latch-initialized :
      (buf : Buffer) (len : ℕ) (s : State W)
      → (receive_callback d irq_rx_done (some buf) len s).ctx.initialized ≡ s.ctx.initialized
  unfolding receive_callback latch_rx store_packet
  latch-initialized buf len s =
      let c = store_packet buf len s.ctx in
      let t = record s { ctx = c } in
      let r = (d.get_lora_packet_status c.radio c.handle s.world).0 in
      ground (arith, kept-after d r t)

  -- A packet that RX_DONE reports to an initialized radio with no packet pending is what the next
  -- read with a large enough buffer returns: its first 255 bytes at most, their number, and (if
  -- asked for) metadata that says the CRC passed; the packet is then consumed.
  pub read-receive_callback :
      (buf : Buffer) (len size : ℕ) (wants_info : Bool) (s : State W)
      → s.ctx.initialized ≡ true
      → s.ctx.rx_pending ≡ false
      → clamp_len len ≤ size
      → let c = (receive_callback d irq_rx_done (some buf) len s).ctx in
        (read_ctx size wants_info c ≡ (
          (
            ok,
            some (record {
              data_bytes = bytes buf (clamp_len len);
              out_len = clamp_len len;
              info = if wants_info then some c.rx_info else none;
            }),
          ),
          record c { rx_pending = false; rx_len = 0 },
        ))
        × ((c.rx_info).crc_ok ≡ true)
  unfolding read_ctx
  read-receive_callback buf len size wants_info s live free room =
      ground (arith, latch-Holds buf len s free, latch-initialized buf len s)

  -- A packet that RX_DONE reports while another is pending is dropped: only the overrun flag
  -- changes, so the first packet is still the one that is read.
  pub receive_callback_overrun :
      (buf : Buffer) (len : ℕ) (s : State W)
      → s.ctx.rx_pending ≡ true
      → receive_callback d irq_rx_done (some buf) len s
        ≡ (let c = s.ctx in record s { ctx = record c { rx_overrun = true } })
  unfolding receive_callback latch_rx
  receive_callback_overrun buf len s busy = ground arith

-- A read of an initialized radio hands over the pending packet exactly when the buffer is large
-- enough. With too small a buffer it answers ERR_ARG and keeps the packet, and with no packet
-- pending ERR_STATE; in these two cases the context is unchanged.
pub read_ctx_cases :
    (size : ℕ) (wants_info : Bool) (c : Context)
    → c.initialized ≡ true
    → (c.rx_pending ≡ false → read_ctx size wants_info c ≡ ((err_state, none), c))
      × (c.rx_pending ≡ true → size < c.rx_len → read_ctx size wants_info c ≡ ((err_arg, none), c))
      × (c.rx_pending ≡ true
          → c.rx_len ≤ size
          → ((read_ctx size wants_info c).0.0 ≡ ok)
            × ((read_ctx size wants_info (read_ctx size wants_info c).1).0 ≡ (err_state, none)))
unfolding read_ctx
read_ctx_cases size wants_info c live = (ground arith, ground arith, ground arith)
