-- ===== src/Sx126x/Receive.antt =====
-- Reception: the packet latch, the receive callback and the deferred interrupt service.
use leos_sdk.Prelude.{ℕ, true, false, if◌then◌else◌, ltb, ◌==◌, Option, none, some, Buffer, memcpy}
use leos_sdk.Prelude.Int.{pos}
use leos_sdk.Sx126x.Types.{Mode, standby, tx, PacketInfo}
use leos_sdk.Sx126x.Vendor.{
  Call, Irq, irq_tx_done, irq_rx_done, irq_crc_err, irq_timeout, irq_other, IrqRun, finished,
  callback, Driver,
}
use leos_sdk.Sx126x.Context.{Context, max_payload_len, State, Result, value, check, after}
use leos_sdk.Sx126x.Convert.{map_status}

-- `if (len > LEOS_SX126X_MAX_PAYLOAD_LEN) len = LEOS_SX126X_MAX_PAYLOAD_LEN;`
abbrev pub clamp_len : ℕ → ℕ
clamp_len len = if ltb max_payload_len len then max_payload_len else len

-- The copy of the packet into the context, before its RSSI and SNR are asked for.
unfoldable pub store_packet : Buffer → ℕ → Context → Context
store_packet buf len c = record c {
  rx_buf = memcpy c.rx_buf buf (clamp_len len);
  rx_len = clamp_len len;
  rx_info = let info = c.rx_info in record info { crc_ok = true };
}

-- `if (ctx->mode == LEOS_RADIO_MODE_TX) ctx->mode = LEOS_RADIO_MODE_STANDBY;`
abbrev pub leave_tx : Mode → Mode
leave_tx tx = standby
leave_tx m = m

module _ {W F : Type 0} (d : Driver W F) where
  -- The RSSI and SNR of the packet, zero where the vendor call fails, and the packet pending.
  finish_latch : Call W × F × F → State W → State W
  finish_latch (r, rssi_pkt, snr_pkt) s =
      let t = after d r s in
      let c = t.ctx in
      let info = c.rx_info in
      let info' : PacketInfo =
        if r.rc == 0
        then record info { rssi_dbm = d.to_int16 rssi_pkt; snr_db = d.to_int8 snr_pkt }
        else record info { rssi_dbm = pos 0; snr_db = pos 0 } in
      record t { ctx = record c { rx_info = info'; rx_pending = true } }

  latch_rx_from : Buffer → ℕ → State W → State W
  unfolding finish_latch store_packet
  latch_rx_from buf len s =
      let c = store_packet buf len s.ctx in
      let t = record s { ctx = c } in
      if s.ctx.rx_pending
      then (let old = s.ctx in record s { ctx = record old { rx_overrun = true } })
      else finish_latch (d.get_lora_packet_status c.radio c.handle s.world) t

  -- `leos_sx126x_latch_rx`: a NULL buffer changes nothing.
  unfoldable pub latch_rx : Option Buffer → ℕ → State W → State W
  unfolding latch_rx_from
  latch_rx none len s = s
  latch_rx (some buf) len s = latch_rx_from buf len s

  unfoldable pub receive_callback : Irq → Option Buffer → ℕ → State W → State W
  receive_callback irq_tx_done buf len s =
      let c = s.ctx in record s { ctx = record c { mode = standby } }
  receive_callback irq_rx_done buf len s = latch_rx buf len s
  receive_callback irq_crc_err buf len s =
      let c = s.ctx in record s { ctx = record c { mode = leave_tx c.mode } }
  receive_callback irq_timeout buf len s =
      let c = s.ctx in record s { ctx = record c { mode = leave_tx c.mode } }
  receive_callback (irq_other n) buf len s = s

  -- The run of `sx1262_irq_handler` to its end, the receive callback called where it calls it.
  unfoldable pub run_irq : IrqRun W → State W → Result ℕ × State W
  run_irq (finished r) s = (check (map_status r.rc) r.out, after d r s)
  run_irq (callback type buf len r rest) s =
      let t = receive_callback type buf len (after d r s) in run_irq (rest t.ctx.handle t.world) t

  unfoldable pub service_deferred_irq : State W → Result ℕ × State W
  service_deferred_irq s =
      let c = record s.ctx { irq_pending = false } in
      if s.ctx.irq_pending
      then run_irq (d.irq_handler c.radio c.handle s.world) (record s { ctx = c })
      else (value 0, s)
