-- ===== src/Sx126x/Transmit.antt =====
-- Transmission: start_tx, and poll, which services interrupts and ends a transmission.
use leos_sdk.Prelude.{
  ℕ, ◌*◌, Bool, true, false, not, ◌||◌, if◌then◌else◌, leb, ◌==◌, Option, none, some, List, [], ◌∷◌,
  Buffer, bytes,
}
use leos_sdk.Prelude.Words.{u8, u16, u32, sub_u64}
use leos_sdk.Sx126x.Types.{Status, ok, err_state, err_timeout, err_busy, Mode, standby, tx}
use leos_sdk.Sx126x.Vendor.{
  xtal_32mhz, irq_tx_done, irq_timeout, Irq, Driver, set_standby, clear_irq_status,
  set_dio_irq_params, write_buffer, set_tx,
}
use leos_sdk.Sx126x.Context.{
  Context, max_payload_len, irq_mask_all, State, Result, value, stop, Action, ◌>>◌, command,
  commands,
}
use leos_sdk.Sx126x.Setup.{apply_packet_params}
use leos_sdk.Sx126x.Receive.{service_deferred_irq}

abbrev pub is_tx : Mode → Bool
is_tx tx = true
is_tx _ = false

abbrev pub irq_mask_tx : List Irq
irq_mask_tx = irq_tx_done ∷ irq_timeout ∷ []

-- `(data == NULL) || (len == 0u) || (len > LEOS_SX126X_MAX_PAYLOAD_LEN)`, or the payload.
unfoldable pub payload_of : Option Buffer → ℕ → Option Buffer
payload_of none len = none
payload_of (some payload) len =
    if len == 0 || not (leb len max_payload_len) then none else some payload

-- The end of a transmission: how it ended, and no transmission in flight.
abbrev pub end_tx : Status → Context → Context
end_tx status c = record c {
  tx_in_flight = false;
  tx_started_at_ms = 0;
  last_tx_status = status;
  mode = standby;
}

-- What start_tx writes into the context before `sx1262_set_tx`, at the time `now`.
unfoldable pub begin_tx : ℕ → Context → Context
begin_tx now c = record c {
  handle = record { tx_done = 0; timeout = 0 };
  irq_pending = false;
  irq_latched_at_ms = 0;
  tx_in_flight = true;
  tx_started_at_ms = now;
  last_tx_status = ok;
  mode = tx;
}

-- Whether the transmission of a context is over at the time `now`, and how.
unfoldable pub tx_outcome : ℕ → Context → Option Status
tx_outcome now c =
    let h = c.handle in
    if not (h.tx_done == 0)
    then some ok
    else if not (h.timeout == 0) || leb (c.config).tx_timeout_ms (sub_u64 now c.tx_started_at_ms)
    then some err_timeout
    else none

module _ {W F : Type 0} (d : Driver W F) where
  -- The calls of start_tx up to `sx1262_write_buffer`.
  unfoldable pub prepare_tx : Buffer → ℕ → Action W ℕ
  prepare_tx payload len = do
    commands d (
        set_dio_irq_params irq_mask_tx irq_mask_tx 0 0
        ∷ clear_irq_status irq_mask_all
        ∷ set_standby xtal_32mhz
        ∷ [])
    apply_packet_params d (u8 len)
    command d (write_buffer 0 (bytes payload (u16 len)))

  unfoldable pub finish_tx : Result ℕ × State W → Status × State W
  finish_tx (value _, s) = (ok, s)
  finish_tx (stop e, s) = (e, record s { ctx = end_tx e s.ctx })

  unfoldable pub launch_tx : Result ℕ × State W → Status × State W
  unfolding finish_tx
  launch_tx (stop e, s) = (e, s)
  launch_tx (value _, s) =
      let c = begin_tx (d.now_ms s.world) s.ctx in
      finish_tx (command d (set_tx (u32 ((c.config).tx_timeout_ms * 1000))) (record s { ctx = c }))

  -- `leos_sx126x_start_tx` once its arguments are checked and its context is found.
  unfoldable pub start_tx_ctx : Buffer → ℕ → State W → Status × State W
  start_tx_ctx payload len s =
      let c = s.ctx in
      if c.initialized
      then if c.tx_in_flight || is_tx c.mode
        then (err_busy, s)
        else launch_tx (prepare_tx payload len s)
      else (err_state, s)

  settle : Option Status → State W → State W
  settle none s = s
  settle (some status) s = record s { ctx = end_tx status s.ctx }

  unfoldable pub finish_poll : Result ℕ × State W → Status × State W
  unfolding settle
  finish_poll (stop e, s) =
      (e, if (s.ctx).tx_in_flight then record s { ctx = end_tx e s.ctx } else s)
  finish_poll (value _, s) =
      (ok, if (s.ctx).tx_in_flight then settle (tx_outcome (d.now_ms s.world) s.ctx) s else s)

  -- `leos_sx126x_poll` once its context is found.
  unfoldable pub poll_ctx : State W → Status × State W
  poll_ctx s =
      if (s.ctx).initialized then finish_poll (service_deferred_irq d s) else (err_state, s)
