-- ===== src/Sx126x/Api.antt =====
-- The functions of sx126x.h over the two global contexts.
use leos_sdk.Prelude.{
  ℕ, Bool, false, ◌&&◌, ◌||◌, if◌then◌else◌, ltb, Option, none, some, List, [], ◌∷◌, Buffer, take,
}
use leos_sdk.Sx126x.Types.{
  Radio, Status, ok, err_arg, err_state, err_busy, Mode, uninit, standby, rx, HwConfig, Config,
  PacketInfo,
}
use leos_sdk.Sx126x.Vendor.{
  xtal_32mhz, irq_rx_done, irq_timeout, irq_crc_err, Irq, Driver, set_standby, clear_irq_status,
  set_dio_irq_params, continuous_receive,
}
use leos_sdk.Sx126x.Context.{
  Context, max_payload_len, irq_mask_all, State, Action, ◌>>◌, modify, status_of, latch_dio1,
  command, commands,
}
use leos_sdk.Sx126x.Globals.{Globals, ctx_of, on}
use leos_sdk.Sx126x.Setup.{apply_packet_params, init_ctx}
use leos_sdk.Sx126x.Transmit.{is_tx, payload_of, start_tx_ctx, poll_ctx}

abbrev pub irq_mask_rx : List Irq
irq_mask_rx = irq_rx_done ∷ irq_timeout ∷ irq_crc_err ∷ []

-- What a successful read stores through its pointers.
pub record Packet : Type 0 where
  pub data_bytes : List ℕ
  pub out_len : ℕ
  pub info : Option PacketInfo

-- The checks of `leos_sx126x_read` on its context, and the packet that it hands over; the last
-- argument is whether the caller gave a place for the metadata.
unfoldable pub read_ctx : ℕ → Bool → Context → (Status × Option Packet) × Context
read_ctx buf_size wants_info c =
    if c.initialized && c.rx_pending
    then if ltb buf_size c.rx_len then ((err_arg, none), c) else (
      (
        ok,
        some (record {
          data_bytes = take c.rx_len c.rx_buf;
          out_len = c.rx_len;
          info = if wants_info then some c.rx_info else none;
        }),
      ),
      record c { rx_pending = false; rx_len = 0 },
    )
    else ((err_state, none), c)

unfoldable pub read_state : {W : Type 0} → ℕ → Bool → State W → (Status × Option Packet) × State W
read_state buf_size wants_info s =
    let (r, c) = read_ctx buf_size wants_info s.ctx in (r, record s { ctx = c })

-- `leos_sx126x_read`; `buf_null` and `out_len_null` tell which of its pointers are NULL.
unfoldable pub read :
    {W : Type 0} → Radio → Bool → ℕ → Bool → Bool → Globals W → (Status × Option Packet) × Globals W
unfolding read_state
read radio buf_null buf_size out_len_null wants_info g =
    if buf_null || out_len_null
    then ((err_arg, none), g)
    else on radio (err_state, none) (read_state buf_size wants_info) g

-- A field of a radio's context, or what its getter answers where there is no context.
getter {ℓ} : {A : Type ℓ} → A → (Context → A) → Option Context → A
getter absent f none = absent
getter absent f (some c) = f c

unfoldable pub packet_available : {W : Type 0} → Radio → Globals W → Bool
unfolding getter
packet_available radio g = getter false (λ c. c.rx_pending) (ctx_of radio g)

unfoldable pub tx_in_flight : {W : Type 0} → Radio → Globals W → Bool
unfolding getter
tx_in_flight radio g = getter false (λ c. c.tx_in_flight) (ctx_of radio g)

unfoldable pub last_tx_status : {W : Type 0} → Radio → Globals W → Status
unfolding getter
last_tx_status radio g = getter err_state (λ c. c.last_tx_status) (ctx_of radio g)

unfoldable pub mode : {W : Type 0} → Radio → Globals W → Mode
unfolding getter
mode radio g = getter uninit (λ c. c.mode) (ctx_of radio g)

-- The last two writes of `leos_sx126x_start_rx`.
unfoldable pub listen : {W : Type 0} → Action W (Unit {0})
listen = modify (λ c. record c { irq_pending = false; mode = rx })

module _ {W F : Type 0} (d : Driver W F) where
  -- The calls of `leos_sx126x_start_rx`.
  unfoldable pub prepare_rx : Action W ℕ
  prepare_rx = do
    commands d (set_dio_irq_params irq_mask_rx irq_mask_rx 0 0 ∷ clear_irq_status irq_mask_all ∷ [])
    apply_packet_params d max_payload_len
    command d continuous_receive

  unfoldable pub begin_rx : Action W (Unit {0})
  begin_rx = do prepare_rx; listen

  unfoldable pub start_rx_ctx : State W → Status × State W
  start_rx_ctx s =
      let (r, t) = begin_rx s in
      if (s.ctx).initialized
      then if is_tx (s.ctx).mode then (err_busy, s) else (status_of r, t)
      else (err_state, s)

  unfoldable pub standby_ctx : State W → Status × State W
  standby_ctx s =
      let (r, t) =
        (do command d (set_standby xtal_32mhz); modify (λ c. record c { mode = standby })) s in
      if (s.ctx).initialized then (status_of r, t) else (err_state, s)

  -- `leos_sx126x_handle_dio1_irq` on a context and the clock.
  unfoldable pub handle_dio1_irq_ctx : State W → Unit {0} × State W
  handle_dio1_irq_ctx s = (tt, record s { ctx = latch_dio1 (d.now_ms s.world) s.ctx })

  unfoldable pub init : Radio → Option HwConfig → Option Config → Globals W → Status × Globals W
  init radio (some hw) (some cfg) g = on radio err_arg (init_ctx d hw cfg) g
  init radio _ _ g = (err_arg, g)

  unfoldable pub start_tx_payload : Radio → Option Buffer → ℕ → Globals W → Status × Globals W
  start_tx_payload radio none len g = (err_arg, g)
  start_tx_payload radio (some payload) len g = on radio err_state (start_tx_ctx d payload len) g

  unfoldable pub start_tx : Radio → Option Buffer → ℕ → Globals W → Status × Globals W
  unfolding start_tx_payload
  start_tx radio payload len g = start_tx_payload radio (payload_of payload len) len g

  unfoldable pub start_rx : Radio → Globals W → Status × Globals W
  start_rx radio g = on radio err_state start_rx_ctx g

  unfoldable pub standby_radio : Radio → Globals W → Status × Globals W
  standby_radio radio g = on radio err_state standby_ctx g

  unfoldable pub poll : Radio → Globals W → Status × Globals W
  poll radio g = on radio err_state (poll_ctx d) g

  unfoldable pub handle_dio1_irq : Radio → Globals W → Unit {0} × Globals W
  handle_dio1_irq radio g = on radio tt handle_dio1_irq_ctx g
