-- ===== src/Sx126x/Examples.antt =====
-- A simulated vendor library, and the theorems about the driver at inputs that it runs.
use leos_sdk.Prelude.{ℕ, ◌+◌, true, false, ◌≡◌, refl, arith, none, some, Buffer, bytes, inl}
use leos_sdk.Prelude.Int.{pos}
use leos_sdk.Sx126x.Types.{err_timeout, Radio, ok, standby, rx, tx, HwConfig, Config}
use leos_sdk.Sx126x.Vendor.{Handle, Call, irq_rx_done, IrqRun, finished, callback, Driver}
use leos_sdk.Sx126x.Context.{State, after, exec, command, commands, latch_dio1}
use leos_sdk.Sx126x.Convert.{
  get_default_config, to_vendor_sf, to_vendor_bw, to_vendor_cr, map_status, low_data_rate_optimize,
}
use leos_sdk.Sx126x.Globals.{initial_context}
use leos_sdk.Sx126x.Receive.{receive_callback, service_deferred_irq}
use leos_sdk.Sx126x.Setup.{
  apply_packet_params, apply_config, apply_tcxo, apply_rf_switch, apply_radio_settings, init_ctx,
  finish_init, after_vendor_init, linked, reset_context,
}
use leos_sdk.Sx126x.Transmit.{
  start_tx_ctx, prepare_tx, launch_tx, begin_tx, poll_ctx, finish_poll, tx_outcome,
}
use leos_sdk.Sx126x.Api.{
  read_ctx, init, start_tx, start_rx_ctx, standby_ctx, begin_rx, prepare_rx, listen,
}
use leos_sdk.Sx126x.System.{
  AllConsistent, boot, here, next, call_init, call_start_tx, reachable-AllConsistent,
}
use leos_sdk.Sx126x.Reception.{read-receive_callback}
use leos_sdk.Sx126x.Transmission.{Started, start_tx_ctx-Started}
use leos_sdk.Sx126x.Polling.{Polled, poll_ctx-Polled, poll_ctx_deadline}
use leos_sdk.Sx126x.Interrupts.{poll_ctx_late_irq}
use leos_sdk.Sx126x.Configuration.{
  Initialized, init_ctx-Initialized, low_data_rate_optimize-symbol_time,
}
use leos_sdk.Sx126x.Abandoned.{poll-start_rx-standby}

-- Every call takes a millisecond and succeeds, with 1 as what it stores.
abbrev answer : Handle → ℕ → Call ℕ
answer h w = record { rc = 0; out = 1; handle = h; world = w + 1; dio1 = false }

-- The interrupt handler reports a packet 10 11 12, during which DIO1 rises again.
abbrev packet : Buffer
packet i = i + 10

abbrev busy_handler : Radio → Handle → ℕ → IrqRun ℕ
busy_handler radio h w =
    callback irq_rx_done (some packet) 3
      (record { rc = 0; out = 0; handle = h; world = w; dio1 = true })
      (λ h' w'. finished (answer h' w'))

abbrev simulator : Driver ℕ ℕ
simulator = record {
  exec = λ radio cmd h w. answer h w;
  link_handle = λ radio hw h w. (h, w);
  irq_handler = busy_handler;
  get_lora_packet_status = λ radio h w. (answer h w, 40, 7);
  now_ms = λ w. w;
  to_int16 = λ f. pos f;
  to_int8 = λ f. pos f;
}

abbrev wiring : HwConfig
wiring = (initial_context Radio.sx1262).hw_config

abbrev cold : State ℕ
cold = record { ctx = initial_context Radio.sx1262; world = 0 }

abbrev defaults : Config
defaults = get_default_config Radio.sx1262

-- The radio after a successful init, with a transmission of three bytes, and receiving.
abbrev ready : State ℕ
ready = (init_ctx simulator wiring defaults cold).1

abbrev sending : State ℕ
sending = (start_tx_ctx simulator packet 3 ready).1

abbrev stopped : State ℕ
stopped = (standby_ctx simulator sending).1

abbrev listening : State ℕ
listening = (start_rx_ctx simulator stopped).1

-- What the simulated radio looks like on the way.
ready_idle :
    (ready.ctx.initialized ≡ true) × (ready.ctx.tx_in_flight ≡ false) × (ready.ctx.mode ≡ standby)
unfolding init_ctx linked reset_context initial_context after_vendor_init finish_init apply_config
    apply_packet_params apply_tcxo apply_rf_switch apply_radio_settings command commands exec after
    map_status to_vendor_sf to_vendor_bw to_vendor_cr get_default_config
ready_idle = (refl, refl, refl)

sending_flies :
    (sending.ctx.initialized ≡ true) × (sending.ctx.tx_in_flight ≡ true) × (sending.ctx.mode ≡ tx)
unfolding init_ctx linked reset_context initial_context after_vendor_init finish_init apply_config
    apply_packet_params apply_tcxo apply_rf_switch apply_radio_settings command commands exec after
    map_status to_vendor_sf to_vendor_bw to_vendor_cr get_default_config start_tx_ctx prepare_tx
    launch_tx begin_tx
sending_flies = (refl, refl, refl)

listening_flies :
    ((standby_ctx simulator sending).0 ≡ ok)
    × ((start_rx_ctx simulator stopped).0 ≡ ok)
    × (stopped.ctx.initialized ≡ true)
    × (stopped.ctx.mode ≡ standby)
unfolding init_ctx linked reset_context initial_context after_vendor_init finish_init apply_config
    apply_packet_params apply_tcxo apply_rf_switch apply_radio_settings command commands exec after
    map_status to_vendor_sf to_vendor_bw to_vendor_cr get_default_config start_tx_ctx prepare_tx
    launch_tx begin_tx standby_ctx start_rx_ctx begin_rx prepare_rx listen
listening_flies = (refl, refl, refl, refl)

reachable-AllConsistent_example :
    AllConsistent
      (start_tx simulator Radio.sx1262
        (some packet)
        3
        (init simulator Radio.sx1262 (some wiring) (some defaults) (boot 0)).1).1
reachable-AllConsistent_example = reachable-AllConsistent simulator 0 (
    next (next here (call_init Radio.sx1262 (some wiring) (some defaults)))
      (call_start_tx Radio.sx1262 (some packet) 3))

start_tx_ctx-Started_example :
    Started (start_tx_ctx simulator packet 3 ready).0 (start_tx_ctx simulator packet 3 ready).1.ctx
start_tx_ctx-Started_example = start_tx_ctx-Started simulator packet 3 ready ready_idle.0 (
  ready_idle.1,
  unfold init_ctx linked reset_context initial_context after_vendor_init finish_init apply_config
        apply_packet_params apply_tcxo apply_rf_switch apply_radio_settings command commands exec
        after map_status to_vendor_sf to_vendor_bw to_vendor_cr get_default_config in
      refl,
)

poll_ctx-Polled_example :
    Polled
      (poll_ctx simulator sending).1.world
      sending.ctx
      (poll_ctx simulator sending).0
      (poll_ctx simulator sending).1.ctx
poll_ctx-Polled_example = poll_ctx-Polled simulator sending sending_flies.0

-- The transmission above, a second later.
abbrev overdue : State ℕ
overdue = record { ctx = sending.ctx; world = 1000 }

poll_ctx_deadline_example : (poll_ctx simulator overdue).1.ctx.tx_in_flight ≡ false
unfolding poll_ctx finish_poll service_deferred_irq tx_outcome init_ctx linked reset_context
    initial_context after_vendor_init finish_init apply_config apply_packet_params apply_tcxo
    apply_rf_switch apply_radio_settings command commands exec after map_status to_vendor_sf
    to_vendor_bw to_vendor_cr get_default_config start_tx_ctx prepare_tx launch_tx begin_tx
poll_ctx_deadline_example =
    poll_ctx_deadline simulator overdue sending_flies.0 (omega arith) (omega arith)

-- The receiver with DIO1 latched.
abbrev signalled : State ℕ
signalled = record { ctx = latch_dio1 500 listening.ctx; world = 500 }

poll_ctx_late_irq_example : (poll_ctx simulator signalled).1.ctx.irq_pending ≡ true
unfolding latch_dio1 standby_ctx start_rx_ctx begin_rx prepare_rx listen init_ctx linked
    reset_context initial_context after_vendor_init finish_init apply_config apply_packet_params
    apply_tcxo apply_rf_switch apply_radio_settings command commands exec after map_status
    to_vendor_sf to_vendor_bw to_vendor_cr get_default_config start_tx_ctx prepare_tx launch_tx
    begin_tx
poll_ctx_late_irq_example = poll_ctx_late_irq simulator signalled refl refl (inl refl)

poll-start_rx-standby_example :
    let t = (poll_ctx simulator (record { ctx = listening.ctx; world = 1000 })).1 in
    (listening.ctx.mode ≡ rx)
    × (listening.ctx.tx_in_flight ≡ true)
    × (t.ctx.mode ≡ standby)
    × (t.ctx.tx_in_flight ≡ false)
    × (t.ctx.last_tx_status ≡ err_timeout)
    × (t.world ≡ 1000)
unfolding init_ctx linked reset_context initial_context after_vendor_init finish_init apply_config
    apply_packet_params apply_tcxo apply_rf_switch apply_radio_settings command commands exec after
    map_status to_vendor_sf to_vendor_bw to_vendor_cr get_default_config start_tx_ctx prepare_tx
    launch_tx begin_tx start_rx_ctx standby_ctx begin_rx prepare_rx listen
poll-start_rx-standby_example =
    poll-start_rx-standby simulator sending 1000 sending_flies.0 sending_flies.1 listening_flies.0
      listening_flies.1 (omega arith)

init_ctx-Initialized_example :
    Initialized wiring defaults (init_ctx simulator wiring defaults cold).0 ready.ctx
unfolding initial_context
init_ctx-Initialized_example = init_ctx-Initialized simulator wiring defaults cold refl

low_data_rate_optimize-symbol_time_example : low_data_rate_optimize defaults ≡ false
unfolding get_default_config
low_data_rate_optimize-symbol_time_example = low_data_rate_optimize-symbol_time defaults

read-receive_callback_example :
    let c = (receive_callback simulator irq_rx_done (some packet) 3 ready).ctx in
    (read_ctx 64 false c ≡ (
      (ok, some (record { data_bytes = bytes packet 3; out_len = 3; info = none })),
      record c { rx_pending = false; rx_len = 0 },
    ))
    × ((c.rx_info).crc_ok ≡ true)
unfolding init_ctx linked reset_context initial_context after_vendor_init finish_init apply_config
    apply_packet_params apply_tcxo apply_rf_switch apply_radio_settings command commands exec after
    map_status to_vendor_sf to_vendor_bw to_vendor_cr get_default_config
read-receive_callback_example =
    read-receive_callback simulator packet 3 64 false ready refl refl (omega arith)

-- The receiver with a packet already latched.
abbrev holding : State ℕ
holding = receive_callback simulator irq_rx_done (some packet) 3 ready
