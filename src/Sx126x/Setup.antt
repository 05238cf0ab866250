-- ===== src/Sx126x/Setup.antt =====
-- Configuration of the radio: apply_packet_params, apply_config and init.
use Prim.Native.Nat.{bit_or}
use leos_sdk.Prelude.{ℕ, ◌*◌, true, false, if◌then◌else◌, ◌==◌, List, [], ◌∷◌, replicate}
use leos_sdk.Prelude.Int.{pos}
use leos_sdk.Prelude.Words.{u8, u16, u32}
use leos_sdk.Sx126x.Types.{Status, ok, err_arg, err_state, uninit, standby, HwConfig, Config}
use leos_sdk.Sx126x.Vendor.{
  rc_13m, xtal_32mhz, LoraSf, LoraBandwidth, LoraCr, Command, Driver, set_standby,
  timeout_convert_to_register, set_dio3_as_tcxo_ctrl, set_dio2_as_rf_switch_ctrl,
  clear_device_errors, set_stop_timer_on_preamble, set_regulator_mode_dc_dc_ldo, set_pa_config,
  set_rx_tx_fallback_mode_stdby_xosc, set_packet_type_lora, set_tx_params_ramp_10us,
  set_lora_modulation_params, frequency_convert_to_register, set_rf_frequency,
  set_buffer_base_address, set_lora_packet_params_explicit, set_lora_symb_num_timeout,
  set_lora_sync_word, get_tx_modulation, set_tx_modulation, set_rx_gain, set_ocp,
  get_tx_clamp_config, set_tx_clamp_config, clear_irq_status,
}
use leos_sdk.Sx126x.Convert.{
  to_vendor_sf, to_vendor_bw, to_vendor_cr, to_vendor_tcxo_voltage, low_data_rate_optimize,
}
use leos_sdk.Sx126x.Context.{
  Context, max_payload_len, irq_mask_all, State, Result, value, stop, Action, pure, or_give_up,
  get_config, ◌>>=◌, ◌>>◌, after, exec, command, commands,
}

-- `(uint16_t)(((uint16_t)sync_word << 8) | sync_word)`
unfoldable pub sync_register : ℕ → ℕ
sync_register w = u16 (bit_or (w * 256) w)

-- The calls of apply_config from clear_device_errors to set_lora_modulation_params.
abbrev pub basic_setup : Config → LoraSf → LoraBandwidth → LoraCr → List Command
basic_setup cfg sf bw cr =
    clear_device_errors
    ∷ set_standby xtal_32mhz
    ∷ set_stop_timer_on_preamble false
    ∷ set_regulator_mode_dc_dc_ldo
    ∷ set_pa_config 0x02 0x03
    ∷ set_rx_tx_fallback_mode_stdby_xosc
    ∷ set_packet_type_lora
    ∷ set_tx_params_ramp_10us cfg.tx_power_dbm
    ∷ set_lora_modulation_params sf bw cr (low_data_rate_optimize cfg)
    ∷ []

-- What `leos_sx126x_init` stores before it touches the hardware.
unfoldable pub reset_context : HwConfig → Config → Context → Context
reset_context hw cfg c = record c {
  hw_config = hw;
  config = cfg;
  irq_pending = false;
  irq_latched_at_ms = 0;
  tx_in_flight = false;
  tx_started_at_ms = 0;
  last_tx_status = ok;
  rx_pending = false;
  rx_overrun = false;
  rx_buf = replicate 255 0;
  rx_len = 0;
  rx_info = record { rssi_dbm = pos 0; snr_db = pos 0; crc_ok = false };
  mode = uninit;
}

module _ {W F : Type 0} (d : Driver W F) where
  unfoldable pub apply_packet_params : ℕ → Action W ℕ
  apply_packet_params len = do
    cfg ← get_config
    command d (
        set_lora_packet_params_explicit cfg.preamble_len_symbols len cfg.crc_enabled
          cfg.iq_inverted)

  -- `sx1262_timeout_convert_to_register(...) != 0u`: any failure is an argument error.
  unfoldable pub convert_delay : ℕ → Action W ℕ
  convert_delay us s =
      let r = exec d (timeout_convert_to_register us) s in
      (if r.rc == 0 then value (u32 r.out) else stop err_arg, after d r s)

  unfoldable pub apply_tcxo : Config → Action W ℕ
  unfolding convert_delay
  apply_tcxo cfg =
      if cfg.dio3_tcxo_enable
      then (do
        voltage ← or_give_up (to_vendor_tcxo_voltage cfg.tcxo_voltage) err_arg
        delay_reg ← convert_delay cfg.tcxo_delay_us
        command d (set_dio3_as_tcxo_ctrl voltage delay_reg))
      else pure 0

  unfoldable pub apply_rf_switch : Config → Action W ℕ
  apply_rf_switch cfg =
      if cfg.dio2_rf_switch_enable then command d (set_dio2_as_rf_switch_ctrl true) else pure 0

  -- The calls of apply_config from frequency_convert_to_register on.
  unfoldable pub apply_radio_settings : Config → Action W (Unit {0})
  apply_radio_settings cfg = do
    freq_reg ← command d (frequency_convert_to_register cfg.rf_frequency_hz)
    commands d (set_rf_frequency (u32 freq_reg) ∷ set_buffer_base_address 0 0 ∷ [])
    apply_packet_params max_payload_len
    commands d (set_lora_symb_num_timeout 0 ∷ set_lora_sync_word (sync_register cfg.sync_word) ∷ [])
    modulation ← command d get_tx_modulation
    commands d
        (set_tx_modulation (bit_or (u8 modulation) 0x04) ∷ set_rx_gain 0x94 ∷ set_ocp 0x38 ∷ [])
    clamp ← command d get_tx_clamp_config
    commands d (set_tx_clamp_config (bit_or (u8 clamp) 0x1E) ∷ clear_irq_status irq_mask_all ∷ [])

  unfoldable pub apply_config : Action W (Unit {0})
  apply_config = do
    cfg ← get_config
    sf ← or_give_up (to_vendor_sf cfg.spreading_factor) err_arg
    bw ← or_give_up (to_vendor_bw cfg.bandwidth) err_arg
    cr ← or_give_up (to_vendor_cr cfg.coding_rate) err_arg
    command d (set_standby rc_13m)
    apply_tcxo cfg
    apply_rf_switch cfg
    commands d (basic_setup cfg sf bw cr)
    apply_radio_settings cfg

  -- The end of `leos_sx126x_init`: a configuration that failed is undone.
  unfoldable pub finish_init : Result (Unit {0}) × State W → Status × State W
  finish_init (value _, s) = let c = s.ctx in (ok, record s { ctx = record c { mode = standby } })
  finish_init (stop e, s) =
      let t = after d (exec d Command.deinit s) s in
      let c = t.ctx in (e, record t { ctx = record c { initialized = false; mode = uninit } })

  unfoldable pub after_vendor_init : Result ℕ × State W → Status × State W
  unfolding finish_init
  after_vendor_init (stop e, s) = (e, s)
  after_vendor_init (value _, s) =
      let c = s.ctx in
      finish_init (apply_config (record s { ctx = record c { initialized = true } }))

  -- The context reset, and the handle linked to the platform's functions.
  unfoldable pub linked : HwConfig → Config → State W → State W
  linked hw cfg s =
      let c = reset_context hw cfg s.ctx in
      let (handle, world) = d.link_handle c.radio hw c.handle s.world in
      record { ctx = record c { handle = handle }; world = world }

  -- `leos_sx126x_init` once its arguments are known to be there and its context is found.
  unfoldable pub init_ctx : HwConfig → Config → State W → Status × State W
  init_ctx hw cfg s =
      if (s.ctx).initialized
      then (err_state, s)
      else after_vendor_init (command d Command.init (linked hw cfg s))
