-- ===== src/Sx126x/Vendor.antt =====
-- The vendor library driver_sx1262.h, which is not part of the repository: its calls as data, and
-- the interface through which the driver runs them. Nothing is assumed of what a call does.
use leos_sdk.Prelude.{ℕ, Bool, Option, List, Buffer}
use leos_sdk.Prelude.Int.{ℤ}
use leos_sdk.Sx126x.Types.{Radio, HwConfig}

pub data LoraBandwidth : Type 0 where
  bandwidth_7p81_khz bandwidth_10p42_khz bandwidth_15p63_khz bandwidth_20p83_khz : LoraBandwidth
  bandwidth_31p25_khz bandwidth_41p67_khz bandwidth_62p50_khz : LoraBandwidth
  bandwidth_125_khz bandwidth_250_khz bandwidth_500_khz : LoraBandwidth

pub data LoraSf : Type 0 where
  lora_sf_5 lora_sf_6 lora_sf_7 lora_sf_8 lora_sf_9 lora_sf_10 lora_sf_11 lora_sf_12 : LoraSf

pub data LoraCr : Type 0 where
  lora_cr_4_5 lora_cr_4_6 lora_cr_4_7 lora_cr_4_8 : LoraCr

pub data VendorTcxoVoltage : Type 0 where
  voltage_1p6v voltage_1p7v voltage_1p8v voltage_2p2v : VendorTcxoVoltage
  voltage_2p4v voltage_2p7v voltage_3p0v voltage_3p3v : VendorTcxoVoltage

pub data ClockSource : Type 0 where
  rc_13m xtal_32mhz : ClockSource

-- The interrupt causes that the driver names, as bits of a mask or as the `type` of a callback.
pub data Irq : Type 0 where
  irq_tx_done irq_rx_done irq_crc_err irq_timeout : Irq
  irq_other : ℕ → Irq

-- A call of the vendor library, `sx1262_` left off, with its arguments. The constants that the
-- driver always passes (LoRa packets, explicit headers, the DC-DC regulator, the fallback to
-- STDBY_XOSC, the 10 us ramp) are in the names.
pub data Command : Type 0 where
  init deinit : Command
  set_standby : ClockSource → Command
  timeout_convert_to_register : ℕ → Command
  set_dio3_as_tcxo_ctrl : VendorTcxoVoltage → ℕ → Command
  set_dio2_as_rf_switch_ctrl : Bool → Command
  clear_device_errors : Command
  set_stop_timer_on_preamble : Bool → Command
  set_regulator_mode_dc_dc_ldo : Command
  set_pa_config : ℕ → ℕ → Command
  set_rx_tx_fallback_mode_stdby_xosc : Command
  set_packet_type_lora : Command
  set_tx_params_ramp_10us : ℤ → Command
  set_lora_modulation_params : LoraSf → LoraBandwidth → LoraCr → Bool → Command
  frequency_convert_to_register : ℕ → Command
  set_rf_frequency : ℕ → Command
  set_buffer_base_address : ℕ → ℕ → Command
  set_lora_packet_params_explicit : ℕ → ℕ → Bool → Bool → Command
  set_lora_symb_num_timeout : ℕ → Command
  set_lora_sync_word : ℕ → Command
  get_tx_modulation : Command
  set_tx_modulation : ℕ → Command
  set_rx_gain : ℕ → Command
  set_ocp : ℕ → Command
  get_tx_clamp_config : Command
  set_tx_clamp_config : ℕ → Command
  clear_irq_status : ℕ → Command
  set_dio_irq_params : List Irq → List Irq → ℕ → ℕ → Command
  write_buffer : ℕ → List ℕ → Command
  set_tx : ℕ → Command
  continuous_receive : Command

-- The two fields of `sx1262_handle_t` that the driver reads and writes itself.
pub record Handle : Type 0 where
  pub tx_done : ℕ
  pub timeout : ℕ

-- What is seen when a call of the vendor library returns: its return code, the value stored
-- through its out pointer (if it has one), the handle, everything else (`world`: the chip, the
-- bus, the clock, the rest of the handle), and whether DIO1 interrupted it, so that the
-- application's handler ran `leos_sx126x_handle_dio1_irq` for this radio.
pub record Call (W : Type 0) : Type 0 where
  pub rc : ℕ
  pub out : ℕ
  pub handle : Handle
  pub world : W
  pub dio1 : Bool

-- A run of `sx1262_irq_handler`: it returns, or it calls the receive callback with the
-- interrupt's type, a buffer that may be NULL and a length, and goes on from what that leaves.
pub data IrqRun (W : Type 0) : Type 0 where
  finished : Call W → IrqRun W
  callback : Irq → Option Buffer → ℕ → Call W → (Handle → W → IrqRun W) → IrqRun W

-- The vendor library and the platform's clock. `F` is the C type float.
pub record Driver (W F : Type 0) : Type 0 where
  pub exec : Radio → Command → Handle → W → Call W
  -- The platform's `leos_sx126x_link_handle`, with the vendor's DRIVER_SX1262_LINK_ macros.
  pub link_handle : Radio → HwConfig → Handle → W → Handle × W
  pub irq_handler : Radio → Handle → W → IrqRun W
  -- `sx1262_get_lora_packet_status`, with the packet's RSSI and SNR.
  pub get_lora_packet_status : Radio → Handle → W → Call W × F × F
  pub now_ms : W → ℕ
  -- The casts of a float to int16_t and to int8_t.
  pub to_int16 : F → ℤ
  pub to_int8 : F → ℤ
