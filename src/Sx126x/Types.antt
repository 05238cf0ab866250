-- ===== src/Sx126x/Types.antt =====
-- The public types of include/leos/sx126x.h. A C enum may hold a value that no enumerator names;
-- where the driver reads such a value it is the constructor `other`.
use leos_sdk.Prelude.{ℕ, Bool}
use leos_sdk.Prelude.Int.{ℤ}

pub data Radio : Type 0 where
  sx1262 sx1268 : Radio
  other : ℕ → Radio

pub data Status : Type 0 where
  ok err_arg err_state err_io err_timeout err_busy err_driver : Status

pub data Bandwidth : Type 0 where
  bw_7_khz bw_10_khz bw_15_khz bw_20_khz bw_31_khz bw_41_khz bw_62_khz : Bandwidth
  bw_125_khz bw_250_khz bw_500_khz : Bandwidth
  other : ℕ → Bandwidth

pub data SpreadingFactor : Type 0 where
  sf_5 sf_6 sf_7 sf_8 sf_9 sf_10 sf_11 sf_12 : SpreadingFactor
  other : ℕ → SpreadingFactor

pub data CodingRate : Type 0 where
  cr_4_5 cr_4_6 cr_4_7 cr_4_8 : CodingRate
  other : ℕ → CodingRate

pub data Mode : Type 0 where
  uninit standby rx tx : Mode

pub data TcxoVoltage : Type 0 where
  tcxo_1p6v tcxo_1p7v tcxo_1p8v tcxo_2p2v tcxo_2p4v tcxo_2p7v tcxo_3p0v tcxo_3p3v : TcxoVoltage
  other : ℕ → TcxoVoltage

-- `platform_spi` is an opaque handle; its number stands for the pointer.
pub record HwConfig : Type 0 where
  pub platform_spi : ℕ
  pub spi_baud_hz : ℕ
  pub pin_sck : ℕ
  pub pin_mosi : ℕ
  pub pin_miso : ℕ
  pub pin_nss : ℕ
  pub pin_busy : ℕ
  pub pin_reset : ℕ
  pub pin_dio1 : ℕ

pub record Config : Type 0 where
  pub rf_frequency_hz : ℕ
  pub tx_timeout_ms : ℕ
  pub tx_power_dbm : ℤ
  pub preamble_len_symbols : ℕ
  pub bandwidth : Bandwidth
  pub spreading_factor : SpreadingFactor
  pub coding_rate : CodingRate
  pub sync_word : ℕ
  pub crc_enabled : Bool
  pub iq_inverted : Bool
  pub dio2_rf_switch_enable : Bool
  pub dio3_tcxo_enable : Bool
  pub tcxo_voltage : TcxoVoltage
  pub tcxo_delay_us : ℕ

pub record PacketInfo : Type 0 where
  pub rssi_dbm : ℤ
  pub snr_db : ℤ
  pub crc_ok : Bool
