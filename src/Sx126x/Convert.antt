-- ===== src/Sx126x/Convert.antt =====
-- The pure functions of sx126x.c: enum conversions, the low data rate rule, status codes, defaults.
use leos_sdk.Prelude.{ℕ, suc, zero, Bool, true, false, ◌||◌, Option, none, some}
use leos_sdk.Prelude.Int.{pos}
use leos_sdk.Sx126x.Types.{
  Radio, Status, ok, err_timeout, err_busy, err_driver, Bandwidth, bw_7_khz, bw_10_khz, bw_15_khz,
  bw_20_khz, bw_31_khz, bw_41_khz, bw_62_khz, bw_125_khz, bw_250_khz, bw_500_khz, SpreadingFactor,
  sf_5, sf_6, sf_7, sf_8, sf_9, sf_10, sf_11, sf_12, CodingRate, cr_4_5, cr_4_6, cr_4_7, cr_4_8,
  TcxoVoltage, tcxo_1p6v, tcxo_1p7v, tcxo_1p8v, tcxo_2p2v, tcxo_2p4v, tcxo_2p7v, tcxo_3p0v,
  tcxo_3p3v, Config,
}
use leos_sdk.Sx126x.Vendor.{
  LoraBandwidth, bandwidth_7p81_khz, bandwidth_10p42_khz, bandwidth_15p63_khz, bandwidth_20p83_khz,
  bandwidth_31p25_khz, bandwidth_41p67_khz, bandwidth_62p50_khz, bandwidth_125_khz,
  bandwidth_250_khz, bandwidth_500_khz, LoraSf, lora_sf_5, lora_sf_6, lora_sf_7, lora_sf_8,
  lora_sf_9, lora_sf_10, lora_sf_11, lora_sf_12, LoraCr, lora_cr_4_5, lora_cr_4_6, lora_cr_4_7,
  lora_cr_4_8, VendorTcxoVoltage, voltage_1p6v, voltage_1p7v, voltage_1p8v, voltage_2p2v,
  voltage_2p4v, voltage_2p7v, voltage_3p0v, voltage_3p3v,
}

-- `false` of the C functions is `none`, `true` with the value stored is `some`.
unfoldable pub to_vendor_bw : Bandwidth → Option LoraBandwidth
to_vendor_bw bw_7_khz = some bandwidth_7p81_khz
to_vendor_bw bw_10_khz = some bandwidth_10p42_khz
to_vendor_bw bw_15_khz = some bandwidth_15p63_khz
to_vendor_bw bw_20_khz = some bandwidth_20p83_khz
to_vendor_bw bw_31_khz = some bandwidth_31p25_khz
to_vendor_bw bw_41_khz = some bandwidth_41p67_khz
to_vendor_bw bw_62_khz = some bandwidth_62p50_khz
to_vendor_bw bw_125_khz = some bandwidth_125_khz
to_vendor_bw bw_250_khz = some bandwidth_250_khz
to_vendor_bw bw_500_khz = some bandwidth_500_khz
to_vendor_bw (Bandwidth.other _) = none

unfoldable pub to_vendor_sf : SpreadingFactor → Option LoraSf
to_vendor_sf sf_5 = some lora_sf_5
to_vendor_sf sf_6 = some lora_sf_6
to_vendor_sf sf_7 = some lora_sf_7
to_vendor_sf sf_8 = some lora_sf_8
to_vendor_sf sf_9 = some lora_sf_9
to_vendor_sf sf_10 = some lora_sf_10
to_vendor_sf sf_11 = some lora_sf_11
to_vendor_sf sf_12 = some lora_sf_12
to_vendor_sf (SpreadingFactor.other _) = none

unfoldable pub to_vendor_cr : CodingRate → Option LoraCr
to_vendor_cr cr_4_5 = some lora_cr_4_5
to_vendor_cr cr_4_6 = some lora_cr_4_6
to_vendor_cr cr_4_7 = some lora_cr_4_7
to_vendor_cr cr_4_8 = some lora_cr_4_8
to_vendor_cr (CodingRate.other _) = none

unfoldable pub to_vendor_tcxo_voltage : TcxoVoltage → Option VendorTcxoVoltage
to_vendor_tcxo_voltage tcxo_1p6v = some voltage_1p6v
to_vendor_tcxo_voltage tcxo_1p7v = some voltage_1p7v
to_vendor_tcxo_voltage tcxo_1p8v = some voltage_1p8v
to_vendor_tcxo_voltage tcxo_2p2v = some voltage_2p2v
to_vendor_tcxo_voltage tcxo_2p4v = some voltage_2p4v
to_vendor_tcxo_voltage tcxo_2p7v = some voltage_2p7v
to_vendor_tcxo_voltage tcxo_3p0v = some voltage_3p0v
to_vendor_tcxo_voltage tcxo_3p3v = some voltage_3p3v
to_vendor_tcxo_voltage (TcxoVoltage.other _) = none

is_sf_11 : SpreadingFactor → Bool
is_sf_11 sf_11 = true
is_sf_11 _ = false

is_sf_12 : SpreadingFactor → Bool
is_sf_12 sf_12 = true
is_sf_12 _ = false

unfoldable pub low_data_rate_for : Bandwidth → SpreadingFactor → Bool
unfolding is_sf_11 is_sf_12
low_data_rate_for bw_125_khz sf = is_sf_11 sf || is_sf_12 sf
low_data_rate_for bw_250_khz sf = is_sf_12 sf
low_data_rate_for _ sf = false

unfoldable pub low_data_rate_optimize : Config → Bool
unfolding low_data_rate_for
low_data_rate_optimize cfg = low_data_rate_for cfg.bandwidth cfg.spreading_factor

-- The return code is a uint8_t.
unfoldable pub map_status : ℕ → Status
map_status zero = ok
map_status (suc (suc (suc (suc zero)))) = err_busy
map_status (suc (suc (suc (suc (suc zero))))) = err_timeout
map_status (suc (suc (suc (suc (suc (suc zero)))))) = err_timeout
map_status _ = err_driver

default_frequency : Radio → ℕ
default_frequency Radio.sx1262 = 915000000
default_frequency Radio.sx1268 = 433000000
default_frequency (Radio.other _) = 0

-- The configuration that `leos_sx126x_get_default_config` stores; memset leaves the rest zero.
unfoldable pub get_default_config : Radio → Config
unfolding default_frequency
get_default_config radio = record {
  rf_frequency_hz = default_frequency radio;
  tx_timeout_ms = 200;
  tx_power_dbm = pos 17;
  preamble_len_symbols = 12;
  bandwidth = bw_125_khz;
  spreading_factor = sf_9;
  coding_rate = cr_4_5;
  sync_word = 0x34;
  crc_enabled = true;
  iq_inverted = false;
  dio2_rf_switch_enable = false;
  dio3_tcxo_enable = false;
  tcxo_voltage = tcxo_1p6v;
  tcxo_delay_us = 0;
}
