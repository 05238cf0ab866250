-- ===== src/Sx126x/Globals.antt =====
-- The two global contexts, and the lookup of a radio's context.
use leos_sdk.Prelude.{false, Option, none, some, replicate}
use leos_sdk.Prelude.Int.{pos}
use leos_sdk.Sx126x.Types.{Radio, ok, uninit, bw_7_khz, cr_4_5, SpreadingFactor, tcxo_1p6v}
use leos_sdk.Sx126x.Context.{Context, State}

-- The static initialisers of g_sx1262 and g_sx1268: what they do not name is zero.
unfoldable pub initial_context : Radio → Context
initial_context radio = record {
  radio = radio;
  handle = record { tx_done = 0; timeout = 0 };
  hw_config = record {
    platform_spi = 0;
    spi_baud_hz = 0;
    pin_sck = 0;
    pin_mosi = 0;
    pin_miso = 0;
    pin_nss = 0;
    pin_busy = 0;
    pin_reset = 0;
    pin_dio1 = 0;
  };
  config = record {
    rf_frequency_hz = 0;
    tx_timeout_ms = 0;
    tx_power_dbm = pos 0;
    preamble_len_symbols = 0;
    bandwidth = bw_7_khz;
    spreading_factor = SpreadingFactor.other 0;
    coding_rate = cr_4_5;
    sync_word = 0;
    crc_enabled = false;
    iq_inverted = false;
    dio2_rf_switch_enable = false;
    dio3_tcxo_enable = false;
    tcxo_voltage = tcxo_1p6v;
    tcxo_delay_us = 0;
  };
  mode = uninit;
  initialized = false;
  irq_pending = false;
  irq_latched_at_ms = 0;
  tx_in_flight = false;
  tx_started_at_ms = 0;
  last_tx_status = ok;
  rx_pending = false;
  rx_overrun = false;
  rx_buf = replicate 255 0;
  rx_len = 0;
  rx_info = record { rssi_dbm = pos 0; snr_db = pos 0; crc_ok = false };
}

pub record Globals (W : Type 0) : Type 0 where
  pub g_sx1262 : Context
  pub g_sx1268 : Context
  pub world : W

-- `leos_sx126x_ctx`: no context for a value that names no radio.
unfoldable pub ctx_of : {W : Type 0} → Radio → Globals W → Option Context
ctx_of Radio.sx1262 g = some g.g_sx1262
ctx_of Radio.sx1268 g = some g.g_sx1268
ctx_of (Radio.other _) g = none

-- A function's work on the context of a radio, and its result where there is none.
unfoldable pub on {ℓ} :
    {W : Type 0} {A : Type ℓ} → Radio → A → (State W → A × State W) → Globals W → A × Globals W
on Radio.sx1262 absent m g =
    let (a, s) = m (record { ctx = g.g_sx1262; world = g.world }) in
    (a, record g { g_sx1262 = s.ctx; world = s.world })
on Radio.sx1268 absent m g =
    let (a, s) = m (record { ctx = g.g_sx1268; world = g.world }) in
    (a, record g { g_sx1268 = s.ctx; world = s.world })
on (Radio.other _) absent m g = (absent, g)
