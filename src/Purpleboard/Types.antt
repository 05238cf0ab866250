-- ===== src/Purpleboard/Types.antt =====
-- The types of include/leos/purpleboard.h, and what the board calls of the sensors' libraries.
use leos_sdk.Prelude.{ℕ, Bool, Option}

-- `leos_purpleboard_result_t`.
pub data Result : Type 0 where
  pb_ok pb_sensor_no_detect pb_sensor_read_degraded pb_parameter_error : Result

-- `leos_purpleboard_t`: the address of the structure itself, and its fields.
pub record Purpleboard : Type 0 where
  pub self : ℕ
  pub i2c_block : ℕ
  pub sda : ℕ
  pub scl : ℕ
  pub wire : ℕ
  pub bme : ℕ
  pub ltr : ℕ
  pub aqi : ℕ
  pub tsl : ℕ

-- `PM25_AQI_Data`, of the sensor's library, as far as the board reads it.
pub record AqiData : Type 0 where
  pub pm10_env : ℕ
  pub pm25_env : ℕ
  pub pm100_env : ℕ
  pub aqi_pm25_us : ℕ
  pub aqi_pm100_us : ℕ
  pub particles_03um : ℕ
  pub particles_05um : ℕ
  pub particles_10um : ℕ
  pub particles_25um : ℕ
  pub particles_50um : ℕ
  pub particles_100um : ℕ

-- `leos_purpleboard_readings_t`, over the type of floats.
pub record Readings (F : Type 0) : Type 0 where
  pub bme680_valid : Bool
  pub temperature_c : F
  pub pressure_mb : F
  pub humidity : F
  pub altitude_m : F
  pub gas_resistance : ℕ
  pub tsl2591_valid : Bool
  pub lux : F
  pub raw_visible : ℕ
  pub raw_infrared : ℕ
  pub raw_full_spectrum : ℕ
  pub ltr390_valid : Bool
  pub ltr390_uvs : ℕ
  pub pmsa003i_valid : Bool
  pub pm10_env : ℕ
  pub pm25_env : ℕ
  pub pm100_env : ℕ
  pub aqi_pm25_us : ℕ
  pub aqi_pm100_us : ℕ
  pub particles_03um : ℕ
  pub particles_05um : ℕ
  pub particles_10um : ℕ
  pub particles_25um : ℕ
  pub particles_50um : ℕ
  pub particles_100um : ℕ

-- The libraries of the four sensors and of the bus, `new` and `delete`, and the float operations.
-- An object is an address. The settings that the board chooses are in the names of the calls.
pub record Library (W F : Type 0) : Type 0 where
  pub new_purpleboard : W → ℕ × W
  pub new_two_wire : ℕ → ℕ → ℕ → W → ℕ × W
  pub new_bme680 : ℕ → W → ℕ × W
  pub new_ltr390 : W → ℕ × W
  pub new_pm25aqi : W → ℕ × W
  pub new_tsl2591 : W → ℕ × W
  -- The destructor, and the release of the memory.
  pub delete : ℕ → W → W
  pub bme_begin : ℕ → W → Bool × W
  pub set_temperature_oversampling_8x : ℕ → W → W
  pub set_humidity_oversampling_2x : ℕ → W → W
  pub set_pressure_oversampling_4x : ℕ → W → W
  pub set_iir_filter_size_3 : ℕ → W → W
  pub set_gas_heater_320_150 : ℕ → W → W
  -- The sensor and the bus.
  pub ltr_begin : ℕ → ℕ → W → Bool × W
  pub set_mode_uvs : ℕ → W → W
  pub set_resolution_16bit : ℕ → W → W
  pub set_gain_1 : ℕ → W → W
  pub ltr_disable : ℕ → W → W
  pub aqi_begin_i2c : ℕ → ℕ → W → Bool × W
  pub tsl_begin : ℕ → ℕ → W → Bool × W
  pub set_gain_med : ℕ → W → W
  pub set_timing_300ms : ℕ → W → W
  pub perform_reading : ℕ → W → Bool × W
  -- The fields of the sensor's object.
  pub temperature : ℕ → W → F
  pub pressure : ℕ → W → F
  pub humidity : ℕ → W → F
  pub gas_resistance : ℕ → W → ℕ
  -- With kDefaultSeaLevelPressureHpa.
  pub read_altitude : ℕ → W → F × W
  -- Whether the mode is LTR390_MODE_UVS.
  pub mode_is_uvs : ℕ → W → Bool × W
  pub new_data_available : ℕ → W → Bool × W
  pub read_uvs : ℕ → W → ℕ × W
  -- The data where the read succeeds.
  pub aqi_read : ℕ → W → Option AqiData × W
  -- The field `light` of the event where there is one.
  pub get_event : ℕ → W → Option F × W
  pub get_full_luminosity : ℕ → W → ℕ × W
  pub zero_float : F
  -- `x / 100.0f`.
  pub hundredth : F → F
