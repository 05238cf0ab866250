-- ===== src/Purpleboard/Read.antt =====
-- leos_purpleboard_read.
use leos_sdk.Prelude.{ℕ, ◌/◌, ◌%◌, ◌^◌, Bool, true, false, Option, none, some}
use leos_sdk.Purpleboard.Types.{
  Result, pb_ok, pb_sensor_read_degraded, pb_parameter_error, Purpleboard, AqiData, Readings,
  Library,
}

-- The result so far, `*sensor_data`, and the world.
abbrev pub Reading : Type 0 → Type 0 → Type 0
Reading W F = Result × Readings F × W

module _ {W F : Type 0} (lib : Library W F) where
  unfoldable pub take_bme : ℕ → Result → Readings F → Bool × W → Reading W F
  take_bme bme result r (false, w) = (
    pb_sensor_read_degraded,
    record r {
      bme680_valid = false;
      temperature_c = lib.zero_float;
      pressure_mb = lib.zero_float;
      humidity = lib.zero_float;
      altitude_m = lib.zero_float;
      gas_resistance = 0;
    },
    w,
  )
  take_bme bme result r (true, w) =
      let (altitude, w') = lib.read_altitude bme w in
      (
        result,
        record r {
          bme680_valid = true;
          temperature_c = lib.temperature bme w;
          pressure_mb = lib.hundredth (lib.pressure bme w);
          humidity = lib.humidity bme w;
          altitude_m = altitude;
          gas_resistance = lib.gas_resistance bme w';
        },
        w',
      )

  -- `(getMode() == LTR390_MODE_UVS) && newDataAvailable()`: the second is not called after a
  -- different mode.
  unfoldable pub ltr_ready : ℕ → Bool × W → Bool × W
  ltr_ready ltr (false, w) = (false, w)
  ltr_ready ltr (true, w) = lib.new_data_available ltr w

  unfoldable pub take_ltr : ℕ → Result → Readings F → Bool × W → Reading W F
  take_ltr ltr result r (false, w) =
      (pb_sensor_read_degraded, record r { ltr390_valid = false; ltr390_uvs = 0 }, w)
  take_ltr ltr result r (true, w) =
      let (uvs, w) = lib.read_uvs ltr w in
      (result, record r { ltr390_valid = true; ltr390_uvs = uvs }, w)

  unfoldable pub take_aqi : Result → Readings F → Option AqiData × W → Reading W F
  take_aqi result r (none, w) = (
    pb_sensor_read_degraded,
    record r {
      pmsa003i_valid = false;
      pm10_env = 0;
      pm25_env = 0;
      pm100_env = 0;
      aqi_pm25_us = 0;
      aqi_pm100_us = 0;
      particles_03um = 0;
      particles_05um = 0;
      particles_10um = 0;
      particles_25um = 0;
      particles_50um = 0;
      particles_100um = 0;
    },
    w,
  )
  take_aqi result r (some a, w) = (
    result,
    record r {
      pmsa003i_valid = true;
      pm10_env = a.pm10_env;
      pm25_env = a.pm25_env;
      pm100_env = a.pm100_env;
      aqi_pm25_us = a.aqi_pm25_us;
      aqi_pm100_us = a.aqi_pm100_us;
      particles_03um = a.particles_03um;
      particles_05um = a.particles_05um;
      particles_10um = a.particles_10um;
      particles_25um = a.particles_25um;
      particles_50um = a.particles_50um;
      particles_100um = a.particles_100um;
    },
    w,
  )

  unfoldable pub take_tsl : ℕ → Result → Readings F → Option F × W → Reading W F
  take_tsl tsl result r (none, w) = (
    pb_sensor_read_degraded,
    record r {
      tsl2591_valid = false;
      lux = lib.zero_float;
      raw_visible = 0;
      raw_infrared = 0;
      raw_full_spectrum = 0;
    },
    w,
  )
  take_tsl tsl result r (some light, w) =
      let (full_spectrum, w) = lib.get_full_luminosity tsl w in
      (
        result,
        record r {
          tsl2591_valid = true;
          lux = light;
          raw_full_spectrum = full_spectrum;
          raw_infrared = full_spectrum / 2 ^ 16 % 2 ^ 16;
          raw_visible = full_spectrum % 2 ^ 16;
        },
        w,
      )

  -- The four sensors in turn.
  unfoldable pub read_sensors : Purpleboard → Readings F → W → Reading W F
  unfolding take_bme ltr_ready take_ltr take_aqi take_tsl
  read_sensors pb r w =
      let (result, r, w) = take_bme pb.bme pb_ok r (lib.perform_reading pb.bme w) in
      let (result, r, w) = take_ltr pb.ltr result r (ltr_ready pb.ltr (lib.mode_is_uvs pb.ltr w)) in
      let (result, r, w) = take_aqi result r (lib.aqi_read pb.aqi w) in
      take_tsl pb.tsl result r (lib.get_event pb.tsl w)

  -- Either pointer may be NULL; with one that is, nothing is stored.
  unfoldable pub read :
      Option Purpleboard → Option (Readings F) → W → Result × Option (Readings F) × W
  unfolding read_sensors
  read none r w = (pb_parameter_error, r, w)
  read (some pb) none w = (pb_parameter_error, none, w)
  read (some pb) (some r) w = let (result, r', w') = read_sensors pb r w in (result, some r', w')
