-- ===== src/Purpleboard/Validity.antt =====
-- What a reading says of each sensor, and that it owes nothing to the readings of before.
use leos_sdk.Prelude.{
  ◌+◌, ◌*◌, ◌^◌, ◌<◌, Bool, true, false, ◌&&◌, Option, none, some, ◌≡◌, refl, ◌∙◌, ◌⊎◌, inl, inr,
  arith,
}
use leos_sdk.Purpleboard.Types.{
  Result, pb_ok, pb_sensor_read_degraded, Purpleboard, AqiData, Readings, Library,
}
use leos_sdk.Purpleboard.Read.{
  Reading, take_bme, ltr_ready, take_ltr, take_aqi, take_tsl, read_sensors,
}

-- PB_OK where all is valid.
abbrev pub status : Bool → Result
status true = pb_ok
status false = pb_sensor_read_degraded

status-false : (b : Bool) → pb_sensor_read_degraded ≡ status (b && false)
status-false true = refl
status-false false = refl

status-true : (b : Bool) → status b ≡ status (b && true)
status-true true = refl
status-true false = refl

module _ {F : Type 0} (zero_float : F) (r : Readings F) where
  -- A sensor is valid, or its values are zero.
  abbrev pub BmeCleared : Type 0
  BmeCleared =
      (r.bme680_valid ≡ false)
      × (r.temperature_c ≡ zero_float)
      × (r.pressure_mb ≡ zero_float)
      × (r.humidity ≡ zero_float)
      × (r.altitude_m ≡ zero_float)
      × (r.gas_resistance ≡ 0)

  abbrev pub AqiCleared : Type 0
  AqiCleared =
      (r.pmsa003i_valid ≡ false)
      × (r.pm10_env ≡ 0)
      × (r.pm25_env ≡ 0)
      × (r.pm100_env ≡ 0)
      × (r.aqi_pm25_us ≡ 0)
      × (r.aqi_pm100_us ≡ 0)
      × (r.particles_03um ≡ 0)
      × (r.particles_05um ≡ 0)
      × (r.particles_10um ≡ 0)
      × (r.particles_25um ≡ 0)
      × (r.particles_50um ≡ 0)
      × (r.particles_100um ≡ 0)

  abbrev pub TslCleared : Type 0
  TslCleared =
      (r.tsl2591_valid ≡ false)
      × (r.lux ≡ zero_float)
      × (r.raw_visible ≡ 0)
      × (r.raw_infrared ≡ 0)
      × (r.raw_full_spectrum ≡ 0)

  abbrev pub BmeTold : Type 0
  BmeTold = (r.bme680_valid ≡ true) ⊎ BmeCleared

  abbrev pub LtrTold : Type 0
  LtrTold = (r.ltr390_valid ≡ true) ⊎ ((r.ltr390_valid ≡ false) × (r.ltr390_uvs ≡ 0))

  abbrev pub AqiTold : Type 0
  AqiTold = (r.pmsa003i_valid ≡ true) ⊎ AqiCleared

  abbrev pub TslTold : Type 0
  TslTold = (r.tsl2591_valid ≡ true) ⊎ TslCleared

  -- The result is PB_OK exactly if every sensor is valid; the values of one that is not are zero;
  -- the two raw channels are the halves of the full spectrum.
  pub record Told (result : Result) : Type 0 where
    pub result_told :
        result
        ≡ status (((r.bme680_valid && r.ltr390_valid) && r.pmsa003i_valid) && r.tsl2591_valid)
    pub bme : BmeTold
    pub ltr : LtrTold
    pub aqi : AqiTold
    pub tsl : TslTold
    pub halves : r.raw_visible + 2 ^ 16 * r.raw_infrared ≡ r.raw_full_spectrum

module _ {W F : Type 0} (lib : Library W F) (pb : Purpleboard) where
  -- What follows each sensor.
  abbrev pub after_aqi : Reading W F → Reading W F
  after_aqi (result, r, w) = take_tsl lib pb.tsl result r (lib.get_event pb.tsl w)

  abbrev pub after_ltr : Reading W F → Reading W F
  after_ltr (result, r, w) = after_aqi (take_aqi lib result r (lib.aqi_read pb.aqi w))

  abbrev pub after_bme : Reading W F → Reading W F
  after_bme (result, r, w) =
      after_ltr (take_ltr lib pb.ltr result r (ltr_ready lib pb.ltr (lib.mode_is_uvs pb.ltr w)))

  abbrev pub Ends : Reading W F → Type 0
  Ends o = Told lib.zero_float o.1 o.0

  module _ (words : (w : W) → (lib.get_full_luminosity pb.tsl w).0 < 2 ^ 32) where
    take_tsl-Told :
        (result : Result) (r : Readings F) (o : Option F × W)
        → result ≡ status ((r.bme680_valid && r.ltr390_valid) && r.pmsa003i_valid)
        → BmeTold lib.zero_float r
        → LtrTold lib.zero_float r
        → AqiTold lib.zero_float r
        → Ends (take_tsl lib pb.tsl result r o)
    unfolding take_tsl
    take_tsl-Told result r (none, w) e b l a = record {
      result_told = status-false ((r.bme680_valid && r.ltr390_valid) && r.pmsa003i_valid);
      bme = b;
      ltr = l;
      aqi = a;
      tsl = inr (refl, refl, refl, refl, refl);
      halves = refl;
    }
    take_tsl-Told result r (some light, w) e b l a =
        let word = words w in
        record {
          result_told = e ∙ status-true ((r.bme680_valid && r.ltr390_valid) && r.pmsa003i_valid);
          bme = b;
          ltr = l;
          aqi = a;
          tsl = inl refl;
          halves = omega arith;
        }

    take_aqi-Told :
        (result : Result) (r : Readings F) (o : Option AqiData × W)
        → result ≡ status (r.bme680_valid && r.ltr390_valid)
        → BmeTold lib.zero_float r
        → LtrTold lib.zero_float r
        → Ends (after_aqi (take_aqi lib result r o))
    unfolding take_aqi
    take_aqi-Told result r (none, w) e b l =
        take_tsl-Told pb_sensor_read_degraded _ (lib.get_event pb.tsl w)
          (status-false (r.bme680_valid && r.ltr390_valid)) b l
          (inr (refl, refl, refl, refl, refl, refl, refl, refl, refl, refl, refl, refl))
    take_aqi-Told result r (some d, w) e b l =
        take_tsl-Told result _ (lib.get_event pb.tsl w)
          (e ∙ status-true (r.bme680_valid && r.ltr390_valid)) b l (inl refl)

    take_ltr-Told :
        (result : Result) (r : Readings F) (o : Bool × W)
        → result ≡ status r.bme680_valid
        → BmeTold lib.zero_float r
        → Ends (after_ltr (take_ltr lib pb.ltr result r o))
    unfolding take_ltr
    take_ltr-Told result r (false, w) e b =
        take_aqi-Told pb_sensor_read_degraded _ (lib.aqi_read pb.aqi w)
          (status-false r.bme680_valid) b (inr (refl, refl))
    take_ltr-Told result r (true, w) e b =
        take_aqi-Told result _ (lib.aqi_read pb.aqi (lib.read_uvs pb.ltr w).1)
          (e ∙ status-true r.bme680_valid) b (inl refl)

    take_bme-Told :
        (r : Readings F) (o : Bool × W) → Ends (after_bme (take_bme lib pb.bme pb_ok r o))
    unfolding take_bme
    take_bme-Told r (false, w) =
        take_ltr-Told pb_sensor_read_degraded _ (ltr_ready lib pb.ltr (lib.mode_is_uvs pb.ltr w))
          refl (inr (refl, refl, refl, refl, refl, refl))
    take_bme-Told r (true, w) =
        take_ltr-Told pb_ok _
          (ltr_ready lib pb.ltr (lib.mode_is_uvs pb.ltr (lib.read_altitude pb.bme w).1)) refl
          (inl refl)

    -- Where the luminosity is a word of 32 bits, a reading ends with PB_OK exactly if every sensor
    -- is valid, and else with PB_SENSOR_READ_DEGRADED; the values of a sensor that is not valid are
    -- zero, and the two raw channels are the halves of the full spectrum.
    pub read_sensors-Told : (r : Readings F) (w : W) → Ends (read_sensors lib pb r w)
    unfolding read_sensors
    read_sensors-Told r w = take_bme-Told r (lib.perform_reading pb.bme w)
