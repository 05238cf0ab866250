-- ===== src/Purpleboard/Fresh.antt =====
-- A reading does not depend on the readings of before.
use leos_sdk.Prelude.{Bool, true, false, Option, none, some, ◌≡◌, refl, ap}
use leos_sdk.Purpleboard.Types.{
  Result, pb_ok, pb_sensor_read_degraded, Purpleboard, AqiData, Readings, Library,
}
use leos_sdk.Purpleboard.Read.{take_bme, ltr_ready, take_ltr, take_aqi, take_tsl, read_sensors}
use leos_sdk.Purpleboard.Validity.{after_aqi, after_ltr, after_bme}

-- The readings without those of the light sensor; and without more of them.
module _ {F : Type 0} (z : F) where
  abbrev but_tsl : Readings F → Readings F
  but_tsl r = record r {
    tsl2591_valid = false;
    lux = z;
    raw_visible = 0;
    raw_infrared = 0;
    raw_full_spectrum = 0;
  }

  abbrev but_aqi : Readings F → Readings F
  but_aqi r = record (but_tsl r) {
    pmsa003i_valid = false;
    pm10_env = 0;
    pm25_env = 0;
    pm100_env = 0;
    aqi_pm25_us = 0;
    aqi_pm100_us = 0;
    particles_03um = 0;
    particles_05um = 0;
    particles_10um = 0;
    particles_25um = 0;
    particles_50um = 0;
    particles_100um = 0;
  }

  abbrev but_ltr : Readings F → Readings F
  but_ltr r = record (but_aqi r) { ltr390_valid = false; ltr390_uvs = 0 }

module _ {W F : Type 0} (lib : Library W F) (pb : Purpleboard) where
  take_tsl_same :
      (result : Result) (r r' : Readings F) (o : Option F × W)
      → but_tsl lib.zero_float r ≡ but_tsl lib.zero_float r'
      → take_tsl lib pb.tsl result r o ≡ take_tsl lib pb.tsl result r' o
  unfolding take_tsl
  take_tsl_same result r r' (none, w) e = ap (λ r. take_tsl lib pb.tsl result r (none, w)) e
  take_tsl_same result r r' (some light, w) e =
      ap (λ r. take_tsl lib pb.tsl result r (some light, w)) e

  take_aqi_same :
      (result : Result) (r r' : Readings F) (o : Option AqiData × W)
      → but_aqi lib.zero_float r ≡ but_aqi lib.zero_float r'
      → after_aqi lib pb (take_aqi lib result r o) ≡ after_aqi lib pb (take_aqi lib result r' o)
  unfolding take_aqi
  take_aqi_same result r r' (none, w) e =
      take_tsl_same pb_sensor_read_degraded _ _ (lib.get_event pb.tsl w)
        (ap (λ r. but_tsl lib.zero_float (take_aqi lib result r (none, w)).1) e)
  take_aqi_same result r r' (some d, w) e =
      take_tsl_same result _ _ (lib.get_event pb.tsl w)
        (ap (λ r. but_tsl lib.zero_float (take_aqi lib result r (some d, w)).1) e)

  take_ltr_same :
      (result : Result) (r r' : Readings F) (o : Bool × W)
      → but_ltr lib.zero_float r ≡ but_ltr lib.zero_float r'
      → after_ltr lib pb (take_ltr lib pb.ltr result r o)
        ≡ after_ltr lib pb (take_ltr lib pb.ltr result r' o)
  unfolding take_ltr
  take_ltr_same result r r' (false, w) e =
      take_aqi_same pb_sensor_read_degraded _ _ (lib.aqi_read pb.aqi w)
        (ap (λ r. but_aqi lib.zero_float (take_ltr lib pb.ltr result r (false, w)).1) e)
  take_ltr_same result r r' (true, w) e =
      take_aqi_same result _ _ (lib.aqi_read pb.aqi (lib.read_uvs pb.ltr w).1)
        (ap (λ r. but_aqi lib.zero_float (take_ltr lib pb.ltr result r (true, w)).1) e)

  take_bme_same :
      (r r' : Readings F) (o : Bool × W)
      → after_bme lib pb (take_bme lib pb.bme pb_ok r o)
        ≡ after_bme lib pb (take_bme lib pb.bme pb_ok r' o)
  unfolding take_bme
  take_bme_same r r' (false, w) =
      take_ltr_same pb_sensor_read_degraded _ _ (ltr_ready lib pb.ltr (lib.mode_is_uvs pb.ltr w))
        refl
  take_bme_same r r' (true, w) =
      take_ltr_same pb_ok _ _
        (ltr_ready lib pb.ltr (lib.mode_is_uvs pb.ltr (lib.read_altitude pb.bme w).1)) refl

  -- A reading stores every field: what is there afterwards, the result and the calls do not depend
  -- on what was there before.
  pub read_sensors_same :
      (r r' : Readings F) (w : W) → read_sensors lib pb r w ≡ read_sensors lib pb r' w
  unfolding read_sensors
  read_sensors_same r r' w = take_bme_same r r' (lib.perform_reading pb.bme w)
