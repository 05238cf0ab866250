-- ===== src/Purpleboard/Board.antt =====
-- The start of the board and its end.
use leos_sdk.Prelude.{ℕ, Bool, true, false, Option, none, some}
use leos_sdk.Purpleboard.Types.{Result, pb_ok, pb_sensor_no_detect, Purpleboard, Library}

module _ {W F : Type 0} (lib : Library W F) where
  -- The structure with its objects, in the order in which they are made.
  unfoldable pub make : ℕ → ℕ → ℕ → W → Purpleboard × W
  make i2c sda scl w =
      let (self, w) = lib.new_purpleboard w in
      let (wire, w) = lib.new_two_wire i2c sda scl w in
      let (bme, w) = lib.new_bme680 wire w in
      let (ltr, w) = lib.new_ltr390 w in
      let (aqi, w) = lib.new_pm25aqi w in
      let (tsl, w) = lib.new_tsl2591 w in
      (
        record {
          self = self;
          i2c_block = i2c;
          sda = sda;
          scl = scl;
          wire = wire;
          bme = bme;
          ltr = ltr;
          aqi = aqi;
          tsl = tsl;
        },
        w,
      )

  -- The result so far is kept by a sensor that begins, which is then set up.
  abbrev pub detected : (W → W) → Result → Bool × W → Result × W
  detected set_up result (false, w) = (pb_sensor_no_detect, w)
  detected set_up result (true, w) = (result, set_up w)

  unfoldable pub set_up_bme : ℕ → W → W
  set_up_bme bme w = lib.set_gas_heater_320_150 bme (
      lib.set_iir_filter_size_3 bme (
        lib.set_pressure_oversampling_4x bme
          (lib.set_humidity_oversampling_2x bme (lib.set_temperature_oversampling_8x bme w))))

  unfoldable pub set_up_ltr : ℕ → W → W
  set_up_ltr ltr w = lib.set_gain_1 ltr (lib.set_resolution_16bit ltr (lib.set_mode_uvs ltr w))

  unfoldable pub set_up_tsl : ℕ → W → W
  set_up_tsl tsl w = lib.set_timing_300ms tsl (lib.set_gain_med tsl w)

  unfoldable pub begin_sensors : Purpleboard → W → Result × W
  unfolding set_up_bme set_up_ltr set_up_tsl
  begin_sensors pb w =
      let (r, w) = detected (λ w. set_up_bme pb.bme w) pb_ok (lib.bme_begin pb.bme w) in
      let (r, w) = detected (λ w. set_up_ltr pb.ltr w) r (lib.ltr_begin pb.ltr pb.wire w) in
      let (r, w) = detected (λ w. w) r (lib.aqi_begin_i2c pb.aqi pb.wire w) in
      detected (λ w. set_up_tsl pb.tsl w) r (lib.tsl_begin pb.tsl pb.wire w)

  -- The result, and what is stored in `*out_pb`, on every path.
  unfoldable pub init : ℕ → ℕ → ℕ → W → Result × Purpleboard × W
  unfolding make begin_sensors
  init i2c sda scl w =
      let (pb, w) = make i2c sda scl w in let (r, w) = begin_sensors pb w in (r, pb, w)

  unfoldable pub deinit : Option Purpleboard → W → W
  deinit none w = w
  deinit (some pb) w =
      let w = lib.ltr_disable pb.ltr w in
      lib.delete pb.self (
        lib.delete pb.wire
          (lib.delete pb.tsl (lib.delete pb.aqi (lib.delete pb.ltr (lib.delete pb.bme w)))))
