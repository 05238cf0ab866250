-- ===== src/Purpleboard/Examples.antt =====
-- The theorems about the sensor board at sensors of which some do not answer.
use leos_sdk.Prelude.{ℕ, ◌+◌, ◌/◌, Bool, true, false, if◌then◌else◌, none, some, ◌≡◌, refl, arith}
use leos_sdk.Purpleboard.Types.{Purpleboard, AqiData, Readings, Library}
use leos_sdk.Purpleboard.Board.{init, deinit}
use leos_sdk.Purpleboard.Read.{read_sensors}
use leos_sdk.Purpleboard.Validity.{Told, read_sensors-Told}
use leos_sdk.Purpleboard.Fresh.{read_sensors_same}
use leos_sdk.Purpleboard.Objects.{
  Counts, count_new, count_delete, CountsObjects, owned, deinit-init_objects,
}

-- The sensors of which one does not answer, and a heap that counts. A float is a number.
record Lab : Type 0 where
  counts : Counts
  next : ℕ
  air_fails : Bool

abbrev make_one : Lab → ℕ × Lab
make_one w = (w.next, record w { counts = count_new (w.next, w.counts); next = w.next + 1 })

abbrev particles : AqiData
particles = record {
  pm10_env = 1;
  pm25_env = 2;
  pm100_env = 3;
  aqi_pm25_us = 4;
  aqi_pm100_us = 5;
  particles_03um = 6;
  particles_05um = 7;
  particles_10um = 8;
  particles_25um = 9;
  particles_50um = 10;
  particles_100um = 11;
}

abbrev lab : Library Lab ℕ
lab = record {
  new_purpleboard = λ w. make_one w;
  new_two_wire = λ i d c w. make_one w;
  new_bme680 = λ a w. make_one w;
  new_ltr390 = λ w. make_one w;
  new_pm25aqi = λ w. make_one w;
  new_tsl2591 = λ w. make_one w;
  delete = λ a w. record w { counts = count_delete a w.counts };
  bme_begin = λ a w. (true, w);
  ltr_begin = λ a b w. (true, w);
  aqi_begin_i2c = λ a b w. (false, w);
  tsl_begin = λ a b w. (true, w);
  set_temperature_oversampling_8x = λ a w. w;
  set_humidity_oversampling_2x = λ a w. w;
  set_pressure_oversampling_4x = λ a w. w;
  set_iir_filter_size_3 = λ a w. w;
  set_gas_heater_320_150 = λ a w. w;
  set_mode_uvs = λ a w. w;
  set_resolution_16bit = λ a w. w;
  set_gain_1 = λ a w. w;
  ltr_disable = λ a w. w;
  set_gain_med = λ a w. w;
  set_timing_300ms = λ a w. w;
  perform_reading = λ a w. (true, w);
  temperature = λ a w. 21;
  pressure = λ a w. 101325;
  humidity = λ a w. 40;
  gas_resistance = λ a w. 9000;
  read_altitude = λ a w. (12, w);
  mode_is_uvs = λ a w. (true, w);
  new_data_available = λ a w. (false, w);
  read_uvs = λ a w. (7, w);
  aqi_read = λ a w. (if w.air_fails then none else some particles, w);
  get_event = λ a w. (some 300, w);
  get_full_luminosity = λ a w. (0x00200153, w);
  zero_float = 0;
  hundredth = λ x. x / 100;
}

lab-CountsObjects : CountsObjects lab (λ w. w.counts)
lab-CountsObjects = record {
  new_purpleboard = λ w. refl;
  new_two_wire = λ i d c w. refl;
  new_bme680 = λ a w. refl;
  new_ltr390 = λ w. refl;
  new_pm25aqi = λ w. refl;
  new_tsl2591 = λ w. refl;
  delete = λ a w. refl;
  bme_begin = λ a w. refl;
  ltr_begin = λ a b w. refl;
  aqi_begin_i2c = λ a b w. refl;
  tsl_begin = λ a b w. refl;
  set_temperature_oversampling_8x = λ a w. refl;
  set_humidity_oversampling_2x = λ a w. refl;
  set_pressure_oversampling_4x = λ a w. refl;
  set_iir_filter_size_3 = λ a w. refl;
  set_gas_heater_320_150 = λ a w. refl;
  set_mode_uvs = λ a w. refl;
  set_resolution_16bit = λ a w. refl;
  set_gain_1 = λ a w. refl;
  ltr_disable = λ a w. refl;
  set_gain_med = λ a w. refl;
  set_timing_300ms = λ a w. refl;
}

abbrev bare_lab : Lab
bare_lab = record {
  counts = record { made = λ q. 0; deleted = λ q. 0 };
  next = 100;
  air_fails = true;
}

abbrev a_board : Purpleboard
a_board = record {
  self = 1;
  i2c_block = 0;
  sda = 4;
  scl = 5;
  wire = 2;
  bme = 3;
  ltr = 4;
  aqi = 5;
  tsl = 6;
}

-- Readings full of a value.
abbrev filled : ℕ → Readings ℕ
filled n = record {
  bme680_valid = true;
  tsl2591_valid = true;
  ltr390_valid = true;
  pmsa003i_valid = true;
  temperature_c = n;
  pressure_mb = n;
  humidity = n;
  altitude_m = n;
  gas_resistance = n;
  lux = n;
  raw_visible = n;
  raw_infrared = n;
  raw_full_spectrum = n;
  ltr390_uvs = n;
  pm10_env = n;
  pm25_env = n;
  pm100_env = n;
  aqi_pm25_us = n;
  aqi_pm100_us = n;
  particles_03um = n;
  particles_05um = n;
  particles_10um = n;
  particles_25um = n;
  particles_50um = n;
  particles_100um = n;
}

read_sensors-Told_example : let o = read_sensors lab a_board (filled 77) bare_lab in Told 0 o.1 o.0
read_sensors-Told_example = read_sensors-Told lab a_board (λ w. omega arith) (filled 77) bare_lab

read_sensors_same_example :
    read_sensors lab a_board (filled 77) bare_lab ≡ read_sensors lab a_board (filled 78) bare_lab
read_sensors_same_example = read_sensors_same lab a_board (filled 77) (filled 78) bare_lab

deinit-init_objects_example :
    let (_, pb, w') = init lab 0 4 5 bare_lab in
    let w'' = deinit lab (some pb) w' in
    (w'.counts.made 103 ≡ owned pb 103 + 0)
    × (w'.counts.deleted 103 ≡ 0)
    × (w''.counts.made 103 ≡ w'.counts.made 103)
    × (w''.counts.deleted 103 ≡ owned pb 103 + 0)
deinit-init_objects_example =
    deinit-init_objects lab (λ w. w.counts) lab-CountsObjects 0 4 5 bare_lab 103
