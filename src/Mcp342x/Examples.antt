-- ===== src/Mcp342x/Examples.antt =====
-- A bus whose device is ready after some polls, and the theorems at it.
use leos_sdk.Prelude.{◌%◌, ℕ, ◌-◌, ◌<◌, ◌≤◌, ◌≡◌, ◌↔◌, refl, arith, some, if◌then◌else◌, ◌==◌}
use leos_sdk.Prelude.Int.{ℤ, pos, negsuc, IsWithin}
use leos_sdk.Mcp342x.Device.{
  Device, I2c, set_resolution, write_config, with_resolution, default_config,
}
use leos_sdk.Mcp342x.Read.{
  reading, decode, shift_of, read_raw, after_sample, wait_ready, trigger, read_blocking, Floats,
  no_voltage, volts, read_voltage,
}
use leos_sdk.Mcp342x.Samples.{decode-IsWithin, decode-left_aligned}
use leos_sdk.Mcp342x.Conversion.{Reads, read_blocking_iff}
use leos_sdk.Mcp342x.Voltage.{ReadsBytes, read_blocking-IsWithin, read_voltage-set_resolution}

-- The state is the number of polls that find the conversion still running; each sample is 0xFFC0.
abbrev slow_bus : I2c ℕ
slow_bus = record {
  setup = λ block sda scl w. w;
  write = λ block addr byte w. (pos 1, 2);
  read = λ block addr w. (pos 3, 0xFF, 0xC0, if w == 0 then 0x10 else 0x90, w);
  sleep_us = λ us w. w - 1;
}

abbrev adc : Device
adc = record { i2c = 0; address = 0x68; config = default_config }

abbrev float_ops : Floats ℤ
float_ops = record {
  scale = λ raw lsb. raw;
  divide = λ value gain. value;
  lsb_1mv = pos 0;
  lsb_250uv = pos 0;
  lsb_62uv5 = pos 0;
}

-- With two rounds of waiting the sample is -64 / 16.
slow_reading : read_blocking slow_bus 5 adc 2 ≡ some (reading (negsuc 3), 0)
unfolding read_blocking trigger wait_ready after_sample read_raw decode shift_of
slow_reading = refl

slow_reading_16 :
    read_blocking slow_bus 5 (set_resolution slow_bus adc 2 0).1 2 ≡ some (reading (negsuc 63), 0)
unfolding read_blocking trigger wait_ready after_sample read_raw decode shift_of set_resolution
    write_config with_resolution
slow_reading_16 = refl

slow_bus-ReadsBytes : ReadsBytes slow_bus adc
slow_bus-ReadsBytes = record { first_byte = λ w. omega arith; second_byte = λ w. omega arith }

decode-IsWithin_example : IsWithin 2048 (decode 0 0xFF 0xC0)
decode-IsWithin_example = decode-IsWithin 0 0xFF 0xC0 (omega arith) (omega arith)

decode-left_aligned_example : decode 0 0xFF 0xC0 ≡ negsuc 3
decode-left_aligned_example = decode-left_aligned 0 (negsuc 3) (omega arith)

-- The device in one-shot mode, at 16 bits; the write that starts a conversion makes it busy.
abbrev one_shot : Device
one_shot = record { i2c = 0; address = 0x68; config = 0x08 }

one_shot_reading : read_blocking slow_bus 5 one_shot 0 ≡ some (reading (negsuc 63), 0)
unfolding read_blocking trigger wait_ready after_sample read_raw decode shift_of
one_shot_reading = refl

read_blocking_iff_example :
    (read_blocking slow_bus 5 one_shot 0 ≡ some (reading (negsuc 63), 0))
    ↔ ((n : ℕ) × (n ≤ 5) × Reads slow_bus one_shot 0x88 0 n (reading (negsuc 63)) 0)
read_blocking_iff_example =
    read_blocking_iff slow_bus one_shot 5 0 (reading (negsuc 63)) 0 (omega arith)

read_blocking-IsWithin_example : IsWithin 2048 (negsuc 3)
read_blocking-IsWithin_example =
    read_blocking-IsWithin slow_bus adc slow_bus-ReadsBytes 5 2 (negsuc 3) 0 slow_reading

read_voltage-set_resolution_example :
    let dev' = (set_resolution slow_bus adc 2 0).1 in
    (2 % 4 ≡ 3 → read_voltage slow_bus float_ops 5 dev' 2 ≡ some (no_voltage (negsuc 0), 0))
    × (2 < 3 → read_voltage slow_bus float_ops 5 dev' 2 ≡ some (volts (negsuc 63), 0))
read_voltage-set_resolution_example =
    read_voltage-set_resolution slow_bus float_ops adc 2 0 (omega arith) 5 (negsuc 63) 2 0
      slow_reading_16
