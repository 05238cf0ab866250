-- ===== src/Mcp342x/Fields.antt =====
-- The configuration byte as fields.
use Prim.Native.Nat.{bit_and, bit_or}
use leos_sdk.Prelude.{
  ℕ, ◌+◌, ◌-◌, ◌*◌, ◌/◌, ◌%◌, ◌<◌, Bool, true, ◌≡◌, refl, ap, ◌∙◌, arith, ◌==◌, ==_iff,
}
use leos_sdk.Prelude.Words.{holds_until, holds_until_at}
use leos_sdk.Mcp342x.Device.{with_channel, with_gain, with_resolution, with_mode}

-- RDY, the channel, the mode, the resolution and the gain, from the high bit down.
pub record Fields : Type 0 where
  pub rdy : ℕ
  pub channel : ℕ
  pub mode : ℕ
  pub resolution : ℕ
  pub gain : ℕ

abbrev pub fields : ℕ → Fields
fields config = record {
  rdy = config / 128;
  channel = config / 32 % 4;
  mode = config / 16 % 2;
  resolution = config / 4 % 4;
  gain = config % 4;
}

-- The update replaces the field of `size` values at the place `unit`, at these two numbers.
field_test : (ℕ → ℕ → ℕ) → ℕ → ℕ → ℕ → ℕ → Bool
field_test update unit size c v = update c v == c - c / unit % size * unit + v * unit

field_row : (ℕ → ℕ → ℕ) → ℕ → ℕ → ℕ → Bool
unfolding field_test
field_row update unit size c = holds_until (field_test update unit size c) size

field_lem :
    (update : ℕ → ℕ → ℕ) (unit size c v : ℕ)
    → holds_until (field_row update unit size) 256 ≡ true
    → c < 256
    → v < size
    → update c v ≡ c - c / unit % size * unit + v * unit
field_lem update unit size c v table h l = (==_iff _ _).0 (
    unfold field_row in
    holds_until_at (field_test update unit size c) size l
      (holds_until_at (field_row update unit size) 256 h table))

channel_table : holds_until (field_row with_channel 32 4) 256 ≡ true
unfolding holds_until field_row with_channel
channel_table = refl

gain_table : holds_until (field_row with_gain 1 4) 256 ≡ true
unfolding holds_until field_row with_gain
gain_table = refl

resolution_table : holds_until (field_row with_resolution 4 4) 256 ≡ true
unfolding holds_until field_row with_resolution
resolution_table = refl

mode_table : holds_until (field_row with_mode 16 2) 256 ≡ true
unfolding holds_until field_row with_mode
mode_table = refl

-- A configuration byte with the given fields.
pub record IsUpdate (c' : ℕ) (wanted : Fields) : Type 0 where
  pub is_byte : c' < 256
  pub rdy_bit : (fields c').rdy ≡ wanted.rdy
  pub channel_bits : (fields c').channel ≡ wanted.channel
  pub mode_bit : (fields c').mode ≡ wanted.mode
  pub resolution_bits : (fields c').resolution ≡ wanted.resolution
  pub gain_bits : (fields c').gain ≡ wanted.gain

with_channel-IsUpdate :
    (c v : ℕ)
    → c < 256
    → IsUpdate (with_channel c v) (let f = fields c in record f { channel = v % 4 })
with_channel-IsUpdate c v h =
    let e = field_lem with_channel 32 4 c (v % 4) channel_table h (omega arith) in
    let e' : with_channel c v ≡ with_channel c (v % 4) =
      unfold with_channel in ap (λ k. bit_or (bit_and c 0x9F) (k * 32)) (omega arith) in
    rw (e' ∙ e) (omega arith)

with_gain-IsUpdate :
    (c v : ℕ) → c < 256 → IsUpdate (with_gain c v) (let f = fields c in record f { gain = v % 4 })
with_gain-IsUpdate c v h =
    let e = field_lem with_gain 1 4 c (v % 4) gain_table h (omega arith) in
    let e' : with_gain c v ≡ with_gain c (v % 4) =
      unfold with_gain in ap (λ k. bit_or (bit_and c 0xFC) k) (omega arith) in
    rw (e' ∙ e) (omega arith)

pub with_resolution-IsUpdate :
    (c v : ℕ)
    → c < 256
    → IsUpdate (with_resolution c v) (let f = fields c in record f { resolution = v % 4 })
with_resolution-IsUpdate c v h =
    let e = field_lem with_resolution 4 4 c (v % 4) resolution_table h (omega arith) in
    let e' : with_resolution c v ≡ with_resolution c (v % 4) =
      unfold with_resolution in ap (λ k. bit_or (bit_and c 0xF3) (k * 4)) (omega arith) in
    rw (e' ∙ e) (omega arith)

with_mode-IsUpdate :
    (c v : ℕ) → c < 256 → IsUpdate (with_mode c v) (let f = fields c in record f { mode = v % 2 })
with_mode-IsUpdate c v h =
    let e = field_lem with_mode 16 2 c (v % 2) mode_table h (omega arith) in
    let e' : with_mode c v ≡ with_mode c (v % 2) =
      unfold with_mode in ap (λ k. bit_or (bit_and c 0xEF) (k * 16)) (omega arith) in
    rw (e' ∙ e) (omega arith)

-- Each setter's update of a configuration byte yields a byte in which its own field holds the low
-- bits of its argument and the other four fields are what they were.
pub setters-IsUpdate :
    (c v : ℕ)
    → c < 256
    → let f = fields c in
      IsUpdate (with_channel c v) (record f { channel = v % 4 })
      × IsUpdate (with_gain c v) (record f { gain = v % 4 })
      × IsUpdate (with_resolution c v) (record f { resolution = v % 4 })
      × IsUpdate (with_mode c v) (record f { mode = v % 2 })
setters-IsUpdate c v h = (
  with_channel-IsUpdate c v h,
  with_gain-IsUpdate c v h,
  with_resolution-IsUpdate c v h,
  with_mode-IsUpdate c v h,
)
