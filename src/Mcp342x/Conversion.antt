-- ===== src/Mcp342x/Conversion.antt =====
-- The conversion loop against a relation that says what waiting for the device means.
use mathlib.Core.Path.{subst}
use mathlib.Core.Option.{some-injective}
use Prim.Native.Nat.{bit_or}
use leos_sdk.Prelude.{
  ℕ, zero, suc, ◌+◌, ◌/◌, ◌%◌, ◌≤◌, ◌<◌, Bool, true, false, Bool-cases, ◌==◌, ==_iff, ◌≡◌, ◌↔◌, ◌⊎◌,
  inl, inr, refl, arith, some,
}
use leos_sdk.Prelude.Words.{holds_until, holds_until_at}
use leos_sdk.Prelude.Int.{ℤ, pos, is_negative}
use leos_sdk.Mcp342x.Device.{Device, I2c}
use leos_sdk.Mcp342x.Read.{
  failed, sampled, decode, Reading, error, reading, read_raw, wait_ready, after_sample, trigger,
  read_blocking,
}
use leos_sdk.Mcp342x.Samples.{sample_value, decode-sample_value}

mod_two_cases : (n : ℕ) → (n % 2 ≡ 0) ⊎ (n % 2 ≡ 1)
mod_two_cases n = ground arith

start_test : ℕ → Bool
start_test c = bit_or c 0x80 == c % 128 + 128

start_table : holds_until start_test 256 ≡ true
unfolding holds_until start_test
start_table = refl

-- The byte with RDY set.
start_byte : (c : ℕ) → c < 256 → bit_or c 0x80 ≡ c % 128 + 128
start_byte c h = (==_iff _ _).0 (unfold start_test in holds_until_at start_test 256 h start_table)

module _ {W : Type 0} (bus : I2c W) (dev : Device) where
  -- From the world `w` the device is polled `n` times, 200 us apart, until a sample is ready or a
  -- transfer fails; that is the outcome, and the world is then `w'`.
  pub data Waits : W → ℕ → Reading → W → Type 0 where
    fails :
        {w w' : W} {ret : ℤ} {b0 b1 b2 : ℕ}
        → bus.read dev.i2c dev.address w ≡ (ret, b0, b1, b2, w')
        → is_negative ret ≡ true
        → Waits w (suc zero) (error ret) w'
    ready :
        {w w' : W} {ret : ℤ} {b0 b1 b2 : ℕ}
        → bus.read dev.i2c dev.address w ≡ (ret, b0, b1, b2, w')
        → is_negative ret ≡ false
        → b2 / 128 % 2 ≡ 0
        → Waits w (suc zero) (reading (sample_value (dev.config / 4 % 4) b0 b1)) w'
    waits :
        {w w₁ w' : W} {ret : ℤ} {b0 b1 b2 n : ℕ} {r : Reading}
        → bus.read dev.i2c dev.address w ≡ (ret, b0, b1, b2, w₁)
        → is_negative ret ≡ false
        → b2 / 128 % 2 ≡ 1
        → Waits (bus.sleep_us 200 w₁) n r w'
        → Waits w (suc n) r w'

  -- The three outcomes of one sample.
  read_raw_failed :
      {w w' : W} {ret : ℤ} {b0 b1 b2 : ℕ}
      → bus.read dev.i2c dev.address w ≡ (ret, b0, b1, b2, w')
      → is_negative ret ≡ true
      → read_raw bus dev w ≡ (failed ret, w')
  unfolding read_raw
  read_raw_failed e neg = rw (e, neg) refl

  read_raw_ready :
      {w w' : W} {ret : ℤ} {b0 b1 b2 : ℕ}
      → bus.read dev.i2c dev.address w ≡ (ret, b0, b1, b2, w')
      → is_negative ret ≡ false
      → b2 / 128 % 2 ≡ 0
      → read_raw bus dev w ≡ (sampled (sample_value (dev.config / 4 % 4) b0 b1) true, w')
  unfolding read_raw
  read_raw_ready {w} {w'} {ret} {b0} {b1} {b2} e ok low =
      rw (e, ok, low, decode-sample_value (dev.config / 4 % 4) b0 b1) refl

  read_raw_waits :
      {w w' : W} {ret : ℤ} {b0 b1 b2 : ℕ}
      → bus.read dev.i2c dev.address w ≡ (ret, b0, b1, b2, w')
      → is_negative ret ≡ false
      → b2 / 128 % 2 ≡ 1
      → read_raw bus dev w ≡ (sampled (decode (dev.config / 4 % 4) b0 b1) false, w')
  unfolding read_raw
  read_raw_waits e ok high = rw (e, ok, high) refl

  -- Polling that ends after `n` samples is what the loop computes, on any fuel of at least `n`.
  pub Waits-wait_ready :
      {w : W} {n : ℕ} {r : Reading} {w' : W}
      → Waits w n r w'
      → (fuel : ℕ) → n ≤ fuel
      → wait_ready bus fuel dev w ≡ some (r, w')
  unfolding wait_ready after_sample
  Waits-wait_ready (fails e neg) zero h = absurd (omega arith)
  Waits-wait_ready (fails e neg) (suc fuel) h = rw (read_raw_failed e neg)
  Waits-wait_ready (ready e ok low) zero h = absurd (omega arith)
  Waits-wait_ready (ready e ok low) (suc fuel) h = rw (read_raw_ready e ok low)
  Waits-wait_ready (waits e ok high d) zero h = absurd (omega arith)
  Waits-wait_ready (waits e ok high d) (suc fuel) h =
      rw (read_raw_waits e ok high) (Waits-wait_ready d fuel (omega arith))

  -- The outcome of one round of the loop, from what the device answers.
  round :
      (fuel : ℕ) {w : W} {r : Reading} {w' : W}
      → ((w₁ : W)
          → wait_ready bus fuel dev w₁ ≡ some (r, w')
          → (n : ℕ) × (n ≤ fuel) × Waits w₁ n r w')
      → (ret : ℤ) (b0 b1 b2 : ℕ) (w₁ : W) → bus.read dev.i2c dev.address w ≡ (ret, b0, b1, b2, w₁)
      → after_sample bus (λ w₂. wait_ready bus fuel dev w₂) (read_raw bus dev w) ≡ some (r, w')
      → (n : ℕ) × (n ≤ suc fuel) × Waits w n r w'
  unfolding after_sample
  round fuel {w} {r} {w'} rest ret b0 b1 b2 w₁ e done = elim (Bool-cases (is_negative ret)) [
    | inl neg ↦ (
      1,
      omega arith,
      subst (λ p. Waits w 1 p.0 p.1) (some-injective _ _ (rw (read_raw_failed e neg) at done))
          (fails e neg),
    )
    | inr ok ↦ elim (mod_two_cases (b2 / 128)) [
      | inl low ↦ (
        1,
        omega arith,
        subst (λ p. Waits w 1 p.0 p.1) (some-injective _ _ (rw (read_raw_ready e ok low) at done))
            (ready e ok low),
      )
      | inr high ↦
          let again = rw (read_raw_waits e ok high) at done in
          let (n, bound, d) = rest (bus.sleep_us 200 w₁) again in
          (suc n, omega arith, waits e ok high d)
    ]
  ]

  wait_ready-Waits :
      (fuel : ℕ) {w : W} {r : Reading} {w' : W}
      → wait_ready bus fuel dev w ≡ some (r, w')
      → (n : ℕ) × (n ≤ fuel) × Waits w n r w'
  unfolding wait_ready
  wait_ready-Waits zero done = absurd (cc done)
  wait_ready-Waits (suc fuel) {w} done =
      let (ret, b0, b1, b2, w₁) = bus.read dev.i2c dev.address w in
      round fuel (λ w₂. wait_ready-Waits fuel {w = w₂}) ret b0 b1 b2 w₁ refl done

  -- A loop that ends on some fuel has done no more rounds than that.
  wait_ready_iff :
      (fuel : ℕ) {w : W} {r : Reading} {w' : W}
      → (wait_ready bus fuel dev w ≡ some (r, w')) ↔ ((n : ℕ) × (n ≤ fuel) × Waits w n r w')
  wait_ready_iff fuel = (wait_ready-Waits fuel, λ (n, h, d). Waits-wait_ready d fuel h)

  -- What read_blocking means: in one-shot mode, where the bit 16 of the configuration is clear,
  -- the byte `start` is written first, and a write that fails is the outcome; in continuous mode
  -- the device is only polled.
  pub data Reads (start : ℕ) : W → ℕ → Reading → W → Type 0 where
    refused :
        {w w' : W} {ret : ℤ} {n : ℕ}
        → dev.config / 16 % 2 ≡ 0
        → bus.write dev.i2c dev.address start w ≡ (ret, w')
        → is_negative ret ≡ true
        → Reads start w n (error ret) w'
    started :
        {w w₁ w' : W} {ret : ℤ} {n : ℕ} {r : Reading}
        → dev.config / 16 % 2 ≡ 0
        → bus.write dev.i2c dev.address start w ≡ (ret, w₁)
        → is_negative ret ≡ false
        → Waits w₁ n r w'
        → Reads start w n r w'
    continuous :
        {w w' : W} {n : ℕ} {r : Reading}
        → dev.config / 16 % 2 ≡ 1
        → Waits w n r w'
        → Reads start w n r w'

  trigger_one_shot :
      (w : W)
      → dev.config / 16 % 2 ≡ 0
      → trigger bus dev w ≡ bus.write dev.i2c dev.address (bit_or dev.config 0x80) w
  unfolding trigger
  trigger_one_shot w mode = rw mode refl

  trigger_continuous : (w : W) → dev.config / 16 % 2 ≡ 1 → trigger bus dev w ≡ (pos 0, w)
  unfolding trigger
  trigger_continuous w mode = rw mode refl

  pub read_blocking-Reads :
      (fuel : ℕ) {w : W} {r : Reading} {w' : W}
      → read_blocking bus fuel dev w ≡ some (r, w')
      → (n : ℕ) × (n ≤ fuel) × Reads (bit_or dev.config 0x80) w n r w'
  unfolding read_blocking
  read_blocking-Reads fuel {w} {r} {w'} done =
      let byte = bit_or dev.config 0x80 in
      let (ret, w₁) = bus.write dev.i2c dev.address byte w in
      elim (mod_two_cases (dev.config / 16)) [
        | inr mode ↦
            let (n, h, d) = wait_ready-Waits fuel (rw (trigger_continuous w mode) at done) in
            (n, h, continuous mode d)
        | inl mode ↦ elim (Bool-cases (is_negative ret)) [
          | inl neg ↦ (
            0,
            omega arith,
            subst (λ p. Reads byte w 0 p.0 p.1)
                (some-injective _ _ (rw (trigger_one_shot w mode, neg) at done))
                (refused mode refl neg),
          )
          | inr ok ↦
              let (n, h, d) = wait_ready-Waits fuel (rw (trigger_one_shot w mode, ok) at done) in
              (n, h, started mode refl ok d)
        ]
      ]

  Reads-read_blocking :
      {w : W} {n : ℕ} {r : Reading} {w' : W}
      → Reads (bit_or dev.config 0x80) w n r w'
      → (fuel : ℕ) → n ≤ fuel
      → read_blocking bus fuel dev w ≡ some (r, w')
  unfolding read_blocking
  Reads-read_blocking (refused {w} mode e neg) fuel h = rw (trigger_one_shot w mode, e, neg)
  Reads-read_blocking (started {w} mode e ok d) fuel h =
      rw (trigger_one_shot w mode, e, ok) (Waits-wait_ready d fuel h)
  Reads-read_blocking (continuous {w} mode d) fuel h =
      rw (trigger_continuous w mode) (Waits-wait_ready d fuel h)

  -- For a configuration byte, on a given fuel, read_blocking ends with an outcome exactly if the
  -- device gives that outcome within as many samples. In one-shot mode that is the error of a
  -- write of the configuration with RDY set, and in both modes, after that write or with none, the
  -- error of a read that fails or the value of the first sample with RDY low, where the samples
  -- before it, each followed by a wait of 200 us, have RDY high.
  pub read_blocking_iff :
      (fuel : ℕ) (w : W) (r : Reading) (w' : W)
      → dev.config < 256
      → (read_blocking bus fuel dev w ≡ some (r, w'))
        ↔ ((n : ℕ) × (n ≤ fuel) × Reads (dev.config % 128 + 128) w n r w')
  read_blocking_iff fuel w r w' byte =
      rw (← start_byte dev.config byte)
        (read_blocking-Reads fuel, λ (n, h, d). Reads-read_blocking d fuel h)
