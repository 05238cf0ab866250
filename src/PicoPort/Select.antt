-- ===== src/PicoPort/Select.antt =====
-- The levels of the pins over a transfer.
use leos_sdk.Prelude.{
  ℕ, Bool, true, false, if◌then◌else◌, if_cases, if-if, ltb, ◌==◌, Option, none, some, Buffer, ◌≡◌,
  refl, ◌∙◌,
}
use leos_sdk.Sx126x.Context.{Context}
use leos_sdk.PicoPort.Sdk.{Sdk, State}
use leos_sdk.PicoPort.Port.{written, was_read, raised, read_after, spi_write_read_ctx}

-- What the SDK documents of an output pin: it has the level that was put, and an exchange on a SPI
-- block changes no pin that the port drives.
pub record DrivesPins {W : Type 0} (sdk : Sdk W) (level : ℕ → W → Bool) : Type 0 where
  pub gpio_put :
      (pin p : ℕ) (v : Bool) (w : W)
      → level pin (sdk.gpio_put p v w) ≡ (if pin == p then v else level pin w)
  pub spi_write_blocking :
      (pin port : ℕ) (buf : Buffer) (len : ℕ) (w : W)
      → level pin (sdk.spi_write_blocking port buf len w).1 ≡ level pin w
  pub spi_read_blocking :
      (pin port len : ℕ) (w : W) → level pin (sdk.spi_read_blocking port len w).1 ≡ level pin w

module _ {W : Type 0} (sdk : Sdk W) (level : ℕ → W → Bool) (drives : DrivesPins sdk level) where
  -- The world `w` has the level that `w0` gives to the pin once NSS is put high.
  IsRestored : ℕ → ℕ → W → W → Type 0
  IsRestored nss pin w0 w = level pin w ≡ (if pin == nss then true else level pin w0)

  written-level :
      (pin : ℕ) (in_buf : Option Buffer) (len port : ℕ) (w : W)
      → level pin (written sdk in_buf len port w).1 ≡ level pin w
  written-level pin none len port w = refl
  written-level pin (some buf) len port w =
      if_cases (λ (p : Bool × W). level pin p.1 ≡ level pin w) (ltb 0 len)
        (λ _. drives.spi_write_blocking pin port buf len w) (λ _. refl)

  was_read-level :
      (pin : ℕ) (out : Bool) (len port : ℕ) (w : W)
      → level pin (was_read sdk out len port w).1 ≡ level pin w
  was_read-level pin false len port w = refl
  was_read-level pin true len port w =
      if_cases (λ (p : Bool × W). level pin p.1 ≡ level pin w) (ltb 0 len)
        (λ _. drives.spi_read_blocking pin port len w) (λ _. refl)

  -- After NSS was put low.
  IsLowered : ℕ → ℕ → W → W → Type 0
  IsLowered nss pin w0 w = level pin w ≡ (if pin == nss then false else level pin w0)

  raised-IsRestored :
      (nss pin : ℕ) (w0 : W) (p : Bool × W)
      → IsLowered nss pin w0 p.1
      → IsRestored nss pin w0 (raised sdk nss p).1
  unfolding IsLowered IsRestored
  raised-IsRestored nss pin w0 (fine, w) e =
      rw (drives.gpio_put pin nss true w, e) (if-if (pin == nss) _ _ _)

  read_after-IsRestored :
      (nss pin : ℕ) (out : Bool) (len port : ℕ) (w0 : W) (p : Bool × W)
      → IsLowered nss pin w0 p.1
      → IsRestored nss pin w0 (read_after sdk nss out len port p).1
  unfolding IsLowered
  read_after-IsRestored nss pin out len port w0 (false, w) e =
      raised-IsRestored nss pin w0 (false, w) e
  read_after-IsRestored nss pin out len port w0 (true, w) e =
      raised-IsRestored nss pin w0 (was_read sdk out len port w)
        (was_read-level pin out len port w ∙ e)

  -- After a transfer of a context, whatever it answers, NSS is high and every other pin has its
  -- level of before.
  pub spi_write_read_ctx-level :
      (ctx : Context) (in_buf : Option Buffer) (in_len : ℕ) (out : Bool) (out_len : ℕ) (s : State W)
      (pin : ℕ)
      → level pin (spi_write_read_ctx sdk (some ctx) in_buf in_len out out_len s).1
        ≡ (if pin == ctx.hw_config.pin_nss then true else level pin s.world)
  unfolding spi_write_read_ctx IsLowered IsRestored
  spi_write_read_ctx-level ctx in_buf in_len out out_len s pin =
      let nss = ctx.hw_config.pin_nss in
      let w = sdk.gpio_put nss false s.world in
      read_after-IsRestored nss pin out out_len s.g_spi_port s.world
        (written sdk in_buf in_len s.g_spi_port w)
        (written-level pin in_buf in_len s.g_spi_port w ∙ drives.gpio_put pin nss false s.world)
